-- ===== src/Gatekeeper/Token/Withdrawn.antt =====
-- token/service.go: a token that was revoked is of no use.
use aegisbastion.Common.{
  Result, All, All-In, ◌++◌, ℕ, ◌≡◌, ◌≢◌, refl, sym, ap, subst, ◌∙◌, ◌&&◌, Bool, true, false, not,
  List, [], ◌∷◌, some, Text, text_eq, text_eq_refl, is_empty, In, inl, inr, arith, Bool-cases, ok,
  err≢ok,
}
use aegisbastion.Gatekeeper.Token.Types.{Error, Claims, Codec, Config, Issued, State, Draw}
use aegisbastion.Gatekeeper.Token.Jwt.{verify}
use aegisbastion.Gatekeeper.Token.Exchange.{find_issued, is_set, ExchangeRequest, exchange_token}
use aegisbastion.Gatekeeper.Policy.{Services, Clock, World}
use aegisbastion.Gatekeeper.Token.Renewal.{set_revoked, revoke_token, refresh_token}
use aegisbastion.Gatekeeper.Token.Loaded.{find_issued-In, verify_and_load-row}
use aegisbastion.Gatekeeper.Token.Narrowed.{exchange_token-narrows}
use aegisbastion.Gatekeeper.Token.Refreshed.{refresh_token-reauthorized}

-- Every row with the name is revoked.
abbrev AllRevoked : Text → List Issued → Type 0
AllRevoked jti is = (i : Issued) → In i is → i.claims.jti ≡ jti → is_set i.revoked_at ≡ true

set_revoked-AllRevoked :
    (jti : Text) (now : ℕ) (is : List Issued) → AllRevoked jti (set_revoked jti now is).0
unfolding set_revoked
set_revoked-AllRevoked jti now [] i m e = absurd m
set_revoked-AllRevoked jti now (x ∷ is) i m e =
    elim (Bool-cases (text_eq x.claims.jti jti && not (is_set x.revoked_at))) [
      | inl y ↦ hit (λ k. set_revoked-AllRevoked jti now is i k e) (rw (y, set_revoked) at m)
      | inr n ↦ missed n (λ k. set_revoked-AllRevoked jti now is i k e) (rw (n, set_revoked) at m)
    ]
  where
    hit :
        (In i (set_revoked jti now is).0 → is_set i.revoked_at ≡ true)
        → In i (record x { revoked_at = some now } ∷ (set_revoked jti now is).0)
        → is_set i.revoked_at ≡ true
    hit ih (inl s) = sym (ap (λ z. is_set z.revoked_at) s)
    hit ih (inr k) = ih k

    named : x ≡ i → text_eq x.claims.jti jti ≡ true
    named s =
        subst (λ z. text_eq z jti ≡ true) (sym (ap (λ z. z.claims.jti) s ∙ e)) (text_eq_refl jti)

    missed :
        (text_eq x.claims.jti jti && not (is_set x.revoked_at)) ≡ false
        → (In i (set_revoked jti now is).0 → is_set i.revoked_at ≡ true)
        → In i (x ∷ (set_revoked jti now is).0)
        → is_set i.revoked_at ≡ true
    missed n ih (inl s) = subst (λ z. is_set z.revoked_at ≡ true) s (ground (arith, n, named s))
    missed n ih (inr k) = ih k

set_revoked-none :
    (jti : Text) (now : ℕ) (is : List Issued)
    → (set_revoked jti now is).1 ≡ false
    → (set_revoked jti now is).0 ≡ is
unfolding set_revoked
set_revoked-none jti now [] h = refl
set_revoked-none jti now (x ∷ is) h =
    elim (Bool-cases (text_eq x.claims.jti jti && not (is_set x.revoked_at))) [
      | inl y ↦ absurd (true≢false (rw (y, set_revoked) at h))
      | inr n ↦
          rw (n, set_revoked)
            (ap (λ l. x ∷ l) (set_revoked-none jti now is (rw (n, set_revoked) at h)))
    ]
  where
    true≢false : true ≡ false → ⊥
    true≢false k = cc

revoke_token-issued :
    (d : Draw) (jti reason : Text) (st st' : State) (b : Bool)
    → revoke_token d jti reason st ≡ (st', ok b)
    → st'.issued ≡ (set_revoked jti d.now st.issued).0
unfolding revoke_token
revoke_token-issued d jti reason st st' b h = elim (Bool-cases (is_empty jti)) [
  | inl y ↦ absurd (err≢ok (ap (λ p. p.1) (rw (y, revoke_token) at h)))
  | inr n ↦ elim (Bool-cases (set_revoked jti d.now st.issued).1) [
    | inl y ↦ sym (ap (λ p. p.0.issued) (rw y at (rw (n, revoke_token) at h)))
    | inr f ↦
        sym (ap (λ p. p.0.issued) (rw f at (rw (n, revoke_token) at h)))
        ∙ sym (set_revoked-none jti d.now st.issued f)
  ]
]

-- A row that has another name changes nothing for the rows with the name.
append-AllRevoked :
    (jti : Text) (is others : List Issued)
    → AllRevoked jti is
    → All (λ i. i.claims.jti ≢ jti) others
    → AllRevoked jti (is ++ others)
append-AllRevoked jti [] others set new i m e =
    absurd (All-In (λ x. x.claims.jti ≢ jti) others i new m e)
append-AllRevoked jti (x ∷ is) others set new i (inl s) e = set i (inl s) e
append-AllRevoked jti (x ∷ is) others set new i (inr m) e =
    append-AllRevoked jti is others (λ j n f. set j (inr n) f) new i m e

-- What a token is presented for.
pub data Use : Type 0 where
  exchanges : Draw → ExchangeRequest → Use
  refreshes : Clock → Draw → Text → Text → World → Use

module _ (svc : Services) (k : Codec) (cfg : Config) where
  abbrev pub outcome : Use → State → Result Error (Text × Claims)
  outcome (exchanges d req) st = (exchange_token svc k cfg d req st).1
  outcome (refreshes clock d request_id raw w) st =
      (refresh_token svc k cfg clock d request_id raw w st).1.1

  -- The claims of the token that is presented: an exchange takes none that has ended.
  abbrev pub presented : Use → Result Error Claims
  presented (exchanges d req) = verify k cfg d.now req.parent_token false
  presented (refreshes clock d request_id raw w) = verify k cfg d.now raw true

  outcome-row :
      (use_of : Use) (st : State) (raw : Text) (c' : Claims)
      → outcome use_of st ≡ ok (raw, c')
      → (c : Claims) × (i : Issued) × (presented use_of ≡ ok c)
        × (find_issued c.jti st.issued ≡ some i)
        × (is_set i.revoked_at ≡ false)
  outcome-row (exchanges d req) st raw c' h =
      let out = exchange_token svc k cfg d req st in
      let r = exchange_token-narrows svc k cfg d req st out.0 raw c' (ap (λ r. (out.0, r)) h) in
      let (i, found_is, unset, verified) =
        verify_and_load-row k cfg d req.parent_token false st.issued r.0 r.1 r.4 in
      (r.0, i, verified, found_is, unset)
  outcome-row (refreshes clock d request_id raw w) st raw' c' h =
      let out = refresh_token svc k cfg clock d request_id raw w st in
      let r =
        refresh_token-reauthorized svc k cfg clock d request_id raw w out.0 st out.1.0 raw' c'
          (ap (λ r. (out.0, (out.1.0, r))) h) in
      (r.0, r.3, r.4.0, r.4.1, r.4.2)

  -- Once `RevokeToken` has answered for a token's name, whether it revoked a row or there was none
  -- left to revoke, no token of that name gets a token by `ExchangeToken` or `RefreshToken`: at any
  -- time, and in any later registry, which has added rows of other names. A token that does get one
  -- verifies and has another name.
  pub revoke_token-final :
      (d : Draw) (jti reason : Text) (st st' later : State) (b : Bool) (others : List Issued)
      (use_of : Use) (raw : Text) (c' : Claims)
      → revoke_token d jti reason st ≡ (st', ok b)
      → later.issued ≡ st'.issued ++ others
      → All (λ i. i.claims.jti ≢ jti) others
      → outcome use_of later ≡ ok (raw, c')
      → (c : Claims) × (presented use_of ≡ ok c) × (c.jti ≢ jti)
  revoke_token-final d jti reason st st' later b others use_of raw c' h grown new served =
      let (c, i, verified, found_is, unset) = outcome-row use_of later raw c' served in
      let (m, named) = find_issued-In c.jti later.issued i found_is in
      let all_set : AllRevoked jti later.issued = subst (AllRevoked jti) (sym grown) (
        append-AllRevoked jti st'.issued others
          (subst (AllRevoked jti) (sym (revoke_token-issued d jti reason st st' b h))
            (set_revoked-AllRevoked jti d.now st.issued))
          new) in
      (c, verified, λ same. both (all_set i m (named ∙ same)) unset)
    where
      both : {x : Bool} → x ≡ true → x ≡ false → ⊥
      both y n = cc
