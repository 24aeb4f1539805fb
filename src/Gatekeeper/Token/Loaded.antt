-- ===== src/Gatekeeper/Token/Loaded.antt =====
-- token/service.go, `verifyAndLoad`: the row of the registry that a token is found by.
use aegisbastion.Common.{
  ◌≡◌, refl, sym, ap, subst, ◌∙◌, Bool, false, not, List, [], ◌∷◌, some, none≢some, Text, text_eq,
  text_eq_sound, In, inl, inr, Bool-cases, ok, bind-ok, reject_if-ok, ok-inj,
}
use aegisbastion.Gatekeeper.Token.Types.{
  Claims, Codec, Config, Issued, Draw, lookup_failed, unregistered, revoked,
}
use aegisbastion.Gatekeeper.Token.Manifest.{or_error}
use aegisbastion.Gatekeeper.Token.Jwt.{verify}
use aegisbastion.Gatekeeper.Token.Minted.{or_error-ok}
use aegisbastion.Gatekeeper.Token.Exchange.{find_issued, verify_and_load, is_set}

pub find_issued-In :
    (jti : Text) (is : List Issued) (i : Issued)
    → find_issued jti is ≡ some i
    → In i is × (i.claims.jti ≡ jti)
unfolding find_issued
find_issued-In jti [] i h = absurd (none≢some h)
find_issued-In jti (x ∷ is) i h = elim (Bool-cases (text_eq x.claims.jti jti)) [
  | inl y ↦
      let e = same (rw y at h) in
      (inl e, subst (λ z. z.claims.jti ≡ jti) e (text_eq_sound x.claims.jti jti y))
  | inr n ↦ let (m, at) = find_issued-In jti is i (rw n at h) in (inr m, at)
]
  where
    same : some x ≡ some i → x ≡ i
    same k = cc

module _ (k : Codec) (cfg : Config) where
  pub verify_and_load-row :
      (d : Draw) (raw : Text) (allow_expired : Bool) (issued : List Issued) (c : Claims) (id : Text)
      → verify_and_load k cfg d raw allow_expired issued ≡ ok (c, id)
      → (i : Issued) × (find_issued c.jti issued ≡ some i)
        × (is_set i.revoked_at ≡ false)
        × (verify k cfg d.now raw allow_expired ≡ ok c)
  unfolding verify_and_load
  verify_and_load-row d raw allow_expired issued c' id h =
      let (c, verified, h0) = bind-ok (verify k cfg d.now raw allow_expired) _ h in
      let (_, h1) = reject_if-ok (not d.looks_up) lookup_failed _ h0 in
      let (i, found_is, h2) = bind-ok (or_error unregistered (find_issued c.jti issued)) _ h1 in
      let (open_row, last) = reject_if-ok (is_set i.revoked_at) revoked _ h2 in
      let same = ap (λ p. p.0) (ok-inj refl last) in
      (
        i,
        ap (λ x. find_issued x.jti issued) (sym same)
            ∙ or_error-ok unregistered (find_issued c.jti issued) found_is,
        open_row,
        verified ∙ ap (λ x. ok x) same,
      )
