-- ===== src/Gatekeeper/Token/Minted.antt =====
-- token/service.go, `mint`: what holds of a new token.
use aegisbastion.Common.{
  ℕ, ◌+◌, ◌-◌, ◌/◌, ◌≤◌, ◌≡◌, refl, sym, ap, subst, ◌∙◌, Bool, false, not, List, [], ◌∷◌, ◌++◌,
  Option, none, some, Text, text_eq_refl, find, find-put, ltb, arith, Bool-cases, Result, ok, err,
  bind-ok, reject_if-ok, err≢ok, ok-inj, Result-cases, inl, inr,
}
use aegisbastion.Gatekeeper.Token.Types.{
  Claims, MintSpec, Codec, Config, State, Draw, Error, ttl_too_long, manifest_failed,
}
use aegisbastion.Gatekeeper.Token.Manifest.{put_manifest, or_error}
use aegisbastion.Gatekeeper.Token.Jwt.{sign_jwt}
use aegisbastion.Gatekeeper.Token.Mint.{
  expiry, manifest_of, claims_for, mint_claims, register, signed, mint,
}

pub or_error-ok : {A : Type 0} {a : A} (e : Error) (o : Option A) → or_error e o ≡ ok a → o ≡ some a
or_error-ok e none h = absurd (err≢ok h)
or_error-ok e (some b) h = ap some (ok-inj refl h)

module _ (k : Codec) (cfg : Config) where
  -- A token whose manifest is stored, that lives 15 minutes at most, and that is registered.
  pub record IsMinted (d : Draw) (m : MintSpec) (limit : ℕ) (st st' : State) (raw : Text)
      (c : Claims) : Type 0 where
    pub key : Text
    pub canon : Text
    pub manifest : manifest_of k cfg d.now d.jti m ≡ ok (key, some canon)
    pub stored : find key st'.objects ≡ some canon
    pub claims_are : c ≡ claims_for k cfg d.now d.jti m limit key (k.digest canon)
    pub lives : c.exp ≤ c.iat + 900
    pub signature : sign_jwt k cfg.kid cfg.private_key c ≡ ok raw
    pub registered :
        st'.issued
        ≡ st.issued
          ++ record { claims = c; decision_id = m.decision_id; kid = cfg.kid; revoked_at = none }
            ∷ []

  put_manifest-ok :
      (puts : Bool) (key : Text) (manifest : Option Text) (objects objects' : List (Text × Text))
      (sha : Text)
      → put_manifest k puts key manifest objects ≡ ok (objects', sha)
      → (canon : Text) × (manifest ≡ some canon)
        × (find key objects' ≡ some canon)
        × (sha ≡ k.digest canon)
  unfolding put_manifest
  put_manifest-ok puts key manifest objects objects' sha h =
      let (canon, is, a) = bind-ok (or_error manifest_failed manifest) _ h in
      let (_, b) = reject_if-ok (not (k.is_json canon)) manifest_failed _ a in
      let (_, c) = reject_if-ok (not puts) manifest_failed _ b in
      let e = ok-inj refl c in
      (
        canon,
        or_error-ok manifest_failed manifest is,
        subst (λ o. find key o ≡ some canon) (ap (λ p. p.0) e)
            (find-put key key canon objects ∙ rw (text_eq_refl key) refl),
        sym (ap (λ p. p.1) e),
      )

  register-ok :
      (d : Draw) (m : MintSpec) (st st' : State) (objects : List (Text × Text)) (c c' : Claims)
      (raw : Text) (signature : Result Error Text)
      → register k cfg d m st objects c signature ≡ (st', ok (raw, c'))
      → (signature ≡ ok raw)
        × (c ≡ c')
        × (st'.objects ≡ objects)
        × (st'.issued
            ≡ st.issued
              ++ record {
                claims = c;
                decision_id = m.decision_id;
                kid = cfg.kid;
                revoked_at = none;
              }
                ∷ [])
  unfolding register
  register-ok d m st st' objects c c' raw (err e) h = absurd (err≢ok (ap (λ p. p.1) h))
  register-ok d m st st' objects c c' raw (ok r) h = elim (Bool-cases d.registers) [
    | inl y ↦
        let g = rw y at h in
        let e = ok-inj refl (ap (λ p. p.1) g) in
        (
          ap (λ p. ok p.0) e,
          ap (λ p. p.1) e,
          sym (ap (λ p. p.0.objects) g),
          sym (ap (λ p. p.0.issued) g),
        )
    | inr n ↦ absurd (err≢ok (ap (λ p. p.1) (rw n at h)))
  ]

  pub mint-IsMinted :
      (d : Draw) (m : MintSpec) (limit : ℕ) (st st' : State) (raw : Text) (c : Claims)
      → mint k cfg d m limit st ≡ (st', ok (raw, c))
      → IsMinted d m limit st st' raw c
  unfolding mint signed mint_claims
  mint-IsMinted d m limit st st' raw c h = elim (Result-cases (mint_claims k cfg d m limit st)) [
    | inl (e, n) ↦ absurd (err≢ok (ap (λ p. p.1) (rw n at h)))
    | inr ((objects, c'), y) ↦
        let (signature, same, objects_are, registered) =
          register-ok d m st st' objects c' c raw (sign_jwt k cfg.kid cfg.private_key c')
            (rw y at h) in
        let (short, a) =
          reject_if-ok (ltb 900 (expiry cfg d.now limit - d.now / 1000000000)) ttl_too_long _ y in
        let ((key, manifest), made, b) = bind-ok (manifest_of k cfg d.now d.jti m) _ a in
        let ((objects', sha), put_is, last) =
          bind-ok (put_manifest k d.puts key manifest st.objects) _ b in
        let e = ok-inj refl last in
        let (canon, is, found_at, sha_is) =
          put_manifest-ok d.puts key manifest st.objects objects' sha put_is in
        record {
          key = key;
          canon = canon;
          manifest = made ∙ ap (λ x. ok (key, x)) is;
          stored =
              subst (λ o. find key o ≡ some canon) (ap (λ p. p.0) e ∙ sym objects_are) found_at;
          claims_are =
              sym same
              ∙ sym (ap (λ p. p.1) e)
              ∙ ap (claims_for k cfg d.now d.jti m limit key) sha_is;
          lives = lives key sha c' c same short (ap (λ p. p.1) e);
          signature = ap (sign_jwt k cfg.kid cfg.private_key) (sym same) ∙ signature;
          registered =
              subst
                (λ x.
                  st'.issued
                  ≡ st.issued
                    ++ record {
                      claims = x;
                      decision_id = m.decision_id;
                      kid = cfg.kid;
                      revoked_at = none;
                    }
                      ∷ [])
                same registered;
        }
  ]
    where
      lives :
          (q s : Text) (x y : Claims)
          → x ≡ y
          → ltb 900 (expiry cfg d.now limit - d.now / 1000000000) ≡ false
          → claims_for k cfg d.now d.jti m limit q s ≡ x
          → y.exp ≤ y.iat + 900
      lives q s x y same short e = unfold claims_for expiry in ground (arith, same, e)
