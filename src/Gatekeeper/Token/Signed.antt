-- ===== src/Gatekeeper/Token/Signed.antt =====
-- token/jwt.go: what the service signs, it verifies.
use aegisbastion.Common.{
  ℕ, ◌+◌, ◌≤◌, ◌<◌, ◌≡◌, ◌≢◌, refl, sym, ap, subst, ◌∙◌, true, false, [], ◌∷◌, ◌++◌, some, Text,
  codes, text_eq_refl, is_empty_ne, split_on, ◌==◌, arith, In, inl, inr, ok, bind-ok, ok-inj,
}
use aegisbastion.Gatekeeper.Token.Types.{
  Claims, Header, Codec, Config, sign_failed, Draw, MintSpec, State,
}
use aegisbastion.Gatekeeper.Token.Manifest.{or_error}
use aegisbastion.Gatekeeper.Token.Minted.{or_error-ok, mint-IsMinted}
use aegisbastion.Gatekeeper.Token.Mint.{mint, claims_for}
use aegisbastion.Gatekeeper.Token.Jwt.{parts_of, parse_jwt, sign_jwt, verify, seconds}

-- No byte of a text is the separator.
abbrev pub Without : ℕ → Text → Type 0
Without c s = (d : ℕ) → In d s → d ≢ c

split_on-whole : (c : ℕ) (s : Text) → Without c s → split_on c s ≡ s ∷ []
unfolding split_on
split_on-whole c [] h = refl
split_on-whole c (d ∷ s) h =
    let differ : (d == c) ≡ false = differs (h d (inl refl)) in
    rw (differ, split_on-whole c s (λ e m. h e (inr m))) refl
  where
    differs : d ≢ c → (d == c) ≡ false
    differs n = ground arith

split_on-first : (c : ℕ) (s t : Text) → Without c s → split_on c (s ++ c ∷ t) ≡ s ∷ split_on c t
unfolding split_on
split_on-first c [] t h = let same : (c == c) ≡ true = ground arith in rw same refl
split_on-first c (d ∷ s) t h =
    let differ : (d == c) ≡ false = differs (h d (inl refl)) in
    rw (differ, split_on-first c s t (λ e m. h e (inr m))) refl
  where
    differs : d ≢ c → (d == c) ≡ false
    differs n = ground arith

module _ (k : Codec) (cfg : Config) (decodes : (t : Text) → k.decode (k.encode t) ≡ some t)
    (no_dot : (t : Text) → Without b'.' (k.encode t))
    (headers : (t : Text)
      → k.header_json (record { alg = codes "EdDSA"; typ = codes "JWT"; kid = cfg.kid }) ≡ some t
      → k.header_of t ≡ some (record { alg = codes "EdDSA"; typ = codes "JWT"; kid = cfg.kid }))
    (signs : (t : Text) → k.is_signed cfg.public_key t (k.sign cfg.private_key t) ≡ true) where
  -- The three parts of a token that was signed.
  parse_jwt-sign :
      (c : Claims) (raw : Text)
      → ((t : Text) → k.claims_json c ≡ some t → k.claims_of t ≡ some c)
      → sign_jwt k cfg.kid cfg.private_key c ≡ ok raw
      → (input : Text) × (parse_jwt k raw
          ≡ ok (record {
            header = record { alg = codes "EdDSA"; typ = codes "JWT"; kid = cfg.kid };
            claims = c;
            signing_input = input;
            signature = k.sign cfg.private_key input;
          }))
  unfolding sign_jwt
  parse_jwt-sign c raw claims_back h =
      let header : Header = record { alg = codes "EdDSA"; typ = codes "JWT"; kid = cfg.kid } in
      let (hdr, a, h0) = bind-ok (or_error sign_failed (k.header_json header)) _ h in
      let (payload, b, last) = bind-ok (or_error sign_failed (k.claims_json c)) _ h0 in
      let input = k.encode hdr ++ b'.' ∷ k.encode payload in
      (
        input,
        subst
            (λ r.
              parse_jwt k r
              ≡ ok (record {
                header = header;
                claims = c;
                signing_input = input;
                signature = k.sign cfg.private_key input;
              }))
            (ok-inj refl last)
            (parsed hdr payload (headers hdr (or_error-ok sign_failed (k.header_json header) a))
              (claims_back payload (or_error-ok sign_failed (k.claims_json c) b))),
      )
    where
      decoded :
          (hdr payload sig : Text)
          → k.header_of hdr
            ≡ some (record { alg = codes "EdDSA"; typ = codes "JWT"; kid = cfg.kid })
          → k.claims_of payload ≡ some c
          → parts_of k (k.encode hdr ∷ k.encode payload ∷ k.encode sig ∷ [])
            ≡ ok (record {
              header = record { alg = codes "EdDSA"; typ = codes "JWT"; kid = cfg.kid };
              claims = c;
              signing_input = k.encode hdr ++ b'.' ∷ k.encode payload;
              signature = sig;
            })
      decoded hdr payload sig x y =
          unfold parts_of in rw (decodes hdr, x, decodes payload, y, decodes sig) refl

      parsed :
          (hdr payload : Text)
          → k.header_of hdr
            ≡ some (record { alg = codes "EdDSA"; typ = codes "JWT"; kid = cfg.kid })
          → k.claims_of payload ≡ some c
          → parse_jwt k (
              k.encode hdr
              ++ b'.'
                ∷ (k.encode payload
                    ++ b'.'
                      ∷ k.encode
                          (k.sign cfg.private_key (k.encode hdr ++ b'.' ∷ k.encode payload))))
            ≡ ok (record {
              header = record { alg = codes "EdDSA"; typ = codes "JWT"; kid = cfg.kid };
              claims = c;
              signing_input = k.encode hdr ++ b'.' ∷ k.encode payload;
              signature = k.sign cfg.private_key (k.encode hdr ++ b'.' ∷ k.encode payload);
            })
      parsed hdr payload x y =
          let sig = k.sign cfg.private_key (k.encode hdr ++ b'.' ∷ k.encode payload) in
          let parts =
            split_on-first b'.' (k.encode hdr) (k.encode payload ++ b'.' ∷ k.encode sig)
              (no_dot hdr)
            ∙ ap (λ l. k.encode hdr ∷ l)
                (split_on-first b'.' (k.encode payload) (k.encode sig) (no_dot payload)
                  ∙ ap (λ l. k.encode payload ∷ l)
                      (split_on-whole b'.' (k.encode sig) (no_dot sig))) in
          unfold parse_jwt in ap (parts_of k) parts ∙ decoded hdr payload sig x y

  -- A token that the service has signed verifies, and gives its claims back, from its start to 60
  -- seconds past its end, if it lives 900 seconds at most and names its subject, its task and itself.
  verify-sign :
      (c : Claims) (raw : Text) (now : ℕ)
      → ((t : Text) → k.claims_json c ≡ some t → k.claims_of t ≡ some c)
      → sign_jwt k cfg.kid cfg.private_key c ≡ ok raw
      → cfg.kid ≢ []
      → c.iss ≡ cfg.issuer
      → c.aud ≡ cfg.audience
      → seconds c.iat ≤ now
      → seconds c.nbf ≤ now
      → now < seconds c.exp + seconds 60
      → c.exp ≤ c.iat + 900
      → c.task_id ≢ []
      → c.jti ≢ []
      → c.sub ≢ []
      → verify k cfg now raw false ≡ ok c
  unfolding verify
  verify-sign c raw now claims_back h kid iss aud iat nbf exp short task jti sub =
      let (input, parsed) = parse_jwt-sign c raw claims_back h in
      rw
        (
          parsed,
          text_eq_refl cfg.kid,
          is_empty_ne cfg.kid kid,
          signs input,
          iss,
          text_eq_refl cfg.issuer,
          aud,
          text_eq_refl cfg.audience,
          is_empty_ne c.task_id task,
          is_empty_ne c.jti jti,
          is_empty_ne c.sub sub,
          text_eq_refl (codes "EdDSA"),
          text_eq_refl (codes "JWT"),
        )
        (ground (arith, iat, nbf, exp, short))

  -- A token that `mint` returns verifies and gives its claims back, at any time from the minting to
  -- 60 seconds past its end, if the subject, the task and the token have names. It needs that the
  -- codec gives back this header and these claims, that base64 has no dot, and that a signature of the service's
  -- key is one.
  pub verify-mint :
      (d : Draw) (m : MintSpec) (limit : ℕ) (st st' : State) (raw : Text) (c : Claims) (now : ℕ)
      → ((t : Text) → k.claims_json c ≡ some t → k.claims_of t ≡ some c)
      → mint k cfg d m limit st ≡ (st', ok (raw, c))
      → cfg.kid ≢ []
      → m.task_id ≢ []
      → d.jti ≢ []
      → m.sub ≢ []
      → d.now ≤ now
      → now < seconds c.exp + seconds 60
      → verify k cfg now raw false ≡ ok c
  unfolding claims_for
  verify-mint d m limit st st' raw c now claims_back h kid task jti sub later before =
      let t = mint-IsMinted k cfg d m limit st st' raw c h in
      let is = sym t.claims_are in
      verify-sign c raw now claims_back t.signature kid (sym (ap (λ x. x.iss) is))
        (sym (ap (λ x. x.aud) is)) (subst (λ x. seconds x.iat ≤ now) is (omega (arith, later)))
        (subst (λ x. seconds x.nbf ≤ now) is (omega (arith, later))) before t.lives
        (λ e. task (ap (λ x. x.task_id) is ∙ e)) (λ e. jti (ap (λ x. x.jti) is ∙ e))
        (λ e. sub (ap (λ x. x.sub) is ∙ e))
