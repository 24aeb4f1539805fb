-- ===== src/Gatekeeper/Token/Jwt.antt =====
-- token/jwt.go: the compact EdDSA form of a token.
use aegisbastion.Common.{
  ℕ, ◌+◌, ◌-◌, ◌*◌, ◌&&◌, ◌||◌, Bool, not, List, [], ◌∷◌, ◌++◌, Text, codes, text_eq, is_empty,
  split_on, ltb, Result, ok, err, ◌>>=◌, ◌>>◌, reject_if,
}
use aegisbastion.Gatekeeper.Token.Types.{
  Claims, Header, Codec, Config, Error, sign_failed, malformed, bad_header, missing_kid,
  unknown_kid, bad_signature, wrong_issuer, wrong_audience, from_the_future, not_yet_valid,
  is_expired, ttl_too_long, missing_claim,
}
use aegisbastion.Gatekeeper.Token.Manifest.{or_error}

-- A token that is split, before it is verified.
pub record Parsed : Type 0 where
  pub header : Header
  pub claims : Claims
  pub signing_input : Text
  pub signature : Text

abbrev pub seconds : ℕ → ℕ
seconds n = n * 1000000000

module _ (k : Codec) where
  -- `signJWT`.
  unfoldable pub sign_jwt : Text → Text → Claims → Result Error Text
  sign_jwt kid private_key claims = do
    hdr ←
        or_error sign_failed
          (k.header_json (record { alg = codes "EdDSA"; typ = codes "JWT"; kid = kid }))
    payload ← or_error sign_failed (k.claims_json claims)
    ok (
        k.encode hdr
        ++ b'.'
          ∷ (k.encode payload
              ++ b'.' ∷ k.encode (k.sign private_key (k.encode hdr ++ b'.' ∷ k.encode payload))))

  -- The three parts, decoded.
  unfoldable pub parts_of : List Text → Result Error Parsed
  parts_of (a ∷ b ∷ c ∷ []) = do
    hdr ← or_error malformed (k.decode a)
    header ← or_error malformed (k.header_of hdr)
    payload ← or_error malformed (k.decode b)
    claims ← or_error malformed (k.claims_of payload)
    sig ← or_error malformed (k.decode c)
    ok (record { header = header; claims = claims; signing_input = a ++ b'.' ∷ b; signature = sig })
  parts_of _ = err malformed

  -- `parseJWT`.
  unfoldable pub parse_jwt : Text → Result Error Parsed
  unfolding parts_of
  parse_jwt raw = parts_of (split_on b'.' raw)

  -- `Verify`, with `Service.Verify`'s options: a leeway of 60 seconds, a skew of 120, one key.
  unfoldable pub verify : Config → ℕ → Text → Bool → Result Error Claims
  verify cfg now raw allow_expired = do
    p ← parse_jwt raw
    reject_if
        (not (text_eq p.header.alg (codes "EdDSA")) || not (text_eq p.header.typ (codes "JWT")))
        bad_header
    reject_if (is_empty p.header.kid) missing_kid
    reject_if (not (text_eq p.header.kid cfg.kid)) unknown_kid
    reject_if (not (k.is_signed cfg.public_key p.signing_input p.signature)) bad_signature
    reject_if (not (text_eq p.claims.iss cfg.issuer)) wrong_issuer
    reject_if (not (text_eq p.claims.aud cfg.audience)) wrong_audience
    reject_if (ltb (now + seconds 120) (seconds p.claims.iat)) from_the_future
    reject_if (ltb (now + seconds 60) (seconds p.claims.nbf)) not_yet_valid
    reject_if (not allow_expired && not (ltb now (seconds p.claims.exp + seconds 60))) is_expired
    reject_if (ltb 900 (p.claims.exp - p.claims.iat)) ttl_too_long
    reject_if (is_empty p.claims.task_id || is_empty p.claims.jti || is_empty p.claims.sub)
        missing_claim
    ok p.claims
