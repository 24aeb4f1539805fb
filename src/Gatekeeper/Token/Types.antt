-- ===== src/Gatekeeper/Token/Types.antt =====
-- token/service.go, jwt.go and manifest.go: the service's data. The JSON codec, base64, SHA-256 and
-- Ed25519 are a record of functions; an error of theirs is none. `now` is in nanoseconds, the times
-- of the claims are Unix seconds, none before 1970. The texts of errors are left out.
use aegisbastion.Common.{ℕ, Bool, List, Option, Text}
use aegisbastion.Gatekeeper.Types.{Roe}

-- `manifestRefJSON`.
pub record ManifestRef : Type 0 where
  pub hash_alg : Text
  pub manifest_uri : Text
  pub manifest_sha256 : Text
  pub count : ℕ

-- `rateCapsJSON`.
pub record RateCaps : Type 0 where
  pub max_rps : ℕ
  pub max_concurrent : ℕ

-- `claimsJSON`.
pub record Claims : Type 0 where
  pub iss : Text
  pub aud : Text
  pub jti : Text
  pub sub : Text
  pub task_id : Text
  pub roe_id : Text
  pub roe_version : ℕ
  pub risk_class : Text
  pub capabilities : List Text
  pub targets : ManifestRef
  pub scope_bound : Bool
  pub rate_caps : Option RateCaps
  pub approval_id : Text
  pub iat : ℕ
  pub nbf : ℕ
  pub exp : ℕ

-- `headerJSON`.
pub record Header : Type 0 where
  pub alg : Text
  pub typ : Text
  pub kid : Text

pub record ExactManifest : Type 0 where
  pub jti : Text
  pub task_id : Text
  pub targets : List Text

pub record ScopeManifest : Type 0 where
  pub roe_id : Text
  pub roe_version : ℕ
  pub resolved_at : Text
  pub domains : List Text
  pub cidrs : List Text
  pub explicit_excludes : List Text
  pub asset_group_ids : List Text
  pub cloud_accounts : List Text

-- `mintSpec`.
pub record MintSpec : Type 0 where
  pub sub : Text
  pub task_id : Text
  pub roe : Roe
  pub risk : Text
  pub capabilities : List Text
  pub approval_id : Text
  pub rate_caps : Option RateCaps
  pub scope_bound : Bool
  pub targets : List Text
  pub decision_id : Text

-- What the code calls. A text is canonical JSON for `exact_json` and `scope_json`, and any JSON for
-- the others; `resolved` is the time format RFC 3339.
pub record Codec : Type 0 where
  pub exact_json : ExactManifest → Option Text
  pub scope_json : ScopeManifest → Option Text
  pub is_json : Text → Bool
  pub exact_of : Text → Option ExactManifest
  pub scope_of : Text → Option ScopeManifest
  pub digest : Text → Text
  pub encode : Text → Text
  pub decode : Text → Option Text
  pub header_json : Header → Option Text
  pub header_of : Text → Option Header
  pub claims_json : Claims → Option Text
  pub claims_of : Text → Option Claims
  pub sign : Text → Text → Text
  pub is_signed : Text → Text → Text → Bool
  pub resolved : ℕ → Text

-- `tokenConfig`, with the service's key. The lifetime is in nanoseconds.
pub record Config : Type 0 where
  pub issuer : Text
  pub audience : Text
  pub ttl : ℕ
  pub uri_prefix : Text
  pub kid : Text
  pub private_key : Text
  pub public_key : Text

-- A row of issued_tokens.
pub record Issued : Type 0 where
  pub claims : Claims
  pub decision_id : Text
  pub kid : Text
  pub revoked_at : Option ℕ

-- What goes out: an audit record of a mint or of a revocation, and the broadcast of a revocation.
pub data Effect : Type 0 where
  audited_mint : Claims → Effect
  broadcast audited_revocation : Text → Text → Effect

pub record State : Type 0 where
  pub objects : List (Text × Text)
  pub issued : List Issued
  pub effects : List Effect

-- What one call draws, and what the stores do in it.
pub record Draw : Type 0 where
  pub now : ℕ
  pub jti : Text
  pub puts : Bool
  pub registers : Bool
  pub looks_up : Bool

pub data Error : Type 0 where
  missing_field no_decision not_allowed wrong_task no_risk_class needs_no_token : Error
  not_a_watch wrong_targets roe_unavailable roe_not_active window_closed : Error
  approval_unavailable approval_missing ttl_too_long no_targets manifest_failed : Error
  bad_uri no_object hash_mismatch bad_manifest sign_failed register_failed : Error
  malformed bad_header missing_kid unknown_kid bad_signature wrong_issuer wrong_audience : Error
  from_the_future not_yet_valid is_expired missing_claim unregistered revoked lookup_failed : Error
  no_narrowed_targets outside_parent no_authorizer beyond_grace not_authorized : Error
