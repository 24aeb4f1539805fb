-- ===== src/Sdk/Types.antt =====
-- sdks/go: token/claims.go, manifest/manifest.go and the interface to scope/scope.go.
use aegisbastion.Common.{
  ℕ, ◌+◌, ◌/◌, Bool, true, false, List, [], Option, none, some, Text, codes, member, ltb, Result,
  ◌>>◌, reject_if, ◌++◌,
}

-- The errors of the guard, of the claims and of the context; the first has its reason.
pub data Error : Type 0 where
  revoked : Text → Error
  expired not_yet_valid : Error
  no_authorization not_in_manifest target_excluded target_out_of_scope task_binding : Error
  rate_limited cancelled : Error

pub record RateCaps : Type 0 where
  pub max_rps : ℕ
  pub max_concurrent : ℕ

-- `Claims`, without the claims that only the verification of the token reads.
pub record Claims : Type 0 where
  pub id : Text
  pub task_id : Text
  pub roe_id : Text
  pub capabilities : List Text
  pub scope_bound : Bool
  pub rate_caps : Option RateCaps
  pub not_before : ℕ
  pub expires_at : ℕ

-- `Leeway`, in seconds.
abbrev pub leeway : ℕ
leeway = 60

-- `ValidAt`; the time is in nanoseconds.
unfoldable pub valid_at : Claims → ℕ → Result Error (Unit {0})
valid_at c now = do
  reject_if (ltb (c.expires_at + leeway) (now / 1000000000)) expired
  reject_if (ltb (now / 1000000000 + leeway) c.not_before) not_yet_valid

-- `Permits`.
unfoldable pub permits : Claims → Text → Bool
unfolding member
permits c capability = member capability c.capabilities

-- `Scope`, `Decision`, and the operations of scope.go that the guard calls.
pub record Scope : Type 0 where
  pub domains : List Text
  pub cidrs : List Text
  pub explicit_excludes : List Text

pub record Decision : Type 0 where
  pub allowed : Bool
  pub excluded : Bool

pub record Matcher : Type 0 where
  pub canonicalize : Text → Option Text
  pub evaluate : Scope → Text → Decision

-- `Manifest`.
pub record Manifest : Type 0 where
  pub sha256_hex : Text
  pub exact_targets : List Text
  pub scope_manifest : Option Scope

-- `ScopeBound`.
unfoldable pub is_scope_bound : Manifest → Bool
is_scope_bound m = elim m.scope_manifest [ none ↦ false | some s ↦ true ]

-- The canonical form, or the text as it is where it has none.
abbrev pub or_raw : Text → Option Text → Text
or_raw raw none = raw
or_raw raw (some t) = t

module _ (matcher : Matcher) where
  -- `Contains`.
  unfoldable pub contains : Manifest → Text → Bool
  unfolding member
  contains m target = elim m.scope_manifest [
    | some s ↦ false
    | none ↦ elim (matcher.canonicalize target) [ none ↦ false | some t ↦ member t m.exact_targets ]
  ]

  -- `EvaluateScope`.
  unfoldable pub evaluate_scope : Manifest → Text → Decision
  evaluate_scope m target = elim m.scope_manifest [
    | none ↦ record { allowed = false; excluded = false }
    | some s ↦ matcher.evaluate s target
  ]

-- `ScopeAuditValue`, of the hash and of the manifest.
unfoldable pub audit_value : Text → Text
audit_value hex = codes "scope:sha256:" ++ hex

unfoldable pub scope_audit_value : Manifest → Text
unfolding audit_value
scope_audit_value m = elim m.scope_manifest [ none ↦ [] | some s ↦ audit_value m.sha256_hex ]
