-- ===== src/Sdk/Guard.antt =====
-- sdks/go/pep/guard.go: the guard of a task, and `Wait` of ratelimit.go. Calls follow one another.
-- What the token bucket of golang.org/x/time and the context answer is given with each call.
pub mod Honest
pub mod Halts
use aegisbastion.Common.{
  find, ℕ, Bool, true, false, not, List, [], ◌∷◌, ◌++◌, Option, none, some, Text, codes, text_eq,
  is_empty, member, if◌then◌else◌, ltb, ◌==◌, ◌&&◌, ◌||◌, Result, ok, err, ◌>>=◌, ◌>>◌, reject_if,
}
use aegisbastion.Sdk.Types.{
  Error, revoked, expired, not_yet_valid, no_authorization, not_in_manifest, target_excluded,
  target_out_of_scope, task_binding, rate_limited, cancelled, RateCaps, Claims, valid_at, permits,
  Manifest, Matcher, is_scope_bound, contains, evaluate_scope, scope_audit_value, audit_value,
  or_raw,
}
use aegisbastion.Sdk.Revocations.{Cache, is_revoked}

-- The audit records that the emitter has taken: TARGET_TOUCHED and SCOPE_VIOLATION, with the target
-- and the token's id.
pub data Effect : Type 0 where
  target_touched : Text → Text → Effect
  scope_violation : Text → Text → Error → Effect

-- `Guard`; of the limiter, the requests for a second, none where there is no limit.
pub record Guard : Type 0 where
  pub claims : Claims
  pub manifest : Manifest
  pub rps : Option ℕ
  pub touched : List Text
  pub touched_set : List Text
  pub extra : List (Text × Text)
  pub effects : List Effect

-- What happens in a call: the delay that the bucket reserves, in nanoseconds, none where it refuses,
-- and whether the context ends before; and whether the audit record of the call is made and taken,
-- which nothing else hangs on.
pub record Turn : Type 0 where
  pub delay : Option ℕ
  pub ends : Bool
  pub emits : Bool

-- `NewRateLimiter`.
unfoldable pub new_rate_limiter : Option RateCaps → Option ℕ
new_rate_limiter none = none
new_rate_limiter (some caps) = if caps.max_rps == 0 then none else some caps.max_rps

abbrev pub max_throttle_delay : ℕ
max_throttle_delay = 5000000000

-- `Wait`.
unfoldable pub wait : Option ℕ → Turn → Result Error (Unit {0})
wait none turn = ok tt
wait (some rps) turn = elim turn.delay [
  | none ↦ err rate_limited
  | some delay ↦
      if ltb max_throttle_delay delay
      then err rate_limited
      else if delay == 0
      then ok tt
      else if turn.ends
      then err cancelled
      else ok tt
]

abbrev pub given {κ} : {A : Type κ} → Option A → Result Error A
given none = err no_authorization
given (some a) = ok a

abbrev pub differ : Bool → Bool → Bool
differ true b = not b
differ false b = b

-- `NewGuard`.
unfoldable pub new_guard :
    Option Claims → Option Manifest → Text → Text → List (Text × Text) → Result Error Guard
unfolding permits is_scope_bound new_rate_limiter
new_guard token document task_id cap_id extra = do
  claims ← given token
  manifest ← given document
  reject_if (not (text_eq claims.task_id task_id)) task_binding
  reject_if (not (is_empty cap_id) && not (permits claims cap_id)) task_binding
  reject_if (differ claims.scope_bound (is_scope_bound manifest)) task_binding
  ok (record {
    claims = claims;
    manifest = manifest;
    rps = new_rate_limiter claims.rate_caps;
    touched = [];
    touched_set = [];
    extra = extra;
    effects = [];
  })

-- `Update`.
unfoldable pub update : Option Claims → Option Manifest → Guard → Result Error Guard
unfolding is_scope_bound new_rate_limiter
update token document g = do
  claims ← given token
  manifest ← given document
  reject_if (not (text_eq claims.task_id g.claims.task_id)) task_binding
  reject_if (differ claims.scope_bound (is_scope_bound manifest)) task_binding
  ok (record g { claims = claims; manifest = manifest; rps = new_rate_limiter claims.rate_caps })

unfoldable pub first_capability : Claims → Text
first_capability c = elim c.capabilities [ [] ↦ [] | x ∷ xs ↦ x ]

abbrev pub unless_revoked : Option Text → Result Error (Unit {0})
unless_revoked none = ok tt
unless_revoked (some reason) = err (revoked reason)

-- A denial that is no violation.
unfoldable pub is_quiet : Error → Bool
is_quiet (revoked r) = true
is_quiet expired = true
is_quiet not_yet_valid = true
is_quiet cancelled = true
is_quiet rate_limited = true
is_quiet _ = false

-- `denyAudit`.
unfoldable pub deny_audit : Turn → Text → Error → Guard → Guard
unfolding is_quiet
deny_audit turn target cause g =
    if is_quiet cause || not turn.emits
    then g
    else record g { effects = g.effects ++ scope_violation target g.claims.id cause ∷ [] }

-- A field of a record's payload: the extras of the task are written over it.
abbrev pub field : List (Text × Text) → Text → Text → Text
field extra name value = elim (find name extra) [ none ↦ value | some x ↦ x ]

-- `TargetTouchedEvent`, of sdks/go/audit/audit.go.
unfoldable pub touched_event : Text → Guard → Effect
touched_event canonical g =
    target_touched (field g.extra (codes "target") canonical)
      (field g.extra (codes "token_jti") g.claims.id)

module _ (matcher : Matcher) where
  -- The third step of `check`: the target against the manifest.
  unfoldable pub check_target : Claims → Manifest → Text → Result Error (Unit {0})
  unfolding evaluate_scope contains
  check_target claims manifest target =
      let decision = evaluate_scope matcher manifest target in
      if claims.scope_bound
      then (if decision.allowed
          then ok tt
          else if decision.excluded
          then err target_excluded
          else err target_out_of_scope)
      else if contains matcher manifest target
      then ok tt
      else err not_in_manifest

  -- `check`.
  unfoldable pub check : Turn → ℕ → Cache → Text → Guard → Result Error (Unit {0})
  unfolding is_revoked first_capability valid_at check_target wait
  check turn now entries target g = do
    unless_revoked
        (is_revoked matcher entries now g.claims.roe_id (first_capability g.claims) target)
    valid_at g.claims now
    check_target g.claims g.manifest target
    wait g.rps turn

  -- `recordTouch`.
  unfoldable pub record_touch : Turn → Text → Guard → Guard
  unfolding member touched_event
  record_touch turn target g =
      let canonical = or_raw target (matcher.canonicalize target) in
      let seen = member canonical g.touched_set in
      record g {
        touched = if seen then g.touched else g.touched ++ canonical ∷ [];
        touched_set = if seen then g.touched_set else canonical ∷ g.touched_set;
        effects = if turn.emits then g.effects ++ touched_event canonical g ∷ [] else g.effects;
      }

  abbrev pub settle :
      Turn → Text → Guard → Result Error (Unit {0}) → Guard × Result Error (Unit {0})
  settle turn target g (err e) = (deny_audit turn target e g, err e)
  settle turn target g (ok done) = (record_touch turn target g, ok done)

  -- `AuthorizeTarget`.
  unfoldable pub authorize_target :
      Turn → ℕ → Cache → Text → Guard → Guard × Result Error (Unit {0})
  unfolding check deny_audit record_touch
  authorize_target turn now entries target g =
      settle turn target g (check turn now entries target g)

-- `TargetsTouchedMetric`.
unfoldable pub targets_touched_metric : Guard → List Text
unfolding audit_value
targets_touched_metric g =
    if g.claims.scope_bound then audit_value g.manifest.sha256_hex ∷ [] else g.touched
