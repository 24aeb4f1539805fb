-- ===== src/Gatekeeper/Revocation.antt =====
-- services/gatekeeper/internal/revocation/revocation.go: the revocation set of record. The table is
-- a list in order of issue; the expiries, which the process keeps, are a map by id.
pub mod Active
use aegisbastion.Common.{
  ℕ, ◌≡◌, ◌&&◌, ◌||◌, Bool, true, false, not, List, [], ◌∷◌, ◌++◌, Option, none, some, Text, codes,
  text_eq, is_empty, any, filter, map, find, put, if◌then◌else◌, ltb, Result, ok, err, ◌>>=◌, ◌>>◌,
  reject_if,
}
use aegisbastion.Gatekeeper.Rbac.{Bindings, principal_kind_of, human, has_permission}

pub data Error : Type 0 where
  bad_scope missing_key missing_issuer not_human lacks_permission insert_failed : Error

-- gatekeeper.v1 RevocationScope.
pub data Scope : Type 0 where
  unspecified global roe target capability : Scope

-- `scopeFromProto`.
unfoldable pub scope_name : Scope → Option Text
scope_name unspecified = none
scope_name global = some (codes "global")
scope_name roe = some (codes "roe")
scope_name target = some (codes "target")
scope_name capability = some (codes "capability")

pub record Row : Type 0 where
  pub revocation_id : Text
  pub scope : Text
  pub scope_value : Text
  pub issued_by : Text
  pub reason : Text
  pub issued_at : ℕ
  pub expires_at : Option ℕ
  pub lifted : Bool

-- What goes out, in order: the broadcast and the audit record. One that fails is only printed.
pub data Effect : Type 0 where
  broadcast audited : Row → Effect

pub record State : Type 0 where
  pub rows : List Row
  pub expiries : List (Text × ℕ)
  pub effects : List Effect

-- An expiry that is zero or already past means "until lifted".
unfoldable pub expiry : Option ℕ → ℕ → Option ℕ
expiry none now = none
expiry (some t) now = if ltb now t then some t else none

unfoldable pub remember : Text → Option ℕ → List (Text × ℕ) → List (Text × ℕ)
remember id none m = m
remember id (some t) m = put id t m

-- What the database, the bus and the audit log take in a call.
pub record Works : Type 0 where
  pub inserts : Bool
  pub publishes : Bool
  pub records : Bool

unfoldable pub issued_effects : Works → Row → List Effect
issued_effects works r =
    (if works.publishes then broadcast r ∷ [] else [])
    ++ (if works.records then audited r ∷ [] else [])

-- `Issue`.
unfoldable pub issue :
    Works → ℕ → Text → Text → Text → Text → Text → Option ℕ → State → Result Error (State × Row)
unfolding issued_effects
issue works now id scope key issued_by reason expires_at s =
    let r : Row = record {
      revocation_id = id;
      scope = scope;
      scope_value = key;
      issued_by = issued_by;
      reason = reason;
      issued_at = now;
      expires_at = expiry expires_at now;
      lifted = false;
    } in
    if works.inserts
    then ok (
      record {
        rows = s.rows ++ r ∷ [];
        expiries = remember id r.expires_at s.expiries;
        effects = s.effects ++ issued_effects works r;
      },
      r,
    )
    else err insert_failed

pub record RevokeRequest : Type 0 where
  pub scope : Scope
  pub key : Text
  pub issued_by : Text
  pub reason : Text
  pub expires_at : Option ℕ

unfoldable pub or_fail : Option Text → Error → Result Error Text
or_fail none e = err e
or_fail (some t) e = ok t

-- `Revoke`: the kill switch, for humans that may issue revocations.
unfoldable pub revoke :
    (Text → List Text)
    → Bindings
    → Works
    → ℕ
    → Text
    → RevokeRequest
    → State
    → Result Error (State × Row)
unfolding or_fail
revoke permissions bindings works now id req s = do
  scope ← or_fail (scope_name req.scope) bad_scope
  reject_if (not (text_eq scope (codes "global")) && is_empty req.key) missing_key
  reject_if (is_empty req.issued_by) missing_issuer
  reject_if (not (text_eq (principal_kind_of req.issued_by) human)) not_human
  reject_if
      (not (has_permission permissions bindings now [] req.issued_by (codes "revocation:issue")))
      lacks_permission
  issue works now id scope req.key req.issued_by req.reason req.expires_at s

-- `IssueROERevocation`.
unfoldable pub issue_roe_revocation :
    Works → ℕ → Text → Text → Text → Text → State → Result Error (State × Row)
issue_roe_revocation works now id roe_id issued_by reason s =
    issue works now id (codes "roe") roe_id issued_by reason none s

-- A row that is not lifted, and whose expiry, if the process knows one, has not come.
unfoldable pub in_force : List (Text × ℕ) → ℕ → Row → Bool
in_force expiries now r = elim (find r.revocation_id expiries) [
  | none ↦ not r.lifted
  | some t ↦ not r.lifted && ltb now t
]

unfoldable pub active : State → ℕ → List Row
active s now = filter (in_force s.expiries now) s.rows

unfoldable pub is_revoked : State → ℕ → Text → Text → Bool
is_revoked s now scope value =
    any (λ r. (is_empty scope || text_eq r.scope scope) && text_eq r.scope_value value)
      (active s now)

unfoldable pub is_globally_revoked : State → ℕ → Bool
is_globally_revoked s now = is_revoked s now (codes "global") []

-- The filter of `ListRevocations`; a row whose scope is not on the enum is left out.
listed : Scope → Text → Row → Bool
listed scope key r =
    (elim (scope_name scope) [ none ↦ true | some n ↦ text_eq n r.scope ])
    && (is_empty key || text_eq key r.scope_value)
    && any (text_eq r.scope)
        (codes "global" ∷ codes "roe" ∷ codes "target" ∷ codes "capability" ∷ [])

unfoldable pub list_revocations : State → ℕ → Scope → Text → List Row
unfolding listed
list_revocations s now scope key = filter (listed scope key) (active s now)
