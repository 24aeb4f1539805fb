-- ===== src/Gatekeeper/Policy/State.antt =====
-- policy.go: what the steps read and change, and their ways to end.
use aegisbastion.Common.{
  ℕ, ◌||◌, Bool, true, false, List, [], ◌∷◌, Option, none, some, Text, codes, text_eq, find,
  if◌then◌else◌,
}
use aegisbastion.Net.{Net}
use aegisbastion.Gatekeeper.Capreg.{RiskClass, Registry, unspecified, r0, r1, r2, r3}
use aegisbastion.Gatekeeper.Ratelimit.{Buckets}
use aegisbastion.Gatekeeper.Revocation.{Row}
use aegisbastion.Gatekeeper.Blackout.{Local}
use aegisbastion.Gatekeeper.Types.{Roe, no_roe, DenyReason, Principal}

-- What `LoadROE` returns.
pub data Loaded : Type 0 where
  found : Roe → Loaded
  no_rows unavailable : Loaded

-- The interfaces of the service, and whether the two writes of step 11 succeed.
pub record Services : Type 0 where
  pub net : Net
  pub zone : Text → ℕ → Option Local
  pub registry : Registry
  pub has_permission : Text → Text → Text → Option Bool
  pub revocations : Option (List Row)
  pub load_roe : Text → ℕ → Loaded
  pub effective_targets : Text → ℕ → Option (List Text × List Text)
  pub find_valid_approval : Text → ℕ → Text → List Text → Option (Option Text)
  pub inventory : Option (List Text → Option (Text → Bool))
  pub persists : Bool
  pub publishes_decisions : Bool
  pub publishes_denials : Bool
  pub audits : Bool

-- The readings of the clock, in the order in which they are taken; the first in milliseconds.
pub record Clock : Type 0 where
  pub start : ℕ
  pub roe : ℕ
  pub window : ℕ
  pub rate : ℕ
  pub finish : ℕ

-- `evaluation`, and the limiter's buckets, which step 10 changes.
pub record Eval : Type 0 where
  pub roe : Option Roe
  pub approval_id : Text
  pub retry_after_ms : ℕ
  pub failed : Option DenyReason
  pub buckets : Buckets

-- The getters of an RoE that may be nil.
abbrev pub roe_of : Eval → Roe
roe_of e = elim e.roe [ none ↦ no_roe | some r ↦ r ]

abbrev pub dependency_fail : DenyReason → Eval → Eval × Option DenyReason
dependency_fail code e = (record e { failed = some code }, none)

abbrev pub refuse : DenyReason → Eval → Eval × Option DenyReason
refuse code e = (e, some code)

abbrev pub pass : Eval → Eval × Option DenyReason
pass e = (e, none)

abbrev pub refuse_if : Bool → DenyReason → Eval → Eval × Option DenyReason
refuse_if b code e = if b then refuse code e else pass e

-- `commanderPrincipal`: the identity and the SPIFFE id of each commander.
abbrev pub commander_principal : List (Text × (Text × Text))
commander_principal =
    (codes "cai", (codes "svc-cai-commander", codes "spiffe://platform/cai"))
    ∷ (codes "hexstrike", (codes "svc-hexstrike-commander", codes "spiffe://platform/hexstrike"))
    ∷ []

-- A task of a commander comes from that commander.
unfoldable pub binds_commander : Text → Principal → Bool
binds_commander commander p = elim (find commander commander_principal) [
  | none ↦ false
  | some (id, spiffe) ↦ text_eq p.id id || text_eq p.spiffe_id spiffe
]

-- R2 or R3.
abbrev pub intrusive : RiskClass → Bool
intrusive r2 = true
intrusive r3 = true
intrusive _ = false

-- `riskRank`, one higher throughout, so that -1 is 0: ranks are only compared.
unfoldable pub risk_rank : RiskClass → ℕ
risk_rank unspecified = 0
risk_rank r0 = 1
risk_rank r1 = 2
risk_rank r2 = 3
risk_rank r3 = 4
