-- ===== src/Gatekeeper/Capreg.antt =====
-- services/gatekeeper/internal/capreg/capreg.go: the risk class of a capability.
pub mod Lookup
use aegisbastion.Common.{
  find, put, ℕ, ◌≡◌, ◌&&◌, ◌||◌, Bool, true, false, List, [], ◌∷◌, ◌++◌, Option, none, some, Text,
  codes, text_eq, has_prefix, has_suffix, trim_suffix, trim_space, to_upper, length, ltb,
  if◌then◌else◌,
}

-- platform.v1 RiskClass.
pub data RiskClass : Type 0 where
  unspecified r0 r1 r2 r3 : RiskClass

pub record Registry : Type 0 where
  pub exact : List (Text × RiskClass)
  pub pattern : List (Text × RiskClass)

-- `capability == p || strings.HasPrefix(capability, p+".")`.
unfoldable pub matches : Text → Text → Bool
matches capability p = text_eq capability p || has_prefix capability (p ++ codes ".")

-- One round of the loop over the patterns, on its `best` and `rc`.
unfoldable pub better : Text → Text × RiskClass → Text × RiskClass → Text × RiskClass
unfolding matches
better capability (best, rc) (p, c) =
    if matches capability p && ltb (length best) (length p) then (p, c) else (best, rc)

unfoldable pub longest : Text → Text × RiskClass → List (Text × RiskClass) → Text × RiskClass
unfolding better
longest capability b [] = b
longest capability b (e ∷ m) = longest capability (better capability b e) m

-- `best == ""` after the loop.
unfoldable pub found : Text × RiskClass → Option RiskClass
found ([], rc) = none
found (x ∷ best, rc) = some rc

-- `none` is `(RISK_CLASS_UNSPECIFIED, false)`.
unfoldable pub lookup : Registry → Text → Option RiskClass
unfolding longest found
lookup r capability = elim (find capability r.exact) [
  | some rc ↦ some rc
  | none ↦ found (longest capability ([], unspecified) r.pattern)
]

unfoldable pub parse_risk_class : Text → Option RiskClass
parse_risk_class s =
    let t = to_upper (trim_space s) in
    if text_eq t (codes "R0")
    then some r0
    else if text_eq t (codes "R1")
    then some r1
    else if text_eq t (codes "R2")
    then some r2
    else if text_eq t (codes "R3")
    then some r3
    else none

unfoldable pub risk_class_string : RiskClass → Text
risk_class_string r0 = codes "R0"
risk_class_string r1 = codes "R1"
risk_class_string r2 = codes "R2"
risk_class_string r3 = codes "R3"
risk_class_string unspecified = []

store : Registry → Text → RiskClass → Registry
store r cap rc =
    if has_suffix cap (codes ".*")
    then record r { pattern = put (trim_suffix cap (codes ".*")) rc r.pattern }
    else record r { exact = put cap rc r.exact }

-- The loop of `LoadFile` over the decoded entries: it stops at a class that does not parse, and
-- keeps what it has merged. The flag is false where an error is returned.
unfoldable pub load_entries : Registry → List (Text × Text) → Registry × Bool
unfolding store parse_risk_class
load_entries r [] = (r, true)
load_entries r ((cap, cls) ∷ m) = elim (parse_risk_class cls) [
  | none ↦ (r, false)
  | some rc ↦ load_entries (store r cap rc) m
]

-- `Default`.
unfoldable pub default : Registry
default = record {
  exact =
      (codes "monitor.watch", r1)
      ∷ (codes "monitor.rescan", r1)
      ∷ (codes "monitor.baseline.set", r0)
      ∷ (codes "monitor.feed.sync", r0)
      ∷ (codes "alert.deliver", r0)
      ∷ (codes "intel.phishing_indicators", r0)
      ∷ [];
  pattern =
      (codes "discover.passive", r0)
      ∷ (codes "discover.cloud", r0)
      ∷ (codes "recon", r1)
      ∷ (codes "scan.active", r1)
      ∷ (codes "detect.scan", r2)
      ∷ (codes "vuln.validate", r2)
      ∷ (codes "stress", r2)
      ∷ (codes "ai_redteam", r3)
      ∷ (codes "redteam", r3)
      ∷ [];
}
