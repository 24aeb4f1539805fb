-- ===== src/Gatekeeper/Token/Terms.antt =====
-- token/service.go: what the terms of a token are taken from: the decision, the RoE's rate caps and
-- the approval. The interfaces of the policy service serve here too; its table of decisions is a
-- list of rows.
use aegisbastion.Common.{
  ℕ, ◌&&◌, Bool, true, false, List, [], ◌∷◌, Option, none, some, Text, codes, text_eq, has_prefix,
  has_suffix, trim_suffix, length, member, find, if◌then◌else◌, ltb, ◌==◌, Result, ok, err, ◌>>=◌,
}
use aegisbastion.Gatekeeper.Capreg.{RiskClass, r0, r1, r2, r3}
use aegisbastion.Gatekeeper.Types.{Roe, RoeStatus, RateCap, Decision}
use aegisbastion.Gatekeeper.Policy.{Services, DecisionRow, Loaded, found, no_rows, unavailable}
use aegisbastion.Gatekeeper.Token.Types.{
  RateCaps, Error, no_risk_class, needs_no_token, roe_unavailable, approval_unavailable,
  approval_missing,
}
use aegisbastion.Gatekeeper.Token.Manifest.{or_error}

-- `loadDecision`; the database's error and a missing row are one error here.
unfoldable pub load_decision : Text → List DecisionRow → Option DecisionRow
load_decision id [] = none
load_decision id (d ∷ ds) = if text_eq d.decision_id id then some d else load_decision id ds

-- The pattern that covers the capability, with its cap, over a map's entries in any order.
unfoldable pub best_entry : Text → Text → Option RateCap → List (Text × RateCap) → Option RateCap
best_entry capability best entry [] = entry
best_entry capability best entry ((pattern, e) ∷ caps) =
    let covers =
      has_suffix pattern (codes ".*")
      && has_prefix capability (trim_suffix pattern (codes "*"))
      && ltb (length best) (length pattern) in
    best_entry capability (if covers then pattern else best) (if covers then some e else entry) caps

-- R1 has a cap without one in the RoE.
unfoldable pub default_rps : RiskClass → ℕ
default_rps r1 = 100
default_rps _ = 0

-- `tokenRateCaps`: an exact entry ends the loop.
unfoldable pub token_rate_caps : List (Text × RateCap) → RiskClass → Text → Option RateCaps
unfolding best_entry default_rps
token_rate_caps caps risk capability =
    let entry : Option RateCap = elim (find capability caps) [
      | none ↦ best_entry capability [] none caps
      | some e ↦ some e
    ] in
    let rps : ℕ = elim entry [ none ↦ 0 | some e ↦ e.rps ] in
    let max_rps = if rps == 0 then default_rps risk else rps in
    let max_concurrent : ℕ = elim entry [ none ↦ 0 | some e ↦ e.max_concurrent ] in
    if max_rps == 0 && max_concurrent == 0
    then none
    else some (record { max_rps = max_rps; max_concurrent = max_concurrent })

-- Whether a token needs an approval.
unfoldable pub is_required : RiskClass → Text → Roe → Bool
is_required r3 capability roe = true
is_required r2 capability roe =
    has_prefix capability (codes "stress.")
    && member (codes "R2:stress.*:production") roe.constraints.requires_approval_for
is_required _ capability roe = false

-- `LoadROE`, of the latest version, and its status.
abbrev pub loaded_roe : Loaded → Result Error Roe
loaded_roe (found r) = ok r
loaded_roe no_rows = err roe_unavailable
loaded_roe unavailable = err roe_unavailable

abbrev pub is_active : RoeStatus → Bool
is_active RoeStatus.active = true
is_active _ = false

module _ (svc : Services) where
  -- `resolveApproval`: the approval's id, empty where there is none and none is needed.
  unfoldable pub resolve_approval : Roe → RiskClass → Text → List Text → Result Error Text
  unfolding is_required
  resolve_approval roe risk capability targets = do
    a ←
        or_error approval_unavailable
          (svc.find_valid_approval roe.roe_id roe.version capability targets)
    elim a [
      | none ↦ (if is_required risk capability roe then err approval_missing else ok [])
      | some id ↦ ok id
    ]

-- Risk classes for which the code has no token.
abbrev pub usable : Option RiskClass → Result Error RiskClass
usable none = err no_risk_class
usable (some r0) = err needs_no_token
usable (some risk) = ok risk

abbrev pub is_deny : Decision → Bool
is_deny Decision.allow = false
is_deny Decision.deny = true

abbrev pub is_r1 : RiskClass → Bool
is_r1 r1 = true
is_r1 _ = false
