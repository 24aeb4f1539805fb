-- ===== src/Gatekeeper/Approval.antt =====
-- services/gatekeeper/internal/approval/approval.go: four-eyes approvals. The tables approvals and
-- approval_votes are a list, the newest first, each with its votes in order; a second vote of an
-- approver meets the primary key of approval_votes. Audit records and publishing are left out.
pub mod FourEyes
pub mod Found
use aegisbastion.Common.{
  ℕ, ◌+◌, ◌≡◌, ◌&&◌, ◌||◌, Bool, true, false, not, List, [], ◌∷◌, ◌++◌, Option, none, some, Text,
  text_eq, is_empty, member, all, map, filter, if◌then◌else◌, ltb, leb, ◌==◌, Result, ok, err,
  ◌>>=◌, ◌>>◌, reject_if,
}
use aegisbastion.Gatekeeper.Capreg.{RiskClass, r2, r3}

pub data Error : Type 0 where
  missing_field bad_risk_class no_roe no_approver not_found not_decidable : Error
  is_requester is_author lacks_role duplicate_vote : Error

pub data ApprovalState : Type 0 where
  pending granted rejected expired : ApprovalState

pub record Vote : Type 0 where
  pub approver : Text
  pub approved : Bool
  pub at : ℕ

pub record Approval : Type 0 where
  pub approval_id : Text
  pub org_id : Text
  pub roe_id : Text
  pub roe_version : ℕ
  pub capability : Text
  pub risk_class : RiskClass
  pub targets : List Text
  pub requester : Text
  pub state : ApprovalState
  pub created_at : ℕ
  pub expires_at : ℕ
  pub votes : List Vote

abbrev pub is_pending : ApprovalState → Bool
is_pending pending = true
is_pending _ = false

abbrev pub is_granted : ApprovalState → Bool
is_granted granted = true
is_granted _ = false

abbrev pub may_be_approved : RiskClass → Bool
may_be_approved r2 = true
may_be_approved r3 = true
may_be_approved _ = false

or_no_roe : Option Text → Result Error Text
or_no_roe none = err no_roe
or_no_roe (some org) = ok org

-- `RequestApproval`: the approval with what the service fills in. `org_of` is the query on
-- roe_records.
unfoldable pub request_approval :
    (Text → ℕ → Option Text)
    → ℕ
    → ℕ
    → Text
    → Approval
    → List Approval
    → Result Error (List Approval)
unfolding or_no_roe
request_approval org_of ttl now id req table = do
  reject_if
      (is_empty req.roe_id
        || req.roe_version == 0
        || is_empty req.capability
        || is_empty req.targets
        || is_empty req.requester)
      missing_field
  reject_if (not (may_be_approved req.risk_class)) bad_risk_class
  org ← or_no_roe (org_of req.roe_id req.roe_version)
  ok (
      record req {
        approval_id = id;
        org_id = org;
        state = pending;
        created_at = now;
        expires_at = now + ttl;
        votes = [];
      }
      ∷ table)

-- `countApproves`.
unfoldable pub count_approves : List Vote → ℕ
count_approves [] = 0
count_approves (v ∷ votes) = if v.approved then 1 + count_approves votes else count_approves votes

-- The state once a vote is in: any rejection closes, two approvals grant.
unfoldable pub next_state : Vote → List Vote → ApprovalState
unfolding count_approves
next_state v votes =
    if not v.approved then rejected else if leb 2 (count_approves votes) then granted else pending

-- Whether the approver wrote the RoE, where a loader is wired.
unfoldable pub check_author :
    Option (Text → ℕ → Option Text) → Approval → Text → Result Error (Unit {0})
check_author none a approver = ok tt
check_author (some author) a approver = elim (author a.roe_id a.roe_version) [
  | none ↦ err no_roe
  | some creator ↦ reject_if (text_eq approver creator) is_author
]

module _ (roes : Option (Text → ℕ → Option Text)) (has_role : Text → Text → Bool) where
  -- The vote on a pending approval that has not expired.
  unfoldable pub vote_on : Approval → Vote → Result Error Approval
  vote_on a v = do
    reject_if (text_eq v.approver a.requester) is_requester
    check_author roes a v.approver
    reject_if (not (has_role a.org_id v.approver)) lacks_role
    reject_if (member v.approver (map (λ u. u.approver) a.votes)) duplicate_vote
    ok (record a { votes = a.votes ++ v ∷ []; state = next_state v (a.votes ++ v ∷ []) })

  -- `RecordApprovalDecision` on the approval that is loaded.
  unfoldable pub decide : ℕ → Approval → Vote → Result Error Approval
  decide now a v =
      if is_empty v.approver
      then err no_approver
      else if not (is_pending a.state)
      then err not_decidable
      else if not (ltb now a.expires_at)
      then ok (record a { state = expired })
      else vote_on a v

-- `subsetOf`.
unfoldable pub subset_of : List Text → List Text → Bool
subset_of sub sup = all (λ s. member s sup) sub

-- One row of `FindValidApproval`.
unfoldable pub is_valid_for : Text → ℕ → Text → List Text → ℕ → Approval → Bool
unfolding subset_of
is_valid_for roe_id version capability targets now a =
    text_eq a.roe_id roe_id
    && a.roe_version == version
    && text_eq a.capability capability
    && is_granted a.state
    && ltb now a.expires_at
    && subset_of targets a.targets

-- `FindValidApproval`.
unfoldable pub find_valid_approval :
    Text → ℕ → Text → List Text → ℕ → List Approval → Option Approval
find_valid_approval roe_id version capability targets now [] = none
find_valid_approval roe_id version capability targets now (a ∷ table) =
    if is_valid_for roe_id version capability targets now a
    then some a
    else find_valid_approval roe_id version capability targets now table

-- `lazyExpire`.
unfoldable pub lazy_expire : ℕ → Approval → Approval
lazy_expire now a =
    if is_pending a.state && not (ltb now a.expires_at) then record a { state = expired } else a
