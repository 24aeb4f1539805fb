-- ===== src/Gatekeeper/Approval/Found.antt =====
-- approval.go, `FindValidApproval`: what the approval that step 7 is given has behind it.
use aegisbastion.Common.{
  ℕ, ◌≡◌, ◌≢◌, ◌≤◌, ◌<◌, refl, inl, inr, Bool, true, List, [], ◌∷◌, Option, some, Text, text_eq,
  text_eq_sound, member, member_iff, map, In, In-map, all-In, All, arith, sym, subst, Bool-cases,
  all, none≢some,
}
use aegisbastion.Gatekeeper.Approval.{
  Approval, Vote, granted, count_approves, is_valid_for, find_valid_approval,
}
use aegisbastion.Gatekeeper.Approval.FourEyes.{IsFourEyes, IsDistinct}

-- Two votes of two people that approve.
abbrev pub HasTwo : List Vote → Type 0
HasTwo votes =
    (u : Vote) × (v : Vote) × In u votes
    × In v votes
    × (u.approved ≡ true)
    × (v.approved ≡ true)
    × (u.approver ≢ v.approver)

one_approves :
    (votes : List Vote) → 1 ≤ count_approves votes → (u : Vote) × In u votes × (u.approved ≡ true)
unfolding count_approves
one_approves [] h = absurd (omega (arith, h))
one_approves (v ∷ votes) h = elim (Bool-cases v.approved) [
  | inl y ↦ (v, inl refl, y)
  | inr n ↦ let (u, m, y) = one_approves votes (ground (arith, h)) in (u, inr m, y)
]

two_approve : (votes : List Vote) → 2 ≤ count_approves votes → IsDistinct votes → HasTwo votes
unfolding count_approves
two_approve [] h d = absurd (omega (arith, h))
two_approve (v ∷ votes) h d = elim (Bool-cases v.approved) [
  | inl y ↦
      let (u, m, k) = one_approves votes (ground (arith, h)) in
      (
        v,
        u,
        inl refl,
        inr m,
        y,
        k,
        λ e. d.0 (
            subst (λ t. In t (map (λ w. w.approver) votes)) (sym e)
              (In-map (λ w. w.approver) votes u m)),
      )
  | inr n ↦
      let (u, w, m, k, y, z, e) = two_approve votes (ground (arith, h)) d.1 in
      (u, w, inr m, inr k, y, z, e)
]

-- What the query asks of its row.
pub record IsFor (roe_id : Text) (version : ℕ) (capability : Text) (targets : List Text) (now : ℕ)
    (a : Approval) : Type 0 where
  pub same_roe : (a.roe_id ≡ roe_id) × (a.roe_version ≡ version)
  pub same_capability : a.capability ≡ capability
  pub granted_still : (a.state ≡ granted) × (now < a.expires_at)
  pub covers : (t : Text) → In t targets → In t a.targets

module _ (author : Text → ℕ → Option Text) (has_role : Text → Text → Bool) (roe_id : Text)
    (version : ℕ) (capability : Text) (targets : List Text) (now : ℕ) where
  valid-tests :
      (a : Approval)
      → is_valid_for roe_id version capability targets now a ≡ true
      → (text_eq a.roe_id roe_id ≡ true)
        × (a.roe_version ≡ version)
        × (text_eq a.capability capability ≡ true)
        × (a.state ≡ granted)
        × (now < a.expires_at)
        × (all (λ s. member s a.targets) targets ≡ true)
  unfolding is_valid_for
  valid-tests a h =
      (ground arith, ground arith, ground arith, ground arith, ground arith, ground arith)

  is_valid_for-IsFor :
      (a : Approval)
      → is_valid_for roe_id version capability targets now a ≡ true
      → IsFor roe_id version capability targets now a
  is_valid_for-IsFor a h =
      let (roe, v, c, g, e, sub) = valid-tests a h in
      record {
        same_roe = (text_eq_sound a.roe_id roe_id roe, v);
        same_capability = text_eq_sound a.capability capability c;
        granted_still = (g, e);
        covers =
            λ t m. (member_iff t a.targets).0 (all-In (λ s. member s a.targets) targets t sub m);
      }

  -- An approval that step 7 is given, from a table of four-eyed approvals, is granted and in time
  -- for the RoE's version and the capability, covers every target, and has the votes of two people,
  -- neither of them the requester.
  pub find_valid_approval-HasTwo :
      (table : List Approval) (a : Approval)
      → All (IsFourEyes author has_role) table
      → find_valid_approval roe_id version capability targets now table ≡ some a
      → IsFor roe_id version capability targets now a
        × HasTwo a.votes
        × ((v : Vote) → In v a.votes → v.approver ≢ a.requester)
  unfolding find_valid_approval
  find_valid_approval-HasTwo [] a sound h = absurd (none≢some h)
  find_valid_approval-HasTwo (b ∷ table) a (s, sound) h =
      elim (Bool-cases (is_valid_for roe_id version capability targets now b)) [
        | inl y ↦
            subst
              (λ x.
                IsFor roe_id version capability targets now x
                × HasTwo x.votes
                × ((v : Vote) → In v x.votes → v.approver ≢ x.requester))
              (some-inj (rw y at h)) (ended b s y)
        | inr n ↦ find_valid_approval-HasTwo table a sound (rw n at h)
      ]
    where
      some-inj : {c d : Approval} → some c ≡ some d → c ≡ d
      some-inj e = cc

      ended :
          (c : Approval)
          → IsFourEyes author has_role c
          → is_valid_for roe_id version capability targets now c ≡ true
          → IsFor roe_id version capability targets now c
            × HasTwo c.votes
            × ((v : Vote) → In v c.votes → v.approver ≢ c.requester)
      ended c f y =
          let i = is_valid_for-IsFor c y in
          (i, two_approve c.votes (f.two i.granted_still.0) f.distinct, f.not_requester)
