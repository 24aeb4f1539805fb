-- ===== src/Gatekeeper/Approval/FourEyes.antt =====
-- approval.go: a granted approval has two approvers, neither of them its requester nor the author of
-- the RoE.
use aegisbastion.Common.{
  ℕ, ◌≡◌, ◌≢◌, ◌≤◌, refl, ◌⊎◌, inl, inr, Bool, false, List, [], ◌∷◌, ◌++◌, Option, some, Text,
  text_eq, text_eq_iff, member, member_iff, map, In, arith, sym, subst, ap, ◌∙◌, ok,
}
use mathlib.Core.Bool.{true≢false}
use aegisbastion.Gatekeeper.Approval.{
  Approval, Vote, granted, expired, count_approves, next_state, check_author, vote_on, decide,
}

-- Each approver has one vote.
abbrev pub IsDistinct : List Vote → Type 0
IsDistinct [] = Unit {0}
IsDistinct (v ∷ votes) = (¬ In v.approver (map (λ u. u.approver) votes)) × IsDistinct votes

module _ (author : Text → ℕ → Option Text) (has_role : Text → Text → Bool) where
  -- What holds of an approval at all times.
  pub record IsFourEyes (a : Approval) : Type 0 where
    pub distinct : IsDistinct a.votes
    pub not_requester : (v : Vote) → In v a.votes → v.approver ≢ a.requester
    pub not_author :
        (v : Vote) (creator : Text)
        → In v a.votes
        → author a.roe_id a.roe_version ≡ some creator
        → v.approver ≢ creator
    pub two : a.state ≡ granted → 2 ≤ count_approves a.votes

  vote_on-tests :
      (a b : Approval) (v : Vote)
      → vote_on (some author) has_role a v ≡ ok b
      → (text_eq v.approver a.requester ≡ false)
        × ((creator : Text)
            → author a.roe_id a.roe_version ≡ some creator
            → text_eq v.approver creator ≡ false)
        × (member v.approver (map (λ u. u.approver) a.votes) ≡ false)
        × (b ≡ record a { votes = a.votes ++ v ∷ []; state = next_state v (a.votes ++ v ∷ []) })
  unfolding vote_on check_author
  vote_on-tests a b v h = (ground arith, (λ c e. ground arith), ground arith, ground arith)

In-append_cases : {A : Type 0} (xs : List A) (y x : A) → In x (xs ++ y ∷ []) → In x xs ⊎ (y ≡ x)
In-append_cases [] y x (inl e) = inr e
In-append_cases [] y x (inr m) = absurd m
In-append_cases (z ∷ xs) y x (inl e) = inl (inl e)
In-append_cases (z ∷ xs) y x (inr m) = elim (In-append_cases xs y x m) [
  | inl n ↦ inl (inr n)
  | inr e ↦ inr e
]

map-append :
    (xs : List Vote) (y : Vote)
    → map (λ u. u.approver) (xs ++ y ∷ []) ≡ map (λ u. u.approver) xs ++ y.approver ∷ []
map-append [] y = refl
map-append (x ∷ xs) y = ap (◌∷◌ x.approver) (map-append xs y)

append-IsDistinct :
    (votes : List Vote) (v : Vote)
    → IsDistinct votes
    → ¬ In v.approver (map (λ u. u.approver) votes)
    → IsDistinct (votes ++ v ∷ [])
append-IsDistinct [] v d n = ((λ m. m), tt)
append-IsDistinct (u ∷ votes) v (first, d) n = (
  (λ m.
      (elim (In-append_cases (map (λ w. w.approver) votes) v.approver u.approver
        (subst (In u.approver) (map-append votes v) m)) [
          | inl k ↦ first k
          | inr e ↦ n (inl (sym e))
        ])),
  append-IsDistinct votes v d (λ m. n (inr m)),
)

text_ne : (s t : Text) → text_eq s t ≡ false → s ≢ t
text_ne s t h e = absurd (true≢false (sym ((text_eq_iff s t).1 e) ∙ h))

next_state-granted :
    (v : Vote) (votes : List Vote) → next_state v votes ≡ granted → 2 ≤ count_approves votes
unfolding next_state
next_state-granted v votes h = ground arith

module _ (author : Text → ℕ → Option Text) (has_role : Text → Text → Bool) where
  vote_on-IsFourEyes :
      (a b : Approval) (v : Vote)
      → IsFourEyes author has_role a
      → vote_on (some author) has_role a v ≡ ok b
      → IsFourEyes author has_role b
  vote_on-IsFourEyes a b v sound h =
      let (requester, creator, fresh, same) = vote_on-tests author has_role a b v h in
      subst (IsFourEyes author has_role) (sym same) (record {
        distinct = append-IsDistinct a.votes v sound.distinct (λ m.
            true≢false (sym ((member_iff v.approver (map (λ u. u.approver) a.votes)).1 m) ∙ fresh));
        not_requester = λ u m. (elim (In-append_cases a.votes v u m) [
          | inl k ↦ sound.not_requester u k
          | inr e ↦
              subst (λ w. w.approver ≢ a.requester) e (text_ne v.approver a.requester requester)
        ]);
        not_author = λ u c m g. (elim (In-append_cases a.votes v u m) [
          | inl k ↦ sound.not_author u c k g
          | inr e ↦ subst (λ w. w.approver ≢ c) e (text_ne v.approver c (creator c g))
        ]);
        two = next_state-granted v (a.votes ++ v ∷ []);
      })

  decide-cases :
      (now : ℕ) (a b : Approval) (v : Vote)
      → decide (some author) has_role now a v ≡ ok b
      → (b ≡ record a { state = expired }) ⊎ (vote_on (some author) has_role a v ≡ ok b)
  unfolding decide
  decide-cases now a b v h = ground arith

  -- Where the loader of RoEs is wired, every decision that is recorded keeps an approval
  -- four-eyed: each approver has one vote, none is the requester or the author of the RoE, and it is
  -- granted only with two approving votes.
  pub decide-IsFourEyes :
      (now : ℕ) (a b : Approval) (v : Vote)
      → IsFourEyes author has_role a
      → decide (some author) has_role now a v ≡ ok b
      → IsFourEyes author has_role b
  decide-IsFourEyes now a b v sound h = elim (decide-cases now a b v h) [
    | inr k ↦ vote_on-IsFourEyes a b v sound k
    | inl e ↦ subst (IsFourEyes author has_role) (sym e) (record {
      distinct = sound.distinct;
      not_requester = sound.not_requester;
      not_author = sound.not_author;
      two = λ g. cc;
    })
  ]
