-- ===== src/Gatekeeper/Capreg/Lookup.antt =====
-- capreg.go, `Lookup`: the longest matching pattern decides.
use aegisbastion.Common.{
  find, ◌≤◌, ◌<◌, ◌≡◌, refl, ◌⊎◌, inl, inr, true, List, [], ◌∷◌, none, some, Text, length, In,
  arith, Bool-cases, ltb, ltb→lt, sym, ◌∙◌, subst, Option-cases, none≢some,
}
use aegisbastion.Gatekeeper.Capreg.{
  RiskClass, unspecified, Registry, matches, better, longest, found, lookup,
}

-- A class that is found comes from a pattern that matches, and no longer one matches.
abbrev pub Decides : Text → List (Text × RiskClass) → RiskClass → Type 0
Decides capability m rc =
    (p : Text) × In (p, rc) m
    × (matches capability p ≡ true)
    × ((q : Text) (c : RiskClass) → In (q, c) m → matches capability q ≡ true → length q ≤ length p)

better-cases :
    (capability : Text) (b e : Text × RiskClass)
    → ((better capability b e ≡ b) × (matches capability e.0 ≡ true → length e.0 ≤ length b.0))
      ⊎ ((better capability b e ≡ e) × (matches capability e.0 ≡ true) × (length b.0 < length e.0))
unfolding better
better-cases capability b e = elim (Bool-cases (matches capability e.0)) [
  | inl y ↦ elim (Bool-cases (ltb (length b.0) (length e.0))) [
    | inl l ↦ inr (ground arith, y, ltb→lt _ _ l)
    | inr g ↦ inl (ground arith, λ _. ground arith)
  ]
  | inr n ↦ inl (ground arith, λ y. cc)
]

better-ge :
    (capability : Text) (b e : Text × RiskClass) → length b.0 ≤ length (better capability b e).0
better-ge capability b e = elim (better-cases capability b e) [
  | inl k ↦ rw k.0 (omega arith)
  | inr k ↦ rw k.0 (omega arith)
]

longest-ge :
    (capability : Text) (b : Text × RiskClass) (m : List (Text × RiskClass))
    → length b.0 ≤ length (longest capability b m).0
unfolding longest
longest-ge capability b [] = omega arith
longest-ge capability b (e ∷ m) =
    omega (arith, better-ge capability b e, longest-ge capability (better capability b e) m)

better-covers :
    (capability : Text) (b e : Text × RiskClass)
    → matches capability e.0 ≡ true
    → length e.0 ≤ length (better capability b e).0
better-covers capability b e y = elim (better-cases capability b e) [
  | inl k ↦ rw k.0 (k.1 y)
  | inr k ↦ rw k.0 (omega arith)
]

longest-covers :
    (capability : Text) (b : Text × RiskClass) (m : List (Text × RiskClass)) (e : Text × RiskClass)
    → In e m
    → matches capability e.0 ≡ true
    → length e.0 ≤ length (longest capability b m).0
unfolding longest
longest-covers capability b [] e h y = absurd h
longest-covers capability b (x ∷ m) e (inr h) y =
    longest-covers capability (better capability b x) m e h y
longest-covers capability b (x ∷ m) e (inl h) y =
    subst
      (λ z. matches capability z.0 ≡ true → length z.0 ≤ length (longest capability b (x ∷ m)).0) h
      (λ k.
        omega
          (arith, better-covers capability b x k, longest-ge capability (better capability b x) m))
      y

longest-from :
    (capability : Text) (b : Text × RiskClass) (m : List (Text × RiskClass))
    → let r = longest capability b m in (r ≡ b) ⊎ (In r m × (matches capability r.0 ≡ true))
unfolding longest
longest-from capability b [] = inl refl
longest-from capability b (e ∷ m) = elim (longest-from capability (better capability b e) m) [
  | inr k ↦ inr (inr k.0, k.1)
  | inl k ↦ elim (better-cases capability b e) [
    | inl j ↦ inl (k ∙ j.0)
    | inr j ↦ inr (inl (sym (k ∙ j.0)), rw (k ∙ j.0) j.1)
  ]
]

-- An exact entry wins over the patterns.
pub lookup-exact :
    (r : Registry) (capability : Text) {rc : RiskClass}
    → find capability r.exact ≡ some rc
    → lookup r capability ≡ some rc
unfolding lookup
lookup-exact r capability h = rw (h, lookup)

found-some : (b : Text × RiskClass) {rc : RiskClass} → found b ≡ some rc → b ≡ (b.0, rc)
unfolding found
found-some ([], c) h = cc
found-some (x ∷ p, c) h = cc

-- With no exact entry, a class that is found is that of a longest matching pattern.
pub lookup-Decides :
    (r : Registry) (capability : Text) {rc : RiskClass}
    → find capability r.exact ≡ none
    → lookup r capability ≡ some rc
    → Decides capability r.pattern rc
unfolding found
lookup-Decides r capability {rc} h l = elim (longest-from capability ([], unspecified) r.pattern) [
  | inl k ↦ absurd (none_ne k)
  | inr k ↦ (best.0, subst (λ e. In e r.pattern) last k.0, k.1, longer)
]
  where
    best : Text × RiskClass
    best = longest capability ([], unspecified) r.pattern

    hit : found best ≡ some rc
    hit = unfold lookup in rw (h, lookup) at l

    last : best ≡ (best.0, rc)
    last = found-some best hit

    none_ne : best ≡ ([], unspecified) → ⊥
    none_ne k = absurd (none≢some (rw k at hit))

    longer :
        (q : Text) (c : RiskClass)
        → In (q, c) r.pattern
        → matches capability q ≡ true
        → length q ≤ length best.0
    longer q c m y = longest-covers capability ([], unspecified) r.pattern (q, c) m y

found-none : (b : Text × RiskClass) → found b ≡ none → length b.0 ≡ 0
unfolding found
found-none ([], c) h = refl
found-none (x ∷ p, c) h = cc

-- A capability is unknown only if no pattern but the empty one matches it.
pub lookup-none :
    (r : Registry) (capability : Text)
    → lookup r capability ≡ none
    → (find capability r.exact ≡ none)
      × ((q : Text) (c : RiskClass)
          → In (q, c) r.pattern
          → matches capability q ≡ true
          → length q ≡ 0)
unfolding lookup
lookup-none r capability l = elim (Option-cases (find capability r.exact)) [
  | inr (c, e) ↦ absurd (none≢some (sym l ∙ lookup-exact r capability e))
  | inl e ↦ (
    e,
    λ q c m y. omega (
      arith,
      found-none (longest capability ([], unspecified) r.pattern) (rw (e, lookup) at l),
      longest-covers capability ([], unspecified) r.pattern (q, c) m y,
    ),
  )
]
