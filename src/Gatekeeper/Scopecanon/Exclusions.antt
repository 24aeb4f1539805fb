-- ===== src/Gatekeeper/Scopecanon/Exclusions.antt =====
-- scope.go, `Evaluate`: exclusions win, and only a matching include brings a target into scope.
use aegisbastion.Common.{
  ◌≡◌, ◌↔◌, true, false, List, none, some, Text, In, any-In, In-any, arith, Option-cases, ap, sym,
  ◌∙◌, inl, inr, if◌then◌else◌,
}
use mathlib.Core.Bool.{false≢true}
use aegisbastion.Net.{Net}
use aegisbastion.Gatekeeper.Scopecanon.{
  canonical, match_canonical, must_canon, any_matches, evaluate,
}

module _ (net : Net) where
  -- An entry of the list matches a canonical target.
  abbrev pub Matches : List Text → Text → Type 0
  Matches entries t = (e : Text) × In e entries × (match_canonical net (must_canon net e) t ≡ true)

  pub any_matches-Matches :
      (entries : List Text) (t : Text) → (any_matches net entries t ≡ true) ↔ Matches entries t
  unfolding any_matches
  any_matches-Matches entries t =
      (any-In (λ e. match_canonical net (must_canon net e) t) entries, back)
    where
      back : Matches entries t → any_matches net entries t ≡ true
      back (e, m, y) = In-any (λ e. match_canonical net (must_canon net e) t) entries e m y

  evaluate-some :
      (includes excludes : List Text) (target : Text) {t : Text}
      → canonical net target ≡ some t
      → evaluate net includes excludes target ≡ (
          if any_matches net excludes t
          then (false, true)
          else if any_matches net includes t
          then (true, false)
          else (false, false))
  unfolding evaluate
  evaluate-some includes excludes target e = rw (e, evaluate)

  evaluate-none :
      (includes excludes : List Text) (target : Text)
      → canonical net target ≡ none
      → evaluate net includes excludes target ≡ (false, false)
  unfolding evaluate
  evaluate-none includes excludes target e = rw (e, evaluate)

  -- A target is in scope exactly when it has a canonical form that an include matches and no
  -- exclusion does.
  pub evaluate-in_scope :
      (includes excludes : List Text) (target : Text)
      → ((evaluate net includes excludes target).0 ≡ true)
        ↔ ((t : Text) × (canonical net target ≡ some t) × Matches includes t × ¬ Matches excludes t)
  evaluate-in_scope includes excludes target = (fore, back)
    where
      fore :
          (evaluate net includes excludes target).0 ≡ true
          → (t : Text) × (canonical net target ≡ some t) × Matches includes t × ¬ Matches excludes t
      fore h = elim (Option-cases (canonical net target)) [
        | inl e ↦
            absurd (false≢true (ap (λ p. p.0) (sym (evaluate-none includes excludes target e)) ∙ h))
        | inr (t, e) ↦
            let h' = ap (λ p. p.0) (sym (evaluate-some includes excludes target e)) ∙ h in
            (
              t,
              e,
              (any_matches-Matches includes t).0 (ground arith),
              λ x. absurd (false≢true (ground (arith, (any_matches-Matches excludes t).1 x))),
            )
      ]

      back :
          ((t : Text) × (canonical net target ≡ some t) × Matches includes t × ¬ Matches excludes t)
          → (evaluate net includes excludes target).0 ≡ true
      back (t, e, i, x) = rw (evaluate-some includes excludes target e) (
          ground (
            arith,
            (any_matches-Matches includes t).1 i,
            λ (y : any_matches net excludes t ≡ true). x ((any_matches-Matches excludes t).0 y),
          ))

  -- A target is excluded exactly when it has a canonical form that an exclusion matches, whatever
  -- the includes say.
  pub evaluate-excluded :
      (includes excludes : List Text) (target : Text)
      → ((evaluate net includes excludes target).1 ≡ true)
        ↔ ((t : Text) × (canonical net target ≡ some t) × Matches excludes t)
  evaluate-excluded includes excludes target = (fore, back)
    where
      fore :
          (evaluate net includes excludes target).1 ≡ true
          → (t : Text) × (canonical net target ≡ some t) × Matches excludes t
      fore h = elim (Option-cases (canonical net target)) [
        | inl e ↦
            absurd (false≢true (ap (λ p. p.1) (sym (evaluate-none includes excludes target e)) ∙ h))
        | inr (t, e) ↦
            let h' = ap (λ p. p.1) (sym (evaluate-some includes excludes target e)) ∙ h in
            (t, e, (any_matches-Matches excludes t).0 (ground arith))
      ]

      back :
          ((t : Text) × (canonical net target ≡ some t) × Matches excludes t)
          → (evaluate net includes excludes target).1 ≡ true
      back (t, e, x) =
          rw (evaluate-some includes excludes target e)
            (ground (arith, (any_matches-Matches excludes t).1 x))
