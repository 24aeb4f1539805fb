-- ===== src/PlatformCore/Scope/Verdicts.antt =====
-- pkg/scope/scope.go: exclusions win, and what no entry includes is out of scope.
use aegisbastion.Common.{
  ◌≡◌, ◌≢◌, ◌↔◌, refl, ◌⊎◌, inl, inr, true, false, List, [], ◌∷◌, Text, any, any-In, In-any,
  any-false, In, is_empty, is_empty-false, is_empty_ne, arith, sym, subst, ◌∙◌, none-any, ||-true,
  ok, ◌||◌, either,
}
use mathlib.Core.Bool.{true≢false}
use aegisbastion.Net.{Net}
use aegisbastion.PlatformCore.Scope.{
  Scope, Verdict, out_of_scope, in_scope, excluded, canonicalize, excludes_host, includes_host,
  includes_addr, check, check_all,
}

Verdict-cases : (v : Verdict) → (v ≡ in_scope) ⊎ (v ≢ in_scope)
Verdict-cases in_scope = inl refl
Verdict-cases out_of_scope = inr (λ e. cc)
Verdict-cases excluded = inr (λ e. cc)

module _ (net : Net) (s : Scope) where
  -- The exclusion that is met, the inclusion that is met, for the target's canonical form.
  abbrev pub IsExcluded : Text → Type 0
  IsExcluded target =
      let h = canonicalize net target in
      (e : Text) × In e s.excludes × (excludes_host net h (net.parse_addr h) e ≡ true)

  abbrev pub IsIncluded : Text → Type 0
  IsIncluded target =
      let h = canonicalize net target in
      ((e : Text) × In e s.domains × (includes_host net h (net.parse_addr h) e ≡ true))
      ⊎ ((e : Text) × In e s.cidrs × (includes_addr net (net.parse_addr h) e ≡ true))

  check-tests :
      (target : Text)
      → ((check net s target ≡ in_scope) ↔ (
          (is_empty (canonicalize net target) ≡ false)
          × (any
                (excludes_host net
                  (canonicalize net target)
                  (net.parse_addr (canonicalize net target)))
                s.excludes
              ≡ false)
          × ((any
                  (includes_host net
                    (canonicalize net target)
                    (net.parse_addr (canonicalize net target)))
                  s.domains
                || any (includes_addr net (net.parse_addr (canonicalize net target))) s.cidrs)
              ≡ true)))
  unfolding check
  check-tests target = ground arith

  some_included :
      (target : Text)
      → IsIncluded target
      → (any
            (includes_host net (canonicalize net target) (net.parse_addr (canonicalize net target)))
            s.domains
          || any (includes_addr net (net.parse_addr (canonicalize net target))) s.cidrs)
        ≡ true
  some_included target (inl (e, m, y)) = ground (
    arith,
    In-any (includes_host net (canonicalize net target) (net.parse_addr (canonicalize net target)))
        s.domains e m y,
  )
  some_included target (inr (e, m, y)) =
      ground
        (arith, In-any (includes_addr net (net.parse_addr (canonicalize net target))) s.cidrs e m y)

  -- A target is in scope exactly if it has a canonical form, no exclusion matches it and a domain or
  -- a network of the scope does.
  pub check-in_scope :
      (target : Text)
      → ((check net s target ≡ in_scope)
          ↔ ((canonicalize net target ≢ []) × (¬ IsExcluded target) × IsIncluded target))
  check-in_scope target = (fore, back)
    where
      fore :
          check net s target ≡ in_scope
          → (canonicalize net target ≢ []) × (¬ IsExcluded target) × IsIncluded target
      fore c =
          let (filled, clear, included) = (check-tests target).0 c in
          (
            is_empty-false (canonicalize net target) filled,
            (λ (e, m, y). true≢false (
                sym y
                ∙ any-false
                    (excludes_host net (canonicalize net target)
                      (net.parse_addr (canonicalize net target)))
                    s.excludes e clear m)),
            either
                (any-In
                  (includes_host net (canonicalize net target)
                    (net.parse_addr (canonicalize net target)))
                  s.domains)
                (any-In (includes_addr net (net.parse_addr (canonicalize net target))) s.cidrs)
                (||-true _ _ included),
          )

      back :
          (canonicalize net target ≢ []) × (¬ IsExcluded target) × IsIncluded target
          → check net s target ≡ in_scope
      back (filled, clear, included) = (check-tests target).1 (
        is_empty_ne (canonicalize net target) filled,
        none-any
            (excludes_host net (canonicalize net target) (net.parse_addr (canonicalize net target)))
            s.excludes (λ e m y. clear (e, m, y)),
        some_included target included,
      )

  check_all-next :
      (t : Text) (ts : List Text)
      → check net s t ≡ in_scope
      → check_all net s (t ∷ ts) ≡ check_all net s ts
  unfolding check_all
  check_all-next t ts y = rw (y, check_all)

  check_all-stop :
      (t : Text) (ts : List Text) → check net s t ≢ in_scope → check_all net s (t ∷ ts) ≢ ok tt
  unfolding check_all
  check_all-stop t ts n h = ground arith

  -- All targets pass exactly if each one is in scope.
  pub check_all_iff :
      (ts : List Text)
      → ((check_all net s ts ≡ ok tt) ↔ ((t : Text) → In t ts → check net s t ≡ in_scope))
  check_all_iff [] = unfold check_all in (λ h t m. absurd m, λ h. refl)
  check_all_iff (t ∷ ts) = elim (Verdict-cases (check net s t)) [
    | inl y ↦ (
      λ h u m. (elim m [
        | inl e ↦ subst (λ x. check net s x ≡ in_scope) e y
        | inr n ↦ (check_all_iff ts).0 (sym (check_all-next t ts y) ∙ h) u n
      ]),
      λ h. check_all-next t ts y ∙ (check_all_iff ts).1 (λ u m. h u (inr m)),
    )
    | inr n ↦ (λ h. absurd (check_all-stop t ts n h), λ h. absurd (n (h t (inl refl))))
  ]
