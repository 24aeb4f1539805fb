-- ===== src/Gatekeeper/Token/Sets.antt =====
-- token/service.go, `sameTargetSet`: the loops over a map of counts compare multisets.
use aegisbastion.Common.{
  ℕ, ◌+◌, ◌-◌, ◌≤◌, suc, ◌≡◌, ◌↔◌, refl, sym, ap, ◌∙◌, Bool, true, false, List, [], ◌∷◌, Option,
  some, Text, text_eq, text_eq_refl, text_eq_sound, length, find, put, find-put, if◌then◌else◌,
  arith, Bool-cases, map, inl, inr,
}
use aegisbastion.Net.{Net}
use aegisbastion.Gatekeeper.Scopecanon.{must_canon}
use aegisbastion.Gatekeeper.Token.Manifest.{or_zero, count_of, tally, use_up, same_target_set}

-- How often a text stands in a list.
unfoldable pub occurs : Text → List Text → ℕ
occurs c [] = 0
occurs c (x ∷ xs) = (if text_eq x c then 1 else 0) + occurs c xs

-- The list without one copy of a text that stands in it.
extract :
    (x : Text) (xs : List Text)
    → 1 ≤ occurs x xs
    → (rest : List Text) × (length xs ≡ suc (length rest))
      × ((c : Text) → occurs c xs ≡ (if text_eq x c then 1 else 0) + occurs c rest)
unfolding occurs
extract x [] h = absurd (omega arith)
extract x (y ∷ xs) h = elim (Bool-cases (text_eq y x)) [
  | inl e ↦
      (xs, refl, λ c. ap (λ z. (if text_eq z c then 1 else 0) + occurs c xs) (text_eq_sound y x e))
  | inr n ↦
      let (rest, l, k) = extract x xs (ground (arith, n, h)) in
      (y ∷ rest, omega (arith, l), λ c. omega (arith, k c))
]

-- Lists of one length, the second with no text more often: every text stands in both as often.
occurs-same :
    (xs ys : List Text)
    → length xs ≡ length ys
    → ((c : Text) → occurs c ys ≤ occurs c xs)
    → (c : Text) → occurs c xs ≡ occurs c ys
unfolding occurs
occurs-same [] [] l h c = refl
occurs-same (x ∷ xs) [] l h c = absurd (omega (arith, l))
occurs-same xs (y ∷ ys) l h c =
    let (rest, m, k) = extract y xs (at_least (h y)) in
    omega (arith, k c, occurs-same rest ys (omega (arith, l, m)) (λ d. omega (arith, h d, k d)) c)
  where
    at_least : (if text_eq y y then 1 else 0) + occurs y ys ≤ occurs y xs → 1 ≤ occurs y xs
    at_least g = ground (arith, text_eq_refl y, g)

occurs-length :
    (xs ys : List Text) → ((c : Text) → occurs c xs ≡ occurs c ys) → length xs ≡ length ys
unfolding occurs
occurs-length [] [] h = refl
occurs-length [] (y ∷ ys) h = absurd (ground (arith, h y, text_eq_refl y))
occurs-length (x ∷ xs) ys h =
    let (rest, m, k) = extract x ys (at_least (h x)) in
    omega (arith, m, occurs-length xs rest (λ c. omega (arith, h c, k c)))
  where
    at_least : (if text_eq x x then 1 else 0) + occurs x xs ≡ occurs x ys → 1 ≤ occurs x ys
    at_least g = ground (arith, text_eq_refl x, g)

or_zero-if :
    (b : Bool) (n : ℕ) (o : Option ℕ)
    → or_zero (if b then some n else o) ≡ (if b then n else or_zero o)
or_zero-if true n o = refl
or_zero-if false n o = refl

count_of-put :
    (k c : Text) (n : ℕ) (set : List (Text × ℕ))
    → count_of c (put k n set) ≡ (if text_eq k c then n else count_of c set)
unfolding count_of
count_of-put k c n set = ap or_zero (find-put k c n set) ∙ or_zero-if (text_eq k c) n (find c set)

module _ (net : Net) where
  -- The counts after the first loop.
  tally-occurs :
      (ts : List Text) (set : List (Text × ℕ)) (c : Text)
      → count_of c (tally net ts set) ≡ occurs c (map (must_canon net) ts) + count_of c set
  unfolding tally occurs
  tally-occurs [] set c = omega arith
  tally-occurs (t ∷ ts) set c =
      let k = must_canon net t in
      omega (arith, tally-occurs ts (put k (count_of k set + 1) set) c, raised k)
    where
      raised :
          (k : Text)
          → count_of c (put k (count_of k set + 1) set)
            ≡ (if text_eq k c then 1 else 0) + count_of c set
      raised k = elim (Bool-cases (text_eq k c)) [
        | inl y ↦
            count_of-put k c (count_of k set + 1) set
            ∙ rw y (ap (λ z. count_of z set + 1) (text_eq_sound k c y) ∙ omega arith)
        | inr f ↦ count_of-put k c (count_of k set + 1) set ∙ rw f (omega arith)
      ]

  -- The second loop finds each target counted.
  use_up_iff :
      (ts : List Text) (set : List (Text × ℕ))
      → (use_up net ts set ≡ true)
        ↔ ((c : Text) → occurs c (map (must_canon net) ts) ≤ count_of c set)
  unfolding use_up occurs
  use_up_iff [] set = (λ h c. omega arith, λ h. refl)
  use_up_iff (t ∷ ts) set =
      let k = must_canon net t in
      let (fore, back) = use_up_iff ts (put k (count_of k set - 1) set) in
      (
        (λ h c. ground (arith, h, lowered k c, fore (ground (arith, h)) c, same k c)),
        (λ h.
            ground
              (arith, h k, text_eq_refl k, back (λ c. ground (arith, h c, lowered k c, same k c)))),
      )
    where
      lowered :
          (k c : Text)
          → count_of c (put k (count_of k set - 1) set)
            ≡ (if text_eq k c then count_of k set - 1 else count_of c set)
      lowered k c = count_of-put k c (count_of k set - 1) set

      same : (k c : Text) → text_eq k c ≡ true → count_of c set ≡ count_of k set
      same k c y = ap (λ z. count_of z set) (sym (text_eq_sound k c y))

  -- The targets of a request equal those of a decision, as `MintToken` compares them, if and only if
  -- every canonical form stands in both lists as often; targets without one count as one form.
  pub same_target_set_iff :
      (a b : List Text)
      → (same_target_set net a b ≡ true)
        ↔ ((c : Text) → occurs c (map (must_canon net) a) ≡ occurs c (map (must_canon net) b))
  unfolding same_target_set
  same_target_set_iff a b =
      let (fore, back) = use_up_iff b (tally net a []) in
      (
        (λ h c.
            occurs-same (map (must_canon net) a) (map (must_canon net) b)
              (length-map a ∙ ground (arith, h) ∙ sym (length-map b))
              (λ d. omega (arith, fore (ground (arith, h)) d, counted d)) c),
        (λ h.
            let l =
              sym (length-map a)
              ∙ occurs-length (map (must_canon net) a) (map (must_canon net) b) h
              ∙ length-map b in
            ground (arith, l, back (λ d. omega (arith, h d, counted d)))),
      )
    where
      length-map : (ts : List Text) → length (map (must_canon net) ts) ≡ length ts
      length-map [] = refl
      length-map (t ∷ ts) = omega (arith, length-map ts)

      the_empty : (d : Text) → count_of d [] ≡ 0
      the_empty d = unfold count_of find in refl

      counted : (d : Text) → count_of d (tally net a []) ≡ occurs d (map (must_canon net) a)
      counted d = omega (arith, tally-occurs a [] d, the_empty d)
