-- ===== src/Common/Lists.antt =====
-- Lists measured by native numbers, and the two quantifiers that the programs' loops decide.
use Prim.Native.Nat.{ℕ, zero, suc, ◌+◌}
use mathlib.Core.Path.{◌≡◌, refl, subst, sym, ap}
use mathlib.Core.Logic.{◌≢◌, ◌⊎◌, inl, inr}
use mathlib.Core.Bool.{Bool, true, false, ◌&&◌, ◌||◌}
use mathlib.Core.List.{List, [], ◌∷◌, ◌++◌, map}
use native.Mathlib.Omega.{arith}
use aegisbastion.Common.Tests.{||-true, ||-false, &&-true, if◌then◌else◌, Bool-cases}

module _ {ℓ} {A : Type ℓ} where
  abbrev pub length : List A → ℕ
  length [] = 0
  length (x ∷ xs) = suc (length xs)

  abbrev pub take : ℕ → List A → List A
  take zero xs = []
  take (suc n) [] = []
  take (suc n) (x ∷ xs) = x ∷ take n xs

  abbrev pub drop : ℕ → List A → List A
  drop zero xs = xs
  drop (suc n) [] = []
  drop (suc n) (x ∷ xs) = drop n xs

  abbrev pub is_empty : List A → Bool
  is_empty [] = true
  is_empty (x ∷ xs) = false

  -- A loop that returns true at the first element that passes, and false at its end.
  unfoldable pub any : (A → Bool) → List A → Bool
  any p [] = false
  any p (x ∷ xs) = p x || any p xs

  -- A loop that returns false at the first element that fails, and true at its end.
  unfoldable pub all : (A → Bool) → List A → Bool
  all p [] = true
  all p (x ∷ xs) = p x && all p xs

  unfoldable pub filter : (A → Bool) → List A → List A
  filter p [] = []
  filter p (x ∷ xs) = if p x then x ∷ filter p xs else filter p xs

  pub length-append : (xs ys : List A) → length (xs ++ ys) ≡ length xs + length ys
  length-append [] ys = omega arith
  length-append (x ∷ xs) ys = omega (arith, length-append xs ys)

-- Membership and the universal quantifier, by recursion.
module _ {A : Type 0} where
  abbrev pub In : A → List A → Type 0
  In a [] = ⊥
  In a (x ∷ xs) = (x ≡ a) ⊎ In a xs

  abbrev pub All : (A → Type 0) → List A → Type 0
  All P [] = Unit {0}
  All P (x ∷ xs) = P x × All P xs

module _ {A : Type 0} where
  pub All-In : (P : A → Type 0) (xs : List A) (a : A) → All P xs → In a xs → P a
  All-In P [] a h m = absurd m
  All-In P (x ∷ xs) a h (inl e) = subst P e h.0
  All-In P (x ∷ xs) a h (inr m) = All-In P xs a h.1 m

  pub any-In : (p : A → Bool) (xs : List A) → any p xs ≡ true → (a : A) × In a xs × (p a ≡ true)
  unfolding any
  any-In p [] h = cc
  any-In p (x ∷ xs) h = elim (||-true (p x) (any p xs) h) [
    | inl here ↦ (x, inl refl, here)
    | inr there ↦ let r = any-In p xs there in (r.0, inr r.1, r.2)
  ]

  pub In-any : (p : A → Bool) (xs : List A) (a : A) → In a xs → p a ≡ true → any p xs ≡ true
  unfolding any
  In-any p [] a m h = absurd m
  In-any p (x ∷ xs) a (inl e) h = ground (arith, subst (λ y. p y ≡ true) (sym e) h)
  In-any p (x ∷ xs) a (inr m) h = ground (arith, In-any p xs a m h)

  pub any-false : (p : A → Bool) (xs : List A) (a : A) → any p xs ≡ false → In a xs → p a ≡ false
  unfolding any
  any-false p [] a h m = absurd m
  any-false p (x ∷ xs) a h (inl e) = subst (λ y. p y ≡ false) e (ground arith)
  any-false p (x ∷ xs) a h (inr m) = any-false p xs a (ground arith) m

  pub all-All : (p : A → Bool) (xs : List A) → all p xs ≡ true → All (λ x. p x ≡ true) xs
  unfolding all
  all-All p [] h = tt
  all-All p (x ∷ xs) h = let r = &&-true (p x) (all p xs) h in (r.0, all-All p xs r.1)

  pub all-In : (p : A → Bool) (xs : List A) (a : A) → all p xs ≡ true → In a xs → p a ≡ true
  all-In p xs a h m = All-In (λ x. p x ≡ true) xs a (all-All p xs h) m

  pub In-all : (p : A → Bool) (xs : List A) → ((a : A) → In a xs → p a ≡ true) → all p xs ≡ true
  unfolding all
  In-all p [] h = refl
  In-all p (x ∷ xs) h = ground (arith, h x (inl refl), In-all p xs (λ a m. h a (inr m)))

  pub In-filter : (p : A → Bool) (xs : List A) (a : A) → In a (filter p xs) → In a xs × (p a ≡ true)
  unfolding filter
  In-filter p [] a m = absurd m
  In-filter p (x ∷ xs) a m = elim (Bool-cases (p x)) [
    | inl y ↦
        kept y (In-filter p xs a)
          (subst (λ b. In a (if b then x ∷ filter p xs else filter p xs)) y m)
    | inr n ↦
        let r =
          In-filter p xs a (subst (λ b. In a (if b then x ∷ filter p xs else filter p xs)) n m) in
        (inr r.0, r.1)
  ]
    where
      kept :
          p x ≡ true
          → (In a (filter p xs) → In a xs × (p a ≡ true))
          → (x ≡ a) ⊎ In a (filter p xs)
          → In a (x ∷ xs) × (p a ≡ true)
      kept y ih (inl e) = (inl e, subst (λ z. p z ≡ true) e y)
      kept y ih (inr k) = let r = ih k in (inr r.0, r.1)

pub any-map-false :
    {A B : Type 0} (f : A → B) (p : B → Bool) (xs : List A) (a : A)
    → any p (map f xs) ≡ false
    → In a xs
    → p (f a) ≡ false
any-map-false f p [] a h m = absurd m
any-map-false f p (x ∷ xs) a h m =
    let (here, there) = ||-false (p (f x)) (any p (map f xs)) (unfold any in h) in
    elim m [ inl e ↦ subst (λ y. p (f y) ≡ false) e here | inr n ↦ any-map-false f p xs a there n ]

-- `len(xs) == 0`, read back.
pub is_empty-true {ℓ} : {A : Type ℓ} (xs : List A) → is_empty xs ≡ true → xs ≡ []
is_empty-true [] h = refl
is_empty-true (x ∷ xs) h = cc

pub is_empty-false {ℓ} : {A : Type ℓ} (xs : List A) → is_empty xs ≡ false → xs ≢ []
is_empty-false [] h e = cc
is_empty-false (x ∷ xs) h e = cc

pub is_empty_ne {ℓ} : {A : Type ℓ} (xs : List A) → xs ≢ [] → is_empty xs ≡ false
is_empty_ne [] h = absurd (h refl)
is_empty_ne (x ∷ xs) h = refl

pub none-any :
    {A : Type 0} (p : A → Bool) (xs : List A) → ((a : A) → In a xs → p a ≢ true) → any p xs ≡ false
none-any p xs h = elim (Bool-cases (any p xs)) [
  | inl y ↦ let (a, m, k) = any-In p xs y in absurd (h a m k)
  | inr n ↦ n
]

pub filter-In :
    {A : Type 0} (p : A → Bool) (xs : List A) (a : A) → In a xs → p a ≡ true → In a (filter p xs)
unfolding filter
filter-In p [] a m h = absurd m
filter-In p (x ∷ xs) a (inl e) h =
    subst (λ b. In a (if b then x ∷ filter p xs else filter p xs))
      (sym (subst (λ y. p y ≡ true) (sym e) h)) (inl e)
filter-In p (x ∷ xs) a (inr m) h = elim (Bool-cases (p x)) [
  | inl y ↦
      subst (λ b. In a (if b then x ∷ filter p xs else filter p xs)) (sym y)
        (inr (filter-In p xs a m h))
  | inr n ↦
      subst (λ b. In a (if b then x ∷ filter p xs else filter p xs)) (sym n) (filter-In p xs a m h)
]

pub In-map : {A B : Type 0} (f : A → B) (xs : List A) (a : A) → In a xs → In (f a) (map f xs)
In-map f [] a m = absurd m
In-map f (x ∷ xs) a (inl e) = inl (ap f e)
In-map f (x ∷ xs) a (inr m) = inr (In-map f xs a m)

pub In-append : {A : Type 0} (xs ys : List A) (a : A) → In a ys → In a (xs ++ ys)
In-append [] ys a m = m
In-append (x ∷ xs) ys a m = inr (In-append xs ys a m)
