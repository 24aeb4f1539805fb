-- ===== src/Common/Texts.antt =====
-- Text as the list of its bytes, with what the programs use of Go's package strings.
use Prim.Native.Nat.{ℕ, ◌+◌, ◌-◌}
use Prim.Native.Char.{code}
use Prim.Native.String.{String}
use mathlib.Core.Path.{◌≡◌, refl}
use mathlib.Core.Logic.{◌↔◌}
use mathlib.Core.Bool.{Bool, true, false, not, ◌&&◌, ◌||◌}
use mathlib.Core.Option.{Option, none, some}
use mathlib.Core.List.{List, [], ◌∷◌, ◌++◌}
use native.Mathlib.Omega.{arith}
use aegisbastion.Common.Tests.{◌==◌, leb, if◌then◌else◌}
use aegisbastion.Common.Lists.{length, take, drop, any, In, any-In, In-any}

abbrev pub Text : Type 0
Text = List ℕ

-- The code points of a literal: its bytes, if it is ASCII.
abbrev pub codes : String → Text
codes String.[] = []
codes (String.◌∷◌ c s) = code c ∷ codes s

unfoldable pub text_eq : Text → Text → Bool
text_eq [] [] = true
text_eq [] (y ∷ t) = false
text_eq (x ∷ s) [] = false
text_eq (x ∷ s) (y ∷ t) = x == y && text_eq s t

pub text_eq_refl : (s : Text) → text_eq s s ≡ true
unfolding text_eq
text_eq_refl [] = refl
text_eq_refl (x ∷ s) = ground (arith, text_eq_refl s)

pub text_eq_sound : (s t : Text) → text_eq s t ≡ true → s ≡ t
unfolding text_eq
text_eq_sound [] [] h = refl
text_eq_sound [] (y ∷ t) h = cc
text_eq_sound (x ∷ s) [] h = cc
text_eq_sound (x ∷ s) (y ∷ t) h = ground (arith, text_eq_sound s t)

pub text_eq_iff : (s t : Text) → (text_eq s t ≡ true) ↔ (s ≡ t)
text_eq_iff s t = (text_eq_sound s t, λ e. rw e (text_eq_refl t))

-- strings.HasPrefix.
unfoldable pub has_prefix : Text → Text → Bool
has_prefix s [] = true
has_prefix [] (y ∷ t) = false
has_prefix (x ∷ s) (y ∷ t) = x == y && has_prefix s t

-- strings.HasSuffix.
unfoldable pub has_suffix : Text → Text → Bool
unfolding text_eq
has_suffix s t = leb (length t) (length s) && text_eq (drop (length s - length t) s) t

-- strings.TrimPrefix.
unfoldable pub trim_prefix : Text → Text → Text
unfolding has_prefix
trim_prefix s t = if has_prefix s t then drop (length t) s else s

-- strings.TrimSuffix.
unfoldable pub trim_suffix : Text → Text → Text
unfolding has_suffix
trim_suffix s t = if has_suffix s t then take (length s - length t) s else s

-- A text is among the given ones: a loop over a slice, or a set kept as a map.
unfoldable pub member : Text → List Text → Bool
unfolding any text_eq
member s ts = any (λ t. text_eq t s) ts

pub member_iff : (s : Text) (ts : List Text) → (member s ts ≡ true) ↔ In s ts
unfolding member
member_iff s ts = (fore, back)
  where
    fore : any (λ t. text_eq t s) ts ≡ true → In s ts
    fore h = let r = any-In (λ t. text_eq t s) ts h in rw (text_eq_sound r.0 s r.2) at r.1

    back : In s ts → any (λ t. text_eq t s) ts ≡ true
    back m = In-any (λ t. text_eq t s) ts s m (text_eq_refl s)

pub has_prefix-append : (t s : Text) → has_prefix (t ++ s) t ≡ true
unfolding has_prefix
has_prefix-append [] s = refl
has_prefix-append (x ∷ t) s = ground (arith, has_prefix-append t s)

pub has_prefix_sound : (s t : Text) → has_prefix s t ≡ true → (r : Text) × (s ≡ t ++ r)
unfolding has_prefix
has_prefix_sound s [] h = (s, refl)
has_prefix_sound [] (y ∷ t) h = cc
has_prefix_sound (x ∷ s) (y ∷ t) h =
    let r = has_prefix_sound s t (ground arith) in (r.0, ground (arith, r.1))

-- strings.ToLower, on ASCII.
unfoldable pub to_lower : Text → Text
to_lower [] = []
to_lower (c ∷ s) = (if leb b'A' c && leb c b'Z' then c + 32 else c) ∷ to_lower s

-- strings.ToUpper, on ASCII.
unfoldable pub to_upper : Text → Text
to_upper [] = []
to_upper (c ∷ s) = (if leb b'a' c && leb c b'z' then c - 32 else c) ∷ to_upper s

abbrev pub is_space : ℕ → Bool
is_space c = c == b' ' || (leb 9 c && leb c 13)

unfoldable pub trim_left : Text → Text
trim_left [] = []
trim_left (c ∷ s) = if is_space c then trim_left s else c ∷ s

trim_end : ℕ → Text → Text
trim_end c [] = if is_space c then [] else c ∷ []
trim_end c (d ∷ r) = c ∷ d ∷ r

unfoldable pub trim_right : Text → Text
unfolding trim_end
trim_right [] = []
trim_right (c ∷ s) = trim_end c (trim_right s)

-- strings.TrimSpace, on ASCII.
unfoldable pub trim_space : Text → Text
unfolding trim_left trim_right
trim_space s = trim_right (trim_left s)

grow : Bool → ℕ → List Text → List Text
grow true d parts = [] ∷ parts
grow false d [] = (d ∷ []) ∷ []
grow false d (p ∷ parts) = (d ∷ p) ∷ parts

-- strings.Split at one byte: never empty.
unfoldable pub split_on : ℕ → Text → List Text
unfolding grow
split_on c [] = [] ∷ []
split_on c (d ∷ s) = grow (d == c) d (split_on c s)

add_front : ℕ → Option (Text × Text) → Option (Text × Text)
add_front d none = none
add_front d (some (a, b)) = some (d ∷ a, b)

-- strings.Cut at one byte.
unfoldable pub cut : ℕ → Text → Option (Text × Text)
unfolding add_front
cut c [] = none
cut c (d ∷ s) = if d == c then some ([], s) else add_front d (cut c s)

-- strings.Contains.
unfoldable pub contains : Text → Text → Bool
unfolding has_prefix
contains [] t = has_prefix [] t
contains (c ∷ s) t = has_prefix (c ∷ s) t || contains s t

-- strings.ContainsAny, and strings.Contains of one byte.
unfoldable pub contains_any : Text → List ℕ → Bool
unfolding any
contains_any s cs = any (λ c. any (λ d. d == c) cs) s

-- What stands after the last byte `c`, or the whole: `s[strings.LastIndex(s, c)+1:]`.
unfoldable pub after_last : ℕ → Text → Text
unfolding contains_any
after_last c [] = []
after_last c (d ∷ s) =
    if d == c && not (contains_any s (c ∷ []))
    then s
    else if contains_any s (c ∷ [])
    then after_last c s
    else d ∷ s
