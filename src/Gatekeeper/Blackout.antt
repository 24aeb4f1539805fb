-- ===== src/Gatekeeper/Blackout.antt =====
-- services/gatekeeper/internal/blackout/blackout.go: the blackout windows of an RoE. The time zone
-- database is a parameter: the weekday (0 is Sunday) and the hour of a moment, where the zone is
-- known.
pub mod FailClosed
use Prim.Native.Nat.{◌^◌}
use aegisbastion.Common.{
  ℕ, zero, suc, ◌+◌, ◌-◌, ◌*◌, ◌≡◌, ◌&&◌, ◌||◌, Bool, true, false, List, [], ◌∷◌, Option, none,
  some, Text, codes, text_eq, find, put, split_on, cut, trim_space, to_upper, any, if◌then◌else◌,
  leb, ltb, ◌==◌,
}

pub record Window : Type 0 where
  pub rrule : Text
  pub tz : Text

pub record Local : Type 0 where
  pub weekday : ℕ
  pub hour : ℕ

-- A Go `int`: its sign and its distance from 0.
pub record Number : Type 0 where
  pub negative : Bool
  pub size : ℕ

abbrev pub is_digit : ℕ → Bool
is_digit c = leb b'0' c && leb c b'9'

-- The digits of a number, after some that are read.
unfoldable pub digits : ℕ → Text → Option ℕ
digits n [] = some n
digits n (c ∷ s) = let rest = digits (n * 10 + (c - b'0')) s in if is_digit c then rest else none

unfoldable pub unsigned : Text → Option ℕ
unfolding digits
unsigned [] = none
unsigned (c ∷ s) = digits 0 (c ∷ s)

-- The range of a 64-bit `int`.
unfoldable pub in_range : Bool → Option ℕ → Option Number
in_range negative none = none
in_range negative (some n) =
    if leb n (if negative then 2 ^ 63 else 2 ^ 63 - 1)
    then some (record { negative = negative; size = n })
    else none

-- strconv.Atoi.
unfoldable pub atoi : Text → Option Number
unfolding unsigned in_range
atoi [] = none
atoi (c ∷ s) =
    if c == b'-'
    then in_range true (unsigned s)
    else if c == b'+'
    then in_range false (unsigned s)
    else in_range false (unsigned (c ∷ s))

-- `i <= h` and `h <= i` for an hour, and `lo <= hi`.
unfoldable pub int_le_hour : Number → ℕ → Bool
int_le_hour i h = i.negative || leb i.size h

unfoldable pub hour_le_int : ℕ → Number → Bool
hour_le_int h i = if i.negative then h == 0 && i.size == 0 else leb h i.size

unfoldable pub int_le : Number → Number → Bool
int_le a b =
    if a.negative
    then (if b.negative then leb b.size a.size else true)
    else if b.negative
    then a.size == 0 && b.size == 0
    else leb a.size b.size

-- Whether the hour is in a range, which may wrap round midnight.
unfoldable pub in_hours : ℕ → Number → Number → Bool
unfolding int_le_hour hour_le_int int_le
in_hours h lo hi =
    if int_le lo hi
    then int_le_hour lo h && hour_le_int h hi
    else int_le_hour lo h || hour_le_int h hi

-- A range whose ends parse, or true.
unfoldable pub range_covers : ℕ → Option Number → Option Number → Bool
unfolding in_hours
range_covers h (some lo) (some hi) = in_hours h lo hi
range_covers h (some lo) none = true
range_covers h none hi = true

-- One number, or true.
unfoldable pub number_covers : ℕ → Option Number → Bool
unfolding int_le_hour hour_le_int
number_covers h (some n) = int_le_hour n h && hour_le_int h n
number_covers h none = true

-- One token of BYHOUR.
unfoldable pub token_covers : ℕ → Text → Bool
unfolding range_covers number_covers atoi
token_covers h tok = elim (cut b'-' tok) [
  | some (lo, hi) ↦ range_covers h (atoi lo) (atoi hi)
  | none ↦ number_covers h (atoi tok)
]

-- `hourIn`.
unfoldable pub hour_in : ℕ → Text → Bool
hour_in h spec = any (λ tok. token_covers h (trim_space tok)) (split_on b',' spec)

-- `byday`.
abbrev pub byday : List (Text × ℕ)
byday =
    (codes "SU", 0)
    ∷ (codes "MO", 1)
    ∷ (codes "TU", 2)
    ∷ (codes "WE", 3)
    ∷ (codes "TH", 4)
    ∷ (codes "FR", 5)
    ∷ (codes "SA", 6)
    ∷ []

-- The loop over BYDAY: `none` is the early `return true` at a token that is no day.
unfoldable pub day_match : ℕ → List Text → Option Bool
day_match today [] = some false
day_match today (d ∷ ds) = elim (find (trim_space d) byday) [
  | none ↦ none
  | some wd ↦ if today == wd then some true else day_match today ds
]

-- `parts`: the fields of a rule, in upper case; a later one replaces an earlier.
unfoldable pub parts : List (Text × Text) → List Text → List (Text × Text)
parts m [] = m
parts m (p ∷ ps) = elim (cut b'=' (trim_space p)) [
  | none ↦ parts m ps
  | some (k, v) ↦ parts (put (to_upper k) (to_upper v) m) ps
]

-- The last test: the hours, or the whole day.
unfoldable pub hours_active : List (Text × Text) → ℕ → Bool
hours_active m hour = elim (find (codes "BYHOUR") m) [ none ↦ true | some spec ↦ hour_in hour spec ]

unfoldable pub weekly_active : List (Text × Text) → Local → Bool
weekly_active m l = elim (find (codes "BYDAY") m) [
  | none ↦ true
  | some days ↦ (elim (day_match l.weekday (split_on b',' days)) [
    | none ↦ true
    | some false ↦ false
    | some true ↦ hours_active m l.hour
  ])
]

-- The rule on a local time. A missing FREQ is the empty text.
unfoldable pub rule_active : List (Text × Text) → Local → Bool
rule_active m l = elim (find (codes "FREQ") m) [
  | none ↦ true
  | some freq ↦
      if text_eq freq (codes "DAILY")
      then hours_active m l.hour
      else if text_eq freq (codes "WEEKLY")
      then weekly_active m l
      else true
]

module _ (zone : Text → ℕ → Option Local) where
  unfoldable pub window_active : ℕ → Window → Bool
  window_active t w = elim (zone w.tz t) [
    | none ↦ true
    | some l ↦ rule_active (parts [] (split_on b';' w.rrule)) l
  ]

  -- `Active`.
  unfoldable pub active : ℕ → List Window → Bool
  active t windows = any (window_active t) windows
