-- ===== src/Gatekeeper/Blackout/FailClosed.antt =====
-- blackout.go: a window is inactive only where its rule has been read to the end.
use aegisbastion.Common.{
  ℕ, ◌≡◌, ◌≢◌, ◌⊎◌, inl, inr, true, false, List, [], ◌∷◌, Option, none, some, Text, codes, text_eq,
  text_eq_sound, trim_space, split_on, cut, find, any-false, In, arith, Bool-cases, Option-cases,
  none≢some, subst,
}
use mathlib.Core.Bool.{true≢false}
use aegisbastion.Gatekeeper.Blackout.{
  Window, Local, Number, atoi, token_covers, range_covers, number_covers, hour_in, byday, day_match,
  parts, hours_active, weekly_active, rule_active, window_active,
}

-- A token of BYHOUR is a number or a range of two.
abbrev pub IsReadable : Text → Type 0
IsReadable tok =
    ((n : Number) × (cut b'-' tok ≡ none) × (atoi tok ≡ some n))
    ⊎ ((lo : Text) × (hi : Text) × (a : Number) × (b : Number) × (cut b'-' tok ≡ some (lo, hi))
        × (atoi lo ≡ some a)
        × (atoi hi ≡ some b))

token_covers-false : (h : ℕ) (tok : Text) → token_covers h tok ≡ false → IsReadable tok
unfolding token_covers range_covers number_covers
token_covers-false h tok f = elim (Option-cases (cut b'-' tok)) [
  | inl n ↦ (elim (Option-cases (atoi tok)) [
    | inl m ↦ absurd (true≢false (rw (n, m, token_covers) at f))
    | inr (i, m) ↦ inl (i, n, m)
  ])
  | inr ((lo, hi), n) ↦ (elim (Option-cases (atoi lo)) [
    | inl m ↦ absurd (true≢false (rw (n, m, token_covers) at f))
    | inr (i, m) ↦ (elim (Option-cases (atoi hi)) [
      | inl k ↦ absurd (true≢false (rw (n, m, k, token_covers) at f))
      | inr (j, k) ↦ inr (lo, hi, i, j, n, m, k)
    ])
  ])
]

-- The hours are given, each readable, and none covers the hour.
abbrev pub IsOffHours : List (Text × Text) → ℕ → Type 0
IsOffHours m h =
    (spec : Text) × (find (codes "BYHOUR") m ≡ some spec)
    × ((tok : Text)
        → In tok (split_on b',' spec)
        → IsReadable (trim_space tok) × (token_covers h (trim_space tok) ≡ false))

hours_active-false : (m : List (Text × Text)) (h : ℕ) → hours_active m h ≡ false → IsOffHours m h
unfolding hours_active hour_in
hours_active-false m h f = elim (Option-cases (find (codes "BYHOUR") m)) [
  | inl n ↦ absurd (true≢false (rw (n, hours_active) at f))
  | inr (spec, g) ↦ (
    spec,
    g,
    λ tok i. readable tok (
        any-false (λ t. token_covers h (trim_space t)) (split_on b',' spec) tok
          (rw (g, hours_active) at f) i),
  )
]
  where
    readable :
        (tok : Text)
        → token_covers h (trim_space tok) ≡ false
        → IsReadable (trim_space tok) × (token_covers h (trim_space tok) ≡ false)
    readable tok e = (token_covers-false h (trim_space tok) e, e)

day_match-first :
    (today : ℕ) (d : Text) (ds : List Text)
    → day_match today (d ∷ ds) ≡ some false
    → (wd : ℕ) × (find (trim_space d) byday ≡ some wd)
      × (today ≢ wd)
      × (day_match today ds ≡ some false)
unfolding day_match
day_match-first today d ds h = elim (Option-cases (find (trim_space d) byday)) [
  | inl n ↦ absurd (none≢some (rw (n, day_match) at h))
  | inr (wd, g) ↦
      (let k = rw (g, day_match) at h in (wd, g, (λ e. ground (arith, k)), ground (arith, k)))
]

-- Each day is one of the seven, and none is today.
day_match-false :
    (today : ℕ) (ds : List Text)
    → day_match today ds ≡ some false
    → (d : Text) → In d ds
    → (wd : ℕ) × (find (trim_space d) byday ≡ some wd) × (today ≢ wd)
day_match-false today [] h d m = absurd m
day_match-false today (x ∷ ds) h d m =
    let (wd, g, ne, rest) = day_match-first today x ds h in
    elim m [
      | inl e ↦ (wd, subst (λ y. find (trim_space y) byday ≡ some wd) e g, ne)
      | inr n ↦ day_match-false today ds rest d n
    ]

-- The days are given, each known, and none is the day of the week.
abbrev pub IsOffDays : List (Text × Text) → ℕ → Type 0
IsOffDays m today =
    (days : Text) × (find (codes "BYDAY") m ≡ some days)
    × ((d : Text)
        → In d (split_on b',' days)
        → (wd : ℕ) × (find (trim_space d) byday ≡ some wd) × (today ≢ wd))

weekly_active-false :
    (m : List (Text × Text)) (l : Local)
    → weekly_active m l ≡ false
    → IsOffDays m l.weekday ⊎ IsOffHours m l.hour
unfolding weekly_active
weekly_active-false m l f = elim (Option-cases (find (codes "BYDAY") m)) [
  | inl n ↦ absurd (true≢false (rw (n, weekly_active) at f))
  | inr (days, g) ↦ (elim (Option-cases (day_match l.weekday (split_on b',' days))) [
    | inl n ↦ absurd (true≢false (rw (g, n, weekly_active) at f))
    | inr (false, k) ↦ inl (days, g, day_match-false l.weekday (split_on b',' days) k)
    | inr (true, k) ↦ inr (hours_active-false m l.hour (rw (g, k, weekly_active) at f))
  ])
]

rule_active-false :
    (m : List (Text × Text)) (l : Local)
    → rule_active m l ≡ false
    → ((find (codes "FREQ") m ≡ some (codes "DAILY")) × IsOffHours m l.hour)
      ⊎ ((find (codes "FREQ") m ≡ some (codes "WEEKLY"))
          × (IsOffDays m l.weekday ⊎ IsOffHours m l.hour))
unfolding rule_active
rule_active-false m l f = elim (Option-cases (find (codes "FREQ") m)) [
  | inl n ↦ absurd (true≢false (rw (n, rule_active) at f))
  | inr (freq, g) ↦ (elim (Bool-cases (text_eq freq (codes "DAILY"))) [
    | inl d ↦ inl (
      subst (λ t. find (codes "FREQ") m ≡ some t) (text_eq_sound freq (codes "DAILY") d) g,
      hours_active-false m l.hour (rw (g, d, rule_active) at f),
    )
    | inr d ↦ (elim (Bool-cases (text_eq freq (codes "WEEKLY"))) [
      | inl w ↦ inr (
        subst (λ t. find (codes "FREQ") m ≡ some t) (text_eq_sound freq (codes "WEEKLY") w) g,
        weekly_active-false m l (rw (g, d, w, rule_active) at f),
      )
      | inr w ↦ absurd (true≢false (rw (g, d, w, rule_active) at f))
    ])
  ])
]

module _ (zone : Text → ℕ → Option Local) where
  -- A window that is found inactive has a known time zone and a daily or weekly rule, and its days,
  -- each a known name, or its hours, each a number or a range of numbers, leave the present out:
  -- what cannot be read counts as a blackout.
  pub window_active-false :
      (t : ℕ) (w : Window)
      → window_active zone t w ≡ false
      → (l : Local) × (zone w.tz t ≡ some l)
        × (((find (codes "FREQ") (parts [] (split_on b';' w.rrule)) ≡ some (codes "DAILY"))
              × IsOffHours (parts [] (split_on b';' w.rrule)) l.hour)
            ⊎ ((find (codes "FREQ") (parts [] (split_on b';' w.rrule)) ≡ some (codes "WEEKLY"))
                × (IsOffDays (parts [] (split_on b';' w.rrule)) l.weekday
                    ⊎ IsOffHours (parts [] (split_on b';' w.rrule)) l.hour)))
  unfolding window_active
  window_active-false t w f = elim (Option-cases (zone w.tz t)) [
    | inl n ↦ absurd (true≢false (rw (n, window_active) at f))
    | inr (l, g) ↦
        (l, g, rule_active-false (parts [] (split_on b';' w.rrule)) l (rw (g, window_active) at f))
  ]
