-- ===== src/Scenarios/Leases.antt =====
-- Two owners and one target, over the bucket.
use aegisbastion.Common.{
  ℕ, ◌≡◌, refl, Bool, true, false, List, [], ◌∷◌, Option, none, some, Text, codes,
}
use aegisbastion.PlatformCore.Leases.Lock.{
  Call, Answer, acquires, asks, lapses, steps, releases, taken, owner_is, released, lapsed, answers,
}

-- The second owner tries between the get and the delete of the first one's release.
abbrev calls : List Call
calls =
    steps (acquires true 0 (codes "t") (codes "a") 9)
    ∷ releases true true (codes "t") (codes "b") []
    ∷ releases true true (codes "t") (codes "a") (acquires true 1 (codes "t") (codes "b") 9 ∷ [])
    ∷ steps (acquires false 2 (codes "t") (codes "b") 9)
    ∷ steps (acquires true 3 (codes "t") (codes "b") 9)
    ∷ steps (asks true (codes "t"))
    ∷ steps (lapses (codes "t"))
    ∷ []

abbrev digits : ℕ → Text
digits n = n ∷ []

abbrev expected : List (List Answer)
expected =
    (taken (some true) ∷ [])
    ∷ (released true ∷ [])
    ∷ (released true ∷ taken (some false) ∷ [])
    ∷ (taken none ∷ [])
    ∷ (taken (some true) ∷ [])
    ∷ (owner_is (some (codes "b")) ∷ [])
    ∷ (lapsed ∷ [])
    ∷ []

calls_answered : answers (λ t. t) calls (λ k. none) ≡ expected
unfolding answers aegisbastion.Common.text_eq
calls_answered = refl
