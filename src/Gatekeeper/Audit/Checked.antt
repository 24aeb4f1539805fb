-- ===== src/Gatekeeper/Audit/Checked.antt =====
-- audit.go: on a chain that was recorded, `VerifyRange` finds the numbers past its end and no other.
use aegisbastion.Common.{
  ◌||◌, ℕ, ◌+◌, ◌-◌, ◌<◌, ◌≤◌, suc, zero, ◌≡◌, refl, sym, ap, ◌∙◌, false, ◌⊎◌, inl, inr, List, [],
  ◌∷◌, none, some, Text, text_eq_refl, filter, length, take, ltb, leb, arith, Bool-cases, is_empty,
}
use aegisbastion.Gatekeeper.Audit.Types.{Row, Outside, hash}
use aegisbastion.Gatekeeper.Audit.Recorder.{of_org}
use aegisbastion.Gatekeeper.Audit.Verifier.{
  load, by_seq, check_link, verify_from, verify_range, in_range,
}
use aegisbastion.Gatekeeper.Audit.Chain.{IsChain, IsSound, chain_end}

-- The numbers from `k` on.
abbrev pub numbers : ℕ → ℕ → List ℕ
numbers k zero = []
numbers k (suc n) = k ∷ numbers (suc k) n

module _ {J : Type 0} where
  -- The rows of the query are all that matter.
  by_seq-in_range :
      (from to q : ℕ) (rs : List (Row J))
      → from ≤ q
      → q ≤ to
      → by_seq q (in_range from to rs) ≡ by_seq q rs
  unfolding by_seq filter
  by_seq-in_range from to q [] a b = refl
  by_seq-in_range from to q (r ∷ rs) a b = ground (arith, by_seq-in_range from to q rs a b)

module _ {J : Type 0} (o : Outside J) where
  by_seq-below :
      (n q : ℕ) (p : Text) (rs : List (Row J)) → IsChain o n p rs → q < n → by_seq q rs ≡ none
  unfolding by_seq
  by_seq-below n q p [] c l = refl
  by_seq-below n q p (r ∷ rs) c l =
      ground (arith, c.0, by_seq-below (suc n) q r.event_hash rs c.4 (omega arith))

  by_seq-past :
      (n q : ℕ) (p : Text) (rs : List (Row J))
      → IsChain o n p rs
      → n + length rs ≤ q
      → by_seq q rs ≡ none
  unfolding by_seq
  by_seq-past n q p [] c l = refl
  by_seq-past n q p (r ∷ rs) c l =
      ground (arith, c.0, by_seq-past (suc n) q r.event_hash rs c.4 (omega arith))

  -- The row with a number of the chain, and what it links.
  by_seq-at :
      (n k : ℕ) (p : Text) (rs : List (Row J))
      → IsChain o n p rs
      → k < length rs
      → (r : Row J) × (by_seq (n + k) rs ≡ some r)
        × (r.prev_hash ≡ chain_end p (take k rs))
        × (r.event_hash ≡ chain_end p (take (suc k) rs))
        × (hash o (load o r) ≡ some r.event_hash)
  unfolding by_seq
  by_seq-at n k p [] c l = absurd (omega arith)
  by_seq-at n zero p (r ∷ rs) c l = (
    r,
    ground (arith, c.0, by_seq-below (suc n) (n + 0) r.event_hash rs c.4 (omega arith)),
    c.2,
    refl,
    c.3,
  )
  by_seq-at n (suc k) p (r ∷ rs) c l =
      let (b, e, x, y, h) = by_seq-at (suc n) k r.event_hash rs c.4 (omega arith) in
      let at : by_seq (n + suc k) rs ≡ some b = ap (λ q. by_seq q rs) (omega arith) ∙ e in
      (b, rw at refl, x, y, h)

  check_link-none :
      (from : ℕ) (prev : Text) (seq : ℕ) (r : Row J)
      → hash o (load o r) ≡ some r.event_hash
      → (seq ≡ from) ⊎ (prev ≡ r.prev_hash)
      → check_link o from prev seq (some r) ≡ []
  unfolding check_link
  check_link-none from prev seq r h (inl e) = rw h (ground (arith, text_eq_refl r.event_hash))
  check_link-none from prev seq r h (inr e) =
      rw (h, e) (ground (arith, text_eq_refl r.event_hash, text_eq_refl r.prev_hash))

  abbrev beyond : ℕ → ℕ → ℕ → List ℕ
  beyond end k n = filter (λ q. ltb end q) (numbers k n)

  -- Nothing is left of a chain past its end.
  verify_from-beyond :
      (rs : List (Row J)) (from to : ℕ) (prev : Text) (k n : ℕ)
      → IsChain o 1 [] rs
      → from ≤ suc k
      → suc k + n ≡ suc to
      → ((suc k ≡ from) ⊎ (prev ≡ chain_end [] (take k rs))) ⊎ (length rs ≤ k)
      → verify_from o (in_range from to rs) from prev (suc k) n
        ≡ (is_empty (beyond (length rs) (suc k) n), beyond (length rs) (suc k) n)
  unfolding verify_from filter check_link
  verify_from-beyond rs from to prev k zero c a b inv = refl
  verify_from-beyond rs from to prev k (suc n) c a b inv =
      elim (Bool-cases (ltb (length rs) (suc k))) [
        | inl past ↦
            let e =
              by_seq-in_range from to (suc k) rs a (omega (arith, b))
              ∙ by_seq-past 1 (suc k) [] rs c (ground arith) in
            let ih =
              verify_from-beyond rs from to [] (suc k) n c (omega (arith, a)) (omega (arith, b))
                (inr (ground arith)) in
            rw (e, past, ih) refl
        | inr inside ↦
            let (r, e, x, y, h) = by_seq-at 1 k [] rs c (ground arith) in
            let f =
              by_seq-in_range from to (suc k) rs a (omega (arith, b))
              ∙ ap (λ q. by_seq q rs) (omega arith)
              ∙ e in
            let ih =
              verify_from-beyond rs from to r.event_hash (suc k) n c (omega (arith, a))
                (omega (arith, b)) (inl (inr y)) in
            rw (f, inside, check_link-none from prev (suc k) r h (linked inside r x inv), ih) refl
      ]
    where
      linked :
          ltb (length rs) (suc k) ≡ false
          → (r : Row J) → r.prev_hash ≡ chain_end [] (take k rs)
          → ((suc k ≡ from) ⊎ (prev ≡ chain_end [] (take k rs))) ⊎ (length rs ≤ k)
          → (suc k ≡ from) ⊎ (prev ≡ r.prev_hash)
      linked f r x (inl (inl e)) = inl e
      linked f r x (inl (inr e)) = inr (e ∙ sym x)
      linked f r x (inr l) = absurd (ground arith)

  -- On a chained table, `VerifyRange` ends for every range from 1 or more that a bigint can
  -- hold. It lists as gaps the numbers of the range past the end of the organization's
  -- rows and no other, and says that the range is valid where there is none.
  pub verify_range-recorded :
      (org : Text) (from to : ℕ) (table : List (Row J))
      → IsSound o table
      → 1 ≤ from
      → from < 9223372036854775808
      → to < 9223372036854775808
      → verify_range o org from to table
        ≡ some (
          is_empty (filter (λ q. ltb (length (of_org org table)) q) (numbers from (suc to - from))),
          filter (λ q. ltb (length (of_org org table)) q) (numbers from (suc to - from)),
        )
  unfolding verify_range filter
  verify_range-recorded org zero to table s a f b = absurd (omega arith)
  verify_range-recorded org (suc k) to table s a f b = elim (Bool-cases (leb (suc k) to)) [
    | inl y ↦
        rw
          (
            differ,
            verify_from-beyond (of_org org table) (suc k) to [] k (suc to - suc k) (s org)
                (omega arith) (ground arith) (inl (inl refl)),
          )
          refl
    | inr n ↦ rw (differ, the_rest n) refl
  ]
    where
      differ : (leb 9223372036854775808 (suc k) || leb 9223372036854775808 to) ≡ false
      differ = ground arith

      the_rest : leb (suc k) to ≡ false → suc to - suc k ≡ zero
      the_rest n = ground arith
