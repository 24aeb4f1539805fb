-- ===== src/Gatekeeper/Audit/Chain.antt =====
-- audit.go: the chain that a partition is, and the head that the next event links to.
use aegisbastion.Common.{
  ℕ, ◌+◌, ◌<◌, suc, ◌≡◌, refl, false, List, [], ◌∷◌, ◌++◌, some, Text, length, if◌then◌else◌, ltb,
  arith,
}
use aegisbastion.Gatekeeper.Audit.Types.{Row, Outside, hash}
use aegisbastion.Gatekeeper.Audit.Recorder.{newest, of_org, head}
use aegisbastion.Gatekeeper.Audit.Verifier.{load}

module _ {J : Type 0} where
  -- The hash that follows a chain.
  abbrev pub chain_end : Text → List (Row J) → Text
  chain_end p [] = p
  chain_end p (r ∷ rs) = chain_end r.event_hash rs

module _ {J : Type 0} (o : Outside J) where
  -- Rows numbered from `n`, each linked to the one before, the first to `p`, each of which still has
  -- the hash that it is stored with.
  abbrev pub IsChain : ℕ → Text → List (Row J) → Type 0
  IsChain n p [] = Unit {0}
  IsChain n p (r ∷ rs) =
      (r.seq ≡ n)
      × (r.seq < 9223372036854775808)
      × (r.prev_hash ≡ p)
      × (hash o (load o r) ≡ some r.event_hash)
      × IsChain (suc n) r.event_hash rs

  -- Every organization's rows are a chain from 1 and the empty hash.
  abbrev pub IsSound : List (Row J) → Type 0
  IsSound table = (org : Text) → IsChain 1 [] (of_org org table)

  pub IsChain-append :
      (n : ℕ) (p : Text) (rs : List (Row J)) (r : Row J)
      → IsChain n p rs
      → r.seq ≡ n + length rs
      → r.seq < 9223372036854775808
      → r.prev_hash ≡ chain_end p rs
      → hash o (load o r) ≡ some r.event_hash
      → IsChain n p (rs ++ r ∷ [])
  IsChain-append n p [] r c s b l h = (omega arith, b, l, h, tt)
  IsChain-append n p (x ∷ rs) r c s b l h =
      (c.0, c.1, c.2, c.3, IsChain-append (suc n) x.event_hash rs r c.4 (omega arith) b l h)

  -- The row with the largest number is the chain's last one.
  newest-IsChain :
      (n : ℕ) (p : Text) (r : Row J) (rs : List (Row J))
      → IsChain n p (r ∷ rs)
      → (b : Row J) × (newest (r ∷ rs) ≡ some b)
        × (b.seq ≡ n + length rs)
        × (b.seq < 9223372036854775808)
        × (b.event_hash ≡ chain_end p (r ∷ rs))
  unfolding newest
  newest-IsChain n p r [] c = (r, refl, omega (arith, c.0), c.1, refl)
  newest-IsChain n p r (x ∷ rs) c =
      let (b, e, s, l, h) = newest-IsChain (suc n) r.event_hash x rs c.4 in
      (b, rw e (later (ground (arith, c.0, s))), omega arith, l, h)
    where
      later :
          {b : Row J}
          → ltb b.seq r.seq ≡ false
          → (if ltb b.seq r.seq then some r else some b) ≡ some b
      later f = rw f refl

  -- What the recorder takes from the table is where its chain ends.
  pub head-IsChain :
      (rs : List (Row J))
      → IsChain 1 [] rs
      → ((head (newest rs)).0 ≡ suc (length rs)) × ((head (newest rs)).1 ≡ chain_end [] rs)
  unfolding head
  head-IsChain [] c = (unfold newest in refl, unfold newest in refl)
  head-IsChain (r ∷ rs) c =
      let (b, e, s, l, h) = newest-IsChain 1 [] r rs c in (rw e (omega arith), rw e h)
