-- ===== src/PlatformCore/Leases.antt =====
-- services/platform-core/internal/leases/leases.go, `MemStore`: one intrusive task for a target at a
-- time. `Key`, a hash, is a parameter; `now` is the reading of the clock. Bucket is `KVStore`.
pub mod Exclusion
pub mod Bucket
pub mod Lock
pub mod Refined
use aegisbastion.Common.{
  ℕ, ◌+◌, ◌&&◌, Bool, true, false, not, List, [], ◌∷◌, Option, none, some, Text, text_eq, find, put,
  delete, if◌then◌else◌, ltb,
}

pub record MemStore : Type 0 where
  pub held : List (Text × Text)
  pub until : List (Text × ℕ)

abbrev pub new_mem_store : MemStore
new_mem_store = record { held = []; until = [] }

-- `m.held[k]`, empty where it has none.
unfoldable pub owner_at : MemStore → Text → Text
owner_at m k = elim (find k m.held) [ none ↦ [] | some o ↦ o ]

-- `expired`.
unfoldable pub expired : MemStore → ℕ → Text → Bool
expired m now k = elim (find k m.until) [ none ↦ false | some u ↦ ltb u now ]

-- Whether a live lease stands on a key.
unfoldable pub is_live : MemStore → ℕ → Text → Bool
unfolding expired
is_live m now k = elim (find k m.held) [ none ↦ false | some o ↦ not (expired m now k) ]

module _ (key : Text → Text) where
  -- `Acquire`.
  unfoldable pub acquire : MemStore → ℕ → Text → Text → ℕ → MemStore × Bool
  acquire m now target owner ttl =
      let k = key target in
      if is_live m now k
      then (m, false)
      else (record { held = put k owner m.held; until = put k (now + ttl) m.until }, true)

  -- `Release`.
  unfoldable pub release : MemStore → Text → Text → MemStore
  release m target owner =
      let k = key target in
      if text_eq (owner_at m k) owner
      then record { held = delete k m.held; until = delete k m.until }
      else m

  -- `Holder`.
  unfoldable pub holder : MemStore → ℕ → Text → Text
  holder m now target = let k = key target in if expired m now k then [] else owner_at m k
