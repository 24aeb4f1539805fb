-- ===== src/PlatformCore/Leases/Bucket.antt =====
-- services/platform-core/internal/leases/leases.go, `KVStore`: the leases in a bucket of NATS. The
-- bucket is a map; each of its calls is a step of its own, and may fail. `key`, a hash, and the decimal
-- form of a time are parameters.
use aegisbastion.Common.{
  ℕ, ◌+◌, Bool, true, false, List, [], ◌∷◌, ◌++◌, Option, none, some, Text, text_eq, is_empty, find,
  put, delete, if◌then◌else◌, ◌==◌, ◌||◌, not,
}

abbrev pub Kv : Type 0
Kv = List (Text × Text)

-- `ownerOf`: what stands before the first bar, or the whole.
unfoldable pub owner_of : Text → Text
owner_of [] = []
owner_of (c ∷ v) = if c == b'|' then [] else c ∷ owner_of v

module _ (key : Text → Text) (decimal : ℕ → Text) where
  -- `Acquire`: the create is refused where the key exists; none is another error.
  unfoldable pub acquire : Bool → Kv → ℕ → Text → Text → ℕ → Kv × Option Bool
  acquire works kv now target owner ttl =
      if not works then (kv, none) else (elim (find (key target) kv) [
        | none ↦ (put (key target) (owner ++ b'|' ∷ decimal (now + ttl)) kv, some true)
        | some v ↦ (kv, some false)
      ])

module _ (key : Text → Text) where
  -- `Release` up to its delete: whether the entry is the owner's, none where the get fails.
  unfoldable pub may_release : Bool → Kv → Text → Text → Option Bool
  unfolding owner_of
  may_release works kv target owner = if not works then none else (elim (find (key target) kv) [
    | none ↦ some false
    | some v ↦ some (not (is_empty v || not (text_eq (owner_of v) owner)))
  ])

  -- Its delete, of whatever stands there by then, and whether `Release` returns no error.
  unfoldable pub release : Option Bool → Bool → Kv → Text → Kv × Bool
  release none works kv target = (kv, false)
  release (some false) works kv target = (kv, true)
  release (some true) works kv target =
      if works then (delete (key target) kv, true) else (kv, false)

  -- `Holder`; none where the get fails.
  unfoldable pub holder : Bool → Kv → Text → Option Text
  unfolding owner_of
  holder works kv target =
      if not works
      then none
      else (elim (find (key target) kv) [ none ↦ some [] | some v ↦ some (owner_of v) ])
