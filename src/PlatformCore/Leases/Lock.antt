-- ===== src/PlatformCore/Leases/Lock.antt =====
-- leases.go, `KVStore`: the lock of each key, that the bucket stands for.
use aegisbastion.Common.{
  ℕ, ◌≡◌, ◌≢◌, Bool, true, false, not, List, [], ◌∷◌, Option, none, some, Text, text_eq, delete,
  find, if◌then◌else◌, In, All, ◌&&◌, ◌||◌,
}
use aegisbastion.PlatformCore.Leases.Bucket.{Kv, owner_of, acquire, may_release, release, holder}

-- What reaches the bucket in one step; the flag says whether its call works. In `lapses` the bucket
-- drops an entry whose time is over.
pub data Step : Type 0 where
  acquires : Bool → ℕ → Text → Text → ℕ → Step
  asks : Bool → Text → Step
  lapses : Text → Step

-- A release, with whether its get and its delete work and the steps of others between the two.
pub data Call : Type 0 where
  steps : Step → Call
  releases : Bool → Bool → Text → Text → List Step → Call

pub data Answer : Type 0 where
  taken : Option Bool → Answer
  owner_is : Option Text → Answer
  released : Bool → Answer
  lapsed : Answer

-- The owner's name is not empty and has no bar.
abbrev pub IsName : Text → Type 0
IsName owner = (owner ≢ []) × ((c : ℕ) → In c owner → c ≢ b'|')

abbrev pub IsNamedStep : Step → Type 0
IsNamedStep (acquires works now target owner ttl) = IsName owner
IsNamedStep (asks works target) = Unit {0}
IsNamedStep (lapses target) = Unit {0}

-- The lock of each key: the owner that has it, if one has.
abbrev pub Locks : Type 0
Locks = Text → Option Text

abbrev pub set : Locks → Text → Option Text → Locks
set locks k o j = if text_eq k j then o else locks j

abbrev pub is_free : Option Text → Bool
is_free none = true
is_free (some o) = false

abbrev pub is_owner : Option Text → Text → Bool
is_owner none owner = false
is_owner (some o) owner = text_eq o owner

abbrev pub owner_or_none : Option Text → Text
owner_or_none none = []
owner_or_none (some o) = o

module _ (key : Text → Text) where
  -- The key's entry does not lapse in the step.
  abbrev pub Keeps : Text → Step → Type 0
  Keeps k (acquires works now target owner ttl) = Unit {0}
  Keeps k (asks works target) = Unit {0}
  Keeps k (lapses target) = text_eq (key target) k ≡ false

  -- The names are names, and no entry lapses that is being released.
  abbrev pub IsCalm : Call → Type 0
  IsCalm (steps s) = IsNamedStep s
  IsCalm (releases gets deletes target owner between) =
      IsName owner × All IsNamedStep between × All (Keeps (key target)) between

  -- The locks: a free one is taken, only its owner or its lapse frees it, and what fails does nothing.
  unfoldable pub lock : Step → Locks → Locks × Answer
  lock (acquires works now target owner ttl) locks =
      let k = key target in
      if works
      then (
        set locks k (if is_free (locks k) then some owner else locks k),
        taken (some (is_free (locks k))),
      )
      else (locks, taken none)
  lock (asks works target) locks =
      (locks, owner_is (if works then some (owner_or_none (locks (key target))) else none))
  lock (lapses target) locks = (set locks (key target) none, lapsed)

  unfoldable pub lock_all : List Step → Locks → Locks × List Answer
  unfolding lock
  lock_all [] locks = (locks, [])
  lock_all (s ∷ ss) locks =
      let (locks', a) = lock s locks in
      let (locks'', said) = lock_all ss locks' in (locks'', a ∷ said)

  -- A release frees the lock where the owner had it before and has it still.
  unfoldable pub free : Bool → Text → Text → Locks → Locks
  free may target owner locks =
      let k = key target in set locks k (if may && is_owner (locks k) owner then none else locks k)

  unfoldable pub answers : List Call → Locks → List (List Answer)
  unfolding lock lock_all free
  answers [] locks = []
  answers (steps s ∷ calls) locks =
      let (locks', a) = lock s locks in (a ∷ []) ∷ answers calls locks'
  answers (releases gets deletes target owner between ∷ calls) locks =
      let (locks', said) = lock_all between locks in
      let had = is_owner (locks (key target)) owner in
      (released (gets && (deletes || not had)) ∷ said)
      ∷ answers calls (free (gets && deletes && had) target owner locks')

module _ (key : Text → Text) (decimal : ℕ → Text) where
  unfoldable pub step : Step → Kv → Kv × Answer
  step (acquires works now target owner ttl) kv =
      let (kv', got) = acquire key decimal works kv now target owner ttl in (kv', taken got)
  step (asks works target) kv = (kv, owner_is (holder key works kv target))
  step (lapses target) kv = (delete (key target) kv, lapsed)

  unfoldable pub step_all : List Step → Kv → Kv × List Answer
  unfolding step
  step_all [] kv = (kv, [])
  step_all (s ∷ ss) kv =
      let (kv', a) = step s kv in let (kv'', said) = step_all ss kv' in (kv'', a ∷ said)

  -- The answers of the bucket to a sequence of calls.
  unfoldable pub run : List Call → Kv → List (List Answer)
  unfolding step step_all
  run [] kv = []
  run (steps s ∷ calls) kv = let (kv', a) = step s kv in (a ∷ []) ∷ run calls kv'
  run (releases gets deletes target owner between ∷ calls) kv =
      let may = may_release key gets kv target owner in
      let (kv', said) = step_all between kv in
      let (kv'', fine) = release key may deletes kv' target in
      (released fine ∷ said) ∷ run calls kv''

-- What a value says of the lock.
abbrev pub read : Option Text → Option Text
read none = none
read (some v) = some (owner_of v)

abbrev pub Reads : Kv → Locks → Type 0
Reads kv locks = (k : Text) → read (find k kv) ≡ locks k
