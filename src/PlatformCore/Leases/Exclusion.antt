-- ===== src/PlatformCore/Leases/Exclusion.antt =====
-- leases.go: a lease excludes every other owner until it lapses or its owner lets it go.
use aegisbastion.Common.{
  ℕ, ◌+◌, ◌≤◌, ◌≡◌, ◌≢◌, inl, inr, true, false, List, [], ◌∷◌, some, Text, text_eq, text_eq_refl,
  text_eq_iff, text_eq_sound, All, find, find-put, find-delete, arith, Bool-cases, sym, subst,
}
use aegisbastion.PlatformCore.Leases.{
  MemStore, owner_at, expired, is_live, acquire, release, holder,
}

-- What the others do to the leases: they acquire, and they release their own.
pub data Action : Type 0 where
  acquires : Text → Text → ℕ → Action
  releases : Text → Text → Action

abbrev pub actor : Action → Text
actor (acquires target owner ttl) = owner
actor (releases target owner) = owner

module _ (key : Text → Text) where
  unfoldable pub act : ℕ → MemStore → Action → MemStore
  act now m (acquires target owner ttl) = (acquire key m now target owner ttl).0
  act now m (releases target owner) = release key m target owner

  -- Actions at the times at which they happen.
  unfoldable pub act_all : MemStore → List (ℕ × Action) → MemStore
  unfolding act
  act_all m [] = m
  act_all m ((now, a) ∷ rest) = act_all (act now m a) rest

  -- The owner has the lease of a target, until a time.
  pub record IsHeldBy (m : MemStore) (target owner : Text) (u : ℕ) : Type 0 where
    pub owner_is : find (key target) m.held ≡ some owner
    pub until_is : find (key target) m.until ≡ some u

  -- An acquisition that succeeds gives the lease.
  acquire-IsHeldBy :
      (m : MemStore) (now : ℕ) (target owner : Text) (ttl : ℕ)
      → (acquire key m now target owner ttl).1 ≡ true
      → IsHeldBy (acquire key m now target owner ttl).0 target owner (now + ttl)
  unfolding acquire
  acquire-IsHeldBy m now target owner ttl h = record {
    owner_is =
        ground (arith, find-put (key target) (key target) owner m.held, text_eq_refl (key target));
    until_is =
        ground (
          arith,
          find-put (key target) (key target) (now + ttl) m.until,
          text_eq_refl (key target),
        );
  }

  held-live :
      (m : MemStore) (now : ℕ) (target owner : Text) (u : ℕ)
      → IsHeldBy m target owner u
      → now ≤ u
      → is_live m now (key target) ≡ true
  unfolding is_live expired
  held-live m now target owner u h le = ground (arith, h.owner_is, h.until_is)

  not_acquired :
      (m : MemStore) (now : ℕ) (x o : Text) (ttl : ℕ)
      → is_live m now (key x) ≡ true
      → (acquire key m now x o ttl).1 ≡ false
  unfolding acquire
  not_acquired m now x o ttl live = rw (live, acquire)

  refused :
      (m : MemStore) (now : ℕ) (x o : Text) (ttl : ℕ) (target owner : Text) (u : ℕ)
      → IsHeldBy m target owner u
      → now ≤ u
      → text_eq (key x) (key target) ≡ true
      → act now m (acquires x o ttl) ≡ m
  unfolding act acquire
  refused m now x o ttl target owner u h le y = rw (live, act, acquire)
    where
      live : is_live m now (key x) ≡ true
      live =
          subst (λ k. is_live m now k ≡ true) (sym (text_eq_sound (key x) (key target) y))
            (held-live m now target owner u h le)

  elsewhere :
      (m : MemStore) (now : ℕ) (x o : Text) (ttl : ℕ) (target owner : Text) (u : ℕ)
      → IsHeldBy m target owner u
      → text_eq (key x) (key target) ≡ false
      → IsHeldBy (act now m (acquires x o ttl)) target owner u
  unfolding act acquire
  elsewhere m now x o ttl target owner u h n = record {
    owner_is = ground (arith, find-put (key x) (key target) o m.held, h.owner_is);
    until_is = ground (arith, find-put (key x) (key target) (now + ttl) m.until, h.until_is);
  }

  kept :
      (m : MemStore) (x o target owner : Text) (u : ℕ)
      → IsHeldBy m target owner u
      → o ≢ owner
      → text_eq (key x) (key target) ≡ true
      → act 0 m (releases x o) ≡ m
  unfolding act release owner_at
  kept m x o target owner u h ne y =
      rw (text_eq_sound (key x) (key target) y, act, release) (rw (owner_at, h.owner_is, other))
    where
      other : text_eq owner o ≡ false
      other = ground (arith, text_eq_iff owner o)

  deleted :
      (m : MemStore) (x o target owner : Text) (u : ℕ)
      → IsHeldBy m target owner u
      → text_eq (key x) (key target) ≡ false
      → IsHeldBy (act 0 m (releases x o)) target owner u
  unfolding act release
  deleted m x o target owner u h n = record {
    owner_is = ground (arith, find-delete (key x) (key target) m.held, h.owner_is);
    until_is = ground (arith, find-delete (key x) (key target) m.until, h.until_is);
  }

  -- No action of another owner before that time takes the lease away.
  act-IsHeldBy :
      (m : MemStore) (now : ℕ) (a : Action) (target owner : Text) (u : ℕ)
      → IsHeldBy m target owner u
      → now ≤ u
      → actor a ≢ owner
      → IsHeldBy (act now m a) target owner u
  unfolding act
  act-IsHeldBy m now (acquires x o ttl) target owner u h le ne =
      elim (Bool-cases (text_eq (key x) (key target))) [
        | inl y ↦
            subst (λ n. IsHeldBy n target owner u)
              (sym (refused m now x o ttl target owner u h le y)) h
        | inr n ↦ elsewhere m now x o ttl target owner u h n
      ]
  act-IsHeldBy m now (releases x o) target owner u h le ne =
      elim (Bool-cases (text_eq (key x) (key target))) [
        | inl y ↦ subst (λ n. IsHeldBy n target owner u) (sym (kept m x o target owner u h ne y)) h
        | inr n ↦ deleted m x o target owner u h n
      ]

  act_all-IsHeldBy :
      (m : MemStore) (rest : List (ℕ × Action)) (target owner : Text) (u : ℕ)
      → IsHeldBy m target owner u
      → All (λ e. (e.0 ≤ u) × (actor e.1 ≢ owner)) rest
      → IsHeldBy (act_all m rest) target owner u
  unfolding act_all
  act_all-IsHeldBy m [] target owner u h others = h
  act_all-IsHeldBy m ((now, a) ∷ rest) target owner u h (o, others) =
      act_all-IsHeldBy (act now m a) rest target owner u
        (act-IsHeldBy m now a target owner u h o.0 o.1) others

  holder-held :
      (m : MemStore) (later : ℕ) (target owner : Text) (u : ℕ)
      → IsHeldBy m target owner u
      → later ≤ u
      → holder key m later target ≡ owner
  unfolding holder owner_at expired
  holder-held m later target owner u h le =
      rw (h.until_is, h.owner_is, holder, owner_at, expired) (ground arith)

  -- A lease that is acquired names its owner until its time to live is over, whatever other owners
  -- try, and no acquisition of the target succeeds in that time.
  pub acquire-exclusive :
      (m : MemStore) (now : ℕ) (target owner : Text) (ttl : ℕ) (rest : List (ℕ × Action))
      (later : ℕ)
      → (acquire key m now target owner ttl).1 ≡ true
      → All (λ e. (e.0 ≤ now + ttl) × (actor e.1 ≢ owner)) rest
      → later ≤ now + ttl
      → (holder key (act_all (acquire key m now target owner ttl).0 rest) later target ≡ owner)
        × ((other : Text) (ttl' : ℕ)
            → (acquire key
                (act_all (acquire key m now target owner ttl).0 rest)
                later
                target
                other
                ttl').1
              ≡ false)
  acquire-exclusive m now target owner ttl rest later h others le =
      let m' = act_all (acquire key m now target owner ttl).0 rest in
      let held =
        act_all-IsHeldBy (acquire key m now target owner ttl).0 rest target owner (now + ttl)
          (acquire-IsHeldBy m now target owner ttl h) others in
      (
        holder-held m' later target owner (now + ttl) held le,
        λ other ttl'.
            not_acquired m' later target other ttl'
              (held-live m' later target owner (now + ttl) held le),
      )
