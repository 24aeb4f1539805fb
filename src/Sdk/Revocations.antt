-- ===== src/Sdk/Revocations.antt =====
-- sdks/go/pep/revocation.go: the cache of revocations of an agent. A key is written as one text, the
-- number of its scope before the key itself. The lock makes a call one step.
pub mod InForce
use aegisbastion.Common.{
  ℕ, Bool, true, false, not, List, [], ◌∷◌, ◌++◌, Option, none, some, Text, codes, text_eq,
  is_empty, find, put, if◌then◌else◌, ltb, ◌&&◌, ◌||◌,
}
use aegisbastion.Gatekeeper.Revocation.{Scope, unspecified, global, roe, target, capability}
use aegisbastion.Sdk.Types.{Matcher, or_raw}

-- gatekeeper.v1 Revocation.
pub record Revocation : Type 0 where
  pub revocation_id : Text
  pub scope : Scope
  pub key : Text
  pub reason : Text
  pub expires_at : Option ℕ

-- `revocationEntry`; none is until lifted.
pub record Entry : Type 0 where
  pub id : Text
  pub expires_at : Option ℕ
  pub reason : Text

abbrev pub Cache : Type 0
Cache = List (Text × Entry)

abbrev pub number : Scope → ℕ
number unspecified = 0
number global = 1
number roe = 2
number target = 3
number capability = 4

abbrev pub is_unspecified : Scope → Bool
is_unspecified unspecified = true
is_unspecified _ = false

abbrev pub is_lapsed : Option ℕ → ℕ → Bool
is_lapsed none now = false
is_lapsed (some t) now = not (ltb now t)

-- The first reason of two.
abbrev pub or_else : Option Text → Option Text → Option Text
or_else none o = o
or_else (some r) o = some r

abbrev pub label : Text → Option Text → Option Text
label prefix none = none
label prefix (some r) = some (prefix ++ r)

abbrev pub unless_empty : Text → Option Text → Option Text
unless_empty key o = if is_empty key then none else o

-- The reason of an entry that holds.
unfoldable pub hit : Cache → ℕ → Text → Option Text
hit entries now k = elim (find k entries) [
  | none ↦ none
  | some e ↦
      if is_lapsed e.expires_at now
      then none
      else some (if is_empty e.reason then codes "revocation " ++ e.id else e.reason)
]

module _ (matcher : Matcher) where
  -- `canonicalRevKey`.
  unfoldable pub canonical_rev_key : Scope → Text → Text
  canonical_rev_key target key = number target ∷ or_raw key (matcher.canonicalize key)
  canonical_rev_key scope key = number scope ∷ key

  -- `Apply`, which `ApplyEvent` calls for an event that has a revocation.
  unfoldable pub apply : Revocation → ℕ → Cache → Cache
  unfolding canonical_rev_key
  apply rev now entries =
      if is_unspecified rev.scope || is_lapsed rev.expires_at now
      then entries
      else put (canonical_rev_key rev.scope rev.key)
          (record { id = rev.revocation_id; expires_at = rev.expires_at; reason = rev.reason })
          entries

  -- `Replace`, the loop and its start.
  unfoldable pub apply_all : List Revocation → ℕ → Cache → Cache
  unfolding apply
  apply_all [] now entries = entries
  apply_all (rev ∷ revs) now entries = apply_all revs now (apply rev now entries)

  unfoldable pub replace : List Revocation → ℕ → Cache
  unfolding apply_all
  replace revs now = apply_all revs now []

  -- `Revoked`: the reason, if there is one.
  unfoldable pub is_revoked : Cache → ℕ → Text → Text → Text → Option Text
  unfolding hit canonical_rev_key
  is_revoked entries now roe_id cap_id subject =
      or_else (label (codes "global revocation: ") (hit entries now (canonical_rev_key global [])))
        (or_else
          (unless_empty roe_id
            (label (codes "RoE revocation: ") (hit entries now (canonical_rev_key roe roe_id))))
          (or_else
            (unless_empty cap_id (
              label (codes "capability revocation: ")
                (hit entries now (canonical_rev_key capability cap_id))))
            (unless_empty subject (
              label (codes "target revocation: ")
                (hit entries now (canonical_rev_key target subject))))))

  -- `Halted`.
  unfoldable pub halted : Cache → ℕ → Option Text
  unfolding is_revoked
  halted entries now = is_revoked entries now [] [] []
