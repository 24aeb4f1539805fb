-- ===== src/Gatekeeper/Revocation/Active.antt =====
-- revocation.go: a revocation that is issued is in force until it expires.
use aegisbastion.Common.{ℕ, ◌≤◌, ◌<◌, ◌≡◌, ◌⊎◌, false, [], ◌∷◌, ◌++◌, Option, some, Text}
use aegisbastion.Gatekeeper.Revocation.{Works, issued_effects, Row, State, expiry, remember}

-- What `Issue` has done when it returns a row, as it stands in the code.
record IsIssued (works : Works) (now : ℕ) (id scope key : Text) (expires_at : Option ℕ)
    (s s' : State) (r : Row) : Type 0 where
  id_is : r.revocation_id ≡ id
  scope_is : r.scope ≡ scope
  key_is : r.scope_value ≡ key
  not_lifted : r.lifted ≡ false
  rows_are : s'.rows ≡ s.rows ++ r ∷ []
  expiries_are : s'.expiries ≡ remember id (expiry expires_at now) s.expiries
  effects_are : s'.effects ≡ s.effects ++ issued_effects works r

-- The time has not come at which a revocation expires; a time that was past when it was issued is
-- none.
abbrev pub IsOpen : Option ℕ → ℕ → ℕ → Type 0
IsOpen expires_at now later = (t : ℕ) → expires_at ≡ some t → (t ≤ now) ⊎ (later < t)
