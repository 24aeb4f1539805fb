-- ===== src/Common/Results.antt =====
-- A value with an `error` beside it, as Go returns them: an outcome or an error, never both.
use mathlib.Core.Bool.{Bool, true, false}
use mathlib.Core.Path.{◌≡◌, refl}
use mathlib.Core.Logic.{◌⊎◌, inl, inr}

pub data Result {κ} (Err : Type 0) (Val : Type κ) : Type κ where
  err : Err → Result Err Val
  ok : Val → Result Err Val

-- `if fails { return failure }`.
abbrev pub reject_if : {Err : Type 0} → Bool → Err → Result Err (Unit {0})
reject_if false failure = ok tt
reject_if true failure = err failure

infixl 5 ◌>>=◌ ◌>>◌
-- `if err != nil { return err }` before what follows.
abbrev pub ◌>>=◌ {κ ι} :
    {Err : Type 0} {Val : Type κ} {Out : Type ι}
    → Result Err Val
    → (Val → Result Err Out)
    → Result Err Out
err failure >>= next = err failure
ok value >>= next = next value

abbrev pub ◌>>◌ {ι} :
    {Err : Type 0} {Out : Type ι} → Result Err (Unit {0}) → Result Err Out → Result Err Out
err failure >> next = err failure
ok done >> next = next

module _ {κ} {Err : Type 0} {Val : Type κ} where
  pub Result-cases : (r : Result Err Val) → ((e : Err) × (r ≡ err e)) ⊎ ((v : Val) × (r ≡ ok v))
  Result-cases (err e) = inl (e, refl)
  Result-cases (ok v) = inr (v, refl)

  pub err≢ok : {e : Err} {v : Val} → err e ≡ ok v → ⊥
  err≢ok h = cc

  pub ok-inj : {v w : Val} {r : Result Err Val} → r ≡ ok v → r ≡ ok w → v ≡ w
  ok-inj h k = cc

  -- What a chain of calls has passed when it returns a value.
  pub bind-ok {ι} :
      {Out : Type ι} {out : Out} (r : Result Err Val) (next : Val → Result Err Out)
      → (r >>= next) ≡ ok out
      → (v : Val) × (r ≡ ok v) × (next v ≡ ok out)
  bind-ok (err e) next h = cc
  bind-ok (ok v) next h = (v, refl, h)

  pub reject_if-ok :
      {v : Val} (fails : Bool) (failure : Err) (next : Result Err Val)
      → (reject_if fails failure >> next) ≡ ok v
      → (fails ≡ false) × (next ≡ ok v)
  reject_if-ok false failure next h = (refl, h)
  reject_if-ok true failure next h = absurd (err≢ok h)
