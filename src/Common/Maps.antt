-- ===== src/Common/Maps.antt =====
-- A Go map with text keys, as an association list whose iteration order is the list's.
use mathlib.Core.Path.{◌≡◌, refl}
use mathlib.Core.Option.{Option, none, some}
use mathlib.Core.List.{List, [], ◌∷◌}
use native.Mathlib.Omega.{arith}
use aegisbastion.Common.Tests.{if◌then◌else◌}
use aegisbastion.Common.Texts.{Text, text_eq, text_eq_iff}

module _ {ℓ} {V : Type ℓ} where
  -- `m[k]`.
  unfoldable pub find : Text → List (Text × V) → Option V
  find k [] = none
  find k ((j, v) ∷ m) = if text_eq j k then some v else find k m

  -- `m[k] = v`.
  unfoldable pub put : Text → V → List (Text × V) → List (Text × V)
  put k v [] = (k, v) ∷ []
  put k v ((j, w) ∷ m) = if text_eq j k then (k, v) ∷ m else (j, w) ∷ put k v m

  -- `delete(m, k)`.
  unfoldable pub delete : Text → List (Text × V) → List (Text × V)
  delete k [] = []
  delete k ((j, w) ∷ m) = if text_eq j k then delete k m else (j, w) ∷ delete k m

  pub find-put :
      (k j : Text) (v : V) (m : List (Text × V))
      → find j (put k v m) ≡ (if text_eq k j then some v else find j m)
  unfolding find put
  find-put k j v [] = refl
  find-put k j v ((i, w) ∷ m) =
      ground (arith, text_eq_iff k j, text_eq_iff i k, text_eq_iff i j, find-put k j v m)

  pub find-delete :
      (k j : Text) (m : List (Text × V))
      → find j (delete k m) ≡ (if text_eq k j then none else find j m)
  unfolding find delete
  find-delete k j [] = ground arith
  find-delete k j ((i, w) ∷ m) =
      ground (arith, text_eq_iff k j, text_eq_iff i k, text_eq_iff i j, find-delete k j m)
