-- ===== src/Gatekeeper/Token/Manifest.antt =====
-- token/manifest.go: the manifests in the object store. service.go: the sets of targets.
use aegisbastion.Common.{
  ℕ, ◌+◌, ◌-◌, ◌||◌, Bool, true, false, not, List, [], ◌∷◌, Option, none, some, Text, codes,
  text_eq, has_prefix, contains, trim_prefix, is_empty, any, length, find, put, if◌then◌else◌, ◌==◌,
  Result, ok, err, ◌>>=◌, ◌>>◌, reject_if,
}
use aegisbastion.Net.{Net}
use aegisbastion.Gatekeeper.Scopecanon.{must_canon}
use aegisbastion.Gatekeeper.Token.Types.{
  Codec, Error, manifest_failed, bad_uri, no_object, hash_mismatch,
}

-- `manifestObjectKey`: strings.CutPrefix of the scheme.
unfoldable pub manifest_object_key : Text → Option Text
manifest_object_key uri =
    let key = trim_prefix uri (codes "blob://") in
    if not (has_prefix uri (codes "blob://")) || is_empty key || contains key (codes "..")
    then none
    else some key

abbrev pub or_error {κ} : {A : Type κ} → Error → Option A → Result Error A
or_error e none = err e
or_error e (some a) = ok a

module _ (k : Codec) where
  -- `putManifest`, of the canonical form: the objects, and the hash.
  unfoldable pub put_manifest :
      Bool → Text → Option Text → List (Text × Text) → Result Error (List (Text × Text) × Text)
  put_manifest puts key manifest objects = do
    canon ← or_error manifest_failed manifest
    reject_if (not (k.is_json canon)) manifest_failed
    reject_if (not puts) manifest_failed
    ok (put key canon objects, k.digest canon)

  -- `fetchManifest`.
  unfoldable pub fetch_manifest : List (Text × Text) → Text → Text → Result Error Text
  unfolding manifest_object_key
  fetch_manifest objects uri sha = do
    key ← or_error bad_uri (manifest_object_key uri)
    raw ← or_error no_object (find key objects)
    reject_if (not (text_eq (k.digest raw) sha)) hash_mismatch
    ok raw

abbrev pub or_zero : Option ℕ → ℕ
or_zero none = 0
or_zero (some n) = n

-- `set[t]`.
unfoldable pub count_of : Text → List (Text × ℕ) → ℕ
count_of t set = or_zero (find t set)

module _ (net : Net) where
  -- The first loop of `sameTargetSet`. A target without a canonical form counts as the empty text.
  unfoldable pub tally : List Text → List (Text × ℕ) → List (Text × ℕ)
  tally [] set = set
  tally (t ∷ ts) set = let c = must_canon net t in tally ts (put c (count_of c set + 1) set)

  -- The second loop: false where a count falls under 0.
  unfoldable pub use_up : List Text → List (Text × ℕ) → Bool
  use_up [] set = true
  use_up (t ∷ ts) set =
      let c = must_canon net t in
      let rest = use_up ts (put c (count_of c set - 1) set) in
      if count_of c set == 0 then false else rest

  -- `sameTargetSet`.
  unfoldable pub same_target_set : List Text → List Text → Bool
  unfolding tally use_up
  same_target_set a b = if not (length a == length b) then false else use_up b (tally a [])

  -- `inTargetSet`.
  unfoldable pub in_target_set : List Text → Text → Bool
  in_target_set set target = any (λ t. text_eq (must_canon net t) (must_canon net target)) set
