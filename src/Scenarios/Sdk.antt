-- ===== src/Scenarios/Sdk.antt =====
-- A guard, its cache and a few targets.
use aegisbastion.Common.{
  All, ℕ, ◌≡◌, refl, Bool, true, false, List, [], ◌∷◌, Option, none, some, Text, codes, In, inl,
  inr, arith, Result, ok, err,
}
use aegisbastion.Gatekeeper.Revocation.{Scope}
use aegisbastion.Sdk.Types.{Claims, Manifest, Matcher, not_in_manifest, revoked}
use aegisbastion.Sdk.Revocations.{Revocation, Cache, apply, is_revoked, replace}
use aegisbastion.Sdk.Revocations.InForce.{apply_each}
use aegisbastion.Sdk.Guard.{
  Guard, Turn, first_capability, new_guard, authorize_target, targets_touched_metric,
}
use aegisbastion.Sdk.Guard.Honest.{
  Call, authorizes, updates, applies, replaces, IsHonest, IsTaken, KeepsTarget, run, run-IsHonest,
}
use aegisbastion.Sdk.Guard.Halts.{apply-halts, authorize_target-allowed}

-- Each text but the empty one is its own canonical form, and no scope permits any.
abbrev plain : Matcher
plain = record {
  canonicalize = (λ t. elim t [ [] ↦ none | c ∷ cs ↦ some (c ∷ cs) ]);
  evaluate = (λ s t. record { allowed = false; excluded = false });
}

abbrev claims : Claims
claims = record {
  id = codes "tok";
  task_id = codes "t1";
  roe_id = codes "r1";
  capabilities = codes "scan" ∷ codes "probe" ∷ [];
  scope_bound = false;
  rate_caps = some (record { max_rps = 2; max_concurrent = 1 });
  not_before = 0;
  expires_at = 100;
}

abbrev manifest : Manifest
manifest = record {
  sha256_hex = codes "aa";
  exact_targets = codes "h1" ∷ codes "h2" ∷ [];
  scope_manifest = none;
}

abbrev notes : List (Text × Text)
notes = (codes "probe_type", codes "syn") ∷ []

abbrev guard : Guard
guard = record {
  claims = claims;
  manifest = manifest;
  rps = some 2;
  touched = [];
  touched_set = [];
  extra = notes;
  effects = [];
}

abbrev turn : Turn
turn = record { delay = some 0; ends = false; emits = true }

abbrev capability_off : Revocation
capability_off = record {
  revocation_id = codes "v1";
  scope = Scope.capability;
  key = codes "scan";
  reason = codes "stop";
  expires_at = some 50;
}

abbrev target_off : Revocation
target_off = record {
  revocation_id = codes "v2";
  scope = Scope.target;
  key = codes "h2";
  reason = [];
  expires_at = none;
}

abbrev calls : List Call
calls =
    authorizes turn 1 (codes "h1")
    ∷ authorizes turn 2 (codes "h3")
    ∷ applies target_off 3
    ∷ authorizes turn 4 (codes "h2")
    ∷ replaces [] 5
    ∷ authorizes turn 6 (codes "h2")
    ∷ authorizes turn 7 (codes "h1")
    ∷ updates (some claims) (some manifest)
    ∷ []

new_guard_made :
    new_guard (some claims) (some manifest) (codes "t1") (codes "probe") notes ≡ ok guard
unfolding new_guard
new_guard_made = refl

run_touched : (run plain calls [] guard).touched ≡ codes "h1" ∷ codes "h2" ∷ []
unfolding run aegisbastion.Sdk.Guard.update aegisbastion.Common.text_eq authorize_target
    aegisbastion.Common.find replace aegisbastion.Common.put
run_touched = refl

authorize_target_outside :
    (authorize_target plain turn 0 [] (codes "h9") guard).1 ≡ err not_in_manifest
unfolding authorize_target aegisbastion.Common.find
authorize_target_outside = refl

-- A capability that is not the token's first is not looked up.
second_capability_unseen :
    (authorize_target plain turn 0
      (apply plain (record capability_off { key = codes "probe" }) 0 [])
      (codes "h1")
      guard).1
    ≡ ok tt
unfolding authorize_target aegisbastion.Common.find apply aegisbastion.Common.put
second_capability_unseen = refl

-- A revocation that ends takes the place of one that does not.
shorter_takes_place :
    is_revoked plain
      (replace plain
        (record target_off { expires_at = none } ∷ record target_off { expires_at = some 9 } ∷ [])
        1)
      10
      []
      []
      (codes "h2")
    ≡ none
unfolding is_revoked aegisbastion.Common.find replace aegisbastion.Common.put
    aegisbastion.Common.text_eq
shorter_takes_place = refl

taken : All IsTaken calls
taken = (refl, (refl, (tt, (refl, (tt, (refl, (refl, (tt, tt))))))))

target_kept : KeepsTarget notes
unfolding aegisbastion.Common.find aegisbastion.Common.text_eq
target_kept = refl

run-IsHonest_example : IsHonest (codes "t1") true (run plain calls [] guard)
run-IsHonest_example =
    run-IsHonest plain (some claims) (some manifest) (codes "t1") (codes "probe") notes guard calls
      [] true new_guard_made target_kept (λ a. taken)

apply-halts_example :
    (reason : Text) × (authorize_target plain turn 9
        (apply_each plain ((target_off, 3) ∷ []) (apply plain capability_off 1 []))
        (codes "h1")
        guard
      ≡ (guard, err (revoked reason)))
unfolding first_capability aegisbastion.Common.text_eq
    aegisbastion.Sdk.Revocations.canonical_rev_key
apply-halts_example =
    apply-halts plain capability_off 1 9 ((target_off, 3) ∷ []) [] turn (codes "h1") guard
      (omega arith) refl (refl, refl) (refl, tt)

authorize_target-allowed_example :
    is_revoked plain [] 1 (codes "r1") (first_capability claims) (codes "h1") ≡ none
unfolding authorize_target aegisbastion.Common.find
authorize_target-allowed_example =
    (authorize_target-allowed plain turn 1 [] (codes "h1") guard
      (authorize_target plain turn 1 [] (codes "h1") guard).0 refl).0
