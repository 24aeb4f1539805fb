-- ===== src/Gatekeeper/Audit/Replay.antt =====
-- audit.go: an auditor's check after any sequence of batches, from the empty table on.
use aegisbastion.Common.{
  ℕ, ◌-◌, ◌%◌, ◌≤◌, ◌<◌, suc, ◌≡◌, List, [], ◌∷◌, some, Text, filter, length, All, ltb, is_empty,
  map,
}
use aegisbastion.Gatekeeper.Audit.Types.{Value, Input, Row, Outside, Draw, Faults}
use aegisbastion.Gatekeeper.Audit.Recorder.{of_org, record_batch}
use aegisbastion.Gatekeeper.Audit.Verifier.{verify_range}
use aegisbastion.Gatekeeper.Audit.Chain.{IsSound}
use aegisbastion.Gatekeeper.Audit.Stored.{IsInline, reload_field}
use aegisbastion.Gatekeeper.Audit.Kept.{record_batch-IsSound}
use aegisbastion.Gatekeeper.Audit.Checked.{numbers, verify_range-recorded}

module _ {J : Type 0} (o : Outside J) where
  -- The batches of a log's life, each with what failed.
  unfoldable pub replay :
      List ((Text → Faults) × List (Draw × Input J)) → List (Row J) → List (Row J)
  replay [] table = table
  replay ((w, ins) ∷ batches) table = replay batches (record_batch o w ins table).0

module _ {J : Type 0} (o : Outside J)
    (reloads : (doc : List (Text × Value J))
      → o.canonical (map (reload_field o) doc) ≡ o.canonical doc)
    (stores : (t : ℕ) → t % 1000 ≡ 0 → o.stored_time t ≡ t) where
  replay-IsSound :
      (batches : List ((Text → Faults) × List (Draw × Input J))) (table : List (Row J))
      → All (λ b. All (λ x. IsInline x.1) b.1) batches
      → IsSound o table
      → IsSound o (replay o batches table)
  unfolding replay
  replay-IsSound [] table inline s = s
  replay-IsSound ((w, ins) ∷ batches) table inline s =
      replay-IsSound batches (record_batch o w ins table).0 inline.1
        (record_batch-IsSound o reloads stores w ins table inline.0 s).0

  -- After any sequence of batches of events with inline payloads, from the empty table on and
  -- whatever failed in it, `VerifyRange` ends for every organization and every range from 1 or more
  -- whose bounds are less than 2^63, as the database's bigint asks: it says that the range is valid if the organization has so
  -- many events, and otherwise lists as gaps the numbers it has not reached, and no other. It needs
  -- that the canonical form of an object is that of the object read back, and that the database
  -- keeps times of whole microseconds.
  pub verify_range-replay :
      (batches : List ((Text → Faults) × List (Draw × Input J))) (org : Text) (from to : ℕ)
      → All (λ b. All (λ x. IsInline x.1) b.1) batches
      → 1 ≤ from
      → from < 9223372036854775808
      → to < 9223372036854775808
      → verify_range o org from to (replay o batches [])
        ≡ some (
          is_empty (
              filter
                (λ q. ltb (length (of_org org (replay o batches []))) q)
                (numbers from (suc to - from))),
          filter
              (λ q. ltb (length (of_org org (replay o batches []))) q)
              (numbers from (suc to - from)),
        )
  verify_range-replay batches org from to inline a f b =
      verify_range-recorded o org from to (replay o batches [])
        (replay-IsSound batches [] inline (λ q. unfold filter in tt)) a f b
