-- ===== src/Gatekeeper/Audit/Verifier.antt =====
-- audit.go: `VerifyRange`, the auditor's check of a partition.
use aegisbastion.Common.{
  ℕ, ◌-◌, suc, zero, ◌&&◌, Bool, true, false, not, List, [], ◌∷◌, ◌++◌, Option, none, some, Text,
  text_eq, is_empty, filter, if◌then◌else◌, ltb, leb, ◌||◌, ◌==◌,
}
use aegisbastion.Gatekeeper.Audit.Types.{Event, Row, Outside, or_default, hash}
use aegisbastion.Gatekeeper.Audit.Recorder.{of_org}

abbrev pub is_hash : Option Text → Text → Bool
is_hash none h = false
is_hash (some want) h = text_eq want h

abbrev pub gap_if : Bool → ℕ → List ℕ
gap_if false seq = []
gap_if true seq = seq ∷ []

module _ {J : Type 0} where
  -- `bySeq[seq]`: a later row with the number takes the place.
  unfoldable pub by_seq : ℕ → List (Row J) → Option (Row J)
  by_seq q [] = none
  by_seq q (r ∷ rs) = elim (by_seq q rs) [
    | none ↦ if r.seq == q then some r else none
    | some b ↦ some b
  ]

  abbrev pub hash_of : Option (Row J) → Text
  hash_of none = []
  hash_of (some r) = r.event_hash

  abbrev pub in_range : ℕ → ℕ → List (Row J) → List (Row J)
  in_range from to rows = filter (λ r. leb from r.seq && leb r.seq to) rows

module _ {J : Type 0} (o : Outside J) where
  -- What `VerifyRange` reads from a row.
  unfoldable pub load : Row J → Event J
  load r = record {
    event_id = r.event_id;
    org_id = r.org_id;
    seq = r.seq;
    prev_hash = r.prev_hash;
    event_hash = r.event_hash;
    kind = r.kind;
    actor = some (o.reload r.actor);
    subject = some (o.reload r.subject);
    payload = elim r.payload [ none ↦ none | some j ↦ some (o.reload j) ];
    payload_ref = or_default [] r.payload_ref;
    payload_sha256 = or_default [] r.payload_sha256;
    trace_id = or_default [] r.trace_id;
    occurred_at = o.stored_time r.occurred_at;
    recorded_at = o.stored_time r.recorded_at;
  }

  -- One round of the loop of `VerifyRange`: the gaps it adds.
  unfoldable pub check_link : ℕ → Text → ℕ → Option (Row J) → List ℕ
  unfolding load hash
  check_link from prev seq none = seq ∷ []
  check_link from prev seq (some r) =
      gap_if (ltb from seq && not (is_empty prev) && not (text_eq r.prev_hash prev)) seq
      ++ gap_if (not (is_hash (hash o (load r)) r.event_hash)) seq

  -- The loop of `VerifyRange`, with the rounds that are left; `valid` falls with the first gap.
  unfoldable pub verify_from : List (Row J) → ℕ → Text → ℕ → ℕ → Bool × List ℕ
  unfolding by_seq check_link
  verify_from rows from prev seq zero = (true, [])
  verify_from rows from prev seq (suc n) =
      let found = check_link from prev seq (by_seq seq rows) in
      let (valid, gaps) = verify_from rows from (hash_of (by_seq seq rows)) (suc seq) n in
      (is_empty found && valid, found ++ gaps)

  -- `VerifyRange`. None where the query fails: a bound that a bigint cannot hold is refused.
  unfoldable pub verify_range : Text → ℕ → ℕ → List (Row J) → Option (Bool × List ℕ)
  unfolding verify_from
  verify_range org from to table =
      if leb 9223372036854775808 from || leb 9223372036854775808 to
      then none
      else some (verify_from (in_range from to (of_org org table)) from [] from (suc to - from))
