-- ===== src/Gatekeeper/Audit/Recorder.antt =====
-- audit.go: `Record` and `RecordBatch`.
use aegisbastion.Common.{
  ℕ, ◌+◌, ◌%◌, suc, zero, ◌&&◌, Bool, true, false, not, List, [], ◌∷◌, ◌++◌, Option, none, some,
  Text, text_eq, is_empty, filter, find, put, if◌then◌else◌, ltb, Result, ok, err, ◌>>=◌, ◌>>◌,
  reject_if,
}
use aegisbastion.Gatekeeper.Audit.Types.{
  Input, Event, Row, Outside, Draw, Faults, Error, begin_failed, lock_failed, head_failed,
  payload_failed, hash_failed, insert_failed, commit_failed, or_default, nullable, truncate, hash,
}

abbrev pub or_hash_failed : Option Text → Result Error Text
or_hash_failed none = err hash_failed
or_hash_failed (some h) = ok h

unfoldable pub nth {ℓ} : {A : Type ℓ} → ℕ → List A → Option A
nth n [] = none
nth zero (x ∷ xs) = some x
nth (suc n) (x ∷ xs) = nth n xs

abbrev pub prepend : {A : Type 0} → Option A → List A → List A
prepend none xs = xs
prepend (some x) xs = x ∷ xs

module _ {J : Type 0} where
  abbrev pub with_sha : Text → Event J → Event J
  with_sha sha e = record e { payload_sha256 = sha }

  abbrev pub with_hash : Text → Event J → Event J
  with_hash h e = record e { event_hash = h }

  -- A scan for the largest number: `ORDER BY seq DESC LIMIT 1`.
  unfoldable pub newest : List (Row J) → Option (Row J)
  newest [] = none
  newest (r ∷ rs) = elim (newest rs) [
    | none ↦ some r
    | some b ↦ if ltb b.seq r.seq then some r else some b
  ]

  abbrev pub of_org : Text → List (Row J) → List (Row J)
  of_org org table = filter (λ r. text_eq r.org_id org) table

  -- The number and the hash that the next event of a partition links to.
  unfoldable pub head : Option (Row J) → ℕ × Text
  head none = (1, [])
  head (some r) = ((r.seq + 1) % 18446744073709551616, r.event_hash)

  abbrev pub committed :
      Bool
      → List (Row J)
      → Result Error (List (Event J) × List (Row J))
      → List (Row J) × Result Error (List (Event J))
  committed commits table (err e) = (table, err e)
  committed true table (ok (es, table')) = (table', ok es)
  committed false table (ok (es, table')) = (table, err commit_failed)

  -- The indexes of each organization's inputs, organizations in the order of their first input.
  unfoldable pub group : ℕ → List (Draw × Input J) → List (Text × List ℕ) → List (Text × List ℕ)
  group n [] orgs = orgs
  group n ((d, i) ∷ ins) orgs =
      group (suc n) ins (put i.org_id (or_default [] (find i.org_id orgs) ++ n ∷ []) orgs)

  -- `indexInputs`; the indexes are in range.
  unfoldable pub index_inputs : List (Draw × Input J) → List ℕ → List (Draw × Input J)
  unfolding nth
  index_inputs ins [] = []
  index_inputs ins (n ∷ ns) = prepend (nth n ins) (index_inputs ins ns)

  -- `out[idx] = evs[j]`, over a partition.
  unfoldable pub place : List ℕ → List (Event J) → List (ℕ × Event J) → List (ℕ × Event J)
  place [] es out = out
  place (n ∷ ns) [] out = out
  place (n ∷ ns) (e ∷ es) out = place ns es ((n, e) ∷ out)

  -- `if err != nil { return nil, err }`, the table kept.
  abbrev pub then_place :
      Result Error (List (Event J))
      → List (Row J)
      → (List (Event J) → List (Row J) → List (Row J) × Result Error (List (ℕ × Event J)))
      → List (Row J) × Result Error (List (ℕ × Event J))
  then_place (err e) t next = (t, err e)
  then_place (ok es) t next = next es t

module _ {J : Type 0} (o : Outside J) where
  -- The event before its payload's digest and its own hash are set.
  unfoldable pub prepared : Draw → Text → ℕ → Text → Input J → Event J
  prepared d org seq prev i = record {
    event_id = if is_empty i.event_id then d.new_id else i.event_id;
    org_id = org;
    seq = seq;
    prev_hash = prev;
    event_hash = [];
    kind = i.kind;
    actor = some (or_default o.no_object i.actor);
    subject = some (or_default o.no_object i.subject);
    payload = i.payload;
    payload_ref = i.payload_ref;
    payload_sha256 = [];
    trace_id = i.trace_id;
    occurred_at = elim i.occurred_at [ none ↦ truncate d.now | some t ↦ truncate t ];
    recorded_at = truncate d.now;
  }

  -- The digest of a payload that stands elsewhere too.
  unfoldable pub payload_digest : Event J → Result Error Text
  payload_digest e = elim e.payload [
    | none ↦ ok []
    | some j ↦
        if is_empty e.payload_ref
        then ok []
        else (elim (o.marshal j) [ none ↦ err payload_failed | some raw ↦ ok (o.digest raw) ])
  ]

  -- One round of the loop of `recordPartition`, up to the insert.
  unfoldable pub record_event : Draw → Text → ℕ → Text → Input J → Result Error (Event J)
  unfolding prepared payload_digest hash
  record_event d org seq prev i = do
    sha ← payload_digest (prepared d org seq prev i)
    h ← or_hash_failed (hash o (with_sha sha (prepared d org seq prev i)))
    ok (with_hash h (with_sha sha (prepared d org seq prev i)))

  -- The columns that the insert writes: an inline payload only where there is no reference.
  unfoldable pub row_of : Event J → Row J
  row_of e = record {
    event_id = e.event_id;
    org_id = e.org_id;
    seq = e.seq;
    prev_hash = e.prev_hash;
    event_hash = e.event_hash;
    kind = e.kind;
    actor = or_default o.no_object e.actor;
    subject = or_default o.no_object e.subject;
    payload = if is_empty e.payload_ref then e.payload else none;
    payload_ref = nullable e.payload_ref;
    payload_sha256 = nullable e.payload_sha256;
    trace_id = nullable e.trace_id;
    occurred_at = e.occurred_at;
    recorded_at = e.recorded_at;
  }

  -- The inserts of one partition, in order. The column is a signed 64-bit integer, the counter an
  -- unsigned one.
  unfoldable pub record_all :
      Text
      → ℕ
      → Text
      → List (Draw × Input J)
      → List (Row J)
      → Result Error (List (Event J) × List (Row J))
  unfolding record_event row_of
  record_all org seq prev [] table = ok ([], table)
  record_all org seq prev ((d, i) ∷ ins) table = do
    e ← record_event d org seq prev i
    reject_if (not (ltb e.seq 9223372036854775808 && o.takes table (row_of e))) insert_failed
    (es, table') ←
        record_all org ((seq + 1) % 18446744073709551616) e.event_hash ins (table ++ row_of e ∷ [])
    ok (e ∷ es, table')

  -- `recordPartition`: one transaction, which an error rolls back.
  unfoldable pub record_partition :
      Faults
      → Text
      → List (Draw × Input J)
      → List (Row J)
      → List (Row J) × Result Error (List (Event J))
  unfolding newest head record_all
  record_partition w org ins table =
      let (seq, prev) = head (newest (of_org org table)) in
      committed w.commits table (
        reject_if (not w.begins) begin_failed
        >> reject_if (not w.locks) lock_failed
        >> reject_if (not w.reads) head_failed
        >> record_all org seq prev ins table)

  -- The loop over the partitions, each with its own failures: those before one that fails stay recorded.
  unfoldable pub record_orgs :
      (Text → Faults)
      → List (Draw × Input J)
      → List (Text × List ℕ)
      → List (ℕ × Event J)
      → List (Row J)
      → List (Row J) × Result Error (List (ℕ × Event J))
  unfolding record_partition index_inputs place
  record_orgs w ins [] out table = (table, ok out)
  record_orgs w ins ((org, ns) ∷ orgs) out table =
      let (table', got) = record_partition (w org) org (index_inputs ins ns) table in
      then_place got table' (λ es t. record_orgs w ins orgs (place ns es out) t)

  -- `RecordBatch`: the events, each with its input's index.
  unfoldable pub record_batch :
      (Text → Faults)
      → List (Draw × Input J)
      → List (Row J)
      → List (Row J) × Result Error (List (ℕ × Event J))
  unfolding group record_orgs
  record_batch w ins table = record_orgs w ins (group 0 ins []) [] table
