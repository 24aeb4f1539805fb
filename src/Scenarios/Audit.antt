-- ===== src/Scenarios/Audit.antt =====
-- Runs of the audit log: three events of two organizations, recorded and checked.
use aegisbastion.Common.{
  not, text_eq, ℕ, ◌≡◌, refl, sym, ap, ◌∙◌, Bool, true, false, inl, inr, List, [], ◌∷◌, ◌++◌,
  Option, none, some, Text, codes, map, is_empty, arith, In, All, ok, err, ◌<◌, ◌-◌, ◌⊎◌,
}
use aegisbastion.Gatekeeper.Audit.Types.{
  Value, text, number, object, Input, Row, Outside, Draw, Faults,
}
use aegisbastion.Gatekeeper.Audit.Recorder.{record_batch}
use aegisbastion.Gatekeeper.Audit.Verifier.{verify_range}
use aegisbastion.Gatekeeper.Audit.Chain.{IsSound}
use aegisbastion.Gatekeeper.Audit.Stored.{IsInline, reload_field}
use aegisbastion.Gatekeeper.Audit.Kept.{record_batch-IsSound}
use aegisbastion.Gatekeeper.Audit.Replay.{replay, verify_range-replay}
use aegisbastion.Gatekeeper.Audit.Vouched.{IsVouched, verify_range_sound}

abbrev shown : Value Text → Text
shown (text t) = b'"' ∷ t ++ b'"' ∷ []
shown (number n) = n ∷ []
shown (object t) = b'{' ∷ t ++ b'}' ∷ []

abbrev fields : List (Text × Value Text) → Text
fields [] = []
fields ((key, v) ∷ doc) = key ++ b':' ∷ shown v ++ b',' ∷ fields doc

-- An object is its text; the digest keeps its argument.
abbrev outside : Outside Text
outside = record {
  no_object = [];
  canonical = λ doc. some (fields doc);
  digest = λ t. t;
  marshal = λ t. some t;
  format = λ t. t ∷ [];
  reload = λ t. t;
  stored_time = λ t. t;
  takes = λ table r. true;
}

fields-reload : (doc : List (Text × Value Text)) → map (reload_field outside) doc ≡ doc
fields-reload [] = refl
fields-reload ((key, text t) ∷ doc) = ap (λ l. (key, text t) ∷ l) (fields-reload doc)
fields-reload ((key, number n) ∷ doc) = ap (λ l. (key, number n) ∷ l) (fields-reload doc)
fields-reload ((key, object t) ∷ doc) = ap (λ l. (key, object t) ∷ l) (fields-reload doc)

abbrev reloads_kept :
    (doc : List (Text × Value Text))
    → outside.canonical (map (reload_field outside) doc) ≡ outside.canonical doc
reloads_kept doc = ap outside.canonical (fields-reload doc)

abbrev sent : Text → Text → Input Text
sent org kind = record {
  event_id = [];
  org_id = org;
  kind = kind;
  actor = some (codes "svc");
  subject = none;
  payload = some (codes "p");
  payload_ref = [];
  trace_id = [];
  occurred_at = none;
}

abbrev drawn : ℕ → Draw
drawn n = record { now = n; new_id = n ∷ [] }

abbrev no_faults : Text → Faults
no_faults org = record { begins = true; locks = true; reads = true; commits = true }

abbrev no_reads : Text → Faults
no_reads org = record {
  begins = true;
  locks = true;
  reads = not (text_eq org (codes "a"));
  commits = true;
}

abbrev batch : List (Draw × Input Text)
batch =
    (drawn 1500, sent (codes "a") (codes "x"))
    ∷ (drawn 2700, sent (codes "b") (codes "y"))
    ∷ (drawn 3900, sent (codes "a") (codes "z"))
    ∷ []

batch-IsInline : All (λ x. IsInline x.1) batch
batch-IsInline = (inr refl, (inr refl, (inr refl, tt)))

record_batch-IsSound_example :
    IsSound outside (record_batch outside no_faults batch []).0
    × ((rows : List (Row Text)) × ((record_batch outside no_faults batch []).0 ≡ [] ++ rows))
unfolding aegisbastion.Common.filter
record_batch-IsSound_example =
    record_batch-IsSound outside reloads_kept (λ t h. refl) no_faults batch [] batch-IsInline
      (λ q. tt)

verify_range-replay_example :
    verify_range outside
      (codes "a")
      1
      3
      (replay outside ((no_faults, batch) ∷ (no_reads, batch) ∷ []) [])
    ≡ some (false, 3 ∷ [])
unfolding aegisbastion.Common.filter replay record_batch aegisbastion.Common.put
    aegisbastion.Common.text_eq aegisbastion.Common.find
verify_range-replay_example =
    verify_range-replay outside reloads_kept (λ t h. refl)
      ((no_faults, batch) ∷ (no_reads, batch) ∷ []) (codes "a") 1 3
      (batch-IsInline, (batch-IsInline, tt)) (ground arith) (ground arith) (ground arith)

verify_range_sound_example :
    (r : Row Text) × IsVouched outside (codes "a") 2 (record_batch outside no_faults batch []).0 r
    × (1 < 2
        → (x : Row Text) × IsVouched outside
            (codes "a")
            (2 - 1)
            (record_batch outside no_faults batch []).0
            x
          × ((x.event_hash ≡ []) ⊎ (r.prev_hash ≡ x.event_hash)))
unfolding verify_range aegisbastion.Common.filter record_batch aegisbastion.Common.put
    aegisbastion.Common.text_eq aegisbastion.Common.find
verify_range_sound_example =
    verify_range_sound outside (codes "a") 1 2 (record_batch outside no_faults batch []).0 [] 2 refl
      (ground arith) (ground arith)
