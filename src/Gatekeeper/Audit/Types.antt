-- ===== src/Gatekeeper/Audit/Types.antt =====
-- audit.go: the events, the rows of audit_events, and the hash of an event. The canonical JSON,
-- SHA-256, the JSON codec and the database are arguments. A JSON object has the type `J`; a map
-- that is nil is none. A time is in nanoseconds.
use aegisbastion.Common.{ℕ, ◌-◌, ◌%◌, Bool, List, [], ◌∷◌, ◌++◌, Option, none, some, Text, codes}

pub data Value (J : Type 0) : Type 0 where
  text : Text → Value J
  number : ℕ → Value J
  object : J → Value J

-- `Input`; no time is the zero time.
pub record Input (J : Type 0) : Type 0 where
  pub event_id : Text
  pub org_id : Text
  pub kind : Text
  pub actor : Option J
  pub subject : Option J
  pub payload : Option J
  pub payload_ref : Text
  pub trace_id : Text
  pub occurred_at : Option ℕ

pub record Event (J : Type 0) : Type 0 where
  pub event_id : Text
  pub org_id : Text
  pub seq : ℕ
  pub prev_hash : Text
  pub event_hash : Text
  pub kind : Text
  pub actor : Option J
  pub subject : Option J
  pub payload : Option J
  pub payload_ref : Text
  pub payload_sha256 : Text
  pub trace_id : Text
  pub occurred_at : ℕ
  pub recorded_at : ℕ

-- A row of audit_events, with the columns that may be NULL.
pub record Row (J : Type 0) : Type 0 where
  pub event_id : Text
  pub org_id : Text
  pub seq : ℕ
  pub prev_hash : Text
  pub event_hash : Text
  pub kind : Text
  pub actor : J
  pub subject : J
  pub payload : Option J
  pub payload_ref : Option Text
  pub payload_sha256 : Option Text
  pub trace_id : Option Text
  pub occurred_at : ℕ
  pub recorded_at : ℕ

-- What the code calls: the empty object, `jsonx.Canonical`, SHA-256 in hexadecimal, json.Marshal,
-- the time format, what an object and a time are when they come back from the database, and
-- whether the table takes a row.
pub record Outside (J : Type 0) : Type 0 where
  pub no_object : J
  pub canonical : List (Text × Value J) → Option Text
  pub digest : Text → Text
  pub marshal : J → Option Text
  pub format : ℕ → Text
  pub reload : J → J
  pub stored_time : ℕ → ℕ
  pub takes : List (Row J) → Row J → Bool

-- The clock and the fresh id that one event reads.
pub record Draw : Type 0 where
  pub now : ℕ
  pub new_id : Text

-- What the database does in one transaction.
pub record Faults : Type 0 where
  pub begins : Bool
  pub locks : Bool
  pub reads : Bool
  pub commits : Bool

pub data Error : Type 0 where
  begin_failed lock_failed head_failed payload_failed hash_failed insert_failed : Error
  commit_failed unknown_kind : Error

abbrev pub or_default {ℓ} : {A : Type ℓ} → A → Option A → A
or_default a none = a
or_default a (some b) = b

-- A text column: NULL for the empty text.
abbrev pub nullable : Text → Option Text
nullable [] = none
nullable (c ∷ t) = some (c ∷ t)

abbrev pub optional_text : {J : Type 0} → Text → Text → List (Text × Value J)
optional_text key [] = []
optional_text key (c ∷ t) = (key, text (c ∷ t)) ∷ []

abbrev pub optional_object : {J : Type 0} → Text → Option J → List (Text × Value J)
optional_object key none = []
optional_object key (some j) = (key, object j) ∷ []

-- `t.UTC().Truncate(time.Microsecond)`.
abbrev pub truncate : ℕ → ℕ
truncate t = t - t % 1000

module _ {J : Type 0} (o : Outside J) where
  -- The document that `Hash` puts in canonical form.
  unfoldable pub document : Event J → List (Text × Value J)
  document e =
      (codes "event_id", text e.event_id)
      ∷ (codes "org_id", text e.org_id)
      ∷ (codes "seq", number e.seq)
      ∷ (codes "prev_hash", text e.prev_hash)
      ∷ (codes "kind", text e.kind)
      ∷ (codes "actor", object (or_default o.no_object e.actor))
      ∷ (codes "subject", object (or_default o.no_object e.subject))
      ∷ (codes "occurred_at", text (o.format e.occurred_at))
      ∷ (codes "recorded_at", text (o.format e.recorded_at))
      ∷ (optional_object (codes "payload") e.payload
          ++ optional_text (codes "payload_ref") e.payload_ref
          ++ optional_text (codes "payload_sha256") e.payload_sha256
          ++ optional_text (codes "trace_id") e.trace_id)

  abbrev pub linked : Text → Option Text → Option Text
  linked prev none = none
  linked prev (some canon) = some (o.digest (prev ++ canon))

  -- `Hash`.
  unfoldable pub hash : Event J → Option Text
  unfolding document
  hash e = linked e.prev_hash (o.canonical (document e))
