-- ===== src/Gatekeeper/Audit/Stored.antt =====
-- audit.go: an event that is recorded has, when it is read back, the hash that was stored with it.
use aegisbastion.Common.{
  ℕ, ◌%◌, ◌≡◌, refl, ap, subst, ◌∙◌, ◌⊎◌, inl, inr, List, [], ◌∷◌, ◌++◌, Option, none, some, Text,
  codes, is_empty, if◌then◌else◌, arith, Option-cases, Result-cases, err≢ok, ok-inj, ok, map,
}
use aegisbastion.Gatekeeper.Audit.Types.{
  Value, text, number, object, Input, Event, Outside, Draw, or_default, nullable, truncate,
  document, hash, linked, optional_object, optional_text,
}
use aegisbastion.Gatekeeper.Audit.Recorder.{
  with_sha, with_hash, prepared, payload_digest, record_event, row_of,
}
use aegisbastion.Gatekeeper.Audit.Verifier.{load}

-- A field as it comes back from the database.
abbrev pub reload_field : {J : Type 0} → Outside J → Text × Value J → Text × Value J
reload_field o (key, text t) = (key, text t)
reload_field o (key, number n) = (key, number n)
reload_field o (key, object j) = (key, object (o.reload j))

-- An input whose payload is not kept elsewhere too.
abbrev pub IsInline : {J : Type 0} → Input J → Type 0
IsInline i = (i.payload ≡ none) ⊎ (i.payload_ref ≡ [])

nullable_back : (t : Text) → or_default [] (nullable t) ≡ t
nullable_back [] = refl
nullable_back (c ∷ t) = refl

-- The payload that is read back, if it was inline.
payload_back :
    {J : Type 0} (p : Option J) (ref : Text)
    → (p ≡ none) ⊎ (ref ≡ [])
    → (if is_empty ref then p else none) ≡ p
payload_back p ref (inl e) = ground arith
payload_back p ref (inr e) = rw e refl

module _ {J : Type 0} (o : Outside J) where
  object_field :
      (p : Option J)
      → optional_object (codes "payload") (elim p [ none ↦ none | some j ↦ some (o.reload j) ])
        ≡ map (reload_field o) (optional_object (codes "payload") p)
  object_field none = refl
  object_field (some j) = refl

  text_field : (key t : Text) → map (reload_field o) (optional_text key t) ≡ optional_text key t
  text_field key [] = refl
  text_field key (c ∷ t) = refl

map-append : {A B : Type 0} (f : A → B) (xs ys : List A) → map f (xs ++ ys) ≡ map f xs ++ map f ys
map-append f [] ys = refl
map-append f (x ∷ xs) ys = ap (λ l. f x ∷ l) (map-append f xs ys)

optionals_back :
    {J : Type 0} (o : Outside J) (p : Option J) (a b c : Text)
    → map (reload_field o) (
        optional_object (codes "payload") p
        ++ optional_text (codes "payload_ref") a
        ++ optional_text (codes "payload_sha256") b
        ++ optional_text (codes "trace_id") c)
      ≡ map (reload_field o) (optional_object (codes "payload") p)
        ++ optional_text (codes "payload_ref") a
        ++ optional_text (codes "payload_sha256") b
        ++ optional_text (codes "trace_id") c
optionals_back o p a b c = simp (
  map-append,
  text_field o (codes "payload_ref") a,
  text_field o (codes "payload_sha256") b,
  text_field o (codes "trace_id") c,
)

module _ {J : Type 0} (o : Outside J)
    (reloads : (doc : List (Text × Value J))
      → o.canonical (map (reload_field o) doc) ≡ o.canonical doc)
    (stores : (t : ℕ) → t % 1000 ≡ 0 → o.stored_time t ≡ t) where
  document_back :
      (e : Event J) (a s : J)
      → e.actor ≡ some a
      → e.subject ≡ some s
      → (e.payload ≡ none) ⊎ (e.payload_ref ≡ [])
      → e.occurred_at % 1000 ≡ 0
      → e.recorded_at % 1000 ≡ 0
      → document o (load o (row_of o e)) ≡ map (reload_field o) (document o e)
  unfolding document load row_of
  document_back e a s ea es inline oc re =
      rw
        (
          nullable_back e.payload_ref,
          nullable_back e.payload_sha256,
          nullable_back e.trace_id,
          payload_back e.payload e.payload_ref inline,
          stores e.occurred_at oc,
          stores e.recorded_at re,
          ea,
          es,
          object_field o e.payload,
          optionals_back o e.payload e.payload_ref e.payload_sha256 e.trace_id,
        )
        refl

  hash_back :
      (e : Event J) (a s : J)
      → e.actor ≡ some a
      → e.subject ≡ some s
      → (e.payload ≡ none) ⊎ (e.payload_ref ≡ [])
      → e.occurred_at % 1000 ≡ 0
      → e.recorded_at % 1000 ≡ 0
      → hash o (load o (row_of o e)) ≡ hash o e
  unfolding hash load row_of
  hash_back e a s ea es inline oc re =
      let d = document_back e a s ea es inline oc re in
      let c = ap o.canonical d ∙ reloads (document o e) in ap (linked o e.prev_hash) c

  truncate_whole : (t : ℕ) → truncate t % 1000 ≡ 0
  truncate_whole t = omega arith

  occurred_whole :
      (t : Option ℕ) (now : ℕ) → (elim t [ none ↦ truncate now | some u ↦ truncate u ]) % 1000 ≡ 0
  occurred_whole none now = truncate_whole now
  occurred_whole (some t) now = truncate_whole t

  -- What the recorder has computed when it returns an event.
  record_event-tests :
      (d : Draw) (org : Text) (seq : ℕ) (prev : Text) (i : Input J) (e : Event J)
      → record_event o d org seq prev i ≡ ok e
      → (sha : Text) × (h : Text) × (hash o (with_sha sha (prepared o d org seq prev i)) ≡ some h)
        × (with_hash h (with_sha sha (prepared o d org seq prev i)) ≡ e)
  unfolding record_event
  record_event-tests d org seq prev i e eq =
      elim (Result-cases (payload_digest o (prepared o d org seq prev i))) [
        | inl (f, n) ↦ absurd (err≢ok (rw n at eq))
        | inr (sha, y) ↦ elim (Option-cases (hash o (with_sha sha (prepared o d org seq prev i)))) [
          | inl n ↦ absurd (err≢ok (rw n at (rw y at eq)))
          | inr (h, z) ↦ (sha, h, z, ok-inj refl (rw z at (rw y at eq)))
        ]
      ]

  -- The event has the number and the link it is given, and a hash that is found again.
  pub record_event-hash :
      (d : Draw) (org : Text) (seq : ℕ) (prev : Text) (i : Input J) (e : Event J)
      → IsInline i
      → record_event o d org seq prev i ≡ ok e
      → (e.org_id ≡ org)
        × (e.seq ≡ seq)
        × (e.prev_hash ≡ prev)
        × (hash o (load o (row_of o e)) ≡ some e.event_hash)
  unfolding prepared hash
  record_event-hash d org seq prev i e inline eq =
      let (sha, h, z, is) = record_event-tests d org seq prev i e eq in
      subst
        (λ x.
          (x.org_id ≡ org)
          × (x.seq ≡ seq)
          × (x.prev_hash ≡ prev)
          × (hash o (load o (row_of o x)) ≡ some x.event_hash))
        is
        (
          refl,
          refl,
          refl,
          hash_back (with_hash h (with_sha sha (prepared o d org seq prev i)))
                (or_default o.no_object i.actor) (or_default o.no_object i.subject) refl refl inline
                (occurred_whole i.occurred_at d.now) (truncate_whole d.now)
              ∙ z,
        )
