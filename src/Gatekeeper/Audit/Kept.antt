-- ===== src/Gatekeeper/Audit/Kept.antt =====
-- audit.go: whatever is recorded, and whatever fails on the way, the table stays chained.
use aegisbastion.Common.{
  ℕ, ◌+◌, ◌<◌, ◌%◌, suc, zero, ◌&&◌, not, ◌≡◌, refl, sym, ap, subst, ◌∙◌, Bool, true, false, inl,
  inr, List, [], ◌∷◌, ◌++◌, Option, none, some, Text, text_eq, text_eq_sound, text_eq_refl, filter,
  length, length-append, All, if◌then◌else◌, ltb, arith, none≢some, Bool-cases, Result, ok-inj,
  bind-ok, reject_if-ok, ok, err, ◌>>◌, reject_if, map,
}
use aegisbastion.Gatekeeper.Audit.Types.{
  Value, Input, Event, Row, Outside, Draw, Faults, Error, insert_failed, begin_failed, lock_failed,
  head_failed, hash,
}
use aegisbastion.Gatekeeper.Audit.Recorder.{
  record_event, row_of, record_all, newest, head, of_org, committed, record_partition, nth,
  index_inputs, prepend, group, place, then_place, record_orgs, record_batch,
}
use aegisbastion.Gatekeeper.Audit.Verifier.{load}
use aegisbastion.Gatekeeper.Audit.Chain.{IsChain, IsSound, IsChain-append, head-IsChain, chain_end}
use aegisbastion.Gatekeeper.Audit.Stored.{IsInline, reload_field, record_event-hash}

append_assoc : {A : Type 0} (xs ys zs : List A) → (xs ++ ys) ++ zs ≡ xs ++ (ys ++ zs)
append_assoc [] ys zs = refl
append_assoc (x ∷ xs) ys zs = ap (λ l. x ∷ l) (append_assoc xs ys zs)

append_nil : {A : Type 0} (xs : List A) → xs ≡ xs ++ []
append_nil [] = refl
append_nil (x ∷ xs) = ap (λ l. x ∷ l) (append_nil xs)

some-inj : {A : Type 0} {x y : A} → some x ≡ some y → x ≡ y
some-inj h = cc

prepend-All :
    {A : Type 0} (P : A → Type 0) (o : Option A) (xs : List A)
    → ((x : A) → o ≡ some x → P x)
    → All P xs
    → All P (prepend o xs)
prepend-All P none xs h a = a
prepend-All P (some x) xs h a = (h x refl, a)

nth-All :
    {A : Type 0} (P : A → Type 0) (n : ℕ) (xs : List A) (x : A) → All P xs → nth n xs ≡ some x → P x
unfolding nth
nth-All P n [] x h e = absurd (none≢some e)
nth-All P zero (y ∷ xs) x h e = subst P (some-inj e) h.0
nth-All P (suc n) (y ∷ xs) x h e = nth-All P n xs x h.1 e

module _ {J : Type 0} where
  of_org-append :
      (org : Text) (table : List (Row J)) (r : Row J)
      → of_org org (table ++ r ∷ [])
        ≡ (if text_eq r.org_id org then of_org org table ++ r ∷ [] else of_org org table)
  unfolding filter
  of_org-append org [] r = refl
  of_org-append org (x ∷ table) r = ground (arith, of_org-append org table r)

  chain_end-append :
      (p : Text) (rs : List (Row J)) (r : Row J) → chain_end p (rs ++ r ∷ []) ≡ r.event_hash
  chain_end-append p [] r = refl
  chain_end-append p (x ∷ rs) r = chain_end-append x.event_hash rs r

  -- Rows are only ever added at the end.
  abbrev pub Extends : List (Row J) → List (Row J) → Type 0
  Extends table table' = (rows : List (Row J)) × (table' ≡ table ++ rows)

  Extends-trans : (s t u : List (Row J)) → Extends s t → Extends t u → Extends s u
  Extends-trans s t u (a, e) (b, f) = (a ++ b, f ∙ ap (λ l. l ++ b) e ∙ append_assoc s a b)

  -- The next number and link of an organization's partition.
  abbrev IsHead : Text → ℕ → Text → List (Row J) → Type 0
  IsHead org seq prev table =
      (seq ≡ suc (length (of_org org table))) × (prev ≡ chain_end [] (of_org org table))

module _ {J : Type 0} (o : Outside J) where
  abbrev Keeps : List (Row J) → List (Row J) → Type 0
  Keeps table table' = IsSound o table' × Extends table table'

  -- A row that is next in its partition.
  insert-IsSound :
      (org : Text) (table : List (Row J)) (r : Row J)
      → IsSound o table
      → IsHead org r.seq r.prev_hash table
      → r.org_id ≡ org
      → r.seq < 9223372036854775808
      → hash o (load o r) ≡ some r.event_hash
      → IsSound o (table ++ r ∷ [])
        × IsHead org ((r.seq + 1) % 18446744073709551616) r.event_hash (table ++ r ∷ [])
  insert-IsSound org table r s (n, p) is b h = (
    (λ org'. elim (Bool-cases (text_eq r.org_id org')) [
      | inl y ↦ subst (IsChain o 1 []) (sym (of_org-append org' table r ∙ rw y refl)) (
          IsChain-append o 1 [] (of_org org' table) r (s org')
            (omega (arith, n, ap (λ q. length (of_org q table)) (same org' y))) b
            (p ∙ ap (λ q. chain_end [] (of_org q table)) (same org' y)) h)
      | inr f ↦ subst (IsChain o 1 []) (sym (of_org-append org' table r ∙ rw f refl)) (s org')
    ]),
    (
      omega (arith, n, b, ap length grown, length-append (of_org org table) (r ∷ [])),
      sym (ap (chain_end []) grown ∙ chain_end-append [] (of_org org table) r),
    ),
  )
    where
      same : (org' : Text) → text_eq r.org_id org' ≡ true → org ≡ org'
      same org' y = sym is ∙ text_eq_sound r.org_id org' y

      grown : of_org org (table ++ r ∷ []) ≡ of_org org table ++ r ∷ []
      grown = of_org-append org table r ∙ rw (is, text_eq_refl org) refl

  -- The insert and the rest of the loop, when there is no error.
  record_all-tests :
      (org : Text) (seq : ℕ) (prev : Text) (d : Draw) (i : Input J) (ins : List (Draw × Input J))
      (table table' : List (Row J)) (es : List (Event J))
      → record_all o org seq prev ((d, i) ∷ ins) table ≡ ok (es, table')
      → (e : Event J) × (es' : List (Event J)) × (record_event o d org seq prev i ≡ ok e)
        × (e.seq < 9223372036854775808)
        × (record_all o org
              ((seq + 1) % 18446744073709551616)
              e.event_hash
              ins
              (table ++ row_of o e ∷ [])
            ≡ ok (es', table'))
  unfolding record_all
  record_all-tests org seq prev d i ins table table' es eq =
      let (e, made, kept) = bind-ok (record_event o d org seq prev i) _ eq in
      let (fits, rest) =
        reject_if-ok (not (ltb e.seq 9223372036854775808 && o.takes table (row_of o e)))
          insert_failed _ kept in
      let ((es', t), ended, last) =
        bind-ok
          (record_all o org ((seq + 1) % 18446744073709551616) e.event_hash ins
            (table ++ row_of o e ∷ []))
          _ rest in
      (e, es', made, ground arith, ended ∙ ap (λ u. ok (es', u)) (ap (λ p. p.1) (ok-inj refl last)))

module _ {J : Type 0} (o : Outside J)
    (reloads : (doc : List (Text × Value J))
      → o.canonical (map (reload_field o) doc) ≡ o.canonical doc)
    (stores : (t : ℕ) → t % 1000 ≡ 0 → o.stored_time t ≡ t) where
  record_all-Keeps :
      (org : Text) (seq : ℕ) (prev : Text) (ins : List (Draw × Input J))
      (table table' : List (Row J)) (es : List (Event J))
      → All (λ x. IsInline x.1) ins
      → IsSound o table
      → IsHead org seq prev table
      → record_all o org seq prev ins table ≡ ok (es, table')
      → Keeps o table table'
  unfolding record_all
  record_all-Keeps org seq prev [] table table' es inline s n eq =
      let e : table ≡ table' = ap (λ p. p.1) (ok-inj refl eq) in
      (subst (IsSound o) e s, ([], sym e ∙ append_nil table))
  record_all-Keeps org seq prev ((d, i) ∷ ins) table table' es inline s n eq =
      let (e, es', made, fits, ended) =
        record_all-tests o org seq prev d i ins table table' es eq in
      let (is, at, link, again) =
        record_event-hash o reloads stores d org seq prev i e inline.0 made in
      let (sound, next) =
        insert-IsSound o org table (row_of o e) s (at ∙ n.0, link ∙ n.1) is fits again in
      let (kept, grown) =
        record_all-Keeps org ((seq + 1) % 18446744073709551616) e.event_hash ins
          (table ++ row_of o e ∷ []) table' es' inline.1 sound
          (
            subst
                (λ q.
                  (q + 1) % 18446744073709551616
                  ≡ suc (length (of_org org (table ++ row_of o e ∷ []))))
                at next.0,
            next.1,
          )
          ended in
      (kept, Extends-trans table (table ++ row_of o e ∷ []) table' (row_of o e ∷ [], refl) grown)

  record_partition-Keeps :
      (w : Faults) (org : Text) (ins : List (Draw × Input J)) (table : List (Row J))
      → All (λ x. IsInline x.1) ins
      → IsSound o table
      → Keeps o table (record_partition o w org ins table).0
  unfolding record_partition
  record_partition-Keeps w org ins table inline s =
      through w.begins w.locks w.reads w.commits
        (record_all o org (head (newest (of_org org table))).0 (head (newest (of_org org table))).1
          ins table)
        (λ es table' eq.
          record_all-Keeps org (head (newest (of_org org table))).0
            (head (newest (of_org org table))).1 ins table table' es inline s
            (head-IsChain o (of_org org table) (s org)) eq)
    where
      unchanged : Keeps o table table
      unchanged = (s, ([], append_nil table))

      through :
          (begins locks reads commits : Bool) (r : Result Error (List (Event J) × List (Row J)))
          → ((es : List (Event J)) (table' : List (Row J))
              → r ≡ ok (es, table')
              → Keeps o table table')
          → Keeps o table
              (committed commits table (
                reject_if (not begins) begin_failed
                >> reject_if (not locks) lock_failed
                >> reject_if (not reads) head_failed
                >> r)).0
      through false locks reads commits r kept = unchanged
      through true false reads commits r kept = unchanged
      through true true false commits r kept = unchanged
      through true true true commits (err e) kept = unchanged
      through true true true true (ok (es, table')) kept = kept es table' refl
      through true true true false (ok (es, table')) kept = unchanged

  index_inputs-All :
      (ins : List (Draw × Input J)) (ns : List ℕ)
      → All (λ x. IsInline x.1) ins
      → All (λ x. IsInline x.1) (index_inputs ins ns)
  unfolding index_inputs
  index_inputs-All ins [] h = tt
  index_inputs-All ins (n ∷ ns) h =
      prepend-All (λ y. IsInline y.1) (nth n ins) (index_inputs ins ns)
        (λ x. nth-All (λ y. IsInline y.1) n ins x h) (index_inputs-All ins ns h)

  record_orgs-Keeps :
      (w : Text → Faults) (ins : List (Draw × Input J)) (orgs : List (Text × List ℕ))
      (out : List (ℕ × Event J)) (table : List (Row J))
      → All (λ x. IsInline x.1) ins
      → IsSound o table
      → Keeps o table (record_orgs o w ins orgs out table).0
  unfolding record_orgs
  record_orgs-Keeps w ins [] out table inline s = (s, ([], append_nil table))
  record_orgs-Keeps w ins ((org, ns) ∷ orgs) out table inline s =
      let (t, rest) =
        record_partition-Keeps (w org) org (index_inputs ins ns) table
          (index_inputs-All ins ns inline) s in
      onward (record_partition o (w org) org (index_inputs ins ns) table).0
        (record_partition o (w org) org (index_inputs ins ns) table).1 (t, rest)
        (λ u es. record_orgs-Keeps w ins orgs (place ns es out) u inline)
    where
      onward :
          (u : List (Row J)) (got : Result Error (List (Event J)))
          → Keeps o table u
          → ((v : List (Row J)) (es : List (Event J))
              → IsSound o v
              → Keeps o v (record_orgs o w ins orgs (place ns es out) v).0)
          → Keeps o table
              (then_place got u (λ es v. record_orgs o w ins orgs (place ns es out) v)).0
      onward u (err e) k ih = k
      onward u (ok es) k ih =
          let (sound, more) = ih u es k.0 in
          (sound, Extends-trans table u (record_orgs o w ins orgs (place ns es out) u).0 k.1 more)

  -- Recording a batch of events with inline payloads keeps every organization's rows one chain:
  -- numbered from 1 without a gap, each row linked to the one before, each with the hash that is
  -- found again from what is read back. It only adds rows at the end, whatever fails in each organization: a
  -- transaction that does not commit adds none. It needs that the canonical form of an object is
  -- that of the object read back, and that the database keeps times of whole microseconds.
  pub record_batch-IsSound :
      (w : Text → Faults) (ins : List (Draw × Input J)) (table : List (Row J))
      → All (λ x. IsInline x.1) ins
      → IsSound o table
      → IsSound o (record_batch o w ins table).0
        × ((rows : List (Row J)) × ((record_batch o w ins table).0 ≡ table ++ rows))
  unfolding record_batch
  record_batch-IsSound w ins table inline s =
      record_orgs-Keeps w ins (group 0 ins []) [] table inline s
