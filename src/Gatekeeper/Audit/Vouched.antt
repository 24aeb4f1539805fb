-- ===== src/Gatekeeper/Audit/Vouched.antt =====
-- audit.go: what `VerifyRange` vouches for, on any table.
use aegisbastion.Common.{
  ℕ, ◌+◌, ◌-◌, ◌<◌, ◌≤◌, suc, zero, ◌&&◌, not, ◌≡◌, refl, sym, ap, subst, ◌∙◌, true, false, ◌⊎◌,
  inl, inr, List, [], ◌∷◌, ◌++◌, Option, none, some, Option-cases, none≢some, Text, text_eq,
  text_eq_sound, In, In-filter, if◌then◌else◌, ltb, leb, ◌==◌, arith, Bool-cases, is_empty,
  is_empty-true, &&-true,
}
use aegisbastion.Gatekeeper.Audit.Types.{Row, Outside, hash}
use aegisbastion.Gatekeeper.Audit.Recorder.{of_org}
use aegisbastion.Gatekeeper.Audit.Verifier.{
  load, by_seq, check_link, verify_from, verify_range, in_range, hash_of, is_hash, gap_if,
}

cons≢nil : {A : Type 0} {x : A} {xs : List A} → x ∷ xs ≡ [] → ⊥
cons≢nil h = cc

module _ {J : Type 0} where
  by_seq-In : (q : ℕ) (rs : List (Row J)) (r : Row J) → by_seq q rs ≡ some r → In r rs × (r.seq ≡ q)
  unfolding by_seq
  by_seq-In q [] r h = absurd (none≢some h)
  by_seq-In q (x ∷ rs) r h = elim (Option-cases (by_seq q rs)) [
    | inl n ↦ here (rw n at h)
    | inr (b, e) ↦ let (m, at) = by_seq-In q rs r (e ∙ rw e at h) in (inr m, at)
  ]
    where
      here : (if x.seq == q then some x else none) ≡ some r → In r (x ∷ rs) × (r.seq ≡ q)
      here k = (inl (ground arith), ground arith)

module _ {J : Type 0} (o : Outside J) where
  -- A row with the number whose hash is found again.
  abbrev IsWhole : List (Row J) → ℕ → Row J → Type 0
  IsWhole rs q r = (by_seq q rs ≡ some r) × (hash o (load o r) ≡ some r.event_hash)

  is_hash_sound : (want : Option Text) (h : Text) → is_hash want h ≡ true → want ≡ some h
  is_hash_sound none h e = cc
  is_hash_sound (some w) h e = ap some (text_eq_sound w h e)

  check_link-IsWhole :
      (rs : List (Row J)) (from q : ℕ) (prev : Text)
      → check_link o from prev q (by_seq q rs) ≡ []
      → (r : Row J) × IsWhole rs q r × (from < q → (prev ≡ []) ⊎ (r.prev_hash ≡ prev))
  unfolding check_link
  check_link-IsWhole rs from q prev h = elim (Option-cases (by_seq q rs)) [
    | inl n ↦ absurd (gap (rw n at h))
    | inr (r, e) ↦
        let (a, b) = both r (rw e at h) in
        (r, (e, is_hash_sound (hash o (load o r)) r.event_hash b), a)
  ]
    where
      gap : q ∷ [] ≡ [] → ⊥
      gap k = cc

      linked :
          (r : Row J)
          → (ltb from q && not (is_empty prev) && not (text_eq r.prev_hash prev)) ≡ false
          → from < q
          → (prev ≡ []) ⊎ (r.prev_hash ≡ prev)
      linked r f l = elim (Bool-cases (is_empty prev)) [
        | inl y ↦ inl (is_empty-true prev y)
        | inr n ↦ inr (text_eq_sound r.prev_hash prev (ground arith))
      ]

      both :
          (r : Row J)
          → gap_if (ltb from q && not (is_empty prev) && not (text_eq r.prev_hash prev)) q
              ++ gap_if (not (is_hash (hash o (load o r)) r.event_hash)) q
            ≡ []
          → (from < q → (prev ≡ []) ⊎ (r.prev_hash ≡ prev))
            × (is_hash (hash o (load o r)) r.event_hash ≡ true)
      both r k =
          elim (Bool-cases (ltb from q && not (is_empty prev) && not (text_eq r.prev_hash prev))) [
            | inl y ↦ absurd (cons≢nil (rw y at k))
            | inr n ↦ elim (Bool-cases (is_hash (hash o (load o r)) r.event_hash)) [
              | inl z ↦ (linked r n, z)
              | inr z ↦ absurd (cons≢nil (rw z at (rw n at k)))
            ]
          ]

  -- Every round left no gap, and got the hash of the row before.
  verify_from-rounds :
      (rs : List (Row J)) (from : ℕ) (prev : Text) (seq n q : ℕ)
      → (verify_from o rs from prev seq n).0 ≡ true
      → seq ≤ q
      → q < seq + n
      → (got : Text) × (check_link o from got q (by_seq q rs) ≡ [])
        × (((q ≡ seq) × (got ≡ prev)) ⊎ ((seq < q) × (got ≡ hash_of (by_seq (q - 1) rs))))
  unfolding verify_from
  verify_from-rounds rs from prev seq zero q h a b = absurd (omega (arith, a, b))
  verify_from-rounds rs from prev seq (suc n) q h a b =
      let found = check_link o from prev seq (by_seq seq rs) in
      let (here, there) =
        &&-true (is_empty found) (verify_from o rs from (hash_of (by_seq seq rs)) (suc seq) n).0
          h in
      elim (Bool-cases (seq == q)) [
        | inl y ↦
            let e : seq ≡ q = ground arith in
            (
              prev,
              subst (λ p. check_link o from prev p (by_seq p rs) ≡ []) e (is_empty-true found here),
              inl (sym e, refl),
            )
        | inr f ↦
            let (got, empty, is) =
              verify_from-rounds rs from (hash_of (by_seq seq rs)) (suc seq) n q there
                (ground (arith, a)) (omega (arith, b)) in
            (got, empty, inr (ground (arith, a), before is))
      ]
    where
      before :
          {got : Text}
          → ((q ≡ suc seq) × (got ≡ hash_of (by_seq seq rs)))
            ⊎ ((suc seq < q) × (got ≡ hash_of (by_seq (q - 1) rs)))
          → got ≡ hash_of (by_seq (q - 1) rs)
      before (inl (e, g)) = g ∙ ap (λ p. hash_of (by_seq p rs)) (omega (arith, e))
      before (inr (l, g)) = g

  -- A row that the partition has under a number, with the hash that its content gives.
  abbrev pub IsVouched : Text → ℕ → List (Row J) → Row J → Type 0
  IsVouched org q table r =
      In r table × (r.org_id ≡ org) × (r.seq ≡ q) × (hash o (load o r) ≡ some r.event_hash)

  in_range-In :
      (org : Text) (from to q : ℕ) (table : List (Row J)) (r : Row J)
      → IsWhole (in_range from to (of_org org table)) q r
      → IsVouched org q table r
  in_range-In org from to q table r (e, h) =
      let (m, at) = by_seq-In q (in_range from to (of_org org table)) r e in
      let (k, _) = In-filter (λ x. leb from x.seq && leb x.seq to) (of_org org table) r m in
      let (j, is) = In-filter (λ x. text_eq x.org_id org) table r k in
      (j, text_eq_sound r.org_id org is, at, h)

  -- Where `VerifyRange` says that a range is valid, every number of it has a row of the
  -- organization whose hash is found again from its content, and which is linked to the row before
  -- in the range, unless that row's hash is empty.
  pub verify_range_sound :
      (org : Text) (from to : ℕ) (table : List (Row J)) (gaps : List ℕ) (q : ℕ)
      → verify_range o org from to table ≡ some (true, gaps)
      → from ≤ q
      → q ≤ to
      → (r : Row J) × IsVouched org q table r
        × (from < q
            → (x : Row J) × IsVouched org (q - 1) table x
              × ((x.event_hash ≡ []) ⊎ (r.prev_hash ≡ x.event_hash)))
  unfolding verify_range
  verify_range_sound org from to table gaps q h a b =
      let (r, whole, link) = at q a b in
      (
        r,
        in_range-In org from to q table r whole,
        λ l.
            let (x, before, _) = at (q - 1) (omega (arith, l)) (omega (arith, b)) in
            (x, in_range-In org from to (q - 1) table x before, link l x before.0),
      )
    where
      valid :
          (verify_from o (in_range from to (of_org org table)) from [] from (suc to - from)).0
          ≡ true
      valid = ground (arith, h)

      passed :
          {p : ℕ} {got : Text}
          → from < p
          → ((p ≡ from) × (got ≡ []))
            ⊎ ((from < p) × (got ≡ hash_of (by_seq (p - 1) (in_range from to (of_org org table)))))
          → (r : Row J) → (got ≡ []) ⊎ (r.prev_hash ≡ got)
          → (x : Row J) → by_seq (p - 1) (in_range from to (of_org org table)) ≡ some x
          → (x.event_hash ≡ []) ⊎ (r.prev_hash ≡ x.event_hash)
      passed l (inl (e, g)) r k x f = absurd (omega (arith, l, e))
      passed l (inr (m, g)) r k x f =
          let is = g ∙ ap hash_of f in subst (λ t. (t ≡ []) ⊎ (r.prev_hash ≡ t)) is k

      at :
          (p : ℕ)
          → from ≤ p
          → p ≤ to
          → (r : Row J) × IsWhole (in_range from to (of_org org table)) p r
            × (from < p
                → (x : Row J) → by_seq (p - 1) (in_range from to (of_org org table)) ≡ some x
                → (x.event_hash ≡ []) ⊎ (r.prev_hash ≡ x.event_hash))
      at p c d =
          let (got, empty, is) =
            verify_from-rounds (in_range from to (of_org org table)) from [] from (suc to - from) p
              valid c (omega (arith, c, d)) in
          let (r, whole, link) =
            check_link-IsWhole (in_range from to (of_org org table)) from p got empty in
          (r, whole, λ l x e. passed l is r (link l) x e)
