-- ===== src/Sdk/Revocations/InForce.antt =====
-- revocation.go: a revocation that the cache takes holds until it lapses.
use aegisbastion.Common.{
  ℕ, ◌≡◌, refl, subst, ◌∙◌, true, false, List, [], ◌∷◌, ◌++◌, Option, none, some, Text, text_eq,
  text_eq_refl, is_empty, find, find-put, if◌then◌else◌, ◌||◌, All, Bool-cases, codes, inl, inr,
}
use aegisbastion.Gatekeeper.Revocation.{Scope, unspecified, global, roe, target, capability}
use aegisbastion.Sdk.Types.{Matcher}
use aegisbastion.Sdk.Revocations.{
  Revocation, Entry, Cache, is_unspecified, is_lapsed, or_else, label, hit, canonical_rev_key,
  apply, unless_empty, is_revoked,
}

abbrev pub Reason : Option Text → Type 0
Reason o = (r : Text) × (o ≡ some r)

module _ (matcher : Matcher) where
  -- The revocation of a scope and key bears on an action under an RoE, a capability and a target.
  abbrev pub Covers : Scope → Text → Text → Text → Text → Type 0
  Covers unspecified key roe_id cap_id subject = false ≡ true
  Covers global key roe_id cap_id subject = key ≡ []
  Covers roe key roe_id cap_id subject = (key ≡ roe_id) × (is_empty roe_id ≡ false)
  Covers capability key roe_id cap_id subject = (key ≡ cap_id) × (is_empty cap_id ≡ false)
  Covers target key roe_id cap_id subject =
      (canonical_rev_key matcher target key ≡ canonical_rev_key matcher target subject)
      × (is_empty subject ≡ false)

  -- Events that come one after another, each with its time.
  unfoldable pub apply_each : List (Revocation × ℕ) → Cache → Cache
  unfolding apply
  apply_each [] entries = entries
  apply_each ((rev, now) ∷ events) entries = apply_each events (apply matcher rev now entries)

  abbrev pub key_of : Revocation → Text
  key_of rev = canonical_rev_key matcher rev.scope rev.key

  find-apply :
      (rev : Revocation) (now : ℕ) (entries : Cache) (k : Text)
      → text_eq (key_of rev) k ≡ false
      → find k (apply matcher rev now entries) ≡ find k entries
  unfolding apply
  find-apply rev now entries k h =
      elim (Bool-cases (is_unspecified rev.scope || is_lapsed rev.expires_at now)) [
        | inl y ↦ rw (y, apply) refl
        | inr n ↦
            rw
              (
                n,
                apply,
                find-put (key_of rev) k
                    (record {
                      id = rev.revocation_id;
                      expires_at = rev.expires_at;
                      reason = rev.reason;
                    })
                    entries,
                h,
              )
              refl
      ]

  pub find-apply_each :
      (events : List (Revocation × ℕ)) (entries : Cache) (k : Text)
      → All (λ e. text_eq (key_of e.0) k ≡ false) events
      → find k (apply_each events entries) ≡ find k entries
  unfolding apply_each
  find-apply_each [] entries k h = refl
  find-apply_each ((rev, now) ∷ events) entries k h =
      find-apply_each events (apply matcher rev now entries) k h.1
      ∙ find-apply rev now entries k h.0

  pub find-apply_self :
      (rev : Revocation) (now : ℕ) (entries : Cache)
      → is_unspecified rev.scope ≡ false
      → is_lapsed rev.expires_at now ≡ false
      → find (key_of rev) (apply matcher rev now entries)
        ≡ some (record { id = rev.revocation_id; expires_at = rev.expires_at; reason = rev.reason })
  unfolding apply
  find-apply_self rev now entries u l =
      rw
        (
          u,
          l,
          apply,
          find-put (key_of rev) (key_of rev)
              (record { id = rev.revocation_id; expires_at = rev.expires_at; reason = rev.reason })
              entries,
          text_eq_refl (key_of rev),
        )
        refl

  pub hit-Reason :
      (entries : Cache) (now : ℕ) (k : Text) (e : Entry)
      → find k entries ≡ some e
      → is_lapsed e.expires_at now ≡ false
      → Reason (hit entries now k)
  unfolding hit
  hit-Reason entries now k e f l =
      (if is_empty e.reason then codes "revocation " ++ e.id else e.reason, rw (f, hit, l) refl)

  or_else-left : (o p : Option Text) → Reason o → Reason (or_else o p)
  or_else-left none p (r, e) = cc
  or_else-left (some s) p h = (s, refl)

  or_else-right : (o p : Option Text) → Reason p → Reason (or_else o p)
  or_else-right none p h = h
  or_else-right (some s) p h = (s, refl)

  label-Reason : (t : Text) (o : Option Text) → Reason o → Reason (label t o)
  label-Reason t none (r, e) = cc
  label-Reason t (some s) h = (t ++ s, refl)

  unless_empty-Reason :
      (key : Text) (o : Option Text) → is_empty key ≡ false → Reason o → Reason (unless_empty key o)
  unless_empty-Reason key o n h = rw n h

  -- The four answers that `is_revoked` goes through.
  abbrev by_scope : Cache → ℕ → Text → Scope → Text → Option Text
  by_scope entries now prefix scope key =
      label (prefix) (hit entries now (canonical_rev_key matcher scope key))

  first-Reason : (o p q r : Option Text) → Reason o → Reason (or_else o (or_else p (or_else q r)))
  first-Reason o p q r h = or_else-left o (or_else p (or_else q r)) h

  second-Reason : (o p q r : Option Text) → Reason p → Reason (or_else o (or_else p (or_else q r)))
  second-Reason o p q r h =
      or_else-right o (or_else p (or_else q r)) (or_else-left p (or_else q r) h)

  third-Reason : (o p q r : Option Text) → Reason q → Reason (or_else o (or_else p (or_else q r)))
  third-Reason o p q r h =
      or_else-right o (or_else p (or_else q r)) (or_else-right p (or_else q r) (or_else-left q r h))

  last-Reason : (o p q r : Option Text) → Reason r → Reason (or_else o (or_else p (or_else q r)))
  last-Reason o p q r h =
      or_else-right o (or_else p (or_else q r))
        (or_else-right p (or_else q r) (or_else-right q r h))

  by_scope-Reason :
      (entries : Cache) (now : ℕ) (prefix : Text) (scope : Scope) (key : Text)
      → is_empty key ≡ false
      → Reason (hit entries now (canonical_rev_key matcher scope key))
      → Reason (unless_empty key (by_scope entries now prefix scope key))
  by_scope-Reason entries now prefix scope key n h =
      unless_empty-Reason key (by_scope entries now prefix scope key) n
        (label-Reason prefix (hit entries now (canonical_rev_key matcher scope key)) h)

  pub Covers-is_revoked :
      (entries : Cache) (now : ℕ) (scope : Scope) (key roe_id cap_id subject : Text)
      → Covers scope key roe_id cap_id subject
      → Reason (hit entries now (canonical_rev_key matcher scope key))
      → Reason (is_revoked matcher entries now roe_id cap_id subject)
  unfolding is_revoked
  Covers-is_revoked entries now scope key roe_id cap_id subject = answer scope
    where
      of_all : Option Text
      of_all = by_scope entries now (codes "global revocation: ") global []

      of_roe : Option Text
      of_roe = unless_empty roe_id (by_scope entries now (codes "RoE revocation: ") roe roe_id)

      of_capability : Option Text
      of_capability =
          unless_empty cap_id
            (by_scope entries now (codes "capability revocation: ") capability cap_id)

      of_target : Option Text
      of_target =
          unless_empty subject (by_scope entries now (codes "target revocation: ") target subject)

      answer :
          (scope : Scope)
          → Covers scope key roe_id cap_id subject
          → Reason (hit entries now (canonical_rev_key matcher scope key))
          → Reason (is_revoked matcher entries now roe_id cap_id subject)
      answer unspecified c h = cc
      answer global c h = first-Reason of_all of_roe of_capability of_target (
          label-Reason (codes "global revocation: ")
            (hit entries now (canonical_rev_key matcher global []))
            (subst (λ x. Reason (hit entries now (canonical_rev_key matcher global x))) c h))
      answer roe (c, n) h = second-Reason of_all of_roe of_capability of_target (
          by_scope-Reason entries now (codes "RoE revocation: ") roe roe_id n
            (subst (λ x. Reason (hit entries now (canonical_rev_key matcher roe x))) c h))
      answer capability (c, n) h = third-Reason of_all of_roe of_capability of_target (
          by_scope-Reason entries now (codes "capability revocation: ") capability cap_id n
            (subst (λ x. Reason (hit entries now (canonical_rev_key matcher capability x))) c h))
      answer target (c, n) h = last-Reason of_all of_roe of_capability of_target (
          by_scope-Reason entries now (codes "target revocation: ") target subject n
            (subst (λ x. Reason (hit entries now x)) c h))
