-- ===== src/Sdk/Guard/Halts.antt =====
-- guard.go and revocation.go together: what a revocation stops, and what an authorisation means.
use aegisbastion.Common.{
  Bool-cases, member, member_iff, ℕ, ◌+◌, ◌/◌, ◌≤◌, ◌≡◌, ◌⊎◌, refl, sym, ap, subst, ◌∙◌, true,
  false, List, [], ◌∷◌, ◌++◌, Option, none, some, Text, text_eq, All, In, arith, inl, inr, Result,
  ok, err, ◌>>◌, err≢ok, Result-cases,
}
use aegisbastion.Sdk.Types.{
  Error, revoked, Claims, Manifest, Matcher, valid_at, leeway, contains, evaluate_scope, or_raw,
}
use aegisbastion.Gatekeeper.Revocation.{Scope}
use aegisbastion.Sdk.Revocations.{Revocation, Cache, is_lapsed, is_unspecified, apply, is_revoked}
use aegisbastion.Sdk.Revocations.InForce.{
  Reason, Covers, key_of, apply_each, find-apply_each, find-apply_self, hit-Reason,
  Covers-is_revoked,
}
use aegisbastion.Sdk.Guard.{
  touched_event, Guard, Turn, Effect, first_capability, unless_revoked, is_quiet, deny_audit,
  check_target, check, wait, record_touch, authorize_target,
}

is_lapsed_mono :
    (end : Option ℕ) (now later : ℕ)
    → now ≤ later
    → is_lapsed end later ≡ false
    → is_lapsed end now ≡ false
is_lapsed_mono none now later le h = refl
is_lapsed_mono (some t) now later le h = ground arith

both-ok : (r next : Result Error (Unit {0})) → (r >> next) ≡ ok tt → (r ≡ ok tt) × (next ≡ ok tt)
both-ok (err e) next h = absurd (err≢ok h)
both-ok (ok done) next h = (refl, h)

In-last : (effects : List Effect) (e : Effect) → In e (effects ++ e ∷ [])
In-last [] e = inl refl
In-last (f ∷ effects) e = inr (In-last effects e)

module _ (matcher : Matcher) where
  Covers-specified :
      (scope : Scope) (key roe_id cap_id subject : Text)
      → Covers matcher scope key roe_id cap_id subject
      → is_unspecified scope ≡ false
  Covers-specified Scope.unspecified key roe_id cap_id subject c = cc
  Covers-specified Scope.global key roe_id cap_id subject c = refl
  Covers-specified Scope.roe key roe_id cap_id subject c = refl
  Covers-specified Scope.target key roe_id cap_id subject c = refl
  Covers-specified Scope.capability key roe_id cap_id subject c = refl

  authorize_target-revoked :
      (turn : Turn) (now : ℕ) (entries : Cache) (subject : Text) (g : Guard)
      → Reason (is_revoked matcher entries now g.claims.roe_id (first_capability g.claims) subject)
      → (reason : Text) × (authorize_target matcher turn now entries subject g
          ≡ (g, err (revoked reason)))
  unfolding authorize_target check deny_audit is_quiet
  authorize_target-revoked turn now entries subject g (r, e) =
      (r, rw (e, authorize_target, check) refl)

  -- A revocation that the cache takes stops the guard: until it lapses, and whatever events of other
  -- scopes or keys follow, each target that it covers is refused as revoked, and the guard is left as
  -- it was, with no contact recorded and no violation reported. A global one without a key covers all
  -- targets; the others cover by the RoE of the claims, their first capability, or the target's
  -- canonical form.
  pub apply-halts :
      (rev : Revocation) (now later : ℕ) (events : List (Revocation × ℕ)) (entries : Cache)
      (turn : Turn) (subject : Text) (g : Guard)
      → now ≤ later
      → is_lapsed rev.expires_at later ≡ false
      → Covers matcher rev.scope rev.key g.claims.roe_id (first_capability g.claims) subject
      → All (λ e. text_eq (key_of matcher e.0) (key_of matcher rev) ≡ false) events
      → (reason : Text) × (authorize_target matcher turn later
            (apply_each matcher events (apply matcher rev now entries))
            subject
            g
          ≡ (g, err (revoked reason)))
  apply-halts rev now later events entries turn subject g le holds covers others =
      let after = apply_each matcher events (apply matcher rev now entries) in
      let stored =
        find-apply_each matcher events (apply matcher rev now entries) (key_of matcher rev) others
        ∙ find-apply_self matcher rev now entries
            (Covers-specified rev.scope rev.key g.claims.roe_id (first_capability g.claims) subject
              covers)
            (is_lapsed_mono rev.expires_at now later le holds) in
      authorize_target-revoked turn later after subject g (
        Covers-is_revoked matcher after later rev.scope rev.key g.claims.roe_id
          (first_capability g.claims) subject covers
          (hit-Reason matcher after later (key_of matcher rev)
            (record { id = rev.revocation_id; expires_at = rev.expires_at; reason = rev.reason })
            stored holds))

  unless_revoked-ok : (o : Option Text) → unless_revoked o ≡ ok tt → o ≡ none
  unless_revoked-ok none h = refl
  unless_revoked-ok (some r) h = absurd (err≢ok h)

  -- The target passes in the form of the manifest that the token is bound to.
  abbrev pub Permitted : Claims → Manifest → Text → Type 0
  Permitted c m target =
      ((c.scope_bound ≡ true) × ((evaluate_scope matcher m target).allowed ≡ true))
      ⊎ ((c.scope_bound ≡ false) × (contains matcher m target ≡ true))

  check_target-ok :
      (c : Claims) (m : Manifest) (target : Text)
      → check_target matcher c m target ≡ ok tt
      → Permitted c m target
  unfolding check_target
  check_target-ok c m target h = ground arith

  valid_at-ok :
      (c : Claims) (now : ℕ)
      → valid_at c now ≡ ok tt
      → (now / 1000000000 ≤ c.expires_at + leeway) × (c.not_before ≤ now / 1000000000 + leeway)
  unfolding valid_at
  valid_at-ok c now h = ground arith

  check-ok :
      (turn : Turn) (now : ℕ) (entries : Cache) (subject : Text) (g : Guard)
      → check matcher turn now entries subject g ≡ ok tt
      → (unless_revoked
            (is_revoked matcher entries now g.claims.roe_id (first_capability g.claims) subject)
          ≡ ok tt)
        × (valid_at g.claims now ≡ ok tt)
        × (check_target matcher g.claims g.manifest subject ≡ ok tt)
        × (wait g.rps turn ≡ ok tt)
  unfolding check
  check-ok turn now entries subject g h =
      let (revocation, h') =
        both-ok
          (unless_revoked
            (is_revoked matcher entries now g.claims.roe_id (first_capability g.claims) subject))
          (valid_at g.claims now
            >> (check_target matcher g.claims g.manifest subject >> wait g.rps turn))
          h in
      let (bounds, h'') =
        both-ok (valid_at g.claims now)
          (check_target matcher g.claims g.manifest subject >> wait g.rps turn) h' in
      let (target, paced) =
        both-ok (check_target matcher g.claims g.manifest subject) (wait g.rps turn) h'' in
      (revocation, bounds, target, paced)

  touch-touched_set :
      (turn : Turn) (subject : Text) (g : Guard)
      → In
          (or_raw subject (matcher.canonicalize subject))
          (record_touch matcher turn subject g).touched_set
  unfolding record_touch
  touch-touched_set turn subject g =
      elim (Bool-cases (member (or_raw subject (matcher.canonicalize subject)) g.touched_set)) [
        | inl y ↦
            rw (y, record_touch)
              ((member_iff (or_raw subject (matcher.canonicalize subject)) g.touched_set).0 y)
        | inr n ↦ rw (n, record_touch) (inl refl)
      ]

  touch-effects :
      (turn : Turn) (subject : Text) (g : Guard)
      → turn.emits ≡ true
      → In
          (touched_event (or_raw subject (matcher.canonicalize subject)) g)
          (record_touch matcher turn subject g).effects
  unfolding record_touch
  touch-effects turn subject g emits =
      rw (emits, record_touch)
        (In-last g.effects (touched_event (or_raw subject (matcher.canonicalize subject)) g))

  -- A target that the guard lets through is under no revocation of the cache that is in force, for all,
  -- the RoE, the token's first capability or the target; the time is within the token's bounds, with
  -- a minute of leeway; and the manifest permits it in the form that the token is bound to. The
  -- target is then among the touched, in its canonical form, and where the audit record of the call is
  -- made and the emitter takes it, it is reported by a TARGET_TOUCHED with that form and the token's
  -- id, unless the extras of the task write over these.
  pub authorize_target-allowed :
      (turn : Turn) (now : ℕ) (entries : Cache) (subject : Text) (g g' : Guard)
      → authorize_target matcher turn now entries subject g ≡ (g', ok tt)
      → (is_revoked matcher entries now g.claims.roe_id (first_capability g.claims) subject ≡ none)
        × (now / 1000000000 ≤ g.claims.expires_at + leeway)
        × (g.claims.not_before ≤ now / 1000000000 + leeway)
        × Permitted g.claims g.manifest subject
        × In (or_raw subject (matcher.canonicalize subject)) g'.touched_set
        × (turn.emits ≡ true
            → In (touched_event (or_raw subject (matcher.canonicalize subject)) g) g'.effects)
  unfolding authorize_target check
  authorize_target-allowed turn now entries subject g g' h =
      elim (Result-cases (check matcher turn now entries subject g)) [
        | inl (e, f) ↦
            let denied : authorize_target matcher turn now entries subject g
                ≡ (deny_audit turn subject e g, err e) =
              rw (f, authorize_target) refl in
            absurd (err≢ok (ap (λ r. r.1) (sym denied ∙ h)))
        | inr (v, f) ↦
            let passed : authorize_target matcher turn now entries subject g
                ≡ (record_touch matcher turn subject g, ok tt) =
              rw (f, authorize_target) refl in
            let same : g' ≡ record_touch matcher turn subject g = ap (λ r. r.0) (sym h ∙ passed) in
            let (none_holds, bounds, target, _) = check-ok turn now entries subject g f in
            let (late, early) = valid_at-ok g.claims now bounds in
            (
              unless_revoked-ok
                  (is_revoked matcher entries now g.claims.roe_id (first_capability g.claims)
                    subject)
                  none_holds,
              late,
              early,
              check_target-ok g.claims g.manifest subject target,
              subst (λ x. In (or_raw subject (matcher.canonicalize subject)) x.touched_set)
                  (sym same) (touch-touched_set turn subject g),
              λ emits.
                  subst
                    (λ x.
                      In (touched_event (or_raw subject (matcher.canonicalize subject)) g)
                        x.effects)
                    (sym same) (touch-effects turn subject g emits),
            )
      ]
