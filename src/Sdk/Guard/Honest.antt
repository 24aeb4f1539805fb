-- ===== src/Sdk/Guard/Honest.antt =====
-- guard.go: what a guard keeps over its life.
use aegisbastion.Common.{
  if◌then◌else◌, All, find, codes, ◌||◌, ℕ, ◌≡◌, ◌↔◌, ◌⊎◌, refl, sym, ap, subst, ◌∙◌, Bool, true,
  false, not, List, [], ◌∷◌, ◌++◌, Option, none, some, Text, text_eq, text_eq_sound, is_empty,
  member, member_iff, ◌&&◌, In, inl, inr, arith, Bool-cases, Result, ok, err, bind-ok, reject_if-ok,
  err≢ok, ok-inj, Result-cases,
}
use aegisbastion.Sdk.Types.{Error, Claims, Manifest, Matcher, permits, is_scope_bound, or_raw}
use aegisbastion.Sdk.Revocations.{Revocation, Cache, apply, replace}
use aegisbastion.Sdk.Guard.{
  touched_event, field, Guard, Turn, Effect, target_touched, scope_violation, given, differ,
  new_guard, update, is_quiet, deny_audit, check, record_touch, authorize_target,
}

-- What reaches a guard and the cache of its agent.
pub data Call : Type 0 where
  authorizes : Turn → ℕ → Text → Call
  updates : Option Claims → Option Manifest → Call
  applies : Revocation → ℕ → Call
  replaces : List Revocation → ℕ → Call

abbrev pub or_same : Guard → Result Error Guard → Guard
or_same g (err e) = g
or_same g (ok g') = g'

-- The targets of the TARGET_TOUCHED records.
abbrev pub audited : List Effect → List Text
audited [] = []
audited (target_touched t id ∷ effects) = t ∷ audited effects
audited (scope_violation t id e ∷ effects) = audited effects

abbrev pub IsDistinct : List Text → Type 0
IsDistinct [] = Unit {0}
IsDistinct (t ∷ ts) = (¬ In t ts) × IsDistinct ts

-- The guard serves the task, its manifest has the form that its claims are bound to, and what it has
-- touched, each once, has all that it has reported; where all its records were taken, it has reported
-- all of it.
abbrev pub IsHonest : Text → Bool → Guard → Type 0
IsHonest task all_taken g =
    (g.claims.task_id ≡ task)
    × (g.claims.scope_bound ≡ is_scope_bound g.manifest)
    × IsDistinct g.touched
    × ((t : Text) → In t g.touched ↔ In t g.touched_set)
    × ((t : Text) → In t (audited g.effects) → In t g.touched)
    × (all_taken ≡ true → (t : Text) → In t g.touched → In t (audited g.effects))

-- The record of the call, if it makes one, is made and taken.
abbrev pub IsTaken : Call → Type 0
IsTaken (authorizes turn now target) = turn.emits ≡ true
IsTaken (updates token document) = Unit {0}
IsTaken (applies rev now) = Unit {0}
IsTaken (replaces revs now) = Unit {0}

-- The extras of the task do not write over the target.
abbrev pub KeepsTarget : List (Text × Text) → Type 0
KeepsTarget extra = find (codes "target") extra ≡ none

differ-same : (b c : Bool) → differ b c ≡ false → b ≡ c
differ-same true c h = ground arith
differ-same false c h = sym h

In-snoc : (xs : List Text) (y a : Text) → In a (xs ++ y ∷ []) ↔ (In a xs ⊎ (y ≡ a))
In-snoc xs y a = (fore xs, back xs)
  where
    fore : (xs : List Text) → In a (xs ++ y ∷ []) → In a xs ⊎ (y ≡ a)
    fore [] (inl e) = inr e
    fore [] (inr m) = absurd m
    fore (x ∷ xs) (inl e) = inl (inl e)
    fore (x ∷ xs) (inr m) = elim (fore xs m) [ inl n ↦ inl (inr n) | inr e ↦ inr e ]

    back : (xs : List Text) → In a xs ⊎ (y ≡ a) → In a (xs ++ y ∷ [])
    back [] (inl m) = absurd m
    back [] (inr e) = inl e
    back (x ∷ xs) (inl (inl e)) = inl e
    back (x ∷ xs) (inl (inr m)) = inr (back xs (inl m))
    back (x ∷ xs) (inr e) = inr (back xs (inr e))

snoc-IsDistinct :
    (xs : List Text) (y : Text) → ¬ In y xs → IsDistinct xs → IsDistinct (xs ++ y ∷ [])
snoc-IsDistinct [] y n d = ((λ m. m), tt)
snoc-IsDistinct (x ∷ xs) y n (new, d) = (
  (λ m. elim ((In-snoc xs y x).0 m) [ inl i ↦ new i | inr e ↦ n (inl (sym e)) ]),
  snoc-IsDistinct xs y (λ m. n (inr m)) d,
)

audited-touch :
    (effects : List Effect) (t id : Text)
    → audited (effects ++ target_touched t id ∷ []) ≡ audited effects ++ t ∷ []
audited-touch [] t id = refl
audited-touch (target_touched u i ∷ effects) t id = ap (λ l. u ∷ l) (audited-touch effects t id)
audited-touch (scope_violation u i e ∷ effects) t id = audited-touch effects t id

audited-violation :
    (effects : List Effect) (t id : Text) (e : Error)
    → audited (effects ++ scope_violation t id e ∷ []) ≡ audited effects
audited-violation [] t id e = refl
audited-violation (target_touched u i ∷ effects) t id e =
    ap (λ l. u ∷ l) (audited-violation effects t id e)
audited-violation (scope_violation u i f ∷ effects) t id e = audited-violation effects t id e

deny_audit-IsHonest :
    (task target : Text) (all_taken : Bool) (turn : Turn) (e : Error) (g : Guard)
    → IsHonest task all_taken g
    → IsHonest task all_taken (deny_audit turn target e g)
unfolding deny_audit
deny_audit-IsHonest task target all_taken turn e g (same, form, distinct, known, told, tells) =
    elim (Bool-cases (is_quiet e || not turn.emits)) [
      | inl y ↦ rw (y, deny_audit) (same, form, distinct, known, told, tells)
      | inr n ↦
          rw (n, deny_audit)
            (
              same,
              form,
              distinct,
              known,
              (λ t. rw (audited-violation g.effects target g.claims.id e) (told t)),
              (λ a t. rw (audited-violation g.effects target g.claims.id e) (tells a t)),
            )
    ]

-- The effects after a contact.
abbrev reported : Turn → Text → Guard → List Effect
reported turn canonical g =
    if turn.emits then g.effects ++ touched_event canonical g ∷ [] else g.effects

kept_target :
    (extra : List (Text × Text)) (value : Text)
    → KeepsTarget extra
    → field extra (codes "target") value ≡ value
kept_target extra value keeps = rw (keeps, field) refl

audited-reported :
    (turn : Turn) (canonical : Text) (g : Guard)
    → KeepsTarget g.extra
    → audited (reported turn canonical g)
      ≡ (if turn.emits then audited g.effects ++ canonical ∷ [] else audited g.effects)
unfolding touched_event
audited-reported turn canonical g keeps = elim (Bool-cases turn.emits) [
  | inl y ↦ rw y (
      audited-touch g.effects (field g.extra (codes "target") canonical)
        (field g.extra (codes "token_jti") g.claims.id)
      ∙ ap (λ t. audited g.effects ++ t ∷ []) (kept_target g.extra canonical keeps))
  | inr n ↦ rw n refl
]

-- What is reported after a contact is what was, or the target.
reported-inv :
    (turn : Turn) (canonical : Text) (g : Guard) (t : Text)
    → KeepsTarget g.extra
    → In t (audited (reported turn canonical g))
    → In t (audited g.effects) ⊎ (canonical ≡ t)
reported-inv turn canonical g t keeps m = elim (Bool-cases turn.emits) [
  | inl y ↦
      (In-snoc (audited g.effects) canonical t).0
        (rw y at (subst (λ l. In t l) (audited-reported turn canonical g keeps) m))
  | inr n ↦ inl (rw n at (subst (λ l. In t l) (audited-reported turn canonical g keeps) m))
]

reported-In :
    (turn : Turn) (canonical : Text) (g : Guard) (t : Text)
    → KeepsTarget g.extra
    → turn.emits ≡ true
    → In t (audited g.effects) ⊎ (canonical ≡ t)
    → In t (audited (reported turn canonical g))
reported-In turn canonical g t keeps emits m =
    subst (λ l. In t l) (sym (audited-reported turn canonical g keeps ∙ rw emits refl))
      ((In-snoc (audited g.effects) canonical t).1 m)

module _ (matcher : Matcher) where
  record_touch-IsHonest :
      (task target : Text) (all_taken : Bool) (turn : Turn) (g : Guard)
      → KeepsTarget g.extra
      → (all_taken ≡ true → turn.emits ≡ true)
      → IsHonest task all_taken g
      → IsHonest task all_taken (record_touch matcher turn target g)
  unfolding record_touch
  record_touch-IsHonest task target all_taken turn g keeps emits
        (same, form, distinct, known, told, tells) =
      elim (Bool-cases (member canonical g.touched_set)) [ inl y ↦ again y | inr n ↦ first n ]
    where
      canonical : Text
      canonical = or_raw target (matcher.canonicalize target)

      again :
          member canonical g.touched_set ≡ true
          → IsHonest task all_taken (record_touch matcher turn target g)
      again y =
          let held : In canonical g.touched =
            (known canonical).1 ((member_iff canonical g.touched_set).0 y) in
          rw (y, record_touch)
            (
              same,
              form,
              distinct,
              known,
              (λ t m. elim (reported-inv turn canonical g t keeps m) [
                | inl i ↦ told t i
                | inr e ↦ subst (λ x. In x g.touched) e held
              ]),
              (λ a t m. reported-In turn canonical g t keeps (emits a) (inl (tells a t m))),
            )

      first :
          member canonical g.touched_set ≡ false
          → IsHonest task all_taken (record_touch matcher turn target g)
      first n =
          let new : ¬ In canonical g.touched = (λ m.
            true_false
              (sym ((member_iff canonical g.touched_set).1 ((known canonical).0 m)) ∙ n)) in
          rw (n, record_touch)
            (
              same,
              form,
              snoc-IsDistinct g.touched canonical new distinct,
              (λ t. (
                (λ m. elim ((In-snoc g.touched canonical t).0 m) [
                  | inl i ↦ inr ((known t).0 i)
                  | inr e ↦ inl e
                ]),
                (λ m. elim m [
                  | inl e ↦ (In-snoc g.touched canonical t).1 (inr e)
                  | inr i ↦ (In-snoc g.touched canonical t).1 (inl ((known t).1 i))
                ]),
              )),
              (λ t m. elim (reported-inv turn canonical g t keeps m) [
                | inl i ↦ (In-snoc g.touched canonical t).1 (inl (told t i))
                | inr e ↦ (In-snoc g.touched canonical t).1 (inr e)
              ]),
              (λ a t m.
                  reported-In turn canonical g t keeps (emits a)
                    (elim ((In-snoc g.touched canonical t).0 m) [
                      | inl i ↦ inl (tells a t i)
                      | inr e ↦ inr e
                    ])),
            )
        where
          true_false : true ≡ false → ⊥
          true_false e = cc

  -- The extras are those of the task for good.
  kept_extra :
      (turn : Turn) (now : ℕ) (entries : Cache) (target : Text) (g : Guard)
      → (authorize_target matcher turn now entries target g).0.extra ≡ g.extra
  unfolding authorize_target record_touch deny_audit
  kept_extra turn now entries target g =
      elim (Result-cases (check matcher turn now entries target g)) [
        | inl (e, f) ↦
            rw (f, authorize_target)
              (elim (Bool-cases (is_quiet e || not turn.emits)) [
                | inl y ↦ rw (y, deny_audit) refl
                | inr n ↦ rw (n, deny_audit) refl
              ])
        | inr (v, f) ↦ rw (f, authorize_target) refl
      ]

  authorize_target-IsHonest :
      (task target : Text) (all_taken : Bool) (turn : Turn) (now : ℕ) (entries : Cache) (g : Guard)
      → KeepsTarget g.extra
      → (all_taken ≡ true → turn.emits ≡ true)
      → IsHonest task all_taken g
      → IsHonest task all_taken (authorize_target matcher turn now entries target g).0
  unfolding authorize_target
  authorize_target-IsHonest task target all_taken turn now entries g keeps emits h =
      elim (Result-cases (check matcher turn now entries target g)) [
        | inl (e, f) ↦
            rw (f, authorize_target) (deny_audit-IsHonest task target all_taken turn e g h)
        | inr (v, f) ↦
            rw (f, authorize_target)
              (record_touch-IsHonest task target all_taken turn g keeps emits h)
      ]

  given-ok : {A : Type 0} (o : Option A) (a : A) → given o ≡ ok a → o ≡ some a
  given-ok none a h = absurd (err≢ok h)
  given-ok (some b) a h = cc

  new_guard-IsHonest :
      (token : Option Claims) (document : Option Manifest) (task cap_id : Text)
      (extra : List (Text × Text)) (all_taken : Bool) (g : Guard)
      → new_guard token document task cap_id extra ≡ ok g
      → IsHonest task all_taken g × (g.extra ≡ extra)
  unfolding new_guard
  new_guard-IsHonest token document task cap_id extra all_taken g h =
      let (claims, _, h1) = bind-ok (given token) _ h in
      let (manifest, _, h2) = bind-ok (given document) _ h1 in
      let (bound, h3) = reject_if-ok (not (text_eq claims.task_id task)) _ _ h2 in
      let (_, h4) = reject_if-ok (not (is_empty cap_id) && not (permits claims cap_id)) _ _ h3 in
      let (form, h5) = reject_if-ok (differ claims.scope_bound (is_scope_bound manifest)) _ _ h4 in
      subst (λ x. IsHonest task all_taken x × (x.extra ≡ extra)) (ok-inj refl h5)
        (
          (
            text_eq_sound claims.task_id task (ground (arith, bound)),
            differ-same claims.scope_bound (is_scope_bound manifest) form,
            tt,
            (λ t. ((λ m. m), (λ m. m))),
            (λ t m. m),
            (λ a t m. m),
          ),
          refl,
        )

  update-IsHonest :
      (task : Text) (all_taken : Bool) (token : Option Claims) (document : Option Manifest)
      (g : Guard)
      → IsHonest task all_taken g
      → IsHonest task all_taken (or_same g (update token document g))
        × ((or_same g (update token document g)).extra ≡ g.extra)
  unfolding update
  update-IsHonest task all_taken token document g (same, shape, distinct, known, told, tells) =
      elim (Result-cases (update token document g)) [
        | inl (e, f) ↦ rw f ((same, shape, distinct, known, told, tells), refl)
        | inr (g', f) ↦
            let (claims, _, h1) = bind-ok (given token) _ f in
            let (manifest, _, h2) = bind-ok (given document) _ h1 in
            let (bound, h3) = reject_if-ok (not (text_eq claims.task_id g.claims.task_id)) _ _ h2 in
            let (form, h4) =
              reject_if-ok (differ claims.scope_bound (is_scope_bound manifest)) _ _ h3 in
            rw f (
              subst (λ x. IsHonest task all_taken x × (x.extra ≡ g.extra)) (ok-inj refl h4)
                (
                  (
                    text_eq_sound claims.task_id g.claims.task_id (ground (arith, bound)) ∙ same,
                    differ-same claims.scope_bound (is_scope_bound manifest) form,
                    distinct,
                    known,
                    told,
                    tells,
                  ),
                  refl,
                ))
      ]

  -- The guard after a sequence of calls.
  unfoldable pub run : List Call → Cache → Guard → Guard
  run [] entries g = g
  run (authorizes turn now target ∷ calls) entries g =
      run calls entries (authorize_target matcher turn now entries target g).0
  run (updates token document ∷ calls) entries g =
      run calls entries (or_same g (update token document g))
  run (applies rev now ∷ calls) entries g = run calls (apply matcher rev now entries) g
  run (replaces revs now ∷ calls) entries g = run calls (replace matcher revs now) g

  after-IsHonest :
      (task : Text) (all_taken : Bool) (calls : List Call) (entries : Cache) (g : Guard)
      → KeepsTarget g.extra
      → (all_taken ≡ true → All IsTaken calls)
      → IsHonest task all_taken g
      → IsHonest task all_taken (run calls entries g)
  unfolding run
  after-IsHonest task all_taken [] entries g keeps taken h = h
  after-IsHonest task all_taken (authorizes turn now target ∷ calls) entries g keeps taken h =
      after-IsHonest task all_taken calls entries
        (authorize_target matcher turn now entries target g).0
        (subst KeepsTarget (sym (kept_extra turn now entries target g)) keeps) (λ a. (taken a).1)
        (authorize_target-IsHonest task target all_taken turn now entries g keeps (λ a. (taken a).0)
          h)
  after-IsHonest task all_taken (updates token document ∷ calls) entries g keeps taken h =
      let (h', same) = update-IsHonest task all_taken token document g h in
      after-IsHonest task all_taken calls entries (or_same g (update token document g))
        (subst KeepsTarget (sym same) keeps) (λ a. (taken a).1) h'
  after-IsHonest task all_taken (applies rev now ∷ calls) entries g keeps taken h =
      after-IsHonest task all_taken calls (apply matcher rev now entries) g keeps (λ a. (taken a).1)
        h
  after-IsHonest task all_taken (replaces revs now ∷ calls) entries g keeps taken h =
      after-IsHonest task all_taken calls (replace matcher revs now) g keeps (λ a. (taken a).1) h

  -- A guard that is made for a task stays honest through all calls for targets, successor tokens,
  -- events and snapshots of revocations: it serves that task only, its manifest has the form that its
  -- claims are bound to, and the targets that it says it has touched, each once, are those of the set
  -- that it keeps, and all that it has reported are among them. Where the record of each call for a
  -- target is made and taken, it has reported all of them. The extras of the task must not write
  -- over the target of a record.
  pub run-IsHonest :
      (token : Option Claims) (document : Option Manifest) (task cap_id : Text)
      (extra : List (Text × Text)) (g : Guard) (calls : List Call) (entries : Cache)
      (all_taken : Bool)
      → new_guard token document task cap_id extra ≡ ok g
      → KeepsTarget extra
      → (all_taken ≡ true → All IsTaken calls)
      → IsHonest task all_taken (run calls entries g)
  run-IsHonest token document task cap_id extra g calls entries all_taken h keeps taken =
      let (honest, same) = new_guard-IsHonest token document task cap_id extra all_taken g h in
      after-IsHonest task all_taken calls entries g (subst KeepsTarget (sym same) keeps) taken
        honest
