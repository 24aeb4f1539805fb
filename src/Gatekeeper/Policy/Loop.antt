-- ===== src/Gatekeeper/Policy/Loop.antt =====
-- policy.go, the loop of `Authorize`: the first step that does not pass decides.
use aegisbastion.Common.{
  ◌≡◌, refl, ◌⊎◌, inl, inr, List, [], ◌∷◌, ◌++◌, Option, none, some, Option-cases, arith, sym, ◌∙◌,
  ap, subst, none≢some,
}
use aegisbastion.Gatekeeper.Types.{DenyReason}
use aegisbastion.Gatekeeper.Policy.{Eval, Step, run_steps}

-- A step passes: no reason, and no dependency that failed.
abbrev pub Passes : Step → Eval → Type 0
Passes s e = ((s e).1 ≡ none) × ((s e).0.failed ≡ none)

-- A step stops the pipeline with a code.
abbrev pub Stops : Step → Eval → DenyReason → Type 0
Stops s e code = ((s e).1 ≡ some code) ⊎ (((s e).1 ≡ none) × ((s e).0.failed ≡ some code))

-- All of the steps pass, from one state to another.
pub data Through : List Step → Eval → Eval → Type 0 where
  done : {e : Eval} → Through [] e e
  next :
      {s : Step} {ss : List Step} {e f : Eval}
      → Passes s e
      → Through ss (s e).0 f
      → Through (s ∷ ss) e f

pub run_steps-Passes :
    (s : Step) (ss : List Step) (e : Eval)
    → Passes s e
    → run_steps (s ∷ ss) e ≡ run_steps ss (s e).0
unfolding run_steps
run_steps-Passes s ss e p = ground arith

pub run_steps-Stops :
    (s : Step) (ss : List Step) (e : Eval) (code : DenyReason)
    → Stops s e code
    → run_steps (s ∷ ss) e ≡ ((s e).0, some code)
unfolding run_steps
run_steps-Stops s ss e code p = ground arith

Step-cases : (s : Step) (e : Eval) → Passes s e ⊎ ((code : DenyReason) × Stops s e code)
Step-cases s e = elim (Option-cases (s e).1) [
  | inr (code, h) ↦ inr (code, inl h)
  | inl h ↦ elim (Option-cases (s e).0.failed) [
    | inl k ↦ inl (h, k)
    | inr (code, k) ↦ inr (code, inr (h, k))
  ]
]

-- What the loop returns: all steps pass, or a step stops it after those before it have passed.
abbrev pub Decided : List Step → Eval → Eval × Option DenyReason → Type 0
Decided ss e r =
    ((r.1 ≡ none) × Through ss e r.0)
    ⊎ ((before : List Step) × (s : Step) × (behind : List Step) × (f : Eval) × (code : DenyReason)
        × (ss ≡ before ++ s ∷ behind)
        × Through before e f
        × Stops s f code
        × (r ≡ ((s f).0, some code)))

-- The first step that does not pass decides, and with none all have passed.
pub run_steps-Decided : (ss : List Step) (e : Eval) → Decided ss e (run_steps ss e)
run_steps-Decided [] e = unfold run_steps in inl (refl, done)
run_steps-Decided (s ∷ ss) e = elim (Step-cases s e) [
  | inr (code, stop) ↦ inr ([], s, ss, e, code, refl, done, stop, run_steps-Stops s ss e code stop)
  | inl p ↦ elim (run_steps-Decided ss (s e).0) [
    | inl (h, t) ↦ subst (Decided (s ∷ ss) e) (sym (run_steps-Passes s ss e p)) (inl (h, next p t))
    | inr (before, s', behind, f, code, split, t, stop, h) ↦ inr (
      s ∷ before,
      s',
      behind,
      f,
      code,
      ap (◌∷◌ s) split,
      next p t,
      stop,
      run_steps-Passes s ss e p ∙ h,
    )
  ]
]

-- An outcome without a reason passes the first step and leaves the rest to do so.
pub run_steps-none :
    (s : Step) (ss : List Step) (e : Eval)
    → (run_steps (s ∷ ss) e).1 ≡ none
    → Passes s e × ((run_steps ss (s e).0).1 ≡ none)
run_steps-none s ss e h = elim (Step-cases s e) [
  | inl p ↦ (p, ap (λ r. r.1) (sym (run_steps-Passes s ss e p)) ∙ h)
  | inr (code, stop) ↦ absurd (none≢some (sym h ∙ ap (λ r. r.1) (run_steps-Stops s ss e code stop)))
]
