-- ===== src/Gatekeeper/Rbac/Duties.antt =====
-- rbac.go, `Grant` and `checkSoD`: an auditor holds no role that writes.
use aegisbastion.Common.{
  ℕ, ◌&&◌, ◌≡◌, ◌≢◌, refl, ◌⊎◌, inl, inr, true, false, List, [], ◌∷◌, Text, text_eq, text_eq_sound,
  text_eq_refl, is_empty_ne, In, any, any-false, member, member_iff, filter, arith, Bool-cases, sym,
  ◌∙◌, subst, ap, if◌then◌else◌, ok, filter-In, In-map,
}
use mathlib.Core.Bool.{true≢false}
use aegisbastion.Gatekeeper.Rbac.{
  Binding, Bindings, auditor, is_write_role, is_held, roles_of, check_sod, upsert, with_defaults,
  grant,
}

-- In no organisation does anyone hold the auditor's role and one that writes.
abbrev pub IsSeparated : ℕ → Bindings → Type 0
IsSeparated now bs =
    (org principal : Text) (b c : Binding)
    → org ≢ []
    → In b bs
    → In c bs
    → is_held now org principal b ≡ true
    → is_held now org principal c ≡ true
    → b.role ≡ auditor
    → is_write_role c.role ≡ false

auditor_reads : is_write_role auditor ≡ false
unfolding is_write_role member any text_eq
auditor_reads = refl

In-upsert : (b c : Binding) (bs : Bindings) → In c (upsert b bs) → (b ≡ c) ⊎ In c bs
unfolding upsert
In-upsert b c [] m = m
In-upsert b c (d ∷ bs) m =
    elim (Bool-cases
      (text_eq d.org_id b.org_id && text_eq d.principal b.principal && text_eq d.role b.role)) [
        | inl y ↦ (elim (subst (λ x. In c (if x then b ∷ bs else d ∷ upsert b bs)) y m) [
          | inl e ↦ inl e
          | inr n ↦ inr (inr n)
        ])
        | inr n ↦ (elim (subst (λ x. In c (if x then b ∷ bs else d ∷ upsert b bs)) n m) [
          | inl e ↦ inr (inl e)
          | inr k ↦ (elim (In-upsert b c bs k) [ inl e ↦ inl e | inr j ↦ inr (inr j) ])
        ])
      ]

-- What `checkSoD` has seen of the auditor's role.
check_sod-ok :
    (held : List Text) (kind role : Text)
    → check_sod held kind role ≡ ok tt
    → (text_eq role auditor ≡ true → any is_write_role held ≡ false)
      × (is_write_role role ≡ true → member auditor held ≡ false)
unfolding check_sod
check_sod-ok held kind role h = (λ r. ground arith, λ w. ground arith)

-- Who holds a grant in an organisation, and that its role is among those held.
is_held-owner :
    (now : ℕ) (org principal : Text) (b : Binding)
    → org ≢ []
    → is_held now org principal b ≡ true
    → (b.org_id ≡ org) × (b.principal ≡ principal)
unfolding is_held
is_held-owner now org principal b ne h = (
  text_eq_sound b.org_id org (ground (arith, is_empty_ne org ne)),
  text_eq_sound b.principal principal (ground arith),
)

held_role :
    (bs : Bindings) (now : ℕ) (org principal : Text) (b : Binding)
    → In b bs
    → is_held now org principal b ≡ true
    → In b.role (roles_of bs now org principal)
unfolding roles_of
held_role bs now org principal b m h =
    In-map (λ c. c.role) (filter (is_held now org principal) bs) b
      (filter-In (is_held now org principal) bs b m h)

-- What `grant` has done when it returns the bindings.
grant-ok :
    (day now : ℕ) (bs bs' : Bindings) (b : Binding)
    → grant day now bs b ≡ ok bs'
    → (check_sod
          (roles_of bs now b.org_id b.principal)
          (with_defaults day now b).principal_kind
          b.role
        ≡ ok tt)
      × (bs' ≡ upsert (with_defaults day now b) bs)
unfolding grant with_defaults
grant-ok day now bs bs' b h = (ground arith, ground arith)

with_defaults-role : (day now : ℕ) (b : Binding) → (with_defaults day now b).role ≡ b.role
unfolding with_defaults
with_defaults-role day now b = refl

with_defaults-owner :
    (day now : ℕ) (b : Binding)
    → ((with_defaults day now b).org_id ≡ b.org_id)
      × ((with_defaults day now b).principal ≡ b.principal)
unfolding with_defaults
with_defaults-owner day now b = (refl, refl)

-- A grant that is made keeps the auditor apart from the roles that write.
pub grant-IsSeparated :
    (day now : ℕ) (bs bs' : Bindings) (b : Binding)
    → IsSeparated now bs
    → grant day now bs b ≡ ok bs'
    → IsSeparated now bs'
grant-IsSeparated day now bs bs' b sep h org principal c d ne m n hc hd aud =
    let (sod, same) = grant-ok day now bs bs' b h in
    let (reads, apart) = check_sod-ok _ _ b.role sod in
    let role = with_defaults-role day now b in
    let new = with_defaults day now b in
    elim (In-upsert new c bs (subst (In c) same m)) [
      | inl ec ↦ (elim (In-upsert new d bs (subst (In d) same n)) [
        | inl ed ↦
            subst (λ r. is_write_role r ≡ false) (sym (ap (λ x. x.role) (sym ed ∙ ec) ∙ aud))
              auditor_reads
        | inr od ↦
            any-false is_write_role (roles_of bs now b.org_id b.principal) d.role
              (reads (
                subst (λ r. text_eq r auditor ≡ true) (sym (sym role ∙ ap (λ x. x.role) ec ∙ aud))
                  (text_eq_refl auditor)))
              (in_roles c (sym ec) hc d od hd)
      ])
      | inr oc ↦ (elim (In-upsert new d bs (subst (In d) same n)) [
        | inr od ↦ sep org principal c d ne oc od hc hd aud
        | inl ed ↦ (elim (Bool-cases (is_write_role d.role)) [
          | inr f ↦ f
          | inl y ↦ absurd (
              true≢false (
                sym (
                  (member_iff auditor (roles_of bs now b.org_id b.principal)).1 (
                    subst (λ r. In r (roles_of bs now b.org_id b.principal)) aud
                      (in_roles d (sym ed) hd c oc hc)))
                ∙ apart (subst (λ r. is_write_role r ≡ true) (sym (ap (λ x. x.role) ed) ∙ role) y)))
        ])
      ])
    ]
  where
    -- An old grant of the same holder is among the roles that the check has seen.
    in_roles :
        (x : Binding)
        → x ≡ with_defaults day now b
        → is_held now org principal x ≡ true
        → (y : Binding) → In y bs
        → is_held now org principal y ≡ true
        → In y.role (roles_of bs now b.org_id b.principal)
    in_roles x e hx y my hy =
        let (o, p) = is_held-owner now org principal x ne hx in
        let (o', p') = with_defaults-owner day now b in
        subst (λ k. In y.role (roles_of bs now k b.principal)) (sym o ∙ ap (λ z. z.org_id) e ∙ o')
          (subst (λ k. In y.role (roles_of bs now org k)) (sym p ∙ ap (λ z. z.principal) e ∙ p')
            (held_role bs now org principal y my hy))
