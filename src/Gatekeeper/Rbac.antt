-- ===== src/Gatekeeper/Rbac.antt =====
-- services/gatekeeper/internal/rbac/rbac.go: role grants and segregation of duties. The table
-- rbac_bindings is a list with one row for each (org, principal, role); the roles' permissions,
-- which the migrations seed, are a parameter. Times are numbers, and a time that is not set is 0.
pub mod Duties
use aegisbastion.Common.{
  ℕ, ◌+◌, ◌*◌, ◌≡◌, ◌&&◌, ◌||◌, Bool, true, false, not, List, [], ◌∷◌, Option, none, some, Text,
  codes, text_eq, has_prefix, contains_any, member, is_empty, any, filter, map, if◌then◌else◌, ltb,
  ◌==◌, Result, ok, err, ◌>>=◌, ◌>>◌, reject_if,
}

pub data Error : Type 0 where
  missing_field bad_kind no_granter sod_violation no_rows lacks_permission store_unavailable : Error

abbrev pub platform_admin : Text
platform_admin = codes "platform-admin"

abbrev pub grc_verifier : Text
grc_verifier = codes "grc-verifier"

abbrev pub roe_author : Text
roe_author = codes "roe-author"

abbrev pub offensive_approver : Text
offensive_approver = codes "offensive-approver"

abbrev pub commander_svc : Text
commander_svc = codes "commander-svc"

abbrev pub module_svc : Text
module_svc = codes "module-svc"

abbrev pub auditor : Text
auditor = codes "auditor"

abbrev pub operator : Text
operator = codes "operator"

abbrev pub human : Text
human = codes "human"

abbrev pub service : Text
service = codes "service"

unfoldable pub is_write_role : Text → Bool
is_write_role role = member role (
    platform_admin ∷ grc_verifier ∷ roe_author ∷ offensive_approver ∷ commander_svc ∷ module_svc
    ∷ operator ∷ [])

unfoldable pub is_approval_role : Text → Bool
is_approval_role role = member role (grc_verifier ∷ offensive_approver ∷ [])

pub record Binding : Type 0 where
  pub org_id : Text
  pub principal : Text
  pub principal_kind : Text
  pub role : Text
  pub granted_by : Text
  pub granted_at : ℕ
  pub expires_at : ℕ
  pub revoked_at : Option ℕ

abbrev pub Bindings : Type 0
Bindings = List Binding

-- `revoked_at IS NULL AND expires_at > now()`.
unfoldable pub is_active : ℕ → Binding → Bool
is_active now b = elim b.revoked_at [ none ↦ ltb now b.expires_at | some t ↦ false ]

-- `principal = $1 AND ($2 = '' OR org_id = $2)`, of an active grant.
unfoldable pub is_held : ℕ → Text → Text → Binding → Bool
unfolding is_active
is_held now org principal b =
    text_eq b.principal principal && is_active now b && (is_empty org || text_eq b.org_id org)

unfoldable pub has_role : Bindings → ℕ → Text → Text → Text → Bool
has_role bs now org principal role =
    any (λ b. is_held now org principal b && text_eq b.role role) bs

unfoldable pub roles_of : Bindings → ℕ → Text → Text → List Text
roles_of bs now org principal = map (λ b. b.role) (filter (is_held now org principal) bs)

-- `checkSoD`; `held` is what `RolesOf` returns.
unfoldable pub check_sod : List Text → Text → Text → Result Error (Unit {0})
check_sod held kind role = do
  reject_if (text_eq kind service && is_approval_role role) sod_violation
  reject_if (text_eq kind human && (text_eq role offensive_approver && member roe_author held))
      sod_violation
  reject_if (text_eq kind human && (text_eq role roe_author && member offensive_approver held))
      sod_violation
  reject_if (text_eq role auditor && any is_write_role held) sod_violation
  reject_if (is_write_role role && member auditor held) sod_violation

-- `INSERT … ON CONFLICT (org_id, principal, role) DO UPDATE`.
unfoldable pub upsert : Binding → Bindings → Bindings
upsert b [] = b ∷ []
upsert b (c ∷ bs) =
    if text_eq c.org_id b.org_id && text_eq c.principal b.principal && text_eq c.role b.role
    then b ∷ bs
    else c ∷ upsert b bs

-- 90 days, in the unit of the clock that is given.
abbrev pub default_term : ℕ → ℕ
default_term day = 90 * day

-- The defaults that `Grant` fills in.
unfoldable pub with_defaults : ℕ → ℕ → Binding → Binding
with_defaults day now b = record b {
  principal_kind = if is_empty b.principal_kind then human else b.principal_kind;
  expires_at = if b.expires_at == 0 then now + default_term day else b.expires_at;
  granted_at = now;
  revoked_at = none;
}

unfoldable pub grant : ℕ → ℕ → Bindings → Binding → Result Error Bindings
grant day now bs b0 =
    let b = with_defaults day now b0 in
    do
      reject_if (is_empty b.principal || is_empty b.role || is_empty b.org_id) missing_field
      reject_if (not (text_eq b.principal_kind human || text_eq b.principal_kind service)) bad_kind
      reject_if (is_empty b.granted_by) no_granter
      check_sod (roles_of bs now b.org_id b.principal) b.principal_kind b.role
      ok (upsert b bs)

unfoldable pub names : Text → Text → Text → Binding → Bool
names org principal role b =
    text_eq b.org_id org && text_eq b.principal principal && text_eq b.role role

-- `revoked_at IS NULL` on the row that is named.
unfoldable pub is_open : Text → Text → Text → Binding → Bool
unfolding names
is_open org principal role b = elim b.revoked_at [
  | none ↦ names org principal role b
  | some t ↦ false
]

unfoldable pub revoke : ℕ → Bindings → Text → Text → Text → Result Error Bindings
revoke now bs org principal role =
    if any (is_open org principal role) bs
    then ok (
        map (λ b. if is_open org principal role b then record b { revoked_at = some now } else b)
          bs)
    else err no_rows

module _ (permissions : Text → List Text) where
  unfoldable pub has_permission : Bindings → ℕ → Text → Text → Text → Bool
  has_permission bs now org principal permission =
      any
        (λ b.
          is_held now org principal b
          && (member permission (permissions b.role) || member (codes "*:*") (permissions b.role)))
        bs

  unfoldable pub require_permission : Bindings → ℕ → Text → Text → Text → Result Error (Unit {0})
  require_permission bs now org principal permission =
      reject_if (not (has_permission bs now org principal permission)) lacks_permission

-- `PrincipalKindOf`.
unfoldable pub principal_kind_of : Text → Text
principal_kind_of id =
    if contains_any id (codes "@") || has_prefix id (codes "user_") then human else service
