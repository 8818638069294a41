-- ===== src/Permissions.antt =====
-- Capabilities of roles: apps/api/src/common/permissions, apps/api/src/common/guards and the web
-- client's own table, apps/web/src/auth/permissions.ts.
use expenseflow.Common.{
  ◌≡◌, ◌↔◌, ℕ, List, [], ◌∷◌, Bool, true, false, ◌==◌, any, all, Option, none, some, Eq, eqb, arith,
  In, inl, inr, refl, sym, subst,
}
use expenseflow.Schema.{Role, role_eq}

pub data Permission : Type 0 where
  expense_read expense_create expense_submit receipt_manage approval_review : Permission
  policy_read policy_manage audit_read report_read user_read operations_read : Permission

abbrev pub permission_index : Permission → ℕ
permission_index Permission.expense_read = 0
permission_index Permission.expense_create = 1
permission_index Permission.expense_submit = 2
permission_index Permission.receipt_manage = 3
permission_index Permission.approval_review = 4
permission_index Permission.policy_read = 5
permission_index Permission.policy_manage = 6
permission_index Permission.audit_read = 7
permission_index Permission.report_read = 8
permission_index Permission.user_read = 9
permission_index Permission.operations_read = 10

abbrev pub permission_same : Permission → Permission → Bool
permission_same a b = eqb (permission_index a) (permission_index b)

pub permission_same_iff : (a b : Permission) → (permission_same a b ≡ true) ↔ (a ≡ b)
permission_same_iff a b = ground arith

instance abbrev pub permission_eq : Eq Permission
permission_eq = record { same = permission_same; same_iff = permission_same_iff }

-- `ROLE_PERMISSIONS` of the API.
unfoldable pub role_permissions : Role → List Permission
role_permissions Role.employee =
    Permission.expense_read ∷ Permission.expense_create ∷ Permission.expense_submit
    ∷ Permission.receipt_manage ∷ Permission.policy_read ∷ Permission.report_read ∷ []
role_permissions Role.manager =
    Permission.expense_read ∷ Permission.approval_review ∷ Permission.policy_read
    ∷ Permission.report_read ∷ Permission.user_read ∷ []
role_permissions Role.finance =
    Permission.expense_read ∷ Permission.approval_review ∷ Permission.policy_read
    ∷ Permission.policy_manage ∷ Permission.audit_read ∷ Permission.report_read
    ∷ Permission.user_read ∷ Permission.operations_read ∷ []
role_permissions Role.admin =
    Permission.expense_read ∷ Permission.approval_review ∷ Permission.policy_read
    ∷ Permission.policy_manage ∷ Permission.audit_read ∷ Permission.report_read
    ∷ Permission.user_read ∷ Permission.operations_read ∷ []

-- `rolePermissions` of the web client.
unfoldable pub web_role_permissions : Role → List Permission
web_role_permissions Role.employee =
    Permission.expense_read ∷ Permission.expense_create ∷ Permission.expense_submit
    ∷ Permission.receipt_manage ∷ Permission.policy_read ∷ Permission.report_read ∷ []
web_role_permissions Role.manager =
    Permission.expense_read ∷ Permission.approval_review ∷ Permission.policy_read
    ∷ Permission.report_read ∷ Permission.user_read ∷ []
web_role_permissions Role.finance =
    Permission.expense_read ∷ Permission.approval_review ∷ Permission.policy_read
    ∷ Permission.policy_manage ∷ Permission.audit_read ∷ Permission.report_read
    ∷ Permission.user_read ∷ Permission.operations_read ∷ []
web_role_permissions Role.admin =
    Permission.expense_read ∷ Permission.approval_review ∷ Permission.policy_read
    ∷ Permission.policy_manage ∷ Permission.audit_read ∷ Permission.report_read
    ∷ Permission.user_read ∷ Permission.operations_read ∷ []

-- `hasPermission`
unfoldable pub has_permission : Role → Permission → Bool
has_permission role permission = any (λ p. p == permission) (role_permissions role)

unfoldable pub web_has_permission : Role → Permission → Bool
web_has_permission role permission = any (λ p. p == permission) (web_role_permissions role)

-- `PermissionsGuard.canActivate`, for the permissions that the route requires and the role of the
-- caller, if there is one. No list and an empty list are both no requirement.
unfoldable pub permissions_can_activate : List Permission → Option Role → Bool
permissions_can_activate [] user = true
permissions_can_activate (p ∷ ps) none = false
permissions_can_activate (p ∷ ps) (some role) = all (has_permission role) (p ∷ ps)

-- `RolesGuard.canActivate`
unfoldable pub roles_can_activate : List Role → Option Role → Bool
roles_can_activate [] user = true
roles_can_activate (r ∷ rs) none = false
roles_can_activate (r ∷ rs) (some role) = any (λ required. required == role) (r ∷ rs)

all_iff :
    {A : Type 0} (p : A → Bool) (xs : List A) → (all p xs ≡ true) ↔ ((x : A) → In x xs → p x ≡ true)
all_iff p [] = (λ e x m. absurd m, λ h. ground arith)
all_iff p (x ∷ xs) =
    let (to, from) = all_iff p xs in
    (
      λ e y m. elim m [ inl q ↦ rw q (ground arith) | inr n ↦ to (ground arith) y n ],
      λ h. ground (arith, h x (inl refl), from (λ y m. h y (inr m))),
    )

-- For every role and permission, the web client's table and the API's give the same answer.
pub web_has_permission-has_permission :
    (role : Role) (permission : Permission)
    → web_has_permission role permission ≡ has_permission role permission
unfolding web_has_permission has_permission web_role_permissions role_permissions
web_has_permission-has_permission role permission = ground arith

-- No role has both the permission to submit expenses and the one to review approvals; employees
-- have the first and managers the second.
has_permission-separated :
    ((role : Role)
      → has_permission role Permission.expense_submit ≡ true
      → has_permission role Permission.approval_review ≡ false)
    × (has_permission Role.employee Permission.expense_submit ≡ true)
    × (has_permission Role.manager Permission.approval_review ≡ true)
unfolding has_permission role_permissions
has_permission-separated = (λ role h. ground arith, ground arith, ground arith)

-- A route that requires permissions is open exactly if there is a user and the user's role has
-- every one of them.
permissions_can_activate_lem :
    (p : Permission) (ps : List Permission) (user : Option Role)
    → (permissions_can_activate (p ∷ ps) user ≡ true) ↔ (
        (role : Role) × (user ≡ some role)
        × ((q : Permission) → In q (p ∷ ps) → has_permission role q ≡ true))
unfolding permissions_can_activate
permissions_can_activate_lem p ps none =
    (λ e. absurd (cc), λ h. let (role, same, granted) = h in absurd (cc (same)))
permissions_can_activate_lem p ps (some r) = (
  λ e. (r, refl, (all_iff (has_permission r) (p ∷ ps)).0 e),
  λ h.
      let (role, same, granted) = h in
      let r_is : r ≡ role = cc (same) in
      (all_iff (has_permission r) (p ∷ ps)).1
        (λ q m. subst (λ x. has_permission x q ≡ true) (sym r_is) (granted q m)),
)
