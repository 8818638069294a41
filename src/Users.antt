-- ===== src/Users.antt =====
-- The users of an organization, apps/api/src/users/users.service.ts. `text_before` is the order that
-- the database gives texts.
use expenseflow.Common.{Text, text_is_eq, List, Option, Bool, ◌==◌, ◌&&◌, ◌||◌, ltb, map}
use expenseflow.Schema.{Role, User, role_index, role_eq}
use expenseflow.Database.{Client, Action, gets}

-- What `list` selects.
pub record ListedUser : Type 0 where
  pub id : Text
  pub email : Text
  pub first_name : Text
  pub last_name : Text
  pub role : Role
  pub department : Option Text
  pub manager_id : Option Text

unfoldable pub listed : User → ListedUser
listed row = record {
  id = row.id;
  email = row.email;
  first_name = row.first_name;
  last_name = row.last_name;
  role = row.role;
  department = row.department;
  manager_id = row.manager_id;
}

-- `orderBy: [{ role: 'asc' }, { firstName: 'asc' }]`; an enum is ordered as it is declared.
unfoldable pub by_role_and_name : (Text → Text → Bool) → User → User → Bool
by_role_and_name text_before a b =
    ltb (role_index a.role) (role_index b.role)
    || a.role == b.role && text_before a.first_name b.first_name

unfoldable pub list : Client → (Text → Text → Bool) → Text → Action (List ListedUser)
list db text_before organization_id = gets λ s. map listed (
    db.find_many (by_role_and_name text_before) (λ row. row.organization_id == organization_id)
      s.users)
