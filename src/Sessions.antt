-- ===== src/Sessions.antt =====
-- Login, refresh and logout, apps/api/src/auth/auth.service.ts. bcrypt, SHA-256, the JWT signer and
-- `toLowerCase` are parameters (`Credentials`); times are in milliseconds.
pub mod Rotation
pub mod Spending
use expenseflow.Common.{
  ℕ, ◌+◌, ◌*◌, Text, text_is_eq, number_eq, List, [], ◌∷◌, Option, none, some, Bool, true, false,
  not, ◌==◌, ◌&&◌, ◌||◌, leb, ok, unauthorized, internal, is_empty,
}
use expenseflow.Schema.{Role, User, Session, Store, Organization}
use expenseflow.Database.{
  Client, Env, Action, ◌>>=◌, ◌>>◌, pure, gets, throw_if, or_throw, commit_or_roll_back,
}

pub record Credentials : Type 0 where
  pub compare_password : Text → Text → Bool
  pub hash_token : Text → Text
  pub sign : (sub email organization_id : Text) → Role → Text
  pub lower : Text → Text

pub record PublicUser : Type 0 where
  pub id : Text
  pub email : Text
  pub first_name : Text
  pub last_name : Text
  pub role : Role
  pub organization_id : Text

pub record Tokens : Type 0 where
  pub access_token : Text
  pub refresh_token : Text
  pub refresh_expires_at : ℕ
  pub user : PublicUser

unfoldable pub to_public_user : User → PublicUser
to_public_user user = record {
  id = user.id;
  email = user.email;
  first_name = user.first_name;
  last_name = user.last_name;
  role = user.role;
  organization_id = user.organization_id;
}

abbrev pub set_sessions : List Session → Action (Unit {0})
set_sessions rows s = (ok tt, record s { sessions = rows })

-- The unique columns of Session: `id` and `tokenHash`.
unfoldable pub session_clash : Session → Session → Bool
session_clash a b = a.id == b.id || a.token_hash == b.token_hash

abbrev pub is_absent : Option ℕ → Bool
is_absent none = true
is_absent (some t) = false

abbrev pub is_open : Session → Bool
is_open row = is_absent row.revoked_at

-- The test of `refresh` on the session that it has found.
unfoldable pub is_usable : ℕ → Session → Bool
is_usable now row = is_open row && not (leb row.expires_at now)

unfoldable pub rotated : ℕ → Session → Session
rotated now row = record row { revoked_at = some now; last_used_at = some now }

unfoldable pub revoked : ℕ → Session → Session
revoked now row = record row { revoked_at = some now }

-- `getRefreshExpiry`
unfoldable pub refresh_expiry : Option ℕ → ℕ → ℕ
refresh_expiry none now = now + 30 * 24 * 60 * 60 * 1000
refresh_expiry (some configured_days) now = now + configured_days * 24 * 60 * 60 * 1000

-- A session as it is created: `drawn 0` is its id and `drawn 1` the new refresh token.
unfoldable pub new_session : Credentials → Option ℕ → Env → Text → Session
new_session credentials ttl_days env user_id = record {
  id = env.drawn 0;
  user_id = user_id;
  token_hash = credentials.hash_token (env.drawn 1);
  expires_at = refresh_expiry ttl_days env.now;
  revoked_at = none;
  last_used_at = none;
}

unfoldable pub issue_tokens : Credentials → Option ℕ → Env → User → Tokens
issue_tokens credentials ttl_days env user = record {
  access_token = credentials.sign user.id user.email user.organization_id user.role;
  refresh_token = env.drawn 1;
  refresh_expires_at = refresh_expiry ttl_days env.now;
  user = to_public_user user;
}

module _ (db : Client) (credentials : Credentials) where
  unfoldable pub create_session : Option ℕ → Env → Text → Action (Unit {0})
  create_session ttl_days env user_id = do
    s ← gets (λ s. s)
    rows ←
        or_throw (db.create session_clash (new_session credentials ttl_days env user_id) s.sessions)
          (internal "P2002")
    set_sessions rows

  unfoldable pub issue_session : Option ℕ → Env → User → Action Tokens
  issue_session ttl_days env user =
      create_session ttl_days env user.id >> pure (issue_tokens credentials ttl_days env user)

  unfoldable pub login : Option ℕ → Env → Text → Text → Action Tokens
  login ttl_days env email password = do
    s ← gets (λ s. s)
    user ←
        or_throw (db.find_first (λ row. row.email == credentials.lower email) s.users)
          (unauthorized "Invalid email or password")
    throw_if (not (credentials.compare_password password user.password_hash))
        (unauthorized "Invalid email or password")
    issue_session ttl_days env user

  unfoldable pub login_with_oidc_email : Option ℕ → Env → Text → Text → Action Tokens
  login_with_oidc_email ttl_days env organization_slug email = do
    s ← gets (λ s. s)
    organization ←
        or_throw
          (db.find_first {Row = Organization} (λ row. row.slug == organization_slug)
            s.organizations)
          (unauthorized "SSO organization is not configured")
    user ←
        or_throw
          (db.find_first
            (λ row. row.email == credentials.lower email && row.organization_id == organization.id)
            s.users)
          (unauthorized "No ExpenseFlow account is linked to this SSO identity")
    issue_session ttl_days env user

  -- The transaction of `refresh`.
  unfoldable pub rotate : Option ℕ → Env → Session → Action (Unit {0})
  rotate ttl_days env current s = commit_or_roll_back s (body s)
    where
      body : Action (Unit {0})
      body = do
        s ← gets (λ s. s)
        let changed =
            db.update_many (λ row. row.id == current.id && is_open row) (rotated env.now) s.sessions
        set_sessions changed.0
        throw_if (not (changed.1 == 1)) (unauthorized "Session has already been rotated")
        create_session ttl_days env current.user_id

  unfoldable pub refresh : Option ℕ → Env → Text → Action Tokens
  refresh ttl_days env refresh_token = do
    s ← gets (λ s. s)
    current ←
        or_throw
          (db.find_first (λ row. row.token_hash == credentials.hash_token refresh_token) s.sessions)
          (unauthorized "Session is no longer valid")
    throw_if (not (is_usable env.now current)) (unauthorized "Session is no longer valid")
    user ←
        or_throw (db.find_first (λ row. row.id == current.user_id) s.users)
          (internal "inconsistent relation")
    rotate ttl_days env current
    pure (issue_tokens credentials ttl_days env user)

  unfoldable pub logout : Env → Option Text → Action (Unit {0})
  logout env none s = pure tt s
  logout env (some []) s = pure tt s
  logout env (some (c ∷ t)) s =
      set_sessions
        (db.update_many (λ row. row.token_hash == credentials.hash_token (c ∷ t) && is_open row)
          (revoked env.now) s.sessions).0
        s

  unfoldable pub logout_all : Env → Text → Action (Unit {0})
  logout_all env user_id s =
      set_sessions
        (db.update_many (λ row. row.user_id == user_id && is_open row) (revoked env.now)
          s.sessions).0
        s
