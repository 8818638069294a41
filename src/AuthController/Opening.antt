-- ===== src/AuthController/Opening.antt =====
-- The sessions that the routes of auth.controller.ts open.
use expenseflow.Common.{
  ℕ, ◌+◌, ◌*◌, sym, subst, text, none, some, ◌∙◌, ◌≡◌, refl, ap, Text, text_is_eq, text_eq_iff, [],
  ◌∷◌, ◌++◌, true, not, ◌==◌, ok, err, Error, Result, In, arith, unauthorized,
}
use expenseflow.Schema.{User, Session, Store}
use expenseflow.Database.{
  Client, IsClient, Env, Runs, after, pure, after-or_throw, after-throw_if, after-pure,
}
use expenseflow.Sessions.{
  Credentials, Tokens, to_public_user, refresh_expiry, new_session, issue_tokens, create_session,
  issue_session, login,
}
use expenseflow.Sessions.Rotation.{create_session-Runs}
use expenseflow.AuthController.Cookies.{Script, CookieChange, is_production, set_refresh_cookie}
use expenseflow.AuthController.Handlers.{AuthSettings, Reply, LoginBody, login_reply, post_login}

-- A session of the user, open, for the refresh token and until the expiry, and nothing else, has
-- been added.
abbrev pub Opens :
    Credentials → User → (refresh_token : Text) → (expires : ℕ) → Store → Store → Type 0
Opens credentials user refresh_token expires s s' =
    (session : Session) × (session.user_id ≡ user.id)
    × (session.token_hash ≡ credentials.hash_token refresh_token)
    × (session.revoked_at ≡ none)
    × (session.expires_at ≡ expires)
    × (s' ≡ record s { sessions = s.sessions ++ session ∷ [] })

-- `days`, or 30, after the request.
abbrev pub expiry_of : AuthSettings → ℕ → ℕ
expiry_of settings now = elim settings.ttl_days [
  | none ↦ now + 2592000000
  | some days ↦ now + days * 86400000
]

-- The cookie of a refresh token: for HTTP alone, and sent to the routes of authentication.
abbrev pub refresh_cookie : AuthSettings → (token : Text) → (expires : ℕ) → CookieChange
refresh_cookie settings token expires =
    CookieChange.set_cookie (text "expenseflow_refresh") token (record {
      http_only = true;
      secure = is_production settings.node_env;
      same_site = text "lax";
      expires = some expires;
      max_age = none;
      path = text "/api/auth";
    })

-- The tokens of a session that has been opened for a user.
pub record IsOpened (credentials : Credentials) (settings : AuthSettings) (env : Env) (user : User)
    (s s' : Store) (tokens : Tokens) : Type 0 where
  pub opened : Opens credentials user tokens.refresh_token (expiry_of settings env.now) s s'
  pub drawn : tokens.refresh_token ≡ env.drawn 1
  pub expires : tokens.refresh_expires_at ≡ expiry_of settings env.now
  pub signed :
      tokens.access_token ≡ credentials.sign user.id user.email user.organization_id user.role
  pub named : tokens.user.id ≡ user.id

-- What `login` of the controller may end with: a session of the user whose password was given, or
-- nothing.
abbrev pub LoggedIn :
    Credentials
    → AuthSettings
    → Env
    → (email password : Text) → Store
    → Result (Reply LoginBody) × Store
    → Type 0
LoggedIn credentials settings env email password s (err x, s') = s' ≡ s
LoggedIn credentials settings env email password s (ok reply, s') =
    (user : User) × In user s.users
    × (user.email ≡ credentials.lower email)
    × (credentials.compare_password password user.password_hash ≡ true)
    × Opens credentials user (env.drawn 1) (expiry_of settings env.now) s s'
    × (reply.cookies ≡ refresh_cookie settings (env.drawn 1) (expiry_of settings env.now) ∷ [])
    × (reply.body.access_token ≡ credentials.sign user.id user.email user.organization_id user.role)
    × (reply.body.user.id ≡ user.id)
    × (reply.redirect ≡ none)

refresh_expiry-expiry_of :
    (settings : AuthSettings) (now : ℕ)
    → refresh_expiry settings.ttl_days now ≡ expiry_of settings now
unfolding refresh_expiry
refresh_expiry-expiry_of settings now = ground arith

module _ (db : Client) (laws : IsClient db) (credentials : Credentials)
    (settings : AuthSettings) where
  pub issue_session-Opens :
      (env : Env) (user : User) (s s' : Store) (tokens : Tokens)
      → Runs (issue_session db credentials settings.ttl_days env user) s tokens s'
      → IsOpened credentials settings env user s s' tokens
  unfolding issue_session new_session issue_tokens to_public_user
  issue_session-Opens env user s s' tokens e =
      let (u, made, same) =
        after-pure (create_session db credentials settings.ttl_days env user.id s) _ tokens s' e in
      let (_, opened) =
        create_session-Runs db laws credentials settings.ttl_days env user.id s s' u made in
      let expiry = refresh_expiry-expiry_of settings env.now in
      record {
        opened = (
          new_session credentials settings.ttl_days env user.id,
          refl,
          rw same refl,
          refl,
          expiry,
          opened,
        );
        drawn = rw same refl;
        expires = ap (λ t. t.refresh_expires_at) same ∙ expiry;
        signed = rw same refl;
        named = rw same refl;
      }

  login-Opens :
      (env : Env) (email password : Text) (s s' : Store) (tokens : Tokens)
      → Runs (login db credentials settings.ttl_days env email password) s tokens s'
      → (user : User) × In user s.users
        × (user.email ≡ credentials.lower email)
        × (credentials.compare_password password user.password_hash ≡ true)
        × IsOpened credentials settings env user s s' tokens
  unfolding login
  login-Opens env email password s s' tokens e =
      let (user, found, e1) =
        after-or_throw (db.find_first (λ row. row.email == credentials.lower email) s.users)
          (unauthorized "Invalid email or password") _ s s' tokens e in
      let (checked, e2) =
        after-throw_if (not (credentials.compare_password password user.password_hash))
          (unauthorized "Invalid email or password") _ s s' tokens e1 in
      let (m, same) = laws.find_first_some _ s.users user found in
      let opened = issue_session-Opens env user s s' tokens e2 in
      (user, m, (text_eq_iff user.email _).0 same, ground arith, opened)

  login-err :
      (env : Env) (email password : Text) (s s' : Store) (x : Error)
      → login db credentials settings.ttl_days env email password s ≡ (err x, s')
      → s' ≡ s
  unfolding login issue_session create_session
  login-err env email password s s' x e = ground arith

  -- The login route either fails and leaves the store as it is, or exactly one session is added,
  -- open, for a user with the given address in lower case whose stored password the given one
  -- matches, under the hash of the refresh token drawn and until the configured expiry; the
  -- response sets one cookie, for HTTP alone, with that token and expiry, and its body names
  -- that user and has an access token signed for that user.
  pub post_login-LoggedIn :
      (script : Script) (env : Env) (email password : Text) (s : Store)
      → LoggedIn credentials settings env email password s
          (post_login db credentials script settings env email password s)
  unfolding post_login login_reply set_refresh_cookie
  post_login-LoggedIn script env email password s =
      by_outcome (login db credentials settings.ttl_days env email password s) refl
    where
      by_outcome :
          (r : Result Tokens × Store)
          → login db credentials settings.ttl_days env email password s ≡ r
          → LoggedIn credentials settings env email password s
              (after r (λ tokens. pure (login_reply settings tokens)))
      by_outcome (err x, s') e = login-err env email password s s' x e
      by_outcome (ok tokens, s') e =
          let (user, m, same, checked, o) = login-Opens env email password s s' tokens e in
          (
            user,
            m,
            same,
            checked,
            subst (λ t. Opens credentials user t (expiry_of settings env.now) s s') o.drawn
                o.opened,
            rw (sym o.drawn, sym o.expires) refl,
            o.signed,
            o.named,
            refl,
          )
