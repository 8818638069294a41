-- ===== src/AuthController/Handlers.antt =====
-- The routes of auth.controller.ts. `JwtAuthGuard` hands `logoutAll` and `me` the caller.
use expenseflow.Common.{
  ℕ, Text, text, text_is_eq, List, [], ◌∷◌, ◌++◌, Option, none, some, Bool, ◌==◌, ◌&&◌, ok, err,
  Result, internal, unauthorized, strip_slash,
}
use expenseflow.Schema.{Role, Organization}
use expenseflow.Database.{Client, Env, Action, ◌>>=◌, ◌>>◌, pure, gets, or_throw}
use expenseflow.Sessions.{
  Credentials, PublicUser, Tokens, login, login_with_oidc_email, refresh, logout, logout_all,
}
use expenseflow.Oidc.{
  AuthorizationRequest, Node, OidcSettings, Provider, enabled, filled, or_else,
  create_authorization_request, exchange_callback,
}
use expenseflow.Expenses.{AuthUser, lift}
use expenseflow.AuthController.Cookies.{
  Script, CookieChange, get_cookie, get_refresh_token, find_refresh_token, oidc_flow_cookie_name,
  set_refresh_cookie, clear_refresh_cookie, set_flow_cookie, clear_flow_cookie,
}

-- A response: the body, the cookies that it changes, and where it redirects to.
pub record Reply (A : Type 0) : Type 0 where
  pub body : A
  pub cookies : List CookieChange
  pub redirect : Option Text

pub record LoginBody : Type 0 where
  pub access_token : Text
  pub user : PublicUser

-- The environment variables that the handlers read.
pub record AuthSettings : Type 0 where
  pub node_env : Option Text
  pub web_origin : Option Text
  pub organization_slug : Option Text
  pub ttl_days : Option ℕ

-- What `me` selects.
pub record Profile : Type 0 where
  pub id : Text
  pub email : Text
  pub first_name : Text
  pub last_name : Text
  pub role : Role
  pub department : Option Text
  pub organization : Organization

abbrev pub web_callback : AuthSettings → Text
web_callback settings =
    strip_slash (or_else settings.web_origin (text "http://localhost:5173")) ++ text "/sso/callback"

unfoldable pub login_reply : AuthSettings → Tokens → Reply LoginBody
login_reply settings tokens = record {
  body = record { access_token = tokens.access_token; user = tokens.user };
  cookies =
      set_refresh_cookie settings.node_env tokens.refresh_token tokens.refresh_expires_at ∷ [];
  redirect = none;
}

unfoldable pub callback_reply : AuthSettings → Tokens → Reply (Unit {0})
callback_reply settings tokens = record {
  body = tt;
  cookies =
      set_refresh_cookie settings.node_env tokens.refresh_token tokens.refresh_expires_at
      ∷ clear_flow_cookie settings.node_env
      ∷ [];
  redirect = some (web_callback settings);
}

unfoldable pub logout_reply : AuthSettings → Reply (Unit {0})
logout_reply settings = record {
  body = tt;
  cookies = clear_refresh_cookie settings.node_env ∷ [];
  redirect = none;
}

module _ (db : Client) (credentials : Credentials) (script : Script) (settings : AuthSettings) where
  unfoldable pub post_login : Env → (email password : Text) → Action (Reply LoginBody)
  post_login env email password = do
    tokens ← login db credentials settings.ttl_days env email password
    pure (login_reply settings tokens)

  unfoldable pub post_refresh : Env → (cookie_header : Option Text) → Action (Reply LoginBody)
  post_refresh env cookie_header = do
    token ← lift (get_refresh_token script cookie_header)
    tokens ← refresh db credentials settings.ttl_days env token
    pure (login_reply settings tokens)

  unfoldable pub post_logout : Env → (cookie_header : Option Text) → Action (Reply (Unit {0}))
  post_logout env cookie_header = do
    token ← lift (find_refresh_token script cookie_header)
    logout db credentials env token
    pure (logout_reply settings)

  unfoldable pub post_logout_all : Env → AuthUser → Action (Reply (Unit {0}))
  post_logout_all env user = do logout_all db credentials env user.sub; pure (logout_reply settings)

  unfoldable pub me : AuthUser → Action Profile
  me user = do
    s ← gets (λ s. s)
    row ←
        or_throw
          (db.find_first (λ row. row.id == user.sub && row.organization_id == user.organization_id)
            s.users)
          (internal "P2025")
    organization ←
        or_throw
          (db.find_first {Row = Organization} (λ o. o.id == row.organization_id) s.organizations)
          (internal "inconsistent relation")
    pure (record {
      id = row.id;
      email = row.email;
      first_name = row.first_name;
      last_name = row.last_name;
      role = row.role;
      department = row.department;
      organization = organization;
    })

  module _ (node : Node) (oidc : OidcSettings) (provider : Provider) where
    unfoldable pub sso_config : Bool
    sso_config = enabled node oidc

    unfoldable pub start_sso : Env → Result (Reply (Unit {0}))
    start_sso env = started (create_authorization_request node oidc provider env)
      where
        started : Result AuthorizationRequest → Result (Reply (Unit {0}))
        started (err e) = err e
        started (ok request) = ok (record {
          body = tt;
          cookies = set_flow_cookie settings.node_env request.flow_cookie ∷ [];
          redirect = some request.authorization_url;
        })

    -- `now` when the flow cookie is checked; the ID token and the session come later.
    unfoldable pub complete_sso :
        (now : ℕ)
        → Env
        → (code state : Option Text) → (cookie_header : Option Text) → Action (Reply (Unit {0}))
    complete_sso now env code state cookie_header = do
      given_code ← or_throw (filled code) (unauthorized "SSO callback is missing code or state")
      given_state ← or_throw (filled state) (unauthorized "SSO callback is missing code or state")
      found ← lift (get_cookie script cookie_header oidc_flow_cookie_name)
      flow_cookie ← or_throw (filled found) (unauthorized "SSO flow cookie is missing")
      email ←
          lift (exchange_callback node oidc provider now env.now given_code given_state flow_cookie)
      slug ← or_throw settings.organization_slug (internal "OIDC_ORGANIZATION_SLUG does not exist")
      tokens ← login_with_oidc_email db credentials settings.ttl_days env slug email
      pure (callback_reply settings tokens)
