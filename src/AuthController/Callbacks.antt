-- ===== src/AuthController/Callbacks.antt =====
-- The callback of auth.controller.ts and the session that it opens.
use expenseflow.Common.{
  subst, text, none, true, [], ◌∷◌, ◌++◌, strip_slash, ℕ, ◌≡◌, refl, sym, ap, ◌∙◌, Text, text_is_eq,
  text_eq_iff, Option, some, ◌==◌, ◌&&◌, ok, err, Error, Result, In, arith, unauthorized, internal,
}
use expenseflow.Schema.{User, Organization, Store}
use expenseflow.Database.{
  Client, IsClient, Env, Action, Runs, after, pure, after-ok, after-or_throw,
}
use expenseflow.Sessions.{Credentials, Tokens, create_session, issue_session, login_with_oidc_email}
use expenseflow.Oidc.{Node, OidcSettings, Provider, exchange_callback, filled, or_else}
use expenseflow.Oidc.Facts.{filled-some}
use expenseflow.AuthController.Cookies.{
  Script, CookieChange, get_cookie, oidc_flow_cookie_name, is_production, set_refresh_cookie,
  clear_flow_cookie,
}
use expenseflow.AuthController.Handlers.{AuthSettings, Reply, callback_reply, complete_sso}
use expenseflow.AuthController.Opening.{
  Opens, IsOpened, expiry_of, refresh_cookie, issue_session-Opens,
}

-- The flow cookie is dropped where it was set.
abbrev pub dropped_flow_cookie : AuthSettings → CookieChange
dropped_flow_cookie settings = CookieChange.clear_cookie (text "expenseflow_oidc_flow") (record {
  http_only = true;
  secure = is_production settings.node_env;
  same_site = text "lax";
  expires = none;
  max_age = none;
  path = text "/api/auth/sso";
})

-- The web client's page for callbacks.
abbrev pub web_page : (web_origin : Option Text) → Text
web_page none = text "http://localhost:5173/sso/callback"
web_page (some origin) = strip_slash origin ++ text "/sso/callback"

web_callback-web_page :
    (web_origin : Option Text)
    → strip_slash (or_else web_origin (text "http://localhost:5173")) ++ text "/sso/callback"
      ≡ web_page web_origin
unfolding strip_slash text
web_callback-web_page none = refl
web_callback-web_page (some origin) = refl

-- What `completeSso` may end with: a session of the one user of the configured organization whose
-- address the provider has verified, or nothing.
abbrev pub Linked :
    Credentials
    → AuthSettings
    → Script
    → Node
    → OidcSettings
    → Provider
    → (now : ℕ) → Env
    → (code state header : Option Text) → Store
    → Result (Reply (Unit {0})) × Store
    → Type 0
Linked credentials settings script node oidc provider now env code state header s (err x, s') =
    s' ≡ s
Linked credentials settings script node oidc provider now env code state header s (ok reply, s') =
    (given_code given_state flow_cookie email slug : Text) × (organization : Organization)
    × (user : User) × (get_cookie script header oidc_flow_cookie_name ≡ ok (some flow_cookie))
    × (code ≡ some given_code)
    × (state ≡ some given_state)
    × (exchange_callback node oidc provider now env.now given_code given_state flow_cookie
        ≡ ok email)
    × (settings.organization_slug ≡ some slug)
    × In organization s.organizations
    × (organization.slug ≡ slug)
    × In user s.users
    × (user.email ≡ credentials.lower email)
    × (user.organization_id ≡ organization.id)
    × Opens credentials user (env.drawn 1) (expiry_of settings env.now) s s'
    × (reply.cookies
        ≡ refresh_cookie settings (env.drawn 1) (expiry_of settings env.now)
          ∷ dropped_flow_cookie settings
          ∷ [])
    × (reply.redirect ≡ some (web_page settings.web_origin))

pure-Runs : {A : Type 0} (a b : A) (s s' : Store) → Runs (pure a) s b s' → (a ≡ b) × (s ≡ s')
pure-Runs a b s s' e = (cc (e), cc (e))

after-lift :
    {A B : Type 0} (r : Result A) (f : A → Action B) (s s' : Store) (b : B)
    → after (r, s) f ≡ (ok b, s')
    → (a : A) × (r ≡ ok a) × (f a s ≡ (ok b, s'))
after-lift (ok a) f s s' b e = (a, refl, e)
after-lift (err x) f s s' b e = absurd (cc (e))

module _ (db : Client) (laws : IsClient db) (credentials : Credentials)
    (settings : AuthSettings) where
  login_with_oidc_email-Opens :
      (env : Env) (slug email : Text) (s s' : Store) (tokens : Tokens)
      → Runs (login_with_oidc_email db credentials settings.ttl_days env slug email) s tokens s'
      → (organization : Organization) × (user : User) × In organization s.organizations
        × (organization.slug ≡ slug)
        × In user s.users
        × (user.email ≡ credentials.lower email)
        × (user.organization_id ≡ organization.id)
        × IsOpened credentials settings env user s s' tokens
  unfolding login_with_oidc_email
  login_with_oidc_email-Opens env slug email s s' tokens e =
      let (organization, found, e1) =
        after-or_throw
          (db.find_first {Row = Organization} (λ row. row.slug == slug) s.organizations)
          (unauthorized "SSO organization is not configured") _ s s' tokens e in
      let (user, linked, e2) =
        after-or_throw
          (db.find_first
            (λ row. row.email == credentials.lower email && row.organization_id == organization.id)
            s.users)
          (unauthorized "No ExpenseFlow account is linked to this SSO identity") _ s s' tokens e1 in
      let (m, same) = laws.find_first_some _ s.organizations organization found in
      let (n, matches) = laws.find_first_some _ s.users user linked in
      let opened = issue_session-Opens db laws credentials settings env user s s' tokens e2 in
      (
        organization,
        user,
        m,
        (text_eq_iff organization.slug slug).0 same,
        n,
        (text_eq_iff user.email (credentials.lower email)).0 (ground arith),
        (text_eq_iff user.organization_id organization.id).0 (ground arith),
        opened,
      )

  complete_sso-err :
      (script : Script) (node : Node) (oidc : OidcSettings) (provider : Provider) (now : ℕ)
      (env : Env) (code state header : Option Text) (s s' : Store) (x : Error)
      → complete_sso db credentials script settings node oidc provider now env code state header s
        ≡ (err x, s')
      → s' ≡ s
  unfolding complete_sso login_with_oidc_email issue_session create_session
  complete_sso-err script node oidc provider now env code state header s s' x e = ground arith

  complete_sso-Linked :
      (script : Script) (node : Node) (oidc : OidcSettings) (provider : Provider) (now : ℕ)
      (env : Env) (code state header : Option Text) (s s' : Store) (reply : Reply (Unit {0}))
      → Runs
          (complete_sso db credentials script settings node oidc provider now env code state header)
          s
          reply
          s'
      → Linked credentials settings script node oidc provider now env code state header s
          (ok reply, s')
  unfolding complete_sso callback_reply set_refresh_cookie clear_flow_cookie
  complete_sso-Linked script node oidc provider now env code state header s s' reply e =
      let (given_code, has_code, e1) =
        after-or_throw (filled code) (unauthorized "SSO callback is missing code or state") _ s s'
          reply e in
      let (given_state, has_state, e2) =
        after-or_throw (filled state) (unauthorized "SSO callback is missing code or state") _ s s'
          reply e1 in
      let (found, has_cookie, e3) =
        after-lift (get_cookie script header oidc_flow_cookie_name) _ s s' reply e2 in
      let (flow_cookie, has_flow, e4) =
        after-or_throw (filled found) (unauthorized "SSO flow cookie is missing") _ s s' reply e3 in
      let (email, verified, e5) =
        after-lift
          (exchange_callback node oidc provider now env.now given_code given_state flow_cookie) _ s
          s' reply e4 in
      let (slug, has_slug, e6) =
        after-or_throw settings.organization_slug (internal "OIDC_ORGANIZATION_SLUG does not exist")
          _ s s' reply e5 in
      let (tokens, t, ran, rest) =
        after-ok (login_with_oidc_email db credentials settings.ttl_days env slug email s) _ s'
          reply e6 in
      let (organization, user, m, named, n, linked, inside, o) =
        login_with_oidc_email-Opens env slug email s t tokens ran in
      let (made, at) = pure-Runs (callback_reply settings tokens) reply t s' rest in
      (
        given_code,
        given_state,
        flow_cookie,
        email,
        slug,
        organization,
        user,
        has_cookie ∙ ap ok (filled-some found flow_cookie has_flow),
        filled-some code given_code has_code,
        filled-some state given_state has_state,
        verified,
        has_slug,
        m,
        named,
        n,
        linked,
        inside,
        subst (λ t. Opens credentials user t (expiry_of settings env.now) s s') o.drawn
            (subst
              (λ y. Opens credentials user tokens.refresh_token (expiry_of settings env.now) s y) at
              o.opened),
        ap (λ r. r.cookies) (sym made) ∙ rw (sym o.drawn, sym o.expires) refl,
        ap (λ r. r.redirect) (sym made) ∙ ap some (web_callback-web_page settings.web_origin),
      )

  -- `completeSso` either fails and leaves the store as it is, or `exchangeCallback` has accepted
  -- the code, the state and the cookie of the request, and exactly one session is added, open,
  -- for a user with the returned address in the organization with the configured slug, under the
  -- hash of the refresh token drawn and until the configured expiry; the response then sets a
  -- cookie, for HTTP alone, with that token and expiry, drops the cookie of the flow, and
  -- redirects to the web client's page for callbacks, an address that is made of the configured
  -- origin alone.
  pub complete_sso-IsLinked :
      (script : Script) (node : Node) (oidc : OidcSettings) (provider : Provider) (now : ℕ)
      (env : Env) (code state header : Option Text) (s : Store)
      → Linked credentials settings script node oidc provider now env code state header s (
          complete_sso db credentials script settings node oidc provider now env code state header
            s)
  complete_sso-IsLinked script node oidc provider now env code state header s =
      by_outcome
        (complete_sso db credentials script settings node oidc provider now env code state header s)
        refl
    where
      by_outcome :
          (r : Result (Reply (Unit {0})) × Store)
          → complete_sso db credentials script settings node oidc provider now env code state header
              s
            ≡ r
          → Linked credentials settings script node oidc provider now env code state header s r
      by_outcome (err x, s') e =
          complete_sso-err script node oidc provider now env code state header s s' x e
      by_outcome (ok reply, s') e =
          complete_sso-Linked script node oidc provider now env code state header s s' reply e
