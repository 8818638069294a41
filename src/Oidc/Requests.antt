-- ===== src/Oidc/Requests.antt =====
-- The provider's configuration, and the request that sends a browser to it.
use expenseflow.Common.{
  strip_slash, ◌+◌, ◌*◌, Text, text, text_is_eq, List, [], ◌∷◌, ◌++◌, Option, Bool, not, ◌==◌, ◌&&◌,
  ok, err, Result, internal, unavailable, is_empty, ◌>>=◌, ◌>>◌, ok_or, refuse_if,
}
use expenseflow.Database.{Env}
use expenseflow.Oidc.Flow.{
  Node, OidcSettings, OidcState, JsonWebKey, assert_enabled, issuer, client_id, redirect_uri,
  sign_flow_state,
}

-- What `fetch` and `response.json()` come back with: a body, an answer that is not `ok`, or an
-- exception.
pub data Answer (A : Type 0) : Type 0 where
  answered : A → Answer A
  not_ok : Answer A
  failed : Answer A

-- `OidcDiscovery`, with an empty text for an endpoint that is missing.
pub record OidcDiscovery : Type 0 where
  pub discovered_issuer : Text
  pub authorization_endpoint : Text
  pub token_endpoint : Text
  pub jwks_uri : Text

-- The provider, as this request reaches it: its configuration, the ID token for a form that is
-- posted, and its signing keys.
pub record Provider : Type 0 where
  pub configuration : Text → Answer OidcDiscovery
  pub id_token : Text → List (Text × Text) → Answer (Option Text)
  pub signing_keys : Text → Answer (Option (List JsonWebKey))

abbrev pub body_or : {A : Type 0} → Answer A → Result A → Result A
body_or (answered a) refused = ok a
body_or not_ok refused = refused
body_or failed refused = err (internal "fetch failed")

pub record AuthorizationRequest : Type 0 where
  pub authorization_url : Text
  pub flow_cookie : Text

abbrev pub is_complete : Text → OidcDiscovery → Bool
is_complete expected found =
    found.discovered_issuer == expected
    && not (is_empty found.authorization_endpoint)
    && not (is_empty found.token_endpoint)
    && not (is_empty found.jwks_uri)

-- The flow of a new login: three random texts, and ten minutes from now.
unfoldable pub new_flow : Env → OidcState
new_flow env = record {
  state = env.drawn 0;
  nonce = env.drawn 1;
  verifier = env.drawn 2;
  expires_at = env.now + 10 * 60 * 1000;
}

module _ (settings : OidcSettings) (provider : Provider) where
  unfoldable pub discovery : Result OidcDiscovery
  discovery = do
    own ← issuer settings
    let url = strip_slash own ++ text "/.well-known/openid-configuration"
    found ←
        body_or (provider.configuration url)
          (err (unavailable "Unable to load OIDC provider configuration"))
    refuse_if (not (is_complete own found))
        (unavailable "OIDC provider configuration is incomplete")
    ok found

module _ (node : Node) (settings : OidcSettings) where
  unfoldable pub authorization_params : Text → OidcState → List (Text × Text)
  authorization_params client flow =
      (text "client_id", client)
      ∷ (text "response_type", text "code")
      ∷ (text "scope", text "openid email profile")
      ∷ (text "redirect_uri", redirect_uri settings)
      ∷ (text "state", flow.state)
      ∷ (text "nonce", flow.nonce)
      ∷ (text "code_challenge", node.sha256_base64url flow.verifier)
      ∷ (text "code_challenge_method", text "S256")
      ∷ []

module _ (node : Node) (settings : OidcSettings) (provider : Provider) where
  unfoldable pub create_authorization_request : Env → Result AuthorizationRequest
  create_authorization_request env = do
    assert_enabled node settings
    found ← discovery settings provider
    let flow = new_flow env
    client ← client_id settings
    url ←
        ok_or
          (node.url_with_params found.authorization_endpoint
            (authorization_params node settings client flow))
          (internal "Invalid URL")
    cookie ← sign_flow_state node settings flow
    ok (record { authorization_url = url; flow_cookie = cookie })
