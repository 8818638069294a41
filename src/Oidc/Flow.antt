-- ===== src/Oidc/Flow.antt =====
-- The signed cookie that carries a login to its callback, and the configuration of the login.
use expenseflow.Common.{
  ℕ, Text, text, text_is_eq, number_eq, List, [], ◌∷◌, ◌++◌, Option, none, some, Bool, not, ◌==◌,
  ◌&&◌, ◌||◌, leb, length, ok, Result, bad_request, unauthorized, internal, is_empty, ◌>>=◌, ◌>>◌,
  ok_or, refuse_if, strip_slash, split_on,
}

-- `OidcState`
pub record OidcState : Type 0 where
  pub state : Text
  pub nonce : Text
  pub verifier : Text
  pub expires_at : ℕ

-- `IdTokenHeader`
pub record IdTokenHeader : Type 0 where
  pub alg : Option Text
  pub kid : Option Text

-- `aud?: string | string[]`
pub data Audience : Type 0 where
  no_audience : Audience
  one_audience : Text → Audience
  many_audiences : List Text → Audience

-- `IdTokenClaims`
pub record IdTokenClaims : Type 0 where
  pub iss : Option Text
  pub aud : Audience
  pub exp : Option ℕ
  pub nonce : Option Text
  pub email : Option Text
  pub email_verified : Option Bool

-- `JsonWebKeyWithKid`, of which the code reads `kid` only.
pub record JsonWebKey : Type 0 where
  pub kid : Option Text
  pub material : Text

-- Node's functions. `encode_state` is base64url of JSON; the decoders fail on text that is not
-- base64url of JSON of that type, and `rsa_verify` on a key that is not an RSA key.
pub record Node : Type 0 where
  pub sha256_base64url : Text → Text
  pub hmac_base64url : (secret payload : Text) → Text
  pub utf8 : Text → List ℕ
  pub timing_safe_equal : List ℕ → List ℕ → Bool
  pub encode_state : OidcState → Text
  pub decode_state : Text → Option OidcState
  pub decode_header : Text → Option IdTokenHeader
  pub decode_claims : Text → Option IdTokenClaims
  pub rsa_verify : JsonWebKey → (signed signature : Text) → Option Bool
  pub lower : Text → Text
  pub url_with_params : Text → List (Text × Text) → Option Text

-- The environment variables as `config.get` returns them.
pub record OidcSettings : Type 0 where
  pub oidc_enabled : Option Text
  pub issuer_url : Option Text
  pub oidc_client_id : Option Text
  pub oidc_redirect_uri : Option Text
  pub client_secret : Option Text
  pub jwt_secret : Option Text

abbrev pub or_else : Option Text → Text → Text
or_else none other = other
or_else (some t) other = t

-- `const [payload, signature] = cookie.split('.')`, with an empty text for one that is missing.
abbrev pub first_two : List Text → Text × Text
first_two [] = ([], [])
first_two (a ∷ []) = (a, [])
first_two (a ∷ b ∷ rest) = (a, b)

module _ (settings : OidcSettings) where
  unfoldable pub issuer : Result Text
  issuer = ok_or settings.issuer_url (internal "OIDC_ISSUER_URL does not exist") >>= λ url.
      ok (strip_slash url)

  abbrev pub client_id : Result Text
  client_id = ok_or settings.oidc_client_id (internal "OIDC_CLIENT_ID does not exist")

  abbrev pub redirect_uri : Text
  redirect_uri =
      or_else settings.oidc_redirect_uri (text "http://localhost:4000/api/auth/sso/callback")

  abbrev pub flow_secret : Result Text
  flow_secret = ok_or settings.jwt_secret (internal "JWT_SECRET does not exist")

abbrev pub same_bytes : Node → List ℕ → List ℕ → Bool
same_bytes node received expected =
    length received == length expected && node.timing_safe_equal received expected

module _ (node : Node) (settings : OidcSettings) where
  unfoldable pub enabled : Bool
  enabled = node.lower (or_else settings.oidc_enabled (text "false")) == text "true"

  unfoldable pub assert_enabled : Result (Unit {0})
  assert_enabled = refuse_if (not enabled) (bad_request "SSO is not enabled")

  unfoldable pub sign_flow_state : OidcState → Result Text
  sign_flow_state state = do
    let payload = node.encode_state state
    secret ← flow_secret settings
    ok (payload ++ b'.' ∷ node.hmac_base64url secret payload)

  unfoldable pub verify_flow_state : (now : ℕ) → Text → Result OidcState
  verify_flow_state now cookie = do
    let parts = first_two (split_on b'.' cookie)
    refuse_if (is_empty parts.0 || is_empty parts.1) (bad_request "SSO flow cookie is invalid")
    secret ← flow_secret settings
    let expected = node.hmac_base64url secret parts.0
    refuse_if (not (same_bytes node (node.utf8 parts.1) (node.utf8 expected)))
        (unauthorized "SSO flow cookie signature is invalid")
    state ← ok_or (node.decode_state parts.0) (unauthorized "Invalid encoded OIDC data")
    refuse_if (leb state.expires_at now) (unauthorized "SSO login request has expired")
    ok state
