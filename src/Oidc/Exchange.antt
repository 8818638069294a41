-- ===== src/Oidc/Exchange.antt =====
-- The callback of a login: the code against an ID token, and the checks on the token.
use expenseflow.Common.{
  split_on, ℕ, ◌*◌, Text, text, text_is_eq, List, [], ◌∷◌, ◌++◌, Option, none, some, Bool, true,
  false, not, ◌==◌, ◌||◌, leb, eqb, any, find, ok, err, Result, internal, unavailable, unauthorized,
  is_empty, ◌>>=◌, ◌>>◌, ok_or, refuse_if, if◌then◌else◌,
}
use expenseflow.Oidc.Flow.{
  Node, OidcSettings, IdTokenClaims, Audience, JsonWebKey, assert_enabled, issuer, client_id,
  redirect_uri, verify_flow_state,
}
use expenseflow.Oidc.Requests.{OidcDiscovery, Provider, body_or, discovery}

abbrev pub is_text : Option Text → Text → Bool
is_text none t = false
is_text (some s) t = s == t

-- `audience.includes(clientId)`
abbrev pub has_audience : Audience → Text → Bool
has_audience Audience.no_audience client = false
has_audience (Audience.one_audience a) client = a == client
has_audience (Audience.many_audiences audiences) client = any (λ a. a == client) audiences

-- `!claims.exp || claims.exp * 1000 <= now`
abbrev pub is_expired : ℕ → Option ℕ → Bool
is_expired now none = true
is_expired now (some exp) = eqb exp 0 || leb (exp * 1000) now

abbrev pub is_unverified : Option Bool → Bool
is_unverified (some false) = true
is_unverified (some true) = false
is_unverified none = false

abbrev pub filled : Option Text → Option Text
filled none = none
filled (some t) = if is_empty t then none else some t

abbrev pub find_key : Text → Option (List JsonWebKey) → Option JsonWebKey
find_key kid none = none
find_key kid (some keys) = find (λ candidate. is_text candidate.kid kid) keys

-- `parts` of a token that has three.
abbrev pub three_parts : List Text → Option (Text × Text × Text)
three_parts (a ∷ b ∷ c ∷ []) = some (a, b, c)
three_parts _ = none

abbrev pub with_secret : Option Text → List (Text × Text) → List (Text × Text)
with_secret secret form = elim (filled secret) [
  | none ↦ form
  | some s ↦ form ++ (text "client_secret", s) ∷ []
]

module _ (settings : OidcSettings) where
  unfoldable pub token_form : (code client verifier : Text) → List (Text × Text)
  token_form code client verifier = with_secret settings.client_secret (
      (text "grant_type", text "authorization_code")
      ∷ (text "code", code)
      ∷ (text "client_id", client)
      ∷ (text "redirect_uri", redirect_uri settings)
      ∷ (text "code_verifier", verifier)
      ∷ [])

module _ (node : Node) (settings : OidcSettings) where
  -- The checks on the claims of a token whose signature is valid.
  unfoldable pub check_claims : (now : ℕ) → IdTokenClaims → (nonce : Text) → Result Text
  check_claims now claims nonce = do
    own ← issuer settings
    refuse_if (not (is_text claims.iss own)) (unauthorized "ID token issuer or audience is invalid")
    client ← client_id settings
    refuse_if (not (has_audience claims.aud client))
        (unauthorized "ID token issuer or audience is invalid")
    refuse_if (is_expired now claims.exp) (unauthorized "ID token has expired")
    refuse_if (not (is_text claims.nonce nonce)) (unauthorized "ID token nonce validation failed")
    email ←
        ok_or (filled claims.email) (unauthorized "A verified email address is required for SSO")
    refuse_if (is_unverified claims.email_verified)
        (unauthorized "A verified email address is required for SSO")
    ok (node.lower email)

module _ (node : Node) (settings : OidcSettings) (provider : Provider) where
  unfoldable pub verify_id_token : (now : ℕ) → Text → OidcDiscovery → (nonce : Text) → Result Text
  verify_id_token now token found nonce = do
    parts ← ok_or (three_parts (split_on b'.' token)) (unauthorized "Invalid ID token")
    header ← ok_or (node.decode_header parts.0) (unauthorized "Invalid encoded OIDC data")
    claims ← ok_or (node.decode_claims parts.1) (unauthorized "Invalid encoded OIDC data")
    refuse_if (not (is_text header.alg (text "RS256")))
        (unauthorized "Unsupported ID token signing algorithm")
    kid ← ok_or (filled header.kid) (unauthorized "Unsupported ID token signing algorithm")
    keys ←
        body_or (provider.signing_keys found.jwks_uri)
          (err (unavailable "Unable to load identity provider signing keys"))
    key ← ok_or (find_key kid keys) (unauthorized "ID token signing key was not found")
    valid ← ok_or (node.rsa_verify key (parts.0 ++ b'.' ∷ parts.1) parts.2) (internal "Invalid key")
    refuse_if (not valid) (unauthorized "ID token signature is invalid")
    check_claims node settings now claims nonce

  -- `now` when the cookie is checked, and `later` when the token is: the email address.
  unfoldable pub exchange_callback :
      (now later : ℕ) → (code returned_state flow_cookie : Text) → Result Text
  exchange_callback now later code returned_state flow_cookie = do
    assert_enabled node settings
    flow ← verify_flow_state node settings now flow_cookie
    refuse_if (not (flow.state == returned_state)) (unauthorized "SSO state validation failed")
    found ← discovery settings provider
    client ← client_id settings
    body ←
        body_or
          (provider.id_token found.token_endpoint (token_form settings code client flow.verifier))
          (err (unauthorized "SSO authorization code exchange failed"))
    token ← ok_or (filled body) (unauthorized "Identity provider did not return an ID token")
    verify_id_token later token found flow.nonce
