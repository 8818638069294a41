-- ===== src/Oidc/Verified.antt =====
-- What a callback has established when oidc.service.ts returns an email address.
use expenseflow.Common.{
  In, In-append, Option, none, [], ◌∷◌, inl, inr, strip_slash, text, ◌++◌, unavailable, split_on, ℕ,
  ◌<◌, ◌≡◌, refl, sym, ap, ◌∙◌, Text, text_is_eq, text_eq_iff, number_eq, List, some, true, false,
  not, ◌==◌, leb, ok, err, arith, is_empty, bind-ok, bind-ok_or, bind-refuse_if, unauthorized,
  internal, bad_request, ◌||◌,
}
use expenseflow.Oidc.Flow.{
  Node, OidcSettings, OidcState, IdTokenClaims, enabled, assert_enabled, issuer, verify_flow_state,
  first_two, same_bytes,
}
use expenseflow.Oidc.Requests.{OidcDiscovery, Provider, Answer, body_or, discovery, is_complete}
use expenseflow.Oidc.Exchange.{filled, token_form, with_secret, exchange_callback}
use expenseflow.Oidc.Cookies.{IsNode}
use expenseflow.Oidc.Facts.{filled-some, body_or-ok}
use expenseflow.Oidc.Tokens.{IsVerifiedClaims, IsSignedToken, verify_id_token-IsSigned}

-- A cookie that this server has signed, for a flow that has not expired.
pub record IsOwnFlow (node : Node) (settings : OidcSettings) (now : ℕ) (cookie : Text)
    (flow : OidcState) : Type 0 where
  pub secret : Text
  pub has_secret : settings.jwt_secret ≡ some secret
  pub payload : Text
  pub signature : Text
  pub parts : first_two (split_on b'.' cookie) ≡ (payload, signature)
  pub signed : node.utf8 signature ≡ node.utf8 (node.hmac_base64url secret payload)
  pub decoded : node.decode_state payload ≡ some flow
  pub fresh : now < flow.expires_at

module _ (node : Node) (settings : OidcSettings) where
  verify_flow_state-IsOwn :
      (laws : IsNode node) (now : ℕ) (cookie : Text) (flow : OidcState)
      → verify_flow_state node settings now cookie ≡ ok flow
      → IsOwnFlow node settings now cookie flow
  unfolding verify_flow_state
  verify_flow_state-IsOwn laws now cookie flow e =
      let parts = first_two (split_on b'.' cookie) in
      let (_, e1) =
        bind-refuse_if (is_empty parts.0 || is_empty parts.1)
          (bad_request "SSO flow cookie is invalid") _ flow e in
      let (secret, has_secret, e2) =
        bind-ok_or settings.jwt_secret (internal "JWT_SECRET does not exist") _ flow e1 in
      let (same, e3) =
        bind-refuse_if
          (not
            (same_bytes node (node.utf8 parts.1) (node.utf8 (node.hmac_base64url secret parts.0))))
          (unauthorized "SSO flow cookie signature is invalid") _ flow e2 in
      let (decoded, has_decoded, e4) =
        bind-ok_or (node.decode_state parts.0) (unauthorized "Invalid encoded OIDC data") _ flow
          e3 in
      let (alive, e5) =
        bind-refuse_if (leb decoded.expires_at now) (unauthorized "SSO login request has expired") _
          flow e4 in
      let is_flow : decoded ≡ flow = cc (e5) in
      let received = node.utf8 parts.1 in
      let expected = node.utf8 (node.hmac_base64url secret parts.0) in
      record {
        secret = secret;
        has_secret = has_secret;
        payload = parts.0;
        signature = parts.1;
        parts = refl;
        signed = same_bytes-same laws received expected same;
        decoded = has_decoded ∙ ap some is_flow;
        fresh = rw (sym is_flow) (ground arith);
      }
    where
      same_bytes-same :
          (laws : IsNode node) (a b : List ℕ) → not (same_bytes node a b) ≡ false → a ≡ b
      same_bytes-same laws a b h = (laws.bytes_compared a b (ground arith)).0 (ground arith)

-- The configuration that the provider of this issuer publishes, and that names this issuer.
pub record IsPublished (settings : OidcSettings) (provider : Provider) (found : OidcDiscovery)
    : Type 0 where
  pub own : Text
  pub has_own : issuer settings ≡ ok own
  pub published :
      provider.configuration (strip_slash own ++ text "/.well-known/openid-configuration")
      ≡ Answer.answered found
  pub names_issuer : found.discovered_issuer ≡ own

-- A form that exchanges the code for a token, with the verifier of the flow.
pub record IsExchange (settings : OidcSettings) (code verifier : Text) (form : List (Text × Text))
    : Type 0 where
  pub client : Text
  pub has_client : settings.oidc_client_id ≡ some client
  pub names_client : In (text "client_id", client) form
  pub granted : In (text "grant_type", text "authorization_code") form
  pub of_code : In (text "code", code) form
  pub of_verifier : In (text "code_verifier", verifier) form

discovery-IsPublished :
    (settings : OidcSettings) (provider : Provider) (found : OidcDiscovery)
    → discovery settings provider ≡ ok found
    → IsPublished settings provider found
unfolding discovery
discovery-IsPublished settings provider found e =
    let (own, has_own, e1) = bind-ok (issuer settings) _ found e in
    let (answer, answered, e2) =
      bind-ok
        (body_or
          (provider.configuration (strip_slash own ++ text "/.well-known/openid-configuration"))
          (err (unavailable "Unable to load OIDC provider configuration")))
        _ found e1 in
    let (complete, e3) =
      bind-refuse_if (not (is_complete own answer))
        (unavailable "OIDC provider configuration is incomplete") _ found e2 in
    let is_found : answer ≡ found = cc (e3) in
    record {
      own = own;
      has_own = has_own;
      published = body_or-ok _ _ _ answered ∙ ap Answer.answered is_found;
      names_issuer =
          ap (λ d. d.discovered_issuer) (sym is_found)
          ∙ (text_eq_iff answer.discovered_issuer own).0 (ground arith);
    }

with_secret-In :
    (secret : Option Text) (form : List (Text × Text)) (entry : Text × Text)
    → In entry form
    → In entry (with_secret secret form)
with_secret-In secret form entry m =
    elim (filled secret)
      as (λ given.
        In entry (elim given [ none ↦ form | some s ↦ form ++ (text "client_secret", s) ∷ [] ])) [
          | none ↦ m
          | some s ↦ (In-append entry form _).1 (inl m)
        ]

token_form-IsExchange :
    (settings : OidcSettings) (code client verifier : Text)
    → settings.oidc_client_id ≡ some client
    → IsExchange settings code verifier (token_form settings code client verifier)
unfolding token_form
token_form-IsExchange settings code client verifier has_client = record {
  client = client;
  has_client = has_client;
  names_client = with_secret-In settings.client_secret _ _ (inr (inr (inl refl)));
  granted = with_secret-In settings.client_secret _ _ (inl refl);
  of_code = with_secret-In settings.client_secret _ _ (inr (inl refl));
  of_verifier = with_secret-In settings.client_secret _ _ (inr (inr (inr (inr (inl refl)))));
}

-- A callback of a login that was started here, for an address that the provider has verified.
abbrev pub IsVerifiedCallback :
    Node
    → OidcSettings
    → Provider
    → (now later : ℕ) → (code returned_state cookie email : Text) → Type 0
IsVerifiedCallback node settings provider now later code returned_state cookie email =
    (enabled node settings ≡ true)
    × ((flow : OidcState) × (found : OidcDiscovery) × (form : List (Text × Text)) × (token : Text)
        × (claims : IdTokenClaims) × IsOwnFlow node settings now cookie flow
        × (flow.state ≡ returned_state)
        × IsPublished settings provider found
        × IsExchange settings code flow.verifier form
        × (provider.id_token found.token_endpoint form ≡ Answer.answered (some token))
        × IsSignedToken node provider found token claims
        × IsVerifiedClaims node settings later claims flow.nonce email)

-- If `exchangeCallback` returns an address, SSO is enabled, the cookie is one that this server
-- has signed for a flow that has not expired, the returned state is the flow's, and the token
-- endpoint of the configuration that the issuer publishes has answered a form with this client,
-- the code and the flow's verifier by an RS256 token that one of the keys of that configuration
-- verifies and whose claims name this issuer and client, have not expired, carry the flow's
-- nonce and an address that is not marked unverified; that address in lower case is what is
-- returned. The comparison of buffers is assumed to be equality.
pub exchange_callback-IsVerified :
    (node : Node) (laws : IsNode node) (settings : OidcSettings) (provider : Provider)
    (now later : ℕ) (code returned_state cookie email : Text)
    → exchange_callback node settings provider now later code returned_state cookie ≡ ok email
    → IsVerifiedCallback node settings provider now later code returned_state cookie email
unfolding exchange_callback assert_enabled
exchange_callback-IsVerified node laws settings provider now later code returned_state cookie email
      e =
    let (on, e1) =
      bind-refuse_if (not (enabled node settings)) (bad_request "SSO is not enabled") _ email e in
    let (flow, own, e2) = bind-ok (verify_flow_state node settings now cookie) _ email e1 in
    let (same, e3) =
      bind-refuse_if (not (flow.state == returned_state))
        (unauthorized "SSO state validation failed") _ email e2 in
    let (found, is_found, e4) = bind-ok (discovery settings provider) _ email e3 in
    let (client, has_client, e5) =
      bind-ok_or settings.oidc_client_id (internal "OIDC_CLIENT_ID does not exist") _ email e4 in
    let (body, answer, e6) =
      bind-ok
        (body_or
          (provider.id_token found.token_endpoint (token_form settings code client flow.verifier))
          (err (unauthorized "SSO authorization code exchange failed")))
        _ email e5 in
    let (token, has_token, e7) =
      bind-ok_or (filled body) (unauthorized "Identity provider did not return an ID token") _ email
        e6 in
    let (claims, signed, verified) =
      verify_id_token-IsSigned node settings provider later token found flow.nonce email e7 in
    (
      ground arith,
      (
        flow,
        found,
        token_form settings code client flow.verifier,
        token,
        claims,
        verify_flow_state-IsOwn node settings laws now cookie flow own,
        (text_eq_iff flow.state returned_state).0 (ground arith),
        discovery-IsPublished settings provider found is_found,
        token_form-IsExchange settings code client flow.verifier has_client,
        body_or-ok _ _ _ answer ∙ ap Answer.answered (filled-some body token has_token),
        signed,
        verified,
      ),
    )
