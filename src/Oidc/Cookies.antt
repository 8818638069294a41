-- ===== src/Oidc/Cookies.antt =====
-- The flow cookie of oidc.service.ts, written at the start of a login and read at its callback.
use expenseflow.Common.{
  In, inl, inr, text, leb, if◌then◌else◌, has_no, split_on-plain, split_on-append, split_on, ℕ, ◌+◌,
  ◌≡◌, refl, sym, ap, ◌∙◌, Text, text_is_eq, number_eq, List, [], ◌∷◌, ◌++◌, some, true, false, ◌↔◌,
  length, ok, err, arith, unauthorized, is_empty, bind-ok, bind-ok_or,
}
use expenseflow.Database.{Env}
use expenseflow.Oidc.Flow.{
  Node, OidcSettings, OidcState, assert_enabled, sign_flow_state, verify_flow_state,
}
use expenseflow.Oidc.Requests.{
  OidcDiscovery, Provider, AuthorizationRequest, new_flow, discovery, authorization_params,
  create_authorization_request,
}

-- Node's base64url has no dot, a signature and JSON are not empty, JSON is read back, and the
-- comparison of two buffers of one length says whether they are the same.
pub record IsNode (node : Node) : Type 0 where
  pub state_dots : (state : OidcState) → has_no b'.' (node.encode_state state) ≡ true
  pub state_filled : (state : OidcState) → is_empty (node.encode_state state) ≡ false
  pub state_read : (state : OidcState) → node.decode_state (node.encode_state state) ≡ some state
  pub mac_dots : (secret payload : Text) → has_no b'.' (node.hmac_base64url secret payload) ≡ true
  pub mac_filled : (secret payload : Text) → is_empty (node.hmac_base64url secret payload) ≡ false
  pub bytes_compared :
      (a b : List ℕ) → length a ≡ length b → (node.timing_safe_equal a b ≡ true) ↔ (a ≡ b)

-- Parameters that ask the provider for a code in this flow.
pub record Asks (node : Node) (settings : OidcSettings) (flow : OidcState)
    (params : List (Text × Text)) : Type 0 where
  pub client : Text
  pub has_client : settings.oidc_client_id ≡ some client
  pub names_client : In (text "client_id", client) params
  pub for_code : In (text "response_type", text "code") params
  pub with_state : In (text "state", flow.state) params
  pub with_nonce : In (text "nonce", flow.nonce) params
  pub challenged : In (text "code_challenge", node.sha256_base64url flow.verifier) params
  pub by_digest : In (text "code_challenge_method", text "S256") params

authorization_params-Asks :
    (node : Node) (settings : OidcSettings) (client : Text) (flow : OidcState)
    → settings.oidc_client_id ≡ some client
    → Asks node settings flow (authorization_params node settings client flow)
unfolding authorization_params
authorization_params-Asks node settings client flow has_client = record {
  client = client;
  has_client = has_client;
  names_client = inl refl;
  for_code = inr (inl refl);
  with_state = inr (inr (inr (inr (inl refl))));
  with_nonce = inr (inr (inr (inr (inr (inl refl)))));
  challenged = inr (inr (inr (inr (inr (inr (inl refl))))));
  by_digest = inr (inr (inr (inr (inr (inr (inr (inl refl)))))));
}

module _ (node : Node) (laws : IsNode node) (settings : OidcSettings) where
  pub verify_flow_state-sign_flow_state :
      (state : OidcState) (cookie : Text) (now : ℕ)
      → sign_flow_state node settings state ≡ ok cookie
      → verify_flow_state node settings now cookie ≡ (
          if leb state.expires_at now
          then err (unauthorized "SSO login request has expired")
          else ok state)
  unfolding sign_flow_state verify_flow_state
  verify_flow_state-sign_flow_state state cookie now e =
      let (secret, has, made) = bind-ok_or settings.jwt_secret _ _ cookie e in
      let payload = node.encode_state state in
      let mac = node.hmac_base64url secret payload in
      let is_cookie : payload ++ b'.' ∷ mac ≡ cookie = cc (made) in
      let parts : split_on b'.' cookie ≡ payload ∷ mac ∷ [] =
        ap (split_on b'.') (sym is_cookie)
        ∙ (split_on-append b'.' payload mac (laws.state_dots state)
            ∙ ap (λ parts. payload ∷ parts)
                (split_on-plain b'.' mac (laws.mac_dots secret payload))) in
      let bytes = (laws.bytes_compared (node.utf8 mac) (node.utf8 mac) refl).1 refl in
      let counted = (number_eq.same_iff (length (node.utf8 mac)) (length (node.utf8 mac))).1 refl in
      rw
        (
          parts,
          laws.state_filled state,
          laws.mac_filled secret payload,
          has,
          counted,
          bytes,
          laws.state_read state,
        )
        (ground arith)

  -- What a request that has been made is made of.
  pub create_authorization_request-made :
      (provider : Provider) (env : Env) (request : AuthorizationRequest) (later : ℕ)
      → create_authorization_request node settings provider env ≡ ok request
      → (verify_flow_state node settings later request.flow_cookie ≡ (
          if leb (env.now + 600000) later
          then err (unauthorized "SSO login request has expired")
          else ok (new_flow env)))
        × ((found : OidcDiscovery) × (client : Text) × (discovery settings provider ≡ ok found)
            × (settings.oidc_client_id ≡ some client)
            × (node.url_with_params found.authorization_endpoint
                  (authorization_params node settings client (new_flow env))
                ≡ some request.authorization_url))
  unfolding create_authorization_request new_flow
  create_authorization_request-made provider env request later e =
      let (_, _, e1) = bind-ok (assert_enabled node settings) _ request e in
      let (found, d, e2) = bind-ok (discovery settings provider) _ request e1 in
      let (client, c, e3) = bind-ok_or settings.oidc_client_id _ _ request e2 in
      let (url, u, e4) = bind-ok_or _ _ _ request e3 in
      let (cookie, k, e5) = bind-ok (sign_flow_state node settings (new_flow env)) _ request e4 in
      let made : record { authorization_url = url; flow_cookie = cookie } ≡ request = cc (e5) in
      let read = verify_flow_state-sign_flow_state (new_flow env) cookie later k in
      let same : cookie ≡ request.flow_cookie = ap (λ r. r.flow_cookie) made in
      (rw (sym same) read, (found, client, d, c, u ∙ ap (λ r. some r.authorization_url) made))

  -- The cookie of an authorization request is read back for ten minutes as a flow whose state,
  -- nonce and verifier are the three texts drawn, and is refused as expired from then on; the
  -- address of the request is made of the discovered endpoint and of parameters that ask for a
  -- code for this client with that state, that nonce and the SHA-256 challenge of that verifier;
  -- base64url of JSON and signatures are assumed to have no dot and not to be empty, and JSON to
  -- be read back.
  pub create_authorization_request_lem :
      (provider : Provider) (env : Env) (request : AuthorizationRequest) (later : ℕ)
      → create_authorization_request node settings provider env ≡ ok request
      → (flow : OidcState) × (verify_flow_state node settings later request.flow_cookie ≡ (
          if leb (env.now + 600000) later
          then err (unauthorized "SSO login request has expired")
          else ok flow))
        × (flow.state ≡ env.drawn 0)
        × (flow.nonce ≡ env.drawn 1)
        × (flow.verifier ≡ env.drawn 2)
        × ((found : OidcDiscovery) × (params : List (Text × Text)) × (discovery settings provider
              ≡ ok found)
            × Asks node settings flow params
            × (node.url_with_params found.authorization_endpoint params
                ≡ some request.authorization_url))
  unfolding new_flow
  create_authorization_request_lem provider env request later e =
      let (read, (found, client, known, has_client, address)) =
        create_authorization_request-made provider env request later e in
      (
        new_flow env,
        read,
        refl,
        refl,
        refl,
        (
          found,
          authorization_params node settings client (new_flow env),
          known,
          authorization_params-Asks node settings client (new_flow env) has_client,
          address,
        ),
      )
