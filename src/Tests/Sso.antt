-- ===== src/Tests/Sso.antt =====
-- A login by SSO with a provider that issues one token.
use expenseflow.Common.{
  leb, if◌then◌else◌, ℕ, ◌+◌, ◌-◌, ◌<◌, ◌≡◌, refl, Text, text, text_eq, text_eq_iff, List, [], ◌∷◌,
  ◌++◌, map, Option, none, some, true, has_no, split_on, split_on-plain, split_on-append, arith, ok,
  err, strip_slash, unauthorized,
}
use expenseflow.Oidc.{
  Node, OidcSettings, OidcState, OidcDiscovery, Provider, Answer, AuthorizationRequest, Audience,
  create_authorization_request, exchange_callback, discovery, issuer, verify_flow_state, new_flow,
  enabled, assert_enabled, sign_flow_state,
}
use expenseflow.Oidc.Cookies.{IsNode, Asks, create_authorization_request_lem}
use expenseflow.Oidc.Completing.{IsIssued, exchange_callback-completes}
use expenseflow.Oidc.Verified.{IsVerifiedCallback, exchange_callback-IsVerified}
use expenseflow.Tests.{env_at}

-- Code units above every separator.
abbrev pub lift_up : Text → Text
lift_up t = map (λ c. c + 60) t

abbrev pub lift_down : Text → Text
lift_down t = map (λ c. c - 60) t

abbrev pub encoded : OidcState → Text
encoded s =
    lift_up (s.expires_at ∷ [])
    ++ 0 ∷ (lift_up s.state ++ 0 ∷ (lift_up s.nonce ++ 0 ∷ lift_up s.verifier))

abbrev pub from_parts : List Text → Option OidcState
from_parts ((t ∷ []) ∷ state ∷ nonce ∷ verifier ∷ []) = some (record {
  state = lift_down state;
  nonce = lift_down nonce;
  verifier = lift_down verifier;
  expires_at = t - 60;
})
from_parts _ = none

pub lifted-back : (t : Text) → lift_down (lift_up t) ≡ t
lifted-back [] = refl
lifted-back (c ∷ t) = let same : c + 60 - 60 ≡ c = omega arith in rw (same, lifted-back t) refl

pub lifted-free : (sep : ℕ) (t : Text) → sep < 60 → has_no sep (lift_up t) ≡ true
lifted-free sep [] h = refl
lifted-free sep (c ∷ t) h = ground (arith, lifted-free sep t)

lifted-plain : (t : Text) → has_no 0 (lift_up t) ≡ true
lifted-plain t = lifted-free 0 t (omega arith)

lifted-dots : (t : Text) → has_no b'.' (lift_up t) ≡ true
lifted-dots t = lifted-free b'.' t (omega arith)

dots-append :
    (s t : Text) → has_no b'.' s ≡ true → has_no b'.' t ≡ true → has_no b'.' (s ++ t) ≡ true
dots-append [] t h k = k
dots-append (c ∷ s) t h k = ground (arith, dots-append s t)

encoded-dots : (s : OidcState) → has_no b'.' (encoded s) ≡ true
encoded-dots s =
    let a = lifted-dots s.verifier in
    let b = dots-append (lift_up s.nonce) (0 ∷ lift_up s.verifier) (lifted-dots s.nonce) a in
    let c =
      dots-append (lift_up s.state) (0 ∷ (lift_up s.nonce ++ 0 ∷ lift_up s.verifier))
        (lifted-dots s.state) b in
    ground arith

encoded-read : (s : OidcState) → from_parts (split_on 0 (encoded s)) ≡ some s
encoded-read s =
    let last = split_on-plain 0 (lift_up s.verifier) (lifted-plain s.verifier) in
    let nonce = split_on-append 0 (lift_up s.nonce) (lift_up s.verifier) (lifted-plain s.nonce) in
    let state =
      split_on-append 0 (lift_up s.state) (lift_up s.nonce ++ 0 ∷ lift_up s.verifier)
        (lifted-plain s.state) in
    let all_ =
      split_on-append 0 (lift_up (s.expires_at ∷ []))
        (lift_up s.state ++ 0 ∷ (lift_up s.nonce ++ 0 ∷ lift_up s.verifier))
        (lifted-plain (s.expires_at ∷ [])) in
    let time : s.expires_at + 60 - 60 ≡ s.expires_at = omega arith in
    rw
      (
        all_,
        state,
        nonce,
        last,
        lifted-back s.state,
        lifted-back s.nonce,
        lifted-back s.verifier,
        time,
      )
      refl

abbrev pub address : Text
address = 64 ∷ []

abbrev head : Text
head = 1 ∷ []

-- The claims that the provider makes, to this client and for the nonce that `env_at 100 70` draws.
abbrev pub node : Node
node = record {
  sha256_base64url = λ t. t;
  hmac_base64url = λ secret payload. 5 ∷ [];
  utf8 = λ t. t;
  timing_safe_equal = text_eq;
  encode_state = encoded;
  decode_state = λ t. from_parts (split_on 0 t);
  decode_header = λ t. some (record { alg = some (text "RS256"); kid = some (6 ∷ []) });
  decode_claims = λ t. some (record {
    iss = some (8 ∷ []);
    aud = Audience.one_audience (9 ∷ []);
    exp = some 900;
    nonce = some (70 ∷ 1 ∷ []);
    email = some address;
    email_verified = none;
  });
  rsa_verify = λ key signed signature. some true;
  lower = λ t. t;
  url_with_params = λ url params. some url;
}

pub node-IsNode : IsNode node
node-IsNode = record {
  state_dots = encoded-dots;
  state_filled = λ s. refl;
  state_read = encoded-read;
  mac_dots = λ secret payload. refl;
  mac_filled = λ secret payload. refl;
  bytes_compared = λ a b h. text_eq_iff a b;
}

abbrev pub oidc : OidcSettings
oidc = record {
  oidc_enabled = some (text "true");
  issuer_url = some (8 ∷ []);
  oidc_client_id = some (9 ∷ []);
  oidc_redirect_uri = none;
  client_secret = none;
  jwt_secret = some (7 ∷ []);
}

abbrev pub configuration : OidcDiscovery
configuration = record {
  discovered_issuer = 8 ∷ [];
  authorization_endpoint = 2 ∷ [];
  token_endpoint = 3 ∷ [];
  jwks_uri = 4 ∷ [];
}

-- `head.body.signature`
abbrev pub token : Text
token = 1 ∷ b'.' ∷ 2 ∷ b'.' ∷ 3 ∷ []

abbrev pub provider : Provider
provider = record {
  configuration = λ url. Answer.answered configuration;
  id_token = λ url form. Answer.answered (some token);
  signing_keys = λ url. Answer.answered (some (record { kid = some (6 ∷ []); material = [] } ∷ []));
}

abbrev pub request : AuthorizationRequest
request = record {
  authorization_url = 2 ∷ [];
  flow_cookie = encoded (new_flow (env_at 100 70)) ++ b'.' ∷ 5 ∷ [];
}

requested : create_authorization_request node oidc provider (env_at 100 70) ≡ ok request
unfolding create_authorization_request assert_enabled enabled discovery issuer strip_slash
    sign_flow_state text_eq text new_flow
requested = refl

create_authorization_request_lem_example :
    (flow : OidcState) × (verify_flow_state node oidc 5000 request.flow_cookie
      ≡ (if leb 600100 5000 then err (unauthorized "SSO login request has expired") else ok flow))
    × (flow.state ≡ 70 ∷ 0 ∷ [])
    × (flow.nonce ≡ 70 ∷ 1 ∷ [])
    × (flow.verifier ≡ 70 ∷ 2 ∷ [])
    × ((found : OidcDiscovery) × (params : List (Text × Text)) × (discovery oidc provider
          ≡ ok found)
        × Asks node oidc flow params
        × (node.url_with_params found.authorization_endpoint params
            ≡ some request.authorization_url))
create_authorization_request_lem_example =
    create_authorization_request_lem node node-IsNode oidc provider (env_at 100 70) request 5000
      requested

issued : IsIssued node oidc provider configuration 6000 (70 ∷ 1 ∷ []) token address
unfolding split_on issuer strip_slash text_eq
issued = record {
  head = head;
  body = 2 ∷ [];
  signature = 3 ∷ [];
  parts = refl;
  kid = 6 ∷ [];
  kid_filled = refl;
  header = refl;
  keys = record { kid = some (6 ∷ []); material = [] } ∷ [];
  has_keys = refl;
  key = record { kid = some (6 ∷ []); material = [] };
  first_named = refl;
  valid = refl;
  own = 8 ∷ [];
  has_own = refl;
  client = 9 ∷ [];
  has_client = refl;
  claims = record {
    iss = some (8 ∷ []);
    aud = Audience.one_audience (9 ∷ []);
    exp = some 900;
    nonce = some (70 ∷ 1 ∷ []);
    email = some address;
    email_verified = none;
  };
  has_claims = refl;
  issued = refl;
  audience = refl;
  exp = 900;
  has_exp = refl;
  fresh = omega arith;
  answered_nonce = refl;
  has_address = refl;
  address_filled = refl;
  verified = refl;
}

found_configuration : discovery oidc provider ≡ ok configuration
unfolding discovery issuer strip_slash text_eq
found_configuration = refl

pub completed :
    exchange_callback node oidc provider 5000 6000 (1 ∷ []) (70 ∷ 0 ∷ []) request.flow_cookie
    ≡ ok address
completed =
    exchange_callback-completes node oidc provider node-IsNode (env_at 100 70) request configuration
      5000 6000 (1 ∷ []) token address issued requested (omega arith) found_configuration refl refl

exchange_callback-completes_example :
    exchange_callback node oidc provider 5000 6000 (1 ∷ []) (70 ∷ 0 ∷ []) request.flow_cookie
    ≡ ok address
exchange_callback-completes_example =
    exchange_callback-completes node oidc provider node-IsNode (env_at 100 70) request configuration
      5000 6000 (1 ∷ []) token address issued requested (omega arith) found_configuration refl refl

exchange_callback-IsVerified_example :
    IsVerifiedCallback node oidc provider 5000 6000
      (1 ∷ [])
      (70 ∷ 0 ∷ [])
      request.flow_cookie
      address
exchange_callback-IsVerified_example =
    exchange_callback-IsVerified node node-IsNode oidc provider 5000 6000 (1 ∷ []) (70 ∷ 0 ∷ [])
      request.flow_cookie address completed
