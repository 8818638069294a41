-- ===== src/Oidc/Completing.antt =====
-- A login of oidc.service.ts from its start to its end, with a provider that answers.
use expenseflow.Common.{
  ℕ, ◌+◌, ◌*◌, ◌<◌, ◌≡◌, refl, Text, text, text_eq, text_is_eq, text_eq_iff, number_eq, List, [],
  ◌∷◌, ◌++◌, Option, some, true, false, leb, ok, arith, is_empty, split_on, bind-ok, find,
}
use expenseflow.Database.{Env}
use expenseflow.Oidc.Flow.{Node, OidcSettings, IdTokenClaims, JsonWebKey, issuer, assert_enabled}
use expenseflow.Oidc.Requests.{
  OidcDiscovery, Provider, Answer, AuthorizationRequest, new_flow, discovery,
  create_authorization_request,
}
use expenseflow.Oidc.Exchange.{
  is_text, has_audience, is_expired, is_unverified, filled, token_form, check_claims,
  verify_id_token, exchange_callback,
}
use expenseflow.Oidc.Cookies.{IsNode, create_authorization_request-made}

-- What a provider issues to this client for a login with that nonce.
pub record IsIssued (node : Node) (settings : OidcSettings) (provider : Provider)
    (found : OidcDiscovery) (later : ℕ) (nonce token address : Text) : Type 0 where
  pub head : Text
  pub body : Text
  pub signature : Text
  pub parts : split_on b'.' token ≡ head ∷ body ∷ signature ∷ []
  pub kid : Text
  pub kid_filled : is_empty kid ≡ false
  pub header : node.decode_header head ≡ some (record { alg = some (text "RS256"); kid = some kid })
  pub keys : List JsonWebKey
  pub has_keys : provider.signing_keys found.jwks_uri ≡ Answer.answered (some keys)
  pub key : JsonWebKey
  pub first_named : find (λ candidate. is_text candidate.kid kid) keys ≡ some key
  pub valid : node.rsa_verify key (head ++ b'.' ∷ body) signature ≡ some true
  pub own : Text
  pub has_own : issuer settings ≡ ok own
  pub client : Text
  pub has_client : settings.oidc_client_id ≡ some client
  pub claims : IdTokenClaims
  pub has_claims : node.decode_claims body ≡ some claims
  pub issued : claims.iss ≡ some own
  pub audience : has_audience claims.aud client ≡ true
  pub exp : ℕ
  pub has_exp : claims.exp ≡ some exp
  pub fresh : later < exp * 1000
  pub answered_nonce : claims.nonce ≡ some nonce
  pub has_address : claims.email ≡ some address
  pub address_filled : is_empty address ≡ false
  pub verified : is_unverified claims.email_verified ≡ false

text_same : (t : Text) → text_eq t t ≡ true
text_same t = (text_eq_iff t t).1 refl

is_text-same : (o : Option Text) (t : Text) → o ≡ some t → is_text o t ≡ true
is_text-same o t e = rw e (text_same t)

filled-same : (o : Option Text) (t : Text) → o ≡ some t → is_empty t ≡ false → filled o ≡ some t
filled-same o t e h = rw e (rw h refl)

not_expired-same :
    (now exp : ℕ) (o : Option ℕ) → o ≡ some exp → now < exp * 1000 → is_expired now o ≡ false
not_expired-same now exp o e h = rw e (ground arith)

module _ (node : Node) (settings : OidcSettings) (provider : Provider) where
  verify_id_token-issued :
      (found : OidcDiscovery) (later : ℕ) (nonce token address : Text)
      → IsIssued node settings provider found later nonce token address
      → verify_id_token node settings provider later token found nonce ≡ ok (node.lower address)
  unfolding verify_id_token check_claims
  verify_id_token-issued found later nonce token address i =
      rw
        (
          i.parts,
          i.header,
          i.has_claims,
          text_same (text "RS256"),
          i.kid_filled,
          i.has_keys,
          i.first_named,
          i.valid,
          i.has_own,
          is_text-same i.claims.iss i.own i.issued,
          i.has_client,
          i.audience,
          not_expired-same later i.exp i.claims.exp i.has_exp i.fresh,
          is_text-same i.claims.nonce nonce i.answered_nonce,
          filled-same i.claims.email address i.has_address i.address_filled,
          i.verified,
        )
        refl

  request-enabled :
      (env : Env) (request : AuthorizationRequest)
      → create_authorization_request node settings provider env ≡ ok request
      → assert_enabled node settings ≡ ok tt
  unfolding create_authorization_request
  request-enabled env request e =
      let (_, on, _) = bind-ok (assert_enabled node settings) _ request e in on

  -- If an authorization request was made, its cookie comes back within ten minutes with its
  -- state, and the provider answers with a configuration and a token that it issues to this
  -- client for the request's nonce, then `exchangeCallback` returns the token's address in lower
  -- case.
  pub exchange_callback-completes :
      (laws : IsNode node) (env : Env) (request : AuthorizationRequest) (found : OidcDiscovery)
      (now later : ℕ) (code token address : Text)
      (i : IsIssued node settings provider found later (env.drawn 1) token address)
      → create_authorization_request node settings provider env ≡ ok request
      → now < env.now + 600000
      → discovery settings provider ≡ ok found
      → is_empty token ≡ false
      → provider.id_token found.token_endpoint (token_form settings code i.client (env.drawn 2))
        ≡ Answer.answered (some token)
      → exchange_callback node settings provider now later code (env.drawn 0) request.flow_cookie
        ≡ ok (node.lower address)
  unfolding exchange_callback new_flow
  exchange_callback-completes laws env request found now later code token address i made in_time
        known token_filled answer =
      let (read, _) =
        create_authorization_request-made node laws settings provider env request now made in
      let early : leb (env.now + 600000) now ≡ false = ground arith in
      simp (
        request-enabled env request made,
        read,
        early,
        text_same (env.drawn 0),
        known,
        i.has_client,
        answer,
        token_filled,
        verify_id_token-issued found later (env.drawn 1) token address i,
      )
