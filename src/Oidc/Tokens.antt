-- ===== src/Oidc/Tokens.antt =====
-- What oidc.service.ts has established of an ID token when it takes an address from it.
use expenseflow.Common.{
  split_on, ℕ, ◌*◌, ◌<◌, ◌≡◌, ◌≢◌, ap, ◌∙◌, Text, text, text_is_eq, number_eq, List, [], ◌∷◌, ◌++◌,
  some, true, false, not, In, ok, err, arith, bind-ok, bind-ok_or, bind-refuse_if, unauthorized,
  internal, unavailable,
}
use expenseflow.Oidc.Flow.{Node, OidcSettings, IdTokenHeader, IdTokenClaims, JsonWebKey, issuer}
use expenseflow.Oidc.Requests.{OidcDiscovery, Provider, Answer, body_or}
use expenseflow.Oidc.Exchange.{
  is_text, has_audience, is_expired, is_unverified, filled, find_key, three_parts, check_claims,
  verify_id_token,
}
use expenseflow.Oidc.Facts.{
  is_text-some, filled-some, not_expired, not_unverified, three_parts-some, find_key-some,
  body_or-ok,
}

-- Claims that the provider makes to this client about an address, in answer to this login.
pub record IsVerifiedClaims (node : Node) (settings : OidcSettings) (now : ℕ)
    (claims : IdTokenClaims) (nonce email : Text) : Type 0 where
  pub own : Text
  pub has_own : issuer settings ≡ ok own
  pub issued : claims.iss ≡ some own
  pub client : Text
  pub has_client : settings.oidc_client_id ≡ some client
  pub audience : has_audience claims.aud client ≡ true
  pub exp : ℕ
  pub has_exp : claims.exp ≡ some exp
  pub fresh : now < exp * 1000
  pub answered_nonce : claims.nonce ≡ some nonce
  pub address : Text
  pub has_address : claims.email ≡ some address
  pub verified : claims.email_verified ≢ some false
  pub returned : email ≡ node.lower address

-- A token that the provider has signed with one of its keys.
pub record IsSignedToken (node : Node) (provider : Provider) (found : OidcDiscovery) (token : Text)
    (claims : IdTokenClaims) : Type 0 where
  pub head : Text
  pub body : Text
  pub signature : Text
  pub parts : split_on b'.' token ≡ head ∷ body ∷ signature ∷ []
  pub header : IdTokenHeader
  pub has_header : node.decode_header head ≡ some header
  pub algorithm : header.alg ≡ some (text "RS256")
  pub has_claims : node.decode_claims body ≡ some claims
  pub keys : List JsonWebKey
  pub has_keys : provider.signing_keys found.jwks_uri ≡ Answer.answered (some keys)
  pub key : JsonWebKey
  pub listed : In key keys
  pub named : (kid : Text) × (header.kid ≡ some kid) × (key.kid ≡ some kid)
  pub valid : node.rsa_verify key (head ++ b'.' ∷ body) signature ≡ some true

module _ (node : Node) (settings : OidcSettings) where
  check_claims-IsVerified :
      (now : ℕ) (claims : IdTokenClaims) (nonce email : Text)
      → check_claims node settings now claims nonce ≡ ok email
      → IsVerifiedClaims node settings now claims nonce email
  unfolding check_claims
  check_claims-IsVerified now claims nonce email e =
      let (own, has_own, e1) = bind-ok (issuer settings) _ email e in
      let (issued, e2) =
        bind-refuse_if (not (is_text claims.iss own))
          (unauthorized "ID token issuer or audience is invalid") _ email e1 in
      let (client, has_client, e3) =
        bind-ok_or settings.oidc_client_id (internal "OIDC_CLIENT_ID does not exist") _ email e2 in
      let (audience, e4) =
        bind-refuse_if (not (has_audience claims.aud client))
          (unauthorized "ID token issuer or audience is invalid") _ email e3 in
      let (alive, e5) =
        bind-refuse_if (is_expired now claims.exp) (unauthorized "ID token has expired") _ email
          e4 in
      let (same_nonce, e6) =
        bind-refuse_if (not (is_text claims.nonce nonce))
          (unauthorized "ID token nonce validation failed") _ email e5 in
      let (address, has_address, e7) =
        bind-ok_or (filled claims.email)
          (unauthorized "A verified email address is required for SSO") _ email e6 in
      let (verified, e8) =
        bind-refuse_if (is_unverified claims.email_verified)
          (unauthorized "A verified email address is required for SSO") _ email e7 in
      let (exp, has_exp, fresh) = not_expired now claims.exp alive in
      record {
        own = own;
        has_own = has_own;
        issued = is_text-some claims.iss own issued;
        client = client;
        has_client = has_client;
        audience = ground arith;
        exp = exp;
        has_exp = has_exp;
        fresh = fresh;
        answered_nonce = is_text-some claims.nonce nonce same_nonce;
        address = address;
        has_address = filled-some claims.email address has_address;
        verified = not_unverified claims.email_verified verified;
        returned = cc (e8);
      }

  pub verify_id_token-IsSigned :
      (provider : Provider) (now : ℕ) (token : Text) (found : OidcDiscovery) (nonce email : Text)
      → verify_id_token node settings provider now token found nonce ≡ ok email
      → (claims : IdTokenClaims) × IsSignedToken node provider found token claims
        × IsVerifiedClaims node settings now claims nonce email
  unfolding verify_id_token
  verify_id_token-IsSigned provider now token found nonce email e =
      let ((head, body, signature), parts, e1) =
        bind-ok_or (three_parts (split_on b'.' token)) (unauthorized "Invalid ID token") _ email
          e in
      let (header, has_header, e2) =
        bind-ok_or (node.decode_header head) (unauthorized "Invalid encoded OIDC data") _ email
          e1 in
      let (claims, has_claims, e3) =
        bind-ok_or (node.decode_claims body) (unauthorized "Invalid encoded OIDC data") _ email
          e2 in
      let (algorithm, e4) =
        bind-refuse_if (not (is_text header.alg (text "RS256")))
          (unauthorized "Unsupported ID token signing algorithm") _ email e3 in
      let (kid, has_kid, e5) =
        bind-ok_or (filled header.kid) (unauthorized "Unsupported ID token signing algorithm") _
          email e4 in
      let (listed, answer, e6) =
        bind-ok
          (body_or (provider.signing_keys found.jwks_uri)
            (err (unavailable "Unable to load identity provider signing keys")))
          _ email e5 in
      let (key, chosen, e7) =
        bind-ok_or (find_key kid listed) (unauthorized "ID token signing key was not found") _ email
          e6 in
      let (valid, checked, e8) =
        bind-ok_or (node.rsa_verify key (head ++ b'.' ∷ body) signature) (internal "Invalid key") _
          email e7 in
      let (is_valid, e9) =
        bind-refuse_if (not valid) (unauthorized "ID token signature is invalid") _ email e8 in
      let (keys, all_keys, member, named) = find_key-some kid listed key chosen in
      (
        claims,
        record {
          head = head;
          body = body;
          signature = signature;
          parts = three_parts-some _ head body signature parts;
          header = header;
          has_header = has_header;
          algorithm = is_text-some header.alg (text "RS256") algorithm;
          has_claims = has_claims;
          keys = keys;
          has_keys = body_or-ok _ _ _ answer ∙ ap Answer.answered all_keys;
          key = key;
          listed = member;
          named = (kid, filled-some header.kid kid has_kid, named);
          valid = checked ∙ ap some (ground arith);
        },
        check_claims-IsVerified now claims nonce email e9,
      )
