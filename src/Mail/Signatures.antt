-- ===== src/Mail/Signatures.antt =====
-- What email-provider.ts signs, and what it sends.
use expenseflow.Common.{
  take, In, inl, inr, subst, ℕ, ◌≡◌, refl, ap, Text, text, List, [], ◌∷◌, ◌++◌, join_with, Option,
  none, some, ok, bind-ok_or, internal,
}
use mathlib.Core.List.{append_assoc}
use expenseflow.Receipts.{Platform, amz_date, token_entry}
use expenseflow.Mail.{
  EmailMessage, MailSettings, MailRequest, Outside, signed_headers, canonical_headers,
  canonical_request, authorization, get_signature_key, ses_host, ses_request,
}

-- The canonical form of headers as AWS defines it: a line for each, and the names between
-- semicolons.
unfoldable pub header_lines : List (Text × Text) → Text
header_lines [] = []
header_lines ((name, value) ∷ headers) = name ++ b':' ∷ value ++ 10 ∷ header_lines headers

unfoldable pub header_names : List (Text × Text) → Text
header_names [] = []
header_names ((name, value) ∷ []) = name
header_names ((name, value) ∷ h ∷ headers) = name ++ b';' ∷ header_names (h ∷ headers)

abbrev pub sent_headers : (host payload_hash date : Text) → Option Text → List (Text × Text)
sent_headers host payload_hash date session_token =
    (text "content-type", text "application/json")
    ∷ (text "host", host)
    ∷ (text "x-amz-content-sha256", payload_hash)
    ∷ (text "x-amz-date", date)
    ∷ token_entry (text "x-amz-security-token") session_token

names_sent :
    (host payload_hash date : Text) (session_token : Option Text)
    → signed_headers session_token
      ≡ header_names (sent_headers host payload_hash date session_token)
unfolding header_names token_entry text
names_sent host payload_hash date none = refl
names_sent host payload_hash date (some []) = refl
names_sent host payload_hash date (some (c ∷ t)) = refl

lines_sent :
    (host payload_hash date : Text) (session_token : Option Text)
    → canonical_headers host payload_hash date session_token
      ≡ header_lines (sent_headers host payload_hash date session_token)
unfolding canonical_headers header_lines token_entry join_with text
lines_sent host payload_hash date none = simp append_assoc
lines_sent host payload_hash date (some []) = simp append_assoc
lines_sent host payload_hash date (some (c ∷ t)) = simp append_assoc

-- What AWS signs: the request in its canonical form.
abbrev pub aws_request : (headers : List (Text × Text)) → (body_hash : Text) → Text
aws_request headers body_hash =
    text "POST"
    ++ (10
        ∷ (text "/v2/email/outbound-emails"
            ++ (10
                ∷ 10
                ∷ (header_lines headers ++ (10 ∷ (header_names headers ++ (10 ∷ body_hash)))))))

-- The header that AWS asks for: the signature of the canonical request by the key of the day, the
-- region and the service.
abbrev pub aws_authorization :
    Platform → (region key_id secret date : Text) → List (Text × Text) → (body_hash : Text) → Text
aws_authorization platform region key_id secret date headers body_hash =
    let day = take 8 date in
    let scope = day ++ b'/' ∷ region ++ text "/ses/aws4_request" in
    let key =
      platform.hmac_sha256
        (platform.hmac_sha256
          (platform.hmac_sha256 (platform.hmac_sha256 (text "AWS4" ++ secret) day) region)
          (text "ses"))
        (text "aws4_request") in
    let signed =
      text "AWS4-HMAC-SHA256"
      ++ (10
          ∷ (date
              ++ (10 ∷ (scope ++ (10 ∷ platform.sha256_hex (aws_request headers body_hash)))))) in
    text "AWS4-HMAC-SHA256 Credential="
    ++ (key_id
        ++ b'/' ∷ scope
        ++ (text ", SignedHeaders="
            ++ (header_names headers
                ++ (text ", Signature=" ++ platform.hex (platform.hmac_sha256 key signed)))))

canonical_request-aws_request :
    (headers : List (Text × Text)) (body_hash : Text)
    → canonical_request (header_lines headers) (header_names headers) body_hash
      ≡ aws_request headers body_hash
unfolding canonical_request join_with
canonical_request-aws_request headers body_hash = refl

authorization-aws_authorization :
    (platform : Platform) (region key_id secret date : Text) (headers : List (Text × Text))
    (body_hash : Text)
    → authorization platform region key_id secret date
        (header_names headers)
        (canonical_request (header_lines headers) (header_names headers) body_hash)
      ≡ aws_authorization platform region key_id secret date headers body_hash
unfolding authorization get_signature_key join_with
authorization-aws_authorization platform region key_id secret date headers body_hash =
    rw (canonical_request-aws_request headers body_hash) refl

authorization-sent :
    (platform : Platform) (region key_id secret date hash : Text) (token : Option Text)
    → authorization platform region key_id secret date (signed_headers token) (
        canonical_request
          (canonical_headers (ses_host region) hash date token)
          (signed_headers token)
          hash)
      ≡ aws_authorization platform region key_id secret date
          (sent_headers (ses_host region) hash date token)
          hash
authorization-sent platform region key_id secret date hash token =
    rw (names_sent (ses_host region) hash date token, lines_sent (ses_host region) hash date token)
      (authorization-aws_authorization platform region key_id secret date
        (sent_headers (ses_host region) hash date token) hash)

-- A request whose signature is the one that its receiver computes from its headers and its body.
abbrev pub IsSigned : Platform → MailSettings → ℕ → MailRequest → Type 0
IsSigned platform settings now request =
    (headers : List (Text × Text)) × (region key_id secret host date : Text) × (settings.aws_region
      ≡ some region)
    × (settings.aws_access_key_id ≡ some key_id)
    × (settings.aws_secret_access_key ≡ some secret)
    × (host ≡ text "email." ++ (region ++ text ".amazonaws.com"))
    × (request.url ≡ text "https://" ++ (host ++ text "/v2/email/outbound-emails"))
    × In (text "host", host) headers
    × In (text "x-amz-content-sha256", platform.sha256_hex request.body) headers
    × (date ≡ amz_date platform now)
    × In (text "x-amz-date", date) headers
    × (request.headers
        ≡ headers
          ++ (
            text "authorization",
            aws_authorization platform region key_id secret date headers
                (platform.sha256_hex request.body),
          )
            ∷ [])

ok_same : {A : Type 0} {a b : A} → ok a ≡ ok b → a ≡ b
ok_same e = cc (e)

-- A request that is made for SES goes to the host of the region, carries that host, the hash of
-- its body and the date among its headers, and its last header is the one of AWS's signature
-- scheme, version 4: the key of the day, the region and SES signs the hash of a POST to the
-- request's path with the other headers that are sent, their names and the hash of the body.
pub ses_request-IsSigned :
    (platform : Platform) (outside : Outside) (settings : MailSettings) (now : ℕ)
    (message : EmailMessage) (request : MailRequest)
    → ses_request platform outside settings now message ≡ ok request
    → IsSigned platform settings now request
unfolding ses_request ses_host
ses_request-IsSigned platform outside settings now message request e =
    let (region, has_region, e1) =
      bind-ok_or settings.aws_region (internal "AWS_REGION does not exist") _ request e in
    let (key_id, has_key, e2) =
      bind-ok_or settings.aws_access_key_id (internal "AWS_ACCESS_KEY_ID does not exist") _ request
        e1 in
    let (secret, has_secret, e3) =
      bind-ok_or settings.aws_secret_access_key (internal "AWS_SECRET_ACCESS_KEY does not exist") _
        request e2 in
    let (from, _, e4) =
      bind-ok_or settings.from_email (internal "SES_FROM_EMAIL does not exist") _ request e3 in
    let sent = ok_same e4 in
    let hash = platform.sha256_hex (outside.outbound_json from message) in
    let date = amz_date platform now in
    let token = settings.aws_session_token in
    let headers = sent_headers (ses_host region) hash date token in
    subst (IsSigned platform settings now) sent (
      headers,
      region,
      key_id,
      secret,
      ses_host region,
      date,
      has_region,
      has_key,
      has_secret,
      refl,
      refl,
      inr (inl refl),
      inr (inr (inl refl)),
      refl,
      inr (inr (inr (inl refl))),
      ap (λ a. headers ++ (text "authorization", a) ∷ [])
          (authorization-sent platform region key_id secret date hash token),
    )
