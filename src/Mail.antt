-- ===== src/Mail.antt =====
-- Delivery of queued messages, apps/api/src/notifications/email-provider.ts and
-- notifications.processor.ts beside it. Node's digests are `Platform` of Receipts; JSON, the console
-- and the network are parameters.
pub mod Signatures
use expenseflow.Common.{
  ℕ, Text, text, text_is_eq, List, [], ◌∷◌, ◌++◌, map, take, join_with, Option, none, some, Bool,
  true, ◌==◌, ok, err, Result, internal, if◌then◌else◌, ◌>>=◌, ◌>>◌, ok_or,
}
use expenseflow.Schema.{NotificationJob}
use expenseflow.Receipts.{Platform, amz_date, token_entry}

pub record EmailMessage : Type 0 where
  pub to : Text
  pub subject : Text
  pub plain_text : Text

pub data MailProvider : Type 0 where
  console ses : MailProvider

-- `EmailDeliveryResult`
pub record Delivery : Type 0 where
  pub delivered : Bool
  pub provider : MailProvider
  pub message_id : Option Text

-- The environment variables as `config.get` returns them.
pub record MailSettings : Type 0 where
  pub email_provider : Option Text
  pub aws_region : Option Text
  pub aws_access_key_id : Option Text
  pub aws_secret_access_key : Option Text
  pub aws_session_token : Option Text
  pub from_email : Option Text

pub record MailRequest : Type 0 where
  pub url : Text
  pub headers : List (Text × Text)
  pub body : Text

-- What SES answers: an exception, a status that is not `ok`, or the id of the message.
pub data MailAnswer : Type 0 where
  unreachable : MailAnswer
  refused : (status : Text) → (error_body : Text) → MailAnswer
  accepted : (message_id : Option Text) → MailAnswer

-- `JSON.stringify` of the message for SES, `toLowerCase`, and SES itself.
pub record Outside : Type 0 where
  pub outbound_json : (from : Text) → EmailMessage → Text
  pub lower : Text → Text
  pub deliver : MailRequest → MailAnswer

abbrev pub new_line : Text
new_line = 10 ∷ []

abbrev pub signed_headers : Option Text → Text
signed_headers none = text "content-type;host;x-amz-content-sha256;x-amz-date"
signed_headers (some []) = text "content-type;host;x-amz-content-sha256;x-amz-date"
signed_headers (some (c ∷ t)) =
    text "content-type;host;x-amz-content-sha256;x-amz-date;x-amz-security-token"

abbrev pub token_line : Text × Text → Text
token_line (name, value) = name ++ b':' ∷ value

unfoldable pub canonical_headers : (host payload_hash date : Text) → Option Text → Text
canonical_headers host payload_hash date session_token =
    join_with new_line (
      text "content-type:application/json"
      ∷ (text "host:" ++ host)
      ∷ (text "x-amz-content-sha256:" ++ payload_hash)
      ∷ (text "x-amz-date:" ++ date)
      ∷ map token_line (token_entry (text "x-amz-security-token") session_token))
    ++ new_line

unfoldable pub canonical_request : (headers names payload_hash : Text) → Text
canonical_request headers names payload_hash =
    join_with new_line
      (text "POST" ∷ text "/v2/email/outbound-emails" ∷ [] ∷ headers ∷ names ∷ payload_hash ∷ [])

unfoldable pub ses_host : Text → Text
ses_host region = text "email." ++ (region ++ text ".amazonaws.com")

abbrev pub delivery_of : MailAnswer → Result Delivery
delivery_of MailAnswer.unreachable = err (internal "fetch failed")
delivery_of (MailAnswer.refused status error_body) = err (internal "SES delivery failed")
delivery_of (MailAnswer.accepted message_id) =
    ok (record { delivered = true; provider = MailProvider.ses; message_id = message_id })

-- The console always takes a message.
unfoldable pub send_by_console : EmailMessage → Result Delivery
send_by_console message =
    ok (record { delivered = true; provider = MailProvider.console; message_id = none })

abbrev pub provider_name : Option Text → Text
provider_name none = text "console"
provider_name (some name) = name

module _ (platform : Platform) where
  unfoldable pub get_signature_key : (secret date region service : Text) → Text
  get_signature_key secret date region service =
      let date_key = platform.hmac_sha256 (text "AWS4" ++ secret) date in
      let region_key = platform.hmac_sha256 date_key region in
      let service_key = platform.hmac_sha256 region_key service in
      platform.hmac_sha256 service_key (text "aws4_request")

  -- The header `authorization` for a canonical request.
  unfoldable pub authorization :
      (region access_key_id secret_access_key date names request : Text) → Text
  authorization region access_key_id secret_access_key date names request =
      let date_stamp = take 8 date in
      let scope = date_stamp ++ b'/' ∷ region ++ text "/ses/aws4_request" in
      let string_to_sign =
        join_with new_line
          (text "AWS4-HMAC-SHA256" ∷ date ∷ scope ∷ platform.sha256_hex request ∷ []) in
      let signing_key = get_signature_key secret_access_key date_stamp region (text "ses") in
      let signature = platform.hex (platform.hmac_sha256 signing_key string_to_sign) in
      text "AWS4-HMAC-SHA256 Credential="
      ++ (access_key_id
          ++ b'/' ∷ scope
          ++ (text ", SignedHeaders=" ++ (names ++ (text ", Signature=" ++ signature))))

  -- The request to SES: the address, the headers with the signature, and the body.
  unfoldable pub ses_request :
      Outside → MailSettings → (now : ℕ) → EmailMessage → Result MailRequest
  ses_request outside settings now message = do
    region ← ok_or settings.aws_region (internal "AWS_REGION does not exist")
    access_key_id ← ok_or settings.aws_access_key_id (internal "AWS_ACCESS_KEY_ID does not exist")
    secret_access_key ←
        ok_or settings.aws_secret_access_key (internal "AWS_SECRET_ACCESS_KEY does not exist")
    from ← ok_or settings.from_email (internal "SES_FROM_EMAIL does not exist")
    let host = ses_host region
    let body = outside.outbound_json from message
    let date = amz_date platform now
    let payload_hash = platform.sha256_hex body
    let names = signed_headers settings.aws_session_token
    let request =
        canonical_request (canonical_headers host payload_hash date settings.aws_session_token)
          names payload_hash
    ok (record {
      url = text "https://" ++ (host ++ text "/v2/email/outbound-emails");
      headers =
          (text "content-type", text "application/json")
            ∷ (text "host", host)
            ∷ (text "x-amz-content-sha256", payload_hash)
            ∷ (text "x-amz-date", date)
            ∷ token_entry (text "x-amz-security-token") settings.aws_session_token
          ++ (
            text "authorization",
            authorization region access_key_id secret_access_key date names request,
          )
            ∷ [];
      body = body;
    })

  unfoldable pub send_by_ses : Outside → MailSettings → (now : ℕ) → EmailMessage → Result Delivery
  send_by_ses outside settings now message =
      ses_request outside settings now message >>= λ request. delivery_of (outside.deliver request)

  unfoldable pub send : Outside → MailSettings → (now : ℕ) → EmailMessage → Result Delivery
  send outside settings now message =
      if outside.lower (provider_name settings.email_provider) == text "ses"
      then send_by_ses outside settings now message
      else send_by_console message

  -- `process`, less its log line.
  unfoldable pub process : Outside → MailSettings → (now : ℕ) → NotificationJob → Result Delivery
  process outside settings now job =
      send outside settings now
        (record { to = job.recipient_email; subject = job.subject; plain_text = job.message })
