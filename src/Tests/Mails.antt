-- ===== src/Tests/Mails.antt =====
-- A message sent by SES.
use expenseflow.Common.{◌≡◌, refl, text, [], ◌∷◌, ◌++◌, none, some, ok}
use expenseflow.Receipts.{amz_date}
use expenseflow.Mail.{
  EmailMessage, MailAnswer, MailRequest, MailSettings, Outside, ses_request, signed_headers,
  canonical_headers, canonical_request, authorization, ses_host,
}
use expenseflow.Mail.Signatures.{IsSigned, sent_headers, ses_request-IsSigned}
use expenseflow.Tests.Keys.{platform}

abbrev outside : Outside
outside = record {
  outbound_json = λ from message. message.plain_text;
  lower = λ t. t;
  deliver = λ request. MailAnswer.accepted none;
}

abbrev settings : MailSettings
settings = record {
  email_provider = some (text "ses");
  aws_region = some (1 ∷ []);
  aws_access_key_id = some (2 ∷ []);
  aws_secret_access_key = some (3 ∷ []);
  aws_session_token = some (4 ∷ []);
  from_email = some (5 ∷ []);
}

abbrev message : EmailMessage
message = record { to = 6 ∷ []; subject = 7 ∷ []; plain_text = 8 ∷ [] }

abbrev mailed : MailRequest
mailed = record {
  url = text "https://" ++ (ses_host (1 ∷ []) ++ text "/v2/email/outbound-emails");
  headers =
      sent_headers (ses_host (1 ∷ [])) (platform.sha256_hex (8 ∷ [])) (amz_date platform 100)
        (some (4 ∷ []))
      ++ (
        text "authorization",
        authorization platform (1 ∷ []) (2 ∷ []) (3 ∷ []) (amz_date platform 100)
            (signed_headers (some (4 ∷ [])))
            (canonical_request
              (canonical_headers (ses_host (1 ∷ [])) (platform.sha256_hex (8 ∷ []))
                (amz_date platform 100) (some (4 ∷ [])))
              (signed_headers (some (4 ∷ []))) (platform.sha256_hex (8 ∷ []))),
      )
        ∷ [];
  body = 8 ∷ [];
}

mails : ses_request platform outside settings 100 message ≡ ok mailed
unfolding ses_request
mails = refl

ses_request-IsSigned_example : IsSigned platform settings 100 mailed
ses_request-IsSigned_example =
    ses_request-IsSigned platform outside settings 100 message mailed mails
