-- ===== src/Receipts/Keys.antt =====
-- The configuration of the bucket, object keys and storage addresses of `ReceiptStorageService`.
use expenseflow.Common.{
  ℕ, ◌*◌, Text, text, text_is_eq, number_eq, List, [], ◌∷◌, ◌++◌, Option, none, some, Bool, true,
  false, ◌==◌, ◌&&◌, starts_with, slice_from, length, ok, err, Result, bad_request, unavailable,
  ◌>>=◌, if◌then◌else◌,
}

pub record S3Config : Type 0 where
  pub bucket : Text
  pub region : Text
  pub access_key_id : Text
  pub secret_access_key : Text
  pub session_token : Option Text

-- The environment variables as `config.get` returns them.
pub record S3Settings : Type 0 where
  pub bucket : Option Text
  pub region : Option Text
  pub access_key_id : Option Text
  pub secret_access_key : Option Text
  pub session_token : Option Text

-- A condition of the upload policy: a field with its value, or a range of lengths.
pub data Condition : Type 0 where
  equals : Text → Text → Condition
  length_range : ℕ → ℕ → Condition

-- Node's dates, digests and encodings.
pub record Platform : Type 0 where
  pub iso_string : ℕ → Text
  pub sha256_hex : Text → Text
  pub hmac_sha256 : Text → Text → Text
  pub hex : Text → Text
  pub base64 : Text → Text
  pub policy_json : Text → List Condition → Text
  pub encode_uri_component : Text → Text
  pub locale_before : Text → Text → Bool

pub record ReceiptUploadTarget : Type 0 where
  pub object_key : Text
  pub upload_url : Text
  pub fields : List (Text × Text)
  pub expires_in_seconds : ℕ

pub record ReceiptDownload : Type 0 where
  pub download_url : Text
  pub expires_in_seconds : ℕ

abbrev pub max_receipt_bytes : ℕ
max_receipt_bytes = 10 * 1024 * 1024

abbrev pub upload_ttl_seconds : ℕ
upload_ttl_seconds = 5 * 60

abbrev pub download_ttl_seconds : ℕ
download_ttl_seconds = 5 * 60

-- `contentTypeExtensions[contentType]`
unfoldable pub content_type_extension : Text → Option Text
content_type_extension content_type =
    if content_type == text "image/jpeg"
    then some (text "jpg")
    else if content_type == text "image/png"
    then some (text "png")
    else if content_type == text "application/pdf"
    then some (text "pdf")
    else none

abbrev pub present : Option Text → Bool
present none = false
present (some []) = false
present (some (_ ∷ _)) = true

abbrev pub value_of : Option Text → Text
value_of none = []
value_of (some v) = v

unfoldable pub get_s3_config : S3Settings → Result S3Config
get_s3_config settings =
    if present settings.bucket
      && present settings.region
      && present settings.access_key_id
      && present settings.secret_access_key
    then ok (record {
      bucket = value_of settings.bucket;
      region = value_of settings.region;
      access_key_id = value_of settings.access_key_id;
      secret_access_key = value_of settings.secret_access_key;
      session_token = settings.session_token;
    })
    else err (unavailable "Receipt storage is not configured")

unfoldable pub key_prefix : Text → Text → Text
key_prefix organization_id expense_id =
    text "organizations/"
    ++ (organization_id ++ (text "/expenses/" ++ (expense_id ++ text "/receipts/")))

unfoldable pub uri_prefix : S3Config → Text
uri_prefix s3 = text "s3://" ++ (s3.bucket ++ text "/")

unfoldable pub assert_object_belongs_to_expense : Text → Text → Text → Result (Unit {0})
assert_object_belongs_to_expense organization_id expense_id object_key =
    if starts_with object_key (key_prefix organization_id expense_id)
    then ok tt
    else err (bad_request "Receipt object does not belong to this expense")

unfoldable pub to_storage_uri : S3Settings → Text → Result Text
to_storage_uri settings object_key = do
  s3 ← get_s3_config settings
  ok (uri_prefix s3 ++ object_key)

unfoldable pub object_key_from_storage_uri : S3Settings → Text → Result Text
object_key_from_storage_uri settings storage_uri = do
  s3 ← get_s3_config settings
  if starts_with storage_uri (uri_prefix s3)
      then ok (slice_from (length (uri_prefix s3)) storage_uri)
      else err (bad_request "Receipt storage location is invalid")

unfoldable pub host : S3Config → Text
host s3 = s3.bucket ++ (text ".s3." ++ (s3.region ++ text ".amazonaws.com"))
