-- ===== src/Receipts/Signing.antt =====
-- The signed upload form and download address of `ReceiptStorageService`. Dates, digests and
-- encodings are Node's: `Platform`.
use expenseflow.Common.{
  join_with, ◌>>=◌, ℕ, zero, suc, ◌+◌, ◌*◌, ◌/◌, ◌%◌, Text, text, number_eq, List, [], ◌∷◌, ◌++◌,
  map, Option, none, some, Bool, false, ◌==◌, ◌&&◌, ◌||◌, leb, length, drop, take, ok, err, Result,
  bad_request, if◌then◌else◌, sort_by,
}
use expenseflow.Receipts.Keys.{
  S3Config, S3Settings, Condition, equals, length_range, Platform, ReceiptUploadTarget,
  ReceiptDownload, max_receipt_bytes, upload_ttl_seconds, download_ttl_seconds,
  content_type_extension, get_s3_config, key_prefix, host,
}

abbrev is_digit : ℕ → Bool
is_digit c = leb b'0' c && leb c b'9'

three_digits : Text → Bool
three_digits (a ∷ b ∷ d ∷ []) = is_digit a && is_digit b && is_digit d
three_digits _ = false

-- `.replace(/[:-]|\.\d{3}/g, '')`, with the text's length as fuel.
strip_separators : ℕ → Text → Text
unfolding three_digits
strip_separators zero s = []
strip_separators (suc fuel) [] = []
strip_separators (suc fuel) (c ∷ s) =
    let after_millis = strip_separators fuel (drop 3 s) in
    let rest = strip_separators fuel s in
    let others = if c == b'.' && three_digits (take 3 s) then after_millis else c ∷ rest in
    if c == b':' || c == b'-' then rest else others

hex_digit : ℕ → ℕ
hex_digit d = if leb d 9 then 48 + d else 55 + d

is_reserved : ℕ → Bool
is_reserved c = c == b'!' || c == 39 || c == b'(' || c == b')' || c == b'*'

-- `.replace(/[!'()*]/g, …)`
percent_encode : Text → Text
unfolding hex_digit is_reserved
percent_encode [] = []
percent_encode (c ∷ s) =
    let rest = percent_encode s in
    if is_reserved c then b'%' ∷ hex_digit (c / 16) ∷ hex_digit (c % 16) ∷ rest else c ∷ rest

-- `value.split('/').map(encode).join('/')`, over the part read so far.
encode_parts : (Text → Text) → Text → Text → Text
encode_parts encode part [] = encode part
encode_parts encode part (c ∷ s) =
    let closed = encode part ++ b'/' ∷ encode_parts encode [] s in
    let longer = encode_parts encode (part ++ c ∷ []) s in if c == b'/' then closed else longer

-- An entry that is there only with a session token.
unfoldable pub token_entry : Text → Option Text → List (Text × Text)
token_entry name none = []
token_entry name (some []) = []
token_entry name (some (c ∷ t)) = (name, c ∷ t) ∷ []

abbrev pub as_condition : Text × Text → Condition
as_condition (name, value) = equals name value

-- The policy that S3 holds the upload to.
unfoldable pub upload_conditions : S3Config → Text → Text → Text → Text → List Condition
upload_conditions s3 object_key content_type credential date =
    equals (text "bucket") s3.bucket
    ∷ equals (text "key") object_key
    ∷ equals (text "Content-Type") content_type
    ∷ equals (text "x-amz-algorithm") (text "AWS4-HMAC-SHA256")
    ∷ equals (text "x-amz-credential") credential
    ∷ equals (text "x-amz-date") date
    ∷ length_range 1 max_receipt_bytes
    ∷ map as_condition (token_entry (text "x-amz-security-token") s3.session_token)

unfoldable pub object_key_for : Text → Text → Text → Text → Text
object_key_for organization_id expense_id uuid extension =
    key_prefix organization_id expense_id ++ (uuid ++ (b'.' ∷ extension))

unfoldable pub credential_scope : Text → S3Config → Text
credential_scope date_stamp s3 = date_stamp ++ (b'/' ∷ s3.region ++ text "/s3/aws4_request")

module _ (platform : Platform) where
  open platform use {
    iso_string, sha256_hex, hmac_sha256, hex, base64, policy_json, encode_uri_component,
    locale_before,
  }

  unfoldable pub amz_date : ℕ → Text
  unfolding strip_separators
  amz_date now = strip_separators (length (iso_string now)) (iso_string now)

  unfoldable pub encode : Text → Text
  unfolding percent_encode
  encode value = percent_encode (encode_uri_component value)

  unfoldable pub encode_path : Text → Text
  unfolding encode_parts
  encode_path value = encode_parts encode [] value

  unfoldable pub get_signing_key : Text → Text → Text → Text
  get_signing_key secret_access_key date_stamp region =
      let date_key = hmac_sha256 (text "AWS4" ++ secret_access_key) date_stamp in
      let region_key = hmac_sha256 date_key region in
      let service_key = hmac_sha256 region_key (text "s3") in
      hmac_sha256 service_key (text "aws4_request")

  unfoldable pub create_upload_target :
      S3Settings → ℕ → Text → Text → Text → Text → Result ReceiptUploadTarget
  create_upload_target settings now uuid organization_id expense_id content_type =
      elim (content_type_extension content_type) [
        | none ↦ err (bad_request "Receipts must be JPEG, PNG, or PDF files")
        | some extension ↦ do
          s3 ← get_s3_config settings
          let object_key = object_key_for organization_id expense_id uuid extension
          let date = amz_date now
          let date_stamp = take 8 date
          let credential = s3.access_key_id ++ (b'/' ∷ credential_scope date_stamp s3)
          let expiration = iso_string (now + upload_ttl_seconds * 1000)
          let policy = base64 (
              policy_json expiration (upload_conditions s3 object_key content_type credential date))
          let signing_key = get_signing_key s3.secret_access_key date_stamp s3.region
          let signature = hex (hmac_sha256 signing_key policy)
          ok (record {
            object_key = object_key;
            upload_url = text "https://" ++ (host s3 ++ text "/");
            fields =
                (text "key", object_key)
                ∷ (text "Content-Type", content_type)
                ∷ (text "x-amz-algorithm", text "AWS4-HMAC-SHA256")
                ∷ (text "x-amz-credential", credential)
                ∷ (text "x-amz-date", date)
                ∷ (text "Policy", policy)
                ∷ (text "x-amz-signature", signature)
                ∷ token_entry (text "x-amz-security-token") s3.session_token;
            expires_in_seconds = upload_ttl_seconds;
          })
      ]

  abbrev entry_before : Text × Text → Text × Text → Bool
  entry_before (a, _) (b, _) = locale_before a b

  abbrev query_pair : Text × Text → Text
  query_pair (name, value) = encode name ++ (b'=' ∷ encode value)

  unfoldable pub create_download_url : S3Settings → ℕ → Text → Result ReceiptDownload
  create_download_url settings now object_key = do
    s3 ← get_s3_config settings
    let date = amz_date now
    let date_stamp = take 8 date
    let scope = credential_scope date_stamp s3
    let query : List (Text × Text) =
        (text "X-Amz-Algorithm", text "AWS4-HMAC-SHA256")
        ∷ (text "X-Amz-Credential", s3.access_key_id ++ (b'/' ∷ scope))
        ∷ (text "X-Amz-Date", date)
        ∷ (text "X-Amz-Expires", text "300")
        ∷ (text "X-Amz-SignedHeaders", text "host")
        ∷ token_entry (text "X-Amz-Security-Token") s3.session_token
    let canonical_query = join_with (text "&") (map query_pair (sort_by entry_before query))
    let canonical_uri = b'/' ∷ encode_path object_key
    let canonical_request = join_with (10 ∷ []) (
        text "GET"
        ∷ canonical_uri
        ∷ canonical_query
        ∷ (text "host:" ++ (host s3 ++ 10 ∷ []))
        ∷ text "host"
        ∷ text "UNSIGNED-PAYLOAD"
        ∷ [])
    let string_to_sign =
        join_with (10 ∷ [])
          (text "AWS4-HMAC-SHA256" ∷ date ∷ scope ∷ sha256_hex canonical_request ∷ [])
    let signing_key = get_signing_key s3.secret_access_key date_stamp s3.region
    let signature = hex (hmac_sha256 signing_key string_to_sign)
    ok (record {
      download_url =
          text "https://"
          ++ (host s3
              ++ (canonical_uri
                  ++ (b'?' ∷ canonical_query ++ (text "&X-Amz-Signature=" ++ signature))));
      expires_in_seconds = download_ttl_seconds;
    })
