-- ===== src/Tests/Keys.antt =====
-- Idempotency keys, receipts and rate limits.
use expenseflow.Common.{
  ◌>>=◌, ap, sym, ◌∙◌, inl, inr, ℕ, ℕ, ◌≡◌, refl, text, Text, starts_with, text_eq, [], ◌∷◌, ◌++◌,
  none, some, true, false, ok, err, Result, internal, In, arith,
}
use expenseflow.Schema.{IdempotencyRecord, IdempotencyStatus, Store}
use expenseflow.Database.{Runs, Action}
use expenseflow.Database.{memory, memory-IsClient}
use expenseflow.Idempotency.{
  Json, Hashing, Request, has_key, Response, ClaimInput, Claim, claim, claim_input, new_record,
  record_clash, intercept,
}
use expenseflow.Idempotency.Requests.{IsJson}
use expenseflow.Idempotency.Attempts.{IsFresh, HasUniqueKey, Settled, claim-Settled}
use expenseflow.Idempotency.Once.{intercept-once, intercept-release}
use expenseflow.RateLimits.{path_of}
use expenseflow.Receipts.{
  S3Settings, S3Config, get_s3_config, to_storage_uri, object_key_from_storage_uri, Platform,
  ReceiptUploadTarget, create_upload_target, content_type_extension,
  assert_object_belongs_to_expense, key_prefix,
}
use expenseflow.Receipts.Storage.{object_key-to_storage_uri, assert_object_unique}
use expenseflow.Receipts.Uploads.{IsUploadForm, create_upload_target_lem}
use expenseflow.Tests.{store, org, expense_id, env_at}

-- Bodies are numbers, written as one code unit.
abbrev pub json : Json ℕ
json = record { stringify = λ n. n ∷ []; parse = first_unit }
  where
    first_unit : Text → ℕ
    first_unit [] = 0
    first_unit (c ∷ t) = c

pub json-IsJson : IsJson json
json-IsJson = record { parse_stringify = λ n. refl; stringify_text = λ n. refl }

abbrev pub hashing : Hashing ℕ
hashing = record {
  upper = λ t. t;
  trim = λ t. t;
  hash_request = λ method path body. method ++ path;
}

abbrev pub request : Request ℕ
request = record {
  method = 80 ∷ [];
  original_url = 47 ∷ 97 ∷ [];
  key_header = some (107 ∷ []);
  body = some 5;
  user = some (org, 10 ∷ []);
}

abbrev pub input : ClaimInput
input = record {
  organization_id = org;
  actor_id = 10 ∷ [];
  key = 107 ∷ [];
  method = 80 ∷ [];
  path = 47 ∷ 97 ∷ [];
  request_hash = 80 ∷ 47 ∷ 97 ∷ [];
}

pub valid : claim_input hashing request ≡ ok input
unfolding claim_input path_of
valid = refl

abbrev pub claimed_store : Store
claimed_store = (claim memory json 2 0 (env_at 100 40) input store).1

pub claims :
    Runs
      (claim memory json 2 0 (env_at 100 40) input)
      store
      (Claim.claimed (40 ∷ 0 ∷ []))
      claimed_store
unfolding claim new_record record_clash
claims = refl

-- An expired record of the same key is in the way.
abbrev old_record : IdempotencyRecord
old_record = record {
  id = 39 ∷ [];
  organization_id = org;
  actor_id = 10 ∷ [];
  key = 107 ∷ [];
  method = 80 ∷ [];
  path = 47 ∷ [];
  request_hash = [];
  status = IdempotencyStatus.pending;
  response_status = none;
  response_body = none;
  expires_at = 90;
}

abbrev old_store : Store
old_store = record store { idempotency_records = old_record ∷ [] }

is_fresh : (attempt : ℕ) → IsFresh (env_at 100 40) attempt old_store.idempotency_records
is_fresh attempt row (inl p) e = absurd (cc (ap (λ y. y.id) p, e))
is_fresh attempt row (inr p) e = absurd p

unique_key : HasUniqueKey input old_store.idempotency_records
unique_key a b m n h k = elim m [
  | inl p ↦ elim n [ inl q ↦ p ∙ sym q | inr q ↦ absurd q ]
  | inr p ↦ absurd p
]

claim-Settled_example :
    Settled memory json
      (env_at 100 40)
      input
      old_store
      (claim memory json 2 0 (env_at 100 40) input old_store)
claim-Settled_example =
    claim-Settled memory memory-IsClient json 0 (env_at 100 40) input old_store (is_fresh 0)
      (is_fresh 1) unique_key

abbrev pub answers : Action (Response ℕ)
answers s = (ok (201, some 7), s)

abbrev fails : Action (Response ℕ)
fails s = (err (internal "down"), s)

intercept-once_example :
    (s' : Store) × Runs
      (intercept memory json hashing true 2 (env_at 100 40) request answers)
      store
      (201, some 7)
      s'
    × Runs (intercept memory json hashing true 1 (env_at 200 41) request fails) s' (201, some 7) s'
intercept-once_example =
    intercept-once memory memory-IsClient json hashing 2 0 (env_at 100 40) (env_at 200 41) request
      answers fails input (40 ∷ 0 ∷ []) 201 (some 7) store claimed_store claimed_store json-IsJson
      valid claims refl refl (omega arith)

abbrev failed_request : Result (Response ℕ) × Store
failed_request = intercept memory json hashing true 2 (env_at 100 40) request fails store

intercept-release_example :
    (failed_request.0 ≡ err (internal "down"))
    × ((row : IdempotencyRecord)
        → In row failed_request.1.idempotency_records
        → has_key input row ≡ false)
intercept-release_example =
    intercept-release memory memory-IsClient json hashing 2 (env_at 100 40) request fails input
      (40 ∷ 0 ∷ []) (internal "down") store claimed_store claimed_store valid claims refl refl

abbrev settings : S3Settings
settings = record {
  bucket = some (98 ∷ []);
  region = some (114 ∷ []);
  access_key_id = some (97 ∷ []);
  secret_access_key = some (115 ∷ []);
  session_token = none;
}

abbrev s3 : S3Config
s3 = record {
  bucket = 98 ∷ [];
  region = 114 ∷ [];
  access_key_id = 97 ∷ [];
  secret_access_key = 115 ∷ [];
  session_token = none;
}

object_key-to_storage_uri_example :
    (to_storage_uri settings (120 ∷ []) >>= object_key_from_storage_uri settings) ≡ ok (120 ∷ [])
unfolding get_s3_config
object_key-to_storage_uri_example = object_key-to_storage_uri settings s3 (120 ∷ []) refl

abbrev pub platform : Platform
platform = record {
  iso_string = λ t. t ∷ [];
  sha256_hex = λ t. t;
  hmac_sha256 = λ k t. k ++ t;
  hex = λ t. t;
  base64 = λ t. t;
  policy_json = λ t conditions. t;
  encode_uri_component = λ t. t;
  locale_before = λ a b. false;
}

target_of : Result ReceiptUploadTarget → ReceiptUploadTarget
target_of (ok t) = t
target_of (err x) = record { object_key = []; upload_url = []; fields = []; expires_in_seconds = 0 }

abbrev upload : Result ReceiptUploadTarget
upload = create_upload_target platform settings 5 (1 ∷ []) org expense_id (text "image/png")

uploads : upload ≡ ok (target_of upload)
unfolding create_upload_target content_type_extension get_s3_config text text_eq target_of
uploads = refl

create_upload_target_lem_example :
    IsUploadForm platform org expense_id (1 ∷ []) (text "image/png") (target_of upload)
create_upload_target_lem_example =
    create_upload_target_lem platform settings 5 (1 ∷ []) org expense_id (text "image/png")
      (target_of upload) uploads

abbrev key : Text
key = key_prefix org expense_id ++ (120 ∷ [])

accepted : assert_object_belongs_to_expense org expense_id key ≡ ok tt
unfolding assert_object_belongs_to_expense key_prefix text starts_with
accepted = refl

assert_object_unique_example : (org ≡ org) × (expense_id ≡ expense_id)
assert_object_unique_example =
    assert_object_unique org org expense_id expense_id key refl refl refl refl accepted accepted
