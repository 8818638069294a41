-- ===== src/Receipts/Uploads.antt =====
-- The upload form of receipt-storage.service.ts.
use expenseflow.Common.{
  ◌+◌, ◌*◌, take, text_eq, text_eq_iff, Bool-cases, In, List, map, some, Option, bind-ok, ◌⊎◌, ℕ,
  ◌≡◌, refl, subst, Text, text, text_is_eq, [], ◌∷◌, ◌++◌, none, Option-cases, ok, inl, inr,
}
use mathlib.Core.List.{append_assoc}
use expenseflow.Receipts.{
  Condition, token_entry, as_condition, upload_conditions, S3Config, S3Settings, Platform,
  ReceiptUploadTarget, get_s3_config, key_prefix, assert_object_belongs_to_expense,
  create_upload_target, object_key_for, content_type_extension, amz_date, credential_scope,
  upload_ttl_seconds,
}
use expenseflow.Receipts.Storage.{starts_with-append}

-- The types of a receipt, with their extensions.
abbrev pub receipt_types : List (Text × Text)
receipt_types =
    (text "image/jpeg", text "jpg")
    ∷ (text "image/png", text "png")
    ∷ (text "application/pdf", text "pdf")
    ∷ []

-- A form with these fields meets the conditions that S3 compares with it: all but the bucket, which
-- stands in the address, and the size of the file.
abbrev pub Meets : List (Text × Text) → List Condition → Type 0
Meets fields [] = Unit {0}
Meets fields (Condition.equals name value ∷ conditions) =
    ((name ≡ text "bucket") ⊎ In (name, value) fields) × Meets fields conditions
Meets fields (Condition.length_range least most ∷ conditions) = Meets fields conditions

-- A form for one object of the expense, which carries a policy and meets it, for files of one of the
-- types and of 1 byte to 10 MB.
pub record IsUploadForm (platform : Platform) (organization_id expense_id uuid content_type : Text)
    (target : ReceiptUploadTarget) : Type 0 where
  pub extension : Text
  pub listed : In (content_type, extension) receipt_types
  pub named :
      target.object_key
      ≡ text "organizations/"
        ++ (organization_id
            ++ (text "/expenses/"
                ++ (expense_id ++ (text "/receipts/" ++ (uuid ++ (b'.' ∷ extension))))))
  pub belongs :
      assert_object_belongs_to_expense organization_id expense_id target.object_key ≡ ok tt
  pub expiration : Text
  pub conditions : List Condition
  pub carries :
      In (text "Policy", platform.base64 (platform.policy_json expiration conditions)) target.fields
  pub fixes_key : In (Condition.equals (text "key") target.object_key) conditions
  pub fixes_type : In (Condition.equals (text "Content-Type") content_type) conditions
  pub bounds_size : In (Condition.length_range 1 10485760) conditions
  pub meets : Meets target.fields conditions

pair_same : {a b c d : Text} → a ≡ c → b ≡ d → ◌≡◌ {A = Text × Text} (a, b) (c, d)
pair_same p q = rw (p, q) refl

some_same : {a b : Text} → some a ≡ some b → b ≡ a
some_same e = cc (e)

content_type-listed :
    (content_type extension : Text)
    → content_type_extension content_type ≡ some extension
    → In (content_type, extension) receipt_types
unfolding content_type_extension
content_type-listed content_type extension e =
    elim (Bool-cases (text_eq content_type (text "image/jpeg"))) [
      | inl a ↦ inl (pair_same ((text_eq_iff _ _).0 a) (some_same (rw a at e)))
      | inr a ↦ elim (Bool-cases (text_eq content_type (text "image/png"))) [
        | inl b ↦ inr (inl (pair_same ((text_eq_iff _ _).0 b) (some_same (rw (a, b) at e))))
        | inr b ↦ elim (Bool-cases (text_eq content_type (text "application/pdf"))) [
          | inl c ↦
              inr (inr (inl (pair_same ((text_eq_iff _ _).0 c) (some_same (rw (a, b, c) at e)))))
          | inr c ↦ absurd (cc (rw (a, b, c) at e))
        ]
      ]
    ]

token-Meets :
    (token : Option Text) (a b c d f g h : Text × Text)
    → Meets
        (a ∷ b ∷ c ∷ d ∷ f ∷ g ∷ h ∷ token_entry (text "x-amz-security-token") token)
        (map as_condition (token_entry (text "x-amz-security-token") token))
unfolding token_entry
token-Meets none a b c d f g h = tt
token-Meets (some []) a b c d f g h = tt
token-Meets (some (x ∷ t)) a b c d f g h =
    (inr (inr (inr (inr (inr (inr (inr (inr (inl refl)))))))), tt)

form-Meets :
    (s3 : S3Config) (key content_type credential date : Text) (policy signature : Text × Text)
    → Meets
        ((text "key", key)
          ∷ (text "Content-Type", content_type)
          ∷ (text "x-amz-algorithm", text "AWS4-HMAC-SHA256")
          ∷ (text "x-amz-credential", credential)
          ∷ (text "x-amz-date", date)
          ∷ policy
          ∷ signature
          ∷ token_entry (text "x-amz-security-token") s3.session_token)
        (upload_conditions s3 key content_type credential date)
unfolding upload_conditions
form-Meets s3 key content_type credential date policy signature = (
  inl refl,
  (
    inr (inl refl),
    (
      inr (inr (inl refl)),
      (
        inr (inr (inr (inl refl))),
        (
          inr (inr (inr (inr (inl refl)))),
          (inr (inr (inr (inr (inr (inl refl))))), token-Meets s3.session_token _ _ _ _ _ _ _),
        ),
      ),
    ),
  ),
)

target_same : {a b : ReceiptUploadTarget} → ok a ≡ ok b → a ≡ b
target_same e = cc (e)

-- If an upload target is made, it is a form for an object named under the expense, for a file of
-- the given type, which is JPEG, PNG or PDF; the object's key is accepted as that expense's, and
-- the form carries a policy that fixes the key and the type, bounds the size by 1 byte and 10
-- MB, and whose conditions other than the bucket and the size the form's fields meet.
pub create_upload_target_lem :
    (platform : Platform) (settings : S3Settings) (now : ℕ)
    (uuid organization_id expense_id content_type : Text) (target : ReceiptUploadTarget)
    → create_upload_target platform settings now uuid organization_id expense_id content_type
      ≡ ok target
    → IsUploadForm platform organization_id expense_id uuid content_type target
unfolding create_upload_target assert_object_belongs_to_expense object_key_for key_prefix
    upload_conditions
create_upload_target_lem platform settings now uuid organization_id expense_id content_type target
      e =
    elim (Option-cases (content_type_extension content_type)) [
      | inl missing ↦ absurd (cc (rw (missing, create_upload_target) at e))
      | inr (extension, found) ↦
          let e' = rw (found, create_upload_target) at e in
          let (s3, _, rest) = bind-ok (get_s3_config settings) _ target e' in
          let key = object_key_for organization_id expense_id uuid extension in
          let date = amz_date platform now in
          let credential = s3.access_key_id ++ (b'/' ∷ credential_scope (take 8 date) s3) in
          subst (IsUploadForm platform organization_id expense_id uuid content_type)
            (target_same rest)
            (record {
              extension = extension;
              listed = content_type-listed content_type extension found;
              named = simp append_assoc;
              belongs =
                  rw
                    (starts_with-append (key_prefix organization_id expense_id)
                      (uuid ++ (b'.' ∷ extension)))
                    refl;
              expiration = platform.iso_string (now + upload_ttl_seconds * 1000);
              conditions = upload_conditions s3 key content_type credential date;
              carries = inr (inr (inr (inr (inr (inl refl)))));
              fixes_key = inr (inl refl);
              fixes_type = inr (inr (inl refl));
              bounds_size = inr (inr (inr (inr (inr (inr (inl refl))))));
              meets = form-Meets s3 key content_type credential date _ _;
            })
    ]
