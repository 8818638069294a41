-- ===== src/Idempotency/Fingerprints.antt =====
-- The fingerprint of a request, `hashRequest` and `sortValue` of idempotency.service.ts.
use expenseflow.Common.{
  ◌||◌, ◌≡◌, refl, ap, ◌∙◌, Text, text, Bool, true, false, Option, none, some, if◌then◌else◌, arith,
}
use expenseflow.Idempotency.{Hashing, Request, claim_input}

-- JSON: `literal` is any value that is neither an array nor an object, by its text.
mutual
  pub data Value : Type 0 where
    literal : Text → Value
    array : Items → Value
    object : Fields → Value

  pub data Items : Type 0 where
    no_item : Items
    item : Value → Items → Items

  pub data Fields : Type 0 where
    no_field : Fields
    field : Text → Value → Fields → Fields

-- One step of the sort of an object's entries; `before a b` is `a.localeCompare(b) < 0`.
unfoldable pub insert_field : (Text → Text → Bool) → Text → Value → Fields → Fields
insert_field before key value no_field = field key value no_field
insert_field before key value (field k v fields) =
    let rest = insert_field before key value fields in
    if before k key then field k v rest else field key value (field k v fields)

-- `sortValue`. The entries are sorted by their keys alone, so their values may be sorted first.
unfoldable mutual
  pub sort_value : (Text → Text → Bool) → Value → Value
  sort_value before (literal t) = literal t
  sort_value before (array items) = array (sort_items before items)
  sort_value before (object fields) = object (sort_fields before fields)

  pub sort_items : (Text → Text → Bool) → Items → Items
  sort_items before no_item = no_item
  sort_items before (item value items) = item (sort_value before value) (sort_items before items)

  pub sort_fields : (Text → Text → Bool) → Fields → Fields
  sort_fields before no_field = no_field
  sort_fields before (field key value fields) =
      insert_field before key (sort_value before value) (sort_fields before fields)

-- `request.body ?? null`
abbrev pub body_or_null : Option Value → Value
body_or_null none = literal (text "null")
body_or_null (some body) = body

-- The argument of `hashRequest`.
unfoldable pub fingerprinted : (method path : Text) → Option Value → Value
fingerprinted method path body = object (
    field (text "method") (literal method)
      (field (text "path") (literal path) (field (text "body") (body_or_null body) no_field)))

-- `JSON.stringify`, SHA-256 and `localeCompare`.
pub record Digest : Type 0 where
  pub stringify : Value → Text
  pub sha256_hex : Text → Text
  pub before : Text → Text → Bool

unfoldable pub hash_request : Digest → (method path : Text) → Option Value → Text
hash_request digest method path body =
    digest.sha256_hex (digest.stringify (sort_value digest.before (fingerprinted method path body)))

-- Values that differ in the order of entries of objects whose keys the order tells apart, at any
-- depth.
mutual
  pub data SameValue (before : Text → Text → Bool) : Value → Value → Type 0 where
    same_literal : (t : Text) → SameValue before (literal t) (literal t)
    same_array : (xs ys : Items) → SameItems before xs ys → SameValue before (array xs) (array ys)
    same_object :
        (xs ys : Fields) → SameFields before xs ys → SameValue before (object xs) (object ys)

  pub data SameItems (before : Text → Text → Bool) : Items → Items → Type 0 where
    same_end : SameItems before no_item no_item
    same_item :
        (v w : Value) (xs ys : Items)
        → SameValue before v w
        → SameItems before xs ys
        → SameItems before (item v xs) (item w ys)

  pub data SameFields (before : Text → Text → Bool) : Fields → Fields → Type 0 where
    same_none : SameFields before no_field no_field
    same_field :
        (k : Text) (v w : Value) (xs ys : Fields)
        → SameValue before v w
        → SameFields before xs ys
        → SameFields before (field k v xs) (field k w ys)
    swapped :
        (k l : Text) (v w : Value) (xs : Fields)
        → (before k l || before l k) ≡ true
        → SameFields before (field k v (field l w xs)) (field l w (field k v xs))
    both :
        (xs ys zs : Fields)
        → SameFields before xs ys
        → SameFields before ys zs
        → SameFields before xs zs

-- `localeCompare` as a strict order; it may take different keys for equal.
pub record IsKeyOrder (before : Text → Text → Bool) : Type 0 where
  pub not_back : (a b : Text) → before a b ≡ true → before b a ≡ false
  pub next : (a b c : Text) → before a b ≡ true → before b c ≡ true → before a c ≡ true

module _ (before : Text → Text → Bool) (order : IsKeyOrder before) where
  insert_field-swap :
      (k l : Text) (v w : Value) (xs : Fields)
      → (before k l || before l k) ≡ true
      → insert_field before k v (insert_field before l w xs)
        ≡ insert_field before l w (insert_field before k v xs)
  unfolding insert_field
  insert_field-swap k l v w no_field apart =
      let c = order.not_back k l in let d = order.not_back l k in ground arith
  insert_field-swap k l v w (field m u xs) apart =
      let c = order.not_back k l in
      let d = order.not_back l k in
      let e = order.next m l k in
      let f = order.next m k l in let rest = insert_field-swap k l v w xs apart in ground arith

  mutual
    unfolding sort_value

    sort_value-same :
        (a b : Value) → SameValue before a b → sort_value before a ≡ sort_value before b
    sort_value-same _ _ (same_literal t) = refl
    sort_value-same _ _ (same_array xs ys h) = ap array (sort_items-same xs ys h)
    sort_value-same _ _ (same_object xs ys h) = ap object (sort_fields-same xs ys h)

    sort_items-same :
        (xs ys : Items) → SameItems before xs ys → sort_items before xs ≡ sort_items before ys
    sort_items-same _ _ same_end = refl
    sort_items-same _ _ (same_item v w xs ys h k) =
        rw (sort_value-same v w h, sort_items-same xs ys k) refl

    sort_fields-same :
        (xs ys : Fields) → SameFields before xs ys → sort_fields before xs ≡ sort_fields before ys
    sort_fields-same _ _ same_none = refl
    sort_fields-same _ _ (same_field k v w xs ys h r) =
        rw (sort_value-same v w h, sort_fields-same xs ys r) refl
    sort_fields-same _ _ (swapped k l v w xs apart) =
        insert_field-swap k l (sort_value before v) (sort_value before w) (sort_fields before xs)
          apart
    sort_fields-same _ _ (both xs ys zs h r) = sort_fields-same xs ys h ∙ sort_fields-same ys zs r

hash_request-same :
    (digest : Digest) (method path : Text) (a b : Value)
    → IsKeyOrder digest.before
    → SameValue digest.before a b
    → hash_request digest method path (some a) ≡ hash_request digest method path (some b)
unfolding hash_request fingerprinted
hash_request-same digest method path a b order same =
    ap (λ v. digest.sha256_hex (digest.stringify v))
      (sort_value-same digest.before order _ _ (
        same_object _ _ (
          same_field (text "method") _ _ _ _ (same_literal method) (
            same_field (text "path") _ _ _ _ (same_literal path)
              (same_field (text "body") a b _ _ same same_none)))))

-- The interceptor's functions with this fingerprint.
unfoldable pub hashing_of : Digest → (upper trim : Text → Text) → Hashing Value
hashing_of digest upper trim = record {
  upper = upper;
  trim = trim;
  hash_request = hash_request digest;
}

-- Two requests that differ only in the order of entries of objects in their bodies, at any
-- depth, where `localeCompare` does not take the keys of entries that change places for equal,
-- claim the same key with the same fingerprint or are refused alike, if `localeCompare` is a
-- strict order.
pub claim_input-same :
    (digest : Digest) (upper trim : Text → Text) (request : Request Value) (a b : Value)
    → IsKeyOrder digest.before
    → SameValue digest.before a b
    → claim_input (hashing_of digest upper trim) (record request { body = some a })
      ≡ claim_input (hashing_of digest upper trim) (record request { body = some b })
unfolding claim_input hashing_of
claim_input-same digest upper trim request a b order same =
    grind (arith, hash_request-same digest _ _ a b order same)
