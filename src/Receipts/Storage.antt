-- ===== src/Receipts/Storage.antt =====
-- Object keys and storage addresses of receipt-storage.service.ts.
use expenseflow.Common.{
  ◌>>=◌, ◌≡◌, refl, ap, Text, text, text_is_eq, [], ◌∷◌, ◌++◌, true, false, eqb, any, starts_with,
  slice_from, length, ok, arith,
}
use expenseflow.Receipts.{
  S3Config, S3Settings, get_s3_config, key_prefix, uri_prefix, assert_object_belongs_to_expense,
  to_storage_uri, object_key_from_storage_uri,
}

pub starts_with-append : (p s : Text) → starts_with (p ++ s) p ≡ true
unfolding starts_with
starts_with-append [] s = ground arith
starts_with-append (c ∷ p) s = ground (arith, starts_with-append p s)

slice_from-append : (p s : Text) → slice_from (length p) (p ++ s) ≡ s
unfolding slice_from
slice_from-append [] s = refl
slice_from-append (c ∷ p) s = slice_from-append p s

-- With the storage configured, reading the object key back from the storage address made of it
-- gives the key.
pub object_key-to_storage_uri :
    (settings : S3Settings) (s3 : S3Config) (object_key : Text)
    → get_s3_config settings ≡ ok s3
    → (to_storage_uri settings object_key >>= object_key_from_storage_uri settings) ≡ ok object_key
unfolding to_storage_uri object_key_from_storage_uri
object_key-to_storage_uri settings s3 object_key configured = rw configured (
    rw configured (
      rw (starts_with-append (uri_prefix s3) object_key)
        (ap ok (slice_from-append (uri_prefix s3) object_key))))

-- A text with no slash, as ids are.
abbrev pub IsSegment : Text → Type 0
IsSegment t = any (λ c. eqb c b'/') t ≡ false

-- Two prefixes of one text that are followed by a slash are the same.
starts_with-segments :
    (s a b c d : Text)
    → IsSegment a
    → IsSegment b
    → starts_with s (a ++ b'/' ∷ c) ≡ true
    → starts_with s (b ++ b'/' ∷ d) ≡ true
    → (a ≡ b) × ((s' : Text) × (starts_with s' c ≡ true) × (starts_with s' d ≡ true))
unfolding starts_with
starts_with-segments [] [] b c d h k p q = absurd (cc (p))
starts_with-segments [] (x ∷ a) b c d h k p q = absurd (cc (p))
starts_with-segments (y ∷ s) [] [] c d h k p q = (refl, (s, ground arith, ground arith))
starts_with-segments (y ∷ s) [] (z ∷ b) c d h k p q = absurd (ground arith)
starts_with-segments (y ∷ s) (x ∷ a) [] c d h k p q = absurd (ground arith)
starts_with-segments (y ∷ s) (x ∷ a) (z ∷ b) c d h k p q =
    let (e, rest) =
      starts_with-segments s a b c d (ground arith) (ground arith) (ground arith) (ground arith) in
    (ground arith, rest)

starts_with-strip :
    (s p c : Text) → starts_with s (p ++ c) ≡ true → starts_with (slice_from (length p) s) c ≡ true
unfolding starts_with slice_from
starts_with-strip s [] c h = h
starts_with-strip [] (x ∷ p) c h = absurd (cc (h))
starts_with-strip (y ∷ s) (x ∷ p) c h = starts_with-strip s p c (ground arith)

accepted-starts_with :
    (organization_id expense_id key : Text)
    → assert_object_belongs_to_expense organization_id expense_id key ≡ ok tt
    → starts_with key (key_prefix organization_id expense_id) ≡ true
unfolding assert_object_belongs_to_expense
accepted-starts_with organization_id expense_id key h = ground arith

-- An object key that is accepted for two expenses, their ids and those of their organizations
-- having no slash, is accepted for one expense of one organization.
pub assert_object_unique :
    (o o' e e' key : Text)
    → IsSegment o
    → IsSegment o'
    → IsSegment e
    → IsSegment e'
    → assert_object_belongs_to_expense o e key ≡ ok tt
    → assert_object_belongs_to_expense o' e' key ≡ ok tt
    → (o ≡ o') × (e ≡ e')
unfolding key_prefix text
assert_object_unique o o' e e' key ho ho' he he' p q =
    let start = text "organizations/" in
    let p1 = starts_with-strip key start _ (accepted-starts_with o e key p) in
    let q1 = starts_with-strip key start _ (accepted-starts_with o' e' key q) in
    let (same_o, (rest, p2, q2)) =
      starts_with-segments (slice_from (length start) key) o o'
        (text "expenses/" ++ (e ++ text "/receipts/"))
        (text "expenses/" ++ (e' ++ text "/receipts/")) ho ho' p1 q1 in
    let middle = text "expenses/" in
    let p3 = starts_with-strip rest middle _ p2 in
    let q3 = starts_with-strip rest middle _ q2 in
    let (same_e, last) =
      starts_with-segments (slice_from (length middle) rest) e e' (text "receipts/")
        (text "receipts/") he he' p3 q3 in
    (same_o, same_e)
