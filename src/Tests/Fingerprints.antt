-- ===== src/Tests/Fingerprints.antt =====
-- Two bodies that list their entries in different orders.
use expenseflow.Common.{
  ◌≡◌, refl, Text, [], ◌∷◌, ◌++◌, Bool, true, false, some, ltb, eqb, if◌then◌else◌, arith,
}
use expenseflow.Idempotency.{Request, claim_input}
use expenseflow.Idempotency.Fingerprints.{
  Value, Items, Fields, Digest, IsKeyOrder, SameValue, hashing_of, claim_input-same,
}
use expenseflow.Idempotency.Fingerprints
use expenseflow.Tests.{org}

-- The order of code units.
abbrev units_before : Text → Text → Bool
units_before s [] = false
units_before [] (b ∷ t) = true
units_before (a ∷ s) (b ∷ t) = let rest = units_before s t in if eqb a b then rest else ltb a b

not_back : (s t : Text) → units_before s t ≡ true → units_before t s ≡ false
not_back s [] h = absurd (cc (h))
not_back [] (b ∷ t) h = refl
not_back (a ∷ s) (b ∷ t) h = ground (arith, not_back s t)

next : (s t u : Text) → units_before s t ≡ true → units_before t u ≡ true → units_before s u ≡ true
next s [] u h k = absurd (cc (h))
next s (b ∷ t) [] h k = absurd (cc (k))
next [] (b ∷ t) (c ∷ u) h k = refl
next (a ∷ s) (b ∷ t) (c ∷ u) h k = ground (arith, next s t u)

units-IsKeyOrder : IsKeyOrder units_before
units-IsKeyOrder = record { not_back = not_back; next = next }

-- A printer.
mutual
  print : Value → Text
  print (Value.literal t) = t
  print (Value.array items) = b'[' ∷ print_items items
  print (Value.object fields) = b'{' ∷ print_fields fields

  print_items : Items → Text
  print_items Items.no_item = b']' ∷ []
  print_items (Items.item v items) = print v ++ b',' ∷ print_items items

  print_fields : Fields → Text
  print_fields Fields.no_field = b'}' ∷ []
  print_fields (Fields.field k v fields) = k ++ b':' ∷ (print v ++ b',' ∷ print_fields fields)

abbrev key_a : Text
key_a = 1 ∷ []

abbrev key_b : Text
key_b = 2 ∷ []

abbrev digest : Digest
digest = record { stringify = print; sha256_hex = λ t. t; before = units_before }

abbrev request : Request Value
request = record {
  method = 80 ∷ [];
  original_url = 47 ∷ 97 ∷ [];
  key_header = some (107 ∷ []);
  body = some (Value.literal []);
  user = some (org, 10 ∷ []);
}

-- `{a: 1, b: 2}` and `{b: 2, a: 1}`
abbrev first : Value
first = Value.object (
    Fields.field key_a (Value.literal (49 ∷ []))
      (Fields.field key_b (Value.literal (50 ∷ [])) Fields.no_field))

abbrev second : Value
second = Value.object (
    Fields.field key_b (Value.literal (50 ∷ []))
      (Fields.field key_a (Value.literal (49 ∷ [])) Fields.no_field))

same : SameValue units_before first second
same = Fingerprints.same_object _ _ (
    Fingerprints.swapped key_a key_b (Value.literal (49 ∷ [])) (Value.literal (50 ∷ []))
      Fields.no_field refl)

claim_input-same_example :
    claim_input (hashing_of digest (λ t. t) (λ t. t)) (record request { body = some first })
    ≡ claim_input (hashing_of digest (λ t. t) (λ t. t)) (record request { body = some second })
claim_input-same_example =
    claim_input-same digest (λ t. t) (λ t. t) request first second units-IsKeyOrder same
