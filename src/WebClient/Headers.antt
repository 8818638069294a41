-- ===== src/WebClient/Headers.antt =====
-- `Headers` as api.ts uses it: names in lower case, at most one value for each.
use expenseflow.Common.{
  ◌≡◌, refl, Text, text_is_eq, text_eq_iff, List, [], ◌∷◌, Option, none, some, Bool, true, false,
  ◌==◌, if◌then◌else◌, Bool-cases, inl, inr,
}

unfoldable pub get_header : Text → List (Text × Text) → Option Text
get_header name [] = none
get_header name ((n, v) ∷ headers) = if n == name then some v else get_header name headers

abbrev pub is_there : Option Text → Bool
is_there none = false
is_there (some v) = true

abbrev pub has_header : Text → List (Text × Text) → Bool
has_header name headers = is_there (get_header name headers)

unfoldable pub set_header : Text → Text → List (Text × Text) → List (Text × Text)
set_header name value [] = (name, value) ∷ []
set_header name value ((n, v) ∷ headers) =
    let rest = set_header name value headers in
    if n == name then (name, value) ∷ headers else (n, v) ∷ rest

pub get_header-set_header :
    (name value : Text) (headers : List (Text × Text))
    → get_header name (set_header name value headers) ≡ some value
unfolding get_header set_header
get_header-set_header name value [] = rw ((text_eq_iff name name).1 refl) refl
get_header-set_header name value ((n, v) ∷ headers) = elim (Bool-cases (n == name)) [
  | inl h ↦ rw h (rw ((text_eq_iff name name).1 refl) refl)
  | inr h ↦ rw h (rw h (get_header-set_header name value headers))
]

pub get_header-set_other :
    (name other value : Text) (headers : List (Text × Text))
    → (other == name) ≡ false
    → get_header name (set_header other value headers) ≡ get_header name headers
unfolding get_header set_header
get_header-set_other name other value [] apart = rw apart refl
get_header-set_other name other value ((n, v) ∷ headers) apart = elim (Bool-cases (n == other)) [
  | inl h ↦ let same : n ≡ other = (text_eq_iff n other).0 h in rw h (rw (same, apart) refl)
  | inr h ↦ rw h (elim (Bool-cases (n == name)) [
    | inl k ↦ rw k refl
    | inr k ↦ rw k (get_header-set_other name other value headers apart)
  ])
]
