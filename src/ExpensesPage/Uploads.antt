-- ===== src/ExpensesPage/Uploads.antt =====
-- Which receipts `saveExpense` of Expenses.tsx sends, beside those that the API and S3 take.
use expenseflow.Common.{
  ◌≡◌, refl, sym, Text, text, text_eq, text_eq_refl, text_is_eq, map, List, [], ◌∷◌, Option, none,
  some, Bool, true, false, not, ◌==◌, ◌&&◌, ◌||◌, leb, ltb, arith,
}
use expenseflow.WebClient.{is_there}
use expenseflow.Receipts.{
  S3Config, Condition, content_type_extension, upload_conditions, token_entry, as_condition,
  max_receipt_bytes,
}
use expenseflow.ExpensesPage.{
  File, CreateExpensePayload, Saving, save_expense, checked, is_accepted_type,
}

abbrev pub is_sent : Saving → Bool
is_sent (Saving.alert message) = false
is_sent (Saving.mutate wanted) = true

-- S3's reading of an upload policy, for the file and its type.
abbrev pub allows : File → Condition → Bool
allows file (Condition.equals name value) =
    not (name == text "Content-Type") || value == file.content_type
allows file (Condition.length_range least most) = leb least file.size && leb file.size most

abbrev pub allows_all : File → List Condition → Bool
allows_all file [] = true
allows_all file (condition ∷ conditions) = allows file condition && allows_all file conditions

types_agree :
    (content_type : Text)
    → is_accepted_type content_type ≡ is_there (content_type_extension content_type)
unfolding is_accepted_type content_type_extension
types_agree content_type = ground arith

token_allowed :
    (file : File) (token : Option Text)
    → allows_all file (map as_condition (token_entry (text "x-amz-security-token") token)) ≡ true
unfolding text text_eq token_entry
token_allowed file none = refl
token_allowed file (some []) = refl
token_allowed file (some (c ∷ t)) = refl

conditions_allow :
    (file : File) (s3 : S3Config) (object_key credential date : Text)
    → allows_all file (upload_conditions s3 object_key file.content_type credential date)
      ≡ leb 1 file.size && leb file.size max_receipt_bytes
unfolding text text_eq upload_conditions
conditions_allow file s3 object_key credential date =
    rw (text_eq_refl file.content_type, token_allowed file s3.session_token) (ground arith)

-- The page sends a receipt that is not empty exactly if the API has a file extension for its
-- type and S3 allows it under every upload policy that the API signs for that type.
pub save_expense-allowed :
    (payload : CreateExpensePayload) (file : File) (s3 : S3Config)
    (object_key credential date : Text)
    → ltb 0 file.size ≡ true
    → is_sent (save_expense payload (some file)) ≡ (
        is_there (content_type_extension file.content_type)
        && allows_all file (upload_conditions s3 object_key file.content_type credential date))
unfolding save_expense checked
save_expense-allowed payload file s3 object_key credential date some_bytes =
    let types = types_agree file.content_type in
    let conditions = conditions_allow file s3 object_key credential date in
    rw (conditions, sym types, some_bytes) (ground arith)
