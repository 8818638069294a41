-- ===== src/ExpensesPage/Creating.antt =====
-- The uploads of the mutation `createExpense` of Expenses.tsx.
use expenseflow.Common.{
  ℕ, ◌≡◌, refl, sym, ap, ◌∙◌, Text, List, [], ◌∷◌, ◌++◌, Option, none, some, Bool, true, false, not,
  ◌&&◌, Bool-cases, inl, inr,
}
use expenseflow.WebClient.{Answer, Outcome, Page, Sent, Web, is_ok}
use expenseflow.WebClient.Retries.{is_value}
use expenseflow.ExpensesPage.{
  File, Json, Browser, Upload, UploadTarget, CreateExpenseRequest, Created, and_then, after_upload,
  complete_receipt, upload_receipt, attach_receipt, with_receipt, create_expense,
}

abbrev pub gives_value : {Body : Type 0} → Created Body → Bool
gives_value (Created.answered outcome) = is_value outcome
gives_value Created.upload_failed = false

abbrev pub says_failed : {Body : Type 0} → Created Body → Bool
says_failed (Created.answered outcome) = false
says_failed Created.upload_failed = true

abbrev pub is_given : Option File → Bool
is_given none = false
is_given (some file) = true

-- The storage's answer to an upload: taken, or refused.
abbrev pub took : Option ℕ → Bool
took none = false
took (some status) = is_ok status

abbrev pub refused : Option ℕ → Bool
refused none = false
refused (some status) = not (is_ok status)

-- Nothing is uploaded, and then no expense with a receipt comes back; or the receipt is uploaded
-- once, an expense comes back only if the storage took it, and the failed upload is told exactly
-- if the storage refused it.
pub data IsUploaded {Body : Type 0} (storage : List Upload → Upload → Option ℕ)
    (receipt : Option File) (before : List Upload) (result : Created Body × Browser) : Type 0 where
  no_upload :
      result.1.uploads ≡ before
      → (gives_value result.0 && is_given receipt) ≡ false
      → says_failed result.0 ≡ false
      → IsUploaded storage receipt before result
  one_upload :
      (upload : Upload)
      → receipt ≡ some upload.file
      → result.1.uploads ≡ before ++ upload ∷ []
      → (gives_value result.0 && not (took (storage before upload))) ≡ false
      → says_failed result.0 ≡ refused (storage before upload)
      → IsUploaded storage receipt before result

and_false : (b : Bool) → (b && false) ≡ false
and_false true = refl
and_false false = refl

taken_excluded : (b c : Bool) → c ≡ true → (b && not c) ≡ false
taken_excluded b c taken = ap (λ t. b && not t) taken ∙ and_false b

module _ {Body : Type 0} (web : Web Body) (server : List Sent → Sent → Answer Body)
    (json : Json Body) (storage : List Upload → Upload → Option ℕ) (uuids : ℕ → Text) where
  and_then-IsUploaded :
      (file : File) (uploads : List Upload) (next : Body → Browser → Created Body × Browser)
      → ((body : Body) (page : Page)
          → IsUploaded storage
              (some file)
              uploads
              (next body (record { page = page; uploads = uploads })))
      → (answer : Outcome Body × Page)
      → IsUploaded storage (some file) uploads (and_then uploads next answer)
  unfolding and_then
  and_then-IsUploaded file uploads next after (Outcome.value (some body), page) = after body page
  and_then-IsUploaded file uploads next after (Outcome.value none, page) =
      IsUploaded.no_upload refl refl refl
  and_then-IsUploaded file uploads next after (Outcome.api_error status message, page) =
      IsUploaded.no_upload refl refl refl
  and_then-IsUploaded file uploads next after (Outcome.exception, page) =
      IsUploaded.no_upload refl refl refl

  after_upload-IsUploaded :
      (file : File) (upload : Upload) (uploads : List Upload) (page : Page) (expense : Body)
      (aim : UploadTarget) (answer : Option ℕ)
      → file ≡ upload.file
      → storage uploads upload ≡ answer
      → IsUploaded storage (some file) uploads (
          after_upload web server json storage uuids expense aim answer
            (record { page = page; uploads = uploads ++ upload ∷ [] }))
  unfolding after_upload complete_receipt
  after_upload-IsUploaded file upload uploads page expense aim none same e =
      IsUploaded.one_upload upload (ap some same) refl refl (sym (ap refused e))
  after_upload-IsUploaded file upload uploads page expense aim (some status) same e =
      elim (Bool-cases (is_ok status)) [
        | inl h ↦ rw h (
            IsUploaded.one_upload upload (ap some same) refl (taken_excluded _ _ (ap took e ∙ h))
              (sym (ap refused e ∙ ap not h)))
        | inr h ↦
            rw h (
              IsUploaded.one_upload upload (ap some same) refl refl (sym (ap refused e ∙ ap not h)))
      ]

  attach_receipt-IsUploaded :
      (file : File) (uploads : List Upload) (expense : Body) (page : Page)
      → IsUploaded storage (some file) uploads (
          attach_receipt web server json storage uuids file expense
            (record { page = page; uploads = uploads }))
  unfolding attach_receipt upload_receipt
  attach_receipt-IsUploaded file uploads expense page =
      and_then-IsUploaded file uploads _
        (λ aim after.
          after_upload-IsUploaded file _ uploads after expense (json.target aim) _ refl refl)
        _

  -- However the server and the storage answer, creating an expense uploads nothing or the
  -- receipt once. If it uploads nothing, no expense with a receipt comes back; if it uploads the
  -- receipt, an expense comes back only if the storage took it. The failure of the upload is
  -- told exactly if the storage answered that it did not take it.
  pub create_expense-IsUploaded :
      (wanted : CreateExpenseRequest) (browser : Browser)
      → IsUploaded storage wanted.receipt browser.uploads
          (create_expense web server json storage uuids wanted browser)
  unfolding create_expense with_receipt
  create_expense-IsUploaded wanted browser = go wanted.receipt _
    where
      go :
          (receipt : Option File) (answer : Outcome Body × Page)
          → IsUploaded storage receipt browser.uploads
              (with_receipt web server json storage uuids receipt browser.uploads answer)
      go none (outcome, page) = IsUploaded.no_upload refl (and_false _) refl
      go (some file) answer =
          and_then-IsUploaded file browser.uploads _
            (attach_receipt-IsUploaded file browser.uploads) answer
