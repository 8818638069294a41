-- ===== src/ExpensesPage.antt =====
-- Creating an expense with a receipt in the web client, apps/web/src/pages/Expenses.tsx. The amount
-- and the date come from the form already converted.
pub mod Uploads
pub mod Creating
use expenseflow.Common.{
  ℕ, ◌*◌, Text, text, text_is_eq, List, [], ◌∷◌, ◌++◌, Option, none, some, Bool, true, false, not,
  ◌==◌, ◌&&◌, ◌||◌, leb, ltb, number_eq, if◌then◌else◌,
}
use expenseflow.WebClient.{Answer, Outcome, Page, RequestInit, Sent, Web, api, is_ok}

pub record File : Type 0 where
  pub name : Text
  pub content_type : Text
  pub size : ℕ
  pub content : Text

pub record CreateExpensePayload : Type 0 where
  pub merchant : Text
  pub amount_cents : ℕ
  pub category : Text
  pub description : Text
  pub incurred_at : Text

pub record CreateExpenseRequest : Type 0 where
  pub payload : CreateExpensePayload
  pub receipt : Option File

-- `maxReceiptBytes`
abbrev pub max_file_bytes : ℕ
max_file_bytes = 10 * 1024 * 1024

-- `acceptedReceiptTypes.includes`
unfoldable pub is_accepted_type : Text → Bool
is_accepted_type content_type =
    content_type == text "image/jpeg"
    || content_type == text "image/png"
    || content_type == text "application/pdf"

-- What `saveExpense` does: an alert, or the mutation.
pub data Saving : Type 0 where
  alert : Text → Saving
  mutate : CreateExpenseRequest → Saving

unfoldable pub checked : CreateExpensePayload → File → Saving
checked payload file =
    if not (is_accepted_type file.content_type)
    then Saving.alert (text "Receipt must be a JPEG, PNG, or PDF file.")
    else if ltb max_file_bytes file.size
    then Saving.alert (text "Receipt must be 10 MB or smaller.")
    else Saving.mutate (record { payload = payload; receipt = some file })

-- A file input without a file gives an empty file.
unfoldable pub save_expense : CreateExpensePayload → Option File → Saving
save_expense payload none = Saving.mutate (record { payload = payload; receipt = none })
save_expense payload (some file) =
    if ltb 0 file.size
    then checked payload file
    else Saving.mutate (record { payload = payload; receipt = none })

-- `ReceiptUploadTarget`
pub record UploadTarget : Type 0 where
  pub object_key : Text
  pub upload_url : Text
  pub fields : List (Text × Text)

-- A form sent to the storage.
pub record Upload : Type 0 where
  pub address : Text
  pub fields : List (Text × Text)
  pub file : File

-- JSON of the bodies that the page sends, and what it reads from those it gets.
pub record Json (Body : Type 0) : Type 0 where
  pub of_payload : CreateExpensePayload → Text
  pub of_file : (name content_type : Text) → (size : ℕ) → Text
  pub of_completion : (object_key : Text) → (version : ℕ) → Text
  pub expense_id : Body → Text
  pub expense_version : Body → ℕ
  pub target : Body → UploadTarget

-- The page and the uploads made so far.
pub record Browser : Type 0 where
  pub page : Page
  pub uploads : List Upload

pub data Created (Body : Type 0) : Type 0 where
  answered : Outcome Body → Created Body
  upload_failed : Created Body

abbrev pub post : Text → RequestInit
post body = record { method = some (text "POST"); headers = []; body = some body }

-- Reading a field of `undefined` throws.
unfoldable pub and_then :
    {Body : Type 0}
    → List Upload
    → (Body → Browser → Created Body × Browser)
    → Outcome Body × Page
    → Created Body × Browser
and_then uploads next (Outcome.value (some body), page) =
    next body (record { page = page; uploads = uploads })
and_then uploads next (Outcome.value none, page) =
    (Created.answered Outcome.exception, record { page = page; uploads = uploads })
and_then uploads next (Outcome.api_error status message, page) =
    (Created.answered (Outcome.api_error status message), record { page = page; uploads = uploads })
and_then uploads next (Outcome.exception, page) =
    (Created.answered Outcome.exception, record { page = page; uploads = uploads })

-- The storage answers an upload with a status or not at all.
module _ {Body : Type 0} (web : Web Body) (server : List Sent → Sent → Answer Body)
    (json : Json Body) (storage : List Upload → Upload → Option ℕ) (uuids : ℕ → Text) where
  open json use {of_payload, of_file, of_completion, expense_id, expense_version, target}

  unfoldable pub complete_receipt : Body → UploadTarget → Browser → Created Body × Browser
  complete_receipt expense aim browser =
      let (outcome, page) =
        api web server (uuids 2)
          (text "/expenses/" ++ (expense_id expense ++ text "/receipt-upload/complete"))
          (post (of_completion aim.object_key (expense_version expense))) browser.page in
      (Created.answered outcome, record browser { page = page })

  unfoldable pub after_upload : Body → UploadTarget → Option ℕ → Browser → Created Body × Browser
  after_upload expense aim none browser = (Created.answered Outcome.exception, browser)
  after_upload expense aim (some status) browser =
      if is_ok status
      then complete_receipt expense aim browser
      else (Created.upload_failed, browser)

  unfoldable pub upload_receipt : File → Body → UploadTarget → Browser → Created Body × Browser
  upload_receipt file expense aim browser =
      let upload : Upload = record { address = aim.upload_url; fields = aim.fields; file = file } in
      after_upload expense aim (storage browser.uploads upload)
        (record browser { uploads = browser.uploads ++ upload ∷ [] })

  unfoldable pub attach_receipt : File → Body → Browser → Created Body × Browser
  attach_receipt file expense browser =
      and_then browser.uploads (λ body. upload_receipt file expense (target body))
        (api web server (uuids 1)
          (text "/expenses/" ++ (expense_id expense ++ text "/receipt-upload"))
          (post (of_file file.name file.content_type file.size)) browser.page)

  unfoldable pub with_receipt :
      Option File → List Upload → Outcome Body × Page → Created Body × Browser
  with_receipt none uploads (outcome, page) =
      (Created.answered outcome, record { page = page; uploads = uploads })
  with_receipt (some file) uploads answer = and_then uploads (attach_receipt file) answer

  -- The mutation `createExpense`.
  unfoldable pub create_expense : CreateExpenseRequest → Browser → Created Body × Browser
  create_expense wanted browser =
      with_receipt wanted.receipt browser.uploads (
        api web server (uuids 0) (text "/expenses") (post (of_payload wanted.payload)) browser.page)
