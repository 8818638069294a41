-- ===== src/Tests/Forms.antt =====
-- A receipt that the web client uploads.
use expenseflow.Common.{ℕ, ◌≡◌, refl, Text, text, List, [], ◌∷◌, Option, none, some, ◌&&◌}
use expenseflow.WebClient.{Sent, Answer, Web, Message, is_there}
use expenseflow.Receipts.{S3Config, content_type_extension, upload_conditions}
use expenseflow.ExpensesPage.{
  File, CreateExpensePayload, CreateExpenseRequest, Json, Browser, Upload, save_expense,
  create_expense,
}
use expenseflow.ExpensesPage.Uploads.{is_sent, allows_all, save_expense-allowed}
use expenseflow.ExpensesPage.Creating.{IsUploaded, create_expense-IsUploaded}

abbrev receipt : File
receipt = record {
  name = text "taxi.png";
  content_type = text "image/png";
  size = 3;
  content = 1 ∷ 2 ∷ 3 ∷ [];
}

abbrev payload : CreateExpensePayload
payload = record {
  merchant = text "Taxi";
  amount_cents = 1250;
  category = text "travel";
  description = [];
  incurred_at = text "2026-01-05T00:00:00.000Z";
}

abbrev s3 : S3Config
s3 = record {
  bucket = text "receipts";
  region = text "eu-west-1";
  access_key_id = text "id";
  secret_access_key = text "secret";
  session_token = none;
}

save_expense-allowed_example : is_sent (save_expense payload (some receipt)) ≡ (
    is_there (content_type_extension receipt.content_type)
    && allows_all receipt
        (upload_conditions s3 (text "key") receipt.content_type (text "id") (text "now")))
save_expense-allowed_example =
    save_expense-allowed payload receipt s3 (text "key") (text "id") (text "now") refl

-- Bodies are texts; every expense is called after its body.
abbrev web : Web Text
web = record { access_token = λ t. t; message = λ t. Message.one_message t; upper = λ t. t }

abbrev json : Json Text
json = record {
  of_payload = λ wanted. wanted.merchant;
  of_file = λ name content_type size. name;
  of_completion = λ object_key version. object_key;
  expense_id = λ body. body;
  expense_version = λ body. 0;
  target = λ body. record { object_key = body; upload_url = text "https://s3/"; fields = [] };
}

abbrev server : List Sent → Sent → Answer Text
server sent request = Answer.response 200 (some (7 ∷ []))

-- The storage refuses the upload.
abbrev storage : List Upload → Upload → Option ℕ
storage uploads upload = some 403

abbrev wanted : CreateExpenseRequest
wanted = record { payload = payload; receipt = some receipt }

abbrev browser : Browser
browser = record { page = record { token = some (6 ∷ []); sent = [] }; uploads = [] }

create_expense-IsUploaded_example :
    IsUploaded storage wanted.receipt browser.uploads
      (create_expense web server json storage (λ n. n ∷ []) wanted browser)
create_expense-IsUploaded_example =
    create_expense-IsUploaded web server json storage (λ n. n ∷ []) wanted browser
