-- ===== src/WebClient/Retries.antt =====
-- What a call of api.ts sends, and under which idempotency key.
use expenseflow.Common.{
  ℕ, ◌≤◌, leb, ◌&&◌, ◌≡◌, Text, text, text_is_eq, List, [], ◌∷◌, ◌++◌, Option, none, some, Bool,
  true, false, number_eq,
}
use expenseflow.WebClient.{
  RequestInit, Sent, Answer, Outcome, Page, Web, get_header, to_send, refresh_request, settle,
  wants_refresh,
}

abbrev pub key_name : Text
key_name = text "idempotency-key"

abbrev pub key_of : Sent → Option Text
key_of sent = get_header key_name sent.options.headers

abbrev pub is_value : {Body : Type 0} → Outcome Body → Bool
is_value (Outcome.value body) = true
is_value (Outcome.api_error status message) = false
is_value Outcome.exception = false

-- An answer of a status from 200 to 299 with a body.
abbrev pub ends_well : {Body : Type 0} → Answer Body → Bool
ends_well Answer.unreachable = false
ends_well (Answer.response status none) = false
ends_well (Answer.response status (some body)) = leb 200 status && leb status 299

module _ {Body : Type 0} (web : Web Body) (server : List Sent → Sent → Answer Body) where
  -- How a call may go: one request; one request and a refresh that fails; or one request, a refresh,
  -- and the request again with the new token and the same key.
  pub data Exchange (path : Text) (options : RequestInit) (page : Page) (outcome : Outcome Body)
      (page' : Page) : Type 0 where
    direct :
        wants_refresh path (server page.sent (to_send path options page.token)) ≡ false
        → outcome ≡ settle web (server page.sent (to_send path options page.token))
        → page' ≡ record page { sent = page.sent ++ to_send path options page.token ∷ [] }
        → Exchange path options page outcome page'
    refused :
        wants_refresh path (server page.sent (to_send path options page.token)) ≡ true
        → page' ≡ record {
          token = none;
          sent = (page.sent ++ to_send path options page.token ∷ []) ++ refresh_request ∷ [];
        }
        → ends_well (server (page.sent ++ to_send path options page.token ∷ []) refresh_request)
          ≡ false
        → is_value outcome ≡ false
        → Exchange path options page outcome page'
    repeated :
        (status : ℕ) (body : Body)
        → wants_refresh path (server page.sent (to_send path options page.token)) ≡ true
        → server (page.sent ++ to_send path options page.token ∷ []) refresh_request
          ≡ Answer.response status (some body)
        → 200 ≤ status
        → status ≤ 299
        → outcome
          ≡ settle web (
              server
                ((page.sent ++ to_send path options page.token ∷ []) ++ refresh_request ∷ [])
                (to_send path options (some (web.access_token body))))
        → page' ≡ record {
          token = some (web.access_token body);
          sent =
              ((page.sent ++ to_send path options page.token ∷ []) ++ refresh_request ∷ [])
              ++ to_send path options (some (web.access_token body)) ∷ [];
        }
        → key_of (to_send path options (some (web.access_token body)))
          ≡ key_of (to_send path options page.token)
        → Exchange path options page outcome page'
