-- ===== src/WebClient.antt =====
-- The web client's HTTP client, apps/web/src/lib/api.ts, for one call at a time; Flights has
-- calls that overlap. The server is any
-- function from what has been sent to it so far to its next answer.
mod Headers
pub mod Retries
pub mod Flights
use expenseflow.Common.{
  join_with, ℕ, Text, text, text_is_eq, number_eq, List, [], ◌∷◌, ◌++◌, Option, none, some, Bool,
  true, false, not, ◌==◌, ◌&&◌, ◌||◌, leb, ltb, is_empty, if◌then◌else◌,
}
unfoldable pub use Headers.*

-- `RequestInit`; the names of headers are in lower case, as `Headers` keeps them.
pub record RequestInit : Type 0 where
  pub method : Option Text
  pub headers : List (Text × Text)
  pub body : Option Text

-- A request on the wire: the path under `BASE_URL`.
pub record Sent : Type 0 where
  pub path : Text
  pub options : RequestInit

-- The `message` of an error's body.
pub data Message : Type 0 where
  no_message : Message
  one_message : Text → Message
  many_messages : List Text → Message

-- What `fetch` comes back with: an exception, or a status with a body that may not be JSON.
pub data Answer (Body : Type 0) : Type 0 where
  unreachable : Answer Body
  response : (status : ℕ) → (body : Option Body) → Answer Body

pub data Outcome (Body : Type 0) : Type 0 where
  value : Option Body → Outcome Body
  api_error : (status : ℕ) → (message : Text) → Outcome Body
  exception : Outcome Body

-- `localStorage`, and what has been sent.
pub record Page : Type 0 where
  pub token : Option Text
  pub sent : List Sent

-- How the client reads a body: its access token and its message; `upper` is `toUpperCase`.
pub record Web (Body : Type 0) : Type 0 where
  pub access_token : Body → Text
  pub message : Body → Message
  pub upper : Text → Text

abbrev pub is_ok : ℕ → Bool
is_ok status = leb 200 status && ltb status 300

-- `getErrorMessage`
unfoldable pub get_error_message : Message → Text → Text
get_error_message Message.no_message fallback = fallback
get_error_message (Message.one_message t) fallback = t
get_error_message (Message.many_messages ts) fallback = join_with (text ", ") ts

unfoldable pub is_mutation : Text → Bool
is_mutation method =
    method == text "POST"
    || method == text "PUT"
    || method == text "PATCH"
    || method == text "DELETE"

abbrev pub method_or_get : Option Text → Text
method_or_get none = text "GET"
method_or_get (some method) = method

-- `withIdempotencyKey`, with the key that it draws.
unfoldable pub with_idempotency_key : {Body : Type 0} → Web Body → Text → RequestInit → RequestInit
with_idempotency_key web uuid options =
    if is_mutation (web.upper (method_or_get options.method))
    then if has_header (text "idempotency-key") options.headers
      then options
      else record options { headers = set_header (text "idempotency-key") uuid options.headers }
    else options

abbrev pub with_content_type : Option Text → List (Text × Text) → List (Text × Text)
with_content_type none headers = headers
with_content_type (some body) headers =
    if is_empty body || has_header (text "content-type") headers
    then headers
    else set_header (text "content-type") (text "application/json") headers

abbrev pub with_authorization : Option Text → List (Text × Text) → List (Text × Text)
with_authorization none headers = headers
with_authorization (some token) headers =
    if is_empty token
    then headers
    else set_header (text "authorization") (text "Bearer " ++ token) headers

-- The request that `request` sends with the token that it has read.
unfoldable pub to_send : Text → RequestInit → Option Text → Sent
to_send path options token = record {
  path = path;
  options = record options {
    headers = with_authorization token (
        with_content_type options.body
          (set_header (text "accept") (text "application/json") options.headers));
  };
}

unfoldable pub refresh_request : Sent
refresh_request = record {
  path = text "/auth/refresh";
  options = record {
    method = some (text "POST");
    headers = (text "accept", text "application/json") ∷ [];
    body = none;
  };
}

unfoldable pub logout_request : Sent
logout_request = record {
  path = text "/auth/logout";
  options = record {
    method = some (text "POST");
    headers = (text "accept", text "application/json") ∷ [];
    body = none;
  };
}

abbrev pub wants_refresh : {Body : Type 0} → Text → Answer Body → Bool
wants_refresh path Answer.unreachable = false
wants_refresh path (Answer.response status body) =
    status == 401 && not (path == text "/auth/login") && not (path == text "/auth/refresh")

module _ {Body : Type 0} (web : Web Body) where
  abbrev pub message_of : Option Body → Message
  message_of none = Message.no_message
  message_of (some body) = web.message body

  -- `parseError`
  unfoldable pub parse_error : ℕ → Option Body → Outcome Body
  parse_error status body =
      Outcome.api_error status (get_error_message (message_of body) (text "Request failed"))

  -- The end of `request`: an error, nothing for status 204, or the body.
  unfoldable pub settle : Answer Body → Outcome Body
  settle Answer.unreachable = Outcome.exception
  settle (Answer.response status body) =
      if not (is_ok status)
      then parse_error status body
      else if status == 204
      then Outcome.value none
      else parsed body
    where
      parsed : Option Body → Outcome Body
      parsed none = Outcome.exception
      parsed (some b) = Outcome.value (some b)

  -- `refreshSession`: the new token, or the error, with which the token is cleared.
  unfoldable pub refreshed : Answer Body → Page → Outcome Body × Page
  refreshed Answer.unreachable page = (Outcome.exception, record page { token = none })
  refreshed (Answer.response status none) page = (
    if is_ok status then Outcome.exception else parse_error status none,
    record page { token = none },
  )
  refreshed (Answer.response status (some body)) page =
      if is_ok status
      then (Outcome.value (some body), record page { token = some (web.access_token body) })
      else (parse_error status (some body), record page { token = none })

module _ {Body : Type 0} (web : Web Body) (server : List Sent → Sent → Answer Body) where
  abbrev pub fetch : Sent → Page → Answer Body × Page
  fetch request page = (server page.sent request, record page { sent = page.sent ++ request ∷ [] })

  unfoldable pub refresh_session : Page → Outcome Body × Page
  refresh_session page =
      let (answer, after) = fetch refresh_request page in refreshed web answer after

  -- `endSession`, whatever the server answers.
  unfoldable pub end_session : Page → Page
  end_session page = record (fetch logout_request page).1 { token = none }

  -- `request` with `allowRefresh` false, and with it true.
  unfoldable pub request_again : Text → RequestInit → Page → Outcome Body × Page
  request_again path options page =
      let (answer, after) = fetch (to_send path options page.token) page in
      (settle web answer, after)

  abbrev pub after_refresh : Text → RequestInit → Outcome Body × Page → Outcome Body × Page
  after_refresh path options (Outcome.value body, page) = request_again path options page
  after_refresh path options (Outcome.api_error status message, page) =
      (Outcome.api_error status message, page)
  after_refresh path options (Outcome.exception, page) = (Outcome.exception, page)

  unfoldable pub request : Text → RequestInit → Page → Outcome Body × Page
  request path options page =
      let (answer, after) = fetch (to_send path options page.token) page in
      if wants_refresh path answer
      then after_refresh path options (refresh_session after)
      else (settle web answer, after)

  unfoldable pub api : (uuid path : Text) → RequestInit → Page → Outcome Body × Page
  api uuid path options page = request path (with_idempotency_key web uuid options) page
