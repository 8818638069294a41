-- ===== src/Tests/Calls.antt =====
-- A call of the web client with a token that has run out.
use expenseflow.Common.{Text, text, List, [], ◌∷◌, some}
use expenseflow.WebClient.{RequestInit, Sent, Answer, Page, Web, Message}
use expenseflow.WebClient.Flights.{
  FlightEvent, called, answered, IsShared, no_flight, after_events, callers_of,
  refresh_session-IsShared,
}

-- Bodies are texts, and stand for their access token.
abbrev web : Web Text
web = record { access_token = λ t. t; message = λ t. Message.one_message t; upper = λ t. t }

-- The first answer is 401, and every later one 200.
abbrev server : List Sent → Sent → Answer Text
server [] request = Answer.response 401 (some (1 ∷ []))
server (first ∷ sent) request = Answer.response 200 (some (7 ∷ []))

abbrev options : RequestInit
options = record { method = some (text "POST"); headers = []; body = some (5 ∷ []) }

abbrev page : Page
page = record { token = some (6 ∷ []); sent = [] }

-- Two callers share the first refresh, which the server answers; a third one starts another.
abbrev events : List (FlightEvent Text)
events = called 1 ∷ called 2 ∷ answered (Answer.response 200 (some (7 ∷ []))) ∷ called 3 ∷ []

refresh_session-IsShared_example :
    IsShared web (after_events web events (no_flight (some (6 ∷ [])))) (callers_of web events)
refresh_session-IsShared_example = refresh_session-IsShared web (some (6 ∷ [])) events
