-- ===== src/WebClient/Flights.antt =====
-- `refreshSession` of api.ts for callers that come while a refresh is under way: they share it.
use expenseflow.Common.{
  ℕ, ◌+◌, ◌≡◌, refl, sym, ap, ◌∙◌, List, [], ◌∷◌, ◌++◌, map, Option, Bool, true, false, not, Text,
  arith, if◌then◌else◌, Bool-cases, inl, inr, subst,
}
use mathlib.Core.List.{append_assoc, append-nil}
use expenseflow.WebClient.{Answer, Outcome, Page, Web, refreshed}

-- `refreshRequest` and the callers that wait for it; `sent` and `settled` count the requests that
-- have been sent and those that have been answered, `served` lists what each caller has got.
pub record Flight (Body : Type 0) : Type 0 where
  pub in_flight : Bool
  pub waiting : List ℕ
  pub sent : ℕ
  pub settled : ℕ
  pub token : Option Text
  pub served : List (ℕ × Outcome Body)

abbrev pub no_flight : {Body : Type 0} → Option Text → Flight Body
no_flight token = record {
  in_flight = false;
  waiting = [];
  sent = 0;
  settled = 0;
  token = token;
  served = [];
}

-- A caller calls `refreshSession`, or the server answers the request that is under way.
pub data FlightEvent (Body : Type 0) : Type 0 where
  called : (caller : ℕ) → FlightEvent Body
  answered : Answer Body → FlightEvent Body

module _ {Body : Type 0} (web : Web Body) where
  abbrev pub outcome_of : Answer Body → Option Text → Outcome Body × Page
  outcome_of answer token = refreshed web answer (record { token = token; sent = [] })

  unfoldable pub call_refresh : ℕ → Flight Body → Flight Body
  call_refresh caller flight =
      if flight.in_flight
      then record flight { waiting = flight.waiting ++ caller ∷ [] }
      else record flight { in_flight = true; waiting = caller ∷ []; sent = flight.sent + 1 }

  -- `finally` clears `refreshRequest`; an answer without a request does not come.
  unfoldable pub settle_refresh : Answer Body → Flight Body → Flight Body
  settle_refresh answer flight =
      let outcome = outcome_of answer flight.token in
      if flight.in_flight
      then record {
        in_flight = false;
        waiting = [];
        sent = flight.sent;
        settled = flight.settled + 1;
        token = outcome.1.token;
        served = flight.served ++ map (λ caller. (caller, outcome.0)) flight.waiting;
      }
      else flight

  unfoldable pub after_event : FlightEvent Body → Flight Body → Flight Body
  after_event (called caller) flight = call_refresh caller flight
  after_event (answered answer) flight = settle_refresh answer flight

  unfoldable pub after_events : List (FlightEvent Body) → Flight Body → Flight Body
  after_events [] flight = flight
  after_events (event ∷ events) flight = after_events events (after_event event flight)

  abbrev pub callers_of : List (FlightEvent Body) → List ℕ
  callers_of [] = []
  callers_of (called caller ∷ events) = caller ∷ callers_of events
  callers_of (answered answer ∷ events) = callers_of events

  abbrev pub served_callers : Flight Body → List ℕ
  served_callers flight = map (λ s. s.0) flight.served

abbrev pub flying : Bool → ℕ
flying true = 1
flying false = 0

abbrev pub has_none : List ℕ → Bool
has_none [] = true
has_none (n ∷ ns) = false

-- One request at most is under way; callers wait exactly while one is; each caller has its outcome
-- or waits, in the order of the calls.
pub record IsShared {Body : Type 0} (web : Web Body) (flight : Flight Body) (callers : List ℕ)
    : Type 0 where
  pub one_request : flight.sent ≡ flight.settled + flying flight.in_flight
  pub waiting_while : has_none flight.waiting ≡ not flight.in_flight
  pub in_order : served_callers web flight ++ flight.waiting ≡ callers

has_none-append : (ns : List ℕ) (n : ℕ) → has_none (ns ++ n ∷ []) ≡ false
has_none-append [] n = refl
has_none-append (m ∷ ns) n = refl

none_waiting : (ns : List ℕ) → has_none ns ≡ true → ns ≡ []
none_waiting [] h = refl
none_waiting (n ∷ ns) h = absurd (cc (h))

map-append : {A B : Type 0} (f : A → B) (xs ys : List A) → map f (xs ++ ys) ≡ map f xs ++ map f ys
map-append f [] ys = refl
map-append f (x ∷ xs) ys = ap (λ zs. f x ∷ zs) (map-append f xs ys)

map-pairs :
    {B : Type 0} (b : B) (ns : List ℕ) → map (λ (s : ℕ × B). s.0) (map (λ n. (n, b)) ns) ≡ ns
map-pairs b [] = refl
map-pairs b (n ∷ ns) = ap (λ ms. n ∷ ms) (map-pairs b ns)

append_nothing :
    (served waiting callers : List ℕ)
    → waiting ≡ []
    → served ++ waiting ≡ callers
    → (more : List ℕ) → served ++ more ≡ callers ++ more
append_nothing served waiting callers none_wait in_order more =
    ap (λ ns. ns ++ more)
      (sym (append-nil served) ∙ (ap (λ ns. served ++ ns) (sym none_wait) ∙ in_order))

module _ {Body : Type 0} (web : Web Body) where
  call_refresh-IsShared :
      (caller : ℕ) (flight : Flight Body) (callers : List ℕ)
      → IsShared web flight callers
      → IsShared web (call_refresh web caller flight) (callers ++ caller ∷ [])
  unfolding call_refresh
  call_refresh-IsShared caller flight callers inv = elim (Bool-cases flight.in_flight) [
    | inl h ↦ rw h (record {
      one_request = rw h at inv.one_request;
      waiting_while = has_none-append flight.waiting caller;
      in_order =
          sym (append_assoc (served_callers web flight) flight.waiting (caller ∷ []))
          ∙ ap (λ ns. ns ++ caller ∷ []) inv.in_order;
    })
    | inr h ↦ rw h (record {
      one_request = let idle = rw h at inv.one_request in omega arith;
      waiting_while = refl;
      in_order =
          append_nothing (served_callers web flight) flight.waiting callers
            (none_waiting flight.waiting (inv.waiting_while ∙ ap not h)) inv.in_order (caller ∷ []);
    })
  ]

  settle_refresh-IsShared :
      (answer : Answer Body) (flight : Flight Body) (callers : List ℕ)
      → IsShared web flight callers
      → IsShared web (settle_refresh web answer flight) callers
  unfolding settle_refresh
  settle_refresh-IsShared answer flight callers inv = elim (Bool-cases flight.in_flight) [
    | inl h ↦ rw h (record {
      one_request = let busy = rw h at inv.one_request in omega arith;
      waiting_while = refl;
      in_order =
          append-nil _
          ∙ map-append (λ s. s.0) flight.served
              (map (λ c. (c, (outcome_of web answer flight.token).0)) flight.waiting)
          ∙ ap (λ ns. served_callers web flight ++ ns)
              (map-pairs (outcome_of web answer flight.token).0 flight.waiting)
          ∙ inv.in_order;
    })
    | inr h ↦ simp (h) inv
  ]

  after_events-IsShared :
      (events : List (FlightEvent Body)) (flight : Flight Body) (callers : List ℕ)
      → IsShared web flight callers
      → IsShared web (after_events web events flight) (callers ++ callers_of web events)
  unfolding after_events after_event
  after_events-IsShared [] flight callers inv = rw (append-nil callers) inv
  after_events-IsShared (called caller ∷ events) flight callers inv =
      subst (λ ns. IsShared web (after_events web events (call_refresh web caller flight)) ns)
        (append_assoc callers (caller ∷ []) (callers_of web events))
        (after_events-IsShared events (call_refresh web caller flight) (callers ++ caller ∷ [])
          (call_refresh-IsShared caller flight callers inv))
  after_events-IsShared (answered answer ∷ events) flight callers inv =
      after_events-IsShared events (settle_refresh web answer flight) callers
        (settle_refresh-IsShared answer flight callers inv)

  -- Whatever calls of refreshSession and answers of the server follow each other, one refresh
  -- request at most is under way, callers wait exactly while one is, and each call has its
  -- outcome or waits for it, in the order of the calls: none is lost and none is served twice.
  pub refresh_session-IsShared :
      (token : Option Text) (events : List (FlightEvent Body))
      → IsShared web (after_events web events (no_flight token)) (callers_of web events)
  refresh_session-IsShared token events =
      after_events-IsShared events (no_flight token) []
        (record { one_request = refl; waiting_while = refl; in_order = refl })
