-- ===== src/Idempotency.antt =====
-- Idempotency keys: apps/api/src/common/idempotency/idempotency.service.ts and the interceptor beside
-- it. A response body is a value of any type `Body`, with `JSON.stringify` and `JSON.parse` on it.
pub mod Replay
pub mod Requests
pub mod Pending
pub mod Once
pub mod Attempts
pub mod Fingerprints
use expenseflow.Common.{
  ℕ, zero, suc, ◌+◌, ◌*◌, Text, text, text_is_eq, number_eq, List, [], ◌∷◌, Option, none, some,
  Bool, true, false, not, ◌==◌, ◌&&◌, ◌||◌, leb, ltb, length, ok, err, Result, Error, conflict,
  internal, bad_request, unauthorized, is_empty, if◌then◌else◌,
}
use expenseflow.RateLimits.{path_of}
use expenseflow.Schema.{IdempotencyStatus, IdempotencyRecord, Store}
use expenseflow.Database.{
  Client, Env, Action, ◌>>=◌, ◌>>◌, after, pure, gets, throw, throw_if, or_throw,
}

-- The argument of `claim`.
pub record ClaimInput : Type 0 where
  pub organization_id : Text
  pub actor_id : Text
  pub key : Text
  pub method : Text
  pub path : Text
  pub request_hash : Text

pub data Claim (Body : Type 0) : Type 0 where
  claimed : (record_id : Text) → Claim Body
  replay : (response_status : ℕ) → (response_body : Option Body) → Claim Body

abbrev pub set_records : List IdempotencyRecord → Action (Unit {0})
set_records rows s = (ok tt, record s { idempotency_records = rows })

abbrev pub has_key : ClaimInput → IdempotencyRecord → Bool
has_key input row =
    row.organization_id == input.organization_id
    && row.actor_id == input.actor_id
    && row.key == input.key

-- The unique columns: `id`, and the organization, actor and key together.
unfoldable pub record_clash : IdempotencyRecord → IdempotencyRecord → Bool
record_clash a b =
    a.id == b.id
    || b.organization_id == a.organization_id && b.actor_id == a.actor_id && b.key == a.key

abbrev pub day_ms : ℕ
day_ms = 24 * 60 * 60 * 1000

-- The record of a claim; its id is drawn anew for each attempt.
unfoldable pub new_record : Env → ℕ → ClaimInput → IdempotencyRecord
new_record env attempt input = record {
  id = env.drawn attempt;
  organization_id = input.organization_id;
  actor_id = input.actor_id;
  key = input.key;
  method = input.method;
  path = input.path;
  request_hash = input.request_hash;
  status = IdempotencyStatus.pending;
  response_status = none;
  response_body = none;
  expires_at = env.now + day_ms;
}

unfoldable pub is_same_request : ClaimInput → IdempotencyRecord → Bool
is_same_request input existing =
    existing.method == input.method
    && existing.path == input.path
    && existing.request_hash == input.request_hash

-- `JSON.stringify` and `JSON.parse`.
pub record Json (Body : Type 0) : Type 0 where
  pub stringify : Body → Text
  pub parse : Text → Body

abbrev pub is_completed : IdempotencyStatus → Bool
is_completed IdempotencyStatus.completed = true
is_completed IdempotencyStatus.pending = false

abbrev pub is_pending : IdempotencyStatus → Bool
is_pending IdempotencyStatus.completed = false
is_pending IdempotencyStatus.pending = true

module _ (db : Client) {Body : Type 0} (json : Json Body) where
  abbrev pub stored_body : Option Body → Option Text
  stored_body none = none
  stored_body (some body) = some (json.stringify body)

  -- `existing.responseBody ? JSON.parse(existing.responseBody) : undefined`
  abbrev pub parsed_body : Option Text → Option Body
  parsed_body none = none
  parsed_body (some []) = none
  parsed_body (some (c ∷ t)) = some (json.parse (c ∷ t))

  in_progress : Error
  in_progress = conflict "A request with this idempotency key is already in progress"

  -- What `claim` answers for a live record of its key.
  unfoldable pub answer : ClaimInput → IdempotencyRecord → Result (Claim Body)
  unfolding in_progress
  answer input existing =
      if is_same_request input existing
      then if is_completed existing.status
        then elim existing.response_status [
          | none ↦ err in_progress
          | some status ↦ ok (Claim.replay status (parsed_body existing.response_body))
        ]
        else err in_progress
      else err (conflict "Idempotency key has already been used for a different request")

  -- `claim` calls itself again when the record in its way is gone or has run out; `fuel` is the
  -- number of attempts.
  unfoldable pub claim : ℕ → ℕ → Env → ClaimInput → Action (Claim Body)
  claim zero attempt env input s = throw (internal "out of fuel") s
  claim (suc fuel) attempt env input s =
      let new = new_record env attempt input in
      let records = s.idempotency_records in
      let again = claim fuel (suc attempt) env input in
      elim (db.create record_clash new records) [
        | some rows ↦ (ok (Claim.claimed new.id), record s { idempotency_records = rows })
        | none ↦ elim (db.find_first (has_key input) records) [
          | none ↦ again s
          | some existing ↦
              if leb existing.expires_at env.now
              then again (record s {
                idempotency_records =
                    db.delete_many (λ row. row.id == existing.id && leb row.expires_at env.now)
                      records;
              })
              else (answer input existing, s)
        ]
      ]

  unfoldable pub completed_record : ℕ → Option Body → IdempotencyRecord → IdempotencyRecord
  completed_record status body row = record row {
    status = IdempotencyStatus.completed;
    response_status = some status;
    response_body = stored_body body;
  }

  -- `update` throws P2025 if there is no such record.
  unfoldable pub complete : Text → ℕ → Option Body → Action (Unit {0})
  complete record_id status body = do
    s ← gets (λ s. s)
    let changed =
        db.update_many (λ row. row.id == record_id) (completed_record status body)
          s.idempotency_records
    throw_if (changed.1 == 0) (internal "P2025")
    set_records changed.0

  unfoldable pub release : Text → Action (Unit {0})
  release record_id s =
      set_records
        (db.delete_many (λ row. row.id == record_id && is_pending row.status) s.idempotency_records)
        s

-- JavaScript's `toUpperCase` and `trim`, and the SHA-256 of a request's sorted JSON (`hashRequest`).
pub record Hashing (Body : Type 0) : Type 0 where
  pub upper : Text → Text
  pub trim : Text → Text
  pub hash_request : (method path : Text) → Option Body → Text

pub record Request (Body : Type 0) : Type 0 where
  pub method : Text
  pub original_url : Text
  pub key_header : Option Text
  pub body : Option Body
  -- the organization and the id of the user, if there is one
  pub user : Option (Text × Text)

-- The status code and the body that a handler answers with.
abbrev pub Response : Type 0 → Type 0
Response Body = ℕ × Option Body

-- The checks of `intercept` before it claims the key.
unfoldable pub claim_input : {Body : Type 0} → Hashing Body → Request Body → Result ClaimInput
claim_input hashing request = elim request.user [
  | none ↦ err (unauthorized "Unauthorized")
  | some (organization_id, sub) ↦ elim request.key_header [
    | none ↦ err (bad_request "Idempotency-Key header is required")
    | some key ↦
        if is_empty key || is_empty (hashing.trim key)
        then err (bad_request "Idempotency-Key header is required")
        else if ltb 200 (length key)
        then err (bad_request "Idempotency-Key must be 200 characters or fewer")
        else let method = hashing.upper request.method in
          let path = path_of request.original_url in
          ok (record {
            organization_id = organization_id;
            actor_id = sub;
            key = key;
            method = method;
            path = path;
            request_hash = hashing.hash_request method path request.body;
          })
  ]
]

module _ (db : Client) {Body : Type 0} (json : Json Body) where
  -- `catchError`: the claim is released, and the error goes on.
  unfoldable pub or_release : Text → Result (Response Body) × Store → Result (Response Body) × Store
  or_release record_id (ok response, s) = (ok response, s)
  or_release record_id (err e, s) = after (release db json record_id s) (λ u. throw e)

  -- The handler under a claim.
  unfoldable pub run_claimed : Text → Action (Response Body) → Action (Response Body)
  run_claimed record_id handler s = or_release record_id (
      (handler >>= λ response. complete db json record_id response.0 response.1 >> pure response) s)

  unfoldable pub after_claim : Action (Response Body) → Claim Body → Action (Response Body)
  after_claim handler (Claim.replay status body) = pure (status, body)
  after_claim handler (Claim.claimed record_id) = run_claimed record_id handler

  -- `intercept`, for a route that is marked idempotent or is not.
  unfoldable pub intercept :
      Hashing Body → Bool → ℕ → Env → Request Body → Action (Response Body) → Action (Response Body)
  intercept hashing enabled fuel env request handler s =
      if enabled
      then elim (claim_input hashing request) [
        | err e ↦ (err e, s)
        | ok input ↦ after (claim db json fuel 0 env input s) (after_claim handler)
      ]
      else handler s
