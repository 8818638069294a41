-- ===== src/Idempotency/Once.antt =====
-- `intercept` of idempotency.interceptor.ts, for a request and its repetition.
use expenseflow.Common.{
  ℕ, suc, ◌+◌, ◌<◌, ◌≡◌, refl, sym, ap, ◌∙◌, subst, Text, text_is_eq, text_eq, number_eq, List,
  Option, true, false, ◌==◌, ◌&&◌, inl, inr, ok, err, Error, if◌then◌else◌, In, keep, arith,
}
use expenseflow.Schema.{IdempotencyRecord, Store}
use expenseflow.Database.{Client, IsClient, Env, Action, after, Runs}
use expenseflow.Idempotency.{
  ClaimInput, Claim, Json, Response, Request, Hashing, has_key, day_ms, is_pending, claim, release,
  claim_input, or_release, run_claimed, after_claim, intercept,
}
use expenseflow.Idempotency.Replay.{Claimed, claim-Claimed, claim-answer}
use expenseflow.Idempotency.Requests.{
  IsJson, complete-Runs, answering, answering-In, completed, completed-only, answering-answer,
  new-id, new-waits, only-new, keep-In,
}

-- A store whose idempotency records are these.
abbrev pub with_records : Store → List IdempotencyRecord → Store
with_records s rows = record s { idempotency_records = rows }

module _ (db : Client) (laws : IsClient db) {Body : Type 0} (json : Json Body) where
  -- A claimed handler that ends well, with its record completed.
  run_claimed-Runs :
      (env : Env) (input : ClaimInput) (id : Text) (s1 s2 : Store)
      (handler : Action (Response Body)) (status : ℕ) (body : Option Body)
      → (claimed : Claimed env input id s2) → Runs handler s1 (status, body) s2
      → Runs
          (run_claimed db json id handler)
          s1
          (status, body)
          (with_records s2 (completed db laws json env input id s2 claimed status body))
  unfolding run_claimed or_release
  run_claimed-Runs env input id s1 s2 handler status body claimed ran =
      rw ran (rw (complete-Runs db laws json env input id s2 status body claimed) refl)

  -- The same request is answered from the record, whatever its handler would do.
  repeated :
      (env env' : Env) (input : ClaimInput) (id : Text) (s : Store)
      (handler : Action (Response Body)) (fuel status : ℕ) (body : Option Body)
      (claimed : Claimed env input id s)
      → IsJson json
      → env'.now < env.now + day_ms
      → let s' = with_records s (completed db laws json env input id s claimed status body) in
        after (claim db json (suc fuel) 0 env' input s') (after_claim db json handler)
        ≡ (ok (status, body), s')
  unfolding after_claim
  repeated env env' input id s handler fuel status body claimed j soon =
      let (answers, keyed, expires) =
        answering-answer db laws json env input id s claimed status body j in
      let s' = with_records s (completed db laws json env input id s claimed status body) in
      let found =
        claim-answer db laws json fuel 0 env' input s'
          (answering db laws json env input id s claimed status body)
          (answering-In db laws json env input id s claimed status body) keyed
          (completed-only db laws json env input id s claimed status body) (rw expires soon) in
      rw found (rw answers refl)

  -- The same, and the tables that the interceptor leaves alone.
  pub intercept-once_kept :
      (hashing : Hashing Body) (fuel fuel' : ℕ) (env env' : Env) (request : Request Body)
      (handler handler' : Action (Response Body)) (input : ClaimInput) (id : Text) (status : ℕ)
      (body : Option Body) (s s1 s2 : Store)
      → IsJson json
      → claim_input hashing request ≡ ok input
      → Runs (claim db json fuel 0 env input) s (Claim.claimed id) s1
      → Runs handler s1 (status, body) s2
      → s2.idempotency_records ≡ s1.idempotency_records
      → env'.now < env.now + day_ms
      → (s' : Store) × (s' ≡ with_records s2 s'.idempotency_records)
        × Runs (intercept db json hashing true fuel env request handler) s (status, body) s'
        × Runs
            (intercept db json hashing true (suc fuel') env' request handler')
            s'
            (status, body)
            s'
  unfolding intercept after_claim
  intercept-once_kept hashing fuel fuel' env env' request handler handler' input id status body s s1
        s2 j valid claims ran kept soon =
      let first = claim-Claimed db laws json fuel 0 env input s s1 id claims in
      let claimed : Claimed env input id s2 = record {
        others = first.others;
        attempt = first.attempt;
        drawn = first.drawn;
        free = first.free;
        records = kept ∙ first.records;
      } in
      (
        with_records s2 (completed db laws json env input id s2 claimed status body),
        refl,
        rw valid (rw claims (run_claimed-Runs env input id s1 s2 handler status body claimed ran)),
        rw valid (repeated env env' input id s2 handler' fuel' status body claimed j soon),
      )

  -- Once a claimed request has been handled well by a handler that leaves the table
  -- IdempotencyRecord alone, the interceptor answers with the handler's response, and on the
  -- store that this leaves it answers the same request within a day with the same status and
  -- body, whatever its handler, and changes nothing; JSON is assumed to round-trip.
  pub intercept-once :
      (hashing : Hashing Body) (fuel fuel' : ℕ) (env env' : Env) (request : Request Body)
      (handler handler' : Action (Response Body)) (input : ClaimInput) (id : Text) (status : ℕ)
      (body : Option Body) (s s1 s2 : Store)
      → IsJson json
      → claim_input hashing request ≡ ok input
      → Runs (claim db json fuel 0 env input) s (Claim.claimed id) s1
      → Runs handler s1 (status, body) s2
      → s2.idempotency_records ≡ s1.idempotency_records
      → env'.now < env.now + day_ms
      → (s' : Store) × Runs
          (intercept db json hashing true fuel env request handler)
          s
          (status, body)
          s'
        × Runs
            (intercept db json hashing true (suc fuel') env' request handler')
            s'
            (status, body)
            s'
  intercept-once hashing fuel fuel' env env' request handler handler' input id status body s s1 s2 j
        valid claims ran kept soon =
      let (s', _, first, second) =
        intercept-once_kept hashing fuel fuel' env env' request handler handler' input id status
          body s s1 s2 j valid claims ran kept soon in
      (s', first, second)

  -- A failed handler's record is the one that `release` deletes.
  failed-Runs :
      (id : Text) (e : Error) (s1 s2 : Store) (handler : Action (Response Body))
      → handler s1 ≡ (err e, s2)
      → run_claimed db json id handler s1 ≡ (
        err e,
        with_records s2 (
            keep
              (λ row. if row.id == id && is_pending row.status then false else true)
              s2.idempotency_records),
      )
  unfolding run_claimed or_release release
  failed-Runs id e s1 s2 handler failed = rw failed (rw laws.delete_many_lem refl)

  released-free :
      (env : Env) (input : ClaimInput) (id : Text) (s : Store) (claimed : Claimed env input id s)
      (row : IdempotencyRecord)
      → In row (
          keep
            (λ row. if row.id == id && is_pending row.status then false else true)
            s.idempotency_records)
      → has_key input row ≡ false
  released-free env input id s claimed row m =
      let (n, kept) =
        keep-In
          (λ (row : IdempotencyRecord).
            if row.id == id && is_pending row.status then false else true)
          s.idempotency_records row m in
      elim (only-new env input id s claimed row n) [
        | inr (other, apart) ↦ other
        | inl same ↦
            let deleted : text_eq row.id id ≡ true =
              subst (λ y. text_eq y.id id ≡ true) (sym same) (new-id env input id s claimed) in
            let waits : is_pending row.status ≡ true =
              ap (λ y. is_pending y.status) same ∙ new-waits env input id s claimed in
            absurd (ground (arith))
      ]

  -- When the handler of a claimed request fails, having left the table IdempotencyRecord alone,
  -- the interceptor passes its error on and no record with the key is left.
  pub intercept-release :
      (hashing : Hashing Body) (fuel : ℕ) (env : Env) (request : Request Body)
      (handler : Action (Response Body)) (input : ClaimInput) (id : Text) (e : Error)
      (s s1 s2 : Store)
      → claim_input hashing request ≡ ok input
      → Runs (claim db json fuel 0 env input) s (Claim.claimed id) s1
      → handler s1 ≡ (err e, s2)
      → s2.idempotency_records ≡ s1.idempotency_records
      → let outcome = intercept db json hashing true fuel env request handler s in
        (outcome.0 ≡ err e)
        × ((row : IdempotencyRecord)
            → In row outcome.1.idempotency_records
            → has_key input row ≡ false)
  unfolding intercept after_claim
  intercept-release hashing fuel env request handler input id e s s1 s2 valid claims failed kept =
      let first = claim-Claimed db laws json fuel 0 env input s s1 id claims in
      let claimed : Claimed env input id s2 = record {
        others = first.others;
        attempt = first.attempt;
        drawn = first.drawn;
        free = first.free;
        records = kept ∙ first.records;
      } in
      rw valid (
        rw claims (
          rw (failed-Runs id e s1 s2 handler failed) (refl, released-free env input id s2 claimed)))
