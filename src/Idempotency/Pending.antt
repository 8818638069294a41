-- ===== src/Idempotency/Pending.antt =====
-- `intercept` of idempotency.interceptor.ts while another request of the same key is handled.
use expenseflow.Common.{
  ℕ, suc, ◌+◌, ◌<◌, ◌≡◌, refl, ap, ◌∙◌, Text, text_is_eq, text_eq_refl, Bool, ◌==◌, ◌&&◌, inl, inr,
  ok, err, Error, conflict, if◌then◌else◌, arith, true,
}
use expenseflow.Schema.{IdempotencyRecord, Store}
use expenseflow.Database.{Client, IsClient, Env, Action, Runs}
use expenseflow.Idempotency.{
  ClaimInput, Claim, Json, Response, Request, Hashing, has_key, day_ms, claim, claim_input, answer,
  after_claim, intercept, is_same_request, new_record,
}
use expenseflow.Idempotency.Replay.{Claimed, claim-Claimed, claim-answer}
use expenseflow.Idempotency.Requests.{new, new-new_record, new-In, only-new}

-- Both are of one organization, actor and key.
pub record IsSameKey (a b : ClaimInput) : Type 0 where
  pub organization : a.organization_id ≡ b.organization_id
  pub actor : a.actor_id ≡ b.actor_id
  pub key : a.key ≡ b.key

abbrev pub has_same_content : ClaimInput → ClaimInput → Bool
has_same_content a b = a.method == b.method && a.path == b.path && a.request_hash == b.request_hash

abbrev pub refusal : ClaimInput → ClaimInput → Error
refusal first second =
    if has_same_content first second
    then conflict "A request with this idempotency key is already in progress"
    else conflict "Idempotency key has already been used for a different request"

same_key :
    (a b : ClaimInput) (row : IdempotencyRecord) → IsSameKey a b → has_key a row ≡ has_key b row
same_key a b row same = rw (same.organization, same.actor, same.key) refl

new_record-expires :
    (env env' : Env) (attempt : ℕ) (input : ClaimInput)
    → env'.now < env.now + day_ms
    → env'.now < (new_record env attempt input).expires_at
unfolding new_record
new_record-expires env env' attempt input soon = soon

module _ (db : Client) (laws : IsClient db) {Body : Type 0} (json : Json Body) where
  new_record-answer :
      (env : Env) (attempt : ℕ) (first second : ClaimInput)
      → answer db json second (new_record env attempt first) ≡ err (refusal first second)
  unfolding answer is_same_request new_record
  new_record-answer env attempt first second = ground arith

  new_record-key :
      (env : Env) (attempt : ℕ) (input : ClaimInput)
      → has_key input (new_record env attempt input) ≡ true
  unfolding new_record
  new_record-key env attempt input = ground (
    arith,
    text_eq_refl input.organization_id,
    text_eq_refl input.actor_id,
    text_eq_refl input.key,
  )

  claim-refused :
      (fuel : ℕ) (env env' : Env) (first second : ClaimInput) (id : Text) (s : Store)
      → Claimed env first id s
      → IsSameKey second first
      → env'.now < env.now + day_ms
      → claim db json (suc fuel) 0 env' second s ≡ (err (refusal first second), s)
  claim-refused fuel env env' first second id s claimed same soon =
      let row = new env first id s claimed in
      let made = new-new_record env first id s claimed in
      let keyed : (r : IdempotencyRecord) → has_key second r ≡ has_key first r =
        λ r. same_key second first r same in
      claim-answer db laws json fuel 0 env' second s row (new-In env first id s claimed)
        (keyed row ∙ (ap (has_key first) made ∙ new_record-key env claimed.attempt first))
        (λ r m h. elim (only-new env first id s claimed r m) [
          | inl is_new ↦ is_new
          | inr (other, apart) ↦ absurd (cc (keyed r, other, h))
        ])
        (rw made (new_record-expires env env' claimed.attempt first soon))
      ∙ ap (λ e. (e, s))
          (ap (answer db json second) made ∙ new_record-answer env claimed.attempt first second)

  -- While a claimed request is handled, and before its claim runs out, a request of the same
  -- organization, actor and key is refused with a conflict that tells whether its method, path
  -- and body are the same; its handler does not run, and nothing changes.
  pub intercept-refused :
      (hashing : Hashing Body) (fuel fuel' : ℕ) (env env' : Env) (request : Request Body)
      (handler : Action (Response Body)) (first second : ClaimInput) (id : Text) (s s1 s2 : Store)
      → Runs (claim db json fuel 0 env first) s (Claim.claimed id) s1
      → s2.idempotency_records ≡ s1.idempotency_records
      → claim_input hashing request ≡ ok second
      → IsSameKey second first
      → env'.now < env.now + day_ms
      → intercept db json hashing true (suc fuel') env' request handler s2
        ≡ (err (refusal first second), s2)
  unfolding intercept after_claim
  intercept-refused hashing fuel fuel' env env' request handler first second id s s1 s2 claims kept
        valid same soon =
      let granted = claim-Claimed db laws json fuel 0 env first s s1 id claims in
      let claimed : Claimed env first id s2 = record {
        others = granted.others;
        attempt = granted.attempt;
        drawn = granted.drawn;
        free = granted.free;
        records = kept ∙ granted.records;
      } in
      rw valid (rw (claim-refused fuel' env env' first second id s2 claimed same soon) refl)
