-- ===== src/Idempotency/Requests.antt =====
-- `complete` of idempotency.service.ts, and the records that it leaves.
use expenseflow.Common.{
  ℕ, ◌+◌, ◌≡◌, refl, sym, ap, ◌∙◌, subst, Text, text_is_eq, text_eq, text_eq_iff, text_eq_refl,
  number_eq, eqb, List, [], ◌∷◌, Option, none, some, Bool, true, false, ◌==◌, ◌⊎◌, inl, inr, ok,
  if◌then◌else◌, In, any-false, keep, count, map_where, In-map_where, map_where-In, In-append,
  arith, is_empty,
}
use expenseflow.Schema.{IdempotencyRecord, Store}
use expenseflow.Database.{Client, IsClient, Env}
use expenseflow.Idempotency.{
  ClaimInput, Claim, Json, has_key, record_clash, day_ms, new_record, is_same_request, is_pending,
  stored_body, parsed_body, answer, completed_record, complete,
}
use expenseflow.Idempotency.Replay.{Claimed, record_clash-key}

-- What is documented of `JSON.stringify` and `JSON.parse`.
pub record IsJson {Body : Type 0} (json : Json Body) : Type 0 where
  pub parse_stringify : (body : Body) → json.parse (json.stringify body) ≡ body
  pub stringify_text : (body : Body) → is_empty (json.stringify body) ≡ false

count-some :
    {A : Type 0} (p : A → Bool) (xs : List A) (a : A)
    → In a xs
    → p a ≡ true
    → eqb (count p xs) 0 ≡ false
count-some p [] a m h = absurd m
count-some p (x ∷ xs) a m h = ground (arith, count-some p xs a)

pub keep-In :
    {A : Type 0} (p : A → Bool) (xs : List A) (a : A) → In a (keep p xs) → In a xs × (p a ≡ true)
keep-In p [] a m = absurd m
keep-In p (x ∷ xs) a m = ground (arith, keep-In p xs a)

module _ (env : Env) (input : ClaimInput) (id : Text) (s : Store)
    (claimed : Claimed env input id s) where
  pub new : IdempotencyRecord
  new = new_record env claimed.attempt input

  pub new-In : In new s.idempotency_records
  unfolding new
  new-In =
      subst (In (new_record env claimed.attempt input)) (sym claimed.records)
        ((In-append _ claimed.others _).1 (inr (inl refl)))

  pub new-new_record : new ≡ new_record env claimed.attempt input
  unfolding new
  new-new_record = refl

  pub new-id : text_eq new.id id ≡ true
  unfolding new new_record
  new-id = (text_eq_iff _ _).1 (sym claimed.drawn)

  pub new-waits : is_pending new.status ≡ true
  unfolding new new_record
  new-waits = refl

  -- Every other record differs in its key and in its id.
  pub only-new :
      (row : IdempotencyRecord)
      → In row s.idempotency_records
      → (row ≡ new) ⊎ ((has_key input row ≡ false) × (text_eq row.id id ≡ false))
  unfolding new
  only-new row m = elim ((In-append row claimed.others _).0 (subst (In row) claimed.records m)) [
    | inl p ↦
        let (k, i) = record_clash-key env claimed.attempt input row (
          any-false (record_clash (new_record env claimed.attempt input)) claimed.others row
            claimed.free p) in
        inr (k, rw claimed.drawn i)
    | inr (inl p) ↦ inl p
    | inr (inr p) ↦ absurd p
  ]

module _ (db : Client) (laws : IsClient db) {Body : Type 0} (json : Json Body) where
  parsed-stored :
      IsJson json → (body : Option Body) → parsed_body db json (stored_body db json body) ≡ body
  parsed-stored j none = refl
  parsed-stored j (some b) = go (json.stringify b) refl
    where
      go :
          (t : Text) → json.stringify b ≡ t → parsed_body db json (some (json.stringify b)) ≡ some b
      go [] e = absurd (cc (e, j.stringify_text b, ap is_empty e))
      go (c ∷ t) e = rw e (ap some (ap json.parse (sym e) ∙ j.parse_stringify b))

  pub complete-Runs :
      (env : Env) (input : ClaimInput) (id : Text) (s : Store) (status : ℕ) (body : Option Body)
      → Claimed env input id s
      → complete db json id status body s ≡ (
        ok tt,
        record s {
          idempotency_records =
              map_where
                (λ row. row.id == id)
                (completed_record db json status body)
                s.idempotency_records;
        },
      )
  unfolding complete
  complete-Runs env input id s status body claimed =
      let found =
        count-some (λ (row : IdempotencyRecord). row.id == id) s.idempotency_records _
          (new-In env input id s claimed) (new-id env input id s claimed) in
      rw laws.update_many_lem (rw found refl)

  -- The records after a claimed request has been completed: one of them has the key.
  module _ (env : Env) (input : ClaimInput) (id : Text) (s : Store)
      (claimed : Claimed env input id s) (status : ℕ) (body : Option Body) where
    abbrev pub completed : List IdempotencyRecord
    completed =
        map_where (λ row. row.id == id) (completed_record db json status body) s.idempotency_records

    pub answering : IdempotencyRecord
    answering = completed_record db json status body (new env input id s claimed)

    pub answering-In : In answering completed
    unfolding answering
    answering-In =
        subst
          (λ b.
            In
              (if b
                then completed_record db json status body (new env input id s claimed)
                else new env input id s claimed)
              completed)
          (new-id env input id s claimed)
          (map_where-In (λ row. row.id == id) (completed_record db json status body)
            s.idempotency_records _ (new-In env input id s claimed))

    pub completed-only :
        (row : IdempotencyRecord) → In row completed → has_key input row ≡ true → row ≡ answering
    unfolding answering completed_record
    completed-only row m h =
        let (a, n, e) =
          In-map_where (λ row. row.id == id) (completed_record db json status body)
            s.idempotency_records row m in
        elim (only-new env input id s claimed a n) [
          | inl same ↦
              e
              ∙ (ap (λ y. if text_eq y.id id then completed_record db json status body y else y)
                    same
                  ∙ rw (new-id env input id s claimed) refl)
          | inr (other, apart) ↦
              let unchanged : row ≡ a = e ∙ rw apart refl in
              absurd (cc (ap (has_key input) unchanged, other, h))
        ]

    pub answering-answer :
        IsJson json
        → (answer db json input answering ≡ ok (Claim.replay status body))
          × (has_key input answering ≡ true)
          × (answering.expires_at ≡ env.now + day_ms)
    unfolding answering completed_record answer is_same_request new new_record
    answering-answer j = (
      rw (text_eq_refl input.method) (
          rw (text_eq_refl input.path) (
            rw (text_eq_refl input.request_hash)
              (ap (λ b. ok (Claim.replay status b)) (parsed-stored j body)))),
      ground (
        arith,
        text_eq_refl input.organization_id,
        text_eq_refl input.actor_id,
        text_eq_refl input.key,
      ),
      refl,
    )
