-- ===== src/Idempotency/Replay.antt =====
-- `claim` of idempotency.service.ts: when it is granted, and when a record answers it.
use expenseflow.Common.{
  ℕ, zero, suc, ◌<◌, ◌≡◌, ◌≢◌, refl, sym, ap, Text, text_is_eq, text_eq, text_eq_iff, number_eq,
  List, [], ◌∷◌, ◌++◌, Bool, true, false, inl, inr, leb, ok, In, all-In, any, Bool-cases,
  Option-cases, arith,
}
use expenseflow.Schema.{IdempotencyRecord, Store}
use expenseflow.Database.{Client, IsClient, Env}
use expenseflow.Idempotency.{
  ClaimInput, Claim, Json, has_key, record_clash, new_record, answer, claim,
}

pub any-true :
    {A : Type 0} (p : A → Bool) (xs : List A) (a : A) → In a xs → p a ≡ true → any p xs ≡ true
any-true p [] a m h = absurd m
any-true p (x ∷ xs) a m h = ground (arith, any-true p xs a)

-- Two records clash as soon as they have an id or a key in common.
pub record_clash-key :
    (env : Env) (attempt : ℕ) (input : ClaimInput) (row : IdempotencyRecord)
    → record_clash (new_record env attempt input) row ≡ false
    → (has_key input row ≡ false) × (text_eq row.id (env.drawn attempt) ≡ false)
unfolding record_clash new_record
record_clash-key env attempt input row h =
    ground (arith, text_eq_iff row.id (env.drawn attempt), text_eq_iff (env.drawn attempt) row.id)

pub new_record-has_key :
    (env env' : Env) (attempt : ℕ) (input : ClaimInput) (row : IdempotencyRecord)
    → has_key input row ≡ true
    → record_clash (new_record env attempt input) row ≡ true
unfolding record_clash new_record
new_record-has_key env env' attempt input row h = ground arith

-- A claim that is granted has added a record, the only one of its key.
pub record Claimed (env : Env) (input : ClaimInput) (id : Text) (s' : Store) : Type 0 where
  pub others : List IdempotencyRecord
  pub attempt : ℕ
  pub drawn : id ≡ env.drawn attempt
  pub free : any (record_clash (new_record env attempt input)) others ≡ false
  pub records : s'.idempotency_records ≡ others ++ new_record env attempt input ∷ []

module _ (db : Client) (laws : IsClient db) {Body : Type 0} (json : Json Body) where
  answer-not_claimed :
      (input : ClaimInput) (existing : IdempotencyRecord) (id : Text)
      → answer db json input existing ≢ ok (Claim.claimed id)
  unfolding answer
  answer-not_claimed input existing id e = ground arith

  pub claim-Claimed :
      (fuel attempt : ℕ) (env : Env) (input : ClaimInput) (s s' : Store) (id : Text)
      → claim db json fuel attempt env input s ≡ (ok (Claim.claimed id), s')
      → Claimed env input id s'
  unfolding claim new_record
  claim-Claimed zero attempt env input s s' id e = absurd (cc)
  claim-Claimed (suc fuel) attempt env input s s' id e =
      let new = new_record env attempt input in
      let e' = rw (laws.create_lem record_clash new s.idempotency_records, claim) at e in
      elim (Bool-cases (any (record_clash new) s.idempotency_records)) [
        | inr free ↦
            let made = rw free at e' in
            record {
              others = s.idempotency_records;
              attempt = attempt;
              drawn = cc (made);
              free = free;
              records = ap (λ r. r.1.idempotency_records) (sym made);
            }
        | inl clash ↦
            let next = rw clash at e' in
            elim (Option-cases (db.find_first (has_key input) s.idempotency_records)) [
              | inl missing ↦
                  claim-Claimed fuel (suc attempt) env input s s' id (rw missing at next)
              | inr (existing, found) ↦
                  let next' = rw found at next in
                  elim (Bool-cases (leb existing.expires_at env.now)) [
                    | inl old ↦ claim-Claimed fuel (suc attempt) env input _ s' id (rw old at next')
                    | inr live ↦
                        absurd
                          (answer-not_claimed input existing id (ap (λ r. r.0) (rw live at next')))
                  ]
            ]
      ]

  -- A claim whose key has a live record is answered from that record.
  pub claim-answer :
      (fuel attempt : ℕ) (env : Env) (input : ClaimInput) (s : Store) (existing : IdempotencyRecord)
      → In existing s.idempotency_records
      → has_key input existing ≡ true
      → ((row : IdempotencyRecord)
          → In row s.idempotency_records
          → has_key input row ≡ true
          → row ≡ existing)
      → env.now < existing.expires_at
      → claim db json (suc fuel) attempt env input s ≡ (answer db json input existing, s)
  unfolding claim
  claim-answer fuel attempt env input s existing m h only live =
      let new = new_record env attempt input in
      let clash =
        any-true (record_clash new) s.idempotency_records existing m
          (new_record-has_key env env attempt input existing h) in
      elim (Option-cases (db.find_first (has_key input) s.idempotency_records)) [
        | inl missing ↦
            let none_here =
              all-In _ s.idempotency_records existing
                (laws.find_first_none _ s.idempotency_records missing) m in
            absurd (cc (none_here, h))
        | inr (row, found) ↦
            let (n, k) = laws.find_first_some _ s.idempotency_records row found in
            let same = only row n k in
            let live' : leb row.expires_at env.now ≡ false = rw same (ground arith) in
            rw (laws.create_lem record_clash new s.idempotency_records, claim)
              (rw clash (rw found (rw live' (rw same refl))))
      ]
