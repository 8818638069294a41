-- ===== src/Idempotency/Attempts.antt =====
-- The recursion of `claim` of idempotency.service.ts.
use expenseflow.Common.{
  ℕ, suc, ◌<◌, ◌≡◌, ◌≢◌, refl, sym, ap, subst, Text, text_is_eq, text_eq_iff, text_eq_refl, List,
  [], ◌∷◌, ◌++◌, Bool, true, false, ◌==◌, ◌&&◌, ◌⊎◌, inl, inr, leb, ok, Result, if◌then◌else◌, In,
  all-In, any, Bool-cases, Option-cases, arith,
}
use expenseflow.Schema.{IdempotencyRecord, Store}
use expenseflow.Database.{Client, IsClient, Env}
use expenseflow.Idempotency.{
  ClaimInput, Claim, Json, has_key, record_clash, new_record, answer, claim,
}
use expenseflow.Idempotency.Replay.{any-true, new_record-has_key}
use expenseflow.Idempotency.Requests.{keep-In}

-- No record has the id that an attempt draws.
abbrev pub IsFresh : Env → ℕ → List IdempotencyRecord → Type 0
IsFresh env attempt rows = (row : IdempotencyRecord) → In row rows → row.id ≢ env.drawn attempt

-- The unique key of the table, for the key of one claim.
abbrev pub HasUniqueKey : ClaimInput → List IdempotencyRecord → Type 0
HasUniqueKey input rows =
    (a b : IdempotencyRecord)
    → In a rows
    → In b rows
    → has_key input a ≡ true
    → has_key input b ≡ true
    → a ≡ b

apart_clash :
    (env : Env) (attempt : ℕ) (input : ClaimInput) (x : IdempotencyRecord)
    → x.id ≢ env.drawn attempt
    → has_key input x ≡ false
    → record_clash (new_record env attempt input) x ≡ false
unfolding record_clash new_record
apart_clash env attempt input x apart free = ground (arith, text_eq_iff (env.drawn attempt) x.id)

no_clash :
    (env : Env) (attempt : ℕ) (input : ClaimInput) (rows : List IdempotencyRecord)
    → IsFresh env attempt rows
    → ((row : IdempotencyRecord) → In row rows → has_key input row ≡ false)
    → any (record_clash (new_record env attempt input)) rows ≡ false
no_clash env attempt input [] fresh free = refl
no_clash env attempt input (x ∷ xs) fresh free =
    let rest =
      no_clash env attempt input xs (λ row m. fresh row (inr m)) (λ row m. free row (inr m)) in
    let apart = apart_clash env attempt input x (fresh x (inl refl)) (free x (inl refl)) in
    ground arith

-- A claim ends with a new record, or with the answer of a live record of its key.
abbrev pub Settled :
    (db : Client) {Body : Type 0} (json : Json Body) (env : Env) (input : ClaimInput) (s : Store)
    → Result (Claim Body) × Store
    → Type 0
Settled db json env input s r =
    ((id : Text) × (s' : Store) × (r ≡ (ok (Claim.claimed id), s')))
    ⊎ ((existing : IdempotencyRecord) × In existing s.idempotency_records
        × (has_key input existing ≡ true)
        × (env.now < existing.expires_at)
        × (r ≡ (answer db json input existing, s)))

module _ (db : Client) (laws : IsClient db) {Body : Type 0} (json : Json Body) where
  claim-free :
      (fuel attempt : ℕ) (env : Env) (input : ClaimInput) (s : Store)
      → IsFresh env attempt s.idempotency_records
      → ((row : IdempotencyRecord) → In row s.idempotency_records → has_key input row ≡ false)
      → (id : Text) × (s' : Store) × (claim db json (suc fuel) attempt env input s
          ≡ (ok (Claim.claimed id), s'))
  unfolding claim new_record
  claim-free fuel attempt env input s fresh free = (
    env.drawn attempt,
    record s { idempotency_records = s.idempotency_records ++ new_record env attempt input ∷ [] },
    rw (laws.create_lem record_clash (new_record env attempt input) s.idempotency_records, claim)
        (rw (no_clash env attempt input s.idempotency_records fresh free) refl),
  )

  -- If the ids drawn are fresh and the key is unique in the table, two attempts are enough for
  -- `claim`: it is granted, or it gives the answer of a live record of its key and leaves the
  -- store as it is.
  pub claim-Settled :
      (fuel : ℕ) (env : Env) (input : ClaimInput) (s : Store)
      → IsFresh env 0 s.idempotency_records
      → IsFresh env 1 s.idempotency_records
      → HasUniqueKey input s.idempotency_records
      → Settled db json env input s (claim db json (suc (suc fuel)) 0 env input s)
  unfolding claim
  claim-Settled fuel env input s fresh fresh' unique =
      let records = s.idempotency_records in
      elim (Option-cases (db.find_first (has_key input) records)) [
        | inl missing ↦ inl (
            claim-free (suc fuel) 0 env input s fresh (λ row m.
              all-In (λ y. has_key input y ≡ false) records row
                (laws.find_first_none (has_key input) records missing) m))
        | inr (existing, found) ↦
            let (m, k) = laws.find_first_some (has_key input) records existing found in
            let new = new_record env 0 input in
            let clash =
              any-true (record_clash new) records existing m
                (new_record-has_key env env 0 input existing k) in
            elim (Bool-cases (leb existing.expires_at env.now)) [
              | inl old ↦
                  let expired : IdempotencyRecord → Bool =
                    λ row. row.id == existing.id && leb row.expires_at env.now in
                  let left = db.delete_many expired records in
                  let kept = λ (row : IdempotencyRecord) (n : In row left).
                    keep-In (λ y. if expired y then false else true) records row
                      (subst (In row) (laws.delete_many_lem expired records) n) in
                  let s2 : Store = record s { idempotency_records = left } in
                  let (id, s', granted) =
                    claim-free fuel 1 env input s2 (λ row n. fresh' row (kept row n).0)
                      (λ row n.
                        let (p, q) = kept row n in
                        elim (Bool-cases (has_key input row)) [
                          | inl h ↦
                              let same = unique row existing p m h k in
                              let gone : expired row ≡ true =
                                subst (λ y. expired y ≡ true) (sym same)
                                  (rw (text_eq_refl existing.id) old) in
                              absurd (cc (q, ap (λ b. if b then false else true) gone))
                          | inr h ↦ h
                        ]) in
                  inl (
                    id,
                    s',
                    rw (laws.create_lem record_clash new records, claim)
                        (rw clash (rw found (rw old granted))),
                  )
              | inr live ↦ inr (
                existing,
                m,
                k,
                ground arith,
                rw (laws.create_lem record_clash new records, claim)
                    (rw clash (rw found (rw live refl))),
              )
            ]
      ]
