-- ===== src/Sessions/Rotation.antt =====
-- `refresh` of auth.service.ts, step by step.
use expenseflow.Common.{
  ℕ, ◌≡◌, refl, sym, ap, subst, number_eq, Text, text_is_eq, text_eq_iff, List, [], ◌∷◌, ◌++◌,
  Option, Bool, true, false, not, ◌==◌, ◌&&◌, inl, inr, err, unauthorized, internal, In, Bool-cases,
  Option-cases, arith, any, map_where, count,
}
use expenseflow.Schema.{User, Session, Store}
use expenseflow.Database.{
  Client, IsClient, Env, throw_if, Runs, after-or_throw, after-throw_if, after-pure, after-ok,
  throw_if-ok, commit-ok,
}
use expenseflow.Sessions.{
  Credentials, Tokens, session_clash, is_open, is_usable, rotated, new_session, issue_tokens,
  create_session, rotate, refresh,
}

-- The unique column `tokenHash`.
abbrev pub UniqueTokens : List Session → Type 0
UniqueTokens rows = (a b : Session) → In a rows → In b rows → a.token_hash ≡ b.token_hash → a ≡ b

-- No session of a token can be refreshed any more.
abbrev pub IsSpent : Credentials → Text → List Session → Type 0
IsSpent credentials token rows =
    (row : Session)
    → In row rows
    → row.token_hash ≡ credentials.hash_token token
    → is_open row ≡ false

module _ (db : Client) (laws : IsClient db) (credentials : Credentials) where
  -- A refresh with a spent token is refused and changes nothing.
  pub refresh-spent :
      (ttl_days : Option ℕ) (env : Env) (token : Text) (s : Store)
      → IsSpent credentials token s.sessions
      → refresh db credentials ttl_days env token s
        ≡ (err (unauthorized "Session is no longer valid"), s)
  unfolding refresh is_usable
  refresh-spent ttl_days env token s spent =
      elim (Option-cases (
        db.find_first (λ (row : Session). row.token_hash == credentials.hash_token token)
          s.sessions)) [
            | inl missing ↦ rw missing refl
            | inr (row, found) ↦
                let (m, t) = laws.find_first_some _ s.sessions row found in
                let closed = spent row m ((text_eq_iff row.token_hash _).0 t) in
                rw found (rw closed refl)
          ]

  pub create_session-Runs :
      (ttl_days : Option ℕ) (env : Env) (user_id : Text) (s s' : Store) (u : Unit {0})
      → Runs (create_session db credentials ttl_days env user_id) s u s'
      → (any (session_clash (new_session credentials ttl_days env user_id)) s.sessions ≡ false)
        × (s' ≡ record s {
          sessions = s.sessions ++ new_session credentials ttl_days env user_id ∷ [];
        })
  unfolding create_session
  create_session-Runs ttl_days env user_id s s' u e =
      let new = new_session credentials ttl_days env user_id in
      let e' = rw (laws.create_lem session_clash new s.sessions) at e in
      elim (Bool-cases (any (session_clash new) s.sessions)) [
        | inl clash ↦ absurd (cc (rw clash at e'))
        | inr free ↦ (free, sym (ap (λ r. r.1) (rw free at e')))
      ]

  pub rotate-Runs :
      (ttl_days : Option ℕ) (env : Env) (current : Session) (s s' : Store) (u : Unit {0})
      → Runs (rotate db credentials ttl_days env current) s u s'
      → let moved =
          map_where (λ row. row.id == current.id && is_open row) (rotated env.now) s.sessions in
        (any (session_clash (new_session credentials ttl_days env current.user_id)) moved ≡ false)
        × (s' ≡ record s {
          sessions = moved ++ new_session credentials ttl_days env current.user_id ∷ [];
        })
  unfolding rotate
  rotate-Runs ttl_days env current s s' u e =
      let whole = rw laws.update_many_lem at (commit-ok _ s s' u e) in
      let selects : Session → Bool = λ row. row.id == current.id && is_open row in
      let moved : Store = record s { sessions = map_where selects (rotated env.now) s.sessions } in
      let stale = unauthorized "Session has already been rotated" in
      let (v, s1, r1, e1) =
        after-ok (throw_if (not (count selects s.sessions == 1)) stale moved)
          (λ v. create_session db credentials ttl_days env current.user_id) s' u whole in
      let (one, same) = throw_if-ok (not (count selects s.sessions == 1)) stale moved s1 v r1 in
      create_session-Runs ttl_days env current.user_id moved s' u (
        subst (λ y. Runs (create_session db credentials ttl_days env current.user_id) y u s') same
          e1)

  -- What a refresh that ends well has read and written.
  pub refresh-Runs :
      (ttl_days : Option ℕ) (env : Env) (token : Text) (s s' : Store) (tokens : Tokens)
      → Runs (refresh db credentials ttl_days env token) s tokens s'
      → (current : Session) × (user : User) × In current s.sessions
        × In user s.users
        × (current.token_hash ≡ credentials.hash_token token)
        × (is_usable env.now current ≡ true)
        × (user.id ≡ current.user_id)
        × (tokens ≡ issue_tokens credentials ttl_days env user)
        × Runs (rotate db credentials ttl_days env current) s tt s'
  unfolding refresh
  refresh-Runs ttl_days env token s s' tokens e =
      let (current, p1, e1) =
        after-or_throw
          (db.find_first (λ (row : Session). row.token_hash == credentials.hash_token token)
            s.sessions)
          (unauthorized "Session is no longer valid") _ s s' tokens e in
      let (usable, e2) =
        after-throw_if (not (is_usable env.now current)) (unauthorized "Session is no longer valid")
          _ s s' tokens e1 in
      let (user, p3, e3) =
        after-or_throw (db.find_first (λ (row : User). row.id == current.user_id) s.users)
          (internal "inconsistent relation") _ s s' tokens e2 in
      let (u, r4, last) =
        after-pure (rotate db credentials ttl_days env current s)
          (issue_tokens credentials ttl_days env user) tokens s' e3 in
      let (m1, t1) = laws.find_first_some _ s.sessions current p1 in
      let (m3, t3) = laws.find_first_some _ s.users user p3 in
      (
        current,
        user,
        m1,
        m3,
        (text_eq_iff current.token_hash _).0 t1,
        ground arith,
        (text_eq_iff user.id _).0 t3,
        last,
        r4,
      )
