-- ===== src/Sessions/Spending.antt =====
-- `refresh`, `logout` and `logoutAll` of auth.service.ts, one after the other.
use expenseflow.Common.{
  ℕ, ◌≡◌, refl, sym, ap, ◌∙◌, subst, ◌<◌, number_eq, Text, text_is_eq, text_eq_iff, text_eq_refl,
  List, [], ◌∷◌, ◌++◌, Option, none, some, Bool, true, false, not, ◌==◌, ◌&&◌, inl, inr, err,
  unauthorized, In, Bool-cases, arith, any, any-false, map_where, map_where-In, In-map_where,
  In-append, if◌then◌else◌,
}
use expenseflow.Schema.{User, Session, Store}
use expenseflow.Database.{Client, IsClient, Env, Runs}
use expenseflow.Sessions.{
  Credentials, Tokens, session_clash, is_absent, is_open, is_usable, rotated, revoked, new_session,
  issue_tokens, to_public_user, refresh, logout, logout_all,
}
use expenseflow.Sessions.Rotation.{UniqueTokens, IsSpent, rotate-Runs, refresh-Runs, refresh-spent}

-- A change of rows that leaves the tokens alone and closes the rows that it selects.
record IsClosing (selects : Session → Bool) (change : Session → Session) : Type 0 where
  same_token : (a : Session) → (if selects a then change a else a).token_hash ≡ a.token_hash
  closes :
      (a : Session) → is_open (if selects a then change a else a) ≡ (is_open a && not (selects a))

rotated-IsClosing :
    (id : Text) (now : ℕ) → IsClosing (λ row. row.id == id && is_open row) (rotated now)
unfolding rotated
rotated-IsClosing id now = record { same_token = λ a. ground arith; closes = λ a. ground arith }

revoked-IsClosing :
    (p : Session → Bool) (now : ℕ) → IsClosing (λ row. p row && is_open row) (revoked now)
unfolding revoked
revoked-IsClosing p now = record { same_token = λ a. ground arith; closes = λ a. ground arith }

module _ (credentials : Credentials) (token : Text) (selects : Session → Bool)
    (change : Session → Session) (closing : IsClosing selects change) (rows : List Session) where
  closed-IsSpent :
      ((a : Session)
        → In a rows
        → a.token_hash ≡ credentials.hash_token token
        → is_open a ≡ true
        → selects a ≡ true)
      → IsSpent credentials token (map_where selects change rows)
  closed-IsSpent chosen row m h =
      let (a, n, e) = In-map_where selects change rows row m in
      let same = closing.same_token a in
      let closes = closing.closes a in
      let mine = chosen a n (sym same ∙ (ap (λ y. y.token_hash) (sym e) ∙ h)) in
      let all_closed : is_open (if selects a then change a else a) ≡ false =
        closes
        ∙ elim (Bool-cases (is_open a)) [ inl o ↦ rw o (rw (mine o) refl) | inr o ↦ rw o refl ] in
      ap is_open e ∙ all_closed

  closed-UniqueTokens : UniqueTokens rows → UniqueTokens (map_where selects change rows)
  closed-UniqueTokens unique a b m n h =
      let (c, p, e) = In-map_where selects change rows a m in
      let (d, q, f) = In-map_where selects change rows b n in
      let same = unique c d p q (
        sym (closing.same_token c)
        ∙ (ap (λ y. y.token_hash) (sym e)
            ∙ (h ∙ (ap (λ y. y.token_hash) f ∙ closing.same_token d)))) in
      e ∙ (ap (λ y. if selects y then change y else y) same ∙ sym f)

session_clash-token : (a b : Session) → session_clash a b ≡ false → a.token_hash ≡ b.token_hash → ⊥
unfolding session_clash
session_clash-token a b h e = ground (arith, text_eq_iff a.token_hash b.token_hash)

added-UniqueTokens :
    (rows : List Session) (new : Session)
    → UniqueTokens rows
    → any (session_clash new) rows ≡ false
    → UniqueTokens (rows ++ new ∷ [])
added-UniqueTokens rows new unique free a b m n e = elim ((In-append a rows (new ∷ [])).0 m) [
  | inl p ↦ elim ((In-append b rows (new ∷ [])).0 n) [
    | inl q ↦ unique a b p q e
    | inr (inl q) ↦ absurd (
        session_clash-token new a (any-false (session_clash new) rows a free p)
          (ap (λ y. y.token_hash) (sym q) ∙ sym e))
    | inr (inr q) ↦ absurd q
  ]
  | inr (inl p) ↦ elim ((In-append b rows (new ∷ [])).0 n) [
    | inl q ↦ absurd (
        session_clash-token new b (any-false (session_clash new) rows b free q)
          (ap (λ y. y.token_hash) (sym p) ∙ e))
    | inr (inl q) ↦ p ∙ sym q
    | inr (inr q) ↦ absurd q
  ]
  | inr (inr p) ↦ absurd p
]

absent_none : (revoked_at : Option ℕ) → is_absent revoked_at ≡ true → revoked_at ≡ none
absent_none none h = refl
absent_none (some t) h = absurd (cc (h))

-- What a refresh leaves behind: the session of the token could be used and belonged to a user of
-- the table, whom the tokens returned name; the token used is spent, tokens are still unique, and
-- the session of the new token belongs to that user and can be used until it runs out.
pub record IsRotated (credentials : Credentials) (token : Text) (tokens : Tokens) (s s' : Store)
    (env : Env) : Type 0 where
  pub current : Session
  pub had_session : In current s.sessions
  pub of_token : current.token_hash ≡ credentials.hash_token token
  pub was_open : current.revoked_at ≡ none
  pub was_fresh : env.now < current.expires_at
  pub user : User
  pub known : In user s.users
  pub owner : user.id ≡ current.user_id
  pub named : tokens.user.id ≡ user.id
  pub signed :
      tokens.access_token ≡ credentials.sign user.id user.email user.organization_id user.role
  pub spent : IsSpent credentials token s'.sessions
  pub unique : UniqueTokens s'.sessions
  pub succeeded :
      (new : Session) × In new s'.sessions
      × (new.token_hash ≡ credentials.hash_token tokens.refresh_token)
      × (new.user_id ≡ current.user_id)
      × ((now : ℕ) → now < tokens.refresh_expires_at → is_usable now new ≡ true)

module _ (db : Client) (laws : IsClient db) (credentials : Credentials) where
  -- If refresh tokens are unique, a refresh ends well only for the token of a stored session
  -- that is neither revoked nor expired; it closes every session of that token, keeps tokens
  -- unique, and adds a session for the new token that belongs to the same user as the old one
  -- and is usable until the expiry that is returned. The user returned and the access token are
  -- that user's, who stands in the table.
  pub refresh-IsRotated :
      (ttl_days : Option ℕ) (env : Env) (token : Text) (s s' : Store) (tokens : Tokens)
      → UniqueTokens s.sessions
      → Runs (refresh db credentials ttl_days env token) s tokens s'
      → IsRotated credentials token tokens s s' env
  unfolding is_usable new_session issue_tokens to_public_user
  refresh-IsRotated ttl_days env token s s' tokens unique e =
      let (current, user, m, n, t, usable, owner, given, ran) =
        refresh-Runs db laws credentials ttl_days env token s s' tokens e in
      let (free, left) = rotate-Runs db laws credentials ttl_days env current s s' tt ran in
      let selects : Session → Bool = λ row. row.id == current.id && is_open row in
      let new = new_session credentials ttl_days env current.user_id in
      let moved = map_where selects (rotated env.now) s.sessions in
      let closing = rotated-IsClosing current.id env.now in
      let was_open : is_open current ≡ true = ground arith in
      let selected : selects current ≡ true = ground (arith, text_eq_refl current.id) in
      let here = map_where-In selects (rotated env.now) s.sessions current m in
      let spent =
        closed-IsSpent credentials token selects (rotated env.now) closing s.sessions
          (λ a n h o. subst (λ y. selects y ≡ true) (unique current a m n (t ∙ sym h)) selected) in
      let sessions_are : s'.sessions ≡ moved ++ new ∷ [] = ap (λ y. y.sessions) left in
      record {
        current = current;
        had_session = m;
        of_token = t;
        was_open = absent_none current.revoked_at was_open;
        was_fresh = ground arith;
        user = user;
        known = n;
        owner = owner;
        named = rw given refl;
        signed = rw given refl;
        spent = subst (IsSpent credentials token) (sym sessions_are) (λ row n h.
            elim ((In-append row moved (new ∷ [])).0 n) [
              | inl p ↦ spent row p h
              | inr (inl p) ↦ absurd (
                  session_clash-token new _ (any-false (session_clash new) moved _ free here) (
                    ap (λ y. y.token_hash) (sym p)
                    ∙ (h ∙ (sym t ∙ sym (closing.same_token current)))))
              | inr (inr p) ↦ absurd p
            ]);
        unique = subst UniqueTokens (sym sessions_are) (
            added-UniqueTokens moved new
              (closed-UniqueTokens credentials token selects (rotated env.now) closing s.sessions
                unique)
              free);
        succeeded = (
          new,
          subst (In new) (sym sessions_are) ((In-append new moved (new ∷ [])).1 (inr (inl refl))),
          rw given refl,
          refl,
          λ now live. ground arith,
        );
      }

  -- If refresh tokens are unique in the table Session, then on the store that a refresh which
  -- ended well leaves, a refresh with the same token is refused as no longer valid and changes
  -- nothing, at whatever time.
  pub refresh-once :
      (ttl_days ttl_days' : Option ℕ) (env env' : Env) (token : Text) (s s' : Store)
      (tokens : Tokens)
      → UniqueTokens s.sessions
      → Runs (refresh db credentials ttl_days env token) s tokens s'
      → refresh db credentials ttl_days' env' token s'
        ≡ (err (unauthorized "Session is no longer valid"), s')
  refresh-once ttl_days ttl_days' env env' token s s' tokens unique e =
      refresh-spent db laws credentials ttl_days' env' token s'
        (refresh-IsRotated ttl_days env token s s' tokens unique e).spent

  -- On the store that a logout with a token that is not empty leaves, a refresh with that token
  -- is refused as no longer valid and changes nothing.
  logout-spent :
      (ttl_days : Option ℕ) (env env' : Env) (c : ℕ) (token : Text) (s : Store)
      → let s' = (logout db credentials env (some (c ∷ token)) s).1 in
        refresh db credentials ttl_days env' (c ∷ token) s'
        ≡ (err (unauthorized "Session is no longer valid"), s')
  unfolding logout
  logout-spent ttl_days env env' c token s =
      let mine : Session → Bool = λ row. row.token_hash == credentials.hash_token (c ∷ token) in
      refresh-spent db laws credentials ttl_days env' (c ∷ token) _ (
        rw (laws.update_many_lem (λ row. mine row && is_open row) (revoked env.now) s.sessions) (
          closed-IsSpent credentials (c ∷ token) (λ row. mine row && is_open row) (revoked env.now)
            (revoked-IsClosing mine env.now) s.sessions
            (λ a n h o.
              ground (arith, text_eq_iff a.token_hash (credentials.hash_token (c ∷ token))))))

  -- On the store that `logoutAll` of a user leaves, a refresh with a token whose sessions are
  -- all that user's is refused as no longer valid and changes nothing.
  pub logout_all-spent :
      (ttl_days : Option ℕ) (env env' : Env) (user_id token : Text) (s : Store)
      → ((a : Session)
          → In a s.sessions
          → a.token_hash ≡ credentials.hash_token token
          → a.user_id ≡ user_id)
      → let s' = (logout_all db credentials env user_id s).1 in
        refresh db credentials ttl_days env' token s'
        ≡ (err (unauthorized "Session is no longer valid"), s')
  unfolding logout_all
  logout_all-spent ttl_days env env' user_id token s owned =
      let mine : Session → Bool = λ row. row.user_id == user_id in
      refresh-spent db laws credentials ttl_days env' token _ (
        rw (laws.update_many_lem (λ row. mine row && is_open row) (revoked env.now) s.sessions) (
          closed-IsSpent credentials token (λ row. mine row && is_open row) (revoked env.now)
            (revoked-IsClosing mine env.now) s.sessions
            (λ a n h o. ground (arith, text_eq_iff a.user_id user_id, owned a n h))))
