-- ===== src/Tests/Logins.antt =====
-- Refresh and logout.
use expenseflow.Common.{
  ◌≡◌, refl, Text, text_eq, [], ◌∷◌, none, err, unauthorized, In, inl, inr, ap, sym, ◌∙◌,
}
use expenseflow.Schema.{Session, Store}
use expenseflow.Database.{Runs}
use expenseflow.Database.{memory, memory-IsClient}
use expenseflow.Sessions.{
  Credentials, Tokens, refresh, rotate, create_session, logout_all, new_session, issue_tokens,
  to_public_user, refresh_expiry, session_clash, is_usable, rotated,
}
use expenseflow.Sessions.Rotation.{UniqueTokens}
use expenseflow.Sessions.Spending.{IsRotated, refresh-IsRotated, refresh-once, logout_all-spent}
use expenseflow.Tests.{store, employee_row, env_at}

-- A hash that keeps tokens apart.
abbrev credentials : Credentials
credentials = record {
  compare_password = text_eq;
  hash_token = λ t. t;
  sign = λ sub email organization_id role. sub;
  lower = λ t. t;
}

unique : UniqueTokens store.sessions
unique a b m n e = elim m [
  | inl p ↦ elim n [ inl q ↦ p ∙ sym q | inr q ↦ absurd q ]
  | inr p ↦ absurd p
]

abbrev token : Text
token = 31 ∷ []

abbrev refreshed : Store
refreshed = (refresh memory credentials none (env_at 500 70) token store).1

abbrev tokens : Tokens
tokens = record {
  access_token = 10 ∷ [];
  refresh_token = 70 ∷ 1 ∷ [];
  refresh_expires_at = 2592000500;
  user = to_public_user employee_row;
}

refreshes : Runs (refresh memory credentials none (env_at 500 70) token) store tokens refreshed
unfolding refresh rotate create_session new_session issue_tokens refresh_expiry session_clash
    is_usable rotated text_eq
refreshes = refl

refresh-IsRotated_example : IsRotated credentials token tokens store refreshed (env_at 500 70)
refresh-IsRotated_example =
    refresh-IsRotated memory memory-IsClient credentials none (env_at 500 70) token store refreshed
      tokens unique refreshes

refresh-once_example :
    refresh memory credentials none (env_at 501 71) token refreshed
    ≡ (err (unauthorized "Session is no longer valid"), refreshed)
refresh-once_example =
    refresh-once memory memory-IsClient credentials none none (env_at 500 70) (env_at 501 71) token
      store refreshed tokens unique refreshes

abbrev logged_out_everywhere : Store
logged_out_everywhere = (logout_all memory credentials (env_at 500 70) (10 ∷ []) store).1

owned :
    (a : Session)
    → In a store.sessions
    → a.token_hash ≡ credentials.hash_token token
    → a.user_id ≡ 10 ∷ []
owned a m e = elim m [ inl p ↦ ap (λ y. y.user_id) p | inr p ↦ absurd p ]

logout_all-spent_example :
    refresh memory credentials none (env_at 501 71) token logged_out_everywhere
    ≡ (err (unauthorized "Session is no longer valid"), logged_out_everywhere)
logout_all-spent_example =
    logout_all-spent memory memory-IsClient credentials none (env_at 500 70) (env_at 501 71)
      (10 ∷ []) token store owned
