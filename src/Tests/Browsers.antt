-- ===== src/Tests/Browsers.antt =====
-- Logins by password and by SSO, and the cookies of a browser.
use expenseflow.Common.{
  ◌≡◌, ◌++◌, refl, Text, text, [], ◌∷◌, List, none, some, true, ok, eqb, if◌then◌else◌, arith,
}
use expenseflow.Schema.{Store}
use expenseflow.Database.{memory, memory-IsClient}
use expenseflow.Sessions.{Credentials}
use expenseflow.AuthController.{AuthSettings, Script, get_cookie, post_login, complete_sso}
use expenseflow.AuthController.Headers.{
  Pair, IsScript, is_name, cookie_header, first_value, get_cookie-cookie_header,
}
use expenseflow.AuthController.Opening.{LoggedIn, post_login-LoggedIn}
use expenseflow.AuthController.Callbacks.{Linked, complete_sso-IsLinked}
use expenseflow.Tests.{store, employee_row, env_at, org}
use expenseflow.Tests.Sso.{
  node, oidc, provider, request, address, lift_up, lift_down, lifted-back, lifted-free,
}

abbrev without_space : Text → Text
without_space [] = []
without_space (c ∷ t) = if eqb c 32 then t else c ∷ t

abbrev script : Script
script = record { trim = without_space; decode_uri_component = λ t. some (lift_down t) }

script-IsScript : IsScript script lift_up
script-IsScript = record {
  encoded_plain = λ value. lifted-free b';' value (omega arith);
  decoded = λ value. rw (lifted-back value) refl;
  trim_empty = refl;
  trim_first = trim_first;
  trim_next = λ name value h. refl;
}
  where
    trim_first :
        (name value : Text)
        → is_name name ≡ true
        → without_space (name ++ b'=' ∷ lift_up value) ≡ name ++ b'=' ∷ lift_up value
    trim_first [] value h = absurd (cc (h))
    trim_first (c ∷ name) value h = ground arith

abbrev browser : List Pair
browser =
    (text "theme", 100 ∷ [])
    ∷ (text "expenseflow_refresh", 70 ∷ 1 ∷ [])
    ∷ (text "expenseflow_oidc_flow", 2 ∷ [])
    ∷ []

get_cookie-cookie_header_example :
    get_cookie script (some (cookie_header lift_up browser)) (text "expenseflow_refresh")
    ≡ ok (first_value (text "expenseflow_refresh") browser)
unfolding text
get_cookie-cookie_header_example =
    get_cookie-cookie_header script lift_up script-IsScript (text "expenseflow_refresh") browser
      refl (refl, (refl, (refl, tt)))

abbrev credentials : Credentials
credentials = record {
  compare_password = λ given stored. true;
  hash_token = λ t. t;
  sign = λ sub email organization_id role. sub;
  lower = λ t. t;
}

abbrev settings : AuthSettings
settings = record {
  node_env = some (text "production");
  web_origin = some (text "https://expenses.example/");
  organization_slug = some (5 ∷ []);
  ttl_days = none;
}

abbrev sso_store : Store
sso_store = record store {
  organizations = record { id = org; name = []; slug = 5 ∷ [] } ∷ [];
  users = record employee_row { email = address } ∷ [];
}

post_login-LoggedIn_example :
    LoggedIn credentials settings
      (env_at 500 70)
      (10 ∷ [])
      (10 ∷ [])
      store
      (post_login memory credentials script settings (env_at 500 70) (10 ∷ []) (10 ∷ []) store)
post_login-LoggedIn_example =
    post_login-LoggedIn memory memory-IsClient credentials settings script (env_at 500 70) (10 ∷ [])
      (10 ∷ []) store

complete_sso-IsLinked_example :
    Linked credentials settings script node oidc provider 5000
      (env_at 6000 80)
      (some (1 ∷ []))
      (some (70 ∷ 0 ∷ []))
      (some (cookie_header lift_up ((text "expenseflow_oidc_flow", request.flow_cookie) ∷ [])))
      sso_store
      (complete_sso memory credentials script settings node oidc provider 5000
        (env_at 6000 80)
        (some (1 ∷ []))
        (some (70 ∷ 0 ∷ []))
        (some (cookie_header lift_up ((text "expenseflow_oidc_flow", request.flow_cookie) ∷ [])))
        sso_store)
complete_sso-IsLinked_example =
    complete_sso-IsLinked memory memory-IsClient credentials settings script node oidc provider 5000
      (env_at 6000 80) (some (1 ∷ [])) (some (70 ∷ 0 ∷ []))
      (some (cookie_header lift_up ((text "expenseflow_oidc_flow", request.flow_cookie) ∷ [])))
      sso_store
