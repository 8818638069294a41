-- ===== src/AuthController/Cookies.antt =====
-- The cookies of auth.controller.ts. `trim` and `decodeURIComponent` are JavaScript's.
use expenseflow.Common.{
  ℕ, ◌+◌, ◌*◌, Text, text, text_is_eq, [], ◌∷◌, ◌++◌, map, find, Option, none, some, Bool, true,
  false, ◌==◌, length, starts_with, slice_from, split_on, ok, err, Result, Error, internal,
  unauthorized, is_empty, ◌>>=◌, ok_or, if◌then◌else◌,
}

pub record Script : Type 0 where
  pub trim : Text → Text
  pub decode_uri_component : Text → Option Text

-- The options of `response.cookie` and `response.clearCookie`; times are in milliseconds.
pub record CookieOptions : Type 0 where
  pub http_only : Bool
  pub secure : Bool
  pub same_site : Text
  pub expires : Option ℕ
  pub max_age : Option ℕ
  pub path : Text

pub data CookieChange : Type 0 where
  set_cookie : (name value : Text) → CookieOptions → CookieChange
  clear_cookie : (name : Text) → CookieOptions → CookieChange

abbrev pub refresh_cookie_name : Text
refresh_cookie_name = text "expenseflow_refresh"

abbrev pub oidc_flow_cookie_name : Text
oidc_flow_cookie_name = text "expenseflow_oidc_flow"

abbrev pub header_or_empty : Option Text → Text
header_or_empty none = []
header_or_empty (some header) = header

abbrev pub decoded_value : Script → Text → Option Text → Result (Option Text)
decoded_value script name none = ok none
decoded_value script name (some cookie) =
    ok_or (script.decode_uri_component (slice_from (length name + 1) cookie))
      (internal "URI malformed")
    >>= λ value. ok (some value)

-- `getCookie`, of the header `Cookie` of the request.
unfoldable pub get_cookie : Script → Option Text → Text → Result (Option Text)
get_cookie script header name = decoded_value script name (
    find (λ value. starts_with value (name ++ b'=' ∷ []))
      (map script.trim (split_on b';' (header_or_empty header))))

abbrev pub filled_or : Option Text → Error → Result Text
filled_or none e = err e
filled_or (some t) e = if is_empty t then err e else ok t

-- `getRefreshToken`, where a token is required and where it is not.
unfoldable pub get_refresh_token : Script → Option Text → Result Text
get_refresh_token script header = get_cookie script header refresh_cookie_name >>= λ token.
    filled_or token (unauthorized "Refresh token cookie is missing")

abbrev pub find_refresh_token : Script → Option Text → Result (Option Text)
find_refresh_token script header = get_cookie script header refresh_cookie_name

abbrev pub is_production : Option Text → Bool
is_production none = false
is_production (some node_env) = node_env == text "production"

module _ (node_env : Option Text) where
  unfoldable pub set_refresh_cookie : (token : Text) → (expires : ℕ) → CookieChange
  set_refresh_cookie token expires = CookieChange.set_cookie refresh_cookie_name token (record {
    http_only = true;
    secure = is_production node_env;
    same_site = text "lax";
    expires = some expires;
    max_age = none;
    path = text "/api/auth";
  })

  unfoldable pub clear_refresh_cookie : CookieChange
  clear_refresh_cookie = CookieChange.clear_cookie refresh_cookie_name (record {
    http_only = true;
    secure = is_production node_env;
    same_site = text "lax";
    expires = none;
    max_age = none;
    path = text "/api/auth";
  })

  unfoldable pub set_flow_cookie : Text → CookieChange
  set_flow_cookie flow = CookieChange.set_cookie oidc_flow_cookie_name flow (record {
    http_only = true;
    secure = is_production node_env;
    same_site = text "lax";
    expires = none;
    max_age = some (10 * 60 * 1000);
    path = text "/api/auth/sso";
  })

  unfoldable pub clear_flow_cookie : CookieChange
  clear_flow_cookie = CookieChange.clear_cookie oidc_flow_cookie_name (record {
    http_only = true;
    secure = is_production node_env;
    same_site = text "lax";
    expires = none;
    max_age = none;
    path = text "/api/auth/sso";
  })
