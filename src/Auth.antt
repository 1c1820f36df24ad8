-- ===== src/Auth.antt =====
-- The session of this device with the server (src/services/AuthService.ts, lines 1-108).
pub mod Accepted
use nonetchat_web.Prelude.{
  ℕ, ◌+◌, String, Option, none, some, Bool, true, false, ltb, nat_eq, if◌then◌else◌, truthy,
}
use Prim.Native.String.{◌++◌ as ◌⧺◌}
use nonetchat_web.Server.Sessions.{Reply, refused, issued, saved}

-- `device_secret` is drawn and stored at the first start.
pub record Auth : Type 0 where
  pub device_secret : String
  pub session_token : Option String
  pub session_expires_at : Option ℕ

abbrev pub safety_margin_ms : ℕ
safety_margin_ms = 30000

abbrev in_time : ℕ → Option ℕ → Bool
in_time now none = false
in_time now (some t) = if nat_eq t 0 then false else ltb (now + safety_margin_ms) t

abbrev valid_with : ℕ → Option String → Option ℕ → Bool
valid_with now none expires = false
valid_with now (some token) expires = in_time now expires

-- The session counts as over a little before its time.
unfoldable pub is_session_valid : ℕ → Auth → Bool
is_session_valid now a = valid_with now (truthy a.session_token) a.session_expires_at

-- `digest` is the SHA-256 of the browser, written by `toBase64Url`.
unfoldable pub compute_auth_key : (digest : String → String) → String → Auth → String
compute_auth_key digest device_id a = digest (device_id ⧺ (":" ⧺ a.device_secret))

module _ {X : Type 0} where
  abbrev keep : Auth → X → String → Option ℕ → Option String → Option String × (Auth × X)
  keep a x token expires none = (none, (a, x))
  keep a x token expires (some t) =
      (some t, (record a { session_token = some t; session_expires_at = expires }, x))

  -- An answer that is no success or has no token makes the call throw.
  abbrev answered : Auth → Reply × X → Option String × (Auth × X)
  answered a (issued token expires, x) = keep a x token (some expires) (truthy (some token))
  answered a (reply, x) = (none, (a, x))

  -- `ask` is the request to the server, whose state is an `X`.
  unfoldable pub request_new_session :
      (digest : String → String)
      → (String → String → X → Reply × X)
      → String
      → Auth
      → X
      → Option String × (Auth × X)
  unfolding compute_auth_key
  request_new_session digest ask device_id a x =
      answered a (ask device_id (compute_auth_key digest device_id a) x)

  -- `none` where it throws.
  unfoldable pub ensure_session :
      (digest : String → String)
      → (String → String → X → Reply × X)
      → ℕ
      → String
      → Auth
      → X
      → Option String × (Auth × X)
  unfolding is_session_valid request_new_session
  ensure_session digest ask now device_id a x =
      if is_session_valid now a
      then (a.session_token, (a, x))
      else request_new_session digest ask device_id a x
