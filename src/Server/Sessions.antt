-- ===== src/Server/Sessions.antt =====
-- Devices and their sessions (src/server/server.js, lines 111-176 and 373-403).
pub mod Issued
use nonetchat_web.Prelude.{
  ℕ, ◌+◌, ◌*◌, String, Option, none, some, Bool, true, false, ◌&&◌, ◌||◌, not, ◌==◌, leb, ltb,
  nat_eq, if◌then◌else◌, truthy, is_some,
}
use Prim.Native.String.{count}
use nonetchat_web.Prelude.Dict
use nonetchat_web.Server.State.{Server, Session, World}

abbrev pub both_equal : Option String → Option String → Bool
both_equal (some a) (some b) = a == b
both_equal a b = false

-- No text equals the empty one or a missing one.
unfoldable pub safe_equals : Option String → Option String → Bool
safe_equals a b = both_equal (truthy a) (truthy b)

unfoldable pub get_stored_auth_hash : String → Server → Option String
get_stored_auth_hash device_id s = truthy (Dict.get device_id s.device_auth)

unfoldable pub store_auth_hash : String → String → Server → Server
store_auth_hash device_id h s = record s { device_auth = Dict.set device_id h s.device_auth }

-- The token is drawn by the caller: 32 random bytes in base 64.
unfoldable pub create_session : World → String → ℕ → String → Server → Server
create_session w token now device_id s = record s {
  sessions =
      Dict.set token (record { device_id = device_id; expires_at = now + w.session_ttl * 1000 })
        s.sessions;
}

abbrev pub is_expired : ℕ → Session → Bool
is_expired now r = not (nat_eq r.expires_at 0) && leb r.expires_at now

abbrev pub session_found : String → ℕ → Server → Option Session → Option Session × Server
session_found token now s none = (none, s)
session_found token now s (some r) =
    if is_expired now r
    then (none, record s { sessions = Dict.delete token s.sessions })
    else (some r, s)

-- An expired session is deleted when it is asked for.
unfoldable pub get_session_info : String → ℕ → Server → Option Session × Server
get_session_info token now s =
    if is_some (truthy (some token))
    then session_found token now s (Dict.get token s.sessions)
    else (none, s)

abbrev pub refresh_found : World → String → ℕ → Server → Option Session → Server
refresh_found w token now s none = s
refresh_found w token now s (some r) = record s {
  sessions = Dict.set token (record r { expires_at = now + w.session_ttl * 1000 }) s.sessions;
}

unfoldable pub refresh_session : World → String → ℕ → Server → Server
refresh_session w token now s =
    if is_some (truthy (some token))
    then refresh_found w token now s (Dict.get token s.sessions)
    else s

-- What an HTTP handler answers.
pub data Reply : Type 0 where
  refused : (status : ℕ) → (error : String) → Reply
  issued : (session_token : String) → (expires_at : ℕ) → Reply
  saved : Reply

abbrev pub issue : World → ℕ → String → String → Server → Reply × Server
issue w now token id s =
    (issued token (now + w.session_ttl * 1000), create_session w token now id s)

-- A device is known from its first key on, which every later one has to equal.
abbrev pub check_key :
    World → ℕ → String → String → String → Server → Option String → Reply × Server
check_key w now token id h s none = issue w now token id (store_auth_hash id h s)
check_key w now token id h s (some stored) =
    if safe_equals (some stored) (some h)
    then issue w now token id s
    else (refused 401 "Authentication failed", s)

abbrev pub is_device_id : World → Option String → Bool
is_device_id w none = false
is_device_id w (some id) = not (ltb (count (w.trim id)) 6)

abbrev pub is_auth_key : Option String → Bool
is_auth_key none = false
is_auth_key (some k) = not (ltb (count k) 16)

abbrev pub text_or_empty : Option String → String
text_or_empty none = ""
text_or_empty (some t) = t

-- POST /api/auth/session. `none` stands for a field that is not a text.
unfoldable pub auth_session :
    World → ℕ → String → Option String → Option String → Server → Reply × Server
unfolding safe_equals store_auth_hash create_session
auth_session w now token device_id auth_key s =
    let id = w.trim (text_or_empty device_id) in
    if not (is_device_id w device_id)
    then (refused 400 "Invalid deviceId", s)
    else (if not (is_auth_key auth_key)
        then (refused 400 "Invalid authKey", s)
        else check_key w now token id (w.sha256 (text_or_empty auth_key)) s
            (get_stored_auth_hash id s))
