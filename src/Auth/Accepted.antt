-- ===== src/Auth/Accepted.antt =====
-- The sessions of a device, at the device and at the server (src/services/AuthService.ts and
-- src/server/server.js, lines 138-165 and 373-403).
use nonetchat_web.Prelude.{
  ℕ, ◌+◌, ◌*◌, ◌<◌, String, ◌≡◌, refl, Option, none, some, true, false, arith, ◌∙◌, truthy, nat_eq,
  ltb, leb,
}
use nonetchat_web.Server.State.{Server, World}
use nonetchat_web.Server.Sessions.{
  Reply, auth_session, issue, create_session, get_session_info, store_auth_hash,
  get_stored_auth_hash, is_device_id, is_auth_key,
}
use nonetchat_web.Server.Sessions.Issued.{create_session-get_session_info, auth_session-first}
use nonetchat_web.Auth.{
  Auth, is_session_valid, compute_auth_key, ensure_session, request_new_session, safety_margin_ms,
}

-- The request as the server handles it.
abbrev pub ask_server : World → ℕ → String → String → String → Server → Reply × Server
ask_server w now token device_id key s = auth_session w now token (some device_id) (some key) s

module _ (w : World) (digest : String → String) (device_id : String) (a : Auth) (s : Server)
    (token : String) (now : ℕ) where
  abbrev key : String
  key = compute_auth_key digest device_id a

  abbrev ends : ℕ
  ends = now + w.session_ttl * 1000

  abbrev known : Server
  known = store_auth_hash (w.trim device_id) (w.sha256 key) s

  abbrev granted : Auth
  granted = record a { session_token = some token; session_expires_at = some ends }

  abbrev after : Server
  after = create_session w token now (w.trim device_id) known

  abbrev asks_first : Option String × (Auth × Server)
  asks_first = ensure_session digest (ask_server w now token) now device_id a s

  requested :
      is_session_valid now a ≡ false
      → truthy (some token) ≡ some token
      → auth_session w now token (some device_id) (some key) s
        ≡ issue w now token (w.trim device_id) known
      → asks_first ≡ (some token, (granted, after))
  unfolding ensure_session request_new_session
  requested over named grants = rw over (rw grants (rw named refl))

  still_valid :
      (later : ℕ)
      → truthy (some token) ≡ some token
      → later + safety_margin_ms < ends
      → is_session_valid later granted ≡ true
  unfolding is_session_valid
  still_valid later named early =
      let positive : nat_eq ends 0 ≡ false = ground (arith, early) in
      let left : ltb (later + safety_margin_ms) ends ≡ true = ground (arith, early) in
      rw named (rw positive (rw left refl))

  -- The session that a device asks for at its first contact with the server is used again without a
  -- request until half a minute before its end, and all that time the server finds it under its
  -- token, with the device. Both read one clock; the device has no session yet, the server knows no key of it and finds
  -- its id and its key acceptable, and the token is not empty.
  pub ensure_session-get_session_info :
      (later later' : ℕ) (other : String)
      → is_session_valid now a ≡ false
      → truthy (some token) ≡ some token
      → is_device_id w (some device_id) ≡ true
      → is_auth_key (some (compute_auth_key digest device_id a)) ≡ true
      → get_stored_auth_hash (w.trim device_id) s ≡ none
      → later + safety_margin_ms < now + w.session_ttl * 1000
      → let first = ensure_session digest (ask_server w now token) now device_id a s in
        let again =
          ensure_session digest (ask_server w later' other) later device_id first.1.0 first.1.1 in
        (first.0 ≡ some token)
        × (again.0 ≡ some token)
        × ((get_session_info token later again.1.1).0
            ≡ some
                (record { device_id = w.trim device_id; expires_at = now + w.session_ttl * 1000 }))
  unfolding ensure_session
  ensure_session-get_session_info later later' other over named is_id is_key unknown early =
      let grants = auth_session-first w device_id is_id key now token s is_key unknown in
      let late : leb ends later ≡ false = ground (arith, early) in
      let found =
        (create_session-get_session_info w token named (w.trim device_id) now later known
          (omega (arith, early))).0 in
      rw (requested over named grants)
        (rw (still_valid later named early) (refl, refl, found ∙ rw late refl))
