-- ===== src/Server/Sessions/Issued.antt =====
-- Sessions and the devices that they belong to (src/server/server.js, lines 115-176 and 373-403).
use nonetchat_web.Prelude.{
  ℕ, ◌+◌, ◌*◌, ◌<◌, String, ◌≡◌, refl, Option, none, some, true, false, ◌==◌, eq_iff, sym, List, [],
  ◌∷◌, arith, ap, ◌∙◌, if◌then◌else◌, truthy, Bool-cases, inl, inr, leb,
}
use nonetchat_web.Prelude.Dict
use nonetchat_web.Prelude.Dict.{get-set, get-set_same, get-delete_same}
use nonetchat_web.Server.State.{Server, Session, World}
use nonetchat_web.Server.Sessions.{
  create_session, get_session_info, session_found, is_expired, safe_equals, auth_session, check_key,
  issue, issued, refused, Reply, is_device_id, is_auth_key, text_or_empty, get_stored_auth_hash,
  store_auth_hash,
}

module _ (w : World) (token : String) (named : truthy (some token) ≡ some token) where
  abbrev fresh : String → ℕ → Session
  fresh device now = record { device_id = device; expires_at = now + w.session_ttl * 1000 }

  looked_up :
      (device : String) (t now : ℕ) (s : Server)
      → get_session_info token now (create_session w token t device s)
        ≡ session_found token now (create_session w token t device s) (some (fresh device t))
  unfolding get_session_info create_session
  looked_up device t now s = rw named (
      ap (session_found token now (create_session w token t device s))
        (get-set_same token (fresh device t) s.sessions))

  -- A session that was created is found under its token, with its device, until its time is over;
  -- from then on it is not found, and asking for it deletes it. The token is not empty.
  pub create_session-get_session_info :
      (device : String) (t now : ℕ) (s : Server)
      → 0 < t + w.session_ttl * 1000
      → let ends = t + w.session_ttl * 1000 in
        let found : Option Session =
          if leb ends now then none else some (record { device_id = device; expires_at = ends }) in
        let r = get_session_info token now (create_session w token t device s) in
        (r.0 ≡ found) × (Dict.get token r.1.sessions ≡ found)
  create_session-get_session_info device t now s positive =
      let s' = create_session w token t device s in
      elim (Bool-cases (leb (t + w.session_ttl * 1000) now)) [
        | inl late ↦
            let e : is_expired now (fresh device t) ≡ true = ground (arith, positive, late) in
            let gone : get_session_info token now s'
                ≡ (none, record s' { sessions = Dict.delete token s'.sessions }) =
              looked_up device t now s ∙ rw e refl in
            rw late (rw gone (refl, get-delete_same token s'.sessions))
        | inr early ↦
            let e : is_expired now (fresh device t) ≡ false = ground (arith, early) in
            let there : get_session_info token now s' ≡ (some (fresh device t), s') =
              looked_up device t now s ∙ rw e refl in
            rw early (
              rw there
                (refl, unfold create_session in get-set_same token (fresh device t) s.sessions))
      ]

-- A request for a session: its time, the token that is drawn for it, and its two fields.
pub record SessionRequest : Type 0 where
  pub now : ℕ
  pub token : String
  pub device_id : Option String
  pub key : Option String

abbrev pub ask_all : World → List SessionRequest → Server → Server
ask_all w [] s = s
ask_all w (r ∷ rs) s = ask_all w rs (auth_session w r.now r.token r.device_id r.key s).1

module _ (w : World) (k h : String) where
  stored-check_key :
      (now : ℕ) (token id hash : String) (s : Server) (o : Option String)
      → get_stored_auth_hash id s ≡ o
      → get_stored_auth_hash k s ≡ some h
      → get_stored_auth_hash k (check_key w now token id hash s o).1 ≡ some h
  unfolding get_stored_auth_hash create_session store_auth_hash
  stored-check_key now token id hash s none e there = elim (Bool-cases (id == k)) [
    | inl same ↦
        let found : truthy (Dict.get id s.device_auth) ≡ some h =
          ap (λ x. truthy (Dict.get x s.device_auth)) ((eq_iff id k).0 same) ∙ there in
        absurd (ground (arith, sym e ∙ found))
    | inr other ↦
        ap truthy {y = Dict.get k s.device_auth} (get-set k id hash s.device_auth ∙ rw other refl)
        ∙ there
  ]
  stored-check_key now token id hash s (some stored) e there =
      elim (Bool-cases (safe_equals (some stored) (some hash))) [
        | inl g ↦ rw g there
        | inr g ↦ rw g there
      ]

  stored-auth_session :
      (r : SessionRequest) (s : Server)
      → get_stored_auth_hash k s ≡ some h
      → get_stored_auth_hash k (auth_session w r.now r.token r.device_id r.key s).1 ≡ some h
  unfolding auth_session
  stored-auth_session r s there = elim (Bool-cases (is_device_id w r.device_id)) [
    | inr e ↦ rw e there
    | inl e ↦ rw e (elim (Bool-cases (is_auth_key r.key)) [
      | inr f ↦ rw f there
      | inl f ↦ rw f (
          stored-check_key r.now r.token (w.trim (text_or_empty r.device_id))
            (w.sha256 (text_or_empty r.key)) s
            (get_stored_auth_hash (w.trim (text_or_empty r.device_id)) s) refl there)
    ])
  ]

  stored-ask_all :
      (rs : List SessionRequest) (s : Server)
      → get_stored_auth_hash k s ≡ some h
      → get_stored_auth_hash k (ask_all w rs s) ≡ some h
  stored-ask_all [] s there = there
  stored-ask_all (r ∷ rs) s there =
      stored-ask_all rs (auth_session w r.now r.token r.device_id r.key s).1
        (stored-auth_session r s there)

module _ (w : World) (id : String) (is_id : is_device_id w (some id) ≡ true) where
  -- The request of a device of that id with an acceptable key.
  abbrev asks : String → ℕ → String → Server → Reply × Server
  asks key now token s = auth_session w now token (some id) (some key) s

  checked :
      (key : String) (now : ℕ) (token : String) (s : Server)
      → is_auth_key (some key) ≡ true
      → asks key now token s
        ≡ check_key w now token (w.trim id) (w.sha256 key) s (get_stored_auth_hash (w.trim id) s)
  unfolding auth_session
  checked key now token s f = rw is_id (rw f refl)

  -- An acceptable key of a device of which none is known is granted and kept.
  pub auth_session-first :
      (key : String) (now : ℕ) (token : String) (s : Server)
      → is_auth_key (some key) ≡ true
      → get_stored_auth_hash (w.trim id) s ≡ none
      → auth_session w now token (some id) (some key) s
        ≡ issue w now token (w.trim id) (store_auth_hash (w.trim id) (w.sha256 key) s)
  auth_session-first key now token s ok unknown =
      checked key now token s ok ∙ ap (check_key w now token (w.trim id) (w.sha256 key) s) unknown

  equal_hashes :
      (a b : String)
      → truthy (some a) ≡ some a
      → truthy (some b) ≡ some b
      → safe_equals (some a) (some b) ≡ (a == b)
  unfolding safe_equals
  equal_hashes a b e f = rw (e, f) refl

  -- The first key that a device shows is the one that its later sessions need: after any further
  -- requests for sessions, of any devices, with any keys, granted or refused, a request of the device
  -- is granted exactly where the hash of its key is that of the first. The id and both keys are
  -- acceptable, no key is known of the device before, and no hash is empty.
  pub auth_session_first_key :
      (key key' token token' : String) (now now' : ℕ) (between : List SessionRequest) (s : Server)
      → is_auth_key (some key) ≡ true
      → is_auth_key (some key') ≡ true
      → get_stored_auth_hash (w.trim id) s ≡ none
      → truthy (some (w.sha256 key)) ≡ some (w.sha256 key)
      → truthy (some (w.sha256 key')) ≡ some (w.sha256 key')
      → let r = auth_session w now token (some id) (some key) s in
        (r.0 ≡ issued token (now + w.session_ttl * 1000))
        × ((auth_session w now' token' (some id) (some key') (ask_all w between r.1)).0 ≡ (
            if w.sha256 key == w.sha256 key'
            then issued token' (now' + w.session_ttl * 1000)
            else refused 401 "Authentication failed"))
  auth_session_first_key key key' token token' now now' between s ok ok' unknown hash hash' =
      let h = w.sha256 key in
      let known = store_auth_hash (w.trim id) h s in
      let first = create_session w token now (w.trim id) known in
      let after = ask_all w between first in
      let once = auth_session-first key now token s ok unknown in
      let at_first : get_stored_auth_hash (w.trim id) first ≡ some h =
        unfold get_stored_auth_hash create_session store_auth_hash in
        ap truthy (get-set_same (w.trim id) h s.device_auth) ∙ hash in
      let stored : get_stored_auth_hash (w.trim id) after ≡ some h =
        stored-ask_all w (w.trim id) h between first at_first in
      let twice : asks key' now' token' after
          ≡ check_key w now' token' (w.trim id) (w.sha256 key') after (some h) =
        checked key' now' token' after ok'
        ∙ ap (check_key w now' token' (w.trim id) (w.sha256 key') after) stored in
      rw once (
        refl,
        rw twice (
            rw (equal_hashes h (w.sha256 key') hash hash')
              (elim (Bool-cases (h == w.sha256 key')) [ inl e ↦ rw e refl | inr e ↦ rw e refl ])),
      )
