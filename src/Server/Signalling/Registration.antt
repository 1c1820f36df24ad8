-- ===== src/Server/Signalling/Registration.antt =====
-- Who is registered, and who leaves (src/server/server.js, lines 1035-1121 and 1259-1266).
use nonetchat_web.Prelude.{
  ℕ, String, ◌≡◌, refl, Option, none, some, Bool, true, false, ◌∷◌, ◌==◌, eq_iff, arith, ap, ◌∙◌,
  ◌⊎◌, if◌then◌else◌, truthy, is_some, or_else, nat_eq, Bool-cases, inl, inr, sym,
}
use mathlib.Core.Path.{subst}
use nonetchat_web.Prelude.Dict
use nonetchat_web.Prelude.Dict.{Dict, get-set, get-set_same, get-delete_same}
use nonetchat_web.Server.State.{Server, Client, Session, World, client_id, bind, shut, find_ws}
use nonetchat_web.Server.Sessions.{
  refresh_session, refresh_found, get_session_info, session_found, is_expired,
}
use nonetchat_web.Server.Discovery.{Chance}
use nonetchat_web.Server.Discovery.Effects.{announce_keeps}
use nonetchat_web.Server.Signalling.{
  ProfileClaim, on_register, with_token, with_session, enter, supersede, refuse, mismatches,
  new_client, no_geo, set_client, on_close,
}

-- The clients after a handler: the same, or with one entry set or deleted.
abbrev pub Changes : Server → Server → Type 0
Changes s t =
    (t.clients ≡ s.clients)
    ⊎ (((id : String) × (c : Client) × (t.clients ≡ Dict.set id c s.clients))
        ⊎ ((id : String) × (t.clients ≡ Dict.delete id s.clients)))

pub refresh_session_keeps :
    (w : World) (token : String) (now : ℕ) (s : Server)
    → ((refresh_session w token now s).clients ≡ s.clients)
      × ((refresh_session w token now s).ids ≡ s.ids)
unfolding refresh_session
refresh_session_keeps w token now s = elim (Bool-cases (is_some (truthy (some token)))) [
  | inl e ↦ rw e (go (Dict.get token s.sessions))
  | inr e ↦ rw e (refl, refl)
]
  where
    go :
        (o : Option Session)
        → ((refresh_found w token now s o).clients ≡ s.clients)
          × ((refresh_found w token now s o).ids ≡ s.ids)
    go none = (refl, refl)
    go (some r) = (refl, refl)

supersede_keeps :
    (ws : ℕ) (s : Server) (o : Option Client)
    → ((supersede ws s o).clients ≡ s.clients) × ((supersede ws s o).ids ≡ s.ids)
supersede_keeps ws s none = (refl, refl)
supersede_keeps ws s (some c) = elim (Bool-cases (nat_eq c.ws ws)) [
  | inl e ↦ rw e (refl, refl)
  | inr e ↦ rw e (refl, refl)
]

pub clients-get_session_info :
    (token : String) (now : ℕ) (s : Server) → (get_session_info token now s).1.clients ≡ s.clients
unfolding get_session_info
clients-get_session_info token now s = elim (Bool-cases (is_some (truthy (some token)))) [
  | inl e ↦ rw e (go (Dict.get token s.sessions))
  | inr e ↦ rw e refl
]
  where
    go : (o : Option Session) → (session_found token now s o).1.clients ≡ s.clients
    go none = refl
    go (some r) = elim (Bool-cases (is_expired now r)) [ inl e ↦ rw e refl | inr e ↦ rw e refl ]

-- What asking for a session finds stands in the map, and its time is not over.
get_session_info-some :
    (token : String) (now : ℕ) (s : Server) (r : Session)
    → (get_session_info token now s).0 ≡ some r
    → (Dict.get token s.sessions ≡ some r) × (is_expired now r ≡ false)
unfolding get_session_info
get_session_info-some token now s r h = live (is_some (truthy (some token))) h
  where
    unexpired :
        (q : Session) (b : Bool)
        → is_expired now q ≡ b
        → Dict.get token s.sessions ≡ some q
        → (if◌then◌else◌ {A = Option Session × Server} b
            (none, record s { sessions = Dict.delete token s.sessions })
            (some q, s)).0
          ≡ some r
        → (Dict.get token s.sessions ≡ some r) × (is_expired now r ≡ false)
    unexpired q true e at f = ground (arith, f)
    unexpired q false e at f =
        let same : q ≡ r = ground (arith, f) in (at ∙ f, ap (is_expired now) (sym same) ∙ e)

    go :
        (o : Option Session)
        → Dict.get token s.sessions ≡ o
        → (session_found token now s o).0 ≡ some r
        → (Dict.get token s.sessions ≡ some r) × (is_expired now r ≡ false)
    go none e f = ground (arith, f)
    go (some q) e f = unexpired q (is_expired now q) refl e f

    live :
        (b : Bool)
        → (if◌then◌else◌ {A = Option Session × Server} b
            (session_found token now s (Dict.get token s.sessions))
            (none, s)).0
          ≡ some r
        → (Dict.get token s.sessions ≡ some r) × (is_expired now r ≡ false)
    live true f = go (Dict.get token s.sessions) refl f
    live false f = ground (arith, f)

module _ (w : World) (h : Chance) (ws : ℕ) (ip : Option String) (claim : ProfileClaim) where
  abbrev pub client_for : String → String → Client
  client_for token id = new_client w ws ip id token claim (or_else (w.geoip ip) no_geo)

  enter_result :
      (token id : String) (s : Server)
      → let t = enter w h ws ip token claim id s in
        (t.clients ≡ Dict.set id (client_for token id) s.clients) × (t.ids ≡ (ws, id) ∷ s.ids)
  enter_result token id s =
      let left = supersede ws (bind ws id s) (Dict.get id s.clients) in
      let put = set_client id (client_for token id) left in
      let told = announce_keeps w h (refresh_session w token h.now put) in
      let fresh = refresh_session_keeps w token h.now put in
      let old = supersede_keeps ws (bind ws id s) (Dict.get id s.clients) in
      (told.0 ∙ fresh.0 ∙ ap (Dict.set id (client_for token id)) old.0, told.2 ∙ fresh.1 ∙ old.1)

  -- A registration that fails leaves every client as it was.
  refuse_keeps : (reason : String) (s : Server) → (refuse ws reason s).clients ≡ s.clients
  refuse_keeps reason s = refl

module _ (w : World) (h : Chance) (ws : ℕ) (ip : Option String) (claim : ProfileClaim)
    (claimed token : Option String) (s : Server) where
  pub changes-on_register : Changes s (on_register w h ws ip claimed token claim s)
  unfolding on_register
  changes-on_register = by_token (truthy (some (w.trim (or_else token ""))))
    where
      by_session :
          (t : String) (o : Option Session) (u : Server)
          → u.clients ≡ s.clients
          → Changes s (with_session w h ws ip claimed t claim (o, u))
      by_session t none u same = inl same
      by_session t (some r) u same = elim (Bool-cases (is_some (truthy (some r.device_id)))) [
        | inr e ↦ rw e (inl same)
        | inl e ↦ rw e (elim (Bool-cases (mismatches (truthy claimed) r.device_id)) [
          | inl f ↦ rw f (inl same)
          | inr f ↦ rw f (
              inr (
                inl (
                  r.device_id,
                  client_for w h ws ip claim t r.device_id,
                  (enter_result w h ws ip claim t r.device_id u).0
                      ∙ ap (Dict.set r.device_id (client_for w h ws ip claim t r.device_id)) same,
                )))
        ])
      ]

      by_token : (o : Option String) → Changes s (with_token w h ws ip claimed claim s o)
      by_token none = inl refl
      by_token (some t) =
          by_session t (get_session_info t h.now s).0 (get_session_info t h.now s).1
            (clients-get_session_info t h.now s)

module _ (w : World) (h : Chance) (ws : ℕ) (ip : Option String) (claim : ProfileClaim)
    (claimed token : Option String) (s : Server) (j : String) where
  abbrev shown : String
  shown = w.trim (or_else token "")

  abbrev IsAuthentic : Server → Type 0
  IsAuthentic t =
      (Dict.get j t.clients ≡ Dict.get j s.clients)
      ⊎ ((r : Session) × (Dict.get shown s.sessions ≡ some r)
          × (is_expired h.now r ≡ false)
          × (r.device_id ≡ j))

  entered :
      (r : Session) (u : Server)
      → u.clients ≡ s.clients
      → (Dict.get shown s.sessions ≡ some r) × (is_expired h.now r ≡ false)
      → IsAuthentic (enter w h ws ip shown claim r.device_id u)
  entered r u same live = elim (Bool-cases (r.device_id == j)) [
    | inl e ↦ inr (r, live.0, live.1, ground (arith, eq_iff r.device_id j))
    | inr e ↦ inl (
        ap (Dict.get j) ((enter_result w h ws ip claim shown r.device_id u).0)
        ∙ get-set j r.device_id (client_for w h ws ip claim shown r.device_id) u.clients
        ∙ rw e (ap (Dict.get j) same))
  ]

  session_entered :
      (o : Option Session) (u : Server)
      → u.clients ≡ s.clients
      → ((r : Session)
          → o ≡ some r
          → (Dict.get shown s.sessions ≡ some r) × (is_expired h.now r ≡ false))
      → IsAuthentic (with_session w h ws ip claimed shown claim (o, u))
  session_entered none u same live = inl (ap (Dict.get j) same)
  session_entered (some r) u same live = elim (Bool-cases (is_some (truthy (some r.device_id)))) [
    | inr e ↦ rw e (inl (ap (Dict.get j) same))
    | inl e ↦ rw e (elim (Bool-cases (mismatches (truthy claimed) r.device_id)) [
      | inl f ↦ rw f (inl (ap (Dict.get j) same))
      | inr f ↦ rw f (entered r u same (live r refl))
    ])
  ]

  token_entered :
      (o : Option String)
      → truthy (some shown) ≡ o
      → IsAuthentic (with_token w h ws ip claimed claim s o)
  token_entered none e = inl refl
  token_entered (some t) e =
      let same : t ≡ shown = ground arith in
      subst (λ x. IsAuthentic (with_token w h ws ip claimed claim s (some x))) (sym same)
        (session_entered (get_session_info shown h.now s).0 (get_session_info shown h.now s).1
          (clients-get_session_info shown h.now s) (λ r f. get_session_info-some shown h.now s r f))

  -- A registration changes the entry of one device only, and only where the token that it shows is
  -- that of a session of this device whose time is not over.
  pub on_register-authenticates :
      (Dict.get j (on_register w h ws ip claimed token claim s).clients ≡ Dict.get j s.clients)
      ⊎ ((r : Session) × (Dict.get shown s.sessions ≡ some r)
          × (is_expired h.now r ≡ false)
          × (r.device_id ≡ j))
  unfolding on_register
  on_register-authenticates = token_entered (truthy (some shown)) refl

  -- Where a device that a socket stands for registers on another socket, the late 'close' event of
  -- the first one takes the new registration away: the device is then not registered. The token's
  -- session is the device's, nobody claims another id, and id and token are not empty.
  pub on_close_superseded :
      (old : ℕ) (h' : Chance) (r : Session)
      → client_id old s ≡ some r.device_id
      → nat_eq ws old ≡ false
      → get_session_info shown h.now s ≡ (some r, s)
      → truthy (some shown) ≡ some shown
      → truthy (some r.device_id) ≡ some r.device_id
      → mismatches (truthy claimed) r.device_id ≡ false
      → let t = on_register w h ws ip claimed token claim s in
        (Dict.get r.device_id t.clients ≡ some (client_for w h ws ip claim shown r.device_id))
        × (Dict.get r.device_id (on_close w h' old t).clients ≡ none)
  unfolding on_register on_close client_id
  on_close_superseded old h' r bound other live named device agrees =
      let u = enter w h ws ip shown claim r.device_id s in
      let entered : on_register w h ws ip claimed token claim s ≡ u =
        rw named (rw live (rw device (rw agrees refl))) in
      let result = enter_result w h ws ip claim shown r.device_id s in
      let still : client_id old u ≡ some r.device_id = ap (find_ws old) result.1 ∙ rw other bound in
      let left = shut old u in
      let gone = record left { clients = Dict.delete r.device_id left.clients } in
      rw entered (
        ap (Dict.get r.device_id) result.0
            ∙ get-set_same r.device_id (client_for w h ws ip claim shown r.device_id) s.clients,
        rw still (
            rw device (
              ap (Dict.get r.device_id) (announce_keeps w h' gone).0
              ∙ get-delete_same r.device_id u.clients)),
      )
