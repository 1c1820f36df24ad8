-- ===== src/Server/Signalling/Identity.antt =====
-- The sender that a relayed message carries (src/server/server.js, lines 1131-1136).
use nonetchat_web.Prelude.{
  ℕ, String, ◌≡◌, refl, Option, none, some, true, List, [], ◌∷◌, ◌++◌, ◌∙◌, ap, All, All-imp,
  Bool-cases, inl, inr, sym, truthy, truthy-cases, is_some, nat_eq, or_else, ◌⊎◌, Option-cases,
}
use mathlib.Core.List.{append_assoc, append-nil}
use nonetchat_web.Prelude.Dict
use nonetchat_web.Prelude.Dict.{Dict}
use nonetchat_web.Server.State.{
  Server, Client, Session, Subscription, Effect, wrote, pushed, closed, terminated, pinged,
  ServerOut, nearby_peers, relayed_chat, relayed_signal, Push, World, client_id, geo, lan, bind,
}
use nonetchat_web.Server.Sessions.{
  refresh_session, refresh_found, get_session_info, session_found, is_expired,
}
use nonetchat_web.Server.Push.{
  send_push_to_user, log_pushes, delete_user_subscriptions, delete_from, keep_user,
  delete_endpoints, push_all, stale_endpoints, get_user_subscriptions,
}
use nonetchat_web.Server.Discovery.{Chance, rebuild_geo_tree, broadcast_peer_updates}
use nonetchat_web.Server.Discovery.Effects.{
  IsAnnouncement, All-append, send_to-Writes, broadcast_peer_updates-Writes,
}
use nonetchat_web.Server.Signalling.{
  ClientMessage, on_client_message, on_update_location, on_request_lan_discovery, on_heartbeat,
  on_chat, on_signal, on_profile_update, on_register, with_token, with_session, enter, supersede,
  refuse, mismatches, new_client, no_geo, from_registered, registered, dispatch, relay, announce,
  recipient, chat_push, signal_push, patched, versioned, renamed, set_client, widened, located,
  register, update_location, request_lan_discovery, heartbeat, chat, signal, profile_update,
  unknown, not_json, ProfileClaim,
}

-- What names a sender names this one.
abbrev pub StampedBy : String → Effect → Type 0
StampedBy id (wrote ws (relayed_chat from text conv)) = from ≡ id
StampedBy id (wrote ws (relayed_signal kind from payload)) = from ≡ id
StampedBy id (wrote ws (nearby_peers ps room label t)) = Unit
StampedBy id (pushed ep p) = p.from ≡ id
StampedBy id _ = Unit

-- The log grows by effects that name no other sender.
abbrev pub Adds : String → Server → Server → Type 0
Adds id s t = (new : List Effect) × (t.log ≡ s.log ++ new) × All (StampedBy id) new

module _ (id : String) where
  Adds-nothing : (s t : Server) → t.log ≡ s.log → Adds id s t
  Adds-nothing s t e = ([], e ∙ sym (append-nil s.log), tt)

  Adds-trans : (s t u : Server) → Adds id s t → Adds id t u → Adds id s u
  Adds-trans s t u (a, e, h) (b, f, k) =
      (a ++ b, f ∙ ap (λ l. l ++ b) e ∙ append_assoc s.log a b, All-append (StampedBy id) a b h k)

  announcement : (e : Effect) → IsAnnouncement e → StampedBy id e
  announcement (wrote ws (nearby_peers ps room label t)) h = tt
  announcement (wrote ws (relayed_chat from text conv)) h = elim h [ ]
  announcement (wrote ws (relayed_signal kind from payload)) h = elim h [ ]
  announcement (closed ws code reason) h = elim h [ ]
  announcement (terminated ws) h = elim h [ ]
  announcement (pinged ws) h = elim h [ ]
  announcement (pushed ep p) h = elim h [ ]

  announce-Adds : (w : World) (h : Chance) (s : Server) → Adds id s (broadcast_peer_updates w h s)
  announce-Adds w h s =
      let (new, e, k) = broadcast_peer_updates-Writes w h s in
      (new, ap (λ (t : Server). t.log) e, All-imp new announcement k)

  log-refresh_session :
      (w : World) (token : String) (now : ℕ) (s : Server)
      → (refresh_session w token now s).log ≡ s.log
  unfolding refresh_session
  log-refresh_session w token now s = elim (Bool-cases (is_some (truthy (some token)))) [
    | inl e ↦ rw e (go (Dict.get token s.sessions))
    | inr e ↦ rw e refl
  ]
    where
      go : (o : Option Session) → (refresh_found w token now s o).log ≡ s.log
      go none = refl
      go (some r) = refl

  log_pushes-Adds :
      (p : Push) (subs : List Subscription) (s : Server)
      → p.from ≡ id
      → Adds id s (log_pushes p subs s)
  unfolding log_pushes
  log_pushes-Adds p [] s h = Adds-nothing s s refl
  log_pushes-Adds p (sub ∷ subs) s h =
      let s' = record s { log = s.log ++ pushed sub.endpoint p ∷ [] } in
      Adds-trans s s' (log_pushes p subs s') (pushed sub.endpoint p ∷ [], refl, (h, tt))
        (log_pushes-Adds p subs s' h)

  log-delete_user_subscriptions :
      (user : String) (eps : List (Option String)) (s : Server)
      → (delete_user_subscriptions user eps s).log ≡ s.log
  unfolding delete_user_subscriptions
  log-delete_user_subscriptions user [] s = refl
  log-delete_user_subscriptions user (ep ∷ eps) s = go (Dict.get user s.push_subscriptions)
    where
      kept : (m : Dict Subscription) → (keep_user user m s).log ≡ s.log
      kept [] = refl
      kept (x ∷ xs) = refl

      go : (o : Option (Dict Subscription)) → (delete_from user (ep ∷ eps) s o).log ≡ s.log
      go none = refl
      go (some m) = kept (delete_endpoints (ep ∷ eps) m)

  send_push_to_user-Adds :
      (w : World) (user : Option String) (p : Push) (s : Server)
      → p.from ≡ id
      → Adds id s (send_push_to_user w user p s)
  unfolding send_push_to_user
  send_push_to_user-Adds w user p s h = elim (Bool-cases w.push_enabled) [
    | inl e ↦ rw e (go user (get_user_subscriptions user s))
    | inr e ↦ rw e (Adds-nothing s s refl)
  ]
    where
      go : (u : Option String) (subs : List Subscription) → Adds id s (push_all w u p subs s)
      go none subs = Adds-nothing s s refl
      go (some u) subs =
          let t = log_pushes p subs s in
          let gone = stale_endpoints w p subs in
          Adds-trans s t (delete_user_subscriptions u gone t) (log_pushes-Adds p subs s h) (
            Adds-nothing t (delete_user_subscriptions u gone t)
              (log-delete_user_subscriptions u gone t))

  relay-Adds :
      (w : World) (to : Option String) (out : ServerOut) (p : Push) (s : Server) (r : Option Client)
      → p.from ≡ id
      → ((ws : ℕ) → StampedBy id (wrote ws out))
      → Adds id s (relay w to out p s r)
  relay-Adds w to out p s none h k = send_push_to_user-Adds w to p s h
  relay-Adds w to out p s (some c) h k =
      let (new, e, all) = send_to-Writes (StampedBy id) c.ws out s (k c.ws) in
      (new, ap (λ (t : Server). t.log) e, all)

  -- A change of the state that writes nothing, then the telling of everybody, then the session's
  -- refreshing.
  told :
      (w : World) (h : Chance) (token : String) (s t : Server)
      → t.log ≡ s.log
      → Adds id s (refresh_session w token h.now (announce w h t))
  told w h token s t e =
      let a = rebuild_geo_tree t in
      let b = broadcast_peer_updates w h a in
      Adds-trans s b (refresh_session w token h.now b)
        (Adds-trans s a b (Adds-nothing s a (unfold rebuild_geo_tree in e)) (announce-Adds w h a))
        (Adds-nothing b (refresh_session w token h.now b) (log-refresh_session w token h.now b))

  dispatch-Adds :
      (w : World) (h : Chance) (c : Client) (m : ClientMessage) (s : Server)
      → Adds id s (dispatch w h id c m s)
  unfolding on_update_location on_request_lan_discovery on_heartbeat on_chat on_signal
      on_profile_update
  dispatch-Adds w h c (update_location loc radius) s =
      told w h c.session_token s
        (set_client id (record (widened radius (located h.now loc c)) { discovery_mode = geo }) s)
        refl
  dispatch-Adds w h c request_lan_discovery s =
      told w h c.session_token s (set_client id (record c { discovery_mode = lan }) s) refl
  dispatch-Adds w h c heartbeat s =
      let t = set_client id (record c { is_alive = true }) s in
      Adds-nothing s (refresh_session w c.session_token h.now t)
        (log-refresh_session w c.session_token h.now t)
  dispatch-Adds w h c (chat from to text conv_id name avatar) s =
      relay-Adds w to (relayed_chat id text conv_id) (chat_push w id c text conv_id name avatar) s
        (recipient (truthy to) s) refl (λ ws. refl)
  dispatch-Adds w h c (signal kind from to payload) s =
      relay-Adds w to (relayed_signal kind id payload) (signal_push w id c) s
        (recipient (truthy to) s) refl (λ ws. refl)
  dispatch-Adds w h c (profile_update name version patch) s =
      let t =
        set_client id
          (record c {
            profile = patched w id patch (versioned version (renamed (truthy name) c.profile));
          })
          s in
      Adds-trans s t (broadcast_peer_updates w h t) (Adds-nothing s t refl) (announce-Adds w h t)
  dispatch-Adds w h c unknown s = Adds-nothing s s refl
  dispatch-Adds w h c not_json s = Adds-nothing s s refl
  dispatch-Adds w h c (register claimed token claim) s = Adds-nothing s s refl

  supersede-Adds : (ws : ℕ) (s : Server) (o : Option Client) → Adds id s (supersede ws s o)
  supersede-Adds ws s none = Adds-nothing s s refl
  supersede-Adds ws s (some c) = elim (Bool-cases (nat_eq c.ws ws)) [
    | inl e ↦ rw e (Adds-nothing s s refl)
    | inr e ↦ rw e (closed c.ws (some 4001) "Session superseded" ∷ [], refl, (tt, tt))
  ]

  refuse-Adds : (ws : ℕ) (reason : String) (s : Server) → Adds id s (refuse ws reason s)
  refuse-Adds ws reason s = (closed ws (some 4403) reason ∷ [], refl, (tt, tt))

  enter-Adds :
      (w : World) (h : Chance) (ws : ℕ) (ip : Option String) (token : String) (claim : ProfileClaim)
      (j : String) (s : Server)
      → Adds id s (enter w h ws ip token claim j s)
  enter-Adds w h ws ip token claim j s =
      let left = supersede ws (bind ws j s) (Dict.get j s.clients) in
      let put =
        set_client j (new_client w ws ip j token claim (or_else (w.geoip ip) no_geo)) left in
      let kept = refresh_session w token h.now put in
      let a = rebuild_geo_tree kept in
      Adds-trans s left (broadcast_peer_updates w h a)
        (supersede-Adds ws (bind ws j s) (Dict.get j s.clients))
        (Adds-trans left a (broadcast_peer_updates w h a)
          (Adds-nothing left a (unfold rebuild_geo_tree in log-refresh_session w token h.now put))
          (announce-Adds w h a))

  log-get_session_info :
      (token : String) (now : ℕ) (s : Server) → (get_session_info token now s).1.log ≡ s.log
  unfolding get_session_info
  log-get_session_info token now s = elim (Bool-cases (is_some (truthy (some token)))) [
    | inl e ↦ rw e (go (Dict.get token s.sessions))
    | inr e ↦ rw e refl
  ]
    where
      go : (o : Option Session) → (session_found token now s o).1.log ≡ s.log
      go none = refl
      go (some r) = elim (Bool-cases (is_expired now r)) [ inl e ↦ rw e refl | inr e ↦ rw e refl ]

  with_session-Adds :
      (w : World) (h : Chance) (ws : ℕ) (ip claimed : Option String) (token : String)
      (claim : ProfileClaim) (o : Option Session) (s : Server)
      → Adds id s (with_session w h ws ip claimed token claim (o, s))
  with_session-Adds w h ws ip claimed token claim none s = refuse-Adds ws "Invalid session token" s
  with_session-Adds w h ws ip claimed token claim (some r) s =
      elim (Bool-cases (is_some (truthy (some r.device_id)))) [
        | inr e ↦ rw e (refuse-Adds ws "Invalid session token" s)
        | inl e ↦ rw e (elim (Bool-cases (mismatches (truthy claimed) r.device_id)) [
          | inl f ↦ rw f (refuse-Adds ws "Session mismatch" s)
          | inr f ↦ rw f (enter-Adds w h ws ip token claim r.device_id s)
        ])
      ]

  on_register-Adds :
      (w : World) (h : Chance) (ws : ℕ) (ip claimed token : Option String) (claim : ProfileClaim)
      (s : Server)
      → Adds id s (on_register w h ws ip claimed token claim s)
  unfolding on_register
  on_register-Adds w h ws ip claimed token claim s = go (truthy (some (w.trim (or_else token ""))))
    where
      go : (t : Option String) → Adds id s (with_token w h ws ip claimed claim s t)
      go none = refuse-Adds ws "Session token required" s
      go (some t) =
          let r = get_session_info t h.now s in
          Adds-trans s r.1 (with_session w h ws ip claimed t claim r)
            (Adds-nothing s r.1 (log-get_session_info t h.now s))
            (with_session-Adds w h ws ip claimed t claim r.0 r.1)

  from_registered-Adds :
      (w : World) (h : Chance) (ws : ℕ) (m : ClientMessage) (s : Server)
      → client_id ws s ≡ some id
      → Adds id s (from_registered w h ws m s (registered s (truthy (client_id ws s))))
  from_registered-Adds w h ws m s e = rw e (named (truthy-cases id))
    where
      named :
          (truthy (some id) ≡ none) ⊎ (truthy (some id) ≡ some id)
          → Adds id s (from_registered w h ws m s (registered s (truthy (some id))))
      named (inl f) = rw f (closed ws none "" ∷ [], refl, (tt, tt))
      named (inr f) = rw f (elim (Option-cases (Dict.get id s.clients)) [
        | inl g ↦ rw g (closed ws none "" ∷ [], refl, (tt, tt))
        | inr (c, g) ↦ rw g (dispatch-Adds w h c m s)
      ])

  -- Whatever message a socket with a session sends, and whatever sender it claims in it, all that the
  -- server then writes to sockets or push services in another's name is in the name of the session's
  -- device.
  pub on_client_message-stamps :
      (w : World) (h : Chance) (ws : ℕ) (ip : Option String) (m : ClientMessage) (s : Server)
      → client_id ws s ≡ some id
      → Adds id s (on_client_message w h ws ip m s)
  unfolding on_client_message
  on_client_message-stamps w h ws ip not_json s e = (closed ws none "" ∷ [], refl, (tt, tt))
  on_client_message-stamps w h ws ip (register claimed token claim) s e =
      on_register-Adds w h ws ip claimed token claim s
  on_client_message-stamps w h ws ip (update_location loc radius) s e =
      from_registered-Adds w h ws (update_location loc radius) s e
  on_client_message-stamps w h ws ip request_lan_discovery s e =
      from_registered-Adds w h ws request_lan_discovery s e
  on_client_message-stamps w h ws ip heartbeat s e = from_registered-Adds w h ws heartbeat s e
  on_client_message-stamps w h ws ip unknown s e = from_registered-Adds w h ws unknown s e
  on_client_message-stamps w h ws ip (chat from to text conv name avatar) s e =
      from_registered-Adds w h ws (chat from to text conv name avatar) s e
  on_client_message-stamps w h ws ip (signal kind from to payload) s e =
      from_registered-Adds w h ws (signal kind from to payload) s e
  on_client_message-stamps w h ws ip (profile_update name version patch) s e =
      from_registered-Adds w h ws (profile_update name version patch) s e
