-- ===== src/Server/Reach/Clients.antt =====
-- The map of the clients along a run of the handlers, and what they are told.
use nonetchat_web.Prelude.{
  ℕ, String, ◌≡◌, refl, Option, none, some, Bool, true, false, List, [], ◌∷◌, ap, ◌∙◌, inl, inr,
  truthy, is_some, Bool-cases, sym, ltb, leb,
}
use mathlib.Core.Path.{subst}
use nonetchat_web.Prelude.Dict
use nonetchat_web.Prelude.Dict.{Dict}
use nonetchat_web.Prelude.Keys.{DistinctKeys, set-DistinctKeys, delete-DistinctKeys}
use nonetchat_web.Server.State.{
  Server, Client, Session, Subscription, RateLimit, World, Push, ServerOut, client_id, shut, geo,
  lan,
}
use nonetchat_web.Server.Sessions.{
  auth_session, get_session_info, refresh_session, create_session, store_auth_hash, check_key,
  safe_equals, is_device_id, is_auth_key, get_stored_auth_hash, text_or_empty,
}
use nonetchat_web.Server.Push.{
  send_push_to_user, save_subscription, log_pushes, delete_user_subscriptions, delete_from,
  keep_user, delete_endpoints, push_all, stale_endpoints, get_user_subscriptions, add_subscription,
  add_endpoint, save_for, save_with,
}
use nonetchat_web.Server.Discovery.{Chance, broadcast_peer_updates}
use nonetchat_web.Server.Discovery.Fair.{IsBroadcast, broadcast_peer_updates-IsBroadcast}
use nonetchat_web.Server.Discovery.Effects.{
  announce_keeps, broadcast_peer_updates-Writes, send_to-Writes,
}
use nonetchat_web.Server.Signalling.{
  ClientMessage, register, update_location, request_lan_discovery, heartbeat, unknown, not_json,
  chat, signal, profile_update, on_connection, on_client_message, on_close, on_pong, leave, revive,
  registered, from_registered, dispatch, relay, set_client, on_update_location,
  on_request_lan_discovery, on_heartbeat, on_chat, on_signal, on_profile_update, announce, widened,
  located, patched, versioned, renamed, is_allowed,
}
use nonetchat_web.Server.Signalling.Registration.{
  Changes, clients-get_session_info, refresh_session_keeps, changes-on_register,
}
use nonetchat_web.Server.Agent.{
  AiConfig, Turn, ai_chat, check_ai_rate_limit, limit_found, limited, is_authorized,
  ai_rate_limit_requests,
}
use nonetchat_web.Server.Heartbeat.Liveness.{heartbeat_tick-DistinctKeys}
use nonetchat_web.Server.Reach.{
  start, ServerStep, ServerSteps, connects, says, closes, answers, ticks, logs_in, subscribes, asks,
  done, next,
}

-- Any number of entries set and deleted, one after the other.
pub data ClientEdits : Server → Server → Type 0 where
  unedited : {s : Server} → ClientEdits s s
  edit : {s t u : Server} → Changes s t → ClientEdits t u → ClientEdits s u

changed-DistinctKeys :
    (s t : Server) → Changes s t → DistinctKeys s.clients → DistinctKeys t.clients
changed-DistinctKeys s t (inl e) d = subst DistinctKeys (sym e) d
changed-DistinctKeys s t (inr (inl (id, c, e))) d =
    subst DistinctKeys (sym e) (set-DistinctKeys id c s.clients d)
changed-DistinctKeys s t (inr (inr (id, e))) d =
    subst DistinctKeys (sym e) (delete-DistinctKeys id s.clients d)

clients-log_pushes :
    (p : Push) (subs : List Subscription) (s : Server) → (log_pushes p subs s).clients ≡ s.clients
unfolding log_pushes
clients-log_pushes p [] s = refl
clients-log_pushes p (sub ∷ subs) s = clients-log_pushes p subs _

clients-delete_user_subscriptions :
    (user : String) (eps : List (Option String)) (s : Server)
    → (delete_user_subscriptions user eps s).clients ≡ s.clients
unfolding delete_user_subscriptions
clients-delete_user_subscriptions user [] s = refl
clients-delete_user_subscriptions user (ep ∷ eps) s = go (Dict.get user s.push_subscriptions)
  where
    kept : (m : Dict Subscription) → (keep_user user m s).clients ≡ s.clients
    kept [] = refl
    kept (x ∷ xs) = refl

    go : (o : Option (Dict Subscription)) → (delete_from user (ep ∷ eps) s o).clients ≡ s.clients
    go none = refl
    go (some m) = kept (delete_endpoints (ep ∷ eps) m)

clients-send_push_to_user :
    (w : World) (user : Option String) (p : Push) (s : Server)
    → (send_push_to_user w user p s).clients ≡ s.clients
unfolding send_push_to_user
clients-send_push_to_user w user p s = elim (Bool-cases w.push_enabled) [
  | inl e ↦ rw e (go user (get_user_subscriptions user s))
  | inr e ↦ rw e refl
]
  where
    go :
        (u : Option String) (subs : List Subscription) → (push_all w u p subs s).clients ≡ s.clients
    go none subs = refl
    go (some u) subs =
        clients-delete_user_subscriptions u (stale_endpoints w p subs) (log_pushes p subs s)
        ∙ clients-log_pushes p subs s

clients-relay :
    (w : World) (to : Option String) (out : ServerOut) (p : Push) (s : Server) (r : Option Client)
    → (relay w to out p s r).clients ≡ s.clients
clients-relay w to out p s none = clients-send_push_to_user w to p s
clients-relay w to out p s (some c) =
    ap (λ (t : Server). t.clients) (send_to-Writes (λ e. Unit {0}) c.ws out s tt).1

module _ (w : World) (h : Chance) where
  -- What is set, then told to everybody, then the session's refreshing.
  told :
      (token : String) (t : Server)
      → (refresh_session w token h.now (announce w h t)).clients ≡ t.clients
  told token t = (refresh_session_keeps w token h.now (announce w h t)).0 ∙ (announce_keeps w h t).0

  dispatched :
      (id : String) (c : Client) (m : ClientMessage) (s : Server)
      → Changes s (dispatch w h id c m s)
  unfolding on_update_location on_request_lan_discovery on_heartbeat on_chat on_signal
      on_profile_update
  dispatched id c (update_location loc radius) s =
      let c' = record (widened radius (located h.now loc c)) { discovery_mode = geo } in
      inr (inl (id, c', told c.session_token (set_client id c' s)))
  dispatched id c request_lan_discovery s =
      let c' = record c { discovery_mode = lan } in
      inr (inl (id, c', told c.session_token (set_client id c' s)))
  dispatched id c heartbeat s =
      let c' = record c { is_alive = true } in
      inr (inl (id, c', (refresh_session_keeps w c.session_token h.now (set_client id c' s)).0))
  dispatched id c (chat from to text conv_id name avatar) s = inl (clients-relay w to _ _ s _)
  dispatched id c (signal kind from to payload) s = inl (clients-relay w to _ _ s _)
  dispatched id c (profile_update name version patch) s =
      let c' = record c {
        profile = patched w id patch (versioned version (renamed (truthy name) c.profile));
      } in
      inr (
        inl (
          id,
          c',
          ap (λ (t : Server). t.clients) (broadcast_peer_updates-Writes w h (set_client id c' s)).1,
        ))
  dispatched id c unknown s = inl refl
  dispatched id c not_json s = inl refl
  dispatched id c (register claimed token claim) s = inl refl

  from :
      (ws : ℕ) (m : ClientMessage) (s : Server) (o : Option (String × Client))
      → Changes s (from_registered w h ws m s o)
  from ws m s none = inl refl
  from ws m s (some (id, c)) = dispatched id c m s

  said :
      (ws : ℕ) (ip : Option String) (m : ClientMessage) (s : Server)
      → Changes s (on_client_message w h ws ip m s)
  unfolding on_client_message
  said ws ip not_json s = inl refl
  said ws ip (register claimed token claim) s = changes-on_register w h ws ip claim claimed token s
  said ws ip (update_location loc radius) s = from ws (update_location loc radius) s _
  said ws ip request_lan_discovery s = from ws request_lan_discovery s _
  said ws ip heartbeat s = from ws heartbeat s _
  said ws ip unknown s = from ws unknown s _
  said ws ip (chat f to text conv name avatar) s = from ws (chat f to text conv name avatar) s _
  said ws ip (signal kind f to payload) s = from ws (signal kind f to payload) s _
  said ws ip (profile_update name version patch) s = from ws (profile_update name version patch) s _

  left : (ws : ℕ) (s : Server) → Changes s (on_close w h ws s)
  unfolding on_close
  left ws s = go (truthy (client_id ws s))
    where
      go : (o : Option String) → Changes s (leave w h (shut ws s) o)
      go none = inl refl
      go (some id) = inr (
          inr (
            id,
            (announce_keeps w h (record (shut ws s) { clients = Dict.delete id s.clients })).0,
          ))

revived : (ws : ℕ) (s : Server) → Changes s (on_pong ws s)
unfolding on_pong
revived ws s = go (registered s (truthy (client_id ws s)))
  where
    go : (o : Option (String × Client)) → Changes s (revive s o)
    go none = inl refl
    go (some (id, c)) = inr (inl (id, record c { is_alive = true }, refl))

connected :
    (production : Bool) (origin : Option String) (ws : ℕ) (s : Server)
    → (on_connection production origin ws s).clients ≡ s.clients
unfolding on_connection
connected production origin ws s = elim (Bool-cases (is_allowed production (truthy origin))) [
  | inl e ↦ rw e refl
  | inr e ↦ rw e refl
]

clients-auth_session :
    (w : World) (now : ℕ) (token : String) (device_id key : Option String) (s : Server)
    → (auth_session w now token device_id key s).1.clients ≡ s.clients
unfolding auth_session create_session store_auth_hash
clients-auth_session w now token device_id key s = elim (Bool-cases (is_device_id w device_id)) [
  | inr e ↦ rw e refl
  | inl e ↦ rw e (elim (Bool-cases (is_auth_key key)) [
    | inr f ↦ rw f refl
    | inl f ↦ rw f (go (get_stored_auth_hash (w.trim (text_or_empty device_id)) s))
  ])
]
  where
    go :
        (o : Option String)
        → (check_key w now token
            (w.trim (text_or_empty device_id))
            (w.sha256 (text_or_empty key))
            s
            o).1.clients
          ≡ s.clients
    go none = refl
    go (some h) = elim (Bool-cases (safe_equals (some h) (some (w.sha256 (text_or_empty key))))) [
      | inl g ↦ rw g refl
      | inr g ↦ rw g refl
    ]

clients-save_subscription :
    (w : World) (now : ℕ) (token : Option String) (sub : Option Subscription) (s : Server)
    → (save_subscription w now token sub s).1.clients ≡ s.clients
unfolding save_subscription add_subscription
clients-save_subscription w now token sub s = go (truthy token)
  where
    added :
        (id : String) (x : Subscription) (u : Server) (o : Option String)
        → (add_endpoint id x u o).clients ≡ u.clients
    added id x u none = refl
    added id x u (some ep) = refl

    by_session :
        (t : String) (x : Option Subscription) (o : Option Session) (u : Server)
        → u.clients ≡ s.clients
        → (save_for w now t x (o, u)).1.clients ≡ s.clients
    by_session t x none u same = same
    by_session t none (some r) u same = same
    by_session t (some x) (some r) u same =
        (refresh_session_keeps w t now (add_subscription r.device_id x u)).0
        ∙ added r.device_id x u (truthy x.endpoint)
        ∙ same

    go : (o : Option String) → (save_with w now sub s o).1.clients ≡ s.clients
    go none = refl
    go (some t) =
        by_session t sub (get_session_info t now s).0 (get_session_info t now s).1
          (clients-get_session_info t now s)

clients-check_ai_rate_limit :
    (ip : String) (now : ℕ) (s : Server) → (check_ai_rate_limit ip now s).1.clients ≡ s.clients
unfolding check_ai_rate_limit
clients-check_ai_rate_limit ip now s = go (Dict.get ip s.ai_rate_limits)
  where
    go : (o : Option RateLimit) → (limit_found ip now s o).1.clients ≡ s.clients
    go none = refl
    go (some l) = elim (Bool-cases (ltb l.reset_time now)) [
      | inl e ↦ rw e refl
      | inr e ↦ rw e (elim (Bool-cases (leb ai_rate_limit_requests l.requests)) [
        | inl f ↦ rw f refl
        | inr f ↦ rw f refl
      ])
    ]

clients-ai_chat :
    (w : World) (a : AiConfig) (ip : String) (now : ℕ) (token agent_id : Option String)
    (turns : Option (List (Option Turn))) (s : Server)
    → (ai_chat w a ip now token agent_id turns s).1.clients ≡ s.clients
unfolding ai_chat
clients-ai_chat w a ip now token agent_id turns s =
    elim (Bool-cases (is_some (truthy a.mistral_key))) [
      | inr e ↦ rw e refl
      | inl e ↦ rw e (elim (Bool-cases (is_authorized a (truthy token))) [
        | inr f ↦ rw f refl
        | inl f ↦ rw f (
            go (check_ai_rate_limit ip now s).0 (check_ai_rate_limit ip now s).1
            ∙ clients-check_ai_rate_limit ip now s)
      ])
    ]
  where
    go : (b : Bool) (u : Server) → (limited w a agent_id turns (b, u)).1.clients ≡ u.clients
    go true u = refl
    go false u = refl

module _ (w : World) where
  step-DistinctKeys :
      {s t : Server} → ServerStep w s t → DistinctKeys s.clients → DistinctKeys t.clients
  step-DistinctKeys {s} (connects production origin ws) d =
      subst DistinctKeys (sym (connected production origin ws s)) d
  step-DistinctKeys {s} {t} (says h ws ip m) d = changed-DistinctKeys s t (said w h ws ip m s) d
  step-DistinctKeys {s} {t} (closes h ws) d = changed-DistinctKeys s t (left w h ws s) d
  step-DistinctKeys {s} {t} (answers ws) d = changed-DistinctKeys s t (revived ws s) d
  step-DistinctKeys {s} (ticks h) d = heartbeat_tick-DistinctKeys w h s d
  step-DistinctKeys {s} (logs_in now token id key) d =
      subst DistinctKeys (sym (clients-auth_session w now token id key s)) d
  step-DistinctKeys {s} (subscribes now token sub) d =
      subst DistinctKeys (sym (clients-save_subscription w now token sub s)) d
  step-DistinctKeys {s} (asks a ip now token agent_id turns) d =
      subst DistinctKeys (sym (clients-ai_chat w a ip now token agent_id turns s)) d

  steps-DistinctKeys :
      {s t : Server} → ServerSteps w s t → DistinctKeys s.clients → DistinctKeys t.clients
  steps-DistinctKeys done d = d
  steps-DistinctKeys (next r rs) d = steps-DistinctKeys rs (step-DistinctKeys r d)

  edits-DistinctKeys :
      {s t : Server} → ClientEdits s t → DistinctKeys s.clients → DistinctKeys t.clients
  edits-DistinctKeys unedited d = d
  edits-DistinctKeys {s} (edit {t = t} c cs) d =
      edits-DistinctKeys cs (changed-DistinctKeys s t c d)

  -- Whatever the handlers of the server have run on since its start, and whatever entries of the map of
  -- the clients the running one has set and deleted, a broadcast only writes lists of nearby peers,
  -- each to the socket of a registered client, and it writes one to every registered client whose
  -- socket is open. A list names registered clients only, none of them twice, and never the client
  -- itself.
  pub reached-broadcast_peer_updates :
      {s t : Server}
      → ServerSteps w start s
      → ClientEdits s t
      → (h : Chance) → IsBroadcast t t.clients t (broadcast_peer_updates w h t)
  reached-broadcast_peer_updates {s} {t} rs cs h =
      broadcast_peer_updates-IsBroadcast w h t (edits-DistinctKeys cs (steps-DistinctKeys rs tt))
