-- ===== src/Peer/Outbox/Delivery/Plain.antt =====
-- The sending of a message that is not sealed: an acknowledgement, an error, a key, a profile.
use nonetchat_web.Prelude.{
  String, ◌≡◌, refl, Bool, true, false, Option, none, some, List, [], ◌∷◌, ◌++◌, eq_iff, arith, inl,
  inr, Bool-cases, ap, ◌∙◌, sym, truthy, is_some, ltb, ◌&&◌,
}
use mathlib.Core.Path.{subst}
use nonetchat_web.Prelude.Dict
use nonetchat_web.Prelude.Dict.{get-set}
use nonetchat_web.Protocol.{PeerMessage, is_chat, is_size_limited}
use nonetchat_web.Peer.State.{Peer, Channel, QueuedMessage, Draw, Platform, peer_frame}
use nonetchat_web.Peer.Outbox.{
  get_queue, has_id, remove_from, store_queue, remove_id, remove_queued_message, report_sent,
  after_send, send_on, sent_on, route, send_encrypted, send_to_peer, sent, encrypt_payload,
  open_channel, push_frame, keep_for_later, enqueue_message, persist_queued_chat_message, choose_id,
  max_profile_wire,
}

-- The state after a call differs in the queues and the channels only.
abbrev pub SameButOutbox : Peer → Peer → Type 0
SameButOutbox s t =
    t ≡ record s { message_queue = t.message_queue; data_channels = t.data_channels }

module _ (peer_id : String) where
  store_queue-SameButOutbox :
      (q : List QueuedMessage) (t : Peer) → SameButOutbox t (store_queue peer_id q t)
  store_queue-SameButOutbox [] t = refl
  store_queue-SameButOutbox (x ∷ xs) t = refl

  channels-store_queue :
      (q : List QueuedMessage) (t : Peer)
      → (store_queue peer_id q t).data_channels ≡ t.data_channels
  channels-store_queue [] t = refl
  channels-store_queue (x ∷ xs) t = refl

  pub remove_queued_message-SameButOutbox :
      (id : String) (t : Peer)
      → SameButOutbox t (remove_queued_message peer_id id t)
        × ((remove_queued_message peer_id id t).data_channels ≡ t.data_channels)
  unfolding remove_queued_message
  remove_queued_message-SameButOutbox id t = go (Dict.get peer_id t.message_queue)
    where
      go :
          (o : Option (List QueuedMessage))
          → SameButOutbox t (remove_from peer_id id t o)
            × ((remove_from peer_id id t o).data_channels ≡ t.data_channels)
      go none = (refl, refl)
      go (some q) = elim (Bool-cases (has_id id q)) [
        | inl here ↦
            rw here (
              store_queue-SameButOutbox (remove_id id q) t,
              channels-store_queue (remove_id id q) t,
            )
        | inr gone ↦ rw gone (refl, refl)
      ]

  -- Where the message is not a chat message, nothing is reported after it is sent.
  after_send_plain :
      (m : PeerMessage) (id : String) (t : Peer)
      → is_chat m.kind ≡ false
      → after_send peer_id m id t ≡ t
  unfolding after_send
  after_send_plain m id t plain = go (truthy m.message_id)
    where
      go : (o : Option String) → report_sent peer_id id (is_chat m.kind) t o ≡ t
      go none = refl
      go (some k) = rw plain refl

  enqueue_message-SameButOutbox :
      (m : PeerMessage) (id : Option String) (d : Draw) (t : Peer)
      → SameButOutbox t (enqueue_message peer_id m id false d t)
  unfolding enqueue_message
  enqueue_message-SameButOutbox m id d t =
      elim (Bool-cases (has_id (choose_id id m d) (get_queue peer_id t))) [
        | inl here ↦ rw here refl
        | inr gone ↦ rw gone refl
      ]

  persist_plain :
      (m : PeerMessage) (id : String) (d : Draw) (t : Peer)
      → is_chat m.kind ≡ false
      → persist_queued_chat_message peer_id id m d.now t ≡ t
  unfolding persist_queued_chat_message
  persist_plain m id d t plain = rw plain refl

  keep_for_later-SameButOutbox :
      (m : PeerMessage) (id : String) (d : Draw) (t : Peer)
      → is_chat m.kind ≡ false
      → SameButOutbox t (keep_for_later peer_id m id d t)
  unfolding keep_for_later
  keep_for_later-SameButOutbox m id d t plain =
      let kept = enqueue_message peer_id m (some id) false d t in
      elim (Bool-cases (is_some (truthy m.message_id))) [
        | inl e ↦
            rw e
              (rw (persist_plain m id d kept plain) (enqueue_message-SameButOutbox m (some id) d t))
        | inr e ↦ rw e (enqueue_message-SameButOutbox m (some id) d t)
      ]

module _ (p : Platform) (peer_id : String) (m : PeerMessage) (d : Draw) (s : Peer)
    (plain : is_chat m.kind ≡ false) where
  abbrev id : String
  id = choose_id none m d

  unsealed : encrypt_payload p peer_id m d s ≡ some m
  unfolding encrypt_payload
  unsealed = rw plain refl

  on_channel : (dc : Channel) (b : Bool) → SameButOutbox s (sent_on peer_id m m id false d dc s b).1
  on_channel dc true = keep_for_later-SameButOutbox peer_id m id d s plain
  on_channel dc false =
      let pushed = push_frame peer_id dc (peer_frame m) s in
      rw (after_send_plain peer_id m id pushed plain)
        ((remove_queued_message-SameButOutbox peer_id id pushed).0)

  by_route : (o : Option Channel) → SameButOutbox s (route peer_id m m id false d s o).1
  unfolding send_on
  by_route none = keep_for_later-SameButOutbox peer_id m id d s plain
  by_route (some dc) = on_channel dc dc.full

  as_plain :
      send_to_peer p peer_id m false none d s ≡ send_encrypted p peer_id m id false d s (some m)
  unfolding send_to_peer
  as_plain = ap (send_encrypted p peer_id m id false d s) unsealed

  -- Whatever becomes of it, only the queues and the channels change.
  pub send_to_peer-SameButOutbox : SameButOutbox s (send_to_peer p peer_id m false none d s).1
  send_to_peer-SameButOutbox =
      subst (λ r. SameButOutbox s r.1) (sym as_plain)
        (elim (Bool-cases (is_size_limited m.kind && ltb max_profile_wire (p.wire_length m))) [
          | inl e ↦ rw e refl
          | inr e ↦ rw e (by_route (open_channel peer_id s))
        ])

  -- On an open channel with room it is the last frame.
  pub send_to_peer-sends :
      (dc : Channel)
      → is_size_limited m.kind ≡ false
      → open_channel peer_id s ≡ some dc
      → dc.full ≡ false
      → let r = send_to_peer p peer_id m false none d s in
        (r.0 ≡ sent)
        × (Dict.get peer_id r.1.data_channels
            ≡ some (record dc { frames = dc.frames ++ peer_frame m ∷ [] }))
  unfolding send_on
  send_to_peer-sends dc small ready room =
      let pushed = push_frame peer_id dc (peer_frame m) s in
      let sent_now : send_to_peer p peer_id m false none d s
          ≡ sent_on peer_id m m id false d dc s false =
        as_plain
        ∙ (rw small (
            ap (route peer_id m m id false d s) ready
            ∙ ap (sent_on peer_id m m id false d dc s) room)) in
      rw sent_now (
        refl,
        ap (Dict.get peer_id) (
              (remove_queued_message-SameButOutbox peer_id id (after_send peer_id m id pushed)).1
              ∙ ap (λ (t : Peer). t.data_channels) (after_send_plain peer_id m id pushed plain))
            ∙ (get-set peer_id peer_id (record dc { frames = dc.frames ++ peer_frame m ∷ [] })
                  s.data_channels
                ∙ ground (arith, eq_iff peer_id peer_id)),
      )
