-- ===== src/Peer/Outbox/Delivery/Accounted.antt =====
-- What becomes of a message that is sent for the first time (src/services/PeerService.ts, lines 1300-1355).
use mathlib.Core.Path.{subst}
use nonetchat_web.Prelude.{
  ℕ, String, ◌≡◌, refl, ◌≢◌, Bool, true, false, ◌&&◌, Option, none, some, List, [], ◌∷◌, ◌++◌,
  eq_iff, arith, ltb, or_else, inl, inr, Option-cases, Bool-cases, truthy, truthy_of_ne, is_some,
  ap, ◌∙◌,
}
use nonetchat_web.Prelude.Dict
use nonetchat_web.Prelude.Dict.{get-set, get-delete}
use nonetchat_web.Protocol.{PeerMessage, is_chat, is_size_limited}
use nonetchat_web.Store.Exec.{Result, ok, err}
use nonetchat_web.Store.Tables.{save_pending_message}
use nonetchat_web.Peer.State.{Peer, Channel, QueuedMessage, Draw, Platform, peer_frame}
use nonetchat_web.Peer.Outbox.{
  get_queue, has_id, find_id, mark_saved, persist_entry, pending_record,
  persist_queued_chat_message, keep_for_later, mark_persisted, set_queue, choose_id,
  enqueue_message, send_on, sent_on, route, send_encrypted, send_to_peer, Outcome, sent, queued,
  threw, no_shared_secret, too_large, send_failed, encrypt_payload, open_channel, max_profile_wire,
}
use nonetchat_web.Peer.Outbox.Delivery.{channel-sent}
use nonetchat_web.Peer.Outbox.Queue.{has_id-append, has_id-mark_persisted}

-- The message waits in the peer's queue under its id.
pub has_id-set_queue :
    (id peer_id : String) (q : List QueuedMessage) (s : Peer)
    → has_id id (get_queue peer_id (set_queue peer_id q s)) ≡ has_id id q
unfolding get_queue
has_id-set_queue id peer_id q s =
    ground (arith, get-set peer_id peer_id q s.message_queue, eq_iff peer_id peer_id)

module _ (peer_id : String) (m : PeerMessage) (d : Draw) where
  has_id-enqueue_message :
      (queue_id : Option String) (s : Peer)
      → has_id
          (choose_id queue_id m d)
          (get_queue peer_id (enqueue_message peer_id m queue_id false d s))
        ≡ true
  unfolding enqueue_message
  has_id-enqueue_message queue_id s =
      let id : String = choose_id queue_id m d in
      let queue = get_queue peer_id s in
      let row : QueuedMessage = record { id = id; message = m; persisted = false } in
      elim (Bool-cases (has_id id queue)) [
        | inl old ↦ rw old old
        | inr new ↦ rw new (
            has_id-set_queue id peer_id (queue ++ row ∷ []) s
            ∙ (has_id-append id queue (row ∷ []) ∙ unfold has_id in ground (arith, eq_iff id id)))
      ]

  has_id-persist_entry :
      (id k : String) (now : ℕ) (s : Peer) (o : Option QueuedMessage)
      → has_id id (get_queue peer_id (persist_entry peer_id k m now s o))
        ≡ has_id id (get_queue peer_id s)
  has_id-persist_entry id k now s none = refl
  has_id-persist_entry id k now s (some x) = elim (Bool-cases x.persisted) [
    | inl already ↦ rw already
    | inr fresh ↦ rw fresh (
        saved (save_pending_message (pending_record peer_id k m now) s.idb).0
          (record s { idb = (save_pending_message (pending_record peer_id k m now) s.idb).1 }) refl)
  ]
    where
      saved :
          (r : Result (Unit {0})) (t : Peer)
          → t.message_queue ≡ s.message_queue
          → has_id id (get_queue peer_id (mark_saved peer_id k r t))
            ≡ has_id id (get_queue peer_id s)
      saved (ok _) t same =
          has_id-set_queue id peer_id (mark_persisted k (get_queue peer_id t)) t
          ∙ (has_id-mark_persisted id k (get_queue peer_id t) ∙ unfold get_queue in rw same)
      saved (err _) t same = unfold get_queue in rw same

  has_id-keep_for_later :
      (id : String) (s : Peer)
      → has_id (choose_id (some id) m d) (get_queue peer_id (keep_for_later peer_id m id d s))
        ≡ true
  unfolding keep_for_later persist_queued_chat_message
  has_id-keep_for_later id s =
      let waiting = has_id-enqueue_message (some id) s in
      let s₁ = enqueue_message peer_id m (some id) false d s in
      elim (Bool-cases (is_some (truthy m.message_id))) [
        | inl named ↦ rw named (elim (Bool-cases (is_chat m.kind)) [
          | inl chat ↦ rw chat (
              has_id-persist_entry (choose_id (some id) m d) id d.now s₁
                (find_id id (get_queue peer_id s₁))
              ∙ waiting)
          | inr other ↦ rw other waiting
        ])
        | inr unnamed ↦ rw unnamed waiting
      ]

truthy-ne : (o : Option String) (x : String) → truthy o ≡ some x → x ≢ ""
truthy-ne none x e blank = cc
truthy-ne (some y) x e blank = ground (arith, eq_iff y "")

-- With a fresh identifier at hand the chosen one is never blank.
choose_id-ne :
    (queued_id : Option String) (m : PeerMessage) (d : Draw)
    → d.uuid ≢ ""
    → choose_id queued_id m d ≢ ""
choose_id-ne queued_id m d real blank = elim (Option-cases (truthy queued_id)) [
  | inr (x, e) ↦ truthy-ne queued_id x e (ground arith)
  | inl none₁ ↦ elim (Option-cases (truthy m.message_id)) [
    | inr (x, e) ↦ truthy-ne m.message_id x e (ground arith)
    | inl none₂ ↦ real (ground arith)
  ]
]

-- What the caller of `sendToPeer` learns, by the outcome `o` in the state `s'`.
abbrev pub IsAccounted :
    Platform → String → PeerMessage → String → Draw → Peer → Outcome → Peer → Type 0
IsAccounted p peer_id m id d s sent s' =
    (dc : Channel) × (out : PeerMessage) × (open_channel peer_id s ≡ some dc)
    × (encrypt_payload p peer_id m d s ≡ some out)
    × (Dict.get peer_id s'.data_channels
        ≡ some (record dc { frames = dc.frames ++ peer_frame out ∷ [] }))
IsAccounted p peer_id m id d s queued s' = has_id id (get_queue peer_id s') ≡ true
IsAccounted p peer_id m id d s (threw send_failed) s' = has_id id (get_queue peer_id s') ≡ true
IsAccounted p peer_id m id d s (threw no_shared_secret) s' =
    (s' ≡ s) × (is_chat m.kind ≡ true) × (Dict.get peer_id s.shared_secrets ≡ none)
IsAccounted p peer_id m id d s (threw too_large) s' = (s' ≡ s) × (is_size_limited m.kind ≡ true)

module _ (p : Platform) (peer_id : String) (m : PeerMessage) (d : Draw) (s : Peer) where
  waits :
      (id : String)
      → id ≢ ""
      → has_id id (get_queue peer_id (keep_for_later peer_id m id d s)) ≡ true
  waits id real =
      subst (λ j. has_id j (get_queue peer_id (keep_for_later peer_id m id d s)) ≡ true)
        (ap (λ o. or_else (elim o [ none ↦ truthy m.message_id | some x ↦ some x ]) d.uuid)
          (truthy_of_ne id real))
        (has_id-keep_for_later peer_id m d id s)

  no_secret :
      encrypt_payload p peer_id m d s ≡ none
      → (is_chat m.kind ≡ true) × (Dict.get peer_id s.shared_secrets ≡ none)
  unfolding encrypt_payload
  no_secret e = ground arith

  -- No message is dropped unseen by a first sending: either it went out, as `encrypt_payload` gives
  -- it, as the last frame of the peer's open channel, or it waits in the peer's queue under its id
  -- (also where the channel threw), or the state is untouched and the error says why, a missing
  -- shared secret for a chat message or an oversized profile message. The drawn UUID is not empty.
  pub send_to_peer-IsAccounted :
      (queued_id : Option String)
      → d.uuid ≢ ""
      → IsAccounted p peer_id m
          (choose_id queued_id m d)
          d
          s
          (send_to_peer p peer_id m false queued_id d s).0
          (send_to_peer p peer_id m false queued_id d s).1
  unfolding send_to_peer send_on
  send_to_peer-IsAccounted queued_id real = encrypted (encrypt_payload p peer_id m d s) refl
    where
      id : String
      id = choose_id queued_id m d

      there : has_id id (get_queue peer_id (keep_for_later peer_id m id d s)) ≡ true
      there = waits id (choose_id-ne queued_id m d real)

      on_channel :
          (o : PeerMessage) (dc : Channel) (full : Bool)
          → encrypt_payload p peer_id m d s ≡ some o
          → open_channel peer_id s ≡ some dc
          → let r = sent_on peer_id m o id false d dc s full in
            IsAccounted p peer_id m id d s r.0 r.1
      on_channel o dc true sealed ready = there
      on_channel o dc false sealed ready =
          (dc, o, ready, sealed, channel-sent peer_id m id dc (peer_frame o) s)

      routed :
          (o : PeerMessage) (c : Option Channel)
          → encrypt_payload p peer_id m d s ≡ some o
          → open_channel peer_id s ≡ c
          → let r = route peer_id m o id false d s c in IsAccounted p peer_id m id d s r.0 r.1
      routed o none sealed ready = there
      routed o (some dc) sealed ready = on_channel o dc dc.full sealed ready

      encrypted :
          (e : Option PeerMessage)
          → encrypt_payload p peer_id m d s ≡ e
          → let r = send_encrypted p peer_id m id false d s e in
            IsAccounted p peer_id m id d s r.0 r.1
      encrypted none e = let (chat, missing) = no_secret e in (refl, chat, missing)
      encrypted (some o) e =
          elim (Bool-cases (is_size_limited m.kind && ltb max_profile_wire (p.wire_length o))) [
            | inl big ↦ rw big (refl, ground arith)
            | inr fits ↦ rw fits (routed o (open_channel peer_id s) e refl)
          ]
