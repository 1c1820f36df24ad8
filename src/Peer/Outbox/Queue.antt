-- ===== src/Peer/Outbox/Queue.antt =====
-- The well-formedness of the queues of the outbox.
use nonetchat_web.Prelude.{
  ℕ, String, ◌≡◌, refl, truthy, is_some, ◌≢◌, Bool, true, false, not, ◌&&◌, ◌||◌, Option, none,
  some, List, [], ◌∷◌, ◌++◌, ◌==◌, eq_iff, arith, if◌then◌else◌, inl, inr, ap, Option-cases,
  Bool-cases,
}
use nonetchat_web.Prelude.Dict
use nonetchat_web.Prelude.Dict.{get-set, get-delete}
use nonetchat_web.Protocol.{PeerMessage, is_chat}
use nonetchat_web.Store.Exec.{Result, ok, err}
use nonetchat_web.Store.Tables.{save_pending_message}
use nonetchat_web.Peer.State.{Peer, QueuedMessage, Draw}
use nonetchat_web.Peer.Outbox.{
  get_queue, has_id, find_id, mark_saved, persist_entry, persist_queued_chat_message,
  keep_for_later, mark_persisted, remove_id, remove_from, pending_record, set_queue, store_queue,
  choose_id, enqueue_message, remove_queued_message,
}

abbrev pub DistinctIds : List QueuedMessage → Type 0
DistinctIds [] = Unit
DistinctIds (q ∷ qs) = (has_id q.id qs ≡ false) × DistinctIds qs

pub record IsOutbox (s : Peer) : Type 0 where
  pub queues :
      (peer_id : String) (queue : List QueuedMessage)
      → Dict.get peer_id s.message_queue ≡ some queue
      → DistinctIds queue × (queue ≢ [])

pub has_id-append :
    (id : String) (xs ys : List QueuedMessage)
    → has_id id (xs ++ ys) ≡ (has_id id xs || has_id id ys)
unfolding has_id
has_id-append id [] ys = refl
has_id-append id (q ∷ qs) ys = ground (arith, has_id-append id qs ys)

pub has_id-mark_persisted :
    (id k : String) (q : List QueuedMessage) → has_id id (mark_persisted k q) ≡ has_id id q
unfolding has_id mark_persisted
has_id-mark_persisted id k [] = refl
has_id-mark_persisted id k (q ∷ qs) = ground (arith, has_id-mark_persisted id k qs)

pub has_id-remove_id :
    (id k : String) (q : List QueuedMessage)
    → DistinctIds q
    → has_id id (remove_id k q) ≡ (not (k == id) && has_id id q)
unfolding has_id remove_id
has_id-remove_id id k [] h = ground arith
has_id-remove_id id k (q ∷ qs) h =
    ground (arith, has_id-remove_id id k qs h.1, eq_iff q.id k, eq_iff q.id id, eq_iff k id)

DistinctIds-concat :
    (xs : List QueuedMessage) (q : QueuedMessage)
    → DistinctIds xs
    → has_id q.id xs ≡ false
    → DistinctIds (xs ++ q ∷ [])
unfolding has_id
DistinctIds-concat [] q h new = (refl, tt)
DistinctIds-concat (x ∷ xs) q h new = (
  ground (arith, has_id-append x.id xs (q ∷ []), eq_iff x.id q.id, eq_iff q.id x.id),
  DistinctIds-concat xs q h.1 (ground arith),
)

DistinctIds-mark_persisted :
    (k : String) (q : List QueuedMessage) → DistinctIds q → DistinctIds (mark_persisted k q)
unfolding mark_persisted
DistinctIds-mark_persisted k [] h = tt
DistinctIds-mark_persisted k (q ∷ qs) h =
    ground (arith, DistinctIds-mark_persisted k qs h.1, has_id-mark_persisted q.id k qs)

DistinctIds-remove_id :
    (k : String) (q : List QueuedMessage) → DistinctIds q → DistinctIds (remove_id k q)
unfolding remove_id
DistinctIds-remove_id k [] h = tt
DistinctIds-remove_id k (q ∷ qs) h =
    ground (arith, DistinctIds-remove_id k qs h.1, has_id-remove_id q.id k qs h.1)

mark_persisted-ne : (k : String) (q : List QueuedMessage) → q ≢ [] → mark_persisted k q ≢ []
unfolding mark_persisted
mark_persisted-ne k [] h e = h refl
mark_persisted-ne k (q ∷ qs) h e = ground arith

concat-ne : (xs : List QueuedMessage) (q : QueuedMessage) → (xs ++ q ∷ []) ≢ []
concat-ne [] q e = cc
concat-ne (x ∷ xs) q e = cc

module _ (s : Peer) (out : IsOutbox s) where
  pub DistinctIds-get_queue : (peer_id : String) → DistinctIds (get_queue peer_id s)
  unfolding get_queue
  DistinctIds-get_queue peer_id = elim (Option-cases (Dict.get peer_id s.message_queue)) [
    | inl e ↦ rw e tt
    | inr (q, e) ↦ rw e (out.queues peer_id q e).0
  ]

  set_queue-IsOutbox :
      (peer_id : String) (q : List QueuedMessage)
      → DistinctIds q
      → q ≢ []
      → IsOutbox (set_queue peer_id q s)
  set_queue-IsOutbox peer_id q d filled = record {
    queues = λ j found h. elim (Bool-cases (peer_id == j)) [
      | inl same ↦
          let e : q ≡ found = ground (arith, get-set j peer_id q s.message_queue) in
          (rw (← e) d, rw (← e) filled)
      | inr other ↦ out.queues j found (ground (arith, get-set j peer_id q s.message_queue))
    ];
  }

  store_queue-IsOutbox :
      (peer_id : String) (q : List QueuedMessage)
      → DistinctIds q
      → IsOutbox (store_queue peer_id q s)
  store_queue-IsOutbox peer_id [] d = record {
    queues = λ j found h. out.queues j found (ground (arith, get-delete j peer_id s.message_queue));
  }
  store_queue-IsOutbox peer_id (x ∷ xs) d = set_queue-IsOutbox peer_id (x ∷ xs) d (λ e. cc)

  pub enqueue_message-IsOutbox :
      (peer_id : String) (m : PeerMessage) (queue_id : Option String) (persisted : Bool) (d : Draw)
      → IsOutbox (enqueue_message peer_id m queue_id persisted d s)
  unfolding enqueue_message
  enqueue_message-IsOutbox peer_id m queue_id persisted d =
      let queue = get_queue peer_id s in
      let id : String = choose_id queue_id m d in
      let row : QueuedMessage = record { id = id; message = m; persisted = persisted } in
      elim (Bool-cases (has_id id queue)) [
        | inl old ↦ rw old (again persisted (mark_persisted id queue) (marked id) (filled id old))
        | inr new ↦ rw new (
            set_queue-IsOutbox peer_id (queue ++ row ∷ [])
              (DistinctIds-concat queue row (DistinctIds-get_queue peer_id) new)
              (concat-ne queue row))
      ]
    where
      marked : (id : String) → DistinctIds (mark_persisted id (get_queue peer_id s))
      marked id =
          DistinctIds-mark_persisted id (get_queue peer_id s) (DistinctIds-get_queue peer_id)

      filled :
          (id : String)
          → has_id id (get_queue peer_id s) ≡ true
          → mark_persisted id (get_queue peer_id s) ≢ []
      filled id old =
          mark_persisted-ne id (get_queue peer_id s)
            (λ e. unfold has_id in ground (arith, ap (has_id id) e))

      again :
          (b : Bool) (q : List QueuedMessage)
          → DistinctIds q
          → q ≢ []
          → IsOutbox (if b then set_queue peer_id q s else s)
      again true q dq f = set_queue-IsOutbox peer_id q dq f
      again false q dq f = out

  pub remove_queued_message-IsOutbox :
      (peer_id queue_id : String) → IsOutbox (remove_queued_message peer_id queue_id s)
  unfolding remove_queued_message
  remove_queued_message-IsOutbox peer_id queue_id = go (Dict.get peer_id s.message_queue) refl
    where
      go :
          (o : Option (List QueuedMessage))
          → Dict.get peer_id s.message_queue ≡ o
          → IsOutbox (remove_from peer_id queue_id s o)
      go none e = out
      go (some q) e = elim (Bool-cases (has_id queue_id q)) [
        | inl here ↦ rw here (
            store_queue-IsOutbox peer_id (remove_id queue_id q)
              (DistinctIds-remove_id queue_id q (out.queues peer_id q e).0))
        | inr gone ↦ rw gone out
      ]

  pub with_queues_of-IsOutbox : (t : Peer) → t.message_queue ≡ s.message_queue → IsOutbox t
  with_queues_of-IsOutbox t e = record { queues = λ j q h. out.queues j q (rw (← e) h) }

find_id-ne :
    (id : String) (q : List QueuedMessage) (x : QueuedMessage) → find_id id q ≡ some x → q ≢ []
unfolding find_id
find_id-ne id [] x h e = cc
find_id-ne id (y ∷ ys) x h e = cc

module _ (s : Peer) (out : IsOutbox s) where
  mark_saved-IsOutbox :
      (peer_id id : String) (r : Result (Unit {0}))
      → get_queue peer_id s ≢ []
      → IsOutbox (mark_saved peer_id id r s)
  mark_saved-IsOutbox peer_id id (ok _) filled =
      set_queue-IsOutbox s out peer_id (mark_persisted id (get_queue peer_id s))
        (DistinctIds-mark_persisted id (get_queue peer_id s) (DistinctIds-get_queue s out peer_id))
        (mark_persisted-ne id (get_queue peer_id s) filled)
  mark_saved-IsOutbox peer_id id (err _) filled = out

module _ (s : Peer) (out : IsOutbox s) (peer_id id : String) (m : PeerMessage) (now : ℕ) where
  persist_entry-IsOutbox :
      (o : Option QueuedMessage)
      → find_id id (get_queue peer_id s) ≡ o
      → IsOutbox (persist_entry peer_id id m now s o)
  unfolding get_queue
  persist_entry-IsOutbox none e = out
  persist_entry-IsOutbox (some x) e = elim (Bool-cases x.persisted) [
    | inl already ↦ rw already out
    | inr fresh ↦
        let saved = save_pending_message (pending_record peer_id id m now) s.idb in
        let s' : Peer = record s { idb = saved.1 } in
        rw fresh (
          mark_saved-IsOutbox s' (with_queues_of-IsOutbox s out s' refl) peer_id id saved.0
            (find_id-ne id (get_queue peer_id s) x e))
  ]

  pub persist-IsOutbox : IsOutbox (persist_queued_chat_message peer_id id m now s)
  unfolding persist_queued_chat_message
  persist-IsOutbox = elim (Bool-cases (is_chat m.kind)) [
    | inl chat ↦ rw chat (persist_entry-IsOutbox (find_id id (get_queue peer_id s)) refl)
    | inr other ↦ rw other out
  ]

module _ (s : Peer) (out : IsOutbox s) (peer_id : String) (m : PeerMessage) where
  pub keep_for_later-IsOutbox :
      (id : String) (d : Draw) → IsOutbox (keep_for_later peer_id m id d s)
  unfolding keep_for_later
  keep_for_later-IsOutbox id d =
      let queued = enqueue_message-IsOutbox s out peer_id m (some id) false d in
      elim (Bool-cases (is_some (truthy m.message_id))) [
        | inl named ↦ rw named (persist-IsOutbox _ queued peer_id id m d.now)
        | inr unnamed ↦ rw unnamed queued
      ]
