-- ===== src/Peer/Restore/Waiting.antt =====
-- The queues after a start (src/services/PeerService.ts, lines 138-150 and 188-205).
use nonetchat_web.Prelude.{
  ℕ, ◌+◌, String, ◌≡◌, ◌≢◌, refl, true, false, not, ◌&&◌, Option, none, some, List, [], ◌∷◌, ◌++◌,
  ◌==◌, eq_iff, arith, if◌then◌else◌, or_else, truthy, truthy_of_ne, inl, inr, Bool-cases, ap, sym,
  ◌∙◌, Member, is_some, ◌⊎◌,
}
use nonetchat_web.Prelude.Dict
use nonetchat_web.Prelude.Dict.{get-set}
use nonetchat_web.Protocol.{PeerMessage, is_chat}
use nonetchat_web.Store.Types.{Db, PendingMessageRecord}
use nonetchat_web.Store.Exec.{ready, read, transaction}
use nonetchat_web.Store.Tables.{get_pending_messages}
use nonetchat_web.Peer.State.{Peer, Draw, QueuedMessage}
use nonetchat_web.Peer.Outbox.{
  get_queue, has_id, find_id, set_queue, mark_persisted, choose_id, enqueue_message,
}
use nonetchat_web.Peer.Links.{
  is_agent, ensure_chat_channel, create_peer_connection, setup_data_channel,
  setup_public_data_channel, setup_public_ctrl_data_channel,
}
use nonetchat_web.Peer.Restore.{restore_one, restore_all, restore_pending_messages}

queue-ensure :
    (j : String) (id : ℕ) (s : Peer) → (ensure_chat_channel j id s).message_queue ≡ s.message_queue
unfolding ensure_chat_channel create_peer_connection setup_data_channel setup_public_data_channel
    setup_public_ctrl_data_channel
queue-ensure j id s = ground arith

get_queue-set_queue :
    (p q : String) (ms : List QueuedMessage) (s : Peer)
    → get_queue p (set_queue q ms s) ≡ (if q == p then ms else get_queue p s)
unfolding get_queue
get_queue-set_queue p q ms s = ground (arith, get-set p q ms s.message_queue)

abbrev row_of : PendingMessageRecord → QueuedMessage
row_of r = record { id = r.id; message = r.message; persisted = true }

find_id-append :
    (id : String) (xs : List QueuedMessage) (x : QueuedMessage)
    → has_id x.id xs ≡ false
    → find_id id (xs ++ x ∷ []) ≡ (if x.id == id then some x else find_id id xs)
unfolding find_id has_id
find_id-append id [] x new = refl
find_id-append id (y ∷ ys) x new = ground (
  arith,
  find_id-append id ys x (ground (arith, new)),
  eq_iff y.id x.id,
  eq_iff y.id id,
  eq_iff x.id id,
)

find_id-mark_persisted :
    (id k : String) (xs : List QueuedMessage)
    → (k == id) ≡ false
    → find_id id (mark_persisted k xs) ≡ find_id id xs
unfolding find_id mark_persisted
find_id-mark_persisted id k [] other = refl
find_id-mark_persisted id k (y ∷ ys) other =
    ground (arith, find_id-mark_persisted id k ys other, eq_iff y.id k, eq_iff y.id id, eq_iff k id)

find_id-mark_persisted_same :
    (x : QueuedMessage) (xs : List QueuedMessage)
    → x.persisted ≡ true
    → find_id x.id xs ≡ some x
    → find_id x.id (mark_persisted x.id xs) ≡ some x
unfolding find_id mark_persisted
find_id-mark_persisted_same x [] stored there = ground (arith, there)
find_id-mark_persisted_same x (y ∷ ys) stored there = elim (Bool-cases (y.id == x.id)) [
  | inr other ↦
      rw other (rw other (find_id-mark_persisted_same x ys stored (ground (arith, there, other))))
  | inl same ↦
      let e : y ≡ x = ground (arith, there, same) in
      let own : (x.id == x.id) ≡ true = ground (arith, eq_iff x.id x.id) in
      rw e (rw own (rw own (ap (λ b. some (record x { persisted = b })) (sym stored))))
]

has_id-find_id : (id : String) (xs : List QueuedMessage) → has_id id xs ≡ is_some (find_id id xs)
unfolding has_id find_id
has_id-find_id id [] = refl
has_id-find_id id (x ∷ xs) = ground (arith, has_id-find_id id xs)

chosen : (m : PeerMessage) (d : Draw) (id : String) → id ≢ "" → choose_id (some id) m d ≡ id
chosen m d id real =
    ap (λ o. or_else (elim o [ none ↦ truthy m.message_id | some x ↦ some x ]) d.uuid)
      (truthy_of_ne id real)

module _ (r : PendingMessageRecord) (d : Draw) where
  -- The entry that a peer's queue has under the id of the record.
  abbrev entry_in : Peer → Option QueuedMessage
  entry_in s = find_id r.id (get_queue r.peer_id s)

  queue-restore_one :
      (x : PendingMessageRecord) (n : ℕ) (s : Peer) (p : String)
      → get_queue p (restore_one x n d s)
        ≡ get_queue p (enqueue_message x.peer_id x.message (some x.id) true d s)
  unfolding restore_one get_queue
  queue-restore_one x n s p =
      let s₁ = enqueue_message x.peer_id x.message (some x.id) true d s in
      elim (Bool-cases (is_chat x.message.kind && not (is_agent x.peer_id))) [
        | inl calls ↦ rw calls (rw (queue-ensure x.peer_id n s₁) refl)
        | inr waits ↦ rw waits refl
      ]

  -- What the queue of the record's peer is after a queue `q` was set.
  entry-set_queue :
      (q : String) (ms : List QueuedMessage) (s : Peer)
      → find_id r.id ms ≡ find_id r.id (get_queue q s)
      → entry_in (set_queue q ms s) ≡ entry_in s
  entry-set_queue q ms s same =
      ap (find_id r.id) (get_queue-set_queue r.peer_id q ms s)
      ∙ (elim (Bool-cases (q == r.peer_id)) [
        | inr other ↦ rw other refl
        | inl e ↦ rw e (same ∙ ap (λ p. find_id r.id (get_queue p s)) ((eq_iff q r.peer_id).0 e))
      ])

  entry-other :
      (x : PendingMessageRecord) (n : ℕ) (s : Peer)
      → x.id ≢ ""
      → x.id ≢ r.id
      → entry_in (restore_one x n d s) ≡ entry_in s
  unfolding enqueue_message
  entry-other x n s real other =
      let q = get_queue x.peer_id s in
      let differs : (x.id == r.id) ≡ false = ground (arith, eq_iff x.id r.id, other) in
      ap (find_id r.id) (queue-restore_one x n s r.peer_id)
      ∙ (rw (chosen x.message d x.id real) (elim (Bool-cases (has_id x.id q)) [
        | inl old ↦ rw old (
            entry-set_queue x.peer_id (mark_persisted x.id q) s
              (find_id-mark_persisted r.id x.id q differs))
        | inr new ↦ rw new (
            entry-set_queue x.peer_id (q ++ row_of x ∷ []) s
              (find_id-append r.id q (row_of x) new ∙ rw differs refl))
      ]))

  entry-own :
      (n : ℕ) (s : Peer)
      → r.id ≢ ""
      → (entry_in s ≡ none) ⊎ (entry_in s ≡ some (row_of r))
      → entry_in (restore_one r n d s) ≡ some (row_of r)
  unfolding enqueue_message
  entry-own n s real before =
      let q = get_queue r.peer_id s in
      let there : (ms : List QueuedMessage) → get_queue r.peer_id (set_queue r.peer_id ms s) ≡ ms =
        λ ms.
          get_queue-set_queue r.peer_id r.peer_id ms s
          ∙ ground (arith, eq_iff r.peer_id r.peer_id) in
      ap (find_id r.id) (queue-restore_one r n s r.peer_id)
      ∙ (rw (chosen r.message d r.id real) (elim before [
        | inl new ↦
            let none_has : has_id r.id q ≡ false = has_id-find_id r.id q ∙ ap is_some new in
            rw none_has (
              ap (find_id r.id) (there (q ++ row_of r ∷ []))
              ∙ find_id-append r.id q (row_of r) none_has
              ∙ ground (arith, eq_iff r.id r.id))
        | inr old ↦
            let has : has_id r.id q ≡ true = has_id-find_id r.id q ∙ ap is_some old in
            rw has (
              ap (find_id r.id) (there (mark_persisted r.id q))
              ∙ find_id-mark_persisted_same (row_of r) q refl old)
      ]))

  -- Each record has an id, and none but `r` has its id.
  abbrev pub IsAlone : List PendingMessageRecord → Type 0
  IsAlone [] = Unit
  IsAlone (x ∷ xs) = (x.id ≢ "") × ((x ≡ r) ⊎ (x.id ≢ r.id)) × IsAlone xs

  entry-restore_all :
      (rs : List PendingMessageRecord) (n : ℕ) (s : Peer)
      → IsAlone rs
      → (Member r rs × (entry_in s ≡ none)) ⊎ (entry_in s ≡ some (row_of r))
      → entry_in (restore_all rs n d s) ≡ some (row_of r)
  unfolding restore_all
  entry-restore_all [] n s alone (inl (m, e)) = elim m [ ]
  entry-restore_all [] n s alone (inr e) = e
  entry-restore_all (x ∷ rs) n s (real, which, alone) before = elim which [
    | inl same ↦ entry-restore_all rs (n + 3) (restore_one x n d s) alone (
        inr (
          ap (λ y. entry_in (restore_one y n d s)) same
          ∙ entry-own n s (λ e. real (ap (λ (y : PendingMessageRecord). y.id) same ∙ e))
              (missing before)))
    | inr other ↦
        entry-restore_all rs (n + 3) (restore_one x n d s) alone
          (later before other (entry-other x n s real other))
  ]
    where
      missing :
          (Member r (x ∷ rs) × (entry_in s ≡ none)) ⊎ (entry_in s ≡ some (row_of r))
          → (entry_in s ≡ none) ⊎ (entry_in s ≡ some (row_of r))
      missing (inl (m, e)) = inl e
      missing (inr e) = inr e

      later :
          (Member r (x ∷ rs) × (entry_in s ≡ none)) ⊎ (entry_in s ≡ some (row_of r))
          → x.id ≢ r.id
          → entry_in (restore_one x n d s) ≡ entry_in s
          → (Member r rs × (entry_in (restore_one x n d s) ≡ none))
            ⊎ (entry_in (restore_one x n d s) ≡ some (row_of r))
      later (inr e) other kept = inr (kept ∙ e)
      later (inl (inr m, e)) other kept = inl (m, kept ∙ e)
      later (inl (inl m, e)) other kept =
          absurd (other (ap (λ (y : PendingMessageRecord). y.id) (sym m)))

-- On an open database where nothing aborts, every stored message waits, after a start with empty
-- queues, in the queue of its peer: under its id, with its content, and marked as stored. The ids of
-- the stored messages are not empty, and no other one has the id of this one.
pub find_id-restore_pending_messages :
    (n : ℕ) (d : Draw) (s : Peer) (db : Db) (r : PendingMessageRecord)
    → s.idb ≡ ready db
    → s.message_queue ≡ []
    → Member r (Dict.values db.pending_messages)
    → IsAlone r d (Dict.values db.pending_messages)
    → find_id r.id (get_queue r.peer_id (restore_pending_messages n d s))
      ≡ some (record { id = r.id; message = r.message; persisted = true })
unfolding restore_pending_messages get_pending_messages read transaction
find_id-restore_pending_messages n d s db r opened empty stored alone = rw opened (
    entry-restore_all r d (Dict.values db.pending_messages) n (record s { idb = ready db }) alone
      (inl (stored, unfold get_queue find_id Dict.get in rw empty refl)))
