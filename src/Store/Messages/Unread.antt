-- ===== src/Store/Messages/Unread.antt =====
-- What saving and reading messages does to the stored messages and to the unread counts.
use nonetchat_web.Prelude.{
  ℕ, ◌+◌, String, ◌≡◌, Option, none, some, List, [], ◌∷◌, ◌==◌, eq_iff, arith, if◌then◌else◌,
}
use nonetchat_web.Prelude.Dict
use nonetchat_web.Prelude.Dict.{get-put}
use nonetchat_web.Store.Types.{StoredMessage, StoredConversation, Db}
use nonetchat_web.Store.Exec.{ok, ready, read, write, ◌>>=◌}
use nonetchat_web.Store.Messages.{
  store_message, save_message, get_message_by_id, updated_conversation, mark_conversation_as_read,
  change_conversation, get_conversation,
}

abbrev pub unread_of : Option StoredConversation → ℕ
unread_of none = 0
unread_of (some c) = c.unread_count

abbrev pub unread : String → Db → ℕ
unread cid db = unread_of (Dict.get cid db.conversations)

-- Saves a run of messages, each with the conversation that it belongs to.
pub store_all : ℕ → List (StoredMessage × String) → Db → Db
store_all now [] db = db
store_all now ((m, cid) ∷ ms) db = store_all now ms (store_message now m cid db)

-- Those of the run that the other side of conversation `cid` has sent.
pub incoming : String → List (StoredMessage × String) → ℕ
incoming cid [] = 0
incoming cid ((m, c) ∷ ms) =
    (if c == cid then (if m.sender_id == c then 1 else 0) else 0) + incoming cid ms

unread-store_message :
    (now : ℕ) (m : StoredMessage) (c cid : String) (db : Db)
    → unread cid (store_message now m c db)
      ≡ unread cid db + (if c == cid then (if m.sender_id == c then 1 else 0) else 0)
unfolding store_message
unread-store_message now m c cid db = ground (
  arith,
  eq_iff c cid,
  get-put cid c (updated_conversation now m c (Dict.get c db.conversations)) db.conversations,
)

-- Saving any run of messages adds to the unread count of a conversation the number of its messages
-- that the other side has sent, and nothing for one's own.
pub unread-store_all :
    (now : ℕ) (ms : List (StoredMessage × String)) (cid : String) (db : Db)
    → unread cid (store_all now ms db) ≡ unread cid db + incoming cid ms
unfolding store_all incoming
unread-store_all now [] cid db = omega arith
unread-store_all now ((m, c) ∷ ms) cid db = omega (
  arith,
  unread-store_all now ms cid (store_message now m c db),
  unread-store_message now m c cid db,
)

-- On an open database a saved message is read back by its id, with its conversation filled in, and
-- every other id reads as before.
pub get_message_by_id-save_message :
    (now : ℕ) (m : StoredMessage) (cid id : String) (db : Db)
    → get_message_by_id id (save_message now m cid (ready db)).1 ≡ (
      ok (
          if m.id == id
          then some (record m { conversation_id = some cid })
          else Dict.get id db.messages),
      (save_message now m cid (ready db)).1,
    )
unfolding get_message_by_id save_message store_message write read
get_message_by_id-save_message now m cid id db = rw get-put

-- On an open database, reading a conversation sets its own count to 0 and leaves the others.
pub unread-mark_conversation_as_read :
    (cid other : String) (db : Db)
    → (c : StoredConversation) → Dict.get cid db.conversations ≡ some c
    → c.id ≡ cid
    → (db' : Db) × (mark_conversation_as_read cid (ready db) ≡ (ok tt, ready db'))
      × (unread other db' ≡ (if cid == other then 0 else unread other db))
unfolding mark_conversation_as_read change_conversation get_conversation ◌>>=◌ read write
unread-mark_conversation_as_read cid other db c found same = (
  record db { conversations = Dict.put c.id (record c { unread_count = 0 }) db.conversations },
  rw found,
  ground (
    arith,
    eq_iff cid other,
    get-put other c.id (record c { unread_count = 0 }) db.conversations,
  ),
)
