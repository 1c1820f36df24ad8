-- ===== src/Store/Deletion.antt =====
-- Deleting messages and conversations (src/services/IndexedDBService.ts, lines 525-633).
pub mod Newest
pub mod Cascade
use nonetchat_web.Prelude.{
  String, ◌≡◌, Option, none, some, List, [], ◌∷◌, ◌==◌, if◌then◌else◌, map, head?,
}
use nonetchat_web.Prelude.Dict
use nonetchat_web.Prelude.Dict.{Dict}
use nonetchat_web.Prelude.Sort.{sort_by, descending}
use nonetchat_web.Store.Types.{StoredMessage, StoredConversation, Db}
use nonetchat_web.Store.Exec.{Exec, read, write, pure, ◌>>=◌, ◌>>◌}
use nonetchat_web.Store.Messages.{of_conversation, get_conversation, in_conversation}

unfoldable pub delete_file_blob : String → Exec (Unit {0})
delete_file_blob id = write (λ db. record db { file_blobs = Dict.delete id db.file_blobs })

-- `sort((a, b) => b.timestamp - a.timestamp)[0]`
unfoldable pub newest : String → Db → Option StoredMessage
newest cid db = head? (sort_by (descending (λ m. m.timestamp)) (of_conversation cid db))

abbrev drop_conversation : String → Db → Db
drop_conversation cid db = record db { conversations = Dict.delete cid db.conversations }

abbrev show_last : String → StoredConversation → StoredMessage → Db → Db
show_last cid conv last db = record db {
  conversations =
      Dict.put conv.id
        (record conv {
          last_message = some (in_conversation cid last);
          updated_at = last.timestamp;
        })
        db.conversations;
}

refresh_with : String → Option StoredMessage → Option StoredConversation → Exec (Unit {0})
refresh_with cid last none = pure tt
refresh_with cid none (some conv) = write (drop_conversation cid)
refresh_with cid (some m) (some conv) = write (show_last cid conv m)

-- `refreshConversationAfterDelete`: three transactions.
unfoldable pub refresh_conversation_after_delete : String → Exec (Unit {0})
unfolding newest refresh_with
refresh_conversation_after_delete cid = do
  last ← read (newest cid)
  conv ← get_conversation cid
  refresh_with cid last conv

unfoldable pub drop_message : String → Db → Db
drop_message id db = record db {
  messages = Dict.delete id db.messages;
  file_blobs = Dict.delete id db.file_blobs;
}

refresh_of : Option StoredMessage → Exec (Unit {0})
refresh_of none = pure tt
refresh_of (some m) = elim m.conversation_id [
  | none ↦ pure tt
  | some cid ↦ if cid == "" then pure tt else refresh_conversation_after_delete cid
]

unfoldable pub delete_message : String → Exec (Unit {0})
unfolding drop_message refresh_of
delete_message id = do
  msg ← read (λ db. Dict.get id db.messages)
  write (drop_message id)
  refresh_of msg

unfoldable pub delete_all {ℓ} : {V : Type ℓ} → List String → Dict V → Dict V
delete_all [] m = m
delete_all (k ∷ ks) m = delete_all ks (Dict.delete k m)

-- The cursor loop of `deleteConversation`: each message of the conversation, and its blob.
unfoldable pub drop_messages_of : String → Db → Db
unfolding delete_all
drop_messages_of cid db =
    let ids = map (λ m. m.id) (of_conversation cid db) in
    record db { messages = delete_all ids db.messages; file_blobs = delete_all ids db.file_blobs }

unfoldable pub delete_conversation : String → Exec (Unit {0})
unfolding drop_messages_of
delete_conversation cid = do write (drop_messages_of cid); refresh_conversation_after_delete cid
