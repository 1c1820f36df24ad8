-- ===== src/Store/Messages.antt =====
-- Messages and conversations (src/services/IndexedDBService.ts, lines 305-393 and 504-523, 636-672,
-- 861-885).
pub mod Unread
use nonetchat_web.Prelude.{
  ℕ, ◌+◌, ◌-◌, String, ◌≡◌, Bool, true, false, Option, none, some, List, [], ◌∷◌, ◌==◌, ltb,
  if◌then◌else◌, or_else, filter, length, drop,
}
use nonetchat_web.Prelude.Dict
use nonetchat_web.Prelude.Sort.{sort_by, ascending, descending}
use nonetchat_web.Protocol.{Gender}
use nonetchat_web.Store.Types.{Status, StoredMessage, StoredConversation, FileData, Db}
use nonetchat_web.Store.Exec.{Exec, read, write, pure, ◌>>=◌}

-- `conversation?.participantName || 'Unknown User'`: an empty name counts as none.
abbrev or_text : String → String → String
or_text s d = if s == "" then d else s

abbrev pub in_conversation : String → StoredMessage → StoredMessage
in_conversation cid m = record m { conversation_id = some cid }

unfoldable pub updated_conversation :
    ℕ → StoredMessage → String → Option StoredConversation → StoredConversation
updated_conversation now m cid old = record {
  id = cid;
  participant_id = cid;
  participant_name = elim old [
    | none ↦ "Unknown User"
    | some c ↦ or_text c.participant_name "Unknown User"
  ];
  participant_avatar = elim old [ none ↦ "" | some c ↦ c.participant_avatar ];
  participant_age = elim old [ none ↦ none | some c ↦ c.participant_age ];
  participant_gender = elim old [ none ↦ none | some c ↦ c.participant_gender ];
  last_message = some (in_conversation cid m);
  unread_count =
      elim old [ none ↦ 0 | some c ↦ c.unread_count ] + (if m.sender_id == cid then 1 else 0);
  updated_at = now;
}

-- The body of the transaction of `saveMessage`; `now` is `Date.now()`.
unfoldable pub store_message : ℕ → StoredMessage → String → Db → Db
unfolding updated_conversation
store_message now m cid db = record db {
  conversations =
      Dict.put cid (updated_conversation now m cid (Dict.get cid db.conversations))
        db.conversations;
  messages = Dict.put m.id (in_conversation cid m) db.messages;
}

unfoldable pub save_message : ℕ → StoredMessage → String → Exec (Unit {0})
save_message now m cid = write (store_message now m cid)

abbrev pub has_conversation : String → Option String → Bool
has_conversation cid none = false
has_conversation cid (some c) = c == cid

-- `index('conversationId').getAll(cid)`: in the order of the primary keys.
unfoldable pub of_conversation : String → Db → List StoredMessage
of_conversation cid db =
    filter (λ m. has_conversation cid m.conversation_id) (Dict.values db.messages)

-- `slice(-limit)`; of -0 it takes all.
abbrev last_n : ℕ → List StoredMessage → List StoredMessage
last_n limit xs = if ltb 0 limit then drop (length xs - limit) xs else xs

unfoldable pub get_messages : String → ℕ → Exec (List StoredMessage)
unfolding of_conversation
get_messages cid limit =
    read (λ db. last_n limit (sort_by (ascending (λ m. m.timestamp)) (of_conversation cid db)))

unfoldable pub get_conversation : String → Exec (Option StoredConversation)
get_conversation cid = read (λ db. Dict.get cid db.conversations)

-- The index gives ascending `updatedAt`; the sort makes it descending.
unfoldable pub get_all_conversations : Exec (List StoredConversation)
get_all_conversations = read (λ db.
    sort_by (descending (λ c. c.updated_at))
      (sort_by (ascending (λ c. c.updated_at)) (Dict.values db.conversations)))

unfoldable pub get_message_by_id : String → Exec (Option StoredMessage)
get_message_by_id id = read (λ db. Dict.get id db.messages)

abbrev put_conversation : StoredConversation → Db → Db
put_conversation c db = record db { conversations = Dict.put c.id c db.conversations }

-- Two transactions: the conversation is read, and then written back.
unfoldable pub change_conversation :
    (StoredConversation → StoredConversation) → String → Exec (Unit {0})
unfolding get_conversation
change_conversation f cid = do
  found ← get_conversation cid
  elim found [ none ↦ pure tt | some conv ↦ write (put_conversation (f conv)) ]

unfoldable pub mark_conversation_as_read : String → Exec (Unit {0})
mark_conversation_as_read = change_conversation (λ c. record c { unread_count = 0 })

unfoldable pub update_conversation_participant :
    String → String → String → Option ℕ → Option Gender → Exec (Unit {0})
update_conversation_participant cid name avatar age gender =
    change_conversation
      (λ c. record c {
        participant_name = name;
        participant_avatar = avatar;
        participant_age = age;
        participant_gender = gender;
      })
      cid

abbrev pub change_found : (StoredMessage → StoredMessage) → String → Db → Option StoredMessage → Db
change_found f id db none = db
change_found f id db (some m) = record db { messages = Dict.put id (f m) db.messages }

-- Silent where there is no such message.
unfoldable pub change_message : (StoredMessage → StoredMessage) → String → Db → Db
change_message f id db = change_found f id db (Dict.get id db.messages)

unfoldable pub update_message_status : String → Status → Exec (Unit {0})
unfolding change_message
update_message_status id st = write (change_message (λ m. record m { status = some st }) id)

unfoldable pub update_message_file_data : String → FileData → Exec (Unit {0})
unfolding change_message
update_message_file_data id f =
    write (change_message (λ m. record m { file_data = some f; content = f.name }) id)
