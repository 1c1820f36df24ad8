-- ===== src/Chat.antt =====
-- The chat window's part in what a peer sends (src/components/ChatWindow.tsx, lines 155-361, 449-505 and
-- 583-604): the messages that it shows, the files that it receives and the statuses that it stores.
-- A message that is handled has an id, and what announces a file has all its fields.
pub mod Receiving
pub mod Reacting
use nonetchat_web.Prelude.{
  ℕ, ◌+◌, ◌-◌, ◌*◌, ◌/◌, String, Option, none, some, Bool, true, false, ◌&&◌, ◌||◌, not, List, [],
  ◌∷◌, ◌++◌, ◌==◌, ltb, nat_eq, if◌then◌else◌, or_else, truthy, map, length,
}
use Prim.Native.Nat.{max}
use Prim.Native.String.{◌++◌ as ◌⧺◌}
use nonetchat_web.Prelude.Dict
use nonetchat_web.Prelude.Dict.{Dict}
use nonetchat_web.Prelude.StrSet
use nonetchat_web.Protocol.{Gender}
use nonetchat_web.Store.Types.{StoredMessage, Status, FileData, Reactions, ContentKind}
use nonetchat_web.Store.Exec.{Exec, Result, ok, err, Idb, ◌>>=◌, ◌>>◌}
use nonetchat_web.Store.Messages.{
  save_message, update_message_status, update_message_file_data, update_conversation_participant,
}
use nonetchat_web.Store.Tables.{save_file_blob}
use nonetchat_web.Store.Reactions.{toggle_message_reaction}
use nonetchat_web.Peer.State.{FileMeta}
use nonetchat_web.Peer.Files.{Bytes, FileCode, decrypt_file}

pub record Receiver : Type 0 where
  pub chunks : List Bytes
  pub meta : FileMeta
  pub expected_size : ℕ

pub record Person : Type 0 where
  pub id : String
  pub name : String
  pub avatar : String
  pub age : Option ℕ
  pub gender : Option Gender

-- The window on one conversation, with the database service and the messages that it handed to the
-- notification service.
pub record Window : Type 0 where
  pub my_id : String
  pub selected : Person
  pub messages : List StoredMessage
  pub receivers : Dict Receiver
  pub active_transfers : List String
  pub noticed : List StoredMessage
  pub idb : Idb

-- The translated texts, and what JavaScript does with texts and numbers.
pub record Texts : Type 0 where
  pub receiving_in_progress : String
  pub sending_error : String
  pub decryption_error : String → String
  pub default_filename : String
  pub includes : (text part : String) → Bool
  pub remove_first : (text part : String) → String
  pub trim : String → String
  pub print_number : ℕ → String

abbrev pub change_one : (StoredMessage → StoredMessage) → String → StoredMessage → StoredMessage
change_one f id m = if m.id == id then f m else m

abbrev pub show_change : (StoredMessage → StoredMessage) → String → Window → Window
show_change f id w = record w { messages = map (change_one f id) w.messages }

-- What a method of the database service gives or throws is dropped.
abbrev pub store {ℓ} : {A : Type ℓ} → (Idb → A × Idb) → Window → Window
store action w = record w { idb = (action w.idb).1 }

abbrev pub run {ℓ} : {A : Type 0} {B : Type ℓ} → Exec A → Window → (Result A → Window → B) → B
run action w k = let r = action w.idb in k r.0 (record w { idb = r.1 })

abbrev note_saved : StoredMessage → Result (Unit {0}) → Window → Window
note_saved m (ok _) w =
    if m.sender_id == w.my_id then w else record w { noticed = w.noticed ++ m ∷ [] }
note_saved m (err _) w = w

abbrev receiver_of : StoredMessage → Window → String
receiver_of m w = if m.sender_id == w.my_id then w.selected.id else w.my_id

-- Shown, then saved with its conversation, then handed to the notification service; the first write
-- that fails ends it.
unfoldable pub add_message : ℕ → StoredMessage → Window → Window
add_message now m w =
    run
      (save_message now (record m { receiver_id = receiver_of m w; encrypted = true }) w.selected.id
        >> update_conversation_participant w.selected.id w.selected.name w.selected.avatar
            w.selected.age w.selected.gender)
      (record w { messages = w.messages ++ m ∷ [] }) (note_saved m)

abbrev file_message : Texts → ℕ → String → FileMeta → Window → StoredMessage
file_message t now id m w = record {
  id = id;
  sender_id = w.selected.id;
  receiver_id = w.my_id;
  content = m.name ⧺ (" " ⧺ t.receiving_in_progress);
  timestamp = now;
  kind = ContentKind.file;
  encrypted = true;
  status = some Status.delivered;
  reactions = none;
  file_data = some (record { name = m.name; size = m.size; mime = m.mime; url = "" });
  conversation_id = none;
}

-- 'file-start'
unfoldable pub handle_file_start : Texts → ℕ → String → String → FileMeta → Window → Window
unfolding add_message
handle_file_start t now peer_id id m w =
    if peer_id == w.selected.id
    then add_message now (file_message t now id m w) (record w {
      receivers =
          Dict.set id (record { chunks = []; meta = m; expected_size = m.encrypted_size })
            w.receivers;
      active_transfers = StrSet.add id w.active_transfers;
    })
    else w

unfoldable pub total_size : List Bytes → ℕ
total_size [] = 0
total_size (c ∷ cs) = length c + total_size cs

-- `Math.round((current / expected) * 100)`, halves upwards.
abbrev percent : ℕ → ℕ → ℕ
percent current expected = (200 * current + expected) / (2 * expected)

abbrev pub show_progress : Texts → String → Receiver → Window → Window
show_progress t id r w =
    if nat_eq r.expected_size 0
    then w
    else show_change
        (λ m. record m {
          content =
              r.meta.name
              ⧺ (" (" ⧺ (t.print_number (percent (total_size r.chunks) r.expected_size) ⧺ "%)"));
        })
        id w

abbrev pub push_chunk : Texts → String → Bytes → Window → Option Receiver → Window
push_chunk t id chunk w none = w
push_chunk t id chunk w (some r) =
    let r' = record r { chunks = r.chunks ++ chunk ∷ [] } in
    show_progress t id r' (record w { receivers = Dict.set id r' w.receivers })

-- A chunk of a file that was not announced is dropped.
unfoldable pub handle_file_chunk : Texts → String → String → Bytes → Window → Window
unfolding total_size
handle_file_chunk t peer_id id chunk w =
    if peer_id == w.selected.id then push_chunk t id chunk w (Dict.get id w.receivers) else w

-- The bytes of `new Blob(chunks)`.
unfoldable pub blob_of : List Bytes → Bytes
blob_of [] = []
blob_of (c ∷ cs) = c ++ blob_of cs

abbrev distance : ℕ → ℕ → ℕ
distance a b = (a - b) + (b - a)

-- The size may be off by 1024 bytes, or by a thousandth where that is more.
abbrev pub is_size_wrong : ℕ → ℕ → Bool
is_size_wrong total declared =
    ltb 1024 (distance total declared) && ltb declared (1000 * distance total declared)

abbrev pub forget_transfer : String → Window → Window
forget_transfer id w = record w {
  receivers = Dict.delete id w.receivers;
  active_transfers = StrSet.remove id w.active_transfers;
}

abbrev pub data_of : FileMeta → FileData
data_of m = record { name = m.name; size = m.size; mime = m.mime; url = "" }

abbrev pub fail_file : Texts → String → Receiver → Window → Window
fail_file t id r w = forget_transfer id (
    show_change
      (λ m. record m { content = t.decryption_error r.meta.name; status = some Status.delivered })
      id w)

abbrev pub saved_file : Texts → String → Receiver → Result (Unit {0}) → Window → Window
saved_file t id r (ok _) w = forget_transfer id (
    show_change
      (λ m. record m {
        content = r.meta.name;
        file_data = some (data_of r.meta);
        status = some Status.delivered;
      })
      id w)
saved_file t id r (err _) w = fail_file t id r w

abbrev pub save_decrypted : Texts → String → Receiver → Window → Option Bytes → Window
save_decrypted t id r w none = fail_file t id r w
save_decrypted t id r w (some []) = fail_file t id r w
save_decrypted t id r w (some (b ∷ bs)) =
    run (save_file_blob id (b ∷ bs) >> update_message_file_data id (data_of r.meta)) w
      (saved_file t id r)

abbrev pub finish_file : Texts → FileCode → String → Window → Option Receiver → Window
finish_file t f id w none = w
finish_file t f id w (some r) =
    if is_size_wrong (total_size r.chunks) r.meta.encrypted_size
    then fail_file t id r w
    else save_decrypted t id r w (decrypt_file f (blob_of r.chunks))

-- 'file-end'
unfoldable pub handle_file_end : Texts → FileCode → String → String → Window → Window
unfolding total_size blob_of
handle_file_end t f peer_id id w =
    if peer_id == w.selected.id then finish_file t f id w (Dict.get id w.receivers) else w

abbrev with_status : Status → StoredMessage → StoredMessage
with_status st m = record m { status = some st }

abbrev set_status : Status → String → String → Window → Window
set_status st peer_id id w =
    if peer_id == w.selected.id
    then show_change (with_status st) id (store (update_message_status id st) w)
    else w

unfoldable pub handle_message_delivered : String → String → Window → Window
handle_message_delivered = set_status Status.delivered

unfoldable pub handle_message_read : String → String → Window → Window
handle_message_read = set_status Status.read

unfoldable pub handle_outgoing_sent : String → String → Window → Window
handle_outgoing_sent = set_status Status.sent

abbrev suffix_of : Option String → String
suffix_of none = ""
suffix_of (some reason) = " (" ⧺ (reason ⧺ ")")

abbrev with_error : Texts → Option String → String → String
with_error t reason content =
    let base =
      if t.includes content t.sending_error
      then t.trim (t.remove_first content t.sending_error)
      else content in
    t.trim (base ⧺ (" " ⧺ (t.sending_error ⧺ suffix_of (truthy reason))))

unfoldable pub handle_outgoing_error : Texts → String → String → Option String → Window → Window
handle_outgoing_error t peer_id id reason w =
    if peer_id == w.selected.id
    then show_change
        (λ m. record m { status = some Status.failed; content = with_error t reason m.content }) id
        (store (update_message_status id Status.failed) w)
    else w

abbrev file_name : Texts → Option FileData → String
file_name t none = t.default_filename
file_name t (some d) = d.name

unfoldable pub handle_file_transfer_error : Texts → String → String → Window → Window
handle_file_transfer_error t peer_id id w =
    if peer_id == w.selected.id
    then show_change
        (λ m. record m {
          status = some Status.failed;
          content = m.content ⧺ (" " ⧺ t.decryption_error (file_name t m.file_data));
        })
        id (store (update_message_status id Status.failed) w)
    else w

abbrev show_reactions : String → Result (Option Reactions) → Window → Window
show_reactions id (ok (some r)) w = show_change (λ m. record m { reactions = some r }) id w
show_reactions id result w = w

-- 'reaction-received'
unfoldable pub handle_reaction_received : String → String → String → Window → Window
handle_reaction_received peer_id id emoji w =
    if peer_id == w.selected.id
    then run (toggle_message_reaction id emoji peer_id) w (show_reactions id)
    else w
