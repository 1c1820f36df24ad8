-- ===== src/Tests/Files.antt =====
-- Examples for what two peers exchange: a chat message, its errors, a file and a reaction.
use nonetchat_web.Prelude.{
  String, ◌≡◌, ◌≤◌, refl, none, some, false, List, [], ◌∷◌, length, arith, All,
}
use nonetchat_web.Prelude.Dict
use nonetchat_web.Prelude.StrSet
use nonetchat_web.Protocol.{sealed}
use nonetchat_web.Store.Types.{Status, Reactions}
use nonetchat_web.Store.Exec.{ready, ok}
use nonetchat_web.Store.Messages.{change_message, get_message_by_id}
use nonetchat_web.Store.Tables.{get_file_blob}
use nonetchat_web.Store.Reactions.Laws.{reacted, IsTidy}
use nonetchat_web.Peer.State.{
  Peer, Own, FileMeta, chat_received, decrypt_failed, delivered, outgoing_message_error,
}
use nonetchat_web.Peer.Outbox.{send_message, emit}
use nonetchat_web.Peer.Outbox.Queue.{IsOutbox}
use nonetchat_web.Peer.Outbox.Delivery.Sent.{sealed_message}
use nonetchat_web.Peer.Inbox.{on_message, error_message, on_reaction, decrypt_message}
use nonetchat_web.Peer.Inbox.Exchange.{
  chat, chat_of, ack, with_frame, send_message-on_message, on_message-reports_failure,
}
use nonetchat_web.Peer.Files.{
  Bytes, FileCode, encrypt_file, send_slices, quiet, resolved, chunk_size,
}
use nonetchat_web.Peer.Files.Slices.{joined, frames_of, send_slices_ends}
use nonetchat_web.Chat.{Window, Texts, Receiver, handle_file_end, handle_reaction_received, blob_of}
use nonetchat_web.Chat.Receiving.{chunks_in, handle_file_end-stores}
use nonetchat_web.Chat.Reacting.{on_reaction-handle_reaction_received}
use nonetchat_web.Tests.{joined as a_peer, alone, a_channel, a_draw, a_platform, a_db, a_message}

abbrev an_own : Own
an_own = record {
  public_key = "pk";
  derive = λ key. some key;
  profile = record {
    id = some "m";
    display_name = some "Me";
    avatar_hash = none;
    avatar_mime = none;
    avatar_version = none;
    age = none;
    gender = none;
  };
  tiny_avatar = λ url. none;
  avatar_url = λ size id version. id;
  print_meta = λ m. m.name;
  parse_meta = λ t. none;
}

-- Another peer with the same secret and a channel back.
abbrev a_friend : Peer
a_friend = record alone {
  my_id = "b";
  shared_secrets = ("m", "key") ∷ [];
  data_channels = ("m", a_channel) ∷ [];
}

a_peer-IsOutbox : IsOutbox a_peer
unfolding Dict.get
a_peer-IsOutbox = record { queues = λ j q h. ground arith }

send_message-on_message_example :
    let out = sealed_message a_platform "key" (chat "hello" "m1") a_draw in
    let r = on_message a_platform an_own "m" (λ n. a_draw) a_draw out a_friend in
    (Dict.get "b" (send_message a_platform "b" "hello" (some "m1") a_draw a_peer).1.data_channels
      ≡ some (with_frame a_channel out))
    × (r.events ≡ chat_received "m" "hello" (some "m1") ∷ [])
    × (Dict.get "m" r.data_channels ≡ some (with_frame a_channel (ack "m1")))
    × (on_message a_platform an_own "b" (λ n. a_draw) a_draw (ack "m1") a_peer
        ≡ emit (delivered "b" (some "m1")) a_peer)
unfolding Dict.get StrSet.mem
send_message-on_message_example =
    send_message-on_message a_platform (λ key iv t. refl) "m" "b" "key" "hello" "m1" a_peer a_friend
      a_channel a_channel a_draw a_draw an_own (λ n. a_draw) refl a_peer-IsOutbox refl refl
      (refl, refl) (refl, refl) refl refl

-- A peer that shares no secret with the one that writes to it.
abbrev a_stranger : Peer
a_stranger = record a_friend { shared_secrets = [] }

abbrev a_sender : Peer
a_sender = record a_peer { idb = ready a_db }

on_message-reports_failure_example :
    let r =
      on_message a_platform an_own "m"
        (λ n. a_draw)
        a_draw
        (chat_of (sealed "iv" "c") "x1")
        a_stranger in
    (r.events ≡ decrypt_failed "m" "x1" ∷ [])
    × (Dict.get "m" r.data_channels ≡ some (with_frame a_channel (error_message "x1")))
    × (on_message a_platform an_own "b" (λ n. a_draw) a_draw (error_message "x1") a_sender
        ≡ emit (outgoing_message_error "b" "x1" (some "decrypt-failed")) (record a_sender {
          idb = ready (change_message (λ m. record m { status = some Status.failed }) "x1" a_db);
        }))
unfolding Dict.get decrypt_message StrSet.mem
on_message-reports_failure_example =
    on_message-reports_failure a_platform an_own (λ n. a_draw) a_draw "m" "b" "x1" a_sender
      a_stranger a_channel a_db (sealed "iv" "c") refl (refl, refl) refl refl refl refl

abbrev a_key : Bytes
a_key =
    1 ∷ 2 ∷ 3 ∷ 4 ∷ 5 ∷ 6 ∷ 7 ∷ 8 ∷ 9 ∷ 10 ∷ 11 ∷ 12 ∷ 13 ∷ 14 ∷ 15 ∷ 16 ∷ 17 ∷ 18 ∷ 19 ∷ 20 ∷ 21
    ∷ 22 ∷ 23 ∷ 24 ∷ 25 ∷ 26 ∷ 27 ∷ 28 ∷ 29 ∷ 30 ∷ 31 ∷ 32 ∷ []

abbrev an_iv : Bytes
an_iv = 1 ∷ 2 ∷ 3 ∷ 4 ∷ 5 ∷ 6 ∷ 7 ∷ 8 ∷ 9 ∷ 10 ∷ 11 ∷ 12 ∷ []

abbrev a_code : FileCode
a_code = record {
  seal = λ key iv plain. plain;
  unseal = λ key iv plain. some plain;
  compress = λ plain. plain;
  decompress = λ plain. plain;
  text_bytes = λ t. [];
}

send_slices_ends_example :
    let r = send_slices (λ n. quiet) "b" (7 ∷ []) (1 ∷ 2 ∷ []) 3 0 0 a_peer in
    (chunks : List Bytes) × (r.0 ≡ resolved)
    × (Dict.get "b" r.1.data_channels
        ≡ some (record a_channel { frames = frames_of (7 ∷ []) chunks }))
    × (joined chunks ≡ 1 ∷ 2 ∷ [])
    × All (λ c. length c ≤ chunk_size) chunks
unfolding Dict.get
send_slices_ends_example =
    send_slices_ends (λ n. quiet) (λ n. refl) "b" (7 ∷ []) (1 ∷ 2 ∷ []) a_peer a_channel refl

abbrev some_texts : Texts
some_texts = record {
  receiving_in_progress = "...";
  sending_error = "!";
  decryption_error = λ t. t;
  default_filename = "file";
  includes = λ t part. false;
  remove_first = λ t part. t;
  trim = λ t. t;
  print_number = λ n. "n";
}

abbrev a_meta : FileMeta
a_meta = record { name = "f"; size = 2; mime = "text/plain"; encrypted_size = 50 }

abbrev a_receiver : Receiver
a_receiver = record { chunks = []; meta = a_meta; expected_size = 50 }

abbrev a_window : Window
a_window = record {
  my_id = "m";
  selected = record { id = "b"; name = "Bob"; avatar = ""; age = none; gender = none };
  messages = [];
  receivers = ("x1", a_receiver) ∷ [];
  active_transfers = "x1" ∷ [];
  noticed = [];
  idb = ready a_db;
}

handle_file_end-stores_example :
    let cs = encrypt_file a_code a_key an_iv (1 ∷ 2 ∷ []) ∷ [] in
    let v =
      handle_file_end some_texts a_code "b" "x1" (chunks_in some_texts "b" "x1" cs a_window) in
    (Dict.get "x1" v.receivers ≡ none) × ((get_file_blob "x1" v.idb).0 ≡ ok (some (1 ∷ 2 ∷ [])))
unfolding Dict.get blob_of encrypt_file
handle_file_end-stores_example =
    handle_file_end-stores some_texts a_code "b" "x1" a_key an_iv 1 (2 ∷ [])
      (encrypt_file a_code a_key an_iv (1 ∷ 2 ∷ []) ∷ []) a_window a_receiver a_db refl refl
      (λ plain. refl) (λ plain. refl) refl refl refl refl refl refl

no_reactions-IsTidy : IsTidy []
unfolding Dict.get
no_reactions-IsTidy = record { arrays = λ e arr h. ground arith }

on_reaction-handle_reaction_received_example :
    let after = (on_reaction "b" "x1" "+" a_sender).idb in
    let end = (handle_reaction_received "b" "x1" "+" (record a_window { idb = after })).idb in
    (r : Reactions) × ((get_message_by_id "x1" end).0
      ≡ ok (some (record a_message { reactions = some r })))
    × ((e x : String) → reacted e x r ≡ reacted e x [])
unfolding Dict.get
on_reaction-handle_reaction_received_example =
    on_reaction-handle_reaction_received "b" "x1" "+" a_sender a_window a_db a_message refl refl
      no_reactions-IsTidy refl
