-- ===== src/Chat/Receiving.antt =====
-- A file that comes in pieces (src/components/ChatWindow.tsx, lines 190-300).
use nonetchat_web.Prelude.{
  ℕ, String, ◌≡◌, refl, Option, none, some, true, false, List, [], ◌∷◌, ◌++◌, ◌==◌, eq_iff, ap, ◌∙◌,
  sym, length, length-append, arith, nat_eq, Bool-cases, inl, inr,
}
use mathlib.Core.List.{append_assoc, append-nil}
use nonetchat_web.Prelude.Dict
use nonetchat_web.Prelude.Dict.{get-set_same, get-put_same, get-delete_same}
use nonetchat_web.Store.Types.{Db, StoredMessage, FileData}
use nonetchat_web.Store.Exec.{ok, ready, transaction, write, read, ◌>>=◌, ◌>>◌}
use nonetchat_web.Store.Messages.{update_message_file_data, change_message, change_found}
use nonetchat_web.Store.Tables.{save_file_blob, get_file_blob}
use nonetchat_web.Peer.Files.{Bytes, FileCode, encrypt_file, decrypt_file}
use nonetchat_web.Peer.Files.Container.{decrypt_file-encrypt_file}
use nonetchat_web.Chat.{
  Window, Person, Texts, Receiver, handle_file_chunk, handle_file_end, total_size, blob_of,
  is_size_wrong, save_decrypted, data_of,
}

-- The chunks come one after the other.
abbrev pub chunks_in : Texts → String → String → List Bytes → Window → Window
chunks_in t peer_id id [] w = w
chunks_in t peer_id id (c ∷ cs) w = chunks_in t peer_id id cs (handle_file_chunk t peer_id id c w)

total_size-length : (cs : List Bytes) → total_size cs ≡ length (blob_of cs)
unfolding total_size blob_of
total_size-length [] = refl
total_size-length (c ∷ cs) = omega (arith, length-append c (blob_of cs), total_size-length cs)

size_right : (n : ℕ) → is_size_wrong n n ≡ false
size_right n = ground arith

module _ (t : Texts) (peer_id id : String) where
  abbrev grown : Receiver → Bytes → Receiver
  grown r c = record r { chunks = r.chunks ++ c ∷ [] }

  -- A chunk changes neither the database nor the selection, and goes to the receiver of its file.
  one_chunk :
      (c : Bytes) (w : Window) (r : Receiver)
      → w.selected.id ≡ peer_id
      → Dict.get id w.receivers ≡ some r
      → let v = handle_file_chunk t peer_id id c w in
        (v.idb ≡ w.idb) × (v.selected ≡ w.selected) × (Dict.get id v.receivers ≡ some (grown r c))
  unfolding handle_file_chunk
  one_chunk c w r here there =
      let at : (peer_id == w.selected.id) ≡ true =
        ground (arith, eq_iff peer_id w.selected.id, here) in
      let got = get-set_same id (grown r c) w.receivers in
      rw at (
        rw there (elim (Bool-cases (nat_eq r.expected_size 0)) [
          | inl e ↦ rw e (refl, refl, got)
          | inr e ↦ rw e (refl, refl, got)
        ]))

  all_chunks :
      (cs : List Bytes) (w : Window) (r : Receiver)
      → w.selected.id ≡ peer_id
      → Dict.get id w.receivers ≡ some r
      → let v = chunks_in t peer_id id cs w in
        (v.idb ≡ w.idb)
        × (v.selected ≡ w.selected)
        × (Dict.get id v.receivers ≡ some (record r { chunks = r.chunks ++ cs }))
  all_chunks [] w r here there =
      (refl, refl, there ∙ ap (λ cs. some (record r { chunks = cs })) (sym (append-nil r.chunks)))
  all_chunks (c ∷ cs) w r here there =
      let v = handle_file_chunk t peer_id id c w in
      let (e, f, g) = one_chunk c w r here there in
      let (e', f', g') = all_chunks cs v (grown r c) (ap (λ (p : Person). p.id) f ∙ here) g in
      (
        e' ∙ e,
        f' ∙ f,
        g' ∙ ap (λ xs. some (record r { chunks = xs })) (append_assoc r.chunks (c ∷ []) cs),
      )

  file_blobs-change_message :
      (g : StoredMessage → StoredMessage) (db : Db)
      → (change_message g id db).file_blobs ≡ db.file_blobs
  unfolding change_message
  file_blobs-change_message g db = go (Dict.get id db.messages)
    where
      go : (o : Option StoredMessage) → (change_found g id db o).file_blobs ≡ db.file_blobs
      go none = refl
      go (some m) = refl

  abbrev with_file : Bytes → FileData → Db → Db
  with_file file d db =
      change_message (λ m. record m { file_data = some d; content = d.name }) id
        (record db { file_blobs = Dict.put id file db.file_blobs })

  stored :
      (file : Bytes) (d : FileData) (db : Db)
      → (save_file_blob id file >> update_message_file_data id d) (ready db)
        ≡ (ok tt, ready (with_file file d db))
  unfolding save_file_blob update_message_file_data write transaction ◌>>=◌
  stored file d db = refl

  saved_end :
      (w : Window) (r : Receiver) (db : Db) (b : ℕ) (bs : Bytes)
      → w.idb ≡ ready db
      → let v = save_decrypted t id r w (some (b ∷ bs)) in
        (Dict.get id v.receivers ≡ none) × ((get_file_blob id v.idb).0 ≡ ok (some (b ∷ bs)))
  unfolding get_file_blob read transaction
  saved_end w r db b bs live = rw live (
      rw (stored (b ∷ bs) (data_of r.meta) db) (
        get-delete_same id w.receivers,
        ap (λ m. ok (Dict.get id m))
              (file_blobs-change_message _
                (record db { file_blobs = Dict.put id (b ∷ bs) db.file_blobs }))
            ∙ ap (λ o. ok o) (get-put_same id (b ∷ bs) db.file_blobs),
      ))

-- A file whose encrypted form comes in any pieces, announced with the size of that form, is decrypted
-- at its end and stored under the id of its message, and nothing of the transfer is left. The file is
-- not empty, the database is open and commits, the window is on that peer, the receiver of the file
-- has no chunk yet, the key has 32 bytes and the initialisation vector 12, the cipher opens what it
-- sealed under them, and what was compressed is decompressed to itself.
pub handle_file_end-stores :
    (t : Texts) (f : FileCode) (peer_id id : String) (key iv : Bytes) (b : ℕ) (bs : Bytes)
    (cs : List Bytes) (w : Window) (r : Receiver) (db : Db)
    → length iv ≡ 12
    → length key ≡ 32
    → ((plain : Bytes) → f.unseal key iv (f.seal key iv plain) ≡ some plain)
    → ((plain : Bytes) → f.decompress (f.compress plain) ≡ plain)
    → blob_of cs ≡ encrypt_file f key iv (b ∷ bs)
    → r.meta.encrypted_size ≡ length (encrypt_file f key iv (b ∷ bs))
    → r.chunks ≡ []
    → w.selected.id ≡ peer_id
    → Dict.get id w.receivers ≡ some r
    → w.idb ≡ ready db
    → let v = handle_file_end t f peer_id id (chunks_in t peer_id id cs w) in
      (Dict.get id v.receivers ≡ none) × ((get_file_blob id v.idb).0 ≡ ok (some (b ∷ bs)))
unfolding handle_file_end
handle_file_end-stores t f peer_id id key iv b bs cs w r db twelve thirty_two opens unpacks whole
      declared empty here there live =
    let u = chunks_in t peer_id id cs w in
    let (e, g, got) = all_chunks t peer_id id cs w r here there in
    let full : Receiver = record r { chunks = cs } in
    let received : Dict.get id u.receivers ≡ some full =
      got ∙ ap (λ xs. some (record r { chunks = xs ++ cs })) empty in
    let at : (peer_id == u.selected.id) ≡ true =
      ground (arith, eq_iff peer_id u.selected.id, ap (λ (p : Person). p.id) g ∙ here) in
    let size : total_size cs ≡ r.meta.encrypted_size =
      total_size-length cs ∙ ap length whole ∙ sym declared in
    let opened : decrypt_file f (blob_of cs) ≡ some (b ∷ bs) =
      ap (decrypt_file f) whole
      ∙ decrypt_file-encrypt_file f key iv (b ∷ bs) twelve thirty_two opens unpacks in
    rw at (
      rw received (
        rw size (
          rw (size_right r.meta.encrypted_size)
            (rw opened (saved_end t peer_id id u full db b bs (e ∙ live))))))
