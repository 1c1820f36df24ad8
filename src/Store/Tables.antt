-- ===== src/Store/Tables.antt =====
-- The remaining stores of src/services/IndexedDBService.ts: the block list, the outbox, keys, avatars,
-- blobs, the local profile and the key-value store, and `clearAllData`.
pub mod Clear
use nonetchat_web.Prelude.{
  ℕ, String, ◌≡◌, Bool, true, false, Option, none, some, List, [], ◌∷◌, map, length, ◌==◌,
  if◌then◌else◌, ltb, head?, filter,
}
use nonetchat_web.Prelude.Dict
use nonetchat_web.Store.Types.{
  Db, PendingMessageRecord, AvatarStoreRecord, UserProfileRecord, CryptoKeyPairRecord,
}
use nonetchat_web.Store.Exec.{Idb, Exec, ok, err, not_initialized, read, write, pure, ◌>>=◌, ◌>>◌}

unfoldable pub add_to_block_list : String → Exec (Unit {0})
add_to_block_list peer_id =
    write (λ db. record db { block_list = Dict.put peer_id peer_id db.block_list })

unfoldable pub remove_from_block_list : String → Exec (Unit {0})
remove_from_block_list peer_id =
    write (λ db. record db { block_list = Dict.delete peer_id db.block_list })

unfoldable pub get_block_list : Exec (List String)
get_block_list = read (λ db. Dict.values db.block_list)

unfoldable pub save_crypto_keys : CryptoKeyPairRecord → Exec (Unit {0})
save_crypto_keys keys =
    write (λ db. record db { crypto_keys = Dict.put "user-keys" keys db.crypto_keys })

unfoldable pub get_crypto_keys : Exec (Option CryptoKeyPairRecord)
get_crypto_keys = read (λ db. Dict.get "user-keys" db.crypto_keys)

unfoldable pub save_pending_message : PendingMessageRecord → Exec (Unit {0})
save_pending_message rec =
    write (λ db. record db { pending_messages = Dict.put rec.id rec db.pending_messages })

unfoldable pub delete_pending_message : String → Exec (Unit {0})
delete_pending_message id =
    write (λ db. record db { pending_messages = Dict.delete id db.pending_messages })

unfoldable pub get_pending_messages : Exec (List PendingMessageRecord)
get_pending_messages = read (λ db. Dict.values db.pending_messages)

-- The legacy pipeline: an avatar under an arbitrary id, with no hash.
unfoldable pub save_avatar : String → List ℕ → String → String → Exec (Unit {0})
save_avatar id bytes name mime = write (λ db. record db {
  avatars =
      Dict.put id
        (record {
          id = id;
          bytes = bytes;
          name = some name;
          mime = mime;
          size = length bytes;
          hash = none;
          width = none;
          height = none;
        })
        db.avatars;
})

-- The pipeline by hash: the key is the hash of the bytes.
unfoldable pub save_avatar_by_hash : String → List ℕ → String → ℕ → ℕ → Exec (Unit {0})
save_avatar_by_hash hash bytes mime width height = write (λ db. record db {
  avatars =
      Dict.put hash
        (record {
          id = hash;
          bytes = bytes;
          name = none;
          mime = mime;
          size = length bytes;
          hash = some hash;
          width = some width;
          height = some height;
        })
        db.avatars;
})

abbrev blob_of : Option AvatarStoreRecord → Option (List ℕ × String)
blob_of none = none
blob_of (some r) = some (r.bytes, r.mime)

unfoldable pub get_avatar : String → Exec (Option (List ℕ × String))
get_avatar id = read (λ db. blob_of (Dict.get id db.avatars))

unfoldable pub delete_avatar : String → Exec (Unit {0})
delete_avatar id = write (λ db. record db { avatars = Dict.delete id db.avatars })

abbrev has_hash : String → AvatarStoreRecord → Bool
has_hash hash r = elim r.hash [ none ↦ false | some h ↦ h == hash ]

-- `type || 'image/webp'`
abbrev pub webp_blob : AvatarStoreRecord → List ℕ × String
webp_blob r = (r.bytes, if r.mime == "" then "image/webp" else r.mime)

abbrev avatar_by_hash : String → Db → Option AvatarStoreRecord → Option (List ℕ × String)
avatar_by_hash hash db (some r) = some (webp_blob r)
avatar_by_hash hash db none = elim (head? (filter (has_hash hash) (Dict.values db.avatars))) [
  | none ↦ none
  | some r ↦ some (webp_blob r)
]

-- By the primary key first, and then by the index `by_hash`.
unfoldable pub get_avatar_blob_by_hash : String → Exec (Option (List ℕ × String))
get_avatar_blob_by_hash hash = read (λ db. avatar_by_hash hash db (Dict.get hash db.avatars))

unfoldable pub save_user_profile : UserProfileRecord → Exec (Unit {0})
save_user_profile p = write (λ db. record db { user = Dict.put p.id p db.user })

unfoldable pub get_user_profile : String → Exec (Option UserProfileRecord)
get_user_profile id = read (λ db. Dict.get id db.user)

unfoldable pub set_kv : String → String → Exec (Unit {0})
set_kv key value = write (λ db. record db { kv = Dict.put key value db.kv })

unfoldable pub get_kv : String → Exec (Option String)
get_kv key = read (λ db. Dict.get key db.kv)

unfoldable pub save_file_blob : String → List ℕ → Exec (Unit {0})
save_file_blob id blob = write (λ db. record db { file_blobs = Dict.put id blob db.file_blobs })

unfoldable pub get_file_blob : String → Exec (Option (List ℕ))
get_file_blob id = read (λ db. Dict.get id db.file_blobs)

-- The stores that `clearAllData` names, in its order.
pub data StoreName : Type 0 where
  messages conversations files file_blobs crypto_keys avatars block_list user kv : StoreName

unfoldable pub cleared_stores : List StoreName
cleared_stores =
    messages ∷ conversations ∷ files ∷ file_blobs ∷ crypto_keys ∷ avatars ∷ block_list ∷ user ∷ kv
    ∷ []

unfoldable pub clear_store : StoreName → Db → Db
clear_store messages db = record db { messages = [] }
clear_store conversations db = record db { conversations = [] }
clear_store files db = record db { files = [] }
clear_store file_blobs db = record db { file_blobs = [] }
clear_store crypto_keys db = record db { crypto_keys = [] }
clear_store avatars db = record db { avatars = [] }
clear_store block_list db = record db { block_list = [] }
clear_store user db = record db { user = [] }
clear_store kv db = record db { kv = [] }

-- `tx.onerror = () => resolve()`: a store whose transaction aborts is passed over.
abbrev ignore_error : Exec (Unit {0}) → Exec (Unit {0})
ignore_error m s = elim s.db [ none ↦ m s | some _ ↦ (ok tt, (m s).1) ]

clear_stores : List StoreName → Exec (Unit {0})
unfolding clear_store
clear_stores [] = pure tt
clear_stores (name ∷ names) = do ignore_error (write (clear_store name)); clear_stores names

abbrev need_db : Exec (Unit {0})
need_db s = elim s.db [ none ↦ (err not_initialized, s) | some _ ↦ (ok tt, s) ]

unfoldable pub clear_all_data : Exec (Unit {0})
unfolding clear_stores cleared_stores
clear_all_data = do need_db; clear_stores cleared_stores
