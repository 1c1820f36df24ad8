-- ===== src/Store/Deletion/Newest.antt =====
-- What a conversation shows after the deletion of a message.
use nonetchat_web.Prelude.{
  String, ◌≡◌, refl, ◌≢◌, ◌⊎◌, inl, inr, ◌≤◌, Option, none, some, List, [], ◌==◌, eq_iff, arith,
  Bool-cases, All, Member, if◌then◌else◌,
}
use nonetchat_web.Prelude.Dict
use nonetchat_web.Prelude.Dict.{get-put, get-delete}
use nonetchat_web.Prelude.Sort.{head?-sort_descending}
use nonetchat_web.Store.Types.{StoredMessage, StoredConversation, Db}
use nonetchat_web.Store.Exec.{ok, ready, read, write, ◌>>=◌}
use nonetchat_web.Store.Messages.{of_conversation, get_conversation, in_conversation}
use nonetchat_web.Store.Deletion.{
  newest, refresh_conversation_after_delete, refresh_with, delete_message, drop_message, show_last,
  drop_conversation,
}

-- What conversation `cid`, with the record `conv` before, looks like when the messages `rest` are
-- left in it.
abbrev pub IsRefreshed :
    String → StoredConversation → List StoredMessage → Option StoredConversation → Type 0
IsRefreshed cid conv rest found =
    ((found ≡ none) × (rest ≡ []))
    ⊎ ((m : StoredMessage) × (found
          ≡ some (record conv {
            last_message = some (record m { conversation_id = some cid });
            updated_at = m.timestamp;
          }))
        × Member m rest
        × All (λ x. x.timestamp ≤ m.timestamp) rest)

-- The database after the refresh; only the conversations change.
abbrev pub refreshed : String → StoredConversation → Db → Option StoredMessage → Db
refreshed cid conv db none = drop_conversation cid db
refreshed cid conv db (some m) = show_last cid conv m db

pub messages-refreshed :
    (cid : String) (conv : StoredConversation) (db : Db) (last : Option StoredMessage)
    → ((refreshed cid conv db last).messages ≡ db.messages)
      × ((refreshed cid conv db last).file_blobs ≡ db.file_blobs)
messages-refreshed cid conv db none = (refl, refl)
messages-refreshed cid conv db (some m) = (refl, refl)

module _ (cid : String) (conv : StoredConversation) (db : Db)
    (found : Dict.get cid db.conversations ≡ some conv) (same : conv.id ≡ cid) where
  -- The database that the refresh leaves.
  pub refreshed_db : Db
  refreshed_db = refreshed cid conv db (newest cid db)

  pub refresh-ready : refresh_conversation_after_delete cid (ready db) ≡ (ok tt, ready refreshed_db)
  unfolding refresh_conversation_after_delete get_conversation ◌>>=◌ read write refreshed_db
  refresh-ready = rw found (go (newest cid db))
    where
      go :
          (last : Option StoredMessage)
          → refresh_with cid last (some conv) (ready db)
            ≡ (ok tt, ready (refreshed cid conv db last))
      go none = refl
      go (some m) = refl

  pub refresh-IsRefreshed :
      IsRefreshed cid conv (of_conversation cid db) (Dict.get cid refreshed_db.conversations)
  unfolding newest refreshed_db
  refresh-IsRefreshed = elim (head?-sort_descending (λ m. m.timestamp) (of_conversation cid db)) [
    | inl (e, nothing) ↦
        rw e (inl (ground (arith, get-delete cid cid db.conversations, eq_iff cid cid), nothing))
    | inr (m, e, here, greatest) ↦ rw e (
        inr (
          m,
          ground (
            arith,
            get-put cid conv.id
                (record conv {
                  last_message = some (in_conversation cid m);
                  updated_at = m.timestamp;
                })
                db.conversations,
            eq_iff conv.id cid,
          ),
          here,
          greatest,
        ))
  ]

  pub messages-refreshed_db :
      (refreshed_db.messages ≡ db.messages) × (refreshed_db.file_blobs ≡ db.file_blobs)
  unfolding refreshed_db
  messages-refreshed_db = messages-refreshed cid conv db (newest cid db)

  pub of_conversation-refreshed_db : of_conversation cid refreshed_db ≡ of_conversation cid db
  unfolding of_conversation
  of_conversation-refreshed_db = rw messages-refreshed_db.0

module _ (id : String) (db : Db) (m : StoredMessage) (cid : String)
    (conv : StoredConversation) where
  -- On an open database where nothing aborts, deleting a message of an existing conversation takes
  -- away that message and its blob and no other, and the conversation then shows a message with the
  -- greatest timestamp of those left in it, or is deleted where none is left.
  pub delete_message-IsRefreshed :
      Dict.get id db.messages ≡ some m
      → m.conversation_id ≡ some cid
      → cid ≢ ""
      → Dict.get cid db.conversations ≡ some conv
      → conv.id ≡ cid
      → (db' : Db) × (delete_message id (ready db) ≡ (ok tt, ready db'))
        × ((k : String)
            → Dict.get k db'.messages ≡ (if id == k then none else Dict.get k db.messages))
        × ((k : String)
            → Dict.get k db'.file_blobs ≡ (if id == k then none else Dict.get k db.file_blobs))
        × IsRefreshed cid conv (of_conversation cid db') (Dict.get cid db'.conversations)
  unfolding delete_message ◌>>=◌ read write
  delete_message-IsRefreshed stored belongs proper found same =
      let db₁ = drop_message id db in
      (
        refreshed_db cid conv db₁ found same,
        rw (stored, belongs)
            (elim (Bool-cases (cid == "")) [
              | inl blank ↦ absurd (proper ((eq_iff cid "").0 blank))
              | inr other ↦ rw other (refresh-ready cid conv db₁ found same)
            ]),
        λ k. rw ((messages-refreshed_db cid conv db₁ found same).0) (get-delete k id db.messages),
        λ k. rw ((messages-refreshed_db cid conv db₁ found same).1) (get-delete k id db.file_blobs),
        rw (of_conversation-refreshed_db cid conv db₁ found same)
            (refresh-IsRefreshed cid conv db₁ found same),
      )
