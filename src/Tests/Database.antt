-- ===== src/Tests/Database.antt =====
-- Examples for the database.
use nonetchat_web.Prelude.{
  ◌+◌, String, ◌≡◌, refl, ◌≤◌, not, ◌&&◌, ◌==◌, none, [], ◌∷◌, arith, length, map, if◌then◌else◌,
}
use nonetchat_web.Prelude.Dict
use nonetchat_web.Prelude.StrSet.{mem}
use nonetchat_web.Store.Types.{Db, empty_db, Reactions}
use nonetchat_web.Store.Exec.{ok, ready}
use nonetchat_web.Store.Messages.{of_conversation}
use nonetchat_web.Store.Messages.Unread.{unread, store_all, incoming, unread-store_all}
use nonetchat_web.Store.Deletion.{delete_message, delete_conversation}
use nonetchat_web.Store.Deletion.Newest.{IsRefreshed, delete_message-IsRefreshed}
use nonetchat_web.Store.Deletion.Cascade.{delete_conversation-cascade}
use nonetchat_web.Store.PublicCache.{append_capped}
use nonetchat_web.Store.PublicCache.Caps.{room_count, append_capped_bounds}
use nonetchat_web.Store.PublicCache.Unique.{IsUnique, append_capped-IsUnique}
use nonetchat_web.Store.Reactions.{toggle_reaction}
use nonetchat_web.Store.Reactions.Laws.{IsTidy, reacted, reacted-toggle_reaction}
use nonetchat_web.Store.Tables.{clear_all_data}
use nonetchat_web.Store.Tables.Clear.{clear_all_data_keeps}
use nonetchat_web.Tests.{differ, a_db, a_message, a_conversation, a_public_message}

delete_message-IsRefreshed_example :
    (db' : Db) × (delete_message "x2" (ready a_db) ≡ (ok tt, ready db'))
    × ((k : String)
        → Dict.get k db'.messages ≡ (if "x2" == k then none else Dict.get k a_db.messages))
    × ((k : String)
        → Dict.get k db'.file_blobs ≡ (if "x2" == k then none else Dict.get k a_db.file_blobs))
    × IsRefreshed "b" a_conversation (of_conversation "b" db') (Dict.get "b" db'.conversations)
unfolding Dict.get
delete_message-IsRefreshed_example =
    delete_message-IsRefreshed "x2" a_db (record a_message { id = "x2"; timestamp = 20 }) "b"
      a_conversation refl refl (differ "b" "" refl) refl refl

delete_conversation-cascade_example :
    let ids = map (λ m. m.id) (of_conversation "b" a_db) in
    (db' : Db) × (delete_conversation "b" (ready a_db) ≡ (ok tt, ready db'))
    × (of_conversation "b" db' ≡ [])
    × (Dict.get "b" db'.conversations ≡ none)
    × ((k : String)
        → Dict.get k db'.messages ≡ (if mem k ids then none else Dict.get k a_db.messages))
    × ((k : String)
        → Dict.get k db'.file_blobs ≡ (if mem k ids then none else Dict.get k a_db.file_blobs))
unfolding Dict.get
delete_conversation-cascade_example =
    delete_conversation-cascade "b" a_db a_conversation (refl, refl, (refl, refl, tt)) refl refl

append_capped_bounds_example :
    (room_count "r" (append_capped a_public_message 1 2 none 9 3 (a_public_message ∷ [])) ≤ 1)
    × (length (append_capped a_public_message 1 2 none 9 3 (a_public_message ∷ [])) ≤ 2)
append_capped_bounds_example =
    append_capped_bounds a_public_message 1 2 none 9 3 (a_public_message ∷ [])

append_capped-IsUnique_example :
    IsUnique (append_capped a_public_message 5 5 none 9 3 (a_public_message ∷ []))
append_capped-IsUnique_example =
    append_capped-IsUnique a_public_message 5 5 none 9 3 (a_public_message ∷ []) (tt, tt)

unread-store_all_example :
    unread "b" (store_all 9 ((a_message, "b") ∷ []) a_db)
    ≡ unread "b" a_db + incoming "b" ((a_message, "b") ∷ [])
unread-store_all_example = unread-store_all 9 ((a_message, "b") ∷ []) "b" a_db

some_reactions : Reactions
some_reactions = ("+1", "b" ∷ []) ∷ []

some_reactions-IsTidy : IsTidy some_reactions
unfolding some_reactions Dict.get mem
some_reactions-IsTidy = record { arrays = λ emoji arr h. ground arith }

reacted-toggle_reaction_example : reacted "+1" "b" (toggle_reaction "+1" "b" some_reactions) ≡ (
    if "+1" == "+1" && "b" == "b"
    then not (reacted "+1" "b" some_reactions)
    else reacted "+1" "b" some_reactions)
reacted-toggle_reaction_example =
    reacted-toggle_reaction some_reactions some_reactions-IsTidy "+1" "b" "+1" "b"

clear_all_data_keeps_example : clear_all_data (ready a_db) ≡ (
  ok tt,
  ready (record empty_db { public_messages = []; next_public_id = 1; pending_messages = [] }),
)
clear_all_data_keeps_example = clear_all_data_keeps a_db
