-- ===== src/Store/Reactions.antt =====
-- Reactions (src/services/IndexedDBService.ts, `toggleMessageReaction`, `updateMessageReactions`).
pub mod Laws
use nonetchat_web.Prelude.{
  String, ◌≡◌, Option, none, some, List, [], ◌∷◌, ◌++◌, ◌==◌, if◌then◌else◌, or_else,
}
use nonetchat_web.Prelude.Dict
use nonetchat_web.Prelude.StrSet
use nonetchat_web.Store.Types.{Reactions, StoredMessage, Db}
use nonetchat_web.Store.Exec.{Exec, transaction, write}

-- `arr.splice(arr.indexOf(x), 1)`: the first occurrence goes.
unfoldable pub remove_first : String → List String → List String
remove_first x [] = []
remove_first x (y ∷ ys) = if y == x then ys else y ∷ remove_first x ys

unfoldable pub toggle_reactor : String → List String → List String
unfolding remove_first
toggle_reactor reactor arr =
    if StrSet.mem reactor arr then remove_first reactor arr else arr ++ reactor ∷ []

-- An emoji with nobody left is deleted.
store_array : String → List String → Reactions → Reactions
store_array emoji [] reactions = Dict.delete emoji reactions
store_array emoji (r ∷ rs) reactions = Dict.set emoji (r ∷ rs) reactions

unfoldable pub toggle_reaction : String → String → Reactions → Reactions
unfolding toggle_reactor store_array
toggle_reaction emoji reactor reactions =
    store_array emoji (toggle_reactor reactor (or_else (Dict.get emoji reactions) [])) reactions

abbrev toggle_found : String → String → String → Db → Option StoredMessage → Option Reactions × Db
toggle_found id emoji reactor db none = (none, db)
toggle_found id emoji reactor db (some msg) =
    let reactions = toggle_reaction emoji reactor (or_else msg.reactions []) in
    (
      some reactions,
      record db { messages = Dict.put id (record msg { reactions = some reactions }) db.messages },
    )

-- Read, toggle and write back in one transaction; `undefined` where there is no such message.
unfoldable pub toggle_message_reaction : String → String → String → Exec (Option Reactions)
toggle_message_reaction id emoji reactor =
    transaction (λ db. toggle_found id emoji reactor db (Dict.get id db.messages))

abbrev set_found : String → Reactions → Db → Option StoredMessage → Db
set_found id reactions db none = db
set_found id reactions db (some msg) = record db {
  messages = Dict.put id (record msg { reactions = some reactions }) db.messages;
}

unfoldable pub update_message_reactions : String → Reactions → Exec (Unit {0})
update_message_reactions id reactions =
    write (λ db. set_found id reactions db (Dict.get id db.messages))
