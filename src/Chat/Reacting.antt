-- ===== src/Chat/Reacting.antt =====
-- A reaction of the other side while the window is open (src/services/PeerService.ts, lines 1207-1220, and
-- src/components/ChatWindow.tsx, lines 315-328).
use nonetchat_web.Prelude.{String, ◌≡◌, refl, some, true, ◌==◌, eq_iff, arith, ap, or_else, []}
use nonetchat_web.Prelude.Dict
use nonetchat_web.Prelude.Dict.{get-put_same}
use nonetchat_web.Store.Types.{Db, StoredMessage, Reactions}
use nonetchat_web.Store.Exec.{ok, ready, transaction, read}
use nonetchat_web.Store.Messages.{get_message_by_id}
use nonetchat_web.Store.Reactions.{toggle_message_reaction, toggle_reaction}
use nonetchat_web.Store.Reactions.Laws.{
  reacted, IsTidy, reacted-toggle_reaction, toggle_reaction-IsTidy,
}
use nonetchat_web.Peer.State.{Peer}
use nonetchat_web.Peer.Inbox.{on_reaction}
use nonetchat_web.Chat.{Window, handle_reaction_received}

-- One toggle on an open database.
toggled :
    (id emoji reactor : String) (db : Db) (m : StoredMessage)
    → Dict.get id db.messages ≡ some m
    → let r = toggle_reaction emoji reactor (or_else m.reactions []) in
      toggle_message_reaction id emoji reactor (ready db) ≡ (
        ok (some r),
        ready (record db { messages = Dict.put id (record m { reactions = some r }) db.messages }),
      )
unfolding toggle_message_reaction transaction
toggled id emoji reactor db m there = rw there refl

-- Toggling twice leaves who has reacted with what.
twice :
    (emoji reactor e r : String) (reactions : Reactions)
    → IsTidy reactions
    → reacted e r (toggle_reaction emoji reactor (toggle_reaction emoji reactor reactions))
      ≡ reacted e r reactions
twice emoji reactor e r reactions tidy = ground (
  arith,
  reacted-toggle_reaction (toggle_reaction emoji reactor reactions)
      (toggle_reaction-IsTidy reactions tidy emoji reactor) emoji reactor e r,
  reacted-toggle_reaction reactions tidy emoji reactor e r,
)

-- A reaction that comes while the window is open is toggled in the database by the peer service and
-- then by the window too: it leaves who has reacted with what as it was. The message is stored with
-- tidy reactions, the database is open and commits, and the window is on that peer.
pub on_reaction-handle_reaction_received :
    (from id emoji : String) (s : Peer) (w : Window) (db : Db) (m : StoredMessage)
    → s.idb ≡ ready db
    → Dict.get id db.messages ≡ some m
    → IsTidy (or_else m.reactions [])
    → w.selected.id ≡ from
    → let after = (on_reaction from id emoji s).idb in
      let end = (handle_reaction_received from id emoji (record w { idb = after })).idb in
      (r : Reactions) × ((get_message_by_id id end).0 ≡ ok (some (record m { reactions = some r })))
      × ((e x : String) → reacted e x r ≡ reacted e x (or_else m.reactions []))
unfolding on_reaction handle_reaction_received get_message_by_id read transaction
on_reaction-handle_reaction_received from id emoji s w db m live there tidy here =
    let old : Reactions = or_else m.reactions [] in
    let r : Reactions = toggle_reaction emoji from old in
    let m₁ : StoredMessage = record m { reactions = some r } in
    let db₁ : Db = record db { messages = Dict.put id m₁ db.messages } in
    let there₁ : Dict.get id db₁.messages ≡ some m₁ = get-put_same id m₁ db.messages in
    let r₂ : Reactions = toggle_reaction emoji from r in
    let m₂ : StoredMessage = record m { reactions = some r₂ } in
    let at : (from == w.selected.id) ≡ true = ground (arith, eq_iff from w.selected.id, here) in
    (
      r₂,
      rw live (
          rw (toggled id emoji from db m there) (
            rw at (
              rw (toggled id emoji from db₁ m₁ there₁)
                (ap (λ o. ok o) (get-put_same id m₂ db₁.messages))))),
      λ e x. twice emoji from e x old tidy,
    )
