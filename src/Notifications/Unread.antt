-- ===== src/Notifications/Unread.antt =====
-- The counts of unread messages.
use nonetchat_web.Prelude.{
  ℕ, ◌+◌, String, ◌≡◌, refl, true, Option, none, some, List, [], ◌∷◌, ◌++◌, ◌==◌, eq_iff, arith,
  if◌then◌else◌, or_else, length, length-append, Bool-cases, inl, inr, ap,
}
use nonetchat_web.Prelude.Dict
use nonetchat_web.Prelude.Dict.{Dict, get-set, get-delete}
use nonetchat_web.Notifications.{
  Notifications, UnreadMessage, unread_of, count_all, get_total_unread_count,
  get_conversation_unread_count, add_message, mark_conversation_as_read, mark_message_as_read,
  mark_in, has_unread, remove_unread, store_unread, trigger_notifications, update_app_badge,
  tell_counts, push_message,
}

count_all-set :
    (k : String) (ms : List UnreadMessage) (d : Dict (List UnreadMessage))
    → count_all (Dict.set k ms d) + length (or_else (Dict.get k d) []) ≡ count_all d + length ms
unfolding count_all Dict.set Dict.get
count_all-set k ms [] = omega arith
count_all-set k ms ((j, ns) ∷ d) = ground (arith, count_all-set k ms d)

-- Each conversation stands once in the map.
abbrev pub IsMap : Dict (List UnreadMessage) → Type 0
IsMap [] = Unit
IsMap ((k, ms) ∷ d) = (Dict.get k d ≡ none) × IsMap d

delete_absent :
    (k : String) (d : Dict (List UnreadMessage)) → Dict.get k d ≡ none → Dict.delete k d ≡ d
unfolding Dict.delete Dict.get
delete_absent k [] h = refl
delete_absent k ((j, ns) ∷ d) h = ground (arith, delete_absent k d)

count_all-delete :
    (k : String) (d : Dict (List UnreadMessage))
    → IsMap d
    → count_all (Dict.delete k d) + length (or_else (Dict.get k d) []) ≡ count_all d
unfolding count_all Dict.delete Dict.get
count_all-delete k [] h = omega arith
count_all-delete k ((j, ns) ∷ d) (new, h) =
    ground (arith, eq_iff j k, count_all-delete k d h, delete_absent j d new, delete_absent k d)

unread-trigger :
    (k : String) (m : UnreadMessage) (s : Notifications)
    → (trigger_notifications k m s).unread_messages ≡ s.unread_messages
unfolding trigger_notifications update_app_badge
unread-trigger k m s = ground arith

unread-tell_counts :
    (k : String) (s : Notifications) → (tell_counts k s).unread_messages ≡ s.unread_messages
unfolding tell_counts
unread-tell_counts k s = refl

-- A message that is pushed counts once.
pub counts-push_message :
    (k j : String) (m : UnreadMessage) (s : Notifications)
    → (get_total_unread_count (push_message k m s) ≡ get_total_unread_count s + 1)
      × (get_conversation_unread_count j (push_message k m s)
          ≡ get_conversation_unread_count j s + (if k == j then 1 else 0))
unfolding get_total_unread_count get_conversation_unread_count
counts-push_message k j m s =
    let more = unread_of k s ++ m ∷ [] in
    (
      omega (arith, count_all-set k more s.unread_messages, length-append (unread_of k s) (m ∷ [])),
      ground (
        arith,
        get-set j k more s.unread_messages,
        length-append (unread_of k s) (m ∷ []),
        eq_iff k j,
      ),
    )

-- A new message counts once, in its conversation and in the total, whatever the settings are; the
-- other conversations' counts stay.
pub counts-add_message :
    (k j : String) (m : UnreadMessage) (s : Notifications)
    → (get_total_unread_count (add_message k m s) ≡ get_total_unread_count s + 1)
      × (get_conversation_unread_count j (add_message k m s)
          ≡ get_conversation_unread_count j s + (if k == j then 1 else 0))
unfolding add_message get_total_unread_count get_conversation_unread_count tell_counts
counts-add_message k j m s =
    let t = tell_counts k (push_message k m s) in
    rw (unread-trigger k m t) (counts-push_message k j m s)

-- Reading a conversation takes its messages, and no others, off the total, and leaves none unread
-- in it; the map holds each conversation once.
pub counts-mark_conversation_as_read :
    (k : String) (now : ℕ) (s : Notifications)
    → IsMap s.unread_messages
    → let t = mark_conversation_as_read k now s in
      (get_conversation_unread_count k t ≡ 0)
      × (get_total_unread_count t + get_conversation_unread_count k s ≡ get_total_unread_count s)
unfolding mark_conversation_as_read update_app_badge get_conversation_unread_count
    get_total_unread_count
counts-mark_conversation_as_read k now s h = (
  ground (arith, get-delete k k s.unread_messages, eq_iff k k),
  count_all-delete k s.unread_messages h,
)

length-remove_unread :
    (id : String) (ms : List UnreadMessage)
    → has_unread id ms ≡ true
    → length (remove_unread id ms) + 1 ≡ length ms
unfolding has_unread remove_unread
length-remove_unread id [] h = ground arith
length-remove_unread id (m ∷ ms) h = ground (arith, length-remove_unread id ms)

count_all-store_unread :
    (k : String) (ms : List UnreadMessage) (d : Dict (List UnreadMessage))
    → IsMap d
    → count_all (store_unread k ms d) + length (or_else (Dict.get k d) []) ≡ count_all d + length ms
count_all-store_unread k [] d h = omega (arith, count_all-delete k d h)
count_all-store_unread k (m ∷ ms) d h = count_all-set k (m ∷ ms) d

-- Reading one message takes one off the total where that message is unread, and nothing otherwise;
-- the map holds each conversation once.
pub total-mark_message_as_read :
    (k id : String) (s : Notifications)
    → IsMap s.unread_messages
    → get_total_unread_count (mark_message_as_read k id s)
        + (if has_unread id (unread_of k s) then 1 else 0)
      ≡ get_total_unread_count s
unfolding mark_message_as_read get_total_unread_count
total-mark_message_as_read k id s h = go (Dict.get k s.unread_messages) refl
  where
    go :
        (o : Option (List UnreadMessage))
        → Dict.get k s.unread_messages ≡ o
        → count_all (mark_in k id s o).unread_messages
            + (if has_unread id (or_else o []) then 1 else 0)
          ≡ count_all s.unread_messages
    go none e = unfold has_unread in omega arith
    go (some ms) e = elim (Bool-cases (has_unread id ms)) [
      | inr absent ↦ rw absent (omega arith)
      | inl there ↦ rw there (
          unfold tell_counts in
          omega (
            arith,
            count_all-store_unread k (remove_unread id ms) s.unread_messages h,
            length-remove_unread id ms there,
            ap (λ p. length (or_else p [])) e,
          ))
    ]
