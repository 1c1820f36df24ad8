-- ===== src/Notifications/Silence.antt =====
-- When a new message makes itself heard.
use nonetchat_web.Prelude.{
  ◌+◌, String, eq_iff, ◌≡◌, refl, Bool, true, false, ◌&&◌, List, [], ◌∷◌, ◌++◌, arith,
  if◌then◌else◌, Option, none, some, not, ◌||◌, ℕ, ap, sym, Bool-cases, inl, inr, ◌∙◌,
}
use mathlib.Core.List.{append_assoc, append-nil}
use nonetchat_web.Prelude.Dict
use nonetchat_web.Notifications.Unread.{counts-push_message}
use nonetchat_web.Notifications.{
  Notifications, UnreadMessage, Effect, count_all, is_silent, add_message, trigger_notifications,
  push_message, tell_counts, update_app_badge, when_true, unread_count_changed,
  conversation_unread_changed, badge, sound, system_notice, get_total_unread_count,
  get_conversation_unread_count, rings, notifies, ConversationSettings, play_notification_sound,
  show_system_notification,
}

-- The two events on the counts.
abbrev pub count_events : String → Notifications → List Effect
count_events k s =
    unread_count_changed (get_total_unread_count s + 1)
    ∷ conversation_unread_changed k (get_conversation_unread_count k s + 1)
    ∷ []

-- Whether a message is told of beyond the counts: by `global_enabled`, `do_not_disturb` and the
-- settings of its conversation.
abbrev pub is_told : Bool → Bool → Option ConversationSettings → Bool
is_told false disturbs_not own = false
is_told true true own = false
is_told true false none = true
is_told true false (some own) = own.notifications_enabled

abbrev pub has_own_sound : Option ConversationSettings → Bool
has_own_sound none = true
has_own_sound (some own) = own.sound_enabled

abbrev pub heard : String → UnreadMessage → Notifications → List Effect
heard k m s =
    (if (s.settings.sound_enabled && has_own_sound (Dict.get k s.settings.conversation_settings))
        && s.has_sound
      then sound ∷ []
      else [])
    ++ ((if (s.settings.system_notifications_enabled && s.document_hidden) && s.is_permitted
          then system_notice m ∷ []
          else [])
        ++ badge (get_total_unread_count s + 1) ∷ [])

-- `heard`, with the test of the code.
abbrev heard_by_rings : String → UnreadMessage → Notifications → List Effect
heard_by_rings k m s =
    (if (s.settings.sound_enabled && rings (Dict.get k s.settings.conversation_settings))
        && s.has_sound
      then sound ∷ []
      else [])
    ++ ((if (s.settings.system_notifications_enabled && s.document_hidden) && s.is_permitted
          then system_notice m ∷ []
          else [])
        ++ badge (get_total_unread_count s + 1) ∷ [])

told-silent :
    (k : String) (s : Notifications)
    → is_told s.settings.global_enabled s.settings.do_not_disturb
        (Dict.get k s.settings.conversation_settings)
      ≡ not (is_silent k s)
told-silent k s =
    go s.settings.global_enabled s.settings.do_not_disturb
      (Dict.get k s.settings.conversation_settings)
  where
    go :
        (b c : Bool) (o : Option ConversationSettings)
        → is_told b c o ≡ not (not b || c || not (notifies o))
    go false c o = refl
    go true true o = refl
    go true false none = refl
    go true false (some own) = elim (Bool-cases own.notifications_enabled) [
      | inl e ↦ rw e refl
      | inr e ↦ rw e refl
    ]

own_sound : (o : Option ConversationSettings) → rings o ≡ has_own_sound o
own_sound none = refl
own_sound (some own) = refl

-- What an effect that is only added leaves alone.
abbrev rest : Notifications → Bool × ℕ
rest s = (s.is_permitted, count_all s.unread_messages)

module _ (m : UnreadMessage) where
  effects-play :
      (b : Bool) (s : Notifications)
      → ((when_true b play_notification_sound s).effects
          ≡ s.effects ++ (if b && s.has_sound then sound ∷ [] else []))
        × (rest (when_true b play_notification_sound s) ≡ rest s)
  effects-play false s = (sym (append-nil s.effects), refl)
  effects-play true s = elim (Bool-cases s.has_sound) [
    | inl e ↦ rw e (refl, refl)
    | inr e ↦ rw e (sym (append-nil s.effects), refl)
  ]

  effects-show :
      (b : Bool) (s : Notifications)
      → ((when_true b (show_system_notification m) s).effects
          ≡ s.effects ++ (if b && s.is_permitted then system_notice m ∷ [] else []))
        × (rest (when_true b (show_system_notification m) s) ≡ rest s)
  effects-show false s = (sym (append-nil s.effects), refl)
  effects-show true s = elim (Bool-cases s.is_permitted) [
    | inl e ↦ rw e (refl, refl)
    | inr e ↦ rw e (sym (append-nil s.effects), refl)
  ]

  effects-loud :
      (b c : Bool) (t : Notifications)
      → (update_app_badge (
          when_true b (show_system_notification m) (when_true c play_notification_sound t))).effects
        ≡ t.effects
          ++ ((if c && t.has_sound then sound ∷ [] else [])
              ++ ((if b && t.is_permitted then system_notice m ∷ [] else [])
                  ++ badge (get_total_unread_count t) ∷ []))
  unfolding update_app_badge get_total_unread_count
  effects-loud b c t =
      let u = when_true c play_notification_sound t in
      let played = effects-play c t in
      let shown = effects-show b u in
      let total : count_all (when_true b (show_system_notification m) u).unread_messages
          ≡ count_all t.unread_messages =
        ap (λ x. x.1) (shown.1 ∙ played.1) in
      let permitted : u.is_permitted ≡ t.is_permitted = ap (λ x. x.0) played.1 in
      let sounds = if c && t.has_sound then sound ∷ [] else [] in
      let notices = if b && t.is_permitted then system_notice m ∷ [] else [] in
      let last = badge (count_all t.unread_messages) ∷ [] in
      rw total (
        rw shown.0 (
          rw permitted (
            rw played.0 (
              append_assoc (t.effects ++ sounds) notices last
              ∙ append_assoc t.effects sounds (notices ++ last)))))

total-tell_counts :
    (k : String) (s : Notifications)
    → get_total_unread_count (tell_counts k s) ≡ get_total_unread_count s
unfolding tell_counts get_total_unread_count
total-tell_counts k s = refl

effects-tell_counts :
    (k : String) (s : Notifications)
    → (tell_counts k s).effects
      ≡ s.effects
        ++ unread_count_changed (get_total_unread_count s)
          ∷ conversation_unread_changed k (get_conversation_unread_count k s)
          ∷ []
unfolding tell_counts
effects-tell_counts k s =
    append_assoc s.effects (unread_count_changed (get_total_unread_count s) ∷ [])
      (conversation_unread_changed k (get_conversation_unread_count k s) ∷ [])

-- A new message always tells the new counts. While notifications are off, 'do not disturb' is on or
-- the conversation is muted it does nothing more; otherwise the sound comes where it is on for the
-- service and for the conversation and is loaded, the system's notice where it is on, the page is
-- hidden and the browser grants notices, and the badge with the new total in any case.
pub effects-add_message :
    (k : String) (m : UnreadMessage) (s : Notifications)
    → let own = Dict.get k s.settings.conversation_settings in
      (add_message k m s).effects
      ≡ s.effects
        ++ (count_events k s
            ++ (if is_told s.settings.global_enabled s.settings.do_not_disturb own
                then heard k m s
                else []))
unfolding add_message trigger_notifications
effects-add_message k m s = elim (Bool-cases (is_silent k s)) [
  | inl silent ↦ rw (told-silent k s) (rw silent told)
  | inr loud ↦ rw (told-silent k s) (
      rw loud (
        rw (← own_sound (Dict.get k s.settings.conversation_settings)) (
          effects-loud m (s.settings.system_notifications_enabled && s.document_hidden)
            (s.settings.sound_enabled && rings (Dict.get k s.settings.conversation_settings)) t
          ∙ (rw told
              (rw total (append_assoc s.effects (count_events k s) (heard_by_rings k m s)))))))
]
  where
    t : Notifications
    t = tell_counts k (push_message k m s)

    pushed :
        (get_total_unread_count (push_message k m s) ≡ get_total_unread_count s + 1)
        × (get_conversation_unread_count k (push_message k m s)
            ≡ get_conversation_unread_count k s + 1)
    pushed = let both = counts-push_message k k m s in (both.0, both.1 ∙ ground (arith, eq_iff k k))

    total : get_total_unread_count t ≡ get_total_unread_count s + 1
    total = total-tell_counts k (push_message k m s) ∙ pushed.0

    told : t.effects ≡ s.effects ++ (count_events k s ++ [])
    told = effects-tell_counts k (push_message k m s) ∙ rw pushed.0 (rw pushed.1 refl)
