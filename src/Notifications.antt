-- ===== src/Notifications.antt =====
-- src/services/NotificationService.ts: the unread messages, what a new message triggers, the settings,
-- and the cooldown of the notices on nearby peers. The sounds, the system notifications and the badge
-- are effects in the order in which the code causes them. The listeners of `on`, `off` and `emit` are
-- named by numbers.
pub mod Unread
pub mod Silence
pub mod Cooldown
use nonetchat_web.Prelude.{
  ℕ, ◌+◌, ◌-◌, ◌*◌, String, Bool, true, false, ◌&&◌, ◌||◌, not, Option, none, some, List, [], ◌∷◌,
  ◌++◌, ◌==◌, ltb, nat_eq, if◌then◌else◌, or_else, length, filter, is_some,
}
use nonetchat_web.Prelude.Dict
use nonetchat_web.Prelude.Dict.{Dict}

pub record ConversationSettings : Type 0 where
  pub sound_enabled : Bool
  pub notifications_enabled : Bool

pub record NotificationSettings : Type 0 where
  pub global_enabled : Bool
  pub sound_enabled : Bool
  pub system_notifications_enabled : Bool
  pub do_not_disturb : Bool
  pub nearby_notifications_enabled : Bool
  pub conversation_settings : Dict ConversationSettings

pub data UnreadKind : Type 0 where
  text file : UnreadKind

pub record UnreadMessage : Type 0 where
  pub id : String
  pub conversation_id : String
  pub content : String
  pub timestamp : ℕ
  pub kind : UnreadKind
  pub sender_name : String

pub record NearbyDetails : Type 0 where
  pub peer_id : String
  pub display_name : Option String
  pub distance_label : Option String
  pub avatar : Option String

-- What the service does to the outside: the calls of `emit`, the sound, the system's notices, the
-- badge, and what it writes to `localStorage`.
pub data Effect : Type 0 where
  unread_count_changed : ℕ → Effect
  conversation_unread_changed : String → ℕ → Effect
  sound : Effect
  system_notice : UnreadMessage → Effect
  badge : ℕ → Effect
  settings_stored settings_changed : NotificationSettings → Effect
  nearby_system_notice nearby_notified : NearbyDetails → Effect
  visibility_changed : Bool → Effect

-- `is_permitted`: the browser has notices and grants them; `has_sound`: there is an audio context with
-- the sound loaded.
pub record Notifications : Type 0 where
  pub settings : NotificationSettings
  pub unread_messages : Dict (List UnreadMessage)
  pub last_seen_timestamps : Dict ℕ
  pub is_tab_visible : Bool
  pub document_hidden : Bool
  pub is_permitted : Bool
  pub has_sound : Bool
  pub nearby_notified_at : Dict ℕ
  pub listeners : Dict (List ℕ)
  pub effects : List Effect

abbrev pub default_settings : NotificationSettings
default_settings = record {
  global_enabled = true;
  sound_enabled = true;
  system_notifications_enabled = true;
  do_not_disturb = false;
  nearby_notifications_enabled = true;
  conversation_settings = [];
}

abbrev pub cause : Effect → Notifications → Notifications
cause e s = record s { effects = s.effects ++ e ∷ [] }

unfoldable pub count_all : Dict (List UnreadMessage) → ℕ
count_all [] = 0
count_all ((k, ms) ∷ d) = length ms + count_all d

unfoldable pub get_total_unread_count : Notifications → ℕ
unfolding count_all
get_total_unread_count s = count_all s.unread_messages

unfoldable pub get_unread_conversations_count : Notifications → ℕ
get_unread_conversations_count s = length s.unread_messages

abbrev pub unread_of : String → Notifications → List UnreadMessage
unread_of k s = or_else (Dict.get k s.unread_messages) []

unfoldable pub get_conversation_unread_count : String → Notifications → ℕ
get_conversation_unread_count k s = length (unread_of k s)

unfoldable pub get_new_messages_since : String → ℕ → Notifications → List UnreadMessage
get_new_messages_since k timestamp s = filter (λ m. ltb timestamp m.timestamp) (unread_of k s)

unfoldable pub get_last_seen_timestamp : String → Notifications → ℕ
get_last_seen_timestamp k s = or_else (Dict.get k s.last_seen_timestamps) 0

unfoldable pub update_app_badge : Notifications → Notifications
unfolding get_total_unread_count
update_app_badge s = cause (badge (get_total_unread_count s)) s

abbrev pub when_true : Bool → (Notifications → Notifications) → Notifications → Notifications
when_true true f s = f s
when_true false f s = s

abbrev pub play_notification_sound : Notifications → Notifications
play_notification_sound s = when_true s.has_sound (cause sound) s

abbrev pub show_system_notification : UnreadMessage → Notifications → Notifications
show_system_notification m s = when_true s.is_permitted (cause (system_notice m)) s

abbrev pub show_nearby_notification : NearbyDetails → Notifications → Notifications
show_nearby_notification d s = when_true s.is_permitted (cause (nearby_system_notice d)) s

-- A conversation without settings of its own has everything enabled.
abbrev pub rings : Option ConversationSettings → Bool
rings none = true
rings (some c) = c.sound_enabled

abbrev pub notifies : Option ConversationSettings → Bool
notifies none = true
notifies (some c) = c.notifications_enabled

abbrev pub is_silent : String → Notifications → Bool
is_silent k s =
    not s.settings.global_enabled
    || s.settings.do_not_disturb
    || not (notifies (Dict.get k s.settings.conversation_settings))

unfoldable pub trigger_notifications : String → UnreadMessage → Notifications → Notifications
unfolding update_app_badge
trigger_notifications k m s =
    if is_silent k s
    then s
    else update_app_badge (
        when_true (s.settings.system_notifications_enabled && s.document_hidden)
          (show_system_notification m)
          (when_true
            (s.settings.sound_enabled && rings (Dict.get k s.settings.conversation_settings))
            play_notification_sound s))

-- The two events that tell of new counts.
unfoldable pub tell_counts : String → Notifications → Notifications
unfolding get_total_unread_count get_conversation_unread_count
tell_counts k s =
    cause (conversation_unread_changed k (get_conversation_unread_count k s))
      (cause (unread_count_changed (get_total_unread_count s)) s)

abbrev pub push_message : String → UnreadMessage → Notifications → Notifications
push_message k m s = record s {
  unread_messages = Dict.set k (unread_of k s ++ m ∷ []) s.unread_messages;
}

unfoldable pub add_message : String → UnreadMessage → Notifications → Notifications
unfolding tell_counts trigger_notifications
add_message k m s = trigger_notifications k m (tell_counts k (push_message k m s))

unfoldable pub mark_conversation_as_read : String → ℕ → Notifications → Notifications
unfolding get_total_unread_count update_app_badge
mark_conversation_as_read k now s =
    let s₁ = record s {
      unread_messages = Dict.delete k s.unread_messages;
      last_seen_timestamps = Dict.set k now s.last_seen_timestamps;
    } in
    update_app_badge (
      cause (conversation_unread_changed k 0)
        (cause (unread_count_changed (get_total_unread_count s₁)) s₁))

unfoldable pub has_unread : String → List UnreadMessage → Bool
has_unread id [] = false
has_unread id (m ∷ ms) = m.id == id || has_unread id ms

-- `splice(findIndex(...), 1)`
unfoldable pub remove_unread : String → List UnreadMessage → List UnreadMessage
remove_unread id [] = []
remove_unread id (m ∷ ms) = if m.id == id then ms else m ∷ remove_unread id ms

-- A conversation with nothing left leaves the map.
abbrev pub store_unread :
    String → List UnreadMessage → Dict (List UnreadMessage) → Dict (List UnreadMessage)
store_unread k [] d = Dict.delete k d
store_unread k (m ∷ ms) d = Dict.set k (m ∷ ms) d

abbrev pub mark_in : String → String → Notifications → Option (List UnreadMessage) → Notifications
mark_in k id s none = s
mark_in k id s (some ms) =
    if has_unread id ms
    then tell_counts k
        (record s { unread_messages = store_unread k (remove_unread id ms) s.unread_messages })
    else s

unfoldable pub mark_message_as_read : String → String → Notifications → Notifications
unfolding has_unread remove_unread tell_counts
mark_message_as_read k id s = mark_in k id s (Dict.get k s.unread_messages)

abbrev store_settings : NotificationSettings → Notifications → Notifications
store_settings settings s =
    cause (settings_changed settings)
      (cause (settings_stored settings) (record s { settings = settings }))

-- The fields of `newSettings` that are there replace the old ones.
pub record SettingsChange : Type 0 where
  pub global_enabled : Option Bool
  pub sound_enabled : Option Bool
  pub system_notifications_enabled : Option Bool
  pub do_not_disturb : Option Bool
  pub nearby_notifications_enabled : Option Bool
  pub conversation_settings : Option (Dict ConversationSettings)

unfoldable pub update_settings : SettingsChange → Notifications → Notifications
update_settings c s =
    store_settings
      (record {
        global_enabled = or_else c.global_enabled s.settings.global_enabled;
        sound_enabled = or_else c.sound_enabled s.settings.sound_enabled;
        system_notifications_enabled =
            or_else c.system_notifications_enabled s.settings.system_notifications_enabled;
        do_not_disturb = or_else c.do_not_disturb s.settings.do_not_disturb;
        nearby_notifications_enabled =
            or_else c.nearby_notifications_enabled s.settings.nearby_notifications_enabled;
        conversation_settings = or_else c.conversation_settings s.settings.conversation_settings;
      })
      s

unfoldable pub update_conversation_settings :
    String → ConversationSettings → Notifications → Notifications
update_conversation_settings k c s =
    let old = s.settings in
    store_settings (record old { conversation_settings = Dict.set k c old.conversation_settings }) s

unfoldable pub get_conversation_settings : String → Notifications → ConversationSettings
get_conversation_settings k s =
    or_else (Dict.get k s.settings.conversation_settings)
      (record { sound_enabled = true; notifications_enabled = true })

unfoldable pub add_listener : String → ℕ → Notifications → Notifications
add_listener event callback s = record s {
  listeners = Dict.set event (or_else (Dict.get event s.listeners) [] ++ callback ∷ []) s.listeners;
}

unfoldable pub remove_first : ℕ → List ℕ → List ℕ
remove_first x [] = []
remove_first x (y ∷ ys) = if nat_eq y x then ys else y ∷ remove_first x ys

abbrev unlisten : String → ℕ → Dict (List ℕ) → Option (List ℕ) → Dict (List ℕ)
unlisten event callback d none = d
unlisten event callback d (some cs) = Dict.set event (remove_first callback cs) d

unfoldable pub remove_listener : String → ℕ → Notifications → Notifications
unfolding remove_first
remove_listener event callback s = record s {
  listeners = unlisten event callback s.listeners (Dict.get event s.listeners);
}

unfoldable pub clear_all_notifications : Notifications → Notifications
unfolding update_app_badge
clear_all_notifications s =
    cause (unread_count_changed 0) (update_app_badge (record s { unread_messages = [] }))

-- 'visibilitychange', 'focus' and 'blur'.
unfoldable pub on_visibility : Bool → Notifications → Notifications
on_visibility visible s = cause (visibility_changed visible) (record s { is_tab_visible = visible })

abbrev pub nearby_cooldown : ℕ
nearby_cooldown = 15 * 60 * 1000

-- `ts < now - cooldown`, on numbers that may be negative.
unfoldable pub prune_history : ℕ → Dict ℕ → Dict ℕ
prune_history now [] = []
prune_history now ((k, ts) ∷ d) =
    if ltb (ts + nearby_cooldown) now then prune_history now d else (k, ts) ∷ prune_history now d

-- `last && now - last < cooldown`
abbrev pub is_recent : ℕ → Option ℕ → Bool
is_recent now none = false
is_recent now (some last) = not (nat_eq last 0) && ltb now (last + nearby_cooldown)

abbrev pub is_nearby_silent : NearbyDetails → Notifications → Bool
is_nearby_silent d s =
    d.peer_id == ""
    || (not s.settings.global_enabled
        || s.settings.do_not_disturb
        || not s.settings.nearby_notifications_enabled)

abbrev pub tell_nearby : NearbyDetails → Notifications → Notifications
tell_nearby d s = cause (nearby_notified d) (
    when_true s.settings.system_notifications_enabled (show_nearby_notification d)
      (when_true s.settings.sound_enabled play_notification_sound s))

unfoldable pub notify_nearby_peer : NearbyDetails → ℕ → Notifications → Notifications
unfolding prune_history
notify_nearby_peer d now s =
    if is_nearby_silent d s
    then s
    else let history = prune_history now s.nearby_notified_at in
      if is_recent now (Dict.get d.peer_id history)
      then record s { nearby_notified_at = history }
      else tell_nearby d (record s { nearby_notified_at = Dict.set d.peer_id now history })
