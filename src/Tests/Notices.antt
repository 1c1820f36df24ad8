-- ===== src/Tests/Notices.antt =====
-- Examples for the notifications.
use nonetchat_web.Prelude.{
  ◌≡◌, refl, true, false, none, some, List, [], ◌∷◌, ◌++◌, arith, if◌then◌else◌,
}
use nonetchat_web.Prelude.Dict
use nonetchat_web.Notifications.{
  Notifications, UnreadMessage, UnreadKind, NearbyDetails, default_settings, add_message,
  notify_nearby_peer, prune_history,
}
use nonetchat_web.Notifications.Silence.{is_told, effects-add_message, count_events, heard}
use nonetchat_web.Notifications.Cooldown.{
  ServiceEvent, message, settings, happen_all, no_second_notice,
}

news : UnreadMessage
news = record {
  id = "n1";
  conversation_id = "b";
  content = "hello";
  timestamp = 5;
  kind = UnreadKind.text;
  sender_name = "Bob";
}

service : Notifications
service = record {
  settings = default_settings;
  unread_messages = ("b", news ∷ []) ∷ [];
  last_seen_timestamps = [];
  is_tab_visible = true;
  document_hidden = false;
  is_permitted = true;
  has_sound = true;
  nearby_notified_at = [];
  listeners = [];
  effects = [];
}

near : NearbyDetails
near = record { peer_id = "b"; display_name = none; distance_label = none; avatar = none }

effects-add_message_example :
    (add_message "b" news service).effects
    ≡ service.effects
      ++ (count_events "b" service
          ++ (if is_told true false none then heard "b" news service else []))
unfolding service Dict.get
effects-add_message_example = effects-add_message "b" news service

-- A message and a change of the settings.
abbrev meanwhile : List ServiceEvent
meanwhile =
    message "b" news
    ∷ settings (record {
      global_enabled = none;
      sound_enabled = some false;
      system_notifications_enabled = none;
      do_not_disturb = none;
      nearby_notifications_enabled = none;
      conversation_settings = none;
    })
    ∷ []

no_second_notice_example :
    let t = happen_all meanwhile (notify_nearby_peer near 1000 service) in
    (notify_nearby_peer near 2000 t).effects ≡ t.effects
unfolding Dict.get service near prune_history
no_second_notice_example =
    no_second_notice near near 1000 2000 meanwhile service refl refl refl (λ e. ground (arith, e))
      (tt, (tt, tt)) (ground arith)
