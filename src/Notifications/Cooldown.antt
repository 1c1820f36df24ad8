-- ===== src/Notifications/Cooldown.antt =====
-- The cooldown of the notices on nearby peers.
use nonetchat_web.Prelude.{
  ℕ, ◌+◌, String, ◌≡◌, ◌≢◌, ◌<◌, ◌≤◌, refl, Bool, true, false, Option, some, List, [], ◌∷◌, eq_iff,
  arith, Bool-cases, inl, inr, ◌∙◌, ap, sym, All, ◌&&◌, ◌==◌, if◌then◌else◌,
}
use nonetchat_web.Prelude.Dict
use nonetchat_web.Prelude.Dict.{Dict, get-set}
use nonetchat_web.Notifications.{
  Notifications, NearbyDetails, prune_history, is_recent, nearby_cooldown, is_nearby_silent,
  notify_nearby_peer, when_true, play_notification_sound, show_nearby_notification,
  show_system_notification, tell_nearby, UnreadMessage, add_message, trigger_notifications,
  tell_counts, update_app_badge, push_message, is_silent, rings, SettingsChange, update_settings,
}

get-prune_history :
    (k : String) (now last : ℕ) (d : Dict ℕ)
    → Dict.get k d ≡ some last
    → now ≤ last + nearby_cooldown
    → Dict.get k (prune_history now d) ≡ some last
unfolding prune_history Dict.get
get-prune_history k now last [] e h = ground arith
get-prune_history k now last ((j, ts) ∷ d) e h = ground (arith, get-prune_history k now last d)

quiet_while_recent :
    (d : NearbyDetails) (now last : ℕ) (s : Notifications)
    → Dict.get d.peer_id s.nearby_notified_at ≡ some last
    → last ≢ 0
    → now < last + nearby_cooldown
    → (notify_nearby_peer d now s).effects ≡ s.effects
unfolding notify_nearby_peer
quiet_while_recent d now last s e real soon = elim (Bool-cases (is_nearby_silent d s)) [
  | inl silent ↦ rw silent refl
  | inr loud ↦ rw loud (
      rw (get-prune_history d.peer_id now last s.nearby_notified_at e (omega (arith, soon)))
        (ground (arith, real, soon)))
]

history-cause_play :
    (b : Bool) (s : Notifications)
    → (when_true b play_notification_sound s).nearby_notified_at ≡ s.nearby_notified_at
history-cause_play false s = refl
history-cause_play true s = elim (Bool-cases s.has_sound) [ inl e ↦ rw e refl | inr e ↦ rw e refl ]

history-tell_nearby :
    (d : NearbyDetails) (s : Notifications)
    → (tell_nearby d s).nearby_notified_at ≡ s.nearby_notified_at
history-tell_nearby d s =
    shown s.settings.system_notifications_enabled
      (when_true s.settings.sound_enabled play_notification_sound s)
    ∙ history-cause_play s.settings.sound_enabled s
  where
    shown :
        (b : Bool) (t : Notifications)
        → (when_true b (show_nearby_notification d) t).nearby_notified_at ≡ t.nearby_notified_at
    shown false t = refl
    shown true t = elim (Bool-cases t.is_permitted) [ inl e ↦ rw e refl | inr e ↦ rw e refl ]

history-add_message :
    (k : String) (m : UnreadMessage) (s : Notifications)
    → (add_message k m s).nearby_notified_at ≡ s.nearby_notified_at
unfolding add_message trigger_notifications tell_counts update_app_badge
history-add_message k m s = elim (Bool-cases (is_silent k s)) [
  | inl silent ↦ rw silent refl
  | inr loud ↦ rw loud (
      shown (s.settings.system_notifications_enabled && s.document_hidden)
        (when_true sounds play_notification_sound (tell_counts k (push_message k m s)))
      ∙ history-cause_play sounds (tell_counts k (push_message k m s)))
]
  where
    sounds : Bool
    sounds = s.settings.sound_enabled && rings (Dict.get k s.settings.conversation_settings)

    shown :
        (b : Bool) (t : Notifications)
        → (when_true b (show_system_notification m) t).nearby_notified_at ≡ t.nearby_notified_at
    shown false t = refl
    shown true t = elim (Bool-cases t.is_permitted) [ inl e ↦ rw e refl | inr e ↦ rw e refl ]

told_at :
    (j : String) (d : NearbyDetails) (now : ℕ) (s : Notifications)
    → is_nearby_silent d s ≡ false
    → is_recent now (Dict.get d.peer_id (prune_history now s.nearby_notified_at)) ≡ false
    → Dict.get j (notify_nearby_peer d now s).nearby_notified_at
      ≡ (if d.peer_id == j then some now else Dict.get j (prune_history now s.nearby_notified_at))
unfolding notify_nearby_peer
told_at j d now s loud due =
    let history = prune_history now s.nearby_notified_at in
    rw loud (
      rw due (
        rw
          (history-tell_nearby d (record s { nearby_notified_at = Dict.set d.peer_id now history }))
          (get-set j d.peer_id now history)))

-- What may happen to the service: a nearby peer, at a time, a new message, and new settings.
pub data ServiceEvent : Type 0 where
  nearby : NearbyDetails → ℕ → ServiceEvent
  message : String → UnreadMessage → ServiceEvent
  settings : SettingsChange → ServiceEvent

abbrev pub happen : ServiceEvent → Notifications → Notifications
happen (nearby d now) s = notify_nearby_peer d now s
happen (message k m) s = add_message k m s
happen (settings c) s = update_settings c s

abbrev pub happen_all : List ServiceEvent → Notifications → Notifications
happen_all [] s = s
happen_all (e ∷ es) s = happen_all es (happen e s)

-- A nearby peer comes before `end`.
abbrev pub IsBefore : ℕ → ServiceEvent → Type 0
IsBefore end (nearby d now) = now < end
IsBefore end _ = Unit

module _ (j : String) (last : ℕ) (real : last ≢ 0) where
  lasts :
      (e : ServiceEvent) (s : Notifications)
      → Dict.get j s.nearby_notified_at ≡ some last
      → IsBefore (last + nearby_cooldown) e
      → Dict.get j (happen e s).nearby_notified_at ≡ some last
  lasts (message k m) s there soon = ap (Dict.get j) (history-add_message k m s) ∙ there
  lasts (settings c) s there soon = unfold update_settings in there
  lasts (nearby d now) s there soon = elim (Bool-cases (is_nearby_silent d s)) [
    | inl silent ↦ unfold notify_nearby_peer in rw silent there
    | inr loud ↦
        let history = prune_history now s.nearby_notified_at in
        let kept : Dict.get j history ≡ some last =
          get-prune_history j now last s.nearby_notified_at there (omega (arith, soon)) in
        elim (Bool-cases (is_recent now (Dict.get d.peer_id history))) [
          | inl recent ↦ unfold notify_nearby_peer in rw loud (rw recent kept)
          | inr due ↦ elim (Bool-cases (d.peer_id == j)) [
            | inr other ↦ told_at j d now s loud due ∙ rw other kept
            | inl same ↦ absurd (
                fresh now (Dict.get d.peer_id history)
                  (ap (λ k. Dict.get k history) ((eq_iff d.peer_id j).0 same) ∙ kept) soon due)
          ]
        ]
  ]
    where
      fresh :
          (now : ℕ) (o : Option ℕ)
          → o ≡ some last
          → now < last + nearby_cooldown
          → is_recent now o ≡ false
          → ⊥
      fresh now o e soon due =
          let h : is_recent now (some last) ≡ false = ap (is_recent now) (sym e) ∙ due in
          ground (arith, h, real, soon)

  history_lasts :
      (es : List ServiceEvent) (s : Notifications)
      → Dict.get j s.nearby_notified_at ≡ some last
      → All (IsBefore (last + nearby_cooldown)) es
      → Dict.get j (happen_all es s).nearby_notified_at ≡ some last
  history_lasts [] s there soon = there
  history_lasts (e ∷ es) s there soon =
      history_lasts es (happen e s) (lasts e s there soon.0) soon.1

-- After a notice on a nearby peer no other notice on it comes within the cooldown, whatever its
-- details and whatever other nearby peers, messages and changes of the settings there were since.
-- The first notice was due, and its time is not 0.
pub no_second_notice :
    (d e : NearbyDetails) (now later : ℕ) (between : List ServiceEvent) (s : Notifications)
    → is_nearby_silent d s ≡ false
    → is_recent now (Dict.get d.peer_id (prune_history now s.nearby_notified_at)) ≡ false
    → e.peer_id ≡ d.peer_id
    → now ≢ 0
    → All (IsBefore (now + nearby_cooldown)) between
    → later < now + nearby_cooldown
    → let t = happen_all between (notify_nearby_peer d now s) in
      (notify_nearby_peer e later t).effects ≡ t.effects
no_second_notice d e now later between s loud due same real soon early =
    let first : Dict.get d.peer_id (notify_nearby_peer d now s).nearby_notified_at ≡ some now =
      told_at d.peer_id d now s loud due ∙ ground (arith, eq_iff d.peer_id d.peer_id) in
    let t = happen_all between (notify_nearby_peer d now s) in
    quiet_while_recent e later now t
      (rw same (history_lasts d.peer_id now real between (notify_nearby_peer d now s) first soon))
      real early
