-- ===== src/Tests/Profiles.antt =====
-- Examples for the profile of the device.
use nonetchat_web.Prelude.{◌≡◌, refl, none, some, [], ◌∷◌}
use nonetchat_web.Prelude.Dict
use nonetchat_web.Store.Types.{Db, UserProfileRecord, empty_db}
use nonetchat_web.Store.Exec.{ok, ready}
use nonetchat_web.Profile.{
  Device, ProfileChange, save_profile, delete_custom_avatar, get_display_avatar_url, object_url,
  pravatar, migrate_if_needed, local_copy, sanitize_age,
}
use nonetchat_web.Profile.Saved.{save_profile-get_display_avatar_url}
use nonetchat_web.Profile.Restored.{AreAlike, IsClean, migrate_if_needed-save_profile}

abbrev a_device : Device
a_device = record {
  preprocess = λ file. record { hash = "h"; bytes = file; mime = ""; width = 8; height = 8 };
  trim = λ t. t;
  id = "m";
  legacy = record { display_name = none; name = none; age = none; gender = none };
}

abbrev a_profile : UserProfileRecord
a_profile = record {
  id = "m";
  display_name = some "Ann";
  age = some 30;
  gender = none;
  avatar_hash = none;
  avatar_mime = none;
  avatar_w = none;
  avatar_h = none;
  avatar_version = some 1;
}

abbrev a_profile_db : Db
a_profile_db = record empty_db { user = ("m", a_profile) ∷ [] }

-- A new name and an age that is out of range.
abbrev a_change : ProfileChange
a_change = record { display_name = some (some "Bea"); age = some (some 200); gender = none }

save_profile-get_display_avatar_url_example :
    let saved = save_profile a_device a_change (some (1 ∷ 2 ∷ [])) (ready a_profile_db) in
    let gone = delete_custom_avatar a_device saved.1 in
    ((get_display_avatar_url a_device saved.1).0 ≡ ok (object_url (1 ∷ 2 ∷ [], "image/webp")))
    × ((get_display_avatar_url a_device gone.1).0 ≡ ok (pravatar "m" 3 150))
unfolding Dict.get
save_profile-get_display_avatar_url_example =
    save_profile-get_display_avatar_url a_device a_change (1 ∷ 2 ∷ []) a_profile_db a_profile refl
      refl refl

migrate_if_needed-save_profile_example :
    (q : UserProfileRecord) × (r : UserProfileRecord) × ((save_profile a_device a_change none
        (ready a_profile_db)).0
      ≡ ok q)
    × IsClean a_device q
    × ((migrate_if_needed (record a_device { legacy = local_copy q }) (ready empty_db)).0 ≡ ok r)
    × AreAlike r q
unfolding Dict.get sanitize_age
migrate_if_needed-save_profile_example =
    migrate_if_needed-save_profile a_device (refl, λ t. refl) a_profile_db a_profile a_change none
      refl (refl, refl)
