-- ===== src/Profile.antt =====
-- The profile of the device itself (src/services/ProfileService.ts, lines 83-338): its migration from
-- localStorage, its saving, and what it shows as its avatar.
pub mod Restored
pub mod Saved
use nonetchat_web.Prelude.{
  ℕ, ◌+◌, String, Option, none, some, Bool, true, false, List, ◌==◌, ◌&&◌, ltb, nat_eq,
  if◌then◌else◌, truthy,
}
use nonetchat_web.Protocol.{Gender, male, female, other}
use nonetchat_web.Store.Types.{UserProfileRecord}
use nonetchat_web.Store.Exec.{Exec, Idb, Result, ok, err, pure, ◌>>=◌, ◌>>◌}
use nonetchat_web.Store.Tables.{
  get_user_profile, save_user_profile, get_avatar, delete_avatar, save_avatar_by_hash,
  get_avatar_blob_by_hash,
}

-- What `preprocessAvatar` makes of a picture.
pub record AvatarRecord : Type 0 where
  pub hash : String
  pub bytes : List ℕ
  pub mime : String
  pub width : ℕ
  pub height : ℕ

-- What localStorage has under 'userProfile'. A field that is no text, or no number, is `none`; an
-- age is given by its whole part.
pub record LegacyProfile : Type 0 where
  pub display_name : Option String
  pub name : Option String
  pub age : Option ℕ
  pub gender : Option String

-- The canvas and SHA-256 of the browser, `trim`, and the content of localStorage. No profile there,
-- or one that does not parse, is a profile without fields.
pub record Device : Type 0 where
  pub preprocess : List ℕ → AvatarRecord
  pub trim : String → String
  pub id : String
  pub legacy : LegacyProfile

-- The keys that are present in an argument of `saveProfile`.
pub record ProfileChange : Type 0 where
  pub display_name : Option (Option String)
  pub age : Option (Option ℕ)
  pub gender : Option (Option String)

unfoldable pub sanitize_age : Option ℕ → Option ℕ
sanitize_age none = none
sanitize_age (some n) = if ltb 0 n && ltb n 120 then some n else none

unfoldable pub sanitize_gender : Option String → Option Gender
sanitize_gender none = none
sanitize_gender (some g) =
    if g == "male"
    then some male
    else if g == "female"
    then some female
    else if g == "other"
    then some other
    else none

-- A text without blanks at its ends, or nothing where nothing is left.
abbrev pub trimmed : Device → Option String → Option String
trimmed d none = none
trimmed d (some t) = truthy (some (d.trim t))

abbrev pub first_of : Option String → Option String → Option String
first_of none alt = alt
first_of (some t) alt = some t

abbrev pub legacy_key : String
legacy_key = "userAvatar"

unfoldable pub legacy_profile : Device → UserProfileRecord
unfolding sanitize_age sanitize_gender
legacy_profile d = record {
  id = d.id;
  display_name = first_of (trimmed d d.legacy.display_name) (trimmed d d.legacy.name);
  age = sanitize_age d.legacy.age;
  gender = sanitize_gender d.legacy.gender;
  avatar_hash = none;
  avatar_mime = none;
  avatar_w = none;
  avatar_h = none;
  avatar_version = some 1;
}

abbrev pub with_avatar : AvatarRecord → ℕ → UserProfileRecord → UserProfileRecord
with_avatar r version p = record p {
  avatar_hash = some r.hash;
  avatar_mime = some r.mime;
  avatar_w = some r.width;
  avatar_h = some r.height;
  avatar_version = some version;
}

abbrev pub save_avatar_record : AvatarRecord → Exec (Unit {0})
save_avatar_record r = save_avatar_by_hash r.hash r.bytes r.mime r.width r.height

abbrev migrate_avatar :
    Device → UserProfileRecord → Option (List ℕ × String) → Exec UserProfileRecord
migrate_avatar d p none = pure p
migrate_avatar d p (some (bytes, mime)) =
    save_avatar_record (d.preprocess bytes) >> pure (with_avatar (d.preprocess bytes) 2 p)

abbrev migrated : Device → Option UserProfileRecord → Exec UserProfileRecord
migrated d (some p) = pure p
migrated d none =
    get_avatar legacy_key
    >>= (λ a. migrate_avatar d (legacy_profile d) a)
    >>= (λ p. save_user_profile p >> pure p)

-- The profile of the device, made from what an older version left where there is none.
unfoldable pub migrate_if_needed : Device → Exec UserProfileRecord
migrate_if_needed d = get_user_profile d.id >>= migrated d

-- `(avatarVersion || 1) + 1`
abbrev pub next_version : Option ℕ → ℕ
next_version none = 2
next_version (some n) = if nat_eq n 0 then 2 else n + 1

abbrev rename : Device → Option (Option String) → UserProfileRecord → UserProfileRecord
rename d none p = p
rename d (some name) p = record p { display_name = trimmed d name }

abbrev set_age : Option (Option ℕ) → UserProfileRecord → UserProfileRecord
set_age none p = p
set_age (some age) p = record p { age = sanitize_age age }

abbrev set_gender : Option (Option String) → UserProfileRecord → UserProfileRecord
set_gender none p = p
set_gender (some g) p = record p { gender = sanitize_gender g }

unfoldable pub changed : Device → ProfileChange → UserProfileRecord → UserProfileRecord
changed d c p = set_gender c.gender (set_age c.age (rename d c.display_name p))

abbrev pub save_with_avatar :
    Device → Option (List ℕ) → UserProfileRecord → UserProfileRecord → Exec UserProfileRecord
save_with_avatar d none current next = pure next
save_with_avatar d (some file) current next =
    save_avatar_record (d.preprocess file)
    >> pure (with_avatar (d.preprocess file) (next_version current.avatar_version) next)

-- The database's part of `saveProfile`. Its result is what then goes to localStorage.
unfoldable pub save_profile : Device → ProfileChange → Option (List ℕ) → Exec UserProfileRecord
save_profile d c file =
    migrate_if_needed d
    >>= (λ current. save_with_avatar d file current (changed d c current))
    >>= (λ next. save_user_profile next >> pure next)

-- What a text of `JSON.stringify` has after `saveProfile`: a name, an age and a gender.
abbrev pub gender_name : Gender → String
gender_name male = "male"
gender_name female = "female"
gender_name other = "other"

unfoldable pub local_copy : UserProfileRecord → LegacyProfile
local_copy p = record {
  display_name = elim p.display_name [ none ↦ some "" | some n ↦ some n ];
  name = none;
  age = p.age;
  gender = elim p.gender [ none ↦ none | some g ↦ some (gender_name g) ];
}

-- An object URL of a picture, or the picture that pravatar has for `id:version`.
pub data AvatarUrl : Type 0 where
  object_url : List ℕ × String → AvatarUrl
  pravatar : (id : String) (version size : ℕ) → AvatarUrl

abbrev pub version_or_one : Option ℕ → ℕ
version_or_one none = 1
version_or_one (some n) = if nat_eq n 0 then 1 else n

abbrev pub fallback : UserProfileRecord → AvatarUrl
fallback p = pravatar p.id (version_or_one p.avatar_version) 150

abbrev shown : UserProfileRecord → Option (List ℕ × String) → Exec AvatarUrl
shown p none = pure (fallback p)
shown p (some blob) = pure (object_url blob)

abbrev shown_for : UserProfileRecord → Option String → Exec AvatarUrl
shown_for p none = pure (fallback p)
shown_for p (some hash) = get_avatar_blob_by_hash hash >>= shown p

unfoldable pub get_display_avatar_url : Device → Exec AvatarUrl
get_display_avatar_url d = migrate_if_needed d >>= λ p. shown_for p (truthy p.avatar_hash)

abbrev drop_avatar : Option String → Exec (Unit {0})
drop_avatar none = pure tt
drop_avatar (some hash) = delete_avatar hash

abbrev pub without_avatar : UserProfileRecord → UserProfileRecord
without_avatar p = record p {
  avatar_hash = none;
  avatar_mime = none;
  avatar_w = none;
  avatar_h = none;
  avatar_version = some (next_version p.avatar_version);
}

unfoldable pub delete_custom_avatar : Device → Exec (Unit {0})
delete_custom_avatar d = migrate_if_needed d >>= λ p.
    drop_avatar (truthy p.avatar_hash) >> save_user_profile (without_avatar p)
