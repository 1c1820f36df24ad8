-- ===== src/Profile/Saved.antt =====
-- What a profile that was saved shows (src/services/ProfileService.ts, lines 217-338).
use nonetchat_web.Prelude.{
  ℕ, ◌+◌, String, ◌≡◌, refl, Option, none, some, List, ap, ◌∙◌, ◌==◌, if◌then◌else◌, truthy, sym,
  length, arith,
}
use nonetchat_web.Prelude.Dict
use nonetchat_web.Store.Types.{Db, UserProfileRecord, AvatarStoreRecord}
use nonetchat_web.Store.Exec.{ok, ready, read, write, pure, transaction, ◌>>=◌}
use nonetchat_web.Store.Tables.{
  get_user_profile, save_user_profile, save_avatar_by_hash, get_avatar_blob_by_hash, delete_avatar,
  webp_blob,
}
use nonetchat_web.Profile.{
  AvatarRecord, Device, ProfileChange, object_url, pravatar, changed, delete_custom_avatar,
  get_display_avatar_url, migrate_if_needed, next_version, save_profile, with_avatar,
  without_avatar, fallback, version_or_one,
}

pub migrate_if_needed-found :
    (d : Device) (db : Db) (p : UserProfileRecord)
    → Dict.get d.id db.user ≡ some p
    → migrate_if_needed d (ready db) ≡ (ok p, ready db)
unfolding migrate_if_needed get_user_profile read transaction ◌>>=◌ pure
migrate_if_needed-found d db p e = rw e refl

id-changed : (d : Device) (c : ProfileChange) (p : UserProfileRecord) → (changed d c p).id ≡ p.id
unfolding changed
id-changed d c p = by_keys c.display_name c.age c.gender
  where
    by_keys :
        (n : Option (Option String)) (a : Option (Option ℕ)) (g : Option (Option String))
        → (changed d (record { display_name = n; age = a; gender = g }) p).id ≡ p.id
    by_keys none none none = refl
    by_keys none none (some g) = refl
    by_keys none (some a) none = refl
    by_keys none (some a) (some g) = refl
    by_keys (some n) none none = refl
    by_keys (some n) none (some g) = refl
    by_keys (some n) (some a) none = refl
    by_keys (some n) (some a) (some g) = refl

deleted_version :
    (o : Option ℕ)
    → version_or_one (some (next_version (some (next_version o)))) ≡ next_version o + 1
deleted_version none = refl
deleted_version (some n) = ground arith

module _ (d : Device) (db : Db) (p : UserProfileRecord) where
  display-pictured :
      (h : String) (s : AvatarStoreRecord)
      → Dict.get d.id db.user ≡ some p
      → truthy p.avatar_hash ≡ some h
      → Dict.get h db.avatars ≡ some s
      → get_display_avatar_url d (ready db) ≡ (ok (object_url (webp_blob s)), ready db)
  unfolding get_display_avatar_url get_avatar_blob_by_hash read transaction ◌>>=◌ pure
  display-pictured h s found named kept =
      rw (migrate_if_needed-found d db p found) (rw named (rw kept refl))

  display-plain :
      Dict.get d.id db.user ≡ some p
      → p.avatar_hash ≡ none
      → get_display_avatar_url d (ready db) ≡ (ok (fallback p), ready db)
  unfolding get_display_avatar_url ◌>>=◌ pure
  display-plain found bare = rw (migrate_if_needed-found d db p found) (rw bare refl)

  abbrev cleared : String → Db
  cleared h = record db {
    avatars = Dict.delete h db.avatars;
    user = Dict.put p.id (without_avatar p) db.user;
  }

  delete_custom_avatar-clears :
      (h : String)
      → Dict.get d.id db.user ≡ some p
      → truthy p.avatar_hash ≡ some h
      → delete_custom_avatar d (ready db) ≡ (ok tt, ready (cleared h))
  unfolding delete_custom_avatar delete_avatar save_user_profile write transaction ◌>>=◌ pure
  delete_custom_avatar-clears h found named =
      rw (migrate_if_needed-found d db p found) (rw named refl)

module _ (d : Device) (c : ProfileChange) (file : List ℕ) (db : Db) (p : UserProfileRecord) where
  abbrev picture : AvatarRecord
  picture = d.preprocess file

  abbrev next : UserProfileRecord
  next = with_avatar picture (next_version p.avatar_version) (changed d c p)

  abbrev stored : AvatarStoreRecord
  stored = record {
    id = picture.hash;
    bytes = picture.bytes;
    name = none;
    mime = picture.mime;
    size = length picture.bytes;
    hash = some picture.hash;
    width = some picture.width;
    height = some picture.height;
  }

  abbrev pictured : Db
  pictured = record db {
    avatars = Dict.put picture.hash stored db.avatars;
    user = Dict.put next.id next db.user;
  }

  save_profile-writes :
      Dict.get d.id db.user ≡ some p
      → save_profile d c (some file) (ready db) ≡ (ok next, ready pictured)
  unfolding save_profile save_avatar_by_hash save_user_profile write transaction ◌>>=◌ pure
  save_profile-writes found = rw (migrate_if_needed-found d db p found) refl

  -- After a picture is saved with the profile it is what is shown, whatever else is changed with it;
  -- after its deletion the generated picture is shown, for the version that is one above the
  -- version of the profile with the picture. The database is open and commits and has a profile of the device, and the hash of
  -- the picture is not empty.
  pub save_profile-get_display_avatar_url :
      Dict.get d.id db.user ≡ some p
      → p.id ≡ d.id
      → truthy (some (d.preprocess file).hash) ≡ some (d.preprocess file).hash
      → let saved = save_profile d c (some file) (ready db) in
        let gone = delete_custom_avatar d saved.1 in
        let r = d.preprocess file in
        ((get_display_avatar_url d saved.1).0
          ≡ ok (object_url (r.bytes, if r.mime == "" then "image/webp" else r.mime)))
        × ((get_display_avatar_url d gone.1).0
            ≡ ok (pravatar d.id (next_version p.avatar_version + 1) 150))
  save_profile-get_display_avatar_url found own named =
      let same : next.id ≡ d.id = id-changed d c p ∙ own in
      let kept : Dict.get d.id pictured.user ≡ some next =
        ap (λ k. Dict.get k pictured.user) (sym same) ∙ Dict.get-put_same next.id next db.user in
      let bare = without_avatar next in
      let left : Dict.get d.id (Dict.put next.id bare pictured.user) ≡ some bare =
        ap (λ k. Dict.get k (Dict.put next.id bare pictured.user)) (sym same)
        ∙ Dict.get-put_same next.id bare pictured.user in
      rw (save_profile-writes found) (
        rw (delete_custom_avatar-clears d pictured next picture.hash kept named) (
          ap (λ x. x.0)
              (display-pictured d pictured next picture.hash stored kept named
                (Dict.get-put_same picture.hash stored db.avatars)),
          ap (λ x. x.0) (display-plain d (cleared d pictured next picture.hash) bare left refl)
              ∙ ap ok (
                  ap (λ k. pravatar k (version_or_one bare.avatar_version) 150) same
                  ∙ ap (λ v. pravatar d.id v 150) (deleted_version p.avatar_version)),
        ))
