-- ===== src/Profile/Restored.antt =====
-- The copy of the profile in localStorage, and the profile that a device without a database makes
-- of it (src/services/ProfileService.ts, lines 83-91, 137-178 and 217-257).
use nonetchat_web.Prelude.{
  ℕ, String, ◌≡◌, refl, Option, none, some, List, truthy-cases, Bool-cases, ◌&&◌, ltb, inl, inr,
}
use nonetchat_web.Prelude.Dict
use nonetchat_web.Protocol.{Gender, male, female, other}
use nonetchat_web.Store.Types.{Db, UserProfileRecord, empty_db}
use nonetchat_web.Store.Exec.{ok, ready, read, write, pure, transaction, ◌>>=◌}
use nonetchat_web.Store.Tables.{
  get_user_profile, save_user_profile, save_avatar_by_hash, get_avatar,
}
use nonetchat_web.Profile.{
  Device, ProfileChange, changed, first_of, gender_name, legacy_profile, local_copy,
  migrate_if_needed, sanitize_age, sanitize_gender, save_profile, trimmed, next_version,
  with_avatar,
}

-- A name without blanks at its ends that is not empty, and an age between 1 and 119, or nothing.
abbrev pub IsClean : Device → UserProfileRecord → Type 0
IsClean d p = (trimmed d p.display_name ≡ p.display_name) × (sanitize_age p.age ≡ p.age)

abbrev pub TrimsOnce : (String → String) → Type 0
TrimsOnce trim = (trim "" ≡ "") × ((t : String) → trim (trim t) ≡ trim t)

-- The name, the age and the gender are the same.
abbrev pub AreAlike : UserProfileRecord → UserProfileRecord → Type 0
AreAlike r q = (r.display_name ≡ q.display_name) × (r.age ≡ q.age) × (r.gender ≡ q.gender)

sanitize_age_twice : (a : Option ℕ) → sanitize_age (sanitize_age a) ≡ sanitize_age a
unfolding sanitize_age
sanitize_age_twice none = refl
sanitize_age_twice (some n) = elim (Bool-cases (ltb 0 n && ltb n 120)) [
  | inl e ↦ rw e (rw e refl)
  | inr e ↦ rw e refl
]

sanitize_gender-gender_name : (g : Gender) → sanitize_gender (some (gender_name g)) ≡ some g
unfolding sanitize_gender
sanitize_gender-gender_name male = refl
sanitize_gender-gender_name female = refl
sanitize_gender-gender_name other = refl

module _ (d : Device) (once : TrimsOnce d.trim) where
  trimmed_twice : (o : Option String) → trimmed d (trimmed d o) ≡ trimmed d o
  trimmed_twice none = refl
  trimmed_twice (some t) = elim (truthy-cases (d.trim t)) [
    | inl e ↦ rw e refl
    | inr e ↦ rw e (rw (once.1 t) e)
  ]

  changed-IsClean :
      (c : ProfileChange) (p : UserProfileRecord) → IsClean d p → IsClean d (changed d c p)
  unfolding changed
  changed-IsClean c p (named, aged) = by_keys c.display_name c.age c.gender
    where
      by_keys :
          (n : Option (Option String)) (a : Option (Option ℕ)) (g : Option (Option String))
          → IsClean d (changed d (record { display_name = n; age = a; gender = g }) p)
      by_keys none none none = (named, aged)
      by_keys none none (some g) = (named, aged)
      by_keys none (some a) none = (named, sanitize_age_twice a)
      by_keys none (some a) (some g) = (named, sanitize_age_twice a)
      by_keys (some n) none none = (trimmed_twice n, aged)
      by_keys (some n) none (some g) = (trimmed_twice n, aged)
      by_keys (some n) (some a) none = (trimmed_twice n, sanitize_age_twice a)
      by_keys (some n) (some a) (some g) = (trimmed_twice n, sanitize_age_twice a)

  abbrev later : UserProfileRecord → Device
  later q = record d { legacy = local_copy q }

  legacy_profile-local_copy :
      (q : UserProfileRecord) → IsClean d q → AreAlike (legacy_profile (later q)) q
  unfolding legacy_profile local_copy sanitize_gender
  legacy_profile-local_copy q (named, aged) = (name q.display_name named, aged, gender q.gender)
    where
      name :
          (o : Option String)
          → trimmed d o ≡ o
          → first_of (trimmed d (elim o [ none ↦ some "" | some n ↦ some n ])) none ≡ o
      name none e = rw (once.0) refl
      name (some n) e = rw e refl

      gender :
          (o : Option Gender)
          → sanitize_gender (elim o [ none ↦ none | some g ↦ some (gender_name g) ]) ≡ o
      gender none = refl
      gender (some g) = sanitize_gender-gender_name g

  -- What a profile that was saved leaves in localStorage is enough for a device that has lost its
  -- database: the profile that it then makes has the same name, age and gender. Saving, with a
  -- picture or without, keeps names free of blanks at their ends and ages between 1 and 119. The
  -- database is open and commits and has a clean profile of the device, and `trim` leaves the empty
  -- text and trimmed texts as they are.
  pub migrate_if_needed-save_profile :
      (db : Db) (p : UserProfileRecord) (c : ProfileChange) (file : Option (List ℕ))
      → Dict.get d.id db.user ≡ some p
      → IsClean d p
      → (q : UserProfileRecord) × (r : UserProfileRecord) × ((save_profile d c file (ready db)).0
          ≡ ok q)
        × IsClean d q
        × ((migrate_if_needed (record d { legacy = local_copy q }) (ready empty_db)).0 ≡ ok r)
        × AreAlike r q
  unfolding save_profile save_avatar_by_hash save_user_profile write transaction ◌>>=◌ pure
      migrate_if_needed get_user_profile get_avatar read Dict.get
  migrate_if_needed-save_profile db p c none found clean =
      let q = changed d c p in
      let kept = changed-IsClean c p clean in
      (q, legacy_profile (later q), rw found refl, kept, refl, legacy_profile-local_copy q kept)
  migrate_if_needed-save_profile db p c (some bytes) found clean =
      let q = with_avatar (d.preprocess bytes) (next_version p.avatar_version) (changed d c p) in
      let kept = changed-IsClean c p clean in
      (q, legacy_profile (later q), rw found refl, kept, refl, legacy_profile-local_copy q kept)
