-- ===== src/Store/PublicCache/Caps.antt =====
-- The bounds of the public cache, and which rows it keeps.
use mathlib.Core.List.{reverse-cons}
use nonetchat_web.Prelude.{
  ℕ, zero, suc, ◌+◌, ◌≤◌, String, ◌≡◌, refl, sym, ap, ◌∙◌, Bool, true, false, not, ◌&&◌, Option,
  none, List, [], ◌∷◌, ◌++◌, arith, filter, take, drop, reverse, length, length-append,
  length-filter-le, All, All-imp, take-append-drop, length-take,
}
use nonetchat_web.Prelude.Sort.{sort_by, ascending, length-filter-sort_by}
use nonetchat_web.Store.Types.{PublicMessage}
use nonetchat_web.Store.PublicCache.{
  by_recency, in_room, has_key, without, add_once, purge_ttl, purge_room, purge_global,
  append_capped,
}

module _ {ℓ} {A : Type ℓ} where
  filter-append : (p : A → Bool) (xs ys : List A) → filter p (xs ++ ys) ≡ filter p xs ++ filter p ys
  filter-append p [] ys = refl
  filter-append p (x ∷ xs) ys = ground (arith, filter-append p xs ys)

  length-filter-reverse :
      (p : A → Bool) (xs : List A) → length (filter p (reverse xs)) ≡ length (filter p xs)
  length-filter-reverse p [] = refl
  length-filter-reverse p (x ∷ xs) =
      rw (reverse-cons, filter-append)
        (length-append (filter p (reverse xs)) (filter p (x ∷ []))
          ∙ ground (arith, length-filter-reverse p xs))

  filter-none : (p : A → Bool) (xs : List A) → All (λ x. p x ≡ false) xs → filter p xs ≡ []
  filter-none p [] h = refl
  filter-none p (x ∷ xs) h = ground (arith, filter-none p xs h.1)

  filter-filter :
      (p q : A → Bool) (xs : List A) → filter p (filter q xs) ≡ filter (λ x. q x && p x) xs
  filter-filter p q [] = refl
  filter-filter p q (x ∷ xs) = ground (arith, filter-filter p q xs)

-- Walking an index from the most recent row counts the same rows.
length-filter-by_recency :
    (p : PublicMessage → Bool) (rows : List PublicMessage)
    → length (filter p (by_recency rows)) ≡ length (filter p rows)
unfolding by_recency
length-filter-by_recency p rows =
    length-filter-reverse p (sort_by (ascending (λ r. r.ts)) rows)
    ∙ length-filter-sort_by (ascending (λ r. r.ts)) p rows

has_key_self : (keys : List PublicMessage) → All (λ r. has_key keys r ≡ true) keys
has_key_self [] = tt
has_key_self (k ∷ ks) = (ground arith, weaken ks (has_key_self ks))
  where
    weaken :
        (xs : List PublicMessage)
        → All (λ r. has_key ks r ≡ true) xs
        → All (λ r. has_key (k ∷ ks) r ≡ true) xs
    weaken [] h = tt
    weaken (x ∷ xs) h = (ground arith, weaken xs h.1)

-- What is left of a list after the rows from position `cap` on are deleted by their keys.
length-kept :
    (cap : ℕ) (ordered : List PublicMessage)
    → length (filter (λ r. not (has_key (drop cap ordered) r)) ordered) ≤ cap
length-kept cap ordered =
    let kept : PublicMessage → Bool = λ r. not (has_key (drop cap ordered) r) in
    let split = ap (λ l. length (filter kept l)) (sym (take-append-drop cap ordered)) in
    omega (
      arith,
      split,
      ap length (filter-append kept (take cap ordered) (drop cap ordered)),
      length-append (filter kept (take cap ordered)) (filter kept (drop cap ordered)),
      length-filter-le kept (take cap ordered),
      length-take cap ordered,
      ap length (filter-none kept (drop cap ordered) (none_kept (drop cap ordered))),
    )
  where
    none_kept : (ks : List PublicMessage) → All (λ r. not (has_key ks r) ≡ false) ks
    none_kept ks = All-imp ks (λ x h. rw h) (has_key_self ks)

module _ {ℓ} {A : Type ℓ} where
  length-filter_comm :
      (p q : A → Bool) (xs : List A)
      → length (filter p (filter q xs)) ≡ length (filter q (filter p xs))
  length-filter_comm p q [] = refl
  length-filter_comm p q (x ∷ xs) = ground (arith, length-filter_comm p q xs)

  drop_all : (n : ℕ) (xs : List A) → length xs ≤ n → drop n xs ≡ []
  drop_all zero [] h = refl
  drop_all zero (x ∷ xs) h = absurd (omega arith)
  drop_all (suc n) [] h = refl
  drop_all (suc n) (x ∷ xs) h = drop_all n xs (omega arith)

  filter-true : (xs : List A) → filter (λ _. true) xs ≡ xs
  filter-true [] = refl
  filter-true (x ∷ xs) = ap (◌∷◌ x) (filter-true xs)

-- The rows that stand in one room.
abbrev pub room_count : String → List PublicMessage → ℕ
room_count room rows = length (filter (in_room room) rows)

length-by_recency : (rows : List PublicMessage) → length (by_recency rows) ≡ length rows
length-by_recency rows =
    ap length (sym (filter-true (by_recency rows)))
    ∙ length-filter-by_recency (λ _. true) rows
    ∙ ap length (filter-true rows)

room_count-purge_room :
    (room : String) (cap : ℕ) (rows : List PublicMessage)
    → room_count room (purge_room room cap rows) ≤ cap
unfolding purge_room without
room_count-purge_room room cap rows =
    let mine = filter (in_room room) rows in
    let kept : PublicMessage → Bool = λ r. not (has_key (drop cap (by_recency mine)) r) in
    omega (
      arith,
      length-filter_comm (in_room room) kept rows,
      length-filter-by_recency kept mine,
      length-kept cap (by_recency mine),
    )

length-purge_global : (cap : ℕ) (rows : List PublicMessage) → length (purge_global cap rows) ≤ cap
unfolding purge_global without
length-purge_global cap rows =
    let kept : PublicMessage → Bool = λ r. not (has_key (drop cap (by_recency rows)) r) in
    omega (arith, length-filter-by_recency kept rows, length-kept cap (by_recency rows))

room_count-purge_global :
    (room : String) (cap : ℕ) (rows : List PublicMessage)
    → room_count room (purge_global cap rows) ≤ room_count room rows
unfolding purge_global without
room_count-purge_global room cap rows =
    let kept : PublicMessage → Bool = λ r. not (has_key (drop cap (by_recency rows)) r) in
    omega (
      arith,
      length-filter_comm (in_room room) kept rows,
      length-filter-le kept (filter (in_room room) rows),
    )

module _ (rec : PublicMessage) (room_cap total_cap : ℕ) where
  -- After every append the room of the message holds at most `room_cap` rows and the cache at most
  -- `total_cap`, whatever it held before.
  pub append_capped_bounds :
      (ttl : Option ℕ) (now key : ℕ) (rows : List PublicMessage)
      → (room_count rec.room_id (append_capped rec room_cap total_cap ttl now key rows) ≤ room_cap)
        × (length (append_capped rec room_cap total_cap ttl now key rows) ≤ total_cap)
  unfolding append_capped
  append_capped_bounds ttl now key rows =
      let fresh = purge_ttl ttl now (add_once rec key rows) in
      let capped = purge_room rec.room_id room_cap fresh in
      (
        omega (
          arith,
          room_count-purge_global rec.room_id total_cap capped,
          room_count-purge_room rec.room_id room_cap fresh,
        ),
        length-purge_global total_cap capped,
      )

  -- While neither bound is exceeded and nothing has expired, an append deletes nothing: the cache is
  -- the old one with the row added at the end, unless its room has the message already.
  pub append_capped_within :
      (now key : ℕ) (rows : List PublicMessage)
      → room_count rec.room_id rows + 1 ≤ room_cap
      → length rows + 1 ≤ total_cap
      → append_capped rec room_cap total_cap none now key rows ≡ add_once rec key rows
  unfolding append_capped purge_ttl purge_room purge_global without
  append_capped_within now key rows in_room_cap in_total_cap =
      let grown = add_once rec key rows in
      let mine = filter (in_room rec.room_id) grown in
      rw
        (drop_all room_cap (by_recency mine)
          (omega (arith, length-by_recency mine, count-add_once)))
        (rw (filter-true grown) (
          rw
            (drop_all total_cap (by_recency grown)
              (omega (arith, length-by_recency grown, length-add_once)))
            (filter-true grown)))
    where
      count-add_once :
          room_count rec.room_id (add_once rec key rows) ≤ room_count rec.room_id rows + 1
      count-add_once =
          unfold add_once in
          let row : List PublicMessage = record rec { id = key } ∷ [] in
          ground (
            arith,
            ap length (filter-append (in_room rec.room_id) rows row),
            length-append (filter (in_room rec.room_id) rows) (filter (in_room rec.room_id) row),
          )

      length-add_once : length (add_once rec key rows) ≤ length rows + 1
      length-add_once =
          unfold add_once in ground (arith, length-append rows (record rec { id = key } ∷ []))
