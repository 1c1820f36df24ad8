-- ===== src/Store/PublicCache.antt =====
-- The cache of ephemeral public messages (src/services/IndexedDBService.ts, lines 889-1041). The rows
-- stand in the order of their automatic keys; an index is a stable sort of them by its key.
pub mod Caps
pub mod Unique
use nonetchat_web.Prelude.{
  ℕ, ◌+◌, ◌-◌, String, ◌≡◌, Bool, true, false, not, ◌&&◌, ◌||◌, Option, none, some, List, [], ◌∷◌,
  ◌++◌, ◌==◌, ltb, nat_eq, if◌then◌else◌, filter, any, take, drop, map, reverse, length,
}
use nonetchat_web.Prelude.Sort.{sort_by, ascending}
use nonetchat_web.Store.Types.{PublicMessage, Db}
use nonetchat_web.Store.Exec.{Exec, read, write}

-- `index('ts')` walked with 'prev': from the most recent to the oldest.
unfoldable pub by_recency : List PublicMessage → List PublicMessage
by_recency rows = reverse (sort_by (ascending (λ r. r.ts)) rows)

abbrev pub in_room : String → PublicMessage → Bool
in_room room r = r.room_id == room

abbrev pub has_key : List PublicMessage → PublicMessage → Bool
has_key keys r = any (λ k. nat_eq k.id r.id) keys

-- `store.delete(key)` for each collected key.
unfoldable pub without : List PublicMessage → List PublicMessage → List PublicMessage
without dels rows = filter (λ r. not (has_key dels r)) rows

-- Step 1: the row is added unless its room has the message already.
abbrev is_known : PublicMessage → List PublicMessage → Bool
is_known rec rows = any (λ r. (r.room_id == rec.room_id) && (r.msg_id == rec.msg_id)) rows

unfoldable pub add_once : PublicMessage → ℕ → List PublicMessage → List PublicMessage
add_once rec key rows = if is_known rec rows then rows else rows ++ record rec { id = key } ∷ []

-- Step 2: rows with `ts < now - ttlMs` go; a `ttlMs` that is absent or 0 keeps all.
unfoldable pub purge_ttl : Option ℕ → ℕ → List PublicMessage → List PublicMessage
purge_ttl none now rows = rows
purge_ttl (some ttl) now rows =
    if ltb 0 ttl then filter (λ r. not (ltb (r.ts + ttl) now)) rows else rows

-- Step 3: of the room's rows only the `cap` most recent stay.
unfoldable pub purge_room : String → ℕ → List PublicMessage → List PublicMessage
unfolding without by_recency
purge_room room cap rows = without (drop cap (by_recency (filter (in_room room) rows))) rows

-- Step 4: of all rows only the `cap` most recent stay.
unfoldable pub purge_global : ℕ → List PublicMessage → List PublicMessage
unfolding without by_recency
purge_global cap rows = without (drop cap (by_recency rows)) rows

unfoldable pub append_capped :
    PublicMessage → ℕ → ℕ → Option ℕ → ℕ → ℕ → List PublicMessage → List PublicMessage
append_capped rec per_room_cap total_cap ttl now key rows =
    purge_global total_cap
      (purge_room rec.room_id per_room_cap (purge_ttl ttl now (add_once rec key rows)))

unfoldable pub append_public_message_capped : PublicMessage → ℕ → ℕ → Option ℕ → ℕ → Exec (Unit {0})
unfolding append_capped
append_public_message_capped rec per_room_cap total_cap ttl now = write (λ db. record db {
  public_messages =
      append_capped rec per_room_cap total_cap ttl now db.next_public_id db.public_messages;
  next_public_id =
      if is_known rec db.public_messages then db.next_public_id else db.next_public_id + 1;
})

-- The cursor stops when `limit` rows are out; the answer is in chronological order.
unfoldable pub get_recent_public_messages : String → ℕ → Exec (List PublicMessage)
unfolding by_recency
get_recent_public_messages room limit =
    read (λ db. reverse (take limit (by_recency (filter (in_room room) db.public_messages))))

unfoldable pub purge_public_messages_for_room : String → Exec (Unit {0})
purge_public_messages_for_room room =
    write
      (λ db. record db { public_messages = filter (λ r. not (in_room room r)) db.public_messages })

unfoldable pub purge_all_public_messages : Exec (Unit {0})
purge_all_public_messages = write (λ db. record db { public_messages = [] })
