-- ===== src/Store/Tables/Clear.antt =====
-- What `clearAllData` leaves.
use nonetchat_web.Prelude.{◌≡◌, refl}
use nonetchat_web.Store.Types.{Db, empty_db}
use nonetchat_web.Store.Exec.{ok, ready, write, pure, ◌>>=◌}
use nonetchat_web.Store.Tables.{clear_all_data, clear_stores, clear_store, cleared_stores}

-- On an open database where nothing aborts, `clearAllData` empties nine stores, and leaves the
-- outbox of unsent messages and the cache of public messages exactly as they were.
pub clear_all_data_keeps :
    (db : Db)
    → clear_all_data (ready db) ≡ (
      ok tt,
      ready (record empty_db {
        public_messages = db.public_messages;
        next_public_id = db.next_public_id;
        pending_messages = db.pending_messages;
      }),
    )
unfolding clear_all_data clear_stores cleared_stores clear_store write ◌>>=◌ pure
clear_all_data_keeps db = refl
