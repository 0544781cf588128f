-- ===== src/Tests/WalExamples.antt =====
-- The theorems on the log and on the start from it, on two entries.
use srrdb.Prelude.{◌≡◌, refl, some, [], ◌∷◌, ◌++◌, arith, take}
use srrdb.Std.Bytes.{u32_le}
use srrdb.Engine.Wal.{WalEntry, payload, replay, panicked, magic}
use srrdb.Engine.Wal.Recovery.{log_bytes, whole, apply_all, replay-take}
use srrdb.Engine.Wal.Flaws.{replay_short_length}
use srrdb.Engine.Persistence.{Files, empty, has_existing_data}
use srrdb.Engine.Executor.Indexes.{rebuild_indexes}
use srrdb.Server.Startup.{load_files, executor_of, start}
use srrdb.Server.Startup.Recovered.{applied, start-take}
use srrdb.Tests.Ascii.{ascii}
use srrdb.Tests.Serializer.{serializer}
use srrdb.Tests.Data.{users, ann, bob, catalog, entries, database}

-- cut off inside the second entry
replay-take_example :
    replay (take 30 (log_bytes entries)) database
    ≡ apply_all database 0 (take (whole 30 entries) entries)
unfolding payload
replay-take_example = replay-take entries 30 database (omega arith, (omega arith, tt))

abbrev directory : Files
directory = record empty {
  catalog = some (serializer.catalog.serialize catalog);
  tables = (users, serializer.rows.serialize (ann ∷ bob ∷ [])) ∷ [];
}

-- cut off inside the second entry
start-take_example :
    start directory (take 30 (log_bytes entries))
    ≡ some (
        rebuild_indexes (
          executor_of directory
            (take 30 (log_bytes entries))
            (applied (load_files directory) (take (whole 30 entries) entries))))
unfolding payload has_existing_data
start-take_example =
    start-take directory (WalEntry.insert_rows users (ann ∷ [])) (WalEntry.drop_table users ∷ []) 30
      refl refl (omega arith, (omega arith, tt))

replay_short_length_example : replay (magic ++ (u32_le 6 ++ (2 ∷ []))) database ≡ panicked
replay_short_length_example = replay_short_length 6 2 [] database (omega arith)
