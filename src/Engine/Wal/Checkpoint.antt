-- ===== src/Engine/Wal/Checkpoint.antt =====
-- src/engine/wal.rs: a checkpoint in the log, and its recovery. The tables come in the order of
-- their names.
use srrdb.Prelude.{
  ℕ, zero, suc, ◌-◌, not, ◌&&◌, Option, none, some, List, [], ◌∷◌, ◌++◌, if◌then◌else◌, length,
  take, drop, is_empty, nat_beq, ltb, unwrap_or, nat_eq, nat_ord, list_eq,
}
use srrdb.Std.Text.{Text, list_cmp}
use srrdb.Std.HashMap
use srrdb.Std.BTreeMap
use srrdb.Std.Bytes.{u32_of}
use srrdb.Std.Bincode.{Codec}
use srrdb.Std.Platform.{Platform}
use srrdb.Engine.Storage
use srrdb.Engine.Storage.{Row, Storage, table_or_empty}
use srrdb.Engine.Catalog.{Catalog}
use srrdb.Engine.Sort.{sort_by}
use srrdb.Engine.Wal.{Bytes, Bincode, Database, WalEntry, serialize, frame_bytes, entry_header_size}

-- what `replay_checkpoint` comes to: the state, an error, or a panic
pub data Recovered : Type 0 where
  restored : Database → Recovered
  invalid : Recovered
  crashed : Recovered

module _ ⦃b : Bincode⦄ where
  -- the tables of a checkpoint
  unfoldable pub table_bytes : Storage → List Text → Bytes
  table_bytes s [] = []
  table_bytes s (name ∷ names) =
      let rows = BTreeMap.values (unwrap_or (HashMap.get s.tables name) []) in
      b.text.serialize name ++ (b.rows.serialize rows ++ table_bytes s names)

  -- `build_checkpoint_data`
  unfoldable pub build_checkpoint_data : Database → Bytes
  unfolding table_bytes
  build_checkpoint_data d =
      let table_names = sort_by list_cmp (HashMap.keys d.storage.tables) in
      frame_bytes 255 (
        b.catalog.serialize d.catalog
        ++ (b.count.serialize (length table_names) ++ table_bytes d.storage table_names))

  -- what a codec reads, and what follows it
  abbrev pub read_with : {A : Type 0} → Codec A → Bytes → Option (A × Bytes)
  read_with c data_bytes = elim (c.deserialize data_bytes) [
    | none ↦ none
    | some a ↦ some (a, drop (length (c.serialize a)) data_bytes)
  ]

module _ ⦃p : Platform⦄ ⦃b : Bincode⦄ where
  -- the loop over the tables, which ends early where the payload ends; `none` is an error
  unfoldable pub read_tables : ℕ → Bytes → Storage → Option Storage
  read_tables zero rest s = some s
  read_tables (suc n) rest s = if is_empty rest then some s else elim (read_with b.text rest) [
    | none ↦ none
    | some (name, after_name) ↦
        if is_empty after_name then some s else elim (read_with b.rows after_name) [
          | none ↦ none
          | some (rows, after_rows) ↦ read_tables n after_rows (Storage.insert_rows s name rows).0
        ]
  ]

  abbrev pub restored_with : Catalog → Option Storage → Recovered
  restored_with c none = invalid
  restored_with c (some s) = restored (record { catalog = c; storage = s })

  -- the payload of a checkpoint
  unfoldable pub read_payload : Bytes → Recovered
  unfolding read_tables
  read_payload payload = elim (read_with b.catalog payload) [
    | none ↦ invalid
    | some (c, rest) ↦
        if is_empty rest
        then restored_with c (some Storage.new)
        else elim (read_with b.count rest) [
          | none ↦ invalid
          | some (n, tables) ↦ restored_with c (read_tables n tables Storage.new)
        ]
  ]

  -- `replay_checkpoint`
  unfoldable pub replay_checkpoint : Bytes → Recovered
  replay_checkpoint (m ∷ n ∷ a ∷ b0 ∷ c ∷ d ∷ type ∷ rest) =
      let entry_len = u32_of a b0 c d in
      if not (nat_beq m 0x53 && nat_beq n 0x44)
      then invalid
      else if not (nat_beq type 255)
      then invalid
      else if ltb entry_len entry_header_size
      then crashed
      else read_payload (take (entry_len - entry_header_size) rest)
  replay_checkpoint _ = invalid

-- `Wal::open`, also `Wal::ensure_opened`: the file, which is empty where it was not there
unfoldable pub open_file : Option Bytes → Bytes
open_file file = unwrap_or file []

module _ ⦃b : Bincode⦄ where
  -- `Wal::append`
  unfoldable pub append : Option Bytes → WalEntry → Bytes
  unfolding open_file
  append file e = open_file file ++ serialize e

  -- `Wal::truncate`: the file is written anew
  unfoldable pub truncate : Option Bytes → Database → Bytes
  truncate file d = build_checkpoint_data d

  -- `Wal::append_sync`
  unfoldable pub append_sync : Option Bytes → WalEntry → Database → Bytes
  unfolding append truncate
  append_sync file e d = truncate (some (append file e)) d
