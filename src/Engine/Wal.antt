-- ===== src/Engine/Wal.antt =====
-- src/engine/wal.rs: the write-ahead log: its entries, their bytes, and the replay of a log.
pub mod Frames
pub mod Recovery
pub mod Appended
pub mod Flaws
pub mod Checkpoint
pub mod Restored
use srrdb.Prelude.{
  ℕ, zero, suc, ◌+◌, ◌-◌, ◌%◌, ◌^◌, Bool, true, false, not, ◌&&◌, Option, none, some, List, [], ◌∷◌,
  ◌++◌, ◌==◌, nat_eq, if◌then◌else◌, length, take, drop, is_empty, Result, ok, err, leb, ltb,
  nat_beq,
}
use srrdb.Std.Text.{Text, codes}
use srrdb.Std.HashMap
use srrdb.Std.Bytes.{u32_le, u32_of}
use srrdb.Std.Bincode.{Codec}
use srrdb.Std.Platform.{Platform}
use srrdb.Engine.Types.Columns.{Column}
use srrdb.Engine.Index.{IndexDef, IndexData}
use srrdb.Engine.Storage
use srrdb.Engine.Storage.{Row, Storage, get_table_mut, set_table, clear_table}
use srrdb.Engine.Catalog
use srrdb.Engine.Catalog.{Catalog}

abbrev pub Bytes : Type 0
Bytes = List ℕ

-- `serde` on the types that the engine writes
pub record Bincode : Type 0 where
  pub text : Codec Text
  pub columns : Codec (List Column)
  pub rows : Codec (List Row)
  pub index_def : Codec IndexDef
  pub catalog : Codec Catalog
  pub index_data : Codec IndexData
  pub count : Codec ℕ

abbrev pub magic : Bytes
magic = 0x53 ∷ 0x44 ∷ []

abbrev pub entry_header_size : ℕ
entry_header_size = 7

pub data WalEntry : Type 0 where
  create_table : Text → List Column → WalEntry
  drop_table : Text → WalEntry
  insert_rows : Text → List Row → WalEntry
  table_snapshot : Text → List Row → WalEntry
  create_index : Text → IndexDef → WalEntry
  -- the database, the index, the table
  drop_index : Text → Text → Text → WalEntry
  checkpoint : WalEntry

-- `WalEntryType`, as its byte
abbrev pub entry_type : WalEntry → ℕ
entry_type (WalEntry.create_table _ _) = 1
entry_type (WalEntry.drop_table _) = 2
entry_type (WalEntry.insert_rows _ _) = 3
entry_type (WalEntry.table_snapshot _ _) = 4
entry_type (WalEntry.create_index _ _) = 5
entry_type (WalEntry.drop_index _ _ _) = 6
entry_type WalEntry.checkpoint = 255

-- the header and the payload: the length is an `as u32`
abbrev pub frame_bytes : ℕ → Bytes → Bytes
frame_bytes type payload =
    magic ++ (u32_le ((entry_header_size + length payload) % 2 ^ 32) ++ (type ∷ payload))

-- What the replay finds at a position: no whole entry, a slice that panics, or an entry's type and
-- payload with what follows.
pub data Frame : Type 0 where
  stop : Frame
  panic : Frame
  entry : ℕ → Bytes → Bytes → Frame

-- the length in a header decides
abbrev pub cut : Bytes → ℕ → ℕ → Frame
cut buf entry_len type =
    if ltb (length buf) entry_len
    then Frame.stop
    else if ltb entry_len entry_header_size
    then Frame.panic
    else Frame.entry type (take (entry_len - entry_header_size) (drop entry_header_size buf))
        (drop entry_len buf)

-- the head of the loop of `replay`, on what is left of the file
unfoldable pub read_frame : Bytes → Frame
read_frame (m ∷ n ∷ a ∷ b ∷ c ∷ d ∷ type ∷ rest) =
    if nat_beq m 0x53 && nat_beq n 0x44
    then cut (m ∷ n ∷ a ∷ b ∷ c ∷ d ∷ type ∷ rest) (u32_of a b c d) type
    else Frame.stop
read_frame _ = Frame.stop

module _ ⦃b : Bincode⦄ where
  -- a text and where it ends: `serialized_size` is the length of its bytes
  abbrev pub read_text : Bytes → Option (Text × Bytes)
  read_text payload = elim (b.text.deserialize payload) [
    | none ↦ none
    | some s ↦ some (s, drop (length (b.text.serialize s)) payload)
  ]

  -- `WalEntry::serialize`, the payload
  unfoldable pub payload : WalEntry → Bytes
  payload (WalEntry.create_table name columns) =
      b.text.serialize name ++ b.columns.serialize columns
  payload (WalEntry.drop_table name) = b.text.serialize name
  payload (WalEntry.insert_rows name rows) = b.text.serialize name ++ b.rows.serialize rows
  payload (WalEntry.table_snapshot name rows) = b.text.serialize name ++ b.rows.serialize rows
  payload (WalEntry.create_index db def) = b.text.serialize db ++ b.index_def.serialize def
  payload (WalEntry.drop_index db index table) =
      b.text.serialize db ++ (b.text.serialize index ++ b.text.serialize table)
  payload WalEntry.checkpoint = []

  -- `WalEntry::serialize`
  unfoldable pub serialize : WalEntry → Bytes
  unfolding payload
  serialize e = frame_bytes (entry_type e) (payload e)

  -- a text, then what a codec reads behind it
  abbrev pub read_named {ℓ} :
      {A : Type 0} {B : Type ℓ} → Codec A → (Text → A → B) → Bytes → Option B
  read_named c make data_bytes = elim (read_text data_bytes) [
    | none ↦ none
    | some (name, rest) ↦ elim (c.deserialize rest) [ none ↦ none | some a ↦ some (make name a) ]
  ]

  abbrev pub read_drop_index : Bytes → Option WalEntry
  read_drop_index data_bytes = elim (read_text data_bytes) [
    | none ↦ none
    | some (db, rest) ↦ read_named b.text (λ index table. WalEntry.drop_index db index table) rest
  ]

  abbrev pub known : Option WalEntry → Option (Option WalEntry)
  known none = none
  known (some e) = some (some e)

  -- `WalEntry::deserialize`: `none` is an error, `some none` an unknown type, which is skipped
  unfoldable pub deserialize : ℕ → Bytes → Option (Option WalEntry)
  deserialize type data_bytes =
      if nat_beq type 1
      then known (read_named b.columns WalEntry.create_table data_bytes)
      else if nat_beq type 2
      then known (elim (b.text.deserialize data_bytes) [
        | none ↦ none
        | some name ↦ some (WalEntry.drop_table name)
      ])
      else if nat_beq type 3
      then known (read_named b.rows WalEntry.insert_rows data_bytes)
      else if nat_beq type 4
      then known (read_named b.rows WalEntry.table_snapshot data_bytes)
      else if nat_beq type 5
      then known (read_named b.index_def WalEntry.create_index data_bytes)
      else if nat_beq type 6
      then known (read_drop_index data_bytes)
      else if nat_beq type 255
      then some (some WalEntry.checkpoint)
      else some none

-- the catalog and the storage
pub record Database : Type 0 where
  pub catalog : Catalog
  pub storage : Storage

module _ ⦃p : Platform⦄ where
  abbrev pub default_db : Text
  default_db = codes "srrdb"

  -- `map.clear()` through `get_table_mut`
  abbrev pub emptied : Storage → Text → Storage
  emptied s name = elim (get_table_mut s name) [ none ↦ s | some _ ↦ set_table s name [] ]

  abbrev pub with_catalog : Database → Result Catalog Text → Database × Bool
  with_catalog d (ok c) = (record d { catalog = c }, true)
  with_catalog d (err _) = (d, false)

  -- `apply_entry`: the flag is false where the catalog refused
  unfoldable pub apply_entry : Database → WalEntry → Database × Bool
  apply_entry d (WalEntry.create_table name columns) =
      with_catalog d (Catalog.create_table d.catalog default_db name columns)
  apply_entry d (WalEntry.drop_table name) = elim (Catalog.drop_table d.catalog default_db name) [
    | err _ ↦ (d, false)
    | ok c ↦ (record { catalog = c; storage = clear_table d.storage name }, true)
  ]
  apply_entry d (WalEntry.insert_rows name rows) =
      (record d { storage = (Storage.insert_rows d.storage name rows).0 }, true)
  apply_entry d (WalEntry.table_snapshot name rows) = (
    record d {
      storage =
          if is_empty rows
          then emptied d.storage name
          else (Storage.insert_rows (emptied d.storage name) name rows).0;
    },
    true,
  )
  apply_entry d (WalEntry.create_index db def) =
      let (c, r) = Catalog.create_index d.catalog db def in
      (record d { catalog = c }, elim r [ ok _ ↦ true | err _ ↦ false ])
  apply_entry d (WalEntry.drop_index db index table) =
      elim (Catalog.drop_index d.catalog db index table) [
        | err _ ↦ (d, false)
        | ok (c, _) ↦ (record d { catalog = c }, true)
      ]
  apply_entry d WalEntry.checkpoint = (d, true)

-- what a replay comes to
pub data Replay : Type 0 where
  -- the state, and the number of entries replayed
  replayed : Database → ℕ → Replay
  panicked : Replay

abbrev pub count_if : Bool → ℕ → ℕ
count_if true n = n + 1
count_if false n = n

module _ ⦃p : Platform⦄ ⦃b : Bincode⦄ where
  -- the loop of `Wal::replay`, on fuel
  unfoldable pub replay_loop : ℕ → Bytes → Database → ℕ → Replay
  replay_loop zero buf d n = replayed d n
  replay_loop (suc f) buf d n = elim (read_frame buf) [
    | Frame.stop ↦ replayed d n
    | Frame.panic ↦ panicked
    | Frame.entry type data_bytes rest ↦ elim (deserialize type data_bytes) [
      | none ↦ replayed d n
      | some none ↦ replay_loop f rest d (n + 1)
      | some (some e) ↦ replay_loop f rest (apply_entry d e).0 (count_if (apply_entry d e).1 n)
    ]
  ]

  -- `Wal::replay` of the bytes of the file: an entry takes at least one byte
  unfoldable pub replay : Bytes → Database → Replay
  replay buf d = replay_loop (suc (length buf)) buf d 0
