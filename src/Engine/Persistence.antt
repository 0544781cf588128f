-- ===== src/Engine/Persistence.antt =====
-- src/engine/persistence.rs: the files of the data directory. Reads and writes of a file succeed;
-- a write replaces the file at once, as `atomic_write` does.
use srrdb.Prelude.{Bool, Option, none, some, List, [], is_some, nat_eq, list_eq}
use srrdb.Std.Text.{Text}
use srrdb.Std.HashMap
use srrdb.Std.HashMap.{HashMap}
use srrdb.Std.BTreeMap
use srrdb.Std.Platform.{Platform}
use srrdb.Engine.Index.{IndexData}
use srrdb.Engine.Storage.{Row, Table}
use srrdb.Engine.Catalog.{Catalog}
use srrdb.Engine.Wal.{Bytes, Bincode}

-- `catalog.srrdb`, `tables/*.srrdb` and `indexes/*.idx`, by what the name has before its suffix
pub record Files : Type 0 where
  pub catalog : Option Bytes
  pub tables : HashMap Text Bytes
  pub indexes : HashMap Text Bytes

abbrev pub empty : Files
empty = record { catalog = none; tables = []; indexes = [] }

-- `Persistence::has_existing_data`
unfoldable pub has_existing_data : Files → Bool
has_existing_data f = is_some f.catalog

module _ ⦃p : Platform⦄ ⦃b : Bincode⦄ where
  abbrev read {ℓ} : {A : Type ℓ} → (Bytes → Option A) → Option Bytes → Option A
  read decode none = none
  read decode (some data_bytes) = decode data_bytes

  -- `Persistence::load_catalog`
  unfoldable pub load_catalog : Files → Option Catalog
  load_catalog f = read b.catalog.deserialize f.catalog

  -- `Persistence::save_catalog`
  unfoldable pub save_catalog : Files → Catalog → Files
  save_catalog f c = record f { catalog = some (b.catalog.serialize c) }

  -- `Persistence::load_table_data`
  unfoldable pub load_table_data : Files → Text → Option (List Row)
  load_table_data f name = read b.rows.deserialize (HashMap.get f.tables (p.to_lowercase name))

  -- `Persistence::save_table_data`
  unfoldable pub save_table_data : Files → Text → Table → Files
  save_table_data f name t = record f {
    tables = HashMap.insert f.tables (p.to_lowercase name) (b.rows.serialize (BTreeMap.values t));
  }

  -- `Persistence::remove_table_data`
  unfoldable pub remove_table_data : Files → Text → Files
  remove_table_data f name = record f { tables = HashMap.remove f.tables (p.to_lowercase name) }

  -- `Persistence::load_index_data`
  unfoldable pub load_index_data : Files → Text → Option IndexData
  load_index_data f name =
      read b.index_data.deserialize (HashMap.get f.indexes (p.to_lowercase name))

  -- `Persistence::save_index_data`
  unfoldable pub save_index_data : Files → Text → IndexData → Files
  save_index_data f name d = record f {
    indexes = HashMap.insert f.indexes (p.to_lowercase name) (b.index_data.serialize d);
  }

  -- `Persistence::remove_index_data`
  unfoldable pub remove_index_data : Files → Text → Files
  remove_index_data f name = record f { indexes = HashMap.remove f.indexes (p.to_lowercase name) }
