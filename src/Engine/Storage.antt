-- ===== src/Engine/Storage.antt =====
-- src/engine/storage.rs: the rows of every table by id, the next ids, and the data of the indexes.
-- Tables are keyed by their normalized name alone, not by their database.
pub mod Insert
pub mod Order
pub mod Clear
pub mod Stored
use srrdb.Prelude.{
  ℕ, ◌+◌, ◌%◌, ◌^◌, Option, none, some, List, [], ◌∷◌, ◌++◌, ◌==◌, nat_eq, nat_ord, list_eq,
  if◌then◌else◌, filter, unwrap_or, leb,
}
use srrdb.Std.Text.{Text, codes, starts_with}
use srrdb.Std.HashMap
use srrdb.Std.HashMap.{HashMap}
use srrdb.Std.BTreeMap
use srrdb.Std.BTreeMap.{BTreeMap}
use srrdb.Std.Platform.{Platform}
use srrdb.Engine.Types.{Value}
use srrdb.Engine.Index.{IndexData}

pub record Row : Type 0 where
  pub id : ℕ
  pub values : List Value

abbrev pub Table : Type 0
Table = BTreeMap ℕ Row

pub record Storage : Type 0 where
  pub tables : HashMap Text Table
  pub next_ids : HashMap Text ℕ
  pub index_data : HashMap Text IndexData

-- `Storage::new`
abbrev pub new : Storage
new = record { tables = []; next_ids = []; index_data = [] }

abbrev pub u64_mod : ℕ
u64_mod = 2 ^ 64

-- what the loop of `insert_rows` changes: the table and its next id; the ids come out in order
pub record Inserted : Type 0 where
  pub table : Table
  pub next_id : ℕ
  pub ids : List ℕ

-- the id that a row gets
abbrev pub row_id : ℕ → Row → ℕ
row_id next_id row = if row.id == 0 then next_id else row.id

-- the next id after that row: `+ 1` wraps
abbrev pub bump_id : ℕ → Row → ℕ
bump_id next_id row =
    if row.id == 0
    then (next_id + 1) % u64_mod
    else if leb next_id row.id
    then (row.id + 1) % u64_mod
    else next_id

-- the loop of `insert_rows`
unfoldable pub insert_loop : List Row → Table → ℕ → Inserted
insert_loop [] table next_id = record { table = table; next_id = next_id; ids = [] }
insert_loop (row ∷ rows) table next_id =
    let id = row_id next_id row in
    let rest =
      insert_loop rows (BTreeMap.insert table id (record row { id = id })) (bump_id next_id row) in
    record rest { ids = id ∷ rest.ids }

module _ ⦃p : Platform⦄ where
  abbrev pub normalize : Text → Text
  normalize name = p.to_lowercase name

  -- the table under a name, empty where there is none
  abbrev pub table_or_empty : Storage → Text → Table
  table_or_empty s tn = unwrap_or (HashMap.get s.tables tn) []

  abbrev pub next_id_or_one : Storage → Text → ℕ
  next_id_or_one s tn = unwrap_or (HashMap.get s.next_ids tn) 1

  -- `Storage::insert_rows`
  unfoldable pub insert_rows : Storage → Text → List Row → Storage × List ℕ
  insert_rows s table_name rows =
      let tn = normalize table_name in
      let r = insert_loop rows (table_or_empty s tn) (next_id_or_one s tn) in
      (
        record s {
          tables = HashMap.insert s.tables tn r.table;
          next_ids = HashMap.insert s.next_ids tn r.next_id;
        },
        r.ids,
      )

  -- `Storage::get_rows`
  unfoldable pub get_rows : Storage → Text → List Row
  get_rows s table_name = BTreeMap.values (table_or_empty s (normalize table_name))

  -- `Storage::get_table_mut`, read; a write through it is a `set_table`
  unfoldable pub get_table_mut : Storage → Text → Option Table
  get_table_mut s table_name = HashMap.get s.tables (normalize table_name)

  unfoldable pub set_table : Storage → Text → Table → Storage
  set_table s table_name t = record s { tables = HashMap.insert s.tables (normalize table_name) t }

  -- `Storage::get_row`
  unfoldable pub get_row : Storage → Text → ℕ → Option Row
  get_row s table_name id = elim (HashMap.get s.tables (normalize table_name)) [
    | none ↦ none
    | some t ↦ BTreeMap.get t id
  ]

  -- the removal of a list of keys, one by one
  unfoldable pub remove_all : List Text → HashMap Text IndexData → HashMap Text IndexData
  remove_all [] m = m
  remove_all (k ∷ ks) m = remove_all ks (HashMap.remove m k)

  -- `Storage::clear_table`
  unfoldable pub clear_table : Storage → Text → Storage
  clear_table s table_name =
      let tn = normalize table_name in
      let index_names = filter (λ k. starts_with k (tn ++ codes ":")) (HashMap.keys s.index_data) in
      record {
        tables = HashMap.remove s.tables tn;
        next_ids = HashMap.remove s.next_ids tn;
        index_data = remove_all index_names s.index_data;
      }
