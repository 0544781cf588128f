-- ===== src/Engine/Catalog.antt =====
-- src/engine/catalog.rs: the databases with their tables and indexes, and the auto-increment
-- sequences, which are keyed by the table's normalized name alone.
pub mod Tables
pub mod Indexes
use srrdb.Prelude.{
  ℕ, ◌+◌, ◌%◌, Bool, false, not, Option, none, some, List, [], ◌∷◌, ◌++◌, nat_eq, list_eq,
  if◌then◌else◌, any, find, position, remove_at, unwrap_or, get_elem?, is_some,
}
use srrdb.Prelude.{Result, ok, err}
use srrdb.Std.Text.{Text, codes, eq_ignore_ascii_case}
use srrdb.Std.HashMap
use srrdb.Std.HashMap.{HashMap}
use srrdb.Std.Platform.{Platform}
use srrdb.Engine.Types.Columns.{Column}
use srrdb.Engine.Index.{IndexDef}
use srrdb.Engine.Storage.{normalize, u64_mod}

pub record TableDef : Type 0 where
  pub name : Text
  pub columns : List Column

pub record DatabaseDef : Type 0 where
  pub name : Text
  pub tables : HashMap Text TableDef
  pub indexes : HashMap Text (List IndexDef)

pub record Catalog : Type 0 where
  pub databases : HashMap Text DatabaseDef
  pub sequences : HashMap Text ℕ

abbrev pub empty_database : Text → DatabaseDef
empty_database name = record { name = name; tables = []; indexes = [] }

-- the messages of errors
abbrev pub unknown_database : Text → Text
unknown_database db_name = codes "Unknown database: " ++ db_name

abbrev pub unknown_table : Text → Text
unknown_table table_name = codes "Unknown table: " ++ table_name

abbrev pub table_exists_error : Text → Text
table_exists_error table_name = codes "Table '" ++ (table_name ++ codes "' already exists")

abbrev pub index_exists_error : Text → Text
index_exists_error name = codes "Index '" ++ (name ++ codes "' already exists")

abbrev pub no_indexes_error : Text → Text
no_indexes_error table_name = codes "No indexes on table '" ++ (table_name ++ codes "'")

abbrev pub unknown_index : Text → Text
unknown_index index_name = codes "Unknown index: " ++ index_name

module _ ⦃p : Platform⦄ where
  -- `Catalog::new`
  unfoldable pub new : Catalog
  new = record {
    databases = HashMap.insert [] (normalize (codes "srrdb")) (empty_database (codes "srrdb"));
    sequences = [];
  }

  -- `Catalog::get_database`, and the read of `get_database_mut`
  unfoldable pub get_database : Catalog → Text → Option DatabaseDef
  get_database c name = HashMap.get c.databases (normalize name)

  -- a write through a mutable reference to a database
  abbrev pub set_database : Catalog → Text → DatabaseDef → Catalog
  set_database c name db = record c { databases = HashMap.insert c.databases (normalize name) db }

  -- `Catalog::create_database`
  unfoldable pub create_database : Catalog → Text → Catalog
  create_database c name = record c {
    databases = HashMap.or_insert c.databases (normalize name) (empty_database name);
  }

  -- `Catalog::database_exists`
  unfoldable pub database_exists : Catalog → Text → Bool
  database_exists c name = HashMap.contains_key c.databases (normalize name)

  -- `Catalog::remove_database`
  unfoldable pub remove_database : Catalog → Text → Catalog × Option DatabaseDef
  remove_database c name = (
    record c { databases = HashMap.remove c.databases (normalize name) },
    HashMap.get c.databases (normalize name),
  )

  -- the database with a table more, and an entry for its indexes
  abbrev pub add_table : DatabaseDef → Text → TableDef → DatabaseDef
  add_table db tn def = record db {
    tables = HashMap.insert db.tables tn def;
    indexes = HashMap.or_insert db.indexes tn [];
  }

  -- `Catalog::create_table`
  unfoldable pub create_table : Catalog → Text → Text → List Column → Result Catalog Text
  create_table c db_name table_name columns =
      let tn = normalize table_name in
      elim (HashMap.get c.databases (normalize db_name)) [
        | none ↦ err (unknown_database db_name)
        | some db ↦
            if HashMap.contains_key db.tables tn
            then err (table_exists_error table_name)
            else ok (record {
              databases =
                  HashMap.insert c.databases (normalize db_name)
                    (add_table db tn (record { name = table_name; columns = columns }));
              sequences = HashMap.insert c.sequences tn 1;
            })
      ]

  -- `Catalog::drop_table`
  unfoldable pub drop_table : Catalog → Text → Text → Result Catalog Text
  drop_table c db_name table_name =
      let tn = normalize table_name in
      elim (HashMap.get c.databases (normalize db_name)) [
        | none ↦ err (unknown_database db_name)
        | some db ↦ elim (HashMap.get db.tables tn) [
          | none ↦ err (unknown_table table_name)
          | some _ ↦ ok (record {
            databases = HashMap.insert c.databases (normalize db_name) (record db {
              tables = HashMap.remove db.tables tn;
              indexes = HashMap.remove db.indexes tn;
            });
            sequences = HashMap.remove c.sequences tn;
          })
        ]
      ]

  -- `Catalog::get_table`
  unfoldable pub get_table : Catalog → Text → Text → Result TableDef Text
  get_table c db_name table_name = elim (HashMap.get c.databases (normalize db_name)) [
    | none ↦ err (unknown_database db_name)
    | some db ↦ elim (HashMap.get db.tables (normalize table_name)) [
      | none ↦ err (unknown_table table_name)
      | some def ↦ ok def
    ]
  ]

  -- `Catalog::next_row_id`: `+` wraps
  unfoldable pub next_row_id : Catalog → Text → ℕ → Catalog × ℕ
  next_row_id c table_name count =
      let tn = normalize table_name in
      let current = unwrap_or (HashMap.get c.sequences tn) 1 in
      (
        record c { sequences = HashMap.insert c.sequences tn ((current + count) % u64_mod) },
        current,
      )

  -- `Catalog::table_exists`
  unfoldable pub table_exists : Catalog → Text → Text → Bool
  table_exists c db_name table_name = elim (HashMap.get c.databases (normalize db_name)) [
    | none ↦ false
    | some db ↦ is_some (HashMap.get db.tables (normalize table_name))
  ]

  -- the test for an index's name
  abbrev pub is_named : Text → IndexDef → Bool
  is_named name i = eq_ignore_ascii_case i.name name

  -- `Catalog::create_index`; where the name is taken, the `or_default` of the entry stays.
  unfoldable pub create_index : Catalog → Text → IndexDef → Catalog × Result (Unit {0}) Text
  create_index c db_name index_def =
      let tn = normalize index_def.table_name in
      elim (HashMap.get c.databases (normalize db_name)) [
        | none ↦ (c, err (unknown_database db_name))
        | some db ↦
            let indexes = unwrap_or (HashMap.get db.indexes tn) [] in
            let with_indexes = λ (l : List IndexDef).
              set_database c db_name (record db { indexes = HashMap.insert db.indexes tn l }) in
            if not (HashMap.contains_key db.tables tn)
            then (c, err (unknown_table index_def.table_name))
            else if any (is_named index_def.name) indexes
            then (with_indexes indexes, err (index_exists_error index_def.name))
            else (with_indexes (indexes ++ index_def ∷ []), ok tt)
      ]

  -- `Catalog::drop_index`; `position` finds a place of the list, so the inner `none` is not met.
  unfoldable pub drop_index : Catalog → Text → Text → Text → Result (Catalog × IndexDef) Text
  drop_index c db_name index_name table_name =
      let tn = normalize table_name in
      elim (HashMap.get c.databases (normalize db_name)) [
        | none ↦ err (unknown_database db_name)
        | some db ↦ elim (HashMap.get db.indexes tn) [
          | none ↦ err (no_indexes_error table_name)
          | some indexes ↦ elim (position (is_named index_name) indexes) [
            | none ↦ err (unknown_index index_name)
            | some pos ↦ elim (get_elem? indexes pos) [
              | none ↦ err (unknown_index index_name)
              | some def ↦ ok (
                set_database c db_name
                    (record db { indexes = HashMap.insert db.indexes tn (remove_at indexes pos) }),
                def,
              )
            ]
          ]
        ]
      ]

  -- `Catalog::get_table_indexes`
  unfoldable pub get_table_indexes : Catalog → Text → Text → List IndexDef
  get_table_indexes c db_name table_name = elim (HashMap.get c.databases (normalize db_name)) [
    | none ↦ []
    | some db ↦ unwrap_or (HashMap.get db.indexes (normalize table_name)) []
  ]

  -- `Catalog::get_index`
  unfoldable pub get_index : Catalog → Text → Text → Text → Option IndexDef
  get_index c db_name table_name index_name = elim (HashMap.get c.databases (normalize db_name)) [
    | none ↦ none
    | some db ↦ elim (HashMap.get db.indexes (normalize table_name)) [
      | none ↦ none
      | some indexes ↦ find (is_named index_name) indexes
    ]
  ]
