-- ===== src/Engine/Executor/Change/Indexed.antt =====
-- The indexes of a table after an UPDATE.
use srrdb.Prelude.{
  ℕ, ◌≡◌, refl, sym, ◌∙◌, ap, Bool, true, false, none, some, List, [], ◌∷◌, ◌++◌, arith, ◌==◌,
  list_eq, nat_eq, if◌then◌else◌, unwrap_or, Option-cases, map, inl, inr,
}
use srrdb.Std.Text.{Text}
use srrdb.Std.HashMap
use srrdb.Std.BTreeMap
use srrdb.Std.HashMap.{HashMap, get-insert}
use srrdb.Std.Platform.{Platform}
use srrdb.Engine.Types.Order.{value_eq}
use srrdb.Engine.Types.Columns.{Column}
use srrdb.Engine.Index
use srrdb.Engine.Index.{IndexDef, IndexData, IndexType, Key, lookup_eq, without}
use srrdb.Engine.State.Maintained.{
  NoData, data_of, data_of-insert, lookup_eq-insert_rows_into_indexes,
}
use srrdb.Engine.Wal.{Bincode}
use srrdb.Engine.Index.Entries.{lookup_eq-delete}
use srrdb.Sql.Ast.{Expr}
use srrdb.Engine.Storage.{Row, Table, Storage}
use srrdb.Engine.Executor.Change.{assign, change_rows}
use srrdb.Engine.Query.{index_key, get_index_key}
use srrdb.Engine.State.{delete_from_indexes_raw, delete_rows_from_indexes}
use srrdb.Engine.Executor.Indexes.Built.{ids_with}

less_of_none : (c : Bool) (i : ℕ) (xs : List ℕ) → xs ≡ [] → xs ≡ (if c then without i xs else xs)
less_of_none true i xs h = rw h refl
less_of_none false i xs h = refl

module _ ⦃p : Platform⦄ where
  lookup_eq-new : (t : IndexType) (k : Key) → lookup_eq (Index.new t) k ≡ []
  unfolding lookup_eq Index.new BTreeMap.get HashMap.get
  lookup_eq-new IndexType.btree k = refl
  lookup_eq-new IndexType.hash k = refl

  -- the ids that are left under a key when rows are taken out
  abbrev pub ids_less : IndexDef → List Column → List Row → Key → List ℕ → List ℕ
  ids_less def columns [] k ids = ids
  ids_less def columns (row ∷ rows) k ids =
      ids_less def columns rows k
        (if get_index_key row def columns == k then without row.id ids else ids)

  -- the data of an index with one row less
  abbrev row_less :
      HashMap Text IndexData → Text → IndexDef → List Column → Row → HashMap Text IndexData
  row_less m tn def columns row = elim (HashMap.get m (index_key tn def.name)) [
    | none ↦ m
    | some d ↦
        HashMap.insert m (index_key tn def.name)
          (Index.delete d (get_index_key row def columns) row.id)
  ]

  row_less-none :
      (m : HashMap Text IndexData) (tn : Text) (def : IndexDef) (columns : List Column) (row : Row)
      → HashMap.get m (index_key tn def.name) ≡ none
      → row_less m tn def columns row ≡ m
  row_less-none m tn def columns row e = rw (e, row_less) refl

  row_less-some :
      (m : HashMap Text IndexData) (tn : Text) (def : IndexDef) (columns : List Column) (row : Row)
      (d : IndexData)
      → HashMap.get m (index_key tn def.name) ≡ some d
      → row_less m tn def columns row
        ≡ HashMap.insert m
            (index_key tn def.name)
            (Index.delete d (get_index_key row def columns) row.id)
  row_less-some m tn def columns row d e = rw (e, row_less) refl

  get-row_less :
      (m : HashMap Text IndexData) (tn name : Text) (def : IndexDef) (columns : List Column)
      (row : Row)
      → (index_key tn def.name == name) ≡ false
      → HashMap.get (row_less m tn def columns row) name ≡ HashMap.get m name
  get-row_less m tn name def columns row h =
      elim (Option-cases (HashMap.get m (index_key tn def.name))) [
        | inl e ↦ ap (λ x. HashMap.get x name) (row_less-none m tn def columns row e)
        | inr (d, e) ↦
            let less : IndexData = Index.delete d (get_index_key row def columns) row.id in
            ap (λ x. HashMap.get x name) (row_less-some m tn def columns row d e)
            ∙ ground (arith, get-insert m (index_key tn def.name) name less, h)
      ]

  lookup_eq-row_less :
      (m : HashMap Text IndexData) (tn : Text) (def : IndexDef) (columns : List Column) (row : Row)
      (k : Key)
      → lookup_eq (data_of (row_less m tn def columns row) tn def) k
        ≡ ids_less def columns (row ∷ []) k (lookup_eq (data_of m tn def) k)
  lookup_eq-row_less m tn def columns row k =
      elim (Option-cases (HashMap.get m (index_key tn def.name))) [
        | inl e ↦
            ap (λ x. lookup_eq (data_of x tn def) k) (row_less-none m tn def columns row e)
            ∙ less_of_none (get_index_key row def columns == k) row.id
                (lookup_eq (data_of m tn def) k)
                (ap (λ o. lookup_eq (unwrap_or o (Index.new def.index_type)) k) e
                  ∙ lookup_eq-new def.index_type k)
        | inr (d, e) ↦
            ap (λ x. lookup_eq (data_of x tn def) k) (row_less-some m tn def columns row d e)
            ∙ ap (λ x. lookup_eq x k)
                (data_of-insert m tn def (Index.delete d (get_index_key row def columns) row.id))
            ∙ lookup_eq-delete d (get_index_key row def columns) k row.id
            ∙ ap
                (λ o.
                  ids_less def columns (row ∷ []) k
                    (lookup_eq (unwrap_or o (Index.new def.index_type)) k))
                (sym e)
      ]

  delete_raw-other :
      (defs : List IndexDef) (m : HashMap Text IndexData) (t name : Text) (columns : List Column)
      (row : Row)
      → NoData (p.to_lowercase t) name defs
      → HashMap.get (delete_from_indexes_raw m t defs columns row) name ≡ HashMap.get m name
  unfolding delete_from_indexes_raw
  delete_raw-other [] m t name columns row h = refl
  delete_raw-other (def ∷ defs) m t name columns row h =
      delete_raw-other defs (row_less m (p.to_lowercase t) def columns row) t name columns row h.1
      ∙ get-row_less m (p.to_lowercase t) name def columns row h.0

  delete_raw-one :
      (before : List IndexDef) (m : HashMap Text IndexData) (t : Text) (def : IndexDef)
      (after : List IndexDef) (columns : List Column) (row : Row) (k : Key)
      → NoData (p.to_lowercase t) (index_key (p.to_lowercase t) def.name) before
      → NoData (p.to_lowercase t) (index_key (p.to_lowercase t) def.name) after
      → lookup_eq
          (data_of
            (delete_from_indexes_raw m t (before ++ def ∷ after) columns row)
            (p.to_lowercase t)
            def)
          k
        ≡ ids_less def columns (row ∷ []) k (lookup_eq (data_of m (p.to_lowercase t) def) k)
  unfolding delete_from_indexes_raw
  delete_raw-one [] m t def after columns row k b a =
      ap (λ d. lookup_eq (unwrap_or d (Index.new def.index_type)) k)
        (delete_raw-other after (row_less m (p.to_lowercase t) def columns row) t
          (index_key (p.to_lowercase t) def.name) columns row a)
      ∙ lookup_eq-row_less m (p.to_lowercase t) def columns row k
  delete_raw-one (other ∷ before) m t def after columns row k b a =
      delete_raw-one before (row_less m (p.to_lowercase t) other columns row) t def after columns
        row k b.1 a
      ∙ ap
          (λ d.
            ids_less def columns (row ∷ []) k
              (lookup_eq (unwrap_or d (Index.new def.index_type)) k))
          (get-row_less m (p.to_lowercase t) (index_key (p.to_lowercase t) def.name) other columns
            row b.0)

  lookup_eq-delete_rows_from_indexes :
      (rows : List Row) (m : HashMap Text IndexData) (t : Text) (before : List IndexDef)
      (def : IndexDef) (after : List IndexDef) (columns : List Column) (k : Key)
      → NoData (p.to_lowercase t) (index_key (p.to_lowercase t) def.name) before
      → NoData (p.to_lowercase t) (index_key (p.to_lowercase t) def.name) after
      → lookup_eq
          (data_of
            (delete_rows_from_indexes m t (before ++ def ∷ after) columns rows)
            (p.to_lowercase t)
            def)
          k
        ≡ ids_less def columns rows k (lookup_eq (data_of m (p.to_lowercase t) def) k)
  unfolding delete_rows_from_indexes
  lookup_eq-delete_rows_from_indexes [] m t before def after columns k b a = refl
  lookup_eq-delete_rows_from_indexes (row ∷ rows) m t before def after columns k b a =
      lookup_eq-delete_rows_from_indexes rows
        (delete_from_indexes_raw m t (before ++ def ∷ after) columns row) t before def after columns
        k b a
      ∙ ap (ids_less def columns rows k) (delete_raw-one before m t def after columns row k b a)

module _ ⦃p : Platform⦄ ⦃b : Bincode⦄ where
  -- An UPDATE of the rows that its condition took leaves each index of the table, of either kind,
  -- with these ids under every key: those that it had there, less the ids of the taken rows that
  -- had the key, and then the ids of exactly the changed rows that have the key now, in their
  -- order: no other index of the table may have the data of the same name.
  pub lookup_eq-change_rows :
      (s : Storage) (t : Text) (before : List IndexDef) (def : IndexDef) (after : List IndexDef)
      (columns : List Column) (table : Table) (rows : List Row) (pairs : List (ℕ × Expr)) (k : Key)
      → NoData (p.to_lowercase t) (index_key (p.to_lowercase t) def.name) before
      → NoData (p.to_lowercase t) (index_key (p.to_lowercase t) def.name) after
      → lookup_eq
          (data_of
            (change_rows s t (before ++ def ∷ after) columns table rows pairs).index_data
            (p.to_lowercase t)
            def)
          k
        ≡ ids_less def columns rows k (lookup_eq (data_of s.index_data (p.to_lowercase t) def) k)
          ++ ids_with def columns
              (map (λ (r : Row). record r { values = assign pairs r.values }) rows)
              k
  unfolding change_rows
  lookup_eq-change_rows s t before def after columns table rows pairs k w v =
      let new_rows : List Row =
        map (λ (r : Row). record r { values = assign pairs r.values }) rows in
      lookup_eq-insert_rows_into_indexes
        (delete_rows_from_indexes s.index_data t (before ++ def ∷ after) columns rows) t before def
        after columns new_rows k w v
      ∙ ap (λ ids. ids ++ ids_with def columns new_rows k)
          (lookup_eq-delete_rows_from_indexes rows s.index_data t before def after columns k w v)
