-- ===== src/Engine/Executor/Select/Indexed.antt =====
-- SELECT by an index against SELECT by the whole table.
use srrdb.Prelude.{
  ℕ, ◌≡◌, refl, sym, ap, ◌∙◌, true, false, Option, none, some, List, [], ◌∷◌, arith, ◌==◌, nat_eq,
  nat_ord, list_eq, list_beq_iff, Bool-cases, inl, inr, filter_map,
}
use srrdb.Std.Text.{Text}
use srrdb.Std.HashMap
use srrdb.Std.BTreeMap
use srrdb.Std.BTreeMap.Sorted.{Above, IsSorted, get-Above}
use srrdb.Std.Platform.{Platform}
use srrdb.Sql.Ast.{Expr, SqlValue, BinaryOperator}
use srrdb.Engine.Types.{Value}
use srrdb.Engine.Types.Order.{value_eq}
use srrdb.Engine.Types.Columns.{Column}
use srrdb.Engine.Index.{IndexDef, IndexData, Key, lookup_eq}
use srrdb.Engine.Storage.{Row, Table, Storage, get_rows, table_or_empty, normalize}
use srrdb.Engine.Storage.Stored.{Numbered, IsStored}
use srrdb.Engine.Eval.{
  column_position, value_at, sql_expr_to_value, eval_const_expr, eval_expr, values_equal, apply_op,
  eval_where, selects,
}
use srrdb.Engine.Query.{
  extract_column_ref, eq_condition, extract_eq_conditions, extract_eq_conditions_recursive,
  key_of_conditions, index_key, lookup_indexes, try_index_lookup, get_index_key,
}
use srrdb.Engine.Executor.Indexes.Built.{ids_with}
use srrdb.Engine.Executor.Select.{retain, rows_by_id, select_rows}

-- every row is found under its id
abbrev AllFound : Table → List Row → Type 0
AllFound t [] = Unit
AllFound t (row ∷ rows) = (BTreeMap.get t row.id ≡ some row) × AllFound t rows

AllFound-behind :
    (k : ℕ) (old : Row) (t : Table) (rows : List Row)
    → Above k t
    → AllFound t rows
    → AllFound ((k, old) ∷ t) rows
unfolding BTreeMap.get
AllFound-behind k old t [] a f = tt
AllFound-behind k old t (row ∷ rows) a f = (
  ground (arith, f.0, get-Above t k a, nat_ord.eq_of_cmp row.id k),
  AllFound-behind k old t rows a f.1,
)

AllFound-values : (n : ℕ) (t : Table) → Numbered n t → IsSorted t → AllFound t (BTreeMap.values t)
unfolding BTreeMap.values BTreeMap.get
AllFound-values n [] h s = tt
AllFound-values n ((k, row) ∷ t) h s = (
  ground (arith, h.0, nat_ord.cmp_refl k),
  AllFound-behind k row t (BTreeMap.values t) s.0 (AllFound-values n t h.3 s.1),
)

filter_map-found :
    (g : ℕ → Option Row) (id : ℕ) (ids : List ℕ) (row : Row)
    → g id ≡ some row
    → filter_map g (id ∷ ids) ≡ row ∷ filter_map g ids
filter_map-found g id ids row h = rw (h, filter_map) refl

key_eq : (a v : Value) → ((a ∷ []) == (v ∷ [])) ≡ (a == v)
key_eq a v = elim (Bool-cases (a == v)) [ inl q ↦ rw q refl | inr q ↦ rw q refl ]

module _ ⦃p : Platform⦄ where
  -- the condition takes no row but those with the key
  abbrev Takes : Expr → IndexDef → List Column → Key → List Row → Type 0
  Takes e def columns k [] = Unit
  Takes e def columns k (row ∷ rows) =
      ((get_index_key row def columns == k) ≡ false → selects e columns row.values ≡ some false)
      × Takes e def columns k rows

  retain-cons :
      (e : Expr) (columns : List Column) (row : Row) (rows rows' : List Row)
      → retain e columns rows ≡ retain e columns rows'
      → retain e columns (row ∷ rows) ≡ retain e columns (row ∷ rows')
  unfolding retain
  retain-cons e columns row rows rows' h =
      ap
        (λ rest. elim (selects e columns row.values) [
          | none ↦ none
          | some false ↦ rest
          | some true ↦ elim rest [ none ↦ none | some r ↦ some (row ∷ r) ]
        ])
        h

  retain-passed :
      (e : Expr) (columns : List Column) (row : Row) (rows : List Row)
      → selects e columns row.values ≡ some false
      → retain e columns (row ∷ rows) ≡ retain e columns rows
  unfolding retain
  retain-passed e columns row rows h = ground (arith, h)

  retain-by_id :
      (e : Expr) (def : IndexDef) (columns : List Column) (k : Key) (t : Table) (rows : List Row)
      → AllFound t rows
      → Takes e def columns k rows
      → retain e columns (filter_map (λ id. BTreeMap.get t id) (ids_with def columns rows k))
        ≡ retain e columns rows
  unfolding ids_with retain
  retain-by_id e def columns k t [] f h = refl
  retain-by_id e def columns k t (row ∷ rows) f h =
      let rest = retain-by_id e def columns k t rows f.1 h.1 in
      elim (Bool-cases (get_index_key row def columns == k)) [
        | inl q ↦ rw q (
            ap (retain e columns) (
              filter_map-found (λ id. BTreeMap.get t id) row.id (ids_with def columns rows k) row
                f.0)
            ∙ retain-cons e columns row
                (filter_map (λ id. BTreeMap.get t id) (ids_with def columns rows k)) rows rest)
        | inr q ↦ rw q (rest ∙ sym (retain-passed e columns row rows (h.0 q)))
      ]

  -- a condition of a column and a literal
  abbrev pub column_is : Text → SqlValue → Expr
  column_is name c = Expr.binary_op (Expr.identifier name) BinaryOperator.eq (Expr.value c)

  abbrev pub literal : SqlValue → Value
  literal c = sql_expr_to_value (Expr.value c)

  selects-column_is :
      (name : Text) (c : SqlValue) (columns : List Column) (values : List Value)
      → selects (column_is name c) columns values
        ≡ some (values_equal (value_at values (column_position columns name)) (literal c))
  unfolding selects eval_where eval_expr apply_op
  selects-column_is name c columns values = refl

  -- In every row the column equals the literal only where it is the same value.
  abbrev pub SameKind : Text → SqlValue → List Column → List Row → Type 0
  SameKind name c columns [] = Unit
  SameKind name c columns (row ∷ rows) =
      (values_equal (value_at row.values (column_position columns name)) (literal c)
        ≡ (value_at row.values (column_position columns name) == literal c))
      × SameKind name c columns rows

  get_index_key-single :
      (row : Row) (def : IndexDef) (columns : List Column) (name : Text)
      → def.columns ≡ name ∷ []
      → get_index_key row def columns ≡ value_at row.values (column_position columns name) ∷ []
  unfolding get_index_key
  get_index_key-single row def columns name d = rw d refl

  Takes-column_is :
      (name : Text) (c : SqlValue) (def : IndexDef) (columns : List Column) (rows : List Row)
      → def.columns ≡ name ∷ []
      → SameKind name c columns rows
      → Takes (column_is name c) def columns (literal c ∷ []) rows
  unfolding get_index_key
  Takes-column_is name c def columns [] d h = tt
  Takes-column_is name c def columns (row ∷ rows) d h = (
    λ q.
        selects-column_is name c columns row.values
        ∙ ap some (
            h.0
            ∙ sym (key_eq (value_at row.values (column_position columns name)) (literal c))
            ∙ ap (λ k. k == literal c ∷ []) (sym (get_index_key-single row def columns name d))
            ∙ q),
    Takes-column_is name c def columns rows d h.1,
  )

  extract_eq_conditions-column_is :
      (name : Text) (c : SqlValue)
      → eval_const_expr (Expr.value c) ≡ some (literal c)
      → extract_eq_conditions (column_is name c) ≡ (p.to_lowercase name, literal c) ∷ []
  unfolding extract_eq_conditions extract_eq_conditions_recursive eq_condition extract_column_ref
      HashMap.or_insert HashMap.get HashMap.insert
  extract_eq_conditions-column_is name c l = ground (arith, l)

  key_of_conditions-one :
      (name : Text) (v : Value)
      → key_of_conditions ((p.to_lowercase name, v) ∷ []) (name ∷ []) ≡ some (v ∷ [])
  unfolding key_of_conditions HashMap.get
  key_of_conditions-one name v =
      ground (arith, list_beq_iff (p.to_lowercase name) (p.to_lowercase name))

  try_index_lookup-column_is :
      (s : Storage) (table_name name : Text) (c : SqlValue) (def : IndexDef) (defs : List IndexDef)
      (d : IndexData)
      → def.columns ≡ name ∷ []
      → eval_const_expr (Expr.value c) ≡ some (literal c)
      → HashMap.get s.index_data (index_key (normalize table_name) def.name) ≡ some d
      → try_index_lookup s table_name (column_is name c) (def ∷ defs)
        ≡ some (lookup_eq d (literal c ∷ []))
  unfolding try_index_lookup lookup_indexes
  try_index_lookup-column_is s table_name name c def defs d o l g = ground (
    arith,
    extract_eq_conditions-column_is name c l,
    ap (key_of_conditions ((p.to_lowercase name, literal c) ∷ [])) o
        ∙ key_of_conditions-one name (literal c),
    g,
  )

  -- An equality of the index's one column, spelled as in the index, with a number, a text or NULL
  -- selects the same rows by the index as by the whole table, in the same order: the rows of the
  -- table are stored under their ids, the index is the first one on the table and holds under the
  -- literal the ids of the rows with that value, and no row has a value in that column that equals
  -- the literal without being the same value, or the other way round.
  pub select_rows-index :
      (s : Storage) (n : ℕ) (table_name name : Text) (c : SqlValue) (columns : List Column)
      (def : IndexDef) (defs : List IndexDef) (d : IndexData)
      → IsStored n (table_or_empty s (normalize table_name))
      → def.columns ≡ name ∷ []
      → eval_const_expr (Expr.value c) ≡ some (literal c)
      → HashMap.get s.index_data (index_key (normalize table_name) def.name) ≡ some d
      → lookup_eq d (literal c ∷ []) ≡ ids_with def columns (get_rows s table_name) (literal c ∷ [])
      → SameKind name c columns (get_rows s table_name)
      → select_rows s table_name columns (def ∷ defs) (some (column_is name c))
        ≡ retain (column_is name c) columns (get_rows s table_name)
  unfolding select_rows rows_by_id get_rows
  select_rows-index s n table_name name c columns def defs d w o l g ids same =
      ap
        (λ ids. elim ids [
          | some ids ↦ retain (column_is name c) columns (rows_by_id s table_name ids)
          | none ↦ retain (column_is name c) columns (get_rows s table_name)
        ])
        (try_index_lookup-column_is s table_name name c def defs d o l g ∙ ap some ids)
      ∙ retain-by_id (column_is name c) def columns (literal c ∷ [])
          (table_or_empty s (normalize table_name)) (get_rows s table_name)
          (AllFound-values n (table_or_empty s (normalize table_name)) w.1 w.2)
          (Takes-column_is name c def columns (get_rows s table_name) o same)
