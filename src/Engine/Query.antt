-- ===== src/Engine/Query.antt =====
-- src/engine/executor.rs: the helpers of SELECT: projection, order, limits, and the conditions by
-- which an index is looked up.
use Prim.Native.Nat.Ordering.{lt, eq, gt}
use srrdb.Prelude.{
  ℕ, Bool, true, ◌||◌, Ordering, Option, none, some, List, [], ◌∷◌, ◌++◌, if◌then◌else◌, is_empty,
  find, flat_map, filter_map, get_elem?, unwrap_or, nat_eq, list_eq, map,
}
use srrdb.Std.Text.{Text, codes, eq_ignore_ascii_case}
use srrdb.Std.HashMap
use srrdb.Std.HashMap.{HashMap}
use srrdb.Std.Decimal.{parse_u64}
use srrdb.Std.Platform.{Platform}
use srrdb.Sql.Ast.{SqlValue, BinaryOperator, Expr, SelectItem, OrderByExpr}
use srrdb.Engine.Types.{Value, null, text}
use srrdb.Engine.Types.Columns
use srrdb.Engine.Types.Columns.{Column, ColumnType}
use srrdb.Engine.Index.{IndexDef, Key, lookup_eq}
use srrdb.Engine.Storage.{Row, Storage}
use srrdb.Engine.Sort.{sort_by, is_order}
use srrdb.Engine.Eval.{column_position, value_at, eval_const_expr, value_cmp}

-- `find_column`
unfoldable pub find_column : List Column → Text → Column
find_column columns name =
    unwrap_or (find (λ c. eq_ignore_ascii_case c.name name) columns)
      (Columns.new name [] ColumnType.var_char)

-- one item of a projection
unfoldable pub project_item : List Column → List Value → SelectItem → List Value
project_item columns values SelectItem.wildcard = values
project_item columns values (SelectItem.unnamed_expr Expr.wildcard) = values
project_item columns values (SelectItem.unnamed_expr (Expr.identifier name)) =
    value_at values (column_position columns name) ∷ []
project_item columns values (SelectItem.unnamed_expr (Expr.value v)) = text (codes "?") ∷ []
project_item columns values item = null ∷ []

-- `project_row`
unfoldable pub project_row : List SelectItem → List Column → List Value → List Value
unfolding project_item
project_row projection columns values = flat_map (project_item columns values) projection

-- the columns of the result, for one item
unfoldable pub item_columns : Text → List Column → SelectItem → List Column
item_columns table_name columns SelectItem.wildcard = columns
item_columns table_name columns (SelectItem.unnamed_expr Expr.wildcard) = columns
item_columns table_name columns (SelectItem.unnamed_expr (Expr.identifier name)) =
    find_column columns name ∷ []
item_columns table_name columns item = Columns.new (codes "?") table_name ColumnType.var_char ∷ []

-- the order of ORDER BY from a comparison of values
abbrev pub directed : Bool → Option Ordering → Ordering
directed ascending (some lt) = if ascending then lt else gt
directed ascending (some gt) = if ascending then gt else lt
directed ascending _ = eq

-- `limit_value` and `offset_value`
unfoldable pub limit_value : Expr → ℕ
limit_value (Expr.value (SqlValue.number n)) = unwrap_or (parse_u64 n) 0
limit_value e = 0

unfoldable pub offset_value : Expr → ℕ
offset_value (Expr.value (SqlValue.number n)) = unwrap_or (parse_u64 n) 0
offset_value e = 0

-- `extract_column_ref`
unfoldable pub extract_column_ref : Expr → Option Text
extract_column_ref (Expr.identifier name) = some name
extract_column_ref e = none

module _ ⦃u : Platform⦄ where
  -- the comparison of two rows by one column
  abbrev pub row_cmp : ℕ → Bool → Row → Row → Ordering
  row_cmp idx ascending a b =
      directed ascending (value_cmp (value_at a.values (some idx)) (value_at b.values (some idx)))

  -- `rows.sort_by(..)`: where the comparison is no order on the rows, the result is the library's,
  -- which may panic
  unfoldable pub sort_compared : (Row → Row → Ordering) → List Row → Option (List Row)
  sort_compared cmp rows =
      if is_order cmp rows
      then some (sort_by cmp rows)
      else elim (u.sort_unordered (map (λ a. map (λ b. cmp a b) rows) rows)) [
        | none ↦ none
        | some places ↦ some (filter_map (λ i. get_elem? rows i) places)
      ]

  -- one key of ORDER BY; a key that is no column of the table is passed over
  unfoldable pub sort_step : List Column → OrderByExpr → List Row → Option (List Row)
  sort_step columns ob rows = elim (extract_column_ref ob.expr) [
    | none ↦ some rows
    | some name ↦ elim (column_position columns name) [
      | none ↦ some rows
      | some idx ↦ sort_compared (row_cmp idx (unwrap_or ob.asc true)) rows
    ]
  ]

  -- `sort_rows`: the keys are sorted by from the last to the first; `none` is a panic.
  unfoldable pub sort_rows : List Row → List OrderByExpr → List Column → Option (List Row)
  sort_rows rows [] columns = some rows
  sort_rows rows (ob ∷ order_by) columns = elim (sort_rows rows order_by columns) [
    | none ↦ none
    | some sorted ↦ sort_step columns ob sorted
  ]

  abbrev pub Conditions : Type 0
  Conditions = HashMap Text Value

  -- a condition `column = constant`, if the two expressions are that
  unfoldable pub eq_condition : Expr → Expr → Option (Text × Value)
  unfolding extract_column_ref eval_const_expr
  eq_condition column constant = elim (extract_column_ref column) [
    | none ↦ none
    | some name ↦ elim (eval_const_expr constant) [ none ↦ none | some v ↦ some (name, v) ]
  ]

  -- `acc.entry(col_name.to_lowercase()).or_insert(val)`
  abbrev pub add_condition : Text × Value → Conditions → Conditions
  add_condition c acc = HashMap.or_insert acc (u.to_lowercase c.0) c.1

  -- `extract_eq_conditions_recursive`
  unfoldable pub extract_eq_conditions_recursive : Expr → Conditions → Conditions
  extract_eq_conditions_recursive (Expr.binary_op left BinaryOperator.and right) acc =
      extract_eq_conditions_recursive right (extract_eq_conditions_recursive left acc)
  extract_eq_conditions_recursive (Expr.binary_op left BinaryOperator.eq right) acc =
      elim (eq_condition left right) [
        | some c ↦ add_condition c acc
        | none ↦ elim (eq_condition right left) [ some c ↦ add_condition c acc | none ↦ acc ]
      ]
  extract_eq_conditions_recursive e acc = acc

  -- `extract_eq_conditions`
  unfoldable pub extract_eq_conditions : Expr → Conditions
  extract_eq_conditions e = extract_eq_conditions_recursive e HashMap.new

  -- the key of an index from the conditions, where every column has one
  unfoldable pub key_of_conditions : Conditions → List Text → Option Key
  key_of_conditions conditions [] = some []
  key_of_conditions conditions (name ∷ names) =
      elim (HashMap.get conditions (u.to_lowercase name)) [
        | none ↦ none
        | some v ↦ elim (key_of_conditions conditions names) [ none ↦ none | some k ↦ some (v ∷ k) ]
      ]

  -- the name of an index's data: `format!("{}:{}", tn, name.to_lowercase())`
  abbrev pub index_key : Text → Text → Text
  index_key tn name = tn ++ (codes ":" ++ u.to_lowercase name)

  -- the loop of `try_index_lookup`: the first index whose key is given, and whose data is there
  unfoldable pub lookup_indexes : Storage → Text → Conditions → List IndexDef → Option (List ℕ)
  lookup_indexes s tn conditions [] = none
  lookup_indexes s tn conditions (def ∷ defs) =
      let next = lookup_indexes s tn conditions defs in
      elim (key_of_conditions conditions def.columns) [
        | none ↦ next
        | some key ↦
            if is_empty key then next else elim (HashMap.get s.index_data (index_key tn def.name)) [
              | none ↦ next
              | some d ↦ some (lookup_eq d key)
            ]
      ]

  -- `try_index_lookup`
  unfoldable pub try_index_lookup : Storage → Text → Expr → List IndexDef → Option (List ℕ)
  try_index_lookup s table_name selection indexes =
      let conditions = extract_eq_conditions selection in
      if is_empty indexes || is_empty conditions
      then none
      else lookup_indexes s (u.to_lowercase table_name) conditions indexes

-- `get_index_key`: the values of a row in the columns of an index
unfoldable pub get_index_key : Row → IndexDef → List Column → Key
get_index_key row def columns =
    map (λ name. value_at row.values (column_position columns name)) def.columns
