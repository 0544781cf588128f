-- ===== src/Engine/Eval.antt =====
-- src/engine/executor.rs: the value of an expression on a row, and the test of WHERE.
pub mod Conditions
use srrdb.Prelude.{
  ℕ, Bool, true, false, not, ◌&&◌, ◌||◌, compare, Ordering, Option, none, some, List, ◌++◌, ◌==◌,
  if◌then◌else◌, is_empty, position, get_elem?, unwrap_or, Result, ok, err, Outcome, done, failed,
  panicked, ◌>>=◌, from_result, nat_eq, nat_ord, list_eq,
}
use srrdb.Prelude.Int.{pos, int_cmp, int_eq}
use srrdb.Std.Text.{Text, codes, eq_ignore_ascii_case, list_cmp}
use srrdb.Std.Decimal.{int_to_string, parse_i64}
use srrdb.Std.Platform.{Platform}
use srrdb.Sql.Ast.{SqlValue, BinaryOperator, Expr, Exprs, nil, cons}
use srrdb.Engine.Types.{Value, null, int, uint, float, double, bytes, text, to_string}
use srrdb.Engine.Types.Columns.{Column}
use srrdb.Engine.Like.{like_match}

-- `columns.iter().position(|c| c.name.eq_ignore_ascii_case(name))`
abbrev pub column_position : List Column → Text → Option ℕ
column_position columns name = position (λ c. eq_ignore_ascii_case c.name name) columns

-- the value at a position that may lie outside the row
abbrev pub value_at : List Value → Option ℕ → Value
value_at values none = null
value_at values (some i) = unwrap_or (get_elem? values i) null

module _ ⦃u : Platform⦄ where
  -- a number literal: `i64`, else `f64`, else text
  abbrev pub number_value : Text → Value
  number_value n = elim (parse_i64 n) [
    | some v ↦ int v
    | none ↦ elim (u.parse_f64 n) [ some v ↦ double v | none ↦ text n ]
  ]

  -- `sql_expr_to_value`
  unfoldable pub sql_expr_to_value : Expr → Value
  sql_expr_to_value (Expr.value (SqlValue.number n)) = number_value n
  sql_expr_to_value (Expr.value (SqlValue.single_quoted_string s)) = text s
  sql_expr_to_value (Expr.value SqlValue.null) = null
  sql_expr_to_value e = text (u.debug_expr e)

  -- `eval_const_expr`
  unfoldable pub eval_const_expr : Expr → Option Value
  eval_const_expr (Expr.value (SqlValue.number n)) = some (number_value n)
  eval_const_expr (Expr.value (SqlValue.single_quoted_string s)) = some (text s)
  eval_const_expr (Expr.value SqlValue.null) = some null
  eval_const_expr e = none

  abbrev pub cannot_evaluate : Expr → Text
  cannot_evaluate e = codes "Cannot evaluate expression: " ++ u.debug_expr e

  -- `eval_expr`
  unfoldable pub eval_expr : Expr → List Column → List Value → Result Value Text
  eval_expr (Expr.identifier name) columns values =
      ok (value_at values (column_position columns name))
  eval_expr (Expr.value v) columns values = ok (sql_expr_to_value (Expr.value v))
  eval_expr e columns values = err (cannot_evaluate e)

  -- `values_equal`
  unfoldable pub values_equal : Value → Value → Bool
  values_equal (int a) (int b) = a == b
  values_equal (uint a) (uint b) = a == b
  values_equal (float a) (float b) = u.f32_near a b
  values_equal (double a) (double b) = u.f64_near a b
  values_equal (text a) (text b) = a == b
  values_equal (text a) (bytes b) = a == b
  values_equal (bytes a) (text b) = a == b
  values_equal (int a) (text b) = int_to_string a == b
  values_equal (text a) (int b) = a == int_to_string b
  values_equal (int a) (float b) = u.f32_eq (u.f32_of_int a) b
  values_equal (float a) (int b) = u.f32_eq a (u.f32_of_int b)
  values_equal (int a) (double b) = u.f64_near (u.f64_of_int a) b
  values_equal (double a) (int b) = u.f64_near a (u.f64_of_int b)
  values_equal null b = false
  values_equal a null = false
  values_equal a b = to_string a == to_string b

  -- `value_cmp`
  unfoldable pub value_cmp : Value → Value → Option Ordering
  value_cmp (int a) (int b) = some (int_cmp a b)
  value_cmp (uint a) (uint b) = some (compare a b)
  value_cmp (float a) (float b) = u.f32_partial_cmp a b
  value_cmp (double a) (double b) = u.f64_partial_cmp a b
  value_cmp (int a) (double b) = u.f64_partial_cmp (u.f64_of_int a) b
  value_cmp (double a) (int b) = u.f64_partial_cmp a (u.f64_of_int b)
  value_cmp (int a) (float b) = u.f32_partial_cmp (u.f32_of_int a) b
  value_cmp (float a) (int b) = u.f32_partial_cmp a (u.f32_of_int b)
  value_cmp (text a) (text b) = some (list_cmp a b)
  value_cmp (int a) (text b) = some (list_cmp (int_to_string a) b)
  value_cmp (text a) (int b) = some (list_cmp a (int_to_string b))
  value_cmp _ _ = none

  -- `as_bool`
  unfoldable pub as_bool : Value → Option Bool
  as_bool (int n) = some (not (n == pos 0))
  as_bool (uint n) = some (not (n == 0))
  as_bool (text s) = some (not (is_empty s) && not (s == codes "0"))
  as_bool _ = none

  abbrev pub is_greater : Option Ordering → Bool
  is_greater (some Ordering.gt) = true
  is_greater _ = false

  abbrev pub is_less : Option Ordering → Bool
  is_less (some Ordering.lt) = true
  is_less _ = false

  abbrev pub is_equal : Option Ordering → Bool
  is_equal (some Ordering.eq) = true
  is_equal _ = false

  -- both sides as Booleans, else the error
  abbrev pub both_bools : Text → Value → Value → (Bool → Bool → Bool) → Outcome Bool Text
  both_bools message lv rv combine = elim (as_bool lv) [
    | none ↦ failed message
    | some lb ↦ elim (as_bool rv) [ none ↦ failed message | some rb ↦ done (combine lb rb) ]
  ]

  -- the match on the operator
  unfoldable pub apply_op : BinaryOperator → Value → Value → Outcome Bool Text
  apply_op BinaryOperator.eq lv rv = done (values_equal lv rv)
  apply_op BinaryOperator.not_eq lv rv = done (not (values_equal lv rv))
  apply_op BinaryOperator.gt lv rv = done (is_greater (value_cmp lv rv))
  apply_op BinaryOperator.gt_eq lv rv =
      done (is_greater (value_cmp lv rv) || is_equal (value_cmp lv rv))
  apply_op BinaryOperator.lt lv rv = done (is_less (value_cmp lv rv))
  apply_op BinaryOperator.lt_eq lv rv =
      done (is_less (value_cmp lv rv) || is_equal (value_cmp lv rv))
  apply_op BinaryOperator.and lv rv = both_bools (codes "AND needs bool") lv rv (λ a b. a && b)
  apply_op BinaryOperator.or lv rv = both_bools (codes "OR needs bool") lv rv (λ a b. a || b)
  apply_op op lv rv = failed (codes "Unsupported operator: " ++ u.debug_op op)

  -- the match on the two comparisons of BETWEEN
  abbrev pub is_between : Option Ordering → Option Ordering → Bool
  is_between (some a) (some b) = not (is_less (some a)) && not (is_greater (some b))
  is_between _ _ = false

  -- whether an item of the list equals the value; an item that cannot be evaluated does not
  unfoldable pub in_items : Value → Exprs → List Column → List Value → Bool
  in_items v nil columns values = false
  in_items v (cons item items) columns values =
      elim (eval_expr item columns values) [ ok iv ↦ values_equal v iv | err _ ↦ false ]
      || in_items v items columns values

  -- what comes of a value of LIKE
  abbrev pub like_outcome : Bool → Option Bool → Outcome Bool Text
  like_outcome negated none = panicked
  like_outcome negated (some result) = done (if negated then not result else result)

  abbrev pub is_null_value : Value → Bool
  is_null_value null = true
  is_null_value _ = false

  -- `eval_where`
  unfoldable pub eval_where : Expr → List Column → List Value → Outcome Bool Text
  eval_where (Expr.binary_op left op right) columns values = do
    lv ← from_result (eval_expr left columns values)
    rv ← from_result (eval_expr right columns values)
    apply_op op lv rv
  eval_where (Expr.like negated e pattern) columns values = do
    lv ← from_result (eval_expr e columns values)
    rv ← from_result (eval_expr pattern columns values)
    like_outcome negated (like_match lv rv)
  eval_where (Expr.is_null e) columns values = do
    v ← from_result (eval_expr e columns values)
    done (is_null_value v)
  eval_where (Expr.is_not_null e) columns values = do
    v ← from_result (eval_expr e columns values)
    done (not (is_null_value v))
  eval_where (Expr.between negated inner low high) columns values = do
    v ← from_result (eval_expr inner columns values)
    lv ← from_result (eval_expr low columns values)
    hv ← from_result (eval_expr high columns values)
    let between = is_between (value_cmp v lv) (value_cmp v hv)
    done (if negated then not between else between)
  eval_where (Expr.in_list negated inner list) columns values = do
    v ← from_result (eval_expr inner columns values)
    let found = in_items v list columns values
    done (if negated then not found else found)
  eval_where e columns values = do
    v ← from_result (eval_expr e columns values)
    done (unwrap_or (as_bool v) false)

  -- `eval_where(..).unwrap_or(false)`, where `none` is a panic
  unfoldable pub selects : Expr → List Column → List Value → Option Bool
  selects e columns values = elim (eval_where e columns values) [
    | done b ↦ some b
    | failed _ ↦ some false
    | panicked ↦ none
  ]
