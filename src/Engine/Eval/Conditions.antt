-- ===== src/Engine/Eval/Conditions.antt =====
-- What WHERE makes of a condition.
use srrdb.Prelude.{◌≡◌, Bool, true, false, ◌&&◌, some, List, arith}
use srrdb.Std.Platform.{Platform}
use srrdb.Sql.Ast.{BinaryOperator, Expr}
use srrdb.Engine.Types.{Value}
use srrdb.Engine.Types.Columns.{Column}
use srrdb.Engine.Eval.{eval_expr, eval_where, selects}

-- a column or a literal: what `eval_expr` evaluates
abbrev pub is_operand : Expr → Bool
is_operand (Expr.identifier name) = true
is_operand (Expr.value v) = true
is_operand _ = false

module _ ⦃u : Platform⦄ where
  -- A binary operation, AND and OR among them, one side of which is neither a column nor a literal
  -- fails to evaluate, and so takes no row, whatever the row.
  pub compound_takes_none :
      (left right : Expr) (op : BinaryOperator) (columns : List Column) (values : List Value)
      → is_operand left && is_operand right ≡ false
      → selects (Expr.binary_op left op right) columns values ≡ some false
  unfolding selects eval_where eval_expr
  compound_takes_none left right op columns values h = ground arith
