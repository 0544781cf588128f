-- ===== src/Sql/Ast.antt =====
-- The part of sqlparser's syntax trees that the engine takes apart. Every other form is one
-- constructor that carries a tag, which nothing reads.
use srrdb.Prelude.{ℕ, Bool, Option}
use srrdb.Std.Text.{Text}

pub data SqlValue : Type 0 where
  number : Text → SqlValue
  single_quoted_string : Text → SqlValue
  null : SqlValue
  other : ℕ → SqlValue

pub data BinaryOperator : Type 0 where
  eq not_eq gt gt_eq lt lt_eq and or : BinaryOperator
  other : ℕ → BinaryOperator

mutual
  pub data Expr : Type 0 where
    identifier : Text → Expr
    value : SqlValue → Expr
    binary_op : Expr → BinaryOperator → Expr → Expr
    -- negated, the text, the pattern
    like : Bool → Expr → Expr → Expr
    is_null : Expr → Expr
    is_not_null : Expr → Expr
    -- negated, the value, the ends
    between : Bool → Expr → Expr → Expr → Expr
    -- negated, the value, the list
    in_list : Bool → Expr → Exprs → Expr
    -- a call, by the name of the function
    function : Text → Expr
    wildcard : Expr
    other : ℕ → Expr

  pub data Exprs : Type 0 where
    nil : Exprs
    cons : Expr → Exprs → Exprs

pub data SelectItem : Type 0 where
  wildcard : SelectItem
  unnamed_expr : Expr → SelectItem
  other : ℕ → SelectItem

pub record OrderByExpr : Type 0 where
  pub expr : Expr
  pub asc : Option Bool
