-- ===== src/Sql/Statements.antt =====
-- The statements of sqlparser's syntax trees, as far as the engine takes them apart.
use srrdb.Prelude.{ℕ, Bool, Option, List}
use srrdb.Std.Text.{Text}
use srrdb.Sql.Ast.{Expr, SelectItem, OrderByExpr}

-- the parts of a dotted name
abbrev pub ObjectName : Type 0
ObjectName = List Text

pub data DataType : Type 0 where
  int integer big_int small_int tiny_int float double text varchar char : DataType
  boolean blob date datetime timestamp json : DataType
  other : ℕ → DataType

-- a token is the word AUTO_INCREMENT or another
pub data Token : Type 0 where
  auto_increment : Token
  other : ℕ → Token

pub data ColumnOption : Type 0 where
  dialect_specific : List Token → ColumnOption
  default : Expr → ColumnOption
  other : ℕ → ColumnOption

pub record ColumnDef : Type 0 where
  pub name : Text
  pub data_type : DataType
  pub options : List ColumnOption

pub record CreateTable : Type 0 where
  pub name : ObjectName
  pub if_not_exists : Bool
  pub columns : List ColumnDef

pub record CreateIndex : Type 0 where
  pub name : Option ObjectName
  pub table_name : ObjectName
  pub using_type : Option Text
  -- the expressions of the columns
  pub columns : List Expr
  pub unique : Bool

pub data TableFactor : Type 0 where
  table : ObjectName → TableFactor
  other : ℕ → TableFactor

pub data SetExpr : Type 0 where
  -- the projection, the relations of FROM, the selection
  select : List SelectItem → List TableFactor → Option Expr → SetExpr
  values : List (List Expr) → SetExpr
  other : ℕ → SetExpr

pub data OrderByKind : Type 0 where
  expressions : List OrderByExpr → OrderByKind
  all : OrderByKind

pub record Query : Type 0 where
  pub body : SetExpr
  pub order_by : Option OrderByKind
  pub offset : Option Expr
  pub limit : Option Expr

pub data TableObject : Type 0 where
  table_name : ObjectName → TableObject
  other : ℕ → TableObject

pub record Insert : Type 0 where
  pub table : TableObject
  pub columns : List Text
  pub source : Option Query

pub record Delete : Type 0 where
  pub tables : List ObjectName
  -- the relations of FROM, with or without the keyword
  pub from : List TableFactor
  pub selection : Option Expr

pub data AssignmentTarget : Type 0 where
  column_name : ObjectName → AssignmentTarget
  tuple : List ObjectName → AssignmentTarget

pub record Assignment : Type 0 where
  pub target : AssignmentTarget
  pub value : Expr

pub data ObjectType : Type 0 where
  table database index : ObjectType
  other : ℕ → ObjectType

pub data UseTarget : Type 0 where
  database object : ObjectName → UseTarget
  other : ℕ → UseTarget

pub data Statement : Type 0 where
  create_table : CreateTable → Statement
  insert : Insert → Statement
  query : Query → Statement
  delete : Delete → Statement
  update : TableFactor → List Assignment → Option Expr → Statement
  -- the names, and IF EXISTS
  drop : ObjectType → List ObjectName → Bool → Statement
  -- the name, and IF NOT EXISTS
  create_database : ObjectName → Bool → Statement
  show_databases : Statement
  show_tables : Statement
  use_database : UseTarget → Statement
  explain_table : ObjectName → Statement
  create_index : CreateIndex → Statement
  other : ℕ → Statement
