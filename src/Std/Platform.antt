-- ===== src/Std/Platform.antt =====
-- What the program takes from the standard library's tables and from the machine: Unicode case
-- mapping, UTF-8 validation, and the arithmetic of `f32` and `f64`, whose values are their bits;
-- and the text that `{:?}` prints of a syntax tree.
use srrdb.Prelude.{ℕ, ◌≡◌, Bool, Ordering, Option, List, IsLawful}
use srrdb.Prelude.Int.{ℤ}
use srrdb.Std.Text.{Text}
use srrdb.Sql.Ast.{BinaryOperator, Expr}

pub record Platform : Type 0 where
  pub to_lowercase : Text → Text
  pub to_uppercase : Text → Text
  -- `str::trim`
  pub trim : Text → Text
  -- the lowercase of a lowercase text is that text
  pub lowercase_idem : (s : Text) → to_lowercase (to_lowercase s) ≡ to_lowercase s
  -- `str::from_utf8(..).is_ok()`, and `String::from_utf8_lossy`
  pub is_utf8 : Text → Bool
  pub utf8_lossy : Text → Text
  -- The places in which `slice::sort_by` leaves the elements of a slice, from the results of the
  -- comparison on any two of them, where that is no order; it may panic then.
  pub sort_unordered : List (List Ordering) → Option (List ℕ)
  -- `total_cmp`: a linear order on the bits
  pub f32_total_cmp : ℕ → ℕ → Ordering
  pub f64_total_cmp : ℕ → ℕ → Ordering
  pub f32_total_lawful : IsLawful f32_total_cmp
  pub f64_total_lawful : IsLawful f64_total_cmp
  -- `partial_cmp`
  pub f32_partial_cmp : ℕ → ℕ → Option Ordering
  pub f64_partial_cmp : ℕ → ℕ → Option Ordering
  -- `a == b`
  pub f32_eq : ℕ → ℕ → Bool
  -- `(a - b).abs() < EPSILON`
  pub f32_near : ℕ → ℕ → Bool
  pub f64_near : ℕ → ℕ → Bool
  -- `n as f32`, `n as f64`
  pub f32_of_int : ℤ → ℕ
  pub f64_of_int : ℤ → ℕ
  -- `x + 1.0`
  pub f32_succ : ℕ → ℕ
  pub f64_succ : ℕ → ℕ
  -- `to_string()`
  pub f32_to_string : ℕ → Text
  pub f64_to_string : ℕ → Text
  -- `str::parse::<f64>().ok()`
  pub parse_f64 : Text → Option ℕ
  -- `format!("{expr:?}")` and `format!("{op:?}")`
  pub debug_expr : Expr → Text
  pub debug_op : BinaryOperator → Text
