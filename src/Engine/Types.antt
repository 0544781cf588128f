-- ===== src/Engine/Types.antt =====
-- src/engine/types.rs: SQL values, their total order, and the columns of a table.
pub mod Order
pub mod Columns
use Prim.Native.Nat.Ordering.{lt, eq, gt}
use srrdb.Prelude.{
  ℕ, ◌≡◌, refl, Bool, true, false, compare, Ordering, List, [], ◌∷◌, arith, nat_beq, Eq, ◌==◌, ◌↔◌,
  Ord, nat_eq, list_eq, Option, nat_ord,
}
use srrdb.Prelude.Int.{ℤ, int_cmp, int_eq}
use srrdb.Std.Text.{Text, codes, list_cmp}
use srrdb.Std.Decimal.{nat_to_string, int_to_string}
use srrdb.Std.Platform.{Platform}

-- `f32` and `f64` stand as their bits. Two values are equal here when they have one constructor and
-- one content; the derived `==` differs at NaN and at the two zeros only.
pub data Value : Type 0 where
  null : Value
  int : ℤ → Value
  uint : ℕ → Value
  float : ℕ → Value
  double : ℕ → Value
  bytes : List ℕ → Value
  text : Text → Value

abbrev pub value_beq : Value → Value → Bool
value_beq null null = true
value_beq (int a) (int b) = a == b
value_beq (uint a) (uint b) = nat_beq a b
value_beq (float a) (float b) = nat_beq a b
value_beq (double a) (double b) = nat_beq a b
value_beq (bytes a) (bytes b) = a == b
value_beq (text a) (text b) = a == b
value_beq _ _ = false

-- the rank of a variant
abbrev pub variant_order : Value → ℕ
variant_order null = 0
variant_order (int _) = 1
variant_order (uint _) = 2
variant_order (float _) = 3
variant_order (double _) = 4
variant_order (bytes _) = 5
variant_order (text _) = 6

module _ ⦃p : Platform⦄ where
  -- `impl Ord for Value`
  abbrev pub value_ord_cmp : Value → Value → Ordering
  value_ord_cmp null null = eq
  value_ord_cmp (int a) (int b) = int_cmp a b
  value_ord_cmp (uint a) (uint b) = compare a b
  value_ord_cmp (float a) (float b) = p.f32_total_cmp a b
  value_ord_cmp (double a) (double b) = p.f64_total_cmp a b
  value_ord_cmp (bytes a) (bytes b) = list_cmp a b
  value_ord_cmp (text a) (text b) = list_cmp a b
  value_ord_cmp a b = compare (variant_order a) (variant_order b)

  -- `Value::to_string`
  unfoldable pub to_string : Value → Text
  to_string null = codes "NULL"
  to_string (int v) = int_to_string v
  to_string (uint v) = nat_to_string v
  to_string (float v) = p.f32_to_string v
  to_string (double v) = p.f64_to_string v
  to_string (bytes b) = p.utf8_lossy b
  to_string (text s) = s

pub data DefaultExpr : Type 0 where
  value : Value → DefaultExpr
  current_timestamp : DefaultExpr
