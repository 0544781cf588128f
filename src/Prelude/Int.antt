-- ===== src/Prelude/Int.antt =====
-- The integers over the native numbers (Rust's `i64` values).
use Prim.Native.Nat.{ℕ, compare, Ordering}
use Prim.Native.Nat.Ordering.{lt, gt}
use mathlib.Core.Path.{◌≡◌}
use mathlib.Core.Logic.{◌↔◌}
use mathlib.Core.Bool.{Bool, true, false}
use native.Mathlib.Omega.{arith}
use srrdb.Prelude.Tests.{Eq, nat_beq, IsLawful, Ord}

-- `negsuc n` is -(n + 1).
pub data ℤ : Type 0 where
  pos : ℕ → ℤ
  negsuc : ℕ → ℤ

abbrev pub int_beq : ℤ → ℤ → Bool
int_beq (pos a) (pos b) = nat_beq a b
int_beq (negsuc a) (negsuc b) = nat_beq a b
int_beq _ _ = false

pub int_beq_iff : (a b : ℤ) → (int_beq a b ≡ true) ↔ (a ≡ b)
int_beq_iff a b = ground arith

instance abbrev pub int_eq : Eq ℤ
int_eq = record { beq = int_beq; beq_iff = int_beq_iff }

-- `i64::cmp`
abbrev pub int_cmp : ℤ → ℤ → Ordering
int_cmp (pos a) (pos b) = compare a b
int_cmp (pos a) (negsuc b) = gt
int_cmp (negsuc a) (pos b) = lt
int_cmp (negsuc a) (negsuc b) = compare b a

pub int_cmp-IsLawful : IsLawful int_cmp
int_cmp-IsLawful = ground arith

instance abbrev pub int_ord : Ord ℤ
int_ord = record { cmp = int_cmp; lawful = int_cmp-IsLawful }
