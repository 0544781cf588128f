-- ===== src/Engine/Types/Order.antt =====
-- `Value` is linearly ordered, and its equality is decided.
use Prim.Native.Nat.Ordering.{lt, eq, gt}
use srrdb.Prelude.{
  ℕ, ◌≡◌, refl, true, arith, Eq, ◌↔◌, Ord, IsLawful, nat_eq, nat_ord, list_eq, list_beq_iff,
}
use srrdb.Prelude.Int.{int_cmp-IsLawful, int_beq_iff}
use srrdb.Std.Text.{list_cmp-IsLawful}
use srrdb.Std.Platform.{Platform}
use srrdb.Engine.Types.{
  Value, null, int, uint, float, double, bytes, text, value_beq, value_ord_cmp,
}

pub value_beq_iff : (a b : Value) → (value_beq a b ≡ true) ↔ (a ≡ b)
value_beq_iff null b = ground arith
value_beq_iff (int x) (int y) = ground (arith, int_beq_iff x y)
value_beq_iff (bytes x) (bytes y) = ground (arith, list_beq_iff x y)
value_beq_iff (text x) (text y) = ground (arith, list_beq_iff x y)
value_beq_iff _ _ = ground arith

instance abbrev pub value_eq : Eq Value
value_eq = record { beq = value_beq; beq_iff = value_beq_iff }

module _ ⦃p : Platform⦄ where
  value_cmp_refl : (a : Value) → value_ord_cmp a a ≡ eq
  value_cmp_refl null = refl
  value_cmp_refl (int x) = int_cmp-IsLawful.cmp_refl x
  value_cmp_refl (uint x) = ground arith
  value_cmp_refl (float x) = p.f32_total_lawful.cmp_refl x
  value_cmp_refl (double x) = p.f64_total_lawful.cmp_refl x
  value_cmp_refl (bytes x) = (list_cmp-IsLawful {A = ℕ}).cmp_refl x
  value_cmp_refl (text x) = (list_cmp-IsLawful {A = ℕ}).cmp_refl x

  value_eq_of_cmp : (a b : Value) → value_ord_cmp a b ≡ eq → a ≡ b
  value_eq_of_cmp (int x) (int y) h = ground (arith, int_cmp-IsLawful.eq_of_cmp x y)
  value_eq_of_cmp (float x) (float y) h = ground (arith, p.f32_total_lawful.eq_of_cmp x y)
  value_eq_of_cmp (double x) (double y) h = ground (arith, p.f64_total_lawful.eq_of_cmp x y)
  value_eq_of_cmp (bytes x) (bytes y) h = ground (arith, (list_cmp-IsLawful {A = ℕ}).eq_of_cmp x y)
  value_eq_of_cmp (text x) (text y) h = ground (arith, (list_cmp-IsLawful {A = ℕ}).eq_of_cmp x y)
  value_eq_of_cmp _ _ h = ground arith

  value_lt_of_gt : (a b : Value) → value_ord_cmp a b ≡ gt → value_ord_cmp b a ≡ lt
  value_lt_of_gt (int x) (int y) h = int_cmp-IsLawful.lt_of_gt x y h
  value_lt_of_gt (float x) (float y) h = p.f32_total_lawful.lt_of_gt x y h
  value_lt_of_gt (double x) (double y) h = p.f64_total_lawful.lt_of_gt x y h
  value_lt_of_gt (bytes x) (bytes y) h = (list_cmp-IsLawful {A = ℕ}).lt_of_gt x y h
  value_lt_of_gt (text x) (text y) h = (list_cmp-IsLawful {A = ℕ}).lt_of_gt x y h
  value_lt_of_gt _ _ h = ground arith

  value_gt_of_lt : (a b : Value) → value_ord_cmp a b ≡ lt → value_ord_cmp b a ≡ gt
  value_gt_of_lt (int x) (int y) h = int_cmp-IsLawful.gt_of_lt x y h
  value_gt_of_lt (float x) (float y) h = p.f32_total_lawful.gt_of_lt x y h
  value_gt_of_lt (double x) (double y) h = p.f64_total_lawful.gt_of_lt x y h
  value_gt_of_lt (bytes x) (bytes y) h = (list_cmp-IsLawful {A = ℕ}).gt_of_lt x y h
  value_gt_of_lt (text x) (text y) h = (list_cmp-IsLawful {A = ℕ}).gt_of_lt x y h
  value_gt_of_lt _ _ h = ground arith

  value_lt_trans :
      (a b c : Value) → value_ord_cmp a b ≡ lt → value_ord_cmp b c ≡ lt → value_ord_cmp a c ≡ lt
  value_lt_trans (int x) (int y) (int z) h k = int_cmp-IsLawful.lt_trans x y z h k
  value_lt_trans (float x) (float y) (float z) h k = p.f32_total_lawful.lt_trans x y z h k
  value_lt_trans (double x) (double y) (double z) h k = p.f64_total_lawful.lt_trans x y z h k
  value_lt_trans (bytes x) (bytes y) (bytes z) h k = (list_cmp-IsLawful {A = ℕ}).lt_trans x y z h k
  value_lt_trans (text x) (text y) (text z) h k = (list_cmp-IsLawful {A = ℕ}).lt_trans x y z h k
  value_lt_trans _ _ _ h k = ground arith

  -- The comparison of values is a linear order, whatever the variants.
  pub value_ord_cmp-IsLawful : IsLawful value_ord_cmp
  value_ord_cmp-IsLawful = record {
    cmp_refl = value_cmp_refl;
    eq_of_cmp = value_eq_of_cmp;
    lt_of_gt = value_lt_of_gt;
    gt_of_lt = value_gt_of_lt;
    lt_trans = value_lt_trans;
  }

  instance abbrev pub value_ord : Ord Value
  value_ord = record { cmp = value_ord_cmp; lawful = value_ord_cmp-IsLawful }
