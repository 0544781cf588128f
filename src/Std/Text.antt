-- ===== src/Std/Text.antt =====
-- `String` and `str` as their bytes in UTF-8, and `Ord` of sequences.
use Prim.Native.Char.{code}
use Prim.Native.String.{String}
use Prim.Native.Nat.Ordering.{lt, eq, gt}
use srrdb.Prelude.{
  ℕ, ◌+◌, ◌≡◌, refl, Bool, true, false, ◌&&◌, Ordering, List, [], ◌∷◌, ◌++◌, map, arith, leb, ◌==◌,
  Ord, IsLawful, if◌then◌else◌, list_eq, nat_eq,
}

-- A text is the list of its UTF-8 bytes; the order of `str` is the order of the bytes.
abbrev pub Text : Type 0
Text = List ℕ

-- the bytes of an ASCII literal
abbrev pub codes : String → Text
codes String.[] = []
codes (String.◌∷◌ c s) = code c ∷ codes s

-- `u8::to_ascii_lowercase`
abbrev pub ascii_lower : ℕ → ℕ
ascii_lower c = if leb b'A' c && leb c b'Z' then c + 32 else c

-- `str::eq_ignore_ascii_case`
abbrev pub eq_ignore_ascii_case : Text → Text → Bool
eq_ignore_ascii_case a b = map ascii_lower a == map ascii_lower b

-- `str::starts_with`
abbrev pub starts_with : Text → Text → Bool
starts_with s [] = true
starts_with [] (p ∷ ps) = false
starts_with (c ∷ s) (p ∷ ps) = c == p && starts_with s ps

-- `str::to_ascii_lowercase`
abbrev pub ascii_lowercase : Text → Text
ascii_lowercase s = map ascii_lower s

-- `[String]::join`
abbrev pub join : Text → List Text → Text
join sep [] = []
join sep (s ∷ []) = s
join sep (s ∷ t ∷ r) = s ++ (sep ++ join sep (t ∷ r))

-- `Ord` for sequences is lexicographic.
module _ {ℓ} {A : Type ℓ} ⦃o : Ord A⦄ where
  abbrev pub list_cmp : List A → List A → Ordering
  list_cmp [] [] = eq
  list_cmp [] (y ∷ ys) = lt
  list_cmp (x ∷ xs) [] = gt
  list_cmp (x ∷ xs) (y ∷ ys) = elim (o.cmp x y) [ lt ↦ lt | eq ↦ list_cmp xs ys | gt ↦ gt ]

  cmp_refl_list : (a : List A) → list_cmp a a ≡ eq
  cmp_refl_list [] = refl
  cmp_refl_list (x ∷ xs) = ground (arith, o.cmp_refl x, cmp_refl_list xs)

  eq_of_list_cmp : (a b : List A) → list_cmp a b ≡ eq → a ≡ b
  eq_of_list_cmp [] [] h = refl
  eq_of_list_cmp [] (y ∷ ys) h = ground arith
  eq_of_list_cmp (x ∷ xs) [] h = ground arith
  eq_of_list_cmp (x ∷ xs) (y ∷ ys) h = ground (arith, o.eq_of_cmp x y, eq_of_list_cmp xs ys)

  lt_of_gt_list : (a b : List A) → list_cmp a b ≡ gt → list_cmp b a ≡ lt
  lt_of_gt_list [] [] h = ground arith
  lt_of_gt_list [] (y ∷ ys) h = ground arith
  lt_of_gt_list (x ∷ xs) [] h = refl
  lt_of_gt_list (x ∷ xs) (y ∷ ys) h =
      ground (arith, o.eq_of_cmp x y, o.cmp_refl x, o.lt_of_gt x y, lt_of_gt_list xs ys)

  gt_of_lt_list : (a b : List A) → list_cmp a b ≡ lt → list_cmp b a ≡ gt
  gt_of_lt_list [] [] h = ground arith
  gt_of_lt_list [] (y ∷ ys) h = refl
  gt_of_lt_list (x ∷ xs) [] h = ground arith
  gt_of_lt_list (x ∷ xs) (y ∷ ys) h =
      ground (arith, o.eq_of_cmp x y, o.cmp_refl x, o.gt_of_lt x y, gt_of_lt_list xs ys)

  lt_trans_list : (a b c : List A) → list_cmp a b ≡ lt → list_cmp b c ≡ lt → list_cmp a c ≡ lt
  lt_trans_list [] [] c h k = ground arith
  lt_trans_list [] (y ∷ ys) [] h k = ground arith
  lt_trans_list [] (y ∷ ys) (z ∷ zs) h k = refl
  lt_trans_list (x ∷ xs) [] c h k = ground arith
  lt_trans_list (x ∷ xs) (y ∷ ys) [] h k = ground arith
  lt_trans_list (x ∷ xs) (y ∷ ys) (z ∷ zs) h k = ground (
    arith,
    o.eq_of_cmp x y,
    o.eq_of_cmp y z,
    o.cmp_refl x,
    o.lt_trans x y z,
    lt_trans_list xs ys zs,
  )

  pub list_cmp-IsLawful : IsLawful list_cmp
  list_cmp-IsLawful = record {
    cmp_refl = cmp_refl_list;
    eq_of_cmp = eq_of_list_cmp;
    lt_of_gt = lt_of_gt_list;
    gt_of_lt = gt_of_lt_list;
    lt_trans = lt_trans_list;
  }

  instance abbrev pub list_ord : Ord (List A)
  list_ord = record { cmp = list_cmp; lawful = list_cmp-IsLawful }
