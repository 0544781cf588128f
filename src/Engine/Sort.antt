-- ===== src/Engine/Sort.antt =====
-- The sort of a slice, as src/engine/executor.rs and src/engine/wal.rs use it.
use Prim.Native.Nat.Ordering.{lt, eq, gt}
use srrdb.Prelude.{Bool, true, false, not, ◌&&◌, ◌||◌, any, Ordering, List, [], ◌∷◌}

-- `slice::sort_by` by an order, which is stable: an element goes before those that it does not
-- exceed.
module _ {ℓ} {A : Type ℓ} where
  unfoldable pub insert_by : (A → A → Ordering) → A → List A → List A
  insert_by cmp x [] = x ∷ []
  insert_by cmp x (y ∷ ys) = elim (cmp x y) [ gt ↦ y ∷ insert_by cmp x ys | _ ↦ x ∷ y ∷ ys ]

  unfoldable pub sort_by : (A → A → Ordering) → List A → List A
  sort_by cmp [] = []
  sort_by cmp (x ∷ xs) = insert_by cmp x (sort_by cmp xs)

abbrev at_most : Ordering → Bool
at_most gt = false
at_most _ = true

abbrev opposed : Ordering → Ordering → Bool
opposed lt gt = true
opposed gt lt = true
opposed eq eq = true
opposed _ _ = false

-- whether a comparison is an order, up to elements that are equal in it, on the elements of a list
module _ {ℓ} {A : Type ℓ} where
  abbrev every : (A → Bool) → List A → Bool
  every f xs = not (any (λ x. not (f x)) xs)

  unfoldable pub is_order : (A → A → Ordering) → List A → Bool
  is_order cmp xs =
      every
        (λ x.
          every
            (λ y.
              opposed (cmp x y) (cmp y x)
              && every (λ z. not (at_most (cmp x y) && at_most (cmp y z)) || at_most (cmp x z)) xs)
            xs)
        xs
