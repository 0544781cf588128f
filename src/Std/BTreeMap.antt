-- ===== src/Std/BTreeMap.antt =====
-- `std::collections::BTreeMap`: an association list that is kept in the order of its keys.
pub mod Sorted
use Prim.Native.Nat.Ordering.{lt, eq, gt}
use srrdb.Prelude.{
  ◌≡◌, refl, Bool, true, false, Ordering, Option, none, some, List, [], ◌∷◌, arith, Ord, Eq, ◌==◌,
  if◌then◌else◌,
}

abbrev pub BTreeMap {ℓ κ} : Type ℓ → Type κ → Type (ℓ ⊔ κ)
BTreeMap K V = List (K × V)

-- the test of one comparison result
abbrev pub is_eq : Ordering → Bool
is_eq eq = true
is_eq _ = false

module _ {ℓ κ} {K : Type ℓ} {V : Type κ} where
  -- `keys()`, in order
  unfoldable pub keys : BTreeMap K V → List K
  keys [] = []
  keys ((k, v) ∷ m) = k ∷ keys m

  -- `values()`, in the order of the keys
  unfoldable pub values : BTreeMap K V → List V
  values [] = []
  values ((k, v) ∷ m) = v ∷ values m

module _ {ℓ κ} {K : Type ℓ} {V : Type κ} ⦃o : Ord K⦄ where
  unfoldable pub get : BTreeMap K V → K → Option V
  get [] k = none
  get ((j, v) ∷ m) k = if is_eq (o.cmp k j) then some v else get m k

  unfoldable pub insert : BTreeMap K V → K → V → BTreeMap K V
  insert [] k v = (k, v) ∷ []
  insert ((j, w) ∷ m) k v = elim (o.cmp k j) [
    | lt ↦ (k, v) ∷ (j, w) ∷ m
    | eq ↦ (j, v) ∷ m
    | gt ↦ (j, w) ∷ insert m k v
  ]

  unfoldable pub remove : BTreeMap K V → K → BTreeMap K V
  remove [] k = []
  remove ((j, w) ∷ m) k = let rest = remove m k in if is_eq (o.cmp k j) then rest else (j, w) ∷ rest

  pub get-insert :
      (m : BTreeMap K V) (k j : K) (v : V)
      → get (insert m k v) j ≡ (if is_eq (o.cmp j k) then some v else get m j)
  unfolding get insert
  get-insert [] k j v = refl
  get-insert ((i, w) ∷ m) k j v = ground (
    arith,
    o.eq_of_cmp k i,
    o.eq_of_cmp j k,
    o.eq_of_cmp j i,
    o.cmp_refl j,
    o.cmp_refl k,
    get-insert m k j v,
  )

  pub get-remove :
      (m : BTreeMap K V) (k j : K)
      → get (remove m k) j ≡ (if is_eq (o.cmp j k) then none else get m j)
  unfolding get remove
  get-remove [] k j = ground arith
  get-remove ((i, w) ∷ m) k j = ground (
    arith,
    o.eq_of_cmp k i,
    o.eq_of_cmp j k,
    o.eq_of_cmp j i,
    o.cmp_refl j,
    o.cmp_refl k,
    get-remove m k j,
  )

-- The same laws, by a Boolean equality of keys.
module _ {ℓ κ} {K : Type ℓ} {V : Type κ} ⦃e : Eq K⦄ ⦃o : Ord K⦄ where
  pub get-insert_by :
      (m : BTreeMap K V) (k j : K) (v : V)
      → get (insert m k v) j ≡ (if k == j then some v else get m j)
  get-insert_by m k j v =
      ground (arith, get-insert m k j v, e.beq_iff k j, o.eq_of_cmp j k, o.cmp_refl k)

  pub get-remove_by :
      (m : BTreeMap K V) (k j : K) → get (remove m k) j ≡ (if k == j then none else get m j)
  get-remove_by m k j =
      ground (arith, get-remove m k j, e.beq_iff k j, o.eq_of_cmp j k, o.cmp_refl k)
