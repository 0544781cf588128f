-- ===== src/Std/BTreeMap/Sorted.antt =====
-- The order of a `BTreeMap`, and what it gives: a key stands once.
use Prim.Native.Nat.Ordering.{lt}
use srrdb.Prelude.{◌≡◌, refl, ap, none, [], ◌∷◌, ◌++◌, arith, Ord}
use srrdb.Std.BTreeMap.{BTreeMap, get, insert, remove}

module _ {ℓ κ} {K : Type ℓ} {V : Type κ} ⦃o : Ord K⦄ where
  -- every key of the map lies above `k`
  abbrev pub Above : K → BTreeMap K V → Type 0
  Above k [] = Unit
  Above k ((j, v) ∷ m) = (o.cmp k j ≡ lt) × Above k m

  abbrev pub IsSorted : BTreeMap K V → Type 0
  IsSorted [] = Unit
  IsSorted ((j, v) ∷ m) = Above j m × IsSorted m

  pub Above-trans : (i k : K) (m : BTreeMap K V) → o.cmp i k ≡ lt → Above k m → Above i m
  Above-trans i k [] h a = tt
  Above-trans i k ((j, v) ∷ m) h a = (o.lt_trans i k j h a.0, Above-trans i k m h a.1)

  pub Above-insert :
      (i k : K) (v : V) (m : BTreeMap K V) → o.cmp i k ≡ lt → Above i m → Above i (insert m k v)
  unfolding insert
  Above-insert i k v [] h a = (h, tt)
  Above-insert i k v ((j, w) ∷ m) h a = ground (arith, Above-insert i k v m)

  pub insert-IsSorted : (m : BTreeMap K V) (k : K) (v : V) → IsSorted m → IsSorted (insert m k v)
  unfolding insert
  insert-IsSorted [] k v s = (tt, tt)
  insert-IsSorted ((j, w) ∷ m) k v s =
      ground (arith, insert-IsSorted m k v, Above-insert j k v m, Above-trans k j m, o.lt_of_gt k j)

  pub Above-remove : (i k : K) (m : BTreeMap K V) → Above i m → Above i (remove m k)
  unfolding remove
  Above-remove i k [] a = tt
  Above-remove i k ((j, w) ∷ m) a = ground (arith, Above-remove i k m)

  pub remove-IsSorted : (m : BTreeMap K V) (k : K) → IsSorted m → IsSorted (remove m k)
  unfolding remove
  remove-IsSorted [] k s = tt
  remove-IsSorted ((j, w) ∷ m) k s = ground (arith, remove-IsSorted m k, Above-remove j k m)

  pub get-Above : (m : BTreeMap K V) (k : K) → Above k m → get m k ≡ none
  unfolding get
  get-Above [] k a = refl
  get-Above ((j, w) ∷ m) k a = ground (arith, get-Above m k)

  pub Above-member :
      (j : K) (m m' : BTreeMap K V) (k : K) (v : V) → Above j (m ++ ((k, v) ∷ m')) → o.cmp j k ≡ lt
  Above-member j [] m' k v a = a.0
  Above-member j ((i, w) ∷ m) m' k v a = Above-member j m m' k v a.1

  -- a key above all others is put at the end
  pub insert-last :
      (m m' : BTreeMap K V) (k : K) (v : V)
      → IsSorted (m ++ ((k, v) ∷ m'))
      → insert m k v ≡ m ++ ((k, v) ∷ [])
  unfolding insert
  insert-last [] m' k v s = refl
  insert-last ((j, w) ∷ m) m' k v s =
      rw (o.gt_of_lt j k (Above-member j m m' k v s.0), insert)
        (ap (λ t. (j, w) ∷ t) (insert-last m m' k v s.1))
