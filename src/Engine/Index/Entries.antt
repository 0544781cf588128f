-- ===== src/Engine/Index/Entries.antt =====
-- The ids under a key after an insertion and a deletion: one law for both kinds of index.
use srrdb.Prelude.{
  ℕ, ◌≡◌, refl, not, ◌&&◌, List, [], ◌∷◌, ◌++◌, arith, ◌==◌, nat_eq, list_eq, list_beq_iff,
  if◌then◌else◌, unwrap_or, contains,
}
use srrdb.Std.Text.{list_ord}
use srrdb.Std.HashMap
use srrdb.Std.BTreeMap
use srrdb.Std.Platform.{Platform}
use srrdb.Engine.Types.Order.{value_eq, value_ord}
use srrdb.Engine.Index.{IndexData, Key, without, insert, delete, lookup_eq}

contains-without :
    (ids : List ℕ) (i j : ℕ) → contains (without i ids) j ≡ (contains ids j && not (i == j))
contains-without [] i j = refl
contains-without (x ∷ ids) i j = ground (arith, contains-without ids i j)

module _ ⦃p : Platform⦄ where
  -- Inserting appends the id under its key and changes no other key.
  pub lookup_eq-insert :
      (d : IndexData) (k q : Key) (i : ℕ)
      → lookup_eq (insert d k i) q ≡ (if k == q then lookup_eq d q ++ i ∷ [] else lookup_eq d q)
  unfolding lookup_eq insert
  lookup_eq-insert (IndexData.btree m) k q i = ground (
    arith,
    BTreeMap.get-insert_by m k q (unwrap_or (BTreeMap.get m k) [] ++ i ∷ []),
    list_beq_iff k q,
  )
  lookup_eq-insert (IndexData.hash m) k q i =
      ground (
        arith,
        HashMap.get-insert m k q (unwrap_or (HashMap.get m k) [] ++ i ∷ []),
        list_beq_iff k q,
      )

  -- Deleting takes the id out under its key and changes no other key.
  pub lookup_eq-delete :
      (d : IndexData) (k q : Key) (i : ℕ)
      → lookup_eq (delete d k i) q ≡ (if k == q then without i (lookup_eq d q) else lookup_eq d q)
  unfolding lookup_eq delete
  lookup_eq-delete (IndexData.btree m) k q i =
      let ids : List ℕ = unwrap_or (BTreeMap.get m k) [] in
      ground (
        arith,
        BTreeMap.get-insert_by m k q (without i ids),
        BTreeMap.get-remove_by m k q,
        list_beq_iff k q,
      )
  lookup_eq-delete (IndexData.hash m) k q i =
      let ids : List ℕ = unwrap_or (HashMap.get m k) [] in
      ground (
        arith,
        HashMap.get-insert m k q (without i ids),
        HashMap.get-remove m k q,
        list_beq_iff k q,
      )
