-- ===== src/Engine/Executor/Change/Order.antt =====
-- DELETE and UPDATE keep a table in the order of its ids.
use srrdb.Prelude.{
  ◌≡◌, refl, sym, subst, none, some, List, [], ◌∷◌, nat_ord, Option-cases, inl, inr,
}
use srrdb.Std.BTreeMap
use srrdb.Std.BTreeMap.Sorted.{IsSorted, insert-IsSorted, remove-IsSorted}
use srrdb.Std.Platform.{Platform}
use srrdb.Engine.Storage.{Row, Table}
use srrdb.Engine.Executor.Change.{remove_ids, update_rows}

module _ ⦃p : Platform⦄ where
  pub remove_ids-IsSorted :
      (rows : List Row) (t : Table) → IsSorted t → IsSorted (remove_ids rows t)
  unfolding remove_ids
  remove_ids-IsSorted [] t s = s
  remove_ids-IsSorted (row ∷ rows) t s = remove_ids-IsSorted rows _ (remove-IsSorted t row.id s)

  pub update_rows-absent :
      (row : Row) (rows : List Row) (t : Table)
      → BTreeMap.get t row.id ≡ none
      → update_rows (row ∷ rows) t ≡ update_rows rows t
  unfolding update_rows
  update_rows-absent row rows t e = rw (e, update_rows) refl

  pub update_rows-present :
      (row old : Row) (rows : List Row) (t : Table)
      → BTreeMap.get t row.id ≡ some old
      → update_rows (row ∷ rows) t
        ≡ update_rows rows (BTreeMap.insert t row.id (record old { values = row.values }))
  unfolding update_rows
  update_rows-present row old rows t e = rw (e, update_rows) refl

  pub update_rows-IsSorted :
      (rows : List Row) (t : Table) → IsSorted t → IsSorted (update_rows rows t)
  update_rows-IsSorted [] t s = unfold update_rows in s
  update_rows-IsSorted (row ∷ rows) t s = elim (Option-cases (BTreeMap.get t row.id)) [
    | inl e ↦
        subst (λ x. IsSorted x) (sym (update_rows-absent row rows t e))
          (update_rows-IsSorted rows t s)
    | inr (old, e) ↦
        let new_row : Row = record old { values = row.values } in
        subst (λ x. IsSorted x) (sym (update_rows-present row old rows t e))
          (update_rows-IsSorted rows _ (insert-IsSorted t row.id new_row s))
  ]

  -- What DELETE and UPDATE make of a table in the order of its ids is in that order.
  pub changes-IsSorted :
      (rows : List Row) (t : Table)
      → IsSorted t
      → IsSorted (remove_ids rows t) × IsSorted (update_rows rows t)
  changes-IsSorted rows t s = (remove_ids-IsSorted rows t s, update_rows-IsSorted rows t s)
