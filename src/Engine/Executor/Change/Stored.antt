-- ===== src/Engine/Executor/Change/Stored.antt =====
-- DELETE and UPDATE leave every row under its own id.
use srrdb.Prelude.{
  ℕ, ◌<◌, ◌≡◌, subst, sym, some, List, [], ◌∷◌, arith, nat_ord, Option-cases, inl, inr,
}
use srrdb.Std.BTreeMap
use srrdb.Std.Platform.{Platform}
use srrdb.Engine.Storage.{Row, Table}
use srrdb.Engine.Storage.Stored.{Numbered, IsStored, insert-Numbered}
use srrdb.Engine.Executor.Change.{remove_ids, update_rows}
use srrdb.Engine.Executor.Change.Order.{
  remove_ids-IsSorted, update_rows-IsSorted, update_rows-absent, update_rows-present,
}

remove-Numbered : (n k : ℕ) (t : Table) → Numbered n t → Numbered n (BTreeMap.remove t k)
unfolding BTreeMap.remove
remove-Numbered n k [] s = tt
remove-Numbered n k ((j, row) ∷ t) s = ground (arith, remove-Numbered n k t s.3)

get-Numbered :
    (n k : ℕ) (t : Table) (row : Row)
    → Numbered n t
    → BTreeMap.get t k ≡ some row
    → (row.id ≡ k) × (0 < k) × (k < n)
unfolding BTreeMap.get
get-Numbered n k [] row s h = absurd (ground (arith, h))
get-Numbered n k ((j, old) ∷ t) row s h =
    ground (arith, get-Numbered n k t row s.3, nat_ord.eq_of_cmp k j)

module _ ⦃p : Platform⦄ where
  remove_ids-Numbered :
      (n : ℕ) (rows : List Row) (t : Table) → Numbered n t → Numbered n (remove_ids rows t)
  unfolding remove_ids
  remove_ids-Numbered n [] t s = s
  remove_ids-Numbered n (row ∷ rows) t s =
      remove_ids-Numbered n rows _ (remove-Numbered n row.id t s)

  update_rows-Numbered :
      (n : ℕ) (rows : List Row) (t : Table) → Numbered n t → Numbered n (update_rows rows t)
  update_rows-Numbered n [] t s = unfold update_rows in s
  update_rows-Numbered n (row ∷ rows) t s = elim (Option-cases (BTreeMap.get t row.id)) [
    | inl e ↦
        subst (λ x. Numbered n x) (sym (update_rows-absent row rows t e))
          (update_rows-Numbered n rows t s)
    | inr (old, e) ↦
        let new_row : Row = record old { values = row.values } in
        let (i, a, c) = get-Numbered n row.id t old s e in
        subst (λ x. Numbered n x) (sym (update_rows-present row old rows t e))
          (update_rows-Numbered n rows _ (insert-Numbered n row.id new_row t i a c s))
  ]

  pub changes-IsStored :
      (n : ℕ) (rows : List Row) (t : Table)
      → IsStored n t
      → IsStored n (remove_ids rows t) × IsStored n (update_rows rows t)
  changes-IsStored n rows t s = (
    (s.0, remove_ids-Numbered n rows t s.1, remove_ids-IsSorted rows t s.2),
    (s.0, update_rows-Numbered n rows t s.1, update_rows-IsSorted rows t s.2),
  )
