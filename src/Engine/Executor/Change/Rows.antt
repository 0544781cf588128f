-- ===== src/Engine/Executor/Change/Rows.antt =====
-- The rows of a table after DELETE and UPDATE.
use srrdb.Prelude.{
  ℕ, ◌≡◌, refl, Bool, true, false, Option, none, some, List, [], ◌∷◌, arith, ◌==◌, nat_eq, nat_ord,
  list_eq, nat_beq_iff, if◌then◌else◌, inl, inr, ◌⊎◌, sym, Option-cases,
}
use srrdb.Std.BTreeMap
use srrdb.Std.BTreeMap.Sorted.{Above, IsSorted, get-Above}
use srrdb.Std.Platform.{Platform}
use srrdb.Sql.Ast.{Expr}
use srrdb.Engine.Types.Columns.{Column}
use srrdb.Engine.Storage.{Row, Table}
use srrdb.Engine.Executor.Change.{takes, matching, remove_ids}

-- whether a list of rows has one with an id
unfoldable pub has_id : List Row → ℕ → Bool
has_id [] i = false
has_id (row ∷ rows) i = if row.id == i then true else has_id rows i

remove_ids-get :
    ⦃p : Platform⦄ (rows : List Row) (t : Table) (i : ℕ)
    → BTreeMap.get (remove_ids rows t) i ≡ (if has_id rows i then none else BTreeMap.get t i)
unfolding remove_ids has_id
remove_ids-get [] t i = refl
remove_ids-get (row ∷ rows) t i = ground (
  arith,
  remove_ids-get rows (BTreeMap.remove t row.id) i,
  BTreeMap.get-remove_by t row.id i,
  nat_beq_iff row.id i,
)

module _ ⦃p : Platform⦄ where
  -- whether the statement takes what is at an id
  abbrev pub is_taken : Option Expr → List Column → Option Row → Bool
  is_taken selection columns none = false
  is_taken selection columns (some row) = elim (takes selection columns row) [
    | some true ↦ true
    | _ ↦ false
  ]

  -- what the first row of a table comes to
  pub matching-first :
      (selection : Option Expr) (columns : List Column) (j : ℕ) (row : Row) (t : Table)
      (rows : List Row)
      → matching selection columns ((j, row) ∷ t) ≡ some rows
      → ((takes selection columns row ≡ some false) × (matching selection columns t ≡ some rows))
        ⊎ ((others : List Row) × (takes selection columns row ≡ some true)
            × (matching selection columns t ≡ some others)
            × (rows ≡ record { id = j; values = row.values } ∷ others))
  unfolding matching
  matching-first selection columns j row t rows h =
      elim (Option-cases (takes selection columns row)) [
        | inl e ↦ absurd (ground (arith, h, e))
        | inr (false, e) ↦ inl (e, ground (arith, h, e))
        | inr (true, e) ↦ elim (Option-cases (matching selection columns t)) [
          | inl k ↦ absurd (ground (arith, h, e, k))
          | inr (others, k) ↦ inr (others, e, k, ground (arith, h, e, k))
        ]
      ]

  -- an id below all keys is not among the rows taken
  pub matching-Above :
      (selection : Option Expr) (columns : List Column) (t : Table) (rows : List Row) (i : ℕ)
      → matching selection columns t ≡ some rows
      → Above i t
      → has_id rows i ≡ false
  unfolding has_id
  matching-Above selection columns [] rows i h a = unfold matching in ground (arith, h)
  matching-Above selection columns ((j, row) ∷ t) rows i h a =
      elim (matching-first selection columns j row t rows h) [
        | inl (e, k) ↦ matching-Above selection columns t rows i k a.1
        | inr (others, e, k, q) ↦
            rw q (ground (arith, a.0, matching-Above selection columns t others i k a.1))
      ]

  -- the rows taken are those of the table that the condition takes
  pub matching-has_id :
      (selection : Option Expr) (columns : List Column) (t : Table) (rows : List Row) (i : ℕ)
      → matching selection columns t ≡ some rows
      → IsSorted t
      → has_id rows i ≡ is_taken selection columns (BTreeMap.get t i)
  unfolding has_id BTreeMap.get
  matching-has_id selection columns [] rows i h s = unfold matching in ground (arith, h)
  matching-has_id selection columns ((j, row) ∷ t) rows i h s =
      elim (matching-first selection columns j row t rows h) [
        | inl (e, k) ↦ ground (
          arith,
          e,
          matching-has_id selection columns t rows i k s.1,
          get-Above t j s.0,
          nat_ord.eq_of_cmp i j,
        )
        | inr (others, e, k, q) ↦ rw q (
            ground
              (arith, e, matching-has_id selection columns t others i k s.1, nat_ord.eq_of_cmp i j))
      ]

  -- DELETE takes exactly the rows that its condition takes out of the table, which is kept in the
  -- order of its ids, and leaves the others as they are.
  pub remove_ids-matching :
      (selection : Option Expr) (columns : List Column) (t : Table) (rows : List Row) (i : ℕ)
      → matching selection columns t ≡ some rows
      → IsSorted t
      → BTreeMap.get (remove_ids rows t) i
        ≡ (if is_taken selection columns (BTreeMap.get t i) then none else BTreeMap.get t i)
  remove_ids-matching selection columns t rows i h s =
      rw (sym (matching-has_id selection columns t rows i h s)) (remove_ids-get rows t i)
