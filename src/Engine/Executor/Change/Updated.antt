-- ===== src/Engine/Executor/Change/Updated.antt =====
-- The rows of a table after UPDATE.
use srrdb.Prelude.{
  ℕ, ◌≡◌, refl, ◌∙◌, false, Option, none, some, List, [], ◌∷◌, arith, ◌==◌, nat_eq, nat_ord,
  nat_beq_iff, if◌then◌else◌, map, inl, inr, sym, Option-cases,
}
use srrdb.Std.BTreeMap
use srrdb.Std.BTreeMap.Sorted.{IsSorted}
use srrdb.Std.Platform.{Platform}
use srrdb.Sql.Ast.{Expr}
use srrdb.Engine.Types.Columns.{Column}
use srrdb.Engine.Storage.{Row, Table}
use srrdb.Engine.Executor.Change.{matching, assign, update_rows}
use srrdb.Engine.Executor.Change.Rows.{has_id, is_taken, matching-first, matching-Above}

-- the row with other values, if it is there
abbrev pub with_values : Option Row → Row → Option Row
with_values none row = none
with_values (some old) row = some (record old { values = row.values })

-- what is at an id after the new rows were written one by one
unfoldable changes : List Row → ℕ → Option Row → Option Row
changes [] i o = o
changes (row ∷ rows) i o = changes rows i (if row.id == i then with_values o row else o)

module _ ⦃p : Platform⦄ where
  update_rows-get :
      (rows : List Row) (t : Table) (i : ℕ)
      → BTreeMap.get (update_rows rows t) i ≡ changes rows i (BTreeMap.get t i)
  unfolding update_rows changes
  update_rows-get [] t i = refl
  update_rows-get (row ∷ rows) t i = elim (Option-cases (BTreeMap.get t row.id)) [
    | inl e ↦ ground (arith, e, update_rows-get rows t i, nat_beq_iff row.id i)
    | inr (old, e) ↦
        let new_row : Row = record old { values = row.values } in
        ground (
          arith,
          e,
          update_rows-get rows (BTreeMap.insert t row.id new_row) i,
          BTreeMap.get-insert_by t row.id i new_row,
          nat_beq_iff row.id i,
        )
  ]

  -- a row with the values that the assignments give it
  abbrev pub assigned : List (ℕ × Expr) → Row → Row
  assigned pairs row = record row { values = assign pairs row.values }

  changes-none :
      (pairs : List (ℕ × Expr)) (rows : List Row) (i : ℕ) (o : Option Row)
      → has_id rows i ≡ false
      → changes (map (assigned pairs) rows) i o ≡ o
  unfolding changes has_id
  changes-none pairs [] i o h = refl
  changes-none pairs (row ∷ rows) i o h = ground (arith, h, changes-none pairs rows i o)

  -- the row at an id, with its new values where it is taken
  abbrev pub update_taken : Option Expr → List Column → List (ℕ × Expr) → Option Row → Option Row
  update_taken selection columns pairs none = none
  update_taken selection columns pairs (some row) =
      if is_taken selection columns (some row) then some (assigned pairs row) else some row

  get_first :
      (j : ℕ) (row : Row) (t : Table) (i : ℕ)
      → BTreeMap.get ((j, row) ∷ t) i ≡ (if j == i then some row else BTreeMap.get t i)
  unfolding BTreeMap.get
  get_first j row t i = ground arith

  changes_first :
      (pairs : List (ℕ × Expr)) (j : ℕ) (row : Row) (others : List Row) (i : ℕ) (o : Option Row)
      → changes (map (assigned pairs) (record { id = j; values = row.values } ∷ others)) i o
        ≡ changes (map (assigned pairs) others) i (
            if j == i
            then with_values o (assigned pairs (record { id = j; values = row.values }))
            else o)
  unfolding changes
  changes_first pairs j row others i o = refl

  changes-matching :
      (selection : Option Expr) (columns : List Column) (pairs : List (ℕ × Expr)) (t : Table)
      (rows : List Row) (i : ℕ)
      → matching selection columns t ≡ some rows
      → IsSorted t
      → changes (map (assigned pairs) rows) i (BTreeMap.get t i)
        ≡ update_taken selection columns pairs (BTreeMap.get t i)
  changes-matching selection columns pairs [] rows i h s =
      let e : [] ≡ rows = unfold matching in ground (arith, h) in
      rw (sym e) (unfold changes in unfold BTreeMap.get in refl)
  changes-matching selection columns pairs ((j, row) ∷ t) rows i h s =
      elim (matching-first selection columns j row t rows h) [
        | inl (e, k) ↦ ground (
          arith,
          e,
          changes-none pairs rows i (some row),
          matching-Above selection columns t rows i k,
          nat_ord.eq_of_cmp i j,
          s.0,
          get_first j row t i,
          changes-matching selection columns pairs t rows i k s.1,
        )
        | inr (others, e, k, q) ↦ rw q (
            ground (
              arith,
              e,
              changes_first pairs j row others i (BTreeMap.get ((j, row) ∷ t) i),
              changes-none pairs others i (some (assigned pairs row)),
              matching-Above selection columns t others i k,
              nat_ord.eq_of_cmp i j,
              s.0,
              get_first j row t i,
              changes-matching selection columns pairs t others i k s.1,
            ))
      ]

  -- Writing the new values of the rows that UPDATE takes gives each row that its condition takes
  -- the assigned values and leaves the others as they are. The table must be in the order of its
  -- ids.
  pub update_rows-matching :
      (selection : Option Expr) (columns : List Column) (pairs : List (ℕ × Expr)) (t : Table)
      (rows : List Row) (i : ℕ)
      → matching selection columns t ≡ some rows
      → IsSorted t
      → BTreeMap.get (update_rows (map (assigned pairs) rows) t) i
        ≡ update_taken selection columns pairs (BTreeMap.get t i)
  update_rows-matching selection columns pairs t rows i h s =
      update_rows-get (map (assigned pairs) rows) t i
      ∙ changes-matching selection columns pairs t rows i h s
