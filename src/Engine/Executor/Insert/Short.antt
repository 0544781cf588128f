-- ===== src/Engine/Executor/Insert/Short.antt =====
-- A row of INSERT that is shorter than its table, and a poisoned catalog.
use srrdb.Prelude.{
  ℕ, ◌+◌, ◌≤◌, ◌≡◌, refl, false, true, some, List, [], ◌∷◌, arith, any, ltb, length, ok, Bool-cases,
  inl, inr, panicked, ap, ◌∙◌, err, ltb→lt,
}
use srrdb.Std.Text.{Text}
use srrdb.Std.Platform.{Platform}
use srrdb.Sql.Ast.{Expr}
use srrdb.Sql.Statements.{SetExpr, Query}
use srrdb.Engine.Types.Columns.{Column}
use srrdb.Engine.Storage.{Row}
use srrdb.Engine.Catalog.{Catalog, TableDef, get_table}
use srrdb.Engine.Wal.{Bincode}
use srrdb.Engine.State.{Executor, lock_catalog}
use srrdb.Engine.Executor.Insert.Given.{
  given, nulls_in, ids_taken, given-add, fill_row-short, fill_row-full,
}
use srrdb.Engine.Executor.Insert.{Filled, fill_rows, rows_of, execute_insert}

not_ltb : (a b : ℕ) → ltb a b ≡ false → 0 + b ≤ a
not_ltb a b h = ground arith

module _ ⦃p : Platform⦄ where
  fill_rows-short :
      (now : ℕ) (t : Text) (cols : List Column) (rows : List Row) (c : Catalog) (last : ℕ)
      → any (λ r. ltb (length r.values) (length cols)) rows ≡ true
      → fill_rows now t cols rows c last ≡ err (given (ids_taken cols rows) t c)
  unfolding fill_rows
  fill_rows-short now t cols [] c last h = absurd (ground (arith, h))
  fill_rows-short now t cols (row ∷ rows) c last h =
      let f : Filled = record { values = row.values; catalog = c; last_insert_id = last } in
      elim (Bool-cases (ltb (length row.values) (length cols))) [
        | inl k ↦
            rw
              (fill_row-short now t 0 cols f (omega arith) (omega (arith, ltb→lt _ _ k)), fill_rows)
              (rw k (
                let e : nulls_in cols row.values ≡ nulls_in cols row.values + 0 = omega arith in
                ap (λ n. err (given n t c)) e))
        | inr k ↦
            let (g, r, q) =
              fill_row-full now t 0 cols f (not_ltb (length row.values) (length cols) k) in
            rw (r, fill_rows)
              (rw
                (fill_rows-short now t cols rows g.catalog g.last_insert_id (ground (arith, h, k)))
                (rw k (
                  ap (λ x. err (given (ids_taken cols rows) t x)) q
                  ∙ ap err (given-add (nulls_in cols row.values) (ids_taken cols rows) t c))))
      ]

module _ ⦃p : Platform⦄ ⦃b : Bincode⦄ where
  -- An INSERT of rows one of which has fewer values than the table has columns panics, leaves the
  -- catalog's lock poisoned, and of everything else changes only the next id of the table in the
  -- catalog: one is taken for every NULL of an AUTO_INCREMENT column in the rows up to the short
  -- one. The catalog must not be poisoned, have the table, and find the named columns.
  pub execute_insert-short :
      (now : ℕ) (x : Executor) (db t : Text) (columns : List Text) (q : Query)
      (exprs : List (List Expr)) (def : TableDef) (rows : List Row)
      → x.catalog_poisoned ≡ false
      → get_table x.catalog db t ≡ ok def
      → q.body ≡ SetExpr.values exprs
      → rows_of def.columns columns exprs ≡ ok rows
      → any (λ r. ltb (length r.values) (length def.columns)) rows ≡ true
      → execute_insert now x db t columns (some q) ≡ (
        record x {
          catalog = given (ids_taken def.columns rows) t x.catalog;
          catalog_poisoned = true;
        },
        panicked,
      )
  unfolding execute_insert lock_catalog
  execute_insert-short now x db t columns q exprs def rows h g e r a =
      rw (h, execute_insert, lock_catalog)
        (rw g (rw e (rw r (rw (fill_rows-short now t def.columns rows x.catalog 0 a) refl))))
