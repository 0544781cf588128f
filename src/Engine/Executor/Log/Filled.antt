-- ===== src/Engine/Executor/Log/Filled.antt =====
-- The rows that INSERT logs: each asks for an id, and there are as many as the statement gives.
use srrdb.Prelude.{
  ℕ, ◌≡◌, refl, ap, Option, none, some, List, [], ◌∷◌, arith, ok, length, inl, inr, ◌⊎◌,
  Result-cases, Bool, true, false, ◌∙◌,
}
use srrdb.Std.Text.{Text}
use srrdb.Std.Platform.{Platform}
use srrdb.Sql.Ast.{Expr}
use srrdb.Sql.Statements.{SetExpr, Query}
use srrdb.Engine.Types.Columns.{Column}
use srrdb.Engine.Storage.{Row}
use srrdb.Engine.Storage.Insert.{AreNew}
use srrdb.Engine.Catalog.{Catalog, TableDef, get_table}
use srrdb.Engine.Wal.{Bincode}
use srrdb.Engine.State.{Executor, Step, lock_catalog}
use srrdb.Engine.Executor.Insert.{row_of, rows_of, fill_row, fill_rows, store_rows, execute_insert}

-- the number of rows of VALUES
abbrev pub rows_in : Option Query → ℕ
rows_in none = 0
rows_in (some q) = elim q.body [ SetExpr.values exprs ↦ length exprs | _ ↦ 0 ]

abbrev is_values : SetExpr → Bool
is_values (SetExpr.values _) = true
is_values _ = false

values-cases :
    (s : SetExpr)
    → ((exprs : List (List Expr)) × (s ≡ SetExpr.values exprs)) ⊎ (is_values s ≡ false)
values-cases (SetExpr.values exprs) = inl (exprs, refl)
values-cases s = inr refl

module _ ⦃p : Platform⦄ where
  row_of-new :
      (columns : List Column) (names : List Text) (exprs : List Expr) (row : Row)
      → row_of columns names exprs ≡ ok row
      → row.id ≡ 0
  unfolding row_of
  row_of-new columns names exprs row h = ground (arith, h)

  rows_of-new :
      (columns : List Column) (names : List Text) (exprs : List (List Expr)) (rows : List Row)
      → rows_of columns names exprs ≡ ok rows
      → AreNew rows × (length rows ≡ length exprs)
  rows_of-new columns names [] rows h = unfold rows_of in ground (arith, h)
  rows_of-new columns names (exprs ∷ more) rows h =
      elim (Result-cases (row_of columns names exprs)) [
        | inl (e, q) ↦ absurd (unfold rows_of in ground (arith, h, q))
        | inr (row, q) ↦ elim (Result-cases (rows_of columns names more)) [
          | inl (e, r) ↦ absurd (unfold rows_of in ground (arith, h, q, r))
          | inr (others, r) ↦
              let k : rows ≡ row ∷ others = unfold rows_of in ground (arith, h, q, r) in
              let rest = rows_of-new columns names more others r in
              rw k ((row_of-new columns names exprs row q, rest.0), ap (λ n. ℕ.suc n) rest.1)
        ]
      ]

  fill_rows-new :
      (now : ℕ) (t : Text) (cols : List Column) (rows filled : List Row) (c c' : Catalog)
      (last last' : ℕ)
      → fill_rows now t cols rows c last ≡ ok (filled, c', last')
      → AreNew rows
      → AreNew filled × (length filled ≡ length rows)
  fill_rows-new now t cols [] filled c c' last last' h n = unfold fill_rows in ground (arith, h)
  fill_rows-new now t cols (row ∷ rows) filled c c' last last' h n =
      elim (Result-cases (
        fill_row now t 0 cols
          (record { values = row.values; catalog = c; last_insert_id = last }))) [
            | inl (c1, e) ↦ absurd (unfold fill_rows in ground (arith, h, e))
            | inr (f, e) ↦
                elim (Result-cases (fill_rows now t cols rows f.catalog f.last_insert_id)) [
                  | inl (c1, r) ↦ absurd (unfold fill_rows in ground (arith, h, e, r))
                  | inr ((others, c'', last''), r) ↦
                      let k : filled ≡ record row { values = f.values } ∷ others =
                        unfold fill_rows in ground (arith, h, e, r) in
                      let rest = fill_rows-new now t cols rows others _ c'' _ last'' r n.1 in
                      rw k ((n.0, rest.0), ap (λ m. ℕ.suc m) rest.1)
                ]
          ]

module _ ⦃p : Platform⦄ ⦃b : Bincode⦄ where
  -- an INSERT leaves the log and the storage, or stores as many new rows as it gives
  abbrev pub InsertCase : Executor → Text → Text → Option Query → Step → Type 0
  InsertCase x db t source y =
      ((y.0.wal ≡ x.wal) × (y.0.storage ≡ x.storage))
      ⊎ ((c : Catalog) × (def : TableDef) × (filled : List Row) × (last : ℕ) × AreNew filled
          × (length filled ≡ rows_in source)
          × (y ≡ store_rows (record x { catalog = c }) db t def filled last))

  insert_values-cases :
      (now : ℕ) (x : Executor) (db t : Text) (columns : List Text) (q : Query) (c : Catalog)
      (def : TableDef) (exprs : List (List Expr))
      → lock_catalog x ≡ ok c
      → get_table c db t ≡ ok def
      → q.body ≡ SetExpr.values exprs
      → InsertCase x db t (some q) (execute_insert now x db t columns (some q))
  unfolding execute_insert
  insert_values-cases now x db t columns q c def exprs l g v =
      elim (Result-cases (rows_of def.columns columns exprs)) [
        | inl (e, r) ↦ inl (rw (l, execute_insert) (rw g (rw v (rw r (refl, refl)))))
        | inr (rows, r) ↦
            let new = rows_of-new def.columns columns exprs rows r in
            elim (Result-cases (fill_rows now t def.columns rows c 0)) [
              | inl (c1, f) ↦ inl (rw (l, execute_insert) (rw g (rw v (rw r (rw f (refl, refl))))))
              | inr ((filled, c', last), f) ↦
                  let old = fill_rows-new now t def.columns rows filled c c' 0 last f new.0 in
                  inr (
                    c',
                    def,
                    filled,
                    last,
                    old.0,
                    rw v (old.1 ∙ new.1),
                    rw (l, execute_insert) (rw g (rw v (rw r (rw f refl)))),
                  )
            ]
      ]

  insert_source-cases :
      (now : ℕ) (x : Executor) (db t : Text) (columns : List Text) (source : Option Query)
      (c : Catalog) (def : TableDef)
      → lock_catalog x ≡ ok c
      → get_table c db t ≡ ok def
      → InsertCase x db t source (execute_insert now x db t columns source)
  unfolding execute_insert
  insert_source-cases now x db t columns none c def l g =
      inl (rw (l, execute_insert) (rw g (refl, refl)))
  insert_source-cases now x db t columns (some q) c def l g = elim (values-cases q.body) [
    | inl (exprs, v) ↦ insert_values-cases now x db t columns q c def exprs l g v
    | inr v ↦ inl (rw (l, execute_insert) (rw g (ground (arith, v))))
  ]

  pub execute_insert-cases :
      (now : ℕ) (x : Executor) (db t : Text) (columns : List Text) (source : Option Query)
      → InsertCase x db t source (execute_insert now x db t columns source)
  unfolding execute_insert
  execute_insert-cases now x db t columns source = elim (Result-cases (lock_catalog x)) [
    | inl (e, l) ↦ inl (rw (l, execute_insert) (refl, refl))
    | inr (c, l) ↦ elim (Result-cases (get_table c db t)) [
      | inl (e, g) ↦ inl (rw (l, execute_insert) (rw g (refl, refl)))
      | inr (def, g) ↦ insert_source-cases now x db t columns source c def l g
    ]
  ]
