-- ===== src/Engine/Executor/Insert/Given.antt =====
-- The ids that an INSERT takes while it fills a row.
use srrdb.Prelude.{
  ℕ, zero, suc, ◌+◌, ◌≤◌, ◌<◌, ◌≡◌, refl, false, true, none, some, List, [], ◌∷◌, arith, ltb,
  Option, if◌then◌else◌, length, set, get_elem?, length-set, ok, Option-cases, Bool-cases, inl, inr,
  ◌&&◌, drop, Bool, ap, ◌∙◌, sym, err,
}
use srrdb.Std.Text.{Text}
use srrdb.Std.Platform.{Platform}
use srrdb.Engine.Types.{Value, int, DefaultExpr}
use srrdb.Engine.Eval.{is_null_value}
use srrdb.Engine.Names.{eval_default_expr}
use srrdb.Engine.Types.Columns.{Column}
use srrdb.Engine.Storage.{Row}
use srrdb.Engine.Catalog.{Catalog, next_row_id}
use srrdb.Engine.Executor.Insert.{Filled, as_i64, fill_value, fill_row}

get_elem?-below {ℓ} :
    {A : Type ℓ} (xs : List A) (i : ℕ) (a : A) → get_elem? xs i ≡ some a → i < length xs
get_elem?-below [] i a h = absurd (ground (arith, h))
get_elem?-below (x ∷ xs) zero a h = omega arith
get_elem?-below (x ∷ xs) (suc i) a h = omega (arith, get_elem?-below xs i a h)

get_elem?-beyond {ℓ} : {A : Type ℓ} (xs : List A) (i : ℕ) → get_elem? xs i ≡ none → length xs ≤ i
get_elem?-beyond [] i h = omega arith
get_elem?-beyond (x ∷ xs) zero h = absurd (ground (arith, h))
get_elem?-beyond (x ∷ xs) (suc i) h = omega (arith, get_elem?-beyond xs i h)

drop-get_elem? {ℓ} :
    {A : Type ℓ} (xs : List A) (i : ℕ) (a : A)
    → get_elem? xs i ≡ some a
    → drop i xs ≡ a ∷ drop (suc i) xs
drop-get_elem? [] i a h = absurd (ground (arith, h))
drop-get_elem? (x ∷ xs) zero a h = ground (arith, h)
drop-get_elem? (x ∷ xs) (suc i) a h = drop-get_elem? xs i a h

drop_all {ℓ} : {A : Type ℓ} (xs : List A) (i : ℕ) → length xs ≤ i → drop i xs ≡ []
drop_all [] zero h = refl
drop_all [] (suc i) h = refl
drop_all (x ∷ xs) zero h = absurd (omega arith)
drop_all (x ∷ xs) (suc i) h = drop_all xs i (omega arith)

drop-set {ℓ} :
    {A : Type ℓ} (xs : List A) (i : ℕ) (a : A) → drop (suc i) (set xs i a) ≡ drop (suc i) xs
drop-set [] i a = refl
drop-set (x ∷ xs) zero a = refl
drop-set (x ∷ xs) (suc i) a = drop-set xs i a

module _ ⦃p : Platform⦄ where
  -- a default leaves the length
  filled_default :
      (now : ℕ) (idx : ℕ) (f : Filled) (o : Option DefaultExpr)
      → length
          (elim o as (λ _. Filled) [
            | none ↦ f
            | some e ↦ record f { values = set f.values idx (eval_default_expr now e) }
          ]).values
        ≡ length f.values
  filled_default now idx f none = refl
  filled_default now idx f (some e) = length-set f.values idx (eval_default_expr now e)

  fill_value-length :
      (now : ℕ) (t : Text) (idx : ℕ) (col : Column) (f : Filled)
      → length (fill_value now t idx col f).values ≡ length f.values
  unfolding fill_value
  fill_value-length now t idx col f = ground (
    arith,
    length-set f.values idx (int (as_i64 (next_row_id f.catalog t 1).1)),
    filled_default now idx f col.default_expr,
  )

  filled-length :
      (now : ℕ) (t : Text) (idx : ℕ) (col : Column) (f : Filled) (v : Value)
      → length (if is_null_value v then fill_value now t idx col f else f).values ≡ length f.values
  filled-length now t idx col f v = ground (arith, fill_value-length now t idx col f)

  -- the catalog with `n` ids of the table taken
  abbrev pub given : ℕ → Text → Catalog → Catalog
  given zero t c = c
  given (suc n) t c = given n t (next_row_id c t 1).0

  -- the NULLs of a row in the AUTO_INCREMENT columns, as far as the row goes
  abbrev pub nulls_in : List Column → List Value → ℕ
  nulls_in [] values = 0
  nulls_in (col ∷ cols) [] = 0
  nulls_in (col ∷ cols) (v ∷ values) =
      let rest = nulls_in cols values in
      if is_null_value v && col.auto_increment then suc rest else rest

  -- the same for the rows up to the first short one, which counts too
  abbrev pub ids_taken : List Column → List Row → ℕ
  ids_taken cols [] = 0
  ids_taken cols (row ∷ rows) =
      let more = ids_taken cols rows in
      nulls_in cols row.values + (if ltb (length row.values) (length cols) then 0 else more)

  given_if :
      (b : Bool) (n : ℕ) (t : Text) (c : Catalog)
      → given n t (if b then (next_row_id c t 1).0 else c) ≡ given (if b then suc n else n) t c
  given_if true n t c = refl
  given_if false n t c = refl

  pub given-add : (n m : ℕ) (t : Text) (c : Catalog) → given m t (given n t c) ≡ given (n + m) t c
  given-add zero m t c = let e : m ≡ 0 + m = omega arith in ap (λ k. given k t c) e
  given-add (suc n) m t c =
      let e : suc (n + m) ≡ suc n + m = omega arith in
      given-add n m t (next_row_id c t 1).0 ∙ ap (λ k. given k t c) e

  -- the step of one column
  abbrev step : ℕ → Text → ℕ → Column → Value → Filled → Filled
  step now t idx col v f = if is_null_value v then fill_value now t idx col f else f

  default_catalog :
      (now : ℕ) (idx : ℕ) (f : Filled) (o : Option DefaultExpr)
      → let g : Filled = elim o as (λ _. Filled) [
        | none ↦ f
        | some e ↦ record f { values = set f.values idx (eval_default_expr now e) }
      ] in
        (g.catalog ≡ f.catalog) × (drop (suc idx) g.values ≡ drop (suc idx) f.values)
  default_catalog now idx f none = (refl, refl)
  default_catalog now idx f (some e) = (refl, drop-set f.values idx (eval_default_expr now e))

  step_cases :
      (now : ℕ) (t : Text) (idx : ℕ) (col : Column) (v : Value) (f : Filled)
      → (drop (suc idx) (step now t idx col v f).values ≡ drop (suc idx) f.values)
        × ((step now t idx col v f).catalog ≡ (
            if is_null_value v && col.auto_increment
            then (next_row_id f.catalog t 1).0
            else f.catalog))
  unfolding fill_value
  step_cases now t idx col v f = elim (Bool-cases (is_null_value v)) [
    | inr n ↦ rw n (refl, refl)
    | inl n ↦ elim (Bool-cases col.auto_increment) [
      | inl a ↦ rw n (rw a (drop-set f.values idx _, refl))
      | inr a ↦ rw n (rw a (let d = default_catalog now idx f col.default_expr in (d.1, d.0)))
    ]
  ]

  -- one column takes an id where it is a NULL of an AUTO_INCREMENT column, and leaves the others
  step-given :
      (now : ℕ) (t : Text) (idx : ℕ) (col : Column) (cols : List Column) (v : Value) (f : Filled)
      → get_elem? f.values idx ≡ some v
      → given
          (nulls_in cols (drop (suc idx) (step now t idx col v f).values))
          t
          (step now t idx col v f).catalog
        ≡ given (nulls_in (col ∷ cols) (drop idx f.values)) t f.catalog
  step-given now t idx col cols v f e =
      let s = step_cases now t idx col v f in
      ap (λ l. given (nulls_in cols l) t (step now t idx col v f).catalog) s.0
      ∙ ap (given (nulls_in cols (drop (suc idx) f.values)) t) s.1
      ∙ given_if (is_null_value v && col.auto_increment) (nulls_in cols (drop (suc idx) f.values)) t
          f.catalog
      ∙ ap (λ l. given (nulls_in (col ∷ cols) l) t f.catalog)
          (sym (drop-get_elem? f.values idx v e))

  pub fill_row-short :
      (now : ℕ) (t : Text) (idx : ℕ) (cols : List Column) (f : Filled)
      → idx ≤ length f.values
      → length f.values < idx + length cols
      → fill_row now t idx cols f ≡ err (given (nulls_in cols (drop idx f.values)) t f.catalog)
  unfolding fill_row
  fill_row-short now t idx [] f k h = absurd (omega arith)
  fill_row-short now t idx (col ∷ cols) f k h = elim (Option-cases (get_elem? f.values idx)) [
    | inl e ↦
        rw (e, fill_row)
          (ap (λ l. err (given (nulls_in (col ∷ cols) l) t f.catalog))
            (sym (drop_all f.values idx (get_elem?-beyond f.values idx e))))
    | inr (v, e) ↦
        rw (e, fill_row)
          (fill_row-short now t (suc idx) cols (step now t idx col v f)
              (omega (arith, filled-length now t idx col f v, get_elem?-below f.values idx v e))
              (omega (arith, filled-length now t idx col f v))
            ∙ ap err (step-given now t idx col cols v f e))
  ]

  pub fill_row-full :
      (now : ℕ) (t : Text) (idx : ℕ) (cols : List Column) (f : Filled)
      → idx + length cols ≤ length f.values
      → (g : Filled) × (fill_row now t idx cols f ≡ ok g)
        × (g.catalog ≡ given (nulls_in cols (drop idx f.values)) t f.catalog)
  unfolding fill_row
  fill_row-full now t idx [] f h = (f, refl, refl)
  fill_row-full now t idx (col ∷ cols) f h = elim (Option-cases (get_elem? f.values idx)) [
    | inl e ↦ absurd (omega (arith, get_elem?-beyond f.values idx e))
    | inr (v, e) ↦
        let (g, r, c) =
          fill_row-full now t (suc idx) cols (step now t idx col v f)
            (omega (arith, filled-length now t idx col f v)) in
        (g, rw (e, fill_row) r, c ∙ step-given now t idx col cols v f e)
  ]
