-- ===== src/Engine/Storage/Stored.antt =====
-- The rows of a storage under their own ids: what the engine keeps true of every table.
use srrdb.Prelude.{
  ℕ, ◌+◌, ◌<◌, ◌≡◌, refl, sym, ap, ◌∙◌, subst, List, [], ◌∷◌, ◌++◌, arith, ◌==◌, list_eq, nat_eq,
  nat_ord, list_beq_iff, if◌then◌else◌, length, Bool-cases, inl, inr, append-nil,
}
use srrdb.Std.Text.{Text}
use srrdb.Std.HashMap
use srrdb.Std.BTreeMap
use srrdb.Std.BTreeMap.Sorted.{IsSorted, insert-last}
use srrdb.Std.Platform.{Platform}
use srrdb.Engine.Storage.{
  Row, Table, Storage, insert_loop, insert_rows, normalize, next_id_or_one, table_or_empty, u64_mod,
  row_id, bump_id,
}
use srrdb.Engine.Storage.Insert.{AreNew, row_id-new, insert_loop-next_id}
use srrdb.Engine.Storage.Order.{insert_loop-IsSorted}

-- every row stands under its own id, which is neither 0 nor reaches the next id
abbrev pub Numbered : ℕ → Table → Type 0
Numbered n [] = Unit
Numbered n ((k, row) ∷ t) = (row.id ≡ k) × (0 < k) × (k < n) × Numbered n t

-- a table in order whose rows are numbered, and its next id
abbrev pub IsStored : ℕ → Table → Type 0
IsStored n t = (0 < n) × Numbered n t × IsSorted t

Numbered-later : (n m : ℕ) (t : Table) → n < m → Numbered n t → Numbered m t
Numbered-later n m [] h s = tt
Numbered-later n m ((k, row) ∷ t) h s =
    (s.0, s.1, omega (arith, s.2, h), Numbered-later n m t h s.3)

pub insert-Numbered :
    (n k : ℕ) (row : Row) (t : Table)
    → row.id ≡ k
    → 0 < k
    → k < n
    → Numbered n t
    → Numbered n (BTreeMap.insert t k row)
unfolding BTreeMap.insert
insert-Numbered n k row [] e p h s = (e, p, h, tt)
insert-Numbered n k row ((j, old) ∷ t) e p h s =
    ground (arith, insert-Numbered n k row t e p h s.3, nat_ord.eq_of_cmp k j)

insert_loop-Numbered :
    (rows : List Row) (t : Table) (n : ℕ)
    → AreNew rows
    → n + length rows < u64_mod
    → 0 < n
    → Numbered n t
    → Numbered (n + length rows) (insert_loop rows t n).table
unfolding insert_loop
insert_loop-Numbered [] t n h k p s = subst (λ m. Numbered m t) (omega arith) s
insert_loop-Numbered (row ∷ rows) t n h k p s =
    let e : bump_id n row ≡ n + 1 = ground (arith, h.0) in
    let new_row : Row = record row { id = n } in
    let t' = BTreeMap.insert t n new_row in
    let s' : Numbered (n + 1) t' =
      insert-Numbered (n + 1) n new_row t refl p (omega arith)
        (Numbered-later n (n + 1) t (omega arith) s) in
    rw (row_id-new n row h.0) (
      rw e (
        subst (λ m. Numbered m (insert_loop rows t' (n + 1)).table) (omega arith)
          (insert_loop-Numbered rows t' (n + 1) h.1 (omega arith) (omega arith) s')))

append_assoc-one {ℓ} :
    {A : Type ℓ} (xs : List A) (y : A) (ys : List A) → (xs ++ (y ∷ [])) ++ ys ≡ xs ++ (y ∷ ys)
append_assoc-one [] y ys = refl
append_assoc-one (x ∷ xs) y ys = ap (λ t. x ∷ t) (append_assoc-one xs y ys)

-- a row that has an id below the next one keeps it
insert_loop-own :
    (row : Row) (rows : List Row) (t : Table) (n : ℕ)
    → 0 < row.id
    → row.id < n
    → ((insert_loop (row ∷ rows) t n).table
        ≡ (insert_loop rows (BTreeMap.insert t row.id row) n).table)
      × ((insert_loop (row ∷ rows) t n).next_id
          ≡ (insert_loop rows (BTreeMap.insert t row.id row) n).next_id)
unfolding insert_loop
insert_loop-own row rows t n p h =
    let e : row_id n row ≡ row.id = ground (arith, p) in
    let e' : bump_id n row ≡ n = ground (arith, p, h) in
    rw (e, insert_loop) (rw (e', insert_loop) (refl, refl))

-- a row that has an id keeps it, whatever the next one is
insert_loop-kept :
    (row : Row) (rows : List Row) (t : Table) (n : ℕ)
    → 0 < row.id
    → (insert_loop (row ∷ rows) t n).table
      ≡ (insert_loop rows (BTreeMap.insert t row.id row) (bump_id n row)).table
unfolding insert_loop
insert_loop-kept row rows t n h =
    let e : row_id n row ≡ row.id = ground (arith, h) in rw (e, insert_loop) refl

-- the rows of a table make the table again
pub insert_loop-rebuilt :
    (m t : Table) (bound n : ℕ)
    → Numbered bound t
    → IsSorted (m ++ t)
    → (insert_loop (BTreeMap.values t) m n).table ≡ m ++ t
unfolding BTreeMap.values
insert_loop-rebuilt m [] bound n h s = unfold insert_loop in sym (append-nil m)
insert_loop-rebuilt m ((k, row) ∷ t) bound n h s =
    let join = append_assoc-one m (k, row) t in
    let q : BTreeMap.insert m row.id row ≡ m ++ ((k, row) ∷ []) =
      ap (λ i. BTreeMap.insert m i row) h.0 ∙ insert-last m t k row s in
    insert_loop-kept row (BTreeMap.values t) m n (subst (λ i. 0 < i) (sym h.0) h.1)
    ∙ ap (λ l. (insert_loop (BTreeMap.values t) l (bump_id n row)).table) q
    ∙ insert_loop-rebuilt (m ++ ((k, row) ∷ [])) t bound (bump_id n row) h.3
        (subst (λ l. IsSorted l) (sym join) s)
    ∙ join

-- the rows of a table, put one by one behind the rows before them
pub insert_loop-values :
    (m t : Table) (n : ℕ)
    → Numbered n t
    → IsSorted (m ++ t)
    → ((insert_loop (BTreeMap.values t) m n).table ≡ m ++ t)
      × ((insert_loop (BTreeMap.values t) m n).next_id ≡ n)
unfolding insert_loop BTreeMap.values
insert_loop-values m [] n h s = (sym (append-nil m), refl)
insert_loop-values m ((k, row) ∷ t) n h s =
    let a : 0 < row.id = subst (λ i. 0 < i) (sym h.0) h.1 in
    let c : row.id < n = subst (λ i. i < n) (sym h.0) h.2 in
    let own = insert_loop-own row (BTreeMap.values t) m n a c in
    let q : BTreeMap.insert m row.id row ≡ m ++ ((k, row) ∷ []) =
      ap (λ i. BTreeMap.insert m i row) h.0 ∙ insert-last m t k row s in
    let join = append_assoc-one m (k, row) t in
    let rest =
      insert_loop-values (m ++ ((k, row) ∷ [])) t n h.3 (subst (λ l. IsSorted l) (sym join) s) in
    (
      own.0 ∙ ap (λ l. (insert_loop (BTreeMap.values t) l n).table) q ∙ rest.0 ∙ join,
      own.1 ∙ ap (λ l. (insert_loop (BTreeMap.values t) l n).next_id) q ∙ rest.1,
    )

insert_loop-IsStored :
    (rows : List Row) (t : Table) (n : ℕ)
    → AreNew rows
    → n + length rows < u64_mod
    → IsStored n t
    → IsStored (n + length rows) (insert_loop rows t n).table
insert_loop-IsStored rows t n h k s = (
  omega (arith, s.0),
  insert_loop-Numbered rows t n h k s.0 s.1,
  insert_loop-IsSorted rows t n s.2,
)

module _ ⦃p : Platform⦄ where
  -- what the storage keeps true
  unfoldable pub IsWellFormed : Storage → Type 0
  IsWellFormed s = (tn : Text) → IsStored (next_id_or_one s tn) (table_or_empty s tn)

  -- two storages with the same rows and next ids
  unfoldable pub SameRows : Storage → Storage → Type 0
  SameRows s s' =
      (tn : Text)
      → (table_or_empty s tn ≡ table_or_empty s' tn) × (next_id_or_one s tn ≡ next_id_or_one s' tn)

  pub table-insert_rows :
      (s : Storage) (name tn : Text) (rows : List Row)
      → table_or_empty (insert_rows s name rows).0 tn ≡ (
          if normalize name == tn
          then (insert_loop rows (table_or_empty s tn) (next_id_or_one s tn)).table
          else table_or_empty s tn)
  unfolding insert_rows
  table-insert_rows s name tn rows = ground (
    arith,
    HashMap.get-insert s.tables (normalize name) tn
        (insert_loop rows (table_or_empty s (normalize name))
          (next_id_or_one s (normalize name))).table,
    list_beq_iff (normalize name) tn,
  )

  pub next_id-insert_rows :
      (s : Storage) (name tn : Text) (rows : List Row)
      → next_id_or_one (insert_rows s name rows).0 tn ≡ (
          if normalize name == tn
          then (insert_loop rows (table_or_empty s tn) (next_id_or_one s tn)).next_id
          else next_id_or_one s tn)
  unfolding insert_rows
  next_id-insert_rows s name tn rows = ground (
    arith,
    HashMap.get-insert s.next_ids (normalize name) tn
        (insert_loop rows (table_or_empty s (normalize name))
          (next_id_or_one s (normalize name))).next_id,
    list_beq_iff (normalize name) tn,
  )

  -- `insert_rows` of rows that ask for ids keeps the storage well formed
  pub insert_rows-IsWellFormed :
      (s : Storage) (name : Text) (rows : List Row)
      → AreNew rows
      → next_id_or_one s (normalize name) + length rows < u64_mod
      → IsWellFormed s
      → IsWellFormed (insert_rows s name rows).0
  unfolding IsWellFormed
  insert_rows-IsWellFormed s name rows h k w tn = rw (table-insert_rows s name tn rows) (
      rw (next_id-insert_rows s name tn rows) (elim (Bool-cases (normalize name == tn)) [
        | inl e ↦
            let q = (list_beq_iff (normalize name) tn).0 e in
            let k' : next_id_or_one s tn + length rows < u64_mod =
              subst (λ x. next_id_or_one s x + length rows < u64_mod) q k in
            rw e (
              rw (insert_loop-next_id rows (table_or_empty s tn) (next_id_or_one s tn) h k')
                (insert_loop-IsStored rows (table_or_empty s tn) (next_id_or_one s tn) h k' (w tn)))
        | inr e ↦ rw e (w tn)
      ]))

  -- it respects the rows
  pub insert_rows-SameRows :
      (s s' : Storage) (name : Text) (rows : List Row)
      → SameRows s s'
      → SameRows (insert_rows s name rows).0 (insert_rows s' name rows).0
  unfolding SameRows
  insert_rows-SameRows s s' name rows h tn =
      let (e, q) = h tn in
      rw (table-insert_rows s name tn rows) (
        rw (table-insert_rows s' name tn rows) (
          rw (next_id-insert_rows s name tn rows)
            (rw (next_id-insert_rows s' name tn rows) (rw e (rw q (refl, refl))))))
