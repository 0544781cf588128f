-- ===== src/Engine/Storage/Insert.antt =====
-- The rows of a table after `insert_rows` and `clear_table`.
use srrdb.Prelude.{
  ℕ, zero, suc, ◌+◌, ◌-◌, ◌<◌, ◌≡◌, refl, ap, none, some, List, [], ◌∷◌, arith, ◌==◌, list_eq,
  nat_eq, nat_ord, list_beq_iff, nat_beq_iff, if◌then◌else◌, ◌&&◌, not, length, get_elem?, ltb,
  Option, inl, inr, ◌⊎◌, ◌∙◌, Bool-cases, ltb→lt,
}
use srrdb.Std.Text.{Text}
use srrdb.Std.HashMap
use srrdb.Std.BTreeMap
use srrdb.Std.Platform.{Platform}
use srrdb.Engine.Storage.{
  Row, Table, Storage, insert_loop, insert_rows, get_row, normalize, next_id_or_one, table_or_empty,
  u64_mod, row_id, bump_id,
}

-- every row asks for an id
abbrev pub AreNew : List Row → Type 0
AreNew [] = Unit
AreNew (row ∷ rows) = (row.id ≡ 0) × AreNew rows

-- `n` and the numbers after it
abbrev pub ids_from : ℕ → List Row → List ℕ
ids_from n [] = []
ids_from n (row ∷ rows) = n ∷ ids_from (n + 1) rows

-- the row at an offset, under the id that it gets
abbrev pub numbered : Option Row → ℕ → Option Row → Option Row
numbered none id old = old
numbered (some row) id old = some (record row { id = id })

-- below `n`, or `n` and some more
Nat-cases : (j n : ℕ) → (j < n) ⊎ ((m : ℕ) × (j ≡ n + m))
Nat-cases j n = elim (Bool-cases (ltb j n)) [
  | inl h ↦ inl (ltb→lt j n h)
  | inr h ↦ inr (j - n, ground (arith, h))
]

pub row_id-new : (n : ℕ) (row : Row) → row.id ≡ 0 → row_id n row ≡ n
row_id-new n row h = ground (arith, h)

pub insert_loop-ids :
    (rows : List Row) (t : Table) (n : ℕ)
    → AreNew rows
    → n + length rows < u64_mod
    → (insert_loop rows t n).ids ≡ ids_from n rows
unfolding insert_loop
insert_loop-ids [] t n h k = refl
insert_loop-ids (row ∷ rows) t n h k =
    let e : bump_id n row ≡ n + 1 = ground (arith, h.0) in
    rw (row_id-new n row h.0)
      (rw e (ap (λ l. n ∷ l) (insert_loop-ids rows _ (n + 1) h.1 (omega arith))))

pub insert_loop-next_id :
    (rows : List Row) (t : Table) (n : ℕ)
    → AreNew rows
    → n + length rows < u64_mod
    → (insert_loop rows t n).next_id ≡ n + length rows
unfolding insert_loop
insert_loop-next_id [] t n h k = omega arith
insert_loop-next_id (row ∷ rows) t n h k =
    let e : bump_id n row ≡ n + 1 = ground (arith, h.0) in
    rw e (insert_loop-next_id rows _ (n + 1) h.1 (omega arith) ∙ omega arith)

-- the first row and the others
insert_loop-first :
    (row : Row) (rows : List Row) (t : Table) (n j : ℕ)
    → (if ltb j (n + 1)
        then BTreeMap.get (BTreeMap.insert t n (record row { id = n })) j
        else numbered
            (get_elem? rows (j - (n + 1)))
            j
            (BTreeMap.get (BTreeMap.insert t n (record row { id = n })) j))
      ≡ (if ltb j n
          then BTreeMap.get t j
          else numbered (get_elem? (row ∷ rows) (j - n)) j (BTreeMap.get t j))
insert_loop-first row rows t n j = elim (Nat-cases j n) [
  | inl h ↦ ground (arith, h, BTreeMap.get-insert_by t n j (record row { id = n }), nat_beq_iff n j)
  | inr (zero, h) ↦ rw h (
      ground
        (arith, BTreeMap.get-insert_by t n (n + 0) (record row { id = n }), nat_beq_iff n (n + 0)))
  | inr (suc m, h) ↦
      let a : (n + suc m) - (n + 1) ≡ m = omega arith in
      let c : (n + suc m) - n ≡ suc m = omega arith in
      rw h (
        rw a (
          rw c (
            ground (
              arith,
              BTreeMap.get-insert_by t n (n + suc m) (record row { id = n }),
              nat_beq_iff n (n + suc m),
            ))))
]

insert_loop-get :
    (rows : List Row) (t : Table) (n j : ℕ)
    → AreNew rows
    → n + length rows < u64_mod
    → BTreeMap.get (insert_loop rows t n).table j ≡ (
        if ltb j n
        then BTreeMap.get t j
        else numbered (get_elem? rows (j - n)) j (BTreeMap.get t j))
unfolding insert_loop
insert_loop-get [] t n j h k = ground arith
insert_loop-get (row ∷ rows) t n j h k =
    let e : bump_id n row ≡ n + 1 = ground (arith, h.0) in
    let new_row : Row = record row { id = n } in
    rw (row_id-new n row h.0) (
      rw e (
        insert_loop-get rows (BTreeMap.insert t n new_row) (n + 1) j h.1 (omega arith)
        ∙ insert_loop-first row rows t n j))

module _ ⦃p : Platform⦄ where
  get_row-table :
      (s : Storage) (name : Text) (j : ℕ)
      → get_row s name j ≡ BTreeMap.get (table_or_empty s (normalize name)) j
  unfolding get_row BTreeMap.get
  get_row-table s name j = ground arith

  -- The rows of an INSERT that asks for ids get the next ids in order; each row is found under its
  -- id, no other id of the table and no other table changes, and the next id is the one after
  -- them: the ids must not reach 2^64.
  pub insert_rows-get_row :
      (s : Storage) (name name' : Text) (rows : List Row) (j : ℕ)
      → AreNew rows
      → next_id_or_one s (normalize name) + length rows < u64_mod
      → ((insert_rows s name rows).1 ≡ ids_from (next_id_or_one s (normalize name)) rows)
        × (next_id_or_one (insert_rows s name rows).0 (normalize name)
            ≡ next_id_or_one s (normalize name) + length rows)
        × (get_row (insert_rows s name rows).0 name' j ≡ (
            if (normalize name == normalize name')
              && not (ltb j (next_id_or_one s (normalize name)))
            then numbered
                (get_elem? rows (j - next_id_or_one s (normalize name)))
                j
                (get_row s name' j)
            else get_row s name' j))
  unfolding insert_rows
  insert_rows-get_row s name name' rows j h k =
      let tn = normalize name in
      let n = next_id_or_one s tn in
      let t = table_or_empty s tn in
      let r = insert_loop rows t n in
      (
        insert_loop-ids rows t n h k,
        ground (
          arith,
          HashMap.get-insert s.next_ids tn tn r.next_id,
          insert_loop-next_id rows t n h k,
          list_beq_iff tn tn,
        ),
        ground (
          arith,
          HashMap.get-insert s.tables tn (normalize name') r.table,
          insert_loop-get rows t n j h k,
          get_row-table s name' j,
          get_row-table (insert_rows s name rows).0 name' j,
          list_beq_iff tn (normalize name'),
        ),
      )
