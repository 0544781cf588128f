-- ===== src/Engine/Executor/Indexes/Built.antt =====
-- What CREATE INDEX puts into an index.
use srrdb.Prelude.{
  ℕ, ◌≤◌, ◌≡◌, refl, ◌∙◌, ap, sym, true, false, ◌&&◌, not, List, [], ◌∷◌, ◌++◌, arith, ◌==◌,
  list_eq, nat_eq, if◌then◌else◌, ok, length, is_empty, append_assoc, length-append, subst,
  append-nil, Bool-cases, ltb, inl, inr, list_beq_iff,
}
use srrdb.Std.HashMap
use srrdb.Std.BTreeMap
use srrdb.Std.Platform.{Platform}
use srrdb.Engine.Types.Order.{value_eq}
use srrdb.Engine.Types.Columns.{Column}
use srrdb.Engine.Index
use srrdb.Engine.Index.{IndexDef, IndexData, IndexType, Key, lookup_eq}
use srrdb.Engine.Index.Entries.{lookup_eq-insert}
use srrdb.Engine.Storage.{Row}
use srrdb.Engine.Query.{get_index_key}
use srrdb.Engine.Executor.Indexes.{build_index}

empty_length : (xs : List ℕ) → is_empty xs ≡ true → length xs ≡ 0
empty_length [] h = refl
empty_length (x ∷ xs) h = absurd (ground (arith, h))

module _ ⦃p : Platform⦄ where
  -- the ids of the rows that have a key, in the order of the rows
  unfoldable pub ids_with : IndexDef → List Column → List Row → Key → List ℕ
  ids_with def columns [] k = []
  ids_with def columns (row ∷ rows) k =
      let rest = ids_with def columns rows k in
      if get_index_key row def columns == k then row.id ∷ rest else rest

  -- an id more under a key that had none
  one_more :
      (d : IndexData) (key j : Key) (i : ℕ)
      → length (lookup_eq d j) ≤ 1
      → is_empty (lookup_eq d key) ≡ true
      → length (lookup_eq (Index.insert d key i) j) ≤ 1
  one_more d key j i h e = ground (
    arith,
    lookup_eq-insert d key j i,
    list_beq_iff key j,
    length-append (lookup_eq d j) (i ∷ []),
    empty_length (lookup_eq d key) e,
  )

  build_index-rest :
      (def : IndexDef) (columns : List Column) (row : Row) (rows : List Row) (d d' : IndexData)
      → build_index def columns (row ∷ rows) d ≡ ok d'
      → (build_index def columns rows (Index.insert d (get_index_key row def columns) row.id)
          ≡ ok d')
        × (def.unique && not (is_empty (lookup_eq d (get_index_key row def columns))) ≡ false)
  unfolding build_index
  build_index-rest def columns row rows d d' h = ground (arith, h)

  lookup_eq-build :
      (def : IndexDef) (columns : List Column) (rows : List Row) (d d' : IndexData) (k : Key)
      → build_index def columns rows d ≡ ok d'
      → lookup_eq d' k ≡ lookup_eq d k ++ ids_with def columns rows k
  unfolding ids_with
  lookup_eq-build def columns [] d d' k h =
      let e : d ≡ d' = unfold build_index in ground (arith, h) in
      rw e (sym (append-nil (lookup_eq d' k)))
  lookup_eq-build def columns (row ∷ rows) d d' k h =
      let key = get_index_key row def columns in
      let r = build_index-rest def columns row rows d d' h in
      ground (
        arith,
        lookup_eq-build def columns rows (Index.insert d key row.id) d' k r.0,
        lookup_eq-insert d key k row.id,
        append_assoc (lookup_eq d k) (row.id ∷ []) (ids_with def columns rows k),
      )

  build-unique :
      (def : IndexDef) (columns : List Column) (rows : List Row) (d d' : IndexData) (k : Key)
      → def.unique ≡ true
      → ((j : Key) → length (lookup_eq d j) ≤ 1)
      → build_index def columns rows d ≡ ok d'
      → length (lookup_eq d' k) ≤ 1
  build-unique def columns [] d d' k u h e =
      let q : d ≡ d' = unfold build_index in ground (arith, e) in
      subst (λ x. length (lookup_eq x k) ≤ 1) q (h k)
  build-unique def columns (row ∷ rows) d d' k u h e =
      let key = get_index_key row def columns in
      let r = build_index-rest def columns row rows d d' e in
      build-unique def columns rows (Index.insert d key row.id) d' k u
        (λ j. one_more d key j row.id (h j) (ground (arith, r.1, u))) r.0

  pub lookup_eq-new : (type : IndexType) (k : Key) → lookup_eq (Index.new type) k ≡ []
  unfolding lookup_eq Index.new
  lookup_eq-new IndexType.btree k = unfold BTreeMap.get in refl
  lookup_eq-new IndexType.hash k = unfold HashMap.get in refl

  -- The index that CREATE INDEX builds, where it builds one, has under each key the ids of exactly
  -- the rows with that key, in the order of the rows; a unique one has no more than one of them.
  pub lookup_eq-build_index :
      (def : IndexDef) (columns : List Column) (rows : List Row) (d : IndexData) (k : Key)
      → build_index def columns rows (Index.new def.index_type) ≡ ok d
      → (lookup_eq d k ≡ ids_with def columns rows k)
        × (def.unique && ltb 1 (length (ids_with def columns rows k)) ≡ false)
  lookup_eq-build_index def columns rows d k h =
      let e : lookup_eq d k ≡ ids_with def columns rows k =
        lookup_eq-build def columns rows _ d k h
        ∙ ap (λ l. l ++ ids_with def columns rows k) (lookup_eq-new def.index_type k) in
      (
        e,
        elim (Bool-cases def.unique) [
          | inr u ↦ rw u refl
          | inl u ↦ ground (
            arith,
            u,
            subst (λ l. length l ≤ 1) e
                (build-unique def columns rows _ d k u
                  (λ j. rw (lookup_eq-new def.index_type j) (omega arith)) h),
          )
        ],
      )
