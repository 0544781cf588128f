-- ===== src/Engine/State/Maintained.antt =====
-- The indexes of a table after rows are put into them.
use srrdb.Prelude.{
  ℕ, ◌≡◌, refl, sym, ◌∙◌, ap, Bool, true, false, List, [], ◌∷◌, ◌++◌, arith, ◌==◌, list_eq, nat_eq,
  if◌then◌else◌, unwrap_or, list_beq_iff, append_assoc, append-nil,
}
use srrdb.Std.Text.{Text}
use srrdb.Std.HashMap
use srrdb.Std.HashMap.{HashMap, get-insert}
use srrdb.Std.Platform.{Platform}
use srrdb.Engine.Types.Order.{value_eq}
use srrdb.Engine.Types.Columns.{Column}
use srrdb.Engine.Index
use srrdb.Engine.Index.{IndexDef, IndexData, IndexType, Key, lookup_eq, without}
use srrdb.Engine.Index.Entries.{lookup_eq-insert}
use srrdb.Engine.Storage.{Row}
use srrdb.Engine.Query.{index_key, get_index_key}
use srrdb.Engine.State.{insert_into_indexes_raw, insert_rows_into_indexes}
use srrdb.Engine.Executor.Indexes.Built.{ids_with}

append_if :
    (c : Bool) (xs ys : List ℕ) (i : ℕ)
    → (if c then xs ++ i ∷ [] else xs) ++ ys ≡ xs ++ (if c then i ∷ ys else ys)
append_if true xs ys i = append_assoc xs (i ∷ []) ys
append_if false xs ys i = refl

module _ ⦃p : Platform⦄ where
  -- no index has the data of that name
  abbrev pub NoData : Text → Text → List IndexDef → Type 0
  NoData tn name [] = Unit
  NoData tn name (def ∷ defs) = ((index_key tn def.name == name) ≡ false) × NoData tn name defs

  -- the data of an index, which is new where it is not there
  abbrev pub data_of : HashMap Text IndexData → Text → IndexDef → IndexData
  data_of m tn def = unwrap_or (HashMap.get m (index_key tn def.name)) (Index.new def.index_type)

  -- one row in one index
  abbrev with_row :
      HashMap Text IndexData → Text → IndexDef → List Column → Row → HashMap Text IndexData
  with_row m tn def columns row =
      HashMap.insert m (index_key tn def.name)
        (Index.insert (data_of m tn def) (get_index_key row def columns) row.id)

  get-with_row :
      (m : HashMap Text IndexData) (tn name : Text) (def : IndexDef) (columns : List Column)
      (row : Row)
      → (index_key tn def.name == name) ≡ false
      → HashMap.get (with_row m tn def columns row) name ≡ HashMap.get m name
  get-with_row m tn name def columns row h = ground (
    arith,
    get-insert m (index_key tn def.name) name
        (Index.insert (data_of m tn def) (get_index_key row def columns) row.id),
    h,
  )

  pub data_of-insert :
      (m : HashMap Text IndexData) (tn : Text) (def : IndexDef) (d : IndexData)
      → data_of (HashMap.insert m (index_key tn def.name) d) tn def ≡ d
  data_of-insert m tn def d = ground (
    arith,
    get-insert m (index_key tn def.name) (index_key tn def.name) d,
    list_beq_iff (index_key tn def.name) (index_key tn def.name),
  )

  insert_raw-other :
      (defs : List IndexDef) (m : HashMap Text IndexData) (t name : Text) (columns : List Column)
      (row : Row)
      → NoData (p.to_lowercase t) name defs
      → HashMap.get (insert_into_indexes_raw m t defs columns row) name ≡ HashMap.get m name
  unfolding insert_into_indexes_raw
  insert_raw-other [] m t name columns row h = refl
  insert_raw-other (def ∷ defs) m t name columns row h =
      insert_raw-other defs (with_row m (p.to_lowercase t) def columns row) t name columns row h.1
      ∙ get-with_row m (p.to_lowercase t) name def columns row h.0

  insert_raw-one :
      (before : List IndexDef) (m : HashMap Text IndexData) (t : Text) (def : IndexDef)
      (after : List IndexDef) (columns : List Column) (row : Row)
      → NoData (p.to_lowercase t) (index_key (p.to_lowercase t) def.name) before
      → NoData (p.to_lowercase t) (index_key (p.to_lowercase t) def.name) after
      → data_of
          (insert_into_indexes_raw m t (before ++ def ∷ after) columns row)
          (p.to_lowercase t)
          def
        ≡ Index.insert (data_of m (p.to_lowercase t) def) (get_index_key row def columns) row.id
  unfolding insert_into_indexes_raw
  insert_raw-one [] m t def after columns row b a =
      ap (λ d. unwrap_or d (Index.new def.index_type))
        (insert_raw-other after (with_row m (p.to_lowercase t) def columns row) t
          (index_key (p.to_lowercase t) def.name) columns row a)
      ∙ data_of-insert m (p.to_lowercase t) def
          (Index.insert (data_of m (p.to_lowercase t) def) (get_index_key row def columns) row.id)
  insert_raw-one (other ∷ before) m t def after columns row b a =
      insert_raw-one before (with_row m (p.to_lowercase t) other columns row) t def after columns
        row b.1 a
      ∙ ap
          (λ d.
            Index.insert (unwrap_or d (Index.new def.index_type)) (get_index_key row def columns)
              row.id)
          (get-with_row m (p.to_lowercase t) (index_key (p.to_lowercase t) def.name) other columns
            row b.0)

  -- When rows are put into the indexes of a table, each index, of either kind, has under every key
  -- the ids that it had there and then those of exactly the rows with that key, in their order: no
  -- other index of the table may have the data of the same name.
  pub lookup_eq-insert_rows_into_indexes :
      (m : HashMap Text IndexData) (t : Text) (before : List IndexDef) (def : IndexDef)
      (after : List IndexDef) (columns : List Column) (rows : List Row) (k : Key)
      → NoData (p.to_lowercase t) (index_key (p.to_lowercase t) def.name) before
      → NoData (p.to_lowercase t) (index_key (p.to_lowercase t) def.name) after
      → lookup_eq
          (data_of
            (insert_rows_into_indexes m t (before ++ def ∷ after) columns rows)
            (p.to_lowercase t)
            def)
          k
        ≡ lookup_eq (data_of m (p.to_lowercase t) def) k ++ ids_with def columns rows k
  unfolding insert_rows_into_indexes ids_with
  lookup_eq-insert_rows_into_indexes m t before def after columns [] k b a = sym (append-nil _)
  lookup_eq-insert_rows_into_indexes m t before def after columns (row ∷ rows) k b a =
      lookup_eq-insert_rows_into_indexes
        (insert_into_indexes_raw m t (before ++ def ∷ after) columns row) t before def after columns
        rows k b a
      ∙ ap (λ d. lookup_eq d k ++ ids_with def columns rows k)
          (insert_raw-one before m t def after columns row b a)
      ∙ ap (λ ids. ids ++ ids_with def columns rows k)
          (lookup_eq-insert (data_of m (p.to_lowercase t) def) (get_index_key row def columns) k
            row.id)
      ∙ append_if (get_index_key row def columns == k)
          (lookup_eq (data_of m (p.to_lowercase t) def) k) (ids_with def columns rows k) row.id
