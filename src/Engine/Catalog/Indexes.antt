-- ===== src/Engine/Catalog/Indexes.antt =====
-- The indexes of the catalog after CREATE INDEX.
use srrdb.Prelude.{
  ◌≡◌, true, false, List, [], ◌∷◌, ◌++◌, arith, list_eq, nat_eq, list_beq_iff, if◌then◌else◌, ok,
  Option-cases, inl, inr, any, unwrap_or,
}
use srrdb.Std.Text.{Text}
use srrdb.Std.HashMap
use srrdb.Std.Platform.{Platform}
use srrdb.Engine.Index.{IndexDef}
use srrdb.Engine.Storage.{normalize}
use srrdb.Engine.Catalog.{Catalog, create_index, get_table_indexes, table_exists, is_named}
use srrdb.Engine.Catalog.Tables.{is_same}

module _ ⦃p : Platform⦄ where
  -- Where CREATE INDEX succeeds in the catalog, the table was there and had no index of that name,
  -- in any case of its letters; then the index is the last of its table, and the indexes of the
  -- other tables are what they were.
  pub get_table_indexes-create_index :
      (c : Catalog) (db db' t' : Text) (def : IndexDef)
      → (create_index c db def).1 ≡ ok tt
      → (table_exists c db def.table_name ≡ true)
        × (any (is_named def.name) (get_table_indexes c db def.table_name) ≡ false)
        × (get_table_indexes (create_index c db def).0 db' t' ≡ (
            if is_same db def.table_name db' t'
            then get_table_indexes c db' t' ++ def ∷ []
            else get_table_indexes c db' t'))
  unfolding create_index get_table_indexes table_exists
  get_table_indexes-create_index c db db' t' def h =
      elim (Option-cases (HashMap.get c.databases (normalize db))) [
        | inl e ↦ absurd (ground (arith, h, e))
        | inr (d, e) ↦
            let tn = normalize def.table_name in
            let more : List IndexDef = unwrap_or (HashMap.get d.indexes tn) [] ++ def ∷ [] in
            ground (
              arith,
              h,
              e,
              HashMap.get-insert c.databases (normalize db) (normalize db')
                  (record d { indexes = HashMap.insert d.indexes tn more }),
              HashMap.get-insert d.indexes tn (normalize t') more,
              list_beq_iff (normalize db) (normalize db'),
              list_beq_iff tn (normalize t'),
            )
      ]
