-- ===== src/Engine/Storage/Clear.antt =====
-- The rows and the indexes after `clear_table`.
use srrdb.Prelude.{
  ℕ, ◌≡◌, ◌≢◌, refl, ap, ◌∙◌, Bool, false, ◌&&◌, none, List, [], ◌∷◌, ◌++◌, arith, ◌==◌, list_eq,
  nat_eq, list_beq_iff, if◌then◌else◌, any, filter, Bool-cases, inl, inr,
}
use srrdb.Std.Text.{Text, codes, starts_with}
use srrdb.Std.HashMap
use srrdb.Std.HashMap.{HashMap}
use srrdb.Std.Platform.{Platform}
use srrdb.Engine.Index.{IndexData}
use srrdb.Engine.Query.{index_key}
use srrdb.Engine.Storage.{Storage, remove_all, clear_table, get_row, normalize, next_id_or_one}

-- a name without a colon
abbrev pub NoColon : Text → Type 0
NoColon [] = Unit
NoColon (c ∷ name) = (c ≢ b':') × NoColon name

-- the prefix of the names of a table's indexes belongs to no other table
starts_with-colon :
    (a b i : Text)
    → NoColon a
    → NoColon b
    → starts_with (b ++ (b':' ∷ i)) (a ++ (b':' ∷ [])) ≡ (a == b)
starts_with-colon [] [] i g h = ground arith
starts_with-colon [] (d ∷ b) i g h = ground (arith, h.0)
starts_with-colon (c ∷ a) [] i g h = ground (arith, g.0)
starts_with-colon (c ∷ a) (d ∷ b) i g h = ground (arith, starts_with-colon a b i g.1 h.1)

any-filter :
    (f : Text → Bool) (j : Text) (ks : List Text)
    → any (λ k. k == j) (filter f ks) ≡ (any (λ k. k == j) ks && f j)
any-filter f j [] = refl
any-filter f j (k ∷ ks) = elim (Bool-cases (k == j)) [
  | inl e ↦ ground (arith, e, any-filter f j ks, ap f ((list_beq_iff k j).0 e))
  | inr e ↦ ground (arith, e, any-filter f j ks)
]

get-missing :
    (m : HashMap Text IndexData) (j : Text)
    → any (λ k. k == j) (HashMap.keys m) ≡ false
    → HashMap.get m j ≡ none
unfolding HashMap.get HashMap.keys
get-missing [] j h = refl
get-missing ((k, d) ∷ m) j h = ground (arith, h, get-missing m j)

module _ ⦃p : Platform⦄ where
  get-remove_all :
      (ks : List Text) (m : HashMap Text IndexData) (j : Text)
      → HashMap.get (remove_all ks m) j ≡ (if any (λ k. k == j) ks then none else HashMap.get m j)
  unfolding remove_all
  get-remove_all [] m j = refl
  get-remove_all (k ∷ ks) m j =
      ground (arith, get-remove_all ks (HashMap.remove m k) j, HashMap.get-remove m k j)

  -- the removal of the keys with a property
  get-remove_filter :
      (f : Text → Bool) (m : HashMap Text IndexData) (j : Text)
      → HashMap.get (remove_all (filter f (HashMap.keys m)) m) j
        ≡ (if f j then none else HashMap.get m j)
  get-remove_filter f m j = ground (
    arith,
    get-remove_all (filter f (HashMap.keys m)) m j,
    any-filter f j (HashMap.keys m),
    get-missing m j,
  )

  -- Clearing a table takes all its rows and the data of all its indexes, and starts its ids again
  -- at 1; the rows, the next ids and the data of the indexes of the other tables are what they
  -- were. Neither table may have a colon in its name.
  pub get_row-clear_table :
      (s : Storage) (name name' index : Text) (i : ℕ)
      → NoColon (normalize name)
      → NoColon (normalize name')
      → (get_row (clear_table s name) name' i
          ≡ (if normalize name == normalize name' then none else get_row s name' i))
        × (next_id_or_one (clear_table s name) (normalize name')
            ≡ (if normalize name == normalize name' then 1 else next_id_or_one s (normalize name')))
        × (HashMap.get (clear_table s name).index_data (index_key (normalize name') index) ≡ (
            if normalize name == normalize name'
            then none
            else HashMap.get s.index_data (index_key (normalize name') index)))
  unfolding clear_table get_row
  get_row-clear_table s name name' index i g h = (
    ground (
      arith,
      HashMap.get-remove s.tables (normalize name) (normalize name'),
      list_beq_iff (normalize name) (normalize name'),
    ),
    ground (
      arith,
      HashMap.get-remove s.next_ids (normalize name) (normalize name'),
      list_beq_iff (normalize name) (normalize name'),
    ),
    get-remove_filter (λ k. starts_with k (normalize name ++ codes ":")) s.index_data
          (index_key (normalize name') index)
        ∙ ap (λ b. if b then none else HashMap.get s.index_data (index_key (normalize name') index))
            (starts_with-colon (normalize name) (normalize name') (p.to_lowercase index) g h),
  )
