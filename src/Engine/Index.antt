-- ===== src/Engine/Index.antt =====
-- src/engine/index.rs: an index maps the key of a row to the ids of the rows that have it.
pub mod Entries
use Prim.Native.Nat.Ordering.{lt, eq, gt}
use srrdb.Prelude.{
  ℕ, zero, suc, ◌+◌, ◌-◌, ◌^◌, ◌≡◌, Bool, true, false, not, ◌&&◌, Ordering, Option, none, some,
  List, [], ◌∷◌, ◌++◌, Eq, ◌==◌, Ord, nat_eq, list_eq, if◌then◌else◌, filter, flat_map, is_empty,
  unwrap_or, ltb,
}
use srrdb.Prelude.Int.{ℤ, pos, negsuc}
use srrdb.Std.Text.{Text, codes, list_ord}
use srrdb.Std.HashMap
use srrdb.Std.HashMap.{HashMap}
use srrdb.Std.BTreeMap
use srrdb.Std.BTreeMap.{BTreeMap}
use srrdb.Std.Decimal.{i64_min_abs}
use srrdb.Std.Platform.{Platform}
use srrdb.Engine.Types.{Value, null, int, uint, float, double, bytes, text}
use srrdb.Engine.Types.Order.{value_eq, value_ord}

pub data IndexType : Type 0 where
  btree hash : IndexType

-- `Display for IndexType`
unfoldable pub type_name : IndexType → Text
type_name btree = codes "BTREE"
type_name hash = codes "HASH"

pub record IndexDef : Type 0 where
  pub name : Text
  pub index_type : IndexType
  pub table_name : Text
  pub columns : List Text
  pub unique : Bool

-- the key of a row in an index
abbrev pub Key : Type 0
Key = List Value

pub data IndexData : Type 0 where
  btree : BTreeMap Key (List ℕ) → IndexData
  hash : HashMap Key (List ℕ) → IndexData

-- `IndexData::new`
unfoldable pub new : IndexType → IndexData
new IndexType.btree = IndexData.btree []
new IndexType.hash = IndexData.hash []

-- `retain(|id| *id != row_id)`
abbrev pub without : ℕ → List ℕ → List ℕ
without row_id ids = filter (λ id. not (id == row_id)) ids

-- an end of a range of keys
pub data Bound : Type 0 where
  unbounded : Bound
  included excluded : Key → Bound

module _ ⦃p : Platform⦄ where
  -- `IndexData::insert`: `entry(key).or_default().push(row_id)`
  unfoldable pub insert : IndexData → Key → ℕ → IndexData
  insert (IndexData.btree m) key row_id =
      IndexData.btree (BTreeMap.insert m key (unwrap_or (BTreeMap.get m key) [] ++ row_id ∷ []))
  insert (IndexData.hash m) key row_id =
      IndexData.hash (HashMap.insert m key (unwrap_or (HashMap.get m key) [] ++ row_id ∷ []))

  -- `IndexData::delete`: an entry that is left empty is removed.
  unfoldable pub delete : IndexData → Key → ℕ → IndexData
  delete (IndexData.btree m) key row_id = elim (BTreeMap.get m key) [
    | none ↦ IndexData.btree m
    | some ids ↦
        if is_empty (without row_id ids)
        then IndexData.btree (BTreeMap.remove m key)
        else IndexData.btree (BTreeMap.insert m key (without row_id ids))
  ]
  delete (IndexData.hash m) key row_id = elim (HashMap.get m key) [
    | none ↦ IndexData.hash m
    | some ids ↦
        if is_empty (without row_id ids)
        then IndexData.hash (HashMap.remove m key)
        else IndexData.hash (HashMap.insert m key (without row_id ids))
  ]

  -- `IndexData::lookup_eq`
  unfoldable pub lookup_eq : IndexData → Key → List ℕ
  lookup_eq (IndexData.btree m) key = unwrap_or (BTreeMap.get m key) []
  lookup_eq (IndexData.hash m) key = unwrap_or (HashMap.get m key) []

  abbrev pub is_le : Ordering → Bool
  is_le gt = false
  is_le _ = true

  abbrev pub is_lt : Ordering → Bool
  is_lt lt = true
  is_lt _ = false

  -- whether a key lies on the right side of an end
  abbrev pub after_start : Bound → Key → Bool
  after_start unbounded k = true
  after_start (included l) k = is_le (list_ord.cmp l k)
  after_start (excluded l) k = is_lt (list_ord.cmp l k)

  abbrev pub before_end : Bound → Key → Bool
  before_end unbounded k = true
  before_end (included h) k = is_le (list_ord.cmp k h)
  before_end (excluded h) k = is_lt (list_ord.cmp k h)

  -- the ends for which `BTreeMap::range` does not panic
  abbrev pub is_range : Bound → Bound → Bool
  is_range (included l) (included h) = is_le (list_ord.cmp l h)
  is_range (included l) (excluded h) = is_le (list_ord.cmp l h)
  is_range (excluded l) (included h) = is_le (list_ord.cmp l h)
  is_range (excluded l) (excluded h) = is_lt (list_ord.cmp l h)
  is_range _ _ = true

  -- `map.range(..).flat_map(|(_, ids)| ids.clone())`, where `none` is the panic of `range`
  unfoldable pub range_ids : Bound → Bound → BTreeMap Key (List ℕ) → Option (List ℕ)
  range_ids start end m =
      if is_range start end
      then some (flat_map (λ e. e.1) (filter (λ e. after_start start e.0 && before_end end e.0) m))
      else none

  abbrev pub bound_of : Option Key → Bound
  bound_of none = unbounded
  bound_of (some k) = included k

  -- `IndexData::lookup_range`
  unfoldable pub lookup_range : IndexData → Option Key → Option Key → Option (List ℕ)
  lookup_range (IndexData.btree m) low high = range_ids (bound_of low) (bound_of high) m
  lookup_range (IndexData.hash m) low high = some []

  -- `n.saturating_add(1)` on `i64` and on `u64`
  abbrev pub int_succ : ℤ → ℤ
  int_succ (pos n) = if ltb (suc n) i64_min_abs then pos (suc n) else pos n
  int_succ (negsuc zero) = pos 0
  int_succ (negsuc (suc n)) = negsuc n

  abbrev pub uint_succ : ℕ → ℕ
  uint_succ n = if ltb (suc n) (2 ^ 64) then suc n else n

  -- `bump_value`
  unfoldable pub bump_value : Value → Value
  bump_value null = null
  bump_value (int n) = int (int_succ n)
  bump_value (uint n) = uint (uint_succ n)
  bump_value (float n) = float (p.f32_succ n)
  bump_value (double n) = double (p.f64_succ n)
  bump_value (bytes b) = bytes (b ++ 0 ∷ [])
  bump_value (text s) = text (s ++ 0 ∷ [])

  -- the prefix with its last value bumped
  unfoldable pub bump_last : Key → Key
  unfolding bump_value
  bump_last [] = []
  bump_last (v ∷ []) = bump_value v ∷ []
  bump_last (v ∷ w ∷ r) = v ∷ bump_last (w ∷ r)

  -- `IndexData::lookup_prefix`
  unfoldable pub lookup_prefix : IndexData → Key → Option (List ℕ)
  lookup_prefix (IndexData.btree m) prefix =
      range_ids (included prefix) (excluded (bump_last prefix)) m
  lookup_prefix (IndexData.hash m) prefix = some []

-- `IndexData::clear`
unfoldable pub clear : IndexData → IndexData
clear (IndexData.btree m) = IndexData.btree []
clear (IndexData.hash m) = IndexData.hash []
