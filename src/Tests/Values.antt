-- ===== src/Tests/Values.antt =====
-- Codings of the engine's sums: values, defaults and index data.
use srrdb.Prelude.{
  ℕ, ◌≤◌, ◌≡◌, refl, Bool, true, false, Option, none, some, ◌⊎◌, inl, inr, List, arith, length,
}
use srrdb.Prelude.Int.{ℤ, pos, negsuc}
use srrdb.Std.Text.{Text}
use srrdb.Engine.Types.{Value, null, int, uint, float, double, bytes, text, DefaultExpr}
use srrdb.Engine.Index.{IndexType, IndexData, Key}
use srrdb.Tests.Codecs.{
  Coding, nat_coding, unit_coding, pair_coding, sum_coding, map_coding, list_coding,
}

abbrev pub U : Type 0
U = Unit {0}

-- a type with as many values as another one
module _ {A B : Type 0} (ca : Coding A) (from : A → B) (to : B → A)
    (back : (b : B) → from (to b) ≡ b) (forth : (a : A) → to (from a) ≡ a) where
  pub no_more : (a : A) → length (ca.enc (to (from a))) ≤ length (ca.enc a)
  no_more a = rw (forth a) (omega arith)

  abbrev pub same_coding : Coding B
  same_coding = map_coding ca from to back no_more

abbrev pub text_coding : Coding Text
text_coding = list_coding nat_coding

abbrev pub bool_from : U ⊎ (U) → Bool
bool_from (inl u) = false
bool_from (inr u) = true

abbrev pub bool_to : Bool → U ⊎ (U)
bool_to false = inl tt
bool_to true = inr tt

pub bool_back : (b : Bool) → bool_from (bool_to b) ≡ b
bool_back false = refl
bool_back true = refl

pub bool_forth : (a : U ⊎ (U)) → bool_to (bool_from a) ≡ a
bool_forth (inl u) = refl
bool_forth (inr u) = refl

abbrev pub bool_coding : Coding Bool
bool_coding =
    same_coding (sum_coding unit_coding unit_coding) bool_from bool_to bool_back bool_forth

abbrev pub int_from : ℕ ⊎ (ℕ) → ℤ
int_from (inl x) = pos x
int_from (inr x) = negsuc x

abbrev pub int_to : ℤ → ℕ ⊎ (ℕ)
int_to (pos x) = inl x
int_to (negsuc x) = inr x

pub int_back : (b : ℤ) → int_from (int_to b) ≡ b
int_back (pos x) = refl
int_back (negsuc x) = refl

pub int_forth : (a : ℕ ⊎ (ℕ)) → int_to (int_from a) ≡ a
int_forth (inl x) = refl
int_forth (inr x) = refl

abbrev pub int_coding : Coding ℤ
int_coding = same_coding (sum_coding nat_coding nat_coding) int_from int_to int_back int_forth

abbrev pub value_from : U ⊎ (ℤ ⊎ (ℕ ⊎ (ℕ ⊎ (ℕ ⊎ (List ℕ ⊎ (Text)))))) → Value
value_from (inl u) = null
value_from (inr (inl x)) = int x
value_from (inr (inr (inl x))) = uint x
value_from (inr (inr (inr (inl x)))) = float x
value_from (inr (inr (inr (inr (inl x))))) = double x
value_from (inr (inr (inr (inr (inr (inl x)))))) = bytes x
value_from (inr (inr (inr (inr (inr (inr x)))))) = text x

abbrev pub value_to : Value → U ⊎ (ℤ ⊎ (ℕ ⊎ (ℕ ⊎ (ℕ ⊎ (List ℕ ⊎ (Text))))))
value_to null = inl tt
value_to (int x) = inr (inl x)
value_to (uint x) = inr (inr (inl x))
value_to (float x) = inr (inr (inr (inl x)))
value_to (double x) = inr (inr (inr (inr (inl x))))
value_to (bytes x) = inr (inr (inr (inr (inr (inl x)))))
value_to (text x) = inr (inr (inr (inr (inr (inr x)))))

pub value_back : (b : Value) → value_from (value_to b) ≡ b
value_back null = refl
value_back (int x) = refl
value_back (uint x) = refl
value_back (float x) = refl
value_back (double x) = refl
value_back (bytes x) = refl
value_back (text x) = refl

pub value_forth : (a : U ⊎ (ℤ ⊎ (ℕ ⊎ (ℕ ⊎ (ℕ ⊎ (List ℕ ⊎ (Text))))))) → value_to (value_from a) ≡ a
value_forth (inl u) = refl
value_forth (inr (inl x)) = refl
value_forth (inr (inr (inl x))) = refl
value_forth (inr (inr (inr (inl x)))) = refl
value_forth (inr (inr (inr (inr (inl x))))) = refl
value_forth (inr (inr (inr (inr (inr (inl x)))))) = refl
value_forth (inr (inr (inr (inr (inr (inr x)))))) = refl

abbrev pub value_coding : Coding Value
value_coding =
    same_coding
      (sum_coding unit_coding (
        sum_coding int_coding (
          sum_coding nat_coding
            (sum_coding nat_coding (sum_coding nat_coding (sum_coding text_coding text_coding))))))
      value_from value_to value_back value_forth

abbrev pub default_from : Value ⊎ (U) → DefaultExpr
default_from (inl x) = DefaultExpr.value x
default_from (inr u) = DefaultExpr.current_timestamp

abbrev pub default_to : DefaultExpr → Value ⊎ (U)
default_to (DefaultExpr.value x) = inl x
default_to DefaultExpr.current_timestamp = inr tt

pub default_back : (b : DefaultExpr) → default_from (default_to b) ≡ b
default_back (DefaultExpr.value x) = refl
default_back DefaultExpr.current_timestamp = refl

pub default_forth : (a : Value ⊎ (U)) → default_to (default_from a) ≡ a
default_forth (inl x) = refl
default_forth (inr u) = refl

abbrev pub default_coding : Coding DefaultExpr
default_coding =
    same_coding (sum_coding value_coding unit_coding) default_from default_to default_back
      default_forth

abbrev pub option_from : U ⊎ (DefaultExpr) → Option DefaultExpr
option_from (inl u) = none
option_from (inr x) = some x

abbrev pub option_to : Option DefaultExpr → U ⊎ (DefaultExpr)
option_to none = inl tt
option_to (some x) = inr x

pub option_back : (b : Option DefaultExpr) → option_from (option_to b) ≡ b
option_back none = refl
option_back (some x) = refl

pub option_forth : (a : U ⊎ (DefaultExpr)) → option_to (option_from a) ≡ a
option_forth (inl u) = refl
option_forth (inr x) = refl

abbrev pub option_coding : Coding (Option DefaultExpr)
option_coding =
    same_coding (sum_coding unit_coding default_coding) option_from option_to option_back
      option_forth

abbrev pub index_type_from : U ⊎ (U) → IndexType
index_type_from (inl u) = IndexType.btree
index_type_from (inr u) = IndexType.hash

abbrev pub index_type_to : IndexType → U ⊎ (U)
index_type_to IndexType.btree = inl tt
index_type_to IndexType.hash = inr tt

pub index_type_back : (b : IndexType) → index_type_from (index_type_to b) ≡ b
index_type_back IndexType.btree = refl
index_type_back IndexType.hash = refl

pub index_type_forth : (a : U ⊎ (U)) → index_type_to (index_type_from a) ≡ a
index_type_forth (inl u) = refl
index_type_forth (inr u) = refl

abbrev pub index_type_coding : Coding IndexType
index_type_coding =
    same_coding (sum_coding unit_coding unit_coding) index_type_from index_type_to index_type_back
      index_type_forth

abbrev pub index_data_from : List (Key × List ℕ) ⊎ (List (Key × List ℕ)) → IndexData
index_data_from (inl x) = IndexData.btree x
index_data_from (inr x) = IndexData.hash x

abbrev pub index_data_to : IndexData → List (Key × List ℕ) ⊎ (List (Key × List ℕ))
index_data_to (IndexData.btree x) = inl x
index_data_to (IndexData.hash x) = inr x

pub index_data_back : (b : IndexData) → index_data_from (index_data_to b) ≡ b
index_data_back (IndexData.btree x) = refl
index_data_back (IndexData.hash x) = refl

pub index_data_forth :
    (a : List (Key × List ℕ) ⊎ (List (Key × List ℕ))) → index_data_to (index_data_from a) ≡ a
index_data_forth (inl x) = refl
index_data_forth (inr x) = refl

abbrev pub index_data_coding : Coding IndexData
index_data_coding =
    same_coding
      (sum_coding (list_coding (pair_coding (list_coding value_coding) (list_coding nat_coding)))
        (list_coding (pair_coding (list_coding value_coding) (list_coding nat_coding))))
      index_data_from index_data_to index_data_back index_data_forth
