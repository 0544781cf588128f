-- ===== src/Std/Bincode.antt =====
-- The serializer bincode, a parameter: what it writes of a value it reads back, whatever follows,
-- and the value that it reads is no longer than what it read it from.
use srrdb.Prelude.{ℕ, ◌≤◌, ◌≡◌, Option, some, List, ◌++◌, length}

pub record Codec (A : Type 0) : Type 0 where
  pub serialize : A → List ℕ
  -- `none` is an error
  pub deserialize : List ℕ → Option A
  pub read_back : (a : A) (rest : List ℕ) → deserialize (serialize a ++ rest) ≡ some a
  pub no_longer : (b : List ℕ) (a : A) → deserialize b ≡ some a → length (serialize a) ≤ length b
