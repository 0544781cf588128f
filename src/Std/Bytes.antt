-- ===== src/Std/Bytes.antt =====
-- Integers in little-endian bytes: `to_le_bytes` and `from_le_bytes`.
use srrdb.Prelude.{ℕ, ◌+◌, ◌*◌, ◌/◌, ◌%◌, ◌^◌, ◌<◌, ◌≡◌, List, [], ◌∷◌, ◌++◌, arith}

-- `u16::to_le_bytes`
abbrev pub u16_le : ℕ → List ℕ
u16_le n = (n % 256) ∷ (n / 256 % 256) ∷ []

-- `u32::to_le_bytes`
abbrev pub u32_le : ℕ → List ℕ
u32_le n = (n % 256) ∷ (n / 256 % 256) ∷ (n / 65536 % 256) ∷ (n / 16777216 % 256) ∷ []

-- `u64::to_le_bytes`
abbrev pub u64_le : ℕ → List ℕ
u64_le n = u32_le (n % 2 ^ 32) ++ u32_le (n / 2 ^ 32)

-- `u16::from_le_bytes`
abbrev pub u16_of : ℕ → ℕ → ℕ
u16_of a b = a + 256 * b

-- `u32::from_le_bytes`
abbrev pub u32_of : ℕ → ℕ → ℕ → ℕ → ℕ
u32_of a b c d = a + 256 * b + 65536 * c + 16777216 * d

pub u32_read :
    (n : ℕ)
    → n < 2 ^ 32
    → u32_of (n % 256) (n / 256 % 256) (n / 65536 % 256) (n / 16777216 % 256) ≡ n
u32_read n h = omega arith

pub u16_read : (n : ℕ) → n < 2 ^ 16 → u16_of (n % 256) (n / 256 % 256) ≡ n
u16_read n h = omega arith
