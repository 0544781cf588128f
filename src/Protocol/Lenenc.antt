-- ===== src/Protocol/Lenenc.antt =====
-- src/protocol/handshake.rs: integers and strings with their length in front.
use srrdb.Prelude.{
  ◌≡◌, ◌<◌, ◌/◌, arith, ℕ, ◌+◌, ◌*◌, ◌%◌, ◌^◌, Option, none, some, List, [], ◌∷◌, ◌++◌,
  if◌then◌else◌, length, ltb, nat_beq, take,
}
use srrdb.Std.Bytes.{u16_le, u32_le, u64_le, u16_of, u32_of, u32_read, u16_read}

-- `lenenc_int_bytes`, of a `u64`
unfoldable pub lenenc_int_bytes : ℕ → List ℕ
lenenc_int_bytes v =
    if ltb v 251
    then v ∷ []
    else if ltb v 65536
    then 0xFC ∷ u16_le (v % 2 ^ 16)
    else if ltb v 16777216
    then 0xFD ∷ take 3 (u32_le (v % 2 ^ 32))
    else 0xFE ∷ u64_le v

-- `u64::from_le_bytes` of eight bytes; `none` is the panic of a slice that is too short
abbrev pub read_u64 : List ℕ → Option ℕ
read_u64 (a ∷ b ∷ c ∷ d ∷ e ∷ f ∷ g ∷ h ∷ rest) = some (u32_of a b c d + 2 ^ 32 * u32_of e f g h)
read_u64 _ = none

abbrev pub read_u24 : List ℕ → Option ℕ
read_u24 (a ∷ b ∷ c ∷ rest) = some (u32_of a b c 0)
read_u24 _ = none

abbrev pub read_u16 : List ℕ → Option ℕ
read_u16 (a ∷ b ∷ rest) = some (u16_of a b)
read_u16 _ = none

-- a value with the number of bytes that it took
abbrev pub sized : Option ℕ → ℕ → Option (ℕ × ℕ)
sized none n = none
sized (some v) n = some (v, n)

-- `lenenc_int`: the value and the bytes taken
unfoldable pub lenenc_int : List ℕ → Option (ℕ × ℕ)
lenenc_int [] = some (0, 0)
lenenc_int (b ∷ rest) =
    if nat_beq b 0xFC
    then sized (read_u16 rest) 3
    else if nat_beq b 0xFD
    then sized (read_u24 rest) 4
    else if nat_beq b 0xFE
    then sized (read_u64 rest) 9
    else some (b, 1)

-- `lenenc_str`
unfoldable pub lenenc_str : List ℕ → List ℕ
unfolding lenenc_int_bytes
lenenc_str data_bytes = lenenc_int_bytes (length data_bytes) ++ data_bytes

-- A 64-bit integer is read back from its bytes, whatever follows them, with their number.
pub lenenc_int-lenenc_int_bytes :
    (v : ℕ) (rest : List ℕ)
    → v < 2 ^ 64
    → lenenc_int (lenenc_int_bytes v ++ rest) ≡ some (v, length (lenenc_int_bytes v))
unfolding lenenc_int lenenc_int_bytes
lenenc_int-lenenc_int_bytes v rest h =
    ground (arith, u16_read (v % 2 ^ 16), u32_read (v % 2 ^ 32), u32_read (v / 2 ^ 32))
