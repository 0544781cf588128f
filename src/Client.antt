-- ===== src/Client.antt =====
-- src/client.rs: what the command-line client makes of the server's packets.
pub mod RoundTrip
pub mod Columns
pub mod Query
pub mod Login
pub mod Table
pub mod Shell
use Prim.Native.Nat.{bit_and}
use srrdb.Prelude.{
  ℕ, zero, suc, ◌+◌, ◌-◌, ◌*◌, ◌^◌, ◌%◌, Bool, true, false, ◌&&◌, Option, none, some, List, [], ◌∷◌,
  ◌++◌, if◌then◌else◌, length, take, drop, ltb, leb, nat_beq, is_empty, replicate, Outcome, done,
  failed, panicked, ◌>>=◌,
}
use srrdb.Std.Text.{Text, codes}
use srrdb.Std.Bytes.{u16_of, u32_le, u32_of}
use srrdb.Std.Platform.{Platform}
use srrdb.Protocol.Lenenc.{read_u16, read_u24, read_u64, sized}
use srrdb.Protocol.Auth.{Sha1, compute_auth_response}
use srrdb.Protocol.Handshake.{
  Read, read_slice, read_byte, read_u32, read_nul, read_utf8, has_flag, client_connect_with_db,
  client_secure_connection, client_plugin_auth, client_plugin_auth_lenenc_client_data,
}

-- `parse_lenenc_int`: the value and the bytes taken; `none` is the panic of an index
unfoldable pub parse_lenenc_int : List ℕ → Option (ℕ × ℕ)
parse_lenenc_int [] = some (0, 0)
parse_lenenc_int (b ∷ rest) =
    if nat_beq b 0xFB
    then some (0, 1)
    else if nat_beq b 0xFC
    then sized (read_u16 rest) 3
    else if nat_beq b 0xFD
    then sized (read_u24 rest) 4
    else if nat_beq b 0xFE
    then sized (read_u64 rest) 9
    else some (b, 1)

-- `parse_lenenc_str`: the bytes and how many were taken with their length; `n + len` is a `usize`
unfoldable pub parse_lenenc_str : List ℕ → Option (List ℕ × ℕ)
unfolding parse_lenenc_int
parse_lenenc_str data_bytes = elim (parse_lenenc_int data_bytes) [
  | none ↦ none
  | some (len, n) ↦
      if ltb (length data_bytes) (n + len)
      then none
      else some (take len (drop n data_bytes), n + len)
]

-- a string off the front, and what is left; `none` is a panic
unfoldable pub split_str : List ℕ → Option (List ℕ × List ℕ)
unfolding parse_lenenc_str
split_str data_bytes = elim (parse_lenenc_str data_bytes) [
  | none ↦ none
  | some (s, n) ↦ some (s, drop n data_bytes)
]

-- the string behind another one, with what is left
unfoldable pub next_str : Option (List ℕ × List ℕ) → Option (List ℕ × List ℕ)
unfolding split_str
next_str none = none
next_str (some (s, rest)) = split_str rest

-- `parse_column_def`: the fifth string is the column's name
unfoldable pub parse_column_def : List ℕ → Option (List ℕ)
parse_column_def data_bytes =
    elim (next_str (next_str (next_str (next_str (split_str data_bytes))))) [
      | none ↦ none
      | some (name, rest) ↦ some name
    ]

-- one value in front of the others
abbrev pub in_front :
    Option (List ℕ) → Option (List (Option (List ℕ))) → Option (List (Option (List ℕ)))
in_front v none = none
in_front v (some row) = some (v ∷ row)

-- The loop over the values of a row, on fuel: each takes a byte or more. `none` is a panic.
unfoldable pub row_loop : ℕ → List ℕ → Option (List (Option (List ℕ)))
row_loop f [] = some []
row_loop zero (b ∷ rest) = none
row_loop (suc f) (b ∷ rest) =
    if nat_beq b 0xFB then in_front none (row_loop f rest) else elim (split_str (b ∷ rest)) [
      | none ↦ none
      | some (v, left) ↦ in_front (some v) (row_loop f left)
    ]

-- the values of a packet of a row
unfoldable pub parse_row : List ℕ → Option (List (Option (List ℕ)))
parse_row payload = row_loop (length payload) payload

-- whether a packet ends the rows
unfoldable pub ends_rows : List ℕ → Bool
ends_rows [] = true
ends_rows (b ∷ rest) = nat_beq b 0xFE
