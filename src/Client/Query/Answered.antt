-- ===== src/Client/Query/Answered.antt =====
-- The client reads the server's answer to a statement whole.
use srrdb.Prelude.{
  ℕ, zero, suc, ◌%◌, ◌^◌, ◌<◌, ltb, Bool-cases, inl, inr, ◌≡◌, refl, ap, ◌∙◌, false, Option, some,
  List, [], ◌∷◌, ◌++◌, arith, map, length, take, is_empty, nat_beq, append_assoc, done,
  length-append,
}
use srrdb.Std.Bytes.{u16_le, u32_le}
use srrdb.Std.Platform.{Platform}
use srrdb.Engine.Types.Columns.{Column}
use srrdb.Std.Decimal.{int_to_string, nat_to_string}
use srrdb.Engine.Types.{Value, null, int, uint, float, double, bytes, text}
use srrdb.Engine.Storage.{Row}
use srrdb.Protocol.Lenenc.{lenenc_str, lenenc_int_bytes}
use srrdb.Protocol.Frame.{read_packet, write_packet, read-write_packet}
use srrdb.Protocol.Handshake.{eof_payload}
use srrdb.Protocol.Resultset.{column_definition_payload, text_row_payload, value_payload}
use srrdb.Client.{ends_rows}
use srrdb.Client.RoundTrip.{AreSized, all_shown, parse_row-text_row_payload}
use srrdb.Client.Columns.{parse_column_def-payload}
use srrdb.Client.Query.{read_columns, read_rows}
use srrdb.Server.Connection.{next_seq}
use srrdb.Server.Connection.Answers.{packets, seq_after, row_payload}

-- a packet holds it
abbrev pub Packs : List ℕ → Type 0
Packs payload = length payload < 2 ^ 24

pub read_packet-packets :
    (seq : ℕ) (payload : List ℕ) (payloads : List (List ℕ)) (rest : List ℕ)
    → Packs payload
    → read_packet (packets seq (payload ∷ payloads) ++ rest)
      ≡ some (record { seq_id = seq; payload = payload }, packets (next_seq seq) payloads ++ rest)
unfolding packets
read_packet-packets seq payload payloads rest h =
    ap read_packet (append_assoc (write_packet seq payload) (packets (next_seq seq) payloads) rest)
    ∙ read-write_packet seq payload (packets (next_seq seq) payloads ++ rest) h

-- columns that the client can read
abbrev pub ColumnsPack : List Column → Type 0
ColumnsPack [] = Unit
ColumnsPack (col ∷ columns) =
    Packs (column_definition_payload col)
    × (length col.table < 2 ^ 64)
    × (length col.name < 2 ^ 64)
    × ColumnsPack columns

abbrev pub column_names : List Column → List (List ℕ)
column_names [] = []
column_names (col ∷ columns) = col.name ∷ column_names columns

pub read_columns-packets :
    (seq : ℕ) (columns : List Column) (more : List (List ℕ)) (rest : List ℕ)
    → ColumnsPack columns
    → read_columns
        (length columns)
        (packets seq (map column_definition_payload columns ++ more) ++ rest)
      ≡ done (
        column_names columns,
        packets (seq_after seq (map column_definition_payload columns)) more ++ rest,
      )
unfolding read_columns
read_columns-packets seq [] more rest h = refl
read_columns-packets seq (col ∷ columns) more rest (k, t, n, h) =
    rw
      (
        read_packet-packets seq (column_definition_payload col)
            (map column_definition_payload columns ++ more) rest k,
        read_columns,
      )
      (rw (parse_column_def-payload col t n)
        (rw (read_columns-packets (next_seq seq) columns more rest h) refl))

-- the first byte of a short length
pub lenenc_int_bytes-packed :
    (v : ℕ)
    → v < 2 ^ 24
    → (b : ℕ) × (t : List ℕ) × (lenenc_int_bytes v ≡ b ∷ t)
      × (nat_beq b 0xFE ≡ false)
      × (nat_beq b 0xFF ≡ false)
      × (0 < v → nat_beq b 0 ≡ false)
unfolding lenenc_int_bytes
lenenc_int_bytes-packed v w = elim (Bool-cases (ltb v 251)) [
  | inl h ↦ (v, [], rw h refl, ground (arith, h), ground (arith, h), λ k. ground (arith, h, k))
  | inr h ↦ elim (Bool-cases (ltb v 65536)) [
    | inl k ↦ (0xFC, u16_le (v % 2 ^ 16), rw h (rw k refl), refl, refl, λ _. refl)
    | inr k ↦ elim (Bool-cases (ltb v 16777216)) [
      | inl j ↦ (0xFD, take 3 (u32_le (v % 2 ^ 32)), rw h (rw k (rw j refl)), refl, refl, λ _. refl)
      | inr j ↦ absurd (ground (arith, j, w))
    ]
  ]
]

-- a string's packet does not begin like the end of the rows
str-ends_rows :
    (s rest : List ℕ)
    → length (lenenc_str s ++ rest) < 2 ^ 24
    → ends_rows (lenenc_str s ++ rest) ≡ false
unfolding lenenc_str ends_rows
str-ends_rows s rest h =
    let k : length s < 2 ^ 24 = omega (
      arith,
      h,
      length-append (lenenc_int_bytes (length s) ++ s) rest,
      length-append (lenenc_int_bytes (length s)) s,
    ) in
    let (b, t, e, n, _, _) = lenenc_int_bytes-packed (length s) k in rw e n

module _ ⦃p : Platform⦄ where
  value-ends_rows :
      (v : Value) (values : List Value)
      → Packs (text_row_payload (v ∷ values))
      → ends_rows (text_row_payload (v ∷ values)) ≡ false
  unfolding text_row_payload value_payload
  value-ends_rows null values h = unfold ends_rows in refl
  value-ends_rows (int v) values h = str-ends_rows (int_to_string v) _ h
  value-ends_rows (uint v) values h = str-ends_rows (nat_to_string v) _ h
  value-ends_rows (float v) values h = str-ends_rows (p.f32_to_string v) _ h
  value-ends_rows (double v) values h = str-ends_rows (p.f64_to_string v) _ h
  value-ends_rows (bytes b) values h = str-ends_rows b _ h
  value-ends_rows (text s) values h = str-ends_rows s _ h

  row-ends_rows :
      (values : List Value)
      → Packs (text_row_payload values)
      → is_empty values ≡ false
      → ends_rows (text_row_payload values) ≡ false
  row-ends_rows [] h e = absurd (ground (arith, e))
  row-ends_rows (v ∷ values) h e = value-ends_rows v values h

  -- rows that the client can read
  abbrev pub RowsPack : List Row → Type 0
  RowsPack [] = Unit
  RowsPack (row ∷ rows) =
      Packs (row_payload row) × AreSized row.values × (is_empty row.values ≡ false) × RowsPack rows

  abbrev pub rows_shown : List Row → List (List (Option (List ℕ)))
  rows_shown [] = []
  rows_shown (row ∷ rows) = all_shown row.values ∷ rows_shown rows

  pub read_rows-packets :
      (f seq : ℕ) (rows : List Row) (rest : List ℕ)
      → RowsPack rows
      → length rows < f
      → read_rows f (packets seq (map row_payload rows ++ (eof_payload ∷ [])) ++ rest)
        ≡ done (rows_shown rows, rest)
  unfolding read_rows ends_rows
  read_rows-packets zero seq rows rest h k = absurd (omega (arith, k))
  read_rows-packets (suc f) seq [] rest h k =
      rw
        (read_packet-packets seq eof_payload [] rest (unfold eof_payload in omega arith), read_rows)
        (unfold eof_payload packets in refl)
  read_rows-packets (suc f) seq (row ∷ rows) rest (l, s, e, h) k =
      rw
        (
          read_packet-packets seq (row_payload row) (map row_payload rows ++ (eof_payload ∷ []))
              rest l,
          read_rows,
        )
        (rw (row-ends_rows row.values l e) (
          rw (parse_row-text_row_payload row.values s)
            (rw (read_rows-packets f (next_seq seq) rows rest h (omega arith)) refl)))
