-- ===== src/Client/Query.antt =====
-- src/client.rs: `execute_query`, on all that the server sends. An error of the stream or of UTF-8
-- comes without its message.
pub mod Answered
pub mod Whole
use srrdb.Prelude.{
  ℕ, zero, suc, ◌<◌, Bool, true, false, Option, none, some, List, [], ◌∷◌, if◌then◌else◌, length,
  drop, is_empty, nat_beq, Outcome, done, failed, panicked, ◌>>=◌,
}
use srrdb.Std.Text.{Text, codes}
use srrdb.Std.Bytes.{u16_of}
use srrdb.Std.Platform.{Platform}
use srrdb.Protocol.Frame.{Packet, read_packet, write_packet}
use srrdb.Client.{parse_lenenc_int, parse_column_def, parse_row, ends_rows}

pub data QueryResult : Type 0 where
  -- the affected rows, and the last insert id
  ok : ℕ → ℕ → QueryResult
  error : ℕ → Text → QueryResult
  -- the names of the columns, and the rows
  result_set : List (List ℕ) → List (List (Option (List ℕ))) → QueryResult

-- what is read, and what is left on the stream
abbrev pub Reading : Type 0 → Type 0
Reading A = Outcome (A × List ℕ) Text

-- `parse_column_def(&pkt.payload)?`, which may panic
abbrev pub with_column : Option (List ℕ) → Reading (List (List ℕ)) → Reading (List (List ℕ))
with_column none more = panicked
with_column (some name) (done (names, rest)) = done (name ∷ names, rest)
with_column (some name) (failed e) = failed e
with_column (some name) panicked = panicked

-- the loop over the columns
unfoldable pub read_columns : ℕ → List ℕ → Reading (List (List ℕ))
read_columns zero input = done ([], input)
read_columns (suc n) input = elim (read_packet input) [
  | none ↦ failed (codes "early eof")
  | some (packet, rest) ↦ with_column (parse_column_def packet.payload) (read_columns n rest)
]

abbrev pub with_row :
    Option (List (Option (List ℕ)))
    → Reading (List (List (Option (List ℕ))))
    → Reading (List (List (Option (List ℕ))))
with_row none more = panicked
with_row (some row) (done (rows, rest)) = done (row ∷ rows, rest)
with_row (some row) (failed e) = failed e
with_row (some row) panicked = panicked

-- The loop over the rows, on fuel: a packet takes four bytes or more.
unfoldable pub read_rows : ℕ → List ℕ → Reading (List (List (Option (List ℕ))))
read_rows zero input = failed (codes "early eof")
read_rows (suc f) input = elim (read_packet input) [
  | none ↦ failed (codes "early eof")
  | some (packet, rest) ↦
      let more = read_rows f rest in
      if ends_rows packet.payload then done ([], rest) else with_row (parse_row packet.payload) more
]

-- the end of the columns, and the rows
unfoldable pub finish_set : List (List ℕ) → List ℕ → Reading QueryResult
finish_set columns input = elim (read_packet input) [
  | none ↦ failed (codes "early eof")
  | some (end, rest) ↦ elim (read_rows (suc (length rest)) rest) [
    | done (rows, left) ↦ done (QueryResult.result_set columns rows, left)
    | failed e ↦ failed e
    | panicked ↦ panicked
  ]
]

-- the first packet of a result set counts the columns
unfoldable pub read_set : List ℕ → List ℕ → Reading QueryResult
read_set payload input = elim (parse_lenenc_int payload) [
  | none ↦ panicked
  | some (column_count, _) ↦ elim (read_columns column_count input) [
    | done (columns, rest) ↦ finish_set columns rest
    | failed e ↦ failed e
    | panicked ↦ panicked
  ]
]

-- `parse_lenenc_int` twice
unfoldable pub read_ok : List ℕ → List ℕ → Reading QueryResult
read_ok fields input = elim (parse_lenenc_int fields) [
  | none ↦ panicked
  | some (affected_rows, n) ↦ elim (parse_lenenc_int (drop n fields)) [
    | none ↦ panicked
    | some (last_insert_id, _) ↦ done (QueryResult.ok affected_rows last_insert_id, input)
  ]
]

module _ ⦃p : Platform⦄ where
  -- the fields of an error
  abbrev pub read_error : List ℕ → List ℕ → Reading QueryResult
  read_error (a ∷ b ∷ message) input =
      done (QueryResult.error (u16_of a b) (p.utf8_lossy message), input)
  read_error _ input = panicked

  -- what `execute_query` makes of the server's answer
  unfoldable pub read_response : List ℕ → Reading QueryResult
  read_response input = elim (read_packet input) [
    | none ↦ failed (codes "early eof")
    | some (packet, rest) ↦ elim packet.payload [
      | [] ↦ failed (codes "empty response")
      | first ∷ fields ↦
          if nat_beq first 0
          then read_ok fields rest
          else if nat_beq first 0xFF
          then read_error fields rest
          else if nat_beq first 0xFE
          then done (QueryResult.ok 0 0, rest)
          else read_set packet.payload rest
    ]
  ]

-- what `execute_query` writes
unfoldable pub query_packet : Text → List ℕ
query_packet sql = write_packet 0 (3 ∷ sql)
