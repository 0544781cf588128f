-- ===== src/Client/Query/Whole.antt =====
-- The client's query and the server's answer together.
use srrdb.Prelude.{
  ℕ, suc, ◌+◌, ◌^◌, ◌<◌, ◌≤◌, ◌≡◌, refl, sym, ap, ◌∙◌, true, false, some, List, [], ◌∷◌, ◌++◌,
  arith, map, length, length-map, nat_beq, drop_prefix, done, ok, length-append, append-nil,
}
use srrdb.Std.Text.{Text}
use srrdb.Std.Bytes.{u16_le}
use srrdb.Std.Platform.{Platform}
use srrdb.Sql.Statements.{Statement}
use srrdb.Sql.Parser.{SqlParser}
use srrdb.Engine.Types.Columns.{Column}
use srrdb.Engine.Storage.{Row}
use srrdb.Engine.Wal.{Bincode}
use srrdb.Engine.ExecuteResult.{ExecuteResult}
use srrdb.Engine.Executor.{execute}
use srrdb.Protocol.Frame.{Packet, read_packet, write_packet, read-write_packet}
use srrdb.Protocol.Command.{parse_command, Command}
use srrdb.Protocol.Lenenc.{lenenc_int_bytes}
use srrdb.Protocol.Handshake.{ok_payload, eof_payload}
use srrdb.Protocol.Resultset.{column_count_payload, column_definition_payload}
use srrdb.Client.{parse_lenenc_int}
use srrdb.Client.RoundTrip.{parse_lenenc_int-bytes}
use srrdb.Client.Query.{QueryResult, read_set, finish_set, read_ok, read_response, query_packet}
use srrdb.Client.Query.Answered.{
  Packs, ColumnsPack, column_names, RowsPack, rows_shown, read_packet-packets, read_columns-packets,
  read_rows-packets, lenenc_int_bytes-packed,
}
use srrdb.Server.Connection.{
  Connection, Next, next_seq, server_status_autocommit, run_statements, handle_query, answer_query,
  handle_command, handle_packet,
}
use srrdb.Server.Connection.Answers.{
  packets, seq_after, row_payload, set_payloads, result_payloads, Sends, send_result-Sends,
}

read_ok-fields :
    (n m : ℕ) (tail rest : List ℕ)
    → n < 2 ^ 64
    → m < 2 ^ 64
    → read_ok (lenenc_int_bytes n ++ (lenenc_int_bytes m ++ tail)) rest
      ≡ done (QueryResult.ok n m, rest)
unfolding read_ok
read_ok-fields n m tail rest h k =
    rw (parse_lenenc_int-bytes n (lenenc_int_bytes m ++ tail) h, read_ok)
      (rw (drop_prefix (lenenc_int_bytes n) (lenenc_int_bytes m ++ tail))
        (rw (parse_lenenc_int-bytes m tail k) refl))

length-lenenc_int_bytes : (v : ℕ) → length (lenenc_int_bytes v) ≤ 9
unfolding lenenc_int_bytes
length-lenenc_int_bytes v = ground arith

ok_payload-Packs : (n m status : ℕ) → Packs (ok_payload n m status)
unfolding ok_payload
ok_payload-Packs n m status = omega (
  arith,
  length-lenenc_int_bytes n,
  length-lenenc_int_bytes m,
  length-append (lenenc_int_bytes n) (lenenc_int_bytes m ++ (u16_le status ++ u16_le 0)),
  length-append (lenenc_int_bytes m) (u16_le status ++ u16_le 0),
)

module _ ⦃p : Platform⦄ where
  read_response-ok :
      (seq n m status : ℕ) (rest : List ℕ)
      → n < 2 ^ 64
      → m < 2 ^ 64
      → read_response (packets seq (ok_payload n m status ∷ []) ++ rest)
        ≡ done (QueryResult.ok n m, rest)
  unfolding read_response
  read_response-ok seq n m status rest h k =
      rw
        (
          read_packet-packets seq (ok_payload n m status) [] rest (ok_payload-Packs n m status),
          read_response,
        )
        (unfold ok_payload packets in read_ok-fields n m _ rest h k)

  -- a result set whose columns and rows fit their packets
  abbrev pub SetPacks : List Column → List Row → Type 0
  SetPacks columns rows = (length columns < 2 ^ 24) × ColumnsPack columns × RowsPack rows

  length-packets : (seq : ℕ) (ps : List (List ℕ)) → length ps ≤ length (packets seq ps)
  unfolding packets write_packet
  length-packets seq [] = omega arith
  length-packets seq (payload ∷ ps) =
      omega
        (arith, length-packets (next_seq seq) ps, length-append payload (packets (next_seq seq) ps))

  enough_rows :
      (seq : ℕ) (rows : List Row) (rest : List ℕ)
      → length rows
        < suc (length (packets seq (map row_payload rows ++ (eof_payload ∷ [])) ++ rest))
  enough_rows seq rows rest =
      let ps = map row_payload rows ++ (eof_payload ∷ []) in
      omega (
        arith,
        length-packets seq ps,
        length-append (packets seq ps) rest,
        length-append (map row_payload rows) (eof_payload ∷ []),
        length-map row_payload rows,
      )

  read_set-packets :
      (seq : ℕ) (columns : List Column) (rows : List Row) (rest : List ℕ)
      → SetPacks columns rows
      → read_set (column_count_payload (length columns)) (
          packets seq (
            map column_definition_payload columns
            ++ (eof_payload ∷ (map row_payload rows ++ (eof_payload ∷ []))))
          ++ rest)
        ≡ done (QueryResult.result_set (column_names columns) (rows_shown rows), rest)
  unfolding read_set finish_set column_count_payload
  read_set-packets seq columns rows rest (l, c, r) =
      let n = length columns in
      let counted : parse_lenenc_int (lenenc_int_bytes n) ≡ some (n, length (lenenc_int_bytes n)) =
        ap parse_lenenc_int (sym (append-nil (lenenc_int_bytes n)))
        ∙ parse_lenenc_int-bytes n [] (omega (arith, l)) in
      let more = map row_payload rows ++ (eof_payload ∷ []) in
      let seq' = seq_after seq (map column_definition_payload columns) in
      rw (counted, read_set)
        (rw (read_columns-packets seq columns (eof_payload ∷ more) rest c) (
          rw
            (
              read_packet-packets seq' eof_payload more rest (unfold eof_payload in omega arith),
              finish_set,
            )
            (rw
              (read_rows-packets _ (next_seq seq') rows rest r
                (enough_rows (next_seq seq') rows rest))
              refl)))

  read_response-count :
      (input t rest : List ℕ) (seq b : ℕ)
      → read_packet input ≡ some (record { seq_id = seq; payload = b ∷ t }, rest)
      → nat_beq b 0 ≡ false
      → nat_beq b 0xFF ≡ false
      → nat_beq b 0xFE ≡ false
      → read_response input ≡ read_set (b ∷ t) rest
  unfolding read_response
  read_response-count input t rest seq b e h k j = rw (e, read_response) (rw h (rw k (rw j refl)))

  read_response-set :
      (seq : ℕ) (col : Column) (columns : List Column) (rows : List Row) (rest : List ℕ)
      → SetPacks (col ∷ columns) rows
      → read_response (packets seq (set_payloads (col ∷ columns) rows) ++ rest)
        ≡ done (QueryResult.result_set (column_names (col ∷ columns)) (rows_shown rows), rest)
  unfolding column_count_payload
  read_response-set seq col columns rows rest h =
      let n = length (col ∷ columns) in
      let (b, t, e, fe, ff, zero_free) = lenenc_int_bytes-packed n h.0 in
      let small : Packs (lenenc_int_bytes n) = omega (arith, length-lenenc_int_bytes n) in
      let tail =
        map column_definition_payload (col ∷ columns)
        ++ (eof_payload ∷ (map row_payload rows ++ (eof_payload ∷ []))) in
      let left = packets (next_seq seq) tail ++ rest in
      read_response-count _ t left seq b
        (read_packet-packets seq (lenenc_int_bytes n) tail rest small
          ∙ ap (λ l. some (record { seq_id = seq; payload = l }, left)) e)
        (zero_free (omega arith)) ff fe
      ∙ ap (λ l. read_set l left) (sym e)
      ∙ read_set-packets (next_seq seq) (col ∷ columns) rows rest h

  -- the results that the client can read
  abbrev pub IsReadable : ExecuteResult → Type 0
  IsReadable (ExecuteResult.rows columns rows) = SetPacks columns rows
  IsReadable (ExecuteResult.affected n last) = (n < 2 ^ 64) × (last < 2 ^ 64)
  IsReadable _ = Unit

  -- what the client reads of a result
  unfoldable pub read_result : ExecuteResult → QueryResult
  read_result (ExecuteResult.rows [] rows) = QueryResult.ok 0 0
  read_result (ExecuteResult.rows (col ∷ columns) rows) =
      QueryResult.result_set (column_names (col ∷ columns)) (rows_shown rows)
  read_result (ExecuteResult.affected n last) = QueryResult.ok n last
  read_result _ = QueryResult.ok 0 0

  read_response-result :
      (seq : ℕ) (r : ExecuteResult) (rest : List ℕ)
      → IsReadable r
      → read_response (packets seq (result_payloads r) ++ rest) ≡ done (read_result r, rest)
  unfolding result_payloads read_result
  read_response-result seq (ExecuteResult.rows [] rows) rest h =
      read_response-ok seq 0 0 server_status_autocommit rest (omega arith) (omega arith)
  read_response-result seq (ExecuteResult.rows (col ∷ columns) rows) rest h =
      read_response-set seq col columns rows rest h
  read_response-result seq (ExecuteResult.affected n last) rest h =
      read_response-ok seq n last server_status_autocommit rest h.0 h.1
  read_response-result seq (ExecuteResult.database_changed db) rest h =
      read_response-ok seq 0 0 server_status_autocommit rest (omega arith) (omega arith)
  read_response-result seq ExecuteResult.ok rest h =
      read_response-ok seq 0 0 server_status_autocommit rest (omega arith) (omega arith)

module _ ⦃p : Platform⦄ ⦃b : Bincode⦄ ⦃s : SqlParser⦄ where
  -- one statement that succeeds
  run_statements-one :
      (time : ℕ → ℕ) (c : Connection) (statement : Statement) (r : ExecuteResult)
      → (execute (time c.executed) c.executor c.session.database statement).1 ≡ done r
      → Sends c (run_statements time c (statement ∷ [])).0 (result_payloads r)
        × ((run_statements time c (statement ∷ [])).1 ≡ done tt)
  unfolding run_statements
  run_statements-one time c statement r e =
      let x = (execute (time c.executed) c.executor c.session.database statement).0 in
      let c' : Connection = record c { executor = x; executed = c.executed + 1 } in
      rw (e, run_statements) (send_result-Sends c' r, refl)

  parse_command-query :
      (sql : Text) → p.is_utf8 sql ≡ true → parse_command (3 ∷ sql) ≡ ok (Command.query sql)
  unfolding parse_command
  parse_command-query sql u = rw (u, parse_command) refl

  handle_packet-query :
      (time : ℕ → ℕ) (c : Connection) (seq : ℕ) (sql : Text) (statement : Statement)
      → p.is_utf8 sql ≡ true
      → s.parse_sql sql ≡ ok (statement ∷ [])
      → handle_packet time c (record { seq_id = seq; payload = 3 ∷ sql })
        ≡ answer_query (run_statements time (record c { seq = next_seq seq }) (statement ∷ []))
  unfolding handle_packet handle_command handle_query
  handle_packet-query time c seq sql statement u q =
      rw (parse_command-query sql u, handle_packet) (rw (q, handle_query) refl)

  -- The client sends a query of one statement, which succeeds; the server reads it, executes it
  -- and goes on; and from what the server then writes the client reads the result of the
  -- statement whole, the names of the columns and the texts of the rows, and leaves on the stream
  -- what follows: the query and every packet of the answer are shorter than 2^24 bytes, the query
  -- is UTF-8, and no row is without values.
  pub read_response-query :
      (time : ℕ → ℕ) (c : Connection) (sql : Text) (statement : Statement) (r : ExecuteResult)
      (rest : List ℕ)
      → Packs (3 ∷ sql)
      → p.is_utf8 sql ≡ true
      → s.parse_sql sql ≡ ok (statement ∷ [])
      → (execute (time c.executed) c.executor c.session.database statement).1 ≡ done r
      → IsReadable r
      → (packet : Packet) × (answer : List ℕ) × (read_packet (query_packet sql) ≡ some (packet, []))
        × ((handle_packet time c packet).0.sent ≡ c.sent ++ answer)
        × ((handle_packet time c packet).1 ≡ Next.again)
        × (read_response (answer ++ rest) ≡ done (read_result r, rest))
  unfolding query_packet
  read_response-query time c sql statement r rest h u q e readable =
      let packet : Packet = record { seq_id = 0; payload = 3 ∷ sql } in
      let c' : Connection = record c { seq = 1 } in
      let (s, n) = run_statements-one time c' statement r e in
      let handled = handle_packet-query time c 0 sql statement u q in
      (
        packet,
        packets 1 (result_payloads r),
        ap read_packet (sym (append-nil (write_packet 0 (3 ∷ sql))))
            ∙ read-write_packet 0 (3 ∷ sql) [] h,
        ap (λ y. y.0.sent) handled ∙ rw n s.0,
        ap (λ y. y.1) handled ∙ rw n refl,
        read_response-result 1 r rest readable,
      )
