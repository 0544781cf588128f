-- ===== src/Server/Connection/Answers.antt =====
-- The packets with which the server answers a packet of the client.
use srrdb.Prelude.{
  ℕ, ◌+◌, ◌≡◌, refl, sym, ap, ◌∙◌, false, List, [], ◌∷◌, ◌++◌, arith, if◌then◌else◌, map, length,
  is_empty, append-nil, append_assoc, Outcome, done, failed, panicked,
}
use srrdb.Std.Text.{Text}
use srrdb.Std.Platform.{Platform}
use srrdb.Sql.Statements.{Statement}
use srrdb.Engine.Types.Columns.{Column}
use srrdb.Engine.Storage.{Row}
use srrdb.Engine.Wal.{Bincode}
use srrdb.Engine.ExecuteResult.{ExecuteResult}
use srrdb.Engine.Executor.{execute}
use srrdb.Protocol.Frame.{write_packet}
use srrdb.Protocol.Handshake.{ok_payload, eof_payload}
use srrdb.Protocol.Resultset.{column_count_payload, column_definition_payload, text_row_payload}
use srrdb.Server.Connection.{
  Connection, next_seq, send, send_columns, send_rows, send_result, plain_ok,
  server_status_autocommit, run_statements,
}

-- packets on the wire, numbered from `seq`
unfoldable pub packets : ℕ → List (List ℕ) → List ℕ
packets seq [] = []
packets seq (payload ∷ payloads) = write_packet seq payload ++ packets (next_seq seq) payloads

-- the number after them
abbrev pub seq_after : ℕ → List (List ℕ) → ℕ
seq_after seq [] = seq
seq_after seq (payload ∷ payloads) = seq_after (next_seq seq) payloads

-- from `c` to `c'` these packets were sent
abbrev pub Sends : Connection → Connection → List (List ℕ) → Type 0
Sends c c' payloads =
    (c'.sent ≡ c.sent ++ packets c.seq payloads) × (c'.seq ≡ seq_after c.seq payloads)

packets-append :
    (seq : ℕ) (ps qs : List (List ℕ))
    → packets seq (ps ++ qs) ≡ packets seq ps ++ packets (seq_after seq ps) qs
unfolding packets
packets-append seq [] qs = refl
packets-append seq (p ∷ ps) qs =
    ap (λ l. write_packet seq p ++ l) (packets-append (next_seq seq) ps qs)
    ∙ sym (append_assoc (write_packet seq p) (packets (next_seq seq) ps) _)

seq_after-append :
    (seq : ℕ) (ps qs : List (List ℕ)) → seq_after seq (ps ++ qs) ≡ seq_after (seq_after seq ps) qs
seq_after-append seq [] qs = refl
seq_after-append seq (p ∷ ps) qs = seq_after-append (next_seq seq) ps qs

pub Sends-nil : (c : Connection) → Sends c c []
unfolding packets
Sends-nil c = (sym (append-nil c.sent), refl)

pub Sends-trans :
    (c c' c'' : Connection) (ps qs : List (List ℕ))
    → Sends c c' ps
    → Sends c' c'' qs
    → Sends c c'' (ps ++ qs)
Sends-trans c c' c'' ps qs (e, s) (e', s') = (
  e'
      ∙ ap (λ l. l ++ packets c'.seq qs) e
      ∙ ap (λ n. (c.sent ++ packets c.seq ps) ++ packets n qs) s
      ∙ append_assoc c.sent (packets c.seq ps) _
      ∙ ap (λ l. c.sent ++ l) (sym (packets-append c.seq ps qs)),
  s' ∙ ap (λ n. seq_after n qs) s ∙ sym (seq_after-append c.seq ps qs),
)

pub send-Sends : (c : Connection) (payload : List ℕ) → Sends c (send c payload) (payload ∷ [])
unfolding send packets
send-Sends c payload = (ap (λ l. c.sent ++ l) (sym (append-nil (write_packet c.seq payload))), refl)

-- one packet, then others
pub Sends-first :
    (c c' : Connection) (payload : List ℕ) (qs : List (List ℕ))
    → Sends (send c payload) c' qs
    → Sends c c' (payload ∷ qs)
Sends-first c c' payload qs s =
    Sends-trans c (send c payload) c' (payload ∷ []) qs (send-Sends c payload) s

send_columns-Sends :
    (c : Connection) (columns : List Column)
    → Sends c (send_columns c columns) (map column_definition_payload columns)
unfolding send_columns
send_columns-Sends c [] = Sends-nil c
send_columns-Sends c (col ∷ columns) =
    let c' = send c (column_definition_payload col) in
    Sends-first c (send_columns c' columns) (column_definition_payload col) _
      (send_columns-Sends c' columns)

module _ ⦃p : Platform⦄ where
  abbrev pub row_payload : Row → List ℕ
  row_payload row = text_row_payload row.values

  send_rows-Sends :
      (c : Connection) (rows : List Row) → Sends c (send_rows c rows) (map row_payload rows)
  unfolding send_rows
  send_rows-Sends c [] = Sends-nil c
  send_rows-Sends c (row ∷ rows) =
      let c' = send c (row_payload row) in
      Sends-first c (send_rows c' rows) (row_payload row) _ (send_rows-Sends c' rows)

  -- the payloads of a result set with columns
  abbrev pub set_payloads : List Column → List Row → List (List ℕ)
  set_payloads columns rows =
      column_count_payload (length columns)
      ∷ (map column_definition_payload columns
          ++ (eof_payload ∷ (map row_payload rows ++ (eof_payload ∷ []))))

  -- the payloads that answer a statement that succeeds
  unfoldable pub result_payloads : ExecuteResult → List (List ℕ)
  result_payloads (ExecuteResult.rows columns rows) =
      if is_empty columns then plain_ok ∷ [] else set_payloads columns rows
  result_payloads (ExecuteResult.affected rows last_insert_id) =
      ok_payload rows last_insert_id server_status_autocommit ∷ []
  result_payloads (ExecuteResult.database_changed _) = plain_ok ∷ []
  result_payloads ExecuteResult.ok = plain_ok ∷ []

  -- The server answers a statement that succeeds with these packets in order, numbered one after
  -- the other.
  pub send_result-Sends :
      (c : Connection) (r : ExecuteResult) → Sends c (send_result c r) (result_payloads r)
  unfolding send_result result_payloads
  send_result-Sends c (ExecuteResult.rows [] rows) = send-Sends c plain_ok
  send_result-Sends c (ExecuteResult.rows (col ∷ columns) rows) =
      let cols = col ∷ columns in
      let c1 = send c (column_count_payload (length cols)) in
      let c2 = send_columns c1 cols in
      let c3 = send c2 eof_payload in
      let c4 = send_rows c3 rows in
      let c5 = send c4 eof_payload in
      let tail =
        Sends-trans c3 c4 c5 (map row_payload rows) _ (send_rows-Sends c3 rows)
          (send-Sends c4 eof_payload) in
      Sends-first c c5 (column_count_payload (length cols)) _ (
        Sends-trans c1 c2 c5 (map column_definition_payload cols) _ (send_columns-Sends c1 cols)
          (Sends-first c2 c5 eof_payload _ tail))
  send_result-Sends c (ExecuteResult.affected n last) = send-Sends c _
  send_result-Sends c (ExecuteResult.database_changed db) =
      let changed : Connection = record c { session = record c.session { database = db } } in
      send-Sends changed plain_ok
  send_result-Sends c ExecuteResult.ok = send-Sends c plain_ok

  pub result_payloads-first :
      (r : ExecuteResult)
      → (first : List ℕ) × (rest : List (List ℕ)) × (result_payloads r ≡ first ∷ rest)
  unfolding result_payloads
  result_payloads-first (ExecuteResult.rows [] rows) = (plain_ok, [], refl)
  result_payloads-first (ExecuteResult.rows (col ∷ columns) rows) = (_, _, refl)
  result_payloads-first (ExecuteResult.affected n last) = (_, _, refl)
  result_payloads-first (ExecuteResult.database_changed db) = (_, _, refl)
  result_payloads-first ExecuteResult.ok = (_, _, refl)

module _ ⦃p : Platform⦄ ⦃b : Bincode⦄ where
  -- the packets of a text's statements, and at least one where there is a statement and all of
  -- them succeed
  abbrev pub Ran : Connection → List Statement → Connection × Outcome {0, 0} Unit Text → Type 0
  Ran c statements (c', r) =
      (payloads : List (List ℕ)) × Sends c c' payloads
      × (r ≡ done tt → is_empty statements ≡ false → is_empty payloads ≡ false)

  -- what a statement comes to, and the statements behind it
  run_next :
      (time : ℕ → ℕ) (c : Connection) (r : Outcome ExecuteResult Text) (statement : Statement)
      (statements : List Statement)
      → ((c' : Connection) → Ran c' statements (run_statements time c' statements))
      → Ran c (statement ∷ statements) (elim r [
        | done result ↦ run_statements time (send_result c result) statements
        | failed e ↦ (c, failed e)
        | panicked ↦ (c, panicked)
      ])
  run_next time c (done result) statement statements more =
      let c' = send_result c result in
      let (first, rest, q) = result_payloads-first result in
      let (ps, s, n) = more c' in
      (
        result_payloads result ++ ps,
        Sends-trans c c' (run_statements time c' statements).0 (result_payloads result) ps
            (send_result-Sends c result) s,
        λ _ _. rw q refl,
      )
  run_next time c (failed e) statement statements more =
      ([], Sends-nil c, λ h _. absurd (ground (arith, h)))
  run_next time c panicked statement statements more =
      ([], Sends-nil c, λ h _. absurd (ground (arith, h)))

  pub run_statements-Ran :
      (time : ℕ → ℕ) (c : Connection) (statements : List Statement)
      → Ran c statements (run_statements time c statements)
  unfolding run_statements
  run_statements-Ran time c [] = ([], Sends-nil c, λ _ h. absurd (ground (arith, h)))
  run_statements-Ran time c (statement ∷ statements) =
      let (x, r) = execute (time c.executed) c.executor c.session.database statement in
      run_next time (record c { executor = x; executed = c.executed + 1 }) r statement statements
        (λ c'. run_statements-Ran time c' statements)
