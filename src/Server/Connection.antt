-- ===== src/Server/Connection.antt =====
-- src/server/connection.rs: what the server does with the packets of one client. The input is all
-- that the client sends, and the server's writes do not fail. The SQL parser is the library's: a
-- parameter. Other connections may change the executor between two statements, so every step takes
-- any state of it.
pub mod Answers
pub mod Live
use srrdb.Prelude.{
  ℕ, zero, suc, ◌+◌, ◌%◌, Bool, true, false, Option, none, some, List, [], ◌∷◌, ◌++◌, if◌then◌else◌,
  length, is_empty, nat_beq, Result, ok, err, Outcome, done, failed, panicked,
}
use srrdb.Std.Text.{Text, codes}
use srrdb.Std.Decimal.{nat_to_string}
use srrdb.Std.Platform.{Platform}
use srrdb.Sql.Statements.{Statement}
use srrdb.Sql.Parser.{SqlParser}
use srrdb.Engine.Types.Columns.{Column}
use srrdb.Engine.Storage.{Row}
use srrdb.Engine.Wal.{Bincode}
use srrdb.Engine.ExecuteResult.{ExecuteResult}
use srrdb.Engine.State.{Executor}
use srrdb.Engine.Executor.{execute, database_exists}
use srrdb.Protocol.Frame.{Packet, read_packet, write_packet}
use srrdb.Protocol.Command.{Command, parse_command}
use srrdb.Protocol.Auth.{Sha1, verify_native_password_hash}
use srrdb.Protocol.Handshake.{
  build_handshake, HandshakeResponse, parse_handshake_response, ok_payload, err_payload,
  eof_payload,
}
use srrdb.Protocol.Resultset.{column_count_payload, column_definition_payload, text_row_payload}
use srrdb.Server.Session.{User, Session, new_user, with_password, new_with_user}

-- what a connection keeps: `seq` is the number of the next packet, `executed` counts the
-- statements, `sent` are the bytes that were written to the client
pub record Connection : Type 0 where
  pub executor : Executor
  pub session : Session
  pub seq : ℕ
  pub executed : ℕ
  pub sent : List ℕ

-- `seq.wrapping_add(1)`
abbrev pub next_seq : ℕ → ℕ
next_seq seq = (seq + 1) % 256

-- `write_packet(stream, seq, ..)`, then `seq = seq.wrapping_add(1)`
unfoldable pub send : Connection → List ℕ → Connection
send c payload = record c { seq = next_seq c.seq; sent = c.sent ++ write_packet c.seq payload }

-- `SERVER_STATUS_AUTOCOMMIT`
abbrev pub server_status_autocommit : ℕ
server_status_autocommit = 2

abbrev pub plain_ok : List ℕ
plain_ok = ok_payload 0 0 server_status_autocommit

-- the definitions of the columns
unfoldable pub send_columns : Connection → List Column → Connection
send_columns c [] = c
send_columns c (col ∷ columns) = send_columns (send c (column_definition_payload col)) columns

module _ ⦃p : Platform⦄ where
  unfoldable pub send_rows : Connection → List Row → Connection
  send_rows c [] = c
  send_rows c (row ∷ rows) = send_rows (send c (text_row_payload row.values)) rows

  -- the result of one statement
  unfoldable pub send_result : Connection → ExecuteResult → Connection
  send_result c (ExecuteResult.rows columns rows) =
      if is_empty columns
      then send c plain_ok
      else let counted = send c (column_count_payload (length columns)) in
        let described = send (send_columns counted columns) eof_payload in
        send (send_rows described rows) eof_payload
  send_result c (ExecuteResult.affected rows last_insert_id) =
      send c (ok_payload rows last_insert_id server_status_autocommit)
  send_result c (ExecuteResult.database_changed new_db) =
      let changed : Connection = record c { session = record c.session { database = new_db } } in
      send changed plain_ok
  send_result c ExecuteResult.ok = send c plain_ok

-- what a packet comes to
pub data Next : Type 0 where
  again : Next
  quit : Next
  crashed : Next

-- how a connection ends: `Ok(())`, an error of the protocol, a panic of its task
pub data Ending : Type 0 where
  closed : Ending
  broken : Text → Ending
  crashed : Ending

module _ ⦃p : Platform⦄ ⦃b : Bincode⦄ where
  -- The statements of a text one by one; the n-th statement of the connection runs at `time n`.
  unfoldable pub run_statements :
      (ℕ → ℕ) → Connection → List Statement → Connection × Outcome {0, 0} Unit Text
  run_statements time c [] = (c, done tt)
  run_statements time c (statement ∷ statements) =
      let (x, r) = execute (time c.executed) c.executor c.session.database statement in
      let c' : Connection = record c { executor = x; executed = c.executed + 1 } in
      elim r [
        | done result ↦ run_statements time (send_result c' result) statements
        | failed e ↦ (c', failed e)
        | panicked ↦ (c', panicked)
      ]

module _ ⦃p : Platform⦄ ⦃b : Bincode⦄ ⦃s : SqlParser⦄ where
  -- `handle_query`
  unfoldable pub handle_query : (ℕ → ℕ) → Connection → Text → Connection × Outcome {0, 0} Unit Text
  handle_query time c sql = elim (s.parse_sql sql) [
    | err e ↦ (c, failed e)
    | ok statements ↦
        if is_empty statements then (send c plain_ok, done tt) else run_statements time c statements
  ]

  -- a query, and the error that it may come to
  abbrev pub answer_query : Connection × Outcome {0, 0} Unit Text → Connection × Next
  answer_query (c, done _) = (c, Next.again)
  answer_query (c, failed e) = (send c (err_payload 1064 e), Next.again)
  answer_query (c, panicked) = (c, Next.crashed)

  -- `match cmd`
  unfoldable pub handle_command : (ℕ → ℕ) → Connection → Command → Connection × Next
  handle_command time c Command.quit = (c, Next.quit)
  handle_command time c Command.ping = (send c plain_ok, Next.again)
  handle_command time c (Command.init_db db) = (
    if database_exists c.executor db
        then send (record c { session = record c.session { database = db } }) plain_ok
        else send c (err_payload 1049 (codes "Unknown database")),
    Next.again,
  )
  handle_command time c (Command.query sql) = answer_query (handle_query time c sql)
  handle_command time c (Command.unknown cmd_id args) = (
    if nat_beq cmd_id 27
        then send c plain_ok
        else send c (err_payload 1045 (codes "Unknown command: " ++ nat_to_string cmd_id)),
    Next.again,
  )

  -- the body of the loop of `handle_connection`
  unfoldable pub handle_packet : (ℕ → ℕ) → Connection → Packet → Connection × Next
  handle_packet time c packet =
      let c' : Connection = record c { seq = next_seq packet.seq_id } in
      elim (parse_command packet.payload) [
        | err e ↦ (send c' (err_payload 1064 e), Next.again)
        | ok cmd ↦ handle_command time c' cmd
      ]

  -- the loop of `handle_connection`, on fuel: it ends with the client's bytes
  unfoldable pub command_loop : ℕ → (ℕ → ℕ) → Connection → List ℕ → Connection × Ending
  command_loop zero time c input = (c, Ending.closed)
  command_loop (suc f) time c input = elim (read_packet input) [
    | none ↦ (c, Ending.closed)
    | some (packet, rest) ↦
        let (c', next) = handle_packet time c packet in
        elim next [
          | Next.again ↦ command_loop f time c' rest
          | Next.quit ↦ (c', Ending.closed)
          | Next.crashed ↦ (c', Ending.crashed)
        ]
  ]

module _ ⦃h : Sha1⦄ where
  -- the user, if it may come in
  unfoldable pub authenticate : Option Text → List ℕ → HandshakeResponse → Option User
  authenticate none scramble response = some (new_user response.username)
  authenticate (some password) scramble response =
      let user = with_password response.username password in
      let valid : Bool = elim user.password_hash [
        | none ↦ false
        | some stored_hash ↦ verify_native_password_hash stored_hash scramble response.auth_response
      ] in
      if valid then some user else none

-- `PROTOCOL_41`, `SECURE_CONNECTION`, `PLUGIN_AUTH`, `CONNECT_WITH_DB`, `MULTI_RESULTS`,
-- `PS_MULTI_RESULTS`, `LONG_PASSWORD` and `TRANSACTIONS`
abbrev pub server_capabilities : ℕ
server_capabilities = 512 + 32768 + 524288 + 8 + 131072 + 262144 + 1 + 8192

module _ ⦃p : Platform⦄ ⦃b : Bincode⦄ ⦃s : SqlParser⦄ ⦃h : Sha1⦄ where
  -- the first packet that the server writes
  abbrev pub greeting : List ℕ → List ℕ
  greeting scramble = write_packet 0 (build_handshake 1 scramble server_capabilities 45)

  -- what follows the handshake's response
  unfoldable pub start_session :
      (ℕ → ℕ)
      → Executor
      → Option Text
      → List ℕ
      → HandshakeResponse
      → List ℕ
      → Executor × List ℕ × Ending
  start_session time x default_password scramble response input =
      elim (authenticate default_password scramble response) [
        | none ↦ (
          x,
          greeting scramble ++ write_packet 2 (err_payload 1045 (codes "Access denied for user")),
          Ending.closed,
        )
        | some user ↦
            let (c, ending) =
              command_loop (suc (length input)) time
                (record {
                  executor = x;
                  session = new_with_user user;
                  seq = 3;
                  executed = 0;
                  sent = greeting scramble ++ write_packet 2 plain_ok;
                })
                input in
            (c.executor, c.sent, ending)
      ]

  -- `handle_connection`: the scramble is random
  unfoldable pub handle_connection :
      (ℕ → ℕ) → Executor → Option Text → List ℕ → List ℕ → Executor × List ℕ × Ending
  handle_connection time x default_password scramble input = elim (read_packet input) [
    | none ↦ (x, greeting scramble, Ending.broken (codes "read"))
    | some (packet, rest) ↦ elim (parse_handshake_response packet.payload) [
      | failed e ↦ (x, greeting scramble, Ending.broken e)
      | panicked ↦ (x, greeting scramble, Ending.crashed)
      | done response ↦ start_session time x default_password scramble response rest
    ]
  ]
