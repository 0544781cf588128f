-- ===== src/Tests/SessionExamples.antt =====
-- The theorems on connections, the client, the shell and the configuration, on concrete inputs.
use srrdb.Prelude.{
  ℕ, ◌≡◌, refl, false, none, some, [], ◌∷◌, ◌++◌, List, arith, ◌==◌, list_eq, nat_eq, if◌then◌else◌,
  is_empty, ok, err, done, replicate,
}
use srrdb.Std.Text.{Text, codes}
use srrdb.Std.HashMap
use srrdb.Sql.Statements.{Statement}
use srrdb.Sql.Parser.{SqlParser}
use srrdb.Engine.ExecuteResult.{ExecuteResult}
use srrdb.Engine.Types.{text}
use srrdb.Engine.Types.Columns
use srrdb.Engine.Types.Columns.{type_code}
use srrdb.Engine.Sort.{sort_by, insert_by}
use srrdb.Engine.Catalog.{get_database}
use srrdb.Engine.State.{lock_catalog}
use srrdb.Engine.Executor.{execute}
use srrdb.Engine.Executor.Show.{execute_show_tables, text_column}
use srrdb.Protocol.Lenenc.{lenenc_str, lenenc_int_bytes}
use srrdb.Protocol.Resultset.{column_definition_payload, text_row_payload, value_payload}
use srrdb.Client.RoundTrip.{shown}
use srrdb.Protocol.Frame.{Packet, read_packet}
use srrdb.Protocol.Handshake.{build_handshake, HandshakeResponse, parse_handshake_response}
use srrdb.Client.Query.{read_response, query_packet}
use srrdb.Client.Query.Whole.{read_result, read_response-query}
use srrdb.Client.Login.{ServerHandshake, parse_server_handshake, build_handshake_response}
use srrdb.Client.Login.Accepted.{login-authenticate}
use srrdb.Client.Table.{col_widths, table_lines}
use srrdb.Client.Table.Aligned.{line_width}
use srrdb.Client.Table.Lines.{AllWide, table_lines-AllWide}
use srrdb.Config.{CliArgs, ConfigFile, FileReader, load, config_file, settings, load-first}
use srrdb.Repl.{Event, Repl, eval, run}
use srrdb.Repl.Lines.{line_events, run-statement}
use srrdb.Server.Session.{new_user, with_password}
use srrdb.Server.Connection.{
  Connection, Next, next_seq, handle_packet, authenticate, server_capabilities,
}
use srrdb.Server.Connection.Live.{Ends, handle_packet-Ends}
use srrdb.Tests.Ascii.{ascii}
use srrdb.Tests.Serializer.{serializer}
use srrdb.Tests.ProtocolExamples.{sha1}
use srrdb.Tests.Data.{db, users, executor}

-- a parser that knows one statement
instance abbrev pub parser : SqlParser
parser = record {
  parse_sql = λ sql.
      if sql == codes "SHOW TABLES;"
      then ok (Statement.show_tables ∷ [])
      else if is_empty sql
      then ok []
      else err (codes "syntax");
  tokenize = λ sql. ok [];
  debug_statement = λ s. [];
  parser_error = λ e. e;
}

abbrev connection : Connection
connection = record {
  executor = executor;
  session = record { user = new_user (codes "root"); database = db };
  seq = 3;
  executed = 0;
  sent = [];
}

abbrev ping : Packet
ping = record { seq_id = 255; payload = 14 ∷ [] }

handle_packet_example :
    Ends (record connection { seq = next_seq 255 }) (handle_packet (λ n. n) connection ping)
handle_packet_example = handle_packet-Ends (λ n. n) connection ping

abbrev show_tables : Text
show_tables = codes "SHOW TABLES;"

abbrev shown_tables : ExecuteResult
shown_tables =
    ExecuteResult.rows (text_column (codes "Tables_in_srrdb") ∷ [])
      (record { id = 0; values = text users ∷ [] } ∷ [])

query_example :
    (packet : Packet) × (answer : List ℕ) × (read_packet (query_packet show_tables)
      ≡ some (packet, []))
    × ((handle_packet (λ n. n) connection packet).0.sent ≡ [] ++ answer)
    × ((handle_packet (λ n. n) connection packet).1 ≡ Next.again)
    × (read_response (answer ++ (7 ∷ [])) ≡ done (read_result shown_tables, 7 ∷ []))
unfolding execute execute_show_tables lock_catalog get_database HashMap.get HashMap.keys
    column_definition_payload text_row_payload value_payload lenenc_str lenenc_int_bytes type_code
    shown sort_by insert_by Columns.new
query_example =
    read_response-query (λ n. n) connection show_tables Statement.show_tables shown_tables (7 ∷ [])
      (omega arith) refl refl refl
      (
        omega arith,
        (omega arith, omega arith, omega arith, tt),
        (omega arith, (omega arith, tt), refl, tt),
      )

abbrev scramble : List ℕ
scramble = replicate 20 9

login_example :
    (handshake : ServerHandshake) × (response : HandshakeResponse) × (parse_server_handshake
        (build_handshake 1 scramble server_capabilities 45)
      ≡ done handshake)
    × (parse_handshake_response
          (build_handshake_response ⦃h = sha1⦄ handshake (codes "root") (codes "pw"))
        ≡ done response)
    × (authenticate ⦃h = sha1⦄ (some (codes "pw")) scramble response
        ≡ some (with_password ⦃h = sha1⦄ (codes "root") (codes "pw")))
    × (authenticate ⦃h = sha1⦄ none scramble response ≡ some (new_user (codes "root")))
login_example =
    login-authenticate ⦃h = sha1⦄ scramble (codes "root") (codes "pw") (λ s a. refl) refl
      (refl, (refl, (refl, (refl, tt)))) refl refl

table_example :
    AllWide
      (line_width
        (col_widths (codes "id" ∷ codes "name" ∷ []) ((some (codes "1") ∷ none ∷ []) ∷ [])))
      (table_lines (codes "id" ∷ codes "name" ∷ []) ((some (codes "1") ∷ none ∷ []) ∷ []))
table_example =
    table_lines-AllWide (codes "id" ∷ codes "name" ∷ []) ((some (codes "1") ∷ none ∷ []) ∷ []) refl
      (refl, tt)

abbrev file : ConfigFile
file = record {
  host = none;
  port = some 4000;
  data_dir = none;
  log_level = some (codes "debug");
  default_password = none;
}

instance abbrev reader : FileReader
reader = record { read_to_string = λ path. some []; from_toml = λ content. some file }

abbrev cli_args : CliArgs
cli_args = record {
  config = some (codes "srrdb.toml");
  host = none;
  port = none;
  data_dir = some (codes "db");
  log_level = some (codes "warn");
  default_password = none;
  repl = false;
  client = false;
  user = none;
  password = none;
}

load_example : load cli_args ≡ settings cli_args (config_file cli_args)
load_example = load-first cli_args

abbrev empty_repl : Repl
empty_repl = record { buffer = []; history = []; printed = [] }

run_example :
    run empty_repl (line_events (codes "SHOW" ∷ []) ++ (Event.line (codes "TABLES;") ∷ []))
    ≡ run
        (record empty_repl {
          history = [] ++ (codes "SHOW TABLES;" ∷ []);
          printed = [] ++ (eval (codes "SHOW TABLES;") ∷ []);
        })
        []
run_example =
    run-statement empty_repl (codes "SHOW" ∷ []) (codes "TABLES;") [] refl ((refl, refl, refl), tt)
      refl refl refl refl refl
