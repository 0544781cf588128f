-- ===== src/Client/Shell.antt =====
-- src/client.rs: `run_client`, `run_schema` and `parse_use_db`: the login, and the loop over the
-- lines of the terminal. `incoming` is all that the server will send. An error of the stream comes
-- without its message, and the lines about the login are left out.
use srrdb.Prelude.{
  ℕ, Bool, true, false, ◌&&◌, ◌||◌, Option, none, some, List, [], ◌∷◌, ◌++◌, if◌then◌else◌,
  is_empty, nat_beq, drop, length, Result, ok, err, Outcome, done, failed, panicked, list_eq,
  nat_eq,
}
use srrdb.Std.Text.{Text, codes, starts_with, eq_ignore_ascii_case}
use srrdb.Std.Bytes.{u16_of}
use srrdb.Std.Decimal.{nat_to_string}
use srrdb.Std.Platform.{Platform}
use srrdb.Protocol.Frame.{read_packet, write_packet}
use srrdb.Protocol.Auth.{Sha1}
use srrdb.Client.Query.{QueryResult, read_response, query_packet}
use srrdb.Client.Login.{parse_server_handshake, build_handshake_response}
use srrdb.Client.Table.{format_result}

pub record Client : Type 0 where
  pub user : Text
  pub current_db : Option Text
  pub buffer : Text
  -- what the server sends, what was sent to it, and the lines that were printed
  pub incoming : List ℕ
  pub sent : List ℕ
  pub printed : List Text

-- whether the loop goes on
pub data Next : Type 0 where
  again : Next
  leave : Next
  crashed : Next

-- `str::trim_end_matches` of a byte
unfoldable pub trim_end_matches : Text → ℕ → Text
trim_end_matches [] c = []
trim_end_matches (d ∷ s) c =
    let rest = trim_end_matches s c in if is_empty rest && nat_beq d c then [] else d ∷ rest

-- `str::trim_start_matches` and `str::trim_matches` of a byte
unfoldable pub trim_start_matches : Text → ℕ → Text
trim_start_matches [] c = []
trim_start_matches (d ∷ s) c = if nat_beq d c then trim_start_matches s c else d ∷ s

abbrev pub trim_matches : Text → ℕ → Text
trim_matches s c = trim_end_matches (trim_start_matches s c) c

-- `str::ends_with` of a byte
abbrev pub ends_with : Text → ℕ → Bool
ends_with [] c = false
ends_with (d ∷ []) c = nat_beq d c
ends_with (d ∷ e ∷ s) c = ends_with (e ∷ s) c

-- `str::strip_prefix`
abbrev pub strip_prefix : Text → Text → Option Text
strip_prefix s prefix = if starts_with s prefix then some (drop (length prefix) s) else none

-- `str::split` at a byte
unfoldable pub split : Text → ℕ → List Text
split [] c = [] ∷ []
split (d ∷ s) c =
    let rest = split s c in
    if nat_beq d c
    then [] ∷ rest
    else elim rest [ [] ↦ (d ∷ []) ∷ [] | part ∷ parts ↦ (d ∷ part) ∷ parts ]

-- two box-drawing lines
abbrev rule : Text
rule = 0xE2 ∷ 0x94 ∷ 0x80 ∷ 0xE2 ∷ 0x94 ∷ 0x80 ∷ []

module _ ⦃p : Platform⦄ where
  -- `parse_use_db`
  unfoldable pub parse_use_db : Text → Option Text
  unfolding trim_end_matches trim_start_matches
  parse_use_db sql =
      let s = p.trim (trim_end_matches (p.trim sql) b';') in
      if starts_with (p.to_uppercase s) (codes "USE ")
      then (let name =
            trim_matches (trim_matches (trim_matches (p.trim (drop 4 s)) 0x60) 0x27) 0x22 in
          if is_empty name then none else some name)
      else none

  -- what is left on the stream where `execute_query` fails: an empty packet is taken, and else the
  -- stream has ended
  abbrev pub left_over : List ℕ → List ℕ
  left_over input = elim (read_packet input) [
    | none ↦ []
    | some (packet, rest) ↦ if is_empty packet.payload then rest else []
  ]

  -- `execute_query`
  unfoldable pub ask : Client → Text → Client × Outcome QueryResult Text
  ask c sql =
      let c' : Client = record c { sent = c.sent ++ query_packet sql } in
      elim (read_response c.incoming) [
        | done (r, rest) ↦ (record c' { incoming = rest }, done r)
        | failed e ↦ (record c' { incoming = left_over c.incoming }, failed e)
        | panicked ↦ (c', panicked)
      ]

  -- the prompt of the loop
  unfoldable pub prompt : Client → Text
  prompt c =
      if is_empty c.buffer
      then elim c.current_db [
        | some db ↦ codes "srrdb (" ++ (c.user ++ (codes "@" ++ (db ++ codes ")> ")))
        | none ↦ codes "srrdb (" ++ (c.user ++ codes ")> ")
      ]
      else codes "    -> "

  -- the result of a query is printed
  abbrev pub show : Client × Outcome QueryResult Text → Text → Client × Next
  show (c, done r) label = (record c { printed = c.printed ++ format_result r }, Next.again)
  show (c, failed e) label = (record c { printed = c.printed ++ ((label ++ e) ∷ []) }, Next.again)
  show (c, panicked) label = (c, Next.crashed)

  -- the database of the prompt, which a USE sets before it is sent
  abbrev pub note_use : Client → Text → Client
  note_use c sql = elim (parse_use_db sql) [
    | none ↦ c
    | some db ↦ record c { current_db = some db }
  ]

  unfoldable pub run_query : Client → Text → Client × Next
  unfolding ask
  run_query c sql = show (ask (note_use c sql) sql) (codes "Error: ")

  -- the statements of a file
  unfoldable pub run_all : Client → List Text → Client × Next
  unfolding run_query
  run_all c [] = (c, Next.again)
  run_all c (statement ∷ statements) =
      let stmt = p.trim statement in
      if is_empty stmt
      then run_all c statements
      else let (c', next) = run_query c stmt in
        elim next [
          | Next.again ↦ run_all c' statements
          | Next.leave ↦ (c', Next.leave)
          | Next.crashed ↦ (c', Next.crashed)
        ]

  -- the names in the first column
  abbrev pub table_names : List (List (Option (List ℕ))) → List Text
  table_names [] = []
  table_names ((some name ∷ row) ∷ rows) =
      if p.is_utf8 name then name ∷ table_names rows else table_names rows
  table_names (row ∷ rows) = table_names rows

  -- DESCRIBE of each table; an empty line stands between two of them
  unfoldable pub describe_all : Bool → Client → List Text → Client × Next
  unfolding ask
  describe_all first c [] = (c, Next.again)
  describe_all first c (table ∷ tables) =
      let title = rule ++ (codes " " ++ (table ++ (codes " " ++ rule))) in
      let lines = if first then title ∷ [] else [] ∷ title ∷ [] in
      let c0 : Client = record c { printed = c.printed ++ lines } in
      let (c', next) = show (ask c0 (codes "DESCRIBE " ++ table)) (codes "  Error: ") in
      elim next [
        | Next.again ↦ describe_all false c' tables
        | Next.leave ↦ (c', Next.leave)
        | Next.crashed ↦ (c', Next.crashed)
      ]

  abbrev pub print : Client → Text → Client
  print c text = record c { printed = c.printed ++ (text ∷ []) }

  abbrev pub describe_tables : Client → List Text → Client × Next
  describe_tables c [] = (print c (codes "No tables found."), Next.again)
  describe_tables c (table ∷ tables) = describe_all true c (table ∷ tables)

  -- `run_schema`
  unfoldable pub run_schema : Client → Client × Next
  unfolding ask describe_all
  run_schema c =
      let (c', r) = ask c (codes "SHOW TABLES") in
      elim r [
        | done (QueryResult.result_set columns rows) ↦ describe_tables c' (table_names rows)
        | done _ ↦ (print c' (codes "No tables found."), Next.again)
        | failed e ↦ (print c' (codes "Error: " ++ e), Next.again)
        | panicked ↦ (c', Next.crashed)
      ]

  -- `source`, on the file's content where it can be read
  unfoldable pub run_source : Client → Text → Result Text Text → Client × Next
  unfolding run_all split
  run_source c path (ok content) = run_all c (split content b';')
  run_source c path (err e) =
      (print c (codes "Error reading file '" ++ (path ++ (codes "': " ++ e))), Next.again)

  -- the end of a statement
  unfoldable pub finish : Client → Client × Next
  unfolding run_query
  finish c = run_query (record c { buffer = [] }) (p.trim c.buffer)

  abbrev pub is_exit : Text → Bool
  is_exit trimmed =
      eq_ignore_ascii_case trimmed (codes "exit")
      || (eq_ignore_ascii_case trimmed (codes "quit") || eq_ignore_ascii_case trimmed (codes "\\q"))

  abbrev pub source_path : Text → Text
  source_path path = trim_matches (trim_matches (trim_end_matches (p.trim path) b';') 0x22) 0x27

  -- a line that belongs to a statement
  unfoldable pub gather_line : Client → Text → Client × Next
  unfolding finish
  gather_line c trimmed =
      if is_empty trimmed
      then (c, Next.again)
      else let c' : Client = record c { buffer = c.buffer ++ (trimmed ++ codes " ") } in
        if ends_with trimmed b';' then finish c' else (c', Next.again)

  -- one turn of the loop of `run_client`; `read` reads a file
  unfoldable pub handle_line : (Text → Result Text Text) → Client → Text → Client × Next
  unfolding run_schema run_source trim_end_matches trim_start_matches
  handle_line read c line =
      let trimmed = p.trim line in
      if is_exit trimmed
      then (c, Next.leave)
      else if eq_ignore_ascii_case (trim_end_matches trimmed b';') (codes "schema")
      then run_schema (record c { buffer = [] })
      else elim (strip_prefix trimmed (codes "source ")) [
        | some path ↦
            run_source (record c { buffer = [] }) (source_path path) (read (source_path path))
        | none ↦ gather_line c trimmed
      ]

  -- the loop, on the lines of the terminal until they end
  unfoldable pub run_lines : (Text → Result Text Text) → Client → List Text → Client × Next
  run_lines read c [] = (print c (codes "Bye."), Next.leave)
  run_lines read c (line ∷ lines) =
      let (c', next) = handle_line read c line in
      elim next [
        | Next.again ↦ run_lines read c' lines
        | Next.leave ↦ (print c' (codes "Bye."), Next.leave)
        | Next.crashed ↦ (c', Next.crashed)
      ]

  -- an error packet's code and message, behind its first byte
  abbrev pub refused : Text → List ℕ → Outcome {0, 0} Client Text
  refused what (a ∷ b ∷ message) =
      failed (what ++ (nat_to_string (u16_of a b) ++ (codes ": " ++ p.utf8_lossy message)))
  refused what _ = panicked

module _ ⦃p : Platform⦄ ⦃h : Sha1⦄ where
  -- the server's reply to the response
  unfoldable pub read_auth_result : Text → List ℕ → List ℕ → Outcome {0, 0} Client Text
  read_auth_result user sent input = elim (read_packet input) [
    | none ↦ failed (codes "read auth result failed: early eof")
    | some (packet, rest) ↦ elim packet.payload [
      | [] ↦ failed (codes "empty auth response")
      | first ∷ fields ↦
          if nat_beq first 0xFF
          then refused (codes "auth error ") fields
          else done (record {
            user = user;
            current_db = none;
            buffer = [];
            incoming = rest;
            sent = sent;
            printed = [];
          })
    ]
  ]

  -- `run_client` up to the loop
  unfoldable pub log_in : Text → Text → List ℕ → Outcome {0, 0} Client Text
  unfolding read_auth_result
  log_in user password input = elim (read_packet input) [
    | none ↦ failed (codes "read handshake failed: early eof")
    | some (packet, rest) ↦ elim packet.payload [
      | [] ↦ panicked
      | first ∷ fields ↦
          if nat_beq first 0xFF
          then refused (codes "server error ") fields
          else elim (parse_server_handshake packet.payload) [
            | failed e ↦ failed e
            | panicked ↦ panicked
            | done handshake ↦
                read_auth_result user
                  (write_packet 1 (build_handshake_response handshake user password)) rest
          ]
    ]
  ]
