-- ===== src/Repl.antt =====
-- src/repl/repl.rs: the local shell. What the terminal reads is an event; what is printed is an
-- output, without colours.
pub mod Lines
use srrdb.Prelude.{
  ℕ, Bool, true, false, not, ◌&&◌, ◌||◌, Option, none, some, List, [], ◌∷◌, ◌++◌, if◌then◌else◌,
  is_empty, nat_beq, Result, ok, err, ◌==◌, list_eq, nat_eq,
}
use srrdb.Std.Text.{Text, codes, starts_with}
use srrdb.Std.Platform.{Platform}
use srrdb.Sql.Statements.{Statement}
use srrdb.Sql.Parser
use srrdb.Sql.Tokenizer
use srrdb.Sql.Parser.{SqlParser, display_error}

pub data Event : Type 0 where
  line : Text → Event
  interrupted : Event
  eof : Event
  other : Text → Event

pub data Output : Type 0 where
  -- the statements, each as the library's text for debugging
  statements : List Text → Output
  no_statements : Output
  error : Text → Output
  help : Output
  tokens : List Text → Output
  usage : Text → Output
  unknown_command : Text → Output
  buffer_cleared : Output
  cancelled : Output
  end_of_input : Output
  repl_error : Text → Output

-- the buffer, the entries given to the history, and what was printed
pub record Repl : Type 0 where
  pub buffer : Text
  pub history : List Text
  pub printed : List Output

abbrev pub print : Repl → Output → Repl
print r o = record r { printed = r.printed ++ (o ∷ []) }

-- `str::ends_with` of a byte
abbrev pub ends_with : Text → ℕ → Bool
ends_with [] c = false
ends_with (d ∷ []) c = nat_beq d c
ends_with (d ∷ e ∷ s) c = ends_with (e ∷ s) c

-- `splitn(2, ' ')`: what is before the first space, and what is behind it
unfoldable pub split_space : Text → Text × Text
split_space [] = ([], [])
split_space (c ∷ s) =
    let rest = split_space s in if nat_beq c b' ' then ([], s) else (c ∷ rest.0, rest.1)

abbrev pub debug_all : ⦃s : SqlParser⦄ → List Statement → List Text
debug_all [] = []
debug_all ⦃s⦄ (statement ∷ more) = s.debug_statement statement ∷ debug_all more

module _ ⦃s : SqlParser⦄ where
  -- `eval`
  unfoldable pub eval : Text → Output
  eval input = elim (Parser.parse_sql input) [
    | err e ↦ Output.error (display_error e)
    | ok [] ↦ Output.no_statements
    | ok (statement ∷ more) ↦ Output.statements (debug_all (statement ∷ more))
  ]

  -- `handle_command`: what it prints, and whether the shell goes on
  unfoldable pub handle_command : Text → List Output × Bool
  unfolding split_space
  handle_command cmd =
      let (command, args) = split_space cmd in
      if command == codes ".exit" || command == codes ".quit"
      then ([], false)
      else if command == codes ".help"
      then (Output.help ∷ [], true)
      else if command == codes ".tokens"
      then (if is_empty args
          then (Output.usage (codes ".tokens <sql>") ∷ [], true)
          else elim (Tokenizer.tokenize args) [
            | ok list ↦ (Output.tokens list ∷ [], true)
            | err e ↦ (Output.error (display_error e) ∷ [], true)
          ])
      else if command == codes ".ast"
      then (if is_empty args
          then (Output.usage (codes ".ast <sql>") ∷ [], true)
          else (eval args ∷ [], true))
      else (Output.unknown_command cmd ∷ [], true)

module _ ⦃p : Platform⦄ ⦃s : SqlParser⦄ where
  -- the buffer's text, at the end of a statement
  unfoldable pub finish : Repl → Repl
  finish r =
      let input = p.trim r.buffer in
      let cleared : Repl = record r { buffer = [] } in
      if not (is_empty input) && not (input == codes ";")
      then record cleared {
        history = r.history ++ (input ∷ []);
        printed = r.printed ++ (eval input ∷ []);
      }
      else cleared

  -- a line, trimmed
  unfoldable pub handle_line : Repl → Text → Repl × Bool
  unfolding finish
  handle_line r trimmed =
      if is_empty trimmed && is_empty r.buffer
      then (r, true)
      else if starts_with trimmed (codes ".")
      then (let (outputs, go_on) = handle_command trimmed in
          (record r { buffer = []; printed = r.printed ++ outputs }, go_on))
      else let r' : Repl = record r { buffer = r.buffer ++ (trimmed ++ codes " ") } in
        if ends_with trimmed b';' || is_empty trimmed then (finish r', true) else (r', true)

  -- one turn of the loop of `run`
  unfoldable pub turn : Repl → Event → Repl × Bool
  turn r (Event.line text) = handle_line r (p.trim text)
  turn r Event.interrupted =
      if is_empty r.buffer
      then (print r Output.cancelled, true)
      else (print (record r { buffer = [] }) Output.buffer_cleared, true)
  turn r Event.eof = (print r Output.end_of_input, false)
  turn r (Event.other e) = (print r (Output.repl_error e), false)

  -- `run`, on the events in order
  unfoldable pub run : Repl → List Event → Repl
  run r [] = r
  run r (event ∷ events) = let (r', go_on) = turn r event in if go_on then run r' events else r'
