-- ===== src/Protocol/Command.antt =====
-- src/protocol/command.rs: the commands of a client.
use srrdb.Prelude.{ℕ, List, [], ◌∷◌, if◌then◌else◌, nat_beq, Result, ok, err}
use srrdb.Std.Text.{Text, codes}
use srrdb.Std.Platform.{Platform}

pub data Command : Type 0 where
  quit : Command
  init_db : Text → Command
  query : Text → Command
  ping : Command
  unknown : ℕ → List ℕ → Command

module _ ⦃p : Platform⦄ where
  -- `String::from_utf8(args)?`, with the error's message left out
  abbrev pub with_text : List ℕ → (Text → Command) → Result Command Text
  with_text args make = if p.is_utf8 args then ok (make args) else err (codes "invalid utf-8")

  -- `parse_command`
  unfoldable pub parse_command : List ℕ → Result Command Text
  parse_command [] = err (codes "empty command packet")
  parse_command (cmd_id ∷ args) =
      if nat_beq cmd_id 1
      then ok Command.quit
      else if nat_beq cmd_id 2
      then with_text args Command.init_db
      else if nat_beq cmd_id 3
      then with_text args Command.query
      else if nat_beq cmd_id 14
      then ok Command.ping
      else ok (Command.unknown cmd_id args)
