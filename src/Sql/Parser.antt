-- ===== src/Sql/Parser.antt =====
-- src/sql/parser.rs and src/sql/error.rs: the calls of `sqlparser`, which is
-- a parameter.
use srrdb.Prelude.{List, [], ◌∷◌, ◌++◌, length, Result, ok, err}
use srrdb.Std.Text.{Text, codes}
use srrdb.Std.Decimal.{nat_to_string}
use srrdb.Sql.Statements.{Statement}

-- `sqlparser` with its MySQL dialect: the statements of a text and its tokens, each with the
-- library's text for debugging, or the text of an error
pub record SqlParser : Type 0 where
  pub parse_sql : Text → Result (List Statement) Text
  pub tokenize : Text → Result (List Text) Text
  pub debug_statement : Statement → Text
  -- the text of `ParserError::ParserError(message)`
  pub parser_error : Text → Text

-- an error, with the library's text
pub data Error : Type 0 where
  parse : Text → Error
  tokenize : Text → Error

-- `Display` of an error
unfoldable pub display_error : Error → Text
display_error (Error.parse e) = codes "Parse error: " ++ e
display_error (Error.tokenize e) = codes "Tokenize error: " ++ e

-- `impl From<ParserError> for Error`
abbrev pub from_parser {ℓ} : {A : Type ℓ} → Result A Text → Result A Error
from_parser (ok a) = ok a
from_parser (err e) = err (Error.parse e)

-- `impl From<TokenizerError> for Error`
abbrev pub from_tokenizer {ℓ} : {A : Type ℓ} → Result A Text → Result A Error
from_tokenizer (ok a) = ok a
from_tokenizer (err e) = err (Error.tokenize e)

module _ ⦃s : SqlParser⦄ where
  -- `Parser::parse_sql`
  unfoldable pub parse_sql : Text → Result (List Statement) Error
  parse_sql sql = from_parser (s.parse_sql sql)

  -- one statement of a list of one
  abbrev pub only_one : List Statement → Result Statement Error
  only_one (statement ∷ []) = ok statement
  only_one statements = err (
      Error.parse
        (s.parser_error (codes "expected 1 statement, got " ++ nat_to_string (length statements))))

  -- `Parser::parse_one`
  unfoldable pub parse_one : Text → Result Statement Error
  unfolding parse_sql
  parse_one sql = elim (parse_sql sql) [ err e ↦ err e | ok statements ↦ only_one statements ]
