-- ===== src/Sql/Tokenizer.antt =====
-- src/sql/tokenizer.rs: the tokens of a text, by `sqlparser`.
use srrdb.Prelude.{List, Result}
use srrdb.Std.Text.{Text}
use srrdb.Sql.Parser.{SqlParser, Error, from_tokenizer}

-- `Tokenizer::tokenize`
unfoldable pub tokenize : ⦃s : SqlParser⦄ → Text → Result (List Text) Error
tokenize ⦃s⦄ sql = from_tokenizer (s.tokenize sql)
