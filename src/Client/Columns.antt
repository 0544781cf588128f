-- ===== src/Client/Columns.antt =====
-- The client reads the name of a column that the server describes.
use srrdb.Prelude.{ℕ, ◌<◌, ◌^◌, ◌≡◌, refl, some, List, [], ◌++◌, arith, length}
use srrdb.Std.Text.{codes}
use srrdb.Engine.Types.Columns.{Column}
use srrdb.Protocol.Lenenc.{lenenc_str}
use srrdb.Protocol.Resultset.{column_definition_payload}
use srrdb.Client.{next_str, parse_column_def}
use srrdb.Client.RoundTrip.{split_str-lenenc_str}

next_str-lenenc_str :
    (taken s rest : List ℕ)
    → length s < 2 ^ 64
    → next_str (some (taken, lenenc_str s ++ rest)) ≡ some (s, rest)
unfolding next_str
next_str-lenenc_str taken s rest h = split_str-lenenc_str s rest h

-- five strings
parse_column_def-strings :
    (s t u v w rest : List ℕ)
    → length s < 2 ^ 64
    → length t < 2 ^ 64
    → length u < 2 ^ 64
    → length v < 2 ^ 64
    → length w < 2 ^ 64
    → parse_column_def (
        lenenc_str s
        ++ (lenenc_str t ++ (lenenc_str u ++ (lenenc_str v ++ (lenenc_str w ++ rest)))))
      ≡ some w
unfolding parse_column_def
parse_column_def-strings s t u v w rest hs ht hu hv hw =
    rw (split_str-lenenc_str s _ hs, parse_column_def)
      (rw (next_str-lenenc_str s t _ ht) (
        rw (next_str-lenenc_str t u _ hu)
          (rw (next_str-lenenc_str u v _ hv) (rw (next_str-lenenc_str v w rest hw) refl))))

-- The client reads from a column's packet the name that the server wrote there, where the lengths
-- of the table's and the column's names fit 64 bits.
pub parse_column_def-payload :
    (c : Column)
    → length c.table < 2 ^ 64
    → length c.name < 2 ^ 64
    → parse_column_def (column_definition_payload c) ≡ some c.name
unfolding column_definition_payload
parse_column_def-payload c h k =
    parse_column_def-strings (codes "def") [] c.table c.table c.name _ (omega arith) (omega arith) h
      h k
