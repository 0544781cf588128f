-- ===== src/Tests/ProtocolExamples.antt =====
-- The theorems on the protocol, on small packets.
use srrdb.Prelude.{
  ℕ, zero, suc, ◌%◌, ◌≡◌, true, some, List, [], ◌∷◌, ◌++◌, arith, length, replicate, refl,
}
use srrdb.Prelude.Int.{pos}
use srrdb.Std.Text.{codes}
use srrdb.Engine.Types.{int, text, null}
use srrdb.Std.Decimal.{int_to_string}
use srrdb.Protocol.Frame.{write_packet, read_packet, read-write_packet}
use srrdb.Protocol.Lenenc.{lenenc_int, lenenc_int_bytes, lenenc_int-lenenc_int_bytes}
use srrdb.Protocol.Resultset.{text_row_payload, column_definition_payload}
use srrdb.Protocol.Auth.{
  AreBytes, Sha1, verify_native_password_hash, hash_native_password, compute_auth_response,
  verify-compute_auth_response,
}
use srrdb.Client.{parse_row, parse_column_def}
use srrdb.Client.RoundTrip.{all_shown, shown, parse_row-text_row_payload}
use srrdb.Client.Columns.{parse_column_def-payload}
use srrdb.Tests.Ascii.{ascii}
use srrdb.Tests.Data.{name_column}

read-write_packet_example :
    read_packet (write_packet 3 (1 ∷ 2 ∷ []) ++ 9 ∷ [])
    ≡ some (record { seq_id = 3; payload = 1 ∷ 2 ∷ [] }, 9 ∷ [])
read-write_packet_example = read-write_packet 3 (1 ∷ 2 ∷ []) (9 ∷ []) (omega arith)

lenenc_int_example :
    lenenc_int (lenenc_int_bytes 70000 ++ 5 ∷ []) ≡ some (70000, length (lenenc_int_bytes 70000))
lenenc_int_example = lenenc_int-lenenc_int_bytes 70000 (5 ∷ []) (omega arith)

parse_row_example :
    parse_row (text_row_payload (int (pos 12) ∷ null ∷ text (codes "ann") ∷ []))
    ≡ some (all_shown (int (pos 12) ∷ null ∷ text (codes "ann") ∷ []))
unfolding shown int_to_string
parse_row_example =
    parse_row-text_row_payload (int (pos 12) ∷ null ∷ text (codes "ann") ∷ [])
      (omega arith, (omega arith, (omega arith, tt)))

parse_column_def_example :
    parse_column_def (column_definition_payload name_column) ≡ some (codes "name")
parse_column_def_example = parse_column_def-payload name_column (omega arith) (omega arith)

-- a digest of twenty bytes, of the length of a text
abbrev digest : List ℕ → List ℕ
digest s = length s % 256 ∷ replicate 19 7

sevens-AreBytes : (n : ℕ) → AreBytes (replicate n 7)
sevens-AreBytes zero = tt
sevens-AreBytes (suc n) = (omega arith, sevens-AreBytes n)

pub digest-AreBytes : (s : List ℕ) → AreBytes (digest s)
digest-AreBytes s = (omega arith, sevens-AreBytes 19)

abbrev pub sha1 : Sha1
sha1 = record { digest = digest; length-digest = λ s. refl; digest-AreBytes = digest-AreBytes }

verify_example :
    verify_native_password_hash ⦃h = sha1⦄
      (hash_native_password ⦃h = sha1⦄ (codes "pw"))
      (1 ∷ 2 ∷ [])
      (compute_auth_response ⦃h = sha1⦄ (codes "pw") (1 ∷ 2 ∷ []))
    ≡ true
verify_example = verify-compute_auth_response ⦃h = sha1⦄ (codes "pw") (1 ∷ 2 ∷ [])
