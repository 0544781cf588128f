-- ===== src/Protocol/Resultset.antt =====
-- src/protocol/resultset.rs: the packets of a result set.
use srrdb.Prelude.{ℕ, List, [], ◌∷◌, ◌++◌}
use srrdb.Std.Text.{codes}
use srrdb.Std.Bytes.{u16_le, u32_le}
use srrdb.Std.Decimal.{int_to_string, nat_to_string}
use srrdb.Std.Platform.{Platform}
use srrdb.Engine.Types.{Value, null, int, uint, float, double, bytes, text}
use srrdb.Engine.Types.Columns.{Column, type_code}
use srrdb.Protocol.Lenenc.{lenenc_int_bytes, lenenc_str}

-- `column_count_payload`
unfoldable pub column_count_payload : ℕ → List ℕ
column_count_payload count = lenenc_int_bytes count

-- `column_definition_payload`
unfoldable pub column_definition_payload : Column → List ℕ
unfolding type_code
column_definition_payload c =
    lenenc_str (codes "def")
    ++ (lenenc_str []
        ++ (lenenc_str c.table
            ++ (lenenc_str c.table
                ++ (lenenc_str c.name
                    ++ (lenenc_str c.name
                        ++ (0x0C
                            ∷ (u16_le c.charset
                                ++ (u32_le c.column_length
                                    ++ (type_code c.col_type
                                        ∷ (u16_le c.flags ++ (c.decimals ∷ 0 ∷ 0 ∷ [])))))))))))

module _ ⦃p : Platform⦄ where
  -- one value of a row
  unfoldable pub value_payload : Value → List ℕ
  value_payload null = 0xFB ∷ []
  value_payload (int v) = lenenc_str (int_to_string v)
  value_payload (uint v) = lenenc_str (nat_to_string v)
  value_payload (float v) = lenenc_str (p.f32_to_string v)
  value_payload (double v) = lenenc_str (p.f64_to_string v)
  value_payload (bytes b) = lenenc_str b
  value_payload (text s) = lenenc_str s

  -- `text_row_payload`
  unfoldable pub text_row_payload : List Value → List ℕ
  text_row_payload [] = []
  text_row_payload (v ∷ values) = value_payload v ++ text_row_payload values
