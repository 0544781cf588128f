-- ===== src/Protocol/Handshake.antt =====
-- src/protocol/handshake.rs: the packets of the handshake, and the replies.
use Prim.Native.Nat.{bit_and}
use srrdb.Prelude.{
  ℕ, ◌/◌, ◌%◌, ◌^◌, Bool, true, false, not, Option, none, some, List, [], ◌∷◌, ◌++◌, if◌then◌else◌,
  length, take, drop, ltb, nat_beq, replicate, Outcome, done, failed, panicked, ◌>>=◌,
}
use srrdb.Std.Text.{Text, codes}
use srrdb.Std.Bytes.{u16_le, u32_le, u32_of}
use srrdb.Std.Platform.{Platform}
use srrdb.Protocol.Lenenc.{lenenc_int_bytes, lenenc_int}

abbrev pub client_connect_with_db : ℕ
client_connect_with_db = 8

abbrev pub client_secure_connection : ℕ
client_secure_connection = 32768

abbrev pub client_plugin_auth : ℕ
client_plugin_auth = 524288

abbrev pub client_plugin_auth_lenenc_client_data : ℕ
client_plugin_auth_lenenc_client_data = 2097152

-- `capabilities & flag != 0`
abbrev pub has_flag : ℕ → ℕ → Bool
has_flag capabilities flag = not (nat_beq (bit_and capabilities flag) 0)

-- `build_handshake`
unfoldable pub build_handshake : ℕ → List ℕ → ℕ → ℕ → List ℕ
build_handshake conn_id scramble capabilities charset =
    10
    ∷ (codes "srrdb 0.2.0"
        ++ (0
            ∷ (u32_le conn_id
                ++ (take 8 scramble
                    ++ (0
                        ∷ (u16_le (capabilities % 2 ^ 16)
                            ++ (charset
                                ∷ (u16_le 2
                                    ++ (u16_le (capabilities / 2 ^ 16)
                                        ++ ((if has_flag capabilities client_plugin_auth
                                              then 21
                                              else 0)
                                            ∷ (replicate 10 0
                                                ++ ((if has_flag capabilities
                                                        client_secure_connection
                                                      then drop 8 scramble ++ 0 ∷ []
                                                      else [])
                                                    ++ (if has_flag capabilities client_plugin_auth
                                                        then codes "mysql_native_password" ++ 0 ∷ []
                                                        else [])))))))))))))

pub record HandshakeResponse : Type 0 where
  pub capabilities : ℕ
  pub max_packet_size : ℕ
  pub charset : ℕ
  pub username : Text
  pub auth_response : List ℕ
  pub database : Option Text
  pub auth_plugin : Option Text

-- what a reader takes off the front, and what it leaves
abbrev pub Read : Type 0 → Type 0
Read A = Outcome (A × List ℕ) Text

-- `payload[pos..pos + n]`
abbrev pub read_slice : ℕ → List ℕ → Read (List ℕ)
read_slice n rest = if ltb (length rest) n then panicked else done (take n rest, drop n rest)

-- `payload[pos]`
abbrev pub read_byte : List ℕ → Read ℕ
read_byte [] = panicked
read_byte (b ∷ rest) = done (b, rest)

-- `u32::from_le_bytes(payload[pos..pos + 4])`
abbrev pub read_u32 : List ℕ → Read ℕ
read_u32 (a ∷ b ∷ c ∷ d ∷ rest) = done (u32_of a b c d, rest)
read_u32 _ = panicked

-- the bytes before the next zero, which is taken too
unfoldable pub read_nul : Text → List ℕ → Read (List ℕ)
read_nul message [] = failed message
read_nul message (b ∷ rest) =
    let more = read_nul message rest in
    if nat_beq b 0
    then done ([], rest)
    else elim more [ done (s, r) ↦ done (b ∷ s, r) | failed e ↦ failed e | panicked ↦ panicked ]

abbrev pub expected_nul : Text → Text
expected_nul what = codes "expected null-terminated " ++ what

-- a length with a length in front
abbrev pub read_lenenc : List ℕ → Read ℕ
read_lenenc rest = elim (lenenc_int rest) [
  | none ↦ panicked
  | some (len, n) ↦ done (len, drop n rest)
]

-- the authentication response, by the capabilities
unfoldable pub read_auth : ℕ → List ℕ → Read (List ℕ)
unfolding read_nul
read_auth capabilities rest =
    if has_flag capabilities client_plugin_auth_lenenc_client_data
    then (do found ← read_lenenc rest; read_slice found.0 found.1)
    else if has_flag capabilities client_secure_connection
    then (do found ← read_byte rest; read_slice found.0 found.1)
    else read_nul (expected_nul (codes "auth response")) rest

module _ ⦃p : Platform⦄ where
  -- `String::from_utf8(..)?`
  abbrev pub read_utf8 : Text → List ℕ → Read Text
  read_utf8 what rest = do
    found ← read_nul (expected_nul what) rest
    if p.is_utf8 found.0 then done found else failed (codes "invalid utf-8")

  -- a text that is there under a capability only
  abbrev pub read_optional : Bool → Text → List ℕ → Read (Option Text)
  read_optional false what rest = done (none, rest)
  read_optional true what rest = do found ← read_utf8 what rest; done (some found.0, found.1)

  -- `parse_handshake_response`
  unfoldable pub parse_handshake_response : List ℕ → Outcome HandshakeResponse Text
  unfolding read_nul read_auth
  parse_handshake_response payload = do
    capabilities ← read_u32 payload
    max_packet_size ← read_u32 capabilities.1
    charset ← read_byte max_packet_size.1
    filler ← read_slice 23 charset.1
    username ← read_utf8 (codes "username") filler.1
    auth ← read_auth capabilities.0 username.1
    database ←
        read_optional (has_flag capabilities.0 client_connect_with_db) (codes "database") auth.1
    plugin ←
        read_optional (has_flag capabilities.0 client_plugin_auth) (codes "auth plugin") database.1
    done (record {
      capabilities = capabilities.0;
      max_packet_size = max_packet_size.0;
      charset = charset.0;
      username = username.0;
      auth_response = auth.0;
      database = database.0;
      auth_plugin = plugin.0;
    })

-- `ok_payload`
unfoldable pub ok_payload : ℕ → ℕ → ℕ → List ℕ
unfolding lenenc_int_bytes
ok_payload affected_rows last_insert_id status =
    0
    ∷ (lenenc_int_bytes affected_rows
        ++ (lenenc_int_bytes last_insert_id ++ (u16_le status ++ u16_le 0)))

-- `err_payload`
unfoldable pub err_payload : ℕ → Text → List ℕ
err_payload code message = 0xFF ∷ (u16_le code ++ (b'#' ∷ (codes "HY000" ++ message)))

-- `eof_payload`
unfoldable pub eof_payload : List ℕ
eof_payload = 0xFE ∷ (u16_le 2 ++ u16_le 0)
