-- ===== src/Client/Login.antt =====
-- src/client.rs: the client's part of the handshake.
pub mod Accepted
use Prim.Native.Nat.{bit_and, min}
use srrdb.Prelude.{
  ℕ, ◌+◌, ◌-◌, ◌*◌, ◌%◌, ◌^◌, ◌&&◌, true, false, Option, none, some, List, [], ◌∷◌, ◌++◌,
  if◌then◌else◌, length, take, drop, ltb, leb, nat_beq, is_empty, replicate, Outcome, done, failed,
  panicked, ◌>>=◌,
}
use srrdb.Std.Text.{Text, codes}
use srrdb.Std.Bytes.{u16_of, u32_le}
use srrdb.Std.Platform.{Platform}
use srrdb.Protocol.Auth.{Sha1, compute_auth_response}
use srrdb.Protocol.Handshake.{
  Read, read_slice, read_byte, read_u32, read_nul, has_flag, client_secure_connection,
  client_plugin_auth,
}

pub record ServerHandshake : Type 0 where
  pub protocol_version : ℕ
  pub server_version : Text
  pub connection_id : ℕ
  pub scramble : List ℕ
  pub capabilities : ℕ
  pub charset : ℕ
  pub auth_plugin : Option Text

-- `u16::from_le_bytes(payload[pos..pos + 2])`
abbrev pub read_two : List ℕ → Read ℕ
read_two (a ∷ b ∷ rest) = done (u16_of a b, rest)
read_two _ = panicked

-- `payload[pos]` where the server has plugins, else 0; `pos` moves by the caller
abbrev pub read_data_len : ℕ → List ℕ → Outcome ℕ Text
read_data_len capabilities rest =
    if has_flag capabilities client_plugin_auth
    then (elim rest [ [] ↦ panicked | b ∷ more ↦ done b ])
    else done 0

-- the twenty bytes: the second part is copied where it is all there
unfoldable pub join_scramble : ℕ → ℕ → List ℕ → List ℕ → List ℕ
join_scramble capabilities data_len first rest =
    let part2_len = data_len - 9 in
    let copy_len = min part2_len 12 in
    if has_flag capabilities client_secure_connection
      && (ltb 0 part2_len && leb part2_len (length rest))
    then first ++ (take copy_len rest ++ replicate (12 - copy_len) 0)
    else first ++ replicate 12 0

-- the bytes before the first zero, or all
abbrev pub until_nul : List ℕ → List ℕ
until_nul [] = []
until_nul (b ∷ rest) = if nat_beq b 0 then [] else b ∷ until_nul rest

module _ ⦃p : Platform⦄ where
  -- the name of the plugin, read where the second part of the scramble stands
  abbrev pub plugin_of : ℕ → List ℕ → Option Text
  plugin_of capabilities rest =
      if has_flag capabilities client_plugin_auth
      then (if is_empty rest
          then none
          else if p.is_utf8 (until_nul rest)
          then some (until_nul rest)
          else none)
      else none

  -- the fields behind the first part of the scramble
  unfoldable pub parse_capabilities : ℕ → Text → ℕ → List ℕ → List ℕ → Outcome ServerHandshake Text
  unfolding join_scramble
  parse_capabilities version server_version connection_id first rest = do
    lower ← read_two (drop 1 rest)
    charset ← read_byte lower.1
    upper ← read_two (drop 2 charset.1)
    let capabilities = upper.0 * 2 ^ 16 + lower.0
    data_len ← read_data_len capabilities upper.1
    let rest' = drop 11 upper.1
    done (record {
      protocol_version = version;
      server_version = server_version;
      connection_id = connection_id;
      scramble = join_scramble capabilities data_len first rest';
      capabilities = capabilities;
      charset = charset.0;
      auth_plugin = plugin_of capabilities rest';
    })

  -- `parse_server_handshake`
  unfoldable pub parse_server_handshake : List ℕ → Outcome ServerHandshake Text
  unfolding read_nul parse_capabilities
  parse_server_handshake payload = do
    version ← read_byte payload
    name ← read_nul (codes "missing null terminator for server version") version.1
    server_version ← (if p.is_utf8 name.0 then done name.0 else failed (codes "invalid utf-8"))
    id ← read_u32 name.1
    first ← read_slice 8 id.1
    parse_capabilities version.0 server_version id.0 first.0 first.1

-- the capabilities that the client can use
abbrev pub client_capabilities : ℕ
client_capabilities = 512 + 32768 + 524288 + 2097152 + 8192 + 8

module _ ⦃h : Sha1⦄ where
  -- an empty password is sent as no bytes
  abbrev pub auth_bytes : List ℕ → Text → List ℕ
  auth_bytes scramble password =
      if is_empty password then [] else compute_auth_response password scramble

  -- `build_handshake_response`
  unfoldable pub build_handshake_response : ServerHandshake → Text → Text → List ℕ
  build_handshake_response handshake username password =
      let auth = auth_bytes handshake.scramble password in
      u32_le (bit_and client_capabilities handshake.capabilities)
      ++ (u32_le 16777215
          ++ (255
              ∷ (replicate 23 0
                  ++ (username
                      ++ (0
                          ∷ (length auth % 256)
                          ∷ (auth
                              ++ (codes "srrdb"
                                  ++ (0 ∷ (codes "mysql_native_password" ++ (0 ∷ []))))))))))
