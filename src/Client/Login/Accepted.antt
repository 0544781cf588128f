-- ===== src/Client/Login/Accepted.antt =====
-- The handshake of client and server together.
use srrdb.Prelude.{
  ℕ, zero, suc, ◌+◌, ◌-◌, ◌%◌, ◌<◌, ◌≡◌, refl, sym, ap, ◌∙◌, true, false, none, some, List, [], ◌∷◌,
  ◌++◌, arith, length, take, drop, nat_beq, is_empty, replicate, take_prefix, drop_prefix,
  length-append, leb, append-nil, length-take, ◌>>=◌, done, append_assoc,
}
use srrdb.Std.Text.{Text, codes}
use srrdb.Std.Bytes.{u32_le}
use srrdb.Engine.Like.Spec.{IsAscii}
use srrdb.Std.Platform.{Platform}
use srrdb.Protocol.Auth.{Sha1, xor_bytes, compute_auth_response, verify-compute_auth_response}
use srrdb.Protocol.Handshake.{
  read_slice, read_nul, read_auth, expected_nul, build_handshake, HandshakeResponse,
  parse_handshake_response,
}
use srrdb.Client.Login.{
  ServerHandshake, join_scramble, parse_capabilities, parse_server_handshake,
  build_handshake_response, auth_bytes, plugin_of,
}
use srrdb.Server.Session.{new_user, with_password}
use srrdb.Server.Connection.{authenticate, server_capabilities}

read_slice-prefix :
    (n : ℕ) (xs ys : List ℕ) → length xs ≡ n → read_slice n (xs ++ ys) ≡ done (xs, ys)
read_slice-prefix n xs ys h =
    ground (arith, h, length-append xs ys, take_prefix xs ys, drop_prefix xs ys)

-- no byte of it is 0
abbrev pub HasNoNul : List ℕ → Type 0
HasNoNul [] = Unit
HasNoNul (b ∷ bs) = (nat_beq b 0 ≡ false) × HasNoNul bs

read_nul-prefix :
    (message : Text) (xs ys : List ℕ)
    → HasNoNul xs
    → read_nul message (xs ++ (0 ∷ ys)) ≡ done (xs, ys)
unfolding read_nul
read_nul-prefix message [] ys h = refl
read_nul-prefix message (x ∷ xs) ys h = rw h.0 (rw (read_nul-prefix message xs ys h.1) refl)

-- ASCII is UTF-8
abbrev pub AcceptsAscii : Platform → Type 0
AcceptsAscii p = (s : Text) → IsAscii s → p.is_utf8 s ≡ true

length-drop : (n : ℕ) (xs : List ℕ) → length (drop n xs) ≡ length xs - n
length-drop zero xs = omega arith
length-drop (suc n) [] = omega arith
length-drop (suc n) (x ∷ xs) = omega (arith, length-drop n xs)

take-drop : (n : ℕ) (xs : List ℕ) → take n xs ++ drop n xs ≡ xs
take-drop zero xs = refl
take-drop (suc n) [] = refl
take-drop (suc n) (x ∷ xs) = ap (λ t. x ∷ t) (take-drop n xs)

-- what follows the zeros of the greeting
abbrev greeting_rest : List ℕ → List ℕ
greeting_rest scramble =
    (drop 8 scramble ++ (0 ∷ [])) ++ (codes "mysql_native_password" ++ (0 ∷ []))

take-prefix : (n : ℕ) (xs ys : List ℕ) → length xs ≡ n → take n (xs ++ ys) ≡ xs
take-prefix n xs ys h = ap (λ k. take k (xs ++ ys)) (sym h) ∙ take_prefix xs ys

-- the client has the server's scramble
join_scramble-greeting :
    (scramble : List ℕ)
    → length scramble ≡ 20
    → join_scramble server_capabilities 21 (take 8 scramble) (greeting_rest scramble) ≡ scramble
unfolding join_scramble
join_scramble-greeting scramble h =
    let second : length (drop 8 scramble) ≡ 12 = omega (arith, h, length-drop 8 scramble) in
    let e = append_assoc (drop 8 scramble) (0 ∷ []) (codes "mysql_native_password" ++ (0 ∷ [])) in
    let enough : leb 12 (length (greeting_rest scramble)) ≡ true = ground (
      arith,
      second,
      length-append (drop 8 scramble) (0 ∷ []),
      length-append (drop 8 scramble ++ (0 ∷ [])) (codes "mysql_native_password" ++ (0 ∷ [])),
    ) in
    rw enough (
      ap (λ l. take 8 scramble ++ (take 12 l ++ [])) e
      ∙ ap (λ l. take 8 scramble ++ (l ++ [])) (take-prefix 12 (drop 8 scramble) _ second)
      ∙ ap (λ l. take 8 scramble ++ l) (append-nil (drop 8 scramble))
      ∙ take-drop 8 scramble)

module _ ⦃p : Platform⦄ where
  -- what the client makes of the greeting
  abbrev greeted : List ℕ → ServerHandshake
  greeted scramble = record {
    protocol_version = 10;
    server_version = codes "srrdb 0.2.0";
    connection_id = 1;
    scramble = join_scramble server_capabilities 21 (take 8 scramble) (greeting_rest scramble);
    capabilities = server_capabilities;
    charset = 45;
    auth_plugin = plugin_of server_capabilities (greeting_rest scramble);
  }

  parse_server_handshake-greeting :
      (scramble : List ℕ)
      → AcceptsAscii p
      → length scramble ≡ 20
      → parse_server_handshake (build_handshake 1 scramble server_capabilities 45)
        ≡ done (greeted scramble)
  unfolding parse_server_handshake build_handshake parse_capabilities
  parse_server_handshake-greeting scramble a h =
      let v : p.is_utf8 (codes "srrdb 0.2.0") ≡ true = a (codes "srrdb 0.2.0") (omega arith) in
      let first : length (take 8 scramble) ≡ 8 = omega (arith, h, length-take 8 scramble) in
      rw v (
        ap (λ y. y >>= (λ f. parse_capabilities 10 (codes "srrdb 0.2.0") 1 f.0 f.1))
          (read_slice-prefix 8 (take 8 scramble) _ first))

  -- the capabilities that both have
  abbrev shared_capabilities : ℕ
  shared_capabilities = 512 + 32768 + 524288 + 8192 + 8

  -- the part of the response behind the zeros
  abbrev credentials : Text → List ℕ → List ℕ
  credentials username auth =
      username
      ++ (0
          ∷ (length auth % 256)
          ∷ (auth ++ (codes "srrdb" ++ (0 ∷ (codes "mysql_native_password" ++ (0 ∷ []))))))

  parse_handshake_response-credentials :
      (username : Text) (auth : List ℕ)
      → AcceptsAscii p
      → HasNoNul username
      → p.is_utf8 username ≡ true
      → length auth < 256
      → parse_handshake_response (
          u32_le shared_capabilities
          ++ (u32_le 16777215 ++ (255 ∷ (replicate 23 0 ++ credentials username auth))))
        ≡ done (record {
          capabilities = shared_capabilities;
          max_packet_size = 16777215;
          charset = 255;
          username = username;
          auth_response = auth;
          database = some (codes "srrdb");
          auth_plugin = some (codes "mysql_native_password");
        })
  unfolding parse_handshake_response read_auth
  parse_handshake_response-credentials username auth a n u l =
      let tail = codes "srrdb" ++ (0 ∷ (codes "mysql_native_password" ++ (0 ∷ []))) in
      let filler = read_slice-prefix 23 (replicate 23 0) (credentials username auth) refl in
      let name =
        read_nul-prefix (expected_nul (codes "username")) username
          ((length auth % 256) ∷ (auth ++ tail)) n in
      let len : length auth % 256 ≡ length auth = omega (arith, l) in
      let bytes = read_slice-prefix (length auth % 256) auth tail (sym len) in
      rw filler (
        rw name (
          rw u (
            rw bytes (
              rw (a (codes "srrdb") (omega arith))
                (rw (a (codes "mysql_native_password") (omega arith)) refl)))))

  greeted-scramble :
      (scramble : List ℕ) → length scramble ≡ 20 → (greeted scramble).scramble ≡ scramble
  greeted-scramble scramble h = join_scramble-greeting scramble h

module _ ⦃h : Sha1⦄ where
  length-xor_bytes : (s t : List ℕ) → length s ≡ length t → length (xor_bytes s t) ≡ length s
  unfolding xor_bytes
  length-xor_bytes [] t e = refl
  length-xor_bytes (a ∷ s) [] e = absurd (omega (arith, e))
  length-xor_bytes (a ∷ s) (b ∷ t) e = ap (λ n. suc n) (length-xor_bytes s t (omega (arith, e)))

  length-auth_bytes :
      (scramble : List ℕ) (password : Text) → length (auth_bytes scramble password) < 256
  unfolding compute_auth_response
  length-auth_bytes scramble [] = omega arith
  length-auth_bytes scramble (b ∷ password) =
      let double = h.digest (scramble ++ h.digest (h.digest (b ∷ password))) in
      omega (
        arith,
        length-xor_bytes (h.digest (b ∷ password)) double
            (h.length-digest (b ∷ password) ∙ sym (h.length-digest _)),
        h.length-digest (b ∷ password),
      )

module _ ⦃p : Platform⦄ ⦃h : Sha1⦄ where
  -- what the server reads of the response to its greeting
  responded : List ℕ → Text → Text → HandshakeResponse
  responded scramble username password = record {
    capabilities = shared_capabilities;
    max_packet_size = 16777215;
    charset = 255;
    username = username;
    auth_response = auth_bytes scramble password;
    database = some (codes "srrdb");
    auth_plugin = some (codes "mysql_native_password");
  }

  parse_handshake_response-greeted :
      (scramble : List ℕ) (username password : Text)
      → AcceptsAscii p
      → length scramble ≡ 20
      → HasNoNul username
      → p.is_utf8 username ≡ true
      → parse_handshake_response (build_handshake_response (greeted scramble) username password)
        ≡ done (responded scramble username password)
  unfolding build_handshake_response responded
  parse_handshake_response-greeted scramble username password a l n u =
      ap
        (λ q. parse_handshake_response (
          u32_le shared_capabilities
          ++ (u32_le 16777215
              ++ (255 ∷ (replicate 23 0 ++ credentials username (auth_bytes q password))))))
        (join_scramble-greeting scramble l)
      ∙ parse_handshake_response-credentials username (auth_bytes scramble password) a n u
          (length-auth_bytes scramble password)

  -- The client reads the server's greeting and answers it; the server reads the answer, and lets
  -- the user of that name in where the client has the password, which is not empty, and also where
  -- the server has none. The scramble has twenty bytes, the user's name is UTF-8 without a zero
  -- byte, and ASCII texts count as UTF-8.
  pub login-authenticate :
      (scramble : List ℕ) (username password : Text)
      → AcceptsAscii p
      → length scramble ≡ 20
      → HasNoNul username
      → p.is_utf8 username ≡ true
      → is_empty password ≡ false
      → (handshake : ServerHandshake) × (response : HandshakeResponse) × (parse_server_handshake
            (build_handshake 1 scramble server_capabilities 45)
          ≡ done handshake)
        × (parse_handshake_response (build_handshake_response handshake username password)
            ≡ done response)
        × (authenticate (some password) scramble response ≡ some (with_password username password))
        × (authenticate none scramble response ≡ some (new_user username))
  unfolding authenticate with_password responded
  login-authenticate scramble username [] a l n u e = absurd (ground (arith, e))
  login-authenticate scramble username (b ∷ password) a l n u e = (
    greeted scramble,
    responded scramble username (b ∷ password),
    parse_server_handshake-greeting scramble a l,
    parse_handshake_response-greeted scramble username (b ∷ password) a l n u,
    rw (verify-compute_auth_response (b ∷ password) scramble) refl,
    refl,
  )
