-- ===== src/Server/Connection/Live.antt =====
-- Every packet of a client is answered.
use srrdb.Prelude.{
  ℕ, ◌≡◌, refl, Bool, true, false, List, [], ◌∷◌, ◌++◌, arith, if◌then◌else◌, is_empty, nat_beq,
  Outcome, done, failed, panicked, Result-cases, inl, inr,
}
use srrdb.Std.Text.{Text}
use srrdb.Std.Platform.{Platform}
use srrdb.Sql.Statements.{Statement}
use srrdb.Sql.Parser.{SqlParser}
use srrdb.Engine.Wal.{Bincode}
use srrdb.Engine.Executor.{database_exists}
use srrdb.Protocol.Frame.{Packet}
use srrdb.Protocol.Command.{Command, parse_command}
use srrdb.Protocol.Handshake.{err_payload}
use srrdb.Server.Connection.{
  Connection, Next, next_seq, send, plain_ok, handle_query, answer_query, handle_command,
  handle_packet,
}
use srrdb.Server.Connection.Answers.{
  packets, Sends, Sends-trans, send-Sends, Ran, run_statements-Ran,
}

-- at least one packet
abbrev pub Answered : Connection → Connection → Type 0
Answered c c' =
    (first : List ℕ) × (rest : List (List ℕ)) × (c'.sent ≡ c.sent ++ packets c.seq (first ∷ rest))

Sends-Answered :
    (c c' : Connection) (ps : List (List ℕ)) → Sends c c' ps → is_empty ps ≡ false → Answered c c'
Sends-Answered c c' [] s h = absurd (ground (arith, h))
Sends-Answered c c' (first ∷ rest) s h = (first, rest, s.0)

append-not_empty : (ps : List (List ℕ)) (q : List ℕ) → is_empty (ps ++ (q ∷ [])) ≡ false
append-not_empty [] q = refl
append-not_empty (p ∷ ps) q = refl

module _ ⦃p : Platform⦄ ⦃b : Bincode⦄ ⦃s : SqlParser⦄ where
  -- what a packet comes to: an answer, or the end
  abbrev pub Ends : Connection → Connection × Next → Type 0
  Ends c (c', Next.again) = Answered c c'
  Ends c (c', Next.quit) = c'.sent ≡ c.sent
  Ends c (c', Next.crashed) = Unit

  send-Answered : (c : Connection) (payload : List ℕ) → Answered c (send c payload)
  send-Answered c payload =
      Sends-Answered c (send c payload) (payload ∷ []) (send-Sends c payload) refl

  query-Ends :
      (c : Connection) (statements : List Statement) (y : Connection × Outcome {0, 0} Unit Text)
      → is_empty statements ≡ false
      → Ran c statements y
      → Ends c (answer_query y)
  query-Ends c statements (c', done tt) h (ps, s, n) = Sends-Answered c c' ps s (n refl h)
  query-Ends c statements (c', failed e) h (ps, s, n) =
      let c'' = send c' (err_payload 1064 e) in
      Sends-Answered c c'' (ps ++ (err_payload 1064 e ∷ []))
        (Sends-trans c c' c'' ps (err_payload 1064 e ∷ []) s (send-Sends c' (err_payload 1064 e)))
        (append-not_empty ps (err_payload 1064 e))
  query-Ends c statements (c', panicked) h ran = tt

  handle_query-Ends :
      (time : ℕ → ℕ) (c : Connection) (sql : Text) → Ends c (answer_query (handle_query time c sql))
  unfolding handle_query
  handle_query-Ends time c sql = elim (Result-cases (s.parse_sql sql)) [
    | inl (e, q) ↦ rw (q, handle_query) (send-Answered c (err_payload 1064 e))
    | inr ([], q) ↦ rw (q, handle_query) (send-Answered c plain_ok)
    | inr (statement ∷ statements, q) ↦
        rw (q, handle_query)
          (query-Ends c (statement ∷ statements) _ refl
            (run_statements-Ran time c (statement ∷ statements)))
  ]

  init_db-Ends :
      (c : Connection) (db : Text) (good bad : List ℕ) (t : Bool)
      → Answered c (
          if t
          then send (record c { session = record c.session { database = db } }) good
          else send c bad)
  init_db-Ends c db good bad true =
      send-Answered (record c { session = record c.session { database = db } }) good
  init_db-Ends c db good bad false = send-Answered c bad

  unknown-Ends :
      (c : Connection) (good bad : List ℕ) (t : Bool)
      → Answered c (if t then send c good else send c bad)
  unknown-Ends c good bad true = send-Answered c good
  unknown-Ends c good bad false = send-Answered c bad

  handle_command-Ends :
      (time : ℕ → ℕ) (c : Connection) (cmd : Command) → Ends c (handle_command time c cmd)
  unfolding handle_command
  handle_command-Ends time c Command.quit = refl
  handle_command-Ends time c Command.ping = send-Answered c plain_ok
  handle_command-Ends time c (Command.init_db db) =
      init_db-Ends c db plain_ok _ (database_exists c.executor db)
  handle_command-Ends time c (Command.query sql) = handle_query-Ends time c sql
  handle_command-Ends time c (Command.unknown cmd_id args) =
      unknown-Ends c plain_ok _ (nat_beq cmd_id 27)

  -- Where the connection goes on after a packet of the client, the packet was answered by one
  -- packet at least, and the answer's packets are numbered one after the other from the number
  -- behind that of the client's packet, modulo 256. Where the client quits nothing is sent. The
  -- third case is a statement that panics.
  pub handle_packet-Ends :
      (time : ℕ → ℕ) (c : Connection) (packet : Packet)
      → Ends (record c { seq = next_seq packet.seq_id }) (handle_packet time c packet)
  unfolding handle_packet
  handle_packet-Ends time c packet =
      let c' : Connection = record c { seq = next_seq packet.seq_id } in
      elim (Result-cases (parse_command packet.payload)) [
        | inl (e, q) ↦ rw (q, handle_packet) (send-Answered c' (err_payload 1064 e))
        | inr (cmd, q) ↦ rw (q, handle_packet) (handle_command-Ends time c' cmd)
      ]
