-- ===== src/Lib.antt =====
-- srrdb: a small SQL server that speaks the MySQL protocol.
--
-- A client's packet (src/protocol/frame.rs, command.rs) carries a statement, which the crate
-- sqlparser parses and the executor (src/engine/executor.rs) runs on a catalog and a storage. Each
-- change is written to a log and to files, from which the server starts again
-- (src/server/listener.rs). The results go back as packets (src/protocol/resultset.rs), which the
-- client (src/client.rs) reads.
--
-- Prelude    Boolean tests, lists, results, signed integers.
-- Std        What the code uses of Rust's library: texts as lists of their UTF-8 bytes (Text),
--            HashMap as a list without duplicate keys in the order of insertion, BTreeMap as a
--            list, decimals (Decimal), little-endian bytes (Bytes). Codec (Bincode) and Platform
--            are parameters: the serializer, of which it is asked that it reads back what it wrote
--            and that what it reads is no longer than what it read from; and Unicode, UTF-8,
--            floats and the debug text of syntax trees.
-- Sql        The syntax trees of sqlparser, as far as the engine takes them apart, and the calls of
--            it (src/sql/): Parser and Tokenizer. sqlparser itself is a parameter.
-- Engine     Types (src/engine/types.rs), Index (index.rs), Catalog (catalog.rs), Storage
--            (storage.rs), Wal (wal.rs), Persistence (persistence.rs); of executor.rs: Like, Eval
--            (eval_where and what it calls), Query (helpers of SELECT), Sort, Names (names and column
--            types), Timestamp, State (the executor, its locks and its log) and Executor, with one
--            module for each group of statements.
-- Server     Startup: how `start` of src/server/listener.rs builds the state; Session
--            (src/server/session.rs); Connection (src/server/connection.rs): the life of one
--            connection on all the bytes that its client sends.
-- Protocol   src/protocol/: Frame, Command, Resultset, Handshake, Lenenc and Auth, the last two of
--            which are parts of handshake.rs. SHA-1 is a parameter of twenty bytes.
-- Client     src/client.rs: the readers of packets, Query (execute_query), Login (the handshake),
--            Table (format_result) and Shell (the loop over the lines of the terminal).
-- Repl       src/repl/repl.rs: the local shell on the events of the terminal.
-- Config     src/config.rs and src/main.rs: the settings, and what is run.
-- Tests      Concrete parameters, and examples.
--
-- A function that changes an object takes its old value and returns its new one. A statement is a
-- step from an executor to an executor with an Outcome: a result, an error, or a panic, which
-- poisons a lock that the statement holds. A `u64` that is added to wraps, as in a release build.
-- A float is its bits, and a time is an argument.
--
-- The replay of a log runs on fuel: one more than the number of its bytes, of which every entry
-- takes one at least. The loop over the years runs on as much fuel as there are days, and the loop
-- of the client over a row on as much as there are bytes. The loops of a connection and of the
-- client over the packets on a stream have one more than the bytes of the stream, and a packet takes
-- four. A run of statements of Engine/Executor/Log/Replayed is a list of steps, of which each is a
-- whole statement.
--
-- Not modelled: sockets, the order in which connections are served, files' directories and flushes,
-- the editing of lines in the terminal, and the parsers of SQL, of arguments and of TOML, which are
-- parameters. Statements run one at a time: a lock is a flag that says whether it is poisoned. Where
-- ORDER BY sorts by a comparison that is no order on the rows, what the library's sort_by does, a
-- panic included, is a parameter (Platform). Floats are compared as keys of an index by their bits:
-- NaN and the two zeros, on which `==` differs, come from no literal of SQL.
pub mod Prelude
pub mod Std
pub mod Sql
pub mod Engine
pub mod Server
pub mod Protocol
pub mod Client
pub mod Config
pub mod Repl
pub mod Tests
