-- ===== src/Engine/Executor/Log/Replayed.antt =====
-- The replay of the log after any run of INSERT, DELETE and UPDATE.
use srrdb.Prelude.{
  ℕ, ◌+◌, ◌<◌, ◌≡◌, sym, ap, ◌∙◌, subst, false, Option, List, [], ◌∷◌, ◌++◌, inl, inr, length,
}
use srrdb.Std.Text.{Text}
use srrdb.Std.Platform.{Platform}
use srrdb.Sql.Ast.{Expr}
use srrdb.Sql.Statements.{Assignment, Query}
use srrdb.Engine.Storage.{normalize, next_id_or_one, u64_mod}
use srrdb.Engine.Storage.Stored.{IsWellFormed, SameRows}
use srrdb.Engine.Wal.{Bincode, WalEntry, Database, serialize, replayed, replay}
use srrdb.Engine.Wal.Frames.{size_limit}
use srrdb.Engine.Wal.Recovery.{log_bytes}
use srrdb.Engine.Wal.Appended.{log_bytes-append, final, final-append, replay-final}
use srrdb.Engine.State.{Executor}
use srrdb.Engine.Executor.Insert.{execute_insert}
use srrdb.Engine.Executor.Change.{execute_delete, execute_update}
use srrdb.Engine.Executor.Log.Filled.{rows_in}
use srrdb.Engine.Executor.Log.Changes.{Follows, SameRows-trans}
use srrdb.Engine.Executor.Log.Statements.{
  execute_insert-Follows, execute_delete-Follows, execute_update-Follows,
}

module _ ⦃p : Platform⦄ ⦃b : Bincode⦄ where
  -- A statement that changes rows, whatever it comes to. An INSERT does not find the storage
  -- poisoned, since it logs before it locks it, and its ids stay below 2^64.
  pub data Change : Executor → Executor → Type 0 where
    inserted :
        (now : ℕ) {x : Executor} (db name : Text) (columns : List Text) (source : Option Query)
        → x.storage_poisoned ≡ false
        → next_id_or_one x.storage (normalize name) + rows_in source < u64_mod
        → Change x (execute_insert now x db name columns source).0
    deleted :
        {x : Executor} (db name : Text) (selection : Option Expr)
        → Change x (execute_delete x db name selection).0
    updated :
        {x : Executor} (db name : Text) (assignments : List Assignment) (selection : Option Expr)
        → Change x (execute_update x db name assignments selection).0

  -- a run of them
  pub data Changes (x : Executor) : Executor → Type 0 where
    start : Changes x x
    next : {y z : Executor} → Changes x y → Change y z → Changes x z

  Change-Follows : (x y : Executor) → Change x y → Follows x y
  Change-Follows x _ (inserted now db name columns source h k) =
      execute_insert-Follows now x db name columns source h k
  Change-Follows x _ (deleted db name selection) = execute_delete-Follows x db name selection
  Change-Follows x _ (updated db name assignments selection) =
      execute_update-Follows x db name assignments selection

  -- the log holds these entries, they lead from `d` to the rows of `x`, and these are well formed
  abbrev Holds : Database → Executor → List WalEntry → Type 0
  Holds d x es =
      (x.wal ≡ log_bytes es) × SameRows (final d es).storage x.storage × IsWellFormed x.storage

  change-Holds :
      (d : Database) (x y : Executor) (es : List WalEntry)
      → Holds d x es
      → Follows x y
      → (es' : List WalEntry) × Holds d y es'
  change-Holds d x y es (l, s, w) f =
      let (w', logs) = f w in
      elim logs [
        | inl (l', s') ↦ (es, (l' ∙ l, SameRows-trans _ x.storage _ s s', w'))
        | inr (e, l', g) ↦ (
          es ++ (e ∷ []),
          (
            l' ∙ ap (λ q. q ++ serialize e) l ∙ sym (log_bytes-append es e),
            subst (λ q. SameRows q.storage y.storage) (sym (final-append d es e))
                (g (final d es) s),
            w',
          ),
        )
      ]

  changes-Holds :
      (d : Database) (x y : Executor)
      → Holds d x []
      → Changes x y
      → (es : List WalEntry) × Holds d y es
  changes-Holds d x _ h start = ([], h)
  changes-Holds d x z h (next {y} r c) =
      let (es, k) = changes-Holds d x y h r in change-Holds d y z es k (Change-Follows y z c)

  -- Any run of INSERT, DELETE and UPDATE, whatever each comes to, keeps the storage well formed:
  -- the rows of every table stand in the order of their ids, each under its own id, and every id
  -- is above 0 and below the table's next id. An INSERT does not find the storage's lock poisoned
  -- and its ids stay below 2^64.
  pub changes-IsWellFormed :
      (x y : Executor) → IsWellFormed x.storage → Changes x y → IsWellFormed y.storage
  changes-IsWellFormed x _ w start = w
  changes-IsWellFormed x z w (next {y} r c) =
      (Change-Follows y z c (changes-IsWellFormed x y w r)).0

  -- After any run of INSERT, DELETE and UPDATE, whatever each comes to, that starts with an empty
  -- log and a well formed storage, the replay of the log on a state with the rows and next ids at
  -- the start does not panic, and gives every table the rows and the next id that it has in the
  -- storage at the end: an INSERT does not find the storage's lock poisoned, its ids stay below
  -- 2^64, and the log stays shorter than 2^32 bytes.
  pub replay-changes :
      (d : Database) (x y : Executor)
      → x.wal ≡ []
      → SameRows d.storage x.storage
      → IsWellFormed x.storage
      → Changes x y
      → length y.wal < size_limit
      → (d' : Database) × (n : ℕ) × (replay y.wal d ≡ replayed d' n) × SameRows d'.storage y.storage
  replay-changes d x y e s w r h =
      let (es, (l, s', w')) = changes-Holds d x y (e, s, w) r in
      let (n, q) = replay-final es d (subst (λ k. length k < size_limit) l h) in
      (final d es, n, ap (λ k. replay k d) l ∙ q, s')
