-- ===== src/Server/Startup/Recovered.antt =====
-- The start of the server on a log that a crash cut off.
use srrdb.Prelude.{
  ℕ, zero, suc, ◌≡◌, refl, ◌∙◌, ap, true, false, Option, none, some, List, [], ◌∷◌, ◌++◌, take,
  nat_beq,
}
use srrdb.Std.Platform.{Platform}
use srrdb.Engine.Wal.{
  Bytes, Bincode, WalEntry, entry_type, serialize, Database, apply_entry, count_if, Replay,
  replayed, panicked, replay, replay_loop, read_frame,
}
use srrdb.Engine.Wal.Checkpoint.{invalid, replay_checkpoint}
use srrdb.Engine.Wal.Recovery.{log_bytes, Fits, whole, apply_all, replay-take}
use srrdb.Engine.Persistence.{Files, has_existing_data}
use srrdb.Engine.Executor.Indexes.{rebuild_indexes}
use srrdb.Server.Startup.{load_files, recover, executor_of, start}

module _ ⦃p : Platform⦄ ⦃b : Bincode⦄ where
  -- the entries applied in order
  unfoldable pub applied : Database → List WalEntry → Database
  applied d [] = d
  applied d (e ∷ es) = applied (apply_entry d e).0 es

  -- the state that a replay leaves
  abbrev state_of : Replay → Option Database
  state_of r = elim r [ replayed d _ ↦ some d | panicked ↦ none ]

  state_of-apply_all :
      (d : Database) (n : ℕ) (es : List WalEntry)
      → state_of (apply_all d n es) ≡ some (applied d es)
  unfolding applied
  state_of-apply_all d n [] = refl
  state_of-apply_all d n (e ∷ es) =
      state_of-apply_all (apply_entry d e).0 (count_if (apply_entry d e).1 n) es

  -- a log that begins with another entry is no checkpoint, wherever it ends
  replay_checkpoint-take :
      (e : WalEntry) (rest : Bytes) (k : ℕ)
      → nat_beq (entry_type e) 255 ≡ false
      → replay_checkpoint (take k (serialize e ++ rest)) ≡ invalid
  unfolding replay_checkpoint serialize
  replay_checkpoint-take e rest zero h = refl
  replay_checkpoint-take e rest (suc zero) h = refl
  replay_checkpoint-take e rest (suc (suc zero)) h = refl
  replay_checkpoint-take e rest (suc (suc (suc zero))) h = refl
  replay_checkpoint-take e rest (suc (suc (suc (suc zero)))) h = refl
  replay_checkpoint-take e rest (suc (suc (suc (suc (suc zero))))) h = refl
  replay_checkpoint-take e rest (suc (suc (suc (suc (suc (suc zero)))))) h = refl
  replay_checkpoint-take e rest (suc (suc (suc (suc (suc (suc (suc k))))))) h = rw h refl

  recover-invalid :
      (f : Files) (wal : Bytes)
      → replay_checkpoint wal ≡ invalid
      → recover f wal ≡ state_of (replay wal (load_files f))
  unfolding recover replay replay_loop read_frame
  recover-invalid f [] h = refl
  recover-invalid f (x ∷ wal) h = rw (h, recover) refl

  -- Where the data directory has data, and a crash cut the log off at any byte, the server starts,
  -- with the catalog and the rows of the files, to which exactly the entries that were written
  -- whole are applied in their order, and with the indexes rebuilt from that: the first entry must
  -- be no checkpoint, and each entry's length must fit the 32 bits of its header.
  pub start-take :
      (f : Files) (e : WalEntry) (es : List WalEntry) (k : ℕ)
      → has_existing_data f ≡ true
      → nat_beq (entry_type e) 255 ≡ false
      → Fits (e ∷ es)
      → start f (take k (log_bytes (e ∷ es)))
        ≡ some (
            rebuild_indexes (
              executor_of f
                (take k (log_bytes (e ∷ es)))
                (applied (load_files f) (take (whole k (e ∷ es)) (e ∷ es)))))
  unfolding start
  start-take f e es k data_there other fits =
      let r : recover f (take k (log_bytes (e ∷ es)))
          ≡ some (applied (load_files f) (take (whole k (e ∷ es)) (e ∷ es))) =
        recover-invalid f _ (replay_checkpoint-take e (log_bytes es) k other)
        ∙ ap state_of (replay-take (e ∷ es) k (load_files f) fits)
        ∙ state_of-apply_all (load_files f) 0 (take (whole k (e ∷ es)) (e ∷ es)) in
      rw (data_there, r) refl
