-- ===== src/Engine/Wal/Flaws.antt =====
-- A header whose length is below its own size.
use srrdb.Prelude.{ℕ, ◌<◌, ◌≡◌, ◌∷◌, ◌++◌, arith}
use srrdb.Std.Bytes.{u32_le, u32_read}
use srrdb.Std.Platform.{Platform}
use srrdb.Engine.Wal.{
  Bytes, Bincode, entry_header_size, magic, Frame, read_frame, Database, panicked, replay_loop,
  replay,
}

short_frame :
    (n type : ℕ) (rest : Bytes)
    → n < entry_header_size
    → read_frame (magic ++ (u32_le n ++ (type ∷ rest))) ≡ Frame.panic
unfolding read_frame
short_frame n type rest h = ground (arith, u32_read n)

-- A log whose next header gives a length below the header's seven bytes panics in the replay,
-- where every other defect of the log ends it.
pub replay_short_length :
    ⦃p : Platform⦄ ⦃b : Bincode⦄ (n type : ℕ) (rest : Bytes) (d : Database)
    → n < entry_header_size
    → replay (magic ++ (u32_le n ++ (type ∷ rest))) d ≡ panicked
unfolding replay replay_loop
replay_short_length n type rest d h = rw (short_frame n type rest h, replay_loop)
