-- ===== src/Engine/Wal/Recovery.antt =====
-- The replay of a log that a crash cut off at any byte.
use srrdb.Prelude.{
  ℕ, zero, suc, ◌+◌, ◌-◌, ◌≤◌, ◌<◌, ◌≡◌, refl, true, false, List, [], ◌∷◌, ◌++◌, arith, ap, ◌∙◌,
  length, take, length-append, length-take, leb, leb→le, if◌then◌else◌, Bool-cases, inl, inr,
}
use srrdb.Std.Platform.{Platform}
use srrdb.Engine.Wal.{
  Bytes, Bincode, WalEntry, entry_type, Frame, read_frame, payload, serialize, entry_header_size,
  Database, apply_entry, count_if, Replay, replayed, replay_loop, replay,
}
use srrdb.Engine.Wal.Frames.{deserialize-payload, size_limit, read_frame-whole, read_frame-torn}

-- a cut of two joined lists that reaches into the second, and one that does not
take_past {ℓ} :
    {A : Type ℓ} (xs ys : List A) (n : ℕ)
    → length xs ≤ n
    → take n (xs ++ ys) ≡ xs ++ take (n - length xs) ys
take_past [] ys n h = ap (λ k. take k ys) (omega arith)
take_past (x ∷ xs) ys zero h = absurd (omega arith)
take_past (x ∷ xs) ys (suc n) h =
    ap (λ t. x ∷ t) (take_past xs ys n (omega arith) ∙ ap (λ k. xs ++ take k ys) (omega arith))

take_within {ℓ} :
    {A : Type ℓ} (xs ys : List A) (n : ℕ) → n < length xs → take n (xs ++ ys) ≡ take n xs
take_within [] ys n h = elim h [ ]
take_within (x ∷ xs) ys zero h = refl
take_within (x ∷ xs) ys (suc n) h = ap (λ t. x ∷ t) (take_within xs ys n (omega arith))

not_leb : (a b : ℕ) → leb a b ≡ false → b < a
not_leb a b h = ground arith

module _ ⦃b : Bincode⦄ where
  -- the bytes that appending the entries one by one leaves in the file
  abbrev pub log_bytes : List WalEntry → Bytes
  log_bytes [] = []
  log_bytes (e ∷ es) = serialize e ++ log_bytes es

  -- every entry's length fits the header
  abbrev pub Fits : List WalEntry → Type 0
  Fits [] = Unit
  Fits (e ∷ es) = (entry_header_size + length (payload e) < size_limit) × Fits es

  -- the number of entries that lie whole in the first `n` bytes
  abbrev pub whole : ℕ → List WalEntry → ℕ
  whole n [] = 0
  whole n (e ∷ es) =
      let more = whole (n - length (serialize e)) es in
      if leb (length (serialize e)) n then suc more else 0

  pub length-serialize :
      (e : WalEntry) → length (serialize e) ≡ entry_header_size + length (payload e)
  unfolding serialize
  length-serialize e = omega arith

  whole_tail :
      (e : WalEntry) (es : List WalEntry) (k f : ℕ)
      → leb (length (serialize e)) k ≡ true
      → whole k (e ∷ es) < suc f
      → whole (k - length (serialize e)) es < f
  whole_tail e es k f t h = ground arith

  -- that many entries take that many bytes at least
  whole-le : (es : List WalEntry) (k : ℕ) → whole k es ≤ length (take k (log_bytes es))
  whole-le [] k = omega arith
  whole-le (e ∷ es) k = ground (
    arith,
    whole-le es (k - length (serialize e)),
    length-serialize e,
    length-take k (serialize e ++ log_bytes es),
    length-take (k - length (serialize e)) (log_bytes es),
    length-append (serialize e) (log_bytes es),
  )

module _ ⦃p : Platform⦄ ⦃b : Bincode⦄ where
  -- the entries applied in order, with the count of those that were accepted
  abbrev pub apply_all : Database → ℕ → List WalEntry → Replay
  apply_all d n [] = replayed d n
  apply_all d n (e ∷ es) = apply_all (apply_entry d e).0 (count_if (apply_entry d e).1 n) es

  -- one entry of the loop
  replay_step :
      (f : ℕ) (e : WalEntry) (rest : Bytes) (d : Database) (n : ℕ)
      → entry_header_size + length (payload e) < size_limit
      → replay_loop (suc f) (serialize e ++ rest) d n
        ≡ replay_loop f rest (apply_entry d e).0 (count_if (apply_entry d e).1 n)
  unfolding replay_loop serialize
  replay_step f e rest d n h =
      rw (read_frame-whole (entry_type e) (payload e) rest h, replay_loop)
        (rw (deserialize-payload e))

  replay_stop :
      (f : ℕ) (buf : Bytes) (d : Database) (n : ℕ)
      → read_frame buf ≡ Frame.stop
      → replay_loop f buf d n ≡ replayed d n
  unfolding replay_loop
  replay_stop zero buf d n h = refl
  replay_stop (suc f) buf d n h = rw (h, replay_loop)

  torn_stop :
      (e : WalEntry) (k : ℕ)
      → entry_header_size + length (payload e) < size_limit
      → k < length (serialize e)
      → read_frame (take k (serialize e)) ≡ Frame.stop
  torn_stop e k fits h =
      unfold serialize in
      read_frame-torn (entry_type e) (payload e) k fits (omega (arith, length-serialize e))

  replay_loop-take :
      (es : List WalEntry) (k f n : ℕ) (d : Database)
      → Fits es
      → whole k es < f
      → replay_loop f (take k (log_bytes es)) d n ≡ apply_all d n (take (whole k es) es)
  replay_loop-take [] zero f n d fits h = replay_stop f [] d n (unfold read_frame in refl)
  replay_loop-take [] (suc k) f n d fits h = replay_stop f [] d n (unfold read_frame in refl)
  replay_loop-take (e ∷ es) k zero n d fits h = elim h [ ]
  replay_loop-take (e ∷ es) k (suc f) n d fits h =
      elim (Bool-cases (leb (length (serialize e)) k)) [
        | inl t ↦ rw t (
            rw (take_past (serialize e) (log_bytes es) k (leb→le _ _ t)) (
              replay_step f e (take (k - length (serialize e)) (log_bytes es)) d n fits.0
              ∙ replay_loop-take es (k - length (serialize e)) f _ _ fits.1
                  (whole_tail e es k f t h)))
        | inr t ↦ rw t (
            rw (take_within (serialize e) (log_bytes es) k (not_leb _ _ t))
              (replay_stop (suc f) _ d n (torn_stop e k fits.0 (not_leb _ _ t))))
      ]

  -- Of a log that was cut off at any byte the replay applies, in their order, exactly the entries
  -- that were written whole, and does not panic: each entry's length must fit the 32 bits of its
  -- header.
  pub replay-take :
      (es : List WalEntry) (k : ℕ) (d : Database)
      → Fits es
      → replay (take k (log_bytes es)) d ≡ apply_all d 0 (take (whole k es) es)
  unfolding replay
  replay-take es k d fits = replay_loop-take es k _ 0 d fits (omega (arith, whole-le es k))
