-- ===== src/Engine/Wal/Appended.antt =====
-- A log that was not cut off, and one that grows by an entry.
use srrdb.Prelude.{
  ℕ, suc, ◌-◌, ◌<◌, ◌≡◌, refl, sym, ap, ◌∙◌, true, List, [], ◌∷◌, ◌++◌, arith, length, take,
  length-append, leb, append-nil, append_assoc,
}
use srrdb.Std.Platform.{Platform}
use srrdb.Engine.Wal.{
  Bincode, WalEntry, serialize, Database, apply_entry, count_if, replayed, replay,
}
use srrdb.Engine.Wal.Frames.{size_limit}
use srrdb.Engine.Wal.Recovery.{log_bytes, Fits, whole, apply_all, length-serialize, replay-take}

pub take-length {ℓ} : {A : Type ℓ} (xs : List A) → take (length xs) xs ≡ xs
take-length [] = refl
take-length (x ∷ xs) = ap (λ t. x ∷ t) (take-length xs)

module _ ⦃b : Bincode⦄ where
  pub log_bytes-append :
      (es : List WalEntry) (e : WalEntry) → log_bytes (es ++ (e ∷ [])) ≡ log_bytes es ++ serialize e
  log_bytes-append [] e = append-nil (serialize e)
  log_bytes-append (e' ∷ es) e =
      ap (λ l. serialize e' ++ l) (log_bytes-append es e)
      ∙ sym (append_assoc (serialize e') (log_bytes es) (serialize e))

  whole-length : (es : List WalEntry) → whole (length (log_bytes es)) es ≡ length es
  whole-length [] = refl
  whole-length (e ∷ es) =
      let n = length (serialize e) in
      let q : length (serialize e ++ log_bytes es) - n ≡ length (log_bytes es) =
        omega (arith, length-append (serialize e) (log_bytes es)) in
      let t : leb n (length (serialize e ++ log_bytes es)) ≡ true =
        ground (arith, length-append (serialize e) (log_bytes es)) in
      rw t (rw q (ap (λ k. suc k) (whole-length es)))

  -- the entries of a log of fewer than 2^32 bytes fit their headers
  log_bytes-Fits : (es : List WalEntry) → length (log_bytes es) < size_limit → Fits es
  log_bytes-Fits [] h = tt
  log_bytes-Fits (e ∷ es) h = (
    omega (arith, h, length-serialize e, length-append (serialize e) (log_bytes es)),
    log_bytes-Fits es (omega (arith, h, length-append (serialize e) (log_bytes es))),
  )

module _ ⦃p : Platform⦄ ⦃b : Bincode⦄ where
  -- the state that entries lead to
  abbrev pub final : Database → List WalEntry → Database
  final d [] = d
  final d (e ∷ es) = final (apply_entry d e).0 es

  pub final-append :
      (d : Database) (es : List WalEntry) (e : WalEntry)
      → final d (es ++ (e ∷ [])) ≡ (apply_entry (final d es) e).0
  final-append d [] e = refl
  final-append d (e' ∷ es) e = final-append (apply_entry d e').0 es e

  apply_all-final :
      (d : Database) (n : ℕ) (es : List WalEntry)
      → (m : ℕ) × (apply_all d n es ≡ replayed (final d es) m)
  apply_all-final d n [] = (n, refl)
  apply_all-final d n (e ∷ es) =
      apply_all-final (apply_entry d e).0 (count_if (apply_entry d e).1 n) es

  -- a log of fewer than 2^32 bytes is replayed whole
  pub replay-final :
      (es : List WalEntry) (d : Database)
      → length (log_bytes es) < size_limit
      → (m : ℕ) × (replay (log_bytes es) d ≡ replayed (final d es) m)
  replay-final es d h =
      let (m, e) = apply_all-final d 0 es in
      let cut = replay-take es (length (log_bytes es)) d (log_bytes-Fits es h) in
      (
        m,
        ap (λ l. replay l d) (sym (take-length (log_bytes es)))
            ∙ cut
            ∙ ap (λ k. apply_all d 0 (take k es)) (whole-length es)
            ∙ ap (λ l. apply_all d 0 l) (take-length es)
            ∙ e,
      )
