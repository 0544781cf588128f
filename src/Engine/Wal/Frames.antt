-- ===== src/Engine/Wal/Frames.antt =====
-- The bytes of an entry are read back as that entry, and a part of them as none.
use srrdb.Prelude.{
  ℕ, zero, suc, ◌+◌, ◌-◌, ◌%◌, ◌^◌, ◌<◌, ◌≡◌, refl, some, [], ◌∷◌, ◌++◌, arith, ap, sym, ◌∙◌,
  length, take, append-nil, length-append, take_prefix, drop_prefix, length-take,
}
use srrdb.Std.Text.{Text}
use srrdb.Std.Bytes.{u32_read}
use srrdb.Std.Bincode.{Codec}
use srrdb.Engine.Wal.{
  Bytes, Bincode, WalEntry, entry_type, frame_bytes, Frame, cut, read_frame, payload, read_text,
  read_named, read_drop_index, deserialize, entry_header_size,
}

read_all : {A : Type 0} (c : Codec A) (a : A) → c.deserialize (c.serialize a) ≡ some a
read_all c a = ap c.deserialize (sym (append-nil (c.serialize a))) ∙ c.read_back a []

module _ ⦃b : Bincode⦄ where
  read_text-back :
      (s : Text) (rest : Bytes) → read_text (b.text.serialize s ++ rest) ≡ some (s, rest)
  read_text-back s rest =
      rw (b.text.read_back s rest, read_text) (rw (drop_prefix (b.text.serialize s) rest))

  read_named-back {ℓ} :
      {A : Type 0} {B : Type ℓ} (c : Codec A) (make : Text → A → B) (s : Text) (a : A)
      → read_named c make (b.text.serialize s ++ c.serialize a) ≡ some (make s a)
  read_named-back c make s a = rw (read_text-back s (c.serialize a), read_named) (rw (read_all c a))

  -- The payload of an entry is read back under its type.
  pub deserialize-payload : (e : WalEntry) → deserialize (entry_type e) (payload e) ≡ some (some e)
  unfolding deserialize payload
  deserialize-payload (WalEntry.create_table name columns) =
      rw (read_named-back b.columns WalEntry.create_table name columns)
  deserialize-payload (WalEntry.drop_table name) = rw (read_all b.text name)
  deserialize-payload (WalEntry.insert_rows name rows) =
      rw (read_named-back b.rows WalEntry.insert_rows name rows)
  deserialize-payload (WalEntry.table_snapshot name rows) =
      rw (read_named-back b.rows WalEntry.table_snapshot name rows)
  deserialize-payload (WalEntry.create_index db def) =
      rw (read_named-back b.index_def WalEntry.create_index db def)
  deserialize-payload (WalEntry.drop_index db index table) =
      rw (read_text-back db (b.text.serialize index ++ b.text.serialize table), read_drop_index)
        (rw (read_named-back b.text (λ i t. WalEntry.drop_index db i t) index table))
  deserialize-payload WalEntry.checkpoint = refl

-- the sizes for which the `u32` of the header does not wrap
abbrev pub size_limit : ℕ
size_limit = 2 ^ 32

-- the head of a frame, the length of which is `n`
cut_exact :
    (x y z u v w type n : ℕ) (data_bytes rest : Bytes)
    → n ≡ entry_header_size + length data_bytes
    → cut (x ∷ y ∷ z ∷ u ∷ v ∷ w ∷ type ∷ (data_bytes ++ rest)) n type
      ≡ Frame.entry type data_bytes rest
cut_exact x y z u v w type n data_bytes rest h =
    let e : n ≡ suc (suc (suc (suc (suc (suc (suc (length data_bytes))))))) = omega arith in
    let k : suc (suc (suc (suc (suc (suc (suc (length data_bytes))))))) - 7 ≡ length data_bytes =
      omega arith in
    rw e (
      ground (
        arith,
        k,
        length-append data_bytes rest,
        take_prefix data_bytes rest,
        drop_prefix data_bytes rest,
      ))

-- The bytes of an entry, with anything behind them, are found whole.
pub read_frame-whole :
    (type : ℕ) (data_bytes rest : Bytes)
    → entry_header_size + length data_bytes < size_limit
    → read_frame (frame_bytes type data_bytes ++ rest) ≡ Frame.entry type data_bytes rest
unfolding read_frame
read_frame-whole type data_bytes rest h =
    cut_exact _ _ _ _ _ _ type _ data_bytes rest
      (omega (arith, u32_read ((entry_header_size + length data_bytes) % 2 ^ 32) (omega arith)))

-- A part of the bytes of an entry is no entry: the replay stops there.
pub read_frame-torn :
    (type : ℕ) (data_bytes : Bytes) (n : ℕ)
    → entry_header_size + length data_bytes < size_limit
    → n < entry_header_size + length data_bytes
    → read_frame (take n (frame_bytes type data_bytes)) ≡ Frame.stop
unfolding read_frame
read_frame-torn type data_bytes zero h k = refl
read_frame-torn type data_bytes (suc zero) h k = refl
read_frame-torn type data_bytes (suc (suc zero)) h k = refl
read_frame-torn type data_bytes (suc (suc (suc zero))) h k = refl
read_frame-torn type data_bytes (suc (suc (suc (suc zero)))) h k = refl
read_frame-torn type data_bytes (suc (suc (suc (suc (suc zero))))) h k = refl
read_frame-torn type data_bytes (suc (suc (suc (suc (suc (suc zero)))))) h k = refl
read_frame-torn type data_bytes (suc (suc (suc (suc (suc (suc (suc n))))))) h k =
    ground
      (arith, length-take n data_bytes, u32_read ((entry_header_size + length data_bytes) % 2 ^ 32))
