-- ===== src/Protocol/Frame.antt =====
-- src/protocol/frame.rs: packets on a stream of bytes.
use srrdb.Prelude.{
  ℕ, ◌/◌, ◌%◌, ◌^◌, ◌≡◌, ◌<◌, Option, none, some, List, [], ◌∷◌, ◌++◌, arith, if◌then◌else◌, length,
  take, drop, ltb, length-append, take_prefix, drop_prefix,
}
use srrdb.Std.Bytes.{u32_of}

pub record Packet : Type 0 where
  pub seq_id : ℕ
  pub payload : List ℕ

-- the three bytes of the length, `as u32`, and the sequence number
abbrev pub packet_header : ℕ → ℕ → List ℕ
packet_header len seq_id =
    let n = len % 2 ^ 32 in (n % 256) ∷ (n / 256 % 256) ∷ (n / 65536 % 256) ∷ seq_id ∷ []

-- `write_packet` and `write_payload`: what is appended to the stream
unfoldable pub write_packet : ℕ → List ℕ → List ℕ
write_packet seq_id payload = packet_header (length payload) seq_id ++ payload

-- `read_packet`: `none` where the stream ends first
unfoldable pub read_packet : List ℕ → Option (Packet × List ℕ)
read_packet (a ∷ b ∷ c ∷ seq_id ∷ rest) =
    let len = u32_of a b c 0 in
    if ltb (length rest) len
    then none
    else some (record { seq_id = seq_id; payload = take len rest }, drop len rest)
read_packet _ = none

-- A packet shorter than 2^24 bytes is read back whole, and what follows it is left on the stream.
pub read-write_packet :
    (seq_id : ℕ) (payload rest : List ℕ)
    → length payload < 2 ^ 24
    → read_packet (write_packet seq_id payload ++ rest)
      ≡ some (record { seq_id = seq_id; payload = payload }, rest)
unfolding read_packet write_packet
read-write_packet seq_id payload rest h =
    let n : length payload % 2 ^ 32 ≡ length payload = omega arith in
    let e : u32_of (length payload % 2 ^ 32 % 256) (length payload % 2 ^ 32 / 256 % 256)
          (length payload % 2 ^ 32 / 65536 % 256) 0
        ≡ length payload =
      rw n (omega arith) in
    rw e (
      ground
        (arith, length-append payload rest, take_prefix payload rest, drop_prefix payload rest))
