-- ===== src/Client/RoundTrip.antt =====
-- The client reads the rows and the columns that the server writes.
use srrdb.Prelude.{
  ℕ, zero, suc, ◌+◌, ◌%◌, ◌<◌, ◌≤◌, ◌^◌, ◌≡◌, refl, ◌∙◌, ap, sym, false, nat_beq, ltb, unwrap_or,
  Bool-cases, inl, inr, Option, none, some, List, [], ◌∷◌, ◌++◌, arith, length, take, drop,
  length-append, append_assoc, take_prefix, drop_prefix,
}
use srrdb.Std.Bytes.{u16_le, u32_le, u64_le}
use srrdb.Std.Decimal.{int_to_string, nat_to_string}
use srrdb.Std.Platform.{Platform}
use srrdb.Engine.Types.{Value, null, int, uint, float, double, bytes, text}
use srrdb.Protocol.Lenenc.{lenenc_int, lenenc_int_bytes, lenenc_int-lenenc_int_bytes, lenenc_str}
use srrdb.Protocol.Resultset.{value_payload, text_row_payload}
use srrdb.Client.{parse_lenenc_int, parse_lenenc_str, split_str, in_front, row_loop, parse_row}

pub parse_lenenc_int-bytes :
    (v : ℕ) (rest : List ℕ)
    → v < 2 ^ 64
    → parse_lenenc_int (lenenc_int_bytes v ++ rest) ≡ some (v, length (lenenc_int_bytes v))
unfolding parse_lenenc_int lenenc_int lenenc_int_bytes
parse_lenenc_int-bytes v rest h = ground (arith, lenenc_int-lenenc_int_bytes v rest)

drop_add : (head s rest : List ℕ) → drop (length head + length s) (head ++ (s ++ rest)) ≡ rest
drop_add [] s rest = ground (arith, drop_prefix s rest)
drop_add (b ∷ head) s rest =
    let e : suc (length head) + length s ≡ suc (length head + length s) = omega arith in
    rw e (drop_add head s rest)

-- a string behind its length's bytes, which say that length
split_str-behind :
    (head s rest : List ℕ)
    → parse_lenenc_int (head ++ (s ++ rest)) ≡ some (length s, length head)
    → split_str (head ++ (s ++ rest)) ≡ some (s, rest)
unfolding split_str parse_lenenc_str
split_str-behind head s rest e =
    rw (e, split_str, parse_lenenc_str)
      (rw (drop_prefix head (s ++ rest)) (
        rw (take_prefix s rest) (
          ground
            (arith, length-append head (s ++ rest), length-append s rest, drop_add head s rest))))

-- A string written with its length is read back, with what follows it left.
pub split_str-lenenc_str :
    (s rest : List ℕ) → length s < 2 ^ 64 → split_str (lenenc_str s ++ rest) ≡ some (s, rest)
unfolding lenenc_str
split_str-lenenc_str s rest h = rw (append_assoc (lenenc_int_bytes (length s)) s rest) (
    split_str-behind (lenenc_int_bytes (length s)) s rest
      (parse_lenenc_int-bytes (length s) (s ++ rest) h))

-- a written string is not empty and does not begin like a null
lenenc_int_bytes-head :
    (v : ℕ) → (b : ℕ) × (t : List ℕ) × (lenenc_int_bytes v ≡ b ∷ t) × (nat_beq b 0xFB ≡ false)
unfolding lenenc_int_bytes
lenenc_int_bytes-head v = elim (Bool-cases (ltb v 251)) [
  | inl h ↦ (v, [], rw h refl, ground (arith, h))
  | inr h ↦ elim (Bool-cases (ltb v 65536)) [
    | inl k ↦ (0xFC, u16_le (v % 2 ^ 16), rw h (rw k refl), refl)
    | inr k ↦ elim (Bool-cases (ltb v 16777216)) [
      | inl j ↦ (0xFD, take 3 (u32_le (v % 2 ^ 32)), rw h (rw k (rw j refl)), refl)
      | inr j ↦ (0xFE, u64_le v, rw h (rw k (rw j refl)), refl)
    ]
  ]
]

row_loop-some :
    (b : ℕ) (t s rest : List ℕ) (f : ℕ)
    → nat_beq b 0xFB ≡ false
    → split_str (b ∷ t) ≡ some (s, rest)
    → row_loop (suc f) (b ∷ t) ≡ in_front (some s) (row_loop f rest)
unfolding row_loop
row_loop-some b t s rest f h e = rw h (rw e refl)

row_loop-str :
    (s rest : List ℕ) (f : ℕ)
    → length s < 2 ^ 64
    → row_loop (suc f) (lenenc_str s ++ rest) ≡ in_front (some s) (row_loop f rest)
row_loop-str s rest f h =
    let (b, t, e, k) = lenenc_int_bytes-head (length s) in
    let e' : lenenc_str s ++ rest ≡ b ∷ ((t ++ s) ++ rest) =
      unfold lenenc_str in ap (λ x. (x ++ s) ++ rest) e in
    ap (row_loop (suc f)) e'
    ∙ row_loop-some b _ s rest f k (ap split_str (sym e') ∙ split_str-lenenc_str s rest h)

str-length : (s : List ℕ) → 0 < length (lenenc_str s)
unfolding lenenc_str
str-length s = let (b, t, e, k) = lenenc_int_bytes-head (length s) in rw e (omega arith)

module _ ⦃p : Platform⦄ where
  -- the bytes that the client is shown of a value
  unfoldable pub shown : Value → Option (List ℕ)
  shown null = none
  shown (int v) = some (int_to_string v)
  shown (uint v) = some (nat_to_string v)
  shown (float v) = some (p.f32_to_string v)
  shown (double v) = some (p.f64_to_string v)
  shown (bytes b) = some b
  shown (text s) = some s

  abbrev pub all_shown : List Value → List (Option (List ℕ))
  all_shown [] = []
  all_shown (v ∷ values) = shown v ∷ all_shown values

  -- every value's text has a length of 64 bits
  abbrev pub AreSized : List Value → Type 0
  AreSized [] = Unit
  AreSized (v ∷ values) = (length (unwrap_or (shown v) []) < 2 ^ 64) × AreSized values

  row_loop-value :
      (v : Value) (rest : List ℕ) (f : ℕ)
      → length (unwrap_or (shown v) []) < 2 ^ 64
      → row_loop (suc f) (value_payload v ++ rest) ≡ in_front (shown v) (row_loop f rest)
  unfolding shown value_payload
  row_loop-value null rest f h = unfold row_loop in refl
  row_loop-value (int v) rest f h = row_loop-str _ rest f h
  row_loop-value (uint v) rest f h = row_loop-str _ rest f h
  row_loop-value (float v) rest f h = row_loop-str _ rest f h
  row_loop-value (double v) rest f h = row_loop-str _ rest f h
  row_loop-value (bytes b) rest f h = row_loop-str _ rest f h
  row_loop-value (text s) rest f h = row_loop-str _ rest f h

  row_loop-text_row_payload :
      (values : List Value) (f : ℕ)
      → AreSized values
      → length values ≤ f
      → row_loop f (text_row_payload values) ≡ some (all_shown values)
  unfolding text_row_payload row_loop
  row_loop-text_row_payload [] zero s h = refl
  row_loop-text_row_payload [] (suc f) s h = refl
  row_loop-text_row_payload (v ∷ values) zero s h = absurd (omega arith)
  row_loop-text_row_payload (v ∷ values) (suc f) s h =
      row_loop-value v (text_row_payload values) f s.0
      ∙ rw (row_loop-text_row_payload values f s.1 (omega arith)) refl

  value_payload-length : (v : Value) → 0 < length (value_payload v)
  unfolding value_payload lenenc_str
  value_payload-length null = omega arith
  value_payload-length (int v) = str-length (int_to_string v)
  value_payload-length (uint v) = str-length (nat_to_string v)
  value_payload-length (float v) = str-length (p.f32_to_string v)
  value_payload-length (double v) = str-length (p.f64_to_string v)
  value_payload-length (bytes b) = str-length b
  value_payload-length (text s) = str-length s

  text_row_payload-length : (values : List Value) → length values ≤ length (text_row_payload values)
  unfolding text_row_payload
  text_row_payload-length [] = omega arith
  text_row_payload-length (v ∷ values) = omega (
    arith,
    text_row_payload-length values,
    value_payload-length v,
    length-append (value_payload v) (text_row_payload values),
  )

  -- The client reads from a row's packet the text of each of its values, and nothing for a null:
  -- each text's length must fit 64 bits.
  pub parse_row-text_row_payload :
      (values : List Value)
      → AreSized values
      → parse_row (text_row_payload values) ≡ some (all_shown values)
  unfolding parse_row
  parse_row-text_row_payload values s =
      row_loop-text_row_payload values _ s (text_row_payload-length values)
