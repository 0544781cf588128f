-- ===== src/Std/Decimal.antt =====
-- `i64` and `u64` in decimal: `to_string` and `str::parse`.
use srrdb.Prelude.{
  ℕ, zero, suc, ◌+◌, ◌-◌, ◌*◌, ◌/◌, ◌%◌, ◌^◌, ◌<◌, ◌&&◌, Option, none, some, [], ◌∷◌, ltb, leb,
  nat_beq, if◌then◌else◌,
}
use srrdb.Prelude.Int.{ℤ, pos, negsuc}
use srrdb.Std.Text.{Text}

-- the digits of `n`, on fuel above `n`, before what follows
digits : ℕ → ℕ → Text → Text
digits zero n rest = rest
digits (suc f) n rest =
    let more = digits f (n / 10) ((n % 10 + 48) ∷ rest) in
    if ltb n 10 then (n + 48) ∷ rest else more

-- `u64::to_string`
unfoldable pub nat_to_string : ℕ → Text
unfolding digits
nat_to_string n = digits (suc n) n []

-- `i64::to_string`
unfoldable pub int_to_string : ℤ → Text
unfolding nat_to_string
int_to_string (pos n) = nat_to_string n
int_to_string (negsuc n) = b'-' ∷ nat_to_string (suc n)

-- the value of a run of digits, after `acc`
unfoldable pub parse_digits : ℕ → Text → Option ℕ
parse_digits acc [] = some acc
parse_digits acc (c ∷ s) =
    let rest = parse_digits (acc * 10 + (c - 48)) s in
    if leb b'0' c && leb c b'9' then rest else none

-- at least one digit
unfoldable pub parse_nat : Text → Option ℕ
unfolding parse_digits
parse_nat [] = none
parse_nat (c ∷ s) = parse_digits 0 (c ∷ s)

abbrev pub i64_min_abs : ℕ
i64_min_abs = 2 ^ 63

-- a magnitude with its sign, where it fits `i64`
abbrev to_pos : Option ℕ → Option ℤ
to_pos none = none
to_pos (some n) = if ltb n i64_min_abs then some (pos n) else none

abbrev to_neg : Option ℕ → Option ℤ
to_neg none = none
to_neg (some zero) = some (pos 0)
to_neg (some (suc n)) = if ltb n i64_min_abs then some (negsuc n) else none

-- `str::parse::<i64>`: a sign, then at least one digit, in range
unfoldable pub parse_i64 : Text → Option ℤ
unfolding parse_nat
parse_i64 [] = none
parse_i64 (c ∷ s) =
    if nat_beq c b'-'
    then to_neg (parse_nat s)
    else if nat_beq c b'+'
    then to_pos (parse_nat s)
    else to_pos (parse_nat (c ∷ s))

-- `str::parse::<usize>`
unfoldable pub parse_u64 : Text → Option ℕ
unfolding parse_nat
parse_u64 [] = none
parse_u64 (c ∷ s) =
    let r = parse_nat (if nat_beq c b'+' then s else c ∷ s) in
    elim r [ none ↦ none | some n ↦ if ltb n (2 ^ 64) then some n else none ]

-- the values of `i64`
abbrev pub IsI64 : ℤ → Type 0
IsI64 (pos n) = n < i64_min_abs
IsI64 (negsuc n) = n < i64_min_abs
