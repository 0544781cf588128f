-- ===== src/Tests/Ascii.antt =====
-- A platform on which texts are ASCII and a float's bits are its value.
use srrdb.Prelude.{
  ℕ, ◌+◌, ◌≡◌, refl, true, none, some, [], ◌∷◌, ◌++◌, if◌then◌else◌, arith, ap, nat_beq, compare,
  compare-IsLawful, ◌∙◌,
}
use srrdb.Prelude.Int.{ℤ, pos, negsuc}
use srrdb.Std.Text.{Text, ascii_lower, ascii_lowercase}
use srrdb.Std.Platform.{Platform}

lower_twice : (c : ℕ) → ascii_lower (ascii_lower c) ≡ ascii_lower c
lower_twice c = ground arith

pub lowercase_twice : (s : Text) → ascii_lowercase (ascii_lowercase s) ≡ ascii_lowercase s
lowercase_twice [] = refl
lowercase_twice (c ∷ s) =
    ap (λ x. x ∷ ascii_lowercase (ascii_lowercase s)) (lower_twice c)
    ∙ ap (λ x. ascii_lower c ∷ x) (lowercase_twice s)

abbrev trim_start : Text → Text
trim_start [] = []
trim_start (c ∷ s) = if nat_beq c b' ' then trim_start s else c ∷ s

abbrev reverse : Text → Text
reverse [] = []
reverse (c ∷ s) = reverse s ++ (c ∷ [])

abbrev magnitude : ℤ → ℕ
magnitude (pos n) = n
magnitude (negsuc n) = n + 1

instance abbrev pub ascii : Platform
ascii = record {
  to_lowercase = ascii_lowercase;
  to_uppercase = λ s. s;
  sort_unordered = λ _. none;
  trim = λ s. reverse (trim_start (reverse (trim_start s)));
  lowercase_idem = lowercase_twice;
  is_utf8 = λ s. true;
  utf8_lossy = λ s. s;
  f32_total_cmp = compare;
  f64_total_cmp = compare;
  f32_total_lawful = compare-IsLawful;
  f64_total_lawful = compare-IsLawful;
  f32_partial_cmp = λ a b. some (compare a b);
  f64_partial_cmp = λ a b. some (compare a b);
  f32_eq = nat_beq;
  f32_near = nat_beq;
  f64_near = nat_beq;
  f32_of_int = magnitude;
  f64_of_int = magnitude;
  f32_succ = λ n. n + 1;
  f64_succ = λ n. n + 1;
  f32_to_string = λ n. n ∷ [];
  f64_to_string = λ n. n ∷ [];
  parse_f64 = λ s. none;
  debug_expr = λ e. [];
  debug_op = λ o. [];
}
