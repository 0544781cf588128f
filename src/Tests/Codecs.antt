-- ===== src/Tests/Codecs.antt =====
-- A serializer that meets what `Codec` asks: a number is one element, a sum begins with its side,
-- a list with its length.
use srrdb.Prelude.{
  ℕ, zero, suc, ◌+◌, ◌≤◌, ◌≡◌, refl, sym, Option, none, some, ◌⊎◌, inl, inr, List, [], ◌∷◌, ◌++◌,
  arith, length, length-append, append_assoc, Option-cases,
}
use srrdb.Std.Bincode.{Codec}

pub record Coding (A : Type 0) : Type 0 where
  pub enc : A → List ℕ
  pub dec : List ℕ → Option (A × List ℕ)
  pub dec_enc : (a : A) (rest : List ℕ) → dec (enc a ++ rest) ≡ some (a, rest)
  pub shrinks :
      (b : List ℕ) (a : A) (rest : List ℕ)
      → dec b ≡ some (a, rest)
      → length (enc a) + length rest ≤ length b

abbrev nat_dec : List ℕ → Option (ℕ × List ℕ)
nat_dec [] = none
nat_dec (n ∷ rest) = some (n, rest)

pub nat_shrinks :
    (b : List ℕ) (a : ℕ) (rest : List ℕ)
    → nat_dec b ≡ some (a, rest)
    → length (a ∷ []) + length rest ≤ length b
nat_shrinks [] a rest h = absurd (ground (arith, h))
nat_shrinks (n ∷ b) a rest h = let e : b ≡ rest = ground (arith, h) in rw e (omega arith)

abbrev pub nat_coding : Coding ℕ
nat_coding = record {
  enc = λ n. n ∷ [];
  dec = nat_dec;
  dec_enc = λ n rest. refl;
  shrinks = nat_shrinks;
}

abbrev pub unit_dec : List ℕ → Option (Unit {0} × List ℕ)
unit_dec b = some (tt, b)

pub unit_shrinks :
    (b : List ℕ) (a : Unit {0}) (rest : List ℕ)
    → unit_dec b ≡ some (a, rest)
    → 0 + length rest ≤ length b
unit_shrinks b a rest h = let e : b ≡ rest = ground (arith, h) in rw e (omega arith)

abbrev pub unit_coding : Coding (Unit {0})
unit_coding = record {
  enc = λ u. [];
  dec = unit_dec;
  dec_enc = λ u rest. refl;
  shrinks = unit_shrinks;
}

module _ {A B : Type 0} (ca : Coding A) (cb : Coding B) where
  abbrev pair_rest : A → Option (B × List ℕ) → Option ((A × B) × List ℕ)
  pair_rest a none = none
  pair_rest a (some (b, rest)) = some ((a, b), rest)

  abbrev pair_next : Option (A × List ℕ) → Option ((A × B) × List ℕ)
  pair_next none = none
  pair_next (some (a, rest)) = pair_rest a (cb.dec rest)

  pub pair_dec_enc :
      (x : A × B) (rest : List ℕ)
      → pair_next (ca.dec ((ca.enc x.0 ++ cb.enc x.1) ++ rest)) ≡ some (x, rest)
  pair_dec_enc (a, b) rest =
      rw (append_assoc (ca.enc a) (cb.enc b) rest)
        (rw (ca.dec_enc a (cb.enc b ++ rest)) (rw (cb.dec_enc b rest) refl))

  pub pair_shrinks :
      (bs : List ℕ) (x : A × B) (rest : List ℕ)
      → pair_next (ca.dec bs) ≡ some (x, rest)
      → length (ca.enc x.0 ++ cb.enc x.1) + length rest ≤ length bs
  pair_shrinks bs (a, b) rest h = elim (Option-cases (ca.dec bs)) [
    | inl e ↦ absurd (ground (arith, h, e))
    | inr ((a', r), e) ↦ elim (Option-cases (cb.dec r)) [
      | inl k ↦ absurd (ground (arith, h, e, k))
      | inr ((b', r'), k) ↦ ground (
        arith,
        h,
        e,
        k,
        ca.shrinks bs a' r e,
        cb.shrinks r b' r' k,
        length-append (ca.enc a) (cb.enc b),
      )
    ]
  ]

  abbrev pub pair_coding : Coding (A × B)
  pair_coding = record {
    enc = λ x. ca.enc x.0 ++ cb.enc x.1;
    dec = λ b. pair_next (ca.dec b);
    dec_enc = pair_dec_enc;
    shrinks = pair_shrinks;
  }

  abbrev sum_enc : A ⊎ B → List ℕ
  sum_enc (inl a) = 0 ∷ ca.enc a
  sum_enc (inr b) = 1 ∷ cb.enc b

  abbrev left : Option (A × List ℕ) → Option ((A ⊎ B) × List ℕ)
  left none = none
  left (some (a, rest)) = some (inl a, rest)

  abbrev right : Option (B × List ℕ) → Option ((A ⊎ B) × List ℕ)
  right none = none
  right (some (b, rest)) = some (inr b, rest)

  abbrev sum_dec : List ℕ → Option ((A ⊎ B) × List ℕ)
  sum_dec [] = none
  sum_dec (zero ∷ bs) = left (ca.dec bs)
  sum_dec (suc n ∷ bs) = right (cb.dec bs)

  pub sum_dec_enc : (x : A ⊎ B) (rest : List ℕ) → sum_dec (sum_enc x ++ rest) ≡ some (x, rest)
  sum_dec_enc (inl a) rest = rw (ca.dec_enc a rest) refl
  sum_dec_enc (inr b) rest = rw (cb.dec_enc b rest) refl

  pub sum_shrinks :
      (bs : List ℕ) (x : A ⊎ B) (rest : List ℕ)
      → sum_dec bs ≡ some (x, rest)
      → length (sum_enc x) + length rest ≤ length bs
  sum_shrinks [] x rest h = absurd (ground (arith, h))
  sum_shrinks (zero ∷ bs) x rest h = elim (Option-cases (ca.dec bs)) [
    | inl e ↦ absurd (ground (arith, h, e))
    | inr ((y, r), e) ↦ ground (arith, h, e, ca.shrinks bs y r e)
  ]
  sum_shrinks (suc n ∷ bs) x rest h = elim (Option-cases (cb.dec bs)) [
    | inl e ↦ absurd (ground (arith, h, e))
    | inr ((y, r), e) ↦ ground (arith, h, e, cb.shrinks bs y r e)
  ]

  abbrev pub sum_coding : Coding (A ⊎ B)
  sum_coding = record { enc = sum_enc; dec = sum_dec; dec_enc = sum_dec_enc; shrinks = sum_shrinks }

-- a type that another's values stand for
module _ {A B : Type 0} (ca : Coding A) (from : A → B) (to : B → A)
    (back : (b : B) → from (to b) ≡ b)
    (forth : (a : A) → length (ca.enc (to (from a))) ≤ length (ca.enc a)) where
  abbrev map_found : Option (A × List ℕ) → Option (B × List ℕ)
  map_found none = none
  map_found (some (a, rest)) = some (from a, rest)

  pub map_dec_enc :
      (b : B) (rest : List ℕ) → map_found (ca.dec (ca.enc (to b) ++ rest)) ≡ some (b, rest)
  map_dec_enc b rest = rw (ca.dec_enc (to b) rest) (rw (back b) refl)

  pub map_shrinks :
      (bs : List ℕ) (b : B) (rest : List ℕ)
      → map_found (ca.dec bs) ≡ some (b, rest)
      → length (ca.enc (to b)) + length rest ≤ length bs
  map_shrinks bs b rest h = elim (Option-cases (ca.dec bs)) [
    | inl e ↦ absurd (ground (arith, h, e))
    | inr ((a, r), e) ↦ ground (arith, h, e, ca.shrinks bs a r e, forth a)
  ]

  abbrev pub map_coding : Coding B
  map_coding = record {
    enc = λ b. ca.enc (to b);
    dec = λ bs. map_found (ca.dec bs);
    dec_enc = map_dec_enc;
    shrinks = map_shrinks;
  }

module _ {A : Type 0} (ca : Coding A) where
  abbrev list_enc_all : List A → List ℕ
  list_enc_all [] = []
  list_enc_all (a ∷ as_list) = ca.enc a ++ list_enc_all as_list

  abbrev list_cons : A → Option (List A × List ℕ) → Option (List A × List ℕ)
  list_cons a none = none
  list_cons a (some (l, rest)) = some (a ∷ l, rest)

  unfoldable list_dec_all : ℕ → List ℕ → Option (List A × List ℕ)
  list_dec_all zero bs = some ([], bs)
  list_dec_all (suc n) bs = elim (ca.dec bs) [
    | none ↦ none
    | some (a, rest) ↦ list_cons a (list_dec_all n rest)
  ]

  list_dec_enc_all :
      (l : List A) (rest : List ℕ)
      → list_dec_all (length l) (list_enc_all l ++ rest) ≡ some (l, rest)
  unfolding list_dec_all
  list_dec_enc_all [] rest = refl
  list_dec_enc_all (a ∷ l) rest =
      rw (append_assoc (ca.enc a) (list_enc_all l) rest)
        (rw (ca.dec_enc a (list_enc_all l ++ rest)) (rw (list_dec_enc_all l rest) refl))

  list_shrinks_all :
      (n : ℕ) (bs : List ℕ) (l : List A) (rest : List ℕ)
      → list_dec_all n bs ≡ some (l, rest)
      → length (list_enc_all l) + length rest ≤ length bs
  unfolding list_dec_all
  list_shrinks_all zero bs l rest h =
      let e : [] ≡ l = ground (arith, h) in
      let k : bs ≡ rest = ground (arith, h) in rw (sym e) (rw k (omega arith))
  list_shrinks_all (suc n) bs l rest h = elim (Option-cases (ca.dec bs)) [
    | inl e ↦ absurd (ground (arith, h, e))
    | inr ((a, r), e) ↦ elim (Option-cases (list_dec_all n r)) [
      | inl k ↦ absurd (ground (arith, h, e, k))
      | inr ((l', r'), k) ↦ ground (
        arith,
        h,
        e,
        k,
        ca.shrinks bs a r e,
        list_shrinks_all n r l' r' k,
        length-append (ca.enc a) (list_enc_all l'),
      )
    ]
  ]

  abbrev pub list_enc : List A → List ℕ
  list_enc l = length l ∷ list_enc_all l

  unfoldable pub list_dec : List ℕ → Option (List A × List ℕ)
  unfolding list_dec_all
  list_dec [] = none
  list_dec (n ∷ bs) = list_dec_all n bs

  pub list_dec_enc : (l : List A) (rest : List ℕ) → list_dec (list_enc l ++ rest) ≡ some (l, rest)
  unfolding list_dec
  list_dec_enc l rest = list_dec_enc_all l rest

  pub list_shrinks :
      (bs : List ℕ) (l : List A) (rest : List ℕ)
      → list_dec bs ≡ some (l, rest)
      → length (list_enc l) + length rest ≤ length bs
  unfolding list_dec
  list_shrinks [] l rest h = absurd (ground (arith, h))
  list_shrinks (n ∷ bs) l rest h = omega (arith, list_shrinks_all n bs l rest h)

  abbrev pub list_coding : Coding (List A)
  list_coding = record {
    enc = list_enc;
    dec = list_dec;
    dec_enc = list_dec_enc;
    shrinks = list_shrinks;
  }

-- the serializer of a coding
module _ {A : Type 0} (ca : Coding A) where
  abbrev pub value_of : Option (A × List ℕ) → Option A
  value_of none = none
  value_of (some (a, rest)) = some a

  pub codec_read_back : (a : A) (rest : List ℕ) → value_of (ca.dec (ca.enc a ++ rest)) ≡ some a
  codec_read_back a rest = rw (ca.dec_enc a rest) refl

  pub codec_no_longer :
      (b : List ℕ) (a : A) → value_of (ca.dec b) ≡ some a → length (ca.enc a) ≤ length b
  codec_no_longer b a h = elim (Option-cases (ca.dec b)) [
    | inl e ↦ absurd (ground (arith, h, e))
    | inr ((x, r), e) ↦ ground (arith, h, e, ca.shrinks b x r e)
  ]

  abbrev pub codec_of : Codec A
  codec_of = record {
    serialize = ca.enc;
    deserialize = λ b. value_of (ca.dec b);
    read_back = codec_read_back;
    no_longer = codec_no_longer;
  }
