-- ===== src/Engine/Like/Spec.antt =====
-- What LIKE means, by characters and by bytes: `%` stands for any run of them, `_` for one.
use srrdb.Prelude.{ℕ, ◌++◌, ◌≤◌, ◌≡◌, ◌≢◌, ◌⊎◌, [], ◌∷◌, ◌<◌}
use srrdb.Std.Text.{Text}

-- by bytes
pub data Matches : Text → Text → Type 0 where
  end : Matches [] []
  any_none : {t p : Text} (w : ℕ) → w ≡ b'%' → Matches t p → Matches t (w ∷ p)
  any_more : {t p : Text} (w c : ℕ) → w ≡ b'%' → Matches t (w ∷ p) → Matches (c ∷ t) (w ∷ p)
  one : {t p : Text} (w c : ℕ) → w ≡ b'_' → Matches t p → Matches (c ∷ t) (w ∷ p)
  same : {t p : Text} (w c : ℕ) → c ≡ w → w ≢ b'%' → Matches t p → Matches (c ∷ t) (w ∷ p)

-- texts without bytes above 127
abbrev pub IsAscii : Text → Type 0
IsAscii [] = Unit
IsAscii (c ∷ t) = (c < 128) × IsAscii t

-- patterns without two `%` in a row
abbrev pub IsPlain : Text → Type 0
IsPlain [] = Unit
IsPlain (w ∷ []) = Unit
IsPlain (w ∷ q ∷ p) = ((w ≢ b'%') ⊎ (q ≢ b'%')) × IsPlain (q ∷ p)

abbrev IsContinuation : ℕ → Type 0
IsContinuation k = (128 ≤ k) × (k < 192)

-- the bytes of one character in UTF-8
abbrev pub IsChar : Text → Type 0
IsChar (c ∷ []) = c < 128
IsChar (c ∷ k ∷ []) = (192 ≤ c) × (c < 224) × IsContinuation k
IsChar (c ∷ k ∷ l ∷ []) = (224 ≤ c) × (c < 240) × IsContinuation k × IsContinuation l
IsChar (c ∷ k ∷ l ∷ m ∷ []) =
    (240 ≤ c) × (c < 248) × IsContinuation k × IsContinuation l × IsContinuation m
IsChar _ = ⊥

-- by characters: a wildcard stands for whole characters of the text
pub data CharMatches : Text → Text → Type 0 where
  end_char : CharMatches [] []
  any_none_char : {t p : Text} (w : ℕ) → w ≡ b'%' → CharMatches t p → CharMatches t (w ∷ p)
  any_more_char :
      {t t' p : Text} (w : ℕ) (ch : Text)
      → w ≡ b'%'
      → IsChar ch
      → t' ≡ ch ++ t
      → CharMatches t (w ∷ p)
      → CharMatches t' (w ∷ p)
  one_char :
      {t t' p : Text} (w : ℕ) (ch : Text)
      → w ≡ b'_'
      → IsChar ch
      → t' ≡ ch ++ t
      → CharMatches t p
      → CharMatches t' (w ∷ p)
  same_char :
      {t p : Text} (w c : ℕ)
      → c ≡ w
      → w ≢ b'%'
      → w ≢ b'_'
      → CharMatches t p
      → CharMatches (c ∷ t) (w ∷ p)
