-- ===== src/Engine/Like/Flaws.antt =====
-- Where the matcher of LIKE departs from what LIKE means.
use srrdb.Prelude.{ℕ, ◌≡◌, ◌≢◌, refl, false, none, some, [], ◌∷◌, ◌++◌, ◌≤◌, ◌<◌, arith}
use srrdb.Std.Text.{Text}
use srrdb.Engine.Like.{scan, like_match_impl}
use srrdb.Engine.Like.Spec.{Matches, end, any_none, same}

-- texts with no wildcard
abbrev pub IsLiteral : Text → Type 0
IsLiteral [] = Unit
IsLiteral (c ∷ t) = (c ≢ b'%') × (c ≢ b'_') × IsLiteral t

literal_match : (t : Text) → IsLiteral t → Matches t (t ++ b'%' ∷ b'%' ∷ [])
literal_match [] l = any_none b'%' refl (any_none b'%' refl end)
literal_match (c ∷ t) l = same c c refl l.0 (literal_match t l.2)

literal_misses : (t : Text) → IsLiteral t → like_match_impl t (t ++ b'%' ∷ b'%' ∷ []) ≡ some false
unfolding like_match_impl scan
literal_misses [] l = refl
literal_misses (c ∷ t) l = ground (arith, literal_misses t l.2)

-- A text with no wildcard matches itself followed by two percent signs, and the matcher says that
-- it does not: after a `%` that is not last it asks for one byte more.
pub like_double_percent :
    (t : Text)
    → IsLiteral t
    → Matches t (t ++ b'%' ∷ b'%' ∷ []) × (like_match_impl t (t ++ b'%' ∷ b'%' ∷ []) ≡ some false)
like_double_percent t l = (literal_match t l, literal_misses t l)

-- Where a text begins with a character of several bytes, a `%` before a plain ASCII byte panics:
-- the second slice begins inside the character.
pub like_panics :
    (b k q : ℕ) (t p : Text)
    → 192 ≤ b
    → 128 ≤ k
    → k < 192
    → q < 128
    → q ≢ b'%'
    → q ≢ b'_'
    → like_match_impl (b ∷ k ∷ t) (b'%' ∷ q ∷ p) ≡ none
unfolding like_match_impl scan
like_panics b k q t p hb hk hk' hq n m = ground arith
