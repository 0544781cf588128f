-- ===== src/Tests/LikeExamples.antt =====
-- The theorems on LIKE and on the order of values, on short texts.
use srrdb.Prelude.{◌≡◌, refl, true, false, none, some, [], ◌∷◌, ◌++◌, arith, is_some, inl, IsLawful}
use srrdb.Std.Text.{codes}
use srrdb.Engine.Like.{like_match_impl, scan}
use srrdb.Engine.Like.Spec.{CharMatches, Matches, end, any_none, any_more, one}
use srrdb.Engine.Like.Sound.{like_sound}
use srrdb.Engine.Like.Complete.{like_total, like_complete}
use srrdb.Engine.Like.Flaws.{like_double_percent, like_panics}
use srrdb.Engine.Types.{value_ord_cmp}
use srrdb.Engine.Types.Order.{value_ord_cmp-IsLawful}
use srrdb.Tests.Ascii.{ascii}

like_sound_example : CharMatches (codes "ab") (codes "%b")
unfolding like_match_impl scan
like_sound_example = like_sound (codes "ab") (codes "%b") (omega arith, (omega arith, tt)) refl

like_total_example : is_some (like_match_impl (codes "ab") (codes "%%b")) ≡ true
like_total_example =
    like_total (codes "ab") (codes "%%b") (omega arith, (omega arith, tt))
      (omega arith, (omega arith, (omega arith, tt)))

like_complete_example : like_match_impl (codes "ab") (codes "_%") ≡ some true
like_complete_example =
    like_complete {t = codes "ab"} {p = codes "_%"} (omega arith, (omega arith, tt))
      (omega arith, (omega arith, tt)) (inl (λ e. ground (arith, e)), tt)
      (one b'_' b'a' refl (any_more b'%' b'b' refl (any_none b'%' refl end)))

like_double_percent_example :
    Matches (codes "ab") (codes "ab" ++ b'%' ∷ b'%' ∷ [])
    × (like_match_impl (codes "ab") (codes "ab" ++ b'%' ∷ b'%' ∷ []) ≡ some false)
like_double_percent_example = like_double_percent (codes "ab") (
  (λ e. ground (arith, e)),
  (λ e. ground (arith, e)),
  ((λ e. ground (arith, e)), (λ e. ground (arith, e)), tt),
)

like_panics_example : like_match_impl (195 ∷ 169 ∷ []) (b'%' ∷ b'a' ∷ []) ≡ none
like_panics_example =
    like_panics 195 169 b'a' [] [] (omega arith) (omega arith) (omega arith) (omega arith)
      (λ e. ground (arith, e)) (λ e. ground (arith, e))

value_ord_cmp_example : IsLawful value_ord_cmp
value_ord_cmp_example = value_ord_cmp-IsLawful ⦃p = ascii⦄
