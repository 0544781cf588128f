-- ===== src/Engine/Like.antt =====
-- src/engine/executor.rs: the matcher of LIKE. It walks bytes, and slices the text at byte offsets;
-- a slice that begins inside a character panics, which is `none` here.
pub mod Spec
pub mod Sound
pub mod Complete
pub mod Flaws
use srrdb.Prelude.{
  ℕ, Bool, true, false, ◌||◌, Option, none, some, List, [], ◌∷◌, nat_beq, ltb, leb, if◌then◌else◌,
  is_empty,
}
use srrdb.Std.Text.{Text}
use srrdb.Std.Platform.{Platform}
use srrdb.Engine.Types.{Value, null, text}

-- Whether a byte begins a character of UTF-8.
abbrev pub is_boundary : ℕ → Bool
is_boundary b = ltb b 128 || leb 192 b

-- `while ti < t.len()`: the matcher on each suffix in turn, the shortest prefix first
unfoldable pub scan : (Text → Option Bool) → Text → Option Bool
scan matches [] = some false
scan matches (c ∷ t) =
    let here = matches (c ∷ t) in
    let rest = scan matches t in
    if is_boundary c
    then elim here [ none ↦ none | some true ↦ some true | some false ↦ rest ]
    else none

-- a byte slice of a text is taken at a character, or at the end
abbrev pub at_boundary : Text → Bool
at_boundary [] = true
at_boundary (c ∷ t) = is_boundary c

-- `like_match_impl`, on what is left of the text and of the pattern
unfoldable pub like_match_impl : Text → Text → Option Bool
like_match_impl t [] = some (is_empty t)
like_match_impl t (p ∷ pattern) =
    let found = scan (λ s. if at_boundary pattern then like_match_impl s pattern else none) t in
    let step : Option Bool = elim t [
      | [] ↦ some false
      | c ∷ r ↦
          let rest = like_match_impl r pattern in
          if nat_beq p b'_' || nat_beq c p then rest else some false
    ] in
    if nat_beq p b'%' then (if is_empty pattern then some true else found) else step

module _ ⦃u : Platform⦄ where
  -- `like_match`: texts only, and without regard to case
  unfoldable pub like_match : Value → Value → Option Bool
  like_match (text t) (text pattern) = like_match_impl (u.to_uppercase t) (u.to_uppercase pattern)
  like_match _ _ = some false
