-- ===== src/Engine/Like/Sound.antt =====
-- What the matcher of LIKE accepts in an ASCII text is a match.
use srrdb.Prelude.{
  ℕ, ◌≡◌, ◌≢◌, refl, ◌⊎◌, Bool, true, Option, none, some, [], ◌∷◌, arith, if◌then◌else◌, inl, inr,
  Bool-cases, nat_beq,
}
use srrdb.Std.Text.{Text}
use srrdb.Engine.Like.{scan, at_boundary, like_match_impl}
use srrdb.Engine.Like.Spec.{
  CharMatches, end_char, any_none_char, any_more_char, one_char, same_char, Matches, IsAscii, end,
  any_none, any_more, one, same,
}

-- where `scan` succeeds, the matcher did so at once or further on
scan_cases :
    (f : Text → Option Bool) (c : ℕ) (t : Text)
    → scan f (c ∷ t) ≡ some true
    → (f (c ∷ t) ≡ some true) ⊎ (scan f t ≡ some true)
unfolding scan
scan_cases f c t h = ground arith

-- a suffix that `scan` finds is a match after some bytes
scan_sound :
    (f : Text → Option Bool) (p : Text) (w : ℕ)
    → w ≡ b'%'
    → ((s : Text) → f s ≡ some true → Matches s p)
    → (t : Text) → scan f t ≡ some true
    → Matches t (w ∷ p)
scan_sound f p w e sound [] h = unfold scan in ground arith
scan_sound f p w e sound (c ∷ t) h = elim (scan_cases f c t h) [
  | inl now ↦ any_none w e (sound (c ∷ t) now)
  | inr later ↦ any_more w c e (scan_sound f p w e sound t later)
]

any_all : (t : Text) (w : ℕ) → w ≡ b'%' → Matches t (w ∷ [])
any_all [] w e = any_none w e end
any_all (c ∷ t) w e = any_more w c e (any_all t w e)

-- one step of the matcher: the cases in which it accepts
abbrev Accepts : Text → ℕ → Text → Type 0
Accepts [] w p = ⊥
Accepts (c ∷ t) w p = ((w ≡ b'_') ⊎ (c ≡ w)) × (like_match_impl t p ≡ some true)

like_cases :
    (t : Text) (w : ℕ) (p : Text)
    → like_match_impl t (w ∷ p) ≡ some true
    → ((w ≡ b'%') × (p ≡ []))
      ⊎ ((w ≡ b'%')
          × (scan (λ s. if at_boundary p then like_match_impl s p else none) t ≡ some true))
      ⊎ ((w ≢ b'%') × Accepts t w p)
unfolding like_match_impl
like_cases [] w [] h = ground arith
like_cases [] w (q ∷ p) h = ground arith
like_cases (c ∷ t) w [] h = ground arith
like_cases (c ∷ t) w (q ∷ p) h = ground arith

guarded : (b : Bool) (o : Option Bool) → (if b then o else none) ≡ some true → o ≡ some true
guarded b o h = ground arith

accept_sound :
    (t : Text) (w : ℕ) (p : Text)
    → w ≢ b'%'
    → Accepts t w p
    → ((s : Text) → like_match_impl s p ≡ some true → Matches s p)
    → Matches t (w ∷ p)
accept_sound [] w p n a sound = absurd a
accept_sound (c ∷ t) w p n (inl e, h) sound = one w c e (sound t h)
accept_sound (c ∷ t) w p n (inr e, h) sound = same w c e n (sound t h)

-- byte by byte, on any text
accepted-Matches : (t p : Text) → like_match_impl t p ≡ some true → Matches t p
accepted-Matches [] [] h = end
accepted-Matches (c ∷ t) [] h = unfold like_match_impl in ground arith
accepted-Matches t (w ∷ p) h = elim (like_cases t w p h) [
  | inl (e, nil) ↦ rw nil (any_all t w e)
  | inr (inl (e, found)) ↦
      scan_sound _ p w e (λ s m. accepted-Matches s p (guarded (at_boundary p) _ m)) t found
  | inr (inr (n, a)) ↦ accept_sound t w p n a (λ s m. accepted-Matches s p m)
]

-- in an ASCII text the bytes are the characters
by_characters : {t p : Text} → Matches t p → IsAscii t → CharMatches t p
by_characters end a = end_char
by_characters (any_none w e m) a = any_none_char w e (by_characters m a)
by_characters (any_more w c e m) a = any_more_char w (c ∷ []) e a.0 refl (by_characters m a.1)
by_characters (one w c e m) a = one_char w (c ∷ []) e a.0 refl (by_characters m a.1)
by_characters (same w c e n m) a = elim (Bool-cases (nat_beq w b'_')) [
  | inl q ↦ one_char w (c ∷ []) (ground (arith, q)) a.0 refl (by_characters m a.1)
  | inr q ↦ same_char w c e n (λ r. ground (arith, q, r)) (by_characters m a.1)
]

-- Whatever the matcher of LIKE accepts in an ASCII text is a match by characters, where a percent
-- sign stands for any run of characters and an underscore for one.
pub like_sound : (t p : Text) → IsAscii t → like_match_impl t p ≡ some true → CharMatches t p
like_sound t p a h = by_characters (accepted-Matches t p h) a
