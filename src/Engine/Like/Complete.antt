-- ===== src/Engine/Like/Complete.antt =====
-- On ASCII the matcher of LIKE returns, and accepts every match of a plain pattern.
use srrdb.Prelude.{
  ℕ, ◌≡◌, ◌≢◌, ◌⊎◌, refl, Bool, true, Option, none, some, [], ◌∷◌, ◌<◌, arith, if◌then◌else◌,
  is_some, inl, inr, sym, ◌∙◌,
}
use srrdb.Std.Text.{Text}
use srrdb.Engine.Like.{scan, at_boundary, like_match_impl}
use srrdb.Engine.Like.Spec.{Matches, end, any_none, any_more, one, same, IsAscii, IsPlain}

plain_next : (w q : ℕ) (p : Text) → w ≡ b'%' → IsPlain (w ∷ q ∷ p) → q ≢ b'%'
plain_next w q p e l = omega arith

IsPlain-tail : (w : ℕ) (p : Text) → IsPlain (w ∷ p) → IsPlain p
IsPlain-tail w [] l = tt
IsPlain-tail w (q ∷ p) l = l.1

scan_total :
    (f : Text → Option Bool)
    → ((s : Text) → IsAscii s → is_some (f s) ≡ true)
    → (t : Text) → IsAscii t
    → is_some (scan f t) ≡ true
unfolding scan
scan_total f total [] a = refl
scan_total f total (c ∷ t) a = ground (arith, total (c ∷ t), scan_total f total t)

at_boundary_ascii : (p : Text) → IsAscii p → at_boundary p ≡ true
at_boundary_ascii [] a = refl
at_boundary_ascii (c ∷ p) a = ground arith

guarded_total :
    (b : Bool) (o : Option Bool)
    → b ≡ true
    → is_some o ≡ true
    → is_some (if b then o else none) ≡ true
guarded_total b o h k = ground arith

tail-IsAscii : (c : ℕ) (r t : Text) → t ≡ c ∷ r → IsAscii t → IsAscii r
tail-IsAscii c r [] e a = absurd (cc)
tail-IsAscii c r (d ∷ s) e a = ground arith

-- one step of the matcher returns where its calls do
step_total :
    (t : Text) (w : ℕ) (p : Text)
    → ((c : ℕ) (r : Text) → t ≡ c ∷ r → is_some (like_match_impl r p) ≡ true)
    → is_some (scan (λ s. if at_boundary p then like_match_impl s p else none) t) ≡ true
    → is_some (like_match_impl t (w ∷ p)) ≡ true
unfolding like_match_impl
step_total [] w p rest found = ground arith
step_total (c ∷ r) w p rest found = ground (arith, rest c r refl)

-- On ASCII the matcher does not panic.
pub like_total : (t p : Text) → IsAscii t → IsAscii p → is_some (like_match_impl t p) ≡ true
unfolding like_match_impl
like_total t [] a b = refl
like_total t (w ∷ p) a b =
    let attempt : (s : Text)
        → IsAscii s
        → is_some (if at_boundary p then like_match_impl s p else none) ≡ true =
      λ s h. guarded_total (at_boundary p) _ (at_boundary_ascii p b.1) (like_total s p h b.1) in
    step_total t w p (λ c r e. like_total r p (tail-IsAscii c r t e a) b.1)
      (scan_total (λ s. if at_boundary p then like_match_impl s p else none) attempt t a)

-- `scan` at the first place where the matcher accepts
scan_here :
    (f : Text → Option Bool) (c : ℕ) (t : Text)
    → c < 128
    → f (c ∷ t) ≡ some true
    → scan f (c ∷ t) ≡ some true
unfolding scan
scan_here f c t a h = ground arith

scan_later :
    (f : Text → Option Bool) (c : ℕ) (t : Text)
    → c < 128
    → is_some (f (c ∷ t)) ≡ true
    → scan f t ≡ some true
    → scan f (c ∷ t) ≡ some true
unfolding scan
scan_later f c t a total h = ground arith

-- after `%` the rest of the pattern is tried at each byte
like_percent :
    (t : Text) (w q : ℕ) (p : Text)
    → w ≡ b'%'
    → like_match_impl t (w ∷ q ∷ p)
      ≡ scan (λ s. if at_boundary (q ∷ p) then like_match_impl s (q ∷ p) else none) t
unfolding like_match_impl
like_percent t w q p e = rw e

-- `%` takes nothing
like_percent_none :
    (t : Text) (w q : ℕ) (p : Text)
    → w ≡ b'%'
    → q ≢ b'%'
    → q < 128
    → IsAscii t
    → like_match_impl t (q ∷ p) ≡ some true
    → like_match_impl t (w ∷ q ∷ p) ≡ some true
unfolding like_match_impl
like_percent_none [] w q p e n b a h = ground arith
like_percent_none (c ∷ t) w q p e n b a h =
    let f : Text → Option Bool =
      λ s. if at_boundary (q ∷ p) then like_match_impl s (q ∷ p) else none in
    ground (arith, scan_here f c t a.0)

-- `%` takes one byte more
like_percent_more :
    (t : Text) (w c q : ℕ) (p : Text)
    → w ≡ b'%'
    → IsAscii (c ∷ t)
    → IsAscii (q ∷ p)
    → like_match_impl t (w ∷ q ∷ p) ≡ some true
    → like_match_impl (c ∷ t) (w ∷ q ∷ p) ≡ some true
like_percent_more t w c q p e a b h =
    let total =
      guarded_total (at_boundary (q ∷ p)) _ (at_boundary_ascii (q ∷ p) b)
        (like_total (c ∷ t) (q ∷ p) a b) in
    like_percent (c ∷ t) w q p e ∙ scan_later _ c t a.0 total (sym (like_percent t w q p e) ∙ h)

like_one :
    (t : Text) (w c : ℕ) (p : Text)
    → (w ≡ b'_') ⊎ (c ≡ w)
    → w ≢ b'%'
    → like_match_impl t p ≡ some true
    → like_match_impl (c ∷ t) (w ∷ p) ≡ some true
unfolding like_match_impl
like_one t w c p d n h = ground arith

-- Every match of a plain ASCII pattern in an ASCII text is accepted.
pub like_complete :
    {t p : Text} → IsAscii t → IsAscii p → IsPlain p → Matches t p → like_match_impl t p ≡ some true
like_complete a b l end = unfold like_match_impl in refl
like_complete a b l (any_none {t = t} {p = []} w e m) = unfold like_match_impl in ground arith
like_complete a b l (any_none {t = t} {p = q ∷ p} w e m) =
    like_percent_none t w q p e (plain_next w q p e l) b.1.0 a (like_complete a b.1 l.1 m)
like_complete a b l (any_more {t = t} {p = []} w c e m) = unfold like_match_impl in ground arith
like_complete a b l (any_more {t = t} {p = q ∷ p} w c e m) =
    like_percent_more t w c q p e a b.1 (like_complete a.1 b l m)
like_complete a b l (one {t = t} {p = p} w c e m) =
    like_one t w c p (inl e) (omega arith) (like_complete a.1 b.1 (IsPlain-tail w p l) m)
like_complete a b l (same {t = t} {p = p} w c e n m) =
    like_one t w c p (inr e) n (like_complete a.1 b.1 (IsPlain-tail w p l) m)
