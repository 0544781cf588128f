-- ===== src/Client/Table/Aligned.antt =====
-- The lines of a printed table are equally long.
use Prim.Native.Nat.{max}
use srrdb.Prelude.{
  ℕ, zero, suc, ◌+◌, ◌-◌, ◌≤◌, ◌≡◌, refl, ap, true, false, Option, none, some, List, [], ◌∷◌, ◌++◌,
  arith, length, map, leb, replicate, Bool-cases, inl, inr,
}
use srrdb.Std.Text.{Text, codes}
use srrdb.Std.Platform.{Platform}
use srrdb.Client.Table.{
  chars, pad, border_cells, row_cells, widen, widen_all, text_or_mark, display,
}

pub chars-append : (s t : Text) → chars (s ++ t) ≡ chars s + chars t
unfolding chars
chars-append [] t = omega arith
chars-append (c ∷ s) t = ground (arith, chars-append s t)

chars-replicate : (n c : ℕ) → leb 128 c ≡ false → chars (replicate n c) ≡ n
unfolding chars
chars-replicate zero c h = refl
chars-replicate (suc n) c h = rw h (ap (λ k. suc k) (chars-replicate n c h))

chars-length : (s : Text) → chars s ≤ length s
unfolding chars
chars-length [] = omega arith
chars-length (c ∷ s) = ground (arith, chars-length s)

pub chars-one : (c : ℕ) → leb 128 c ≡ false → chars (c ∷ []) ≡ 1
unfolding chars
chars-one c h = rw h refl

chars-two : (c d : ℕ) → leb 128 c ≡ false → leb 128 d ≡ false → chars (c ∷ d ∷ []) ≡ 2
unfolding chars
chars-two c d h k = rw h (rw k refl)

-- the characters of a line of these widths
unfoldable pub line_width : List ℕ → ℕ
line_width [] = 1
line_width (w ∷ widths) = w + 3 + line_width widths

chars-pad : (s : Text) (w : ℕ) → chars s ≤ w → chars (pad s w) ≡ w
unfolding pad
chars-pad s w h = omega (
  arith,
  h,
  chars-append s (replicate (w - chars s) b' '),
  chars-replicate (w - chars s) b' ' refl,
)

pub border_cells-chars : (widths : List ℕ) → 1 + chars (border_cells widths) ≡ line_width widths
unfolding border_cells line_width
border_cells-chars [] = unfold chars in refl
border_cells-chars (w ∷ widths) =
    let tail = codes "-+" ++ border_cells widths in
    omega (
      arith,
      border_cells-chars widths,
      chars-append (codes "-") (replicate w b'-' ++ tail),
      chars-append (replicate w b'-') tail,
      chars-append (codes "-+") (border_cells widths),
      chars-replicate w b'-' refl,
      chars-two b'-' b'+' refl refl,
      chars-one b'-' refl,
    )

-- every text fits its column
abbrev pub Fit : List Text → List ℕ → Type 0
Fit [] [] = Unit
Fit (s ∷ values) (w ∷ widths) = (chars s ≤ w) × Fit values widths
Fit _ _ = ⊥

pub row_cells-chars :
    (values : List Text) (widths : List ℕ)
    → Fit values widths
    → 1 + chars (row_cells values widths) ≡ line_width widths
unfolding row_cells line_width
row_cells-chars [] [] f = unfold chars in refl
row_cells-chars [] (w ∷ widths) f = elim f [ ]
row_cells-chars (s ∷ values) [] f = elim f [ ]
row_cells-chars (s ∷ values) (w ∷ widths) f =
    let tail = codes " |" ++ row_cells values widths in
    omega (
      arith,
      row_cells-chars values widths f.1,
      chars-append (codes " ") (pad s w ++ tail),
      chars-append (pad s w) tail,
      chars-append (codes " |") (row_cells values widths),
      chars-pad s w f.0,
      chars-two b' ' b'|' refl refl,
      chars-one b' ' refl,
    )

-- widths that only grew
abbrev pub Grew : List ℕ → List ℕ → Type 0
Grew [] [] = Unit
Grew (w ∷ widths) (w' ∷ widths') = (w ≤ w') × Grew widths widths'
Grew _ _ = ⊥

pub Grew-refl : (widths : List ℕ) → Grew widths widths
Grew-refl [] = tt
Grew-refl (w ∷ widths) = (omega arith, Grew-refl widths)

pub Grew-length : (ws vs : List ℕ) → Grew ws vs → length ws ≡ length vs
Grew-length [] [] g = refl
Grew-length [] (v ∷ vs) g = elim g [ ]
Grew-length (w ∷ ws) [] g = elim g [ ]
Grew-length (w ∷ ws) (v ∷ vs) g = ap (λ n. suc n) (Grew-length ws vs g.1)

pub Fit-Grew : (values : List Text) (ws vs : List ℕ) → Fit values ws → Grew ws vs → Fit values vs
Fit-Grew [] [] [] f g = tt
Fit-Grew [] [] (v ∷ vs) f g = elim g [ ]
Fit-Grew [] (w ∷ ws) vs f g = elim f [ ]
Fit-Grew (s ∷ values) [] vs f g = elim f [ ]
Fit-Grew (s ∷ values) (w ∷ ws) [] f g = elim g [ ]
Fit-Grew (s ∷ values) (w ∷ ws) (v ∷ vs) f g =
    (omega (arith, f.0, g.0), Fit-Grew values ws vs f.1 g.1)

pub Grew-widen :
    (ws vs : List ℕ) (row : List (Option (List ℕ))) → Grew ws vs → Grew ws (widen vs row)
unfolding widen
Grew-widen [] [] row g = tt
Grew-widen [] (v ∷ vs) row g = elim g [ ]
Grew-widen (w ∷ ws) [] row g = elim g [ ]
Grew-widen (w ∷ ws) (v ∷ vs) [] g = g
Grew-widen (w ∷ ws) (v ∷ vs) (val ∷ row) g = (omega (arith, g.0), Grew-widen ws vs row g.1)

pub Grew-widen_all :
    (ws vs : List ℕ) (rows : List (List (Option (List ℕ))))
    → Grew ws vs
    → Grew ws (widen_all vs rows)
unfolding widen_all
Grew-widen_all ws vs [] g = g
Grew-widen_all ws vs (row ∷ rows) g = Grew-widen_all ws (widen vs row) rows (Grew-widen ws vs row g)

module _ ⦃p : Platform⦄ where
  text_or_mark-chars : (s : List ℕ) → p.is_utf8 [] ≡ true → chars (text_or_mark s) ≤ length s
  text_or_mark-chars [] h = rw h (unfold chars in omega arith)
  text_or_mark-chars (c ∷ s) h = elim (Bool-cases (p.is_utf8 (c ∷ s))) [
    | inl u ↦ rw u (chars-length (c ∷ s))
    | inr u ↦ rw u (omega (arith, chars-length (codes "?")))
  ]

  display-chars :
      (val : Option (List ℕ)) (w : ℕ)
      → p.is_utf8 [] ≡ true
      → chars (display val) ≤ max w (elim val [ none ↦ 4 | some v ↦ length v ])
  display-chars none w h = omega (arith, chars-length (codes "NULL"))
  display-chars (some v) w h = omega (arith, text_or_mark-chars v h)

  pub widen-Fit :
      (ws : List ℕ) (row : List (Option (List ℕ)))
      → p.is_utf8 [] ≡ true
      → length row ≡ length ws
      → Fit (map display row) (widen ws row)
  unfolding widen
  widen-Fit [] [] h e = tt
  widen-Fit [] (val ∷ row) h e = absurd (omega (arith, e))
  widen-Fit (w ∷ ws) [] h e = absurd (omega (arith, e))
  widen-Fit (w ∷ ws) (val ∷ row) h e =
      (display-chars val w h, widen-Fit ws row h (omega (arith, e)))

  pub header-Fit :
      (columns : List (List ℕ))
      → p.is_utf8 [] ≡ true
      → Fit (map text_or_mark columns) (map (λ name. length (text_or_mark name)) columns)
  header-Fit [] h = tt
  header-Fit (name ∷ columns) h = (chars-length (text_or_mark name), header-Fit columns h)
