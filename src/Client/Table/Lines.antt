-- ===== src/Client/Table/Lines.antt =====
-- The lines of a printed table are equally long.
use srrdb.Prelude.{
  ℕ, ◌≡◌, refl, sym, subst, true, Option, List, [], ◌∷◌, ◌++◌, arith, length, length-map, map,
}
use srrdb.Std.Text.{Text, codes}
use srrdb.Std.Platform.{Platform}
use srrdb.Client.Table.{
  chars, border_cells, print_border, row_cells, print_row, widen, widen_all, text_or_mark, display,
  print_rows, col_widths, table_lines,
}
use srrdb.Client.Table.Aligned.{
  chars-append, chars-one, line_width, border_cells-chars, Fit, row_cells-chars, Grew-refl,
  Grew-length, Fit-Grew, Grew-widen, Grew-widen_all, widen-Fit, header-Fit,
}

-- every row has so many values
abbrev pub AreFull : ℕ → List (List (Option (List ℕ))) → Type 0
AreFull n [] = Unit
AreFull n (row ∷ rows) = (length row ≡ n) × AreFull n rows

-- every line has so many characters
abbrev pub AllWide : ℕ → List Text → Type 0
AllWide n [] = Unit
AllWide n (line ∷ lines) = (chars line ≡ n) × AllWide n lines

AllWide-append : (n : ℕ) (xs ys : List Text) → AllWide n xs → AllWide n ys → AllWide n (xs ++ ys)
AllWide-append n [] ys h k = k
AllWide-append n (x ∷ xs) ys h k = (h.0, AllWide-append n xs ys h.1 k)

print_border-chars : (widths : List ℕ) → chars (print_border widths) ≡ line_width widths
unfolding print_border
print_border-chars widths = omega (
  arith,
  border_cells-chars widths,
  chars-append (codes "+") (border_cells widths),
  chars-one b'+' refl,
)

print_row-chars :
    (values : List Text) (widths : List ℕ)
    → Fit values widths
    → chars (print_row values widths) ≡ line_width widths
unfolding print_row
print_row-chars values widths f = omega (
  arith,
  row_cells-chars values widths f,
  chars-append (codes "|") (row_cells values widths),
  chars-one b'|' refl,
)

module _ ⦃p : Platform⦄ where
  -- rows that fit columns
  abbrev RowsFit : List (List (Option (List ℕ))) → List ℕ → Type 0
  RowsFit [] widths = Unit
  RowsFit (row ∷ rows) widths = Fit (map display row) widths × RowsFit rows widths

  widen_all-RowsFit :
      (ws : List ℕ) (rows : List (List (Option (List ℕ))))
      → p.is_utf8 [] ≡ true
      → AreFull (length ws) rows
      → RowsFit rows (widen_all ws rows)
  unfolding widen_all
  widen_all-RowsFit ws [] h full = tt
  widen_all-RowsFit ws (row ∷ rows) h full =
      let ws' = widen ws row in
      let same : length ws ≡ length ws' =
        Grew-length ws ws' (Grew-widen ws ws row (Grew-refl ws)) in
      (
        Fit-Grew (map display row) ws' (widen_all ws' rows) (widen-Fit ws row h full.0)
            (Grew-widen_all ws' ws' rows (Grew-refl ws')),
        widen_all-RowsFit ws' rows h (subst (λ n. AreFull n rows) same full.1),
      )

  print_rows-AllWide :
      (rows : List (List (Option (List ℕ)))) (widths : List ℕ)
      → RowsFit rows widths
      → AllWide (line_width widths) (print_rows rows widths)
  unfolding print_rows
  print_rows-AllWide [] widths f = tt
  print_rows-AllWide (row ∷ rows) widths f =
      (print_row-chars (map display row) widths f.0, print_rows-AllWide rows widths f.1)

  -- The lines of a printed table, its borders, its header and its rows, have equally many
  -- characters, where each row has as many values as there are columns: the empty text counts as
  -- UTF-8.
  pub table_lines-AllWide :
      (columns : List (List ℕ)) (rows : List (List (Option (List ℕ))))
      → p.is_utf8 [] ≡ true
      → AreFull (length columns) rows
      → AllWide (line_width (col_widths columns rows)) (table_lines columns rows)
  unfolding table_lines col_widths
  table_lines-AllWide columns rows h full =
      let heads = map (λ name. length (text_or_mark name)) columns in
      let widths = widen_all heads rows in
      let full' : AreFull (length heads) rows =
        subst (λ n. AreFull n rows) (sym (length-map (λ name. length (text_or_mark name)) columns))
          full in
      let border = print_border-chars widths in
      (
        border,
        (
          print_row-chars (map text_or_mark columns) widths (
              Fit-Grew (map text_or_mark columns) heads widths (header-Fit columns h)
                (Grew-widen_all heads heads rows (Grew-refl heads))),
          (
            border,
            AllWide-append _ (print_rows rows widths) _
                (print_rows-AllWide rows widths (widen_all-RowsFit heads rows h full'))
                (border, tt),
          ),
        ),
      )
