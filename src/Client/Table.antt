-- ===== src/Client/Table.antt =====
-- src/client.rs: how a result is printed. Every printed line is a text without its newline.
pub mod Aligned
pub mod Lines
use srrdb.Prelude.{
  ℕ, zero, suc, ◌+◌, ◌-◌, ◌&&◌, Bool, true, false, Option, none, some, List, [], ◌∷◌, ◌++◌,
  if◌then◌else◌, length, map, leb, ltb, replicate, is_empty, nat_beq,
}
use Prim.Native.Nat.{max}
use srrdb.Std.Text.{Text, codes}
use srrdb.Std.Decimal.{nat_to_string}
use srrdb.Std.Platform.{Platform}
use srrdb.Client.Query.{QueryResult}

-- the number of characters of a UTF-8 text: the bytes that continue one are not counted
unfoldable pub chars : Text → ℕ
chars [] = 0
chars (c ∷ s) = let rest = chars s in if leb 128 c && ltb c 192 then rest else suc rest

-- `{:<width$}` counts characters
unfoldable pub pad : Text → ℕ → Text
pad s width = s ++ replicate (width - chars s) b' '

-- `print_border`
unfoldable pub border_cells : List ℕ → Text
border_cells [] = []
border_cells (w ∷ widths) = codes "-" ++ (replicate w b'-' ++ (codes "-+" ++ border_cells widths))

unfoldable pub print_border : List ℕ → Text
unfolding border_cells
print_border widths = codes "+" ++ border_cells widths

-- `print_row` with the separator `|`: a value past the widths is left out
unfoldable pub row_cells : List Text → List ℕ → Text
row_cells [] widths = []
row_cells (val ∷ values) [] = []
row_cells (val ∷ values) (w ∷ widths) =
    codes " " ++ (pad val w ++ (codes " |" ++ row_cells values widths))

unfoldable pub print_row : List Text → List ℕ → Text
unfolding row_cells
print_row values widths = codes "|" ++ row_cells values widths

-- the widths after one row: a NULL takes four; a value past the columns is passed over
unfoldable pub widen : List ℕ → List (Option (List ℕ)) → List ℕ
widen [] row = []
widen (w ∷ widths) [] = w ∷ widths
widen (w ∷ widths) (val ∷ row) =
    max w (elim val [ none ↦ 4 | some v ↦ length v ]) ∷ widen widths row

unfoldable pub widen_all : List ℕ → List (List (Option (List ℕ))) → List ℕ
unfolding widen
widen_all widths [] = widths
widen_all widths (row ∷ rows) = widen_all (widen widths row) rows

module _ ⦃p : Platform⦄ where
  -- `std::str::from_utf8(..).unwrap_or("?")`
  abbrev pub text_or_mark : List ℕ → Text
  text_or_mark v = if p.is_utf8 v then v else codes "?"

  abbrev pub display : Option (List ℕ) → Text
  display none = codes "NULL"
  display (some v) = text_or_mark v

  unfoldable pub print_rows : List (List (Option (List ℕ))) → List ℕ → List Text
  print_rows [] widths = []
  print_rows (row ∷ rows) widths = print_row (map display row) widths ∷ print_rows rows widths

  -- the widths of the columns
  unfoldable pub col_widths : List (List ℕ) → List (List (Option (List ℕ))) → List ℕ
  col_widths columns rows = widen_all (map (λ name. length (text_or_mark name)) columns) rows

  -- the lines of the table
  unfoldable pub table_lines : List (List ℕ) → List (List (Option (List ℕ))) → List Text
  table_lines columns rows =
      let widths = col_widths columns rows in
      print_border widths
      ∷ print_row (map text_or_mark columns) widths
      ∷ print_border widths
      ∷ (print_rows rows widths ++ (print_border widths ∷ []))

  -- `format_result`
  unfoldable pub format_result : QueryResult → List Text
  format_result (QueryResult.ok affected_rows last_insert_id) =
      (codes "Query OK, "
        ++ (nat_to_string affected_rows
            ++ (codes " row(s) affected (last insert id: "
                ++ (nat_to_string last_insert_id ++ codes ")"))))
      ∷ []
  format_result (QueryResult.error code message) =
      (codes "ERROR " ++ (nat_to_string code ++ (codes ": " ++ message))) ∷ []
  format_result (QueryResult.result_set columns rows) =
      let plural = if nat_beq (length rows) 1 then [] else codes "s" in
      table_lines columns rows
      ++ ((nat_to_string (length rows) ++ (codes " row" ++ (plural ++ codes " in set"))) ∷ [])
