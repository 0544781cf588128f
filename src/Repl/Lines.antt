-- ===== src/Repl/Lines.antt =====
-- A statement on several lines.
use srrdb.Prelude.{
  ◌≡◌, refl, sym, ap, ◌∙◌, true, false, List, [], ◌∷◌, ◌++◌, is_empty, append_assoc, ◌==◌, list_eq,
  nat_eq,
}
use srrdb.Std.Text.{Text, codes, starts_with}
use srrdb.Std.Platform.{Platform}
use srrdb.Sql.Parser.{SqlParser}
use srrdb.Repl.{Event, Repl, ends_with, eval, finish, handle_line, turn, run}

-- a line of a statement that does not end it
abbrev pub IsInner : Text → Type 0
IsInner t = (is_empty t ≡ false) × (starts_with t (codes ".") ≡ false) × (ends_with t b';' ≡ false)

gathered_more :
    (before t more tail : Text)
    → (before ++ (t ++ codes " ")) ++ (more ++ tail)
      ≡ before ++ ((t ++ (codes " " ++ more)) ++ tail)
gathered_more before t more tail =
    append_assoc before (t ++ codes " ") (more ++ tail)
    ∙ ap (λ x. before ++ x)
        (append_assoc t (codes " ") (more ++ tail) ∙ sym (append_assoc t (codes " " ++ more) tail))

module _ ⦃p : Platform⦄ where
  abbrev pub AreInner : List Text → Type 0
  AreInner [] = Unit
  AreInner (l ∷ lines) = IsInner (p.trim l) × AreInner lines

  -- the lines, trimmed, each with a space behind it
  abbrev pub gathered : List Text → Text
  gathered [] = []
  gathered (l ∷ lines) = p.trim l ++ (codes " " ++ gathered lines)

  abbrev pub line_events : List Text → List Event
  line_events [] = []
  line_events (l ∷ lines) = Event.line l ∷ line_events lines

  gathered-last :
      (lines : List Text) (l : Text)
      → gathered (lines ++ (l ∷ [])) ≡ gathered lines ++ (p.trim l ++ codes " ")
  gathered-last [] l = refl
  gathered-last (l' ∷ lines) l =
      ap (λ t. p.trim l' ++ (codes " " ++ t)) (gathered-last lines l)
      ∙ sym (append_assoc (p.trim l') (codes " " ++ gathered lines) (p.trim l ++ codes " "))

module _ ⦃p : Platform⦄ ⦃s : SqlParser⦄ where
  inner_turn :
      (r : Repl) (l : Text)
      → IsInner (p.trim l)
      → turn r (Event.line l) ≡ (record r { buffer = r.buffer ++ (p.trim l ++ codes " ") }, true)
  unfolding turn handle_line
  inner_turn r l h = rw h.0 (rw h.1 (rw h.2 refl))

  last_turn :
      (r : Repl) (l : Text)
      → is_empty (p.trim l) ≡ false
      → starts_with (p.trim l) (codes ".") ≡ false
      → ends_with (p.trim l) b';' ≡ true
      → turn r (Event.line l)
        ≡ (finish (record r { buffer = r.buffer ++ (p.trim l ++ codes " ") }), true)
  unfolding turn handle_line
  last_turn r l e d c = rw e (rw d (rw c refl))

  run-lines :
      (r : Repl) (lines : List Text) (l : Text) (events : List Event)
      → AreInner lines
      → is_empty (p.trim l) ≡ false
      → starts_with (p.trim l) (codes ".") ≡ false
      → ends_with (p.trim l) b';' ≡ true
      → run r (line_events lines ++ (Event.line l ∷ events))
        ≡ run
            (finish (record r { buffer = r.buffer ++ (gathered lines ++ (p.trim l ++ codes " ")) }))
            events
  unfolding run
  run-lines r [] l events h e d c = rw (last_turn r l e d c) refl
  run-lines r (l' ∷ lines) l events h e d c =
      let r' : Repl = record r { buffer = r.buffer ++ (p.trim l' ++ codes " ") } in
      rw (inner_turn r l' h.0) (
        run-lines r' lines l events h.1 e d c
        ∙ ap (λ t. run (finish (record r { buffer = t })) events)
            (gathered_more r.buffer (p.trim l') (gathered lines) (p.trim l ++ codes " ")))

  -- A statement on several lines is evaluated once, when the line that ends with a semicolon is
  -- read: its text is the lines, trimmed and each with a space behind it, trimmed; then the buffer
  -- is empty and the text is in the history. No line is empty or begins with a dot, only the last
  -- ends with a semicolon, and the text is neither empty nor a semicolon alone.
  pub run-statement :
      (r : Repl) (lines : List Text) (l : Text) (events : List Event)
      → r.buffer ≡ []
      → AreInner lines
      → is_empty (p.trim l) ≡ false
      → starts_with (p.trim l) (codes ".") ≡ false
      → ends_with (p.trim l) b';' ≡ true
      → is_empty (p.trim (gathered (lines ++ (l ∷ [])))) ≡ false
      → (p.trim (gathered (lines ++ (l ∷ []))) == codes ";") ≡ false
      → run r (line_events lines ++ (Event.line l ∷ events))
        ≡ run
            (record r {
              history = r.history ++ (p.trim (gathered (lines ++ (l ∷ []))) ∷ []);
              printed = r.printed ++ (eval (p.trim (gathered (lines ++ (l ∷ [])))) ∷ []);
            })
            events
  unfolding finish
  run-statement r lines l events b h e d c n q =
      let input = p.trim (gathered (lines ++ (l ∷ []))) in
      let same : r.buffer ++ (gathered lines ++ (p.trim l ++ codes " "))
          ≡ gathered (lines ++ (l ∷ [])) =
        ap (λ t. t ++ (gathered lines ++ (p.trim l ++ codes " "))) b
        ∙ sym (gathered-last lines l) in
      run-lines r lines l events h e d c
      ∙ ap (λ t. run (finish (record r { buffer = t })) events) same
      ∙ rw (n, finish)
          (rw q (
            ap
              (λ t.
                run
                  (record {
                    buffer = t;
                    history = r.history ++ (input ∷ []);
                    printed = r.printed ++ (eval input ∷ []);
                  })
                  events)
              (sym b)))
