-- ===== src/Terminal/Keys/Undo.antt =====
-- A character that src/kernel/tty/Terminal.cpp shows and takes back.
use ow_os.Common.{
  ℕ, ◌+◌, ◌-◌, ◌*◌, ◌<◌, ◌≡◌, refl, sym, ap, ◌∙◌, subst, Bool, true, false, List, ◌∷◌, ◌==◌,
  if◌then◌else◌, ltb, lt→ltb, ltb→le, arith, set, length, ok, sub32,
}
use ow_os.Terminal.{
  Terminal, Cell, Call, call, no_sequence, set_cursor, get_buffer, set_buffer, index,
}
use ow_os.Terminal.Control
use ow_os.Terminal.Control.Screen.{IsScreen, sizes, index-lt, buffer-length}
use ow_os.Terminal.Control.Printing.{IsPrintable, not_control, get_buffer-set_buffer}
use ow_os.Terminal.Keys.{unecho}

-- The terminal after a character, before the cursor moves.
abbrev stored : ℕ → Terminal → Terminal
stored ch t =
    let cell : Cell = record {
      ch = ch;
      fg_color = t.cursor.fg_color;
      bg_color = t.cursor.bg_color;
    } in
    record (call (Call.write_char t.cursor.row t.cursor.column ch)
      (set_buffer (set (get_buffer t) (t.cursor.row * t.width + t.cursor.column) cell) t)) {
        last_char = ch;
      }

-- Where the cursor goes after a character.
abbrev moved : Bool → ℕ → Terminal → Terminal
moved true ch t = set_cursor t.cursor.row (t.cursor.column + 1) (stored ch t)
moved false ch t = set_cursor (t.cursor.row + 1) 0 (set_cursor t.cursor.row 0 (stored ch t))

echo-moved :
    (ch : ℕ) (t : Terminal)
    → IsScreen t
    → t.sequence_state ≡ no_sequence
    → IsPrintable ch
    → t.cursor.row + 1 < t.height
    → Control.echo ch t ≡ ok (moved (ltb t.cursor.column (sub32 t.width 1)) ch t)
unfolding Control.echo Control.echo_in Control.write_char Control.advance set_cursor
echo-moved ch t s n p room =
    let c = not_control ch p in
    rw (c.0, c.1, c.2, c.3, c.4)
      (subst
        (λ state.
          Control.echo_in state ch t ≡ ok (moved (ltb t.cursor.column (sub32 t.width 1)) ch t))
        (sym n) (rw (c.5, at.0, inside) (steps (ltb t.cursor.column (sub32 t.width 1)))))
  where
    at :
        (index t.width t.cursor.row t.cursor.column ≡ t.cursor.row * t.width + t.cursor.column)
        × (t.cursor.row * t.width + t.cursor.column < t.height * t.width)
    at = index-lt t t.cursor.row t.cursor.column s.0 s.1.0 s.1.1

    inside : ltb (t.cursor.row * t.width + t.cursor.column) (length (get_buffer t)) ≡ true
    inside = lt→ltb _ _ (omega (arith, at.1, buffer-length t s.0))

    below : ltb t.cursor.row (sub32 t.height 1) ≡ true
    below = lt→ltb _ _ (omega (arith, (sizes t s.0).0))

    steps :
        (test : Bool)
        → (if test
            then ok (set_cursor t.cursor.row (t.cursor.column + 1) (stored ch t))
            else Control.line_feed (Control.carriage_return (stored ch t)))
          ≡ ok (moved test ch t)
    steps true = refl
    steps false = rw below refl

-- The terminal whose cursor goes to a place that the console clears.
abbrev back : ℕ → ℕ → Terminal → Terminal
back row column u =
    call (Call.write_char row column 32)
      (set_cursor row column (call (Call.write_char u.cursor.row u.cursor.column 32) u))

unecho-column :
    (u : Terminal)
    → (u.cursor.column == 0) ≡ false
    → unecho u ≡ back u.cursor.row (u.cursor.column - 1) u
unfolding unecho
unecho-column u e = rw e refl

unecho-row :
    (u : Terminal)
    → (u.cursor.column == 0) ≡ true
    → (u.cursor.row == 0) ≡ false
    → unecho u ≡ back (u.cursor.row - 1) (sub32 u.width 1) u
unfolding unecho
unecho-row u e e' = rw (e, e') refl

-- What is asked of the terminal after both.
abbrev pub IsUndone : ℕ → Terminal → Terminal → Type 0
IsUndone ch t v =
    (rest : List Call) × (v.cursor ≡ t.cursor)
    × (v.calls ≡ Call.write_char t.cursor.row t.cursor.column 32 ∷ rest)
    × (get_buffer v
        ≡ set (get_buffer t) (t.cursor.row * t.width + t.cursor.column)
            (record { ch = ch; fg_color = t.cursor.fg_color; bg_color = t.cursor.bg_color }))

back-IsUndone :
    (test : Bool) (ch : ℕ) (t : Terminal)
    → IsUndone ch t (back t.cursor.row t.cursor.column (moved test ch t))
unfolding set_cursor
back-IsUndone true ch t = (_, refl, refl, get_buffer-set_buffer _ t)
back-IsUndone false ch t = (_, refl, refl, get_buffer-set_buffer _ t)

unecho-moved :
    (test : Bool) (ch : ℕ) (t : Terminal)
    → IsScreen t
    → ltb t.cursor.column (sub32 t.width 1) ≡ test
    → unecho (moved test ch t) ≡ back t.cursor.row t.cursor.column (moved test ch t)
unfolding set_cursor
unecho-moved true ch t s e =
    let was : t.cursor.column + 1 - 1 ≡ t.cursor.column = omega arith in
    unecho-column (moved true ch t) (ground arith)
    ∙ ap (λ c. back t.cursor.row c (moved true ch t)) was
unecho-moved false ch t s e =
    let row : t.cursor.row + 1 - 1 ≡ t.cursor.row = omega arith in
    let column : sub32 t.width 1 ≡ t.cursor.column =
      omega (arith, ltb→le _ _ e, (sizes t s.0).1, s.1.1) in
    unecho-row (moved false ch t) refl (ground arith)
    ∙ ap (λ r. back r (sub32 t.width 1) (moved false ch t)) row
    ∙ ap (λ c. back t.cursor.row c (moved false ch t)) column

-- A printable character, sent to a terminal that is not in a sequence, whose buffers have the
-- console's size, and whose cursor is on it and has a line below its own, and taken back: the
-- cursor is where it was, also at the end of a line, and the console shows a space there, while the
-- buffer still has the character.
pub unecho-echo :
    (ch : ℕ) (t : Terminal)
    → IsScreen t
    → t.sequence_state ≡ no_sequence
    → IsPrintable ch
    → t.cursor.row + 1 < t.height
    → (u : Terminal) × (Control.echo ch t ≡ ok u) × IsUndone ch t (unecho u)
unecho-echo ch t s n p room =
    let test = ltb t.cursor.column (sub32 t.width 1) in
    (
      moved test ch t,
      echo-moved ch t s n p room,
      subst (IsUndone ch t) (sym (unecho-moved test ch t s refl)) (back-IsUndone test ch t),
    )
