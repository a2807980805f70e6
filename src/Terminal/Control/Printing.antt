-- ===== src/Terminal/Control/Printing.antt =====
-- What src/kernel/tty/Terminal.cpp does with printable characters.
use ow_os.Common.{
  ℕ, ◌+◌, ◌*◌, ◌≤◌, ◌<◌, ◌≡◌, refl, sym, ap, ◌∙◌, Bool, true, false, List, [], ◌∷◌, ltb, ◌==◌,
  lt→ltb, le→ltb, arith, word, length, set, All, get_or, ok, err, out_of_bounds, ◌>>=◌, sub32,
  subst, Returns,
}
use native.Mathlib.Nat.{mul-le-mul_right}
use ow_os.Terminal.{
  Cell, Call, call, Terminal, no_sequence, get_buffer, set_buffer, index, set_cursor,
}
use ow_os.Terminal.Control
use ow_os.Terminal.Control.Screen.{IsSized, IsScreen, index-lt, buffer-length, sizes}
use ow_os.Terminal.Control.Kept.{Kept, write_char-Kept}

-- A position below the screen, whose index in the buffer is below 2 ^ 32, on a terminal whose
-- buffers have the console's size: `CUP` does not cut it off, and the next character is written
-- past the end of the buffer.
pub cup_outside :
    (t : Terminal) (private : Bool) (args : List ℕ) (ch : ℕ)
    → IsSized t
    → t.height ≤ Control.one_less (get_or args 0 0)
    → Control.one_less (get_or args 0 0) * t.width + Control.one_less (get_or args 1 0) < word
    → (Control.run_csi Control.cup private args t >>= λ u.
        Control.write_char ch u.cursor.row u.cursor.column u)
      ≡ err out_of_bounds
unfolding Control.run_csi Control.write_char set_cursor
cup_outside t private args ch s h w = rw outside refl
  where
    row : ℕ
    row = Control.one_less (get_or args 0 0)

    column : ℕ
    column = Control.one_less (get_or args 1 0)

    outside : ltb (index t.width row column) (length (get_buffer t)) ≡ false
    outside = le→ltb _ _ (omega (arith, buffer-length t s, mul-le-mul_right t.width h))

-- A printable character of ASCII.
abbrev pub IsPrintable : ℕ → Type 0
IsPrintable ch = (32 ≤ ch) × (ch < 127)

-- The cells that characters in these colours make, from an index on.
unfoldable pub put_text : ℕ → ℕ → ℕ → List ℕ → List Cell → List Cell
put_text fg bg i [] cells = cells
put_text fg bg i (ch ∷ text) cells =
    put_text fg bg (i + 1) text (set cells i (record { ch = ch; fg_color = fg; bg_color = bg }))

pub get_buffer-set_buffer :
    (cells : List Cell) (t : Terminal) → get_buffer (set_buffer cells t) ≡ cells
get_buffer-set_buffer cells t = ground arith

-- The terminal after one character that leaves room.
abbrev pub printed : ℕ → Terminal → Terminal
printed ch t =
    let cell : Cell = record {
      ch = ch;
      fg_color = t.cursor.fg_color;
      bg_color = t.cursor.bg_color;
    } in
    set_cursor t.cursor.row (t.cursor.column + 1)
      (record (call (Call.write_char t.cursor.row t.cursor.column ch)
        (set_buffer (set (get_buffer t) (t.cursor.row * t.width + t.cursor.column) cell) t)) {
          last_char = ch;
        })

pub not_control :
    (ch : ℕ)
    → IsPrintable ch
    → (Control.is_ignored ch ≡ false)
      × ((ch == 8) ≡ false)
      × ((ch == 10) ≡ false)
      × ((ch == 13) ≡ false)
      × ((ch == 27) ≡ false)
      × (ltb ch 128 ≡ true)
not_control ch p =
    (ground arith, ground arith, ground arith, ground arith, ground arith, ground arith)

write_char-printed :
    (ch : ℕ) (t : Terminal)
    → IsScreen t
    → t.cursor.column + 1 < t.width
    → Control.write_char ch t.cursor.row t.cursor.column t ≡ ok (printed ch t)
unfolding Control.write_char Control.advance
write_char-printed ch t s room = rw (at.0, inside, more) refl
  where
    at :
        (index t.width t.cursor.row t.cursor.column ≡ t.cursor.row * t.width + t.cursor.column)
        × (t.cursor.row * t.width + t.cursor.column < t.height * t.width)
    at = index-lt t t.cursor.row t.cursor.column s.0 s.1.0 s.1.1

    inside : ltb (t.cursor.row * t.width + t.cursor.column) (length (get_buffer t)) ≡ true
    inside = lt→ltb _ _ (omega (arith, at.1, buffer-length t s.0))

    more : ltb t.cursor.column (sub32 t.width 1) ≡ true
    more = lt→ltb _ _ (omega (arith, (sizes t s.0).1))

pub echo-printed :
    (ch : ℕ) (t : Terminal)
    → IsScreen t
    → t.sequence_state ≡ no_sequence
    → IsPrintable ch
    → t.cursor.column + 1 < t.width
    → Control.echo ch t ≡ ok (printed ch t)
unfolding Control.echo Control.echo_in
echo-printed ch t s n p room =
    let c = not_control ch p in
    rw (c.0, c.1, c.2, c.3, c.4)
      (subst (λ state. Control.echo_in state ch t ≡ ok (printed ch t)) (sym n)
        (rw c.5 (write_char-printed ch t s room)))

printed-IsScreen :
    (ch : ℕ) (t : Terminal) → IsScreen t → t.cursor.column + 1 < t.width → IsScreen (printed ch t)
printed-IsScreen ch t s room =
    (subst (Returns (Kept t)) (write_char-printed ch t s room) (write_char-Kept ch t s)).0.0

-- Printable characters, sent to a terminal in which no escape sequence is begun, whose buffers have
-- the console's size and whose cursor is on it, that leave room in the cursor's line: they are put
-- into the buffer one after another, and the cursor stands behind the last; nothing else in the
-- buffer changes.
pub echo_all-put_text :
    (text : List ℕ) (t : Terminal)
    → IsScreen t
    → t.sequence_state ≡ no_sequence
    → All IsPrintable text
    → t.cursor.column + length text < t.width
    → (u : Terminal) × (Control.echo_all text t ≡ ok u)
      × (get_buffer u
          ≡ put_text t.cursor.fg_color t.cursor.bg_color
              (t.cursor.row * t.width + t.cursor.column)
              text
              (get_buffer t))
      × (u.cursor.row ≡ t.cursor.row)
      × (u.cursor.column ≡ t.cursor.column + length text)
unfolding Control.echo_all put_text set_cursor
echo_all-put_text [] t s n all room = (t, refl, refl, refl, omega arith)
echo_all-put_text (ch ∷ text) t s n all room =
    let (u, eq, cells, row, column) =
      echo_all-put_text text (printed ch t) (printed-IsScreen ch t s (omega arith)) n all.1
        (omega arith) in
    (
      u,
      rw (echo-printed ch t s n all.0 (omega arith)) eq,
      cells ∙ next_cells,
      row,
      column ∙ omega arith,
    )
  where
    next_cells :
        put_text t.cursor.fg_color t.cursor.bg_color
          (t.cursor.row * t.width + (t.cursor.column + 1))
          text
          (get_buffer (printed ch t))
        ≡ put_text t.cursor.fg_color t.cursor.bg_color
            (t.cursor.row * t.width + t.cursor.column)
            (ch ∷ text)
            (get_buffer t)
    next_cells =
        let i = t.cursor.row * t.width + t.cursor.column in
        let e : t.cursor.row * t.width + (t.cursor.column + 1) ≡ i + 1 = omega arith in
        let cell : Cell = record {
          ch = ch;
          fg_color = t.cursor.fg_color;
          bg_color = t.cursor.bg_color;
        } in
        rw e (
          ap (put_text t.cursor.fg_color t.cursor.bg_color (i + 1) text)
            (get_buffer-set_buffer (set (get_buffer t) i cell) t))
