-- ===== src/Terminal/Tty/Display.antt =====
-- The terminal of src/kernel/tty/Terminal.cpp as the screen of its line discipline, and the key
-- events of src/kernel/include/tty/VirtualConsole.hpp.
use Prim.Native.Nat.{bit_and}
use ow_os.Common.{
  ℕ, ◌+◌, ◌-◌, ◌<◌, ◌≡◌, ◌∙◌, sym, subst, Bool, Bool-cases, inl, inr, true, false, ◌==◌,
  if◌then◌else◌, arith, Returns, Result, sub32, ◌>>=◌, ◌&&◌,
}
use ow_os.Terminal.{Terminal, Call, call, no_sequence, set_cursor}
use ow_os.Terminal.Control
use ow_os.Terminal.Control.Screen.{IsScreen, sizes}
use ow_os.Terminal.Control.Kept.{
  Kept, write_char-Kept, line_feed-Kept, set_cursor-Kept, call-Kept, Kept-refl, call-IsSized,
}
use ow_os.Terminal.Control.Printing.{IsPrintable, not_control}
use ow_os.Terminal.Keys.{unecho, parse_key_event}
use ow_os.Devices.KeyCode.{KeyCode, key_c}
use ow_os.Devices.Keyboard.{KeyEvent, pressed, control}
use ow_os.Terminal.Tty.{Tty, Screen, emit_all}
use ow_os.Terminal.Tty.Typing.{Echoes}

abbrev pub display : Screen Terminal
display = record { echo = Control.echo; unecho = unecho }

abbrev pub is_key_c : KeyCode → Bool
is_key_c key_c = true
is_key_c _ = false

-- `VirtualConsole::handle_key_event`. The first part says whether the controlling process, if there
-- is one, gets an interrupt signal.
unfoldable pub handle_key_event : KeyEvent → Tty Terminal → Result (Bool × Tty Terminal)
handle_key_event event t =
    if is_key_c event.key && bit_and event.modifiers 0xDF == pressed + control
    then Result.ok (true, t)
    else (do t ← emit_all display (parse_key_event event) t; Result.ok (false, t))

-- The terminal is whole, and no sequence is begun.
abbrev pub IsQuiet : Terminal → Type 0
IsQuiet t = IsScreen t × (t.sequence_state ≡ no_sequence)

Kept-IsQuiet :
    (t : Terminal) (run : Result Terminal) → IsQuiet t → Returns (Kept t) run → Returns IsQuiet run
Kept-IsQuiet t (Result.ok u) q k = (k.0.0, k.2 ∙ q.1)
Kept-IsQuiet t (Result.err why) q k = k

echo_char-IsQuiet :
    (ch : ℕ) (t : Terminal) → IsPrintable ch → IsQuiet t → Returns IsQuiet (Control.echo ch t)
unfolding Control.echo Control.echo_in
echo_char-IsQuiet ch t p q =
    let c = not_control ch p in
    rw (c.0, c.1, c.2, c.3, c.4)
      (subst (λ state. Returns IsQuiet (Control.echo_in state ch t)) (sym q.1)
        (rw c.5 (
          Kept-IsQuiet t (Control.write_char ch t.cursor.row t.cursor.column t) q
            (write_char-Kept ch t q.0))))

echo_line-IsQuiet : (t : Terminal) → IsQuiet t → Returns IsQuiet (Control.echo 10 t)
unfolding Control.echo
echo_line-IsQuiet t q = Kept-IsQuiet t (Control.line_feed t) q (line_feed-Kept t q.0)

echo_return-IsQuiet : (t : Terminal) → IsQuiet t → Returns IsQuiet (Control.echo 13 t)
unfolding Control.echo
echo_return-IsQuiet t q =
    Kept-IsQuiet t (Result.ok (Control.carriage_return t)) q
      (set_cursor-Kept t.cursor.row 0 t q.0.0 q.0.1.0 q.0.0.wide)

back-IsQuiet :
    (t : Terminal)
    → IsQuiet t
    → (row column : ℕ) → row < t.height
    → column < t.width
    → IsQuiet (
        call
          (Call.write_char row column 32)
          (set_cursor row column (call (Call.write_char t.cursor.row t.cursor.column 32) t)))
unfolding set_cursor
back-IsQuiet t q row column r c =
    let blank = call (Call.write_char t.cursor.row t.cursor.column 32) t in
    let moved = set_cursor-Kept row column blank (call-IsSized _ t q.0.0) r c in
    ((call-Kept blank (set_cursor row column blank) (Call.write_char row column 32) moved).0.0, q.1)

unecho-IsQuiet : (t : Terminal) → IsQuiet t → IsQuiet (unecho t)
unfolding unecho
unecho-IsQuiet t q = elim (Bool-cases (t.cursor.column == 0)) [
  | inl e ↦ elim (Bool-cases (t.cursor.row == 0)) [
    | inl e' ↦ rw (e, e') (blank.0.0, q.1)
    | inr e' ↦
        rw (e, e')
          (back-IsQuiet t q (t.cursor.row - 1) (sub32 t.width 1) (omega (arith, q.0.1.0))
            (omega (arith, (sizes t q.0.0).1, q.0.0.wide)))
  ]
  | inr e ↦
      rw e (back-IsQuiet t q t.cursor.row (t.cursor.column - 1) q.0.1.0 (omega (arith, q.0.1.1)))
]
  where
    blank : Kept t (call (Call.write_char t.cursor.row t.cursor.column 32) t)
    blank = call-Kept t t _ (Kept-refl t q.0)

pub display-Echoes : Echoes display IsQuiet
display-Echoes = record {
  printable = echo_char-IsQuiet;
  new_line = echo_line-IsQuiet;
  return_start = echo_return-IsQuiet;
  unechoed = unecho-IsQuiet;
}
