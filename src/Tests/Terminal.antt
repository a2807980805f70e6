-- ===== src/Tests/Terminal.antt =====
-- Runs of the terminal of src/kernel/tty/Terminal.cpp and of the line discipline of
-- src/kernel/tty/TTY.cpp on small screens.
use ow_os.Common.{
  ℕ, ◌≡◌, inl, refl, ◌++◌, true, false, List, [], ◌∷◌, replicate, ok, err, out_of_bounds, arith,
  map, reverse, Returns, ◌>>=◌, some, length, subst,
}
use ow_os.Libk.CircularBuffer.Contents.{advance_by}
use ow_os.Libk.CircularBuffer.Refine.{Holds}
use ow_os.Terminal.{Terminal, no_sequence, csi_sequence, csi_sequence_params, get_buffer}
use ow_os.Terminal.Arguments.{parse_csi_arguments, read_arguments, strtol}
use ow_os.Terminal.Arguments.Numbers.{parse_csi_arguments-print, print_arguments, value_of}
use ow_os.Terminal.Control
use ow_os.Terminal.Control.Screen.{IsScreen}
use ow_os.Terminal.Control.Kept.{Safe}
use ow_os.Terminal.Control.Safety.{IsTame}
use ow_os.Terminal.Control.Echo.{echo-Safe}
use ow_os.Terminal.Control.Printing.{cup_outside, echo_all-put_text, put_text}
use ow_os.Terminal.Keys.{zero_cell, zero_cursor, unecho}
use ow_os.Terminal.Keys.Undo.{unecho-echo, IsUndone}
use ow_os.Terminal.Tty
use ow_os.Terminal.Tty.{Tty, Termios, default_termios}
use ow_os.Terminal.Tty.Lines.{set_termios-reverse, joined}
use ow_os.Terminal.Tty.Typing.{
  emit_all-typed, Stroke, letter, rub_out, wipe, byte_of, typed, with_line,
}
use ow_os.Terminal.Tty.Reading.{canonical_read-line}
use ow_os.Terminal.Tty.Display.{display, IsQuiet, display-Echoes}

-- A screen of two rows and four columns, with the cursor at the end of the first row.
abbrev screen : Terminal
screen = record {
  width = 4;
  height = 2;
  calls = [];
  main_buffer = replicate 8 zero_cell;
  saved_cursor = zero_cursor;
  alternate_buffer = replicate 8 zero_cell;
  alternate_saved_cursor = zero_cursor;
  use_alternate_buffer = true;
  cursor = record { row = 0; column = 1; fg_color = 5; bg_color = 6 };
  current_escape_sequence = [];
  last_char = 32;
  sequence_state = no_sequence;
  csi_state = csi_sequence_params;
}

screen-IsScreen : IsScreen screen
screen-IsScreen = (
  record {
    wide = omega arith;
    high = omega arith;
    fits = omega arith;
    main_length = refl;
    alternate_length = refl;
    escapes = tt;
    saved = (omega arith, omega arith);
    alternate_saved = (omega arith, omega arith);
  },
  (omega arith, omega arith),
)

-- The same in the middle of a control sequence.
abbrev in_csi : Terminal
in_csi = record screen {
  sequence_state = csi_sequence;
  current_escape_sequence = 27 ∷ 91 ∷ 50 ∷ 59 ∷ 51 ∷ [];
}

in_csi-IsScreen : IsScreen in_csi
in_csi-IsScreen = (
  record {
    wide = omega arith;
    high = omega arith;
    fits = omega arith;
    main_length = refl;
    alternate_length = refl;
    escapes = omega arith;
    saved = (omega arith, omega arith);
    alternate_saved = (omega arith, omega arith);
  },
  (omega arith, omega arith),
)

in_csi-arguments : parse_csi_arguments (in_csi.current_escape_sequence ++ 72 ∷ []) ≡ ok (2 ∷ 3 ∷ [])
unfolding parse_csi_arguments read_arguments strtol
in_csi-arguments = refl

arguments-IsTame :
    (args : List ℕ)
    → parse_csi_arguments (in_csi.current_escape_sequence ++ 72 ∷ []) ≡ ok args
    → IsTame Control.cup args 2 4
unfolding IsTame
arguments-IsTame args e =
    let same : 2 ∷ 3 ∷ [] ≡ args = cc (in_csi-arguments, e) in
    subst (λ a. IsTame Control.cup a 2 4) same (omega arith, omega arith)

echo-Safe_example : Returns (Safe in_csi) (Control.echo 72 in_csi)
echo-Safe_example = echo-Safe 72 in_csi in_csi-IsScreen (λ e args p. arguments-IsTame args p)

parse_csi_arguments-print_example :
    parse_csi_arguments (27 ∷ 91 ∷ print_arguments ((1 ∷ 2 ∷ []) ∷ (3 ∷ []) ∷ []) (72 ∷ []))
    ≡ ok (map (value_of 0) ((1 ∷ 2 ∷ []) ∷ (3 ∷ []) ∷ []))
unfolding value_of
parse_csi_arguments-print_example =
    parse_csi_arguments-print (1 ∷ 2 ∷ []) ((3 ∷ []) ∷ []) 72
      (
        (omega arith, (omega arith, (omega arith, tt)), omega arith),
        ((omega arith, (omega arith, tt), omega arith), tt),
      )
      refl

cup_outside_example :
    (Control.run_csi Control.cup false (3 ∷ 1 ∷ []) screen >>= λ u.
    Control.write_char 65 u.cursor.row u.cursor.column u)
    ≡ err out_of_bounds
cup_outside_example =
    cup_outside screen false (3 ∷ 1 ∷ []) 65 screen-IsScreen.0 (omega arith) (omega arith)

echo_all-put_text_example :
    (u : Terminal) × (Control.echo_all (72 ∷ 105 ∷ []) screen ≡ ok u)
    × (get_buffer u ≡ put_text 5 6 1 (72 ∷ 105 ∷ []) (get_buffer screen))
    × (u.cursor.row ≡ 0)
    × (u.cursor.column ≡ 3)
echo_all-put_text_example =
    echo_all-put_text (72 ∷ 105 ∷ []) screen screen-IsScreen refl
      ((omega arith, omega arith), ((omega arith, omega arith), tt)) (omega arith)

unecho-echo_example :
    (u : Terminal) × (Control.echo 72 screen ≡ ok u) × IsUndone 72 screen (unecho u)
unecho-echo_example =
    unecho-echo 72 screen screen-IsScreen refl (omega arith, omega arith) (omega arith)

-- A terminal device on that screen, with a buffer for eight characters.
abbrev device : Tty Terminal
device = record {
  current_input_line = [];
  current_read_line = [];
  input_line_buffer = (97 ∷ 10 ∷ []) ∷ (98 ∷ 10 ∷ []) ∷ [];
  input_char_buffer = record {
    storage = replicate 8 0;
    head = 0;
    tail = 0;
    capacity = 8;
    size = 0;
  };
  termios = default_termios;
  screen = screen;
}

nothing-Holds : Holds (device.input_char_buffer) []
unfolding advance_by
nothing-Holds = record {
  storage_length = refl;
  tail_in = omega arith;
  size_le = omega arith;
  size_eq = refl;
  head_eq = refl;
  values = tt;
}

abbrev raw : Termios
raw = record default_termios { c_lflag = 0 }

set_termios-reverse_example :
    (u : Tty Terminal) × (Tty.set_termios raw device ≡ ok u)
    × Holds u.input_char_buffer (joined (reverse device.input_line_buffer))
    × (u.input_line_buffer ≡ [])
unfolding joined
set_termios-reverse_example =
    set_termios-reverse device raw [] nothing-Holds refl refl refl (omega arith)

abbrev strokes : List Stroke
strokes = letter 97 ∷ rub_out ∷ letter 98 ∷ wipe ∷ rub_out ∷ letter 99 ∷ []

emit_all-typed_example :
    (s' : Terminal) × (Tty.emit_all display (map byte_of strokes ++ 10 ∷ []) device
      ≡ ok
          (with_line device [] (device.input_line_buffer ++ (typed [] strokes ++ 10 ∷ []) ∷ []) s'))
    × IsQuiet s'
emit_all-typed_example =
    emit_all-typed display display-Echoes device strokes
      (
        (omega arith, omega arith),
        (tt, ((omega arith, omega arith), (tt, (tt, ((omega arith, omega arith), tt))))),
      )
      (screen-IsScreen, refl) refl refl

canonical_read-line_example :
    (u : Tty Terminal) × (text : List ℕ) × (Tty.canonical_read 1 device ≡ some (text, u))
    × (text ++ u.current_read_line ≡ 97 ∷ 10 ∷ [])
    × (length text ≡ 1)
    × (u.input_line_buffer ≡ (98 ∷ 10 ∷ []) ∷ [])
canonical_read-line_example =
    canonical_read-line device (97 ∷ 10 ∷ []) ((98 ∷ 10 ∷ []) ∷ []) 1 (inl (refl, refl))
