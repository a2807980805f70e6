-- ===== src/Terminal/Keys.antt =====
-- `unecho` and `parse_key_event` of src/kernel/tty/Terminal.cpp, and the constructor of
-- src/kernel/include/tty/Terminal.hpp.
pub mod Undo
use Prim.Native.Nat.{bit_and}
use ow_os.Common.{ℕ, ◌-◌, ◌*◌, Bool, false, List, [], ◌∷◌, ◌==◌, if◌then◌else◌, sub32, replicate}
use ow_os.Terminal.{
  Terminal, Cell, Cursor, Call, call, no_sequence, csi_sequence_params, set_cursor,
}
use ow_os.Devices.KeyCode.{KeyCode, key_up, key_down, key_left, key_right}
use ow_os.Devices.Keyboard.{KeyEvent, pressed}

-- The cursor goes back a place, and the console clears it; the buffer is not written.
unfoldable pub unecho : Terminal → Terminal
unecho t =
    let blank = call (Call.write_char t.cursor.row t.cursor.column 32) t in
    let back =
      λ (row column : ℕ). call (Call.write_char row column 32) (set_cursor row column blank) in
    if t.cursor.column == 0
    then (if t.cursor.row == 0 then blank else back (t.cursor.row - 1) (sub32 t.width 1))
    else back t.cursor.row (t.cursor.column - 1)

-- The last letter of an arrow key's sequence, or 0.
abbrev pub arrow : KeyCode → ℕ
arrow key_up = 65
arrow key_down = 66
arrow key_right = 67
arrow key_left = 68
arrow _ = 0

unfoldable pub parse_key_event : KeyEvent → List ℕ
parse_key_event event =
    if bit_and event.modifiers pressed == 0
    then []
    else if arrow event.key == 0
    then (if event.code_point == 0 then [] else event.code_point ∷ [])
    else 27 ∷ 91 ∷ arrow event.key ∷ []

abbrev pub zero_cell : Cell
zero_cell = record { ch = 0; fg_color = 0; bg_color = 0 }

abbrev pub zero_cursor : Cursor
zero_cursor = record { row = 0; column = 0; fg_color = 0; bg_color = 0 }

-- A terminal on a console of this size.
unfoldable pub init : ℕ → ℕ → Terminal
init width height = record {
  width = width;
  height = height;
  calls = [];
  main_buffer = replicate (height * width) zero_cell;
  saved_cursor = zero_cursor;
  alternate_buffer = replicate (height * width) zero_cell;
  alternate_saved_cursor = zero_cursor;
  use_alternate_buffer = false;
  cursor = zero_cursor;
  current_escape_sequence = [];
  last_char = 32;
  sequence_state = no_sequence;
  csi_state = csi_sequence_params;
}
