-- ===== src/Terminal.antt =====
-- src/kernel/tty/Terminal.cpp: a terminal that shows the bytes it is sent in a buffer of cells and on
-- a console, and obeys escape sequences. Characters are bytes. An `int` is its 32-bit word, and its
-- arithmetic wraps. What the source only logs as not implemented changes nothing.
pub mod Arguments
pub mod Control
pub mod Keys
pub mod Tty
use Prim.Native.Nat.{bit_and}
use ow_os.Common.{
  ℕ, zero, suc, ◌+◌, ◌-◌, ◌*◌, ◌^◌, min, Bool, true, false, not, ◌&&◌, ◌||◌, List, [], ◌∷◌, ◌++◌,
  ltb, leb, ◌==◌, if◌then◌else◌, add32, sub32, mul32, length, set, take, drop, get_or, get_elem?,
  Result, ok, err, out_of_bounds, ◌>>=◌, or_fault,
}

-- `Console::cell_t`
pub record Cell : Type 0 where
  pub ch : ℕ
  pub fg_color : ℕ
  pub bg_color : ℕ

-- `color_lut` of `ANSIColorToRGBA`.
abbrev pub color_lut : List ℕ
color_lut =
    0x000000 ∷ 0xAA0000 ∷ 0x00AA00 ∷ 0xAA5500 ∷ 0x0000AA ∷ 0xAA00AA ∷ 0x00AAAA ∷ 0xAAAAAA ∷ 0x555555
    ∷ 0xFF5555 ∷ 0x55FF55 ∷ 0xFFFF55 ∷ 0x5555FF ∷ 0xFF55FF ∷ 0x55FFFF ∷ 0xFFFFFF ∷ []

abbrev pub black : ℕ
black = 0

abbrev pub bright_black : ℕ
bright_black = 8

abbrev pub bright_white : ℕ
bright_white = 15

abbrev pub ansi_color_to_rgba : ℕ → Result ℕ
ansi_color_to_rgba color = or_fault (get_elem? color_lut color) out_of_bounds

abbrev pub default_cell : Cell
default_cell = record { ch = 32; fg_color = 0xFFFFFF; bg_color = 0 }

-- `cursor_t`
pub record Cursor : Type 0 where
  pub row : ℕ
  pub column : ℕ
  pub fg_color : ℕ
  pub bg_color : ℕ

pub data SequenceState : Type 0 where
  no_sequence fe_sequence csi_sequence osc_sequence : SequenceState

pub data CsiState : Type 0 where
  csi_sequence_params csi_sequence_intermediate csi_sequence_final : CsiState

-- What the terminal asks of its console.
pub data Call : Type 0 where
  write_char : ℕ → ℕ → ℕ → Call
  write_region : ℕ → ℕ → ℕ → ℕ → List Cell → Call
  clear : ℕ → ℕ → ℕ → ℕ → Call
  scroll_up scroll_down : Call
  set_cursor_at : ℕ → ℕ → Call
  set_fg_color set_bg_color : ℕ → Call

-- The terminal, with the size of its console and the calls that it has made, the latest first.
pub record Terminal : Type 0 where
  pub width : ℕ
  pub height : ℕ
  pub calls : List Call
  pub main_buffer : List Cell
  pub saved_cursor : Cursor
  pub alternate_buffer : List Cell
  pub alternate_saved_cursor : Cursor
  pub use_alternate_buffer : Bool
  pub cursor : Cursor
  pub current_escape_sequence : List ℕ
  pub last_char : ℕ
  pub sequence_state : SequenceState
  pub csi_state : CsiState

abbrev pub call : Call → Terminal → Terminal
call c t = record t { calls = c ∷ t.calls }

-- `get_buffer()`, and the terminal with another one.
abbrev pub get_buffer : Terminal → List Cell
get_buffer t = if t.use_alternate_buffer then t.alternate_buffer else t.main_buffer

abbrev pub set_buffer : List Cell → Terminal → Terminal
set_buffer cells t = record t {
  main_buffer = if t.use_alternate_buffer then t.main_buffer else cells;
  alternate_buffer = if t.use_alternate_buffer then cells else t.alternate_buffer;
}

-- `cells[i] = cell`
abbrev pub store : ℕ → Cell → List Cell → Result (List Cell)
store i cell cells = if ltb i (length cells) then ok (set cells i cell) else err out_of_bounds

-- `memmove` of `n` cells.
abbrev pub move_cells : ℕ → ℕ → ℕ → List Cell → Result (List Cell)
move_cells dest src n cells =
    if leb (dest + n) (length cells) && leb (src + n) (length cells)
    then ok (take dest cells ++ (take n (drop src cells) ++ drop (dest + n) cells))
    else err out_of_bounds

-- `cells[i] = default_cell` for `n` indices from `i` on.
unfoldable pub clear_cells : ℕ → ℕ → List Cell → Result (List Cell)
clear_cells i zero cells = ok cells
clear_cells i (suc n) cells = do cells ← store i default_cell cells; clear_cells (i + 1) n cells

-- The index of a cell.
abbrev pub index : ℕ → ℕ → ℕ → ℕ
index width row column = add32 (mul32 row width) column

unfoldable pub set_cursor : ℕ → ℕ → Terminal → Terminal
set_cursor row column t =
    call (set_cursor_at row column)
      (record t { cursor = record (t.cursor) { row = row; column = column } })

abbrev pub set_cursor_row : ℕ → Terminal → Terminal
set_cursor_row row t = set_cursor row t.cursor.column t

abbrev pub set_cursor_column : ℕ → Terminal → Terminal
set_cursor_column column t = set_cursor t.cursor.row column t

-- `clear(from_row, from_column, to_row, to_column)`
unfoldable pub clear_region : ℕ → ℕ → ℕ → ℕ → Terminal → Result Terminal
clear_region from_row from_column to_row to_column t = do
  let from = index t.width from_row from_column
  let to = index t.width to_row to_column
  cells ← clear_cells from (suc to - from) (get_buffer t)
  ok (call (clear from_row from_column to_row to_column) (set_buffer cells t))

unfoldable pub do_scroll_up : Terminal → Result Terminal
do_scroll_up t = do
  let last = sub32 t.height 1
  let rest = mul32 t.width last
  cells ← move_cells 0 t.width rest (get_buffer t)
  cells ← clear_cells rest (mul32 t.width t.height - rest) cells
  ok (call (clear last 0 last (sub32 t.width 1)) (call scroll_up (set_buffer cells t)))

unfoldable pub do_scroll_down : Terminal → Result Terminal
do_scroll_down t = do
  cells ← move_cells t.width 0 (mul32 t.width (sub32 t.height 1)) (get_buffer t)
  cells ← clear_cells 0 t.width cells
  ok (call (clear 0 0 0 (sub32 t.width 1)) (call scroll_down (set_buffer cells t)))
