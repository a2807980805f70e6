-- ===== src/Terminal/Control.antt =====
-- The control codes and sequences of src/kernel/tty/Terminal.cpp, and `echo`, which sends a byte.
pub mod Screen
pub mod Kept
pub mod Safety
pub mod Echo
pub mod Printing
use ow_os.Common.{
  ℕ, zero, suc, ◌+◌, ◌-◌, min, Bool, true, false, not, ◌&&◌, ◌||◌, List, [], ◌∷◌, ◌++◌, ltb, leb,
  ◌==◌, if◌then◌else◌, add32, sub32, mul32, length, get_or, get_elem?, Result, ok, err,
  out_of_bounds, ◌>>=◌, or_fault,
}
use ow_os.Terminal.{
  Cell, Cursor, Terminal, Call, SequenceState, no_sequence, fe_sequence, csi_sequence, osc_sequence,
  CsiState, csi_sequence_params, csi_sequence_intermediate, csi_sequence_final, black, bright_black,
  bright_white, ansi_color_to_rgba, call, get_buffer, set_buffer, store, clear_cells, index,
  set_cursor, set_cursor_row, set_cursor_column, clear_region, do_scroll_up, do_scroll_down,
}
use ow_os.Terminal.Arguments.{parse_csi_arguments}

abbrev pub carriage_return : Terminal → Terminal
carriage_return t = set_cursor_column 0 t

abbrev pub line_feed : Terminal → Result Terminal
line_feed t =
    if ltb t.cursor.row (sub32 t.height 1)
    then ok (set_cursor_row (t.cursor.row + 1) t)
    else do_scroll_up t

abbrev pub backspace : Terminal → Terminal
backspace t = if ltb 0 t.cursor.column then set_cursor_column (t.cursor.column - 1) t else t

unfoldable pub advance : Terminal → Result Terminal
advance t =
    if ltb t.cursor.column (sub32 t.width 1)
    then ok (set_cursor_column (t.cursor.column + 1) t)
    else line_feed (carriage_return t)

unfoldable pub write_char : ℕ → ℕ → ℕ → Terminal → Result Terminal
write_char ch row column t = do
  let cell : Cell = record { ch = ch; fg_color = t.cursor.fg_color; bg_color = t.cursor.bg_color }
  cells ← store (index t.width row column) cell (get_buffer t)
  advance (record (call (Call.write_char row column ch) (set_buffer cells t)) { last_char = ch })

unfoldable pub switch_buffer : Bool → Bool → Terminal → Result Terminal
switch_buffer alternate clear t =
    let switched = record t { use_alternate_buffer = alternate } in
    let last_row = sub32 t.height 1 in
    let last_column = sub32 t.width 1 in
    if (t.use_alternate_buffer && alternate) || (not t.use_alternate_buffer && not alternate)
    then ok t
    else if clear
    then clear_region 0 0 last_row last_column switched
    else ok (call (Call.write_region 0 0 last_row last_column (get_buffer switched)) switched)

-- `n` calls of an operation, `while (n--)`.
unfoldable pub repeat : ℕ → (Terminal → Result Terminal) → Terminal → Result Terminal
repeat zero operation t = ok t
repeat (suc n) operation t = do t ← operation t; repeat n operation t

-- The codes after an escape, of which the others are not implemented.
pub data EscapeCode : Type 0 where
  reverse_index control_sequence save_cursor restore_cursor other_code : EscapeCode

abbrev pub escape_code : ℕ → EscapeCode
escape_code ch =
    if ch == 77
    then reverse_index
    else if ch == 91
    then control_sequence
    else if ch == 55
    then save_cursor
    else if ch == 56
    then restore_cursor
    else other_code

abbrev pub reset_sequence : Terminal → Terminal
reset_sequence t = record t { current_escape_sequence = []; sequence_state = no_sequence }

unfoldable pub run_escape : EscapeCode → Terminal → Result Terminal
run_escape reverse_index t = do
  t ← if t.cursor.row == 0 then do_scroll_down t else ok (set_cursor_row (t.cursor.row - 1) t)
  ok (reset_sequence t)
run_escape control_sequence t = ok (record t { sequence_state = csi_sequence })
run_escape save_cursor t = ok (
    reset_sequence (
      if t.use_alternate_buffer
      then record t { alternate_saved_cursor = t.cursor }
      else record t { saved_cursor = t.cursor }))
run_escape restore_cursor t =
    let c = if t.use_alternate_buffer then t.alternate_saved_cursor else t.saved_cursor in
    ok (reset_sequence (set_cursor c.row c.column t))
run_escape other_code t = ok (reset_sequence t)

unfoldable pub read_fe_sequence : ℕ → Terminal → Result Terminal
read_fe_sequence ch t = run_escape (escape_code ch) t

-- The final bytes of control sequences, of which the others are not implemented.
pub data CsiFunction : Type 0 where
  cuu cha cup ed el su sd rep vpa sgr decset decrst other_function : CsiFunction

abbrev pub csi_function : ℕ → CsiFunction
csi_function ch =
    if ch == 65
    then cuu
    else if ch == 71
    then cha
    else if ch == 72
    then cup
    else if ch == 74
    then ed
    else if ch == 75
    then el
    else if ch == 83
    then su
    else if ch == 84
    then sd
    else if ch == 98
    then rep
    else if ch == 100
    then vpa
    else if ch == 109
    then sgr
    else if ch == 104
    then decset
    else if ch == 108
    then decrst
    else other_function

-- `n > 0` of an `int`.
abbrev pub is_positive : ℕ → Bool
is_positive n = ltb 0 n && ltb n 0x80000000

abbrev pub one_less : ℕ → ℕ
one_less n = if is_positive n then n - 1 else n

unfoldable pub set_fg_color : ℕ → Terminal → Result Terminal
set_fg_color color t = do
  rgba ← ansi_color_to_rgba color
  ok (call (Call.set_fg_color color) (record t { cursor = record (t.cursor) { fg_color = rgba } }))

unfoldable pub set_bg_color : ℕ → Terminal → Result Terminal
set_bg_color color t = do
  rgba ← ansi_color_to_rgba color
  ok (call (Call.set_bg_color color) (record t { cursor = record (t.cursor) { bg_color = rgba } }))

abbrev pub in_range : ℕ → ℕ → ℕ → Bool
in_range low high n = leb low n && ltb n high

-- `SGR`
unfoldable pub select_graphics : ℕ → Terminal → Result Terminal
select_graphics type t =
    if type == 0
    then (do t ← set_fg_color bright_white t; set_bg_color black t)
    else if in_range 30 38 type
    then set_fg_color (type - 30) t
    else if in_range 40 48 type
    then set_bg_color (type - 40) t
    else if type == 39
    then set_fg_color bright_white t
    else if type == 49
    then set_bg_color black t
    else if in_range 90 98 type
    then set_fg_color (bright_black + type - 90) t
    else if in_range 100 108 type
    then set_bg_color (bright_black + type - 90) t
    else ok t

-- `EL`
unfoldable pub erase_line : ℕ → Terminal → Result Terminal
erase_line type t = if ltb 2 type then ok t else (do
  let from_column = if type == 0 then t.cursor.column else 0
  let to_column = if type == 1 then t.cursor.column else sub32 t.width 1
  let line = mul32 t.width t.cursor.row
  cells ←
      clear_cells (add32 line from_column) (suc (add32 line to_column) - add32 line from_column)
        (get_buffer t)
  ok (set_buffer cells (call (Call.clear t.cursor.row from_column t.cursor.row to_column) t)))

-- A control sequence with its arguments; a missing one is 0.
unfoldable pub run_csi : CsiFunction → Bool → List ℕ → Terminal → Result Terminal
run_csi cuu private args t = ok (set_cursor (min t.cursor.row (get_or args 0 0)) t.cursor.column t)
run_csi cha private args t =
    let n = get_or args 0 0 in
    ok (
      set_cursor t.cursor.row
        (min (if ltb 0 n && leb n 0x80000000 then n - 1 else 0) (sub32 t.width 1)) t)
run_csi cup private args t =
    ok (set_cursor (one_less (get_or args 0 0)) (one_less (get_or args 1 0)) t)
run_csi ed private args t =
    if get_or args 0 0 == 2 then clear_region 0 0 (sub32 t.height 1) (sub32 t.width 1) t else ok t
run_csi el private args t = erase_line (get_or args 0 0) t
run_csi su private args t = repeat (get_or args 0 0) do_scroll_up t
run_csi sd private args t = repeat (get_or args 0 0) do_scroll_down t
run_csi rep private args t =
    let n = get_or args 0 0 in
    repeat (if n == 0 then 1 else n) (λ t. write_char t.last_char t.cursor.row t.cursor.column t) t
run_csi vpa private args t = ok (set_cursor_row (one_less (get_or args 0 0)) t)
run_csi sgr private args t = select_graphics (get_or args 0 0) t
run_csi decset private args t =
    if private && get_or args 0 0 == 1049
    then switch_buffer true true (record t { saved_cursor = t.cursor })
    else ok t
run_csi decrst private args t =
    if private && get_or args 0 0 == 1049
    then (do
      t ← switch_buffer false false t
      ok (set_cursor t.saved_cursor.row t.saved_cursor.column t))
    else ok t
run_csi other_function private args t = ok t

-- `m_csi_state` after a byte: while it is not final, the sequence goes on.
abbrev pub next_csi_state : CsiState → ℕ → CsiState
next_csi_state csi_sequence_params ch =
    if leb 0x30 ch && ltb ch 0x40
    then csi_sequence_params
    else if leb 0x20 ch && ltb ch 0x30
    then csi_sequence_intermediate
    else csi_sequence_final
next_csi_state csi_sequence_intermediate ch =
    if leb 0x20 ch && ltb ch 0x30 then csi_sequence_intermediate else csi_sequence_final
next_csi_state csi_sequence_final ch = csi_sequence_final

unfoldable pub finish_csi : ℕ → Terminal → Result Terminal
finish_csi ch t = do
  args ← parse_csi_arguments t.current_escape_sequence
  third ← or_fault (get_elem? t.current_escape_sequence 2) out_of_bounds
  t ← run_csi (csi_function ch) (third == 63) args t
  ok (reset_sequence t)

unfoldable pub read_csi_sequence : ℕ → Terminal → Result Terminal
read_csi_sequence ch t =
    let state = next_csi_state t.csi_state ch in
    let t' = record t { csi_state = state } in
    elim state [
      | csi_sequence_params ↦ ok t'
      | csi_sequence_intermediate ↦ ok t'
      | csi_sequence_final ↦ finish_csi ch t'
    ]

-- `m_current_escape_sequence += ch`
abbrev pub add_to_sequence : ℕ → Terminal → Terminal
add_to_sequence ch t = record t { current_escape_sequence = t.current_escape_sequence ++ ch ∷ [] }

-- A byte that is no control code, by the state of the sequence.
unfoldable pub echo_in : SequenceState → ℕ → Terminal → Result Terminal
echo_in csi_sequence ch t = read_csi_sequence ch (add_to_sequence ch t)
echo_in fe_sequence ch t = read_fe_sequence ch (add_to_sequence ch t)
echo_in osc_sequence ch t =
    let t' = add_to_sequence ch t in
    if ltb ch 128 then write_char ch t'.cursor.row t'.cursor.column t' else ok t'
echo_in no_sequence ch t = if ltb ch 128 then write_char ch t.cursor.row t.cursor.column t else ok t

-- BEL, HT and FF are not implemented.
abbrev pub is_ignored : ℕ → Bool
is_ignored ch = ch == 7 || ch == 9 || ch == 12

abbrev pub begin_escape : Terminal → Terminal
begin_escape t = record t { sequence_state = fe_sequence; csi_state = csi_sequence_params }

unfoldable pub echo : ℕ → Terminal → Result Terminal
echo ch t =
    if is_ignored ch
    then ok t
    else if ch == 8
    then ok (backspace t)
    else if ch == 10
    then line_feed t
    else if ch == 13
    then ok (carriage_return t)
    else if ch == 27
    then ok (add_to_sequence ch (begin_escape t))
    else echo_in t.sequence_state ch t

unfoldable pub echo_all : List ℕ → Terminal → Result Terminal
echo_all [] t = ok t
echo_all (ch ∷ text) t = do t ← echo ch t; echo_all text t
