-- ===== src/Terminal/Tty.antt =====
-- src/kernel/tty/TTY.cpp: the line discipline between the keyboard, which emits characters, the
-- screen, which echoes them, and the readers. A read that would wait gives `none`.
pub mod Lines
pub mod Typing
pub mod Reading
pub mod Display
use Prim.Native.Nat.{bit_and, bit_or}
use ow_os.Common.{
  ℕ, zero, suc, ◌+◌, ◌-◌, min, Bool, true, false, not, ◌&&◌, ◌||◌, Option, none, some, List, [],
  ◌∷◌, ◌++◌, reverse, ltb, ◌==◌, if◌then◌else◌, length, Result, ok, err, ◌>>=◌, out_of_fuel,
}
use ow_os.Libk.CircularBuffer
use ow_os.Libk.CircularBuffer.{CircularBuffer, is_empty}

-- The virtual methods `echo` and `unecho`.
pub record Screen (S : Type 0) : Type 0 where
  pub echo : ℕ → S → Result S
  pub unecho : S → S

-- The fields of `struct termios` that the code reads.
pub record Termios : Type 0 where
  pub c_oflag : ℕ
  pub c_lflag : ℕ
  pub veof : ℕ
  pub veol : ℕ
  pub verase : ℕ
  pub vkill : ℕ
  pub vmin : ℕ

abbrev pub opost : ℕ
opost = 1

abbrev pub onlcr : ℕ
onlcr = 2

abbrev pub echo_flag : ℕ
echo_flag = 1

abbrev pub echoe : ℕ
echoe = 2

abbrev pub echok : ℕ
echok = 4

abbrev pub echonl : ℕ
echonl = 8

abbrev pub icanon : ℕ
icanon = 0x10

abbrev pub isig : ℕ
isig = 0x40

abbrev pub has_flag : ℕ → ℕ → Bool
has_flag flags flag = not (bit_and flags flag == 0)

-- `reset_termios`
abbrev pub default_termios : Termios
default_termios = record {
  c_oflag = 3;
  c_lflag = 0x5F;
  veof = 4;
  veol = 0;
  verase = 127;
  vkill = 21;
  vmin = 1;
}

-- The terminal device and the screen behind it. The queue of lines begins with the oldest.
pub record Tty (S : Type 0) : Type 0 where
  pub current_input_line : List ℕ
  pub current_read_line : List ℕ
  pub input_line_buffer : List (List ℕ)
  pub input_char_buffer : CircularBuffer ℕ
  pub termios : Termios
  pub screen : S

-- `c_str()` read as a string: what stands before a NUL.
unfoldable pub c_string : List ℕ → List ℕ
c_string [] = []
c_string (c ∷ s) = if c == 0 then [] else c ∷ c_string s

-- `pop_back`
unfoldable pub pop_back : List ℕ → List ℕ
pop_back [] = []
pop_back (c ∷ []) = []
pop_back (c ∷ d ∷ s) = c ∷ pop_back (d ∷ s)

abbrev pub is_empty_line : List ℕ → Bool
is_empty_line [] = true
is_empty_line (c ∷ s) = false

-- The loop of `canonical_read`: the characters that are given and those that are left.
unfoldable pub take_line : ℕ → List ℕ → List ℕ × List ℕ
take_line zero line = ([], line)
take_line (suc bytes) [] = ([], [])
take_line (suc bytes) (c ∷ line) = (c ∷ (take_line bytes line).0, (take_line bytes line).1)

-- `counter` pops of the character buffer.
unfoldable pub pop_all : ℕ → CircularBuffer ℕ → Result (List ℕ × CircularBuffer ℕ)
pop_all zero c = ok ([], c)
pop_all (suc n) c = do (ch, c) ← CircularBuffer.pop c; (text, c) ← pop_all n c; ok (ch ∷ text, c)

-- `push` of every character of a line.
unfoldable pub push_all : List ℕ → CircularBuffer ℕ → Result (CircularBuffer ℕ)
push_all [] c = ok c
push_all (ch ∷ text) c = do c ← CircularBuffer.push c ch; push_all text c

unfoldable pub push_lines : List (List ℕ) → CircularBuffer ℕ → Result (CircularBuffer ℕ)
push_lines [] c = ok c
push_lines (line ∷ lines) c = do c ← push_all line c; push_lines lines c

module _ {S : Type 0} where
  -- `m_input_line_buffer.put(...)` of the current line, which starts anew.
  abbrev pub put_line : Tty S → Tty S
  put_line t = record t {
    input_line_buffer = t.input_line_buffer ++ c_string t.current_input_line ∷ [];
    current_input_line = [];
  }

  abbrev pub push_back : ℕ → Tty S → Tty S
  push_back ch t = record t { current_input_line = t.current_input_line ++ ch ∷ [] }

module _ {S : Type 0} (screen : Screen S) where
  unfoldable pub process_echo : ℕ → Tty S → Result (Tty S)
  process_echo ch t =
      if not (has_flag t.termios.c_oflag opost)
      then (do s ← screen.echo ch t.screen; ok (record t { screen = s }))
      else (do
        s ←
            if ch == 10 && has_flag t.termios.c_oflag onlcr
            then screen.echo 13 t.screen
            else ok t.screen
        s ← screen.echo ch s
        ok (record t { screen = s }))

  -- `write`
  unfoldable pub write : List ℕ → Tty S → Result (Tty S)
  write [] t = ok t
  write (ch ∷ text) t = do t ← process_echo ch t; write text t

  abbrev pub unecho_if_echo : Tty S → Tty S
  unecho_if_echo t =
      if has_flag t.termios.c_lflag echo_flag
      then record t { screen = screen.unecho t.screen }
      else t

  -- The loop of the kill character, a round for each character of the line.
  unfoldable pub erase_all : List ℕ → Tty S → Tty S
  erase_all [] t = record t { current_input_line = [] }
  erase_all (c ∷ line) t = erase_all line (unecho_if_echo t)

  -- A `char` against an unsigned character of `c_cc`: a byte from 128 on is negative.
  abbrev pub is_key : ℕ → ℕ → Bool
  is_key ch key = ltb ch 128 && ch == key

  abbrev pub ends_line : ℕ → Termios → Bool
  ends_line ch t = has_flag t.c_lflag icanon && (ch == 10 || is_key ch t.veol || is_key ch t.veof)

  abbrev pub erases : ℕ → Termios → Bool
  erases ch t = is_key ch t.verase && has_flag t.c_lflag echoe && has_flag t.c_lflag icanon

  abbrev pub kills : ℕ → Termios → Bool
  kills ch t = is_key ch t.vkill && has_flag t.c_lflag echok && has_flag t.c_lflag icanon

  unfoldable pub canonical_input : ℕ → Tty S → Result (Tty S)
  canonical_input ch t =
      if ends_line ch t.termios
      then (let put = put_line (if is_key ch t.termios.veof then t else push_back ch t) in
          if has_flag t.termios.c_lflag echo_flag || has_flag t.termios.c_lflag echonl
          then process_echo 10 put
          else ok put)
      else if erases ch t.termios
      then (if is_empty_line t.current_input_line
          then ok t
          else ok
              (unecho_if_echo (record t { current_input_line = pop_back t.current_input_line })))
      else if kills ch t.termios
      then ok (erase_all t.current_input_line t)
      else if has_flag t.termios.c_lflag echo_flag
      then process_echo ch (push_back ch t)
      else ok (push_back ch t)

  unfoldable pub non_canonical_input : ℕ → Tty S → Result (Tty S)
  non_canonical_input ch t = do
    buffer ← CircularBuffer.push t.input_char_buffer ch
    let pushed = record t { input_char_buffer = buffer }
    if has_flag t.termios.c_lflag echo_flag then process_echo ch pushed else ok pushed

  unfoldable pub emit : ℕ → Tty S → Result (Tty S)
  emit ch t =
      if has_flag t.termios.c_lflag icanon then canonical_input ch t else non_canonical_input ch t

  unfoldable pub emit_all : List ℕ → Tty S → Result (Tty S)
  emit_all [] t = ok t
  emit_all (ch ∷ text) t = do t ← emit ch t; emit_all text t

module _ {S : Type 0} where
  unfoldable pub canonical_read : ℕ → Tty S → Option (List ℕ × Tty S)
  canonical_read bytes t =
      if is_empty_line t.current_read_line
      then (elim t.input_line_buffer [
        | [] ↦ none
        | line ∷ lines ↦ some (
          (take_line bytes line).0,
          record t { current_read_line = (take_line bytes line).1; input_line_buffer = lines },
        )
      ])
      else some (
        (take_line bytes t.current_read_line).0,
        record t { current_read_line = (take_line bytes t.current_read_line).1 },
      )

  unfoldable pub non_canonical_read : ℕ → Tty S → Result (Option (List ℕ × Tty S))
  non_canonical_read bytes t = if ltb t.input_char_buffer.size t.termios.vmin then ok none else (do
    (text, c) ← pop_all (min t.input_char_buffer.size bytes) t.input_char_buffer
    ok (some (text, record t { input_char_buffer = c })))

  -- `read`, for as many bytes; a read that would wait gives `none`.
  unfoldable pub read : ℕ → Tty S → Result (Option (List ℕ × Tty S))
  read bytes t =
      if has_flag t.termios.c_lflag icanon
      then ok (canonical_read bytes t)
      else non_canonical_read bytes t

  -- The lines of the characters of the buffer: a line is put when its newline comes.
  unfoldable pub to_lines : List ℕ → Tty S → Tty S
  to_lines [] t = t
  to_lines (ch ∷ text) t =
      to_lines text (if ch == 10 then put_line (push_back ch t) else push_back ch t)

  -- From characters to lines.
  unfoldable pub switch_to_lines : Tty S → Result (Tty S)
  switch_to_lines t = do
    (text, c) ← pop_all t.input_char_buffer.size t.input_char_buffer
    ok (
        to_lines text
          (record t { current_input_line = []; input_line_buffer = []; input_char_buffer = c }))

  -- From lines to characters. The stack gives the lines back with the latest first.
  unfoldable pub switch_to_chars : Tty S → Result (Tty S)
  switch_to_chars t = do
    let current =
        if is_empty_line t.current_input_line then [] else c_string t.current_input_line ∷ []
    (text, c) ← pop_all t.input_char_buffer.size t.input_char_buffer
    c ← push_lines (reverse (t.input_line_buffer ++ current)) c
    ok (record t { current_input_line = []; input_line_buffer = []; input_char_buffer = c })

  -- `switch_buffers`, after `termios` took the place of the old settings.
  unfoldable pub set_termios : Termios → Tty S → Result (Tty S)
  set_termios new t =
      let changed = record t { termios = new } in
      if (has_flag t.termios.c_lflag icanon && has_flag new.c_lflag icanon)
        || (not (has_flag t.termios.c_lflag icanon) && not (has_flag new.c_lflag icanon))
      then ok changed
      else if has_flag new.c_lflag icanon
      then switch_to_lines changed
      else switch_to_chars changed
