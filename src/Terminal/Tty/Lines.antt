-- ===== src/Terminal/Tty/Lines.antt =====
-- `switch_buffers` of src/kernel/tty/TTY.cpp, from lines to characters.
use ow_os.Common.{
  ℕ, ◌+◌, ◌≤◌, ◌<◌, ◌≡◌, refl, sym, ap, ◌∙◌, subst, Bool, true, false, not, ◌&&◌, ◌||◌, List, [],
  ◌∷◌, ◌++◌, append_assoc, append-nil, reverse, length, length-append, if◌then◌else◌, arith, ok,
}
use ow_os.Libk.CircularBuffer.{CircularBuffer}
use ow_os.Libk.CircularBuffer.Refine.{Holds, push_latest, push-Holds, pop-Holds}
use ow_os.Terminal.Tty.{
  Tty, Termios, has_flag, icanon, pop_all, push_all, push_lines, switch_to_chars, set_termios,
  is_empty_line, c_string,
}

push_latest-append :
    (capacity : ℕ) (q : List ℕ) (ch : ℕ)
    → length q < capacity
    → push_latest capacity q ch ≡ q ++ ch ∷ []
push_latest-append capacity [] ch h = refl
push_latest-append capacity (c ∷ q) ch h = ground arith

push_all-Holds :
    (text : List ℕ) (c : CircularBuffer ℕ) (q : List ℕ)
    → Holds c q
    → length q + length text ≤ c.capacity
    → (c' : CircularBuffer ℕ) × (push_all text c ≡ ok c')
      × (c'.capacity ≡ c.capacity)
      × Holds c' (q ++ text)
unfolding push_all
push_all-Holds [] c q h fits = (c, refl, refl, subst (Holds c) (sym (append-nil q)) h)
push_all-Holds (ch ∷ text) c q h fits =
    let (c₁, eq, cap, held) = push-Holds c q ch h in
    let held' = subst (Holds c₁) (push_latest-append c.capacity q ch (omega arith)) held in
    let (c₂, eq', cap', held₂) =
      push_all-Holds text c₁ (q ++ ch ∷ []) held' (omega (arith, length-append q (ch ∷ []), cap)) in
    (c₂, rw eq eq', cap' ∙ cap, subst (Holds c₂) (append_assoc q (ch ∷ []) text) held₂)

-- The lines one after another.
unfoldable pub joined : List (List ℕ) → List ℕ
joined [] = []
joined (line ∷ lines) = line ++ joined lines

push_lines-Holds :
    (lines : List (List ℕ)) (c : CircularBuffer ℕ) (q : List ℕ)
    → Holds c q
    → length q + length (joined lines) ≤ c.capacity
    → (c' : CircularBuffer ℕ) × (push_lines lines c ≡ ok c') × Holds c' (q ++ joined lines)
unfolding push_lines joined
push_lines-Holds [] c q h fits = (c, refl, subst (Holds c) (sym (append-nil q)) h)
push_lines-Holds (line ∷ lines) c q h fits =
    let (c₁, eq, cap, held) =
      push_all-Holds line c q h (omega (arith, length-append line (joined lines))) in
    let (c₂, eq', held₂) =
      push_lines-Holds lines c₁ (q ++ line) held
        (omega (arith, cap, length-append line (joined lines), length-append q line)) in
    (c₂, rw eq eq', subst (Holds c₂) (append_assoc q line (joined lines)) held₂)

pop_all-Holds :
    (q : List ℕ) (c : CircularBuffer ℕ)
    → Holds c q
    → (c' : CircularBuffer ℕ) × (pop_all (length q) c ≡ ok (q, c'))
      × (c'.capacity ≡ c.capacity)
      × Holds c' []
unfolding pop_all
pop_all-Holds [] c h = (c, refl, refl, h)
pop_all-Holds (ch ∷ q) c h =
    let (c₁, eq, cap, held) = pop-Holds c ch q h in
    let (c₂, eq', cap', held') = pop_all-Holds q c₁ held in
    (c₂, rw eq (rw eq' refl), cap' ∙ cap, held')

-- The choice of `switch_buffers` for a change from lines to characters.
switch-chars :
    {A : Type 0} (old new : Bool) (one two three : A)
    → old ≡ true
    → new ≡ false
    → (if (old && new) || (not old && not new) then one else if new then two else three) ≡ three
switch-chars true false one two three o n = refl
switch-chars true true one two three o n = cc
switch-chars false new one two three o n = cc

no_current :
    (line : List ℕ) (lines : List (List ℕ))
    → line ≡ []
    → lines ++ (if is_empty_line line then [] else c_string line ∷ []) ≡ lines
no_current line lines e = rw e (append-nil lines)

switch_to_chars-reverse :
    {S : Type 0} (t : Tty S) (q : List ℕ)
    → Holds t.input_char_buffer q
    → t.current_input_line ≡ []
    → length (joined (reverse t.input_line_buffer)) ≤ t.input_char_buffer.capacity
    → (u : Tty S) × (switch_to_chars t ≡ ok u)
      × Holds u.input_char_buffer (joined (reverse t.input_line_buffer))
      × (u.input_line_buffer ≡ [])
unfolding switch_to_chars
switch_to_chars-reverse t q h e room =
    let (c₁, eq, cap, held) = pop_all-Holds q t.input_char_buffer h in
    let (c₂, eq', held') =
      push_lines-Holds (reverse t.input_line_buffer) c₁ [] held (omega (arith, cap)) in
    let all : pop_all t.input_char_buffer.size t.input_char_buffer ≡ ok (q, c₁) =
      ap (λ n. pop_all n t.input_char_buffer) h.size_eq ∙ eq in
    (
      record t { current_input_line = []; input_line_buffer = []; input_char_buffer = c₂ },
      rw (all, no_current t.current_input_line t.input_line_buffer e, eq') refl,
      held',
      refl,
    )

-- When canonical mode is left with lines that no reader took, and none begun, the character buffer
-- gets the characters of the lines with the latest line first, if it has room for all.
pub set_termios-reverse :
    {S : Type 0} (t : Tty S) (new : Termios) (q : List ℕ)
    → Holds t.input_char_buffer q
    → t.current_input_line ≡ []
    → has_flag t.termios.c_lflag icanon ≡ true
    → has_flag new.c_lflag icanon ≡ false
    → length (joined (reverse t.input_line_buffer)) ≤ t.input_char_buffer.capacity
    → (u : Tty S) × (set_termios new t ≡ ok u)
      × Holds u.input_char_buffer (joined (reverse t.input_line_buffer))
      × (u.input_line_buffer ≡ [])
unfolding set_termios
set_termios-reverse t new q h e old now room =
    let (u, eq, held, none_left) =
      switch_to_chars-reverse (record t { termios = new }) q h e room in
    (
      u,
      switch-chars (has_flag t.termios.c_lflag icanon) (has_flag new.c_lflag icanon) _ _ _ old now
          ∙ eq,
      held,
      none_left,
    )
