-- ===== src/Terminal/Control/Screen.antt =====
-- What holds of every terminal of src/kernel/tty/Terminal.cpp: its buffers have the size of the
-- console and its cursors are on it; and what each operation keeps of that.
use ow_os.Common.{
  ℕ, zero, suc, ◌+◌, ◌-◌, ◌*◌, ◌≤◌, ◌<◌, ◌≡◌, refl, ap, ◌∙◌, true, ◌&&◌, List, [], ◌∷◌, ◌++◌, leb,
  lt→ltb, subst, arith, word, sub32, mul32, length, length-append, length-set, take, drop, Returns,
  Returns->>=,
}
use native.Mathlib.Nat.{mul-le-mul_right, mul_comm}
use ow_os.Terminal.{
  Cell, Cursor, Terminal, SequenceState, no_sequence, fe_sequence, csi_sequence, osc_sequence,
  store, move_cells, clear_cells, get_buffer, set_buffer, index, set_cursor, default_cell,
}

-- Cells.
pub store-length :
    (i : ℕ) (cell : Cell) (cells : List Cell)
    → i < length cells
    → Returns (λ c. length c ≡ length cells) (store i cell cells)
store-length i cell cells h = rw (lt→ltb _ _ h) (length-set cells i cell)

pub clear_cells-length :
    (i n : ℕ) (cells : List Cell)
    → i + n ≤ length cells
    → Returns (λ c. length c ≡ length cells) (clear_cells i n cells)
unfolding clear_cells
clear_cells-length i zero cells h = refl
clear_cells-length i (suc n) cells h =
    Returns->>= (λ c. length c ≡ length cells) (λ c. length c ≡ length cells)
      (store i default_cell cells) (λ c. clear_cells (i + 1) n c)
      (store-length i default_cell cells (omega arith))
      (λ c e.
        subst (λ k. Returns (λ d. length d ≡ k) (clear_cells (i + 1) n c)) e
          (clear_cells-length (i + 1) n c (omega (arith, e))))

length-take : (n : ℕ) (cells : List Cell) → n ≤ length cells → length (take n cells) ≡ n
length-take zero cells h = refl
length-take (suc n) [] h = absurd (omega arith)
length-take (suc n) (c ∷ cells) h = ap suc (length-take n cells (omega arith))

length-drop : (n : ℕ) (cells : List Cell) → length (drop n cells) ≡ length cells - n
length-drop zero cells = omega arith
length-drop (suc n) [] = omega arith
length-drop (suc n) (c ∷ cells) = length-drop n cells ∙ omega arith

pub move_cells-length :
    (dest src n : ℕ) (cells : List Cell)
    → dest + n ≤ length cells
    → src + n ≤ length cells
    → Returns (λ c. length c ≡ length cells) (move_cells dest src n cells)
move_cells-length dest src n cells p q = rw fits sized
  where
    fits : (leb (dest + n) (length cells) && leb (src + n) (length cells)) ≡ true
    fits = ground arith

    kept : List Cell
    kept = drop (dest + n) cells

    sized : length (take dest cells ++ (take n (drop src cells) ++ kept)) ≡ length cells
    sized = omega (
      arith,
      length-append (take dest cells) (take n (drop src cells) ++ kept),
      length-append (take n (drop src cells)) kept,
      length-take dest cells (omega arith),
      length-take n (drop src cells) (omega (arith, length-drop src cells)),
      length-drop (dest + n) cells,
    )

-- How much of an escape sequence was read in each state.
abbrev pub Escapes : SequenceState → List ℕ → Type 0
Escapes no_sequence s = Unit {0}
Escapes fe_sequence s = 1 ≤ length s
Escapes csi_sequence s = 2 ≤ length s
Escapes osc_sequence s = Unit {0}

abbrev pub IsInside : ℕ → ℕ → Cursor → Type 0
IsInside width height c = (c.row < height) × (c.column < width)

-- The buffers have a cell for each place of the console, and the sequence began with an escape.
pub record IsSized (t : Terminal) : Type 0 where
  pub wide : 0 < t.width
  pub high : 0 < t.height
  pub fits : t.height * t.width < word
  pub main_length : length t.main_buffer ≡ t.height * t.width
  pub alternate_length : length t.alternate_buffer ≡ t.height * t.width
  pub escapes : Escapes t.sequence_state t.current_escape_sequence
  pub saved : IsInside t.width t.height t.saved_cursor
  pub alternate_saved : IsInside t.width t.height t.alternate_saved_cursor

-- The cursor is on the console too.
abbrev pub IsScreen : Terminal → Type 0
IsScreen t = IsSized t × IsInside t.width t.height t.cursor

pub buffer-length : (t : Terminal) → IsSized t → length (get_buffer t) ≡ t.height * t.width
buffer-length t s = ground (arith, s.main_length, s.alternate_length)

pub set_buffer-IsSized :
    (t : Terminal) (cells : List Cell)
    → IsSized t
    → length cells ≡ t.height * t.width
    → IsSized (set_buffer cells t)
set_buffer-IsSized t cells s e = record {
  wide = s.wide;
  high = s.high;
  fits = s.fits;
  main_length = ground (arith, s.main_length);
  alternate_length = ground (arith, s.alternate_length);
  escapes = s.escapes;
  saved = s.saved;
  alternate_saved = s.alternate_saved;
}

pub set_cursor-IsScreen :
    (row column : ℕ) (t : Terminal)
    → IsSized t
    → row < t.height
    → column < t.width
    → IsScreen (set_cursor row column t)
unfolding set_cursor
set_cursor-IsScreen row column t s p q = (
  record {
    wide = s.wide;
    high = s.high;
    fits = s.fits;
    main_length = s.main_length;
    alternate_length = s.alternate_length;
    escapes = s.escapes;
    saved = s.saved;
    alternate_saved = s.alternate_saved;
  },
  (p, q),
)

-- A place of the console has its index in the buffers.
pub index-lt :
    (t : Terminal) (row column : ℕ)
    → IsSized t
    → row < t.height
    → column < t.width
    → (index t.width row column ≡ row * t.width + column)
      × (row * t.width + column < t.height * t.width)
index-lt t row column s p q =
    let m = mul-le-mul_right {m = suc row} t.width p in (omega (arith, m, s.fits), omega (arith, m))

-- The sizes that the operations compute do not wrap.
pub sizes :
    (t : Terminal)
    → IsSized t
    → (sub32 t.height 1 ≡ t.height - 1)
      × (sub32 t.width 1 ≡ t.width - 1)
      × (mul32 t.width (sub32 t.height 1) + t.width ≡ t.height * t.width)
      × (mul32 t.width t.height ≡ t.height * t.width)
sizes t s =
    let rows = mul-le-mul_right {m = 1} t.width s.high in
    let columns = mul-le-mul_right {m = 1} t.height s.wide in
    let swap = mul_comm t.height t.width in
    let one = one_row t.height t.width s.high in
    let swap' = mul_comm (t.height - 1) t.width in
    let last : sub32 t.height 1 ≡ t.height - 1 = omega (arith, columns, swap, s.high, s.fits) in
    (
      last,
      omega (arith, rows, s.fits, s.wide),
      rw last (omega (arith, one, swap', s.fits)),
      omega (arith, swap, s.fits),
    )
  where
    one_row : (h w : ℕ) → 0 < h → (h - 1) * w + w ≡ h * w
    one_row (suc h) w p = let e : suc h - 1 ≡ h = omega arith in rw e (omega arith)
    one_row zero w p = absurd (omega arith)

pub last_index :
    (t : Terminal)
    → IsSized t
    → index t.width (sub32 t.height 1) (sub32 t.width 1) + 1 ≡ t.height * t.width
last_index t s =
    let e = sizes t s in
    let at =
      index-lt t (sub32 t.height 1) (sub32 t.width 1) s (omega (arith, e.0, s.high))
        (omega (arith, e.1, s.wide)) in
    omega (
      arith,
      at.0,
      e.1,
      e.2,
      s.wide,
      mul_comm t.width (sub32 t.height 1),
      e.0,
      mul_comm (sub32 t.height 1) t.width,
      s.fits,
    )
