-- ===== src/Terminal/Control/Kept.antt =====
-- The operations of src/kernel/tty/Terminal.cpp on the screen keep it whole, and while the alternate
-- buffer is in use they leave the main one alone.
use ow_os.Common.{
  ℕ, zero, suc, ◌+◌, ◌*◌, ◌≤◌, ◌<◌, ◌≡◌, refl, ◌∙◌, Bool-cases, inl, inr, true, List, ltb, ltb→lt,
  arith, sub32, mul32, length, Result, ok, err, Returns, Returns->>=, ◌>>=◌,
}
use ow_os.Terminal.{
  Cell, Call, call, Terminal, store, move_cells, clear_cells, get_buffer, set_buffer, index,
  set_cursor, clear_region, do_scroll_up, do_scroll_down,
}
use ow_os.Terminal.Control.{advance, line_feed, carriage_return, write_char, repeat}
use ow_os.Terminal.Control.Screen.{
  IsSized, IsScreen, set_cursor-IsScreen, set_buffer-IsSized, buffer-length, clear_cells-length,
  move_cells-length, store-length, index-lt, sizes, last_index,
}

-- The screen is whole, and the main buffer is as before if it was not in use.
abbrev pub Safe : Terminal → Terminal → Type 0
Safe t t' = IsScreen t' × (t.use_alternate_buffer ≡ true → t'.main_buffer ≡ t.main_buffer)

-- The buffer in use is also the same one, and the state of the sequence is.
abbrev pub Kept : Terminal → Terminal → Type 0
Kept t t' =
    Safe t t'
    × (t'.use_alternate_buffer ≡ t.use_alternate_buffer)
    × (t'.sequence_state ≡ t.sequence_state)

pub Kept-refl : (t : Terminal) → IsScreen t → Kept t t
Kept-refl t s = ((s, (λ e. refl)), refl, refl)

pub Kept-trans : (t u v : Terminal) → Kept t u → Kept u v → Kept t v
Kept-trans t u v a b = ((b.0.0, (λ e. b.0.1 (a.1 ∙ e) ∙ a.0.1 e)), b.1 ∙ a.1, b.2 ∙ a.2)

-- One operation after another.
pub Kept->>= :
    (t : Terminal) (run : Result Terminal) (next : Terminal → Result Terminal)
    → Returns (Kept t) run
    → ((u : Terminal) → IsScreen u → Returns (Kept u) (next u))
    → Returns (Kept t) (run >>= next)
Kept->>= t run next r f =
    Returns->>= (Kept t) (Kept t) run next r (λ u k. later (next u) (f u k.0.0) k)
  where
    later :
        {u : Terminal} (m : Result Terminal) → Returns (Kept u) m → Kept t u → Returns (Kept t) m
    later {u} (ok v) a k = Kept-trans t u v k a
    later (err e) a k = absurd a

pub set_cursor-Kept :
    (row column : ℕ) (t : Terminal)
    → IsSized t
    → row < t.height
    → column < t.width
    → Kept t (set_cursor row column t)
unfolding set_cursor
set_cursor-Kept row column t s p q =
    ((set_cursor-IsScreen row column t s p q, (λ e. refl)), refl, refl)

pub call-IsSized : (c : Call) (t : Terminal) → IsSized t → IsSized (call c t)
call-IsSized c t s = record {
  wide = s.wide;
  high = s.high;
  fits = s.fits;
  main_length = s.main_length;
  alternate_length = s.alternate_length;
  escapes = s.escapes;
  saved = s.saved;
  alternate_saved = s.alternate_saved;
}

last_char-IsSized : (ch : ℕ) (t : Terminal) → IsSized t → IsSized (record t { last_char = ch })
last_char-IsSized ch t s = record {
  wide = s.wide;
  high = s.high;
  fits = s.fits;
  main_length = s.main_length;
  alternate_length = s.alternate_length;
  escapes = s.escapes;
  saved = s.saved;
  alternate_saved = s.alternate_saved;
}

pub call-Kept : (t u : Terminal) (c : Call) → Kept t u → Kept t (call c u)
call-Kept t u c k = (((call-IsSized c u k.0.0.0, k.0.0.1), k.0.1), k.1, k.2)

-- Cells of the right number take the place of the buffer, and the console is told.
pub stored :
    (t : Terminal) (c : Call) (cells : List Cell)
    → IsScreen t
    → length cells ≡ t.height * t.width
    → Kept t (call c (set_buffer cells t))
stored t c cells s e = (
  ((call-IsSized c _ (set_buffer-IsSized t cells s.0 e), s.1), (λ h. ground (arith, h))),
  refl,
  refl,
)

-- Cleared cells take the place of the buffer.
pub cleared :
    (t : Terminal) (i n : ℕ) (cells : List Cell) (next : List Cell → Result Terminal)
    → length cells ≡ t.height * t.width
    → i + n ≤ t.height * t.width
    → ((c : List Cell) → length c ≡ t.height * t.width → Returns (Kept t) (next c))
    → Returns (Kept t) (clear_cells i n cells >>= next)
cleared t i n cells next e h f =
    Returns->>= (λ c. length c ≡ length cells) (Kept t) (clear_cells i n cells) next
      (clear_cells-length i n cells (omega (arith, e))) (λ c e'. f c (e' ∙ e))

pub clear_region-Kept :
    (t : Terminal)
    → IsScreen t
    → Returns (Kept t) (clear_region 0 0 (sub32 t.height 1) (sub32 t.width 1) t)
unfolding clear_region
clear_region-Kept t s =
    cleared t (index t.width 0 0) _ (get_buffer t) _ (buffer-length t s.0)
      (omega (arith, last_index t s.0)) (λ c e. stored t _ c s e)

pub scroll_up-Kept : (t : Terminal) → IsScreen t → Returns (Kept t) (do_scroll_up t)
unfolding do_scroll_up
scroll_up-Kept t s =
    let n = sizes t s.0 in
    Returns->>= (λ c. length c ≡ length (get_buffer t)) (Kept t)
      (move_cells 0 t.width (mul32 t.width (sub32 t.height 1)) (get_buffer t)) _
      (move_cells-length 0 t.width (mul32 t.width (sub32 t.height 1)) (get_buffer t)
        (omega (arith, n.2, buffer-length t s.0)) (omega (arith, n.2, buffer-length t s.0)))
      (λ c e.
        cleared t (mul32 t.width (sub32 t.height 1)) _ c _ (e ∙ buffer-length t s.0)
          (omega (arith, n.2, n.3))
          (λ c' e'.
            call-Kept t (set_buffer c' (call Call.scroll_up t)) _
              (stored t Call.scroll_up c' s e')))

pub scroll_down-Kept : (t : Terminal) → IsScreen t → Returns (Kept t) (do_scroll_down t)
unfolding do_scroll_down
scroll_down-Kept t s =
    let n = sizes t s.0 in
    Returns->>= (λ c. length c ≡ length (get_buffer t)) (Kept t)
      (move_cells t.width 0 (mul32 t.width (sub32 t.height 1)) (get_buffer t)) _
      (move_cells-length t.width 0 (mul32 t.width (sub32 t.height 1)) (get_buffer t)
        (omega (arith, n.2, buffer-length t s.0)) (omega (arith, n.2, buffer-length t s.0)))
      (λ c e. cleared t 0 t.width c _ (e ∙ buffer-length t s.0) (omega (arith, n.2)) (λ c' e'.
        call-Kept t (set_buffer c' (call Call.scroll_down t)) _
          (stored t Call.scroll_down c' s e')))

pub line_feed-Kept : (t : Terminal) → IsScreen t → Returns (Kept t) (line_feed t)
line_feed-Kept t s = elim (Bool-cases (ltb t.cursor.row (sub32 t.height 1))) [
  | inl e ↦ rw e (
      set_cursor-Kept (t.cursor.row + 1) t.cursor.column t s.0
        (omega (arith, (sizes t s.0).0, ltb→lt _ _ e)) s.1.1)
  | inr e ↦ rw e (scroll_up-Kept t s)
]

advance-Kept : (t : Terminal) → IsScreen t → Returns (Kept t) (advance t)
unfolding advance
advance-Kept t s = elim (Bool-cases (ltb t.cursor.column (sub32 t.width 1))) [
  | inl e ↦ rw e (
      set_cursor-Kept t.cursor.row (t.cursor.column + 1) t s.0 s.1.0
        (omega (arith, (sizes t s.0).1, ltb→lt _ _ e)))
  | inr e ↦ rw e (
      Kept->>= t (ok (carriage_return t)) line_feed
        (set_cursor-Kept t.cursor.row 0 t s.0 s.1.0 s.0.wide) line_feed-Kept)
]

-- A character at the cursor.
pub write_char-Kept :
    (ch : ℕ) (t : Terminal)
    → IsScreen t
    → Returns (Kept t) (write_char ch t.cursor.row t.cursor.column t)
unfolding write_char
write_char-Kept ch t s =
    let at = index-lt t t.cursor.row t.cursor.column s.0 s.1.0 s.1.1 in
    Returns->>= (λ c. length c ≡ length (get_buffer t)) (Kept t)
      (store (index t.width t.cursor.row t.cursor.column) cell (get_buffer t)) _
      (store-length _ cell (get_buffer t) (omega (arith, at.0, at.1, buffer-length t s.0)))
      (λ c e. Kept->>= t (ok (next c)) advance (next-Kept c (e ∙ buffer-length t s.0)) advance-Kept)
  where
    cell : Cell
    cell = record { ch = ch; fg_color = t.cursor.fg_color; bg_color = t.cursor.bg_color }

    next : List Cell → Terminal
    next c = record (call (Call.write_char t.cursor.row t.cursor.column ch) (set_buffer c t)) {
      last_char = ch;
    }

    next-Kept : (c : List Cell) → length c ≡ t.height * t.width → Kept t (next c)
    next-Kept c e =
        let k = stored t (Call.write_char t.cursor.row t.cursor.column ch) c s e in
        (
          (
            (
              last_char-IsSized ch
                  (call (Call.write_char t.cursor.row t.cursor.column ch) (set_buffer c t)) k.0.0.0,
              k.0.0.1,
            ),
            k.0.1,
          ),
          k.1,
          k.2,
        )

pub repeat-Kept :
    (n : ℕ) (operation : Terminal → Result Terminal) (t : Terminal)
    → ((u : Terminal) → IsScreen u → Returns (Kept u) (operation u))
    → IsScreen t
    → Returns (Kept t) (repeat n operation t)
unfolding repeat
repeat-Kept zero operation t f s = Kept-refl t s
repeat-Kept (suc n) operation t f s =
    Kept->>= t (operation t) (repeat n operation) (f t s) (λ u s'. repeat-Kept n operation u f s')
