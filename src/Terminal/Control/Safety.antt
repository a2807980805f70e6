-- ===== src/Terminal/Control/Safety.antt =====
-- `echo` of src/kernel/tty/Terminal.cpp: which bytes a terminal takes without leaving its buffers.
use ow_os.Common.{
  ℕ, suc, ◌+◌, ◌-◌, ◌*◌, ◌≤◌, ◌<◌, ◌≡◌, refl, Bool, true, false, not, ◌&&◌, ◌||◌, List, ltb, ◌==◌,
  if◌then◌else◌, arith, add32, sub32, mul32, get_or, Result, ok, err, Returns, Returns->>=,
  Returns-if, get_elem?-eq-get_or,
}
use native.Mathlib.Nat.{mul-le-mul_right, mul_comm}
use ow_os.Terminal.{Terminal, get_buffer, color_lut, set_cursor, do_scroll_up, do_scroll_down}
use ow_os.Terminal.Control
use ow_os.Terminal.Control.Screen.{IsSized, IsScreen, buffer-length, sizes}
use ow_os.Terminal.Control.Kept.{
  Safe, Kept, Kept-refl, Kept->>=, set_cursor-Kept, clear_region-Kept, scroll_up-Kept,
  scroll_down-Kept, write_char-Kept, repeat-Kept, cleared, stored, call-IsSized, call-Kept,
}

-- Cells of the cursor's row.
line-le :
    (t : Terminal) (from to : ℕ)
    → IsScreen t
    → from < t.width
    → to < t.width
    → (let line = mul32 t.width t.cursor.row in
        add32 line from + (suc (add32 line to) - add32 line from) ≤ t.height * t.width)
line-le t from to s p q = omega (
  arith,
  mul-le-mul_right {m = suc t.cursor.row} t.width s.1.0,
  mul_comm t.width t.cursor.row,
  s.0.fits,
)

erase_line-Kept :
    (type : ℕ) (t : Terminal) → IsScreen t → Returns (Kept t) (Control.erase_line type t)
unfolding Control.erase_line
erase_line-Kept type t s =
    Returns-if (Kept t) (ltb 2 type) _ _ (λ e. Kept-refl t s)
      (λ e.
        cleared t _ _ (get_buffer t) _ (buffer-length t s.0) (line-le t _ _ s from_in to_in)
          (λ c e'. stored t _ c s e'))
  where
    from_in : (if type == 0 then t.cursor.column else 0) < t.width
    from_in = ground (arith, s.1.1, s.0.wide)

    to_in : (if type == 1 then t.cursor.column else sub32 t.width 1) < t.width
    to_in = ground (arith, s.1.1, s.0.wide, (sizes t s.0).1)

-- Only the colours of the cursor change.
coloured-Kept :
    (fg bg : ℕ) (t : Terminal)
    → IsScreen t
    → Kept t (record t { cursor = record (t.cursor) { fg_color = fg; bg_color = bg } })
coloured-Kept fg bg t s = (
  (
    (
      record {
        wide = s.0.wide;
        high = s.0.high;
        fits = s.0.fits;
        main_length = s.0.main_length;
        alternate_length = s.0.alternate_length;
        escapes = s.0.escapes;
        saved = s.0.saved;
        alternate_saved = s.0.alternate_saved;
      },
      s.1,
    ),
    (λ h. refl),
  ),
  refl,
  refl,
)

set_fg_color-Kept :
    (color : ℕ) (t : Terminal)
    → color < 16
    → IsScreen t
    → Returns (Kept t) (Control.set_fg_color color t)
unfolding Control.set_fg_color
set_fg_color-Kept color t h s =
    rw (get_elem?-eq-get_or color_lut color 0 h)
      (call-Kept t _ _ (coloured-Kept (get_or color_lut color 0) t.cursor.bg_color t s))

set_bg_color-Kept :
    (color : ℕ) (t : Terminal)
    → color < 16
    → IsScreen t
    → Returns (Kept t) (Control.set_bg_color color t)
unfolding Control.set_bg_color
set_bg_color-Kept color t h s =
    rw (get_elem?-eq-get_or color_lut color 0 h)
      (call-Kept t _ _ (coloured-Kept t.cursor.fg_color (get_or color_lut color 0) t s))

select_graphics-Kept :
    (type : ℕ) (t : Terminal)
    → Control.in_range 100 108 type ≡ false
    → IsScreen t
    → Returns (Kept t) (Control.select_graphics type t)
unfolding Control.select_graphics
select_graphics-Kept type t n s =
    Returns-if (Kept t) (type == 0) _ _
      (λ e.
        Kept->>= t (Control.set_fg_color 15 t) (Control.set_bg_color 0)
          (set_fg_color-Kept 15 t (omega arith) s) (λ u s'. set_bg_color-Kept 0 u (omega arith) s'))
      (λ e.
        Returns-if (Kept t) (Control.in_range 30 38 type) _ _
          (λ h. set_fg_color-Kept (type - 30) t (ground arith) s)
          (λ e.
            Returns-if (Kept t) (Control.in_range 40 48 type) _ _
              (λ h. set_bg_color-Kept (type - 40) t (ground arith) s)
              (λ e.
                Returns-if (Kept t) (type == 39) _ _ (λ h. set_fg_color-Kept 15 t (omega arith) s)
                  (λ e.
                    Returns-if (Kept t) (type == 49) _ _
                      (λ h. set_bg_color-Kept 0 t (omega arith) s)
                      (λ e.
                        Returns-if (Kept t) (Control.in_range 90 98 type) _ _
                          (λ h. set_fg_color-Kept (8 + type - 90) t (ground arith) s)
                          (λ e.
                            Returns-if (Kept t) (Control.in_range 100 108 type) _ _
                              (λ h. absurd (ground (arith, h, n))) (λ h. Kept-refl t s)))))))

switched-IsSized :
    (b : Bool) (t : Terminal) → IsSized t → IsSized (record t { use_alternate_buffer = b })
switched-IsSized b t s = record {
  wide = s.wide;
  high = s.high;
  fits = s.fits;
  main_length = s.main_length;
  alternate_length = s.alternate_length;
  escapes = s.escapes;
  saved = s.saved;
  alternate_saved = s.alternate_saved;
}

pub Kept-Safe : (t : Terminal) (run : Result Terminal) → Returns (Kept t) run → Returns (Safe t) run
Kept-Safe t (ok u) k = k.0
Kept-Safe t (err e) k = absurd k

-- To the alternate buffer, which is cleared.
to_alternate-Safe :
    (t : Terminal) → IsScreen t → Returns (Safe t) (Control.switch_buffer true true t)
unfolding Control.switch_buffer
to_alternate-Safe t s =
    Returns-if (Safe t)
      ((t.use_alternate_buffer && true) || (not t.use_alternate_buffer && not true)) _ _
      (λ e. (s, (λ h. refl)))
      (λ e. relaxed _ (clear_region-Kept other (switched-IsSized true t s.0, s.1)))
  where
    other : Terminal
    other = record t { use_alternate_buffer = true }

    relaxed : (run : Result Terminal) → Returns (Kept other) run → Returns (Safe t) run
    relaxed (ok u) k = (k.0.0, (λ h. k.0.1 refl))
    relaxed (err e) k = absurd k

-- Back to the main buffer.
to_main-Safe : (t : Terminal) → IsScreen t → Returns (Safe t) (Control.switch_buffer false false t)
unfolding Control.switch_buffer
to_main-Safe t s =
    Returns-if (Safe t)
      ((t.use_alternate_buffer && false) || (not t.use_alternate_buffer && not false)) _ _
      (λ e. (s, (λ h. refl)))
      (λ e. ((call-IsSized _ _ (switched-IsSized false t s.0), s.1), (λ h. refl)))

-- Where a control sequence stays on the screen and inside the table of colours. The two that set a
-- position do not cut it off at the edge, and the bright background colours are off by ten.
unfoldable pub IsTame : Control.CsiFunction → List ℕ → ℕ → ℕ → Type 0
IsTame Control.cup args height width =
    (Control.one_less (get_or args 0 0) < height) × (Control.one_less (get_or args 1 0) < width)
IsTame Control.vpa args height width = Control.one_less (get_or args 0 0) < height
IsTame Control.sgr args height width = Control.in_range 100 108 (get_or args 0 0) ≡ false
IsTame _ args height width = Unit {0}

saved-IsSized : (t : Terminal) → IsScreen t → IsSized (record t { saved_cursor = t.cursor })
saved-IsSized t s = record {
  wide = s.0.wide;
  high = s.0.high;
  fits = s.0.fits;
  main_length = s.0.main_length;
  alternate_length = s.0.alternate_length;
  escapes = s.0.escapes;
  saved = s.1;
  alternate_saved = s.0.alternate_saved;
}

alternate_saved-IsSized :
    (t : Terminal) → IsScreen t → IsSized (record t { alternate_saved_cursor = t.cursor })
alternate_saved-IsSized t s = record {
  wide = s.0.wide;
  high = s.0.high;
  fits = s.0.fits;
  main_length = s.0.main_length;
  alternate_length = s.0.alternate_length;
  escapes = s.0.escapes;
  saved = s.0.saved;
  alternate_saved = s.1;
}

pub saved_cursor-Safe :
    (t : Terminal)
    → IsScreen t
    → (b : Bool)
    → Safe t (
        if b
        then record t { alternate_saved_cursor = t.cursor }
        else record t { saved_cursor = t.cursor })
saved_cursor-Safe t s true = ((alternate_saved-IsSized t s, s.1), (λ h. refl))
saved_cursor-Safe t s false = ((saved-IsSized t s, s.1), (λ h. refl))

pub run_csi-Safe :
    (f : Control.CsiFunction) (private : Bool) (args : List ℕ) (t : Terminal)
    → IsTame f args t.height t.width
    → IsScreen t
    → Returns (Safe t) (Control.run_csi f private args t)
unfolding IsTame Control.run_csi set_cursor
run_csi-Safe Control.cuu private args t h s =
    (set_cursor-Kept _ _ t s.0 (omega (arith, s.1.0)) s.1.1).0
run_csi-Safe Control.cha private args t h s =
    (set_cursor-Kept _ _ t s.0 s.1.0 (omega (arith, (sizes t s.0).1, s.0.wide))).0
run_csi-Safe Control.cup private args t h s = (set_cursor-Kept _ _ t s.0 h.0 h.1).0
run_csi-Safe Control.ed private args t h s =
    Returns-if (Safe t) (get_or args 0 0 == 2) _ _ (λ e. Kept-Safe t _ (clear_region-Kept t s))
      (λ e. (s, (λ h. refl)))
run_csi-Safe Control.el private args t h s = Kept-Safe t _ (erase_line-Kept _ t s)
run_csi-Safe Control.su private args t h s =
    Kept-Safe t _ (repeat-Kept (get_or args 0 0) do_scroll_up t scroll_up-Kept s)
run_csi-Safe Control.sd private args t h s =
    Kept-Safe t _ (repeat-Kept (get_or args 0 0) do_scroll_down t scroll_down-Kept s)
run_csi-Safe Control.rep private args t h s =
    Kept-Safe t _ (repeat-Kept _ _ t (λ u s'. write_char-Kept u.last_char u s') s)
run_csi-Safe Control.vpa private args t h s = (set_cursor-Kept _ _ t s.0 h s.1.1).0
run_csi-Safe Control.sgr private args t h s = Kept-Safe t _ (select_graphics-Kept _ t h s)
run_csi-Safe Control.decset private args t h s =
    Returns-if (Safe t) (private && get_or args 0 0 == 1049) _ _
      (λ e. to_alternate-Safe (record t { saved_cursor = t.cursor }) (saved-IsSized t s, s.1))
      (λ e. (s, (λ h. refl)))
run_csi-Safe Control.decrst private args t h s =
    Returns-if (Safe t) (private && get_or args 0 0 == 1049) _ _
      (λ e.
        Returns->>= (Safe t) (Safe t) (Control.switch_buffer false false t) _ (to_main-Safe t s)
          (λ u k.
            let c =
              set_cursor-Kept u.saved_cursor.row u.saved_cursor.column u k.0.0 k.0.0.saved.0
                k.0.0.saved.1 in
            (c.0.0, (λ h. k.1 h))))
      (λ e. (s, (λ h. refl)))
run_csi-Safe Control.other_function private args t h s = (s, (λ h. refl))
