-- ===== src/Terminal/Control/Echo.antt =====
-- `echo` of src/kernel/tty/Terminal.cpp, byte by byte.
use ow_os.Common.{
  ℕ, ◌-◌, ◌≤◌, ◌≡◌, refl, subst, Bool-cases, inl, inr, Bool, true, false, List, [], ◌∷◌, ◌++◌, ltb,
  ◌==◌, if◌then◌else◌, arith, length, length-append, Result, ok, err, Returns, Returns-if, ◌>>=◌,
  get_elem?-eq-get_or,
}
use ow_os.Terminal.{
  Terminal, SequenceState, no_sequence, fe_sequence, csi_sequence, osc_sequence, CsiState,
  csi_sequence_params, csi_sequence_intermediate, csi_sequence_final,
}
use ow_os.Terminal.Arguments.{parse_csi_arguments}
use ow_os.Terminal.Arguments.Numbers.{parse_csi_arguments-ok}
use ow_os.Terminal.Control
use ow_os.Terminal.Control.Screen.{IsSized, IsScreen, IsInside, Escapes}
use ow_os.Terminal.Control.Kept.{
  Safe, set_cursor-Kept, scroll_down-Kept, line_feed-Kept, write_char-Kept,
}
use ow_os.Terminal.Control.Safety.{IsTame, Kept-Safe, run_csi-Safe, saved_cursor-Safe}

-- Only what was read of a sequence changes.
sequence-IsSized :
    (t : Terminal) (s : List ℕ) (state : SequenceState) (csi : CsiState)
    → IsSized t
    → Escapes state s
    → IsSized (record t { current_escape_sequence = s; sequence_state = state; csi_state = csi })
sequence-IsSized t s state csi z e = record {
  wide = z.wide;
  high = z.high;
  fits = z.fits;
  main_length = z.main_length;
  alternate_length = z.alternate_length;
  escapes = e;
  saved = z.saved;
  alternate_saved = z.alternate_saved;
}

Escapes-add :
    (state : SequenceState) (s : List ℕ) (ch : ℕ) → Escapes state s → Escapes state (s ++ ch ∷ [])
Escapes-add no_sequence s ch e = tt
Escapes-add fe_sequence s ch e = omega (arith, length-append s (ch ∷ []))
Escapes-add csi_sequence s ch e = omega (arith, length-append s (ch ∷ []))
Escapes-add osc_sequence s ch e = tt

add-IsScreen : (t : Terminal) (ch : ℕ) → IsScreen t → IsScreen (Control.add_to_sequence ch t)
add-IsScreen t ch s = (
  sequence-IsSized t (t.current_escape_sequence ++ ch ∷ []) t.sequence_state t.csi_state s.0
      (Escapes-add t.sequence_state t.current_escape_sequence ch s.0.escapes),
  s.1,
)

-- The sequence is reset at the end.
reset-Safe :
    (t : Terminal) (run : Result Terminal)
    → Returns (Safe t) run
    → Returns (Safe t) (run >>= λ u. ok (Control.reset_sequence u))
reset-Safe t (ok u) k = ((sequence-IsSized u [] no_sequence u.csi_state k.0.0 tt, k.0.1), k.1)
reset-Safe t (err e) k = absurd k

saved_cursor-IsInside :
    (t : Terminal)
    → IsScreen t
    → (b : Bool)
    → IsInside t.width t.height (if b then t.alternate_saved_cursor else t.saved_cursor)
saved_cursor-IsInside t s true = s.0.alternate_saved
saved_cursor-IsInside t s false = s.0.saved

run_escape-Safe :
    (code : Control.EscapeCode) (t : Terminal)
    → 2 ≤ length t.current_escape_sequence
    → IsScreen t
    → Returns (Safe t) (Control.run_escape code t)
unfolding Control.run_escape
run_escape-Safe Control.reverse_index t h s = reset-Safe t _ (
    Returns-if (Safe t) (t.cursor.row == 0) _ _ (λ e. Kept-Safe t _ (scroll_down-Kept t s))
      (λ e.
        (set_cursor-Kept (t.cursor.row - 1) t.cursor.column t s.0 (omega (arith, s.1.0)) s.1.1).0))
run_escape-Safe Control.control_sequence t h s = (
  (sequence-IsSized t t.current_escape_sequence csi_sequence t.csi_state s.0 h, s.1),
  (λ e. refl),
)
run_escape-Safe Control.save_cursor t h s =
    reset-Safe t (ok _) (saved_cursor-Safe t s t.use_alternate_buffer)
run_escape-Safe Control.restore_cursor t h s =
    let c = saved_cursor-IsInside t s t.use_alternate_buffer in
    reset-Safe t (ok _) (set_cursor-Kept _ _ t s.0 c.0 c.1).0
run_escape-Safe Control.other_code t h s = reset-Safe t (ok t) (s, (λ e. refl))

-- The final byte of a control sequence.
finish_csi-Safe :
    (ch : ℕ) (t : Terminal)
    → 3 ≤ length t.current_escape_sequence
    → IsScreen t
    → ((args : List ℕ)
        → parse_csi_arguments t.current_escape_sequence ≡ ok args
        → IsTame (Control.csi_function ch) args t.height t.width)
    → Returns (Safe t) (Control.finish_csi ch t)
unfolding Control.finish_csi
finish_csi-Safe ch t h s tame =
    let (args, eq) = parse_csi_arguments-ok t.current_escape_sequence in
    rw (eq, get_elem?-eq-get_or t.current_escape_sequence 2 0 h)
      (reset-Safe t _ (run_csi-Safe (Control.csi_function ch) _ args t (tame args eq) s))

read_csi-Safe :
    (ch : ℕ) (t : Terminal)
    → 3 ≤ length t.current_escape_sequence
    → t.sequence_state ≡ csi_sequence
    → IsScreen t
    → ((args : List ℕ)
        → parse_csi_arguments t.current_escape_sequence ≡ ok args
        → IsTame (Control.csi_function ch) args t.height t.width)
    → Returns (Safe t) (Control.read_csi_sequence ch t)
unfolding Control.read_csi_sequence
read_csi-Safe ch t h e s tame =
    by_state (Control.next_csi_state t.csi_state ch) (Control.next_csi_state t.csi_state ch)
  where
    moved : (state : CsiState) → IsScreen (record t { csi_state = state })
    moved state =
        (sequence-IsSized t t.current_escape_sequence t.sequence_state state s.0 s.0.escapes, s.1)

    by_state :
        (state same : CsiState)
        → Returns (Safe t) (elim state [
          | csi_sequence_params ↦ ok (record t { csi_state = same })
          | csi_sequence_intermediate ↦ ok (record t { csi_state = same })
          | csi_sequence_final ↦ Control.finish_csi ch (record t { csi_state = same })
        ])
    by_state csi_sequence_params same = (moved same, (λ e. refl))
    by_state csi_sequence_intermediate same = (moved same, (λ e. refl))
    by_state csi_sequence_final same =
        finish_csi-Safe ch (record t { csi_state = same }) h (moved same) tame

-- A byte that is no control code.
echo_in-Safe :
    (state : SequenceState) (ch : ℕ) (t : Terminal)
    → t.sequence_state ≡ state
    → IsScreen t
    → (t.sequence_state ≡ csi_sequence
        → (args : List ℕ) → parse_csi_arguments (t.current_escape_sequence ++ ch ∷ []) ≡ ok args
        → IsTame (Control.csi_function ch) args t.height t.width)
    → Returns (Safe t) (Control.echo_in state ch t)
unfolding Control.echo_in Control.read_fe_sequence
echo_in-Safe no_sequence ch t e s tame =
    Returns-if (Safe t) (ltb ch 128) _ _ (λ h. Kept-Safe t _ (write_char-Kept ch t s))
      (λ h. (s, (λ e. refl)))
echo_in-Safe osc_sequence ch t e s tame =
    Returns-if (Safe t) (ltb ch 128) _ _
      (λ h. Kept-Safe t _ (write_char-Kept ch (Control.add_to_sequence ch t) (add-IsScreen t ch s)))
      (λ h. (add-IsScreen t ch s, (λ e. refl)))
echo_in-Safe fe_sequence ch t e s tame =
    run_escape-Safe (Control.escape_code ch) (Control.add_to_sequence ch t)
      (omega (
        arith,
        length-append t.current_escape_sequence (ch ∷ []),
        subst (λ z. Escapes z t.current_escape_sequence) e s.0.escapes,
      ))
      (add-IsScreen t ch s)
echo_in-Safe csi_sequence ch t e s tame =
    read_csi-Safe ch (Control.add_to_sequence ch t)
      (omega (
        arith,
        length-append t.current_escape_sequence (ch ∷ []),
        subst (λ z. Escapes z t.current_escape_sequence) e s.0.escapes,
      ))
      e (add-IsScreen t ch s) (tame e)

backspace-Safe : (t : Terminal) → IsScreen t → Safe t (Control.backspace t)
backspace-Safe t s = elim (Bool-cases (ltb 0 t.cursor.column)) [
  | inl e ↦
      rw e (set_cursor-Kept t.cursor.row (t.cursor.column - 1) t s.0 s.1.0 (omega (arith, s.1.1))).0
  | inr e ↦ rw e (s, (λ h. refl))
]

-- A byte sent to a terminal whose buffers have the console's size and whose cursors are on it, with
-- the exception of control sequences that put the cursor outside or ask for a bright background:
-- no access is out of bounds, and the buffers and the cursors are again so. While the alternate
-- buffer is in use, the main one is left as it is.
pub echo-Safe :
    (ch : ℕ) (t : Terminal)
    → IsScreen t
    → (t.sequence_state ≡ csi_sequence
        → (args : List ℕ) → parse_csi_arguments (t.current_escape_sequence ++ ch ∷ []) ≡ ok args
        → IsTame (Control.csi_function ch) args t.height t.width)
    → Returns (Safe t) (Control.echo ch t)
unfolding Control.echo
echo-Safe ch t s tame =
    Returns-if (Safe t) (Control.is_ignored ch) _ _ (λ e. (s, (λ h. refl)))
      (λ e.
        Returns-if (Safe t) (ch == 8) _ _ (λ h. backspace-Safe t s)
          (λ e.
            Returns-if (Safe t) (ch == 10) _ _ (λ h. Kept-Safe t _ (line_feed-Kept t s))
              (λ e.
                Returns-if (Safe t) (ch == 13) _ _
                  (λ h. (set_cursor-Kept t.cursor.row 0 t s.0 s.1.0 s.0.wide).0)
                  (λ e.
                    Returns-if (Safe t) (ch == 27) _ _
                      (λ h. (
                        (
                          sequence-IsSized t (t.current_escape_sequence ++ ch ∷ []) fe_sequence
                              csi_sequence_params s.0
                              (omega (arith, length-append t.current_escape_sequence (ch ∷ []))),
                          s.1,
                        ),
                        (λ h. refl),
                      ))
                      (λ e. echo_in-Safe t.sequence_state ch t refl s tame)))))
