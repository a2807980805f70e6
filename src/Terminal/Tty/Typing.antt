-- ===== src/Terminal/Tty/Typing.antt =====
-- The input of src/kernel/tty/TTY.cpp in canonical mode, from the keys that are typed to the text
-- that a reader gets, over any screen that echoes.

use mathlib.Core.List.{reverse-cons}
use ow_os.Common.{
  ℕ, ◌≡◌, refl, sym, ap, ◌∙◌, subst, true, false, ltb, List, [], ◌∷◌, ◌++◌, reverse, map, All, ◌==◌,
  arith, ok, Returns, returned,
}
use ow_os.Terminal.Tty
use ow_os.Terminal.Tty.{
  Tty, Screen, Termios, default_termios, c_string, pop_back, take_line, is_empty_line,
}
use ow_os.Terminal.Control.Printing.{IsPrintable}

-- What the line discipline asks of a screen: while it is ready, it takes printable characters and
-- the ends of lines, and gives characters back, and is ready again.
pub record Echoes {S : Type 0} (screen : Screen S) (IsReady : S → Type 0) : Type 0 where
  pub printable : (ch : ℕ) (s : S) → IsPrintable ch → IsReady s → Returns IsReady (screen.echo ch s)
  pub new_line : (s : S) → IsReady s → Returns IsReady (screen.echo 10 s)
  pub return_start : (s : S) → IsReady s → Returns IsReady (screen.echo 13 s)
  pub unechoed : (s : S) → IsReady s → IsReady (screen.unecho s)

-- What is typed: a character, or a key that takes one back, or all of the line.
pub data Stroke : Type 0 where
  letter : ℕ → Stroke
  rub_out : Stroke
  wipe : Stroke

abbrev pub byte_of : Stroke → ℕ
byte_of (letter ch) = ch
byte_of rub_out = 127
byte_of wipe = 21

abbrev pub IsStroke : Stroke → Type 0
IsStroke (letter ch) = IsPrintable ch
IsStroke rub_out = Unit
IsStroke wipe = Unit

-- A stroke on the characters that stand, the last one first.
abbrev pub strike : Stroke → List ℕ → List ℕ
strike (letter ch) stack = ch ∷ stack
strike rub_out [] = []
strike rub_out (c ∷ stack) = stack
strike wipe stack = []

-- The text that strokes leave.
unfoldable pub typed : List ℕ → List Stroke → List ℕ
typed stack [] = reverse stack
typed stack (k ∷ ks) = typed (strike k stack) ks

pop_back-append : (line : List ℕ) (c : ℕ) → pop_back (line ++ c ∷ []) ≡ line
unfolding pop_back
pop_back-append [] c = refl
pop_back-append (a ∷ []) c = refl
pop_back-append (a ∷ b ∷ line) c = ap (◌∷◌ a) (pop_back-append (b ∷ line) c)

not_empty : (line : List ℕ) (c : ℕ) → is_empty_line (line ++ c ∷ []) ≡ false
not_empty [] c = refl
not_empty (a ∷ line) c = refl

c_string-plain :
    (line rest : List ℕ) → All IsPrintable line → c_string (line ++ rest) ≡ line ++ c_string rest
unfolding c_string
c_string-plain [] rest all = refl
c_string-plain (c ∷ line) rest all =
    let positive : (c == 0) ≡ false = ground (arith, all.0) in
    rw positive (ap (◌∷◌ c) (c_string-plain line rest all.1))

All-snoc :
    (line : List ℕ) (c : ℕ)
    → All IsPrintable line
    → IsPrintable c
    → All IsPrintable (line ++ c ∷ [])
All-snoc [] c all p = (p, tt)
All-snoc (a ∷ line) c all p = (all.0, All-snoc line c all.1 p)

reverse-IsPrintable : (stack : List ℕ) → All IsPrintable stack → All IsPrintable (reverse stack)
reverse-IsPrintable [] all = tt
reverse-IsPrintable (c ∷ stack) all =
    subst (All IsPrintable) (sym (reverse-cons c stack))
      (All-snoc (reverse stack) c (reverse-IsPrintable stack all.1) all.0)

strike-IsPrintable :
    (k : Stroke) (stack : List ℕ)
    → IsStroke k
    → All IsPrintable stack
    → All IsPrintable (strike k stack)
strike-IsPrintable (letter ch) stack p all = (p, all)
strike-IsPrintable rub_out [] p all = tt
strike-IsPrintable rub_out (c ∷ stack) p all = all.1
strike-IsPrintable wipe stack p all = tt

typed-IsPrintable :
    (ks : List Stroke) (stack : List ℕ)
    → All IsStroke ks
    → All IsPrintable stack
    → All IsPrintable (typed stack ks)
unfolding typed
typed-IsPrintable [] stack p all = reverse-IsPrintable stack all
typed-IsPrintable (k ∷ ks) stack p all =
    typed-IsPrintable ks (strike k stack) p.1 (strike-IsPrintable k stack p.0 all)

-- The terminal in its first mode, with these lines and this screen.
abbrev pub with_line : {S : Type 0} → Tty S → List ℕ → List (List ℕ) → S → Tty S
with_line t line lines s = record t {
  termios = default_termios;
  current_input_line = line;
  input_line_buffer = lines;
  screen = s;
}

module _ {S : Type 0} {IsReady : S → Type 0} (screen : Screen S) (laws : Echoes screen IsReady)
    (t : Tty S) where
  plain :
      (ch : ℕ)
      → IsPrintable ch
      → ((ch == 10) ≡ false)
        × ((ch == 0) ≡ false)
        × ((ch == 4) ≡ false)
        × ((ch == 127) ≡ false)
        × ((ch == 21) ≡ false)
        × (ltb ch 128 ≡ true)
  plain ch p = (ground arith, ground arith, ground arith, ground arith, ground arith, ground arith)

  letter-emit :
      (ch : ℕ) (line : List ℕ) (lines : List (List ℕ)) (s : S)
      → IsPrintable ch
      → IsReady s
      → (s' : S) × (Tty.emit screen ch (with_line t line lines s)
          ≡ ok (with_line t (line ++ ch ∷ []) lines s'))
        × IsReady s'
  unfolding Tty.emit Tty.canonical_input Tty.process_echo
  letter-emit ch line lines s p r =
      let (s', eq, ready) = returned IsReady (screen.echo ch s) (laws.printable ch s p r) in
      let c = plain ch p in (s', rw (c.0, c.1, c.2, c.3, c.4, c.5, eq) refl, ready)

  rub_out-emit :
      (c : ℕ) (line : List ℕ) (lines : List (List ℕ)) (s : S)
      → IsReady s
      → (s' : S) × (Tty.emit screen 127 (with_line t (line ++ c ∷ []) lines s)
          ≡ ok (with_line t line lines s'))
        × IsReady s'
  unfolding Tty.emit Tty.canonical_input
  rub_out-emit c line lines s r =
      (screen.unecho s, rw (not_empty line c, pop_back-append line c) refl, laws.unechoed s r)

  erase_all-ready :
      (line cur : List ℕ) (lines : List (List ℕ)) (s : S)
      → IsReady s
      → (s' : S) × (Tty.erase_all screen line (with_line t cur lines s) ≡ with_line t [] lines s')
        × IsReady s'
  unfolding Tty.erase_all
  erase_all-ready [] cur lines s r = (s, refl, r)
  erase_all-ready (c ∷ line) cur lines s r =
      erase_all-ready line cur lines (screen.unecho s) (laws.unechoed s r)

  wipe-emit :
      (line : List ℕ) (lines : List (List ℕ)) (s : S)
      → IsReady s
      → (s' : S) × (Tty.emit screen 21 (with_line t line lines s) ≡ ok (with_line t [] lines s'))
        × IsReady s'
  unfolding Tty.emit Tty.canonical_input
  wipe-emit line lines s r =
      let (s', eq, ready) = erase_all-ready line line lines s r in (s', ap ok eq, ready)

  strike-emit :
      (k : Stroke) (stack : List ℕ) (lines : List (List ℕ)) (s : S)
      → IsStroke k
      → IsReady s
      → (s' : S) × (Tty.emit screen (byte_of k) (with_line t (reverse stack) lines s)
          ≡ ok (with_line t (reverse (strike k stack)) lines s'))
        × IsReady s'
  unfolding Tty.emit Tty.canonical_input
  strike-emit (letter ch) stack lines s p r =
      let (s', eq, ready) = letter-emit ch (reverse stack) lines s p r in
      (s', eq ∙ ap (λ line. ok (with_line t line lines s')) (sym (reverse-cons ch stack)), ready)
  strike-emit rub_out [] lines s p r = (s, refl, r)
  strike-emit rub_out (c ∷ stack) lines s p r =
      let (s', eq, ready) = rub_out-emit c (reverse stack) lines s r in
      (
        s',
        ap (λ line. Tty.emit screen 127 (with_line t line lines s)) (reverse-cons c stack) ∙ eq,
        ready,
      )
  strike-emit wipe stack lines s p r = wipe-emit (reverse stack) lines s r

  -- The end of the line.
  end-emit :
      (line : List ℕ) (lines : List (List ℕ)) (s : S)
      → IsReady s
      → (s' : S) × (Tty.emit screen 10 (with_line t line lines s)
          ≡ ok (with_line t [] (lines ++ c_string (line ++ 10 ∷ []) ∷ []) s'))
        × IsReady s'
  unfolding Tty.emit Tty.canonical_input Tty.process_echo
  end-emit line lines s r =
      let (s₁, eq, ready) = returned IsReady (screen.echo 13 s) (laws.return_start s r) in
      let (s₂, eq', ready') = returned IsReady (screen.echo 10 s₁) (laws.new_line s₁ ready) in
      (s₂, rw (eq, eq') refl, ready')

  strokes-emit :
      (ks : List Stroke) (stack : List ℕ) (lines : List (List ℕ)) (s : S)
      → All IsStroke ks
      → IsReady s
      → (s' : S) × (Tty.emit_all screen
            (map byte_of ks ++ 10 ∷ [])
            (with_line t (reverse stack) lines s)
          ≡ ok (with_line t [] (lines ++ c_string (typed stack ks ++ 10 ∷ []) ∷ []) s'))
        × IsReady s'
  unfolding Tty.emit_all typed
  strokes-emit [] stack lines s all r =
      let (s', eq, ready) = end-emit (reverse stack) lines s r in (s', rw eq refl, ready)
  strokes-emit (k ∷ ks) stack lines s all r =
      let (s₁, eq, ready) = strike-emit k stack lines s all.0 r in
      let (s₂, eq', ready') = strokes-emit ks (strike k stack) lines s₁ all.1 ready in
      (s₂, rw eq eq', ready')

  -- The characters of a line, and the newline after them, are taken as one line.
  line_of :
      (ks : List Stroke)
      → All IsStroke ks
      → c_string (typed [] ks ++ 10 ∷ []) ≡ typed [] ks ++ 10 ∷ []
  unfolding c_string
  line_of ks all = c_string-plain (typed [] ks) (10 ∷ []) (typed-IsPrintable ks [] all tt)

  at_rest :
      t.termios ≡ default_termios
      → t.current_input_line ≡ []
      → with_line t [] t.input_line_buffer t.screen ≡ t
  at_rest m e =
      ap (λ x. record t { termios = x; current_input_line = [] }) (sym m)
      ∙ ap (λ x. record t { current_input_line = x }) (sym e)

  -- In the first mode and with no line begun, on a screen that keeps what a line discipline asks
  -- of it: printable characters, keys that take the last character or the whole line back, and a
  -- newline are accepted, and add one line to those that wait, which is the text that is left with
  -- the newline; no line is begun then.
  pub emit_all-typed :
      (ks : List Stroke)
      → All IsStroke ks
      → IsReady t.screen
      → t.termios ≡ default_termios
      → t.current_input_line ≡ []
      → (s' : S) × (Tty.emit_all screen (map byte_of ks ++ 10 ∷ []) t
          ≡ ok (with_line t [] (t.input_line_buffer ++ (typed [] ks ++ 10 ∷ []) ∷ []) s'))
        × IsReady s'
  emit_all-typed ks all r m e =
      let (s', eq, ready) = strokes-emit ks [] t.input_line_buffer t.screen all r in
      (
        s',
        ap (Tty.emit_all screen (map byte_of ks ++ 10 ∷ [])) (sym (at_rest m e))
            ∙ eq
            ∙ ap (λ line. ok (with_line t [] (t.input_line_buffer ++ line ∷ []) s'))
                (line_of ks all),
        ready,
      )
