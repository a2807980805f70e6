-- ===== src/Terminal/Tty/Reading.antt =====
-- `canonical_read` of src/kernel/tty/TTY.cpp.
use ow_os.Common.{
  ℕ, zero, suc, min, ◌≡◌, ◌⊎◌, inl, inr, refl, sym, ap, false, List, [], ◌∷◌, ◌++◌, length, arith,
  some,
}
use ow_os.Terminal.Tty
use ow_os.Terminal.Tty.{Tty, take_line, is_empty_line}

take_line-split :
    (bytes : ℕ) (line : List ℕ)
    → ((take_line bytes line).0 ++ (take_line bytes line).1 ≡ line)
      × (length (take_line bytes line).0 ≡ min bytes (length line))
unfolding take_line
take_line-split zero line = (refl, omega arith)
take_line-split (suc bytes) [] = (refl, omega arith)
take_line-split (suc bytes) (c ∷ line) =
    let (both, size) = take_line-split bytes line in (ap (◌∷◌ c) both, omega (arith, size))

-- A reader gets the first characters of the line that is being read, or when there is none, of the
-- oldest line that waits: as many as it asks for and the line has. The others of that line are
-- kept for the next read, and no other line is touched.
pub canonical_read-line :
    {S : Type 0} (t : Tty S) (line : List ℕ) (lines : List (List ℕ)) (bytes : ℕ)
    → ((t.current_read_line ≡ []) × (t.input_line_buffer ≡ line ∷ lines))
      ⊎ ((is_empty_line line ≡ false)
          × (t.current_read_line ≡ line)
          × (t.input_line_buffer ≡ lines))
    → (u : Tty S) × (text : List ℕ) × (Tty.canonical_read bytes t ≡ some (text, u))
      × (text ++ u.current_read_line ≡ line)
      × (length text ≡ min bytes (length line))
      × (u.input_line_buffer ≡ lines)
unfolding Tty.canonical_read
canonical_read-line t line lines bytes (inl (e, q)) =
    let (both, size) = take_line-split bytes line in
    (
      record t { current_read_line = (take_line bytes line).1; input_line_buffer = lines },
      (take_line bytes line).0,
      rw (e, q) refl,
      both,
      size,
      refl,
    )
canonical_read-line t line lines bytes (inr (n, e, q)) =
    let (both, size) = take_line-split bytes line in
    (
      record t { current_read_line = (take_line bytes line).1; input_line_buffer = lines },
      (take_line bytes line).0,
      rw (e, n, sym q) refl,
      both,
      size,
      refl,
    )
