-- ===== src/Libk/Strings.antt =====
-- src/kernel/libk/kcstring.cpp. A pointer into a string is the list of the bytes from there on; a
-- read past their end is a fault.
pub mod Compare
pub mod Numbers
use ow_os.Common.{
  ℕ, zero, suc, ◌+◌, ◌-◌, ◌*◌, ◌%◌, Bool, not, ◌&&◌, ◌||◌, List, [], ◌∷◌, ◌==◌, leb, ltb,
  if◌then◌else◌, Option, some, none, Result, ok, err, out_of_bounds, ◌>>=◌, add32, mul32, map,
}
use ow_os.Common.Int.{ℤ, pos, negsuc, sub_ℕ, leb_ℤ}
use ow_os.Libk.Ctype.{char, isspace, isalnum, isdigit, tolower, toupper}

-- `c1 - c2` of two `char`s, which are signed.
abbrev pub difference : ℕ → ℕ → ℤ
difference c1 c2 =
    sub_ℕ (c1 + (if ltb c2 128 then 0 else 256)) (c2 + (if ltb c1 128 then 0 else 256))

unfoldable pub strlen : List ℕ → Result ℕ
strlen [] = err out_of_bounds
strlen (c ∷ s) = let rest = strlen s in if c == 0 then ok 0 else (do n ← rest; ok (n + 1))

unfoldable pub strcmp : List ℕ → List ℕ → Result ℤ
strcmp (c1 ∷ s) (c2 ∷ t) =
    let rest = strcmp s t in if c1 == c2 && not (c1 == 0) then rest else ok (difference c1 c2)
strcmp _ _ = err out_of_bounds

-- The loop of `strncmp`, with the two characters that were read last.
unfoldable pub strncmp_from : ℕ → ℕ → ℕ → List ℕ → List ℕ → Result ℤ
strncmp_from zero c1 c2 s t = ok (difference c1 c2)
strncmp_from (suc count) c1 c2 (d1 ∷ s) (d2 ∷ t) =
    let rest = strncmp_from count d1 d2 s t in
    if c1 == c2 && not (c1 == 0) then rest else ok (difference c1 c2)
strncmp_from (suc count) c1 c2 s t =
    if c1 == c2 && not (c1 == 0) then err out_of_bounds else ok (difference c1 c2)

unfoldable pub strncmp : List ℕ → List ℕ → ℕ → Result ℤ
strncmp (c1 ∷ s) (c2 ∷ t) count = strncmp_from count c1 c2 (c1 ∷ s) (c2 ∷ t)
strncmp _ _ count = err out_of_bounds

-- `strtoul`: white space first.
unfoldable pub skip_space : List ℕ → Result (List ℕ)
skip_space [] = err out_of_bounds
skip_space (c ∷ s) = let rest = skip_space s in if isspace (char c) == 0 then ok (c ∷ s) else rest

-- A base of 0 is read off the first characters.
unfoldable pub read_base : ℕ → List ℕ → Result (ℕ × List ℕ)
read_base base [] = err out_of_bounds
read_base zero (c ∷ []) = if c == 48 then err out_of_bounds else ok (10, c ∷ [])
read_base zero (c ∷ x ∷ s) =
    if c == 48
    then (do
      lower ← tolower (char x)
      if leb_ℤ lower (pos 120) && leb_ℤ (pos 120) lower then ok (16, s) else ok (8, x ∷ s))
    else ok (10, c ∷ x ∷ s)
read_base (suc base) s = ok (suc base, s)

-- The value of a digit or a letter, whose code is not negative.
unfoldable pub digit : ℕ → Result ℕ
digit c = if not (isdigit (char c) == 0) then ok (c - 48) else (do
  upper ← toupper (char c)
  elim upper [ pos u ↦ ok (u - 65 + 10) | negsuc n ↦ err out_of_bounds ])

-- The loop over the digits: the number and the end.
unfoldable pub read_digits : ℕ → ℕ → List ℕ → Result (ℕ × List ℕ)
read_digits base number [] = err out_of_bounds
read_digits base number (c ∷ s) =
    if c == 0 || isalnum (char c) == 0 then ok (number, c ∷ s) else (do
      value ← digit c
      if leb base value
          then ok (number, c ∷ s)
          else read_digits base (add32 (mul32 number base) value) s)

-- `strtoul` of a string and a base that is not negative. Where the source returns early, the end is not set.
unfoldable pub strtoul : Option (List ℕ) → ℕ → Result (ℕ × Option (List ℕ))
strtoul none base = ok (0, none)
strtoul (some str) base = if ltb 36 base || base == 1 then ok (0, none) else (do
  s ← skip_space str
  (base, s) ← read_base base s
  (number, end) ← read_digits base 0 s
  ok (number, some end))
