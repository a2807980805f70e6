-- ===== src/Terminal/Arguments/Numbers.antt =====
-- `parse_csi_arguments` of src/kernel/tty/Terminal.cpp ends, and reads numbers back.
use ow_os.Common.{
  ℕ, zero, suc, ◌+◌, ◌-◌, ◌*◌, ◌≤◌, ◌<◌, ◌≡◌, refl, ap, Bool-cases, inl, inr, true, false, List, [],
  ◌∷◌, ◌++◌, map, ◌==◌, add32, mul32, word, length, length-append, drop, All, arith, ok,
}
use ow_os.Terminal.Arguments.{
  is_digit, strtol, skip_separator, has_argument, read_arguments, skip_private, parse_csi_arguments,
}

strtol-length : (num : ℕ) (s : List ℕ) → length (strtol num s).1 ≤ length s
unfolding strtol
strtol-length num [] = omega arith
strtol-length num (c ∷ s) = ground (arith, strtol-length (add32 (mul32 num 10) (c - 48)) s)

skip_separator-length : (s : List ℕ) → length (skip_separator s) ≤ length s
skip_separator-length [] = omega arith
skip_separator-length (c ∷ s) = ground arith

-- A round takes a character at least.
round-length :
    (c : ℕ) (s : List ℕ)
    → has_argument (c ∷ s) ≡ true
    → length (skip_separator (strtol 0 (c ∷ s)).1) ≤ length s
unfolding strtol
round-length c s h = elim (Bool-cases (is_digit c)) [
  | inl e ↦ rw e (
      omega (
        arith,
        skip_separator-length (strtol (add32 0 (c - 48)) s).1,
        strtol-length (add32 0 (c - 48)) s,
      ))
  | inr e ↦ rw (e, separator e) (omega arith)
]
  where
    separator : is_digit c ≡ false → (c == 59) ≡ true
    separator e = ground (arith, h, e)

read_arguments-ok :
    (fuel : ℕ) (s : List ℕ) → length s < fuel → (args : List ℕ) × (read_arguments fuel s ≡ ok args)
unfolding read_arguments
read_arguments-ok zero s h = absurd (omega arith)
read_arguments-ok (suc fuel) [] h = ([], refl)
read_arguments-ok (suc fuel) (c ∷ s) h = elim (Bool-cases (has_argument (c ∷ s))) [
  | inl e ↦
      let (args, eq) =
        read_arguments-ok fuel (skip_separator (strtol 0 (c ∷ s)).1)
          (omega (arith, round-length c s e)) in
      ((strtol 0 (c ∷ s)).0 ∷ args, rw e (rw eq refl))
  | inr e ↦ ([], rw e refl)
]

-- The fuel of `parse_csi_arguments` is enough.
pub parse_csi_arguments-ok : (s : List ℕ) → (args : List ℕ) × (parse_csi_arguments s ≡ ok args)
unfolding parse_csi_arguments
parse_csi_arguments-ok s = read_arguments-ok _ (skip_private (drop 2 s)) (omega arith)

-- A number in decimal digits, the most significant first, after `high`.
unfoldable pub value_of : ℕ → List ℕ → ℕ
value_of high [] = high
value_of high (d ∷ ds) = value_of (high * 10 + d) ds

abbrev pub digit_char : ℕ → ℕ
digit_char d = 48 + d

-- The numbers with a separator between two of them, and what follows.
unfoldable pub print_arguments : List (List ℕ) → List ℕ → List ℕ
print_arguments [] rest = rest
print_arguments (ds ∷ []) rest = map digit_char ds ++ rest
print_arguments (ds ∷ es ∷ dss) rest = map digit_char ds ++ 59 ∷ print_arguments (es ∷ dss) rest

length-map : (ds : List ℕ) → length (map digit_char ds) ≡ length ds
length-map [] = refl
length-map (d ∷ ds) = ap suc (length-map ds)

value_of-le : (high : ℕ) (ds : List ℕ) → high ≤ value_of high ds
unfolding value_of
value_of-le high [] = omega arith
value_of-le high (d ∷ ds) = omega (arith, value_of-le (high * 10 + d) ds)

-- A decimal digit string of a number that a word holds.
abbrev pub IsNumber : List ℕ → Type 0
IsNumber ds = (0 < length ds) × All (λ d. d < 10) ds × (value_of 0 ds < word)

-- What follows a number, unless nothing does, is not a digit.
abbrev Ends : List ℕ → Type 0
Ends [] = Unit {0}
Ends (c ∷ s) = is_digit c ≡ false

strtol-value_of :
    (high : ℕ) (ds rest : List ℕ)
    → All (λ d. d < 10) ds
    → value_of high ds < word
    → Ends rest
    → strtol high (map digit_char ds ++ rest) ≡ (value_of high ds, rest)
unfolding strtol value_of
strtol-value_of high [] [] all fits e = refl
strtol-value_of high [] (c ∷ rest) all fits e = rw e refl
strtol-value_of high (d ∷ ds) rest all fits e =
    rw (is, no_wrap) (strtol-value_of (high * 10 + d) ds rest all.1 fits e)
  where
    is : is_digit (digit_char d) ≡ true
    is = ground (arith, all.0)

    no_wrap : add32 (mul32 high 10) (digit_char d - 48) ≡ high * 10 + d
    no_wrap = omega (arith, value_of-le (high * 10 + d) ds)

first_digit :
    (ds rest : List ℕ)
    → IsNumber ds
    → (has_argument (map digit_char ds ++ rest) ≡ true)
      × (skip_private (map digit_char ds ++ rest) ≡ map digit_char ds ++ rest)
first_digit [] rest n = absurd (omega (arith, n.0))
first_digit (d ∷ ds) rest n = (ground (arith, n.1.0), ground (arith, n.1.0))

-- One round reads one number.
read_arguments-number :
    (fuel : ℕ) (ds rest args : List ℕ)
    → IsNumber ds
    → Ends rest
    → read_arguments fuel (skip_separator rest) ≡ ok args
    → read_arguments (suc fuel) (map digit_char ds ++ rest) ≡ ok (value_of 0 ds ∷ args)
unfolding read_arguments
read_arguments-number fuel ds rest args n e eq =
    rw ((first_digit ds rest n).0, strtol-value_of 0 ds rest n.1 n.2 e, eq) refl

final-Ends :
    (ch : ℕ) → has_argument (ch ∷ []) ≡ false → (is_digit ch ≡ false) × ((ch == 59) ≡ false)
final-Ends ch f = (ground arith, ground arith)

read_arguments-print :
    (fuel : ℕ) (ds : List ℕ) (dss : List (List ℕ)) (ch : ℕ)
    → suc (length dss) < fuel
    → All IsNumber (ds ∷ dss)
    → has_argument (ch ∷ []) ≡ false
    → read_arguments fuel (print_arguments (ds ∷ dss) (ch ∷ [])) ≡ ok (map (value_of 0) (ds ∷ dss))
unfolding print_arguments
read_arguments-print zero ds dss ch h all f = absurd (omega arith)
read_arguments-print (suc zero) ds dss ch h all f = absurd (omega arith)
read_arguments-print (suc (suc fuel)) ds [] ch h all f =
    let e = final-Ends ch f in
    read_arguments-number (suc fuel) ds (ch ∷ []) [] all.0 e.0
      (rw e.1 (unfold read_arguments in rw f refl))
read_arguments-print (suc (suc fuel)) ds (es ∷ dss) ch h all f =
    read_arguments-number (suc fuel) ds (59 ∷ print_arguments (es ∷ dss) (ch ∷ []))
      (map (value_of 0) (es ∷ dss)) all.0 refl
      (read_arguments-print (suc fuel) es dss ch (omega arith) all.1 f)

print_arguments-length :
    (dss : List (List ℕ)) (rest : List ℕ)
    → All IsNumber dss
    → length dss + length rest ≤ length (print_arguments dss rest)
unfolding print_arguments
print_arguments-length [] rest all = omega arith
print_arguments-length (ds ∷ []) rest all =
    omega (arith, length-append (map digit_char ds) rest, length-map ds, all.0.0)
print_arguments-length (ds ∷ es ∷ dss) rest all = omega (
  arith,
  length-append (map digit_char ds) (59 ∷ print_arguments (es ∷ dss) rest),
  print_arguments-length (es ∷ dss) rest all.1,
)

-- The numbers of a control sequence, at least one and each below 2 ^ 32, in one or more decimal
-- digits with separators, are read back, whatever byte follows them that is neither a digit nor a
-- separator.
pub parse_csi_arguments-print :
    (ds : List ℕ) (dss : List (List ℕ)) (ch : ℕ)
    → All IsNumber (ds ∷ dss)
    → has_argument (ch ∷ []) ≡ false
    → parse_csi_arguments (27 ∷ 91 ∷ print_arguments (ds ∷ dss) (ch ∷ []))
      ≡ ok (map (value_of 0) (ds ∷ dss))
unfolding parse_csi_arguments print_arguments
parse_csi_arguments-print ds dss ch all f = rw (no_private dss) (
    read_arguments-print _ ds dss ch
      (omega (arith, print_arguments-length (ds ∷ dss) (ch ∷ []) all)) all f)
  where
    no_private :
        (dss : List (List ℕ))
        → skip_private (print_arguments (ds ∷ dss) (ch ∷ [])) ≡ print_arguments (ds ∷ dss) (ch ∷ [])
    no_private [] = (first_digit ds (ch ∷ []) all.0).1
    no_private (es ∷ dss) = (first_digit ds (59 ∷ print_arguments (es ∷ dss) (ch ∷ [])) all.0).1
