-- ===== src/Libk/Strings/Numbers.antt =====
-- `strtoul` of src/kernel/libk/kcstring.cpp reads back a number written in digits.
use ow_os.Common.{
  ℕ, zero, suc, ◌+◌, ◌*◌, ◌<◌, ◌≤◌, ◌≡◌, refl, Bool, true, false, not, ◌&&◌, ◌||◌, List, [], ◌∷◌,
  ◌++◌, map, ◌==◌, ltb, leb, if◌then◌else◌, All, some, Result, ok, err, add32, mul32, word, arith,
  all_below, all_below_sound,
}
use ow_os.Libk.Ctype.{char, isspace, isalnum, flags, entry, toupper}
use ow_os.Libk.Strings.{strtoul, skip_space, read_base, read_digits, digit}

-- The character for a digit: 0 to 9, and small letters from 10 on.
abbrev pub digit_char : ℕ → ℕ
digit_char d = if ltb d 10 then 48 + d else 87 + d

-- The number that digits stand for, the most significant first, after the digits of `high`.
unfoldable pub number_of : ℕ → ℕ → List ℕ → ℕ
number_of base high [] = high
number_of base high (d ∷ ds) = number_of base (high * base + d) ds

is_value : Result ℕ → ℕ → Bool
is_value (ok v) d = v == d
is_value (err e) d = false

good : ℕ → Bool
good d =
    let c = digit_char d in
    not (c == 0) && not (isalnum (char c) == 0) && isspace (char c) == 0 && is_value (digit c) d

all_good : all_below 36 good ≡ true
unfolding all_below good flags digit toupper entry is_value
all_good = refl

is_value-ok : (r : Result ℕ) (d : ℕ) → is_value r d ≡ true → r ≡ ok d
unfolding is_value
is_value-ok (ok v) d h = ground arith
is_value-ok (err e) d h = absurd (ground arith)

digit_char-digit : (d : ℕ) → d < 36 → digit (digit_char d) ≡ ok d
unfolding good
digit_char-digit d h = is_value-ok _ d (ground (arith, all_below_sound 36 good d all_good h))

digit_char-isalnum :
    (d : ℕ) → d < 36 → (digit_char d == 0 || isalnum (char (digit_char d)) == 0) ≡ false
unfolding good
digit_char-isalnum d h = ground (arith, all_below_sound 36 good d all_good h)

digit_char-isspace : (d : ℕ) → d < 36 → (isspace (char (digit_char d)) == 0) ≡ true
unfolding good
digit_char-isspace d h = ground (arith, all_below_sound 36 good d all_good h)

number_of_le : (b high : ℕ) (ds : List ℕ) → high ≤ number_of (suc b) high ds
unfolding number_of
number_of_le b high [] = omega arith
number_of_le b high (d ∷ ds) = omega (arith, number_of_le b (high * suc b + d) ds)

read_digits-number_of :
    (b high : ℕ) (ds after : List ℕ)
    → suc b ≤ 36
    → All (λ d. d < suc b) ds
    → number_of (suc b) high ds < word
    → read_digits (suc b) high (map digit_char ds ++ 0 ∷ after)
      ≡ ok (number_of (suc b) high ds, 0 ∷ after)
unfolding read_digits number_of
read_digits-number_of b high [] after h all fits = refl
read_digits-number_of b high (d ∷ ds) after h all fits =
    rw (digit_char-isalnum d below, digit_char-digit d below, in_range, no_wrap)
      (read_digits-number_of b (high * suc b + d) ds after h all.1 fits)
  where
    below : d < 36
    below = omega (arith, all.0)

    in_range : leb (suc b) d ≡ false
    in_range = ground (arith, all.0)

    no_wrap : add32 (mul32 high (suc b)) d ≡ high * suc b + d
    no_wrap = omega (arith, number_of_le b (high * suc b + d) ds)

-- `strtoul` reads a number below 2 ^ 32 back that is written in at least one digit of a base from 2 to
-- 36 and ends with the terminator, and stops at the terminator.
pub strtoul-number_of :
    (base d : ℕ) (ds after : List ℕ)
    → 2 ≤ base
    → base ≤ 36
    → All (λ e. e < base) (d ∷ ds)
    → number_of base 0 (d ∷ ds) < word
    → strtoul (some (map digit_char (d ∷ ds) ++ 0 ∷ after)) base
      ≡ ok (number_of base 0 (d ∷ ds), some (0 ∷ after))
unfolding strtoul skip_space read_base
strtoul-number_of zero d ds after l h all fits = absurd (omega arith)
strtoul-number_of (suc zero) d ds after l h all fits = absurd (omega arith)
strtoul-number_of (suc (suc b)) d ds after l h all fits =
    rw
      (
        in_range,
        digit_char-isspace d (omega (arith, all.0)),
        read_digits-number_of (suc b) 0 (d ∷ ds) after h all fits,
      )
      refl
  where
    in_range : (ltb 36 (suc (suc b)) || suc (suc b) == 1) ≡ false
    in_range = ground arith
