-- ===== src/Libk/Ctype/Classes.antt =====
-- What the tables of src/kernel/libk/kcctype.cpp say of each character.
use ow_os.Common.{
  ℕ, ◌+◌, ◌<◌, ◌≡◌, refl, Bool, true, false, not, ◌&&◌, ◌||◌, ◌==◌, leb, ltb, all_below,
  all_below_sound, arith, get_or,
}
use Prim.Native.Nat.{bit_and}
use ow_os.Common.Int.{ℤ, pos, negsuc}
use ow_os.Libk.Ctype.{
  byte, isalnum, isalpha, iscntrl, isdigit, islower, isupper, isspace, isprint, ctype_lookup, flags,
  ct_upper, ct_lower, ct_digit, ct_white, ct_punct, ct_space, ct_cntrl,
}

-- Between two characters, both included.
abbrev pub between : ℕ → ℕ → ℕ → Bool
between low high c = leb low c && leb c high

same : Bool → Bool → Bool
same true b = b
same false b = not b

same-eq : (a b : Bool) → same a b ≡ true → a ≡ b
unfolding same
same-eq a b h = ground arith

abbrev pub is_letter : ℕ → Bool
is_letter c = between 65 90 c || between 97 122 c

has : ℕ → ℕ → Bool
has b mask = not (bit_and (get_or ctype_lookup b 0) mask == 0)

in_class : ℕ → Bool
in_class b =
    same (has b ct_upper) (between 65 90 b)
    && same (has b ct_lower) (between 97 122 b)
    && same (has b ct_digit) (between 48 57 b)
    && same (has b (ct_upper + ct_lower)) (is_letter b)
    && same (has b (ct_upper + ct_lower + ct_digit)) (is_letter b || between 48 57 b)
    && same (has b ct_white) (between 9 13 b || b == 32)
    && same (has b (ct_punct + ct_upper + ct_lower + ct_digit + ct_space)) (between 32 126 b)
    && same (has b ct_cntrl) (ltb b 32 || b == 127)

all_in_class : all_below 256 in_class ≡ true
unfolding all_below in_class same has
all_in_class = refl

byte_lt : (c : ℤ) → byte c < 256
byte_lt (pos n) = omega arith
byte_lt (negsuc n) = omega arith

-- A conjunction of eight tests.
split_tests :
    (a b c d e f g h : Bool)
    → (a && b && c && d && e && f && g && h) ≡ true
    → (a ≡ true)
      × (b ≡ true)
      × (c ≡ true)
      × (d ≡ true)
      × (e ≡ true)
      × (f ≡ true)
      × (g ≡ true)
      × (h ≡ true)
split_tests a b c d e f g h all = ground arith

-- The tests of each character are those of the C locale: letters and their two cases, digits, white
-- space, printing and control characters; none holds of a byte from 128 on.
classes :
    (c : ℤ)
    → (not (isupper c == 0) ≡ between 65 90 (byte c))
      × (not (islower c == 0) ≡ between 97 122 (byte c))
      × (not (isdigit c == 0) ≡ between 48 57 (byte c))
      × (not (isalpha c == 0) ≡ is_letter (byte c))
      × (not (isalnum c == 0) ≡ (is_letter (byte c) || between 48 57 (byte c)))
      × (not (isspace c == 0) ≡ (between 9 13 (byte c) || byte c == 32))
      × (not (isprint c == 0) ≡ between 32 126 (byte c))
      × (not (iscntrl c == 0) ≡ (ltb (byte c) 32 || byte c == 127))
unfolding flags has in_class
classes c =
    let (u, l, d, a, n, w, p, k) =
      split_tests _ _ _ _ _ _ _ _
        (all_below_sound 256 in_class (byte c) all_in_class (byte_lt c)) in
    (
      same-eq _ _ u,
      same-eq _ _ l,
      same-eq _ _ d,
      same-eq _ _ a,
      same-eq _ _ n,
      same-eq _ _ w,
      same-eq _ _ p,
      same-eq _ _ k,
    )
