-- ===== src/Libk/Ctype.antt =====
-- src/kernel/include/libk/kcctype.hpp and src/kernel/libk/kcctype.cpp: classes of characters. A
-- character is an `int`, which is negative for a `char` from 128 on.
pub mod Classes
use Prim.Native.Nat.{bit_and}
use ow_os.Common.{
  ℕ, ◌+◌, ◌-◌, ◌%◌, List, [], ◌∷◌, ◌++◌, Bool, not, ◌==◌, if◌then◌else◌, replicate, get_or,
  get_elem?, Result, ok, err, out_of_bounds, or_fault, ◌>>=◌, ltb,
}
use ow_os.Common.Int.{ℤ, pos, negsuc, sub_ℕ}

abbrev pub ct_upper : ℕ
ct_upper = 1

abbrev pub ct_lower : ℕ
ct_lower = 2

abbrev pub ct_digit : ℕ
ct_digit = 4

abbrev pub ct_cntrl : ℕ
ct_cntrl = 8

abbrev pub ct_punct : ℕ
ct_punct = 16

abbrev pub ct_white : ℕ
ct_white = 32

abbrev pub ct_hexdg : ℕ
ct_hexdg = 64

abbrev pub ct_space : ℕ
ct_space = 128

-- The flags of the first 128 characters; the other entries are zero.
abbrev pub ctype_lookup : List ℕ
ctype_lookup =
    (8 ∷ 8 ∷ 8 ∷ 8 ∷ 8 ∷ 8 ∷ 8 ∷ 8 ∷ 8 ∷ 40 ∷ 40 ∷ 40 ∷ 40 ∷ 40 ∷ 8 ∷ 8 ∷ 8 ∷ 8 ∷ 8 ∷ 8 ∷ 8 ∷ 8 ∷ 8
      ∷ 8 ∷ 8 ∷ 8 ∷ 8 ∷ 8 ∷ 8 ∷ 8 ∷ 8 ∷ 8 ∷ 160 ∷ 16 ∷ 16 ∷ 16 ∷ 16 ∷ 16 ∷ 16 ∷ 16 ∷ 16 ∷ 16 ∷ 16
      ∷ 16 ∷ 16 ∷ 16 ∷ 16 ∷ 16 ∷ 68 ∷ 68 ∷ 68 ∷ 68 ∷ 68 ∷ 68 ∷ 68 ∷ 68 ∷ 68 ∷ 68 ∷ 16 ∷ 16 ∷ 16 ∷ 16
      ∷ 16 ∷ 16 ∷ 16 ∷ 65 ∷ 65 ∷ 65 ∷ 65 ∷ 65 ∷ 65 ∷ 1 ∷ 1 ∷ 1 ∷ 1 ∷ 1 ∷ 1 ∷ 1 ∷ 1 ∷ 1 ∷ 1 ∷ 1 ∷ 1
      ∷ 1 ∷ 1 ∷ 1 ∷ 1 ∷ 1 ∷ 1 ∷ 1 ∷ 1 ∷ 16 ∷ 16 ∷ 16 ∷ 16 ∷ 16 ∷ 16 ∷ 66 ∷ 66 ∷ 66 ∷ 66 ∷ 66 ∷ 66
      ∷ 2 ∷ 2 ∷ 2 ∷ 2 ∷ 2 ∷ 2 ∷ 2 ∷ 2 ∷ 2 ∷ 2 ∷ 2 ∷ 2 ∷ 2 ∷ 2 ∷ 2 ∷ 2 ∷ 2 ∷ 2 ∷ 2 ∷ 2 ∷ 16 ∷ 16 ∷ 16
      ∷ 16 ∷ 8 ∷ [])
    ++ replicate 128 0

-- `(uint8_t)c`
abbrev pub byte : ℤ → ℕ
byte (pos n) = n % 256
byte (negsuc n) = 255 - n % 256

-- A `char` with these bits, as an `int`.
abbrev pub char : ℕ → ℤ
char b = if ltb b 128 then pos b else negsuc (255 - b)

-- The flags of a byte; a byte is an index below 256.
unfoldable pub flags : ℤ → ℕ → ℕ
flags c mask = bit_and (get_or ctype_lookup (byte c) 0) mask

abbrev pub isalnum : ℤ → ℕ
isalnum c = flags c (ct_upper + ct_lower + ct_digit)

abbrev pub isalpha : ℤ → ℕ
isalpha c = flags c (ct_upper + ct_lower)

abbrev pub iscntrl : ℤ → ℕ
iscntrl c = flags c (ct_cntrl)

abbrev pub isgraph : ℤ → ℕ
isgraph c = flags c (ct_punct + ct_upper + ct_lower + ct_digit)

abbrev pub islower : ℤ → ℕ
islower c = flags c (ct_lower)

abbrev pub isupper : ℤ → ℕ
isupper c = flags c (ct_upper)

abbrev pub isprint : ℤ → ℕ
isprint c = flags c (ct_punct + ct_upper + ct_lower + ct_digit + ct_space)

abbrev pub ispunct : ℤ → ℕ
ispunct c = flags c (ct_punct)

abbrev pub isspace : ℤ → ℕ
isspace c = flags c (ct_white)

abbrev pub isdigit : ℤ → ℕ
isdigit c = flags c (ct_digit)

abbrev pub isxdigit : ℤ → ℕ
isxdigit c = flags c (ct_digit + ct_hexdg)

-- The table's entry at `c` itself, which a negative index does not have.
unfoldable pub entry : ℤ → Result ℕ
entry (pos n) = or_fault (get_elem? ctype_lookup n) out_of_bounds
entry (negsuc n) = err out_of_bounds

abbrev pub shift_by : ℤ → ℕ → ℤ
shift_by (pos n) k = pos (n + k)
shift_by (negsuc n) k = sub_ℕ k (n + 1)

abbrev pub shift_down : ℤ → ℕ → ℤ
shift_down (pos n) k = sub_ℕ n k
shift_down (negsuc n) k = negsuc (n + k)

unfoldable pub tolower : ℤ → Result ℤ
tolower c = do e ← entry c; ok (if not (bit_and e ct_upper == 0) then shift_by c 32 else c)

unfoldable pub toupper : ℤ → Result ℤ
toupper c = do e ← entry c; ok (if not (bit_and e ct_lower == 0) then shift_down c 32 else c)
