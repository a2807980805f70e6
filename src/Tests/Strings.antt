-- ===== src/Tests/Strings.antt =====
-- Runs of the functions of src/kernel/libk/kcstring.cpp.
use ow_os.Common.{ℕ, ◌≡◌, List, [], ◌∷◌, ◌++◌, map, some, ok, arith}
use ow_os.Libk.Copies.{memmove}
use ow_os.Libk.Copies.Moved.{IsMoved, memmove-IsMoved}
use ow_os.Libk.Strings.{strtoul}
use ow_os.Libk.Strings.Numbers.{digit_char, number_of, strtoul-number_of}

abbrev ab : List ℕ
ab = 97 ∷ 98 ∷ []

abbrev other : List ℕ
other = 97 ∷ 200 ∷ []

-- The digits of ff.
strtoul-number_of_example :
    strtoul (some (map digit_char (15 ∷ 15 ∷ []) ++ 0 ∷ [])) 16
    ≡ ok (number_of 16 0 (15 ∷ 15 ∷ []), some (0 ∷ []))
unfolding number_of
strtoul-number_of_example =
    strtoul-number_of 16 15 (15 ∷ []) [] (omega arith) (omega arith)
      (omega arith, (omega arith, tt)) (omega arith)

memmove-IsMoved_example :
    (new : List ℕ) × (memmove (1 ∷ 2 ∷ 3 ∷ []) 1 0 2 ≡ ok new) × IsMoved (1 ∷ 2 ∷ 3 ∷ []) new 1 0 2
memmove-IsMoved_example = memmove-IsMoved (1 ∷ 2 ∷ 3 ∷ []) 1 0 2 (omega arith) (omega arith)
