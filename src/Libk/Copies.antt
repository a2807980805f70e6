-- ===== src/Libk/Copies.antt =====
-- `memmove` and `memcpy` of src/kernel/libk/kcstring.cpp, in the portable version of `memcpy`: the one
-- for i686 is assembly. Memory is a list of bytes, and pointers are indices into it.
pub mod Moved
use ow_os.Common.{
  ℕ, zero, suc, ◌+◌, List, ltb, if◌then◌else◌, length, get_elem?, set, Result, ok, err,
  out_of_bounds, or_fault, ◌>>=◌,
}

-- `dp[i] = sp[i]`, by their addresses.
unfoldable pub copy_byte : List ℕ → ℕ → ℕ → Result (List ℕ)
copy_byte memory to from = do
  b ← or_fault (get_elem? memory from) out_of_bounds
  if ltb to (length memory) then ok (set memory to b) else err out_of_bounds

-- The loop from the last byte to the first.
unfoldable pub move_down : List ℕ → ℕ → ℕ → ℕ → Result (List ℕ)
move_down memory dest src zero = ok memory
move_down memory dest src (suc i) = do
  memory ← copy_byte memory (dest + i) (src + i)
  move_down memory dest src i

unfoldable pub memcpy : List ℕ → ℕ → ℕ → ℕ → Result (List ℕ)
memcpy memory dest src zero = ok memory
memcpy memory dest src (suc n) = do
  memory ← copy_byte memory dest src
  memcpy memory (dest + 1) (src + 1) n

unfoldable pub memmove : List ℕ → ℕ → ℕ → ℕ → Result (List ℕ)
memmove memory dest src count =
    if ltb src dest
    then move_down memory dest src count
    else if ltb dest src
    then memcpy memory dest src count
    else ok memory
