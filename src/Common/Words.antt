-- ===== src/Common/Words.antt =====
-- The 32-bit words of the i686 kernel: `size_t`, `uintptr_t` and `uint32_t` wrap at 2 ^ 32.
use Prim.Native.Nat.{ℕ, ◌+◌, ◌-◌, ◌*◌, ◌%◌, ◌^◌}

abbrev pub word : ℕ
word = 2 ^ 32

-- `SIZE_MAX`, `UINTPTR_MAX` and `UINT32_MAX`.
abbrev pub word_max : ℕ
word_max = 2 ^ 32 - 1

abbrev pub add32 : ℕ → ℕ → ℕ
add32 a b = (a + b) % word

-- For `b` below 2 ^ 32.
abbrev pub sub32 : ℕ → ℕ → ℕ
sub32 a b = (a + word - b) % word

abbrev pub mul32 : ℕ → ℕ → ℕ
mul32 a b = (a * b) % word
