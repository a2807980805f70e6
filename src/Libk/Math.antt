-- ===== src/Libk/Math.antt =====
-- src/kernel/include/libk/kmath.hpp at `T = uint32_t`, which `size_t` and `uintptr_t` are too.
use ow_os.Common.{
  ℕ, ◌+◌, ◌-◌, ◌/◌, ◌%◌, ◌≤◌, ◌<◌, ◌≡◌, arith, ◌==◌, if◌then◌else◌, add32, sub32, mul32, word,
}

unfoldable pub round_up_to_multiple : ℕ → ℕ → ℕ
round_up_to_multiple value multiple =
    if multiple == 0 then value else mul32 (sub32 (add32 value multiple) 1 / multiple) multiple

unfoldable pub ceil_div : ℕ → ℕ → ℕ
ceil_div value multiple = if multiple == 0 then value else sub32 (add32 value multiple) 1 / multiple

unfoldable pub round_down_to_multiple : ℕ → ℕ → ℕ
round_down_to_multiple value multiple =
    if multiple == 0 then value else mul32 (value / multiple) multiple

abbrev pub page_size : ℕ
page_size = 4096

-- Rounding to pages.
pub round_down_pages :
    (value : ℕ)
    → value < word
    → let r = round_down_to_multiple value page_size in
      (r ≤ value) × (value < r + page_size) × (r % page_size ≡ 0)
unfolding round_down_to_multiple
round_down_pages value h = omega arith

pub round_up_pages :
    (value : ℕ)
    → value ≤ word - page_size
    → let r = round_up_to_multiple value page_size in
      (value ≤ r) × (r < value + page_size) × (r % page_size ≡ 0)
unfolding round_up_to_multiple
round_up_pages value h = omega arith
