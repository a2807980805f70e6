-- ===== src/Libk/CircularBuffer.antt =====
-- src/kernel/include/libk/CircularBuffer.hpp. The storage is a list, and the pointers into it are
-- indices: `m_begin` is 0 and `m_end` the capacity.
pub mod Contents
pub mod Refine
use ow_os.Common.{
  ℕ, ◌+◌, ◌-◌, Bool, List, Option, none, some, ltb, ◌==◌, if◌then◌else◌, get_elem?, set, Result, ok,
  err, out_of_bounds, ◌>>=◌, ◌>>◌, assert, or_fault,
}

pub record CircularBuffer {ℓ} (A : Type ℓ) : Type ℓ where
  pub storage : List A
  pub head : ℕ
  pub tail : ℕ
  pub capacity : ℕ
  pub size : ℕ

-- `p++; if (p == m_end) p = m_begin;`
abbrev pub advance : ℕ → ℕ → ℕ
advance capacity p = if p + 1 == capacity then 0 else p + 1

module _ {ℓ} {A : Type ℓ} where
  -- The constructor; `storage` is what `kmalloc` gave.
  unfoldable pub init : List A → ℕ → CircularBuffer A
  init storage size = record { storage = storage; head = 0; tail = 0; capacity = size; size = 0 }

  abbrev pub is_empty : CircularBuffer A → Bool
  is_empty c = c.size == 0

  abbrev pub is_full : CircularBuffer A → Bool
  is_full c = c.size == c.capacity

  unfoldable pub pop : CircularBuffer A → Result (A × CircularBuffer A)
  pop c = do
    assert (ltb 0 c.size)
    val ← or_fault (get_elem? c.storage c.tail) out_of_bounds
    ok (val, record c { tail = advance c.capacity c.tail; size = c.size - 1 })

  -- A push to a full buffer drops its oldest value.
  unfoldable pub push : CircularBuffer A → A → Result (CircularBuffer A)
  push c val =
      let head = advance c.capacity c.head in
      let written = record c { storage = set c.storage c.head val; head = head } in
      if ltb c.head c.capacity
      then (if c.size == c.capacity
          then ok (record written { tail = head })
          else ok (record written { size = c.size + 1 }))
      else err out_of_bounds
