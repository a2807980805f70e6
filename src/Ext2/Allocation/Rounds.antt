-- ===== src/Ext2/Allocation/Rounds.antt =====
-- The rounds of the loop over the blocks of a group in `allocate_blocks` of
-- src/kernel/filesystem/Ext2FileSystem.cpp.
use ow_os.Common.{
  ℕ, zero, suc, ◌+◌, ◌-◌, ◌/◌, ◌%◌, ◌≤◌, ◌<◌, ◌≡◌, inl, inr, refl, sym, ap, ◌∙◌, Bool, Bool-cases,
  true, false, List, [], ◌∷◌, ltb, ◌==◌, lt→ltb, le→ltb, arith, add32,
}
use ow_os.Ext2.Allocation.{
  Bits, blocks_per_block, all_set, set_bit, next_table, next_bit, is_full, takes, step_of,
  take_free,
}

all_set-bit :
    (n table bit i : ℕ) (bits : Bits)
    → all_set n table bit bits ≡ true
    → i < n
    → bits table (bit + i) ≡ true
unfolding all_set
all_set-bit zero table bit i bits all less = absurd (omega (arith, less))
all_set-bit (suc n) table bit zero bits all less =
    let same : bit + 0 ≡ bit = omega arith in ap (bits table) same ∙ ground (arith, all)
all_set-bit (suc n) table bit (suc i) bits all less =
    let same : bit + suc i ≡ bit + 1 + i = omega arith in
    ap (bits table) same
    ∙ all_set-bit n table (bit + 1) i bits (ground (arith, all)) (omega (arith, less))

-- A round takes a free block, or passes by blocks that are in use, all in one block of the table.
pub takes-free :
    (table bit : ℕ) (bits : Bits)
    → takes table bit bits ≡ true
    → (step_of table bit bits ≡ 1) × (bits table bit ≡ false)
unfolding takes step_of
takes-free table bit bits e = (ground (arith, e), ground (arith, e))

pub passes_used :
    (table bit i : ℕ) (bits : Bits)
    → takes table bit bits ≡ false
    → i < step_of table bit bits
    → bits table (bit + i) ≡ true
unfolding takes step_of
passes_used table bit i bits e less = elim (Bool-cases (is_full table bit bits)) [
  | inl full ↦ all_set-bit 32 table bit i bits (ground (arith, full)) (ground (arith, less, full))
  | inr part ↦
      let first : bit ≡ bit + i = ground (arith, less, part) in
      ap (bits table) (sym first) ∙ ground (arith, e, part)
]

pub step-inside :
    (table bit : ℕ) (bits : Bits)
    → bit < blocks_per_block
    → (0 < step_of table bit bits) × (bit + step_of table bit bits ≤ blocks_per_block)
unfolding step_of
step-inside table bit bits less = elim (Bool-cases (is_full table bit bits)) [
  | inl full ↦
      let whole : bit % 32 ≡ 0 = ground (arith, full) in
      rw full (omega arith, omega (arith, whole, less))
  | inr part ↦ rw part (omega arith, omega (arith, less))
]

module _ (table base n : ℕ) where
  -- The loop at a block.
  abbrev pub from_block : ℕ → ℕ → ℕ → Bits → List ℕ × Bits
  from_block rounds block left bits =
      take_free rounds base n block (table + block / blocks_per_block) (block % blocks_per_block)
        left bits

  abbrev pub step_at : ℕ → Bits → ℕ
  step_at block bits = step_of (table + block / blocks_per_block) (block % blocks_per_block) bits

  abbrev pub takes_at : ℕ → Bits → Bool
  takes_at block bits = takes (table + block / blocks_per_block) (block % blocks_per_block) bits

  abbrev pub with_bit : ℕ → Bits → Bits
  with_bit block bits = set_bit (table + block / blocks_per_block) (block % blocks_per_block) bits

  next_table-at :
      (block step : ℕ)
      → block % blocks_per_block + step ≤ blocks_per_block
      → 0 < step
      → next_table (table + block / blocks_per_block) (block % blocks_per_block + step)
        ≡ table + (block + step) / blocks_per_block
  next_table-at block step inside pos = ground (arith, inside, pos)

  next_bit-at :
      (block step : ℕ)
      → block % blocks_per_block + step ≤ blocks_per_block
      → 0 < step
      → next_bit (block % blocks_per_block + step) ≡ (block + step) % blocks_per_block
  next_bit-at block step inside pos = ground (arith, inside, pos)

  -- What each round comes to.
  pub ends :
      (rounds block left : ℕ) (bits : Bits)
      → n ≤ block
      → from_block rounds block left bits ≡ ([], bits)
  unfolding take_free
  ends zero block left bits past = refl
  ends (suc rounds) block left bits past =
      let e : ltb block n ≡ false = le→ltb _ _ past in rw e refl

  pub passes :
      (rounds block left : ℕ) (bits : Bits)
      → block < n
      → takes_at block bits ≡ false
      → from_block (suc rounds) block left bits
        ≡ from_block rounds (block + step_at block bits) left bits
  unfolding take_free
  passes rounds block left bits less e =
      let here : ltb block n ≡ true = lt→ltb _ _ less in
      let (pos, inside) =
        step-inside (table + block / blocks_per_block) (block % blocks_per_block) bits
          (omega arith) in
      let t = next_table-at block (step_at block bits) inside pos in
      let b = next_bit-at block (step_at block bits) inside pos in rw (here, e, t, b) refl

  pub takes_last :
      (rounds block left : ℕ) (bits : Bits)
      → block < n
      → takes_at block bits ≡ true
      → left - 1 ≡ 0
      → from_block (suc rounds) block left bits ≡ ((add32 base block) ∷ [], with_bit block bits)
  unfolding take_free
  takes_last rounds block left bits less e last =
      let here : ltb block n ≡ true = lt→ltb _ _ less in
      let none_left : (left - 1 == 0) ≡ true = ground (arith, last) in rw (here, e, none_left) refl

  pub takes_one :
      (rounds block left : ℕ) (bits : Bits)
      → block < n
      → takes_at block bits ≡ true
      → 0 < left - 1
      → from_block (suc rounds) block left bits ≡ (
        (add32 base block) ∷ (from_block rounds (block + 1) (left - 1) (with_bit block bits)).0,
        (from_block rounds (block + 1) (left - 1) (with_bit block bits)).1,
      )
  unfolding take_free
  takes_one rounds block left bits less e more =
      let here : ltb block n ≡ true = lt→ltb _ _ less in
      let some_left : (left - 1 == 0) ≡ false = ground (arith, more) in
      let one =
        (takes-free (table + block / blocks_per_block) (block % blocks_per_block) bits e).0 in
      let t = next_table-at block 1 (omega arith) (omega arith) in
      let b = next_bit-at block 1 (omega arith) (omega arith) in
      rw (here, e, some_left, one, t, b) refl
