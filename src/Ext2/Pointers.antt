-- ===== src/Ext2/Pointers.antt =====
-- `from_linear_index` of src/kernel/filesystem/Ext2FileSystem.cpp, at the size of a block that `mount`
-- asserts.
use ow_os.Common.{
  ℕ, ◌+◌, ◌-◌, ◌*◌, ◌/◌, ◌%◌, ◌≤◌, ◌<◌, ◌≡◌, inl, inr, refl, subst, Bool-cases, true, false, ltb,
  ◌==◌, if◌then◌else◌, ltb→lt, lt→ltb, ltb→le, le→ltb, arith, sub32, mul32,
}
use ow_os.Ext2.{BlockPointer, no_pointer, from_linear_index, inodes_per_block}

-- How many blocks a file can have.
abbrev pub most_blocks : ℕ
most_blocks = 12 + 1024 + 1024 * 1024 + 1024 * 1024 * 1024

-- The place of a block in its file.
abbrev pub linear_index : BlockPointer → ℕ
linear_index p =
    if p.triply_indirect_block == 1
    then 12
      + 1024
      + 1024 * 1024
      + (p.doubly_indirect_block * 1024 + p.singly_indirect_block) * 1024
      + p.direct_block
    else if p.doubly_indirect_block == 1
    then 12 + 1024 + p.singly_indirect_block * 1024 + p.direct_block
    else if p.singly_indirect_block == 1
    then 12 + p.direct_block
    else p.direct_block

-- Each part of the pointer is an element of a block.
abbrev pub IsInside : BlockPointer → Type 0
IsInside p =
    (p.direct_block < inodes_per_block)
    × (p.singly_indirect_block < inodes_per_block)
    × (p.doubly_indirect_block < inodes_per_block)
    × (p.triply_indirect_block ≤ 1)

-- The four cases.
pub direct_case :
    (i : ℕ) → i < 12 → from_linear_index i inodes_per_block ≡ record no_pointer { direct_block = i }
unfolding from_linear_index
direct_case i h = let e : ltb i 12 ≡ true = lt→ltb _ _ h in rw e refl

pub singly_case :
    (i : ℕ)
    → i < 1024
    → from_linear_index (12 + i) inodes_per_block
      ≡ record no_pointer { direct_block = i; singly_indirect_block = 1 }
unfolding from_linear_index
singly_case i h =
    let past : ltb (12 + i) 12 ≡ false = le→ltb _ _ (omega arith) in
    let e : sub32 (12 + i) 12 ≡ i = omega (arith, h) in
    let here : ltb i inodes_per_block ≡ true = lt→ltb _ _ h in rw (past, e, here) refl

pub doubly_case :
    (i : ℕ)
    → i < 1024 * 1024
    → from_linear_index (12 + 1024 + i) inodes_per_block ≡ record no_pointer {
      direct_block = i % 1024;
      singly_indirect_block = i / 1024;
      doubly_indirect_block = 1;
    }
unfolding from_linear_index
doubly_case i h =
    let past : ltb (12 + 1024 + i) 12 ≡ false = le→ltb _ _ (omega arith) in
    let e₁ : sub32 (12 + 1024 + i) 12 ≡ 1024 + i = omega (arith, h) in
    let past₂ : ltb (1024 + i) inodes_per_block ≡ false = le→ltb _ _ (omega arith) in
    let e₂ : sub32 (1024 + i) inodes_per_block ≡ i = omega (arith, h) in
    let here : ltb i (mul32 inodes_per_block inodes_per_block) ≡ true = lt→ltb _ _ h in
    rw (past, e₁, past₂, e₂, here) refl

pub triply_case :
    (i : ℕ)
    → i < 1024 * 1024 * 1024
    → from_linear_index (12 + 1024 + 1024 * 1024 + i) inodes_per_block ≡ record no_pointer {
      direct_block = i % 1024;
      singly_indirect_block = i / 1024 % 1024;
      doubly_indirect_block = i / 1048576;
      triply_indirect_block = 1;
    }
unfolding from_linear_index
triply_case i h =
    let past : ltb (12 + 1024 + 1024 * 1024 + i) 12 ≡ false = le→ltb _ _ (omega arith) in
    let e₁ : sub32 (12 + 1024 + 1024 * 1024 + i) 12 ≡ 1024 + 1048576 + i = omega (arith, h) in
    let past₂ : ltb (1024 + 1048576 + i) inodes_per_block ≡ false = le→ltb _ _ (omega arith) in
    let e₂ : sub32 (1024 + 1048576 + i) inodes_per_block ≡ 1048576 + i = omega (arith, h) in
    let past₃ : ltb (1048576 + i) (mul32 inodes_per_block inodes_per_block) ≡ false =
      le→ltb _ _ (omega arith) in
    let e₃ : sub32 (1048576 + i) (mul32 inodes_per_block inodes_per_block) ≡ i = omega (arith, h) in
    rw (past, e₁, past₂, e₂, past₃, e₃) refl

-- A property of the pointers of all blocks that a file can have holds in each of the four cases.
pub index_cases :
    (P : ℕ → Type 0)
    → ((i : ℕ) → i < 12 → P i)
    → ((i : ℕ) → i < 1024 → P (12 + i))
    → ((i : ℕ) → i < 1024 * 1024 → P (12 + 1024 + i))
    → ((i : ℕ) → i < 1024 * 1024 * 1024 → P (12 + 1024 + 1024 * 1024 + i))
    → (index : ℕ) → index < most_blocks
    → P index
index_cases P direct singly doubly triply index h = elim (Bool-cases (ltb index 12)) [
  | inl e ↦ direct index (ltb→lt _ _ e)
  | inr e₁ ↦ elim (Bool-cases (ltb index (12 + 1024))) [
    | inl e ↦
        subst P (omega (arith, ltb→le _ _ e₁)) (singly (index - 12) (omega (arith, ltb→lt _ _ e)))
    | inr e₂ ↦ elim (Bool-cases (ltb index (12 + 1024 + 1024 * 1024))) [
      | inl e ↦
          subst P (omega (arith, ltb→le _ _ e₂))
            (doubly (index - 1036) (omega (arith, ltb→lt _ _ e)))
      | inr e₃ ↦
          subst P (omega (arith, ltb→le _ _ e₃))
            (triply (index - 1049612) (omega (arith, h, ltb→le _ _ e₃)))
    ]
  ]
]

-- For each block that a file can have, each part of its pointer is an index of an element of a block,
-- and the place that the pointer stands for is the index it was made from.
pub from_linear_index-linear_index :
    (index : ℕ)
    → index < most_blocks
    → IsInside (from_linear_index index inodes_per_block)
      × (linear_index (from_linear_index index inodes_per_block) ≡ index)
from_linear_index-linear_index =
    index_cases
      (λ index.
        IsInside (from_linear_index index inodes_per_block)
        × (linear_index (from_linear_index index inodes_per_block) ≡ index))
      (λ i h.
        rw (direct_case i h) ((omega (arith, h), omega arith, omega arith, omega arith), refl))
      (λ i h. rw (singly_case i h) ((h, omega arith, omega arith, omega arith), refl))
      (λ i h.
        rw (doubly_case i h)
          ((omega arith, omega (arith, h), omega arith, omega arith), omega arith))
      (λ i h.
        rw (triply_case i h)
          ((omega arith, omega arith, omega (arith, h), omega arith), omega arith))
