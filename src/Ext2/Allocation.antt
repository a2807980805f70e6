-- ===== src/Ext2/Allocation.antt =====
-- `allocate_blocks` of src/kernel/filesystem/Ext2FileSystem.cpp. The bits of each block of the device are
-- one function, and the descriptors of the groups are a list.
pub mod Rounds
pub mod Taken
use ow_os.Common.{
  ℕ, zero, suc, ◌+◌, ◌-◌, ◌*◌, ◌%◌, Bool, true, false, not, ◌&&◌, ◌||◌, List, [], ◌∷◌, ◌++◌, ltb,
  ◌==◌, if◌then◌else◌, add32, sub32, mul32, length,
}
use ow_os.Ext2.Files.{least}

-- `blocks_per_block`, the bits in a block.
abbrev pub blocks_per_block : ℕ
blocks_per_block = 32768

abbrev pub Bits : Type 0
Bits = ℕ → ℕ → Bool

-- `get_size_t(bitmap, i) == SIZE_MAX`: so many bits from one on are set.
unfoldable pub all_set : ℕ → ℕ → ℕ → Bits → Bool
all_set zero table bit bits = true
all_set (suc n) table bit bits = bits table bit && all_set n table (bit + 1) bits

abbrev pub set_bit : ℕ → ℕ → Bits → Bits
set_bit table bit bits = λ t j. if t == table && j == bit then true else bits t j

-- The end of a round: behind the last bit of a block of the table comes its next block.
abbrev pub next_table : ℕ → ℕ → ℕ
next_table table bit = if bit == blocks_per_block then table + 1 else table

abbrev pub next_bit : ℕ → ℕ
next_bit bit = if bit == blocks_per_block then 0 else bit

-- 32 blocks that are all in use are skipped at once.
abbrev pub is_full : ℕ → ℕ → Bits → Bool
is_full table bit bits = bit % 32 == 0 && all_set 32 table bit bits

-- The block is free, and is taken.
unfoldable pub takes : ℕ → ℕ → Bits → Bool
takes table bit bits = not (is_full table bit bits) && not (bits table bit)

unfoldable pub step_of : ℕ → ℕ → Bits → ℕ
step_of table bit bits = if is_full table bit bits then 32 else 1

-- The loop over the blocks of a group from one on: the blocks that are taken, and the bits after it. The
-- number `base` is that of the group's first block, and `left` blocks are asked for.
unfoldable pub take_free : ℕ → ℕ → ℕ → ℕ → ℕ → ℕ → ℕ → Bits → List ℕ × Bits
take_free zero base n block table bit left bits = ([], bits)
take_free (suc rounds) base n block table bit left bits =
    let take = takes table bit bits in
    let left_after = if take then left - 1 else left in
    let bits_after = if take then set_bit table bit bits else bits in
    let next = bit + step_of table bit bits in
    let rest =
      take_free rounds base n (block + step_of table bit bits) (next_table table next)
        (next_bit next) left_after bits_after in
    if not (ltb block n)
    then ([], bits)
    else if not take
    then rest
    else if left_after == 0
    then ((add32 base block) ∷ [], bits_after)
    else ((add32 base block) ∷ rest.0, rest.1)

-- What the descriptor of a group has of its blocks.
pub record Group : Type 0 where
  pub block_usage_bitmap_block : ℕ
  pub unallocated_blocks : ℕ

-- What the superblock has of them, and the groups.
pub record Volume : Type 0 where
  pub free_blocks : ℕ
  pub block_count : ℕ
  pub blocks_per_block_group : ℕ
  pub groups : List Group
  pub bits : Bits

-- `blocks_in_group`, of a group and of how many are behind it.
abbrev pub blocks_in_group : ℕ → Volume → ℕ
blocks_in_group behind v =
    if behind == 0 then v.block_count % v.blocks_per_block_group else v.blocks_per_block_group

-- The loop over the groups: the blocks, the groups and the bits after it.
unfoldable pub take_in_groups : ℕ → ℕ → List Group → Volume → Bits → List ℕ × List Group × Bits
take_in_groups index count [] v bits = ([], [], bits)
take_in_groups index count (g ∷ groups) v bits =
    let n = least count g.unallocated_blocks in
    let size = blocks_in_group (length groups) v in
    let here =
      take_free size (mul32 index v.blocks_per_block_group) size 0 g.block_usage_bitmap_block 0 n
        bits in
    let rest = take_in_groups (index + 1) (sub32 count n) groups v (here.1) in
    let without = take_in_groups (index + 1) count groups v bits in
    if count == 0
    then ([], g ∷ groups, bits)
    else if n == 0
    then (without.0, g ∷ without.1, without.2)
    else (
      here.0 ++ rest.0,
      record g { unallocated_blocks = g.unallocated_blocks - n } ∷ rest.1,
      rest.2,
    )

unfoldable pub allocate_blocks : ℕ → Volume → List ℕ × Volume
allocate_blocks count v =
    let taken = take_in_groups 0 count v.groups v v.bits in
    if ltb v.free_blocks count then ([], v) else (
      taken.0,
      record v { free_blocks = v.free_blocks - count; groups = taken.1; bits = taken.2 },
    )
