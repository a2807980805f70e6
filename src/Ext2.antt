-- ===== src/Ext2.antt =====
-- src/kernel/filesystem/Ext2FileSystem.cpp: the blocks of a file, by the iterator that follows the
-- pointers of its inode. `mount` asserts that a block has the size of a page. An array is a function.
-- What src/kernel/filesystem/FileSystemCache.cpp has of a block is shared by all who hold it, so it
-- is the contents of the block here, and a pointer to it is the block's number.
pub mod Pointers
pub mod Iterator
pub mod Blocks
pub mod Files
pub mod Reading
pub mod Allocation
use ow_os.Common.{
  ℕ, zero, suc, ◌+◌, ◌-◌, ◌*◌, ◌/◌, ◌%◌, ◌^◌, Bool, true, false, not, ◌&&◌, ◌||◌, Option, none,
  some, List, [], ◌∷◌, ltb, leb, ◌==◌, if◌then◌else◌, add32, sub32, mul32, length, get_or, Result,
  ok, err, assert, null_deref, out_of_bounds, or_fault, ◌>>=◌, ◌>>◌,
}

-- `m_block_size`
abbrev pub block_size : ℕ
block_size = 4096

-- The pointers in a block, `m_inodes_per_block`.
abbrev pub inodes_per_block : ℕ
inodes_per_block = 1024

-- The bytes of each block.
abbrev pub Disk : Type 0
Disk = ℕ → ℕ → ℕ

-- `((uint32_t *)data)[i]`
unfoldable pub word_of : Disk → ℕ → ℕ → ℕ
word_of disk block i =
    disk block (i * 4)
    + 256 * disk block (i * 4 + 1)
    + 65536 * disk block (i * 4 + 2)
    + 16777216 * disk block (i * 4 + 3)

abbrev pub set_word : Disk → ℕ → ℕ → ℕ → Disk
set_word disk block i word =
    λ b j. if b == block && j / 4 == i then word / 256 ^ (j % 4) % 256 else disk b j

-- `block_pointer_t`
pub record BlockPointer : Type 0 where
  pub direct_block : ℕ
  pub singly_indirect_block : ℕ
  pub doubly_indirect_block : ℕ
  pub triply_indirect_block : ℕ

pub data InodeType : Type 0 where
  fifo char_device directory block_device regular_file soft_link unix_socket : InodeType
  -- A number that is not among them.
  no_type : ℕ → InodeType

-- What the driver reads of an `inode_t`.
pub record Inode : Type 0 where
  pub inode_type : InodeType
  pub size_low : ℕ
  pub size_high : ℕ
  pub direct_ptr : ℕ → ℕ
  pub singly_indirect_ptr : ℕ
  pub doubly_indirect_ptr : ℕ
  pub triply_indirect_ptr : ℕ

abbrev pub no_pointer : BlockPointer
no_pointer = record {
  direct_block = 0;
  singly_indirect_block = 0;
  doubly_indirect_block = 0;
  triply_indirect_block = 0;
}

-- The last case of `from_linear_index`, past the first blocks.
abbrev pub triply_pointer : ℕ → ℕ → BlockPointer
triply_pointer index per_block = record {
  direct_block = index % per_block;
  singly_indirect_block = index / per_block % per_block;
  doubly_indirect_block = index / mul32 per_block per_block;
  triply_indirect_block = 1;
}

unfoldable pub from_linear_index : ℕ → ℕ → BlockPointer
from_linear_index index per_block =
    if ltb index 12
    then record no_pointer { direct_block = index }
    else if ltb (sub32 index 12) per_block
    then record no_pointer { direct_block = sub32 index 12; singly_indirect_block = 1 }
    else (let past = sub32 (sub32 index 12) per_block in
        if ltb past (mul32 per_block per_block)
        then record no_pointer {
          direct_block = past % per_block;
          singly_indirect_block = past / per_block;
          doubly_indirect_block = 1;
        }
        else triply_pointer (sub32 past (mul32 per_block per_block)) per_block)

-- `Ext2BlockIterator`. The three blocks are those it has acquired.
pub record BlockIterator : Type 0 where
  pub current_block_index : ℕ
  pub current_pointer : BlockPointer
  pub inode_metadata : Inode
  pub triple_block : Option ℕ
  pub double_block : Option ℕ
  pub single_block : Option ℕ

-- An element of a block that was acquired.
abbrev pub word_at : Disk → ℕ → ℕ → Result ℕ
word_at disk block i =
    if ltb i inodes_per_block then ok (word_of disk block i) else err out_of_bounds

-- A new block is put in the block above it or, when there is none, in the inode.
unfoldable pub put :
    Option (List ℕ) → ℕ → Option ℕ → ℕ → (ℕ → Inode → Inode) → Disk × Inode → Result (Disk × Inode)
put none k above at put_in (disk, inode) = ok (disk, inode)
put (some new_blocks) k none at put_in (disk, inode) =
    ok (disk, put_in (get_or new_blocks k 0) inode)
put (some new_blocks) k (some block) at put_in (disk, inode) =
    if ltb at inodes_per_block
    then ok (set_word disk block at (get_or new_blocks k 0), inode)
    else err out_of_bounds

-- The block that a pointer of the block above, or of the inode, leads to.
abbrev pub follow : Disk → Option ℕ → ℕ → ℕ → Result (Option ℕ)
follow disk (some block) at pointer = word_at disk block at >>= (λ b. ok (some b))
follow disk none at pointer = if at == 0 then ok none else ok (some pointer)

-- The three parts of `update_blocks`, when the test of each is true.
unfoldable pub update_triple :
    BlockPointer → Option (List ℕ) → Disk × BlockIterator → Result (Disk × BlockIterator)
update_triple p new_blocks (disk, it) = do
  (disk, inode) ←
      put new_blocks 2 none 0 (λ b i. record i { triply_indirect_ptr = b })
        (disk, it.inode_metadata)
  block ← follow disk none p.triply_indirect_block inode.triply_indirect_ptr
  ok (disk, record it { inode_metadata = inode; triple_block = block })

unfoldable pub update_double :
    BlockPointer → Option (List ℕ) → Disk × BlockIterator → Result (Disk × BlockIterator)
update_double p new_blocks (disk, it) = do
  (disk, inode) ←
      put new_blocks 1 it.triple_block p.doubly_indirect_block
        (λ b i. record i { doubly_indirect_ptr = b }) (disk, it.inode_metadata)
  block ← follow disk it.triple_block p.doubly_indirect_block inode.doubly_indirect_ptr
  ok (disk, record it { inode_metadata = inode; double_block = block })

unfoldable pub update_single :
    BlockPointer → Option (List ℕ) → Disk × BlockIterator → Result (Disk × BlockIterator)
update_single p new_blocks (disk, it) = do
  (disk, inode) ←
      put new_blocks 0 it.double_block p.singly_indirect_block
        (λ b i. record i { singly_indirect_ptr = b }) (disk, it.inode_metadata)
  block ← follow disk it.double_block p.singly_indirect_block inode.singly_indirect_ptr
  ok (disk, record it { inode_metadata = inode; single_block = block })

-- How many of the three blocks the new pointer invalidates, `count`.
unfoldable pub invalidated : BlockPointer → BlockPointer → ℕ
invalidated new current =
    if not (new.triply_indirect_block == current.triply_indirect_block)
    then 3
    else if not (new.doubly_indirect_block == current.doubly_indirect_block)
    then 2
    else if not (new.singly_indirect_block == current.singly_indirect_block)
    then 1
    else 0

-- `new_blocks.size() == count`, with `allocate`.
abbrev pub all_there : Option (List ℕ) → ℕ → Bool
all_there none count = true
all_there (some new_blocks) count = length new_blocks == count

-- With `allocate`, `new_blocks` are those that `allocate_blocks` gave.
unfoldable pub update_blocks :
    BlockPointer → Option (List ℕ) → Disk × BlockIterator → Result (Disk × BlockIterator)
update_blocks new new_blocks (disk, it) =
    let count = invalidated new it.current_pointer in
    assert (all_there new_blocks count) >> (do
      s ← if leb 3 count then update_triple new new_blocks (disk, it) else ok (disk, it)
      s ← if leb 2 count then update_double new new_blocks s else ok s
      if leb 1 count then update_single new new_blocks s else ok s)

-- The pointer that an update was for is the current one.
abbrev pub to_pointer : BlockPointer → Disk × BlockIterator → Disk × BlockIterator
to_pointer new (disk, it) = (disk, record it { current_pointer = new })

-- The constructor.
unfoldable pub block_iterator : ℕ → Inode → Disk → Result (Disk × BlockIterator)
block_iterator offset inode disk =
    let index = offset / block_size in
    let new = from_linear_index index inodes_per_block in
    let it : BlockIterator = record {
      current_block_index = index;
      current_pointer = no_pointer;
      inode_metadata = inode;
      triple_block = none;
      double_block = none;
      single_block = none;
    } in
    update_blocks new none (disk, it) >>= (λ s. ok (to_pointer new s))

-- `set`
unfoldable pub set_block : ℕ → Disk × BlockIterator → Result (Disk × BlockIterator)
set_block b (disk, it) =
    let inode =
      if ltb it.current_block_index 12
      then record it.inode_metadata {
        direct_ptr = λ i. if i == it.current_block_index then b else it.inode_metadata.direct_ptr i;
      }
      else it.inode_metadata in
    or_fault it.single_block null_deref >>= (λ single.
      if ltb it.current_pointer.direct_block inodes_per_block
      then ok (
        set_word disk single it.current_pointer.direct_block b,
        record it { inode_metadata = inode },
      )
      else err out_of_bounds)

unfoldable pub get : Disk × BlockIterator → Result ℕ
get (disk, it) =
    if ltb it.current_block_index 12
    then ok (it.inode_metadata.direct_ptr it.current_block_index)
    else or_fault it.single_block null_deref
      >>= (λ block. word_at disk block it.current_pointer.direct_block)

unfoldable pub next : Option (List ℕ) → Disk × BlockIterator → Result (Disk × BlockIterator)
next new_blocks (disk, it) =
    let index = add32 it.current_block_index 1 in
    let new = from_linear_index index inodes_per_block in
    update_blocks new new_blocks (disk, record it { current_block_index = index })
    >>= (λ s. ok (to_pointer new s))

-- The block with each of its pointers' new blocks, as `allocate_blocks` gave them for each call of `next`.
unfoldable pub append_blocks :
    List (ℕ × List ℕ) → Disk × BlockIterator → Result (Disk × BlockIterator)
append_blocks [] s = ok s
append_blocks ((b, new_blocks) ∷ blocks) s = do
  (disk, it) ← next (some new_blocks) s
  s ← elim it.single_block [
    | some single ↦
        if ltb it.current_pointer.direct_block inodes_per_block
        then ok (set_word disk single it.current_pointer.direct_block b, it)
        else err out_of_bounds
    | none ↦ ok (
      disk,
      record it {
        inode_metadata = record it.inode_metadata {
          direct_ptr = λ i.
              if i == it.current_pointer.direct_block then b else it.inode_metadata.direct_ptr i;
        };
      },
    )
  ]
  append_blocks blocks s
