-- ===== src/Ext2/Files.antt =====
-- The files of src/kernel/filesystem/Ext2FileSystem.cpp: the inodes in their table, and `Ext2File`. A buffer
-- of the caller is a function, from its first byte on.
use ow_os.Common.{
  ℕ, zero, suc, ◌+◌, ◌-◌, ◌*◌, ◌/◌, ◌%◌, ◌^◌, Bool, true, false, not, ◌&&◌, none, ltb, leb, ◌==◌,
  if◌then◌else◌, word, add32, sub32, mul32, Result, ok, err, out_of_bounds, out_of_fuel, ◌>>=◌,
}
use ow_os.Ext2.{
  Disk, Inode, InodeType, fifo, char_device, directory, block_device, regular_file, soft_link,
  unix_socket, no_type, BlockIterator, word_of, block_size, block_iterator, get, next,
}

-- `FileType` of src/kernel/include/filesystem/File.hpp.
pub data FileType : Type 0 where
  unknown regular directory_file device soft_link_file : FileType

unfoldable pub from_inode_type : InodeType → FileType
from_inode_type fifo = device
from_inode_type unix_socket = device
from_inode_type char_device = device
from_inode_type block_device = device
from_inode_type directory = directory_file
from_inode_type regular_file = regular
from_inode_type soft_link = soft_link_file
from_inode_type (no_type n) = unknown

-- The numbers of `InodeType`.
unfoldable pub inode_type_of : ℕ → InodeType
inode_type_of n =
    if n == 1
    then fifo
    else if n == 2
    then char_device
    else if n == 4
    then directory
    else if n == 6
    then block_device
    else if n == 8
    then regular_file
    else if n == 10
    then soft_link
    else if n == 12
    then unix_socket
    else no_type n

-- The fields of an `inode_t` by their places in it. The type is the last four bits of the first two bytes.
unfoldable pub inode_in : Disk → ℕ → ℕ → Inode
inode_in disk block offset =
    let field = λ (at : ℕ). word_of (λ b j. disk b (offset + j)) block (at / 4) in
    record {
      inode_type = inode_type_of (field 0 % 65536 / 4096);
      size_low = field 4;
      size_high = field 108;
      direct_ptr = λ i. field (40 + i * 4);
      singly_indirect_ptr = field 88;
      doubly_indirect_ptr = field 92;
      triply_indirect_ptr = field 96;
    }

-- What `mount` reads of the superblock.
pub record FileSystem : Type 0 where
  pub inodes_per_block_group : ℕ
  pub inode_size : ℕ

-- `inode_table_start_block` of a group's descriptor. The descriptors have 32 bytes each, and their
-- blocks are those from the first on.
unfoldable pub inode_table_start_block : Disk → ℕ → ℕ
inode_table_start_block disk group =
    let offset = mul32 group 32 in
    word_of disk (1 + offset / block_size) (offset % block_size / 4 + 2)

unfoldable pub read_inode_metadata : FileSystem → Disk → ℕ → Inode
read_inode_metadata fs disk inode =
    let index = sub32 inode 1 % fs.inodes_per_block_group in
    let group = sub32 inode 1 / fs.inodes_per_block_group in
    let bytes = mul32 index fs.inode_size in
    inode_in disk (add32 (inode_table_start_block disk group) (bytes / block_size))
      (bytes % block_size)

-- `Ext2File`
pub record File : Type 0 where
  pub inode_number : ℕ
  pub metadata_cached : Bool
  pub inode_metadata : Inode
  pub size : ℕ
  pub file_type : FileType

unfoldable pub read_and_parse_metadata : FileSystem → Disk → File → File
read_and_parse_metadata fs disk f =
    let inode = read_inode_metadata fs disk f.inode_number in
    record f {
      metadata_cached = true;
      inode_metadata = inode;
      size = inode.size_low + inode.size_high * word;
      file_type = from_inode_type inode.inode_type;
    }

-- The file with its metadata.
abbrev pub with_metadata : FileSystem → Disk → File → File
with_metadata fs disk f = if f.metadata_cached then f else read_and_parse_metadata fs disk f

abbrev pub is_regular : FileType → Bool
is_regular regular = true
is_regular other = false

abbrev pub is_soft_link : FileType → Bool
is_soft_link soft_link_file = true
is_soft_link other = false

-- `LibK::min`
abbrev pub least : ℕ → ℕ → ℕ
least a b = if ltb b a then b else a

-- `memcpy` of `n` bytes of a block into the buffer, both from a place on. What is behind the block is
-- not the block's.
unfoldable pub copy_block : Disk → ℕ → ℕ → ℕ → ℕ → (ℕ → ℕ) → Result (ℕ → ℕ)
copy_block disk block offset n at buffer =
    if leb (offset + n) block_size
    then ok (λ j. if leb at j && ltb j (at + n) then disk block (offset + (j - at)) else buffer j)
    else err out_of_bounds

-- The loop of `read`: the bytes that are left, those that were read, and the place in the block.
unfoldable pub read_blocks : ℕ → ℕ → ℕ → ℕ → Disk × BlockIterator → (ℕ → ℕ) → Result (ℕ × (ℕ → ℕ))
read_blocks zero bytes done offset s buffer = err out_of_fuel
read_blocks (suc rounds) bytes done offset s buffer = if bytes == 0 then ok (done, buffer) else (do
  block ← get s
  after ← copy_block (s.0) block offset (least block_size bytes) done buffer
  s ← next none s
  read_blocks rounds (sub32 bytes (least block_size bytes)) (add32 done (least block_size bytes)) 0
      s after)

-- The bytes of the inode from `direct_ptr` on.
unfoldable pub inode_byte : Inode → ℕ → ℕ
inode_byte inode i =
    let at = i / 4 in
    let field =
      if ltb at 12
      then inode.direct_ptr at
      else if at == 12
      then inode.singly_indirect_ptr
      else if at == 13
      then inode.doubly_indirect_ptr
      else inode.triply_indirect_ptr in
    field / 256 ^ (i % 4) % 256

-- The number of bytes that there are to read.
abbrev pub clipped : ℕ → ℕ → ℕ → ℕ
clipped size offset bytes =
    if ltb size (add32 offset bytes) then sub32 (size % word) offset else bytes

-- The bytes that were read, the buffer, and the file with its metadata.
unfoldable pub read : FileSystem → Disk → File → ℕ → ℕ → (ℕ → ℕ) → Result (ℕ × (ℕ → ℕ) × File)
read fs disk f offset bytes buffer =
    let f = with_metadata fs disk f in
    let bytes = clipped f.size offset bytes in
    if not (is_regular f.file_type) && not (is_soft_link f.file_type)
    then ok (0, buffer, f)
    else if is_soft_link f.file_type && ltb (add32 offset bytes) 60
    then (if leb (offset + bytes) 60
        then ok (
          bytes,
          (λ j. if ltb j bytes then inode_byte f.inode_metadata (offset + j) else buffer j),
          f,
        )
        else err out_of_bounds)
    else (do
      s ← block_iterator offset f.inode_metadata disk
      (done, buffer) ← read_blocks (bytes + 1) bytes 0 (offset % block_size) s buffer
      ok (done, buffer, f))
