-- ===== src/Tests/Ext2.antt =====
-- Runs of src/kernel/filesystem/Ext2FileSystem.cpp on a file of 60000 bytes.
use ow_os.Common.{
  ◌&&◌, ℕ, ◌+◌, ◌≡◌, refl, true, if◌then◌else◌, ◌==◌, arith, ok, err, out_of_bounds, ◌>>=◌,
}
use ow_os.Ext2.{
  Disk, Inode, regular_file, BlockIterator, block_iterator, get, from_linear_index,
  inodes_per_block,
}
use ow_os.Ext2.Pointers.{IsInside, linear_index, from_linear_index-linear_index}
use ow_os.Ext2.Iterator.{block_of}
use ow_os.Ext2.Blocks.{advance, get-advance}
use ow_os.Ext2.Files.{FileSystem, File, regular, read}
use ow_os.Ext2.Allocation.{Bits, take_free}
use ow_os.Ext2.Allocation.Taken.{IsTaken, take_free-IsTaken}
use ow_os.Ext2.Reading.{IsRead, read-IsRead, read_outside}

from_linear_index-linear_index_example :
    IsInside (from_linear_index 5000 inodes_per_block)
    × (linear_index (from_linear_index 5000 inodes_per_block) ≡ 5000)
from_linear_index-linear_index_example = from_linear_index-linear_index 5000 (omega arith)

-- The first pointer in block 100 is to block 201.
abbrev disk : Disk
disk = λ block i. if block == 100 then (if i == 0 then 201 else 0) else block + i

abbrev inode : Inode
inode = record {
  inode_type = regular_file;
  size_low = 60000;
  size_high = 0;
  direct_ptr = λ i. 10 + i;
  singly_indirect_ptr = 100;
  doubly_indirect_ptr = 0;
  triply_indirect_ptr = 0;
}

-- From the last of the direct blocks to the first behind them.
get-advance_example :
    (it : BlockIterator) × ((block_iterator 45056 inode disk >>= advance 1) ≡ ok (disk, it))
    × (get (disk, it) ≡ ok (block_of disk inode 12))
get-advance_example = get-advance disk inode 45056 1 (omega arith)

abbrev fs : FileSystem
fs = record { inodes_per_block_group = 100; inode_size = 128 }

abbrev file : File
file = record {
  inode_number = 12;
  metadata_cached = true;
  inode_metadata = inode;
  size = 60000;
  file_type = regular;
}

abbrev buffer : ℕ → ℕ
buffer = λ j. 255

read-IsRead_example :
    (after : ℕ → ℕ) × (read fs disk file 45056 5000 buffer ≡ ok (5000, after, file))
    × IsRead disk inode 45056 0 5000 buffer after
read-IsRead_example =
    read-IsRead fs disk file 45056 5000 buffer refl (omega arith) (omega arith) (omega arith)

read_outside_example : read fs disk file 100 5000 buffer ≡ err out_of_bounds
read_outside_example =
    read_outside fs disk file 100 5000 buffer refl (omega arith) (omega arith) (omega arith)

-- A group of three blocks. The first is in use.
abbrev bits : Bits
bits = λ table bit. table == 9 && bit == 0

take_free-IsTaken_example : IsTaken 9 100 3 0 2 bits (take_free 3 100 3 0 9 0 2 bits)
take_free-IsTaken_example =
    take_free-IsTaken 9 100 3 3 0 2 bits (omega arith) (omega arith) (omega arith)
