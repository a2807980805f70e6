-- ===== src/Ext2/Blocks.antt =====
-- The blocks that `Ext2BlockIterator` of src/kernel/filesystem/Ext2FileSystem.cpp comes to, one by one.
use ow_os.Common.{
  ℕ, zero, suc, ◌+◌, ◌-◌, ◌*◌, ◌/◌, ◌%◌, ◌<◌, ◌≡◌, refl, ap, ◌∙◌, true, false, ltb, lt→ltb, le→ltb,
  arith, add32, none, Result, ok, ◌>>=◌,
}
use ow_os.Ext2.{
  Disk, Inode, BlockPointer, BlockIterator, no_pointer, from_linear_index, inodes_per_block,
  word_of, block_iterator, get, next, block_size,
}
use ow_os.Ext2.Pointers.{
  most_blocks, from_linear_index-linear_index, index_cases, singly_case, doubly_case, triply_case,
}
use ow_os.Ext2.Iterator.{pointed, block_of, loaded, update_blocks-loaded}

abbrev pub pointer_at : ℕ → BlockPointer
pointer_at index = from_linear_index index inodes_per_block

-- An iterator without blocks.
abbrev pub bare : ℕ → BlockPointer → Inode → BlockIterator
bare index p inode = record {
  current_block_index = index;
  current_pointer = p;
  inode_metadata = inode;
  triple_block = none;
  double_block = none;
  single_block = none;
}

-- The iterator that stands at a block of a file.
unfoldable pub iterator_at : Disk → Inode → ℕ → BlockIterator
iterator_at disk inode index = loaded disk (pointer_at index) (bare index (pointer_at index) inode)

-- So many calls of `next`.
unfoldable pub advance : ℕ → Disk × BlockIterator → Result (Disk × BlockIterator)
advance zero s = ok s
advance (suc n) s = next none s >>= advance n

module _ (disk : Disk) (inode : Inode) where
  -- The iterator is made at the block that holds the offset.
  pub block_iterator-iterator_at :
      (offset : ℕ)
      → offset / block_size < most_blocks
      → block_iterator offset inode disk ≡ ok (disk, iterator_at disk inode (offset / block_size))
  unfolding block_iterator iterator_at loaded
  block_iterator-iterator_at offset h =
      let inside = (from_linear_index-linear_index (offset / block_size) h).0 in
      let e =
        update_blocks-loaded (pointer_at (offset / block_size)) disk
          (bare (offset / block_size) no_pointer inode) inside
          (record { triple = refl; double = refl; single = refl }) in
      rw e refl

  pub next-iterator_at :
      (index : ℕ)
      → index + 1 < most_blocks
      → next none (disk, iterator_at disk inode index)
        ≡ ok (disk, iterator_at disk inode (index + 1))
  unfolding next iterator_at loaded
  next-iterator_at index h =
      let one_more : add32 index 1 ≡ index + 1 = omega (arith, h) in
      let inside = (from_linear_index-linear_index (index + 1) h).0 in
      let e =
        update_blocks-loaded (pointer_at (index + 1)) disk
          (record (loaded disk (pointer_at index) (bare index (pointer_at index) inode)) {
            current_block_index = index + 1;
          })
          inside (record { triple = refl; double = refl; single = refl }) in
      rw (one_more, e) refl

  -- The four cases of the block that the iterator gives.
  pub get-block_of :
      (index : ℕ)
      → index < most_blocks
      → get (disk, iterator_at disk inode index) ≡ ok (block_of disk inode index)
  unfolding get iterator_at loaded block_of pointed
  get-block_of =
      index_cases
        (λ index. get (disk, iterator_at disk inode index) ≡ ok (block_of disk inode index))
        (λ i h. let here : ltb i 12 ≡ true = lt→ltb _ _ h in rw here refl)
        (λ i h.
          let past : ltb (12 + i) 12 ≡ false = le→ltb _ _ (omega arith) in
          let e : 12 + i - 12 ≡ i = omega arith in
          let here : ltb i 1024 ≡ true = lt→ltb _ _ h in
          rw (past, e, here, singly_case i h, here)
            (ap (λ (x : ℕ). ok (word_of disk inode.singly_indirect_ptr x)) (omega arith)))
        (λ i h.
          let past : ltb (12 + 1024 + i) 12 ≡ false = le→ltb _ _ (omega arith) in
          let past₂ : ltb (12 + 1024 + i - 12) 1024 ≡ false = le→ltb _ _ (omega arith) in
          let e : 12 + 1024 + i - (12 + 1024) ≡ i = omega arith in
          let here : ltb i (1024 * 1024) ≡ true = lt→ltb _ _ h in
          let small : ltb (i % 1024) inodes_per_block ≡ true = lt→ltb _ _ (omega arith) in
          rw (past, past₂, e, here, doubly_case i h, small)
            (ap (λ (x : ℕ). ok (word_of disk (word_of disk inode.doubly_indirect_ptr (i / 1024)) x))
              (omega arith)))
        (λ i h.
          let past : ltb (12 + 1024 + 1024 * 1024 + i) 12 ≡ false = le→ltb _ _ (omega arith) in
          let past₂ : ltb (12 + 1024 + 1024 * 1024 + i - 12) 1024 ≡ false =
            le→ltb _ _ (omega arith) in
          let past₃ : ltb (12 + 1024 + 1024 * 1024 + i - (12 + 1024)) (1024 * 1024) ≡ false =
            le→ltb _ _ (omega arith) in
          let e : 12 + 1024 + 1024 * 1024 + i - (12 + 1024 + 1024 * 1024) ≡ i = omega arith in
          let small : ltb (i % 1024) inodes_per_block ≡ true = lt→ltb _ _ (omega arith) in
          let middle : i / 1024 % 1024 ≡ i % 1048576 / 1024 = omega arith in
          let last : i % 1024 ≡ i % 1048576 % 1024 / 1 = omega arith in
          rw (past, past₂, past₃, e, triply_case i h, small)
            (ap
                (λ (x : ℕ). ok (
                  word_of disk
                    (word_of disk (word_of disk inode.triply_indirect_ptr (i / 1048576)) x)
                    (i % 1024)))
                middle
              ∙ ap
                  (λ (x : ℕ). ok (
                    word_of disk
                      (word_of disk (word_of disk inode.triply_indirect_ptr (i / 1048576))
                        (i % 1048576 / 1024))
                      x))
                  last))

  advance-iterator_at :
      (n index : ℕ)
      → index + n < most_blocks
      → advance n (disk, iterator_at disk inode index)
        ≡ ok (disk, iterator_at disk inode (index + n))
  unfolding advance
  advance-iterator_at zero index h =
      ap (λ (x : ℕ). ok (disk, iterator_at disk inode x)) (omega arith)
  advance-iterator_at (suc n) index h =
      ap (λ (x : Result (Disk × BlockIterator)). x >>= advance n)
        (next-iterator_at index (omega (arith, h)))
      ∙ advance-iterator_at n (index + 1) (omega (arith, h))
      ∙ ap (λ (x : ℕ). ok (disk, iterator_at disk inode x)) (omega arith)

  -- An iterator made at an offset in a file gives, after so many calls of `next`, the block that is so
  -- many blocks behind the offset's, as one finds it by going down the inode's pointers from the top.
  -- It does not fail and leaves the device as it is. This is so up to the end of the largest file.
  pub get-advance :
      (offset n : ℕ)
      → offset / block_size + n < most_blocks
      → (it : BlockIterator) × ((block_iterator offset inode disk >>= advance n) ≡ ok (disk, it))
        × (get (disk, it) ≡ ok (block_of disk inode (offset / block_size + n)))
  get-advance offset n h = (
    iterator_at disk inode (offset / block_size + n),
    ap (λ (x : Result (Disk × BlockIterator)). x >>= advance n)
          (block_iterator-iterator_at offset (omega (arith, h)))
        ∙ advance-iterator_at n (offset / block_size) h,
    get-block_of (offset / block_size + n) h,
  )
