-- ===== src/Ext2/Reading.antt =====
-- `Ext2File::read` of src/kernel/filesystem/Ext2FileSystem.cpp.
use ow_os.Common.{
  ℕ, zero, suc, ◌+◌, ◌-◌, ◌*◌, ◌/◌, ◌%◌, ◌≤◌, ◌<◌, ◌≡◌, inl, inr, refl, sym, ap, ◌∙◌, subst,
  Bool-cases, true, false, ◌&&◌, ltb, leb, ◌==◌, if◌then◌else◌, word, ltb→lt, arith, add32, sub32,
  ok, err, Fault, out_of_bounds,
}
use ow_os.Ext2.{Disk, Inode, BlockIterator, block_size, block_iterator}
use ow_os.Ext2.Pointers.{most_blocks}
use ow_os.Ext2.Iterator.{block_of}
use ow_os.Ext2.Blocks.{iterator_at, block_iterator-iterator_at, next-iterator_at, get-block_of}
use ow_os.Ext2.Files.{
  FileSystem, File, FileType, unknown, regular, directory_file, device, soft_link_file, is_regular,
  is_soft_link, with_metadata, least, copy_block, read_blocks, clipped, read,
}

-- A byte of a file.
abbrev pub file_byte : Disk → Inode → ℕ → ℕ
file_byte disk inode offset = disk (block_of disk inode (offset / block_size)) (offset % block_size)

-- The bytes of a file from an offset on stand in a buffer from a place on, and the others are as before.
abbrev pub IsRead : Disk → Inode → ℕ → ℕ → ℕ → (ℕ → ℕ) → (ℕ → ℕ) → Type 0
IsRead disk inode offset at n before after =
    (j : ℕ)
    → after j
      ≡ (if leb at j && ltb j (at + n) then file_byte disk inode (offset + (j - at)) else before j)

module _ (disk : Disk) (inode : Inode) where
  copied : ℕ → ℕ → ℕ → ℕ → (ℕ → ℕ) → ℕ → ℕ
  copied k offset n at buffer = λ j.
      if leb at j && ltb j (at + n)
      then disk (block_of disk inode k) (offset + (j - at))
      else buffer j

  -- One round of the loop.
  round :
      (rounds bytes done offset k : ℕ) (buffer : ℕ → ℕ)
      → 0 < bytes
      → offset + least block_size bytes ≤ block_size
      → k + 1 < most_blocks
      → done + bytes < word
      → read_blocks (suc rounds) bytes done offset (disk, iterator_at disk inode k) buffer
        ≡ read_blocks rounds
            (bytes - least block_size bytes)
            (done + least block_size bytes)
            0
            (disk, iterator_at disk inode (k + 1))
            (copied k offset (least block_size bytes) done buffer)
  unfolding read_blocks copy_block copied
  round rounds bytes done offset k buffer some_left inside few small =
      let some_bytes : (bytes == 0) ≡ false = ground (arith, some_left) in
      let at = get-block_of disk inode k (omega (arith, few)) in
      let after = next-iterator_at disk inode k few in
      let whole : leb (offset + least block_size bytes) block_size ≡ true =
        ground (arith, inside) in
      let less : sub32 bytes (least block_size bytes) ≡ bytes - least block_size bytes =
        ground (arith, small) in
      let more : add32 done (least block_size bytes) ≡ done + least block_size bytes =
        ground (arith, small) in
      rw (some_bytes, at, whole, after, less, more) refl

  -- A byte of the block that the iterator is at.
  byte_in :
      (k offset i : ℕ)
      → offset + i < block_size
      → file_byte disk inode (k * block_size + offset + i)
        ≡ disk (block_of disk inode k) (offset + i)
  byte_in k offset i h =
      let block : (k * block_size + offset + i) / block_size ≡ k = omega (arith, h) in
      let place : (k * block_size + offset + i) % block_size ≡ offset + i = omega (arith, h) in
      rw (block, place) refl

  -- What one round and those after it have read is one piece.
  pieces :
      (k offset done n bytes : ℕ) (buffer after : ℕ → ℕ)
      → n ≤ bytes
      → offset + n ≤ block_size
      → (n < bytes → offset + n ≡ block_size)
      → IsRead disk inode
          ((k + 1) * block_size + 0)
          (done + n)
          (bytes - n)
          (copied k offset n done buffer)
          after
      → IsRead disk inode (k * block_size + offset) done bytes buffer after
  unfolding copied
  pieces k offset done n bytes buffer after le inside full rest j =
      rest j ∙ elim (Bool-cases (leb (done + n) j && ltb j (done + n + (bytes - n)))) [
        | inl e ↦
            let behind : (leb done j && ltb j (done + bytes)) ≡ true = ground (arith, e, le) in
            let same : (k + 1) * block_size + 0 + (j - (done + n))
                ≡ k * block_size + offset + (j - done) =
              omega
                (arith, full (ground (arith, e)), ltb→lt (done + n) (suc j) (ground (arith, e))) in
            rw (e, behind) (ap (file_byte disk inode) same)
        | inr e ↦ rw e (elim (Bool-cases (leb done j && ltb j (done + n))) [
          | inl here ↦
              let within : (leb done j && ltb j (done + bytes)) ≡ true = ground (arith, here, le) in
              let small : offset + (j - done) < block_size = ground (arith, here, inside) in
              rw (here, within) (sym (byte_in k offset (j - done) small))
          | inr there ↦
              let without : (leb done j && ltb j (done + bytes)) ≡ false =
                ground (arith, e, there, le) in
              rw (there, without) refl
        ])
      ]

  read_blocks-IsRead :
      (rounds bytes done offset k : ℕ) (buffer : ℕ → ℕ)
      → bytes < rounds
      → offset + least block_size bytes ≤ block_size
      → k * block_size + offset + bytes ≤ word
      → done + bytes < word
      → (after : ℕ → ℕ) × (read_blocks rounds bytes done offset
            (disk, iterator_at disk inode k)
            buffer
          ≡ ok (done + bytes, after))
        × IsRead disk inode (k * block_size + offset) done bytes buffer after
  unfolding read_blocks
  read_blocks-IsRead zero bytes done offset k buffer enough inside few small =
      absurd (omega (arith, enough))
  read_blocks-IsRead (suc rounds) bytes done offset k buffer enough inside few small =
      elim (Bool-cases (bytes == 0)) [
        | inl e ↦
            let nothing : bytes ≡ 0 = ground (arith, e) in
            (
              buffer,
              rw e (ap (λ (n : ℕ). ok (n, buffer)) (omega (arith, nothing))),
              (λ j.
                  let without : (leb done j && ltb j (done + bytes)) ≡ false =
                    ground (arith, nothing) in
                  rw without refl),
            )
        | inr e ↦
            let some_left : 0 < bytes = ground (arith, e) in
            let n = least block_size bytes in
            let (after, eq, is_read) =
              read_blocks-IsRead rounds (bytes - n) (done + n) 0 (k + 1)
                (copied k offset n done buffer) (ground (arith, some_left, enough)) (ground arith)
                (ground (arith, inside, few)) (ground (arith, small)) in
            (
              after,
              round rounds bytes done offset k buffer some_left inside (omega (arith, few)) small
                  ∙ eq
                  ∙ ap (λ (n : ℕ). ok (n, after)) (ground (arith, small)),
              pieces k offset done n bytes buffer after (ground arith) inside
                  (λ h. ground (arith, h, inside)) is_read,
            )
      ]

-- How many bytes there are to read.
abbrev pub readable : ℕ → ℕ → ℕ → ℕ
readable size offset bytes = if ltb size (offset + bytes) then size - offset else bytes

clipped-readable :
    (size offset bytes : ℕ)
    → offset ≤ size
    → offset + bytes < word
    → clipped size offset bytes ≡ readable size offset bytes
clipped-readable size offset bytes le small = ground (arith, le, small)

module _ (fs : FileSystem) (disk : Disk) (f : File) (offset bytes n : ℕ) (buffer : ℕ → ℕ)
    (s : Disk × BlockIterator) (kind : is_regular (with_metadata fs disk f).file_type ≡ true)
    (no_link : is_soft_link (with_metadata fs disk f).file_type ≡ false)
    (clip : clipped (with_metadata fs disk f).size offset bytes ≡ n)
    (start : block_iterator offset (with_metadata fs disk f).inode_metadata disk ≡ ok s) where
  read-ok :
      (after : ℕ → ℕ)
      → read_blocks (n + 1) n 0 (offset % block_size) s buffer ≡ ok (n, after)
      → read fs disk f offset bytes buffer ≡ ok (n, after, with_metadata fs disk f)
  unfolding read
  read-ok after loop = rw (kind, no_link, clip, start, loop) refl

  read-err :
      (why : Fault)
      → read_blocks (n + 1) n 0 (offset % block_size) s buffer ≡ err why
      → read fs disk f offset bytes buffer ≡ err why
  unfolding read
  read-err why loop = rw (kind, no_link, clip, start, loop) refl

regular-no_link : (t : FileType) → is_regular t ≡ true → is_soft_link t ≡ false
regular-no_link unknown h = refl
regular-no_link regular h = refl
regular-no_link directory_file h = refl
regular-no_link device h = refl
regular-no_link soft_link_file h = sym h

-- The first round fails when the block ends before the bytes do.
read_blocks_outside :
    (disk : Disk) (inode : Inode) (bytes offset k : ℕ) (buffer : ℕ → ℕ)
    → 0 < bytes
    → k < most_blocks
    → block_size < offset + least block_size bytes
    → read_blocks (bytes + 1) bytes 0 offset (disk, iterator_at disk inode k) buffer
      ≡ err out_of_bounds
unfolding read_blocks copy_block
read_blocks_outside disk inode bytes offset k buffer some_left few outside =
    let rounds : bytes + 1 ≡ suc bytes = omega arith in
    let some_bytes : (bytes == 0) ≡ false = ground (arith, some_left) in
    let past : leb (offset + least block_size bytes) block_size ≡ false = ground (arith, outside) in
    let at = get-block_of disk inode k few in
    ap (λ (r : ℕ). read_blocks r bytes 0 offset (disk, iterator_at disk inode k) buffer) rounds
    ∙ rw (some_bytes, at, past) refl

-- A read of a regular file from an offset in it, that does not go past the end of its first block
-- by the bytes of one block, where the offset and the bytes that are asked for are together below 2
-- ^ 32: it reads the bytes that were asked for or, when there are fewer, all up to the end of the
-- file. They are those of the blocks that the inode's pointers lead to, in their order, and the
-- rest of the buffer is as before.
pub read-IsRead :
    (fs : FileSystem) (disk : Disk) (f : File) (offset bytes : ℕ) (buffer : ℕ → ℕ)
    → is_regular (with_metadata fs disk f).file_type ≡ true
    → offset ≤ (with_metadata fs disk f).size
    → offset + bytes < word
    → offset % block_size + least block_size (readable (with_metadata fs disk f).size offset bytes)
      ≤ block_size
    → (after : ℕ → ℕ) × (read fs disk f offset bytes buffer
        ≡ ok (readable (with_metadata fs disk f).size offset bytes, after, with_metadata fs disk f))
      × IsRead disk
          (with_metadata fs disk f).inode_metadata
          offset
          0
          (readable (with_metadata fs disk f).size offset bytes)
          buffer
          after
read-IsRead fs disk f offset bytes buffer kind le small inside =
    let known = with_metadata fs disk f in
    let n = readable known.size offset bytes in
    let fewer : n ≤ bytes = ground (arith, le) in
    let start =
      block_iterator-iterator_at disk known.inode_metadata offset (omega (arith, small)) in
    let (after, loop, is_read) =
      read_blocks-IsRead disk known.inode_metadata (n + 1) n 0 (offset % block_size)
        (offset / block_size) buffer (omega arith) inside (omega (arith, small, fewer))
        (omega (arith, small, fewer)) in
    (
      after,
      read-ok fs disk f offset bytes n buffer
          (disk, iterator_at disk known.inode_metadata (offset / block_size)) kind
          (regular-no_link known.file_type kind) (clipped-readable known.size offset bytes le small)
          start after (loop ∙ ap (λ (m : ℕ). ok (m, after)) (omega arith)),
      subst (λ (o : ℕ). IsRead disk known.inode_metadata o 0 n buffer after) (omega arith) is_read,
    )

-- A read of a regular file from an offset in it, that goes past the end of its first block by the
-- bytes of one block or all that it gets, where the offset and the bytes that are asked for are
-- together below 2 ^ 32: it copies what is behind the block.
pub read_outside :
    (fs : FileSystem) (disk : Disk) (f : File) (offset bytes : ℕ) (buffer : ℕ → ℕ)
    → is_regular (with_metadata fs disk f).file_type ≡ true
    → offset ≤ (with_metadata fs disk f).size
    → offset + bytes < word
    → block_size
      < offset % block_size
        + least block_size (readable (with_metadata fs disk f).size offset bytes)
    → read fs disk f offset bytes buffer ≡ err out_of_bounds
read_outside fs disk f offset bytes buffer kind le small outside =
    let known = with_metadata fs disk f in
    let n = readable known.size offset bytes in
    let start =
      block_iterator-iterator_at disk known.inode_metadata offset (omega (arith, small)) in
    read-err fs disk f offset bytes n buffer
      (disk, iterator_at disk known.inode_metadata (offset / block_size)) kind
      (regular-no_link known.file_type kind) (clipped-readable known.size offset bytes le small)
      start out_of_bounds
      (read_blocks_outside disk known.inode_metadata n (offset % block_size) (offset / block_size)
        buffer (ground (arith, outside)) (omega (arith, small)) outside)
