-- ===== src/Heap.antt =====
-- src/kernel/heap/BitmapHeap.cpp and kcmalloc.cpp: memory is given out in runs of blocks. The bitmap
-- has an id of two bits for each block, 0 for a free one; the blocks of a run have the same id, and
-- the runs beside it have others. A bitmap is a function, and stands in the first of its own blocks.
pub mod Runs
pub mod Search
pub mod Release
pub mod Alloc
pub mod GiveBack
pub mod Kmalloc
use ow_os.Common.{
  ℕ, zero, suc, ◌+◌, ◌-◌, ◌*◌, ◌/◌, ◌%◌, Bool, true, false, not, ◌&&◌, ◌||◌, Option, none, some,
  List, [], ◌∷◌, ltb, leb, ◌==◌, if◌then◌else◌, add32, sub32, mul32, Result, ok, err, assert,
  out_of_fuel, ◌>>=◌, ◌>>◌,
}

-- `sizeof(heap_block_t)`
abbrev pub header_size : ℕ
header_size = 20

-- `heap_block_t` with its address and its bitmap. The pointer to the next is the rest of a list.
pub record HeapBlock : Type 0 where
  pub address : ℕ
  pub mem_size : ℕ
  pub used_blocks : ℕ
  pub block_size : ℕ
  pub last_alloc : ℕ
  pub id_of : ℕ → ℕ

-- `heap_statistics_t`
pub record Statistics : Type 0 where
  pub size : ℕ
  pub free : ℕ
  pub used : ℕ
  pub meta : ℕ

pub record BitmapHeap : Type 0 where
  pub blocks : List HeapBlock
  pub stats : Statistics

-- `block + 1`
abbrev pub bitmap : HeapBlock → ℕ
bitmap b = add32 b.address header_size

abbrev pub block_count : HeapBlock → ℕ
block_count b = b.mem_size / b.block_size

abbrev pub set_id : ℕ → ℕ → HeapBlock → HeapBlock
set_id block id b = record b { id_of = λ i. if i == block then id else b.id_of i }

-- `setID` of `n` blocks from one on.
unfoldable pub set_ids : ℕ → ℕ → ℕ → HeapBlock → HeapBlock
set_ids start zero id b = b
set_ids start (suc n) id b = set_ids (start + 1) n id (set_id start id b)

abbrev pub get_free_id : ℕ → ℕ → ℕ
get_free_id left right =
    if not (left == 1) && not (right == 1)
    then 1
    else if not (left == 2) && not (right == 2)
    then 2
    else 3

abbrev pub can_align : HeapBlock → ℕ → ℕ → Bool
can_align b block align =
    leb align b.block_size
    || ltb align (add32 (add32 (bitmap b) (mul32 block b.block_size) % align) b.block_size)

abbrev pub get_alignment_offset : ℕ → ℕ → ℕ
get_alignment_offset address align = if align == 1 then 0 else sub32 align (address % align)

-- The blocks that the memory and what stands before it need.
abbrev pub needed_blocks : HeapBlock → ℕ → ℕ → ℕ
needed_blocks b size offset = sub32 (add32 (add32 size offset) b.block_size) 1 / b.block_size

-- The loop that counts free blocks from one on, up to `n` of them.
unfoldable pub count_run : ℕ → ℕ → HeapBlock → ℕ
count_run zero at b = 0
count_run (suc n) at b =
    let rest = count_run n (at + 1) b in
    if b.id_of at == 0 && ltb at (block_count b) then suc rest else 0

-- A run that was found: its first block, how many they are, and how far the memory is behind its
-- beginning.
pub record Run : Type 0 where
  pub start : ℕ
  pub count : ℕ
  pub offset : ℕ

-- The loop over the blocks in `alloc`. It ends when it comes to the last allocation.
unfoldable pub find_run : ℕ → ℕ → ℕ → ℕ → HeapBlock → Result (Option Run)
find_run zero start size align b = err out_of_fuel
find_run (suc rounds) start size align b =
    if start == b.last_alloc
    then ok none
    else (let at = if leb (block_count b) start then 0 else start in
        let offset = get_alignment_offset (add32 (bitmap b) (mul32 at b.block_size)) align in
        let needed = needed_blocks b size offset in
        let count = count_run needed at b in
        if not (can_align b at align) || not (b.id_of at == 0)
        then find_run rounds (add32 at 1) size align b
        else if ltb count needed
        then find_run rounds (add32 (sub32 (add32 at count) 1) 1) size align b
        else ok (some (record { start = at; count = count; offset = offset })))

-- The neighbours' ids, and the id of a new run.
abbrev pub new_id : Run → HeapBlock → ℕ
new_id r b =
    get_free_id (if r.start == 0 then 0 else b.id_of (r.start - 1))
      (if leb (block_count b) (r.start + r.count) then 0 else b.id_of (r.start + r.count))

-- The run is taken.
abbrev pub take_run : Run → HeapBlock → HeapBlock
take_run r b = record (set_ids r.start r.count (new_id r b) b) {
  last_alloc = sub32 (add32 r.start r.count) 1;
  used_blocks = add32 b.used_blocks r.count;
}

-- How many rounds the loop over the blocks is given: it comes past each block at most twice.
abbrev pub rounds_of : HeapBlock → ℕ
rounds_of b = 2 * block_count b + 2

abbrev pub take_stats : ℕ → Statistics → Statistics
take_stats bytes s = record s { free = sub32 s.free bytes; used = add32 s.used bytes }

abbrev pub give_stats : ℕ → Statistics → Statistics
give_stats bytes s = record s { free = add32 s.free bytes; used = sub32 s.used bytes }

-- The loop over the parts of the heap: the pointer, the parts and the bytes that were taken.
unfoldable pub alloc_in : ℕ → ℕ → List HeapBlock → Result (Option (ℕ × List HeapBlock × ℕ))
alloc_in size align [] = ok none
alloc_in size align (b ∷ blocks) = do
  found ←
      if ltb (sub32 b.mem_size (mul32 b.used_blocks b.block_size)) size
      then ok none
      else find_run (rounds_of b) (add32 b.last_alloc 1 % block_count b) size align b
  (elim found [
    | none ↦ do
      rest ← alloc_in size align blocks
      ok (elim rest [ none ↦ none | some (ptr, after, bytes) ↦ some (ptr, b ∷ after, bytes) ])
    | some r ↦ ok (
        some (
          add32 (add32 (bitmap b) (mul32 r.start b.block_size)) r.offset,
          take_run r b ∷ blocks,
          mul32 r.count b.block_size,
        ))
  ])

unfoldable pub alloc : ℕ → ℕ → BitmapHeap → Result (Option (ℕ × BitmapHeap))
alloc size align h = do
  found ← alloc_in size align h.blocks
  ok (elim found [
    | none ↦ none
    | some (ptr, blocks, bytes) ↦
        some (ptr, record { blocks = blocks; stats = take_stats bytes h.stats })
  ])

-- The pointer is inside of the part.
abbrev pub is_inside : ℕ → HeapBlock → Bool
is_inside ptr b = leb (bitmap b) ptr && ltb ptr (add32 (add32 b.address header_size) b.mem_size)

-- The loop down to the first block of a run.
unfoldable pub walk_down : ℕ → ℕ → HeapBlock → ℕ
walk_down zero id b = 0
walk_down (suc block) id b =
    let below = walk_down block id b in if b.id_of (suc block) == id then below else suc block

-- The loop that frees the blocks of a run, and how many they are.
unfoldable pub clear_run : ℕ → ℕ → ℕ → HeapBlock → ℕ × HeapBlock
clear_run zero i id b = (0, b)
clear_run (suc rounds) i id b =
    let rest = clear_run rounds (i + 1) id (set_id i 0 b) in
    if b.id_of i == id && ltb i (block_count b) then (suc (rest.0), rest.1) else (0, b)

-- The blocks that are freed, and the part without them.
abbrev pub free_in_block : ℕ → HeapBlock → Result (ℕ × HeapBlock)
free_in_block ptr b =
    let index = sub32 ptr (bitmap b) / b.block_size in
    let id = b.id_of index in
    let low = walk_down index id b in
    let first = if b.id_of low == id then low else low + 1 in
    let cleared = clear_run (block_count b) first id b in
    assert (not (id == 0))
    >> ok (cleared.0, record (cleared.1) { used_blocks = sub32 b.used_blocks (cleared.0) })

unfoldable pub free_in : ℕ → List HeapBlock → Result (List HeapBlock × ℕ)
free_in ptr [] = ok ([], 0)
free_in ptr (b ∷ blocks) =
    if is_inside ptr b
    then (do (size, b) ← free_in_block ptr b; ok (b ∷ blocks, mul32 size b.block_size))
    else (do (after, bytes) ← free_in ptr blocks; ok (b ∷ after, bytes))

unfoldable pub free : ℕ → BitmapHeap → Result BitmapHeap
free ptr h = do
  (blocks, bytes) ← free_in ptr h.blocks
  ok (record { blocks = blocks; stats = give_stats bytes h.stats })

-- The loop that counts the blocks with an id from one on.
unfoldable pub count_id : ℕ → ℕ → ℕ → HeapBlock → ℕ
count_id zero at id b = 0
count_id (suc n) at id b =
    let rest = count_id n (at + 1) id b in
    if b.id_of at == id && ltb at (block_count b) then suc rest else 0

unfoldable pub size_in : ℕ → List HeapBlock → ℕ
size_in ptr [] = 0
size_in ptr (b ∷ blocks) =
    let offset = sub32 ptr (bitmap b) in
    let index = offset / b.block_size in
    let count = count_id (block_count b) index (b.id_of index) b in
    let rest = size_in ptr blocks in
    if is_inside ptr b then sub32 (mul32 count b.block_size) (offset % b.block_size) else rest

unfoldable pub expand : ℕ → ℕ → ℕ → BitmapHeap → BitmapHeap
expand address size block_size h =
    let mem_size = sub32 size header_size in
    let bytes = sub32 (add32 (mem_size / block_size) 4) 1 / 4 in
    let bitmap_blocks = sub32 (add32 bytes block_size) 1 / block_size in
    let metadata = add32 (mul32 bitmap_blocks block_size) header_size in
    let fresh : HeapBlock = record {
      address = address;
      mem_size = mem_size;
      used_blocks = bitmap_blocks;
      block_size = block_size;
      last_alloc = sub32 bitmap_blocks 1;
      id_of = λ i. 0;
    } in
    record {
      blocks = set_ids 0 bitmap_blocks 1 fresh ∷ h.blocks;
      stats = record {
        size = add32 h.stats.size size;
        free = add32 h.stats.free (sub32 size metadata);
        used = h.stats.used;
        meta = add32 h.stats.meta metadata;
      };
    }
