-- ===== src/Tests/Heap.antt =====
-- Runs of src/kernel/heap/BitmapHeap.cpp on a heap of one part with four blocks.
use ow_os.Common.{◌≤◌, ℕ, ◌≡◌, refl, if◌then◌else◌, [], ◌∷◌, ◌==◌, some, arith, ok, mul32}
use ow_os.Heap.{HeapBlock, BitmapHeap, Run, alloc, free, take_run, take_stats, give_stats, set_ids}
use ow_os.Heap.Kmalloc.{init, kmalloc}
use ow_os.Heap.Kmalloc.Start.{kmalloc-init, bitmap_blocks, kernel_part}
use ow_os.Heap.Release.{IsPart, IsRun, IsReleased, free-IsReleased}
use ow_os.Heap.Alloc.{IsGiven, alloc-IsGiven}
use ow_os.Heap.GiveBack.{free-alloc}

-- Four blocks of 16 bytes. The first holds the bitmap.
abbrev part : HeapBlock
part = record {
  address = 0x1000;
  mem_size = 64;
  used_blocks = 1;
  block_size = 16;
  last_alloc = 0;
  id_of = λ i. if i == 0 then 1 else 0;
}

abbrev heap : BitmapHeap
heap = record { blocks = part ∷ []; stats = record { size = 84; free = 48; used = 0; meta = 36 } }

part-IsPart : IsPart part
part-IsPart = record { some_size = omega arith; fits = omega arith }

alloc-IsGiven_example :
    (r : Run) × (ptr : ℕ) × (b' : HeapBlock) × (alloc 20 1 heap
      ≡ ok (
          some
            (ptr, record { blocks = b' ∷ []; stats = take_stats (mul32 r.count 16) heap.stats })))
    × IsGiven 20 ptr r part b'
alloc-IsGiven_example =
    alloc-IsGiven 20 1 part [] heap refl part-IsPart (omega arith) (omega arith) (omega arith)
      (omega arith) (λ i low high. ground (arith, low)) (omega arith)

-- The second and the third block.
abbrev run : Run
run = record { start = 1; count = 2; offset = 0 }

-- The part after the call.
abbrev taken : HeapBlock
taken = take_run run part

taken-ids : (i : ℕ) → taken.id_of i ≡ (if i == 2 then 2 else if i == 1 then 2 else part.id_of i)
unfolding set_ids
taken-ids i = refl

taken-IsRun : IsRun 1 2 2 taken
unfolding set_ids
taken-IsRun = record {
  ids = (λ i low high. ground (arith, low, high));
  used = (λ e. omega (arith, e));
  inside = omega arith;
  before = (λ pos e. omega (arith, e));
  after = (λ room e. omega (arith, e));
}

abbrev used_heap : BitmapHeap
used_heap = record { blocks = taken ∷ []; stats = take_stats 32 heap.stats }

free-IsReleased_example :
    (b' : HeapBlock) × (free 0x1024 used_heap
      ≡ ok (record { blocks = b' ∷ []; stats = give_stats 32 (take_stats 32 heap.stats) }))
    × IsReleased 1 2 taken b'
unfolding set_ids
free-IsReleased_example =
    free-IsReleased 0x1024 1 2 2 taken [] used_heap refl
      (record { some_size = omega arith; fits = omega arith }) taken-IsRun (omega arith)
      (omega arith)

free-alloc_example :
    (ptr : ℕ) × (after : BitmapHeap) × (b' : HeapBlock) × (alloc 20 1 heap ≡ ok (some (ptr, after)))
    × (free ptr after ≡ ok (record heap { blocks = b' ∷ [] }))
    × (b' ≡ record part { id_of = b'.id_of; last_alloc = b'.last_alloc })
    × ((i : ℕ) → b'.id_of i ≡ part.id_of i)
free-alloc_example =
    free-alloc 20 1 part [] heap refl part-IsPart (omega arith) (omega arith) (omega arith)
      (omega arith) (λ i low high. ground (arith, low)) (omega arith) (omega arith) (omega arith)
      (omega arith)

kmalloc-init_example :
    (r : Run) × (ptr : ℕ) × (after : HeapBlock) × (kmalloc 100 1 (init 0xC0400000)
      ≡ ok (
        ptr,
        record {
          blocks = after ∷ [];
          stats = take_stats (mul32 r.count 16) (init 0xC0400000).stats;
        },
      ))
    × IsGiven 100 ptr r (kernel_part 0xC0400000) after
    × (bitmap_blocks ≤ r.start)
kmalloc-init_example = kmalloc-init 0xC0400000 100 (omega arith) (omega arith) (omega arith)
