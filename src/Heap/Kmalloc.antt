-- ===== src/Heap/Kmalloc.antt =====
-- src/kernel/heap/kcmalloc.cpp: the heap of the kernel, from its beginning on.
pub mod Start
use ow_os.Common.{
  ℕ, ◌*◌, List, [], none, some, ◌==◌, if◌then◌else◌, Result, ok, err, assert_failed, ◌>>=◌,
}
use ow_os.Heap.{BitmapHeap, Statistics, alloc, free, expand}

-- `HEAP_SIZE`
abbrev pub heap_size : ℕ
heap_size = 2 * 1024 * 1024

-- `heap` before `init`.
abbrev pub no_heap : BitmapHeap
no_heap = record { blocks = []; stats = record { size = 0; free = 0; used = 0; meta = 0 } }

-- The first call of `init`, for the address of `kcmalloc_heap`.
unfoldable pub init : ℕ → BitmapHeap
init address = expand address heap_size 16 no_heap

unfoldable pub kmalloc : ℕ → ℕ → BitmapHeap → Result (ℕ × BitmapHeap)
kmalloc size align h = do
  found ← alloc size align h
  elim found [
    | none ↦ err assert_failed
    | some (ptr, after) ↦ if ptr == 0 then err assert_failed else ok (ptr, after)
  ]

unfoldable pub kfree : ℕ → BitmapHeap → Result BitmapHeap
kfree ptr h = free ptr h
