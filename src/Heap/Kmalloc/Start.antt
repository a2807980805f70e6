-- ===== src/Heap/Kmalloc/Start.antt =====
-- `init` and `kmalloc` of src/kernel/heap/kcmalloc.cpp together.
use ow_os.Common.{
  ℕ, zero, suc, ◌+◌, ◌*◌, ◌/◌, ◌≤◌, ◌<◌, ◌≡◌, ◌≢◌, inl, inr, refl, ap, ◌∙◌, Bool-cases, true, false,
  [], ◌∷◌, ltb, ◌==◌, ltb→lt, ltb→le, arith, word, mul32, some, ok,
}
use ow_os.Heap.{
  HeapBlock, BitmapHeap, Statistics, Run, block_count, needed_blocks, set_ids, expand, alloc,
  take_stats,
}
use ow_os.Heap.Runs.{HasIds, in_run, set_ids-id_of, set_ids-same}
use ow_os.Heap.Release.{IsPart}
use ow_os.Heap.Alloc.{IsGiven, alloc-IsGiven}
use ow_os.Heap.Kmalloc.{heap_size, init, kmalloc}

-- The blocks that the bitmap takes of the heap.
abbrev pub bitmap_blocks : ℕ
bitmap_blocks = 2048

abbrev fresh : ℕ → HeapBlock
fresh address = record {
  address = address;
  mem_size = 2097132;
  used_blocks = bitmap_blocks;
  block_size = 16;
  last_alloc = 2047;
  id_of = λ i. 0;
}

-- The only part of the heap.
abbrev pub kernel_part : ℕ → HeapBlock
kernel_part address = set_ids 0 bitmap_blocks 1 (fresh address)

abbrev first_stats : Statistics
first_stats = record { size = heap_size; free = 2064364; used = 0; meta = 32788 }

init-kernel_part :
    (address : ℕ) → init address ≡ record { blocks = kernel_part address ∷ []; stats = first_stats }
unfolding init expand
init-kernel_part address = refl

kernel_part-same :
    (address : ℕ)
    → kernel_part address ≡ record (fresh address) { id_of = (kernel_part address).id_of }
kernel_part-same address = set_ids-same 0 bitmap_blocks 1 (fresh address)

counted : (n size unit : ℕ) → 0 < size → size ≤ n * unit → 0 < n
counted zero size unit pos le = omega (arith, pos, le)
counted (suc n) size unit pos le = omega arith

module _ (address : ℕ) where
  size_is : (kernel_part address).mem_size ≡ 2097132
  size_is = ap (λ (b : HeapBlock). b.mem_size) (kernel_part-same address)

  unit_is : (kernel_part address).block_size ≡ 16
  unit_is = ap (λ (b : HeapBlock). b.block_size) (kernel_part-same address)

  used_is : (kernel_part address).used_blocks ≡ bitmap_blocks
  used_is = ap (λ (b : HeapBlock). b.used_blocks) (kernel_part-same address)

  last_is : (kernel_part address).last_alloc ≡ 2047
  last_is = ap (λ (b : HeapBlock). b.last_alloc) (kernel_part-same address)

  address_is : (kernel_part address).address ≡ address
  address_is = ap (λ (b : HeapBlock). b.address) (kernel_part-same address)

  kernel_part-IsPart : address + heap_size < word → IsPart (kernel_part address)
  kernel_part-IsPart fits = record {
    some_size = omega (arith, unit_is);
    fits = omega (arith, address_is, size_is, fits);
  }

  -- All behind the bitmap is free.
  rest_free : (n : ℕ) → HasIds bitmap_blocks n 0 (kernel_part address)
  rest_free n i low high =
      let out : in_run 0 bitmap_blocks i ≡ false = ground (arith, low) in
      set_ids-id_of 0 bitmap_blocks 1 (fresh address) i ∙ rw out refl

  bitmap_used : (i : ℕ) → i < bitmap_blocks → (kernel_part address).id_of i ≢ 0
  bitmap_used i low e =
      let within : in_run 0 bitmap_blocks i ≡ true = ground (arith, low) in
      let one : (kernel_part address).id_of i ≡ 1 =
        set_ids-id_of 0 bitmap_blocks 1 (fresh address) i ∙ rw within refl in
      omega (arith, one, e)

  needed_is :
      (size : ℕ) → size ≤ 2064352 → needed_blocks (kernel_part address) size 0 ≡ (size + 15) / 16
  needed_is size le = rw unit_is (ap (λ (x : ℕ). x / 16) (omega (arith, le)))

  count_is : block_count (kernel_part address) ≡ 131070
  count_is = rw (size_is, unit_is) refl

  kmalloc-ok :
      (size ptr : ℕ) (h h' : BitmapHeap)
      → alloc size 1 h ≡ ok (some (ptr, h'))
      → 0 < ptr
      → kmalloc size 1 h ≡ ok (ptr, h')
  unfolding kmalloc
  kmalloc-ok size ptr h h' e pos =
      let some_ptr : (ptr == 0) ≡ false = ground (arith, pos) in rw (e, some_ptr) refl

  -- The kernel's heap after `init`, at an address where it ends before the last one: `kmalloc` of any size up
  -- to that of the blocks behind the bitmap, without an alignment, gives a run of free blocks that are
  -- enough for it, none of which is the bitmap's.
  pub kmalloc-init :
      (size : ℕ)
      → address + heap_size < word
      → 0 < size
      → size ≤ 2064352
      → (r : Run) × (ptr : ℕ) × (after : HeapBlock) × (kmalloc size 1 (init address)
          ≡ ok (
            ptr,
            record {
              blocks = after ∷ [];
              stats = take_stats (mul32 r.count 16) (init address).stats;
            },
          ))
        × IsGiven size ptr r (kernel_part address) after
        × (bitmap_blocks ≤ r.start)
  kmalloc-init size fits pos le =
      let whole = kernel_part-IsPart fits in
      let (r, ptr, after, e, given) =
        alloc-IsGiven size bitmap_blocks (kernel_part address) [] (init address)
          (ap (λ (h : BitmapHeap). h.blocks) (init-kernel_part address)) whole pos
          (omega (arith, le, unit_is)) (rw (size_is, used_is, unit_is) (omega (arith, le)))
          (omega (arith, last_is)) (rest_free (needed_blocks (kernel_part address) size 0))
          (omega (arith, needed_is size le, count_is, le)) in
      (
        r,
        ptr,
        after,
        kmalloc-ok size ptr (init address) _
            (e
              ∙ ap
                  (λ (n : ℕ). ok (
                    some (
                      ptr,
                      record {
                        blocks = after ∷ [];
                        stats = take_stats (mul32 r.count n) (init address).stats;
                      },
                    )))
                  unit_is)
            (omega (arith, given.pointer)),
        given,
        behind r size ptr after given pos,
      )
    where
      behind :
          (r : Run) (size ptr : ℕ) (after : HeapBlock)
          → IsGiven size ptr r (kernel_part address) after
          → 0 < size
          → bitmap_blocks ≤ r.start
      behind r size ptr after given pos = elim (Bool-cases (ltb r.start bitmap_blocks)) [
        | inr e ↦ ltb→le _ _ e
        | inl e ↦
            let some_count : 0 < r.count =
              counted r.count size (kernel_part address).block_size pos given.enough in
            absurd (
              bitmap_used r.start (ltb→lt _ _ e)
                (given.was_free r.start (omega arith) (omega (arith, some_count))))
      ]
