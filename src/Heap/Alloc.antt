-- ===== src/Heap/Alloc.antt =====
-- `alloc` of src/kernel/heap/BitmapHeap.cpp for memory without an alignment.
use native.Mathlib.Nat.{
  le-div_iff_mul-le, lt-mul-div-succ, mod-eq_of_lt, div-le_self, mul_comm, mul-add,
}
use ow_os.Common.{
  ℕ, ◌+◌, ◌-◌, ◌*◌, ◌/◌, ◌%◌, ◌≤◌, ◌<◌, ◌≡◌, ◌≢◌, refl, sym, ap, ◌∙◌, subst, true, false, List, ◌∷◌,
  ltb, leb, ◌==◌, if◌then◌else◌, le→ltb, arith, add32, sub32, mul32, word, ok, some,
}
use ow_os.Heap.{
  HeapBlock, BitmapHeap, Run, block_count, bitmap, needed_blocks, find_run, rounds_of, take_run,
  new_id, get_free_id, alloc, alloc_in, take_stats, header_size,
}
use ow_os.Heap.Runs.{HasIds, in_run, set_ids-id_of, set_ids-same}
use ow_os.Heap.Search.{IsFit, find_run-IsFit}
use ow_os.Heap.Release.{IsPart, IsRun}

get_free_id-differs :
    (left right : ℕ)
    → (get_free_id left right ≢ 0)
      × (left ≢ get_free_id left right)
      × (right ≢ get_free_id left right)
get_free_id-differs left right =
    ((λ e. ground (arith, e)), (λ e. ground (arith, e)), (λ e. ground (arith, e)))

-- The bits of a part after a run is taken.
take_run-id_of :
    (r : Run) (b : HeapBlock) (i : ℕ)
    → (take_run r b).id_of i ≡ (if in_run r.start r.count i then new_id r b else b.id_of i)
take_run-id_of r b i = set_ids-id_of r.start r.count (new_id r b) b i

take_run-same :
    (r : Run) (b : HeapBlock)
    → take_run r b ≡ record b {
      id_of = (take_run r b).id_of;
      last_alloc = sub32 (add32 r.start r.count) 1;
      used_blocks = add32 b.used_blocks r.count;
    }
take_run-same r b =
    ap
      (λ (x : HeapBlock). record x {
        last_alloc = sub32 (add32 r.start r.count) 1;
        used_blocks = add32 b.used_blocks r.count;
      })
      (set_ids-same r.start r.count (new_id r b) b)

take_run-outside :
    (r : Run) (b : HeapBlock) (i : ℕ)
    → in_run r.start r.count i ≡ false
    → (take_run r b).id_of i ≡ b.id_of i
take_run-outside r b i out = take_run-id_of r b i ∙ rw out refl

-- A run that is taken has an id, and the blocks beside it have others.
take_run-IsRun :
    (size : ℕ) (r : Run) (b : HeapBlock)
    → IsFit size r b
    → IsRun r.start r.count (new_id r b) (take_run r b)
take_run-IsRun size r b fit = record {
  ids = (λ i above below. take_run-id_of r b i ∙ inside_run i above below);
  used = differs.0;
  inside =
      subst (λ (x : HeapBlock). r.start + r.count ≤ block_count x) (sym (take_run-same r b)) fit.2;
  before = (λ pos e.
      differs.1 (left_is pos ∙ sym (take_run-outside r b (r.start - 1) (ground arith)) ∙ e));
  after = (λ room e.
      differs.2
        (right_is room ∙ sym (take_run-outside r b (r.start + r.count) (ground arith)) ∙ e));
}
  where
    left : ℕ
    left = if r.start == 0 then 0 else b.id_of (r.start - 1)

    right : ℕ
    right = if leb (block_count b) (r.start + r.count) then 0 else b.id_of (r.start + r.count)

    differs : (new_id r b ≢ 0) × (left ≢ new_id r b) × (right ≢ new_id r b)
    differs = get_free_id-differs left right

    inside_run :
        (i : ℕ)
        → r.start ≤ i
        → i < r.start + r.count
        → (if in_run r.start r.count i then new_id r b else b.id_of i) ≡ new_id r b
    inside_run i above below =
        let test : in_run r.start r.count i ≡ true = ground (arith, above, below) in rw test refl

    left_is : 0 < r.start → left ≡ b.id_of (r.start - 1)
    left_is pos = let test : (r.start == 0) ≡ false = ground (arith, pos) in rw test refl

    right_is : r.start + r.count < block_count (take_run r b) → right ≡ b.id_of (r.start + r.count)
    right_is room =
        let same : block_count (take_run r b) ≡ block_count b =
          ap (λ (x : HeapBlock). block_count x) (take_run-same r b) in
        let test : leb (block_count b) (r.start + r.count) ≡ false = ground (arith, room, same) in
        rw test refl

alloc-ok :
    (size : ℕ) (r : Run) (b : HeapBlock) (rest : List HeapBlock) (h : BitmapHeap)
    → h.blocks ≡ b ∷ rest
    → ltb (sub32 b.mem_size (mul32 b.used_blocks b.block_size)) size ≡ false
    → find_run (rounds_of b) (add32 b.last_alloc 1 % block_count b) size 1 b ≡ ok (some r)
    → alloc size 1 h
      ≡ ok (
          some (
            add32 (add32 (bitmap b) (mul32 r.start b.block_size)) r.offset,
            record {
              blocks = take_run r b ∷ rest;
              stats = take_stats (mul32 r.count b.block_size) h.stats;
            },
          ))
unfolding alloc alloc_in
alloc-ok size r b rest h e enough found = rw (e, enough, found) refl

-- The blocks are enough for the memory.
enough_blocks :
    (size unit : ℕ)
    → 0 < unit
    → 0 < size
    → size + unit < word
    → (0 < sub32 (add32 (add32 size 0) unit) 1 / unit)
      × (size ≤ sub32 (add32 (add32 size 0) unit) 1 / unit * unit)
enough_blocks size unit pos some_size small =
    let whole : sub32 (add32 (add32 size 0) unit) 1 ≡ size + unit - 1 = omega arith in
    let above = lt-mul-div-succ (size + unit - 1) pos in
    let count : ℕ = (size + unit - 1) / unit in
    let swap : unit * (count + 1) ≡ count * unit + unit =
      omega (arith, mul-add unit count 1, mul_comm unit count) in
    rw whole ((le-div_iff_mul-le pos).1 (omega arith), omega (arith, above, swap))

-- The memory of a part of the heap that a pointer leads to, and what is known of it.
pub record IsGiven (size ptr : ℕ) (r : Run) (b b' : HeapBlock) : Type 0 where
  pub pointer : ptr ≡ b.address + header_size + r.start * b.block_size
  pub was_free : HasIds r.start r.count 0 b
  pub enough : size ≤ r.count * b.block_size
  pub run : IsRun r.start r.count (new_id r b) b'
  pub ids : (i : ℕ) → b'.id_of i ≡ (if in_run r.start r.count i then new_id r b else b.id_of i)
  pub same : b' ≡ record b {
    id_of = b'.id_of;
    last_alloc = sub32 (add32 r.start r.count) 1;
    used_blocks = add32 b.used_blocks r.count;
  }

-- A request of some size, without an alignment, to a heap whose first part has as much left by its
-- count, and has enough free blocks in a row behind its last allocation, where the size and that of
-- a block are together below 2 ^ 32: the call returns the address of a run of blocks that were free
-- and are enough for the size. The run has an id now that the blocks beside it do not have, and no
-- other block changes.
pub alloc-IsGiven :
    (size fit : ℕ) (b : HeapBlock) (rest : List HeapBlock) (h : BitmapHeap)
    → h.blocks ≡ b ∷ rest
    → IsPart b
    → 0 < size
    → size + b.block_size < word
    → size ≤ sub32 b.mem_size (mul32 b.used_blocks b.block_size)
    → b.last_alloc < fit
    → HasIds fit (needed_blocks b size 0) 0 b
    → fit + needed_blocks b size 0 ≤ block_count b
    → (r : Run) × (ptr : ℕ) × (b' : HeapBlock) × (alloc size 1 h
        ≡ ok (
            some (
              ptr,
              record {
                blocks = b' ∷ rest;
                stats = take_stats (mul32 r.count b.block_size) h.stats;
              },
            )))
      × IsGiven size ptr r b b'
alloc-IsGiven size fit b rest h e part pos small left behind free inside =
    let (some_blocks, enough) = enough_blocks size b.block_size part.some_size pos small in
    let (r, found, fits) =
      find_run-IsFit size b (rounds_of b) (b.last_alloc + 1) fit part.some_size some_blocks few free
        inside (omega arith) (omega (arith, behind)) (omega (arith, some_blocks)) in
    let next : add32 b.last_alloc 1 ≡ b.last_alloc + 1 = omega (arith, few, behind, inside) in
    let from : add32 b.last_alloc 1 % block_count b ≡ b.last_alloc + 1 =
      ap (λ (n : ℕ). n % block_count b) next ∙ mod-eq_of_lt (omega (arith, some_blocks)) in
    (
      r,
      b.address + header_size + r.start * b.block_size,
      take_run r b,
      alloc-ok size r b rest h e (le→ltb _ _ left)
            (ap (λ (x : ℕ). find_run (rounds_of b) x size 1 b) from ∙ found)
          ∙ ap
              (λ (x : ℕ). ok (
                some (
                  x,
                  record {
                    blocks = take_run r b ∷ rest;
                    stats = take_stats (mul32 r.count b.block_size) h.stats;
                  },
                )))
              (address r fits),
      record {
        pointer = refl;
        was_free = fits.3;
        enough = subst (λ (n : ℕ). size ≤ n * b.block_size) (sym fits.0) enough;
        run = take_run-IsRun size r b fits;
        ids = take_run-id_of r b;
        same = take_run-same r b;
      },
    )
  where
    few : block_count b < word
    few = omega (arith, part.fits, div-le_self b.mem_size b.block_size)

    address :
        (r : Run)
        → IsFit size r b
        → add32 (add32 (bitmap b) (mul32 r.start b.block_size)) r.offset
          ≡ b.address + header_size + r.start * b.block_size
    address r fits =
        let reach : r.start * b.block_size ≤ b.mem_size =
          (le-div_iff_mul-le part.some_size).0 (omega (arith, fits.2)) in
        omega (arith, fits.1, reach, part.fits)
