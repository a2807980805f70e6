-- ===== src/Heap/Release.antt =====
-- `free` of src/kernel/heap/BitmapHeap.cpp.
use native.Mathlib.Nat.{le-div_iff_mul-le, div-lt_iff_lt-mul}
use ow_os.Common.{
  ℕ, ◌+◌, ◌-◌, ◌*◌, ◌/◌, ◌≤◌, ◌<◌, ◌≡◌, ◌≢◌, inl, inr, refl, ap, Bool-cases, true, false, List, ◌∷◌,
  ltb, ◌==◌, if◌then◌else◌, ltb→lt, ltb→le, arith, sub32, mul32, word, ok,
}
use ow_os.Heap.{
  HeapBlock, BitmapHeap, block_count, bitmap, free_in_block, walk_down, clear_run, free, free_in,
  is_inside, give_stats, header_size,
}
use ow_os.Heap.Runs.{HasIds, in_run, walk_down-start, clear_run_lem}

-- A run of blocks with an id that the blocks beside it do not have.
pub record IsRun (start n id : ℕ) (b : HeapBlock) : Type 0 where
  pub ids : HasIds start n id b
  pub used : id ≢ 0
  pub inside : start + n ≤ block_count b
  pub before : 0 < start → b.id_of (start - 1) ≢ id
  pub after : start + n < block_count b → b.id_of (start + n) ≢ id

-- The part of the heap stands in memory that ends before the last address.
pub record IsPart (b : HeapBlock) : Type 0 where
  pub some_size : 0 < b.block_size
  pub fits : b.address + header_size + b.mem_size < word

-- The blocks of a run are free, and nothing else is changed but their number.
abbrev pub IsReleased : ℕ → ℕ → HeapBlock → HeapBlock → Type 0
IsReleased start n b b' =
    (b' ≡ record b { used_blocks = sub32 b.used_blocks n; id_of = b'.id_of })
    × ((i : ℕ) → b'.id_of i ≡ (if in_run start n i then 0 else b.id_of i))

differs : {a c : ℕ} → a ≢ c → (a == c) ≡ false
differs h = ground (arith, h)

first_of :
    (index start n id : ℕ) (b : HeapBlock)
    → IsRun start n id b
    → start ≤ index
    → index < start + n
    → (if b.id_of (walk_down index id b) == id
        then walk_down index id b
        else walk_down index id b + 1)
      ≡ start
first_of index start n id b run low high =
    let e : walk_down index id b ≡ start - 1 =
      walk_down-start index start id b low (λ i above below. run.ids i above (omega arith))
        run.before in
    rw e (elim (Bool-cases (ltb 0 start)) [
      | inl pos ↦
          let other : (b.id_of (start - 1) == id) ≡ false =
            differs (run.before (ltb→lt 0 start pos)) in
          rw other (omega (arith, ltb→lt 0 start pos))
      | inr none_before ↦
          let zero_start : start - 1 ≡ start = omega (arith, ltb→le 0 start none_before) in
          let same : b.id_of (start - 1) ≡ id =
            run.ids (start - 1) (omega (arith, zero_start)) (omega (arith, zero_start)) in
          let test : (b.id_of (start - 1) == id) ≡ true = ground (arith, same) in rw test zero_start
    ])

free_in_block-IsReleased :
    (ptr start n id : ℕ) (b : HeapBlock)
    → IsRun start n id b
    → start ≤ sub32 ptr (bitmap b) / b.block_size
    → sub32 ptr (bitmap b) / b.block_size < start + n
    → (b' : HeapBlock) × (free_in_block ptr b ≡ ok (n, b')) × IsReleased start n b b'
free_in_block-IsReleased ptr start n id b run low high =
    let index = sub32 ptr (bitmap b) / b.block_size in
    let same : b.id_of index ≡ id = run.ids index low high in
    let first = first_of index start n id b run low high in
    let (size, only, ids) =
      clear_run_lem (block_count b) n start id b run.ids run.inside run.after
        (omega (arith, run.inside)) in
    let not_zero : (id == 0) ≡ false = differs run.used in
    let b' : HeapBlock = record (clear_run (block_count b) start id b).1 {
      used_blocks = sub32 b.used_blocks n;
    } in
    (
      b',
      rw (same, first, not_zero, size) refl,
      (ap (λ (x : HeapBlock). record x { used_blocks = sub32 b.used_blocks n }) only, ids),
    )

-- The block that an address of a run is in.
index_in :
    (p start n size : ℕ)
    → 0 < size
    → start * size ≤ p
    → p < (start + n) * size
    → (start ≤ p / size) × (p / size < start + n)
index_in p start n size pos low high =
    ((le-div_iff_mul-le pos).1 low, (div-lt_iff_lt-mul pos).1 high)

free-ok :
    (ptr n bytes : ℕ) (b b' : HeapBlock) (rest : List HeapBlock) (h : BitmapHeap)
    → h.blocks ≡ b ∷ rest
    → is_inside ptr b ≡ true
    → free_in_block ptr b ≡ ok (n, b')
    → mul32 n b'.block_size ≡ bytes
    → free ptr h ≡ ok (record { blocks = b' ∷ rest; stats = give_stats bytes h.stats })
unfolding free free_in
free-ok ptr n bytes b b' rest h e inside eq same = rw (e, inside, eq, same) refl

-- A pointer anywhere in the memory of a run of blocks of the first part of the heap, whose id the
-- blocks beside the run do not have: `free` frees the blocks of this run and no others, and counts
-- them in the part and in the statistics.
pub free-IsReleased :
    (ptr start n id : ℕ) (b : HeapBlock) (rest : List HeapBlock) (h : BitmapHeap)
    → h.blocks ≡ b ∷ rest
    → IsPart b
    → IsRun start n id b
    → b.address + header_size + start * b.block_size ≤ ptr
    → ptr < b.address + header_size + (start + n) * b.block_size
    → (b' : HeapBlock) × (free ptr h
        ≡ ok (record { blocks = b' ∷ rest; stats = give_stats (mul32 n b.block_size) h.stats }))
      × IsReleased start n b b'
free-IsReleased ptr start n id b rest h e part run low high =
    let (above, below) =
      index_in (ptr - (b.address + header_size)) start n b.block_size part.some_size
        (omega (arith, low)) (omega (arith, low, high)) in
    let (b', eq, released) =
      free_in_block-IsReleased ptr start n id b run (omega (arith, index, above))
        (omega (arith, index, below)) in
    (
      b',
      free-ok ptr n (mul32 n b.block_size) b b' rest h e inside eq
          (ap (λ (x : HeapBlock). mul32 n x.block_size) released.0),
      released,
    )
  where
    span : (start + n) * b.block_size ≤ b.mem_size
    span = (le-div_iff_mul-le part.some_size).0 run.inside

    index : sub32 ptr (bitmap b) / b.block_size ≡ (ptr - (b.address + header_size)) / b.block_size
    index = ap (λ (x : ℕ). x / b.block_size) (omega (arith, part.fits, span))

    inside : is_inside ptr b ≡ true
    inside = ground (arith, part.fits, span, low, high)
