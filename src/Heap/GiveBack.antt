-- ===== src/Heap/GiveBack.antt =====
-- `free` of src/kernel/heap/BitmapHeap.cpp for the memory that `alloc` has just given.
use native.Mathlib.Nat.{div-le_self, add-mul, mul-le-mul_right}
use ow_os.Common.{
  ℕ, ◌+◌, ◌*◌, ◌≤◌, ◌<◌, ◌≡◌, inl, inr, refl, sym, ap, ◌∙◌, subst, Bool-cases, List, ◌∷◌,
  if◌then◌else◌, arith, add32, sub32, mul32, word, ok, some,
}
use ow_os.Heap.{
  HeapBlock, BitmapHeap, Statistics, Run, block_count, needed_blocks, new_id, alloc, free,
  take_stats, give_stats,
}
use ow_os.Heap.Runs.{HasIds, in_run}
use ow_os.Heap.Release.{IsPart, free-IsReleased}
use ow_os.Heap.Alloc.{IsGiven, alloc-IsGiven}

give-take :
    (n : ℕ) (s : Statistics)
    → s.free < word
    → s.used < word
    → n < word
    → give_stats n (take_stats n s) ≡ s
give-take n s f u small =
    let free_same : add32 (sub32 s.free n) n ≡ s.free = omega arith in
    let used_same : sub32 (add32 s.used n) n ≡ s.used = omega arith in
    ap (λ (x : ℕ). record s { free = x; used = sub32 (add32 s.used n) n }) free_same
    ∙ ap (λ (x : ℕ). record s { used = x }) used_same

-- What is freed has the ids as before it was given.
given_back :
    (start n id old : ℕ) (i : ℕ)
    → (start ≤ i → i < start + n → old ≡ 0)
    → (if in_run start n i then 0 else if in_run start n i then id else old) ≡ old
given_back start n id old i free = elim (Bool-cases (in_run start n i)) [
  | inl e ↦ rw e (sym (free (ground arith) (ground arith)))
  | inr e ↦ rw e refl
]

free_given :
    (size ptr : ℕ) (r : Run) (b b' : HeapBlock) (rest : List HeapBlock) (h : BitmapHeap)
    → h.blocks ≡ b ∷ rest
    → IsPart b
    → IsGiven size ptr r b b'
    → 0 < r.count
    → b.used_blocks < word
    → h.stats.free < word
    → h.stats.used < word
    → (b'' : HeapBlock) × (free ptr
          (record { blocks = b' ∷ rest; stats = take_stats (mul32 r.count b.block_size) h.stats })
        ≡ ok (record h { blocks = b'' ∷ rest }))
      × (b'' ≡ record b { id_of = b''.id_of; last_alloc = sub32 (add32 r.start r.count) 1 })
      × ((i : ℕ) → b''.id_of i ≡ b.id_of i)
free_given size ptr r b b' rest h e part given some_blocks used f u =
    let part' : IsPart b' =
      subst IsPart (sym given.same) (record { some_size = part.some_size; fits = part.fits }) in
    let (b'', eq, released) =
      free-IsReleased ptr r.start r.count (new_id r b) b' rest taken refl part' given.run
        (omega (arith, given.pointer, start_same, at_same))
        (omega (arith, given.pointer, end_same, at_same, more, spread)) in
    (
      b'',
      eq ∙ ap (λ (s : Statistics). ok (record { blocks = b'' ∷ rest; stats = s })) stats_same,
      released.0
          ∙ ap
              (λ (x : HeapBlock). record x {
                used_blocks = sub32 x.used_blocks r.count;
                id_of = b''.id_of;
              })
              given.same
          ∙ ap
              (λ (n : ℕ). record b {
                id_of = b''.id_of;
                last_alloc = sub32 (add32 r.start r.count) 1;
                used_blocks = n;
              })
              (omega (arith, used, small)),
      (λ i.
          released.1 i
          ∙ ap (λ (x : ℕ). if in_run r.start r.count i then 0 else x) (given.ids i)
          ∙ given_back r.start r.count (new_id r b) (b.id_of i) i (given.was_free i)),
    )
  where
    taken : BitmapHeap
    taken = record { blocks = b' ∷ rest; stats = take_stats (mul32 r.count b.block_size) h.stats }

    unit_same : b'.block_size ≡ b.block_size
    unit_same = ap (λ (x : HeapBlock). x.block_size) given.same

    at_same : b'.address ≡ b.address
    at_same = ap (λ (x : HeapBlock). x.address) given.same

    start_same : r.start * b'.block_size ≡ r.start * b.block_size
    start_same = ap (λ (x : ℕ). r.start * x) unit_same

    end_same : (r.start + r.count) * b'.block_size ≡ (r.start + r.count) * b.block_size
    end_same = ap (λ (x : ℕ). (r.start + r.count) * x) unit_same

    spread : (r.start + r.count) * b.block_size ≡ r.start * b.block_size + r.count * b.block_size
    spread = add-mul r.start r.count b.block_size

    more : 1 * b.block_size ≤ r.count * b.block_size
    more = mul-le-mul_right {m = 1} {n = r.count} b.block_size some_blocks

    small : r.count < word
    small =
        let inside : r.start + r.count ≤ block_count b =
          subst (λ (x : HeapBlock). r.start + r.count ≤ block_count x) given.same
            given.run.inside in
        omega (arith, inside, part.fits, div-le_self b.mem_size b.block_size)

    stats_same :
        give_stats (mul32 r.count b'.block_size) (take_stats (mul32 r.count b.block_size) h.stats)
        ≡ h.stats
    stats_same =
        ap
          (λ (x : ℕ).
            give_stats (mul32 r.count x) (take_stats (mul32 r.count b.block_size) h.stats))
          unit_same
        ∙ give-take (mul32 r.count b.block_size) h.stats f u (omega arith)

-- A request of some size, without an alignment, to a heap whose first part has as much left by its
-- count, and has enough free blocks in a row behind its last allocation, with the size and that of
-- a block together below 2 ^ 32 and the counts of the part and of the statistics below it too: the
-- call of `alloc` returns an address and a heap, and `free` of that address in that heap succeeds.
-- The ids of all blocks, the number of used blocks, the other parts and the statistics are then as
-- before the call of `alloc`, and of the first part only the place of the last allocation may be
-- another.
pub free-alloc :
    (size fit : ℕ) (b : HeapBlock) (rest : List HeapBlock) (h : BitmapHeap)
    → h.blocks ≡ b ∷ rest
    → IsPart b
    → 0 < size
    → size + b.block_size < word
    → size ≤ sub32 b.mem_size (mul32 b.used_blocks b.block_size)
    → b.last_alloc < fit
    → HasIds fit (needed_blocks b size 0) 0 b
    → fit + needed_blocks b size 0 ≤ block_count b
    → b.used_blocks < word
    → h.stats.free < word
    → h.stats.used < word
    → (ptr : ℕ) × (h' : BitmapHeap) × (b'' : HeapBlock) × (alloc size 1 h ≡ ok (some (ptr, h')))
      × (free ptr h' ≡ ok (record h { blocks = b'' ∷ rest }))
      × (b'' ≡ record b { id_of = b''.id_of; last_alloc = b''.last_alloc })
      × ((i : ℕ) → b''.id_of i ≡ b.id_of i)
free-alloc size fit b rest h e part pos small left behind free inside used f u =
    let (r, ptr, b', eq, given) =
      alloc-IsGiven size fit b rest h e part pos small left behind free inside in
    let some_blocks : 0 < r.count = ground (arith, given.enough, pos) in
    let (b'', back, same, ids) =
      free_given size ptr r b b' rest h e part given some_blocks used f u in
    (
      ptr,
      record { blocks = b' ∷ rest; stats = take_stats (mul32 r.count b.block_size) h.stats },
      b'',
      eq,
      back,
      same
          ∙ ap (λ (n : ℕ). record b { id_of = b''.id_of; last_alloc = n })
              (sym (ap (λ (x : HeapBlock). x.last_alloc) same)),
      ids,
    )
