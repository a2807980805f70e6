-- ===== src/Heap/Search.antt =====
-- The loop of `alloc` in src/kernel/heap/BitmapHeap.cpp, for memory without an alignment.
use ow_os.Common.{
  ℕ, zero, suc, ◌+◌, ◌-◌, ◌≤◌, ◌<◌, ◌≡◌, inl, inr, refl, ◌∙◌, Bool-cases, true, false, ltb, leb,
  ◌==◌, ltb→lt, lt→ltb, ltb→le, le→ltb, arith, add32, sub32, word, ok, some,
}
use ow_os.Heap.{HeapBlock, Run, block_count, needed_blocks, count_run, find_run}
use ow_os.Heap.Runs.{HasIds, count_run-le, count_run-HasIds, count_run-inside, count_run-stop}

-- A run that is free and long enough.
abbrev pub IsFit : ℕ → Run → HeapBlock → Type 0
IsFit size r b =
    (r.count ≡ needed_blocks b size 0)
    × (r.offset ≡ 0)
    × (r.start + r.count ≤ block_count b)
    × HasIds r.start r.count 0 b

module _ (size : ℕ) (b : HeapBlock) where
  abbrev needed : ℕ
  needed = needed_blocks b size 0

  -- A count that is too small ends before a place with enough free blocks.
  before_fit :
      (at fit : ℕ)
      → at ≤ fit
      → HasIds fit needed 0 b
      → fit + needed ≤ block_count b
      → count_run needed at b < needed
      → at + count_run needed at b < fit
  before_fit at fit le free inside small =
      elim (Bool-cases (ltb (at + count_run needed at b) fit)) [
        | inl e ↦ ltb→lt _ _ e
        | inr e ↦
            let past = ltb→le _ _ e in
            absurd (
              count_run-stop needed at b small (omega (arith, past))
                (free (at + count_run needed at b) past (omega (arith))))
      ]

  -- A block that is not free is before it too.
  used_before :
      (at fit : ℕ)
      → at ≤ fit
      → 0 < needed
      → HasIds fit needed 0 b
      → (b.id_of at == 0) ≡ false
      → at < fit
  used_before at fit le pos free used = elim (Bool-cases (ltb at fit)) [
    | inl e ↦ ltb→lt at fit e
    | inr e ↦
        let here : at ≡ fit = omega (arith, ltb→le at fit e) in
        let z : b.id_of at ≡ 0 = free at (omega (arith, here)) (omega (arith, here)) in
        absurd (ground (arith, z, used))
  ]

  -- The tests of a round that does not end the loop and does not turn to the start.
  goes_on :
      (at : ℕ)
      → at < block_count b
      → b.last_alloc < at
      → 0 < b.block_size
      → ((at == b.last_alloc) ≡ false)
        × (leb (block_count b) at ≡ false)
        × (leb 1 b.block_size ≡ true)
  goes_on at inside past bs = (ground arith, ground arith, ground arith)

  step_used :
      (rounds at : ℕ)
      → at < block_count b
      → b.last_alloc < at
      → 0 < b.block_size
      → block_count b < word
      → (b.id_of at == 0) ≡ false
      → find_run (suc rounds) at size 1 b ≡ find_run rounds (at + 1) size 1 b
  unfolding find_run
  step_used rounds at inside past bs small used =
      let tests = goes_on at inside past bs in
      let next : add32 at 1 ≡ at + 1 = omega arith in
      rw (tests.0, tests.1, tests.2, used, next) refl

  step_small :
      (rounds at : ℕ)
      → at < block_count b
      → b.last_alloc < at
      → 0 < b.block_size
      → block_count b < word
      → (b.id_of at == 0) ≡ true
      → count_run needed at b < needed
      → find_run (suc rounds) at size 1 b ≡ find_run rounds (at + count_run needed at b) size 1 b
  unfolding find_run
  step_small rounds at inside past bs small free few =
      let tests = goes_on at inside past bs in
      let next : add32 (sub32 (add32 at (count_run needed at b)) 1) 1 ≡ at + count_run needed at b =
        omega (arith, count_run-inside needed at b (omega arith)) in
      let test : ltb (count_run needed at b) needed ≡ true = lt→ltb _ _ few in
      rw (tests.0, tests.1, tests.2, free, test, next) refl

  step_found :
      (rounds at : ℕ)
      → at < block_count b
      → b.last_alloc < at
      → 0 < b.block_size
      → (b.id_of at == 0) ≡ true
      → needed ≤ count_run needed at b
      → find_run (suc rounds) at size 1 b
        ≡ ok (some (record { start = at; count = count_run needed at b; offset = 0 }))
  unfolding find_run
  step_found rounds at inside past bs free enough =
      let tests = goes_on at inside past bs in
      let test : ltb (count_run needed at b) needed ≡ false = le→ltb _ _ enough in
      rw (tests.0, tests.1, tests.2, free, test) refl

  -- A count from a free block on is not nothing.
  counts_some :
      (n at : ℕ) → 0 < n → (b.id_of at == 0) ≡ true → at < block_count b → 0 < count_run n at b
  unfolding count_run
  counts_some zero at pos free inside = absurd (omega arith)
  counts_some (suc n) at pos free inside = ground (arith, free)

  -- When enough blocks are free behind the last allocation, the loop finds a run.
  pub find_run-IsFit :
      (rounds at fit : ℕ)
      → 0 < b.block_size
      → 0 < needed
      → block_count b < word
      → HasIds fit needed 0 b
      → fit + needed ≤ block_count b
      → b.last_alloc < at
      → at ≤ fit
      → fit - at < rounds
      → (r : Run) × (find_run rounds at size 1 b ≡ ok (some r)) × IsFit size r b
  find_run-IsFit zero at fit bs pos small free inside past le h = absurd (omega arith)
  find_run-IsFit (suc rounds) at fit bs pos small free inside past le h =
      elim (Bool-cases (b.id_of at == 0)) [
        | inr used ↦
            let lt = used_before at fit le pos free used in
            let (r, eq, fits) =
              find_run-IsFit rounds (at + 1) fit bs pos small free inside (omega arith)
                (omega (arith, lt)) (omega (arith, lt)) in
            (r, step_used rounds at (omega (arith, lt)) past bs small used ∙ eq, fits)
        | inl z ↦ elim (Bool-cases (ltb (count_run needed at b) needed)) [
          | inl e ↦
              let few = ltb→lt _ _ e in
              let lt = before_fit at fit le free inside few in
              let more = counts_some needed at pos z (omega arith) in
              let (r, eq, fits) =
                find_run-IsFit rounds (at + count_run needed at b) fit bs pos small free inside
                  (omega arith) (omega (arith, lt)) (omega (arith, lt, more)) in
              (r, step_small rounds at (omega arith) past bs small z few ∙ eq, fits)
          | inr e ↦
              let enough = ltb→le _ _ e in
              (
                record { start = at; count = count_run needed at b; offset = 0 },
                step_found rounds at (omega arith) past bs z enough,
                (
                  omega (arith, enough, count_run-le needed at b),
                  refl,
                  count_run-inside needed at b (omega arith),
                  count_run-HasIds needed at b,
                ),
              )
        ]
      ]
