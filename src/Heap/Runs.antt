-- ===== src/Heap/Runs.antt =====
-- The runs of blocks in the bitmaps of src/kernel/heap/BitmapHeap.cpp.
use ow_os.Common.{
  ℕ, zero, suc, ◌+◌, ◌-◌, ◌≤◌, ◌<◌, ◌≡◌, ◌≢◌, ◌⊎◌, inl, inr, refl, sym, ap, ◌∙◌, subst, Bool,
  Bool-cases, true, false, ◌&&◌, ltb, leb, ◌==◌, if◌then◌else◌, ltb→lt, ltb→le, arith,
}
use ow_os.Heap.{HeapBlock, set_id, set_ids, count_run, walk_down, clear_run, block_count}

-- Blocks from one on that all have an id.
abbrev pub HasIds : ℕ → ℕ → ℕ → HeapBlock → Type 0
HasIds start n id b = (i : ℕ) → start ≤ i → i < start + n → b.id_of i ≡ id

abbrev pub in_run : ℕ → ℕ → ℕ → Bool
in_run start n i = leb start i && ltb i (start + n)

one_more :
    (start n id old i : ℕ)
    → (if in_run (start + 1) n i then id else if i == start then id else old)
      ≡ (if in_run start (suc n) i then id else old)
one_more start n id old i = ground arith

pub set_ids-id_of :
    (start n id : ℕ) (b : HeapBlock) (i : ℕ)
    → (set_ids start n id b).id_of i ≡ (if in_run start n i then id else b.id_of i)
unfolding set_ids
set_ids-id_of start zero id b i = ground arith
set_ids-id_of start (suc n) id b i =
    set_ids-id_of (start + 1) n id (set_id start id b) i ∙ one_more start n id (b.id_of i) i

-- Only the ids change.
pub set_ids-same :
    (start n id : ℕ) (b : HeapBlock)
    → set_ids start n id b ≡ record b { id_of = (set_ids start n id b).id_of }
unfolding set_ids
set_ids-same start zero id b = refl
set_ids-same start (suc n) id b = set_ids-same (start + 1) n id (set_id start id b)

count_run-cases :
    (n at : ℕ) (b : HeapBlock)
    → ((b.id_of at ≡ 0)
        × (at < block_count b)
        × (count_run (suc n) at b ≡ suc (count_run n (at + 1) b)))
      ⊎ ((count_run (suc n) at b ≡ 0) × (b.id_of at ≡ 0 → at < block_count b → ⊥))
unfolding count_run
count_run-cases n at b = elim (Bool-cases (b.id_of at == 0 && ltb at (block_count b))) [
  | inl e ↦ inl (ground arith, ground arith, rw e refl)
  | inr e ↦ inr (rw e refl, (λ z k. ground (arith, e)))
]

pub count_run-le : (n at : ℕ) (b : HeapBlock) → count_run n at b ≤ n
unfolding count_run
count_run-le zero at b = omega arith
count_run-le (suc n) at b = ground (arith, count_run-le n (at + 1) b)

-- The blocks that are counted are free and are there.
pub count_run-HasIds : (n at : ℕ) (b : HeapBlock) → HasIds at (count_run n at b) 0 b
unfolding count_run
count_run-HasIds zero at b i h k = absurd (omega arith)
count_run-HasIds (suc n) at b i h k = elim (count_run-cases n at b) [
  | inl (z, here, more) ↦ elim (Bool-cases (i == at)) [
    | inl e ↦ ap b.id_of (ground arith) ∙ z
    | inr e ↦ count_run-HasIds n (at + 1) b i (ground arith) (omega (arith, more))
  ]
  | inr (none_more, used) ↦ absurd (omega (arith, none_more))
]

pub count_run-inside :
    (n at : ℕ) (b : HeapBlock) → at ≤ block_count b → at + count_run n at b ≤ block_count b
unfolding count_run
count_run-inside zero at b h = omega arith
count_run-inside (suc n) at b h = elim (count_run-cases n at b) [
  | inl (z, here, more) ↦ omega (arith, more, count_run-inside n (at + 1) b (omega (arith, here)))
  | inr (none_more, used) ↦ omega (arith, none_more)
]

-- A count that is too small ends at a block that is not free, or is not there.
pub count_run-stop :
    (n at : ℕ) (b : HeapBlock)
    → count_run n at b < n
    → at + count_run n at b < block_count b
    → b.id_of (at + count_run n at b) ≡ 0
    → ⊥
unfolding count_run
count_run-stop zero at b h k e = omega arith
count_run-stop (suc n) at b h k e = elim (count_run-cases n at b) [
  | inl (z, here, more) ↦
      let next : at + count_run (suc n) at b ≡ at + 1 + count_run n (at + 1) b =
        omega (arith, more) in
      count_run-stop n (at + 1) b (omega (arith, more)) (omega (arith, next))
        (ap b.id_of (sym next) ∙ e)
  | inr (none_more, used) ↦
      let next : at + count_run (suc n) at b ≡ at = omega (arith, none_more) in
      used (ap b.id_of (sym next) ∙ e) (omega (arith, next))
]

walk_down-stop : (block id : ℕ) (b : HeapBlock) → b.id_of block ≢ id → walk_down block id b ≡ block
unfolding walk_down
walk_down-stop zero id b other = refl
walk_down-stop (suc block) id b other =
    let test : (b.id_of (suc block) == id) ≡ false = ground arith in rw test refl

-- The loop down from a block of a run ends before the run, or at the first block.
pub walk_down-start :
    (block start id : ℕ) (b : HeapBlock)
    → start ≤ block
    → HasIds start (suc block - start) id b
    → (0 < start → b.id_of (start - 1) ≢ id)
    → walk_down block id b ≡ start - 1
unfolding walk_down
walk_down-start zero start id b le run before = omega arith
walk_down-start (suc block) start id b le run before =
    let same : b.id_of (suc block) ≡ id = run (suc block) le (omega arith) in
    let test : (b.id_of (suc block) == id) ≡ true = ground (arith, same) in
    rw test (elim (Bool-cases (ltb block start)) [
      | inl e ↦
          let first : start ≡ suc block = omega (arith, ltb→lt block start e) in
          let here : start - 1 ≡ block = omega (arith, first) in
          walk_down-stop block id b
            (subst (λ k. b.id_of k ≢ id) here (before (omega (arith, first))))
          ∙ sym here
      | inr e ↦
          walk_down-start block start id b (ltb→le block start e)
            (λ i above below. run i above (omega (arith, ltb→le block start e))) before
    ])

no_match :
    (start id : ℕ) (b : HeapBlock)
    → (start < block_count b → b.id_of start ≢ id)
    → (b.id_of start == id && ltb start (block_count b)) ≡ false
no_match start id b other = elim (Bool-cases (ltb start (block_count b))) [
  | inl e ↦ ground (arith, other (ltb→lt start (block_count b) e))
  | inr e ↦ rw e (ground arith)
]

-- The loop that frees a run clears its blocks.
pub clear_run_lem :
    (rounds n start id : ℕ) (b : HeapBlock)
    → HasIds start n id b
    → start + n ≤ block_count b
    → (start + n < block_count b → b.id_of (start + n) ≢ id)
    → n ≤ rounds
    → ((clear_run rounds start id b).0 ≡ n)
      × ((clear_run rounds start id b).1
          ≡ record b { id_of = ((clear_run rounds start id b).1).id_of })
      × ((i : ℕ)
          → ((clear_run rounds start id b).1).id_of i ≡ (if in_run start n i then 0 else b.id_of i))
unfolding clear_run
clear_run_lem zero n start id b run fits after h = (omega arith, refl, (λ i. ground arith))
clear_run_lem (suc rounds) zero start id b run fits after h =
    let test : (b.id_of start == id && ltb start (block_count b)) ≡ false =
      no_match start id b (λ k. subst (λ x. b.id_of x ≢ id) (omega arith) (after (omega arith))) in
    rw test (refl, refl, (λ i. ground arith))
clear_run_lem (suc rounds) (suc n) start id b run fits after h =
    let same : b.id_of start ≡ id = run start (omega arith) (omega arith) in
    let test : (b.id_of start == id && ltb start (block_count b)) ≡ true = ground (arith, same) in
    let moved : HasIds (start + 1) n id (set_id start 0 b) = λ i above below.
      let other : (i == start) ≡ false = ground arith in
      rw other (run i (omega arith) (omega arith)) in
    let later : start + 1 + n < block_count b → (set_id start 0 b).id_of (start + 1 + n) ≢ id = λ k.
      let other : (start + 1 + n == start) ≡ false = ground arith in
      let here : start + suc n ≡ start + 1 + n = omega arith in
      rw other (subst (λ x. b.id_of x ≢ id) here (after (omega (arith, k)))) in
    let (size, only, ids) =
      clear_run_lem rounds n (start + 1) id (set_id start 0 b) moved (omega arith) later
        (omega arith) in
    rw test (ap suc size, only, (λ i. ids i ∙ one_more start n 0 (b.id_of i) i))
