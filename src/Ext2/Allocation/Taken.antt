-- ===== src/Ext2/Allocation/Taken.antt =====
-- The blocks that the loop over a group takes in `allocate_blocks` of
-- src/kernel/filesystem/Ext2FileSystem.cpp.
use ow_os.Common.{
  ℕ, zero, suc, ◌+◌, ◌-◌, ◌*◌, ◌/◌, ◌%◌, ◌≤◌, ◌<◌, ◌≡◌, inl, inr, refl, sym, ap, ◌∙◌, subst, Bool,
  Bool-cases, true, false, ◌&&◌, ◌||◌, List, [], ◌∷◌, ltb, leb, ◌==◌, ltb→lt, ltb→le, arith, word,
  add32, length,
}
use ow_os.Ext2.Allocation.{Bits, blocks_per_block}
use ow_os.Ext2.Allocation.Rounds.{
  takes-free, passes_used, step-inside, from_block, step_at, takes_at, with_bit, ends, passes,
  takes_last, takes_one,
}

-- The bit of a block of a group whose table begins at a block of the device.
abbrev pub bit_of : ℕ → Bits → ℕ → Bool
bit_of table bits i = bits (table + i / blocks_per_block) (i % blocks_per_block)

-- A block is among those of a list.
unfoldable pub has : ℕ → List ℕ → Bool
has b [] = false
has b (x ∷ xs) = b == x || has b xs

-- The blocks stand in their order, from one on.
abbrev pub IsOrdered : ℕ → List ℕ → Type 0
IsOrdered from [] = Unit
IsOrdered from (x ∷ xs) = (from ≤ x) × IsOrdered (x + 1) xs

regroup : (a b c d : Bool) → (a || (b && c) || (b && d)) ≡ (a || (b && (c || d)))
regroup true b c d = refl
regroup false true c d = refl
regroup false false c d = refl

module _ (table base n : ℕ) where
  -- A bit of the table is that of one block of the group.
  abbrev names : ℕ → ℕ → List ℕ → Bool
  names t j taken =
      leb table t
      && ltb j blocks_per_block
      && has (base + ((t - table) * blocks_per_block + j)) taken

  -- The blocks that the loop takes from one on, when so many are asked for.
  pub record IsTaken (block left : ℕ) (bits : Bits) (result : List ℕ × Bits) : Type 0 where
    pub ordered : IsOrdered (base + block) (result.0)
    pub was_free :
        (b : ℕ)
        → has b (result.0) ≡ true
        → (base + block ≤ b) × (b < base + n) × (bit_of table bits (b - base) ≡ false)
    pub marked : (t j : ℕ) → result.1 t j ≡ (bits t j || names t j (result.0))
    pub most : length (result.0) ≤ left
    pub all :
        length (result.0) < left → (i : ℕ) → block ≤ i → i < n → bit_of table (result.1) i ≡ true

  none-IsTaken : (block left : ℕ) (bits : Bits) → n ≤ block → IsTaken block left bits ([], bits)
  unfolding has
  none-IsTaken block left bits past = record {
    ordered = tt;
    was_free = (λ b e. ground (arith, e));
    marked = (λ t j. ground arith);
    most = omega arith;
    all = (λ fewer i low high. absurd (omega (arith, past, low, high)));
  }

  IsOrdered-le : (a b : ℕ) (xs : List ℕ) → a ≤ b → IsOrdered b xs → IsOrdered a xs
  IsOrdered-le a b [] le o = tt
  IsOrdered-le a b (x ∷ xs) le o = (omega (arith, le, o.0), o.1)

  -- What is marked stays marked.
  stays :
      (block left : ℕ) (bits : Bits) (result : List ℕ × Bits) (t j : ℕ)
      → IsTaken block left bits result
      → bits t j ≡ true
      → result.1 t j ≡ true
  stays block left bits result t j taken e = taken.marked t j ∙ rw e refl

  passed :
      (block left : ℕ) (bits : Bits) (result : List ℕ × Bits)
      → takes_at table base n block bits ≡ false
      → IsTaken (block + step_at table base n block bits) left bits result
      → IsTaken block left bits result
  passed block left bits result e taken = record {
    ordered =
        IsOrdered-le (base + block) (base + (block + step_at table base n block bits)) (result.0)
          (omega arith) taken.ordered;
    was_free =
        (λ b h. let (low, high, free) = taken.was_free b h in (omega (arith, low), high, free));
    marked = taken.marked;
    most = taken.most;
    all = (λ fewer i low high. elim (Bool-cases (ltb i (block + step_at table base n block bits))) [
      | inr past ↦ taken.all fewer i (ltb→le _ _ past) high
      | inl near ↦
          let (pos, inside) =
            step-inside (table + block / blocks_per_block) (block % blocks_per_block) bits
              (omega arith) in
          let close : i < block + step_at table base n block bits = ltb→lt _ _ near in
          let t : i / blocks_per_block ≡ block / blocks_per_block =
            omega (arith, low, close, inside) in
          let j : i % blocks_per_block ≡ block % blocks_per_block + (i - block) =
            omega (arith, low, close, inside) in
          stays (block + step_at table base n block bits) left bits result
            (table + i / blocks_per_block) (i % blocks_per_block) taken
            (ap (λ (x : ℕ). bits (table + x) (i % blocks_per_block)) t
              ∙ ap (bits (table + block / blocks_per_block)) j
              ∙ passes_used (table + block / blocks_per_block) (block % blocks_per_block)
                  (i - block) bits e (omega (arith, low, close)))
    ]);
  }

  -- The bit of a block, by its place in the table and by the block's number.
  with_bit-names :
      (block t j : ℕ) (bits : Bits)
      → with_bit table base n block bits t j ≡ (
          bits t j
          || (leb table t
              && ltb j blocks_per_block
              && (base + ((t - table) * blocks_per_block + j) == base + block)))
  with_bit-names block t j bits =
      elim (Bool-cases (t == table + block / blocks_per_block && j == block % blocks_per_block)) [
        | inl e ↦
            let same_t : t ≡ table + block / blocks_per_block = ground (arith, e) in
            let same_j : j ≡ block % blocks_per_block = ground (arith, e) in
            let named : (leb table t
                  && ltb j blocks_per_block
                  && (base + ((t - table) * blocks_per_block + j) == base + block))
                ≡ true =
              ground (arith, same_t, same_j) in
            rw (e, named) (ground arith)
        | inr e ↦
            let other : (leb table t
                  && ltb j blocks_per_block
                  && (base + ((t - table) * blocks_per_block + j) == base + block))
                ≡ false =
              ground (arith, e) in
            rw (e, other) (ground arith)
      ]

  nothing-IsTaken : (block : ℕ) (bits : Bits) → IsTaken block 0 bits ([], bits)
  unfolding has
  nothing-IsTaken block bits = record {
    ordered = tt;
    was_free = (λ b e. ground (arith, e));
    marked = (λ t j. ground arith);
    most = omega arith;
    all = (λ fewer i low high. absurd (omega (arith, fewer)));
  }

  marks :
      (block : ℕ) (bits : Bits)
      → with_bit table base n block bits
          (table + block / blocks_per_block)
          (block % blocks_per_block)
        ≡ true
  marks block bits =
      let t : (table + block / blocks_per_block == table + block / blocks_per_block) ≡ true =
        ground arith in
      let j : (block % blocks_per_block == block % blocks_per_block) ≡ true = ground arith in
      rw (t, j) refl

  bit-was_free :
      (block i : ℕ) (bits : Bits)
      → bit_of table (with_bit table base n block bits) i ≡ false
      → bit_of table bits i ≡ false
  bit-was_free block i bits =
      elim (Bool-cases (
        table + i / blocks_per_block == table + block / blocks_per_block
        && i % blocks_per_block == block % blocks_per_block)) [
          | inl e ↦ rw e (λ h. absurd (ground (arith, h)))
          | inr e ↦ rw e (λ h. h)
        ]

  took :
      (block left : ℕ) (bits : Bits) (result : List ℕ × Bits)
      → block < n
      → takes_at table base n block bits ≡ true
      → 0 < left
      → IsTaken (block + 1) (left - 1) (with_bit table base n block bits) result
      → IsTaken block left bits ((base + block) ∷ result.0, result.1)
  unfolding has
  took block left bits result less e some_left taken = record {
    ordered = (
      omega arith,
      IsOrdered-le (base + block + 1) (base + (block + 1)) (result.0) (omega arith) taken.ordered,
    );
    was_free = (λ b h. elim (Bool-cases (b == base + block)) [
      | inl here ↦
          let same : b - base ≡ block = ground (arith, here) in
          (
            ground (arith, here),
            ground (arith, here, less),
            ap (bit_of table bits) same
                ∙ (takes-free (table + block / blocks_per_block) (block % blocks_per_block) bits
                    e).1,
          )
      | inr other ↦
          let (low, high, free) = taken.was_free b (ground (arith, h, other)) in
          (omega (arith, low), high, bit-was_free block (b - base) bits free)
    ]);
    marked = (λ t j.
        taken.marked t j
        ∙ ap (λ (x : Bool). x || names t j (result.0)) (with_bit-names block t j bits)
        ∙ regroup (bits t j) (leb table t && ltb j blocks_per_block)
            (base + ((t - table) * blocks_per_block + j) == base + block)
            (has (base + ((t - table) * blocks_per_block + j)) (result.0)));
    most = omega (arith, taken.most, some_left);
    all = (λ fewer i low high. elim (Bool-cases (i == block)) [
      | inl e ↦
          let same : block ≡ i = ground (arith, e) in
          subst (λ (x : ℕ). bit_of table (result.1) x ≡ true) same
            (taken.marked (table + block / blocks_per_block) (block % blocks_per_block)
              ∙ ap
                  (λ (x : Bool).
                    x
                    || names (table + block / blocks_per_block) (block % blocks_per_block)
                        (result.0))
                  (marks block bits))
      | inr e ↦ taken.all (omega (arith, fewer)) i (ground (arith, e, low)) high
    ]);
  }

  abbrev found : List ℕ → Bits → ℕ → List ℕ × Bits
  found taken bits b = (b ∷ taken, bits)

  -- The loop over the blocks of a group whose table of bits begins at a block of the device, and
  -- whose blocks have numbers below 2 ^ 32, with as many rounds as there are blocks left and at
  -- least one block asked for: the blocks that it takes are in order, so that no block is taken
  -- twice. Each is one of the group that was free; the bits of these blocks are set, and no other
  -- bit of the device changes. They are at most as many as are asked for, and when they are fewer,
  -- no block of the group is free any more.
  pub take_free-IsTaken :
      (rounds block left : ℕ) (bits : Bits)
      → n ≤ block + rounds
      → 0 < left
      → base + n < word
      → IsTaken block left bits (from_block table base n rounds block left bits)
  take_free-IsTaken zero block left bits enough some_left small =
      subst (IsTaken block left bits)
        (sym (ends table base n zero block left bits (omega (arith, enough))))
        (none-IsTaken block left bits (omega (arith, enough)))
  take_free-IsTaken (suc rounds) block left bits enough some_left small =
      elim (Bool-cases (ltb block n)) [
        | inr past ↦
            subst (IsTaken block left bits)
              (sym (ends table base n (suc rounds) block left bits (ltb→le _ _ past)))
              (none-IsTaken block left bits (ltb→le _ _ past))
        | inl here ↦
            let less : block < n = ltb→lt _ _ here in
            let number : add32 base block ≡ base + block = omega (arith, small, less) in
            elim (Bool-cases (takes_at table base n block bits)) [
              | inr e ↦
                  let pos =
                    (step-inside (table + block / blocks_per_block) (block % blocks_per_block) bits
                      (omega arith)).0 in
                  subst (IsTaken block left bits)
                    (sym (passes table base n rounds block left bits less e))
                    (passed block left bits
                      (from_block table base n rounds (block + step_at table base n block bits) left
                        bits)
                      e
                      (take_free-IsTaken rounds (block + step_at table base n block bits) left bits
                        (omega (arith, enough, pos)) some_left small))
              | inl e ↦ elim (Bool-cases (left - 1 == 0)) [
                | inl last ↦
                    let none_left : left - 1 ≡ 0 = ground (arith, last) in
                    subst (IsTaken block left bits)
                      (ap (found [] (with_bit table base n block bits)) (sym number)
                        ∙ sym (takes_last table base n rounds block left bits less e none_left))
                      (took block left bits ([], with_bit table base n block bits) less e some_left
                        (subst
                          (λ (m : ℕ).
                            IsTaken (block + 1) m (with_bit table base n block bits)
                              ([], with_bit table base n block bits))
                          (sym none_left)
                          (nothing-IsTaken (block + 1) (with_bit table base n block bits))))
                | inr more ↦
                    let rest =
                      from_block table base n rounds (block + 1) (left - 1)
                        (with_bit table base n block bits) in
                    let some_more : 0 < left - 1 = ground (arith, more) in
                    subst (IsTaken block left bits)
                      (ap (found (rest.0) (rest.1)) (sym number)
                        ∙ sym (takes_one table base n rounds block left bits less e some_more))
                      (took block left bits rest less e some_left (
                        take_free-IsTaken rounds (block + 1) (left - 1)
                          (with_bit table base n block bits) (omega (arith, enough)) some_more
                          small))
              ]
            ]
      ]
