-- ===== src/Memory/Physical/Freeing.antt =====
-- What `mark_free` of src/kernel/memory/PhysicalMemoryManager.cpp does to the bits.
use ow_os.Common.{
  ℕ, zero, suc, ◌+◌, ◌-◌, ◌*◌, ◌/◌, ◌%◌, ◌≤◌, ◌<◌, ◌≡◌, refl, ap, ◌∙◌, subst, Bool, Bool-cases, inl,
  inr, true, false, not, ◌&&◌, ltb, leb, ◌==◌, if◌then◌else◌, ltb→lt, lt→ltb, ltb→le, arith,
  all_below, all_below_sound, ok,
}
use ow_os.Memory.Physical.{Bitmap, free_pair, free_pairs}
use ow_os.Memory.Physical.Marking.{in_span, at_word, whole}

-- Both halves are free.
abbrev pub is_free : Bitmap → ℕ → Bool
is_free lower j = not (lower.bit (j * 2)) && not (lower.bit (j * 2 + 1))

-- The blocks of a span whose halves are free are cleared.
abbrev pub IsFreed : ℕ → ℕ → Bitmap → Bitmap → Bitmap → Type 0
IsFreed from to lower upper upper' =
    (upper'.dwords ≡ upper.dwords)
    × ((k : ℕ)
        → upper'.bit k ≡ (if in_span from to k && is_free lower k then false else upper.bit k))

never : (test old : Bool) → old ≡ (if test && false then false else old)
never true old = refl
never false old = refl

always : (test old : Bool) → (if test then false else old) ≡ (if test && true then false else old)
always true old = refl
always false old = refl

free_pair-ok :
    (j : ℕ) (lower upper : Bitmap)
    → (j * 2 + 1) / 32 < lower.dwords
    → j / 32 < upper.dwords
    → (b : Bitmap) × (free_pair j lower upper ≡ ok b)
      × (b.dwords ≡ upper.dwords)
      × ((k : ℕ) → b.bit k ≡ (if k == j && is_free lower j then false else upper.bit k))
unfolding free_pair
free_pair-ok j lower upper p q = elim (Bool-cases (lower.bit (j * 2))) [
  | inl e ↦ (upper, rw (low, e) refl, refl, (λ k. rw e (never (k == j) (upper.bit k))))
  | inr e ↦ elim (Bool-cases (lower.bit (j * 2 + 1))) [
    | inl e' ↦
        (upper, rw (low, e, high, e') refl, refl, (λ k. rw (e, e') (never (k == j) (upper.bit k))))
    | inr e' ↦ (
      record upper { bit = λ k. if k == j then false else upper.bit k },
      rw (low, e, high, e', up) refl,
      refl,
      (λ k. rw (e, e') (always (k == j) (upper.bit k))),
    )
  ]
]
  where
    low : ltb (j * 2 / 32) lower.dwords ≡ true
    low = lt→ltb _ _ (omega arith)

    high : ltb ((j * 2 + 1) / 32) lower.dwords ≡ true
    high = lt→ltb _ _ p

    up : ltb (j / 32) upper.dwords ≡ true
    up = lt→ltb _ _ q

one_more :
    (from to k : ℕ) (lower : Bitmap) (old : Bool)
    → from ≤ to
    → (if in_span (from + 1) to k && is_free lower k
        then false
        else if k == from && is_free lower from
        then false
        else old)
      ≡ (if in_span from to k && is_free lower k then false else old)
one_more from to k lower old h = elim (Bool-cases (k == from)) [
  | inl e ↦
      let same : k ≡ from = ground arith in
      subst
        (λ x.
          (if in_span (x + 1) to k && is_free lower k
            then false
            else if k == x && is_free lower x
            then false
            else old)
          ≡ (if in_span x to k && is_free lower k then false else old))
        same (at_start k to (is_free lower k) old (omega (arith, same)))
  | inr e ↦ ground arith
]
  where
    at_start :
        (k to : ℕ) (free old : Bool)
        → k ≤ to
        → (if in_span (k + 1) to k && free then false else if k == k && free then false else old)
          ≡ (if in_span k to k && free then false else old)
    at_start k to free old h = ground arith

word_more :
    (from to k : ℕ) (free old : Bool)
    → from % 32 ≡ 0
    → 32 ≤ to - from
    → ((k / 32 == from / 32) ≡ true → free ≡ true)
    → (if in_span (from + 32) to k && free
        then false
        else if k / 32 == from / 32
        then false
        else old)
      ≡ (if in_span from to k && free then false else old)
word_more from to k true old h room f = ground arith
word_more from to k false old h room f = elim (Bool-cases (k / 32 == from / 32)) [
  | inl e ↦ cc (f e)
  | inr e ↦ ground arith
]

-- A bit of a word without a set bit.
zero_bit :
    (start bit : ℕ) (lower : Bitmap)
    → all_below 32 (λ off. not (lower.bit (start / 32 * 32 + off))) ≡ true
    → start % 32 ≡ 0
    → start ≤ bit
    → bit < start + 32
    → not (lower.bit bit) ≡ true
zero_bit start bit lower zeros h above below =
    let here : start / 32 * 32 + (bit - start) ≡ bit = omega arith in
    subst (λ x. not (lower.bit x) ≡ true) here
      (all_below_sound 32 (λ off. not (lower.bit (start / 32 * 32 + off))) (bit - start) zeros
        (omega arith))

-- Two words of the lower bitmap without a set bit are the halves of a word of blocks.
zero_words :
    (from k : ℕ) (lower : Bitmap)
    → from % 32 ≡ 0
    → all_below 32 (λ off. not (lower.bit (from * 2 / 32 * 32 + off))) ≡ true
    → all_below 32 (λ off. not (lower.bit ((from * 2 + 32) / 32 * 32 + off))) ≡ true
    → (k / 32 == from / 32) ≡ true
    → is_free lower k ≡ true
zero_words from k lower h one two e =
    let near : k / 32 ≡ from / 32 = ground arith in
    elim (Bool-cases (ltb k (from + 16))) [
      | inl b ↦
          let less = ltb→lt k (from + 16) b in
          rw
            (
              zero_bit (from * 2) (k * 2) lower one (omega arith) (omega (arith, near))
                  (omega (arith, less)),
              zero_bit (from * 2) (k * 2 + 1) lower one (omega arith) (omega (arith, near))
                  (omega (arith, less)),
            )
            refl
      | inr b ↦
          let more = ltb→le k (from + 16) b in
          rw
            (
              zero_bit (from * 2 + 32) (k * 2) lower two (omega arith) (omega (arith, more))
                  (omega (arith, near)),
              zero_bit (from * 2 + 32) (k * 2 + 1) lower two (omega arith) (omega (arith, more))
                  (omega (arith, near)),
            )
            refl
    ]

none_more :
    (from to k : ℕ) (free old : Bool)
    → to < from
    → old ≡ (if in_span from to k && free then false else old)
none_more from to k free old h = ground arith

pub free_pairs-IsFreed :
    (rounds j end : ℕ) (lower upper : Bitmap)
    → suc end - j ≤ rounds
    → (end * 2 + 1) / 32 < lower.dwords
    → end / 32 < upper.dwords
    → (b : Bitmap) × (free_pairs rounds j end lower upper ≡ ok b) × IsFreed j end lower upper b
unfolding free_pairs
free_pairs-IsFreed zero j end lower upper h p q =
    let past : ltb end j ≡ true = lt→ltb end j (omega arith) in
    (
      upper,
      rw past refl,
      (refl, (λ k. none_more j end k (is_free lower k) (upper.bit k) (omega arith))),
    )
free_pairs-IsFreed (suc rounds) j end lower upper h p q = elim (Bool-cases (ltb end j)) [
  | inl e ↦ (
    upper,
    rw e refl,
    (refl, (λ k. none_more j end k (is_free lower k) (upper.bit k) (ltb→lt end j e))),
  )
  | inr e ↦
      let le = ltb→le end j e in
      let (b₁, eq₁, words₁, bits₁) = free_pair-ok j lower upper (omega arith) (omega arith) in
      let (b₂, eq₂, (words₂, bits₂)) =
        free_pairs-IsFreed rounds (j + 1) end lower b₁ (omega arith) p (omega (arith, words₁)) in
      let single : IsFreed j end lower upper b₂ = (
        words₂ ∙ words₁,
        (λ k.
            bits₂ k
            ∙ ap (λ x. if in_span (j + 1) end k && is_free lower k then false else x) (bits₁ k)
            ∙ one_more j end k lower (upper.bit k) le),
      ) in
      elim (Bool-cases (j % 32 == 0 && leb 32 (end - j))) [
        | inr w ↦ (b₂, rw (e, w, eq₁, eq₂) refl, single)
        | inl w ↦
            let (aligned, room) = whole j end w in
            let in₁ : ltb (j * 2 / 32) lower.dwords ≡ true = lt→ltb _ _ (omega arith) in
            let in₂ : ltb ((j * 2 + 32) / 32) lower.dwords ≡ true = lt→ltb _ _ (omega arith) in
            elim (Bool-cases (all_below 32 (λ off. not (lower.bit (j * 2 / 32 * 32 + off))))) [
              | inr z ↦ (b₂, rw (e, w, in₁, z, eq₁, eq₂) refl, single)
              | inl z ↦
                  elim (Bool-cases
                    (all_below 32 (λ off. not (lower.bit ((j * 2 + 32) / 32 * 32 + off))))) [
                      | inr z' ↦ (b₂, rw (e, w, in₁, z, in₂, z', eq₁, eq₂) refl, single)
                      | inl z' ↦
                          let cleared : Bitmap = record upper {
                            bit = λ k. if k / 32 == j / 32 then false else upper.bit k;
                          } in
                          let (b₃, eq₃, (words₃, bits₃)) =
                            free_pairs-IsFreed rounds (j + 32) end lower cleared (omega arith) p
                              q in
                          (
                            b₃,
                            rw (e, w, in₁, z, in₂, z', at_word j end upper.dwords le q) eq₃,
                            (
                              words₃,
                              (λ k.
                                  bits₃ k
                                  ∙ word_more j end k (is_free lower k) (upper.bit k) aligned room
                                      (zero_words j k lower aligned z z')),
                            ),
                          )
                    ]
            ]
      ]
]
