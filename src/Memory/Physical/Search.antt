-- ===== src/Memory/Physical/Search.antt =====
-- The loop of `alloc` in src/kernel/memory/PhysicalMemoryManager.cpp that looks for a free block.
use ow_os.Common.{
  ℕ, zero, suc, ◌+◌, ◌-◌, ◌*◌, ◌/◌, ◌≤◌, ◌<◌, ◌≡◌, ◌⊎◌, refl, ◌∙◌, subst, Bool-cases, inl, inr,
  true, false, ◌&&◌, ◌||◌, ltb, leb, ◌==◌, if◌then◌else◌, ltb→lt, lt→ltb, ltb→le, arith, word,
  add32, ok,
}
use ow_os.Memory.Physical.{Buddy, Request, search, count_free}

-- A block that is there and free.
abbrev pub IsFree : Buddy → ℕ → Type 0
IsFree buddy i = (buddy.bitmap.bit i ≡ false) × (i < buddy.page_count)

module _ (r : Request) (buddy : Buddy) where
  -- The count of one block.
  count_one :
      (at : ℕ)
      → at < word
      → buddy.page_count ≤ 32 * buddy.bitmap.dwords
      → ((count_free 1 at 0 buddy ≡ ok 1) × IsFree buddy at)
        ⊎ ((count_free 1 at 0 buddy ≡ ok 0) × (IsFree buddy at → ⊥))
  unfolding count_free
  count_one at small room = elim (Bool-cases (ltb at buddy.page_count)) [
    | inl e ↦
        let inside : ltb (at / 32) buddy.bitmap.dwords ≡ true =
          lt→ltb _ _ (omega (arith, ltb→lt _ _ e)) in
        elim (Bool-cases (buddy.bitmap.bit at)) [
          | inl used ↦ inr (rw (same, e, inside, used) refl, (λ f. cc (used, f.0)))
          | inr free ↦ inl (rw (same, e, inside, free) refl, (free, ltb→lt _ _ e))
        ]
    | inr e ↦ inr (rw (same, e) refl, (λ f. omega (arith, f.1, ltb→le _ _ e)))
  ]
    where
      same : add32 at 0 ≡ at
      same = omega arith

  -- A round of the loop finds its block, or goes on behind it.
  step :
      (rounds i at : ℕ)
      → r.boundary ≡ 0
      → r.needed ≡ 1
      → buddy.page_count ≤ 32 * buddy.bitmap.dwords
      → (if leb r.end i then r.start else i) ≡ at
      → (i == r.idx_start || leb r.end i && r.start == r.idx_start) ≡ false
      → at + 1 < word
      → ((search (suc rounds) i r buddy ≡ ok at) × IsFree buddy at)
        ⊎ ((search (suc rounds) i r buddy ≡ search rounds (at + 1) r buddy) × (IsFree buddy at → ⊥))
  unfolding search
  step rounds i at b n room w go small = elim (count_one at (omega arith) room) [
    | inl (eq, free) ↦ inl (rw (w, go, b, n, eq) refl, free)
    | inr (eq, used) ↦ inr (rw (w, go, b, n, eq, next) refl, used)
  ]
    where
      next : add32 (add32 at 0) 1 ≡ at + 1
      next = omega arith

  not_here : (i i0 : ℕ) → i ≤ i0 → IsFree buddy i0 → (IsFree buddy i → ⊥) → i < i0
  not_here i i0 le f used = elim (Bool-cases (ltb i i0)) [
    | inl e ↦ ltb→lt i i0 e
    | inr e ↦
        let same : i0 ≡ i = omega (arith, ltb→le i i0 e) in
        absurd (used (subst (IsFree buddy) same f))
  ]

  further :
      {i i0 : ℕ}
      → ((r.idx_start < i) ⊎ (i0 < r.idx_start))
      → (r.idx_start < i + 1) ⊎ (i0 < r.idx_start)
  further (inl h) = inl (omega arith)
  further (inr h) = inr h

  leb→lt : (a b : ℕ) → leb a b ≡ false → b < a
  leb→lt a b h = ground arith

  -- From below a free block on, and on the same side of `idx_start`, one is found.
  pub climb :
      (rounds i i0 : ℕ)
      → r.boundary ≡ 0
      → r.needed ≡ 1
      → buddy.page_count ≤ 32 * buddy.bitmap.dwords
      → r.end < word
      → IsFree buddy i0
      → i ≤ i0
      → i0 < r.end
      → ((r.idx_start < i) ⊎ (i0 < r.idx_start))
      → i0 - i < rounds
      → (at : ℕ) × (search rounds i r buddy ≡ ok at) × IsFree buddy at
  climb zero i i0 b n room small f le lt side enough = absurd (omega arith)
  climb (suc rounds) i i0 b n room small f le lt side enough =
      elim (step rounds i i b n room inside go (omega arith)) [
        | inl (eq, free) ↦ (i, eq, free)
        | inr (eq, used) ↦
            let before : i < i0 = not_here i i0 le f used in
            let (at, eq', free) =
              climb rounds (i + 1) i0 b n room small f (omega arith) lt (further side)
                (omega arith) in
            (at, eq ∙ eq', free)
      ]
    where
      inside : (if leb r.end i then r.start else i) ≡ i
      inside = ground arith

      go : (i == r.idx_start || leb r.end i && r.start == r.idx_start) ≡ false
      go = ground arith

  -- From behind `idx_start` on, one before it is found after the turn to the start.
  pub turn :
      (rounds i i0 : ℕ)
      → r.boundary ≡ 0
      → r.needed ≡ 1
      → buddy.page_count ≤ 32 * buddy.bitmap.dwords
      → r.end < word
      → IsFree buddy i0
      → r.start ≤ i0
      → i0 < r.end
      → i0 < r.idx_start
      → r.idx_start < i
      → (r.end - i) + (i0 - r.start) + 1 < rounds
      → (at : ℕ) × (search rounds i r buddy ≡ ok at) × IsFree buddy at
  turn zero i i0 b n room small f from lt side past enough = absurd (omega arith)
  turn (suc rounds) i i0 b n room small f from lt side past enough =
      elim (Bool-cases (leb r.end i)) [
        | inl e ↦ elim (step rounds i r.start b n room (rw e refl) (ground arith) (omega arith)) [
          | inl (eq, free) ↦ (r.start, eq, free)
          | inr (eq, used) ↦
              let before : r.start < i0 = not_here r.start i0 from f used in
              let (at, eq', free) =
                climb rounds (r.start + 1) i0 b n room small f (omega arith) lt (inr side)
                  (omega arith) in
              (at, eq ∙ eq', free)
        ]
        | inr e ↦
            elim (step rounds i i b n room (rw e refl) (ground arith)
              (omega (arith, leb→lt _ _ e))) [
                | inl (eq, free) ↦ (i, eq, free)
                | inr (eq, used) ↦
                    let (at, eq', free) =
                      turn rounds (i + 1) i0 b n room small f from lt side (omega arith)
                        (omega (arith, leb→lt _ _ e)) in
                    (at, eq ∙ eq', free)
              ]
      ]
