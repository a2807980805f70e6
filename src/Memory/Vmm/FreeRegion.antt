-- ===== src/Memory/Vmm/FreeRegion.antt =====
-- `find_free_region` of src/kernel/memory/VirtualMemoryManager.cpp: the best fit among the gaps.
use ow_os.Common.{
  ℕ, ◌+◌, ◌≤◌, ◌<◌, ◌≡◌, refl, ◌⊎◌, inl, inr, Bool, true, false, ◌&&◌, List, [], ◌∷◌, ltb, leb,
  ◌==◌, if◌then◌else◌, word_max, Result, ok, err, panicked, Bool-cases, ==_iff, IsIn, All-IsIn,
  arith, All,
}
use ow_os.AvlTree.Shape.{inorder}
use ow_os.AvlTree.Traverse.{fold_until}
use ow_os.Memory.Region.{Region, MemoryRegion, virt_region}
use ow_os.Memory.Vmm.{Maps, map_of, no_region, space_start, space_end, best_fit, find_free_region}
use ow_os.Memory.Vmm.Gaps.{
  gaps, traverse_unmapped-gaps, LaidOut, Avoids, Covered, IsFree, space_top, gaps-IsFree,
  gaps-Covered, Follows-no_region,
}

-- The chosen gap: it is one of them, it is large enough, and no large enough one is smaller.
abbrev Chosen : ℕ → ℕ → List MemoryRegion → ℕ → Region → Type 0
Chosen size bound fs m r =
    (f : MemoryRegion) × IsIn f fs
    × (r ≡ virt_region f)
    × (m ≡ f.size)
    × (size ≤ f.size)
    × (f.size < bound)
    × All (λ g. size ≤ g.size → f.size ≤ g.size) fs

-- None is chosen: each is too small, or no smaller than the bound.
abbrev Kept : ℕ → ℕ → List MemoryRegion → ℕ → Region → Region → Type 0
Kept size bound fs m r kept =
    (m ≡ bound) × (r ≡ kept) × All (λ g. size ≤ g.size → bound ≤ g.size) fs

abbrev Outcome : ℕ → ℕ → Region → List MemoryRegion → ℕ × Region → Type 0
Outcome size bound kept fs (m, r) = Kept size bound fs m r kept ⊎ Chosen size bound fs m r

hit_test : (a b c : ℕ) → (ltb a b && leb c a) ≡ true → (a < b) × (c ≤ a)
hit_test a b c h = ground arith

miss_test : (a b c : ℕ) → (ltb a b && leb c a) ≡ false → c ≤ a → b ≤ a
miss_test a b c h p = ground arith

All-at_least :
    (n : ℕ) (fs : List MemoryRegion) → All (λ (g : MemoryRegion). n ≤ g.size → n ≤ g.size) fs
All-at_least n [] = tt
All-at_least n (f ∷ fs) = ((λ h. h), All-at_least n fs)

after_hit :
    (size bound : ℕ) (kept : Region) (f : MemoryRegion) (fs : List MemoryRegion) (o : ℕ × Region)
    → (f.size < bound) × (size ≤ f.size)
    → Outcome size f.size (virt_region f) fs o
    → Outcome size bound kept (f ∷ fs) o
after_hit size bound kept f fs o h (inl (e, e', a)) =
    inr (f, inl refl, e', e, h.1, h.0, ((λ p. omega arith), a))
after_hit size bound kept f fs o h (inr (g, m, e, e', b, c, a)) =
    inr (g, inr m, e, e', b, omega arith, ((λ p. omega arith), a))

after_miss :
    (size bound : ℕ) (kept : Region) (f : MemoryRegion) (fs : List MemoryRegion) (o : ℕ × Region)
    → (size ≤ f.size → bound ≤ f.size)
    → Outcome size bound kept fs o
    → Outcome size bound kept (f ∷ fs) o
after_miss size bound kept f fs o h (inl (e, e', a)) = inl (e, e', (h, a))
after_miss size bound kept f fs o h (inr (g, m, e, e', b, c, a)) =
    inr (g, inr m, e, e', b, c, ((λ p. le_trans_lt c (h p)), a))
  where
    le_trans_lt : {a b c : ℕ} → a < b → b ≤ c → a ≤ c
    le_trans_lt p q = omega arith

fold-best_fit :
    (size bound : ℕ) (kept : Region) (fs : List MemoryRegion)
    → Outcome size bound kept fs (fold_until (best_fit size) (bound, kept) fs)
unfolding fold_until
fold-best_fit size bound kept [] = inl (refl, refl, tt)
fold-best_fit size bound kept (f ∷ fs) = elim (Bool-cases (ltb f.size bound && leb size f.size)) [
  | inl hit ↦ elim (Bool-cases (f.size == size)) [
    | inl exact ↦
        rw (hit, exact)
          (after_hit size bound kept f fs (f.size, virt_region f) (hit_test f.size bound size hit)
            (inl (refl, refl, rw ((==_iff f.size size).0 exact) (All-at_least size fs))))
    | inr larger ↦
        rw (hit, larger)
          (after_hit size bound kept f fs _ (hit_test f.size bound size hit)
            (fold-best_fit size f.size (virt_region f) fs))
  ]
  | inr miss ↦ rw miss (
      after_miss size bound kept f fs _ (miss_test f.size bound size miss)
        (fold-best_fit size bound kept fs))
]

-- The mapped regions of a space: in order, not empty, and within it.
abbrev pub IsLaidOut : Maps → Bool → Type 0
IsLaidOut maps k = LaidOut (space_start k) (inorder (map_of maps k)) (space_top k)

-- `size` addresses from `address` on lie in the space and meet no mapped region.
abbrev pub IsFreeRange : Maps → Bool → ℕ → ℕ → Type 0
IsFreeRange maps k address size =
    (space_start k ≤ address)
    × (address + size ≤ space_end k)
    × Avoids address size (inorder (map_of maps k))

-- No gap is as large as the initial `min_size`, but the one that wraps.
gap_bound : (k : Bool) (a s : ℕ) → space_start k ≤ a → a + s ≤ space_end k → 0 < s → s < word_max
gap_bound true a s h p q = omega arith
gap_bound false a s h p q = omega arith

Covered-large :
    (address size : ℕ) (fs : List MemoryRegion)
    → Covered address size fs
    → ¬ All (λ f. size ≤ f.size → word_max ≤ f.size) fs
Covered-large address size [] c a = absurd c
Covered-large address size (f ∷ fs) (inl (p, q, r)) a = absurd (omega (arith, a.0 (omega arith)))
Covered-large address size (f ∷ fs) (inr c) a = Covered-large address size fs c a.1

-- The region that is found, or the panic.
abbrev pub Found : Maps → ℕ → Bool → Result Region → Type 0
Found maps size k m =
    ((r : Region) × (m ≡ ok r)
      × (size ≤ r.size)
      × IsFreeRange maps k r.address r.size
      × All (λ g. size ≤ g.size → r.size ≤ g.size) (gaps k maps))
    ⊎ ((m ≡ err panicked) × ((address : ℕ) → ¬ IsFreeRange maps k address size))

found :
    (maps : Maps) (size : ℕ) (k : Bool) (o : ℕ × Region)
    → IsLaidOut maps k
    → 0 < size
    → Outcome size word_max (record { address = 0; size = 0 }) (gaps k maps) o
    → Found maps size k (if o.1.size == 0 then err panicked else ok o.1)
found maps size k (m, r) w p (inl (e, e', a)) = rw e' (
    inr (
      refl,
      λ address free.
          Covered-large address size (gaps k maps)
            (gaps-Covered k (space_start k) address size (no_region k) _ (Follows-no_region k) w
              (omega arith) p free.0 free.1 free.2)
            a,
    ))
found maps size k (m, r) w p (inr (f, i, e, e', b, c, a)) =
    rw (e, nonzero)
      (inl (
        virt_region f,
        refl,
        b,
        free (
            All-IsIn _ f (gaps k maps)
              (gaps-IsFree k (space_start k) (no_region k) _ (Follows-no_region k) w) i),
        a,
      ))
  where
    nonzero : (f.size == 0) ≡ false
    nonzero = ground arith

    free :
        IsFree k (space_start k) (inorder (map_of maps k)) f
        → IsFreeRange maps k f.virt_address f.size
    free (inl e) = absurd (omega arith)
    free (inr h) = h

-- With the map of the space in order, a search for `size` addresses, which are more than none,
-- finds a free range of at least that size, no longer than any gap that would do; it panics only
-- if no range of that size is free. Free are the addresses from the start of the space to its
-- end, of the kernel's space all but the last, that no mapped region has.
pub find_free_region_lem :
    (maps : Maps) (size : ℕ) (k : Bool)
    → IsLaidOut maps k
    → 0 < size
    → Found maps size k (find_free_region maps size k)
unfolding find_free_region
find_free_region_lem maps size k w p =
    rw (positive, traverse_unmapped-gaps (best_fit size) k maps)
      (found maps size k _ w p (fold-best_fit size word_max _ (gaps k maps)))
  where
    positive : (size == 0) ≡ false
    positive = ground arith
