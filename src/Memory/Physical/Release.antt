-- ===== src/Memory/Physical/Release.antt =====
-- `mark_free` and `free` of src/kernel/memory/PhysicalMemoryManager.cpp.
use ow_os.Common.{
  ◌⊎◌, ℕ, suc, ◌+◌, ◌-◌, ◌*◌, ◌/◌, ◌≤◌, ◌<◌, ◌≡◌, refl, sym, ap, ◌∙◌, Bool, inl, inr, true, false,
  not, ◌&&◌, List, [], ◌∷◌, if◌then◌else◌, arith, add32, sub32, mul32, get_elem?, length, some, ok,
}
use ow_os.Memory.Physical.{
  Bitmap, Buddy, Physical, free_levels, mark_free, free, get_buddy, page_size,
}
use ow_os.Memory.Physical.Marking.{in_span, mark_span-IsMarked, Fits, Nested, IsPaired}
use ow_os.Memory.Physical.Blocks.{page_bit}
use ow_os.Memory.Physical.Freeing.{is_free, IsFreed, free_pairs-IsFreed}
use ow_os.Memory.Physical.Upkeep.{IsManager, Same, Same-IsManager, Fits-mono}

-- Bits were only cleared.
abbrev IsCleared : Bitmap → Bitmap → Type 0
IsCleared b b' = (k : ℕ) → b.bit k ≡ false → b'.bit k ≡ false

freed_cases :
    (span one two old : Bool)
    → (if span && (not one && not two) then false else old) ≡ false
    → ((one ≡ false) × (two ≡ false)) ⊎ (old ≡ false)
freed_cases true false false old h = inl (refl, refl)
freed_cases true true two old h = inr h
freed_cases true false true old h = inr h
freed_cases false one two old h = inr h

freed_stays : (test old : Bool) → old ≡ false → (if test then false else old) ≡ false
freed_stays true old h = refl
freed_stays false old h = h

IsFreed-IsPaired :
    (from to : ℕ) (lower lower' upper upper' : Bitmap)
    → IsPaired lower upper
    → IsCleared lower lower'
    → IsFreed from to lower' upper upper'
    → IsPaired lower' upper' × IsCleared upper upper'
IsFreed-IsPaired from to lower lower' upper upper' paired less freed = (pairs, cleared)
  where
    cleared : IsCleared upper upper'
    cleared k e = freed.1 k ∙ freed_stays (in_span from to k && is_free lower' k) (upper.bit k) e

    pairs : IsPaired lower' upper'
    pairs j e =
        elim (freed_cases (in_span from to j) (lower'.bit (j * 2)) (lower'.bit (j * 2 + 1))
          (upper.bit j) (sym (freed.1 j) ∙ e)) [
            | inl (one, two) ↦
                (ap lower'.bit (omega arith) ∙ one, ap lower'.bit (omega arith) ∙ two)
            | inr old ↦ (less (2 * j) (paired j old).0, less (2 * j + 1) (paired j old).1)
          ]

free_levels-Nested :
    (begin end : ℕ) (buddy : Buddy) (lower' : Bitmap) (buddies : List Buddy)
    → Nested (buddy ∷ buddies)
    → IsCleared buddy.bitmap lower'
    → end / 32 < lower'.dwords
    → Fits buddies (end / 2)
    → (news : List Buddy) × (free_levels begin end lower' buddies ≡ ok news)
      × Nested (record buddy { bitmap = lower' } ∷ news)
      × Same buddies news
unfolding free_levels Nested Fits Same
free_levels-Nested begin end buddy lower' [] n less low fits = ([], refl, tt, tt)
free_levels-Nested begin end buddy lower' (next ∷ buddies) n less low fits =
    let (b, eq, freed) =
      free_pairs-IsFreed (suc (end / 2) - begin / 2) (begin / 2) (end / 2) lower' next.bitmap
        (omega arith) (omega (arith, low)) fits.0 in
    let (paired, cleared) =
      IsFreed-IsPaired (begin / 2) (end / 2) buddy.bitmap lower' next.bitmap b n.0 less freed in
    let (news, eq', nested, same) =
      free_levels-Nested (begin / 2) (end / 2) next b buddies n.1 cleared
        (omega (arith, freed.0, fits.0)) fits.1 in
    (
      record next { bitmap = b } ∷ news,
      rw (eq, eq') refl,
      (paired, nested),
      ((refl, refl, freed.0), same),
    )

mark_free-Nested :
    (begin end : ℕ) (buddies : List Buddy)
    → 0 < length buddies
    → Nested buddies
    → Fits buddies end
    → (news : List Buddy) × (mark_free begin end buddies ≡ ok news)
      × Nested news
      × Same buddies news
      × ((page : ℕ)
          → page_bit news page ≡ (if in_span begin end page then false else page_bit buddies page))
unfolding mark_free Fits Same
mark_free-Nested begin end [] h n fits = absurd (omega arith)
mark_free-Nested begin end (buddy ∷ buddies) h n fits =
    let (b, eq, (words, bits)) =
      mark_span-IsMarked false (suc end - begin) begin end buddy.bitmap (omega arith) fits.0 in
    let (news, eq', nested, same) =
      free_levels-Nested begin end buddy b buddies n
        (λ k e. bits k ∙ freed_stays (in_span begin end k) (buddy.bitmap.bit k) e)
        (omega (arith, words, fits.0)) fits.1 in
    (
      record buddy { bitmap = b } ∷ news,
      rw (eq, eq') refl,
      nested,
      ((refl, refl, words), same),
      bits,
    )

free-ok :
    (page size last : ℕ) (buddy : Buddy) (m : Physical) (news : List Buddy)
    → get_elem? m.buddies (get_buddy size m.buddies) ≡ some buddy
    → sub32 (add32 (page / page_size) (sub32 (add32 size buddy.page_size) 1 / page_size)) 1 ≡ last
    → mark_free (page / page_size) last m.buddies ≡ ok news
    → free page size m
      ≡ ok (record m {
        buddies = news;
        used_memory =
            sub32 m.used_memory
              (mul32 (sub32 (add32 size buddy.page_size) 1 / page_size) page_size);
        explicit_used_memory = sub32 m.explicit_used_memory size;
      })
unfolding free
free-ok page size last buddy m news e l eq = rw (e, l, eq) refl

-- Memory that is given back in a manager in which a block is free only if all its halves are, and
-- whose bitmaps have room for all pages: the pages from its first on are free, as many as `free`
-- counts from the size and the size of a block of its level, if that is one at least and they are
-- pages of the manager; the other pages are as they were, and the manager is again as described.
pub free-IsManager :
    (pages page size : ℕ) (buddy : Buddy) (m : Physical)
    → IsManager pages m
    → get_elem? m.buddies (get_buddy size m.buddies) ≡ some buddy
    → 0 < sub32 (add32 size buddy.page_size) 1 / page_size
    → page / page_size + sub32 (add32 size buddy.page_size) 1 / page_size ≤ pages
    → (m' : Physical) × (free page size m ≡ ok m')
      × ((at : ℕ)
          → page_bit m'.buddies at ≡ (
              if in_span
                (page / page_size)
                (page / page_size + sub32 (add32 size buddy.page_size) 1 / page_size - 1)
                at
              then false
              else page_bit m.buddies at))
      × IsManager pages m'
free-IsManager pages page size buddy m i e some_pages inside =
    let first = page / page_size in
    let count = sub32 (add32 size buddy.page_size) 1 / page_size in
    let reach : Fits m.buddies (first + count - 1) =
      Fits-mono (first + count - 1) (pages - 1) m.buddies (omega arith) i.fits in
    let (news, eq, nested, same, bits) =
      mark_free-Nested first (first + count - 1) m.buddies (omega (arith, i.levels)) i.nested
        reach in
    let last : sub32 (add32 first count) 1 ≡ first + count - 1 = omega (arith, i.pages_le) in
    (
      _,
      free-ok page size (first + count - 1) buddy m news e last eq,
      bits,
      Same-IsManager pages _ _ m news i same nested,
    )
