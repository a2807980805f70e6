-- ===== src/Tests/Physical.antt =====
-- Runs of src/kernel/memory/PhysicalMemoryManager.cpp with eight pages, of which the first is used.
use ow_os.Common.{
  ℕ, ◌*◌, ◌≡◌, refl, false, [], ◌∷◌, ◌==◌, arith, get_elem?, some, ok, if◌then◌else◌,
}
use ow_os.Memory.Physical.{Physical, Buddy, Bitmap, alloc, free, get_buddy, units, page_size}
use ow_os.Memory.Physical.Marking.{in_span, Fits, Nested, IsPaired}
use ow_os.Memory.Physical.Blocks.{page_bit, Sized}
use ow_os.Memory.Physical.Upkeep.{IsManager, Counted}
use ow_os.Memory.Physical.Alloc.{IsTaken, alloc-IsTaken}
use ow_os.Memory.Physical.Release.{free-IsManager}

abbrev first_used : Bitmap
first_used = record { dwords = 1; bit = λ j. j == 0 }

abbrev level : ℕ → ℕ → Buddy
level size count = record {
  page_size = size;
  page_count = count;
  last_alloc = 0;
  bitmap = first_used;
}

abbrev small : Physical
small = record {
  buddies =
      level 0x1000 8
      ∷ level 0x2000 4
      ∷ level 0x4000 2
      ∷ level 0x8000 1
      ∷ level 0x10000 0
      ∷ level 0x20000 0
      ∷ level 0x40000 0
      ∷ level 0x80000 0
      ∷ [];
  usable_mem_size = 0x8000;
  used_memory = 0x1000;
  explicit_used_memory = 0x1000;
}

first_used-IsPaired : IsPaired first_used first_used
first_used-IsPaired j e = (ground arith, ground arith)

small-Nested : Nested small.buddies
unfolding Nested
small-Nested = let p = first_used-IsPaired in (p, (p, (p, (p, (p, (p, (p, tt)))))))

small-Sized : Sized 0x1000 small.buddies
unfolding Sized
small-Sized = (refl, (refl, (refl, (refl, (refl, (refl, (refl, (refl, tt))))))))

small-Counted : Counted 8 small.buddies
unfolding Counted
small-Counted = (refl, (refl, (refl, (refl, (refl, (refl, (refl, (refl, tt))))))))

small-Fits : Fits small.buddies 7
unfolding Fits
small-Fits = (
  omega arith,
  (
    omega arith,
    (omega arith, (omega arith, (omega arith, (omega arith, (omega arith, (omega arith, tt)))))),
  ),
)

small-IsManager : IsManager 8 small
small-IsManager = record {
  levels = refl;
  nested = small-Nested;
  sized = small-Sized;
  counted = small-Counted;
  fits = small-Fits;
  room = (
    omega arith,
    (
      omega arith,
      (omega arith, (omega arith, (omega arith, (omega arith, (omega arith, (omega arith, tt)))))),
    ),
  );
  pages_le = omega arith;
  usable = omega arith;
}

second_level : get_elem? small.buddies (get_buddy 5000 small.buddies) ≡ some (level 0x2000 4)
unfolding get_buddy
second_level = refl

alloc-IsTaken_example :
    (first : ℕ) × (m' : Physical) × (alloc 5000 0 0xFFFFFFFF 0 small ≡ ok (first * 0x1000, m'))
    × IsTaken first (units 5000 page_size) small m'
    × IsManager 8 m'
alloc-IsTaken_example =
    alloc-IsTaken 8 5000 0 0xFFFFFFFF 1 (level 0x2000 4) small small-IsManager second_level
      (omega arith) (omega arith) (omega arith) (refl, omega arith) (omega arith) (omega arith)
      (omega arith)

free-IsManager_example :
    (m' : Physical) × (free 0x2000 5000 small ≡ ok m')
    × ((at : ℕ)
        → page_bit m'.buddies at ≡ (if in_span 2 4 at then false else page_bit small.buddies at))
    × IsManager 8 m'
free-IsManager_example =
    free-IsManager 8 0x2000 5000 (level 0x2000 4) small small-IsManager second_level (omega arith)
      (omega arith)
