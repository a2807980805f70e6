-- ===== src/Memory/Physical/Upkeep.antt =====
-- What the operations of src/kernel/memory/PhysicalMemoryManager.cpp on the bitmaps leave as it is.
use ow_os.Common.{
  ℕ, zero, suc, ◌-◌, ◌*◌, ◌/◌, ◌^◌, ◌≤◌, ◌<◌, ◌≡◌, refl, ap, ◌∙◌, subst, true, List, [], ◌∷◌,
  length, All, arith, word, get_elem?, some, if◌then◌else◌,
}
use ow_os.Memory.Physical.{Buddy, Physical, set_last_alloc}
use ow_os.Memory.Physical.Marking.{Fits, Spans, Nested, in_span}
use ow_os.Memory.Physical.Blocks.{Sized, page_bit, twice}

-- The number of blocks at each level.
unfoldable pub Counted : ℕ → List Buddy → Type 0
Counted count [] = Unit {0}
Counted count (buddy ∷ buddies) = (buddy.page_count ≡ count) × Counted (count / 2) buddies

abbrev pub IsRoomy : Buddy → Type 0
IsRoomy buddy = buddy.page_count ≤ 32 * buddy.bitmap.dwords

-- The manager of so many pages: eight levels of blocks with bitmaps that have room for all of them, in
-- which a block is free only if its halves are.
pub record IsManager (pages : ℕ) (m : Physical) : Type 0 where
  pub levels : length m.buddies ≡ 8
  pub nested : Nested m.buddies
  pub sized : Sized 0x1000 m.buddies
  pub counted : Counted pages m.buddies
  pub fits : Fits m.buddies (pages - 1)
  pub room : All IsRoomy m.buddies
  pub pages_le : pages ≤ 2 ^ 20
  pub usable : m.usable_mem_size < word

-- The same but for bits and the last allocation.
unfoldable pub Same : List Buddy → List Buddy → Type 0
Same [] [] = Unit {0}
Same [] (new ∷ news) = ⊥
Same (old ∷ olds) [] = ⊥
Same (old ∷ olds) (new ∷ news) =
    ((new.page_size ≡ old.page_size)
      × (new.page_count ≡ old.page_count)
      × (new.bitmap.dwords ≡ old.bitmap.dwords))
    × Same olds news

-- What only depends on that.
abbrev Shape : ℕ → ℕ → ℕ → List Buddy → Type 0
Shape size count page buddies =
    Sized size buddies × Counted count buddies × Fits buddies page × All IsRoomy buddies

Same-Shape :
    (size count page : ℕ) (olds news : List Buddy)
    → Same olds news
    → Shape size count page olds
    → (length news ≡ length olds) × Shape size count page news
unfolding Same Sized Counted Fits
Same-Shape size count page [] [] s h = (refl, h)
Same-Shape size count page [] (new ∷ news) s h = absurd s
Same-Shape size count page (old ∷ olds) [] s h = absurd s
Same-Shape size count page (old ∷ olds) (new ∷ news) s (sized, counted, fits, room) =
    let (long, more) =
      Same-Shape (2 * size) (count / 2) (page / 2) olds news s.1
        (sized.1, counted.1, fits.1, room.1) in
    (
      ap suc long,
      (
        (s.0.0 ∙ sized.0, more.0),
        (s.0.1 ∙ counted.0, more.1),
        (omega (arith, s.0.2, fits.0), more.2),
        (omega (arith, s.0.1, s.0.2, room.0), more.3),
      ),
    )

Spans-Same : (begin end : ℕ) (olds news : List Buddy) → Spans begin end olds news → Same olds news
unfolding Spans Same
Spans-Same begin end [] [] s = tt
Spans-Same begin end [] (new ∷ news) s = absurd s
Spans-Same begin end (old ∷ olds) [] s = absurd s
Spans-Same begin end (old ∷ olds) (new ∷ news) s =
    let e : new ≡ record old { bitmap = new.bitmap } = s.0.0 in
    (
      (ap (λ (x : Buddy). x.page_size) e, ap (λ (x : Buddy). x.page_count) e, s.0.1.0),
      Spans-Same (begin / 2) (end / 2) olds news s.1,
    )

set_last_alloc-Same :
    (page count : ℕ) (buddies : List Buddy) → Same buddies (set_last_alloc page count buddies)
unfolding Same set_last_alloc
set_last_alloc-Same page count [] = tt
set_last_alloc-Same page count (buddy ∷ buddies) =
    ((refl, refl, refl), set_last_alloc-Same (page / 2) (count / 2) buddies)

pub set_last_alloc-Nested :
    (page count : ℕ) (buddies : List Buddy)
    → Nested buddies
    → Nested (set_last_alloc page count buddies)
unfolding Nested set_last_alloc
set_last_alloc-Nested page count [] n = n
set_last_alloc-Nested page count (buddy ∷ []) n = n
set_last_alloc-Nested page count (buddy ∷ next ∷ buddies) n =
    (n.0, set_last_alloc-Nested (page / 2) (count / 2) (next ∷ buddies) n.1)

pub set_last_alloc-page_bit :
    (page count at : ℕ) (buddies : List Buddy)
    → page_bit (set_last_alloc page count buddies) at ≡ page_bit buddies at
unfolding set_last_alloc
set_last_alloc-page_bit page count at [] = refl
set_last_alloc-page_bit page count at (buddy ∷ buddies) = refl

-- A manager with other bits is one again, if blocks are free only when their halves are.
pub Same-IsManager :
    (pages used explicit : ℕ) (m : Physical) (news : List Buddy)
    → IsManager pages m
    → Same m.buddies news
    → Nested news
    → IsManager pages
        (record m { buddies = news; used_memory = used; explicit_used_memory = explicit })
Same-IsManager pages used explicit m news i s n =
    let (long, shape) =
      Same-Shape 0x1000 pages (pages - 1) m.buddies news s (i.sized, i.counted, i.fits, i.room) in
    record {
      levels = long ∙ i.levels;
      nested = n;
      sized = shape.0;
      counted = shape.1;
      fits = shape.2;
      room = shape.3;
      pages_le = i.pages_le;
      usable = i.usable;
    }

-- A manager whose pages of a span were marked, and whose last allocation was set, is one again.
pub marked-IsManager :
    (pages begin end page count used explicit : ℕ) (m : Physical) (news : List Buddy)
    → IsManager pages m
    → Spans begin end m.buddies news
    → Nested news
    → IsManager pages (record m {
      buddies = set_last_alloc page count news;
      used_memory = used;
      explicit_used_memory = explicit;
    })
marked-IsManager pages begin end page count used explicit m news i s n =
    Same-IsManager pages used explicit (record m { buddies = news })
      (set_last_alloc page count news)
      (Same-IsManager pages m.used_memory m.explicit_used_memory m news i
        (Spans-Same begin end m.buddies news s) n)
      (set_last_alloc-Same page count news) (set_last_alloc-Nested page count news n)

-- The pages of a level's blocks are pages of the manager.
pub Counted-get :
    (pages k : ℕ) (buddies : List Buddy) (buddy : Buddy)
    → Counted pages buddies
    → get_elem? buddies k ≡ some buddy
    → buddy.page_count * 2 ^ k ≤ pages
unfolding Counted
Counted-get pages k [] buddy c e = cc
Counted-get pages zero (b ∷ buddies) buddy c e =
    let same : buddy ≡ b = cc e in
    let count = ap (λ (x : Buddy). x.page_count) same ∙ c.0 in omega (arith, count)
Counted-get pages (suc k) (b ∷ buddies) buddy c e =
    omega (arith, twice buddy.page_count k, Counted-get (pages / 2) k buddies buddy c.1 e)

pub Fits-mono :
    (page last : ℕ) (buddies : List Buddy) → page ≤ last → Fits buddies last → Fits buddies page
unfolding Fits
Fits-mono page last [] h f = tt
Fits-mono page last (b ∷ buddies) h f =
    (omega (arith, f.0), Fits-mono (page / 2) (last / 2) buddies (omega arith) f.1)

pub room-get :
    (k : ℕ) (buddies : List Buddy) (buddy : Buddy)
    → All IsRoomy buddies
    → get_elem? buddies k ≡ some buddy
    → IsRoomy buddy × (k < length buddies)
room-get k [] buddy r e = cc
room-get zero (b ∷ buddies) buddy r e =
    let same : b ≡ buddy = cc e in (subst IsRoomy same r.0, omega arith)
room-get (suc k) (b ∷ buddies) buddy r e =
    let (roomy, below) = room-get k buddies buddy r.1 e in (roomy, omega (arith, below))

pub Spans-page_bit :
    (begin end page : ℕ) (olds news : List Buddy)
    → Spans begin end olds news
    → 0 < length olds
    → page_bit news page ≡ (if in_span begin end page then true else page_bit olds page)
unfolding Spans
Spans-page_bit begin end page [] news s h = absurd (omega arith)
Spans-page_bit begin end page (old ∷ olds) [] s h = absurd s
Spans-page_bit begin end page (old ∷ olds) (new ∷ news) s h = s.0.1.1 page
