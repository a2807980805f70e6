-- ===== src/Memory/Physical/Alloc.antt =====
-- `alloc` of src/kernel/memory/PhysicalMemoryManager.cpp.
use native.Mathlib.Nat.{
  div-eq_of_lt-le, div-le_self, pow-le-pow_right, mul-le-mul_right, mul_left_comm,
}
use ow_os.Common.{
  ℕ, ◌+◌, ◌-◌, ◌*◌, ◌/◌, ◌^◌, ◌≤◌, ◌<◌, ◌≡◌, ◌≢◌, refl, ap, ◌∙◌, subst, min, max, Bool-cases, inl,
  inr, true, false, List, ltb, if◌then◌else◌, ltb→lt, ltb→le, arith, word, add32, sub32, mul32,
  get_elem?, some, ok,
}
use ow_os.Memory.Physical.{
  Physical, Buddy, Request, get_buddy, units, request, search, take_block, alloc, mark_used,
  set_last_alloc, page_size,
}
use ow_os.Memory.Physical.Marking.{Fits, in_span, mark_used-Spans, Spans-Nested}
use ow_os.Memory.Physical.Blocks.{page_bit, Sized-get, free_block-pages}
use ow_os.Memory.Physical.Search.{IsFree, climb, turn}
use ow_os.Memory.Physical.Upkeep.{
  IsManager, marked-IsManager, Counted-get, Fits-mono, room-get, Spans-page_bit,
  set_last_alloc-page_bit,
}

-- One block is enough for what is no larger.
units_one : (size unit : ℕ) → 0 < size → size ≤ unit → unit ≤ 2 ^ 31 → units size unit ≡ 1
units_one size unit pos le small =
    let whole : sub32 (add32 size unit) 1 ≡ size + unit - 1 = omega arith in
    rw whole (div-eq_of_lt-le unit (omega arith) (omega arith))

-- From a free block in the window, other than the one the search begins at, one is found.
search_found :
    (r : Request) (buddy : Buddy) (i0 : ℕ)
    → r.boundary ≡ 0
    → r.needed ≡ 1
    → buddy.page_count ≤ 32 * buddy.bitmap.dwords
    → r.end < word
    → r.start ≤ r.idx_start
    → r.idx_start + 1 < word
    → IsFree buddy i0
    → r.start ≤ i0
    → i0 < r.end
    → (i0 ≢ r.idx_start)
    → (at : ℕ) × (search (2 * r.end + 2) (add32 r.idx_start 1) r buddy ≡ ok at) × IsFree buddy at
search_found r buddy i0 b n room small low fine f from lt other =
    let next : add32 r.idx_start 1 ≡ r.idx_start + 1 = omega arith in
    rw next (elim (Bool-cases (ltb i0 r.idx_start)) [
      | inl e ↦
          turn r buddy (2 * r.end + 2) (r.idx_start + 1) i0 b n room small f from lt (ltb→lt _ _ e)
            (omega arith) (omega (arith, ltb→lt _ _ e))
      | inr e ↦
          let above : r.idx_start < i0 = omega (arith, other, ltb→le _ _ e) in
          climb r buddy (2 * r.end + 2) (r.idx_start + 1) i0 b n room small f (omega (arith, above))
            lt (inl (omega arith)) (omega arith)
    ])

-- The pages of a block.
record Extent (k at : ℕ) (size : ℕ) : Type 0 where
  first : mul32 at (2 ^ k) ≡ at * 2 ^ k
  address : mul32 at (0x1000 * 2 ^ k) ≡ at * 2 ^ k * 0x1000
  last : sub32 (add32 (at * 2 ^ k) (units size page_size)) 1 ≡ at * 2 ^ k + units size page_size - 1
  some_pages : 0 < units size page_size
  no_more : units size page_size ≤ 2 ^ k

extent :
    (k at size pages : ℕ)
    → k < 8
    → 0 < size
    → size ≤ 0x1000 * 2 ^ k
    → (at + 1) * 2 ^ k ≤ pages
    → pages ≤ 2 ^ 20
    → Extent k at size
extent k at size pages level pos le inside small =
    let p : 2 ^ k ≤ 128 = pow-le-pow_right {n = 2} (omega arith) {i = k} {j = 7} (omega arith) in
    let spread : (at + 1) * 2 ^ k ≡ at * 2 ^ k + 2 ^ k = omega arith in
    let swap : at * (0x1000 * 2 ^ k) ≡ at * 2 ^ k * 0x1000 =
      mul_left_comm at 0x1000 (2 ^ k) ∙ omega arith in
    let count : units size page_size ≡ (size + 0xFFF) / 0x1000 = omega (arith, p) in
    record {
      first = omega (arith, p, spread);
      address = omega (arith, swap, spread);
      last = omega (arith, p, spread, count);
      some_pages = omega (arith, count);
      no_more = omega (arith, count);
    }

-- Memory of a size, from a first page on, was free and is now used, and nothing else changed.
abbrev pub IsTaken : ℕ → ℕ → Physical → Physical → Type 0
IsTaken first count m m' =
    ((page : ℕ) → first ≤ page → page < first + count → page_bit m.buddies page ≡ false)
    × ((page : ℕ)
        → page_bit m'.buddies page
          ≡ (if in_span first (first + count - 1) page then true else page_bit m.buddies page))

take_block-ok :
    (size k at first last address : ℕ) (buddy : Buddy) (m : Physical) (news : List Buddy)
    → mul32 at (2 ^ k) ≡ first
    → sub32 (add32 first (units size page_size)) 1 ≡ last
    → mark_used first last m.buddies ≡ ok news
    → mul32 at buddy.page_size ≡ address
    → take_block size k at buddy m
      ≡ ok (
        address,
        record m {
          buddies = set_last_alloc first (units size page_size) news;
          used_memory = add32 m.used_memory (mul32 (units size page_size) page_size);
          explicit_used_memory = add32 m.explicit_used_memory size;
        },
      )
take_block-ok size k at first last address buddy m news f l eq a = rw (f, l, eq, a) refl

-- What the search found is marked.
take_block-IsTaken :
    (pages k at size : ℕ) (buddy : Buddy) (m : Physical)
    → IsManager pages m
    → get_elem? m.buddies k ≡ some buddy
    → 0 < size
    → size ≤ buddy.page_size
    → IsFree buddy at
    → (m' : Physical) × (take_block size k at buddy m ≡ ok (at * 2 ^ k * 0x1000, m'))
      × IsTaken (at * 2 ^ k) (units size page_size) m m'
      × IsManager pages m'
take_block-IsTaken pages k at size buddy m i e pos le free =
    let (news, eq, spans) = mark_used-Spans first (first + count - 1) m.buddies reach in
    let m' : Physical = record m {
      buddies = set_last_alloc first count news;
      used_memory = add32 m.used_memory (mul32 count page_size);
      explicit_used_memory = add32 m.explicit_used_memory size;
    } in
    (
      m',
      take_block-ok size k at first (first + count - 1) (at * 2 ^ k * 0x1000) buddy m news x.first
          x.last eq (ap (mul32 at) sized ∙ x.address),
      (
        was_free,
        (λ page.
            set_last_alloc-page_bit first count page news
            ∙ Spans-page_bit first (first + count - 1) page m.buddies news spans
                (omega (arith, i.levels))),
      ),
      marked-IsManager pages first (first + count - 1) first count _ _ m news i spans
          (Spans-Nested first (first + count - 1) m.buddies news spans i.nested),
    )
  where
    sized : buddy.page_size ≡ 0x1000 * 2 ^ k
    sized = Sized-get 0x1000 k m.buddies buddy i.sized e

    inside : (at + 1) * 2 ^ k ≤ pages
    inside =
        let more =
          mul-le-mul_right {m = at + 1} {n = buddy.page_count} (2 ^ k) (omega (arith, free.1)) in
        omega (arith, more, Counted-get pages k m.buddies buddy i.counted e)

    x : Extent k at size
    x =
        extent k at size pages (omega (arith, (room-get k m.buddies buddy i.room e).1, i.levels))
          pos (omega (arith, sized, le)) inside i.pages_le

    first : ℕ
    first = at * 2 ^ k

    count : ℕ
    count = units size page_size

    reach : Fits m.buddies (first + count - 1)
    reach =
        Fits-mono (first + count - 1) (pages - 1) m.buddies
          (omega (arith, x.no_more, x.some_pages, inside)) i.fits

    was_free : (page : ℕ) → first ≤ page → page < first + count → page_bit m.buddies page ≡ false
    was_free page above below =
        let here : first + (page - first) ≡ page = omega arith in
        subst (λ p. page_bit m.buddies p ≡ false) here
          (free_block-pages k at (page - first) m.buddies buddy i.nested e free.0
            (omega (arith, x.no_more)))

-- A request for memory of some size, no larger than a block of its level, without a boundary, in a
-- manager in which a block is free only if all its halves are, and whose bitmaps have room for all
-- pages: when a block of that level is free in the window of addresses, other than the one that
-- the search begins behind, and there is a word after that one, the call returns memory. All pages
-- of the memory were free, exactly these are used now, and the manager is again as described.
pub alloc-IsTaken :
    (pages size min_address max_address i0 : ℕ) (buddy : Buddy) (m : Physical)
    → IsManager pages m
    → get_elem? m.buddies (get_buddy size m.buddies) ≡ some buddy
    → 0 < size
    → size ≤ buddy.page_size
    → max buddy.last_alloc (units min_address buddy.page_size) + 1 < word
    → IsFree buddy i0
    → units min_address buddy.page_size ≤ i0
    → i0 < min max_address m.usable_mem_size / buddy.page_size
    → (i0 ≢ max buddy.last_alloc (units min_address buddy.page_size))
    → (first : ℕ) × (m' : Physical) × (alloc size min_address max_address 0 m
        ≡ ok (first * 0x1000, m'))
      × IsTaken first (units size page_size) m m'
      × IsManager pages m'
unfolding alloc
alloc-IsTaken pages size min_address max_address i0 buddy m i e pos le fine f from lt other =
    let (at, eq, free) =
      search_found (request size min_address max_address 0 buddy m) buddy i0 refl one
        (room-get k m.buddies buddy i.room e).0 small (omega arith) fine f from lt other in
    let (m', eq', taken, kept) = take_block-IsTaken pages k at size buddy m i e pos le free in
    (at * 2 ^ k, m', rw (e, eq) eq', taken, kept)
  where
    k : ℕ
    k = get_buddy size m.buddies

    level : buddy.page_size ≤ 2 ^ 31
    level =
        let p : 2 ^ k ≤ 128 =
          pow-le-pow_right {n = 2} (omega arith) {i = k} {j = 7}
            (omega (arith, (room-get k m.buddies buddy i.room e).1, i.levels)) in
        omega (arith, p, Sized-get 0x1000 k m.buddies buddy i.sized e)

    one : units size buddy.page_size ≡ 1
    one = units_one size buddy.page_size pos le level

    small : min max_address m.usable_mem_size / buddy.page_size < word
    small = omega (arith, div-le_self (min max_address m.usable_mem_size) buddy.page_size, i.usable)
