-- ===== src/Memory/Physical.antt =====
-- src/kernel/memory/PhysicalMemoryManager.cpp: the pages of memory, and how they are given out. There
-- is a bitmap for the pages, one for the pairs of pages, and so on; a set bit says that some page of
-- the block is used. A bitmap is its number of words and the bits in them.
pub mod Marking
pub mod Blocks
pub mod Search
pub mod Upkeep
pub mod Alloc
pub mod Freeing
pub mod Release
use Prim.Native.Nat.{bit_and}
use ow_os.Common.{
  ℕ, zero, suc, ◌+◌, ◌-◌, ◌*◌, ◌/◌, ◌%◌, ◌^◌, min, max, Bool, true, false, not, ◌&&◌, ◌||◌, Option,
  List, [], ◌∷◌, ltb, leb, ◌==◌, if◌then◌else◌, all_below, add32, sub32, mul32, get_elem?, Result,
  ok, err, out_of_bounds, out_of_fuel, panicked, ◌>>=◌, or_fault,
}

abbrev pub page_size : ℕ
page_size = 0x1000

pub record Bitmap : Type 0 where
  pub dwords : ℕ
  pub bit : ℕ → Bool

-- `buddy_t`
pub record Buddy : Type 0 where
  pub page_size : ℕ
  pub page_count : ℕ
  pub last_alloc : ℕ
  pub bitmap : Bitmap

-- The manager, with the end of usable memory that its map says.
pub record Physical : Type 0 where
  pub buddies : List Buddy
  pub usable_mem_size : ℕ
  pub used_memory : ℕ
  pub explicit_used_memory : ℕ

-- `set_bit` and `clear_bit`
abbrev pub write_bit : Bool → ℕ → Bitmap → Result Bitmap
write_bit value i b =
    if ltb (i / 32) b.dwords
    then ok (record b { bit = λ j. if j == i then value else b.bit j })
    else err out_of_bounds

-- `set_dword` and `clear_dword`
abbrev pub write_dword : Bool → ℕ → Bitmap → Result Bitmap
write_dword value i b =
    if ltb (i / 32) b.dwords
    then ok (record b { bit = λ j. if j / 32 == i / 32 then value else b.bit j })
    else err out_of_bounds

abbrev pub get_bit : ℕ → Bitmap → Result Bool
get_bit i b = if ltb (i / 32) b.dwords then ok (b.bit i) else err out_of_bounds

-- `get_dword(i) == 0`
abbrev pub dword_is_zero : ℕ → Bitmap → Result Bool
dword_is_zero i b =
    if ltb (i / 32) b.dwords
    then ok (all_below 32 (λ off. not (b.bit (i / 32 * 32 + off))))
    else err out_of_bounds

-- The loop that sets or clears the bits from `i` to `end`, a word at a time where it can.
unfoldable pub mark_span : Bool → ℕ → ℕ → ℕ → Bitmap → Result Bitmap
mark_span value zero i end b = if ltb end i then ok b else err out_of_fuel
mark_span value (suc rounds) i end b =
    if ltb end i
    then ok b
    else if i % 32 == 0 && leb 32 (end - i)
    then (do b ← write_dword value i b; mark_span value rounds (i + 32) end b)
    else (do b ← write_bit value i b; mark_span value rounds (i + 1) end b)

unfoldable pub mark_used : ℕ → ℕ → List Buddy → Result (List Buddy)
mark_used span_begin span_end [] = ok []
mark_used span_begin span_end (buddy ∷ buddies) = do
  b ← mark_span true (suc span_end - span_begin) span_begin span_end buddy.bitmap
  rest ← mark_used (span_begin / 2) (span_end / 2) buddies
  ok (record buddy { bitmap = b } ∷ rest)

-- A pair of which no half is used is cleared.
unfoldable pub free_pair : ℕ → Bitmap → Bitmap → Result Bitmap
free_pair j lower upper = do
  one ← get_bit (j * 2) lower
  two ← if one then ok true else get_bit (j * 2 + 1) lower
  if two then ok upper else write_bit false j upper

-- The loop of `mark_free` over the pairs from `j` to `end`.
unfoldable pub free_pairs : ℕ → ℕ → ℕ → Bitmap → Bitmap → Result Bitmap
free_pairs zero j end lower upper = if ltb end j then ok upper else err out_of_fuel
free_pairs (suc rounds) j end lower upper =
    if ltb end j
    then ok upper
    else if j % 32 == 0 && leb 32 (end - j)
    then (do
      one ← dword_is_zero (j * 2) lower
      both ← if one then dword_is_zero (j * 2 + 32) lower else ok false
      b ← if both then write_dword false j upper else free_pair j lower upper
      free_pairs rounds (if both then j + 32 else j + 1) end lower b)
    else (do b ← free_pair j lower upper; free_pairs rounds (j + 1) end lower b)

unfoldable pub free_levels : ℕ → ℕ → Bitmap → List Buddy → Result (List Buddy)
free_levels span_begin span_end lower [] = ok []
free_levels span_begin span_end lower (buddy ∷ buddies) = do
  let from = span_begin / 2
  let to = span_end / 2
  b ← free_pairs (suc to - from) from to lower buddy.bitmap
  rest ← free_levels from to b buddies
  ok (record buddy { bitmap = b } ∷ rest)

unfoldable pub mark_free : ℕ → ℕ → List Buddy → Result (List Buddy)
mark_free span_begin span_end [] = err out_of_bounds
mark_free span_begin span_end (buddy ∷ buddies) = do
  b ← mark_span false (suc span_end - span_begin) span_begin span_end buddy.bitmap
  rest ← free_levels span_begin span_end b buddies
  ok (record buddy { bitmap = b } ∷ rest)

unfoldable pub get_buddy : ℕ → List Buddy → ℕ
get_buddy size [] = 0
get_buddy size (buddy ∷ []) = 0
get_buddy size (buddy ∷ next ∷ buddies) =
    if leb size buddy.page_size then 0 else suc (get_buddy size (next ∷ buddies))

-- `(size + unit - 1) / unit`
abbrev pub units : ℕ → ℕ → ℕ
units size unit = sub32 (add32 size unit) 1 / unit

-- The loop that counts the free blocks at `i`, up to `needed` of them.
unfoldable pub count_free : ℕ → ℕ → ℕ → Buddy → Result ℕ
count_free zero i count buddy = ok count
count_free (suc needed) i count buddy =
    if ltb (add32 i count) buddy.page_count
    then (do
      used ← get_bit i buddy.bitmap
      if used then ok count else count_free needed i (count + 1) buddy)
    else ok count

-- What `alloc` looks for: so many blocks that begin from `start` on and before `end`, after
-- `idx_start` first.
pub record Request : Type 0 where
  pub size : ℕ
  pub boundary : ℕ
  pub needed : ℕ
  pub start : ℕ
  pub end : ℕ
  pub idx_start : ℕ

abbrev pub crosses : Request → ℕ → Bool
crosses r phys_addr =
    not (r.boundary == 0) && not (phys_addr / r.boundary == add32 phys_addr r.size / r.boundary)

-- The loop of `alloc`. The block that it finds, or the panic that no memory is left.
unfoldable pub search : ℕ → ℕ → Request → Buddy → Result ℕ
search zero i r buddy = err out_of_fuel
search (suc rounds) i r buddy =
    let at = if leb r.end i then r.start else i in
    if i == r.idx_start || leb r.end i && r.start == r.idx_start
    then err panicked
    else if crosses r (mul32 at buddy.page_size)
    then search rounds (add32 at 1) r buddy
    else (do
      count ← count_free r.needed at 0 buddy
      if ltb count r.needed then search rounds (add32 (add32 at count) 1) r buddy else ok at)

-- The loop that sets `last_alloc`.
unfoldable pub set_last_alloc : ℕ → ℕ → List Buddy → List Buddy
set_last_alloc page count [] = []
set_last_alloc page count (buddy ∷ buddies) =
    record buddy { last_alloc = sub32 (add32 page count) 1 }
    ∷ set_last_alloc (page / 2) (count / 2) buddies

abbrev pub request : ℕ → ℕ → ℕ → ℕ → Buddy → Physical → Request
request size min_address max_address boundary buddy m = record {
  size = size;
  boundary = boundary;
  needed = units size buddy.page_size;
  start = units min_address buddy.page_size;
  end = min max_address m.usable_mem_size / buddy.page_size;
  idx_start = max buddy.last_alloc (units min_address buddy.page_size);
}

-- `alloc`, after the search.
abbrev pub take_block : ℕ → ℕ → ℕ → Buddy → Physical → Result (ℕ × Physical)
take_block size idx i buddy m = do
  let count = units size page_size
  let page = mul32 i (2 ^ idx)
  buddies ← mark_used page (sub32 (add32 page count) 1) m.buddies
  ok (
    mul32 i buddy.page_size,
    record m {
      buddies = set_last_alloc page count buddies;
      used_memory = add32 m.used_memory (mul32 count page_size);
      explicit_used_memory = add32 m.explicit_used_memory size;
    },
  )

-- The address of the memory. The search has two rounds for each block before `end`, and two more.
unfoldable pub alloc : ℕ → ℕ → ℕ → ℕ → Physical → Result (ℕ × Physical)
alloc size min_address max_address boundary m = do
  let idx = get_buddy size m.buddies
  buddy ← or_fault (get_elem? m.buddies idx) out_of_bounds
  let r = request size min_address max_address boundary buddy m
  i ← search (2 * r.end + 2) (add32 r.idx_start 1) r buddy
  take_block size idx i buddy m

unfoldable pub free : ℕ → ℕ → Physical → Result Physical
free page size m = do
  let idx = get_buddy size m.buddies
  buddy ← or_fault (get_elem? m.buddies idx) out_of_bounds
  let page_count = sub32 (add32 size buddy.page_size) 1 / page_size
  buddies ← mark_free (page / page_size) (sub32 (add32 (page / page_size) page_count) 1) m.buddies
  ok (record m {
    buddies = buddies;
    used_memory = sub32 m.used_memory (mul32 page_count page_size);
    explicit_used_memory = sub32 m.explicit_used_memory size;
  })

unfoldable pub reserve : ℕ → ℕ → Physical → Result Physical
reserve address size m = do
  let start_page = address / page_size
  let page_count = add32 (bit_and (sub32 size 1) 0xFFFFF000) page_size / page_size
  buddies ← mark_used start_page (add32 start_page page_count) m.buddies
  ok (record m {
    buddies = buddies;
    used_memory = add32 m.used_memory (mul32 page_count page_size);
    explicit_used_memory = add32 m.explicit_used_memory size;
  })
