-- ===== src/Memory/Vmm.antt =====
-- src/kernel/memory/VirtualMemoryManager.cpp: the maps of virtual regions and their traversals.
-- The kernel's map and the current process's are trees ordered by virtual address. The callbacks,
-- which the source passes as closures over their variables, change a state `S` and say whether
-- to go on. Locks are left out: each operation runs alone.
pub mod Layout
pub mod Gaps
pub mod FreeRegion
pub mod Regions
pub mod Lookup
pub mod CheckFree
pub mod Upkeep
pub mod Placement
use ow_os.Common.{
  ℕ, suc, ◌+◌, ◌-◌, Bool, true, false, not, ◌&&◌, Option, none, some, List, [], ◌∷◌, ltb, leb, ◌==◌,
  if◌then◌else◌, word_max, add32, sub32, Result, ok, err, panicked, ◌>>=◌, ◌>>◌, assert,
}
use ow_os.Common.Int.{ℤ, pos, negsuc}
use ow_os.AvlTree.{Tree, traverse, find_by, insert, remove}
use ow_os.Memory.Region.{
  Region, end, overlaps, contains, MemoryRegion, MappingConfig, virt_region, virt_key,
  default_config,
}

-- `_virtual_addr` of src/kernel/arch/i686/linker.ld: where the kernel's half begins.
abbrev pub kernel_base : ℕ
kernel_base = 0xC0000000

unfoldable pub in_kernel_space : ℕ → Bool
in_kernel_space address = leb kernel_base address

-- The map of the kernel and `userland_map` of the current memory space.
pub record Maps : Type 0 where
  pub kernel_map : Tree MemoryRegion
  pub userland_map : Tree MemoryRegion

abbrev pub map_of : Maps → Bool → Tree MemoryRegion
map_of m true = m.kernel_map
map_of m false = m.userland_map

abbrev pub space_start : Bool → ℕ
space_start true = kernel_base
space_start false = 0

abbrev pub space_end : Bool → ℕ
space_end true = word_max
space_end false = kernel_base

-- A region that stands for a gap. The source's second one has `userspace` set afterwards.
abbrev pub free_region : ℕ → ℕ → Bool → MemoryRegion
free_region address size userspace = record {
  virt_address = address;
  phys_address = 0;
  size = size;
  mapped = false;
  present = false;
  allocated = false;
  config = record default_config { userspace = userspace };
}

abbrev pub set_userspace : MemoryRegion → Bool → MemoryRegion
set_userspace r userspace = record r { config = record (r.config) { userspace = userspace } }

-- The variables that `traversal_callback` captures.
pub record Walk (S : Type 0) : Type 0 where
  pub last : MemoryRegion
  pub do_continue : Bool
  pub state : S

-- `last` before the first region: `mapped`, `size` and `virt_address` are set, the rest is not read.
abbrev pub no_region : Bool → MemoryRegion
no_region is_kernel_space = free_region (space_start is_kernel_space) 0 false

-- The region from the last mapped one to the end of the space.
abbrev pub tail_region : Bool → MemoryRegion → MemoryRegion
tail_region is_kernel_space last =
    let start =
      if last.mapped then add32 (end (virt_region last)) 1 else space_start is_kernel_space in
    free_region start (sub32 (space_end is_kernel_space) start) (not is_kernel_space)

module _ {S : Type 0} (callback : S → MemoryRegion → S × Bool) (is_kernel_space : Bool) where
  -- The region itself is passed on, and remembered, after the gap below it.
  abbrev pub visit_region : Walk S → MemoryRegion → Walk S × Bool
  visit_region w region =
      if w.do_continue
      then (let (s, go) = callback w.state region in
          (record { last = region; do_continue = go; state = s }, go))
      else (record { last = region; do_continue = false; state = w.state }, false)

  -- `traversal_callback`. With a gap it is `region` whose `userspace` is set.
  pub visit : Walk S → MemoryRegion → Walk S × Bool
  unfolding end
  visit w region =
      let start = add32 (end (virt_region w.last)) 1 in
      if not (start == region.virt_address)
      then (let gap = free_region start (sub32 region.virt_address start) false in
          let (s, go) = callback w.state gap in
          visit_region (record { last = w.last; do_continue = go; state = s })
            (set_userspace region (not is_kernel_space)))
      else visit_region w region

  pub traverse_all : Maps → S → Result S
  unfolding visit end
  traverse_all maps s = do
    w ←
        traverse visit (record { last = no_region is_kernel_space; do_continue = true; state = s })
          (map_of maps is_kernel_space)
    if w.do_continue
        then ok (callback w.state (tail_region is_kernel_space w.last)).0
        else ok w.state

module _ {S : Type 0} (callback : S → MemoryRegion → S × Bool) where
  abbrev pub on_unmapped : S → MemoryRegion → S × Bool
  on_unmapped s region = if not region.mapped then callback s region else (s, true)

  abbrev pub on_mapped : S → MemoryRegion → S × Bool
  on_mapped s region = if region.mapped then callback s region else (s, true)

  unfoldable pub traverse_unmapped : Bool → Maps → S → Result S
  unfolding traverse_all
  traverse_unmapped is_kernel_space maps s = traverse_all on_unmapped is_kernel_space maps s

  pub traverse_mapped : Bool → Maps → S → Result S
  unfolding traverse_all
  traverse_mapped is_kernel_space maps s = traverse_all on_mapped is_kernel_space maps s

-- The closure of `find_free_region`: the state is `min_size` and `min_region`.
abbrev pub best_fit : ℕ → ℕ × Region → MemoryRegion → (ℕ × Region) × Bool
best_fit size (min_size, min_region) mem_region =
    if ltb mem_region.size min_size && leb size mem_region.size
    then ((mem_region.size, virt_region mem_region), not (mem_region.size == size))
    else ((min_size, min_region), true)

unfoldable pub find_free_region : Maps → ℕ → Bool → Result Region
find_free_region maps size is_kernel_space = do
  assert (not (size == 0))
  (min_size, min_region) ←
      traverse_unmapped (best_fit size) is_kernel_space maps
        (word_max, record { address = 0; size = 0 })
  if min_region.size == 0 then err panicked else ok min_region

-- The closure of `find_region`.
abbrev pub locate : ℕ → MemoryRegion → ℤ
locate virtual_addr region =
    if contains (virt_region region) virtual_addr
    then pos 0
    else if ltb region.virt_address virtual_addr
    then negsuc 0
    else pos 1

pub find_region : Maps → ℕ → Option MemoryRegion
unfolding find_by in_kernel_space contains
find_region maps virtual_addr =
    find_by (locate virtual_addr) (map_of maps (in_kernel_space virtual_addr))

abbrev pub clear_of : Region → Bool → MemoryRegion → Bool × Bool
clear_of region free mem_region =
    if overlaps (virt_region mem_region) region then (false, false) else (free, true)

pub check_free : Maps → Region → Result Bool
unfolding traverse_mapped overlaps in_kernel_space
check_free maps region =
    traverse_mapped (clear_of region) (in_kernel_space region.address) maps true
