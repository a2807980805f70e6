-- ===== src/Memory/Vmm/Regions.antt =====
-- The operations of src/kernel/memory/VirtualMemoryManager.cpp that change the maps. The page
-- tables (src/kernel/arch/i686/memory.cpp) and the physical memory manager are what `Machine` says
-- of them: a state of each and the calls that are made.
use ow_os.Common.{
  ℕ, Bool, true, false, not, none, some, Result, ok, ◌>>=◌, ◌>>◌, assert, assert_failed, or_fault,
  add32, sub32, if◌then◌else◌,
}
use ow_os.AvlTree.{Tree, insert, remove}
use ow_os.Libk.Math.{round_up_to_multiple, round_down_to_multiple, page_size}
use ow_os.Memory.Region.{end, MemoryRegion, MappingConfig, virt_key, default_config}
use ow_os.Memory.Vmm.{Maps, map_of, in_kernel_space, find_free_region, find_region}

-- `Arch::map` and `Arch::unmap`; `PhysicalMemoryManager::alloc` and `free`.
pub record Machine : Type 1 where
  pub Paging : Type 0
  pub arch_map : Paging → ℕ → ℕ → ℕ → MappingConfig → Paging
  pub arch_unmap : Paging → ℕ → ℕ → Paging
  pub Physical : Type 0
  pub physical_alloc : Physical → ℕ → ℕ → ℕ → ℕ → Result (Physical × ℕ)
  pub physical_free : Physical → ℕ → ℕ → Physical

abbrev pub set_map : Maps → Bool → Tree MemoryRegion → Maps
set_map m true t = record m { kernel_map = t }
set_map m false t = record m { userland_map = t }

-- `return {}`
abbrev pub no_mapping : MemoryRegion
no_mapping = record {
  virt_address = 0;
  phys_address = 0;
  size = 0;
  mapped = false;
  present = false;
  allocated = false;
  config = default_config;
}

abbrev pub new_mapping : ℕ → ℕ → ℕ → MappingConfig → MemoryRegion
new_mapping phys_address virt_address size config = record {
  virt_address = virt_address;
  phys_address = phys_address;
  size = size;
  mapped = true;
  present = true;
  allocated = false;
  config = config;
}

module _ (m : Machine) where
  open m use {Paging, arch_map, arch_unmap, Physical, physical_alloc, physical_free}

  -- The manager, the current process's memory space, and the physical memory.
  pub record Vmm : Type 0 where
    pub maps : Maps
    pub paging : Paging
    pub physical : Physical

  unfoldable pub map : Vmm → ℕ → ℕ → ℕ → MappingConfig → Result (Vmm × MemoryRegion)
  map v phys_address virt_address size config = do
    let k = in_kernel_space virt_address
    let region = new_mapping phys_address virt_address size config
    tree ← insert virt_key region (map_of v.maps k)
    ok (
      record v {
        maps = set_map v.maps k tree;
        paging = arch_map v.paging phys_address virt_address size config;
      },
      region,
    )

  unfoldable pub unmap : Vmm → MemoryRegion → Result Vmm
  unmap v region = do
    let k = in_kernel_space region.virt_address
    (tree, found) ← remove virt_key region (map_of v.maps k)
    ok (record v {
      maps = set_map v.maps k tree;
      paging = arch_unmap v.paging region.virt_address region.size;
    })

  unfoldable pub allocate_region : Vmm → ℕ → MappingConfig → Result (Vmm × MemoryRegion)
  unfolding end
  allocate_region v bytes config = do
    let size = round_up_to_multiple bytes page_size
    (physical, phys_addr) ←
        physical_alloc v.physical size config.bounds.address (end config.bounds) config.alignment
    region ← find_free_region v.maps size (not config.userspace)
    map (record v { physical = physical }) phys_addr region.address size config

  unfoldable pub allocate_region_at : Vmm → ℕ → ℕ → MappingConfig → Result (Vmm × MemoryRegion)
  unfolding end
  allocate_region_at v virt_addr bytes config = do
    let address = round_down_to_multiple virt_addr page_size
    let size = round_up_to_multiple (add32 bytes (sub32 virt_addr address)) page_size
    (physical, phys_addr) ←
        physical_alloc v.physical size config.bounds.address (end config.bounds) config.alignment
    elim (find_region v.maps address) [
      | some r ↦ ok (record v { physical = physical }, no_mapping)
      | none ↦ map (record v { physical = physical }) phys_addr address size config
    ]

  unfoldable pub map_region : Vmm → ℕ → ℕ → MappingConfig → Result (Vmm × MemoryRegion)
  map_region v phys_addr bytes config = do
    let address = round_down_to_multiple phys_addr page_size
    let size = round_up_to_multiple (add32 bytes (sub32 phys_addr address)) page_size
    region ← find_free_region v.maps size (not config.userspace)
    map v address region.address size config

  unfoldable pub map_region_at : Vmm → ℕ → ℕ → ℕ → MappingConfig → Result (Vmm × MemoryRegion)
  map_region_at v phys_addr virt_addr bytes config =
      let address = round_down_to_multiple virt_addr page_size in
      let size = round_up_to_multiple (add32 bytes (sub32 virt_addr address)) page_size in
      elim (find_region v.maps address) [
        | some r ↦ ok (v, no_mapping)
        | none ↦ map v phys_addr address size config
      ]

  -- `free(const memory_region_t &)`
  unfoldable pub free_mapping : Vmm → MemoryRegion → Result Vmm
  free_mapping v region = do
    assert region.mapped
    v' ← unmap v region
    if not region.allocated then ok v' else (do
      assert region.present
      ok (record v' { physical = physical_free v'.physical region.phys_address region.size }))

  -- `free(void *)`
  unfoldable pub free : Vmm → ℕ → Result Vmm
  unfolding free_mapping
  free v ptr = do region ← or_fault (find_region v.maps ptr) assert_failed; free_mapping v region
