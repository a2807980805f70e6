-- ===== src/Memory/Vmm/Placement.antt =====
-- `map`, `map_region` and `allocate_region` of src/kernel/memory/VirtualMemoryManager.cpp: where a
-- new region lies, and what `free` gives back.
use ow_os.Common.{
  ℕ, ◌≡◌, ◌⊎◌, Bool, true, false, not, if◌then◌else◌, Result, ok, err, panicked, ◌>>=◌, arith,
  >>=-eq-ok, assert,
}
use ow_os.AvlTree.{insert, remove}
use ow_os.AvlTree.Shape.{inorder}
use ow_os.AvlTree.Order.{insert_sorted}
use ow_os.Libk.Math.{round_up_to_multiple, page_size}
use ow_os.Memory.Region.{end, MemoryRegion, MappingConfig, virt_key}
use ow_os.Memory.Vmm.{Maps, map_of, in_kernel_space, find_free_region}
use ow_os.Memory.Vmm.FreeRegion.{IsFreeRange}
use ow_os.Memory.Vmm.Regions.{Machine, Vmm, new_mapping, map, allocate_region, free_mapping, unmap}
use ow_os.Memory.Vmm.Upkeep.{IsTidy}

module _ (m : Machine) where
  -- The maps after a region was added to the space `k`: it lies in addresses that were free, the
  -- other regions are there as before, and the maps are tidy.
  pub record HasAdded (maps maps' : Maps) (k : Bool) (region : MemoryRegion) : Type 0 where
    pub free : IsFreeRange maps k region.virt_address region.size
    pub mapped : region.mapped ≡ true
    pub regions : inorder (map_of maps' k) ≡ insert_sorted virt_key region (inorder (map_of maps k))
    pub other : map_of maps' (not k) ≡ map_of maps (not k)
    pub tidy : IsTidy maps'

  -- The end of an operation that looks for a place and maps it.
  abbrev pub Placed : Vmm m → Bool → ℕ → Result (Vmm m × MemoryRegion) → Type 0
  Placed v k size outcome =
      ((v' : Vmm m) × (region : MemoryRegion) × (outcome ≡ ok (v', region))
        × (region.size ≡ size)
        × (region.allocated ≡ false)
        × HasAdded v.maps v'.maps k region
        × (v'.physical ≡ v.physical))
      ⊎ ((outcome ≡ err panicked) × ((address : ℕ) → ¬ IsFreeRange v.maps k address size))

  -- The regions that `map` makes are not marked as allocated.
  map-allocated :
      (v v' : Vmm m) (phys address size : ℕ) (config : MappingConfig) (region : MemoryRegion)
      → map m v phys address size config ≡ ok (v', region)
      → (region.allocated ≡ false) × (region.mapped ≡ true)
  unfolding map
  map-allocated v v' phys address size config region eq =
      let (t, e, e') =
        >>=-eq-ok
          (insert virt_key (new_mapping phys address size config)
            (map_of v.maps (in_kernel_space address)))
          _ eq in
      ground (arith, e')

  unmap-physical :
      (v v' : Vmm m) (region : MemoryRegion) → unmap m v region ≡ ok v' → v'.physical ≡ v.physical
  unfolding unmap
  unmap-physical v v' region eq =
      let (t, e, e') =
        >>=-eq-ok (remove virt_key region (map_of v.maps (in_kernel_space region.virt_address))) _
          eq in
      ground (arith, e')

  -- The physical memory that `allocate_region` took for a region is not given back when the region
  -- is freed: when both calls succeed, `free` leaves the physical memory as it is.
  pub allocate_region-free_mapping :
      (v v₁ v₂ : Vmm m) (bytes : ℕ) (config : MappingConfig) (region : MemoryRegion)
      → allocate_region m v bytes config ≡ ok (v₁, region)
      → free_mapping m v₁ region ≡ ok v₂
      → v₂.physical ≡ v₁.physical
  unfolding allocate_region free_mapping
  allocate_region-free_mapping v v₁ v₂ bytes config region eq eq' =
      let size = round_up_to_multiple bytes page_size in
      let (p, e, rest) =
        >>=-eq-ok
          (m.physical_alloc v.physical size config.bounds.address (end config.bounds)
            config.alignment)
          _ eq in
      let (r, e', mapping) =
        >>=-eq-ok (find_free_region v.maps size (not config.userspace)) _ rest in
      let (not_allocated, mapped) =
        map-allocated (record v { physical = p.0 }) v₁ p.1 r.address size config region mapping in
      let (v₂', f, f') = >>=-eq-ok (unmap m v₁ region) _ (freed mapped eq') in
      ground (arith, unmap-physical v₁ v₂' region f, not_allocated, f')
    where
      freed :
          region.mapped ≡ true
          → free_mapping m v₁ region ≡ ok v₂
          → (unmap m v₁ region >>= λ v'.
              if not region.allocated
              then ok v'
              else (assert region.present >>= λ (_ : Unit {0}). ok (record v' {
                physical = m.physical_free v'.physical region.phys_address region.size;
              })))
            ≡ ok v₂
      freed e h = ground arith
