-- ===== src/Tests/Memory.antt =====
-- Runs of the operations of src/kernel/memory/VirtualMemoryManager.cpp on a kernel's map with a gap,
-- and of the ranges of src/kernel/include/memory/definitions.hpp.
use ow_os.Common.{ℕ, ◌+◌, ◌≡◌, refl, Bool, true, false, ok, arith, ltb}
use ow_os.AvlTree.{leaf, node, insert, remove, traverse}
use ow_os.AvlTree.Shape.{inorder}
use ow_os.AvlTree.Traverse.{fold_until}
use ow_os.Libk.Math.{round_up_to_multiple}
use ow_os.Memory.Region.{Region, MemoryRegion, default_config, IsRange}
use ow_os.Memory.Vmm.{
  Maps, map_of, traverse_all, find_free_region, traverse_unmapped, find_region, kernel_base,
  in_kernel_space,
}
use ow_os.Memory.Vmm.Layout.{layout, traverse_all-layout}
use ow_os.Memory.Vmm.FreeRegion.{Found, IsLaidOut, find_free_region_lem}
use ow_os.Memory.Vmm.Lookup.{Located, find_region-Located}
use ow_os.Memory.Vmm.Regions.{Machine, Vmm, new_mapping, map, unmap, allocate_region, free_mapping}
use ow_os.Memory.Vmm.Placement.{allocate_region-free_mapping}

abbrev two_pages : MemoryRegion
two_pages = record {
  virt_address = 0xC0100000;
  phys_address = 0x100000;
  size = 8192;
  mapped = true;
  present = true;
  allocated = false;
  config = default_config;
}

abbrev maps : Maps
maps = record { kernel_map = node leaf two_pages 1 leaf; userland_map = leaf }

-- A machine whose page tables are not looked at, and which hands out physical memory from 0 on.
abbrev machine : Machine
machine = record {
  Paging = Unit {0};
  arch_map = λ p phys virt size config. p;
  arch_unmap = λ p virt size. p;
  Physical = ℕ;
  physical_alloc = λ next size low high alignment. ok (next + size, next);
  physical_free = λ next address size. next;
}

abbrev vmm : Vmm machine
vmm = record { maps = maps; paging = tt; physical = 0 }

maps-IsLaidOut : (k : Bool) → IsLaidOut maps k
maps-IsLaidOut true = (refl, omega arith, omega arith, omega arith)
maps-IsLaidOut false = omega arith

find_free_region_lem_example : Found maps 4096 true (find_free_region maps 4096 true)
find_free_region_lem_example =
    find_free_region_lem maps 4096 true (maps-IsLaidOut true) (omega arith)

find_region-Located_example :
    Located 0xC0100010
      (inorder (map_of maps (in_kernel_space 0xC0100010)))
      (find_region maps 0xC0100010)
unfolding in_kernel_space
find_region-Located_example = find_region-Located maps 0xC0100010 (maps-IsLaidOut true)

-- Count the parts, and stop at two.
abbrev count : ℕ → MemoryRegion → ℕ × Bool
count n r = (n + 1, ltb n 1)

traverse_all-layout_example :
    traverse_all count true maps 0
    ≡ ok (fold_until count 0 (layout true false 0xC0000000 (inorder (map_of maps true))))
traverse_all-layout_example = traverse_all-layout count true maps 0

abbrev low : Region
low = record { address = 0x1000; size = 0x2000 }

abbrev high : Region
high = record { address = 0x2000; size = 0x1000 }

low-IsRange : IsRange low
low-IsRange = record { nonempty = omega arith; in_word = omega arith }

high-IsRange : IsRange high
high-IsRange = record { nonempty = omega arith; in_word = omega arith }

-- With no region mapped, one page of physical memory goes to the first page of the kernel's space.
abbrev empty : Vmm machine
empty = record {
  maps = record { kernel_map = leaf; userland_map = leaf };
  paging = tt;
  physical = 0;
}

abbrev first_page : MemoryRegion
first_page = new_mapping 0 kernel_base 4096 default_config

abbrev allocated : Vmm machine
allocated = record empty {
  maps = record { kernel_map = node leaf first_page 1 leaf; userland_map = leaf };
  physical = 4096;
}

abbrev freed : Vmm machine
freed = record empty { physical = 4096 }

allocates : allocate_region machine empty 100 default_config ≡ ok (allocated, first_page)
unfolding allocate_region map insert round_up_to_multiple find_free_region traverse_unmapped
    in_kernel_space traverse
allocates = refl

frees : free_mapping machine allocated first_page ≡ ok freed
unfolding free_mapping unmap remove in_kernel_space
frees = refl

allocate_region-free_mapping_example : freed.physical ≡ allocated.physical
allocate_region-free_mapping_example =
    allocate_region-free_mapping machine empty allocated freed 100 default_config first_page
      allocates frees

-- The second of the two pages.
abbrev second_page : Region
second_page = record { address = 0xC0101000; size = 4096 }
