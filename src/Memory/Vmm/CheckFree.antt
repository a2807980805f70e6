-- ===== src/Memory/Vmm/CheckFree.antt =====
-- `check_free` of src/kernel/memory/VirtualMemoryManager.cpp.
use ow_os.Common.{
  ℕ, ◌+◌, ◌≡◌, ◌↔◌, ◌∙◌, refl, ap, Bool, Bool-cases, inl, inr, true, false, not, ◌&&◌, List, [],
  ◌∷◌, ◌==◌, All, ok, arith,
}
use ow_os.AvlTree.Shape.{inorder}
use ow_os.AvlTree.Traverse.{fold_until}
use ow_os.Memory.Region.{Region, MemoryRegion, virt_region, overlaps}
use ow_os.Memory.Vmm.{
  Maps, map_of, no_region, set_userspace, in_kernel_space, clear_of, on_mapped, traverse_mapped,
  check_free,
}
use ow_os.Memory.Vmm.Layout.{parts, next_start, traverse_all-parts}
use ow_os.Memory.Vmm.FreeRegion.{IsLaidOut}
use ow_os.Memory.Vmm.Gaps.{LaidOut, space_top}
use ow_os.Memory.Vmm.{space_start}

module _ (region : Region) (k : Bool) where
  none_overlaps : List MemoryRegion → Bool
  none_overlaps [] = true
  none_overlaps (r ∷ rs) = not (overlaps (virt_region r) region) && none_overlaps rs

  none_overlaps_iff :
      (rs : List MemoryRegion)
      → (none_overlaps rs ≡ true) ↔ All (λ r. overlaps (virt_region r) region ≡ false) rs
  unfolding none_overlaps
  none_overlaps_iff [] = ((λ e. tt), λ a. refl)
  none_overlaps_iff (r ∷ rs) = ground (arith, none_overlaps_iff rs)

  fold-parts :
      (rs : List MemoryRegion) (last : MemoryRegion)
      → All (λ (r : MemoryRegion). r.mapped ≡ true) rs
      → fold_until (on_mapped (clear_of region)) true (parts k last rs) ≡ none_overlaps rs
  unfolding fold_until none_overlaps
  fold-parts [] last a = refl
  fold-parts (r ∷ rs) last a = elim (Bool-cases (next_start k last == r.virt_address)) [
    | inl e ↦
        rw (e, a.0)
          (elim (Bool-cases (overlaps (virt_region r) region)) [
            | inl o ↦ rw o refl
            | inr o ↦ rw o (fold-parts rs (record r { mapped = true }) a.1)
          ])
    | inr e ↦
        rw (e, a.0)
          (elim (Bool-cases (overlaps (virt_region r) region)) [
            | inl o ↦ rw o refl
            | inr o ↦ rw o (fold-parts rs (record (set_userspace r (not k)) { mapped = true }) a.1)
          ])
  ]

LaidOut-mapped :
    (lo hi : ℕ) (rs : List MemoryRegion)
    → LaidOut lo rs hi
    → All (λ (r : MemoryRegion). r.mapped ≡ true) rs
LaidOut-mapped lo hi [] w = tt
LaidOut-mapped lo hi (r ∷ rs) w = (w.0, LaidOut-mapped (r.virt_address + r.size) hi rs w.3)

-- With the map of its space in order, `check_free` of a range succeeds and tells whether no mapped
-- region of that space overlaps the range.
check_free_iff :
    (maps : Maps) (region : Region)
    → IsLaidOut maps (in_kernel_space region.address)
    → (free : Bool) × (check_free maps region ≡ ok free)
      × ((free ≡ true)
          ↔ All
              (λ r. overlaps (virt_region r) region ≡ false)
              (inorder (map_of maps (in_kernel_space region.address))))
unfolding check_free traverse_mapped
check_free_iff maps region w = (
  none_overlaps region k rs,
  traverse_all-parts (on_mapped (clear_of region)) k maps true
      ∙ ap ok (
          fold-parts region k rs (no_region k) (LaidOut-mapped (space_start k) (space_top k) rs w)),
  none_overlaps_iff region k rs,
)
  where
    k : Bool
    k = in_kernel_space region.address

    rs : List MemoryRegion
    rs = inorder (map_of maps k)
