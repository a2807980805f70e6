-- ===== src/Memory/Vmm/Layout.antt =====
-- `traverse_all` of src/kernel/memory/VirtualMemoryManager.cpp, as a walk over one list: the
-- mapped regions in order with the gaps between them, and the rest of the space at the end.
use ow_os.Common.{
  ℕ, ◌+◌, ◌%◌, ◌≡◌, refl, ap, ◌∙◌, word, Bool, true, false, not, List, [], ◌∷◌, ◌==◌, if◌then◌else◌,
  add32, sub32, ok, Bool-cases, inl, inr, arith,
}
use ow_os.AvlTree.Shape.{inorder}
use ow_os.AvlTree.Traverse.{fold_until, traverse-fold_until}
use ow_os.Memory.Region.{end, MemoryRegion, virt_region, default_config}
use ow_os.Memory.Vmm.{
  Maps, map_of, free_region, set_userspace, Walk, no_region, visit, visit_region, tail_region,
  traverse_all,
}

module _ (is_kernel_space : Bool) where
  abbrev pub next_start : MemoryRegion → ℕ
  next_start last = add32 (end (virt_region last)) 1

  -- What the walk meets after `last`, with the mapped regions that are left.
  abbrev pub parts : MemoryRegion → List MemoryRegion → List MemoryRegion
  parts last [] = tail_region is_kernel_space last ∷ []
  parts last (r ∷ rs) =
      let r' = set_userspace r (not is_kernel_space) in
      let gap = free_region (next_start last) (sub32 r.virt_address (next_start last)) false in
      if not (next_start last == r.virt_address) then gap ∷ r' ∷ parts r' rs else r ∷ parts r rs

-- A range of addresses that no region has, up to the address `behind` it.
abbrev unmapped_range : ℕ → ℕ → Bool → MemoryRegion
unmapped_range from behind userspace = record {
  virt_address = from;
  phys_address = 0;
  size = sub32 behind from;
  mapped = false;
  present = false;
  allocated = false;
  config = record default_config { userspace = userspace };
}

-- Where the space begins: the kernel's at its base, the others' at zero.
abbrev pub lowest : Bool → ℕ
lowest true = 0xC0000000
lowest false = 0

-- Where the space ends: the kernel's with the last address, which it does not have.
abbrev pub highest : Bool → ℕ
highest true = 0xFFFFFFFF
highest false = 0xC0000000

-- The layout of a space from an address on, with the mapped regions that are left. `mapped` is
-- whether the region before the address is.
abbrev pub layout : Bool → Bool → ℕ → List MemoryRegion → List MemoryRegion
layout k mapped from [] =
    unmapped_range (if mapped then from else lowest k) (highest k) (not k) ∷ []
layout k mapped from (r ∷ rs) =
    let rest = layout k r.mapped ((r.virt_address + r.size) % word) rs in
    if from == r.virt_address
    then r ∷ rest
    else unmapped_range from r.virt_address false
      ∷ record r { config = record (r.config) { userspace = not k } }
      ∷ rest

module _ {S : Type 0} (callback : S → MemoryRegion → S × Bool) (is_kernel_space : Bool) where
  finish : Walk S → S
  finish w =
      if w.do_continue then (callback w.state (tail_region is_kernel_space w.last)).0 else w.state

  ok_finish :
      (w : Walk S)
      → (if w.do_continue
          then ok (callback w.state (tail_region is_kernel_space w.last)).0
          else ok w.state)
        ≡ ok (finish w)
  unfolding finish
  ok_finish w = ground arith

  -- After a visit, the rest of the traversal.
  abbrev and_then : Walk S × Bool → List MemoryRegion → S
  and_then v rs = finish (if v.1 then fold_until (visit callback is_kernel_space) v.0 rs else v.0)

  abbrev walking : MemoryRegion → S → Walk S
  walking last s = record { last = last; do_continue = true; state = s }

  region_step :
      (last r : MemoryRegion) (s : S) (rs : List MemoryRegion)
      → finish (fold_until (visit callback is_kernel_space) (walking r (callback s r).0) rs)
        ≡ fold_until callback (callback s r).0 (parts is_kernel_space r rs)
      → and_then (visit_region callback is_kernel_space (walking last s) r) rs
        ≡ fold_until callback s (r ∷ parts is_kernel_space r rs)
  unfolding finish fold_until
  region_step last r s rs ih = elim (Bool-cases (callback s r).1) [
    | inl go ↦ rw go ih
    | inr stop ↦ rw stop
  ]

  walk-parts :
      (rs : List MemoryRegion) (last : MemoryRegion) (s : S)
      → finish (fold_until (visit callback is_kernel_space) (walking last s) rs)
        ≡ fold_until callback s (parts is_kernel_space last rs)
  unfolding finish fold_until visit end
  walk-parts [] last s = ground arith
  walk-parts (r ∷ rs) last s =
      elim (Bool-cases (next_start is_kernel_space last == r.virt_address)) [
        | inl e ↦ rw e (region_step last r s rs (walk-parts rs r (callback s r).0))
        | inr e ↦ elim (Bool-cases (callback s gap).1) [
          | inl go ↦
              rw (e, go)
                (region_step last (set_userspace r (not is_kernel_space)) (callback s gap).0 rs (
                  walk-parts rs (set_userspace r (not is_kernel_space))
                    (callback (callback s gap).0 (set_userspace r (not is_kernel_space))).0))
          | inr stop ↦ rw (e, stop)
        ]
      ]
    where
      gap : MemoryRegion
      gap =
          free_region (next_start is_kernel_space last)
            (sub32 r.virt_address (next_start is_kernel_space last)) false

  -- The walk calls the callback at the parts in turn.
  pub traverse_all-parts :
      (maps : Maps) (s : S)
      → traverse_all callback is_kernel_space maps s
        ≡ ok (
            fold_until callback s (
              parts is_kernel_space
                (no_region is_kernel_space)
                (inorder (map_of maps is_kernel_space))))
  unfolding traverse_all
  traverse_all-parts maps s =
      rw
        (traverse-fold_until (visit callback is_kernel_space)
          (walking (no_region is_kernel_space) s) (map_of maps is_kernel_space))
        (ok_finish _
          ∙ ap ok
              (walk-parts (inorder (map_of maps is_kernel_space)) (no_region is_kernel_space) s))

behind_last :
    (last : MemoryRegion)
    → add32 (sub32 (add32 last.virt_address last.size) 1) 1 ≡ (last.virt_address + last.size) % word
behind_last last = omega arith

-- The walk's parts are the layout from the address behind `last`.
parts-layout :
    (k : Bool) (last : MemoryRegion) (rs : List MemoryRegion)
    → parts k last rs ≡ layout k last.mapped ((last.virt_address + last.size) % word) rs
unfolding end
parts-layout true last [] = rw (behind_last last) refl
parts-layout false last [] = rw (behind_last last) refl
parts-layout k last (r ∷ rs) =
    elim (Bool-cases ((last.virt_address + last.size) % word == r.virt_address)) [
      | inl e ↦ rw (behind_last last, e, parts-layout k r rs) refl
      | inr e ↦ rw (behind_last last, e, parts-layout k (set_userspace r (not k)) rs) refl
    ]

-- `traverse_all` calls the callback at each part of the layout of the space in turn, until the
-- callback says to stop. The layout begins at the first address of the space. It has each region of
-- the map, in order. Where a region does not begin at the address behind the one before it, the
-- range between them comes before it, as one that is not mapped, and `userspace` of the region is
-- set by the space. Last comes the range up to the end of the space: from the end of the last
-- region, or the whole space if that is not marked as mapped or there is none.
pub traverse_all-layout :
    {S : Type 0} (callback : S → MemoryRegion → S × Bool) (k : Bool) (maps : Maps) (s : S)
    → traverse_all callback k maps s
      ≡ ok (fold_until callback s (layout k false (lowest k) (inorder (map_of maps k))))
traverse_all-layout callback k maps s =
    traverse_all-parts callback k maps s ∙ ap (λ rs. ok (fold_until callback s rs)) (all_parts k)
  where
    all_parts :
        (k : Bool)
        → parts k (no_region k) (inorder (map_of maps k))
          ≡ layout k false (lowest k) (inorder (map_of maps k))
    all_parts true = parts-layout true (no_region true) (inorder maps.kernel_map)
    all_parts false = parts-layout false (no_region false) (inorder maps.userland_map)
