-- ===== src/Memory/Vmm/Upkeep.antt =====
-- The maps of src/kernel/memory/VirtualMemoryManager.cpp stay in order: no operation lets two
-- mapped regions meet, and a new one lies where nothing was.
use ow_os.Common.{
  ℕ, ◌+◌, ◌≤◌, ◌<◌, ◌≡◌, refl, inl, inr, Bool, true, false, not, List, [], ◌∷◌, ltb, Bool-cases,
  ltb→lt, ltb→le, arith, All, All-map,
}
use ow_os.AvlTree.{Tree}
use ow_os.AvlTree.Shape.{inorder, IsExact}
use ow_os.AvlTree.Order.{IsSorted, Differs, insert_sorted, remove_key}
use ow_os.Memory.Region.{MemoryRegion, virt_key}
use ow_os.Memory.Vmm.{Maps, map_of, space_start, space_end, in_kernel_space}
use ow_os.Memory.Vmm.Gaps.{LaidOut, LaidOut-above, Avoids, space_top}
use ow_os.Memory.Vmm.FreeRegion.{IsLaidOut, IsFreeRange}
use ow_os.Memory.Vmm.Regions.{set_map}

pub LaidOut-IsSorted :
    (lo hi : ℕ) (rs : List MemoryRegion) → LaidOut lo rs hi → IsSorted virt_key rs
LaidOut-IsSorted lo hi [] w = tt
LaidOut-IsSorted lo hi (r ∷ rs) w = (
  All-map _ _ rs (λ q p. omega arith) (LaidOut-above (r.virt_address + r.size) hi rs w.3).0,
  LaidOut-IsSorted (r.virt_address + r.size) hi rs w.3,
)

LaidOut-lower :
    (lo lo' hi : ℕ) (rs : List MemoryRegion) → lo ≤ lo' → LaidOut lo' rs hi → LaidOut lo rs hi
LaidOut-lower lo lo' hi [] h w = omega arith
LaidOut-lower lo lo' hi (r ∷ rs) h w = (w.0, omega arith, w.2, w.3)

pub insert_sorted-LaidOut :
    (lo hi : ℕ) (x : MemoryRegion) (rs : List MemoryRegion)
    → LaidOut lo rs hi
    → x.mapped ≡ true
    → 0 < x.size
    → lo ≤ x.virt_address
    → x.virt_address + x.size ≤ hi
    → Avoids x.virt_address x.size rs
    → LaidOut lo (insert_sorted virt_key x rs) hi
unfolding insert_sorted
insert_sorted-LaidOut lo hi x [] w m p a b v = (m, a, p, b)
insert_sorted-LaidOut lo hi x (r ∷ rs) w m p a b v =
    elim (Bool-cases (ltb x.virt_address r.virt_address)) [
      | inl e ↦ rw e (m, a, p, (w.0, omega (arith, ltb→lt _ _ e, v.0), w.2, w.3))
      | inr e ↦ rw e (
        w.0,
        w.1,
        w.2,
        insert_sorted-LaidOut (r.virt_address + r.size) hi x rs w.3 m p
            (omega (arith, ltb→le _ _ e, v.0)) b v.1,
      )
    ]

pub remove_key-LaidOut :
    (lo hi : ℕ) (x : MemoryRegion) (rs : List MemoryRegion)
    → LaidOut lo rs hi
    → LaidOut lo (remove_key virt_key x rs) hi
unfolding remove_key
remove_key-LaidOut lo hi x [] w = w
remove_key-LaidOut lo hi x (r ∷ rs) w = ground (
  arith,
  LaidOut-lower lo (r.virt_address + r.size) hi rs (omega arith) w.3,
  remove_key-LaidOut (r.virt_address + r.size) hi x rs w.3,
)

pub Avoids-Differs :
    (lo hi : ℕ) (x : MemoryRegion) (rs : List MemoryRegion)
    → LaidOut lo rs hi
    → 0 < x.size
    → Avoids x.virt_address x.size rs
    → All (Differs virt_key x) rs
Avoids-Differs lo hi x [] w p v = tt
Avoids-Differs lo hi x (r ∷ rs) w p v =
    (omega (arith, v.0, w.2), Avoids-Differs (r.virt_address + r.size) hi x rs w.3 p v.1)

-- Both maps: the regions in order and apart, the trees with true heights.
pub record IsTidy (maps : Maps) : Type 0 where
  pub laid_out : (k : Bool) → IsLaidOut maps k
  pub exact : (k : Bool) → IsExact (map_of maps k)

pub set_map-IsTidy :
    (maps : Maps) (k : Bool) (t : Tree MemoryRegion)
    → IsTidy maps
    → LaidOut (space_start k) (inorder t) (space_top k)
    → IsExact t
    → IsTidy (set_map maps k t)
set_map-IsTidy maps true t v w e = record {
  laid_out = elim [ true ↦ w | false ↦ v.laid_out false ];
  exact = elim [ true ↦ e | false ↦ v.exact false ];
}
set_map-IsTidy maps false t v w e = record {
  laid_out = elim [ true ↦ v.laid_out true | false ↦ w ];
  exact = elim [ true ↦ v.exact true | false ↦ e ];
}

pub map_of-set_map :
    (maps : Maps) (k : Bool) (t : Tree MemoryRegion) → map_of (set_map maps k t) k ≡ t
map_of-set_map maps true t = refl
map_of-set_map maps false t = refl

pub in_kernel_space_of :
    (maps : Maps) (k : Bool) (address size : ℕ)
    → IsFreeRange maps k address size
    → 0 < size
    → in_kernel_space address ≡ k
unfolding in_kernel_space
in_kernel_space_of maps true address size f p = ground arith
in_kernel_space_of maps false address size f p = ground arith

pub map_of-set_other :
    (maps : Maps) (k : Bool) (t : Tree MemoryRegion)
    → map_of (set_map maps k t) (not k) ≡ map_of maps (not k)
map_of-set_other maps true t = refl
map_of-set_other maps false t = refl

pub end-le-top : (k : Bool) → space_end k ≤ space_top k
end-le-top true = omega arith
end-le-top false = omega arith
