-- ===== src/Memory/Vmm/Lookup.antt =====
-- `find_region` of src/kernel/memory/VirtualMemoryManager.cpp: the search by a comparator finds
-- the mapped region that contains an address.
use ow_os.Common.{
  ℕ, ◌+◌, ◌≤◌, ◌<◌, ◌≡◌, refl, ◌⊎◌, inl, inr, Bool, List, [], ◌∷◌, ◌++◌, Option, none, some, ltb,
  Bool-cases, ltb→lt, ltb→le, arith, All, All-append, All-map, IsIn, IsIn-append_left,
  IsIn-append_right, word,
}
use ow_os.Common.Int.{ℤ, pos, negsuc}
use ow_os.AvlTree.{Tree, leaf, node, find_by}
use ow_os.AvlTree.Shape.{inorder}
use ow_os.Memory.Region.{contains, contains_iff, MemoryRegion, virt_region}
use ow_os.Memory.Vmm.{Maps, map_of, space_start, in_kernel_space, locate, find_region}
use ow_os.Memory.Vmm.Gaps.{LaidOut, LaidOut-above, space_top, top-le-word}
use ow_os.Memory.Vmm.FreeRegion.{IsLaidOut}

-- The address is one of the region's.
abbrev pub Holds : ℕ → MemoryRegion → Type 0
Holds address r = (r.virt_address ≤ address) × (address < r.virt_address + r.size)

LaidOut-left :
    (lo hi : ℕ) (xs : List MemoryRegion) (v : MemoryRegion) (ys : List MemoryRegion)
    → LaidOut lo (xs ++ v ∷ ys) hi
    → LaidOut lo xs v.virt_address
LaidOut-left lo hi [] v ys w = w.1
LaidOut-left lo hi (x ∷ xs) v ys w =
    (w.0, w.1, w.2, LaidOut-left (x.virt_address + x.size) hi xs v ys w.3)

LaidOut-right :
    (lo hi : ℕ) (xs : List MemoryRegion) (v : MemoryRegion) (ys : List MemoryRegion)
    → LaidOut lo (xs ++ v ∷ ys) hi
    → (0 < v.size) × LaidOut (v.virt_address + v.size) ys hi
LaidOut-right lo hi [] v ys w = (w.2, w.3)
LaidOut-right lo hi (x ∷ xs) v ys w = LaidOut-right (x.virt_address + x.size) hi xs v ys w.3

LaidOut-ends :
    (lo hi : ℕ) (xs : List MemoryRegion)
    → LaidOut lo xs hi
    → All (λ (r : MemoryRegion). r.virt_address + r.size ≤ hi) xs
LaidOut-ends lo hi [] w = tt
LaidOut-ends lo hi (x ∷ xs) w = (
  (LaidOut-above (x.virt_address + x.size) hi xs w.3).1,
  LaidOut-ends (x.virt_address + x.size) hi xs w.3,
)

-- What a search comes to: the region that holds the address, or none does.
abbrev pub Located : ℕ → List MemoryRegion → Option MemoryRegion → Type 0
Located address rs o =
    ((r : MemoryRegion) × (o ≡ some r) × IsIn r rs × Holds address r)
    ⊎ ((o ≡ none) × All (λ r. ¬ Holds address r) rs)

in_right :
    (address : ℕ) (xs : List MemoryRegion) (v : MemoryRegion) (ys : List MemoryRegion)
    (o : Option MemoryRegion)
    → All (λ (r : MemoryRegion). r.virt_address + r.size ≤ address) xs
    → ¬ Holds address v
    → Located address ys o
    → Located address (xs ++ v ∷ ys) o
in_right address xs v ys o b n (inl (r, e, m, h)) =
    inl (r, e, IsIn-append_right r xs (v ∷ ys) (inr m), h)
in_right address xs v ys o b n (inr (e, a)) =
    inr (e, All-append _ xs (v ∷ ys) (All-map _ _ xs (λ r p h. omega arith) b) (n, a))

in_left :
    (address : ℕ) (xs : List MemoryRegion) (v : MemoryRegion) (ys : List MemoryRegion)
    (o : Option MemoryRegion)
    → All (λ (r : MemoryRegion). address < r.virt_address) ys
    → ¬ Holds address v
    → Located address xs o
    → Located address (xs ++ v ∷ ys) o
in_left address xs v ys o b n (inl (r, e, m, h)) = inl (r, e, IsIn-append_left r xs (v ∷ ys) m, h)
in_left address xs v ys o b n (inr (e, a)) =
    inr (e, All-append _ xs (v ∷ ys) a (n, All-map _ _ ys (λ r p h. omega arith) b))

module _ (comparator : MemoryRegion → ℤ) (l : Tree MemoryRegion) (v : MemoryRegion) (h : ℕ)
    (r : Tree MemoryRegion) where
  find_by_here : comparator v ≡ pos 0 → find_by comparator (node l v h r) ≡ some v
  unfolding find_by
  find_by_here e = rw (e, find_by)

  find_by_right : comparator v ≡ negsuc 0 → find_by comparator (node l v h r) ≡ find_by comparator r
  unfolding find_by
  find_by_right e = rw (e, find_by)

  find_by_left : comparator v ≡ pos 1 → find_by comparator (node l v h r) ≡ find_by comparator l
  unfolding find_by
  find_by_left e = rw (e, find_by)

find_by-Located :
    (address lo hi : ℕ) (t : Tree MemoryRegion)
    → LaidOut lo (inorder t) hi
    → hi ≤ word
    → Located address (inorder t) (find_by (locate address) t)
find_by-Located address lo hi leaf w h = inr (find_by_leaf, tt)
  where
    find_by_leaf : find_by (locate address) leaf ≡ none
    find_by_leaf = unfold find_by in refl
find_by-Located address lo hi (node l v n r) w h =
    let left = LaidOut-left lo hi (inorder l) v (inorder r) w in
    let (positive, right) = LaidOut-right lo hi (inorder l) v (inorder r) w in
    let above = LaidOut-above (v.virt_address + v.size) hi (inorder r) right in
    let range =
      contains_iff (virt_region v) address
        (record { nonempty = positive; in_word = omega arith }) in
    let ends = LaidOut-ends lo v.virt_address (inorder l) left in
    elim (Bool-cases (contains (virt_region v) address)) [
      | inl e ↦
          rw (find_by_here (locate address) l v n r (simp e))
            (inl (v, refl, IsIn-append_right v (inorder l) (v ∷ inorder r) (inl refl), range.0 e))
      | inr e ↦ elim (Bool-cases (ltb v.virt_address address)) [
        | inl lt ↦ rw (find_by_right (locate address) l v n r (simp (e, lt))) (
            in_right address (inorder l) v (inorder r) _
              (All-map _ _ (inorder l) (λ q p. omega (arith, ltb→lt _ _ lt)) ends)
              (λ hold. cc (range.1 hold, e))
              (find_by-Located address (v.virt_address + v.size) hi r right h))
        | inr ge ↦ rw (find_by_left (locate address) l v n r (simp (e, ge))) (
            in_left address (inorder l) v (inorder r) _
              (All-map _ _ (inorder r) (λ q p. omega (arith, ltb→le _ _ ge)) above.0)
              (λ hold. cc (range.1 hold, e))
              (find_by-Located address lo v.virt_address l left (omega arith)))
      ]
    ]

-- With the map of its space in order, `find_region` gives a mapped region that contains the
-- address, and a null pointer only if none does.
pub find_region-Located :
    (maps : Maps) (address : ℕ)
    → IsLaidOut maps (in_kernel_space address)
    → Located address (inorder (map_of maps (in_kernel_space address))) (find_region maps address)
unfolding find_region
find_region-Located maps address w =
    find_by-Located address (space_start k) (space_top k) (map_of maps k) w
      (top-le-word {n = space_top k} k (omega arith))
  where
    k : Bool
    k = in_kernel_space address
