-- ===== src/Memory/Vmm/Gaps.antt =====
-- The gaps that `traverse_unmapped` of src/kernel/memory/VirtualMemoryManager.cpp reports: free
-- addresses only, and all of them.
use ow_os.Common.{
  ℕ, ◌+◌, ◌%◌, ◌≤◌, ◌<◌, ◌≡◌, refl, ap, ◌∙◌, ◌⊎◌, inl, inr, Bool, true, false, not, List, [], ◌∷◌,
  ◌==◌, if◌then◌else◌, sub32, word, word_max, ok, Bool-cases, ==_iff, arith, dec_lt, All, All-map,
}
use ow_os.AvlTree.Shape.{inorder}
use ow_os.AvlTree.Traverse.{fold_until}
use ow_os.Memory.Region.{end, MemoryRegion}
use ow_os.Memory.Vmm.{
  Maps, map_of, free_region, set_userspace, tail_region, no_region, space_start, space_end,
  kernel_base, on_unmapped, traverse_unmapped,
}
use ow_os.Memory.Vmm.Layout.{parts, next_start, traverse_all-parts}

abbrev pub unmapped : List MemoryRegion → List MemoryRegion
unmapped [] = []
unmapped (r ∷ rs) = if not r.mapped then r ∷ unmapped rs else unmapped rs

-- The gaps of a space, in order; the last reaches to its end.
abbrev pub gaps : Bool → Maps → List MemoryRegion
gaps is_kernel_space maps =
    unmapped
      (parts is_kernel_space (no_region is_kernel_space) (inorder (map_of maps is_kernel_space)))

fold_until-on_unmapped :
    {S : Type 0} (callback : S → MemoryRegion → S × Bool) (s : S) (rs : List MemoryRegion)
    → fold_until (on_unmapped callback) s rs ≡ fold_until callback s (unmapped rs)
unfolding fold_until
fold_until-on_unmapped callback s [] = refl
fold_until-on_unmapped callback s (r ∷ rs) = ground (
  arith,
  fold_until-on_unmapped callback s rs,
  fold_until-on_unmapped callback (callback s r).0 rs,
)

pub traverse_unmapped-gaps :
    {S : Type 0} (callback : S → MemoryRegion → S × Bool) (is_kernel_space : Bool) (maps : Maps)
    (s : S)
    → traverse_unmapped callback is_kernel_space maps s
      ≡ ok (fold_until callback s (gaps is_kernel_space maps))
unfolding traverse_unmapped
traverse_unmapped-gaps callback is_kernel_space maps s =
    traverse_all-parts (on_unmapped callback) is_kernel_space maps s
    ∙ ap ok (fold_until-on_unmapped callback s _)

-- Mapped regions that are not empty, one above the other, from `lo` to `hi`.
abbrev pub LaidOut : ℕ → List MemoryRegion → ℕ → Type 0
LaidOut lo [] hi = lo ≤ hi
LaidOut lo (r ∷ rs) hi =
    (r.mapped ≡ true)
    × (lo ≤ r.virt_address)
    × (0 < r.size)
    × LaidOut (r.virt_address + r.size) rs hi

-- The addresses from `address` on, `size` of them, meet no region.
abbrev pub Avoids : ℕ → ℕ → List MemoryRegion → Type 0
Avoids address size rs =
    All (λ r. (address + size ≤ r.virt_address) ⊎ (r.virt_address + r.size ≤ address)) rs

-- The range lies in one of the regions, which does not wrap.
abbrev pub Covered : ℕ → ℕ → List MemoryRegion → Type 0
Covered address size [] = ⊥
Covered address size (f ∷ fs) =
    ((f.virt_address ≤ address) × (address + size ≤ f.virt_address + f.size) × (f.size < word_max))
    ⊎ Covered address size fs

pub LaidOut-above :
    (lo hi : ℕ) (rs : List MemoryRegion)
    → LaidOut lo rs hi
    → All (λ (r : MemoryRegion). lo ≤ r.virt_address) rs × (lo ≤ hi)
LaidOut-above lo hi [] w = (tt, w)
LaidOut-above lo hi (r ∷ rs) w =
    let (above, le) = LaidOut-above (r.virt_address + r.size) hi rs w.3 in
    ((w.1, All-map _ _ rs (λ q p. omega arith) above), omega arith)

module _ (is_kernel_space : Bool) where
  -- A gap is free, or it is the one that wraps round to address 0, past a region at the very top.
  abbrev pub IsFree : ℕ → List MemoryRegion → MemoryRegion → Type 0
  IsFree lo rs f =
      (f.size ≡ word_max)
      ⊎ ((lo ≤ f.virt_address)
          × (f.virt_address + f.size ≤ space_end is_kernel_space)
          × Avoids f.virt_address f.size rs)

  -- The place after `last`, as the next gap and as the tail compute it.
  abbrev pub Follows : ℕ → MemoryRegion → Type 0
  Follows lo last =
      (next_start is_kernel_space last ≡ lo % word)
      × ((tail_region is_kernel_space last).virt_address ≡ lo % word)

  -- The top of a space: the tail of the kernel's leaves out the last address.
  abbrev pub space_top : ℕ
  space_top = elim is_kernel_space [ true ↦ word | false ↦ kernel_base ]

pub top-le-word : {n : ℕ} (k : Bool) → n ≤ space_top k → n ≤ word
top-le-word true h = h
top-le-word false h = omega arith

Follows-region :
    (k : Bool) (r : MemoryRegion)
    → r.mapped ≡ true
    → 0 < r.size
    → r.virt_address + r.size ≤ word
    → Follows k (r.virt_address + r.size) r
      × Follows k (r.virt_address + r.size) (set_userspace r (not k))
unfolding end
Follows-region k r m p q = ground arith

-- The gaps around the first mapped region.
gaps_step :
    (k : Bool) (last r : MemoryRegion) (rs : List MemoryRegion)
    → r.mapped ≡ true
    → unmapped (parts k last (r ∷ rs)) ≡ (
        if next_start k last == r.virt_address
        then unmapped (parts k r rs)
        else free_region (next_start k last) (sub32 r.virt_address (next_start k last)) false
          ∷ unmapped (parts k (set_userspace r (not k)) rs))
gaps_step k last r rs m = elim (Bool-cases (next_start k last == r.virt_address)) [
  | inl e ↦ simp (e, m)
  | inr e ↦ simp (e, m)
]

tail-IsFree :
    (k : Bool) (lo t : ℕ)
    → t ≡ lo % word
    → lo ≤ space_top k
    → IsFree k lo [] (free_region t (sub32 (space_end k) t) (not k))
tail-IsFree true lo t e h = elim (dec_lt lo word) [
  | yes p ↦ inr (omega arith, omega arith, tt)
  | no p ↦ inl (omega arith)
]
tail-IsFree false lo t e h = inr (omega arith, omega arith, tt)

IsFree-below :
    (k : Bool) (lo : ℕ) (r f : MemoryRegion) (rs : List MemoryRegion)
    → lo ≤ r.virt_address
    → IsFree k (r.virt_address + r.size) rs f
    → IsFree k lo (r ∷ rs) f
IsFree-below k lo r f rs h (inl e) = inl e
IsFree-below k lo r f rs h (inr (a, b, c)) = inr (omega arith, b, (inr a, c))

gap_values :
    (k : Bool) (lo start v s : ℕ)
    → start ≡ lo % word
    → lo ≤ v
    → 0 < s
    → v + s ≤ space_top k
    → (start ≡ lo) × (start + sub32 v start ≡ v) × (v ≤ space_end k)
gap_values true lo start v s e h p q = omega arith
gap_values false lo start v s e h p q = omega arith

-- What is known at the first mapped region of a well laid out space.
record Around (k : Bool) (lo : ℕ) (last r : MemoryRegion) (rs : List MemoryRegion) : Type 0 where
  start : next_start k last ≡ lo
  gap_end : next_start k last + sub32 r.virt_address (next_start k last) ≡ r.virt_address
  in_space : r.virt_address ≤ space_end k
  later : All (λ (q : MemoryRegion). r.virt_address + r.size ≤ q.virt_address) rs
  follows : Follows k (r.virt_address + r.size) r
  follows_set : Follows k (r.virt_address + r.size) (set_userspace r (not k))

around :
    (k : Bool) (lo : ℕ) (last r : MemoryRegion) (rs : List MemoryRegion)
    → Follows k lo last
    → LaidOut lo (r ∷ rs) (space_top k)
    → Around k lo last r rs
around k lo last r rs f w =
    let bounds = LaidOut-above (r.virt_address + r.size) (space_top k) rs w.3 in
    let values = gap_values k lo (next_start k last) r.virt_address r.size f.0 w.1 w.2 bounds.1 in
    let follow = Follows-region k r w.0 w.2 (top-le-word k bounds.1) in
    record {
      start = values.0;
      gap_end = values.1;
      in_space = values.2;
      later = bounds.0;
      follows = follow.0;
      follows_set = follow.1;
    }

IsFree-above :
    (k : Bool) (lo : ℕ) (r : MemoryRegion) (rs fs : List MemoryRegion)
    → lo ≤ r.virt_address
    → All (IsFree k (r.virt_address + r.size) rs) fs
    → All (IsFree k lo (r ∷ rs)) fs
IsFree-above k lo r rs fs h a = All-map _ _ fs (λ f p. IsFree-below k lo r f rs h p) a

-- Every gap that the traversal reports is free, or is the one that wraps.
pub gaps-IsFree :
    (k : Bool) (lo : ℕ) (last : MemoryRegion) (rs : List MemoryRegion)
    → Follows k lo last
    → LaidOut lo rs (space_top k)
    → All (IsFree k lo rs) (unmapped (parts k last rs))
gaps-IsFree k lo last [] f w = (tail-IsFree k lo _ f.1 w, tt)
gaps-IsFree k lo last (r ∷ rs) f w =
    let c = around k lo last r rs f w in
    let level = gaps-IsFree k (r.virt_address + r.size) r rs c.follows w.3 in
    let past =
      gaps-IsFree k (r.virt_address + r.size) (set_userspace r (not k)) rs c.follows_set w.3 in
    rw (gaps_step k last r rs w.0) (elim (Bool-cases (next_start k last == r.virt_address)) [
      | inl e ↦ simp e (IsFree-above k lo r rs _ w.1 level)
      | inr e ↦ simp e (
        inr (
          omega arith,
          omega arith,
          (inl (omega arith), All-map _ _ rs (λ q p. inl (omega arith)) c.later),
        ),
        IsFree-above k lo r rs _ w.1 past,
      )
    ])

tail_covers :
    (k : Bool) (lo t address size : ℕ)
    → t ≡ lo % word
    → space_start k ≤ lo
    → 0 < size
    → lo ≤ address
    → address + size ≤ space_end k
    → (t ≤ address)
      × (address + size ≤ t + sub32 (space_end k) t)
      × (sub32 (space_end k) t < word_max)
tail_covers true lo t address size e b p h q = omega arith
tail_covers false lo t address size e b p h q = omega arith

gap_small :
    (k : Bool) (lo start v : ℕ)
    → space_start k ≤ lo
    → start ≡ lo
    → start + sub32 v start ≡ v
    → v ≤ space_end k
    → sub32 v start < word_max
gap_small true lo start v b e g h = omega arith
gap_small false lo start v b e g h = omega arith

-- Every free range of the space lies in a gap that the traversal reports.
pub gaps-Covered :
    (k : Bool) (lo address size : ℕ) (last : MemoryRegion) (rs : List MemoryRegion)
    → Follows k lo last
    → LaidOut lo rs (space_top k)
    → space_start k ≤ lo
    → 0 < size
    → lo ≤ address
    → address + size ≤ space_end k
    → Avoids address size rs
    → Covered address size (unmapped (parts k last rs))
gaps-Covered k lo address size last [] f w b p h t a =
    inl (tail_covers k lo _ address size f.1 b p h t)
gaps-Covered k lo address size last (r ∷ rs) f w b p h t (inl below, a) =
    let c = around k lo last r rs f w in
    rw (gaps_step k last r rs w.0) (elim (Bool-cases (next_start k last == r.virt_address)) [
      | inl e ↦ absurd (omega (arith, (==_iff _ _).0 e))
      | inr e ↦
          simp e (inl (omega arith, omega arith, gap_small k lo _ _ b c.start c.gap_end c.in_space))
    ])
gaps-Covered k lo address size last (r ∷ rs) f w b p h t (inr past, a) =
    let c = around k lo last r rs f w in
    rw (gaps_step k last r rs w.0) (elim (Bool-cases (next_start k last == r.virt_address)) [
      | inl e ↦ simp e (
          gaps-Covered k (r.virt_address + r.size) address size r rs c.follows w.3 (omega arith) p
            past t a)
      | inr e ↦ simp e (
          inr (
            gaps-Covered k (r.virt_address + r.size) address size (set_userspace r (not k)) rs
              c.follows_set w.3 (omega arith) p past t a))
    ])

-- The walk starts at the start of the space.
pub Follows-no_region : (k : Bool) → Follows k (space_start k) (no_region k)
unfolding end
Follows-no_region true = (refl, refl)
Follows-no_region false = (refl, refl)
