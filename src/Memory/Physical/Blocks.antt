-- ===== src/Memory/Physical/Blocks.antt =====
-- The blocks of src/kernel/memory/PhysicalMemoryManager.cpp and the pages in them.
use native.Mathlib.Nat.{mul_left_comm, mul_assoc, pow-succ'}
use ow_os.Common.{
  ℕ, zero, suc, ◌+◌, ◌*◌, ◌/◌, ◌%◌, ◌^◌, ◌<◌, ◌≡◌, ◌⊎◌, refl, ap, ◌∙◌, Bool, Bool-cases, inl, inr,
  false, List, [], ◌∷◌, ◌==◌, arith, get_elem?, some,
}
use ow_os.Memory.Physical.{Buddy}
use ow_os.Memory.Physical.Marking.{Nested}

-- A page of the first level.
abbrev pub page_bit : List Buddy → ℕ → Bool
page_bit [] page = false
page_bit (buddy ∷ buddies) page = buddy.bitmap.bit page

half_cases : (p j : ℕ) → j < 2 * p → (half : ℕ) × (half < p) × ((j ≡ 2 * half) ⊎ (j ≡ 2 * half + 1))
half_cases p j h = elim (Bool-cases (j % 2 == 0)) [
  | inl e ↦ (j / 2, omega arith, inl (ground arith))
  | inr e ↦ (j / 2, omega arith, inr (ground arith))
]

-- The pages of a block are twice those of a half.
pub twice : (i k : ℕ) → i * 2 ^ suc k ≡ 2 * (i * 2 ^ k)
twice i k = rw (pow-succ' 2 k) (mul_left_comm i 2 (2 ^ k))

-- A block that is free has only free pages.
pub free_block-pages :
    (k i j : ℕ) (buddies : List Buddy) (buddy : Buddy)
    → Nested buddies
    → get_elem? buddies k ≡ some buddy
    → buddy.bitmap.bit i ≡ false
    → j < 2 ^ k
    → page_bit buddies (i * 2 ^ k + j) ≡ false
unfolding Nested
free_block-pages zero i j (b ∷ buddies) buddy n e free h =
    let same : b ≡ buddy = cc e in
    let first : i * 2 ^ zero + j ≡ i = omega arith in
    ap b.bitmap.bit first ∙ ap (λ (x : Buddy). x.bitmap.bit i) same ∙ free
free_block-pages (suc k) i j (b ∷ next ∷ buddies) buddy n e free h =
    let (half, below, cases) = half_cases (2 ^ k) j (omega (arith, pow-succ' 2 k)) in
    let (one, two) =
      n.0 (i * 2 ^ k + half) (free_block-pages k i half (next ∷ buddies) buddy n.1 e free below) in
    elim cases [
      | inl even ↦ ap b.bitmap.bit (omega (arith, even, twice i k)) ∙ one
      | inr odd ↦ ap b.bitmap.bit (omega (arith, odd, twice i k)) ∙ two
    ]
free_block-pages (suc k) i j (b ∷ []) buddy n e free h = cc
free_block-pages k i j [] buddy n e free h = refl

-- The size of a block is that of the pages in it.
unfoldable pub Sized : ℕ → List Buddy → Type 0
Sized size [] = Unit {0}
Sized size (buddy ∷ buddies) = (buddy.page_size ≡ size) × Sized (2 * size) buddies

halved : (size k : ℕ) → 2 * size * 2 ^ k ≡ size * 2 ^ suc k
halved size k = rw (pow-succ' 2 k) (mul_assoc 2 size (2 ^ k) ∙ mul_left_comm 2 size (2 ^ k))

pub Sized-get :
    (size k : ℕ) (buddies : List Buddy) (buddy : Buddy)
    → Sized size buddies
    → get_elem? buddies k ≡ some buddy
    → buddy.page_size ≡ size * 2 ^ k
unfolding Sized
Sized-get size k [] buddy s e = cc
Sized-get size zero (b ∷ buddies) buddy s e =
    let same : buddy ≡ b = cc e in ap (λ (x : Buddy). x.page_size) same ∙ s.0 ∙ omega arith
Sized-get size (suc k) (b ∷ buddies) buddy s e =
    Sized-get (2 * size) k buddies buddy s.1 e ∙ halved size k
