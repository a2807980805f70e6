-- ===== src/Libk/CircularBuffer/Contents.antt =====
-- What the circular buffer of src/kernel/include/libk/CircularBuffer.hpp holds, oldest first.
use ow_os.Common.{
  ℕ, zero, suc, ◌+◌, ◌-◌, ◌≤◌, ◌<◌, ◌≡◌, refl, ◌∙◌, List, [], ◌∷◌, ◌++◌, some, if◌then◌else◌, ltb,
  arith, length, get_elem?, set, get_elem?-set_ne,
}
use ow_os.Libk.CircularBuffer.{advance}

-- The index `n` places further on, round the end.
unfoldable pub advance_by : ℕ → ℕ → ℕ → ℕ
advance_by capacity i zero = i
advance_by capacity i (suc n) = advance_by capacity (advance capacity i) n

pub advance_by_lem :
    (capacity i n : ℕ)
    → i < capacity
    → n ≤ capacity
    → advance_by capacity i n ≡ (if ltb (i + n) capacity then i + n else i + n - capacity)
unfolding advance_by
advance_by_lem capacity i zero h p = ground arith
advance_by_lem capacity i (suc n) h p =
    ground (arith, advance_by_lem capacity (advance capacity i) n)

pub advance_by-suc :
    (capacity i n : ℕ) → advance_by capacity i (suc n) ≡ advance capacity (advance_by capacity i n)
unfolding advance_by
advance_by-suc capacity i zero = refl
advance_by-suc capacity i (suc n) = advance_by-suc capacity (advance capacity i) n

module _ {A : Type 0} (capacity : ℕ) where
  -- The storage holds the values of the list from an index on, round the end.
  abbrev pub Stores : List A → ℕ → List A → Type 0
  Stores storage i [] = Unit {0}
  Stores storage i (x ∷ q) = (get_elem? storage i ≡ some x) × Stores storage (advance capacity i) q

  pub Stores-append :
      (storage : List A) (i : ℕ) (q : List A) (x : A)
      → Stores storage i q
      → get_elem? storage (advance_by capacity i (length q)) ≡ some x
      → Stores storage i (q ++ x ∷ [])
  unfolding advance_by
  Stores-append storage i [] x s e = (e, tt)
  Stores-append storage i (y ∷ q) x s e =
      (s.0, Stores-append storage (advance capacity i) q x s.1 e)

  -- A write behind the last value leaves the others alone.
  pub Stores-set :
      (storage : List A) (i p : ℕ) (q : List A) (x : A)
      → i < capacity
      → length q < capacity
      → p ≡ advance_by capacity i (length q)
      → Stores storage i q
      → Stores (set storage p x) i q
  unfolding advance_by
  Stores-set storage i p [] x h n e s = tt
  Stores-set storage i p (y ∷ q) x h n e s = (
    get_elem?-set_ne storage p i x
          (λ same. absurd (ground (arith, advance_by_lem capacity i (suc (length q)), e, same)))
        ∙ s.0,
    Stores-set storage (advance capacity i) p q x (ground arith) (omega arith) e s.1,
  )
