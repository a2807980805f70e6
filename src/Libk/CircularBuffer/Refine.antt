-- ===== src/Libk/CircularBuffer/Refine.antt =====
-- The circular buffer of src/kernel/include/libk/CircularBuffer.hpp keeps the latest values.
use ow_os.Common.{
  ℕ, ◌+◌, ◌-◌, ◌≤◌, ◌<◌, ◌≡◌, refl, sym, ap, ◌∙◌, List, [], ◌∷◌, ◌++◌, ◌==◌, if◌then◌else◌, arith,
  length, set, get_elem?-set_self, length-set, length-append, Bool-cases, ==_iff, inl, inr, ok, err,
  assert_failed,
}
use ow_os.Libk.CircularBuffer.{CircularBuffer, advance, init, push, pop}
use ow_os.Libk.CircularBuffer.Contents.{
  advance_by, advance_by_lem, advance_by-suc, Stores, Stores-append, Stores-set,
}

module _ {A : Type 0} where
  -- The buffer holds these values, oldest first, and its indices and storage fit.
  pub record Holds (c : CircularBuffer A) (q : List A) : Type 0 where
    pub storage_length : length c.storage ≡ c.capacity
    pub tail_in : c.tail < c.capacity
    pub size_le : c.size ≤ c.capacity
    pub size_eq : c.size ≡ length q
    pub head_eq : c.head ≡ advance_by c.capacity c.tail c.size
    pub values : Stores c.capacity c.storage c.tail q

  head_in : (c : CircularBuffer A) (q : List A) → Holds c q → c.head < c.capacity
  head_in c q h = ground (arith, advance_by_lem c.capacity c.tail c.size)

  -- What a push makes of the values of a buffer of this capacity: the new one is the last, and a
  -- full buffer drops its first.
  abbrev pub push_latest : ℕ → List A → A → List A
  push_latest capacity [] val = val ∷ []
  push_latest capacity (x ∷ q) val =
      if length (x ∷ q) == capacity then q ++ val ∷ [] else x ∷ (q ++ val ∷ [])

  -- A new buffer, of storage for one value at least, holds no value.
  init-Holds :
      (storage : List A) (size : ℕ)
      → length storage ≡ size
      → 0 < size
      → Holds (init storage size) []
  unfolding init advance_by
  init-Holds storage size h p = record {
    storage_length = h;
    tail_in = p;
    size_le = omega arith;
    size_eq = refl;
    head_eq = refl;
    values = tt;
  }

  room :
      (c : CircularBuffer A) (q : List A) (val : A)
      → Holds c q
      → c.size < c.capacity
      → (c' : CircularBuffer A) × (push c val ≡ ok c')
        × (c'.capacity ≡ c.capacity)
        × Holds c' (q ++ val ∷ [])
  unfolding push
  room c q val h p = (c', ground (arith, head_in c q h), refl, held)
    where
      c' : CircularBuffer A
      c' = record c {
        storage = set c.storage c.head val;
        head = advance c.capacity c.head;
        size = c.size + 1;
      }

      advance_head : advance c.capacity c.head ≡ advance_by c.capacity c.tail (c.size + 1)
      advance_head =
          ap (advance c.capacity) h.head_eq
          ∙ sym (advance_by-suc c.capacity c.tail c.size)
          ∙ ap (advance_by c.capacity c.tail) (omega arith)

      at_head : c.head ≡ advance_by c.capacity c.tail (length q)
      at_head = h.head_eq ∙ ap (advance_by c.capacity c.tail) h.size_eq

      held : Holds c' (q ++ val ∷ [])
      held = record {
        storage_length = length-set c.storage c.head val ∙ h.storage_length;
        tail_in = h.tail_in;
        size_le = omega arith;
        size_eq = omega (arith, h.size_eq, length-append q (val ∷ []));
        head_eq = advance_head;
        values =
            Stores-append c.capacity (set c.storage c.head val) c.tail q val
              (Stores-set c.capacity c.storage c.tail c.head q val h.tail_in
                (omega (arith, h.size_eq)) at_head h.values)
              (rw (← at_head) (
                get_elem?-set_self c.storage c.head val
                  (omega (arith, h.storage_length, head_in c q h))));
      }

  overwrite :
      (c : CircularBuffer A) (x : A) (q : List A) (val : A)
      → Holds c (x ∷ q)
      → c.size ≡ c.capacity
      → (c' : CircularBuffer A) × (push c val ≡ ok c')
        × (c'.capacity ≡ c.capacity)
        × Holds c' (q ++ val ∷ [])
  unfolding push advance_by
  overwrite c x q val h p = (c', ground (arith, head_in c (x ∷ q) h), refl, held)
    where
      next : ℕ
      next = advance c.capacity c.head

      c' : CircularBuffer A
      c' = record c { storage = set c.storage c.head val; head = next; tail = next }

      head_is_tail : c.head ≡ c.tail
      head_is_tail = ground (arith, advance_by_lem c.capacity c.tail c.size, h.head_eq, h.tail_in)

      next_in : next < c.capacity
      next_in = ground (arith, h.tail_in, head_is_tail)

      at_head : c.head ≡ advance_by c.capacity next (length q)
      at_head =
          h.head_eq
          ∙ ap (advance_by c.capacity c.tail) h.size_eq
          ∙ ap (λ i. advance_by c.capacity (advance c.capacity i) (length q)) (sym head_is_tail)

      held : Holds c' (q ++ val ∷ [])
      held = record {
        storage_length = length-set c.storage c.head val ∙ h.storage_length;
        tail_in = next_in;
        size_le = h.size_le;
        size_eq = omega (arith, h.size_eq, length-append q (val ∷ []));
        head_eq = ground (arith, advance_by_lem c.capacity next c.size, next_in);
        values =
            Stores-append c.capacity (set c.storage c.head val) next q val
              (Stores-set c.capacity c.storage next c.head q val next_in
                (omega (arith, h.size_eq, h.size_le)) at_head (rw head_is_tail h.values.1))
              (rw (← at_head) (
                get_elem?-set_self c.storage c.head val
                  (omega (arith, h.storage_length, head_in c (x ∷ q) h))));
      }

  -- A push succeeds, and the buffer then holds the latest values that fit, in order.
  pub push-Holds :
      (c : CircularBuffer A) (q : List A) (val : A)
      → Holds c q
      → (c' : CircularBuffer A) × (push c val ≡ ok c')
        × (c'.capacity ≡ c.capacity)
        × Holds c' (push_latest c.capacity q val)
  push-Holds c [] val h = room c [] val h (omega (arith, h.size_eq, h.tail_in))
  push-Holds c (x ∷ q) val h = elim (Bool-cases (length (x ∷ q) == c.capacity)) [
    | inl e ↦ rw e (overwrite c x q val h (omega (arith, h.size_eq, (==_iff _ _).0 e)))
    | inr e ↦ rw e (room c (x ∷ q) val h (ground (arith, h.size_eq, h.size_le)))
  ]

  -- A pop of an empty buffer fails its assertion.
  pop_empty : (c : CircularBuffer A) → Holds c [] → pop c ≡ err assert_failed
  unfolding pop
  pop_empty c h = ground (arith, h.size_eq)

  -- A pop gives the oldest value, and the buffer then holds the others.
  pub pop-Holds :
      (c : CircularBuffer A) (x : A) (q : List A)
      → Holds c (x ∷ q)
      → (c' : CircularBuffer A) × (pop c ≡ ok (x, c')) × (c'.capacity ≡ c.capacity) × Holds c' q
  unfolding pop advance_by
  pop-Holds c x q h = (
    record c { tail = advance c.capacity c.tail; size = c.size - 1 },
    ground (arith, h.size_eq, h.values.0),
    refl,
    record {
      storage_length = h.storage_length;
      tail_in = ground (arith, h.tail_in);
      size_le = omega (arith, h.size_le);
      size_eq = omega (arith, h.size_eq);
      head_eq =
          h.head_eq
          ∙ ap (advance_by c.capacity c.tail) h.size_eq
          ∙ ap (advance_by c.capacity (advance c.capacity c.tail)) one_less;
      values = h.values.1;
    },
  )
    where
      one_less : length q ≡ c.size - 1
      one_less = omega (arith, h.size_eq)
