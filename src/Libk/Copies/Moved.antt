-- ===== src/Libk/Copies/Moved.antt =====
-- `memmove` of src/kernel/libk/kcstring.cpp copies ranges that overlap as if through a buffer.
use ow_os.Common.{
  ℕ, zero, suc, ◌+◌, ◌≤◌, ◌<◌, ◌≡◌, ◌∙◌, ◌⊎◌, inl, inr, refl, false, List, Bool-cases, ltb, ltb→lt,
  ltb→le, length, get_or, set, length-set, get_or-set_self, get_or-set_ne, get_elem?-eq-get_or, ok,
  arith,
}
use ow_os.Libk.Copies.{copy_byte, move_down, memcpy, memmove}

-- The memory after a move: the bytes at `dest` are those that were at `src`, the others are as before.
pub record IsMoved (old new : List ℕ) (dest src count : ℕ) : Type 0 where
  pub same_length : length new ≡ length old
  pub moved : (i : ℕ) → i < count → get_or new (dest + i) 0 ≡ get_or old (src + i) 0
  pub kept : (j : ℕ) → (j < dest) ⊎ (dest + count ≤ j) → get_or new j 0 ≡ get_or old j 0

copy_byte-ok :
    (memory : List ℕ) (to from : ℕ)
    → to < length memory
    → from < length memory
    → copy_byte memory to from ≡ ok (set memory to (get_or memory from 0))
unfolding copy_byte
copy_byte-ok memory to from p q = rw (get_elem?-eq-get_or memory from 0 q) (ground arith)

move_down-IsMoved :
    (memory : List ℕ) (dest src n : ℕ)
    → src < dest
    → dest + n ≤ length memory
    → (new : List ℕ) × (move_down memory dest src n ≡ ok new) × IsMoved memory new dest src n
unfolding move_down
move_down-IsMoved memory dest src zero h p = (
  memory,
  refl,
  record { same_length = refl; moved = λ i q. absurd (omega arith); kept = λ j q. refl },
)
move_down-IsMoved memory dest src (suc n) h p =
    let (new, eq, m) = move_down-IsMoved next dest src n h (omega (arith, len)) in
    (
      new,
      rw (copy_byte-ok memory (dest + n) (src + n) (omega arith) (omega arith)) eq,
      record {
        same_length = m.same_length ∙ len;
        moved = λ i q. elim (Bool-cases (ltb i n)) [
          | inl e ↦
              m.moved i (ltb→lt _ _ e)
              ∙ get_or-set_ne memory (dest + n) (src + i) _ 0
                  (λ z. absurd (omega (arith, ltb→lt _ _ e)))
          | inr e ↦ rw (i_eq i q e) (
              m.kept (dest + n) (inr (omega arith))
              ∙ get_or-set_self memory (dest + n) _ 0 (omega arith))
        ];
        kept = λ j q. elim q [
          | inl a ↦
              m.kept j (inl a) ∙ get_or-set_ne memory (dest + n) j _ 0 (λ z. absurd (omega arith))
          | inr b ↦
              m.kept j (inr (omega arith))
              ∙ get_or-set_ne memory (dest + n) j _ 0 (λ z. absurd (omega arith))
        ];
      },
    )
  where
    next : List ℕ
    next = set memory (dest + n) (get_or memory (src + n) 0)

    len : length next ≡ length memory
    len = length-set memory (dest + n) _

    i_eq : (i : ℕ) → i < suc n → ltb i n ≡ false → i ≡ n
    i_eq i q e = omega (arith, ltb→le _ _ e)

memcpy-IsMoved :
    (memory : List ℕ) (dest src n : ℕ)
    → dest < src
    → src + n ≤ length memory
    → (new : List ℕ) × (memcpy memory dest src n ≡ ok new) × IsMoved memory new dest src n
unfolding memcpy
memcpy-IsMoved memory dest src zero h p = (
  memory,
  refl,
  record { same_length = refl; moved = λ i q. absurd (omega arith); kept = λ j q. refl },
)
memcpy-IsMoved memory dest src (suc n) h p =
    let (new, eq, m) =
      memcpy-IsMoved next (dest + 1) (src + 1) n (omega arith) (omega (arith, len)) in
    (
      new,
      rw (copy_byte-ok memory dest src (omega arith) (omega arith)) eq,
      record {
        same_length = m.same_length ∙ len;
        moved = elim [
          | zero ↦ λ q.
              rw (add_zero dest, add_zero src)
                (m.kept dest (inl (omega arith)) ∙ get_or-set_self memory dest _ 0 (omega arith))
          | suc i ↦ λ q.
              rw (add_suc dest i, add_suc src i)
                (m.moved i (omega arith)
                  ∙ get_or-set_ne memory dest (src + 1 + i) _ 0 (λ z. absurd (omega arith)))
        ];
        kept = λ j q. elim q [
          | inl a ↦
              m.kept j (inl (omega arith))
              ∙ get_or-set_ne memory dest j _ 0 (λ z. absurd (omega arith))
          | inr b ↦
              m.kept j (inr (omega arith))
              ∙ get_or-set_ne memory dest j _ 0 (λ z. absurd (omega arith))
        ];
      },
    )
  where
    next : List ℕ
    next = set memory dest (get_or memory src 0)

    len : length next ≡ length memory
    len = length-set memory dest _

    add_zero : (a : ℕ) → a + 0 ≡ a
    add_zero a = omega arith

    add_suc : (a i : ℕ) → a + suc i ≡ a + 1 + i
    add_suc a i = omega arith

-- `memmove` of a range to another inside the memory, whether they overlap or not: it stays inside,
-- the bytes at the destination are those that were at the source, and the others stay as they were.
pub memmove-IsMoved :
    (memory : List ℕ) (dest src count : ℕ)
    → dest + count ≤ length memory
    → src + count ≤ length memory
    → (new : List ℕ) × (memmove memory dest src count ≡ ok new) × IsMoved memory new dest src count
unfolding memmove
memmove-IsMoved memory dest src count p q = elim (Bool-cases (ltb src dest)) [
  | inl e ↦ rw e (move_down-IsMoved memory dest src count (ltb→lt _ _ e) p)
  | inr e ↦ rw e (elim (Bool-cases (ltb dest src)) [
    | inl d ↦ rw d (memcpy-IsMoved memory dest src count (ltb→lt _ _ d) q)
    | inr d ↦ rw d (
      memory,
      refl,
      record { same_length = refl; moved = λ i _. rw (equal e d) refl; kept = λ j _. refl },
    )
  ])
]
  where
    equal : ltb src dest ≡ false → ltb dest src ≡ false → dest ≡ src
    equal e d = omega (arith, ltb→le _ _ e, ltb→le _ _ d)
