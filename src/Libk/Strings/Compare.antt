-- ===== src/Libk/Strings/Compare.antt =====
-- `strlen`, `strcmp` and `strncmp` of src/kernel/libk/kcstring.cpp on strings with their terminator.
use ow_os.Common.{
  ℕ, zero, suc, ◌<◌, ◌≡◌, ◌≢◌, ◌↔◌, refl, Bool-cases, inl, inr, false, not, ◌&&◌, List, [], ◌∷◌,
  ◌++◌, ◌==◌, length, take, All, ok, arith,
}
use ow_os.Common.Int.{ℤ, pos}
use ow_os.Libk.Strings.{difference, strlen, strcmp, strncmp, strncmp_from}

-- A character of a string: not the terminator.
abbrev pub IsCharacter : ℕ → Type 0
IsCharacter c = (c ≢ 0) × (c < 256)

-- `strlen` counts the characters before the terminator, and reads nothing behind it.
strlen-length :
    (text after : List ℕ) → All IsCharacter text → strlen (text ++ 0 ∷ after) ≡ ok (length text)
unfolding strlen
strlen-length [] after all = refl
strlen-length (c ∷ text) after all = rw (strlen-length text after all.1) (ground (arith, all.0.0))

difference-zero : (a b : ℕ) → a < 256 → b < 256 → (difference a b ≡ pos 0) ↔ (a ≡ b)
difference-zero a b p q = ground arith

-- `strcmp` gives 0 exactly for equal strings, and reads nothing behind the terminators.
strcmp_iff :
    (a b after after' : List ℕ)
    → All IsCharacter a
    → All IsCharacter b
    → (r : ℤ) × (strcmp (a ++ 0 ∷ after) (b ++ 0 ∷ after') ≡ ok r) × ((r ≡ pos 0) ↔ (a ≡ b))
unfolding strcmp
strcmp_iff [] [] after after' p q = (pos 0, refl, ((λ e. refl), λ e. refl))
strcmp_iff [] (d ∷ b) after after' p q =
    (difference 0 d, ground (arith, q.0.0), ground (arith, q.0.0, q.0.1, difference-zero 0 d))
strcmp_iff (c ∷ a) [] after after' p q =
    (difference c 0, ground (arith, p.0.0), ground (arith, p.0.0, p.0.1, difference-zero c 0))
strcmp_iff (c ∷ a) (d ∷ b) after after' p q =
    let (r, eq, same) = strcmp_iff a b after after' p.1 q.1 in
    elim (Bool-cases (c == d)) [
      | inl e ↦ (r, ground (arith, e, eq, p.0.0), ground (arith, same, e))
      | inr n ↦ (difference c d, rw n refl, ground (arith, n, difference-zero c d, p.0.1, q.0.1))
    ]

-- The loop ends at characters that differ and at a terminator.
strncmp_from_end :
    (count c1 c2 : ℕ) (s t : List ℕ)
    → (c1 == c2 && not (c1 == 0)) ≡ false
    → strncmp_from count c1 c2 s t ≡ ok (difference c1 c2)
unfolding strncmp_from
strncmp_from_end zero c1 c2 s t e = refl
strncmp_from_end (suc count) c1 c2 [] t e = rw e refl
strncmp_from_end (suc count) c1 c2 (x ∷ s) [] e = rw e refl
strncmp_from_end (suc count) c1 c2 (x ∷ s) (y ∷ t) e = rw e refl

strncmp_from_iff :
    (count c : ℕ) (a b after after' : List ℕ)
    → c ≢ 0
    → All IsCharacter a
    → All IsCharacter b
    → (r : ℤ) × (strncmp_from count c c (a ++ 0 ∷ after) (b ++ 0 ∷ after') ≡ ok r)
      × ((r ≡ pos 0) ↔ (take count a ≡ take count b))
unfolding strncmp_from
strncmp_from_iff zero c a b after after' n p q =
    (difference c c, refl, ((λ e. refl), λ e. ground arith))
strncmp_from_iff (suc count) c [] [] after after' n p q =
    (pos 0, ground (arith, strncmp_from_end count 0 0 after after'), ((λ e. refl), λ e. refl))
strncmp_from_iff (suc count) c [] (d ∷ b) after after' n p q = (
  difference 0 d,
  ground (arith, q.0.0, strncmp_from_end count 0 d after (b ++ 0 ∷ after')),
  ground (arith, q.0.0, q.0.1, difference-zero 0 d),
)
strncmp_from_iff (suc count) c (x ∷ a) [] after after' n p q = (
  difference x 0,
  ground (arith, p.0.0, strncmp_from_end count x 0 (a ++ 0 ∷ after) after'),
  ground (arith, p.0.0, p.0.1, difference-zero x 0),
)
strncmp_from_iff (suc count) c (x ∷ a) (d ∷ b) after after' n p q =
    let (r, eq, same) = strncmp_from_iff count x a b after after' p.0.0 p.1 q.1 in
    elim (Bool-cases (x == d)) [
      | inl e ↦ (r, ground (arith, e, eq, n), ground (arith, same, e))
      | inr m ↦ (
        difference x d,
        ground (arith, n, m, strncmp_from_end count x d (a ++ 0 ∷ after) (b ++ 0 ∷ after')),
        ground (arith, m, difference-zero x d, p.0.1, q.0.1),
      )
    ]

-- `strncmp` with a count that is not 0 gives 0 exactly for strings with the same first characters,
-- as many as the count, and reads nothing behind the terminators.
strncmp_iff :
    (a b after after' : List ℕ) (count : ℕ)
    → All IsCharacter a
    → All IsCharacter b
    → 0 < count
    → (r : ℤ) × (strncmp (a ++ 0 ∷ after) (b ++ 0 ∷ after') count ≡ ok r)
      × ((r ≡ pos 0) ↔ (take count a ≡ take count b))
unfolding strncmp strncmp_from
strncmp_iff a b after after' zero p q h = absurd (omega arith)
strncmp_iff [] [] after after' (suc count) p q h = (
  pos 0,
  strncmp_from_end (suc count) 0 0 (0 ∷ after) (0 ∷ after') refl,
  ((λ e. refl), λ e. refl),
)
strncmp_iff [] (d ∷ b) after after' (suc count) p q h = (
  difference 0 d,
  ground (arith, q.0.0, strncmp_from_end (suc count) 0 d (0 ∷ after) (d ∷ b ++ 0 ∷ after')),
  ground (arith, q.0.0, q.0.1, difference-zero 0 d),
)
strncmp_iff (c ∷ a) [] after after' (suc count) p q h = (
  difference c 0,
  ground (arith, p.0.0, strncmp_from_end (suc count) c 0 (c ∷ a ++ 0 ∷ after) (0 ∷ after')),
  ground (arith, p.0.0, p.0.1, difference-zero c 0),
)
strncmp_iff (c ∷ a) (d ∷ b) after after' (suc count) p q h = elim (Bool-cases (c == d)) [
  | inl e ↦
      let (r, eq, same) = strncmp_from_iff count c a b after after' p.0.0 p.1 q.1 in
      (r, ground (arith, e, eq, p.0.0), ground (arith, same, e))
  | inr m ↦ (
    difference c d,
    ground (arith, m, strncmp_from_end (suc count) c d (c ∷ a ++ 0 ∷ after) (d ∷ b ++ 0 ∷ after')),
    ground (arith, m, difference-zero c d, p.0.1, q.0.1),
  )
]
