-- ===== src/AvlTree/Traverse.antt =====
-- `traverse` of src/kernel/include/libk/AVLTree.hpp, against a walk over the values in order.
use ow_os.Common.{
  ℕ, zero, suc, ◌+◌, ◌≤◌, ◌≡◌, refl, sym, ap, ◌∙◌, List, [], ◌∷◌, ◌++◌, arith, Bool, ok, append-nil,
  append_assoc, if◌then◌else◌, Bool-cases, inl, inr,
}
use ow_os.AvlTree.{Tree, leaf, node, traverse_from, traverse, size}
use ow_os.AvlTree.Shape.{inorder}

module _ {A S : Type 0} (callback : S → A → S × Bool) where
  -- The callback at each value in turn, until it says to stop.
  unfoldable pub fold_until : S → List A → S
  fold_until s [] = s
  fold_until s (x ∷ xs) =
      let rest = fold_until (callback s x).0 xs in
      if (callback s x).1 then rest else (callback s x).0

  -- What is left to visit below the top of the stack, and the rounds that it takes.
  abbrev pending : List (Tree A) → List A
  pending [] = []
  pending (leaf ∷ st) = pending st
  pending (node l v h r ∷ st) = v ∷ (inorder r ++ pending st)

  abbrev rounds : List (Tree A) → ℕ
  rounds [] = 1
  rounds (leaf ∷ st) = 1
  rounds (node l v h r ∷ st) = suc (size r + size r + rounds st)

  abbrev AllNodes : List (Tree A) → Type 0
  AllNodes [] = Unit {0}
  AllNodes (leaf ∷ st) = ⊥
  AllNodes (node l v h r ∷ st) = AllNodes st

  traverse_from-fold_until :
      (fuel : ℕ) (s : S) (t : Tree A) (st : List (Tree A))
      → AllNodes st
      → size t + size t + rounds st ≤ fuel
      → traverse_from callback fuel s t st ≡ ok (fold_until s (inorder t ++ pending st))
  unfolding traverse_from fold_until size
  traverse_from-fold_until zero s leaf [] n e = absurd (omega arith)
  traverse_from-fold_until zero s leaf (leaf ∷ st) n e = absurd n
  traverse_from-fold_until zero s leaf (node l v h r ∷ st) n e = absurd (omega arith)
  traverse_from-fold_until zero s (node l v h r) st n e = absurd (omega arith)
  traverse_from-fold_until (suc fuel) s leaf [] n e = refl
  traverse_from-fold_until (suc fuel) s leaf (leaf ∷ st) n e = absurd n
  traverse_from-fold_until (suc fuel) s leaf (node l v h r ∷ st) n e =
      elim (Bool-cases (callback s v).1) [
        | inl go ↦ rw go (traverse_from-fold_until fuel (callback s v).0 r st n (omega arith))
        | inr stop ↦ rw stop
      ]
  traverse_from-fold_until (suc fuel) s (node l v h r) st n e =
      traverse_from-fold_until fuel s l (node l v h r ∷ st) n (omega arith)
      ∙ ap (λ xs. ok (fold_until s xs))
          (sym (append_assoc (inorder l) (v ∷ inorder r) (pending st)))

  -- The stack loop ends within two rounds for each node and one more, meets no null pointer, and
  -- calls the callback at the values in order, up to the first at which it stops.
  pub traverse-fold_until :
      (s : S) (t : Tree A) → traverse callback s t ≡ ok (fold_until s (inorder t))
  unfolding traverse
  traverse-fold_until s t =
      traverse_from-fold_until (suc (size t + size t)) s t [] tt (omega arith)
      ∙ ap (λ xs. ok (fold_until s xs)) (append-nil (inorder t))
