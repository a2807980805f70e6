-- ===== src/Tests/AvlTree.antt =====
-- Runs of the operations of src/kernel/include/libk/AVLTree.hpp on small trees of numbers.
use ow_os.Common.{ℕ, ◌+◌, ◌≡◌, refl, Bool, ok, arith, ltb}
use ow_os.AvlTree.{Tree, leaf, node, insert, remove, find, traverse}
use ow_os.AvlTree.Shape.{inorder, IsExact, IsAvl}
use ow_os.AvlTree.Order.{IsSorted, insert_sorted, lookup_key}
use ow_os.AvlTree.Insert.{insert-insert_sorted, insert-IsAvl}
use ow_os.AvlTree.Remove.{Removed, remove-remove_key}
use ow_os.AvlTree.Traverse.{fold_until, traverse-fold_until}
use ow_os.AvlTree.Search.{find-lookup_key}

abbrev number : ℕ → ℕ
number n = n

abbrev single : ℕ → Tree ℕ
single n = node leaf n 1 leaf

-- Two values, so that a third below them makes a rotation.
abbrev pair : Tree ℕ
pair = node (single 2) 3 2 leaf

abbrev three : Tree ℕ
three = node (single 2) 3 2 (single 5)

-- Add up to a limit.
abbrev add_up : ℕ → ℕ → ℕ × Bool
add_up total n = (total + n, ltb (total + n) 5)

pair-IsSorted : IsSorted number (inorder pair)
pair-IsSorted = ((omega arith, tt), (tt, tt))

pair-IsAvl : IsAvl pair
pair-IsAvl = ((tt, tt, refl, omega arith, omega arith), tt, refl, omega arith, omega arith)

pair-IsExact : IsExact pair
pair-IsExact = ((tt, tt, refl), tt, refl)

insert-insert_sorted_example :
    (u : Tree ℕ) × (insert number 1 pair ≡ ok u)
    × IsExact u
    × (inorder u ≡ insert_sorted number 1 (inorder pair))
    × IsSorted number (inorder u)
insert-insert_sorted_example =
    insert-insert_sorted number 1 pair pair-IsSorted pair-IsExact (omega arith, (omega arith, tt))

insert-IsAvl_example : (u : Tree ℕ) × (insert number 1 pair ≡ ok u) × IsAvl u
insert-IsAvl_example =
    insert-IsAvl number 1 pair pair-IsSorted pair-IsAvl (omega arith, (omega arith, tt))

remove-remove_key_example : Removed number 3 pair (remove number 3 pair)
remove-remove_key_example = remove-remove_key number 3 pair pair-IsSorted pair-IsExact (λ f. f)

traverse-fold_until_example : traverse add_up 0 three ≡ ok (fold_until add_up 0 (inorder three))
traverse-fold_until_example = traverse-fold_until add_up 0 three

find-lookup_key_example : find number 2 pair ≡ lookup_key number 2 (inorder pair)
find-lookup_key_example = find-lookup_key number 2 pair pair-IsSorted

-- A node of height 2 at the right makes the left child level.
abbrev inner : Tree ℕ
inner = node leaf 4 2 (single 5)

abbrev level : Tree ℕ
level = node (node (single 1) 2 2 leaf) 3 3 inner

level-IsAvl : IsAvl level
level-IsAvl = (
  ((tt, tt, refl, omega arith, omega arith), tt, refl, omega arith, omega arith),
  (tt, (tt, tt, refl, omega arith, omega arith), refl, omega arith, omega arith),
  refl,
  omega arith,
  omega arith,
)

abbrev uneven : Tree ℕ
uneven = node (node (node (single 1) 2 2 leaf) 3 3 leaf) 4 4 (node (single 5) 6 2 (single 7))
