-- ===== src/AvlTree.antt =====
-- src/kernel/include/libk/AVLTree.hpp. A tree is a value: a `node_t` with its stored height, and a
-- null pointer as `leaf`. The parent pointers are the trail from a node up to the root, which the
-- loops of `insert`, `remove` and `rebalance` walk: the innermost step comes first. `T` is any
-- type whose `==` and `<` compare a key, as those of `memory_region_t` compare `virt_address`.
-- Heights are bounded by the number of nodes, so the source's `int` does not overflow.
pub mod Shape
pub mod Order
pub mod Balance
pub mod Search
pub mod Insert
pub mod Remove
pub mod Traverse
pub mod Uneven
use ow_os.Common.{
  ℕ, zero, suc, ◌+◌, List, [], ◌∷◌, ◌++◌, Bool, true, false, max, Option, none, some, ltb, ◌==◌,
  if◌then◌else◌, Result, ok, err, null_deref, assert_failed, out_of_fuel, ◌>>=◌,
}
use ow_os.Common.Int.{ℤ, pos, negsuc, sub_ℕ, ltb_ℤ, leb_ℤ}

pub data Tree {ℓ} (A : Type ℓ) : Type ℓ where
  leaf : Tree A
  node : Tree A → A → ℕ → Tree A → Tree A

-- One step from a node to its parent: the parent's value, height and other child.
pub data Ascent {ℓ} (A : Type ℓ) : Type ℓ where
  from_left : A → ℕ → Tree A → Ascent A
  from_right : Tree A → A → ℕ → Ascent A

abbrev pub Trail {ℓ} : Type ℓ → Type ℓ
Trail A = List (Ascent A)

module _ {ℓ} {A : Type ℓ} where
  -- `tree ? tree->height : 0`
  abbrev pub height : Tree A → ℕ
  height leaf = 0
  height (node l v h r) = h

  -- The parent, with its link on this side set to the tree.
  abbrev pub link : Ascent A → Tree A → Tree A
  link (from_left v h r) t = node t v h r
  link (from_right l v h) t = node l v h t

  pub update_height : Tree A → Result (Tree A)
  update_height leaf = err null_deref
  update_height (node l v h r) = ok (node l v (max (height l) (height r) + 1) r)

  pub get_balance_factor : Tree A → Result ℤ
  get_balance_factor leaf = err null_deref
  get_balance_factor (node l v h r) = ok (sub_ℕ (height r) (height l))

  pub rotate_right : Tree A → Result (Tree A)
  unfolding update_height
  rotate_right leaf = err null_deref
  rotate_right (node leaf v h r) = err null_deref
  rotate_right (node (node left cv ch middle) v h r) = do
    root ← update_height (node middle v h r)
    update_height (node left cv ch root)

  pub rotate_left : Tree A → Result (Tree A)
  unfolding update_height
  rotate_left leaf = err null_deref
  rotate_left (node l v h leaf) = err null_deref
  rotate_left (node l v h (node middle cv ch right)) = do
    root ← update_height (node l v h middle)
    update_height (node root cv ch right)

  pub rotate_right_left : Tree A → Result (Tree A)
  unfolding rotate_right rotate_left
  rotate_right_left leaf = err null_deref
  rotate_right_left (node l v h r) = do r' ← rotate_right r; rotate_left (node l v h r')

  pub rotate_left_right : Tree A → Result (Tree A)
  unfolding rotate_right rotate_left
  rotate_left_right leaf = err null_deref
  rotate_left_right (node l v h r) = do l' ← rotate_left l; rotate_right (node l' v h r)

  -- The two tests of `rebalance`, at a node whose height is up to date.
  pub rotate_if_needed : Tree A → Result (Tree A)
  unfolding get_balance_factor rotate_right_left rotate_left_right
  rotate_if_needed leaf = err null_deref
  rotate_if_needed (node l v h r) = do
    bf ← get_balance_factor (node l v h r)
    if ltb_ℤ bf (negsuc 0)
        then (do
          left_bf ← get_balance_factor l
          if leb_ℤ left_bf (negsuc 0)
              then rotate_right (node l v h r)
              else rotate_left_right (node l v h r))
        else if ltb_ℤ (pos 1) bf
        then (do
          right_bf ← get_balance_factor r
          if leb_ℤ (pos 1) right_bf
              then rotate_left (node l v h r)
              else rotate_right_left (node l v h r))
        else ok (node l v h r)

  -- One round of the loop of `rebalance`.
  pub balance : Tree A → Result (Tree A)
  unfolding update_height rotate_if_needed
  balance t = update_height t >>= rotate_if_needed

  -- The loop: `node = node->parent`, up to the root, which becomes `m_tree`.
  pub rebalance : Tree A → Trail A → Result (Tree A)
  unfolding balance
  rebalance t [] = balance t
  rebalance t (s ∷ p) = do t' ← balance t; rebalance (link s t') p

  -- `successor` walks left; its value, height, right child, and the trail up to where it started.
  pub leftmost : Tree A → A → ℕ → Tree A → Trail A → A × ℕ × Tree A × Trail A
  leftmost leaf v h r q = (v, h, r, q)
  leftmost (node l' v' h' r') v h r q = leftmost l' v' h' r' (from_left v h r ∷ q)

  -- A node with at most one child makes room for that child.
  pub splice : Tree A → Trail A → Result (Tree A)
  unfolding rebalance
  splice leaf [] = ok leaf
  splice leaf (s ∷ p) = rebalance (link s leaf) p
  splice (node l v h r) p = rebalance (node l v h r) p

  -- The successor takes the place of a node that has the left child `l`: `new_node` is the
  -- successor itself if it was the node's right child, and else the successor's old parent.
  pub promote : Tree A → A × ℕ × Tree A × Trail A → Trail A → Result (Tree A)
  unfolding rebalance
  promote l (sv, sh, sr, []) p = rebalance (node l sv sh sr) p
  promote l (sv, sh, sr, t ∷ q) p = rebalance (link t sr) (q ++ from_right l sv sh ∷ p)

  -- `remove(node_t *)`. With two children it reads `node->parent->left` without a test for the
  -- root, whose parent is null.
  pub remove_node : Tree A → Trail A → Result (Tree A)
  unfolding splice promote leftmost
  remove_node leaf p = err null_deref
  remove_node (node leaf v h r) p = splice r p
  remove_node (node (node ll lv lh lr) v h leaf) p = splice (node ll lv lh lr) p
  remove_node (node (node ll lv lh lr) v h (node rl rv rh rr)) [] = err null_deref
  remove_node (node (node ll lv lh lr) v h (node rl rv rh rr)) (s ∷ p) =
      promote (node ll lv lh lr) (leftmost rl rv rh rr []) (s ∷ p)

  -- `node ? &node->value : nullptr`
  abbrev value_of : Option (Tree A × Trail A) → Option A
  value_of none = none
  value_of (some (leaf, p)) = none
  value_of (some (node l v h r, p)) = some v

module _ {ℓ} {A : Type ℓ} (key : A → ℕ) where
  -- The search loop of `insert`: the trail from the null link where the value belongs.
  pub descend : A → Tree A → Trail A → Result (Trail A)
  descend x leaf p = ok p
  descend x (node l v h r) p =
      let to_left = descend x l (from_left v h r ∷ p) in
      let to_right = descend x r (from_right l v h ∷ p) in
      if ltb (key x) (key v)
      then to_left
      else if ltb (key v) (key x)
      then to_right
      else err assert_failed

  unfoldable pub insert : A → Tree A → Result (Tree A)
  unfolding descend rebalance
  insert x t = do p ← descend x t []; rebalance (node leaf x 1 leaf) p

  pub find_node : A → Tree A → Trail A → Option (Tree A × Trail A)
  find_node x leaf p = none
  find_node x (node l v h r) p =
      let to_left = find_node x l (from_left v h r ∷ p) in
      let to_right = find_node x r (from_right l v h ∷ p) in
      if key v == key x
      then some (node l v h r, p)
      else if ltb (key v) (key x)
      then to_right
      else to_left

  unfoldable pub find : A → Tree A → Option A
  unfolding find_node
  find x t = value_of (find_node x t [])

  unfoldable pub remove : A → Tree A → Result (Tree A × Bool)
  unfolding find_node remove_node
  remove x t = elim (find_node x t []) [
    | none ↦ ok (t, false)
    | some (n, p) ↦ remove_node n p >>= λ t'. ok (t', true)
  ]

module _ {ℓ} {A : Type ℓ} where
  -- The search by a comparator, which is 0 at what is sought and negative left of it.
  unfoldable pub find_by : (A → ℤ) → Tree A → Option A
  find_by comparator leaf = none
  find_by comparator (node l v h r) =
      let to_left = find_by comparator l in
      let to_right = find_by comparator r in
      elim (comparator v) [ pos zero ↦ some v | negsuc n ↦ to_right | pos (suc n) ↦ to_left ]

  -- The loop of `traverse`, a round for each unit of fuel. The callback changes a state `S` and
  -- says whether to go on.
  pub traverse_from {κ} :
      {S : Type κ} (callback : S → A → S × Bool) → ℕ → S → Tree A → List (Tree A) → Result S
  traverse_from callback zero s t nodes = err out_of_fuel
  traverse_from callback (suc fuel) s (node l v h r) nodes =
      traverse_from callback fuel s l (node l v h r ∷ nodes)
  traverse_from callback (suc fuel) s leaf [] = ok s
  traverse_from callback (suc fuel) s leaf (leaf ∷ nodes) = err null_deref
  traverse_from callback (suc fuel) s leaf (node l v h r ∷ nodes) =
      let rest = traverse_from callback fuel (callback s v).0 r nodes in
      if (callback s v).1 then rest else ok (callback s v).0

  pub size : Tree A → ℕ
  size leaf = 0
  size (node l v h r) = suc (size l + size r)

  -- Each node is pushed once and popped once, and one more round sees that nothing is left.
  unfoldable pub traverse {κ} : {S : Type κ} (callback : S → A → S × Bool) → S → Tree A → Result S
  unfolding traverse_from size
  traverse callback s t = traverse_from callback (suc (size t + size t)) s t []
