-- ===== src/AvlTree/Uneven.antt =====
-- The tests `<= -1` and `>= 1` of `rebalance` in src/kernel/include/libk/AVLTree.hpp, at a child whose
-- sides are level, which a removal on the other side leads to.
use ow_os.Common.{ℕ, ◌+◌, ◌<◌, ◌≡◌, arith, ok}
use ow_os.AvlTree.{Tree, node, height, balance}
use ow_os.AvlTree.Shape.{IsAvl}
use ow_os.AvlTree.Balance.{balance_right_inner}

module _ {A : Type 0} where
  -- A node whose right side is two levels lower than its balanced left child, whose own sides are
  -- level: if the left side of the inner grandchild is its lower one, the round of `rebalance`
  -- at the node leaves a tree that is not balanced.
  balance_level_child :
      (ll : Tree A) (lv : A) (lh : ℕ) (ml : Tree A) (mv : A) (mh : ℕ) (mr : Tree A) (v : A) (h : ℕ)
      (r u : Tree A)
      → IsAvl (node ll lv lh (node ml mv mh mr))
      → IsAvl r
      → lh ≡ height r + 2
      → height ll ≡ mh
      → height ml < height mr
      → balance (node (node ll lv lh (node ml mv mh mr)) v h r) ≡ ok u
      → ¬ IsAvl u
  balance_level_child ll lv lh ml mv mh mr v h r u al ar e f g eq a =
      let shape = balance_right_inner ll lv lh ml mv mh mr v h r (omega arith) (omega arith) in
      ground (arith, shape)
