-- ===== src/AvlTree/Insert.antt =====
-- `insert` of src/kernel/include/libk/AVLTree.hpp: the walk back up restores the balance.
use ow_os.Common.{
  ℕ, ◌+◌, ◌≤◌, ◌≡◌, ◌≢◌, refl, ap, ◌∙◌, [], ◌∷◌, max, arith, All, some, Result, ok, err,
  assert_failed, append-nil, dec_lt, ◌⊎◌, inl, inr,
}
use ow_os.AvlTree.{
  Tree, leaf, node, from_left, from_right, Trail, height, balance, rebalance, insert,
}
use ow_os.AvlTree.Shape.{inorder, IsAvl, TrailIsAvl, IsExact}
use ow_os.AvlTree.Order.{IsSorted, Differs, insert_sorted, lookup_key, insert_sorted-IsSorted}
use ow_os.AvlTree.Balance.{
  balance_level, balance_right_outer, balance_right_inner, balance_left_outer, balance_left_inner,
  rebalance-Fixed,
}
use ow_os.AvlTree.Search.{descend-place, descend-duplicate}

module _ {A : Type 0} where
  -- A single node, or one that leans to a side: what an insertion makes of a tree that it raises.
  abbrev Leans : Tree A → Type 0
  Leans leaf = ⊥
  Leans (node l v h r) = (h ≡ 1) ⊎ (height l ≢ height r)

  -- A balanced tree that took the place of one of height `k`, and may be one level higher.
  abbrev Grown : ℕ → Tree A → Type 0
  Grown k t = IsAvl t × ((height t ≡ k) ⊎ ((height t ≡ k + 1) × Leans t))

  -- One round at the parent of such a tree.
  abbrev Regrown : ℕ → Result (Tree A) → Type 0
  Regrown k m = (t : Tree A) × (m ≡ ok t) × Grown k t

  level-Grown :
      (l : Tree A) (v : A) (h : ℕ) (r : Tree A)
      → IsAvl l
      → IsAvl r
      → height l ≤ height r + 1
      → height r ≤ height l + 1
      → (max (height l) (height r) + 1 ≡ h)
        ⊎ ((max (height l) (height r) ≡ h) × (height l ≢ height r))
      → Grown h (node l v (max (height l) (height r) + 1) r)
  level-Grown l v h r al ar p q (inl e) = ((al, ar, refl, p, q), inl e)
  level-Grown l v h r al ar p q (inr (e, d)) =
      ((al, ar, refl, p, q), inr (ap (λ n. n + 1) e, inr d))

  heavy_left_grown :
      (l : Tree A) (v : A) (h : ℕ) (r : Tree A)
      → IsAvl l
      → IsAvl r
      → Leans l
      → height l ≡ height r + 2
      → h ≡ height r + 2
      → Regrown h (balance (node l v h r))
  heavy_left_grown leaf v h r al ar n e f = absurd n
  heavy_left_grown (node ll lv lh leaf) v h r al ar n e f =
      (_, balance_right_outer ll lv lh leaf v h r (omega arith) (ground arith), ground arith)
  heavy_left_grown (node ll lv lh (node ml mv mh mr)) v h r al ar n e f =
      elim (dec_lt mh (height ll)) [
        | yes o ↦
            (_, balance_right_outer ll lv lh (node ml mv mh mr) v h r (omega arith) o, ground arith)
        | no i ↦ (
          _,
          balance_right_inner ll lv lh ml mv mh mr v h r (omega arith) (omega arith),
          ground arith,
        )
      ]

  heavy_right_grown :
      (l : Tree A) (v : A) (h : ℕ) (r : Tree A)
      → IsAvl l
      → IsAvl r
      → Leans r
      → height r ≡ height l + 2
      → h ≡ height l + 2
      → Regrown h (balance (node l v h r))
  heavy_right_grown l v h leaf al ar n e f = absurd n
  heavy_right_grown l v h (node leaf rv rh rr) al ar n e f =
      (_, balance_left_outer l v h leaf rv rh rr (omega arith) (ground arith), ground arith)
  heavy_right_grown l v h (node (node ml mv mh mr) rv rh rr) al ar n e f =
      elim (dec_lt mh (height rr)) [
        | yes o ↦
            (_, balance_left_outer l v h (node ml mv mh mr) rv rh rr (omega arith) o, ground arith)
        | no i ↦ (
          _,
          balance_left_inner l v h ml mv mh mr rv rh rr (omega arith) (omega arith),
          ground arith,
        )
      ]

  -- One round of `rebalance` above a subtree that may have grown, on either side.
  left_grown :
      (l : Tree A) (v : A) (h k : ℕ) (r : Tree A)
      → Grown k l
      → IsAvl r
      → h ≡ max k (height r) + 1
      → k ≤ height r + 1
      → height r ≤ k + 1
      → Regrown h (balance (node l v h r))
  left_grown l v h k r (al, inl s) ar e p q = (
    _,
    balance_level l v h r (omega arith) (omega arith),
    level-Grown l v h r al ar (omega arith) (omega arith) (inl (omega arith)),
  )
  left_grown l v h k r (al, inr (s, n)) ar e p q = elim (dec_lt (height r + 1) (height l)) [
    | yes y ↦ heavy_left_grown l v h r al ar n (omega arith) (omega arith)
    | no y ↦ (
      _,
      balance_level l v h r (omega arith) (omega arith),
      level-Grown l v h r al ar (omega arith) (omega arith) (omega arith),
    )
  ]

  right_grown :
      (l : Tree A) (v : A) (h k : ℕ) (r : Tree A)
      → IsAvl l
      → Grown k r
      → h ≡ max (height l) k + 1
      → height l ≤ k + 1
      → k ≤ height l + 1
      → Regrown h (balance (node l v h r))
  right_grown l v h k r al (ar, inl s) e p q = (
    _,
    balance_level l v h r (omega arith) (omega arith),
    level-Grown l v h r al ar (omega arith) (omega arith) (inl (omega arith)),
  )
  right_grown l v h k r al (ar, inr (s, n)) e p q = elim (dec_lt (height l + 1) (height r)) [
    | yes y ↦ heavy_right_grown l v h r al ar n (omega arith) (omega arith)
    | no y ↦ (
      _,
      balance_level l v h r (omega arith) (omega arith),
      level-Grown l v h r al ar (omega arith) (omega arith) (omega arith),
    )
  ]

  climb :
      (p : Trail A) (t : Tree A) (k : ℕ)
      → Regrown k (balance t)
      → TrailIsAvl k p
      → (u : Tree A) × (rebalance t p ≡ ok u) × IsAvl u
  unfolding rebalance
  climb [] t k (u, eq, g) tp = (u, eq, g.0)
  climb (from_left v h r ∷ p) t k (u, eq, g) (ar, e, a, b, tp) =
      let rest = climb p (node u v h r) h (left_grown u v h k r g ar e a b) tp in
      (rest.0, rw eq rest.1, rest.2)
  climb (from_right l v h ∷ p) t k (u, eq, g) (al, e, a, b, tp) =
      let rest = climb p (node l v h u) h (right_grown l v h k u al g e a b) tp in
      (rest.0, rw eq rest.1, rest.2)

  single : (x : A) → Regrown 0 (balance (node leaf x 1 leaf))
  single x = (
    _,
    balance_level leaf x 1 leaf (omega arith) (omega arith),
    (omega arith, inr (refl, inl refl)),
  )

module _ {A : Type 0} (key : A → ℕ) where
  -- Inserting a value with a new key into a sorted tree with true heights meets no null pointer
  -- and no failed assertion; the heights are true again, and the values in order are the old ones
  -- with the new one put in its place, which are sorted.
  pub insert-insert_sorted :
      (x : A) (t : Tree A)
      → IsSorted key (inorder t)
      → IsExact t
      → All (Differs key x) (inorder t)
      → (u : Tree A) × (insert key x t ≡ ok u)
        × IsExact u
        × (inorder u ≡ insert_sorted key x (inorder t))
        × IsSorted key (inorder u)
  unfolding insert
  insert-insert_sorted x t s e d =
      let (q, eq, tq, xq, o) = descend-place key x t [] s d in
      let (u, eq', xu, order) = rebalance-Fixed q (node leaf x 1 leaf) (xq e tt) (tt, tt) in
      let sorted = insert_sorted-IsSorted key x (inorder t) d s in
      let same : inorder u ≡ insert_sorted key x (inorder t) = order ∙ o ∙ append-nil _ in
      (u, rw eq eq', xu, same, rw same sorted)

  -- Inserting a value with a new key into a sorted balanced tree gives a balanced tree.
  pub insert-IsAvl :
      (x : A) (t : Tree A)
      → IsSorted key (inorder t)
      → IsAvl t
      → All (Differs key x) (inorder t)
      → (u : Tree A) × (insert key x t ≡ ok u) × IsAvl u
  unfolding insert
  insert-IsAvl x t s a d =
      let (q, eq, tq, xq, o) = descend-place key x t [] s d in
      let (u, eq', au) = climb q (node leaf x 1 leaf) 0 (single x) (tq a tt) in (u, rw eq eq', au)

  -- A value whose key a sorted tree already holds ends `insert` in its assertion.
  insert_duplicate :
      (x v : A) (t : Tree A)
      → IsSorted key (inorder t)
      → lookup_key key x (inorder t) ≡ some v
      → insert key x t ≡ err assert_failed
  unfolding insert
  insert_duplicate x v t s e = rw (descend-duplicate key x v t [] s e)
