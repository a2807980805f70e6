-- ===== src/AvlTree/Balance.antt =====
-- One round of `rebalance` of src/kernel/include/libk/AVLTree.hpp, and the whole walk to the root.
use ow_os.Common.{
  ℕ, ◌+◌, ◌≤◌, ◌<◌, ◌≡◌, refl, ap, sym, ◌∙◌, List, [], ◌∷◌, ◌++◌, max, arith, append_assoc,
  append-nil, Result, ok, dec_lt,
}
use ow_os.AvlTree.{
  Tree, leaf, node, Ascent, from_left, from_right, Trail, height, link, balance, rebalance,
}
use ow_os.AvlTree.Shape.{inorder, before, after, IsExact, TrailIsExact, inorder-link}

module _ {A : Type 0} where
  -- The subtrees of a node have exact heights; its own may be stale.
  abbrev pub HasExactSides : Tree A → Type 0
  HasExactSides leaf = ⊥
  HasExactSides (node l v h r) = IsExact l × IsExact r

  -- A step that reached a tree with exact heights and these values.
  abbrev pub Fixed : List A → Result (Tree A) → Type 0
  Fixed xs m = (t : Tree A) × (m ≡ ok t) × IsExact t × (inorder t ≡ xs)

  pub balance_level :
      (l : Tree A) (v : A) (h : ℕ) (r : Tree A)
      → height l ≤ height r + 1
      → height r ≤ height l + 1
      → balance (node l v h r) ≡ ok (node l v (max (height l) (height r) + 1) r)
  unfolding balance
  balance_level l v h r p q = ground arith

  pub balance_right_outer :
      (ll : Tree A) (lv : A) (lh : ℕ) (lr : Tree A) (v : A) (h : ℕ) (r : Tree A)
      → height r + 1 < lh
      → height lr < height ll
      → balance (node (node ll lv lh lr) v h r) ≡ (
          let k = max (height lr) (height r) + 1 in
          ok (node ll lv (max (height ll) k + 1) (node lr v k r)))
  unfolding balance
  balance_right_outer ll lv lh lr v h r p q = ground arith

  pub balance_right_inner :
      (ll : Tree A) (lv : A) (lh : ℕ) (ml : Tree A) (mv : A) (mh : ℕ) (mr : Tree A) (v : A) (h : ℕ)
      (r : Tree A)
      → height r + 1 < lh
      → height ll ≤ mh
      → balance (node (node ll lv lh (node ml mv mh mr)) v h r) ≡ (
          let a = max (height ll) (height ml) + 1 in
          let b = max (height mr) (height r) + 1 in
          ok (node (node ll lv a ml) mv (max a b + 1) (node mr v b r)))
  unfolding balance
  balance_right_inner ll lv lh ml mv mh mr v h r p q = ground arith

  pub balance_left_outer :
      (l : Tree A) (v : A) (h : ℕ) (rl : Tree A) (rv : A) (rh : ℕ) (rr : Tree A)
      → height l + 1 < rh
      → height rl < height rr
      → balance (node l v h (node rl rv rh rr)) ≡ (
          let k = max (height l) (height rl) + 1 in
          ok (node (node l v k rl) rv (max k (height rr) + 1) rr))
  unfolding balance
  balance_left_outer l v h rl rv rh rr p q = ground arith

  pub balance_left_inner :
      (l : Tree A) (v : A) (h : ℕ) (ml : Tree A) (mv : A) (mh : ℕ) (mr : Tree A) (rv : A) (rh : ℕ)
      (rr : Tree A)
      → height l + 1 < rh
      → height rr ≤ mh
      → balance (node l v h (node (node ml mv mh mr) rv rh rr)) ≡ (
          let a = max (height l) (height ml) + 1 in
          let b = max (height mr) (height rr) + 1 in
          ok (node (node l v a ml) mv (max a b + 1) (node mr rv b rr)))
  unfolding balance
  balance_left_inner l v h ml mv mh mr rv rh rr p q = ground arith

  heavy_left :
      (l : Tree A) (v : A) (h : ℕ) (r : Tree A)
      → IsExact l
      → IsExact r
      → height r + 1 < height l
      → Fixed (inorder (node l v h r)) (balance (node l v h r))
  heavy_left leaf v h r el er p = absurd (omega arith)
  heavy_left (node ll lv lh leaf) v h r el er p = (
    _,
    balance_right_outer ll lv lh leaf v h r p (omega arith),
    (el.0, (tt, er, refl), refl),
    simp append_assoc,
  )
  heavy_left (node ll lv lh (node ml mv mh mr)) v h r el er p = elim (dec_lt mh (height ll)) [
    | yes q ↦ (
      _,
      balance_right_outer ll lv lh (node ml mv mh mr) v h r p q,
      (el.0, (el.1, er, refl), refl),
      simp append_assoc,
    )
    | no q ↦ (
      _,
      balance_right_inner ll lv lh ml mv mh mr v h r p (omega arith),
      ((el.0, el.1.0, refl), (el.1.1, er, refl), refl),
      simp append_assoc,
    )
  ]

  heavy_right :
      (l : Tree A) (v : A) (h : ℕ) (r : Tree A)
      → IsExact l
      → IsExact r
      → height l + 1 < height r
      → Fixed (inorder (node l v h r)) (balance (node l v h r))
  heavy_right l v h leaf el er p = absurd (omega arith)
  heavy_right l v h (node leaf rv rh rr) el er p = (
    _,
    balance_left_outer l v h leaf rv rh rr p (omega arith),
    ((el, tt, refl), er.1, refl),
    simp append_assoc,
  )
  heavy_right l v h (node (node ml mv mh mr) rv rh rr) el er p = elim (dec_lt mh (height rr)) [
    | yes q ↦ (
      _,
      balance_left_outer l v h (node ml mv mh mr) rv rh rr p q,
      ((el, er.0, refl), er.1, refl),
      simp append_assoc,
    )
    | no q ↦ (
      _,
      balance_left_inner l v h ml mv mh mr rv rh rr p (omega arith),
      ((el, er.0.0, refl), (er.0.1, er.1, refl), refl),
      simp append_assoc,
    )
  ]

  pub balance-Fixed : (t : Tree A) → HasExactSides t → Fixed (inorder t) (balance t)
  balance-Fixed leaf e = absurd e
  balance-Fixed (node l v h r) e = elim (dec_lt (height r + 1) (height l)) [
    | yes p ↦ heavy_left l v h r e.0 e.1 p
    | no p ↦ elim (dec_lt (height l + 1) (height r)) [
      | yes q ↦ heavy_right l v h r e.0 e.1 q
      | no q ↦ (_, balance_level l v h r (omega arith) (omega arith), (e.0, e.1, refl), refl)
    ]
  ]

  pub link-HasExactSides :
      (s : Ascent A) (p : Trail A) (t : Tree A)
      → TrailIsExact (s ∷ p)
      → IsExact t
      → HasExactSides (link s t)
  link-HasExactSides (from_left v h r) p t e x = (x, e.0)
  link-HasExactSides (from_right l v h) p t e x = (e.0, x)

  pub TrailIsExact-tail : (s : Ascent A) (p : Trail A) → TrailIsExact (s ∷ p) → TrailIsExact p
  TrailIsExact-tail (from_left v h r) p e = e.1
  TrailIsExact-tail (from_right l v h) p e = e.1

  -- The walk to the root meets no null pointer, and keeps the order of the values.
  pub rebalance-Fixed :
      (p : Trail A) (t : Tree A)
      → TrailIsExact p
      → HasExactSides t
      → Fixed (before p ++ (inorder t ++ after p)) (rebalance t p)
  unfolding rebalance
  rebalance-Fixed [] t tp e =
      let (u, eq, x, o) = balance-Fixed t e in (u, eq, x, o ∙ sym (append-nil (inorder t)))
  rebalance-Fixed (s ∷ p) t tp e =
      let (u, eq, x, o) = balance-Fixed t e in
      let (w, eq', x', o') =
        rebalance-Fixed p (link s u) (TrailIsExact-tail s p tp) (link-HasExactSides s p u tp x) in
      (
        w,
        rw eq eq',
        x',
        o' ∙ inorder-link s p u ∙ ap (λ xs. before (s ∷ p) ++ (xs ++ after (s ∷ p))) o,
      )
