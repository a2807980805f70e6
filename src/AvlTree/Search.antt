-- ===== src/AvlTree/Search.antt =====
-- The searches of src/kernel/include/libk/AVLTree.hpp: where `find_node` and the loop of `insert` stop.
use ow_os.Common.{
  ℕ, ◌<◌, ◌≡◌, refl, sym, ◌∙◌, [], ◌∷◌, ◌++◌, Option, none, some, arith, All, append_assoc,
  All-append_left, All-append_right, subst, ◌==◌, true, false, dec_lt, ok, err, assert_failed,
  lt→ltb, le→ltb,
}
use ow_os.AvlTree.{
  Tree, leaf, node, from_left, from_right, Trail, height, find_node, find, value_of, descend,
}
use ow_os.AvlTree.Shape.{
  inorder, plug, before, after, IsExact, TrailIsExact, IsAvl, TrailIsAvl, inorder-link, cut_at,
}
use ow_os.AvlTree.Order.{
  IsSorted, Above, Below, Differs, IsSorted-left, IsSorted-right, IsSorted-Below, IsSorted-Above,
  lookup_key, lookup_key_left, lookup_key_right, lookup_key_here, lookup_key-none, insert_sorted,
  insert_sorted_left, insert_sorted_right, Differs-cut, Above-Differs, Below-Differs,
}

module _ {A : Type 0} (key : A → ℕ) where
  -- Where `find_node` stops: nowhere, or at a node with the key, on a trail in the same tree.
  pub data Found (x : A) (t : Tree A) (p : Trail A) : Option (Tree A × Trail A) → Type 0 where
    missing : All (Differs key x) (inorder t) → Found x t p none
    at_node :
        (l : Tree A) (v : A) (h : ℕ) (r : Tree A) (q : Trail A)
        → key v ≡ key x
        → before q ++ (inorder (node l v h r) ++ after q) ≡ before p ++ (inorder t ++ after p)
        → plug (node l v h r) q ≡ plug t p
        → (IsExact t → TrailIsExact p → IsExact (node l v h r) × TrailIsExact q)
        → Found x t p (some (node l v h r, q))

  Found-left :
      (x : A) (l : Tree A) (v : A) (h : ℕ) (r : Tree A) (p : Trail A)
      {o : Option (Tree A × Trail A)}
      → key x < key v
      → All (Above key v) (inorder r)
      → Found x l (from_left v h r ∷ p) o
      → Found x (node l v h r) p o
  Found-left x l v h r p lt a (missing d) = missing (
      Differs-cut key x v (inorder l) (inorder r) d (omega arith)
        (Above-Differs key x v (inorder r) lt a))
  Found-left x l v h r p lt a (at_node l' v' h' r' q e o w x') =
      at_node l' v' h' r' q e (o ∙ sym (inorder-link (from_left v h r) p l)) w
        (λ ex tp. x' ex.0 (ex.1, tp))

  Found-right :
      (x : A) (l : Tree A) (v : A) (h : ℕ) (r : Tree A) (p : Trail A)
      {o : Option (Tree A × Trail A)}
      → key v < key x
      → All (Below key v) (inorder l)
      → Found x r (from_right l v h ∷ p) o
      → Found x (node l v h r) p o
  Found-right x l v h r p lt b (missing d) = missing (
      Differs-cut key x v (inorder l) (inorder r) (Below-Differs key x v (inorder l) lt b)
        (omega arith) d)
  Found-right x l v h r p lt b (at_node l' v' h' r' q e o w x') =
      at_node l' v' h' r' q e (o ∙ sym (inorder-link (from_right l v h) p r)) w
        (λ ex tp. x' ex.1 (ex.0, tp))

  pub find_node-Found :
      (x : A) (t : Tree A) (p : Trail A)
      → IsSorted key (inorder t)
      → Found x t p (find_node key x t p)
  unfolding find_node
  find_node-Found x leaf p s = missing tt
  find_node-Found x (node l v h r) p s = elim (dec_lt (key v) (key x)) [
    | yes lt ↦
        rw (differs_right lt, lt→ltb _ _ lt)
          (Found-right x l v h r p lt (IsSorted-Below key (inorder l) v (inorder r) s) (
            find_node-Found x r (from_right l v h ∷ p)
              (IsSorted-right key (inorder l) v (inorder r) s)))
    | no ge ↦ elim (dec_lt (key x) (key v)) [
      | yes gt ↦
          rw (differs_left gt, le→ltb (key v) (key x) (omega arith))
            (Found-left x l v h r p gt (IsSorted-Above key (inorder l) v (inorder r) s) (
              find_node-Found x l (from_left v h r ∷ p)
                (IsSorted-left key (inorder l) v (inorder r) s)))
      | no le ↦
          let e : key v ≡ key x = omega arith in
          rw (same e) (at_node l v h r p e refl refl (λ ex tp. (ex, tp)))
    ]
  ]
    where
      differs_right : key v < key x → (key v == key x) ≡ false
      differs_right h = ground arith

      differs_left : key x < key v → (key v == key x) ≡ false
      differs_left h = ground arith

      same : key v ≡ key x → (key v == key x) ≡ true
      same e = ground arith

  -- In a tree whose values are sorted by their keys, `find` gives the value with the key that the
  -- tree holds, or a null pointer if it holds none.
  pub find-lookup_key :
      (x : A) (t : Tree A) → IsSorted key (inorder t) → find key x t ≡ lookup_key key x (inorder t)
  unfolding find
  find-lookup_key x t s = looked_up (find_node-Found x t [] s)
    where
      looked_up :
          {o : Option (Tree A × Trail A)}
          → Found x t [] o
          → value_of o ≡ lookup_key key x (inorder t)
      looked_up (missing d) = sym (lookup_key-none key x (inorder t) d)
      looked_up (at_node l v h r q e o w x') =
          let cut = cut_at t l v h r q o in
          rw cut (
            sym (
              lookup_key_here key x v (before q ++ inorder l) (inorder r ++ after q)
                (IsSorted-Below key (before q ++ inorder l) v (inorder r ++ after q)
                  (subst (IsSorted key) cut s))
                e))

  -- The null link where `insert` puts a value whose key is new.
  pub descend-place :
      (x : A) (t : Tree A) (p : Trail A)
      → IsSorted key (inorder t)
      → All (Differs key x) (inorder t)
      → (q : Trail A) × (descend key x t p ≡ ok q)
        × (IsAvl t → TrailIsAvl (height t) p → TrailIsAvl 0 q)
        × (IsExact t → TrailIsExact p → TrailIsExact q)
        × (before q ++ x ∷ after q ≡ before p ++ (insert_sorted key x (inorder t) ++ after p))
  unfolding descend insert_sorted
  descend-place x leaf p s d = (p, refl, (λ _ tp. tp), (λ _ tp. tp), refl)
  descend-place x (node l v h r) p s d = elim (dec_lt (key x) (key v)) [
    | yes lt ↦
        let (q, eq, tq, xq, o) =
          descend-place x l (from_left v h r ∷ p) (IsSorted-left key (inorder l) v (inorder r) s)
            (All-append_left (Differs key x) (inorder l) (v ∷ inorder r) d) in
        (
          q,
          rw (lt→ltb _ _ lt) eq,
          (λ a tp. tq a.0 (a.1, a.2, a.3, a.4, tp)),
          (λ e tp. xq e.0 (e.1, tp)),
          rw (o, insert_sorted_left key x v (inorder l) (inorder r) lt) (simp append_assoc),
        )
    | no ge ↦
        let differs = (All-append_right (Differs key x) (inorder l) (v ∷ inorder r) d) in
        let gt : key v < key x = omega (arith, differs.0) in
        let (q, eq, tq, xq, o) =
          descend-place x r (from_right l v h ∷ p) (IsSorted-right key (inorder l) v (inorder r) s)
            differs.1 in
        (
          q,
          rw (le→ltb (key x) (key v) (omega arith), lt→ltb _ _ gt) eq,
          (λ a tp. tq a.1 (a.0, a.2, a.3, a.4, tp)),
          (λ e tp. xq e.1 (e.0, tp)),
          rw
              (
                o,
                insert_sorted_right key x v (inorder l) (inorder r)
                    (IsSorted-Below key (inorder l) v (inorder r) s) gt,
              )
              (simp append_assoc),
        )
  ]

  -- With a value of that key in the tree the loop ends in its `assert(false)`.
  pub descend-duplicate :
      (x v : A) (t : Tree A) (p : Trail A)
      → IsSorted key (inorder t)
      → lookup_key key x (inorder t) ≡ some v
      → descend key x t p ≡ err assert_failed
  unfolding descend
  descend-duplicate x v leaf p s e = absurd_lookup e
    where
      absurd_lookup : lookup_key key x [] ≡ some v → descend key x leaf p ≡ err assert_failed
      absurd_lookup e = cc (lookup_key-none key x [] tt)
  descend-duplicate x w (node l v h r) p s e = elim (dec_lt (key x) (key v)) [
    | yes lt ↦ rw (lt→ltb _ _ lt) (
        descend-duplicate x w l (from_left v h r ∷ p)
          (IsSorted-left key (inorder l) v (inorder r) s)
          (sym (
              lookup_key_left key x v (inorder l) (inorder r) lt
                (IsSorted-Above key (inorder l) v (inorder r) s))
            ∙ e))
    | no ge ↦ elim (dec_lt (key v) (key x)) [
      | yes gt ↦
          rw (le→ltb (key x) (key v) (omega arith), lt→ltb _ _ gt)
            (descend-duplicate x w r (from_right l v h ∷ p)
              (IsSorted-right key (inorder l) v (inorder r) s)
              (sym (
                  lookup_key_right key x v (inorder l) (inorder r) gt
                    (IsSorted-Below key (inorder l) v (inorder r) s))
                ∙ e))
      | no le ↦ rw (le→ltb (key x) (key v) (omega arith), le→ltb (key v) (key x) (omega arith))
    ]
  ]
