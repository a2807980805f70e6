-- ===== src/AvlTree/Shape.antt =====
-- What a tree of src/kernel/include/libk/AVLTree.hpp holds, in order, and the invariants of its shape.
use ow_os.Common.{ℕ, ◌+◌, ◌≤◌, ◌≡◌, List, [], ◌∷◌, ◌++◌, max, append_assoc, append-nil, sym, ◌∙◌}
use ow_os.AvlTree.{Tree, leaf, node, Ascent, from_left, from_right, Trail, height, link}

module _ {A : Type 0} where
  abbrev pub inorder : Tree A → List A
  inorder leaf = []
  inorder (node l v h r) = inorder l ++ v ∷ inorder r

  -- What stands before and after the place that a trail leads to.
  abbrev pub before : Trail A → List A
  before [] = []
  before (from_left v h r ∷ p) = before p
  before (from_right l v h ∷ p) = before p ++ (inorder l ++ v ∷ [])

  abbrev pub after : Trail A → List A
  after [] = []
  after (from_left v h r ∷ p) = v ∷ (inorder r ++ after p)
  after (from_right l v h ∷ p) = after p

  -- The whole tree around the place that a trail leads to.
  abbrev pub plug : Tree A → Trail A → Tree A
  plug t [] = t
  plug t (s ∷ p) = plug (link s t) p

  -- The stored heights are the true ones.
  abbrev pub IsExact : Tree A → Type 0
  IsExact leaf = Unit {0}
  IsExact (node l v h r) = IsExact l × IsExact r × (h ≡ max (height l) (height r) + 1)

  -- So they are, and siblings differ by one at most.
  abbrev pub IsAvl : Tree A → Type 0
  IsAvl leaf = Unit {0}
  IsAvl (node l v h r) =
      IsAvl l
      × IsAvl r
      × (h ≡ max (height l) (height r) + 1)
      × (height l ≤ height r + 1)
      × (height r ≤ height l + 1)

  -- The subtrees beside a trail have exact heights; those on the trail need not.
  abbrev pub TrailIsExact : Trail A → Type 0
  TrailIsExact [] = Unit {0}
  TrailIsExact (from_left v h r ∷ p) = IsExact r × TrailIsExact p
  TrailIsExact (from_right l v h ∷ p) = IsExact l × TrailIsExact p

  -- A balanced tree of height `k` at the end of the trail makes the whole tree balanced.
  abbrev pub TrailIsAvl : ℕ → Trail A → Type 0
  TrailIsAvl k [] = Unit {0}
  TrailIsAvl k (from_left v h r ∷ p) =
      IsAvl r
      × (h ≡ max k (height r) + 1)
      × (k ≤ height r + 1)
      × (height r ≤ k + 1)
      × TrailIsAvl h p
  TrailIsAvl k (from_right l v h ∷ p) =
      IsAvl l
      × (h ≡ max (height l) k + 1)
      × (height l ≤ k + 1)
      × (k ≤ height l + 1)
      × TrailIsAvl h p

  pub IsAvl-IsExact : (t : Tree A) → IsAvl t → IsExact t
  IsAvl-IsExact leaf a = tt
  IsAvl-IsExact (node l v h r) a = (IsAvl-IsExact l a.0, IsAvl-IsExact r a.1, a.2)

  -- Both sides of the hole are filled as the parent's link is set.
  pub inorder-link :
      (s : Ascent A) (p : Trail A) (t : Tree A)
      → before p ++ (inorder (link s t) ++ after p) ≡ before (s ∷ p) ++ (inorder t ++ after (s ∷ p))
  inorder-link (from_left v h r) p t = simp append_assoc
  inorder-link (from_right l v h) p t = simp append_assoc

  -- A node at the end of a trail cuts the sorted list of the whole tree around its value.
  pub cut_at :
      (t l : Tree A) (v : A) (h : ℕ) (r : Tree A) (q : Trail A)
      → before q ++ (inorder (node l v h r) ++ after q) ≡ inorder t ++ []
      → inorder t ≡ (before q ++ inorder l) ++ v ∷ (inorder r ++ after q)
  cut_at t l v h r q o = sym (append-nil (inorder t)) ∙ sym o ∙ simp append_assoc
