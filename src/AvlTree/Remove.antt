-- ===== src/AvlTree/Remove.antt =====
-- `remove` of src/kernel/include/libk/AVLTree.hpp.
use ow_os.Common.{
  ℕ, ◌≡◌, refl, sym, ap, ◌∙◌, [], ◌∷◌, ◌++◌, arith, Option, none, some, Bool, true, false, Result,
  ok, err, null_deref, ◌>>=◌, append-nil, append_assoc, subst,
}
use ow_os.AvlTree.{
  Tree, leaf, node, from_left, from_right, Trail, link, leftmost, splice, promote, remove_node,
  remove, find_node,
}
use ow_os.AvlTree.Shape.{inorder, plug, before, after, IsExact, TrailIsExact, inorder-link, cut_at}
use ow_os.AvlTree.Order.{
  IsSorted, lookup_key, lookup_key_here, lookup_key-none, remove_key, remove_key_here,
  remove_key_none, IsSorted-Below,
}
use ow_os.AvlTree.Balance.{Fixed, rebalance-Fixed, link-HasExactSides, TrailIsExact-tail}
use ow_os.AvlTree.Search.{Found, missing, at_node, find_node-Found}

module _ {A : Type 0} where
  splice-Fixed :
      (t : Tree A) (p : Trail A)
      → IsExact t
      → TrailIsExact p
      → Fixed (before p ++ (inorder t ++ after p)) (splice t p)
  unfolding splice
  splice-Fixed leaf [] e tp = (leaf, refl, tt, refl)
  splice-Fixed leaf (s ∷ p) e tp =
      let (u, eq, x, o) =
        rebalance-Fixed p (link s leaf) (TrailIsExact-tail s p tp)
          (link-HasExactSides s p leaf tp tt) in
      (u, eq, x, o ∙ inorder-link s p leaf)
  splice-Fixed (node l v h r) p e tp = rebalance-Fixed p (node l v h r) tp (e.0, e.1)

  -- What `leftmost` finds below a node, in order: the successor, its right side, and what
  -- stands after the trail.
  leftmost-inorder :
      (l : Tree A) (v : A) (h : ℕ) (r : Tree A) (q : Trail A)
      → IsExact l
      → IsExact r
      → TrailIsExact q
      → before q ≡ []
      → let (sv, sh, sr, q') = leftmost l v h r q in
        (sv ∷ (inorder sr ++ after q') ≡ inorder (node l v h r) ++ after q)
        × IsExact sr
        × TrailIsExact q'
        × (before q' ≡ [])
  unfolding leftmost
  leftmost-inorder leaf v h r q el er tq b = (refl, er, tq, b)
  leftmost-inorder (node l' v' h' r') v h r q el er tq b =
      let (o, x, tq', b') =
        leftmost-inorder l' v' h' r' (from_left v h r ∷ q) el.0 el.1 (er, tq) b in
      (o ∙ simp append_assoc, x, tq', b')

  before-append : (q p : Trail A) → before (q ++ p) ≡ before p ++ before q
  before-append [] p = sym (append-nil (before p))
  before-append (from_left v h r ∷ q) p = before-append q p
  before-append (from_right l v h ∷ q) p = simp (before-append q p, append_assoc)

  after-append : (q p : Trail A) → after (q ++ p) ≡ after q ++ after p
  after-append [] p = refl
  after-append (from_left v h r ∷ q) p = simp (after-append q p, append_assoc)
  after-append (from_right l v h ∷ q) p = after-append q p

  TrailIsExact-append : (q p : Trail A) → TrailIsExact q → TrailIsExact p → TrailIsExact (q ++ p)
  TrailIsExact-append [] p tq tp = tp
  TrailIsExact-append (from_left v h r ∷ q) p tq tp = (tq.0, TrailIsExact-append q p tq.1 tp)
  TrailIsExact-append (from_right l v h ∷ q) p tq tp = (tq.0, TrailIsExact-append q p tq.1 tp)

  promote-Fixed :
      (l : Tree A) (sv : A) (sh : ℕ) (sr : Tree A) (q p : Trail A)
      → IsExact l
      → IsExact sr
      → TrailIsExact q
      → TrailIsExact p
      → Fixed
          (before p ++ ((inorder l ++ sv ∷ (before q ++ (inorder sr ++ after q))) ++ after p))
          (promote l (sv, sh, sr, q) p)
  unfolding promote
  promote-Fixed l sv sh sr [] p el er tq tp =
      let (u, eq, x, o) = rebalance-Fixed p (node l sv sh sr) tp (el, er) in
      (u, eq, x, o ∙ simp append-nil)
  promote-Fixed l sv sh sr (t ∷ q) p el er tq tp =
      let trail : TrailIsExact (q ++ from_right l sv sh ∷ p) =
        TrailIsExact-append q (from_right l sv sh ∷ p) (TrailIsExact-tail t q tq) (el, tp) in
      let (u, eq, x, o) =
        rebalance-Fixed (q ++ from_right l sv sh ∷ p) (link t sr) trail
          (link-HasExactSides t q sr tq er) in
      (
        u,
        eq,
        x,
        o
            ∙ regroup
            ∙ ap (λ xs. before p ++ ((inorder l ++ sv ∷ xs) ++ after p)) (inorder-link t q sr),
      )
    where
      regroup :
          before (q ++ from_right l sv sh ∷ p)
            ++ (inorder (link t sr) ++ after (q ++ from_right l sv sh ∷ p))
          ≡ before p
            ++ ((inorder l ++ sv ∷ (before q ++ (inorder (link t sr) ++ after q))) ++ after p)
      regroup = simp (
        before-append q (from_right l sv sh ∷ p),
        after-append q (from_right l sv sh ∷ p),
        append_assoc,
      )

  -- A removal at a node that the root is not, or that has a child missing.
  abbrev pub CanRemove : Tree A → Trail A → Type 0
  CanRemove (node (node ll lv lh lr) v h (node rl rv rh rr)) [] = ⊥
  CanRemove n p = Unit {0}

  remove_node-Fixed :
      (l : Tree A) (v : A) (h : ℕ) (r : Tree A) (p : Trail A)
      → IsExact l
      → IsExact r
      → TrailIsExact p
      → CanRemove (node l v h r) p
      → Fixed (before p ++ ((inorder l ++ inorder r) ++ after p)) (remove_node (node l v h r) p)
  unfolding remove_node
  remove_node-Fixed leaf v h r p el er tp c = splice-Fixed r p er tp
  remove_node-Fixed (node ll lv lh lr) v h leaf p el er tp c =
      let (u, eq, x, o) = splice-Fixed (node ll lv lh lr) p el tp in
      (u, eq, x, o ∙ simp (append-nil, append_assoc))
  remove_node-Fixed (node ll lv lh lr) v h (node rl rv rh rr) [] el er tp c = absurd c
  remove_node-Fixed (node ll lv lh lr) v h (node rl rv rh rr) (s ∷ p) el er tp c =
      let (o, xr, tq, b) = leftmost-inorder rl rv rh rr [] er.0 er.1 tt refl in
      let (sv, sh, sr, q) = leftmost rl rv rh rr [] in
      let (u, eq, x, o') = promote-Fixed (node ll lv lh lr) sv sh sr q (s ∷ p) el xr tq tp in
      let run : sv ∷ (before q ++ (inorder sr ++ after q)) ≡ inorder (node rl rv rh rr) =
        ap (λ xs. sv ∷ (xs ++ (inorder sr ++ after q))) b ∙ o ∙ append-nil _ in
      (
        u,
        eq,
        x,
        o' ∙ ap (λ xs. before (s ∷ p) ++ ((inorder (node ll lv lh lr) ++ xs) ++ after (s ∷ p))) run,
      )

  abbrev is_some : Option A → Bool
  is_some none = false
  is_some (some a) = true

  -- Whether the value of a node with two children is to be removed from the root itself.
  abbrev pub IsFullRoot : (A → ℕ) → A → Tree A → Type 0
  IsFullRoot key x (node (node ll lv lh lr) v h (node rl rv rh rr)) = key v ≡ key x
  IsFullRoot key x t = ⊥

  can_remove :
      (key : A → ℕ) (x : A) (t l : Tree A) (v : A) (h : ℕ) (r : Tree A) (q : Trail A)
      → key v ≡ key x
      → plug (node l v h r) q ≡ t
      → ¬ IsFullRoot key x t
      → CanRemove (node l v h r) q
  can_remove key x t leaf v h r q e w n = tt
  can_remove key x t (node ll lv lh lr) v h leaf q e w n = tt
  can_remove key x t (node ll lv lh lr) v h (node rl rv rh rr) [] e w n =
      absurd (n (subst (IsFullRoot key x) w e))
  can_remove key x t (node ll lv lh lr) v h (node rl rv rh rr) (s ∷ q) e w n = tt

module _ {A : Type 0} (key : A → ℕ) where
  abbrev pub Removed : A → Tree A → Result (Tree A × Bool) → Type 0
  Removed x t m =
      (u : Tree A) × (found : Bool) × (m ≡ ok (u, found))
      × IsExact u
      × (inorder u ≡ remove_key key x (inorder t))
      × (found ≡ is_some (lookup_key key x (inorder t)))
      × (found ≡ false → u ≡ t)

  -- Removing from a sorted tree with true heights a value whose key does not stand at a root with
  -- two children. No null pointer is met, the heights are true again, and the values in order are
  -- the old ones without the one that has the key. The result is true exactly if a value has the
  -- key; if none has, the tree is the very same as before.
  pub remove-remove_key :
      (x : A) (t : Tree A)
      → IsSorted key (inorder t)
      → IsExact t
      → ¬ IsFullRoot key x t
      → Removed x t (remove key x t)
  unfolding remove
  remove-remove_key x t s e n = removed (find_node-Found key x t [] s)
    where
      removed :
          {o : Option (Tree A × Trail A)}
          → Found key x t [] o
          → Removed x t (elim o [
            | none ↦ ok (t, false)
            | some (n, p) ↦ remove_node n p >>= λ t'. ok (t', true)
          ])
      removed (missing d) = (
        t,
        false,
        refl,
        e,
        sym (remove_key_none key x (inorder t) d),
        cc (lookup_key-none key x (inorder t) d),
        (λ _. refl),
      )
      removed (at_node l v h r q k o w x') =
          let exact = x' e tt in
          let (u, eq, ex, o') =
            remove_node-Fixed l v h r q exact.0.0 exact.0.1 exact.1
              (can_remove key x t l v h r q k w n) in
          let cut = cut_at t l v h r q o in
          let below =
            IsSorted-Below key (before q ++ inorder l) v (inorder r ++ after q)
              (subst (IsSorted key) cut s) in
          (
            u,
            true,
            rw eq,
            ex,
            o'
                ∙ simp append_assoc (
                    rw
                      (
                        cut,
                        remove_key_here key x v (before q ++ inorder l) (inorder r ++ after q) below
                            k,
                      )
                      (simp append_assoc)),
            rw (
              cut,
              lookup_key_here key x v (before q ++ inorder l) (inorder r ++ after q) below k,
            ),
            (λ differs. cc differs),
          )

  -- At a root with two children `remove` reads through the null parent.
  remove_full_root : (x : A) (t : Tree A) → IsFullRoot key x t → remove key x t ≡ err null_deref
  unfolding remove find_node remove_node
  remove_full_root x leaf f = absurd f
  remove_full_root x (node leaf v h r) f = absurd f
  remove_full_root x (node (node ll lv lh lr) v h leaf) f = absurd f
  remove_full_root x (node (node ll lv lh lr) v h (node rl rv rh rr)) f = ground arith
