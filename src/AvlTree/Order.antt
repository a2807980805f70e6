-- ===== src/AvlTree/Order.antt =====
-- The sorted lists that the trees of src/kernel/include/libk/AVLTree.hpp stand for: the sequence of
-- values with rising keys, and its insertion, removal and lookup by key.
use ow_os.Common.{
  ℕ, ◌<◌, ◌≡◌, ◌≢◌, refl, List, [], ◌∷◌, ◌++◌, Option, none, some, arith, All, All-append,
  All-append_left, All-append_right, All-map, ltb, ◌==◌, if◌then◌else◌, Bool-cases, inl, inr,
  ltb→lt, ltb→le,
}

module _ {A : Type 0} (key : A → ℕ) where
  abbrev pub Above : A → A → Type 0
  Above x y = key x < key y

  abbrev pub Below : A → A → Type 0
  Below x y = key y < key x

  abbrev pub Differs : A → A → Type 0
  Differs x y = key y ≢ key x

  abbrev pub IsSorted : List A → Type 0
  IsSorted [] = Unit {0}
  IsSorted (x ∷ xs) = All (Above x) xs × IsSorted xs

  unfoldable pub insert_sorted : A → List A → List A
  insert_sorted x [] = x ∷ []
  insert_sorted x (y ∷ ys) = if ltb (key x) (key y) then x ∷ y ∷ ys else y ∷ insert_sorted x ys

  unfoldable pub remove_key : A → List A → List A
  remove_key x [] = []
  remove_key x (y ∷ ys) = if key y == key x then ys else y ∷ remove_key x ys

  unfoldable pub lookup_key : A → List A → Option A
  lookup_key x [] = none
  lookup_key x (y ∷ ys) = if key y == key x then some y else lookup_key x ys

  -- The parts of a sorted list around one of its values.
  pub IsSorted-left : (xs : List A) (v : A) (ys : List A) → IsSorted (xs ++ v ∷ ys) → IsSorted xs
  IsSorted-left [] v ys s = tt
  IsSorted-left (x ∷ xs) v ys s =
      (All-append_left (Above x) xs (v ∷ ys) s.0, IsSorted-left xs v ys s.1)

  pub IsSorted-right : (xs : List A) (v : A) (ys : List A) → IsSorted (xs ++ v ∷ ys) → IsSorted ys
  IsSorted-right [] v ys s = s.1
  IsSorted-right (x ∷ xs) v ys s = IsSorted-right xs v ys s.1

  pub IsSorted-Below :
      (xs : List A) (v : A) (ys : List A) → IsSorted (xs ++ v ∷ ys) → All (Below v) xs
  IsSorted-Below [] v ys s = tt
  IsSorted-Below (x ∷ xs) v ys s =
      ((All-append_right (Above x) xs (v ∷ ys) s.0).0, IsSorted-Below xs v ys s.1)

  pub IsSorted-Above :
      (xs : List A) (v : A) (ys : List A) → IsSorted (xs ++ v ∷ ys) → All (Above v) ys
  IsSorted-Above [] v ys s = s.0
  IsSorted-Above (x ∷ xs) v ys s = IsSorted-Above xs v ys s.1

  pub insert_sorted_left :
      (x v : A) (xs ys : List A)
      → key x < key v
      → insert_sorted x (xs ++ v ∷ ys) ≡ insert_sorted x xs ++ v ∷ ys
  unfolding insert_sorted
  insert_sorted_left x v [] ys h = ground arith
  insert_sorted_left x v (y ∷ xs) ys h = ground (arith, insert_sorted_left x v xs ys h)

  pub insert_sorted_right :
      (x v : A) (xs ys : List A)
      → All (Below v) xs
      → key v < key x
      → insert_sorted x (xs ++ v ∷ ys) ≡ xs ++ v ∷ insert_sorted x ys
  unfolding insert_sorted
  insert_sorted_right x v [] ys b h = ground arith
  insert_sorted_right x v (y ∷ xs) ys b h = ground (arith, insert_sorted_right x v xs ys b.1 h)

  insert_sorted-All :
      (P : A → Type 0) (x : A) (ys : List A) → P x → All P ys → All P (insert_sorted x ys)
  unfolding insert_sorted
  insert_sorted-All P x [] p a = (p, tt)
  insert_sorted-All P x (y ∷ ys) p a = elim (Bool-cases (ltb (key x) (key y))) [
    | inl e ↦ rw e (p, a)
    | inr e ↦ rw e (a.0, insert_sorted-All P x ys p a.1)
  ]

  pub insert_sorted-IsSorted :
      (x : A) (ys : List A) → All (Differs x) ys → IsSorted ys → IsSorted (insert_sorted x ys)
  unfolding insert_sorted
  insert_sorted-IsSorted x [] d s = (tt, tt)
  insert_sorted-IsSorted x (y ∷ ys) d s = elim (Bool-cases (ltb (key x) (key y))) [
    | inl e ↦ rw e ((ltb→lt _ _ e, All-map _ _ ys (λ z p. omega (arith, ltb→lt _ _ e)) s.0), s)
    | inr e ↦
        let below : key y < key x = omega (arith, ltb→le _ _ e, d.0) in
        rw e (insert_sorted-All (Above y) x ys below s.0, insert_sorted-IsSorted x ys d.1 s.1)
  ]

  pub remove_key_here :
      (x v : A) (xs ys : List A)
      → All (Below v) xs
      → key v ≡ key x
      → remove_key x (xs ++ v ∷ ys) ≡ xs ++ ys
  unfolding remove_key
  remove_key_here x v [] ys b h = ground arith
  remove_key_here x v (y ∷ xs) ys b h = ground (arith, remove_key_here x v xs ys b.1 h)

  pub lookup_key_here :
      (x v : A) (xs ys : List A)
      → All (Below v) xs
      → key v ≡ key x
      → lookup_key x (xs ++ v ∷ ys) ≡ some v
  unfolding lookup_key
  lookup_key_here x v [] ys b h = ground arith
  lookup_key_here x v (y ∷ xs) ys b h = ground (arith, lookup_key_here x v xs ys b.1 h)

  pub lookup_key-none : (x : A) (ys : List A) → All (Differs x) ys → lookup_key x ys ≡ none
  unfolding lookup_key
  lookup_key-none x [] d = refl
  lookup_key-none x (y ∷ ys) d = ground (arith, lookup_key-none x ys d.1)

  pub remove_key_none : (x : A) (ys : List A) → All (Differs x) ys → remove_key x ys ≡ ys
  unfolding remove_key
  remove_key_none x [] d = refl
  remove_key_none x (y ∷ ys) d = ground (arith, remove_key_none x ys d.1)

  -- A key that a sorted list does not have below a value, and the whole list on its side.
  pub Differs-cut :
      (x v : A) (xs ys : List A)
      → All (Differs x) xs
      → key v ≢ key x
      → All (Differs x) ys
      → All (Differs x) (xs ++ v ∷ ys)
  Differs-cut x v xs ys a d b = All-append (Differs x) xs (v ∷ ys) a (d, b)

  pub Above-Differs :
      (x v : A) (ys : List A) → key x < key v → All (Above v) ys → All (Differs x) ys
  Above-Differs x v ys h a = All-map (Above v) (Differs x) ys (λ y p. omega arith) a

  pub Below-Differs :
      (x v : A) (ys : List A) → key v < key x → All (Below v) ys → All (Differs x) ys
  Below-Differs x v ys h a = All-map (Below v) (Differs x) ys (λ y p. omega arith) a

  pub lookup_key_left :
      (x v : A) (xs ys : List A)
      → key x < key v
      → All (Above v) ys
      → lookup_key x (xs ++ v ∷ ys) ≡ lookup_key x xs
  unfolding lookup_key
  lookup_key_left x v [] ys h a = ground (arith, lookup_key-none x ys (Above-Differs x v ys h a))
  lookup_key_left x v (y ∷ xs) ys h a = ground (arith, lookup_key_left x v xs ys h a)

  pub lookup_key_right :
      (x v : A) (xs ys : List A)
      → key v < key x
      → All (Below v) xs
      → lookup_key x (xs ++ v ∷ ys) ≡ lookup_key x ys
  unfolding lookup_key
  lookup_key_right x v [] ys h b = ground arith
  lookup_key_right x v (y ∷ xs) ys h b = ground (arith, lookup_key_right x v xs ys h b.1)
