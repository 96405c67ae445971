-- ===== src/Tree/Order.antt =====
-- The order that the descent keeps, on a tree's nodes in order.
use ngx_cache_pilot.Base.{
  Bool, Bool-cases, remove_first, All-remove_first, ℕ, Bytes, ◌≡◌, ◌⊎◌, inl, inr, List, [], ◌∷◌,
  ◌++◌, Ordering, ◌<◌, All, All-append_split, arith, subst, sym, In,
}

-- What the code relies on of the sign of `ngx_memn2cmp`: a total order on byte strings.
pub record IsTotal (cmp : Bytes → Bytes → Ordering) : Type 0 where
  pub eq_of : (a b : Bytes) → cmp a b ≡ Ordering.eq → a ≡ b
  pub refl_of : (a : Bytes) → cmp a a ≡ Ordering.eq
  pub gt_of : (a b : Bytes) → cmp a b ≡ Ordering.lt → cmp b a ≡ Ordering.gt
  pub lt_of : (a b : Bytes) → cmp a b ≡ Ordering.gt → cmp b a ≡ Ordering.lt
  pub trans_of :
      (a b c : Bytes) → cmp a b ≡ Ordering.lt → cmp b c ≡ Ordering.lt → cmp a c ≡ Ordering.lt

module _ {A : Type 0} (node_key : A → ℕ) (node_string : A → Bytes)
    (cmp : Bytes → Bytes → Ordering) where
  -- `x` stands before `y`: by the hash, then by the string.
  abbrev pub Before : A → A → Type 0
  Before x y =
      (node_key x < node_key y)
      ⊎ ((node_key x ≡ node_key y) × (cmp (node_string x) (node_string y) ≡ Ordering.lt))

  abbrev pub Sorted : List A → Type 0
  Sorted [] = Unit
  Sorted (x ∷ xs) = All (Before x) xs × Sorted xs

  pub Sorted-append_right : (xs ys : List A) → Sorted (xs ++ ys) → Sorted ys
  Sorted-append_right [] ys s = s
  Sorted-append_right (x ∷ xs) ys (_, s) = Sorted-append_right xs ys s

  pub Sorted-append_left : (xs ys : List A) → Sorted (xs ++ ys) → Sorted xs
  Sorted-append_left [] ys s = tt
  Sorted-append_left (x ∷ xs) ys (h, s) =
      ((All-append_split (Before x) xs ys h).0, Sorted-append_left xs ys s)

  -- In an in-order list, all before a node stand before it.
  pub Sorted-Before :
      (xs : List A) (y : A) (ys : List A) → Sorted (xs ++ y ∷ ys) → All (λ x. Before x y) xs
  Sorted-Before [] y ys s = tt
  Sorted-Before (x ∷ xs) y ys (h, s) =
      ((All-append_split (Before x) xs (y ∷ ys) h).1.0, Sorted-Before xs y ys s)

  pub Sorted-after : (xs : List A) (y : A) (ys : List A) → Sorted (xs ++ y ∷ ys) → All (Before y) ys
  Sorted-after xs y ys s = (Sorted-append_right xs (y ∷ ys) s).0

  pub Sorted-append :
      (xs : List A) (y : A) (ys : List A)
      → Sorted xs
      → Sorted ys
      → All (λ x. Before x y) xs
      → All (Before y) ys
      → ((a b c : A) → Before a b → Before b c → Before a c)
      → Sorted (xs ++ y ∷ ys)
  Sorted-append [] y ys sx sy hx hy tr = (hy, sy)
  Sorted-append (x ∷ xs) y ys (h, sx) sy (hx, hxs) hy tr =
      (around xs h, Sorted-append xs y ys sx sy hxs hy tr)
    where
      after : (zs : List A) → All (Before y) zs → All (Before x) zs
      after [] k = tt
      after (z ∷ zs) (kz, k) = (tr x y z hx kz, after zs k)

      around : (zs : List A) → All (Before x) zs → All (Before x) (zs ++ y ∷ ys)
      around [] k = (hx, after ys hy)
      around (z ∷ zs) (kz, k) = (kz, around zs k)

  pub Sorted-remove_first :
      (hit : A → Bool) (xs : List A) → Sorted xs → Sorted (remove_first hit xs)
  Sorted-remove_first hit [] s = tt
  Sorted-remove_first hit (x ∷ xs) (s, ss) = elim (Bool-cases (hit x)) [
    | inl h ↦ rw h ss
    | inr m ↦ rw m (All-remove_first (Before x) hit xs s, Sorted-remove_first hit xs ss)
  ]

  module _ (total : IsTotal cmp) where
    pub Before-trans : (a b c : A) → Before a b → Before b c → Before a c
    Before-trans a b c (inl p) (inl q) = inl (omega arith)
    Before-trans a b c (inl p) (inr q) = inl (omega arith)
    Before-trans a b c (inr p) (inl q) = inl (omega arith)
    Before-trans a b c (inr (p, u)) (inr (q, v)) =
        inr (omega arith, total.trans_of (node_string a) (node_string b) (node_string c) u v)

-- An element of a list has what all its elements have.
pub All-In : {A : Type 0} (P : A → Type 0) (a : A) (xs : List A) → All P xs → In a xs → P a
All-In P a [] h m = elim m [ ]
All-In P a (x ∷ xs) (h, hs) (inl e) = subst P (sym e) h
All-In P a (x ∷ xs) (h, hs) (inr m) = All-In P a xs hs m
