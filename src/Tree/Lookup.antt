-- ===== src/Tree/Lookup.antt =====
-- Lookup by the descent finds exactly the node with the hash and the string, and the insertion
-- keeps the order (src/ngx_cache_pilot_index_store.c).
use ngx_cache_pilot.Base.{
  ℕ, Bytes, ◌≡◌, refl, sym, ◌∙◌, ◌⊎◌, inl, inr, none, some, none-ne-some, List, [], ◌∷◌, ◌++◌,
  Ordering, ◌<◌, All, All-append, All-append_split, arith, subst, In, In-append_left,
  In-append_right, In-append_cases, append_assoc,
}
use ngx_cache_pilot.Tree.{Tree, sentinel, branch, to_list, insert_generic, lookup_generic}
use ngx_cache_pilot.Tree.Order.{
  IsTotal, Before, Sorted, Sorted-append_left, Sorted-append_right, Sorted-Before, Sorted-after,
  Sorted-append, Before-trans, All-In,
}

module _ {A : Type 0} (node_key : A → ℕ) (node_string : A → Bytes) (cmp : Bytes → Bytes → Ordering)
    (total : IsTotal cmp) where
  lookup_left :
      (h : ℕ) (s : Bytes) (l : Tree A) (x : A) (r : Tree A)
      → (h < node_key x) ⊎ ((h ≡ node_key x) × (cmp s (node_string x) ≡ Ordering.lt))
      → lookup_generic node_key node_string cmp h s (branch l x r)
        ≡ lookup_generic node_key node_string cmp h s l
  unfolding lookup_generic
  lookup_left h s l x r b = ground arith

  lookup_right :
      (h : ℕ) (s : Bytes) (l : Tree A) (x : A) (r : Tree A)
      → (node_key x < h) ⊎ ((h ≡ node_key x) × (cmp s (node_string x) ≡ Ordering.gt))
      → lookup_generic node_key node_string cmp h s (branch l x r)
        ≡ lookup_generic node_key node_string cmp h s r
  unfolding lookup_generic
  lookup_right h s l x r b = ground arith

  lookup_here :
      (l : Tree A) (x : A) (r : Tree A)
      → lookup_generic node_key node_string cmp (node_key x) (node_string x) (branch l x r) ≡ some x
  unfolding lookup_generic
  lookup_here l x r = ground (arith, total.refl_of (node_string x))

  -- Where the descent for `h` and `s` goes at the node `x`.
  abbrev Left : ℕ → Bytes → A → Type 0
  Left h s x = (h < node_key x) ⊎ ((h ≡ node_key x) × (cmp s (node_string x) ≡ Ordering.lt))

  abbrev Right : ℕ → Bytes → A → Type 0
  Right h s x = (node_key x < h) ⊎ ((h ≡ node_key x) × (cmp s (node_string x) ≡ Ordering.gt))

  turn :
      (h : ℕ) (s : Bytes) (x : A)
      → Left h s x ⊎ Right h s x ⊎ ((h ≡ node_key x) × (s ≡ node_string x))
  turn h s x = ground (arith, total.eq_of s (node_string x))

  -- What the lookup returns is a node of the tree, with the hash and the string.
  pub lookup_generic_sound :
      (h : ℕ) (s : Bytes) (t : Tree A) (a : A)
      → lookup_generic node_key node_string cmp h s t ≡ some a
      → In a (to_list t) × (node_key a ≡ h) × (node_string a ≡ s)
  lookup_generic_sound h s sentinel a e = unfold lookup_generic in (cc)
  lookup_generic_sound h s (branch l x r) a e = elim (turn h s x) [
    | inl b ↦
        let (m, k, q) = lookup_generic_sound h s l a (sym (lookup_left h s l x r b) ∙ e) in
        (In-append_left a (to_list l) (x ∷ to_list r) m, k, q)
    | inr (inl b) ↦
        let (m, k, q) = lookup_generic_sound h s r a (sym (lookup_right h s l x r b) ∙ e) in
        (In-append_right a (to_list l) (x ∷ to_list r) (inr m), k, q)
    | inr (inr (k, q)) ↦ here k q
  ]
    where
      here :
          h ≡ node_key x
          → s ≡ node_string x
          → In a (to_list l ++ x ∷ to_list r) × (node_key a ≡ h) × (node_string a ≡ s)
      here k q =
          let f : x ≡ a = cc (lookup_here l x r) in
          (In-append_right a (to_list l) (x ∷ to_list r) (inl (sym f)), cc, cc)

  -- Every node of an ordered tree is found under its hash and its string.
  pub lookup_generic_complete :
      (t : Tree A) (a : A)
      → Sorted node_key node_string cmp (to_list t)
      → In a (to_list t)
      → lookup_generic node_key node_string cmp (node_key a) (node_string a) t ≡ some a
  lookup_generic_complete sentinel a s m = elim m [ ]
  lookup_generic_complete (branch l x r) a s m =
      elim (In-append_cases a (to_list l) (x ∷ to_list r) m) [
        | inl low ↦
            lookup_left (node_key a) (node_string a) l x r (
              All-In (λ y. Before node_key node_string cmp y x) a (to_list l)
                (Sorted-Before node_key node_string cmp (to_list l) x (to_list r) s) low)
            ∙ lookup_generic_complete l a
                (Sorted-append_left node_key node_string cmp (to_list l) (x ∷ to_list r) s) low
        | inr (inl e) ↦
            subst
              (λ y.
                lookup_generic node_key node_string cmp (node_key y) (node_string y) (branch l x r)
                ≡ some y)
              (sym e) (lookup_here l x r)
        | inr (inr high) ↦
            lookup_right (node_key a) (node_string a) l x r (
              after (
                All-In (Before node_key node_string cmp x) a (to_list r)
                  (Sorted-after node_key node_string cmp (to_list l) x (to_list r) s) high))
            ∙ lookup_generic_complete r a
                (Sorted-append_right node_key node_string cmp (to_list l) (x ∷ to_list r) s).1 high
      ]
    where
      after : Before node_key node_string cmp x a → Right (node_key a) (node_string a) x
      after (inl p) = inl p
      after (inr (p, q)) = inr (sym p, total.gt_of (node_string x) (node_string a) q)

module _ {A : Type 0} (node_key : A → ℕ) (node_string : A → Bytes) (cmp : Bytes → Bytes → Ordering)
    (total : IsTotal cmp) where
  -- The new node goes in one place: before it stand the nodes below it, after it those above.
  pub record Splits (before after : List A) (n : A) : Type 0 where
    pub low : List A
    pub high : List A
    pub was : before ≡ low ++ high
    pub now : after ≡ low ++ n ∷ high
    pub below : All (λ x. Before node_key node_string cmp x n) low
    pub above : All (Before node_key node_string cmp n) high

  -- The node stands before or after every node of the list.
  abbrev pub Apart : A → List A → Type 0
  Apart n = All (λ x. Before node_key node_string cmp x n ⊎ Before node_key node_string cmp n x)

  insert_left :
      (l : Tree A) (x : A) (r : Tree A) (n : A)
      → Before node_key node_string cmp n x
      → insert_generic node_key node_string cmp (branch l x r) n
        ≡ branch (insert_generic node_key node_string cmp l n) x r
  unfolding insert_generic
  insert_left l x r n b = ground arith

  insert_right :
      (l : Tree A) (x : A) (r : Tree A) (n : A)
      → Before node_key node_string cmp x n
      → insert_generic node_key node_string cmp (branch l x r) n
        ≡ branch l x (insert_generic node_key node_string cmp r n)
  unfolding insert_generic
  insert_right l x r n b = ground (arith, total.gt_of (node_string x) (node_string n))

  -- A split of one subtree is one of the whole.
  Splits-left :
      (l l' r : List A) (x n : A)
      → Splits l l' n
      → Before node_key node_string cmp n x
      → All (Before node_key node_string cmp x) r
      → Splits (l ++ x ∷ r) (l' ++ x ∷ r) n
  Splits-left l l' r x n p b h = record {
    low = p.low;
    high = p.high ++ x ∷ r;
    was = rw p.was (append_assoc p.low p.high (x ∷ r));
    now = rw p.now (append_assoc p.low (n ∷ p.high) (x ∷ r));
    below = p.below;
    above = All-append (Before node_key node_string cmp n) p.high (x ∷ r) p.above (b, past r h);
  }
    where
      past :
          (zs : List A)
          → All (Before node_key node_string cmp x) zs
          → All (Before node_key node_string cmp n) zs
      past [] k = tt
      past (z ∷ zs) (kz, k) = (Before-trans node_key node_string cmp total n x z b kz, past zs k)

  Splits-right :
      (l r r' : List A) (x n : A)
      → Splits r r' n
      → Before node_key node_string cmp x n
      → All (λ y. Before node_key node_string cmp y x) l
      → Splits (l ++ x ∷ r) (l ++ x ∷ r') n
  Splits-right l r r' x n p b h = record {
    low = l ++ x ∷ p.low;
    high = p.high;
    was = rw p.was (sym (append_assoc l (x ∷ p.low) p.high));
    now = rw p.now (sym (append_assoc l (x ∷ p.low) (n ∷ p.high)));
    below =
        All-append (λ y. Before node_key node_string cmp y n) l (x ∷ p.low) (past l h) (b, p.below);
    above = p.above;
  }
    where
      past :
          (zs : List A)
          → All (λ y. Before node_key node_string cmp y x) zs
          → All (λ y. Before node_key node_string cmp y n) zs
      past [] k = tt
      past (z ∷ zs) (kz, k) = (Before-trans node_key node_string cmp total z x n kz b, past zs k)

  pub insert_generic-Splits :
      (t : Tree A) (n : A)
      → Sorted node_key node_string cmp (to_list t)
      → Apart n (to_list t)
      → Splits (to_list t) (to_list (insert_generic node_key node_string cmp t n)) n
  insert_generic-Splits sentinel n s h =
      unfold insert_generic in
      (record { low = []; high = []; was = refl; now = refl; below = tt; above = tt })
  insert_generic-Splits (branch l x r) n s h =
      let (hl, hxr) =
        All-append_split
          (λ y. Before node_key node_string cmp y n ⊎ Before node_key node_string cmp n y)
          (to_list l) (x ∷ to_list r) h in
      let hr = hxr.1 in
      elim hxr.0 [
        | inl b ↦ rw (insert_right l x r n b) (
            Splits-right (to_list l) (to_list r) _ x n
              (insert_generic-Splits r n
                (Sorted-append_right node_key node_string cmp (to_list l) (x ∷ to_list r) s).1 hr)
              b (Sorted-Before node_key node_string cmp (to_list l) x (to_list r) s))
        | inr b ↦ rw (insert_left l x r n b) (
            Splits-left (to_list l) _ (to_list r) x n
              (insert_generic-Splits l n
                (Sorted-append_left node_key node_string cmp (to_list l) (x ∷ to_list r) s) hl)
              b (Sorted-after node_key node_string cmp (to_list l) x (to_list r) s))
      ]

  -- The insertion of a node into an ordered tree, before or behind each of whose nodes it stands, keeps
  -- the order.
  pub insert_generic-Sorted :
      (t : Tree A) (n : A)
      → Sorted node_key node_string cmp (to_list t)
      → Apart n (to_list t)
      → Sorted node_key node_string cmp (to_list (insert_generic node_key node_string cmp t n))
  insert_generic-Sorted t n s h =
      let p = insert_generic-Splits t n s h in
      let q : Sorted node_key node_string cmp (p.low ++ p.high) = rw p.was at s in
      rw p.now (
        Sorted-append node_key node_string cmp p.low n p.high
          (Sorted-append_left node_key node_string cmp p.low p.high q)
          (Sorted-append_right node_key node_string cmp p.low p.high q) p.below p.above
          (Before-trans node_key node_string cmp total))

  -- A lookup that fails shows that the node would stand apart.
  pub lookup_generic-Apart :
      (t : Tree A) (n : A)
      → Sorted node_key node_string cmp (to_list t)
      → lookup_generic node_key node_string cmp (node_key n) (node_string n) t ≡ none
      → Apart n (to_list t)
  lookup_generic-Apart t n s e = go (to_list t) (λ x m. m)
    where
      apart :
          (x : A)
          → In x (to_list t)
          → Before node_key node_string cmp x n ⊎ Before node_key node_string cmp n x
      apart x m = elim (turn node_key node_string cmp total (node_key n) (node_string n) x) [
        | inl (inl p) ↦ inr (inl p)
        | inl (inr p) ↦ inr (inr p)
        | inr (inl (inl p)) ↦ inl (inl p)
        | inr (inl (inr (p, q))) ↦ inl (inr (sym p, total.lt_of (node_string n) (node_string x) q))
        | inr (inr (p, q)) ↦ absurd (
            none-ne-some {a = x} (
              sym e ∙ (rw (p, q) (lookup_generic_complete node_key node_string cmp total t x s m))))
      ]

      go : (xs : List A) → ((x : A) → In x xs → In x (to_list t)) → Apart n xs
      go [] sub = tt
      go (x ∷ xs) sub = (apart x (sub x (inl refl)), go xs (λ y m. sub y (inr m)))
