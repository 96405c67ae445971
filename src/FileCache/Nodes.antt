-- ===== src/FileCache/Nodes.antt =====
-- The tree of the cache's nodes: the lookup finds the node with the key, and a change of a node leaves
-- the others alone.
use ngx_cache_pilot.Base.{
  Bool, true, false, ◌&&◌, ◌==◌, ◌==ᵇ◌, ==ᵇ_sound, ==ᵇ_refl, ==ᵇ_flip, ◌≡◌, refl, sym, ap, ap₂, ◌∙◌,
  subst, List, [], ◌∷◌, ◌++◌, map, map-append, All, In, arith, Bool-cases, inl, inr, Ordering,
}
use ngx_cache_pilot.Nginx.{Nginx}
use ngx_cache_pilot.Tree.{Tree, sentinel, branch, to_list, map_tree}
use ngx_cache_pilot.Tree.Order.{Before, Sorted, All-In}
use ngx_cache_pilot.FileCache.{CacheNode, at_node}

pub to_list-map_tree :
    {A : Type 0} (f : A → A) (t : Tree A) → to_list (map_tree f t) ≡ map f (to_list t)
to_list-map_tree f sentinel = refl
to_list-map_tree f (branch l x r) =
    rw (to_list-map_tree f l, to_list-map_tree f r) (sym (map-append f (to_list l) (x ∷ to_list r)))

-- Two nodes with the same key.
abbrev pub same_node : CacheNode → CacheNode → Bool
same_node n x = x.node_key == n.node_key && x.key ==ᵇ n.key

module _ (ngx : Nginx) where
  abbrev pub SortedNodes : List CacheNode → Type 0
  SortedNodes = Sorted (λ n. n.node_key) (λ n. n.key) ngx.memcmp

  lt-ne-eq : Ordering.lt ≡ Ordering.eq → ⊥
  lt-ne-eq e = cc

  Before-apart :
      (n x : CacheNode)
      → Before (λ n. n.node_key) (λ n. n.key) ngx.memcmp n x
      → (same_node n x ≡ false) × (same_node x n ≡ false)
  Before-apart n x (inl h) = (ground arith, ground arith)
  Before-apart n x (inr (h, b)) = elim (Bool-cases (x.key ==ᵇ n.key)) [
    | inl same ↦ absurd (
        lt-ne-eq (
          sym b
          ∙ ap (λ t. ngx.memcmp n.key t) (==ᵇ_sound x.key n.key same)
          ∙ ngx.memcmp_total.refl_of n.key))
    | inr other ↦ (ground (arith, other), ground (arith, ==ᵇ_flip x.key n.key other))
  ]

  map_apart :
      (n : CacheNode) (f : CacheNode → CacheNode) (xs : List CacheNode)
      → All (λ x. same_node n x ≡ false) xs
      → map (at_node n f) xs ≡ xs
  map_apart n f [] h = refl
  map_apart n f (x ∷ xs) (h, hs) = rw h (ap (◌∷◌ x) (map_apart n f xs hs))

  Before-apart-All :
      (n : CacheNode) (xs : List CacheNode)
      → All (Before (λ n. n.node_key) (λ n. n.key) ngx.memcmp n) xs
      → All (λ x. same_node n x ≡ false) xs
  Before-apart-All n [] h = tt
  Before-apart-All n (x ∷ xs) (h, hs) = ((Before-apart n x h).0, Before-apart-All n xs hs)

  pub same_node_refl : (n : CacheNode) → same_node n n ≡ true
  same_node_refl n = ground (arith, ==ᵇ_refl n.key)

  -- A change of a node of an ordered list, where it stands.
  pub record Splits (n : CacheNode) (xs : List CacheNode) : Type 0 where
    pub low : List CacheNode
    pub high : List CacheNode
    pub whole : xs ≡ low ++ n ∷ high
    pub write : (f : CacheNode → CacheNode) → map (at_node n f) xs ≡ low ++ f n ∷ high

  pub Sorted-Splits : (xs : List CacheNode) (n : CacheNode) → SortedNodes xs → In n xs → Splits n xs
  Sorted-Splits [] n s m = elim m [ ]
  Sorted-Splits (x ∷ xs) n (b, s) (inl e) =
      subst (λ y. Splits y (x ∷ xs)) (sym e)
        (record {
          low = [];
          high = xs;
          whole = refl;
          write = λ f.
              rw (same_node_refl x) (ap (◌∷◌ (f x)) (map_apart x f xs (Before-apart-All x xs b)));
        })
  Sorted-Splits (x ∷ xs) n (b, s) (inr m) =
      let r = Sorted-Splits xs n s m in
      record {
        low = x ∷ r.low;
        high = r.high;
        whole = ap (◌∷◌ x) r.whole;
        write = λ f.
            rw
              (Before-apart x n
                (All-In (Before (λ n. n.node_key) (λ n. n.key) ngx.memcmp x) n xs b m)).1
              (ap (◌∷◌ x) (r.write f));
      }

  -- A change that keeps the keys keeps the order.
  pub Sorted-map :
      (n : CacheNode) (f : CacheNode → CacheNode) (xs : List CacheNode)
      → ((x : CacheNode) → ((f x).node_key ≡ x.node_key) × ((f x).key ≡ x.key))
      → SortedNodes xs
      → SortedNodes (map (at_node n f) xs)
  Sorted-map n f [] k s = tt
  Sorted-map n f (x ∷ xs) k (b, s) = (ahead xs b, Sorted-map n f xs k s)
    where
      keeps :
          (y : CacheNode) → ((at_node n f y).node_key ≡ y.node_key) × ((at_node n f y).key ≡ y.key)
      keeps y = elim (Bool-cases (same_node n y)) [
        | inl hit ↦ rw hit (k y)
        | inr miss ↦ rw miss (refl, refl)
      ]

      ahead :
          (ys : List CacheNode)
          → All (Before (λ n. n.node_key) (λ n. n.key) ngx.memcmp x) ys
          → All
              (Before (λ n. n.node_key) (λ n. n.key) ngx.memcmp (at_node n f x))
              (map (at_node n f) ys)
      ahead [] b = tt
      ahead (y ∷ ys) (b, bs) = (moved b, ahead ys bs)
        where
          moved :
              Before (λ n. n.node_key) (λ n. n.key) ngx.memcmp x y
              → Before (λ n. n.node_key) (λ n. n.key) ngx.memcmp (at_node n f x) (at_node n f y)
          moved (inl h) = inl (omega (arith, (keeps x).0, (keeps y).0))
          moved (inr (h, e)) =
              inr ((keeps x).0 ∙ h ∙ sym (keeps y).0, ap₂ ngx.memcmp (keeps x).1 (keeps y).1 ∙ e)
