-- ===== src/Runtime/Zones.antt =====
-- The worker's index of the zones finds each registered cache.
use ngx_cache_pilot.Base.{
  ℕ, ◌<◌, ◌≤◌, false, ◌==◌, ltb, ◌≡◌, refl, sym, ap, ◌∙◌, subst, Option, none, some, none-ne-some,
  List, [], ◌∷◌, ◌++◌, if◌then◌else◌, All, Bool-cases, inl, inr, arith,
}
use ngx_cache_pilot.Nginx.{Nginx}
use ngx_cache_pilot.Tree.{Tree, sentinel, branch, to_list}
use ngx_cache_pilot.Store.{no_state}
use ngx_cache_pilot.Registry.{IndexZone, find_cache}
use ngx_cache_pilot.Registry.Caches.{OncePerCache}
use ngx_cache_pilot.Runtime.{ZoneIndex, zone_insert, lookup_index_zone, init_zones}
use ngx_cache_pilot.Runtime.Ordered.{
  cache_of, InOrder, find_node, around, lookup_zone_index-find_node,
}

insert_node : ZoneIndex → List ZoneIndex → List ZoneIndex
insert_node n [] = n ∷ []
insert_node n (x ∷ xs) = if ltb (cache_of n) (cache_of x) then n ∷ x ∷ xs else x ∷ insert_node n xs

insert_node-low :
    (n x : ZoneIndex) (l r : List ZoneIndex)
    → cache_of n < cache_of x
    → insert_node n (l ++ x ∷ r) ≡ insert_node n l ++ x ∷ r
unfolding insert_node
insert_node-low n x [] r h = ground (arith, h)
insert_node-low n x (y ∷ l) r h = ground (arith, insert_node-low n x l r h)

insert_node-high :
    (n x : ZoneIndex) (l r : List ZoneIndex)
    → cache_of x ≤ cache_of n
    → All (λ y. cache_of y < cache_of x) l
    → insert_node n (l ++ x ∷ r) ≡ l ++ x ∷ insert_node n r
unfolding insert_node
insert_node-high n x [] r h b = ground (arith, h)
insert_node-high n x (y ∷ l) r h (b, bs) = ground (arith, h, b, insert_node-high n x l r h bs)

to_list-zone_insert :
    (n : ZoneIndex) (t : Tree ZoneIndex)
    → InOrder (to_list t)
    → to_list (zone_insert n t) ≡ insert_node n (to_list t)
unfolding zone_insert insert_node
to_list-zone_insert n sentinel s = refl
to_list-zone_insert n (branch l x r) s =
    let a = around (to_list l) x (to_list r) s in
    elim (Bool-cases (ltb (cache_of n) (cache_of x))) [
      | inl less ↦
          let lt : cache_of n < cache_of x = ground (arith, less) in
          rw (less, zone_insert)
            (ap (λ xs. xs ++ x ∷ to_list r) (to_list-zone_insert n l a.left_ordered)
              ∙ sym (insert_node-low n x (to_list l) (to_list r) lt))
      | inr not_less ↦
          let le : cache_of x ≤ cache_of n = ground (arith, not_less) in
          rw (not_less, zone_insert)
            (ap (λ xs. to_list l ++ x ∷ xs) (to_list-zone_insert n r a.right_ordered)
              ∙ sym (insert_node-high n x (to_list l) (to_list r) le a.below))
    ]

insert_node-All :
    (P : ZoneIndex → Type 0) (n : ZoneIndex) (xs : List ZoneIndex)
    → P n
    → All P xs
    → All P (insert_node n xs)
unfolding insert_node
insert_node-All P n [] p h = (p, tt)
insert_node-All P n (x ∷ xs) p (h, hs) = elim (Bool-cases (ltb (cache_of n) (cache_of x))) [
  | inl less ↦ rw (less, insert_node) (p, (h, hs))
  | inr not_less ↦ rw (not_less, insert_node) (h, insert_node-All P n xs p hs)
]

All-trans :
    (c d : ℕ) (xs : List ZoneIndex)
    → c < d
    → All (λ y. d < cache_of y) xs
    → All (λ y. c < cache_of y) xs
All-trans c d [] h hs = tt
All-trans c d (x ∷ xs) h (k, ks) = (omega (arith, h, k), All-trans c d xs h ks)

insert_node-InOrder :
    (n : ZoneIndex) (xs : List ZoneIndex)
    → find_node (cache_of n) xs ≡ none
    → InOrder xs
    → InOrder (insert_node n xs)
unfolding insert_node
insert_node-InOrder n [] e s = (tt, tt)
insert_node-InOrder n (x ∷ xs) e (b, s) = elim (Bool-cases (cache_of x == cache_of n)) [
  | inl same ↦ absurd (none-ne-some {a = x} (sym (rw same at e)))
  | inr other ↦ elim (Bool-cases (ltb (cache_of n) (cache_of x))) [
    | inl less ↦
        let lt : cache_of n < cache_of x = ground (arith, less) in
        rw (less, insert_node) ((lt, All-trans (cache_of n) (cache_of x) xs lt b), (b, s))
    | inr not_less ↦
        let gt : cache_of x < cache_of n = ground (arith, other, not_less) in
        rw (not_less, insert_node)
          (
            insert_node-All (λ y. cache_of x < cache_of y) n xs gt b,
            insert_node-InOrder n xs (rw other at e) s,
          )
  ]
]

find_node-insert_node :
    (c : ℕ) (n : ZoneIndex) (xs : List ZoneIndex)
    → find_node (cache_of n) xs ≡ none
    → find_node c (insert_node n xs) ≡ (if cache_of n == c then some n else find_node c xs)
unfolding insert_node
find_node-insert_node c n [] e = refl
find_node-insert_node c n (x ∷ xs) e = elim (Bool-cases (cache_of x == cache_of n)) [
  | inl same ↦ absurd (none-ne-some {a = x} (sym (rw same at e)))
  | inr other ↦ elim (Bool-cases (ltb (cache_of n) (cache_of x))) [
    | inl less ↦ rw (less, insert_node) refl
    | inr not_less ↦
        rw (not_less, insert_node)
          (ground (arith, other, find_node-insert_node c n xs (rw other at e)))
  ]
]

-- The zone of a node that was found, and else of the array.
abbrev zone_or : Option ZoneIndex → Option IndexZone → Option IndexZone
zone_or none z = z
zone_or (some x) z = some x.zone

module _ (ngx : Nginx) where
  pub other_caches :
      (c : ℕ) (zones : List IndexZone)
      → find_cache ngx c zones ≡ none
      → All (λ z. (c == z.cache) ≡ false) zones
  unfolding find_cache
  other_caches c [] e = tt
  other_caches c (z ∷ zones) e = elim (Bool-cases (z.cache == c)) [
    | inl same ↦ absurd (none-ne-some {a = z} (sym (rw (same, find_cache) at e)))
    | inr other ↦ (ground (arith, other), other_caches c zones (rw (other, find_cache) at e))
  ]

  -- The zones still to come have no node in the index.
  abbrev Unseen : List ZoneIndex → List IndexZone → Type 0
  Unseen xs zones = All (λ z. find_node z.cache xs ≡ none) zones

  Unseen-insert_node :
      (n : ZoneIndex) (xs : List ZoneIndex) (zones : List IndexZone)
      → find_node (cache_of n) xs ≡ none
      → All (λ z. (cache_of n == z.cache) ≡ false) zones
      → Unseen xs zones
      → Unseen (insert_node n xs) zones
  Unseen-insert_node n xs [] e d u = tt
  Unseen-insert_node n xs (z ∷ zones) e (d, ds) (u, us) =
      (find_node-insert_node z.cache n xs e ∙ (rw d u), Unseen-insert_node n xs zones e ds us)

  init_zones_found :
      (zones : List IndexZone) (t : Tree ZoneIndex)
      → InOrder (to_list t)
      → OncePerCache ngx zones
      → Unseen (to_list t) zones
      → InOrder (to_list (init_zones ngx zones t))
        × ((c : ℕ)
            → zone_or (find_node c (to_list (init_zones ngx zones t))) none
              ≡ zone_or (find_node c (to_list t)) (find_cache ngx c zones))
  unfolding init_zones find_cache
  init_zones_found [] t s once u = (s, λ c. refl)
  init_zones_found (z ∷ zones) t s (apart, once) (fresh, u) =
      let n : ZoneIndex = record { zone = z; state = no_state } in
      let nodes : to_list (ngx.rebalance ZoneIndex (zone_insert n t)) ≡ insert_node n (to_list t) =
        ngx.rebalance_keeps ZoneIndex (zone_insert n t) ∙ to_list-zone_insert n t s in
      let (s', found) =
        init_zones_found zones (ngx.rebalance ZoneIndex (zone_insert n t))
          (subst InOrder (sym nodes) (insert_node-InOrder n (to_list t) fresh s)) once
          (subst (λ xs. Unseen xs zones) (sym nodes)
            (Unseen-insert_node n (to_list t) zones fresh (other_caches z.cache zones apart) u)) in
      (
        s',
        λ c.
            found c
            ∙ ap (λ xs. zone_or (find_node c xs) (find_cache ngx c zones)) nodes
            ∙ ap (λ o. zone_or o (find_cache ngx c zones))
                (find_node-insert_node c n (to_list t) fresh)
            ∙ own c (to_list t) fresh,
      )
    where
      own :
          (c : ℕ) (xs : List ZoneIndex)
          → find_node z.cache xs ≡ none
          → zone_or
              (if z.cache == c
                then some (record { zone = z; state = no_state })
                else find_node c xs)
              (find_cache ngx c zones)
            ≡ zone_or (find_node c xs) (if z.cache == c then some z else find_cache ngx c zones)
      own c xs e = elim (Bool-cases (z.cache == c)) [
        | inl hit ↦
            let same : z.cache ≡ c = ground (arith, hit) in
            let gone : find_node c xs ≡ none = subst (λ d. find_node d xs ≡ none) same e in
            rw (hit, gone) refl
        | inr miss ↦ rw miss refl
      ]

  -- After the start of a worker with distinct caches, the index finds for each cache the zone that the array of the
  -- registered zones has for it, and nothing for another cache.
  pub lookup_index_zone-init_zones :
      (zones : List IndexZone) (c : ℕ)
      → OncePerCache ngx zones
      → lookup_index_zone c (init_zones ngx zones sentinel) ≡ find_cache ngx c zones
  unfolding lookup_index_zone
  lookup_index_zone-init_zones zones c once =
      let (s, found) = init_zones_found zones sentinel tt once (all_fresh zones) in
      ap (λ o. elim o as (λ _. Option IndexZone) [ none ↦ none | some x ↦ some x.zone ])
        (lookup_zone_index-find_node c (init_zones ngx zones sentinel) s)
      ∙ as_zone_or (find_node c (to_list (init_zones ngx zones sentinel)))
      ∙ found c
    where
      all_fresh : (zs : List IndexZone) → Unseen [] zs
      all_fresh [] = tt
      all_fresh (z ∷ zs) = (refl, all_fresh zs)

      as_zone_or :
          (o : Option ZoneIndex)
          → (elim o as (λ _. Option IndexZone) [ none ↦ none | some x ↦ some x.zone ])
            ≡ zone_or o none
      as_zone_or none = refl
      as_zone_or (some x) = refl
