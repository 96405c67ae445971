-- ===== src/Zone/Paths.antt =====
-- The path index of a zone: lookups by either checksum find the file with the path.
use ngx_cache_pilot.Base.{
  All-remove_first, remove_first, ℕ, Bytes, Bool, true, false, ◌==◌, ◌≡◌, refl, sym, ap, ap₂, ◌∙◌,
  ◌≢◌, ◌==ᵇ◌, ==ᵇ_sound, ==ᵇ_refl, ==ᵇ_flip, ◌⊎◌, inl, inr, none, some, List, [], ◌∷◌, ◌++◌,
  if◌then◌else◌, arith, Bool-cases, Option-cases, true-ne-false, none-ne-some, subst, All, In,
  ==_iff,
}
use ngx_cache_pilot.Nginx.{Nginx}
use ngx_cache_pilot.Tree.{Tree, to_list}
use ngx_cache_pilot.Tree.Order.{Sorted, Sorted-remove_first, All-In}
use ngx_cache_pilot.Tree.Lookup.{
  lookup_generic_sound, lookup_generic_complete, insert_generic-Splits, insert_generic-Sorted,
  lookup_generic-Apart, Apart, Splits,
}
use ngx_cache_pilot.Zone.{File, Zone, PathNode, file_of, lookup_path, lookup_file, insert_path}
use ngx_cache_pilot.Zone.Links.{has_file, UniquePaths, without}

abbrev pub has_node : Bytes → List PathNode → Bool
has_node p [] = false
has_node p (n ∷ ns) = if n.path ==ᵇ p then true else has_node p ns

abbrev pub UniqueNodes : List PathNode → Type 0
UniqueNodes [] = Unit
UniqueNodes (n ∷ ns) = (has_node n.path ns ≡ false) × UniqueNodes ns

has_node-In :
    (p : Bytes) (ns : List PathNode)
    → has_node p ns ≡ true
    → (n : PathNode) × In n ns × (n.path ≡ p)
has_node-In p [] h = cc
has_node-In p (n ∷ ns) h = elim (Bool-cases (n.path ==ᵇ p)) [
  | inl hit ↦ (n, inl refl, ==ᵇ_sound n.path p hit)
  | inr miss ↦ let (x, m, q) = has_node-In p ns (ground (arith, miss)) in (x, inr m, q)
]

In-has_node : (n : PathNode) (ns : List PathNode) → In n ns → has_node n.path ns ≡ true
In-has_node n [] m = elim m [ ]
In-has_node n (x ∷ ns) (inl e) =
    subst (λ y. has_node y.path (x ∷ ns) ≡ true) (sym e) (ground (arith, ==ᵇ_refl x.path))
In-has_node n (x ∷ ns) (inr m) = ground (arith, In-has_node n ns m)

module _ (p q : Bytes) where
  pub has_node-remove_first :
      (ns : List PathNode)
      → UniqueNodes ns
      → has_node q (remove_first (λ n. n.path ==ᵇ p) ns)
        ≡ (if p ==ᵇ q then false else has_node q ns)
  has_node-remove_first [] u = ground arith
  has_node-remove_first (n ∷ ns) (u, us) = elim (Bool-cases (p ==ᵇ q)) [
    | inl same ↦ elim (Bool-cases (n.path ==ᵇ p)) [
      | inl hit ↦ rw (same, hit, ← ==ᵇ_sound p q same, ← ==ᵇ_sound n.path p hit) u
      | inr miss ↦ rw miss (
          ground (
            arith,
            same,
            ap (λ t. n.path ==ᵇ t) (==ᵇ_sound p q same),
            miss,
            has_node-remove_first ns us,
          ))
    ]
    | inr other ↦ elim (Bool-cases (n.path ==ᵇ p)) [
      | inl hit ↦ ground (arith, other, hit, ap (λ t. t ==ᵇ q) (==ᵇ_sound n.path p hit))
      | inr miss ↦ ground (arith, other, miss, has_node-remove_first ns us)
    ]
  ]

  pub has_file-without :
      (fs : List File)
      → UniquePaths fs
      → has_file q (without p fs) ≡ (if p ==ᵇ q then false else has_file q fs)
  has_file-without [] u = ground arith
  has_file-without (f ∷ fs) (u, us) = elim (Bool-cases (p ==ᵇ q)) [
    | inl same ↦ elim (Bool-cases (f.path ==ᵇ p)) [
      | inl hit ↦ rw (same, hit, ← ==ᵇ_sound p q same, ← ==ᵇ_sound f.path p hit) u
      | inr miss ↦ rw miss (
          ground (
            arith,
            same,
            ap (λ t. f.path ==ᵇ t) (==ᵇ_sound p q same),
            miss,
            has_file-without fs us,
          ))
    ]
    | inr other ↦ elim (Bool-cases (f.path ==ᵇ p)) [
      | inl hit ↦ ground (arith, other, hit, ap (λ t. t ==ᵇ q) (==ᵇ_sound f.path p hit))
      | inr miss ↦ ground (arith, other, miss, has_file-without fs us)
    ]
  ]

pub UniqueNodes-remove_first :
    (p : Bytes) (ns : List PathNode)
    → UniqueNodes ns
    → UniqueNodes (remove_first (λ n. n.path ==ᵇ p) ns)
UniqueNodes-remove_first p [] u = tt
UniqueNodes-remove_first p (n ∷ ns) (u, us) = elim (Bool-cases (n.path ==ᵇ p)) [
  | inl hit ↦ rw hit us
  | inr miss ↦
      rw miss
        (ground (arith, u, has_node-remove_first p n.path ns us), UniqueNodes-remove_first p ns us)
]

pub UniquePaths-without : (p : Bytes) (fs : List File) → UniquePaths fs → UniquePaths (without p fs)
UniquePaths-without p [] u = tt
UniquePaths-without p (f ∷ fs) (u, us) = elim (Bool-cases (f.path ==ᵇ p)) [
  | inl hit ↦ rw hit us
  | inr miss ↦
      rw miss (ground (arith, u, has_file-without p f.path fs us), UniquePaths-without p fs us)
]

has_node-append :
    (p : Bytes) (xs ys : List PathNode)
    → has_node p (xs ++ ys) ≡ (if has_node p xs then true else has_node p ys)
has_node-append p [] ys = refl
has_node-append p (x ∷ xs) ys = ground (arith, has_node-append p xs ys)

pub has_file-append :
    (p : Bytes) (xs ys : List File)
    → has_file p (xs ++ ys) ≡ (if has_file p xs then true else has_file p ys)
has_file-append p [] ys = refl
has_file-append p (x ∷ xs) ys = ground (arith, has_file-append p xs ys)

module _ (ngx : Nginx) where
  abbrev pub SortedNodes : List PathNode → Type 0
  SortedNodes = Sorted (λ n. n.node_key) (λ n. n.path) ngx.memn2cmp

  -- A node stands under the checksum of its path, or under the legacy one.
  abbrev pub IsHashed : PathNode → Type 0
  IsHashed n = (n.node_key ≡ ngx.crc32_long n.path) ⊎ (n.node_key ≡ ngx.crc32_short n.path)

  pub record IsPathIndex (index : Tree PathNode) : Type 0 where
    pub sorted : SortedNodes (to_list index)
    pub hashed : All IsHashed (to_list index)
    pub unique : UniqueNodes (to_list index)

  lookup_path-missing :
      (index : Tree PathNode) (h : ℕ) (p : Bytes)
      → has_node p (to_list index) ≡ false
      → lookup_path ngx index h p ≡ none
  unfolding lookup_path
  lookup_path-missing index h p m = elim (Option-cases (lookup_path ngx index h p)) [
    | inl e ↦ e
    | inr (n, e) ↦
        let (i, _, q) =
          lookup_generic_sound (λ n. n.node_key) (λ n. n.path) ngx.memn2cmp ngx.memn2cmp_total h p
            index n e in
        absurd (true-ne-false (sym (In-has_node n (to_list index) i) ∙ (rw q m)))
  ]

  lookup_path-path :
      (index : Tree PathNode) (h : ℕ) (p : Bytes) (n : PathNode)
      → lookup_path ngx index h p ≡ some n
      → n.path ≡ p
  unfolding lookup_path
  lookup_path-path index h p n e =
      (lookup_generic_sound (λ n. n.node_key) (λ n. n.path) ngx.memn2cmp ngx.memn2cmp_total h p
        index n e).2

  lookup_path-present :
      (index : Tree PathNode) (p : Bytes)
      → IsPathIndex index
      → has_node p (to_list index) ≡ true
      → (lookup_path ngx index (ngx.crc32_long p) p ≢ none)
        ⊎ (lookup_path ngx index (ngx.crc32_short p) p ≢ none)
  unfolding lookup_path
  lookup_path-present index p w h =
      let (n, m, q) = has_node-In p (to_list index) h in
      let found =
        lookup_generic_complete (λ n. n.node_key) (λ n. n.path) ngx.memn2cmp ngx.memn2cmp_total
          index n w.sorted m in
      go n q found (All-In IsHashed n (to_list index) w.hashed m)
    where
      go :
          (n : PathNode)
          → n.path ≡ p
          → lookup_path ngx index n.node_key n.path ≡ some n
          → IsHashed n
          → (lookup_path ngx index (ngx.crc32_long p) p ≢ none)
            ⊎ (lookup_path ngx index (ngx.crc32_short p) p ≢ none)
      go n q found (inl k) = inl (λ e.
          none-ne-some {a = n}
            (sym e ∙ sym (ap₂ (lookup_path ngx index) (k ∙ ap ngx.crc32_long q) q) ∙ found))
      go n q found (inr k) = inr (λ e.
          none-ne-some {a = n}
            (sym e ∙ sym (ap₂ (lookup_path ngx index) (k ∙ ap ngx.crc32_short q) q) ∙ found))

  file_of_missing : (p : Bytes) (fs : List File) → has_file p fs ≡ false → file_of p fs ≡ none
  file_of_missing p [] h = refl
  file_of_missing p (f ∷ fs) h = ground (arith, file_of_missing p fs)

  -- The lookup by the two checksums finds the file with the path, whichever of them its node has.
  pub lookup_file-file_of :
      (zone : Zone) (p : Bytes)
      → IsPathIndex zone.path_index
      → ((q : Bytes) → has_node q (to_list zone.path_index) ≡ has_file q zone.files)
      → lookup_file ngx zone p ≡ file_of p zone.files
  unfolding lookup_file
  lookup_file-file_of zone p w agree =
      elim (Option-cases (lookup_path ngx zone.path_index (ngx.crc32_long p) p)) [
        | inr (n, e) ↦
            rw (e, lookup_file)
              (ap (λ t. file_of t zone.files)
                (lookup_path-path zone.path_index (ngx.crc32_long p) p n e))
        | inl e ↦ elim (Bool-cases (ngx.crc32_short p == ngx.crc32_long p)) [
          | inl same ↦
              rw (e, same, lookup_file)
                (sym (
                  gone e (
                    ap (λ h. lookup_path ngx zone.path_index h p)
                      ((==_iff (ngx.crc32_short p) (ngx.crc32_long p)).0 same)
                    ∙ e)))
          | inr other ↦
              elim (Option-cases (lookup_path ngx zone.path_index (ngx.crc32_short p) p)) [
                | inr (n, e') ↦
                    rw (e, other, e', lookup_file)
                      (ap (λ t. file_of t zone.files)
                        (lookup_path-path zone.path_index (ngx.crc32_short p) p n e'))
                | inl e' ↦ rw (e, other, e', lookup_file) (sym (gone e e'))
              ]
        ]
      ]
    where
      gone :
          lookup_path ngx zone.path_index (ngx.crc32_long p) p ≡ none
          → lookup_path ngx zone.path_index (ngx.crc32_short p) p ≡ none
          → file_of p zone.files ≡ none
      gone e e' = elim (Bool-cases (has_node p (to_list zone.path_index))) [
        | inr h ↦ file_of_missing p zone.files (sym (agree p) ∙ h)
        | inl h ↦ elim (lookup_path-present zone.path_index p w h) [
          | inl k ↦ absurd (k e)
          | inr k ↦ absurd (k e')
        ]
      ]

  -- Deletion of a path's node.
  pub rbtree_delete-IsPathIndex :
      (p : Bytes) (index : Tree PathNode)
      → IsPathIndex index
      → IsPathIndex (ngx.rbtree_delete PathNode (λ n. n.path ==ᵇ p) index)
  rbtree_delete-IsPathIndex p index w = record {
    sorted = rw (ngx.rbtree_delete_lem PathNode (λ n. n.path ==ᵇ p) index) (
        Sorted-remove_first (λ n. n.node_key) (λ n. n.path) ngx.memn2cmp (λ n. n.path ==ᵇ p)
          (to_list index) w.sorted);
    hashed =
        rw (ngx.rbtree_delete_lem PathNode (λ n. n.path ==ᵇ p) index)
          (All-remove_first IsHashed (λ n. n.path ==ᵇ p) (to_list index) w.hashed);
    unique =
        rw (ngx.rbtree_delete_lem PathNode (λ n. n.path ==ᵇ p) index)
          (UniqueNodes-remove_first p (to_list index) w.unique);
  }

  pub has_node-rbtree_delete :
      (p q : Bytes) (index : Tree PathNode)
      → IsPathIndex index
      → has_node q (to_list (ngx.rbtree_delete PathNode (λ n. n.path ==ᵇ p) index))
        ≡ (if p ==ᵇ q then false else has_node q (to_list index))
  has_node-rbtree_delete p q index w =
      rw (ngx.rbtree_delete_lem PathNode (λ n. n.path ==ᵇ p) index)
        (has_node-remove_first p q (to_list index) w.unique)

  abbrev pub new_node : Bytes → PathNode
  new_node p = record { node_key = ngx.crc32_long p; path = p }

  module _ (p : Bytes) (index : Tree PathNode) (w : IsPathIndex index)
      (new : has_node p (to_list index) ≡ false) where
    apart :
        Apart
          (λ n. n.node_key)
          (λ n. n.path)
          ngx.memn2cmp
          ngx.memn2cmp_total
          (new_node p)
          (to_list index)
    unfolding lookup_path
    apart =
        lookup_generic-Apart (λ n. n.node_key) (λ n. n.path) ngx.memn2cmp ngx.memn2cmp_total index
          (new_node p) w.sorted (lookup_path-missing index (ngx.crc32_long p) p new)

    splits :
        Splits
          (λ n. n.node_key)
          (λ n. n.path)
          ngx.memn2cmp
          ngx.memn2cmp_total
          (to_list index)
          (to_list (insert_path ngx index p))
          (new_node p)
    unfolding insert_path
    splits = rw (ngx.rebalance_keeps PathNode _) (
        insert_generic-Splits (λ n. n.node_key) (λ n. n.path) ngx.memn2cmp ngx.memn2cmp_total index
          (new_node p) w.sorted apart)

    pub has_node-insert_path :
        (q : Bytes)
        → has_node q (to_list (insert_path ngx index p))
          ≡ (if p ==ᵇ q then true else has_node q (to_list index))
    has_node-insert_path q =
        rw (splits.now, splits.was, has_node-append, has_node-append) (ground arith)

    pub insert_path-IsPathIndex : IsPathIndex (insert_path ngx index p)
    insert_path-IsPathIndex = record {
      sorted =
          unfold insert_path in
          (rw (ngx.rebalance_keeps PathNode _) (
            insert_generic-Sorted (λ n. n.node_key) (λ n. n.path) ngx.memn2cmp ngx.memn2cmp_total
              index (new_node p) w.sorted apart));
      hashed = rw splits.now (hashed splits.low splits.high (rw splits.was at w.hashed));
      unique =
          rw splits.now
            (unique splits.low splits.high (rw splits.was at w.unique) (rw splits.was at new));
    }
      where
        hashed :
            (low high : List PathNode)
            → All IsHashed (low ++ high)
            → All IsHashed (low ++ new_node p ∷ high)
        hashed [] high h = (inl refl, h)
        hashed (x ∷ low) high (h, hs) = (h, hashed low high hs)

        unique :
            (low high : List PathNode)
            → UniqueNodes (low ++ high)
            → has_node p (low ++ high) ≡ false
            → UniqueNodes (low ++ new_node p ∷ high)
        unique [] high u h = (h, u)
        unique (x ∷ low) high (u, us) h = elim (Bool-cases (x.path ==ᵇ p)) [
          | inl hit ↦ absurd (true-ne-false (rw hit at h))
          | inr miss ↦ (
            rw (has_node-append x.path low (new_node p ∷ high))
                (ground (arith, u, has_node-append x.path low high, ==ᵇ_flip x.path p miss)),
            unique low high us (rw miss at h),
          )
        ]
