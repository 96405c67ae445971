-- ===== src/FileCache/Accounting.antt =====
-- The size of the cache is the sum of its nodes' sizes, and the nodes are in order; both stay so.
use ngx_cache_pilot.Base.{
  ℕ, ◌+◌, Bytes, Bool, true, false, not, ◌≡◌, refl, ap, ◌∙◌, subst, none, some, some-inj,
  none-ne-some, List, [], ◌∷◌, ◌++◌, In, arith, Option-cases, ◌⊎◌, inl, inr, take, drop,
  if◌then◌else◌,
}
use ngx_cache_pilot.Nginx.{Nginx, Rc, ok, declined, error}
use ngx_cache_pilot.Os.{
  Os, Stat, Deleted, file_stat, stat_enoent, stat_failed, unlinked, delete_enoent, delete_failed,
}
use ngx_cache_pilot.Tree.{to_list}
use ngx_cache_pilot.Tree.Lookup.{lookup_generic_sound}
use ngx_cache_pilot.FileCache.{
  CacheNode, FileCache, write_node, at_node, filename_key, lookup_node, lookup_existing,
  mark_node_deleted, expire_node, mark_deleted, Disk, soft_header, soft_path, delete_cache_file,
  delete_opened_file, by_path,
}
use ngx_cache_pilot.FileCache.Nodes.{SortedNodes, Sorted-Splits, Sorted-map, to_list-map_tree}

abbrev pub total : List CacheNode → ℕ
total [] = 0
total (n ∷ ns) = n.fs_size + total ns

total-append : (xs ys : List CacheNode) → total (xs ++ ys) ≡ total xs + total ys
total-append [] ys = omega arith
total-append (x ∷ xs) ys = omega (arith, total-append xs ys)

if_some :
    (b : Bool) (m n : CacheNode) → (if b then some m else none) ≡ some n → (b ≡ true) × (m ≡ n)
if_some true m n e = (refl, some-inj e)
if_some false m n e = absurd (none-ne-some {a = n} e)

pub Rc-cases : (rc : Rc) → (rc ≡ ok) ⊎ ((rc ≡ declined) ⊎ (rc ≡ error))
Rc-cases ok = inl refl
Rc-cases declined = inr (inl refl)
Rc-cases error = inr (inr refl)

module _ (ngx : Nginx) where
  pub record IsCache (c : FileCache) : Type 0 where
    pub sorted : SortedNodes ngx (to_list c.nodes)
    pub accounted : total (to_list c.nodes) ≡ c.size

  pub lookup_node-In :
      (c : FileCache) (key : Bytes) (n : CacheNode)
      → lookup_node ngx c key ≡ some n
      → In n (to_list c.nodes) × (n.node_key ≡ ngx.word_of (take 8 key)) × (n.key ≡ drop 8 key)
  unfolding lookup_node
  lookup_node-In c key n e =
      lookup_generic_sound (λ n. n.node_key) (λ n. n.key) ngx.memcmp ngx.memcmp_total
        (ngx.word_of (take 8 key)) (drop 8 key) c.nodes n e

  -- What the lookup by a path finds exists, and is the node of the file's key.
  pub record FoundNode (c : FileCache) (path : Bytes) (n : CacheNode) : Type 0 where
    pub file_key : Bytes
    pub named : filename_key ngx path ≡ some file_key
    pub found : lookup_node ngx c file_key ≡ some n
    pub alive : n.exists ≡ true

  pub lookup_existing-FoundNode :
      (c : FileCache) (path : Bytes) (n : CacheNode)
      → lookup_existing ngx c path ≡ some n
      → FoundNode c path n
  unfolding lookup_existing
  lookup_existing-FoundNode c path n e = elim (Option-cases (filename_key ngx path)) [
    | inl q ↦ absurd (none-ne-some {a = n} (rw (q, lookup_existing) at e))
    | inr (key, q) ↦ elim (Option-cases (lookup_node ngx c key)) [
      | inl r ↦ absurd (none-ne-some {a = n} (rw (q, lookup_existing, r) at e))
      | inr (m, r) ↦ at_exists key q m r (rw (q, lookup_existing, r) at e)
    ]
  ]
    where
      at_exists :
          (key : Bytes)
          → filename_key ngx path ≡ some key
          → (m : CacheNode) → lookup_node ngx c key ≡ some m
          → (if m.exists then some m else none) ≡ some n
          → FoundNode c path n
      at_exists key q m r e =
          let (here, same) = if_some m.exists m n e in
          subst (FoundNode c path) same
            (record { file_key = key; named = q; found = r; alive = here })

  -- A node that is marked deleted gives its size back.
  pub mark_node_deleted-IsCache :
      (c : FileCache) (n : CacheNode)
      → IsCache c
      → In n (to_list c.nodes)
      → IsCache (mark_node_deleted n c) × ((mark_node_deleted n c).size + n.fs_size ≡ c.size)
  unfolding mark_node_deleted
  mark_node_deleted-IsCache c n v m =
      let p = Sorted-Splits ngx (to_list c.nodes) n v.sorted m in
      let was = ap total p.whole ∙ total-append p.low (n ∷ p.high) in
      let now =
        ap total (p.write (λ x. record x { fs_size = 0; exists = false; updating = false }))
        ∙ total-append p.low
            (record n { fs_size = 0; exists = false; updating = false } ∷ p.high) in
      (
        record {
          sorted =
              rw
                (to_list-map_tree
                  (at_node n (λ x. record x { fs_size = 0; exists = false; updating = false }))
                  c.nodes)
                (Sorted-map ngx n (λ x. record x { fs_size = 0; exists = false; updating = false })
                  (to_list c.nodes) (λ x. (refl, refl)) v.sorted);
          accounted =
              ap total (
                to_list-map_tree
                  (at_node n (λ x. record x { fs_size = 0; exists = false; updating = false }))
                  c.nodes)
              ∙ omega (arith, was, now, v.accounted);
        },
        omega (arith, was, v.accounted),
      )

  -- A change of a node that keeps its key and its size.
  pub write_node-IsCache :
      (c : FileCache) (n : CacheNode) (f : CacheNode → CacheNode)
      → ((x : CacheNode) → ((f x).node_key ≡ x.node_key) × ((f x).key ≡ x.key))
      → (f n).fs_size ≡ n.fs_size
      → IsCache c
      → In n (to_list c.nodes)
      → IsCache (write_node n f c)
  write_node-IsCache c n f keep size v m =
      let p = Sorted-Splits ngx (to_list c.nodes) n v.sorted m in
      let was = ap total p.whole ∙ total-append p.low (n ∷ p.high) in
      let now = ap total (p.write f) ∙ total-append p.low (f n ∷ p.high) in
      record {
        sorted =
            rw (to_list-map_tree (at_node n f) c.nodes)
              (Sorted-map ngx n f (to_list c.nodes) keep v.sorted);
        accounted =
            ap total (to_list-map_tree (at_node n f) c.nodes)
            ∙ omega (arith, was, now, v.accounted, size);
      }

  pub expire_node-IsCache :
      (c : FileCache) (n : CacheNode)
      → IsCache c
      → In n (to_list c.nodes)
      → IsCache (expire_node n c)
  unfolding expire_node
  expire_node-IsCache c n =
      write_node-IsCache c n (λ x. record x { valid_sec = 0 }) (λ x. (refl, refl)) refl

  existing-In :
      (c : FileCache) (path : Bytes) (n : CacheNode)
      → lookup_existing ngx c path ≡ some n
      → In n (to_list c.nodes)
  existing-In c path n e =
      let f = lookup_existing-FoundNode c path n e in (lookup_node-In c f.file_key n f.found).0

  module _ (os : Os) where
    mark_deleted-IsCache :
        (c : FileCache) (path : Bytes)
        → IsCache c
        → IsCache (mark_deleted ngx os c (lookup_existing ngx c path))
    mark_deleted-IsCache c path v = elim (Option-cases (lookup_existing ngx c path)) [
      | inl e ↦ rw e v
      | inr (n, e) ↦ rw e (mark_node_deleted-IsCache c n v (existing-In c path n e)).0
    ]

    soft_path-IsCache :
        (d : Disk ngx os) (path : Bytes)
        → IsCache d.cache
        → IsCache (soft_path ngx os d path).0.cache
    unfolding soft_path
    soft_path-IsCache d path v = elim (Rc-cases (soft_header ngx os d.fs path).1) [
      | inr (inl e) ↦ rw (e, soft_path) v
      | inr (inr e) ↦ rw (e, soft_path) v
      | inl e ↦ elim (Option-cases (lookup_existing ngx d.cache path)) [
        | inl gone ↦ rw (e, soft_path, gone) v
        | inr (n, there) ↦
            rw (e, soft_path, there)
              (expire_node-IsCache d.cache n v (existing-In d.cache path n there))
      ]
    ]

    delete_cache_file-IsCache :
        (d : Disk ngx os) (path : Bytes)
        → IsCache d.cache
        → IsCache (delete_cache_file ngx os d path).0.cache
    unfolding delete_cache_file
    delete_cache_file-IsCache d path v = by_stat (os.file_info d.fs path) refl
      where
        by_stat :
            (st : Stat)
            → os.file_info d.fs path ≡ st
            → IsCache (delete_cache_file ngx os d path).0.cache
        by_stat stat_enoent e = rw (e, delete_cache_file) v
        by_stat stat_failed e = rw (e, delete_cache_file) v
        by_stat (file_stat size mtime) e = by_deleted (os.delete_file d.fs path).1 refl
          where
            by_deleted :
                (dl : Deleted)
                → (os.delete_file d.fs path).1 ≡ dl
                → IsCache (delete_cache_file ngx os d path).0.cache
            by_deleted unlinked q =
                rw (e, delete_cache_file, q) (mark_deleted-IsCache d.cache path v)
            by_deleted delete_enoent q =
                rw (e, delete_cache_file, q) (mark_deleted-IsCache d.cache path v)
            by_deleted delete_failed q =
                rw (e, delete_cache_file, q) (mark_deleted-IsCache d.cache path v)

    -- Purging a file by its path, in either mode and however it ends, keeps the cache's nodes in order
    -- and its size the sum of their sizes.
    pub by_path-IsCache :
        (soft : Bool) (d : Disk ngx os) (path : Bytes)
        → IsCache d.cache
        → IsCache (by_path ngx os soft d path).0.cache
    unfolding by_path
    by_path-IsCache true d path v = soft_path-IsCache d path v
    by_path-IsCache false d path v = delete_cache_file-IsCache d path v

    pub delete_opened_file-IsCache :
        (d : Disk ngx os) (key path : Bytes)
        → IsCache d.cache
        → IsCache (delete_opened_file ngx os d key path).0.cache
    unfolding delete_opened_file
    delete_opened_file-IsCache d key path v = elim (Option-cases (lookup_node ngx d.cache key)) [
      | inl gone ↦ rw (gone, delete_opened_file) v
      | inr (n, there) ↦
          rw (there, delete_opened_file)
            (by_exists n (lookup_node-In d.cache key n there).0 n.exists)
    ]
      where
        by_exists :
            (n : CacheNode)
            → In n (to_list d.cache.nodes)
            → (b : Bool)
            → IsCache (
                let r : Disk ngx os × Rc = if not b then (d, declined) else (
                  record { cache = mark_node_deleted n d.cache; fs = (os.delete_file d.fs path).0 },
                  ok,
                ) in
                r.0.cache)
        by_exists n m true = (mark_node_deleted-IsCache d.cache n v m).0
        by_exists n m false = v
