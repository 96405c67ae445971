-- ===== src/FileCache/Effects.antt =====
-- What a purge of one file does: a soft purge touches the shared memory only after the disk, and after
-- a hard purge the file has no existing node.
use ngx_cache_pilot.Base.{
  map_option, ℕ, Bytes, Bool, true, false, ◌≡◌, ◌≢◌, refl, sym, ap, ◌∙◌, Option, none, some,
  some-inj, none-ne-some, arith, Bool-cases, Option-cases, inl, inr, take, drop, if◌then◌else◌,
  true-ne-false,
}
use ngx_cache_pilot.Nginx.{Nginx, ok, declined, error}
use ngx_cache_pilot.Os.{
  Os, Stat, Deleted, file_stat, stat_enoent, stat_failed, unlinked, delete_enoent, delete_failed,
}
use ngx_cache_pilot.Tree.{Tree, sentinel, branch, map_tree, lookup_generic}
use ngx_cache_pilot.FileCache.{
  CacheNode, FileCache, at_node, write_node, filename_key, lookup_node, lookup_existing,
  mark_node_deleted, expire_node, mark_deleted, Disk, soft_header, soft_path, delete_cache_file,
}
use ngx_cache_pilot.FileCache.Nodes.{same_node, same_node_refl}
use ngx_cache_pilot.FileCache.Accounting.{lookup_existing-FoundNode, Rc-cases}

module _ (ngx : Nginx) (g : CacheNode → CacheNode)
    (k : (x : CacheNode) → ((g x).node_key ≡ x.node_key) × ((g x).key ≡ x.key)) where
  lookup_generic-map_tree :
      (hash : ℕ) (needle : Bytes) (t : Tree CacheNode)
      → lookup_generic (λ n. n.node_key) (λ n. n.key) ngx.memcmp hash needle (map_tree g t)
        ≡ map_option g (lookup_generic (λ n. n.node_key) (λ n. n.key) ngx.memcmp hash needle t)
  unfolding lookup_generic
  lookup_generic-map_tree hash needle sentinel = refl
  lookup_generic-map_tree hash needle (branch l x r) = ground (
    arith,
    k x,
    ap (ngx.memcmp needle) (k x).1,
    lookup_generic-map_tree hash needle l,
    lookup_generic-map_tree hash needle r,
  )

  -- A change of nodes that keeps their keys changes what the lookup finds.
  lookup_node-map :
      (c : FileCache) (key : Bytes)
      → lookup_node ngx (record c { nodes = map_tree g c.nodes }) key
        ≡ map_option g (lookup_node ngx c key)
  unfolding lookup_node
  lookup_node-map c key = lookup_generic-map_tree (ngx.word_of (take 8 key)) (drop 8 key) c.nodes

at_node_keeps :
    (n : CacheNode) (f : CacheNode → CacheNode)
    → ((x : CacheNode) → ((f x).node_key ≡ x.node_key) × ((f x).key ≡ x.key))
    → (x : CacheNode) → ((at_node n f x).node_key ≡ x.node_key) × ((at_node n f x).key ≡ x.key)
at_node_keeps n f k x = elim (Bool-cases (same_node n x)) [
  | inl hit ↦ rw hit (k x)
  | inr miss ↦ rw miss (refl, refl)
]

chosen : (b : Bool) (a : Option CacheNode) → b ≡ true → (if b then a else none) ≡ a
chosen true a e = refl
chosen false a e = absurd (true-ne-false (sym e))

module _ (ngx : Nginx) where
  -- The node of a file's path after a write through the pointer to it.
  lookup_node-write_node :
      (c : FileCache) (key : Bytes) (n : CacheNode) (f : CacheNode → CacheNode)
      → ((x : CacheNode) → ((f x).node_key ≡ x.node_key) × ((f x).key ≡ x.key))
      → lookup_node ngx c key ≡ some n
      → lookup_node ngx (write_node n f c) key ≡ some (f n)
  lookup_node-write_node c key n f k e =
      lookup_node-map ngx (at_node n f) (at_node_keeps n f k) c key
      ∙ rw (e, same_node_refl ngx n) refl

  lookup_existing_node :
      (c : FileCache) (path key : Bytes) (n : CacheNode)
      → filename_key ngx path ≡ some key
      → lookup_node ngx c key ≡ some n
      → lookup_existing ngx c path ≡ (if n.exists then some n else none)
  unfolding lookup_existing
  lookup_existing_node c path key n q e = rw (q, lookup_existing, e) refl

  mark_node_deleted_gone :
      (c : FileCache) (path : Bytes) (n : CacheNode)
      → lookup_existing ngx c path ≡ some n
      → lookup_existing ngx (mark_node_deleted n c) path ≡ none
  unfolding mark_node_deleted lookup_node
  mark_node_deleted_gone c path n e =
      let there = lookup_existing-FoundNode ngx c path n e in
      lookup_existing_node _ path there.file_key _ there.named (
        lookup_node-write_node c there.file_key n
          (λ x. record x { fs_size = 0; exists = false; updating = false }) (λ x. (refl, refl))
          there.found)

  expire_node_stale :
      (c : FileCache) (path : Bytes) (n m : CacheNode)
      → lookup_existing ngx c path ≡ some n
      → lookup_existing ngx (expire_node n c) path ≡ some m
      → m.valid_sec ≡ 0
  unfolding expire_node
  expire_node_stale c path n m e now =
      let there = lookup_existing-FoundNode ngx c path n e in
      let found =
        lookup_node-write_node c there.file_key n (λ x. record x { valid_sec = 0 })
          (λ x. (refl, refl)) there.found in
      let there_now : lookup_existing ngx (expire_node n c) path
          ≡ (if n.exists then some (record n { valid_sec = 0 }) else none) =
        lookup_existing_node _ path there.file_key _ there.named found in
      let alive : lookup_existing ngx (expire_node n c) path ≡ some (record n { valid_sec = 0 }) =
        there_now ∙ chosen n.exists (some (record n { valid_sec = 0 })) there.alive in
      let same : some m ≡ some (record n { valid_sec = 0 }) = sym now ∙ alive in
      ap (λ x. x.valid_sec) (some-inj same)

declined-ne-ok : declined ≢ ok
declined-ne-ok e = cc

error-ne-ok : error ≢ ok
error-ne-ok e = cc

module _ (ngx : Nginx) (os : Os) where
  mark_deleted_gone :
      (c : FileCache) (path : Bytes)
      → lookup_existing ngx (mark_deleted ngx os c (lookup_existing ngx c path)) path ≡ none
  mark_deleted_gone c path = elim (Option-cases (lookup_existing ngx c path)) [
    | inl e ↦ rw e e
    | inr (n, e) ↦ rw e (mark_node_deleted_gone ngx c path n e)
  ]

  -- A hard purge of a path at which there is a file leaves no existing node for it in the cache, whether or
  -- not the file could be deleted.
  pub delete_cache_file-gone :
      (d : Disk ngx os) (path : Bytes) (size mtime : ℕ)
      → os.file_info d.fs path ≡ file_stat size mtime
      → lookup_existing ngx (delete_cache_file ngx os d path).0.cache path ≡ none
  unfolding delete_cache_file
  delete_cache_file-gone d path size mtime there = by_deleted (os.delete_file d.fs path).1 refl
    where
      by_deleted :
          (r : Deleted)
          → (os.delete_file d.fs path).1 ≡ r
          → lookup_existing ngx (delete_cache_file ngx os d path).0.cache path ≡ none
      by_deleted unlinked q = rw (there, delete_cache_file, q) (mark_deleted_gone d.cache path)
      by_deleted delete_enoent q = rw (there, delete_cache_file, q) (mark_deleted_gone d.cache path)
      by_deleted delete_failed q = rw (there, delete_cache_file, q) (mark_deleted_gone d.cache path)

  -- A soft purge that does not succeed leaves the cache's nodes alone; after one that does, an existing
  -- node for the path has expired.
  pub soft_path_lem :
      (d : Disk ngx os) (path : Bytes)
      → ((soft_path ngx os d path).1 ≢ ok → (soft_path ngx os d path).0.cache ≡ d.cache)
        × ((soft_path ngx os d path).1 ≡ ok
            → (n : CacheNode) → lookup_existing ngx (soft_path ngx os d path).0.cache path ≡ some n
            → n.valid_sec ≡ 0)
  unfolding soft_path
  soft_path_lem d path = elim (Rc-cases (soft_header ngx os d.fs path).1) [
    | inr (inl e) ↦ rw (e, soft_path) (λ r. refl, λ r. absurd (declined-ne-ok r))
    | inr (inr e) ↦ rw (e, soft_path) (λ r. refl, λ r. absurd (error-ne-ok r))
    | inl e ↦ elim (Option-cases (lookup_existing ngx d.cache path)) [
      | inl gone ↦
          rw (e, soft_path, gone)
            (λ r. refl, λ r n there. absurd (none-ne-some {a = n} (sym gone ∙ there)))
      | inr (m, there) ↦
          rw (e, soft_path, there)
            (λ r. absurd (r refl), λ r n now. expire_node_stale ngx d.cache path m n there now)
    ]
  ]

  -- A path without an existing node stays without one while other nodes are marked deleted.
  mark_node_deleted-none :
      (c : FileCache) (q : Bytes) (n : CacheNode)
      → lookup_existing ngx c q ≡ none
      → lookup_existing ngx (mark_node_deleted n c) q ≡ none
  unfolding lookup_existing mark_node_deleted lookup_node
  mark_node_deleted-none c q n e = elim (Option-cases (filename_key ngx q)) [
    | inl f ↦ rw (f, lookup_existing) refl
    | inr (key, f) ↦
        let wrote =
          lookup_node-map ngx
            (at_node n (λ x. record x { fs_size = 0; exists = false; updating = false }))
            (at_node_keeps n (λ x. record x { fs_size = 0; exists = false; updating = false })
              (λ x. (refl, refl)))
            c key in
        elim (Option-cases (lookup_node ngx c key)) [
          | inl gone ↦ rw (f, lookup_existing, wrote, gone) refl
          | inr (m, there) ↦
              rw (f, lookup_existing, wrote, there) (still m (rw (f, lookup_existing, there) at e))
        ]
  ]
    where
      by_hit :
          (m : CacheNode) (b : Bool)
          → m.exists ≡ false
          → (let x : CacheNode =
                if b then record m { fs_size = 0; exists = false; updating = false } else m in
              if x.exists then some x else none)
            ≡ none
      by_hit m true dead = refl
      by_hit m false dead = ap_dead m m.exists dead
        where
          ap_dead : (x : CacheNode) (b : Bool) → b ≡ false → (if b then some x else none) ≡ none
          ap_dead x true d = absurd (true-ne-false d)
          ap_dead x false d = refl

      dead_of : (m : CacheNode) (b : Bool) → (if b then some m else none) ≡ none → b ≡ false
      dead_of m true e = absurd (none-ne-some {a = m} (sym e))
      dead_of m false e = refl

      still :
          (m : CacheNode)
          → (if m.exists then some m else none) ≡ none
          → (let x =
                at_node n (λ x. record x { fs_size = 0; exists = false; updating = false }) m in
              if x.exists then some x else none)
            ≡ none
      still m e = by_hit m (same_node n m) (dead_of m m.exists e)

  mark_deleted-none :
      (c : FileCache) (p q : Bytes)
      → lookup_existing ngx c q ≡ none
      → lookup_existing ngx (mark_deleted ngx os c (lookup_existing ngx c p)) q ≡ none
  mark_deleted-none c p q e = elim (Option-cases (lookup_existing ngx c p)) [
    | inl none_there ↦ rw none_there e
    | inr (n, there) ↦ rw there (mark_node_deleted-none c q n e)
  ]

  -- A hard purge that deletes its file leaves no existing node for its path; for a path without an existing node it makes
  -- none.
  pub delete_cache_file_ok :
      (d : Disk ngx os) (path : Bytes)
      → ((delete_cache_file ngx os d path).1 ≡ ok
          → lookup_existing ngx (delete_cache_file ngx os d path).0.cache path ≡ none)
        × ((q : Bytes)
            → lookup_existing ngx d.cache q ≡ none
            → lookup_existing ngx (delete_cache_file ngx os d path).0.cache q ≡ none)
  unfolding delete_cache_file
  delete_cache_file_ok d path = by_stat (os.file_info d.fs path) refl
    where
      by_stat :
          (st : Stat)
          → os.file_info d.fs path ≡ st
          → ((delete_cache_file ngx os d path).1 ≡ ok
              → lookup_existing ngx (delete_cache_file ngx os d path).0.cache path ≡ none)
            × ((q : Bytes)
                → lookup_existing ngx d.cache q ≡ none
                → lookup_existing ngx (delete_cache_file ngx os d path).0.cache q ≡ none)
      by_stat stat_enoent e = rw (e, delete_cache_file) (λ r. absurd (declined-ne-ok r), λ q h. h)
      by_stat stat_failed e = rw (e, delete_cache_file) (λ r. absurd (error-ne-ok r), λ q h. h)
      by_stat (file_stat size mtime) e = (
        λ r. delete_cache_file-gone d path size mtime e,
        λ q h. by_deleted q h (os.delete_file d.fs path).1 refl,
      )
        where
          by_deleted :
              (q : Bytes)
              → lookup_existing ngx d.cache q ≡ none
              → (r : Deleted) → (os.delete_file d.fs path).1 ≡ r
              → lookup_existing ngx (delete_cache_file ngx os d path).0.cache q ≡ none
          by_deleted q h unlinked x =
              rw (e, delete_cache_file, x) (mark_deleted-none d.cache path q h)
          by_deleted q h delete_enoent x =
              rw (e, delete_cache_file, x) (mark_deleted-none d.cache path q h)
          by_deleted q h delete_failed x =
              rw (e, delete_cache_file, x) (mark_deleted-none d.cache path q h)
