-- ===== src/FileCache.antt =====
-- One file of nginx's cache: its node in shared memory and its copy on disk (`soft_path`,
-- `delete_cache_file`, `delete_opened_file` and `by_path` in src/ngx_cache_pilot_module.c, for nginx
-- 1.0.1 and later). A pointer to a node is named by the node's key. The size of the cache does not
-- get below 0.
pub mod Nodes
pub mod Accounting
pub mod Effects
use ngx_cache_pilot.Base.{
  ℕ, zero, suc, ◌+◌, ◌-◌, ◌*◌, ◌%◌, Bytes, Bool, true, false, not, ◌&&◌, ◌==◌, ◌==ᵇ◌, Option, none,
  some, List, [], ◌∷◌, ◌++◌, length, take, drop, reverse, if◌then◌else◌,
}
use ngx_cache_pilot.Nginx.{Nginx, Rc, ok, declined, error}
use ngx_cache_pilot.Os.{
  Os, file_stat, stat_enoent, stat_failed, opened, open_enoent, open_failed, unlinked,
  delete_enoent, delete_failed,
}
use ngx_cache_pilot.Tree.{Tree, map_tree, lookup_generic}

-- `ngx_http_file_cache_node_t`: the first eight bytes of the key are the key of the tree's node.
pub record CacheNode : Type 0 where
  pub node_key : ℕ
  pub key : Bytes
  pub exists : Bool
  pub updating : Bool
  pub fs_size : ℕ
  pub valid_sec : ℕ
  pub lock_time : ℕ

-- `ngx_http_file_cache_t`, as far as the module reads it.
pub record FileCache : Type 0 where
  pub nodes : Tree CacheNode
  pub size : ℕ

-- A change of the node behind a pointer; the key names it.
abbrev pub at_node : CacheNode → (CacheNode → CacheNode) → CacheNode → CacheNode
at_node n f x = if x.node_key == n.node_key && x.key ==ᵇ n.key then f x else x

abbrev pub write_node : CacheNode → (CacheNode → CacheNode) → FileCache → FileCache
write_node n f cache = record cache { nodes = map_tree (at_node n f) cache.nodes }

-- The bytes behind the last `/`, found from the end.
unfoldable pub until_slash : Bytes → Bytes
until_slash [] = []
until_slash (c ∷ cs) = if c == 47 then [] else c ∷ until_slash cs

unfoldable pub base_name : Bytes → Bytes
unfolding until_slash
base_name path = reverse (until_slash (reverse path))

-- `NGX_HTTP_CACHE_KEY_LEN`, and the size of a tree's key.
abbrev pub key_len : ℕ
key_len = 16

abbrev pub word_len : ℕ
word_len = 8

module _ (ngx : Nginx) where
  unfoldable pub hex_bytes : Bytes → Option Bytes
  hex_bytes [] = some []
  hex_bytes (h ∷ []) = none
  hex_bytes (h ∷ l ∷ rest) = elim (ngx.hextoi h) [
    | none ↦ none
    | some hi ↦ elim (ngx.hextoi l) [
      | none ↦ none
      | some lo ↦ elim (hex_bytes rest) [
        | none ↦ none
        | some bytes ↦ some (((hi * 16 + lo) % 256) ∷ bytes)
      ]
    ]
  ]

  -- `none` is `NGX_DECLINED`.
  unfoldable pub filename_key : Bytes → Option Bytes
  unfolding base_name hex_bytes
  filename_key path =
      if length (base_name path) == 2 * key_len then hex_bytes (base_name path) else none

  unfoldable pub lookup_node : FileCache → Bytes → Option CacheNode
  lookup_node cache key =
      lookup_generic (λ n. n.node_key) (λ n. n.key) ngx.memcmp (ngx.word_of (take word_len key))
        (drop word_len key) cache.nodes

  -- The node of a path, if there is one and it exists.
  unfoldable pub lookup_existing : FileCache → Bytes → Option CacheNode
  unfolding filename_key lookup_node
  lookup_existing cache path = elim (filename_key path) [
    | none ↦ none
    | some key ↦ elim (lookup_node cache key) [
      | none ↦ none
      | some node ↦ if node.exists then some node else none
    ]
  ]

-- The file no longer takes up space.
unfoldable pub mark_node_deleted : CacheNode → FileCache → FileCache
mark_node_deleted node cache =
    record (write_node node (λ x. record x { fs_size = 0; exists = false; updating = false })
      cache) { size = cache.size - node.fs_size }

unfoldable pub expire_node : CacheNode → FileCache → FileCache
expire_node node = write_node node (λ x. record x { valid_sec = 0 })

module _ (ngx : Nginx) (os : Os) where
  -- The cache and the file system.
  pub record Disk : Type 0 where
    pub cache : FileCache
    pub fs : os.Fs

  -- Write the header back with `valid_sec` 0, after it has been read whole.
  unfoldable pub write_header : os.Fs → Bytes → Bytes → os.Fs × Rc
  write_header fs path header =
      let (fs', written) = os.write_file fs path (os.expire header) in
      elim written [
        | none ↦ (fs', error)
        | some n ↦ (fs', (if n == os.sizeof_header then ok else error))
      ]

  unfoldable pub soft_header : os.Fs → Bytes → os.Fs × Rc
  unfolding write_header
  soft_header fs path = elim (os.open_file fs path) [
    | open_enoent ↦ (fs, declined)
    | open_failed ↦ (fs, error)
    | opened ↦ elim (os.read_file fs path os.sizeof_header 0) [
      | none ↦ (fs, error)
      | some header ↦
          if not (length header == os.sizeof_header)
          then (fs, error)
          else if not (os.version_of header == os.cache_version)
          then (fs, error)
          else write_header fs path header
    ]
  ]

  -- The shared memory follows only after the disk.
  unfoldable pub soft_path : Disk → Bytes → Disk × Rc
  soft_path disk path =
      let (fs', rc) = soft_header disk.fs path in
      elim rc [
        | declined ↦ (record disk { fs = fs' }, declined)
        | error ↦ (record disk { fs = fs' }, error)
        | ok ↦ elim (lookup_existing ngx disk.cache path) [
          | none ↦ (record disk { fs = fs' }, ok)
          | some node ↦ (record { cache = expire_node node disk.cache; fs = fs' }, ok)
        ]
      ]

  abbrev pub mark_deleted : FileCache → Option CacheNode → FileCache
  mark_deleted cache none = cache
  mark_deleted cache (some node) = mark_node_deleted node cache

  unfoldable pub delete_cache_file : Disk → Bytes → Disk × Rc
  delete_cache_file disk path = elim (os.file_info disk.fs path) [
    | stat_enoent ↦ (disk, declined)
    | stat_failed ↦ (disk, error)
    | file_stat size mtime ↦
        let (fs', deleted) = os.delete_file disk.fs path in
        let disk' : Disk = record {
          cache = mark_deleted disk.cache (lookup_existing ngx disk.cache path);
          fs = fs';
        } in
        elim deleted [
          | unlinked ↦ (disk', ok)
          | delete_enoent ↦ (disk', declined)
          | delete_failed ↦ (disk', error)
        ]
  ]

  -- The file of the cache entry that the request has opened, by the entry's key; a failure to delete
  -- it is logged only.
  unfoldable pub delete_opened_file : Disk → Bytes → Bytes → Disk × Rc
  delete_opened_file disk key path = elim (lookup_node ngx disk.cache key) [
    | none ↦ (disk, declined)
    | some node ↦ if not node.exists then (disk, declined) else (
      record { cache = mark_node_deleted node disk.cache; fs = (os.delete_file disk.fs path).0 },
      ok,
    )
  ]

  unfoldable pub by_path : Bool → Disk → Bytes → Disk × Rc
  by_path soft disk path = if soft then soft_path disk path else delete_cache_file disk path
