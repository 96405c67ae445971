-- ===== src/Zone.antt =====
-- One zone of the index and the operations that run on it under the shared-memory lock
-- (src/ngx_cache_pilot_index_store.c). The copies of the tags behind a file's path and key are not
-- modelled: nothing reads them. `ngx_time()` is an argument.
pub mod Links
pub mod Paths
pub mod Invariant
pub mod Linking
pub mod Headers
use ngx_cache_pilot.Base.{
  remove_first, ℕ, suc, ◌+◌, ◌%◌, ◌^◌, Bytes, Bool, true, false, not, ◌==◌, ◌==ᵇ◌, Option, none,
  some, List, [], ◌∷◌, ◌++◌, length, map, if◌then◌else◌,
}
use ngx_cache_pilot.Nginx.{Nginx, Block, file_block, key_block, tag_block, member_block}
use ngx_cache_pilot.Tree.{Tree, sentinel, to_list, insert_generic, lookup_generic}
use ngx_cache_pilot.Index.{
  Entry, lookup_entry, insert_entry, push_file, unlink_file, free_empty_entry, queue_of, is_empty,
}

-- `ngx_http_cache_index_shm_file_t`: the links to its key entry and, in `tag_members`, to the tag
-- entries.
pub record File : Type 0 where
  pub path : Bytes
  pub key : Bytes
  pub mtime : ℕ
  pub size : ℕ
  pub tag_count : ℕ
  pub path_node_key : ℕ
  pub key_entry : Option Bytes
  pub tag_members : List Bytes

-- `file->path_node`, in the path index.
pub record PathNode : Type 0 where
  pub node_key : ℕ
  pub path : Bytes

-- `ngx_http_cache_index_shm_zone_t`.
pub record Zone : Type 0 where
  pub name : Bytes
  pub files : List File
  pub path_index : Tree PathNode
  pub key_index : Tree Entry
  pub tag_index : Tree Entry
  pub bootstrap_complete : Bool
  pub last_bootstrap_at : ℕ
  pub last_updated_at : ℕ

-- A change of the file behind a pointer, and the file behind a pointer.
abbrev pub write_file : Bytes → (File → File) → List File → List File
write_file path f [] = []
write_file path f (x ∷ xs) = (if x.path ==ᵇ path then f x else x) ∷ write_file path f xs

abbrev pub file_of : Bytes → List File → Option File
file_of path [] = none
file_of path (x ∷ xs) = if x.path ==ᵇ path then some x else file_of path xs

module _ (ngx : Nginx) where
  -- The slab pool, and the counter of the shared context.
  pub record Pool : Type 0 where
    pub slab : ngx.Slab
    pub alloc_failures : ℕ

  unfoldable pub alloc_locked : Pool → ℕ → Pool × Bool
  alloc_locked pool size =
      let (slab, granted) = ngx.slab_alloc pool.slab size in
      if granted
      then (record pool { slab = slab }, true)
      else (record { slab = slab; alloc_failures = (pool.alloc_failures + 1) % 2 ^ 64 }, false)

  abbrev pub free_locked : Pool → Block → Pool
  free_locked pool block = record pool { slab = ngx.slab_free pool.slab block }

  unfoldable pub lookup_path : Tree PathNode → ℕ → Bytes → Option PathNode
  lookup_path index hash path =
      lookup_generic (λ n. n.node_key) (λ n. n.path) ngx.memn2cmp hash path index

  unfoldable pub insert_path : Tree PathNode → Bytes → Tree PathNode
  insert_path index path = ngx.rebalance PathNode (
      insert_generic (λ n. n.node_key) (λ n. n.path) ngx.memn2cmp index
        (record { node_key = ngx.crc32_long path; path = path }))

  -- The full checksum first, then the legacy one if it differs.
  unfoldable pub lookup_file : Zone → Bytes → Option File
  lookup_file zone path =
      let hash = ngx.crc32_long path in
      let legacy_hash = ngx.crc32_short path in
      elim (lookup_path zone.path_index hash path) [
        | some node ↦ file_of node.path zone.files
        | none ↦
            if legacy_hash == hash
            then none
            else elim (lookup_path zone.path_index legacy_hash path) [
              | some node ↦ file_of node.path zone.files
              | none ↦ none
            ]
      ]

  -- The entry for the key, made if there is none; `false` if there is no memory for it.
  unfoldable pub get_key_entry_locked : Pool → Zone → Bytes → Pool × Zone × Bool
  get_key_entry_locked pool zone key = elim (lookup_entry ngx zone.key_index key) [
    | some entry ↦ (pool, zone, true)
    | none ↦
        let (pool', granted) = alloc_locked pool (ngx.sizeof_entry + length key) in
        if granted
        then (pool', record zone { key_index = insert_entry ngx zone.key_index key }, true)
        else (pool', zone, false)
  ]

  unfoldable pub get_tag_entry_locked : Pool → Zone → Bytes → Pool × Zone × Bool
  get_tag_entry_locked pool zone tag = elim (lookup_entry ngx zone.tag_index tag) [
    | some entry ↦ (pool, zone, true)
    | none ↦
        let (pool', granted) = alloc_locked pool (ngx.sizeof_entry + length tag) in
        if granted
        then (pool', record zone { tag_index = insert_entry ngx zone.tag_index tag }, true)
        else (pool', zone, false)
  ]

  unfoldable pub free_empty_key_entry_locked : Pool → Zone → Bytes → Pool × Zone
  free_empty_key_entry_locked pool zone key = (
    (if is_empty (queue_of key (to_list zone.key_index))
        then free_locked pool (key_block key)
        else pool),
    record zone { key_index = free_empty_entry ngx zone.key_index key },
  )

  unfoldable pub free_empty_tag_entry_locked : Pool → Zone → Bytes → Pool × Zone
  free_empty_tag_entry_locked pool zone tag = (
    (if is_empty (queue_of tag (to_list zone.tag_index))
        then free_locked pool (tag_block tag)
        else pool),
    record zone { tag_index = free_empty_entry ngx zone.tag_index tag },
  )

  -- The links of a file's members are taken out one by one.
  unfoldable pub unlink_members : Pool → Zone → Bytes → List Bytes → Pool × Zone
  unfolding free_empty_tag_entry_locked
  unlink_members pool zone path [] = (pool, zone)
  unlink_members pool zone path (tag ∷ tags) =
      let (pool', zone') =
        free_empty_tag_entry_locked pool
          (record zone {
            files = write_file path (λ x. record x { tag_members = tags }) zone.files;
            tag_index = unlink_file ngx zone.tag_index tag path;
          })
          tag in
      unlink_members (free_locked pool' (member_block tag path)) zone' path tags

  unfoldable pub unlink_key : Pool → Zone → File → Pool × Zone
  unfolding free_empty_key_entry_locked
  unlink_key pool zone file = elim file.key_entry [
    | none ↦ (pool, zone)
    | some key ↦
        free_empty_key_entry_locked pool
          (record zone {
            files = write_file file.path (λ x. record x { key_entry = none }) zone.files;
            key_index = unlink_file ngx zone.key_index key file.path;
          })
          key
  ]

  unfoldable pub remove_file_locked : Pool → Zone → File → Pool × Zone
  unfolding unlink_key unlink_members
  remove_file_locked pool zone file =
      let (pool', zone') = unlink_key pool zone file in
      let (pool'', zone'') = unlink_members pool' zone' file.path file.tag_members in
      (
        free_locked pool'' (file_block file.path),
        record zone'' {
          path_index = ngx.rbtree_delete PathNode (λ n. n.path ==ᵇ file.path) zone''.path_index;
          files = remove_first (λ x. x.path ==ᵇ file.path) zone''.files;
        },
      )

  -- A file without a key is linked to no entry.
  unfoldable pub link_exact_key_locked : Pool → Zone → Bytes → Bytes → Pool × Zone × Bool
  link_exact_key_locked pool zone path [] = (pool, zone, true)
  link_exact_key_locked pool zone path (c ∷ key) =
      let (pool', zone', found) = get_key_entry_locked pool zone (c ∷ key) in
      if found
      then (
        pool',
        record zone' {
          files = write_file path (λ x. record x { key_entry = some (c ∷ key) }) zone'.files;
          key_index = push_file ngx zone'.key_index (c ∷ key) path;
        },
        true,
      )
      else (pool', zone', false)

  unfoldable pub link_tags_locked : Pool → Zone → Bytes → List Bytes → Pool × Zone × Bool
  link_tags_locked pool zone path [] = (pool, zone, true)
  link_tags_locked pool zone path (tag ∷ tags) =
      let (pool', zone', found) = get_tag_entry_locked pool zone tag in
      let (pool'', granted) = alloc_locked pool' ngx.sizeof_member in
      let linked = record zone' {
        files =
            write_file path (λ x. record x { tag_members = x.tag_members ++ tag ∷ [] }) zone'.files;
        tag_index = push_file ngx zone'.tag_index tag path;
      } in
      let rest = link_tags_locked pool'' linked path tags in
      if not found then (pool', zone', false) else if granted then rest else (pool'', zone', false)

  unfoldable pub touch_zone_locked : ℕ → Zone → Zone
  touch_zone_locked now zone = record zone { last_updated_at = now }
