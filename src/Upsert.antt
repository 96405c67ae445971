-- ===== src/Upsert.antt =====
-- What an upsert and a deletion of a file's metadata do to its zone
-- (`upsert_file_meta` and `delete_file` in src/ngx_cache_pilot_index_store.c).
pub mod Outcome
pub mod Headers
use ngx_cache_pilot.Base.{
  ℕ, suc, ◌+◌, Bytes, Bool, true, false, not, Option, none, some, List, [], ◌∷◌, ◌++◌, length,
  if◌then◌else◌,
}
use ngx_cache_pilot.Nginx.{Nginx}
use ngx_cache_pilot.Zone.{
  File, Zone, Pool, alloc_locked, insert_path, file_of, lookup_file, remove_file_locked,
  link_exact_key_locked, link_tags_locked, touch_zone_locked,
}

-- The metadata of a cached file.
pub record Meta : Type 0 where
  pub path : Bytes
  pub key : Bytes
  pub mtime : ℕ
  pub size : ℕ
  pub tags : List Bytes

abbrev pub tag_bytes : List Bytes → ℕ
tag_bytes [] = 0
tag_bytes (tag ∷ tags) = length tag + 1 + tag_bytes tags

module _ (ngx : Nginx) where
  -- The new file, before it is linked.
  abbrev pub new_file : Meta → File
  new_file m = record {
    path = m.path;
    key = m.key;
    mtime = m.mtime;
    size = m.size;
    tag_count = length m.tags;
    path_node_key = ngx.crc32_long m.path;
    key_entry = none;
    tag_members = [];
  }

  -- The file under the path goes, if there is one; `false` if there is none.
  unfoldable pub remove_path_locked : Pool ngx → Zone → Bytes → Pool ngx × Zone × Bool
  remove_path_locked pool zone path = elim (lookup_file ngx zone path) [
    | none ↦ (pool, zone, false)
    | some file ↦ let (pool', zone') = remove_file_locked ngx pool zone file in (pool', zone', true)
  ]

  -- The file that was just put in goes again, through its pointer.
  unfoldable pub roll_back : Pool ngx → Zone → Bytes → Pool ngx × Zone
  roll_back pool zone path = elim (file_of path zone.files) [
    | none ↦ (pool, zone)
    | some file ↦ remove_file_locked ngx pool zone file
  ]

  unfoldable pub insert_file : Zone → Meta → Zone
  insert_file zone m = record zone {
    path_index = insert_path ngx zone.path_index m.path;
    files = zone.files ++ new_file m ∷ [];
  }

  -- From the linking of the tags on.
  unfoldable pub link_file_tags : ℕ → Pool ngx → Zone → Meta → Pool ngx × Zone × Bool
  link_file_tags now pool zone m =
      let (pool', zone', tagged) = link_tags_locked ngx pool zone m.path m.tags in
      let (pool'', zone'') = roll_back pool' zone' m.path in
      if not tagged then (pool'', zone'', false) else (pool', touch_zone_locked ngx now zone', true)

  -- From the linking of the key on.
  unfoldable pub link_file : ℕ → Pool ngx → Zone → Meta → Pool ngx × Zone × Bool
  link_file now pool zone m =
      let (pool', zone', keyed) = link_exact_key_locked ngx pool zone m.path m.key in
      let (pool'', zone'') = roll_back pool' zone' m.path in
      if not keyed then (pool'', zone'', false) else link_file_tags now pool' zone' m

  -- From the allocation of the new file on.
  unfoldable pub store_file : ℕ → Pool ngx → Zone → Meta → Pool ngx × Zone × Bool
  store_file now pool zone m =
      let (pool', granted) =
        alloc_locked ngx pool
          (ngx.sizeof_file + (length m.path + 1) + (length m.key + 1) + tag_bytes m.tags) in
      if not granted then (pool', zone, false) else link_file now pool' (insert_file zone m) m

  unfoldable pub upsert_locked : ℕ → Pool ngx → Zone → Meta → Pool ngx × Zone × Bool
  upsert_locked now pool zone m =
      let (pool0, zone0, _) = remove_path_locked pool zone m.path in store_file now pool0 zone0 m

  unfoldable pub delete_locked : ℕ → Pool ngx → Zone → Bytes → Pool ngx × Zone
  delete_locked now pool zone path =
      let (pool', zone', removed) = remove_path_locked pool zone path in
      (pool', (if removed then touch_zone_locked ngx now zone' else zone'))
