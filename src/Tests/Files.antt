-- ===== src/Tests/Files.antt =====
-- Purges of one file, of a key and of a prefix on the concrete platform.
use ngx_cache_pilot.Base.{
  ◌⊎◌, begins, Bytes, true, false, ◌≡◌, ◌≢◌, ◌==ᵇ◌, ◌+◌, refl, none, some, some-inj, List, [], ◌∷◌,
  codes, if◌then◌else◌, NulFree, arith, length, inl, same_string, strncmp_eq, All,
}
use ngx_cache_pilot.Nginx.{ok, error}
use ngx_cache_pilot.Tree.{lookup_generic, insert_generic}
use ngx_cache_pilot.Index.{lookup_entry, insert_entry, push_file, unlink_file, free_empty_entry}
use ngx_cache_pilot.Zone.{
  alloc_locked, lookup_path, insert_path, lookup_file, get_key_entry_locked, get_tag_entry_locked,
  unlink_key, unlink_members, free_empty_key_entry_locked, free_empty_tag_entry_locked,
  remove_file_locked, link_exact_key_locked, link_tags_locked, touch_zone_locked,
}
use ngx_cache_pilot.Collect.{
  collect_tags, collect_key, collect_prefix, push_queue, push_path_unique, is_listed,
}
use ngx_cache_pilot.Upsert.{
  upsert_locked, delete_locked, remove_path_locked, store_file, insert_file, link_file,
  link_file_tags, roll_back,
}
use ngx_cache_pilot.Store.{
  lookup_zone, write_zone, get_zone_locked, upsert_file_meta, delete_file, collect_paths_by_tags,
  collect_paths_by_exact_key, collect_paths_by_key_prefix, set_zone_state, get_zone_state,
  normalize_zone_state, fill_bootstrap_at,
}
use ngx_cache_pilot.Store.Catalogue.{catalogue}
use ngx_cache_pilot.Store.Queries.{some_meta, has_key, has_key}
use ngx_cache_pilot.Store.Queries.{some_meta, has_key}
use ngx_cache_pilot.Purge.{unset}
use ngx_cache_pilot.Response.{path_unset}
use ngx_cache_pilot.Stats.{Counters, add_count, add_metrics, record_purge, record_purge_request}
use ngx_cache_pilot.FileCache.{
  CacheNode, by_path, delete_cache_file, soft_path, lookup_existing, lookup_node, filename_key,
  base_name, until_slash, hex_bytes, mark_node_deleted, delete_opened_file,
}
use ngx_cache_pilot.FileCache.Accounting.{IsCache, by_path-IsCache}
use ngx_cache_pilot.FileCache.Effects.{delete_cache_file-gone, soft_path_lem}
use ngx_cache_pilot.Request.{
  Call, cache_ok, concat, set_response_path, set_decline_reason, note_purge, note_purge_request,
  record_key_index_exact_fanout, record_key_index_wildcard_hit, cache_key_text, key_index_ready,
}
use ngx_cache_pilot.Request.World.{World, by_indexed_path, purge_indexed, release_updating}
use ngx_cache_pilot.Request.Kept.{IsSound}
use ngx_cache_pilot.Exact.{opened_rc, note_exact, fan_out_hard, exact_purge, exact_purge_soft}
use ngx_cache_pilot.Exact.Kept.{
  NamedZone, SoftDone, HardDone, exact_purge_lem, exact_purge_soft_lem,
}
use ngx_cache_pilot.Exact.Cleared.{FansOut, exact_purge-cleared}
use ngx_cache_pilot.Walk.{
  partial, partial_for, partial_index, partial_walk, walk_files, walk_file, partial_match,
  key_prefix,
}
use ngx_cache_pilot.Walk.Kept.{WalkDone, partial_lem}
use ngx_cache_pilot.Walk.Cleared.{Finds, partial-cleared}
use ngx_cache_pilot.Walk.Gone.{Picks, IsGone, walk_files-IsGone}
use ngx_cache_pilot.Handler.{response, internal_error, handler, handler_rc}
use ngx_cache_pilot.Handler.Replies.{handler-reply}
use ngx_cache_pilot.Tests.Platform.{platform}
use ngx_cache_pilot.Tests.Disks.{files, full_disk, file_a, file_b}
use ngx_cache_pilot.Tests.Stores.{
  no_nul-NulFree, zone_name, zone_name-NulFree, two_files, two_files_reached, ready_store,
  ready_store_reached, is_ready,
}

full_disk-IsCache : IsCache platform full_disk.cache
full_disk-IsCache = record { sorted = ((inl (omega arith), tt), (tt, tt)); accounted = refl }

by_path-IsCache_example : IsCache platform (by_path platform files false full_disk file_a).0.cache
by_path-IsCache_example = by_path-IsCache platform files false full_disk file_a full_disk-IsCache

delete_cache_file-gone_example :
    lookup_existing platform (delete_cache_file platform files full_disk file_a).0.cache file_a
    ≡ none
delete_cache_file-gone_example = delete_cache_file-gone platform files full_disk file_a 3 0 refl

soft_path_lem_example :
    ((soft_path platform files full_disk file_a).1 ≢ ok
      → (soft_path platform files full_disk file_a).0.cache ≡ full_disk.cache)
    × ((soft_path platform files full_disk file_a).1 ≡ ok
        → (n : CacheNode)
        → lookup_existing platform (soft_path platform files full_disk file_a).0.cache file_a
          ≡ some n
        → n.valid_sec ≡ 0)
soft_path_lem_example = soft_path_lem platform files full_disk file_a

abbrev key_call : Call
key_call = record {
  keys = codes "kk" ∷ [];
  opening = cache_ok;
  node = 0 ∷ 0 ∷ 0 ∷ 0 ∷ 0 ∷ 0 ∷ 0 ∷ 1 ∷ 0 ∷ 0 ∷ 0 ∷ 0 ∷ 0 ∷ 0 ∷ 0 ∷ 2 ∷ [];
  file_name = file_a;
  lock_time = 0;
  updating = true;
  root = codes "/c";
  configured = true;
  zone = some zone_name;
  reader = false;
  writer = true;
  granted = true;
  created = true;
  room = 10;
}

abbrev prefix_call : Call
prefix_call = record key_call { keys = codes "k*" ∷ [] }

abbrev no_counts : Counters
no_counts = record {
  exact_hard = 0;
  exact_soft = 0;
  wildcard_hard = 0;
  wildcard_soft = 0;
  tag_hard = 0;
  tag_soft = 0;
  all_hard = 0;
  all_soft = 0;
}

abbrev world : World platform files
world = record {
  disk = full_disk;
  store = two_files;
  notes = record {
    context = some (record { purge_path = path_unset; reason = unset; purged = no_counts });
    metrics =
        some
          (record { purged = no_counts; purges = no_counts; exact_fanouts = 0; wildcard_hits = 0 });
  };
}

world-IsSound : IsSound platform files full_disk two_files
world-IsSound = record { cache = full_disk-IsCache; store = two_files_reached }

key_call-NamedZone : NamedZone key_call
key_call-NamedZone name e = rw (← some-inj e) zone_name-NulFree

exact_purge_lem_example :
    HardDone platform files world (exact_purge platform files 8 key_call world)
exact_purge_lem_example =
    exact_purge_lem platform files 8 key_call world key_call-NamedZone world-IsSound

exact_purge_soft_lem_example :
    SoftDone platform files world (exact_purge_soft platform files key_call world)
exact_purge_soft_lem_example = exact_purge_soft_lem platform files key_call world world-IsSound

-- The world with the zone bootstrapped.
abbrev ready_world : World platform files
ready_world = record world { store = ready_store }

key_call-FansOut :
    FansOut platform files 8 key_call zone_name (codes "kk") [] 9 (codes "/b" ∷ []) ready_store
unfolding collect_paths_by_tags collect_paths_by_exact_key collect_paths_by_key_prefix lookup_zone
    same_string strncmp_eq collect_tags collect_key collect_prefix lookup_entry lookup_generic
    push_queue push_path_unique is_listed upsert_file_meta delete_file get_zone_locked alloc_locked
    upsert_locked delete_locked remove_path_locked lookup_file lookup_path store_file insert_file
    insert_path insert_generic link_file link_file_tags link_exact_key_locked get_key_entry_locked
    insert_entry push_file link_tags_locked get_tag_entry_locked touch_zone_locked write_zone
    roll_back remove_file_locked unlink_key unlink_members unlink_file free_empty_entry
    free_empty_key_entry_locked free_empty_tag_entry_locked set_response_path set_decline_reason
    note_purge note_purge_request record_key_index_exact_fanout record_key_index_wildcard_hit
    cache_key_text key_index_ready record_purge record_purge_request add_count add_metrics opened_rc
    note_exact fan_out_hard exact_purge by_indexed_path purge_indexed release_updating
    delete_opened_file lookup_node by_path delete_cache_file lookup_existing filename_key base_name
    until_slash hex_bytes mark_node_deleted set_zone_state get_zone_state normalize_zone_state
    fill_bootstrap_at
key_call-FansOut = record { ready = refl; granted = refl; keys = refl; collected = refl }

key_call_succeeds : (exact_purge platform files 8 key_call ready_world).1 ≡ ok
unfolding collect_paths_by_tags collect_paths_by_exact_key collect_paths_by_key_prefix lookup_zone
    same_string strncmp_eq collect_tags collect_key collect_prefix lookup_entry lookup_generic
    push_queue push_path_unique is_listed upsert_file_meta delete_file get_zone_locked alloc_locked
    upsert_locked delete_locked remove_path_locked lookup_file lookup_path store_file insert_file
    insert_path insert_generic link_file link_file_tags link_exact_key_locked get_key_entry_locked
    insert_entry push_file link_tags_locked get_tag_entry_locked touch_zone_locked write_zone
    roll_back remove_file_locked unlink_key unlink_members unlink_file free_empty_entry
    free_empty_key_entry_locked free_empty_tag_entry_locked set_response_path set_decline_reason
    note_purge note_purge_request record_key_index_exact_fanout record_key_index_wildcard_hit
    cache_key_text key_index_ready record_purge record_purge_request add_count add_metrics opened_rc
    note_exact fan_out_hard exact_purge by_indexed_path purge_indexed release_updating
    delete_opened_file lookup_node by_path delete_cache_file lookup_existing filename_key base_name
    until_slash hex_bytes mark_node_deleted set_zone_state get_zone_state normalize_zone_state
    fill_bootstrap_at
key_call_succeeds = refl

-- A purge of the key fans out also in a zone that is not bootstrapped.
unready_fan_out :
    ((get_zone_state platform 8 two_files zone_name).bootstrap_complete ≡ false)
    × (some_meta
          (λ m. true)
          (codes "/b")
          (catalogue platform (exact_purge platform files 8 key_call world).0.store zone_name)
        ≡ false)
unfolding collect_paths_by_tags collect_paths_by_exact_key collect_paths_by_key_prefix lookup_zone
    same_string strncmp_eq collect_tags collect_key collect_prefix lookup_entry lookup_generic
    push_queue push_path_unique is_listed upsert_file_meta delete_file get_zone_locked alloc_locked
    upsert_locked delete_locked remove_path_locked lookup_file lookup_path store_file insert_file
    insert_path insert_generic link_file link_file_tags link_exact_key_locked get_key_entry_locked
    insert_entry push_file link_tags_locked get_tag_entry_locked touch_zone_locked write_zone
    roll_back remove_file_locked unlink_key unlink_members unlink_file free_empty_entry
    free_empty_key_entry_locked free_empty_tag_entry_locked set_response_path set_decline_reason
    note_purge note_purge_request record_key_index_exact_fanout record_key_index_wildcard_hit
    cache_key_text key_index_ready record_purge record_purge_request add_count add_metrics opened_rc
    note_exact fan_out_hard exact_purge by_indexed_path purge_indexed release_updating
    delete_opened_file lookup_node by_path delete_cache_file lookup_existing filename_key base_name
    until_slash hex_bytes mark_node_deleted set_zone_state get_zone_state normalize_zone_state
    fill_bootstrap_at
unready_fan_out = (refl, refl)

exact_purge-cleared_example :
    some_meta
      (λ m. true)
      (codes "/b")
      (catalogue platform (exact_purge platform files 8 key_call ready_world).0.store zone_name)
    ≡ (if file_a ==ᵇ codes "/b"
        then false
        else if some_meta
            (has_key (concat (codes "kk" ∷ [])))
            (codes "/b")
            (catalogue platform ready_store zone_name)
        then false
        else some_meta (λ m. true) (codes "/b") (catalogue platform ready_store zone_name))
exact_purge-cleared_example =
    exact_purge-cleared platform files 8 key_call zone_name (codes "kk") [] 9 (codes "/b" ∷ [])
      ready_world key_call-FansOut is_ready ready_store_reached zone_name-NulFree key_call_succeeds
      (λ m. true) (codes "/b")

prefix_call-NamedZone : NamedZone prefix_call
prefix_call-NamedZone name e = rw (← some-inj e) zone_name-NulFree

partial_lem_example :
    WalkDone platform files false world (partial platform files 8 false prefix_call world).0
partial_lem_example =
    partial_lem platform files 8 false prefix_call world prefix_call-NamedZone world-IsSound

prefix_call-Finds :
    Finds platform files 8 prefix_call zone_name 8
      (codes "/a" ∷ codes "/b" ∷ [])
      two_files
      (key_prefix prefix_call.keys)
unfolding collect_paths_by_tags collect_paths_by_exact_key collect_paths_by_key_prefix lookup_zone
    same_string strncmp_eq collect_tags collect_key collect_prefix lookup_entry lookup_generic
    push_queue push_path_unique is_listed upsert_file_meta delete_file get_zone_locked alloc_locked
    upsert_locked delete_locked remove_path_locked lookup_file lookup_path store_file insert_file
    insert_path insert_generic link_file link_file_tags link_exact_key_locked get_key_entry_locked
    insert_entry push_file link_tags_locked get_tag_entry_locked touch_zone_locked write_zone
    roll_back remove_file_locked unlink_key unlink_members unlink_file free_empty_entry
    free_empty_key_entry_locked free_empty_tag_entry_locked set_response_path set_decline_reason
    note_purge note_purge_request record_key_index_exact_fanout record_key_index_wildcard_hit
    cache_key_text key_index_ready record_purge record_purge_request add_count add_metrics opened_rc
    note_exact fan_out_hard exact_purge by_indexed_path purge_indexed release_updating
    delete_opened_file lookup_node by_path delete_cache_file lookup_existing filename_key base_name
    until_slash hex_bytes mark_node_deleted partial partial_for partial_index partial_walk
    walk_files walk_file partial_match key_prefix
prefix_call-Finds = record { ready = refl; collected = refl }

prefix_call_succeeds : (partial platform files 8 false prefix_call world).1 ≡ ok
unfolding collect_paths_by_tags collect_paths_by_exact_key collect_paths_by_key_prefix lookup_zone
    same_string strncmp_eq collect_tags collect_key collect_prefix lookup_entry lookup_generic
    push_queue push_path_unique is_listed upsert_file_meta delete_file get_zone_locked alloc_locked
    upsert_locked delete_locked remove_path_locked lookup_file lookup_path store_file insert_file
    insert_path insert_generic link_file link_file_tags link_exact_key_locked get_key_entry_locked
    insert_entry push_file link_tags_locked get_tag_entry_locked touch_zone_locked write_zone
    roll_back remove_file_locked unlink_key unlink_members unlink_file free_empty_entry
    free_empty_key_entry_locked free_empty_tag_entry_locked set_response_path set_decline_reason
    note_purge note_purge_request record_key_index_exact_fanout record_key_index_wildcard_hit
    cache_key_text key_index_ready record_purge record_purge_request add_count add_metrics opened_rc
    note_exact fan_out_hard exact_purge by_indexed_path purge_indexed release_updating
    delete_opened_file lookup_node by_path delete_cache_file lookup_existing filename_key base_name
    until_slash hex_bytes mark_node_deleted partial partial_for partial_index partial_walk
    walk_files walk_file partial_match key_prefix
prefix_call_succeeds = refl

prefix-NulFree : NulFree (key_prefix prefix_call.keys)
unfolding key_prefix
prefix-NulFree = no_nul-NulFree (codes "k") refl

partial-cleared_example :
    some_meta
      (λ m. true)
      (codes "/a")
      (catalogue platform (partial platform files 8 false prefix_call world).0.store zone_name)
    ≡ (if some_meta
          (λ m. begins (key_prefix prefix_call.keys) m.key)
          (codes "/a")
          (catalogue platform two_files zone_name)
        then false
        else some_meta (λ m. true) (codes "/a") (catalogue platform two_files zone_name))
partial-cleared_example =
    partial-cleared platform files 8 prefix_call zone_name 8 (codes "/a" ∷ codes "/b" ∷ []) world
      prefix_call-Finds two_files_reached zone_name-NulFree prefix-NulFree prefix_call_succeeds
      (λ m. true) (codes "/a")

walk_files-IsGone_example :
    let r = walk_files platform files false none full_disk 0 (file_a ∷ file_b ∷ []) in
    (picked : List Bytes) × Picks (file_a ∷ file_b ∷ []) picked
    × (r.1 ≡ length picked + 0)
    × All (IsGone platform files r.0.cache) picked
walk_files-IsGone_example = walk_files-IsGone platform files (file_a ∷ file_b ∷ []) none full_disk 0

handler-reply_example :
    ((handler platform files 8 false false true false key_call world).1 ≡ response)
    ⊎ (((handler platform files 8 false false true false key_call world).1 ≡ internal_error)
        × ((handler_rc platform files 8 false false false key_call world).1 ≡ error))
handler-reply_example =
    handler-reply platform files 8 false false true false key_call world
      (record { purge_path = path_unset; reason = unset; purged = no_counts }) key_call-NamedZone
      world-IsSound refl
