-- ===== src/Tests/Purges.antt =====
-- A purge by tags, a scan of a header value and an escaped text on the concrete platform.
use ngx_cache_pilot.Base.{
  ℕ, Bytes, List, sym, ◌∙◌, same_string, strncmp_eq, ◌++◌, ◌≤◌, ◌≢◌, true, false, ◌≡◌, refl, some,
  [], ◌∷◌, codes, arith, if◌then◌else◌, length,
}
use ngx_cache_pilot.Tree.{lookup_generic, insert_generic}
use ngx_cache_pilot.Index.{lookup_entry, insert_entry, push_file, unlink_file, free_empty_entry}
use ngx_cache_pilot.Zone.{
  alloc_locked, lookup_path, insert_path, lookup_file, get_key_entry_locked, get_tag_entry_locked,
  unlink_key, unlink_members, free_empty_key_entry_locked, free_empty_tag_entry_locked,
  remove_file_locked, link_exact_key_locked, link_tags_locked, touch_zone_locked,
}
use ngx_cache_pilot.Collect.{collect_tags, push_queue, push_path_unique, is_listed}
use ngx_cache_pilot.Upsert.{
  upsert_locked, delete_locked, remove_path_locked, store_file, insert_file, link_file,
  link_file_tags, roll_back,
}
use ngx_cache_pilot.Store.{
  set_zone_state, get_zone_state, normalize_zone_state, fill_bootstrap_at, lookup_zone, write_zone,
  get_zone_locked, upsert_file_meta, delete_file, collect_paths_by_tags,
}
use ngx_cache_pilot.FileCache.{
  by_path, delete_cache_file, lookup_existing, lookup_node, filename_key, base_name, until_slash,
  hex_bytes, mark_node_deleted, soft_path, soft_header, write_header, expire_node,
}
use ngx_cache_pilot.Collect.Answers.{shares}
use ngx_cache_pilot.Store.Catalogue.{catalogue}
use ngx_cache_pilot.Store.Queries.{some_meta, Answers}
use ngx_cache_pilot.Purge.{purged, failed, purge, purge_paths, finish}
use ngx_cache_pilot.Purge.Cleared.{purge-cleared, outcome_of, answers, purge-outcome_of}
use ngx_cache_pilot.Token.{
  extract_tokens, skip_separators, token_of, after_token, push_unique, is_known,
}
use ngx_cache_pilot.Token.Words.{words_from, push_words, extract_tokens-words, extract_tokens_bound}
use ngx_cache_pilot.Json.{json_escaped_len, json_escape}
use ngx_cache_pilot.Json.Escapes.{json_escaped_len_lem}
use ngx_cache_pilot.Tests.Platform.{platform}
use ngx_cache_pilot.Tests.Disks.{files, full_disk, half_disk}
use ngx_cache_pilot.Tests.Stores.{
  zone_name, zone_name-NulFree, ready_store, ready_store_reached, ready_store-IsStore, is_ready,
  few_hits,
}

-- A soft purge of a file that is there and one that is gone, and a hard purge.
purge_soft :
    (purge platform files 8 true true
      (some zone_name)
      true
      true
      10
      half_disk
      ready_store
      (codes "u" ∷ [])).2
    ≡ purged 1
unfolding collect_paths_by_tags lookup_zone same_string strncmp_eq collect_tags lookup_entry
    lookup_generic push_queue push_path_unique is_listed upsert_file_meta delete_file
    get_zone_locked alloc_locked upsert_locked delete_locked remove_path_locked lookup_file
    lookup_path store_file insert_file insert_path insert_generic link_file link_file_tags
    link_exact_key_locked get_key_entry_locked insert_entry push_file link_tags_locked
    get_tag_entry_locked touch_zone_locked write_zone roll_back remove_file_locked unlink_key
    unlink_members unlink_file free_empty_entry free_empty_key_entry_locked
    free_empty_tag_entry_locked set_zone_state get_zone_state normalize_zone_state fill_bootstrap_at
    by_path delete_cache_file lookup_existing lookup_node filename_key base_name until_slash
    hex_bytes mark_node_deleted soft_path soft_header write_header expire_node purge purge_paths
    finish
purge_soft = refl

purge_hard :
    (purge platform files 8 false true
      (some zone_name)
      true
      true
      10
      full_disk
      ready_store
      (codes "u" ∷ [])).2
    ≡ purged 2
unfolding collect_paths_by_tags lookup_zone same_string strncmp_eq collect_tags lookup_entry
    lookup_generic push_queue push_path_unique is_listed upsert_file_meta delete_file
    get_zone_locked alloc_locked upsert_locked delete_locked remove_path_locked lookup_file
    lookup_path store_file insert_file insert_path insert_generic link_file link_file_tags
    link_exact_key_locked get_key_entry_locked insert_entry push_file link_tags_locked
    get_tag_entry_locked touch_zone_locked write_zone roll_back remove_file_locked unlink_key
    unlink_members unlink_file free_empty_entry free_empty_key_entry_locked
    free_empty_tag_entry_locked set_zone_state get_zone_state normalize_zone_state fill_bootstrap_at
    by_path delete_cache_file lookup_existing lookup_node filename_key base_name until_slash
    hex_bytes mark_node_deleted soft_path soft_header write_header expire_node purge purge_paths
    finish
purge_hard = refl

purged-ne-failed : (n : ℕ) → purged n ≢ failed
purged-ne-failed n e = cc

purge_succeeds :
    (purge platform files 8 false true
      (some zone_name)
      true
      true
      10
      full_disk
      ready_store
      (codes "u" ∷ [])).2
    ≢ failed
purge_succeeds e = purged-ne-failed 2 (sym purge_hard ∙ e)

purge-outcome_of_example :
    (paths : List Bytes) × Answers
      (λ m. shares (codes "u" ∷ []) m.tags)
      (catalogue platform ready_store zone_name)
      paths
    × ((purge platform files 8 true true
          (some zone_name)
          true
          true
          10
          half_disk
          ready_store
          (codes "u" ∷ [])).2
        ≡ outcome_of (answers platform files true half_disk paths))
purge-outcome_of_example =
    purge-outcome_of platform files 8 true 10 half_disk ready_store zone_name (codes "u" ∷ [])
      ready_store-IsStore is_ready few_hits

purge-cleared_example :
    some_meta
      (λ m. true)
      (codes "/a")
      (catalogue platform
        (purge platform files 8 false true
          (some zone_name)
          true
          true
          10
          full_disk
          ready_store
          (codes "u" ∷ [])).1
        zone_name)
    ≡ (if some_meta
          (λ m. shares (codes "u" ∷ []) m.tags)
          (codes "/a")
          (catalogue platform ready_store zone_name)
        then false
        else some_meta (λ m. true) (codes "/a") (catalogue platform ready_store zone_name))
purge-cleared_example =
    purge-cleared platform files 8 10 full_disk ready_store zone_name (codes "u" ∷ [])
      ready_store_reached zone_name-NulFree is_ready purge_succeeds (λ m. true) (codes "/a")

extract_tokens-words_example :
    extract_tokens platform 6 5 [] (codes "a, b,A")
    ≡ push_words platform 5 [] (words_from [] (codes "a, b,A"))
extract_tokens-words_example = extract_tokens-words platform 6 5 [] (codes "a, b,A") (omega arith)

scan : extract_tokens platform 6 5 [] (codes "a, b,A") ≡ some (3, codes "a" ∷ codes "b" ∷ [])
unfolding extract_tokens skip_separators token_of after_token push_unique is_known
scan = refl

extract_tokens_bound_example : length (codes "a" ∷ codes "b" ∷ []) ≤ 1000
extract_tokens_bound_example =
    extract_tokens_bound platform 6 5 [] (codes "a, b,A") 3 (codes "a" ∷ codes "b" ∷ [])
      (omega arith) (omega arith) scan

json_escaped_len_lem_example :
    json_escaped_len (codes "a" ++ 34 ∷ 7 ∷ []) ≡ length (json_escape (codes "a" ++ 34 ∷ 7 ∷ []))
json_escaped_len_lem_example = json_escaped_len_lem (codes "a" ++ 34 ∷ 7 ∷ [])
