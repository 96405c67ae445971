-- ===== src/Tests/Filters.antt =====
-- A cached response on the concrete platform.
use ngx_cache_pilot.Base.{
  true, false, ◌&&◌, ◌≡◌, inr, refl, none, some, [], ◌∷◌, codes, NulFree, same_string, strncmp_eq,
}
use ngx_cache_pilot.Tree.{lookup_generic, insert_generic}
use ngx_cache_pilot.Index.{lookup_entry, insert_entry, push_file, unlink_file, free_empty_entry}
use ngx_cache_pilot.Zone.{
  alloc_locked, lookup_path, insert_path, lookup_file, get_key_entry_locked, get_tag_entry_locked,
  unlink_key, unlink_members, free_empty_key_entry_locked, free_empty_tag_entry_locked,
  remove_file_locked, link_exact_key_locked, link_tags_locked, touch_zone_locked,
}
use ngx_cache_pilot.Collect.{
  collect_tags, collect_key, collect_prefix, push_queue, push_path_unique, is_listed,
}
use ngx_cache_pilot.Upsert.{
  upsert_locked, delete_locked, remove_path_locked, store_file, insert_file, link_file,
  link_file_tags, roll_back,
}
use ngx_cache_pilot.Store.{
  lookup_zone, write_zone, get_zone_locked, upsert_file_meta, delete_file, collect_paths_by_tags,
  collect_paths_by_exact_key, collect_paths_by_key_prefix,
}
use ngx_cache_pilot.Collect.Answers.{shares}
use ngx_cache_pilot.Zone.Links.{has_path}
use ngx_cache_pilot.Zone.Links.{has_path}
use ngx_cache_pilot.Collect.Answers.{shares}
use ngx_cache_pilot.Token.{
  extract_tokens, skip_separators, token_of, after_token, push_unique, is_known,
}
use ngx_cache_pilot.TagHeaders.{location_enabled, header_tags, headers_tags, response_headers}
use ngx_cache_pilot.Filter.{Exchange, tags_of, recovered, log_handler}
use ngx_cache_pilot.Filter.Committed.{Indexes, meta_of_exchange, response-collect_tags}
use ngx_cache_pilot.Tests.Platform.{platform}
use ngx_cache_pilot.Tests.Stores.{
  no_nul-NulFree, zone_name, zone_name-NulFree, two_files, two_files_reached,
}

abbrev exchange : Exchange
exchange = record {
  cached = true;
  upstream = true;
  cacheable = true;
  hit = false;
  file_name = codes "/n";
  keys = codes "n" ∷ [];
  headers_out = (codes "Host", codes "h") ∷ (codes "tag", codes "u, v") ∷ [];
  cache_index = true;
  tag_headers = some (codes "Tag" ∷ []);
  zone = some zone_name;
  writer = true;
  created = true;
  room = 5;
  text = true;
  context = true;
}

exchange-Indexes : Indexes platform exchange zone_name (codes "u" ∷ codes "v" ∷ [])
unfolding collect_paths_by_tags collect_paths_by_exact_key collect_paths_by_key_prefix lookup_zone
    same_string strncmp_eq collect_tags collect_key collect_prefix lookup_entry lookup_generic
    push_queue push_path_unique is_listed upsert_file_meta delete_file get_zone_locked alloc_locked
    upsert_locked delete_locked remove_path_locked lookup_file lookup_path store_file insert_file
    insert_path insert_generic link_file link_file_tags link_exact_key_locked get_key_entry_locked
    insert_entry push_file link_tags_locked get_tag_entry_locked touch_zone_locked write_zone
    roll_back remove_file_locked unlink_key unlink_members unlink_file free_empty_entry
    free_empty_key_entry_locked free_empty_tag_entry_locked log_handler recovered tags_of
    response_headers headers_tags header_tags location_enabled extract_tokens skip_separators
    token_of after_token push_unique is_known
exchange-Indexes = record {
  stored = refl;
  cached = refl;
  named = refl;
  enabled = refl;
  registered = refl;
  writer = refl;
  text = refl;
  parsed = refl;
  context = refl;
}

collect_v :
    collect_paths_by_tags platform true 10
      (log_handler platform 9 exchange none two_files)
      zone_name
      (codes "v" ∷ [])
    ≡ some (9, codes "/n" ∷ [])
unfolding collect_paths_by_tags collect_paths_by_exact_key collect_paths_by_key_prefix lookup_zone
    same_string strncmp_eq collect_tags collect_key collect_prefix lookup_entry lookup_generic
    push_queue push_path_unique is_listed upsert_file_meta delete_file get_zone_locked alloc_locked
    upsert_locked delete_locked remove_path_locked lookup_file lookup_path store_file insert_file
    insert_path insert_generic link_file link_file_tags link_exact_key_locked get_key_entry_locked
    insert_entry push_file link_tags_locked get_tag_entry_locked touch_zone_locked write_zone
    roll_back remove_file_locked unlink_key unlink_members unlink_file free_empty_entry
    free_empty_key_entry_locked free_empty_tag_entry_locked log_handler recovered tags_of
    response_headers headers_tags header_tags location_enabled extract_tokens skip_separators
    token_of after_token push_unique is_known
collect_v = refl

name-NulFree : NulFree (codes "/n")
name-NulFree = no_nul-NulFree (codes "/n") refl

response-collect_tags_example : has_path (codes "/n") (codes "/n" ∷ []) ≡ (
    (upsert_file_meta platform 9 two_files zone_name
      (meta_of_exchange 9 exchange (codes "u" ∷ codes "v" ∷ []))).1
    && shares (codes "v" ∷ []) (codes "u" ∷ codes "v" ∷ []))
response-collect_tags_example =
    response-collect_tags platform 9 exchange zone_name (codes "u" ∷ codes "v" ∷ []) none none
      two_files 10 9 (codes "v" ∷ []) (codes "/n" ∷ []) exchange-Indexes two_files_reached
      zone_name-NulFree name-NulFree (inr (refl, refl)) collect_v
