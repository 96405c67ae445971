-- ===== src/Tests/Stores.antt =====
-- The store on the concrete platform.
use ngx_cache_pilot.Base.{
  ◌≤◌, Bytes, Bool, true, false, ◌≡◌, refl, some, [], ◌∷◌, codes, NulFree, arith, same_string,
  strncmp_eq, ◌==◌, ◌==ᵇ◌, ◌&&◌, begins, if◌then◌else◌,
}
use ngx_cache_pilot.Tree.{lookup_generic, insert_generic}
use ngx_cache_pilot.Index.{lookup_entry, insert_entry, push_file, unlink_file, free_empty_entry}
use ngx_cache_pilot.Zone.{
  alloc_locked, lookup_path, insert_path, lookup_file, get_key_entry_locked, get_tag_entry_locked,
  unlink_key, unlink_members, free_empty_key_entry_locked, free_empty_tag_entry_locked,
  remove_file_locked, link_exact_key_locked, link_tags_locked, touch_zone_locked,
}
use ngx_cache_pilot.Collect.{
  collect_tags, collect_key, collect_prefix, push_queue, push_path_unique, is_listed,
}
use ngx_cache_pilot.Upsert.{
  Meta, upsert_locked, delete_locked, remove_path_locked, store_file, insert_file, link_file,
  link_file_tags, roll_back,
}
use ngx_cache_pilot.Store.{
  Store, lookup_zone, write_zone, get_zone_locked, upsert_file_meta, delete_file,
  collect_paths_by_tags, collect_paths_by_exact_key, collect_paths_by_key_prefix,
}
use ngx_cache_pilot.Store.RoundTrips.{upsert-collect_tags, upsert-collect_key, delete-collect_tags}
use ngx_cache_pilot.Store.Zones.{IsStore}
use ngx_cache_pilot.Store.Catalogue.{
  catalogue, put, without_path, upsert_file_meta-catalogue, delete_file-catalogue,
}
use ngx_cache_pilot.Store.Queries.{
  Answers, has_key, collect_paths_by_tags-Answers, collect_paths_by_exact_key-Answers,
  collect_paths_by_key_prefix-Answers,
}
use ngx_cache_pilot.Collect.Answers.{shares}
use ngx_cache_pilot.Zone.Links.{has_path}
use ngx_cache_pilot.Store.Runs.{
  Reachable, start, next, upserted, state_set, Reachable-IsStore, OnePerPath,
}
use ngx_cache_pilot.Store.Queries.{files_of}
use ngx_cache_pilot.Collect.Total.{tag_hits}
use ngx_cache_pilot.Store.{
  ZoneState, set_zone_state, get_zone_state, normalize_zone_state, fill_bootstrap_at,
}
use ngx_cache_pilot.Tests.Platform.{platform}

abbrev pub empty_store : Store platform
empty_store = record { pool = record { slab = 20; alloc_failures = 0 }; zones = [] }

abbrev pub zone_name : Bytes
zone_name = codes "z"

abbrev pub first_meta : Meta
first_meta = record {
  path = codes "/a";
  key = codes "k";
  mtime = 1;
  size = 2;
  tags = codes "t" ∷ codes "u" ∷ [];
}

abbrev pub second_meta : Meta
second_meta = record {
  path = codes "/b";
  key = codes "kk";
  mtime = 3;
  size = 4;
  tags = codes "u" ∷ [];
}

abbrev pub one_file : Store platform
one_file = (upsert_file_meta platform 5 empty_store zone_name first_meta).0

abbrev pub two_files : Store platform
two_files = (upsert_file_meta platform 6 one_file zone_name second_meta).0

abbrev pub no_nul : Bytes → Bool
no_nul [] = true
no_nul (c ∷ cs) = if c == 0 then false else no_nul cs

pub no_nul-NulFree : (b : Bytes) → no_nul b ≡ true → NulFree b
no_nul-NulFree [] h = tt
no_nul-NulFree (c ∷ cs) h = (ground (arith, h), no_nul-NulFree cs (ground (arith, h)))

pub zone_name-NulFree : NulFree zone_name
zone_name-NulFree = no_nul-NulFree zone_name refl

pub first_path-NulFree : NulFree first_meta.path
first_path-NulFree = no_nul-NulFree (codes "/a") refl

pub second_path-NulFree : NulFree second_meta.path
second_path-NulFree = no_nul-NulFree (codes "/b") refl

pub one_file_reached : Reachable platform one_file
one_file_reached =
    next empty_store _ (start (record { slab = 20; alloc_failures = 0 }))
      (upserted 5 zone_name first_meta zone_name-NulFree first_path-NulFree)

pub two_files_reached : Reachable platform two_files
two_files_reached =
    next one_file _ one_file_reached
      (upserted 6 zone_name second_meta zone_name-NulFree second_path-NulFree)

pub one_file-IsStore : IsStore platform one_file
one_file-IsStore = (Reachable-IsStore platform one_file one_file_reached).0

pub two_files-IsStore : IsStore platform two_files
two_files-IsStore = (Reachable-IsStore platform two_files two_files_reached).0

abbrev pub booted : ZoneState
booted = record { bootstrap_complete = true; last_bootstrap_at = 7; last_updated_at = 7 }

abbrev pub ready_store : Store platform
ready_store = (set_zone_state platform 7 two_files zone_name booted).0

pub ready_store_reached : Reachable platform ready_store
ready_store_reached =
    next two_files _ two_files_reached
      (state_set 7 zone_name booted zone_name-NulFree (λ e. omega (arith, e)))

pub ready_store-IsStore : IsStore platform ready_store
ready_store-IsStore = (Reachable-IsStore platform ready_store ready_store_reached).0

pub is_ready : (get_zone_state platform 8 ready_store zone_name).bootstrap_complete ≡ true
unfolding collect_paths_by_tags collect_paths_by_exact_key collect_paths_by_key_prefix lookup_zone
    same_string strncmp_eq collect_tags collect_key collect_prefix lookup_entry lookup_generic
    push_queue push_path_unique is_listed upsert_file_meta delete_file get_zone_locked alloc_locked
    upsert_locked delete_locked remove_path_locked lookup_file lookup_path store_file insert_file
    insert_path insert_generic link_file link_file_tags link_exact_key_locked get_key_entry_locked
    insert_entry push_file link_tags_locked get_tag_entry_locked touch_zone_locked write_zone
    roll_back remove_file_locked unlink_key unlink_members unlink_file free_empty_entry
    free_empty_key_entry_locked free_empty_tag_entry_locked set_zone_state get_zone_state
    normalize_zone_state fill_bootstrap_at
is_ready = refl

pub few_hits :
    tag_hits (codes "u" ∷ []) (files_of platform ready_store ready_store-IsStore zone_name) ≤ 10
unfolding collect_paths_by_tags collect_paths_by_exact_key collect_paths_by_key_prefix lookup_zone
    same_string strncmp_eq collect_tags collect_key collect_prefix lookup_entry lookup_generic
    push_queue push_path_unique is_listed upsert_file_meta delete_file get_zone_locked alloc_locked
    upsert_locked delete_locked remove_path_locked lookup_file lookup_path store_file insert_file
    insert_path insert_generic link_file link_file_tags link_exact_key_locked get_key_entry_locked
    insert_entry push_file link_tags_locked get_tag_entry_locked touch_zone_locked write_zone
    roll_back remove_file_locked unlink_key unlink_members unlink_file free_empty_entry
    free_empty_key_entry_locked free_empty_tag_entry_locked set_zone_state get_zone_state
    normalize_zone_state fill_bootstrap_at
few_hits = omega arith

-- What the collections return.
collect_u :
    collect_paths_by_tags platform true 10 two_files zone_name (codes "u" ∷ [])
    ≡ some (8, codes "/a" ∷ codes "/b" ∷ [])
unfolding collect_paths_by_tags collect_paths_by_exact_key collect_paths_by_key_prefix lookup_zone
    same_string strncmp_eq collect_tags collect_key collect_prefix lookup_entry lookup_generic
    push_queue push_path_unique is_listed upsert_file_meta delete_file get_zone_locked alloc_locked
    upsert_locked delete_locked remove_path_locked lookup_file lookup_path store_file insert_file
    insert_path insert_generic link_file link_file_tags link_exact_key_locked get_key_entry_locked
    insert_entry push_file link_tags_locked get_tag_entry_locked touch_zone_locked write_zone
    roll_back remove_file_locked unlink_key unlink_members unlink_file free_empty_entry
    free_empty_key_entry_locked free_empty_tag_entry_locked
collect_u = refl

collect_kk :
    collect_paths_by_exact_key platform true 10 two_files zone_name (codes "kk")
    ≡ some (9, codes "/b" ∷ [])
unfolding collect_paths_by_tags collect_paths_by_exact_key collect_paths_by_key_prefix lookup_zone
    same_string strncmp_eq collect_tags collect_key collect_prefix lookup_entry lookup_generic
    push_queue push_path_unique is_listed upsert_file_meta delete_file get_zone_locked alloc_locked
    upsert_locked delete_locked remove_path_locked lookup_file lookup_path store_file insert_file
    insert_path insert_generic link_file link_file_tags link_exact_key_locked get_key_entry_locked
    insert_entry push_file link_tags_locked get_tag_entry_locked touch_zone_locked write_zone
    roll_back remove_file_locked unlink_key unlink_members unlink_file free_empty_entry
    free_empty_key_entry_locked free_empty_tag_entry_locked
collect_kk = refl

collect_k_prefix :
    collect_paths_by_key_prefix platform true 10 two_files zone_name (codes "k")
    ≡ some (8, codes "/a" ∷ codes "/b" ∷ [])
unfolding collect_paths_by_tags collect_paths_by_exact_key collect_paths_by_key_prefix lookup_zone
    same_string strncmp_eq collect_tags collect_key collect_prefix lookup_entry lookup_generic
    push_queue push_path_unique is_listed upsert_file_meta delete_file get_zone_locked alloc_locked
    upsert_locked delete_locked remove_path_locked lookup_file lookup_path store_file insert_file
    insert_path insert_generic link_file link_file_tags link_exact_key_locked get_key_entry_locked
    insert_entry push_file link_tags_locked get_tag_entry_locked touch_zone_locked write_zone
    roll_back remove_file_locked unlink_key unlink_members unlink_file free_empty_entry
    free_empty_key_entry_locked free_empty_tag_entry_locked
collect_k_prefix = refl

collect_after_delete :
    collect_paths_by_tags platform true 10
      (delete_file platform 7 two_files zone_name (codes "/a"))
      zone_name
      (codes "u" ∷ [])
    ≡ some (9, codes "/b" ∷ [])
unfolding collect_paths_by_tags collect_paths_by_exact_key collect_paths_by_key_prefix lookup_zone
    same_string strncmp_eq collect_tags collect_key collect_prefix lookup_entry lookup_generic
    push_queue push_path_unique is_listed upsert_file_meta delete_file get_zone_locked alloc_locked
    upsert_locked delete_locked remove_path_locked lookup_file lookup_path store_file insert_file
    insert_path insert_generic link_file link_file_tags link_exact_key_locked get_key_entry_locked
    insert_entry push_file link_tags_locked get_tag_entry_locked touch_zone_locked write_zone
    roll_back remove_file_locked unlink_key unlink_members unlink_file free_empty_entry
    free_empty_key_entry_locked free_empty_tag_entry_locked
collect_after_delete = refl

-- Examples of the theorems.
abbrev CataloguePut : Store platform → Meta → Store platform × Bool → Type 0
CataloguePut s m r =
    IsStore platform r.0
    × ((q : Bytes)
        → catalogue platform r.0 q ≡ (
            if zone_name ==ᵇ q then put m r.1 (catalogue platform s q) else catalogue platform s q))

upsert_file_meta-catalogue_example :
    CataloguePut one_file second_meta (upsert_file_meta platform 6 one_file zone_name second_meta)
upsert_file_meta-catalogue_example =
    upsert_file_meta-catalogue platform 6 one_file zone_name second_meta one_file-IsStore
      zone_name-NulFree second_path-NulFree

delete_file-catalogue_example :
    IsStore platform (delete_file platform 7 two_files zone_name (codes "/a"))
    × ((q : Bytes)
        → catalogue platform (delete_file platform 7 two_files zone_name (codes "/a")) q ≡ (
            if zone_name ==ᵇ q
            then without_path (codes "/a") (catalogue platform two_files q)
            else catalogue platform two_files q))
delete_file-catalogue_example =
    delete_file-catalogue platform 7 two_files zone_name (codes "/a") two_files-IsStore
      zone_name-NulFree

collect_paths_by_tags-Answers_example :
    Answers
      (λ m. shares (codes "u" ∷ []) m.tags)
      (catalogue platform two_files zone_name)
      (codes "/a" ∷ codes "/b" ∷ [])
collect_paths_by_tags-Answers_example =
    collect_paths_by_tags-Answers platform two_files two_files-IsStore zone_name true 10 8
      (codes "u" ∷ []) (codes "/a" ∷ codes "/b" ∷ []) collect_u

collect_paths_by_exact_key-Answers_example :
    Answers (has_key (codes "kk")) (catalogue platform two_files zone_name) (codes "/b" ∷ [])
collect_paths_by_exact_key-Answers_example =
    collect_paths_by_exact_key-Answers platform two_files two_files-IsStore zone_name true 10 9
      (codes "kk") (codes "/b" ∷ []) collect_kk

collect_paths_by_key_prefix-Answers_example :
    Answers
      (λ m. begins (codes "k") m.key)
      (catalogue platform two_files zone_name)
      (codes "/a" ∷ codes "/b" ∷ [])
collect_paths_by_key_prefix-Answers_example =
    collect_paths_by_key_prefix-Answers platform two_files two_files-IsStore zone_name true 10 8
      (codes "k") (codes "/a" ∷ codes "/b" ∷ []) (no_nul-NulFree (codes "k") refl) collect_k_prefix

Reachable-IsStore_example :
    IsStore platform two_files × ((q : Bytes) → OnePerPath (catalogue platform two_files q))
Reachable-IsStore_example = Reachable-IsStore platform two_files two_files_reached

upsert-collect_tags_example : has_path (codes "/b") (codes "/a" ∷ codes "/b" ∷ []) ≡ (
    (upsert_file_meta platform 6 one_file zone_name second_meta).1
    && shares (codes "u" ∷ []) second_meta.tags)
upsert-collect_tags_example =
    upsert-collect_tags platform one_file one_file_reached 6 zone_name zone_name-NulFree second_meta
      10 8 (codes "u" ∷ []) (codes "/a" ∷ codes "/b" ∷ []) second_path-NulFree collect_u

upsert-collect_key_example : has_path (codes "/b") (codes "/b" ∷ []) ≡ (
    (upsert_file_meta platform 6 one_file zone_name second_meta).1
    && has_key (codes "kk") second_meta)
upsert-collect_key_example =
    upsert-collect_key platform one_file one_file_reached 6 zone_name zone_name-NulFree second_meta
      10 9 (codes "kk") (codes "/b" ∷ []) second_path-NulFree collect_kk

delete-collect_tags_example : has_path (codes "/a") (codes "/b" ∷ []) ≡ false
delete-collect_tags_example =
    delete-collect_tags platform two_files two_files_reached 7 zone_name zone_name-NulFree
      (codes "/a") 10 9 (codes "u" ∷ []) (codes "/b" ∷ []) collect_after_delete
