-- ===== src/Tests/Zones.antt =====
-- The zone, the trees and the states on the concrete platform.
use ngx_cache_pilot.Base.{
  ℕ, ◌≤◌, Bytes, true, false, ◌≡◌, refl, some, [], ◌∷◌, ◌++◌, codes, arith, if◌then◌else◌, length,
  inl, inr,
}
use ngx_cache_pilot.Tree.{Tree, sentinel, branch, to_list, insert_generic, lookup_generic}
use ngx_cache_pilot.Tree.Order.{Sorted}
use ngx_cache_pilot.Tree.Lookup.{insert_generic-Sorted, lookup_generic_complete}
use ngx_cache_pilot.Index.{lookup_entry}
use ngx_cache_pilot.Index.Queues.{Found, lookup_entry-Found}
use ngx_cache_pilot.Zone.{Zone, Pool, file_of, lookup_file}
use ngx_cache_pilot.Zone.Links.{has_file, without, linked, key_links}
use ngx_cache_pilot.Zone.Invariant.{IsZone}
use ngx_cache_pilot.Upsert.{upsert_locked, delete_locked}
use ngx_cache_pilot.Upsert.Outcome.{stored, lookup_file_zone, upsert_locked_lem, delete_locked_lem}
use ngx_cache_pilot.Store.{
  ZoneState, set_zone_state, collect_paths_by_tags, collect_paths_by_exact_key,
  collect_paths_by_key_prefix, get_zone_state, normalize_zone_state,
}
use ngx_cache_pilot.Store.Zones.{IsStore, empty_zone-IsZone}
use ngx_cache_pilot.Store.{empty_zone}
use ngx_cache_pilot.Store.Catalogue.{catalogue}
use ngx_cache_pilot.Store.Queries.{collect_paths_total, files_of}
use ngx_cache_pilot.Collect.Total.{Succeeds, tag_hits}
use ngx_cache_pilot.Store.Runs.{set_zone_state-catalogue}
use ngx_cache_pilot.Tests.Platform.{platform}
use ngx_cache_pilot.Tests.Stores.{
  zone_name, first_meta, two_files, two_files-IsStore, zone_name-NulFree,
}

abbrev pool : Pool platform
pool = record { slab = 9; alloc_failures = 0 }

-- The zone with one file.
abbrev one_zone : Zone
one_zone = (upsert_locked platform 5 pool (empty_zone zone_name) first_meta).1

one_zone-IsZone : IsZone platform one_zone
one_zone-IsZone =
    (upsert_locked_lem platform 5 pool (empty_zone zone_name) first_meta
      (empty_zone-IsZone platform zone_name)).0

upsert_locked_lem_example :
    let r = upsert_locked platform 6 pool one_zone first_meta in
    IsZone platform r.1
    × (r.1.files ≡ (
        if r.2
        then without first_meta.path one_zone.files ++ stored platform first_meta ∷ []
        else without first_meta.path one_zone.files))
    × (has_file first_meta.path (without first_meta.path one_zone.files) ≡ false)
upsert_locked_lem_example = upsert_locked_lem platform 6 pool one_zone first_meta one_zone-IsZone

delete_locked_lem_example :
    let z = (delete_locked platform 7 pool one_zone first_meta.path).1 in
    IsZone platform z
    × (z.files ≡ without first_meta.path one_zone.files)
    × (has_file first_meta.path z.files ≡ false)
    × (has_file first_meta.path one_zone.files ≡ true → z.last_updated_at ≡ 7)
    × (has_file first_meta.path one_zone.files ≡ false
        → z.last_updated_at ≡ one_zone.last_updated_at)
delete_locked_lem_example =
    delete_locked_lem platform 7 pool one_zone first_meta.path one_zone-IsZone

lookup_file_zone_example :
    lookup_file platform one_zone first_meta.path ≡ file_of first_meta.path one_zone.files
lookup_file_zone_example = lookup_file_zone platform one_zone first_meta.path one_zone-IsZone

lookup_entry-Found_example :
    Found platform one_zone.tag_index
      (codes "t")
      (lookup_entry platform one_zone.tag_index (codes "t"))
lookup_entry-Found_example =
    lookup_entry-Found platform one_zone.tag_index (codes "t") one_zone-IsZone.tags

abbrev two_nodes : Tree (ℕ × Bytes)
two_nodes = branch sentinel (3, codes "a") (branch sentinel (3, codes "b") sentinel)

two_nodes-Sorted : Sorted (λ n. n.0) (λ n. n.1) platform.memn2cmp (to_list two_nodes)
two_nodes-Sorted = ((inr (refl, refl), tt), (tt, tt))

insert_generic-Sorted_example :
    Sorted
      (λ n. n.0)
      (λ n. n.1)
      platform.memn2cmp
      (to_list (insert_generic (λ n. n.0) (λ n. n.1) platform.memn2cmp two_nodes (2, codes "z")))
insert_generic-Sorted_example =
    insert_generic-Sorted (λ n. n.0) (λ n. n.1) platform.memn2cmp platform.memn2cmp_total two_nodes
      (2, codes "z") two_nodes-Sorted (inr (inl (omega arith)), (inr (inl (omega arith)), tt))

lookup_generic_complete_example :
    lookup_generic (λ n. n.0) (λ n. n.1) platform.memn2cmp 3 (codes "b") two_nodes
    ≡ some (3, codes "b")
lookup_generic_complete_example =
    lookup_generic_complete (λ n. n.0) (λ n. n.1) platform.memn2cmp platform.memn2cmp_total
      two_nodes (3, codes "b") two_nodes-Sorted (inr (inl refl))

abbrev state : ZoneState
state = record { bootstrap_complete = true; last_bootstrap_at = 0; last_updated_at = 4 }

abbrev normal_state : ZoneState
normal_state = record { bootstrap_complete = true; last_bootstrap_at = 3; last_updated_at = 4 }

set_zone_state-catalogue_example :
    let r = set_zone_state platform 9 two_files zone_name state in
    IsStore platform r.0
    × ((q : Bytes) → catalogue platform r.0 q ≡ catalogue platform two_files q)
    × (r.1 ≡ true → get_zone_state platform 10 r.0 zone_name ≡ normalize_zone_state 9 state)
set_zone_state-catalogue_example =
    set_zone_state-catalogue platform 9 10 two_files zone_name state two_files-IsStore
      zone_name-NulFree (λ e. omega (arith, e))

collect_paths_total_example :
    (tag_hits (codes "u" ∷ []) (files_of platform two_files two_files-IsStore zone_name) ≤ 9
      → Succeeds (collect_paths_by_tags platform true 9 two_files zone_name (codes "u" ∷ [])))
    × (length
            (linked key_links (codes "k") (files_of platform two_files two_files-IsStore zone_name))
          ≤ 9
        → Succeeds (collect_paths_by_exact_key platform true 9 two_files zone_name (codes "k")))
    × (length (files_of platform two_files two_files-IsStore zone_name) ≤ 9
        → Succeeds (collect_paths_by_key_prefix platform true 9 two_files zone_name (codes "k")))
collect_paths_total_example =
    collect_paths_total platform two_files two_files-IsStore zone_name 9 (codes "u" ∷ [])
      (codes "k") (codes "k")
