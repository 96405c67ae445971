-- ===== src/Tests/Bootstraps.antt =====
-- The indexing of a file and the bootstrap of a zone on the concrete platform.
use ngx_cache_pilot.Base.{
  ℕ, Bytes, true, false, ◌≡◌, ◌≢◌, refl, Option, some, some-inj, List, [], ◌∷◌, ◌++◌, codes,
  NulFree, All, In, arith,
}
use ngx_cache_pilot.Tree.{sentinel}
use ngx_cache_pilot.Registry.{IndexZone, find_cache}
use ngx_cache_pilot.Registry.Caches.{OncePerCache}
use ngx_cache_pilot.Runtime.Zones.{lookup_index_zone-init_zones}
use ngx_cache_pilot.Indexing.{Grants, process_file}
use ngx_cache_pilot.Indexing.Entries.{Indexed, process_file-Indexed}
use ngx_cache_pilot.Runtime.{
  lookup_index_zone, init_zones, listing, file_entry, no_entries, CacheDir, Runtime, all_booted,
  deferred, bootstrap_zone, try_bootstrap_zones,
}
use ngx_cache_pilot.Runtime.Scan.{files_below, files_among}
use ngx_cache_pilot.Runtime.Bootstrap.{
  Onward, Booted, CleanZone, Waits, Served, bootstrap_zone-Booted, try_bootstrap_zones-Tried,
}
use ngx_cache_pilot.Runtime.Start.{init_runtime}
use ngx_cache_pilot.Runtime.Started.{Started, init_runtime-Started}
use ngx_cache_pilot.Tests.Platform.{platform}
use ngx_cache_pilot.Tests.Disks.{files, file_a}
use ngx_cache_pilot.Tests.Stores.{
  no_nul-NulFree, zone_name, zone_name-NulFree, two_files, two_files_reached, ready_store,
  ready_store_reached,
}

abbrev cache_file : Bytes
cache_file = codes "X" ++ 10 ∷ codes "KEY: kk" ++ 10 ∷ codes "Tag: u" ++ 10 ∷ []

abbrev disk : List (Bytes × Bytes)
disk = (file_a, cache_file) ∷ []

abbrev grants : Grants
grants = record { pool = true; buffer = true; key = true; tags = 5 }

abbrev zone : IndexZone
zone = record {
  cache = 1;
  zone_name = zone_name;
  headers = some (record { address = 5; names = codes "Tag" ∷ [] });
}

abbrev cache_dir : CacheDir
cache_dir = record {
  path = codes "/c";
  dir = listing (file_entry (codes "00000000000000010000000000000002") no_entries);
  cold = false;
}

file_a-NulFree : NulFree file_a
file_a-NulFree = no_nul-NulFree file_a refl

files-NulFree : All NulFree (files_below cache_dir.path cache_dir.dir)
unfolding files_below files_among
files-NulFree = (file_a-NulFree, tt)

process_file-Indexed_example :
    Indexed platform files 8 grants zone.headers disk zone_name file_a two_files
      (process_file platform files 8 grants zone.headers disk two_files zone_name file_a)
process_file-Indexed_example =
    process_file-Indexed platform files 8 grants zone.headers disk zone_name file_a two_files
      two_files_reached zone_name-NulFree file_a-NulFree

clock : ◌≢◌ {A = ℕ} 8 0
clock e = omega (arith, e)

bootstrap_zone-Booted_example :
    let r =
      bootstrap_zone platform files 8
        (λ p. true)
        (λ p. grants)
        disk
        zone
        (some cache_dir)
        two_files in
    Onward platform files 8 (λ p. true) (λ p. grants) disk two_files r.0
    × (r.1 ≡ true
        → Booted platform files 8 (λ p. true) (λ p. grants) disk zone cache_dir two_files r.0)
bootstrap_zone-Booted_example =
    bootstrap_zone-Booted platform files 8 (λ p. true) (λ p. grants) disk clock zone cache_dir
      two_files two_files_reached zone_name-NulFree files-NulFree

abbrev dirs : ℕ → Option CacheDir
dirs c = some cache_dir

abbrev runtime : Runtime platform
runtime = record { index = sentinel; store = two_files }

zone-CleanZone : CleanZone platform files 8 (λ p. true) (λ p. grants) disk clock false dirs zone
zone-CleanZone = record {
  named = zone_name-NulFree;
  files = λ c e. rw (← some-inj e) files-NulFree;
}

try_bootstrap_zones-Tried_example :
    let r =
      try_bootstrap_zones platform files 8
        (λ p. true)
        (λ p. grants)
        disk
        true
        false
        dirs
        (zone ∷ [])
        runtime in
    Onward platform files 8 (λ p. true) (λ p. grants) disk two_files r.0.store
    × (r.1 ≡ all_booted
        → All
            (Served platform files 8 (λ p. true) (λ p. grants) disk clock false dirs r.0.store)
            (zone ∷ []))
    × (r.1 ≡ deferred
        → (z : IndexZone) × In z (zone ∷ [])
          × Waits platform files 8 (λ p. true) (λ p. grants) disk clock false dirs z)
try_bootstrap_zones-Tried_example =
    try_bootstrap_zones-Tried platform files 8 (λ p. true) (λ p. grants) disk clock false dirs
      (zone ∷ []) runtime two_files_reached (zone-CleanZone, tt)

two_zones-OncePerCache :
    OncePerCache platform (zone ∷ record zone { cache = 2; zone_name = codes "y" } ∷ [])
unfolding find_cache
two_zones-OncePerCache = (refl, (refl, tt))

lookup_index_zone-init_zones_example :
    lookup_index_zone 2
      (init_zones platform (zone ∷ record zone { cache = 2; zone_name = codes "y" } ∷ []) sentinel)
    ≡ find_cache platform 2 (zone ∷ record zone { cache = 2; zone_name = codes "y" } ∷ [])
lookup_index_zone-init_zones_example =
    lookup_index_zone-init_zones platform
      (zone ∷ record zone { cache = 2; zone_name = codes "y" } ∷ []) 2 two_zones-OncePerCache

-- Two zones, of which the first is bootstrapped.
abbrev two_zones : List IndexZone
two_zones = zone ∷ record zone { cache = 2; zone_name = codes "y" } ∷ []

two_zones-CleanZone :
    All (CleanZone platform files 8 (λ p. true) (λ p. grants) disk clock false dirs) two_zones
two_zones-CleanZone = (
  zone-CleanZone,
  (
    record {
      named = no_nul-NulFree (codes "y") refl;
      files = λ c e. rw (← some-inj e) files-NulFree;
    },
    tt,
  ),
)

init_runtime-Started_example :
    Started platform files 8
      (λ p. true)
      (λ p. grants)
      disk
      clock
      false
      dirs
      true
      true
      two_zones
      ready_store
      (init_runtime platform files 8
        (λ p. true)
        (λ p. grants)
        disk
        true
        true
        false
        dirs
        two_zones
        ready_store)
init_runtime-Started_example =
    init_runtime-Started platform files 8 (λ p. true) (λ p. grants) disk clock false dirs true true
      two_zones ready_store ready_store_reached two_zones-CleanZone two_zones-OncePerCache
