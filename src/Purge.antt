-- ===== src/Purge.antt =====
-- The purge by cache tags (`ngx_http_cache_index_purge` in src/ngx_cache_pilot_index.c), on Linux.
-- `ngx_http_cache_index_flush_pending` only returns `NGX_OK` and is left out, as are log lines;
-- what is noted of the outcome is `note_tag_purge` of Request.
pub mod Cleared
use ngx_cache_pilot.Base.{
  ℕ, suc, zero, Bytes, Bool, true, false, not, ◌==◌, Option, none, some, List, [], ◌∷◌,
  if◌then◌else◌,
}
use ngx_cache_pilot.Nginx.{Nginx, Rc, ok, declined, error}
use ngx_cache_pilot.Os.{Os}
use ngx_cache_pilot.FileCache.{Disk, by_path}
use ngx_cache_pilot.Store.{Store, collect_paths_by_tags, delete_file, get_zone_state}

-- `ngx_http_cache_pilot_decline_reason_e`.
pub data DeclineReason : Type 0 where
  unset index_not_configured unsupported_platform flush_pending_failed zone_not_registered :
      DeclineReason
  reader_unavailable index_not_ready not_found : DeclineReason

-- How the purge ends; on success with the number of files purged.
pub data Outcome : Type 0 where
  purged : ℕ → Outcome
  declined_for : DeclineReason → Outcome
  failed : Outcome

-- The result after the loop.
unfoldable pub finish : {Cache S : Type 0} → Cache × S × Option ℕ → Cache × S × Outcome
finish (cache, store, none) = (cache, store, failed)
finish (cache, store, some zero) = (cache, store, declined_for not_found)
finish (cache, store, some (suc n)) = (cache, store, purged (suc n))

-- `soft` is the mode of the request.
module _ (ngx : Nginx) (os : Os) (now : ℕ) (soft : Bool) where
  -- The loop over the collected paths; `none` is the early `NGX_ERROR`.
  unfoldable pub purge_paths :
      Disk ngx os → Store ngx → Bytes → ℕ → List Bytes → Disk ngx os × Store ngx × Option ℕ
  purge_paths disk store name count [] = (disk, store, some count)
  purge_paths disk store name count (path ∷ paths) =
      let (disk', rc) = by_path ngx os soft disk path in
      elim rc [
        | ok ↦
            purge_paths disk' (if soft then store else delete_file ngx now store name path) name
              (suc count) paths
        | declined ↦ purge_paths disk' (delete_file ngx now store name path) name count paths
        | error ↦ (disk', store, none)
      ]

  -- `zone` is the name under which the disk is registered, `reader` whether the store can be opened,
  -- `created` and `room` what the request's memory pool grants.
  unfoldable pub purge :
      (configured : Bool) (zone : Option Bytes) (reader : Bool) (created : Bool) (room : ℕ)
      → Disk ngx os
      → Store ngx
      → List Bytes
      → Disk ngx os × Store ngx × Outcome
  purge configured zone reader created room disk store tags =
      if not configured then (disk, store, declined_for index_not_configured) else elim zone [
        | none ↦ (disk, store, declined_for zone_not_registered)
        | some name ↦
            if not reader
            then (disk, store, declined_for reader_unavailable)
            else if not (get_zone_state ngx now store name).bootstrap_complete
            then (disk, store, declined_for index_not_ready)
            else elim (collect_paths_by_tags ngx created room store name tags) [
              | none ↦ (disk, store, failed)
              | some (_, paths) ↦ finish (purge_paths disk store name 0 paths)
            ]
      ]
