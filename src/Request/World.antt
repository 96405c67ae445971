-- ===== src/Request/World.antt =====
-- The state that a handler changes: the cache with its files, the index, and the notes of the request;
-- and the purge of indexed paths (`by_indexed_path` in src/ngx_cache_pilot_module.c).
use ngx_cache_pilot.Base.{
  ℕ, suc, Bytes, Bool, true, false, ◌&&◌, not, ◌==◌, Option, none, some, List, [], ◌∷◌,
  if◌then◌else◌,
}
use ngx_cache_pilot.Nginx.{Nginx, Rc, ok, declined, error}
use ngx_cache_pilot.Os.{Os}
use ngx_cache_pilot.FileCache.{Disk, FileCache, lookup_node, write_node, by_path}
use ngx_cache_pilot.Store.{Store, delete_file}
use ngx_cache_pilot.Request.{Notes, Call}

module _ (ngx : Nginx) (os : Os) where
  pub record World : Type 0 where
    pub disk : Disk ngx os
    pub store : Store ngx
    pub notes : Notes

  -- The request gives up the lock of its cache entry, unless another one took it over meanwhile.
  unfoldable pub release_updating : Call → FileCache → FileCache
  release_updating call cache =
      if not call.updating then cache else elim (lookup_node ngx cache call.node) [
        | none ↦ cache
        | some node ↦
            if node.updating && node.lock_time == call.lock_time
            then write_node node (λ x. record x { updating = false }) cache
            else cache
      ]

  module _ (now : ℕ) where
    unfoldable pub by_indexed_path :
        Bool → Bytes → Disk ngx os → Store ngx → Bytes → Disk ngx os × Store ngx × Rc
    by_indexed_path soft name disk store path =
        let (disk', rc) = by_path ngx os soft disk path in
        elim rc [
          | ok ↦ (disk', (if soft then store else delete_file ngx now store name path), ok)
          | declined ↦
              (disk', (if soft then store else delete_file ngx now store name path), declined)
          | error ↦ (disk', store, error)
        ]

    -- The loop over the collected paths: whether a file was purged and how many; `none` is the early
    -- `NGX_ERROR`.
    unfoldable pub purge_indexed :
        Bool
        → Bytes
        → Disk ngx os
        → Store ngx
        → Bool
        → ℕ
        → List Bytes
        → Disk ngx os × Store ngx × Option (Bool × ℕ)
    purge_indexed soft name disk store used count [] = (disk, store, some (used, count))
    purge_indexed soft name disk store used count (path ∷ paths) =
        let (disk', store', rc) = by_indexed_path soft name disk store path in
        elim rc [
          | ok ↦ purge_indexed soft name disk' store' true (suc count) paths
          | declined ↦ purge_indexed soft name disk' store' used count paths
          | error ↦ (disk', store', none)
        ]
