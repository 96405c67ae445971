-- ===== src/Runtime/Start.antt =====
-- The start of a worker (`init_runtime` and the timer's handler in
-- src/ngx_cache_pilot_index_runtime.c). Registration passes a NULL cache over, so that each zone has
-- a cache.
use ngx_cache_pilot.Base.{ℕ, Bytes, Bool, Option, List}
use ngx_cache_pilot.Nginx.{Nginx}
use ngx_cache_pilot.Os.{Os}
use ngx_cache_pilot.Tree.{sentinel}
use ngx_cache_pilot.Store.{Store}
use ngx_cache_pilot.Registry.{IndexZone}
use ngx_cache_pilot.Indexing.{Grants}
use ngx_cache_pilot.Runtime.{
  CacheDir, Runtime, Attempt, all_booted, deferred, boot_failed, init_zones, try_bootstrap_zones,
}
use ngx_cache_pilot.Runtime.States.{zone_state_cache_sync}

-- What a worker does next: it retries in a second, it is done, or it gave up.
pub data Next : Type 0 where
  retry settled gave_up : Next

unfoldable pub next_of : Attempt → Next
next_of all_booted = settled
next_of deferred = retry
next_of boot_failed = gave_up

module _ (ngx : Nginx) (os : Os) (now : ℕ) (joins : Bytes → Bool) (grants : Bytes → Grants)
    (fs : os.Fs) where
  -- The timer's handler; a retry sets the timer again.
  pub bootstrap_timer_handler :
      Bool → Bool → (ℕ → Option CacheDir) → List IndexZone → Runtime ngx → Runtime ngx × Next
  unfolding next_of
  bootstrap_timer_handler writer single dirs zones rt =
      let (rt', result) =
        try_bootstrap_zones ngx os now joins grants fs writer single dirs zones rt in
      (rt', next_of result)

  -- The start over the store in shared memory, once `store_runtime_init` succeeded; a worker that gave up
  -- does not start.
  unfoldable pub init_runtime :
      (reader writer single : Bool)
      → (ℕ → Option CacheDir)
      → List IndexZone
      → Store ngx
      → Runtime ngx × Next
  unfolding zone_state_cache_sync next_of
  init_runtime reader writer single dirs zones store =
      let index =
        zone_state_cache_sync ngx now reader store zones (init_zones ngx zones sentinel) in
      let (rt', result) =
        try_bootstrap_zones ngx os now joins grants fs writer single dirs zones
          (record { index = index; store = store }) in
      (rt', next_of result)
