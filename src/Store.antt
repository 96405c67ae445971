-- ===== src/Store.antt =====
-- The store of the index: the zones in shared memory and the operations that take the lock
-- (src/ngx_cache_pilot_index_store.c). Each operation runs under the lock from its first line on, so
-- it is one step here. Log lines are not modelled; `ngx_time()` is the argument `now`.
pub mod States
pub mod Zones
pub mod Catalogue
pub mod Queries
pub mod Runs
pub mod Flags
pub mod RoundTrips
use ngx_cache_pilot.Base.{
  ℕ, ◌+◌, Bytes, Bool, true, false, not, ◌==◌, Option, none, some, List, [], ◌∷◌, ◌++◌, length, ltb,
  if◌then◌else◌, same_string,
}
use ngx_cache_pilot.Nginx.{Nginx}
use ngx_cache_pilot.Tree.{sentinel}
use ngx_cache_pilot.Zone.{Zone, Pool, alloc_locked}
use ngx_cache_pilot.Upsert.{Meta, upsert_locked, delete_locked}
use ngx_cache_pilot.Collect.{collect_tags, collect_key, collect_prefix}

-- `ngx_http_cache_index_zone_state_t`.
pub record ZoneState : Type 0 where
  pub bootstrap_complete : Bool
  pub last_bootstrap_at : ℕ
  pub last_updated_at : ℕ

-- The state of a zone that does not exist.
abbrev pub no_state : ZoneState
no_state = record { bootstrap_complete = false; last_bootstrap_at = 0; last_updated_at = 0 }

-- A bootstrap time of 0 is filled in from the update time, or from the clock.
unfoldable pub fill_bootstrap_at : ℕ → ZoneState → ZoneState
fill_bootstrap_at now state =
    if state.last_bootstrap_at == 0
    then record state {
      last_bootstrap_at = if state.last_updated_at == 0 then now else state.last_updated_at;
    }
    else state

unfoldable pub normalize_zone_state : ℕ → ZoneState → ZoneState
normalize_zone_state now state =
    let filled = fill_bootstrap_at now state in
    if not state.bootstrap_complete
    then no_state
    else if ltb filled.last_updated_at filled.last_bootstrap_at
    then record filled { last_updated_at = filled.last_bootstrap_at }
    else filled

unfoldable pub lookup_zone : Bytes → List Zone → Option Zone
lookup_zone name [] = none
lookup_zone name (z ∷ zs) = if same_string z.name name then some z else lookup_zone name zs

-- A change of the zone that the lookup finds, through its pointer.
unfoldable pub write_zone : Bytes → Zone → List Zone → List Zone
write_zone name zone [] = []
write_zone name zone (z ∷ zs) =
    if same_string z.name name then zone ∷ zs else z ∷ write_zone name zone zs

-- The cleared memory of a new zone, with its name and its empty queue and indexes.
abbrev pub empty_zone : Bytes → Zone
empty_zone name = record {
  name = name;
  files = [];
  path_index = sentinel;
  key_index = sentinel;
  tag_index = sentinel;
  bootstrap_complete = false;
  last_bootstrap_at = 0;
  last_updated_at = 0;
}

module _ (ngx : Nginx) where
  -- `ngx_http_cache_index_store_shctx_t` and the slab pool.
  pub record Store : Type 0 where
    pub pool : Pool ngx
    pub zones : List Zone

  unfoldable pub get_zone_locked : Store → Bytes → Bool → Store × Option Zone
  get_zone_locked store name create = elim (lookup_zone name store.zones) [
    | some zone ↦ (store, some zone)
    | none ↦
        let (pool', granted) = alloc_locked ngx store.pool (ngx.sizeof_zone + length name) in
        if not create
        then (store, none)
        else if granted
        then (
          record { pool = pool'; zones = store.zones ++ empty_zone name ∷ [] },
          some (empty_zone name),
        )
        else (record store { pool = pool' }, none)
  ]

  -- `false` is `NGX_ERROR`.
  unfoldable pub upsert_file_meta : ℕ → Store → Bytes → Meta → Store × Bool
  upsert_file_meta now store name m =
      let (store', found) = get_zone_locked store name true in
      elim found [
        | none ↦ (store', false)
        | some zone ↦
            let (pool', zone', stored) = upsert_locked ngx now store'.pool zone m in
            (record { pool = pool'; zones = write_zone name zone' store'.zones }, stored)
      ]

  unfoldable pub delete_file : ℕ → Store → Bytes → Bytes → Store
  delete_file now store name path = elim (lookup_zone name store.zones) [
    | none ↦ store
    | some zone ↦
        let (pool', zone') = delete_locked ngx now store.pool zone path in
        record { pool = pool'; zones = write_zone name zone' store.zones }
  ]

  -- `created` tells whether the array of the result could be made, `room` how many paths fit.
  unfoldable pub collect_paths_by_tags :
      Bool → ℕ → Store → Bytes → List Bytes → Option (ℕ × List Bytes)
  collect_paths_by_tags created room store name tags =
      if not created then none else elim (lookup_zone name store.zones) [
        | none ↦ some (room, [])
        | some zone ↦ collect_tags ngx zone room [] tags
      ]

  unfoldable pub collect_paths_by_exact_key :
      Bool → ℕ → Store → Bytes → Bytes → Option (ℕ × List Bytes)
  collect_paths_by_exact_key created room store name key =
      if not created then none else elim (lookup_zone name store.zones) [
        | none ↦ some (room, [])
        | some zone ↦ collect_key ngx zone room [] key
      ]

  unfoldable pub collect_paths_by_key_prefix :
      Bool → ℕ → Store → Bytes → Bytes → Option (ℕ × List Bytes)
  collect_paths_by_key_prefix created room store name prefix =
      if not created then none else elim (lookup_zone name store.zones) [
        | none ↦ some (room, [])
        | some zone ↦ collect_prefix room [] prefix zone.files
      ]

  unfoldable pub get_zone_state : ℕ → Store → Bytes → ZoneState
  unfolding normalize_zone_state
  get_zone_state now store name = elim (lookup_zone name store.zones) [
    | none ↦ normalize_zone_state now no_state
    | some zone ↦ normalize_zone_state now (record {
      bootstrap_complete = zone.bootstrap_complete;
      last_bootstrap_at = zone.last_bootstrap_at;
      last_updated_at = zone.last_updated_at;
    })
  ]

  abbrev pub write_state : ZoneState → Zone → Zone
  write_state state zone = record zone {
    bootstrap_complete = state.bootstrap_complete;
    last_bootstrap_at = state.last_bootstrap_at;
    last_updated_at = state.last_updated_at;
  }

  unfoldable pub set_zone_state : ℕ → Store → Bytes → ZoneState → Store × Bool
  set_zone_state now store name state =
      let (store', found) = get_zone_locked store name true in
      elim found [
        | none ↦ (store', false)
        | some zone ↦ (
          record store' {
            zones =
                write_zone name (write_state (normalize_zone_state now state) zone) store'.zones;
          },
          true,
        )
      ]

  -- The counter that `get_stats` reports.
  pub get_stats : Store → ℕ
  get_stats store = store.pool.alloc_failures
