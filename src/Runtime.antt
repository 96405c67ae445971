-- ===== src/Runtime.antt =====
-- The watch runtime of a worker (src/ngx_cache_pilot_index_runtime.c): its index of the zones by
-- cache, and the bootstrap, which indexes the files below a cache's directory. The tree of the
-- directories as it is found is an argument; it has no entries `.` and `..`, which the scan skips.
pub mod Ordered
pub mod Zones
pub mod States
pub mod Informed
pub mod Scan
pub mod Bootstrap
pub mod Start
pub mod Started
use ngx_cache_pilot.Base.{
  ℕ, ◌+◌, Bytes, Bool, true, false, not, ◌&&◌, ◌==◌, ltb, leb, Option, none, some, List, [], ◌∷◌,
  ◌++◌, if◌then◌else◌,
}
use ngx_cache_pilot.Nginx.{Nginx, Rc, ok, declined, error}
use ngx_cache_pilot.Os.{Os, file_stat, stat_enoent, stat_failed}
use ngx_cache_pilot.Tree.{Tree, sentinel, branch, map_tree}
use ngx_cache_pilot.Store.{Store, ZoneState, no_state, get_zone_state, set_zone_state}
use ngx_cache_pilot.Registry.{IndexZone, HeaderArray}
use ngx_cache_pilot.Indexing.{Grants, process_file}

-- `ngx_http_cache_index_zone_index_t`: a zone under its cache, with the state that the worker knows.
pub record ZoneIndex : Type 0 where
  pub zone : IndexZone
  pub state : ZoneState

-- The node's key is the cache itself, so that equal keys go to the right.
unfoldable pub zone_insert : ZoneIndex → Tree ZoneIndex → Tree ZoneIndex
zone_insert node sentinel = branch sentinel node sentinel
zone_insert node (branch l x r) =
    let left = zone_insert node l in
    let right = zone_insert node r in
    if ltb node.zone.cache x.zone.cache then branch left x r else branch l x right

unfoldable pub lookup_zone_index : ℕ → Tree ZoneIndex → Option ZoneIndex
lookup_zone_index cache sentinel = none
lookup_zone_index cache (branch l x r) =
    let left = lookup_zone_index cache l in
    let right = lookup_zone_index cache r in
    if ltb cache x.zone.cache then left else if ltb x.zone.cache cache then right else some x

unfoldable pub lookup_index_zone : ℕ → Tree ZoneIndex → Option IndexZone
unfolding lookup_zone_index
lookup_index_zone cache index = elim (lookup_zone_index cache index) [
  | none ↦ none
  | some x ↦ some x.zone
]

-- A write through the pointer that the lookup returns.
unfoldable pub zone_state_cache_set : ℕ → ZoneState → Tree ZoneIndex → Tree ZoneIndex
zone_state_cache_set cache state sentinel = sentinel
zone_state_cache_set cache state (branch l x r) =
    let left = zone_state_cache_set cache state l in
    let right = zone_state_cache_set cache state r in
    if ltb cache x.zone.cache
    then branch left x r
    else if ltb x.zone.cache cache
    then branch l x right
    else branch l (record x { state = state }) r

-- What `opendir` and `readdir` find; a file is an entry of type `DT_REG` or `DT_UNKNOWN`.
mutual
  pub data Dir : Type 0 where
    unreadable : Dir
    listing : DirEntries → Dir

  pub data DirEntries : Type 0 where
    no_entries : DirEntries
    dir_entry : Bytes → Dir → DirEntries → DirEntries
    file_entry other_entry : Bytes → DirEntries → DirEntries

abbrev pub join_path : Bytes → Bytes → Bytes
join_path base name = base ++ 47 ∷ name

-- What a zone's cache tells: whether it has a directory, its path and what is there, whether its
-- loader is still cold.
pub record CacheDir : Type 0 where
  pub path : Bytes
  pub dir : Dir
  pub cold : Bool

-- The state of a zone that was just bootstrapped.
abbrev pub booted : ℕ → ZoneState
booted now = record { bootstrap_complete = true; last_bootstrap_at = now; last_updated_at = now }

-- The result of an attempt; `deferred` is `NGX_AGAIN`.
pub data Attempt : Type 0 where
  all_booted deferred boot_failed : Attempt

module _ (ngx : Nginx) where
  pub record Runtime : Type 0 where
    pub index : Tree ZoneIndex
    pub store : Store ngx

  -- The index of a worker that starts; no zone is known to be bootstrapped.
  unfoldable pub init_zones : List IndexZone → Tree ZoneIndex → Tree ZoneIndex
  unfolding zone_insert
  init_zones [] index = index
  init_zones (zone ∷ zones) index =
      init_zones zones
        (ngx.rebalance ZoneIndex (zone_insert (record { zone = zone; state = no_state }) index))

module _ (ngx : Nginx) (os : Os) (now : ℕ) (joins : Bytes → Bool) (grants : Bytes → Grants)
    (fs : os.Fs) where
  -- A file that is not newer than `min_mtime` is passed over; 0 turns the test off.
  unfoldable pub is_old : ℕ → Bytes → Bool
  is_old min_mtime path = ltb 0 min_mtime && (elim (os.file_info fs path) [
    | stat_enoent ↦ true
    | stat_failed ↦ true
    | file_stat size mtime ↦ leb mtime min_mtime
  ])

  unfoldable pub scan_file : ℕ → IndexZone → Store ngx → Bytes → Store ngx × Bool
  unfolding is_old
  scan_file min_mtime zone store path =
      if is_old min_mtime path
      then (store, true)
      else process_file ngx os now (grants path) zone.headers fs store zone.zone_name path

  -- `joins` tells whether there is memory for a path.
  unfoldable mutual
    pub scan_recursive : ℕ → IndexZone → Bytes → Dir → Store ngx → Store ngx × Rc
    scan_recursive min_mtime zone path unreadable store = (store, declined)
    scan_recursive min_mtime zone path (listing entries) store =
        scan_entries min_mtime zone path entries store

    pub scan_entries : ℕ → IndexZone → Bytes → DirEntries → Store ngx → Store ngx × Rc
    scan_entries min_mtime zone path no_entries store = (store, ok)
    scan_entries min_mtime zone path (dir_entry name dir rest) store =
        let (store', rc) = scan_recursive min_mtime zone (join_path path name) dir store in
        let after = scan_entries min_mtime zone path rest store' in
        if not (joins (join_path path name))
        then (store, error)
        else elim rc [ ok ↦ after | declined ↦ after | error ↦ (store', error) ]
    scan_entries min_mtime zone path (other_entry name rest) store =
        let after = scan_entries min_mtime zone path rest store in
        if not (joins (join_path path name)) then (store, error) else after
    scan_entries min_mtime zone path (file_entry name rest) store =
        let (store', fine) = scan_file min_mtime zone store (join_path path name) in
        let after = scan_entries min_mtime zone path rest store' in
        if not (joins (join_path path name))
        then (store, error)
        else if fine
        then after
        else (store', error)

  -- A zone whose cache has no directory is declined, an unreadable one is an error.
  unfoldable pub scan_zone : IndexZone → Option CacheDir → Store ngx → Store ngx × Rc
  scan_zone zone none store = (store, declined)
  scan_zone zone (some c) store =
      let (store', rc) = scan_recursive 0 zone c.path c.dir store in
      elim rc [ ok ↦ (store', ok) | declined ↦ (store', error) | error ↦ (store', error) ]

  -- `false` is `NGX_ERROR`.
  unfoldable pub bootstrap_zone : IndexZone → Option CacheDir → Store ngx → Store ngx × Bool
  bootstrap_zone zone cache store =
      let (store', rc) = scan_zone zone cache store in
      elim rc [
        | declined ↦ (store', false)
        | error ↦ (store', false)
        | ok ↦ set_zone_state ngx now store' zone.zone_name (booted now)
      ]

  -- One zone; `none` is `NGX_ERROR`, and the Boolean tells whether the zone is deferred. `single` is
  -- a server that runs as a single process.
  unfoldable pub try_zone :
      Bool → (ℕ → Option CacheDir) → IndexZone → Runtime ngx → Runtime ngx × Option Bool
  try_zone single dirs zone rt = elim (dirs zone.cache) [
    | none ↦ (rt, some false)
    | some c ↦
        if c.cold && not single
        then (rt, some true)
        else let state = get_zone_state ngx now rt.store zone.zone_name in
          if state.bootstrap_complete
          then (record rt { index = zone_state_cache_set zone.cache state rt.index }, some false)
          else let (store', fine) = bootstrap_zone zone (some c) rt.store in
            if not fine then (record rt { store = store' }, none) else (
              record {
                index =
                    zone_state_cache_set zone.cache (get_zone_state ngx now store' zone.zone_name)
                      rt.index;
                store = store';
              },
              some false,
            )
  ]

  unfoldable pub try_zones :
      Bool → (ℕ → Option CacheDir) → Bool → List IndexZone → Runtime ngx → Runtime ngx × Attempt
  try_zones single dirs later [] rt = (rt, if later then deferred else all_booted)
  try_zones single dirs later (zone ∷ zones) rt =
      let (rt', result) = try_zone single dirs zone rt in
      elim result [
        | none ↦ (rt', boot_failed)
        | some waits ↦ try_zones single dirs (if waits then true else later) zones rt'
      ]

  -- A worker without a writer has nothing to do.
  unfoldable pub try_bootstrap_zones :
      Bool → Bool → (ℕ → Option CacheDir) → List IndexZone → Runtime ngx → Runtime ngx × Attempt
  try_bootstrap_zones writer single dirs zones rt =
      if not writer then (rt, all_booted) else try_zones single dirs false zones rt
