-- ===== src/Walk.antt =====
-- The purge of a key prefix and of a whole cache (`partial` and `all` in
-- src/ngx_cache_pilot_module.c), in a build without threads: through the index if it finds files, and else
-- by a walk of the cache's directory.
pub mod Kept
pub mod Cleared
pub mod Gone
use ngx_cache_pilot.Base.{
  ℕ, suc, ◌+◌, Bytes, Bool, true, false, not, ◌==◌, Option, none, some, List, [], ◌∷◌, ◌++◌, length,
  if◌then◌else◌, inl, inr,
}
use ngx_cache_pilot.Nginx.{Nginx, Rc, ok, declined, error}
use ngx_cache_pilot.Os.{Os, Opened, opened, open_enoent, open_failed}
use ngx_cache_pilot.FileCache.{Disk, by_path}
use ngx_cache_pilot.Store.{Store, collect_paths_by_key_prefix}
use ngx_cache_pilot.Response.{wildcard_index, filesystem_fallback}
use ngx_cache_pilot.Stats.{wildcard, all}
use ngx_cache_pilot.Request.{
  Call, Notes, set_response_path, set_decline_reason, note_purge, note_purge_request,
  record_key_index_wildcard_hit, concat, key_index_ready, ends_in_star,
}
use ngx_cache_pilot.Request.World.{World, purge_indexed}

-- A key without its last byte.
abbrev pub without_last : Bytes → Bytes
without_last [] = []
without_last (c ∷ []) = []
without_last (c ∷ d ∷ cs) = c ∷ without_last (d ∷ cs)

-- The keys behind each other, without the first one's `*`.
unfoldable pub key_prefix : List Bytes → Bytes
key_prefix [] = []
key_prefix (k ∷ ks) = (if ends_in_star k then without_last k else k) ++ concat ks

module _ (ngx : Nginx) (os : Os) where
  -- The key stands in the file behind the header and six bytes; the case of letters does not count.
  unfoldable pub partial_match : Bytes → os.Fs → Bytes → Bool
  partial_match [] fs path = true
  partial_match (k ∷ ks) fs path = elim (os.open_file fs path) [
    | open_enoent ↦ false
    | open_failed ↦ false
    | opened ↦ elim (os.read_file fs path (length (k ∷ ks)) (os.sizeof_header + 6)) [
      | none ↦ false
      | some bytes ↦ if length bytes == length (k ∷ ks) then ngx.nocase bytes (k ∷ ks) else false
    ]
  ]

  -- The handlers of the walk: a file that cannot be purged does not stop it. Without a key they match
  -- every file.
  abbrev pub is_match : Option Bytes → os.Fs → Bytes → Bool
  is_match none fs path = true
  is_match (some key) fs path = partial_match key fs path

  unfoldable pub walk_file : Bool → Option Bytes → Disk ngx os → ℕ → Bytes → Disk ngx os × ℕ
  walk_file soft key disk count path =
      if not (is_match key disk.fs path)
      then (disk, count)
      else let (disk', rc) = by_path ngx os soft disk path in
        elim rc [ ok ↦ (disk', suc count) | declined ↦ (disk', count) | error ↦ (disk', count) ]

  unfoldable pub walk_files : Bool → Option Bytes → Disk ngx os → ℕ → List Bytes → Disk ngx os × ℕ
  walk_files soft key disk count [] = (disk, count)
  walk_files soft key disk count (path ∷ paths) =
      let (disk', count') = walk_file soft key disk count path in
      walk_files soft key disk' count' paths

  unfoldable pub purge_all : Bool → Call → World ngx os → World ngx os × Rc
  purge_all soft call w =
      let (paths, whole) = os.walk_tree w.disk.fs call.root in
      let (disk', count) = walk_files soft none w.disk 0 paths in
      if whole
      then (
        record w {
          disk = disk';
          notes = note_purge_request all soft (note_purge all soft count w.notes);
        },
        ok,
      )
      else (record w { disk = disk' }, error)

  -- The walk that takes the place of the index.
  unfoldable pub partial_walk : Bool → Call → Bytes → World ngx os → World ngx os × Rc
  partial_walk soft call key w =
      let (paths, whole) = os.walk_tree w.disk.fs call.root in
      let (disk', count) = walk_files soft (some key) w.disk 0 paths in
      let notes' = set_response_path filesystem_fallback w.notes in
      if whole
      then (
        record w {
          disk = disk';
          notes = note_purge_request wildcard soft (note_purge wildcard soft count notes');
        },
        ok,
      )
      else (record w { disk = disk'; notes = notes' }, error)

  abbrev pub after_index :
      Bool → Call → Bytes → World ngx os × Option (Bool × ℕ) → World ngx os × Rc
  after_index soft call key (w, none) = (w, error)
  after_index soft call key (w, some (true, count)) = (
    record w {
      notes = note_purge_request wildcard soft (
          record_key_index_wildcard_hit
            (note_purge wildcard soft count (set_response_path wildcard_index w.notes)));
    },
    ok,
  )
  after_index soft call key (w, some (false, count)) =
      if call.granted then partial_walk soft call key w else (w, error)

  module _ (now : ℕ) where
    -- The index first; `none` is `NGX_ERROR`.
    unfoldable pub partial_index :
        Bool → Call → Bytes → World ngx os → World ngx os × Option (Bool × ℕ)
    partial_index soft call prefix w = elim (key_index_ready call) [
      | inl reason ↦ (record w { notes = set_decline_reason reason w.notes }, some (false, 0))
      | inr name ↦
          elim (collect_paths_by_key_prefix ngx call.created call.room w.store name prefix) [
            | none ↦ (w, some (false, 0))
            | some (left, paths) ↦
                let (disk', store', result) =
                  purge_indexed ngx os now soft name w.disk w.store false 0 paths in
                (record w { disk = disk'; store = store' }, result)
          ]
    ]

    -- `granted` is the memory for the texts.
    unfoldable pub partial_for : Bool → Call → List Bytes → World ngx os → World ngx os × Rc
    partial_for soft call [] w = (w, error)
    partial_for soft call ([] ∷ ks) w = (w, error)
    partial_for soft call ((c ∷ cs) ∷ ks) w =
        if length (key_prefix ((c ∷ cs) ∷ ks)) == 0
        then (w, error)
        else if not call.granted
        then (w, error)
        else after_index soft call (without_last (c ∷ cs))
            (partial_index soft call (key_prefix ((c ∷ cs) ∷ ks)) w)

    unfoldable pub partial : Bool → Call → World ngx os → World ngx os × Rc
    unfolding partial_for
    partial soft call w = partial_for soft call call.keys w
