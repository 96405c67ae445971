-- ===== src/Exact.antt =====
-- The purge of one key (`exact_purge` and `exact_purge_soft` in src/ngx_cache_pilot_module.c), in a
-- build without file AIO: the entry that nginx opens for the key, and through the index the other
-- files of the key.
pub mod Kept
pub mod Cleared
use ngx_cache_pilot.Base.{
  ℕ, suc, Bytes, Bool, true, false, not, Option, none, some, List, [], ◌∷◌, if◌then◌else◌, inl, inr,
}
use ngx_cache_pilot.Nginx.{Nginx, Rc, ok, declined, error}
use ngx_cache_pilot.Os.{Os}
use ngx_cache_pilot.FileCache.{
  CacheNode, Disk, delete_opened_file, lookup_node, soft_header, soft_path, expire_node, by_path,
}
use ngx_cache_pilot.Store.{Store, delete_file, collect_paths_by_exact_key}
use ngx_cache_pilot.Purge.{DeclineReason, not_found}
use ngx_cache_pilot.Response.{exact_key_fanout}
use ngx_cache_pilot.Stats.{exact}
use ngx_cache_pilot.Request.{
  Call, Notes, Opening, cache_ok, cache_stale, cache_updating, cache_declined, cache_error,
  set_response_path, set_decline_reason, note_purge, note_purge_request,
  record_key_index_exact_fanout, cache_key_text, key_index_ready,
}
use ngx_cache_pilot.Request.World.{World, release_updating, purge_indexed}

-- The switch on the result of the opening; on `ok` the handler goes on.
unfoldable pub opened_rc : Opening → Rc
opened_rc cache_ok = ok
opened_rc cache_stale = ok
opened_rc cache_updating = ok
opened_rc cache_declined = declined
opened_rc cache_error = error

module _ (ngx : Nginx) (os : Os) where
  abbrev pub not_found_in : World ngx os → World ngx os
  not_found_in w = record w { notes = set_decline_reason not_found w.notes }

  abbrev pub release : Call → World ngx os → World ngx os
  release call w = record w {
    disk = record w.disk { cache = release_updating ngx os call w.disk.cache };
  }

  -- What is noted at the end.
  unfoldable pub note_exact : Bool → Bool → ℕ → Notes → Notes
  note_exact soft used count notes = note_purge exact soft count (
      if used
      then record_key_index_exact_fanout (set_response_path exact_key_fanout notes)
      else notes)

  abbrev pub finish_hard : Call → World ngx os × Option (Bool × ℕ) → World ngx os × Rc
  finish_hard call (w, none) = (release call w, error)
  finish_hard call (w, some (used, count)) =
      (release call (record w { notes = note_exact false used count w.notes }), ok)

  module _ (now : ℕ) where
    -- After the opened file is gone: its path leaves the index, and the other files of the key follow;
    -- `none` is `NGX_ERROR`.
    unfoldable pub fan_out_hard : Call → World ngx os → World ngx os × Option (Bool × ℕ)
    fan_out_hard call w = elim (key_index_ready call) [
      | inl reason ↦ (record w { notes = set_decline_reason reason w.notes }, some (false, 1))
      | inr name ↦
          let (rc, key_text) = cache_key_text call.granted call.keys in
          elim rc [
            | declined ↦ (w, some (false, 1))
            | error ↦ (w, some (false, 1))
            | ok ↦
                let store' = delete_file ngx now w.store name call.file_name in
                elim (collect_paths_by_exact_key ngx call.created call.room store' name key_text) [
                  | none ↦ (record w { store = store' }, some (false, 1))
                  | some (left, paths) ↦
                      let (disk'', store'', result) =
                        purge_indexed ngx os now false name w.disk store' false 1 paths in
                      (record w { disk = disk''; store = store'' }, result)
                ]
          ]
    ]

    unfoldable pub exact_purge : Call → World ngx os → World ngx os × Rc
    exact_purge call w = elim (opened_rc call.opening) [
      | declined ↦ (not_found_in w, declined)
      | error ↦ (w, error)
      | ok ↦
          let (disk', rc) = delete_opened_file ngx os w.disk call.node call.file_name in
          elim rc [
            | declined ↦ (not_found_in (record w { disk = disk' }), declined)
            | error ↦ finish_hard call (
                fan_out_hard call
                  (record w { disk = disk'; notes = note_purge_request exact false w.notes }))
            | ok ↦ finish_hard call (
                fan_out_hard call
                  (record w { disk = disk'; notes = note_purge_request exact false w.notes }))
          ]
    ]

  -- The loop of the soft purge leaves the index alone.
  unfoldable pub expire_paths :
      Disk ngx os → Bool → ℕ → List Bytes → Disk ngx os × Option (Bool × ℕ)
  expire_paths disk used count [] = (disk, some (used, count))
  expire_paths disk used count (path ∷ paths) =
      let (disk', rc) = by_path ngx os true disk path in
      elim rc [
        | ok ↦ expire_paths disk' true (suc count) paths
        | declined ↦ expire_paths disk' used count paths
        | error ↦ (disk', none)
      ]

  unfoldable pub fan_out_soft : Call → World ngx os → World ngx os × Option (Bool × ℕ)
  fan_out_soft call w = elim (key_index_ready call) [
    | inl reason ↦ (record w { notes = set_decline_reason reason w.notes }, some (false, 1))
    | inr name ↦
        let (rc, key_text) = cache_key_text call.granted call.keys in
        elim rc [
          | declined ↦ (w, some (false, 1))
          | error ↦ (w, some (false, 1))
          | ok ↦
              elim (collect_paths_by_exact_key ngx call.created call.room w.store name key_text) [
                | none ↦ (w, some (false, 1))
                | some (left, paths) ↦
                    let (disk', result) = expire_paths w.disk false 1 paths in
                    (record w { disk = disk' }, result)
              ]
        ]
  ]

  abbrev pub finish_soft : Call → World ngx os × Option (Bool × ℕ) → World ngx os × Rc
  finish_soft call (w, none) = (release call w, error)
  finish_soft call (w, some (used, count)) = (
    release call
        (record w { notes = note_exact true used count (note_purge_request exact true w.notes) }),
    ok,
  )

  -- The node of the entry expires only after the header on disk.
  unfoldable pub expire_opened : Call → World ngx os → CacheNode → World ngx os × Rc
  expire_opened call w node =
      let (fs', rc) = soft_header ngx os w.disk.fs call.file_name in
      elim rc [
        | declined ↦ (not_found_in (record w { disk = record w.disk { fs = fs' } }), declined)
        | error ↦ (record w { disk = record w.disk { fs = fs' } }, error)
        | ok ↦ finish_soft call (
            fan_out_soft call
              (record w { disk = record { cache = expire_node node w.disk.cache; fs = fs' } }))
      ]

  unfoldable pub exact_purge_soft : Call → World ngx os → World ngx os × Rc
  exact_purge_soft call w = elim (opened_rc call.opening) [
    | declined ↦ (not_found_in w, declined)
    | error ↦ (w, error)
    | ok ↦ elim (lookup_node ngx w.disk.cache call.node) [
      | none ↦ (not_found_in w, declined)
      | some node ↦
          if not node.exists then (not_found_in w, declined) else expire_opened call w node
    ]
  ]
