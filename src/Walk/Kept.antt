-- ===== src/Walk/Kept.antt =====
-- The purge of a key prefix and of a whole cache keep the cache in order and the index a reachable store;
-- soft purges leave the index alone.
use ngx_cache_pilot.Base.{
  ℕ, Bytes, Bool, true, false, not, ◌==◌, ◌≡◌, refl, ◌∙◌, Option, none, some, List, [], ◌∷◌, length,
  if◌then◌else◌, Option-cases, Bool-cases, inl, inr,
}
use ngx_cache_pilot.Nginx.{Nginx, error}
use ngx_cache_pilot.Os.{Os}
use ngx_cache_pilot.FileCache.{Disk, by_path}
use ngx_cache_pilot.FileCache.Accounting.{IsCache, Rc-cases, by_path-IsCache}
use ngx_cache_pilot.Store.{collect_paths_by_key_prefix}
use ngx_cache_pilot.Request.{Call, key_index_ready}
use ngx_cache_pilot.Request.World.{World}
use ngx_cache_pilot.Request.Kept.{purge_indexed-IsSound, purge_indexed_soft}
use ngx_cache_pilot.Exact.Kept.{NamedZone, SoundWorld, sum-cases, key_index_ready_zone}
use ngx_cache_pilot.Walk.{
  is_match, walk_file, walk_files, purge_all, partial_walk, after_index, partial_index, partial_for,
  partial, key_prefix, without_last,
}

module _ (ngx : Nginx) (os : Os) where
  walk_file-IsCache :
      (soft : Bool) (key : Option Bytes) (d : Disk ngx os) (count : ℕ) (path : Bytes)
      → IsCache ngx d.cache
      → IsCache ngx (walk_file ngx os soft key d count path).0.cache
  unfolding walk_file
  walk_file-IsCache soft key d count path v = elim (Bool-cases (is_match ngx os key d.fs path)) [
    | inr other ↦ rw (other, walk_file) v
    | inl hit ↦ elim (Rc-cases (by_path ngx os soft d path).1) [
      | inl e ↦ rw (hit, walk_file, e) (by_path-IsCache ngx os soft d path v)
      | inr (inl e) ↦ rw (hit, walk_file, e) (by_path-IsCache ngx os soft d path v)
      | inr (inr e) ↦ rw (hit, walk_file, e) (by_path-IsCache ngx os soft d path v)
    ]
  ]

  walk_files-IsCache :
      (paths : List Bytes) (soft : Bool) (key : Option Bytes) (d : Disk ngx os) (count : ℕ)
      → IsCache ngx d.cache
      → IsCache ngx (walk_files ngx os soft key d count paths).0.cache
  unfolding walk_files
  walk_files-IsCache [] soft key d count v = v
  walk_files-IsCache (p ∷ ps) soft key d count v =
      walk_files-IsCache ps soft key _ _ (walk_file-IsCache soft key d count p v)

  -- The world after a purge of `w`: in order, and after a soft purge with the same index.
  abbrev pub WalkDone : Bool → World ngx os → World ngx os → Type 0
  WalkDone soft w u = SoundWorld ngx os u × (soft ≡ true → u.store ≡ w.store)

  -- A purge of a whole cache, in either mode, keeps the cache in order and does not touch the index.
  pub purge_all_lem :
      (soft : Bool) (call : Call) (w : World ngx os)
      → SoundWorld ngx os w
      → SoundWorld ngx os (purge_all ngx os soft call w).0
        × ((purge_all ngx os soft call w).0.store ≡ w.store)
  unfolding purge_all
  purge_all_lem soft call w v = elim (Bool-cases (os.walk_tree w.disk.fs call.root).1) [
    | inl e ↦
        rw (e, purge_all)
          (
            record {
              cache =
                  walk_files-IsCache (os.walk_tree w.disk.fs call.root).0 soft none w.disk 0
                    v.cache;
              store = v.store;
            },
            refl,
          )
    | inr e ↦
        rw (e, purge_all)
          (
            record {
              cache =
                  walk_files-IsCache (os.walk_tree w.disk.fs call.root).0 soft none w.disk 0
                    v.cache;
              store = v.store;
            },
            refl,
          )
  ]

  pub partial_walk_store :
      (soft : Bool) (call : Call) (key : Bytes) (w : World ngx os)
      → (partial_walk ngx os soft call key w).0.store ≡ w.store
  unfolding partial_walk
  partial_walk_store soft call key w = elim (Bool-cases (os.walk_tree w.disk.fs call.root).1) [
    | inl e ↦ rw (e, partial_walk) refl
    | inr e ↦ rw (e, partial_walk) refl
  ]

  pub partial_walk_lem :
      (soft : Bool) (call : Call) (key : Bytes) (w : World ngx os)
      → SoundWorld ngx os w
      → SoundWorld ngx os (partial_walk ngx os soft call key w).0
        × ((partial_walk ngx os soft call key w).0.store ≡ w.store)
  unfolding partial_walk
  partial_walk_lem soft call key w v = elim (Bool-cases (os.walk_tree w.disk.fs call.root).1) [
    | inl e ↦
        rw (e, partial_walk)
          (
            record {
              cache =
                  walk_files-IsCache (os.walk_tree w.disk.fs call.root).0 soft (some key) w.disk 0
                    v.cache;
              store = v.store;
            },
            refl,
          )
    | inr e ↦
        rw (e, partial_walk)
          (
            record {
              cache =
                  walk_files-IsCache (os.walk_tree w.disk.fs call.root).0 soft (some key) w.disk 0
                    v.cache;
              store = v.store;
            },
            refl,
          )
  ]

  after_index-WalkDone :
      (soft : Bool) (call : Call) (key : Bytes) (w : World ngx os)
      (r : World ngx os × Option (Bool × ℕ))
      → WalkDone soft w r.0
      → WalkDone soft w (after_index ngx os soft call key r).0
  after_index-WalkDone soft call key w (u, none) v = v
  after_index-WalkDone soft call key w (u, some (true, count)) (v, same) =
      (record { cache = v.cache; store = v.store }, same)
  after_index-WalkDone soft call key w (u, some (false, count)) (v, same) = by_memory call.granted
    where
      by_memory :
          (b : Bool)
          → WalkDone soft w (if b then partial_walk ngx os soft call key u else (u, error)).0
      by_memory true =
          let (v', kept) = partial_walk_lem soft call key u v in (v', λ s. kept ∙ same s)
      by_memory false = (v, same)

  module _ (now : ℕ) where
    partial_index-WalkDone :
        (soft : Bool) (call : Call) (prefix : Bytes) (w : World ngx os)
        → NamedZone call
        → SoundWorld ngx os w
        → WalkDone soft w (partial_index ngx os now soft call prefix w).0
    unfolding partial_index
    partial_index-WalkDone soft call prefix w named v = elim (sum-cases (key_index_ready call)) [
      | inl (reason, e) ↦
          rw (e, partial_index) (record { cache = v.cache; store = v.store }, λ s. refl)
      | inr (name, e) ↦
          elim (Option-cases
            (collect_paths_by_key_prefix ngx call.created call.room w.store name prefix)) [
              | inl full ↦ rw (e, partial_index, full) (v, λ s. refl)
              | inr ((left, paths), there) ↦
                  rw (e, partial_index, there)
                    (let kept =
                        purge_indexed-IsSound ngx os now paths soft name w.disk w.store false 0
                          (named name (key_index_ready_zone call name e)) v in
                      (
                        record { cache = kept.cache; store = kept.store },
                        λ s. rw s (purge_indexed_soft ngx os now paths name w.disk w.store false 0),
                      ))
            ]
    ]

    partial_for-WalkDone :
        (soft : Bool) (call : Call) (keys : List Bytes) (w : World ngx os)
        → NamedZone call
        → SoundWorld ngx os w
        → WalkDone soft w (partial_for ngx os now soft call keys w).0
    unfolding partial_for
    partial_for-WalkDone soft call [] w named v = (v, λ s. refl)
    partial_for-WalkDone soft call ([] ∷ ks) w named v = (v, λ s. refl)
    partial_for-WalkDone soft call ((c ∷ cs) ∷ ks) w named v =
        by_tests (length (key_prefix ((c ∷ cs) ∷ ks)) == 0) call.granted
      where
        by_tests :
            (a b : Bool)
            → WalkDone soft w
                (if a
                  then (w, error)
                  else if not b
                  then (w, error)
                  else after_index ngx os soft call
                      (without_last (c ∷ cs))
                      (partial_index ngx os now soft call (key_prefix ((c ∷ cs) ∷ ks)) w)).0
        by_tests true b = (v, λ s. refl)
        by_tests false false = (v, λ s. refl)
        by_tests false true =
            after_index-WalkDone soft call (without_last (c ∷ cs)) w _
              (partial_index-WalkDone soft call (key_prefix ((c ∷ cs) ∷ ks)) w named v)

    -- A purge of a key prefix, in either mode, of a cache whose zone has a NUL-free name, keeps the cache in order and the index a
    -- reachable store, however it ends; in soft mode it leaves the index as it is.
    pub partial_lem :
        (soft : Bool) (call : Call) (w : World ngx os)
        → NamedZone call
        → SoundWorld ngx os w
        → WalkDone soft w (partial ngx os now soft call w).0
    unfolding partial
    partial_lem soft call w = partial_for-WalkDone soft call call.keys w
