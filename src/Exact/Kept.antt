-- ===== src/Exact/Kept.antt =====
-- The purge of one key keeps the cache in order and the index a reachable store; a soft purge leaves the
-- index alone, and one that is declined leaves everything but the noted reason.
use ngx_cache_pilot.Base.{
  ℕ, suc, Bytes, Bool, true, false, not, ◌||◌, ◌≡◌, refl, ap, ◌∙◌, Option, none, some, List, [],
  ◌∷◌, if◌then◌else◌, NulFree, Option-cases, Bool-cases, In, ◌⊎◌, inl, inr, arith,
}
use ngx_cache_pilot.Nginx.{Nginx, Rc, declined}
use ngx_cache_pilot.Os.{Os}
use ngx_cache_pilot.Tree.{to_list}
use ngx_cache_pilot.FileCache.{
  CacheNode, Disk, delete_opened_file, lookup_node, soft_header, write_header, by_path,
}
use ngx_cache_pilot.FileCache.Accounting.{
  IsCache, Rc-cases, by_path-IsCache, delete_opened_file-IsCache, expire_node-IsCache,
  lookup_node-In,
}
use ngx_cache_pilot.Store.{delete_file, collect_paths_by_exact_key}
use ngx_cache_pilot.Store.Runs.{delete_file-Reachable}
use ngx_cache_pilot.Request.{Call, cache_key_text, key_index_ready}
use ngx_cache_pilot.Request.World.{World}
use ngx_cache_pilot.Request.Kept.{IsSound, release_updating-IsCache, purge_indexed-IsSound}
use ngx_cache_pilot.Exact.{
  opened_rc, not_found_in, release, fan_out_hard, finish_hard, exact_purge, expire_paths,
  fan_out_soft, finish_soft, expire_opened, exact_purge_soft,
}

pub sum-cases : {A B : Type 0} (x : A ⊎ B) → ((a : A) × (x ≡ inl a)) ⊎ ((b : B) × (x ≡ inr b))
sum-cases (inl a) = inl (a, refl)
sum-cases (inr b) = inr (b, refl)

inl-ne-inr : {A B : Type 0} {a : A} {b : B} → ¬ (◌≡◌ {A = A ⊎ B} (inl a) (inr b))
inl-ne-inr e = cc

inr-inj : {A B : Type 0} {a b : B} → ◌≡◌ {A = A ⊎ B} (inr a) (inr b) → a ≡ b
inr-inj e = cc

-- The index is used only under the name of the cache's zone.
pub key_index_ready_zone :
    (call : Call) (name : Bytes) → key_index_ready call ≡ inr name → call.zone ≡ some name
unfolding key_index_ready
key_index_ready_zone call name e = elim (Bool-cases call.configured) [
  | inr off ↦ absurd (inl-ne-inr (rw (off, key_index_ready) at e))
  | inl on ↦ elim (Option-cases call.zone) [
    | inl missing ↦ absurd (inl-ne-inr (rw (on, key_index_ready, missing) at e))
    | inr (z, there) ↦ elim (Bool-cases (call.reader || call.writer)) [
      | inr shut ↦ absurd (inl-ne-inr (rw (on, key_index_ready, there, shut) at e))
      | inl usable ↦ there ∙ ap some (inr-inj (rw (on, key_index_ready, there, usable) at e))
    ]
  ]
]

-- The name of the cache's zone, if it has one, is free of NUL.
abbrev pub NamedZone : Call → Type 0
NamedZone call = (name : Bytes) → call.zone ≡ some name → NulFree name

module _ (ngx : Nginx) (os : Os) where
  abbrev pub SoundWorld : World ngx os → Type 0
  SoundWorld w = IsSound ngx os w.disk w.store

  release-SoundWorld :
      (call : Call) (w : World ngx os) → SoundWorld w → SoundWorld (release ngx os call w)
  release-SoundWorld call w v = record {
    cache = release_updating-IsCache ngx os call w.disk.cache v.cache;
    store = v.store;
  }

  expire_paths-IsCache :
      (paths : List Bytes) (d : Disk ngx os) (used : Bool) (count : ℕ)
      → IsCache ngx d.cache
      → IsCache ngx (expire_paths ngx os d used count paths).0.cache
  unfolding expire_paths
  expire_paths-IsCache [] d used count v = v
  expire_paths-IsCache (p ∷ ps) d used count v =
      let step = by_path-IsCache ngx os true d p v in
      elim (Rc-cases (by_path ngx os true d p).1) [
        | inl e ↦ rw (e, expire_paths) (expire_paths-IsCache ps _ true (suc count) step)
        | inr (inl e) ↦ rw (e, expire_paths) (expire_paths-IsCache ps _ used count step)
        | inr (inr e) ↦ rw (e, expire_paths) step
      ]

  fan_out_soft-SoundWorld :
      (call : Call) (w : World ngx os)
      → SoundWorld w
      → SoundWorld (fan_out_soft ngx os call w).0 × ((fan_out_soft ngx os call w).0.store ≡ w.store)
  unfolding fan_out_soft
  fan_out_soft-SoundWorld call w v = elim (sum-cases (key_index_ready call)) [
    | inl (reason, e) ↦ rw (e, fan_out_soft) (record { cache = v.cache; store = v.store }, refl)
    | inr (name, e) ↦ elim (Rc-cases (cache_key_text call.granted call.keys).0) [
      | inr (inl k) ↦ rw (e, fan_out_soft, k) (v, refl)
      | inr (inr k) ↦ rw (e, fan_out_soft, k) (v, refl)
      | inl k ↦
          elim (Option-cases (
            collect_paths_by_exact_key ngx call.created call.room w.store name
              (cache_key_text call.granted call.keys).1)) [
                | inl full ↦ rw (e, fan_out_soft, k, full) (v, refl)
                | inr ((left, paths), there) ↦
                    rw (e, fan_out_soft, k, there)
                      (
                        record {
                          cache = expire_paths-IsCache paths w.disk false 1 v.cache;
                          store = v.store;
                        },
                        refl,
                      )
              ]
    ]
  ]

  soft_header_declined :
      (fs : os.Fs) (path : Bytes)
      → (soft_header ngx os fs path).1 ≡ declined
      → (soft_header ngx os fs path).0 ≡ fs
  unfolding soft_header write_header
  soft_header_declined fs path e = ground (arith, e)

  abbrev pub SoftDone : World ngx os → World ngx os × Rc → Type 0
  SoftDone w r =
      SoundWorld r.0 × (r.0.store ≡ w.store) × (r.1 ≡ declined → r.0 ≡ not_found_in ngx os w)

  finish_soft-SoftDone :
      (call : Call) (w : World ngx os) (r : World ngx os × Option (Bool × ℕ))
      → SoundWorld r.0 × (r.0.store ≡ w.store)
      → SoftDone w (finish_soft ngx os call r)
  finish_soft-SoftDone call w (u, none) (v, same) = (release-SoundWorld call u v, same, λ e. cc)
  finish_soft-SoftDone call w (u, some (used, count)) (v, same) = (
    record { cache = release_updating-IsCache ngx os call u.disk.cache v.cache; store = v.store },
    same,
    λ e. cc,
  )

  expire_opened-SoftDone :
      (call : Call) (w : World ngx os) (n : CacheNode)
      → SoundWorld w
      → In n (to_list w.disk.cache.nodes)
      → SoftDone w (expire_opened ngx os call w n)
  unfolding expire_opened
  expire_opened-SoftDone call w n v m =
      elim (Rc-cases (soft_header ngx os w.disk.fs call.file_name).1) [
        | inr (inl e) ↦
            rw (e, expire_opened)
              (
                record { cache = v.cache; store = v.store },
                refl,
                λ d.
                    ap (λ fs. not_found_in ngx os (record w { disk = record w.disk { fs = fs } }))
                      (soft_header_declined w.disk.fs call.file_name e),
              )
        | inr (inr e) ↦
            rw (e, expire_opened) (record { cache = v.cache; store = v.store }, refl, λ d. cc)
        | inl e ↦
            rw (e, expire_opened)
              (finish_soft-SoftDone call w _ (
                fan_out_soft-SoundWorld call _ (record {
                  cache = expire_node-IsCache ngx w.disk.cache n v.cache m;
                  store = v.store;
                })))
      ]

  -- A soft purge of a key keeps the cache in order and leaves the index as it is; if it is declined, it leaves
  -- everything as it is but the noted reason.
  pub exact_purge_soft_lem :
      (call : Call) (w : World ngx os) → SoundWorld w → SoftDone w (exact_purge_soft ngx os call w)
  unfolding exact_purge_soft
  exact_purge_soft_lem call w v = elim (Rc-cases (opened_rc call.opening)) [
    | inr (inl o) ↦
        rw (o, exact_purge_soft) (record { cache = v.cache; store = v.store }, refl, λ d. refl)
    | inr (inr o) ↦ rw (o, exact_purge_soft) (v, refl, λ d. cc)
    | inl o ↦ elim (Option-cases (lookup_node ngx w.disk.cache call.node)) [
      | inl gone ↦
          rw (o, exact_purge_soft, gone)
            (record { cache = v.cache; store = v.store }, refl, λ d. refl)
      | inr (n, there) ↦
          rw (o, exact_purge_soft, there)
            (by_exists n (lookup_node-In ngx w.disk.cache call.node n there).0 n.exists)
    ]
  ]
    where
      by_exists :
          (n : CacheNode)
          → In n (to_list w.disk.cache.nodes)
          → (b : Bool)
          → SoftDone w
              (if not b then (not_found_in ngx os w, declined) else expire_opened ngx os call w n)
      by_exists n m true = expire_opened-SoftDone call w n v m
      by_exists n m false = (record { cache = v.cache; store = v.store }, refl, λ d. refl)

  abbrev pub HardDone : World ngx os → World ngx os × Rc → Type 0
  HardDone w r = SoundWorld r.0 × (r.1 ≡ declined → r.0 ≡ not_found_in ngx os w)

  module _ (now : ℕ) where
    fan_out_hard-SoundWorld :
        (call : Call) (w : World ngx os)
        → NamedZone call
        → SoundWorld w
        → SoundWorld (fan_out_hard ngx os now call w).0
    unfolding fan_out_hard
    fan_out_hard-SoundWorld call w named v = elim (sum-cases (key_index_ready call)) [
      | inl (reason, e) ↦ rw (e, fan_out_hard) (record { cache = v.cache; store = v.store })
      | inr (name, e) ↦ elim (Rc-cases (cache_key_text call.granted call.keys).0) [
        | inr (inl k) ↦ rw (e, fan_out_hard, k) v
        | inr (inr k) ↦ rw (e, fan_out_hard, k) v
        | inl k ↦
            let nul = named name (key_index_ready_zone call name e) in
            let left_index =
              (delete_file-Reachable ngx now w.store name call.file_name v.store nul).0 in
            elim (Option-cases (
              collect_paths_by_exact_key ngx call.created call.room
                (delete_file ngx now w.store name call.file_name) name
                (cache_key_text call.granted call.keys).1)) [
                  | inl full ↦
                      rw (e, fan_out_hard, k, full) (record { cache = v.cache; store = left_index })
                  | inr ((left, paths), there) ↦
                      rw (e, fan_out_hard, k, there)
                        (let kept =
                            purge_indexed-IsSound ngx os now paths false name w.disk _ false 1 nul
                              (record { cache = v.cache; store = left_index }) in
                          record { cache = kept.cache; store = kept.store })
                ]
      ]
    ]

    finish_hard-HardDone :
        (call : Call) (w : World ngx os) (r : World ngx os × Option (Bool × ℕ))
        → SoundWorld r.0
        → HardDone w (finish_hard ngx os call r)
    finish_hard-HardDone call w (u, none) v = (release-SoundWorld call u v, λ e. cc)
    finish_hard-HardDone call w (u, some (used, count)) v = (
      record { cache = release_updating-IsCache ngx os call u.disk.cache v.cache; store = v.store },
      λ e. cc,
    )

    delete_opened_file_declined :
        (d : Disk ngx os) (key path : Bytes)
        → (delete_opened_file ngx os d key path).1 ≡ declined
        → (delete_opened_file ngx os d key path).0 ≡ d
    unfolding delete_opened_file
    delete_opened_file_declined d key path e = ground (arith, e)

    -- A hard purge of a key, of a cache whose zone has a NUL-free name, keeps the cache in order and the index a reachable store; if it is
    -- declined, it leaves everything as it is but the noted reason.
    pub exact_purge_lem :
        (call : Call) (w : World ngx os)
        → NamedZone call
        → SoundWorld w
        → HardDone w (exact_purge ngx os now call w)
    unfolding exact_purge
    exact_purge_lem call w named v = elim (Rc-cases (opened_rc call.opening)) [
      | inr (inl o) ↦ rw (o, exact_purge) (record { cache = v.cache; store = v.store }, λ d. refl)
      | inr (inr o) ↦ rw (o, exact_purge) (v, λ d. cc)
      | inl o ↦
          let kept = delete_opened_file-IsCache ngx os w.disk call.node call.file_name v.cache in
          elim (Rc-cases (delete_opened_file ngx os w.disk call.node call.file_name).1) [
            | inr (inl e) ↦
                rw (o, exact_purge, e)
                  (
                    record { cache = kept; store = v.store },
                    λ d.
                        ap (λ x. not_found_in ngx os (record w { disk = x }))
                          (delete_opened_file_declined w.disk call.node call.file_name e),
                  )
            | inr (inr e) ↦
                rw (o, exact_purge, e)
                  (finish_hard-HardDone call w _ (
                    fan_out_hard-SoundWorld call _ named
                      (record { cache = kept; store = v.store })))
            | inl e ↦
                rw (o, exact_purge, e)
                  (finish_hard-HardDone call w _ (
                    fan_out_hard-SoundWorld call _ named
                      (record { cache = kept; store = v.store })))
          ]
    ]
