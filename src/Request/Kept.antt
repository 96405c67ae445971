-- ===== src/Request/Kept.antt =====
-- The purge of indexed paths keeps the cache and the index well formed, and a hard purge of paths that
-- does not fail deletes all of them from the catalogue.
use ngx_cache_pilot.Base.{
  ℕ, suc, Bytes, Bool, true, false, ◌&&◌, ◌==◌, ◌≡◌, refl, ap, ◌∙◌, some, none-ne-some, List, [],
  ◌∷◌, if◌then◌else◌, NulFree, Option-cases, Bool-cases, inl, inr, In, ◌⊎◌,
}
use ngx_cache_pilot.Nginx.{Nginx, error}
use ngx_cache_pilot.Os.{Os}
use ngx_cache_pilot.FileCache.{CacheNode, FileCache, Disk, by_path, lookup_node, write_node}
use ngx_cache_pilot.FileCache.Accounting.{
  IsCache, Rc-cases, by_path-IsCache, write_node-IsCache, lookup_node-In,
}
use ngx_cache_pilot.Tree.{to_list}
use ngx_cache_pilot.Store.{Store, delete_file}
use ngx_cache_pilot.Store.Catalogue.{catalogue, without_path}
use ngx_cache_pilot.Store.Runs.{Reachable, delete_file-Reachable}
use ngx_cache_pilot.Purge.Cleared.{without_paths}
use ngx_cache_pilot.Request.{Call}
use ngx_cache_pilot.Request.World.{release_updating, by_indexed_path, purge_indexed}

module _ (ngx : Nginx) (os : Os) where
  -- A cache that is in order and a store that a run reaches.
  pub record IsSound (d : Disk ngx os) (s : Store ngx) : Type 0 where
    pub cache : IsCache ngx d.cache
    pub store : Reachable ngx s

  pub release_updating-IsCache :
      (call : Call) (c : FileCache) → IsCache ngx c → IsCache ngx (release_updating ngx os call c)
  unfolding release_updating
  release_updating-IsCache call c v = elim (Bool-cases call.updating) [
    | inr free ↦ rw (free, release_updating) v
    | inl held ↦ elim (Option-cases (lookup_node ngx c call.node)) [
      | inl gone ↦ rw (held, release_updating, gone) v
      | inr (n, there) ↦
          rw (held, release_updating, there)
            (by_lock n (lookup_node-In ngx c call.node n there).0
              (n.updating && n.lock_time == call.lock_time))
    ]
  ]
    where
      by_lock :
          (n : CacheNode)
          → In n (to_list c.nodes)
          → (b : Bool)
          → IsCache ngx (if b then write_node n (λ x. record x { updating = false }) c else c)
      by_lock n m true =
          write_node-IsCache ngx c n (λ x. record x { updating = false }) (λ x. (refl, refl)) refl v
            m
      by_lock n m false = v

  module _ (now : ℕ) where
    by_indexed_path-IsSound :
        (soft : Bool) (name : Bytes) (d : Disk ngx os) (s : Store ngx) (path : Bytes)
        → NulFree name
        → IsSound d s
        → let r = by_indexed_path ngx os now soft name d s path in IsSound r.0 r.1
    unfolding by_indexed_path
    by_indexed_path-IsSound soft name d s path nul v =
        elim (Rc-cases (by_path ngx os soft d path).1) [
          | inl e ↦ rw (e, by_indexed_path) (followed soft)
          | inr (inl e) ↦ rw (e, by_indexed_path) (followed soft)
          | inr (inr e) ↦ rw (e, by_indexed_path) (record { cache = purged; store = v.store })
        ]
      where
        purged : IsCache ngx (by_path ngx os soft d path).0.cache
        purged = by_path-IsCache ngx os soft d path v.cache

        followed :
            (b : Bool)
            → IsSound
                (by_path ngx os soft d path).0
                (if b then s else delete_file ngx now s name path)
        followed true = record { cache = purged; store = v.store }
        followed false = record {
          cache = purged;
          store = (delete_file-Reachable ngx now s name path v.store nul).0;
        }

    pub purge_indexed-IsSound :
        (paths : List Bytes) (soft : Bool) (name : Bytes) (d : Disk ngx os) (s : Store ngx)
        (used : Bool) (count : ℕ)
        → NulFree name
        → IsSound d s
        → let r = purge_indexed ngx os now soft name d s used count paths in IsSound r.0 r.1
    unfolding purge_indexed
    purge_indexed-IsSound [] soft name d s used count nul v = v
    purge_indexed-IsSound (p ∷ ps) soft name d s used count nul v =
        let step = by_indexed_path-IsSound soft name d s p nul v in
        elim (Rc-cases (by_indexed_path ngx os now soft name d s p).2) [
          | inl e ↦
              rw (e, purge_indexed)
                (purge_indexed-IsSound ps soft name _ _ true (suc count) nul step)
          | inr (inl e) ↦
              rw (e, purge_indexed) (purge_indexed-IsSound ps soft name _ _ used count nul step)
          | inr (inr e) ↦ rw (e, purge_indexed) step
        ]

    by_indexed_path_soft :
        (name : Bytes) (d : Disk ngx os) (s : Store ngx) (path : Bytes)
        → (by_indexed_path ngx os now true name d s path).1 ≡ s
    unfolding by_indexed_path
    by_indexed_path_soft name d s path = elim (Rc-cases (by_path ngx os true d path).1) [
      | inl e ↦ rw (e, by_indexed_path) refl
      | inr (inl e) ↦ rw (e, by_indexed_path) refl
      | inr (inr e) ↦ rw (e, by_indexed_path) refl
    ]

    -- A soft purge leaves the index alone.
    pub purge_indexed_soft :
        (paths : List Bytes) (name : Bytes) (d : Disk ngx os) (s : Store ngx) (used : Bool)
        (count : ℕ)
        → (purge_indexed ngx os now true name d s used count paths).1 ≡ s
    unfolding purge_indexed
    purge_indexed_soft [] name d s used count = refl
    purge_indexed_soft (p ∷ ps) name d s used count =
        let same = by_indexed_path_soft name d s p in
        elim (Rc-cases (by_indexed_path ngx os now true name d s p).2) [
          | inl e ↦ rw (e, purge_indexed) (purge_indexed_soft ps name _ _ true (suc count) ∙ same)
          | inr (inl e) ↦ rw (e, purge_indexed) (purge_indexed_soft ps name _ _ used count ∙ same)
          | inr (inr e) ↦ rw (e, purge_indexed) same
        ]

    -- Unless the file fails to be purged, its path leaves the index.
    by_indexed_path-catalogue :
        (name : Bytes) (d : Disk ngx os) (s : Store ngx) (path : Bytes)
        → Reachable ngx s
        → NulFree name
        → let r = by_indexed_path ngx os now false name d s path in
          (r.2 ≡ error)
          ⊎ (Reachable ngx r.1
              × (catalogue ngx r.1 name ≡ without_path path (catalogue ngx s name)))
    unfolding by_indexed_path
    by_indexed_path-catalogue name d s path r nul =
        elim (Rc-cases (by_path ngx os false d path).1) [
          | inl e ↦ inr (rw (e, by_indexed_path) (delete_file-Reachable ngx now s name path r nul))
          | inr (inl e) ↦
              inr (rw (e, by_indexed_path) (delete_file-Reachable ngx now s name path r nul))
          | inr (inr e) ↦ inl (rw (e, by_indexed_path) refl)
        ]

    pub purge_indexed-catalogue :
        (paths : List Bytes) (name : Bytes) (d : Disk ngx os) (s : Store ngx) (used : Bool)
        (count : ℕ) (result : Bool × ℕ)
        → Reachable ngx s
        → NulFree name
        → let r = purge_indexed ngx os now false name d s used count paths in
          r.2 ≡ some result → catalogue ngx r.1 name ≡ without_paths paths (catalogue ngx s name)
    unfolding purge_indexed
    purge_indexed-catalogue [] name d s used count result r nul e = refl
    purge_indexed-catalogue (p ∷ ps) name d s used count result r nul e =
        elim (by_indexed_path-catalogue name d s p r nul) [
          | inl c ↦ absurd (none-ne-some {a = result} (rw (c, purge_indexed) at e))
          | inr (r', gone) ↦ elim (Rc-cases (by_indexed_path ngx os now false name d s p).2) [
            | inl c ↦
                rw (c, purge_indexed)
                  (purge_indexed-catalogue ps name _ _ true (suc count) result r' nul
                      (rw (c, purge_indexed) at e)
                    ∙ ap (without_paths ps) gone)
            | inr (inl c) ↦
                rw (c, purge_indexed)
                  (purge_indexed-catalogue ps name _ _ used count result r' nul
                      (rw (c, purge_indexed) at e)
                    ∙ ap (without_paths ps) gone)
            | inr (inr c) ↦ absurd (none-ne-some {a = result} (rw (c, purge_indexed) at e))
          ]
        ]
