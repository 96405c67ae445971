-- ===== src/Walk/Cleared.antt =====
-- What a hard purge of a key prefix leaves in the catalogue.
use ngx_cache_pilot.Base.{
  ℕ, Bytes, Bool, true, false, not, ◌==◌, ◌≡◌, refl, ap, ◌∙◌, Option, none, some, List, [], ◌∷◌,
  length, if◌then◌else◌, NulFree, begins, inr,
}
use ngx_cache_pilot.Nginx.{Nginx, ok, error}
use ngx_cache_pilot.Os.{Os}
use ngx_cache_pilot.Upsert.{Meta}
use ngx_cache_pilot.Store.{Store, collect_paths_by_key_prefix}
use ngx_cache_pilot.Store.Catalogue.{catalogue}
use ngx_cache_pilot.Store.Queries.{some_meta, collect_paths_by_key_prefix-Answers}
use ngx_cache_pilot.Store.Runs.{Reachable, Reachable-IsStore}
use ngx_cache_pilot.Purge.Cleared.{without_paths, some_meta-without_paths}
use ngx_cache_pilot.Request.{Call, key_index_ready}
use ngx_cache_pilot.Request.World.{World}
use ngx_cache_pilot.Request.Kept.{purge_indexed-catalogue}
use ngx_cache_pilot.Walk.{
  after_index, partial_index, partial_walk, partial_for, partial, key_prefix, without_last,
}
use ngx_cache_pilot.Walk.Kept.{partial_walk_store}

error-ne-ok : ¬ (error ≡ ok)
error-ne-ok e = cc

module _ (ngx : Nginx) (os : Os) (now : ℕ) (call : Call) where
  after_index_ok :
      (key : Bytes) (r : World ngx os × Option (Bool × ℕ))
      → (after_index ngx os false call key r).1 ≡ ok
      → (result : Bool × ℕ) × (r.1 ≡ some result)
        × ((after_index ngx os false call key r).0.store ≡ r.0.store)
  after_index_ok key (w, none) e = absurd (error-ne-ok e)
  after_index_ok key (w, some (true, count)) e = ((true, count), refl, refl)
  after_index_ok key (w, some (false, count)) e = ((false, count), refl, by_memory call.granted)
    where
      by_memory :
          (b : Bool)
          → (if b then partial_walk ngx os false call key w else (w, error)).0.store ≡ w.store
      by_memory true = partial_walk_store ngx os false call key w
      by_memory false = refl

  module _ (name : Bytes) (left : ℕ) (paths : List Bytes) where
    -- The index is used, and the files of a prefix can be collected from it.
    pub record Finds (s : Store ngx) (prefix : Bytes) : Type 0 where
      pub ready : key_index_ready call ≡ inr name
      pub collected :
          collect_paths_by_key_prefix ngx call.created call.room s name prefix ≡ some (left, paths)

    -- Every question about the entries of a path, after those with the prefix went.
    abbrev pub PrefixGone : World ngx os → Bytes → World ngx os → Type 0
    PrefixGone w prefix u =
        (test : Meta → Bool) (p : Bytes)
        → some_meta test p (catalogue ngx u.store name) ≡ (
            if some_meta (λ m. begins prefix m.key) p (catalogue ngx w.store name)
            then false
            else some_meta test p (catalogue ngx w.store name))

    partial_index-catalogue :
        (prefix : Bytes) (w : World ngx os) (result : Bool × ℕ)
        → Finds w.store prefix
        → Reachable ngx w.store
        → NulFree name
        → (partial_index ngx os now false call prefix w).1 ≡ some result
        → catalogue ngx (partial_index ngx os now false call prefix w).0.store name
          ≡ without_paths paths (catalogue ngx w.store name)
    unfolding partial_index
    partial_index-catalogue prefix w result h r nul e =
        rw (h.ready, partial_index, h.collected)
          (purge_indexed-catalogue ngx os now paths name w.disk w.store false 0 result r nul
            (rw (h.ready, partial_index, h.collected) at e))

    after_index-PrefixGone :
        (key prefix : Bytes) (w : World ngx os)
        → Finds w.store prefix
        → Reachable ngx w.store
        → NulFree name
        → NulFree prefix
        → (after_index ngx os false call key (partial_index ngx os now false call prefix w)).1 ≡ ok
        → PrefixGone w prefix
            (after_index ngx os false call key (partial_index ngx os now false call prefix w)).0
    after_index-PrefixGone key prefix w h r nul clean done test p =
        let (result, whole, same) = after_index_ok key _ done in
        let (v, one) = Reachable-IsStore ngx w.store r in
        let (_, answer) =
          collect_paths_by_key_prefix-Answers ngx w.store v name call.created call.room left prefix
            paths clean h.collected in
        ap (λ s. some_meta test p (catalogue ngx s name)) same
        ∙ ap (some_meta test p) (partial_index-catalogue prefix w result h r nul whole)
        ∙ some_meta-without_paths test p paths (catalogue ngx w.store name) (one name)
        ∙ ap (λ b. if b then false else some_meta test p (catalogue ngx w.store name)) (answer p)

    partial_for-PrefixGone :
        (keys : List Bytes) (w : World ngx os)
        → Finds w.store (key_prefix keys)
        → Reachable ngx w.store
        → NulFree name
        → NulFree (key_prefix keys)
        → (partial_for ngx os now false call keys w).1 ≡ ok
        → PrefixGone w (key_prefix keys) (partial_for ngx os now false call keys w).0
    unfolding partial_for
    partial_for-PrefixGone [] w h r nul clean done = absurd (error-ne-ok done)
    partial_for-PrefixGone ([] ∷ ks) w h r nul clean done = absurd (error-ne-ok done)
    partial_for-PrefixGone ((c ∷ cs) ∷ ks) w h r nul clean done =
        by_tests (length (key_prefix ((c ∷ cs) ∷ ks)) == 0) call.granted done
      where
        by_tests :
            (a b : Bool)
            → (if a
                then (w, error)
                else if not b
                then (w, error)
                else after_index ngx os false call
                    (without_last (c ∷ cs))
                    (partial_index ngx os now false call (key_prefix ((c ∷ cs) ∷ ks)) w)).1
              ≡ ok
            → PrefixGone w
                (key_prefix ((c ∷ cs) ∷ ks))
                (if a
                  then (w, error)
                  else if not b
                  then (w, error)
                  else after_index ngx os false call
                      (without_last (c ∷ cs))
                      (partial_index ngx os now false call (key_prefix ((c ∷ cs) ∷ ks)) w)).0
        by_tests true b done = absurd (error-ne-ok done)
        by_tests false false done = absurd (error-ne-ok done)
        by_tests false true done =
            after_index-PrefixGone (without_last (c ∷ cs)) (key_prefix ((c ∷ cs) ∷ ks)) w h r nul
              clean done

    -- A hard purge of a NUL-free key prefix that uses the index and can collect the files of the prefix, over a reachable store: when it
    -- succeeds, through the index or by the walk, the paths of the entries whose key begins with the prefix are gone from the zone's
    -- catalogue, and for every other path it answers each question as before.
    pub partial-cleared :
        (w : World ngx os)
        → Finds w.store (key_prefix call.keys)
        → Reachable ngx w.store
        → NulFree name
        → NulFree (key_prefix call.keys)
        → (partial ngx os now false call w).1 ≡ ok
        → PrefixGone w (key_prefix call.keys) (partial ngx os now false call w).0
    unfolding partial
    partial-cleared w = partial_for-PrefixGone call.keys w
