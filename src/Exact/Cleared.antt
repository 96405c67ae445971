-- ===== src/Exact/Cleared.antt =====
-- What a hard purge of a key leaves in the catalogue.
use ngx_cache_pilot.Base.{
  ℕ, Bytes, Bool, true, false, ◌≡◌, refl, ap, ap₂, ◌∙◌, ◌==ᵇ◌, ==ᵇ_sound, Option, none, some, List,
  ◌∷◌, if◌then◌else◌, NulFree, Bool-cases, inl, inr,
}
use ngx_cache_pilot.Nginx.{Nginx, ok, declined, error}
use ngx_cache_pilot.Os.{Os}
use ngx_cache_pilot.FileCache.{delete_opened_file}
use ngx_cache_pilot.FileCache.Accounting.{Rc-cases}
use ngx_cache_pilot.Zone.Links.{has_path}
use ngx_cache_pilot.Upsert.{Meta}
use ngx_cache_pilot.Store.{Store, delete_file, get_zone_state, collect_paths_by_exact_key}
use ngx_cache_pilot.Store.Catalogue.{catalogue, without_path}
use ngx_cache_pilot.Store.Queries.{some_meta, has_key, collect_paths_by_exact_key-Answers}
use ngx_cache_pilot.Store.RoundTrips.{some_meta-without_path}
use ngx_cache_pilot.Store.Runs.{Reachable, Reachable-IsStore, delete_file-Reachable, OnePerPath}
use ngx_cache_pilot.Purge.Cleared.{
  without_paths, some_meta-others, some_meta-without_paths, OnePerPath-without_path,
}
use ngx_cache_pilot.Request.{Call, concat, cache_key_text, key_index_ready}
use ngx_cache_pilot.Request.World.{World}
use ngx_cache_pilot.Request.Kept.{purge_indexed-catalogue}
use ngx_cache_pilot.Exact.{opened_rc, fan_out_hard, finish_hard, exact_purge}

declined-ne-ok : ¬ (declined ≡ ok)
declined-ne-ok e = cc

error-ne-ok : ¬ (error ≡ ok)
error-ne-ok e = cc

-- The entries that are left when one path goes and then those that had the key.
some_meta-dropped :
    (test : Meta → Bool) (f p : Bytes) (key : Bytes) (paths : List Bytes) (ms : List Meta)
    → OnePerPath ms
    → has_path p paths ≡ some_meta (has_key key) p (without_path f ms)
    → some_meta test p (without_paths paths (without_path f ms)) ≡ (
        if f ==ᵇ p
        then false
        else if some_meta (has_key key) p ms
        then false
        else some_meta test p ms)
some_meta-dropped test f p key paths ms u answer =
    some_meta-without_paths test p paths (without_path f ms) (OnePerPath-without_path f ms u)
    ∙ ap (λ b. if b then false else some_meta test p (without_path f ms)) answer
    ∙ elim (Bool-cases (f ==ᵇ p)) [
      | inl same ↦
          rw
            (
              same,
              ← ==ᵇ_sound f p same,
              some_meta-without_path test f ms u,
              some_meta-without_path (has_key key) f ms u,
            )
            refl
      | inr other ↦
          rw
            (other, some_meta-others test p f ms other, some_meta-others (has_key key) p f ms other)
            refl
    ]

module _ (ngx : Nginx) (os : Os) (now : ℕ) where
  finish_hard_ok :
      (call : Call) (r : World ngx os × Option (Bool × ℕ))
      → (finish_hard ngx os call r).1 ≡ ok
      → (result : Bool × ℕ) × (r.1 ≡ some result)
        × ((finish_hard ngx os call r).0.store ≡ r.0.store)
  finish_hard_ok call (w, none) e = absurd (error-ne-ok e)
  finish_hard_ok call (w, some result) e = (result, refl, refl)

  module _ (call : Call) (name k : Bytes) (ks : List Bytes) (left : ℕ) (paths : List Bytes) where
    -- The index is used, and the files of the request's key can be collected from it.
    pub record FansOut (s : Store ngx) : Type 0 where
      pub ready : key_index_ready call ≡ inr name
      pub granted : call.granted ≡ true
      pub keys : call.keys ≡ k ∷ ks
      pub collected :
          collect_paths_by_exact_key ngx call.created call.room
            (delete_file ngx now s name call.file_name)
            name
            (concat (k ∷ ks))
          ≡ some (left, paths)

    fan_out_hard-catalogue :
        (w : World ngx os) (result : Bool × ℕ)
        → FansOut w.store
        → Reachable ngx w.store
        → NulFree name
        → (fan_out_hard ngx os now call w).1 ≡ some result
        → catalogue ngx (fan_out_hard ngx os now call w).0.store name
          ≡ without_paths paths (without_path call.file_name (catalogue ngx w.store name))
    unfolding fan_out_hard cache_key_text
    fan_out_hard-catalogue w result h r nul e =
        let text : cache_key_text call.granted call.keys ≡ (ok, concat (k ∷ ks)) =
          key_text h.granted h.keys in
        let (r', gone) = delete_file-Reachable ngx now w.store name call.file_name r nul in
        rw (h.ready, fan_out_hard, text, text, h.collected)
          (purge_indexed-catalogue ngx os now paths name w.disk _ false 1 result r' nul
              (rw (h.ready, fan_out_hard, text, text, h.collected) at e)
            ∙ ap (without_paths paths) gone)
      where
        key_text :
            {g : Bool} {keys : List Bytes}
            → g ≡ true
            → keys ≡ k ∷ ks
            → cache_key_text g keys ≡ (ok, concat (k ∷ ks))
        key_text a b = ap₂ cache_key_text a b

    -- A hard purge of a key, over a reachable store in which the zone is bootstrapped, that uses the index and can
    -- collect the files of the key: when it succeeds, the path of the opened file and the paths of the entries with the
    -- key are gone from the zone's catalogue, and for every other path it answers each question as before.
    pub exact_purge-cleared :
        (w : World ngx os)
        → FansOut w.store
        → (get_zone_state ngx now w.store name).bootstrap_complete ≡ true
        → Reachable ngx w.store
        → NulFree name
        → (exact_purge ngx os now call w).1 ≡ ok
        → (test : Meta → Bool) (p : Bytes)
        → some_meta test p (catalogue ngx (exact_purge ngx os now call w).0.store name) ≡ (
            if call.file_name ==ᵇ p
            then false
            else if some_meta (has_key (concat (k ∷ ks))) p (catalogue ngx w.store name)
            then false
            else some_meta test p (catalogue ngx w.store name))
    unfolding exact_purge
    exact_purge-cleared w h ready r nul done test p = elim (Rc-cases (opened_rc call.opening)) [
      | inr (inl o) ↦ absurd (declined-ne-ok (rw (o, exact_purge) at done))
      | inr (inr o) ↦ absurd (error-ne-ok (rw (o, exact_purge) at done))
      | inl o ↦ elim (Rc-cases (delete_opened_file ngx os w.disk call.node call.file_name).1) [
        | inr (inl e) ↦ absurd (declined-ne-ok (rw (o, exact_purge, e) at done))
        | inr (inr e) ↦ rw (o, exact_purge, e) (cleared _ h r (rw (o, exact_purge, e) at done))
        | inl e ↦ rw (o, exact_purge, e) (cleared _ h r (rw (o, exact_purge, e) at done))
      ]
    ]
      where
        cleared :
            (u : World ngx os)
            → FansOut u.store
            → Reachable ngx u.store
            → (finish_hard ngx os call (fan_out_hard ngx os now call u)).1 ≡ ok
            → some_meta test p (
                catalogue ngx
                  (finish_hard ngx os call (fan_out_hard ngx os now call u)).0.store
                  name)
              ≡ (if call.file_name ==ᵇ p
                  then false
                  else if some_meta (has_key (concat (k ∷ ks))) p (catalogue ngx u.store name)
                  then false
                  else some_meta test p (catalogue ngx u.store name))
        cleared u h r done =
            let (result, whole, same) = finish_hard_ok call _ done in
            let (r', gone) = delete_file-Reachable ngx now u.store name call.file_name r nul in
            let (v', _) = Reachable-IsStore ngx _ r' in
            let answer =
              collect_paths_by_exact_key-Answers ngx _ v' name call.created call.room left
                (concat (k ∷ ks)) paths h.collected in
            ap (λ s. some_meta test p (catalogue ngx s name)) same
            ∙ ap (some_meta test p) (fan_out_hard-catalogue u result h r nul whole)
            ∙ some_meta-dropped test call.file_name p (concat (k ∷ ks)) paths
                (catalogue ngx u.store name) ((Reachable-IsStore ngx u.store r).1 name)
                (answer.1 p ∙ ap (some_meta (has_key (concat (k ∷ ks))) p) gone)
