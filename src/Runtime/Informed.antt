-- ===== src/Runtime/Informed.antt =====
-- What a worker's index of the zones tells after an attempt to bootstrap them (`try_bootstrap_zones`
-- in src/ngx_cache_pilot_index_runtime.c).
use ngx_cache_pilot.Base.{
  ℕ, Bytes, Bool, true, false, not, ◌&&◌, ◌==◌, ◌≡◌, ◌≢◌, refl, sym, ap, ◌∙◌, Option, some,
  some-inj, none-ne-some, List, [], ◌∷◌, if◌then◌else◌, All, Bool-cases, Option-cases, inl, inr,
  true-ne-false, arith,
}
use ngx_cache_pilot.Nginx.{Nginx}
use ngx_cache_pilot.Os.{Os}
use ngx_cache_pilot.Tree.{Tree}
use ngx_cache_pilot.Store.{Store, ZoneState, get_zone_state}
use ngx_cache_pilot.Store.Runs.{Reachable}
use ngx_cache_pilot.Store.Flags.{is_booted, get_zone_state_flag}
use ngx_cache_pilot.Registry.{IndexZone}
use ngx_cache_pilot.Indexing.{Grants}
use ngx_cache_pilot.Runtime.{
  CacheDir, ZoneIndex, Runtime, Attempt, all_booted, deferred, lookup_index_zone,
  zone_state_cache_set, bootstrap_zone, try_zone, try_zones,
}
use ngx_cache_pilot.Runtime.States.{
  zone_bootstrap_complete, lookup_index_zone-zone_state_cache_set, zone_bootstrap_complete-apart,
  zone_bootstrap_complete-own,
}
use ngx_cache_pilot.Runtime.Bootstrap.{CleanZone, bootstrap_zone-Booted, try_zone_lem}

module _ (ngx : Nginx) (now : ℕ) where
  -- Each zone that the index takes for bootstrapped is.
  abbrev pub IsTrue : Tree ZoneIndex → Store ngx → Type 0
  IsTrue t s =
      (c : ℕ) (z : IndexZone)
      → lookup_index_zone c t ≡ some z
      → zone_bootstrap_complete ngx now c t ≡ true
      → is_booted ngx s z.zone_name ≡ true

  -- A step from `rt` to `r` forgets no zone and no state, and tells nothing that is not so.
  pub record Informed (rt r : Runtime ngx) : Type 0 where
    pub zones : (c : ℕ) → lookup_index_zone c r.index ≡ lookup_index_zone c rt.index
    pub kept :
        (c : ℕ)
        → zone_bootstrap_complete ngx now c rt.index ≡ true
        → zone_bootstrap_complete ngx now c r.index ≡ true
    pub is_true : IsTrue rt.index rt.store → IsTrue r.index r.store

  Informed-trans : (a b c : Runtime ngx) → Informed a b → Informed b c → Informed a c
  Informed-trans a b c i j = record {
    zones = λ q. j.zones q ∙ i.zones q;
    kept = λ q e. j.kept q (i.kept q e);
    is_true = λ h. j.is_true (i.is_true h);
  }

  -- A step of the store alone.
  stored-Informed :
      (t : Tree ZoneIndex) (s s' : Store ngx)
      → ((q : Bytes) → is_booted ngx s q ≡ true → is_booted ngx s' q ≡ true)
      → Informed (record { index = t; store = s }) (record { index = t; store = s' })
  stored-Informed t s s' flags = record {
    zones = λ c. refl;
    kept = λ c e. e;
    is_true = λ h c z q e. flags z.zone_name (h c z q e);
  }

  -- The worker takes over that a zone is bootstrapped.
  told-Informed :
      (t : Tree ZoneIndex) (s s' : Store ngx) (zone : IndexZone) (state : ZoneState)
      → ((q : Bytes) → is_booted ngx s q ≡ true → is_booted ngx s' q ≡ true)
      → lookup_index_zone zone.cache t ≡ some zone
      → state.bootstrap_complete ≡ true
      → is_booted ngx s' zone.zone_name ≡ true
      → Informed
          (record { index = t; store = s })
          (record { index = zone_state_cache_set zone.cache state t; store = s' })
        × (zone_bootstrap_complete ngx now zone.cache (zone_state_cache_set zone.cache state t)
            ≡ true)
  told-Informed t s s' zone state flags there ready marked = (
    record {
      zones = λ c. lookup_index_zone-zone_state_cache_set c zone.cache state t;
      kept = kept;
      is_true = is_true;
    },
    zone_bootstrap_complete-own ngx now zone.cache zone.cache state t zone (ground arith) there
        ∙ ready,
  )
    where
      here : (c : ℕ) → (zone.cache == c) ≡ true → lookup_index_zone c t ≡ some zone
      here c hit =
          let same : zone.cache ≡ c = ground (arith, hit) in
          ap (λ d. lookup_index_zone d t) (sym same) ∙ there

      kept :
          (c : ℕ)
          → zone_bootstrap_complete ngx now c t ≡ true
          → zone_bootstrap_complete ngx now c (zone_state_cache_set zone.cache state t) ≡ true
      kept c e = elim (Bool-cases (zone.cache == c)) [
        | inl hit ↦
            zone_bootstrap_complete-own ngx now c zone.cache state t zone hit (here c hit) ∙ ready
        | inr miss ↦ zone_bootstrap_complete-apart ngx now c zone.cache state t miss ∙ e
      ]

      is_true : IsTrue t s → IsTrue (zone_state_cache_set zone.cache state t) s'
      is_true h c z q e = elim (Bool-cases (zone.cache == c)) [
        | inl hit ↦
            let own : zone ≡ z = some-inj (
              sym (here c hit)
              ∙ sym (lookup_index_zone-zone_state_cache_set c zone.cache state t)
              ∙ q) in
            ap (λ x. is_booted ngx s' x.zone_name) (sym own) ∙ marked
        | inr miss ↦ flags z.zone_name (
            h c z (sym (lookup_index_zone-zone_state_cache_set c zone.cache state t) ∙ q)
              (sym (zone_bootstrap_complete-apart ngx now c zone.cache state t miss) ∙ e))
      ]

module _ (ngx : Nginx) (os : Os) (now : ℕ) (joins : Bytes → Bool) (grants : Bytes → Grants)
    (fs : os.Fs) (clock : now ≢ 0) (single : Bool) (dirs : ℕ → Option CacheDir) where
  -- The index takes the zone for bootstrapped, if its cache has a directory.
  abbrev pub Told : Runtime ngx → IndexZone → Type 0
  Told rt zone =
      (c : CacheDir)
      → dirs zone.cache ≡ some c
      → zone_bootstrap_complete ngx now zone.cache rt.index ≡ true

  -- The result of the attempt on one zone.
  record ZoneDone (zone : IndexZone) (rt : Runtime ngx) (r : Runtime ngx × Option Bool)
      : Type 0 where
    informed : Informed ngx now rt r.0
    told : r.1 ≡ some false → Told r.0 zone

  -- The result for the zones still to come; `later` tells whether an earlier one waits.
  pub record ZonesDone (zones : List IndexZone) (later : Bool) (rt : Runtime ngx)
      (r : Runtime ngx × Attempt) : Type 0 where
    pub informed : Informed ngx now rt r.0
    pub at_once : r.1 ≡ all_booted → later ≡ false
    pub told : r.1 ≡ all_booted → All (Told r.0) zones

  false-ne-true : some false ≢ some true
  false-ne-true e = true-ne-false (sym (some-inj e))

  try_zone-ZoneDone :
      (zone : IndexZone) (rt : Runtime ngx)
      → Reachable ngx rt.store
      → CleanZone ngx os now joins grants fs clock single dirs zone
      → lookup_index_zone zone.cache rt.index ≡ some zone
      → ZoneDone zone rt (try_zone ngx os now joins grants fs single dirs zone rt)
  unfolding try_zone
  try_zone-ZoneDone zone rt reach clean there = elim (Option-cases (dirs zone.cache)) [
    | inl nowhere ↦
        rw (nowhere, try_zone)
          (record {
            informed = here;
            told = λ e c q. absurd (none-ne-some {a = c} (sym nowhere ∙ q));
          })
    | inr (c, found) ↦ elim (Bool-cases (c.cold && not single)) [
      | inl cold ↦
          rw (found, try_zone, cold)
            (record { informed = here; told = λ e. absurd (false-ne-true (sym e)) })
      | inr warm ↦
          elim (Bool-cases (get_zone_state ngx now rt.store zone.zone_name).bootstrap_complete) [
            | inl ready ↦
                let (i, told) =
                  told-Informed ngx now rt.index rt.store rt.store zone
                    (get_zone_state ngx now rt.store zone.zone_name) (λ q e. e) there ready
                    (sym (get_zone_state_flag ngx now rt.store zone.zone_name) ∙ ready) in
                rw (found, try_zone, warm)
                  (pick (get_zone_state ngx now rt.store zone.zone_name).bootstrap_complete _ _
                    ready (record { informed = i; told = λ e c' q. told }))
            | inr unready ↦
                let (on, boots) =
                  bootstrap_zone-Booted ngx os now joins grants fs clock zone c rt.store reach
                    clean.named (clean.files c found) in
                elim (Bool-cases
                  (bootstrap_zone ngx os now joins grants fs zone (some c) rt.store).1) [
                    | inl fine ↦
                        let (i, told) =
                          told-Informed ngx now rt.index rt.store _ zone
                            (get_zone_state ngx now _ zone.zone_name) on.flags there
                            (get_zone_state_flag ngx now _ zone.zone_name ∙ (boots fine).marked)
                            (boots fine).marked in
                        rw (found, try_zone, warm, unready, fine)
                          (record { informed = i; told = λ e c' q. told })
                    | inr failed ↦
                        rw (found, try_zone, warm, unready, failed)
                          (record {
                            informed = stored-Informed ngx now rt.index rt.store _ on.flags;
                            told = λ e. absurd (none-ne-some {a = false} e);
                          })
                  ]
          ]
    ]
  ]
    where
      here : Informed ngx now rt rt
      here = record { zones = λ c. refl; kept = λ c e. e; is_true = λ h. h }

      pick :
          (b : Bool) (x y : Runtime ngx × Option Bool)
          → b ≡ true
          → ZoneDone zone rt x
          → ZoneDone zone rt (if b then x else y)
      pick true x y e p = p
      pick false x y e p = absurd (true-ne-false (sym e))

  -- The index has the zones.
  abbrev pub Listed : Tree ZoneIndex → List IndexZone → Type 0
  Listed t zones = All (λ z. lookup_index_zone z.cache t ≡ some z) zones

  still-Listed :
      (t t' : Tree ZoneIndex) (zones : List IndexZone)
      → ((c : ℕ) → lookup_index_zone c t' ≡ lookup_index_zone c t)
      → Listed t zones
      → Listed t' zones
  still-Listed t t' [] same l = tt
  still-Listed t t' (z ∷ zones) same (l, ls) = (same z.cache ∙ l, still-Listed t t' zones same ls)

  finished-ZonesDone :
      (later : Bool) (rt : Runtime ngx)
      → ZonesDone [] later rt (rt, if later then deferred else all_booted)
  finished-ZonesDone true rt = record {
    informed = record { zones = λ c. refl; kept = λ c e. e; is_true = λ h. h };
    at_once = λ e. cc;
    told = λ e. tt;
  }
  finished-ZonesDone false rt = record {
    informed = record { zones = λ c. refl; kept = λ c e. e; is_true = λ h. h };
    at_once = λ e. refl;
    told = λ e. tt;
  }

  pub try_zones-ZonesDone :
      (zones : List IndexZone) (later : Bool) (rt : Runtime ngx)
      → Reachable ngx rt.store
      → All (CleanZone ngx os now joins grants fs clock single dirs) zones
      → Listed rt.index zones
      → ZonesDone zones later rt (try_zones ngx os now joins grants fs single dirs later zones rt)
  unfolding try_zones
  try_zones-ZonesDone [] later rt reach clean listed = finished-ZonesDone later rt
  try_zones-ZonesDone (zone ∷ zones) later rt reach (clean, cleans) (listed, lists) =
      let d = try_zone-ZoneDone zone rt reach clean listed in
      let (on, _, _) =
        try_zone_lem ngx os now joins grants fs clock single dirs zone rt reach clean in
      elim (Option-cases (try_zone ngx os now joins grants fs single dirs zone rt).1) [
        | inl failed ↦
            rw (failed, try_zones)
              (record { informed = d.informed; at_once = λ e. cc; told = λ e. cc })
        | inr (wait, e) ↦
            rw (e, try_zones)
              (step wait e (
                try_zones-ZonesDone zones (if wait then true else later)
                  (try_zone ngx os now joins grants fs single dirs zone rt).0 on.store cleans
                  (still-Listed rt.index _ zones d.informed.zones lists)))
      ]
    where
      step :
          (wait : Bool)
          → (try_zone ngx os now joins grants fs single dirs zone rt).1 ≡ some wait
          → {r : Runtime ngx × Attempt}
          → ZonesDone zones
              (if wait then true else later)
              (try_zone ngx os now joins grants fs single dirs zone rt).0
              r
          → ZonesDone (zone ∷ zones) later rt r
      step true e t =
          let d = try_zone-ZoneDone zone rt reach clean listed in
          record {
            informed = Informed-trans ngx now _ _ _ d.informed t.informed;
            at_once = λ x. absurd (true-ne-false (t.at_once x));
            told = λ x. absurd (true-ne-false (t.at_once x));
          }
      step false e t =
          let d = try_zone-ZoneDone zone rt reach clean listed in
          record {
            informed = Informed-trans ngx now _ _ _ d.informed t.informed;
            at_once = t.at_once;
            told = λ x. (λ c q. t.informed.kept zone.cache (d.told e c q), t.told x);
          }
