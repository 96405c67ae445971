-- ===== src/Runtime/Started.antt =====
-- What the start of a worker achieves (`init_runtime` in src/ngx_cache_pilot_index_runtime.c), for
-- the zones in shared memory and for the worker's own index of them.
use ngx_cache_pilot.Base.{
  ℕ, ◌≢◌, Bytes, Bool, true, false, ◌&&◌, ◌==◌, ◌≡◌, refl, sym, ap, ◌∙◌, Option, none, some, List,
  [], ◌∷◌, if◌then◌else◌, All, In, arith, true-ne-false,
}
use ngx_cache_pilot.Nginx.{Nginx}
use ngx_cache_pilot.Os.{Os}
use ngx_cache_pilot.Tree.{Tree, sentinel}
use ngx_cache_pilot.Store.{Store, no_state, get_zone_state}
use ngx_cache_pilot.Store.Runs.{Reachable}
use ngx_cache_pilot.Store.Flags.{is_booted, get_zone_state_flag}
use ngx_cache_pilot.Registry.{IndexZone, find_cache}
use ngx_cache_pilot.Registry.Caches.{OncePerCache}
use ngx_cache_pilot.Indexing.{Grants}
use ngx_cache_pilot.Runtime.{
  CacheDir, ZoneIndex, Runtime, Attempt, all_booted, deferred, boot_failed, init_zones,
  lookup_index_zone, try_bootstrap_zones,
}
use ngx_cache_pilot.Runtime.Zones.{other_caches, lookup_index_zone-init_zones}
use ngx_cache_pilot.Runtime.States.{
  zone_state_cache_sync, zone_bootstrap_complete, read, lookup_index_zone-zone_state_cache_sync,
  zone_bootstrap_complete-zone_state_cache_sync,
}
use ngx_cache_pilot.Runtime.Informed.{IsTrue, Informed, Told, Listed, try_zones-ZonesDone}
use ngx_cache_pilot.Runtime.Bootstrap.{Onward, CleanZone, Waits, Served, try_bootstrap_zones-Tried}
use ngx_cache_pilot.Runtime.Start.{Next, retry, settled, gave_up, next_of, init_runtime}

abbrev pub is_settled : Next → Bool
is_settled retry = false
is_settled settled = true
is_settled gave_up = false

module _ (ngx : Nginx) (os : Os) (now : ℕ) (joins : Bytes → Bool) (grants : Bytes → Grants)
    (fs : os.Fs) (clock : now ≢ 0) (single : Bool) (dirs : ℕ → Option CacheDir) where
  -- The result of a start over the store `s`.
  pub record Started (reader writer : Bool) (zones : List IndexZone) (s : Store ngx)
      (r : Runtime ngx × Next) : Type 0 where
    pub onward : Onward ngx os now joins grants fs s r.0.store
    pub found : (c : ℕ) → lookup_index_zone c r.0.index ≡ find_cache ngx c zones
    pub is_true :
        (c : ℕ) (z : IndexZone)
        → find_cache ngx c zones ≡ some z
        → zone_bootstrap_complete ngx now c r.0.index ≡ true
        → is_booted ngx r.0.store z.zone_name ≡ true
    pub known :
        (c : ℕ) (z : IndexZone)
        → find_cache ngx c zones ≡ some z
        → reader && is_booted ngx s z.zone_name ≡ true
        → zone_bootstrap_complete ngx now c r.0.index ≡ true
    pub served :
        writer && is_settled r.1 ≡ true
        → All (Served ngx os now joins grants fs clock single dirs r.0.store) zones
    pub told :
        writer && is_settled r.1 ≡ true
        → All (Told ngx os now joins grants fs clock single dirs r.0) zones
    pub waiting :
        r.1 ≡ retry
        → (zone : IndexZone) × In zone zones
          × Waits ngx os now joins grants fs clock single dirs zone

  -- The result of the attempt, for any outcome of it.
  record Attempted (writer : Bool) (zones : List IndexZone) (rt : Runtime ngx)
      (r : Runtime ngx × Attempt) : Type 0 where
    onward : Onward ngx os now joins grants fs rt.store r.0.store
    informed : Informed ngx now rt r.0
    served :
        writer && is_settled (next_of r.1) ≡ true
        → All (Served ngx os now joins grants fs clock single dirs r.0.store) zones
    told :
        writer && is_settled (next_of r.1) ≡ true
        → All (Told ngx os now joins grants fs clock single dirs r.0) zones
    waiting :
        next_of r.1 ≡ retry
        → (zone : IndexZone) × In zone zones
          × Waits ngx os now joins grants fs clock single dirs zone

  settled_attempt : (a : Attempt) → is_settled (next_of a) ≡ true → a ≡ all_booted
  unfolding next_of
  settled_attempt all_booted e = refl
  settled_attempt deferred e = absurd (true-ne-false (sym e))
  settled_attempt boot_failed e = absurd (true-ne-false (sym e))

  retried_attempt : (a : Attempt) → next_of a ≡ retry → a ≡ deferred
  unfolding next_of
  retried_attempt all_booted e = cc
  retried_attempt deferred e = refl
  retried_attempt boot_failed e = cc

  try_bootstrap_zones-Attempted :
      (writer : Bool) (zones : List IndexZone) (rt : Runtime ngx)
      → Reachable ngx rt.store
      → All (CleanZone ngx os now joins grants fs clock single dirs) zones
      → Listed ngx os now joins grants fs clock single dirs rt.index zones
      → Attempted writer zones rt
          (try_bootstrap_zones ngx os now joins grants fs writer single dirs zones rt)
  unfolding try_bootstrap_zones next_of
  try_bootstrap_zones-Attempted false zones rt reach clean listed = record {
    onward = record { store = reach; flags = λ q e. e };
    informed = record { zones = λ c. refl; kept = λ c e. e; is_true = λ h. h };
    served = λ e. absurd (true-ne-false (sym e));
    told = λ e. absurd (true-ne-false (sym e));
    waiting = λ e. cc;
  }
  try_bootstrap_zones-Attempted true zones rt reach clean listed =
      let (on, served, waits) =
        try_bootstrap_zones-Tried ngx os now joins grants fs clock single dirs zones rt reach
          clean in
      let d =
        try_zones-ZonesDone ngx os now joins grants fs clock single dirs zones false rt reach clean
          listed in
      record {
        onward = on;
        informed = d.informed;
        served = λ e. served (settled_attempt _ e);
        told = λ e. d.told (settled_attempt _ e);
        waiting = λ e. waits (retried_attempt _ e);
      }

  find_cache_other :
      (z : IndexZone) (zones ws : List IndexZone)
      → All (λ w. (z.cache == w.cache) ≡ false) ws
      → All (λ w. find_cache ngx w.cache zones ≡ some w) ws
      → All (λ w. find_cache ngx w.cache (z ∷ zones) ≡ some w) ws
  unfolding find_cache
  find_cache_other z zones [] d h = tt
  find_cache_other z zones (w ∷ ws) (d, ds) (h, hs) =
      (rw (d, find_cache) h, find_cache_other z zones ws ds hs)

  find_cache_each :
      (zones : List IndexZone)
      → OncePerCache ngx zones
      → All (λ z. find_cache ngx z.cache zones ≡ some z) zones
  unfolding find_cache
  find_cache_each [] once = tt
  find_cache_each (z ∷ zones) (apart, once) = (
    own,
    find_cache_other z zones zones (other_caches ngx z.cache zones apart)
        (find_cache_each zones once),
  )
    where
      own : find_cache ngx z.cache (z ∷ zones) ≡ some z
      own = ground arith

  -- The index after the synchronization.
  synced : Bool → List IndexZone → Store ngx → Tree ZoneIndex
  synced reader zones s =
      zone_state_cache_sync ngx now reader s zones (init_zones ngx zones sentinel)

  lookup_index_zone-synced :
      (reader : Bool) (zones : List IndexZone) (s : Store ngx) (c : ℕ)
      → OncePerCache ngx zones
      → lookup_index_zone c (synced reader zones s) ≡ find_cache ngx c zones
  unfolding synced
  lookup_index_zone-synced reader zones s c once =
      lookup_index_zone-zone_state_cache_sync ngx now reader s zones _ c
      ∙ lookup_index_zone-init_zones ngx zones c once

  all-Listed :
      (t : Tree ZoneIndex) (zones ws : List IndexZone)
      → ((c : ℕ) → lookup_index_zone c t ≡ find_cache ngx c zones)
      → All (λ w. find_cache ngx w.cache zones ≡ some w) ws
      → Listed ngx os now joins grants fs clock single dirs t ws
  all-Listed t zones [] f h = tt
  all-Listed t zones (w ∷ ws) f (h, hs) = (f w.cache ∙ h, all-Listed t zones ws f hs)

  zone_bootstrap_complete-synced :
      (reader : Bool) (zones : List IndexZone) (s : Store ngx) (c : ℕ) (z : IndexZone)
      → OncePerCache ngx zones
      → find_cache ngx c zones ≡ some z
      → zone_bootstrap_complete ngx now c (synced reader zones s)
        ≡ (reader && is_booted ngx s z.zone_name)
  unfolding synced
  zone_bootstrap_complete-synced reader zones s c z once there =
      zone_bootstrap_complete-zone_state_cache_sync ngx now reader s zones _ c z once
        (lookup_index_zone-init_zones ngx zones c once ∙ there)
      ∙ ap
          (λ o. elim o as (λ _. Bool) [
            | none ↦ zone_bootstrap_complete ngx now c (init_zones ngx zones sentinel)
            | some y ↦ (read ngx now reader s y).bootstrap_complete
          ])
          there
      ∙ by_reader reader
    where
      by_reader :
          (b : Bool)
          → (if b then get_zone_state ngx now s z.zone_name else no_state).bootstrap_complete
            ≡ (b && is_booted ngx s z.zone_name)
      by_reader true = get_zone_state_flag ngx now s z.zone_name
      by_reader false = refl

  -- The start of a worker over a reachable store, with NUL-free names, distinct caches and a clock that does not
  -- read 0: every zone that was bootstrapped stays so. The worker's index finds for each cache the zone that was
  -- registered for it, and nothing for another cache; it takes a zone for bootstrapped only if it is, and a worker with a
  -- reader knows each zone that was bootstrapped before. If a worker with a writer neither gives up nor sets the timer, each
  -- zone whose cache has a directory is bootstrapped and the worker knows it; a worker sets the timer only if the loader of one
  -- of the zones is still cold, in a server of several processes.
  pub init_runtime-Started :
      (reader writer : Bool) (zones : List IndexZone) (s : Store ngx)
      → Reachable ngx s
      → All (CleanZone ngx os now joins grants fs clock single dirs) zones
      → OncePerCache ngx zones
      → Started reader writer zones s
          (init_runtime ngx os now joins grants fs reader writer single dirs zones s)
  unfolding init_runtime synced
  init_runtime-Started reader writer zones s reach clean once =
      let found : (c : ℕ) → lookup_index_zone c (synced reader zones s) ≡ find_cache ngx c zones =
        λ c. lookup_index_zone-synced reader zones s c once in
      let rt : Runtime ngx = record { index = synced reader zones s; store = s } in
      let a =
        try_bootstrap_zones-Attempted writer zones rt reach clean
          (all-Listed (synced reader zones s) zones zones found (find_cache_each zones once)) in
      record {
        onward = a.onward;
        found = λ c. a.informed.zones c ∙ found c;
        is_true = λ c z there.
            a.informed.is_true (true_before found) c z (a.informed.zones c ∙ found c ∙ there);
        known = λ c z there booted.
            a.informed.kept c
              (zone_bootstrap_complete-synced reader zones s c z once there ∙ booted);
        served = a.served;
        told = a.told;
        waiting = a.waiting;
      }
    where
      right : (a b : Bool) → a && b ≡ true → b ≡ true
      right true b e = e
      right false b e = absurd (true-ne-false (sym e))

      true_before :
          ((c : ℕ) → lookup_index_zone c (synced reader zones s) ≡ find_cache ngx c zones)
          → IsTrue ngx now (synced reader zones s) s
      true_before found c z there told = right reader _ (
          sym (zone_bootstrap_complete-synced reader zones s c z once (sym (found c) ∙ there))
          ∙ told)
