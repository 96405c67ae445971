-- ===== src/Runtime/Bootstrap.antt =====
-- What the bootstrap of the zones achieves.
use ngx_cache_pilot.Base.{
  ℕ, Bytes, Bool, true, false, not, ◌&&◌, ◌≡◌, ◌≢◌, refl, sym, ap, ◌∙◌, ◌==ᵇ◌, ==ᵇ_refl, Option,
  some, some-inj, none-ne-some, List, [], ◌∷◌, if◌then◌else◌, NulFree, All, In, Bool-cases,
  Option-cases, ◌⊎◌, inl, inr, true-ne-false,
}
use ngx_cache_pilot.Nginx.{Nginx, ok, declined, error}
use ngx_cache_pilot.Os.{Os}
use ngx_cache_pilot.Store.{Store, get_zone_state, set_zone_state}
use ngx_cache_pilot.Store.Queries.{some_meta}
use ngx_cache_pilot.Store.Runs.{
  Reachable, Reachable-IsStore, next, state_set, set_zone_state-catalogue,
}
use ngx_cache_pilot.Store.Flags.{is_booted, get_zone_state_flag, is_booted-set_zone_state}
use ngx_cache_pilot.FileCache.Accounting.{Rc-cases}
use ngx_cache_pilot.Registry.{IndexZone}
use ngx_cache_pilot.Indexing.{Grants}
use ngx_cache_pilot.Runtime.{
  CacheDir, Runtime, Attempt, all_booted, deferred, booted, scan_recursive, scan_zone,
  bootstrap_zone, try_zone, try_zones, try_bootstrap_zones,
}
use ngx_cache_pilot.Runtime.Scan.{files_below, Scanned, Kept, scan_recursive-ScanDone}

declined-ne-error : declined ≢ error
declined-ne-error e = cc

ok-ne-error : ok ≢ error
ok-ne-error e = cc

module _ (ngx : Nginx) (os : Os) (now : ℕ) (joins : Bytes → Bool) (grants : Bytes → Grants)
    (fs : os.Fs) where
  -- The store `s'` after a step of a bootstrap: reachable, and with every zone bootstrapped that was.
  pub record Onward (s s' : Store ngx) : Type 0 where
    pub store : Reachable ngx s'
    pub flags : (q : Bytes) → is_booted ngx s q ≡ true → is_booted ngx s' q ≡ true

  Onward-trans : (s s' s'' : Store ngx) → Onward s s' → Onward s' s'' → Onward s s''
  Onward-trans s s' s'' a b = record { store = b.store; flags = λ q e. b.flags q (a.flags q e) }

  -- A successful bootstrap of a zone: it is marked, and its catalogue holds the files below the
  -- directory.
  pub record Booted (zone : IndexZone) (c : CacheDir) (s s' : Store ngx) : Type 0 where
    pub marked : is_booted ngx s' zone.zone_name ≡ true
    pub scanned : Scanned ngx os now joins grants fs zone (files_below c.path c.dir) s s'

  scan_zone_lem :
      (zone : IndexZone) (c : CacheDir) (s : Store ngx)
      → Reachable ngx s
      → NulFree zone.zone_name
      → All NulFree (files_below c.path c.dir)
      → let r = scan_zone ngx os now joins grants fs zone (some c) s in
        Kept ngx os now joins grants fs zone s r.0
        × (r.1 ≡ ok → Scanned ngx os now joins grants fs zone (files_below c.path c.dir) s r.0)
  unfolding scan_zone
  scan_zone_lem zone c s r n clean =
      let (k, done) =
        scan_recursive-ScanDone ngx os now joins grants fs zone n c.dir c.path s r clean in
      elim (Rc-cases (scan_recursive ngx os now joins grants fs 0 zone c.path c.dir s).1) [
        | inl e ↦ rw (e, scan_zone) (k, λ _. done (λ x. ok-ne-error (sym e ∙ x)))
        | inr (inl e) ↦ rw (e, scan_zone) (k, λ x. done (λ y. declined-ne-error (sym e ∙ y)))
        | inr (inr e) ↦ rw (e, scan_zone) (k, λ x. absurd (ok-ne-error (sym x)))
      ]

  module _ (clock : now ≢ 0) where
    mark_zone :
        (zone : IndexZone) (c : CacheDir) (s u : Store ngx)
        → NulFree zone.zone_name
        → Kept ngx os now joins grants fs zone s u
        → Scanned ngx os now joins grants fs zone (files_below c.path c.dir) s u
        → let r = set_zone_state ngx now u zone.zone_name (booted now) in
          Onward s r.0 × (r.1 ≡ true → Booted zone c s r.0)
    mark_zone zone c s u n k done =
        let (v, _) = Reachable-IsStore ngx u k.store in
        let (_, same, _) =
          set_zone_state-catalogue ngx now now u zone.zone_name (booted now) v n clock in
        let set =
          λ (q : Bytes). is_booted-set_zone_state ngx now u zone.zone_name (booted now) q v n in
        (
          record {
            store = next u _ k.store (state_set now zone.zone_name (booted now) n clock);
            flags = λ q e. onward q (k.flags q ∙ e);
          },
          λ fine. record {
            marked = (set zone.zone_name).0 fine ∙ (rw (==ᵇ_refl zone.zone_name) refl);
            scanned = record {
              entries = λ test p. ap (some_meta test p) (same zone.zone_name) ∙ done.entries test p;
            };
          },
        )
      where
        onward :
            (q : Bytes)
            → is_booted ngx u q ≡ true
            → is_booted ngx (set_zone_state ngx now u zone.zone_name (booted now)).0 q ≡ true
        onward q e =
            let (v, _) = Reachable-IsStore ngx u k.store in
            let set = is_booted-set_zone_state ngx now u zone.zone_name (booted now) q v n in
            elim (Bool-cases (set_zone_state ngx now u zone.zone_name (booted now)).1) [
              | inr failed ↦ set.1 failed ∙ e
              | inl fine ↦ set.0 fine ∙ elim (Bool-cases (zone.zone_name ==ᵇ q)) [
                | inl hit ↦ rw hit refl
                | inr miss ↦ rw miss e
              ]
            ]

    -- The bootstrap of a zone with NUL-free names, whose cache has a directory, in a reachable store, with a clock that does not read 0:
    -- the store stays reachable and every bootstrapped zone stays so; on success the zone is bootstrapped, each path of a file below the directory has
    -- exactly the entry that the file was parsed to, and every other path of the zone keeps its entry.
    pub bootstrap_zone-Booted :
        (zone : IndexZone) (c : CacheDir) (s : Store ngx)
        → Reachable ngx s
        → NulFree zone.zone_name
        → All NulFree (files_below c.path c.dir)
        → let r = bootstrap_zone ngx os now joins grants fs zone (some c) s in
          Onward s r.0 × (r.1 ≡ true → Booted zone c s r.0)
    unfolding bootstrap_zone
    bootstrap_zone-Booted zone c s r n clean =
        let (k, done) = scan_zone_lem zone c s r n clean in
        let stopped : Onward s (scan_zone ngx os now joins grants fs zone (some c) s).0 = record {
          store = k.store;
          flags = λ q e. k.flags q ∙ e;
        } in
        elim (Rc-cases (scan_zone ngx os now joins grants fs zone (some c) s).1) [
          | inl e ↦ rw (e, bootstrap_zone) (mark_zone zone c s _ n k (done e))
          | inr (inl e) ↦ rw (e, bootstrap_zone) (stopped, λ x. absurd (true-ne-false (sym x)))
          | inr (inr e) ↦ rw (e, bootstrap_zone) (stopped, λ x. absurd (true-ne-false (sym x)))
        ]

    module _ (single : Bool) (dirs : ℕ → Option CacheDir) where
      -- The names of a zone, and of the files below its directory, are free of NUL.
      pub record CleanZone (zone : IndexZone) : Type 0 where
        pub named : NulFree zone.zone_name
        pub files :
            (c : CacheDir) → dirs zone.cache ≡ some c → All NulFree (files_below c.path c.dir)

      -- The zone's loader is still cold, in a server of several processes.
      abbrev pub Waits : IndexZone → Type 0
      Waits zone = (c : CacheDir) × (dirs zone.cache ≡ some c) × (c.cold && not single ≡ true)

      -- The zone is bootstrapped, if its cache has a directory.
      abbrev pub Served : Store ngx → IndexZone → Type 0
      Served s zone =
          (c : CacheDir) → dirs zone.cache ≡ some c → is_booted ngx s zone.zone_name ≡ true

      not_both : some false ≢ some true
      not_both e = true-ne-false (sym (some-inj e))

      pub try_zone_lem :
          (zone : IndexZone) (rt : Runtime ngx)
          → Reachable ngx rt.store
          → CleanZone zone
          → let r = try_zone ngx os now joins grants fs single dirs zone rt in
            Onward rt.store r.0.store
            × (r.1 ≡ some false → Served r.0.store zone)
            × (r.1 ≡ some true → Waits zone)
      unfolding try_zone
      try_zone_lem zone rt reach clean = elim (Option-cases (dirs zone.cache)) [
        | inl nowhere ↦
            rw (nowhere, try_zone)
              (here, λ e c q. absurd (none-ne-some {a = c} q), λ e. absurd (not_both e))
        | inr (c, there) ↦ elim (Bool-cases (c.cold && not single)) [
          | inl cold ↦
              rw (there, try_zone, cold)
                (here, λ e. absurd (not_both (sym e)), λ e. (c, refl, cold))
          | inr warm ↦
              elim (Bool-cases
                (get_zone_state ngx now rt.store zone.zone_name).bootstrap_complete) [
                  | inl ready ↦
                      rw (there, try_zone, warm, ready)
                        (
                          here,
                          λ e c' q.
                              sym (get_zone_state_flag ngx now rt.store zone.zone_name) ∙ ready,
                          λ e. absurd (not_both e),
                        )
                  | inr unready ↦
                      let (on, boots) =
                        bootstrap_zone-Booted zone c rt.store reach clean.named
                          (clean.files c there) in
                      elim (Bool-cases
                        (bootstrap_zone ngx os now joins grants fs zone (some c) rt.store).1) [
                          | inl fine ↦
                              rw (there, try_zone, warm, unready, fine)
                                (on, λ e c' q. (boots fine).marked, λ e. absurd (not_both e))
                          | inr failed ↦
                              rw (there, try_zone, warm, unready, failed)
                                (
                                  on,
                                  λ e. absurd (none-ne-some {a = false} e),
                                  λ e. absurd (none-ne-some {a = true} e),
                                )
                        ]
                ]
        ]
      ]
        where
          here : Onward rt.store rt.store
          here = record { store = reach; flags = λ q e. e }

      -- The result of the attempt `r` from `rt` on, for the zones still to come; `later` tells whether an earlier one waits.
      pub record Tried (zones : List IndexZone) (later : Bool) (rt : Runtime ngx)
          (r : Runtime ngx × Attempt) : Type 0 where
        pub onward : Onward rt.store r.0.store
        pub served : r.1 ≡ all_booted → All (Served r.0.store) zones
        pub at_once : r.1 ≡ all_booted → later ≡ false
        pub waiting :
            r.1 ≡ deferred → (later ≡ true) ⊎ ((zone : IndexZone) × In zone zones × Waits zone)

      finished-Tried :
          (later : Bool) (rt : Runtime ngx)
          → Reachable ngx rt.store
          → Tried [] later rt (rt, if later then deferred else all_booted)
      finished-Tried true rt reach = record {
        onward = record { store = reach; flags = λ q e. e };
        served = λ e. tt;
        at_once = λ e. cc;
        waiting = λ e. inl refl;
      }
      finished-Tried false rt reach = record {
        onward = record { store = reach; flags = λ q e. e };
        served = λ e. tt;
        at_once = λ e. refl;
        waiting = λ e. cc;
      }

      try_zones-Tried :
          (zones : List IndexZone) (later : Bool) (rt : Runtime ngx)
          → Reachable ngx rt.store
          → All CleanZone zones
          → Tried zones later rt (try_zones ngx os now joins grants fs single dirs later zones rt)
      unfolding try_zones
      try_zones-Tried [] later rt reach clean = finished-Tried later rt reach
      try_zones-Tried (zone ∷ zones) later rt reach (clean, cleans) =
          let (on, serves, waits) = try_zone_lem zone rt reach clean in
          elim (Option-cases (try_zone ngx os now joins grants fs single dirs zone rt).1) [
            | inl failed ↦
                rw (failed, try_zones)
                  (record { onward = on; served = λ e. cc; at_once = λ e. cc; waiting = λ e. cc })
            | inr (wait, e) ↦
                rw (e, try_zones)
                  (step wait e
                    (try_zones-Tried zones (if wait then true else later) _ on.store cleans))
          ]
        where
          step :
              (wait : Bool)
              → (try_zone ngx os now joins grants fs single dirs zone rt).1 ≡ some wait
              → {r : Runtime ngx × Attempt}
              → Tried zones
                  (if wait then true else later)
                  (try_zone ngx os now joins grants fs single dirs zone rt).0
                  r
              → Tried (zone ∷ zones) later rt r
          step true e t =
              let (on, _, waits) = try_zone_lem zone rt reach clean in
              record {
                onward = Onward-trans _ _ _ on t.onward;
                served = λ x. absurd (true-ne-false (t.at_once x));
                at_once = λ x. absurd (true-ne-false (t.at_once x));
                waiting = λ x. inr (zone, inl refl, waits e);
              }
          step false e t =
              let (on, serves, _) = try_zone_lem zone rt reach clean in
              record {
                onward = Onward-trans _ _ _ on t.onward;
                served = λ x. (λ c q. t.onward.flags zone.zone_name (serves e c q), t.served x);
                at_once = t.at_once;
                waiting = λ x. elim (t.waiting x) [
                  | inl before ↦ inl before
                  | inr (z, m, w) ↦ inr (z, inr m, w)
                ];
              }

      -- An attempt to bootstrap the zones, of a worker with a writer, over a reachable store, with NUL-free names and a clock that does not read 0: every
      -- zone that was bootstrapped stays so. If it ends well, each zone whose cache has a directory is bootstrapped; it is deferred only if
      -- the loader of one of the zones is still cold, in a server of several processes.
      pub try_bootstrap_zones-Tried :
          (zones : List IndexZone) (rt : Runtime ngx)
          → Reachable ngx rt.store
          → All CleanZone zones
          → let r = try_bootstrap_zones ngx os now joins grants fs true single dirs zones rt in
            Onward rt.store r.0.store
            × (r.1 ≡ all_booted → All (Served r.0.store) zones)
            × (r.1 ≡ deferred → (zone : IndexZone) × In zone zones × Waits zone)
      unfolding try_bootstrap_zones
      try_bootstrap_zones-Tried zones rt reach clean =
          let t = try_zones-Tried zones false rt reach clean in
          (
            t.onward,
            t.served,
            λ x. elim (t.waiting x) [
              | inl before ↦ absurd (true-ne-false (sym before))
              | inr waits ↦ waits
            ],
          )
