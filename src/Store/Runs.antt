-- ===== src/Store/Runs.antt =====
-- Runs of the store: any operations of any worker, one after the other under the lock, from the empty
-- shared memory on (src/ngx_cache_pilot_index_store.c).
use ngx_cache_pilot.Base.{
  ℕ, ◌≢◌, Bytes, true, ◌≡◌, refl, sym, ap, ◌∙◌, ◌==ᵇ◌, ==ᵇ_sound, ==ᵇ_refl, some, List, [], ◌∷◌,
  map, if◌then◌else◌, NulFree, All, arith, Bool-cases, Option-cases, inl, inr, subst, true-ne-false,
}
use ngx_cache_pilot.Nginx.{Nginx}
use ngx_cache_pilot.Zone.{File, Zone, Pool}
use ngx_cache_pilot.Zone.Links.{has_path, has_file, UniquePaths}
use ngx_cache_pilot.Zone.Invariant.{IsZone}
use ngx_cache_pilot.Upsert.{Meta}
use ngx_cache_pilot.Collect.Unique.{Distinct}
use ngx_cache_pilot.Store.{
  Store, ZoneState, lookup_zone, write_zone, write_state, normalize_zone_state, get_zone_locked,
  get_zone_state, set_zone_state, upsert_file_meta, delete_file,
}
use ngx_cache_pilot.Store.States.{normalize_zone_state_normal, normalize_zone_state-IsNormal}
use ngx_cache_pilot.Store.Zones.{
  IsStore, IsReady, names, GotZone, get_zone_locked-GotZone, write_zone-IsStore, lookup_zone_sound,
}
use ngx_cache_pilot.Store.Catalogue.{
  without_path, meta_of, catalogue, contents, contents-before, upsert_file_meta-catalogue,
  delete_file-catalogue,
}

-- No path has two entries.
abbrev pub OnePerPath : List Meta → Type 0
OnePerPath ms = Distinct (map (λ m. m.path) ms)

module _ (ngx : Nginx) where
  write_state-IsZone :
      (st : ZoneState) (z : Zone) → IsZone ngx z → IsZone ngx (write_state ngx st z)
  write_state-IsZone st z v = record {
    keys = v.keys;
    tags = v.tags;
    paths = v.paths;
    unique = v.unique;
    agree = v.agree;
    key_queues = v.key_queues;
    tag_queues = v.tag_queues;
  }

  -- Setting the state of a zone with a NUL-free name keeps a well-formed store well formed and the catalogue of every zone, and on
  -- success a later read gives the normalized state; the clock does not read 0.
  pub set_zone_state-catalogue :
      (now now' : ℕ) (s : Store ngx) (name : Bytes) (st : ZoneState)
      → IsStore ngx s
      → NulFree name
      → now ≢ 0
      → let r = set_zone_state ngx now s name st in
        IsStore ngx r.0
        × ((q : Bytes) → catalogue ngx r.0 q ≡ catalogue ngx s q)
        × (r.1 ≡ true → get_zone_state ngx now' r.0 name ≡ normalize_zone_state now st)
  unfolding set_zone_state get_zone_state
  set_zone_state-catalogue now now' s name st v n clock =
      elim (get_zone_locked-GotZone ngx s name v n) [
        | inl (refused, zones, gone) ↦
            rw (refused, set_zone_state)
              (
                record {
                  ready = subst (All (IsReady ngx)) (sym zones) v.ready;
                  unique = subst (λ zs. Distinct (names zs)) (sym zones) v.unique;
                },
                λ q. ap (λ zs. contents (lookup_zone q zs)) zones,
                λ h. absurd (true-ne-false (sym h)),
              )
        | inr (z, found, g) ↦ rw (found, set_zone_state) (set z g)
      ]
    where
      kept :
          (z : Zone) (s' : Store ngx) (q : Bytes)
          → GotZone ngx s s' name z
          → contents (
              if name ==ᵇ q
              then some (write_state ngx (normalize_zone_state now st) z)
              else lookup_zone q s'.zones)
            ≡ catalogue ngx s q
      kept z s' q g = elim (Bool-cases (name ==ᵇ q)) [
        | inl same ↦
            rw same
              (contents-before ngx s s' name z g ∙ ap (catalogue ngx s) (==ᵇ_sound name q same))
        | inr differs ↦ rw differs (ap contents (g.others q differs))
      ]

      set :
          (z : Zone)
          → GotZone ngx s (get_zone_locked ngx s name true).0 name z
          → let s' = (get_zone_locked ngx s name true).0 in
            let r : Store ngx = record {
              pool = s'.pool;
              zones = write_zone name (write_state ngx (normalize_zone_state now st) z) s'.zones;
            } in
            IsStore ngx r
            × ((q : Bytes) → catalogue ngx r q ≡ catalogue ngx s q)
            × (true ≡ true → get_zone_state ngx now' r name ≡ normalize_zone_state now st)
      set z g =
          let (v', found) =
            write_zone-IsStore ngx _ name z (write_state ngx (normalize_zone_state now st) z) _
              g.store n g.there refl
              (write_state-IsZone (normalize_zone_state now st) z g.ready.zone) g.ready.settled in
          (
            v',
            λ q. ap contents (found q) ∙ kept z _ q g,
            λ _.
                rw (found name, get_zone_state, ==ᵇ_refl name)
                  (normalize_zone_state_normal now' (normalize_zone_state now st)
                    (normalize_zone_state-IsNormal now st clock)),
          )

  -- One operation of a worker.
  pub data Step (s : Store ngx) : Store ngx → Type 0 where
    upserted :
        (now : ℕ) (name : Bytes) (m : Meta)
        → NulFree name
        → NulFree m.path
        → Step s (upsert_file_meta ngx now s name m).0
    deleted :
        (now : ℕ) (name path : Bytes) → NulFree name → Step s (delete_file ngx now s name path)
    state_set :
        (now : ℕ) (name : Bytes) (st : ZoneState)
        → NulFree name
        → now ≢ 0
        → Step s (set_zone_state ngx now s name st).0

  pub data Reachable : Store ngx → Type 0 where
    start : (pool : Pool ngx) → Reachable (record { pool = pool; zones = [] })
    next : (s s' : Store ngx) → Reachable s → Step s s' → Reachable s'

  Step-IsStore : (s s' : Store ngx) → Step s s' → IsStore ngx s → IsStore ngx s'
  Step-IsStore s _ (upserted now name m n np) v =
      (upsert_file_meta-catalogue ngx now s name m v n np).0
  Step-IsStore s _ (deleted now name path n) v = (delete_file-catalogue ngx now s name path v n).0
  Step-IsStore s _ (state_set now name st n clock) v =
      (set_zone_state-catalogue now now s name st v n clock).0

  UniquePaths-OnePerPath : (fs : List File) → UniquePaths fs → OnePerPath (map meta_of fs)
  UniquePaths-OnePerPath [] u = tt
  UniquePaths-OnePerPath (f ∷ fs) (u, us) = (same fs ∙ u, UniquePaths-OnePerPath fs us)
    where
      same :
          (gs : List File)
          → has_path f.path (map (λ m. m.path) (map meta_of gs)) ≡ has_file f.path gs
      same [] = refl
      same (g ∷ gs) = ground (arith, same gs)

  -- In every store that a run reaches the zones are well formed, and no catalogue has a path twice.
  pub Reachable-IsStore :
      (s : Store ngx) → Reachable s → IsStore ngx s × ((q : Bytes) → OnePerPath (catalogue ngx s q))
  Reachable-IsStore s r = (holds s r, λ q. one q (holds s r))
    where
      holds : (s : Store ngx) → Reachable s → IsStore ngx s
      holds _ (start pool) = record { ready = tt; unique = tt }
      holds s' (next s _ r step) = Step-IsStore s s' step (holds s r)

      one : (q : Bytes) → IsStore ngx s → OnePerPath (catalogue ngx s q)
      one q v = elim (Option-cases (lookup_zone q s.zones)) [
        | inl e ↦ rw e tt
        | inr (z, e) ↦ rw e (
            UniquePaths-OnePerPath z.files
              (lookup_zone_sound ngx q s.zones z v.ready e).1.zone.unique)
      ]

  -- A deletion in a reachable store, for its own zone.
  pub delete_file-Reachable :
      (now : ℕ) (s : Store ngx) (name path : Bytes)
      → Reachable s
      → NulFree name
      → Reachable (delete_file ngx now s name path)
        × (catalogue ngx (delete_file ngx now s name path) name
            ≡ without_path path (catalogue ngx s name))
  delete_file-Reachable now s name path r n = (
    next s _ r (deleted now name path n),
    (delete_file-catalogue ngx now s name path (Reachable-IsStore s r).0 n).1 name
        ∙ (rw (==ᵇ_refl name) refl),
  )
