-- ===== src/Purge/Cleared.antt =====
-- What a purge by tags leaves in the catalogue.
use ngx_cache_pilot.Base.{
  ℕ, suc, zero, Bytes, Bool, true, false, ◌≤◌, ◌≡◌, ◌≢◌, refl, ap, ◌∙◌, ◌==ᵇ◌, ==ᵇ_sound, Option,
  none, some, List, [], ◌∷◌, map, if◌then◌else◌, NulFree, arith, Bool-cases, Option-cases, inl, inr,
  none-ne-some, ◌&&◌, ◌+◌, ◌==◌,
}
use ngx_cache_pilot.Nginx.{Nginx, Rc, ok, declined, error}
use ngx_cache_pilot.Os.{Os}
use ngx_cache_pilot.FileCache.{Disk, by_path}
use ngx_cache_pilot.FileCache.Accounting.{Rc-cases}
use ngx_cache_pilot.Zone.Links.{has_path}
use ngx_cache_pilot.Upsert.{Meta}
use ngx_cache_pilot.Collect.Answers.{shares}
use ngx_cache_pilot.Store.{Store, collect_paths_by_tags, delete_file, get_zone_state}
use ngx_cache_pilot.Store.Zones.{IsStore}
use ngx_cache_pilot.Store.Catalogue.{catalogue, without_path}
use ngx_cache_pilot.Collect.Total.{tag_hits}
use ngx_cache_pilot.Store.Queries.{
  some_meta, collect_paths_total, files_of, collect_paths_by_tags-Answers, Answers,
}
use ngx_cache_pilot.Store.RoundTrips.{some_meta-without_path}
use ngx_cache_pilot.Store.Runs.{OnePerPath, Reachable, Reachable-IsStore, delete_file-Reachable}
use ngx_cache_pilot.Purge.{
  Outcome, purged, declined_for, not_found, failed, finish, purge_paths, purge,
}

pub some_meta-others :
    (test : Meta → Bool) (p q : Bytes) (ms : List Meta)
    → (q ==ᵇ p) ≡ false
    → some_meta test p (without_path q ms) ≡ some_meta test p ms
some_meta-others test p q [] d = refl
some_meta-others test p q (m ∷ ms) d = elim (Bool-cases (m.path ==ᵇ q)) [
  | inl hit ↦ rw (hit, ap (λ t. t ==ᵇ p) (==ᵇ_sound m.path q hit) ∙ d) refl
  | inr miss ↦
      rw miss
        (ap (λ b. if (m.path ==ᵇ p) && test m then true else b) (some_meta-others test p q ms d))
]

has_path_dropped :
    (p q : Bytes) (ms : List Meta)
    → has_path p (map (λ m. m.path) ms) ≡ false
    → has_path p (map (λ m. m.path) (without_path q ms)) ≡ false
has_path_dropped p q [] h = refl
has_path_dropped p q (m ∷ ms) h = ground (arith, has_path_dropped p q ms)

pub OnePerPath-without_path :
    (q : Bytes) (ms : List Meta) → OnePerPath ms → OnePerPath (without_path q ms)
OnePerPath-without_path q [] u = tt
OnePerPath-without_path q (m ∷ ms) (u, us) = elim (Bool-cases (m.path ==ᵇ q)) [
  | inl hit ↦ rw hit us
  | inr miss ↦ rw miss (has_path_dropped m.path q ms u, OnePerPath-without_path q ms us)
]

-- The entries that are left when those under the paths go.
abbrev pub without_paths : List Bytes → List Meta → List Meta
without_paths [] ms = ms
without_paths (p ∷ ps) ms = without_paths ps (without_path p ms)

pub some_meta-without_paths :
    (test : Meta → Bool) (p : Bytes) (ps : List Bytes) (ms : List Meta)
    → OnePerPath ms
    → some_meta test p (without_paths ps ms)
      ≡ (if has_path p ps then false else some_meta test p ms)
some_meta-without_paths test p [] ms u = refl
some_meta-without_paths test p (q ∷ ps) ms u =
    some_meta-without_paths test p ps (without_path q ms) (OnePerPath-without_path q ms u)
    ∙ elim (Bool-cases (q ==ᵇ p)) [
      | inl same ↦
          rw (same, ← ==ᵇ_sound q p same, some_meta-without_path test q ms u) (both (has_path q ps))
      | inr other ↦ rw (other, some_meta-others test p q ms other) refl
    ]
  where
    both : (b : Bool) → (if b then false else false) ≡ false
    both true = refl
    both false = refl

abbrev has_error : List Rc → Bool
has_error [] = false
has_error (rc ∷ rcs) = elim rc [ ok ↦ has_error rcs | declined ↦ has_error rcs | error ↦ true ]

abbrev count_ok : List Rc → ℕ
count_ok [] = 0
count_ok (rc ∷ rcs) = elim rc [
  | ok ↦ suc (count_ok rcs)
  | declined ↦ count_ok rcs
  | error ↦ count_ok rcs
]

-- What the client is told, from the answers for the single files: an error of one of them, and else
-- how many were purged.
abbrev pub outcome_of : List Rc → Outcome
outcome_of rcs =
    if has_error rcs
    then failed
    else if count_ok rcs == 0
    then declined_for not_found
    else purged (count_ok rcs)

finish_total :
    {Cache S : Type 0} (r : Cache × S × Option ℕ) (rcs : List Rc)
    → r.2 ≡ (if has_error rcs then none else some (count_ok rcs))
    → (finish r).2 ≡ outcome_of rcs
unfolding finish
finish_total (c, s, o) rcs e = rw e (by_error (has_error rcs) (count_ok rcs))
  where
    by_error :
        (b : Bool) (n : ℕ)
        → (finish (c, s, if b then none else some n)).2
          ≡ (if b then failed else if n == 0 then declined_for not_found else purged n)
    by_error true n = refl
    by_error false zero = refl
    by_error false (suc n) = ground arith

finish_lem :
    {Cache S : Type 0} (r : Cache × S × Option ℕ)
    → (finish r).2 ≢ failed
    → (n : ℕ) × (r.2 ≡ some n) × ((finish r).1 ≡ r.1)
unfolding finish
finish_lem (c, s, none) h = absurd (h refl)
finish_lem (c, s, some zero) h = (0, refl, refl)
finish_lem (c, s, some (suc n)) h = (suc n, refl, refl)

module _ (ngx : Nginx) (os : Os) where
  -- The answers for the paths in turn, each on the disk that the one before left.
  abbrev pub answers : Bool → Disk ngx os → List Bytes → List Rc
  answers soft disk [] = []
  answers soft disk (p ∷ ps) =
      (by_path ngx os soft disk p).1 ∷ answers soft (by_path ngx os soft disk p).0 ps

module _ (ngx : Nginx) (os : Os) (now : ℕ) where
  -- A hard purge of paths that does not fail deletes all of them from the catalogue.
  purge_paths-catalogue :
      (paths : List Bytes) (disk : Disk ngx os) (s : Store ngx) (name : Bytes) (count n : ℕ)
      → Reachable ngx s
      → NulFree name
      → (purge_paths ngx os now false disk s name count paths).2 ≡ some n
      → let s' = (purge_paths ngx os now false disk s name count paths).1 in
        Reachable ngx s' × (catalogue ngx s' name ≡ without_paths paths (catalogue ngx s name))
  unfolding purge_paths
  purge_paths-catalogue [] disk s name count n r nul e = (r, refl)
  purge_paths-catalogue (p ∷ ps) disk s name count n r nul e =
      elim (Rc-cases (by_path ngx os false disk p).1) [
        | inl c ↦
            rw (c, purge_paths)
              (after (suc count) (
                purge_paths-catalogue ps _ _ name (suc count) n step.0 nul
                  (rw (c, purge_paths) at e)))
        | inr (inl c) ↦
            rw (c, purge_paths)
              (after count
                (purge_paths-catalogue ps _ _ name count n step.0 nul (rw (c, purge_paths) at e)))
        | inr (inr c) ↦ absurd (none-ne-some {a = n} (rw (c, purge_paths) at e))
      ]
    where
      step :
          Reachable ngx (delete_file ngx now s name p)
          × (catalogue ngx (delete_file ngx now s name p) name
              ≡ without_path p (catalogue ngx s name))
      step = delete_file-Reachable ngx now s name p r nul

      after :
          (count' : ℕ)
          → let s' =
              (purge_paths ngx os now false
                (by_path ngx os false disk p).0
                (delete_file ngx now s name p)
                name
                count'
                ps).1 in
            Reachable ngx s'
              × (catalogue ngx s' name
                  ≡ without_paths ps (catalogue ngx (delete_file ngx now s name p) name))
            → Reachable ngx s'
              × (catalogue ngx s' name ≡ without_paths (p ∷ ps) (catalogue ngx s name))
      after count' (r', c) = (r', c ∙ ap (without_paths ps) step.1)

  -- A hard purge by tags of a registered zone that is bootstrapped, with the index configured, over a reachable store that
  -- can be read and with an array for the result: if it does not fail, then at its end the paths of the entries with one of
  -- the tags are gone from the zone's catalogue, also those of files that were not there, and for every other path it
  -- answers each question as before.
  pub purge-cleared :
      (room : ℕ) (disk : Disk ngx os) (s : Store ngx) (name : Bytes) (tags : List Bytes)
      → Reachable ngx s
      → NulFree name
      → (get_zone_state ngx now s name).bootstrap_complete ≡ true
      → let r = purge ngx os now false true (some name) true true room disk s tags in
        r.2 ≢ failed
        → (test : Meta → Bool) (p : Bytes)
        → some_meta test p (catalogue ngx r.1 name) ≡ (
            if some_meta (λ m. shares tags m.tags) p (catalogue ngx s name)
            then false
            else some_meta test p (catalogue ngx s name))
  unfolding purge
  purge-cleared room disk s name tags r nul ready done test p =
      elim (Option-cases (collect_paths_by_tags ngx true room s name tags)) [
        | inl none_there ↦ absurd ((rw (ready, purge, none_there) at done) refl)
        | inr ((left, paths), there) ↦
            rw (ready, purge, there) (cleared left paths there (rw (ready, purge, there) at done))
      ]
    where
      cleared :
          (left : ℕ) (paths : List Bytes)
          → collect_paths_by_tags ngx true room s name tags ≡ some (left, paths)
          → (finish (purge_paths ngx os now false disk s name 0 paths)).2 ≢ failed
          → some_meta test p
              (catalogue ngx (finish (purge_paths ngx os now false disk s name 0 paths)).1 name)
            ≡ (if some_meta (λ m. shares tags m.tags) p (catalogue ngx s name)
                then false
                else some_meta test p (catalogue ngx s name))
      cleared left paths there done =
          let (n, whole, same) = finish_lem _ done in
          let (_, gone) = purge_paths-catalogue paths disk s name 0 n r nul whole in
          let (v, one) = Reachable-IsStore ngx s r in
          let (_, answer) =
            collect_paths_by_tags-Answers ngx s v name true room left tags paths there in
          ap (λ x. some_meta test p (catalogue ngx x name)) same
          ∙ ap (some_meta test p) gone
          ∙ some_meta-without_paths test p paths (catalogue ngx s name) (one name)
          ∙ ap (λ b. if b then false else some_meta test p (catalogue ngx s name)) (answer p)

  purge_paths-answers :
      (soft : Bool) (paths : List Bytes) (disk : Disk ngx os) (s : Store ngx) (name : Bytes)
      (count : ℕ)
      → (purge_paths ngx os now soft disk s name count paths).2 ≡ (
          if has_error (answers ngx os soft disk paths)
          then none
          else some (count + count_ok (answers ngx os soft disk paths)))
  unfolding purge_paths
  purge_paths-answers soft [] disk s name count = ap some (omega arith)
  purge_paths-answers soft (p ∷ ps) disk s name count =
      elim (Rc-cases (by_path ngx os soft disk p).1) [
        | inl c ↦
            rw (c, purge_paths)
              (purge_paths-answers soft ps _ _ name (suc count)
                ∙ ap
                    (λ n.
                      if has_error (answers ngx os soft (by_path ngx os soft disk p).0 ps)
                      then none
                      else some n)
                    (omega arith))
        | inr (inl c) ↦ rw (c, purge_paths) (purge_paths-answers soft ps _ _ name count)
        | inr (inr c) ↦ rw (c, purge_paths) refl
      ]

  -- A purge by tags of a registered zone that is bootstrapped, in either mode, with the index configured, over a
  -- well-formed store that can be read, with an array for the result and room for the paths of the tags: it works through
  -- a list that has the path of each entry with one of the tags once and no other. It fails if one of the files answers
  -- with an error; else it tells how many were purged, if any was, and that nothing was found, if none was.
  pub purge-outcome_of :
      (soft : Bool) (room : ℕ) (disk : Disk ngx os) (s : Store ngx) (name : Bytes)
      (tags : List Bytes) (v : IsStore ngx s)
      → (get_zone_state ngx now s name).bootstrap_complete ≡ true
      → tag_hits tags (files_of ngx s v name) ≤ room
      → (paths : List Bytes) × Answers (λ m. shares tags m.tags) (catalogue ngx s name) paths
        × ((purge ngx os now soft true (some name) true true room disk s tags).2
            ≡ outcome_of (answers ngx os soft disk paths))
  unfolding purge
  purge-outcome_of soft room disk s name tags v ready h =
      let (left, paths, there) = (collect_paths_total ngx s v name room tags [] []).0 h in
      (
        paths,
        collect_paths_by_tags-Answers ngx s v name true room left tags paths there,
        rw (ready, purge, there)
            (finish_total (purge_paths ngx os now soft disk s name 0 paths)
              (answers ngx os soft disk paths)
              (purge_paths-answers soft paths disk s name 0
                ∙ ap (λ n. if has_error (answers ngx os soft disk paths) then none else some n)
                    (omega arith))),
      )
