-- ===== src/Runtime/Scan.antt =====
-- What a scan of a directory does to the catalogue.
use ngx_cache_pilot.Base.{
  ℕ, Bytes, Bool, true, false, ◌≡◌, ◌≢◌, refl, sym, ap, ◌∙◌, ◌==ᵇ◌, ==ᵇ_sound, Option, List, [],
  ◌∷◌, ◌++◌, if◌then◌else◌, NulFree, All, All-append_split, Bool-cases, inl, inr,
}
use ngx_cache_pilot.Nginx.{Nginx, Rc, ok, declined, error}
use ngx_cache_pilot.Os.{Os}
use ngx_cache_pilot.Zone.Links.{has_path, has_path-append}
use ngx_cache_pilot.Upsert.{Meta}
use ngx_cache_pilot.Store.{Store}
use ngx_cache_pilot.Store.Catalogue.{catalogue}
use ngx_cache_pilot.Store.Queries.{some_meta}
use ngx_cache_pilot.Store.Runs.{Reachable}
use ngx_cache_pilot.Store.Flags.{is_booted}
use ngx_cache_pilot.FileCache.Accounting.{Rc-cases}
use ngx_cache_pilot.Registry.{IndexZone}
use ngx_cache_pilot.Indexing.{Grants, parse_file}
use ngx_cache_pilot.Indexing.Entries.{parsed, Indexed, process_file-Indexed}
use ngx_cache_pilot.Runtime.{
  Dir, DirEntries, unreadable, listing, no_entries, dir_entry, file_entry, other_entry, join_path,
  scan_file, is_old, scan_recursive, scan_entries,
}

-- The files below a directory, as far as it can be read.
unfoldable mutual
  pub files_below : Bytes → Dir → List Bytes
  files_below path unreadable = []
  files_below path (listing es) = files_among path es

  pub files_among : Bytes → DirEntries → List Bytes
  files_among path no_entries = []
  files_among path (dir_entry name dir rest) =
      files_below (join_path path name) dir ++ files_among path rest
  files_among path (file_entry name rest) = join_path path name ∷ files_among path rest
  files_among path (other_entry name rest) = files_among path rest

module _ (ngx : Nginx) (os : Os) (now : ℕ) (joins : Bytes → Bool) (grants : Bytes → Grants)
    (fs : os.Fs) (zone : IndexZone) where
  -- What a file is parsed to.
  abbrev pub read_meta : Bytes → Option Meta
  read_meta p = parse_file ngx os (grants p) zone.headers fs p

  -- The store `s'` after the files at `paths` were indexed in the store `s`.
  pub record Scanned (paths : List Bytes) (s s' : Store ngx) : Type 0 where
    pub entries :
        (test : Meta → Bool) (p : Bytes)
        → some_meta test p (catalogue ngx s' zone.zone_name) ≡ (
            if has_path p paths
            then parsed test (read_meta p)
            else some_meta test p (catalogue ngx s zone.zone_name))

  -- The store `s'` after any part of a scan.
  pub record Kept (s s' : Store ngx) : Type 0 where
    pub store : Reachable ngx s'
    pub others :
        (q : Bytes) → (zone.zone_name ==ᵇ q) ≡ false → catalogue ngx s' q ≡ catalogue ngx s q
    pub flags : (q : Bytes) → is_booted ngx s' q ≡ is_booted ngx s q

  Kept-trans : (s s' s'' : Store ngx) → Kept s s' → Kept s' s'' → Kept s s''
  Kept-trans s s' s'' a b = record {
    store = b.store;
    others = λ q d. b.others q d ∙ a.others q d;
    flags = λ q. b.flags q ∙ a.flags q;
  }

  Scanned-trans :
      (ps qs : List Bytes) (s s' s'' : Store ngx)
      → Scanned ps s s'
      → Scanned qs s' s''
      → Scanned (ps ++ qs) s s''
  Scanned-trans ps qs s s' s'' a b = record {
    entries = λ test p.
        b.entries test p
        ∙ both (has_path p ps) (has_path p qs) (parsed test (read_meta p))
            (some_meta test p (catalogue ngx s' zone.zone_name))
            (some_meta test p (catalogue ngx s zone.zone_name)) (a.entries test p)
        ∙ ap
            (λ h.
              if h
              then parsed test (read_meta p)
              else some_meta test p (catalogue ngx s zone.zone_name))
            (sym (has_path-append p ps qs));
  }
    where
      both :
          (h k x y z : Bool)
          → y ≡ (if h then x else z)
          → (if k then x else y) ≡ (if if h then true else k then x else z)
      both true true x y z e = refl
      both true false x y z e = e
      both false true x y z e = refl
      both false false x y z e = e

  one-Scanned :
      (path : Bytes) (s : Store ngx) (r : Store ngx × Bool)
      → Indexed ngx os now (grants path) zone.headers fs zone.zone_name path s r
      → r.1 ≡ true
      → Scanned (path ∷ []) s r.0
  one-Scanned path s r i done = record {
    entries = λ test p.
        i.entries done test p
        ∙ same (path ==ᵇ p) (parsed test (read_meta path)) (parsed test (read_meta p)) _
            (λ h. ap (λ x. parsed test (read_meta x)) (==ᵇ_sound path p h));
  }
    where
      same :
          (h x y z : Bool)
          → (h ≡ true → x ≡ y)
          → (if h then x else z) ≡ (if if h then true else false then y else z)
      same true x y z e = e refl
      same false x y z e = refl

  module _ (named : NulFree zone.zone_name) where
    scan_file_lem :
        (path : Bytes) (s : Store ngx)
        → Reachable ngx s
        → NulFree path
        → let r = scan_file ngx os now joins grants fs 0 zone s path in
          Kept s r.0 × (r.1 ≡ true → Scanned (path ∷ []) s r.0)
    unfolding scan_file is_old
    scan_file_lem path s r n =
        let i =
          process_file-Indexed ngx os now (grants path) zone.headers fs zone.zone_name path s r
            named n in
        (
          record { store = i.store; others = i.others; flags = i.flags },
          λ done. one-Scanned path s _ i done,
        )

    -- A result of a scan of `paths` that starts in the store `s`.
    abbrev pub ScanDone : List Bytes → Store ngx → Store ngx × Rc → Type 0
    ScanDone paths s r = Kept s r.0 × (r.1 ≢ error → Scanned paths s r.0)

    skipped : (paths : List Bytes) (s s' : Store ngx) → Kept s s' → ScanDone paths s (s', error)
    skipped paths s s' k = (k, λ e. absurd (e refl))

    same_store : (s : Store ngx) → Reachable ngx s → Kept s s
    same_store s r = record { store = r; others = λ q d. refl; flags = λ q. refl }

    followed :
        (ps qs : List Bytes) (s s' : Store ngx) (r : Store ngx × Rc)
        → Kept s s'
        → Scanned ps s s'
        → ScanDone qs s' r
        → ScanDone (ps ++ qs) s r
    followed ps qs s s' r k done (k', done') =
        (Kept-trans s s' r.0 k k', λ e. Scanned-trans ps qs s s' r.0 done (done' e))

    declined-ne-error : declined ≢ error
    declined-ne-error e = cc

    ok-ne-error : ok ≢ error
    ok-ne-error e = cc

    mutual
      unfolding scan_recursive scan_entries files_below files_among

      pub scan_recursive-ScanDone :
          (dir : Dir) (path : Bytes) (s : Store ngx)
          → Reachable ngx s
          → All NulFree (files_below path dir)
          → ScanDone
              (files_below path dir)
              s
              (scan_recursive ngx os now joins grants fs 0 zone path dir s)
      scan_recursive-ScanDone unreadable path s r n =
          (same_store s r, λ e. record { entries = λ test p. refl })
      scan_recursive-ScanDone (listing es) path s r n = scan_entries-ScanDone es path s r n

      scan_entries-ScanDone :
          (es : DirEntries) (path : Bytes) (s : Store ngx)
          → Reachable ngx s
          → All NulFree (files_among path es)
          → ScanDone
              (files_among path es)
              s
              (scan_entries ngx os now joins grants fs 0 zone path es s)
      scan_entries-ScanDone no_entries path s r n =
          (same_store s r, λ e. record { entries = λ test p. refl })
      scan_entries-ScanDone (dir_entry name dir rest) path s r n =
          let (n1, n2) =
            All-append_split NulFree (files_below (join_path path name) dir) (files_among path rest)
              n in
          let (k, done) = scan_recursive-ScanDone dir (join_path path name) s r n1 in
          let after = scan_entries-ScanDone rest path _ k.store n2 in
          elim (Bool-cases (joins (join_path path name))) [
            | inr refused ↦
                rw (refused, scan_entries)
                  (skipped (files_below (join_path path name) dir ++ files_among path rest) s s
                    (same_store s r))
            | inl granted ↦
                elim (Rc-cases
                  (scan_recursive ngx os now joins grants fs 0 zone (join_path path name) dir
                    s).1) [
                      | inl e ↦
                          rw (granted, scan_entries, e)
                            (followed (files_below (join_path path name) dir)
                              (files_among path rest) s _ _ k (done (λ x. ok-ne-error (sym e ∙ x)))
                              after)
                      | inr (inl e) ↦
                          rw (granted, scan_entries, e)
                            (followed (files_below (join_path path name) dir)
                              (files_among path rest) s _ _ k
                              (done (λ x. declined-ne-error (sym e ∙ x))) after)
                      | inr (inr e) ↦
                          rw (granted, scan_entries, e)
                            (skipped
                              (files_below (join_path path name) dir ++ files_among path rest) s _
                              k)
                    ]
          ]
      scan_entries-ScanDone (file_entry name rest) path s r (n1, n2) =
          let (k, done) = scan_file_lem (join_path path name) s r n1 in
          let after = scan_entries-ScanDone rest path _ k.store n2 in
          elim (Bool-cases (joins (join_path path name))) [
            | inr refused ↦
                rw (refused, scan_entries)
                  (skipped (join_path path name ∷ files_among path rest) s s (same_store s r))
            | inl granted ↦
                elim (Bool-cases
                  (scan_file ngx os now joins grants fs 0 zone s (join_path path name)).1) [
                    | inl e ↦
                        rw (granted, scan_entries, e)
                          (followed (join_path path name ∷ []) (files_among path rest) s _ _ k
                            (done e) after)
                    | inr e ↦
                        rw (granted, scan_entries, e)
                          (skipped (join_path path name ∷ files_among path rest) s _ k)
                  ]
          ]
      scan_entries-ScanDone (other_entry name rest) path s r n =
          elim (Bool-cases (joins (join_path path name))) [
            | inr refused ↦
                rw (refused, scan_entries) (skipped (files_among path rest) s s (same_store s r))
            | inl granted ↦ rw (granted, scan_entries) (scan_entries-ScanDone rest path s r n)
          ]
