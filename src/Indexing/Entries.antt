-- ===== src/Indexing/Entries.antt =====
-- What the indexing of a file does to the catalogue.
use ngx_cache_pilot.Base.{
  ℕ, Bytes, Bool, true, false, not, ◌||◌, ◌==◌, min, ◌≡◌, refl, sym, ap, ◌∙◌, subst, ◌==ᵇ◌,
  ==ᵇ_sound, ==ᵇ_refl, Option, none, some, some-inj, none-ne-some, List, [], ◌∷◌, if◌then◌else◌,
  NulFree, Bool-cases, Option-cases, inl, inr, true-ne-false, arith,
}
use ngx_cache_pilot.Nginx.{Nginx}
use ngx_cache_pilot.Os.{Os, Stat, file_stat, stat_enoent, stat_failed}
use ngx_cache_pilot.Upsert.{Meta}
use ngx_cache_pilot.Store.{Store, upsert_file_meta, delete_file}
use ngx_cache_pilot.Store.Catalogue.{
  catalogue, without_path, put, upsert_file_meta-catalogue, delete_file-catalogue,
}
use ngx_cache_pilot.Store.Queries.{some_meta}
use ngx_cache_pilot.Store.RoundTrips.{some_meta-without_path, some_meta-append, some_meta-put}
use ngx_cache_pilot.Store.Runs.{Reachable, Reachable-IsStore, next, upserted, delete_file-Reachable}
use ngx_cache_pilot.Store.Flags.{is_booted, is_booted-upsert_file_meta, is_booted-delete_file}
use ngx_cache_pilot.Purge.Cleared.{some_meta-others}
use ngx_cache_pilot.Registry.{HeaderArray}
use ngx_cache_pilot.Indexing.{
  Grants, path_known, header_names, max_read, read_buffer, parse_lines, parse_file, process_file,
}

-- A test of what a file was parsed to.
abbrev pub parsed : (Meta → Bool) → Option Meta → Bool
parsed test none = false
parsed test (some m) = test m

some_meta-put_others :
    (test : Meta → Bool) (p : Bytes) (m : Meta) (ms : List Meta)
    → (m.path ==ᵇ p) ≡ false
    → some_meta test p (put m true ms) ≡ some_meta test p ms
some_meta-put_others test p m ms d =
    some_meta-append test p (without_path m.path ms) (m ∷ [])
    ∙ ground (arith, d, some_meta-others test p m.path ms d)

module _ (ngx : Nginx) (os : Os) where
  parse_file_path :
      (grants : Grants) (headers : Option HeaderArray) (fs : os.Fs) (path : Bytes) (m : Meta)
      → parse_file ngx os grants headers fs path ≡ some m
      → m.path ≡ path
  unfolding parse_file
  parse_file_path grants headers fs path m e = elim (Bool-cases (path_known path)) [
    | inr strange ↦ absurd (none-ne-some {a = m} (rw (strange, parse_file) at e))
    | inl known ↦ by_stat known (os.file_info fs path) refl
  ]
    where
      by_stat : path_known path ≡ true → (st : Stat) → os.file_info fs path ≡ st → m.path ≡ path
      by_stat known stat_enoent q = absurd (none-ne-some {a = m} (rw (known, parse_file, q) at e))
      by_stat known stat_failed q = absurd (none-ne-some {a = m} (rw (known, parse_file, q) at e))
      by_stat known (file_stat size mtime) q =
          elim (Bool-cases (min max_read size == 0 || not grants.buffer)) [
            | inl stop ↦ absurd (none-ne-some {a = m} (rw (known, parse_file, q, stop) at e))
            | inr go ↦ elim (Option-cases (read_buffer ngx os fs path (min max_read size))) [
              | inl gone ↦ absurd (none-ne-some {a = m} (rw (known, parse_file, q, go, gone) at e))
              | inr (bytes, there) ↦
                  elim (Option-cases (
                    parse_lines ngx grants.key (header_names headers) true grants.tags [] []
                      bytes)) [
                        | inl gone ↦
                            absurd (
                              none-ne-some {a = m}
                                (rw (known, parse_file, q, go, there, gone) at e))
                        | inr ((key, tags), found) ↦ sym (
                            ap (λ x. x.path)
                              (some-inj (rw (known, parse_file, q, go, there, found) at e)))
                      ]
            ]
          ]

  module _ (now : ℕ) (grants : Grants) (headers : Option HeaderArray) (fs : os.Fs)
      (name : Bytes) where
    -- The store `r` after the indexing of the file at `path`: reachable, on success with what the file was parsed
    -- to as the only entry of the path, with no other zone changed and no zone's flag.
    pub record Indexed (path : Bytes) (s : Store ngx) (r : Store ngx × Bool) : Type 0 where
      pub store : Reachable ngx r.0
      pub entries :
          r.1 ≡ true
          → (test : Meta → Bool) (p : Bytes)
          → some_meta test p (catalogue ngx r.0 name) ≡ (
              if path ==ᵇ p
              then parsed test (parse_file ngx os grants headers fs path)
              else some_meta test p (catalogue ngx s name))
      pub others : (q : Bytes) → (name ==ᵇ q) ≡ false → catalogue ngx r.0 q ≡ catalogue ngx s q
      pub flags : (q : Bytes) → is_booted ngx r.0 q ≡ is_booted ngx s q

    dropped-Indexed :
        (path : Bytes) (s : Store ngx)
        → Reachable ngx s
        → NulFree name
        → parse_file ngx os grants headers fs path ≡ none
        → Indexed path s (delete_file ngx now s name path, true)
    dropped-Indexed path s r n e =
        let (v, one) = Reachable-IsStore ngx s r in
        let (r', gone) = delete_file-Reachable ngx now s name path r n in
        record {
          store = r';
          entries = λ _ test p. ap (some_meta test p) gone ∙ elim (Bool-cases (path ==ᵇ p)) [
            | inl same ↦
                rw (same, e, ← ==ᵇ_sound path p same)
                  (some_meta-without_path test path (catalogue ngx s name) (one name))
            | inr other ↦ rw other (some_meta-others test p path (catalogue ngx s name) other)
          ];
          others = λ q d. (delete_file-catalogue ngx now s name path v n).1 q ∙ (rw d refl);
          flags = λ q. is_booted-delete_file ngx now s name path q v n;
        }

    upserted-Indexed :
        (path : Bytes) (s : Store ngx) (m : Meta)
        → Reachable ngx s
        → NulFree name
        → NulFree path
        → parse_file ngx os grants headers fs path ≡ some m
        → Indexed path s (upsert_file_meta ngx now s name m)
    upserted-Indexed path s m r n np e =
        let (v, one) = Reachable-IsStore ngx s r in
        let at_path = parse_file_path grants headers fs path m e in
        let clean = subst NulFree (sym at_path) np in
        let put_there = (upsert_file_meta-catalogue ngx now s name m v n clean).1 in
        record {
          store = next s _ r (upserted now name m n clean);
          entries = λ done test p.
              ap (some_meta test p) {y = put m true (catalogue ngx s name)}
                (put_there name ∙ (rw (==ᵇ_refl name, done) refl))
              ∙ elim (Bool-cases (path ==ᵇ p)) [
                | inl same ↦
                    rw (same, e, ← at_path ∙ ==ᵇ_sound path p same)
                      (some_meta-put test m true (catalogue ngx s name) (one name))
                | inr other ↦ rw other (
                    some_meta-put_others test p m (catalogue ngx s name)
                      (ap (λ x. x ==ᵇ p) at_path ∙ other))
              ];
          others = λ q d. put_there q ∙ (rw d refl);
          flags = λ q. is_booted-upsert_file_meta ngx now s name m q v n;
        }

    -- The indexing of a file, with NUL-free names, in a reachable store: the store stays reachable, no other zone changes, and every zone is bootstrapped or not as before; on success the file's
    -- path has exactly the entry that the file was parsed to, or none if it cannot be parsed, and every other path keeps its entry.
    pub process_file-Indexed :
        (path : Bytes) (s : Store ngx)
        → Reachable ngx s
        → NulFree name
        → NulFree path
        → Indexed path s (process_file ngx os now grants headers fs s name path)
    unfolding process_file
    process_file-Indexed path s r n np = by_pool grants.pool
      where
        by_pool :
            (b : Bool)
            → Indexed path s (
                if not b then (s, false) else elim (parse_file ngx os grants headers fs path) [
                  | none ↦ (delete_file ngx now s name path, true)
                  | some m ↦ upsert_file_meta ngx now s name m
                ])
        by_pool false = record {
          store = r;
          entries = λ e. absurd (true-ne-false (sym e));
          others = λ q d. refl;
          flags = λ q. refl;
        }
        by_pool true = elim (Option-cases (parse_file ngx os grants headers fs path)) [
          | inl gone ↦ rw gone (dropped-Indexed path s r n gone)
          | inr (m, there) ↦ rw there (upserted-Indexed path s m r n np there)
        ]
