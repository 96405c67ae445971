-- ===== src/Store/RoundTrips.antt =====
-- A collection after a change of the same path.
use ngx_cache_pilot.Base.{
  ℕ, Bytes, Bool, true, false, ◌||◌, ◌&&◌, ◌≡◌, refl, ap, ◌∙◌, ◌==ᵇ◌, ==ᵇ_sound, ==ᵇ_refl, some,
  List, [], ◌∷◌, ◌++◌, map, NulFree, arith, Bool-cases, inl, inr, subst, true-ne-false,
}
use ngx_cache_pilot.Nginx.{Nginx}
use ngx_cache_pilot.Zone.Links.{has_path}
use ngx_cache_pilot.Upsert.{Meta}
use ngx_cache_pilot.Collect.Answers.{shares}
use ngx_cache_pilot.Store.{
  Store, upsert_file_meta, delete_file, collect_paths_by_tags, collect_paths_by_exact_key,
}
use ngx_cache_pilot.Store.Catalogue.{
  catalogue, without_path, put, upsert_file_meta-catalogue, delete_file-catalogue,
}
use ngx_cache_pilot.Store.Queries.{
  some_meta, has_key, collect_paths_by_tags-Answers, collect_paths_by_exact_key-Answers,
}
use ngx_cache_pilot.Store.Runs.{OnePerPath, Reachable, Reachable-IsStore}

some_meta_none :
    (test : Meta → Bool) (p : Bytes) (ms : List Meta)
    → has_path p (map (λ m. m.path) ms) ≡ false
    → some_meta test p ms ≡ false
some_meta_none test p [] h = refl
some_meta_none test p (m ∷ ms) h = elim (Bool-cases (m.path ==ᵇ p)) [
  | inl hit ↦ absurd (true-ne-false (rw hit at h))
  | inr miss ↦ rw miss (some_meta_none test p ms (rw miss at h))
]

-- The removal of a path leaves no entry with it.
pub some_meta-without_path :
    (test : Meta → Bool) (p : Bytes) (ms : List Meta)
    → OnePerPath ms
    → some_meta test p (without_path p ms) ≡ false
some_meta-without_path test p [] u = refl
some_meta-without_path test p (m ∷ ms) (u, us) = elim (Bool-cases (m.path ==ᵇ p)) [
  | inl hit ↦ rw hit (
      some_meta_none test p ms
        (subst (λ t. has_path t (map (λ m. m.path) ms) ≡ false) (==ᵇ_sound m.path p hit) u))
  | inr miss ↦ rw (miss, miss) (some_meta-without_path test p ms us)
]

pub some_meta-append :
    (test : Meta → Bool) (p : Bytes) (ms ns : List Meta)
    → some_meta test p (ms ++ ns) ≡ (some_meta test p ms || some_meta test p ns)
some_meta-append test p [] ns = refl
some_meta-append test p (m ∷ ms) ns = ground (arith, some_meta-append test p ms ns)

pub some_meta-put :
    (test : Meta → Bool) (m : Meta) (ok : Bool) (ms : List Meta)
    → OnePerPath ms
    → some_meta test m.path (put m ok ms) ≡ (ok && test m)
some_meta-put test m true ms u =
    some_meta-append test m.path (without_path m.path ms) (m ∷ [])
    ∙ ground (arith, some_meta-without_path test m.path ms u, ==ᵇ_refl m.path)
some_meta-put test m false ms u = some_meta-without_path test m.path ms u

module _ (ngx : Nginx) (s : Store ngx) (run : Reachable ngx s) (now : ℕ) (name : Bytes)
    (n : NulFree name) where
  -- After an upsert with a NUL-free zone name and path in a reachable store, the path is among those collected by tags exactly if the
  -- upsert succeeded and one of these tags is among the file's own.
  pub upsert-collect_tags :
      (m : Meta) (room r : ℕ) (tags out : List Bytes)
      → NulFree m.path
      → collect_paths_by_tags ngx true room (upsert_file_meta ngx now s name m).0 name tags
        ≡ some (r, out)
      → has_path m.path out ≡ ((upsert_file_meta ngx now s name m).1 && shares tags m.tags)
  upsert-collect_tags m room r tags out np e =
      let (v, one) = Reachable-IsStore ngx s run in
      let (v', cat) = upsert_file_meta-catalogue ngx now s name m v n np in
      let (_, answer) = collect_paths_by_tags-Answers ngx _ v' name true room r tags out e in
      answer m.path
      ∙ ap (some_meta (λ x. shares tags x.tags) m.path) (cat name ∙ (rw (==ᵇ_refl name) refl))
      ∙ some_meta-put (λ x. shares tags x.tags) m (upsert_file_meta ngx now s name m).1
          (catalogue ngx s name) (one name)

  -- After an upsert with a NUL-free zone name and path in a reachable store, the path is among those collected by a key exactly if the
  -- upsert succeeded and it is the file's own key, and not empty.
  pub upsert-collect_key :
      (m : Meta) (room r : ℕ) (key : Bytes) (out : List Bytes)
      → NulFree m.path
      → collect_paths_by_exact_key ngx true room (upsert_file_meta ngx now s name m).0 name key
        ≡ some (r, out)
      → has_path m.path out ≡ ((upsert_file_meta ngx now s name m).1 && has_key key m)
  upsert-collect_key m room r key out np e =
      let (v, one) = Reachable-IsStore ngx s run in
      let (v', cat) = upsert_file_meta-catalogue ngx now s name m v n np in
      let (_, answer) = collect_paths_by_exact_key-Answers ngx _ v' name true room r key out e in
      answer m.path
      ∙ ap (some_meta (has_key key) m.path) (cat name ∙ (rw (==ᵇ_refl name) refl))
      ∙ some_meta-put (has_key key) m (upsert_file_meta ngx now s name m).1 (catalogue ngx s name)
          (one name)

  -- After a deletion with a NUL-free zone name in a reachable store, the path is not among those collected by any tags.
  pub delete-collect_tags :
      (path : Bytes) (room r : ℕ) (tags out : List Bytes)
      → collect_paths_by_tags ngx true room (delete_file ngx now s name path) name tags
        ≡ some (r, out)
      → has_path path out ≡ false
  delete-collect_tags path room r tags out e =
      let (v, one) = Reachable-IsStore ngx s run in
      let (v', cat) = delete_file-catalogue ngx now s name path v n in
      let (_, answer) = collect_paths_by_tags-Answers ngx _ v' name true room r tags out e in
      answer path
      ∙ ap (some_meta (λ x. shares tags x.tags) path) (cat name ∙ (rw (==ᵇ_refl name) refl))
      ∙ some_meta-without_path (λ x. shares tags x.tags) path (catalogue ngx s name) (one name)
