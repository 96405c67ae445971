-- ===== src/Upsert/Outcome.antt =====
-- The outcome of an upsert and of a deletion, on every branch.
use ngx_cache_pilot.Base.{
  ℕ, Bytes, Bool, true, false, ◌≡◌, refl, sym, ap, ◌∙◌, ◌==ᵇ◌, ==ᵇ_refl, ==ᵇ_flip, none, some, List,
  [], ◌∷◌, ◌++◌, if◌then◌else◌, arith, Option-cases, inl, inr, Bool-cases, true-ne-false,
  append-nil, length, ◌+◌,
}
use ngx_cache_pilot.Nginx.{Nginx}
use ngx_cache_pilot.Zone.{
  File, Zone, Pool, alloc_locked, file_of, lookup_file, remove_file_locked, link_exact_key_locked,
  link_tags_locked, touch_zone_locked,
}
use ngx_cache_pilot.Zone.Links.{
  has_file, UniquePaths, key_links, tag_links, linked, linked-append, without, file_of-path,
}
use ngx_cache_pilot.Zone.Paths.{
  has_node-insert_path, insert_path-IsPathIndex, has_file-append, has_file-without,
  lookup_file-file_of,
}
use ngx_cache_pilot.Zone.Invariant.{IsZone, remove_file_locked_zone}
use ngx_cache_pilot.Zone.Linking.{
  Linking, Tagged, own_entry, link_exact_key_locked-Linking, link_tags_locked-Tagged,
}
use ngx_cache_pilot.Upsert.{
  Meta, new_file, tag_bytes, remove_path_locked, roll_back, insert_file, link_file_tags, link_file,
  store_file, upsert_locked, delete_locked,
}

without_missing : (p : Bytes) (fs : List File) → has_file p fs ≡ false → without p fs ≡ fs
without_missing p [] h = refl
without_missing p (f ∷ fs) h = ground (arith, without_missing p fs)

file_of-last :
    (fs : List File) (f : File)
    → has_file f.path fs ≡ false
    → file_of f.path (fs ++ f ∷ []) ≡ some f
file_of-last [] f h = rw (==ᵇ_refl f.path)
file_of-last (x ∷ fs) f h = elim (Bool-cases (x.path ==ᵇ f.path)) [
  | inl hit ↦ absurd (true-ne-false (rw hit at h))
  | inr miss ↦ rw miss (file_of-last fs f (rw miss at h))
]

without-last :
    (fs : List File) (f : File) → has_file f.path fs ≡ false → without f.path (fs ++ f ∷ []) ≡ fs
without-last [] f h = rw (==ᵇ_refl f.path)
without-last (x ∷ fs) f h = elim (Bool-cases (x.path ==ᵇ f.path)) [
  | inl hit ↦ absurd (true-ne-false (rw hit at h))
  | inr miss ↦ rw miss (ap (◌∷◌ x) (without-last fs f (rw miss at h)))
]

file_of-none : (p : Bytes) (fs : List File) → file_of p fs ≡ none → has_file p fs ≡ false
file_of-none p [] e = refl
file_of-none p (f ∷ fs) e = elim (Bool-cases (f.path ==ᵇ p)) [
  | inl hit ↦ ground (arith, hit)
  | inr miss ↦ rw miss (file_of-none p fs (rw miss at e))
]

file_of-some :
    (p : Bytes) (fs : List File) (f : File) → file_of p fs ≡ some f → has_file p fs ≡ true
file_of-some p [] f e = cc
file_of-some p (x ∷ fs) f e = elim (Bool-cases (x.path ==ᵇ p)) [
  | inl hit ↦ ground (arith, hit)
  | inr miss ↦ rw miss (file_of-some p fs f (rw miss at e))
]

module _ (ngx : Nginx) where
  -- In a well-formed zone the lookup by checksums finds exactly the file with the path.
  pub lookup_file_zone :
      (z : Zone) (p : Bytes) → IsZone ngx z → lookup_file ngx z p ≡ file_of p z.files
  lookup_file_zone z p v = lookup_file-file_of ngx z p v.paths v.agree

  pub remove_path_locked_zone :
      (pool : Pool ngx) (z : Zone) (p : Bytes)
      → IsZone ngx z
      → IsZone ngx (remove_path_locked ngx pool z p).1
        × ((remove_path_locked ngx pool z p).1.files ≡ without p z.files)
        × ((remove_path_locked ngx pool z p).2 ≡ has_file p z.files)
  unfolding remove_path_locked
  remove_path_locked_zone pool z p v = elim (Option-cases (file_of p z.files)) [
    | inl e ↦
        rw (lookup_file_zone z p v ∙ e, remove_path_locked)
          (
            v,
            sym (without_missing p z.files (file_of-none p z.files e)),
            sym (file_of-none p z.files e),
          )
    | inr (f, e) ↦
        rw (lookup_file_zone z p v ∙ e, remove_path_locked) (found f e (file_of-path p z.files f e))
  ]
    where
      found :
          (f : File)
          → file_of p z.files ≡ some f
          → f.path ≡ p
          → IsZone ngx (remove_file_locked ngx pool z f).1
            × ((remove_file_locked ngx pool z f).1.files ≡ without p z.files)
            × (true ≡ has_file p z.files)
      found f e q =
          let (zone, files) =
            remove_file_locked_zone ngx pool z f v (ap (λ t. file_of t z.files) q ∙ e) in
          (zone, files ∙ ap (λ t. without t z.files) q, sym (file_of-some p z.files f e))

  remove_path_locked-none :
      (pool : Pool ngx) (z : Zone) (p : Bytes)
      → IsZone ngx z
      → has_file p z.files ≡ false
      → (remove_path_locked ngx pool z p).1 ≡ z
  unfolding remove_path_locked
  remove_path_locked-none pool z p v h = elim (Option-cases (file_of p z.files)) [
    | inl e ↦ rw (lookup_file_zone z p v ∙ e, remove_path_locked) refl
    | inr (f, e) ↦ absurd (true-ne-false (sym (file_of-some p z.files f e) ∙ h))
  ]

  -- The file as an upsert that succeeds leaves it.
  abbrev pub stored : Meta → File
  stored m = record (new_file ngx m) { key_entry = own_entry m.key; tag_members = m.tags }

  insert_file-Linking :
      (z : Zone) (m : Meta)
      → IsZone ngx z
      → has_file m.path z.files ≡ false
      → Linking ngx z.files (new_file ngx m) (insert_file ngx z m)
  unfolding insert_file
  insert_file-Linking z m v new = record {
    zone = record {
      keys = v.keys;
      tags = v.tags;
      paths = insert_path-IsPathIndex ngx m.path z.path_index v.paths (v.agree m.path ∙ new);
      unique = unique z.files v.unique new;
      agree = λ q.
          has_node-insert_path ngx m.path z.path_index v.paths (v.agree m.path ∙ new) q
          ∙ ground (arith, v.agree q, has_file-append q z.files (new_file ngx m ∷ []));
      key_queues = λ t.
          v.key_queues t
          ∙ sym (
              linked-append key_links t z.files (new_file ngx m ∷ [])
              ∙ append-nil (linked key_links t z.files));
      tag_queues = λ t.
          v.tag_queues t
          ∙ sym (
              linked-append tag_links t z.files (new_file ngx m ∷ [])
              ∙ append-nil (linked tag_links t z.files));
    };
    at_end = refl;
    apart = new;
  }
    where
      unique :
          (fs : List File)
          → UniquePaths fs
          → has_file m.path fs ≡ false
          → UniquePaths (fs ++ new_file ngx m ∷ [])
      unique [] u h = (refl, tt)
      unique (f ∷ fs) (u, us) h = elim (Bool-cases (f.path ==ᵇ m.path)) [
        | inl hit ↦ absurd (true-ne-false (rw hit at h))
        | inr miss ↦ (
          rw (has_file-append f.path fs (new_file ngx m ∷ []))
              (ground (arith, u, ==ᵇ_flip f.path m.path miss)),
          unique fs us (rw miss at h),
        )
      ]

  roll_back_zone :
      (pool : Pool ngx) (fs : List File) (f : File) (z : Zone)
      → Linking ngx fs f z
      → IsZone ngx (roll_back ngx pool z f.path).1 × ((roll_back ngx pool z f.path).1.files ≡ fs)
  unfolding roll_back
  roll_back_zone pool fs f z l =
      rw (here, roll_back)
        (let (zone, files) = remove_file_locked_zone ngx pool z f l.zone here in
          (zone, files ∙ ap (without f.path) l.at_end ∙ without-last fs f l.apart))
    where
      here : file_of f.path z.files ≡ some f
      here = ap (file_of f.path) l.at_end ∙ file_of-last fs f l.apart

  -- The result of storing a file behind the files `fs`.
  abbrev Outcome : List File → Meta → Pool ngx × Zone × Bool → Type 0
  Outcome fs m r = IsZone ngx r.1 × (r.1.files ≡ (if r.2 then fs ++ stored m ∷ [] else fs))

  touch_zone_locked-IsZone :
      (now : ℕ) (z : Zone) → IsZone ngx z → IsZone ngx (touch_zone_locked ngx now z)
  unfolding touch_zone_locked
  touch_zone_locked-IsZone now z v = record {
    keys = v.keys;
    tags = v.tags;
    paths = v.paths;
    unique = v.unique;
    agree = v.agree;
    key_queues = v.key_queues;
    tag_queues = v.tag_queues;
  }

  link_file_tags-Outcome :
      (now : ℕ) (pool : Pool ngx) (z : Zone) (m : Meta) (fs : List File)
      → Linking ngx fs (record (new_file ngx m) { key_entry = own_entry m.key }) z
      → Outcome fs m (link_file_tags ngx now pool z m)
  unfolding link_file_tags touch_zone_locked
  link_file_tags-Outcome now pool z m fs l =
      elim (Bool-cases (link_tags_locked ngx pool z m.path m.tags).2) [
        | inl tagged ↦
            rw (tagged, link_file_tags)
              (
                touch_zone_locked-IsZone now _ t.linking.zone,
                t.linking.at_end
                    ∙ ap (λ ts. fs ++ record (stored m) { tag_members = ts } ∷ []) (t.all tagged),
              )
        | inr failed ↦ rw (failed, link_file_tags) (roll_back_zone _ fs _ _ t.linking)
      ]
    where
      t :
          Tagged ngx fs
            (record (new_file ngx m) { key_entry = own_entry m.key })
            m.tags
            (link_tags_locked ngx pool z m.path m.tags)
      t = link_tags_locked-Tagged ngx m.tags pool fs _ z l

  link_file-Outcome :
      (now : ℕ) (pool : Pool ngx) (z : Zone) (m : Meta) (fs : List File)
      → Linking ngx fs (new_file ngx m) z
      → Outcome fs m (link_file ngx now pool z m)
  unfolding link_file
  link_file-Outcome now pool z m fs l =
      let k = link_exact_key_locked-Linking ngx pool m.key fs (new_file ngx m) z l refl in
      elim (Bool-cases (link_exact_key_locked ngx pool z m.path m.key).2) [
        | inl keyed ↦ rw (keyed, link_file) (link_file_tags-Outcome now _ _ m fs (k.0 keyed))
        | inr failed ↦ rw (failed, link_file) (roll_back_zone _ fs _ _ (k.1 failed))
      ]

  store_file-Outcome :
      (now : ℕ) (pool : Pool ngx) (z : Zone) (m : Meta)
      → IsZone ngx z
      → has_file m.path z.files ≡ false
      → Outcome z.files m (store_file ngx now pool z m)
  unfolding store_file
  store_file-Outcome now pool z m v new =
      elim (Bool-cases
        (alloc_locked ngx pool
          (ngx.sizeof_file + (length m.path + 1) + (length m.key + 1) + tag_bytes m.tags)).1) [
            | inl granted ↦
                rw (granted, store_file)
                  (link_file-Outcome now _ _ m z.files (insert_file-Linking z m v new))
            | inr refused ↦ rw (refused, store_file) (v, refl)
          ]

  -- After an upsert in a well-formed zone the zone is well formed, whichever allocation fails; the file that stood under the
  -- path is gone, and all other files stay, in their order. If the result is `true` the new file is the
  -- last, linked to its key and to all its tags; if it is `false` there is no file under the path.
  pub upsert_locked_lem :
      (now : ℕ) (pool : Pool ngx) (z : Zone) (m : Meta)
      → IsZone ngx z
      → let r = upsert_locked ngx now pool z m in
        IsZone ngx r.1
        × (r.1.files
            ≡ (if r.2 then without m.path z.files ++ stored m ∷ [] else without m.path z.files))
        × (has_file m.path (without m.path z.files) ≡ false)
  unfolding upsert_locked
  upsert_locked_lem now pool z m v =
      let (v0, files, _) = remove_path_locked_zone pool z m.path v in
      let gone : has_file m.path (without m.path z.files) ≡ false =
        has_file-without m.path m.path z.files v.unique ∙ (rw (==ᵇ_refl m.path) refl) in
      let (v1, out) = store_file-Outcome now _ _ m v0 (ap (has_file m.path) files ∙ gone) in
      (
        v1,
        out
            ∙ ap
                (λ fs.
                  if (store_file ngx now (remove_path_locked ngx pool z m.path).0
                    (remove_path_locked ngx pool z m.path).1 m).2
                  then fs ++ stored m ∷ []
                  else fs)
                files,
        gone,
      )

  -- A deletion keeps a well-formed zone well formed and takes out the file under the path and no other. If
  -- there was one, the time of the last update is the time of the deletion, and else it stays as it was.
  pub delete_locked_lem :
      (now : ℕ) (pool : Pool ngx) (z : Zone) (path : Bytes)
      → IsZone ngx z
      → let z' = (delete_locked ngx now pool z path).1 in
        IsZone ngx z'
        × (z'.files ≡ without path z.files)
        × (has_file path z'.files ≡ false)
        × (has_file path z.files ≡ true → z'.last_updated_at ≡ now)
        × (has_file path z.files ≡ false → z'.last_updated_at ≡ z.last_updated_at)
  unfolding delete_locked touch_zone_locked
  delete_locked_lem now pool z path v =
      let (v0, files, removed) = remove_path_locked_zone pool z path v in
      let gone : has_file path (without path z.files) ≡ false =
        has_file-without path path z.files v.unique ∙ (rw (==ᵇ_refl path) refl) in
      elim (Bool-cases (remove_path_locked ngx pool z path).2) [
        | inl yes' ↦
            rw (yes', delete_locked)
              (
                touch_zone_locked-IsZone now _ v0,
                files,
                ap (has_file path) files ∙ gone,
                λ _. refl,
                λ h. absurd (true-ne-false (sym yes' ∙ removed ∙ h)),
              )
        | inr none' ↦
            rw (none', delete_locked)
              (
                v0,
                files,
                ap (has_file path) files ∙ gone,
                λ h. absurd (true-ne-false (sym h ∙ sym removed ∙ none')),
                λ h. ap (λ x. x.last_updated_at) (remove_path_locked-none pool z path v h),
              )
      ]
