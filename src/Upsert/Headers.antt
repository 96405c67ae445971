-- ===== src/Upsert/Headers.antt =====
-- The operations on the files of a zone leave its name and its bootstrap state alone.
use ngx_cache_pilot.Base.{ℕ, ◌+◌, Bytes, ◌≡◌, refl, ◌∙◌, length, Bool-cases, Option-cases, inl, inr}
use ngx_cache_pilot.Nginx.{Nginx}
use ngx_cache_pilot.Zone.{
  Zone, Pool, alloc_locked, link_exact_key_locked, link_tags_locked, lookup_file, file_of,
  touch_zone_locked,
}
use ngx_cache_pilot.Upsert.{
  Meta, remove_path_locked, roll_back, insert_file, link_file_tags, link_file, store_file,
  upsert_locked, delete_locked, tag_bytes,
}
use ngx_cache_pilot.Zone.Headers.{
  header, header-remove_file_locked, header-link_exact_key_locked, header-link_tags_locked,
}

module _ (ngx : Nginx) where
  header-remove_path_locked :
      (pool : Pool ngx) (z : Zone) (path : Bytes)
      → header (remove_path_locked ngx pool z path).1 ≡ header z
  unfolding remove_path_locked
  header-remove_path_locked pool z path = elim (Option-cases (lookup_file ngx z path)) [
    | inl e ↦ rw (e, remove_path_locked) refl
    | inr (f, e) ↦ rw (e, remove_path_locked) (header-remove_file_locked ngx pool z f)
  ]

  header-roll_back :
      (pool : Pool ngx) (z : Zone) (path : Bytes) → header (roll_back ngx pool z path).1 ≡ header z
  unfolding roll_back
  header-roll_back pool z path = elim (Option-cases (file_of path z.files)) [
    | inl e ↦ rw (e, roll_back) refl
    | inr (f, e) ↦ rw (e, roll_back) (header-remove_file_locked ngx pool z f)
  ]

  header-link_file_tags :
      (now : ℕ) (pool : Pool ngx) (z : Zone) (m : Meta)
      → header (link_file_tags ngx now pool z m).1 ≡ header z
  unfolding link_file_tags touch_zone_locked
  header-link_file_tags now pool z m =
      elim (Bool-cases (link_tags_locked ngx pool z m.path m.tags).2) [
        | inl e ↦ rw (e, link_file_tags) (header-link_tags_locked ngx m.tags pool z m.path)
        | inr e ↦
            rw (e, link_file_tags)
              (header-roll_back _ _ m.path ∙ header-link_tags_locked ngx m.tags pool z m.path)
      ]

  header-link_file :
      (now : ℕ) (pool : Pool ngx) (z : Zone) (m : Meta)
      → header (link_file ngx now pool z m).1 ≡ header z
  unfolding link_file
  header-link_file now pool z m =
      elim (Bool-cases (link_exact_key_locked ngx pool z m.path m.key).2) [
        | inl e ↦
            rw (e, link_file)
              (header-link_file_tags now _ _ m
                ∙ header-link_exact_key_locked ngx pool z m.path m.key)
        | inr e ↦
            rw (e, link_file)
              (header-roll_back _ _ m.path ∙ header-link_exact_key_locked ngx pool z m.path m.key)
      ]

  header-store_file :
      (now : ℕ) (pool : Pool ngx) (z : Zone) (m : Meta)
      → header (store_file ngx now pool z m).1 ≡ header z
  unfolding store_file insert_file
  header-store_file now pool z m =
      elim (Bool-cases
        (alloc_locked ngx pool
          (ngx.sizeof_file + (length m.path + 1) + (length m.key + 1) + tag_bytes m.tags)).1) [
            | inl e ↦ rw (e, store_file) (header-link_file now _ (insert_file ngx z m) m)
            | inr e ↦ rw (e, store_file) refl
          ]

  -- An upsert leaves the name of the zone, its bootstrap flag and its bootstrap time alone.
  pub header-upsert_locked :
      (now : ℕ) (pool : Pool ngx) (z : Zone) (m : Meta)
      → header (upsert_locked ngx now pool z m).1 ≡ header z
  unfolding upsert_locked
  header-upsert_locked now pool z m =
      header-store_file now _ _ m ∙ header-remove_path_locked pool z m.path

  pub header-delete_locked :
      (now : ℕ) (pool : Pool ngx) (z : Zone) (path : Bytes)
      → header (delete_locked ngx now pool z path).1 ≡ header z
  unfolding delete_locked touch_zone_locked
  header-delete_locked now pool z path = elim (Bool-cases (remove_path_locked ngx pool z path).2) [
    | inl e ↦ rw (e, delete_locked) (header-remove_path_locked pool z path)
    | inr e ↦ rw (e, delete_locked) (header-remove_path_locked pool z path)
  ]
