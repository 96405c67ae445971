-- ===== src/Zone/Headers.antt =====
-- The steps on the files of a zone leave its name and its bootstrap state alone.
use ngx_cache_pilot.Base.{
  ℕ, ◌+◌, Bytes, Bool, ◌≡◌, refl, ◌∙◌, List, [], ◌∷◌, length, Bool-cases, Option-cases, inl, inr,
}
use ngx_cache_pilot.Nginx.{Nginx}
use ngx_cache_pilot.Index.{lookup_entry}
use ngx_cache_pilot.Zone.{
  File, Zone, Pool, alloc_locked, get_key_entry_locked, get_tag_entry_locked, unlink_members,
  unlink_key, remove_file_locked, link_exact_key_locked, link_tags_locked,
}

abbrev pub header : Zone → Bytes × Bool × ℕ
header z = (z.name, z.bootstrap_complete, z.last_bootstrap_at)

module _ (ngx : Nginx) where
  header-unlink_members :
      (tags : List Bytes) (pool : Pool ngx) (z : Zone) (path : Bytes)
      → header (unlink_members ngx pool z path tags).1 ≡ header z
  unfolding unlink_members
  header-unlink_members [] pool z path = refl
  header-unlink_members (tag ∷ tags) pool z path = header-unlink_members tags _ _ path

  header-unlink_key :
      (pool : Pool ngx) (z : Zone) (f : File) → header (unlink_key ngx pool z f).1 ≡ header z
  unfolding unlink_key
  header-unlink_key pool z f = elim (Option-cases f.key_entry) [
    | inl e ↦ rw (e, unlink_key) refl
    | inr (k, e) ↦ rw (e, unlink_key) refl
  ]

  pub header-remove_file_locked :
      (pool : Pool ngx) (z : Zone) (f : File)
      → header (remove_file_locked ngx pool z f).1 ≡ header z
  unfolding remove_file_locked
  header-remove_file_locked pool z f =
      header-unlink_members f.tag_members _ _ f.path ∙ header-unlink_key pool z f

  header-get_key_entry_locked :
      (pool : Pool ngx) (z : Zone) (k : Bytes)
      → header (get_key_entry_locked ngx pool z k).1 ≡ header z
  unfolding get_key_entry_locked
  header-get_key_entry_locked pool z k = elim (Option-cases (lookup_entry ngx z.key_index k)) [
    | inr (e, there) ↦ rw (there, get_key_entry_locked) refl
    | inl gone ↦ elim (Bool-cases (alloc_locked ngx pool (ngx.sizeof_entry + length k)).1) [
      | inl a ↦ rw (gone, get_key_entry_locked, a) refl
      | inr a ↦ rw (gone, get_key_entry_locked, a) refl
    ]
  ]

  header-get_tag_entry_locked :
      (pool : Pool ngx) (z : Zone) (k : Bytes)
      → header (get_tag_entry_locked ngx pool z k).1 ≡ header z
  unfolding get_tag_entry_locked
  header-get_tag_entry_locked pool z k = elim (Option-cases (lookup_entry ngx z.tag_index k)) [
    | inr (e, there) ↦ rw (there, get_tag_entry_locked) refl
    | inl gone ↦ elim (Bool-cases (alloc_locked ngx pool (ngx.sizeof_entry + length k)).1) [
      | inl a ↦ rw (gone, get_tag_entry_locked, a) refl
      | inr a ↦ rw (gone, get_tag_entry_locked, a) refl
    ]
  ]

  pub header-link_exact_key_locked :
      (pool : Pool ngx) (z : Zone) (path key : Bytes)
      → header (link_exact_key_locked ngx pool z path key).1 ≡ header z
  unfolding link_exact_key_locked
  header-link_exact_key_locked pool z path [] = refl
  header-link_exact_key_locked pool z path (c ∷ key) =
      elim (Bool-cases (get_key_entry_locked ngx pool z (c ∷ key)).2) [
        | inl e ↦ rw (e, link_exact_key_locked) (header-get_key_entry_locked pool z (c ∷ key))
        | inr e ↦ rw (e, link_exact_key_locked) (header-get_key_entry_locked pool z (c ∷ key))
      ]

  pub header-link_tags_locked :
      (tags : List Bytes) (pool : Pool ngx) (z : Zone) (path : Bytes)
      → header (link_tags_locked ngx pool z path tags).1 ≡ header z
  unfolding link_tags_locked
  header-link_tags_locked [] pool z path = refl
  header-link_tags_locked (tag ∷ tags) pool z path =
      elim (Bool-cases (get_tag_entry_locked ngx pool z tag).2) [
        | inr e ↦ rw (e, link_tags_locked) (header-get_tag_entry_locked pool z tag)
        | inl e ↦
            elim (Bool-cases
              (alloc_locked ngx (get_tag_entry_locked ngx pool z tag).0 ngx.sizeof_member).1) [
                | inr a ↦ rw (e, link_tags_locked, a) (header-get_tag_entry_locked pool z tag)
                | inl a ↦
                    rw (e, link_tags_locked, a)
                      (header-link_tags_locked tags _ _ path
                        ∙ header-get_tag_entry_locked pool z tag)
              ]
      ]
