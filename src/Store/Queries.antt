-- ===== src/Store/Queries.antt =====
-- The three collections of the store answer from the catalogue
-- (`collect_paths_by_tags`, `…_by_exact_key` and `…_by_key_prefix` in src/ngx_cache_pilot_index_store.c).
use ngx_cache_pilot.Base.{
  ℕ, ◌≤◌, Bytes, Bool, true, false, not, ◌&&◌, ◌≡◌, refl, ap, ◌∙◌, ◌==ᵇ◌, Option, none, some,
  some-inj, none-ne-some, List, [], ◌∷◌, map, if◌then◌else◌, NulFree, All, arith, Option-cases, inl,
  inr, begins, length, subst,
}
use ngx_cache_pilot.Nginx.{Nginx}
use ngx_cache_pilot.Index.{is_empty}
use ngx_cache_pilot.Zone.{File, Zone}
use ngx_cache_pilot.Zone.Links.{has_path, key_links, linked, entry_links}
use ngx_cache_pilot.Zone.Invariant.{IsZone}
use ngx_cache_pilot.Zone.Linking.{own_entry}
use ngx_cache_pilot.Upsert.{Meta}
use ngx_cache_pilot.Collect.Unique.{Collected, Distinct}
use ngx_cache_pilot.Collect.Answers.{
  some_file, shares, CleanPaths, collect_tags-Collected, collect_key-Collected,
  collect_prefix-Collected,
}
use ngx_cache_pilot.Collect.Total.{
  tag_hits, Succeeds, collect_tags_total, collect_key_total, collect_prefix_total,
}
use ngx_cache_pilot.Store.{
  Store, lookup_zone, collect_paths_by_tags, collect_paths_by_exact_key,
  collect_paths_by_key_prefix,
}
use ngx_cache_pilot.Store.Zones.{IsStore, IsSettled, lookup_zone_sound}
use ngx_cache_pilot.Store.Catalogue.{meta_of, catalogue}

-- The catalogue has an entry with the path that passes the test.
abbrev pub some_meta : (Meta → Bool) → Bytes → List Meta → Bool
some_meta test p [] = false
some_meta test p (m ∷ ms) = if (m.path ==ᵇ p) && test m then true else some_meta test p ms

-- An answer: no path twice, and exactly those of the entries that pass the test.
abbrev pub Answers : (Meta → Bool) → List Meta → List Bytes → Type 0
Answers test ms out = Distinct out × ((p : Bytes) → has_path p out ≡ some_meta test p ms)

-- The key, which an entry is found under only if it is not empty.
abbrev pub has_key : Bytes → Meta → Bool
has_key key m = not (is_empty key) && (m.key ==ᵇ key)

some_file_meta :
    (test : Meta → Bool) (by_file : File → Bool) (p : Bytes) (fs : List File)
    → All IsSettled fs
    → ((f : File) → IsSettled f → by_file f ≡ test (meta_of f))
    → some_file by_file p fs ≡ some_meta test p (map meta_of fs)
some_file_meta test by_file p [] a k = refl
some_file_meta test by_file p (f ∷ fs) (a, as') k =
    ground (arith, k f a, some_file_meta test by_file p fs as' k)

has_key-own :
    (key own : Bytes)
    → has_path key (entry_links (own_entry own)) ≡ (not (is_empty key) && (own ==ᵇ key))
has_key-own [] [] = refl
has_key-own [] (c ∷ own) = refl
has_key-own (d ∷ key) [] = refl
has_key-own (d ∷ key) (c ∷ own) = ground arith

IsSettled-CleanPaths : (fs : List File) → All IsSettled fs → CleanPaths fs
IsSettled-CleanPaths [] a = tt
IsSettled-CleanPaths (f ∷ fs) (a, as') = (a.0, IsSettled-CleanPaths fs as')

Collected-Answers :
    (test : Meta → Bool) (by_file : File → Bool) (fs : List File) (out : List Bytes)
    → All IsSettled fs
    → ((f : File) → IsSettled f → by_file f ≡ test (meta_of f))
    → Collected [] (λ p. some_file by_file p fs) out
    → Answers test (map meta_of fs) out
Collected-Answers test by_file fs out a k c =
    (c.distinct, λ p. c.answer p ∙ some_file_meta test by_file p fs a k)

module _ (ngx : Nginx) (s : Store ngx) (v : IsStore ngx s) (name : Bytes) where
  no_zone :
      (test : Meta → Bool) (room r : ℕ) (out : List Bytes)
      → lookup_zone name s.zones ≡ none
      → ◌≡◌ {A = Option (ℕ × List Bytes)} (some (room, [])) (some (r, out))
      → Answers test (catalogue ngx s name) out
  no_zone test room r out gone e =
      subst (Answers test (catalogue ngx s name)) (ap (λ t. t.1) (some-inj e))
        (tt, λ p. rw gone refl)

  a_zone :
      (test : Meta → Bool) (by_file : File → Bool) (z : Zone) (out : List Bytes)
      → lookup_zone name s.zones ≡ some z
      → ((f : File) → IsSettled f → by_file f ≡ test (meta_of f))
      → (IsZone ngx z → CleanPaths z.files → Collected [] (λ p. some_file by_file p z.files) out)
      → Answers test (catalogue ngx s name) out
  a_zone test by_file z out there k c =
      let ready = (lookup_zone_sound ngx name s.zones z v.ready there).1 in
      rw there (
        Collected-Answers test by_file z.files out ready.settled k
          (c ready.zone (IsSettled-CleanPaths z.files ready.settled)))

  -- In a well-formed store, whatever is collected by tags has no path twice, and holds a path exactly if an entry of the zone's
  -- catalogue with that path has one of the tags.
  pub collect_paths_by_tags-Answers :
      (created : Bool) (room r : ℕ) (tags out : List Bytes)
      → collect_paths_by_tags ngx created room s name tags ≡ some (r, out)
      → Answers (λ m. shares tags m.tags) (catalogue ngx s name) out
  unfolding collect_paths_by_tags
  collect_paths_by_tags-Answers false room r tags out e = absurd (none-ne-some {a = (r, out)} e)
  collect_paths_by_tags-Answers true room r tags out e =
      elim (Option-cases (lookup_zone name s.zones)) [
        | inl gone ↦
            no_zone (λ m. shares tags m.tags) room r out gone
              (rw (gone, collect_paths_by_tags) at e)
        | inr (z, there) ↦
            a_zone (λ m. shares tags m.tags) (λ f. shares tags f.tag_members) z out there
              (λ f a. refl)
              (λ w c.
                collect_tags-Collected ngx z w c tags room [] r out tt tt
                  (rw (there, collect_paths_by_tags) at e))
      ]

  -- In a well-formed store, whatever is collected by a key has no path twice, and holds a path exactly if an entry of the
  -- zone's catalogue with that path has that key, which is not empty.
  pub collect_paths_by_exact_key-Answers :
      (created : Bool) (room r : ℕ) (key : Bytes) (out : List Bytes)
      → collect_paths_by_exact_key ngx created room s name key ≡ some (r, out)
      → Answers (has_key key) (catalogue ngx s name) out
  unfolding collect_paths_by_exact_key
  collect_paths_by_exact_key-Answers false room r key out e = absurd (none-ne-some {a = (r, out)} e)
  collect_paths_by_exact_key-Answers true room r key out e =
      elim (Option-cases (lookup_zone name s.zones)) [
        | inl gone ↦
            no_zone (has_key key) room r out gone (rw (gone, collect_paths_by_exact_key) at e)
        | inr (z, there) ↦
            a_zone (has_key key) (λ f. has_path key (key_links f)) z out there
              (λ f a. ap (λ o. has_path key (entry_links o)) a.1 ∙ has_key-own key f.key)
              (λ w c.
                collect_key-Collected ngx z w c key room [] r out tt tt
                  (rw (there, collect_paths_by_exact_key) at e))
      ]

  -- In a well-formed store, whatever is collected by a prefix without NUL has no path twice, and holds a path exactly if an entry of
  -- the zone's catalogue with that path has a key that begins with the prefix.
  pub collect_paths_by_key_prefix-Answers :
      (created : Bool) (room r : ℕ) (prefix : Bytes) (out : List Bytes)
      → NulFree prefix
      → collect_paths_by_key_prefix ngx created room s name prefix ≡ some (r, out)
      → Answers (λ m. begins prefix m.key) (catalogue ngx s name) out
  unfolding collect_paths_by_key_prefix
  collect_paths_by_key_prefix-Answers false room r prefix out n e =
      absurd (none-ne-some {a = (r, out)} e)
  collect_paths_by_key_prefix-Answers true room r prefix out n e =
      elim (Option-cases (lookup_zone name s.zones)) [
        | inl gone ↦
            no_zone (λ m. begins prefix m.key) room r out gone
              (rw (gone, collect_paths_by_key_prefix) at e)
        | inr (z, there) ↦
            a_zone (λ m. begins prefix m.key) (λ f. begins prefix f.key) z out there (λ f a. refl)
              (λ w c.
                collect_prefix-Collected prefix z.files room [] r out n c tt tt
                  (rw (there, collect_paths_by_key_prefix) at e))
      ]

  abbrev pub files_of : List File
  files_of = elim (lookup_zone name s.zones) [ none ↦ [] | some z ↦ z.files ]

  -- In a well-formed store, with an array for the result and room for all paths that are linked, the collections succeed.
  pub collect_paths_total :
      (room : ℕ) (tags : List Bytes) (key prefix : Bytes)
      → (tag_hits tags files_of ≤ room → Succeeds (collect_paths_by_tags ngx true room s name tags))
        × (length (linked key_links key files_of) ≤ room
            → Succeeds (collect_paths_by_exact_key ngx true room s name key))
        × (length files_of ≤ room
            → Succeeds (collect_paths_by_key_prefix ngx true room s name prefix))
  unfolding collect_paths_by_tags collect_paths_by_exact_key collect_paths_by_key_prefix
  collect_paths_total room tags key prefix = elim (Option-cases (lookup_zone name s.zones)) [
    | inl gone ↦
        rw (gone, collect_paths_by_tags, collect_paths_by_exact_key, collect_paths_by_key_prefix)
          (λ h. (room, [], refl), λ h. (room, [], refl), λ h. (room, [], refl))
    | inr (z, there) ↦
        let (_, ready) = lookup_zone_sound ngx name s.zones z v.ready there in
        rw
          (
            there, collect_paths_by_tags, collect_paths_by_exact_key, collect_paths_by_key_prefix,
            files_of,
          )
          (
            λ h. collect_tags_total ngx z ready.zone tags room [] h,
            λ h. collect_key_total ngx z ready.zone key room [] h,
            λ h. collect_prefix_total prefix z.files room [] h,
          )
  ]
