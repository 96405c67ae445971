-- ===== src/Store/Catalogue.antt =====
-- What the store promises: a catalogue, which gives for each zone the metadata of its files, newest
-- last. `upsert_file_meta` and `delete_file` of src/ngx_cache_pilot_index_store.c refine its
-- operations.
use ngx_cache_pilot.Base.{
  ℕ, Bytes, Bool, true, false, ◌≡◌, refl, sym, ap, ◌∙◌, ◌==ᵇ◌, ==ᵇ_sound, Option, none, some, List,
  [], ◌∷◌, ◌++◌, map, map-append, if◌then◌else◌, NulFree, All, All-append, All-remove_first,
  Bool-cases, Option-cases, inl, inr, subst, remove_first,
}
use ngx_cache_pilot.Nginx.{Nginx}
use ngx_cache_pilot.Zone.{File, Zone}
use ngx_cache_pilot.Zone.Links.{without}
use ngx_cache_pilot.Collect.Unique.{Distinct}
use ngx_cache_pilot.Upsert.{Meta, upsert_locked, delete_locked}
use ngx_cache_pilot.Upsert.Outcome.{stored, upsert_locked_lem, delete_locked_lem}
use ngx_cache_pilot.Upsert.Headers.{header-upsert_locked, header-delete_locked}
use ngx_cache_pilot.Store.{Store, lookup_zone, write_zone, upsert_file_meta, delete_file}
use ngx_cache_pilot.Store.Zones.{
  IsStore, IsReady, IsSettled, names, GotZone, get_zone_locked-GotZone, write_zone-IsStore,
  lookup_zone_sound,
}

-- The metadata that a file records.
abbrev pub meta_of : File → Meta
meta_of f = record {
  path = f.path;
  key = f.key;
  mtime = f.mtime;
  size = f.size;
  tags = f.tag_members;
}

abbrev pub contents : Option Zone → List Meta
contents none = []
contents (some z) = map meta_of z.files

-- The catalogue's own operations.
abbrev pub without_path : Bytes → List Meta → List Meta
without_path p = remove_first (λ m. m.path ==ᵇ p)

abbrev pub put : Meta → Bool → List Meta → List Meta
put m true ms = without_path m.path ms ++ m ∷ []
put m false ms = without_path m.path ms

pub map-without :
    (p : Bytes) (fs : List File) → map meta_of (without p fs) ≡ without_path p (map meta_of fs)
map-without p [] = refl
map-without p (f ∷ fs) = elim (Bool-cases (f.path ==ᵇ p)) [
  | inl hit ↦ rw hit refl
  | inr miss ↦ rw miss (ap (◌∷◌ (meta_of f)) (map-without p fs))
]

module _ (ngx : Nginx) where
  abbrev pub catalogue : Store ngx → Bytes → List Meta
  catalogue s q = contents (lookup_zone q s.zones)

  pub contents-before :
      (s s' : Store ngx) (name : Bytes) (z : Zone)
      → GotZone ngx s s' name z
      → map meta_of z.files ≡ catalogue s name
  contents-before s s' name z g = elim g.before [
    | inl e ↦ sym (ap contents e)
    | inr (e, new) ↦ ap (λ y. map meta_of y.files) new ∙ sym (ap contents e)
  ]

  IsSettled-upsert :
      (m : Meta) (ok : Bool) (fs : List File)
      → NulFree m.path
      → All IsSettled fs
      → All IsSettled (if ok then without m.path fs ++ stored ngx m ∷ [] else without m.path fs)
  IsSettled-upsert m true fs n a =
      All-append IsSettled (without m.path fs) (stored ngx m ∷ [])
        (All-remove_first IsSettled (λ x. x.path ==ᵇ m.path) fs a) ((n, refl), tt)
  IsSettled-upsert m false fs n a = All-remove_first IsSettled (λ x. x.path ==ᵇ m.path) fs a

  map-upsert :
      (m : Meta) (ok : Bool) (fs : List File)
      → map meta_of (if ok then without m.path fs ++ stored ngx m ∷ [] else without m.path fs)
        ≡ put m ok (map meta_of fs)
  map-upsert m true fs =
      map-append meta_of (without m.path fs) (stored ngx m ∷ [])
      ∙ ap (λ ms. ms ++ m ∷ []) (map-without m.path fs)
  map-upsert m false fs = map-without m.path fs

  -- A zone that does not exist holds no path.
  without_path_missing :
      (s : Store ngx) (name q path : Bytes)
      → lookup_zone name s.zones ≡ none
      → catalogue s q ≡ (if name ==ᵇ q then without_path path (catalogue s q) else catalogue s q)
  without_path_missing s name q path gone = elim (Bool-cases (name ==ᵇ q)) [
    | inr differs ↦ rw differs refl
    | inl same ↦ rw (same, ← ==ᵇ_sound name q same, gone) refl
  ]

  -- The outcome of an upsert on the catalogue.
  Upserted : Store ngx → Bytes → Meta → Store ngx × Bool → Type 0
  Upserted s name m r =
      IsStore ngx r.0
      × ((q : Bytes)
          → catalogue r.0 q ≡ (if name ==ᵇ q then put m r.1 (catalogue s q) else catalogue s q))

  upsert_zone-Upserted :
      (now : ℕ) (s s' : Store ngx) (name : Bytes) (m : Meta) (z : Zone)
      → GotZone ngx s s' name z
      → NulFree name
      → NulFree m.path
      → let r = upsert_locked ngx now s'.pool z m in
        Upserted s name m (record { pool = r.0; zones = write_zone name r.1 s'.zones }, r.2)
  unfolding Upserted
  upsert_zone-Upserted now s s' name m z g n np =
      let (w, files, _) = upsert_locked_lem ngx now s'.pool z m g.ready.zone in
      let ok = (upsert_locked ngx now s'.pool z m).2 in
      let (v, found) =
        write_zone-IsStore ngx s' name z _ _ g.store n g.there
          (ap (λ h. h.0) (header-upsert_locked ngx now s'.pool z m)) w
          (subst (All IsSettled) (sym files) (IsSettled-upsert m ok z.files np g.ready.settled)) in
      (
        v,
        λ q.
            ap contents (found q)
            ∙ answer q
                (ap (map meta_of) files
                  ∙ map-upsert m ok z.files
                  ∙ ap (put m ok) (contents-before s s' name z g))
                (g.others q),
      )
    where
      answer :
          (q : Bytes)
          → map meta_of (upsert_locked ngx now s'.pool z m).1.files
            ≡ put m (upsert_locked ngx now s'.pool z m).2 (catalogue s name)
          → ((name ==ᵇ q) ≡ false → lookup_zone q s'.zones ≡ lookup_zone q s.zones)
          → contents (
              if name ==ᵇ q
              then some (upsert_locked ngx now s'.pool z m).1
              else lookup_zone q s'.zones)
            ≡ (if name ==ᵇ q
                then put m (upsert_locked ngx now s'.pool z m).2 (catalogue s q)
                else catalogue s q)
      answer q own others = elim (Bool-cases (name ==ᵇ q)) [
        | inl same ↦ rw same (
            own
            ∙ ap (λ t. put m (upsert_locked ngx now s'.pool z m).2 (catalogue s t))
                (==ᵇ_sound name q same))
        | inr differs ↦ rw differs (ap contents (others differs))
      ]

  -- An upsert with a NUL-free zone name and path keeps a well-formed store well formed. In the catalogue of its zone the entry under the path goes,
  -- and on success the new one is the last; the other zones stay as they are.
  pub upsert_file_meta-catalogue :
      (now : ℕ) (s : Store ngx) (name : Bytes) (m : Meta)
      → IsStore ngx s
      → NulFree name
      → NulFree m.path
      → let r = upsert_file_meta ngx now s name m in
        IsStore ngx r.0
        × ((q : Bytes)
            → catalogue r.0 q ≡ (if name ==ᵇ q then put m r.1 (catalogue s q) else catalogue s q))
  unfolding upsert_file_meta Upserted
  upsert_file_meta-catalogue now s name m v n np = elim (get_zone_locked-GotZone ngx s name v n) [
    | inl (refused, zones, gone) ↦
        rw (refused, upsert_file_meta)
          (
            record {
              ready = subst (All (IsReady ngx)) (sym zones) v.ready;
              unique = subst (λ zs. Distinct (names zs)) (sym zones) v.unique;
            },
            λ q.
                ap (λ zs. contents (lookup_zone q zs)) zones
                ∙ without_path_missing s name q m.path gone,
          )
    | inr (z, found, g) ↦
        rw (found, upsert_file_meta) (upsert_zone-Upserted now s _ name m z g n np)
  ]

  -- The zone written under a name is the one that the name then finds.
  replaced :
      (s : Store ngx) (name q : Bytes) (z : Zone) (f : List Meta → List Meta)
      → map meta_of z.files ≡ f (catalogue s name)
      → contents (if name ==ᵇ q then some z else lookup_zone q s.zones)
        ≡ (if name ==ᵇ q then f (catalogue s q) else catalogue s q)
  replaced s name q z f own = elim (Bool-cases (name ==ᵇ q)) [
    | inl same ↦ rw same (own ∙ ap (λ t. f (catalogue s t)) (==ᵇ_sound name q same))
    | inr differs ↦ rw differs refl
  ]

  -- A deletion with a NUL-free zone name keeps a well-formed store well formed; the entry under the path leaves the catalogue of its zone,
  -- and nothing else changes.
  pub delete_file-catalogue :
      (now : ℕ) (s : Store ngx) (name path : Bytes)
      → IsStore ngx s
      → NulFree name
      → let s' = delete_file ngx now s name path in
        IsStore ngx s'
        × ((q : Bytes)
            → catalogue s' q
              ≡ (if name ==ᵇ q then without_path path (catalogue s q) else catalogue s q))
  unfolding delete_file
  delete_file-catalogue now s name path v n = elim (Option-cases (lookup_zone name s.zones)) [
    | inl gone ↦ rw (gone, delete_file) (v, λ q. without_path_missing s name q path gone)
    | inr (z, there) ↦ rw (there, delete_file) (deleted z there)
  ]
    where
      deleted :
          (z : Zone)
          → lookup_zone name s.zones ≡ some z
          → let r = delete_locked ngx now s.pool z path in
            IsStore ngx (record { pool = r.0; zones = write_zone name r.1 s.zones })
            × ((q : Bytes)
                → contents (lookup_zone q (write_zone name r.1 s.zones))
                  ≡ (if name ==ᵇ q then without_path path (catalogue s q) else catalogue s q))
      deleted z there =
          let (_, ready) = lookup_zone_sound ngx name s.zones z v.ready there in
          let (w, files, _, _, _) = delete_locked_lem ngx now s.pool z path ready.zone in
          let (v', found) =
            write_zone-IsStore ngx s name z _ _ v n there
              (ap (λ h. h.0) (header-delete_locked ngx now s.pool z path)) w
              (subst (All IsSettled) (sym files)
                (All-remove_first IsSettled (λ x. x.path ==ᵇ path) z.files ready.settled)) in
          let own =
            ap (map meta_of) files
            ∙ map-without path z.files
            ∙ ap (λ o. without_path path (contents o)) (sym there) in
          (v', λ q. ap contents (found q) ∙ replaced s name q _ (without_path path) own)
