-- ===== src/Store/Zones.antt =====
-- The list of zones, and what holds of the store between any two of its operations.
use ngx_cache_pilot.Base.{
  ◌+◌, Bytes, true, false, ◌≡◌, refl, sym, ap, ◌∙◌, ◌==ᵇ◌, ==ᵇ_sound, ==ᵇ_refl, Option, none, some,
  some-inj, none-ne-some, List, [], ◌∷◌, ◌++◌, length, map, map-append, if◌then◌else◌, same_string,
  same_string-==ᵇ, NulFree, All, All-append, arith, Bool-cases, Option-cases, ◌⊎◌, inl, inr, subst,
}
use ngx_cache_pilot.Nginx.{Nginx}
use ngx_cache_pilot.Zone.{File, Zone, Pool, alloc_locked}
use ngx_cache_pilot.Zone.Links.{has_path}
use ngx_cache_pilot.Zone.Invariant.{IsZone}
use ngx_cache_pilot.Zone.Linking.{own_entry}
use ngx_cache_pilot.Collect.Unique.{Distinct, Distinct-append}
use ngx_cache_pilot.Store.{Store, lookup_zone, write_zone, empty_zone, get_zone_locked}

abbrev pub names : List Zone → List Bytes
names = map (λ z. z.name)

-- A file has no NUL in its path, and is linked to the entry of its own key.
abbrev pub IsSettled : File → Type 0
IsSettled f = NulFree f.path × (f.key_entry ≡ own_entry f.key)

module _ (ngx : Nginx) where
  pub record IsReady (z : Zone) : Type 0 where
    pub zone : IsZone ngx z
    pub named : NulFree z.name
    pub settled : All IsSettled z.files

  -- Every zone is well formed, and no two have the same name.
  pub record IsStore (s : Store ngx) : Type 0 where
    pub ready : All IsReady s.zones
    pub unique : Distinct (names s.zones)

  -- The zone that a name finds has that name and is well formed.
  pub lookup_zone_sound :
      (name : Bytes) (zs : List Zone) (z : Zone)
      → All IsReady zs
      → lookup_zone name zs ≡ some z
      → (z.name ≡ name) × IsReady z
  unfolding lookup_zone
  lookup_zone_sound name [] z r e = cc
  lookup_zone_sound name (x ∷ zs) z (r, rs) e = elim (Bool-cases (same_string x.name name)) [
    | inl hit ↦
        subst (λ y. (y.name ≡ name) × IsReady y) (some-inj (rw (hit, lookup_zone) at e))
          (==ᵇ_sound x.name name (sym (same_string-==ᵇ x.name name r.named) ∙ hit), r)
    | inr miss ↦ lookup_zone_sound name zs z rs (rw (miss, lookup_zone) at e)
  ]

  pub lookup_zone_missing :
      (name : Bytes) (zs : List Zone)
      → All IsReady zs
      → lookup_zone name zs ≡ none
      → has_path name (names zs) ≡ false
  unfolding lookup_zone
  lookup_zone_missing name [] r e = refl
  lookup_zone_missing name (x ∷ zs) (r, rs) e = elim (Bool-cases (same_string x.name name)) [
    | inl hit ↦ absurd (none-ne-some {a = x} (sym e ∙ (rw (hit, lookup_zone) refl)))
    | inr miss ↦
        rw (sym (same_string-==ᵇ x.name name r.named) ∙ miss)
          (lookup_zone_missing name zs rs (rw (miss, lookup_zone) at e))
  ]

  -- After a write of a zone its own name finds it, and any other name finds what it found.
  pub lookup_zone-write_zone :
      (name q : Bytes) (zs : List Zone) (z z' : Zone)
      → All IsReady zs
      → lookup_zone name zs ≡ some z
      → z'.name ≡ name
      → NulFree name
      → lookup_zone q (write_zone name z' zs) ≡ (if name ==ᵇ q then some z' else lookup_zone q zs)
  unfolding lookup_zone write_zone
  lookup_zone-write_zone name q [] z z' r e k n = cc
  lookup_zone-write_zone name q (x ∷ zs) z z' (r, rs) e k n =
      elim (Bool-cases (same_string x.name name)) [
        | inl hit ↦
            rw (hit, write_zone)
              (here (==ᵇ_sound x.name name (sym (same_string-==ᵇ x.name name r.named) ∙ hit)))
        | inr miss ↦
            rw (miss, write_zone)
              (there (sym (same_string-==ᵇ x.name name r.named) ∙ miss)
                (lookup_zone-write_zone name q zs z z' rs (rw (miss, lookup_zone) at e) k n))
      ]
    where
      here :
          x.name ≡ name
          → lookup_zone q (z' ∷ zs) ≡ (if name ==ᵇ q then some z' else lookup_zone q (x ∷ zs))
      here same = ground (
        arith,
        same_string-==ᵇ z'.name q (subst NulFree (sym k) n),
        ap (λ t. t ==ᵇ q) k,
        same_string-==ᵇ x.name q r.named,
        ap (λ t. t ==ᵇ q) same,
      )

      there :
          (x.name ==ᵇ name) ≡ false
          → lookup_zone q (write_zone name z' zs)
            ≡ (if name ==ᵇ q then some z' else lookup_zone q zs)
          → lookup_zone q (x ∷ write_zone name z' zs)
            ≡ (if name ==ᵇ q then some z' else lookup_zone q (x ∷ zs))
      there other rest = elim (Bool-cases (name ==ᵇ q)) [
        | inl same ↦ ground (
          arith,
          rest,
          same,
          same_string-==ᵇ x.name q r.named,
          ap (λ t. x.name ==ᵇ t) (==ᵇ_sound name q same),
        )
        | inr differs ↦ ground (arith, rest, differs)
      ]

  names-write_zone :
      (name : Bytes) (zs : List Zone) (z' : Zone)
      → All IsReady zs
      → z'.name ≡ name
      → names (write_zone name z' zs) ≡ names zs
  unfolding write_zone
  names-write_zone name [] z' r k = refl
  names-write_zone name (x ∷ zs) z' (r, rs) k = elim (Bool-cases (same_string x.name name)) [
    | inl hit ↦
        rw (hit, write_zone)
          (ap (λ t. t ∷ names zs)
            (k ∙ sym (==ᵇ_sound x.name name (sym (same_string-==ᵇ x.name name r.named) ∙ hit))))
    | inr miss ↦ rw (miss, write_zone) (ap (◌∷◌ x.name) (names-write_zone name zs z' rs k))
  ]

  write_zone-IsReady :
      (name : Bytes) (zs : List Zone) (z' : Zone)
      → All IsReady zs
      → IsReady z'
      → All IsReady (write_zone name z' zs)
  unfolding write_zone
  write_zone-IsReady name [] z' r k = tt
  write_zone-IsReady name (x ∷ zs) z' (r, rs) k = elim (Bool-cases (same_string x.name name)) [
    | inl hit ↦ rw (hit, write_zone) (k, rs)
    | inr miss ↦ rw (miss, write_zone) (r, write_zone-IsReady name zs z' rs k)
  ]

  -- The store after a write of a zone with the same name.
  pub write_zone-IsStore :
      (s : Store ngx) (name : Bytes) (z z' : Zone) (pool : Pool ngx)
      → IsStore s
      → NulFree name
      → lookup_zone name s.zones ≡ some z
      → z'.name ≡ z.name
      → IsZone ngx z'
      → All IsSettled z'.files
      → IsStore (record { pool = pool; zones = write_zone name z' s.zones })
        × ((q : Bytes)
            → lookup_zone q (write_zone name z' s.zones)
              ≡ (if name ==ᵇ q then some z' else lookup_zone q s.zones))
  write_zone-IsStore s name z z' pool v n e k w settled =
      let (same, _) = lookup_zone_sound name s.zones z v.ready e in
      (
        record {
          ready =
              write_zone-IsReady name s.zones z' v.ready
                (record { zone = w; named = subst NulFree (sym (k ∙ same)) n; settled = settled });
          unique =
              subst Distinct (sym (names-write_zone name s.zones z' v.ready (k ∙ same))) v.unique;
        },
        λ q. lookup_zone-write_zone name q s.zones z z' v.ready e (k ∙ same) n,
      )

  lookup_zone-append :
      (q : Bytes) (zs : List Zone) (z : Zone)
      → lookup_zone q (zs ++ z ∷ []) ≡ elim (lookup_zone q zs) [
        | some x ↦ some x
        | none ↦ if same_string z.name q then some z else none
      ]
  unfolding lookup_zone
  lookup_zone-append q [] z = refl
  lookup_zone-append q (x ∷ zs) z = elim (Bool-cases (same_string x.name q)) [
    | inl hit ↦ rw (hit, lookup_zone) refl
    | inr miss ↦ rw (miss, lookup_zone) (lookup_zone-append q zs z)
  ]

  pub empty_zone-IsZone : (name : Bytes) → IsZone ngx (empty_zone name)
  empty_zone-IsZone name = record {
    keys = record { sorted = tt; hashed = tt };
    tags = record { sorted = tt; hashed = tt };
    paths = record { sorted = tt; hashed = tt; unique = tt };
    unique = tt;
    agree = λ q. refl;
    key_queues = λ t. refl;
    tag_queues = λ t. refl;
  }

  -- A zone that is found or made. What it holds is what the name stood for before, and no other name
  -- stands for anything new.
  pub record GotZone (s s' : Store ngx) (name : Bytes) (z : Zone) : Type 0 where
    pub store : IsStore s'
    pub there : lookup_zone name s'.zones ≡ some z
    pub ready : IsReady z
    pub before :
        (lookup_zone name s.zones ≡ some z)
        ⊎ ((lookup_zone name s.zones ≡ none) × (z ≡ empty_zone name))
    pub others : (q : Bytes) → (name ==ᵇ q) ≡ false → lookup_zone q s'.zones ≡ lookup_zone q s.zones

  pub get_zone_locked-GotZone :
      (s : Store ngx) (name : Bytes)
      → IsStore s
      → NulFree name
      → let r = get_zone_locked ngx s name true in
        ((r.1 ≡ none) × (r.0.zones ≡ s.zones) × (lookup_zone name s.zones ≡ none))
        ⊎ ((z : Zone) × (r.1 ≡ some z) × GotZone s r.0 name z)
  unfolding get_zone_locked
  get_zone_locked-GotZone s name v n = elim (Option-cases (lookup_zone name s.zones)) [
    | inr (z, e) ↦
        rw (e, get_zone_locked)
          (inr (
            z,
            refl,
            record {
              store = v;
              there = e;
              ready = (lookup_zone_sound name s.zones z v.ready e).1;
              before = inl e;
              others = λ q d. refl;
            },
          ))
    | inl e ↦ elim (Bool-cases (alloc_locked ngx s.pool (ngx.sizeof_zone + length name)).1) [
      | inr refused ↦ rw (e, get_zone_locked, refused) (inl (refl, refl, refl))
      | inl granted ↦ rw (e, get_zone_locked, granted) (inr (empty_zone name, refl, made e))
    ]
  ]
    where
      made :
          lookup_zone name s.zones ≡ none
          → GotZone s
              (record {
                pool = (alloc_locked ngx s.pool (ngx.sizeof_zone + length name)).0;
                zones = s.zones ++ empty_zone name ∷ [];
              })
              name
              (empty_zone name)
      made e = record {
        store = record {
          ready = All-append IsReady s.zones (empty_zone name ∷ []) v.ready (fresh, tt);
          unique = subst Distinct (sym (map-append (λ z. z.name) s.zones (empty_zone name ∷ []))) (
              Distinct-append name (names s.zones) v.unique
                (lookup_zone_missing name s.zones v.ready e));
        };
        there =
            lookup_zone-append name s.zones (empty_zone name)
            ∙ (rw (e, same_string-==ᵇ name name n, ==ᵇ_refl name) refl);
        ready = fresh;
        before = inr (e, refl);
        others = λ q d.
            lookup_zone-append q s.zones (empty_zone name)
            ∙ same q (same_string-==ᵇ name q n ∙ d) (lookup_zone q s.zones);
      }
        where
          fresh : IsReady (empty_zone name)
          fresh = record { zone = empty_zone-IsZone name; named = n; settled = tt }

          same :
              (q : Bytes)
              → same_string name q ≡ false
              → (o : Option Zone)
              → elim o as (λ _. Option Zone) [
                | some x ↦ some x
                | none ↦ if same_string name q then some (empty_zone name) else none
              ]
                ≡ o
          same q d none = rw d refl
          same q d (some x) = refl
