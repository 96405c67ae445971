-- ===== src/Store/Flags.antt =====
-- Whether a zone is bootstrapped: the operations on its files leave that alone.
use ngx_cache_pilot.Base.{
  ℕ, Bytes, Bool, true, false, ◌≡◌, refl, sym, ap, ◌∙◌, ◌==ᵇ◌, ==ᵇ_sound, Option, none, some,
  if◌then◌else◌, NulFree, Bool-cases, Option-cases, inl, inr, arith, true-ne-false,
}
use ngx_cache_pilot.Nginx.{Nginx}
use ngx_cache_pilot.Zone.{Zone}
use ngx_cache_pilot.Zone.Headers.{header}
use ngx_cache_pilot.Upsert.{Meta}
use ngx_cache_pilot.Upsert.Headers.{header-upsert_locked, header-delete_locked}
use ngx_cache_pilot.Store.{
  Store, ZoneState, no_state, lookup_zone, write_zone, write_state, fill_bootstrap_at,
  normalize_zone_state, get_zone_locked, get_zone_state, set_zone_state, upsert_file_meta,
  delete_file,
}
use ngx_cache_pilot.Store.Zones.{
  IsStore, GotZone, get_zone_locked-GotZone, lookup_zone-write_zone, lookup_zone_sound,
}

abbrev pub flag_of : Option Zone → Bool
flag_of none = false
flag_of (some z) = z.bootstrap_complete

module _ (ngx : Nginx) where
  abbrev pub is_booted : Store ngx → Bytes → Bool
  is_booted s q = flag_of (lookup_zone q s.zones)

  normalize_zone_state_flag :
      (now : ℕ) (st : ZoneState)
      → (normalize_zone_state now st).bootstrap_complete ≡ st.bootstrap_complete
  unfolding normalize_zone_state fill_bootstrap_at
  normalize_zone_state_flag now st = ground arith

  -- What a worker reads.
  pub get_zone_state_flag :
      (now : ℕ) (s : Store ngx) (q : Bytes)
      → (get_zone_state ngx now s q).bootstrap_complete ≡ is_booted s q
  unfolding get_zone_state
  get_zone_state_flag now s q = elim (Option-cases (lookup_zone q s.zones)) [
    | inl gone ↦ rw (gone, get_zone_state) (normalize_zone_state_flag now no_state)
    | inr (z, there) ↦ rw (there, get_zone_state) (normalize_zone_state_flag now _)
  ]

  got_flag :
      (s s' : Store ngx) (name : Bytes) (z : Zone)
      → GotZone ngx s s' name z
      → z.bootstrap_complete ≡ is_booted s name
  got_flag s s' name z g = elim g.before [
    | inl there ↦ sym (ap flag_of there)
    | inr (gone, fresh) ↦ ap (λ x. x.bootstrap_complete) fresh ∙ sym (ap flag_of gone)
  ]

  -- The flags after a write of a zone that was found or made.
  written :
      (s s' : Store ngx) (name : Bytes) (z z' : Zone) (q : Bytes)
      → NulFree name
      → GotZone ngx s s' name z
      → z'.name ≡ z.name
      → flag_of (lookup_zone q (write_zone name z' s'.zones))
        ≡ (if name ==ᵇ q then z'.bootstrap_complete else is_booted s q)
  written s s' name z z' q n g same =
      let found =
        lookup_zone-write_zone ngx name q s'.zones z z' g.store.ready g.there
          (same ∙ (lookup_zone_sound ngx name s'.zones z g.store.ready g.there).0) n in
      ap flag_of found ∙ elim (Bool-cases (name ==ᵇ q)) [
        | inl hit ↦ rw hit refl
        | inr miss ↦ rw miss (ap flag_of (g.others q miss))
      ]

  kept_flag :
      (s s' : Store ngx) (name : Bytes) (z z' : Zone) (q : Bytes)
      → NulFree name
      → GotZone ngx s s' name z
      → header z' ≡ header z
      → flag_of (lookup_zone q (write_zone name z' s'.zones)) ≡ is_booted s q
  kept_flag s s' name z z' q n g same =
      written s s' name z z' q n g (ap (λ t. t.0) same) ∙ elim (Bool-cases (name ==ᵇ q)) [
        | inl hit ↦
            rw hit (
              ap (λ t. t.1) same ∙ got_flag s s' name z g ∙ ap (is_booted s) (==ᵇ_sound name q hit))
        | inr miss ↦ rw miss refl
      ]

  -- An upsert leaves every zone's flag alone.
  pub is_booted-upsert_file_meta :
      (now : ℕ) (s : Store ngx) (name : Bytes) (m : Meta) (q : Bytes)
      → IsStore ngx s
      → NulFree name
      → is_booted (upsert_file_meta ngx now s name m).0 q ≡ is_booted s q
  unfolding upsert_file_meta
  is_booted-upsert_file_meta now s name m q v n = elim (get_zone_locked-GotZone ngx s name v n) [
    | inl (refused, zones, gone) ↦
        rw (refused, upsert_file_meta) (ap (λ zs. flag_of (lookup_zone q zs)) zones)
    | inr (z, found, g) ↦
        rw (found, upsert_file_meta)
          (kept_flag s _ name z _ q n g (header-upsert_locked ngx now _ z m))
  ]

  pub is_booted-delete_file :
      (now : ℕ) (s : Store ngx) (name path : Bytes) (q : Bytes)
      → IsStore ngx s
      → NulFree name
      → is_booted (delete_file ngx now s name path) q ≡ is_booted s q
  unfolding delete_file
  is_booted-delete_file now s name path q v n = elim (Option-cases (lookup_zone name s.zones)) [
    | inl gone ↦ rw (gone, delete_file) refl
    | inr (z, there) ↦
        rw (there, delete_file)
          (kept_flag s s name z _ q n (own z there) (header-delete_locked ngx now s.pool z path))
  ]
    where
      own : (z : Zone) → lookup_zone name s.zones ≡ some z → GotZone ngx s s name z
      own z there = record {
        store = v;
        there = there;
        ready = (lookup_zone_sound ngx name s.zones z v.ready there).1;
        before = inl there;
        others = λ q d. refl;
      }

  -- The state that is set is the zone's on success, and no other zone's; a failure changes none.
  pub is_booted-set_zone_state :
      (now : ℕ) (s : Store ngx) (name : Bytes) (st : ZoneState) (q : Bytes)
      → IsStore ngx s
      → NulFree name
      → let r = set_zone_state ngx now s name st in
        (r.1 ≡ true
          → is_booted r.0 q ≡ (if name ==ᵇ q then st.bootstrap_complete else is_booted s q))
        × (r.1 ≡ false → is_booted r.0 q ≡ is_booted s q)
  unfolding set_zone_state
  is_booted-set_zone_state now s name st q v n = elim (get_zone_locked-GotZone ngx s name v n) [
    | inl (refused, zones, gone) ↦
        rw (refused, set_zone_state)
          (λ e. absurd (true-ne-false (sym e)), λ _. ap (λ zs. flag_of (lookup_zone q zs)) zones)
    | inr (z, found, g) ↦ rw (found, set_zone_state) (set z g)
  ]
    where
      set :
          (z : Zone)
          → GotZone ngx s (get_zone_locked ngx s name true).0 name z
          → let now_flag = flag_of (
              lookup_zone q (
                write_zone name
                  (write_state ngx (normalize_zone_state now st) z)
                  (get_zone_locked ngx s name true).0.zones)) in
            (true ≡ true → now_flag ≡ (if name ==ᵇ q then st.bootstrap_complete else is_booted s q))
            × (true ≡ false → now_flag ≡ is_booted s q)
      set z g =
          let w = written s _ name z (write_state ngx (normalize_zone_state now st) z) q n g refl in
          (
            λ e.
                w
                ∙ ap (λ b. if name ==ᵇ q then b else is_booted s q)
                    (normalize_zone_state_flag now st),
            λ e. absurd (true-ne-false e),
          )
