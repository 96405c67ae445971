-- ===== src/Store/States.antt =====
-- The normalized state of a zone (`normalize_zone_state` in src/ngx_cache_pilot_index_store.c).
use ngx_cache_pilot.Base.{ℕ, ◌≤◌, Bool, true, false, ◌≡◌, refl, arith, ◌≢◌}
use ngx_cache_pilot.Store.{ZoneState, fill_bootstrap_at, normalize_zone_state}

-- A state by its three fields.
abbrev state_of : Bool → ℕ → ℕ → ZoneState
state_of complete boot update = record {
  bootstrap_complete = complete;
  last_bootstrap_at = boot;
  last_updated_at = update;
}

abbrev IsNormalTimes : Bool → ℕ → ℕ → Type 0
IsNormalTimes false boot update = (boot ≡ 0) × (update ≡ 0)
IsNormalTimes true boot update = (boot ≢ 0) × (boot ≤ update)

-- Before the bootstrap there are no times; after it there is a bootstrap time, and no update before it.
abbrev pub IsNormal : ZoneState → Type 0
IsNormal s = IsNormalTimes s.bootstrap_complete s.last_bootstrap_at s.last_updated_at

-- If the clock does not read 0, normalizing yields a normal state.
pub normalize_zone_state-IsNormal :
    (now : ℕ) (s : ZoneState) → now ≢ 0 → IsNormal (normalize_zone_state now s)
unfolding normalize_zone_state fill_bootstrap_at
normalize_zone_state-IsNormal now s h =
    by_fields s.bootstrap_complete s.last_bootstrap_at s.last_updated_at
  where
    by_fields : (c : Bool) (b u : ℕ) → IsNormal (normalize_zone_state now (state_of c b u))
    by_fields false b u = (refl, refl)
    by_fields true b u = ground arith

-- Normalizing leaves a normal state alone.
pub normalize_zone_state_normal :
    (now : ℕ) (s : ZoneState) → IsNormal s → normalize_zone_state now s ≡ s
unfolding normalize_zone_state fill_bootstrap_at
normalize_zone_state_normal now s h =
    by_fields s.bootstrap_complete s.last_bootstrap_at s.last_updated_at h
  where
    by_fields :
        (c : Bool) (b u : ℕ)
        → IsNormal (state_of c b u)
        → normalize_zone_state now (state_of c b u) ≡ state_of c b u
    by_fields false b u (hb, hu) = ground (arith, hb, hu)
    by_fields true b u (hb, hu) = ground (arith, hb, hu)
