-- ===== src/Runtime/States.antt =====
-- The states in the worker's index of the zones (`zone_state_cache_set`, `zone_state_cache_sync` and
-- `zone_bootstrap_complete` in src/ngx_cache_pilot_index_runtime.c).
use ngx_cache_pilot.Base.{
  ℕ, Bool, true, false, ◌==◌, ◌≡◌, refl, subst, not, ap, ◌∙◌, Option, none, some, List, [], ◌∷◌,
  if◌then◌else◌, Bool-cases, inl, inr, arith, none-ne-some,
}
use ngx_cache_pilot.Nginx.{Nginx}
use ngx_cache_pilot.Tree.{Tree, sentinel, branch}
use ngx_cache_pilot.Store.{Store, ZoneState, no_state, get_zone_state}
use ngx_cache_pilot.Registry.{IndexZone, find_cache}
use ngx_cache_pilot.Registry.Caches.{OncePerCache}
use ngx_cache_pilot.Runtime.{
  ZoneIndex, lookup_zone_index, lookup_index_zone, zone_state_cache_set, Runtime,
}

module _ (ngx : Nginx) (now : ℕ) where
  -- The states that the store has for the zones; without a reader none counts as bootstrapped.
  unfoldable pub zone_state_cache_sync :
      Bool → Store ngx → List IndexZone → Tree ZoneIndex → Tree ZoneIndex
  zone_state_cache_sync reader store [] index = index
  zone_state_cache_sync reader store (zone ∷ zones) index =
      let state : ZoneState =
        if reader then get_zone_state ngx now store zone.zone_name else no_state in
      zone_state_cache_sync reader store zones (zone_state_cache_set zone.cache state index)

  unfoldable pub zone_bootstrap_complete : ℕ → Tree ZoneIndex → Bool
  zone_bootstrap_complete cache index = elim (lookup_zone_index cache index) [
    | none ↦ false
    | some x ↦ x.state.bootstrap_complete
  ]

  -- The worker's own state first, then the store's, which the worker keeps.
  unfoldable pub zone_bootstrap_complete_sync : Bool → ℕ → Runtime ngx → Runtime ngx × Bool
  zone_bootstrap_complete_sync reader cache rt =
      if zone_bootstrap_complete cache rt.index
      then (rt, true)
      else elim (lookup_zone_index cache rt.index) [
        | none ↦ (rt, false)
        | some x ↦ if not reader then (rt, false) else (
          record rt {
            index =
                zone_state_cache_set cache (get_zone_state ngx now rt.store x.zone.zone_name)
                  rt.index;
          },
          (get_zone_state ngx now rt.store x.zone.zone_name).bootstrap_complete,
        )
      ]

-- The node with another state.
abbrev with_state : ZoneState → Option ZoneIndex → Option ZoneIndex
with_state state none = none
with_state state (some x) = some (record x { state = state })

lookup_zone_index-zone_state_cache_set :
    (c d : ℕ) (state : ZoneState) (t : Tree ZoneIndex)
    → lookup_zone_index c (zone_state_cache_set d state t)
      ≡ (if d == c then with_state state (lookup_zone_index c t) else lookup_zone_index c t)
unfolding lookup_zone_index zone_state_cache_set
lookup_zone_index-zone_state_cache_set c d state sentinel = ground arith
lookup_zone_index-zone_state_cache_set c d state (branch l x r) = ground (
  arith,
  lookup_zone_index-zone_state_cache_set c d state l,
  lookup_zone_index-zone_state_cache_set c d state r,
)

pub lookup_index_zone-zone_state_cache_set :
    (c d : ℕ) (state : ZoneState) (t : Tree ZoneIndex)
    → lookup_index_zone c (zone_state_cache_set d state t) ≡ lookup_index_zone c t
unfolding lookup_index_zone
lookup_index_zone-zone_state_cache_set c d state t =
    ap (λ o. elim o as (λ _. Option IndexZone) [ none ↦ none | some x ↦ some x.zone ])
      (lookup_zone_index-zone_state_cache_set c d state t)
    ∙ same (d == c) (lookup_zone_index c t)
  where
    same :
        (b : Bool) (o : Option ZoneIndex)
        → (elim (if b then with_state state o else o) as (λ _. Option IndexZone) [
          | none ↦ none
          | some x ↦ some x.zone
        ])
          ≡ elim o as (λ _. Option IndexZone) [ none ↦ none | some x ↦ some x.zone ]
    same true none = refl
    same true (some x) = refl
    same false o = refl

module _ (ngx : Nginx) (now : ℕ) where
  -- The state of another cache.
  pub zone_bootstrap_complete-apart :
      (c d : ℕ) (state : ZoneState) (t : Tree ZoneIndex)
      → (d == c) ≡ false
      → zone_bootstrap_complete ngx now c (zone_state_cache_set d state t)
        ≡ zone_bootstrap_complete ngx now c t
  unfolding zone_bootstrap_complete
  zone_bootstrap_complete-apart c d state t e =
      ap (λ o. elim o as (λ _. Bool) [ none ↦ false | some x ↦ x.state.bootstrap_complete ])
        (lookup_zone_index-zone_state_cache_set c d state t
          ∙ ap (λ b. if b then with_state state (lookup_zone_index c t) else lookup_zone_index c t)
              e)

  -- The state of a registered cache that was just set.
  pub zone_bootstrap_complete-own :
      (c d : ℕ) (state : ZoneState) (t : Tree ZoneIndex) (z : IndexZone)
      → (d == c) ≡ true
      → lookup_index_zone c t ≡ some z
      → zone_bootstrap_complete ngx now c (zone_state_cache_set d state t)
        ≡ state.bootstrap_complete
  unfolding zone_bootstrap_complete lookup_index_zone
  zone_bootstrap_complete-own c d state t z e there =
      ap (λ o. elim o as (λ _. Bool) [ none ↦ false | some x ↦ x.state.bootstrap_complete ])
        (lookup_zone_index-zone_state_cache_set c d state t
          ∙ ap (λ b. if b then with_state state (lookup_zone_index c t) else lookup_zone_index c t)
              e)
      ∙ found (lookup_zone_index c t) there
    where
      found :
          (o : Option ZoneIndex)
          → (elim o as (λ _. Option IndexZone) [ none ↦ none | some x ↦ some x.zone ]) ≡ some z
          → (elim (with_state state o) as (λ _. Bool) [
            | none ↦ false
            | some x ↦ x.state.bootstrap_complete
          ])
            ≡ state.bootstrap_complete
      found none q = absurd (none-ne-some {a = z} q)
      found (some x) q = refl

  -- What a worker can read of a zone.
  abbrev pub read : Bool → Store ngx → IndexZone → ZoneState
  read reader s z = if reader then get_zone_state ngx now s z.zone_name else no_state

  pub lookup_index_zone-zone_state_cache_sync :
      (reader : Bool) (s : Store ngx) (zones : List IndexZone) (t : Tree ZoneIndex) (c : ℕ)
      → lookup_index_zone c (zone_state_cache_sync ngx now reader s zones t) ≡ lookup_index_zone c t
  unfolding zone_state_cache_sync
  lookup_index_zone-zone_state_cache_sync reader s [] t c = refl
  lookup_index_zone-zone_state_cache_sync reader s (z ∷ zones) t c =
      lookup_index_zone-zone_state_cache_sync reader s zones _ c
      ∙ lookup_index_zone-zone_state_cache_set c z.cache (read reader s z) t

  -- A registered cache has the state that the store has for its zone.
  pub zone_bootstrap_complete-zone_state_cache_sync :
      (reader : Bool) (s : Store ngx) (zones : List IndexZone) (t : Tree ZoneIndex) (c : ℕ)
      (w : IndexZone)
      → OncePerCache ngx zones
      → lookup_index_zone c t ≡ some w
      → zone_bootstrap_complete ngx now c (zone_state_cache_sync ngx now reader s zones t)
        ≡ elim (find_cache ngx c zones) [
          | none ↦ zone_bootstrap_complete ngx now c t
          | some z ↦ (read reader s z).bootstrap_complete
        ]
  unfolding zone_state_cache_sync find_cache
  zone_bootstrap_complete-zone_state_cache_sync reader s [] t c w once there = refl
  zone_bootstrap_complete-zone_state_cache_sync reader s (z ∷ zones) t c w (apart, once) there =
      zone_bootstrap_complete-zone_state_cache_sync reader s zones _ c w once
        (lookup_index_zone-zone_state_cache_set c z.cache (read reader s z) t ∙ there)
      ∙ elim (Bool-cases (z.cache == c)) [
        | inl hit ↦
            let same : z.cache ≡ c = ground (arith, hit) in
            let gone : find_cache ngx c zones ≡ none =
              subst (λ d. find_cache ngx d zones ≡ none) same apart in
            rw (hit, find_cache, gone)
              (zone_bootstrap_complete-own c z.cache (read reader s z) t w hit there)
        | inr miss ↦
            rw (miss, find_cache)
              (ap
                (λ b. elim (find_cache ngx c zones) as (λ _. Bool) [
                  | none ↦ b
                  | some y ↦ (read reader s y).bootstrap_complete
                ])
                (zone_bootstrap_complete-apart c z.cache (read reader s z) t miss))
      ]
