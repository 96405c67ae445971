-- ===== src/Registry.antt =====
-- The registration of caches for indexing (`ngx_http_cache_index_register_cache` and
-- `ngx_http_cache_index_headers_equal` in src/ngx_cache_pilot_index.c). A pointer to a cache is a
-- number; an array of header names comes with its address.
pub mod Caches
use ngx_cache_pilot.Base.{
  ℕ, Bytes, Bool, true, false, not, ◌&&◌, ◌||◌, ◌==◌, Option, none, some, List, [], ◌∷◌, ◌++◌,
  length, if◌then◌else◌,
}
use ngx_cache_pilot.Nginx.{Nginx}

pub record HeaderArray : Type 0 where
  pub address : ℕ
  pub names : List Bytes

-- `ngx_http_cache_index_zone_t`.
pub record IndexZone : Type 0 where
  pub cache : ℕ
  pub zone_name : Bytes
  pub headers : Option HeaderArray

module _ (ngx : Nginx) where
  pub has_header : Bytes → List Bytes → Bool
  has_header name [] = false
  has_header name (h ∷ hs) = (length name == length h && ngx.nocase name h) || has_header name hs

  pub all_in : List Bytes → List Bytes → Bool
  all_in [] right = true
  all_in (h ∷ hs) right = has_header h right && all_in hs right

  pub headers_equal : Option HeaderArray → Option HeaderArray → Bool
  headers_equal none none = true
  headers_equal none (some r) = false
  headers_equal (some l) none = false
  headers_equal (some l) (some r) =
      if l.address == r.address
      then true
      else length l.names == length r.names && all_in l.names r.names

  -- The zone of a cache that is in the array.
  unfoldable pub find_cache : ℕ → List IndexZone → Option IndexZone
  find_cache cache [] = none
  find_cache cache (z ∷ zs) = if z.cache == cache then some z else find_cache cache zs

  -- `room` tells whether the array can grow; `name` is the name of the cache's shared memory. `false`
  -- is `NGX_ERROR`.
  pub register_cache :
      (configured room : Bool)
      → Option (ℕ × Bytes)
      → Option HeaderArray
      → List IndexZone
      → List IndexZone × Bool
  register_cache configured room none headers zones = (zones, true)
  register_cache configured room (some (cache, name)) headers zones =
      if not configured then (zones, true) else elim (find_cache cache zones) [
        | some zone ↦ (zones, headers_equal zone.headers headers)
        | none ↦
            if room
            then (zones ++ record { cache = cache; zone_name = name; headers = headers } ∷ [], true)
            else (zones, false)
      ]
