-- ===== src/Mode.antt =====
-- Whether a request purges softly (`ngx_http_cache_pilot_request_mode` in src/ngx_cache_pilot_module.c).
-- The parts of the request's header list are one list here, of names and values.
pub mod Headers
use ngx_cache_pilot.Base.{
  ℕ, Bytes, Bool, true, false, ◌&&◌, ◌||◌, ◌==◌, ◌==ᵇ◌, Option, none, some, List, [], ◌∷◌, length,
  if◌then◌else◌, codes,
}
use ngx_cache_pilot.Nginx.{Nginx}

module _ (ngx : Nginx) where
  -- The first 4 bytes agree, in either case.
  pub is_soft_value : Bytes → Bool
  is_soft_value value =
      (value ==ᵇ codes "1")
      || (length value == 4 && ngx.nocase value (codes "soft"))
      || (length value == 4 && ngx.nocase value (codes "true"))

  unfoldable pub is_mode_header : Bytes → Bytes → Bool
  is_mode_header mode_header key = length key == length mode_header && ngx.nocase key mode_header

  pub first_mode : Bool → Bytes → List (Bytes × Bytes) → Bool
  first_mode default_soft mode_header [] = default_soft
  first_mode default_soft mode_header ((key, value) ∷ headers) =
      if is_mode_header mode_header key
      then is_soft_value value
      else first_mode default_soft mode_header headers

  -- `none` is a location without configuration.
  pub request_mode : Bool → Option Bytes → List (Bytes × Bytes) → Bool
  request_mode default_soft none headers = default_soft
  request_mode default_soft (some []) headers = default_soft
  request_mode default_soft (some (c ∷ cs)) headers = first_mode default_soft (c ∷ cs) headers
