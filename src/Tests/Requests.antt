-- ===== src/Tests/Requests.antt =====
-- Registration, counters and the mode of a request on the concrete platform.
use ngx_cache_pilot.Base.{true, false, ◌≡◌, refl, Option, some, List, [], ◌∷◌, codes, ◌⊎◌}
use ngx_cache_pilot.Registry.{HeaderArray, IndexZone, find_cache, headers_equal, register_cache}
use ngx_cache_pilot.Registry.Caches.{OncePerCache, register_cache_lem}
use ngx_cache_pilot.Mode.{is_soft_value, is_mode_header, request_mode}
use ngx_cache_pilot.Mode.Headers.{request_mode_lem}
use ngx_cache_pilot.Tests.Platform.{platform}

abbrev headers : Option HeaderArray
headers = some (record { address = 5; names = codes "Cache-Tag" ∷ [] })

abbrev one_cache : List IndexZone
one_cache = record { cache = 1; zone_name = codes "z"; headers = headers } ∷ []

one_cache-OncePerCache : OncePerCache platform one_cache
unfolding find_cache
one_cache-OncePerCache = (refl, tt)

register_cache_lem_example :
    let r = register_cache platform true true (some (2, codes "y")) headers one_cache in
    OncePerCache platform r.0
    × (r.1 ≡ false → r.0 ≡ one_cache)
    × (r.1 ≡ true
        → (z : IndexZone) × (find_cache platform 2 r.0 ≡ some z)
          × ((headers_equal platform z.headers headers ≡ true) ⊎ (z.headers ≡ headers)))
register_cache_lem_example =
    register_cache_lem platform true 2 (codes "y") headers one_cache one_cache-OncePerCache

is_mode : is_mode_header platform (codes "X-Mode") (codes "x-mode") ≡ true
unfolding is_mode_header
is_mode = refl

is_host : is_mode_header platform (codes "X-Mode") (codes "Host") ≡ false
unfolding is_mode_header
is_host = refl

request_mode_lem_example :
    (request_mode platform false
        (some (codes "X-Mode"))
        ((codes "Host", codes "h") ∷ (codes "x-mode", codes "SOFT") ∷ [])
      ≡ is_soft_value platform (codes "SOFT"))
    × (request_mode platform false (some (codes "X-Mode")) ((codes "Host", codes "h") ∷ []) ≡ false)
request_mode_lem_example =
    request_mode_lem platform 88 (codes "-Mode") false ((codes "Host", codes "h") ∷ []) []
      (codes "x-mode") (codes "SOFT") (is_host, tt) is_mode
