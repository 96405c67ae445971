-- ===== src/TagHeaders.antt =====
-- The tags in the headers of a request or a response (`location_enabled` and `request_headers` in
-- src/ngx_cache_pilot_index.c, `index_response_headers` in src/ngx_cache_pilot_index_runtime.c). The
-- parts of a header list are one list here, of names and values.
use ngx_cache_pilot.Base.{
  ℕ, Bytes, Bool, true, false, ◌&&◌, ◌==◌, Option, none, some, List, [], ◌∷◌, length, if◌then◌else◌,
}
use ngx_cache_pilot.Nginx.{Nginx, Rc, ok, declined, error}
use ngx_cache_pilot.Token.{extract_tokens}

-- `names` are the location's tag headers, if there are any configured.
unfoldable pub location_enabled : Bool → Option (List Bytes) → Bool
location_enabled cache_index none = false
location_enabled cache_index (some names) = cache_index

module _ (ngx : Nginx) where
  -- The inner loop, over the wanted names, for one header; `none` is `NGX_ERROR`.
  unfoldable pub header_tags : List Bytes → ℕ → List Bytes → Bytes → Bytes → Option (ℕ × List Bytes)
  header_tags [] room tags key value = some (room, tags)
  header_tags (name ∷ names) room tags key value =
      let found : Option (ℕ × List Bytes) =
        if length key == length name && ngx.nocase key name
        then extract_tokens ngx (length value) room tags value
        else some (room, tags) in
      elim found [ none ↦ none | some (room', tags') ↦ header_tags names room' tags' key value ]

  unfoldable pub headers_tags :
      List Bytes → ℕ → List Bytes → List (Bytes × Bytes) → Option (List Bytes)
  headers_tags names room tags [] = some tags
  headers_tags names room tags ((key, value) ∷ headers) =
      elim (header_tags names room tags key value) [
        | none ↦ none
        | some (room', tags') ↦ headers_tags names room' tags' headers
      ]

  -- `created` tells whether the array of the result can be made.
  unfoldable pub response_headers :
      Bool → List Bytes → ℕ → List (Bytes × Bytes) → Option (List Bytes)
  unfolding headers_tags
  response_headers created names room headers =
      if created then headers_tags names room [] headers else none

  unfoldable pub request_headers :
      Bool → Option (List Bytes) → Bool → ℕ → List (Bytes × Bytes) → Rc × Option (List Bytes)
  unfolding headers_tags
  request_headers cache_index none created room headers = (declined, none)
  request_headers false (some names) created room headers = (declined, none)
  request_headers true (some names) created room headers =
      elim (response_headers created names room headers) [
        | none ↦ (error, none)
        | some [] ↦ (declined, some [])
        | some (t ∷ ts) ↦ (ok, some (t ∷ ts))
      ]
