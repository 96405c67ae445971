-- ===== src/Filter.antt =====
-- The indexing of a response that is being cached (`index_header_filter` and `index_log_handler` in
-- src/ngx_cache_pilot_index_runtime.c, on Linux): the filter keeps the tags with the request, and
-- the log handler puts the file into the index.
pub mod Committed
use ngx_cache_pilot.Base.{
  ℕ, Bytes, Bool, true, false, not, ◌&&◌, ◌||◌, ◌==◌, Option, none, some, List, [], ◌∷◌, length,
  if◌then◌else◌,
}
use ngx_cache_pilot.Nginx.{Nginx}
use ngx_cache_pilot.Index.{is_empty}
use ngx_cache_pilot.Upsert.{Meta}
use ngx_cache_pilot.Store.{Store, upsert_file_meta}
use ngx_cache_pilot.Request.{concat}
use ngx_cache_pilot.TagHeaders.{location_enabled, response_headers}

-- The request at the time of its response. `cached` tells whether it has a cache entry, `upstream`
-- whether an upstream answers, `zone` is the name of the zone under which the cache is registered,
-- `writer` whether there is a store to write to; `created`, `room` and `text` are what the pool grants
-- for the array of the tags, for tags, and for the text of the key.
pub record Exchange : Type 0 where
  pub cached : Bool
  pub upstream : Bool
  pub cacheable : Bool
  pub hit : Bool
  pub file_name : Bytes
  pub keys : List Bytes
  pub headers_out : List (Bytes × Bytes)
  pub cache_index : Bool
  pub tag_headers : Option (List Bytes)
  pub zone : Option Bytes
  pub writer : Bool
  pub created : Bool
  pub room : ℕ
  pub text : Bool
  pub context : Bool

-- `index_tags` and `index_zone_name` of the request's context.
pub record Stash : Type 0 where
  pub index_tags : List Bytes
  pub index_zone_name : Bytes

module _ (ngx : Nginx) where
  -- The tags of the response, if its location indexes and its cache is registered.
  unfoldable pub tags_of : Exchange → Option (List Bytes)
  unfolding response_headers
  tags_of x = elim x.tag_headers [
    | none ↦ none
    | some names ↦ response_headers ngx x.created names x.room x.headers_out
  ]

  -- `none` is `NGX_ERROR`; else the filters go on, with what is kept. `context` tells whether the
  -- request has a context or gets one.
  unfoldable pub header_filter : Exchange → Option Stash → Option (Option Stash)
  unfolding location_enabled tags_of
  header_filter x stash =
      if not (x.cached && x.upstream && x.cacheable)
        || not (location_enabled x.cache_index x.tag_headers)
      then some stash
      else elim x.zone [
        | none ↦ some stash
        | some name ↦ if not x.writer then some stash else elim (tags_of x) [
          | none ↦ none
          | some tags ↦
              if x.context
              then some (some (record { index_tags = tags; index_zone_name = name }))
              else none
        ]
      ]

  -- What the log handler finds, from the filter or again from the response.
  unfoldable pub recovered : Exchange → Option Stash → Option Stash
  unfolding location_enabled tags_of
  recovered x (some stash) = some stash
  recovered x none =
      if x.upstream && x.hit || not (location_enabled x.cache_index x.tag_headers)
      then none
      else elim x.zone [
        | none ↦ none
        | some name ↦ elim (tags_of x) [
          | none ↦ none
          | some tags ↦ some (record { index_tags = tags; index_zone_name = name })
        ]
      ]

  -- A failure to write is logged only.
  unfoldable pub log_handler : ℕ → Exchange → Option Stash → Store ngx → Store ngx
  unfolding recovered
  log_handler now x stash store =
      if not x.cached || is_empty x.file_name then store else elim (recovered x stash) [
        | none ↦ store
        | some found ↦
            if not (x.writer && x.text)
            then store
            else (upsert_file_meta ngx now store found.index_zone_name (record {
              path = x.file_name;
              key = concat x.keys;
              mtime = now;
              size = 0;
              tags = found.index_tags;
            })).0
      ]
