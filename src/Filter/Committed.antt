-- ===== src/Filter/Committed.antt =====
-- A response that was cached can be purged by its tags.
use ngx_cache_pilot.Base.{
  ℕ, Bytes, Bool, true, false, not, ◌&&◌, ◌||◌, ◌≡◌, refl, sym, ap, ◌∙◌, Option, none, some,
  some-inj, ◌⊎◌, inl, inr, List, if◌then◌else◌, NulFree,
}
use ngx_cache_pilot.Nginx.{Nginx}
use ngx_cache_pilot.Index.{is_empty}
use ngx_cache_pilot.Zone.Links.{has_path}
use ngx_cache_pilot.Upsert.{Meta}
use ngx_cache_pilot.Collect.Answers.{shares}
use ngx_cache_pilot.Store.{Store, upsert_file_meta, collect_paths_by_tags}
use ngx_cache_pilot.Store.RoundTrips.{upsert-collect_tags}
use ngx_cache_pilot.Store.Runs.{Reachable}
use ngx_cache_pilot.Request.{concat}
use ngx_cache_pilot.TagHeaders.{location_enabled}
use ngx_cache_pilot.Filter.{Exchange, Stash, tags_of, header_filter, recovered, log_handler}

-- The response is stored, in a location that indexes, with a store to write to and the memory that
-- is needed.
pub record Indexes (ngx : Nginx) (x : Exchange) (name : Bytes) (tags : List Bytes) : Type 0 where
  pub stored : x.cached && x.upstream && x.cacheable ≡ true
  pub cached : x.cached ≡ true
  pub named : is_empty x.file_name ≡ false
  pub enabled : location_enabled x.cache_index x.tag_headers ≡ true
  pub registered : x.zone ≡ some name
  pub writer : x.writer ≡ true
  pub text : x.text ≡ true
  pub parsed : tags_of ngx x ≡ some tags
  pub context : x.context ≡ true

-- What the log handler writes.
abbrev pub meta_of_exchange : ℕ → Exchange → List Bytes → Meta
meta_of_exchange now x tags = record {
  path = x.file_name;
  key = concat x.keys;
  mtime = now;
  size = 0;
  tags = tags;
}

module _ (ngx : Nginx) (now : ℕ) (x : Exchange) (name : Bytes) (tags : List Bytes) where
  abbrev pub stash : Stash
  stash = record { index_tags = tags; index_zone_name = name }

  header_filter-Indexes :
      (before : Option Stash)
      → Indexes ngx x name tags
      → header_filter ngx x before ≡ some (some stash)
  unfolding header_filter
  header_filter-Indexes before h =
      pick (x.cached && x.upstream && x.cacheable) (location_enabled x.cache_index x.tag_headers)
        x.writer x.context x.zone (tags_of ngx x) h.stored h.enabled h.writer h.context h.registered
        h.parsed
    where
      pick :
          (a b w c : Bool) (z : Option Bytes) (t : Option (List Bytes))
          → a ≡ true
          → b ≡ true
          → w ≡ true
          → c ≡ true
          → z ≡ some name
          → t ≡ some tags
          → (if not a || not b then some before else elim z [
            | none ↦ some before
            | some n ↦ if not w then some before else elim t [
              | none ↦ none
              | some ts ↦
                  if c then some (some (record { index_tags = ts; index_zone_name = n })) else none
            ]
          ])
            ≡ some (some stash)
      pick a b w c z t ha hb hw hc hz ht = rw (ha, hb, hz, hw, ht, hc) refl

  -- The log handler recovers the same tags when the filter kept none.
  recovered-Indexes :
      x.upstream && x.hit ≡ false → Indexes ngx x name tags → recovered ngx x none ≡ some stash
  unfolding recovered
  recovered-Indexes miss h =
      pick (x.upstream && x.hit) (location_enabled x.cache_index x.tag_headers) x.zone
        (tags_of ngx x) miss h.enabled h.registered h.parsed
    where
      pick :
          (a b : Bool) (z : Option Bytes) (t : Option (List Bytes))
          → a ≡ false
          → b ≡ true
          → z ≡ some name
          → t ≡ some tags
          → (if a || not b then none else elim z [
            | none ↦ none
            | some n ↦ elim t [
              | none ↦ none
              | some ts ↦ some (record { index_tags = ts; index_zone_name = n })
            ]
          ])
            ≡ some stash
      pick a b z t ha hb hz ht = rw (ha, hb, hz, ht) refl

  log_handler-Indexes :
      (kept : Option Stash) (s : Store ngx)
      → recovered ngx x kept ≡ some stash
      → Indexes ngx x name tags
      → log_handler ngx now x kept s
        ≡ (upsert_file_meta ngx now s name (meta_of_exchange now x tags)).0
  unfolding log_handler
  log_handler-Indexes kept s found h =
      pick x.cached (is_empty x.file_name) x.writer x.text (recovered ngx x kept) h.cached h.named
        h.writer h.text found
    where
      pick :
          (a e w t : Bool) (o : Option Stash)
          → a ≡ true
          → e ≡ false
          → w ≡ true
          → t ≡ true
          → o ≡ some stash
          → (if not a || e then s else elim o [
            | none ↦ s
            | some st ↦
                if not (w && t)
                then s
                else (upsert_file_meta ngx now s st.index_zone_name
                    (meta_of_exchange now x st.index_tags)).0
          ])
            ≡ (upsert_file_meta ngx now s name (meta_of_exchange now x tags)).0
      pick a e w t o ha he hw ht ho = rw (ha, he, ho, hw, ht) refl

  -- A response that is stored in a location that indexes, whose cache is registered, with a store to write to and the memory that is needed,
  -- in a reachable store with NUL-free names: whether the filter kept its tags or the log handler has to recover them for a response that is no
  -- hit, its file is afterwards collected by tags exactly if the file could be put into the index and one of these tags is
  -- among the response's.
  pub response-collect_tags :
      (before kept : Option Stash) (s : Store ngx) (room r : ℕ) (wanted out : List Bytes)
      → Indexes ngx x name tags
      → Reachable ngx s
      → NulFree name
      → NulFree x.file_name
      → (header_filter ngx x before ≡ some kept) ⊎ ((kept ≡ none) × (x.upstream && x.hit ≡ false))
      → collect_paths_by_tags ngx true room (log_handler ngx now x kept s) name wanted
        ≡ some (r, out)
      → has_path x.file_name out
        ≡ ((upsert_file_meta ngx now s name (meta_of_exchange now x tags)).1 && shares wanted tags)
  unfolding recovered
  response-collect_tags before kept s room r wanted out h run n np way e =
      upsert-collect_tags ngx s run now name n (meta_of_exchange now x tags) room r wanted out np (
        ap (λ u. collect_paths_by_tags ngx true room u name wanted)
          (sym (log_handler-Indexes kept s found h))
        ∙ e)
    where
      found : recovered ngx x kept ≡ some stash
      found = elim way [
        | inl filtered ↦
            ap (recovered ngx x) (some-inj (sym filtered ∙ header_filter-Indexes before h))
        | inr (nothing, miss) ↦ ap (recovered ngx x) nothing ∙ recovered-Indexes miss h
      ]
