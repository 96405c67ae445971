-- ===== src/Request.antt =====
-- A purge request: what nginx hands to the handlers of src/ngx_cache_pilot_module.c, what they note
-- for the response and the metrics, and the readiness of the key index.
pub mod World
pub mod Kept
use ngx_cache_pilot.Base.{
  ℕ, ◌+◌, Bytes, Bool, true, false, not, ◌||◌, ◌==◌, Option, none, some, map_option, List, [], ◌∷◌,
  ◌++◌, length, if◌then◌else◌, ◌⊎◌, inl, inr, codes, ◌==ᵇ◌,
}
use ngx_cache_pilot.Nginx.{Rc, ok, declined, error}
use ngx_cache_pilot.Purge.{
  Outcome, purged, declined_for, failed, DeclineReason, not_found, index_not_configured,
  zone_not_registered, reader_unavailable,
}
use ngx_cache_pilot.Response.{PurgePath, reused_persisted_index}
use ngx_cache_pilot.Stats.{tag, Counters, PurgeType, add64, record_purge, record_purge_request}

-- What `ngx_http_file_cache_open` answers.
pub data Opening : Type 0 where
  cache_ok cache_stale cache_updating cache_declined cache_error : Opening

-- `opening` and, for an opened entry, its node's key, its file's name and lock time, and `updating`,
-- whether the request holds the lock. `zone` is the name under which the cache is registered, `reader`
-- and `writer` whether the store can be opened; `granted`, `created` and `room` are what the request's memory pool
-- grants for a text and for an array of paths. `root` is the cache's directory.
pub record Call : Type 0 where
  pub keys : List Bytes
  pub opening : Opening
  pub node : Bytes
  pub file_name : Bytes
  pub lock_time : ℕ
  pub updating : Bool
  pub root : Bytes
  pub configured : Bool
  pub zone : Option Bytes
  pub reader : Bool
  pub writer : Bool
  pub granted : Bool
  pub created : Bool
  pub room : ℕ

-- `ngx_http_cache_pilot_request_ctx_t`.
pub record Context : Type 0 where
  pub purge_path : PurgePath
  pub reason : DeclineReason
  pub purged : Counters

-- The counters of the metrics that the handlers change.
pub record Metrics : Type 0 where
  pub purged : Counters
  pub purges : Counters
  pub exact_fanouts : ℕ
  pub wildcard_hits : ℕ

-- `context` is `none` when there is no memory for it, `metrics` when they are not configured.
pub record Notes : Type 0 where
  pub context : Option Context
  pub metrics : Option Metrics

unfoldable pub set_response_path : PurgePath → Notes → Notes
set_response_path path notes = record notes {
  context =
      map_option {A = Context} {B = Context} (λ c. record c { purge_path = path }) notes.context;
}

unfoldable pub set_decline_reason : DeclineReason → Notes → Notes
set_decline_reason reason notes = record notes {
  context =
      map_option {A = Context} {B = Context} (λ c. record c { reason = reason }) notes.context;
}

-- The counters where they stand.
abbrev pub put_purged : Option Counters → Option Context → Option Context
put_purged none c = c
put_purged (some n) c = map_option {A = Context} {B = Context} (λ x. record x { purged = n }) c

abbrev pub put_metrics : Option Counters → Option Metrics → Option Metrics
put_metrics none m = m
put_metrics (some n) m = map_option {A = Metrics} {B = Metrics} (λ x. record x { purged = n }) m

abbrev pub put_purges : Option Counters → Option Metrics → Option Metrics
put_purges none m = m
put_purges (some n) m = map_option {A = Metrics} {B = Metrics} (λ x. record x { purges = n }) m

unfoldable pub note_purge : PurgeType → Bool → ℕ → Notes → Notes
note_purge type soft count notes =
    let (m, c) =
      record_purge type soft count (map_option (λ x. x.purged) notes.metrics)
        (map_option (λ x. x.purged) notes.context) in
    record { context = put_purged c notes.context; metrics = put_metrics m notes.metrics }

unfoldable pub note_purge_request : PurgeType → Bool → Notes → Notes
note_purge_request type soft notes = record notes {
  metrics =
      put_purges (record_purge_request type soft (map_option (λ x. x.purges) notes.metrics))
        notes.metrics;
}

unfoldable pub record_key_index_exact_fanout : Notes → Notes
record_key_index_exact_fanout notes = record notes {
  metrics =
      map_option {A = Metrics} {B = Metrics}
        (λ x. record x { exact_fanouts = add64 x.exact_fanouts 1 }) notes.metrics;
}

unfoldable pub record_key_index_wildcard_hit : Notes → Notes
record_key_index_wildcard_hit notes = record notes {
  metrics =
      map_option {A = Metrics} {B = Metrics}
        (λ x. record x { wildcard_hits = add64 x.wildcard_hits 1 }) notes.metrics;
}

-- What a purge by tags notes at its end.
pub note_tag_purge : Bool → Outcome → Notes → Notes
note_tag_purge soft (purged count) notes =
    set_response_path reused_persisted_index (note_purge tag soft count notes)
note_tag_purge soft (declined_for reason) notes = set_decline_reason reason notes
note_tag_purge soft failed notes = notes

abbrev pub concat : List Bytes → Bytes
concat [] = []
concat (k ∷ ks) = k ++ concat ks

-- The text of the key; `declined` without keys, `error` without memory.
unfoldable pub cache_key_text : Bool → List Bytes → Rc × Bytes
cache_key_text granted [] = (declined, [])
cache_key_text true (k ∷ ks) = (ok, concat (k ∷ ks))
cache_key_text false (k ∷ ks) = (error, [])

-- The name of the zone, or why the index cannot be used. The writer's store stands in for the
-- reader's.
unfoldable pub key_index_ready : Call → DeclineReason ⊎ Bytes
key_index_ready call = if not call.configured then inl index_not_configured else elim call.zone [
  | none ↦ inl zone_not_registered
  | some name ↦ if call.reader || call.writer then inr name else inl reader_unavailable
]

-- The first key ends in `*`.
abbrev pub ends_in_star : Bytes → Bool
ends_in_star [] = false
ends_in_star (c ∷ []) = c == 42
ends_in_star (c ∷ d ∷ cs) = ends_in_star (d ∷ cs)

unfoldable pub is_partial : List Bytes → Bool
is_partial [] = false
is_partial (k ∷ ks) = ends_in_star k
