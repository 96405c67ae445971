-- ===== src/Response.antt =====
-- The texts that a response gives for how a purge was made and why it was declined
-- (`response_path_value` and `decline_reason_value` in src/ngx_cache_pilot_module.c). `none` is a
-- request without a context.
pub mod Texts
use ngx_cache_pilot.Base.{Bytes, Option, none, some, [], codes}
use ngx_cache_pilot.Purge.{
  DeclineReason, unset, index_not_configured, unsupported_platform, flush_pending_failed,
  zone_not_registered, reader_unavailable, index_not_ready, not_found,
}

-- `ngx_http_cache_pilot_purge_path_e`.
pub data PurgePath : Type 0 where
  path_unset exact_key_fanout wildcard_index filesystem_fallback reused_persisted_index : PurgePath

pub response_path_value : Option PurgePath → Bytes
response_path_value none = []
response_path_value (some path_unset) = []
response_path_value (some exact_key_fanout) = codes "exact-key-fanout"
response_path_value (some wildcard_index) = codes "key-prefix-index"
response_path_value (some filesystem_fallback) = codes "filesystem-fallback"
response_path_value (some reused_persisted_index) = codes "reused-persisted-index"

pub decline_reason_value : Option DeclineReason → Bytes
decline_reason_value none = codes "unknown"
decline_reason_value (some unset) = codes "unknown"
decline_reason_value (some index_not_configured) = codes "index_not_configured"
decline_reason_value (some unsupported_platform) = codes "unsupported_platform"
decline_reason_value (some flush_pending_failed) = codes "flush_pending_failed"
decline_reason_value (some zone_not_registered) = codes "zone_not_registered"
decline_reason_value (some reader_unavailable) = codes "reader_unavailable"
decline_reason_value (some index_not_ready) = codes "index_not_ready"
decline_reason_value (some not_found) = codes "not_found"

-- Without a context there is no reason.
unfoldable pub decline_reason : Option DeclineReason → DeclineReason
decline_reason none = unset
decline_reason (some reason) = reason
