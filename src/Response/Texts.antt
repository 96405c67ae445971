-- ===== src/Response/Texts.antt =====
-- A client can tell the texts apart.
use ngx_cache_pilot.Base.{
  Bytes, ◌≡◌, refl, sym, ap, ◌∙◌, ◌==ᵇ◌, Option, none, some, codes, if◌then◌else◌,
}
use ngx_cache_pilot.Purge.{
  DeclineReason, unset, index_not_configured, unsupported_platform, flush_pending_failed,
  zone_not_registered, reader_unavailable, index_not_ready, not_found,
}
use ngx_cache_pilot.Response.{
  decline_reason_value, decline_reason, PurgePath, path_unset, exact_key_fanout, wildcard_index,
  filesystem_fallback, reused_persisted_index, response_path_value,
}

-- How a client reads the texts.
abbrev reason_of : Bytes → DeclineReason
reason_of text =
    if text ==ᵇ codes "index_not_configured"
    then index_not_configured
    else if text ==ᵇ codes "unsupported_platform"
    then unsupported_platform
    else if text ==ᵇ codes "flush_pending_failed"
    then flush_pending_failed
    else if text ==ᵇ codes "zone_not_registered"
    then zone_not_registered
    else if text ==ᵇ codes "reader_unavailable"
    then reader_unavailable
    else if text ==ᵇ codes "index_not_ready"
    then index_not_ready
    else if text ==ᵇ codes "not_found"
    then not_found
    else unset

abbrev path_of : Bytes → PurgePath
path_of text =
    if text ==ᵇ codes "exact-key-fanout"
    then exact_key_fanout
    else if text ==ᵇ codes "key-prefix-index"
    then wildcard_index
    else if text ==ᵇ codes "filesystem-fallback"
    then filesystem_fallback
    else if text ==ᵇ codes "reused-persisted-index"
    then reused_persisted_index
    else path_unset

reason_of-decline_reason_value :
    (r : Option DeclineReason) → reason_of (decline_reason_value r) ≡ decline_reason r
unfolding decline_reason_value decline_reason
reason_of-decline_reason_value none = refl
reason_of-decline_reason_value (some unset) = refl
reason_of-decline_reason_value (some index_not_configured) = refl
reason_of-decline_reason_value (some unsupported_platform) = refl
reason_of-decline_reason_value (some flush_pending_failed) = refl
reason_of-decline_reason_value (some zone_not_registered) = refl
reason_of-decline_reason_value (some reader_unavailable) = refl
reason_of-decline_reason_value (some index_not_ready) = refl
reason_of-decline_reason_value (some not_found) = refl

path_of-response_path_value : (p : PurgePath) → path_of (response_path_value (some p)) ≡ p
unfolding response_path_value
path_of-response_path_value path_unset = refl
path_of-response_path_value exact_key_fanout = refl
path_of-response_path_value wildcard_index = refl
path_of-response_path_value filesystem_fallback = refl
path_of-response_path_value reused_persisted_index = refl

-- Two responses with the same text for the reason have the same reason, no context counting as no
-- reason, and two with the same text for the path of the purge have the same path.
pub texts-inj :
    (a b : Option DeclineReason) (p q : PurgePath)
    → (decline_reason_value a ≡ decline_reason_value b → decline_reason a ≡ decline_reason b)
      × (response_path_value (some p) ≡ response_path_value (some q) → p ≡ q)
texts-inj a b p q = (
  λ e. sym (reason_of-decline_reason_value a) ∙ ap reason_of e ∙ reason_of-decline_reason_value b,
  λ e. sym (path_of-response_path_value p) ∙ ap path_of e ∙ path_of-response_path_value q,
)
