-- ===== src/Handler.antt =====
-- The request handlers (`enabled`, `value_enabled`, `access_handler` and `ngx_http_cache_pilot_handler` in
-- src/ngx_cache_pilot_module.c), in a build without file AIO.
pub mod Replies
use ngx_cache_pilot.Base.{
  ℕ, Bytes, Bool, true, false, not, ◌&&◌, ◌||◌, ◌==◌, ◌==ᵇ◌, Option, none, some, List, [], ◌∷◌,
  length, if◌then◌else◌, codes, map_option,
}
use ngx_cache_pilot.Nginx.{Nginx, Rc, ok, declined, error}
use ngx_cache_pilot.Os.{Os}
use ngx_cache_pilot.Index.{is_empty}
use ngx_cache_pilot.Purge.{
  DeclineReason, unset, index_not_configured, unsupported_platform, flush_pending_failed,
  zone_not_registered, reader_unavailable, index_not_ready, not_found,
}
use ngx_cache_pilot.Response.{decline_reason}
use ngx_cache_pilot.Stats.{exact}
use ngx_cache_pilot.Request.{Call, Notes, Context, is_partial, note_purge_request}
use ngx_cache_pilot.Request.World.{World}
use ngx_cache_pilot.Exact.{exact_purge, exact_purge_soft}

-- How the handler of a request ends.
pub data Reply : Type 0 where
  response decline_response precondition_failed internal_error : Reply

abbrev pub is_not_found : DeclineReason → Bool
is_not_found not_found = true
is_not_found unset = false
is_not_found index_not_configured = false
is_not_found unsupported_platform = false
is_not_found flush_pending_failed = false
is_not_found zone_not_registered = false
is_not_found reader_unavailable = false
is_not_found index_not_ready = false

module _ (ngx : Nginx) where
  unfoldable pub value_enabled : Bytes → Bool
  value_enabled value =
      if is_empty value
      then false
      else if value ==ᵇ codes "0"
      then false
      else not (length value == 3 && ngx.nocase value (codes "off"))

  -- The values in their order; `none` is a value that cannot be computed.
  unfoldable pub enabled : List (Option Bytes) → Bool
  unfolding value_enabled
  enabled [] = false
  enabled (none ∷ values) = false
  enabled (some value ∷ values) = if value_enabled value then true else enabled values

  module _ (os : Os) (now : ℕ) where
    -- The purge that the handler itself makes: none if the request names tags, purges the whole cache or
    -- a key prefix, which was done before. `soft` is the mode of the request.
    unfoldable pub handler_rc : (tagged all soft : Bool) → Call → World ngx os → World ngx os × Rc
    unfolding is_partial
    handler_rc tagged all soft call w =
        if tagged || all || is_partial call.keys
        then (w, ok)
        else if soft
        then exact_purge_soft ngx os call w
        else exact_purge ngx os now call w

    -- The answer to the result of the purge; `json` is a location that is configured to answer in JSON.
    unfoldable pub reply_to : (json soft : Bool) → World ngx os × Rc → World ngx os × Reply
    reply_to json soft (w, ok) = (w, response)
    reply_to json soft (w, error) = (w, internal_error)
    reply_to json soft (w, declined) =
        if is_not_found (decline_reason (map_option (λ c. c.reason) w.notes.context))
        then (record w { notes = note_purge_request exact soft w.notes }, response)
        else if json
        then (w, decline_response)
        else (w, precondition_failed)

    unfoldable pub handler :
        (tagged all json soft : Bool) → Call → World ngx os → World ngx os × Reply
    unfolding handler_rc reply_to
    handler tagged all json soft call w = reply_to json soft (handler_rc tagged all soft call w)
