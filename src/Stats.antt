-- ===== src/Stats.antt =====
-- The counters of purged files (`record_purge` and `record_purge_request` in
-- src/ngx_cache_pilot_module.c): those of the request and those of the metrics.
pub mod Counts
use ngx_cache_pilot.Base.{
  ℕ, zero, suc, ◌+◌, ◌%◌, ◌^◌, ◌*◌, Bool, true, false, ◌==◌, Option, none, some, if◌then◌else◌,
}

-- `ngx_http_cache_pilot_purge_stats_e`.
pub data PurgeType : Type 0 where
  exact wildcard tag all : PurgeType

pub record Counters : Type 0 where
  pub exact_hard : ℕ
  pub exact_soft : ℕ
  pub wildcard_hard : ℕ
  pub wildcard_soft : ℕ
  pub tag_hard : ℕ
  pub tag_soft : ℕ
  pub all_hard : ℕ
  pub all_soft : ℕ

-- An addition to one counter of 64 bits.
abbrev pub add64 : ℕ → ℕ → ℕ
add64 n count = (n + count) % 2 ^ 64

-- The two switches have the same form.
unfoldable pub add_count : PurgeType → Bool → ℕ → Counters → Counters
add_count exact true count c = record c { exact_soft = add64 c.exact_soft count }
add_count exact false count c = record c { exact_hard = add64 c.exact_hard count }
add_count wildcard true count c = record c { wildcard_soft = add64 c.wildcard_soft count }
add_count wildcard false count c = record c { wildcard_hard = add64 c.wildcard_hard count }
add_count tag true count c = record c { tag_soft = add64 c.tag_soft count }
add_count tag false count c = record c { tag_hard = add64 c.tag_hard count }
add_count all true count c = record c { all_soft = add64 c.all_soft count }
add_count all false count c = record c { all_hard = add64 c.all_hard count }

-- Without metrics the addition to them does nothing.
unfoldable pub add_metrics : PurgeType → Bool → ℕ → Option Counters → Option Counters
add_metrics type soft count none = none
add_metrics type soft count (some m) = some (add_count type soft count m)

-- `ctx` are the counters of the request's context, if there is one or it can be made.
unfoldable pub record_purge :
    PurgeType → Bool → ℕ → Option Counters → Option Counters → Option Counters × Option Counters
record_purge type soft zero metrics ctx = (metrics, ctx)
record_purge type soft (suc n) metrics none = (metrics, none)
record_purge type soft (suc n) metrics (some c) =
    (add_metrics type soft (suc n) metrics, some (add_count type soft (suc n) c))

unfoldable pub record_purge_request : PurgeType → Bool → Option Counters → Option Counters
record_purge_request type soft metrics = add_metrics type soft 1 metrics
