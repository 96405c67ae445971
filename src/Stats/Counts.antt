-- ===== src/Stats/Counts.antt =====
-- Each purge is counted under its own type and mode, and under no other.
use ngx_cache_pilot.Base.{
  ℕ, suc, Bool, true, false, ◌≡◌, refl, Option, some, if◌then◌else◌, ◌&&◌, arith,
}
use ngx_cache_pilot.Stats.{
  PurgeType, exact, wildcard, tag, all, Counters, add64, add_count, add_metrics, record_purge,
}

-- The counter of a type and a mode.
abbrev pub count_of : PurgeType → Bool → Counters → ℕ
count_of exact soft c = if soft then c.exact_soft else c.exact_hard
count_of wildcard soft c = if soft then c.wildcard_soft else c.wildcard_hard
count_of tag soft c = if soft then c.tag_soft else c.tag_hard
count_of all soft c = if soft then c.all_soft else c.all_hard

abbrev pub same_type : PurgeType → PurgeType → Bool
same_type exact exact = true
same_type wildcard wildcard = true
same_type tag tag = true
same_type all all = true
same_type _ _ = false

abbrev pub same_mode : Bool → Bool → Bool
same_mode true true = true
same_mode false false = true
same_mode _ _ = false

-- After an addition the counter of its type and mode has grown by the count, modulo 2^64, and every other
-- counter is as it was.
count_of-add_count :
    (type : PurgeType) (soft : Bool) (count : ℕ) (c : Counters) (type' : PurgeType) (soft' : Bool)
    → count_of type' soft' (add_count type soft count c) ≡ (
        if same_type type type' && same_mode soft soft'
        then add64 (count_of type' soft' c) count
        else count_of type' soft' c)
unfolding add_count
count_of-add_count type soft count c type' soft' = ground arith

-- The counters `c'` after a purge that was counted on the counters `c`.
abbrev pub Grown : PurgeType → Bool → ℕ → Counters → Counters → Type 0
Grown type soft count c c' =
    (type' : PurgeType) (soft' : Bool)
    → count_of type' soft' c' ≡ (
        if same_type type type' && same_mode soft soft'
        then add64 (count_of type' soft' c) count
        else count_of type' soft' c)

abbrev pub Recorded :
    PurgeType → Bool → ℕ → Counters → Counters → Option Counters × Option Counters → Type 0
Recorded type soft count m c r =
    (m' : Counters) × (c' : Counters) × (r ≡ (some m', some c'))
    × Grown type soft count m m'
    × Grown type soft count c c'

-- With metrics and a context, recording a purge of at least one file adds the count, modulo 2^64, to the
-- counter of its type and mode in both of them, and leaves every other counter as it was.
pub record_purge_lem :
    (type : PurgeType) (soft : Bool) (n : ℕ) (m c : Counters)
    → Recorded type soft (suc n) m c (record_purge type soft (suc n) (some m) (some c))
unfolding record_purge add_metrics
record_purge_lem type soft n m c = (
  add_count type soft (suc n) m,
  add_count type soft (suc n) c,
  refl,
  count_of-add_count type soft (suc n) m,
  count_of-add_count type soft (suc n) c,
)
