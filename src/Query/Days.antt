-- ===== src/Query/Days.antt =====
-- The days of partitions and the range of times of a filter (storage/query.rs).
use searchnos_db.Prelude.{
  ℕ, max, ◌+◌, ◌*◌, ◌^◌, ◌≤◌, ◌<◌, true, Option, some, none, ◌≡◌, refl, arith,
}
use searchnos_db.Event.{EventPacket, unix_day, seconds_per_day}
use searchnos_db.Query.{partition_day_overlaps_filter, matches_since, matches_until}

-- The partition of a packet whose time the filter matches is not skipped.
pub partition_day_overlaps_filter-unix_day :
    (p : EventPacket) (since until : Option ℕ)
    → p.created_at < 2 ^ 64
    → matches_since since p.created_at ≡ true
    → matches_until until p.created_at ≡ true
    → partition_day_overlaps_filter (unix_day p) since until ≡ true
unfolding partition_day_overlaps_filter matches_since matches_until unix_day
partition_day_overlaps_filter-unix_day p none none h k l = ground arith
partition_day_overlaps_filter-unix_day p (some s) none h k l = ground arith
partition_day_overlaps_filter-unix_day p none (some u) h k l = ground arith
partition_day_overlaps_filter-unix_day p (some s) (some u) h k l = ground arith

-- A range of times with at least one time in it.
abbrev pub IsRange : Option ℕ → Option ℕ → Type 0
IsRange none none = Unit
IsRange (some since) none = since < 2 ^ 64
IsRange none (some until) = Unit
IsRange (some since) (some until) = (since < 2 ^ 64) × (since ≤ until)

-- A partition that is not skipped has a second of 64 bits in its day that the filter's times match,
-- if the day begins within 64 bits and the filter's range is not empty, also where one bound or both
-- are missing and for the last day, whose end is saturated.
pub partition_day_overlaps_filter-time :
    (day : ℕ) (since until : Option ℕ)
    → day * seconds_per_day < 2 ^ 64
    → IsRange since until
    → partition_day_overlaps_filter day since until ≡ true
    → (t : ℕ) × (t < 2 ^ 64)
      × (matches_since since t ≡ true)
      × (matches_until until t ≡ true)
      × (day * seconds_per_day ≤ t)
      × (t < day * seconds_per_day + seconds_per_day)
unfolding partition_day_overlaps_filter matches_since matches_until
partition_day_overlaps_filter-time day none none small range h =
    (day * seconds_per_day, small, refl, refl, omega arith, omega arith)
partition_day_overlaps_filter-time day (some s) none small range h =
    (max s (day * seconds_per_day), ground arith, ground arith, refl, ground arith, ground arith)
partition_day_overlaps_filter-time day none (some u) small range h =
    (day * seconds_per_day, small, refl, ground arith, omega arith, omega arith)
partition_day_overlaps_filter-time day (some s) (some u) small range h = (
  max s (day * seconds_per_day),
  ground arith,
  ground arith,
  ground arith,
  ground arith,
  ground arith,
)
