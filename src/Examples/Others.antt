-- ===== src/Examples/Others.antt =====
-- Days and filters (storage/query.rs), the queue (storage/sidecar_queue.rs) and the purge policy
-- (db/purge_policy.rs).
use searchnos_db.Prelude.{
  ℕ, ◌+◌, ◌^◌, false, if◌then◌else◌, ◌*◌, ◌≤◌, ◌<◌, ltb, true, Option, none, some, List, [], ◌∷◌,
  map, ◌++◌, ◌≡◌, refl, arith,
}
use searchnos_db.Event.{seconds_per_day, unix_day}
use searchnos_db.Query.{partition_day_overlaps_filter, matches_since, matches_until}
use searchnos_db.Query.Days.{
  partition_day_overlaps_filter-unix_day, partition_day_overlaps_filter-time,
}
use searchnos_db.SidecarQueue.{
  reindex, compaction, announce, release, enter, must_wait, System, idle, ask, take, Reach, here,
  next, SidecarUpdateKind, SidecarUpdateState, is_compaction, sleep, drop_guard,
}
use searchnos_db.SidecarQueue.Exclusion.{IsExclusive, Reach-IsExclusive, compactions}
use searchnos_db.SidecarQueue.Progress.{no_wake_up_lost}
use searchnos_db.Text.Decimal.{to_decimal}
use searchnos_db.PurgePolicy.{
  PurgeSetting, retain, never, PurgePolicy, parsed, failed, duration_exceeds_limit, parse_duration,
  from_specs, setting_for_kind,
}
use searchnos_db.PurgePolicy.Duration.{
  days, capital_of, letter_of, length_of, parse_duration-to_decimal,
}
use searchnos_db.PurgePolicy.Specs.{spec_text, declared_setting, from_specs-spec_text}
use searchnos_db.Examples.Data.{new_profile}

after : matches_since (some 15) new_profile.created_at ≡ true
unfolding matches_since
after = refl

before : matches_until (some 25) new_profile.created_at ≡ true
unfolding matches_until
before = refl

partition_day_overlaps_filter-unix_day_example :
    partition_day_overlaps_filter (unix_day new_profile) (some 15) (some 25) ≡ true
partition_day_overlaps_filter-unix_day_example =
    partition_day_overlaps_filter-unix_day new_profile (some 15) (some 25) (omega arith) after
      before

overlaps : partition_day_overlaps_filter 1 (some 90000) (some 100000) ≡ true
unfolding partition_day_overlaps_filter
overlaps = refl

partition_day_overlaps_filter-time_example :
    (t : ℕ) × (t < 2 ^ 64)
    × (matches_since (some 90000) t ≡ true)
    × (matches_until (some 100000) t ≡ true)
    × (1 * seconds_per_day ≤ t)
    × (t < 1 * seconds_per_day + seconds_per_day)
partition_day_overlaps_filter-time_example =
    partition_day_overlaps_filter-time 1 (some 90000) (some 100000) (omega arith)
      (omega arith, omega arith) overlaps

-- A compaction and a reindexing ask, and the compaction enters.
abbrev both_wait : System
both_wait = record {
  state = announce compaction (announce reindex idle.state);
  waiting = compaction ∷ reindex ∷ [];
  sleeping = [];
  holding = [];
}

both_Reach : Reach idle both_wait
both_Reach = next (next here (ask idle reindex)) (ask _ compaction)

abbrev compaction_holds : System
compaction_holds = record {
  state = enter compaction both_wait.state;
  waiting = reindex ∷ [];
  sleeping = [];
  holding = compaction ∷ [];
}

holds_Reach : Reach idle compaction_holds
unfolding must_wait announce
holds_Reach = next both_Reach (take both_wait compaction [] (reindex ∷ []) refl refl)

Reach-IsExclusive_example : IsExclusive compaction_holds
Reach-IsExclusive_example = Reach-IsExclusive holds_Reach

-- One reindexing held the queue while another went to sleep and a compaction asked; then its guard
-- is dropped.
abbrev woken : System
woken = record {
  state = record { active = false; pending_compactions = 1 };
  waiting = reindex ∷ compaction ∷ [];
  sleeping = [];
  holding = [];
}

abbrev held : SidecarUpdateState
held = record { active = true; pending_compactions = 0 }

taken_Reach :
    Reach idle (record { state = held; waiting = []; sleeping = []; holding = reindex ∷ [] })
unfolding must_wait announce enter
taken_Reach = next (next here (ask idle reindex)) (take _ reindex [] [] refl refl)

asleep_Reach :
    Reach idle
      (record { state = held; waiting = []; sleeping = reindex ∷ []; holding = reindex ∷ [] })
unfolding must_wait announce
asleep_Reach = next (next taken_Reach (ask _ reindex)) (sleep _ reindex [] [] refl refl)

woken_Reach : Reach idle woken
unfolding announce release
woken_Reach = next (next asleep_Reach (ask _ compaction)) (drop_guard _ reindex [] [] refl)

no_wake_up_lost_example :
    (kind : SidecarUpdateKind) × (before : List SidecarUpdateKind) × (after : List
      SidecarUpdateKind)
    × (woken.waiting ≡ before ++ kind ∷ after)
    × (must_wait kind woken.state ≡ false)
    × (must_wait reindex woken.state ≡ is_compaction kind)
    × (ltb 0 (compactions woken.waiting + compactions woken.sleeping) ≡ is_compaction kind)
no_wake_up_lost_example = no_wake_up_lost woken_Reach refl (omega arith)

parse_duration-to_decimal_example :
    parse_duration (to_decimal 90 ++ (if true then capital_of days else letter_of days) ∷ []) ≡ (
      if ltb (90 * length_of days) (2 ^ 64)
      then parsed (90 * length_of days)
      else failed duration_exceeds_limit)
parse_duration-to_decimal_example = parse_duration-to_decimal 90 days true (omega arith)

abbrev later_specs : List (Option ℕ × PurgeSetting)
later_specs = (some 0, never) ∷ (some 1, retain 60) ∷ []

from_specs-spec_text_example :
    (q : PurgePolicy) × (from_specs (map spec_text ((none, retain 86400) ∷ later_specs)) ≡ parsed q)
    × ((kind : ℕ)
        → setting_for_kind q kind ≡ declared_setting kind ((none, retain 86400) ∷ later_specs))
from_specs-spec_text_example =
    from_specs-spec_text (none, retain 86400) later_specs
      (omega arith, ((omega arith, 0), ((omega arith, omega arith), tt)))
