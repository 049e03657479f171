-- ===== src/Query.antt =====
-- storage/query.rs: the order of results, and which day partitions a filter can match in.
pub mod Days
pub mod Order
use searchnos_db.Prelude.{
  ℕ, ◌+◌, ◌-◌, ◌*◌, ◌^◌, ◌≤◌, min, Bool, ◌&&◌, leb, Option, some, none, List, [], ◌∷◌, compare,
  Ordering, cmp_bytes, then_with, is_gt, if◌then◌else◌,
}
use searchnos_db.Event.{EventPacket, seconds_per_day}

-- `compare_packets`: newer packets first, then by identifier.
unfoldable pub compare_packets : EventPacket → EventPacket → Ordering
compare_packets a b = then_with (compare b.created_at a.created_at) (cmp_bytes a.id b.id)

-- `sort_by(compare_packets)`, which is stable: a packet is put before those that it does not follow.
unfoldable pub insert_packet : EventPacket → List EventPacket → List EventPacket
insert_packet p [] = p ∷ []
insert_packet p (q ∷ packets) =
    if is_gt (compare_packets p q) then q ∷ insert_packet p packets else p ∷ q ∷ packets

unfoldable pub sort_packets : List EventPacket → List EventPacket
sort_packets [] = []
sort_packets (p ∷ packets) = insert_packet p (sort_packets packets)

abbrev pub u64_max : ℕ
u64_max = 2 ^ 64 - 1

-- `saturating_mul` and `saturating_add` on 64 bits
unfoldable pub saturating_mul : ℕ → ℕ → ℕ
saturating_mul a b = min (a * b) u64_max

unfoldable pub saturating_add : ℕ → ℕ → ℕ
saturating_add a b = min (a + b) u64_max

abbrev pub map_or : ℕ → Option ℕ → ℕ
map_or d none = d
map_or d (some n) = n

-- `partition_day_overlaps_filter`, on the fields `since` and `until` of the filter.
unfoldable pub partition_day_overlaps_filter : ℕ → Option ℕ → Option ℕ → Bool
unfolding saturating_mul saturating_add
partition_day_overlaps_filter unix_day since until =
    let day_start = saturating_mul unix_day seconds_per_day in
    let day_end = saturating_add day_start (seconds_per_day - 1) in
    leb (map_or 0 since) day_end && leb day_start (map_or u64_max until)

-- `matches_since` and `matches_until` of storage/event.rs, for a packet's time
unfoldable pub matches_since : Option ℕ → ℕ → Bool
matches_since none created_at = Bool.true
matches_since (some since) created_at = leb since created_at

unfoldable pub matches_until : Option ℕ → ℕ → Bool
matches_until none created_at = Bool.true
matches_until (some until) created_at = leb created_at until
