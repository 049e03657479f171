-- ===== src/Cursor.antt =====
-- storage/cursor.rs: cursors over the packets of the hot file and of partitions, and their merge.
-- A source that is not a merge is in `Sources`; here it is any state with its `next_packet`, since
-- a merge is made of such cursors only. A set of identifiers is a list.
pub mod Heads
pub mod Choice
pub mod Merged
pub mod Yields
pub mod Sources
pub mod Scanned
pub mod Yielded
use searchnos_db.Prelude.{
  ℕ, zero, suc, ◌+◌, Bytes, Bool, true, false, ltb, Option, none, some, List, [], ◌∷◌, Result, ok,
  err, panic, ◌=?◌, bytes_eq, contains, get_elem?, set, is_lt, if◌then◌else◌,
}
use searchnos_db.Event.{EventPacket}
use searchnos_db.Query.{compare_packets}

-- `struct PacketCursor`
pub record PacketCursor (S : Type 0) : Type 0 where
  pub source : S
  pub pending : Option EventPacket

-- A new cursor has no pending packet.
abbrev pub new_cursor : {S : Type 0} → S → PacketCursor S
new_cursor source = record { source = source; pending = none }

module _ {S : Type 0} (next_packet : S → S × Result (Option EventPacket)) where
  abbrev pub fill : S × Result (Option EventPacket) → PacketCursor S × Result (Option EventPacket)
  fill (source, ok packet) = (record { source = source; pending = packet }, ok packet)
  fill (source, err e) = (record { source = source; pending = none }, err e)

  -- `peek`
  unfoldable pub peek : PacketCursor S → PacketCursor S × Result (Option EventPacket)
  peek cursor = elim cursor.pending [
    | some packet ↦ (cursor, ok (some packet))
    | none ↦ fill (next_packet cursor.source)
  ]

  abbrev pub unfilled :
      S × Result (Option EventPacket) → PacketCursor S × Result (Option EventPacket)
  unfilled (source, packet) = (new_cursor source, packet)

  -- `pop`
  unfoldable pub pop : PacketCursor S → PacketCursor S × Result (Option EventPacket)
  pop cursor = elim cursor.pending [
    | some packet ↦ (new_cursor cursor.source, ok (some packet))
    | none ↦ unfilled (next_packet cursor.source)
  ]

-- The cursor that is the best so far, with its pending packet: the first one with the least packet.
unfoldable pub better : ℕ → EventPacket → Option (ℕ × EventPacket) → Option (ℕ × EventPacket)
better index packet none = some (index, packet)
better index packet (some (best_index, best)) =
    if is_lt (compare_packets packet best) then some (index, packet) else some (best_index, best)

abbrev pub index_of : Option (ℕ × EventPacket) → Option ℕ
index_of none = none
index_of (some (index, packet)) = some index

abbrev pub behind : {C : Type 0} → C → List C × Result (Option ℕ) → List C × Result (Option ℕ)
behind cursor (cursors, best) = (cursor ∷ cursors, best)

module _ {C : Type 0} (peek_at : C → C × Result (Option EventPacket)) where
  -- The loop of `best_cursor_index`, over cursors of any kind.
  unfoldable pub best_from : ℕ → Option (ℕ × EventPacket) → List C → List C × Result (Option ℕ)
  best_from index best [] = ([], ok (index_of best))
  best_from index best (cursor ∷ cursors) =
      let (peeked, packet) = peek_at cursor in
      elim packet [
        | err e ↦ (peeked ∷ cursors, err e)
        | ok none ↦ behind peeked (best_from (index + 1) best cursors)
        | ok (some p) ↦ behind peeked (best_from (index + 1) (better index p best) cursors)
      ]

-- `PacketCursorSource::Merged`
pub record MergedSource (S : Type 0) : Type 0 where
  pub cursors : List (PacketCursor S)
  pub limit : Option ℕ
  pub seen : List Bytes
  pub emitted : ℕ

-- `limit.is_none_or(|limit| *emitted < limit)`
abbrev pub is_below : Option ℕ → ℕ → Bool
is_below none emitted = true
is_below (some limit) emitted = ltb emitted limit

module _ {S : Type 0} (next_packet : S → S × Result (Option EventPacket)) where
  -- `best_cursor_index`
  unfoldable pub best_cursor_index :
      List (PacketCursor S) → List (PacketCursor S) × Result (Option ℕ)
  best_cursor_index cursors = best_from (peek next_packet) 0 none cursors

  -- `PacketCursor::merged`
  unfoldable pub merged : List (PacketCursor S) → Option ℕ → Option (PacketCursor (MergedSource S))
  merged [] limit = none
  merged (cursor ∷ cursors) (some zero) = none
  merged (cursor ∷ cursors) limit =
      some
        (new_cursor (record { cursors = cursor ∷ cursors; limit = limit; seen = []; emitted = 0 }))

  -- `cursors[cursor_index].pop()`; the index comes from the loop over these cursors.
  unfoldable pub pop_at :
      ℕ → List (PacketCursor S) → List (PacketCursor S) × Result (Option EventPacket)
  pop_at i cursors = elim (get_elem? cursors i) [
    | none ↦ (cursors, err panic)
    | some cursor ↦ let (popped, packet) = pop next_packet cursor in (set cursors i popped, packet)
  ]

  abbrev pub Advance : Type 0
  Advance = MergedSource S → MergedSource S × Result (Option EventPacket)

  -- The second half of a round: a packet whose identifier is new is returned, another is dropped.
  unfoldable pub emit_popped :
      Advance
      → MergedSource S
      → List (PacketCursor S) × Result (Option EventPacket)
      → MergedSource S × Result (Option EventPacket)
  emit_popped again m (popped, err e) = (record m { cursors = popped }, err e)
  emit_popped again m (popped, ok none) = (record m { cursors = popped }, err panic)
  emit_popped again m (popped, ok (some p)) = elim (contains m.seen p.id) [
    | true ↦ again (record m { cursors = popped })
    | false ↦
        (record m { cursors = popped; seen = p.id ∷ m.seen; emitted = m.emitted + 1 }, ok (some p))
  ]

  unfoldable pub take_best :
      Advance
      → MergedSource S
      → List (PacketCursor S) × Result (Option ℕ)
      → MergedSource S × Result (Option EventPacket)
  take_best again m (peeked, err e) = (record m { cursors = peeked }, err e)
  take_best again m (peeked, ok none) = (record m { cursors = peeked }, ok none)
  take_best again m (peeked, ok (some i)) = emit_popped again m (pop_at i peeked)

  -- `next_merged_packet`, on fuel, of which each round takes a packet.
  unfoldable pub next_merged_packet : ℕ → Advance
  next_merged_packet zero m = (m, err panic)
  next_merged_packet (suc fuel) m = elim (is_below m.limit m.emitted) [
    | false ↦ (m, ok none)
    | true ↦ take_best (next_merged_packet fuel) m (best_cursor_index m.cursors)
  ]
