-- ===== src/Streaming.antt =====
-- storage/streaming_query.rs: a query goes through the days from the latest on, merges for each
-- filter the hot packets and the partition of the day up to what is left of its limit, and emits
-- the packets of all filters in their order, each identifier once. The counts of sidecars, which
-- are only logged, are not modelled.
pub mod Partition
pub mod Emitted
pub mod Once
use searchnos_db.Prelude.{
  ℕ, zero, suc, ◌+◌, ◌-◌, Bytes, Bool, true, false, Option, none, some, List, [], ◌∷◌, ◌++◌, Result,
  ok, err, panic, ◌>>=◌, ◌=?◌, bytes_eq, nat_eq, contains, get_elem?, set, if◌then◌else◌, ltb, ◌==◌,
}
use searchnos_db.Prelude.Dict.{Dict}
use searchnos_db.Event.{EventPacket, unix_day}
use searchnos_db.Query.{sort_packets, partition_day_overlaps_filter}
use searchnos_db.Filter.{Filter, matches_filter_without_search}
use searchnos_db.Search.Terms.{search_candidate_indexes}
use searchnos_db.Visibility.Index.{VisibilityIndex, is_visible, from_packets}
use searchnos_db.Cursor.{
  PacketCursor, MergedSource, peek, pop, best_from, merged, next_merged_packet,
}
use searchnos_db.Cursor.Sources.{Source, next_packet, buffered_cursor, filter_terms, terms_of}
use searchnos_db.Reindex.{Context, Partitions, partition_event_days}
use searchnos_db.Streaming.Partition.{open_partition}

-- `StreamingFilterState`
pub record StreamingFilterState : Type 0 where
  pub filter : Filter
  pub remaining : Option ℕ
  pub visibility : Option VisibilityIndex
  pub hot_matches : List EventPacket
  pub partition_days : List ℕ

-- `hot_by_day.remove(&unix_day)`: the hot packets of a day, in their order.
unfoldable pub packets_of_day : ℕ → List EventPacket → List EventPacket
packets_of_day day [] = []
packets_of_day day (p ∷ packets) =
    let rest = packets_of_day day packets in if unix_day p == day then p ∷ rest else rest

-- `partition_days` of storage/query.rs
unfoldable pub partition_days : Filter → List ℕ → List ℕ
partition_days filter [] = []
partition_days filter (day ∷ days) =
    let rest = partition_days filter days in
    if partition_day_overlaps_filter day filter.since filter.until then day ∷ rest else rest

-- A day that is inserted into the set of days, the latest first.
unfoldable pub insert_new_day : ℕ → List ℕ → List ℕ
insert_new_day day [] = day ∷ []
insert_new_day day (d ∷ days) =
    if day == d then d ∷ days else if ltb day d then d ∷ insert_new_day day days else day ∷ d ∷ days

-- `saturating_sub(1)`
abbrev pub one_less : Option ℕ → Option ℕ
one_less none = none
one_less (some n) = some (n - 1)

-- `states[state_index].remaining`
unfoldable pub take_one : ℕ → List StreamingFilterState → List StreamingFilterState
take_one i [] = []
take_one zero (state ∷ states) = record state { remaining = one_less state.remaining } ∷ states
take_one (suc i) (state ∷ states) = state ∷ take_one i states

-- What is emitted, with its identifiers, and the states of the filters.
pub record Emission : Type 0 where
  pub packets : List EventPacket
  pub emitted : List Bytes
  pub states : List StreamingFilterState

-- A packet that a day's cursors select: counted for its filter, and emitted unless it was before.
unfoldable pub emit_once :
    (EventPacket → Result (Unit {0})) → ℕ → EventPacket → Emission → Emission × Result (Unit {0})
emit_once emit i p e =
    let counted = record e { states = take_one i e.states } in
    elim (contains e.emitted p.id) [
      | true ↦ (counted, ok tt)
      | false ↦
          (record counted { packets = e.packets ++ p ∷ []; emitted = p.id ∷ e.emitted }, emit p)
    ]

-- The hot packets at the candidate indexes, which the source visits in ascending order.
unfoldable pub packets_at : ℕ → List ℕ → List EventPacket → List EventPacket
packets_at i indexes [] = []
packets_at i indexes (p ∷ packets) =
    let rest = packets_at (i + 1) indexes packets in if contains indexes i then p ∷ rest else rest

abbrev pub candidates_of : Option (List ℕ) → List EventPacket → List EventPacket
candidates_of none packets = packets
candidates_of (some indexes) packets = packets_at 0 indexes packets

unfoldable pub matching : (EventPacket → Result Bool) → List EventPacket → Result (List EventPacket)
matching test [] = ok []
matching test (p ∷ packets) = do
  matches ← test p
  rest ← matching test packets
  ok (if matches then p ∷ rest else rest)

-- `days.extend(..)`, iterated from the latest day on
unfoldable pub add_days : List ℕ → List ℕ → List ℕ
add_days [] set = set
add_days (day ∷ days) set = insert_new_day day (add_days days set)

unfoldable pub hot_days : List EventPacket → List ℕ
hot_days [] = []
hot_days (p ∷ packets) = unix_day p ∷ hot_days packets

unfoldable pub all_days : List StreamingFilterState → List ℕ
all_days [] = []
all_days (state ∷ states) =
    add_days (hot_days state.hot_matches) (add_days state.partition_days (all_days states))

module _ (c : Context) where
  module _ (find_iter : Bytes → Bytes → List ℕ) where
    abbrev pub search_terms_of : Filter → Option (List Bytes)
    search_terms_of filter = terms_of c.unicode filter.search

    -- `query_packets_with_index` of storage/query.rs
    unfoldable pub query_packets_with_index :
        List EventPacket → List ℕ × Bytes → Filter → Result (List EventPacket)
    query_packets_with_index packets index filter = do
      indexes ← search_candidate_indexes find_iter (some index) (search_terms_of filter)
      matching (matches_filter_without_search c.ndb filter) (candidates_of indexes packets)

    -- `retain_visible_packets_if_needed` of storage/query.rs, without a store
    abbrev pub retain_visible_packets_if_needed :
        List EventPacket → Option VisibilityIndex → Result (List EventPacket)
    retain_visible_packets_if_needed packets none = ok packets
    retain_visible_packets_if_needed packets (some index) =
        matching (λ p. ok (is_visible c.ndb index p)) packets

    abbrev pub visibility_if : List Bytes → List EventPacket → Result (Option VisibilityIndex)
    visibility_if [] packets = ok none
    visibility_if (term ∷ terms) packets = do index ← from_packets c.ndb packets; ok (some index)

    -- The state of a filter at the start.
    unfoldable pub filter_state :
        List EventPacket → List ℕ × Bytes → List ℕ → Filter → Result StreamingFilterState
    filter_state hot_packets index days filter = do
      found ← query_packets_with_index hot_packets index filter
      visibility ← visibility_if (filter_terms c.unicode filter.search) hot_packets
      hot_matches ← retain_visible_packets_if_needed found visibility
      ok (record {
        filter = filter;
        remaining = filter.limit;
        visibility = visibility;
        hot_matches = hot_matches;
        partition_days = partition_days filter days;
      })

    unfoldable pub filter_states :
        List EventPacket
        → List ℕ × Bytes
        → List ℕ
        → List Filter
        → Result (List StreamingFilterState)
    filter_states hot_packets index days [] = ok []
    filter_states hot_packets index days (filter ∷ filters) = do
      state ← filter_state hot_packets index days filter
      states ← filter_states hot_packets index days filters
      ok (state ∷ states)

abbrev pub indexed : {C : Type 0} → ℕ → Option C → Option (ℕ × C)
indexed i none = none
indexed i (some cursor) = some (i, cursor)

abbrev pub with_index : {C D : Type 0} → ℕ → C × D → (ℕ × C) × D
with_index i (cursor, packet) = ((i, cursor), packet)

module _ {S : Type 0} (next : S → S × Result (Option EventPacket)) where
  -- `best_day_cursor_index`
  unfoldable pub best_day_cursor_index :
      List (ℕ × PacketCursor S) → List (ℕ × PacketCursor S) × Result (Option ℕ)
  best_day_cursor_index cursors =
      best_from (λ (c : ℕ × PacketCursor S). with_index c.0 (peek next c.1)) 0 none cursors

  -- `day_cursors[cursor_index].1.pop()`, with the filter of the cursor
  unfoldable pub pop_day :
      ℕ → List (ℕ × PacketCursor S) → List (ℕ × PacketCursor S) × Result (ℕ × Option EventPacket)
  pop_day i cursors = elim (get_elem? cursors i) [
    | none ↦ (cursors, err panic)
    | some (state_index, cursor) ↦
        let (popped, packet) = pop next cursor in
        (set cursors i (state_index, popped), packet >>= (λ p. ok (state_index, p)))
  ]

  abbrev pub Loop : Type 0
  Loop = List (ℕ × PacketCursor S) → Emission → Emission × Result (Unit {0})

  module _ (emit : EventPacket → Result (Unit {0})) where
    abbrev pub go_on_unless_failed :
        Loop
        → List (ℕ × PacketCursor S)
        → Emission × Result (Unit {0})
        → Emission × Result (Unit {0})
    go_on_unless_failed again cursors (e, err f) = (e, err f)
    go_on_unless_failed again cursors (e, ok u) = again cursors e

    unfoldable pub emit_popped :
        Loop
        → Emission
        → List (ℕ × PacketCursor S) × Result (ℕ × Option EventPacket)
        → Emission × Result (Unit {0})
    emit_popped again e (popped, err f) = (e, err f)
    emit_popped again e (popped, ok (i, none)) = (e, err panic)
    emit_popped again e (popped, ok (i, some p)) =
        go_on_unless_failed again popped (emit_once emit i p e)

    unfoldable pub emit_best :
        Loop
        → Emission
        → List (ℕ × PacketCursor S) × Result (Option ℕ)
        → Emission × Result (Unit {0})
    emit_best again e (peeked, err f) = (e, err f)
    emit_best again e (peeked, ok none) = (e, ok tt)
    emit_best again e (peeked, ok (some i)) = emit_popped again e (pop_day i peeked)

    -- The loop over the packets of a day, on fuel, of which each round takes a packet.
    unfoldable pub emit_day : ℕ → Loop
    emit_day zero cursors e = (e, err panic)
    emit_day (suc fuel) cursors e = emit_best (emit_day fuel) e (best_day_cursor_index cursors)

module _ (c : Context) where
  abbrev pub next_of_source :
      Source c.lmdb (List ℕ) → Source c.lmdb (List ℕ) × Result (Option EventPacket)
  next_of_source = next_packet c.ndb c.lmdb c.sha256 c.unicode c.json

  abbrev pub Cursor : Type 0
  Cursor = PacketCursor (Source c.lmdb (List ℕ))

  abbrev pub DayCursor : Type 0
  DayCursor = PacketCursor (MergedSource (Source c.lmdb (List ℕ)))

  abbrev pub option_list : {A : Type 0} → Option A → List A
  option_list none = []
  option_list (some a) = a ∷ []

  abbrev pub add_partition :
      List Cursor → Partitions c × Result (Option Cursor) → Partitions c × Result (List Cursor)
  add_partition cursors (p, err e) = (p, err e)
  add_partition cursors (p, ok cursor) = (p, ok (cursors ++ option_list cursor))

  -- `filter_cursors`: the hot packets of the day, and its partition.
  unfoldable pub filter_cursors :
      Partitions c → ℕ → StreamingFilterState → Partitions c × Result (List Cursor)
  filter_cursors p day state =
      let hot = option_list (
        buffered_cursor c.ndb c.lmdb c.sha256 c.unicode c.json
          (sort_packets (packets_of_day day state.hot_matches))) in
      if contains state.partition_days day
      then add_partition hot (open_partition c p day state.filter state.visibility)
      else (p, ok hot)

  abbrev pub is_exhausted : Option ℕ → Bool
  is_exhausted (some zero) = true
  is_exhausted _ = false

  abbrev pub add_cursors :
      ℕ
      → StreamingFilterState
      → Partitions c × Result (List Cursor)
      → (Partitions c → Partitions c × Result (List (ℕ × DayCursor)))
      → Partitions c × Result (List (ℕ × DayCursor))
  add_cursors i state (p, err e) others = (p, err e)
  add_cursors i state (p, ok filtered) others =
      let (q, cursors) = others p in
      (
        q,
        cursors >>= (λ cs.
            ok (option_list (indexed i (merged next_of_source filtered state.remaining)) ++ cs)),
      )

  -- `day_cursors`, for the filters from an index on whose limit is not reached.
  unfoldable pub day_cursors :
      Partitions c
      → ℕ
      → ℕ
      → List StreamingFilterState
      → Partitions c × Result (List (ℕ × DayCursor))
  day_cursors p day i [] = (p, ok [])
  day_cursors p day i (state ∷ states) = elim (is_exhausted state.remaining) [
    | true ↦ day_cursors p day (i + 1) states
    | false ↦
        add_cursors i state (filter_cursors p day state) (λ q. day_cursors q day (i + 1) states)
  ]

  module _ (emit : EventPacket → Result (Unit {0})) (fuel : ℕ) where
    abbrev pub emit_cursors :
        Emission
        → Partitions c × Result (List (ℕ × DayCursor))
        → Partitions c × Emission × Result (Unit {0})
    emit_cursors e (p, err f) = (p, e, err f)
    emit_cursors e (p, ok cursors) =
        let (e', done) = emit_day (next_merged_packet next_of_source fuel) emit fuel cursors e in
        (p, e', done)

    abbrev pub unless_failed :
        (Partitions c → Emission → Partitions c × Emission × Result (Unit {0}))
        → Partitions c × Emission × Result (Unit {0})
        → Partitions c × Emission × Result (Unit {0})
    unless_failed others (p, e, err f) = (p, e, err f)
    unless_failed others (p, e, ok u) = others p e

    -- The loop over the days.
    unfoldable pub query_days :
        List ℕ → Partitions c → Emission → Partitions c × Emission × Result (Unit {0})
    query_days [] p e = (p, e, ok tt)
    query_days (day ∷ days) p e =
        unless_failed (query_days days) (emit_cursors e (day_cursors p day 0 e.states))

    -- `query_streaming` on the hot packets with their index
    unfoldable pub query_streaming :
        (Bytes → Bytes → List ℕ)
        → List EventPacket
        → List ℕ × Bytes
        → List Filter
        → Partitions c
        → Partitions c × Emission × Result (Unit {0})
    query_streaming find_iter hot_packets index filters p =
        elim (filter_states c find_iter hot_packets index (partition_event_days p.files) filters) [
          | err f ↦ (p, record { packets = []; emitted = []; states = [] }, err f)
          | ok states ↦
              query_days (all_days states) p
                (record { packets = []; emitted = []; states = states })
        ]
