-- ===== src/Batched/Query.antt =====
-- `query_streaming_batch` of storage/batched_query.rs: the loop over the days, and in each the merge
-- of the hot candidates with those of the partition.
use searchnos_db.Prelude.{
  ℕ, zero, suc, ◌+◌, Bytes, Bool, true, false, ◌||◌, ◌==◌, Option, none, some, List, [], ◌∷◌,
  Result, ok, err, panic, ◌>>=◌, is_gt, contains, bytes_eq, nat_eq, length, map, if◌then◌else◌,
}
use searchnos_db.Prelude.Dict.{lookup}
use searchnos_db.Event.{EventPacket, unix_day}
use searchnos_db.Query.{compare_packets}
use searchnos_db.Filter.{Filter}
use searchnos_db.Search.File.{Index}
use searchnos_db.Visibility.Index.{VisibilityIndex, from_packets}
use searchnos_db.Reindex.{Context, Partitions, partition_event_days}
use searchnos_db.Streaming.{add_days, hot_days}
use searchnos_db.Batched.{
  Candidate, Batch, BatchedFilterState, BatchedQueryState, build_filter_states,
  refresh_active_queries, requested_searches_for_day, emit_candidate,
}
use searchnos_db.Batched.Matcher.{SearchMatcher, SearchGroup}
use searchnos_db.Batched.Source.{
  PartitionSource, any_set, open_source, hot_candidates, next_candidate, read_batched_search_index,
}

-- The hot packets of a day, with their indexes.
unfoldable pub hot_of_day : ℕ → ℕ → List EventPacket → List (ℕ × EventPacket)
hot_of_day day i [] = []
hot_of_day day i (p ∷ packets) =
    let rest = hot_of_day day (i + 1) packets in if unix_day p == day then (i, p) ∷ rest else rest

-- `hot_candidates.sort_by(..)`, which is stable
unfoldable pub insert_candidate : Candidate → List Candidate → List Candidate
insert_candidate a [] = a ∷ []
insert_candidate a (b ∷ candidates) =
    if is_gt (compare_packets a.packet b.packet)
    then b ∷ insert_candidate a candidates
    else a ∷ b ∷ candidates

unfoldable pub sort_candidates : List Candidate → List Candidate
sort_candidates [] = []
sort_candidates (a ∷ candidates) = insert_candidate a (sort_candidates candidates)

-- The variables of the loop of a day.
pub record DayLoop : Type 0 where
  pub hot : List Candidate
  pub source : PartitionSource
  pub pending : Option Candidate
  pub finished : Bool
  pub seen : List Bytes
  pub matcher : SearchMatcher

-- The next candidate of both sides, with what is left: the hot one unless it follows the other.
unfoldable pub take_candidate :
    List Candidate → Option Candidate → Option (Candidate × List Candidate × Option Candidate)
take_candidate [] none = none
take_candidate [] (some p) = some (p, [], none)
take_candidate (h ∷ hot) none = some (h, hot, none)
take_candidate (h ∷ hot) (some p) =
    if is_gt (compare_packets h.packet p.packet)
    then some (p, h ∷ hot, none)
    else some (h, hot, some p)

module _ (c : Context) (find_overlapping : List Bytes → Bytes → List ℕ)
    (hot_visibility : Option VisibilityIndex) (emit : EventPacket → List ℕ → Result (List ℕ))
    (day : ℕ) where
  abbrev pub fetched :
      DayLoop → PartitionSource × SearchMatcher × Result (Option Candidate) → Result DayLoop
  fetched l (source, matcher, err e) = err e
  fetched l (source, matcher, ok none) =
      ok (record l { source = source; matcher = matcher; finished = true })
  fetched l (source, matcher, ok (some p)) =
      ok (record l { source = source; matcher = matcher; pending = some p })

  -- `if partition_candidate.is_none() && !partition_finished`
  unfoldable pub fetch : List Bool → List Bool → Bool → DayLoop → Result DayLoop
  fetch enabled requested include_non_search l = elim l.pending [
    | some p ↦ ok l
    | none ↦ elim l.finished [
      | true ↦ ok l
      | false ↦ fetched l (
          next_candidate c find_overlapping l.source enabled requested include_non_search l.matcher)
    ]
  ]

  module _ (enabled : List Bool) (p : Partitions c) where
    abbrev pub Again : Type 0
    Again = DayLoop → Batch → Batch × SearchMatcher × Result (Unit {0})

    abbrev pub unless_failed :
        Again → DayLoop → Batch × Result (Unit {0}) → Batch × SearchMatcher × Result (Unit {0})
    unless_failed again l (b, err e) = (b, l.matcher, err e)
    unless_failed again l (b, ok u) = again l b

    -- The candidate of a round goes to the filters, unless its identifier was seen on this day.
    unfoldable pub visit :
        Again
        → DayLoop
        → Batch
        → Option (Candidate × List Candidate × Option Candidate)
        → Batch × SearchMatcher × Result (Unit {0})
    visit again l b none = (b, l.matcher, ok tt)
    visit again l b (some (candidate, hot, pending)) = elim (contains l.seen candidate.packet.id) [
      | true ↦ again (record l { hot = hot; pending = pending }) b
      | false ↦
          unless_failed again
            (record l { hot = hot; pending = pending; seen = candidate.packet.id ∷ l.seen })
            (emit_candidate c p.visibility_store hot_visibility emit day candidate b)
    ]

    abbrev pub visit_fetched :
        Again → DayLoop → Batch → Result DayLoop → Batch × SearchMatcher × Result (Unit {0})
    visit_fetched again l b (err e) = (b, l.matcher, err e)
    visit_fetched again l b (ok m) = visit again m b (take_candidate m.hot m.pending)

    abbrev pub is_requested : List Bool × Bool → Bool
    is_requested (requested, include_non_search) = include_non_search || any_set requested

    -- The loop of a day, on fuel: each round but the last takes a candidate.
    unfoldable pub day_loop : ℕ → Again
    day_loop zero l b = (b, l.matcher, err panic)
    day_loop (suc fuel) l b =
        let requested =
          requested_searches_for_day day b.filters b.queries (length l.matcher.groups) in
        elim (is_requested requested) [
          | false ↦ (b, l.matcher, ok tt)
          | true ↦ visit_fetched (day_loop fuel) l b (fetch enabled requested.0 requested.1 l)
        ]

-- The terms of the groups by their characters
abbrev pub group_chars : Context → List SearchGroup → List (List (List ℕ))
group_chars c groups = map (λ (g : SearchGroup). map c.unicode.chars g.terms) groups

-- What a batch works on from day to day.
pub record Run (c : Context) : Type 0 where
  pub partitions : Partitions c
  pub matcher : SearchMatcher
  pub batch : Batch

module _ (c : Context) (find_overlapping : List Bytes → Bytes → List ℕ)
    (is_query_active : ℕ → ℕ → Bool) (emit : EventPacket → List ℕ → Result (List ℕ))
    (hot_packets : List EventPacket) (hot_index : List ℕ × Bytes)
    (hot_visibility : Option VisibilityIndex) (fuel : ℕ) where
  abbrev pub finish_day :
      Run c → Partitions c → Batch × SearchMatcher × Result (Unit {0}) → Run c × Result (Unit {0})
  finish_day r p (b, matcher, done) =
      (record { partitions = p; matcher = matcher; batch = b }, done)

  -- The sidecar of the partition, if a group is asked for.
  unfoldable pub day_index :
      Partitions c
      → ℕ
      → List (List (List ℕ))
      → List Bool
      → Partitions c × (Option Index × List Bool)
  day_index p day groups requested = elim (lookup day p.files) [
    | none ↦ (p, (none, requested))
    | some file ↦ elim (any_set requested) [
      | true ↦ read_batched_search_index c find_overlapping p day groups requested
      | false ↦ (p, (none, requested))
    ]
  ]

  -- A day for which something is asked for.
  unfoldable pub query_day : ℕ → List Bool → Bool → Run c → Run c × Result (Unit {0})
  query_day day requested include_non_search r =
      let (hot, matcher) =
        hot_candidates find_overlapping hot_index requested include_non_search r.matcher
          (hot_of_day day 0 hot_packets) in
      let (p, index) = day_index r.partitions day (group_chars c r.matcher.groups) requested in
      finish_day r p (
        day_loop c find_overlapping hot_visibility emit day index.1 p fuel
          (record {
            hot = sort_candidates hot;
            source = open_source (lookup day p.files) index.0;
            pending = none;
            finished = false;
            seen = [];
            matcher = matcher;
          })
          r.batch)

  -- One round of the loop over the days.
  unfoldable pub query_or_skip : ℕ → Run c → Run c × Result (Unit {0})
  query_or_skip day r =
      let queries = refresh_active_queries (is_query_active day) 0 r.batch.queries in
      let batch : Batch = record {
        filters = r.batch.filters;
        queries = queries;
        output = r.batch.output;
      } in
      let refreshed : Run c = record {
        partitions = r.partitions;
        matcher = r.matcher;
        batch = batch;
      } in
      let requested =
        requested_searches_for_day day batch.filters queries (length r.matcher.groups) in
      elim (requested.1 || any_set requested.0) [
        | false ↦ (refreshed, ok tt)
        | true ↦ query_day day requested.0 requested.1 refreshed
      ]

  abbrev pub next_days :
      (Run c → Run c × Result (Unit {0})) → Run c × Result (Unit {0}) → Run c × Result (Unit {0})
  next_days others (r, err e) = (r, err e)
  next_days others (r, ok u) = others r

  unfoldable pub query_all_days : List ℕ → Run c → Run c × Result (Unit {0})
  query_all_days [] r = (r, ok tt)
  query_all_days (day ∷ days) r = next_days (query_all_days days) (query_or_skip day r)

-- The query states at the start
unfoldable pub active_queries : List (List Filter) → List BatchedQueryState
active_queries [] = []
active_queries (filters ∷ queries) = record { active = true; emitted = [] } ∷ active_queries queries

-- The visibility among the hot packets is made if some filter searches.
abbrev pub hot_visibility_if :
    (c : Context) → List SearchGroup → List EventPacket → Result (Option VisibilityIndex)
hot_visibility_if c [] hot_packets = ok none
hot_visibility_if c (group ∷ groups) hot_packets = do
  index ← from_packets c.ndb hot_packets
  ok (some index)

module _ (c : Context) (find_overlapping : List Bytes → Bytes → List ℕ)
    (is_query_active : ℕ → ℕ → Bool) (emit : EventPacket → List ℕ → Result (List ℕ))
    (fuel : ℕ) where
  abbrev pub start :
      List (List Filter) → List BatchedFilterState × SearchMatcher → Partitions c → Run c
  start queries (filters, matcher) p = record {
    partitions = p;
    matcher = matcher;
    batch = record { filters = filters; queries = active_queries queries; output = [] };
  }

  -- `query_streaming_batch`, on the hot packets with their index
  unfoldable pub query_streaming_batch :
      List (List Filter)
      → List EventPacket
      → List ℕ × Bytes
      → Partitions c
      → Run c × Result (Unit {0})
  query_streaming_batch queries hot_packets hot_index p =
      let built = build_filter_states c.unicode queries in
      elim (hot_visibility_if c (built.1).groups hot_packets) [
        | err e ↦ (start queries built p, err e)
        | ok hot_visibility ↦
            query_all_days c find_overlapping is_query_active emit hot_packets hot_index
              hot_visibility fuel (add_days (hot_days hot_packets) (partition_event_days p.files))
              (start queries built p)
      ]
