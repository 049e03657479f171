-- ===== src/Batched/Delivered/Days.antt =====
-- The identifiers that each query of a batch gets, over the candidates and the days
-- (storage/batched_query.rs).
use searchnos_db.Prelude.{
  panic, ℕ, zero, suc, Bytes, Bool, false, ◌||◌, Option, none, some, List, [], ◌∷◌, Result, ok, err,
  ◌≡◌, refl, contains, bytes_eq, nat_eq, Bool-cases, Result-cases, inl, inr, length,
}
use searchnos_db.Prelude.Dict.{lookup}
use searchnos_db.Event.{EventPacket}
use searchnos_db.Filter.{Filter}
use searchnos_db.Visibility.Index.{VisibilityIndex}
use searchnos_db.Reindex.{Context, Partitions, partition_event_days}
use searchnos_db.Streaming.{add_days, hot_days}
use searchnos_db.Streaming.Once.{AreOnce}
use searchnos_db.Batched.{
  Batch, Candidate, build_filter_states, refresh_active_queries, requested_searches_for_day,
  emit_candidate,
}
use searchnos_db.Batched.Matcher.{SearchMatcher}
use searchnos_db.Batched.Source.{any_set, hot_candidates, open_source}
use searchnos_db.Batched.Query.{
  DayLoop, take_candidate, fetch, is_requested, visit, visit_fetched, unless_failed, day_loop, Run,
  query_day, query_or_skip, next_days, query_all_days, active_queries, hot_visibility_if, start,
  day_index, group_chars, hot_of_day, sort_candidates, query_streaming_batch,
}
use searchnos_db.Batched.Delivered.{
  IsDelivered, IsEnded, IsEnded-of_delivered, AreOnce-of_ended, received, emitted_of,
  emitted_of-refresh_active_queries, emit_candidate-IsEnded,
}

emitted_of-active_queries :
    (i : ℕ) (queries : List (List Filter)) → emitted_of i (active_queries queries) ≡ []
unfolding active_queries emitted_of
emitted_of-active_queries i [] = refl
emitted_of-active_queries zero (filters ∷ queries) = refl
emitted_of-active_queries (suc i) (filters ∷ queries) = emitted_of-active_queries i queries

module _ (c : Context) (find_overlapping : List Bytes → Bytes → List ℕ)
    (emit : EventPacket → List ℕ → Result (List ℕ)) (i : ℕ) where
  module _ (hot_visibility : Option VisibilityIndex) (day : ℕ) (enabled : List Bool)
      (p : Partitions c) where
    abbrev Rounds : Type 0
    Rounds = DayLoop → Batch → Batch × SearchMatcher × Result (Unit {0})

    abbrev IsRound : Batch × SearchMatcher × Result (Unit {0}) → Type 0
    IsRound (b, matcher, done) = IsEnded i b done

    IsRound-of_delivered :
        (r : Batch × SearchMatcher × Result (Unit {0})) → IsDelivered i r.0 → IsRound r
    IsRound-of_delivered (b, matcher, done) h = IsEnded-of_delivered i b done h

    abbrev Keeps : Rounds → Type 0
    Keeps again = (l : DayLoop) (b : Batch) → IsDelivered i b → IsRound (again l b)

    unless_failed-IsDelivered :
        (again : Rounds) (l : DayLoop)
        → Keeps again
        → (r : Batch × Result (Unit {0})) → IsEnded i r.0 r.1
        → IsRound (unless_failed c find_overlapping hot_visibility emit day enabled p again l r)
    unless_failed-IsDelivered again l keeps (b, err e) h = h
    unless_failed-IsDelivered again l keeps (b, ok u) h = keeps l b h

    visit-IsDelivered :
        (again : Rounds) (l : DayLoop) (b : Batch)
        → Keeps again
        → (taken : Option (Candidate × List Candidate × Option Candidate)) → IsDelivered i b
        → IsRound (visit c find_overlapping hot_visibility emit day enabled p again l b taken)
    unfolding visit
    visit-IsDelivered again l b keeps none h = IsRound-of_delivered (b, l.matcher, ok tt) h
    visit-IsDelivered again l b keeps (some (candidate, hot, pending)) h =
        elim (Bool-cases (contains l.seen candidate.packet.id)) [
          | inl seen ↦ rw (seen, visit) (keeps _ b h)
          | inr new ↦
              rw (new, visit)
                (unless_failed-IsDelivered again _ keeps
                  (emit_candidate c p.visibility_store hot_visibility emit day candidate b)
                  (emit_candidate-IsEnded c p.visibility_store hot_visibility i emit day candidate b
                    h))
        ]

    visit_fetched-IsDelivered :
        (again : Rounds) (l : DayLoop) (b : Batch)
        → Keeps again
        → (fetched : Result DayLoop) → IsDelivered i b
        → IsRound
            (visit_fetched c find_overlapping hot_visibility emit day enabled p again l b fetched)
    visit_fetched-IsDelivered again l b keeps (err e) h =
        IsRound-of_delivered (b, l.matcher, err e) h
    visit_fetched-IsDelivered again l b keeps (ok m) h =
        visit-IsDelivered again m b keeps (take_candidate m.hot m.pending) h

    day_loop-IsDelivered :
        (fuel : ℕ) → Keeps (day_loop c find_overlapping hot_visibility emit day enabled p fuel)
    unfolding day_loop
    day_loop-IsDelivered zero l b h = IsRound-of_delivered (b, l.matcher, err panic) h
    day_loop-IsDelivered (suc fuel) l b h =
        let requested =
          requested_searches_for_day day b.filters b.queries (length l.matcher.groups) in
        let fetched =
          fetch c find_overlapping hot_visibility emit day enabled requested.0 requested.1 l in
        let step =
          visit_fetched-IsDelivered
            (day_loop c find_overlapping hot_visibility emit day enabled p fuel) l b
            (day_loop-IsDelivered fuel) fetched h in
        elim (Bool-cases
          (is_requested c find_overlapping hot_visibility emit day enabled p requested)) [
            | inr idle ↦ rw (idle, day_loop) (IsRound-of_delivered (b, l.matcher, ok tt) h)
            | inl busy ↦ rw (busy, day_loop) step
          ]

  module _ (is_query_active : ℕ → ℕ → Bool) (fuel : ℕ) where
    module _ (hot_packets : List EventPacket) (hot_index : List ℕ × Bytes)
        (hot_visibility : Option VisibilityIndex) where
      abbrev IsRun : Run c → Type 0
      IsRun r = IsDelivered i r.batch

      abbrev IsDone : Run c × Result (Unit {0}) → Type 0
      IsDone (r, done) = IsEnded i r.batch done

      query_day-IsRun :
          (day : ℕ) (requested : List Bool) (include_non_search : Bool) (r : Run c)
          → IsRun r
          → IsDone (
              query_day c find_overlapping is_query_active emit hot_packets hot_index hot_visibility
                fuel day requested include_non_search r)
      unfolding query_day
      query_day-IsRun day requested include_non_search r h =
          let (hot, matcher) =
            hot_candidates find_overlapping hot_index requested include_non_search r.matcher
              (hot_of_day day 0 hot_packets) in
          let (p, index) =
            day_index c find_overlapping is_query_active emit hot_packets hot_index hot_visibility
              fuel r.partitions day (group_chars c r.matcher.groups) requested in
          day_loop-IsDelivered hot_visibility day index.1 p fuel
            (record {
              hot = sort_candidates hot;
              source = open_source (lookup day p.files) index.0;
              pending = none;
              finished = false;
              seen = [];
              matcher = matcher;
            })
            r.batch h

      abbrev refreshed : ℕ → Run c → Run c
      refreshed day r = record r {
        batch = record r.batch {
          queries = refresh_active_queries (is_query_active day) 0 r.batch.queries;
        };
      }

      refreshed-IsRun : (day : ℕ) (r : Run c) → IsRun r → IsRun (refreshed day r)
      refreshed-IsRun day r h =
          rw (emitted_of-refresh_active_queries (is_query_active day) i 0 r.batch.queries) h

      query_or_skip-IsRun :
          (day : ℕ) (r : Run c)
          → IsRun r
          → IsDone (
              query_or_skip c find_overlapping is_query_active emit hot_packets hot_index
                hot_visibility fuel day r)
      unfolding query_or_skip
      query_or_skip-IsRun day r h =
          let s = refreshed day r in
          let kept = refreshed-IsRun day r h in
          let requested =
            requested_searches_for_day day s.batch.filters s.batch.queries
              (length s.matcher.groups) in
          elim (Bool-cases (requested.1 || any_set requested.0)) [
            | inr idle ↦ rw (idle, query_or_skip) kept
            | inl busy ↦
                rw (busy, query_or_skip) (query_day-IsRun day requested.0 requested.1 s kept)
          ]

      next_days-IsRun :
          (others : Run c → Run c × Result (Unit {0}))
          → ((r : Run c) → IsRun r → IsDone (others r))
          → (r : Run c × Result (Unit {0})) → IsDone r
          → IsDone (
              next_days c find_overlapping is_query_active emit hot_packets hot_index hot_visibility
                fuel others r)
      next_days-IsRun others keeps (r, err e) h = h
      next_days-IsRun others keeps (r, ok u) h = keeps r h

      query_all_days-IsRun :
          (days : List ℕ) (r : Run c)
          → IsRun r
          → IsDone (
              query_all_days c find_overlapping is_query_active emit hot_packets hot_index
                hot_visibility fuel days r)
      unfolding query_all_days
      query_all_days-IsRun [] r h = h
      query_all_days-IsRun (day ∷ days) r h =
          next_days-IsRun
            (query_all_days c find_overlapping is_query_active emit hot_packets hot_index
              hot_visibility fuel days)
            (query_all_days-IsRun days)
            (query_or_skip c find_overlapping is_query_active emit hot_packets hot_index
              hot_visibility fuel day r)
            (query_or_skip-IsRun day r h)

    -- No query of a batch gets an identifier twice, also if the batch ends with an error, for any
    -- filters and any contents of the files. If it ends without an error, the identifiers that are
    -- remembered for a query are those of the packets that were handed to the receiver for it; if it
    -- ends with one, they are these or one more, and in both cases none of them stands twice.
    pub query_streaming_batch-IsDelivered :
        (queries : List (List Filter)) (hot_packets : List EventPacket) (hot_index : List ℕ × Bytes)
        (p : Partitions c)
        → let (r, done) =
            query_streaming_batch c find_overlapping is_query_active emit fuel queries hot_packets
              hot_index p in
          AreOnce (received i [] r.batch.output) × IsEnded i r.batch done
    unfolding query_streaming_batch received
    query_streaming_batch-IsDelivered queries hot_packets hot_index p =
        let built = build_filter_states c.unicode queries in
        let begun : IsDelivered i
            (start c find_overlapping is_query_active emit fuel queries built p).batch =
          rw (emitted_of-active_queries i queries) (refl, tt) in
        elim (Result-cases (hot_visibility_if c (built.1).groups hot_packets)) [
          | inr (f, e) ↦
              rw (e, query_streaming_batch)
                (
                  AreOnce-of_ended i
                      (start c find_overlapping is_query_active emit fuel queries built p).batch
                      (ok tt) begun,
                  (inl begun.0, begun.1),
                )
          | inl (hot_visibility, e) ↦
              let ended =
                query_all_days-IsRun hot_packets hot_index hot_visibility
                  (add_days (hot_days hot_packets) (partition_event_days p.files))
                  (start c find_overlapping is_query_active emit fuel queries built p) begun in
              let (last, done) =
                query_all_days c find_overlapping is_query_active emit hot_packets hot_index
                  hot_visibility fuel
                  (add_days (hot_days hot_packets) (partition_event_days p.files))
                  (start c find_overlapping is_query_active emit fuel queries built p) in
              rw (e, query_streaming_batch) (AreOnce-of_ended i last.batch done ended, ended)
        ]
