-- ===== src/Batched.antt =====
-- storage/batched_query.rs: the queries of many subscriptions at once. The packets of a day, from the
-- hot file and from its partition, are visited once in their order, and each goes to the queries
-- with a filter that takes it. What is only logged is not modelled.
pub mod Matcher
pub mod Source
pub mod Query
pub mod Delivered
use searchnos_db.Prelude.{
  ℕ, zero, suc, ◌+◌, ◌-◌, Bytes, Bool, true, false, ◌&&◌, ◌||◌, not, ◌==◌, Option, none, some, List,
  [], ◌∷◌, ◌++◌, Result, ok, err, ◌>>=◌, ◌=?◌, bytes_eq, nat_eq, contains, get_elem?, set,
  replicate, length, if◌then◌else◌,
}
use searchnos_db.Event.{EventPacket}
use searchnos_db.Query.{partition_day_overlaps_filter}
use searchnos_db.Filter.{Filter, matches_filter_without_search}
use searchnos_db.SearchText.{Unicode}
use searchnos_db.Visibility.Index.{VisibilityIndex, is_visible}
use searchnos_db.Visibility.Store.{is_visible_in_txn, VisibilityStore}
use searchnos_db.Cursor.Sources.{filter_terms}
use searchnos_db.Reindex.{Context}
use searchnos_db.Batched.Matcher.{SearchMatcher, new_matcher, insert_all}

-- `struct BatchedFilterState`
pub record BatchedFilterState : Type 0 where
  pub query_index : ℕ
  pub filter : Filter
  pub remaining : Option ℕ
  pub search_group : Option ℕ

-- `struct BatchedQueryState`
pub record BatchedQueryState : Type 0 where
  pub active : Bool
  pub emitted : List Bytes

-- `struct Candidate`
pub record Candidate : Type 0 where
  pub packet : EventPacket
  pub search_groups : List ℕ
  pub from_partition : Bool

-- Equality of lists of terms.
unfoldable pub same_terms : List Bytes → List Bytes → Bool
same_terms [] [] = true
same_terms (t ∷ terms) (u ∷ others) = (t =? u) && same_terms terms others
same_terms _ _ = false

-- `group_indexes.get(&terms)`: the groups are numbered in their order.
unfoldable pub group_index : List Bytes → ℕ → List (List Bytes) → Option ℕ
group_index terms i [] = none
group_index terms i (group ∷ groups) =
    let rest = group_index terms (i + 1) groups in if same_terms group terms then some i else rest

-- The group of the terms of a filter, and the groups with it.
unfoldable pub search_group : List Bytes → List (List Bytes) → Option ℕ × List (List Bytes)
search_group [] groups = (none, groups)
search_group (term ∷ terms) groups = elim (group_index (term ∷ terms) 0 groups) [
  | some i ↦ (some i, groups)
  | none ↦ (some (length groups), groups ++ (term ∷ terms) ∷ [])
]

module _ (unicode : Unicode) where
  -- The loop over the filters of a query; the terms are sorted and each stands once.
  unfoldable pub query_filter_states :
      ℕ → List Filter → List (List Bytes) → List BatchedFilterState × List (List Bytes)
  query_filter_states query_index [] groups = ([], groups)
  query_filter_states query_index (filter ∷ filters) groups =
      let (group, with_group) =
        search_group (insert_all (filter_terms unicode filter.search) []) groups in
      let (states, last) = query_filter_states query_index filters with_group in
      (
        record {
          query_index = query_index;
          filter = filter;
          remaining = filter.limit;
          search_group = group;
        }
            ∷ states,
        last,
      )

  unfoldable pub all_filter_states :
      ℕ → List (List Filter) → List (List Bytes) → List BatchedFilterState × List (List Bytes)
  all_filter_states i [] groups = ([], groups)
  all_filter_states i (filters ∷ queries) groups =
      let (states, with_groups) = query_filter_states i filters groups in
      let (others, last) = all_filter_states (i + 1) queries with_groups in (states ++ others, last)

  -- `build_filter_states`
  unfoldable pub build_filter_states : List (List Filter) → List BatchedFilterState × SearchMatcher
  build_filter_states queries =
      let (states, groups) = all_filter_states 0 queries [] in (states, new_matcher groups)

-- `refresh_active_queries`
unfoldable pub refresh_active_queries :
    (ℕ → Bool) → ℕ → List BatchedQueryState → List BatchedQueryState
refresh_active_queries is_query_active i [] = []
refresh_active_queries is_query_active i (q ∷ queries) =
    record q { active = q.active && is_query_active i }
    ∷ refresh_active_queries is_query_active (i + 1) queries

-- `query_states[state.query_index].active`
abbrev pub is_active_query : Option BatchedQueryState → Bool
is_active_query none = false
is_active_query (some q) = q.active

abbrev pub is_exhausted : Option ℕ → Bool
is_exhausted (some zero) = true
is_exhausted _ = false

-- A filter that still takes packets of a day.
unfoldable pub is_open : ℕ → List BatchedQueryState → BatchedFilterState → Bool
is_open day queries state =
    not (is_exhausted state.remaining)
    && (is_active_query (get_elem? queries state.query_index)
        && partition_day_overlaps_filter day state.filter.since state.filter.until)

-- `requested_searches_for_day`
unfoldable pub requested_from :
    ℕ → List BatchedQueryState → List BatchedFilterState → List Bool × Bool → List Bool × Bool
requested_from day queries [] requested = requested
requested_from day queries (state ∷ states) (groups, include_non_search) =
    let skipped = requested_from day queries states (groups, include_non_search) in
    let searched =
      λ (g : ℕ). requested_from day queries states (set groups g true, include_non_search) in
    let plain = requested_from day queries states (groups, true) in
    elim (is_open day queries state) [
      | false ↦ skipped
      | true ↦ elim state.search_group [ some g ↦ searched g | none ↦ plain ]
    ]

abbrev pub requested_searches_for_day :
    ℕ → List BatchedFilterState → List BatchedQueryState → ℕ → List Bool × Bool
requested_searches_for_day day states queries count =
    requested_from day queries states (replicate count false, false)

-- What a batch emits: the packets, each with the indexes of its queries.
pub record Batch : Type 0 where
  pub filters : List BatchedFilterState
  pub queries : List BatchedQueryState
  pub output : List (EventPacket × List ℕ)

-- `query_states[i].emitted.insert(id)`: the queries with it, and whether it was new.
unfoldable pub insert_emitted : ℕ → Bytes → List BatchedQueryState → List BatchedQueryState × Bool
insert_emitted i id [] = ([], false)
insert_emitted zero id (q ∷ queries) = elim (contains q.emitted id) [
  | true ↦ (q ∷ queries, false)
  | false ↦ (record q { emitted = id ∷ q.emitted } ∷ queries, true)
]
insert_emitted (suc i) id (q ∷ queries) =
    let (others, inserted) = insert_emitted i id queries in (q ∷ others, inserted)

-- `state.active = false` for the queries that the receiver gives back
unfoldable pub deactivate : ℕ → List BatchedQueryState → List BatchedQueryState
deactivate i [] = []
deactivate zero (q ∷ queries) = record q { active = false } ∷ queries
deactivate (suc i) (q ∷ queries) = q ∷ deactivate i queries

unfoldable pub deactivate_all : List ℕ → List BatchedQueryState → List BatchedQueryState
deactivate_all [] queries = queries
deactivate_all (i ∷ is) queries = deactivate_all is (deactivate i queries)

abbrev pub one_less : Option ℕ → Option ℕ
one_less none = none
one_less (some n) = some (n - 1)

-- The filters that were visited, and the queries that the candidate goes to.
pub record Visited : Type 0 where
  pub filters : List BatchedFilterState
  pub queries : List BatchedQueryState
  pub query_indexes : List ℕ

abbrev pub in_group : Option ℕ → List ℕ → Bool
in_group none groups = true
in_group (some g) groups = contains groups g

module _ (c : Context) (store : VisibilityStore c.lmdb)
    (hot_visibility : Option VisibilityIndex) where
  abbrev pub visible_hot : Option VisibilityIndex → EventPacket → Bool
  visible_hot none packet = true
  visible_hot (some index) packet = is_visible c.ndb index packet

  -- Whether the candidate is visible; the source computes it once and keeps it.
  unfoldable pub candidate_is_visible : Candidate → Result Bool
  candidate_is_visible candidate =
      if visible_hot hot_visibility candidate.packet
      then (if candidate.from_partition
          then is_visible_in_txn c.lmdb c.sha256 c.ndb store candidate.packet
          else ok true)
      else ok false

  -- Whether an open filter takes the candidate.
  unfoldable pub takes : Candidate → BatchedFilterState → Result Bool
  takes candidate state = elim (in_group state.search_group candidate.search_groups) [
    | false ↦ ok false
    | true ↦ do
      matches ← matches_filter_without_search c.ndb state.filter candidate.packet
      elim matches [
        | false ↦ ok false
        | true ↦ elim state.search_group [
          | none ↦ ok true
          | some g ↦ candidate_is_visible candidate
        ]
      ]
  ]

  -- A filter that takes the candidate: one less remains, and its query gets it once.
  unfoldable pub deliver : Candidate → BatchedFilterState → Visited → Visited
  deliver candidate state v =
      let (queries, inserted) = insert_emitted state.query_index candidate.packet.id v.queries in
      record {
        filters = v.filters ++ record state { remaining = one_less state.remaining } ∷ [];
        queries = queries;
        query_indexes =
            if inserted then v.query_indexes ++ state.query_index ∷ [] else v.query_indexes;
      }

  abbrev pub pass : BatchedFilterState → Visited → Visited
  pass state v = record v { filters = v.filters ++ state ∷ [] }

  -- The loop of `emit_candidate` over the filters: an error leaves it with what the filters before
  -- have changed.
  unfoldable pub visit_filters :
      ℕ → Candidate → Visited → List BatchedFilterState → Visited × Result (Unit {0})
  visit_filters day candidate v [] = (v, ok tt)
  visit_filters day candidate v (state ∷ states) = elim (is_open day v.queries state) [
    | false ↦ visit_filters day candidate (pass state v) states
    | true ↦ elim (takes candidate state) [
      | err e ↦ (record v { filters = v.filters ++ state ∷ states }, err e)
      | ok false ↦ visit_filters day candidate (pass state v) states
      | ok true ↦ visit_filters day candidate (deliver candidate state v) states
    ]
  ]

  module _ (emit : EventPacket → List ℕ → Result (List ℕ)) where
    unfoldable pub emit_visited : Candidate → Batch → Visited → Batch × Result (Unit {0})
    emit_visited candidate b v = elim v.query_indexes [
      | [] ↦ (record b { filters = v.filters; queries = v.queries }, ok tt)
      | i ∷ is ↦
          let output = b.output ++ (candidate.packet, i ∷ is) ∷ [] in
          elim (emit candidate.packet (i ∷ is)) [
            | err e ↦ (record { filters = v.filters; queries = v.queries; output = output }, err e)
            | ok failed ↦ (
              record {
                filters = v.filters;
                queries = deactivate_all failed v.queries;
                output = output;
              },
              ok tt,
            )
          ]
    ]

    abbrev pub emit_unless_failed :
        Candidate → Batch → Visited × Result (Unit {0}) → Batch × Result (Unit {0})
    emit_unless_failed candidate b (v, err e) =
        (record b { filters = v.filters; queries = v.queries }, err e)
    emit_unless_failed candidate b (v, ok u) = emit_visited candidate b v

    -- `emit_candidate`; an error of a test ends the whole query, before the packet is handed over.
    unfoldable pub emit_candidate : ℕ → Candidate → Batch → Batch × Result (Unit {0})
    emit_candidate day candidate b = emit_unless_failed candidate b (
        visit_filters day candidate
          (record { filters = []; queries = b.queries; query_indexes = [] }) b.filters)
