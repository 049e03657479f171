-- ===== src/Batched/Delivered.antt =====
-- The identifiers that each query of a batch gets (storage/batched_query.rs).
pub mod Days
use searchnos_db.Prelude.{
  ◌⊎◌, =?_iff, ◌=?◌, ok, err, arith, ℕ, zero, suc, ◌+◌, Bytes, Bool, true, false, ◌&&◌, ◌||◌, ◌==◌,
  Option, none, some, List, [], ◌∷◌, ◌++◌, Result, ok, err, ◌≡◌, refl, sym, ap, subst, ◌∙◌,
  contains, bytes_eq, nat_eq, Bool-cases, Result-cases, Option-cases, inl, inr, if◌then◌else◌,
  arith,
}
use searchnos_db.Prelude.Dict.{lookup}
use searchnos_db.Event.{EventPacket}
use searchnos_db.Filter.{Filter}
use searchnos_db.Visibility.Index.{VisibilityIndex}
use searchnos_db.Visibility.Store.{VisibilityStore}
use searchnos_db.Reindex.{Context, Partitions}
use searchnos_db.Streaming.Once.{AreOnce}
use searchnos_db.Batched.{
  BatchedQueryState, BatchedFilterState, Candidate, Batch, Visited, insert_emitted, deactivate,
  deactivate_all, refresh_active_queries, deliver, pass, takes, visit_filters, is_open,
  emit_visited, emit_unless_failed, emit_candidate,
}

-- The identifiers that a query gets of a packet, the last one first, before others: once for each
-- time that it stands among the queries of the packet.
unfoldable pub received_of : ℕ → Bytes → List ℕ → List Bytes → List Bytes
received_of i id [] ids = ids
received_of i id (j ∷ js) ids = received_of i id js (if j == i then id ∷ ids else ids)

-- The identifiers that a query gets.
unfoldable pub received : ℕ → List Bytes → List (EventPacket × List ℕ) → List Bytes
received i ids [] = ids
received i ids ((p, js) ∷ output) = received i (received_of i p.id js ids) output

-- The identifiers that are remembered for a query.
unfoldable pub emitted_of : ℕ → List BatchedQueryState → List Bytes
emitted_of i [] = []
emitted_of zero (q ∷ queries) = q.emitted
emitted_of (suc i) (q ∷ queries) = emitted_of i queries

-- What is remembered for a query is what it got, and no identifier stands there twice.
abbrev pub IsReceived : ℕ → List BatchedQueryState → List Bytes → Type 0
IsReceived i queries ids = (ids ≡ emitted_of i queries) × AreOnce (emitted_of i queries)

abbrev pub IsDelivered : ℕ → Batch → Type 0
IsDelivered i b = IsReceived i b.queries (received i [] b.output)

-- What is remembered is what the query got, or one identifier more, and none stands there twice.
abbrev pub IsAhead : ℕ → Batch → Type 0
IsAhead i b =
    (received i [] b.output ≡ emitted_of i b.queries
      ⊎ ((id : Bytes) × (id ∷ received i [] b.output ≡ emitted_of i b.queries)))
    × AreOnce (emitted_of i b.queries)

-- An error of a filter's test leaves behind what the filters before have remembered.
abbrev pub IsEnded : ℕ → Batch → Result (Unit {0}) → Type 0
IsEnded i b (ok u) = IsDelivered i b
IsEnded i b (err e) = IsAhead i b

pub IsEnded-of_delivered :
    (i : ℕ) (b : Batch) (r : Result (Unit {0})) → IsDelivered i b → IsEnded i b r
IsEnded-of_delivered i b (ok u) h = h
IsEnded-of_delivered i b (err e) h = (inl h.0, h.1)

-- In both cases the query got no identifier twice.
pub AreOnce-of_ended :
    (i : ℕ) (b : Batch) (r : Result (Unit {0})) → IsEnded i b r → AreOnce (received i [] b.output)
AreOnce-of_ended i b (ok u) h = rw (h.0) (h.1)
AreOnce-of_ended i b (err e) (inl same, once) = rw same once
AreOnce-of_ended i b (err e) (inr (id, more), once) = (subst AreOnce (sym more) once).1

received_of-append :
    (i : ℕ) (id : Bytes) (js : List ℕ) (j : ℕ) (ids : List Bytes)
    → received_of i id (js ++ j ∷ []) ids
      ≡ (if j == i then id ∷ received_of i id js ids else received_of i id js ids)
unfolding received_of
received_of-append i id [] j ids = refl
received_of-append i id (k ∷ js) j ids =
    received_of-append i id js j (if k == i then id ∷ ids else ids)

received-append :
    (i : ℕ) (output : List (EventPacket × List ℕ)) (p : EventPacket) (js : List ℕ)
    (ids : List Bytes)
    → received i ids (output ++ (p, js) ∷ []) ≡ received_of i p.id js (received i ids output)
unfolding received
received-append i [] p js ids = refl
received-append i ((q, ks) ∷ output) p js ids =
    received-append i output p js (received_of i q.id ks ids)

-- A query gets an identifier into its set only if it was not there.
record Inserts (i j : ℕ) (id : Bytes) (queries : List BatchedQueryState) : Type 0 where
  emitted : emitted_of i (insert_emitted j id queries).0 ≡ (
      if (insert_emitted j id queries).1 && j == i
      then id ∷ emitted_of i queries
      else emitted_of i queries)
  new :
      ((insert_emitted j id queries).1 && j == i) ≡ true
      → contains (emitted_of i queries) id ≡ false

suc_other : (j : ℕ) → (suc j == 0) ≡ false
suc_other j = ground arith

zero_other : (i : ℕ) → (0 == suc i) ≡ false
zero_other i = ground arith

suc_same : (j i : ℕ) → (suc j == suc i) ≡ (j == i)
suc_same j i = ground arith

and_false : (b : Bool) → (b && false) ≡ false
and_false true = refl
and_false false = refl

insert_emitted-Inserts :
    (i j : ℕ) (id : Bytes) (queries : List BatchedQueryState) → Inserts i j id queries
unfolding insert_emitted emitted_of
insert_emitted-Inserts i j id [] = record { emitted = refl; new = λ h. cc }
insert_emitted-Inserts zero zero id (q ∷ queries) = elim (Bool-cases (contains q.emitted id)) [
  | inl seen ↦ record {
    emitted = rw (seen, insert_emitted) refl;
    new = λ h. cc (rw (seen, insert_emitted) at h);
  }
  | inr fresh ↦ record { emitted = rw (fresh, insert_emitted) refl; new = λ h. fresh }
]
insert_emitted-Inserts (suc i) zero id (q ∷ queries) = elim (Bool-cases (contains q.emitted id)) [
  | inl seen ↦ record {
    emitted = rw (seen, insert_emitted) refl;
    new = λ h. cc (rw (seen, insert_emitted) at h);
  }
  | inr fresh ↦ record {
    emitted = rw (fresh, insert_emitted) (rw (zero_other i) refl);
    new = λ h. cc (rw (fresh, insert_emitted, zero_other i) at h);
  }
]
insert_emitted-Inserts zero (suc j) id (q ∷ queries) =
    let (others, inserted) = insert_emitted j id queries in
    let other : (inserted && suc j == 0) ≡ false = rw (suc_other j) (and_false inserted) in
    record { emitted = rw other refl; new = λ h. cc }
insert_emitted-Inserts (suc i) (suc j) id (q ∷ queries) =
    let ih = insert_emitted-Inserts i j id queries in
    record { emitted = rw (suc_same j i) (ih.emitted); new = λ h. ih.new (rw (suc_same j i) at h) }

emitted_of-deactivate :
    (i j : ℕ) (queries : List BatchedQueryState)
    → emitted_of i (deactivate j queries) ≡ emitted_of i queries
unfolding emitted_of deactivate
emitted_of-deactivate i j [] = refl
emitted_of-deactivate zero zero (q ∷ queries) = refl
emitted_of-deactivate (suc i) zero (q ∷ queries) = refl
emitted_of-deactivate zero (suc j) (q ∷ queries) = refl
emitted_of-deactivate (suc i) (suc j) (q ∷ queries) = emitted_of-deactivate i j queries

emitted_of-deactivate_all :
    (i : ℕ) (js : List ℕ) (queries : List BatchedQueryState)
    → emitted_of i (deactivate_all js queries) ≡ emitted_of i queries
unfolding deactivate_all
emitted_of-deactivate_all i [] queries = refl
emitted_of-deactivate_all i (j ∷ js) queries =
    emitted_of-deactivate_all i js (deactivate j queries) ∙ emitted_of-deactivate i j queries

pub emitted_of-refresh_active_queries :
    (is_query_active : ℕ → Bool) (i k : ℕ) (queries : List BatchedQueryState)
    → emitted_of i (refresh_active_queries is_query_active k queries) ≡ emitted_of i queries
unfolding emitted_of refresh_active_queries
emitted_of-refresh_active_queries is_query_active i k [] = refl
emitted_of-refresh_active_queries is_query_active zero k (q ∷ queries) = refl
emitted_of-refresh_active_queries is_query_active (suc i) k (q ∷ queries) =
    emitted_of-refresh_active_queries is_query_active i (k + 1) queries

-- Where no identifier stands twice, a packet adds at most one.
contains-head : (id : Bytes) (ids : List Bytes) → contains (id ∷ ids) id ≡ true
contains-head id ids = ground (arith, (=?_iff id id).1 refl)

received_of-AreOnce :
    (i : ℕ) (id : Bytes) (js : List ℕ) (ids : List Bytes)
    → AreOnce (received_of i id js ids)
    → AreOnce ids
unfolding received_of
received_of-AreOnce i id [] ids h = h
received_of-AreOnce i id (j ∷ js) ids h = elim (Bool-cases (j == i)) [
  | inl mine ↦ (received_of-AreOnce i id js (id ∷ ids) (rw mine at h)).1
  | inr other ↦ received_of-AreOnce i id js ids (rw other at h)
]

received_of-seen :
    (i : ℕ) (id : Bytes) (js : List ℕ) (ids : List Bytes)
    → contains ids id ≡ true
    → AreOnce (received_of i id js ids)
    → received_of i id js ids ≡ ids
unfolding received_of
received_of-seen i id [] ids seen h = refl
received_of-seen i id (j ∷ js) ids seen h = elim (Bool-cases (j == i)) [
  | inl mine ↦ let new = (received_of-AreOnce i id js (id ∷ ids) (rw mine at h)).0 in cc
  | inr other ↦ rw other (received_of-seen i id js ids seen (rw other at h))
]

received_of-at_most_one :
    (i : ℕ) (id : Bytes) (js : List ℕ) (ids : List Bytes)
    → AreOnce (received_of i id js ids)
    → received_of i id js ids ≡ ids ⊎ (received_of i id js ids ≡ id ∷ ids)
unfolding received_of
received_of-at_most_one i id [] ids h = inl refl
received_of-at_most_one i id (j ∷ js) ids h = elim (Bool-cases (j == i)) [
  | inl mine ↦
      rw mine (inr (received_of-seen i id js (id ∷ ids) (contains-head id ids) (rw mine at h)))
  | inr other ↦ rw other (received_of-at_most_one i id js ids (rw other at h))
]

-- The rounds of a candidate with this identifier, over what was received before.
module _ (i : ℕ) (id : Bytes) (before : List Bytes) where
  abbrev pub IsVisited : Visited → Type 0
  IsVisited v = IsReceived i v.queries (received_of i id v.query_indexes before)

  deliver_case :
      (j : ℕ) (queries : List BatchedQueryState) (js : List ℕ)
      → IsReceived i queries (received_of i id js before)
      → (queries' : List BatchedQueryState) (inserted mine : Bool) → (j == i) ≡ mine
      → emitted_of i queries'
        ≡ (if inserted && mine then id ∷ emitted_of i queries else emitted_of i queries)
      → ((inserted && mine) ≡ true → contains (emitted_of i queries) id ≡ false)
      → IsReceived i queries' (received_of i id (if inserted then js ++ j ∷ [] else js) before)
  deliver_case j queries js h queries' false mine e f new = (h.0 ∙ sym f, rw f (h.1))
  deliver_case j queries js h queries' true true e f new = (
    received_of-append i id js j before ∙ rw e (ap (λ ids. id ∷ ids) h.0 ∙ sym f),
    rw f (new refl, h.1),
  )
  deliver_case j queries js h queries' true false e f new =
      (received_of-append i id js j before ∙ rw e (h.0 ∙ sym f), rw f (h.1))

module _ (c : Context) (store : VisibilityStore c.lmdb) (hot_visibility : Option VisibilityIndex)
    (i : ℕ) where
  module _ (before : List Bytes) (day : ℕ) (candidate : Candidate) where
    deliver-IsVisited :
        (state : BatchedFilterState) (v : Visited)
        → IsVisited i candidate.packet.id before v
        → IsVisited i candidate.packet.id before (deliver c store hot_visibility candidate state v)
    unfolding deliver
    deliver-IsVisited state v h =
        let ins = insert_emitted-Inserts i state.query_index candidate.packet.id v.queries in
        let (queries', inserted) = insert_emitted state.query_index candidate.packet.id v.queries in
        deliver_case i candidate.packet.id before state.query_index v.queries v.query_indexes h
          queries' inserted (state.query_index == i) refl ins.emitted ins.new

    visit_filters-IsVisited :
        (states : List BatchedFilterState) (v : Visited)
        → IsVisited i candidate.packet.id before v
        → IsVisited i candidate.packet.id before
            (visit_filters c store hot_visibility day candidate v states).0
    unfolding visit_filters
    visit_filters-IsVisited [] v h = h
    visit_filters-IsVisited (state ∷ states) v h = elim (Bool-cases (is_open day v.queries state)) [
      | inr closed ↦
          rw (closed, visit_filters)
            (visit_filters-IsVisited states (pass c store hot_visibility state v) h)
      | inl open_filter ↦ elim (Result-cases (takes c store hot_visibility candidate state)) [
        | inr (f, failed) ↦ rw (open_filter, failed, visit_filters) h
        | inl (taken, f) ↦ elim (Bool-cases taken) [
          | inl took ↦
              rw (open_filter, f, took, visit_filters)
                (visit_filters-IsVisited states (deliver c store hot_visibility candidate state v)
                  (deliver-IsVisited state v h))
          | inr refused ↦
              rw (open_filter, f, refused, visit_filters)
                (visit_filters-IsVisited states (pass c store hot_visibility state v) h)
        ]
      ]
    ]

  module _ (emit : EventPacket → List ℕ → Result (List ℕ)) (day : ℕ) (candidate : Candidate)
      (b : Batch) where
    emit_visited_to :
        (v : Visited) (js : List ℕ)
        → v.query_indexes ≡ js
        → IsVisited i candidate.packet.id (received i [] b.output) v
        → IsDelivered i (emit_visited c store hot_visibility emit candidate b v).0
    unfolding emit_visited received_of
    emit_visited_to v [] e h =
        let same : received i [] b.output ≡ emitted_of i v.queries = rw e at h.0 in
        rw (e, emit_visited) (same, h.1)
    emit_visited_to v (j ∷ js) e h =
        let got : received i [] (b.output ++ (candidate.packet, j ∷ js) ∷ [])
            ≡ emitted_of i v.queries =
          received-append i b.output candidate.packet (j ∷ js) [] ∙ (rw e at h.0) in
        elim (Result-cases (emit candidate.packet (j ∷ js))) [
          | inr (f, k) ↦ rw (e, k, emit_visited) (got, h.1)
          | inl (failed, k) ↦
              let kept = emitted_of-deactivate_all i failed v.queries in
              rw (e, k, emit_visited) (rw kept (got, h.1))
        ]

    abbrev unvisited : Visited
    unvisited = record { filters = []; queries = b.queries; query_indexes = [] }

    unvisited-IsVisited :
        IsDelivered i b → IsVisited i candidate.packet.id (received i [] b.output) unvisited
    unfolding received_of
    unvisited-IsVisited h = h

    emit_unless_failed-IsEnded :
        (r : Visited × Result (Unit {0}))
        → IsVisited i candidate.packet.id (received i [] b.output) r.0
        → let e = emit_unless_failed c store hot_visibility emit candidate b r in IsEnded i e.0 e.1
    emit_unless_failed-IsEnded (v, ok u) h =
        let r = emit_visited c store hot_visibility emit candidate b v in
        IsEnded-of_delivered i r.0 r.1 (emit_visited_to v v.query_indexes refl h)
    emit_unless_failed-IsEnded (v, err e) h =
        let once =
          received_of-at_most_one i candidate.packet.id v.query_indexes (received i [] b.output)
            (rw h.0 h.1) in
        (elim once [ inl same ↦ inl (cc) | inr one ↦ inr (candidate.packet.id, cc) ], h.1)

    pub emit_candidate-IsEnded :
        IsDelivered i b
        → IsEnded i
            (emit_candidate c store hot_visibility emit day candidate b).0
            (emit_candidate c store hot_visibility emit day candidate b).1
    unfolding emit_candidate
    emit_candidate-IsEnded h =
        emit_unless_failed-IsEnded
          (visit_filters c store hot_visibility day candidate unvisited b.filters)
          (visit_filters-IsVisited (received i [] b.output) day candidate b.filters unvisited
            (unvisited-IsVisited h))
