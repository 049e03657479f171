-- ===== src/Streaming/Once.antt =====
-- The identifiers that a query emits.
use searchnos_db.Prelude.{
  ℕ, zero, suc, Bytes, false, Option, none, some, List, [], ◌∷◌, ◌++◌, Result, ok, err, ◌≡◌, refl,
  ap, ◌∙◌, contains, bytes_eq, Bool-cases, Result-cases, inl, inr,
}
use searchnos_db.Event.{EventPacket}
use searchnos_db.Filter.{Filter}
use searchnos_db.Cursor.{PacketCursor, next_merged_packet}
use searchnos_db.Reindex.{Context, Partitions, partition_event_days}
use searchnos_db.Streaming.{
  Emission, emit_once, emit_day, emit_best, emit_popped, go_on_unless_failed, best_day_cursor_index,
  pop_day, Loop, DayCursor, next_of_source, emit_cursors, unless_failed, query_days,
  query_streaming, filter_states, all_days, day_cursors,
}

-- No identifier stands twice in the list.
abbrev pub AreOnce : List Bytes → Type 0
AreOnce [] = Unit
AreOnce (id ∷ ids) = (contains ids id ≡ false) × AreOnce ids

-- The identifiers of packets, the last one first, before others.
unfoldable pub ids_onto : List Bytes → List EventPacket → List Bytes
ids_onto ids [] = ids
ids_onto ids (p ∷ packets) = ids_onto (p.id ∷ ids) packets

ids_onto-append :
    (ids : List Bytes) (xs ys : List EventPacket)
    → ids_onto ids (xs ++ ys) ≡ ids_onto (ids_onto ids xs) ys
unfolding ids_onto
ids_onto-append ids [] ys = refl
ids_onto-append ids (x ∷ xs) ys = ids_onto-append (x.id ∷ ids) xs ys

-- The identifiers that are remembered are those of the emitted packets, and differ.
pub record IsOnce (e : Emission) : Type 0 where
  pub same : ids_onto [] e.packets ≡ e.emitted
  pub once : AreOnce e.emitted

module _ (emit : EventPacket → Result (Unit {0})) where
  emit_once-IsOnce :
      (i : ℕ) (p : EventPacket) (e : Emission) → IsOnce e → IsOnce (emit_once emit i p e).0
  unfolding emit_once ids_onto
  emit_once-IsOnce i p e h = elim (Bool-cases (contains e.emitted p.id)) [
    | inl seen ↦ rw (seen, emit_once) (record { same = h.same; once = h.once })
    | inr new ↦
        rw (new, emit_once)
          (record {
            same = ids_onto-append [] e.packets (p ∷ []) ∙ ap (λ ids. p.id ∷ ids) h.same;
            once = (new, h.once);
          })
  ]

  module _ {S : Type 0} (next : S → S × Result (Option EventPacket)) where
    go_on-IsOnce :
        (again : Loop next) (cursors : List (ℕ × PacketCursor S))
        → ((e : Emission) → IsOnce e → IsOnce (again cursors e).0)
        → (r : Emission × Result (Unit {0})) → IsOnce r.0
        → IsOnce (go_on_unless_failed next emit again cursors r).0
    go_on-IsOnce again cursors step (e, err f) h = h
    go_on-IsOnce again cursors step (e, ok u) h = step e h

    emit_popped-IsOnce :
        (again : Loop next)
        → ((cursors : List (ℕ × PacketCursor S)) (e : Emission)
            → IsOnce e
            → IsOnce (again cursors e).0)
        → (e : Emission) (r : List (ℕ × PacketCursor S) × Result (ℕ × Option EventPacket))
        → IsOnce e
        → IsOnce (emit_popped next emit again e r).0
    unfolding emit_popped
    emit_popped-IsOnce again step e (popped, err f) h = h
    emit_popped-IsOnce again step e (popped, ok (i, none)) h = h
    emit_popped-IsOnce again step e (popped, ok (i, some p)) h =
        go_on-IsOnce again popped (step popped) (emit_once emit i p e) (emit_once-IsOnce i p e h)

    emit_best-IsOnce :
        (again : Loop next)
        → ((cursors : List (ℕ × PacketCursor S)) (e : Emission)
            → IsOnce e
            → IsOnce (again cursors e).0)
        → (e : Emission) (r : List (ℕ × PacketCursor S) × Result (Option ℕ)) → IsOnce e
        → IsOnce (emit_best next emit again e r).0
    unfolding emit_best
    emit_best-IsOnce again step e (peeked, err f) h = h
    emit_best-IsOnce again step e (peeked, ok none) h = h
    emit_best-IsOnce again step e (peeked, ok (some i)) h =
        emit_popped-IsOnce again step e (pop_day next i peeked) h

    emit_day-IsOnce :
        (fuel : ℕ) (cursors : List (ℕ × PacketCursor S)) (e : Emission)
        → IsOnce e
        → IsOnce (emit_day next emit fuel cursors e).0
    unfolding emit_day
    emit_day-IsOnce zero cursors e h = h
    emit_day-IsOnce (suc fuel) cursors e h =
        emit_best-IsOnce (emit_day next emit fuel) (emit_day-IsOnce fuel) e
          (best_day_cursor_index next cursors) h

  module _ (c : Context) (fuel : ℕ) where
    emit_cursors-IsOnce :
        (e : Emission) (r : Partitions c × Result (List (ℕ × DayCursor c)))
        → IsOnce e
        → IsOnce (emit_cursors c emit fuel e r).1
    emit_cursors-IsOnce e (p, err f) h = h
    emit_cursors-IsOnce e (p, ok cursors) h =
        emit_day-IsOnce (next_merged_packet (next_of_source c) fuel) fuel cursors e h

    unless_failed-IsOnce :
        (others : Partitions c → Emission → Partitions c × Emission × Result (Unit {0}))
        → ((p : Partitions c) (e : Emission) → IsOnce e → IsOnce (others p e).1)
        → (r : Partitions c × Emission × Result (Unit {0})) → IsOnce r.1
        → IsOnce (unless_failed c emit fuel others r).1
    unless_failed-IsOnce others step (p, e, err f) h = h
    unless_failed-IsOnce others step (p, e, ok u) h = step p e h

    query_days-IsOnce :
        (days : List ℕ) (p : Partitions c) (e : Emission)
        → IsOnce e
        → IsOnce (query_days c emit fuel days p e).1
    unfolding query_days
    query_days-IsOnce [] p e h = h
    query_days-IsOnce (day ∷ days) p e h =
        unless_failed-IsOnce (query_days c emit fuel days) (query_days-IsOnce days)
          (emit_cursors c emit fuel e (day_cursors c p day 0 e.states))
          (emit_cursors-IsOnce e (day_cursors c p day 0 e.states) h)

    -- A query emits no two packets with the same identifier, for any filters and any contents of
    -- the files, also if it ends with an error: the identifiers that it remembers are those of the
    -- packets it has handed to the receiver, and none of them stands twice.
    pub query_streaming-IsOnce :
        (find_iter : Bytes → Bytes → List ℕ) (hot_packets : List EventPacket)
        (index : List ℕ × Bytes) (filters : List Filter) (p : Partitions c)
        → IsOnce (query_streaming c emit fuel find_iter hot_packets index filters p).1
    unfolding query_streaming
    query_streaming-IsOnce find_iter hot_packets index filters p =
        elim (Result-cases
          (filter_states c find_iter hot_packets index (partition_event_days p.files) filters)) [
            | inr (f, e) ↦
                rw (e, query_streaming) (record { same = unfold ids_onto in refl; once = tt })
            | inl (states, e) ↦
                rw (e, query_streaming)
                  (query_days-IsOnce (all_days states) p
                    (record { packets = []; emitted = []; states = states })
                    (record { same = unfold ids_onto in refl; once = tt }))
          ]
