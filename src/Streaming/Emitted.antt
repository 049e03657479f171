-- ===== src/Streaming/Emitted.antt =====
-- What the loop over the packets of a day emits (storage/streaming_query.rs).
use mathlib.Core.List.{append_assoc, append-nil}
use searchnos_db.Prelude.{
  ℕ, zero, suc, ◌<◌, Bytes, true, false, Option, none, some, List, [], ◌∷◌, ◌++◌, Result, ok, ◌≡◌,
  refl, sym, ap, ◌∙◌, arith, length, get_elem?, set, contains, bytes_eq, Bool-cases, inl, inr,
}
use searchnos_db.Event.{EventPacket}
use searchnos_db.Cursor.{PacketCursor, new_cursor, peek, pop, index_of}
use searchnos_db.Cursor.Choice.{
  head_of, Each, Each-get_elem?, Each-set, Each-weaken, best_from-choose,
}
use searchnos_db.Cursor.Heads.{merge_all, choose, IsHead, choose-IsHead}
use searchnos_db.Cursor.Merged.{distinct, IsPeeked, Holds, peek-Holds}
use searchnos_db.Streaming.{
  Emission, emit_once, take_one, with_index, best_day_cursor_index, pop_day, emit_popped, emit_best,
  emit_day,
}

-- The identifiers that are seen after a list.
unfoldable pub seen_after : List Bytes → List EventPacket → List Bytes
seen_after seen [] = seen
seen_after seen (p ∷ packets) = elim (contains seen p.id) [
  | true ↦ seen_after seen packets
  | false ↦ seen_after (p.id ∷ seen) packets
]

module _ {S : Type 0} (next : S → S × Result (Option EventPacket))
    (emit : EventPacket → Result (Unit {0})) (accepts : (p : EventPacket) → emit p ≡ ok tt) where
  abbrev pub DayCursor : Type 0
  DayCursor = ℕ × PacketCursor S

  abbrev pub DayHolds : DayCursor → List EventPacket → Type 0
  DayHolds c packets = Holds next c.1 packets

  abbrev pub DayPeeked : DayCursor → List EventPacket → Type 0
  DayPeeked c packets = IsPeeked next c.1 packets

  peek-DayHolds :
      (c : DayCursor) (packets : List EventPacket)
      → DayHolds c packets
      → (d : DayCursor) × (with_index c.0 (peek next c.1) ≡ (d, ok (head_of packets)))
        × DayPeeked d packets
  peek-DayHolds (i, cursor) packets h =
      let (d, e, peeked) = peek-Holds next cursor packets h in ((i, d), ap (with_index i) e, peeked)

  pop_day-Holds :
      (i : ℕ) (cursors : List DayCursor) (lists : List (List EventPacket)) (p : EventPacket)
      (packets : List EventPacket)
      → Each DayPeeked cursors lists
      → get_elem? lists i ≡ some (p ∷ packets)
      → (j : ℕ) × ((popped : List DayCursor) × (pop_day next i cursors ≡ (popped, ok (j, some p)))
          × Each DayHolds popped (set lists i packets))
  unfolding pop_day pop
  pop_day-Holds i cursors lists p packets h e =
      let ((j, c), f, peeked) = Each-get_elem? DayPeeked i cursors lists h e in
      (
        j,
        (
          set cursors i (j, new_cursor c.source),
          rw (f, pop_day) (rw (peeked.0, pop) refl),
          Each-set DayHolds i cursors lists (j, new_cursor c.source) packets
              (Each-weaken DayPeeked DayHolds (λ d l k. inl k) cursors lists h)
              (inr (refl, peeked.1)),
        ),
      )

  -- What a day adds to an emission.
  pub record Adds (e n : Emission) (packets : List EventPacket) : Type 0 where
    pub packets_added : n.packets ≡ e.packets ++ distinct e.emitted packets
    pub emitted_after : n.emitted ≡ seen_after e.emitted packets

  emit_once-Adds :
      (i : ℕ) (p : EventPacket) (e : Emission)
      → (n : Emission) × (emit_once emit i p e ≡ (n, ok tt)) × Adds e n (p ∷ [])
  unfolding emit_once distinct seen_after
  emit_once-Adds i p e = elim (Bool-cases (contains e.emitted p.id)) [
    | inl seen ↦ (
      record e { states = take_one i e.states },
      rw (seen, emit_once) refl,
      record {
        packets_added = rw (seen, distinct) (sym (append-nil e.packets));
        emitted_after = rw (seen, seen_after) refl;
      },
    )
    | inr new ↦ (
      record {
        packets = e.packets ++ p ∷ [];
        emitted = p.id ∷ e.emitted;
        states = take_one i e.states;
      },
      rw (new, emit_once) (rw (accepts p) refl),
      record { packets_added = rw (new, distinct) refl; emitted_after = rw (new, seen_after) refl },
    )
  ]

  distinct-append :
      (seen : List Bytes) (xs ys : List EventPacket)
      → distinct seen (xs ++ ys) ≡ distinct seen xs ++ distinct (seen_after seen xs) ys
  unfolding distinct seen_after
  distinct-append seen [] ys = refl
  distinct-append seen (x ∷ xs) ys = elim (Bool-cases (contains seen x.id)) [
    | inl old ↦ rw (old, distinct, seen_after) (distinct-append seen xs ys)
    | inr new ↦
        rw (new, distinct, seen_after) (ap (λ l. x ∷ l) (distinct-append (x.id ∷ seen) xs ys))
  ]

  seen_after-append :
      (seen : List Bytes) (xs ys : List EventPacket)
      → seen_after seen (xs ++ ys) ≡ seen_after (seen_after seen xs) ys
  unfolding seen_after
  seen_after-append seen [] ys = refl
  seen_after-append seen (x ∷ xs) ys = elim (Bool-cases (contains seen x.id)) [
    | inl old ↦ rw (old, seen_after) (seen_after-append seen xs ys)
    | inr new ↦ rw (new, seen_after) (seen_after-append (x.id ∷ seen) xs ys)
  ]

  pub Adds-append :
      (e m n : Emission) (xs ys : List EventPacket)
      → Adds e m xs
      → Adds m n ys
      → Adds e n (xs ++ ys)
  Adds-append e m n xs ys a b = record {
    packets_added =
        b.packets_added
        ∙ rw (a.packets_added) (
            rw (a.emitted_after) (
              append_assoc e.packets (distinct e.emitted xs) (distinct (seen_after e.emitted xs) ys)
              ∙ ap (λ l. e.packets ++ l) (sym (distinct-append e.emitted xs ys))));
    emitted_after =
        b.emitted_after ∙ rw (a.emitted_after) (sym (seen_after-append e.emitted xs ys));
  }

  -- The loop on cursors that hold these lists.
  pub record Emits (fuel : ℕ) (cursors : List DayCursor) (lists : List (List EventPacket))
      (e : Emission) : Type 0 where
    pub emission : Emission
    pub result : emit_day next emit fuel cursors e ≡ (emission, ok tt)
    pub adds : Adds e emission (merge_all lists)

  round-Emits :
      (fuel : ℕ) (cursors peeked : List DayCursor) (lists : List (List EventPacket)) (e : Emission)
      (best : Option (ℕ × EventPacket))
      → best_day_cursor_index next cursors ≡ (peeked, ok (index_of best))
      → Each DayPeeked peeked lists
      → IsHead lists best
      → length (merge_all lists) < suc fuel
      → ((others : List DayCursor) (rest : List (List EventPacket)) (m : Emission)
          → Each DayHolds others rest
          → length (merge_all rest) < fuel
          → Emits fuel others rest m)
      → Emits (suc fuel) cursors lists e
  unfolding emit_day
  round-Emits fuel cursors peeked lists e none chosen holds head enough ih = record {
    emission = e;
    result = rw (chosen, emit_day) (unfold emit_best in refl);
    adds = rw head (record {
      packets_added = unfold distinct in (sym (append-nil e.packets));
      emitted_after = unfold seen_after in refl;
    });
  }
  round-Emits fuel cursors peeked lists e (some (i, p)) chosen holds (packets, at, merge) enough
        ih =
      let (j, (popped, taken, kept)) = pop_day-Holds i peeked lists p packets holds at in
      let (m, once, added) = emit_once-Adds j p e in
      let rest = ih popped (set lists i packets) m kept (omega (arith, ap length merge)) in
      record {
        emission = rest.emission;
        result =
            rw (chosen, emit_day)
              (unfold emit_best emit_popped in (rw taken (rw once (rest.result))));
        adds = rw merge (
            Adds-append e m rest.emission (p ∷ []) (merge_all (set lists i packets)) added
              rest.adds);
      }

  -- For cursors of a day that yield these lists and a receiver that takes every packet, the loop
  -- emits the packets of the stable merge of the lists, in its order and without those whose
  -- identifier was emitted before, and ends without an error, if the fuel exceeds the number of packets.
  pub emit_day-Emits :
      (fuel : ℕ) (cursors : List DayCursor) (lists : List (List EventPacket)) (e : Emission)
      → Each DayHolds cursors lists
      → length (merge_all lists) < fuel
      → Emits fuel cursors lists e
  emit_day-Emits zero cursors lists e h enough = absurd (omega arith)
  emit_day-Emits (suc fuel) cursors lists e h enough =
      let (peeked, chosen, holds) =
        best_from-choose (λ (c : DayCursor). with_index c.0 (peek next c.1)) DayHolds DayPeeked
          peek-DayHolds 0 none cursors lists h in
      round-Emits fuel cursors peeked lists e (choose 0 none lists)
        (unfold best_day_cursor_index in chosen) holds (choose-IsHead lists) enough
        (λ others rest m k small. emit_day-Emits fuel others rest m k small)
