-- ===== src/Cursor/Merged.antt =====
-- One call of a merged cursor, and what is left behind it (storage/cursor.rs).
use searchnos_db.Prelude.{
  ℕ, zero, suc, ◌+◌, ◌<◌, ◌≤◌, Bytes, true, false, Option, none, some, List, [], ◌∷◌, Result, ok,
  ◌≡◌, refl, sym, ap, ◌∙◌, ◌⊎◌, inl, inr, arith, length, get_elem?, set, contains, bytes_eq,
  Bool-cases,
}
use searchnos_db.Event.{EventPacket}
use searchnos_db.Cursor.{
  PacketCursor, new_cursor, fill, peek, pop, best_cursor_index, index_of, MergedSource, is_below,
  pop_at, next_merged_packet, take_best, emit_popped,
}
use searchnos_db.Cursor.Choice.{
  head_of, Each, Each-get_elem?, Each-set, Each-weaken, best_from-choose,
}
use searchnos_db.Cursor.Heads.{merge_all, IsHead, choose, choose-IsHead}

-- The packets whose identifiers are not in the set, each identifier once.
unfoldable pub distinct : List Bytes → List EventPacket → List EventPacket
distinct seen [] = []
distinct seen (p ∷ packets) = elim (contains seen p.id) [
  | true ↦ distinct seen packets
  | false ↦ p ∷ distinct (p.id ∷ seen) packets
]

-- At most as many packets as are left of the limit.
unfoldable pub limited : Option ℕ → ℕ → List EventPacket → List EventPacket
limited limit emitted [] = []
limited limit emitted (p ∷ packets) = elim (is_below limit emitted) [
  | true ↦ p ∷ limited limit (emitted + 1) packets
  | false ↦ []
]

limited_reached :
    (limit : Option ℕ) (emitted : ℕ) (packets : List EventPacket)
    → is_below limit emitted ≡ false
    → limited limit emitted packets ≡ []
unfolding limited
limited_reached limit emitted [] h = refl
limited_reached limit emitted (p ∷ packets) h = rw (h, limited) refl

abbrev pub tail_of : List EventPacket → List EventPacket
tail_of [] = []
tail_of (p ∷ packets) = packets

module _ {S : Type 0} (next : S → S × Result (Option EventPacket)) where
  -- The next calls all find no packet.
  abbrev pub IsSilent : ℕ → S → Type 0
  IsSilent zero s = Unit
  IsSilent (suc n) s = ((next s).1 ≡ ok none) × IsSilent n (next s).0

  -- A source yields these packets and then none, however often it is asked again.
  abbrev pub Yields : S → List EventPacket → Type 0
  Yields s [] = (n : ℕ) → IsSilent n s
  Yields s (p ∷ packets) = (t : S) × (next s ≡ (t, ok (some p))) × Yields t packets

  -- A cursor after a peek.
  abbrev pub IsPeeked : PacketCursor S → List EventPacket → Type 0
  IsPeeked c [] = (c.pending ≡ none) × Yields c.source []
  IsPeeked c (p ∷ packets) = (c.pending ≡ some p) × Yields c.source packets

  abbrev pub Holds : PacketCursor S → List EventPacket → Type 0
  Holds c packets = IsPeeked c packets ⊎ ((c.pending ≡ none) × Yields c.source packets)

  -- A peek returns the first packet and keeps the cursor's packets.
  pub peek-Holds :
      (c : PacketCursor S) (packets : List EventPacket)
      → Holds c packets
      → (d : PacketCursor S) × (peek next c ≡ (d, ok (head_of packets))) × IsPeeked d packets
  unfolding peek
  peek-Holds c [] (inl (e, y)) = (
    new_cursor (next c.source).0,
    rw (e, peek)
        (ap (λ (r : Result (Option EventPacket)). fill next ((next c.source).0, r)) (y 1).0),
    (refl, (λ n. (y (suc n)).1)),
  )
  peek-Holds c [] (inr (e, y)) = (
    new_cursor (next c.source).0,
    rw (e, peek)
        (ap (λ (r : Result (Option EventPacket)). fill next ((next c.source).0, r)) (y 1).0),
    (refl, (λ n. (y (suc n)).1)),
  )
  peek-Holds c (p ∷ packets) (inl (e, y)) = (
    record { source = c.source; pending = some p },
    rw (e, peek)
        (ap (λ (o : Option EventPacket). (record { source = c.source; pending = o }, ok (some p)))
          e),
    (refl, y),
  )
  peek-Holds c (p ∷ packets) (inr (e, (t, f, y))) =
      (record { source = t; pending = some p }, rw (e, peek) (rw f refl), (refl, y))

  abbrev pub Peeked : List (PacketCursor S) → List (List EventPacket) → Type 0
  Peeked = Each IsPeeked

  -- The selected cursor gives the head of its list and keeps the rest.
  pop_at-Holds :
      (i : ℕ) (cursors : List (PacketCursor S)) (lists : List (List EventPacket)) (p : EventPacket)
      (packets : List EventPacket)
      → Each IsPeeked cursors lists
      → get_elem? lists i ≡ some (p ∷ packets)
      → (popped : List (PacketCursor S)) × (pop_at next i cursors ≡ (popped, ok (some p)))
        × Each Holds popped (set lists i packets)
  unfolding pop_at pop
  pop_at-Holds i cursors lists p packets h e =
      let (c, f, peeked) = Each-get_elem? IsPeeked i cursors lists h e in
      (
        set cursors i (new_cursor c.source),
        rw (f, pop_at) (rw (peeked.0, pop) refl),
        Each-set Holds i cursors lists (new_cursor c.source) packets
            (Each-weaken IsPeeked Holds (λ d l k. inl k) cursors lists h) (inr (refl, peeked.1)),
      )

  -- What is left to a merged source.
  abbrev pub left : MergedSource S → List (List EventPacket) → List EventPacket
  left m lists = limited m.limit m.emitted (distinct m.seen (merge_all lists))

  -- A call of `next_merged_packet`: the first packet of what is left, and the rest stays left.
  pub record Advances (fuel : ℕ) (m : MergedSource S) (lists : List (List EventPacket))
      : Type 0 where
    pub source : MergedSource S
    pub lists_left : List (List EventPacket)
    pub result : next_merged_packet next fuel m ≡ (source, ok (head_of (left m lists)))
    pub holds : Each Holds source.cursors lists_left
    pub rest : left source lists_left ≡ tail_of (left m lists)
    pub shorter : length (merge_all lists_left) ≤ length (merge_all lists)

  module _ (fuel : ℕ) (m : MergedSource S) (peeked : List (PacketCursor S)) (best : Option ℕ)
      (below : is_below m.limit m.emitted ≡ true)
      (chosen : best_cursor_index next m.cursors ≡ (peeked, ok best)) where
    round_exhausted :
        best ≡ none
        → next_merged_packet next (suc fuel) m ≡ (record m { cursors = peeked }, ok none)
    unfolding next_merged_packet take_best emit_popped
    round_exhausted e = rw (below, next_merged_packet) (rw chosen (rw (e, take_best) refl))

    module _ (i : ℕ) (popped : List (PacketCursor S)) (p : EventPacket) (e : best ≡ some i)
        (taken : pop_at next i peeked ≡ (popped, ok (some p))) where
      round_seen :
          contains m.seen p.id ≡ true
          → next_merged_packet next (suc fuel) m
            ≡ next_merged_packet next fuel (record m { cursors = popped })
      unfolding next_merged_packet take_best emit_popped
      round_seen seen =
          rw (below, next_merged_packet)
            (rw chosen (rw (e, take_best) (rw taken (rw (seen, emit_popped) refl))))

      round_new :
          contains m.seen p.id ≡ false
          → next_merged_packet next (suc fuel) m ≡ (
            record m { cursors = popped; seen = p.id ∷ m.seen; emitted = m.emitted + 1 },
            ok (some p),
          )
      unfolding next_merged_packet take_best emit_popped
      round_new new =
          rw (below, next_merged_packet)
            (rw chosen (rw (e, take_best) (rw taken (rw (new, emit_popped) refl))))

  peeked-Holds :
      (cursors : List (PacketCursor S)) (lists : List (List EventPacket))
      → Each IsPeeked cursors lists
      → Each Holds cursors lists
  peeked-Holds = Each-weaken IsPeeked Holds (λ d l k. inl k)

  left_seen :
      (m : MergedSource S) (lists others : List (List EventPacket)) (p : EventPacket)
      → merge_all lists ≡ p ∷ merge_all others
      → contains m.seen p.id ≡ true
      → left m lists ≡ left m others
  unfolding distinct
  left_seen m lists others p e seen = rw e (rw (seen, distinct) refl)

  left_new :
      (m : MergedSource S) (lists others : List (List EventPacket)) (p : EventPacket)
      → merge_all lists ≡ p ∷ merge_all others
      → contains m.seen p.id ≡ false
      → is_below m.limit m.emitted ≡ true
      → left m lists
        ≡ p ∷ limited m.limit (m.emitted + 1) (distinct (p.id ∷ m.seen) (merge_all others))
  unfolding distinct limited
  left_new m lists others p e new below = rw e (rw (new, distinct) (rw (below, limited) refl))

  -- One round, by the choice that it makes.
  module _ (fuel : ℕ) (m : MergedSource S) (lists : List (List EventPacket))
      (peeked : List (PacketCursor S)) (below : is_below m.limit m.emitted ≡ true)
      (holds : Each IsPeeked peeked lists) where
    round-Advances :
        (best : Option (ℕ × EventPacket))
        → best_cursor_index next m.cursors ≡ (peeked, ok (index_of best))
        → IsHead lists best
        → length (merge_all lists) < suc fuel
        → ((n : MergedSource S) (others : List (List EventPacket))
            → Each Holds n.cursors others
            → length (merge_all others) < fuel
            → Advances fuel n others)
        → Advances (suc fuel) m lists
    unfolding distinct limited
    round-Advances none chosen head enough ih = record {
      source = record m { cursors = peeked };
      lists_left = lists;
      result = rw head (round_exhausted fuel m peeked none below chosen refl);
      holds = peeked-Holds peeked lists holds;
      rest = rw head refl;
      shorter = omega arith;
    }
    round-Advances (some (i, p)) chosen (packets, e, merge) enough ih =
        let others = set lists i packets in
        let (popped, taken, kept) = pop_at-Holds i peeked lists p packets holds e in
        elim (Bool-cases (contains m.seen p.id)) [
          | inl seen ↦
              let skip = left_seen m lists others p merge seen in
              let a =
                ih (record m { cursors = popped }) others kept (omega (arith, ap length merge)) in
              record {
                source = a.source;
                lists_left = a.lists_left;
                result =
                    round_seen fuel m peeked (some i) below chosen i popped p refl taken seen
                    ∙ a.result
                    ∙ ap (λ l. (a.source, ok (head_of l))) (sym skip);
                holds = a.holds;
                rest = a.rest ∙ ap tail_of (sym skip);
                shorter = omega (arith, ap length merge, a.shorter);
              }
          | inr new ↦
              let yield = left_new m lists others p merge new below in
              record {
                source = record m {
                  cursors = popped;
                  seen = p.id ∷ m.seen;
                  emitted = m.emitted + 1;
                };
                lists_left = others;
                result =
                    round_new fuel m peeked (some i) below chosen i popped p refl taken new
                    ∙ rw yield refl;
                holds = kept;
                rest = rw yield refl;
                shorter = omega (arith, ap length merge);
              }
        ]

  pub next_merged_packet-Advances :
      (fuel : ℕ) (m : MergedSource S) (lists : List (List EventPacket))
      → Each Holds m.cursors lists
      → length (merge_all lists) < fuel
      → Advances fuel m lists
  unfolding next_merged_packet
  next_merged_packet-Advances zero m lists h enough = absurd (omega arith)
  next_merged_packet-Advances (suc fuel) m lists h enough =
      elim (Bool-cases (is_below m.limit m.emitted)) [
        | inr reached ↦
            let nothing : left m lists ≡ [] =
              limited_reached m.limit m.emitted (distinct m.seen (merge_all lists)) reached in
            record {
              source = m;
              lists_left = lists;
              result = rw nothing (rw (reached, next_merged_packet) refl);
              holds = h;
              rest = rw nothing refl;
              shorter = omega arith;
            }
        | inl below ↦
            let (peeked, chosen, holds) =
              best_from-choose (peek next) Holds IsPeeked peek-Holds 0 none m.cursors lists h in
            round-Advances fuel m lists peeked below holds (choose 0 none lists)
              (unfold best_cursor_index in chosen) (choose-IsHead lists) enough
              (next_merged_packet-Advances fuel)
      ]
