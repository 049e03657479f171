-- ===== src/Cursor/Yielded.antt =====
-- What the cursors over lists and files yield (storage/cursor.rs).
use searchnos_db.Prelude.{
  ◌&&◌, ℕ, zero, suc, ◌+◌, Bytes, Bool, true, Option, none, some, List, [], ◌∷◌, Result, ok, ◌≡◌,
  refl, sym, ap, ◌∙◌, arith, inl, inr, Bool-cases, get_elem?, drop, length, All, subst,
}
use searchnos_db.Note.{Ndb}
use searchnos_db.Event.{EventPacket}
use searchnos_db.Cursor.Choice.{head_of}
use searchnos_db.Event.Frame.{read_event_packets}
use searchnos_db.Filter.{Filter, matches_filter_without_search}
use searchnos_db.SearchText.{Unicode, Json}
use searchnos_db.Visibility.Index.{VisibilityIndex, is_visible}
use searchnos_db.Visibility.Store.{Lmdb, VisibilityStore, is_visible_in_txn}
use searchnos_db.Cursor.Merged.{IsSilent, Yields, tail_of}
use searchnos_db.Cursor.Sources.{
  Source, buffered, partition_scan, scan, passes_scan, visible_in_store, packet_is_visible,
  next_packet, move_on,
}
use searchnos_db.Cursor.Scanned.{
  kept, get_elem?-drop, drop_next, Reads, read_packets-Reads, Reads-short, Scans, scan-Scans,
}

module _ (ndb : Ndb) (lmdb : Lmdb) (sha256 : Bytes → Bytes) (unicode : Unicode) (json : Json)
    (Bloom : Type 0) where
  abbrev pub next_of : Source lmdb Bloom → Source lmdb Bloom × Result (Option EventPacket)
  next_of = next_packet ndb lmdb sha256 unicode json

  -- What an index shows of a packet, and what a store does.
  abbrev pub is_shown_by : Option VisibilityIndex → EventPacket → Bool
  is_shown_by none p = true
  is_shown_by (some index) p = is_visible ndb index p

  abbrev pub IsShownIn : Option (VisibilityStore lmdb) → EventPacket → Bool → Type 0
  IsShownIn none p shown = shown ≡ true
  IsShownIn (some store) p shown = is_visible_in_txn lmdb sha256 ndb store p ≡ ok shown

  module _ (filter : Filter) (visibility : Option VisibilityIndex)
      (store : Option (VisibilityStore lmdb)) (matches shown : EventPacket → Bool) where
    -- The filter and the store have these answers and no error.
    abbrev pub IsDecided : EventPacket → Type 0
    IsDecided p =
        (matches_filter_without_search ndb filter p ≡ ok (matches p)) × IsShownIn store p (shown p)

    -- The packet matches the filter, and both the index and the store show it.
    abbrev pub keep : EventPacket → Bool
    keep p = matches p && (is_shown_by visibility p && shown p)

    store-decides :
        (o : Option (VisibilityStore lmdb)) (p : EventPacket) (b : Bool)
        → IsShownIn o p b
        → visible_in_store ndb lmdb sha256 o p ≡ ok b
    store-decides none p b h = ap ok (sym h)
    store-decides (some s) p b h = h

    packet_is_visible-decides :
        (o : Option VisibilityIndex) (p : EventPacket)
        → IsShownIn store p (shown p)
        → packet_is_visible ndb lmdb sha256 o store p ≡ ok (is_shown_by o p && shown p)
    unfolding packet_is_visible
    packet_is_visible-decides none p s = store-decides store p (shown p) s
    packet_is_visible-decides (some index) p s = elim (Bool-cases (is_visible ndb index p)) [
      | inr hidden ↦ rw (hidden, packet_is_visible) refl
      | inl visible ↦ rw (visible, packet_is_visible) (store-decides store p (shown p) s)
    ]

    passes_scan-keep :
        (p : EventPacket)
        → IsDecided p
        → passes_scan ndb lmdb sha256 filter visibility store p ≡ ok (keep p)
    unfolding passes_scan
    passes_scan-keep p (e, s) = rw e (elim (Bool-cases (matches p)) [
      | inr other ↦ rw other refl
      | inl wanted ↦ rw wanted (packet_is_visible-decides visibility p s)
    ])

    abbrev Passes : EventPacket → Type 0
    Passes p = passes_scan ndb lmdb sha256 filter visibility store p ≡ ok (keep p)

    All-Passes : (packets : List EventPacket) → All IsDecided packets → All Passes packets
    All-Passes [] h = tt
    All-Passes (p ∷ packets) h = (passes_scan-keep p h.0, All-Passes packets h.1)

    abbrev pub source_of : Bytes → Source lmdb Bloom
    source_of file = partition_scan file filter visibility store

    scan_of :
        (file : Bytes) (packets : List EventPacket)
        → Reads ndb file packets
        → All Passes packets
        → Scans ndb
            (passes_scan ndb lmdb sha256 filter visibility store)
            keep
            file
            packets
            (suc (length file))
    scan_of file packets h d =
        scan-Scans ndb (passes_scan ndb lmdb sha256 filter visibility store) keep
          (suc (length file)) file packets h d (omega (arith, Reads-short ndb file packets h))

    next_packet-scan :
        (file rest : Bytes) (packet : Option EventPacket)
        → scan ndb (passes_scan ndb lmdb sha256 filter visibility store) (suc (length file)) file
          ≡ (rest, ok packet)
        → next_of (source_of file) ≡ (source_of rest, ok packet)
    unfolding next_packet
    next_packet-scan file rest packet e =
        ap (λ (x : Bytes × Result (Option EventPacket)). (source_of x.0, x.1)) e

    scan-IsSilent :
        (n : ℕ) (file : Bytes) (packets : List EventPacket)
        → Reads ndb file packets
        → All Passes packets
        → kept keep packets ≡ []
        → IsSilent next_of n (source_of file)
    scan-IsSilent zero file packets h d e = tt
    scan-IsSilent (suc n) file packets h d e =
        let s = scan_of file packets h d in
        let f = next_packet-scan file s.rest (head_of (kept keep packets)) s.result in
        (
          ap (λ (x : Source lmdb Bloom × Result (Option EventPacket)). x.1) f
              ∙ ap (λ l. ok (head_of l)) e,
          subst (IsSilent next_of n)
              (sym (ap (λ (x : Source lmdb Bloom × Result (Option EventPacket)). x.0) f))
              (scan-IsSilent n s.rest s.packets_left s.reads s.decided
                (s.kept_left ∙ ap tail_of e)),
        )

    scan-Yields_all :
        (yielded : List EventPacket) (file : Bytes) (packets : List EventPacket)
        → Reads ndb file packets
        → All Passes packets
        → kept keep packets ≡ yielded
        → Yields next_of (source_of file) yielded
    scan-Yields_all [] file packets h d e = λ n. scan-IsSilent n file packets h d e
    scan-Yields_all (p ∷ yielded) file packets h d e =
        let s = scan_of file packets h d in
        let f = next_packet-scan file s.rest (head_of (kept keep packets)) s.result in
        (
          source_of s.rest,
          f ∙ ap (λ l. (source_of s.rest, ok (head_of l))) e,
          scan-Yields_all yielded s.rest s.packets_left s.reads s.decided
              (s.kept_left ∙ ap tail_of e),
        )

    -- The scan of a partition file that can be read yields the packets of the file that match the
    -- filter and that the index of the hot packets and the store show, each where it is given, in
    -- their order, if the filter and the store answer for every packet of the file without an error.
    pub next_packet-Yields_scan :
        (file : Bytes) (packets : List EventPacket)
        → read_event_packets ndb file ≡ ok packets
        → All IsDecided packets
        → Yields next_of (source_of file) (kept keep packets)
    unfolding read_event_packets
    next_packet-Yields_scan file packets h d =
        scan-Yields_all (kept keep packets) file packets
          (read_packets-Reads ndb (suc (length file)) file packets h) (All-Passes packets d) refl

  buffered-IsSilent :
      (n : ℕ) (packets : List EventPacket) (position : ℕ)
      → drop position packets ≡ []
      → IsSilent next_of n (buffered packets position)
  unfolding next_packet
  buffered-IsSilent zero packets position e = tt
  buffered-IsSilent (suc n) packets position e =
      let none_left : get_elem? packets position ≡ none =
        get_elem?-drop position packets ∙ ap head_of e in
      (
        ap ok none_left,
        subst (IsSilent next_of n) (ap (λ o. buffered packets (move_on position o)) (sym none_left))
            (buffered-IsSilent n packets position e),
      )

  buffered-Yields_at :
      (yielded packets : List EventPacket) (position : ℕ)
      → drop position packets ≡ yielded
      → Yields next_of (buffered packets position) yielded
  unfolding next_packet
  buffered-Yields_at [] packets position e = λ n. buffered-IsSilent n packets position e
  buffered-Yields_at (p ∷ yielded) packets position e =
      let first : get_elem? packets position ≡ some p =
        get_elem?-drop position packets ∙ ap head_of e in
      (
        buffered packets (position + 1),
        ap (λ o. (buffered packets (move_on position o), ok o)) first,
        buffered-Yields_at yielded packets (position + 1)
            (drop_next position packets ∙ ap tail_of e),
      )

  -- A list of packets yields them in their order.
  pub buffered-Yields : (packets : List EventPacket) → Yields next_of (buffered packets 0) packets
  buffered-Yields packets = buffered-Yields_at packets packets 0 refl
