-- ===== src/Cursor/Scanned.antt =====
-- The scan of a partition file (storage/cursor.rs) over the packets that reads of it give.
use searchnos_db.Prelude.{
  ℕ, zero, suc, ◌+◌, ◌≤◌, ◌<◌, Bytes, Bool, true, false, none, some, List, [], ◌∷◌, Result, ok, ◌≡◌,
  refl, sym, ap, ◌∙◌, arith, inl, inr, Bool-cases, Result-cases, get_elem?, drop, length,
  length-drop, All, ltb, subst, >>=-eq-ok,
}
use searchnos_db.Prelude.Words.{from_le_bytes}
use searchnos_db.Note.{Ndb}
use searchnos_db.Event.{EventPacket, from_data}
use searchnos_db.Event.Frame.RoundTrip.{read_event_packet-short}
use searchnos_db.Event.Frame.Decoded.{push_packet-eq-ok}
use searchnos_db.Cursor.Choice.{head_of}
use searchnos_db.Event.Frame.{read_exact, read_payload, read_event_packet, read_packets}
use searchnos_db.Cursor.Merged.{tail_of}
use searchnos_db.Cursor.Sources.{scan}

-- The packets that pass a test.
unfoldable pub kept : (EventPacket → Bool) → List EventPacket → List EventPacket
kept keep [] = []
kept keep (p ∷ packets) = elim (keep p) [ true ↦ p ∷ kept keep packets | false ↦ kept keep packets ]

pub get_elem?-drop :
    (i : ℕ) (packets : List EventPacket) → get_elem? packets i ≡ head_of (drop i packets)
get_elem?-drop zero [] = refl
get_elem?-drop zero (p ∷ packets) = refl
get_elem?-drop (suc i) [] = refl
get_elem?-drop (suc i) (p ∷ packets) = get_elem?-drop i packets

drop-suc : (i : ℕ) (packets : List EventPacket) → drop (suc i) packets ≡ tail_of (drop i packets)
drop-suc zero [] = refl
drop-suc zero (p ∷ packets) = refl
drop-suc (suc i) [] = refl
drop-suc (suc i) (p ∷ packets) = drop-suc i packets

pub drop_next :
    (i : ℕ) (packets : List EventPacket) → drop (i + 1) packets ≡ tail_of (drop i packets)
drop_next i packets =
    let e : i + 1 ≡ suc i = omega arith in ap (λ n. drop n packets) e ∙ drop-suc i packets

module _ (ndb : Ndb) where
  -- The packets that reads one after the other give.
  abbrev pub Reads : Bytes → List EventPacket → Type 0
  Reads file [] = read_event_packet ndb file ≡ ok none
  Reads file (p ∷ packets) =
      (rest : Bytes) × (read_event_packet ndb file ≡ ok (some (p, rest))) × Reads rest packets

  pub read_packets-Reads :
      (fuel : ℕ) (file : Bytes) (packets : List EventPacket)
      → read_packets ndb fuel file ≡ ok packets
      → Reads file packets
  unfolding read_packets
  read_packets-Reads zero file packets h = cc
  read_packets-Reads (suc fuel) file packets h = elim (Result-cases (read_event_packet ndb file)) [
    | inr (e, f) ↦ cc (rw (f, read_packets) at h)
    | inl (none, f) ↦
        let same : [] ≡ packets = cc (rw (f, read_packets) at h) in subst (Reads file) same f
    | inl (some (p, rest), f) ↦
        let (others, g, same) =
          push_packet-eq-ok p (read_packets ndb fuel rest) packets (rw (f, read_packets) at h) in
        subst (Reads file) same (rest, f, read_packets-Reads fuel rest others g)
  ]

  read_exact-shorter :
      (n : ℕ) (file first rest : Bytes)
      → read_exact n file ≡ ok (first, rest)
      → length rest + n ≤ length file
  unfolding read_exact
  read_exact-shorter n file first rest h = elim (Bool-cases (ltb (length file) n)) [
    | inl short ↦ cc (rw short at h)
    | inr enough ↦
        let same : drop n file ≡ rest = cc (rw enough at h) in
        ground (arith, length-drop n file, ap length same)
  ]

  read_event_packet-shorter :
      (file : Bytes) (p : EventPacket) (rest : Bytes)
      → read_event_packet ndb file ≡ ok (some (p, rest))
      → length rest < length file
  unfolding read_event_packet read_payload
  read_event_packet-shorter file p rest h = elim (Result-cases (read_exact 4 file)) [
    | inr (e, f) ↦ cc (rw (f, read_event_packet) at h)
    | inl ((len_bytes, bytes), f) ↦
        let (parts, g, h') =
          >>=-eq-ok (read_exact (from_le_bytes len_bytes) bytes) _
            (rw (f, read_event_packet) at h) in
        let (q, k, done) = >>=-eq-ok (from_data ndb parts.0) _ h' in
        let same : parts.1 ≡ rest = cc in
        omega (
          arith,
          read_exact-shorter 4 file len_bytes bytes f,
          read_exact-shorter (from_le_bytes len_bytes) bytes parts.0 parts.1 g,
          ap length same,
        )
  ]

  pub Reads-short :
      (file : Bytes) (packets : List EventPacket)
      → Reads file packets
      → length packets ≤ length file
  Reads-short file [] h = omega arith
  Reads-short file (p ∷ packets) (rest, e, h) =
      omega (arith, read_event_packet-shorter file p rest e, Reads-short rest packets h)

  module _ (passes : EventPacket → Result Bool) (keep : EventPacket → Bool) where
    abbrev pub Decides : EventPacket → Type 0
    Decides p = passes p ≡ ok (keep p)

    -- A scan for the next packet, at what the file still holds.
    pub record Scans (file : Bytes) (packets : List EventPacket) (fuel : ℕ) : Type 0 where
      pub rest : Bytes
      pub packets_left : List EventPacket
      pub result : scan ndb passes fuel file ≡ (rest, ok (head_of (kept keep packets)))
      pub reads : Reads rest packets_left
      pub decided : All Decides packets_left
      pub kept_left : kept keep packets_left ≡ tail_of (kept keep packets)

    pub scan-Scans :
        (fuel : ℕ) (file : Bytes) (packets : List EventPacket)
        → Reads file packets
        → All Decides packets
        → length packets < fuel
        → Scans file packets fuel
    unfolding scan kept
    scan-Scans zero file packets h d enough = absurd (omega arith)
    scan-Scans (suc fuel) file [] h d enough = record {
      rest = [];
      packets_left = [];
      result = rw (h, scan) refl;
      reads = read_event_packet-short ndb [] (omega arith);
      decided = tt;
      kept_left = refl;
    }
    scan-Scans (suc fuel) file (p ∷ packets) (rest, e, h) d enough = elim (Bool-cases (keep p)) [
      | inl passed ↦
          let here : scan ndb passes (suc fuel) file ≡ (rest, ok (some p)) =
            rw (e, scan) (rw (d.0) (rw passed refl)) in
          let whole : kept keep (p ∷ packets) ≡ p ∷ kept keep packets = rw (passed, kept) refl in
          record {
            rest = rest;
            packets_left = packets;
            result = here ∙ ap (λ l. (rest, ok (head_of l))) (sym whole);
            reads = h;
            decided = d.1;
            kept_left = ap tail_of (sym whole);
          }
      | inr dropped ↦
          let s = scan-Scans fuel rest packets h d.1 (omega arith) in
          let again : scan ndb passes (suc fuel) file ≡ scan ndb passes fuel rest =
            rw (e, scan) (rw (d.0) (rw dropped refl)) in
          let less : kept keep packets ≡ kept keep (p ∷ packets) = rw (dropped, kept) refl in
          record {
            rest = s.rest;
            packets_left = s.packets_left;
            result = again ∙ s.result ∙ ap (λ l. (s.rest, ok (head_of l))) less;
            reads = s.reads;
            decided = s.decided;
            kept_left = s.kept_left ∙ ap tail_of less;
          }
    ]
