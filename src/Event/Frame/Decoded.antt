-- ===== src/Event/Frame/Decoded.antt =====
-- What is read from a file is what its payload decodes to.
use searchnos_db.Prelude.{
  ℕ, zero, suc, Bytes, none, some, List, [], ◌∷◌, Result, ok, err, ◌≡◌, refl, sym, ◌∙◌, ap,
  >>=-eq-ok, Result-cases, inl, inr, length, subst,
}
use searchnos_db.Note.{Ndb}
use searchnos_db.Event.Packet.{EventPacket, from_data, packet_of}
use searchnos_db.Event.Frame.{
  read_exact, read_payload, read_event_packet, read_packets, read_event_packets, push_packet,
}
use searchnos_db.Event.Frame.RoundTrip.{AreDecoded}

pub push_packet-eq-ok :
    (p : EventPacket) (r : Result (List EventPacket)) (packets : List EventPacket)
    → push_packet p r ≡ ok packets
    → (others : List EventPacket) × (r ≡ ok others) × (p ∷ others ≡ packets)
push_packet-eq-ok p (ok others) packets h = (others, refl, cc)
push_packet-eq-ok p (err e) packets h = cc

module _ (ndb : Ndb) where
  from_data_again :
      (payload : Bytes) (p : EventPacket)
      → from_data ndb payload ≡ ok p
      → from_data ndb p.payload ≡ ok p
  unfolding from_data
  from_data_again payload p h =
      let (note, e, done) = >>=-eq-ok (ndb.from_bytes payload) _ h in
      let same : packet_of note payload ≡ p = cc in
      subst (λ (q : EventPacket). from_data ndb q.payload ≡ ok q) same (h ∙ ap ok (sym same))

  read_payload-decoded :
      (len : ℕ) (bytes rest : Bytes) (p : EventPacket)
      → read_payload ndb len bytes ≡ ok (some (p, rest))
      → from_data ndb p.payload ≡ ok p
  unfolding read_payload
  read_payload-decoded len bytes rest p h =
      let (parts, e, h') = >>=-eq-ok (read_exact len bytes) _ h in
      let (q, f, done) = >>=-eq-ok (from_data ndb parts.0) _ h' in
      let same : q ≡ p = cc in rw same at (from_data_again parts.0 q f)

  read_event_packet-decoded :
      (bytes rest : Bytes) (p : EventPacket)
      → read_event_packet ndb bytes ≡ ok (some (p, rest))
      → from_data ndb p.payload ≡ ok p
  unfolding read_event_packet
  read_event_packet-decoded bytes rest p h = elim (Result-cases (read_exact 4 bytes)) [
    | inl (parts, e) ↦ read_payload-decoded _ parts.1 rest p (rw (e, read_event_packet) at h)
    | inr (er, e) ↦ cc (rw (e, read_event_packet) at h)
  ]

  read_packets-decoded :
      (fuel : ℕ) (bytes : Bytes) (packets : List EventPacket)
      → read_packets ndb fuel bytes ≡ ok packets
      → AreDecoded ndb packets
  unfolding read_packets
  read_packets-decoded zero bytes packets h = cc
  read_packets-decoded (suc fuel) bytes packets h =
      elim (Result-cases (read_event_packet ndb bytes)) [
        | inr (er, e) ↦ cc (rw (e, read_packets) at h)
        | inl (none, e) ↦
            let none_left : [] ≡ packets = cc (rw (e, read_packets) at h) in rw (← none_left) tt
        | inl (some (p, rest), e) ↦
            let (others, f, same) =
              push_packet-eq-ok p (read_packets ndb fuel rest) packets
                (rw (e, read_packets) at h) in
            rw (← same)
              (read_event_packet-decoded bytes rest p e, read_packets-decoded fuel rest others f)
      ]

-- Every packet that is read from a file is what its own payload decodes to.
pub read_event_packets-AreDecoded :
    (ndb : Ndb) (file : Bytes) (packets : List EventPacket)
    → read_event_packets ndb file ≡ ok packets
    → AreDecoded ndb packets
unfolding read_event_packets
read_event_packets-AreDecoded ndb file packets h =
    read_packets-decoded ndb (suc (length file)) file packets h
