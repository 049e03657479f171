-- ===== src/Event/Frame/RoundTrip.antt =====
-- Reading a file gives back the packets that were written to it.
use searchnos_db.Prelude.{
  ℕ, zero, suc, ◌+◌, ◌^◌, ◌<◌, Bytes, ltb, lt→ltb, ltb→lt, none, some, List, [], ◌∷◌, ◌++◌, Result,
  ok, ◌>>=◌, ◌≡◌, refl, ◌∙◌, ap, arith, length, length-append, take-append_at, drop-append_at, All,
  >>=-eq-ok, Bool-cases, inl, inr,
}
use mathlib.Core.List.{append_assoc}
use searchnos_db.Prelude.Words.{to_le_bytes, length-to_le_bytes, from_le_bytes-to_le_bytes}
use searchnos_db.Note.{Ndb}
use searchnos_db.Event.Packet.{EventPacket, from_data}
use searchnos_db.Event.Frame.{
  write_packet, read_exact, read_payload, read_event_packet, read_packets, read_event_packets,
  push_packet,
}

-- The file after writing packets one by one, as compaction and `append_packet` write them.
unfoldable pub write_packets : List EventPacket → Result Bytes
write_packets [] = ok []
write_packets (p ∷ packets) = do
  frame ← write_packet p.payload
  rest ← write_packets packets
  ok (frame ++ rest)

-- Each packet is what its payload decodes to.
abbrev pub AreDecoded : Ndb → List EventPacket → Type 0
AreDecoded ndb = All (λ p. from_data ndb p.payload ≡ ok p)

pub read_exact-append :
    (n : ℕ) (xs ys : Bytes) → length xs ≡ n → read_exact n (xs ++ ys) ≡ ok (xs, ys)
unfolding read_exact
read_exact-append n xs ys h =
    rw (take-append_at n xs ys h)
      (rw (drop-append_at n xs ys h) (ground (arith, length-append xs ys)))

write_packet-eq-ok :
    (payload frame : Bytes)
    → write_packet payload ≡ ok frame
    → (length payload < 2 ^ 32) × (frame ≡ to_le_bytes 4 (length payload) ++ payload)
unfolding write_packet
write_packet-eq-ok payload frame h = elim (Bool-cases (ltb (length payload) (2 ^ 32))) [
  | inl fits ↦ (ltb→lt _ _ fits, cc (rw fits at h))
  | inr long ↦ cc (rw long at h)
]

module _ (ndb : Ndb) where
  read_payload-append :
      (p : EventPacket) (rest : Bytes)
      → from_data ndb p.payload ≡ ok p
      → read_payload ndb (length p.payload) (p.payload ++ rest) ≡ ok (some (p, rest))
  unfolding read_payload
  read_payload-append p rest decoded =
      rw (read_exact-append (length p.payload) p.payload rest refl) (rw decoded)

  read_event_packet-write_packet :
      (p : EventPacket) (frame rest : Bytes)
      → from_data ndb p.payload ≡ ok p
      → write_packet p.payload ≡ ok frame
      → read_event_packet ndb (frame ++ rest) ≡ ok (some (p, rest))
  unfolding read_event_packet
  read_event_packet-write_packet p frame rest decoded written =
      let (fits, e) = write_packet-eq-ok p.payload frame written in
      rw e (
        rw (append_assoc (to_le_bytes 4 (length p.payload)) p.payload rest) (
          rw
            (
              read_exact-append 4 (to_le_bytes 4 (length p.payload)) (p.payload ++ rest)
                  (length-to_le_bytes 4 (length p.payload)),
              read_event_packet,
            )
            (rw (from_le_bytes-to_le_bytes 4 (length p.payload) (omega arith))
              (read_payload-append p rest decoded))))

  pub read_event_packet-short :
      (tail : Bytes) → length tail < 4 → read_event_packet ndb tail ≡ ok none
  unfolding read_event_packet read_exact
  read_event_packet-short tail h = rw (lt→ltb (length tail) 4 h, read_event_packet)

  read_packets-cons :
      (fuel : ℕ) (p : EventPacket) (frame rest tail : Bytes)
      → from_data ndb p.payload ≡ ok p
      → write_packet p.payload ≡ ok frame
      → read_packets ndb (suc fuel) ((frame ++ rest) ++ tail)
        ≡ push_packet p (read_packets ndb fuel (rest ++ tail))
  unfolding read_packets
  read_packets-cons fuel p frame rest tail decoded written =
      rw (append_assoc frame rest tail)
        (rw (read_event_packet-write_packet p frame (rest ++ tail) decoded written, read_packets))

  shorter :
      (p : EventPacket) (frame rest tail : Bytes) (fuel : ℕ)
      → write_packet p.payload ≡ ok frame
      → length ((frame ++ rest) ++ tail) < suc fuel
      → length (rest ++ tail) < fuel
  shorter p frame rest tail fuel written h =
      let size : length frame ≡ 4 + length p.payload =
        rw ((write_packet-eq-ok p.payload frame written).1) (
          length-append (to_le_bytes 4 (length p.payload)) p.payload
          ∙ omega (arith, length-to_le_bytes 4 (length p.payload))) in
      omega
        (arith, length-append {0} frame (rest ++ tail), ap length (append_assoc frame rest tail))

  read_packets-write_packets :
      (fuel : ℕ) (packets : List EventPacket) (file tail : Bytes)
      → AreDecoded ndb packets
      → write_packets packets ≡ ok file
      → length tail < 4
      → length (file ++ tail) < fuel
      → read_packets ndb fuel (file ++ tail) ≡ ok packets
  unfolding read_packets write_packets
  read_packets-write_packets zero packets file tail d w t h = elim h [ ]
  read_packets-write_packets (suc fuel) [] file tail d w t h =
      let e : [] ≡ file = cc in rw (← e) (rw (read_event_packet-short tail t, read_packets))
  read_packets-write_packets (suc fuel) (p ∷ packets) file tail d w t h =
      let (frame, wf, w') = >>=-eq-ok (write_packet p.payload) _ w in
      let (rest, wr, done) = >>=-eq-ok (write_packets packets) _ w' in
      let e : frame ++ rest ≡ file = cc in
      rw (← e) (
        read_packets-cons fuel p frame rest tail d.0 wf
        ∙ ap (push_packet p) (
            read_packets-write_packets fuel packets rest tail d.1 wr t
              (shorter p frame rest tail fuel wf (rw (← e) at h))))

-- A file that holds written packets, and at most three bytes of an interrupted write behind
-- them, reads as these packets.
pub read_event_packets-write_packets :
    (ndb : Ndb) (packets : List EventPacket) (file tail : Bytes)
    → AreDecoded ndb packets
    → write_packets packets ≡ ok file
    → length tail < 4
    → read_event_packets ndb (file ++ tail) ≡ ok packets
unfolding read_event_packets
read_event_packets-write_packets ndb packets file tail d w t =
    read_packets-write_packets ndb (suc (length (file ++ tail))) packets file tail d w t
      (omega arith)
