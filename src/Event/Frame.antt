-- ===== src/Event/Frame.antt =====
-- The framing of packets in a file, `read_event_packet`, `read_event_packets` and `write_packet`
-- of storage/event.rs: a length of four bytes, little-endian, and the payload. A file that is
-- read from is the list of the bytes that are left.
pub mod RoundTrip
pub mod Decoded
pub mod Read
use searchnos_db.Prelude.{
  ℕ, zero, suc, ◌^◌, Bytes, ltb, if◌then◌else◌, Option, none, some, List, [], ◌∷◌, ◌++◌, Result, ok,
  err, panic, unexpected_eof, length_overflow, ◌>>=◌, ◌>>◌, length, take, drop,
}
use searchnos_db.Prelude.Words.{to_le_bytes, from_le_bytes}
use searchnos_db.Note.{Ndb}
use searchnos_db.Event.Packet.{EventPacket, from_data}

-- `u32::try_from(len)`
unfoldable pub u32_try_from : ℕ → Result ℕ
u32_try_from n = if ltb n (2 ^ 32) then ok n else err length_overflow

-- `write_packet`: the bytes that are appended to the file.
unfoldable pub write_packet : Bytes → Result Bytes
unfolding u32_try_from
write_packet payload = do len ← u32_try_from (length payload); ok (to_le_bytes 4 len ++ payload)

-- `read_exact`
unfoldable pub read_exact : ℕ → Bytes → Result (Bytes × Bytes)
read_exact n bytes =
    if ltb (length bytes) n then err unexpected_eof else ok (take n bytes, drop n bytes)

abbrev pub with_rest : EventPacket → Bytes → Option (EventPacket × Bytes)
with_rest packet rest = some (packet, rest)

-- What a round of the loop does with a packet: `packets.push(packet)`
abbrev pub push_packet : EventPacket → Result (List EventPacket) → Result (List EventPacket)
push_packet packet (ok packets) = ok (packet ∷ packets)
push_packet packet (err e) = err e

module _ (ndb : Ndb) where
  -- The payload behind a length.
  unfoldable pub read_payload : ℕ → Bytes → Result (Option (EventPacket × Bytes))
  read_payload len bytes = do
    (payload, rest) ← read_exact len bytes
    packet ← from_data ndb payload
    ok (with_rest packet rest)

  -- `read_event_packet`: an end of the file within the length counts as the end of the packets.
  unfoldable pub read_event_packet : Bytes → Result (Option (EventPacket × Bytes))
  read_event_packet bytes = elim (read_exact 4 bytes) [
    | ok (len_bytes, rest) ↦ read_payload (from_le_bytes len_bytes) rest
    | err e ↦ ok none
  ]

  -- The loop of `read_event_packets`, on fuel: `RoundTrip` shows that more fuel than there are
  -- bytes is enough.
  unfoldable pub read_packets : ℕ → Bytes → Result (List EventPacket)
  read_packets zero bytes = err panic
  read_packets (suc fuel) bytes = elim (read_event_packet bytes) [
    | err e ↦ err e
    | ok none ↦ ok []
    | ok (some (packet, rest)) ↦ push_packet packet (read_packets fuel rest)
  ]

  unfoldable pub read_event_packets : Bytes → Result (List EventPacket)
  read_event_packets bytes = read_packets (suc (length bytes)) bytes
