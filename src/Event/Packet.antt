-- ===== src/Event/Packet.antt =====
-- storage/event.rs: `EventPacket`, the part of a note that the storage layer keeps decoded.
use searchnos_db.Prelude.{ℕ, ◌/◌, ◌*◌, Bytes, Result, ok, ◌>>=◌}
use searchnos_db.Note.{Ndb, Note}

-- `payload` is the field `data`, a reserved word here.
pub record EventPacket : Type 0 where
  pub created_at : ℕ
  pub id : Bytes
  pub pubkey : Bytes
  pub kind : ℕ
  pub payload : Bytes

abbrev pub seconds_per_day : ℕ
seconds_per_day = 24 * 60 * 60

abbrev pub packet_of : Note → Bytes → EventPacket
packet_of note payload = record {
  created_at = note.created_at;
  id = note.id;
  pubkey = note.pubkey;
  kind = note.kind;
  payload = payload;
}

-- `EventPacket::from_data`
unfoldable pub from_data : Ndb → Bytes → Result EventPacket
from_data ndb payload = do note ← ndb.from_bytes payload; ok (packet_of note payload)

-- `unix_day`
unfoldable pub unix_day : EventPacket → ℕ
unix_day p = p.created_at / seconds_per_day
