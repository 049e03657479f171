-- ===== src/Event.antt =====
-- storage/event.rs: packets, their framing in files, and the test of a packet against a filter.
pub mod Packet
pub mod Frame
pub use Packet.{EventPacket, seconds_per_day}
unfoldable pub use Packet.{from_data, unix_day}
