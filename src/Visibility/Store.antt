-- ===== src/Visibility/Store.antt =====
-- `VisibilityStore` of storage/visibility.rs: what supersedes and deletes what, kept in three
-- databases of LMDB that all compactions write to. LMDB and SHA-256 are not part of the
-- repository; they are the parameters `Lmdb` and `sha256`. A transaction that fails leaves the
-- databases as they are. `to_ne_bytes` is that of a little-endian machine. Errors of reading,
-- other than a missing key, are not modelled.
pub mod Range
pub mod Keys
pub mod Replaced
pub mod Deleted
pub mod Agrees
pub mod Valid
pub mod Batches
pub mod Shown
use searchnos_db.Prelude.{
  ℕ, Bytes, Bool, true, false, ◌&&◌, not, leb, ◌==◌, if◌then◌else◌, Option, none, some, List, [],
  ◌∷◌, ◌++◌, Result, ok, err, ◌>>=◌, ◌>>◌, invalid_replace_value, invalid_replace_deletion_key,
  fold_result, ◌=?◌, bytes_eq, length, take, drop, is_lt, is_gt,
}
use searchnos_db.Prelude.Dict.{Dict}
use searchnos_db.Prelude.Words.{to_le_bytes, from_le_bytes}
use searchnos_db.Text.Decimal.{to_decimal}
use searchnos_db.Note.{Ndb}
use searchnos_db.Event.{EventPacket}
use searchnos_db.Visibility.Hex.{hex_32}
use searchnos_db.Visibility.Address.{ReplaceableKey}
use searchnos_db.Visibility.Summary.{
  Winner, VisibilitySummary, compare_winner, packet_winner, replaceable_key, deletion_kind,
  or_empty,
}

-- A database of LMDB: `get`, `put`, and the keys that a cursor visits from `MDB_SET_RANGE` on by
-- `MDB_NEXT`.
pub record Lmdb : Type 1 where
  pub Database : Type 0
  pub get : Database → Bytes → Option Bytes
  pub put : Database → Bytes → Bytes → Result Database
  pub keys_from : Database → Bytes → List Bytes

-- `struct VisibilityStore`
pub record VisibilityStore (lmdb : Lmdb) : Type 0 where
  pub event_replace : lmdb.Database
  pub event_deletion : lmdb.Database
  pub event_replace_deletion : lmdb.Database

-- `strfry_replace_key`
unfoldable pub strfry_replace_key : ReplaceableKey → Bytes
strfry_replace_key key = key.pubkey ++ (or_empty key.d ++ to_le_bytes 8 key.kind)

-- `strfry_deletion_key`
abbrev pub strfry_deletion_key : Bytes → Bytes → Bytes
strfry_deletion_key id pubkey = id ++ pubkey

-- `winner_value`
abbrev pub winner_value : Winner → Bytes
winner_value winner = winner.id ++ to_le_bytes 8 winner.created_at

-- `parse_winner_value`
unfoldable pub parse_winner_value : Bytes → Result Winner
parse_winner_value bytes =
    if length bytes == 40
    then ok (record { id = take 32 bytes; created_at = from_le_bytes (drop 32 bytes) })
    else err invalid_replace_value

-- `parse_strfry_replace_deletion_key`
unfoldable pub parse_strfry_replace_deletion_key : Bytes → Result (Bytes × ℕ)
parse_strfry_replace_deletion_key bytes =
    if length bytes == 40
    then ok (take 32 bytes, from_le_bytes (drop 32 bytes))
    else err invalid_replace_deletion_key

-- `starts_with`
unfoldable pub starts_with : Bytes → Bytes → Bool
starts_with [] bytes = true
starts_with (p ∷ prefix) [] = false
starts_with (p ∷ prefix) (b ∷ bytes) = p == b && starts_with prefix bytes

-- The loop of `is_visible_in_txn` over the deletions of an address: whether one of them is at or
-- after the time of the packet.
unfoldable pub is_deleted_in : Bytes → ℕ → List Bytes → Result Bool
is_deleted_in address_hash created_at [] = ok false
is_deleted_in address_hash created_at (stored_key ∷ keys) =
    let rest = is_deleted_in address_hash created_at keys in
    if starts_with address_hash stored_key
    then (do
      parsed ← parse_strfry_replace_deletion_key stored_key
      if parsed.0 =? address_hash && leb created_at parsed.1 then ok true else rest)
    else ok false

abbrev pub is_missing : Option Bytes → Bool
is_missing none = true
is_missing (some value) = false

-- `strfry_address_hash`
unfoldable pub strfry_address_hash : (Bytes → Bytes) → ReplaceableKey → Bytes
strfry_address_hash sha256 key =
    sha256 (to_decimal key.kind ++ b':' ∷ (hex_32 key.pubkey ++ b':' ∷ or_empty key.d))

-- `strfry_replace_deletion_key`
unfoldable pub strfry_replace_deletion_key : (Bytes → Bytes) → ReplaceableKey → ℕ → Bytes
strfry_replace_deletion_key sha256 key created_at =
    strfry_address_hash sha256 key ++ to_le_bytes 8 created_at

-- `should_write`
abbrev pub should_write : Winner → Option Bytes → Result Bool
should_write winner none = ok true
should_write winner (some value) = do
  stored ← parse_winner_value value
  ok (is_lt (compare_winner winner stored))

-- `compare_winner(packet_winner, stored_winner).is_gt()`
abbrev pub is_beaten : EventPacket → Option Bytes → Result Bool
is_beaten packet none = ok false
is_beaten packet (some value) = do
  stored ← parse_winner_value value
  ok (is_gt (compare_winner (packet_winner packet) stored))

module _ (lmdb : Lmdb) (sha256 : Bytes → Bytes) where
  -- The three loops of `merge_summary`, one round of each.
  unfoldable pub write_winner : lmdb.Database → ReplaceableKey × Winner → Result lmdb.Database
  write_winner db (key, winner) = do
    write ← should_write winner (lmdb.get db (strfry_replace_key key))
    if write then lmdb.put db (strfry_replace_key key) (winner_value winner) else ok db

  unfoldable pub write_deletion : Bytes → lmdb.Database → Bytes → Result lmdb.Database
  write_deletion id db pubkey = lmdb.put db (strfry_deletion_key id pubkey) []

  unfoldable pub write_deletions : lmdb.Database → Bytes × List Bytes → Result lmdb.Database
  write_deletions db (id, pubkeys) = fold_result (write_deletion id) db pubkeys

  unfoldable pub write_address : lmdb.Database → ReplaceableKey × ℕ → Result lmdb.Database
  write_address db (key, created_at) =
      lmdb.put db (strfry_replace_deletion_key sha256 key created_at) []

  -- `merge_summary`
  unfoldable pub merge_summary :
      VisibilityStore lmdb → VisibilitySummary → Result (VisibilityStore lmdb)
  merge_summary store summary = do
    replaced ← fold_result write_winner store.event_replace summary.replaceable_winners
    deleted ← fold_result write_deletions store.event_deletion summary.deleted_ids
    addresses ← fold_result write_address store.event_replace_deletion summary.deleted_addresses
    ok (record {
      event_replace = replaced;
      event_deletion = deleted;
      event_replace_deletion = addresses;
    })

  -- `is_not_deleted_by_id`
  unfoldable pub is_not_deleted_by_id : VisibilityStore lmdb → EventPacket → Bool
  is_not_deleted_by_id store packet =
      is_missing (lmdb.get store.event_deletion (strfry_deletion_key packet.id packet.pubkey))

  -- What `is_visible_in_txn` does for the address of the packet, if it has one.
  unfoldable pub is_visible_at :
      VisibilityStore lmdb → EventPacket → Option ReplaceableKey → Result Bool
  is_visible_at store packet none = ok (is_not_deleted_by_id store packet)
  is_visible_at store packet (some key) = do
    beaten ← is_beaten packet (lmdb.get store.event_replace (strfry_replace_key key))
    elim beaten [
      | true ↦ ok false
      | false ↦ do
        deleted ←
            is_deleted_in (strfry_address_hash sha256 key) packet.created_at
              (lmdb.keys_from store.event_replace_deletion (strfry_address_hash sha256 key))
        ok (not deleted && is_not_deleted_by_id store packet)
    ]

  module _ (ndb : Ndb) where
    -- `is_visible_in_txn`
    unfoldable pub is_visible_in_txn : VisibilityStore lmdb → EventPacket → Result Bool
    is_visible_in_txn store packet =
        if packet.kind == deletion_kind
        then ok true
        else is_visible_at store packet (replaceable_key ndb packet)

    -- `VisibilityStore::retain_visible`
    unfoldable pub retain_visible :
        VisibilityStore lmdb → List EventPacket → Result (List EventPacket)
    retain_visible store [] = ok []
    retain_visible store (packet ∷ packets) = do
      visible ← is_visible_in_txn store packet
      rest ← retain_visible store packets
      ok (if visible then packet ∷ rest else rest)
