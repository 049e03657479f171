-- ===== src/Visibility/Index.antt =====
-- `VisibilityIndex` of storage/visibility.rs: the same maps, joined from summaries, and the test
-- by which a query hides superseded and deleted events.
use searchnos_db.Prelude.{
  ℕ, Bytes, Bool, true, false, ltb, ◌==◌, if◌then◌else◌, Option, none, some, List, [], ◌∷◌, Result,
  ok, ◌>>=◌, ◌=?◌, not, contains, bytes_eq,
}
use searchnos_db.Prelude.Dict.{Dict, lookup, upsert, merge_entries}
use searchnos_db.Note.{Ndb}
use searchnos_db.Event.{EventPacket}
use searchnos_db.Visibility.Address.{ReplaceableKey, key_eq}
use searchnos_db.Visibility.Summary.{
  Winner, VisibilitySummary, better, later, insert_pubkey, replaceable_key, summary_from_packets,
  deletion_kind,
}

-- `struct VisibilityIndex`
pub record VisibilityIndex : Type 0 where
  pub replaceable_winners : Dict ReplaceableKey Winner
  pub deleted_ids : Dict Bytes (List Bytes)
  pub deleted_addresses : Dict ReplaceableKey ℕ

abbrev pub empty_index : VisibilityIndex
empty_index = record { replaceable_winners = []; deleted_ids = []; deleted_addresses = [] }

-- `BTreeSet::extend`
unfoldable pub extend_pubkeys : List Bytes → List Bytes → List Bytes
extend_pubkeys [] set = set
extend_pubkeys (pubkey ∷ pubkeys) set = extend_pubkeys pubkeys (insert_pubkey pubkey set)

-- `for (id, pubkeys) in deleted_ids { map.entry(id).or_default().extend(pubkeys) }`
unfoldable pub merge_deleted_ids :
    Dict Bytes (List Bytes) → Dict Bytes (List Bytes) → Dict Bytes (List Bytes)
merge_deleted_ids m [] = m
merge_deleted_ids m ((id, pubkeys) ∷ entries) =
    merge_deleted_ids (upsert id (extend_pubkeys pubkeys) (extend_pubkeys pubkeys []) m) entries

-- `merge`
unfoldable pub merge : VisibilityIndex → VisibilitySummary → VisibilityIndex
merge index summary = record {
  replaceable_winners = merge_entries better index.replaceable_winners summary.replaceable_winners;
  deleted_ids = merge_deleted_ids index.deleted_ids summary.deleted_ids;
  deleted_addresses = merge_entries later index.deleted_addresses summary.deleted_addresses;
}

-- `is_some_and(|pubkeys| pubkeys.contains(pubkey))`
abbrev pub held : Option (List Bytes) → Bytes → Bool
held none pubkey = false
held (some pubkeys) pubkey = contains pubkeys pubkey

-- `deleted_ids.get(&id)` and the test of the author.
unfoldable pub is_deleted_by : Dict Bytes (List Bytes) → Bytes → Bytes → Bool
is_deleted_by deleted_ids id pubkey = held (lookup id deleted_ids) pubkey

-- `is_none_or(|deleted_at| created_at > *deleted_at)`
abbrev pub is_after : Option ℕ → ℕ → Bool
is_after none created_at = true
is_after (some deleted_at) created_at = ltb deleted_at created_at

-- `is_some_and(|winner| winner.id != id)`
abbrev pub is_other : Option Winner → Bytes → Bool
is_other none id = false
is_other (some winner) id = not (winner.id =? id)

module _ (ndb : Ndb) where
  -- `VisibilityIndex::from_packets`
  unfoldable pub from_packets : List EventPacket → Result VisibilityIndex
  from_packets packets = do
    summary ← summary_from_packets ndb packets
    ok (merge empty_index summary)

  -- `replaceable_winners.get(&key).is_some_and(|winner| winner.id != packet.id)`
  unfoldable pub is_superseded : VisibilityIndex → EventPacket → Bool
  is_superseded index packet = elim (replaceable_key ndb packet) [
    | none ↦ false
    | some key ↦ is_other (lookup key index.replaceable_winners) packet.id
  ]

  -- `deleted_addresses.get(&key).is_none_or(|deleted_at| packet.created_at > *deleted_at)`
  unfoldable pub is_after_deletion : VisibilityIndex → EventPacket → Bool
  is_after_deletion index packet = elim (replaceable_key ndb packet) [
    | none ↦ true
    | some key ↦ is_after (lookup key index.deleted_addresses) packet.created_at
  ]

  -- `VisibilityIndex::is_visible`, whose `Err` is never built.
  unfoldable pub is_visible : VisibilityIndex → EventPacket → Bool
  unfolding is_superseded is_after_deletion is_deleted_by
  is_visible index packet =
      if packet.kind == deletion_kind
      then true
      else if is_superseded index packet
      then false
      else if is_deleted_by index.deleted_ids packet.id packet.pubkey
      then false
      else is_after_deletion index packet
