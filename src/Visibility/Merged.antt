-- ===== src/Visibility/Merged.antt =====
-- What an index built from packets answers, before the address and the author are looked at.
use searchnos_db.Prelude.{
  Bytes, Option, none, some, List, [], ◌∷◌, ok, ◌≡◌, refl, ◌∙◌, arith, ◌=?◌, =?_iff, ◌&&◌, ◌||◌,
  any, contains, bytes_eq, inl, inr, Bool-cases, >>=-eq-ok,
}
use searchnos_db.Prelude.Dict.{Dict, lookup, upsert, lookup-upsert, updated, lookup-merge_entries}
use searchnos_db.Note.{Ndb}
use searchnos_db.Event.{EventPacket}
use searchnos_db.Visibility.Address.{ReplaceableKey, key_eq}
use searchnos_db.Visibility.Summary.{better, later, insert_pubkey, summary_from_packets}
use searchnos_db.Visibility.Index.{
  VisibilityIndex, empty_index, extend_pubkeys, merge_deleted_ids, merge, held, is_deleted_by,
  from_packets,
}
use searchnos_db.Visibility.Pairwise.{deletes_id}
use searchnos_db.Visibility.Order.{better_assoc, better_comm}
use searchnos_db.Visibility.Gather.{winner_in, winners-summary_from_packets}
use searchnos_db.Visibility.DeletedIds.{marked, contains-insert_pubkey, marked-summary_from_packets}
use searchnos_db.Visibility.DeletedAddresses.{
  later_assoc, later_comm, deadline_in, recorded-summary_from_packets,
}

contains-extend_pubkeys :
    (pubkeys set : List Bytes) (pubkey : Bytes)
    → contains (extend_pubkeys pubkeys set) pubkey
      ≡ (contains pubkeys pubkey || contains set pubkey)
unfolding extend_pubkeys
contains-extend_pubkeys [] set pubkey = refl
contains-extend_pubkeys (q ∷ pubkeys) set pubkey =
    rw (contains-extend_pubkeys pubkeys (insert_pubkey q set) pubkey)
      (rw (contains-insert_pubkey q pubkey set) (ground arith))

held-updated :
    (pubkeys : List Bytes) (o : Option (List Bytes)) (pubkey : Bytes)
    → held (some (updated (extend_pubkeys pubkeys) (extend_pubkeys pubkeys []) o)) pubkey
      ≡ (held o pubkey || contains pubkeys pubkey)
held-updated pubkeys none pubkey = rw (contains-extend_pubkeys pubkeys [] pubkey) (ground arith)
held-updated pubkeys (some set) pubkey =
    rw (contains-extend_pubkeys pubkeys set pubkey) (ground arith)

is_deleted_by-upsert :
    (j : Bytes) (pubkeys : List Bytes) (m : Dict Bytes (List Bytes)) (id pubkey : Bytes)
    → is_deleted_by (upsert j (extend_pubkeys pubkeys) (extend_pubkeys pubkeys []) m) id pubkey
      ≡ (is_deleted_by m id pubkey || j =? id && contains pubkeys pubkey)
unfolding is_deleted_by
is_deleted_by-upsert j pubkeys m id pubkey =
    rw (lookup-upsert j id (extend_pubkeys pubkeys) (extend_pubkeys pubkeys []) m, is_deleted_by)
      (elim (Bool-cases (j =? id)) [
        | inl same ↦ rw same (rw ((=?_iff j id).0 same) (held-updated pubkeys (lookup id m) pubkey))
        | inr other ↦ rw other (ground arith)
      ])

is_deleted_by-merge_deleted_ids :
    (m entries : Dict Bytes (List Bytes)) (id pubkey : Bytes)
    → is_deleted_by (merge_deleted_ids m entries) id pubkey
      ≡ (is_deleted_by m id pubkey || marked id pubkey entries)
unfolding merge_deleted_ids
is_deleted_by-merge_deleted_ids m [] id pubkey = ground arith
is_deleted_by-merge_deleted_ids m ((j, pubkeys) ∷ entries) id pubkey =
    let grown = upsert j (extend_pubkeys pubkeys) (extend_pubkeys pubkeys []) m in
    rw (is_deleted_by-merge_deleted_ids grown entries id pubkey)
      (rw (is_deleted_by-upsert j pubkeys m id pubkey) (ground arith))

module _ (ndb : Ndb) (packets : List EventPacket) (index : VisibilityIndex)
    (built : from_packets ndb packets ≡ ok index) where
  pub winner-from_packets :
      (key : ReplaceableKey) → lookup key index.replaceable_winners ≡ winner_in ndb key packets
  unfolding from_packets merge lookup
  winner-from_packets key =
      let (s, e, done) = >>=-eq-ok (summary_from_packets ndb packets) _ built in
      let same : merge empty_index s ≡ index = cc in
      rw (← same) (
        lookup-merge_entries better better_assoc better_comm key [] s.replaceable_winners
        ∙ winners-summary_from_packets ndb key packets s e)

  pub is_deleted_by-from_packets :
      (id pubkey : Bytes)
      → is_deleted_by index.deleted_ids id pubkey ≡ any (deletes_id ndb id pubkey) packets
  unfolding from_packets merge lookup is_deleted_by
  is_deleted_by-from_packets id pubkey =
      let (s, e, done) = >>=-eq-ok (summary_from_packets ndb packets) _ built in
      let same : merge empty_index s ≡ index = cc in
      rw (← same) (
        is_deleted_by-merge_deleted_ids [] s.deleted_ids id pubkey
        ∙ marked-summary_from_packets ndb id pubkey packets s e)

  pub deadline-from_packets :
      (key : ReplaceableKey) → lookup key index.deleted_addresses ≡ deadline_in ndb key packets
  unfolding from_packets merge lookup
  deadline-from_packets key =
      let (s, e, done) = >>=-eq-ok (summary_from_packets ndb packets) _ built in
      let same : merge empty_index s ≡ index = cc in
      rw (← same) (
        lookup-merge_entries later later_assoc later_comm key [] s.deleted_addresses
        ∙ recorded-summary_from_packets ndb key packets s e)
