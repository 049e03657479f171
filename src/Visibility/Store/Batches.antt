-- ===== src/Visibility/Store/Batches.antt =====
-- The store after any sequence of compactions, against the specification.
use searchnos_db.Prelude.{
  Bytes, Option, none, some, List, [], ◌∷◌, ◌++◌, Result, ok, ◌>>=◌, ◌≡◌, refl, subst, length, All,
  >>=-eq-ok,
}
use searchnos_db.Note.{Ndb}
use searchnos_db.Event.{EventPacket}
use searchnos_db.Visibility.Address.{ReplaceableKey}
use searchnos_db.Visibility.Summary.{replaceable_key, summary_from_packets}
use searchnos_db.Visibility.Pairwise.{is_shown}
use searchnos_db.Visibility.Gather.{winner_in}
use searchnos_db.Visibility.DeletedAddresses.{deadline_in}
use searchnos_db.Visibility.Store.{Lmdb, VisibilityStore, merge_summary, is_visible_in_txn}
use searchnos_db.Visibility.Store.Keys.{IsLmdb}
use searchnos_db.Visibility.Store.Agrees.{Agrees, merge_summary-Agrees}
use searchnos_db.Visibility.Store.Shown.{NoCollision, IsAddressed, is_visible_in_txn-is_shown}
use searchnos_db.Visibility.Store.Valid.{
  IsPacket, replaceable_key-IsAddress, summary_from_packets-IsWellFormed,
}

-- The address of a packet, if it has one, has a hash of its own.
abbrev pub HasOwnHash : Ndb → (Bytes → Bytes) → List EventPacket → Option ReplaceableKey → Type 0
HasOwnHash ndb sha256 packets none = Unit
HasOwnHash ndb sha256 packets (some key) = NoCollision ndb sha256 packets key

-- All packets of the batches, those of the last batch first.
abbrev pub merged_packets : List (List EventPacket) → List EventPacket → List EventPacket
merged_packets [] packets = packets
merged_packets (batch ∷ batches) packets = merged_packets batches (batch ++ packets)

module _ (ndb : Ndb) (lmdb : Lmdb) (sha256 : Bytes → Bytes) where
  -- Compactions of batches of packets, one after the other.
  unfoldable pub merge_batches :
      VisibilityStore lmdb → List (List EventPacket) → Result (VisibilityStore lmdb)
  merge_batches store [] = ok store
  merge_batches store (batch ∷ batches) = do
    summary ← summary_from_packets ndb batch
    merged ← merge_summary lmdb sha256 store summary
    merge_batches merged batches

  -- The databases of a new store hold nothing.
  pub record IsEmpty (store : VisibilityStore lmdb) : Type 0 where
    pub no_winners : (key : Bytes) → lmdb.get store.event_replace key ≡ none
    pub no_deletions : (key : Bytes) → lmdb.get store.event_deletion key ≡ none
    pub no_addresses : (key : Bytes) → lmdb.get store.event_replace_deletion key ≡ none

  module _ (laws : IsLmdb lmdb) where
    Agrees-empty :
        (store : VisibilityStore lmdb) → IsEmpty store → Agrees ndb lmdb sha256 laws store []
    unfolding winner_in deadline_in
    Agrees-empty store v = record {
      replaced = record { value = λ key valid. v.no_winners _; winners = λ key. tt };
      deleted = λ i p n. rw (v.no_deletions (i ++ p)) refl;
      entries = [];
      keys = λ key. rw (v.no_addresses key) refl;
      times = tt;
      deadlines = λ key c. refl;
    }

    merge_batches-Agrees :
        (batches : List (List EventPacket)) (store store' : VisibilityStore lmdb)
        (packets : List EventPacket)
        → All (All IsPacket) batches
        → Agrees ndb lmdb sha256 laws store packets
        → merge_batches store batches ≡ ok store'
        → Agrees ndb lmdb sha256 laws store' (merged_packets batches packets)
    unfolding merge_batches
    merge_batches-Agrees [] store store' packets v a h =
        let same : store ≡ store' = cc in subst (λ s. Agrees ndb lmdb sha256 laws s packets) same a
    merge_batches-Agrees (batch ∷ batches) store store' packets v a h =
        let (summary, e, h') = >>=-eq-ok (summary_from_packets ndb batch) _ h in
        let (merged, f, rest) = >>=-eq-ok (merge_summary lmdb sha256 store summary) _ h' in
        merge_batches-Agrees batches merged store' (batch ++ packets) v.1
          (merge_summary-Agrees ndb lmdb sha256 laws store merged batch packets summary a e
            (summary_from_packets-IsWellFormed ndb batch summary v.0 e) f)
          rest

    IsAddressed-of_packet :
        (packets : List EventPacket) (p : EventPacket) (o : Option ReplaceableKey)
        → IsPacket p
        → replaceable_key ndb p ≡ o
        → HasOwnHash ndb sha256 packets o
        → IsAddressed ndb sha256 packets o
    IsAddressed-of_packet packets p none v e h = tt
    IsAddressed-of_packet packets p (some key) v e h = (replaceable_key-IsAddress ndb p key v e, h)

    -- The store that successive compactions have merged their summaries into shows an event
    -- exactly if the event is a deletion request or no event of any of these compactions hides
    -- it. LMDB is assumed to keep what is put, SHA-256 to give 32 bytes, the decoder to give
    -- fields of the right lengths, and the hash of the event's address to differ from those of the
    -- other addresses that the events delete.
    pub is_visible_in_txn-merge_batches :
        (store store' : VisibilityStore lmdb) (batches : List (List EventPacket)) (p : EventPacket)
        → ((bytes : Bytes) → length (sha256 bytes) ≡ 32)
        → IsEmpty store
        → All (All IsPacket) batches
        → merge_batches store batches ≡ ok store'
        → IsPacket p
        → HasOwnHash ndb sha256 (merged_packets batches []) (replaceable_key ndb p)
        → is_visible_in_txn lmdb sha256 ndb store' p
          ≡ ok (is_shown ndb (merged_packets batches []) p)
    is_visible_in_txn-merge_batches store store' batches p sha256_length empty valid h v own =
        let packets = merged_packets batches [] in
        let agrees =
          merge_batches-Agrees batches store store' [] valid (Agrees-empty store empty) h in
        is_visible_in_txn-is_shown ndb lmdb sha256 laws sha256_length store' packets agrees p
          v.id_length (IsAddressed-of_packet packets p (replaceable_key ndb p) v refl own)
