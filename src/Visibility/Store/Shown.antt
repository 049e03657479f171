-- ===== src/Visibility/Store/Shown.antt =====
-- The store shows an event exactly if no event that was merged into it hides it.
use searchnos_db.Prelude.{
  ℕ, Bytes, true, false, not, leb, ◌<◌, ◌^◌, Option, none, some, List, [], ◌∷◌, ok, ◌≡◌, subst,
  refl, sym, ap, ◌∙◌, arith, ◌=?◌, =?_iff, beq_refl, bytes_eq, length, append_inj, All, ◌∈◌, any,
  any_of_mem, any_source, any-false, is_lt, cmp_bytes, inl, inr, Bool-cases, &&-eq-true,
}
use searchnos_db.Prelude.Words.{to_le_bytes}
use searchnos_db.Note.{Ndb}
use searchnos_db.Event.{EventPacket}
use searchnos_db.Visibility.Address.{ReplaceableKey, key_eq}
use searchnos_db.Visibility.Summary.{Winner, packet_winner, replaceable_key}
use searchnos_db.Visibility.Index.{is_after}
use searchnos_db.Visibility.Pairwise.{
  deletes_id, deletes_address, supersedes, retracts, hides, is_shown,
}
use searchnos_db.Visibility.Order.{compare_winner-IsTotalOrder}
use searchnos_db.Visibility.Gather.{winner_in}
use searchnos_db.Visibility.DeletedAddresses.{deadline, deadline_in}
use searchnos_db.Visibility.Shown.{is_after-join, beats, superseded_iff, retracted_iff, hidden-eq}
use searchnos_db.Visibility.Store.{
  Lmdb, VisibilityStore, is_missing, is_deleted_in, strfry_address_hash,
  strfry_replace_deletion_key, is_beaten, is_not_deleted_by_id, is_visible_at, is_visible_in_txn,
  strfry_replace_key,
}
use searchnos_db.Visibility.Store.Range.{
  IsStored, not_below-append, is_deleted_in-found, is_deleted_in-none,
}
use searchnos_db.Visibility.Store.Keys.{
  IsLmdb, IsAddress, to_le_bytes-inj, parse_winner_value-winner_value,
}
use searchnos_db.Visibility.Store.Replaced.{AreWinners, stored_value}
use searchnos_db.Visibility.Store.Deleted.{is_key_of}
use searchnos_db.Visibility.Store.Agrees.{is_late, Agrees}
open compare_winner-IsTotalOrder use {cmp-reversed}

All-of_member : {A : Type 0} (P : A → Type 0) (xs : List A) → ((x : A) → x ∈ xs → P x) → All P xs
All-of_member P [] h = tt
All-of_member P (x ∷ xs) h = (h x (inl refl), All-of_member P xs (λ y m. h y (inr m)))

member-of_All : {A : Type 0} (P : A → Type 0) (xs : List A) (x : A) → All P xs → x ∈ xs → P x
member-of_All P [] x h m = elim m [ ]
member-of_All P (y ∷ xs) x h (inl e) = subst P e h.0
member-of_All P (y ∷ xs) x h (inr m) = member-of_All P xs x h.1 m

-- An address with a deadline is deleted by a packet.
deadline_in-source :
    (ndb : Ndb) (key : ReplaceableKey) (packets : List EventPacket) (c : ℕ)
    → is_after (deadline_in ndb key packets) c ≡ false
    → any (deletes_address ndb key) packets ≡ true
unfolding deadline_in deadline
deadline_in-source ndb key [] c h = cc
deadline_in-source ndb key (q ∷ packets) c h = ground (
  arith,
  is_after-join (deadline ndb key q) (deadline_in ndb key packets) c,
  deadline_in-source ndb key packets c,
)

-- No other address that the packets delete has the hash of this one.
abbrev pub NoCollision : Ndb → (Bytes → Bytes) → List EventPacket → ReplaceableKey → Type 0
NoCollision ndb sha256 packets key =
    (other : ReplaceableKey)
    → any (deletes_address ndb other) packets ≡ true
    → strfry_address_hash sha256 other ≡ strfry_address_hash sha256 key
    → other ≡ key

-- The address of a packet is valid, and its hash stands for it alone.
abbrev pub IsAddressed : Ndb → (Bytes → Bytes) → List EventPacket → Option ReplaceableKey → Type 0
IsAddressed ndb sha256 packets none = Unit
IsAddressed ndb sha256 packets (some key) = IsAddress key × NoCollision ndb sha256 packets key

module _ (ndb : Ndb) (lmdb : Lmdb) (sha256 : Bytes → Bytes) (laws : IsLmdb lmdb)
    (sha256_length : (bytes : Bytes) → length (sha256 bytes) ≡ 32) (store : VisibilityStore lmdb)
    (packets : List EventPacket) (agrees : Agrees ndb lmdb sha256 laws store packets) where
  hash_length : (key : ReplaceableKey) → length (strfry_address_hash sha256 key) ≡ 32
  unfolding strfry_address_hash
  hash_length key = sha256_length _

  IsStored-entry :
      (entry : ReplaceableKey × ℕ)
      → entry ∈ agrees.entries
      → IsStored
          (strfry_address_hash sha256 entry.0)
          entry.1
          (strfry_replace_deletion_key sha256 entry.0 entry.1)
  unfolding strfry_replace_deletion_key
  IsStored-entry entry m = record {
    key_is = refl;
    hash_length = hash_length entry.0;
    time_fits =
        member-of_All (λ (e : ReplaceableKey × ℕ). e.1 < 2 ^ 64) agrees.entries entry agrees.times
          m;
  }

  -- A key of the database is that of an entry.
  entry_of :
      (key : Bytes)
      → is_missing (lmdb.get store.event_replace_deletion key) ≡ false
      → (entry : ReplaceableKey × ℕ) × (entry ∈ agrees.entries)
        × (strfry_replace_deletion_key sha256 entry.0 entry.1 ≡ key)
  entry_of key h =
      let has : is_key_of lmdb sha256 laws agrees.entries key ≡ true =
        ground (arith, agrees.keys key) in
      let (entry, m, same) = any_source _ agrees.entries has in (entry, m, (=?_iff _ key).0 same)

  visited-IsStored :
      (start : Bytes)
      → All
          (λ k. (h : Bytes) × (t : ℕ) × IsStored h t k)
          (lmdb.keys_from store.event_replace_deletion start)
  visited-IsStored start = All-of_member _ _ (λ k m.
      let (entry, n, same) =
        entry_of k ((laws.keys_from_iff store.event_replace_deletion start k).0 m).1 in
      (
        strfry_address_hash sha256 entry.0,
        entry.1,
        subst (IsStored _ _) same (IsStored-entry entry n),
      ))

  deleted_by :
      (entry : ReplaceableKey × ℕ)
      → entry ∈ agrees.entries
      → any (deletes_address ndb entry.0) packets ≡ true
  deleted_by entry m =
      let late : any (is_late entry.0 0) agrees.entries ≡ true =
        any_of_mem (is_late entry.0 0) entry agrees.entries m
          (rw (beq_refl entry.0) (ground arith)) in
      deadline_in-source ndb entry.0 packets 0 (ground (arith, agrees.deadlines entry.0 0))

  found_deletion :
      (key : ReplaceableKey) (c : ℕ)
      → any (is_late key c) agrees.entries ≡ true
      → is_deleted_in
          (strfry_address_hash sha256 key)
          c
          (lmdb.keys_from store.event_replace_deletion (strfry_address_hash sha256 key))
        ≡ ok true
  unfolding strfry_replace_deletion_key
  found_deletion key c h =
      let hash = strfry_address_hash sha256 key in
      let db = store.event_replace_deletion in
      let (entry, m, late) = any_source (is_late key c) agrees.entries h in
      let (same, at_or_after) = &&-eq-true (entry.0 =? key) (leb c entry.1) late in
      let own : entry.0 ≡ key = (=?_iff entry.0 key).0 same in
      let stored_key = strfry_replace_deletion_key sha256 entry.0 entry.1 in
      let stored : IsStored hash entry.1 stored_key =
        subst (λ k. IsStored (strfry_address_hash sha256 k) entry.1 stored_key) own
          (IsStored-entry entry m) in
      let is_there : is_key_of lmdb sha256 laws agrees.entries stored_key ≡ true =
        any_of_mem _ entry agrees.entries m ((=?_iff stored_key stored_key).1 refl) in
      let present : is_missing (lmdb.get db stored_key) ≡ false =
        agrees.keys stored_key ∙ rw is_there refl in
      let above : is_lt (cmp_bytes stored_key hash) ≡ false =
        subst (λ k. is_lt (cmp_bytes k hash) ≡ false) (sym stored.key_is)
          (not_below-append hash (to_le_bytes 8 entry.1)) in
      is_deleted_in-found hash c (hash_length key) (lmdb.keys_from db hash) stored_key entry.1
        (visited-IsStored hash) (All-of_member _ _ (λ k n. ((laws.keys_from_iff db hash k).0 n).0))
        (laws.keys_from-IsAscending db hash) stored (ground arith)
        ((laws.keys_from_iff db hash stored_key).1 (above, present))

  no_deletion :
      (key : ReplaceableKey) (c : ℕ)
      → NoCollision ndb sha256 packets key
      → any (is_late key c) agrees.entries ≡ false
      → is_deleted_in
          (strfry_address_hash sha256 key)
          c
          (lmdb.keys_from store.event_replace_deletion (strfry_address_hash sha256 key))
        ≡ ok false
  unfolding strfry_replace_deletion_key
  no_deletion key c alone h =
      let hash = strfry_address_hash sha256 key in
      let db = store.event_replace_deletion in
      is_deleted_in-none hash c (hash_length key) (lmdb.keys_from db hash) (visited-IsStored hash)
        (λ k time m v.
          let (entry, n, same) = entry_of k ((laws.keys_from_iff db hash k).0 m).1 in
          let (hashes, times) =
            append_inj (strfry_address_hash sha256 entry.0) hash (to_le_bytes 8 entry.1)
              (to_le_bytes 8 time) (hash_length entry.0 ∙ sym (hash_length key))
              (same ∙ v.key_is) in
          let own : entry.0 ≡ key = alone entry.0 (deleted_by entry n) hashes in
          let time_is : entry.1 ≡ time =
            to_le_bytes-inj entry.1 time (IsStored-entry entry n).time_fits v.time_fits times in
          elim (Bool-cases (is_late key c entry)) [
            | inl late ↦
                let some_late = any_of_mem (is_late key c) entry agrees.entries n late in cc
            | inr early ↦ ground (arith, (=?_iff entry.0 key).1 own)
          ])

  is_deleted_in-retracts :
      (key : ReplaceableKey) (p : EventPacket)
      → replaceable_key ndb p ≡ some key
      → NoCollision ndb sha256 packets key
      → is_deleted_in
          (strfry_address_hash sha256 key)
          p.created_at
          (lmdb.keys_from store.event_replace_deletion (strfry_address_hash sha256 key))
        ≡ ok (any (λ q. retracts ndb q p) packets)
  is_deleted_in-retracts key p e alone =
      let late = agrees.deadlines key p.created_at in
      let after = retracted_iff ndb p key e packets in
      elim (Bool-cases (any (is_late key p.created_at) agrees.entries)) [
        | inl found ↦ found_deletion key p.created_at found ∙ ap ok (ground arith)
        | inr missing ↦ no_deletion key p.created_at alone missing ∙ ap ok (ground arith)
      ]

  beaten_value :
      (p : EventPacket) (o : Option Winner)
      → AreWinners o
      → is_beaten p (stored_value o) ≡ ok (beats o p)
  beaten_value p none v = refl
  beaten_value p (some w) v =
      rw (parse_winner_value-winner_value w v)
        (ap ok (ground (arith, cmp-reversed w (packet_winner p))))

  is_beaten-supersedes :
      (key : ReplaceableKey) (p : EventPacket)
      → replaceable_key ndb p ≡ some key
      → IsAddress key
      → is_beaten p (lmdb.get store.event_replace (strfry_replace_key key))
        ≡ ok (any (λ q. supersedes ndb q p) packets)
  is_beaten-supersedes key p e valid = rw (agrees.replaced.value key valid) (
      beaten_value p (winner_in ndb key packets) (agrees.replaced.winners key)
      ∙ ap ok (sym (superseded_iff ndb p key e packets)))

  is_not_deleted_by_id-deletes_id :
      (p : EventPacket)
      → length p.id ≡ 32
      → is_not_deleted_by_id lmdb sha256 store p ≡ not (any (deletes_id ndb p.id p.pubkey) packets)
  unfolding is_not_deleted_by_id
  is_not_deleted_by_id-deletes_id p h = agrees.deleted p.id p.pubkey h

  unaddressed_supersedes :
      (p : EventPacket)
      → replaceable_key ndb p ≡ none
      → (q : EventPacket) → supersedes ndb q p ≡ false
  unfolding supersedes
  unaddressed_supersedes p e q = rw (e, supersedes) refl

  unaddressed_retracts :
      (p : EventPacket)
      → replaceable_key ndb p ≡ none
      → (q : EventPacket) → retracts ndb q p ≡ false
  unfolding retracts
  unaddressed_retracts p e q = rw (e, retracts) refl

  is_visible_at-hides :
      (p : EventPacket) (o : Option ReplaceableKey)
      → replaceable_key ndb p ≡ o
      → length p.id ≡ 32
      → IsAddressed ndb sha256 packets o
      → is_visible_at lmdb sha256 store p o ≡ ok (not (any (λ q. hides ndb q p) packets))
  unfolding is_visible_at
  is_visible_at-hides p none e h v = rw (is_not_deleted_by_id-deletes_id p h) (
      ap ok (
        rw (hidden-eq ndb packets p) (
          rw (any-false (λ q. supersedes ndb q p) packets (unaddressed_supersedes p e)) (
            rw (any-false (λ q. retracts ndb q p) packets (unaddressed_retracts p e))
              (ground arith)))))
  is_visible_at-hides p (some key) e h (valid, alone) =
      rw (is_beaten-supersedes key p e valid, is_visible_at)
        (rw (hidden-eq ndb packets p) (elim (Bool-cases (any (λ q. supersedes ndb q p) packets)) [
          | inl beaten ↦ rw beaten refl
          | inr unbeaten ↦ rw unbeaten (
              rw (is_deleted_in-retracts key p e alone)
                (rw (is_not_deleted_by_id-deletes_id p h) (ap ok (ground arith))))
        ]))

  pub is_visible_in_txn-is_shown :
      (p : EventPacket)
      → length p.id ≡ 32
      → IsAddressed ndb sha256 packets (replaceable_key ndb p)
      → is_visible_in_txn lmdb sha256 ndb store p ≡ ok (is_shown ndb packets p)
  unfolding is_visible_in_txn is_shown
  is_visible_in_txn-is_shown p h v =
      rw (is_visible_at-hides p (replaceable_key ndb p) refl h v) (ground arith)
