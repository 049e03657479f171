-- ===== src/Visibility/Store/Agrees.antt =====
-- What the store holds after summaries were merged into it, in terms of the packets.
use searchnos_db.Prelude.{
  ℕ, Bytes, Bool, not, ◌||◌, ◌&&◌, leb, ◌<◌, ◌^◌, some, List, [], ◌∷◌, ◌++◌, ok, ◌≡◌, refl, sym, ap,
  ◌∙◌, arith, ◌=?◌, bytes_eq, length, All, All-append, any, any-append, fold_result, >>=-eq-ok, inl,
  inr, Bool-cases,
}
use searchnos_db.Prelude.Dict.{Dict, join, join_assoc, gathered}
use searchnos_db.Note.{Ndb}
use searchnos_db.Event.{EventPacket}
use searchnos_db.Visibility.Address.{ReplaceableKey, key_eq}
use searchnos_db.Visibility.Summary.{Winner, VisibilitySummary, better, later, summary_from_packets}
use searchnos_db.Visibility.Index.{is_after}
use searchnos_db.Visibility.Pairwise.{deletes_id}
use searchnos_db.Visibility.Order.{better_assoc}
use searchnos_db.Visibility.Gather.{winner_in, candidate, winners-summary_from_packets}
use searchnos_db.Visibility.DeletedIds.{marked-summary_from_packets}
use searchnos_db.Visibility.DeletedAddresses.{
  later_assoc, deadline, deadline_in, recorded-summary_from_packets,
}
use searchnos_db.Visibility.Shown.{is_after-join}
use searchnos_db.Visibility.Store.{
  Lmdb, VisibilityStore, merge_summary, write_winner, write_deletions, write_address,
}
use searchnos_db.Visibility.Store.Keys.{IsLmdb, IsAddress, IsWinner}
use searchnos_db.Visibility.Store.Replaced.{Holds, Holds-of_eq, Holds-write_winners}
use searchnos_db.Visibility.Store.Deleted.{
  Marks, Marks-write_deleted_ids, HasKeys, is_key_of, HasKeys-write_addresses,
}

-- Keys and values of the lengths that the store reads back.
pub record IsWellFormed (s : VisibilitySummary) : Type 0 where
  pub winners :
      All
        (λ (entry : ReplaceableKey × Winner). IsAddress entry.0 × IsWinner entry.1)
        s.replaceable_winners
  pub ids : All (λ (entry : Bytes × List Bytes). length entry.0 ≡ 32) s.deleted_ids
  pub times : All (λ (entry : ReplaceableKey × ℕ). entry.1 < 2 ^ 64) s.deleted_addresses

-- Some entry is of the address, and at or after the time.
abbrev pub is_late : ReplaceableKey → ℕ → ReplaceableKey × ℕ → Bool
is_late key created_at entry = entry.0 =? key && leb created_at entry.1

is_late-gathered :
    (key : ReplaceableKey) (c : ℕ) (entries : Dict ReplaceableKey ℕ)
    → any (is_late key c) entries ≡ not (is_after (gathered later key entries) c)
unfolding gathered
is_late-gathered key c [] = refl
is_late-gathered key c ((own, t) ∷ entries) = elim (Bool-cases (own =? key)) [
  | inr other ↦ rw other (is_late-gathered key c entries)
  | inl same ↦ rw same (
      rw (is_after-join (some t) (gathered later key entries) c)
        (rw (is_late-gathered key c entries) (ground arith)))
]

module _ (ndb : Ndb) where
  winner_in-append :
      (key : ReplaceableKey) (xs ys : List EventPacket)
      → winner_in ndb key (xs ++ ys) ≡ join better (winner_in ndb key xs) (winner_in ndb key ys)
  unfolding winner_in
  winner_in-append key [] ys = refl
  winner_in-append key (x ∷ xs) ys =
      ap (join better (candidate ndb key x)) (winner_in-append key xs ys)
      ∙ sym (
          join_assoc better better_assoc (candidate ndb key x) (winner_in ndb key xs)
            (winner_in ndb key ys))

  deadline_in-append :
      (key : ReplaceableKey) (xs ys : List EventPacket)
      → deadline_in ndb key (xs ++ ys)
        ≡ join later (deadline_in ndb key xs) (deadline_in ndb key ys)
  unfolding deadline_in
  deadline_in-append key [] ys = refl
  deadline_in-append key (x ∷ xs) ys =
      ap (join later (deadline ndb key x)) (deadline_in-append key xs ys)
      ∙ sym (
          join_assoc later later_assoc (deadline ndb key x) (deadline_in ndb key xs)
            (deadline_in ndb key ys))

  module _ (lmdb : Lmdb) (sha256 : Bytes → Bytes) (laws : IsLmdb lmdb) where
    -- The store holds what the packets say.
    pub record Agrees (store : VisibilityStore lmdb) (packets : List EventPacket) : Type 0 where
      pub replaced : Holds lmdb sha256 laws store.event_replace (λ key. winner_in ndb key packets)
      pub deleted :
          Marks lmdb sha256 laws store.event_deletion (λ i p. any (deletes_id ndb i p) packets)
      pub entries : Dict ReplaceableKey ℕ
      pub keys :
          HasKeys lmdb sha256 laws store.event_replace_deletion (is_key_of lmdb sha256 laws entries)
      pub times : All (λ (entry : ReplaceableKey × ℕ). entry.1 < 2 ^ 64) entries
      pub deadlines :
          (key : ReplaceableKey) (c : ℕ)
          → any (is_late key c) entries ≡ not (is_after (deadline_in ndb key packets) c)

    pub merge_summary-Agrees :
        (store store' : VisibilityStore lmdb) (batch packets : List EventPacket)
        (s : VisibilitySummary)
        → Agrees store packets
        → summary_from_packets ndb batch ≡ ok s
        → IsWellFormed s
        → merge_summary lmdb sha256 store s ≡ ok store'
        → Agrees store' (batch ++ packets)
    unfolding merge_summary
    merge_summary-Agrees store store' batch packets s v e w h =
        let (replaced, r, h') =
          >>=-eq-ok
            (fold_result (write_winner lmdb sha256) store.event_replace s.replaceable_winners) _
            h in
        let (deleted, d, h'') =
          >>=-eq-ok (fold_result (write_deletions lmdb sha256) store.event_deletion s.deleted_ids) _
            h' in
        let (addresses, a, done) =
          >>=-eq-ok
            (fold_result (write_address lmdb sha256) store.event_replace_deletion
              s.deleted_addresses)
            _ h'' in
        let built : VisibilityStore lmdb = record {
          event_replace = replaced;
          event_deletion = deleted;
          event_replace_deletion = addresses;
        } in
        let same : built ≡ store' = cc in
        let agrees : Agrees built (batch ++ packets) = record {
          replaced =
              Holds-of_eq lmdb sha256 laws replaced _ (λ key. winner_in ndb key (batch ++ packets))
                (λ key.
                  ap (λ o. join better o (winner_in ndb key packets))
                    (winners-summary_from_packets ndb key batch s e)
                  ∙ sym (winner_in-append key batch packets))
                (Holds-write_winners lmdb sha256 laws store.event_replace replaced _
                  s.replaceable_winners v.replaced w.winners r);
          deleted = λ i p n.
              Marks-write_deleted_ids lmdb sha256 laws s.deleted_ids store.event_deletion deleted _
                w.ids v.deleted d i p n
              ∙ ap not (
                  ap (λ b. b || any (deletes_id ndb i p) packets)
                    (marked-summary_from_packets ndb i p batch s e)
                  ∙ sym (any-append (deletes_id ndb i p) batch packets));
          entries = s.deleted_addresses ++ v.entries;
          keys = λ key.
              HasKeys-write_addresses lmdb sha256 laws s.deleted_addresses
                store.event_replace_deletion addresses _ v.keys a key
              ∙ ap not (sym (any-append _ s.deleted_addresses v.entries));
          times = All-append _ s.deleted_addresses v.entries w.times v.times;
          deadlines = λ key c.
              any-append (is_late key c) s.deleted_addresses v.entries
              ∙ rw (v.deadlines key c) (
                  rw (is_late-gathered key c s.deleted_addresses) (
                    rw (recorded-summary_from_packets ndb key batch s e) (
                      rw (deadline_in-append key batch packets) (
                        rw
                          (is_after-join (deadline_in ndb key batch) (deadline_in ndb key packets)
                            c)
                          (ground arith)))));
        } in
        rw (← same) agrees
