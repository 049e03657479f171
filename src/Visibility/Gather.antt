-- ===== src/Visibility/Gather.antt =====
-- What the maps of a summary hold, entry by entry, in terms of the packets that went into it.
use searchnos_db.Prelude.{
  Bytes, Option, none, some, List, [], ◌∷◌, Result, ok, err, ◌≡◌, refl, sym, ◌∙◌, arith, ◌=?◌,
  fold_result, if◌then◌else◌, bytes_eq, >>=-eq-ok, fold_result-eq-ok,
}
use searchnos_db.Prelude.Dict.{join, gathered, gathered-upsert, join_assoc, join_comm, join-none}
use searchnos_db.Note.{Ndb, Tag, TagElement}
use searchnos_db.Event.{EventPacket}
use searchnos_db.Visibility.Address.{ReplaceableKey, key_eq}
use searchnos_db.Visibility.Summary.{
  Winner, VisibilitySummary, better, replaceable_key, packet_winner, delete_id, delete_address,
  delete_address_text, deletion_value, deletion_tag, apply_deletion, add_packet,
  summary_from_packets, update_winner, empty_summary, offer_packet,
}
use searchnos_db.Visibility.Order.{better_assoc, better_comm}

abbrev pub proposed : ReplaceableKey → EventPacket → Option ReplaceableKey → Option Winner
proposed key p none = none
proposed key p (some own) = if own =? key then some (packet_winner p) else none

rotate_join :
    (o p q : Option Winner) → join better o (join better p q) ≡ join better (join better p o) q
rotate_join o p q =
    sym (join_assoc better better_assoc o p q) ∙ rw (join_comm better better_comm o p)

module _ (ndb : Ndb) where
  -- The winner that a packet proposes for an address.
  unfoldable pub candidate : ReplaceableKey → EventPacket → Option Winner
  candidate key p = proposed key p (replaceable_key ndb p)

  unfoldable pub winner_in : ReplaceableKey → List EventPacket → Option Winner
  winner_in key [] = none
  winner_in key (p ∷ packets) = join better (candidate key p) (winner_in key packets)

  -- Deletions leave the winners alone.
  winners-deletion_value :
      (p : EventPacket) (s : VisibilitySummary) (name : Bytes) (value : Result TagElement)
      (t : VisibilitySummary)
      → deletion_value ndb p s name value ≡ ok t
      → t.replaceable_winners ≡ s.replaceable_winners
  unfolding deletion_value delete_id delete_address delete_address_text
  winners-deletion_value p s name value t h = ground arith

  winners-deletion_tag :
      (p : EventPacket) (s : VisibilitySummary) (tag : Result Tag) (t : VisibilitySummary)
      → deletion_tag ndb p s tag ≡ ok t
      → t.replaceable_winners ≡ s.replaceable_winners
  unfolding deletion_tag
  winners-deletion_tag p s (err e) t h = cc
  winners-deletion_tag p s (ok []) t h = ground arith
  winners-deletion_tag p s (ok (err e ∷ rest)) t h = cc
  winners-deletion_tag p s (ok (ok name ∷ [])) t h = ground arith
  winners-deletion_tag p s (ok (ok (TagElement.text n) ∷ value ∷ rest)) t h =
      winners-deletion_value p s n value t h
  winners-deletion_tag p s (ok (ok (TagElement.id n) ∷ value ∷ rest)) t h = ground arith

  winners-deletion_tags :
      (p : EventPacket) (s : VisibilitySummary) (tags : List (Result Tag)) (t : VisibilitySummary)
      → fold_result (deletion_tag ndb p) s tags ≡ ok t
      → t.replaceable_winners ≡ s.replaceable_winners
  winners-deletion_tags p s [] t h = ground arith
  winners-deletion_tags p s (tag ∷ tags) t h =
      let (u, e, rest) = fold_result-eq-ok (deletion_tag ndb p) s tag tags h in
      winners-deletion_tags p u tags t rest ∙ winners-deletion_tag p s tag u e

  winners-apply_deletion :
      (s : VisibilitySummary) (p : EventPacket) (t : VisibilitySummary)
      → apply_deletion ndb s p ≡ ok t
      → t.replaceable_winners ≡ s.replaceable_winners
  unfolding apply_deletion
  winners-apply_deletion s p t h =
      let (note, e, rest) = >>=-eq-ok (ndb.from_bytes p.payload) _ h in
      winners-deletion_tags p s note.tags t rest

  offered-add_packet :
      (s : VisibilitySummary) (p : EventPacket) (t : VisibilitySummary)
      → add_packet ndb s p ≡ ok t
      → t.replaceable_winners ≡ (offer_packet s p (replaceable_key ndb p)).replaceable_winners
  unfolding add_packet
  offered-add_packet s p t h =
      ground (arith, winners-apply_deletion (offer_packet s p (replaceable_key ndb p)) p t)

  winners-offer_packet :
      (key : ReplaceableKey) (s : VisibilitySummary) (p : EventPacket) (o : Option ReplaceableKey)
      → gathered better key (offer_packet s p o).replaceable_winners
        ≡ join better (proposed key p o) (gathered better key s.replaceable_winners)
  unfolding update_winner
  winners-offer_packet key s p none = refl
  winners-offer_packet key s p (some own) =
      gathered-upsert better better_assoc key own (packet_winner p) s.replaceable_winners
      ∙ ground arith

  winners-add_packet :
      (key : ReplaceableKey) (s : VisibilitySummary) (p : EventPacket) (t : VisibilitySummary)
      → add_packet ndb s p ≡ ok t
      → gathered better key t.replaceable_winners
        ≡ join better (candidate key p) (gathered better key s.replaceable_winners)
  unfolding candidate
  winners-add_packet key s p t h =
      rw (offered-add_packet s p t h) (winners-offer_packet key s p (replaceable_key ndb p))

  winners-add_packets :
      (key : ReplaceableKey) (s : VisibilitySummary) (packets : List EventPacket)
      (t : VisibilitySummary)
      → fold_result (add_packet ndb) s packets ≡ ok t
      → gathered better key t.replaceable_winners
        ≡ join better (winner_in key packets) (gathered better key s.replaceable_winners)
  unfolding winner_in
  winners-add_packets key s [] t h = ground arith
  winners-add_packets key s (p ∷ packets) t h =
      let (u, e, rest) = fold_result-eq-ok (add_packet ndb) s p packets h in
      rw (winners-add_packets key u packets t rest) (
        rw (winners-add_packet key s p u e) (
          rotate_join (winner_in key packets) (candidate key p)
            (gathered better key s.replaceable_winners)))

  -- The winners of a summary are those of its packets.
  pub winners-summary_from_packets :
      (key : ReplaceableKey) (packets : List EventPacket) (t : VisibilitySummary)
      → summary_from_packets ndb packets ≡ ok t
      → gathered better key t.replaceable_winners ≡ winner_in key packets
  unfolding summary_from_packets gathered
  winners-summary_from_packets key packets t h =
      winners-add_packets key empty_summary packets t h ∙ join-none better (winner_in key packets)
