-- ===== src/Visibility/DeletedIds.antt =====
-- The identifiers that a summary holds as deleted are those that its packets delete.
use searchnos_db.Prelude.{
  Bytes, Bool, false, Option, none, some, List, [], ◌∷◌, Result, ok, err, Error, ◌>>=◌, ◌≡◌, refl,
  arith, ◌=?◌, =?_iff, ◌&&◌, ◌||◌, fold_result, any, contains, bytes_eq, inl, inr, >>=-eq-ok,
  fold_result-eq-ok, Bool-cases,
}
use searchnos_db.Prelude.Dict.{Dict, upsert}
use searchnos_db.Note.{Ndb, Tag, TagElement}
use searchnos_db.Event.{EventPacket}
use searchnos_db.Visibility.Address.{ReplaceableKey}
use searchnos_db.Visibility.Summary.{
  VisibilitySummary, insert_pubkey, replaceable_key, delete_id, delete_address, delete_address_text,
  deletion_value, deletion_tag, apply_deletion, add_packet, summary_from_packets, empty_summary,
  offer_packet, tag_value_to_id, e_text, mark_id, mark_address,
}
use searchnos_db.Visibility.Pairwise.{named_value, names_id, any_tag, deletes_id, found_id}

-- The pair stands in some entry.
abbrev pub marked : Bytes → Bytes → Dict Bytes (List Bytes) → Bool
marked id pubkey [] = false
marked id pubkey ((j, pubkeys) ∷ m) = j =? id && contains pubkeys pubkey || marked id pubkey m

pub contains-insert_pubkey :
    (q pubkey : Bytes) (set : List Bytes)
    → contains (insert_pubkey q set) pubkey ≡ (q =? pubkey || contains set pubkey)
unfolding insert_pubkey
contains-insert_pubkey q pubkey set = elim (Bool-cases (contains set q)) [
  | inl old ↦ elim (Bool-cases (q =? pubkey)) [
    | inl same ↦ rw old (rw same (rw ((=?_iff q pubkey).0 same) at old))
    | inr other ↦ rw old (rw other)
  ]
  | inr new ↦ rw new (ground arith)
]

marked-upsert :
    (id pubkey j q : Bytes) (m : Dict Bytes (List Bytes))
    → marked id pubkey (upsert j (insert_pubkey q) (q ∷ []) m)
      ≡ (j =? id && q =? pubkey || marked id pubkey m)
unfolding upsert
marked-upsert id pubkey j q [] = ground arith
marked-upsert id pubkey j q ((i, set) ∷ m) = elim (Bool-cases (i =? j)) [
  | inl same ↦
      rw same (rw (contains-insert_pubkey q pubkey set) (rw ((=?_iff i j).0 same) (ground arith)))
  | inr other ↦ rw other (rw (marked-upsert id pubkey j q m) (ground arith))
]

module _ (ndb : Ndb) where
  marked-mark_id :
      (id pubkey q : Bytes) (s : VisibilitySummary) (o : Option Bytes)
      → marked id pubkey (mark_id q s o).deleted_ids
        ≡ (found_id (ok o) id && q =? pubkey || marked id pubkey s.deleted_ids)
  marked-mark_id id pubkey q s none = refl
  marked-mark_id id pubkey q s (some j) = marked-upsert id pubkey j q s.deleted_ids

  marked-mark_address :
      (id pubkey : Bytes) (p : EventPacket) (s : VisibilitySummary) (o : Option ReplaceableKey)
      → marked id pubkey (mark_address p s o).deleted_ids ≡ marked id pubkey s.deleted_ids
  marked-mark_address id pubkey p s none = refl
  marked-mark_address id pubkey p s (some key) = ground arith

  marked-found_id :
      (id pubkey q : Bytes) (s t : VisibilitySummary) (r : Result (Option Bytes))
      → (r >>= λ o. ok (mark_id q s o)) ≡ ok t
      → marked id pubkey t.deleted_ids
        ≡ (found_id r id && q =? pubkey || marked id pubkey s.deleted_ids)
  marked-found_id id pubkey q s t (ok o) h =
      let same : mark_id q s o ≡ t = cc in rw (← same) (marked-mark_id id pubkey q s o)
  marked-found_id id pubkey q s t (err e) h = cc

  -- The other arms do not touch the identifiers.
  marked-delete_address :
      (id pubkey : Bytes) (p : EventPacket) (s t : VisibilitySummary) (value : Result TagElement)
      → delete_address ndb p s value ≡ ok t
      → marked id pubkey t.deleted_ids ≡ marked id pubkey s.deleted_ids
  unfolding delete_address delete_address_text
  marked-delete_address id pubkey p s t value h = ground arith

  marked-deletion_value :
      (id pubkey : Bytes) (p : EventPacket) (s t : VisibilitySummary) (name : Bytes)
      (value : TagElement)
      → deletion_value ndb p s name (ok value) ≡ ok t
      → marked id pubkey t.deleted_ids ≡ (
          name =? e_text && found_id (tag_value_to_id ndb value) id && p.pubkey =? pubkey
          || marked id pubkey s.deleted_ids)
  unfolding deletion_value delete_id
  marked-deletion_value id pubkey p s t name value h = elim (Bool-cases (name =? e_text)) [
    | inl is_e ↦
        rw is_e (marked-found_id id pubkey p.pubkey s t (tag_value_to_id ndb value) (rw is_e at h))
    | inr other ↦ rw other (ground (arith, marked-delete_address id pubkey p s t (ok value)))
  ]

  -- A value that is no element stops the loop.
  deletion_value-err :
      (p : EventPacket) (s t : VisibilitySummary) (name : Bytes) (e : Error)
      → deletion_value ndb p s name (err e) ≡ ok t
      → (name =? e_text ≡ false) × (t ≡ s)
  unfolding deletion_value delete_id delete_address
  deletion_value-err p s t name e h = ground arith

  marked-deletion_tag :
      (id pubkey : Bytes) (p : EventPacket) (s t : VisibilitySummary) (tag : Result Tag)
      → deletion_tag ndb p s tag ≡ ok t
      → marked id pubkey t.deleted_ids
        ≡ (names_id ndb id tag && p.pubkey =? pubkey || marked id pubkey s.deleted_ids)
  unfolding deletion_tag names_id named_value
  marked-deletion_tag id pubkey p s t (err e) h = cc
  marked-deletion_tag id pubkey p s t (ok []) h = ground arith
  marked-deletion_tag id pubkey p s t (ok (err e ∷ rest)) h = cc
  marked-deletion_tag id pubkey p s t (ok (ok name ∷ [])) h = ground arith
  marked-deletion_tag id pubkey p s t (ok (ok (TagElement.id n) ∷ err e ∷ rest)) h = ground arith
  marked-deletion_tag id pubkey p s t (ok (ok (TagElement.id n) ∷ ok v ∷ rest)) h = ground arith
  marked-deletion_tag id pubkey p s t (ok (ok (TagElement.text n) ∷ err e ∷ rest)) h =
      rw ((deletion_value-err p s t n e h).1)
  marked-deletion_tag id pubkey p s t (ok (ok (TagElement.text n) ∷ ok value ∷ rest)) h =
      ground (arith, marked-deletion_value id pubkey p s t n value h)

  marked-deletion_tags :
      (id pubkey : Bytes) (p : EventPacket) (s t : VisibilitySummary) (tags : List (Result Tag))
      → fold_result (deletion_tag ndb p) s tags ≡ ok t
      → marked id pubkey t.deleted_ids
        ≡ (any (names_id ndb id) tags && p.pubkey =? pubkey || marked id pubkey s.deleted_ids)
  marked-deletion_tags id pubkey p s t [] h = ground arith
  marked-deletion_tags id pubkey p s t (tag ∷ tags) h =
      let (u, e, rest) = fold_result-eq-ok (deletion_tag ndb p) s tag tags h in
      rw (marked-deletion_tags id pubkey p u t tags rest)
        (rw (marked-deletion_tag id pubkey p s u tag e) (ground arith))

  marked-apply_deletion :
      (id pubkey : Bytes) (p : EventPacket) (s t : VisibilitySummary)
      → apply_deletion ndb s p ≡ ok t
      → marked id pubkey t.deleted_ids
        ≡ (p.pubkey =? pubkey && any_tag ndb (names_id ndb id) p || marked id pubkey s.deleted_ids)
  unfolding apply_deletion any_tag
  marked-apply_deletion id pubkey p s t h =
      let (note, e, rest) = >>=-eq-ok (ndb.from_bytes p.payload) _ h in
      rw (e, any_tag) (rw (marked-deletion_tags id pubkey p s t note.tags rest) (ground arith))

  marked-offer_packet :
      (id pubkey : Bytes) (s : VisibilitySummary) (p : EventPacket) (o : Option ReplaceableKey)
      → marked id pubkey (offer_packet s p o).deleted_ids ≡ marked id pubkey s.deleted_ids
  marked-offer_packet id pubkey s p none = refl
  marked-offer_packet id pubkey s p (some key) = refl

  marked-add_packet :
      (id pubkey : Bytes) (s : VisibilitySummary) (p : EventPacket) (t : VisibilitySummary)
      → add_packet ndb s p ≡ ok t
      → marked id pubkey t.deleted_ids
        ≡ (deletes_id ndb id pubkey p || marked id pubkey s.deleted_ids)
  unfolding add_packet deletes_id
  marked-add_packet id pubkey s p t h =
      let o = replaceable_key ndb p in
      ground (
        arith,
        marked-offer_packet id pubkey s p o,
        marked-apply_deletion id pubkey p (offer_packet s p o) t,
      )

  marked-add_packets :
      (id pubkey : Bytes) (s : VisibilitySummary) (packets : List EventPacket)
      (t : VisibilitySummary)
      → fold_result (add_packet ndb) s packets ≡ ok t
      → marked id pubkey t.deleted_ids
        ≡ (any (deletes_id ndb id pubkey) packets || marked id pubkey s.deleted_ids)
  marked-add_packets id pubkey s [] t h = ground arith
  marked-add_packets id pubkey s (p ∷ packets) t h =
      let (u, e, rest) = fold_result-eq-ok (add_packet ndb) s p packets h in
      rw (marked-add_packets id pubkey u packets t rest)
        (rw (marked-add_packet id pubkey s p u e) (ground arith))

  -- The pairs that a summary marks are those that its packets delete.
  pub marked-summary_from_packets :
      (id pubkey : Bytes) (packets : List EventPacket) (t : VisibilitySummary)
      → summary_from_packets ndb packets ≡ ok t
      → marked id pubkey t.deleted_ids ≡ any (deletes_id ndb id pubkey) packets
  unfolding summary_from_packets
  marked-summary_from_packets id pubkey packets t h =
      ground (arith, marked-add_packets id pubkey empty_summary packets t h)
