-- ===== src/Visibility/DeletedAddresses.antt =====
-- The times up to which a summary holds an address as deleted are those of its packets.
use searchnos_db.Prelude.{
  ℕ, Bytes, Bool, false, Option, none, some, List, [], ◌∷◌, Result, ok, err, Error, ◌>>=◌, ◌≡◌,
  refl, sym, ◌∙◌, arith, ◌=?◌, =?_iff, ◌&&◌, ◌||◌, fold_result, if◌then◌else◌, any, bytes_eq,
  cmp_bytes, inl, inr, leb, length, >>=-eq-ok, fold_result-eq-ok, Bool-cases,
}
use searchnos_db.Prelude.Dict.{join, gathered, gathered-upsert, join_assoc, join_comm, join-none}
use searchnos_db.Note.{Ndb, Tag, TagElement, tag_element_to_string}
use searchnos_db.Event.{EventPacket}
use searchnos_db.Visibility.Address.{ReplaceableKey, key_eq, parse_address_tag}
use searchnos_db.Visibility.Summary.{
  VisibilitySummary, later, replaceable_key, delete_id, delete_address, delete_address_text,
  deletion_value, deletion_tag, apply_deletion, add_packet, summary_from_packets, empty_summary,
  offer_packet, e_text, a_text, mark_address, max_indexed_tag_value_bytes,
}
use searchnos_db.Visibility.Pairwise.{
  named_value, names_address, any_tag, deletes_address, found_key, found_address,
}

pub later_comm : (u v : ℕ) → later u v ≡ later v u
later_comm u v = omega arith

pub later_assoc : (u v w : ℕ) → later (later u v) w ≡ later u (later v w)
later_assoc u v w = omega arith

-- A time, if the test holds.
abbrev time_if : Bool → ℕ → Option ℕ
time_if b t = if b then some t else none

join-time_if :
    (a b : Bool) (t : ℕ) (o : Option ℕ)
    → join later (time_if a t) (join later (time_if b t) o) ≡ join later (time_if (b || a) t) o
join-time_if a b t none = ground arith
join-time_if a b t (some u) = ground arith

-- The key's author is the author of the packet.
abbrev own : EventPacket → ReplaceableKey → Bool
own p key = p.pubkey =? key.pubkey

module _ (ndb : Ndb) (key : ReplaceableKey) where
  abbrev recorded : VisibilitySummary → Option ℕ
  recorded s = gathered later key s.deleted_addresses

  -- `s` becomes `t` by recording the time of `p` if the test holds.
  abbrev Records : Bool → EventPacket → VisibilitySummary → VisibilitySummary → Type 0
  Records test p s t =
      recorded t ≡ join later (time_if (test && own p key) p.created_at) (recorded s)

  Records-mark_address :
      (p : EventPacket) (s : VisibilitySummary) (o : Option ReplaceableKey)
      → Records (found_key (ok o) key) p s (mark_address p s o)
  Records-mark_address p s none = refl
  Records-mark_address p s (some named) = elim (Bool-cases (named.pubkey =? p.pubkey)) [
    | inl mine ↦ rw mine (
        rw (gathered-upsert later later_assoc key named p.created_at s.deleted_addresses) (
          ground (
            arith,
            =?_iff named.pubkey p.pubkey,
            =?_iff p.pubkey key.pubkey,
            key_eq.beq_iff named key,
          )))
    | inr other ↦ rw other (
        ground (
          arith,
          =?_iff named.pubkey p.pubkey,
          =?_iff p.pubkey key.pubkey,
          key_eq.beq_iff named key,
        ))
  ]

  Records-found_key :
      (p : EventPacket) (s t : VisibilitySummary) (r : Result (Option ReplaceableKey))
      → (r >>= λ o. ok (mark_address p s o)) ≡ ok t
      → Records (found_key r key) p s t
  Records-found_key p s t (ok o) h =
      let same : mark_address p s o ≡ t = cc in rw (← same) (Records-mark_address p s o)
  Records-found_key p s t (err e) h = cc

  Records-delete_address :
      (p : EventPacket) (s t : VisibilitySummary) (r : Result Bytes)
      → (r >>= λ a. delete_address_text p s a) ≡ ok t
      → Records (found_address r key) p s t
  unfolding delete_address_text
  Records-delete_address p s t (ok a) h =
      elim (Bool-cases (leb (length a) max_indexed_tag_value_bytes)) [
        | inl short ↦ rw short (Records-found_key p s t (parse_address_tag a) (rw short at h))
        | inr long ↦ rw long (ground arith)
      ]
  Records-delete_address p s t (err e) h = cc

  recorded-delete_id :
      (p : EventPacket) (s t : VisibilitySummary) (value : Result TagElement)
      → delete_id ndb p s value ≡ ok t
      → recorded t ≡ recorded s
  unfolding delete_id
  recorded-delete_id p s t value h = ground arith

  Records-deletion_value :
      (p : EventPacket) (s t : VisibilitySummary) (name : Bytes) (value : TagElement)
      → deletion_value ndb p s name (ok value) ≡ ok t
      → Records (name =? a_text && found_address (tag_element_to_string ndb value) key) p s t
  unfolding deletion_value delete_address cmp_bytes
  Records-deletion_value p s t name value h = elim (Bool-cases (name =? e_text)) [
    | inl is_e ↦
        let text : name ≡ e_text = (=?_iff name e_text).0 is_e in
        rw text (recorded-delete_id p s t (ok value) (rw is_e at h))
    | inr other ↦ elim (Bool-cases (name =? a_text)) [
      | inl is_a ↦
          rw is_a
            (Records-delete_address p s t (tag_element_to_string ndb value) (rw (other, is_a) at h))
      | inr neither ↦ rw neither (ground arith)
    ]
  ]

  deletion_value-err :
      (p : EventPacket) (s t : VisibilitySummary) (name : Bytes) (e : Error)
      → deletion_value ndb p s name (err e) ≡ ok t
      → (name =? a_text ≡ false) × (recorded t ≡ recorded s)
  unfolding deletion_value delete_id delete_address
  deletion_value-err p s t name e h = ground arith

  Records-deletion_tag :
      (p : EventPacket) (s t : VisibilitySummary) (tag : Result Tag)
      → deletion_tag ndb p s tag ≡ ok t
      → Records (names_address ndb key tag) p s t
  unfolding deletion_tag names_address named_value
  Records-deletion_tag p s t (err e) h = cc
  Records-deletion_tag p s t (ok []) h = ground arith
  Records-deletion_tag p s t (ok (err e ∷ rest)) h = cc
  Records-deletion_tag p s t (ok (ok name ∷ [])) h = ground arith
  Records-deletion_tag p s t (ok (ok (TagElement.id n) ∷ err e ∷ rest)) h = ground arith
  Records-deletion_tag p s t (ok (ok (TagElement.id n) ∷ ok v ∷ rest)) h = ground arith
  Records-deletion_tag p s t (ok (ok (TagElement.text n) ∷ err e ∷ rest)) h =
      let (other, same) = deletion_value-err p s t n e h in same
  Records-deletion_tag p s t (ok (ok (TagElement.text n) ∷ ok value ∷ rest)) h =
      ground (arith, Records-deletion_value p s t n value h)

  Records-deletion_tags :
      (p : EventPacket) (s t : VisibilitySummary) (tags : List (Result Tag))
      → fold_result (deletion_tag ndb p) s tags ≡ ok t
      → Records (any (names_address ndb key) tags) p s t
  Records-deletion_tags p s t [] h = ground arith
  Records-deletion_tags p s t (tag ∷ tags) h =
      let (u, e, rest) = fold_result-eq-ok (deletion_tag ndb p) s tag tags h in
      rw (Records-deletion_tags p u t tags rest) (
        rw (Records-deletion_tag p s u tag e) (
          join-time_if (any (names_address ndb key) tags && own p key)
            (names_address ndb key tag && own p key) p.created_at (recorded s)
          ∙ ground arith))

  Records-apply_deletion :
      (p : EventPacket) (s t : VisibilitySummary)
      → apply_deletion ndb s p ≡ ok t
      → Records (any_tag ndb (names_address ndb key) p) p s t
  unfolding apply_deletion any_tag
  Records-apply_deletion p s t h =
      let (note, e, rest) = >>=-eq-ok (ndb.from_bytes p.payload) _ h in
      rw (e, any_tag) (Records-deletion_tags p s t note.tags rest)

  recorded-offer_packet :
      (s : VisibilitySummary) (p : EventPacket) (o : Option ReplaceableKey)
      → recorded (offer_packet s p o) ≡ recorded s
  recorded-offer_packet s p none = refl
  recorded-offer_packet s p (some k) = refl

  -- The time at which a packet deletes the address.
  unfoldable pub deadline : EventPacket → Option ℕ
  deadline p = time_if (deletes_address ndb key p) p.created_at

  unfoldable pub deadline_in : List EventPacket → Option ℕ
  deadline_in [] = none
  deadline_in (p ∷ packets) = join later (deadline p) (deadline_in packets)

  recorded-add_packet :
      (s : VisibilitySummary) (p : EventPacket) (t : VisibilitySummary)
      → add_packet ndb s p ≡ ok t
      → recorded t ≡ join later (deadline p) (recorded s)
  unfolding add_packet deletes_address deadline
  recorded-add_packet s p t h =
      let o = replaceable_key ndb p in
      ground (arith, recorded-offer_packet s p o, Records-apply_deletion p (offer_packet s p o) t)

  rotate_join : (o p q : Option ℕ) → join later o (join later p q) ≡ join later (join later p o) q
  rotate_join o p q = sym (join_assoc later later_assoc o p q) ∙ rw (join_comm later later_comm o p)

  recorded-add_packets :
      (s : VisibilitySummary) (packets : List EventPacket) (t : VisibilitySummary)
      → fold_result (add_packet ndb) s packets ≡ ok t
      → recorded t ≡ join later (deadline_in packets) (recorded s)
  unfolding deadline_in
  recorded-add_packets s [] t h = ground arith
  recorded-add_packets s (p ∷ packets) t h =
      let (u, e, rest) = fold_result-eq-ok (add_packet ndb) s p packets h in
      rw (recorded-add_packets u packets t rest) (
        rw (recorded-add_packet s p u e)
          (rotate_join (deadline_in packets) (deadline p) (recorded s)))

  pub recorded-summary_from_packets :
      (packets : List EventPacket) (t : VisibilitySummary)
      → summary_from_packets ndb packets ≡ ok t
      → gathered later key t.deleted_addresses ≡ deadline_in packets
  unfolding summary_from_packets gathered
  recorded-summary_from_packets packets t h =
      recorded-add_packets empty_summary packets t h ∙ join-none later (deadline_in packets)
