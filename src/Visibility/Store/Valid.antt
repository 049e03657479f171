-- ===== src/Visibility/Store/Valid.antt =====
-- The summary of packets of the right lengths is well formed.
use searchnos_db.Prelude.{
  ℕ, Bytes, ◌*◌, ◌<◌, ◌^◌, ◌==◌, ==_iff, leb, Option, none, some, List, [], ◌∷◌, Result, ok, err,
  ◌≡◌, Eq, inl, inr, refl, sym, ap, ◌∙◌, subst, arith, ◌=?◌, bytes_eq, length, All, fold_result,
  fold_result-eq-ok, >>=-eq-ok, Bool-cases, Option-cases,
}
use searchnos_db.Prelude.Dict.{Dict, upsert}
use searchnos_db.Note.{Ndb, Tag, TagElement, tag_element_to_string}
use searchnos_db.Event.{EventPacket}
use searchnos_db.Visibility.Hex.{hex_to_32, hex_pairs, hex_pair, cons_byte, cuts_character}
use searchnos_db.Visibility.Address.{
  ReplaceableKey, key_eq, is_regular_replaceable_kind, is_addressable_kind, parse_address_tag,
}
use searchnos_db.Visibility.Summary.{
  VisibilitySummary, better, later, replaceable_key, packet_winner, offer_packet, update_winner,
  mark_id, mark_address, tag_value_to_id, delete_id, delete_address, delete_address_text,
  deletion_value, deletion_tag, apply_deletion, add_packet, summary_from_packets, empty_summary,
  insert_pubkey, or_empty, e_text, a_text, deletion_kind, first_d_tag,
}
use searchnos_db.Visibility.Store.Keys.{IsAddress, IsWinner}
use searchnos_db.Visibility.Store.Replaced.{IsWinner-better}
use searchnos_db.Visibility.Store.Agrees.{IsWellFormed}

-- The lengths that the decoder gives.
pub record IsPacket (p : EventPacket) : Type 0 where
  pub id_length : length p.id ≡ 32
  pub pubkey_length : length p.pubkey ≡ 32
  pub kind_fits : p.kind < 2 ^ 32
  pub time_fits : p.created_at < 2 ^ 64

some_inj {ℓ} : {A : Type ℓ} {a b : A} → some a ≡ some b → a ≡ b
some_inj h = cc

pub replaceable_key-IsAddress :
    (ndb : Ndb) (p : EventPacket) (key : ReplaceableKey)
    → IsPacket p
    → replaceable_key ndb p ≡ some key
    → IsAddress key
unfolding replaceable_key
replaceable_key-IsAddress ndb p key v h = elim (Bool-cases (is_regular_replaceable_kind p.kind)) [
  | inl regular ↦ subst IsAddress (some_inj (rw (regular, replaceable_key) at h)) (record {
    pubkey_length = v.pubkey_length;
    kind_fits = v.kind_fits;
    d_iff = inl (refl, regular);
  })
  | inr other ↦ elim (Bool-cases (is_addressable_kind p.kind)) [
    | inl addressable ↦
        subst IsAddress (some_inj (rw (other, addressable, replaceable_key) at h)) (record {
          pubkey_length = v.pubkey_length;
          kind_fits = v.kind_fits;
          d_iff = inr (or_empty (first_d_tag ndb p.payload), refl, other);
        })
    | inr neither ↦ absurd (none_some (rw (other, neither, replaceable_key) at h))
  ]
]
  where
    none_some : none ≡ some key → ⊥
    none_some e = cc

-- Decoded identifiers have 32 bytes.
cons_byte-some :
    (v : ℕ) (r : Result (Option Bytes)) (bytes : Bytes)
    → cons_byte v r ≡ ok (some bytes)
    → (bs : Bytes) × (r ≡ ok (some bs)) × (v ∷ bs ≡ bytes)
cons_byte-some v (ok (some bs)) bytes h = (bs, refl, cc)
cons_byte-some v (ok none) bytes h = cc
cons_byte-some v (err e) bytes h = cc

hex_pairs-length : (s bytes : Bytes) → hex_pairs s ≡ ok (some bytes) → length s ≡ 2 * length bytes
unfolding hex_pairs
hex_pairs-length [] bytes h = let same : [] ≡ bytes = cc in rw (← same) (omega arith)
hex_pairs-length (a ∷ []) bytes h = cc
hex_pairs-length (a ∷ b ∷ rest) bytes h = elim (Bool-cases (cuts_character rest)) [
  | inl cut ↦ cc (rw (cut, hex_pairs) at h)
  | inr whole ↦ elim (Option-cases (hex_pair a b)) [
    | inl no_digits ↦ cc (rw (whole, no_digits, hex_pairs) at h)
    | inr (v, digits) ↦
        let (bs, e, same) =
          cons_byte-some v (hex_pairs rest) bytes (rw (whole, digits, hex_pairs) at h) in
        rw (← same) (omega (arith, hex_pairs-length rest bs e))
  ]
]

hex_to_32-length : (s bytes : Bytes) → hex_to_32 s ≡ ok (some bytes) → length bytes ≡ 32
unfolding hex_to_32
hex_to_32-length s bytes h = elim (Bool-cases (length s == 64)) [
  | inr other ↦ cc (rw (other, hex_to_32) at h)
  | inl right ↦
      omega (
        arith,
        hex_pairs-length s bytes (rw (right, hex_to_32) at h),
        (==_iff (length s) 64).0 right,
      )
]

module _ {K V : Type 0} ⦃e : Eq K⦄ where
  -- An update keeps a property of the entries.
  All-upsert :
      (P : K × V → Type 0) (k : K) (f : V → V) (v : V) (m : Dict K V)
      → All P m
      → P (k, v)
      → ((w : V) → P (k, w) → P (k, f w))
      → All P (upsert k f v m)
  unfolding upsert
  All-upsert P k f v [] h new old = (new, tt)
  All-upsert P k f v ((j, w) ∷ m) h new old = elim (Bool-cases (j =? k)) [
    | inl same ↦
        let own : j ≡ k = (e.beq_iff j k).0 same in
        rw same (subst (λ i. P (i, f w)) (sym own) (old w (subst (λ i. P (i, w)) own h.0)), h.1)
    | inr other ↦ rw other (h.0, All-upsert P k f v m h.1 new old)
  ]

module _ (ndb : Ndb) (p : EventPacket) (v : IsPacket p) where
  offer_packet-IsWellFormed :
      (s : VisibilitySummary) (o : Option ReplaceableKey)
      → replaceable_key ndb p ≡ o
      → IsWellFormed s
      → IsWellFormed (offer_packet s p o)
  unfolding update_winner
  offer_packet-IsWellFormed s none h w = w
  offer_packet-IsWellFormed s (some key) h w =
      let address = replaceable_key-IsAddress ndb p key v h in
      let own : IsWinner (packet_winner p) = record {
        id_length = v.id_length;
        time_fits = v.time_fits;
      } in
      record {
        winners =
            All-upsert _ key (better (packet_winner p)) (packet_winner p) s.replaceable_winners
              w.winners (address, own)
              (λ other valid. (address, IsWinner-better (packet_winner p) other own valid.1));
        ids = w.ids;
        times = w.times;
      }

  mark_id-IsWellFormed :
      (s : VisibilitySummary) (o : Option Bytes)
      → ((id : Bytes) → o ≡ some id → length id ≡ 32)
      → IsWellFormed s
      → IsWellFormed (mark_id p.pubkey s o)
  mark_id-IsWellFormed s none h w = w
  mark_id-IsWellFormed s (some id) h w = record {
    winners = w.winners;
    ids =
        All-upsert (λ (entry : Bytes × List Bytes). length entry.0 ≡ 32) id (insert_pubkey p.pubkey)
          (p.pubkey ∷ []) s.deleted_ids w.ids (h id refl) (λ pubkeys l. l);
    times = w.times;
  }

  mark_address-IsWellFormed :
      (s : VisibilitySummary) (o : Option ReplaceableKey)
      → IsWellFormed s
      → IsWellFormed (mark_address p s o)
  mark_address-IsWellFormed s none w = w
  mark_address-IsWellFormed s (some key) w = elim (Bool-cases (key.pubkey =? p.pubkey)) [
    | inr other ↦ rw other w
    | inl own ↦ rw own (record {
      winners = w.winners;
      ids = w.ids;
      times =
          All-upsert (λ (entry : ReplaceableKey × ℕ). entry.1 < 2 ^ 64) key (later p.created_at)
            p.created_at s.deleted_addresses w.times v.time_fits
            (λ t l. omega (arith, v.time_fits));
    })
  ]

  ok_inj {ℓ} : {A : Type ℓ} {a b : A} → ok a ≡ ok b → a ≡ b
  ok_inj h = cc

  delete_id-IsWellFormed :
      (s t : VisibilitySummary) (value : Result TagElement)
      → IsWellFormed s
      → delete_id ndb p s value ≡ ok t
      → IsWellFormed t
  unfolding delete_id tag_value_to_id
  delete_id-IsWellFormed s t value w h =
      let (element, e, h') = >>=-eq-ok value _ h in
      let (id, f, done) = >>=-eq-ok (tag_value_to_id ndb element) _ h' in
      let (text, g, decoded) = >>=-eq-ok (tag_element_to_string ndb element) _ f in
      subst IsWellFormed (ok_inj done)
        (mark_id-IsWellFormed s id (λ i same. hex_to_32-length text i (decoded ∙ ap ok same)) w)

  delete_address-IsWellFormed :
      (s t : VisibilitySummary) (value : Result TagElement)
      → IsWellFormed s
      → delete_address ndb p s value ≡ ok t
      → IsWellFormed t
  unfolding delete_address delete_address_text
  delete_address-IsWellFormed s t value w h =
      let (element, e, h') = >>=-eq-ok value _ h in
      let (address, f, h'') = >>=-eq-ok (tag_element_to_string ndb element) _ h' in
      elim (Bool-cases (leb (length address) 255)) [
        | inr long ↦ subst IsWellFormed (ok_inj (rw (long, delete_address_text) at h'')) w
        | inl short ↦
            let (key, g, done) =
              >>=-eq-ok (parse_address_tag address) _ (rw (short, delete_address_text) at h'') in
            subst IsWellFormed (ok_inj done) (mark_address-IsWellFormed s key w)
      ]

  deletion_value-IsWellFormed :
      (s t : VisibilitySummary) (name : Bytes) (value : Result TagElement)
      → IsWellFormed s
      → deletion_value ndb p s name value ≡ ok t
      → IsWellFormed t
  unfolding deletion_value
  deletion_value-IsWellFormed s t name value w h = elim (Bool-cases (name =? e_text)) [
    | inl e_tag ↦ delete_id-IsWellFormed s t value w (rw (e_tag, deletion_value) at h)
    | inr not_e ↦ elim (Bool-cases (name =? a_text)) [
      | inl a_tag ↦ delete_address-IsWellFormed s t value w (rw (not_e, a_tag, deletion_value) at h)
      | inr not_a ↦ subst IsWellFormed (ok_inj (rw (not_e, not_a, deletion_value) at h)) w
    ]
  ]

  deletion_tag-IsWellFormed :
      (s t : VisibilitySummary) (tag : Result Tag)
      → IsWellFormed s
      → deletion_tag ndb p s tag ≡ ok t
      → IsWellFormed t
  unfolding deletion_tag
  deletion_tag-IsWellFormed s t (err e) w h = cc
  deletion_tag-IsWellFormed s t (ok []) w h = subst IsWellFormed (ok_inj h) w
  deletion_tag-IsWellFormed s t (ok (err e ∷ rest)) w h = cc
  deletion_tag-IsWellFormed s t (ok (ok name ∷ [])) w h = subst IsWellFormed (ok_inj h) w
  deletion_tag-IsWellFormed s t (ok (ok (TagElement.text n) ∷ value ∷ rest)) w h =
      deletion_value-IsWellFormed s t n value w h
  deletion_tag-IsWellFormed s t (ok (ok (TagElement.id n) ∷ value ∷ rest)) w h =
      subst IsWellFormed (ok_inj h) w

  deletion_tags-IsWellFormed :
      (s t : VisibilitySummary) (tags : List (Result Tag))
      → IsWellFormed s
      → fold_result (deletion_tag ndb p) s tags ≡ ok t
      → IsWellFormed t
  deletion_tags-IsWellFormed s t [] w h = subst IsWellFormed (ok_inj h) w
  deletion_tags-IsWellFormed s t (tag ∷ tags) w h =
      let (u, e, rest) = fold_result-eq-ok (deletion_tag ndb p) s tag tags h in
      deletion_tags-IsWellFormed u t tags (deletion_tag-IsWellFormed s u tag w e) rest

  pub add_packet-IsWellFormed :
      (s t : VisibilitySummary) → IsWellFormed s → add_packet ndb s p ≡ ok t → IsWellFormed t
  unfolding add_packet apply_deletion
  add_packet-IsWellFormed s t w h =
      let offered = offer_packet-IsWellFormed s (replaceable_key ndb p) refl w in
      elim (Bool-cases (p.kind == deletion_kind)) [
        | inr other ↦ subst IsWellFormed (ok_inj (rw (other, add_packet) at h)) offered
        | inl deletes ↦
            let (note, e, rest) =
              >>=-eq-ok (ndb.from_bytes p.payload) _ (rw (deletes, add_packet) at h) in
            deletion_tags-IsWellFormed _ t note.tags offered rest
      ]

add_packets-IsWellFormed :
    (ndb : Ndb) (packets : List EventPacket) (s t : VisibilitySummary)
    → All IsPacket packets
    → IsWellFormed s
    → fold_result (add_packet ndb) s packets ≡ ok t
    → IsWellFormed t
add_packets-IsWellFormed ndb [] s t v w h = let same : s ≡ t = cc in subst IsWellFormed same w
add_packets-IsWellFormed ndb (p ∷ packets) s t v w h =
    let (u, e, rest) = fold_result-eq-ok (add_packet ndb) s p packets h in
    add_packets-IsWellFormed ndb packets u t v.1 (add_packet-IsWellFormed ndb p v.0 s u w e) rest

pub summary_from_packets-IsWellFormed :
    (ndb : Ndb) (packets : List EventPacket) (t : VisibilitySummary)
    → All IsPacket packets
    → summary_from_packets ndb packets ≡ ok t
    → IsWellFormed t
unfolding summary_from_packets
summary_from_packets-IsWellFormed ndb packets t v h =
    add_packets-IsWellFormed ndb packets empty_summary t v
      (record { winners = tt; ids = tt; times = tt }) h
