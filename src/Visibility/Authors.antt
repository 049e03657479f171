-- ===== src/Visibility/Authors.antt =====
-- What follows from the pairwise description: only events of its own author can hide an event,
-- the order in which events were stored does not matter, and an address shows one event.
use searchnos_db.Prelude.{
  true, false, some, List, ok, ◌≡◌, refl, sym, ◌∙◌, arith, ◌=?◌, =?_iff, beq_refl, leb, &&-eq-true,
  ◌&&◌, ◌==◌, any_members, any_of_mem, bytes_eq, inl, inr, Option-cases, ◌∈◌, is_lt,
}
use searchnos_db.Note.{Ndb}
use searchnos_db.Event.{EventPacket}
use searchnos_db.Visibility.Address.{
  ReplaceableKey, key_eq, is_regular_replaceable_kind, is_addressable_kind,
}
use searchnos_db.Visibility.Summary.{compare_winner, packet_winner, replaceable_key, deletion_kind}
use searchnos_db.Visibility.Index.{VisibilityIndex, is_visible, from_packets}
use searchnos_db.Visibility.Pairwise.{
  supersedes, retracts, hides, is_shown, deletes_id, deletes_address,
}
use searchnos_db.Visibility.Order.{compare_winner-IsTotalOrder}
use searchnos_db.Visibility.Shown.{IdsAgree, is_visible-eq-is_shown}

module _ (ndb : Ndb) where
  replaceable_key-pubkey :
      (p : EventPacket) (key : ReplaceableKey)
      → replaceable_key ndb p ≡ some key
      → key.pubkey ≡ p.pubkey
  unfolding replaceable_key
  replaceable_key-pubkey p key h = ground arith

  supersedes-addresses :
      (q p : EventPacket)
      → supersedes ndb q p ≡ true
      → (key : ReplaceableKey) × (replaceable_key ndb p ≡ some key)
        × (replaceable_key ndb q ≡ some key)
  unfolding supersedes
  supersedes-addresses q p h = elim (Option-cases (replaceable_key ndb p)) [
    | inl none_p ↦ cc (rw (none_p, supersedes) at h)
    | inr (key, e) ↦ elim (Option-cases (replaceable_key ndb q)) [
      | inl none_q ↦ cc (rw (e, none_q, supersedes) at h)
      | inr (own, f) ↦
          let test = &&-eq-true (own =? key) _ (rw (e, f, supersedes) at h) in
          (key, e, rw (← (key_eq.beq_iff own key).0 test.0) f)
    ]
  ]

  supersedes-pubkey : (q p : EventPacket) → supersedes ndb q p ≡ true → q.pubkey ≡ p.pubkey
  supersedes-pubkey q p h =
      let (key, e, f) = supersedes-addresses q p h in
      sym (replaceable_key-pubkey q key f) ∙ replaceable_key-pubkey p key e

  retracts-pubkey : (q p : EventPacket) → retracts ndb q p ≡ true → q.pubkey ≡ p.pubkey
  unfolding retracts deletes_address
  retracts-pubkey q p h = elim (Option-cases (replaceable_key ndb p)) [
    | inl none_p ↦ cc (rw (none_p, retracts) at h)
    | inr (key, e) ↦
        let test : deletes_address ndb key q && leb p.created_at q.created_at ≡ true =
          rw (e, retracts) at h in
        ground (arith, =?_iff q.pubkey key.pubkey, replaceable_key-pubkey p key e)
  ]

  deletes_id-pubkey :
      (q p : EventPacket) → deletes_id ndb p.id p.pubkey q ≡ true → q.pubkey ≡ p.pubkey
  unfolding deletes_id
  deletes_id-pubkey q p h = ground (arith, =?_iff q.pubkey p.pubkey)

  hides-pubkey : (q p : EventPacket) → hides ndb q p ≡ true → q.pubkey ≡ p.pubkey
  unfolding hides
  hides-pubkey q p h =
      ground (arith, supersedes-pubkey q p, retracts-pubkey q p, deletes_id-pubkey q p)

  -- Deletion requests have no address.
  addressed-kind :
      (p : EventPacket) (key : ReplaceableKey)
      → replaceable_key ndb p ≡ some key
      → (p.kind == deletion_kind) ≡ false
  unfolding replaceable_key is_regular_replaceable_kind is_addressable_kind
  addressed-kind p key h = ground arith

  supersedes-eq :
      (q p : EventPacket) (key : ReplaceableKey)
      → replaceable_key ndb p ≡ some key
      → replaceable_key ndb q ≡ some key
      → supersedes ndb q p ≡ is_lt (compare_winner (packet_winner q) (packet_winner p))
  unfolding supersedes
  supersedes-eq q p key e f = rw (e, f, supersedes) (rw (beq_refl key))

  shown_beside :
      (packets : List EventPacket) (p q : EventPacket) (key : ReplaceableKey)
      → replaceable_key ndb p ≡ some key
      → replaceable_key ndb q ≡ some key
      → q ∈ packets
      → is_shown ndb packets p ≡ true
      → is_lt (compare_winner (packet_winner q) (packet_winner p)) ≡ false
  unfolding is_shown hides
  shown_beside packets p q key e f m shown = ground (
    arith,
    addressed-kind p key e,
    supersedes-eq q p key e f,
    any_of_mem (λ x. hides ndb x p) q packets m,
  )

-- The events by the author of `p` are the same in both batches.
abbrev pub SameByAuthor : List EventPacket → List EventPacket → EventPacket → Type 0
SameByAuthor xs ys p =
    (q : EventPacket) → q.pubkey ≡ p.pubkey → (q ∈ xs → q ∈ ys) × (q ∈ ys → q ∈ xs)

-- Two batches that hold the same events by the author of an event show that event alike: the
-- order in which events were stored, repetitions, and the events of other authors do not matter.
pub is_visible-of-SameByAuthor :
    (ndb : Ndb) (xs ys : List EventPacket) (i j : VisibilityIndex) (p : EventPacket)
    → from_packets ndb xs ≡ ok i
    → from_packets ndb ys ≡ ok j
    → SameByAuthor xs ys p
    → p ∈ xs
    → IdsAgree xs p
    → IdsAgree ys p
    → is_visible ndb i p ≡ is_visible ndb j p
unfolding is_shown
is_visible-of-SameByAuthor ndb xs ys i j p built_i built_j same m agree_x agree_y =
    is_visible-eq-is_shown ndb xs i p built_i m agree_x
    ∙ (rw (
        any_members (λ q. hides ndb q p) xs ys (λ q h. (same q (hides-pubkey ndb q p h)).0)
          (λ q h. (same q (hides-pubkey ndb q p h)).1)))
    ∙ sym (is_visible-eq-is_shown ndb ys j p built_j ((same p refl).0 m) agree_y)

-- Of the events of a batch with one address, the index shows one identifier at most.
pub visible_unique :
    (ndb : Ndb) (packets : List EventPacket) (index : VisibilityIndex) (p q : EventPacket)
    (key : ReplaceableKey)
    → from_packets ndb packets ≡ ok index
    → p ∈ packets
    → q ∈ packets
    → IdsAgree packets p
    → IdsAgree packets q
    → replaceable_key ndb p ≡ some key
    → replaceable_key ndb q ≡ some key
    → is_visible ndb index p ≡ true
    → is_visible ndb index q ≡ true
    → p.id ≡ q.id
visible_unique ndb packets index p q key built mp mq agree_p agree_q ep eq_ shown_p shown_q =
    let sp = sym (is_visible-eq-is_shown ndb packets index p built mp agree_p) ∙ shown_p in
    let sq = sym (is_visible-eq-is_shown ndb packets index q built mq agree_q) ∙ shown_q in
    ground (
      arith,
      shown_beside ndb packets p q key ep eq_ mq sp,
      shown_beside ndb packets q p key eq_ ep mp sq,
      compare_winner-IsTotalOrder.eq_of_cmp (packet_winner p) (packet_winner q),
      compare_winner-IsTotalOrder.cmp-reversed (packet_winner p) (packet_winner q),
    )
