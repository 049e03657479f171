-- ===== src/Visibility/Shown.antt =====
-- The index shows an event exactly if no event among those that it was built from hides it.
use searchnos_db.Prelude.{
  ℕ, Bool, false, Option, none, some, List, [], ◌∷◌, ok, ◌≡◌, refl, sym, arith, ◌=?◌, =?_iff,
  beq_refl, ◌⊎◌, ◌||◌, ◌&&◌, not, any, any_or, any-false, bytes_eq, inl, inr, Bool-cases,
  Option-cases, ◌∈◌, is_lt, is_gt,
}
use searchnos_db.Prelude.Dict.{join}
use searchnos_db.Note.{Ndb}
use searchnos_db.Event.{EventPacket}
use searchnos_db.Visibility.Address.{ReplaceableKey, key_eq}
use searchnos_db.Visibility.Summary.{
  Winner, better, later, compare_winner, packet_winner, replaceable_key,
}
use searchnos_db.Visibility.Index.{
  VisibilityIndex, is_after, is_other, is_superseded, is_after_deletion, is_visible, from_packets,
}
use searchnos_db.Visibility.Pairwise.{supersedes, retracts, hides, is_shown, deletes_id}
use searchnos_db.Visibility.Order.{compare_winner-IsTotalOrder}
use searchnos_db.Visibility.Gather.{winner_in, candidate, proposed}
use searchnos_db.Visibility.DeletedAddresses.{deadline, deadline_in}
use searchnos_db.Visibility.Merged.{
  winner-from_packets, is_deleted_by-from_packets, deadline-from_packets,
}
open compare_winner-IsTotalOrder use {cmp-self, eq_of_cmp, cmp-reversed, lt_trans}

-- Packets with the identifier of `p` have its time: an identifier is a hash of the event.
abbrev pub IdsAgree : List EventPacket → EventPacket → Type 0
IdsAgree packets p = (q : EventPacket) → q ∈ packets → q.id ≡ p.id → q.created_at ≡ p.created_at

-- A winner beats a packet.
abbrev pub beats : Option Winner → EventPacket → Bool
beats none p = false
beats (some w) p = is_lt (compare_winner w (packet_winner p))

beats-better :
    (u v x : Winner)
    → is_lt (compare_winner (better u v) x)
      ≡ (is_lt (compare_winner u x) || is_lt (compare_winner v x))
beats-better u v x = ground (arith, eq_of_cmp u v, cmp-reversed u v, lt_trans u v x, lt_trans v u x)

beats-join :
    (o q : Option Winner) (p : EventPacket) → beats (join better o q) p ≡ (beats o p || beats q p)
beats-join none q p = refl
beats-join (some u) none p = ground arith
beats-join (some u) (some v) p = beats-better u v (packet_winner p)

pub is_after-join :
    (o q : Option ℕ) (c : ℕ) → is_after (join later o q) c ≡ (is_after o c && is_after q c)
is_after-join none q c = refl
is_after-join (some t) none c = ground arith
is_after-join (some t) (some u) c = ground arith

join-source :
    (o q : Option Winner) (w : Winner) → join better o q ≡ some w → (o ≡ some w) ⊎ (q ≡ some w)
join-source none q w h = inr h
join-source (some u) none w h = inl h
join-source (some u) (some v) w h = ground arith

proposed-source :
    (key : ReplaceableKey) (q : EventPacket) (o : Option ReplaceableKey) (w : Winner)
    → proposed key q o ≡ some w
    → packet_winner q ≡ w
proposed-source key q none w h = cc
proposed-source key q (some own) w h = elim (Bool-cases (own =? key)) [
  | inl same ↦ cc (rw same at h)
  | inr other ↦ cc (rw other at h)
]

-- The joined winner is not behind either side.
join-bound_left :
    (x : Winner) (q : Option Winner)
    → (w : Winner) × (join better (some x) q ≡ some w) × (is_gt (compare_winner w x) ≡ false)
join-bound_left x none = (x, refl, rw (cmp-self x))
join-bound_left x (some v) = (better x v, refl, ground (arith, cmp-self x, cmp-reversed x v))

join-bound_right :
    (o : Option Winner) (v x : Winner)
    → is_gt (compare_winner v x) ≡ false
    → (w : Winner) × (join better o (some v) ≡ some w) × (is_gt (compare_winner w x) ≡ false)
join-bound_right none v x h = (v, refl, h)
join-bound_right (some u) v x h =
    (better u v, refl, ground (arith, cmp-self x, eq_of_cmp v x, lt_trans u v x, cmp-reversed u v))

module _ (ndb : Ndb) (p : EventPacket) (key : ReplaceableKey)
    (addressed : replaceable_key ndb p ≡ some key) where
  beats-proposed :
      (q : EventPacket) (o : Option ReplaceableKey)
      → replaceable_key ndb q ≡ o
      → supersedes ndb q p ≡ beats (proposed key q o) p
  unfolding supersedes
  beats-proposed q none e = rw (addressed, e, supersedes)
  beats-proposed q (some own) e =
      rw (addressed, e, supersedes)
        (elim (Bool-cases (own =? key)) [ inl same ↦ rw same | inr other ↦ rw other ])

  pub superseded_iff :
      (packets : List EventPacket)
      → any (λ q. supersedes ndb q p) packets ≡ beats (winner_in ndb key packets) p
  unfolding winner_in candidate
  superseded_iff [] = refl
  superseded_iff (q ∷ packets) =
      rw (beats-join (candidate ndb key q) (winner_in ndb key packets) p)
        (rw (superseded_iff packets) (rw (beats-proposed q (replaceable_key ndb q) refl)))

  retracts-deadline :
      (q : EventPacket) → is_after (deadline ndb key q) p.created_at ≡ not (retracts ndb q p)
  unfolding deadline retracts
  retracts-deadline q = rw (addressed, retracts) (ground arith)

  pub retracted_iff :
      (packets : List EventPacket)
      → is_after (deadline_in ndb key packets) p.created_at
        ≡ not (any (λ q. retracts ndb q p) packets)
  unfolding deadline_in
  retracted_iff [] = refl
  retracted_iff (q ∷ packets) =
      rw (is_after-join (deadline ndb key q) (deadline_in ndb key packets) p.created_at)
        (rw (retracted_iff packets) (rw (retracts-deadline q) (ground arith)))

  -- The winner of an address is one of its packets.
  winner_source :
      (packets : List EventPacket) (w : Winner)
      → winner_in ndb key packets ≡ some w
      → (q : EventPacket) × (q ∈ packets) × (packet_winner q ≡ w)
  unfolding winner_in candidate
  winner_source [] w h = cc
  winner_source (q ∷ packets) w h =
      elim (join-source (candidate ndb key q) (winner_in ndb key packets) w h) [
        | inl here ↦ (q, inl refl, proposed-source key q (replaceable_key ndb q) w here)
        | inr there ↦ let (r, m, same) = winner_source packets w there in (r, inr m, same)
      ]

  -- The winner of an address is not behind any of its packets.
  winner_bound :
      (packets : List EventPacket)
      → p ∈ packets
      → (w : Winner) × (winner_in ndb key packets ≡ some w)
        × (is_gt (compare_winner w (packet_winner p)) ≡ false)
  unfolding winner_in candidate
  winner_bound [] m = elim m [ ]
  winner_bound (q ∷ packets) (inl here) = rw here (
      rw (addressed, candidate)
        (rw (beq_refl key) (join-bound_left (packet_winner p) (winner_in ndb key packets))))
  winner_bound (q ∷ packets) (inr later_on) =
      let (w, found, bound) = winner_bound packets later_on in
      rw found (join-bound_right (candidate ndb key q) w (packet_winner p) bound)

  other_iff :
      (packets : List EventPacket)
      → p ∈ packets
      → IdsAgree packets p
      → is_other (winner_in ndb key packets) p.id ≡ any (λ q. supersedes ndb q p) packets
  other_iff packets m agree =
      let (w, found, bound) = winner_bound packets m in
      let (q, mq, same) = winner_source packets w found in
      rw (superseded_iff packets) (
        rw found (
          ground (
            arith,
            =?_iff w.id p.id,
            agree q mq,
            cmp-self (packet_winner p),
            eq_of_cmp w (packet_winner p),
          )))

module _ (ndb : Ndb) (packets : List EventPacket) (p : EventPacket) where
  pub hidden-eq : any (λ q. hides ndb q p) packets ≡ (
      any (λ q. supersedes ndb q p) packets
      || (any (deletes_id ndb p.id p.pubkey) packets || any (λ q. retracts ndb q p) packets))
  unfolding hides
  hidden-eq =
      rw
        (any_or (λ q. supersedes ndb q p) (λ q. deletes_id ndb p.id p.pubkey q || retracts ndb q p)
          packets)
        (rw (any_or (deletes_id ndb p.id p.pubkey) (λ q. retracts ndb q p) packets))

module _ (ndb : Ndb) (packets : List EventPacket) (index : VisibilityIndex) (p : EventPacket)
    (built : from_packets ndb packets ≡ ok index) where
  superseded-eq :
      p ∈ packets
      → IdsAgree packets p
      → is_superseded ndb index p ≡ any (λ q. supersedes ndb q p) packets
  unfolding is_superseded supersedes
  superseded-eq m agree = elim (Option-cases (replaceable_key ndb p)) [
    | inl none_here ↦
        rw (none_here, is_superseded)
          (sym (any-false (λ q. supersedes ndb q p) packets (λ q. rw (none_here, supersedes))))
    | inr (key, e) ↦
        rw (e, is_superseded)
          (rw (winner-from_packets ndb packets index built key)
            (other_iff ndb p key e packets m agree))
  ]

  after-eq : is_after_deletion ndb index p ≡ not (any (λ q. retracts ndb q p) packets)
  unfolding is_after_deletion retracts
  after-eq = elim (Option-cases (replaceable_key ndb p)) [
    | inl none_here ↦
        rw (none_here, is_after_deletion)
          (rw (any-false (λ q. retracts ndb q p) packets (λ q. rw (none_here, retracts))))
    | inr (key, e) ↦
        rw (e, is_after_deletion)
          (rw (deadline-from_packets ndb packets index built key)
            (retracted_iff ndb p key e packets))
  ]

-- The index that is built from a batch of packets shows an event of the batch exactly if the
-- event is a deletion request or no event of the batch hides it: none supersedes it at its
-- address, none deletes its identifier, and none deletes its address from its time on. Packets
-- with its identifier are assumed to have its time.
pub is_visible-eq-is_shown :
    (ndb : Ndb) (packets : List EventPacket) (index : VisibilityIndex) (p : EventPacket)
    → from_packets ndb packets ≡ ok index
    → p ∈ packets
    → IdsAgree packets p
    → is_visible ndb index p ≡ is_shown ndb packets p
unfolding is_visible is_shown
is_visible-eq-is_shown ndb packets index p built m agree = rw (hidden-eq ndb packets p) (
    rw (superseded-eq ndb packets index p built m agree) (
      rw (is_deleted_by-from_packets ndb packets index built p.id p.pubkey)
        (rw (after-eq ndb packets index p built) (ground arith))))
