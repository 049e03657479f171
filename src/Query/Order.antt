-- ===== src/Query/Order.antt =====
-- `compare_packets` orders packets, and `sort_packets` sorts them.
use mathlib.Core.List.{Perm}
use mathlib.Core.List.Perm
use searchnos_db.Prelude.{
  true, false, List, [], ◌∷◌, ◌≡◌, arith, cmp_bytes-IsTotalOrder, is_gt, All, Bool-cases, inl, inr,
}
use searchnos_db.Event.{EventPacket}
use searchnos_db.Query.{compare_packets, insert_packet, sort_packets}
open cmp_bytes-IsTotalOrder use {cmp-self, eq_of_cmp, cmp-reversed, lt_trans}

-- `q` does not come before `p`.
abbrev pub IsBefore : EventPacket → EventPacket → Type 0
IsBefore p q = is_gt (compare_packets p q) ≡ false

abbrev pub IsSorted : List EventPacket → Type 0
IsSorted [] = Unit
IsSorted (p ∷ packets) = All (IsBefore p) packets × IsSorted packets

pub IsBefore-trans : (p q r : EventPacket) → IsBefore p q → IsBefore q r → IsBefore p r
unfolding compare_packets
IsBefore-trans p q r h k =
    ground (arith, eq_of_cmp p.id q.id, eq_of_cmp q.id r.id, lt_trans p.id q.id r.id)

pub IsBefore-of_gt : (p q : EventPacket) → is_gt (compare_packets p q) ≡ true → IsBefore q p
unfolding compare_packets
IsBefore-of_gt p q h = ground (arith, cmp-reversed p.id q.id)

pub All-IsBefore :
    (p q : EventPacket) (packets : List EventPacket)
    → IsBefore p q
    → All (IsBefore q) packets
    → All (IsBefore p) packets
All-IsBefore p q [] h k = tt
All-IsBefore p q (r ∷ packets) h k = (IsBefore-trans p q r h k.0, All-IsBefore p q packets h k.1)

pub All-insert_packet :
    (P : EventPacket → Type 0) (p : EventPacket) (packets : List EventPacket)
    → P p
    → All P packets
    → All P (insert_packet p packets)
unfolding insert_packet
All-insert_packet P p [] h k = (h, tt)
All-insert_packet P p (q ∷ packets) h k = elim (Bool-cases (is_gt (compare_packets p q))) [
  | inl follows ↦ rw follows (k.0, All-insert_packet P p packets h k.1)
  | inr leads ↦ rw leads (h, k)
]

insert_packet-IsSorted :
    (p : EventPacket) (packets : List EventPacket)
    → IsSorted packets
    → IsSorted (insert_packet p packets)
unfolding insert_packet
insert_packet-IsSorted p [] s = (tt, tt)
insert_packet-IsSorted p (q ∷ packets) s = elim (Bool-cases (is_gt (compare_packets p q))) [
  | inl follows ↦ rw follows (
    All-insert_packet (IsBefore q) p packets (IsBefore-of_gt p q follows) s.0,
    insert_packet-IsSorted p packets s.1,
  )
  | inr leads ↦ rw leads ((leads, All-IsBefore p q packets leads s.0), s)
]

-- `sort_packets` leaves each packet before all that it does not follow in the order of
-- `compare_packets`.
pub sort_packets-IsSorted : (packets : List EventPacket) → IsSorted (sort_packets packets)
unfolding sort_packets
sort_packets-IsSorted [] = tt
sort_packets-IsSorted (p ∷ packets) =
    insert_packet-IsSorted p (sort_packets packets) (sort_packets-IsSorted packets)

insert_packet-perm :
    (p : EventPacket) (packets : List EventPacket) → Perm (insert_packet p packets) (p ∷ packets)
unfolding insert_packet
insert_packet-perm p [] = Perm.refl (p ∷ [])
insert_packet-perm p (q ∷ packets) = elim (Bool-cases (is_gt (compare_packets p q))) [
  | inl follows ↦
      rw follows (Perm.trans (Perm.cons q (insert_packet-perm p packets)) (Perm.swap p q packets))
  | inr leads ↦ rw leads (Perm.refl (p ∷ q ∷ packets))
]

pub sort_packets-perm : (packets : List EventPacket) → Perm (sort_packets packets) packets
unfolding sort_packets
sort_packets-perm [] = Perm.refl []
sort_packets-perm (p ∷ packets) =
    Perm.trans (insert_packet-perm p (sort_packets packets))
      (Perm.cons p (sort_packets-perm packets))
