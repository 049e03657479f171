-- ===== src/Compaction/Merge.antt =====
-- The merge of a partition with new packets is sorted and holds the packets of both.
use mathlib.Core.List.{Perm, perm_middle, append-nil}
use mathlib.Core.List.Perm
use searchnos_db.Prelude.{
  ◌<◌, ◌≡◌, ◌⊎◌, false, ltb, cmp_bytes, arith, List, [], ◌∷◌, ◌++◌, is_gt, All, Bool-cases, inl,
  inr,
}
use searchnos_db.Event.{EventPacket}
use searchnos_db.Query.{compare_packets, sort_packets}
use searchnos_db.Query.Order.{
  IsBefore, IsSorted, IsBefore-of_gt, All-IsBefore, sort_packets-IsSorted, sort_packets-perm,
}
use searchnos_db.Compaction.{merge_packets}

pub All-merge_packets :
    (P : EventPacket → Type 0) (xs ys : List EventPacket)
    → All P xs
    → All P ys
    → All P (merge_packets xs ys)
unfolding merge_packets
All-merge_packets P [] ys h k = k
All-merge_packets P (x ∷ xs) [] h k = h
All-merge_packets P (x ∷ xs) (y ∷ ys) h k = elim (Bool-cases (is_gt (compare_packets x y))) [
  | inl new ↦ rw (new, merge_packets) (k.0, All-merge_packets P (x ∷ xs) ys h k.1)
  | inr old ↦ rw (old, merge_packets) (h.0, All-merge_packets P xs (y ∷ ys) h.1 k)
]

-- Two sorted lists merge into a sorted one.
pub merge_packets-IsSorted :
    (xs ys : List EventPacket) → IsSorted xs → IsSorted ys → IsSorted (merge_packets xs ys)
unfolding merge_packets
merge_packets-IsSorted [] ys s t = t
merge_packets-IsSorted (x ∷ xs) [] s t = s
merge_packets-IsSorted (x ∷ xs) (y ∷ ys) s t = elim (Bool-cases (is_gt (compare_packets x y))) [
  | inl new ↦
      let lead = IsBefore-of_gt x y new in
      rw (new, merge_packets)
        (
          All-merge_packets (IsBefore y) (x ∷ xs) ys (lead, All-IsBefore y x xs lead s.0) t.0,
          merge_packets-IsSorted (x ∷ xs) ys s t.1,
        )
  | inr old ↦
      rw (old, merge_packets)
        (
          All-merge_packets (IsBefore x) xs (y ∷ ys) s.0 (old, All-IsBefore x y ys old t.0),
          merge_packets-IsSorted xs (y ∷ ys) s.1 t,
        )
]

-- No packet is lost, and none is added.
pub merge_packets-perm : (xs ys : List EventPacket) → Perm (merge_packets xs ys) (xs ++ ys)
unfolding merge_packets
merge_packets-perm [] ys = Perm.refl ys
merge_packets-perm (x ∷ xs) [] = rw (append-nil (x ∷ xs)) (Perm.refl (x ∷ xs))
merge_packets-perm (x ∷ xs) (y ∷ ys) = elim (Bool-cases (is_gt (compare_packets x y))) [
  | inl new ↦
      rw (new, merge_packets)
        (Perm.trans (Perm.cons y (merge_packets-perm (x ∷ xs) ys))
          (Perm.symm (perm_middle (x ∷ xs) ys)))
  | inr old ↦ rw (old, merge_packets) (Perm.cons x (merge_packets-perm xs (y ∷ ys)))
]

-- A packet that is newer, or as new with an identifier that is not the greater one of the two.
abbrev pub IsNewer : EventPacket → EventPacket → Type 0
IsNewer p q =
    (q.created_at < p.created_at)
    ⊎ ((p.created_at ≡ q.created_at) × (is_gt (cmp_bytes p.id q.id) ≡ false))

-- Each packet is newer than all behind it.
abbrev pub IsNewestFirst : List EventPacket → Type 0
IsNewestFirst [] = Unit
IsNewestFirst (p ∷ packets) = All (IsNewer p) packets × IsNewestFirst packets

IsBefore-of_newer : (p q : EventPacket) → IsNewer p q → IsBefore p q
unfolding compare_packets
IsBefore-of_newer p q (inl newer) = ground arith
IsBefore-of_newer p q (inr (same, first)) = ground arith

IsNewer-of_before : (p q : EventPacket) → IsBefore p q → IsNewer p q
unfolding compare_packets
IsNewer-of_before p q h = elim (Bool-cases (ltb q.created_at p.created_at)) [
  | inl newer ↦ inl (ground arith)
  | inr other ↦ inr (ground arith, ground arith)
]

All-IsBefore-of_newer :
    (p : EventPacket) (packets : List EventPacket)
    → All (IsNewer p) packets
    → All (IsBefore p) packets
All-IsBefore-of_newer p [] h = tt
All-IsBefore-of_newer p (q ∷ packets) h =
    (IsBefore-of_newer p q h.0, All-IsBefore-of_newer p packets h.1)

All-IsNewer-of_before :
    (p : EventPacket) (packets : List EventPacket)
    → All (IsBefore p) packets
    → All (IsNewer p) packets
All-IsNewer-of_before p [] h = tt
All-IsNewer-of_before p (q ∷ packets) h =
    (IsNewer-of_before p q h.0, All-IsNewer-of_before p packets h.1)

IsSorted-of_newest_first : (packets : List EventPacket) → IsNewestFirst packets → IsSorted packets
IsSorted-of_newest_first [] h = tt
IsSorted-of_newest_first (p ∷ packets) h =
    (All-IsBefore-of_newer p packets h.0, IsSorted-of_newest_first packets h.1)

IsNewestFirst-of_sorted : (packets : List EventPacket) → IsSorted packets → IsNewestFirst packets
IsNewestFirst-of_sorted [] h = tt
IsNewestFirst-of_sorted (p ∷ packets) h =
    (All-IsNewer-of_before p packets h.0, IsNewestFirst-of_sorted packets h.1)

-- Packets that stand the newest first, and among those of one time by their identifiers, merge with
-- new packets that are sorted before into a list in this order, which is a permutation of all of
-- them.
pub merge_packets-IsNewestFirst :
    (existing new_packets : List EventPacket)
    → IsNewestFirst existing
    → IsNewestFirst (merge_packets existing (sort_packets new_packets))
      × Perm (merge_packets existing (sort_packets new_packets)) (existing ++ new_packets)
merge_packets-IsNewestFirst existing new_packets h = (
  IsNewestFirst-of_sorted (merge_packets existing (sort_packets new_packets)) (
      merge_packets-IsSorted existing (sort_packets new_packets)
        (IsSorted-of_newest_first existing h) (sort_packets-IsSorted new_packets)),
  Perm.trans (merge_packets-perm existing (sort_packets new_packets))
      (Perm.append (Perm.refl existing) (sort_packets-perm new_packets)),
)
