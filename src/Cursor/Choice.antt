-- ===== src/Cursor/Choice.antt =====
-- The choice among cursors of any kind, by `best_from` (storage/cursor.rs).
use searchnos_db.Prelude.{
  ℕ, zero, suc, ◌+◌, Option, none, some, List, [], ◌∷◌, Result, ok, ◌≡◌, refl, subst, ap, get_elem?,
  set,
}
use searchnos_db.Event.{EventPacket}
use searchnos_db.Cursor.{better, best_from, index_of}
use searchnos_db.Cursor.Heads.{choose}

abbrev pub head_of : List EventPacket → Option EventPacket
head_of [] = none
head_of (p ∷ packets) = some p

-- Cursors and what they yield, one by one.
abbrev pub Each :
    {C : Type 0} → (C → List EventPacket → Type 0) → List C → List (List EventPacket) → Type 0
Each R [] [] = Unit
Each R [] (packets ∷ lists) = ⊥
Each R (c ∷ cursors) [] = ⊥
Each R (c ∷ cursors) (packets ∷ lists) = R c packets × Each R cursors lists

module _ {C : Type 0} (R : C → List EventPacket → Type 0) where
  pub Each-get_elem? :
      (i : ℕ) (cursors : List C) (lists : List (List EventPacket)) {packets : List EventPacket}
      → Each R cursors lists
      → get_elem? lists i ≡ some packets
      → (c : C) × (get_elem? cursors i ≡ some c) × R c packets
  Each-get_elem? i [] [] h e = cc
  Each-get_elem? i [] (l ∷ lists) h e = absurd h
  Each-get_elem? i (c ∷ cursors) [] h e = absurd h
  Each-get_elem? zero (c ∷ cursors) (l ∷ lists) h e = (c, refl, subst (R c) (cc) h.0)
  Each-get_elem? (suc i) (c ∷ cursors) (l ∷ lists) h e = Each-get_elem? i cursors lists h.1 e

  pub Each-set :
      (i : ℕ) (cursors : List C) (lists : List (List EventPacket)) (c : C)
      (packets : List EventPacket)
      → Each R cursors lists
      → R c packets
      → Each R (set cursors i c) (set lists i packets)
  Each-set i [] [] c packets h r = tt
  Each-set i [] (l ∷ lists) c packets h r = absurd h
  Each-set i (d ∷ cursors) [] c packets h r = absurd h
  Each-set zero (d ∷ cursors) (l ∷ lists) c packets h r = (r, h.1)
  Each-set (suc i) (d ∷ cursors) (l ∷ lists) c packets h r =
      (h.0, Each-set i cursors lists c packets h.1 r)

module _ {C : Type 0} (R T : C → List EventPacket → Type 0)
    (weaken : (c : C) (packets : List EventPacket) → R c packets → T c packets) where
  pub Each-weaken :
      (cursors : List C) (lists : List (List EventPacket))
      → Each R cursors lists
      → Each T cursors lists
  Each-weaken [] [] h = h
  Each-weaken [] (l ∷ lists) h = h
  Each-weaken (c ∷ cursors) [] h = h
  Each-weaken (c ∷ cursors) (l ∷ lists) h = (weaken c l h.0, Each-weaken cursors lists h.1)

-- Cursors of any kind whose peeks are right.
module _ {C : Type 0} (peek_at : C → C × Result (Option EventPacket))
    (Before After : C → List EventPacket → Type 0)
    (peeks : (c : C) (packets : List EventPacket)
      → Before c packets
      → (d : C) × (peek_at c ≡ (d, ok (head_of packets))) × After d packets) where
  pub best_from-choose :
      (i : ℕ) (best : Option (ℕ × EventPacket)) (cursors : List C) (lists : List (List EventPacket))
      → Each Before cursors lists
      → (peeked : List C) × (best_from peek_at i best cursors
          ≡ (peeked, ok (index_of (choose i best lists))))
        × Each After peeked lists
  unfolding best_from choose
  best_from-choose i best [] [] h = ([], refl, tt)
  best_from-choose i best [] (packets ∷ lists) h = absurd h
  best_from-choose i best (c ∷ cursors) [] h = absurd h
  best_from-choose i best (c ∷ cursors) ([] ∷ lists) h =
      let (d, e, after) = peeks c [] h.0 in
      let (peeked, f, rest) = best_from-choose (i + 1) best cursors lists h.1 in
      (
        d ∷ peeked,
        rw (e, best_from) (rw f (rw (ap (λ (x : C × Result (Option EventPacket)). x.0) e) refl)),
        (after, rest),
      )
  best_from-choose i best (c ∷ cursors) ((p ∷ packets) ∷ lists) h =
      let (d, e, after) = peeks c (p ∷ packets) h.0 in
      let (peeked, f, rest) = best_from-choose (i + 1) (better i p best) cursors lists h.1 in
      (
        d ∷ peeked,
        rw (e, best_from) (rw f (rw (ap (λ (x : C × Result (Option EventPacket)). x.0) e) refl)),
        (after, rest),
      )
