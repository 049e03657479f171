-- ===== src/Cursor/Heads.antt =====
-- The choice of the best cursor, on the lists of what the cursors yield, and the merge of these
-- (storage/cursor.rs).
use searchnos_db.Prelude.{
  ℕ, suc, ◌+◌, true, false, Option, none, some, List, [], ◌∷◌, ◌≡◌, refl, sym, ap, ◌∙◌, arith,
  Bool-cases, inl, inr, get_elem?, set, is_lt, is_gt, if◌then◌else◌, cmp_bytes-IsTotalOrder,
}
use searchnos_db.Event.{EventPacket}
use searchnos_db.Query.{compare_packets}
use searchnos_db.Compaction.{merge_packets}
use searchnos_db.Cursor.{better}
open cmp_bytes-IsTotalOrder use {eq_of_cmp, cmp-reversed, lt_trans}

-- The stable merge of all lists.
unfoldable pub merge_all : List (List EventPacket) → List EventPacket
merge_all [] = []
merge_all (packets ∷ lists) = merge_packets packets (merge_all lists)

-- The choice of `best_from` on the lists.
unfoldable pub choose :
    ℕ → Option (ℕ × EventPacket) → List (List EventPacket) → Option (ℕ × EventPacket)
choose index best [] = best
choose index best ([] ∷ lists) = choose (index + 1) best lists
choose index best ((p ∷ packets) ∷ lists) = choose (index + 1) (better index p best) lists

abbrev moved : ℕ → Option (ℕ × EventPacket) → Option (ℕ × EventPacket)
moved n none = none
moved n (some (i, p)) = some (n + i, p)

abbrev shifted : Option (ℕ × EventPacket) → Option (ℕ × EventPacket)
shifted none = none
shifted (some (i, p)) = some (suc i, p)

abbrev prefer : EventPacket → Option (ℕ × EventPacket) → Option (ℕ × EventPacket)
prefer p none = some (0, p)
prefer p (some (i, q)) = if is_gt (compare_packets p q) then some (suc i, q) else some (0, p)

-- The same choice from the right.
first_best : List (List EventPacket) → Option (ℕ × EventPacket)
first_best [] = none
first_best ([] ∷ lists) = shifted (first_best lists)
first_best ((p ∷ packets) ∷ lists) = prefer p (first_best lists)

abbrev combine : Option (ℕ × EventPacket) → Option (ℕ × EventPacket) → Option (ℕ × EventPacket)
combine none o = o
combine (some b) none = some b
combine (some b) (some c) = if is_lt (compare_packets c.1 b.1) then some c else some b

is_lt-reversed : (p q : EventPacket) → is_lt (compare_packets q p) ≡ is_gt (compare_packets p q)
unfolding compare_packets
is_lt-reversed p q = ground (arith, cmp-reversed p.id q.id)

is_lt_trans :
    (p q r : EventPacket)
    → is_lt (compare_packets p q) ≡ true
    → is_lt (compare_packets q r) ≡ true
    → is_lt (compare_packets p r) ≡ true
unfolding compare_packets
is_lt_trans p q r h k = ground (arith, lt_trans p.id q.id r.id)

is_lt-weaken :
    (p q r : EventPacket)
    → is_lt (compare_packets q p) ≡ false
    → is_lt (compare_packets q r) ≡ true
    → is_lt (compare_packets p r) ≡ true
unfolding compare_packets
is_lt-weaken p q r h k =
    ground (arith, eq_of_cmp p.id q.id, cmp-reversed p.id q.id, lt_trans p.id q.id r.id)

combine-better :
    (i : ℕ) (p : EventPacket) (best o : Option (ℕ × EventPacket))
    → combine (better i p best) (moved (i + 1) o) ≡ combine best (moved i (prefer p o))
unfolding better
combine-better i p none none = ground arith
combine-better i p none (some (j, q)) = ground (arith, is_lt-reversed p q)
combine-better i p (some (b, x)) none = ground arith
combine-better i p (some (b, x)) (some (j, q)) =
    ground (arith, is_lt-reversed p q, is_lt_trans q p x, is_lt-weaken p q x)

moved-shifted : (i : ℕ) (o : Option (ℕ × EventPacket)) → moved (i + 1) o ≡ moved i (shifted o)
moved-shifted i none = refl
moved-shifted i (some (j, q)) = ground arith

choose-combine :
    (i : ℕ) (best : Option (ℕ × EventPacket)) (lists : List (List EventPacket))
    → choose i best lists ≡ combine best (moved i (first_best lists))
unfolding choose first_best
choose-combine i none [] = refl
choose-combine i (some b) [] = refl
choose-combine i best ([] ∷ lists) =
    choose-combine (i + 1) best lists ∙ ap (combine best) (moved-shifted i (first_best lists))
choose-combine i best ((p ∷ packets) ∷ lists) =
    choose-combine (i + 1) (better i p best) lists ∙ combine-better i p best (first_best lists)

-- What the choice says of the merge.
abbrev pub IsHead : List (List EventPacket) → Option (ℕ × EventPacket) → Type 0
IsHead lists none = merge_all lists ≡ []
IsHead lists (some (i, p)) =
    (packets : List EventPacket) × (get_elem? lists i ≡ some (p ∷ packets))
    × (merge_all lists ≡ p ∷ merge_all (set lists i packets))

merge_packets-nil : (packets : List EventPacket) → merge_packets packets [] ≡ packets
unfolding merge_packets
merge_packets-nil [] = refl
merge_packets-nil (p ∷ packets) = refl

IsHead-shifted :
    (lists : List (List EventPacket)) (o : Option (ℕ × EventPacket))
    → IsHead lists o
    → IsHead ([] ∷ lists) (shifted o)
unfolding merge_all merge_packets
IsHead-shifted lists none h = h
IsHead-shifted lists (some (i, p)) (packets, e, f) = (packets, e, f)

IsHead-prefer :
    (p : EventPacket) (packets : List EventPacket) (lists : List (List EventPacket))
    (o : Option (ℕ × EventPacket))
    → IsHead lists o
    → IsHead ((p ∷ packets) ∷ lists) (prefer p o)
unfolding merge_all merge_packets
IsHead-prefer p packets lists none h = (
  packets,
  refl,
  rw h (merge_packets-nil (p ∷ packets) ∙ ap (λ l. p ∷ l) (sym (merge_packets-nil packets))),
)
IsHead-prefer p packets lists (some (i, q)) (others, e, f) =
    elim (Bool-cases (is_gt (compare_packets p q))) [
      | inl later ↦ rw later (others, e, rw f (rw (later, merge_packets) refl))
      | inr first ↦ rw first (packets, refl, rw f (rw (first, merge_packets) refl))
    ]

first_best-IsHead : (lists : List (List EventPacket)) → IsHead lists (first_best lists)
unfolding first_best
first_best-IsHead [] = unfold merge_all in refl
first_best-IsHead ([] ∷ lists) = IsHead-shifted lists (first_best lists) (first_best-IsHead lists)
first_best-IsHead ((p ∷ packets) ∷ lists) =
    IsHead-prefer p packets lists (first_best lists) (first_best-IsHead lists)

moved_zero : (o : Option (ℕ × EventPacket)) → moved 0 o ≡ o
moved_zero none = refl
moved_zero (some (i, p)) = ground arith

-- The chosen packet is the head of the merge, and the merge goes on without it.
pub choose-IsHead : (lists : List (List EventPacket)) → IsHead lists (choose 0 none lists)
choose-IsHead lists =
    rw (choose-combine 0 none lists) (rw (moved_zero (first_best lists)) (first_best-IsHead lists))
