-- ===== src/Search/Terms/Matches.antt =====
-- What the events that a term search returns have to do with the events that contain the term.
use searchnos_db.Prelude.{
  drop-drop, ℕ, zero, suc, ◌+◌, ◌-◌, ◌≤◌, ◌<◌, Bytes, true, leb, ◌=?◌, beq_refl, Option, none, some,
  List, [], ◌∷◌, ◌≡◌, ◌⊎◌, refl, ◌∙◌, ap, arith, length, take, drop, length-drop, any_of_mem,
  bytes_eq, nat_eq, inl, inr, Bool-cases, ◌∈◌, contains,
}
use searchnos_db.Search.Terms.{
  offset_at, windows, record_text, contains_term, search_index_event_at, matched_event,
  insert_index, insert_matched, collect_matches, search_index_term_matches, insertion_loop,
  insertion_point,
}
use searchnos_db.Search.Terms.Position.{IsMonotonic, search_index_event_at_iff}

-- The needle stands in the haystack at a position.
abbrev pub Occurs : Bytes → Bytes → ℕ → Type 0
Occurs needle haystack p =
    (p + length needle ≤ length haystack) × (take (length needle) (drop p haystack) ≡ needle)

-- What `memchr` documents of `find_iter`: it goes over non-overlapping occurrences, from the
-- left, and passes over none but those that overlap one before.
pub record FindsOccurrences (find_iter : Bytes → Bytes → List ℕ) : Type 0 where
  pub sound :
      (needle haystack : Bytes) (p : ℕ) → p ∈ find_iter needle haystack → Occurs needle haystack p
  pub disjoint :
      (needle haystack : Bytes) (p q : ℕ)
      → p ∈ find_iter needle haystack
      → q ∈ find_iter needle haystack
      → p < q
      → p + length needle ≤ q
  pub complete :
      (needle haystack : Bytes) (p : ℕ)
      → 0 < length needle
      → Occurs needle haystack p
      → (q : ℕ) × (q ∈ find_iter needle haystack) × (q ≤ p) × (p < q + length needle)

module _ {A : Type 0} where
  take-take : (n m : ℕ) (xs : List A) → n ≤ m → take n (take m xs) ≡ take n xs
  take-take zero m xs h = refl
  take-take (suc n) zero xs h = absurd (omega arith)
  take-take (suc n) (suc m) [] h = refl
  take-take (suc n) (suc m) (x ∷ xs) h = ap (λ l. x ∷ l) (take-take n m xs (omega arith))

  take-drop-take :
      (n k m : ℕ) (xs : List A) → k + n ≤ m → take n (drop k (take m xs)) ≡ take n (drop k xs)
  take-drop-take n zero m xs h = take-take n m xs (omega arith)
  take-drop-take n (suc k) zero xs h = absurd (omega arith)
  take-drop-take zero (suc k) (suc m) [] h = refl
  take-drop-take (suc n) (suc k) (suc m) [] h = refl
  take-drop-take n (suc k) (suc m) (x ∷ xs) h = take-drop-take n k m xs (omega arith)

  length-take_min : (m n : ℕ) (xs : List A) → n ≤ m → n ≤ length xs → n ≤ length (take m xs)
  length-take_min zero n xs h k = omega arith
  length-take_min (suc m) n [] h k = omega arith
  length-take_min (suc m) zero (x ∷ xs) h k = omega arith
  length-take_min (suc m) (suc n) (x ∷ xs) h k =
      omega (arith, length-take_min m n xs (omega arith) (omega arith))

-- Every window that fits is a window.
windows-mem : (n k : ℕ) (xs : Bytes) → 0 < n → k + n ≤ length xs → take n (drop k xs) ∈ windows n xs
unfolding windows
windows-mem n k [] pos h = absurd (omega arith)
windows-mem n zero (x ∷ xs) pos h =
    let fits : leb n (suc (length xs)) ≡ true = ground arith in rw fits (inl refl)
windows-mem n (suc k) (x ∷ xs) pos h =
    let fits : leb n (suc (length xs)) ≡ true = ground arith in
    rw fits (inr (windows-mem n k xs pos (omega arith)))

contains_term_at :
    (term text : Bytes) (k : ℕ)
    → 0 < length term
    → Occurs term text k
    → contains_term term text ≡ true
unfolding contains_term
contains_term_at term text k pos (fits, found) =
    any_of_mem (λ window. window =? term) (take (length term) (drop k text))
      (windows (length term) text) (windows-mem (length term) k text pos fits)
      (rw found (beq_refl term))

-- An occurrence within the part of an event is one in the event's text.
Occurs-record_text :
    (offsets : List ℕ) (term text : Bytes) (i p : ℕ)
    → Occurs term text p
    → offset_at offsets i ≤ p
    → p + length term ≤ offset_at offsets (i + 1)
    → Occurs term (record_text offsets text i) (p - offset_at offsets i)
unfolding record_text
Occurs-record_text offsets term text i p (fits, found) low high =
    let start = offset_at offsets i in
    let m = offset_at offsets (i + 1) - start in
    (
      length-take_min m (p - start + length term) (drop start text) (omega arith)
          (omega (arith, length-drop start text)),
      take-drop-take (length term) (p - start) m (drop start text) (omega arith)
          ∙ (rw (drop-drop start (p - start) p text (omega arith)) found),
    )

mem-insert_matched :
    (o : Option ℕ) (i : ℕ) (set : List ℕ) → i ∈ insert_matched o set → (o ≡ some i) ⊎ (i ∈ set)
unfolding insert_index
mem-insert_matched none i set m = inr m
mem-insert_matched (some j) i set m = elim (Bool-cases (contains set j)) [
  | inl old ↦ inr (rw old at m)
  | inr new ↦ elim (rw new at m) [ inl here ↦ inl (ap some here) | inr there ↦ inr there ]
]

collect_matches-source :
    (offsets : List ℕ) (len : ℕ) (positions : List ℕ) (i : ℕ)
    → i ∈ collect_matches offsets len positions
    → (p : ℕ) × (p ∈ positions) × (matched_event offsets len p ≡ some i)
unfolding collect_matches
collect_matches-source offsets len [] i m = elim m [ ]
collect_matches-source offsets len (p ∷ positions) i m =
    elim (mem-insert_matched (matched_event offsets len p) i (collect_matches offsets len positions)
      m) [
        | inl here ↦ (p, inl refl, here)
        | inr there ↦
            let (q, mq, e) = collect_matches-source offsets len positions i there in (q, inr mq, e)
      ]

matched_event-bounds :
    (offsets : List ℕ) (len p i : ℕ)
    → IsMonotonic offsets
    → matched_event offsets len p ≡ some i
    → (offset_at offsets i ≤ p) × (p + len ≤ offset_at offsets (i + 1)) × (i + 1 < length offsets)
unfolding matched_event
matched_event-bounds offsets len p i mono h =
    ground (arith, (search_index_event_at_iff offsets p i mono).0)

-- Every event that the search for a term returns contains the term.
pub search_index_term_matches_sound :
    (find_iter : Bytes → Bytes → List ℕ) (offsets : List ℕ) (text term : Bytes) (i : ℕ)
    → FindsOccurrences find_iter
    → IsMonotonic offsets
    → 0 < length term
    → i ∈ search_index_term_matches find_iter offsets text term
    → contains_term term (record_text offsets text i) ≡ true
unfolding search_index_term_matches
search_index_term_matches_sound find_iter offsets text [] i finds mono pos m = absurd (omega arith)
search_index_term_matches_sound find_iter offsets text (c ∷ cs) i finds mono pos m =
    let term = c ∷ cs in
    let (p, mp, e) = collect_matches-source offsets (length term) (find_iter term text) i m in
    let b = matched_event-bounds offsets (length term) p i mono e in
    contains_term_at term (record_text offsets text i) (p - offset_at offsets i) pos
      (Occurs-record_text offsets term text i p (finds.sound term text p mp) b.0 b.1)

-- The index of two events with the texts `c` and `c c`.
abbrev pub pair_offsets : List ℕ
pair_offsets = 0 ∷ 1 ∷ 3 ∷ []

abbrev pub triple : ℕ → Bytes
triple c = c ∷ c ∷ c ∷ []

collect_matches-zeros :
    (positions : List ℕ)
    → ((p : ℕ) → p ∈ positions → p ≡ 0)
    → collect_matches pair_offsets 2 positions ≡ []
unfolding collect_matches matched_event search_index_event_at insertion_point insertion_loop
collect_matches-zeros [] h = refl
collect_matches-zeros (p ∷ positions) h =
    rw (h p (inl refl)) (collect_matches-zeros positions (λ q m. h q (inr m)))

only_zero :
    (find_iter : Bytes → Bytes → List ℕ) (c p : ℕ)
    → FindsOccurrences find_iter
    → p ∈ find_iter (c ∷ c ∷ []) (triple c)
    → p ≡ 0
only_zero find_iter c zero finds m = refl
only_zero find_iter c (suc p) finds m =
    let term = c ∷ c ∷ [] in
    let (q, mq, le_q, near) = finds.complete term (triple c) 0 (omega arith) (omega arith, refl) in
    let fits = (finds.sound term (triple c) (suc p) m).0 in
    let far = finds.disjoint term (triple c) q (suc p) mq m (omega arith) in absurd (omega arith)

-- A match across the border of two events can hide a match within the second: for two events
-- whose texts are `c` and `c c`, the search for `c c` returns no event, and the second contains it.
pub search_index_term_matches_misses :
    (find_iter : Bytes → Bytes → List ℕ) (c : ℕ)
    → FindsOccurrences find_iter
    → (search_index_term_matches find_iter pair_offsets (triple c) (c ∷ c ∷ []) ≡ [])
      × (contains_term (c ∷ c ∷ []) (record_text pair_offsets (triple c) 1) ≡ true)
unfolding search_index_term_matches record_text
search_index_term_matches_misses find_iter c finds = (
  collect_matches-zeros (find_iter (c ∷ c ∷ []) (triple c))
      (λ p m. only_zero find_iter c p finds m),
  contains_term_at (c ∷ c ∷ []) (c ∷ c ∷ []) 0 (omega arith) (omega arith, refl),
)
