-- ===== src/Examples/Terms.antt =====
-- The search of terms in two events (storage/search.rs).
use searchnos_db.Prelude.{
  ℕ, zero, suc, ◌+◌, ◌≤◌, ◌<◌, Bytes, true, some, List, [], ◌∷◌, length, ◌≡◌, ◌↔◌, refl, arith, inl,
  inr, ◌∈◌, cmp_bytes,
}
use searchnos_db.Search.Terms.{
  offset_at, record_text, contains_term, insertion_loop, insertion_point, event_before,
  search_index_event_at, insert_index, matched_event, collect_matches, search_index_term_matches,
}
use searchnos_db.Search.Terms.Position.{IsMonotonic, search_index_event_at_iff}
use searchnos_db.Search.Terms.Matches.{
  search_index_term_matches_sound, search_index_term_matches_misses, pair_offsets, triple,
}
use searchnos_db.Examples.Finder.{scan, find_iter, find_iter-FindsOccurrences}

-- "ab" and "cab"
abbrev two_offsets : List ℕ
two_offsets = 0 ∷ 2 ∷ 5 ∷ []

abbrev two_texts : Bytes
two_texts = b'a' ∷ b'b' ∷ b'c' ∷ b'a' ∷ b'b' ∷ []

abbrev ab : Bytes
ab = b'a' ∷ b'b' ∷ []

below_three : (i j : ℕ) → i ≤ j → j < 3 → offset_at two_offsets i ≤ offset_at two_offsets j
below_three zero j h k = omega arith
below_three (suc zero) zero h k = omega arith
below_three (suc zero) (suc zero) h k = omega arith
below_three (suc zero) (suc (suc zero)) h k = omega arith
below_three (suc zero) (suc (suc (suc j))) h k = absurd (omega arith)
below_three (suc (suc zero)) zero h k = absurd (omega arith)
below_three (suc (suc zero)) (suc zero) h k = absurd (omega arith)
below_three (suc (suc zero)) (suc (suc zero)) h k = omega arith
below_three (suc (suc zero)) (suc (suc (suc j))) h k = absurd (omega arith)
below_three (suc (suc (suc i))) j h k = absurd (omega arith)

two_offsets-IsMonotonic : IsMonotonic two_offsets
two_offsets-IsMonotonic i j h k = below_three i j h k

matched : 1 ∈ search_index_term_matches find_iter two_offsets two_texts ab
unfolding search_index_term_matches find_iter scan cmp_bytes collect_matches matched_event
    search_index_event_at insertion_point insertion_loop event_before insert_index
matched = inr (inl refl)

search_index_term_matches_sound_example :
    contains_term ab (record_text two_offsets two_texts 1) ≡ true
search_index_term_matches_sound_example =
    search_index_term_matches_sound find_iter two_offsets two_texts ab 1 find_iter-FindsOccurrences
      two_offsets-IsMonotonic (omega arith) matched

search_index_event_at_iff_example : (search_index_event_at two_offsets 2 ≡ some 1) ↔ (
    (offset_at two_offsets 1 ≤ 2)
    × (2 < offset_at two_offsets (1 + 1))
    × (1 + 1 < length two_offsets))
search_index_event_at_iff_example =
    search_index_event_at_iff two_offsets 2 1 two_offsets-IsMonotonic

search_index_term_matches_misses_example :
    (search_index_term_matches find_iter pair_offsets (triple b'a') (b'a' ∷ b'a' ∷ []) ≡ [])
    × (contains_term (b'a' ∷ b'a' ∷ []) (record_text pair_offsets (triple b'a') 1) ≡ true)
search_index_term_matches_misses_example =
    search_index_term_matches_misses find_iter b'a' find_iter-FindsOccurrences
