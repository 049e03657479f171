-- ===== src/Examples/Matchers.antt =====
-- A matcher at its last generation of 32 bits (storage/batched_query.rs).
use searchnos_db.Prelude.{ℕ, ◌+◌, Bytes, true, List, [], ◌∷◌, ◌≡◌, refl, arith, length, cmp_bytes}
use searchnos_db.Batched.Matcher.{
  SearchMatcher, new_matcher, matching_groups, unique_terms, insert_all, insert_term, make_groups,
  term_indexes, term_index,
}
use searchnos_db.Batched.Matcher.Found.{IsFresh, AreInRange, wanted, matching_groups-wanted}
use searchnos_db.Examples.Finder.{find_iter}

abbrev if_found : List ℕ → ℕ → List ℕ → List ℕ
if_found [] i others = others
if_found (p ∷ found) i others = i ∷ others

-- The automaton, by a search for each pattern.
unfoldable occurring : Bytes → ℕ → List Bytes → List ℕ
occurring text i [] = []
occurring text i (pattern ∷ patterns) =
    if_found (find_iter pattern text) i (occurring text (i + 1) patterns)

abbrev find_overlapping : List Bytes → Bytes → List ℕ
find_overlapping patterns text = occurring text 0 patterns

-- Two groups of terms that share one.
abbrev group_terms : List (List Bytes)
group_terms = ((b'c' ∷ []) ∷ (b'a' ∷ []) ∷ []) ∷ ((b'a' ∷ []) ∷ (b'b' ∷ []) ∷ []) ∷ []

abbrev matcher : SearchMatcher
matcher = record (new_matcher group_terms) {
  matched_generation = 0 ∷ 4294967295 ∷ 1 ∷ [];
  generation = 4294967295;
}

matcher_patterns : matcher.patterns ≡ (b'a' ∷ []) ∷ (b'b' ∷ []) ∷ (b'c' ∷ []) ∷ []
unfolding new_matcher unique_terms insert_all insert_term cmp_bytes
matcher_patterns = refl

matcher-IsFresh : IsFresh matcher
unfolding new_matcher unique_terms insert_all insert_term cmp_bytes
matcher-IsFresh = record {
  below = (omega arith, (omega arith, (omega arith, tt)));
  small = omega arith;
  count = refl;
}

matcher-AreInRange : AreInRange (length matcher.patterns) matcher.groups
unfolding new_matcher unique_terms insert_all insert_term cmp_bytes make_groups term_indexes
    term_index AreInRange
matcher-AreInRange = ((omega arith, (omega arith, tt)), ((omega arith, (omega arith, tt)), tt))

matching_groups-wanted_example :
    ((matching_groups find_overlapping matcher
        (b'b' ∷ b'a' ∷ [])
        (true ∷ true ∷ [])
        (true ∷ true ∷ [])).1
      ≡ wanted
          (find_overlapping matcher.patterns (b'b' ∷ b'a' ∷ []))
          (true ∷ true ∷ [])
          (true ∷ true ∷ [])
          0
          matcher.groups)
    × IsFresh
        (matching_groups find_overlapping matcher
          (b'b' ∷ b'a' ∷ [])
          (true ∷ true ∷ [])
          (true ∷ true ∷ [])).0
matching_groups-wanted_example =
    matching_groups-wanted find_overlapping matcher (b'a' ∷ []) ((b'b' ∷ []) ∷ (b'c' ∷ []) ∷ [])
      (b'b' ∷ b'a' ∷ []) (true ∷ true ∷ []) (true ∷ true ∷ []) matcher_patterns matcher-IsFresh
      matcher-AreInRange
