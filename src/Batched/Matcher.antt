-- ===== src/Batched/Matcher.antt =====
-- `SearchMatcher` of storage/batched_query.rs: the groups of terms of which all stand in a text. The
-- automaton of the crate `aho_corasick` is a parameter: the indexes of the patterns that occur.
pub mod Found
use searchnos_db.Prelude.{
  ℕ, zero, suc, ◌+◌, ◌%◌, ◌^◌, Bytes, Bool, true, false, ◌&&◌, ◌==◌, List, [], ◌∷◌, ◌++◌, length,
  get_or, set, replicate, all, cmp_bytes, is_lt, is_eq, ◌=?◌, bytes_eq, if◌then◌else◌,
}

-- `struct SearchGroup`
pub record SearchGroup : Type 0 where
  pub terms : List Bytes
  pub pattern_indexes : List ℕ

-- `struct SearchMatcher`, with the patterns of its automaton
pub record SearchMatcher : Type 0 where
  pub patterns : List Bytes
  pub groups : List SearchGroup
  pub matched_generation : List ℕ
  pub generation : ℕ

-- `BTreeSet::insert`, in the order of the terms
unfoldable pub insert_term : Bytes → List Bytes → List Bytes
insert_term term [] = term ∷ []
insert_term term (t ∷ terms) =
    let rest = insert_term term terms in
    if is_eq (cmp_bytes term t)
    then t ∷ terms
    else if is_lt (cmp_bytes term t)
    then term ∷ t ∷ terms
    else t ∷ rest

unfoldable pub insert_all : List Bytes → List Bytes → List Bytes
insert_all [] set = set
insert_all (term ∷ terms) set = insert_term term (insert_all terms set)

unfoldable pub unique_terms : List (List Bytes) → List Bytes
unique_terms [] = []
unique_terms (terms ∷ groups) = insert_all terms (unique_terms groups)

-- `term_indexes[term]`; every term of a group is among the patterns.
unfoldable pub term_index : Bytes → List Bytes → ℕ
term_index term [] = 0
term_index term (t ∷ terms) = let rest = term_index term terms in if t =? term then 0 else suc rest

unfoldable pub term_indexes : List Bytes → List Bytes → List ℕ
term_indexes patterns [] = []
term_indexes patterns (term ∷ terms) = term_index term patterns ∷ term_indexes patterns terms

unfoldable pub make_groups : List Bytes → List (List Bytes) → List SearchGroup
make_groups patterns [] = []
make_groups patterns (terms ∷ groups) =
    record { terms = terms; pattern_indexes = term_indexes patterns terms }
    ∷ make_groups patterns groups

-- `SearchMatcher::new`
unfoldable pub new_matcher : List (List Bytes) → SearchMatcher
new_matcher group_terms =
    let patterns = unique_terms group_terms in
    record {
      patterns = patterns;
      groups = make_groups patterns group_terms;
      matched_generation = replicate (length patterns) 0;
      generation = 0;
    }

-- The next generation of 32 bits; where it wraps to 0, all marks are taken away.
unfoldable pub next_generation : SearchMatcher → SearchMatcher
next_generation m =
    let generation = (m.generation + 1) % 2 ^ 32 in
    if generation == 0
    then record m { matched_generation = replicate (length m.matched_generation) 0; generation = 1 }
    else record m { generation = generation }

-- The loop over the matches.
unfoldable pub mark_all : ℕ → List ℕ → List ℕ → List ℕ
mark_all generation [] marks = marks
mark_all generation (i ∷ found) marks = mark_all generation found (set marks i generation)

unfoldable pub mark : List ℕ → SearchMatcher → SearchMatcher
mark found m = record m { matched_generation = mark_all m.generation found m.matched_generation }

abbrev pub is_set : List Bool → ℕ → Bool
is_set flags i = get_or flags i false

-- Whether all patterns of a group have the mark of the generation.
unfoldable pub is_matched : SearchMatcher → SearchGroup → Bool
is_matched m group =
    all (λ i. get_or m.matched_generation i 0 == m.generation) group.pattern_indexes

unfoldable pub select_groups : SearchMatcher → List Bool → List Bool → ℕ → List SearchGroup → List ℕ
select_groups m enabled requested i [] = []
select_groups m enabled requested i (group ∷ groups) =
    let rest = select_groups m enabled requested (i + 1) groups in
    if is_set enabled i && (is_set requested i && is_matched m group) then i ∷ rest else rest

module _ (find_overlapping : List Bytes → Bytes → List ℕ) where
  -- `matching_groups`; without a pattern there is no automaton.
  unfoldable pub matching_groups :
      SearchMatcher → Bytes → List Bool → List Bool → SearchMatcher × List ℕ
  matching_groups m bytes enabled requested = elim m.patterns [
    | [] ↦ (m, [])
    | pattern ∷ patterns ↦
        let marked = mark (find_overlapping (pattern ∷ patterns) bytes) (next_generation m) in
        (marked, select_groups marked enabled requested 0 m.groups)
  ]
