-- ===== src/Search/Terms.antt =====
-- The search for a term in an index: `record_text`, `record_matches_terms`, the binary search
-- `search_index_event_at`, `search_index_term_matches` and `search_candidate_indexes` of
-- storage/search.rs. `Finder::find_iter` of the crate `memchr` is a parameter.
pub mod Position
pub mod Matches
use searchnos_db.Prelude.{
  ℕ, zero, suc, ◌+◌, ◌-◌, ◌/◌, Bytes, Bool, true, false, ◌&&◌, leb, ltb, ◌==◌, if◌then◌else◌,
  Option, none, some, List, [], ◌∷◌, Result, ok, err, missing_search_index, ◌=?◌, bytes_eq, nat_eq,
  length, get_or, take, drop, any, all, contains,
}

-- The offset at an index that is in range.
abbrev pub offset_at : List ℕ → ℕ → ℕ
offset_at offsets i = get_or offsets i 0

-- `text.windows(n)`
unfoldable pub windows : ℕ → Bytes → List Bytes
windows n [] = []
windows n (b ∷ bs) = if leb n (suc (length bs)) then take n (b ∷ bs) ∷ windows n bs else []

-- `record_text`
unfoldable pub record_text : List ℕ → Bytes → ℕ → Bytes
record_text offsets text i =
    let start = offset_at offsets i in take (offset_at offsets (i + 1) - start) (drop start text)

-- `text.windows(term.len()).any(|window| window == term)`
unfoldable pub contains_term : Bytes → Bytes → Bool
contains_term term text = any (λ window. window =? term) (windows (length term) text)

-- `record_matches_terms`
unfoldable pub record_matches_terms : List ℕ → Bytes → ℕ → List Bytes → Bool
record_matches_terms offsets text i terms =
    all (λ term. contains_term term (record_text offsets text i)) terms

-- The loop of `search_index_event_at`, on fuel: the number of offsets is enough.
unfoldable pub insertion_loop : ℕ → List ℕ → ℕ → ℕ → ℕ → ℕ
insertion_loop zero offsets position low high = low
insertion_loop (suc fuel) offsets position low high =
    let middle = low + (high - low) / 2 in
    let next =
      insertion_loop fuel offsets position
        (if leb (offset_at offsets middle) position then middle + 1 else low)
        (if leb (offset_at offsets middle) position then high else middle) in
    if ltb low high then next else low

unfoldable pub insertion_point : List ℕ → ℕ → ℕ
insertion_point offsets position =
    insertion_loop (length offsets) offsets position 0 (length offsets)

-- What `search_index_event_at` returns for an insertion point.
unfoldable pub event_before : ℕ → ℕ → Option ℕ
event_before len insertion =
    if insertion == 0
    then none
    else if ltb (insertion - 1 + 1) len
    then some (insertion - 1)
    else none

unfoldable pub search_index_event_at : List ℕ → ℕ → Option ℕ
unfolding event_before
search_index_event_at offsets position =
    if ltb (length offsets) 2
    then none
    else event_before (length offsets) (insertion_point offsets position)

-- `matches.insert(event_index)`
unfoldable pub insert_index : ℕ → List ℕ → List ℕ
insert_index i set = if contains set i then set else i ∷ set

-- The numbers below `n`.
unfoldable pub below : ℕ → List ℕ
below zero = []
below (suc n) = n ∷ below n

-- The test of the body of the loop: the match ends within its event.
unfoldable pub matched_event : List ℕ → ℕ → ℕ → Option ℕ
matched_event offsets len position = elim (search_index_event_at offsets position) [
  | none ↦ none
  | some i ↦ if leb (position + len) (offset_at offsets (i + 1)) then some i else none
]

abbrev pub insert_matched : Option ℕ → List ℕ → List ℕ
insert_matched none set = set
insert_matched (some i) set = insert_index i set

-- The loop over the positions that the finder reports.
unfoldable pub collect_matches : List ℕ → ℕ → List ℕ → List ℕ
collect_matches offsets len [] = []
collect_matches offsets len (position ∷ positions) =
    insert_matched (matched_event offsets len position) (collect_matches offsets len positions)

-- A set of indexes is a list: `intersection`
unfoldable pub intersection : List ℕ → List ℕ → List ℕ
intersection [] ys = []
intersection (x ∷ xs) ys = let rest = intersection xs ys in if contains ys x then x ∷ rest else rest

module _ (find_iter : Bytes → Bytes → List ℕ) where
  -- `search_index_term_matches`
  unfoldable pub search_index_term_matches : List ℕ → Bytes → Bytes → List ℕ
  search_index_term_matches offsets text [] = below (length offsets - 1)
  search_index_term_matches offsets text (c ∷ cs) =
      collect_matches offsets (length (c ∷ cs)) (find_iter (c ∷ cs) text)

  -- The loop of `search_candidate_indexes` over the terms behind the first; it ends early on an
  -- empty set.
  unfoldable pub narrow : List ℕ → Bytes → List ℕ → List Bytes → List ℕ
  narrow offsets text matched [] = matched
  narrow offsets text [] (term ∷ terms) = []
  narrow offsets text (i ∷ matched) (term ∷ terms) =
      narrow offsets text (intersection (i ∷ matched) (search_index_term_matches offsets text term))
        terms

  -- The terms of the query against the offsets and the text of the index, if there is one.
  unfoldable pub candidates : Option (List ℕ × Bytes) → List Bytes → Result (Option (List ℕ))
  candidates index [] = ok none
  candidates none (term ∷ terms) = err missing_search_index
  candidates (some (offsets, text)) (term ∷ terms) =
      ok (some (narrow offsets text (search_index_term_matches offsets text term) terms))

  -- `search_candidate_indexes`, for the terms of `filter.search` if that is set.
  unfoldable pub search_candidate_indexes :
      Option (List ℕ × Bytes) → Option (List Bytes) → Result (Option (List ℕ))
  unfolding candidates
  search_candidate_indexes index none = ok none
  search_candidate_indexes index (some terms) = candidates index terms
