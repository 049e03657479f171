-- ===== src/Batched/Matcher/Found.antt =====
-- The groups that a matcher selects, and its marks (storage/batched_query.rs).
use searchnos_db.Prelude.{
  ℕ, zero, suc, ◌+◌, ◌%◌, ◌^◌, ◌≤◌, ◌<◌, Bytes, Bool, ◌&&◌, ◌||◌, ◌==◌, List, [], ◌∷◌, ◌≡◌, refl,
  subst, sym, ap, ◌∙◌, arith, length, length-set, length-replicate, get_or, set, replicate, all,
  contains, nat_eq, All, Bool-cases, inl, inr, if◌then◌else◌,
}
use searchnos_db.Batched.Matcher.{
  SearchMatcher, SearchGroup, next_generation, mark_all, mark, is_set, is_matched, select_groups,
  matching_groups,
}

-- Marks that are not above the generation.
pub record IsFresh (m : SearchMatcher) : Type 0 where
  pub below : All (λ g. g ≤ m.generation) m.matched_generation
  pub small : m.generation < 2 ^ 32
  pub count : length m.matched_generation ≡ length m.patterns

get_or-set :
    (marks : List ℕ) (i j v : ℕ)
    → i < length marks
    → get_or (set marks j v) i 0 ≡ (if j == i then v else get_or marks i 0)
get_or-set [] i j v h = absurd (omega arith)
get_or-set (x ∷ marks) zero zero v h = refl
get_or-set (x ∷ marks) zero (suc j) v h = ground arith
get_or-set (x ∷ marks) (suc i) zero v h = ground arith
get_or-set (x ∷ marks) (suc i) (suc j) v h = get_or-set marks i j v (omega arith) ∙ ground arith

mark_all-found :
    (generation i : ℕ) (found marks : List ℕ)
    → i < length marks
    → (get_or (mark_all generation found marks) i 0 == generation)
      ≡ (contains found i || (get_or marks i 0 == generation))
unfolding mark_all
mark_all-found generation i [] marks h = refl
mark_all-found generation i (j ∷ found) marks h =
    mark_all-found generation i found (set marks j generation)
      (omega (arith, length-set marks j generation))
    ∙ ground (arith, get_or-set marks i j generation h)

get_or-below :
    (bound i : ℕ) (marks : List ℕ)
    → All (λ g. g < bound) marks
    → i < length marks
    → get_or marks i 0 < bound
get_or-below bound i [] h k = absurd (omega arith)
get_or-below bound zero (x ∷ marks) h k = h.0
get_or-below bound (suc i) (x ∷ marks) h k = get_or-below bound i marks h.1 (omega arith)

All-set :
    (bound i v : ℕ) (marks : List ℕ)
    → All (λ g. g ≤ bound) marks
    → v ≤ bound
    → All (λ g. g ≤ bound) (set marks i v)
All-set bound i v [] h k = tt
All-set bound zero v (x ∷ marks) h k = (k, h.1)
All-set bound (suc i) v (x ∷ marks) h k = (h.0, All-set bound i v marks h.1 k)

All-mark_all :
    (generation : ℕ) (found marks : List ℕ)
    → All (λ g. g ≤ generation) marks
    → All (λ g. g ≤ generation) (mark_all generation found marks)
unfolding mark_all
All-mark_all generation [] marks h = h
All-mark_all generation (i ∷ found) marks h =
    All-mark_all generation found (set marks i generation)
      (All-set generation i generation marks h (omega arith))

length-mark_all :
    (generation : ℕ) (found marks : List ℕ)
    → length (mark_all generation found marks) ≡ length marks
unfolding mark_all
length-mark_all generation [] marks = refl
length-mark_all generation (i ∷ found) marks =
    length-mark_all generation found (set marks i generation) ∙ length-set marks i generation

All-replicate : (n bound : ℕ) → 0 < bound → All (λ g. g < bound) (replicate n 0)
All-replicate zero bound h = tt
All-replicate (suc n) bound h = (h, All-replicate n bound h)

All-le : (a b : ℕ) (marks : List ℕ) → a < b → All (λ g. g ≤ a) marks → All (λ g. g < b) marks
All-le a b [] h k = tt
All-le a b (x ∷ marks) h k = (omega (arith, k.0), All-le a b marks h k.1)

All-lt : (b : ℕ) (marks : List ℕ) → All (λ g. g < b) marks → All (λ g. g ≤ b) marks
All-lt b [] h = tt
All-lt b (x ∷ marks) h = (omega (arith, h.0), All-lt b marks h.1)

-- A new generation is above all marks.
record IsNew (m n : SearchMatcher) : Type 0 where
  above : All (λ g. g < n.generation) n.matched_generation
  small : n.generation < 2 ^ 32
  patterns : n.patterns ≡ m.patterns
  groups : n.groups ≡ m.groups
  count : length n.matched_generation ≡ length m.matched_generation

next_generation-IsNew : (m : SearchMatcher) → IsFresh m → IsNew m (next_generation m)
unfolding next_generation
next_generation-IsNew m fresh = elim (Bool-cases ((m.generation + 1) % 2 ^ 32 == 0)) [
  | inl wrapped ↦
      rw (wrapped, next_generation)
        (record {
          above = All-replicate (length m.matched_generation) 1 (omega arith);
          small = omega arith;
          patterns = refl;
          groups = refl;
          count = length-replicate (length m.matched_generation) 0;
        })
  | inr counted ↦
      rw (counted, next_generation)
        (record {
          above =
              All-le m.generation ((m.generation + 1) % 2 ^ 32) m.matched_generation
                (ground (arith, fresh.small)) fresh.below;
          small = omega arith;
          patterns = refl;
          groups = refl;
          count = refl;
        })
]

unfoldable pub AreInRange : ℕ → List SearchGroup → Type 0
AreInRange n [] = Unit
AreInRange n (group ∷ groups) = All (λ i. i < n) group.pattern_indexes × AreInRange n groups

-- The groups that are enabled and requested and of which all terms were found.
unfoldable pub wanted : List ℕ → List Bool → List Bool → ℕ → List SearchGroup → List ℕ
wanted found enabled requested i [] = []
wanted found enabled requested i (group ∷ groups) =
    let rest = wanted found enabled requested (i + 1) groups in
    if is_set enabled i && (is_set requested i && all (λ j. contains found j) group.pattern_indexes)
    then i ∷ rest
    else rest

module _ (found : List ℕ) (m : SearchMatcher)
    (above : All (λ g. g < m.generation) m.matched_generation) where
  mark-found :
      (i : ℕ)
      → i < length m.matched_generation
      → (get_or (mark found m).matched_generation i 0 == (mark found m).generation)
        ≡ contains found i
  unfolding mark
  mark-found i h =
      mark_all-found m.generation i found m.matched_generation h
      ∙ ground (arith, get_or-below m.generation i m.matched_generation above h)

  all_marked :
      (indexes : List ℕ)
      → All (λ i. i < length m.matched_generation) indexes
      → all (λ i. get_or (mark found m).matched_generation i 0 == (mark found m).generation) indexes
        ≡ all (λ i. contains found i) indexes
  all_marked [] h = refl
  all_marked (i ∷ indexes) h = rw (mark-found i h.0) (rw (all_marked indexes h.1) refl)

  select_groups-wanted :
      (enabled requested : List Bool) (i : ℕ) (groups : List SearchGroup)
      → AreInRange (length m.matched_generation) groups
      → select_groups (mark found m) enabled requested i groups
        ≡ wanted found enabled requested i groups
  unfolding select_groups wanted is_matched AreInRange
  select_groups-wanted enabled requested i [] h = refl
  select_groups-wanted enabled requested i (group ∷ groups) h =
      rw (all_marked group.pattern_indexes h.0)
        (rw (select_groups-wanted enabled requested (i + 1) groups h.1) refl)

-- A matcher whose marks are not above its generation, and whose groups have their terms among its
-- patterns, selects the groups that are enabled and requested and of which the automaton finds all
-- terms in the text, whatever it matched before and also where the generation of 32 bits wraps,
-- and its marks are again not above its generation.
pub matching_groups-wanted :
    (find_overlapping : List Bytes → Bytes → List ℕ) (m : SearchMatcher) (pattern : Bytes)
    (patterns : List Bytes) (bytes : Bytes) (enabled requested : List Bool)
    → m.patterns ≡ pattern ∷ patterns
    → IsFresh m
    → AreInRange (length m.patterns) m.groups
    → ((matching_groups find_overlapping m bytes enabled requested).1
        ≡ wanted (find_overlapping m.patterns bytes) enabled requested 0 m.groups)
      × IsFresh (matching_groups find_overlapping m bytes enabled requested).0
unfolding matching_groups mark
matching_groups-wanted find_overlapping m pattern patterns bytes enabled requested e fresh range =
    let n = next_generation m in
    let new = next_generation-IsNew m fresh in
    let found = find_overlapping (pattern ∷ patterns) bytes in
    rw (e, matching_groups)
      (
        select_groups-wanted found n new.above enabled requested 0 m.groups
            (subst (λ k. AreInRange k m.groups) (sym (new.count ∙ fresh.count)) range),
        record {
          below =
              All-mark_all n.generation found n.matched_generation
                (All-lt n.generation n.matched_generation new.above);
          small = new.small;
          count =
              length-mark_all n.generation found n.matched_generation
              ∙ new.count
              ∙ fresh.count
              ∙ ap length (sym new.patterns);
        },
      )
