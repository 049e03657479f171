-- ===== src/Search/Bloom/Complete.antt =====
-- The filter of a text does not exclude the text's own terms, if they have two characters; and
-- what it holds of single characters.
use searchnos_db.Prelude.{
  Option, none, &&-eq-true, ℕ, ◌≤◌, ◌<◌, Bytes, Bool, true, false, ◌==◌, some, List, [], ◌∷◌, ◌++◌,
  ◌≡◌, refl, ap, arith, length, inl, inr, Bool-cases, ◌∈◌, all, All,
}
use searchnos_db.Search.Bloom.{
  as_bytes, insert_bloom_gram, contains_gram, insert_search_bloom_term_grams, split_on, non_empty,
  text_terms, insert_terms, insert_search_bloom_text_grams, append_search_bloom_grams,
  may_match_terms,
}
use searchnos_db.Search.Bloom.Bits.{
  IsBits, insert_bloom_gram-IsBits, contains_gram-insert_bloom_gram, contains_gram-keeps,
}
use searchnos_db.Search.Bloom.Grams.{
  term_grams, insert_grams, insert_search_bloom_term_grams_lem,
  append_search_bloom_grams-term_grams,
}

insert_grams-IsBits :
    (grams : List (List ℕ)) (bits : List ℕ) → IsBits bits → IsBits (insert_grams grams bits)
unfolding insert_grams
insert_grams-IsBits [] bits v = v
insert_grams-IsBits (gram ∷ grams) bits v =
    insert_grams-IsBits grams (insert_bloom_gram bits (as_bytes gram))
      (insert_bloom_gram-IsBits bits (as_bytes gram) v)

insert_grams-keeps :
    (grams : List (List ℕ)) (bits : List ℕ) (other : Bytes)
    → IsBits bits
    → contains_gram bits other ≡ true
    → contains_gram (insert_grams grams bits) other ≡ true
unfolding insert_grams
insert_grams-keeps [] bits other v h = h
insert_grams-keeps (gram ∷ grams) bits other v h =
    insert_grams-keeps grams (insert_bloom_gram bits (as_bytes gram)) other
      (insert_bloom_gram-IsBits bits (as_bytes gram) v)
      (contains_gram-keeps bits (as_bytes gram) other v h)

insert_grams-holds :
    (grams : List (List ℕ)) (bits gram : List ℕ)
    → IsBits bits
    → gram ∈ grams
    → contains_gram (insert_grams grams bits) (as_bytes gram) ≡ true
unfolding insert_grams
insert_grams-holds [] bits gram v m = elim m [ ]
insert_grams-holds (g ∷ grams) bits gram v (inl here) =
    insert_grams-keeps grams (insert_bloom_gram bits (as_bytes g)) (as_bytes gram)
      (insert_bloom_gram-IsBits bits (as_bytes g) v)
      (rw here (contains_gram-insert_bloom_gram bits (as_bytes gram) v))
insert_grams-holds (g ∷ grams) bits gram v (inr there) =
    insert_grams-holds grams (insert_bloom_gram bits (as_bytes g)) gram
      (insert_bloom_gram-IsBits bits (as_bytes g) v) there

insert_term-IsBits :
    (bits term : List ℕ) → IsBits bits → IsBits (insert_search_bloom_term_grams bits term)
insert_term-IsBits bits term v =
    rw (insert_search_bloom_term_grams_lem bits term) (insert_grams-IsBits (term_grams term) bits v)

insert_terms-IsBits :
    (terms : List (List ℕ)) (bits : List ℕ) → IsBits bits → IsBits (insert_terms bits terms)
unfolding insert_terms
insert_terms-IsBits [] bits v = v
insert_terms-IsBits (term ∷ terms) bits v =
    insert_terms-IsBits terms (insert_search_bloom_term_grams bits term)
      (insert_term-IsBits bits term v)

pub insert_search_bloom_text_grams-IsBits :
    (bits : List ℕ) (text : Option (List ℕ))
    → IsBits bits
    → IsBits (insert_search_bloom_text_grams bits text)
unfolding insert_search_bloom_text_grams
insert_search_bloom_text_grams-IsBits bits none v = v
insert_search_bloom_text_grams-IsBits bits (some text) v =
    insert_terms-IsBits (text_terms text) bits v

insert_terms-keeps :
    (terms : List (List ℕ)) (bits : List ℕ) (other : Bytes)
    → IsBits bits
    → contains_gram bits other ≡ true
    → contains_gram (insert_terms bits terms) other ≡ true
unfolding insert_terms
insert_terms-keeps [] bits other v h = h
insert_terms-keeps (term ∷ terms) bits other v h =
    insert_terms-keeps terms (insert_search_bloom_term_grams bits term) other
      (insert_term-IsBits bits term v)
      (rw (insert_search_bloom_term_grams_lem bits term)
        (insert_grams-keeps (term_grams term) bits other v h))

insert_terms-holds :
    (terms : List (List ℕ)) (bits term gram : List ℕ)
    → IsBits bits
    → term ∈ terms
    → gram ∈ term_grams term
    → contains_gram (insert_terms bits terms) (as_bytes gram) ≡ true
unfolding insert_terms
insert_terms-holds [] bits term gram v m g = elim m [ ]
insert_terms-holds (t ∷ terms) bits term gram v (inl here) g =
    insert_terms-keeps terms (insert_search_bloom_term_grams bits t) (as_bytes gram)
      (insert_term-IsBits bits t v)
      (rw (insert_search_bloom_term_grams_lem bits t, here)
        (insert_grams-holds (term_grams term) bits gram v g))
insert_terms-holds (t ∷ terms) bits term gram v (inr there) g =
    insert_terms-holds terms (insert_search_bloom_term_grams bits t) term gram
      (insert_term-IsBits bits t v) there g

-- No character of the term is the separator.
abbrev pub Lacks : ℕ → List ℕ → Type 0
Lacks separator = All (λ c. (c == separator) ≡ false)

pub split_on-append :
    (separator : ℕ) (query after : List ℕ)
    → Lacks separator query
    → split_on separator (query ++ after)
      ≡ (query ++ (split_on separator after).0, (split_on separator after).1)
unfolding split_on
split_on-append separator [] after h = refl
split_on-append separator (c ∷ query) after h =
    rw (split_on-append separator query after h.1) (rw h.0)

-- The piece that a term without separators stands in.
split_on-piece :
    (separator : ℕ) (before query after : List ℕ)
    → Lacks separator query
    → let (piece, pieces) = split_on separator (before ++ (query ++ after)) in
      (term front back : List ℕ) × (term ∈ (piece ∷ pieces)) × (term ≡ front ++ (query ++ back))
unfolding split_on
split_on-piece separator [] query after h =
    rw (split_on-append separator query after h)
      (query ++ (split_on separator after).0, [], (split_on separator after).0, inl refl, refl)
split_on-piece separator (c ∷ before) query after h =
    let (term, front, back, m, e) = split_on-piece separator before query after h in
    elim (Bool-cases (c == separator)) [
      | inl same ↦ rw same (term, front, back, inr m, e)
      | inr other ↦ rw other (elim m [
        | inl here ↦ (c ∷ term, c ∷ front, back, inl (ap (λ l. c ∷ l) here), ap (λ l. c ∷ l) e)
        | inr there ↦ (term, front, back, inr there, e)
      ])
    ]

mem-non_empty :
    (term : List ℕ) (terms : List (List ℕ))
    → term ∈ terms
    → 0 < length term
    → term ∈ non_empty terms
unfolding non_empty
mem-non_empty term [] m h = m
mem-non_empty term ([] ∷ terms) (inl here) h = absurd (omega (arith, ap length here))
mem-non_empty term ([] ∷ terms) (inr there) h = mem-non_empty term terms there h
mem-non_empty term ((c ∷ cs) ∷ terms) (inl here) h = inl here
mem-non_empty term ((c ∷ cs) ∷ terms) (inr there) h = inr (mem-non_empty term terms there h)

-- The query stands in the text.
abbrev pub StandsIn : List ℕ → List ℕ → Type 0
StandsIn query text = (before after : List ℕ) × (text ≡ before ++ (query ++ after))

term_of_text :
    (text query : List ℕ)
    → 0 < length query
    → Lacks b' ' query
    → StandsIn query text
    → (term front back : List ℕ) × (term ∈ text_terms text) × (term ≡ front ++ (query ++ back))
unfolding text_terms
term_of_text text query h clean (before, after, e) = rw e (
    let (term, front, back, m, e') = split_on-piece b' ' before query after clean in
    (term, front, back, mem-non_empty term _ m (rw e' (longer front query back h)), e'))
  where
    longer : (xs ys zs : List ℕ) → 0 < length ys → 0 < length (xs ++ (ys ++ zs))
    longer [] [] zs k = absurd (omega arith)
    longer [] (y ∷ ys) zs k = omega arith
    longer (x ∷ xs) ys zs k = omega arith

all_of_mem :
    (test : List ℕ → Bool) (xs : List (List ℕ))
    → ((x : List ℕ) → x ∈ xs → test x ≡ true)
    → all test xs ≡ true
all_of_mem test [] h = refl
all_of_mem test (x ∷ xs) h = rw (h x (inl refl)) (all_of_mem test xs (λ y m. h y (inr m)))

-- A term that a filter must not exclude for the text.
abbrev pub IsFound : List ℕ → List ℕ → Type 0
IsFound text query = (2 ≤ length query) × Lacks b' ' query × StandsIn query text

query_grams_hold :
    (bits text query : List ℕ)
    → IsBits bits
    → IsFound text query
    → all
        (λ gram. contains_gram (insert_search_bloom_text_grams bits (some text)) (as_bytes gram))
        (append_search_bloom_grams query)
      ≡ true
unfolding insert_search_bloom_text_grams
query_grams_hold bits text query v (long, clean, stands) =
    let (term, front, back, m, e) = term_of_text text query (omega arith) clean stands in
    all_of_mem _ (append_search_bloom_grams query) (λ gram g.
      insert_terms-holds (text_terms text) bits term gram v m
        (append_search_bloom_grams-term_grams query term front back gram long e g))

-- The filter right after the insertion of a text, and terms of the text.
pub may_match_terms_complete :
    (bits text : List ℕ) (terms : List (List ℕ))
    → IsBits bits
    → All (IsFound text) terms
    → may_match_terms (insert_search_bloom_text_grams bits (some text)) terms ≡ true
unfolding may_match_terms
may_match_terms_complete bits text [] v h = refl
may_match_terms_complete bits text (query ∷ terms) v h =
    rw (query_grams_hold bits text query v h.0)
      (unfold may_match_terms in may_match_terms_complete bits text terms v h.1)

insert_text-keeps :
    (bits : List ℕ) (text : Option (List ℕ)) (other : Bytes)
    → IsBits bits
    → contains_gram bits other ≡ true
    → contains_gram (insert_search_bloom_text_grams bits text) other ≡ true
unfolding insert_search_bloom_text_grams
insert_text-keeps bits none other v h = h
insert_text-keeps bits (some text) other v h = insert_terms-keeps (text_terms text) bits other v h

all_kept :
    {A : Type 0} (f g : A → Bool) (xs : List A)
    → ((x : A) → f x ≡ true → g x ≡ true)
    → all f xs ≡ true
    → all g xs ≡ true
all_kept f g [] keeps h = refl
all_kept f g (x ∷ xs) keeps h =
    let (here, there) = &&-eq-true (f x) (all f xs) h in
    rw (keeps x here) (all_kept f g xs keeps there)

-- A text that is inserted later takes away no match.
pub may_match_terms-keeps :
    (bits : List ℕ) (text : Option (List ℕ)) (terms : List (List ℕ))
    → IsBits bits
    → may_match_terms bits terms ≡ true
    → may_match_terms (insert_search_bloom_text_grams bits text) terms ≡ true
unfolding may_match_terms
may_match_terms-keeps bits text terms v h =
    all_kept _ _ terms
      (λ term.
        all_kept _ _ (append_search_bloom_grams term)
          (λ gram. insert_text-keeps bits text (as_bytes gram) v))
      h
