-- ===== src/Search/Bloom/Single.antt =====
-- What the filter of a text holds of single characters.
use searchnos_db.Prelude.{
  ℕ, Option, none, some, List, [], ◌∷◌, ◌++◌, ◌≡◌, ◌↔◌, refl, sym, ap, ◌∙◌, arith, length, inl, inr,
  ◌∈◌,
}
use searchnos_db.Search.Bloom.{
  insert_search_bloom_term_grams, text_terms, insert_terms, insert_search_bloom_text_grams,
  append_search_bloom_grams,
}
use searchnos_db.Search.Bloom.Grams.{
  loop_grams, single_grams, term_grams, insert_grams, insert_grams-append,
  insert_search_bloom_term_grams_lem, mem-append_left, mem-append_right, mem-append_cases,
}

-- The grams of all terms.
unfoldable pub terms_grams : List (List ℕ) → List (List ℕ)
terms_grams [] = []
terms_grams (term ∷ terms) = term_grams term ++ terms_grams terms

insert_terms_lem :
    (terms : List (List ℕ)) (bits : List ℕ)
    → insert_terms bits terms ≡ insert_grams (terms_grams terms) bits
unfolding insert_terms insert_grams terms_grams
insert_terms_lem [] bits = refl
insert_terms_lem (term ∷ terms) bits =
    insert_terms_lem terms (insert_search_bloom_term_grams bits term)
    ∙ ap (insert_grams (terms_grams terms)) (insert_search_bloom_term_grams_lem bits term)
    ∙ sym (insert_grams-append (term_grams term) (terms_grams terms) bits)

-- The grams of the loop have two characters or three.
mem-loop_grams-single :
    (c : ℕ) (pp p : Option ℕ) (term : List ℕ) → (c ∷ []) ∈ loop_grams pp p term → ⊥
unfolding loop_grams
mem-loop_grams-single c pp p [] m = elim m [ ]
mem-loop_grams-single c none none (d ∷ ds) m = mem-loop_grams-single c none (some d) ds m
mem-loop_grams-single c (some a) none (d ∷ ds) m = mem-loop_grams-single c none (some d) ds m
mem-loop_grams-single c none (some b) (d ∷ ds) (inl e) = absurd (omega (arith, ap length e))
mem-loop_grams-single c none (some b) (d ∷ ds) (inr m) =
    mem-loop_grams-single c (some b) (some d) ds m
mem-loop_grams-single c (some a) (some b) (d ∷ ds) (inl e) = absurd (omega (arith, ap length e))
mem-loop_grams-single c (some a) (some b) (d ∷ ds) (inr (inl e)) =
    absurd (omega (arith, ap length e))
mem-loop_grams-single c (some a) (some b) (d ∷ ds) (inr (inr m)) =
    mem-loop_grams-single c (some b) (some d) ds m

mem-single_grams : (c : ℕ) (term : List ℕ) → (c ∷ []) ∈ single_grams term → term ≡ c ∷ []
mem-single_grams c [] m = elim m [ ]
mem-single_grams c (d ∷ []) (inl e) = e
mem-single_grams c (d ∷ []) (inr m) = elim m [ ]
mem-single_grams c (d ∷ e ∷ ds) m = elim m [ ]

mem-term_grams-single : (c : ℕ) (term : List ℕ) → (c ∷ []) ∈ term_grams term → term ≡ c ∷ []
unfolding term_grams
mem-term_grams-single c term m =
    elim (mem-append_cases (c ∷ []) (loop_grams none none term) (single_grams term) m) [
      | inl loop ↦ absurd (mem-loop_grams-single c none none term loop)
      | inr single ↦ mem-single_grams c term single
    ]

single_of_term_grams : (c : ℕ) → (c ∷ []) ∈ term_grams (c ∷ [])
unfolding term_grams loop_grams
single_of_term_grams c = inl refl

terms_of_grams : (c : ℕ) (terms : List (List ℕ)) → (c ∷ []) ∈ terms_grams terms → (c ∷ []) ∈ terms
unfolding terms_grams
terms_of_grams c [] m = m
terms_of_grams c (term ∷ terms) m =
    elim (mem-append_cases (c ∷ []) (term_grams term) (terms_grams terms) m) [
      | inl here ↦ inl (mem-term_grams-single c term here)
      | inr there ↦ inr (terms_of_grams c terms there)
    ]

grams_of_terms : (c : ℕ) (terms : List (List ℕ)) → (c ∷ []) ∈ terms → (c ∷ []) ∈ terms_grams terms
unfolding terms_grams
grams_of_terms c [] m = m
grams_of_terms c (term ∷ terms) (inl e) =
    mem-append_left (c ∷ []) (term_grams term) (terms_grams terms) (rw e (single_of_term_grams c))
grams_of_terms c (term ∷ terms) (inr m) =
    mem-append_right (c ∷ []) (term_grams term) (terms_grams terms) (grams_of_terms c terms m)

-- What is inserted for a text are the grams of its terms, and the one gram that a query of a
-- single character asks for is among them only if that character is a term by itself, not if it
-- stands within a longer one.
pub insert_search_bloom_text_grams-single :
    (bits text : List ℕ) (c : ℕ)
    → (insert_search_bloom_text_grams bits (some text)
        ≡ insert_grams (terms_grams (text_terms text)) bits)
      × (append_search_bloom_grams (c ∷ []) ≡ (c ∷ []) ∷ [])
      × (((c ∷ []) ∈ terms_grams (text_terms text)) ↔ ((c ∷ []) ∈ text_terms text))
unfolding insert_search_bloom_text_grams append_search_bloom_grams
insert_search_bloom_text_grams-single bits text c = (
  insert_terms_lem (text_terms text) bits,
  refl,
  (terms_of_grams c (text_terms text), grams_of_terms c (text_terms text)),
)
