-- ===== src/SearchText/Words.antt =====
-- The terms of a query, and the Bloom filter right after the insertion of one text.
use searchnos_db.Prelude.{
  ℕ, ◌≤◌, ◌<◌, Bytes, Bool, true, false, ◌==◌, ==_iff, some, List, [], ◌∷◌, ◌++◌, ◌≡◌, refl, ap,
  ◌∙◌, arith, length, All,
}
use mathlib.Core.List.{append-nil}
use searchnos_db.Text.{is_whitespace}
use searchnos_db.SearchText.{
  Unicode, push_word, split_at_whitespace, non_empty_words, split_whitespace, join_with, folded,
  normalize_search_text, search_terms,
}
use searchnos_db.Search.Bloom.{
  split_on, non_empty, text_terms, may_match_terms, insert_search_bloom_text_grams,
}
use searchnos_db.Search.Bloom.Bits.{IsBits}
use searchnos_db.Search.Bloom.Complete.{
  Lacks, StandsIn, IsFound, split_on-append, may_match_terms_complete,
}

-- No character is whitespace.
abbrev pub IsPlain : List ℕ → Type 0
IsPlain = All (λ c. is_whitespace c ≡ false)

-- A word: not empty, and without whitespace.
abbrev pub IsWord : List ℕ → Type 0
IsWord word = (0 < length word) × IsPlain word

push_word-IsPlain :
    (white : Bool) (c : ℕ) (r : List ℕ × List (List ℕ))
    → is_whitespace c ≡ white
    → All IsPlain (r.0 ∷ r.1)
    → All IsPlain ((push_word white c r).0 ∷ (push_word white c r).1)
push_word-IsPlain true c (word, words) e h = (tt, h)
push_word-IsPlain false c (word, words) e h = ((e, h.0), h.1)

split_at_whitespace-IsPlain :
    (s : List ℕ) → All IsPlain ((split_at_whitespace s).0 ∷ (split_at_whitespace s).1)
unfolding split_at_whitespace
split_at_whitespace-IsPlain [] = (tt, tt)
split_at_whitespace-IsPlain (c ∷ cs) =
    push_word-IsPlain (is_whitespace c) c (split_at_whitespace cs) refl
      (split_at_whitespace-IsPlain cs)

non_empty_words-IsWord :
    (words : List (List ℕ)) → All IsPlain words → All IsWord (non_empty_words words)
non_empty_words-IsWord [] h = tt
non_empty_words-IsWord ([] ∷ words) h = non_empty_words-IsWord words h.1
non_empty_words-IsWord ((c ∷ cs) ∷ words) h = ((omega arith, h.0), non_empty_words-IsWord words h.1)

split_whitespace-IsWord : (s : List ℕ) → All IsWord (split_whitespace s)
unfolding split_whitespace
split_whitespace-IsWord s =
    non_empty_words-IsWord ((split_at_whitespace s).0 ∷ (split_at_whitespace s).1)
      (split_at_whitespace-IsPlain s)

not_space : (c : ℕ) → is_whitespace c ≡ false → (c == b' ') ≡ false
unfolding is_whitespace
not_space c h = ground (arith, ==_iff c b' ')

word-Lacks : (word : List ℕ) → IsPlain word → Lacks b' ' word
word-Lacks [] h = tt
word-Lacks (c ∷ cs) h = (not_space c h.0, word-Lacks cs h.1)

non_empty-word :
    (word : List ℕ) (terms : List (List ℕ))
    → 0 < length word
    → non_empty (word ∷ terms) ≡ word ∷ non_empty terms
unfolding non_empty
non_empty-word [] terms h = absurd (omega arith)
non_empty-word (c ∷ cs) terms h = refl

text_terms-word : (word : List ℕ) → IsWord word → text_terms word ≡ word ∷ []
unfolding text_terms split_on non_empty
text_terms-word word (some_char, plain) = rw (← append-nil word) (
    rw (split_on-append b' ' word [] (word-Lacks word plain))
      (rw (append-nil word) (non_empty-word word [] some_char)))

text_terms-space :
    (word rest : List ℕ) → IsWord word → text_terms (word ++ b' ' ∷ rest) ≡ word ∷ text_terms rest
unfolding text_terms split_on
text_terms-space word rest (some_char, plain) =
    rw (split_on-append b' ' word (b' ' ∷ rest) (word-Lacks word plain))
      (rw (append-nil word) (non_empty-word word _ some_char))

-- Words that are joined by spaces are the terms of the text.
text_terms-join_with :
    (words : List (List ℕ)) → All IsWord words → text_terms (join_with b' ' words) ≡ words
unfolding text_terms split_on non_empty join_with
text_terms-join_with [] h = refl
text_terms-join_with (word ∷ []) h = text_terms-word word h.0
text_terms-join_with (word ∷ next ∷ words) h =
    text_terms-space word (join_with b' ' (next ∷ words)) h.0
    ∙ ap (λ l. word ∷ l) (text_terms-join_with (next ∷ words) h.1)

-- The terms of a query are the words of its folded text, and none of them is empty or holds
-- whitespace.
pub search_terms-split_whitespace :
    (unicode : Unicode) (query : Bytes)
    → (search_terms unicode query ≡ split_whitespace (folded unicode query))
      × All IsWord (search_terms unicode query)
unfolding search_terms normalize_search_text
search_terms-split_whitespace unicode query =
    let words = split_whitespace-IsWord (folded unicode query) in
    let same = text_terms-join_with (split_whitespace (folded unicode query)) words in
    (same, rw same words)

IsFound-words :
    (text : List ℕ) (terms : List (List ℕ))
    → All IsWord terms
    → All (λ term. (2 ≤ length term) × StandsIn term text) terms
    → All (IsFound text) terms
IsFound-words text [] words h = tt
IsFound-words text (term ∷ terms) words ((long, stands), h) =
    ((long, word-Lacks term words.0.1, stands), IsFound-words text terms words.1 h)

-- A filter that a text was inserted into may match every query whose terms stand in the text and
-- have two characters or more.
pub may_match_query :
    (unicode : Unicode) (bits text : List ℕ) (query : Bytes)
    → IsBits bits
    → All (λ term. (2 ≤ length term) × StandsIn term text) (search_terms unicode query)
    → may_match_terms (insert_search_bloom_text_grams bits (some text)) (search_terms unicode query)
      ≡ true
may_match_query unicode bits text query v h =
    may_match_terms_complete bits text (search_terms unicode query) v (
      IsFound-words text (search_terms unicode query)
        (search_terms-split_whitespace unicode query).1 h)
