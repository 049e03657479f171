-- ===== src/Search/Bloom.antt =====
-- `SearchBloom` of storage/search.rs: the filter by which a query skips partitions. A `str` is the
-- list of its characters, so a slice of its bytes between two characters is the encoding of the
-- characters between them; what is hashed are the bytes.
pub mod Bits
pub mod Grams
pub mod Complete
pub mod Single
use Prim.Native.Nat.{bit_and, bit_or, bit_xor}
use mathlib.Core.List.{reverse}
use searchnos_db.Prelude.{
  ℕ, zero, suc, ◌+◌, ◌*◌, ◌/◌, ◌%◌, ◌^◌, Bytes, Bool, true, false, ◌&&◌, not, ltb, ◌==◌,
  if◌then◌else◌, Option, none, some, List, [], ◌∷◌, ◌++◌, get_or, set, replicate, all,
}
use searchnos_db.Search.Index.{fnv_offset_basis, update_hash}
use searchnos_db.Search.Terms.{windows}

unfoldable pub search_bloom_bytes : ℕ
search_bloom_bytes = 256 * 1024

unfoldable pub search_bloom_bits : ℕ
unfolding search_bloom_bytes
search_bloom_bits = search_bloom_bytes * 8

abbrev pub search_bloom_hashes : ℕ
search_bloom_hashes = 7

-- `encode_utf8` of a character
unfoldable pub utf8 : ℕ → Bytes
utf8 c =
    if ltb c 0x80
    then c ∷ []
    else if ltb c 0x800
    then (0xc0 + c / 64) ∷ (0x80 + c % 64) ∷ []
    else if ltb c 0x10000
    then (0xe0 + c / 4096) ∷ (0x80 + c / 64 % 64) ∷ (0x80 + c % 64) ∷ []
    else (0xf0 + c / 262144) ∷ (0x80 + c / 4096 % 64) ∷ (0x80 + c / 64 % 64) ∷ (0x80 + c % 64) ∷ []

-- `as_bytes`
unfoldable pub as_bytes : List ℕ → Bytes
unfolding utf8
as_bytes [] = []
as_bytes (c ∷ cs) = utf8 c ++ as_bytes cs

-- `bloom_hashes`: the second loop is `update_hash` on the bytes from the last to the first.
unfoldable pub bloom_hashes : Bytes → ℕ × ℕ
bloom_hashes bytes = (
  update_hash fnv_offset_basis bytes,
  bit_or (update_hash (bit_xor fnv_offset_basis 0x9e3779b97f4a7c15) (reverse bytes)) 1,
)

-- The bit of a gram for one of the hashes.
unfoldable pub bloom_bit : ℕ × ℕ → ℕ → ℕ
bloom_bit (hash1, hash2) index = (hash1 + index * hash2 % 2 ^ 64) % 2 ^ 64 % search_bloom_bits

-- `bits[(bit / 8) as usize] |= 1 << (bit % 8)`
unfoldable pub set_bit : List ℕ → ℕ → List ℕ
set_bit bits bit = set bits (bit / 8) (bit_or (get_or bits (bit / 8) 0) (2 ^ (bit % 8)))

-- `bits[(bit / 8) as usize] & (1 << (bit % 8)) != 0`
unfoldable pub test_bit : List ℕ → ℕ → Bool
test_bit bits bit = not (bit_and (get_or bits (bit / 8) 0) (2 ^ (bit % 8)) == 0)

-- The loop of `insert_bloom_gram`, with the number of hashes that are left.
unfoldable pub insert_hashes : ℕ → ℕ → ℕ × ℕ → List ℕ → List ℕ
insert_hashes zero index hashes bits = bits
insert_hashes (suc n) index hashes bits =
    insert_hashes n (index + 1) hashes (set_bit bits (bloom_bit hashes index))

unfoldable pub insert_bloom_gram : List ℕ → Bytes → List ℕ
insert_bloom_gram bits gram = insert_hashes search_bloom_hashes 0 (bloom_hashes gram) bits

-- The loop of `SearchBloom::contains`.
unfoldable pub contains_hashes : ℕ → ℕ → ℕ × ℕ → List ℕ → Bool
contains_hashes zero index hashes bits = true
contains_hashes (suc n) index hashes bits =
    test_bit bits (bloom_bit hashes index) && contains_hashes n (index + 1) hashes bits

unfoldable pub contains_gram : List ℕ → Bytes → Bool
contains_gram bits gram = contains_hashes search_bloom_hashes 0 (bloom_hashes gram) bits

-- `SearchBloom::empty`
unfoldable pub empty_bits : List ℕ
empty_bits = replicate search_bloom_bytes 0

-- The loop of `insert_search_bloom_term_grams`: what it does with a character behind the one or
-- two before it. The starts of these are the characters themselves here.
abbrev pub insert_pair : Option ℕ → ℕ → List ℕ → List ℕ
insert_pair none c bits = bits
insert_pair (some previous) c bits = insert_bloom_gram bits (as_bytes (previous ∷ c ∷ []))

abbrev pub insert_triple : Option ℕ → Option ℕ → ℕ → List ℕ → List ℕ
insert_triple (some previous_previous) (some previous) c bits =
    insert_bloom_gram bits (as_bytes (previous_previous ∷ previous ∷ c ∷ []))
insert_triple _ _ c bits = bits

unfoldable pub insert_grams_loop : Option ℕ → Option ℕ → List ℕ → List ℕ → List ℕ
insert_grams_loop previous_previous previous [] bits = bits
insert_grams_loop previous_previous previous (c ∷ cs) bits =
    insert_grams_loop previous (some c) cs
      (insert_triple previous_previous previous c (insert_pair previous c bits))

-- `if char_count == 1`
abbrev pub insert_single : List ℕ → List ℕ → List ℕ
insert_single (c ∷ []) bits = insert_bloom_gram bits (as_bytes (c ∷ []))
insert_single _ bits = bits

unfoldable pub insert_search_bloom_term_grams : List ℕ → List ℕ → List ℕ
insert_search_bloom_term_grams bits term =
    insert_single term (insert_grams_loop none none term bits)

-- `split(separator)`: the first piece and the others.
unfoldable pub split_on : ℕ → List ℕ → List ℕ × List (List ℕ)
split_on separator [] = ([], [])
split_on separator (c ∷ cs) =
    let (piece, pieces) = split_on separator cs in
    if c == separator then ([], piece ∷ pieces) else (c ∷ piece, pieces)

-- `filter(|term| !term.is_empty())`
unfoldable pub non_empty : List (List ℕ) → List (List ℕ)
non_empty [] = []
non_empty ([] ∷ terms) = non_empty terms
non_empty ((c ∷ cs) ∷ terms) = (c ∷ cs) ∷ non_empty terms

unfoldable pub text_terms : List ℕ → List (List ℕ)
text_terms text = let (piece, pieces) = split_on b' ' text in non_empty (piece ∷ pieces)

unfoldable pub insert_terms : List ℕ → List (List ℕ) → List ℕ
insert_terms bits [] = bits
insert_terms bits (term ∷ terms) = insert_terms (insert_search_bloom_term_grams bits term) terms

-- `insert_search_bloom_text_grams`, on the result of `std::str::from_utf8`.
unfoldable pub insert_search_bloom_text_grams : List ℕ → Option (List ℕ) → List ℕ
insert_search_bloom_text_grams bits none = bits
insert_search_bloom_text_grams bits (some text) = insert_terms bits (text_terms text)

-- `search_bloom_bits`, the function
unfoldable pub search_bloom_bits_of : Option (List ℕ) → List ℕ
search_bloom_bits_of text = insert_search_bloom_text_grams empty_bits text

-- `append_search_bloom_grams`
unfoldable pub append_search_bloom_grams : List ℕ → List (List ℕ)
append_search_bloom_grams [] = []
append_search_bloom_grams (c ∷ []) = (c ∷ []) ∷ []
append_search_bloom_grams (c ∷ d ∷ cs) = windows 2 (c ∷ d ∷ cs) ++ windows 3 (c ∷ d ∷ cs)

-- `SearchBloom::may_match_terms`
unfoldable pub may_match_terms : List ℕ → List (List ℕ) → Bool
may_match_terms bits terms =
    all (λ term. all (λ gram. contains_gram bits (as_bytes gram)) (append_search_bloom_grams term))
      terms
