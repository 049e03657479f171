-- ===== src/SearchText.antt =====
-- storage/text.rs: the text of an event that is searched, and the terms of a query. The tables of
-- Unicode and the parser of JSON are not part of the repository; they are the parameters
-- `Unicode` and `Json`. A `str` is given by its bytes, and `chars` gives its characters.
pub mod Words
pub mod Partitions
pub mod Kinds
use searchnos_db.Prelude.{
  ℕ, Bytes, Bool, true, false, ◌||◌, ltb, ◌==◌, if◌then◌else◌, Option, none, some, List, [], ◌∷◌,
  ◌++◌, Result, ok, err, ◌>>=◌, ◌=?◌, nat_eq, bytes_eq, contains,
}
use searchnos_db.Prelude.Words.{to_le_bytes}
use searchnos_db.Note.{Ndb, Note, Tag, TagElement, as_str, tag_element_to_string}
use searchnos_db.Text.{is_whitespace}
use searchnos_db.Search.Index.{fnv_offset_basis, update_hash}
use searchnos_db.Search.Bloom.{as_bytes, text_terms}

-- `chars()` of a `str`, `nfkc()` of the crate `unicode_normalization`, and `char::to_lowercase`.
pub record Unicode : Type 0 where
  pub chars : Bytes → List ℕ
  pub nfkc : List ℕ → List ℕ
  pub to_lowercase : ℕ → List ℕ

-- `serde_json::from_str::<Value>`: the values of an object in their order, with the text of those
-- that are strings, if the text is an object.
pub record Json : Type 0 where
  pub object_values : Bytes → Option (List (Option Bytes))

abbrev pub long_form_kind : ℕ
long_form_kind = 30023

abbrev pub field_separator : ℕ
field_separator = 0x1f

-- `sort_unstable` on numbers
unfoldable pub insert_kind : ℕ → List ℕ → List ℕ
insert_kind kind [] = kind ∷ []
insert_kind kind (k ∷ kinds) = if ltb k kind then k ∷ insert_kind kind kinds else kind ∷ k ∷ kinds

unfoldable pub sort_kinds : List ℕ → List ℕ
sort_kinds [] = []
sort_kinds (kind ∷ kinds) = insert_kind kind (sort_kinds kinds)

-- `dedup`
unfoldable pub dedup_after : ℕ → List ℕ → List ℕ
dedup_after last [] = []
dedup_after last (kind ∷ kinds) =
    let rest = dedup_after kind kinds in if last == kind then rest else kind ∷ rest

abbrev pub dedup : List ℕ → List ℕ
dedup [] = []
dedup (kind ∷ kinds) = kind ∷ dedup_after kind kinds

-- `normalize_searchable_kinds`
abbrev pub normalize_searchable_kinds : Option (List ℕ) → Option (List ℕ)
normalize_searchable_kinds none = none
normalize_searchable_kinds (some kinds) = some (dedup (sort_kinds kinds))

unfoldable pub hash_kinds : ℕ → List ℕ → ℕ
hash_kinds hash [] = hash
hash_kinds hash (kind ∷ kinds) = hash_kinds (update_hash hash (to_le_bytes 4 kind)) kinds

abbrev pub hash_normalized : Option (List ℕ) → ℕ
hash_normalized none = update_hash fnv_offset_basis (b'a' ∷ b'l' ∷ b'l' ∷ [])
hash_normalized (some kinds) =
    hash_kinds (update_hash fnv_offset_basis (b'k' ∷ b'i' ∷ b'n' ∷ b'd' ∷ b's' ∷ [])) kinds

-- `searchable_kinds_hash`
unfoldable pub searchable_kinds_hash : Option (List ℕ) → ℕ
searchable_kinds_hash kinds = hash_normalized (normalize_searchable_kinds kinds)

-- `is_search_indexed_kind`
abbrev pub is_search_indexed_kind : ℕ → Option (List ℕ) → Bool
is_search_indexed_kind kind none = true
is_search_indexed_kind kind (some kinds) = contains kinds kind

-- `flat_map`
unfoldable pub flat_map : (ℕ → List ℕ) → List ℕ → List ℕ
flat_map f [] = []
flat_map f (c ∷ cs) = f c ++ flat_map f cs

-- A word grows by a character, or ends at whitespace.
abbrev pub push_word : Bool → ℕ → List ℕ × List (List ℕ) → List ℕ × List (List ℕ)
push_word true c (word, words) = ([], word ∷ words)
push_word false c (word, words) = (c ∷ word, words)

-- The word at the start and the others; some may be empty.
unfoldable pub split_at_whitespace : List ℕ → List ℕ × List (List ℕ)
split_at_whitespace [] = ([], [])
split_at_whitespace (c ∷ cs) = push_word (is_whitespace c) c (split_at_whitespace cs)

abbrev pub non_empty_words : List (List ℕ) → List (List ℕ)
non_empty_words [] = []
non_empty_words ([] ∷ words) = non_empty_words words
non_empty_words ((c ∷ cs) ∷ words) = (c ∷ cs) ∷ non_empty_words words

-- `split_whitespace`
unfoldable pub split_whitespace : List ℕ → List (List ℕ)
split_whitespace s = let (word, words) = split_at_whitespace s in non_empty_words (word ∷ words)

-- `join`, of texts and of characters
unfoldable pub join_with : ℕ → List (List ℕ) → List ℕ
join_with separator [] = []
join_with separator (word ∷ []) = word
join_with separator (word ∷ next ∷ words) = word ++ separator ∷ join_with separator (next ∷ words)

-- The string values of an object.
abbrev pub strings : List (Option Bytes) → List Bytes
strings [] = []
strings (none ∷ values) = strings values
strings (some value ∷ values) = value ∷ strings values

abbrev pub title_text : Bytes
title_text = b't' ∷ b'i' ∷ b't' ∷ b'l' ∷ b'e' ∷ []

abbrev pub summary_text : Bytes
summary_text = b's' ∷ b'u' ∷ b'm' ∷ b'm' ∷ b'a' ∷ b'r' ∷ b'y' ∷ []

abbrev pub capital : ℕ → Bytes → Bytes
capital c [] = []
capital c (first ∷ rest) = c ∷ rest

-- `"title" | "Title" | "summary" | "Summary"`
unfoldable pub is_field : Bytes → Bool
is_field name =
    name =? title_text
    || (name =? capital b'T' title_text
        || (name =? summary_text || name =? capital b'S' summary_text))

-- `metadata_search_text`
unfoldable pub metadata_search_text : Json → Bytes → Bytes
metadata_search_text json content = elim (json.object_values content) [
  | none ↦ []
  | some values ↦ join_with field_separator (strings values)
]

module _ (unicode : Unicode) where
  -- `nfkc` and the lower case of every character
  unfoldable pub folded : Bytes → List ℕ
  folded text = flat_map unicode.to_lowercase (unicode.nfkc (unicode.chars text))

  -- `normalize_search_text`, the characters
  unfoldable pub normalize_search_text : Bytes → List ℕ
  normalize_search_text text = join_with b' ' (split_whitespace (folded text))

  -- `search_terms`
  unfoldable pub search_terms : Bytes → List (List ℕ)
  search_terms query = text_terms (normalize_search_text query)

module _ (ndb : Ndb) where
  -- What a tag of a long-form event adds. An error ends the function.
  unfoldable pub field_of : Result Tag → Result (List Bytes)
  field_of (err e) = err e
  field_of (ok []) = ok []
  field_of (ok (err e ∷ rest)) = err e
  field_of (ok (ok name ∷ rest)) = elim (as_str name) [
    | none ↦ ok []
    | some n ↦ elim (is_field n) [
      | false ↦ ok []
      | true ↦ elim rest [
        | [] ↦ ok []
        | value ∷ others ↦ do v ← value; text ← tag_element_to_string ndb v; ok (text ∷ [])
      ]
    ]
  ]

  unfoldable pub fields_of : List (Result Tag) → Result (List Bytes)
  fields_of [] = ok []
  fields_of (tag ∷ tags) = do field ← field_of tag; fields ← fields_of tags; ok (field ++ fields)

  -- `long_form_search_text`
  unfoldable pub long_form_search_text : Note → Bytes → Result Bytes
  long_form_search_text note content = do
    fields ← fields_of note.tags
    ok (join_with field_separator (content ∷ fields))

  module _ (unicode : Unicode) (json : Json) where
    -- `match note.kind()` of `searchable_content`
    unfoldable pub content_for_kind : Note → Bytes → Result Bytes
    content_for_kind note content =
        if note.kind == 0
        then ok (metadata_search_text json content)
        else if note.kind == long_form_kind
        then long_form_search_text note content
        else ok content

    -- `searchable_content`
    unfoldable pub searchable_content : Note → Option (List ℕ) → Result Bytes
    searchable_content note searchable_kinds =
        if is_search_indexed_kind note.kind searchable_kinds
        then (do content ← note.content; content_for_kind note content)
        else ok []

    -- `normalized_search_text`, the characters; the source goes on with their bytes.
    unfoldable pub normalized_search_text : Bytes → Option (List ℕ) → Result (List ℕ)
    normalized_search_text payload searchable_kinds = do
      note ← ndb.from_bytes payload
      content ← searchable_content note searchable_kinds
      ok (normalize_search_text unicode content)
