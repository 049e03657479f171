-- ===== src/Filter.antt =====
-- Filters: `Filter` of nostr/nip01/filter.rs, the test of an event against one in storage/event.rs,
-- and the limits that db/mod.rs puts on them.
pub mod Matching
use searchnos_db.Prelude.{
  ℕ, min, Bytes, Bool, true, false, ◌&&◌, ◌||◌, not, ltb, ◌==◌, if◌then◌else◌, Option, none, some,
  List, [], ◌∷◌, ◌++◌, Result, ok, err, ◌>>=◌, ◌=?◌, bytes_eq, nat_eq, any, all, contains, length,
  map,
}
use searchnos_db.Note.{Ndb, Note, Tag, TagElement, as_str, tag_element_to_string}
use searchnos_db.Event.{EventPacket}
use searchnos_db.Query.{matches_since, matches_until}
use searchnos_db.Text.{is_ascii_alphabetic}
use searchnos_db.Search.Bloom.{as_bytes}
use searchnos_db.Search.Terms.{contains_term}
use searchnos_db.SearchText.{Unicode, Json, search_terms, normalized_search_text}

-- `struct Filter`. The name of a tag is a character.
pub record Filter : Type 0 where
  pub ids : Option (List Bytes)
  pub authors : Option (List Bytes)
  pub kinds : Option (List ℕ)
  pub since : Option ℕ
  pub until : Option ℕ
  pub limit : Option ℕ
  pub search : Option Bytes
  pub generic_tags : List (ℕ × List Bytes)

-- `Filter::new`
abbrev pub new_filter : Filter
new_filter = record {
  ids = none;
  authors = none;
  kinds = none;
  since = none;
  until = none;
  limit = none;
  search = none;
  generic_tags = [];
}

-- The value goes to the first entry with the name, or into an entry at the end.
unfoldable pub push_tag : ℕ → Bytes → List (ℕ × List Bytes) → List (ℕ × List Bytes)
push_tag name value [] = (name, value ∷ []) ∷ []
push_tag name value ((other, values) ∷ tags) =
    if other == name
    then (other, values ++ value ∷ []) ∷ tags
    else (other, values) ∷ push_tag name value tags

abbrev pub push_non_empty : ℕ → Bytes → Filter → Filter
push_non_empty name [] filter = filter
push_non_empty name (b ∷ bs) filter = record filter {
  generic_tags = push_tag name (b ∷ bs) filter.generic_tags;
}

-- `Filter::tag`
unfoldable pub with_tag : ℕ → Bytes → Filter → Filter
with_tag name value filter =
    if is_ascii_alphabetic name then push_non_empty name value filter else filter

abbrev pub id_listed : Option (List Bytes) → Bytes → Bool
id_listed none id = true
id_listed (some []) id = true
id_listed (some (x ∷ xs)) id = any (λ candidate. candidate =? id) (x ∷ xs)

-- `matches_ids`
abbrev pub matches_ids : Filter → Note → Bool
matches_ids filter note = id_listed filter.ids note.id

-- `matches_authors`
abbrev pub matches_authors : Filter → Note → Bool
matches_authors filter note = id_listed filter.authors note.pubkey

abbrev pub kind_listed : Option (List ℕ) → ℕ → Bool
kind_listed none kind = true
kind_listed (some []) kind = true
kind_listed (some (x ∷ xs)) kind = any (λ candidate. candidate == kind) (x ∷ xs)

-- `matches_kinds`
abbrev pub matches_kinds : Filter → Note → Bool
matches_kinds filter note = kind_listed filter.kinds note.kind

-- `!tag_name.is_ascii() || name.as_bytes() != [*tag_name as u8]`, negated
abbrev pub is_named : ℕ → Bytes → Bool
is_named tag_name name = ltb tag_name 128 && name =? (tag_name ∷ [])

-- The tests that read no tag.
unfoldable pub matches_fields : Filter → Note → Bool
matches_fields filter note =
    matches_ids filter note
    && (matches_authors filter note
        && (matches_kinds filter note
            && (matches_since filter.since note.created_at
                && matches_until filter.until note.created_at)))

module _ (ndb : Ndb) where
  -- One round of the inner loop of `matches_tags`: whether the value is found in this tag.
  unfoldable pub tag_has_value : ℕ → List Bytes → Result Tag → Result Bool
  tag_has_value tag_name values (err e) = err e
  tag_has_value tag_name values (ok []) = ok false
  tag_has_value tag_name values (ok (err e ∷ rest)) = err e
  tag_has_value tag_name values (ok (ok name ∷ rest)) = elim (as_str name) [
    | none ↦ ok false
    | some n ↦ elim (is_named tag_name n) [
      | false ↦ ok false
      | true ↦ elim rest [
        | [] ↦ ok false
        | value ∷ others ↦ do
          v ← value
          text ← tag_element_to_string ndb v
          ok (contains values text)
      ]
    ]
  ]

  -- The inner loop, which ends at the first value that is found.
  unfoldable pub find_value : ℕ → List Bytes → List (Result Tag) → Result Bool
  find_value tag_name values [] = ok false
  find_value tag_name values (tag ∷ tags) = elim (tag_has_value tag_name values tag) [
    | err e ↦ err e
    | ok true ↦ ok true
    | ok false ↦ find_value tag_name values tags
  ]

  -- `matches_tags`
  unfoldable pub matches_tags : List (ℕ × List Bytes) → List (Result Tag) → Result Bool
  matches_tags [] tags = ok true
  matches_tags ((tag_name, []) ∷ entries) tags = matches_tags entries tags
  matches_tags ((tag_name, v ∷ vs) ∷ entries) tags = elim (find_value tag_name (v ∷ vs) tags) [
    | err e ↦ err e
    | ok false ↦ ok false
    | ok true ↦ matches_tags entries tags
  ]

  -- `EventPacket::matches_filter_without_search`
  unfoldable pub matches_filter_without_search : Filter → EventPacket → Result Bool
  matches_filter_without_search filter packet = do
    note ← ndb.from_bytes packet.payload
    if matches_fields filter note then matches_tags filter.generic_tags note.tags else ok false

  module _ (unicode : Unicode) (json : Json) where
    unfoldable pub matches_terms : List Bytes → Bytes → Option (List ℕ) → Result Bool
    matches_terms [] payload searchable_kinds = ok true
    matches_terms (term ∷ terms) payload searchable_kinds = do
      text ← normalized_search_text ndb unicode json payload searchable_kinds
      ok (all (λ t. contains_term t (as_bytes text)) (term ∷ terms))

    -- `matches_search`
    unfoldable pub matches_search : Option Bytes → Bytes → Option (List ℕ) → Result Bool
    matches_search none payload searchable_kinds = ok true
    matches_search (some query) payload searchable_kinds =
        matches_terms (map as_bytes (search_terms unicode query)) payload searchable_kinds

    -- `EventPacket::matches_filter`
    unfoldable pub matches_filter : Filter → Option (List ℕ) → EventPacket → Result Bool
    matches_filter filter searchable_kinds packet = do
      matches ← matches_filter_without_search filter packet
      if matches then matches_search filter.search packet.payload searchable_kinds else ok false

-- `effective_limit`
abbrev pub or_else : Option ℕ → Option ℕ → Option ℕ
or_else none o = o
or_else (some n) o = some n

abbrev pub unwrap_or : Option ℕ → ℕ → ℕ
unwrap_or none n = n
unwrap_or (some m) n = m

unfoldable pub effective_limit : Option ℕ → Option ℕ → Option ℕ → Option ℕ
effective_limit default_limit none provided = or_else provided default_limit
effective_limit default_limit (some max_limit) provided =
    some (min (unwrap_or (or_else provided default_limit) max_limit) max_limit)

module _ (default_limit max_limit : Option ℕ) where
  -- `normalize_filter`
  unfoldable pub normalize_filter : Filter → Filter
  normalize_filter filter = record filter {
    limit = effective_limit default_limit max_limit filter.limit;
  }

  -- `normalized_filters_or_default`
  abbrev pub normalized_filters_or_default : List Filter → List Filter
  normalized_filters_or_default [] = normalize_filter new_filter ∷ []
  normalized_filters_or_default (filter ∷ filters) = map normalize_filter (filter ∷ filters)
