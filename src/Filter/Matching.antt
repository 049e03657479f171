-- ===== src/Filter/Matching.antt =====
-- What a filter without search terms accepts, for notes whose tags can be read.
use searchnos_db.Prelude.{
  ℕ, Bytes, Bool, true, false, ◌&&◌, List, [], ◌∷◌, Result, ok, ◌≡◌, refl, arith, any, all,
  contains, bytes_eq, map, Bool-cases, inl, inr,
}
use searchnos_db.Note.{Ndb, Note, Tag, TagElement, tag_element_to_string}
use searchnos_db.Event.{EventPacket}
use searchnos_db.Filter.{
  Filter, is_named, tag_has_value, find_value, matches_tags, matches_fields,
  matches_filter_without_search,
}

-- A tag whose elements are all read, and printed as these texts.
abbrev pub AreRead : Ndb → List TagElement → List Bytes → Type 0
AreRead ndb [] [] = Unit
AreRead ndb (e ∷ elements) (t ∷ texts) =
    (tag_element_to_string ndb e ≡ ok t) × AreRead ndb elements texts
AreRead ndb _ _ = ⊥

-- What a tag says: its elements, and their texts.
pub record ReadTag (ndb : Ndb) : Type 0 where
  pub elements : List TagElement
  pub texts : List Bytes
  pub are_read : AreRead ndb elements texts

module _ (ndb : Ndb) where
  abbrev pub tag_of : ReadTag ndb → Result Tag
  tag_of tag = ok (map ok tag.elements)

  -- The tag starts with a text that is the name, and with one of the values behind it.
  abbrev pub starts_with : ℕ → List Bytes → List TagElement → List Bytes → Bool
  starts_with name values (TagElement.text n ∷ e ∷ elements) (t ∷ value ∷ texts) =
      is_named name n && contains values value
  starts_with name values _ _ = false

  abbrev pub says : ℕ → List Bytes → ReadTag ndb → Bool
  says name values tag = starts_with name values tag.elements tag.texts

  abbrev pub or_any : List Bytes → Bool → Bool
  or_any [] found = true
  or_any (v ∷ vs) found = found

  -- Every name with values has a tag that says one of them.
  abbrev pub has_tags : List (ReadTag ndb) → ℕ × List Bytes → Bool
  has_tags tags (name, values) = or_any values (any (says name values) tags)

  tag_has_value-starts_with :
      (name : ℕ) (values : List Bytes) (elements : List TagElement) (texts : List Bytes)
      → AreRead ndb elements texts
      → tag_has_value ndb name values (ok (map ok elements))
        ≡ ok (starts_with name values elements texts)
  unfolding tag_has_value
  tag_has_value-starts_with name values [] [] r = refl
  tag_has_value-starts_with name values [] (t ∷ texts) r = elim r [ ]
  tag_has_value-starts_with name values (e ∷ elements) [] r = elim r [ ]
  tag_has_value-starts_with name values (TagElement.id n ∷ []) (t ∷ []) r = refl
  tag_has_value-starts_with name values (TagElement.id n ∷ []) (t ∷ u ∷ texts) r = elim r.1 [ ]
  tag_has_value-starts_with name values (TagElement.id n ∷ e ∷ elements) (t ∷ []) r = elim r.1 [ ]
  tag_has_value-starts_with name values (TagElement.id n ∷ e ∷ elements) (t ∷ value ∷ texts) r =
      refl
  tag_has_value-starts_with name values (TagElement.text n ∷ []) (t ∷ []) r = ground arith
  tag_has_value-starts_with name values (TagElement.text n ∷ []) (t ∷ u ∷ texts) r = elim r.1 [ ]
  tag_has_value-starts_with name values (TagElement.text n ∷ e ∷ elements) (t ∷ []) r = elim r.1 [ ]
  tag_has_value-starts_with name values (TagElement.text n ∷ e ∷ elements) (t ∷ value ∷ texts) r =
      elim (Bool-cases (is_named name n)) [
        | inr other ↦ rw (other, tag_has_value) refl
        | inl same ↦ rw (same, tag_has_value, r.1.0) refl
      ]

  find_value-says :
      (name : ℕ) (values : List Bytes) (tags : List (ReadTag ndb))
      → find_value ndb name values (map tag_of tags) ≡ ok (any (says name values) tags)
  unfolding find_value
  find_value-says name values [] = refl
  find_value-says name values (tag ∷ tags) =
      rw (tag_has_value-starts_with name values tag.elements tag.texts tag.are_read, find_value)
        (elim (Bool-cases (says name values tag)) [
          | inl found ↦ rw (found, find_value) refl
          | inr other ↦ rw (other, find_value) (find_value-says name values tags)
        ])

  matches_tags-has_tags :
      (entries : List (ℕ × List Bytes)) (tags : List (ReadTag ndb))
      → matches_tags ndb entries (map tag_of tags) ≡ ok (all (has_tags tags) entries)
  unfolding matches_tags
  matches_tags-has_tags [] tags = refl
  matches_tags-has_tags ((name, []) ∷ entries) tags = matches_tags-has_tags entries tags
  matches_tags-has_tags ((name, v ∷ vs) ∷ entries) tags =
      rw (find_value-says name (v ∷ vs) tags, matches_tags)
        (elim (Bool-cases (any (says name (v ∷ vs)) tags)) [
          | inl found ↦ rw (found, matches_tags) (matches_tags-has_tags entries tags)
          | inr other ↦ rw (other, matches_tags) refl
        ])

  -- For an event whose note can be read with all its tags, the test against a filter without
  -- search terms succeeds, and accepts the event exactly if its fields match and each name of a
  -- tag that the filter has values for is the name of a tag with one of them.
  pub matches_filter_without_search-has_tags :
      (filter : Filter) (packet : EventPacket) (note : Note) (tags : List (ReadTag ndb))
      → ndb.from_bytes packet.payload ≡ ok note
      → note.tags ≡ map tag_of tags
      → matches_filter_without_search ndb filter packet
        ≡ ok (matches_fields filter note && all (has_tags tags) filter.generic_tags)
  unfolding matches_filter_without_search matches_fields
  matches_filter_without_search-has_tags filter packet note tags e t =
      rw (e, matches_filter_without_search)
        (rw (t, matches_tags-has_tags filter.generic_tags tags)
          (elim (Bool-cases (matches_fields filter note)) [
            | inl same ↦ rw same refl
            | inr other ↦ rw other refl
          ]))
