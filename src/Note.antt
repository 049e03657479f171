-- ===== src/Note.antt =====
-- What the storage layer reads of an `ndb` note. The crate `ndb` is not part of the repository:
-- its decoder and its printing of a tag element are the parameter `Ndb`, and a decoded note is
-- the record of what the accessors of `NdbNote` return.
use searchnos_db.Prelude.{ℕ, Bytes, Result, List, Option, some, none}

-- `ndb::TagElement`
pub data TagElement : Type 0 where
  text : Bytes → TagElement
  id : Bytes → TagElement

-- `tag.elements()`: each element is decoded when it is reached.
abbrev pub Tag : Type 0
Tag = List (Result TagElement)

-- `created_at()`, `id()`, `pubkey()`, `kind()`, `content()` and `tags()` of `NdbNote`
pub record Note : Type 0 where
  pub created_at : ℕ
  pub id : Bytes
  pub pubkey : Bytes
  pub kind : ℕ
  pub content : Result Bytes
  pub tags : List (Result Tag)

-- `NdbNote::from_bytes` and `TagElement::to_json_string`
pub record Ndb : Type 0 where
  pub from_bytes : Bytes → Result Note
  pub to_json_string : TagElement → Result Bytes

-- `TagElement::as_str`: an error for an identifier, which every caller drops.
abbrev pub as_str : TagElement → Option Bytes
as_str (TagElement.text value) = some value
as_str (TagElement.id value) = none

-- `tag_element_to_string` of storage/text.rs
unfoldable pub tag_element_to_string : Ndb → TagElement → Result Bytes
tag_element_to_string ndb (TagElement.text value) = Result.ok value
tag_element_to_string ndb (TagElement.id value) = ndb.to_json_string (TagElement.id value)
