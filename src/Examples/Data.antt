-- ===== src/Examples/Data.antt =====
-- Concrete events and a concrete decoder for the examples: five bytes make a note, with its kind,
-- time, author, identifier, and the identifier that its only tag names.
use searchnos_db.Prelude.{
  ℕ, Bytes, Bool, true, ◌==◌, List, [], ◌∷◌, all, replicate, Result, ok, err, decode, ◌≡◌, arith,
  ◌=?◌, =?_iff, not, ◌||◌, bytes_eq, inl, inr, &&-eq-true,
}
use searchnos_db.Note.{Ndb, Note, TagElement, text, id}
use searchnos_db.Event.{EventPacket}
use searchnos_db.Visibility.Hex.{hex_32}
use searchnos_db.Search.Index.{Texts}
use searchnos_db.Visibility.Shown.{IdsAgree}

abbrev note_of : Bytes → Result Note
note_of (kind ∷ created_at ∷ author ∷ number ∷ target ∷ []) = ok (record {
  created_at = created_at;
  id = replicate 32 number;
  pubkey = author ∷ [];
  kind = kind;
  content = ok (number ∷ []);
  tags = ok (ok (text (b'e' ∷ [])) ∷ ok (id (replicate 32 target)) ∷ []) ∷ [];
})
note_of _ = err decode

-- An identifier is printed in hexadecimal.
abbrev element_text : TagElement → Result Bytes
element_text (text value) = ok value
element_text (id value) = ok (hex_32 value)

abbrev pub five_bytes : Ndb
five_bytes = record { from_bytes = note_of; to_json_string = element_text }

-- Every event has the text "a".
abbrev pub plain_texts : Texts ℕ
plain_texts = record {
  normalized_search_text = λ payload. ok (b'a' ∷ []);
  searchable_kinds_hash = 1;
  empty_bloom = 0;
  insert_text_grams = λ bloom text. bloom;
}

abbrev packet : ℕ → ℕ → ℕ → EventPacket
packet kind created_at number = record {
  created_at = created_at;
  id = replicate 32 number;
  pubkey = 7 ∷ [];
  kind = kind;
  payload = kind ∷ created_at ∷ 7 ∷ number ∷ 1 ∷ [];
}

-- Two versions of a profile, and a request to delete the first.
abbrev pub old_profile : EventPacket
old_profile = packet 0 10 1

abbrev pub new_profile : EventPacket
new_profile = packet 0 20 2

abbrev pub deletion : EventPacket
deletion = packet 5 30 3

abbrev pub batch : List EventPacket
batch = old_profile ∷ new_profile ∷ deletion ∷ []

abbrev pub reordered : List EventPacket
reordered = deletion ∷ new_profile ∷ old_profile ∷ []

abbrev pub agrees_with : EventPacket → EventPacket → Bool
agrees_with p q = not (q.id =? p.id) || q.created_at == p.created_at

pub all-IdsAgree :
    (packets : List EventPacket) (p : EventPacket)
    → all (agrees_with p) packets ≡ true
    → IdsAgree packets p
all-IdsAgree [] p h = λ q m e. elim m [ ]
all-IdsAgree (r ∷ packets) p h = λ q m e.
    let (here, there) = &&-eq-true (agrees_with p r) (all (agrees_with p) packets) h in
    elim m [
      | inl same ↦ ground (arith, =?_iff (r.id) (p.id))
      | inr later_on ↦ all-IdsAgree packets p there q later_on e
    ]
