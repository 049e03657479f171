-- ===== src/Event/Frame/Read.antt =====
-- What a file that can be read holds (storage/event.rs).
use searchnos_db.Prelude.{
  ℕ, zero, suc, ◌+◌, ◌*◌, ◌/◌, ◌%◌, ◌^◌, ◌<◌, Bytes, ltb, lt→ltb, none, some, List, [], ◌∷◌, ◌++◌,
  ok, ◌≡◌, refl, sym, ◌∙◌, ap, subst, arith, length, length-take_le, ltb→lt, Error, err, take, drop,
  take-drop, All, >>=-eq-ok, Bool-cases, Result-cases, inl, inr,
}
use mathlib.Core.List.{append_assoc}
use native.Mathlib.Nat.{pow-suc}
use searchnos_db.Prelude.Words.{to_le_bytes, from_le_bytes}
use searchnos_db.Note.{Ndb, Note}
use searchnos_db.Event.Packet.{EventPacket, from_data, packet_of}
use searchnos_db.Event.Frame.{
  u32_try_from, write_packet, read_exact, read_payload, read_event_packet, read_packets,
  read_event_packets,
}
use searchnos_db.Event.Frame.RoundTrip.{write_packets}
use searchnos_db.Event.Frame.Decoded.{push_packet-eq-ok}

abbrev pub AreBytes : Bytes → Type 0
AreBytes = All (λ b. b < 256)

-- The fields of the packet are those of the note that its payload holds.
abbrev pub IsNoteOf : Ndb → EventPacket → Type 0
IsNoteOf ndb p =
    (note : Note) × (ndb.from_bytes p.payload ≡ ok note)
    × (p.created_at ≡ note.created_at)
    × (p.id ≡ note.id)
    × (p.pubkey ≡ note.pubkey)
    × (p.kind ≡ note.kind)

to_le_bytes-from_le_bytes :
    (bytes : Bytes) → AreBytes bytes → to_le_bytes (length bytes) (from_le_bytes bytes) ≡ bytes
unfolding to_le_bytes from_le_bytes
to_le_bytes-from_le_bytes [] h = refl
to_le_bytes-from_le_bytes (b ∷ bytes) (small, h) =
    let low : (b + 256 * from_le_bytes bytes) % 256 ≡ b = omega arith in
    let high : (b + 256 * from_le_bytes bytes) / 256 ≡ from_le_bytes bytes = omega arith in
    rw (low) (rw (high) (ap (λ l. b ∷ l) (to_le_bytes-from_le_bytes bytes h)))

from_le_bytes-lt : (bytes : Bytes) → AreBytes bytes → from_le_bytes bytes < 256 ^ length bytes
unfolding from_le_bytes
from_le_bytes-lt [] h = omega arith
from_le_bytes-lt (b ∷ bytes) (small, h) =
    omega (arith, from_le_bytes-lt bytes h, pow-suc 256 (length bytes))

AreBytes-take : (n : ℕ) (bytes : Bytes) → AreBytes bytes → AreBytes (take n bytes)
AreBytes-take zero bytes h = tt
AreBytes-take (suc n) [] h = tt
AreBytes-take (suc n) (b ∷ bytes) h = (h.0, AreBytes-take n bytes h.1)

AreBytes-drop : (n : ℕ) (bytes : Bytes) → AreBytes bytes → AreBytes (drop n bytes)
AreBytes-drop zero bytes h = h
AreBytes-drop (suc n) [] h = tt
AreBytes-drop (suc n) (b ∷ bytes) h = AreBytes-drop n bytes h.1

-- What a read of so many bytes takes.
record Taken (n : ℕ) (bytes first rest : Bytes) : Type 0 where
  whole : bytes ≡ first ++ rest
  size : length first ≡ n
  first_bytes : AreBytes first
  rest_bytes : AreBytes rest

read_exact-Taken :
    (n : ℕ) (bytes first rest : Bytes)
    → AreBytes bytes
    → read_exact n bytes ≡ ok (first, rest)
    → Taken n bytes first rest
unfolding read_exact
read_exact-Taken n bytes first rest b h = elim (Bool-cases (ltb (length bytes) n)) [
  | inl short ↦ cc (rw short at h)
  | inr enough ↦
      let front : take n bytes ≡ first = cc (rw enough at h) in
      let back : drop n bytes ≡ rest = cc (rw enough at h) in
      rw (← front, ← back)
        (record {
          whole = sym (take-drop n bytes);
          size = length-take_le n bytes (ground arith);
          first_bytes = AreBytes-take n bytes b;
          rest_bytes = AreBytes-drop n bytes b;
        })
]

read_exact-short :
    (n : ℕ) (bytes : Bytes) (e : Error) → read_exact n bytes ≡ err e → length bytes < n
unfolding read_exact
read_exact-short n bytes e h = elim (Bool-cases (ltb (length bytes) n)) [
  | inl short ↦ ltb→lt _ _ short
  | inr enough ↦ cc (rw enough at h)
]

write_packet-read :
    (len_bytes payload : Bytes)
    → AreBytes len_bytes
    → length len_bytes ≡ 4
    → length payload ≡ from_le_bytes len_bytes
    → write_packet payload ≡ ok (len_bytes ++ payload)
unfolding write_packet u32_try_from
write_packet-read len_bytes payload b four size =
    let small : length payload < 2 ^ 32 =
      omega (arith, rw four at (from_le_bytes-lt len_bytes b), size) in
    let same : to_le_bytes 4 (length payload) ≡ len_bytes =
      rw size (rw four at (to_le_bytes-from_le_bytes len_bytes b)) in
    rw (lt→ltb _ _ small) (ap (λ l. ok (l ++ payload)) same)

module _ (ndb : Ndb) where
  from_data-IsNoteOf :
      (payload : Bytes) (p : EventPacket)
      → from_data ndb payload ≡ ok p
      → (p.payload ≡ payload) × IsNoteOf ndb p
  unfolding from_data
  from_data-IsNoteOf payload p h =
      let (note, e, done) = >>=-eq-ok (ndb.from_bytes payload) _ h in
      let same : packet_of note payload ≡ p = cc in
      subst (λ (q : EventPacket). (q.payload ≡ payload) × IsNoteOf ndb q) same
        (refl, (note, e, refl, refl, refl, refl))

  -- A packet and the frame that it was read from.
  record Framed (bytes rest : Bytes) (p : EventPacket) : Type 0 where
    frame : Bytes
    written : write_packet p.payload ≡ ok frame
    whole : bytes ≡ frame ++ rest
    note : IsNoteOf ndb p
    rest_bytes : AreBytes rest

  read_event_packet-Framed :
      (bytes rest : Bytes) (p : EventPacket)
      → AreBytes bytes
      → read_event_packet ndb bytes ≡ ok (some (p, rest))
      → Framed bytes rest p
  unfolding read_event_packet read_payload write_packet u32_try_from
  read_event_packet-Framed bytes rest p b h = elim (Result-cases (read_exact 4 bytes)) [
    | inr (e, f) ↦ cc (rw (f, read_event_packet) at h)
    | inl ((len_bytes, behind), f) ↦
        let len = from_le_bytes len_bytes in
        let (parts, g, h') = >>=-eq-ok (read_exact len behind) _ (rw (f, read_event_packet) at h) in
        let (q, k, done) = >>=-eq-ok (from_data ndb parts.0) _ h' in
        let same : q ≡ p = cc in
        let left : parts.1 ≡ rest = cc in
        let t = read_exact-Taken 4 bytes len_bytes behind b f in
        let u = read_exact-Taken len behind parts.0 parts.1 t.rest_bytes g in
        let (payload, note) = from_data-IsNoteOf parts.0 p (k ∙ ap ok same) in
        record {
          frame = len_bytes ++ p.payload;
          written =
              write_packet-read len_bytes p.payload t.first_bytes t.size
                (ap length payload ∙ u.size);
          whole =
              t.whole
              ∙ ap (λ l. len_bytes ++ l)
                  (u.whole ∙ ap (λ l. l ++ parts.1) (sym payload) ∙ ap (λ l. p.payload ++ l) left)
              ∙ sym (append_assoc len_bytes p.payload rest);
          note = note;
          rest_bytes = rw left at u.rest_bytes;
        }
  ]

  read_event_packet-end : (bytes : Bytes) → read_event_packet ndb bytes ≡ ok none → length bytes < 4
  unfolding read_event_packet read_payload
  read_event_packet-end bytes h = elim (Result-cases (read_exact 4 bytes)) [
    | inr (e, f) ↦ read_exact-short 4 bytes e f
    | inl ((len_bytes, behind), f) ↦
        let (parts, g, h') =
          >>=-eq-ok (read_exact (from_le_bytes len_bytes) behind) _
            (rw (f, read_event_packet) at h) in
        let (q, k, done) = >>=-eq-ok (from_data ndb parts.0) _ h' in cc
  ]

  -- The packets of a file, and its end that holds none.
  pub record IsRead (file : Bytes) (packets : List EventPacket) : Type 0 where
    pub written : Bytes
    pub tail : Bytes
    pub frames : write_packets packets ≡ ok written
    pub whole : file ≡ written ++ tail
    pub cut : length tail < 4
    pub notes : All (IsNoteOf ndb) packets

  read_packets-IsRead :
      (fuel : ℕ) (file : Bytes) (packets : List EventPacket)
      → AreBytes file
      → read_packets ndb fuel file ≡ ok packets
      → IsRead file packets
  unfolding read_packets write_packets
  read_packets-IsRead zero file packets b h = cc
  read_packets-IsRead (suc fuel) file packets b h =
      elim (Result-cases (read_event_packet ndb file)) [
        | inr (e, f) ↦ cc (rw (f, read_packets) at h)
        | inl (none, f) ↦
            let same : [] ≡ packets = cc (rw (f, read_packets) at h) in
            subst (IsRead file) same (record {
              written = [];
              tail = file;
              frames = refl;
              whole = refl;
              cut = read_event_packet-end file f;
              notes = tt;
            })
        | inl (some (p, rest), f) ↦
            let (others, g, same) =
              push_packet-eq-ok p (read_packets ndb fuel rest) packets
                (rw (f, read_packets) at h) in
            let x = read_event_packet-Framed file rest p b f in
            let y = read_packets-IsRead fuel rest others x.rest_bytes g in
            subst (IsRead file) same (record {
              written = x.frame ++ y.written;
              tail = y.tail;
              frames = rw (x.written) (rw (y.frames) refl);
              whole =
                  x.whole
                  ∙ ap (λ l. x.frame ++ l) y.whole
                  ∙ sym (append_assoc x.frame y.written y.tail);
              cut = y.cut;
              notes = (x.note, y.notes);
            })
      ]

  -- If the packets of a file can be read, the file is what writing these packets, one after the
  -- other and in their order, gives, with fewer than four bytes behind it, and each packet has the
  -- identifier, the author, the time and the kind of the note in its payload. No frame is passed
  -- over.
  pub read_event_packets-IsRead :
      (file : Bytes) (packets : List EventPacket)
      → AreBytes file
      → read_event_packets ndb file ≡ ok packets
      → IsRead file packets
  unfolding read_event_packets
  read_event_packets-IsRead file packets b h =
      read_packets-IsRead (suc (length file)) file packets b h
