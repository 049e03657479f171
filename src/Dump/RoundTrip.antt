-- ===== src/Dump/RoundTrip.antt =====
-- A dump loads back: every record is inserted, in the order of the dump.
use searchnos_db.Prelude.{
  ℕ, zero, suc, ◌+◌, ◌≤◌, ◌<◌, ◌^◌, Bytes, true, ltb, some, List, [], ◌∷◌, ◌++◌, Result, ok, err,
  Error, ◌≡◌, refl, sym, ap, ◌∙◌, arith, length, length-append, take, drop, take-drop, length-drop,
  All, ◌⊎◌, inl, inr,
}
use mathlib.Core.Path.{fun_ext}
use mathlib.Core.List.{append_assoc}
use searchnos_db.Prelude.Words.{
  to_be_bytes, from_be_bytes, length-to_be_bytes, from_be_bytes-to_be_bytes,
}
use searchnos_db.Event.Frame.{u32_try_from, read_exact}
use searchnos_db.Event.Frame.RoundTrip.{read_exact-append}
use searchnos_db.Dump.{
  dump_records, dump_events, read_dump_record_length, read_batch, Inserted, inserted, skipped,
  failed, insert_batch, load_batches, load_events, load_batch_size, go_on,
}

-- Payloads whose lengths fit into 32 bits.
abbrev pub AreShort : List Bytes → Type 0
AreShort = All (λ payload. length payload < 2 ^ 32)

-- The records of payloads.
unfoldable pub records : List Bytes → Bytes
records [] = []
records (payload ∷ payloads) = (to_be_bytes 4 (length payload) ++ payload) ++ records payloads

dump_records-AreShort :
    (payloads : List Bytes) → AreShort payloads → dump_records payloads ≡ (records payloads, ok tt)
unfolding dump_records records u32_try_from
dump_records-AreShort [] h = refl
dump_records-AreShort (payload ∷ payloads) h =
    let fits : ltb (length payload) (2 ^ 32) ≡ true = ground (arith, h.0) in
    rw (fits, dump_records) (rw (dump_records-AreShort payloads h.1) refl)

read_prefix :
    (bytes prefix rest : Bytes)
    → read_exact 4 bytes ≡ ok (prefix, rest)
    → read_dump_record_length bytes ≡ ok (some (from_be_bytes prefix, rest))
unfolding read_dump_record_length read_exact
read_prefix [] prefix rest h = cc
read_prefix (b ∷ bytes) prefix rest h = rw h refl

read_dump_record_length-append :
    (len : ℕ) (rest : Bytes)
    → len < 2 ^ 32
    → read_dump_record_length (to_be_bytes 4 len ++ rest) ≡ ok (some (len, rest))
read_dump_record_length-append len rest h =
    rw
      (read_prefix (to_be_bytes 4 len ++ rest) (to_be_bytes 4 len) rest
        (read_exact-append 4 (to_be_bytes 4 len) rest (length-to_be_bytes 4 len)))
      (rw (from_be_bytes-to_be_bytes 4 len (omega arith)) refl)

-- A batch takes the first payloads and leaves the others.
read_batch-records :
    (n : ℕ) (payloads : List Bytes)
    → AreShort payloads
    → read_batch n (records payloads) ≡ ok (take n payloads, records (drop n payloads))
unfolding read_batch records read_dump_record_length
read_batch-records zero payloads h = refl
read_batch-records (suc n) [] h = refl
read_batch-records (suc n) (payload ∷ payloads) h =
    rw (append_assoc (to_be_bytes 4 (length payload)) payload (records payloads)) (
      rw
        (
          read_dump_record_length-append (length payload) (payload ++ records payloads) h.0,
          read_batch,
        )
        (rw (read_exact-append (length payload) payload (records payloads) refl)
          (rw (read_batch-records n payloads h.1) refl)))

AreShort-drop : (n : ℕ) (payloads : List Bytes) → AreShort payloads → AreShort (drop n payloads)
AreShort-drop zero payloads h = h
AreShort-drop (suc n) [] h = h
AreShort-drop (suc n) (payload ∷ payloads) h = AreShort-drop n payloads h.1

length-records : (payloads : List Bytes) → length payloads ≤ length (records payloads)
unfolding records
length-records [] = omega arith
length-records (payload ∷ payloads) = omega (
  arith,
  length-records payloads,
  length-append (to_be_bytes 4 (length payload) ++ payload) (records payloads),
  length-append (to_be_bytes 4 (length payload)) payload,
  length-to_be_bytes 4 (length payload),
)

module _ {S : Type 0} (insert : S → Bytes → Inserted S) where
  Inserted-cases :
      (r : Inserted S)
      → ((t : S) × (r ≡ inserted t)) ⊎ ((r ≡ skipped) ⊎ ((e : Error) × (r ≡ failed e)))
  Inserted-cases (inserted t) = inl (t, refl)
  Inserted-cases skipped = inr (inl refl)
  Inserted-cases (failed e) = inr (inr (e, refl))

  insert_batch-step :
      (next : S → S × Result ℕ) (s t : S) (x : Bytes) (xs ys : List Bytes)
      → ((zs : List Bytes) → insert_batch insert s (x ∷ zs) ≡ insert_batch insert t zs)
      → go_on insert next (insert_batch insert t (xs ++ ys))
        ≡ go_on insert
            (λ u. go_on insert next (insert_batch insert u ys))
            (insert_batch insert t xs)
      → go_on insert next (insert_batch insert s (x ∷ xs ++ ys))
        ≡ go_on insert
            (λ u. go_on insert next (insert_batch insert u ys))
            (insert_batch insert s (x ∷ xs))
  insert_batch-step next s t x xs ys step others =
      ap (go_on insert next) (step (xs ++ ys))
      ∙ others
      ∙ sym (ap (go_on insert (λ u. go_on insert next (insert_batch insert u ys))) (step xs))

  insert_batch-append :
      (next : S → S × Result ℕ) (s : S) (xs ys : List Bytes)
      → go_on insert next (insert_batch insert s (xs ++ ys))
        ≡ go_on insert
            (λ t. go_on insert next (insert_batch insert t ys))
            (insert_batch insert s xs)
  unfolding insert_batch
  insert_batch-append next s [] ys = refl
  insert_batch-append next s (x ∷ xs) ys = elim (Inserted-cases (insert s x)) [
    | inl (t, e) ↦
        insert_batch-step next s t x xs ys (λ zs. rw (e, insert_batch) refl)
          (insert_batch-append next t xs ys)
    | inr (inl e) ↦
        insert_batch-step next s s x xs ys (λ zs. rw (e, insert_batch) refl)
          (insert_batch-append next s xs ys)
    | inr (inr (f, e)) ↦
        let stop : (zs : List Bytes) → insert_batch insert s (x ∷ zs) ≡ (s, err f) =
          λ zs. rw (e, insert_batch) refl in
        ap (go_on insert next) (stop (xs ++ ys))
        ∙ sym (ap (go_on insert (λ t. go_on insert next (insert_batch insert t ys))) (stop xs))
  ]

  -- What is left to do after a list of records is done.
  abbrev finish : ℕ → List Bytes → S → S × Result ℕ
  finish total payloads s = go_on insert (λ t. (t, ok total)) (insert_batch insert s payloads)

  finish_nil : (total : ℕ) (s : S) → finish total [] s ≡ (s, ok total)
  unfolding insert_batch
  finish_nil total s = refl

  finish-append :
      (total : ℕ) (n : ℕ) (payloads : List Bytes) (s : S)
      → go_on insert (finish total (drop n payloads)) (insert_batch insert s (take n payloads))
        ≡ finish total payloads s
  finish-append total n payloads s =
      sym (insert_batch-append (λ t. (t, ok total)) s (take n payloads) (drop n payloads))
      ∙ rw (take-drop n payloads) refl

  load_batches-records :
      (fuel : ℕ) (s : S) (count : ℕ) (payloads : List Bytes)
      → AreShort payloads
      → length payloads < fuel
      → load_batches insert fuel s count (records payloads)
        ≡ finish (count + length payloads) payloads s
  unfolding load_batches
  load_batches-records zero s count payloads h enough = absurd (omega arith)
  load_batches-records (suc fuel) s count [] h enough =
      rw (read_batch-records load_batch_size [] h, load_batches)
        (ap (λ n. (s, ok n)) (omega arith) ∙ sym (finish_nil (count + 0) s))
  load_batches-records (suc fuel) s count (payload ∷ payloads) h enough =
      let all = payload ∷ payloads in
      let parts : length (take load_batch_size all) + length (drop load_batch_size all)
          ≡ length (payload ∷ payloads) =
        sym (length-append (take load_batch_size all) (drop load_batch_size all))
        ∙ ap length (take-drop load_batch_size all) in
      let counted : count + length (take load_batch_size all) + length (drop load_batch_size all)
          ≡ count + length (payload ∷ payloads) =
        omega (arith, parts) in
      rw (read_batch-records load_batch_size all h, load_batches)
        (ap (λ next. go_on insert next (insert_batch insert s (take load_batch_size all)))
            (fun_ext (λ t.
              load_batches-records fuel t (count + length (take load_batch_size all))
                (drop load_batch_size all) (AreShort-drop load_batch_size all h)
                (omega (arith, length-drop load_batch_size all))
              ∙ ap (λ n. finish n (drop load_batch_size all) t) counted))
          ∙ finish-append (count + length (payload ∷ payloads)) load_batch_size all s)

  -- For packets of lengths below 2 ^ 32, the dump succeeds and returns their number, and loading
  -- what it wrote inserts the packets one by one in the order of the dump, over all batches, and
  -- returns their number, or stops at the first insertion that fails with an error other than
  -- that of a bad record.
  pub load_events-dump_events :
      (s : S) (packets : List Bytes)
      → AreShort packets
      → ((dump_events packets).1 ≡ ok (length packets))
        × (load_events insert s (dump_events packets).0
            ≡ go_on insert (λ t. (t, ok (length packets))) (insert_batch insert s packets))
  unfolding load_events dump_events
  load_events-dump_events s packets h = rw (dump_records-AreShort packets h) (
    refl,
    load_batches-records (suc (length (records packets))) s 0 packets h
          (omega (arith, length-records packets))
        ∙ ap (λ n. finish n packets s) (omega arith),
  )
