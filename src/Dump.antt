-- ===== src/Dump.antt =====
-- The dump of all events and its load, of db/mod.rs: records of a length of four bytes,
-- big-endian, and the payload. The insertion of a loaded record into the database is a parameter,
-- with its outcome; the callbacks that report progress are not modelled.
pub mod RoundTrip
use searchnos_db.Prelude.{
  ℕ, zero, suc, ◌+◌, Bytes, Option, none, some, List, [], ◌∷◌, ◌++◌, Result, ok, err, panic,
  unexpected_eof, Error, ◌>>=◌, ◌>>◌, length,
}
use searchnos_db.Prelude.Words.{to_be_bytes, from_be_bytes}
use searchnos_db.Event.Frame.{u32_try_from, read_exact}

abbrev pub load_batch_size : ℕ
load_batch_size = 1024

abbrev pub after_record : Bytes → Bytes × Result (Unit {0}) → Bytes × Result (Unit {0})
after_record record_bytes (rest, done) = (record_bytes ++ rest, done)

-- The loop of `dump_events_with_progress`: what is written, also before an error.
unfoldable pub dump_records : List Bytes → Bytes × Result (Unit {0})
dump_records [] = ([], ok tt)
dump_records (payload ∷ payloads) = elim (u32_try_from (length payload)) [
  | err e ↦ ([], err e)
  | ok len ↦ after_record (to_be_bytes 4 len ++ payload) (dump_records payloads)
]

-- `dump_events_with_progress`, on the result of the query for all events
unfoldable pub dump_events : List Bytes → Bytes × Result ℕ
dump_events packets =
    let (written, done) = dump_records packets in (written, done >>= (λ _. ok (length packets)))

-- `read_dump_record_length`: only an end of the file before the first byte is the end.
unfoldable pub read_dump_record_length : Bytes → Result (Option (ℕ × Bytes))
read_dump_record_length [] = ok none
read_dump_record_length (b ∷ bytes) = do
  (prefix, rest) ← read_exact 4 (b ∷ bytes)
  ok (some (from_be_bytes prefix, rest))

abbrev pub push_record : Bytes → List Bytes × Bytes → List Bytes × Bytes
push_record payload (batch, rest) = (payload ∷ batch, rest)

-- One batch of `load_events_with_progress`: at most this number of records, and what is left.
unfoldable pub read_batch : ℕ → Bytes → Result (List Bytes × Bytes)
read_batch zero bytes = ok ([], bytes)
read_batch (suc n) bytes = elim (read_dump_record_length bytes) [
  | err e ↦ err e
  | ok none ↦ ok ([], bytes)
  | ok (some (len, rest)) ↦ do
    (payload, behind) ← read_exact len rest
    others ← read_batch n behind
    ok (push_record payload others)
]

-- The outcome of `insert_loaded_dump_record`: inserted, refused by `is_load_record_error`, or
-- another error.
pub data Inserted (S : Type 0) : Type 0 where
  inserted : S → Inserted S
  skipped : Inserted S
  failed : Error → Inserted S

module _ {S : Type 0} (insert_loaded_dump_record : S → Bytes → Inserted S) where
  -- The loop over the records of a batch.
  unfoldable pub insert_batch : S → List Bytes → S × Result (Unit {0})
  insert_batch s [] = (s, ok tt)
  insert_batch s (payload ∷ batch) = elim (insert_loaded_dump_record s payload) [
    | inserted t ↦ insert_batch t batch
    | skipped ↦ insert_batch s batch
    | failed e ↦ (s, err e)
  ]

  abbrev pub go_on : (S → S × Result ℕ) → S × Result (Unit {0}) → S × Result ℕ
  go_on next (t, err e) = (t, err e)
  go_on next (t, ok u) = next t

  -- The outer loop, on fuel; a batch that is not empty takes some bytes.
  unfoldable pub load_batches : ℕ → S → ℕ → Bytes → S × Result ℕ
  load_batches zero s count bytes = (s, err panic)
  load_batches (suc fuel) s count bytes = elim (read_batch load_batch_size bytes) [
    | err e ↦ (s, err e)
    | ok (batch, rest) ↦ elim batch [
      | [] ↦ (s, ok count)
      | payload ∷ payloads ↦
          go_on (λ t. load_batches fuel t (count + length (payload ∷ payloads)) rest)
            (insert_batch s (payload ∷ payloads))
    ]
  ]

  -- `load_events_with_progress`
  unfoldable pub load_events : S → Bytes → S × Result ℕ
  load_events s bytes = load_batches (suc (length bytes)) s 0 bytes
