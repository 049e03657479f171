-- ===== src/Examples/Dump.antt =====
-- A dump of two packets and its load into a list that refuses empty packets (db/mod.rs).
use searchnos_db.Prelude.{Bytes, List, [], ◌∷◌, ◌++◌, ok, ◌≡◌, arith, length}
use searchnos_db.Dump.{Inserted, inserted, skipped, dump_events, load_events, insert_batch, go_on}
use searchnos_db.Dump.RoundTrip.{load_events-dump_events}

-- An insertion at the end of a list; an empty packet is a bad record.
abbrev insert_last : List Bytes → Bytes → Inserted (List Bytes)
insert_last loaded [] = skipped
insert_last loaded (b ∷ payload) = inserted (loaded ++ (b ∷ payload) ∷ [])

abbrev dumped : List Bytes
dumped = (7 ∷ 8 ∷ []) ∷ [] ∷ (9 ∷ []) ∷ []

load_events-dump_events_example :
    ((dump_events dumped).1 ≡ ok (length dumped))
    × (load_events insert_last [] (dump_events dumped).0
        ≡ go_on insert_last (λ t. (t, ok (length dumped))) (insert_batch insert_last [] dumped))
load_events-dump_events_example =
    load_events-dump_events insert_last [] dumped (omega arith, (omega arith, (omega arith, tt)))
