-- ===== src/Compaction/Days.antt =====
-- A compaction of a hot file over all days: which packets go to which day, and that the days do
-- not touch each other.
use searchnos_db.Prelude.{
  ℕ, Bytes, if◌then◌else◌, Option, none, some, List, [], ◌∷◌, ◌++◌, Result, ok, err, ◌≡◌, refl, sym,
  subst, ap, ◌∙◌, arith, inl, inr, Bool-cases, Result-cases, >>=-eq-ok, nat_eq, ◌=?◌, length, ◌>>=◌,
}
use mathlib.Core.List.{append_assoc, append-nil}
use searchnos_db.Prelude.Dict.{Dict, lookup, upsert, lookup-upsert, updated}
use searchnos_db.Note.{Ndb}
use searchnos_db.Event.{EventPacket, unix_day}
use searchnos_db.Event.Frame.{read_event_packets}
use searchnos_db.Search.Index.{Texts}
use searchnos_db.Compaction.{
  Output, Storage, CompactOutput, push_by_day, packets_by_day, merge_packets_into_partition,
  merge_day, merge_days, compact_hot_file,
}

-- The packets of a day, in the order of the file.
unfoldable pub day_packets : ℕ → List EventPacket → List EventPacket
day_packets day [] = []
day_packets day (packet ∷ packets) =
    let rest = day_packets day packets in if unix_day packet =? day then packet ∷ rest else rest

-- Packets that join those of a day; a day without packets has no job.
abbrev pub joined : Option (List EventPacket) → List EventPacket → Option (List EventPacket)
joined none [] = none
joined none (packet ∷ packets) = some (packet ∷ packets)
joined (some before) packets = some (before ++ packets)

joined-none : (o : Option (List EventPacket)) → joined o [] ≡ o
joined-none none = refl
joined-none (some before) = ap some (append-nil before)

joined-updated :
    (o : Option (List EventPacket)) (packet : EventPacket) (packets : List EventPacket)
    → joined (some (updated (λ ps. ps ++ packet ∷ []) (packet ∷ []) o)) packets
      ≡ joined o (packet ∷ packets)
joined-updated none packet packets = refl
joined-updated (some before) packet packets = ap some (append_assoc before (packet ∷ []) packets)

lookup-packets_by_day :
    (day : ℕ) (days : Dict ℕ (List EventPacket)) (packets : List EventPacket)
    → lookup day (packets_by_day days packets) ≡ joined (lookup day days) (day_packets day packets)
unfolding packets_by_day day_packets push_by_day
lookup-packets_by_day day days [] = sym (joined-none (lookup day days))
lookup-packets_by_day day days (packet ∷ packets) =
    rw (lookup-packets_by_day day (push_by_day days packet) packets) (
      rw (lookup-upsert (unix_day packet) day (λ ps. ps ++ packet ∷ []) (packet ∷ []) days)
        (elim (Bool-cases (unix_day packet =? day)) [
          | inl same ↦ rw same (
              rw ((nat_eq.beq_iff (unix_day packet) day).0 same)
                (joined-updated (lookup day days) packet (day_packets day packets)))
          | inr other ↦ rw other refl
        ]))

-- Every key has one entry.
abbrev pub IsDistinct {ℓ} : {V : Type ℓ} → Dict ℕ V → Type ℓ
IsDistinct [] = Unit
IsDistinct ((k, v) ∷ m) = (lookup k m ≡ none) × IsDistinct m

IsDistinct-upsert :
    {V : Type 0} (k : ℕ) (f : V → V) (v : V) (m : Dict ℕ V)
    → IsDistinct m
    → IsDistinct (upsert k f v m)
unfolding upsert lookup
IsDistinct-upsert k f v [] d = (refl, tt)
IsDistinct-upsert k f v ((j, w) ∷ m) d = elim (Bool-cases (j =? k)) [
  | inl same ↦ rw same d
  | inr other ↦ rw other (
    rw (lookup-upsert k j f v m) (ground (arith, d.0, nat_eq.beq_iff k j, nat_eq.beq_iff j k)),
    IsDistinct-upsert k f v m d.1,
  )
]

IsDistinct-packets_by_day :
    (days : Dict ℕ (List EventPacket)) (packets : List EventPacket)
    → IsDistinct days
    → IsDistinct (packets_by_day days packets)
unfolding packets_by_day push_by_day
IsDistinct-packets_by_day days [] d = d
IsDistinct-packets_by_day days (packet ∷ packets) d =
    IsDistinct-packets_by_day (push_by_day days packet) packets
      (IsDistinct-upsert (unix_day packet) (λ ps. ps ++ packet ∷ []) (packet ∷ []) days d)

pair_path {ℓ κ} :
    {A : Type ℓ} {B : Type κ} (p : A × B) (a : A) (b : B) → p.0 ≡ a → p.1 ≡ b → p ≡ (a, b)
pair_path (x, y) a b e f = rw (e, f) refl

lookup-upsert_const {ℓ} :
    {V : Type ℓ} (k j : ℕ) (v : V) (m : Dict ℕ V)
    → lookup j (upsert k (λ _. v) v m) ≡ (if k =? j then some v else lookup j m)
lookup-upsert_const k j v m = rw (lookup-upsert k j (λ _. v) v m) (written (lookup k m))
  where
    written :
        (o : Option _)
        → (if k =? j then some (updated (λ _. v) v o) else lookup j m)
          ≡ (if k =? j then some v else lookup j m)
    written none = refl
    written (some w) = refl

module _ {ℓ} {Bloom : Type ℓ} (ndb : Ndb) (texts : Texts Bloom) where
  -- What a compaction did to a day: its files are as before, or written by the merge of the
  -- packets into what was there.
  abbrev pub IsDone : Storage Bloom → Storage Bloom → ℕ → Option (List EventPacket) → Type ℓ
  IsDone before after day none =
      (lookup day after.partitions ≡ lookup day before.partitions)
      × (lookup day after.sidecars ≡ lookup day before.sidecars)
  IsDone before after day (some packets) =
      (o : Output Bloom) × (merge_packets_into_partition ndb texts (lookup day before.partitions)
          packets
        ≡ ok o)
      × (lookup day after.partitions ≡ some o.partition)
      × (lookup day after.sidecars ≡ some o.search_index)

  -- A job writes the files of its own day.
  record IsWritten (before after : Storage Bloom) (day : ℕ) (packets : List EventPacket)
      : Type ℓ where
    output : Output Bloom
    merged :
        merge_packets_into_partition ndb texts (lookup day before.partitions) packets ≡ ok output
    partitions :
        (other : ℕ)
        → lookup other after.partitions
          ≡ (if day =? other then some output.partition else lookup other before.partitions)
    sidecars :
        (other : ℕ)
        → lookup other after.sidecars
          ≡ (if day =? other then some output.search_index else lookup other before.sidecars)

  merge_day-IsWritten :
      (before after : Storage Bloom) (day : ℕ) (packets : List EventPacket)
      → merge_day ndb texts before (day, packets) ≡ ok after
      → IsWritten before after day packets
  unfolding merge_day
  merge_day-IsWritten before after day packets h =
      let (o, e, h') =
        >>=-eq-ok (merge_packets_into_partition ndb texts (lookup day before.partitions) packets) _
          h in
      let w : IsWritten before (storage_with o) day packets = record {
        output = o;
        merged = e;
        partitions = λ other. lookup-upsert_const day other o.partition before.partitions;
        sidecars = λ other. lookup-upsert_const day other o.search_index before.sidecars;
      } in
      let same : storage_with o ≡ after = cc in
      subst (λ storage. IsWritten before storage day packets) same w
    where
      storage_with : Output Bloom → Storage Bloom
      storage_with o = record {
        partitions = upsert day (λ _. o.partition) o.partition before.partitions;
        sidecars = upsert day (λ _. o.search_index) o.search_index before.sidecars;
        summaries = before.summaries ++ o.visibility_summary ∷ [];
      }

  IsDone-before :
      (before between after : Storage Bloom) (day : ℕ) (packets : Option (List EventPacket))
      → lookup day between.partitions ≡ lookup day before.partitions
      → lookup day between.sidecars ≡ lookup day before.sidecars
      → IsDone between after day packets
      → IsDone before after day packets
  IsDone-before before between after day none p s (p', s') = (p' ∙ p, s' ∙ s)
  IsDone-before before between after day (some packets) p s (o, e, p', s') = (o, rw p at e, p', s')

  merge_days-IsDone :
      (before after : Storage Bloom) (day : ℕ) (jobs : Dict ℕ (List EventPacket))
      → IsDistinct jobs
      → merge_days ndb texts before jobs ≡ (after, ok tt)
      → IsDone before after day (lookup day jobs)
  unfolding merge_days lookup
  merge_days-IsDone before after day [] d h =
      let same : before ≡ after = ap (λ (r : Storage Bloom × Result (Unit {0})). r.0) h in
      (rw same, rw same)
  merge_days-IsDone before after day ((other, packets) ∷ jobs) d h =
      elim (Result-cases (merge_day ndb texts before (other, packets))) [
        | inr (e, failed) ↦ cc (rw (failed, merge_days) at h)
        | inl (between, written) ↦
            let w = merge_day-IsWritten before between other packets written in
            let ih = merge_days-IsDone between after day jobs d.1 (rw (written, merge_days) at h) in
            elim (Bool-cases (other =? day)) [
              | inl same ↦ rw same (
                  let day_is = (nat_eq.beq_iff other day).0 same in
                  let rest = rw (← day_is, d.0) at ih in
                  let self = rw (← day_is) at same in
                  rw (← day_is) (
                    w.output,
                    w.merged,
                    rest.0 ∙ w.partitions other ∙ rw self refl,
                    rest.1 ∙ w.sidecars other ∙ rw self refl,
                  ))
              | inr different ↦ rw different (
                  IsDone-before before between after day (lookup day jobs)
                    (w.partitions day ∙ rw different refl) (w.sidecars day ∙ rw different refl) ih)
            ]
      ]

  abbrev summary_of : List EventPacket → CompactOutput
  summary_of packets = record {
    output_partitions = length (packets_by_day [] packets);
    events = length packets;
  }

  jobs_done :
      (packets : List EventPacket) (done : Result (Unit {0})) (output : CompactOutput)
      → (done >>= (λ _. ok (summary_of packets))) ≡ ok output
      → (done ≡ ok tt) × (output.events ≡ length packets)
  jobs_done packets (err e) output h = cc
  jobs_done packets (ok u) output h =
      let same : summary_of packets ≡ output = cc in
      (refl, ap (λ (o : CompactOutput). o.events) (sym same))

  -- A compaction that succeeds has read the hot file, and for each day has merged exactly the
  -- packets of that day, in the order of the hot file, into the files of the day; the files of a
  -- day without packets are as before.
  pub compact_hot_file-IsDone :
      (before after : Storage Bloom) (hot : Bytes) (output : CompactOutput) (day : ℕ)
      → compact_hot_file ndb texts before hot ≡ (after, ok output)
      → (packets : List EventPacket) × (read_event_packets ndb hot ≡ ok packets)
        × (output.events ≡ length packets)
        × IsDone before after day (joined none (day_packets day packets))
  unfolding compact_hot_file lookup
  compact_hot_file-IsDone before after hot output day h =
      elim (Result-cases (read_event_packets ndb hot)) [
        | inr (e, failed) ↦ cc (rw (failed, compact_hot_file) at h)
        | inl (packets, e) ↦
            let days = packets_by_day [] packets in
            let k = rw (e, compact_hot_file) at h in
            let (done, count) =
              jobs_done packets (merge_days ndb texts before days).1 output
                (ap (λ (r : Storage Bloom × Result CompactOutput). r.1) k) in
            let left : (merge_days ndb texts before days).0 ≡ after =
              ap (λ (r : Storage Bloom × Result CompactOutput). r.0) k in
            (
              packets,
              e,
              count,
              subst (IsDone before after day) (lookup-packets_by_day day [] packets) (
                  merge_days-IsDone before after day days (IsDistinct-packets_by_day [] packets tt)
                    (pair_path (merge_days ndb texts before days) after (ok tt) left done)),
            )
      ]
