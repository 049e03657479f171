-- ===== src/Compaction.antt =====
-- storage/compaction.rs: how the packets of a rotated hot file get into the day partitions. A file
-- is written beside the old one and renamed over it at the end, so for one day the model gives the
-- new contents, or an error and nothing changed; the packets that are there are read before the
-- merge and not during it. The workers take one job for each day from a queue and write disjoint
-- files; the model is of one worker, which ends at the first error.
pub mod Merge
pub mod Partition
pub mod Days
pub mod Sidecar
use searchnos_db.Prelude.{
  ℕ, Bytes, true, false, Option, none, some, List, [], ◌∷◌, ◌++◌, Result, ok, err, ◌>>=◌, ◌>>◌,
  length, fold_result, is_gt, nat_eq,
}
use searchnos_db.Prelude.Dict.{Dict, lookup, upsert}
use searchnos_db.Note.{Ndb}
use searchnos_db.Event.{EventPacket, unix_day}
use searchnos_db.Event.Frame.{write_packet, read_event_packets}
use searchnos_db.Query.{compare_packets, sort_packets}
use searchnos_db.Search.Index.{SearchIndex, Texts, empty_search_index, append_to_search_index}
use searchnos_db.Visibility.Summary.{VisibilitySummary, empty_summary, add_packet}

-- The loop of `merge_packets_into_partition` that chooses the next packet: `take_new` if the
-- existing packet follows the new one.
unfoldable pub merge_packets : List EventPacket → List EventPacket → List EventPacket
merge_packets [] new_packets = new_packets
merge_packets (e ∷ existing) [] = e ∷ existing
merge_packets (e ∷ existing) (n ∷ new_packets) = elim (is_gt (compare_packets e n)) [
  | true ↦ n ∷ merge_packets (e ∷ existing) new_packets
  | false ↦ e ∷ merge_packets existing (n ∷ new_packets)
]

-- The partition file, its sidecar and the summary, as far as they are written.
pub record Output {ℓ} (Bloom : Type ℓ) : Type ℓ where
  pub partition : Bytes
  pub search_index : SearchIndex Bloom
  pub visibility_summary : VisibilitySummary

-- What compaction leaves: the files by their day, and the summaries that were merged into the
-- visibility store.
pub record Storage {ℓ} (Bloom : Type ℓ) : Type ℓ where
  pub partitions : Dict ℕ Bytes
  pub sidecars : Dict ℕ (SearchIndex Bloom)
  pub summaries : List VisibilitySummary

-- `packets_by_day.entry(packet.unix_day()).or_default().push(packet)`
unfoldable pub push_by_day : Dict ℕ (List EventPacket) → EventPacket → Dict ℕ (List EventPacket)
push_by_day days packet = upsert (unix_day packet) (λ ps. ps ++ packet ∷ []) (packet ∷ []) days

unfoldable pub packets_by_day :
    Dict ℕ (List EventPacket) → List EventPacket → Dict ℕ (List EventPacket)
packets_by_day days [] = days
packets_by_day days (packet ∷ packets) = packets_by_day (push_by_day days packet) packets

-- `CompactOutput`
pub record CompactOutput : Type 0 where
  pub output_partitions : ℕ
  pub events : ℕ

-- The packets of the partition, none if there is no file.
unfoldable pub existing_packets : Ndb → Option Bytes → Result (List EventPacket)
existing_packets ndb none = ok []
existing_packets ndb (some file) = read_event_packets ndb file

module _ {ℓ} {Bloom : Type ℓ} (ndb : Ndb) (texts : Texts Bloom) where
  -- `write_merged_packet`
  unfoldable pub write_merged_packet : Output Bloom → EventPacket → Result (Output Bloom)
  write_merged_packet output packet = do
    frame ← write_packet packet.payload
    index ← append_to_search_index texts output.search_index packet.payload
    summary ← add_packet ndb output.visibility_summary packet
    ok (record {
      partition = output.partition ++ frame;
      search_index = index;
      visibility_summary = summary;
    })

  abbrev pub empty_output : Output Bloom
  empty_output = record {
    partition = [];
    search_index = empty_search_index texts;
    visibility_summary = empty_summary;
  }

  -- `merge_packets_into_partition`
  unfoldable pub merge_packets_into_partition :
      Option Bytes → List EventPacket → Result (Output Bloom)
  merge_packets_into_partition file new_packets = do
    existing ← existing_packets ndb file
    fold_result write_merged_packet empty_output (merge_packets existing (sort_packets new_packets))

  -- One job of a worker, with the two renames and the merge into the visibility store.
  unfoldable pub merge_day : Storage Bloom → ℕ × List EventPacket → Result (Storage Bloom)
  merge_day storage (day, packets) = do
    output ← merge_packets_into_partition (lookup day storage.partitions) packets
    ok (record {
      partitions = upsert day (λ _. output.partition) output.partition storage.partitions;
      sidecars = upsert day (λ _. output.search_index) output.search_index storage.sidecars;
      summaries = storage.summaries ++ output.visibility_summary ∷ [];
    })

  -- The jobs in their order. An error ends them, and the days before it stay written.
  unfoldable pub merge_days :
      Storage Bloom → Dict ℕ (List EventPacket) → Storage Bloom × Result (Unit {0})
  merge_days storage [] = (storage, ok tt)
  merge_days storage (job ∷ jobs) = elim (merge_day storage job) [
    | ok merged ↦ merge_days merged jobs
    | err e ↦ (storage, err e)
  ]

  -- `compact_hot_file`, with what it leaves
  unfoldable pub compact_hot_file : Storage Bloom → Bytes → Storage Bloom × Result CompactOutput
  compact_hot_file storage hot = elim (read_event_packets ndb hot) [
    | err e ↦ (storage, err e)
    | ok hot_packets ↦
        let days = packets_by_day [] hot_packets in
        let (merged, done) = merge_days storage days in
        (
          merged,
          done >>= (λ _.
              ok (record { output_partitions = length days; events = length hot_packets })),
        )
  ]
