-- ===== src/Batched/Source.antt =====
-- The candidates of a day for a batch of queries: those of the hot file, and those of a partition by
-- its sidecar or by a scan, with the reading of the sidecar for the groups that are asked for.
use searchnos_db.Prelude.{
  ℕ, zero, suc, ◌+◌, ◌-◌, Bytes, Bool, true, false, ◌&&◌, Option, none, some, List, [], ◌∷◌, Result,
  ok, err, ◌>>=◌, any, get_elem?, length, replicate, if◌then◌else◌, nat_eq,
}
use searchnos_db.Prelude.Dict.{lookup}
use searchnos_db.Event.{EventPacket}
use searchnos_db.Event.Frame.{read_event_packet}
use searchnos_db.Search.Bloom.{may_match_terms}
use searchnos_db.Search.File.{Index}
use searchnos_db.Search.Terms.{record_text}
use searchnos_db.Cursor.Sources.{read_event_packet_at, record_at}
use searchnos_db.Reindex.{
  Context, Partitions, read_search_bloom_for_events, read_search_index_for_events,
}
use searchnos_db.Streaming.Partition.{rebuild, without_sidecar}
use searchnos_db.Batched.{Candidate}
use searchnos_db.Batched.Matcher.{SearchMatcher, matching_groups}

-- `requested_groups.iter().any(|requested| *requested)`
abbrev pub any_set : List Bool → Bool
any_set flags = any (λ (b : Bool). b) flags

-- `enum PartitionCandidateSource`; a scanned file is the bytes that are left.
pub data PartitionSource : Type 0 where
  indexed : (file : Bytes) (index : Index) (position : ℕ) → PartitionSource
  scanned : (file : Bytes) → PartitionSource
  empty : PartitionSource

abbrev pub scanned_candidate :
    Option (EventPacket × Bytes) → PartitionSource × Result (Option Candidate)
scanned_candidate none = (PartitionSource.scanned [], ok none)
scanned_candidate (some (packet, rest)) = (
  PartitionSource.scanned rest,
  ok (some (record { packet = packet; search_groups = []; from_partition = true })),
)

-- `PartitionCandidateSource::open`
abbrev pub open_source : Option Bytes → Option Index → PartitionSource
open_source none index = PartitionSource.empty
open_source (some file) (some index) = PartitionSource.indexed file index 0
open_source (some file) none = PartitionSource.scanned file

module _ (find_overlapping : List Bytes → Bytes → List ℕ) where
  -- `hot_candidates`, of the packets of a day with their indexes
  unfoldable pub hot_candidates :
      List ℕ × Bytes
      → List Bool
      → Bool
      → SearchMatcher
      → List (ℕ × EventPacket)
      → List Candidate × SearchMatcher
  hot_candidates (offsets, text) enabled include_non_search m [] = ([], m)
  hot_candidates (offsets, text) enabled include_non_search m ((i, packet) ∷ hot) =
      let (matched, groups) =
        matching_groups find_overlapping m (record_text offsets text i) enabled enabled in
      let (others, last) = hot_candidates (offsets, text) enabled include_non_search matched hot in
      let candidate : Candidate = record {
        packet = packet;
        search_groups = groups;
        from_partition = false;
      } in
      elim groups [
        | [] ↦ ((if include_non_search then candidate ∷ others else others), last)
        | g ∷ gs ↦ (candidate ∷ others, last)
      ]

module _ (c : Context) (find_overlapping : List Bytes → Bytes → List ℕ) where
  -- What a search returns: the source behind the record, the matcher and the candidate.
  abbrev pub Found : Type 0
  Found = PartitionSource × SearchMatcher × Result (Option Candidate)

  unfoldable pub candidate_at : Bytes → Index → ℕ → List ℕ → Result (Option Candidate)
  candidate_at file index i groups = do
    index_record ← record_at (get_elem? index.records i)
    packet ← read_event_packet_at c.ndb file index_record
    ok (some (record { packet = packet; search_groups = groups; from_partition = true }))

  -- The loop over the records that are left.
  unfoldable pub next_indexed :
      ℕ → Bytes → Index → ℕ → List Bool → List Bool → Bool → SearchMatcher → Found
  next_indexed zero file index i enabled requested include_non_search m =
      (PartitionSource.indexed file index i, m, ok none)
  next_indexed (suc n) file index i enabled requested include_non_search m =
      let (matched, groups) =
        matching_groups find_overlapping m (record_text index.offsets index.text i) enabled
          requested in
      let found : Found =
        (PartitionSource.indexed file index (i + 1), matched, candidate_at file index i groups) in
      let skipped : Found =
        next_indexed n file index (i + 1) enabled requested include_non_search matched in
      elim groups [
        | [] ↦ elim include_non_search [ true ↦ found | false ↦ skipped ]
        | g ∷ gs ↦ found
      ]

  abbrev pub scan_next :
      Result (Option (EventPacket × Bytes)) → PartitionSource × Result (Option Candidate)
  scan_next (err e) = (PartitionSource.scanned [], err e)
  scan_next (ok packet) = scanned_candidate packet

  -- `next_candidate`
  unfoldable pub next_candidate :
      PartitionSource → List Bool → List Bool → Bool → SearchMatcher → Found
  next_candidate (PartitionSource.indexed file index i) enabled requested include_non_search m =
      next_indexed (length index.records - i) file index i enabled requested include_non_search m
  next_candidate (PartitionSource.scanned file) enabled requested include_non_search m =
      elim include_non_search [
        | false ↦ (PartitionSource.scanned file, m, ok none)
        | true ↦
            let (source, candidate) = scan_next (read_event_packet c.ndb file) in
            (source, m, candidate)
      ]
  next_candidate PartitionSource.empty enabled requested include_non_search m =
      (PartitionSource.empty, m, ok none)

  -- The groups are given with the characters of their terms, which the grams are made of.
  unfoldable pub enable_groups : List ℕ → List Bool → List (List (List ℕ)) → List Bool
  enable_groups bits [] groups = []
  enable_groups bits (requested ∷ flags) [] = requested ∷ flags
  enable_groups bits (requested ∷ flags) (terms ∷ groups) =
      (requested && may_match_terms bits terms) ∷ enable_groups bits flags groups

  -- `read_batched_search_index_once`
  unfoldable pub read_batched_search_index_once :
      Partitions c → ℕ → List (List (List ℕ)) → List Bool → Result (Option Index × List Bool)
  read_batched_search_index_once p day groups requested = do
    bits ← read_search_bloom_for_events c p day
    let enabled = enable_groups bits requested groups
    elim (any_set enabled) [
      | false ↦ ok (none, enabled)
      | true ↦ do index ← read_search_index_for_events c p day; ok (some index, enabled)
    ]

  -- No group is enabled where the sidecar cannot be had.
  abbrev pub no_index : List (List (List ℕ)) → Option Index × List Bool
  no_index groups = (none, replicate (length groups) false)

  abbrev pub result_or : {A : Type 0} → A → Result A → A
  result_or default_value (ok a) = a
  result_or default_value (err e) = default_value

  abbrev pub after_rebuilding :
      ℕ
      → List (List (List ℕ))
      → List Bool
      → Partitions c × Bool
      → Partitions c × (Option Index × List Bool)
  after_rebuilding day groups requested (p, false) = (p, no_index groups)
  after_rebuilding day groups requested (p, true) =
      (p, result_or (no_index groups) (read_batched_search_index_once p day groups requested))

  unfoldable pub read_or_rebuild :
      Partitions c
      → ℕ
      → List (List (List ℕ))
      → List Bool
      → Partitions c × (Option Index × List Bool)
  read_or_rebuild p day groups requested =
      elim (read_batched_search_index_once p day groups requested) [
        | ok found ↦ (p, found)
        | err e ↦ after_rebuilding day groups requested (rebuild c (without_sidecar c p day) day)
      ]

  abbrev pub if_rebuilt :
      ℕ
      → List (List (List ℕ))
      → List Bool
      → Partitions c × Bool
      → Partitions c × (Option Index × List Bool)
  if_rebuilt day groups requested (p, false) = (p, no_index groups)
  if_rebuilt day groups requested (p, true) = read_or_rebuild p day groups requested

  -- `read_batched_search_index`
  unfoldable pub read_batched_search_index :
      Partitions c
      → ℕ
      → List (List (List ℕ))
      → List Bool
      → Partitions c × (Option Index × List Bool)
  read_batched_search_index p day groups requested = elim (lookup day p.sidecars) [
    | some sidecar ↦ read_or_rebuild p day groups requested
    | none ↦ if_rebuilt day groups requested (rebuild c p day)
  ]
