-- ===== src/Reindex.antt =====
-- storage/reindex.rs and storage/reindex_runner.rs: the sidecar of a partition is written again from
-- its events file, and what these say of visibility goes into the store. The files of the
-- partitions are kept by their day; a failing disk is not modelled, and the lock of the sidecars is
-- SidecarQueue.
pub mod Current
use searchnos_db.Prelude.{
  ℕ, ◌+◌, Bytes, Bool, true, false, ltb, Option, none, some, List, [], ◌∷◌, Result, ok, err, ◌>>=◌,
  io, length, nat_eq, ◌==◌, if◌then◌else◌,
}
use searchnos_db.Prelude.Dict.{Dict, lookup, upsert}
use searchnos_db.Note.{Ndb}
use searchnos_db.Compaction.{existing_packets}
use searchnos_db.Search.Index.{Texts, build_search_index}
use searchnos_db.Search.File.{
  Index, write_search_index_parts, read_search_index_trusted, read_search_bloom_trusted,
}
use searchnos_db.SearchText.{Unicode, Json}
use searchnos_db.Visibility.Summary.{VisibilitySummary, summary_from_packets}
use searchnos_db.Visibility.Store.{Lmdb, VisibilityStore, merge_summary}

-- The kinds that are searched, and what comes from other crates.
pub record Context : Type 1 where
  pub ndb : Ndb
  pub unicode : Unicode
  pub json : Json
  pub lmdb : Lmdb
  pub sha256 : Bytes → Bytes
  pub texts : Texts (List ℕ)
  pub searchable_kinds : Option (List ℕ)

-- The directory of the partitions.
pub record Partitions (c : Context) : Type 0 where
  pub files : Dict ℕ Bytes
  pub sidecars : Dict ℕ Bytes
  pub visibility_store : VisibilityStore c.lmdb

-- `remove_file_if_exists`
unfoldable pub remove_file : {V : Type 0} → ℕ → Dict ℕ V → Dict ℕ V
remove_file day [] = []
remove_file day ((other, file) ∷ files) =
    let rest = remove_file day files in if other == day then rest else (other, file) ∷ rest

-- `ReindexResult`, the part that is used
pub record ReindexResult : Type 0 where
  pub events : ℕ
  pub visibility_summary : VisibilitySummary

-- `ReindexStats`
pub record ReindexStats : Type 0 where
  pub files : ℕ
  pub skipped_files : ℕ
  pub events : ℕ

-- The days in the order of `partition_event_paths`: the latest first.
unfoldable pub insert_day : ℕ → List ℕ → List ℕ
insert_day day [] = day ∷ []
insert_day day (d ∷ days) = if ltb day d then d ∷ insert_day day days else day ∷ d ∷ days

unfoldable pub partition_event_days : Dict ℕ Bytes → List ℕ
partition_event_days [] = []
partition_event_days ((day, file) ∷ files) = insert_day day (partition_event_days files)

abbrev pub is_ok : {A : Type 0} → Result A → Bool
is_ok (ok a) = true
is_ok (err e) = false

module _ (c : Context) where
  abbrev pub on_files : Option Bytes → Option Bytes → (Bytes → ℕ → Result Index) → Result Index
  on_files none events read = err io
  on_files (some sidecar) none read = err io
  on_files (some sidecar) (some events) read = read sidecar (length events)

  -- `read_search_index_for_events`
  unfoldable pub read_search_index_for_events : Partitions c → ℕ → Result Index
  read_search_index_for_events p day =
      on_files (lookup day p.sidecars) (lookup day p.files)
        (λ sidecar len. read_search_index_trusted sidecar len c.texts.searchable_kinds_hash)

  abbrev pub on_bloom_files : Option Bytes → Option Bytes → Result (List ℕ)
  on_bloom_files none events = err io
  on_bloom_files (some sidecar) none = err io
  on_bloom_files (some sidecar) (some events) =
      read_search_bloom_trusted sidecar (length events) c.texts.searchable_kinds_hash

  -- `read_search_bloom_for_events`
  unfoldable pub read_search_bloom_for_events : Partitions c → ℕ → Result (List ℕ)
  read_search_bloom_for_events p day = on_bloom_files (lookup day p.sidecars) (lookup day p.files)

  -- `search_sidecar_is_current`: a sidecar that is missing cannot be read.
  unfoldable pub search_sidecar_is_current : Partitions c → ℕ → Bool
  search_sidecar_is_current p day = is_ok (read_search_index_for_events p day)

  -- `reindex_partition`: the sidecar is in its place before the summary is made.
  unfoldable pub reindex_partition : Partitions c → ℕ → Partitions c × Result ReindexResult
  reindex_partition p day = elim (existing_packets c.ndb (lookup day p.files)) [
    | err e ↦ (p, err e)
    | ok packets ↦ elim (build_search_index c.texts packets) [
      | err e ↦ (p, err e)
      | ok index ↦
          let sidecar = write_search_index_parts index in
          (
            record p { sidecars = upsert day (λ _. sidecar) sidecar p.sidecars },
            summary_from_packets c.ndb packets >>= (λ summary.
                ok (record { events = length packets; visibility_summary = summary })),
          )
    ]
  ]

  -- The summary of a partition goes into the store, unless the partition failed.
  unfoldable pub store_summary : Partitions c × Result ReindexResult → Partitions c × Result ℕ
  store_summary (p, err e) = (p, err e)
  store_summary (p, ok result) =
      elim (merge_summary c.lmdb c.sha256 p.visibility_store result.visibility_summary) [
        | err e ↦ (p, err e)
        | ok store ↦ (record p { visibility_store = store }, ok result.events)
      ]

  -- `rebuild_partition_sidecars`
  unfoldable pub rebuild_partition_sidecars : Partitions c → ℕ → Partitions c × Result ℕ
  rebuild_partition_sidecars p day = store_summary (reindex_partition p day)

  -- The days that are to be reindexed, and the number of those that are skipped.
  unfoldable pub plan_reindex : Bool → Partitions c → List ℕ → List ℕ × ℕ
  plan_reindex force p [] = ([], 0)
  plan_reindex force p (day ∷ days) =
      let (jobs, skipped) = plan_reindex force p days in
      if force
      then (day ∷ jobs, skipped)
      else if search_sidecar_is_current p day
      then (jobs, skipped + 1)
      else (day ∷ jobs, skipped)

  -- The loop over the jobs.
  unfoldable pub reindex_jobs :
      Partitions c → ReindexStats → List ℕ → Partitions c × Result ReindexStats
  reindex_jobs p stats [] = (p, ok stats)
  reindex_jobs p stats (day ∷ days) =
      let (q, done) = rebuild_partition_sidecars p day in
      elim done [
        | err e ↦ (q, err e)
        | ok events ↦
            reindex_jobs q
              (record stats { files = stats.files + 1; events = stats.events + events }) days
      ]

  -- `reindex`
  unfoldable pub reindex : Bool → Partitions c → Partitions c × Result ReindexStats
  reindex force p =
      let (jobs, skipped) = plan_reindex force p (partition_event_days p.files) in
      reindex_jobs p (record { files = 0; skipped_files = skipped; events = 0 }) jobs
