-- ===== src/Streaming/Partition.antt =====
-- The partition of a day for one filter of a streaming query: whether it is read, the rebuilding of
-- its sidecar where that is missing or cannot be read, and the cursor over it.
pub mod Searched
pub mod Rebuilt
use searchnos_db.Prelude.{
  ℕ, Bytes, Bool, true, false, ◌&&◌, Option, none, some, List, [], ◌∷◌, ◌++◌, Result, ok, err, io,
  ◌>>=◌, all, nat_eq, if◌then◌else◌,
}
use searchnos_db.Prelude.Dict.{lookup}
use searchnos_db.Filter.{Filter}
use searchnos_db.Search.Bloom.{as_bytes, contains_gram, append_search_bloom_grams}
use searchnos_db.SearchText.{search_terms}
use searchnos_db.Visibility.Index.{VisibilityIndex}
use searchnos_db.Cursor.{PacketCursor, new_cursor}
use searchnos_db.Cursor.Sources.{Source, partition_scan, partition_search, filter_terms}
use searchnos_db.Reindex.{
  Context, Partitions, remove_file, is_ok, read_search_index_for_events,
  read_search_bloom_for_events, rebuild_partition_sidecars,
}

-- `search_bloom_query_grams`, not sorted and with repetitions: all of them are asked for.
unfoldable pub search_bloom_query_grams : List (List ℕ) → List (List ℕ)
search_bloom_query_grams [] = []
search_bloom_query_grams (term ∷ terms) =
    append_search_bloom_grams term ++ search_bloom_query_grams terms

module _ (c : Context) where
  -- `search_bloom_may_match`, for the grams of the query
  unfoldable pub grams_may_match : Partitions c → ℕ → List (List ℕ) → Result Bool
  grams_may_match p day [] = ok true
  grams_may_match p day (gram ∷ grams) = do
    bits ← read_search_bloom_for_events c p day
    ok (all (λ g. contains_gram bits (as_bytes g)) (gram ∷ grams))

  unfoldable pub search_bloom_may_match : Partitions c → ℕ → Option Bytes → Result Bool
  search_bloom_may_match p day none = ok true
  search_bloom_may_match p day (some query) =
      grams_may_match p day (search_bloom_query_grams (search_terms c.unicode query))

  -- `rebuild_partition_sidecars`, whose error is only logged here
  unfoldable pub rebuild : Partitions c → ℕ → Partitions c × Bool
  rebuild p day = let (q, events) = rebuild_partition_sidecars c p day in (q, is_ok events)

  abbrev pub without_sidecar : Partitions c → ℕ → Partitions c
  without_sidecar p day = record p { sidecars = remove_file day p.sidecars }

  abbrev pub is_match : Result Bool → Bool
  is_match (ok b) = b
  is_match (err e) = false

  -- The question to the Bloom filter, with one rebuilding of a sidecar that cannot be read.
  unfoldable pub ask_bloom : Partitions c → ℕ → Filter → Partitions c × Bool
  ask_bloom p day filter = elim (search_bloom_may_match p day filter.search) [
    | ok matched ↦ (p, matched)
    | err e ↦
        let (q, rebuilt) = rebuild (without_sidecar p day) day in
        (q, rebuilt && is_match (search_bloom_may_match q day filter.search))
  ]

  abbrev pub ask_rebuilt : ℕ → Filter → Partitions c × Bool → Partitions c × Bool
  ask_rebuilt day filter (p, true) = ask_bloom p day filter
  ask_rebuilt day filter (p, false) = (p, false)

  -- `query_partition`: whether the partition is read. Without search terms it always is.
  unfoldable pub query_partition : Partitions c → ℕ → Filter → Partitions c × Bool
  query_partition p day filter = elim (filter_terms c.unicode filter.search) [
    | [] ↦ (p, true)
    | term ∷ terms ↦ elim (lookup day p.sidecars) [
      | some sidecar ↦ ask_bloom p day filter
      | none ↦ ask_rebuilt day filter (rebuild p day)
    ]
  ]

  abbrev pub Cursor : Type 0
  Cursor = PacketCursor (Source c.lmdb (List ℕ))

  module _ (p : Partitions c) (day : ℕ) (filter : Filter)
      (visibility : Option VisibilityIndex) where
    abbrev pub scan_cursor : Option Bytes → Result (Option Cursor)
    scan_cursor none = ok none
    scan_cursor (some file) =
        ok (some (new_cursor (partition_scan file filter visibility (some p.visibility_store))))

    -- `PacketCursor::partition` of storage/cursor.rs
    unfoldable pub partition : Result (Option Cursor)
    partition = elim (filter_terms c.unicode filter.search) [
      | [] ↦ scan_cursor (lookup day p.files)
      | term ∷ terms ↦ do
        index ← read_search_index_for_events c p day
        elim index.records [
          | [] ↦ ok none
          | r ∷ records ↦ elim (lookup day p.files) [
            | none ↦ err io
            | some file ↦ ok (
                some (
                  new_cursor (
                    partition_search file index 0 (term ∷ terms) filter c.searchable_kinds
                      visibility (some p.visibility_store))))
          ]
        ]
    ]

  abbrev pub cursor_or_none : Result (Option Cursor) → Option Cursor
  cursor_or_none (ok cursor) = cursor
  cursor_or_none (err e) = none

  -- The cursor over a partition that is read; for a search, with one rebuilding of its sidecar.
  unfoldable pub partition_cursor :
      Partitions c → ℕ → Filter → Option VisibilityIndex → Partitions c × Result (Option Cursor)
  partition_cursor p day filter visibility = elim (partition p day filter visibility) [
    | ok cursor ↦ (p, ok cursor)
    | err e ↦ elim (filter_terms c.unicode filter.search) [
      | [] ↦ (p, err e)
      | term ∷ terms ↦
          let (q, rebuilt) = rebuild (without_sidecar p day) day in
          (q, ok (if rebuilt then cursor_or_none (partition q day filter visibility) else none))
    ]
  ]

  abbrev pub cursor_if_asked :
      ℕ
      → Filter
      → Option VisibilityIndex
      → Partitions c × Bool
      → Partitions c × Result (Option Cursor)
  cursor_if_asked day filter visibility (p, true) = partition_cursor p day filter visibility
  cursor_if_asked day filter visibility (p, false) = (p, ok none)

  -- What a filter reads of the partition of a day.
  unfoldable pub open_partition :
      Partitions c → ℕ → Filter → Option VisibilityIndex → Partitions c × Result (Option Cursor)
  open_partition p day filter visibility =
      cursor_if_asked day filter visibility (query_partition p day filter)
