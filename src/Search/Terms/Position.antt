-- ===== src/Search/Terms/Position.antt =====
-- The binary search finds the event that a position of the text belongs to.
use searchnos_db.Prelude.{
  ℕ, zero, suc, ◌+◌, ◌-◌, ◌/◌, ◌≤◌, ◌<◌, leb, leb→le, ltb→lt, ◌↔◌, ltb, some, List, ◌≡◌, arith,
  length, inl, inr, Bool-cases,
}
use searchnos_db.Search.Terms.{
  offset_at, insertion_loop, insertion_point, event_before, search_index_event_at,
}

-- The offsets do not fall.
abbrev pub IsMonotonic : List ℕ → Type 0
IsMonotonic offsets =
    (i j : ℕ) → i ≤ j → j < length offsets → offset_at offsets i ≤ offset_at offsets j

module _ (offsets : List ℕ) (position : ℕ) (monotonic : IsMonotonic offsets) where
  -- All offsets below `low` are at most the position, all from `high` on are above it.
  record Splits (low high : ℕ) : Type 0 where
    ordered : low ≤ high
    in_range : high ≤ length offsets
    before : (j : ℕ) → j < low → offset_at offsets j ≤ position
    behind : (j : ℕ) → high ≤ j → j < length offsets → position < offset_at offsets j

  raise_low :
      (low high : ℕ)
      → Splits low high
      → low < high
      → offset_at offsets (low + (high - low) / 2) ≤ position
      → Splits (low + (high - low) / 2 + 1) high
  raise_low low high s h below_it = record {
    ordered = omega arith;
    in_range = s.in_range;
    before = λ j lt_j.
        omega
          (arith, monotonic j (low + (high - low) / 2) (omega arith) (omega (arith, s.in_range)));
    behind = s.behind;
  }

  lower_high :
      (low high : ℕ)
      → Splits low high
      → low < high
      → position < offset_at offsets (low + (high - low) / 2)
      → Splits low (low + (high - low) / 2)
  lower_high low high s h above_it = record {
    ordered = omega arith;
    in_range = omega (arith, s.in_range);
    before = s.before;
    behind = λ j le_j lt_j. omega (arith, monotonic (low + (high - low) / 2) j le_j lt_j);
  }

  meet : (low high : ℕ) → Splits low high → high ≤ low → Splits low low
  meet low high s h = record {
    ordered = omega arith;
    in_range = omega (arith, s.ordered, s.in_range);
    before = s.before;
    behind = λ j le_j lt_j. s.behind j (omega arith) lt_j;
  }

  insertion_loop-Splits :
      (fuel low high : ℕ)
      → Splits low high
      → high - low ≤ fuel
      → let r = insertion_loop fuel offsets position low high in Splits r r
  unfolding insertion_loop
  insertion_loop-Splits zero low high s h = meet low high s (omega (arith, s.ordered))
  insertion_loop-Splits (suc fuel) low high s h = elim (Bool-cases (ltb low high)) [
    | inr done ↦ rw done (meet low high s (ground arith))
    | inl more ↦
        let middle = low + (high - low) / 2 in
        elim (Bool-cases (leb (offset_at offsets middle) position)) [
          | inl here ↦ rw more (
              rw here (
                insertion_loop-Splits fuel (middle + 1) high
                  (raise_low low high s (ltb→lt low high more) (leb→le _ _ here)) (omega arith)))
          | inr above ↦ rw more (
              rw above (
                insertion_loop-Splits fuel low middle
                  (lower_high low high s (ltb→lt low high more) (ground arith)) (ground arith)))
        ]
  ]

  insertion_point-Splits : let r = insertion_point offsets position in Splits r r
  unfolding insertion_point
  insertion_point-Splits =
      insertion_loop-Splits (length offsets) 0 (length offsets)
        (record {
          ordered = omega arith;
          in_range = omega arith;
          before = λ j h. absurd (omega arith);
          behind = λ j h k. absurd (omega arith);
        })
        (omega arith)

  event_before_sound :
      (r i : ℕ)
      → Splits r r
      → event_before (length offsets) r ≡ some i
      → (offset_at offsets i ≤ position)
        × (position < offset_at offsets (i + 1))
        × (i + 1 < length offsets)
  unfolding event_before
  event_before_sound r i s h = ground (arith, s.before (r - 1), s.behind r)

  event_before_complete :
      (r i : ℕ)
      → Splits r r
      → i + 1 < length offsets
      → offset_at offsets i ≤ position
      → position < offset_at offsets (i + 1)
      → event_before (length offsets) r ≡ some i
  unfolding event_before
  event_before_complete r i s fits low high = ground (arith, s.behind i, s.before (i + 1))

-- The binary search returns an event exactly if it is the one whose part of the text holds the
-- position, in any list of offsets that do not fall.
pub search_index_event_at_iff :
    (offsets : List ℕ) (position i : ℕ)
    → IsMonotonic offsets
    → (search_index_event_at offsets position ≡ some i) ↔ (
        (offset_at offsets i ≤ position)
        × (position < offset_at offsets (i + 1))
        × (i + 1 < length offsets))
unfolding search_index_event_at
search_index_event_at_iff offsets position i m =
    let s = insertion_point-Splits offsets position m in
    (
      λ h.
          ground
            (arith, event_before_sound offsets position m (insertion_point offsets position) i s),
      λ h.
          ground (
            arith,
            event_before_complete offsets position m (insertion_point offsets position) i s,
          ),
    )
