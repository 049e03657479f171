-- ===== src/Examples/Finder.antt =====
-- A finder of substrings that goes over the text once and passes over what it has found: it has
-- the properties that the search relies on.
use searchnos_db.Prelude.{
  ℕ, zero, suc, ◌+◌, ◌-◌, ◌≤◌, ◌<◌, Bytes, Bool, true, List, [], ◌∷◌, length, take, if◌then◌else◌,
  ◌≡◌, refl, ap, arith, ◌=?◌, =?_iff, bytes_eq, Bool-cases, ◌⊎◌, inl, inr, ◌∈◌,
}
use searchnos_db.Search.Terms.Matches.{Occurs, FindsOccurrences}

-- The needle begins the text.
abbrev begins : Bytes → Bytes → Bool
begins needle text = take (length needle) text =? needle

-- From position `p` on, after `skip` more bytes.
unfoldable pub scan : Bytes → ℕ → ℕ → Bytes → List ℕ
scan needle skip p [] = []
scan needle (suc skip) p (c ∷ cs) = scan needle skip (p + 1) cs
scan needle zero p (c ∷ cs) =
    let found = p ∷ scan needle (length needle - 1) (p + 1) cs in
    let rest = scan needle zero (p + 1) cs in if begins needle (c ∷ cs) then found else rest

unfoldable pub find_iter : Bytes → Bytes → List ℕ
find_iter needle haystack = scan needle 0 0 haystack

length-take_most : (n : ℕ) (xs : Bytes) → length (take n xs) ≤ length xs
length-take_most zero xs = omega arith
length-take_most (suc n) [] = omega arith
length-take_most (suc n) (x ∷ xs) = omega (arith, length-take_most n xs)

begins-Occurs : (needle text : Bytes) → begins needle text ≡ true → Occurs needle text 0
begins-Occurs needle text h =
    let same = (=?_iff (take (length needle) text) needle).0 h in
    let long : length (take (length needle) text) ≡ length needle = ap length same in
    (omega (arith, length-take_most (length needle) text), same)

Occurs-begins : (needle text : Bytes) → Occurs needle text 0 → begins needle text ≡ true
Occurs-begins needle text (fits, same) = (=?_iff (take (length needle) text) needle).1 same

-- Each position that is found is behind the bytes that are passed over, and holds the needle.
scan_sound :
    (needle : Bytes) (skip p : ℕ) (text : Bytes) (q : ℕ)
    → q ∈ scan needle skip p text
    → (k : ℕ) × (q ≡ p + k) × (skip ≤ k) × Occurs needle text k
unfolding scan
scan_sound needle skip p [] q m = elim m [ ]
scan_sound needle (suc skip) p (c ∷ cs) q m =
    let (k, e, after, (fits, found)) = scan_sound needle skip (p + 1) cs q m in
    (suc k, omega arith, omega arith, (omega arith, found))
scan_sound needle zero p (c ∷ cs) q m = elim (Bool-cases (begins needle (c ∷ cs))) [
  | inl here ↦ elim (rw (here, scan) at m) [
    | inl first ↦ (0, omega (arith, first), omega arith, begins-Occurs needle (c ∷ cs) here)
    | inr m' ↦
        let (k, e, after, (fits, found)) = scan_sound needle (length needle - 1) (p + 1) cs q m' in
        (suc k, omega arith, omega arith, (omega arith, found))
  ]
  | inr other ↦
      let (k, e, after, (fits, found)) =
        scan_sound needle zero (p + 1) cs q (rw (other, scan) at m) in
      (suc k, omega arith, omega arith, (omega arith, found))
]

scan-disjoint :
    (needle : Bytes) (skip p : ℕ) (text : Bytes) (q r : ℕ)
    → q ∈ scan needle skip p text
    → r ∈ scan needle skip p text
    → q < r
    → q + length needle ≤ r
unfolding scan
scan-disjoint needle skip p [] q r m k h = elim m [ ]
scan-disjoint needle (suc skip) p (c ∷ cs) q r m k h =
    scan-disjoint needle skip (p + 1) cs q r m k h
scan-disjoint needle zero p (c ∷ cs) q r m k h = elim (Bool-cases (begins needle (c ∷ cs))) [
  | inl here ↦ elim (rw (here, scan) at m) [
    | inl first ↦ elim (rw (here, scan) at k) [
      | inl second ↦ omega (arith, first, second)
      | inr k' ↦
          let (j, e, after, occurs) = scan_sound needle (length needle - 1) (p + 1) cs r k' in
          omega (arith, first)
    ]
    | inr m' ↦ elim (rw (here, scan) at k) [
      | inl second ↦
          let (j, e, after, occurs) = scan_sound needle (length needle - 1) (p + 1) cs q m' in
          omega (arith, second)
      | inr k' ↦ scan-disjoint needle (length needle - 1) (p + 1) cs q r m' k' h
    ]
  ]
  | inr other ↦
      scan-disjoint needle zero (p + 1) cs q r (rw (other, scan) at m) (rw (other, scan) at k) h
]

-- An occurrence lies among the bytes that are passed over, or overlaps one that is found.
scan_complete :
    (needle : Bytes) (skip p : ℕ) (text : Bytes) (k : ℕ)
    → 0 < length needle
    → Occurs needle text k
    → (k < skip)
      ⊎ ((q : ℕ) × (q ∈ scan needle skip p text) × (q ≤ p + k) × (p + k < q + length needle))
unfolding scan
scan_complete needle skip p [] k h (fits, found) = absurd (omega arith)
scan_complete needle (suc skip) p (c ∷ cs) zero h o = inl (omega arith)
scan_complete needle (suc skip) p (c ∷ cs) (suc k) h (fits, found) =
    elim (scan_complete needle skip (p + 1) cs k h (omega arith, found)) [
      | inl passed ↦ inl (omega arith)
      | inr (q, m, before, after) ↦ inr (q, m, omega arith, omega arith)
    ]
scan_complete needle zero p (c ∷ cs) zero h o =
    rw (Occurs-begins needle (c ∷ cs) o, scan) (inr (p, inl refl, omega arith, omega arith))
scan_complete needle zero p (c ∷ cs) (suc k) h (fits, found) =
    elim (Bool-cases (begins needle (c ∷ cs))) [
      | inl here ↦
          rw (here, scan)
            (elim (scan_complete needle (length needle - 1) (p + 1) cs k h (omega arith, found)) [
              | inl passed ↦ inr (p, inl refl, omega arith, omega arith)
              | inr (q, m, before, after) ↦ inr (q, inr m, omega arith, omega arith)
            ])
      | inr other ↦
          rw (other, scan)
            (elim (scan_complete needle zero (p + 1) cs k h (omega arith, found)) [
              | inl passed ↦ absurd (omega arith)
              | inr (q, m, before, after) ↦ inr (q, m, omega arith, omega arith)
            ])
    ]

pub find_iter-FindsOccurrences : FindsOccurrences find_iter
unfolding find_iter
find_iter-FindsOccurrences = record {
  sound = λ needle haystack p m.
      let (k, e, after, occurs) = scan_sound needle 0 0 haystack p m in
      let same : p ≡ k = omega arith in rw same occurs;
  disjoint = λ needle haystack p q. scan-disjoint needle 0 0 haystack p q;
  complete = λ needle haystack p h occurs. elim (scan_complete needle 0 0 haystack p h occurs) [
    | inl passed ↦ absurd (omega arith)
    | inr (q, m, before, behind) ↦ (q, m, omega arith, omega arith)
  ];
}
