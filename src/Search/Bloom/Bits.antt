-- ===== src/Search/Bloom/Bits.antt =====
-- The bits of the filter: a bit that was set is set, and stays set.
use Prim.Native.Nat.{bit_and, bit_or}
use searchnos_db.Prelude.{
  ℕ, zero, suc, ◌+◌, ◌*◌, ◌/◌, ◌%◌, ◌^◌, ◌<◌, Bytes, Bool, true, ◌&&◌, not, ltb, ◌==◌,
  if◌then◌else◌, List, [], ◌∷◌, ◌≡◌, refl, arith, length, length-replicate, length-set, get_or, set,
  replicate, All,
}
use searchnos_db.Search.Bloom.{
  search_bloom_bytes, search_bloom_bits, search_bloom_hashes, bloom_bit, bloom_hashes, set_bit,
  test_bit, insert_hashes, insert_bloom_gram, contains_hashes, contains_gram, empty_bits,
}

-- Every number below a bound passes a test.
every_below : ℕ → (ℕ → Bool) → Bool
every_below zero test = true
every_below (suc n) test = test n && every_below n test

every_below_sound :
    (n : ℕ) (test : ℕ → Bool) (x : ℕ) → every_below n test ≡ true → x < n → test x ≡ true
unfolding every_below
every_below_sound zero test x h k = absurd (omega arith)
every_below_sound (suc n) test x h k = ground (arith, every_below_sound n test x)

has : ℕ → ℕ → Bool
has b k = not (bit_and b (2 ^ k) == 0)

-- Setting bit `j` of a byte keeps it a byte, sets that bit and keeps the others.
set_one : ℕ → ℕ → ℕ → Bool
unfolding has
set_one b j k =
    ltb (bit_or b (2 ^ j)) 256
    && (has (bit_or b (2 ^ j)) j && (if has b k then has (bit_or b (2 ^ j)) k else true))

set_one_table :
    every_below 256 (λ b. every_below 8 (λ j. every_below 8 (λ k. set_one b j k))) ≡ true
unfolding every_below set_one
set_one_table = refl

set_one_lem : (b j k : ℕ) → b < 256 → j < 8 → k < 8 → set_one b j k ≡ true
set_one_lem b j k hb hj hk =
    every_below_sound 8 (λ k. set_one b j k) k
      (every_below_sound 8 (λ j. every_below 8 (λ k. set_one b j k)) j
        (every_below_sound 256 (λ b. every_below 8 (λ j. every_below 8 (λ k. set_one b j k))) b
          set_one_table hb)
        hj)
      hk

abbrev pub IsByte : ℕ → Type 0
IsByte b = b < 256

-- The bits of a filter: `SEARCH_BLOOM_BYTES` bytes.
pub record IsBits (bits : List ℕ) : Type 0 where
  pub size : length bits ≡ search_bloom_bytes
  pub bytes : All IsByte bits

get_or-IsByte : (bits : List ℕ) (i : ℕ) → All IsByte bits → get_or bits i 0 < 256
get_or-IsByte [] i h = omega arith
get_or-IsByte (b ∷ bits) zero h = h.0
get_or-IsByte (b ∷ bits) (suc i) h = get_or-IsByte bits i h.1

set-IsByte : (bits : List ℕ) (i v : ℕ) → v < 256 → All IsByte bits → All IsByte (set bits i v)
set-IsByte [] i v k h = h
set-IsByte (b ∷ bits) zero v k h = (k, h.1)
set-IsByte (b ∷ bits) (suc i) v k h = (h.0, set-IsByte bits i v k h.1)

get_or-set :
    (bits : List ℕ) (i j v : ℕ)
    → i < length bits
    → get_or (set bits i v) j 0 ≡ (if i == j then v else get_or bits j 0)
get_or-set [] i j v h = absurd (omega arith)
get_or-set (b ∷ bits) zero zero v h = refl
get_or-set (b ∷ bits) zero (suc j) v h = ground arith
get_or-set (b ∷ bits) (suc i) zero v h = ground arith
get_or-set (b ∷ bits) (suc i) (suc j) v h = ground (arith, get_or-set bits i j v)

pub bloom_bit-lt : (hashes : ℕ × ℕ) (index : ℕ) → bloom_bit hashes index < search_bloom_bytes * 8
unfolding bloom_bit search_bloom_bits
bloom_bit-lt (h1, h2) index = omega arith

module _ (bits : List ℕ) (bit : ℕ) (valid : IsBits bits) (fits : bit < search_bloom_bytes * 8) where
  set_bit-IsBits : IsBits (set_bit bits bit)
  unfolding set_bit set_one
  set_bit-IsBits = record {
    size = omega (
      arith,
      valid.size,
      length-set bits (bit / 8) (bit_or (get_or bits (bit / 8) 0) (2 ^ (bit % 8))),
    );
    bytes =
        set-IsByte bits (bit / 8) (bit_or (get_or bits (bit / 8) 0) (2 ^ (bit % 8)))
          (ground (
            arith,
            set_one_lem (get_or bits (bit / 8) 0) (bit % 8) 0,
            get_or-IsByte bits (bit / 8) valid.bytes,
          ))
          valid.bytes;
  }

  test_bit-set_bit_self : test_bit (set_bit bits bit) bit ≡ true
  unfolding set_bit test_bit set_one has
  test_bit-set_bit_self = ground (
    arith,
    valid.size,
    get_or-IsByte bits (bit / 8) valid.bytes,
    get_or-set bits (bit / 8) (bit / 8) (bit_or (get_or bits (bit / 8) 0) (2 ^ (bit % 8))),
    set_one_lem (get_or bits (bit / 8) 0) (bit % 8) 0,
  )

  test_bit-set_bit_other :
      (other : ℕ) → test_bit bits other ≡ true → test_bit (set_bit bits bit) other ≡ true
  unfolding set_bit test_bit set_one has
  test_bit-set_bit_other other h = ground (
    arith,
    valid.size,
    get_or-IsByte bits (bit / 8) valid.bytes,
    get_or-set bits (bit / 8) (other / 8) (bit_or (get_or bits (bit / 8) 0) (2 ^ (bit % 8))),
    set_one_lem (get_or bits (bit / 8) 0) (bit % 8) (other % 8),
  )

pub insert_hashes-IsBits :
    (n index : ℕ) (hashes : ℕ × ℕ) (bits : List ℕ)
    → IsBits bits
    → IsBits (insert_hashes n index hashes bits)
unfolding insert_hashes
insert_hashes-IsBits zero index hashes bits v = v
insert_hashes-IsBits (suc n) index hashes bits v =
    insert_hashes-IsBits n (index + 1) hashes (set_bit bits (bloom_bit hashes index))
      (set_bit-IsBits bits (bloom_bit hashes index) v (bloom_bit-lt hashes index))

pub insert_hashes-keeps :
    (n index : ℕ) (hashes : ℕ × ℕ) (bits : List ℕ) (other : ℕ)
    → IsBits bits
    → test_bit bits other ≡ true
    → test_bit (insert_hashes n index hashes bits) other ≡ true
unfolding insert_hashes
insert_hashes-keeps zero index hashes bits other v h = h
insert_hashes-keeps (suc n) index hashes bits other v h =
    let bit = bloom_bit hashes index in
    let fits = bloom_bit-lt hashes index in
    insert_hashes-keeps n (index + 1) hashes (set_bit bits bit) other
      (set_bit-IsBits bits bit v fits) (test_bit-set_bit_other bits bit v fits other h)

-- Grams that are in the filter stay in it.
contains_hashes-keeps :
    (n index : ℕ) (hashes : ℕ × ℕ) (bits : List ℕ) (m start : ℕ) (others : ℕ × ℕ)
    → IsBits bits
    → contains_hashes n index hashes bits ≡ true
    → contains_hashes n index hashes (insert_hashes m start others bits) ≡ true
unfolding contains_hashes
contains_hashes-keeps zero index hashes bits m start others v h = refl
contains_hashes-keeps (suc n) index hashes bits m start others v h = ground (
  arith,
  insert_hashes-keeps m start others bits (bloom_bit hashes index) v,
  contains_hashes-keeps n (index + 1) hashes bits m start others v,
)

contains_hashes-insert_hashes :
    (n index : ℕ) (hashes : ℕ × ℕ) (bits : List ℕ)
    → IsBits bits
    → contains_hashes n index hashes (insert_hashes n index hashes bits) ≡ true
unfolding contains_hashes insert_hashes
contains_hashes-insert_hashes zero index hashes bits v = refl
contains_hashes-insert_hashes (suc n) index hashes bits v =
    let bit = bloom_bit hashes index in
    let fits = bloom_bit-lt hashes index in
    let next = set_bit-IsBits bits bit v fits in
    ground (
      arith,
      insert_hashes-keeps n (index + 1) hashes (set_bit bits bit) bit next
          (test_bit-set_bit_self bits bit v fits),
      contains_hashes-insert_hashes n (index + 1) hashes (set_bit bits bit) next,
    )

pub insert_bloom_gram-IsBits :
    (bits : List ℕ) (gram : Bytes) → IsBits bits → IsBits (insert_bloom_gram bits gram)
unfolding insert_bloom_gram
insert_bloom_gram-IsBits bits gram v =
    insert_hashes-IsBits search_bloom_hashes 0 (bloom_hashes gram) bits v

pub contains_gram-insert_bloom_gram :
    (bits : List ℕ) (gram : Bytes)
    → IsBits bits
    → contains_gram (insert_bloom_gram bits gram) gram ≡ true
unfolding insert_bloom_gram contains_gram
contains_gram-insert_bloom_gram bits gram v =
    contains_hashes-insert_hashes search_bloom_hashes 0 (bloom_hashes gram) bits v

pub contains_gram-keeps :
    (bits : List ℕ) (gram other : Bytes)
    → IsBits bits
    → contains_gram bits other ≡ true
    → contains_gram (insert_bloom_gram bits gram) other ≡ true
unfolding insert_bloom_gram contains_gram
contains_gram-keeps bits gram other v h =
    contains_hashes-keeps search_bloom_hashes 0 (bloom_hashes other) bits search_bloom_hashes 0
      (bloom_hashes gram) v h

replicate-IsByte : (n : ℕ) → All IsByte (replicate n 0)
replicate-IsByte zero = tt
replicate-IsByte (suc n) = (omega arith, replicate-IsByte n)

pub empty_bits-IsBits : IsBits empty_bits
unfolding empty_bits
empty_bits-IsBits = record {
  size = length-replicate search_bloom_bytes 0;
  bytes = replicate-IsByte search_bloom_bytes;
}
