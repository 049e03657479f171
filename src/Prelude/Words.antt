-- ===== src/Prelude/Words.antt =====
-- Machine integers as bytes.
use Prim.Native.Nat.{ℕ, zero, suc, ◌+◌, ◌*◌, ◌/◌, ◌%◌, ◌^◌, ◌<◌}
use mathlib.Core.Path.{◌≡◌, refl, ap}
use mathlib.Core.List.{List, [], ◌∷◌, ◌++◌}
use native.Mathlib.Nat.{pow-suc}
use native.Mathlib.Omega.{arith}
use searchnos_db.Prelude.Lists.{length, length-append}

-- `to_le_bytes` of an integer of `n` bytes, and `from_le_bytes`
unfoldable pub to_le_bytes : ℕ → ℕ → List ℕ
to_le_bytes zero x = []
to_le_bytes (suc n) x = (x % 256) ∷ to_le_bytes n (x / 256)

unfoldable pub from_le_bytes : List ℕ → ℕ
from_le_bytes [] = 0
from_le_bytes (b ∷ bs) = b + 256 * from_le_bytes bs

pub length-to_le_bytes : (n x : ℕ) → length (to_le_bytes n x) ≡ n
unfolding to_le_bytes
length-to_le_bytes zero x = refl
length-to_le_bytes (suc n) x = ap suc (length-to_le_bytes n (x / 256))

pub from_le_bytes-to_le_bytes : (n x : ℕ) → x < 256 ^ n → from_le_bytes (to_le_bytes n x) ≡ x
unfolding to_le_bytes from_le_bytes
from_le_bytes-to_le_bytes zero x h = omega arith
from_le_bytes-to_le_bytes (suc n) x h =
    omega (arith, from_le_bytes-to_le_bytes n (x / 256) (omega (arith, pow-suc 256 n)))

-- `to_be_bytes`, and `from_be_bytes` behind what was read.
unfoldable pub to_be_bytes : ℕ → ℕ → List ℕ
to_be_bytes zero x = []
to_be_bytes (suc n) x = to_be_bytes n (x / 256) ++ (x % 256) ∷ []

unfoldable pub from_be_after : ℕ → List ℕ → ℕ
from_be_after before [] = before
from_be_after before (b ∷ bs) = from_be_after (before * 256 + b) bs

unfoldable pub from_be_bytes : List ℕ → ℕ
from_be_bytes bytes = from_be_after 0 bytes

pub length-to_be_bytes : (n x : ℕ) → length (to_be_bytes n x) ≡ n
unfolding to_be_bytes
length-to_be_bytes zero x = refl
length-to_be_bytes (suc n) x = omega (
  arith,
  length-append (to_be_bytes n (x / 256)) ((x % 256) ∷ []),
  length-to_be_bytes n (x / 256),
)

from_be_after-append :
    (before : ℕ) (xs ys : List ℕ)
    → from_be_after before (xs ++ ys) ≡ from_be_after (from_be_after before xs) ys
unfolding from_be_after
from_be_after-append before [] ys = refl
from_be_after-append before (x ∷ xs) ys = from_be_after-append (before * 256 + x) xs ys

from_be_after-to_be_bytes : (n x : ℕ) → x < 256 ^ n → from_be_after 0 (to_be_bytes n x) ≡ x
unfolding to_be_bytes from_be_after
from_be_after-to_be_bytes zero x h = omega arith
from_be_after-to_be_bytes (suc n) x h =
    rw (from_be_after-append 0 (to_be_bytes n (x / 256)) ((x % 256) ∷ []))
      (rw (from_be_after-to_be_bytes n (x / 256) (omega (arith, pow-suc 256 n))) (omega arith))

pub from_be_bytes-to_be_bytes : (n x : ℕ) → x < 256 ^ n → from_be_bytes (to_be_bytes n x) ≡ x
unfolding from_be_bytes
from_be_bytes-to_be_bytes n x h = from_be_after-to_be_bytes n x h
