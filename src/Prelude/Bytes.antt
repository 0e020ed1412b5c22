-- ===== src/Prelude/Bytes.antt =====
-- Big-endian integers (`to_be_bytes`, `from_be_bytes`) and `read_exact` on byte lists.
use Prim.Native.Nat.{ℕ, zero, suc, ◌+◌, ◌*◌, ◌/◌, ◌%◌, ◌^◌, ◌<◌}
use mathlib.Core.Path.{◌≡◌, refl, ap}
use mathlib.Core.Option.{Option, none, some}
use mathlib.Core.List.{List, [], ◌∷◌, ◌++◌}
use native.Mathlib.Omega.{arith}
use native.Mathlib.Nat.{div-add-mod, div-lt_iff_lt-mul, mod-lt}
use gaffa.Prelude.Tests.{leb, if◌then◌else◌}
use gaffa.Prelude.Lists.{
  length, length-append, length-drop, take, drop, take-append_length, drop-append_length,
}

abbrev pub Bytes : Type 0
Bytes = List ℕ

-- The `k` bytes of `n`, the highest first.
unfoldable pub to_be : ℕ → ℕ → Bytes
to_be zero n = []
to_be (suc k) n = (n / 256 ^ k % 256) ∷ to_be k (n % 256 ^ k)

from_be_acc : ℕ → Bytes → ℕ
from_be_acc acc [] = acc
from_be_acc acc (b ∷ bs) = from_be_acc (acc * 256 + b) bs

unfoldable pub from_be : Bytes → ℕ
unfolding from_be_acc
from_be bs = from_be_acc 0 bs

pub length-to_be : (k n : ℕ) → length (to_be k n) ≡ k
unfolding to_be
length-to_be zero n = refl
length-to_be (suc k) n = ap suc (length-to_be k (n % 256 ^ k))

pow256_pos : (k : ℕ) → 0 < 256 ^ k
pow256_pos zero = omega arith
pow256_pos (suc k) = grind (arith, pow256_pos k)

pow256_suc : (k : ℕ) → 256 ^ suc k ≡ 256 * 256 ^ k
pow256_suc k = grind arith

from_be_acc-to_be : (k acc n : ℕ) → n < 256 ^ k → from_be_acc acc (to_be k n) ≡ acc * 256 ^ k + n
unfolding from_be_acc to_be
from_be_acc-to_be zero acc n h = omega arith
from_be_acc-to_be (suc k) acc n h = omega (
  arith,
  from_be_acc-to_be k (acc * 256 + n / 256 ^ k % 256) (n % 256 ^ k) (mod-lt n (pow256_pos k)),
  pow256_suc k,
  div-add-mod n (256 ^ k),
  ap (λ (t : ℕ). (acc * 256 + t) * 256 ^ k) top_byte,
  ap (λ (t : ℕ). acc * t) (pow256_suc k),
)
  where
    high : n / 256 ^ k < 256
    high = (div-lt_iff_lt-mul (pow256_pos k)).1 (omega (arith, pow256_suc k))

    top_byte : n / 256 ^ k % 256 ≡ n / 256 ^ k
    top_byte = omega (arith, high)

-- A `k`-byte number is read back.
pub from_be-to_be : (k n : ℕ) → n < 256 ^ k → from_be (to_be k n) ≡ n
unfolding from_be
from_be-to_be k n h = omega (arith, from_be_acc-to_be k 0 n h)

-- `read_exact` into a buffer of `k` bytes: the buffer and what is left of the reader, or
-- `UnexpectedEof` when the reader is shorter.
unfoldable pub read_exact : ℕ → Bytes → Option (Bytes × Bytes)
read_exact k bs = if leb k (length bs) then some (take k bs, drop k bs) else none

pub read_exact-append :
    (xs ys : Bytes) (k : ℕ) → length xs ≡ k → read_exact k (xs ++ ys) ≡ some (xs, ys)
unfolding read_exact
read_exact-append xs ys k h = ground (
  arith,
  length-append xs ys,
  take-append_length xs ys,
  drop-append_length xs ys,
  ap (λ n. take n (xs ++ ys)) h,
  ap (λ n. drop n (xs ++ ys)) h,
)

pub read_exact_short : (k : ℕ) (bs : Bytes) → length bs < k → read_exact k bs ≡ none
unfolding read_exact
read_exact_short k bs h = ground arith

pub from_be_byte : (b : ℕ) → from_be (b ∷ []) ≡ b
unfolding from_be from_be_acc
from_be_byte b = omega arith

pub length-read_exact :
    (k : ℕ) (bs : Bytes) (p : Bytes × Bytes) → read_exact k bs ≡ some p → length p.1 + k ≡ length bs
unfolding read_exact
length-read_exact k bs p h = ground (arith, length-drop k bs)
