-- ===== src/Base/Bits.antt =====
-- Single bits of a word: how `|`, `&` and `~` act on them.
mod Digits
use Prim.Native.Nat.{
  ℕ, zero, suc, ◌+◌, ◌-◌, ◌*◌, ◌/◌, ◌%◌, ◌^◌, ◌≤◌, ◌<◌, min, max, bit_and, bit_or,
}
use Prim.Native.Nat.{bit_and-bitwise}
use mathlib.Core.Path.{◌≡◌, refl, ap, ◌∙◌}
use mathlib.Core.Logic.{◌≢◌}
use native.Mathlib.Omega.{arith}
use native.Mathlib.Nat.{pow-suc, one-le-pow}
use Digits.{bit_or-digit, bit_and-digit}
use cmsi.Base.Cond.{◌==◌, if◌then◌else◌}

-- Bit `j` of a number, 0 or 1.
unfoldable pub bit : ℕ → ℕ → ℕ
bit w zero = w % 2
bit w (suc j) = bit (w / 2) j

pub bit-le : (w j : ℕ) → bit w j ≤ 1
unfolding bit
bit-le w zero = omega arith
bit-le w (suc j) = bit-le (w / 2) j

pub bit-zero : (j : ℕ) → bit 0 j ≡ 0
unfolding bit
bit-zero zero = refl
bit-zero (suc j) = bit-zero j

pub bit-pow : (k j : ℕ) → bit (2 ^ k) j ≡ (if k == j then 1 else 0)
unfolding bit
bit-pow zero zero = refl
bit-pow zero (suc j) = bit-zero j ∙ ground arith
bit-pow (suc k) zero = grind (arith, pow-suc 2 k)
bit-pow (suc k) (suc j) =
    let e : 2 ^ suc k / 2 ≡ 2 ^ k = omega (arith, pow-suc 2 k) in rw e (bit-pow k j ∙ ground arith)

pub bit-bit_or : (a b j : ℕ) → bit (bit_or a b) j ≡ max (bit a j) (bit b j)
unfolding bit
bit-bit_or a b zero = omega (arith, bit_or-digit a b)
bit-bit_or a b (suc j) =
    let e : bit_or a b / 2 ≡ bit_or (a / 2) (b / 2) = omega (arith, bit_or-digit a b) in
    rw e (bit-bit_or (a / 2) (b / 2) j)

pub bit-bit_and : (a b j : ℕ) → bit (bit_and a b) j ≡ min (bit a j) (bit b j)
unfolding bit
bit-bit_and a b zero = omega (arith, bit_and-digit a b)
bit-bit_and a b (suc j) =
    let e : bit_and a b / 2 ≡ bit_and (a / 2) (b / 2) = omega (arith, bit_and-digit a b) in
    rw e (bit-bit_and (a / 2) (b / 2) j)

-- The complement of an `n`-bit word.
pub bit_complement : (n w j : ℕ) → w < 2 ^ n → j < n → bit (2 ^ n - 1 - w) j ≡ 1 - bit w j
unfolding bit
bit_complement zero w j hw hj = absurd (omega arith)
bit_complement (suc n) w zero hw hj = omega (arith, pow-suc 2 n, one-le-pow n 2)
bit_complement (suc n) w (suc j) hw hj =
    let e : (2 ^ suc n - 1 - w) / 2 ≡ 2 ^ n - 1 - w / 2 = omega (arith, pow-suc 2 n) in
    rw e (bit_complement n (w / 2) j (omega (arith, pow-suc 2 n)) (omega arith))

lt-pow : (n : ℕ) → n < 2 ^ n
lt-pow zero = omega arith
lt-pow (suc n) = omega (arith, lt-pow n, pow-suc 2 n)

bit_and_nil : (j w : ℕ) → w < 2 ^ j → bit_and w 0 ≡ 0
bit_and_nil zero w h = let e : w ≡ 0 = omega arith in rw e
bit_and_nil (suc j) w h =
    omega (arith, bit_and-digit w 0, bit_and_nil j (w / 2) (omega (arith, pow-suc 2 j)))

-- `w & (1 << j)` is the bit at its place.
pub bit_and-pow : (j w : ℕ) → bit_and w (2 ^ j) ≡ bit w j * 2 ^ j
unfolding bit
bit_and-pow zero w = omega (arith, bit_and-digit w 1, bit_and_nil (w / 2) (w / 2) (lt-pow (w / 2)))
bit_and-pow (suc j) w = omega (
  arith,
  bit_and-digit w (2 ^ suc j),
  pow-suc 2 j,
  ap (bit_and (w / 2)) e,
  bit_and-pow j (w / 2),
  ap (λ (t : ℕ). bit (w / 2) j * t) (pow-suc 2 j),
)
  where
    e : 2 ^ suc j / 2 ≡ 2 ^ j
    e = omega (arith, pow-suc 2 j)

bit_zero_and : (b : ℕ) → bit_and 0 b ≡ 0
bit_zero_and b = simp bit_and-bitwise

-- `|` and `&` of words are words.
pub bit_or-lt : (n a b : ℕ) → a < 2 ^ n → b < 2 ^ n → bit_or a b < 2 ^ n
bit_or-lt zero a b ha hb =
    let ea : a ≡ 0 = omega arith in let eb : b ≡ 0 = omega arith in rw (ea, eb) (omega arith)
bit_or-lt (suc n) a b ha hb = omega (
  arith,
  bit_or-digit a b,
  pow-suc 2 n,
  bit_or-lt n (a / 2) (b / 2) (omega (arith, pow-suc 2 n)) (omega (arith, pow-suc 2 n)),
)

pub bit_and-lt : (n a b : ℕ) → a < 2 ^ n → bit_and a b < 2 ^ n
bit_and-lt zero a b ha = let ea : a ≡ 0 = omega arith in rw (ea, bit_zero_and b) (omega arith)
bit_and-lt (suc n) a b ha = omega (
  arith,
  bit_and-digit a b,
  pow-suc 2 n,
  bit_and-lt n (a / 2) (b / 2) (omega (arith, pow-suc 2 n)),
)
