-- ===== src/Prelude/Bits.antt =====
-- `|`, `&` and the masks of the source's bit fields, as arithmetic, at every width.
use Prim.Native.Nat.{
  ℕ, zero, suc, ◌+◌, ◌-◌, ◌*◌, ◌/◌, ◌%◌, ◌^◌, ◌≤◌, ◌<◌, min, max, bit_and, bit_or, digits,
  bit_and-bitwise, bit_or-bitwise,
}
use mathlib.Core.Path.{◌≡◌, refl, ap}
use mathlib.Core.WellFounded
use native.Mathlib.Omega.{arith}
use native.Mathlib.Nat.{pow-suc, one-le-pow}
use lulu.Prelude.Order.{lt_wf}

-- `digits z f` is what the library's operations compute, on a count of steps that may be any bound of
-- the first number; its clauses are one equation, `halves`, from which all that follows is read off.
module _ (z : ℕ → ℕ) (f : ℕ → ℕ → ℕ) where
  no_digits : (m b : ℕ) → digits z f m 0 b ≡ z b
  no_digits zero b = refl
  no_digits (suc m) b = refl

  enough : (n m a b : ℕ) → a ≤ n → a ≤ m → digits z f n a b ≡ digits z f m a b
  enough n m zero b p q = rw (no_digits n b, no_digits m b)
  enough zero m (suc a) b p q = absurd (omega arith)
  enough (suc n) zero (suc a) b p q = absurd (omega arith)
  enough (suc n) (suc m) (suc a) b p q =
      let half = enough n m (suc a / 2) (b / 2) (omega arith) (omega arith) in omega (arith, half)

  halves :
      (a b : ℕ)
      → digits z f (suc a) (suc a) b
        ≡ digits z f (suc a / 2) (suc a / 2) (b / 2) * 2 + f (suc a % 2) (b % 2)
  halves a b =
      let half = enough a (suc a / 2) (suc a / 2) (b / 2) (omega arith) (omega arith) in
      omega (arith, half)

zero-bit_and : (b : ℕ) → bit_and 0 b ≡ 0
zero-bit_and b = bit_and-bitwise 0 b

zero-bit_or : (b : ℕ) → bit_or 0 b ≡ b
zero-bit_or b = bit_or-bitwise 0 b

bit_and-halves : (a b : ℕ) → bit_and a b ≡ bit_and (a / 2) (b / 2) * 2 + min (a % 2) (b % 2)
bit_and-halves zero b = rw (zero-bit_and b, zero-bit_and (b / 2)) (omega arith)
bit_and-halves (suc a) b =
    rw (bit_and-bitwise (suc a) b, bit_and-bitwise (suc a / 2) (b / 2)) (halves (λ b. zero) min a b)

bit_or-halves : (a b : ℕ) → bit_or a b ≡ bit_or (a / 2) (b / 2) * 2 + max (a % 2) (b % 2)
bit_or-halves zero b = rw (zero-bit_or b, zero-bit_or (b / 2)) (omega arith)
bit_or-halves (suc a) b =
    rw (bit_or-bitwise (suc a) b, bit_or-bitwise (suc a / 2) (b / 2)) (halves (λ b. b) max a b)

-- What `a op 0` is follows from the halves, whichever the operation.
halving : (P : ℕ → Type 0) → P 0 → ((n : ℕ) → P (suc n / 2) → P (suc n)) → (a : ℕ) → P a
halving P base next a = WellFounded.induction lt_wf a by_halves
  where
    by_halves : (n : ℕ) → ((m : ℕ) → m < n → P m) → P n
    by_halves zero smaller = base
    by_halves (suc m) smaller = next m (smaller (suc m / 2) (omega arith))

pub bit_or-zero : (a : ℕ) → bit_or a 0 ≡ a
bit_or-zero =
    halving (λ a. bit_or a 0 ≡ a) refl (λ n half. omega (arith, bit_or-halves (suc n) 0, half))

pub bit_and-zero : (a : ℕ) → bit_and a 0 ≡ 0
bit_and-zero =
    halving (λ a. bit_and a 0 ≡ 0) refl (λ n half. omega (arith, bit_and-halves (suc n) 0, half))

pub mul_two_pow : (q k : ℕ) → q * 2 ^ suc k ≡ 2 * (q * 2 ^ k)
mul_two_pow q k = omega (arith, ap (λ (t : ℕ). q * t) (pow-suc 2 k))

-- Both operations act on the low `k` bits and on the rest separately.
pub bit_or_split :
    (k p q r s : ℕ)
    → r < 2 ^ k
    → s < 2 ^ k
    → bit_or (p * 2 ^ k + r) (q * 2 ^ k + s) ≡ bit_or p q * 2 ^ k + bit_or r s
bit_or_split zero p q r s fr fs = ground (arith, bit_or-zero 0)
bit_or_split (suc k) p q r s fr fs = ground (
  arith,
  bit_or-halves (p * 2 ^ suc k + r) (q * 2 ^ suc k + s),
  bit_or-halves r s,
  mul_two_pow p k,
  mul_two_pow q k,
  mul_two_pow (bit_or p q) k,
  pow-suc 2 k,
  bit_or_split k p q (r / 2) (s / 2) (omega arith) (omega arith),
)

pub bit_and_split :
    (k p q r s : ℕ)
    → r < 2 ^ k
    → s < 2 ^ k
    → bit_and (p * 2 ^ k + r) (q * 2 ^ k + s) ≡ bit_and p q * 2 ^ k + bit_and r s
bit_and_split zero p q r s fr fs = ground (arith, bit_and-zero 0)
bit_and_split (suc k) p q r s fr fs = ground (
  arith,
  bit_and-halves (p * 2 ^ suc k + r) (q * 2 ^ suc k + s),
  bit_and-halves r s,
  mul_two_pow p k,
  mul_two_pow q k,
  mul_two_pow (bit_and p q) k,
  pow-suc 2 k,
  bit_and_split k p q (r / 2) (s / 2) (omega arith) (omega arith),
)

-- `(q << k) | r` is a sum where `r` fits in `k` bits.
pub bit_or_fields : (k q r : ℕ) → r < 2 ^ k → bit_or (q * 2 ^ k) r ≡ q * 2 ^ k + r
bit_or_fields k q r fits =
    ground (arith, one-le-pow k 2, bit_or_split k q 0 0 r, bit_or-zero q, zero-bit_or r)

bit_and_ones : (k r : ℕ) → r < 2 ^ k → bit_and r (2 ^ k - 1) ≡ r
bit_and_ones zero r fits = rw bit_and-zero (omega arith)
bit_and_ones (suc k) r fits = ground (
  arith,
  bit_and-halves r (2 ^ suc k - 1),
  pow-suc 2 k,
  one-le-pow k 2,
  bit_and_ones k (r / 2) (omega (arith, pow-suc 2 k)),
)

-- A mask of `k` low bits takes the remainder by `2 ^ k`.
pub bit_and_mask : (k q r : ℕ) → r < 2 ^ k → bit_and (q * 2 ^ k + r) (2 ^ k - 1) ≡ r
bit_and_mask k q r fits =
    ground
      (arith, one-le-pow k 2, bit_and_split k q 0 r (2 ^ k - 1), bit_and-zero q, bit_and_ones k r)

-- A mask of `h` ones, `w` zeros and `o` ones clears the field between.
pub bit_and_clear :
    (h w o p m r : ℕ)
    → p < 2 ^ h
    → m < 2 ^ w
    → r < 2 ^ o
    → bit_and ((p * 2 ^ w + m) * 2 ^ o + r) ((2 ^ h - 1) * 2 ^ w * 2 ^ o + (2 ^ o - 1))
      ≡ p * 2 ^ w * 2 ^ o + r
bit_and_clear h w o p m r fp fm fr = ground (
  arith,
  one-le-pow w 2,
  one-le-pow o 2,
  bit_and_split o (p * 2 ^ w + m) ((2 ^ h - 1) * 2 ^ w) r (2 ^ o - 1),
  bit_and_split w p (2 ^ h - 1) m 0,
  bit_and_ones o r,
  bit_and_ones h p,
  bit_and-zero m,
)

-- Clear the field of `w` bits at offset `o`, then put `x` there.
pub bit_field_write :
    (h w o p m r x : ℕ)
    → p < 2 ^ h
    → m < 2 ^ w
    → r < 2 ^ o
    → x < 2 ^ w
    → bit_or
        (bit_and ((p * 2 ^ w + m) * 2 ^ o + r) ((2 ^ h - 1) * 2 ^ w * 2 ^ o + (2 ^ o - 1)))
        (x * 2 ^ o)
      ≡ (p * 2 ^ w + x) * 2 ^ o + r
bit_field_write h w o p m r x fp fm fr fx = ground (
  arith,
  one-le-pow o 2,
  bit_and_clear h w o p m r,
  bit_or_split o (p * 2 ^ w) x r 0,
  bit_or-zero r,
  bit_or_fields w p x,
)
