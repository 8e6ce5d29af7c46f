-- ===== src/Mem/Log.antt =====
-- What `mem_ceil_log2` and `mem_next_pow2` of cpp/src/mem.cpp compute.
use lulu.Prelude.{
  ℕ, zero, suc, ◌+◌, ◌-◌, ◌*◌, ◌/◌, ◌^◌, ◌≤◌, ◌<◌, ◌≡◌, refl, Bool, true, List, [], ◌∷◌, length,
  ◌&&◌, arith, ltb, leb, ltb→lt, lt→ltb, ap, Bool-cases, inl, inr, get_or,
}
use native.Mathlib.Numerals.{towards_suc}
use native.Mathlib.Nat.{add-zero, pow-suc, one-le-pow, pow-le-pow_right}
use native.Mathlib.Decide.{dec_lt}
use lulu.Mem.{ceil_log2_lookup, shift_bytes, mem_ceil_log2, mem_next_pow2}

-- The exponent that the table has for `m`.
abbrev entry : ℕ → ℕ
entry m = get_or ceil_log2_lookup (m - 1) 0

-- Each exponent of a table that starts at `m + 1` is the least whose power reaches its place.
all_least : ℕ → List ℕ → Bool
all_least m [] = true
all_least m (e ∷ es) = (leb (m + 1) (2 ^ e) && ltb (2 ^ e) (2 * (m + 1))) && all_least (m + 1) es

ceil_log2_lookup-all_least : all_least 0 ceil_log2_lookup ≡ true
unfolding all_least ceil_log2_lookup
ceil_log2_lookup-all_least = refl

all_least-get_or :
    (m : ℕ) (es : List ℕ) (i : ℕ)
    → all_least m es ≡ true
    → i < length es
    → (m + i + 1 ≤ 2 ^ get_or es i 0) × (2 ^ get_or es i 0 < 2 * (m + i + 1))
unfolding all_least
all_least-get_or m [] i h lt = absurd (omega arith)
all_least-get_or m (e ∷ es) zero h lt = ground arith
all_least-get_or m (e ∷ es) (suc i) h lt = ground (arith, all_least-get_or (m + 1) es i)

length-ceil_log2_lookup : length ceil_log2_lookup ≡ 256
unfolding ceil_log2_lookup
length-ceil_log2_lookup = refl

entry_bounds : (m : ℕ) → 0 < m → m ≤ 256 → (m ≤ 2 ^ entry m) × (2 ^ entry m < 2 * m)
entry_bounds zero pos le = absurd (omega arith)
entry_bounds (suc m) pos le =
    let bounds =
      all_least-get_or 0 ceil_log2_lookup m ceil_log2_lookup-all_least
        (omega (arith, length-ceil_log2_lookup)) in
    ground arith

-- What the loop keeps of `n`: `m` is `n` without its low `acc` bits.
record Shifted (n m acc : ℕ) : Type 0 where
  pos : 0 < m
  below : m * 2 ^ acc ≤ n
  above : n < (m + 1) * 2 ^ acc

pow_add_eight : (acc : ℕ) → 2 ^ (acc + 8) ≡ 2 ^ acc * 256
pow_add_eight acc = simp towards_suc (omega (arith, pow-suc 2 acc))

mul_mono : (a b p : ℕ) → a ≤ b → a * p ≤ b * p
mul_mono a b p h = grind arith

shift_step : (n m acc : ℕ) → 256 < m → Shifted n m acc → Shifted n (m / 2 ^ 8) (acc + 8)
shift_step n m acc h v =
    let q = m / 256 in
    let down = mul_mono (256 * q) m (2 ^ acc) (omega arith) in
    let up = mul_mono (m + 1) (256 * (q + 1)) (2 ^ acc) (omega arith) in
    let low = ap (λ (t : ℕ). q * t) (pow_add_eight acc) in
    let high = ap (λ (t : ℕ). (q + 1) * t) (pow_add_eight acc) in
    record { pos = omega arith; below = omega (arith, v.below); above = omega (arith, v.above) }

shift-Shifted :
    (fuel n m acc : ℕ)
    → m ≤ fuel
    → Shifted n m acc
    → ((shift_bytes fuel m acc).0 ≤ 256)
      × Shifted n (shift_bytes fuel m acc).0 (shift_bytes fuel m acc).1
unfolding shift_bytes
shift-Shifted zero n m acc enough v = (omega arith, v)
shift-Shifted (suc fuel) n m acc enough v = elim (Bool-cases (ltb 256 m)) [
  | inl more ↦ rw more (
      shift-Shifted fuel n (m / 2 ^ 8) (acc + 8) (ground arith)
        (shift_step n m acc (ltb→lt 256 m more) v))
  | inr done ↦ rw done (ground arith, v)
]

start-Shifted : (n : ℕ) → 0 < n → Shifted n n 0
start-Shifted n h = record { pos = h; below = omega arith; above = omega arith }

shift_bytes_small : (fuel n acc : ℕ) → n ≤ 256 → shift_bytes fuel n acc ≡ (n, acc)
unfolding shift_bytes
shift_bytes_small zero n acc h = refl
shift_bytes_small (suc fuel) n acc h = ground arith

pow_add : (a b : ℕ) → 2 ^ (a + b) ≡ 2 ^ a * 2 ^ b
pow_add a zero = rw add-zero (omega arith)
pow_add a (suc b) =
    let e : a + suc b ≡ suc (a + b) = omega arith in
    rw e (omega (arith, pow-suc 2 (a + b), pow_add a b, ap (λ (t : ℕ). 2 ^ a * t) (pow-suc 2 b)))

-- The result in terms of what the loop ends with.
next_pow2-shift :
    (n : ℕ) → mem_next_pow2 n ≡ 2 ^ (shift_bytes n n 0).1 * 2 ^ entry (shift_bytes n n 0).0
unfolding mem_next_pow2 mem_ceil_log2
next_pow2-shift n = pow_add _ _

-- For a size of at most 256 the result is the least power of two that is no smaller.
pub mem_next_pow2_least :
    (n : ℕ) → 0 < n → n ≤ 256 → (n ≤ mem_next_pow2 n) × (mem_next_pow2 n < 2 * n)
mem_next_pow2_least n pos le =
    rw (next_pow2-shift n, shift_bytes_small n n 0 le) (omega (arith, entry_bounds n pos le))

Shifted-bounds :
    (n m acc e : ℕ)
    → Shifted n m acc
    → m ≤ e
    → e < 2 * m
    → (n < 2 * (2 ^ acc * e)) × (2 ^ acc * e < 2 * n)
Shifted-bounds n m acc e v lo hi =
    let low = mul_mono (m + 1) (2 * e) (2 ^ acc) (omega (arith, v.pos)) in
    let high = mul_mono (e + 1) (2 * m) (2 ^ acc) (omega arith) in
    (omega (arith, v.above), omega (arith, v.below, one-le-pow acc 2 (omega arith)))

-- For every size the result lies strictly between half the size and twice the size.
pub mem_next_pow2_bounds : (n : ℕ) → 0 < n → (n < 2 * mem_next_pow2 n) × (mem_next_pow2 n < 2 * n)
mem_next_pow2_bounds n pos =
    let (small, v) = shift-Shifted n n n 0 (omega arith) (start-Shifted n pos) in
    let (lo, hi) = entry_bounds _ v.pos small in
    rw (next_pow2-shift n) (Shifted-bounds n _ _ _ v lo hi)

-- Between 256 and 512 the low byte is lost, and the result is smaller than the size.
pub mem_next_pow2_short : (n : ℕ) → 256 < n → n < 512 → mem_next_pow2 n ≡ 256
unfolding mem_next_pow2 mem_ceil_log2 shift_bytes ceil_log2_lookup
mem_next_pow2_short zero lo hi = absurd (omega arith)
mem_next_pow2_short (suc n) lo hi =
    let e : suc n / 2 ^ 8 ≡ 1 = omega arith in
    rw (lt→ltb 256 (suc n) lo, e, shift_bytes_small n 1 8 (omega arith))

exponent_eq : (r e : ℕ) → 2 ^ e < 2 * 2 ^ r → 2 ^ r < 2 * 2 ^ e → r ≡ e
exponent_eq r e lo hi = elim (dec_lt r e) [
  | yes p ↦
      absurd
        (omega (arith, pow-suc 2 r, pow-le-pow_right {n = 2} (omega arith) {i = suc r} {j = e} p))
  | no p ↦ elim (dec_lt e r) [
    | yes q ↦
        absurd
          (omega (arith, pow-suc 2 e, pow-le-pow_right {n = 2} (omega arith) {i = suc e} {j = r} q))
    | no q ↦ omega arith
  ]
]

-- A power of two is its own next power of two, however large.
pub mem_ceil_log2-pow : (e : ℕ) → mem_ceil_log2 (2 ^ e) ≡ e
mem_ceil_log2-pow e =
    let (lo, hi) = mem_next_pow2_bounds (2 ^ e) (one-le-pow e 2 (omega arith)) in
    exponent_eq (mem_ceil_log2 (2 ^ e)) e (unfold mem_next_pow2 in lo) (unfold mem_next_pow2 in hi)

pow_two_gap : (e : ℕ) → 2 ^ e < 512 → 2 ^ e ≤ 256
pow_two_gap e h = elim (dec_lt 8 e) [
  | yes p ↦ absurd (omega (arith, pow-le-pow_right {n = 2} (omega arith) {i = 9} {j = e} p))
  | no p ↦ pow-le-pow_right {n = 2} (omega arith) {i = e} {j = 8} (omega arith)
]

pub mem_next_pow2-le : (n : ℕ) → 0 < n → n ≤ 256 → mem_next_pow2 n ≤ 256
mem_next_pow2-le n pos le =
    let (_, hi) = mem_next_pow2_bounds n pos in
    unfold mem_next_pow2 in pow_two_gap (mem_ceil_log2 n) (omega arith)
