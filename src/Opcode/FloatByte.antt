-- ===== src/Opcode/FloatByte.antt =====
-- The 8-bit floating-point byte of cpp/src/opcode.cpp, in which a table's sizes are encoded.
use lulu.Prelude.{
  ℕ, zero, suc, ◌+◌, ◌-◌, ◌*◌, ◌/◌, ◌%◌, ◌^◌, ◌≤◌, ◌<◌, ◌≡◌, refl, bit_and, bit_or, ◌⊎◌, ◌∙◌, inl,
  inr, Bool-cases, ltb→lt, arith, ltb, if◌then◌else◌, ◌==◌,
}
use lulu.Prelude.Bits.{bit_or_fields, bit_and_mask, mul_two_pow}
use native.Mathlib.Decide.{dec_le, dec_lt}
use native.Mathlib.Nat.{pow-suc, pow-le-pow_right}
use native.Mathlib.Numerals.{add-one}

abbrev fb_mant_size : ℕ
fb_mant_size = 3

abbrev fb_mant_implied : ℕ
fb_mant_implied = 2 ^ fb_mant_size

abbrev fb_mant_mask : ℕ
fb_mant_mask = fb_mant_implied - 1

abbrev fb_mant_implied_max : ℕ
fb_mant_implied_max = bit_or fb_mant_implied fb_mant_mask

abbrev fb_exp_mask : ℕ
fb_exp_mask = 2 ^ 5 - 1

-- The `while` loop, with fuel: `x` and `exp` when it ends.
unfoldable pub halve : ℕ → ℕ → ℕ → ℕ × ℕ
halve zero x exp = (x, exp)
halve (suc fuel) x exp =
    let rest = halve fuel ((x + 1) / 2) (exp + 1) in
    if ltb fb_mant_implied_max x then rest else (x, exp)

-- The body of `floating_byte_make` after the loop.
pack : ℕ × ℕ → ℕ
pack (x, exp) =
    if ltb x fb_mant_implied
    then x
    else bit_or ((exp + 1) * 2 ^ fb_mant_size % 2 ^ 16) ((x - fb_mant_implied) % 2 ^ 16)

-- `x` is a size, never negative; `x` rounds of the loop are always enough.
unfoldable pub floating_byte_make : ℕ → ℕ
unfolding halve pack
floating_byte_make x = pack (halve x x 0)

unfoldable pub floating_byte_decode : ℕ → ℕ
floating_byte_decode fbyte =
    let exp = bit_and (fbyte / 2 ^ fb_mant_size) fb_exp_mask in
    if exp == 0 then fbyte else (bit_and fbyte fb_mant_mask + fb_mant_implied) * 2 ^ (exp - 1)

-- What the loop keeps of the size `n`: the value above it and the next one below.
record Halved (n x exp : ℕ) : Type 0 where
  above : n ≤ x * 2 ^ exp
  close : x * 2 ^ exp < n + 2 ^ exp
  filled : (exp ≡ 0) ⊎ ((8 ≤ x) × (15 * 2 ^ exp < 2 * n))

mul_mono : (a b p : ℕ) → a ≤ b → a * p ≤ b * p
mul_mono a b p h = grind arith

halve_step : (n x exp : ℕ) → 15 < x → Halved n x exp → Halved n ((x + 1) / 2) (exp + 1)
halve_step n x exp h v =
    let q = (x + 1) / 2 in
    let up = mul_mono x (2 * q) (2 ^ exp) (omega arith) in
    let down = mul_mono (2 * q) (x + 1) (2 ^ exp) (omega arith) in
    let least = mul_mono 16 x (2 ^ exp) (omega arith) in
    rw (add-one exp) (record {
      above = omega (arith, v.above, mul_two_pow q exp);
      close = omega (arith, v.close, mul_two_pow q exp, pow-suc 2 exp);
      filled = inr (omega arith, omega (arith, v.close, pow-suc 2 exp));
    })

halve-Halved :
    (fuel n x exp : ℕ)
    → x ≤ fuel
    → Halved n x exp
    → ((halve fuel x exp).0 ≤ 15) × Halved n (halve fuel x exp).0 (halve fuel x exp).1
unfolding halve
halve-Halved zero n x exp enough v = (omega arith, v)
halve-Halved (suc fuel) n x exp enough v = elim (Bool-cases (ltb 15 x)) [
  | inl more ↦ rw more (
      halve-Halved fuel n ((x + 1) / 2) (exp + 1) (ground arith)
        (halve_step n x exp (ltb→lt 15 x more) v))
  | inr done ↦ rw done (ground arith, v)
]

make-Halved : (n : ℕ) → ((halve n n 0).0 ≤ 15) × Halved n (halve n n 0).0 (halve n n 0).1
make-Halved n =
    halve-Halved n n n 0 (omega arith)
      (record { above = omega arith; close = omega arith; filled = inl refl })

exp_bound : (n exp : ℕ) → n ≤ 15 * 2 ^ 30 → 15 * 2 ^ exp < 2 * n → exp ≤ 30
exp_bound n exp hn h = elim (dec_le exp 30) [
  | yes p ↦ p
  | no p ↦
      absurd
        (omega (arith, pow-le-pow_right {n = 2} (omega arith) {i = 31} {j = exp} (omega arith)))
]

pack_fields : (x exp : ℕ) → 8 ≤ x → x ≤ 15 → exp ≤ 30 → pack (x, exp) ≡ (exp + 1) * 2 ^ 3 + (x - 8)
unfolding pack
pack_fields x exp lo hi small = ground (arith, bit_or_fields 3 (exp + 1) (x - 8))

decode-fields :
    (q r : ℕ)
    → 0 < q
    → q < 32
    → r < 8
    → floating_byte_decode (q * 2 ^ 3 + r) ≡ (r + 8) * 2 ^ (q - 1)
unfolding floating_byte_decode
decode-fields q r pos small fits = ground (arith, bit_and_mask 5 0 q, bit_and_mask 3 q r)

-- Decoding what `pack` made of a full mantissa gives the value back.
decode-pack :
    (x exp : ℕ) → 8 ≤ x → x ≤ 15 → exp ≤ 30 → floating_byte_decode (pack (x, exp)) ≡ x * 2 ^ exp
decode-pack x exp lo hi small =
    rw
      (
        pack_fields x exp lo hi small,
        decode-fields (exp + 1) (x - 8) (omega arith) (omega arith) (omega arith),
      )
      (let e : exp + 1 - 1 ≡ exp = omega arith in let f : x - 8 + 8 ≡ x = omega arith in rw (e, f))

decode-small : (x : ℕ) → x < 8 → floating_byte_decode (pack (x, 0)) ≡ x
unfolding pack floating_byte_decode
decode-small x h = ground (arith, bit_and_mask 5 0 (x / 8))

decode-Halved :
    (n x exp : ℕ)
    → n ≤ 15 * 2 ^ 30
    → x ≤ 15
    → Halved n x exp
    → floating_byte_decode (pack (x, exp)) ≡ x * 2 ^ exp
decode-Halved n x exp hn hx v = elim v.filled [
  | inr (lo, h) ↦ decode-pack x exp lo hx (exp_bound n exp hn h)
  | inl e ↦ rw e (elim (dec_lt x 8) [
    | yes p ↦ omega (arith, decode-small x p)
    | no p ↦ decode-pack x 0 (omega arith) hx (omega arith)
  ])
]

-- What the encoding of `n` decodes to.
make-decode :
    (n : ℕ)
    → n ≤ 15 * 2 ^ 30
    → floating_byte_decode (floating_byte_make n) ≡ (halve n n 0).0 * 2 ^ (halve n n 0).1
unfolding floating_byte_make
make-decode n h = let (small, v) = make-Halved n in decode-Halved n _ _ h small v

-- Up to 15 * 2 ^ 30 the decoded size is no smaller than the size that was encoded, and larger by at
-- most a seventh of it.
pub floating_byte_bounds :
    (n : ℕ)
    → n ≤ 15 * 2 ^ 30
    → (n ≤ floating_byte_decode (floating_byte_make n))
      × (7 * floating_byte_decode (floating_byte_make n) ≤ 8 * n)
floating_byte_bounds n h =
    let (small, v) = make-Halved n in
    rw (make-decode n h) (
      v.above,
      elim v.filled [
        | inl e ↦ rw e (let c = rw e at v.close in omega arith)
        | inr (lo, _) ↦ omega (arith, v.close, mul_mono 8 (halve n n 0).0 (2 ^ (halve n n 0).1) lo)
      ],
    )

exact-Halved : (n x exp : ℕ) → n < 16 → Halved n x exp → x * 2 ^ exp ≡ n
exact-Halved n x exp hn v = elim (dec_lt 0 exp) [
  | yes p ↦ elim v.filled [
    | inl e ↦ absurd (omega arith)
    | inr (lo, h) ↦
        absurd (omega (arith, pow-le-pow_right {n = 2} (omega arith) {i = 1} {j = exp} p))
  ]
  | no p ↦
      let e : exp ≡ 0 = omega arith in
      let c = rw e at v.close in let d = rw e at v.above in rw e (omega arith)
]

-- Sizes below 16 are exact.
pub floating_byte_exact : (n : ℕ) → n < 16 → floating_byte_decode (floating_byte_make n) ≡ n
floating_byte_exact n h = make-decode n (omega arith) ∙ exact-Halved n _ _ h (make-Halved n).1
