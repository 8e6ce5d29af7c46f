-- ===== src/Opcode/Info.antt =====
-- `OpInfo` of cpp/src/opcode.hpp and the table `opinfo` of cpp/src/opcode.cpp: the format of each
-- operation and the use of its operands, packed in seven bits.
use lulu.Prelude.{
  arith, ℕ, ◌+◌, ◌*◌, ◌/◌, ◌%◌, ◌^◌, ◌<◌, ◌≡◌, refl, Bool, true, false, bit_and, bit_or, List, [],
  ◌∷◌, get_or, length, leb, ◌&&◌, if◌then◌else◌, ◌==◌,
}
use lulu.Prelude.Bits.{bit_or_fields, bit_and_mask}
use lulu.Opcode.{OpCode, code, bit_mask1, opcode_count}

pub data OpFormat : Type 0 where
  abc abx asbx : OpFormat

pub data OpArg : Type 0 where
  unused regk jump other : OpArg

unfoldable pub format_code : OpFormat → ℕ
format_code abc = 0
format_code abx = 1
format_code asbx = 2

unfoldable pub arg_code : OpArg → ℕ
arg_code unused = 0
arg_code regk = 1
arg_code jump = 2
arg_code other = 3

abbrev pub bit : Bool → ℕ
bit true = 1
bit false = 0

pub record OpInfo : Type 0 where
  pub value : ℕ

-- `MAKE(fmt, test, a, b, c)`; the cast to `u8` is the remainder.
unfoldable pub make : OpFormat → Bool → Bool → OpArg → OpArg → OpInfo
make fmt test a b c = record {
  value =
      bit_or
        (bit_or (bit_or (bit_or (bit test * 2 ^ 7) (bit a * 2 ^ 6)) (arg_code b * 2 ^ 4))
          (arg_code c * 2 ^ 2))
        (format_code fmt)
      % 2 ^ 8;
}

unfoldable pub extract : ℕ → ℕ → OpInfo → ℕ
extract offset size i = bit_and (i.value / 2 ^ offset) (bit_mask1 size)

unfoldable pub fmt : OpInfo → ℕ
fmt i = extract 0 2 i

unfoldable pub test : OpInfo → Bool
test i = if extract 7 1 i == 0 then false else true

-- Is A used as a destination register?
unfoldable pub sets_a : OpInfo → Bool
sets_a i = if extract 6 1 i == 0 then false else true

unfoldable pub arg_b : OpInfo → ℕ
arg_b i = extract 4 2 i

unfoldable pub arg_c : OpInfo → ℕ
arg_c i = extract 2 2 i

-- `opinfo`, in the order of `OpCode`.
unfoldable pub opinfo : List OpInfo
unfolding make
opinfo =
    make abc false true regk unused
    ∷ make abx false true regk unused
    ∷ make abc false true regk unused
    ∷ make abc false true regk regk
    ∷ make abx false true regk unused
    ∷ make abx false false regk unused
    ∷ make abc false true other other
    ∷ make abc false true regk regk
    ∷ make abc false false regk regk
    ∷ make abc false true other other
    ∷ make abc false true regk unused
    ∷ make abc false false regk unused
    ∷ make abc false true regk regk
    ∷ make abc false true regk regk
    ∷ make abc false true regk regk
    ∷ make abc false true regk regk
    ∷ make abc false true regk regk
    ∷ make abc false true regk regk
    ∷ make abc true false regk regk
    ∷ make abc true false regk regk
    ∷ make abc true false regk regk
    ∷ make abc false true regk unused
    ∷ make abc false true regk unused
    ∷ make abc false true regk unused
    ∷ make abc false true regk regk
    ∷ make abc true false unused other
    ∷ make abc true true regk other
    ∷ make asbx false false jump unused
    ∷ make asbx true true jump unused
    ∷ make asbx true true jump unused
    ∷ make abc true false unused regk
    ∷ make abc false true other other
    ∷ make abc false true regk regk
    ∷ make abx false true regk unused
    ∷ make abc false false unused unused
    ∷ make abc false false other unused
    ∷ []

-- `opinfo[op]`; the table has a row for every enumerator.
unfoldable pub opinfo_at : ℕ → OpInfo
unfolding opinfo
opinfo_at n = get_or opinfo n (record { value = 0 })

-- The table has a row for each operation.
opinfo_lem : length opinfo ≡ opcode_count
unfolding opinfo
opinfo_lem = refl

module _ (t a b c f : ℕ) (ht : t < 2) (ha : a < 2) (hb : b < 4) (hc : c < 4) (hf : f < 4) where
  packed :
      bit_or (bit_or (bit_or (bit_or (t * 2 ^ 7) (a * 2 ^ 6)) (b * 2 ^ 4)) (c * 2 ^ 2)) f % 2 ^ 8
      ≡ (((t * 2 + a) * 4 + b) * 4 + c) * 4 + f
  packed = ground (
    arith,
    bit_or_fields 7 t (a * 2 ^ 6),
    bit_or_fields 6 (t * 2 + a) (b * 2 ^ 4),
    bit_or_fields 4 ((t * 2 + a) * 4 + b) (c * 2 ^ 2),
    bit_or_fields 2 (((t * 2 + a) * 4 + b) * 4 + c) f,
  )

  unpacked :
      (i : OpInfo)
      → i.value ≡ (((t * 2 + a) * 4 + b) * 4 + c) * 4 + f
      → (extract 0 2 i ≡ f)
        × (extract 7 1 i ≡ t)
        × (extract 6 1 i ≡ a)
        × (extract 4 2 i ≡ b)
        × (extract 2 2 i ≡ c)
  unfolding extract
  unpacked i e = ground (
    arith,
    bit_and_mask 2 (((t * 2 + a) * 4 + b) * 4 + c) f,
    bit_and_mask 1 0 t,
    bit_and_mask 1 t a,
    bit_and_mask 2 (t * 2 + a) b,
    bit_and_mask 2 ((t * 2 + a) * 4 + b) c,
  )

bit-lt : (b : Bool) → bit b < 2
bit-lt true = omega arith
bit-lt false = omega arith

bit-ne : (b : Bool) → (if bit b == 0 then false else true) ≡ b
bit-ne true = refl
bit-ne false = refl

arg_code-lt : (a : OpArg) → arg_code a < 4
unfolding arg_code
arg_code-lt unused = omega arith
arg_code-lt _ = omega arith

format_code-lt : (f : OpFormat) → format_code f < 4
unfolding format_code
format_code-lt abc = omega arith
format_code-lt _ = omega arith

-- The five fields of a packed entry are those it was packed from.
pub make-fields :
    (f : OpFormat) (t a : Bool) (b c : OpArg)
    → (fmt (make f t a b c) ≡ format_code f)
      × (test (make f t a b c) ≡ t)
      × (sets_a (make f t a b c) ≡ a)
      × (arg_b (make f t a b c) ≡ arg_code b)
      × (arg_c (make f t a b c) ≡ arg_code c)
unfolding make fmt test sets_a arg_b arg_c
make-fields f t a b c =
    let (ef, et, ea, eb, ec) =
      unpacked (bit t) (bit a) (arg_code b) (arg_code c) (format_code f) (bit-lt t) (bit-lt a)
        (arg_code-lt b) (arg_code-lt c) (format_code-lt f) (make f t a b c)
        (packed (bit t) (bit a) (arg_code b) (arg_code c) (format_code f) (bit-lt t) (bit-lt a)
          (arg_code-lt b) (arg_code-lt c) (format_code-lt f)) in
    (ef, rw et (bit-ne t), rw ea (bit-ne a), eb, ec)

pub is_jump : ℕ → Bool
unfolding code
is_jump n = leb (code OpCode.jump) n && leb n (code OpCode.for_loop)

-- The operations that carry a signed offset are those between `jump` and `for_loop`, the ones that
-- the jump lists accept; and these alone have a jump as operand B.
pub opinfo-asbx :
    (o : OpCode)
    → (is_jump (code o) ≡ (fmt (opinfo_at (code o)) == format_code asbx))
      × (is_jump (code o) ≡ (arg_b (opinfo_at (code o)) == arg_code jump))
unfolding is_jump code opinfo_at make format_code arg_code extract fmt arg_b
opinfo-asbx OpCode.move = (refl, refl)
opinfo-asbx _ = (refl, refl)
