-- ===== src/Difficulty/Value.antt =====
-- The operations of `Difficulty` (p2pool/types.go) against arithmetic on 128-bit numbers.
use Prim.Native.Nat.{bit_or}
use p2pool_salvium_observer.Prelude.{
  ℕ, ◌+◌, ◌-◌, ◌*◌, ◌/◌, ◌%◌, ◌^◌, ◌≤◌, ◌<◌, ◌≡◌, refl, sym, ap, ◌∙◌, arith, ltb, leb, inl, inr,
  Bool-cases,
}
use p2pool_salvium_observer.Word.{IsU64, add64, mul64, shl64}
use p2pool_salvium_observer.Word.Bits.{bit_and-mask, bit_or-shifted}
use p2pool_salvium_observer.Difficulty.{
  Difficulty, cmp, is_greater, is_at_least, add, sub, low32, mul_64, div64,
}
use native.Mathlib.Nat.{
  mul-le-mul, mul-add-div_right, div-lt_iff_lt-mul, mod-lt, div-add-mod, div-eq_of_lt, mod-eq_of_lt,
  div-le_self, lt_of_le_of_lt,
}
use mathlib.Core.Logic.{dif_pos}
use native.Mathlib.Bridge.{le_prop}
use native.Mathlib.Decide.{dec_lt}

-- The number that the two halves stand for.
abbrev pub value : Difficulty → ℕ
value d = d.hi * 2 ^ 64 + d.lo

abbrev pub IsValid : Difficulty → Type 0
IsValid d = IsU64 d.lo × IsU64 d.hi

pub value-lt : (d : Difficulty) → IsValid d → value d < 2 ^ 128
value-lt d v = omega arith

pub value_injective : (a b : Difficulty) → IsValid a → IsValid b → value a ≡ value b → a ≡ b
value_injective a b va vb e =
    let lo : a.lo ≡ b.lo = omega arith in
    let hi : a.hi ≡ b.hi = omega arith in λ i. record { lo = lo i; hi = hi i }

-- Cmp of valid difficulties is positive exactly where the first stands for the greater number.
pub cmp_greater :
    (a b : Difficulty) → IsValid a → IsValid b → is_greater (cmp a b) ≡ ltb (value b) (value a)
unfolding cmp
cmp_greater a b va vb = ground arith

pub cmp_at_least :
    (a b : Difficulty) → IsValid a → IsValid b → is_at_least (cmp a b) ≡ leb (value b) (value a)
unfolding cmp
cmp_at_least a b va vb = ground arith

pub add-IsValid : (a b : Difficulty) → IsValid a → IsValid b → IsValid (add a b)
unfolding add
add-IsValid a b va vb = ground arith

-- Add of valid difficulties is addition modulo 2^128.
pub add-value :
    (a b : Difficulty) → IsValid a → IsValid b → value (add a b) ≡ (value a + value b) % 2 ^ 128
unfolding add
add-value a b va vb = ground arith

pub sub-IsValid : (a b : Difficulty) → IsValid a → IsValid b → IsValid (sub a b)
unfolding sub
sub-IsValid a b va vb = ground arith

-- `Sub` is subtraction where the first is at least the second.
pub sub-value :
    (a b : Difficulty)
    → IsValid a
    → IsValid b
    → value b ≤ value a
    → value (sub a b) ≡ value a - value b
unfolding sub
sub-value a b va vb le = ground arith

pub low32_lem : (x : ℕ) → low32 x ≡ x % 2 ^ 32
low32_lem x = bit_and-mask 32 x 0xFFFFFFFF refl

product_bound : (a b : ℕ) → a < 2 ^ 32 → b < 2 ^ 32 → a * b ≤ 0xFFFFFFFF * 0xFFFFFFFF
product_bound a b ha hb = mul-le-mul {n₂ = 0xFFFFFFFF} {m₂ = 0xFFFFFFFF} (omega arith) (omega arith)

-- `mid` and the two halves of the product, over the four products of 32-bit digits and the product
-- of the high half.
abbrev mid_of : ℕ → ℕ → ℕ → ℕ
mid_of p00 p01 p10 = add64 (add64 (p00 / 2 ^ 32) (p01 % 2 ^ 32)) (p10 % 2 ^ 32)

abbrev hi_of : ℕ → ℕ → ℕ → ℕ → ℕ → ℕ
hi_of p00 p01 p10 p11 h =
    add64 (add64 (add64 (add64 (p01 / 2 ^ 32) (p10 / 2 ^ 32)) p11) (mid_of p00 p01 p10 / 2 ^ 32))
      (h % 2 ^ 64)

schoolbook :
    (p00 p01 p10 p11 h : ℕ)
    → p00 ≤ 0xFFFFFFFF * 0xFFFFFFFF
    → p01 ≤ 0xFFFFFFFF * 0xFFFFFFFF
    → p10 ≤ 0xFFFFFFFF * 0xFFFFFFFF
    → p11 ≤ 0xFFFFFFFF * 0xFFFFFFFF
    → hi_of p00 p01 p10 p11 h * 2 ^ 64 + (p00 % 2 ^ 32 + mid_of p00 p01 p10 * 2 ^ 32 % 2 ^ 64)
      ≡ (h * 2 ^ 64 + p11 * 2 ^ 64 + p10 * 2 ^ 32 + p01 * 2 ^ 32 + p00) % 2 ^ 128
schoolbook p00 p01 p10 p11 h q00 q01 q10 q11 = omega arith

-- The lower half of the result: its two parts do not overlap.
lower_half : (x mid : ℕ) → bit_or (low32 x) (shl64 mid 32) ≡ x % 2 ^ 32 + mid * 2 ^ 32 % 2 ^ 64
lower_half x mid =
    let e : mid * 2 ^ 32 % 2 ^ 64 ≡ mid % 2 ^ 32 * 2 ^ 32 = omega arith in
    rw (e, low32_lem x) (bit_or-shifted 32 (x % 2 ^ 32) (mid % 2 ^ 32) (omega arith))

no_wrap : (a b : ℕ) → a < 2 ^ 32 → b < 2 ^ 32 → mul64 a b ≡ a * b
no_wrap a b ha hb = let k : a * b ≤ 0xFFFFFFFF * 0xFFFFFFFF = product_bound a b ha hb in omega arith

expand :
    (h lo v a0 a1 v0 v1 : ℕ)
    → lo ≡ a1 * 2 ^ 32 + a0
    → v ≡ v1 * 2 ^ 32 + v0
    → h * v * 2 ^ 64 + a1 * v1 * 2 ^ 64 + a0 * v1 * 2 ^ 32 + a1 * v0 * 2 ^ 32 + a0 * v0
      ≡ (h * 2 ^ 64 + lo) * v
expand h lo v a0 a1 v0 v1 el ev = rw (el, ev) (omega arith)

-- Mul64 of a valid difficulty by a uint64 is multiplication modulo 2^128.
pub mul_64-value :
    (d : Difficulty) (v : ℕ) → IsValid d → IsU64 v → value (mul_64 d v) ≡ value d * v % 2 ^ 128
unfolding mul_64
mul_64-value d v vd hv =
    let a0 = d.lo % 2 ^ 32 in
    let a1 = d.lo / 2 ^ 32 in
    let v0 = v % 2 ^ 32 in
    let v1 = v / 2 ^ 32 in
    let small : (a0 < 2 ^ 32) × (a1 < 2 ^ 32) × (v0 < 2 ^ 32) × (v1 < 2 ^ 32) =
      (omega arith, omega arith, omega arith, omega arith) in
    rw (lower_half _ _) (
      simp
        (
          low32_lem,
          no_wrap a0 v0 small.0 small.2,
          no_wrap a1 v0 small.1 small.2,
          no_wrap a0 v1 small.0 small.3,
          no_wrap a1 v1 small.1 small.3,
        )
        (schoolbook (a0 * v0) (a1 * v0) (a0 * v1) (a1 * v1) (d.hi * v)
            (product_bound a0 v0 small.0 small.2) (product_bound a1 v0 small.1 small.2)
            (product_bound a0 v1 small.0 small.3) (product_bound a1 v1 small.1 small.3)
          ∙ ap (λ (t : ℕ). t % 2 ^ 128)
              (expand d.hi d.lo v a0 a1 v0 v1 (omega arith) (omega arith))))

pub mul_64-IsValid : (d : Difficulty) (v : ℕ) → IsValid (mul_64 d v)
unfolding mul_64
mul_64-IsValid d v = (rw (lower_half _ _) (omega arith), omega arith)

quotient_halves :
    (hi lo v : ℕ) → 0 < v → hi / v * 2 ^ 64 + (hi % v * 2 ^ 64 + lo) / v ≡ (hi * 2 ^ 64 + lo) / v
quotient_halves hi lo v h =
    let q = hi / v in
    let r = hi % v in
    let e : hi * 2 ^ 64 + lo ≡ q * 2 ^ 64 * v + (r * 2 ^ 64 + lo) =
      omega (arith, div-add-mod hi v) in
    sym (ap (λ (t : ℕ). t / v) e ∙ mul-add-div_right h (q * 2 ^ 64) (r * 2 ^ 64 + lo))

div64_lem :
    (d : Difficulty) (v : ℕ)
    → 0 < v
    → div64 d v ≡ record { lo = (d.hi % v * 2 ^ 64 + d.lo) / v; hi = d.hi / v }
unfolding div64
div64_lem d v h = dif_pos (dec_lt 0 v) le_prop h _ _ ∙ elim (Bool-cases (leb v d.hi)) [
  | inl big ↦ rw big
  | inr small ↦ let lt : d.hi < v = ground arith in rw (small, div-eq_of_lt lt, mod-eq_of_lt lt)
]

-- Div64 by a positive number is division of the number that the two halves stand for.
pub div64-value : (d : Difficulty) (v : ℕ) → 0 < v → value (div64 d v) ≡ value d / v
div64-value d v h = rw (div64_lem d v h) (quotient_halves d.hi d.lo v h)

pub div64-IsValid : (d : Difficulty) (v : ℕ) → IsValid d → 0 < v → IsValid (div64 d v)
div64-IsValid d v vd h =
    let r : d.hi % v < v = mod-lt d.hi h in
    let fits : d.hi % v * 2 ^ 64 + d.lo < 2 ^ 64 * v = omega arith in
    rw (div64_lem d v h) ((div-lt_iff_lt-mul h).1 fits, lt_of_le_of_lt (div-le_self d.hi v) vd.1)
