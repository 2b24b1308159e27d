-- ===== src/Difficulty/Division.antt =====
-- The 128-bit long division of `Div` (p2pool/types.go) against division of numbers.
use Prim.Native.Nat.{bit_and, bit_or}
use p2pool_salvium_observer.Prelude.{
  ℕ, zero, suc, ◌+◌, ◌-◌, ◌*◌, ◌/◌, ◌%◌, ◌^◌, ◌≤◌, ◌<◌, ◌≡◌, refl, sym, ap, ◌∙◌, true, arith, leb,
  inl, inr, ◌≤◌, Bool-cases, leb→le, leb_false→lt, false, ◌==◌,
}
use mathlib.Core.Path.{ap₂}
use p2pool_salvium_observer.Word.{shl64, shr64}
use p2pool_salvium_observer.Word.Bits.{bit_and-mask, shifted-bit_or}
use p2pool_salvium_observer.Difficulty.{
  Difficulty, zero_difficulty, cmp, is_at_least, is_zero, sub, bit, bring_down, set_bit, div_loop,
  div,
}
use p2pool_salvium_observer.Difficulty.Value.{
  value, IsValid, cmp_at_least, sub-value, sub-IsValid, div64-value, div64-IsValid, value-lt,
}
use native.Mathlib.Nat.{
  pow-suc, suc-mul, div-zero, div-eq_of_lt, mul_left_comm, div-one, lt_of_mul-lt-mul_right,
  mod-eq_of_lt, mul_assoc, mul_comm, div-div-eq-div-mul, mul-add-div_right, one-le-pow, mul-sub,
  div-eq_of_lt-le, two-pow-succ, mul-le-mul_right, div-le_self,
}

pub pow_add : (a b : ℕ) → 2 ^ (a + b) ≡ 2 ^ a * 2 ^ b
pow_add a zero = let e : a + 0 ≡ a = omega arith in rw e (omega arith)
pow_add a (suc b) =
    let e : a + suc b ≡ suc (a + b) = omega arith in
    rw (e, pow-suc 2 (a + b), pow_add a b, pow-suc 2 b) (mul_assoc (2 ^ a) (2 ^ b) 2)

pub pow_pos : (k : ℕ) → 0 < 2 ^ k
pow_pos k = one-le-pow k 2 (omega arith)

-- 2^64 as 2^(63 - i) * 2^(i + 1).
split_word : (i : ℕ) → i < 64 → 2 ^ (63 - i) * 2 ^ suc i ≡ 2 ^ 64
split_word i h = let e : 63 - i + suc i ≡ 64 = omega arith in sym (pow_add (63 - i) (suc i)) ∙ rw e

sub_mul : (a b p : ℕ) → (a - b) * p ≡ a * p - b * p
sub_mul a b p =
    mul_comm (a - b) p ∙ mul-sub p a b ∙ ap₂ (λ (s t : ℕ). s - t) (mul_comm p a) (mul_comm p b)

halve : (x i : ℕ) → x / 2 ^ suc i ≡ x / 2 ^ i / 2
halve x i = rw (pow-suc 2 i) (sym (div-div-eq-div-mul x (2 ^ i) 2))

low_bit : (x : ℕ) → bit_and x 1 ≡ x % 2
low_bit x = bit_and-mask 1 x 1 refl

-- The bit that the loop brings down is bit `i` of the dividend.
bit-value : (d : Difficulty) (i : ℕ) → IsValid d → i < 128 → bit d i ≡ value d / 2 ^ i % 2
bit-value d i vd h = elim (Bool-cases (leb 64 i)) [
  | inl high ↦
      let e : i ≡ 64 + (i - 64) = ground arith in
      let q : value d / 2 ^ i ≡ d.hi / 2 ^ (i - 64) =
        ap (λ (t : ℕ). value d / 2 ^ t) e
        ∙ ap (λ (t : ℕ). value d / t) (pow_add 64 (i - 64))
        ∙ sym (div-div-eq-div-mul (value d) (2 ^ 64) (2 ^ (i - 64)))
        ∙ ap (λ (t : ℕ). t / 2 ^ (i - 64)) (let e' : value d / 2 ^ 64 ≡ d.hi = omega arith in e') in
      rw (high, q) (low_bit (d.hi / 2 ^ (i - 64)))
  | inr low ↦
      let lt : i < 64 = ground arith in
      let k = d.hi * 2 ^ (63 - i) * 2 in
      let e : value d ≡ k * 2 ^ i + d.lo = omega (
        arith,
        ap (λ (t : ℕ). d.hi * t) (sym (split_word i lt)),
        pow-suc 2 i,
        ap (λ (t : ℕ). d.hi * 2 ^ (63 - i) * t) (pow-suc 2 i),
        mul_assoc d.hi (2 ^ (63 - i)) (2 ^ suc i),
      ) in
      let q : value d / 2 ^ i ≡ k + d.lo / 2 ^ i =
        ap (λ (t : ℕ). t / 2 ^ i) e ∙ mul-add-div_right (pow_pos i) k d.lo in
      rw (low, q) (low_bit (d.lo / 2 ^ i) ∙ omega arith)
]

bring_down-value :
    (r : Difficulty) (b : ℕ)
    → IsValid r
    → value r < 2 ^ 127
    → b < 2
    → (value (bring_down r b) ≡ 2 * value r + b) × IsValid (bring_down r b)
bring_down-value r b vr small hb = rw (hi, lo) (omega arith, (omega arith, omega arith))
  where
    lo : bit_or (shl64 r.lo 1) b ≡ r.lo % 2 ^ 63 * 2 + b
    lo =
        let e : shl64 r.lo 1 ≡ r.lo % 2 ^ 63 * 2 ^ 1 = omega arith in
        rw e (shifted-bit_or 1 b (r.lo % 2 ^ 63) hb)

    hi : bit_or (shl64 r.hi 1) (shr64 r.lo 63) ≡ r.hi % 2 ^ 63 * 2 + r.lo / 2 ^ 63
    hi =
        let e : shl64 r.hi 1 ≡ r.hi % 2 ^ 63 * 2 ^ 1 = omega arith in
        rw e (shifted-bit_or 1 (r.lo / 2 ^ 63) (r.hi % 2 ^ 63) (omega arith))

-- One word with a free bit `j` set: nothing above bit `j` is disturbed.
set_word :
    (x m j : ℕ)
    → x ≡ m * 2 ^ suc j
    → x < 2 ^ 64
    → j < 64
    → (bit_or x (shl64 1 j) ≡ x + 2 ^ j) × (x + 2 ^ j < 2 ^ 64)
set_word x m j e h hj = (rw (one_shifted, e) joined, room)
  where
    room : x + 2 ^ j < 2 ^ 64
    room =
        let below : m < 2 ^ (63 - j) =
          lt_of_mul-lt-mul_right (2 ^ suc j) (rw (← e) (rw (split_word j hj) h)) in
        let le : suc m * 2 ^ suc j ≤ 2 ^ (63 - j) * 2 ^ suc j =
          mul-le-mul_right (2 ^ suc j) below in
        omega (arith, le, split_word j hj, suc-mul m (2 ^ suc j), e, two-pow-succ j, pow_pos j)

    one_shifted : shl64 1 j ≡ 2 ^ j
    one_shifted = mod-eq_of_lt (omega (arith, room)) ∙ omega arith

    joined : bit_or (m * 2 ^ suc j) (2 ^ j) ≡ m * 2 ^ suc j + 2 ^ j
    joined = shifted-bit_or (suc j) (2 ^ j) m (omega (arith, two-pow-succ j, pow_pos j))

-- Setting bit `i` of a quotient whose lower bits are free adds 2^i.
set_bit-value :
    (q : Difficulty) (i c : ℕ)
    → IsValid q
    → i < 128
    → value q ≡ c * 2 ^ suc i
    → (value (set_bit q i) ≡ value q + 2 ^ i) × IsValid (set_bit q i)
set_bit-value q i c vq h e = elim (Bool-cases (leb 64 i)) [
  | inl high ↦
      let j = i - 64 in
      let ei : i ≡ 64 + j = ground arith in
      let ei' : suc i ≡ 64 + suc j = omega arith in
      let whole : c * 2 ^ suc i ≡ 2 ^ 64 * (c * 2 ^ suc j) =
        ap (λ (t : ℕ). c * t) (ap (λ (t : ℕ). 2 ^ t) ei' ∙ pow_add 64 (suc j))
        ∙ mul_left_comm c (2 ^ 64) (2 ^ suc j) in
      let w = set_word q.hi c j (omega (arith, whole)) vq.1 (omega arith) in
      let p : 2 ^ i ≡ 2 ^ 64 * 2 ^ j = ap (λ (t : ℕ). 2 ^ t) ei ∙ pow_add 64 j in
      rw (high, w.0) (omega (arith, p), (vq.0, w.1))
  | inr low ↦
      let lt : i < 64 = ground arith in
      let k = q.hi * 2 ^ (63 - i) in
      let whole : q.hi * 2 ^ 64 ≡ k * 2 ^ suc i =
        ap (λ (t : ℕ). q.hi * t) (sym (split_word i lt))
        ∙ sym (mul_assoc q.hi (2 ^ (63 - i)) (2 ^ suc i)) in
      let w = set_word q.lo (c - k) i (omega (arith, whole, sub_mul c k (2 ^ suc i))) vq.0 lt in
      rw (low, w.0) (omega arith, (w.1, vq.1))
]

-- One round in numbers: with `x` the bits read so far, x = c * v + r.
div_loop-value :
    (n c : ℕ) (d divisor q r : Difficulty)
    → n ≤ 128
    → IsValid d
    → IsValid divisor
    → IsValid q
    → IsValid r
    → value q ≡ c * 2 ^ n
    → value d / 2 ^ n ≡ c * value divisor + value r
    → value r < value divisor
    → (value (div_loop n d divisor q r) ≡ value d / value divisor)
      × IsValid (div_loop n d divisor q r)
unfolding div_loop
div_loop-value zero c d divisor q r hn vd vv vq vr eq ed lt =
    let q_is_c : value q ≡ c = omega arith in
    let whole : value d ≡ c * value divisor + value r = omega (arith, div-one (value d)) in
    (q_is_c ∙ sym (div-eq_of_lt-le (value divisor) (omega arith) (omega arith)), vq)
div_loop-value (suc i) c d divisor q r hn vd vv vq vr eq ed lt =
    elim (Bool-cases (is_at_least (cmp r1 divisor))) [
      | inl ge ↦
          let le : value divisor ≤ value r1 =
            leb→le _ _ (sym (cmp_at_least r1 divisor down.1 vv) ∙ ge) in
          let less : value (sub r1 divisor) ≡ value r1 - value divisor =
            sub-value r1 divisor down.1 vv le in
          rw (ge, div_loop)
            (div_loop-value i (2 * c + 1) d divisor (set_bit q i) (sub r1 divisor) (omega arith) vd
              vv set.1 (sub-IsValid r1 divisor down.1 vv) (omega (arith, set.0, pow_suc))
              (omega (arith, next, ed, less, le, down.0))
              (omega (arith, lt, less, le, down.0, small_bit)))
      | inr lt' ↦
          let less : value r1 < value divisor =
            leb_false→lt _ _ (sym (cmp_at_least r1 divisor down.1 vv) ∙ lt') in
          rw (lt', div_loop)
            (div_loop-value i (2 * c) d divisor q r1 (omega arith) vd vv vq down.1
              (omega (arith, eq, pow_suc)) (omega (arith, next, ed, down.0)) less)
    ]
  where
    pow_suc : c * 2 ^ suc i ≡ 2 * (c * 2 ^ i)
    pow_suc = ap (λ (t : ℕ). c * t) (two-pow-succ i) ∙ omega arith

    small_bit : bit d i < 2
    small_bit = omega (arith, bit-value d i vd (omega arith))

    next : value d / 2 ^ i ≡ 2 * (value d / 2 ^ suc i) + bit d i
    next = omega (arith, halve (value d) i, bit-value d i vd (omega arith))

    bound : value d / 2 ^ i < 2 ^ 128
    bound = omega (arith, div-le_self (value d) (2 ^ i))

    r1 : Difficulty
    r1 = bring_down r (bit d i)

    down : (value r1 ≡ 2 * value r + bit d i) × IsValid r1
    down = bring_down-value r (bit d i) vr (omega (arith, next, bound, ed)) small_bit

    set : (value (set_bit q i) ≡ value q + 2 ^ i) × IsValid (set_bit q i)
    set = set_bit-value q i c vq (omega arith) eq

div_lem :
    (d divisor : Difficulty)
    → IsValid d
    → IsValid divisor
    → (value (div d divisor) ≡ value d / value divisor) × IsValid (div d divisor)
unfolding div
div_lem d divisor vd vv = elim (Bool-cases (is_zero divisor)) [
  | inl z ↦
      let e : value divisor ≡ 0 = zero_value z in
      rw (z, e) (sym (div-zero (value d)), (omega arith, omega arith))
  | inr nz ↦ elim (Bool-cases (divisor.hi == 0)) [
    | inl short ↦
        let pos : 0 < divisor.lo = positive nz short in
        let e : value divisor ≡ divisor.lo = ground arith in
        rw (nz, short, e) (div64-value d divisor.lo pos, div64-IsValid d divisor.lo vd pos)
    | inr long ↦
        let pos : 0 < value divisor = ground arith in
        rw (nz, long)
          (div_loop-value 128 0 d divisor zero_difficulty zero_difficulty (omega arith) vd vv
            (omega arith, omega arith) (omega arith, omega arith) (omega arith)
            (div-eq_of_lt (value-lt d vd) ∙ omega arith) pos)
  ]
]
  where
    zero_value : is_zero divisor ≡ true → value divisor ≡ 0
    zero_value z = ground arith

    positive : is_zero divisor ≡ false → (divisor.hi == 0) ≡ true → 0 < divisor.lo
    positive nz short = ground arith

-- Div of two valid difficulties is division of 128-bit numbers, 0 where the divisor is 0.
pub div-value :
    (d divisor : Difficulty)
    → IsValid d
    → IsValid divisor
    → value (div d divisor) ≡ value d / value divisor
div-value d divisor vd vv = (div_lem d divisor vd vv).0

pub div-IsValid : (d divisor : Difficulty) → IsValid d → IsValid divisor → IsValid (div d divisor)
div-IsValid d divisor vd vv = (div_lem d divisor vd vv).1
