-- ===== src/Difficulty.antt =====
-- `Difficulty` of p2pool/types.go: a 128-bit number in two uint64 halves, with the operations
-- written on the halves as the code writes them.
pub mod Value
pub mod Division
use Prim.Native.Nat.{bit_and, bit_or}
use p2pool_salvium_observer.Prelude.{
  ℕ, zero, suc, ◌+◌, ◌-◌, ◌*◌, ◌/◌, ◌%◌, ◌^◌, ◌<◌, ◌≡◌, Bool, true, false, ◌&&◌, arith, ltb, leb,
  ◌==◌, if◌then◌else◌,
}
use p2pool_salvium_observer.Word.{add64, sub64, mul64, shl64, shr64}
use mathlib.Core.Logic.{dite}
use native.Mathlib.Decide.{dec_lt}

pub record Difficulty : Type 0 where
  pub lo : ℕ
  pub hi : ℕ

-- The zero value of the Go type.
abbrev pub zero_difficulty : Difficulty
zero_difficulty = record { lo = 0; hi = 0 }

-- What `Cmp` returns: -1, 0 and 1.
pub data Sign : Type 0 where
  less same greater : Sign

unfoldable pub cmp : Difficulty → Difficulty → Sign
cmp d other =
    if ltb d.hi other.hi
    then Sign.less
    else if ltb other.hi d.hi
    then Sign.greater
    else if ltb d.lo other.lo
    then Sign.less
    else if ltb other.lo d.lo
    then Sign.greater
    else Sign.same

-- `a.Cmp(b) > 0` and `a.Cmp(b) >= 0`.
abbrev pub is_greater : Sign → Bool
is_greater Sign.greater = true
is_greater _ = false

abbrev pub is_at_least : Sign → Bool
is_at_least Sign.less = false
is_at_least _ = true

unfoldable pub uint64 : Difficulty → ℕ
uint64 d = d.lo

unfoldable pub difficulty_from_uint64 : ℕ → Difficulty
difficulty_from_uint64 v = record { lo = v; hi = 0 }

unfoldable pub is_zero : Difficulty → Bool
is_zero d = d.lo == 0 && d.hi == 0

unfoldable pub add : Difficulty → Difficulty → Difficulty
add d other =
    let lo = add64 d.lo other.lo in
    let hi = add64 d.hi other.hi in record { lo = lo; hi = if ltb lo d.lo then add64 hi 1 else hi }

unfoldable pub sub : Difficulty → Difficulty → Difficulty
sub d other =
    let lo = sub64 d.lo other.lo in
    let hi = sub64 d.hi other.hi in
    record { lo = lo; hi = if ltb d.lo other.lo then sub64 hi 1 else hi }

abbrev pub low32 : ℕ → ℕ
low32 x = bit_and x 0xFFFFFFFF

unfoldable pub mul_64 : Difficulty → ℕ → Difficulty
mul_64 d v =
    let lo_lo = mul64 (low32 d.lo) (low32 v) in
    let lo_hi = mul64 (shr64 d.lo 32) (low32 v) in
    let hi_lo = mul64 (low32 d.lo) (shr64 v 32) in
    let hi_hi = mul64 (shr64 d.lo 32) (shr64 v 32) in
    let mid = add64 (add64 (shr64 lo_lo 32) (low32 lo_hi)) (low32 hi_lo) in
    let hi =
      add64 (add64 (add64 (add64 (shr64 lo_hi 32) (shr64 hi_lo 32)) hi_hi) (shr64 mid 32))
        (mul64 d.hi v) in
    record { lo = bit_or (low32 lo_lo) (shl64 mid 32); hi = hi }

-- The quotient of `bits.Div64(hi, lo, y)` of Go's math/bits. It panics unless `hi < y`, so a call
-- takes the proof of that.
abbrev pub bits_div64 : (hi lo y : ℕ) → hi < y → ℕ
bits_div64 hi lo y fits = (hi * 2 ^ 64 + lo) / y

rem_fits : (hi v : ℕ) → 0 < v → (if leb v hi then hi % v else hi) < v
rem_fits hi v h = ground arith

unfoldable pub div64 : Difficulty → ℕ → Difficulty
unfolding rem_fits
div64 d v =
    dite (dec_lt 0 v)
      (λ h.
        let result_hi = if leb v d.hi then d.hi / v else 0 in
        let rem = if leb v d.hi then d.hi % v else d.hi in
        record { lo = bits_div64 rem d.lo v (rem_fits d.hi v h); hi = result_hi })
      (λ _. zero_difficulty)

-- Bit `i` of the dividend.
abbrev pub bit : Difficulty → ℕ → ℕ
bit d i = if leb 64 i then bit_and (shr64 d.hi (i - 64)) 1 else bit_and (shr64 d.lo i) 1

-- `remainder` shifted left by one, with the next bit of the dividend brought down.
abbrev pub bring_down : Difficulty → ℕ → Difficulty
bring_down r b = record { lo = bit_or (shl64 r.lo 1) b; hi = bit_or (shl64 r.hi 1) (shr64 r.lo 63) }

-- `quotient` with bit `i` set.
abbrev pub set_bit : Difficulty → ℕ → Difficulty
set_bit q i =
    if leb 64 i
    then record { lo = q.lo; hi = bit_or q.hi (shl64 1 (i - 64)) }
    else record { lo = bit_or q.lo (shl64 1 i); hi = q.hi }

-- The loop of `Div`, with `i + 1` rounds left: bits `i` down to 0 of the dividend are to come.
unfoldable pub div_loop : ℕ → Difficulty → Difficulty → Difficulty → Difficulty → Difficulty
div_loop zero d divisor quotient remainder = quotient
div_loop (suc i) d divisor quotient remainder =
    let r = bring_down remainder (bit d i) in
    let ge = is_at_least (cmp r divisor) in
    div_loop i d divisor (if ge then set_bit quotient i else quotient)
      (if ge then sub r divisor else r)

unfoldable pub div : Difficulty → Difficulty → Difficulty
unfolding is_zero
div d divisor =
    if is_zero divisor
    then zero_difficulty
    else if divisor.hi == 0
    then div64 d divisor.lo
    else div_loop 128 d divisor zero_difficulty zero_difficulty
