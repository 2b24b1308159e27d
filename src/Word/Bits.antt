-- ===== src/Word/Bits.antt =====
-- `&` and `|` on numbers: masks of low bits, and the join of two disjoint runs of bits.
use Prim.Native.Nat.{max, min, digits, bit_and, bit_or, bit_and-bitwise, bit_or-bitwise}
use p2pool_salvium_observer.Prelude.{
  ℕ, zero, suc, ◌+◌, ◌*◌, ◌/◌, ◌%◌, ◌^◌, ◌≤◌, ◌<◌, ◌≡◌, refl, sym, ap, ◌∙◌, arith, Bool, true, ◌&&◌,
  ◌==◌, ==_iff,
}
use native.Mathlib.Nat.{
  two-pow-succ, mul-add, one-le-pow, div-add-mod, add-mul-mod_self_left, mod-eq_of_lt, mod-lt,
}

-- The digits of a result, for any operation on two digits: the count of rounds does not matter once
-- it reaches the first number, and one round takes the lowest digit off.
module _ (rest : ℕ → ℕ) (op : ℕ → ℕ → ℕ) where
  rounds_enough : (x y k l : ℕ) → x ≤ k → x ≤ l → digits rest op k x y ≡ digits rest op l x y
  rounds_enough zero y zero zero hk hl = refl
  rounds_enough zero y zero (suc l) hk hl = refl
  rounds_enough zero y (suc k) zero hk hl = refl
  rounds_enough zero y (suc k) (suc l) hk hl = refl
  rounds_enough (suc x) y zero l hk hl = absurd (omega arith)
  rounds_enough (suc x) y (suc k) zero hk hl = absurd (omega arith)
  rounds_enough (suc x) y (suc k) (suc l) hk hl =
      ap (λ t. t * 2 + op (suc x % 2) (y % 2))
        (rounds_enough (suc x / 2) (y / 2) k l (omega arith) (omega arith))

  lowest_digit :
      (x y : ℕ)
      → (x ≡ 0 → rest y ≡ rest (y / 2) * 2 + op 0 (y % 2))
      → digits rest op x x y ≡ digits rest op (x / 2) (x / 2) (y / 2) * 2 + op (x % 2) (y % 2)
  lowest_digit zero y h = h refl
  lowest_digit (suc x) y h =
      ap (λ t. t * 2 + op (suc x % 2) (y % 2))
        (rounds_enough (suc x / 2) (y / 2) x (suc x / 2) (omega arith) (omega arith))

pub zero-bit_or : (y : ℕ) → bit_or 0 y ≡ y
zero-bit_or y = bit_or-bitwise 0 y

bit_and_step : (x y : ℕ) → bit_and x y ≡ bit_and (x / 2) (y / 2) * 2 + min (x % 2) (y % 2)
bit_and_step x y =
    bit_and-bitwise x y
    ∙ lowest_digit (λ _. zero) min x y (λ _. omega arith)
    ∙ ap (λ t. t * 2 + min (x % 2) (y % 2)) (sym (bit_and-bitwise (x / 2) (y / 2)))

bit_or_step : (x y : ℕ) → bit_or x y ≡ bit_or (x / 2) (y / 2) * 2 + max (x % 2) (y % 2)
bit_or_step x y =
    bit_or-bitwise x y
    ∙ lowest_digit (λ k. k) max x y (λ _. omega arith)
    ∙ ap (λ t. t * 2 + max (x % 2) (y % 2)) (sym (bit_or-bitwise (x / 2) (y / 2)))

double_shift : (hi k : ℕ) → hi * 2 ^ suc k ≡ 2 * (hi * 2 ^ k)
double_shift hi k =
    ap (λ (t : ℕ). hi * t) (two-pow-succ k) ∙ omega (arith, mul-add hi (2 ^ k) (2 ^ k))

bit_and_odd : (a m : ℕ) → bit_and a (2 * m + 1) ≡ bit_and (a / 2) m * 2 + a % 2
bit_and_odd a m =
    let e : (2 * m + 1) / 2 ≡ m = omega arith in bit_and_step a (2 * m + 1) ∙ rw e (omega arith)

bit_or_double : (a b : ℕ) → bit_or a (2 * b) ≡ bit_or (a / 2) b * 2 + a % 2
bit_or_double a b =
    let e : 2 * b / 2 ≡ b = omega arith in bit_or_step a (2 * b) ∙ rw e (omega arith)

double-bit_or : (a b : ℕ) → bit_or (2 * a) b ≡ bit_or a (b / 2) * 2 + b % 2
double-bit_or a b =
    let e : 2 * a / 2 ≡ a = omega arith in bit_or_step (2 * a) b ∙ rw e (omega arith)

-- With zero on the right, by halving the left.
right_zero :
    (op : ℕ → ℕ → ℕ) (digit : ℕ → ℕ)
    → (op 0 0 ≡ 0)
    → ((x : ℕ) → op x 0 ≡ op (x / 2) 0 * 2 + digit (x % 2))
    → (n x : ℕ) → x ≤ n
    → (keeps : (y : ℕ) → digit (y % 2) ≡ 0) → op x 0 ≡ 0
right_zero op digit base step n zero h keeps = base
right_zero op digit base step zero (suc x) h keeps = absurd (omega (arith, h))
right_zero op digit base step (suc n) (suc x) h keeps = omega (
  arith,
  step (suc x),
  keeps (suc x),
  right_zero op digit base step n (suc x / 2) (omega (arith, h)) keeps,
)

pub bit_and-zero : (x : ℕ) → bit_and x 0 ≡ 0
bit_and-zero x =
    right_zero bit_and (λ d. min d 0) refl (λ y. bit_and_step y 0) x x (omega arith)
      (λ y. omega arith)

pub bit_or-zero : (x : ℕ) → bit_or x 0 ≡ x
bit_or-zero x = halving x x (omega arith)
  where
    halving : (n x : ℕ) → x ≤ n → bit_or x 0 ≡ x
    halving n zero h = refl
    halving zero (suc x) h = absurd (omega (arith, h))
    halving (suc n) (suc x) h =
        omega (halving n (suc x / 2) (omega (arith, h)), bit_or_step (suc x) 0, arith)

two_pow : (k : ℕ) → 2 ^ suc k ≡ 2 * 2 ^ k
two_pow k = omega (arith, two-pow-succ k)

mod_double : (a p : ℕ) → 0 < p → a % (2 * p) ≡ a / 2 % p * 2 + a % 2
mod_double a p h =
    let e : a ≡ a / 2 % p * 2 + a % 2 + 2 * p * (a / 2 / p) =
      omega (arith, div-add-mod (a / 2) p) in
    ap (λ (t : ℕ). t % (2 * p)) e
    ∙ add-mul-mod_self_left (a / 2 % p * 2 + a % 2) (2 * p) (a / 2 / p)
    ∙ mod-eq_of_lt (omega (arith, mod-lt (a / 2) h))

-- `a & (2^k - 1)` keeps the low k bits.
pub bit_and-mask : (k a m : ℕ) → m + 1 ≡ 2 ^ k → bit_and a m ≡ a % 2 ^ k
bit_and-mask zero a m e = let z : m ≡ 0 = omega arith in rw z (omega (arith, bit_and-zero a))
bit_and-mask (suc k) a m e =
    let z : m ≡ 2 * (m / 2) + 1 = omega (arith, two-pow-succ k, one-le-pow k 2) in
    rw z (
      rw (bit_and_odd, bit_and-mask k (a / 2) (m / 2) (omega (arith, two-pow-succ k)))
        (sym (rw (← two_pow k) at (mod_double a (2 ^ k) (one-le-pow k 2 (omega arith))))))

-- `lo | (hi << k)` is a sum if `lo` fits below bit k.
pub bit_or-shifted : (k lo hi : ℕ) → lo < 2 ^ k → bit_or lo (hi * 2 ^ k) ≡ lo + hi * 2 ^ k
bit_or-shifted zero lo hi h =
    let z : lo ≡ 0 = omega arith in rw z (omega (arith, zero-bit_or (hi * 1)))
bit_or-shifted (suc k) lo hi h = rw (double_shift hi k) (
    omega (
      arith,
      bit_or_double lo (hi * 2 ^ k),
      bit_or-shifted k (lo / 2) hi (omega (arith, two-pow-succ k)),
    ))

pub shifted-bit_or : (k lo hi : ℕ) → lo < 2 ^ k → bit_or (hi * 2 ^ k) lo ≡ hi * 2 ^ k + lo
shifted-bit_or zero lo hi h =
    let z : lo ≡ 0 = omega arith in rw z (omega (arith, bit_or-zero (hi * 1)))
shifted-bit_or (suc k) lo hi h = rw (double_shift hi k) (
    omega (
      arith,
      double-bit_or (hi * 2 ^ k) lo,
      shifted-bit_or k (lo / 2) hi (omega (arith, two-pow-succ k)),
    ))

-- `|` of two numbers below 2^k stays below it.
pub bit_or-lt : (k a b : ℕ) → a < 2 ^ k → b < 2 ^ k → bit_or a b < 2 ^ k
bit_or-lt zero a b ha hb = let z : a ≡ 0 = omega arith in rw z (omega (arith, zero-bit_or b))
bit_or-lt (suc k) a b ha hb = omega (
  arith,
  bit_or_step a b,
  two-pow-succ k,
  bit_or-lt k (a / 2) (b / 2) (omega (arith, two-pow-succ k)) (omega (arith, two-pow-succ k)),
)

-- A test on every number below a bound, run from the bound down.
passes : ℕ → (ℕ → Bool) → Bool
passes zero test = true
passes (suc n) test = passes n test && test n

passes_lem : (test : ℕ → Bool) (n x : ℕ) → x < n → passes n test ≡ true → test x ≡ true
unfolding passes
passes_lem test zero x below all = absurd (omega (arith, below))
passes_lem test (suc n) x below all = ground (arith, passes_lem test n x)

top_bit_table : passes 256 (λ b. bit_and b 0x80 == b / 128 * 128) ≡ true
unfolding passes
top_bit_table = refl

-- The continuation bit of a byte.
pub bit_and_top : (b : ℕ) → b < 256 → bit_and b 0x80 ≡ b / 128 * 128
bit_and_top b h = (==_iff _ _).0 (passes_lem _ 256 b h top_bit_table)
