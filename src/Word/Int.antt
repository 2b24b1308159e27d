-- ===== src/Word/Int.antt =====
-- Go's int on a 64-bit machine. Every result is brought back into range by `wrap`.
use p2pool_salvium_observer.Prelude.{
  ℕ, suc, ◌+◌, ◌-◌, ◌*◌, ◌%◌, ◌^◌, ◌<◌, ◌≡◌, Bool, arith, ltb, leb, if◌then◌else◌,
}

-- `negsuc n` is -(n + 1).
pub data ℤ : Type 0 where
  pos : ℕ → ℤ
  negsuc : ℕ → ℤ

abbrev pub pos_part : ℤ → ℕ
pos_part (pos n) = n
pos_part (negsuc n) = 0

abbrev pub neg_part : ℤ → ℕ
neg_part (pos n) = 0
neg_part (negsuc n) = suc n

-- a - b, as an integer.
abbrev pub sub_ℕ : ℕ → ℕ → ℤ
sub_ℕ a b = if leb b a then pos (a - b) else negsuc (b - a - 1)

abbrev pub ltb_ℤ : ℤ → ℤ → Bool
ltb_ℤ a b = ltb (pos_part a + neg_part b) (pos_part b + neg_part a)

-- The conversion `int(v)` of a uint64: the same 64 bits read with a sign.
abbrev pub int_of_u64 : ℕ → ℤ
int_of_u64 v = if ltb v (2 ^ 63) then pos v else negsuc (2 ^ 64 - v - 1)

-- The 64 bits of an integer.
abbrev pub bits_of_int : ℤ → ℕ
bits_of_int (pos n) = n % 2 ^ 64
bits_of_int (negsuc n) = 2 ^ 64 - n % 2 ^ 64 - 1

-- `a + b` and `a * k` on int, for a constant `k`.
abbrev pub add_int : ℤ → ℤ → ℤ
add_int a b = int_of_u64 ((bits_of_int a + bits_of_int b) % 2 ^ 64)

abbrev pub mul_int : ℤ → ℕ → ℤ
mul_int a k = int_of_u64 (bits_of_int a * k % 2 ^ 64)

-- `a - b` and `-a` on int.
abbrev pub sub_int : ℤ → ℤ → ℤ
sub_int a b = int_of_u64 ((bits_of_int a + 2 ^ 64 - bits_of_int b) % 2 ^ 64)

abbrev pub neg_int : ℤ → ℤ
neg_int a = sub_int (pos 0) a

-- In range nothing wraps.
pub add_int-pos : (a b : ℕ) → a + b < 2 ^ 63 → add_int (pos a) (pos b) ≡ pos (a + b)
add_int-pos a b h = ground arith

pub int_of_u64-small : (v : ℕ) → v < 2 ^ 63 → int_of_u64 v ≡ pos v
int_of_u64-small v h = ground arith
