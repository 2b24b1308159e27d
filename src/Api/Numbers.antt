-- ===== src/Api/Numbers.antt =====
-- `strconv.ParseUint(s, 10, 64)`, `strconv.ParseInt(s, 10, 64)` and `strconv.Atoi`, through which
-- cmd/api/main.go reads the numbers that Redis and the requests give it.
use p2pool_salvium_observer.Prelude.{
  ℕ, zero, suc, ◌^◌, ◌<◌, ◌≡◌, refl, ◌∙◌, true, false, Option, none, some, [], ◌∷◌, arith, ltb, leb,
  ◌==◌, if◌then◌else◌, lt→ltb, ltb→lt, Bool-cases, inl, inr,
}
use mathlib.Core.List.{append-nil}
use p2pool_salvium_observer.Word.Int.{ℤ, pos, negsuc}
use p2pool_salvium_observer.Daemon.{Text}
use p2pool_salvium_observer.Daemon.Decimal.{scan_digits, print_uint, print_uint_lem, starts_digit}

-- The digits must reach the end and the number must fit.
abbrev pub fits : ℕ × Text → Option ℕ
fits (n, []) = if ltb n (2 ^ 64) then some n else none
fits (n, c ∷ s) = none

unfoldable pub parse_uint : Text → Option ℕ
parse_uint [] = none
parse_uint (c ∷ s) = fits (scan_digits (c ∷ s) 0)

abbrev pub positive : Option ℕ → Option ℤ
positive none = none
positive (some n) = if ltb n (2 ^ 63) then some (pos n) else none

abbrev pub negate : ℕ → ℤ
negate zero = pos 0
negate (suc n) = negsuc n

abbrev pub negative : Option ℕ → Option ℤ
negative none = none
negative (some n) = if leb n (2 ^ 63) then some (negate n) else none

unfoldable pub parse_int : Text → Option ℤ
parse_int [] = none
parse_int (c ∷ s) =
    if c == b'-'
    then negative (parse_uint s)
    else if c == b'+'
    then positive (parse_uint s)
    else positive (parse_uint (c ∷ s))

parse-scanned :
    (t : Text) (n : ℕ)
    → starts_digit t ≡ true
    → scan_digits t 0 ≡ (n, [])
    → n < 2 ^ 64
    → parse_uint t ≡ some n
unfolding parse_uint
parse-scanned [] n starts e h = absurd (ground arith)
parse-scanned (c ∷ s) n starts e h = rw (e, lt→ltb n (2 ^ 64) h) refl

-- What `%d` prints of a uint64 is parsed back to it.
pub parse_uint-print_uint : (n : ℕ) → n < 2 ^ 64 → parse_uint (print_uint n) ≡ some n
unfolding scan_digits
parse_uint-print_uint n h =
    let (starts, e) = print_uint_lem n [] h in
    parse-scanned (print_uint n) n (rw (append-nil (print_uint n)) at starts)
      ((rw (append-nil (print_uint n)) at e) ∙ scanned n) h
  where
    scanned : (v : ℕ) → scan_digits [] v ≡ (v, [])
    scanned v = refl

fits-lt : (r : ℕ × Text) (n : ℕ) → fits r ≡ some n → n < 2 ^ 64
fits-lt (m, []) n e = elim (Bool-cases (ltb m (2 ^ 64))) [
  | inl small ↦ let same : m ≡ n = cc (rw small at e) in rw (← same) (ltb→lt m (2 ^ 64) small)
  | inr large ↦ absurd (ground (arith, e, large))
]
fits-lt (m, c ∷ t) n e = absurd (ground (arith, e))

-- A parsed number fits in 64 bits.
pub parse_uint-lt : (t : Text) (n : ℕ) → parse_uint t ≡ some n → n < 2 ^ 64
unfolding parse_uint
parse_uint-lt [] n e = absurd (ground (arith, e))
parse_uint-lt (c ∷ t) n e = fits-lt (scan_digits (c ∷ t) 0) n e

pub print_uint-starts_digit : (n : ℕ) → n < 2 ^ 63 → starts_digit (print_uint n) ≡ true
print_uint-starts_digit n h =
    rw (append-nil (print_uint n)) at (print_uint_lem n [] (omega (arith, h))).0

unsigned :
    (t : Text) (n : ℕ)
    → starts_digit t ≡ true
    → parse_uint t ≡ some n
    → n < 2 ^ 63
    → parse_int t ≡ some (pos n)
unfolding parse_int
unsigned [] n starts e h = absurd (ground arith)
unsigned (c ∷ t) n starts e h =
    let minus : (c == b'-') ≡ false = ground arith in
    let plus : (c == b'+') ≡ false = ground arith in rw (minus, plus, e, lt→ltb n (2 ^ 63) h) refl

pub parse_int-print_uint : (n : ℕ) → n < 2 ^ 63 → parse_int (print_uint n) ≡ some (pos n)
parse_int-print_uint n h =
    unsigned (print_uint n) n (print_uint-starts_digit n h)
      (parse_uint-print_uint n (omega (arith, h))) h
