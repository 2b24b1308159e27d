-- ===== src/Daemon/Stats/Effort.antt =====
-- The hashes of a round by `storeEffort`.
use mathlib.Core.List.{append-nil}
use p2pool_salvium_observer.Prelude.{
  ℕ, ◌-◌, ◌<◌, ◌^◌, ◌≡◌, refl, ap, ◌∙◌, true, [], ◌∷◌, arith, ltb, if◌then◌else◌, lt→ltb,
}
use p2pool_salvium_observer.Word.{sub64}
use p2pool_salvium_observer.Word.Int.{ℤ}
use p2pool_salvium_observer.Share.{Share}
use p2pool_salvium_observer.Daemon.{Text, FoundBlock}
use p2pool_salvium_observer.Daemon.Decimal.{print_uint, starts_digit, scan_digits, print_uint_lem}
use p2pool_salvium_observer.Daemon.Entries.RoundTrip.{skip-digit}
use p2pool_salvium_observer.Daemon.Stats.{scan_or_zero, round_hashes}

scan-print : (n : ℕ) → n < 2 ^ 64 → scan_or_zero (print_uint n) ≡ n
unfolding scan_or_zero scan_digits
scan-print n small =
    let whole = append-nil (print_uint n) in
    let (starts, scanned) = print_uint_lem n [] small in
    let starts' : starts_digit (print_uint n) ≡ true = rw whole at starts in
    let scanned' : scan_digits (print_uint n) 0 ≡ (n, []) = rw whole at scanned in
    rw (skip-digit (print_uint n) starts', scanned', starts', lt→ltb n (2 ^ 64) small) refl

-- The total that the entry gives.
sub64-monus : (a b : ℕ) → a < 2 ^ 64 → (if ltb b a then sub64 a b else 0) ≡ a - b
sub64-monus a b small = ground arith

round_hashes-printed :
    (tip : Share) (hashrate : Text) (now : ℤ) (fb : FoundBlock) (text : Text)
    → fb.total_hashes ≡ text
    → starts_digit text ≡ true
    → round_hashes tip hashrate now fb ≡ (
        if ltb (scan_or_zero text) tip.cumulative_difficulty.lo
        then sub64 tip.cumulative_difficulty.lo (scan_or_zero text)
        else 0)
unfolding round_hashes
round_hashes-printed tip hashrate now fb [] same starts = absurd (ground arith)
round_hashes-printed tip hashrate now fb (c ∷ s) same starts =
    rw (round_hashes, same)
      (ap
        (λ t.
          if ltb (scan_or_zero t) tip.cumulative_difficulty.lo
          then sub64 tip.cumulative_difficulty.lo (scan_or_zero t)
          else 0)
        same)

-- Where the last found block has a printed total below 2^64, the hashes of the round are the low
-- half of the tip's cumulative difficulty less that total, and none where the total is greater.
pub round_hashes-total :
    (tip : Share) (hashrate : Text) (now : ℤ) (fb : FoundBlock) (total : ℕ)
    → tip.cumulative_difficulty.lo < 2 ^ 64
    → total < 2 ^ 64
    → fb.total_hashes ≡ print_uint total
    → round_hashes tip hashrate now fb ≡ tip.cumulative_difficulty.lo - total
round_hashes-total tip hashrate now fb total lo small printed =
    let starts : starts_digit (print_uint total) ≡ true =
      rw (append-nil (print_uint total)) at (print_uint_lem total [] small).0 in
    round_hashes-printed tip hashrate now fb (print_uint total) printed starts
    ∙ rw (scan-print total small) (sub64-monus tip.cumulative_difficulty.lo total lo)
