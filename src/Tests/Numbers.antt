-- ===== src/Tests/Numbers.antt =====
-- The 128-bit difficulties (p2pool/types.go) on concrete numbers.
use p2pool_salvium_observer.Prelude.{◌/◌, ◌≡◌, arith}
use p2pool_salvium_observer.Difficulty.{Difficulty, div}
use p2pool_salvium_observer.Difficulty.Value.{value}
use p2pool_salvium_observer.Difficulty.Division.{div-value}

abbrev big : Difficulty
big = record { lo = 18446744073709551615; hi = 5 }

abbrev small : Difficulty
small = record { lo = 3; hi = 0 }

abbrev divisor : Difficulty
divisor = record { lo = 1; hi = 1 }

div-value_example : value (div big divisor) ≡ value big / value divisor
div-value_example = div-value big divisor (omega arith, omega arith) (omega arith, omega arith)
