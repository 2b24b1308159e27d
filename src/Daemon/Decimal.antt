-- ===== src/Daemon/Decimal.antt =====
-- Decimal numbers as `%d` prints and reads them.
use p2pool_salvium_observer.Prelude.{
  ℕ, zero, suc, ◌+◌, ◌-◌, ◌*◌, ◌/◌, ◌%◌, ◌^◌, ◌<◌, ◌≡◌, refl, ap, ◌∙◌, Bool, true, false, ◌&&◌,
  List, [], ◌∷◌, ◌++◌, arith, leb, ◌==◌, if◌then◌else◌, Bool-cases, inl, inr, ==_iff,
}
use native.Mathlib.Nat.{pow-suc}
use p2pool_salvium_observer.Word.Int.{ℤ, pos, negsuc}

abbrev pub is_digit : ℕ → Bool
is_digit c = leb 48 c && leb c 57

-- The digits of `n` in front of `out`, with as many rounds as the fuel allows.
unfoldable pub print_digits : ℕ → ℕ → List ℕ → List ℕ
print_digits zero n out = out
print_digits (suc fuel) n out =
    let more = print_digits fuel (n / 10) ((48 + n % 10) ∷ out) in
    if n / 10 == 0 then (48 + n % 10) ∷ out else more

-- A uint64 has 20 digits at most.
unfoldable pub print_uint : ℕ → List ℕ
print_uint n = print_digits 20 n []

unfoldable pub print_int : ℤ → List ℕ
print_int (pos n) = print_uint n
print_int (negsuc n) = 45 ∷ print_uint (n + 1)

-- The number that the leading digits spell behind `v`, and the rest.
unfoldable pub scan_digits : List ℕ → ℕ → ℕ × List ℕ
scan_digits [] v = (v, [])
scan_digits (c ∷ s) v =
    let more = scan_digits s (v * 10 + (c - 48)) in if is_digit c then more else (v, c ∷ s)

digit_ok : (n : ℕ) → is_digit (48 + n % 10) ≡ true
digit_ok n = ground arith

print_digits-append :
    (fuel n : ℕ) (out rest : List ℕ)
    → print_digits fuel n out ++ rest ≡ print_digits fuel n (out ++ rest)
unfolding print_digits
print_digits-append zero n out rest = refl
print_digits-append (suc fuel) n out rest = elim (Bool-cases (n / 10 == 0)) [
  | inl last ↦ rw last refl
  | inr more ↦ rw more (print_digits-append fuel (n / 10) ((48 + n % 10) ∷ out) rest)
]

tenth-lt : (p n : ℕ) → n < p * 10 → n / 10 < p
tenth-lt p n h = omega arith

scan_digit :
    (n v : ℕ) (out : List ℕ)
    → scan_digits ((48 + n % 10) ∷ out) v ≡ scan_digits out (v * 10 + n % 10)
unfolding scan_digits
scan_digit n v out = rw (digit_ok n) (ap (scan_digits out) (omega arith))

-- Reading the digits of a number that the fuel is enough for.
pub scan-print_digits :
    (fuel n : ℕ) (out : List ℕ)
    → n < 10 ^ suc fuel
    → scan_digits (print_digits (suc fuel) n out) 0 ≡ scan_digits out n
unfolding print_digits
scan-print_digits zero n out h =
    let small : n / 10 ≡ 0 = omega arith in
    rw ((==_iff _ _).1 small) (scan_digit n 0 out ∙ ap (scan_digits out) (omega (arith, small)))
scan-print_digits (suc fuel) n out h = elim (Bool-cases (n / 10 == 0)) [
  | inl last ↦
      let small : n / 10 ≡ 0 = (==_iff _ _).0 last in
      rw last (scan_digit n 0 out ∙ ap (scan_digits out) (omega (arith, small)))
  | inr more ↦ rw more (
      scan-print_digits fuel (n / 10) ((48 + n % 10) ∷ out)
        (tenth-lt (10 ^ suc fuel) n (rw (pow-suc 10 (suc fuel)) at h))
      ∙ scan_digit n (n / 10) out
      ∙ ap (scan_digits out) (omega arith))
]

abbrev pub starts_digit : List ℕ → Bool
starts_digit [] = false
starts_digit (c ∷ s) = is_digit c

starts-print_digits :
    (fuel n : ℕ) (out : List ℕ)
    → starts_digit out ≡ true
    → starts_digit (print_digits fuel n out) ≡ true
unfolding print_digits
starts-print_digits zero n out h = h
starts-print_digits (suc fuel) n out h = elim (Bool-cases (n / 10 == 0)) [
  | inl last ↦ rw last (digit_ok n)
  | inr more ↦ rw more (starts-print_digits fuel (n / 10) ((48 + n % 10) ∷ out) (digit_ok n))
]

first : (n : ℕ) (rest : List ℕ) → starts_digit (print_digits 20 n rest) ≡ true
unfolding print_digits
first n rest = elim (Bool-cases (n / 10 == 0)) [
  | inl last ↦ rw last (digit_ok n)
  | inr more ↦ rw more (starts-print_digits 19 (n / 10) ((48 + n % 10) ∷ rest) (digit_ok n))
]

-- A uint64 in front of a text: it begins with a digit and is read back, up to the text.
pub print_uint_lem :
    (n : ℕ) (rest : List ℕ)
    → n < 2 ^ 64
    → (starts_digit (print_uint n ++ rest) ≡ true)
      × (scan_digits (print_uint n ++ rest) 0 ≡ scan_digits rest n)
unfolding print_uint
print_uint_lem n rest h =
    let whole = print_digits-append 20 n [] rest in
    (
      ap starts_digit whole ∙ first n rest,
      ap (λ s. scan_digits s 0) whole ∙ scan-print_digits 19 n rest (omega arith),
    )
