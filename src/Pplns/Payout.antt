-- ===== src/Pplns/Payout.antt =====
-- The payouts of `EstimatedPayoutOrdered` (p2pool/pplns.go): the rewards are handed out in full, each in proportion to the miner's weight.
use p2pool_salvium_observer.Prelude.{
  ℕ, zero, suc, ◌+◌, ◌*◌, ◌/◌, ◌^◌, ◌≤◌, ◌<◌, ◌≡◌, refl, sym, ap, ◌∙◌, true, false, List, [], ◌∷◌,
  arith, ltb, map, inl, inr, Bool-cases, ltb_false→le, ltb→lt, All, length, length-map, take,
}
use p2pool_salvium_observer.Word.{sub64, IsU64}
use p2pool_salvium_observer.Difficulty.{Difficulty, zero_difficulty, is_zero, add, mul_64, div}
use p2pool_salvium_observer.Difficulty.Value.{
  value, IsValid, value-lt, add-IsValid, add-value, mul_64-IsValid, mul_64-value,
}
use p2pool_salvium_observer.Difficulty.Division.{div-value, div-IsValid}
use p2pool_salvium_observer.Share.{Address}
use p2pool_salvium_observer.Sorting.{exchange_sort}
use p2pool_salvium_observer.Sorting.Order.{
  sum_by, sum_by-exchange_sort, All-exchange_sort, length-exchange_sort,
}
use p2pool_salvium_observer.Pplns.{
  Weights, MinerWeight, PplnsResult, heavier, miner_of, heaviest_miners, payout_loop,
  estimated_payout_ordered,
}
use p2pool_salvium_observer.Pplns.Weight.{sum_weights, AreValid}
use native.Mathlib.Nat.{
  mul-le-mul, div-add-mod, mod-lt, mul-div_cancel_left, div-eq_of_lt, div-le_of_le-mul,
}

abbrev pub weight_of : MinerWeight → ℕ
weight_of mw = value mw.weight

abbrev pub HasWeight : MinerWeight → Type 0
HasWeight mw = IsValid mw.weight

abbrev pub paid : Address × ℕ → ℕ
paid e = e.1

less_step : (p q : ℕ) → ltb p q ≡ true → p + 1 ≤ q
less_step p q h = omega (arith, ltb→lt p q h)

-- Quotients of a running sum: they grow, and by no more and no less than the part added, rounded.
floors :
    (t q r p s a b : ℕ)
    → t * q + r ≡ a
    → r < t
    → t * p + s ≡ a + b
    → s < t
    → (q ≤ p) × (t * p < t * q + b + t) × (t * q + b < t * p + t)
floors t q r p s a b eq lr ep ls = (
  elim (Bool-cases (ltb p q)) [
    | inl less ↦
        let k : t * (p + 1) ≤ t * q =
          mul-le-mul {n₁ = t} {m₁ = p + 1} {n₂ = t} {m₂ = q} (omega arith) (less_step p q less) in
        omega arith
    | inr not_less ↦ ltb_false→le p q not_less
  ],
  omega arith,
  omega arith,
)

step_between :
    (t q p d b : ℕ)
    → p ≡ q + d
    → t * p < t * q + b + t
    → t * q + b < t * p + t
    → (t * d < b + t) × (b < t * d + t)
step_between t q p d b e above below =
    let f : t * p ≡ t * q + t * d = ap (λ x. t * x) e ∙ omega arith in
    (omega (arith, f, above), omega (arith, f, below))

-- In proportion: paid out within one unit of `weight * reward / total`, above or below.
abbrev pub Fair : ℕ → ℕ → List MinerWeight → List (Address × ℕ) → Type 0
Fair total reward [] [] = Unit {0}
Fair total reward [] (e ∷ es) = ⊥
Fair total reward (mw ∷ ms) [] = ⊥
Fair total reward (mw ∷ ms) ((a, p) ∷ es) =
    (a ≡ mw.address)
    × (total * p < weight_of mw * reward + total)
    × (weight_of mw * reward < total * p + total)
    × Fair total reward ms es

module _ (total : Difficulty) (reward : ℕ) (valid : IsValid total) (positive : 0 < value total)
    (small : IsU64 reward) (fits : value total * reward < 2 ^ 128) where
  quotient-small : (x : ℕ) → x ≤ value total → x * reward / value total ≤ reward
  quotient-small x le =
      div-le_of_le-mul (value total)
        (mul-le-mul {n₁ = x} {m₁ = reward} {n₂ = value total} {m₂ = reward} le (omega arith))

  next_low :
      (c : Difficulty)
      → IsValid c
      → value c ≤ value total
      → (div (mul_64 c reward) total).lo ≡ value c * reward / value total
  next_low c vc le =
      let k : value c * reward ≤ value total * reward =
        mul-le-mul {n₁ = value c} {m₁ = reward} {n₂ = value total} {m₂ = reward} le (omega arith) in
      let e : value (mul_64 c reward) ≡ value c * reward =
        mul_64-value c reward vc small ∙ omega arith in
      let d : value (div (mul_64 c reward) total) ≡ value c * reward / value total =
        div-value (mul_64 c reward) total (mul_64-IsValid c reward) valid
        ∙ ap (λ x. x / value total) e in
      let b = quotient-small (value c) le in
      let v = div-IsValid (mul_64 c reward) total (mul_64-IsValid c reward) valid in
      omega (arith, d, b, v.0, v.1)

  -- Every miner is paid in proportion and the sum is the quotient of all the weights so far.
  payout_loop-Fair :
      (c : Difficulty) (ms : List MinerWeight)
      → IsValid c
      → All HasWeight ms
      → value c + sum_by weight_of ms ≤ value total
      → let es = payout_loop total reward c (value c * reward / value total) ms in
        Fair (value total) reward ms es
        × (sum_by paid es + value c * reward / value total
            ≡ (value c + sum_by weight_of ms) * reward / value total)
  unfolding payout_loop
  payout_loop-Fair c [] vc hs le =
      let e : value c + 0 ≡ value c = omega arith in (tt, rw e (omega arith))
  payout_loop-Fair c (mw ∷ ms) vc (h, hs) le =
      let t = value total in
      let c' = add c mw.weight in
      let e : value c' ≡ value c + weight_of mw =
        add-value c mw.weight vc h ∙ omega (arith, value-lt total valid, le) in
      let low = next_low c' (add-IsValid c mw.weight vc h) (omega (arith, e, le)) in
      let q = value c * reward / t in
      let p = value c' * reward / t in
      let (grows, above, below) =
        floors t q _ p _ (value c * reward) (weight_of mw * reward)
          (div-add-mod (value c * reward) t) (mod-lt (value c * reward) positive)
          (div-add-mod (value c' * reward) t ∙ rw e (omega arith))
          (mod-lt (value c' * reward) positive) in
      let p-small = quotient-small (value c') (omega (arith, e, le)) in
      let d : p ≡ q + sub64 p q = omega (arith, grows, p-small, small) in
      let (a, b) = step_between t q p (sub64 p q) (weight_of mw * reward) d above below in
      let (fair, sums) =
        payout_loop-Fair c' ms (add-IsValid c mw.weight vc h) hs (omega (arith, e, le)) in
      let all : value c + (weight_of mw + sum_by weight_of ms) ≡ value c' + sum_by weight_of ms =
        omega (arith, e) in
      rw (low, all) ((refl, a, b, fair), omega (arith, sums, d))

sum_weights-map : (m : Weights) → sum_by weight_of (map miner_of m) ≡ sum_weights m
sum_weights-map [] = refl
sum_weights-map ((a, mw) ∷ m) = ap (λ x. value mw.weight + x) (sum_weights-map m)

pub All-miners : (m : Weights) → AreValid m → All HasWeight (map miner_of m)
All-miners [] v = tt
All-miners ((a, mw) ∷ m) v = (v.0, All-miners m v.1)

length-take_all : {A : Type 0} (n : ℕ) (xs : List A) → n ≡ length xs → take n xs ≡ xs
length-take_all zero [] e = refl
length-take_all zero (x ∷ xs) e = absurd (omega (arith, e))
length-take_all (suc n) [] e = refl
length-take_all (suc n) (x ∷ xs) e = ap (λ ys. x ∷ ys) (length-take_all n xs (omega (arith, e)))

-- All the miners are asked for, so that none is cut off.
pub heaviest_miners-all :
    (r : PplnsResult)
    → heaviest_miners r (length r.shares) ≡ exchange_sort heavier (map miner_of r.shares)
unfolding heaviest_miners
heaviest_miners-all r =
    let sorted = exchange_sort heavier (map miner_of r.shares) in
    let l : length sorted ≡ length r.shares =
      length-exchange_sort heavier (map miner_of r.shares) ∙ length-map miner_of r.shares in
    elim (Bool-cases (ltb (length sorted) (length r.shares))) [
      | inl less ↦ rw less (length-take_all (length sorted) sorted refl)
      | inr same ↦ rw same (length-take_all (length r.shares) sorted (sym l))
    ]

not_zero : (d : Difficulty) → 0 < value d → is_zero d ≡ false
unfolding is_zero
not_zero d h = ground arith

-- With weights that add up to the total, and a product of total and reward that fits 128 bits,
-- every miner is paid its part of the reward to within one unit and the payouts add up to the
-- reward.
pub estimated_payout_ordered_lem :
    (r : PplnsResult) (reward : ℕ)
    → AreValid r.shares
    → IsValid r.total_weight
    → 0 < value r.total_weight
    → value r.total_weight ≡ sum_weights r.shares
    → IsU64 reward
    → value r.total_weight * reward < 2 ^ 128
    → (sum_by paid (estimated_payout_ordered r reward) ≡ reward)
      × Fair
          (value r.total_weight)
          reward
          (heaviest_miners r (length r.shares))
          (estimated_payout_ordered r reward)
unfolding estimated_payout_ordered
estimated_payout_ordered_lem r reward v vt positive all small fits =
    let t = value r.total_weight in
    let ms = exchange_sort heavier (map miner_of r.shares) in
    let s : sum_by weight_of ms ≡ t =
      sum_by-exchange_sort heavier weight_of (map miner_of r.shares)
      ∙ sum_weights-map r.shares
      ∙ sym all in
    let (fair, sums) =
      payout_loop-Fair r.total_weight reward vt positive small fits zero_difficulty ms
        (omega arith, omega arith)
        (All-exchange_sort heavier HasWeight (map miner_of r.shares) (All-miners r.shares v))
        (omega (arith, s)) in
    let z : value zero_difficulty * reward / t ≡ 0 = div-eq_of_lt (omega (arith, positive)) in
    let total : (value zero_difficulty + sum_by weight_of ms) * reward / t ≡ reward =
      ap (λ x. x * reward / t) (omega (arith, s)) ∙ mul-div_cancel_left reward positive in
    rw (not_zero r.total_weight positive, heaviest_miners-all r)
      (omega (arith, (rw z at sums), z, total), (rw z at fair))
