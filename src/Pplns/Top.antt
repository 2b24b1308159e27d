-- ===== src/Pplns/Top.antt =====
-- `TopMiners` (p2pool/pplns.go): the heaviest miners of a window, whatever the number asked for.
use mathlib.Core.List.{Perm}
use mathlib.Core.Path.{subst}
use p2pool_salvium_observer.Prelude.{
  ℕ, zero, suc, ◌≤◌, ◌<◌, ◌≡◌, ◌⊎◌, inl, inr, refl, sym, ap, ◌∙◌, List, [], ◌∷◌, ◌++◌, map, arith,
  length, length-map, take, drop, ltb, ltb→lt, ltb_false→le, Bool-cases,
}
use p2pool_salvium_observer.Word.Int.{ℤ, pos, negsuc}
use p2pool_salvium_observer.Outcome.{Result, ok, panic}
use p2pool_salvium_observer.Difficulty.Value.{cmp_greater}
use p2pool_salvium_observer.Sorting.{exchange_sort}
use p2pool_salvium_observer.Sorting.Order.{
  IsDescending, length-exchange_sort, perm-exchange_sort, exchange_sort-IsDescending,
}
use p2pool_salvium_observer.Pplns.{
  Weights, MinerWeight, PplnsResult, heavier, miner_of, heaviest_miners, top_miners,
}
use p2pool_salvium_observer.Pplns.Weight.{AreValid}
use p2pool_salvium_observer.Pplns.Payout.{weight_of, HasWeight, All-miners}

-- All the miners from the heaviest down, cut into those that are returned and the rest: as many are
-- returned as were asked for, or all.
abbrev pub AreHeaviest : Weights → ℕ → List MinerWeight → Type 0
AreHeaviest shares n top =
    (rest : List MinerWeight) × Perm (top ++ rest) (map miner_of shares)
    × IsDescending weight_of (top ++ rest)
    × (((n ≤ length shares) × (length top ≡ n)) ⊎ ((length shares < n) × (rest ≡ [])))

abbrev pub IsTop : Weights → ℤ → Result (List MinerWeight) → Type 0
IsTop shares (pos n) (ok top) = AreHeaviest shares n top
IsTop shares (negsuc n) panic = Unit {0}
IsTop shares _ _ = ⊥

module _ {A : Type 0} where
  take-drop : (n : ℕ) (xs : List A) → take n xs ++ drop n xs ≡ xs
  take-drop zero xs = refl
  take-drop (suc n) [] = refl
  take-drop (suc n) (x ∷ xs) = ap (λ ys. x ∷ ys) (take-drop n xs)

  length-take_le : (n : ℕ) (xs : List A) → n ≤ length xs → length (take n xs) ≡ n
  length-take_le zero xs le = refl
  length-take_le (suc n) [] le = absurd (omega arith)
  length-take_le (suc n) (x ∷ xs) le = ap suc (length-take_le n xs (omega arith))

  drop-length : (xs : List A) → drop (length xs) xs ≡ []
  drop-length [] = refl
  drop-length (x ∷ xs) = drop-length xs

heaviest_miners_lem :
    (r : PplnsResult) (n : ℕ) → AreValid r.shares → AreHeaviest r.shares n (heaviest_miners r n)
unfolding heaviest_miners
heaviest_miners_lem r n v =
    let sorted = exchange_sort heavier (map miner_of r.shares) in
    let count : length sorted ≡ length r.shares =
      length-exchange_sort heavier (map miner_of r.shares) ∙ length-map miner_of r.shares in
    let same : Perm sorted (map miner_of r.shares) =
      perm-exchange_sort heavier (map miner_of r.shares) in
    let down : IsDescending weight_of sorted =
      exchange_sort-IsDescending heavier HasWeight weight_of
        (λ a b va vb. cmp_greater a.weight b.weight va vb) (map miner_of r.shares)
        (All-miners r.shares v) in
    elim (Bool-cases (ltb (length sorted) n)) [
      | inl less ↦ rw less (
        drop (length sorted) sorted,
        subst (λ l. Perm l (map miner_of r.shares)) (sym (take-drop (length sorted) sorted)) same,
        subst (λ l. IsDescending weight_of l) (sym (take-drop (length sorted) sorted)) down,
        inr (omega (arith, count, ltb→lt (length sorted) n less), drop-length sorted),
      )
      | inr fits ↦
          (let le : n ≤ length sorted = ltb_false→le (length sorted) n fits in
            rw fits (
              drop n sorted,
              subst (λ l. Perm l (map miner_of r.shares)) (sym (take-drop n sorted)) same,
              subst (λ l. IsDescending weight_of l) (sym (take-drop n sorted)) down,
              inl (omega (arith, count, le), length-take_le n sorted le),
            ))
    ]

-- For valid weights, TopMiners(n) panics on a negative n, and otherwise returns the first n miners,
-- or all where there are fewer, of an order of all the miners from the heaviest down.
pub top_miners_lem :
    (r : PplnsResult) (n : ℤ) → AreValid r.shares → IsTop r.shares n (top_miners r n)
unfolding top_miners
top_miners_lem r (pos n) v = heaviest_miners_lem r n v
top_miners_lem r (negsuc n) v = tt
