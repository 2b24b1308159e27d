-- ===== src/Sorting/Order.antt =====
-- The exchange sort returns its input in another order, and the greatest first.
use p2pool_salvium_observer.Prelude.{
  ℕ, zero, suc, ◌+◌, ◌≤◌, ◌<◌, ◌≡◌, refl, ap, ◌∙◌, Bool, List, [], ◌∷◌, arith, if◌then◌else◌, ltb,
  ltb→lt, ltb_false→le, length, All, inl, inr, Bool-cases,
}
use p2pool_salvium_observer.Sorting.{sweep, sort_from, exchange_sort}
use native.Mathlib.Nat.{le_trans}
use mathlib.Core.List.{Perm}
use mathlib.Core.List.Perm

-- Each element is at least as great as all behind it.
abbrev pub IsDescending : {A : Type 0} → (A → ℕ) → List A → Type 0
IsDescending key [] = Unit {0}
IsDescending key (x ∷ xs) = All (λ y. key y ≤ key x) xs × IsDescending key xs

abbrev pub sum_by : {A : Type 0} → (A → ℕ) → List A → ℕ
sum_by f [] = 0
sum_by f (x ∷ xs) = f x + sum_by f xs

module _ {A : Type 0} (greater : A → A → Bool) where
  length-sweep : (x : A) (xs : List A) → length (sweep greater x xs).1 ≡ length xs
  unfolding sweep
  length-sweep x [] = refl
  length-sweep x (y ∷ ys) = ap suc (length-sweep (if greater y x then y else x) ys)

  perm-sweep :
      (x : A) (xs : List A) → let (best, rest) = sweep greater x xs in Perm (best ∷ rest) (x ∷ xs)
  unfolding sweep
  perm-sweep x [] = Perm.refl _
  perm-sweep x (y ∷ ys) = elim (Bool-cases (greater y x)) [
    | inl swap ↦ rw swap (Perm.trans (Perm.swap _ _ _) (Perm.cons x (perm-sweep y ys)))
    | inr keep ↦ rw keep (
        Perm.trans (Perm.swap _ _ _) (Perm.trans (Perm.cons y (perm-sweep x ys)) (Perm.swap _ _ _)))
  ]

  perm-sort_from : (n : ℕ) (xs : List A) → Perm (sort_from greater n xs) xs
  unfolding sort_from
  perm-sort_from zero xs = Perm.refl xs
  perm-sort_from (suc n) [] = Perm.refl []
  perm-sort_from (suc n) (x ∷ xs) =
      Perm.trans (Perm.cons _ (perm-sort_from n (sweep greater x xs).1)) (perm-sweep x xs)

  -- The exchange sort gives a permutation of its input, whatever the comparison.
  pub perm-exchange_sort : (xs : List A) → Perm (exchange_sort greater xs) xs
  unfolding exchange_sort
  perm-exchange_sort xs = perm-sort_from (length xs) xs

  module _ (f : A → ℕ) where
    sum_by-sweep :
        (x : A) (xs : List A)
        → f (sweep greater x xs).0 + sum_by f (sweep greater x xs).1 ≡ f x + sum_by f xs
    unfolding sweep
    sum_by-sweep x [] = refl
    sum_by-sweep x (y ∷ ys) = elim (Bool-cases (greater y x)) [
      | inl swap ↦ rw swap (omega (arith, sum_by-sweep y ys))
      | inr keep ↦ rw keep (omega (arith, sum_by-sweep x ys))
    ]

    sum_by-sort_from : (n : ℕ) (xs : List A) → sum_by f (sort_from greater n xs) ≡ sum_by f xs
    unfolding sort_from
    sum_by-sort_from zero xs = refl
    sum_by-sort_from (suc n) [] = refl
    sum_by-sort_from (suc n) (x ∷ xs) =
        omega (arith, sum_by-sweep x xs, sum_by-sort_from n (sweep greater x xs).1)

    pub sum_by-exchange_sort : (xs : List A) → sum_by f (exchange_sort greater xs) ≡ sum_by f xs
    unfolding exchange_sort
    sum_by-exchange_sort xs = sum_by-sort_from (length xs) xs

  module _ (P : A → Type 0) where
    All-sweep :
        (x : A) (xs : List A)
        → P x
        → All P xs
        → P (sweep greater x xs).0 × All P (sweep greater x xs).1
    unfolding sweep
    All-sweep x [] px pxs = (px, tt)
    All-sweep x (y ∷ ys) px pxs = elim (Bool-cases (greater y x)) [
      | inl swap ↦ rw swap (let r = All-sweep y ys pxs.0 pxs.1 in (r.0, (px, r.1)))
      | inr keep ↦ rw keep (let r = All-sweep x ys px pxs.1 in (r.0, (pxs.0, r.1)))
    ]

    All-sort_from : (n : ℕ) (xs : List A) → All P xs → All P (sort_from greater n xs)
    unfolding sort_from
    All-sort_from zero xs pxs = pxs
    All-sort_from (suc n) [] pxs = tt
    All-sort_from (suc n) (x ∷ xs) pxs =
        let r = All-sweep x xs pxs.0 pxs.1 in (r.0, All-sort_from n _ r.1)

    pub All-exchange_sort : (xs : List A) → All P xs → All P (exchange_sort greater xs)
    unfolding exchange_sort
    All-exchange_sort xs pxs = All-sort_from (length xs) xs pxs

  length-sort_from : (n : ℕ) (xs : List A) → length (sort_from greater n xs) ≡ length xs
  unfolding sort_from
  length-sort_from zero xs = refl
  length-sort_from (suc n) [] = refl
  length-sort_from (suc n) (x ∷ xs) =
      ap suc (length-sort_from n (sweep greater x xs).1 ∙ length-sweep x xs)

  pub length-exchange_sort : (xs : List A) → length (exchange_sort greater xs) ≡ length xs
  unfolding exchange_sort
  length-exchange_sort xs = length-sort_from (length xs) xs

  -- On elements that satisfy `P` the test compares keys.
  module _ (P : A → Type 0) (key : A → ℕ)
      (compares : (a b : A) → P a → P b → greater a b ≡ ltb (key b) (key a)) where
    sweep_greatest :
        (x : A) (xs : List A)
        → P x
        → All P xs
        → let (best, rest) = sweep greater x xs in
          (key x ≤ key best) × All (λ y. key y ≤ key best) rest
    unfolding sweep
    sweep_greatest x [] px pxs = (omega arith, tt)
    sweep_greatest x (y ∷ ys) px pxs =
        let (px', lx, lo) = chosen in
        let r = sweep_greatest (if greater y x then y else x) ys px' pxs.1 in
        (le_trans lx r.0, (le_trans lo r.0, r.1))
      where
        -- The element that goes on and the one that stays behind.
        chosen :
            P (if greater y x then y else x)
            × (key x ≤ key (if greater y x then y else x))
            × (key (if greater y x then x else y) ≤ key (if greater y x then y else x))
        chosen = elim (Bool-cases (greater y x)) [
          | inl swap ↦
              let lt : key x < key y = ltb→lt _ _ (rw (compares y x pxs.0 px) at swap) in
              rw swap (pxs.0, omega arith, omega arith)
          | inr keep ↦
              let le : key y ≤ key x = ltb_false→le _ _ (rw (compares y x pxs.0 px) at keep) in
              rw keep (px, omega arith, omega arith)
        ]

    sort_from-IsDescending :
        (n : ℕ) (xs : List A) → length xs ≤ n → All P xs → IsDescending key (sort_from greater n xs)
    unfolding sort_from
    sort_from-IsDescending zero [] h pxs = tt
    sort_from-IsDescending zero (x ∷ xs) h pxs = absurd (omega arith)
    sort_from-IsDescending (suc n) [] h pxs = tt
    sort_from-IsDescending (suc n) (x ∷ xs) h pxs =
        let ps = All-sweep P x xs pxs.0 pxs.1 in
        (
          All-sort_from _ n _ (sweep_greatest x xs pxs.0 pxs.1).1,
          sort_from-IsDescending n _ (omega (arith, length-sweep x xs)) ps.1,
        )

    -- The result is in descending order of the keys.
    pub exchange_sort-IsDescending :
        (xs : List A) → All P xs → IsDescending key (exchange_sort greater xs)
    unfolding exchange_sort
    exchange_sort-IsDescending xs pxs = sort_from-IsDescending (length xs) xs (omega arith) pxs
