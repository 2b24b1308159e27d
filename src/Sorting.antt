-- ===== src/Sorting.antt =====
-- The exchange sort that `TopMiners` (p2pool/pplns.go), `calculatePayouts` and `RebuildAllPayouts`
-- (cmd/daemon/main.go) and `handleFoundBlockDetails` (cmd/api/main.go) share: for each `i`, every later `j` that is greater is swapped with `i`.
pub mod Order
use p2pool_salvium_observer.Prelude.{ℕ, zero, suc, Bool, List, [], ◌∷◌, if◌then◌else◌, length}

module _ {A : Type 0} (greater : A → A → Bool) where
  -- The inner loop: `x` stands at `i`, and the list is what stands behind it. A swap leaves the old
  -- `x` at `j`. The result is what stands at `i` in the end, and what stands behind it.
  unfoldable pub sweep : A → List A → A × List A
  sweep x [] = (x, [])
  sweep x (y ∷ ys) =
      let swap = greater y x in
      let (best, rest) = sweep (if swap then y else x) ys in (best, (if swap then x else y) ∷ rest)

  -- The outer loop, with the number of positions that are left.
  unfoldable pub sort_from : ℕ → List A → List A
  sort_from zero xs = xs
  sort_from (suc n) [] = []
  sort_from (suc n) (x ∷ xs) = let (best, rest) = sweep x xs in best ∷ sort_from n rest

  unfoldable pub exchange_sort : List A → List A
  exchange_sort xs = sort_from (length xs) xs
