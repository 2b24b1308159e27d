-- ===== src/Daemon/Window/Estimates.antt =====
-- The estimates that `storePPLNS` writes (cmd/daemon/main.go) and the payouts of
-- `EstimatedPayoutOrdered` (p2pool/pplns.go), miner by miner, whatever the orders of the map.
use mathlib.Core.List.{Perm, foldr}
use mathlib.Core.List.Perm
use native.Mathlib.Nat.{ℕ_set}
use p2pool_salvium_observer.Prelude.{
  ℕ, ◌+◌, ◌≤◌, ◌≡◌, refl, sym, ap, ◌∙◌, false, some, List, [], ◌∷◌, map, arith, if◌then◌else◌, All,
  Bool-cases, inl, inr,
}
use p2pool_salvium_observer.Difficulty.{Difficulty, zero_difficulty, add, mul_64, div, is_zero}
use p2pool_salvium_observer.Word.{sub64}
use p2pool_salvium_observer.Share.{Address, Share, address_eq}
use p2pool_salvium_observer.Share.Keys.{
  lookup_address, insert_address, address_eq_sound, address_eq_refl,
}
use p2pool_salvium_observer.Sorting.{exchange_sort}
use p2pool_salvium_observer.Sorting.Order.{sum_by, perm-exchange_sort}
use p2pool_salvium_observer.Pplns.{
  Weights, ShareMap, PplnsResult, MinerWeight, in_order, heavier, miner_of, payout_loop, assign_all,
  estimated_payout, estimated_payout_ordered, calculate_pplns,
}
use p2pool_salvium_observer.Pplns.Payout.{heaviest_miners-all}
use p2pool_salvium_observer.Pplns.Unique.{is_of, of_miner, sort_unique, calculate_pplns-IsKeyed}
use p2pool_salvium_observer.Base58.{to_base58}
use p2pool_salvium_observer.Daemon.{Text}
use p2pool_salvium_observer.Daemon.Window.{
  PplnsMinerData, or_zero, reward_or_default, miner_data, store_pplns,
}

-- How many entries a list has for an address.
abbrev entries_of : Address → List (Address × ℕ) → ℕ
entries_of b = sum_by (λ (e : Address × ℕ). is_of b e.0)

lookup-insert_same :
    (a : Address) (p : ℕ) (m : List (Address × ℕ))
    → lookup_address a (insert_address a p m) ≡ some p
lookup-insert_same a p [] = rw (address_eq_refl a) refl
lookup-insert_same a p ((k, q) ∷ m) = elim (Bool-cases (address_eq k a)) [
  | inl same ↦ rw (same, same) refl
  | inr other ↦ rw (other, other) (lookup-insert_same a p m)
]

lookup-insert_other :
    (a b : Address) (p : ℕ) (m : List (Address × ℕ))
    → address_eq a b ≡ false
    → lookup_address b (insert_address a p m) ≡ lookup_address b m
lookup-insert_other a b p [] differ = rw differ refl
lookup-insert_other a b p ((k, q) ∷ m) differ = elim (Bool-cases (address_eq k a)) [
  | inl same ↦
      let apart : address_eq k b ≡ false = rw (address_eq_sound k a same) differ in
      rw (same, apart) refl
  | inr other ↦
      rw other (ap (λ o. if address_eq k b then some q else o) (lookup-insert_other a b p m differ))
]

assign_all-absent :
    (b : Address) (es acc : List (Address × ℕ))
    → entries_of b es ≡ 0
    → lookup_address b (assign_all acc es) ≡ lookup_address b acc
unfolding assign_all
assign_all-absent b [] acc none_of = refl
assign_all-absent b ((a, p) ∷ es) acc none_of = elim (Bool-cases (address_eq a b)) [
  | inl same ↦ absurd (omega (arith, (rw same at none_of)))
  | inr other ↦
      assign_all-absent b es (insert_address a p acc) (omega (arith, none_of))
      ∙ lookup-insert_other a b p acc other
]

-- The map holds the payout of every entry of a list that has one at most for each address.
assign_all_lem :
    (es acc : List (Address × ℕ))
    → ((b : Address) → entries_of b es ≤ 1)
    → All (λ e. lookup_address e.0 (assign_all acc es) ≡ some e.1) es
unfolding assign_all
assign_all_lem [] acc few = tt
assign_all_lem ((a, p) ∷ es) acc few =
    let one : 1 + entries_of a es ≤ 1 = rw (address_eq_refl a) at (few a) in
    (
      assign_all-absent a es (insert_address a p acc) (omega (arith, one))
          ∙ lookup-insert_same a p acc,
      assign_all_lem es (insert_address a p acc) (λ b. omega (arith, few b)),
    )

-- The address and the estimate of a row.
abbrev pub estimate_of : PplnsMinerData → Text × ℕ
estimate_of row = (row.address, row.estimated_payout)

-- A payout, with its address printed.
abbrev pub printed : (List ℕ → List ℕ) → Address × ℕ → Text × ℕ
printed keccak256 e = (to_base58 keccak256 e.0, e.1)

module _ (total : Difficulty) (reward : ℕ) where
  payout_loop-entries :
      (b : Address) (c : Difficulty) (given : ℕ) (ms : List MinerWeight)
      → entries_of b (payout_loop total reward c given ms) ≡ sum_by (of_miner b) ms
  unfolding payout_loop
  payout_loop-entries b c given [] = refl
  payout_loop-entries b c given (mw ∷ ms) =
      let next = div (mul_64 (add c mw.weight) reward) total in
      ap (λ n. of_miner b mw + n) (payout_loop-entries b (add c mw.weight) next.lo ms)

  -- What the rows of the miners say, where the map has the payouts of the loop.
  rows_lem :
      (keccak256 : List ℕ → List ℕ) (payouts : List (Address × ℕ)) (c : Difficulty) (given : ℕ)
      (ms : List MinerWeight)
      → All (λ e. lookup_address e.0 payouts ≡ some e.1) (payout_loop total reward c given ms)
      → map estimate_of (map (miner_data keccak256 payouts) ms)
        ≡ map (printed keccak256) (payout_loop total reward c given ms)
  unfolding payout_loop miner_data
  rows_lem keccak256 payouts c given [] h = refl
  rows_lem keccak256 payouts c given (mw ∷ ms) (here, h) =
      let next = div (mul_64 (add c mw.weight) reward) total in
      let rest = rows_lem keccak256 payouts (add c mw.weight) next.lo ms h in
      ap
        (λ o.
          (to_base58 keccak256 mw.address, or_zero o)
          ∷ map estimate_of (map (miner_data keccak256 payouts) ms))
        here
      ∙ ap (λ l. (to_base58 keccak256 mw.address, sub64 next.lo given) ∷ l) rest

foldr-sum_by : {A : Type 0} (f : A → ℕ) (xs : List A) → foldr (λ a n. f a + n) 0 xs ≡ sum_by f xs
foldr-sum_by f [] = refl
foldr-sum_by f (x ∷ xs) = ap (λ n. f x + n) (foldr-sum_by f xs)

sum_by-Perm : {A : Type 0} (f : A → ℕ) (xs ys : List A) → Perm xs ys → sum_by f xs ≡ sum_by f ys
sum_by-Perm f xs ys p =
    sym (foldr-sum_by f xs)
    ∙ Perm.foldr-eq ℕ_set (λ a n. f a + n) (λ a b n. omega arith) p 0
    ∙ foldr-sum_by f ys

-- Two orders of a map have the same miners, and so have what the sort makes of them.
sorted-Perm :
    (met order : Weights)
    → Perm met order
    → Perm (exchange_sort heavier (map miner_of met)) (exchange_sort heavier (map miner_of order))
sorted-Perm met order p =
    Perm.trans (perm-exchange_sort heavier (map miner_of met)) (
      Perm.trans (Perm.map miner_of p)
        (Perm.symm (perm-exchange_sort heavier (map miner_of order))))

-- For a window that CalculatePPLNS computes, of a total weight that is not 0, and for any two
-- orders in which EstimatedPayout and storePPLNS meet the map of its miners, the addresses with the
-- estimates that storePPLNS writes are a permutation of the payouts of EstimatedPayoutOrdered in
-- the first of the two orders, for the last reward or the default one where that is 0.
pub store_pplns-estimates :
    (keccak256 : List ℕ → List ℕ) (shares : ShareMap) (tip : Share) (mainchain_diff : Difficulty)
    (r : PplnsResult) (met order : Weights) (reward : ℕ)
    → calculate_pplns shares tip mainchain_diff ≡ some r
    → Perm met r.shares
    → Perm order r.shares
    → is_zero r.total_weight ≡ false
    → Perm (map estimate_of (store_pplns keccak256 r met order reward)) (
        map
          (printed keccak256)
          (estimated_payout_ordered (in_order met r) (reward_or_default reward)))
unfolding store_pplns estimated_payout estimated_payout_ordered
store_pplns-estimates keccak256 shares tip mainchain_diff r met order reward computed p q positive =
    let keyed = calculate_pplns-IsKeyed shares tip mainchain_diff r computed in
    let ms = exchange_sort heavier (map miner_of met) in
    let es = payout_loop r.total_weight (reward_or_default reward) zero_difficulty 0 ms in
    let few : (b : Address) → entries_of b es ≤ 1 = λ b.
      rw
        (
          payout_loop-entries r.total_weight (reward_or_default reward) b zero_difficulty 0 ms,
          sum_by-Perm (of_miner b) _ _ (sorted-Perm met r.shares p),
        )
        (sort_unique r.shares keyed b) in
    let rows : map estimate_of (map (miner_data keccak256 (assign_all [] es)) ms)
        ≡ map (printed keccak256) es =
      rows_lem r.total_weight (reward_or_default reward) keccak256 (assign_all [] es)
        zero_difficulty 0 ms (assign_all_lem es [] few) in
    rw
      (
        positive,
        heaviest_miners-all (in_order met r),
        heaviest_miners-all (in_order order r),
        ← rows,
      )
      (Perm.map estimate_of (
        Perm.map (miner_data keccak256 (assign_all [] es))
          (sorted-Perm order met (Perm.trans q (Perm.symm p)))))
