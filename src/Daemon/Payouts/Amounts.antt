-- ===== src/Daemon/Payouts/Amounts.antt =====
-- What the payouts of cmd/daemon/main.go add up to.
use p2pool_salvium_observer.Prelude.{
  ℕ, zero, suc, ◌+◌, ◌%◌, ◌^◌, ◌≤◌, ◌<◌, ◌≡◌, refl, ap, ◌∙◌, false, Option, none, some, List, [],
  ◌∷◌, ◌++◌, arith, ◌&&◌, ltb, ◌==◌, if◌then◌else◌, Bool-cases, Option-cases, inl, inr, length,
  take,
}
use p2pool_salvium_observer.Word.{add64}
use p2pool_salvium_observer.Share.{bytes_eq}
use p2pool_salvium_observer.Share.Keys.{lookup_hash, insert_hash}
use p2pool_salvium_observer.Sorting.Order.{sum_by, sum_by-exchange_sort, length-exchange_sort}
use p2pool_salvium_observer.Daemon.{Text, FoundBlock, Payout, lookup_height, is_set}
use p2pool_salvium_observer.Daemon.Payouts.{
  MinerPayouts, or_nil, append_payout, payout_of, assign_payouts, sum_outputs, greater,
  sort_outputs, Pass, take_snapshot, pay_block, process_block,
}

-- What has been paid for the block of a height, to all the miners.
abbrev pub amount_at : ℕ → Payout → ℕ
amount_at h p = if p.block_height == h then p.amount else 0

abbrev pub paid_for : ℕ → MinerPayouts → ℕ
paid_for h = sum_by (λ e. sum_by (amount_at h) e.1)

sum_by-append :
    {A : Type 0} (f : A → ℕ) (xs ys : List A) → sum_by f (xs ++ ys) ≡ sum_by f xs + sum_by f ys
sum_by-append f [] ys = omega arith
sum_by-append f (x ∷ xs) ys = omega (arith, sum_by-append f xs ys)

paid_for-insert :
    (h : ℕ) (addr : Text) (ps : List Payout) (m : MinerPayouts)
    → paid_for h (insert_hash addr ps m) + sum_by (amount_at h) (or_nil (lookup_hash addr m))
      ≡ paid_for h m + sum_by (amount_at h) ps
paid_for-insert h addr ps [] = omega arith
paid_for-insert h addr ps ((b, old) ∷ m) = elim (Bool-cases (bytes_eq b addr)) [
  | inl same ↦ rw same (omega arith)
  | inr other ↦ rw other (omega (arith, paid_for-insert h addr ps m))
]

pub paid_for-append_payout :
    (h : ℕ) (addr : Text) (p : Payout) (m : MinerPayouts)
    → paid_for h (append_payout addr p m) ≡ paid_for h m + amount_at h p
unfolding append_payout
paid_for-append_payout h addr p m =
    let old = or_nil (lookup_hash addr m) in
    omega
      (arith, paid_for-insert h addr (old ++ (p ∷ [])) m, sum_by-append (amount_at h) old (p ∷ []))

-- The outputs that are matched with a miner.
abbrev pub matched : List ℕ → List Text → List ℕ
matched outs addrs = take (length addrs) outs

abbrev pub sum : List ℕ → ℕ
sum = sum_by (λ n. n)

pub paid_for-assign_payouts :
    (h : ℕ) (fb : FoundBlock) (outs : List ℕ) (addrs : List Text) (m : MinerPayouts)
    → paid_for h (assign_payouts fb outs addrs m)
      ≡ paid_for h m + (if fb.height == h then sum (matched outs addrs) else 0)
unfolding assign_payouts
paid_for-assign_payouts h fb [] [] m = ground arith
paid_for-assign_payouts h fb [] (addr ∷ addrs) m = ground arith
paid_for-assign_payouts h fb (out ∷ outs) [] m = ground arith
paid_for-assign_payouts h fb (out ∷ outs) (addr ∷ addrs) m =
    let rest = paid_for-assign_payouts h fb outs addrs (append_payout addr (payout_of fb out) m) in
    let one = paid_for-append_payout h addr (payout_of fb out) m in
    elim (Bool-cases (fb.height == h)) [
      | inl same ↦ rw same (omega (arith, (rw same at rest), (rw same at one)))
      | inr other ↦ rw other (omega (arith, (rw other at rest), (rw other at one)))
    ]

abbrev pub or_current : List Text → Option (List Text) → List Text
or_current current none = current
or_current current (some addrs) = addrs

sum_outputs_lem :
    (outs : List ℕ) (total : ℕ) → sum_outputs outs total % 2 ^ 64 ≡ (total + sum outs) % 2 ^ 64
unfolding sum_outputs
sum_outputs_lem [] total = omega arith
sum_outputs_lem (out ∷ outs) total = omega (arith, sum_outputs_lem outs (add64 total out))

sum_outputs-lt : (outs : List ℕ) (total : ℕ) → total < 2 ^ 64 → sum_outputs outs total < 2 ^ 64
unfolding sum_outputs
sum_outputs-lt [] total h = h
sum_outputs-lt (out ∷ outs) total h = sum_outputs-lt outs (add64 total out) (omega arith)

take_all : (n : ℕ) (xs : List ℕ) → length xs ≤ n → take n xs ≡ xs
take_all zero [] le = refl
take_all zero (x ∷ xs) le = absurd (omega (arith, le))
take_all (suc n) [] le = refl
take_all (suc n) (x ∷ xs) le = ap (λ ys. x ∷ ys) (take_all n xs (omega (arith, le)))

sum-sort_outputs : (outs : List ℕ) → sum (sort_outputs outs) ≡ sum outs
unfolding sort_outputs
sum-sort_outputs outs = sum_by-exchange_sort greater (λ n. n) outs

length-sort_outputs : (outs : List ℕ) → length (sort_outputs outs) ≡ length outs
unfolding sort_outputs
length-sort_outputs outs = length-exchange_sort greater outs

reward_set :
    (fb : FoundBlock) (t : ℕ)
    → fb.reward ≡ 0
    → (if fb.reward == 0 && ltb 0 t then record fb { reward = t } else fb).reward ≡ t
reward_set fb t unset = rw unset (ground arith)

pay_block-pays :
    (out : ℕ) (outs : List ℕ) (fb : FoundBlock) (addrs : List Text) (s : Pass) (h : ℕ)
    → length (out ∷ outs) ≤ length addrs
    → fb.reward ≡ 0
    → let (fb', q) = pay_block (some (out ∷ outs)) fb (addrs, s) in
      (paid_for h q.miner_payouts
        ≡ paid_for h s.miner_payouts + (if fb.height == h then sum (out ∷ outs) else 0))
      × (fb'.reward ≡ sum (out ∷ outs) % 2 ^ 64)
unfolding pay_block
pay_block-pays out outs fb addrs s h fits unset =
    let all = out ∷ outs in
    let whole : sum (matched (sort_outputs all) addrs) ≡ sum all =
      ap sum (take_all (length addrs) (sort_outputs all) (rw (length-sort_outputs all) fits))
      ∙ sum-sort_outputs all in
    (
      paid_for-assign_payouts h fb (sort_outputs all) addrs s.miner_payouts ∙ rw whole refl,
      reward_set fb (sum_outputs all 0) unset
          ∙ omega (arith, sum_outputs_lem all 0, sum_outputs-lt all 0 (omega arith)),
    )

pub take_snapshot-payouts :
    (current : List Text) (fb : FoundBlock) (p : Pass)
    → let (addrs, s) = take_snapshot current fb p in
      (addrs ≡ or_current current (lookup_height fb.height p.snapshots))
      × (s.miner_payouts ≡ p.miner_payouts)
unfolding take_snapshot
take_snapshot-payouts current fb p = elim (Option-cases (lookup_height fb.height p.snapshots)) [
  | inl missing ↦ rw (missing, take_snapshot) (refl, refl)
  | inr (addrs, there) ↦ rw (there, take_snapshot) (refl, refl)
]

-- For a new block with no reward yet and no more outputs than miners in its snapshot, or in the
-- current window where there is none, a round pays the sum of the outputs for its height and
-- nothing for another, and sets the reward to the sum modulo 2^64.
pub process_block-pays :
    (out : ℕ) (outs : List ℕ) (current : List Text) (fb : FoundBlock) (p : Pass) (h : ℕ)
    → is_set (lookup_height fb.height p.processed) ≡ false
    → length (out ∷ outs) ≤ length (or_current current (lookup_height fb.height p.snapshots))
    → fb.reward ≡ 0
    → let (fb', q) = process_block (some (out ∷ outs)) current fb p in
      (paid_for h q.miner_payouts
        ≡ paid_for h p.miner_payouts + (if fb.height == h then sum (out ∷ outs) else 0))
      × (fb'.reward ≡ sum (out ∷ outs) % 2 ^ 64)
unfolding process_block
process_block-pays out outs current fb p h was_new fits unset =
    let (addrs, s) = take_snapshot current fb p in
    let (same_addrs, same_payouts) = take_snapshot-payouts current fb p in
    let pays = pay_block-pays out outs fb addrs s h (rw same_addrs fits) unset in
    rw was_new (
      pays.0
          ∙ ap (λ n. n + (if fb.height == h then sum (out ∷ outs) else 0))
              (ap (paid_for h) same_payouts),
      pays.1,
    )
