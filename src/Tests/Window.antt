-- ===== src/Tests/Window.antt =====
-- The PPLNS window (p2pool/pplns.go) on a chain of two shares, the tip of which has an uncle.
use native.Mathlib.Decide.{dec_lt}
use p2pool_salvium_observer.Prelude.{
  ℕ, ◌%◌, ◌^◌, ◌≤◌, ◌≡◌, refl, List, [], ◌∷◌, Option, none, some, arith, length,
}
use p2pool_salvium_observer.Difficulty.{
  Difficulty, cmp, add, sub, mul_64, div64, div, div_loop, is_zero,
}
use p2pool_salvium_observer.Difficulty.Value.{value, IsValid}
use p2pool_salvium_observer.Word.Int.{pos}
use p2pool_salvium_observer.Share.{Hash, Share, Address, zero_share, bytes_eq, address_eq}
use p2pool_salvium_observer.Share.Keys.{lookup_hash, lookup_hash-All}
use p2pool_salvium_observer.Sorting.{exchange_sort, sort_from, sweep}
use p2pool_salvium_observer.Sorting.Order.{sum_by}
use p2pool_salvium_observer.Pplns.{
  ShareMap, MinerWeight, PplnsResult, Walk, start_walk, pplns_window, include_share, include_uncle,
  add_weight, finalize_buckets, fill_buckets, increment, payout_loop, new_miner, credit,
  calculate_pplns, walk, finish, visit_uncles, top_miners, heaviest_miners,
  estimated_payout_ordered, finalize_miner, bucket_of, penalty_of, uncle_weight_of,
}
use p2pool_salvium_observer.Pplns.Miners.{total_by, AllMiners}
use p2pool_salvium_observer.Pplns.Total.{calculate_pplns_total}
use p2pool_salvium_observer.Pplns.Weight.{
  sum_weights, AreValid, Balanced, Balances, visit_uncles-Balances, calculate_pplns-sum,
}
use p2pool_salvium_observer.Pplns.Counts.{calculate_pplns-counts, Finished}
use p2pool_salvium_observer.Pplns.Payout.{paid, Fair, estimated_payout_ordered_lem}
use p2pool_salvium_observer.Pplns.Top.{IsTop, top_miners_lem}

abbrev number : ℕ → Difficulty
number n = record { lo = n; hi = 0 }

abbrev hash_of : ℕ → Hash
hash_of n = n ∷ []

abbrev wallet : ℕ → Address
wallet n = record { spend_public_key = n ∷ []; view_public_key = n ∷ [] }

abbrev parent : Share
parent = record zero_share {
  sidechain_id = hash_of 2;
  miner_wallet = wallet 2;
  sidechain_height = 99;
  difficulty = number 500;
  timestamp = 10;
}

abbrev uncle : Share
uncle = record zero_share {
  sidechain_id = hash_of 3;
  miner_wallet = wallet 3;
  sidechain_height = 99;
  difficulty = number 500;
}

abbrev tip : Share
tip = record zero_share {
  sidechain_id = hash_of 1;
  miner_wallet = wallet 1;
  parent = hash_of 2;
  uncles = hash_of 3 ∷ [];
  sidechain_height = 100;
  difficulty = number 500;
  timestamp = 30;
}

abbrev shares : ShareMap
shares = (hash_of 1, tip) ∷ (hash_of 2, parent) ∷ (hash_of 3, uncle) ∷ []

window : (r : PplnsResult) × (calculate_pplns shares tip (number 1000) ≡ some r)
window = let (w, _, e) = calculate_pplns_total shares tip (number 1000) in (finish tip w, e)

calculate_pplns_total_example :
    (w : Walk) × (walk shares tip (mul_64 (number 1000) 2) pplns_window tip start_walk ≡ some w)
    × (calculate_pplns shares tip (number 1000) ≡ some (finish tip w))
calculate_pplns_total_example = calculate_pplns_total shares tip (number 1000)

known-IsValid : (id : Hash) (s : Share) → lookup_hash id shares ≡ some s → IsValid s.difficulty
known-IsValid id s e =
    lookup_hash-All (λ x. IsValid x.difficulty) id s shares
      ((omega arith, omega arith), ((omega arith, omega arith), ((omega arith, omega arith), tt))) e

calculate_pplns-counts_example :
    (1 ≤ window.0.blocks_included)
    × (window.0.blocks_included ≤ pplns_window)
    × (total_by (λ mw. mw.share_count) window.0.shares ≡ window.0.blocks_included)
    × (total_by (λ mw. mw.uncle_count) window.0.shares ≡ window.0.uncles_included)
    × AllMiners (Finished window.0.blocks_included) window.0.shares
calculate_pplns-counts_example = calculate_pplns-counts shares tip (number 1000) window.0 window.1

calculate_pplns-sum_example : value window.0.total_weight ≡ sum_weights window.0.shares % 2 ^ 128
calculate_pplns-sum_example =
    calculate_pplns-sum shares tip (number 1000) window.0 known-IsValid (omega arith, omega arith)
      (omega arith, omega arith) window.1

limit-IsValid : IsValid (number 2000)
limit-IsValid = (omega arith, omega arith)

start-Balanced : Balanced shares tip (number 2000) limit-IsValid start_walk
start-Balanced = record {
  entries = tt;
  total = (omega arith, omega arith);
  sums = omega arith;
  capped = omega arith;
}

visit_uncles-Balances_example :
    Balances shares tip
      (number 2000)
      limit-IsValid
      (visit_uncles shares tip (number 2000) (hash_of 3 ∷ []) (number 500, start_walk))
visit_uncles-Balances_example =
    visit_uncles-Balances shares tip (number 2000) limit-IsValid known-IsValid (hash_of 3 ∷ [])
      (number 500) start_walk (omega arith, omega arith) start-Balanced

-- Two miners of weights 100 and 200.
abbrev miner : ℕ → ℕ → MinerWeight
miner n w = record (new_miner (wallet n)) {
  weight = number w;
  share_count = 2;
  share_positions = 0 ∷ 3 ∷ [];
}

abbrev result : PplnsResult
result = record {
  shares = (wallet 1, miner 1 100) ∷ (wallet 2, miner 2 200) ∷ [];
  total_weight = number 300;
  blocks_included = 4;
  uncles_included = 0;
  tip_height = 100;
  bottom_height = 97;
  window_duration = pos 30;
}

result-AreValid : AreValid result.shares
result-AreValid = ((omega arith, omega arith), ((omega arith, omega arith), tt))

top_miners_lem_example : IsTop result.shares (pos 1) (top_miners result (pos 1))
top_miners_lem_example = top_miners_lem result (pos 1) result-AreValid

estimated_payout_ordered_lem_example :
    (sum_by paid (estimated_payout_ordered result 1000) ≡ 1000)
    × Fair
        (value result.total_weight)
        1000
        (heaviest_miners result (length result.shares))
        (estimated_payout_ordered result 1000)
estimated_payout_ordered_lem_example =
    estimated_payout_ordered_lem result 1000 result-AreValid (omega arith, omega arith)
      (omega arith) (omega arith) (omega arith) (omega arith)

abbrev total_of : Option PplnsResult → List ℕ
total_of none = []
total_of (some r) =
    value r.total_weight ∷ r.blocks_included ∷ r.uncles_included ∷ length r.shares ∷ []

-- 500 of the tip and 100 of its uncle, the other 400 of the uncle, and 500 of the parent.
window_run : total_of (calculate_pplns shares tip (number 1000)) ≡ 1500 ∷ 2 ∷ 1 ∷ 3 ∷ []
unfolding calculate_pplns walk include_share visit_uncles include_uncle uncle_weight_of penalty_of
    add_weight credit mul_64 div64 add sub cmp finish finalize_buckets finalize_miner fill_buckets
    increment bucket_of address_eq bytes_eq dec_lt
window_run = refl

payout_run : estimated_payout_ordered result 1000 ≡ (wallet 2, 666) ∷ (wallet 1, 334) ∷ []
unfolding estimated_payout_ordered heaviest_miners payout_loop exchange_sort sort_from sweep cmp
    is_zero add mul_64 div div_loop div64 dec_lt
payout_run = refl
