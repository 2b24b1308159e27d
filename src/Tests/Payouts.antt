-- ===== src/Tests/Payouts.antt =====
-- The payouts of the daemon (cmd/daemon/main.go) for two blocks of one height, and their way through
-- a database.
use p2pool_salvium_observer.Prelude.{
  ℕ, ◌+◌, ◌%◌, ◌^◌, ◌≡◌, ◌⊎◌, refl, true, false, Option, some, List, [], ◌∷◌, arith, All,
  if◌then◌else◌, ◌==◌,
}
use p2pool_salvium_observer.Word.Int.{pos}
use p2pool_salvium_observer.Share.{bytes_eq}
use p2pool_salvium_observer.Share.Keys.{lookup_hash}
use p2pool_salvium_observer.Daemon.{Text, FoundBlock, Payout}
use p2pool_salvium_observer.Daemon.Payouts.{
  Pass, process_block, process_blocks, rebuild_block, rebuild_blocks, nothing_rebuilt, fetch_reward,
  take_snapshot, pay_block, assign_payouts, append_payout, sort_outputs, sum_outputs,
}
use p2pool_salvium_observer.Daemon.Payouts.Amounts.{paid_for, sum, process_block-pays}
use p2pool_salvium_observer.Daemon.Payouts.ByMiner.{is_processed}
use p2pool_salvium_observer.Daemon.Payouts.Once.{IsSettled, IsUntouched, process_blocks-IsSettled}
use p2pool_salvium_observer.Daemon.Payouts.Rebuild.{owed}
use p2pool_salvium_observer.Difficulty.{zero_difficulty}
use p2pool_salvium_observer.Share.{Share, zero_share}
use p2pool_salvium_observer.Pplns.{PplnsResult, calculate_pplns}
use p2pool_salvium_observer.Daemon.Tip.{IsHighest}
use p2pool_salvium_observer.Daemon.Payouts.{Rebuilt}
use p2pool_salvium_observer.Daemon.Rebuild.{miner_addresses, store_rebuilt, rebuild_all_payouts}
use p2pool_salvium_observer.Daemon.Rebuild.Stored.{rebuild_all_payouts_lem}
use p2pool_salvium_observer.Sorting.{exchange_sort, sort_from, sweep}
use p2pool_salvium_observer.Daemon.Persist.{
  store_payouts, load_pass, load_miner_payouts, load_keys, payouts_at, payouts_key,
  calculate_payouts, store_results, store_pass, processed_key, snapshots_key, found_key,
}
use p2pool_salvium_observer.Daemon.Persist.Restart.{
  IsPayoutsKey, Plain, stored_or, load-store_payouts,
}
use p2pool_salvium_observer.Daemon.Persist.Calculated.{
  fresh, is_new, IsRestored, calculate_payouts-IsRestored,
}
use p2pool_salvium_observer.Tests.Codecs.{codecs, codecs-AreCodecs}
use p2pool_salvium_observer.Tests.Redis.{Database, redis, redis-IsRedis}

abbrev block : FoundBlock
block = record {
  timestamp = pos 1000;
  height = 50;
  hash = 97 ∷ [];
  difficulty = 49 ∷ [];
  total_hashes = [];
  reward = 0;
  finder = [];
}

abbrev miners : List Text
miners = (65 ∷ []) ∷ (66 ∷ []) ∷ []

process_block-pays_example :
    let (fb', q) = process_block (some (3 ∷ 5 ∷ [])) miners block fresh in
    (paid_for 50 q.miner_payouts
      ≡ paid_for 50 [] + (if block.height == 50 then sum (3 ∷ 5 ∷ []) else 0))
    × (fb'.reward ≡ sum (3 ∷ 5 ∷ []) % 2 ^ 64)
process_block-pays_example =
    process_block-pays 3 (5 ∷ []) miners block fresh 50 refl (omega arith) refl

abbrev reply : ℕ → ℕ → Option (List ℕ)
reply i h = some (3 ∷ 5 ∷ [])

process_blocks-IsSettled_example :
    let q = (process_blocks reply miners 0 (block ∷ block ∷ []) fresh).1 in
    IsUntouched 50 fresh q ⊎ ((is_processed 50 fresh ≡ false) × IsSettled miners reply 50 fresh q)
process_blocks-IsSettled_example =
    process_blocks-IsSettled reply miners 0 (block ∷ block ∷ []) fresh 50 (λ h unset addr. refl)

-- A height with two found blocks is paid for once by calculatePayouts and twice by RebuildAllPayouts.
calculated_once :
    paid_for 50 (process_blocks reply miners 0 (block ∷ block ∷ []) fresh).1.miner_payouts ≡ 8
unfolding process_blocks process_block fetch_reward take_snapshot pay_block assign_payouts
    append_payout sort_outputs sum_outputs exchange_sort sort_from sweep bytes_eq
calculated_once = refl

rebuilt_twice :
    paid_for 50 (rebuild_blocks reply miners 0 (block ∷ block ∷ []) nothing_rebuilt).miner_payouts
    ≡ 16
unfolding rebuild_blocks rebuild_block assign_payouts append_payout sort_outputs sum_outputs
    exchange_sort sort_from sweep bytes_eq
rebuilt_twice = refl

abbrev payout : Payout
payout = record { block_height = 50; block_hash = 97 ∷ []; amount = 3; timestamp = pos 1000 }

-- The payouts of a miner who is not among those that are stored.
abbrev stale : Database
stale = store_payouts redis codecs.payouts ((67 ∷ [], payout ∷ []) ∷ []) []

stale_keys :
    All IsPayoutsKey
      (redis.payout_keys (store_payouts redis codecs.payouts ((65 ∷ [], payout ∷ []) ∷ []) stale))
unfolding store_payouts payouts_key bytes_eq
stale_keys =
    ((67 ∷ [], refl, ((omega arith, refl), tt)), ((65 ∷ [], refl, ((omega arith, refl), tt)), tt))

load-store_payouts_example :
    lookup_hash (67 ∷ []) (
      load_miner_payouts redis codecs.payouts
        (store_payouts redis codecs.payouts ((65 ∷ [], payout ∷ []) ∷ []) stale)
        [])
    ≡ stored_or
        (lookup_hash (67 ∷ []) ((65 ∷ [], payout ∷ []) ∷ []))
        (payouts_at redis codecs.payouts (payouts_key (67 ∷ [])) stale)
load-store_payouts_example =
    load-store_payouts redis codecs.payouts redis-IsRedis codecs-AreCodecs.payouts
      ((65 ∷ [], payout ∷ []) ∷ []) stale (67 ∷ []) ((omega arith, refl), tt)
      (((omega arith, refl), tt), tt) stale_keys

abbrev result : List FoundBlock × Pass × Database
result = calculate_payouts redis codecs reply miners (block ∷ [], fresh, [])

result-new : is_new result.1 ≡ true
unfolding calculate_payouts load_pass load_miner_payouts process_blocks process_block take_snapshot
    pay_block
result-new = refl

result-Plain : Plain result.1.miner_payouts
unfolding calculate_payouts load_pass load_miner_payouts load_keys process_blocks process_block
    take_snapshot pay_block assign_payouts append_payout sort_outputs exchange_sort sort_from sweep
    bytes_eq
result-Plain = (((omega arith, refl), tt), (((omega arith, refl), tt), tt))

result_keys : All IsPayoutsKey (redis.payout_keys result.2)
unfolding calculate_payouts load_pass load_miner_payouts load_keys process_blocks process_block
    take_snapshot pay_block assign_payouts append_payout sort_outputs sum_outputs exchange_sort
    sort_from sweep bytes_eq store_results store_pass store_payouts payouts_key processed_key
    snapshots_key found_key
result_keys =
    ((66 ∷ [], refl, ((omega arith, refl), tt)), ((65 ∷ [], refl, ((omega arith, refl), tt)), tt))

calculate_payouts-IsRestored_example : IsRestored result.1 (load_pass redis codecs result.2 fresh)
calculate_payouts-IsRestored_example =
    calculate_payouts-IsRestored redis codecs redis-IsRedis codecs-AreCodecs reply miners block []
      fresh [] result-new result-Plain result_keys

abbrev no_hash : List ℕ → List ℕ
no_hash bytes = []

rebuild_all_payouts_lem_example :
    (r : Rebuilt) × (tip : Share) × (pplns : PplnsResult) × (rebuild_all_payouts redis codecs
        no_hash reply
        ((1 ∷ [], zero_share) ∷ [])
        zero_difficulty
        (block ∷ block ∷ [])
        []
      ≡ some (r, store_rebuilt redis codecs r []))
    × IsHighest tip ((1 ∷ [], zero_share) ∷ [])
    × (calculate_pplns ((1 ∷ [], zero_share) ∷ []) tip zero_difficulty ≡ some pplns)
    × ((h : ℕ)
        → paid_for h r.miner_payouts
          ≡ owed reply (miner_addresses no_hash pplns) h 0 (block ∷ block ∷ []))
    × (r.success_count + r.error_count ≡ 2)
rebuild_all_payouts_lem_example =
    rebuild_all_payouts_lem redis codecs no_hash reply (1 ∷ []) zero_share [] zero_difficulty
      (block ∷ block ∷ []) []
