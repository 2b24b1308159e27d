-- ===== src/Tests/Daemon.antt =====
-- The daemon (cmd/daemon/main.go) on a small sidechain and two found blocks.
use mathlib.Core.List.{Perm}
use mathlib.Core.List.Perm
use p2pool_salvium_observer.Prelude.{
  ℕ, ◌/◌, ◌<◌, ◌≤◌, ◌≡◌, ◌≢◌, refl, true, Option, none, some, List, [], ◌∷◌, ◌++◌, arith, length,
  zero, suc, All, replicate, map, take, if◌then◌else◌, ◌==◌, false,
}
use mathlib.Core.Logic.{inl, inr}
use p2pool_salvium_observer.Outcome.{ok}
use p2pool_salvium_observer.Word.Int.{pos}
use p2pool_salvium_observer.Difficulty.{Difficulty, is_zero, mul_64, add, cmp}
use p2pool_salvium_observer.Share.{Share, zero_share, bytes_eq}
use p2pool_salvium_observer.Pplns.{
  ShareMap, PplnsResult, calculate_pplns, walk, include_share, visit_uncles, add_weight, credit,
  finish, finalize_buckets, start_walk, estimated_payout_ordered, in_order,
}
use p2pool_salvium_observer.Cache.Steps.{ancestors}
use p2pool_salvium_observer.Daemon.{Text, FoundBlock}
use p2pool_salvium_observer.Daemon.Tip.{find_tip, find_tip_from, IsAmong, IsHighest}
use p2pool_salvium_observer.Daemon.Decimal.{print_uint, print_int, print_digits, scan_digits}
use p2pool_salvium_observer.Daemon.Entries.{
  is_space, parse_entry, print_entry, scan_five, scan_four, scan_int, scan_uint, scan_number,
  scan_word, skip_spaces, split_word,
}
use p2pool_salvium_observer.Daemon.Entries.RoundTrip.{
  IsWord, IsEntry, unrewarded, older_entry, parse-print_entry, parse-older_entry,
}
use p2pool_salvium_observer.Daemon.Orphans.{
  remove_orphaned_blocks, remove_orphaned_blocks_lem, survivors_of, orphans_of,
}
use p2pool_salvium_observer.Share.Keys.{lookup_hash}
use p2pool_salvium_observer.Daemon.Shares.{share_data, store_shares, or_empty}
use p2pool_salvium_observer.Daemon.Shares.Window.{ids_of, store_shares_lem}
use p2pool_salvium_observer.Daemon.Stats.{Supply, SupplyInfo, is_stale, store_hashrate, time_span}
use p2pool_salvium_observer.Daemon.Stats.Hashrate.{IsSpan, store_hashrate-some}
use p2pool_salvium_observer.Daemon.Cycle.{Chain, sync_window}
use p2pool_salvium_observer.Daemon.Cycle.Synced.{sync_window_lem}
use p2pool_salvium_observer.Daemon.Window.{store_pplns}
use p2pool_salvium_observer.Daemon.Window.Estimates.{estimate_of, printed, store_pplns-estimates}
use p2pool_salvium_observer.Daemon.Finder.{best_match}
use p2pool_salvium_observer.Daemon.Finder.Closest.{IsMatch, best_match_lem}

abbrev h16 : ℕ → Text
h16 c = replicate 16 c

abbrev block : FoundBlock
block = record {
  timestamp = pos 1000;
  height = 50;
  hash = h16 97;
  difficulty = 49 ∷ 48 ∷ [];
  total_hashes = 51 ∷ 48 ∷ [];
  reward = 0;
  finder = [];
}

abbrev low : Share
low = record zero_share {
  sidechain_id = 1 ∷ [];
  timestamp = 980;
  mainchain_height = 50;
  sidechain_height = 6;
}

abbrev high : Share
high = record zero_share {
  sidechain_id = 2 ∷ [];
  timestamp = 1005;
  mainchain_height = 50;
  sidechain_height = 7;
  parent = 1 ∷ [];
  difficulty = record { lo = 40; hi = 0 };
  cumulative_difficulty = record { lo = 70; hi = 0 };
}

abbrev chain : ShareMap
chain = (1 ∷ [], low) ∷ (2 ∷ [], high) ∷ []

find_tip-high : find_tip chain ≡ some high
unfolding find_tip find_tip_from
find_tip-high = refl

print_entry-block :
    print_entry block
    ≡ (49 ∷ 48 ∷ 48 ∷ 48 ∷ 32 ∷ 53 ∷ 48 ∷ 32 ∷ []) ++ (h16 97 ++ (32 ∷ 49 ∷ 48 ∷ 32 ∷ 51 ∷ 48 ∷ []))
unfolding print_entry print_int print_uint print_digits
print_entry-block = refl

letters :
    (c n : ℕ)
    → (c < 128) × (is_space c ≡ false)
    → All (λ b. (b < 128) × (is_space b ≡ false)) (replicate n c)
letters c zero h = tt
letters c (suc n) h = (h, letters c n h)

total-IsWord : IsWord block.total_hashes
total-IsWord = ((omega arith, refl), ((omega arith, refl), tt))

block-IsEntry : IsEntry block
block-IsEntry = (
  omega arith,
  omega arith,
  letters 97 16 (omega arith, refl),
  ((omega arith, refl), ((omega arith, refl), tt)),
)

parse-print_entry_example : parse_entry (print_entry block) ≡ some (unrewarded block (51 ∷ 48 ∷ []))
parse-print_entry_example = parse-print_entry block block-IsEntry total-IsWord

-- An entry that is broken over two lines is skipped.
broken_entry : parse_entry (49 ∷ 32 ∷ 53 ∷ 32 ∷ 97 ∷ 10 ∷ 98 ∷ []) ≡ none
unfolding parse_entry scan_five scan_four scan_int scan_uint scan_number scan_word skip_spaces
    split_word scan_digits
broken_entry = refl

parse-older_entry_example :
    (parse_entry (older_entry block) ≡ some (unrewarded block []))
    × (print_entry (unrewarded block []) ≢ older_entry block)
parse-older_entry_example = parse-older_entry block block-IsEntry

-- The node knows another block at the height.
abbrev other_hash : ℕ → Option Text
other_hash h = if h == 50 then some (h16 98) else none

remove_orphaned_blocks_lem_example :
    remove_orphaned_blocks other_hash (block ∷ [])
    ≡ ok
        (survivors_of other_hash (block ∷ []), map print_entry (orphans_of other_hash (block ∷ [])))
remove_orphaned_blocks_lem_example =
    remove_orphaned_blocks_lem other_hash (block ∷ []) ((omega arith, omega arith), tt)

remove_orphaned_blocks_all :
    remove_orphaned_blocks other_hash (block ∷ []) ≡ ok ([], print_entry block ∷ [])
unfolding bytes_eq
remove_orphaned_blocks_all = remove_orphaned_blocks_lem_example

best_match_lem_example : IsMatch block 1000 refl (omega arith) chain (best_match chain block)
best_match_lem_example =
    best_match_lem block 1000 refl (omega arith) chain (omega arith, (omega arith, tt))

abbrev no_hash : List ℕ → List ℕ
no_hash bytes = replicate 32 0

abbrev with_total : FoundBlock
with_total = record block { total_hashes = print_uint 30 }

abbrev no_supply : Supply
no_supply = record { supply_time = none; supply = 0; circulating = 0; staked = 0; burned = 0 }

abbrev info : SupplyInfo
info = record { circulating = 900; staked = 100; burned = 5 }

no_supply_stale : is_stale 50 no_supply ≡ true
unfolding is_stale
no_supply_stale = refl

store_shares_lem_example :
    let rows = (store_shares no_hash chain high).0 in
    (rows.recent ≡ take 100 (map (share_data no_hash) (ancestors 2160 chain high)))
    × (rows.count ≡ length (ancestors 2160 chain high))
    × ((addr : Text)
        → or_empty (lookup_hash addr rows.by_miner)
          ≡ ids_of no_hash addr (ancestors 2160 chain high))
store_shares_lem_example = store_shares_lem no_hash chain high

abbrev result_or : PplnsResult → Option PplnsResult → PplnsResult
result_or r none = r
result_or r (some r') = r'

abbrev difficulty : Difficulty
difficulty = record { lo = 1000; hi = 0 }

abbrev window : PplnsResult
window = result_or (finish high start_walk) (calculate_pplns chain high difficulty)

window_run : calculate_pplns chain high difficulty ≡ some window
unfolding calculate_pplns walk include_share visit_uncles add_weight credit mul_64 add cmp finish
    finalize_buckets bytes_eq
window_run = refl

window-two : 2 ≤ window.blocks_included
unfolding calculate_pplns walk include_share visit_uncles add_weight credit mul_64 add cmp finish
    finalize_buckets bytes_eq
window-two = omega arith

store_hashrate-some_example :
    (first last : Share) × (span : ℕ) × (store_hashrate chain window
      ≡ some (window.total_weight.lo / span))
    × IsSpan first.timestamp last.timestamp span
    × (IsAmong first chain × (first.sidechain_height ≡ window.bottom_height))
    × (IsAmong last chain × (last.sidechain_height ≡ 7))
store_hashrate-some_example =
    store_hashrate-some chain high difficulty window (omega arith, (omega arith, tt))
      (inr (inl refl)) window_run window-two

-- A tip of an earlier time than the bottom: the span wraps, and the hashrate is 0.
abbrev early : Share
early = record zero_share { timestamp = 1005 }

abbrev late : Share
late = record zero_share { timestamp = 1007 }

wrapped_span : time_span early late ≡ 18446744073709551614
unfolding time_span
wrapped_span = refl

window-positive : is_zero window.total_weight ≡ false
unfolding is_zero calculate_pplns walk include_share visit_uncles add_weight credit mul_64 add cmp
    finish finalize_buckets bytes_eq
window-positive = refl

store_pplns-estimates_example :
    Perm
      (map estimate_of (store_pplns no_hash window window.shares window.shares 0))
      (map (printed no_hash) (estimated_payout_ordered (in_order window.shares window) 8500000000))
store_pplns-estimates_example =
    store_pplns-estimates no_hash chain high difficulty window window.shares window.shares 0
      window_run (Perm.refl window.shares) (Perm.refl window.shares) window-positive

abbrev unsynced : Chain
unsynced = record { shares = []; mainchain_diff = record { lo = 0; hi = 0 }; last_block_reward = 0 }

abbrev no_reply : Option Difficulty
no_reply = none

sync_window_lem_example :
    let (chain', result) = sync_window (some chain) no_reply (some 7) unsynced in
    (tip : Share) × (r : PplnsResult) × (result ≡ some (tip, r))
    × IsAmong tip chain
    × IsHighest tip chain
    × (calculate_pplns chain tip chain'.mainchain_diff ≡ some r)
    × (1 ≤ r.blocks_included)
    × (r.blocks_included ≤ 2160)
sync_window_lem_example =
    sync_window_lem (1 ∷ []) low ((2 ∷ [], high) ∷ []) no_reply (some 7) unsynced
