-- ===== src/Daemon/Payouts.antt =====
-- The payouts of `calculatePayouts` and `RebuildAllPayouts` (cmd/daemon/main.go): coinbase outputs
-- are matched with miners by position, both from the greatest down.
pub mod Amounts
pub mod ByMiner
pub mod Rounds
pub mod Once
pub mod Rebuild
use p2pool_salvium_observer.Prelude.{
  ℕ, ◌+◌, Bool, true, false, ◌&&◌, ◌||◌, Option, none, some, List, [], ◌∷◌, ◌++◌, ltb, ◌==◌,
  if◌then◌else◌,
}
use p2pool_salvium_observer.Word.{add64}
use p2pool_salvium_observer.Share.Keys.{lookup_hash, insert_hash}
use p2pool_salvium_observer.Sorting.{exchange_sort}
use p2pool_salvium_observer.Daemon.{Text, FoundBlock, Payout, lookup_height, insert_height, is_set}

-- `map[string][]Payout`
abbrev pub MinerPayouts : Type 0
MinerPayouts = List (Text × List Payout)

-- A missing key of a map to slices reads as an empty slice.
abbrev pub or_nil : Option (List Payout) → List Payout
or_nil none = []
or_nil (some payouts) = payouts

-- `d.minerPayouts[addr] = append(d.minerPayouts[addr], payout)`
unfoldable pub append_payout : Text → Payout → MinerPayouts → MinerPayouts
append_payout addr payout m = insert_hash addr (or_nil (lookup_hash addr m) ++ (payout ∷ [])) m

abbrev pub payout_of : FoundBlock → ℕ → Payout
payout_of fb amount = record {
  block_height = fb.height;
  block_hash = fb.hash;
  amount = amount;
  timestamp = fb.timestamp;
}

-- The loop to `matchCount`, the smaller of the two lengths.
unfoldable pub assign_payouts : FoundBlock → List ℕ → List Text → MinerPayouts → MinerPayouts
assign_payouts fb [] addrs m = m
assign_payouts fb (amount ∷ amounts) [] m = m
assign_payouts fb (amount ∷ amounts) (addr ∷ addrs) m =
    assign_payouts fb amounts addrs (append_payout addr (payout_of fb amount) m)

-- `totalReward += out`
unfoldable pub sum_outputs : List ℕ → ℕ → ℕ
sum_outputs [] total = total
sum_outputs (out ∷ outs) total = sum_outputs outs (add64 total out)

-- `sortedOutputs[j] > sortedOutputs[i]`
abbrev pub greater : ℕ → ℕ → Bool
greater a b = ltb b a

unfoldable pub sort_outputs : List ℕ → List ℕ
sort_outputs outs = exchange_sort greater outs

-- The fields of the daemon that the loop changes, and its counters.
pub record Pass : Type 0 where
  pub processed : List (ℕ × Bool)
  pub miner_payouts : MinerPayouts
  pub snapshots : List (ℕ × List Text)
  pub new_payouts : ℕ
  pub new_snapshots : ℕ
  pub rewards_updated : Bool

-- The reward of a block that is already processed.
unfoldable pub fetch_reward : Option (List ℕ) → FoundBlock → Pass → FoundBlock × Pass
fetch_reward none fb p = (fb, p)
fetch_reward (some []) fb p = (fb, p)
fetch_reward (some (out ∷ outs)) fb p =
    if fb.reward == 0
    then (record fb { reward = sum_outputs (out ∷ outs) 0 }, record p { rewards_updated = true })
    else (fb, p)

-- The snapshot of the block's height, taken now unless there is one.
unfoldable pub take_snapshot : List Text → FoundBlock → Pass → List Text × Pass
take_snapshot current fb p = elim (lookup_height fb.height p.snapshots) [
  | some addrs ↦ (addrs, p)
  | none ↦ (
    current,
    record p {
      snapshots = insert_height fb.height current p.snapshots;
      new_snapshots = p.new_snapshots + 1;
    },
  )
]

unfoldable pub pay_block : Option (List ℕ) → FoundBlock → List Text × Pass → FoundBlock × Pass
pay_block none fb (addrs, p) = (fb, p)
pay_block (some []) fb (addrs, p) = (fb, p)
pay_block (some (out ∷ outs)) fb (addrs, p) =
    let total_reward = sum_outputs (out ∷ outs) 0 in
    let sets = fb.reward == 0 && ltb 0 total_reward in
    (
      if sets then record fb { reward = total_reward } else fb,
      record p {
        miner_payouts = assign_payouts fb (sort_outputs (out ∷ outs)) addrs p.miner_payouts;
        processed = insert_height fb.height true p.processed;
        new_payouts = p.new_payouts + 1;
        rewards_updated = sets || p.rewards_updated;
      },
    )

-- The body of the loop over the found blocks, for what `GetCoinbaseOutputs` replies.
unfoldable pub process_block : Option (List ℕ) → List Text → FoundBlock → Pass → FoundBlock × Pass
process_block reply current fb p =
    if is_set (lookup_height fb.height p.processed)
    then fetch_reward reply fb p
    else pay_block reply fb (take_snapshot current fb p)

-- The loop. `reply i h` is what `GetCoinbaseOutputs` replies in round `i` about height `h`.
module _ (reply : ℕ → ℕ → Option (List ℕ)) (current : List Text) where
  unfoldable pub process_blocks : ℕ → List FoundBlock → Pass → List FoundBlock × Pass
  process_blocks i [] p = ([], p)
  process_blocks i (fb ∷ blocks) p =
      let (fb', p') = process_block (reply i fb.height) current fb p in
      let (blocks', p'') = process_blocks (i + 1) blocks p' in (fb' ∷ blocks', p'')

-- The loop of `RebuildAllPayouts`: the payouts, the processed heights, and how many blocks there
-- were with and without outputs.
pub record Rebuilt : Type 0 where
  pub miner_payouts : MinerPayouts
  pub processed : List (ℕ × Bool)
  pub success_count : ℕ
  pub error_count : ℕ

unfoldable pub rebuild_block : Option (List ℕ) → List Text → FoundBlock → Rebuilt → Rebuilt
rebuild_block none miners fb r = record r { error_count = r.error_count + 1 }
rebuild_block (some []) miners fb r = record r { error_count = r.error_count + 1 }
rebuild_block (some (out ∷ outs)) miners fb r = record r {
  miner_payouts = assign_payouts fb (sort_outputs (out ∷ outs)) miners r.miner_payouts;
  processed = insert_height fb.height true r.processed;
  success_count = r.success_count + 1;
}

module _ (reply : ℕ → ℕ → Option (List ℕ)) (miners : List Text) where
  unfoldable pub rebuild_blocks : ℕ → List FoundBlock → Rebuilt → Rebuilt
  rebuild_blocks i [] r = r
  rebuild_blocks i (fb ∷ blocks) r =
      rebuild_blocks (i + 1) blocks (rebuild_block (reply i fb.height) miners fb r)

abbrev pub nothing_rebuilt : Rebuilt
nothing_rebuilt = record { miner_payouts = []; processed = []; success_count = 0; error_count = 0 }
