-- ===== src/Daemon/Rebuild.antt =====
-- `RebuildAllPayouts` (cmd/daemon/main.go): the payouts of all found blocks by the current window,
-- and what is written of them. Only its log uses the percentages of the miners.
pub mod Stored
use p2pool_salvium_observer.Prelude.{ℕ, Option, none, some, List, [], ◌∷◌, map, length}
use p2pool_salvium_observer.Difficulty.{Difficulty}
use p2pool_salvium_observer.Base58.{to_base58}
use p2pool_salvium_observer.Pplns.{
  ShareMap, MinerWeight, PplnsResult, heaviest_miners, calculate_pplns,
}
use p2pool_salvium_observer.Daemon.{Text, FoundBlock}
use p2pool_salvium_observer.Daemon.Tip.{find_tip}
use p2pool_salvium_observer.Daemon.Payouts.{Rebuilt, rebuild_blocks, nothing_rebuilt}
use p2pool_salvium_observer.Daemon.Persist.{Redis, Codecs, processed_key, store_payouts}

-- The addresses of the miners, from the heaviest down.
unfoldable pub miner_addresses : (List ℕ → List ℕ) → PplnsResult → List Text
miner_addresses keccak256 pplns =
    map (λ (mw : MinerWeight). to_base58 keccak256 mw.address)
      (heaviest_miners pplns (length pplns.shares))

module _ {S : Type 0} (redis : Redis S) (codecs : Codecs) where
  unfoldable pub store_rebuilt : Rebuilt → S → S
  store_rebuilt r s =
      redis.set processed_key (codecs.processed.marshal r.processed)
        (store_payouts redis codecs.payouts r.miner_payouts s)

  -- None is the error of a daemon without a tip. `reply i h` is what `GetCoinbaseOutputs` replies.
  unfoldable pub rebuild_all_payouts :
      (keccak256 : List ℕ → List ℕ) (reply : ℕ → ℕ → Option (List ℕ))
      → ShareMap
      → Difficulty
      → List FoundBlock
      → S
      → Option (Rebuilt × S)
  rebuild_all_payouts keccak256 reply shares mainchain_diff blocks s = elim (find_tip shares) [
    | none ↦ none
    | some tip ↦ elim (calculate_pplns shares tip mainchain_diff) [
      | none ↦ none
      | some pplns ↦
          (let r =
              rebuild_blocks reply (miner_addresses keccak256 pplns) 0 blocks nothing_rebuilt in
            some (r, store_rebuilt r s))
    ]
  ]
