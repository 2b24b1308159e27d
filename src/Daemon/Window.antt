-- ===== src/Daemon/Window.antt =====
-- `storePPLNS` (cmd/daemon/main.go): the rows of the miners, from the heaviest down. The percentage
-- and the hashrate, float64 values, are left out.
pub mod Estimates
use p2pool_salvium_observer.Prelude.{
  ℕ, Option, none, some, List, [], ◌∷◌, map, ◌==◌, if◌then◌else◌, length,
}
use p2pool_salvium_observer.Difficulty.{Difficulty}
use p2pool_salvium_observer.Share.Keys.{lookup_address}
use p2pool_salvium_observer.Share.{Address}
use p2pool_salvium_observer.Base58.{to_base58}
use p2pool_salvium_observer.Pplns.{
  Weights, MinerWeight, PplnsResult, heaviest_miners, in_order, estimated_payout,
  share_position_string, uncle_position_string,
}
use p2pool_salvium_observer.Daemon.{Text}

-- A weight stands for its decimal text.
pub record PplnsMinerData : Type 0 where
  pub address : Text
  pub weight : Difficulty
  pub estimated_payout : ℕ
  pub share_count : ℕ
  pub uncle_count : ℕ
  pub share_position : Text
  pub uncle_position : Text

-- `payouts[mw.Address]`
abbrev pub or_zero : Option ℕ → ℕ
or_zero none = 0
or_zero (some n) = n

-- The reward that the estimates are for.
abbrev pub reward_or_default : ℕ → ℕ
reward_or_default reward = if reward == 0 then 8500000000 else reward

module _ (keccak256 : List ℕ → List ℕ) where
  unfoldable pub miner_data : List (Address × ℕ) → MinerWeight → PplnsMinerData
  miner_data payouts mw = record {
    address = to_base58 keccak256 mw.address;
    weight = mw.weight;
    estimated_payout = or_zero (lookup_address mw.address payouts);
    share_count = mw.share_count;
    uncle_count = mw.uncle_count;
    share_position = share_position_string mw;
    uncle_position = uncle_position_string mw;
  }

  -- The rows, for the reward of the last block. `EstimatedPayout` meets the map of the shares in the
  -- order `met`, and the call of `TopMiners` for the rows meets it in `order`.
  unfoldable pub store_pplns : PplnsResult → (met order : Weights) → ℕ → List PplnsMinerData
  store_pplns pplns met order last_block_reward =
      map (miner_data (estimated_payout (in_order met pplns) (reward_or_default last_block_reward)))
        (heaviest_miners (in_order order pplns) (length order))
