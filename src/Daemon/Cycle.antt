-- ===== src/Daemon/Cycle.antt =====
-- `syncCycle` (cmd/daemon/main.go) up to the window: the shares, the tip, the difficulty and the
-- reward of the main chain, and `CalculatePPLNS`.
pub mod Synced
use p2pool_salvium_observer.Prelude.{
  ℕ, ◌≡◌, Bool, Option, none, some, List, [], ◌∷◌, ◌==◌, if◌then◌else◌,
}
use p2pool_salvium_observer.Difficulty.{Difficulty}
use p2pool_salvium_observer.Share.{Share}
use p2pool_salvium_observer.Pplns.{ShareMap, PplnsResult, calculate_pplns}
use p2pool_salvium_observer.Daemon.Tip.{find_tip}

-- The fields of the daemon that a cycle sets up to there.
pub record Chain : Type 0 where
  pub shares : ShareMap
  pub mainchain_diff : Difficulty
  pub last_block_reward : ℕ

-- The difficulty from what `GetDifficulty` replies, or else the last one, with a fallback.
unfoldable pub next_difficulty : Option Difficulty → Difficulty → Difficulty
next_difficulty none last = if last.lo == 0 then record { lo = 5000000000; hi = 0 } else last
next_difficulty (some diff) last = diff

-- The reward from what `GetLastBlockHeader` replies, or else the last one.
unfoldable pub next_reward : Option ℕ → ℕ → ℕ
next_reward none last = last
next_reward (some reward) last = reward

-- The state, and the tip with its window where the cycle goes on to store results. `loaded` is what
-- `LoadAllShares` gives.
unfoldable pub sync_window :
    Option ShareMap → Option Difficulty → Option ℕ → Chain → Chain × Option (Share × PplnsResult)
sync_window none diff reward chain = (chain, none)
sync_window (some shares) diff reward chain = elim (find_tip shares) [
  | none ↦ (record chain { shares = shares }, none)
  | some tip ↦
      (let mainchain_diff = next_difficulty diff chain.mainchain_diff in
        (
          record {
            shares = shares;
            mainchain_diff = mainchain_diff;
            last_block_reward = next_reward reward chain.last_block_reward;
          },
          elim (calculate_pplns shares tip mainchain_diff) [ none ↦ none | some r ↦ some (tip, r) ],
        ))
]
