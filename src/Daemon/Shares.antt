-- ===== src/Daemon/Shares.antt =====
-- `storeShares` (cmd/daemon/main.go): the rows that it writes for the shares of the window.
-- A row is JSON in Redis; the keys are kept with the rows and the times to live are left out.
pub mod Window
use p2pool_salvium_observer.Prelude.{
  ℕ, zero, suc, ◌+◌, Bool, true, false, Option, none, some, List, [], ◌∷◌, ◌++◌, map, ltb,
  if◌then◌else◌, length,
}
use p2pool_salvium_observer.Difficulty.{Difficulty}
use p2pool_salvium_observer.Share.{Hash, Share}
use p2pool_salvium_observer.Share.Keys.{lookup_hash, insert_hash}
use p2pool_salvium_observer.Base58.{to_base58}
use p2pool_salvium_observer.Cache.{next_share}
use p2pool_salvium_observer.Pplns.{ShareMap, pplns_window}
use p2pool_salvium_observer.Daemon.{Text, insert_height}

-- A hash stands for its hexadecimal text, and a difficulty for its decimal text.
pub record ShareData : Type 0 where
  pub template_id : Hash
  pub side_height : ℕ
  pub main_height : ℕ
  pub timestamp : ℕ
  pub difficulty : Difficulty
  pub cumulative_difficulty : Difficulty
  pub miner_address : Text
  pub parent : Hash
  pub uncles : List Hash

abbrev pub or_empty : Option (List Hash) → List Hash
or_empty none = []
or_empty (some ids) = ids

-- What the loop writes: `share:data:ID`, `sideblock:height:H`, the lists by miner, and the recent
-- rows, with the number of shares.
pub record Rows : Type 0 where
  pub by_id : List (Hash × ShareData)
  pub by_height : List (ℕ × Hash)
  pub by_miner : List (Text × List Hash)
  pub recent : List ShareData
  pub count : ℕ

abbrev pub no_rows : Rows
no_rows = record { by_id = []; by_height = []; by_miner = []; recent = []; count = 0 }

module _ (keccak256 : List ℕ → List ℕ) where
  unfoldable pub share_data : Share → ShareData
  share_data s = record {
    template_id = s.sidechain_id;
    side_height = s.sidechain_height;
    main_height = s.mainchain_height;
    timestamp = s.timestamp;
    difficulty = s.difficulty;
    cumulative_difficulty = s.cumulative_difficulty;
    miner_address = to_base58 keccak256 s.miner_wallet;
    parent = s.parent;
    uncles = s.uncles;
  }

  -- `cache:tip`, which has no uncles.
  unfoldable pub tip_data : Share → ShareData
  unfolding share_data
  tip_data tip = record (share_data tip) { uncles = [] }

  -- A round of the loop, up to the move to the parent.
  unfoldable pub store_share : Share → Rows → Rows
  store_share current r =
      let row = share_data current in
      record r {
        by_id = insert_hash current.sidechain_id row r.by_id;
        by_height = insert_height current.sidechain_height current.sidechain_id r.by_height;
        by_miner =
            insert_hash row.miner_address
              (or_empty (lookup_hash row.miner_address r.by_miner) ++ (current.sidechain_id ∷ []))
              r.by_miner;
        recent = if ltb (length r.recent) 100 then r.recent ++ (row ∷ []) else r.recent;
        count = r.count + 1;
      }

  -- The loop; `left` is `PPLNSWindow - count`.
  module _ (shares : ShareMap) where
    unfoldable pub store_from : ℕ → Share → Rows → Rows
    store_from zero current r = r
    store_from (suc left) current r =
        let r' = store_share current r in
        elim (next_share shares current) [ none ↦ r' | some parent ↦ store_from left parent r' ]

    -- The rows, and the one for the tip.
    unfoldable pub store_shares : Share → Rows × ShareData
    unfolding tip_data
    store_shares tip = (store_from pplns_window tip no_rows, tip_data tip)
