-- ===== src/Daemon/Cycle/Synced.antt =====
-- A cycle of the daemon with shares reaches a window.
use p2pool_salvium_observer.Prelude.{ℕ, ◌≤◌, ◌≡◌, refl, Option, some, ◌∷◌}
use p2pool_salvium_observer.Difficulty.{Difficulty}
use p2pool_salvium_observer.Share.{Hash, Share}
use p2pool_salvium_observer.Pplns.{ShareMap, PplnsResult, calculate_pplns, finish, pplns_window}
use p2pool_salvium_observer.Pplns.Total.{calculate_pplns_total}
use p2pool_salvium_observer.Pplns.Counts.{calculate_pplns-counts}
use p2pool_salvium_observer.Daemon.Tip.{IsAmong, IsHighest, find_tip_lem}
use p2pool_salvium_observer.Daemon.Cycle.{Chain, next_difficulty, sync_window}

-- A cycle with at least one share reaches a window of 1 to 2160 shares, which CalculatePPLNS
-- computes for the cycle's difficulty from a share of the map that none is above.
pub sync_window_lem :
    (id : Hash) (share : Share) (shares : ShareMap) (diff : Option Difficulty) (reward : Option ℕ)
    (chain : Chain)
    → let all = (id, share) ∷ shares in
      let (chain', result) = sync_window (some all) diff reward chain in
      (tip : Share) × (r : PplnsResult) × (result ≡ some (tip, r))
      × IsAmong tip all
      × IsHighest tip all
      × (calculate_pplns all tip chain'.mainchain_diff ≡ some r)
      × (1 ≤ r.blocks_included)
      × (r.blocks_included ≤ pplns_window)
unfolding sync_window
sync_window_lem id share shares diff reward chain =
    let all = (id, share) ∷ shares in
    let (tip, found, among, highest) = find_tip_lem id share shares in
    let diff' = next_difficulty diff chain.mainchain_diff in
    let (w, _, computed) = calculate_pplns_total all tip diff' in
    let counts = calculate_pplns-counts all tip diff' (finish tip w) computed in
    rw (sync_window, found, computed)
      (tip, finish tip w, refl, among, highest, computed, counts.0, counts.1)
