-- ===== src/Cache.antt =====
-- p2pool/cache.go: the map of all shares, and the walk along the parents. Redis is the list of the
-- values of its hash.
pub mod Keyed
pub mod Hex
pub mod Steps
pub mod Walk
use p2pool_salvium_observer.Prelude.{
  ℕ, zero, suc, ◌+◌, Bool, true, false, Option, none, some, List, [], ◌∷◌, if◌then◌else◌,
}
use p2pool_salvium_observer.Outcome.{Result, ok, err, panic, ◌>>=◌}
use p2pool_salvium_observer.Share.{Hash, Share, is_zero_hash}
use p2pool_salvium_observer.Share.Keys.{lookup_hash, insert_hash}
use p2pool_salvium_observer.Pplns.{ShareMap}
use p2pool_salvium_observer.Parser.{parse_cache_entry}

-- The body of the loop of `LoadAllShares`: an entry that does not parse is skipped; a panic ends the
-- program.
abbrev pub keep_share : ShareMap → Result Share → Result ShareMap
keep_share shares (ok share) = ok (insert_hash share.sidechain_id share shares)
keep_share shares (err e) = ok shares
keep_share shares panic = panic

unfoldable pub load_from : List (List ℕ) → ShareMap → Result ShareMap
load_from [] shares = ok shares
load_from (value ∷ values) shares = keep_share shares (parse_cache_entry value) >>= load_from values

unfoldable pub load_all_shares : List (List ℕ) → Result ShareMap
load_all_shares values = load_from values []

-- The end of a walk, or the share to go on with.
abbrev pub next_share : ShareMap → Share → Option Share
next_share shares current =
    if is_zero_hash current.parent then none else lookup_hash current.parent shares

-- `WalkParentChainFromMap`, for a callback that works on a state; `left` is `maxDepth - depth`.
module _ {ℓ} {S : Type ℓ} (shares : ShareMap) (callback : Share → ℕ → S → Result S) where
  unfoldable pub walk_from : ℕ → ℕ → Share → S → Result S
  walk_from zero depth current state = ok state
  walk_from (suc left) depth current state = callback current depth state >>= λ after.
      elim (next_share shares current) [
        | none ↦ ok after
        | some parent ↦ walk_from left (depth + 1) parent after
      ]

  unfoldable pub walk_parent_chain_from_map : Share → ℕ → S → Result S
  walk_parent_chain_from_map share max_depth state = walk_from max_depth 0 share state

-- `ScanShares`: the callback on every share until it fails.
module _ {ℓ} {S : Type ℓ} (callback : Share → S → Result S) where
  unfoldable pub scan_shares : ShareMap → S → Result S
  scan_shares [] state = ok state
  scan_shares ((id, share) ∷ shares) state = callback share state >>= scan_shares shares
