-- ===== src/Cache/Walk.antt =====
-- `WalkParentChain` (p2pool/cache.go), which looks each parent up in Redis, against the walk over a
-- map; and `GetShareByIndex` and `BuildShareMap`.
use p2pool_salvium_observer.Prelude.{
  ℕ, zero, suc, ◌+◌, ◌<◌, ◌≡◌, Option, none, some, List, length, All, if◌then◌else◌,
}
use p2pool_salvium_observer.Outcome.{Result, ok, ◌>>=◌}
use p2pool_salvium_observer.Share.{Share, is_zero_hash}
use p2pool_salvium_observer.Pplns.{ShareMap}
use p2pool_salvium_observer.Parser.{parse_cache_entry}
use p2pool_salvium_observer.Cache.{load_all_shares}
use p2pool_salvium_observer.Cache.Hex.{get_share_by_hash}

-- The slot of an index in Redis, when there is one; `ok none` is the error of an empty slot.
unfoldable pub get_share_by_index : (ℕ → Option (List ℕ)) → ℕ → Result (Option Share)
get_share_by_index slots index = elim (slots index) [
  | none ↦ ok none
  | some value ↦ parse_cache_entry value >>= λ share. ok (some share)
]

unfoldable pub build_share_map : List (List ℕ) → Result ShareMap
build_share_map values = load_all_shares values

-- The parent to go on with; a parent that Redis does not give ends the walk.
unfoldable pub parent_of : List (List ℕ) → Share → Result (Option Share)
parent_of values current =
    if is_zero_hash current.parent then ok none else get_share_by_hash values current.parent

module _ {S : Type 0} (values : List (List ℕ)) (callback : Share → ℕ → S → Result S) where
  unfoldable pub walk_redis : ℕ → ℕ → Share → S → Result S
  walk_redis zero depth current state = ok state
  walk_redis (suc left) depth current state = callback current depth state >>= λ after.
      parent_of values current >>= λ found. elim found [
        | none ↦ ok after
        | some parent ↦ walk_redis left (depth + 1) parent after
      ]

  unfoldable pub walk_parent_chain : Share → ℕ → S → Result S
  walk_parent_chain share max_depth state = walk_redis max_depth 0 share state

-- The id of the parent is a hash of 32 bytes.
abbrev pub HasParent : Share → Type 0
HasParent share = (length share.parent ≡ 32) × All (λ b. b < 256) share.parent
