-- ===== src/Api/Stats.antt =====
-- `handleStats` (cmd/api/main.go): the statistics in the format of cryptonote-nodejs-pool.
pub mod Recent
use mathlib.Core.List.{reverse}
use p2pool_salvium_observer.Prelude.{
  ℕ, ◌-◌, ◌/◌, Option, none, some, List, [], ◌∷◌, ltb, if◌then◌else◌, length, drop, map,
}
use p2pool_salvium_observer.Word.Int.{ℤ, pos, mul_int}
use p2pool_salvium_observer.Share.Keys.{lookup_hash, insert_hash}
use p2pool_salvium_observer.Expiry.Api.{Key}
use p2pool_salvium_observer.Api.Codes.{codes}
use p2pool_salvium_observer.Api.Json.{
  Json, integer, text, array, items, nil, object, fields, Map, NilMap, at, of_maps, into_map,
  into_maps, list_of,
}
use p2pool_salvium_observer.Api.Server.{
  Host, Response, Plan, through, finish_json, unmarshal, get_text, get_uint, get_int, decoded_at,
  cache_ttl_short,
}
use p2pool_salvium_observer.Api.Pool.{put_uint, put_int}

abbrev milliseconds : Option ℤ → Option ℤ
milliseconds none = none
milliseconds (some t) = some (mul_int t 1000)

module _ {F : Type 0} where
  abbrev pub config : Map F
  config =
      (codes "poolHost", text (codes "www.whiskymine.io"))
      ∷ (codes "ports", array nil)
      ∷ (codes "cnAlgorithm", text (codes "randomx"))
      ∷ (codes "coin", text (codes "salvium"))
      ∷ (codes "coinUnits", integer (pos 100000000))
      ∷ (codes "coinDecimalPlaces", integer (pos 8))
      ∷ (codes "coinDifficultyTarget", integer (pos 120))
      ∷ (codes "symbol", text (codes "SAL"))
      ∷ (codes "version", text (codes "p2pool-salvium-observer"))
      ∷ []

  unfoldable pub formatted : NilMap F → Map F
  formatted block =
      (codes "height", at (codes "height") block)
      ∷ (codes "hash", at (codes "hash") block)
      ∷ (codes "time", at (codes "timestamp") block)
      ∷ (codes "difficulty", at (codes "difficulty") block)
      ∷ (codes "reward", at (codes "reward") block)
      ∷ (codes "miner", at (codes "finder") block)
      ∷ []

  -- The last thirty blocks, from the last.
  unfoldable pub recent_blocks : List (NilMap F) → List (Map F)
  recent_blocks all_blocks =
      let start_idx = if ltb 30 (length all_blocks) then length all_blocks - 30 else 0 in
      map formatted (reverse (drop start_idx all_blocks))

  abbrev put_found : Key → Option (Json F) → Map F → Map F
  put_found field none m = m
  put_found field (some v) m = insert_hash field v m

  -- A lookup in a map that may be nil, with its success.
  abbrev found_in : Key → NilMap F → Option (Json F)
  found_in key none = none
  found_in key (some m) = lookup_hash key m

  abbrev put_window : Option (NilMap F) → Map F → Map F
  put_window none m = m
  put_window (some pplns) m =
      put_found (codes "pplnsWindowDuration") (found_in (codes "window_duration") pplns)
        (put_found (codes "pplnsWindowBlocks") (found_in (codes "blocks_included") pplns) m)

  abbrev put_blocks : Option (Option (List (NilMap F))) → Map F → Map F
  put_blocks none m = m
  put_blocks (some all_blocks) m =
      insert_hash (codes "blocks") (array (items (of_maps (recent_blocks (list_of all_blocks))))) m

  abbrev put_difficulty : Option ℕ → Map F → Map F
  put_difficulty none m = m
  put_difficulty (some diff) m =
      insert_hash (codes "hashrate") (integer (pos (diff / 120)))
        (insert_hash (codes "difficulty") (integer (pos diff)) m)

  abbrev last_of : List (NilMap F) → Option (NilMap F)
  last_of [] = none
  last_of (b ∷ []) = some b
  last_of (b ∷ b' ∷ blocks) = last_of (b' ∷ blocks)

  abbrev last_block : Option (NilMap F) → Map F
  last_block none = []
  last_block (some last_found) =
      (codes "height", at (codes "height") last_found)
      ∷ (codes "hash", at (codes "hash") last_found)
      ∷ (codes "timestamp", at (codes "timestamp") last_found)
      ∷ (codes "difficulty", at (codes "difficulty") last_found)
      ∷ (codes "reward", at (codes "reward") last_found)
      ∷ []

abbrev blocks_or_none : {F : Type 0} → Option (Option (List (NilMap F))) → List (NilMap F)
blocks_or_none none = []
blocks_or_none (some blocks) = list_of blocks

module _ {F S : Type 0} (host : Host F S) (s : S) where
  abbrev found_blocks : Option (Option (List (NilMap F)))
  found_blocks = decoded_at host s into_maps (codes "cache:found_blocks")

  unfoldable pub pool_section : Map F
  pool_section =
      let m = put_int (codes "miners") (get_int host s (codes "stats:pool:miners")) [] in
      let m = put_uint (codes "hashrate") (get_uint host s (codes "stats:pool:hashrate")) m in
      let m = put_int (codes "totalBlocks") (get_int host s (codes "stats:pool:blocks_found")) m in
      let m =
        put_int (codes "lastBlockFound")
          (milliseconds (get_int host s (codes "stats:pool:last_found_time"))) m in
      put_blocks found_blocks (put_window (decoded_at host s into_map (codes "cache:pplns:full")) m)

  unfoldable pub network_section : Map F
  network_section =
      put_difficulty (get_uint host s (codes "stats:network:difficulty"))
        (put_uint (codes "height") (get_uint host s (codes "stats:network:height")) [])

  unfoldable pub stats_result : Map F
  stats_result =
      (codes "config", object (fields config))
      ∷ (codes "pool", object (fields pool_section))
      ∷ (codes "network", object (fields network_section))
      ∷ (codes "lastblock", object (fields (last_block (last_of (blocks_or_none found_blocks)))))
      ∷ []

  unfoldable pub handle_stats : Response → Plan
  handle_stats w =
      through (codes "api:stats") w
        (finish_json host cache_ttl_short (object (fields stats_result)) w)
