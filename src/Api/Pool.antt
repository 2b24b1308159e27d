-- ===== src/Api/Pool.antt =====
-- The handlers for the pool and the network as a whole (cmd/api/main.go).
pub mod NilStats
use p2pool_salvium_observer.Prelude.{ℕ, Option, none, some, List, [], ◌∷◌, ◌++◌, if◌then◌else◌}
use p2pool_salvium_observer.Word.Int.{ℤ, pos}
use p2pool_salvium_observer.Share.Keys.{insert_hash}
use p2pool_salvium_observer.Daemon.{Text}
use p2pool_salvium_observer.Expiry.Api.{Key}
use p2pool_salvium_observer.Api.Codes.{codes}
use p2pool_salvium_observer.Api.Json.{
  Json, null, integer, text, object, fields, Map, NilMap, of_map, into_map,
}
use p2pool_salvium_observer.Api.Server.{
  Host, Response, write_json, write_error, Miss, reply, panicked, Plan, direct, through, or_else,
  finish_json, finish_raw, unmarshal, get_text, get_uint, get_int, cache_ttl_short, cache_ttl_long,
}

module _ {F : Type 0} where
  -- `result[field] = n`, when the number was read.
  abbrev pub put_uint : Key → Option ℕ → Map F → Map F
  put_uint field none m = m
  put_uint field (some n) m = insert_hash field (integer (pos n)) m

  -- `if m != nil { result[field] = m }`
  abbrev pub put_map : Key → NilMap F → Map F → Map F
  put_map field none m = m
  put_map field (some v) m = insert_hash field (object (fields v)) m

  -- The variable that `json.Unmarshal` was to fill, when its error is not looked at.
  abbrev pub or_nil : Option (NilMap F) → NilMap F
  or_nil none = none
  or_nil (some m) = m

abbrev pub put_int : {F : Type 0} → Key → Option ℤ → Map F → Map F
put_int field none m = m
put_int field (some n) m = insert_hash field (integer n) m

-- An assignment to an entry of a nil map is a panic.
abbrev pub assign : {F : Type 0} → Option (Json F) → Key → NilMap F → (NilMap F → Miss) → Miss
assign none field m next = next m
assign (some v) field none next = panicked
assign (some v) field (some m) next = next (some (insert_hash field v m))

abbrev pub number : {F : Type 0} → Option ℕ → Option (Json F)
number none = none
number (some n) = some (integer (pos n))

-- The effort, when Redis has one.
abbrev pub effort_value : {F S : Type 0} → Host F S → Option Text → Option (Json F)
effort_value host none = none
effort_value host (some bytes) = some (of_map (or_nil (unmarshal host into_map bytes)))

module _ {F S : Type 0} (host : Host F S) (s : S) where
  -- A map read from Redis, nil if it is missing or does not decode.
  unfoldable pub read_map : Key → NilMap F
  read_map key = elim (get_text host s key) [
    | none ↦ none
    | some bytes ↦ or_nil (unmarshal host into_map bytes)
  ]

  unfoldable pub handle_health : Response → Plan
  handle_health w =
      if host.ping s
      then direct (write_json host (object (fields ((codes "status", text (codes "ok")) ∷ []))) w)
      else direct (write_error 503 (codes "Redis unavailable") w)

  unfoldable pub pool_info : Map F
  pool_info =
      let m = insert_hash (codes "sidechain_id") (text (codes "default")) [] in
      let m =
        put_uint (codes "sidechain_height") (get_uint host s (codes "stats:sidechain:height")) m in
      let m =
        put_uint (codes "sidechain_difficulty")
          (get_uint host s (codes "stats:sidechain:difficulty")) m in
      let m = put_uint (codes "pool_hashrate") (get_uint host s (codes "stats:pool:hashrate")) m in
      let m = put_int (codes "miners") (get_int host s (codes "stats:pool:miners")) m in
      let m = put_int (codes "blocks_found") (get_int host s (codes "stats:pool:blocks_found")) m in
      let m =
        put_uint (codes "mainchain_height") (get_uint host s (codes "stats:network:height")) m in
      let m =
        put_uint (codes "mainchain_difficulty") (get_uint host s (codes "stats:network:difficulty"))
          m in
      let m = put_uint (codes "block_reward") (get_uint host s (codes "stats:network:reward")) m in
      let m =
        put_uint (codes "tx_pool_size") (get_uint host s (codes "stats:network:tx_pool_size")) m in
      let m = put_uint (codes "total_supply") (get_uint host s (codes "stats:network:supply")) m in
      let m =
        put_uint (codes "circulating_supply") (get_uint host s (codes "stats:network:circulating"))
          m in
      let m = put_uint (codes "staked_supply") (get_uint host s (codes "stats:network:staked")) m in
      let m = put_uint (codes "burned_supply") (get_uint host s (codes "stats:network:burned")) m in
      let m = put_map (codes "pplns_window") (read_map (codes "cache:pplns:window")) m in
      let m = put_map (codes "effort") (read_map (codes "stats:pool:effort")) m in
      let m =
        put_int (codes "last_block_found_time")
          (get_int host s (codes "stats:pool:last_found_time")) m in
      put_uint (codes "last_block_found") (get_uint host s (codes "stats:pool:last_found_height")) m

  unfoldable pub handle_pool_info : Response → Plan
  handle_pool_info w =
      through (codes "api:pool_info") w
        (finish_json host cache_ttl_short (object (fields pool_info)) w)

  unfoldable pub handle_network_stats : Response → Plan
  handle_network_stats w = through (codes "api:network:stats") w (
      or_else (get_text host s (codes "stats:network"))
        (reply (write_error 404 (codes "Network stats not available") w))
        λ bytes.
          or_else (unmarshal host into_map bytes)
            (reply (write_error 500 (codes "Invalid stats data") w))
            λ stats. finish_json host cache_ttl_short (of_map stats) w)

  unfoldable pub handle_pool_stats : Response → Plan
  handle_pool_stats w = through (codes "api:pool:stats") w (
      or_else (get_text host s (codes "stats:pool"))
        (reply (write_error 404 (codes "Pool stats not available") w))
        λ bytes.
          or_else (unmarshal host into_map bytes)
            (reply (write_error 500 (codes "Invalid stats data") w))
            λ stats.
              assign (number (get_uint host s (codes "stats:pool:hashrate"))) (codes "hashrate")
                stats
                λ stats.
                  assign (effort_value host (get_text host s (codes "stats:pool:effort")))
                    (codes "effort") stats
                    λ stats. finish_json host cache_ttl_short (of_map stats) w)

  -- handlePPLNS, handleEffort and handleTip differ in the keys, the time to live and the messages.
  abbrev pub stored_map : Key → Key → ℕ → Text → Text → Response → Plan
  stored_map cache_key key ttl missing invalid w = through cache_key w (
      or_else (get_text host s key) (reply (write_error 404 missing w)) λ bytes.
        or_else (unmarshal host into_map bytes) (reply (write_error 500 invalid w))
          λ value. finish_raw host bytes ttl (of_map value) w)

  unfoldable pub handle_pplns : Response → Plan
  handle_pplns =
      stored_map (codes "api:pplns") (codes "cache:pplns:full") cache_ttl_long
        (codes "PPLNS data not available") (codes "Invalid PPLNS data")

  unfoldable pub handle_effort : Response → Plan
  handle_effort =
      stored_map (codes "api:pool:effort") (codes "stats:pool:effort") cache_ttl_short
        (codes "Effort data not available") (codes "Invalid effort data")

  unfoldable pub handle_tip : Response → Plan
  handle_tip =
      stored_map (codes "api:tip") (codes "cache:tip") cache_ttl_short
        (codes "Tip data not available") (codes "Invalid tip data")
