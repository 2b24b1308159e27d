-- ===== src/Api/Serve.antt =====
-- The requests that the router of cmd/api/main.go hands to a handler, and the whole of the service:
-- the response cache between Redis and the clients. The router itself, gorilla/mux, is not modelled;
-- `routes` is the table that it is given.
pub mod Subjects
pub mod Sound
pub mod Handlers
pub mod Caching
pub mod Answers
use Prim.Native.String.{String}
use p2pool_salvium_observer.Prelude.{ℕ, Option, List, [], ◌∷◌}
use p2pool_salvium_observer.Daemon.{Text}
use p2pool_salvium_observer.Api.Codes.{codes}
use p2pool_salvium_observer.Expiry.Api.{Store}
use p2pool_salvium_observer.Api.Server.{Host, Response, Plan, run, fresh}
use p2pool_salvium_observer.Api.Pool.{
  handle_health, handle_pool_info, handle_network_stats, handle_pool_stats, handle_pplns,
  handle_effort, handle_tip,
}
use p2pool_salvium_observer.Api.Blocks.{
  handle_found_blocks, handle_side_blocks, handle_share, handle_block_by_height,
}
use p2pool_salvium_observer.Api.Miners.{
  handle_miner_info, handle_miner_shares, handle_payouts, handle_miner_info_post,
  handle_miner_shares_post, handle_payouts_post,
}
use p2pool_salvium_observer.Api.FoundBlock.{handle_found_block_details}
use p2pool_salvium_observer.Api.Stats.{handle_stats}

pub data Request : Type 0 where
  health pool_info network_stats pool_stats pplns effort tip stats : Request
  found_blocks side_blocks : Text → Request
  share block_by_height found_block : Text → Request
  miner_info miner_shares payouts : Text → Request
  lookup_info lookup_shares lookup_history : Text → Request

-- A path with its method, and the request that it stands for. The argument is the variable of the
-- path, the `limit` of the query or the body; the router finds the route and the argument.
pub record Route : Type 0 where
  pub path : Text
  pub method : Text
  pub request : Text → Request

abbrev route : String → String → (Text → Request) → Route
route path method request = record { path = codes path; method = codes method; request = request }

unfoldable pub routes : List Route
routes =
    route "/api/health" "GET" (λ _. health)
    ∷ route "/api/pool_info" "GET" (λ _. pool_info)
    ∷ route "/api/network/stats" "GET" (λ _. network_stats)
    ∷ route "/api/pool/stats" "GET" (λ _. pool_stats)
    ∷ route "/api/found_blocks" "GET" (λ v. found_blocks v)
    ∷ route "/api/pool/blocks" "GET" (λ v. found_blocks v)
    ∷ route "/api/pplns" "GET" (λ _. pplns)
    ∷ route "/api/side_blocks_in_window" "GET" (λ _. pplns)
    ∷ route "/api/miner_info/{miner}" "GET" (λ v. miner_info v)
    ∷ route "/api/miner/{miner}/shares" "GET" (λ v. miner_shares v)
    ∷ route "/api/lookup/info" "POST" (λ v. lookup_info v)
    ∷ route "/api/lookup/shares" "POST" (λ v. lookup_shares v)
    ∷ route "/api/lookup/history" "POST" (λ v. lookup_history v)
    ∷ route "/api/share/{id}" "GET" (λ v. share v)
    ∷ route "/api/block_by_id/{id}" "GET" (λ v. share v)
    ∷ route "/api/block_by_height/{height}" "GET" (λ v. block_by_height v)
    ∷ route "/api/side_blocks" "GET" (λ v. side_blocks v)
    ∷ route "/api/redirect/tip" "GET" (λ _. tip)
    ∷ route "/api/payouts/{miner}" "GET" (λ v. payouts v)
    ∷ route "/api/pool/effort" "GET" (λ _. effort)
    ∷ route "/api/found_block/{height}" "GET" (λ v. found_block v)
    ∷ route "/api/stats" "GET" (λ _. stats)
    ∷ []

module _ {F S : Type 0} (host : Host F S) where
  -- The handler of the request.
  unfoldable pub plan : S → Request → Response → Plan
  plan s health = handle_health host s
  plan s pool_info = handle_pool_info host s
  plan s network_stats = handle_network_stats host s
  plan s pool_stats = handle_pool_stats host s
  plan s (found_blocks limit) = handle_found_blocks host s limit
  plan s pplns = handle_pplns host s
  plan s (miner_info miner) = handle_miner_info host s miner
  plan s (miner_shares miner) = handle_miner_shares host s miner
  plan s (lookup_info body) = handle_miner_info_post host s body
  plan s (lookup_shares body) = handle_miner_shares_post host s body
  plan s (lookup_history body) = handle_payouts_post host s body
  plan s (share id) = handle_share host s id
  plan s (block_by_height height) = handle_block_by_height host s height
  plan s (side_blocks limit) = handle_side_blocks host s limit
  plan s tip = handle_tip host s
  plan s (payouts miner) = handle_payouts host s miner
  plan s effort = handle_effort host s
  plan s (found_block height) = handle_found_block_details host s height
  plan s stats = handle_stats host s

  -- One request at a time and a state of Redis; the response is `none` after a panic.
  unfoldable pub serve : ℕ → S → Request → Store → Option Response × Store
  serve now s request cache = run now cache (plan s request fresh)
