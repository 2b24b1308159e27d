-- ===== src/Api/Serve/Handlers.antt =====
-- Each handler of cmd/api/main.go keeps to its subject.
mod Pool
mod Blocks
mod Miners
use p2pool_salvium_observer.Prelude.{
  ◌≤◌, refl, Option, none, some, [], ◌∷◌, arith, Bool-cases, Option-cases, inl, inr,
}
use p2pool_salvium_observer.Daemon.{Text}
use p2pool_salvium_observer.Api.Codes.{codes}
use p2pool_salvium_observer.Api.Json.{
  Map, Json, NilMap, of_map, into_map, into_maps, into_slice, into_strings, array, nil, object,
  fields, of_strings, list_of,
}
use p2pool_salvium_observer.Api.Numbers.{parse_uint, parse_uint-lt, parse_int}
use p2pool_salvium_observer.Api.Server.{
  get_uint, Host, Response, fresh, set_header, error_body, json_type, missed, Miss, Plan, unmarshal,
  get_text, cache_ttl_short, cache_ttl_medium, cache_ttl_long,
}
use p2pool_salvium_observer.Api.Pool.{
  assign, number, effort_value, handle_health, handle_pool_info, handle_network_stats,
  handle_pool_stats, handle_pplns, handle_effort, handle_tip, pool_info,
}
use p2pool_salvium_observer.Api.Blocks.{
  handle_found_blocks, handle_side_blocks, handle_share, handle_block_by_height, found_blocks_ttl,
}
use p2pool_salvium_observer.Api.Miners.{
  by_address, miner_info, miner_info_of, handle_miner_info, handle_miner_shares, handle_payouts,
  handle_miner_info_post, handle_miner_shares_post, handle_payouts_post, first_value,
}
use p2pool_salvium_observer.Api.FoundBlock.{
  handle_found_block_details, found_block_miss, find_block,
}
use p2pool_salvium_observer.Api.Stats.{stats_result, handle_stats}
use p2pool_salvium_observer.Api.Serve
use p2pool_salvium_observer.Api.Serve.{Request, plan}
use p2pool_salvium_observer.Api.Serve.Sound.{
  IsSound, Conforms, sanitized-IsClean, or_else-IsSound, decoded-IsSound, error-IsClean,
  json-IsClean, finish_json-IsSound, finish_raw-IsSound,
}
use p2pool_salvium_observer.Api.Serve.Subjects.{
  named, info_of, shares_of, payouts_of, Subject, subject,
}
use p2pool_salvium_observer.Word.Int.{ℤ, pos, negsuc}
use p2pool_salvium_observer.Api.Serve.Handlers.Pool.{
  health-Conforms, pool_info-Conforms, network_stats-Conforms, pool_stats-Conforms, pplns-Conforms,
  effort-Conforms, tip-Conforms, stats-Conforms,
}
use p2pool_salvium_observer.Api.Serve.Handlers.Blocks.{
  found_blocks-Conforms, side_blocks-Conforms, share-Conforms, block_by_height-Conforms,
  found_block-Conforms,
}
use p2pool_salvium_observer.Api.Serve.Handlers.Miners.{
  miner_info-Conforms, miner_shares-Conforms, payouts-Conforms, lookup-Conforms, info_of-Conforms,
  shares_of-Conforms, payouts_of-Conforms,
}

module _ {F S : Type 0} (host : Host F S) (s : S) where
  -- Every handler keeps to its subject's key, to two minutes at most, and to clean bodies.
  pub plan-Conforms :
      (request : Request) → Conforms (subject host request) (plan host s request fresh)
  unfolding subject plan handle_miner_info_post handle_miner_shares_post handle_payouts_post
  plan-Conforms Serve.health = health-Conforms host s
  plan-Conforms Serve.pool_info = pool_info-Conforms host s
  plan-Conforms Serve.network_stats = network_stats-Conforms host s
  plan-Conforms Serve.pool_stats = pool_stats-Conforms host s
  plan-Conforms Serve.pplns = pplns-Conforms host s
  plan-Conforms Serve.effort = effort-Conforms host s
  plan-Conforms Serve.tip = tip-Conforms host s
  plan-Conforms Serve.stats = stats-Conforms host s
  plan-Conforms (Serve.found_blocks limit) = found_blocks-Conforms host s limit
  plan-Conforms (Serve.side_blocks limit) = side_blocks-Conforms host s limit
  plan-Conforms (Serve.share id) = share-Conforms host s id
  plan-Conforms (Serve.block_by_height height_str) = block_by_height-Conforms host s height_str
  plan-Conforms (Serve.found_block height_str) = found_block-Conforms host s height_str
  plan-Conforms (Serve.miner_info addr) = miner_info-Conforms host s addr
  plan-Conforms (Serve.miner_shares addr) = miner_shares-Conforms host s addr
  plan-Conforms (Serve.payouts miner) = payouts-Conforms host s miner
  plan-Conforms (Serve.lookup_info body) =
      lookup-Conforms host s info_of (miner_info_of host s) (host.decode_request body)
        (info_of-Conforms host s)
  plan-Conforms (Serve.lookup_shares body) =
      lookup-Conforms host s shares_of (handle_miner_shares host s) (host.decode_request body)
        (shares_of-Conforms host s)
  plan-Conforms (Serve.lookup_history body) =
      lookup-Conforms host s payouts_of (handle_payouts host s) (host.decode_request body)
        (payouts_of-Conforms host s)
