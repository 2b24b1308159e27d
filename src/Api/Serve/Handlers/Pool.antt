-- ===== src/Api/Serve/Handlers/Pool.antt =====
-- The handlers of cmd/api/main.go for the pool and the network keep to their subjects.
use p2pool_salvium_observer.Prelude.{refl, Option, none, some, arith, Bool-cases, inl, inr}
use p2pool_salvium_observer.Daemon.{Text}
use p2pool_salvium_observer.Api.Codes.{codes}
use p2pool_salvium_observer.Api.Json.{Json, NilMap, of_map, into_map, object, fields}
use p2pool_salvium_observer.Api.Server.{
  get_uint, Host, fresh, error_body, Miss, get_text, cache_ttl_short, cache_ttl_long,
}
use p2pool_salvium_observer.Api.Pool.{
  assign, number, effort_value, handle_health, handle_pool_info, handle_network_stats,
  handle_pool_stats, handle_pplns, handle_effort, handle_tip, pool_info,
}
use p2pool_salvium_observer.Api.Stats.{stats_result, handle_stats}
use p2pool_salvium_observer.Api.Serve
use p2pool_salvium_observer.Api.Serve.{Request, plan}
use p2pool_salvium_observer.Api.Serve.Sound.{
  IsSound, Conforms, decoded-IsSound, error-IsClean, json-IsClean, finish_json-IsSound,
  finish_raw-IsSound,
}
use p2pool_salvium_observer.Api.Serve.Subjects.{subject}

assign-IsSound :
    {F : Type 0} (v : Option (Json F)) (key : Text) (m : NilMap F) (next : NilMap F → Miss)
    → ((m : NilMap F) → IsSound (next m))
    → IsSound (assign v key m next)
assign-IsSound none key m next h = h m
assign-IsSound (some v) key none next h = tt
assign-IsSound (some v) key (some m) next h = h _

module _ {F S : Type 0} (host : Host F S) (s : S) where
  pub health-Conforms : Conforms (subject host Serve.health) (plan host s Serve.health fresh)
  unfolding subject plan handle_health error_body
  health-Conforms = elim (Bool-cases (host.ping s)) [
    | inl up ↦ rw up (json-IsClean host _ fresh refl)
    | inr down ↦ rw down (error-IsClean 503 (codes "Redis unavailable") (omega arith))
  ]

  pub pool_info-Conforms :
      Conforms (subject host Serve.pool_info) (plan host s Serve.pool_info fresh)
  unfolding subject plan handle_pool_info
  pool_info-Conforms = (
    refl,
    refl,
    tt,
    finish_json-IsSound host cache_ttl_short (object (fields (pool_info host s))) (omega arith),
  )

  pub network_stats-Conforms :
      Conforms (subject host Serve.network_stats) (plan host s Serve.network_stats fresh)
  unfolding subject plan handle_network_stats error_body
  network_stats-Conforms = (
    refl,
    refl,
    tt,
    decoded-IsSound host (get_text host s _) _ into_map _ _ (error-IsClean 404 _ (omega arith))
        (omega arith)
        λ bytes value. finish_json-IsSound host cache_ttl_short (of_map value) (omega arith),
  )

  pub pool_stats-Conforms :
      Conforms (subject host Serve.pool_stats) (plan host s Serve.pool_stats fresh)
  unfolding subject plan handle_pool_stats error_body
  pool_stats-Conforms = (
    refl,
    refl,
    tt,
    decoded-IsSound host (get_text host s _) _ into_map _ _ (error-IsClean 404 _ (omega arith))
        (omega arith)
        λ bytes value. assign-IsSound (number (get_uint host s _)) _ value _ λ with_hashrate.
          assign-IsSound (effort_value host (get_text host s _)) _ with_hashrate _
            λ full. finish_json-IsSound host cache_ttl_short (of_map full) (omega arith),
  )

  pub pplns-Conforms : Conforms (subject host Serve.pplns) (plan host s Serve.pplns fresh)
  unfolding subject plan handle_pplns error_body
  pplns-Conforms = (
    refl,
    refl,
    tt,
    decoded-IsSound host (get_text host s _) _ into_map _ _ (error-IsClean 404 _ (omega arith))
        (omega arith)
        λ bytes value. finish_raw-IsSound host bytes cache_ttl_long (of_map value) (omega arith),
  )

  pub effort-Conforms : Conforms (subject host Serve.effort) (plan host s Serve.effort fresh)
  unfolding subject plan handle_effort error_body
  effort-Conforms = (
    refl,
    refl,
    tt,
    decoded-IsSound host (get_text host s _) _ into_map _ _ (error-IsClean 404 _ (omega arith))
        (omega arith)
        λ bytes value. finish_raw-IsSound host bytes cache_ttl_short (of_map value) (omega arith),
  )

  pub tip-Conforms : Conforms (subject host Serve.tip) (plan host s Serve.tip fresh)
  unfolding subject plan handle_tip error_body
  tip-Conforms = (
    refl,
    refl,
    tt,
    decoded-IsSound host (get_text host s _) _ into_map _ _ (error-IsClean 404 _ (omega arith))
        (omega arith)
        λ bytes value. finish_raw-IsSound host bytes cache_ttl_short (of_map value) (omega arith),
  )

  pub stats-Conforms : Conforms (subject host Serve.stats) (plan host s Serve.stats fresh)
  unfolding subject plan handle_stats
  stats-Conforms = (
    refl,
    refl,
    tt,
    finish_json-IsSound host cache_ttl_short (object (fields (stats_result host s))) (omega arith),
  )
