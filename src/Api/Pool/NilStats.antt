-- ===== src/Api/Pool/NilStats.antt =====
-- handlePoolStats (cmd/api/main.go) on statistics that decode to a nil map.
use p2pool_salvium_observer.Prelude.{ℕ, ◌≡◌, refl, none, some}
use p2pool_salvium_observer.Daemon.{Text}
use p2pool_salvium_observer.Expiry.Api.{Store, cache_get}
use p2pool_salvium_observer.Api.Codes.{codes}
use p2pool_salvium_observer.Api.Json.{null, into_map}
use p2pool_salvium_observer.Api.Server.{Host, run, settle, get_uint, or_else, unmarshal}
use p2pool_salvium_observer.Api.Pool.{handle_pool_stats}
use p2pool_salvium_observer.Api.Serve
use p2pool_salvium_observer.Api.Serve.{plan, serve}

-- Where Redis has JSON null in stats:pool and a number in stats:pool:hashrate, a request for the
-- pool statistics that the cache does not answer panics, with no response and the cache as it was.
pub pool_stats-panics :
    {F S : Type 0} (host : Host F S) (now : ℕ) (s : S) (cache : Store) (bytes : Text) (n : ℕ)
    → cache_get now (codes "api:pool:stats") cache ≡ none
    → host.redis.get (codes "stats:pool") s ≡ some bytes
    → host.parse bytes ≡ some null
    → get_uint host s (codes "stats:pool:hashrate") ≡ some n
    → serve host now s Serve.pool_stats cache ≡ (none, cache)
unfolding serve plan handle_pool_stats run settle into_map
pool_stats-panics host now s cache bytes n absent stored parsed hashrate =
    rw
      (
        serve, plan, handle_pool_stats, run, absent, stored, or_else, unmarshal, parsed, into_map,
        hashrate,
      )
      refl
