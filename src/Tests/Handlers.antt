-- ===== src/Tests/Handlers.antt =====
-- The handlers of the HTTP API on a small database.
use mathlib.Core.List.{Perm}
use p2pool_salvium_observer.Prelude.{
  ℕ, ◌-◌, ◌≡◌, ◌≤◌, refl, Option, none, some, List, [], ◌∷◌, ◌++◌, arith, length, replicate, All,
  get_elem?,
}
use mathlib.Core.Option
use p2pool_salvium_observer.Share.{bytes_eq}
use p2pool_salvium_observer.Base58.{truncate_address}
use p2pool_salvium_observer.Sorting.{exchange_sort}
use p2pool_salvium_observer.Sorting.Order.{IsDescending}
use p2pool_salvium_observer.Daemon.{Text}
use p2pool_salvium_observer.Daemon.Decimal.{print_uint, print_digits, scan_digits}
use p2pool_salvium_observer.Daemon.Persist.{payouts_key, store_payouts}
use p2pool_salvium_observer.Daemon.Payouts.{MinerPayouts}
use p2pool_salvium_observer.Expiry.Api.{Store, CachedEntry, cache_get, cache_set}
use p2pool_salvium_observer.Tests.Redis.{Database, redis, redis-IsRedis}
use p2pool_salvium_observer.Tests.Codecs.{codecs}
use p2pool_salvium_observer.Api.Codes.{codes}
use p2pool_salvium_observer.Api.Sanitize.Matches.{IsMatch}
use p2pool_salvium_observer.Api.Json.{
  Map, Json, array, items, NilMap, at, into_maps, into_each, into_map, into_snapshots,
  into_each_field, into_strings, into_string,
}
use p2pool_salvium_observer.Api.Numbers.{parse_uint}
use p2pool_salvium_observer.Api.Server.{
  Response, fresh, write, write_json, write_sanitized_cache, store, through, run, settle,
  finish_json, get_uint, cache_ttl_short, cache_ttl_medium, set_header,
}
use p2pool_salvium_observer.Api.Miners.{first_value, handle_payouts}
use p2pool_salvium_observer.Api.FoundBlock.{
  handle_found_block_details, found_block_miss, find_block, is_height, block_details, with_effort,
  read_snapshot, block_payouts, pays_more,
}
use p2pool_salvium_observer.Api.FoundBlock.{amount}
use p2pool_salvium_observer.Api.FoundBlock.Shown.{Aligned, shown_payouts_lem}
use p2pool_salvium_observer.Api.Blocks.{handle_found_blocks}
use p2pool_salvium_observer.Api.Blocks.Limits.{handle_found_blocks-limit}
use p2pool_salvium_observer.Api.Miners.Lookups.{payouts_answer, handle_payouts-store_payouts}
use p2pool_salvium_observer.Api.Pool.NilStats.{pool_stats-panics}
use p2pool_salvium_observer.Api.Stats.{recent_blocks, formatted}
use p2pool_salvium_observer.Api.Stats.Recent.{recent_blocks_lem}
use p2pool_salvium_observer.Api.Serve
use p2pool_salvium_observer.Api.Serve.{Request, plan, serve}
use p2pool_salvium_observer.Api.Serve.Subjects.{subject, subject_key, one_block}
use p2pool_salvium_observer.Api.Serve.Caching.{IsStored, start, served}
use p2pool_salvium_observer.Api.Serve.Answers.{serve-hides_addresses, hit-IsStored, serve-again}
use p2pool_salvium_observer.Tests.Api.{block_of, host, long, shortened, quote, sanitizing}

abbrev database : Database
database =
    (codes "cache:found_blocks", codes "blocks")
    ∷ (codes "cache:pplns_snapshots", codes "snapshots")
    ∷ (codes "stats:pool", codes "nothing")
    ∷ (codes "stats:pool:hashrate", codes "5")
    ∷ (codes "cache:recent_shares", codes "blocks")
    ∷ []

running : Unit {0}
unfolding serve run settle parse_uint scan_digits print_uint print_digits sanitizing
running = tt

-- The handlers at work; the 007 is looked up among the snapshots as it was written.
abbrev padded : Request
padded = Serve.found_block (codes "007")

abbrev plain : Request
plain = Serve.found_block (codes "7")

abbrev answer : Text → Response
answer body = record {
  status = 200;
  headers = (codes "X-Cache", codes "MISS") ∷ (codes "Content-Type", codes "application/json") ∷ [];
  body = body;
}

details : Unit {0}
unfolding running handle_found_block_details found_block_miss find_block is_height at into_maps
    into_each into_map block_details with_effort read_snapshot into_snapshots into_each_field
    into_strings into_string block_payouts finish_json write_json write set_header bytes_eq
    exchange_sort plan
details = tt

padded-plan :
    plan host database padded fresh
    ≡ through
        (subject_key (one_block 7))
        fresh
        (store (codes "block ") cache_ttl_medium (answer (codes "block ")))
unfolding details
padded-plan = refl

plain-plan :
    plan host database plain fresh
    ≡ through (subject_key (one_block 7)) fresh (
        store
          (codes "block pplns_snapshot ")
          cache_ttl_medium
          (answer (codes "block pplns_snapshot ")))
unfolding details
plain-plan = refl

-- After a request for 007 a request for 7 gets the answer without the snapshot for a minute.
serve-again_example :
    (serve host 5 database plain (serve host 0 database padded []).1).0
    ≡ some (write_sanitized_cache (codes "block ") fresh)
unfolding cache_get
serve-again_example =
    serve-again host 0 5 cache_ttl_medium database database padded plain (one_block 7) []
      (codes "block ") (answer (codes "block ")) _ refl padded-plan plain-plan

abbrev with_address : Database
with_address = (payouts_key (codes "m"), quote ++ (long ++ quote)) ∷ []

serve-hides_addresses_example : ¬ IsMatch quote shortened quote
unfolding details cache_get handle_payouts first_value payouts_key
serve-hides_addresses_example =
    serve-hides_addresses host 0 with_address (Serve.payouts (codes "m")) []
      (answer (quote ++ (shortened ++ quote))) quote shortened quote refl refl

abbrev kept : Store
kept = cache_set 0 (subject_key (one_block 7)) (codes "block ") cache_ttl_medium []

hit-IsStored_example :
    (entry : CachedEntry) × (entry.bytes ≡ codes "block ")
    × (5 ≤ entry.expires)
    × IsStored host 0 (one_block 7) entry
unfolding details cache_get cache_set subject
hit-IsStored_example =
    hit-IsStored host 0 5 database plain (one_block 7) kept (codes "block ")
      (served 0 0 database padded [] kept (start 0) (omega arith) refl) (omega arith) refl refl

abbrev front : List (Json ℕ)
front = block_of 6 ∷ []

abbrev back : List (Json ℕ)
back = block_of 7 ∷ block_of 8 ∷ []

handle_found_blocks-limit_example :
    handle_found_blocks host database (print_uint 2) fresh
    ≡ through
        (codes "api:found_blocks:" ++ print_uint 2)
        fresh
        (finish_json host cache_ttl_short (array (items back)) fresh)
unfolding bytes_eq
handle_found_blocks-limit_example =
    handle_found_blocks-limit host database 2 front back (codes "blocks") (omega arith)
      (omega arith) (omega arith) refl refl refl

pool_stats-panics_example :
    ◌≡◌ {A = Option Response × Store} (serve host 0 database Serve.pool_stats []) (none, [])
unfolding bytes_eq cache_get get_uint parse_uint scan_digits
pool_stats-panics_example =
    pool_stats-panics host 0 database [] (codes "nothing") 5 refl refl refl refl

abbrev stored_miners : MinerPayouts
stored_miners = (codes "m", []) ∷ []

handle_payouts-store_payouts_example :
    handle_payouts host
      (store_payouts redis codecs.payouts stored_miners database)
      (codes "m")
      fresh
    ≡ through
        (codes "api:payouts:" ++ codes "m")
        fresh
        (payouts_answer host codecs.payouts (some []))
unfolding bytes_eq payouts_key truncate_address
handle_payouts-store_payouts_example =
    handle_payouts-store_payouts host codecs.payouts stored_miners database (codes "m")
      redis-IsRedis ((omega arith, refl), tt) ((omega arith, refl), tt)
      (((omega arith, refl), tt), tt) refl refl

abbrev miners : Database
miners = (payouts_key (codes "a"), codes "blocks") ∷ (payouts_key (codes "b"), codes "blocks") ∷ []

abbrev the_keys : List Text
the_keys = payouts_key (codes "a") ∷ payouts_key (codes "b") ∷ []

any_number : {A : Type 0} (xs : List A) → All (λ x. Unit {0}) xs
any_number [] = tt
any_number (x ∷ xs) = (tt, any_number xs)

shown_payouts_lem_example :
    let shown = exchange_sort (pays_more host) (block_payouts host miners 7 the_keys) in
    (chosen : List (Map ℕ)) × Aligned host miners 7 the_keys chosen
    × Perm shown chosen
    × IsDescending (λ p. amount host p) shown
shown_payouts_lem_example =
    shown_payouts_lem host miners 7 the_keys (λ a. Unit {0}) (λ a. a) (λ a b _ _. refl)
      (any_number (block_payouts host miners 7 the_keys))

abbrev many_blocks : List (NilMap ℕ)
many_blocks = replicate 31 none ++ (some [] ∷ [])

recent_blocks_lem_example :
    get_elem? (recent_blocks many_blocks) 0
    ≡ Option.map formatted (get_elem? many_blocks (length many_blocks - 1 - 0))
recent_blocks_lem_example = recent_blocks_lem many_blocks 0 (omega arith) (omega arith)
