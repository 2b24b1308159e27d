-- ===== src/Api/Server.antt =====
-- What the handlers of cmd/api/main.go share: the response, the guarded reads of Redis, and the
-- response cache (`writeJSON`, `writeError`, `writeSanitizedCache`, `corsMiddleware`, and cacheGet
-- and cacheSet around a handler). A handler is the plan of what it does; `run` carries it out.
use p2pool_salvium_observer.Prelude.{
  ℕ, ◌*◌, Bool, Option, none, some, List, [], ◌∷◌, ◌++◌, if◌then◌else◌,
}
use p2pool_salvium_observer.Word.Int.{ℤ}
use p2pool_salvium_observer.Share.{bytes_eq}
use p2pool_salvium_observer.Share.Keys.{insert_hash}
use p2pool_salvium_observer.Daemon.{Text}
use p2pool_salvium_observer.Daemon.Persist.{Redis}
use p2pool_salvium_observer.Expiry.Api.{Key, Store, cache_get, cache_set}
use p2pool_salvium_observer.Api.Codes.{codes}
use p2pool_salvium_observer.Api.Sanitize.{sanitize_addresses}
use p2pool_salvium_observer.Api.Json.{Json}
use p2pool_salvium_observer.Api.Numbers.{parse_uint, parse_int}

-- What the API calls and does not define: `encoding/json` on values and on the body of a lookup
-- (the field `address`), the arithmetic of float64 and a Redis client. An error of json.Marshal or
-- json.Unmarshal is `none`. `float_of` is `strconv.ParseFloat(fmt.Sprintf("%v", v), 64)`, 0 on an
-- error.
pub record Host (F S : Type 0) : Type 0 where
  pub parse : Text → Option (Json F)
  pub marshal : Json F → Option Text
  pub decode_request : Text → Option Text
  pub zero_float : F
  pub hundred : F
  pub float_less : F → F → Bool
  pub float_sub : F → F → F
  pub float_div : F → F → F
  pub float_mul : F → F → F
  pub float_of : Json F → F
  pub to_uint64 : F → ℕ
  pub redis : Redis S
  pub ping : S → Bool

-- The response as far as the handler has written it.
pub record Response : Type 0 where
  pub status : ℕ
  pub headers : List (Text × Text)
  pub body : Text

abbrev pub fresh : Response
fresh = record { status = 200; headers = []; body = [] }

unfoldable pub set_header : Text → Text → Response → Response
set_header name value w = record w { headers = insert_hash name value w.headers }

unfoldable pub write : Text → Response → Response
write bytes w = record w { body = w.body ++ bytes }

abbrev pub json_type : Response → Response
json_type w = set_header (codes "Content-Type") (codes "application/json") w

abbrev pub missed : Response → Response
missed w = set_header (codes "X-Cache") (codes "MISS") w

-- The JSON of a map with the one key `error`, and the newline of an Encoder.
unfoldable pub error_body : Text → Text
error_body msg = (123 ∷ 34 ∷ codes "error") ++ (34 ∷ 58 ∷ 34 ∷ (msg ++ (34 ∷ 125 ∷ 10 ∷ [])))

unfoldable pub write_error : ℕ → Text → Response → Response
write_error status msg w = write (error_body msg) (record (json_type w) { status = status })

unfoldable pub write_sanitized_cache : Text → Response → Response
write_sanitized_cache bytes w =
    write (sanitize_addresses bytes) (set_header (codes "X-Cache") (codes "HIT") (json_type w))

unfoldable pub cors_middleware : Text → (Response → Response) → Response → Response
cors_middleware method next w =
    let w' = set_header (codes "Access-Control-Allow-Headers") (codes "Content-Type") (
      set_header (codes "Access-Control-Allow-Methods") (codes "GET, POST, OPTIONS")
        (set_header (codes "Access-Control-Allow-Origin") (codes "*") w)) in
    if bytes_eq method (codes "OPTIONS") then record w' { status = 200 } else next w'

-- What a handler does when the cache has nothing for it. A panic ends the request.
pub data Miss : Type 0 where
  reply : Response → Miss
  store : Text → ℕ → Response → Miss
  panicked : Miss

-- A response at once, or the cache first.
pub data Plan : Type 0 where
  direct : Response → Plan
  through : Key → Response → Miss → Plan

unfoldable pub settle : ℕ → Key → Store → Miss → Option Response × Store
settle now key cache (reply r) = (some r, cache)
settle now key cache (store bytes ttl r) = (some r, cache_set now key bytes ttl cache)
settle now key cache panicked = (none, cache)

-- `if data, ok := cacheGet(cacheKey); ok { a.writeSanitizedCache(w, data); return }`, and the rest.
unfoldable pub run : ℕ → Store → Plan → Option Response × Store
run now cache (direct r) = (some r, cache)
run now cache (through key w miss) = elim (cache_get now key cache) [
  | some bytes ↦ (some (write_sanitized_cache bytes w), cache)
  | none ↦ settle now key cache miss
]

-- `if err != nil { …; return }`, and the rest.
abbrev pub or_else : {A : Type 0} → Option A → Miss → (A → Miss) → Miss
or_else none failed next = failed
or_else (some a) failed next = next a

-- In nanoseconds.
abbrev pub cache_ttl_short : ℕ
cache_ttl_short = 10 * 1000000000

abbrev pub cache_ttl_medium : ℕ
cache_ttl_medium = 60 * 1000000000

abbrev pub cache_ttl_long : ℕ
cache_ttl_long = 120 * 1000000000

module _ {F S : Type 0} (host : Host F S) where
  unfoldable pub write_json : Json F → Response → Response
  write_json v w = elim (host.marshal v) [
    | none ↦ record (json_type w) { status = 500 }
    | some bytes ↦ write (sanitize_addresses bytes) (json_type w)
  ]

  -- The end of a handler that caches what it marshals, and of one that caches the data it read.
  unfoldable pub finish_json : ℕ → Json F → Response → Miss
  finish_json ttl v w = elim (host.marshal v) [
    | none ↦ reply (write_json v (missed w))
    | some bytes ↦ store bytes ttl (write_json v (missed w))
  ]

  unfoldable pub finish_raw : Text → ℕ → Json F → Response → Miss
  finish_raw bytes ttl v w = store bytes ttl (write_json v (missed w))

  -- `json.Unmarshal` into a variable of a type.
  abbrev pub unmarshal : {A : Type 0} → (Json F → Option A) → Text → Option A
  unmarshal into bytes = elim (host.parse bytes) [ none ↦ none | some v ↦ into v ]

  module _ (s : S) where
    -- `a.redis.Get(ctx, key)` and its methods Uint64, and Int or Int64.
    abbrev pub get_text : Key → Option Text
    get_text key = host.redis.get key s

    unfoldable pub get_uint : Key → Option ℕ
    get_uint key = elim (host.redis.get key s) [ none ↦ none | some t ↦ parse_uint t ]

    unfoldable pub get_int : Key → Option ℤ
    get_int key = elim (host.redis.get key s) [ none ↦ none | some t ↦ parse_int t ]

    -- The value of a key, when it is there and decodes.
    -- The value of a key, when it is there and decodes.
    abbrev pub decoded_at : {A : Type 0} → (Json F → Option A) → Key → Option A
    decoded_at into key = elim (get_text key) [ none ↦ none | some bytes ↦ unmarshal into bytes ]

  -- No handler calls it.
  unfoldable pub cached_redis_get : ℕ → S → Key → ℕ → Store → Option Text × Store
  cached_redis_get now s key ttl cache = elim (cache_get now (codes "redis:" ++ key) cache) [
    | some bytes ↦ (some bytes, cache)
    | none ↦ elim (host.redis.get key s) [
      | none ↦ (none, cache)
      | some result ↦ (some result, cache_set now (codes "redis:" ++ key) result ttl cache)
    ]
  ]
