-- ===== src/Api/Blocks.antt =====
-- The handlers for lists of blocks, for shares and for one side block (cmd/api/main.go).
pub mod Limits
pub mod Lookups
use p2pool_salvium_observer.Prelude.{
  ℕ, ◌-◌, ◌&&◌, Option, none, some, List, [], ◌∷◌, ◌++◌, if◌then◌else◌, ltb, leb, length, take,
  drop, map,
}
use p2pool_salvium_observer.Word.Int.{ℤ, pos, negsuc}
use p2pool_salvium_observer.Daemon.{Text}
use p2pool_salvium_observer.Daemon.Decimal.{print_uint}
use p2pool_salvium_observer.Cache.Hex.{to_lower, trim_prefix}
use p2pool_salvium_observer.Api.Codes.{codes}
use p2pool_salvium_observer.Api.Json.{
  Json, array, items, nil, of_map, of_slice, into_map, into_slice,
}
use p2pool_salvium_observer.Api.Numbers.{parse_uint, parse_int}
use p2pool_salvium_observer.Api.Server.{
  Host, Response, write_json, write_error, Miss, reply, Plan, through, or_else, finish_json,
  finish_raw, unmarshal, get_text, cache_ttl_short, cache_ttl_medium,
}

-- `n >= 100`; an empty limit is no number.
abbrev pub found_blocks_ttl : Option ℤ → ℕ
found_blocks_ttl (some (pos n)) = if leb 100 n then cache_ttl_medium else cache_ttl_short
found_blocks_ttl (some (negsuc n)) = cache_ttl_short
found_blocks_ttl none = cache_ttl_short

module _ {A : Type 0} where
  -- `blocks[len(blocks)-n:]` and `shares[:n]`, when `n > 0 && n < len(…)`.
  unfoldable pub last_blocks : Option ℤ → List A → List A
  last_blocks (some (pos n)) blocks =
      if ltb 0 n && ltb n (length blocks) then drop (length blocks - n) blocks else blocks
  last_blocks (some (negsuc n)) blocks = blocks
  last_blocks none blocks = blocks

  unfoldable pub first_shares : Option ℤ → List A → List A
  first_shares (some (pos n)) shares =
      if ltb 0 n && ltb n (length shares) then take n shares else shares
  first_shares (some (negsuc n)) shares = shares
  first_shares none shares = shares

  abbrev pub within : (List A → List A) → Option (List A) → Option (List A)
  within f none = none
  within f (some xs) = some (f xs)

abbrev pub or_fifty : Text → Text
or_fifty [] = codes "50"
or_fifty (c ∷ limit) = c ∷ limit

unfoldable pub normalize_id : Text → Text
normalize_id id = map to_lower (trim_prefix id)

module _ {F S : Type 0} (host : Host F S) (s : S) where
  unfoldable pub handle_found_blocks : Text → Response → Plan
  handle_found_blocks limit w = through (codes "api:found_blocks:" ++ limit) w (
      or_else (get_text host s (codes "cache:found_blocks")) (reply (write_json host (array nil) w))
        λ bytes.
          or_else (unmarshal host into_slice bytes)
            (reply (write_error 500 (codes "Invalid found blocks data") w))
            λ blocks.
              finish_json host (found_blocks_ttl (parse_int limit))
                (of_slice (within (last_blocks (parse_int limit)) blocks)) w)

  unfoldable pub handle_side_blocks : Text → Response → Plan
  handle_side_blocks query w =
      let limit = or_fifty query in
      through (codes "api:side_blocks:" ++ limit) w (
        or_else (get_text host s (codes "cache:recent_shares"))
          (reply (write_json host (array nil) w))
          λ bytes.
            or_else (unmarshal host into_slice bytes)
              (reply (write_error 500 (codes "Invalid shares data") w))
              λ shares.
                finish_json host cache_ttl_short
                  (of_slice (within (first_shares (parse_int limit)) shares)) w)

  unfoldable pub handle_share : Text → Response → Plan
  handle_share id w =
      let share_id = normalize_id id in
      through (codes "api:share:" ++ share_id) w (
        or_else (get_text host s (codes "share:data:" ++ share_id))
          (reply (write_error 404 (codes "Share not found") w))
          λ bytes.
            or_else (unmarshal host into_map bytes)
              (reply (write_error 500 (codes "Invalid share data") w))
              λ share. finish_raw host bytes cache_ttl_short (of_map share) w)

  unfoldable pub handle_block_by_height : Text → Response → Plan
  handle_block_by_height height_str w = through (codes "api:block_height:" ++ height_str) w (
      or_else (parse_uint height_str) (reply (write_error 400 (codes "Invalid height") w)) λ height.
        or_else (get_text host s (codes "sideblock:height:" ++ print_uint height))
          (reply (write_error 404 (codes "Block not found at height") w))
          λ template_id.
            or_else (get_text host s (codes "share:data:" ++ template_id))
              (reply (write_error 404 (codes "Share data not found") w))
              λ bytes.
                or_else (unmarshal host into_map bytes)
                  (reply (write_error 500 (codes "Invalid share data") w))
                  λ share. finish_raw host bytes cache_ttl_short (of_map share) w)
