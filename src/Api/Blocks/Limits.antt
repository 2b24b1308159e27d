-- ===== src/Api/Blocks/Limits.antt =====
-- The limits of handleFoundBlocks and handleSideBlocks (cmd/api/main.go).
use p2pool_salvium_observer.Prelude.{
  ℕ, ◌-◌, ◌<◌, ◌^◌, ◌≡◌, refl, ap, true, some, List, [], ◌∷◌, ◌++◌, arith, length, length-append,
  take-length-append, drop-length-append, leb, if◌then◌else◌, lt→ltb,
}
use p2pool_salvium_observer.Word.Int.{pos}
use p2pool_salvium_observer.Daemon.{Text}
use p2pool_salvium_observer.Daemon.Decimal.{print_uint, starts_digit}
use p2pool_salvium_observer.Api.Codes.{codes}
use p2pool_salvium_observer.Api.Json.{Json, array, items, elements, into_slice}
use p2pool_salvium_observer.Api.Numbers.{parse_int-print_uint, print_uint-starts_digit}
use p2pool_salvium_observer.Api.Server.{
  Host, fresh, through, finish_json, or_else, unmarshal, cache_ttl_short, cache_ttl_medium,
}
use p2pool_salvium_observer.Api.Blocks.{
  last_blocks, first_shares, or_fifty, handle_found_blocks, handle_side_blocks,
}

elements-items : {F : Type 0} (vs : List (Json F)) → elements (items vs) ≡ vs
elements-items [] = refl
elements-items (v ∷ vs) = ap (λ l. v ∷ l) (elements-items vs)

module _ {A : Type 0} where
  last_blocks-append :
      (older newest : List A) (n : ℕ)
      → length newest ≡ n
      → 0 < n
      → 0 < length older
      → last_blocks (some (pos n)) (older ++ newest) ≡ newest
  unfolding last_blocks
  last_blocks-append older newest n size some_new some_old =
      let total = length-append older newest in
      let cut : length (older ++ newest) - n ≡ length older = omega (arith, total, size) in
      rw (lt→ltb 0 n some_new, lt→ltb n (length (older ++ newest)) (omega (arith, total, size)))
        (rw cut (drop-length-append older newest))

  first_shares-append :
      (newest older : List A) (n : ℕ)
      → length newest ≡ n
      → 0 < n
      → 0 < length older
      → first_shares (some (pos n)) (newest ++ older) ≡ newest
  unfolding first_shares
  first_shares-append newest older n size some_new some_old =
      let total = length-append newest older in
      rw (lt→ltb 0 n some_new, lt→ltb n (length (newest ++ older)) (omega (arith, total, size)))
        (rw (← size) (take-length-append newest older))

or_fifty-print_uint : (t : Text) → starts_digit t ≡ true → or_fifty t ≡ t
or_fifty-print_uint [] h = absurd (ground arith)
or_fifty-print_uint (c ∷ t) h = refl

module _ {F S : Type 0} (host : Host F S) (s : S) where
  -- With a positive limit n below the number of found blocks in Redis, handleFoundBlocks answers
  -- with the last n of the stored array in their order when the cache does not, and keeps that for
  -- a minute if n is 100 or more and else for ten seconds.
  pub handle_found_blocks-limit :
      (n : ℕ) (older newest : List (Json F)) (bytes : Text)
      → 0 < n
      → n < 2 ^ 63
      → 0 < length older
      → length newest ≡ n
      → host.redis.get (codes "cache:found_blocks") s ≡ some bytes
      → host.parse bytes ≡ some (array (items (older ++ newest)))
      → handle_found_blocks host s (print_uint n) fresh
        ≡ through (codes "api:found_blocks:" ++ print_uint n) fresh (
            finish_json host
              (if leb 100 n then cache_ttl_medium else cache_ttl_short)
              (array (items newest))
              fresh)
  unfolding handle_found_blocks into_slice
  handle_found_blocks-limit n older newest bytes positive small some_old size stored parsed =
      rw
        (
          handle_found_blocks,
          stored,
          or_else,
          unmarshal,
          parsed,
          into_slice,
          parse_int-print_uint n small,
          elements-items (older ++ newest),
          last_blocks-append older newest n size positive some_old,
        )
        refl

  -- With a limit n below the number of recent shares in Redis, the answer is the first n of them.
  pub handle_side_blocks-limit :
      (n : ℕ) (newest older : List (Json F)) (bytes : Text)
      → 0 < n
      → n < 2 ^ 63
      → 0 < length older
      → length newest ≡ n
      → host.redis.get (codes "cache:recent_shares") s ≡ some bytes
      → host.parse bytes ≡ some (array (items (newest ++ older)))
      → handle_side_blocks host s (print_uint n) fresh
        ≡ through
            (codes "api:side_blocks:" ++ print_uint n)
            fresh
            (finish_json host cache_ttl_short (array (items newest)) fresh)
  unfolding handle_side_blocks into_slice
  handle_side_blocks-limit n newest older bytes positive small some_old size stored parsed =
      rw
        (
          or_fifty-print_uint (print_uint n) (print_uint-starts_digit n small),
          stored,
          or_else,
          unmarshal,
          parsed,
          into_slice,
          parse_int-print_uint n small,
          elements-items (newest ++ older),
          first_shares-append newest older n size positive some_old,
        )
        refl
