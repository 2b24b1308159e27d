-- ===== src/Api/Serve/Handlers/Blocks.antt =====
-- The handlers of cmd/api/main.go for blocks and shares keep to their subjects.
use p2pool_salvium_observer.Prelude.{
  ℕ, ◌≤◌, refl, Option, none, some, arith, Option-cases, inl, inr,
}
use p2pool_salvium_observer.Daemon.{Text}
use p2pool_salvium_observer.Api.Codes.{codes}
use p2pool_salvium_observer.Api.Json.{of_map, into_map, into_maps, into_slice, array, nil, list_of}
use p2pool_salvium_observer.Api.Numbers.{parse_uint, parse_uint-lt, parse_int}
use p2pool_salvium_observer.Api.Server.{
  Host, fresh, error_body, get_text, cache_ttl_short, cache_ttl_medium, cache_ttl_long,
}
use p2pool_salvium_observer.Api.Blocks.{
  handle_found_blocks, handle_side_blocks, handle_share, handle_block_by_height, found_blocks_ttl,
}
use p2pool_salvium_observer.Api.FoundBlock.{
  handle_found_block_details, found_block_miss, find_block,
}
use p2pool_salvium_observer.Api.Serve
use p2pool_salvium_observer.Api.Serve.{Request, plan}
use p2pool_salvium_observer.Api.Serve.Sound.{
  IsSound, Conforms, or_else-IsSound, decoded-IsSound, error-IsClean, json-IsClean,
  finish_json-IsSound, finish_raw-IsSound,
}
use p2pool_salvium_observer.Api.Serve.Subjects.{subject}
use p2pool_salvium_observer.Word.Int.{ℤ, pos, negsuc}

ttl-le : (n : Option ℤ) → found_blocks_ttl n ≤ cache_ttl_long
ttl-le none = omega arith
ttl-le (some (negsuc n)) = omega arith
ttl-le (some (pos n)) = ground arith

module _ {F S : Type 0} (host : Host F S) (s : S) where
  pub found_blocks-Conforms :
      (limit : Text)
      → Conforms
          (subject host (Serve.found_blocks limit))
          (plan host s (Serve.found_blocks limit) fresh)
  unfolding subject plan handle_found_blocks error_body
  found_blocks-Conforms limit = (
    refl,
    refl,
    tt,
    decoded-IsSound host (get_text host s _) _ into_slice _ _
        (json-IsClean host (array nil) fresh refl) (omega arith)
        λ bytes value. finish_json-IsSound host _ _ (ttl-le (parse_int limit)),
  )

  pub side_blocks-Conforms :
      (limit : Text)
      → Conforms
          (subject host (Serve.side_blocks limit))
          (plan host s (Serve.side_blocks limit) fresh)
  unfolding subject plan handle_side_blocks error_body
  side_blocks-Conforms limit = (
    refl,
    refl,
    tt,
    decoded-IsSound host (get_text host s _) _ into_slice _ _
        (json-IsClean host (array nil) fresh refl) (omega arith)
        λ bytes value. finish_json-IsSound host cache_ttl_short _ (omega arith),
  )

  pub share-Conforms :
      (id : Text) → Conforms (subject host (Serve.share id)) (plan host s (Serve.share id) fresh)
  unfolding subject plan handle_share error_body
  share-Conforms id = (
    refl,
    refl,
    tt,
    decoded-IsSound host (get_text host s _) _ into_map _ _ (error-IsClean 404 _ (omega arith))
        (omega arith)
        λ bytes value. finish_raw-IsSound host bytes cache_ttl_short (of_map value) (omega arith),
  )

  pub block_by_height-Conforms :
      (height_str : Text)
      → Conforms
          (subject host (Serve.block_by_height height_str))
          (plan host s (Serve.block_by_height height_str) fresh)
  unfolding subject plan handle_block_by_height error_body
  block_by_height-Conforms height_str = (
    refl,
    refl,
    tt,
    or_else-IsSound (parse_uint height_str) _ _ (error-IsClean 400 _ (omega arith)) λ height.
        or_else-IsSound (get_text host s _) _ _ (error-IsClean 404 _ (omega arith)) λ id.
          decoded-IsSound host (get_text host s _) _ into_map _ _
            (error-IsClean 404 _ (omega arith)) (omega arith)
            λ bytes value.
              finish_raw-IsSound host bytes cache_ttl_short (of_map value) (omega arith),
  )

  pub found_block_miss-IsSound :
      (height : ℕ) (height_str : Text) → IsSound (found_block_miss host s height height_str fresh)
  unfolding found_block_miss error_body
  found_block_miss-IsSound height height_str =
      decoded-IsSound host (get_text host s _) _ into_maps _ _ (error-IsClean 404 _ (omega arith))
        (omega arith)
        λ bytes blocks.
          or_else-IsSound (find_block host height none (list_of blocks)) _ _
            (error-IsClean 404 _ (omega arith))
            λ found. finish_json-IsSound host cache_ttl_medium _ (omega arith)

  pub found_block-Conforms :
      (height_str : Text)
      → Conforms
          (subject host (Serve.found_block height_str))
          (plan host s (Serve.found_block height_str) fresh)
  unfolding subject plan handle_found_block_details error_body
  found_block-Conforms height_str = elim (Option-cases (parse_uint height_str)) [
    | inl bad ↦
        rw (Conforms, plan, subject, handle_found_block_details, bad)
          (error-IsClean 400 (codes "Invalid block height") (omega arith))
    | inr (height, good) ↦
        rw (Conforms, plan, subject, handle_found_block_details, good)
          (
            refl,
            refl,
            parse_uint-lt height_str height good,
            found_block_miss-IsSound height height_str,
          )
  ]
