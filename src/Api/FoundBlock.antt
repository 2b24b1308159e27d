-- ===== src/Api/FoundBlock.antt =====
-- `handleFoundBlockDetails` (cmd/api/main.go): a found block with its effort, the miners of its
-- window and its payouts.
pub mod Shown
use p2pool_salvium_observer.Prelude.{
  ℕ, Bool, false, Option, none, some, List, [], ◌∷◌, ◌++◌, if◌then◌else◌, ◌==◌,
}
use p2pool_salvium_observer.Share.Keys.{lookup_hash, insert_hash}
use p2pool_salvium_observer.Sorting.{exchange_sort}
use p2pool_salvium_observer.Daemon.{Text}
use p2pool_salvium_observer.Daemon.Decimal.{print_uint}
use p2pool_salvium_observer.Expiry.Api.{Key}
use p2pool_salvium_observer.Api.Codes.{codes}
use p2pool_salvium_observer.Api.Json.{
  Json, float, text, array, items, object, fields, Map, NilMap, at, of_map, of_maps, of_strings,
  into_maps, into_snapshots, list_of,
}
use p2pool_salvium_observer.Api.Numbers.{parse_uint}
use p2pool_salvium_observer.Api.Server.{
  Host, Response, write_error, Miss, reply, Plan, direct, through, or_else, finish_json, unmarshal,
  get_text, cache_ttl_medium,
}

-- `strings.Split(key, ":")`, behind the part that is begun.
unfoldable pub split_colons : Text → Text → List Text
split_colons part [] = part ∷ []
split_colons part (c ∷ key) =
    let closed = part ∷ split_colons [] key in
    let longer = split_colons (part ++ (c ∷ [])) key in if c == b':' then closed else longer

abbrev pub second_part : List Text → Option Text
second_part [] = none
second_part (part ∷ []) = none
second_part (part ∷ part' ∷ parts) = some part'

module _ {F S : Type 0} (host : Host F S) where
  -- `m[field].(float64)` with its success, and with the zero of a failure.
  abbrev pub is_float_at : ℕ → Json F → Bool
  is_float_at height (float h) = host.to_uint64 h == height
  is_float_at height _ = false

  abbrev pub float_or_zero : Json F → F
  float_or_zero (float a) = a
  float_or_zero _ = host.zero_float

  unfoldable pub is_height : Key → ℕ → NilMap F → Bool
  is_height field height m = is_float_at height (at field m)

  -- The first block of the height, with the block in front of it. A map that has a height is not
  -- nil.
  unfoldable pub find_block :
      ℕ → Option (NilMap F) → List (NilMap F) → Option (Option (NilMap F) × Map F)
  find_block height prev [] = none
  find_block height prev (none ∷ blocks) = find_block height (some none) blocks
  find_block height prev (some b ∷ blocks) =
      let rest = find_block height (some (some b)) blocks in
      if is_height (codes "height") height (some b) then some (prev, b) else rest

  abbrev effort_of : F → F → F → F
  effort_of prev_hashes curr_hashes diff =
      host.float_mul (host.float_div (host.float_sub curr_hashes prev_hashes) diff) host.hundred

  unfoldable pub with_effort : Option (NilMap F) → Map F → Map F
  with_effort none found_block = found_block
  with_effort (some prev_block) found_block =
      let prev_hashes = host.float_of (at (codes "total_hashes") prev_block) in
      let curr_hashes = host.float_of (at (codes "total_hashes") (some found_block)) in
      let diff = host.float_of (at (codes "difficulty") (some found_block)) in
      if host.float_less host.zero_float diff
      then insert_hash (codes "effort") (float (effort_of prev_hashes curr_hashes diff)) found_block
      else found_block

  -- The first payout of a miner for the block, with the miner's address.
  unfoldable pub payout_at : ℕ → Text → List (NilMap F) → List (Map F)
  payout_at height miner_addr [] = []
  payout_at height miner_addr (none ∷ payouts) = payout_at height miner_addr payouts
  payout_at height miner_addr (some p ∷ payouts) =
      let rest = payout_at height miner_addr payouts in
      if is_height (codes "block_height") height (some p)
      then insert_hash (codes "address") (text miner_addr) p ∷ []
      else rest

  abbrev pub amount : Map F → F
  amount p = float_or_zero (at (codes "amount") (some p))

  -- `amtJ > amtI`
  abbrev pub pays_more : Map F → Map F → Bool
  pays_more at_j at_i = host.float_less (amount at_i) (amount at_j)

  module _ (s : S) where
    -- A round of the loop over the payout keys; whatever fails is skipped.
    abbrev pub payouts_of_miner : ℕ → Option Text → Option Text → List (Map F)
    payouts_of_miner height none bytes = []
    payouts_of_miner height (some miner_addr) none = []
    payouts_of_miner height (some miner_addr) (some bytes) = elim (unmarshal host into_maps bytes) [
      | none ↦ []
      | some payouts ↦ payout_at height miner_addr (list_of payouts)
    ]

    unfoldable pub block_payouts : ℕ → List Key → List (Map F)
    block_payouts height [] = []
    block_payouts height (key ∷ keys) =
        payouts_of_miner height (second_part (split_colons [] key)) (get_text host s key)
        ++ block_payouts height keys

    abbrev put_payouts : List (Map F) → Map F → Map F
    put_payouts [] m = m
    put_payouts (p ∷ payouts) m =
        insert_hash (codes "payouts")
          (array (items (of_maps (exchange_sort pays_more (p ∷ payouts))))) m

    abbrev put_snapshot : Option (Option (List Text)) → Map F → Map F
    put_snapshot none m = m
    put_snapshot (some miner_addrs) m =
        insert_hash (codes "pplns_snapshot") (of_strings miner_addrs) m

    abbrev snapshot_of :
        Text → Option (List (Text × Option (List Text))) → Option (Option (List Text))
    snapshot_of height_str none = none
    snapshot_of height_str (some snapshots) = lookup_hash height_str snapshots

    unfoldable pub read_snapshot : Text → Option (Option (List Text))
    read_snapshot height_str = elim (get_text host s (codes "cache:pplns_snapshots")) [
      | none ↦ none
      | some bytes ↦ snapshot_of height_str (unmarshal host into_snapshots bytes)
    ]

    unfoldable pub block_details : ℕ → Text → Option (NilMap F) → Map F → Map F
    block_details height height_str prev found_block =
        let m = insert_hash (codes "block") (object (fields (with_effort prev found_block))) [] in
        put_payouts (block_payouts height (host.redis.payout_keys s))
          (put_snapshot (read_snapshot height_str) m)

    unfoldable pub found_block_miss : ℕ → Text → Response → Miss
    found_block_miss height height_str w =
        or_else (get_text host s (codes "cache:found_blocks"))
          (reply (write_error 404 (codes "Found blocks not available") w))
          λ bytes.
            or_else (unmarshal host into_maps bytes)
              (reply (write_error 500 (codes "Invalid found blocks data") w))
              λ blocks.
                or_else (find_block height none (list_of blocks))
                  (reply (write_error 404 (codes "Block not found") w))
                  λ found.
                    finish_json host cache_ttl_medium
                      (object (fields (block_details height height_str found.0 found.1))) w

    unfoldable pub handle_found_block_details : Text → Response → Plan
    handle_found_block_details height_str w = elim (parse_uint height_str) [
      | none ↦ direct (write_error 400 (codes "Invalid block height") w)
      | some height ↦
          through (codes "api:found_block:" ++ print_uint height) w
            (found_block_miss height height_str w)
    ]
