-- ===== src/Api/Miners.antt =====
-- The handlers for one miner (cmd/api/main.go): by an address in the path or in the body.
pub mod Lookups
use p2pool_salvium_observer.Prelude.{ℕ, Option, none, some, List, [], ◌∷◌, ◌++◌, length}
use p2pool_salvium_observer.Word.Int.{pos}
use p2pool_salvium_observer.Share.Keys.{insert_hash}
use p2pool_salvium_observer.Base58.{truncate_address}
use p2pool_salvium_observer.Daemon.{Text}
use p2pool_salvium_observer.Daemon.Persist.{payouts_key}
use p2pool_salvium_observer.Expiry.Api.{Key}
use p2pool_salvium_observer.Api.Codes.{codes}
use p2pool_salvium_observer.Api.Sanitize.{sanitize_addresses}
use p2pool_salvium_observer.Api.Json.{
  Json, array, nil, integer, text, object, fields, Map, NilMap, of_map, into_map, of_strings,
  into_strings, list_of,
}
use p2pool_salvium_observer.Api.Server.{
  Host, Response, write, json_type, missed, write_json, write_error, Miss, reply, store, Plan,
  direct, through, or_else, finish_json, finish_raw, unmarshal, get_text, decoded_at,
  cache_ttl_short,
}

module _ {F : Type 0} where
  abbrev put_pplns : Option (NilMap F) → Map F → Map F
  put_pplns none m = m
  put_pplns (some miner_data) m = insert_hash (codes "pplns") (of_map miner_data) m

  abbrev put_shares : Option (Option (List Text)) → Map F → Map F
  put_shares none m = m
  put_shares (some shares) m =
      insert_hash (codes "recent_shares") (of_strings shares)
        (insert_hash (codes "shares_count") (integer (pos (length (list_of shares)))) m)

  abbrev put_alias : Option Text → Map F → Map F
  put_alias none m = m
  put_alias (some alias) m = insert_hash (codes "alias") (text alias) m

-- `fmt.Sprintf("miner:%s:shares", minerAddr)`
abbrev pub shares_key : Text → Key
shares_key addr = codes "miner:" ++ (addr ++ codes ":shares")

-- The body of a lookup: it must decode, and have an address.
abbrev pub by_address : (Text → Response → Plan) → Option Text → Response → Plan
by_address handler none w = direct (write_error 400 (codes "Invalid JSON body") w)
by_address handler (some []) w = direct (write_error 400 (codes "Address required") w)
by_address handler (some (c ∷ addr)) w = handler (c ∷ addr) w

module _ {F S : Type 0} (host : Host F S) (s : S) where
  unfoldable pub miner_info : Text → Map F
  miner_info addr =
      let m = insert_hash (codes "address") (text (truncate_address addr)) [] in
      let m = put_pplns (decoded_at host s into_map (codes "cache:pplns:miner:" ++ addr)) m in
      let m = put_shares (decoded_at host s into_strings (shares_key addr)) m in
      put_alias (get_text host s (codes "miner:" ++ (addr ++ codes ":alias"))) m

  abbrev pub miner_info_of : Text → Response → Plan
  miner_info_of addr w =
      through (codes "api:miner_info:" ++ addr) w
        (finish_json host cache_ttl_short (object (fields (miner_info addr))) w)

  unfoldable pub handle_miner_info : Text → Response → Plan
  handle_miner_info [] w = direct (write_error 400 (codes "Miner address required") w)
  handle_miner_info (c ∷ addr) w = miner_info_of (c ∷ addr) w

  unfoldable pub handle_miner_shares : Text → Response → Plan
  handle_miner_shares addr w = through (codes "api:miner_shares:" ++ addr) w (
      or_else (get_text host s (shares_key addr)) (reply (write_json host (array nil) w)) λ bytes.
        or_else (unmarshal host into_strings bytes)
          (reply (write_error 500 (codes "Invalid shares data") w))
          λ shares. finish_raw host bytes cache_ttl_short (of_strings shares) w)

  -- The loop over `keysToTry`.
  unfoldable pub first_value : List Key → Option Text
  first_value [] = none
  first_value (key ∷ keys) = elim (get_text host s key) [
    | some bytes ↦ some bytes
    | none ↦ first_value keys
  ]

  -- The data go out as they are stored.
  unfoldable pub handle_payouts : Text → Response → Plan
  handle_payouts miner w = through (codes "api:payouts:" ++ miner) w (
      or_else (first_value (payouts_key miner ∷ payouts_key (truncate_address miner) ∷ []))
        (reply (write_json host (array nil) w))
        λ bytes.
          store bytes cache_ttl_short (write (sanitize_addresses bytes) (json_type (missed w))))

  unfoldable pub handle_miner_info_post : Text → Response → Plan
  handle_miner_info_post body w = by_address miner_info_of (host.decode_request body) w

  unfoldable pub handle_miner_shares_post : Text → Response → Plan
  unfolding handle_miner_shares
  handle_miner_shares_post body w = by_address handle_miner_shares (host.decode_request body) w

  unfoldable pub handle_payouts_post : Text → Response → Plan
  unfolding handle_payouts
  handle_payouts_post body w = by_address handle_payouts (host.decode_request body) w
