-- ===== src/Api/Miners/Lookups.antt =====
-- The lookups by an address in the body, and the payouts that the daemon stored (cmd/api/main.go).
use p2pool_salvium_observer.Prelude.{
  ℕ, ◌≡◌, refl, ◌∙◌, Option, none, some, List, ◌∷◌, ◌++◌, Option-cases, inl, inr,
}
use p2pool_salvium_observer.Share.Keys.{lookup_hash}
use p2pool_salvium_observer.Base58.{truncate_address}
use p2pool_salvium_observer.Daemon.{Text, Payout}
use p2pool_salvium_observer.Daemon.Payouts.{MinerPayouts}
use p2pool_salvium_observer.Daemon.Persist.{Codec, payouts_key, store_payouts}
use p2pool_salvium_observer.Daemon.Persist.Keys.{IsPlain}
use p2pool_salvium_observer.Daemon.Persist.Restart.{IsRedis, Plain, get-store_payouts, encoded_or}
use p2pool_salvium_observer.Api.Codes.{codes}
use p2pool_salvium_observer.Api.Sanitize.{sanitize_addresses}
use p2pool_salvium_observer.Api.Json.{array, nil}
use p2pool_salvium_observer.Api.Server.{
  Host, fresh, write, json_type, missed, write_json, Miss, reply, store, through, cache_ttl_short,
}
use p2pool_salvium_observer.Api.Miners.{
  first_value, handle_payouts, handle_miner_info, handle_miner_info_post, handle_miner_shares_post,
  handle_payouts_post,
}
use p2pool_salvium_observer.Api.Serve
use p2pool_salvium_observer.Api.Serve.{plan}

module _ {F S : Type 0} (host : Host F S) (s : S) where
  -- A lookup with an address in its body does what the request with the address in its path does.
  pub lookup_lem :
      (body : Text) (c : ℕ) (addr : Text)
      → host.decode_request body ≡ some (c ∷ addr)
      → (plan host s (Serve.lookup_info body) fresh
          ≡ plan host s (Serve.miner_info (c ∷ addr)) fresh)
        × (plan host s (Serve.lookup_shares body) fresh
            ≡ plan host s (Serve.miner_shares (c ∷ addr)) fresh)
        × (plan host s (Serve.lookup_history body) fresh
            ≡ plan host s (Serve.payouts (c ∷ addr)) fresh)
  unfolding plan handle_miner_info_post handle_miner_shares_post handle_payouts_post
      handle_miner_info
  lookup_lem body c addr e = (
    rw (plan, handle_miner_info_post, e) refl,
    rw (plan, handle_miner_shares_post, e) refl,
    rw (plan, handle_payouts_post, e) refl,
  )

-- The payouts under the whole address, or else those under the truncated one.
abbrev pub either_of : Option (List Payout) → Option (List Payout) → Option (List Payout)
either_of (some payouts) other = some payouts
either_of none other = other

module _ {F S : Type 0} (host : Host F S) (codec : Codec (List Payout)) where
  -- The empty array, or the stored text.
  unfoldable pub payouts_answer : Option (List Payout) → Miss
  payouts_answer none = reply (write_json host (array nil) fresh)
  payouts_answer (some payouts) =
      store (codec.encode payouts) cache_ttl_short
        (write (sanitize_addresses (codec.encode payouts)) (json_type (missed fresh)))

  stored_lem :
      (laws : IsRedis host.redis) (m : MinerPayouts) (s : S) (addr : Text)
      → IsPlain addr
      → Plain m
      → host.redis.get (payouts_key addr) s ≡ none
      → host.redis.get (payouts_key addr) (store_payouts host.redis codec m s)
        ≡ encoded_or host.redis codec (lookup_hash addr m) none
  stored_lem laws m s addr plain names empty =
      get-store_payouts host.redis codec laws m s addr plain names ∙ rw empty refl

  -- After the daemon has stored the payouts of its miners, all of plain addresses, in a database
  -- that had none for this one, a request for a plain address that the cache does not answer gets
  -- the payouts under the whole address, or else those under the truncated one, and the empty array
  -- if there are none.
  pub handle_payouts-store_payouts :
      (m : MinerPayouts) (s : S) (miner : Text)
      → IsRedis host.redis
      → IsPlain miner
      → IsPlain (truncate_address miner)
      → Plain m
      → host.redis.get (payouts_key miner) s ≡ none
      → host.redis.get (payouts_key (truncate_address miner)) s ≡ none
      → handle_payouts host (store_payouts host.redis codec m s) miner fresh
        ≡ through (codes "api:payouts:" ++ miner) fresh (
            payouts_answer
              (either_of (lookup_hash miner m) (lookup_hash (truncate_address miner) m)))
  unfolding handle_payouts first_value payouts_answer
  handle_payouts-store_payouts m s miner laws plain plain' names empty empty' =
      let whole = stored_lem laws m s miner plain names empty in
      let short = stored_lem laws m s (truncate_address miner) plain' names empty' in
      elim (Option-cases (lookup_hash miner m)) [
        | inr (payouts, found) ↦
            let there = rw found at whole in rw (found, handle_payouts, first_value, there) refl
        | inl missing ↦
            let gone = rw missing at whole in
            elim (Option-cases (lookup_hash (truncate_address miner) m)) [
              | inr (payouts, found) ↦
                  let there = rw found at short in
                  rw (missing, found, handle_payouts, first_value, gone, there) refl
              | inl none_there ↦
                  let gone' = rw none_there at short in
                  rw (missing, none_there, handle_payouts, first_value, gone, gone') refl
            ]
      ]
