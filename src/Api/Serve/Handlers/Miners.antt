-- ===== src/Api/Serve/Handlers/Miners.antt =====
-- The handlers of cmd/api/main.go for one miner keep to their subjects.
use p2pool_salvium_observer.Prelude.{refl, Option, none, some, [], ◌∷◌, arith}
use p2pool_salvium_observer.Daemon.{Text}
use p2pool_salvium_observer.Api.Codes.{codes}
use p2pool_salvium_observer.Api.Json.{into_strings, array, nil, object, fields, of_strings}
use p2pool_salvium_observer.Api.Server.{
  Host, Response, fresh, set_header, error_body, json_type, missed, Plan, get_text, cache_ttl_short,
}
use p2pool_salvium_observer.Api.Miners.{
  by_address, miner_info, miner_info_of, handle_miner_info, handle_miner_shares, handle_payouts,
  first_value,
}
use p2pool_salvium_observer.Api.Serve
use p2pool_salvium_observer.Api.Serve.{Request, plan}
use p2pool_salvium_observer.Api.Serve.Sound.{
  Conforms, sanitized-IsClean, or_else-IsSound, decoded-IsSound, error-IsClean, json-IsClean,
  finish_json-IsSound, finish_raw-IsSound,
}
use p2pool_salvium_observer.Api.Serve.Subjects.{
  named, info_of, shares_of, payouts_of, Subject, subject,
}

module _ {F S : Type 0} (host : Host F S) (s : S) where
  pub miner_info-Conforms :
      (addr : Text)
      → Conforms (subject host (Serve.miner_info addr)) (plan host s (Serve.miner_info addr) fresh)
  unfolding subject plan handle_miner_info error_body
  miner_info-Conforms [] = (error-IsClean 400 (codes "Miner address required") (omega arith))
  miner_info-Conforms (c ∷ addr) = (
    refl,
    refl,
    tt,
    finish_json-IsSound host cache_ttl_short (object (fields (miner_info host s (c ∷ addr))))
        (omega arith),
  )

  pub miner_shares-Conforms :
      (addr : Text)
      → Conforms
          (subject host (Serve.miner_shares addr))
          (plan host s (Serve.miner_shares addr) fresh)
  unfolding subject plan handle_miner_shares error_body
  miner_shares-Conforms addr = (
    refl,
    refl,
    tt,
    decoded-IsSound host (get_text host s _) _ into_strings _ _
        (json-IsClean host (array nil) fresh refl) (omega arith)
        λ bytes value.
          finish_raw-IsSound host bytes cache_ttl_short (of_strings value) (omega arith),
  )

  pub payouts-Conforms :
      (miner : Text)
      → Conforms (subject host (Serve.payouts miner)) (plan host s (Serve.payouts miner) fresh)
  unfolding subject plan handle_payouts set_header
  payouts-Conforms miner = (
    refl,
    refl,
    tt,
    or_else-IsSound (first_value host s _) _ _ (json-IsClean host (array nil) fresh refl)
        λ bytes. (sanitized-IsClean bytes (json_type (missed fresh)) refl, omega arith),
  )

  -- A lookup does what the handler for the path does with the address of the body.
  pub lookup-Conforms :
      (about : Text → Subject) (handler : Text → Response → Plan) (addr : Option Text)
      → ((a : Text) → Conforms (some (about a)) (handler a fresh))
      → Conforms (named about addr) (by_address handler addr fresh)
  unfolding error_body
  lookup-Conforms about handler none h =
      (error-IsClean 400 (codes "Invalid JSON body") (omega arith))
  lookup-Conforms about handler (some []) h =
      (error-IsClean 400 (codes "Address required") (omega arith))
  lookup-Conforms about handler (some (c ∷ addr)) h = h (c ∷ addr)

  pub info_of-Conforms :
      (addr : Text) → Conforms (some (info_of addr)) (miner_info_of host s addr fresh)
  info_of-Conforms addr = (
    refl,
    refl,
    tt,
    finish_json-IsSound host cache_ttl_short (object (fields (miner_info host s addr)))
        (omega arith),
  )

  pub shares_of-Conforms :
      (addr : Text) → Conforms (some (shares_of addr)) (handle_miner_shares host s addr fresh)
  unfolding subject plan
  shares_of-Conforms addr = miner_shares-Conforms addr

  pub payouts_of-Conforms :
      (addr : Text) → Conforms (some (payouts_of addr)) (handle_payouts host s addr fresh)
  unfolding subject plan
  payouts_of-Conforms addr = payouts-Conforms addr
