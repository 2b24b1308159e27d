-- ===== src/Tests/Services.antt =====
-- The map of shares (p2pool/cache.go), the RPC client (p2pool/rpc.go) and the caches of responses
-- (cmd/api/cache.go, cmd/web/cache.go) on small inputs.
use mathlib.Core.Path.{subst}
use p2pool_salvium_observer.Prelude.{
  ℕ, zero, suc, ◌+◌, ◌<◌, All, ◌≡◌, ◌≢◌, refl, false, List, [], ◌∷◌, arith, replicate,
}
use p2pool_salvium_observer.Outcome.{Result, ok}
use p2pool_salvium_observer.Share.{Share, Address, zero_share, bytes_eq}
use p2pool_salvium_observer.Pplns.{ShareMap}
use p2pool_salvium_observer.Base58.{encode_block, encode_digits, block_number}
use p2pool_salvium_observer.Client.{
  Reply, failed, rpc_error, bad_result, answer, all_failed, jsonrpc,
}
use p2pool_salvium_observer.Client.Failover.{jsonrpc_reaches}
use p2pool_salvium_observer.Expiry.Api.{Store, cache_get, cache_cleanup, cache_get-cache_cleanup}
use p2pool_salvium_observer.Expiry.Web.{cache_result, cache_result_again}

-- Of three endpoints only the one in the middle answers.
abbrev middle : ℕ → ℕ → Reply ℕ
middle attempt zero = failed
middle attempt (suc zero) = answer 7
middle attempt (suc (suc endpoint)) = failed

abbrev IsReply : Reply ℕ → Type 0
IsReply failed = ⊥
IsReply (rpc_error code) = Unit {0}
IsReply bad_result = Unit {0}
IsReply (answer a) = Unit {0}

middle_works : (attempt : ℕ) → middle attempt 1 ≢ failed
middle_works attempt h = subst (λ r. IsReply r) h tt

jsonrpc_reaches_example : (jsonrpc middle 3 2).0 ≢ all_failed
jsonrpc_reaches_example = jsonrpc_reaches middle 3 1 2 (omega arith) (omega arith) middle_works

-- Two shares that are each other's parents.
abbrev ring : ShareMap
ring =
    (1 ∷ [], record zero_share { sidechain_id = 1 ∷ []; parent = 2 ∷ [] })
    ∷ (2 ∷ [], record zero_share { sidechain_id = 2 ∷ []; parent = 1 ∷ [] })
    ∷ []

abbrev count_share : Share → ℕ → ℕ → Result ℕ
count_share share depth n = ok (n + 1)

abbrev first : Share
first = record zero_share { sidechain_id = 1 ∷ []; parent = 2 ∷ [] }

abbrev stored : Store
stored =
    (1 ∷ [], record { expires = 10; bytes = 65 ∷ [] })
    ∷ (2 ∷ [], record { expires = 30; bytes = 66 ∷ [] })
    ∷ []

cache_get-cache_cleanup_example :
    cache_get 25 (1 ∷ []) (cache_cleanup 20 stored) ≡ cache_get 25 (1 ∷ []) stored
unfolding bytes_eq
cache_get-cache_cleanup_example =
    cache_get-cache_cleanup 20 25 (1 ∷ []) stored (omega arith) (refl, (refl, tt))

cache_result_again_example :
    let start = cache_result {T = ℕ} 5 6 (1 ∷ []) 10 42 [] in
    cache_result 15 16 (1 ∷ []) 10 43 start.1 ≡ (42, start.1, false)
cache_result_again_example =
    cache_result_again 5 6 15 16 10 (1 ∷ []) 42 43 [] refl (omega arith) (omega arith)

abbrev no_hash : List ℕ → List ℕ
no_hash bytes = replicate 32 0

abbrev address : Address
address = record { spend_public_key = replicate 32 7; view_public_key = replicate 32 9 }

-- "5Q" is 0xff in base 58, padded to the two digits of a block of one byte.
block_run : encode_block (255 ∷ []) 2 ≡ b'5' ∷ b'Q' ∷ []
unfolding encode_block encode_digits block_number
block_run = refl

All-bytes : All (λ b. b < 256) (replicate 32 171)
All-bytes = (
  omega arith,
  (
    omega arith,
    (
      omega arith,
      (
        omega arith,
        (
          omega arith,
          (
            omega arith,
            (
              omega arith,
              (
                omega arith,
                (
                  omega arith,
                  (
                    omega arith,
                    (
                      omega arith,
                      (
                        omega arith,
                        (
                          omega arith,
                          (
                            omega arith,
                            (
                              omega arith,
                              (
                                omega arith,
                                (
                                  omega arith,
                                  (
                                    omega arith,
                                    (
                                      omega arith,
                                      (
                                        omega arith,
                                        (
                                          omega arith,
                                          (
                                            omega arith,
                                            (
                                              omega arith,
                                              (
                                                omega arith,
                                                (
                                                  omega arith,
                                                  (
                                                    omega arith,
                                                    (
                                                      omega arith,
                                                      (
                                                        omega arith,
                                                        (
                                                          omega arith,
                                                          (
                                                            omega arith,
                                                            (omega arith, (omega arith, tt)),
                                                          ),
                                                        ),
                                                      ),
                                                    ),
                                                  ),
                                                ),
                                              ),
                                            ),
                                          ),
                                        ),
                                      ),
                                    ),
                                  ),
                                ),
                              ),
                            ),
                          ),
                        ),
                      ),
                    ),
                  ),
                ),
              ),
            ),
          ),
        ),
      ),
    ),
  ),
)
