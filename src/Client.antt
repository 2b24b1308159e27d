-- ===== src/Client.antt =====
-- The RPC client of p2pool/rpc.go: the endpoints in turn, until one of them answers.
pub mod Failover
use p2pool_salvium_observer.Prelude.{ℕ, zero, suc, ◌+◌, ◌%◌}

-- What becomes of a request to an endpoint: no response that decodes (the request cannot be made or
-- fails, the status is not 2xx, or the body is no response), an error of the node's, a result that
-- does not decode, or a result.
pub data Reply (A : Type 0) : Type 0 where
  failed : Reply A
  rpc_error : ℕ → Reply A
  bad_result : Reply A
  answer : A → Reply A

pub data Response (A : Type 0) : Type 0 where
  all_failed : Response A
  rpc_failed : ℕ → Response A
  not_decoded : Response A
  success : A → Response A

-- `failover`: the index of the endpoint after this one, of so many.
abbrev pub failover : ℕ → ℕ → ℕ
failover count current = (current + 1) % count

-- The exits of a round of `jsonrpc`; `continue` goes on with `next`.
abbrev pub settle : {A : Type 0} → Reply A → ℕ → Response A × ℕ → Response A × ℕ
settle failed current next = next
settle (rpc_error code) current next = (rpc_failed code, current)
settle bad_result current next = (not_decoded, current)
settle (answer a) current next = (success a, current)

module _ {A : Type 0} (reply : ℕ → ℕ → Reply A) (count : ℕ) where
  -- The loop of `jsonrpc` with the number of rounds that are left, on the attempt and the index of
  -- the current endpoint. `reply attempt endpoint` is what becomes of the request. The result is the
  -- response and the index that the client keeps.
  unfoldable pub try_endpoints : ℕ → ℕ → ℕ → Response A × ℕ
  try_endpoints zero attempt current = (all_failed, current)
  try_endpoints (suc left) attempt current =
      settle (reply attempt current) current
        (try_endpoints left (attempt + 1) (failover count current))

  unfoldable pub jsonrpc : ℕ → Response A × ℕ
  jsonrpc current = try_endpoints count 0 current
