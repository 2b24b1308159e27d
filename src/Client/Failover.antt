-- ===== src/Client/Failover.antt =====
-- The failover of `jsonrpc` (p2pool/rpc.go): an endpoint that works is found.
use p2pool_salvium_observer.Prelude.{
  ℕ, zero, suc, ◌+◌, ◌-◌, ◌%◌, ◌<◌, ◌≡◌, ◌≢◌, ◌⊎◌, inl, inr, refl, ap, ◌∙◌, arith, Bool-cases, ltb,
  ltb→lt, ltb_false→le,
}
use p2pool_salvium_observer.Client.{
  Reply, Response, failed, rpc_error, bad_result, answer, all_failed, settle, failover,
  try_endpoints, jsonrpc,
}
use native.Mathlib.Nat.{mod-eq_of_lt, mod_self}

failover-next :
    (count current : ℕ)
    → current < count
    → ((current + 1 < count) × (failover count current ≡ current + 1))
      ⊎ ((current + 1 ≡ count) × (failover count current ≡ 0))
failover-next count current lt = elim (Bool-cases (ltb (current + 1) count)) [
  | inl less ↦ inl (ltb→lt _ _ less, mod-eq_of_lt (ltb→lt _ _ less))
  | inr over ↦
      let e : current + 1 ≡ count = omega (arith, lt, ltb_false→le _ _ over) in
      inr (e, ap (λ n. n % count) e ∙ mod_self count)
]

settle_failed :
    {A : Type 0} (r : Reply A) (current : ℕ) (next : Response A × ℕ)
    → (settle r current next).0 ≡ all_failed
    → r ≡ failed
settle_failed failed current next h = refl
settle_failed (rpc_error code) current next h = cc
settle_failed bad_result current next h = cc
settle_failed (answer a) current next h = cc

abbrev IsReached : ℕ → ℕ → ℕ → ℕ → Type 0
IsReached count current d e = (current + d ≡ e) ⊎ (current + d ≡ e + count)

module _ {A : Type 0} (reply : ℕ → ℕ → Reply A) (count e : ℕ)
    (works : (attempt : ℕ) → reply attempt e ≢ failed) where
  tried :
      (left attempt current d : ℕ)
      → current < count
      → e < count
      → d < left
      → d < count
      → IsReached count current d e
      → (try_endpoints reply count left attempt current).0 ≢ all_failed
  unfolding try_endpoints
  tried zero attempt current d lt he hd hc r all = absurd (omega (arith, hd))
  tried (suc left) attempt current zero lt he hd hc r all =
      let here : current ≡ e = elim r [
        | inl same ↦ omega (arith, same)
        | inr over ↦ absurd (omega (arith, over, lt))
      ] in
      works attempt (rw here at (settle_failed (reply attempt current) current _ all))
  tried (suc left) attempt current (suc d) lt he hd hc r all =
      let next = failover count current in
      let down : (try_endpoints reply count left (attempt + 1) next).0 ≡ all_failed =
        rw (settle_failed (reply attempt current) current _ all) at all in
      elim (failover-next count current lt) [
        | inl (inside, eq) ↦
            tried left (attempt + 1) next d (omega (arith, inside, eq)) he (omega (arith, hd))
              (omega (arith, hc))
              (elim r [
                | inl same ↦ inl (omega (arith, same, eq))
                | inr over ↦ inr (omega (arith, over, eq))
              ])
              down
        | inr (last, eq) ↦
            tried left (attempt + 1) next d (omega (arith, lt, eq)) he (omega (arith, hd))
              (omega (arith, hc))
              (elim r [
                | inl same ↦ absurd (omega (arith, same, last, he))
                | inr over ↦ inl (omega (arith, over, last, eq))
              ])
              down
      ]

-- Where one of the endpoints gives a response that decodes whenever it is asked, jsonrpc never
-- reports that all endpoints failed, from whichever endpoint it begins.
pub jsonrpc_reaches :
    {A : Type 0} (reply : ℕ → ℕ → Reply A) (count e current : ℕ)
    → current < count
    → e < count
    → ((attempt : ℕ) → reply attempt e ≢ failed)
    → (jsonrpc reply count current).0 ≢ all_failed
unfolding jsonrpc
jsonrpc_reaches reply count e current lt he works = elim (Bool-cases (ltb e current)) [
  | inl before ↦
      let b = ltb→lt _ _ before in
      tried reply count e works count 0 current (e + count - current) lt he (omega (arith, b, lt))
        (omega (arith, b, lt)) (inr (omega (arith, b, lt)))
  | inr from ↦
      let b = ltb_false→le _ _ from in
      tried reply count e works count 0 current (e - current) lt he (omega (arith, b, he))
        (omega (arith, b, he)) (inl (omega (arith, b)))
]
