-- ===== src/Daemon/Stats/Caching.antt =====
-- The cached supply of `storeNetworkStats`.
use p2pool_salvium_observer.Prelude.{
  ℕ, ◌+◌, ◌≤◌, ◌≡◌, ◌≢◌, refl, true, false, Option, none, some, arith, ltb, ◌==◌, Bool-cases, inl,
  inr, ==_iff, le→ltb_false,
}
use p2pool_salvium_observer.Word.{add64}
use p2pool_salvium_observer.Daemon.Stats.{Supply, SupplyInfo, hour, is_stale, update_supply}

-- The supply is that of the liquid and the staked coins.
abbrev pub IsBalanced : Supply → Type 0
IsBalanced s = s.supply ≡ add64 s.circulating s.staked

-- The cached total stays that of the liquid and the staked coins.
pub update_supply-IsBalanced :
    (now : ℕ) (reply : Option SupplyInfo) (s : Supply)
    → IsBalanced s
    → IsBalanced (update_supply now reply s)
unfolding update_supply
update_supply-IsBalanced now none s h = elim (Bool-cases (is_stale now s)) [
  | inl stale ↦ rw stale h
  | inr fresh ↦ rw fresh h
]
update_supply-IsBalanced now (some info) s h = elim (Bool-cases (is_stale now s)) [
  | inl stale ↦ rw stale refl
  | inr fresh ↦ rw fresh h
]

-- After a stale supply is fetched and is not 0, the next update within the hour changes nothing,
-- whatever the node would reply.
pub update_supply-again :
    (now later : ℕ) (info : SupplyInfo) (reply : Option SupplyInfo) (s : Supply)
    → is_stale now s ≡ true
    → add64 info.circulating info.staked ≢ 0
    → later ≤ now + hour
    → update_supply later reply (update_supply now (some info) s) ≡ update_supply now (some info) s
unfolding update_supply is_stale
update_supply-again now later info reply s stale nonzero soon =
    let in_time : ltb (now + hour) later ≡ false = le→ltb_false _ _ soon in
    let positive : (add64 info.circulating info.staked == 0) ≡ false =
      ground (arith, nonzero, ==_iff (add64 info.circulating info.staked) 0) in
    rw (stale, in_time, positive) refl
