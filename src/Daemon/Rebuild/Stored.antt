-- ===== src/Daemon/Rebuild/Stored.antt =====
-- What `RebuildAllPayouts` leaves in Redis.
use p2pool_salvium_observer.Prelude.{
  ℕ, ◌+◌, ◌≡◌, refl, ◌∙◌, false, Option, some, List, [], ◌∷◌, length, All,
}
use p2pool_salvium_observer.Difficulty.{Difficulty}
use p2pool_salvium_observer.Share.{Hash, Share, bytes_eq}
use p2pool_salvium_observer.Share.Keys.{lookup_hash}
use p2pool_salvium_observer.Pplns.{ShareMap, PplnsResult, calculate_pplns, finish}
use p2pool_salvium_observer.Pplns.Total.{calculate_pplns_total}
use p2pool_salvium_observer.Daemon.{Text, FoundBlock}
use p2pool_salvium_observer.Daemon.Tip.{IsHighest, find_tip_lem}
use p2pool_salvium_observer.Daemon.Payouts.{Rebuilt, rebuild_blocks, nothing_rebuilt}
use p2pool_salvium_observer.Daemon.Payouts.Amounts.{paid_for}
use p2pool_salvium_observer.Daemon.Payouts.Rebuild.{owed, rebuild_blocks-pays}
use p2pool_salvium_observer.Daemon.Persist.{
  Redis, Codecs, processed_key, payouts_key, store_payouts, load_miner_payouts, payouts_at,
}
use p2pool_salvium_observer.Daemon.Persist.Keys.{IsPlain}
use p2pool_salvium_observer.Daemon.Persist.Restart.{
  IsRedis, IsCodec, IsPayoutsKey, Plain, stored_or, load_lem, payouts_at-encoded, get-store_payouts,
  get-set_other,
}
use p2pool_salvium_observer.Daemon.Rebuild.{miner_addresses, store_rebuilt, rebuild_all_payouts}

module _ {S : Type 0} (redis : Redis S) (codecs : Codecs) where
  processed_other : (addr : Text) → bytes_eq processed_key (payouts_key addr) ≡ false
  unfolding processed_key payouts_key bytes_eq
  processed_other addr = refl

  -- After the rebuilt payouts are stored a load finds them, for each miner; a miner who has none among
  -- them keeps the payouts that Redis had before.
  pub load-store_rebuilt :
      (laws : IsRedis redis)
      → IsCodec codecs.payouts
      → (r : Rebuilt) (s : S) (addr : Text) → IsPlain addr
      → Plain r.miner_payouts
      → All IsPayoutsKey (redis.payout_keys (store_rebuilt redis codecs r s))
      → lookup_hash addr
          (load_miner_payouts redis codecs.payouts (store_rebuilt redis codecs r s) [])
        ≡ stored_or
            (lookup_hash addr r.miner_payouts)
            (payouts_at redis codecs.payouts (payouts_key addr) s)
  unfolding store_rebuilt
  load-store_rebuilt laws decodes r s addr plain names named =
      let paid = store_payouts redis codecs.payouts r.miner_payouts s in
      load_lem redis codecs.payouts laws (store_rebuilt redis codecs r s) addr plain named
      ∙ payouts_at-encoded redis codecs.payouts laws decodes s (store_rebuilt redis codecs r s) addr
          (lookup_hash addr r.miner_payouts)
          (get-set_other redis codecs.payouts laws processed_key (payouts_key addr) _ paid
              (processed_other addr)
            ∙ get-store_payouts redis codecs.payouts laws r.miner_payouts s addr plain names)

  -- On at least one share RebuildAllPayouts succeeds, by the window of a tip that no share is
  -- above; it pays for a height what the replies for each found block of that height are worth to
  -- the miners of the window, one after the other, and its two counters add up to the number of
  -- found blocks.
  pub rebuild_all_payouts_lem :
      (keccak256 : List ℕ → List ℕ) (reply : ℕ → ℕ → Option (List ℕ)) (id : Hash) (share : Share)
      (shares : ShareMap) (mainchain_diff : Difficulty) (blocks : List FoundBlock) (s : S)
      → (r : Rebuilt) × (tip : Share) × (pplns : PplnsResult) × (rebuild_all_payouts redis codecs
            keccak256 reply
            ((id, share) ∷ shares)
            mainchain_diff
            blocks
            s
          ≡ some (r, store_rebuilt redis codecs r s))
        × IsHighest tip ((id, share) ∷ shares)
        × (calculate_pplns ((id, share) ∷ shares) tip mainchain_diff ≡ some pplns)
        × ((h : ℕ)
            → paid_for h r.miner_payouts ≡ owed reply (miner_addresses keccak256 pplns) h 0 blocks)
        × (r.success_count + r.error_count ≡ length blocks)
  unfolding rebuild_all_payouts
  rebuild_all_payouts_lem keccak256 reply id share shares mainchain_diff blocks s =
      let (tip, found, _, highest) = find_tip_lem id share shares in
      let (w, _, computed) = calculate_pplns_total ((id, share) ∷ shares) tip mainchain_diff in
      let miners = miner_addresses keccak256 (finish tip w) in
      let r = rebuild_blocks reply miners 0 blocks nothing_rebuilt in
      (
        r,
        tip,
        finish tip w,
        rw (rebuild_all_payouts, found, computed) refl,
        highest,
        computed,
        λ h. (rebuild_blocks-pays reply miners h blocks).0,
        (rebuild_blocks-pays reply miners 0 blocks).1,
      )
