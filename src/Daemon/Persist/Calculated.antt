-- ===== src/Daemon/Persist/Calculated.antt =====
-- `calculatePayouts` followed by a restart: the next daemon begins with the payouts, the processed
-- heights and the snapshots of the last.
use p2pool_salvium_observer.Prelude.{
  ℕ, ◌≡◌, refl, sym, ◌∙◌, Bool, true, false, ◌||◌, Option, some, List, [], ◌∷◌, ltb, All,
  Bool-cases, inl, inr,
}
use p2pool_salvium_observer.Share.{bytes_eq}
use p2pool_salvium_observer.Share.Keys.{lookup_hash, bytes_eq_refl}
use p2pool_salvium_observer.Daemon.{Text, FoundBlock, Payout, lookup_height}
use p2pool_salvium_observer.Daemon.Payouts.{MinerPayouts, Pass}
use p2pool_salvium_observer.Daemon.Persist.{
  Redis, MapCodec, Codecs, payouts_key, processed_key, snapshots_key, found_key, load_pass,
  store_pass, store_results, calculate_payouts, store_payouts,
}
use p2pool_salvium_observer.Daemon.Persist.Restart.{
  IsRedis, IsCodec, IsPayoutsKey, Plain, get-set_same, get-set_other, load_lem, payouts_at-encoded,
  get-store_payouts,
}

-- A map is read back into an empty one with the values of its keys.
abbrev pub IsMapCodec : {V : Type 0} → MapCodec (List (ℕ × V)) → Type 0
IsMapCodec {V} codec =
    (m : List (ℕ × V)) (height : ℕ)
    → lookup_height height (codec.unmarshal_into (codec.marshal m) []) ≡ lookup_height height m

pub record AreCodecs (codecs : Codecs) : Type 0 where
  pub payouts : IsCodec codecs.payouts
  pub processed : IsMapCodec codecs.processed
  pub snapshots : IsMapCodec codecs.snapshots

-- A daemon that has just started.
abbrev pub fresh : Pass
fresh = record {
  processed = [];
  miner_payouts = [];
  snapshots = [];
  new_payouts = 0;
  new_snapshots = 0;
  rewards_updated = false;
}

-- Something new was stored.
abbrev pub is_new : Pass → Bool
is_new p = ltb 0 p.new_payouts || ltb 0 p.new_snapshots

-- The second has the heights and the snapshots of the first, and its payouts.
abbrev pub IsRestored : Pass → Pass → Type 0
IsRestored p q =
    ((height : ℕ) → lookup_height height q.processed ≡ lookup_height height p.processed)
    × ((height : ℕ) → lookup_height height q.snapshots ≡ lookup_height height p.snapshots)
    × All (λ e. lookup_hash e.0 q.miner_payouts ≡ lookup_hash e.0 p.miner_payouts) p.miner_payouts

-- The map has payouts under the key of an entry.
abbrev HasEntry : MinerPayouts → Text × List Payout → Type 0
HasEntry m e = (payouts : List Payout) × (lookup_hash e.0 m ≡ some payouts)

HasEntry-cons :
    (addr : Text) (payouts : List Payout) (m es : MinerPayouts)
    → All (HasEntry m) es
    → All (HasEntry ((addr, payouts) ∷ m)) es
HasEntry-cons addr payouts m [] h = tt
HasEntry-cons addr payouts m ((a, old) ∷ es) ((there, found), h) = (
  elim (Bool-cases (bytes_eq addr a)) [
    | inl same ↦ (payouts, rw same refl)
    | inr other ↦ (there, rw other found)
  ],
  HasEntry-cons addr payouts m es h,
)

HasEntry-All : (m : MinerPayouts) → All (HasEntry m) m
HasEntry-All [] = tt
HasEntry-All ((addr, payouts) ∷ m) =
    ((payouts, rw (bytes_eq_refl addr) refl), HasEntry-cons addr payouts m m (HasEntry-All m))

module _ {S : Type 0} (redis : Redis S) (codecs : Codecs) (laws : IsRedis redis)
    (decodes : AreCodecs codecs) where
  key_other :
      (addr : Text)
      → (bytes_eq processed_key (payouts_key addr) ≡ false)
        × (bytes_eq snapshots_key (payouts_key addr) ≡ false)
        × (bytes_eq found_key (payouts_key addr) ≡ false)
  unfolding processed_key snapshots_key found_key payouts_key bytes_eq
  key_other addr = (refl, refl, refl)

  map_keys_other :
      (bytes_eq snapshots_key processed_key ≡ false)
      × (bytes_eq found_key processed_key ≡ false)
      × (bytes_eq found_key snapshots_key ≡ false)
  unfolding processed_key snapshots_key found_key bytes_eq
  map_keys_other = (refl, refl, refl)

  -- What is read back of the three kinds of keys from a database that has a pass.
  abbrev pub HasStored : Pass → S → S → Type 0
  HasStored p s s' =
      (redis.get processed_key s' ≡ some (codecs.processed.marshal p.processed))
      × (redis.get snapshots_key s' ≡ some (codecs.snapshots.marshal p.snapshots))
      × ((addr : Text)
          → redis.get (payouts_key addr) s'
            ≡ redis.get (payouts_key addr) (store_payouts redis codecs.payouts p.miner_payouts s))

  store_pass-HasStored : (p : Pass) (s : S) → HasStored p s (store_pass redis codecs p s)
  unfolding store_pass
  store_pass-HasStored p s =
      let paid = store_payouts redis codecs.payouts p.miner_payouts s in
      let marked = redis.set processed_key (codecs.processed.marshal p.processed) paid in
      (
        get-set_other redis codecs.payouts laws snapshots_key processed_key _ marked
              map_keys_other.0
            ∙ get-set_same redis codecs.payouts laws processed_key _ paid,
        get-set_same redis codecs.payouts laws snapshots_key _ marked,
        λ addr.
            get-set_other redis codecs.payouts laws snapshots_key (payouts_key addr) _ marked
              (key_other addr).1
            ∙ get-set_other redis codecs.payouts laws processed_key (payouts_key addr) _ paid
                (key_other addr).0,
      )

  found-HasStored :
      (p : Pass) (s s' : S) (v : Text) → HasStored p s s' → HasStored p s (redis.set found_key v s')
  found-HasStored p s s' v (processed, snapshots, payouts) = (
    get-set_other redis codecs.payouts laws found_key processed_key v s' map_keys_other.1
        ∙ processed,
    get-set_other redis codecs.payouts laws found_key snapshots_key v s' map_keys_other.2
        ∙ snapshots,
    λ addr.
        get-set_other redis codecs.payouts laws found_key (payouts_key addr) v s' (key_other addr).2
        ∙ payouts addr,
  )

  store_results-HasStored :
      (blocks : List FoundBlock) (p : Pass) (s : S)
      → is_new p ≡ true
      → HasStored p s (store_results redis codecs blocks p s)
  unfolding store_results store_pass
  store_results-HasStored blocks p s changed = elim (Bool-cases p.rewards_updated) [
    | inl updated ↦
        rw (store_results, changed, updated)
          (found-HasStored p s (store_pass redis codecs p s) (codecs.found_blocks.encode blocks)
            (store_pass-HasStored p s))
    | inr same ↦ rw (store_results, changed, same) (store_pass-HasStored p s)
  ]

  payouts-restored :
      (p : Pass) (s s' : S) (es : MinerPayouts)
      → HasStored p s s'
      → Plain p.miner_payouts
      → All IsPayoutsKey (redis.payout_keys s')
      → Plain es
      → All (HasEntry p.miner_payouts) es
      → All
          (λ e.
            lookup_hash e.0 (load_pass redis codecs s' fresh).miner_payouts
            ≡ lookup_hash e.0 p.miner_payouts)
          es
  unfolding load_pass
  payouts-restored p s s' [] stored names named plain there = tt
  payouts-restored p s s' ((addr, old) ∷ es) stored names named (plain, plain')
        ((paid, there), there') =
      (
        load_lem redis codecs.payouts laws s' addr plain named
            ∙ payouts_at-encoded redis codecs.payouts laws decodes.payouts s s' addr (some paid) (
                stored.2 addr
                ∙ get-store_payouts redis codecs.payouts laws p.miner_payouts s addr plain names
                ∙ rw there refl)
            ∙ sym there,
        payouts-restored p s s' es stored names named plain' there',
      )

  restored :
      (p : Pass) (s s' : S)
      → HasStored p s s'
      → Plain p.miner_payouts
      → All IsPayoutsKey (redis.payout_keys s')
      → IsRestored p (load_pass redis codecs s' fresh)
  unfolding load_pass
  restored p s s' stored names named = (
    λ height. rw stored.0 (decodes.processed p.processed height),
    λ height. rw stored.1 (decodes.snapshots p.snapshots height),
    payouts-restored p s s' p.miner_payouts stored names named names (HasEntry-All p.miner_payouts),
  )

  -- Where calculatePayouts has taken a snapshot or paid for a block, for plain addresses and with
  -- only payout keys of plain addresses in Redis, a daemon that starts again begins with the same
  -- processed heights, snapshots and payouts of each miner.
  pub calculate_payouts-IsRestored :
      (reply : ℕ → ℕ → Option (List ℕ)) (current : List Text) (fb : FoundBlock)
      (blocks : List FoundBlock) (p : Pass) (s : S)
      → let r = calculate_payouts redis codecs reply current (fb ∷ blocks, p, s) in
        is_new r.1 ≡ true
        → Plain r.1.miner_payouts
        → All IsPayoutsKey (redis.payout_keys r.2)
        → IsRestored r.1 (load_pass redis codecs r.2 fresh)
  unfolding calculate_payouts
  calculate_payouts-IsRestored reply current fb blocks p s changed names named =
      let r = calculate_payouts redis codecs reply current (fb ∷ blocks, p, s) in
      restored r.1 s r.2 (store_results-HasStored r.0 r.1 s changed) names named
