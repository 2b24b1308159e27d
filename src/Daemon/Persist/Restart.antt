-- ===== src/Daemon/Persist/Restart.antt =====
-- A daemon that starts again loads what the last one stored.
use p2pool_salvium_observer.Prelude.{
  ◌≡◌, ◌⊎◌, refl, ◌∙◌, sym, Bool, true, false, Option, none, some, List, [], ◌∷◌, arith, ◌||◌,
  if◌then◌else◌, All, Bool-cases, Option-cases, inl, inr,
}
use p2pool_salvium_observer.Share.{bytes_eq}
use p2pool_salvium_observer.Share.Keys.{
  lookup_hash, lookup-insert_hash, bytes_eq_sound, bytes_eq_refl,
}
use p2pool_salvium_observer.Daemon.{Text, Payout}
use p2pool_salvium_observer.Daemon.Payouts.{MinerPayouts}
use p2pool_salvium_observer.Daemon.Persist.{
  Redis, Codec, payouts_key, store_payouts, payouts_at, load_key, load_keys, load_miner_payouts,
}
use p2pool_salvium_observer.Daemon.Persist.Keys.{
  IsPlain, address_of-payouts_key, bytes_eq-payouts_key,
}

abbrev pub is_in : Text → List Text → Bool
is_in k [] = false
is_in k (j ∷ keys) = bytes_eq j k || is_in k keys

-- A key of the miner list stands for an address.
abbrev pub IsPayoutsKey : Text → Type 0
IsPayoutsKey key = (addr : Text) × (key ≡ payouts_key addr) × IsPlain addr

-- What the daemon relies on in Redis: a value that is set is read back, other keys keep theirs, and
-- KEYS lists the payout keys that have a value.
pub record IsRedis {S : Type 0} (redis : Redis S) : Type 0 where
  pub get-set :
      (k j v : Text) (s : S)
      → redis.get j (redis.set k v s) ≡ (if bytes_eq k j then some v else redis.get j s)
  pub listed :
      (addr v : Text) (s : S)
      → redis.get (payouts_key addr) s ≡ some v
      → is_in (payouts_key addr) (redis.payout_keys s) ≡ true

abbrev pub IsCodec : {A : Type 0} → Codec A → Type 0
IsCodec {A} codec = (a : A) → codec.decode (codec.encode a) ≡ some a

-- All the addresses of a map are plain.
abbrev pub Plain : MinerPayouts → Type 0
Plain = All (λ e. IsPlain e.0)

-- The value that Redis has for a miner, or else the old one.
abbrev pub stored_or : Option (List Payout) → Option (List Payout) → Option (List Payout)
stored_or none old = old
stored_or (some payouts) old = some payouts

none-some : {A : Type 0} (a : A) → none ≡ some a → ⊥
none-some a h = cc

if-same : {A : Type 0} (b : Bool) (a : A) → (if b then a else a) ≡ a
if-same true a = refl
if-same false a = refl

module _ {S : Type 0} (redis : Redis S) (codec : Codec (List Payout)) where
  load_key_lem :
      (s : S) (a addr : Text) (m : MinerPayouts)
      → IsPlain a
      → lookup_hash addr (load_key redis codec s (payouts_key a) m) ≡ (
          if bytes_eq a addr
          then stored_or (payouts_at redis codec (payouts_key addr) s) (lookup_hash addr m)
          else lookup_hash addr m)
  unfolding load_key
  load_key_lem s a addr m plain = elim (Option-cases (payouts_at redis codec (payouts_key a) s)) [
    | inl nothing ↦ elim (Bool-cases (bytes_eq a addr)) [
      | inl same ↦
          let nothing' : payouts_at redis codec (payouts_key addr) s ≡ none =
            rw (bytes_eq_sound a addr same) at nothing in
          rw (load_key, nothing, same, nothing') refl
      | inr other ↦ rw (load_key, nothing, other) refl
    ]
    | inr (payouts, found) ↦ elim (Bool-cases (bytes_eq a addr)) [
      | inl same ↦
          let found' : payouts_at redis codec (payouts_key addr) s ≡ some payouts =
            rw (bytes_eq_sound a addr same) at found in
          rw
            (
              load_key,
              found,
              address_of-payouts_key a plain,
              lookup-insert_hash a addr payouts m,
              same,
              found',
            )
            refl
      | inr other ↦
          rw
            (
              load_key,
              found,
              address_of-payouts_key a plain,
              lookup-insert_hash a addr payouts m,
              other,
            )
            refl
    ]
  ]

  load_keys-none :
      (s : S) (keys : List Text) (m : MinerPayouts) (addr : Text)
      → All IsPayoutsKey keys
      → payouts_at redis codec (payouts_key addr) s ≡ none
      → lookup_hash addr (load_keys redis codec s keys m) ≡ lookup_hash addr m
  unfolding load_keys
  load_keys-none s [] m addr named nothing = refl
  load_keys-none s (key ∷ keys) m addr ((a, same, plain), named) nothing =
      load_keys-none s keys (load_key redis codec s key m) addr named nothing
      ∙ rw (same, load_key_lem s a addr m plain, nothing)
          (if-same (bytes_eq a addr) (lookup_hash addr m))

  load_keys-some :
      (s : S) (keys : List Text) (m : MinerPayouts) (addr : Text) (payouts : List Payout)
      → IsPlain addr
      → All IsPayoutsKey keys
      → payouts_at redis codec (payouts_key addr) s ≡ some payouts
      → (is_in (payouts_key addr) keys ≡ true) ⊎ (lookup_hash addr m ≡ some payouts)
      → lookup_hash addr (load_keys redis codec s keys m) ≡ some payouts
  unfolding load_keys
  load_keys-some s [] m addr payouts plain named found (inl listed) = absurd (ground arith)
  load_keys-some s [] m addr payouts plain named found (inr there) = there
  load_keys-some s (key ∷ keys) m addr payouts plain ((a, same, plain'), named) found where_found =
      load_keys-some s keys (load_key redis codec s key m) addr payouts plain named found
        (rw same (step (rw same at where_found)))
    where
      step :
          (is_in (payouts_key addr) (payouts_key a ∷ keys) ≡ true)
            ⊎ (lookup_hash addr m ≡ some payouts)
          → (is_in (payouts_key addr) keys ≡ true)
            ⊎ (lookup_hash addr (load_key redis codec s (payouts_key a) m) ≡ some payouts)
      step before = elim (Bool-cases (bytes_eq a addr)) [
        | inl here ↦ inr (load_key_lem s a addr m plain' ∙ rw (here, found) refl)
        | inr other ↦ elim before [
          | inl later ↦ inl (rw (bytes_eq-payouts_key a addr plain' plain, other) at later)
          | inr there ↦ inr (load_key_lem s a addr m plain' ∙ rw other there)
        ]
      ]

  abbrev pub encoded_or : Option (List Payout) → Option Text → Option Text
  encoded_or none old = old
  encoded_or (some payouts) old = some (codec.encode payouts)

  module _ (laws : IsRedis redis) where
    pub get-set_same : (k v : Text) (s : S) → redis.get k (redis.set k v s) ≡ some v
    get-set_same k v s = laws.get-set k k v s ∙ rw (bytes_eq_refl k) refl

    pub get-set_other :
        (k j v : Text) (s : S)
        → bytes_eq k j ≡ false
        → redis.get j (redis.set k v s) ≡ redis.get j s
    get-set_other k j v s other = laws.get-set k j v s ∙ rw other refl

    pub get-store_payouts :
        (m : MinerPayouts) (s : S) (addr : Text)
        → IsPlain addr
        → Plain m
        → redis.get (payouts_key addr) (store_payouts redis codec m s)
          ≡ encoded_or (lookup_hash addr m) (redis.get (payouts_key addr) s)
    unfolding store_payouts
    get-store_payouts [] s addr plain names = refl
    get-store_payouts ((a, payouts) ∷ m) s addr plain (plain', names) =
        elim (Bool-cases (bytes_eq a addr)) [
          | inl same ↦
              rw (store_payouts, laws.get-set, bytes_eq-payouts_key a addr plain' plain, same) refl
          | inr other ↦
              rw (store_payouts, laws.get-set, bytes_eq-payouts_key a addr plain' plain, other)
                (get-store_payouts m s addr plain names)
        ]

    -- A load finds what the database has.
    pub load_lem :
        (s : S) (addr : Text)
        → IsPlain addr
        → All IsPayoutsKey (redis.payout_keys s)
        → lookup_hash addr (load_miner_payouts redis codec s [])
          ≡ payouts_at redis codec (payouts_key addr) s
    unfolding load_miner_payouts payouts_at
    load_lem s addr plain named =
        elim (Option-cases (payouts_at redis codec (payouts_key addr) s)) [
          | inl nothing ↦ load_keys-none s (redis.payout_keys s) [] addr named nothing ∙ sym nothing
          | inr (payouts, found) ↦ elim (Option-cases (redis.get (payouts_key addr) s)) [
            | inl missing ↦
                let clash : payouts_at redis codec (payouts_key addr) s ≡ none =
                  rw (payouts_at, missing) refl in
                absurd (none-some payouts (sym clash ∙ found))
            | inr (v, there) ↦
                load_keys-some s (redis.payout_keys s) [] addr payouts plain named found
                  (inl (laws.listed addr v s there))
                ∙ sym found
          ]
        ]

    pub payouts_at-encoded :
        IsCodec codec
        → (s s' : S) (addr : Text) (o : Option (List Payout))
        → redis.get (payouts_key addr) s' ≡ encoded_or o (redis.get (payouts_key addr) s)
        → payouts_at redis codec (payouts_key addr) s'
          ≡ stored_or o (payouts_at redis codec (payouts_key addr) s)
    unfolding payouts_at
    payouts_at-encoded decodes s s' addr none read = rw (payouts_at, read) refl
    payouts_at-encoded decodes s s' addr (some payouts) read =
        rw (payouts_at, read, decodes payouts) refl

    -- After the payouts of each miner are stored, for plain addresses and with only payout keys of
    -- plain addresses in Redis, a load finds them; a miner who has none among them keeps the
    -- payouts that Redis had before.
    pub load-store_payouts :
        IsCodec codec
        → (m : MinerPayouts) (s : S) (addr : Text) → IsPlain addr
        → Plain m
        → All IsPayoutsKey (redis.payout_keys (store_payouts redis codec m s))
        → lookup_hash addr (load_miner_payouts redis codec (store_payouts redis codec m s) [])
          ≡ stored_or (lookup_hash addr m) (payouts_at redis codec (payouts_key addr) s)
    load-store_payouts decodes m s addr plain names named =
        load_lem (store_payouts redis codec m s) addr plain named
        ∙ payouts_at-encoded decodes s (store_payouts redis codec m s) addr (lookup_hash addr m)
            (get-store_payouts m s addr plain names)
