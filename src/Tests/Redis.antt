-- ===== src/Tests/Redis.antt =====
-- A database for the tests, in the place of Redis.
use p2pool_salvium_observer.Prelude.{
  ◌≡◌, refl, Bool, true, false, ◌&&◌, ◌||◌, some, List, [], ◌∷◌, ◌++◌, if◌then◌else◌, Bool-cases,
  inl, inr, take,
}
use p2pool_salvium_observer.Share.{bytes_eq}
use p2pool_salvium_observer.Share.Keys.{
  lookup_hash, insert_hash, lookup-insert_hash, bytes_eq_sound,
}
use p2pool_salvium_observer.Daemon.{Text}
use p2pool_salvium_observer.Daemon.Persist.{Redis, payouts_key}
use p2pool_salvium_observer.Daemon.Persist.Restart.{IsRedis, is_in}

abbrev pub Database : Type 0
Database = List (Text × Text)

abbrev suffix : Text
suffix = 58 ∷ 112 ∷ 97 ∷ 121 ∷ 111 ∷ 117 ∷ 116 ∷ 115 ∷ []

abbrev ends_with_suffix : Text → Bool
ends_with_suffix [] = false
ends_with_suffix (c ∷ key) = bytes_eq (c ∷ key) suffix || ends_with_suffix key

-- The pattern `miner:*:payouts`.
abbrev matches : Text → Bool
matches key = bytes_eq (take 6 key) (109 ∷ 105 ∷ 110 ∷ 101 ∷ 114 ∷ 58 ∷ []) && ends_with_suffix key

abbrev matching : Database → List Text
matching [] = []
matching ((key, v) ∷ s) = if matches key then key ∷ matching s else matching s

abbrev pub redis : Redis Database
redis = record { get = lookup_hash; set = insert_hash; payout_keys = matching }

or_true : (b : Bool) → (b || true) ≡ true
or_true true = refl
or_true false = refl

ends_append : (a : Text) → ends_with_suffix (a ++ suffix) ≡ true
unfolding bytes_eq
ends_append [] = refl
ends_append (c ∷ a) = rw (ends_append a) (or_true (bytes_eq (c ∷ (a ++ suffix)) suffix))

payouts_key-matches : (addr : Text) → matches (payouts_key addr) ≡ true
unfolding payouts_key bytes_eq
payouts_key-matches addr = ends_append (109 ∷ 105 ∷ 110 ∷ 101 ∷ 114 ∷ 58 ∷ addr)

listed :
    (k v : Text) (s : Database)
    → matches k ≡ true
    → lookup_hash k s ≡ some v
    → is_in k (matching s) ≡ true
listed k v [] m e = cc
listed k v ((j, w) ∷ s) m e = elim (Bool-cases (bytes_eq j k)) [
  | inl same ↦
      let m' : matches j ≡ true = rw (bytes_eq_sound j k same) m in rw (matching, m', same) refl
  | inr other ↦ elim (Bool-cases (matches j)) [
    | inl alike ↦ rw (matching, alike, other) (listed k v s m (rw other at e))
    | inr unlike ↦ rw (matching, unlike) (listed k v s m (rw other at e))
  ]
]

pub redis-IsRedis : IsRedis redis
redis-IsRedis = record {
  get-set = λ k j v s. lookup-insert_hash k j v s;
  listed = λ addr v s e. listed (payouts_key addr) v s (payouts_key-matches addr) e;
}
