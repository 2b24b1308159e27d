-- ===== src/Daemon/Persist.antt =====
-- What the daemon keeps in Redis between runs (cmd/daemon/main.go): the payouts of each miner, the
-- processed heights and the snapshots. Redis and the JSON codec are parameters.
pub mod Keys
pub mod Restart
pub mod Calculated
use p2pool_salvium_observer.Prelude.{
  ℕ, ◌+◌, ◌/◌, ◌%◌, ◌≡◌, Bool, true, false, ◌||◌, Option, none, some, List, [], ◌∷◌, ◌++◌, ltb,
  ◌==◌, if◌then◌else◌,
}
use p2pool_salvium_observer.Share.{bytes_eq}
use p2pool_salvium_observer.Share.Keys.{insert_hash}
use p2pool_salvium_observer.Daemon.{Text, FoundBlock, Payout}
use p2pool_salvium_observer.Daemon.Payouts.{MinerPayouts, Pass, process_blocks}

-- `fmt.Sprintf("miner:%s:payouts", addr)`
unfoldable pub payouts_key : Text → Text
payouts_key addr =
    (109 ∷ 105 ∷ 110 ∷ 101 ∷ 114 ∷ 58 ∷ [])
    ++ (addr ++ (58 ∷ 112 ∷ 97 ∷ 121 ∷ 111 ∷ 117 ∷ 116 ∷ 115 ∷ []))

-- `string(p)` of a byte: the UTF-8 text of the code point.
abbrev pub byte_text : ℕ → Text
byte_text p = if ltb p 128 then p ∷ [] else (192 + p / 64) ∷ (128 + p % 64) ∷ []

-- `parts[len(parts)-1] += …`, when there is a part.
abbrev pub extend_last : Text → List Text → List Text
extend_last t [] = []
extend_last t (part ∷ []) = (part ++ t) ∷ []
extend_last t (part ∷ part' ∷ parts) = part ∷ extend_last t (part' ∷ parts)

-- The body of the loop over the bytes of a key.
abbrev pub add_byte : List Text → ℕ → List Text
add_byte parts p = if p == 58 then parts ++ ([] ∷ []) else extend_last (byte_text p) parts

unfoldable pub split_key : Text → List Text → List Text
split_key [] parts = parts
split_key (p ∷ key) parts = split_key key (add_byte parts p)

abbrev pub first_part : List Text → Option Text
first_part [] = none
first_part (part ∷ []) = none
first_part (part ∷ part' ∷ parts) = some part

-- The address in a key `miner:ADDR:payouts`.
unfoldable pub address_of_key : Text → Option Text
address_of_key key = first_part (split_key key [])

-- What the daemon uses of a Redis client, on the contents of the database. `payout_keys` is the
-- reply to `KEYS miner:*:payouts`.
pub record Redis (S : Type 0) : Type 0 where
  pub get : Text → S → Option Text
  pub set : Text → Text → S → S
  pub payout_keys : S → List Text

-- `json.Marshal` and `json.Unmarshal` for a type.
pub record Codec (A : Type 0) : Type 0 where
  pub encode : A → Text
  pub decode : Text → Option A

module _ {S : Type 0} (redis : Redis S) (payouts_codec : Codec (List Payout)) where
  -- The loop that writes the payouts of each miner. Go takes the miners in any order; here the last
  -- of the list comes first.
  unfoldable pub store_payouts : MinerPayouts → S → S
  store_payouts [] s = s
  store_payouts ((addr, payouts) ∷ m) s =
      redis.set (payouts_key addr) (payouts_codec.encode payouts) (store_payouts m s)

  -- The payouts of a key, when it has some that decode.
  unfoldable pub payouts_at : Text → S → Option (List Payout)
  payouts_at key s = elim (redis.get key s) [ none ↦ none | some text ↦ payouts_codec.decode text ]

  -- A round of the loop of `loadMinerPayouts`.
  unfoldable pub load_key : S → Text → MinerPayouts → MinerPayouts
  load_key s key m = elim (payouts_at key s) [
    | none ↦ m
    | some payouts ↦ elim (address_of_key key) [ none ↦ m | some addr ↦ insert_hash addr payouts m ]
  ]

  unfoldable pub load_keys : S → List Text → MinerPayouts → MinerPayouts
  load_keys s [] m = m
  load_keys s (key ∷ keys) m = load_keys s keys (load_key s key m)

  unfoldable pub load_miner_payouts : S → MinerPayouts → MinerPayouts
  load_miner_payouts s m = load_keys s (redis.payout_keys s) m

-- `json.Marshal` of a map, and what `json.Unmarshal` makes of the map that it reads into.
pub record MapCodec (M : Type 0) : Type 0 where
  pub marshal : M → Text
  pub unmarshal_into : Text → M → M

-- `cache:processed_payouts`, `cache:pplns_snapshots` and `cache:found_blocks`.
unfoldable pub processed_key : Text
processed_key =
    99 ∷ 97 ∷ 99 ∷ 104 ∷ 101 ∷ 58 ∷ 112 ∷ 114 ∷ 111 ∷ 99 ∷ 101 ∷ 115 ∷ 115 ∷ 101 ∷ 100 ∷ 95 ∷ 112
    ∷ 97 ∷ 121 ∷ 111 ∷ 117 ∷ 116 ∷ 115 ∷ []

unfoldable pub snapshots_key : Text
snapshots_key =
    99 ∷ 97 ∷ 99 ∷ 104 ∷ 101 ∷ 58 ∷ 112 ∷ 112 ∷ 108 ∷ 110 ∷ 115 ∷ 95 ∷ 115 ∷ 110 ∷ 97 ∷ 112 ∷ 115
    ∷ 104 ∷ 111 ∷ 116 ∷ 115 ∷ []

unfoldable pub found_key : Text
found_key =
    99 ∷ 97 ∷ 99 ∷ 104 ∷ 101 ∷ 58 ∷ 102 ∷ 111 ∷ 117 ∷ 110 ∷ 100 ∷ 95 ∷ 98 ∷ 108 ∷ 111 ∷ 99 ∷ 107
    ∷ 115 ∷ []

pub record Codecs : Type 0 where
  pub payouts : Codec (List Payout)
  pub processed : MapCodec (List (ℕ × Bool))
  pub snapshots : MapCodec (List (ℕ × List Text))
  pub found_blocks : Codec (List FoundBlock)

-- `loadProcessedPayouts` and `loadPPLNSSnapshots` differ in the key and the map.
abbrev pub load_map : {M : Type 0} → MapCodec M → Option Text → M → M
load_map codec none m = m
load_map codec (some text) m = codec.unmarshal_into text m

-- The load on the first run, which is repeated while a map is empty.
abbrev pub if_empty : {A : Type 0} → List A → List A → List A
if_empty [] loaded = loaded
if_empty (a ∷ m) loaded = a ∷ m

module _ {S : Type 0} (redis : Redis S) (codecs : Codecs) where
  -- The maps at the start of the loop, and its counters.
  unfoldable pub load_pass : S → Pass → Pass
  load_pass s p = record {
    processed =
        if_empty p.processed (load_map codecs.processed (redis.get processed_key s) p.processed);
    miner_payouts =
        if_empty p.miner_payouts (load_miner_payouts redis codecs.payouts s p.miner_payouts);
    snapshots =
        if_empty p.snapshots (load_map codecs.snapshots (redis.get snapshots_key s) p.snapshots);
    new_payouts = 0;
    new_snapshots = 0;
    rewards_updated = false;
  }

  unfoldable pub store_pass : Pass → S → S
  store_pass p s = redis.set snapshots_key (codecs.snapshots.marshal p.snapshots) (
      redis.set processed_key (codecs.processed.marshal p.processed)
        (store_payouts redis codecs.payouts p.miner_payouts s))

  unfoldable pub store_results : List FoundBlock → Pass → S → S
  store_results blocks p s =
      let stored = if ltb 0 p.new_payouts || ltb 0 p.new_snapshots then store_pass p s else s in
      if p.rewards_updated
      then redis.set found_key (codecs.found_blocks.encode blocks) stored
      else stored

  -- `calculatePayouts`, on the found blocks, the maps and Redis.
  unfoldable pub calculate_payouts :
      (reply : ℕ → ℕ → Option (List ℕ)) (current : List Text)
      → List FoundBlock × Pass × S
      → List FoundBlock × Pass × S
  calculate_payouts reply current ([], p, s) = ([], p, s)
  calculate_payouts reply current (fb ∷ blocks, p, s) =
      let (blocks', p') = process_blocks reply current 0 (fb ∷ blocks) (load_pass s p) in
      (blocks', p', store_results blocks' p' s)
