-- ===== src/Daemon/Stats.antt =====
-- The numbers that the daemon writes for the pool and the network (cmd/daemon/main.go):
-- `storeHashrate`, `storeEffort`, `storeNetworkStats` and `storeStats`. Times are Unix seconds, but
-- for the supply, where they are nanoseconds. The effort in percent, a float64, is left out.
pub mod Hashrate
pub mod Effort
pub mod Caching
use p2pool_salvium_observer.Prelude.{
  ℕ, ◌+◌, ◌*◌, ◌/◌, ◌^◌, Bool, true, false, ◌&&◌, ◌||◌, Option, none, some, List, [], ◌∷◌, ltb,
  ◌==◌, if◌then◌else◌, length,
}
use p2pool_salvium_observer.Word.{add64, sub64, mul64}
use p2pool_salvium_observer.Word.Int.{ℤ, pos, negsuc, sub_int, ltb_ℤ, bits_of_int}
use p2pool_salvium_observer.Difficulty.{Difficulty}
use p2pool_salvium_observer.Share.{Share, bytes_eq}
use p2pool_salvium_observer.Pplns.{ShareMap, PplnsResult}
use p2pool_salvium_observer.Daemon.{Text, FoundBlock}
use p2pool_salvium_observer.Daemon.Decimal.{starts_digit, scan_digits}
use p2pool_salvium_observer.Daemon.Entries.{skip_spaces}

-- The last share of the map at a height, or the one before.
unfoldable pub share_at : ℕ → Option Share → ShareMap → Option Share
share_at height found [] = found
share_at height found ((id, share) ∷ shares) =
    share_at height (if share.sidechain_height == height then some share else found) shares

-- `timeSpan`, with 1 in place of 0.
unfoldable pub time_span : Share → Share → ℕ
time_span tip bottom =
    let span = sub64 tip.timestamp bottom.timestamp in if span == 0 then 1 else span

-- `stats:pool:hashrate`, when it is written.
unfoldable pub store_hashrate : ShareMap → PplnsResult → Option ℕ
store_hashrate shares pplns =
    if ltb pplns.blocks_included 2 then none else elim (share_at pplns.bottom_height none shares) [
      | none ↦ none
      | some bottom ↦ elim (share_at pplns.tip_height none shares) [
        | none ↦ none
        | some tip ↦ some (pplns.total_weight.lo / time_span tip bottom)
      ]
    ]

-- `fmt.Sscanf(s, "%d", &v)` into a zero uint64, with its error ignored.
unfoldable pub scan_or_zero : Text → ℕ
scan_or_zero s =
    let digits = skip_spaces s in
    let v = (scan_digits digits 0).0 in if starts_digit digits && ltb v (2 ^ 64) then v else 0

unfoldable pub last_block : List FoundBlock → Option FoundBlock
last_block [] = none
last_block (fb ∷ []) = some fb
last_block (fb ∷ fb' ∷ blocks) = last_block (fb' ∷ blocks)

-- The hashes since the last found block, from the totals or from `stats:pool:hashrate` and the time.
unfoldable pub round_hashes : Share → Text → ℤ → FoundBlock → ℕ
round_hashes tip hashrate now last_found = elim (last_found.total_hashes) [
  | [] ↦
      (let hr = scan_or_zero hashrate in
        let time_since = sub_int now last_found.timestamp in
        if ltb_ℤ (pos 0) time_since && ltb 0 hr then mul64 hr (bits_of_int time_since) else 0)
  | _ ∷ _ ↦
      (let last_total_hashes = scan_or_zero last_found.total_hashes in
        if ltb last_total_hashes tip.cumulative_difficulty.lo
        then sub64 tip.cumulative_difficulty.lo last_total_hashes
        else 0)
]

pub record EffortStats : Type 0 where
  pub round_hashes : ℕ
  pub last_found_time : ℤ
  pub last_found_block : ℕ
  pub total_found : ℕ
  pub updated_at : ℤ

-- `stats:pool:effort`, when it is written.
unfoldable pub store_effort : List FoundBlock → Option Share → Text → ℤ → Option EffortStats
store_effort blocks none hashrate now = none
store_effort blocks (some tip) hashrate now = elim (last_block blocks) [
  | none ↦ none
  | some last_found ↦ some (record {
    round_hashes = round_hashes tip hashrate now last_found;
    last_found_time = last_found.timestamp;
    last_found_block = last_found.height;
    total_found = length blocks;
    updated_at = now;
  })
]

-- The part of the daemon's state that caches the supply. `supply_time` is none at Go's zero time.
pub record Supply : Type 0 where
  pub supply_time : Option ℕ
  pub supply : ℕ
  pub circulating : ℕ
  pub staked : ℕ
  pub burned : ℕ

-- What `GetSupplyInfo` replies.
pub record SupplyInfo : Type 0 where
  pub circulating : ℕ
  pub staked : ℕ
  pub burned : ℕ

-- `GetSupplyInfo` (p2pool/rpc.go), on the amounts and labels of the reply.
unfoldable pub read_entry : Text × Text → SupplyInfo → SupplyInfo
read_entry (amount, label) info =
    let v = scan_or_zero amount in
    if bytes_eq label (83 ∷ 65 ∷ 76 ∷ 49 ∷ [])
    then record info { circulating = v }
    else if bytes_eq label (83 ∷ 84 ∷ 65 ∷ 75 ∷ 69 ∷ [])
    then record info { staked = v }
    else if bytes_eq label (66 ∷ 85 ∷ 82 ∷ 78 ∷ [])
    then record info { burned = v }
    else info

unfoldable pub read_tally : List (Text × Text) → SupplyInfo → SupplyInfo
read_tally [] info = info
read_tally (entry ∷ tally) info = read_tally tally (read_entry entry info)

unfoldable pub get_supply_info : List (Text × Text) → SupplyInfo
get_supply_info tally = read_tally tally (record { circulating = 0; staked = 0; burned = 0 })

abbrev pub hour : ℕ
hour = 3600000000000

-- `time.Since(d.lastSupplyTime) > time.Hour || d.lastSupply == 0`
unfoldable pub is_stale : ℕ → Supply → Bool
is_stale now s =
    elim (s.supply_time) [ none ↦ true | some fetched ↦ ltb (fetched + hour) now ] || s.supply == 0

-- The supply after the attempt to fetch it, which is made only when it is stale.
unfoldable pub update_supply : ℕ → Option SupplyInfo → Supply → Supply
update_supply now reply s =
    if is_stale now s
    then elim reply [
      | none ↦ s
      | some info ↦ record {
        supply_time = some now;
        supply = add64 info.circulating info.staked;
        circulating = info.circulating;
        staked = info.staked;
        burned = info.burned;
      }
    ]
    else s
