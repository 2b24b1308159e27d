-- ===== src/Pplns.antt =====
-- p2pool/pplns.go: the walk over the PPLNS window, the weights of the miners and their payouts.
-- The counters and depths are Go ints far below 2^63, and are numbers here.
pub mod Total
pub mod Miners
pub mod Weight
pub mod Counts
pub mod Buckets
pub mod Payout
pub mod Top
pub mod Unique
use p2pool_salvium_observer.Prelude.{
  ℕ, zero, suc, ◌+◌, ◌-◌, ◌*◌, ◌/◌, Bool, true, false, Option, none, some, List, [], ◌∷◌, ◌++◌, map,
  ltb, leb, ◌==◌, if◌then◌else◌, length, take, replicate,
}
use p2pool_salvium_observer.Word.{sub64}
use p2pool_salvium_observer.Word.Int.{ℤ, pos, negsuc, int_of_u64}
use p2pool_salvium_observer.Difficulty.{
  Difficulty, zero_difficulty, cmp, is_greater, is_zero, add, sub, mul_64, div64, div,
}
use p2pool_salvium_observer.Share.{Hash, Address, Share}
use p2pool_salvium_observer.Share.Keys.{lookup_hash, lookup_address, insert_address}
use p2pool_salvium_observer.Sorting.{exchange_sort}
use p2pool_salvium_observer.Outcome.{Result, ok, panic}

abbrev pub pplns_window : ℕ
pplns_window = 2160

abbrev pub uncle_penalty : ℕ
uncle_penalty = 20

abbrev pub position_buckets : ℕ
position_buckets = 30

pub record MinerWeight : Type 0 where
  pub address : Address
  pub weight : Difficulty
  pub share_count : ℕ
  pub uncle_count : ℕ
  pub share_buckets : List ℕ
  pub uncle_buckets : List ℕ
  pub share_positions : List ℕ
  pub uncle_positions : List ℕ

-- `map[Address]*MinerWeight`
abbrev pub Weights : Type 0
Weights = List (Address × MinerWeight)

-- `map[Hash]*Share`
abbrev pub ShareMap : Type 0
ShareMap = List (Hash × Share)

pub record PplnsResult : Type 0 where
  pub shares : Weights
  pub total_weight : Difficulty
  pub blocks_included : ℕ
  pub uncles_included : ℕ
  pub tip_height : ℕ
  pub bottom_height : ℕ
  pub window_duration : ℤ

-- `&MinerWeight{Address: addr}`
abbrev pub new_miner : Address → MinerWeight
new_miner a = record {
  address = a;
  weight = zero_difficulty;
  share_count = 0;
  uncle_count = 0;
  share_buckets = replicate 30 0;
  uncle_buckets = replicate 30 0;
  share_positions = [];
  uncle_positions = [];
}

-- What `addWeight` does to the entry of the miner.
unfoldable pub credit : MinerWeight → Difficulty → Bool → ℕ → MinerWeight
credit mw weight true depth = record mw {
  weight = add mw.weight weight;
  uncle_count = mw.uncle_count + 1;
  uncle_positions = mw.uncle_positions ++ (depth ∷ []);
}
credit mw weight false depth = record mw {
  weight = add mw.weight weight;
  share_count = mw.share_count + 1;
  share_positions = mw.share_positions ++ (depth ∷ []);
}

abbrev pub miner_or_new : Address → Option MinerWeight → MinerWeight
miner_or_new a none = new_miner a
miner_or_new a (some mw) = mw

unfoldable pub add_weight : Weights → Address → Difficulty → Bool → ℕ → Weights
add_weight shares addr weight is_uncle depth =
    insert_address addr
      (credit (miner_or_new addr (lookup_address addr shares)) weight is_uncle depth) shares

-- The variables of the loop of `CalculatePPLNS` that outlive a round.
pub record Walk : Type 0 where
  pub shares : Weights
  pub weight : Difficulty
  pub blocks : ℕ
  pub uncles : ℕ
  pub bottom_height : ℕ
  pub bottom_timestamp : ℕ
  pub block_depth : ℕ

-- The part of an uncle's difficulty that the share which includes it gets, and the rest.
unfoldable pub penalty_of : Difficulty → Difficulty
penalty_of d = div64 (mul_64 d uncle_penalty) 100

unfoldable pub uncle_weight_of : Difficulty → Difficulty
unfolding penalty_of
uncle_weight_of d = sub d (penalty_of d)

module _ (shares : ShareMap) (tip : Share) (max_weight : Difficulty) where
  -- The body of the loop over the uncles, on the current share's weight and the walk.
  unfoldable pub include_uncle : Share → Difficulty × Walk → Difficulty × Walk
  include_uncle uncle (cur_weight, w) =
      let uncle_weight = uncle_weight_of uncle.difficulty in
      let new_weight = add w.weight uncle_weight in
      if leb pplns_window (sub64 tip.sidechain_height uncle.sidechain_height)
      then (cur_weight, w)
      else if is_greater (cmp new_weight max_weight)
      then (cur_weight, w)
      else (
        add cur_weight (penalty_of uncle.difficulty),
        record w {
          shares = add_weight w.shares uncle.miner_wallet uncle_weight true w.block_depth;
          weight = new_weight;
          uncles = w.uncles + 1;
        },
      )

  unfoldable pub visit_uncles : List Hash → Difficulty × Walk → Difficulty × Walk
  visit_uncles [] state = state
  visit_uncles (id ∷ ids) state =
      visit_uncles ids
        (elim (lookup_hash id shares) [ none ↦ state | some uncle ↦ include_uncle uncle state ])

  -- A round up to the first `break`: the uncles, then the share itself.
  unfoldable pub include_share : Share → Walk → Walk
  include_share cur w =
      let (cur_weight, w') = visit_uncles cur.uncles (cur.difficulty, w) in
      record w' {
        shares = add_weight w'.shares cur.miner_wallet cur_weight false w'.block_depth;
        weight = add w'.weight cur_weight;
        blocks = w'.blocks + 1;
        bottom_height = cur.sidechain_height;
        bottom_timestamp = cur.timestamp;
      }

  -- The loop; `none` means that the fuel ran out.
  unfoldable pub walk : ℕ → Share → Walk → Option Walk
  walk zero cur w = none
  walk (suc fuel) cur w =
      let w1 = include_share cur w in
      let w2 = record w1 { block_depth = w1.block_depth + 1 } in
      elim (is_greater (cmp w1.weight max_weight)) [
        | true ↦ some w1
        | false ↦ elim (leb pplns_window w2.block_depth) [
          | true ↦ some w2
          | false ↦ elim (cur.sidechain_height == 0) [
            | true ↦ some w2
            | false ↦ elim (lookup_hash cur.parent shares) [
              | none ↦ some w2
              | some parent ↦ walk fuel parent w2
            ]
          ]
        ]
      ]

-- The bucket of a share at a depth, in a window of the given size.
unfoldable pub bucket_of : ℕ → ℕ → ℕ
bucket_of size depth =
    let bucket = if ltb 1 size then depth * (position_buckets - 1) / (size - 1) else 0 in
    if leb position_buckets bucket then position_buckets - 1 else bucket

-- `buckets[i]++`
unfoldable pub increment : List ℕ → ℕ → List ℕ
increment [] i = []
increment (b ∷ bs) zero = (b + 1) ∷ bs
increment (b ∷ bs) (suc i) = b ∷ increment bs i

unfoldable pub fill_buckets : ℕ → List ℕ → List ℕ → List ℕ
fill_buckets size buckets [] = buckets
fill_buckets size buckets (d ∷ ds) = fill_buckets size (increment buckets (bucket_of size d)) ds

unfoldable pub finalize_miner : ℕ → MinerWeight → MinerWeight
finalize_miner size mw = record mw {
  share_buckets = fill_buckets size (replicate 30 0) mw.share_positions;
  uncle_buckets = fill_buckets size (replicate 30 0) mw.uncle_positions;
}

unfoldable pub finalize_buckets : Weights → ℕ → Weights
finalize_buckets shares actual_window_size =
    let size = if leb actual_window_size 0 then 1 else actual_window_size in
    map (λ (e : Address × MinerWeight). (e.0, finalize_miner size e.1)) shares

abbrev pub start_walk : Walk
start_walk = record {
  shares = [];
  weight = zero_difficulty;
  blocks = 0;
  uncles = 0;
  bottom_height = 0;
  bottom_timestamp = 0;
  block_depth = 0;
}

-- The result from the variables at the end of the loop.
unfoldable pub finish : Share → Walk → PplnsResult
finish tip w = record {
  shares = finalize_buckets w.shares w.blocks;
  total_weight = w.weight;
  blocks_included = w.blocks;
  uncles_included = w.uncles;
  tip_height = tip.sidechain_height;
  bottom_height = w.bottom_height;
  window_duration = int_of_u64 (sub64 tip.timestamp w.bottom_timestamp);
}

-- A round raises the depth, which stops the loop at 2160: as many rounds are enough.
unfoldable pub calculate_pplns : ShareMap → Share → Difficulty → Option PplnsResult
calculate_pplns shares tip mainchain_diff =
    elim (walk shares tip (mul_64 mainchain_diff 2) pplns_window tip start_walk) [
      | none ↦ none
      | some w ↦ some (finish tip w)
    ]

-- `SharePositionString` and `UnclePositionString` differ in the buckets only.
abbrev pub position_char : ℕ → ℕ
position_char count = if count == 0 then b'.' else if ltb count 10 then b'0' + count else b'+'

unfoldable pub position_string : List ℕ → List ℕ
position_string buckets = b'[' ∷ (map position_char buckets ++ (b']' ∷ []))

unfoldable pub share_position_string : MinerWeight → List ℕ
unfolding position_string
share_position_string mw = position_string mw.share_buckets

unfoldable pub uncle_position_string : MinerWeight → List ℕ
unfolding position_string
uncle_position_string mw = position_string mw.uncle_buckets

-- `miners[j].Weight.Cmp(miners[i].Weight) > 0`
abbrev pub heavier : MinerWeight → MinerWeight → Bool
heavier a b = is_greater (cmp a.weight b.weight)

abbrev pub miner_of : Address × MinerWeight → MinerWeight
miner_of e = e.1

-- `TopMiners(n)` for an `n` that is not negative, as each call in the code has it. Each call meets
-- the map in an order of its own, which is the order of the list here.
unfoldable pub heaviest_miners : PplnsResult → ℕ → List MinerWeight
heaviest_miners r n =
    let miners = exchange_sort heavier (map miner_of r.shares) in
    take (if ltb (length miners) n then length miners else n) miners

-- `miners[:n]` panics where `n` is negative.
unfoldable pub top_miners : PplnsResult → ℤ → Result (List MinerWeight)
top_miners r (pos n) = ok (heaviest_miners r n)
top_miners r (negsuc n) = panic

-- The result, for a call that meets its map in another order.
abbrev pub in_order : Weights → PplnsResult → PplnsResult
in_order order r = record r { shares = order }

unfoldable pub get_ordered_miners : PplnsResult → List Address
get_ordered_miners r = map (λ (mw : MinerWeight). mw.address) (heaviest_miners r (length r.shares))

-- The loop of both payout functions: the miners with what each is given.
unfoldable pub payout_loop : Difficulty → ℕ → Difficulty → ℕ → List MinerWeight → List (Address × ℕ)
payout_loop total reward cumulative given [] = []
payout_loop total reward cumulative given (mw ∷ rest) =
    let cumulative' = add cumulative mw.weight in
    let next = div (mul_64 cumulative' reward) total in
    (mw.address, sub64 next.lo given) ∷ payout_loop total reward cumulative' next.lo rest

unfoldable pub estimated_payout_ordered : PplnsResult → ℕ → List (Address × ℕ)
estimated_payout_ordered r reward =
    if is_zero r.total_weight
    then []
    else payout_loop r.total_weight reward zero_difficulty 0 (heaviest_miners r (length r.shares))

-- `payouts[mw.Address] = payout`, one after the other.
unfoldable pub assign_all : List (Address × ℕ) → List (Address × ℕ) → List (Address × ℕ)
assign_all payouts [] = payouts
assign_all payouts ((a, p) ∷ rest) = assign_all (insert_address a p payouts) rest

unfoldable pub estimated_payout : PplnsResult → ℕ → List (Address × ℕ)
estimated_payout r reward =
    if is_zero r.total_weight
    then []
    else assign_all []
        (payout_loop r.total_weight reward zero_difficulty 0 (heaviest_miners r (length r.shares)))
