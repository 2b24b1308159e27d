-- ===== src/Pplns/Weight.antt =====
-- The weights of `CalculatePPLNS` (p2pool/pplns.go): the miners' weights add up to the total, an
-- uncle never takes the total above the limit, and an uncle's difficulty is split without loss.
use p2pool_salvium_observer.Prelude.{
  ℕ, ◌+◌, ◌*◌, ◌/◌, ◌%◌, ◌^◌, ◌≤◌, ◌<◌, ◌≡◌, refl, sym, ap, ◌∙◌, Bool, true, false, some, List, [],
  ◌∷◌, arith, leb, inl, inr, Bool-cases, ltb_false→le,
}
use p2pool_salvium_observer.Word.{sub64}
use p2pool_salvium_observer.Difficulty.{Difficulty, cmp, is_greater, add, mul_64, div64}
use p2pool_salvium_observer.Difficulty.Value.{
  value, IsValid, cmp_greater, add-IsValid, add-value, sub-IsValid, sub-value, mul_64-IsValid,
  mul_64-value, div64-IsValid, div64-value,
}
use p2pool_salvium_observer.Share.{Hash, Address, Share}
use p2pool_salvium_observer.Share.Keys.{lookup_hash, lookup_address}
use p2pool_salvium_observer.Pplns.{
  ShareMap, Weights, MinerWeight, Walk, PplnsResult, miner_or_new, credit, add_weight, penalty_of,
  uncle_weight_of, include_uncle, visit_uncles, include_share, walk, start_walk, finish,
  finalize_buckets, finalize_miner, calculate_pplns, pplns_window,
}
use p2pool_salvium_observer.Pplns.Miners.{
  total_by, AllMiners, AllMiners-lookup, AllMiners-add_weight, total_by-credit,
}
use p2pool_salvium_observer.Pplns.Total.{visit_inv, walk_inv, Ends, deeper, calculate_pplns_total}

-- The sum of the miners' weights, as a number of any size.
abbrev pub sum_weights : Weights → ℕ
sum_weights = total_by (λ mw. value mw.weight)

abbrev pub AreValid : Weights → Type 0
AreValid = AllMiners (λ mw. IsValid mw.weight)

credit-weight :
    (mw : MinerWeight) (w : Difficulty) (is_uncle : Bool) (depth : ℕ)
    → (credit mw w is_uncle depth).weight ≡ add mw.weight w
unfolding credit
credit-weight mw w true depth = refl
credit-weight mw w false depth = refl

-- `addWeight` adds the weight to the sum, modulo 2^128.
add_weight-sum :
    (m : Weights) (a : Address) (w : Difficulty) (is_uncle : Bool) (depth : ℕ)
    → AreValid m
    → IsValid w
    → AreValid (add_weight m a w is_uncle depth)
      × (sum_weights (add_weight m a w is_uncle depth) % 2 ^ 128
          ≡ (sum_weights m + value w) % 2 ^ 128)
add_weight-sum m a w is_uncle depth vm vw =
    let old = miner_or_new a (lookup_address a m) in
    let vo = AllMiners-lookup (λ mw. IsValid mw.weight) a m (omega arith, omega arith) vm in
    let v : value (credit old w is_uncle depth).weight ≡ (value old.weight + value w) % 2 ^ 128 =
      ap value (credit-weight old w is_uncle depth) ∙ add-value old.weight w vo vw in
    (
      AllMiners-add_weight (λ mw. IsValid mw.weight) m a w is_uncle depth (omega arith, omega arith)
          (λ mw vmw. rw (credit-weight mw w is_uncle depth) (add-IsValid mw.weight w vmw vw)) vm,
      omega (arith, v, total_by-credit (λ mw. value mw.weight) m a w is_uncle depth (omega arith)),
    )

penalty_of-IsValid : (d : Difficulty) → IsValid (penalty_of d)
unfolding penalty_of
penalty_of-IsValid d = div64-IsValid (mul_64 d 20) 100 (mul_64-IsValid d 20) (omega arith)

uncle_weight_of-IsValid : (d : Difficulty) → IsValid d → IsValid (uncle_weight_of d)
unfolding uncle_weight_of
uncle_weight_of-IsValid d v = sub-IsValid d (penalty_of d) v (penalty_of-IsValid d)

-- Where 20 times a valid difficulty fits 128 bits, the penalty of an uncle is a fifth of its
-- difficulty, rounded down, and the penalty and the uncle's weight add up to it.
pub uncle_split :
    (d : Difficulty)
    → IsValid d
    → value d * 20 < 2 ^ 128
    → (value (penalty_of d) ≡ value d / 5)
      × (value (uncle_weight_of d) + value (penalty_of d) ≡ value d)
unfolding penalty_of uncle_weight_of
uncle_split d v fits =
    let m : value (mul_64 d 20) ≡ value d * 20 % 2 ^ 128 = mul_64-value d 20 v (omega arith) in
    let p : value (div64 (mul_64 d 20) 100) ≡ value (mul_64 d 20) / 100 =
      div64-value (mul_64 d 20) 100 (omega arith) in
    let q : value (div64 (mul_64 d 20) 100) ≡ value d / 5 = omega arith in
    (q, omega (arith, sub-value d (div64 (mul_64 d 20) 100) v (penalty_of-IsValid d) (omega arith)))

module _ (shares : ShareMap) (tip : Share) (max_weight : Difficulty)
    (valid_max : IsValid max_weight) where
  -- What holds where a round begins: the total is the sum of the weights, and within the limit.
  pub record Balanced (w : Walk) : Type 0 where
    pub entries : AreValid w.shares
    pub total : IsValid w.weight
    pub sums : value w.weight ≡ sum_weights w.shares % 2 ^ 128
    pub capped : value w.weight ≤ value max_weight

  abbrev pub Balances : Difficulty × Walk → Type 0
  Balances st = IsValid st.0 × Balanced st.1

  Balanced-step :
      (c : Difficulty) (w : Walk) (a : Address) (d : Difficulty) (is_uncle : Bool) (w' : Walk)
      → IsValid d
      → Balanced w
      → w'.shares ≡ add_weight w.shares a d is_uncle w.block_depth
      → w'.weight ≡ add w.weight d
      → value (add w.weight d) ≤ value max_weight
      → Balanced w'
  Balanced-step c w a d is_uncle w' vd b es ew under =
      let (v, s) = add_weight-sum w.shares a d is_uncle w.block_depth b.entries vd in
      record {
        entries = rw es v;
        total = rw ew (add-IsValid w.weight d b.total vd);
        sums = rw (es, ew, add-value w.weight d b.total vd) (omega (arith, s, b.sums));
        capped = rw ew under;
      }

  include_uncle-Balances :
      (uncle : Share) (st : Difficulty × Walk)
      → IsValid uncle.difficulty
      → Balances st
      → Balances (include_uncle shares tip max_weight uncle st)
  unfolding include_uncle
  include_uncle-Balances uncle (c, w) vu (vc, b) =
      let vw = uncle_weight_of-IsValid uncle.difficulty vu in
      let total = add w.weight (uncle_weight_of uncle.difficulty) in
      elim (Bool-cases (leb pplns_window (sub64 tip.sidechain_height uncle.sidechain_height))) [
        | inl out ↦ rw out (vc, b)
        | inr inside ↦ elim (Bool-cases (is_greater (cmp total max_weight))) [
          | inl over ↦ rw (inside, over) (vc, b)
          | inr under ↦
              rw (inside, under)
                (
                  add-IsValid c (penalty_of uncle.difficulty) vc
                      (penalty_of-IsValid uncle.difficulty),
                  Balanced-step c w uncle.miner_wallet (uncle_weight_of uncle.difficulty) true _ vw
                      b refl refl
                      (ltb_false→le _ _ (
                        sym (cmp_greater total max_weight (add-IsValid _ _ b.total vw) valid_max)
                        ∙ under)),
                )
        ]
      ]

  -- What holds of the result of a round.
  pub record Summed (w : Walk) : Type 0 where
    pub entries : AreValid w.shares
    pub total : IsValid w.weight
    pub sums : value w.weight ≡ sum_weights w.shares % 2 ^ 128

  -- Where a round begins with a valid total that is the sum of the weights modulo 2^128 and within
  -- the limit, it is so after the loop over the uncles.
  pub visit_uncles-Balances :
      ((id : Hash) (s : Share) → lookup_hash id shares ≡ some s → IsValid s.difficulty)
      → (ids : List Hash) (d : Difficulty) (w : Walk) → IsValid d
      → Balanced w
      → Balances (visit_uncles shares tip max_weight ids (d, w))
  visit_uncles-Balances known ids d w vd b =
      visit_inv shares tip max_weight (λ s. IsValid s.difficulty) Balances known
        include_uncle-Balances ids (d, w) (vd, b)

  include_share-Summed :
      ((id : Hash) (s : Share) → lookup_hash id shares ≡ some s → IsValid s.difficulty)
      → (cur : Share) (w : Walk) → IsValid cur.difficulty
      → Balanced w
      → Summed (include_share shares tip max_weight cur w)
  unfolding include_share
  include_share-Summed known cur w vd b =
      let st = visit_uncles shares tip max_weight cur.uncles (cur.difficulty, w) in
      let (vc, b') = visit_uncles-Balances known cur.uncles cur.difficulty w vd b in
      let (v, s) =
        add_weight-sum st.1.shares cur.miner_wallet st.0 false st.1.block_depth b'.entries vc in
      record {
        entries = v;
        total = add-IsValid st.1.weight st.0 b'.total vc;
        sums = add-value st.1.weight st.0 b'.total vc ∙ omega (arith, s, b'.sums);
      }

  walk-Summed :
      ((id : Hash) (s : Share) → lookup_hash id shares ≡ some s → IsValid s.difficulty)
      → IsValid tip.difficulty
      → (w : Walk) → walk shares tip max_weight pplns_window tip start_walk ≡ some w
      → Summed w
  unfolding Ends deeper
  walk-Summed known vt w e =
      let (cur, w0, q, b, last) =
        walk_inv shares tip max_weight Balanced (λ s. IsValid s.difficulty) known
          (λ c w1 vc b1 under room.
            let r = include_share-Summed known c w1 vc b1 in
            record {
              entries = r.entries;
              total = r.total;
              sums = r.sums;
              capped = ltb_false→le _ _ (sym (cmp_greater _ max_weight r.total valid_max) ∙ under);
            })
          pplns_window tip start_walk w vt
          (record {
            entries = tt;
            total = (omega arith, omega arith);
            sums = omega arith;
            capped = omega arith;
          })
          e in
      let r = include_share-Summed known cur w0 q b in
      elim last [
        | inl same ↦ rw same r
        | inr raised ↦ rw raised (record { entries = r.entries; total = r.total; sums = r.sums })
      ]

finalize-sum : (m : Weights) (size : ℕ) → sum_weights (finalize_buckets m size) ≡ sum_weights m
unfolding finalize_buckets finalize_miner
finalize-sum [] size = refl
finalize-sum ((a, mw) ∷ m) size = omega (arith, finalize-sum m size)

-- With valid difficulties throughout, the total weight of a window is the sum of its miners'
-- weights, modulo 2^128.
pub calculate_pplns-sum :
    (shares : ShareMap) (tip : Share) (mainchain_diff : Difficulty) (r : PplnsResult)
    → ((id : Hash) (s : Share) → lookup_hash id shares ≡ some s → IsValid s.difficulty)
    → IsValid tip.difficulty
    → IsValid mainchain_diff
    → calculate_pplns shares tip mainchain_diff ≡ some r
    → value r.total_weight ≡ sum_weights r.shares % 2 ^ 128
unfolding calculate_pplns finish
calculate_pplns-sum shares tip mainchain_diff r known vt vm e =
    let limit = mul_64 mainchain_diff 2 in
    let (w, runs, result) = calculate_pplns_total shares tip mainchain_diff in
    let b = walk-Summed shares tip limit (mul_64-IsValid mainchain_diff 2) known vt w runs in
    let is : finish tip w ≡ r = cc in rw (← is) (rw (finalize-sum w.shares w.blocks) b.sums)
