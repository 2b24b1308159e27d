-- ===== src/Pplns/Counts.antt =====
-- The counters of `CalculatePPLNS` (p2pool/pplns.go): the miners' counts of shares and uncles add up
-- to the window's, and no window is longer than 2160 shares.
use p2pool_salvium_observer.Prelude.{
  ℕ, ◌+◌, ◌≤◌, ◌<◌, ◌≡◌, refl, sym, ap, ◌∙◌, Bool, true, false, List, [], ◌∷◌, ◌++◌, arith, All,
  length, length-append, leb, leb_false→lt, if◌then◌else◌, Bool-cases, inl, inr, some,
}
use p2pool_salvium_observer.Word.{sub64}
use p2pool_salvium_observer.Difficulty.{Difficulty, cmp, is_greater, add, mul_64}
use p2pool_salvium_observer.Share.{Address, Share}
use p2pool_salvium_observer.Pplns.{
  ShareMap, Weights, MinerWeight, Walk, PplnsResult, credit, add_weight, uncle_weight_of,
  include_uncle, visit_uncles, include_share, walk, start_walk, finish, finalize_buckets,
  finalize_miner, calculate_pplns, pplns_window,
}
use p2pool_salvium_observer.Pplns.Miners.{
  total_by, AllMiners, AllMiners-add_weight, total_by-add_weight,
}
use p2pool_salvium_observer.Pplns.Total.{
  visit_inv, walk_inv, Ends, deeper, include_share-depth, calculate_pplns_total,
}
use p2pool_salvium_observer.Pplns.Buckets.{total, finalize_miner-total}

-- A miner's positions are as many as its counts, and all above the depth `n`.
abbrev pub Positions : ℕ → MinerWeight → Type 0
Positions n mw =
    (length mw.share_positions ≡ mw.share_count)
    × (length mw.uncle_positions ≡ mw.uncle_count)
    × All (λ d. d < n) mw.share_positions
    × All (λ d. d < n) mw.uncle_positions

All-append_one :
    (n : ℕ) (ds : List ℕ) (d : ℕ) → All (λ x. x < n) ds → d < n → All (λ x. x < n) (ds ++ (d ∷ []))
All-append_one n [] d h lt = (lt, tt)
All-append_one n (x ∷ ds) d h lt = (h.0, All-append_one n ds d h.1 lt)

All-raise : (n : ℕ) (ds : List ℕ) → All (λ x. x < n) ds → All (λ x. x < n + 1) ds
All-raise n [] h = tt
All-raise n (x ∷ ds) h = (omega (arith, h.0), All-raise n ds h.1)

raise : (n : ℕ) (m : Weights) → AllMiners (Positions n) m → AllMiners (Positions (n + 1)) m
raise n [] h = tt
raise n ((a, mw) ∷ m) ((s, u, ps, pu), h) =
    ((s, u, All-raise n _ ps, All-raise n _ pu), raise n m h)

credit-Positions :
    (n : ℕ) (w : Difficulty) (is_uncle : Bool) (depth : ℕ)
    → depth < n
    → (mw : MinerWeight) → Positions n mw
    → Positions n (credit mw w is_uncle depth)
unfolding credit
credit-Positions n w true depth lt mw (s, u, ps, pu) = (
  s,
  length-append mw.uncle_positions (depth ∷ []) ∙ ap (λ k. k + 1) u,
  ps,
  All-append_one n _ depth pu lt,
)
credit-Positions n w false depth lt mw (s, u, ps, pu) = (
  length-append mw.share_positions (depth ∷ []) ∙ ap (λ k. k + 1) s,
  u,
  All-append_one n _ depth ps lt,
  pu,
)

credit-counts :
    (w : Difficulty) (depth : ℕ) (mw : MinerWeight)
    → ((credit mw w true depth).share_count ≡ mw.share_count + 0)
      × ((credit mw w true depth).uncle_count ≡ mw.uncle_count + 1)
      × ((credit mw w false depth).share_count ≡ mw.share_count + 1)
      × ((credit mw w false depth).uncle_count ≡ mw.uncle_count + 0)
unfolding credit
credit-counts w depth mw = (omega arith, refl, refl, omega arith)

-- The counters agree with the entries, whose positions are above the depth `n`.
pub record Counted (n : ℕ) (w : Walk) : Type 0 where
  pub shares_sum : total_by (λ mw. mw.share_count) w.shares ≡ w.blocks
  pub uncles_sum : total_by (λ mw. mw.uncle_count) w.shares ≡ w.uncles
  pub entries : AllMiners (Positions n) w.shares

Counted-at : (n k : ℕ) (w : Walk) → n ≡ k → Counted n w → Counted k w
Counted-at n k w e c = rw (← e) c

Counted-uncle :
    (n : ℕ) (w : Walk) (a : Address) (d : Difficulty) (w' : Walk)
    → w.block_depth < n
    → Counted n w
    → w'.shares ≡ add_weight w.shares a d true w.block_depth
    → w'.blocks ≡ w.blocks
    → w'.uncles ≡ w.uncles + 1
    → Counted n w'
Counted-uncle n w a d w' lt c es eb eu = record {
  shares_sum =
      rw (es, eb)
        (total_by-add_weight (λ mw. mw.share_count) 0 w.shares a d true w.block_depth refl
            (λ mw. (credit-counts d w.block_depth mw).0)
          ∙ omega (arith, c.shares_sum));
  uncles_sum =
      rw (es, eu)
        (total_by-add_weight (λ mw. mw.uncle_count) 1 w.shares a d true w.block_depth refl
            (λ mw. (credit-counts d w.block_depth mw).1)
          ∙ omega (arith, c.uncles_sum));
  entries = rw es (
      AllMiners-add_weight (Positions n) w.shares a d true w.block_depth (refl, refl, tt, tt)
        (credit-Positions n d true w.block_depth lt) c.entries);
}

Counted-share :
    (n : ℕ) (w : Walk) (a : Address) (d : Difficulty) (w' : Walk)
    → w.block_depth < n
    → Counted n w
    → w'.shares ≡ add_weight w.shares a d false w.block_depth
    → w'.blocks ≡ w.blocks + 1
    → w'.uncles ≡ w.uncles
    → Counted n w'
Counted-share n w a d w' lt c es eb eu = record {
  shares_sum =
      rw (es, eb)
        (total_by-add_weight (λ mw. mw.share_count) 1 w.shares a d false w.block_depth refl
            (λ mw. (credit-counts d w.block_depth mw).2)
          ∙ omega (arith, c.shares_sum));
  uncles_sum =
      rw (es, eu)
        (total_by-add_weight (λ mw. mw.uncle_count) 0 w.shares a d false w.block_depth refl
            (λ mw. (credit-counts d w.block_depth mw).3)
          ∙ omega (arith, c.uncles_sum));
  entries = rw es (
      AllMiners-add_weight (Positions n) w.shares a d false w.block_depth (refl, refl, tt, tt)
        (credit-Positions n d false w.block_depth lt) c.entries);
}

module _ (shares : ShareMap) (tip : Share) (max_weight : Difficulty) where
  -- What a round's loop over the uncles keeps of the walk `w` that it began with.
  abbrev Round : Walk → Difficulty × Walk → Type 0
  Round w st =
      Counted (w.block_depth + 1) st.1
      × (st.1.blocks ≡ w.blocks)
      × (st.1.block_depth ≡ w.block_depth)

  include_uncle-Round :
      (w : Walk) (uncle : Share) (st : Difficulty × Walk)
      → Round w st
      → Round w (include_uncle shares tip max_weight uncle st)
  unfolding include_uncle
  include_uncle-Round w uncle (c, w1) (counted, eb, ed) =
      let uncle_weight = uncle_weight_of uncle.difficulty in
      elim (Bool-cases (leb pplns_window (sub64 tip.sidechain_height uncle.sidechain_height))) [
        | inl out ↦ rw out (counted, eb, ed)
        | inr inside ↦
            elim (Bool-cases (is_greater (cmp (add w1.weight uncle_weight) max_weight))) [
              | inl over ↦ rw (inside, over) (counted, eb, ed)
              | inr under ↦
                  rw (inside, under)
                    (
                      Counted-uncle (w.block_depth + 1) w1 uncle.miner_wallet uncle_weight _
                          (omega (arith, ed)) counted refl refl refl,
                      eb,
                      ed,
                    )
            ]
      ]

  -- What holds where a round begins.
  pub record AtHead (w : Walk) : Type 0 where
    pub counted : Counted w.block_depth w
    pub depth : w.blocks ≡ w.block_depth
    pub room : w.block_depth < pplns_window

  include_share-Counted :
      (cur : Share) (w : Walk)
      → AtHead w
      → Counted (w.block_depth + 1) (include_share shares tip max_weight cur w)
        × ((include_share shares tip max_weight cur w).blocks ≡ w.blocks + 1)
  unfolding include_share
  include_share-Counted cur w h =
      let st = visit_uncles shares tip max_weight cur.uncles (cur.difficulty, w) in
      let (counted, eb, ed) =
        visit_inv shares tip max_weight (λ _. Unit {0}) (Round w) (λ _ _ _. tt)
          (λ uncle s _. include_uncle-Round w uncle s) cur.uncles (cur.difficulty, w)
          (
            record {
              shares_sum = h.counted.shares_sum;
              uncles_sum = h.counted.uncles_sum;
              entries = raise w.block_depth w.shares h.counted.entries;
            },
            refl,
            refl,
          ) in
      (
        Counted-share (w.block_depth + 1) st.1 cur.miner_wallet st.0 _ (omega (arith, ed)) counted
            refl refl refl,
        ap (λ k. k + 1) eb,
      )

  abbrev Complete : Walk → Type 0
  Complete w = Counted w.blocks w × (1 ≤ w.blocks) × (w.blocks ≤ pplns_window)

  round-Complete :
      (cur : Share) (w : Walk) → AtHead w → Complete (include_share shares tip max_weight cur w)
  round-Complete cur w h =
      let (c, eb) = include_share-Counted cur w h in
      let n : (include_share shares tip max_weight cur w).blocks ≡ w.block_depth + 1 =
        eb ∙ ap (λ k. k + 1) h.depth in
      (Counted-at _ _ _ (sym n) c, omega (arith, n), omega (arith, n, h.room))

  next-AtHead :
      (cur : Share) (w : Walk)
      → AtHead w
      → leb pplns_window ((include_share shares tip max_weight cur w).block_depth + 1) ≡ false
      → AtHead (deeper (include_share shares tip max_weight cur w))
  unfolding deeper
  next-AtHead cur w h room =
      let r = include_share shares tip max_weight cur w in
      let (c, eb) = include_share-Counted cur w h in
      let d : r.block_depth + 1 ≡ w.block_depth + 1 =
        ap (λ k. k + 1) (include_share-depth shares tip max_weight cur w) in
      record {
        counted =
            Counted-at _ _ _ (sym d) (record {
              shares_sum = c.shares_sum;
              uncles_sum = c.uncles_sum;
              entries = c.entries;
            });
        depth = eb ∙ ap (λ k. k + 1) h.depth ∙ sym d;
        room = leb_false→lt _ _ room;
      }

  walk-Complete :
      (w : Walk) → walk shares tip max_weight pplns_window tip start_walk ≡ some w → Complete w
  unfolding Ends deeper
  walk-Complete w e =
      let (cur, w0, _, h, last) =
        walk_inv shares tip max_weight AtHead (λ _. Unit {0}) (λ _ _ _. tt)
          (λ c w1 _ head _ room. next-AtHead c w1 head room) pplns_window tip start_walk w tt
          (record {
            counted = record { shares_sum = refl; uncles_sum = refl; entries = tt };
            depth = refl;
            room = omega arith;
          })
          e in
      let (c, low, high) = round-Complete cur w0 h in
      elim last [
        | inl same ↦ rw same (c, low, high)
        | inr raised ↦ rw raised (
          record { shares_sum = c.shares_sum; uncles_sum = c.uncles_sum; entries = c.entries },
          low,
          high,
        )
      ]

finalize-total_by :
    (f : MinerWeight → ℕ) (m : Weights) (size : ℕ)
    → ((k : ℕ) (mw : MinerWeight) → f (finalize_miner k mw) ≡ f mw)
    → total_by f (finalize_buckets m size) ≡ total_by f m
unfolding finalize_buckets
finalize-total_by f [] size keeps = refl
finalize-total_by f ((a, mw) ∷ m) size keeps =
    omega (arith, keeps _ mw, finalize-total_by f m size keeps)

-- A finished entry: its positions lie in the window and its buckets hold as many as its counts.
abbrev pub Finished : ℕ → MinerWeight → Type 0
Finished n mw =
    Positions n mw
    × (total mw.share_buckets ≡ mw.share_count)
    × (total mw.uncle_buckets ≡ mw.uncle_count)

finalize-Finished :
    (n : ℕ) (m : Weights) (size : ℕ)
    → AllMiners (Positions n) m
    → AllMiners (Finished n) (finalize_buckets m size)
unfolding finalize_buckets finalize_miner
finalize-Finished n [] size h = tt
finalize-Finished n ((a, mw) ∷ m) size (p, h) =
    let (s, u, _, _) = finalize_miner-total (if leb size 0 then 1 else size) mw in
    ((p, s ∙ p.0, u ∙ p.1), finalize-Finished n m size h)

finalize-counts :
    (k : ℕ) (mw : MinerWeight)
    → ((finalize_miner k mw).share_count ≡ mw.share_count)
      × ((finalize_miner k mw).uncle_count ≡ mw.uncle_count)
unfolding finalize_miner
finalize-counts k mw = (refl, refl)

-- A window has 1 to 2160 shares, the miners' counts of shares and uncles add up to the window's,
-- and each miner's positions lie in the window and are as many as its counts and as what its
-- buckets hold.
pub calculate_pplns-counts :
    (shares : ShareMap) (tip : Share) (mainchain_diff : Difficulty) (r : PplnsResult)
    → calculate_pplns shares tip mainchain_diff ≡ some r
    → (1 ≤ r.blocks_included)
      × (r.blocks_included ≤ pplns_window)
      × (total_by (λ mw. mw.share_count) r.shares ≡ r.blocks_included)
      × (total_by (λ mw. mw.uncle_count) r.shares ≡ r.uncles_included)
      × AllMiners (Finished r.blocks_included) r.shares
unfolding finish
calculate_pplns-counts shares tip mainchain_diff r e =
    let (w, runs, result) = calculate_pplns_total shares tip mainchain_diff in
    let (c, low, high) = walk-Complete shares tip (mul_64 mainchain_diff 2) w runs in
    let is : finish tip w ≡ r = cc in
    rw (← is) (
      low,
      high,
      finalize-total_by (λ mw. mw.share_count) w.shares w.blocks (λ k mw. (finalize-counts k mw).0)
          ∙ c.shares_sum,
      finalize-total_by (λ mw. mw.uncle_count) w.shares w.blocks (λ k mw. (finalize-counts k mw).1)
          ∙ c.uncles_sum,
      finalize-Finished w.blocks w.shares w.blocks c.entries,
    )
