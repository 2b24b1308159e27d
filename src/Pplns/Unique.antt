-- ===== src/Pplns/Unique.antt =====
-- A window of `CalculatePPLNS` (p2pool/pplns.go) has one entry for a miner.
use mathlib.Core.Path.{subst}
use p2pool_salvium_observer.Prelude.{
  ℕ, ◌+◌, ◌≤◌, ◌≡◌, refl, ap, ◌∙◌, sym, Bool, true, false, some, [], ◌∷◌, map, arith, leb,
  if◌then◌else◌, All, Bool-cases, inl, inr,
}
use p2pool_salvium_observer.Difficulty.{Difficulty, mul_64, add, cmp, is_greater}
use p2pool_salvium_observer.Share.{Address, Share, address_eq}
use p2pool_salvium_observer.Share.Keys.{
  lookup_address, insert_address, address_eq_sound, address_eq_refl,
}
use p2pool_salvium_observer.Sorting.{exchange_sort}
use p2pool_salvium_observer.Sorting.Order.{sum_by, sum_by-exchange_sort}
use p2pool_salvium_observer.Word.{sub64}
use p2pool_salvium_observer.Pplns.{
  ShareMap, PplnsResult, Weights, MinerWeight, Walk, miner_or_new, credit, add_weight,
  include_uncle, include_share, walk, start_walk, finish, finalize_miner, finalize_buckets,
  calculate_pplns, pplns_window, miner_of, heavier, uncle_weight_of,
}
use p2pool_salvium_observer.Pplns.Total.{visit_inv, walk_inv, Ends, deeper, calculate_pplns_total}

-- 1 for the address itself.
abbrev pub is_of : Address → Address → ℕ
is_of b a = if address_eq a b then 1 else 0

abbrev pub of_miner : Address → MinerWeight → ℕ
of_miner b mw = is_of b mw.address

-- An entry is that of its key, and no address has two.
abbrev pub IsKeyed : Weights → Type 0
IsKeyed m =
    All (λ e. e.1.address ≡ e.0) m
    × ((b : Address) → sum_by (λ (e : Address × MinerWeight). of_miner b e.1) m ≤ 1)

insert-own :
    (a : Address) (mw : MinerWeight) (m : Weights)
    → mw.address ≡ a
    → All (λ e. e.1.address ≡ e.0) m
    → All (λ e. e.1.address ≡ e.0) (insert_address a mw m)
insert-own a mw [] own h = (own, tt)
insert-own a mw ((k, old) ∷ m) own (here, h) = elim (Bool-cases (address_eq k a)) [
  | inl same ↦ rw same (own ∙ sym (address_eq_sound k a same), h)
  | inr other ↦ rw other (here, insert-own a mw m own h)
]

insert-other :
    (a b : Address) (mw : MinerWeight) (m : Weights)
    → mw.address ≡ a
    → All (λ e. e.1.address ≡ e.0) m
    → address_eq a b ≡ false
    → sum_by (λ (e : Address × MinerWeight). of_miner b e.1) (insert_address a mw m)
      ≡ sum_by (λ (e : Address × MinerWeight). of_miner b e.1) m
insert-other a b mw [] own h differ = rw (own, differ) refl
insert-other a b mw ((k, old) ∷ m) own (here, h) differ = elim (Bool-cases (address_eq k a)) [
  | inl same ↦ rw (same, own, here, address_eq_sound k a same, differ) refl
  | inr other ↦ rw other (ap (λ n. of_miner b old + n) (insert-other a b mw m own h differ))
]

insert-same :
    (a : Address) (mw : MinerWeight) (m : Weights)
    → mw.address ≡ a
    → All (λ e. e.1.address ≡ e.0) m
    → sum_by (λ (e : Address × MinerWeight). of_miner a e.1) m ≤ 1
    → sum_by (λ (e : Address × MinerWeight). of_miner a e.1) (insert_address a mw m) ≤ 1
insert-same a mw [] own h few = rw (own, address_eq_refl a) (omega arith)
insert-same a mw ((k, old) ∷ m) own (here, h) few = elim (Bool-cases (address_eq k a)) [
  | inl same ↦ rw (same, own) (rw (here, address_eq_sound k a same) at few)
  | inr other ↦
      let few' : sum_by (λ (e : Address × MinerWeight). of_miner a e.1) m ≤ 1 =
        omega (arith, (rw (here, other) at few)) in
      rw (other, here, other) (omega (arith, insert-same a mw m own h few'))
]

insert-IsKeyed :
    (a : Address) (mw : MinerWeight) (m : Weights)
    → mw.address ≡ a
    → IsKeyed m
    → IsKeyed (insert_address a mw m)
insert-IsKeyed a mw m own (keys, few) = (
  insert-own a mw m own keys,
  λ b. elim (Bool-cases (address_eq a b)) [
    | inl same ↦ rw (← address_eq_sound a b same) (insert-same a mw m own keys (few a))
    | inr differ ↦ rw (insert-other a b mw m own keys differ) (few b)
  ],
)

lookup-own :
    (a : Address) (m : Weights)
    → All (λ e. e.1.address ≡ e.0) m
    → (miner_or_new a (lookup_address a m)).address ≡ a
lookup-own a [] h = refl
lookup-own a ((k, mw) ∷ m) (here, h) = elim (Bool-cases (address_eq k a)) [
  | inl same ↦ rw same (here ∙ address_eq_sound k a same)
  | inr other ↦ rw other (lookup-own a m h)
]

credit-address :
    (mw : MinerWeight) (w : Difficulty) (is_uncle : Bool) (depth : ℕ)
    → (credit mw w is_uncle depth).address ≡ mw.address
unfolding credit
credit-address mw w true depth = refl
credit-address mw w false depth = refl

add_weight-IsKeyed :
    (m : Weights) (a : Address) (w : Difficulty) (is_uncle : Bool) (depth : ℕ)
    → IsKeyed m
    → IsKeyed (add_weight m a w is_uncle depth)
unfolding add_weight
add_weight-IsKeyed m a w is_uncle depth h =
    insert-IsKeyed a _ m (credit-address _ w is_uncle depth ∙ lookup-own a m h.0) h

module _ (shares : ShareMap) (tip : Share) (max_weight : Difficulty) where
  include_uncle-IsKeyed :
      (uncle : Share) (st : Difficulty × Walk)
      → IsKeyed st.1.shares
      → IsKeyed (include_uncle shares tip max_weight uncle st).1.shares
  unfolding include_uncle
  include_uncle-IsKeyed uncle (c, w) h =
      elim (Bool-cases (leb pplns_window (sub64 tip.sidechain_height uncle.sidechain_height))) [
        | inl old ↦ rw (include_uncle, old) h
        | inr near ↦
            elim (Bool-cases
              (is_greater (cmp (add w.weight (uncle_weight_of uncle.difficulty)) max_weight))) [
                | inl over ↦ rw (include_uncle, near, over) h
                | inr under ↦
                    rw (include_uncle, near, under)
                      (add_weight-IsKeyed w.shares uncle.miner_wallet _ true w.block_depth h)
              ]
      ]

  include_share-IsKeyed :
      (cur : Share) (w : Walk)
      → IsKeyed w.shares
      → IsKeyed (include_share shares tip max_weight cur w).shares
  unfolding include_share
  include_share-IsKeyed cur w h = add_weight-IsKeyed _ cur.miner_wallet _ false _ (
      visit_inv shares tip max_weight (λ _. Unit {0}) (λ st. IsKeyed st.1.shares) (λ _ _ _. tt)
        (λ uncle st _ k. include_uncle-IsKeyed uncle st k) cur.uncles (cur.difficulty, w) h)

  walk-IsKeyed :
      (fuel : ℕ) (w r : Walk)
      → IsKeyed w.shares
      → walk shares tip max_weight fuel tip w ≡ some r
      → IsKeyed r.shares
  unfolding Ends deeper
  walk-IsKeyed fuel w r h e =
      let (cur, w0, _, keyed, last) =
        walk_inv shares tip max_weight (λ x. IsKeyed x.shares) (λ _. Unit {0}) (λ _ _ _. tt)
          (λ c x _ k _ _. include_share-IsKeyed c x k) fuel tip w r tt h e in
      elim last [
        | inl same ↦ rw same (include_share-IsKeyed cur w0 keyed)
        | inr raised ↦ rw raised (include_share-IsKeyed cur w0 keyed)
      ]

abbrev finished : ℕ → Address × MinerWeight → Address × MinerWeight
finished size e = (e.0, finalize_miner size e.1)

map-own :
    (size : ℕ) (m : Weights)
    → All (λ e. e.1.address ≡ e.0) m
    → All (λ e. e.1.address ≡ e.0) (map (finished size) m)
unfolding finalize_miner
map-own size [] h = tt
map-own size ((a, mw) ∷ m) (here, h) = (here, map-own size m h)

map-count :
    (b : Address) (size : ℕ) (m : Weights)
    → sum_by (λ (e : Address × MinerWeight). of_miner b e.1) (map (finished size) m)
      ≡ sum_by (λ (e : Address × MinerWeight). of_miner b e.1) m
unfolding finalize_miner
map-count b size [] = refl
map-count b size ((a, mw) ∷ m) = ap (λ n. of_miner b mw + n) (map-count b size m)

finalize-IsKeyed : (size : ℕ) (m : Weights) → IsKeyed m → IsKeyed (finalize_buckets m size)
unfolding finalize_buckets
finalize-IsKeyed size m (keys, few) =
    let size' = if leb size 0 then 1 else size in
    (map-own size' m keys, λ b. rw (map-count b size' m) (few b))

-- In a window that CalculatePPLNS computes each entry is that of its key, and no address has two.
pub calculate_pplns-IsKeyed :
    (shares : ShareMap) (tip : Share) (mainchain_diff : Difficulty) (r : PplnsResult)
    → calculate_pplns shares tip mainchain_diff ≡ some r
    → IsKeyed r.shares
unfolding finish
calculate_pplns-IsKeyed shares tip mainchain_diff r computed =
    let (w, e, f) = calculate_pplns_total shares tip mainchain_diff in
    let same : finish tip w ≡ r = cc (sym f ∙ computed) in
    let keyed =
      walk-IsKeyed shares tip (mul_64 mainchain_diff 2) pplns_window start_walk w
        (tt, λ b. omega arith) e in
    subst (λ (x : PplnsResult). IsKeyed x.shares) same (finalize-IsKeyed w.blocks w.shares keyed)

count-miners :
    (b : Address) (m : Weights)
    → sum_by (of_miner b) (map miner_of m)
      ≡ sum_by (λ (e : Address × MinerWeight). of_miner b e.1) m
count-miners b [] = refl
count-miners b (e ∷ m) = ap (λ n. of_miner b e.1 + n) (count-miners b m)

-- No address is twice in the sorted miners.
pub sort_unique :
    (m : Weights)
    → IsKeyed m
    → (b : Address) → sum_by (of_miner b) (exchange_sort heavier (map miner_of m)) ≤ 1
sort_unique m keyed b =
    rw (sum_by-exchange_sort heavier (of_miner b) (map miner_of m), count-miners b m) (keyed.1 b)
