-- ===== src/Pplns/Miners.antt =====
-- The map of miners of p2pool/pplns.go under `addWeight`: sums over the entries, and what holds of
-- every entry.
use p2pool_salvium_observer.Prelude.{ℕ, ◌+◌, ◌≡◌, Bool, [], ◌∷◌, arith, inl, inr, Bool-cases}
use p2pool_salvium_observer.Difficulty.{Difficulty}
use p2pool_salvium_observer.Share.{Address, address_eq}
use p2pool_salvium_observer.Share.Keys.{lookup_address, insert_address}
use p2pool_salvium_observer.Pplns.{
  Weights, MinerWeight, new_miner, miner_or_new, credit, add_weight,
}

-- The sum of a number over the entries.
abbrev pub total_by : (MinerWeight → ℕ) → Weights → ℕ
total_by f [] = 0
total_by f ((a, mw) ∷ m) = f mw + total_by f m

abbrev pub AllMiners : (MinerWeight → Type 0) → Weights → Type 0
AllMiners P [] = Unit {0}
AllMiners P ((a, mw) ∷ m) = P mw × AllMiners P m

module _ (f : MinerWeight → ℕ) where
  total_by-insert :
      (a : Address) (mw : MinerWeight) (m : Weights)
      → f (new_miner a) ≡ 0
      → total_by f (insert_address a mw m) + f (miner_or_new a (lookup_address a m))
        ≡ total_by f m + f mw
  total_by-insert a mw [] z = omega (arith, z)
  total_by-insert a mw ((b, old) ∷ m) z = elim (Bool-cases (address_eq b a)) [
    | inl same ↦ rw same (omega arith)
    | inr other ↦ rw other (omega (arith, total_by-insert a mw m z))
  ]

  -- Where crediting adds `n` to the number, `addWeight` adds `n` to the sum.
  pub total_by-add_weight :
      (n : ℕ) (m : Weights) (a : Address) (w : Difficulty) (is_uncle : Bool) (depth : ℕ)
      → f (new_miner a) ≡ 0
      → ((mw : MinerWeight) → f (credit mw w is_uncle depth) ≡ f mw + n)
      → total_by f (add_weight m a w is_uncle depth) ≡ total_by f m + n
  unfolding add_weight
  total_by-add_weight n m a w is_uncle depth z adds =
      let old = miner_or_new a (lookup_address a m) in
      omega (arith, total_by-insert a (credit old w is_uncle depth) m z, adds old)

  -- The same for a number that wraps, of the one entry that changes.
  pub total_by-credit :
      (m : Weights) (a : Address) (w : Difficulty) (is_uncle : Bool) (depth : ℕ)
      → f (new_miner a) ≡ 0
      → let old = miner_or_new a (lookup_address a m) in
        total_by f (add_weight m a w is_uncle depth) + f old
        ≡ total_by f m + f (credit old w is_uncle depth)
  unfolding add_weight
  total_by-credit m a w is_uncle depth z =
      total_by-insert a (credit (miner_or_new a (lookup_address a m)) w is_uncle depth) m z

module _ (P : MinerWeight → Type 0) where
  pub AllMiners-lookup :
      (a : Address) (m : Weights)
      → P (new_miner a)
      → AllMiners P m
      → P (miner_or_new a (lookup_address a m))
  AllMiners-lookup a [] p h = p
  AllMiners-lookup a ((b, old) ∷ m) p h = elim (Bool-cases (address_eq b a)) [
    | inl same ↦ rw same h.0
    | inr other ↦ rw other (AllMiners-lookup a m p h.1)
  ]

  AllMiners-insert :
      (a : Address) (mw : MinerWeight) (m : Weights)
      → P mw
      → AllMiners P m
      → AllMiners P (insert_address a mw m)
  AllMiners-insert a mw [] p h = (p, tt)
  AllMiners-insert a mw ((b, old) ∷ m) p h = elim (Bool-cases (address_eq b a)) [
    | inl same ↦ rw same (p, h.1)
    | inr other ↦ rw other (h.0, AllMiners-insert a mw m p h.1)
  ]

  pub AllMiners-add_weight :
      (m : Weights) (a : Address) (w : Difficulty) (is_uncle : Bool) (depth : ℕ)
      → P (new_miner a)
      → ((mw : MinerWeight) → P mw → P (credit mw w is_uncle depth))
      → AllMiners P m
      → AllMiners P (add_weight m a w is_uncle depth)
  unfolding add_weight
  AllMiners-add_weight m a w is_uncle depth p keeps h =
      AllMiners-insert a _ m (keeps _ (AllMiners-lookup a m p h)) h
