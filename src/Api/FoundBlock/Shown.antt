-- ===== src/Api/FoundBlock/Shown.antt =====
-- The payouts that handleFoundBlockDetails (cmd/api/main.go) shows for a block: of each payout key
-- the first payout of the block's height, sorted.
use mathlib.Core.List.{Perm}
use p2pool_salvium_observer.Prelude.{
  ℕ, ◌≡◌, ◌⊎◌, inl, inr, refl, ap, true, false, Option, none, some, List, [], ◌∷◌, ◌++◌, ltb,
  Bool-cases, Option-cases, All,
}
use p2pool_salvium_observer.Share.Keys.{insert_hash}
use p2pool_salvium_observer.Sorting.{exchange_sort}
use p2pool_salvium_observer.Sorting.Order.{
  IsDescending, perm-exchange_sort, exchange_sort-IsDescending,
}
use p2pool_salvium_observer.Daemon.{Text}
use p2pool_salvium_observer.Expiry.Api.{Key}
use p2pool_salvium_observer.Api.Codes.{codes}
use p2pool_salvium_observer.Api.Json.{text, Map, NilMap, at, into_maps, list_of}
use p2pool_salvium_observer.Api.Server.{Host, unmarshal, get_text}
use p2pool_salvium_observer.Api.FoundBlock.{
  split_colons, second_part, is_height, payout_at, amount, pays_more, payouts_of_miner,
  block_payouts,
}

module _ {F S : Type 0} (host : Host F S) where
  -- The payout is one of the block.
  abbrev pub IsPayoutOf : ℕ → NilMap F → Type 0
  IsPayoutOf height p = is_height host (codes "block_height") height p ≡ true

  abbrev pub IsOther : ℕ → NilMap F → Type 0
  IsOther height p = is_height host (codes "block_height") height p ≡ false

  -- `p` is the first payout of the block in the list.
  abbrev pub IsFirst : ℕ → List (NilMap F) → Map F → Type 0
  IsFirst height payouts p =
      (before after : List (NilMap F)) × (payouts ≡ before ++ (some p ∷ after))
      × All (IsOther height) before
      × IsPayoutOf height (some p)

  module _ (s : S) where
    -- What is stored under a payout key is a list of payouts.
    abbrev pub Holds : Key → List (NilMap F) → Type 0
    Holds key payouts =
        (bytes : Text) × (list : Option (List (NilMap F))) × (get_text host s key ≡ some bytes)
        × (unmarshal host into_maps bytes ≡ some list)
        × (payouts ≡ list_of list)

    -- What is shown for a payout key: the first payout of the block, with the address of the key.
    abbrev pub Chooses : ℕ → Key → Map F → Type 0
    Chooses height key shown =
        (addr : Text) × (payouts : List (NilMap F)) × (p : Map F) × (second_part
            (split_colons [] key)
          ≡ some addr)
        × Holds key payouts
        × IsFirst height payouts p
        × (shown ≡ insert_hash (codes "address") (text addr) p)

    -- A payout key that nothing is shown for: it names no address, nothing is stored there, no list
    -- of payouts is, or none of them is of the block.
    abbrev pub Skips : ℕ → Key → Type 0
    Skips height key =
        (second_part (split_colons [] key) ≡ none)
        ⊎ (get_text host s key ≡ none)
        ⊎ ((bytes : Text) × (get_text host s key ≡ some bytes)
            × (unmarshal host into_maps bytes ≡ none))
        ⊎ ((payouts : List (NilMap F)) × Holds key payouts × All (IsOther height) payouts)

    -- One payout for each key that is not skipped, in the order of the keys.
    abbrev pub Aligned : ℕ → List Key → List (Map F) → Type 0
    Aligned height [] [] = Unit {0}
    Aligned height [] (p ∷ ps) = ⊥
    Aligned height (key ∷ keys) [] = Skips height key × Aligned height keys []
    Aligned height (key ∷ keys) (p ∷ ps) =
        (Chooses height key p × Aligned height keys ps)
        ⊎ (Skips height key × Aligned height keys (p ∷ ps))

  payout_at-cases :
      (height : ℕ) (addr : Text) (payouts : List (NilMap F))
      → ((p : Map F) × IsFirst height payouts p
          × (payout_at host height addr payouts ≡ insert_hash (codes "address") (text addr) p ∷ []))
        ⊎ (All (IsOther height) payouts × (payout_at host height addr payouts ≡ []))
  unfolding payout_at is_height at
  payout_at-cases height addr [] = inr (tt, refl)
  payout_at-cases height addr (none ∷ payouts) = elim (payout_at-cases height addr payouts) [
    | inl (p, (before, after, e, others, here), shown) ↦
        inl (p, (none ∷ before, after, ap (λ l. none ∷ l) e, (refl, others), here), shown)
    | inr (others, shown) ↦ inr ((refl, others), shown)
  ]
  payout_at-cases height addr (some p ∷ payouts) =
      elim (Bool-cases (is_height host (codes "block_height") height (some p))) [
        | inl here ↦ inl (p, ([], payouts, refl, tt, here), rw here refl)
        | inr other ↦ elim (payout_at-cases height addr payouts) [
          | inl (q, (before, after, e, others, here), shown) ↦ inl (
            q,
            (some p ∷ before, after, ap (λ l. some p ∷ l) e, (other, others), here),
            rw other shown,
          )
          | inr (others, shown) ↦ inr ((other, others), rw other shown)
        ]
      ]

  module _ (s : S) (height : ℕ) where
    key-cases :
        (key : Key)
        → let shown =
            payouts_of_miner host s height
              (second_part (split_colons [] key))
              (get_text host s key) in
          ((p : Map F) × Chooses s height key p × (shown ≡ p ∷ []))
          ⊎ (Skips s height key × (shown ≡ []))
    key-cases key = elim (Option-cases (second_part (split_colons [] key))) [
      | inl unnamed ↦ inr (inl unnamed, rw unnamed refl)
      | inr (addr, named) ↦ elim (Option-cases (get_text host s key)) [
        | inl missing ↦ inr (inr (inl missing), rw (named, missing) refl)
        | inr (bytes, stored) ↦ elim (Option-cases (unmarshal host into_maps bytes)) [
          | inl bad ↦
              inr (
                inr (inr (inl (bytes, stored, bad))),
                rw (named, stored, payouts_of_miner, bad) refl,
              )
          | inr (list, good) ↦ elim (payout_at-cases height addr (list_of list)) [
            | inl (p, first, shown) ↦ inl (
              insert_hash (codes "address") (text addr) p,
              (addr, list_of list, p, named, (bytes, list, stored, good, refl), first, refl),
              rw (named, stored, payouts_of_miner, good) shown,
            )
            | inr (others, shown) ↦ inr (
              inr (inr (inr (list_of list, (bytes, list, stored, good, refl), others))),
              rw (named, stored, payouts_of_miner, good) shown,
            )
          ]
        ]
      ]
    ]

    Aligned-skip :
        (key : Key) (keys : List Key) (ps : List (Map F))
        → Skips s height key
        → Aligned s height keys ps
        → Aligned s height (key ∷ keys) ps
    Aligned-skip key keys [] skips rest = (skips, rest)
    Aligned-skip key keys (p ∷ ps) skips rest = inr (skips, rest)

    block_payouts-Aligned :
        (keys : List Key) → Aligned s height keys (block_payouts host s height keys)
    unfolding block_payouts
    block_payouts-Aligned [] = tt
    block_payouts-Aligned (key ∷ keys) =
        let rest = block_payouts-Aligned keys in
        elim (key-cases key) [
          | inl (p, chooses, shown) ↦ rw shown (inl (chooses, rest))
          | inr (skips, shown) ↦ rw shown (Aligned-skip key keys _ skips rest)
        ]

    -- Where the amounts to show are numbers, which float64 comparison orders by a rank, the payouts
    -- shown for a found block are, in descending order of their amounts, a permutation of this
    -- list: for each payout key in turn, the first stored payout of the block's height with the
    -- address of the key added, and nothing for a key that names no address, where no list of
    -- payouts is stored or none of them is of the height.
    pub shown_payouts_lem :
        (keys : List Key) (IsNumber : F → Type 0) (rank : F → ℕ)
        → ((a b : F) → IsNumber a → IsNumber b → host.float_less a b ≡ ltb (rank a) (rank b))
        → All (λ p. IsNumber (amount host p)) (block_payouts host s height keys)
        → let shown = exchange_sort (pays_more host) (block_payouts host s height keys) in
          (chosen : List (Map F)) × Aligned s height keys chosen
          × Perm shown chosen
          × IsDescending (λ p. rank (amount host p)) shown
    shown_payouts_lem keys IsNumber rank order numbers =
        let payouts = block_payouts host s height keys in
        (
          payouts,
          block_payouts-Aligned keys,
          perm-exchange_sort (pays_more host) payouts,
          exchange_sort-IsDescending (pays_more host) (λ p. IsNumber (amount host p))
              (λ p. rank (amount host p)) (λ a b na nb. order (amount host b) (amount host a) nb na)
              payouts numbers,
        )
