-- ===== src/Pplns/Total.antt =====
-- The walk of `CalculatePPLNS` (p2pool/pplns.go) ends: 2160 rounds are enough.
use p2pool_salvium_observer.Prelude.{
  ℕ, zero, suc, ◌+◌, ◌≤◌, ◌<◌, ◌≡◌, refl, ◌∙◌, false, some, List, [], ◌∷◌, arith, leb, ◌==◌, inl,
  inr, ◌⊎◌, Bool-cases, Option-cases, leb_false→lt,
}
use p2pool_salvium_observer.Difficulty.{Difficulty, cmp, is_greater, mul_64}
use p2pool_salvium_observer.Share.{Hash, Share}
use p2pool_salvium_observer.Share.Keys.{lookup_hash}
use p2pool_salvium_observer.Pplns.{
  ShareMap, Walk, pplns_window, include_uncle, visit_uncles, include_share, walk, start_walk,
  finish, calculate_pplns,
}

-- `blockDepth++`
unfoldable pub deeper : Walk → Walk
deeper w = record w { block_depth = w.block_depth + 1 }

module _ (shares : ShareMap) (tip : Share) (max_weight : Difficulty) where
  include_uncle-depth :
      (uncle : Share) (c : Difficulty) (w : Walk)
      → (include_uncle shares tip max_weight uncle (c, w)).1.block_depth ≡ w.block_depth
  unfolding include_uncle
  include_uncle-depth uncle c w = ground arith

  uncle_state-depth :
      (uncle : Share) (st : Difficulty × Walk)
      → (include_uncle shares tip max_weight uncle st).1.block_depth ≡ st.1.block_depth
  uncle_state-depth uncle (c, w) = include_uncle-depth uncle c w

  -- Whatever the uncles of known shares keep, the loop over the uncles keeps.
  pub visit_inv :
      (Q : Share → Type 0) (S : Difficulty × Walk → Type 0)
      → ((id : Hash) (s : Share) → lookup_hash id shares ≡ some s → Q s)
      → ((uncle : Share) (st : Difficulty × Walk)
          → Q uncle
          → S st
          → S (include_uncle shares tip max_weight uncle st))
      → (ids : List Hash) (st : Difficulty × Walk) → S st
      → S (visit_uncles shares tip max_weight ids st)
  unfolding visit_uncles
  visit_inv Q S known keep [] st h = h
  visit_inv Q S known keep (id ∷ ids) st h = elim (Option-cases (lookup_hash id shares)) [
    | inl missing ↦ rw missing (visit_inv Q S known keep ids st h)
    | inr (u, found) ↦ rw found (visit_inv Q S known keep ids _ (keep u st (known id u found) h))
  ]

  pub include_share-depth :
      (cur : Share) (w : Walk)
      → (include_share shares tip max_weight cur w).block_depth ≡ w.block_depth
  unfolding include_share
  include_share-depth cur w =
      visit_inv (λ _. Unit {0}) (λ st. st.1.block_depth ≡ w.block_depth) (λ _ _ _. tt)
        (λ uncle st _ h. uncle_state-depth uncle st ∙ h) cur.uncles (cur.difficulty, w) refl

  walk_total_from :
      (fuel : ℕ) (cur : Share) (w : Walk)
      → w.block_depth < pplns_window
      → pplns_window ≤ w.block_depth + fuel
      → (w' : Walk) × (walk shares tip max_weight fuel cur w ≡ some w')
  unfolding walk
  walk_total_from zero cur w lt enough = absurd (omega arith)
  walk_total_from (suc fuel) cur w lt enough =
      let depth = include_share-depth cur w in
      let w1 = include_share shares tip max_weight cur w in
      elim (Bool-cases (is_greater (cmp w1.weight max_weight))) [
        | inl over ↦ (w1, rw (over, walk))
        | inr under ↦ elim (Bool-cases (leb pplns_window (w1.block_depth + 1))) [
          | inl full ↦ (record w1 { block_depth = w1.block_depth + 1 }, rw (under, full, walk))
          | inr room ↦ elim (Bool-cases (cur.sidechain_height == 0)) [
            | inl genesis ↦
                (record w1 { block_depth = w1.block_depth + 1 }, rw (under, room, genesis, walk))
            | inr later ↦ elim (Option-cases (lookup_hash cur.parent shares)) [
              | inl missing ↦ (
                record w1 { block_depth = w1.block_depth + 1 },
                rw (under, room, later, missing, walk),
              )
              | inr (parent, found) ↦
                  rw (under, room, later, found, walk)
                    (walk_total_from fuel parent (record w1 { block_depth = w1.block_depth + 1 })
                      (leb_false→lt _ _ room) (omega (arith, depth, enough)))
            ]
          ]
        ]
      ]

  -- The rule for the walk. `Head` holds where a round begins. What comes back is a round's result,
  -- with or without the depth raised, and `Head` held where that round began.
  unfoldable pub Ends : (Walk → Type 0) → (Share → Type 0) → Walk → Type 0
  Ends Head Q w' =
      (cur : Share) × (w : Walk) × Q cur
      × Head w
      × ((w' ≡ include_share shares tip max_weight cur w)
          ⊎ (w' ≡ deeper (include_share shares tip max_weight cur w)))

  pub walk_inv :
      (Head : Walk → Type 0) (Q : Share → Type 0)
      → ((id : Hash) (s : Share) → lookup_hash id shares ≡ some s → Q s)
      → ((cur : Share) (w : Walk)
          → Q cur
          → Head w
          → is_greater (cmp (include_share shares tip max_weight cur w).weight max_weight) ≡ false
          → leb pplns_window ((include_share shares tip max_weight cur w).block_depth + 1) ≡ false
          → Head (deeper (include_share shares tip max_weight cur w)))
      → (fuel : ℕ) (cur : Share) (w w' : Walk) → Q cur
      → Head w
      → walk shares tip max_weight fuel cur w ≡ some w'
      → Ends Head Q w'
  unfolding walk Ends deeper
  walk_inv Head Q known keep zero cur w w' q h e = cc
  walk_inv Head Q known keep (suc fuel) cur w w' q h e =
      let w1 = include_share shares tip max_weight cur w in
      elim (Bool-cases (is_greater (cmp w1.weight max_weight))) [
        | inl over ↦ (cur, w, q, h, inl (cc (rw (over, walk) at e)))
        | inr under ↦ elim (Bool-cases (leb pplns_window (w1.block_depth + 1))) [
          | inl full ↦ (cur, w, q, h, inr (cc (rw (under, full, walk) at e)))
          | inr room ↦ elim (Bool-cases (cur.sidechain_height == 0)) [
            | inl genesis ↦ (cur, w, q, h, inr (cc (rw (under, room, genesis, walk) at e)))
            | inr later ↦ elim (Option-cases (lookup_hash cur.parent shares)) [
              | inl missing ↦ (cur, w, q, h, inr (cc (rw (under, room, later, missing, walk) at e)))
              | inr (parent, found) ↦
                  walk_inv Head Q known keep fuel parent
                    (record w1 { block_depth = w1.block_depth + 1 }) w'
                    (known cur.parent parent found) (keep cur w q h under room)
                    (rw (under, room, later, found, walk) at e)
            ]
          ]
        ]
      ]

-- The walk over the window ends within 2160 rounds and gives a result, on maps with cycles too.
pub calculate_pplns_total :
    (shares : ShareMap) (tip : Share) (mainchain_diff : Difficulty)
    → (w : Walk) × (walk shares tip (mul_64 mainchain_diff 2) pplns_window tip start_walk ≡ some w)
      × (calculate_pplns shares tip mainchain_diff ≡ some (finish tip w))
unfolding calculate_pplns
calculate_pplns_total shares tip mainchain_diff =
    let (w, e) =
      walk_total_from shares tip (mul_64 mainchain_diff 2) pplns_window tip start_walk (omega arith)
        (omega arith) in
    (w, e, rw (e, calculate_pplns))
