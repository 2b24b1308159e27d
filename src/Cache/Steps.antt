-- ===== src/Cache/Steps.antt =====
-- `WalkParentChainFromMap` (p2pool/cache.go): the shares that it calls back.
use p2pool_salvium_observer.Prelude.{
  ℕ, zero, suc, ◌+◌, ◌≤◌, ◌≡◌, refl, ap, none, some, List, [], ◌∷◌, arith, length, inl, inr,
  Option-cases,
}
use p2pool_salvium_observer.Outcome.{Result, ok, ◌>>=◌}
use p2pool_salvium_observer.Share.{Share}
use p2pool_salvium_observer.Pplns.{ShareMap}
use p2pool_salvium_observer.Cache.{next_share, walk_from, walk_parent_chain_from_map}

-- The shares from one on by parents, at most so many.
abbrev pub ancestors : ℕ → ShareMap → Share → List Share
ancestors zero shares current = []
ancestors (suc left) shares current =
    current
    ∷ elim (next_share shares current) [ none ↦ [] | some parent ↦ ancestors left shares parent ]

-- The callback on a list of shares, at increasing depths, until it fails.
abbrev pub call_back : {S : Type 0} → (Share → ℕ → S → Result S) → ℕ → List Share → S → Result S
call_back callback depth [] state = ok state
call_back callback depth (share ∷ rest) state =
    callback share depth state >>= call_back callback (depth + 1) rest

length-ancestors :
    (left : ℕ) (shares : ShareMap) (current : Share) → length (ancestors left shares current) ≤ left
length-ancestors zero shares current = omega arith
length-ancestors (suc left) shares current = elim (Option-cases (next_share shares current)) [
  | inl last ↦ rw last (omega arith)
  | inr (parent, on) ↦ rw on (omega (arith, length-ancestors left shares parent))
]

walk_from_lem :
    {S : Type 0} (shares : ShareMap) (callback : Share → ℕ → S → Result S) (left depth : ℕ)
    (current : Share) (state : S)
    → walk_from shares callback left depth current state
      ≡ call_back callback depth (ancestors left shares current) state
unfolding walk_from
walk_from_lem shares callback zero depth current state = refl
walk_from_lem shares callback (suc left) depth current state =
    elim (Option-cases (next_share shares current)) [
      | inl last ↦ rw last refl
      | inr (parent, on) ↦ rw on (
          ap (λ f. callback current depth state >>= f)
            (λ i after. walk_from_lem shares callback left (depth + 1) parent after i))
    ]

-- WalkParentChainFromMap is the callback on the share and its ancestors, one after the other until
-- it fails, at the depths from 0 on, and they are maxDepth at most, on a map with cycles too.
pub walk_parent_chain_from_map_lem :
    {S : Type 0} (shares : ShareMap) (callback : Share → ℕ → S → Result S) (share : Share)
    (max_depth : ℕ) (state : S)
    → (walk_parent_chain_from_map shares callback share max_depth state
        ≡ call_back callback 0 (ancestors max_depth shares share) state)
      × (length (ancestors max_depth shares share) ≤ max_depth)
unfolding walk_parent_chain_from_map
walk_parent_chain_from_map_lem shares callback share max_depth state =
    (walk_from_lem shares callback max_depth 0 share state, length-ancestors max_depth shares share)
