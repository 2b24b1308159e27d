-- ===== src/Expiry/Web.antt =====
-- cmd/web/cache.go: `cacheResult` at one type of results.
use p2pool_salvium_observer.Prelude.{
  ℕ, ◌+◌, ◌<◌, ◌≡◌, refl, Bool, true, false, Option, none, some, List, ltb, if◌then◌else◌, lt→ltb,
}
use p2pool_salvium_observer.Share.Keys.{lookup_hash, insert_hash, lookup-insert_hash, bytes_eq_refl}

pub record CachedResult (T : Type 0) : Type 0 where
  pub made : ℕ
  pub result : T

module _ {T : Type 0} where
  -- `r2.t.Add(cacheTime).After(time.Now())`
  abbrev pub usable : ℕ → ℕ → Option (CachedResult T) → Option T
  usable now cache_time none = none
  usable now cache_time (some r) = if ltb now (r.made + cache_time) then some r.result else none

  -- The result, the cache after the call, and whether `result()` was called. `now` is when the cache
  -- is read, `done` when the result is stored, `fresh` what `result()` returns.
  unfoldable pub cache_result :
      (now done : ℕ)
      → List ℕ
      → ℕ
      → T
      → List (List ℕ × CachedResult T)
      → T × List (List ℕ × CachedResult T) × Bool
  cache_result now done key cache_time fresh cache =
      if ltb 0 cache_time
      then elim (usable now cache_time (lookup_hash key cache)) [
        | some r ↦ (r, cache, false)
        | none ↦ (fresh, insert_hash key (record { made = done; result = fresh }) cache, true)
      ]
      else (fresh, cache, true)

  -- A call that finds nothing usable computes the result and stores it.
  miss_lem :
      (now done cache_time : ℕ) (key : List ℕ) (fresh : T) (cache : List (List ℕ × CachedResult T))
      → usable now cache_time (lookup_hash key cache) ≡ none
      → 0 < cache_time
      → cache_result now done key cache_time fresh cache
        ≡ (fresh, insert_hash key (record { made = done; result = fresh }) cache, true)
  unfolding cache_result
  miss_lem now done cache_time key fresh cache miss positive =
      rw (lt→ltb 0 cache_time positive, miss) refl

  hit_lem :
      (later stored done cache_time : ℕ) (key : List ℕ) (fresh other : T)
      (cache : List (List ℕ × CachedResult T))
      → 0 < cache_time
      → later < done + cache_time
      → let store = insert_hash key (record { made = done; result = fresh }) cache in
        cache_result later stored key cache_time other store ≡ (fresh, store, false)
  unfolding cache_result
  hit_lem later stored done cache_time key fresh other cache positive soon =
      let found = lookup-insert_hash key key (record { made = done; result = fresh }) cache in
      rw
        (
          lt→ltb 0 cache_time positive,
          found,
          bytes_eq_refl key,
          lt→ltb later (done + cache_time) soon,
        )
        refl

  -- Where the cache had nothing usable and the cache time is positive, the result that cacheResult
  -- computed is given to every call before that time is over, without computing it again.
  pub cache_result_again :
      (now done later stored cache_time : ℕ) (key : List ℕ) (fresh other : T)
      (cache : List (List ℕ × CachedResult T))
      → usable now cache_time (lookup_hash key cache) ≡ none
      → 0 < cache_time
      → later < done + cache_time
      → let first = cache_result now done key cache_time fresh cache in
        cache_result later stored key cache_time other first.1 ≡ (fresh, first.1, false)
  cache_result_again now done later stored cache_time key fresh other cache miss positive soon =
      rw (miss_lem now done cache_time key fresh cache miss positive)
        (hit_lem later stored done cache_time key fresh other cache positive soon)
