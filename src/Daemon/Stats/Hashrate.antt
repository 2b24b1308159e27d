-- ===== src/Daemon/Stats/Hashrate.antt =====
-- `storeHashrate` on the window that `CalculatePPLNS` computes.
use mathlib.Core.Path.{subst}
use p2pool_salvium_observer.Prelude.{
  ℕ, ◌+◌, ◌/◌, ◌^◌, ◌<◌, ◌≤◌, ◌≡◌, ◌≢◌, ◌⊎◌, inl, inr, refl, ap, ◌∙◌, sym, false, none, some, [],
  ◌∷◌, arith, ltb, ◌==◌, Bool-cases, ==_iff, le→ltb_false, ltb→lt, ltb_false→le, All,
}
use p2pool_salvium_observer.Word.{IsU64, sub64}
use p2pool_salvium_observer.Difficulty.{Difficulty, mul_64}
use p2pool_salvium_observer.Share.{Hash, Share, bytes_eq}
use p2pool_salvium_observer.Share.Keys.{lookup_hash}
use p2pool_salvium_observer.Pplns.{
  ShareMap, PplnsResult, Walk, pplns_window, include_share, walk, start_walk, finish,
  calculate_pplns,
}
use p2pool_salvium_observer.Pplns.Total.{walk_inv, Ends, deeper, calculate_pplns_total}
use p2pool_salvium_observer.Daemon.Tip.{IsAmong}
use p2pool_salvium_observer.Daemon.Stats.{share_at, time_span, store_hashrate}

-- A share of the map at a height.
abbrev pub IsAt : ℕ → ShareMap → Type 0
IsAt height shares = (s : Share) × IsAmong s shares × (s.sidechain_height ≡ height)

lookup-IsAmong :
    (k : Hash) (s : Share) (shares : ShareMap) → lookup_hash k shares ≡ some s → IsAmong s shares
lookup-IsAmong k s [] e = cc
lookup-IsAmong k s ((j, share) ∷ shares) e = elim (Bool-cases (bytes_eq j k)) [
  | inl same ↦ (let f : share ≡ s = cc (rw same at e) in inl (sym f))
  | inr other ↦ inr (lookup-IsAmong k s shares (rw other at e))
]

-- The last share at a height is one of the map, or the one before it.
share_at-some :
    (height : ℕ) (shares : ShareMap) (s : Share)
    → s.sidechain_height ≡ height
    → (r : Share) × (share_at height (some s) shares ≡ some r)
      × ((r ≡ s) ⊎ IsAmong r shares)
      × (r.sidechain_height ≡ height)
unfolding share_at
share_at-some height [] s at = (s, refl, inl refl, at)
share_at-some height ((id, share) ∷ shares) s at =
    elim (Bool-cases (share.sidechain_height == height)) [
      | inl here ↦
          let (r, e, among, level) = share_at-some height shares share ((==_iff _ _).0 here) in
          rw (share_at, here) (r, e, inr among, level)
      | inr other ↦
          let (r, e, among, level) = share_at-some height shares s at in
          rw (share_at, other)
            (r, e, elim among [ inl same ↦ inl same | inr later ↦ inr (inr later) ], level)
    ]

share_at-IsAt :
    (height : ℕ) (shares : ShareMap)
    → IsAt height shares
    → (r : Share) × (share_at height none shares ≡ some r)
      × IsAmong r shares
      × (r.sidechain_height ≡ height)
unfolding share_at
share_at-IsAt height [] (s, among, level) = elim among [ ]
share_at-IsAt height ((id, share) ∷ shares) (s, among, level) =
    elim (Bool-cases (share.sidechain_height == height)) [
      | inl here ↦
          let (r, e, among', level') = share_at-some height shares share ((==_iff _ _).0 here) in
          rw (share_at, here) (r, e, among', level')
      | inr other ↦ elim among [
        | inl same ↦
            let here : share.sidechain_height ≡ height =
              sym (ap (λ (x : Share). x.sidechain_height) same) ∙ level in
            absurd (ground (arith, ==_iff share.sidechain_height height, here, other))
        | inr later ↦
            (let (r, e, among', level') = share_at-IsAt height shares (s, later, level) in
              rw (share_at, other) (r, e, inr among', level'))
      ]
    ]

-- The window of CalculatePPLNS ends at the height of a share of the map.
bottom-IsAt :
    (shares : ShareMap) (tip : Share) (mainchain_diff : Difficulty) (w : Walk)
    → IsAmong tip shares
    → walk shares tip (mul_64 mainchain_diff 2) pplns_window tip start_walk ≡ some w
    → IsAt w.bottom_height shares
unfolding Ends deeper include_share
bottom-IsAt shares tip mainchain_diff w among e =
    let (cur, w0, here, h, last) =
      walk_inv shares tip (mul_64 mainchain_diff 2) (λ _. Unit {0}) (λ s. IsAmong s shares)
        (λ id s found. lookup-IsAmong id s shares found) (λ _ _ _ _ _ _. tt) pplns_window tip
        start_walk w among tt e in
    elim last [ inl same ↦ rw same (cur, here, refl) | inr raised ↦ rw raised (cur, here, refl) ]

-- The seconds from `bottom` to `tip` as the code takes them: the difference, 1 for equal times, and
-- an underflow of the uint64 where the tip's time is before the bottom's.
abbrev pub IsSpan : (bottom tip span : ℕ) → Type 0
IsSpan bottom tip span =
    ((bottom < tip) × (bottom + span ≡ tip))
    ⊎ ((bottom ≡ tip) × (span ≡ 1))
    ⊎ ((tip < bottom) × (bottom + span ≡ tip + 2 ^ 64))

time_span-IsSpan :
    (tip bottom : Share)
    → IsU64 tip.timestamp
    → IsU64 bottom.timestamp
    → IsSpan bottom.timestamp tip.timestamp (time_span tip bottom)
unfolding time_span
time_span-IsSpan tip bottom t b = elim (Bool-cases (sub64 tip.timestamp bottom.timestamp == 0)) [
  | inl none_between ↦
      let e = (==_iff _ _).0 none_between in
      rw none_between (inr (inl (omega (arith, t, b, e), refl)))
  | inr some_between ↦ (elim (Bool-cases (ltb bottom.timestamp tip.timestamp)) [
    | inl later ↦ let lt = ltb→lt _ _ later in rw some_between (inl (lt, omega (arith, t, b, lt)))
    | inr before ↦
        let le = ltb_false→le _ _ before in
        let apart : sub64 tip.timestamp bottom.timestamp ≢ 0 =
          λ e. ground (arith, e, some_between) in
        let lt : tip.timestamp < bottom.timestamp = omega (arith, t, b, le, apart) in
        rw some_between (inr (inr (lt, omega (arith, t, b, lt))))
  ])
]

timestamp-IsU64 :
    (s : Share) (shares : ShareMap)
    → All (λ e. IsU64 e.1.timestamp) shares
    → IsAmong s shares
    → IsU64 s.timestamp
timestamp-IsU64 s [] h among = elim among [ ]
timestamp-IsU64 s ((id, share) ∷ shares) (here, h) among = elim among [
  | inl same ↦ rw same here
  | inr later ↦ timestamp-IsU64 s shares h later
]

-- For the window that CalculatePPLNS computes from a tip of a map of shares with uint64 timestamps,
-- where it has two shares at least, storeHashrate writes the low half of the total weight divided
-- by the span from a share of the map at the bottom height to one at the tip's height: their
-- difference in time, 1 where the times are equal, and the difference plus 2^64 where the tip's
-- time is the earlier one.
pub store_hashrate-some :
    (shares : ShareMap) (tip : Share) (mainchain_diff : Difficulty) (r : PplnsResult)
    → All (λ e. IsU64 e.1.timestamp) shares
    → IsAmong tip shares
    → calculate_pplns shares tip mainchain_diff ≡ some r
    → 2 ≤ r.blocks_included
    → (first last : Share) × (span : ℕ) × (store_hashrate shares r
        ≡ some (r.total_weight.lo / span))
      × IsSpan first.timestamp last.timestamp span
      × (IsAmong first shares × (first.sidechain_height ≡ r.bottom_height))
      × (IsAmong last shares × (last.sidechain_height ≡ tip.sidechain_height))
unfolding store_hashrate finish
store_hashrate-some shares tip mainchain_diff r times among computed enough =
    let (w, e, f) = calculate_pplns_total shares tip mainchain_diff in
    let same : finish tip w ≡ r = cc (sym f ∙ computed) in
    let bottom : IsAt r.bottom_height shares =
      subst (λ (x : PplnsResult). IsAt x.bottom_height shares) same
        (bottom-IsAt shares tip mainchain_diff w among e) in
    let height : tip.sidechain_height ≡ r.tip_height =
      ap (λ (x : PplnsResult). x.tip_height) same in
    let (first, found, in_map, level) = share_at-IsAt r.bottom_height shares bottom in
    let (last, found', in_map', level') = share_at-IsAt r.tip_height shares (tip, among, height) in
    let many : ltb r.blocks_included 2 ≡ false = le→ltb_false _ _ enough in
    (
      first,
      last,
      time_span last first,
      rw (many, found, found') refl,
      time_span-IsSpan last first (timestamp-IsU64 last shares times in_map')
          (timestamp-IsU64 first shares times in_map),
      (in_map, level),
      (in_map', level' ∙ sym height),
    )
