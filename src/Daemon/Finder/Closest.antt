-- ===== src/Daemon/Finder/Closest.antt =====
-- The share that `loadFoundBlocks` takes to have found a block.
use p2pool_salvium_observer.Prelude.{
  ℕ, ◌+◌, ◌-◌, ◌<◌, ◌≤◌, ◌^◌, ◌≡◌, ◌≢◌, ◌⊎◌, inl, inr, refl, true, false, Option, none, some, [],
  ◌∷◌, ◌==◌, if◌then◌else◌, arith, ltb, All, Bool-cases, ==_iff, ltb→lt, ltb_false→le,
}
use p2pool_salvium_observer.Word.Int.{ℤ, pos, int_of_u64, sub_int, neg_int, ltb_ℤ}
use p2pool_salvium_observer.Share.{Hash, Share}
use p2pool_salvium_observer.Pplns.{ShareMap}
use p2pool_salvium_observer.Daemon.{FoundBlock}
use p2pool_salvium_observer.Daemon.Tip.{IsAmong}
use p2pool_salvium_observer.Daemon.Finder.{time_diff, closer, closest, best_match}

-- The distance of two times.
abbrev pub apart : ℕ → ℕ → ℕ
apart a b = (a - b) + (b - a)

-- A time in seconds before the year 73 billion.
abbrev pub IsTime : ℕ → Type 0
IsTime t = t < 2 ^ 61

abs_lem :
    (a b : ℕ)
    → IsTime a
    → IsTime b
    → (if ltb_ℤ (sub_int (int_of_u64 a) (pos b)) (pos 0)
        then neg_int (sub_int (int_of_u64 a) (pos b))
        else sub_int (int_of_u64 a) (pos b))
      ≡ pos (apart a b)
abs_lem a b ha hb = ground arith

ltb_ℤ-pos : (a b : ℕ) → ltb_ℤ (pos a) (pos b) ≡ ltb a b
ltb_ℤ-pos a b = ground arith

module _ (fb : FoundBlock) (t : ℕ) (found : fb.timestamp ≡ pos t) (in_range : IsTime t) where
  time_diff_lem :
      (share : Share) → IsTime share.timestamp → time_diff share fb ≡ pos (apart share.timestamp t)
  unfolding time_diff
  time_diff_lem share h = rw found (abs_lem share.timestamp t h in_range)

  closer_level :
      (share : Share) (best : Option Share) (d : ℕ)
      → (share.mainchain_height == fb.height) ≡ true
      → IsTime share.timestamp
      → closer fb share (best, pos d) ≡ (
          if ltb (apart share.timestamp t) d
          then (some share, pos (apart share.timestamp t))
          else (best, pos d))
  unfolding closer
  closer_level share best d level time =
      rw (level, time_diff_lem share time, ltb_ℤ-pos (apart share.timestamp t) d) refl

  closer_other :
      (share : Share) (best : Option Share × ℤ)
      → (share.mainchain_height == fb.height) ≡ false
      → closer fb share best ≡ best
  unfolding closer
  closer_other share best other = rw other refl

  -- No share of the block's height is closer to it in time.
  abbrev pub IsClosest : Share → ShareMap → Type 0
  IsClosest s =
      All (λ e. e.1.mainchain_height ≡ fb.height → apart s.timestamp t ≤ apart e.1.timestamp t)

  -- A share of the map at the block's height that none is closer than, or none is of that height.
  abbrev pub IsMatch : ShareMap → Option Share → Type 0
  IsMatch shares none = All (λ e. e.1.mainchain_height ≢ fb.height) shares
  IsMatch shares (some s) = IsAmong s shares × (s.mainchain_height ≡ fb.height) × IsClosest s shares

  abbrev Times : ShareMap → Type 0
  Times = All (λ e. IsTime e.1.timestamp)

  closest-some :
      (s : Share) (shares : ShareMap)
      → s.mainchain_height ≡ fb.height
      → Times shares
      → (r : Share) × ((closest fb shares (some s, pos (apart s.timestamp t))).0 ≡ some r)
        × ((r ≡ s) ⊎ IsAmong r shares)
        × (r.mainchain_height ≡ fb.height)
        × (apart r.timestamp t ≤ apart s.timestamp t)
        × IsClosest r shares
  unfolding closest
  closest-some s [] level times = (s, refl, inl refl, level, omega arith, tt)
  closest-some s ((id, share) ∷ shares) level (time, times) =
      elim (Bool-cases (share.mainchain_height == fb.height)) [
        | inr other ↦
            let (r, e, among, level', le, closer') = closest-some s shares level times in
            rw (closest, closer_other share _ other)
              (
                r,
                e,
                elim among [ inl same ↦ inl same | inr later ↦ inr (inr later) ],
                level',
                le,
                (
                  λ h. absurd (ground (arith, ==_iff share.mainchain_height fb.height, h, other)),
                  closer',
                ),
              )
        | inl same_height ↦
            let here = (==_iff _ _).0 same_height in
            let step = closer_level share (some s) (apart s.timestamp t) same_height time in
            elim (Bool-cases (ltb (apart share.timestamp t) (apart s.timestamp t))) [
              | inl near ↦
                  let (r, e, among, level', le, closer') = closest-some share shares here times in
                  rw (closest, step, near)
                    (
                      r,
                      e,
                      inr among,
                      level',
                      omega (arith, le, ltb→lt _ _ near),
                      (λ h. le, closer'),
                    )
              | inr far ↦
                  let (r, e, among, level', le, closer') = closest-some s shares level times in
                  rw (closest, step, far)
                    (
                      r,
                      e,
                      elim among [ inl same ↦ inl same | inr later ↦ inr (inr later) ],
                      level',
                      le,
                      (λ h. omega (arith, le, ltb_false→le _ _ far), closer'),
                    )
            ]
      ]

  IsMatch-skip :
      (id : Hash) (share : Share) (shares : ShareMap) (best : Option Share)
      → (share.mainchain_height == fb.height) ≡ false
      → IsMatch shares best
      → IsMatch ((id, share) ∷ shares) best
  IsMatch-skip id share shares none other m =
      (λ h. ground (arith, ==_iff share.mainchain_height fb.height, h, other), m)
  IsMatch-skip id share shares (some s) other (among, level, near) = (
    inr among,
    level,
    (λ h. absurd (ground (arith, ==_iff share.mainchain_height fb.height, h, other)), near),
  )

  closest-none :
      (shares : ShareMap) → Times shares → IsMatch shares (closest fb shares (none, pos (2 ^ 62))).0
  unfolding closest
  closest-none [] times = tt
  closest-none ((id, share) ∷ shares) (time, times) =
      elim (Bool-cases (share.mainchain_height == fb.height)) [
        | inr other ↦
            rw (closest, closer_other share (none, pos (2 ^ 62)) other)
              (IsMatch-skip id share shares _ other (closest-none shares times))
        | inl same_height ↦
            let (r, e, among, level', le, closer') =
              closest-some share shares ((==_iff _ _).0 same_height) times in
            let near : ltb (apart share.timestamp t) (2 ^ 62) ≡ true =
              ground (arith, time, in_range) in
            rw (closest, closer_level share none (2 ^ 62) same_height time, near, e)
              (among, level', (λ h. le, closer'))
      ]

  -- With times below 2^61 the share that loadFoundBlocks takes to have found a block is one of the
  -- map at the block's mainchain height, and none at that height is closer to it in time; no share
  -- is taken only where none is at that height.
  pub best_match_lem : (shares : ShareMap) → Times shares → IsMatch shares (best_match shares fb)
  unfolding best_match
  best_match_lem shares times = closest-none shares times
