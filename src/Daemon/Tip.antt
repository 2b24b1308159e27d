-- ===== src/Daemon/Tip.antt =====
-- `findTip` (cmd/daemon/main.go): the share of the greatest sidechain height.
use p2pool_salvium_observer.Prelude.{
  ◌≤◌, ◌≡◌, ◌⊎◌, inl, inr, refl, Option, none, some, [], ◌∷◌, arith, ltb, if◌then◌else◌, All,
  Bool-cases, ltb→lt, ltb_false→le,
}
use p2pool_salvium_observer.Share.{Hash, Share}
use p2pool_salvium_observer.Pplns.{ShareMap}

-- The body of the loop: the tip so far against a share.
abbrev pub higher : Option Share → Share → Share
higher none share = share
higher (some tip) share = if ltb tip.sidechain_height share.sidechain_height then share else tip

unfoldable pub find_tip_from : Option Share → ShareMap → Option Share
find_tip_from tip [] = tip
find_tip_from tip ((id, share) ∷ shares) = find_tip_from (some (higher tip share)) shares

unfoldable pub find_tip : ShareMap → Option Share
find_tip shares = find_tip_from none shares

abbrev pub IsAmong : Share → ShareMap → Type 0
IsAmong t [] = ⊥
IsAmong t ((id, share) ∷ shares) = (t ≡ share) ⊎ IsAmong t shares

-- No share of the map is higher.
abbrev pub IsHighest : Share → ShareMap → Type 0
IsHighest t = All (λ e. e.1.sidechain_height ≤ t.sidechain_height)

from_lem :
    (tip : Share) (shares : ShareMap)
    → (t : Share) × (find_tip_from (some tip) shares ≡ some t)
      × (tip.sidechain_height ≤ t.sidechain_height)
      × ((t ≡ tip) ⊎ IsAmong t shares)
      × IsHighest t shares
unfolding find_tip_from
from_lem tip [] = (tip, refl, omega arith, inl refl, tt)
from_lem tip ((id, share) ∷ shares) =
    elim (Bool-cases (ltb tip.sidechain_height share.sidechain_height)) [
      | inl above ↦
          let (t, e, le, among, highest) = from_lem share shares in
          rw above (t, e, omega (arith, ltb→lt _ _ above, le), inr among, (le, highest))
      | inr not_above ↦
          let (t, e, le, among, highest) = from_lem tip shares in
          let here : share.sidechain_height ≤ t.sidechain_height =
            omega (arith, ltb_false→le _ _ not_above, le) in
          rw not_above (
            t,
            e,
            le,
            elim among [ inl same ↦ inl same | inr later ↦ inr (inr later) ],
            (here, highest),
          )
    ]

-- On a map that is not empty findTip finds one of its shares, and none is higher.
pub find_tip_lem :
    (id : Hash) (share : Share) (shares : ShareMap)
    → (t : Share) × (find_tip ((id, share) ∷ shares) ≡ some t)
      × IsAmong t ((id, share) ∷ shares)
      × IsHighest t ((id, share) ∷ shares)
unfolding find_tip find_tip_from
find_tip_lem id share shares =
    let (t, e, le, among, highest) = from_lem share shares in (t, e, among, (le, highest))
