-- ===== src/Daemon/Payouts/ByMiner.antt =====
-- What each miner is paid for a height by the loop of `calculatePayouts` (cmd/daemon/main.go).
use mathlib.Core.List.{append-nil, append_assoc}
use p2pool_salvium_observer.Prelude.{
  ℕ, ◌≡◌, inl, inr, refl, sym, ap, ◌∙◌, Bool, true, false, List, [], ◌∷◌, ◌++◌, ◌==◌, Bool-cases,
  if◌then◌else◌,
}
use p2pool_salvium_observer.Share.{bytes_eq}
use p2pool_salvium_observer.Share.Keys.{lookup_hash, lookup-insert_hash, bytes_eq_sound}
use p2pool_salvium_observer.Daemon.{Text, FoundBlock, Payout, lookup_height, is_set}
use p2pool_salvium_observer.Daemon.Payouts.{
  MinerPayouts, or_nil, append_payout, payout_of, assign_payouts, Pass,
}
use p2pool_salvium_observer.Daemon.Payouts.Amounts.{or_current}

abbrev pub is_processed : ℕ → Pass → Bool
is_processed h p = is_set (lookup_height h p.processed)

-- The payouts of a height, by their amounts.
abbrev pub at_height : ℕ → List Payout → List ℕ
at_height h [] = []
at_height h (p ∷ ps) =
    let rest = at_height h ps in if p.block_height == h then p.amount ∷ rest else rest

-- What a miner has been paid for a height, one payout after the other.
abbrev pub amounts_at : ℕ → Text → MinerPayouts → List ℕ
amounts_at h addr m = at_height h (or_nil (lookup_hash addr m))

-- The outputs at the positions of a miner.
abbrev pub amounts_to : Text → List ℕ → List Text → List ℕ
amounts_to addr [] miners = []
amounts_to addr (out ∷ outs) [] = []
amounts_to addr (out ∷ outs) (miner ∷ miners) =
    let rest = amounts_to addr outs miners in if bytes_eq miner addr then out ∷ rest else rest

-- The miners that a height is paid to: those of its snapshot, or the current ones.
abbrev pub miners_for : List Text → ℕ → Pass → List Text
miners_for current h p = or_current current (lookup_height h p.snapshots)

if_same : (b : Bool) (xs : List ℕ) → (if b then xs else xs) ≡ xs
if_same true xs = refl
if_same false xs = refl

at_height-append :
    (h : ℕ) (xs ys : List Payout) → at_height h (xs ++ ys) ≡ at_height h xs ++ at_height h ys
at_height-append h [] ys = refl
at_height-append h (p ∷ ps) ys = elim (Bool-cases (p.block_height == h)) [
  | inl here ↦ rw here (ap (λ l. p.amount ∷ l) (at_height-append h ps ys))
  | inr other ↦ rw other (at_height-append h ps ys)
]

amounts_at-append_payout :
    (h : ℕ) (addr miner : Text) (p : Payout) (m : MinerPayouts)
    → amounts_at h addr (append_payout miner p m)
      ≡ amounts_at h addr m ++ (if bytes_eq miner addr then at_height h (p ∷ []) else [])
unfolding append_payout
amounts_at-append_payout h addr miner p m = elim (Bool-cases (bytes_eq miner addr)) [
  | inl same ↦
      let e : lookup_hash miner m ≡ lookup_hash addr m =
        ap (λ k. lookup_hash k m) (bytes_eq_sound miner addr same) in
      rw (lookup-insert_hash miner addr (or_nil (lookup_hash miner m) ++ (p ∷ [])) m, same, e)
        (at_height-append h (or_nil (lookup_hash addr m)) (p ∷ []))
  | inr other ↦
      rw (lookup-insert_hash miner addr (or_nil (lookup_hash miner m) ++ (p ∷ [])) m, other)
        (sym (append-nil _))
]

-- A block adds the outputs at the positions of a miner to the miner's payouts for its height.
pub amounts_at-assign_payouts :
    (h : ℕ) (addr : Text) (fb : FoundBlock) (outs : List ℕ) (miners : List Text) (m : MinerPayouts)
    → amounts_at h addr (assign_payouts fb outs miners m)
      ≡ amounts_at h addr m ++ (if fb.height == h then amounts_to addr outs miners else [])
unfolding assign_payouts
amounts_at-assign_payouts h addr fb [] miners m =
    sym (ap (λ l. amounts_at h addr m ++ l) (if_same (fb.height == h) []) ∙ append-nil _)
amounts_at-assign_payouts h addr fb (out ∷ outs) [] m =
    sym (ap (λ l. amounts_at h addr m ++ l) (if_same (fb.height == h) []) ∙ append-nil _)
amounts_at-assign_payouts h addr fb (out ∷ outs) (miner ∷ miners) m =
    let rest =
      amounts_at-assign_payouts h addr fb outs miners (append_payout miner (payout_of fb out) m) in
    let one = amounts_at-append_payout h addr miner (payout_of fb out) m in
    rest
    ∙ ap (λ l. l ++ (if fb.height == h then amounts_to addr outs miners else [])) one
    ∙ append_assoc (amounts_at h addr m) _ _
    ∙ ap (λ l. amounts_at h addr m ++ l)
        (elim (Bool-cases (fb.height == h)) [
          | inl same ↦ elim (Bool-cases (bytes_eq miner addr)) [
            | inl own ↦ rw (same, own) refl
            | inr foreign ↦ rw (same, foreign) refl
          ]
          | inr other ↦ elim (Bool-cases (bytes_eq miner addr)) [
            | inl own ↦ rw (other, own) refl
            | inr foreign ↦ rw (other, foreign) refl
          ]
        ])
