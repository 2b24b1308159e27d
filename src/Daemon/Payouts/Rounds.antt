-- ===== src/Daemon/Payouts/Rounds.antt =====
-- A round of the loop of `calculatePayouts` (cmd/daemon/main.go): it pays nobody, or it pays for its
-- block.
use p2pool_salvium_observer.Prelude.{
  ℕ, ◌≡◌, ◌⊎◌, inl, inr, refl, ap, ◌∙◌, true, false, Option, none, some, List, [], ◌∷◌, ◌==◌,
  Bool-cases, Option-cases, ==_iff,
}
use p2pool_salvium_observer.Daemon.{
  Text, FoundBlock, lookup_height, insert_height, lookup-insert_same, lookup-insert_other,
}
use p2pool_salvium_observer.Daemon.Payouts.{
  assign_payouts, sort_outputs, Pass, fetch_reward, take_snapshot, pay_block, process_block,
}
use p2pool_salvium_observer.Daemon.Payouts.Amounts.{or_current, take_snapshot-payouts}
use p2pool_salvium_observer.Daemon.Payouts.ByMiner.{is_processed, miners_for}

-- A round that pays nobody, and leaves the miners of each height.
abbrev pub IsIdle : List Text → Pass → Pass → Type 0
IsIdle current p q =
    (q.miner_payouts ≡ p.miner_payouts)
    × (q.processed ≡ p.processed)
    × ((h : ℕ) → miners_for current h q ≡ miners_for current h p)

-- A round that pays for its block, which was not processed, what one reply holds.
pub record Pays (current : List Text) (reply : Option (List ℕ)) (fb : FoundBlock) (p q : Pass)
    : Type 0 where
  pub was_new : is_processed fb.height p ≡ false
  pub out : ℕ
  pub outs : List ℕ
  pub replied : reply ≡ some (out ∷ outs)
  pub payouts :
      q.miner_payouts
      ≡ assign_payouts fb
          (sort_outputs (out ∷ outs))
          (miners_for current fb.height p)
          p.miner_payouts
  pub marked : q.processed ≡ insert_height fb.height true p.processed
  pub same_miners : (h : ℕ) → miners_for current h q ≡ miners_for current h p

fetch_reward-IsIdle :
    (reply : Option (List ℕ)) (current : List Text) (fb : FoundBlock) (p : Pass)
    → IsIdle current p (fetch_reward reply fb p).1
unfolding fetch_reward
fetch_reward-IsIdle none current fb p = (refl, refl, λ h. refl)
fetch_reward-IsIdle (some []) current fb p = (refl, refl, λ h. refl)
fetch_reward-IsIdle (some (out ∷ outs)) current fb p = elim (Bool-cases (fb.reward == 0)) [
  | inl unset ↦ rw unset (refl, refl, λ h. refl)
  | inr set ↦ rw set (refl, refl, λ h. refl)
]

-- A snapshot that is taken is of the current miners, whom the height would be paid to without it.
or_current-insert :
    (current : List Text) (k h : ℕ) (m : List (ℕ × List Text))
    → lookup_height k m ≡ none
    → or_current current (lookup_height h (insert_height k current m))
      ≡ or_current current (lookup_height h m)
or_current-insert current k h m missing = elim (Bool-cases (k == h)) [
  | inl same ↦
      let e : lookup_height h m ≡ none = rw ((==_iff k h).0 same) at missing in
      rw (lookup-insert_same k h current m same, e) refl
  | inr other ↦ rw (lookup-insert_other k h current m other) refl
]

take_snapshot-IsIdle :
    (current : List Text) (fb : FoundBlock) (p : Pass)
    → IsIdle current p (take_snapshot current fb p).1
unfolding take_snapshot
take_snapshot-IsIdle current fb p = elim (Option-cases (lookup_height fb.height p.snapshots)) [
  | inl missing ↦
      rw (missing, take_snapshot)
        (refl, refl, λ h. or_current-insert current fb.height h p.snapshots missing)
  | inr (addrs, there) ↦ rw (there, take_snapshot) (refl, refl, λ h. refl)
]

pay_block-cases :
    (reply : Option (List ℕ)) (current : List Text) (fb : FoundBlock) (p : Pass) (addrs : List Text)
    (s : Pass)
    → IsIdle current p s
    → addrs ≡ miners_for current fb.height p
    → is_processed fb.height p ≡ false
    → let q = (pay_block reply fb (addrs, s)).1 in IsIdle current p q ⊎ Pays current reply fb p q
unfolding pay_block
pay_block-cases none current fb p addrs s idle to was_new = inl idle
pay_block-cases (some []) current fb p addrs s idle to was_new = inl idle
pay_block-cases (some (out ∷ outs)) current fb p addrs s (paid, heights, miners) to was_new =
    inr (record {
      was_new = was_new;
      out = out;
      outs = outs;
      replied = refl;
      payouts =
          ap (assign_payouts fb (sort_outputs (out ∷ outs)) addrs) paid
          ∙ ap (λ to'. assign_payouts fb (sort_outputs (out ∷ outs)) to' p.miner_payouts) to;
      marked = ap (insert_height fb.height true) heights;
      same_miners = miners;
    })

pub process_block-cases :
    (reply : Option (List ℕ)) (current : List Text) (fb : FoundBlock) (p : Pass)
    → let q = (process_block reply current fb p).1 in IsIdle current p q ⊎ Pays current reply fb p q
unfolding process_block
process_block-cases reply current fb p = elim (Bool-cases (is_processed fb.height p)) [
  | inl done ↦ rw done (inl (fetch_reward-IsIdle reply current fb p))
  | inr was_new ↦
      let (addrs, s) = take_snapshot current fb p in
      rw was_new (
        pay_block-cases reply current fb p addrs s (take_snapshot-IsIdle current fb p)
          (take_snapshot-payouts current fb p).0 was_new)
]
