-- ===== src/Daemon/Payouts/Rebuild.antt =====
-- `RebuildAllPayouts` (cmd/daemon/main.go) pays every found block that has outputs.
use p2pool_salvium_observer.Prelude.{
  ℕ, ◌+◌, ◌≡◌, ◌∙◌, Option, none, some, List, [], ◌∷◌, arith, ◌==◌, if◌then◌else◌, length,
}
use p2pool_salvium_observer.Daemon.{Text, FoundBlock}
use p2pool_salvium_observer.Daemon.Payouts.{
  sort_outputs, Rebuilt, rebuild_block, rebuild_blocks, nothing_rebuilt,
}
use p2pool_salvium_observer.Daemon.Payouts.Amounts.{paid_for, matched, sum, paid_for-assign_payouts}

-- What a reply is worth to the miners.
abbrev pub worth : List Text → Option (List ℕ) → ℕ
worth miners none = 0
worth miners (some []) = 0
worth miners (some (out ∷ outs)) = sum (matched (sort_outputs (out ∷ outs)) miners)

-- The worth of the replies for the blocks of a height.
abbrev pub owed : (ℕ → ℕ → Option (List ℕ)) → List Text → ℕ → ℕ → List FoundBlock → ℕ
owed reply miners h i [] = 0
owed reply miners h i (fb ∷ blocks) =
    (if fb.height == h then worth miners (reply i fb.height) else 0)
    + owed reply miners h (i + 1) blocks

rebuild_block-paid :
    (reply : Option (List ℕ)) (miners : List Text) (fb : FoundBlock) (r : Rebuilt) (h : ℕ)
    → let r' = rebuild_block reply miners fb r in
      (paid_for h r'.miner_payouts
        ≡ paid_for h r.miner_payouts + (if fb.height == h then worth miners reply else 0))
      × (r'.success_count + r'.error_count ≡ r.success_count + r.error_count + 1)
unfolding rebuild_block
rebuild_block-paid none miners fb r h = (ground arith, omega arith)
rebuild_block-paid (some []) miners fb r h = (ground arith, omega arith)
rebuild_block-paid (some (out ∷ outs)) miners fb r h =
    (paid_for-assign_payouts h fb (sort_outputs (out ∷ outs)) miners r.miner_payouts, omega arith)

rebuild_from :
    (reply : ℕ → ℕ → Option (List ℕ)) (miners : List Text) (h i : ℕ) (blocks : List FoundBlock)
    (r : Rebuilt)
    → let r' = rebuild_blocks reply miners i blocks r in
      (paid_for h r'.miner_payouts ≡ paid_for h r.miner_payouts + owed reply miners h i blocks)
      × (r'.success_count + r'.error_count ≡ r.success_count + r.error_count + length blocks)
unfolding rebuild_blocks
rebuild_from reply miners h i [] r = (omega arith, omega arith)
rebuild_from reply miners h i (fb ∷ blocks) r =
    let (paid, counts) = rebuild_block-paid (reply i fb.height) miners fb r h in
    let (paid', counts') =
      rebuild_from reply miners h (i + 1) blocks (rebuild_block (reply i fb.height) miners fb r) in
    (omega (arith, paid, paid'), omega (arith, counts, counts'))

-- RebuildAllPayouts pays for a height what the replies for each found block of that height are
-- worth to the miners, one after the other, and its two counters add up to the number of found
-- blocks.
pub rebuild_blocks-pays :
    (reply : ℕ → ℕ → Option (List ℕ)) (miners : List Text) (h : ℕ) (blocks : List FoundBlock)
    → let r = rebuild_blocks reply miners 0 blocks nothing_rebuilt in
      (paid_for h r.miner_payouts ≡ owed reply miners h 0 blocks)
      × (r.success_count + r.error_count ≡ length blocks)
rebuild_blocks-pays reply miners h blocks =
    let (paid, counts) = rebuild_from reply miners h 0 blocks nothing_rebuilt in
    (paid ∙ omega arith, counts ∙ omega arith)
