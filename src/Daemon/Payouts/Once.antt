-- ===== src/Daemon/Payouts/Once.antt =====
-- The payouts of a height after the loop of `calculatePayouts` (cmd/daemon/main.go), by miners.
use mathlib.Core.List.{append-nil}
use p2pool_salvium_observer.Prelude.{
  ℕ, ◌+◌, ◌≡◌, ◌⊎◌, inl, inr, refl, sym, ap, ◌∙◌, true, false, Option, some, List, [], ◌∷◌, ◌++◌,
  arith, ◌==◌, Bool-cases, ==_iff,
}
use p2pool_salvium_observer.Daemon.{
  Text, FoundBlock, lookup_height, lookup-insert_same, lookup-insert_other, is_set,
}
use p2pool_salvium_observer.Daemon.Payouts.{sort_outputs, Pass, process_block, process_blocks}
use p2pool_salvium_observer.Daemon.Payouts.ByMiner.{
  is_processed, amounts_at, amounts_to, miners_for, amounts_at-assign_payouts,
}
use p2pool_salvium_observer.Daemon.Payouts.Rounds.{IsIdle, Pays, process_block-cases}

-- Nobody has been paid for a height that is not marked as processed.
abbrev pub IsConsistent : Pass → Type 0
IsConsistent p =
    (h : ℕ) → is_processed h p ≡ false → (addr : Text) → amounts_at h addr p.miner_payouts ≡ []

abbrev pub IsUntouched : ℕ → Pass → Pass → Type 0
IsUntouched h p q =
    (is_processed h q ≡ is_processed h p)
    × ((addr : Text) → amounts_at h addr q.miner_payouts ≡ amounts_at h addr p.miner_payouts)

-- What the loop does for a height: nothing, or one block is paid for, from one reply about that
-- height, and the height is marked.
pub record IsPaidOnce (current : List Text) (reply : ℕ → ℕ → Option (List ℕ)) (h : ℕ) (p q : Pass)
    : Type 0 where
  pub was_new : is_processed h p ≡ false
  pub marked : is_processed h q ≡ true
  pub round : ℕ
  pub out : ℕ
  pub outs : List ℕ
  pub replied : reply round h ≡ some (out ∷ outs)
  pub paid :
      (addr : Text)
      → amounts_at h addr q.miner_payouts
        ≡ amounts_at h addr p.miner_payouts
          ++ amounts_to addr (sort_outputs (out ∷ outs)) (miners_for current h p)

abbrev Fate : List Text → (ℕ → ℕ → Option (List ℕ)) → ℕ → Pass → Pass → Type 0
Fate current reply h p q =
    (miners_for current h q ≡ miners_for current h p)
    × (IsUntouched h p q ⊎ IsPaidOnce current reply h p q)

-- A round for a height: it changes nothing there, or it is the one that pays for it.
module _ (current : List Text) (reply : ℕ → ℕ → Option (List ℕ)) (i : ℕ) (fb : FoundBlock)
    (p q : Pass) (h : ℕ) where
  Pays-other :
      Pays current (reply i fb.height) fb p q → (fb.height == h) ≡ false → IsUntouched h p q
  Pays-other pays other = (
    ap (λ m. is_set (lookup_height h m)) pays.marked
        ∙ ap is_set (lookup-insert_other fb.height h true p.processed other),
    λ addr.
        ap (amounts_at h addr) pays.payouts
        ∙ amounts_at-assign_payouts h addr fb (sort_outputs (pays.out ∷ pays.outs))
            (miners_for current fb.height p) p.miner_payouts
        ∙ rw other (append-nil _),
  )

  Pays-same :
      Pays current (reply i fb.height) fb p q
      → (fb.height == h) ≡ true
      → IsPaidOnce current reply h p q
  Pays-same pays same =
      let e : fb.height ≡ h = (==_iff _ _).0 same in
      record {
        was_new = rw e at pays.was_new;
        marked =
            ap (λ m. is_set (lookup_height h m)) pays.marked
            ∙ ap is_set (lookup-insert_same fb.height h true p.processed same);
        round = i;
        out = pays.out;
        outs = pays.outs;
        replied = ap (reply i) (sym e) ∙ pays.replied;
        paid = λ addr.
            ap (amounts_at h addr) pays.payouts
            ∙ amounts_at-assign_payouts h addr fb (sort_outputs (pays.out ∷ pays.outs))
                (miners_for current fb.height p) p.miner_payouts
            ∙ rw same (
                ap
                  (λ k.
                    amounts_at h addr p.miner_payouts
                    ++ amounts_to addr (sort_outputs (pays.out ∷ pays.outs))
                        (miners_for current k p))
                  e);
      }

  round-cases :
      IsIdle current p q ⊎ Pays current (reply i fb.height) fb p q → Fate current reply h p q
  round-cases (inl (paid, heights, miners)) = (
    miners h,
    inl (ap (λ m. is_set (lookup_height h m)) heights, λ addr. ap (amounts_at h addr) paid),
  )
  round-cases (inr pays) = (
    pays.same_miners h,
    elim (Bool-cases (fb.height == h)) [
      | inr other ↦ inl (Pays-other pays other)
      | inl same ↦ inr (Pays-same pays same)
    ],
  )

module _ (current : List Text) (reply : ℕ → ℕ → Option (List ℕ)) (h : ℕ) where
  once-then :
      (p q r : Pass)
      → miners_for current h q ≡ miners_for current h p
      → IsUntouched h p q ⊎ IsPaidOnce current reply h p q
      → IsUntouched h q r ⊎ IsPaidOnce current reply h q r
      → IsUntouched h p r ⊎ IsPaidOnce current reply h p r
  once-then p q r same (inl (marks, paid)) (inl (marks', paid')) =
      inl (marks' ∙ marks, λ addr. paid' addr ∙ paid addr)
  once-then p q r same (inl (marks, paid)) (inr once) = inr (record {
    was_new = sym marks ∙ once.was_new;
    marked = once.marked;
    round = once.round;
    out = once.out;
    outs = once.outs;
    replied = once.replied;
    paid = λ addr.
        once.paid addr
        ∙ ap
            (λ l.
              l ++ amounts_to addr (sort_outputs (once.out ∷ once.outs)) (miners_for current h q))
            (paid addr)
        ∙ ap
            (λ miners.
              amounts_at h addr p.miner_payouts
              ++ amounts_to addr (sort_outputs (once.out ∷ once.outs)) miners)
            same;
  })
  once-then p q r same (inr once) (inl (marks, paid)) = inr (record {
    was_new = once.was_new;
    marked = marks ∙ once.marked;
    round = once.round;
    out = once.out;
    outs = once.outs;
    replied = once.replied;
    paid = λ addr. paid addr ∙ once.paid addr;
  })
  once-then p q r same (inr once) (inr again) =
      let clash : true ≡ false = sym once.marked ∙ again.was_new in ground arith

module _ (reply : ℕ → ℕ → Option (List ℕ)) (current : List Text) where
  blocks-Fate :
      (i : ℕ) (blocks : List FoundBlock) (p : Pass) (h : ℕ)
      → Fate current reply h p (process_blocks reply current i blocks p).1
  unfolding process_blocks
  blocks-Fate i [] p h = (refl, inl (refl, λ addr. refl))
  blocks-Fate i (fb ∷ blocks) p h =
      let q = (process_block (reply i fb.height) current fb p).1 in
      let (same, first) =
        round-cases current reply i fb p q h
          (process_block-cases (reply i fb.height) current fb p) in
      let (same', later) = blocks-Fate (i + 1) blocks q h in
      (same' ∙ same, once-then current reply h p q _ same first later)

-- A height that is marked and paid for by one reply: its outputs from the greatest down, each to the
-- miner at its position, and nothing else.
pub record IsSettled (current : List Text) (reply : ℕ → ℕ → Option (List ℕ)) (h : ℕ) (p q : Pass)
    : Type 0 where
  pub round : ℕ
  pub out : ℕ
  pub outs : List ℕ
  pub replied : reply round h ≡ some (out ∷ outs)
  pub marked : is_processed h q ≡ true
  pub paid :
      (addr : Text)
      → amounts_at h addr q.miner_payouts
        ≡ amounts_to addr (sort_outputs (out ∷ outs)) (miners_for current h p)

once-IsSettled :
    (current : List Text) (reply : ℕ → ℕ → Option (List ℕ)) (h : ℕ) (p q : Pass)
    → IsConsistent p
    → IsUntouched h p q ⊎ IsPaidOnce current reply h p q
    → IsUntouched h p q ⊎ ((is_processed h p ≡ false) × IsSettled current reply h p q)
once-IsSettled current reply h p q c (inl same) = inl same
once-IsSettled current reply h p q c (inr once) = inr (
  once.was_new,
  record {
    round = once.round;
    out = once.out;
    outs = once.outs;
    replied = once.replied;
    marked = once.marked;
    paid = λ addr.
        once.paid addr
        ∙ ap
            (λ l.
              l ++ amounts_to addr (sort_outputs (once.out ∷ once.outs)) (miners_for current h p))
            (c h once.was_new addr);
  },
)

-- Where nobody has a payout for an unprocessed height, a pass over any found blocks, for any
-- replies of the node, leaves the mark of a height and the amounts that each miner has for it as
-- they were, or the height was unprocessed, is marked, and each miner has for it the outputs of one
-- reply about it at the positions of the miner, where the outputs go from the greatest down and the
-- miners are those of the snapshot of the height, or the current ones without a snapshot.
pub process_blocks-IsSettled :
    (reply : ℕ → ℕ → Option (List ℕ)) (current : List Text) (i : ℕ) (blocks : List FoundBlock)
    (p : Pass) (h : ℕ)
    → IsConsistent p
    → let q = (process_blocks reply current i blocks p).1 in
      IsUntouched h p q ⊎ ((is_processed h p ≡ false) × IsSettled current reply h p q)
process_blocks-IsSettled reply current i blocks p h c =
    once-IsSettled current reply h p _ c (blocks-Fate reply current i blocks p h).1

-- Where nobody has a payout for an unprocessed height, this is so again after the loop.
process_blocks-IsConsistent :
    (reply : ℕ → ℕ → Option (List ℕ)) (current : List Text) (i : ℕ) (blocks : List FoundBlock)
    (p : Pass)
    → IsConsistent p
    → IsConsistent (process_blocks reply current i blocks p).1
process_blocks-IsConsistent reply current i blocks p c h unset addr =
    elim (blocks-Fate reply current i blocks p h).1 [
      | inl (marks, paid) ↦ paid addr ∙ c h (sym marks ∙ unset) addr
      | inr once ↦ (let clash : true ≡ false = sym once.marked ∙ unset in absurd (ground arith))
    ]
