-- ===== src/Daemon/Orphans.antt =====
-- `removeOrphanedBlocks` (cmd/daemon/main.go): the found blocks that are still in the main chain.
-- The main chain is taken not to change during the loop.
use p2pool_salvium_observer.Prelude.{
  ℕ, ◌≤◌, ◌≡◌, refl, ap, Bool, true, false, not, ◌||◌, Option, none, some, List, [], ◌∷◌, ltb,
  if◌then◌else◌, All, length, Bool-cases, Option-cases, inl, inr, le→ltb_false, map,
}
use p2pool_salvium_observer.Outcome.{Result, ok, panic, ◌>>=◌}
use p2pool_salvium_observer.Share.{bytes_eq}
use p2pool_salvium_observer.Daemon.{Text, FoundBlock}
use p2pool_salvium_observer.Daemon.Entries.{print_entry}

-- The blocks that are kept and those that are orphaned, in order.
abbrev pub Sorted : Type 0
Sorted = List FoundBlock × List FoundBlock

abbrev pub keep : FoundBlock → Sorted → Sorted
keep fb (valid, orphans) = (fb ∷ valid, orphans)

abbrev pub drop_block : FoundBlock → Sorted → Sorted
drop_block fb (valid, orphans) = (valid, fb ∷ orphans)

-- The log line slices both hashes to 16 bytes.
abbrev pub log_orphan : Text → Text → Result (Unit {0})
log_orphan hash mainchain_hash =
    if ltb (length hash) 16 || ltb (length mainchain_hash) 16 then panic else ok tt

-- `mainchain_hash h` is the hash in the header that the node replies with about height `h`.
module _ (mainchain_hash : ℕ → Option Text) where
  unfoldable pub check_blocks : List FoundBlock → Result Sorted
  check_blocks [] = ok ([], [])
  check_blocks (fb ∷ blocks) = elim (mainchain_hash fb.height) [
    | none ↦ check_blocks blocks >>= λ rest. ok (keep fb rest)
    | some h ↦
        if bytes_eq h fb.hash
        then (check_blocks blocks >>= λ rest. ok (keep fb rest))
        else log_orphan fb.hash h >>= λ _. check_blocks blocks >>= λ rest. ok (drop_block fb rest)
  ]

  -- What a block is found to be.
  abbrev pub is_orphan : FoundBlock → Bool
  is_orphan fb = elim (mainchain_hash fb.height) [
    | none ↦ false
    | some h ↦ not (bytes_eq h fb.hash)
  ]

  abbrev pub orphans_of : List FoundBlock → List FoundBlock
  orphans_of [] = []
  orphans_of (fb ∷ blocks) = if is_orphan fb then fb ∷ orphans_of blocks else orphans_of blocks

  abbrev pub survivors_of : List FoundBlock → List FoundBlock
  survivors_of [] = []
  survivors_of (fb ∷ blocks) =
      if is_orphan fb then survivors_of blocks else fb ∷ survivors_of blocks

  -- The hashes of a block and of the header at its height have 16 bytes at least.
  abbrev pub IsLong : FoundBlock → Type 0
  IsLong fb =
      (16 ≤ length fb.hash)
      × elim (mainchain_hash fb.height) [ none ↦ Unit {0} | some h ↦ 16 ≤ length h ]

  -- With hashes of 16 bytes at least the loop does not panic, drops exactly the blocks for which the
  -- node replies with another hash, and keeps the others, all in their order.
  pub check_blocks_lem :
      (blocks : List FoundBlock)
      → All IsLong blocks
      → check_blocks blocks ≡ ok (survivors_of blocks, orphans_of blocks)
  unfolding check_blocks
  check_blocks_lem [] long = refl
  check_blocks_lem (fb ∷ blocks) ((long, reply_long), rest) =
      elim (Option-cases (mainchain_hash fb.height)) [
        | inl unknown ↦
            let valid : is_orphan fb ≡ false = rw (is_orphan, unknown) refl in
            rw (check_blocks, unknown, valid, check_blocks_lem blocks rest) refl
        | inr (h, replied) ↦ elim (Bool-cases (bytes_eq h fb.hash)) [
          | inl same ↦
              let valid : is_orphan fb ≡ false = rw (is_orphan, replied, same) refl in
              rw (check_blocks, replied, same, valid, check_blocks_lem blocks rest) refl
          | inr other ↦
              let orphan : is_orphan fb ≡ true = rw (is_orphan, replied, other) refl in
              let short : ltb (length fb.hash) 16 ≡ false = le→ltb_false _ _ long in
              let reply_short : ltb (length h) 16 ≡ false =
                le→ltb_false _ _ (rw replied at reply_long) in
              rw
                (
                  check_blocks,
                  replied,
                  other,
                  orphan,
                  short,
                  reply_short,
                  check_blocks_lem blocks rest,
                )
                refl
        ]
      ]

-- The blocks that the daemon goes on with: the old list when nothing is orphaned.
abbrev kept : List FoundBlock → Sorted → List FoundBlock
kept blocks (valid, []) = blocks
kept blocks (valid, fb ∷ orphans) = valid

-- The blocks that the daemon goes on with, and the entries that it asks Redis to remove.
unfoldable pub remove_orphaned_blocks :
    (ℕ → Option Text) → List FoundBlock → Result (List FoundBlock × List Text)
remove_orphaned_blocks mainchain_hash [] = ok ([], [])
remove_orphaned_blocks mainchain_hash (fb ∷ blocks) =
    check_blocks mainchain_hash (fb ∷ blocks) >>= λ r.
    ok (kept (fb ∷ blocks) r, map print_entry r.1)

kept-keep :
    (fb : FoundBlock) (blocks valid orphans : List FoundBlock)
    → kept blocks (valid, orphans) ≡ valid
    → kept (fb ∷ blocks) (fb ∷ valid, orphans) ≡ fb ∷ valid
kept-keep fb blocks valid [] h = ap (λ l. fb ∷ l) h
kept-keep fb blocks valid (o ∷ orphans) h = refl

kept_lem :
    (mainchain_hash : ℕ → Option Text) (blocks : List FoundBlock)
    → kept blocks (survivors_of mainchain_hash blocks, orphans_of mainchain_hash blocks)
      ≡ survivors_of mainchain_hash blocks
kept_lem mainchain_hash [] = refl
kept_lem mainchain_hash (fb ∷ blocks) = elim (Bool-cases (is_orphan mainchain_hash fb)) [
  | inl orphan ↦ rw orphan refl
  | inr valid ↦ rw valid (kept-keep fb blocks _ _ (kept_lem mainchain_hash blocks))
]

-- Where each found block's hash and the one that the node knows at its height have 16 bytes at
-- least, removeOrphanedBlocks keeps the blocks for which the node gives the same hash or none, in
-- their order, and asks Redis to remove the printed entries of the others.
pub remove_orphaned_blocks_lem :
    (mainchain_hash : ℕ → Option Text) (blocks : List FoundBlock)
    → All (IsLong mainchain_hash) blocks
    → remove_orphaned_blocks mainchain_hash blocks
      ≡ ok (survivors_of mainchain_hash blocks, map print_entry (orphans_of mainchain_hash blocks))
unfolding remove_orphaned_blocks
remove_orphaned_blocks_lem mainchain_hash [] long = refl
remove_orphaned_blocks_lem mainchain_hash (fb ∷ blocks) long =
    rw (check_blocks_lem mainchain_hash (fb ∷ blocks) long) (
      ap (λ b. ok (b, map print_entry (orphans_of mainchain_hash (fb ∷ blocks))))
        (kept_lem mainchain_hash (fb ∷ blocks)))
