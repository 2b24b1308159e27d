-- ===== src/Daemon/Finder.antt =====
-- `loadFoundBlocks` (cmd/daemon/main.go), up to the check for orphans: the found blocks of the
-- entries, and the miner that found each of them.
pub mod Closest
pub mod Cached
use p2pool_salvium_observer.Prelude.{
  ℕ, ◌^◌, Bool, true, false, Option, none, some, List, [], ◌∷◌, ltb, ◌==◌, if◌then◌else◌,
}
use p2pool_salvium_observer.Word.Int.{ℤ, pos, int_of_u64, sub_int, neg_int, ltb_ℤ}
use p2pool_salvium_observer.Share.{Share, Address}
use p2pool_salvium_observer.Base58.{to_truncated}
use p2pool_salvium_observer.Pplns.{ShareMap}
use p2pool_salvium_observer.Daemon.{Text, FoundBlock, lookup_height, insert_height}
use p2pool_salvium_observer.Daemon.Entries.{parse_entry}

-- `d.blockFinders`
abbrev pub Finders : Type 0
Finders = List (ℕ × Text)

unfoldable pub time_diff : Share → FoundBlock → ℤ
time_diff share fb =
    let diff = sub_int (int_of_u64 share.timestamp) fb.timestamp in
    if ltb_ℤ diff (pos 0) then neg_int diff else diff

-- The body of the loop over the shares, on `bestMatch` and `bestTimeDiff`.
unfoldable pub closer : FoundBlock → Share → Option Share × ℤ → Option Share × ℤ
closer fb share (best, diff) =
    if share.mainchain_height == fb.height
    then (if ltb_ℤ (time_diff share fb) diff
        then (some share, time_diff share fb)
        else (best, diff))
    else (best, diff)

unfoldable pub closest : FoundBlock → ShareMap → Option Share × ℤ → Option Share × ℤ
closest fb [] best = best
closest fb ((id, share) ∷ shares) best = closest fb shares (closer fb share best)

unfoldable pub best_match : ShareMap → FoundBlock → Option Share
best_match shares fb = (closest fb shares (none, pos (2 ^ 62))).0

module _ (keccak256 : List ℕ → List ℕ) (shares : ShareMap) where
  -- The finder of a block, from the cache or else from the shares.
  unfoldable pub look_up_finder : FoundBlock → Finders → FoundBlock × Finders
  look_up_finder fb finders = elim (lookup_height fb.height finders) [
    | some finder ↦ (record fb { finder = finder }, finders)
    | none ↦ elim (best_match shares fb) [
      | none ↦ (fb, finders)
      | some share ↦
          (let finder = to_truncated keccak256 share.miner_wallet in
            (record fb { finder = finder }, insert_height fb.height finder finders))
    ]
  ]

  -- The loop over the entries; an entry that does not parse is skipped.
  unfoldable pub load_entries : List Text → Finders → List FoundBlock × Finders
  load_entries [] finders = ([], finders)
  load_entries (entry ∷ entries) finders = elim (parse_entry entry) [
    | none ↦ load_entries entries finders
    | some fb ↦
        (let (fb', finders') = look_up_finder fb finders in
          let (blocks, finders'') = load_entries entries finders' in (fb' ∷ blocks, finders''))
  ]
