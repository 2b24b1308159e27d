-- ===== src/Daemon/Shares/Window.antt =====
-- The rows of `storeShares` are those of the tip and its ancestors.
use mathlib.Core.List.{append_assoc, append-nil}
use p2pool_salvium_observer.Prelude.{
  ℕ, zero, suc, ◌+◌, ◌≤◌, ◌≡◌, refl, ap, ◌∙◌, sym, List, [], ◌∷◌, ◌++◌, map, ltb, if◌then◌else◌,
  arith, length, length-append, take, take-length-append, Bool-cases, Option-cases, inl, inr,
  ltb→lt, ltb_false→le,
}
use p2pool_salvium_observer.Share.{Hash, Share, bytes_eq}
use p2pool_salvium_observer.Share.Keys.{lookup_hash, lookup-insert_hash, bytes_eq_sound}
use p2pool_salvium_observer.Base58.{to_base58}
use p2pool_salvium_observer.Cache.{next_share}
use p2pool_salvium_observer.Cache.Steps.{ancestors}
use p2pool_salvium_observer.Pplns.{ShareMap, pplns_window}
use p2pool_salvium_observer.Daemon.{Text}
use p2pool_salvium_observer.Daemon.Shares.{
  ShareData, Rows, or_empty, share_data, store_share, store_from, store_shares, no_rows,
}

module _ {A : Type 0} where
  take-all : (n : ℕ) (xs : List A) → length xs ≤ n → take n xs ≡ xs
  take-all zero [] h = refl
  take-all (suc n) [] h = refl
  take-all zero (x ∷ xs) h = absurd (omega (arith, h))
  take-all (suc n) (x ∷ xs) h = ap (λ l. x ∷ l) (take-all n xs (omega (arith, h)))

  take-full : (n : ℕ) (xs ys : List A) → n ≡ length xs → take n (xs ++ ys) ≡ xs
  take-full n xs ys h = rw h (take-length-append xs ys)

-- The list of the recent rows with another row.
abbrev push : List ShareData → ShareData → List ShareData
push acc row = if ltb (length acc) 100 then acc ++ (row ∷ []) else acc

push_lem :
    (acc : List ShareData) (row : ShareData) (rows : List ShareData)
    → length acc ≤ 100
    → (length (push acc row) ≤ 100)
      × (take 100 (push acc row ++ rows) ≡ take 100 (acc ++ (row ∷ rows)))
push_lem acc row rows h = elim (Bool-cases (ltb (length acc) 100)) [
  | inl room ↦ rw room (
    omega (arith, length-append acc (row ∷ []), ltb→lt _ _ room),
    ap (take 100) (append_assoc acc (row ∷ []) rows),
  )
  | inr full ↦
      let whole : 100 ≡ length acc = omega (arith, h, ltb_false→le _ _ full) in
      rw full (h, take-full 100 acc rows whole ∙ sym (take-full 100 acc (row ∷ rows) whole))
]

module _ (keccak256 : List ℕ → List ℕ) where
  -- The shares one after the other.
  abbrev store_all : List Share → Rows → Rows
  store_all [] r = r
  store_all (s ∷ ss) r = store_all ss (store_share keccak256 s r)

  store_from_lem :
      (shares : ShareMap) (left : ℕ) (current : Share) (r : Rows)
      → store_from keccak256 shares left current r ≡ store_all (ancestors left shares current) r
  unfolding store_from
  store_from_lem shares zero current r = refl
  store_from_lem shares (suc left) current r = elim (Option-cases (next_share shares current)) [
    | inl last ↦ rw (store_from, last) refl
    | inr (parent, on) ↦
        rw (store_from, on) (store_from_lem shares left parent (store_share keccak256 current r))
  ]

  recent_lem :
      (ss : List Share) (r : Rows)
      → length r.recent ≤ 100
      → (store_all ss r).recent ≡ take 100 (r.recent ++ map (share_data keccak256) ss)
  unfolding store_share
  recent_lem [] r h =
      sym (take-all 100 (r.recent ++ []) (rw (append-nil r.recent) h) ∙ append-nil r.recent)
  recent_lem (s ∷ ss) r h =
      let (fits, same) =
        push_lem r.recent (share_data keccak256 s) (map (share_data keccak256) ss) h in
      recent_lem ss (store_share keccak256 s r) fits ∙ same

  count_lem : (ss : List Share) (r : Rows) → (store_all ss r).count ≡ r.count + length ss
  unfolding store_share
  count_lem [] r = omega arith
  count_lem (s ∷ ss) r = count_lem ss (store_share keccak256 s r) ∙ omega arith

  -- The ids of a miner's shares, in their order.
  abbrev pub ids_of : Text → List Share → List Hash
  ids_of addr [] = []
  ids_of addr (s ∷ ss) =
      let rest = ids_of addr ss in
      if bytes_eq (to_base58 keccak256 s.miner_wallet) addr then s.sidechain_id ∷ rest else rest

  by_miner_step :
      (addr : Text) (s : Share) (r : Rows)
      → or_empty (lookup_hash addr (store_share keccak256 s r).by_miner)
        ≡ or_empty (lookup_hash addr r.by_miner) ++ ids_of addr (s ∷ [])
  unfolding store_share share_data
  by_miner_step addr s r =
      let row = to_base58 keccak256 s.miner_wallet in
      elim (Bool-cases (bytes_eq row addr)) [
        | inl same ↦
            rw
              (
                lookup-insert_hash row addr
                    (or_empty (lookup_hash row r.by_miner) ++ (s.sidechain_id ∷ [])) r.by_miner,
                same,
                bytes_eq_sound row addr same,
              )
              refl
        | inr other ↦
            rw
              (
                lookup-insert_hash row addr
                    (or_empty (lookup_hash row r.by_miner) ++ (s.sidechain_id ∷ [])) r.by_miner,
                other,
              )
              (sym (append-nil (or_empty (lookup_hash addr r.by_miner))))
      ]

  ids_of-cons :
      (addr : Text) (s : Share) (ss : List Share)
      → ids_of addr (s ∷ []) ++ ids_of addr ss ≡ ids_of addr (s ∷ ss)
  ids_of-cons addr s ss = elim (Bool-cases (bytes_eq (to_base58 keccak256 s.miner_wallet) addr)) [
    | inl same ↦ rw same refl
    | inr other ↦ rw other refl
  ]

  by_miner_lem :
      (addr : Text) (ss : List Share) (r : Rows)
      → or_empty (lookup_hash addr (store_all ss r).by_miner)
        ≡ or_empty (lookup_hash addr r.by_miner) ++ ids_of addr ss
  unfolding store_share
  by_miner_lem addr [] r = sym (append-nil (or_empty (lookup_hash addr r.by_miner)))
  by_miner_lem addr (s ∷ ss) r =
      by_miner_lem addr ss (store_share keccak256 s r)
      ∙ ap (λ l. l ++ ids_of addr ss) (by_miner_step addr s r)
      ∙ append_assoc (or_empty (lookup_hash addr r.by_miner)) (ids_of addr (s ∷ []))
          (ids_of addr ss)
      ∙ ap (λ l. or_empty (lookup_hash addr r.by_miner) ++ l) (ids_of-cons addr s ss)

  -- The rows of storeShares are those of the tip and its ancestors in the map, 2160 at most: the
  -- recent ones are the first hundred, the count is their number, and a miner's list has the ids of
  -- its shares, the newest first.
  pub store_shares_lem :
      (shares : ShareMap) (tip : Share)
      → let window = ancestors pplns_window shares tip in
        let rows = (store_shares keccak256 shares tip).0 in
        (rows.recent ≡ take 100 (map (share_data keccak256) window))
        × (rows.count ≡ length window)
        × ((addr : Text) → or_empty (lookup_hash addr rows.by_miner) ≡ ids_of addr window)
  unfolding store_shares
  store_shares_lem shares tip =
      let window = ancestors pplns_window shares tip in
      rw (store_from_lem shares pplns_window tip no_rows) (
        recent_lem window no_rows (omega arith),
        count_lem window no_rows ∙ omega arith,
        λ addr. by_miner_lem addr window no_rows,
      )
