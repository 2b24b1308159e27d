-- ===== src/Pplns/Buckets.antt =====
-- The position buckets of p2pool/pplns.go (`finalizeBuckets`, `SharePositionString`): every position
-- falls in one of the 30 buckets, and none is lost.
use p2pool_salvium_observer.Prelude.{
  ℕ, zero, suc, ◌+◌, ◌-◌, ◌*◌, ◌/◌, ◌≤◌, ◌<◌, ◌≡◌, refl, ap, ◌∙◌, false, List, [], ◌∷◌, arith, map,
  length, length-map, length-append, leb, ltb, leb_false→lt, lt→ltb, if◌then◌else◌, replicate,
  Bool-cases, inl, inr,
}
use p2pool_salvium_observer.Sorting.Order.{sum_by}
use p2pool_salvium_observer.Pplns.{
  MinerWeight, bucket_of, increment, fill_buckets, finalize_miner, position_string, position_char,
  share_position_string, uncle_position_string,
}
use native.Mathlib.Nat.{mul-div_cancel_left, div-eq_of_lt, mul-le-mul, div-le_of_le-mul}

abbrev pub total : List ℕ → ℕ
total = sum_by (λ n. n)

-- The index is always inside the array of 30 buckets.
pub bucket_of-lt : (size depth : ℕ) → bucket_of size depth < 30
unfolding bucket_of
bucket_of-lt size depth =
    elim (Bool-cases (leb 30 (if ltb 1 size then depth * 29 / (size - 1) else 0))) [
      | inl over ↦ rw over (omega arith)
      | inr inside ↦ rw inside (leb_false→lt _ _ inside)
    ]

increment-total :
    (bs : List ℕ) (i : ℕ)
    → i < length bs
    → (total (increment bs i) ≡ total bs + 1) × (length (increment bs i) ≡ length bs)
unfolding increment
increment-total [] i lt = absurd (omega (arith, lt))
increment-total (b ∷ bs) zero lt = (omega arith, refl)
increment-total (b ∷ bs) (suc i) lt =
    let (t, l) = increment-total bs i (omega (arith, lt)) in (omega (arith, t), ap suc l)

fill_buckets-total :
    (size : ℕ) (bs ds : List ℕ)
    → length bs ≡ 30
    → (total (fill_buckets size bs ds) ≡ total bs + length ds)
      × (length (fill_buckets size bs ds) ≡ 30)
unfolding fill_buckets
fill_buckets-total size bs [] l = (omega arith, l)
fill_buckets-total size bs (d ∷ ds) l =
    let (t, l') = increment-total bs (bucket_of size d) (omega (arith, l, bucket_of-lt size d)) in
    let (s, l30) = fill_buckets-total size (increment bs (bucket_of size d)) ds (l' ∙ l) in
    (omega (arith, s, t), l30)

-- The 30 buckets of a finished miner hold as many shares and uncles as there are positions.
pub finalize_miner-total :
    (size : ℕ) (mw : MinerWeight)
    → let m = finalize_miner size mw in
      (total m.share_buckets ≡ length mw.share_positions)
      × (total m.uncle_buckets ≡ length mw.uncle_positions)
      × (length m.share_buckets ≡ 30)
      × (length m.uncle_buckets ≡ 30)
unfolding finalize_miner
finalize_miner-total size mw =
    let (s, ls) = fill_buckets-total size (replicate 30 0) mw.share_positions refl in
    let (u, lu) = fill_buckets-total size (replicate 30 0) mw.uncle_positions refl in
    (omega (arith, s), omega (arith, u), ls, lu)

below : (n x : ℕ) → x < n → leb n x ≡ false
below n x h = ground arith

unclamped :
    (size depth : ℕ) → 1 < size → depth ≤ size - 1 → bucket_of size depth ≡ depth * 29 / (size - 1)
unfolding bucket_of
unclamped size depth big inside =
    let q : depth * 29 / (size - 1) ≤ 29 =
      div-le_of_le-mul (size - 1)
        (mul-le-mul {n₁ = depth} {m₁ = 29} {n₂ = size - 1} {m₂ = 29} inside (omega arith)) in
    let fits : leb 30 (depth * 29 / (size - 1)) ≡ false = below 30 _ (omega (arith, q)) in
    rw (lt→ltb 1 size big, fits) refl

-- In a window of at least two, a depth inside it is scaled to the buckets with no clamping, the tip
-- to the first and the oldest share to the last.
pub bucket_of-scaled :
    (size depth : ℕ)
    → 1 < size
    → depth < size
    → (bucket_of size depth ≡ depth * 29 / (size - 1))
      × (bucket_of size 0 ≡ 0)
      × (bucket_of size (size - 1) ≡ 29)
bucket_of-scaled size depth big inside = (
  unclamped size depth big (omega (arith, inside)),
  unclamped size 0 big (omega arith) ∙ div-eq_of_lt (omega (arith, big)),
  unclamped size (size - 1) big (omega arith) ∙ mul-div_cancel_left 29 (omega (arith, big)),
)

length-position_string : (bs : List ℕ) → length (position_string bs) ≡ length bs + 2
unfolding position_string
length-position_string bs =
    ap suc (
      length-append (map position_char bs) (b']' ∷ [])
      ∙ ap (λ n. n + 1) (length-map position_char bs))
    ∙ omega arith

-- The position strings of a finished miner have 30 characters between their brackets.
pub length-share_position_string :
    (size : ℕ) (mw : MinerWeight)
    → (length (share_position_string (finalize_miner size mw)) ≡ 32)
      × (length (uncle_position_string (finalize_miner size mw)) ≡ 32)
unfolding share_position_string uncle_position_string
length-share_position_string size mw =
    let (s, u, ls, lu) = finalize_miner-total size mw in
    (
      length-position_string (finalize_miner size mw).share_buckets ∙ ap (λ n. n + 2) ls,
      length-position_string (finalize_miner size mw).uncle_buckets ∙ ap (λ n. n + 2) lu,
    )
