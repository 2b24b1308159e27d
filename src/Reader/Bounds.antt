-- ===== src/Reader/Bounds.antt =====
-- `ReadVarint` (p2pool/types.go) on any data, well formed or not.
use Prim.Native.Nat.{bit_and}
use p2pool_salvium_observer.Prelude.{
  ℕ, zero, suc, ◌+◌, ◌*◌, ◌≤◌, ◌<◌, ◌≡◌, refl, List, [], ◌∷◌, arith, some, ltb, ◌==◌, length,
  get_elem?, inl, inr, Bool-cases, ltb_false→le,
}
use p2pool_salvium_observer.Word.Int.{ℤ, pos, negsuc, add_int-pos}
use p2pool_salvium_observer.Outcome.{Result, Error, ok, err, panic, out_of_fuel}
use p2pool_salvium_observer.Reader.{index, varint_loop, read_varint, at_end}
use p2pool_salvium_observer.Reader.Runs.{FitsMemory, at_end-false}

-- An error of the code: the fuel of the model is none.
abbrev pub IsGoError : Error → Type 0
IsGoError out_of_fuel = ⊥
IsGoError _ = Unit {0}

-- What a reader that starts at `n` and takes between `lo` and `hi` bytes may return: a value and a
-- position inside the data, or an error of the code; never a panic.
abbrev pub Within : {A : Type 0} → List ℕ → ℕ → ℕ → ℕ → Result (A × ℤ) → Type 0
Within bytes n lo hi (ok (v, pos k)) = (n + lo ≤ k) × (k ≤ n + hi) × (k ≤ length bytes)
Within bytes n lo hi (ok (v, negsuc k)) = ⊥
Within bytes n lo hi (err e) = IsGoError e
Within bytes n lo hi panic = ⊥

Within-shift :
    {A : Type 0} (bytes : List ℕ) (n k : ℕ) (m : Result (A × ℤ))
    → Within bytes (n + 1) 0 k m
    → Within bytes n 1 (suc k) m
Within-shift bytes n k (ok (v, pos m)) h = omega arith
Within-shift bytes n k (ok (v, negsuc m)) h = h
Within-shift bytes n k (err e) h = h
Within-shift bytes n k panic h = h

Within-weaken :
    {A : Type 0} (bytes : List ℕ) (n k : ℕ) (m : Result (A × ℤ))
    → Within bytes n 1 k m
    → Within bytes n 0 k m
Within-weaken bytes n k (ok (v, pos m)) h = omega arith
Within-weaken bytes n k (ok (v, negsuc m)) h = h
Within-weaken bytes n k (err e) h = h
Within-weaken bytes n k panic h = h

get_elem?_lt : (bytes : List ℕ) (n : ℕ) → n < length bytes → (x : ℕ) × (get_elem? bytes n ≡ some x)
get_elem?_lt [] n h = absurd (omega arith)
get_elem?_lt (b ∷ bs) zero h = (b, refl)
get_elem?_lt (b ∷ bs) (suc n) h = get_elem?_lt bs n (omega arith)

-- One round of the loop on the byte `x`; `later` is what the rounds after it satisfy.
varint_round-Within :
    (k n acc shift x : ℕ) (bytes : List ℕ)
    → FitsMemory bytes
    → n < length bytes
    → get_elem? bytes n ≡ some x
    → ((acc' : ℕ)
        → shift + 7 ≤ 63
        → Within bytes (n + 1) 0 k (varint_loop k bytes (pos (n + 1)) acc' (shift + 7)))
    → Within bytes n 1 (suc k) (varint_loop (suc k) bytes (pos n) acc shift)
unfolding varint_loop index
varint_round-Within k n acc shift x bytes fits lt e later =
    rw (at_end-false bytes n lt, e, add_int-pos n 1 (omega arith))
      (elim (Bool-cases (bit_and x 0x80 == 0)) [
        | inl stop ↦ rw stop (omega arith)
        | inr more ↦ rw more (elim (Bool-cases (ltb 63 (shift + 7))) [
          | inl over ↦ rw over tt
          | inr on ↦ rw on (Within-shift bytes n k _ (later _ (ltb_false→le _ _ on)))
        ])
      ])

-- The rounds that are left are enough for the bits that are left.
varint_loop-Within :
    (k n acc shift : ℕ) (bytes : List ℕ)
    → FitsMemory bytes
    → n ≤ length bytes
    → shift ≤ 63
    → 70 ≤ shift + 7 * k
    → Within bytes n 0 k (varint_loop k bytes (pos n) acc shift)
varint_loop-Within zero n acc shift bytes fits le low rounds = absurd (omega arith)
varint_loop-Within (suc k) n acc shift bytes fits le low rounds =
    elim (Bool-cases (at_end bytes (pos n))) [
      | inl done ↦ unfold varint_loop in (rw done tt)
      | inr inside ↦
          let lt : n < length bytes = ground arith in
          let (x, e) = get_elem?_lt bytes n lt in
          Within-weaken bytes n (suc k) _ (
            varint_round-Within k n acc shift x bytes fits lt e (λ acc' low'.
              varint_loop-Within k (n + 1) acc' (shift + 7) bytes fits (omega arith) low'
                (omega arith)))
    ]

-- ReadVarint at a position in data that fit an address space takes one to ten bytes of them or
-- fails with one of its errors, the overflow one included, and never panics; the fuel of the loop
-- never runs out.
pub read_varint-Within :
    (n : ℕ) (bytes : List ℕ)
    → FitsMemory bytes
    → n ≤ length bytes
    → Within bytes n 1 10 (read_varint bytes (pos n))
unfolding read_varint
read_varint-Within n bytes fits le = elim (Bool-cases (at_end bytes (pos n))) [
  | inl done ↦ rw done tt
  | inr inside ↦
      let lt : n < length bytes = ground arith in
      let (x, e) = get_elem?_lt bytes n lt in
      rw inside (
        varint_round-Within 9 n 0 0 x bytes fits lt e (λ acc' low'.
          varint_loop-Within 9 (n + 1) acc' 7 bytes fits (omega arith) (omega arith) (omega arith)))
]
