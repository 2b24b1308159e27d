-- ===== src/Reader/Varint.antt =====
-- `ReadVarint` (p2pool/types.go): it reads back the usual encoding of every uint64, and on any
-- input it stays inside the data.
use Prim.Native.Nat.{bit_and, bit_or}
use p2pool_salvium_observer.Prelude.{
  ℕ, zero, suc, ◌+◌, ◌*◌, ◌/◌, ◌%◌, ◌^◌, ◌≤◌, ◌<◌, ◌≡◌, ◌∙◌, refl, ap, List, [], ◌∷◌, ◌++◌, arith,
  ltb, ltb→lt, le→ltb_false, true, false, ◌==◌, if◌then◌else◌, length, inl, inr, Bool-cases,
}
use p2pool_salvium_observer.Word.{IsU64, shl64}
use p2pool_salvium_observer.Word.Bits.{bit_and-mask, bit_and_top, bit_or-shifted}
use p2pool_salvium_observer.Word.Int.{pos, add_int-pos}
use p2pool_salvium_observer.Reader.{varint_loop, read_varint}
use p2pool_salvium_observer.Reader.Runs.{
  At, Reads, FitsMemory, At-cons, At-lt, At-step, at_end-false, index-At,
}
use native.Mathlib.Nat.{div-lt_iff_lt-mul, pow-suc, mul-le-mul_right}
use native.Mathlib.Numerals.{towards_suc}

-- The variable-length encoding of a number in at most `k + 1` bytes: seven bits a byte, the lowest
-- first, with the top bit on all but the last.
unfoldable pub groups : ℕ → ℕ → List ℕ
groups zero v = v ∷ []
groups (suc k) v =
    let more = groups k (v / 128) in if ltb v 128 then v ∷ [] else (v % 128 + 128) ∷ more

abbrev pub encode_varint : ℕ → List ℕ
encode_varint v = groups 9 v

pub length-groups : (k v : ℕ) → (1 ≤ length (groups k v)) × (length (groups k v) ≤ k + 1)
unfolding groups
length-groups zero v = omega arith
length-groups (suc k) v = ground (arith, length-groups k (v / 128))

-- What a round adds to the result, for a byte `b` whose bits above `shift` are free and fit.
round :
    (acc b shift : ℕ)
    → acc < 2 ^ shift
    → acc + b % 128 * 2 ^ shift < 2 ^ 64
    → bit_or acc (shl64 (bit_and b 0x7F) shift) ≡ acc + b % 128 * 2 ^ shift
round acc b shift free fits =
    let e : shl64 (bit_and b 0x7F) shift ≡ b % 128 * 2 ^ shift =
      rw (bit_and-mask 7 b 0x7F refl) (omega arith) in
    rw e (bit_or-shifted shift acc (b % 128) free)

seven_more : (s : ℕ) → 2 ^ (s + 7) ≡ 128 * 2 ^ s
seven_more s = simp towards_suc (omega arith)

-- A number shifted by `s` is its lowest group and the rest, shifted one group further.
lowest_group : (s w : ℕ) → w * 2 ^ s ≡ w % 128 * 2 ^ s + w / 128 * 2 ^ (s + 7)
lowest_group s w =
    let parts : w ≡ w % 128 + w / 128 * 128 = omega arith in
    ap (λ x. x * 2 ^ s) parts ∙ rw (seven_more s) (omega arith)

module _ (bytes : List ℕ) (fits : FitsMemory bytes) where
  last_round :
      (k n acc shift w : ℕ) (rest : List ℕ)
      → At bytes n (w ∷ rest)
      → w < 128
      → acc < 2 ^ shift
      → acc + w * 2 ^ shift < 2 ^ 64
      → Reads bytes (varint_loop (suc k) bytes (pos n) acc shift) (acc + w * 2 ^ shift) rest
  unfolding varint_loop
  last_round k n acc shift w rest a hw free small =
      let e : w % 128 ≡ w = omega arith in
      let r : bit_or acc (shl64 (bit_and w 0x7F) shift) ≡ acc + w * 2 ^ shift =
        rw e at (round acc w shift free (rw e small)) in
      let stop : (bit_and w 0x80 == 0) ≡ true = ground (arith, bit_and_top w) in
      (
        n + 1,
        rw (
          at_end-false bytes n (At-lt bytes n w rest a),
          index-At bytes n w rest a,
          r,
          stop,
          add_int-pos n 1 (omega (arith, At-lt bytes n w rest a)),
        ),
        At-cons bytes n w rest a,
      )

  inner_round :
      (k n acc shift g : ℕ) (rest : List ℕ)
      → At bytes n ((g + 128) ∷ rest)
      → g < 128
      → shift + 7 ≤ 63
      → acc < 2 ^ shift
      → acc + g * 2 ^ shift < 2 ^ 64
      → varint_loop (suc k) bytes (pos n) acc shift
        ≡ varint_loop k bytes (pos (n + 1)) (acc + g * 2 ^ shift) (shift + 7)
  unfolding varint_loop
  inner_round k n acc shift g rest a hg hs free small =
      let e : (g + 128) % 128 ≡ g = omega arith in
      let r : bit_or acc (shl64 (bit_and (g + 128) 0x7F) shift) ≡ acc + g * 2 ^ shift =
        rw e at (round acc (g + 128) shift free (rw e small)) in
      let go : (bit_and (g + 128) 0x80 == 0) ≡ false = ground (arith, bit_and_top (g + 128)) in
      let on : ltb 63 (shift + 7) ≡ false = le→ltb_false _ _ hs in
      rw (
        at_end-false bytes n (At-lt bytes n (g + 128) rest a),
        index-At bytes n (g + 128) rest a,
        r,
        go,
        on,
        add_int-pos n 1 (omega (arith, At-lt bytes n (g + 128) rest a)),
      )

  -- `w` is what is still to be read, and it counts from bit `shift` on.
  loop-groups :
      (k n acc shift w : ℕ) (rest : List ℕ)
      → At bytes n (groups k w ++ rest)
      → shift + 7 * k ≡ 63
      → w < 128 ^ suc k
      → acc < 2 ^ shift
      → acc + w * 2 ^ shift < 2 ^ 64
      → Reads bytes (varint_loop (suc k) bytes (pos n) acc shift) (acc + w * 2 ^ shift) rest
  unfolding groups
  loop-groups zero n acc shift w rest a hs hw free small =
      last_round 0 n acc shift w rest a (omega arith) free small
  loop-groups (suc k) n acc shift w rest a hs hw free small = elim (Bool-cases (ltb w 128)) [
    | inl short ↦
        last_round (suc k) n acc shift w rest (rw short at a) (ltb→lt _ _ short) free small
    | inr long ↦
        let a' : At bytes n ((w % 128 + 128) ∷ (groups k (w / 128) ++ rest)) = rw long at a in
        let whole = lowest_group shift w in
        let part : acc + w % 128 * 2 ^ shift < 2 ^ 64 = omega arith in
        let e : acc + w * 2 ^ shift ≡ acc + w % 128 * 2 ^ shift + w / 128 * 2 ^ (shift + 7) =
          omega arith in
        let below : acc + w % 128 * 2 ^ shift < 2 ^ (shift + 7) = omega (
          arith,
          mul-le-mul_right {m = w % 128} {n = 127} (2 ^ shift) (omega arith),
          seven_more shift,
        ) in
        rw (inner_round (suc k) n acc shift (w % 128) _ a' (omega arith) (omega arith) free part, e)
          (loop-groups k (n + 1) (acc + w % 128 * 2 ^ shift) (shift + 7) (w / 128) rest
            (At-cons bytes n _ _ a') (omega arith)
            ((div-lt_iff_lt-mul {k = 128} (omega arith)).1 (rw (pow-suc 128 (suc k)) at hw)) below
            (rw (← e) small))
  ]

  -- ReadVarint at a position that holds the encoding of a uint64, in data that fit an address
  -- space, reads that number and stops behind it.
  pub varint-At :
      (n v : ℕ) (rest : List ℕ)
      → IsU64 v
      → At bytes n (encode_varint v ++ rest)
      → Reads bytes (read_varint bytes (pos n)) v rest
  unfolding read_varint
  varint-At n v rest hv a =
      let lt : n < length bytes =
        omega (arith, length-groups 9 v, (At-step bytes n (encode_varint v) rest a).0) in
      let z : 0 + v * 2 ^ 0 ≡ v = omega arith in
      let run = loop-groups 9 n 0 0 v rest a (omega arith) (omega arith) (omega arith) (rw z hv) in
      rw (at_end-false bytes n lt) (rw z at run)
