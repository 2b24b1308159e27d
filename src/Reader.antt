-- ===== src/Reader.antt =====
-- The readers of p2pool/types.go: `ReadVarint`, `ReadHash`, `ReadUint32LE`, `ReadUint64LE`,
-- `ReadByte` and `SkipBytes`. `data` is a list of bytes, and an offset is a Go int, which can be
-- negative: a read or a slice at a negative offset panics.
pub mod Runs
pub mod Bounds
pub mod Varint
use Prim.Native.Nat.{bit_and, bit_or}
use p2pool_salvium_observer.Prelude.{
  ℕ, zero, suc, ◌+◌, ◌-◌, ◌*◌, Bool, not, ◌&&◌, Option, none, some, List, [], ◌∷◌, ltb, leb, ◌==◌,
  if◌then◌else◌, length, get_elem?, take, drop,
}
use p2pool_salvium_observer.Word.{shl64}
use p2pool_salvium_observer.Word.Int.{ℤ, pos, negsuc, ltb_ℤ, add_int}
use p2pool_salvium_observer.Share.{Hash}
use p2pool_salvium_observer.Outcome.{
  Result, Error, ok, err, panic, ◌>>=◌, ◌>>◌, fail_if, varint_beyond, varint_end, varint_overflow,
  out_of_fuel, hash_short, uint32_short, uint64_short, byte_short, skip_short,
}

-- `int_length(data)`, as an int.
abbrev pub int_length : List ℕ → ℤ
int_length bytes = pos (length bytes)

abbrev pub or_panic {ℓ} : {A : Type ℓ} → Option A → Result A
or_panic none = panic
or_panic (some a) = ok a

-- `data[i]`
unfoldable pub index : List ℕ → ℤ → Result ℕ
index bytes (pos i) = or_panic (get_elem? bytes i)
index bytes (negsuc i) = panic

-- `data[a:b]`; the code has compared `b` with `int_length(data)` before.
unfoldable pub slice : List ℕ → ℤ → ℤ → Result (List ℕ)
slice bytes (pos a) (pos b) =
    if leb a b && leb b (length bytes) then ok (take (b - a) (drop a bytes)) else panic
slice bytes _ _ = panic

-- `data[a:]`
unfoldable pub slice_from : List ℕ → ℤ → Result (List ℕ)
unfolding slice
slice_from bytes a = slice bytes a (int_length bytes)

-- `binary.LittleEndian.Uint32(s)` and `Uint64(s)`, which panic on a short slice.
unfoldable pub le_uint32 : List ℕ → Result ℕ
le_uint32 (a ∷ b ∷ c ∷ d ∷ _) = ok (a + 0x100 * b + 0x1_0000 * c + 0x100_0000 * d)
le_uint32 _ = panic

unfoldable pub le_uint64 : List ℕ → Result ℕ
le_uint64 (a ∷ b ∷ c ∷ d ∷ e ∷ f ∷ g ∷ h ∷ _) = ok (
    a
    + 0x100 * b
    + 0x1_0000 * c
    + 0x100_0000 * d
    + 0x1_0000_0000 * (e + 0x100 * f + 0x1_0000 * g + 0x100_0000 * h))
le_uint64 _ = panic

-- `offset >= int_length(data)`
abbrev pub at_end : List ℕ → ℤ → Bool
at_end bytes offset = not (ltb_ℤ offset (int_length bytes))

-- `offset > int_length(data)`
abbrev pub past_end : List ℕ → ℤ → Bool
past_end bytes offset = ltb_ℤ (int_length bytes) offset

-- The loop of `ReadVarint`, one byte a round. `shift` is 0, 7, … 63, so ten rounds are enough.
unfoldable pub varint_loop : ℕ → List ℕ → ℤ → ℕ → ℕ → Result (ℕ × ℤ)
varint_loop zero bytes offset result shift = err out_of_fuel
varint_loop (suc fuel) bytes offset result shift = do
  fail_if (at_end bytes offset) varint_end
  b ← index bytes offset
  let offset' = add_int offset (pos 1)
  let result' = bit_or result (shl64 (bit_and b 0x7F) shift)
  let more = varint_loop fuel bytes offset' result' (shift + 7)
  if bit_and b 0x80 == 0
      then ok (result', offset')
      else if ltb 63 (shift + 7)
      then err varint_overflow
      else more

unfoldable pub read_varint : List ℕ → ℤ → Result (ℕ × ℤ)
read_varint bytes offset = do
  fail_if (at_end bytes offset) varint_beyond
  varint_loop 10 bytes offset 0 0

unfoldable pub read_hash : List ℕ → ℤ → Result (Hash × ℤ)
read_hash bytes offset = do
  let stop = add_int offset (pos 32)
  fail_if (past_end bytes stop) hash_short
  h ← slice bytes offset stop
  ok (h, stop)

unfoldable pub read_uint32_le : List ℕ → ℤ → Result (ℕ × ℤ)
read_uint32_le bytes offset = do
  let stop = add_int offset (pos 4)
  fail_if (past_end bytes stop) uint32_short
  v ← le_uint32 (← slice_from bytes offset)
  ok (v, stop)

unfoldable pub read_uint64_le : List ℕ → ℤ → Result (ℕ × ℤ)
read_uint64_le bytes offset = do
  let stop = add_int offset (pos 8)
  fail_if (past_end bytes stop) uint64_short
  v ← le_uint64 (← slice_from bytes offset)
  ok (v, stop)

unfoldable pub read_byte : List ℕ → ℤ → Result (ℕ × ℤ)
read_byte bytes offset = do
  fail_if (at_end bytes offset) byte_short
  b ← index bytes offset
  ok (b, add_int offset (pos 1))

unfoldable pub skip_bytes : List ℕ → ℤ → ℤ → Result ℤ
skip_bytes bytes offset n = do
  let stop = add_int offset n
  fail_if (past_end bytes stop) skip_short
  ok stop
