-- ===== src/Base58/Sizes.antt =====
-- The sizes of printed addresses (p2pool/types.go).
use p2pool_salvium_observer.Prelude.{
  ℕ, zero, suc, ◌+◌, ◌*◌, ◌/◌, ◌≡◌, refl, ◌∙◌, arith, List, [], ◌∷◌, ◌++◌, length, length-append,
  length-drop, length-take, take, drop,
}
use p2pool_salvium_observer.Share.{Address}
use p2pool_salvium_observer.Base58.{
  block_number, encode_digits, encode_block, encode_blocks, encode_monero_base58, to_base58,
  truncate_address, to_truncated,
}

length-encode_digits :
    (i num : ℕ) (digits : List ℕ) → length (encode_digits i num digits) ≡ i + length digits
unfolding encode_digits
length-encode_digits zero num digits = omega arith
length-encode_digits (suc i) num digits = length-encode_digits i (num / 58) _ ∙ omega arith

length-encode_block : (block : List ℕ) (size : ℕ) → length (encode_block block size) ≡ size
unfolding encode_block
length-encode_block block size = length-encode_digits size (block_number block 0) [] ∙ omega arith

-- With seven bytes behind the full blocks.
length-encode_blocks :
    (full : ℕ) (bytes : List ℕ)
    → length bytes ≡ full * 8 + 7
    → length (encode_blocks full bytes) ≡ full * 11 + 10
unfolding encode_blocks
length-encode_blocks zero bytes e = rw e (length-encode_block bytes 10)
length-encode_blocks (suc full) bytes e =
    length-append (encode_block (take 8 bytes) 11) (encode_blocks full (drop 8 bytes))
    ∙ omega (
      arith,
      length-encode_block (take 8 bytes) 11,
      length-encode_blocks full (drop 8 bytes) (omega (arith, length-drop 8 bytes, e)),
    )

short : (xs : List ℕ) → length xs ≡ 98 → length (take 8 xs ++ (46 ∷ 46 ∷ 46 ∷ drop 90 xs)) ≡ 19
short xs e =
    length-append (take 8 xs) (46 ∷ 46 ∷ 46 ∷ drop 90 xs)
    ∙ omega (arith, length-take 8 xs (omega (arith, e)), length-drop 90 xs, e)

-- An address of two keys of 32 bytes is printed in 98 characters and truncated to 19, where Keccak
-- gives 32 bytes.
pub length-to_base58 :
    (keccak256 : List ℕ → List ℕ) (a : Address)
    → ((bytes : List ℕ) → length (keccak256 bytes) ≡ 32)
    → length a.spend_public_key ≡ 32
    → length a.view_public_key ≡ 32
    → (length (to_base58 keccak256 a) ≡ 98) × (length (to_truncated keccak256 a) ≡ 19)
unfolding to_base58 to_truncated encode_monero_base58 truncate_address
length-to_base58 keccak256 a hash_size spend view =
    let bytes = 0x96 ∷ 0x99 ∷ 0x60 ∷ (a.spend_public_key ++ a.view_public_key) in
    let all = bytes ++ take 4 (keccak256 bytes) in
    let keys = length-append a.spend_public_key a.view_public_key in
    let check = length-take 4 (keccak256 bytes) (omega (arith, hash_size bytes)) in
    let l : length all ≡ 71 =
      length-append bytes (take 4 (keccak256 bytes)) ∙ omega (arith, keys, check, spend, view) in
    let p : length (encode_blocks 8 all) ≡ 98 = length-encode_blocks 8 all l in
    rw (l, p) (refl, short (encode_blocks 8 all) p)
