-- ===== src/Api/Sanitize/Addresses.antt =====
-- The addresses that `Address.ToBase58` prints (p2pool/types.go) have the form that
-- `sanitizeAddresses` looks for.
use mathlib.Core.List.{append_assoc}
use p2pool_salvium_observer.Prelude.{
  ℕ, zero, suc, ◌+◌, ◌*◌, ◌/◌, ◌%◌, ◌^◌, ◌≤◌, ◌<◌, ◌≡◌, refl, ap, ◌∙◌, true, List, [], ◌∷◌, ◌++◌,
  arith, length, take, drop, get_elem?, ltb, Bool-cases, inl, inr, All, length-append, length-drop,
  length-take, false,
}
use p2pool_salvium_observer.Share.{Address}
use p2pool_salvium_observer.Base58.{
  or_zero, base58_alphabet, block_number, encode_digits, encode_block, encode_blocks,
  encode_monero_base58, to_base58, truncate_address, to_truncated,
}
use p2pool_salvium_observer.Base58.Sizes.{length-to_base58}
use p2pool_salvium_observer.Api.Codes.{is_base58}
use p2pool_salvium_observer.Api.Sanitize.Words.{and_parts, ends_in_word, begins_with_word}
use p2pool_salvium_observer.Api.Sanitize.Matches.{sanitize-match}
use p2pool_salvium_observer.Api.Sanitize.{
  is_address, all_base58, truncate_match, sanitize_addresses,
}

-- A character that a list of base 58 characters has at an index.
picked-is_base58 :
    (cs : List ℕ) (k : ℕ)
    → all_base58 cs ≡ true
    → k < length cs
    → is_base58 (or_zero (get_elem? cs k)) ≡ true
picked-is_base58 [] k h inside = absurd (omega arith)
picked-is_base58 (c ∷ cs) zero h inside = (and_parts (is_base58 c) (all_base58 cs) h).0
picked-is_base58 (c ∷ cs) (suc k) h inside =
    picked-is_base58 cs k (and_parts (is_base58 c) (all_base58 cs) h).1 (omega arith)

base58_alphabet-all_base58 : all_base58 base58_alphabet ≡ true
unfolding is_base58
base58_alphabet-all_base58 = refl

alphabet-is_base58 : (k : ℕ) → k < 58 → is_base58 (or_zero (get_elem? base58_alphabet k)) ≡ true
alphabet-is_base58 k h = picked-is_base58 base58_alphabet k base58_alphabet-all_base58 h

encode_digits-all_base58 :
    (i num : ℕ) (digits : List ℕ)
    → all_base58 digits ≡ true
    → all_base58 (encode_digits i num digits) ≡ true
unfolding encode_digits
encode_digits-all_base58 zero num digits h = h
encode_digits-all_base58 (suc i) num digits h =
    encode_digits-all_base58 i (num / 58) _ (rw (alphabet-is_base58 (num % 58) (omega arith)) h)

top_digits :
    (num : ℕ)
    → 0x969960 * 2 ^ 40 ≤ num
    → num < 0x969961 * 2 ^ 40
    → (num / 58 / 58 / 58 / 58 / 58 / 58 / 58 / 58 / 58 / 58 % 58 ≡ 25)
      × (num / 58 / 58 / 58 / 58 / 58 / 58 / 58 / 58 / 58 % 58 ≡ 11)
      × (num / 58 / 58 / 58 / 58 / 58 / 58 / 58 / 58 % 58 ≡ 0)
top_digits num low high = (omega arith, omega arith, omega arith)

-- The number of the first block: the three bytes of the prefix and five bytes of the key.
block_number-prefix :
    (b1 b2 b3 b4 b5 : ℕ)
    → b1 < 256
    → b2 < 256
    → b3 < 256
    → b4 < 256
    → b5 < 256
    → block_number (0x96 ∷ 0x99 ∷ 0x60 ∷ b1 ∷ b2 ∷ b3 ∷ b4 ∷ b5 ∷ []) 0
      ≡ 0x969960 * 2 ^ 40 + (b1 * 2 ^ 32 + (b2 * 2 ^ 24 + (b3 * 2 ^ 16 + (b4 * 2 ^ 8 + b5))))
unfolding block_number
block_number-prefix b1 b2 b3 b4 b5 h1 h2 h3 h4 h5 = omega arith

encode_block-prefix :
    (num : ℕ) (block rest : List ℕ)
    → block_number block 0 ≡ num
    → 0x969960 * 2 ^ 40 ≤ num
    → num < 0x969961 * 2 ^ 40
    → encode_block block 11 ++ rest ≡ b'S' ∷ b'C' ∷ b'1' ∷ drop 3 (encode_block block 11 ++ rest)
unfolding encode_block encode_digits
encode_block-prefix num block rest e low high =
    let (tenth, ninth, eighth) = top_digits num low high in rw (e, tenth, ninth, eighth) refl

all_base58-append :
    (a b : List ℕ) → all_base58 a ≡ true → all_base58 b ≡ true → all_base58 (a ++ b) ≡ true
all_base58-append [] b h k = k
all_base58-append (c ∷ a) b h k =
    let (here, rest) = and_parts (is_base58 c) (all_base58 a) h in
    rw here (all_base58-append a b rest k)

encode_blocks-all_base58 :
    (full : ℕ) (bytes : List ℕ) → all_base58 (encode_blocks full bytes) ≡ true
unfolding encode_blocks encode_block
encode_blocks-all_base58 zero bytes = elim (Bool-cases (ltb 0 (length bytes))) [
  | inl more ↦ rw more (encode_digits-all_base58 _ (block_number bytes 0) [] refl)
  | inr none_left ↦ rw none_left refl
]
encode_blocks-all_base58 (suc full) bytes =
    all_base58-append (encode_block (take 8 bytes) 11) (encode_blocks full (drop 8 bytes))
      (encode_digits-all_base58 11 (block_number (take 8 bytes) 0) [] refl)
      (encode_blocks-all_base58 full (drop 8 bytes))

-- A text that begins with SC1, in base 58 throughout and of the length of an address.
is_address-prefixed :
    (t : List ℕ)
    → t ≡ b'S' ∷ b'C' ∷ b'1' ∷ drop 3 t
    → all_base58 t ≡ true
    → length t ≡ 98
    → is_address t ≡ true
unfolding is_address is_base58
is_address-prefixed t e base58 size =
    let tail : all_base58 (drop 3 t) ≡ true = rw e at base58 in
    let rest : length (drop 3 t) ≡ 95 = omega (arith, length-drop 3 t, size) in
    rw e (rw (tail, rest) refl)

prefix-blocks :
    (spend rest : List ℕ)
    → length spend ≡ 32
    → All (λ b. b < 256) spend
    → encode_blocks 8 (0x96 ∷ 0x99 ∷ 0x60 ∷ (spend ++ rest))
      ≡ b'S' ∷ b'C' ∷ b'1' ∷ drop 3 (encode_blocks 8 (0x96 ∷ 0x99 ∷ 0x60 ∷ (spend ++ rest)))
unfolding encode_blocks
prefix-blocks (b1 ∷ b2 ∷ b3 ∷ b4 ∷ b5 ∷ spend) rest size (h1, (h2, (h3, (h4, (h5, more))))) =
    encode_block-prefix _ (0x96 ∷ 0x99 ∷ 0x60 ∷ b1 ∷ b2 ∷ b3 ∷ b4 ∷ b5 ∷ []) _
      (block_number-prefix b1 b2 b3 b4 b5 h1 h2 h3 h4 h5) (omega arith) (omega arith)
prefix-blocks [] rest size bytes = absurd (omega (arith, size))
prefix-blocks (b1 ∷ []) rest size bytes = absurd (omega (arith, size))
prefix-blocks (b1 ∷ b2 ∷ []) rest size bytes = absurd (omega (arith, size))
prefix-blocks (b1 ∷ b2 ∷ b3 ∷ []) rest size bytes = absurd (omega (arith, size))
prefix-blocks (b1 ∷ b2 ∷ b3 ∷ b4 ∷ []) rest size bytes = absurd (omega (arith, size))

-- With keys of 32 bytes and a Keccak of 32 bytes, a printed address has the form of a match.
pub to_base58-is_address :
    (keccak256 : List ℕ → List ℕ) (a : Address)
    → ((bytes : List ℕ) → length (keccak256 bytes) ≡ 32)
    → length a.spend_public_key ≡ 32
    → length a.view_public_key ≡ 32
    → All (λ b. b < 256) a.spend_public_key
    → is_address (to_base58 keccak256 a) ≡ true
unfolding to_base58 encode_monero_base58
to_base58-is_address keccak256 a hash_size spend view bytes =
    let prefix = 0x96 ∷ 0x99 ∷ 0x60 ∷ (a.spend_public_key ++ a.view_public_key) in
    let checksum = take 4 (keccak256 prefix) in
    let all = prefix ++ checksum in
    let l : length all ≡ 71 =
      length-append prefix checksum
      ∙ omega (
        arith,
        length-append a.spend_public_key a.view_public_key,
        length-take 4 (keccak256 prefix) (omega (arith, hash_size prefix)),
        spend,
        view,
      ) in
    let regroup : all
        ≡ 0x96 ∷ 0x99 ∷ 0x60 ∷ (a.spend_public_key ++ (a.view_public_key ++ checksum)) =
      ap (λ t. 0x96 ∷ 0x99 ∷ 0x60 ∷ t)
        (append_assoc a.spend_public_key a.view_public_key checksum) in
    let shape : encode_blocks 8 all ≡ b'S' ∷ b'C' ∷ b'1' ∷ drop 3 (encode_blocks 8 all) =
      rw regroup (prefix-blocks a.spend_public_key (a.view_public_key ++ checksum) spend bytes) in
    let size : length (encode_blocks 8 all) ≡ 98 =
      rw l at (length-to_base58 keccak256 a hash_size spend view).0 in
    rw l (is_address-prefixed (encode_blocks 8 all) shape (encode_blocks-all_base58 8 all) size)

-- The printed address of two keys of 32 bytes, in a text with no word character on either side of
-- it, becomes its truncated form, and what stands around it is sanitized by itself, where Keccak
-- gives 32 bytes.
pub sanitize-to_base58 :
    (keccak256 : List ℕ → List ℕ) (a : Address) (before after : List ℕ)
    → ((bytes : List ℕ) → length (keccak256 bytes) ≡ 32)
    → length a.spend_public_key ≡ 32
    → length a.view_public_key ≡ 32
    → All (λ b. b < 256) a.spend_public_key
    → ends_in_word before ≡ false
    → begins_with_word after ≡ false
    → sanitize_addresses (before ++ (to_base58 keccak256 a ++ after))
      ≡ sanitize_addresses before ++ (to_truncated keccak256 a ++ sanitize_addresses after)
unfolding to_truncated truncate_match truncate_address
sanitize-to_base58 keccak256 a before after hash_size spend view bytes left right =
    sanitize-match before (to_base58 keccak256 a) after (record {
      address = to_base58-is_address keccak256 a hash_size spend view bytes;
      left_boundary = left;
      right_boundary = right;
    })
