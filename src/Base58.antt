-- ===== src/Base58.antt =====
-- The printing of addresses (p2pool/types.go, share.go): Monero's base 58 by blocks, and the
-- truncated form. Keccak-256 is a parameter.
pub mod Sizes
use p2pool_salvium_observer.Prelude.{
  ℕ, zero, suc, ◌+◌, ◌-◌, ◌*◌, ◌/◌, ◌%◌, List, [], ◌∷◌, ◌++◌, Option, none, some, length, get_elem?,
  take, drop, ltb, leb, if◌then◌else◌,
}
use p2pool_salvium_observer.Word.{add64, mul64}
use p2pool_salvium_observer.Share.{Address, Share}

abbrev pub or_zero : Option ℕ → ℕ
or_zero none = 0
or_zero (some n) = n

-- `base58Alphabet`, as the codes of its characters.
abbrev pub base58_alphabet : List ℕ
base58_alphabet =
    49 ∷ 50 ∷ 51 ∷ 52 ∷ 53 ∷ 54 ∷ 55 ∷ 56 ∷ 57 ∷ 65 ∷ 66 ∷ 67 ∷ 68 ∷ 69 ∷ 70 ∷ 71 ∷ 72 ∷ 74 ∷ 75
    ∷ 76 ∷ 77 ∷ 78 ∷ 80 ∷ 81 ∷ 82 ∷ 83 ∷ 84 ∷ 85 ∷ 86 ∷ 87 ∷ 88 ∷ 89 ∷ 90 ∷ 97 ∷ 98 ∷ 99 ∷ 100 ∷ 101
    ∷ 102 ∷ 103 ∷ 104 ∷ 105 ∷ 106 ∷ 107 ∷ 109 ∷ 110 ∷ 111 ∷ 112 ∷ 113 ∷ 114 ∷ 115 ∷ 116 ∷ 117 ∷ 118
    ∷ 119 ∷ 120 ∷ 121 ∷ 122 ∷ []

abbrev pub encoded_block_sizes : List ℕ
encoded_block_sizes = 0 ∷ 2 ∷ 3 ∷ 5 ∷ 6 ∷ 7 ∷ 9 ∷ 10 ∷ 11 ∷ []

-- `num = num*256 + uint64(b)`, over the block.
unfoldable pub block_number : List ℕ → ℕ → ℕ
block_number [] num = num
block_number (b ∷ bs) num = block_number bs (add64 (mul64 num 256) b)

-- The digits from the last, in front of those that are there.
unfoldable pub encode_digits : ℕ → ℕ → List ℕ → List ℕ
encode_digits zero num digits = digits
encode_digits (suc i) num digits =
    encode_digits i (num / 58) (or_zero (get_elem? base58_alphabet (num % 58)) ∷ digits)

unfoldable pub encode_block : List ℕ → ℕ → List ℕ
encode_block block encoded_size = encode_digits encoded_size (block_number block 0) []

-- So many full blocks, and what is left behind them.
unfoldable pub encode_blocks : ℕ → List ℕ → List ℕ
encode_blocks zero bytes =
    if ltb 0 (length bytes)
    then encode_block bytes (or_zero (get_elem? encoded_block_sizes (length bytes)))
    else []
encode_blocks (suc full) bytes = encode_block (take 8 bytes) 11 ++ encode_blocks full (drop 8 bytes)

unfoldable pub encode_monero_base58 : List ℕ → List ℕ
encode_monero_base58 bytes = encode_blocks (length bytes / 8) bytes

-- `TruncateAddress`: the first eight characters, three dots, and the last eight.
unfoldable pub truncate_address : List ℕ → List ℕ
truncate_address addr =
    if leb (length addr) 19
    then addr
    else take 8 addr ++ (46 ∷ 46 ∷ 46 ∷ drop (length addr - 8) addr)

module _ (keccak256 : List ℕ → List ℕ) where
  unfoldable pub to_base58 : Address → List ℕ
  to_base58 a =
      let bytes = (0x96 ∷ 0x99 ∷ 0x60 ∷ []) ++ (a.spend_public_key ++ a.view_public_key) in
      encode_monero_base58 (bytes ++ take 4 (keccak256 bytes))

  unfoldable pub to_truncated : Address → List ℕ
  to_truncated a = truncate_address (to_base58 a)

  unfoldable pub get_miner_address : Share → List ℕ
  get_miner_address s = to_base58 s.miner_wallet
