-- ===== src/Parser/Wire.antt =====
-- The format of a cache entry as the comments of p2pool/parser.go and p2pool/cache.go describe it,
-- written as an encoder: what the parser is compared with.
use p2pool_salvium_observer.Prelude.{ℕ, ◌^◌, ◌≤◌, ◌<◌, ◌≡◌, List, [], ◌∷◌, ◌++◌, none, length, All}
use p2pool_salvium_observer.Word.{IsU64}
use p2pool_salvium_observer.Difficulty.Value.{IsValid}
use p2pool_salvium_observer.Share.{Hash, Share}
use p2pool_salvium_observer.Share.Keys.{lookup_hash}
use p2pool_salvium_observer.Reader.Runs.{le_bytes32}
use p2pool_salvium_observer.Reader.Varint.{encode_varint}

abbrev pub IsHash : Hash → Type 0
IsHash h = length h ≡ 32

abbrev pub IsU32 : ℕ → Type 0
IsU32 v = v < 2 ^ 32

abbrev pub concat : List (List ℕ) → List ℕ
concat [] = []
concat (h ∷ hs) = h ++ concat hs

-- chain_id (32 bytes), data_len (varint), data
abbrev pub encode_mm_extras : List (Hash × List ℕ) → List ℕ
encode_mm_extras [] = []
encode_mm_extras ((chain_id, extra) ∷ rest) =
    chain_id ++ (encode_varint (length extra) ++ (extra ++ encode_mm_extras rest))

abbrev pub encode_words : List ℕ → List ℕ
encode_words [] = []
encode_words (w ∷ ws) = le_bytes32 w ++ encode_words ws

abbrev pub encode_sidechain_data : Share → List ℕ → List ℕ
encode_sidechain_data s trailing =
    s.miner_wallet.spend_public_key
    ++ (s.miner_wallet.view_public_key
        ++ (s.txkey_sec_seed
            ++ (s.parent
                ++ (encode_varint (length s.uncles)
                    ++ (concat s.uncles
                        ++ (encode_varint s.sidechain_height
                            ++ (encode_varint s.difficulty.lo
                                ++ (encode_varint s.difficulty.hi
                                    ++ (encode_varint s.cumulative_difficulty.lo
                                        ++ (encode_varint s.cumulative_difficulty.hi
                                            ++ (length s.merkle_proof
                                                ∷ (concat s.merkle_proof
                                                    ++ (encode_varint (length s.merge_mining_extra)
                                                        ++ (encode_mm_extras s.merge_mining_extra
                                                            ++ (encode_words s.sidechain_extra_buf
                                                            ++ trailing)))))))))))))))

-- Each chain id differs from those before it: a Go map has one value for a key.
abbrev pub AreFresh : List (Hash × List ℕ) → List (Hash × List ℕ) → Type 0
AreFresh seen [] = Unit {0}
AreFresh seen ((k, v) ∷ m) = (lookup_hash k seen ≡ none) × AreFresh (seen ++ ((k, v) ∷ [])) m

abbrev pub IsExtra : Hash × List ℕ → Type 0
IsExtra (k, v) = IsHash k × (length v < 2 ^ 48)

-- The values of the sidechain fields that the format can carry.
pub record IsWireSidechain (s : Share) : Type 0 where
  pub spend : IsHash s.miner_wallet.spend_public_key
  pub view : IsHash s.miner_wallet.view_public_key
  pub seed : IsHash s.txkey_sec_seed
  pub parent : IsHash s.parent
  pub uncles : All IsHash s.uncles
  pub uncle_count : length s.uncles ≤ 10
  pub height : IsU64 s.sidechain_height
  pub difficulty : IsValid s.difficulty
  pub cumulative : IsValid s.cumulative_difficulty
  pub proof : All IsHash s.merkle_proof
  pub proof_count : length s.merkle_proof < 256
  pub extra : All IsExtra s.merge_mining_extra
  pub extra_count : length s.merge_mining_extra < 2 ^ 48
  pub extra_keys : AreFresh [] s.merge_mining_extra
  pub words : All IsU32 s.sidechain_extra_buf
  pub word_count : length s.sidechain_extra_buf ≡ 4
