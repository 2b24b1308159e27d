-- ===== src/Share.antt =====
-- `Hash` and `Address` of p2pool/types.go, and `Share` of p2pool/share.go. A hash is the list of
-- its 32 bytes; a Go map keyed by hashes is an association list.
pub mod Keys
use p2pool_salvium_observer.Prelude.{ℕ, Bool, true, false, ◌&&◌, List, [], ◌∷◌, ◌==◌, replicate}
use p2pool_salvium_observer.Difficulty.{Difficulty, zero_difficulty}

abbrev pub Hash : Type 0
Hash = List ℕ

abbrev pub zero_hash : Hash
zero_hash = replicate 32 0

-- `==` on byte arrays.
unfoldable pub bytes_eq : List ℕ → List ℕ → Bool
bytes_eq [] [] = true
bytes_eq [] (b ∷ bs) = false
bytes_eq (a ∷ as') [] = false
bytes_eq (a ∷ as') (b ∷ bs) = a == b && bytes_eq as' bs

unfoldable pub is_zero_hash : Hash → Bool
is_zero_hash h = bytes_eq h zero_hash

pub record Address : Type 0 where
  pub spend_public_key : Hash
  pub view_public_key : Hash

abbrev pub zero_address : Address
zero_address = record { spend_public_key = zero_hash; view_public_key = zero_hash }

unfoldable pub address_eq : Address → Address → Bool
address_eq a b =
    bytes_eq a.spend_public_key b.spend_public_key && bytes_eq a.view_public_key b.view_public_key

pub record Share : Type 0 where
  pub sidechain_id : Hash
  pub major_version : ℕ
  pub minor_version : ℕ
  pub timestamp : ℕ
  pub prev_id : Hash
  pub nonce : ℕ
  pub mainchain_height : ℕ
  pub miner_wallet : Address
  pub txkey_sec_seed : Hash
  pub parent : Hash
  pub uncles : List Hash
  pub sidechain_height : ℕ
  pub difficulty : Difficulty
  pub cumulative_difficulty : Difficulty
  pub merkle_proof : List Hash
  pub merge_mining_extra : List (Hash × List ℕ)
  pub sidechain_extra_buf : List ℕ
  pub depth : ℕ
  pub verified : Bool
  pub invalid : Bool

-- `&Share{}`
abbrev pub zero_share : Share
zero_share = record {
  sidechain_id = zero_hash;
  major_version = 0;
  minor_version = 0;
  timestamp = 0;
  prev_id = zero_hash;
  nonce = 0;
  mainchain_height = 0;
  miner_wallet = zero_address;
  txkey_sec_seed = zero_hash;
  parent = zero_hash;
  uncles = [];
  sidechain_height = 0;
  difficulty = zero_difficulty;
  cumulative_difficulty = zero_difficulty;
  merkle_proof = [];
  merge_mining_extra = [];
  sidechain_extra_buf = replicate 4 0;
  depth = 0;
  verified = false;
  invalid = false;
}

unfoldable pub template_id : Share → Hash
template_id s = s.sidechain_id

unfoldable pub is_uncle : Share → Bool
is_uncle s = false
