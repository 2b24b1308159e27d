-- ===== src/Tests/Parsing.antt =====
-- The parser (p2pool/parser.go) on a small block of version 10 with a protocol transaction, two
-- uncles and one entry of merge mining data.
use p2pool_salvium_observer.Prelude.{
  ℕ, ◌+◌, ◌≡◌, refl, [], ◌∷◌, ◌++◌, Option, none, some, arith, replicate, length,
}
use p2pool_salvium_observer.Word.Int.{ℤ, pos}
use p2pool_salvium_observer.Share.{Hash, Share, zero_share}
use p2pool_salvium_observer.Outcome.{Result, ok, err, panic}
use p2pool_salvium_observer.Reader.{
  read_varint, varint_loop, index, read_hash, slice, read_uint32_le, read_byte, skip_bytes,
  slice_from, le_uint32,
}
use p2pool_salvium_observer.Reader.Runs.{At, Reads, At-start, le_bytes32}
use p2pool_salvium_observer.Reader.Bounds.{Within, read_varint-Within}
use p2pool_salvium_observer.Reader.Varint.{groups, encode_varint, varint-At}
use p2pool_salvium_observer.Parser.{
  parse_cache_entry, parse_sidechain_data, parse_mainchain_data, skip_all_outputs, skip_outputs,
  skip_output, skip_optional_tx, skip_protocol_tx, protocol_tx, skip_protocol_outputs,
}
use p2pool_salvium_observer.Parser.Wire.{IsWireSidechain, encode_sidechain_data}
use p2pool_salvium_observer.Parser.HeaderWire.{Header, full, IsWireHeader, encode_mainchain_data}
use p2pool_salvium_observer.Parser.Sidechain.{parse-encode_sidechain, with_sidechain}
use p2pool_salvium_observer.Parser.Mainchain.{parse-encode_mainchain, with_header}
use p2pool_salvium_observer.Share.{bytes_eq}
use p2pool_salvium_observer.Share.Keys.{lookup_hash}
use p2pool_salvium_observer.Cache.{load_all_shares, load_from}
use p2pool_salvium_observer.Cache.Keyed.{load_all_shares-IsKeyed}
use p2pool_salvium_observer.Parser.Entry.{
  parse-encode_entry, empty_block_panics, encode_entry, IsWireEntry, carried,
}

abbrev hash_a : Hash
hash_a = replicate 32 7

abbrev hash_b : Hash
hash_b = replicate 32 9

abbrev sample_share : Share
sample_share = record zero_share {
  sidechain_id = hash_a;
  major_version = 10;
  minor_version = 10;
  timestamp = 1700000000;
  prev_id = hash_b;
  nonce = 12345;
  mainchain_height = 300000;
  miner_wallet = record { spend_public_key = hash_a; view_public_key = hash_b };
  txkey_sec_seed = hash_a;
  parent = hash_b;
  uncles = hash_a ∷ hash_b ∷ [];
  sidechain_height = 5000;
  difficulty = record { lo = 100000; hi = 0 };
  cumulative_difficulty = record { lo = 900000; hi = 1 };
  merkle_proof = hash_a ∷ [];
  merge_mining_extra = (hash_b, 1 ∷ 2 ∷ 3 ∷ []) ∷ [];
  sidechain_extra_buf = 1 ∷ 2 ∷ 3 ∷ 4 ∷ [];
}

abbrev sample_header : Header
sample_header = record {
  unlock_height = 300060;
  outputs =
      full
        (record {
          reward = 500;
          output_type = 4;
          key = hash_a;
          asset = 83 ∷ 65 ∷ [];
          view_tag = 1 ∷ 2 ∷ 3 ∷ [];
          anchor = replicate 16 5;
        })
        [];
  tx_extra = 1 ∷ 2 ∷ 3 ∷ [];
  tx_type = 1;
  amount_burnt = 100;
  rct_type = 0;
  protocol =
      some (record { height = 300000; outputs = []; extra = 2 ∷ []; protocol_type = 2; rct = 0 });
  transactions = hash_b ∷ [];
}

sample-IsWireSidechain : IsWireSidechain sample_share
sample-IsWireSidechain = record {
  spend = refl;
  view = refl;
  seed = refl;
  parent = refl;
  uncles = (refl, (refl, tt));
  uncle_count = omega arith;
  height = omega arith;
  difficulty = (omega arith, omega arith);
  cumulative = (omega arith, omega arith);
  proof = (refl, tt);
  proof_count = omega arith;
  extra = ((refl, omega arith), tt);
  extra_count = omega arith;
  extra_keys = (refl, tt);
  words = (omega arith, (omega arith, (omega arith, (omega arith, tt))));
  word_count = refl;
}

sample-IsWireHeader : IsWireHeader sample_share sample_header
sample-IsWireHeader = record {
  timestamp = omega arith;
  prev_id = refl;
  nonce = omega arith;
  height = omega arith;
  unlock = omega arith;
  outputs = (
    (
      record {
        reward = omega arith;
        key = refl;
        asset = omega arith;
        view_tag = refl;
        anchor = refl;
      },
      tt,
    ),
    omega arith,
  );
  extra_count = omega arith;
  tx_type = omega arith;
  burnt = omega arith;
  protocol = (
    omega arith,
    record {
      height = omega arith;
      outputs = tt;
      output_count = omega arith;
      extra_count = omega arith;
      protocol_type = omega arith;
    },
  );
  transactions = (refl, tt);
  transaction_count = omega arith;
}

parse-encode_sidechain_example :
    parse_sidechain_data (encode_sidechain_data sample_share []) zero_share
    ≡ ok (with_sidechain zero_share sample_share)
unfolding groups
parse-encode_sidechain_example =
    parse-encode_sidechain zero_share sample_share [] sample-IsWireSidechain refl (omega arith)

parse-encode_mainchain_example :
    (k : ℕ) × (parse_mainchain_data (encode_mainchain_data sample_share sample_header []) zero_share
      ≡ ok (pos k, with_header zero_share sample_share))
    × At (encode_mainchain_data sample_share sample_header []) k []
unfolding groups
parse-encode_mainchain_example =
    parse-encode_mainchain zero_share sample_share sample_header [] sample-IsWireHeader
      (omega arith)

sample-IsWireEntry : IsWireEntry sample_share sample_header [] (0 ∷ 0 ∷ [])
unfolding groups
sample-IsWireEntry = record {
  id = refl;
  version_low = omega arith;
  version_high = omega arith;
  header = sample-IsWireHeader;
  sidechain = sample-IsWireSidechain;
  size = omega arith;
  fits = omega arith;
}

parse-encode_entry_example :
    parse_cache_entry (encode_entry sample_share sample_header [] (0 ∷ 0 ∷ []))
    ≡ ok (carried sample_share)
parse-encode_entry_example =
    parse-encode_entry sample_share sample_header [] (0 ∷ 0 ∷ []) sample-IsWireEntry

empty_block_panics_example : parse_cache_entry (hash_a ++ (le_bytes32 0 ++ (1 ∷ 2 ∷ []))) ≡ panic
empty_block_panics_example = empty_block_panics hash_a (1 ∷ 2 ∷ []) refl (omega arith)

varint-At_example :
    Reads
      (encode_varint 300 ++ (7 ∷ []))
      (read_varint (encode_varint 300 ++ (7 ∷ [])) (pos 0))
      300
      (7 ∷ [])
unfolding groups
varint-At_example =
    varint-At (encode_varint 300 ++ (7 ∷ [])) (omega arith) 0 300 (7 ∷ []) (omega arith)
      (At-start (encode_varint 300 ++ (7 ∷ [])))

read_varint-Within_example : Within (0xac ∷ 2 ∷ []) 0 1 10 (read_varint (0xac ∷ 2 ∷ []) (pos 0))
read_varint-Within_example = read_varint-Within 0 (0xac ∷ 2 ∷ []) (omega arith) (omega arith)

sample_found :
    load_all_shares (encode_entry sample_share sample_header [] [] ∷ [])
    ≡ ok ((hash_a, carried sample_share) ∷ [])
unfolding load_all_shares load_from groups
sample_found =
    rw
      (parse-encode_entry sample_share sample_header [] [] (record {
        id = refl;
        version_low = omega arith;
        version_high = omega arith;
        header = sample-IsWireHeader;
        sidechain = sample-IsWireSidechain;
        size = omega arith;
        fits = omega arith;
      }))
      refl

hash_a_found :
    lookup_hash hash_a ((hash_a, carried sample_share) ∷ []) ≡ some (carried sample_share)
unfolding bytes_eq
hash_a_found = refl

load_all_shares-IsKeyed_example : (carried sample_share).sidechain_id ≡ hash_a
load_all_shares-IsKeyed_example =
    load_all_shares-IsKeyed (encode_entry sample_share sample_header [] [] ∷ [])
      ((hash_a, carried sample_share) ∷ []) hash_a (carried sample_share) sample_found hash_a_found

abbrev count_share : Share → ℕ → ℕ → Result ℕ
count_share share depth n = ok (n + 1)

-- A header of version 10 without a protocol transaction, with four transactions, the first hash of
-- which begins like one: it is skipped as one, and the sidechain data are looked for in it.
abbrev mistaken_header : Header
mistaken_header = record sample_header {
  protocol = none;
  transactions = (60 ∷ 1 ∷ 0xff ∷ replicate 29 0) ∷ hash_a ∷ hash_a ∷ hash_a ∷ [];
}

abbrev offset_of : Result (ℤ × Share) → Option ℤ
offset_of (ok (offset, share)) = some offset
offset_of (err e) = none
offset_of panic = none

mistaken_length : length (encode_mainchain_data sample_share mistaken_header []) ≡ 246
unfolding groups
mistaken_length = refl

mistaken_offset :
    offset_of
      (parse_mainchain_data (encode_mainchain_data sample_share mistaken_header []) zero_share)
    ≡ some (pos 127)
unfolding groups parse_mainchain_data read_varint varint_loop index read_hash slice read_uint32_le
    read_byte skip_bytes slice_from le_uint32 skip_all_outputs skip_outputs skip_output
    skip_optional_tx skip_protocol_tx protocol_tx skip_protocol_outputs
mistaken_offset = refl
