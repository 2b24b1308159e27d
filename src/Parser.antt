-- ===== src/Parser.antt =====
-- p2pool/parser.go: a cache entry is parsed into a share.
pub mod Wire
pub mod Sidechain
pub mod HeaderWire
pub mod Skipping
pub mod Mainchain
pub mod Entry
use p2pool_salvium_observer.Prelude.{
  ℕ, zero, suc, ◌+◌, ◌-◌, ◌*◌, ◌^◌, Bool, true, false, not, ◌&&◌, ◌||◌, List, [], ◌∷◌, map, ltb,
  leb, ◌==◌, if◌then◌else◌, length,
}
use p2pool_salvium_observer.Word.Int.{ℤ, pos, negsuc, ltb_ℤ, add_int, mul_int, int_of_u64}
use p2pool_salvium_observer.Difficulty.{Difficulty}
use p2pool_salvium_observer.Share.{Hash, Address, Share, zero_share}
use p2pool_salvium_observer.Share.Keys.{insert_hash}
use p2pool_salvium_observer.Outcome.{
  Result, Error, Site, ok, err, panic, ◌>>=◌, ◌>>◌, fail_if, context, mainchain_short,
  bad_tx_version, bad_input_count, bad_txin_type, sidechain_short, too_many_uncles,
  mm_extra_exceeds, extra_buf_exceeds, entry_short, entry_truncated, bad_major_version, bad_offset,
}
use p2pool_salvium_observer.Reader.{
  int_length, index, slice, slice_from, le_uint32, at_end, past_end, read_varint, read_hash,
  read_uint32_le, read_byte, skip_bytes,
}

-- One output of the full format: reward, type, K_o, asset, view tag and anchor are skipped.
unfoldable pub skip_output : List ℕ → ℕ → ℤ → Result ℤ
skip_output bytes i offset = do
  (_, offset) ← context (Site.output_reward i) (read_varint bytes offset)
  offset ← context (Site.output_type i) (skip_bytes bytes offset (pos 1))
  offset ← context (Site.output_key i) (skip_bytes bytes offset (pos 32))
  (asset_len, offset) ← context (Site.output_asset_len i) (read_byte bytes offset)
  offset ← context (Site.output_asset i) (skip_bytes bytes offset (pos asset_len))
  offset ← context (Site.output_view_tag i) (skip_bytes bytes offset (pos 3))
  context (Site.output_anchor i) (skip_bytes bytes offset (pos 16))

-- `for i := 0; i < numOutputs; i++`, with the number of rounds that are left.
unfoldable pub skip_outputs : ℕ → List ℕ → ℕ → ℤ → Result ℤ
skip_outputs zero bytes i offset = ok offset
skip_outputs (suc left) bytes i offset = do
  offset ← skip_output bytes i offset
  skip_outputs left bytes (i + 1) offset

-- The compact format: total reward, size of the outputs, sidechain id.
unfoldable pub skip_compact : List ℕ → ℤ → Result ℤ
skip_compact bytes offset = do
  (_, offset) ← context Site.compact_total_reward (read_varint bytes offset)
  (_, offset) ← context Site.compact_outputs_blob_size (read_varint bytes offset)
  context Site.compact_sidechain_id (skip_bytes bytes offset (pos 32))

-- The outputs in either format.
unfoldable pub skip_all_outputs : ℕ → List ℕ → ℤ → Result ℤ
skip_all_outputs num_outputs bytes offset =
    if ltb 0 num_outputs then skip_outputs num_outputs bytes 0 offset else skip_compact bytes offset

-- The outputs of `skipProtocolTx`, where the error itself is dropped by the caller.
unfoldable pub skip_protocol_outputs : ℕ → List ℕ → ℤ → Result ℤ
skip_protocol_outputs zero bytes offset = ok offset
skip_protocol_outputs (suc left) bytes offset = do
  (_, offset) ← read_varint bytes offset
  offset ← skip_bytes bytes offset (pos 33)
  skip_protocol_outputs left bytes offset

-- `if … { return savedOffset }` as an error that the caller turns into the saved offset.
abbrev pub expect : Bool → Result (Unit {0})
expect true = ok tt
expect false = err bad_offset

-- The body of `skipProtocolTx` behind its first test; an error stands for `return savedOffset`.
unfoldable pub protocol_tx : List ℕ → ℤ → Result ℤ
protocol_tx bytes offset = do
  (first, next) ← read_varint bytes offset
  expect (first == 4)
  (second, next) ← read_varint bytes next
  expect (second == 60)
  (vin_size, offset) ← read_varint bytes next
  expect (vin_size == 1)
  (txin_type, offset) ← read_byte bytes offset
  expect (txin_type == 0xff)
  (_, offset) ← read_varint bytes offset
  (vout_size, offset) ← read_varint bytes offset
  offset ← skip_protocol_outputs vout_size bytes offset
  (extra_size, offset) ← read_varint bytes offset
  offset ← skip_bytes bytes offset (int_of_u64 extra_size)
  (_, offset) ← read_varint bytes offset
  skip_bytes bytes offset (pos 1)

-- `return savedOffset` on every error.
abbrev pub or_saved : ℤ → Result ℤ → Result ℤ
or_saved saved (ok offset) = ok offset
or_saved saved (err e) = ok saved
or_saved saved panic = panic

unfoldable pub skip_protocol_tx : List ℕ → ℤ → Result ℤ
skip_protocol_tx bytes offset =
    if at_end bytes (add_int offset (pos 2))
    then ok offset
    else or_saved offset (protocol_tx bytes offset)

-- `if share.MajorVersion >= 10 && offset+2 < int_length(data) { offset = skipProtocolTx(data, offset) }`
unfoldable pub skip_optional_tx : ℕ → List ℕ → ℤ → Result ℤ
skip_optional_tx major_version bytes offset =
    if leb 10 major_version && ltb_ℤ (add_int offset (pos 2)) (int_length bytes)
    then skip_protocol_tx bytes offset
    else ok offset

-- `parseMainchainData`: the offset at which the sidechain data begins, and the share with the
-- fields of the header. A share whose parse fails is dropped, so its fields are written at the end.
unfoldable pub parse_mainchain_data : List ℕ → Share → Result (ℤ × Share)
parse_mainchain_data bytes share = do
  fail_if (ltb (length bytes) 40) mainchain_short
  major_version ← index bytes (pos 0)
  minor_version ← index bytes (pos 1)
  (timestamp, offset) ← context Site.timestamp (read_varint bytes (pos 2))
  (prev_id, offset) ← context Site.prev_id (read_hash bytes offset)
  (nonce, offset) ← context Site.nonce (read_uint32_le bytes offset)
  (tx_version, offset) ← context Site.tx_version (read_byte bytes offset)
  fail_if (not (tx_version == 4)) bad_tx_version
  (_, offset) ← context Site.unlock_height (read_varint bytes offset)
  (input_count, offset) ← context Site.input_count (read_byte bytes offset)
  fail_if (not (input_count == 1)) bad_input_count
  (txin_type, offset) ← context Site.txin_type (read_byte bytes offset)
  fail_if (not (txin_type == 0xff)) bad_txin_type
  (mainchain_height, offset) ← context Site.txin_gen_height (read_varint bytes offset)
  (num_outputs, offset) ← context Site.num_outputs (read_varint bytes offset)
  offset ← skip_all_outputs num_outputs bytes offset
  (tx_extra_size, offset) ← context Site.tx_extra_size (read_varint bytes offset)
  offset ← context Site.tx_extra (skip_bytes bytes offset (int_of_u64 tx_extra_size))
  (_, offset) ← context Site.tx_type (read_varint bytes offset)
  (_, offset) ← context Site.amount_burnt (read_varint bytes offset)
  offset ← context Site.rct_type (skip_bytes bytes offset (pos 1))
  offset ← skip_optional_tx major_version bytes offset
  (num_tx, offset) ← context Site.num_transactions (read_varint bytes offset)
  offset ← context Site.transactions (skip_bytes bytes offset (mul_int (int_of_u64 num_tx) 32))
  ok (
    offset,
    record share {
      major_version = major_version;
      minor_version = minor_version;
      timestamp = timestamp;
      prev_id = prev_id;
      nonce = nonce;
      mainchain_height = mainchain_height;
    },
  )

-- `for i := 0; i < n; i++ { hashes[i], offset, err = ReadHash(data, offset) }`
unfoldable pub read_hashes : (ℕ → Site) → ℕ → List ℕ → ℕ → ℤ → Result (List Hash × ℤ)
read_hashes site zero bytes i offset = ok ([], offset)
read_hashes site (suc left) bytes i offset = do
  (h, offset) ← context (site i) (read_hash bytes offset)
  (hs, offset) ← read_hashes site left bytes (i + 1) offset
  ok (h ∷ hs, offset)

-- `make([]byte, n)` panics on a size that no address space holds.
abbrev pub max_alloc : ℕ
max_alloc = 2 ^ 48

-- One entry of the merge mining data.
unfoldable pub read_mm_extra : List ℕ → ℕ → ℤ → Result (Hash × List ℕ × ℤ)
read_mm_extra bytes i offset = do
  (chain_id, offset) ← context (Site.mm_extra_chain_id i) (read_hash bytes offset)
  (data_len, offset) ← context (Site.mm_extra_data_len i) (read_varint bytes offset)
  let stop = add_int offset (int_of_u64 data_len)
  fail_if (past_end bytes stop) mm_extra_exceeds
  (if ltb max_alloc data_len then panic else ok tt)
  mm_data ← slice bytes offset stop
  ok (chain_id, mm_data, stop)

unfoldable pub read_mm_extras :
    ℕ → List ℕ → ℕ → ℤ → List (Hash × List ℕ) → Result (List (Hash × List ℕ) × ℤ)
read_mm_extras zero bytes i offset extra = ok (extra, offset)
read_mm_extras (suc left) bytes i offset extra = do
  (chain_id, mm_data, offset) ← read_mm_extra bytes i offset
  read_mm_extras left bytes (i + 1) offset (insert_hash chain_id mm_data extra)

-- `binary.LittleEndian.Uint32(data[offset:])`
unfoldable pub uint32_at : List ℕ → ℤ → Result ℕ
unfolding slice_from le_uint32
uint32_at bytes offset = do le_uint32 (← slice_from bytes offset)

-- `sidechainExtraBuf`: four words behind a test of the room for all of them.
unfoldable pub read_extra_buf : List ℕ → ℤ → Result (List ℕ)
unfolding uint32_at
read_extra_buf bytes offset = do
  fail_if (past_end bytes (add_int offset (pos 16))) extra_buf_exceeds
  buf0 ← uint32_at bytes offset
  buf1 ← uint32_at bytes (add_int offset (pos 4))
  buf2 ← uint32_at bytes (add_int offset (pos 8))
  buf3 ← uint32_at bytes (add_int offset (pos 12))
  ok (buf0 ∷ buf1 ∷ buf2 ∷ buf3 ∷ [])

unfoldable pub parse_sidechain_data : List ℕ → Share → Result Share
parse_sidechain_data bytes share = do
  fail_if (ltb (length bytes) 128) sidechain_short
  (spend_public_key, offset) ← context Site.spend_public_key (read_hash bytes (pos 0))
  (view_public_key, offset) ← context Site.view_public_key (read_hash bytes offset)
  (txkey_sec_seed, offset) ← context Site.txkey_sec_seed (read_hash bytes offset)
  (parent, offset) ← context Site.parent (read_hash bytes offset)
  (uncle_count, offset) ← context Site.uncle_count (read_varint bytes offset)
  fail_if (ltb 10 uncle_count) too_many_uncles
  (uncles, offset) ← read_hashes Site.uncle uncle_count bytes 0 offset
  (sidechain_height, offset) ← context Site.sidechain_height (read_varint bytes offset)
  (difficulty_lo, offset) ← context Site.difficulty_lo (read_varint bytes offset)
  (difficulty_hi, offset) ← context Site.difficulty_hi (read_varint bytes offset)
  (cumulative_lo, offset) ← context Site.cumulative_lo (read_varint bytes offset)
  (cumulative_hi, offset) ← context Site.cumulative_hi (read_varint bytes offset)
  (merkle_count, offset) ← context Site.merkle_count (read_byte bytes offset)
  (merkle_proof, offset) ← read_hashes Site.merkle_proof merkle_count bytes 0 offset
  (mm_count, offset) ← context Site.mm_extra_count (read_varint bytes offset)
  (extra, offset) ←
      read_mm_extras mm_count bytes 0 offset
        (if ltb 0 mm_count then [] else share.merge_mining_extra)
  words ← read_extra_buf bytes offset
  ok (record share {
    miner_wallet = record {
      spend_public_key = spend_public_key;
      view_public_key = view_public_key;
    };
    txkey_sec_seed = txkey_sec_seed;
    parent = parent;
    uncles = uncles;
    sidechain_height = sidechain_height;
    difficulty = record { lo = difficulty_lo; hi = difficulty_hi };
    cumulative_difficulty = record { lo = cumulative_lo; hi = cumulative_hi };
    merkle_proof = merkle_proof;
    merge_mining_extra = extra;
    sidechain_extra_buf = words;
  })

-- The test of the first byte of the block. The message prints `blockData[0]`, so on an empty block
-- it panics before the error is made.
unfoldable pub check_major_version : List ℕ → Result (Unit {0})
check_major_version [] = panic
check_major_version (b ∷ rest) =
    if ltb (length (b ∷ rest)) 2 || ltb b 1 || ltb 20 b then err bad_major_version else ok tt

unfoldable pub parse_cache_entry : List ℕ → Result Share
parse_cache_entry bytes = do
  fail_if (ltb (length bytes) 36) entry_short
  sidechain_id ← slice bytes (pos 0) (pos 32)
  total_len ← le_uint32 (← slice bytes (pos 32) (pos 36))
  let expected_end = add_int (pos 36) (pos total_len)
  fail_if (past_end bytes expected_end) entry_truncated
  block ← slice bytes (pos 36) expected_end
  check_major_version block
  (offset, share) ←
      context Site.mainchain_data
        (parse_mainchain_data block (record zero_share { sidechain_id = sidechain_id }))
  fail_if (ltb_ℤ offset (pos 0) || at_end block offset) bad_offset
  context Site.sidechain_data (parse_sidechain_data (← slice_from block offset) share)
