-- ===== src/Parser/Entry.antt =====
-- `ParseCacheEntry` (p2pool/parser.go): the round trip over a whole cache entry, and the entries on
-- which it panics.
use p2pool_salvium_observer.Prelude.{
  ℕ, ◌+◌, ◌≤◌, ◌<◌, ◌≡◌, refl, List, [], ◌++◌, arith, length, length-append, false, ltb,
  le→ltb_false,
}
use p2pool_salvium_observer.Word.Int.{pos, add_int-pos, ltb_ℤ}
use p2pool_salvium_observer.Share.{Share, zero_share}
use p2pool_salvium_observer.Outcome.{ok, panic}
use p2pool_salvium_observer.Reader.{slice_from}
use p2pool_salvium_observer.Reader.Runs.{
  length-At, At, FitsMemory, At-start, At-step, slice-At, slice_from-At, le_bytes32, le_uint32_lem,
  past_end-false, at_end-false,
}
use p2pool_salvium_observer.Parser.{
  parse_cache_entry, check_major_version, parse_mainchain_data, parse_sidechain_data,
}
use p2pool_salvium_observer.Parser.Wire.{IsHash, IsU32, IsWireSidechain, encode_sidechain_data}
use p2pool_salvium_observer.Parser.HeaderWire.{Header, IsWireHeader, encode_mainchain_data}
use p2pool_salvium_observer.Parser.Sidechain.{parse-encode_sidechain, sidechain_long}
use p2pool_salvium_observer.Parser.Mainchain.{parse-encode_mainchain, with_header}

abbrev pub encode_block : Share → Header → List ℕ → List ℕ
encode_block s h trailing = encode_mainchain_data s h (encode_sidechain_data s trailing)

-- The sidechain id, the length of the block, the block, and whatever stands behind it.
abbrev pub encode_entry : Share → Header → List ℕ → List ℕ → List ℕ
encode_entry s h trailing padding =
    s.sidechain_id
    ++ (le_bytes32 (length (encode_block s h trailing)) ++ (encode_block s h trailing ++ padding))

pub record IsWireEntry (s : Share) (h : Header) (trailing padding : List ℕ) : Type 0 where
  pub id : IsHash s.sidechain_id
  pub version_low : 1 ≤ s.major_version
  pub version_high : s.major_version ≤ 20
  pub header : IsWireHeader s h
  pub sidechain : IsWireSidechain s
  pub size : IsU32 (length (encode_block s h trailing))
  pub fits : FitsMemory (encode_entry s h trailing padding)

version_passes :
    (s : Share) (h : Header) (rest : List ℕ)
    → 1 ≤ s.major_version
    → s.major_version ≤ 20
    → check_major_version (encode_mainchain_data s h rest) ≡ ok tt
unfolding check_major_version
version_passes s h rest low high = ground arith

-- What the entry of a share parses to: the share, with the fields that the format does not carry
-- at their zero values.
abbrev pub carried : Share → Share
carried s = record s { depth = 0; verified = false; invalid = false }

abbrev entry : List ℕ → List ℕ → List ℕ → List ℕ
entry id block padding = id ++ (le_bytes32 (length block) ++ (block ++ padding))

-- The frame of an entry: the length is 36 bytes at least, and the slices hit the parts.
module _ (id block padding : List ℕ) (hid : IsHash id) where
  entry_long : ltb (length (entry id block padding)) 36 ≡ false
  entry_long = le→ltb_false _ _ (simp length-append (omega (arith, hid)))

  At-length : At (entry id block padding) 32 (le_bytes32 (length block) ++ (block ++ padding))
  At-length = rw hid at (
      At-step (entry id block padding) 0 id (le_bytes32 (length block) ++ (block ++ padding))
        (At-start (entry id block padding)))

  At-block : At (entry id block padding) 36 (block ++ padding)
  At-block =
      At-step (entry id block padding) 32 (le_bytes32 (length block)) (block ++ padding) At-length

  entry_runs :
      (k : ℕ) (mid result : Share) (rest : List ℕ)
      → IsU32 (length block)
      → FitsMemory (entry id block padding)
      → check_major_version block ≡ ok tt
      → parse_mainchain_data block (record zero_share { sidechain_id = id }) ≡ ok (pos k, mid)
      → k < length block
      → slice_from block (pos k) ≡ ok rest
      → parse_sidechain_data rest mid ≡ ok result
      → parse_cache_entry (entry id block padding) ≡ ok result
  unfolding parse_cache_entry
  entry_runs k mid result rest small fits version header inside tail_is sidechain =
      let end = At-step (entry id block padding) 36 block padding At-block in
      let nonneg : ltb_ℤ (pos k) (pos 0) ≡ false = ground arith in
      rw (
        entry_long,
        slice-At (entry id block padding) 0 32 id _ (At-start (entry id block padding))
            (omega (arith, hid)),
        slice-At (entry id block padding) 32 36 (le_bytes32 (length block)) (block ++ padding)
            At-length refl,
        le_uint32_lem (length block) [] small,
        add_int-pos 36 (length block) (omega arith),
        past_end-false (entry id block padding) (36 + length block) end.0,
        slice-At (entry id block padding) 36 (36 + length block) block padding At-block refl,
        version,
        header,
        nonneg,
        at_end-false block k inside,
        tail_is,
        sidechain,
      )

-- An entry of the cache that encodes a share and a header within the format parses back to that
-- share, whatever stands behind its sidechain data and behind its block, where a header with a
-- protocol transaction has version 10 or more, and one without has a lower version, or a number of
-- transactions other than 4, or hashes that begin with the encoding of a value other than 60.
pub parse-encode_entry :
    (s : Share) (h : Header) (trailing padding : List ℕ)
    → IsWireEntry s h trailing padding
    → parse_cache_entry (encode_entry s h trailing padding) ≡ ok (carried s)
parse-encode_entry s h trailing padding w =
    let block = encode_block s h trailing in
    let rest = encode_sidechain_data s trailing in
    let start = record zero_share { sidechain_id = s.sidechain_id } in
    let (k, e, a) = parse-encode_mainchain start s h rest w.header (omega (arith, w.size)) in
    let total = length-At block k rest a in
    let long = sidechain_long s trailing w.sidechain in
    entry_runs s.sidechain_id block padding w.id k (with_header start s) (carried s) rest w.size
      w.fits (version_passes s h rest w.version_low w.version_high) e (omega (arith, total, long))
      (slice_from-At block k rest a)
      (parse-encode_sidechain (with_header start s) s trailing w.sidechain refl
        (omega (arith, total, w.size)))

-- An entry whose length field is zero makes ParseCacheEntry panic, whatever its id of 32 bytes and
-- whatever follows.
pub empty_block_panics :
    (id padding : List ℕ)
    → IsHash id
    → FitsMemory (id ++ (le_bytes32 0 ++ padding))
    → parse_cache_entry (id ++ (le_bytes32 0 ++ padding)) ≡ panic
unfolding parse_cache_entry check_major_version
empty_block_panics id padding hid fits =
    let end = At-block id [] padding hid in
    rw (
      entry_long id [] padding hid,
      slice-At (entry id [] padding) 0 32 id _ (At-start _) (omega (arith, hid)),
      slice-At (entry id [] padding) 32 36 (le_bytes32 0) padding (At-length id [] padding hid)
          refl,
      le_uint32_lem 0 [] (omega arith),
      add_int-pos 36 0 (omega arith),
      past_end-false (entry id [] padding) 36 end.0,
      slice-At (entry id [] padding) 36 36 [] padding end refl,
    )
