-- ===== src/Parser/Mainchain.antt =====
-- `parseMainchainData` and `ParseCacheEntry` (p2pool/parser.go) read back what the format writes.
use p2pool_salvium_observer.Prelude.{
  ℕ, ◌≡◌, refl, List, [], ◌∷◌, arith, length, length-append, false, ltb, le→ltb_false,
}
use p2pool_salvium_observer.Word.Int.{ℤ, pos}
use p2pool_salvium_observer.Word.{IsU64}
use p2pool_salvium_observer.Share.{Share}
use p2pool_salvium_observer.Outcome.{Result, Site, context, ok, ◌>>=◌}
use p2pool_salvium_observer.Reader.Runs.{
  At, Reads, Skips, FitsMemory, At-cons, At-start, hash-At, byte-At, uint32_le-At, index-At,
}
use p2pool_salvium_observer.Reader.Varint.{varint-At, length-groups}
use p2pool_salvium_observer.Parser.{parse_mainchain_data}
use p2pool_salvium_observer.Parser.HeaderWire.{
  Header, Outputs, full, compact, AreOutputs, IsWireHeader, encode_mainchain_data, output_count,
}
use p2pool_salvium_observer.Parser.Skipping.{
  run-At, sized-At, hash_run-At, output_body-At, protocol-At,
}

-- The fields of `old` with those of the header of `s`.
abbrev pub with_header : Share → Share → Share
with_header old s = record old {
  major_version = s.major_version;
  minor_version = s.minor_version;
  timestamp = s.timestamp;
  prev_id = s.prev_id;
  nonce = s.nonce;
  mainchain_height = s.mainchain_height;
}

long_enough :
    (s : Share) (h : Header) (rest : List ℕ)
    → IsWireHeader s h
    → ltb (length (encode_mainchain_data s h rest)) 40 ≡ false
long_enough s h rest w =
    le→ltb_false _ _ (simp length-append (omega (arith, w.prev_id, length-groups 9 s.timestamp)))

output_count-IsU64 : (os : Outputs) → AreOutputs os → IsU64 (output_count os)
output_count-IsU64 (full o os) v = omega (arith, v.1)
output_count-IsU64 (compact total size id) v = omega arith

-- A run that ends in an offset and a share.
abbrev Parses : List ℕ → Share → List ℕ → Result (ℤ × Share) → Type 0
Parses bytes s rest m = (k : ℕ) × (m ≡ ok (pos k, s)) × At bytes k rest

module _ (bytes : List ℕ) (result : Share) {end : List ℕ} where
  then-Parses :
      {A : Type 0} {v : A} {rest : List ℕ} (site : Site) (m : Result (A × ℤ))
      (f : A × ℤ → Result (ℤ × Share))
      → Reads bytes m v rest
      → ((k : ℕ) → At bytes k rest → Parses bytes result end (f (v, pos k)))
      → Parses bytes result end (context site m >>= f)
  then-Parses site m f (k, e, a) h = rw e (h k a)

  then_skipped :
      {rest : List ℕ} (m : Result ℤ) (f : ℤ → Result (ℤ × Share))
      → Skips bytes m rest
      → ((k : ℕ) → At bytes k rest → Parses bytes result end (f (pos k)))
      → Parses bytes result end (m >>= f)
  then_skipped m f (k, e, a) h = rw e (h k a)

  then_skipped_context :
      {rest : List ℕ} (site : Site) (m : Result ℤ) (f : ℤ → Result (ℤ × Share))
      → Skips bytes m rest
      → ((k : ℕ) → At bytes k rest → Parses bytes result end (f (pos k)))
      → Parses bytes result end (context site m >>= f)
  then_skipped_context site m f (k, e, a) h = rw e (h k a)

-- The header fields come back from their encoding, and the returned offset is where the rest
-- begins, with full or compact outputs, with a protocol transaction in version 10 or more, and
-- without one where the version is lower, or the number of transactions is not 4, or their hashes
-- begin with the encoding of a value other than 60.
pub parse-encode_mainchain :
    (old s : Share) (h : Header) (rest : List ℕ)
    → IsWireHeader s h
    → FitsMemory (encode_mainchain_data s h rest)
    → let bytes = encode_mainchain_data s h rest in
      (k : ℕ) × (parse_mainchain_data bytes old ≡ ok (pos k, with_header old s)) × At bytes k rest
unfolding parse_mainchain_data
parse-encode_mainchain old s h rest w fits =
    let bytes = encode_mainchain_data s h rest in
    let new = with_header old s in
    let a0 = At-start bytes in
    let a1 = At-cons bytes 0 _ _ a0 in
    rw
      (
        long_enough s h rest w,
        index-At bytes 0 s.major_version _ a0,
        index-At bytes 1 s.minor_version _ a1,
      )
      (then-Parses bytes new _ _ _ (varint-At bytes fits 2 _ _ w.timestamp (At-cons bytes 1 _ _ a1))
        λ k1 a1. then-Parses bytes new _ _ _ (hash-At bytes k1 _ _ fits w.prev_id a1) λ k2 a2.
          then-Parses bytes new _ _ _ (uint32_le-At bytes k2 _ _ fits w.nonce a2) λ k3 a3.
            then-Parses bytes new _ _ _ (byte-At bytes k3 4 _ fits a3) λ k4 a4.
              then-Parses bytes new _ _ _ (varint-At bytes fits k4 _ _ w.unlock a4) λ k5 a5.
                then-Parses bytes new _ _ _ (byte-At bytes k5 1 _ fits a5) λ k6 a6.
                  then-Parses bytes new _ _ _ (byte-At bytes k6 0xff _ fits a6) λ k7 a7.
                    then-Parses bytes new _ _ _ (varint-At bytes fits k7 _ _ w.height a7) λ k8 a8.
                      then-Parses bytes new _ _ _
                        (varint-At bytes fits k8 (output_count h.outputs) _
                          (output_count-IsU64 h.outputs w.outputs) a8)
                        λ k9 a9.
                          then_skipped bytes new _ _
                            (output_body-At bytes fits k9 h.outputs _ w.outputs a9)
                            λ k10 a10.
                              then-Parses bytes new _ _ _
                                (varint-At bytes fits k10 (length h.tx_extra) _
                                  (omega (arith, w.extra_count)) a10)
                                λ k11 a11.
                                  then_skipped_context bytes new _ _ _
                                    (sized-At bytes fits k11 h.tx_extra _ w.extra_count a11)
                                    λ k12 a12.
                                      then-Parses bytes new _ _ _
                                        (varint-At bytes fits k12 _ _ w.tx_type a12)
                                        λ k13 a13.
                                          then-Parses bytes new _ _ _
                                            (varint-At bytes fits k13 _ _ w.burnt a13)
                                            λ k14 a14.
                                              then_skipped_context bytes new _ _ _
                                                (run-At bytes fits k14 1 (h.rct_type ∷ []) _ refl
                                                  a14)
                                                λ k15 a15.
                                                  then_skipped bytes new _ _
                                                    (protocol-At bytes fits k15 s h h.protocol rest
                                                      w.protocol w.transaction_count a15)
                                                    λ k16 a16.
                                                      then-Parses bytes new _ _ _
                                                        (varint-At bytes fits k16
                                                          (length h.transactions) _
                                                          (omega (arith, w.transaction_count)) a16)
                                                        λ k17 a17.
                                                          then_skipped_context bytes new _ _ _
                                                            (hash_run-At bytes fits k17
                                                            h.transactions rest w.transactions
                                                            w.transaction_count a17)
                                                            λ k18 a18. (k18, refl, a18))
