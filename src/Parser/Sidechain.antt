-- ===== src/Parser/Sidechain.antt =====
-- `parseSidechainData` (p2pool/parser.go) reads back what the format writes.
use p2pool_salvium_observer.Prelude.{
  ℕ, ◌+◌, ◌^◌, ◌≤◌, ◌<◌, ◌≡◌, refl, sym, ◌∙◌, List, [], ◌∷◌, ◌++◌, none, arith, length, All,
  length-append, le→ltb_false, ltb, if◌then◌else◌,
}
use mathlib.Core.List.{append_assoc, append-nil}
use p2pool_salvium_observer.Word.Int.{pos, add_int-pos, int_of_u64-small}
use p2pool_salvium_observer.Share.{Hash, Share}
use p2pool_salvium_observer.Share.Keys.{lookup_hash, insert_hash}
use p2pool_salvium_observer.Outcome.{Site, ok, bind_ok, then_pass}
use p2pool_salvium_observer.Reader.Runs.{
  At, Reads, FitsMemory, At-start, then-Reads, then_context, past_end-false, At-step, hash-At,
  byte-At, slice-At, slice_from-At, le_bytes32, le_uint32_lem,
}
use p2pool_salvium_observer.Reader.Varint.{encode_varint, varint-At}
use p2pool_salvium_observer.Parser.{
  read_hashes, read_mm_extra, read_mm_extras, uint32_at, parse_sidechain_data, read_extra_buf,
}
use p2pool_salvium_observer.Parser.Wire.{
  IsHash, IsU32, IsExtra, AreFresh, IsWireSidechain, concat, encode_mm_extras, encode_words,
  encode_sidechain_data,
}

-- The entries of the merge mining data, put into a map one after the other.
abbrev insert_all : List (Hash × List ℕ) → List (Hash × List ℕ) → List (Hash × List ℕ)
insert_all m [] = m
insert_all m ((k, v) ∷ rest) = insert_all (insert_hash k v m) rest

module _ (bytes : List ℕ) (fits : FitsMemory bytes) where
  hashes-At :
      (site : ℕ → Site) (i n : ℕ) (hs : List Hash) (rest : List ℕ)
      → All IsHash hs
      → At bytes n (concat hs ++ rest)
      → Reads bytes (read_hashes site (length hs) bytes i (pos n)) hs rest
  unfolding read_hashes
  hashes-At site i n [] rest v a = (n, refl, a)
  hashes-At site i n (h ∷ hs) rest v a =
      let (k, e, a') =
        hash-At bytes n h (concat hs ++ rest) fits v.0
          (rw (append_assoc h (concat hs) rest) at a) in
      let (m, e', a'') = hashes-At site (i + 1) k hs rest v.1 a' in (m, rw (e, e'), a'')

  mm_extra-At :
      (i n : ℕ) (chain_id extra rest : List ℕ)
      → IsHash chain_id
      → length extra < 2 ^ 48
      → At bytes n (chain_id ++ (encode_varint (length extra) ++ (extra ++ rest)))
      → (k : ℕ) × (read_mm_extra bytes i (pos n) ≡ ok (chain_id, extra, pos k)) × At bytes k rest
  unfolding read_mm_extra
  mm_extra-At i n chain_id extra rest vc ve a =
      let (k, e, a') = hash-At bytes n chain_id _ fits vc a in
      let (m, e', a'') = varint-At bytes fits k (length extra) (extra ++ rest) (omega arith) a' in
      let next = At-step bytes m extra rest a'' in
      (
        m + length extra,
        rw (
          e,
          e',
          int_of_u64-small (length extra) (omega arith),
          add_int-pos m (length extra) (omega (arith, next.0)),
          past_end-false bytes (m + length extra) next.0,
          le→ltb_false (2 ^ 48) (length extra) (omega arith),
          slice-At bytes m (m + length extra) extra rest a'' refl,
        ),
        next,
      )

  mm_extras-At :
      (i n : ℕ) (extras acc : List (Hash × List ℕ)) (rest : List ℕ)
      → All IsExtra extras
      → At bytes n (encode_mm_extras extras ++ rest)
      → Reads bytes
          (read_mm_extras (length extras) bytes i (pos n) acc)
          (insert_all acc extras)
          rest
  unfolding read_mm_extras
  mm_extras-At i n [] acc rest v a = (n, refl, a)
  mm_extras-At i n ((c, x) ∷ extras) acc rest v a =
      let (k, e, a') =
        mm_extra-At i n c x (encode_mm_extras extras ++ rest) v.0.0 v.0.1
          (rw (append_assoc c, append_assoc (encode_varint (length x)), append_assoc x) at a) in
      let (m, e', a'') = mm_extras-At (i + 1) k extras (insert_hash c x acc) rest v.1 a' in
      (m, rw (e, e'), a'')

  word-At :
      (n v : ℕ) (rest : List ℕ)
      → IsU32 v
      → At bytes n (le_bytes32 v ++ rest)
      → uint32_at bytes (pos n) ≡ ok v
  unfolding uint32_at
  word-At n v rest h a = rw (slice_from-At bytes n _ a) (le_uint32_lem v rest h)

  words-At :
      (n a b c d : ℕ) (rest : List ℕ)
      → All IsU32 (a ∷ b ∷ c ∷ d ∷ [])
      → At bytes n (encode_words (a ∷ b ∷ c ∷ d ∷ []) ++ rest)
      → read_extra_buf bytes (pos n) ≡ ok (a ∷ b ∷ c ∷ d ∷ [])
  unfolding read_extra_buf
  words-At n a b c d rest h at0 =
      let at4 = At-step bytes n (le_bytes32 a) _ at0 in
      let at8 = At-step bytes n (le_bytes32 a ++ le_bytes32 b) _ at0 in
      let at12 = At-step bytes n (le_bytes32 a ++ (le_bytes32 b ++ le_bytes32 c)) _ at0 in
      let at16 =
        At-step bytes n (le_bytes32 a ++ (le_bytes32 b ++ (le_bytes32 c ++ le_bytes32 d))) _ at0 in
      let small : n + 16 < 2 ^ 63 = omega (arith, at16.0) in
      rw (
        add_int-pos n 16 small,
        add_int-pos n 4 (omega arith),
        add_int-pos n 8 (omega arith),
        add_int-pos n 12 (omega arith),
        past_end-false bytes (n + 16) at16.0,
        word-At n a _ h.0 at0,
        word-At (n + 4) b _ h.1.0 at4,
        word-At (n + 8) c _ h.1.1.0 at8,
        word-At (n + 12) d rest h.1.1.1.0 at12,
      )

-- With distinct keys the map holds the entries as they stand.
insert-absent :
    (k x : List ℕ) (m : List (Hash × List ℕ))
    → lookup_hash k m ≡ none
    → insert_hash k x m ≡ m ++ ((k, x) ∷ [])
insert-absent k x [] h = refl
insert-absent k x ((i, y) ∷ m) h = ground (arith, insert-absent k x m)

insert_all-fresh : (seen m : List (Hash × List ℕ)) → AreFresh seen m → insert_all seen m ≡ seen ++ m
insert_all-fresh seen [] h = sym (append-nil seen)
insert_all-fresh seen ((k, x) ∷ m) h =
    rw (insert-absent k x seen h.0)
      (insert_all-fresh (seen ++ ((k, x) ∷ [])) m h.1 ∙ append_assoc seen ((k, x) ∷ []) m)

-- The four words of `sidechainExtraBuf`.
buffer-At :
    (bytes : List ℕ) (fits : FitsMemory bytes) (n : ℕ) (ws rest : List ℕ)
    → length ws ≡ 4
    → All IsU32 ws
    → At bytes n (encode_words ws ++ rest)
    → read_extra_buf bytes (pos n) ≡ ok ws
buffer-At bytes fits n [] rest e h a = absurd (omega arith)
buffer-At bytes fits n (x ∷ []) rest e h a = absurd (omega arith)
buffer-At bytes fits n (x ∷ y ∷ []) rest e h a = absurd (omega arith)
buffer-At bytes fits n (x ∷ y ∷ z ∷ []) rest e h a = absurd (omega arith)
buffer-At bytes fits n (x ∷ y ∷ z ∷ u ∷ []) rest e h a = words-At bytes fits n x y z u rest h a
buffer-At bytes fits n (x ∷ y ∷ z ∷ u ∷ v ∷ ws) rest e h a = absurd (omega arith)

-- The map that the loop over the merge mining data begins with.
fresh_start :
    (count : ℕ) (old : List (Hash × List ℕ)) → old ≡ [] → (if ltb 0 count then [] else old) ≡ []
fresh_start count old e = ground arith

-- The four hashes alone are 128 bytes.
pub sidechain_long :
    (s : Share) (trailing : List ℕ)
    → IsWireSidechain s
    → 128 ≤ length (encode_sidechain_data s trailing)
sidechain_long s trailing w = simp length-append (omega (arith, w.spend, w.view, w.seed, w.parent))

-- The fields of `old` that belong to the header, with the sidechain fields of `s`.
abbrev pub with_sidechain : Share → Share → Share
with_sidechain old s = record old {
  miner_wallet = s.miner_wallet;
  txkey_sec_seed = s.txkey_sec_seed;
  parent = s.parent;
  uncles = s.uncles;
  sidechain_height = s.sidechain_height;
  difficulty = s.difficulty;
  cumulative_difficulty = s.cumulative_difficulty;
  merkle_proof = s.merkle_proof;
  merge_mining_extra = s.merge_mining_extra;
  sidechain_extra_buf = s.sidechain_extra_buf;
}

-- The sidechain fields of a share come back from their encoding, whatever follows it, into a share
-- whose merge mining map was empty.
pub parse-encode_sidechain :
    (old s : Share) (trailing : List ℕ)
    → IsWireSidechain s
    → old.merge_mining_extra ≡ []
    → FitsMemory (encode_sidechain_data s trailing)
    → parse_sidechain_data (encode_sidechain_data s trailing) old ≡ ok (with_sidechain old s)
unfolding parse_sidechain_data
parse-encode_sidechain old s trailing w empty fits =
    let bytes = encode_sidechain_data s trailing in
    then_pass _ _ _ (le→ltb_false _ _ (sidechain_long s trailing w)) (
      then_context bytes _ _ _ (hash-At bytes 0 _ _ fits w.spend (At-start bytes)) λ k1 a1.
        then_context bytes _ _ _ (hash-At bytes k1 _ _ fits w.view a1) λ k2 a2.
          then_context bytes _ _ _ (hash-At bytes k2 _ _ fits w.seed a2) λ k3 a3.
            then_context bytes _ _ _ (hash-At bytes k3 _ _ fits w.parent a3) λ k4 a4.
              then_context bytes _ _ _
                (varint-At bytes fits k4 _ _ (omega (arith, w.uncle_count)) a4)
                λ k5 a5. then_pass _ _ _ (le→ltb_false 10 (length s.uncles) w.uncle_count) (
                  then-Reads bytes _ _ (hashes-At bytes fits Site.uncle 0 k5 s.uncles _ w.uncles a5)
                    λ k6 a6.
                      then_context bytes _ _ _ (varint-At bytes fits k6 _ _ w.height a6) λ k7 a7.
                        then_context bytes _ _ _ (varint-At bytes fits k7 _ _ w.difficulty.0 a7)
                          λ k8 a8.
                            then_context bytes _ _ _ (varint-At bytes fits k8 _ _ w.difficulty.1 a8)
                              λ k9 a9.
                                then_context bytes _ _ _
                                  (varint-At bytes fits k9 _ _ w.cumulative.0 a9)
                                  λ k10 a10.
                                    then_context bytes _ _ _
                                      (varint-At bytes fits k10 _ _ w.cumulative.1 a10)
                                      λ k11 a11.
                                        then_context bytes _ _ _ (byte-At bytes k11 _ _ fits a11)
                                          λ k12 a12.
                                            then-Reads bytes _ _
                                              (hashes-At bytes fits Site.merkle_proof 0 k12
                                                s.merkle_proof _ w.proof a12)
                                              λ k13 a13.
                                                then_context bytes _ _ _
                                                  (varint-At bytes fits k13 _ _
                                                    (omega (arith, w.extra_count)) a13)
                                                  λ k14 a14.
                                                    then-Reads bytes _ _
                                                      (mm_extras-At bytes fits 0 k14
                                                        s.merge_mining_extra _ _ w.extra a14)
                                                      λ k15 a15.
                                                        bind_ok _ _
                                                          (buffer-At bytes fits k15
                                                            s.sidechain_extra_buf trailing
                                                            w.word_count w.words a15)
                                                          (rw (
                                                            fresh_start
                                                            (length s.merge_mining_extra)
                                                            old.merge_mining_extra empty,
                                                            insert_all-fresh [] s.merge_mining_extra
                                                            w.extra_keys,
                                                          ))))
