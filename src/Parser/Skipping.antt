-- ===== src/Parser/Skipping.antt =====
-- The parts of the mainchain data that the parser skips (p2pool/parser.go): outputs, the optional
-- protocol transaction, and runs of bytes with their length in front.
use mathlib.Core.List.{append_assoc}
use mathlib.Core.Path.{subst}
use p2pool_salvium_observer.Prelude.{
  ℕ, ◌+◌, ◌*◌, ◌^◌, ◌≤◌, ◌<◌, ◌≡◌, ◌≢◌, ◌⊎◌, refl, List, [], ◌∷◌, ◌++◌, Option, none, some, arith,
  length, All, length-append, true, false, leb, ◌==◌, ◌&&◌, lt→ltb, le→leb, inl, inr, Bool-cases,
}
use p2pool_salvium_observer.Word.{IsU64}
use p2pool_salvium_observer.Word.Int.{
  pos, add_int, add_int-pos, int_of_u64, int_of_u64-small, mul_int, ltb_ℤ,
}
use p2pool_salvium_observer.Share.{Hash, Share}
use p2pool_salvium_observer.Outcome.{ok}
use p2pool_salvium_observer.Reader.{skip_bytes, at_end, int_length}
use p2pool_salvium_observer.Reader.Runs.{
  At, Skips, FitsMemory, At-step, byte-At, skip-At, Reads-Skips, context-Skips, Skips-Skips,
  context-Skips-Skips, context_last,
}
use p2pool_salvium_observer.Reader.Varint.{encode_varint, varint-At, length-groups}
use p2pool_salvium_observer.Parser.{
  skip_output, skip_outputs, skip_compact, skip_protocol_outputs, protocol_tx, skip_protocol_tx,
  skip_all_outputs, skip_optional_tx,
}
use p2pool_salvium_observer.Parser.Wire.{IsHash, concat}
use p2pool_salvium_observer.Parser.HeaderWire.{
  Output, Outputs, full, compact, Protocol, ProtocolOutput, Header, IsOutput, AreOutputs,
  IsProtocolOutput, IsProtocol, IsUnambiguous, encode_output, encode_output_list,
  encode_protocol_outputs, encode_protocol, encode_optional, encode_output_body, output_count,
}

pub length-concat : (hs : List Hash) → All IsHash hs → length (concat hs) ≡ length hs * 32
length-concat [] v = refl
length-concat (h ∷ hs) v = omega (arith, length-append h (concat hs), length-concat hs v.1, v.0)

module _ (bytes : List ℕ) (fits : FitsMemory bytes) where
  -- `SkipBytes` over a run of known length.
  pub run-At :
      (n k : ℕ) (xs rest : List ℕ)
      → length xs ≡ k
      → At bytes n (xs ++ rest)
      → Skips bytes (skip_bytes bytes (pos n) (pos k)) rest
  run-At n k xs rest e a = rw e at (skip-At bytes n xs rest fits a)

  -- `SkipBytes(data, offset, int(size))` with the size that stands in front of the run.
  pub sized-At :
      (n : ℕ) (xs rest : List ℕ)
      → length xs < 2 ^ 48
      → At bytes n (xs ++ rest)
      → Skips bytes (skip_bytes bytes (pos n) (int_of_u64 (length xs))) rest
  sized-At n xs rest h a =
      rw (int_of_u64-small (length xs) (omega arith)) (skip-At bytes n xs rest fits a)

  pub hash_run-At :
      (n : ℕ) (hs : List Hash) (rest : List ℕ)
      → All IsHash hs
      → length hs < 2 ^ 48
      → At bytes n (concat hs ++ rest)
      → Skips bytes (skip_bytes bytes (pos n) (mul_int (int_of_u64 (length hs)) 32)) rest
  hash_run-At n hs rest v h a =
      let small : mul_int (int_of_u64 (length hs)) 32 ≡ pos (length hs * 32) = ground arith in
      rw small (run-At n (length hs * 32) (concat hs) rest (length-concat hs v) a)

  output-At :
      (i n : ℕ) (o : Output) (rest : List ℕ)
      → IsOutput o
      → At bytes n (encode_output o rest)
      → Skips bytes (skip_output bytes i (pos n)) rest
  unfolding skip_output
  output-At i n o rest v a =
      context-Skips bytes _ _ _ (varint-At bytes fits n _ _ v.reward a) λ k1 a1.
        context-Skips-Skips bytes _ _ _ (run-At k1 1 (o.output_type ∷ []) _ refl a1) λ k2 a2.
          context-Skips-Skips bytes _ _ _ (run-At k2 32 o.key _ v.key a2) λ k3 a3.
            context-Skips bytes _ _ _ (byte-At bytes k3 _ _ fits a3) λ k4 a4.
              context-Skips-Skips bytes _ _ _ (run-At k4 (length o.asset) o.asset _ refl a4)
                λ k5 a5.
                  context-Skips-Skips bytes _ _ _ (run-At k5 3 o.view_tag _ v.view_tag a5)
                    λ k6 a6. context_last bytes rest _ _ (run-At k6 16 o.anchor rest v.anchor a6)

  output_list-At :
      (i n : ℕ) (os : List Output) (rest : List ℕ)
      → All IsOutput os
      → At bytes n (encode_output_list os rest)
      → Skips bytes (skip_outputs (length os) bytes i (pos n)) rest
  unfolding skip_outputs
  output_list-At i n [] rest v a = (n, refl, a)
  output_list-At i n (o ∷ os) rest v a =
      Skips-Skips bytes _ _ (output-At i n o _ v.0 a)
        λ k a1. output_list-At (i + 1) k os rest v.1 a1

  compact-At :
      (n total size : ℕ) (id rest : List ℕ)
      → IsU64 total
      → IsU64 size
      → IsHash id
      → At bytes n (encode_varint total ++ (encode_varint size ++ (id ++ rest)))
      → Skips bytes (skip_compact bytes (pos n)) rest
  unfolding skip_compact
  compact-At n total size id rest ht hs hi a =
      context-Skips bytes _ _ _ (varint-At bytes fits n _ _ ht a) λ k1 a1.
        context-Skips bytes _ _ _ (varint-At bytes fits k1 _ _ hs a1)
          λ k2 a2. context_last bytes rest _ _ (run-At k2 32 id rest hi a2)

  protocol_outputs-At :
      (n : ℕ) (os : List ProtocolOutput) (rest : List ℕ)
      → All IsProtocolOutput os
      → At bytes n (encode_protocol_outputs os rest)
      → Skips bytes (skip_protocol_outputs (length os) bytes (pos n)) rest
  unfolding skip_protocol_outputs
  protocol_outputs-At n [] rest v a = (n, refl, a)
  protocol_outputs-At n ((amount, key) ∷ os) rest v a =
      Reads-Skips bytes _ _ (varint-At bytes fits n amount _ v.0.0 a) λ k1 a1.
        Skips-Skips bytes _ _ (run-At k1 33 key _ v.0.1 a1)
          λ k2 a2. protocol_outputs-At k2 os rest v.1 a2

  protocol_tx-At :
      (n : ℕ) (p : Protocol) (rest : List ℕ)
      → IsProtocol p
      → At bytes n (encode_protocol p rest)
      → Skips bytes (protocol_tx bytes (pos n)) rest
  unfolding protocol_tx
  protocol_tx-At n p rest v a =
      Reads-Skips bytes _ _ (varint-At bytes fits n 4 _ (omega arith) a) λ k1 a1.
        Reads-Skips bytes _ _ (varint-At bytes fits k1 60 _ (omega arith) a1) λ k2 a2.
          Reads-Skips bytes _ _ (varint-At bytes fits k2 1 _ (omega arith) a2) λ k3 a3.
            Reads-Skips bytes _ _ (byte-At bytes k3 0xff _ fits a3) λ k4 a4.
              Reads-Skips bytes _ _ (varint-At bytes fits k4 _ _ v.height a4) λ k5 a5.
                Reads-Skips bytes _ _
                  (varint-At bytes fits k5 (length p.outputs) _ (omega (arith, v.output_count)) a5)
                  λ k6 a6.
                    Skips-Skips bytes _ _ (protocol_outputs-At k6 p.outputs _ v.outputs a6) λ k7 a7.
                      Reads-Skips bytes _ _
                        (varint-At bytes fits k7 (length p.extra) _ (omega (arith, v.extra_count))
                          a7)
                        λ k8 a8.
                          Skips-Skips bytes _ _ (sized-At k8 p.extra _ v.extra_count a8) λ k9 a9.
                            Reads-Skips bytes _ _ (varint-At bytes fits k9 _ _ v.protocol_type a9)
                              λ k10 a10. run-At k10 1 (p.rct ∷ []) rest refl a10

  pub output_body-At :
      (n : ℕ) (os : Outputs) (rest : List ℕ)
      → AreOutputs os
      → At bytes n (encode_output_body os rest)
      → Skips bytes (skip_all_outputs (output_count os) bytes (pos n)) rest
  unfolding skip_all_outputs
  output_body-At n (full o os) rest v a =
      rw (lt→ltb 0 (length (o ∷ os)) (omega arith)) (output_list-At 0 n (o ∷ os) rest v.0 a)
  output_body-At n (compact total size id) rest v a = compact-At n total size id rest v.0 v.1 v.2 a

  -- With no protocol transaction the offset stays where it is.
  absent-At :
      (n major : ℕ) (hs : List Hash) (rest : List ℕ)
      → (major < 10)
        ⊎ (length hs ≢ 4)
        ⊎ ((v : ℕ) × (tail : List ℕ) × (concat hs ≡ encode_varint v ++ tail) × IsU64 v × (v ≢ 60))
      → length hs < 2 ^ 48
      → At bytes n (encode_varint (length hs) ++ (concat hs ++ rest))
      → skip_optional_tx major bytes (pos n) ≡ ok (pos n)
  unfolding skip_optional_tx skip_protocol_tx protocol_tx
  absent-At n major hs rest (inl old) small a = ground (arith)
  absent-At n major hs rest (inr (inl ne)) small a =
      let (k, e, _) = varint-At bytes fits n (length hs) (concat hs ++ rest) (omega arith) a in
      let other : (length hs == 4) ≡ false = ground arith in
      elim (Bool-cases (leb 10 major && ltb_ℤ (add_int (pos n) (pos 2)) (int_length bytes))) [
        | inl test ↦ rw test (elim (Bool-cases (at_end bytes (add_int (pos n) (pos 2)))) [
          | inl short ↦ rw short
          | inr long ↦ rw (long, e, other)
        ])
        | inr short ↦ rw short
      ]
  absent-At n major hs rest (inr (inr (v, tail, begins, v-small, ne))) small a =
      let (k, e, a') = varint-At bytes fits n (length hs) (concat hs ++ rest) (omega arith) a in
      let a2 : At bytes k (encode_varint v ++ (tail ++ rest)) =
        subst (λ l. At bytes k l) (append_assoc (encode_varint v) tail rest)
          (subst (λ l. At bytes k (l ++ rest)) begins a') in
      let (k', e', _) = varint-At bytes fits k v (tail ++ rest) v-small a2 in
      let other : (v == 60) ≡ false = ground arith in
      elim (Bool-cases (leb 10 major && ltb_ℤ (add_int (pos n) (pos 2)) (int_length bytes))) [
        | inl test ↦ rw test (elim (Bool-cases (at_end bytes (add_int (pos n) (pos 2)))) [
          | inl short ↦ rw short
          | inr long ↦ elim (Bool-cases (length hs == 4)) [
            | inl four ↦ rw (long, e, four, e', other)
            | inr unlike ↦ rw (long, e, unlike)
          ]
        ])
        | inr short ↦ rw short
      ]

  present-At :
      (n major : ℕ) (p : Protocol) (rest : List ℕ)
      → 10 ≤ major
      → IsProtocol p
      → At bytes n (encode_protocol p rest)
      → Skips bytes (skip_optional_tx major bytes (pos n)) rest
  unfolding skip_optional_tx skip_protocol_tx
  present-At n major p rest new v a =
      let (k, e, a') = protocol_tx-At n p rest v a in
      let a1 = At-step bytes n (encode_varint 4) _ a in
      let a2 = At-step bytes (n + length (encode_varint 4)) (encode_varint 60) _ a1 in
      let room : n + 2 < length bytes = omega (
        arith,
        length-groups 9 4,
        length-groups 9 60,
        length-groups 9 1,
        (At-step bytes (n + length (encode_varint 4) + length (encode_varint 60)) (encode_varint 1)
            _ a2).0,
      ) in
      let inside : ltb_ℤ (pos (n + 2)) (int_length bytes) ≡ true = ground arith in
      (k, rw (le→leb 10 major new, add_int-pos n 2 (omega arith), inside, e), a')

  pub protocol-At :
      (n : ℕ) (s : Share) (h : Header) (p : Option Protocol) (rest : List ℕ)
      → IsUnambiguous s h p
      → length h.transactions < 2 ^ 48
      → At bytes n (
          encode_optional p
            (encode_varint (length h.transactions) ++ (concat h.transactions ++ rest)))
      → Skips bytes
          (skip_optional_tx s.major_version bytes (pos n))
          (encode_varint (length h.transactions) ++ (concat h.transactions ++ rest))
  protocol-At n s h none rest v small a =
      (n, absent-At n s.major_version h.transactions rest v small a, a)
  protocol-At n s h (some p) rest v small a = present-At n s.major_version p _ v.0 v.1 a
