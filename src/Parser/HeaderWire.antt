-- ===== src/Parser/HeaderWire.antt =====
-- The mainchain part of a cache entry as the comments of `parseMainchainData` and `skipProtocolTx`
-- (p2pool/parser.go) describe it, written as an encoder.
use p2pool_salvium_observer.Prelude.{
  ℕ, ◌^◌, ◌≤◌, ◌<◌, ◌≡◌, ◌≢◌, ◌⊎◌, List, [], ◌∷◌, ◌++◌, Option, none, some, length, All,
}
use p2pool_salvium_observer.Word.{IsU64}
use p2pool_salvium_observer.Share.{Hash, Share}
use p2pool_salvium_observer.Reader.Runs.{le_bytes32}
use p2pool_salvium_observer.Reader.Varint.{encode_varint}
use p2pool_salvium_observer.Parser.Wire.{IsHash, IsU32, concat}

-- A Carrot v1 output: reward, type, K_o, asset with its length in front, view tag, anchor.
pub record Output : Type 0 where
  pub reward : ℕ
  pub output_type : ℕ
  pub key : Hash
  pub asset : List ℕ
  pub view_tag : List ℕ
  pub anchor : List ℕ

-- The outputs in full, or in the compact form that leaves them out.
pub data Outputs : Type 0 where
  full : Output → List Output → Outputs
  compact : ℕ → ℕ → Hash → Outputs

-- An output of the protocol transaction: amount, and type and key in 33 bytes.
abbrev pub ProtocolOutput : Type 0
ProtocolOutput = ℕ × List ℕ

pub record Protocol : Type 0 where
  pub height : ℕ
  pub outputs : List ProtocolOutput
  pub extra : List ℕ
  pub protocol_type : ℕ
  pub rct : ℕ

-- What the header holds beside the fields of the share.
pub record Header : Type 0 where
  pub unlock_height : ℕ
  pub outputs : Outputs
  pub tx_extra : List ℕ
  pub tx_type : ℕ
  pub amount_burnt : ℕ
  pub rct_type : ℕ
  pub protocol : Option Protocol
  pub transactions : List Hash

abbrev pub encode_output : Output → List ℕ → List ℕ
encode_output o rest =
    encode_varint o.reward
    ++ (o.output_type
        ∷ (o.key ++ (length o.asset ∷ (o.asset ++ (o.view_tag ++ (o.anchor ++ rest))))))

abbrev pub encode_output_list : List Output → List ℕ → List ℕ
encode_output_list [] rest = rest
encode_output_list (o ∷ os) rest = encode_output o (encode_output_list os rest)

-- `num_outputs`, which is 0 in the compact form, and what follows it.
abbrev pub output_count : Outputs → ℕ
output_count (full o os) = length (o ∷ os)
output_count (compact total size id) = 0

abbrev pub encode_output_body : Outputs → List ℕ → List ℕ
encode_output_body (full o os) rest = encode_output_list (o ∷ os) rest
encode_output_body (compact total size id) rest =
    encode_varint total ++ (encode_varint size ++ (id ++ rest))

abbrev pub encode_outputs : Outputs → List ℕ → List ℕ
encode_outputs os rest = encode_varint (output_count os) ++ encode_output_body os rest

abbrev pub encode_protocol_outputs : List ProtocolOutput → List ℕ → List ℕ
encode_protocol_outputs [] rest = rest
encode_protocol_outputs ((amount, key) ∷ os) rest =
    encode_varint amount ++ (key ++ encode_protocol_outputs os rest)

abbrev pub encode_protocol : Protocol → List ℕ → List ℕ
encode_protocol p rest =
    encode_varint 4
    ++ (encode_varint 60
        ++ (encode_varint 1
            ++ (0xff
                ∷ (encode_varint p.height
                    ++ (encode_varint (length p.outputs)
                        ++ encode_protocol_outputs p.outputs (
                            encode_varint (length p.extra)
                            ++ (p.extra ++ (encode_varint p.protocol_type ++ (p.rct ∷ rest)))))))))

abbrev pub encode_optional : Option Protocol → List ℕ → List ℕ
encode_optional none rest = rest
encode_optional (some p) rest = encode_protocol p rest

abbrev pub encode_mainchain_data : Share → Header → List ℕ → List ℕ
encode_mainchain_data s h rest =
    s.major_version
    ∷ s.minor_version
    ∷ (encode_varint s.timestamp
        ++ (s.prev_id
            ++ (le_bytes32 s.nonce
                ++ (4
                    ∷ (encode_varint h.unlock_height
                        ++ (1
                            ∷ 0xff
                            ∷ (encode_varint s.mainchain_height
                                ++ encode_outputs h.outputs (
                                    encode_varint (length h.tx_extra)
                                    ++ (h.tx_extra
                                        ++ (encode_varint h.tx_type
                                            ++ (encode_varint h.amount_burnt
                                                ++ (h.rct_type
                                                    ∷ encode_optional h.protocol (
                                                        encode_varint (length h.transactions)
                                                        ++ (concat h.transactions
                                                            ++ rest))))))))))))))

pub record IsOutput (o : Output) : Type 0 where
  pub reward : IsU64 o.reward
  pub key : IsHash o.key
  pub asset : length o.asset < 256
  pub view_tag : length o.view_tag ≡ 3
  pub anchor : length o.anchor ≡ 16

abbrev pub AreOutputs : Outputs → Type 0
AreOutputs (full o os) = All IsOutput (o ∷ os) × (length (o ∷ os) < 2 ^ 48)
AreOutputs (compact total size id) = IsU64 total × IsU64 size × IsHash id

abbrev pub IsProtocolOutput : ProtocolOutput → Type 0
IsProtocolOutput (amount, key) = IsU64 amount × (length key ≡ 33)

pub record IsProtocol (p : Protocol) : Type 0 where
  pub height : IsU64 p.height
  pub outputs : All IsProtocolOutput p.outputs
  pub output_count : length p.outputs < 2 ^ 48
  pub extra_count : length p.extra < 2 ^ 48
  pub protocol_type : IsU64 p.protocol_type

-- Where the parser can tell whether there is a protocol transaction: with one the version is at
-- least 10; with none the version is lower, or the number of transactions is not 4, or the hashes
-- begin with a value other than 60: a protocol transaction would begin with 4 and 60.
abbrev pub IsUnambiguous : Share → Header → Option Protocol → Type 0
IsUnambiguous s h none =
    (s.major_version < 10)
    ⊎ (length h.transactions ≢ 4)
    ⊎ ((v : ℕ) × (tail : List ℕ) × (concat h.transactions ≡ encode_varint v ++ tail)
        × IsU64 v
        × (v ≢ 60))
IsUnambiguous s h (some p) = (10 ≤ s.major_version) × IsProtocol p

pub record IsWireHeader (s : Share) (h : Header) : Type 0 where
  pub timestamp : IsU64 s.timestamp
  pub prev_id : IsHash s.prev_id
  pub nonce : IsU32 s.nonce
  pub height : IsU64 s.mainchain_height
  pub unlock : IsU64 h.unlock_height
  pub outputs : AreOutputs h.outputs
  pub extra_count : length h.tx_extra < 2 ^ 48
  pub tx_type : IsU64 h.tx_type
  pub burnt : IsU64 h.amount_burnt
  pub protocol : IsUnambiguous s h h.protocol
  pub transactions : All IsHash h.transactions
  pub transaction_count : length h.transactions < 2 ^ 48
