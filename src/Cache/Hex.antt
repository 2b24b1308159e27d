-- ===== src/Cache/Hex.antt =====
-- Hashes as hexadecimal (`Hash.String` of p2pool/types.go, `HashFromHex` of p2pool/cache.go), and
-- `GetShare` and `GetShareByHash`, which go through it.
use p2pool_salvium_observer.Prelude.{
  ℕ, ◌+◌, ◌-◌, ◌*◌, ◌/◌, ◌%◌, ◌<◌, ◌≡◌, refl, ap, ◌∙◌, Bool-cases, inl, inr, arith, false, ◌&&◌,
  ◌==◌, Option, none, some, List, [], ◌∷◌, map, length, take, drop, ltb, leb, if◌then◌else◌, All,
}
use p2pool_salvium_observer.Outcome.{Result, ok, ◌>>=◌}
use p2pool_salvium_observer.Share.{Hash, Share, bytes_eq}
use p2pool_salvium_observer.Share.Keys.{lookup_hash}
use p2pool_salvium_observer.Cache.{load_all_shares}

abbrev pub hex_digit : ℕ → ℕ
hex_digit n = if ltb n 10 then 48 + n else 87 + n

-- `hex.EncodeToString`
unfoldable pub hash_string : Hash → List ℕ
hash_string [] = []
hash_string (b ∷ bs) = hex_digit (b / 16) ∷ hex_digit (b % 16) ∷ hash_string bs

abbrev pub digit_value : ℕ → Option ℕ
digit_value c =
    if leb 48 c && leb c 57
    then some (c - 48)
    else if leb 97 c && leb c 102
    then some (c - 87)
    else if leb 65 c && leb c 70
    then some (c - 55)
    else none

abbrev pub byte_of : Option ℕ → Option ℕ → Option Hash → Option Hash
byte_of (some high) (some low) (some rest) = some ((high * 16 + low) ∷ rest)
byte_of (some high) (some low) none = none
byte_of (some high) none rest = none
byte_of none low rest = none

-- `hex.Decode`; an error is `none`.
unfoldable pub decode_hex : List ℕ → Option Hash
decode_hex [] = some []
decode_hex (c ∷ []) = none
decode_hex (c ∷ d ∷ rest) = byte_of (digit_value c) (digit_value d) (decode_hex rest)

-- `strings.ToLower` of ASCII, and `strings.TrimPrefix(s, "0x")`.
abbrev pub to_lower : ℕ → ℕ
to_lower c = if leb 65 c && leb c 90 then c + 32 else c

abbrev pub trim_prefix : List ℕ → List ℕ
trim_prefix s = if bytes_eq (take 2 s) (48 ∷ 120 ∷ []) then drop 2 s else s

-- Both errors of `HashFromHex` are `none`.
unfoldable pub hash_from_hex : List ℕ → Option Hash
hash_from_hex s =
    let t = map to_lower (trim_prefix s) in if length t == 64 then decode_hex t else none

-- `ok none` stands for the errors of an id that is no hash and of a share that is not there.
abbrev pub found_in : List (List ℕ) → Option Hash → Result (Option Share)
found_in values none = ok none
found_in values (some target_id) =
    load_all_shares values >>= λ shares. ok (lookup_hash target_id shares)

unfoldable pub get_share : List (List ℕ) → List ℕ → Result (Option Share)
get_share values sidechain_id_hex =
    found_in values (hash_from_hex (map to_lower (trim_prefix sidechain_id_hex)))

unfoldable pub get_share_by_hash : List (List ℕ) → Hash → Result (Option Share)
unfolding get_share
get_share_by_hash values sidechain_id = get_share values (hash_string sidechain_id)

digit_value-hex_digit : (n : ℕ) → n < 16 → digit_value (to_lower (hex_digit n)) ≡ some n
digit_value-hex_digit n h = ground arith

-- Lower case and decoding bring back the bytes that were printed.
pub decode_hex-hash_string :
    (h : Hash) → All (λ b. b < 256) h → decode_hex (map to_lower (hash_string h)) ≡ some h
unfolding decode_hex hash_string
decode_hex-hash_string [] v = refl
decode_hex-hash_string (b ∷ bs) v =
    rw
      (
        digit_value-hex_digit (b / 16) (omega (arith, v.0)),
        digit_value-hex_digit (b % 16) (omega arith),
        decode_hex-hash_string bs v.1,
      )
      (ap (λ x. some (x ∷ bs)) (omega arith))

to_lower-hex_digit : (n : ℕ) → n < 16 → to_lower (hex_digit n) ≡ hex_digit n
to_lower-hex_digit n h = ground arith

pub lower-hash_string :
    (h : Hash) → All (λ b. b < 256) h → map to_lower (hash_string h) ≡ hash_string h
unfolding hash_string
lower-hash_string [] v = refl
lower-hash_string (b ∷ bs) v =
    rw
      (
        to_lower-hex_digit (b / 16) (omega (arith, v.0)),
        to_lower-hex_digit (b % 16) (omega arith),
        lower-hash_string bs v.1,
      )
      refl

not_x : (n : ℕ) → n < 16 → (hex_digit n == 120) ≡ false
not_x n h = ground arith

pub no_prefix : (h : Hash) → trim_prefix (hash_string h) ≡ hash_string h
unfolding hash_string bytes_eq
no_prefix [] = refl
no_prefix (b ∷ bs) =
    rw (not_x (b % 16) (omega arith)) (elim (Bool-cases (hex_digit (b / 16) == 48)) [
      | inl zero_first ↦ rw zero_first refl
      | inr other ↦ rw other refl
    ])

length-hash_string : (h : Hash) → length (hash_string h) ≡ 2 * length h
unfolding hash_string
length-hash_string [] = refl
length-hash_string (b ∷ bs) = omega (arith, length-hash_string bs)

-- HashFromHex brings back a hash of 32 bytes from its String.
pub hash_from_hex-hash_string :
    (h : Hash) → length h ≡ 32 → All (λ b. b < 256) h → hash_from_hex (hash_string h) ≡ some h
unfolding hash_from_hex
hash_from_hex-hash_string h size v =
    let whole : length (hash_string h) ≡ 64 = length-hash_string h ∙ omega (arith, size) in
    rw (no_prefix h, lower-hash_string h v, whole)
      (rw (lower-hash_string h v) at (decode_hex-hash_string h v))

-- GetShareByHash for an id of 32 bytes is the lookup of that id in the map of LoadAllShares.
pub get_share_by_hash_lem :
    (values : List (List ℕ)) (id : Hash)
    → length id ≡ 32
    → All (λ b. b < 256) id
    → get_share_by_hash values id
      ≡ (load_all_shares values >>= λ shares. ok (lookup_hash id shares))
unfolding get_share_by_hash get_share
get_share_by_hash_lem values id size v =
    rw (no_prefix id, lower-hash_string id v, hash_from_hex-hash_string id size v) refl
