-- ===== src/Api/Sanitize.antt =====
-- `salviumAddrRegex` and `sanitizeAddresses` (cmd/api/main.go).
pub mod Words
pub mod Matches
pub mod Addresses
use p2pool_salvium_observer.Prelude.{
  ℕ, ◌-◌, Bool, true, false, ◌&&◌, List, [], ◌∷◌, ◌++◌, length, take, drop, leb, ◌==◌,
  if◌then◌else◌,
}
use p2pool_salvium_observer.Api.Codes.{is_word, is_base58}

abbrev pub all_base58 : List ℕ → Bool
all_base58 [] = true
all_base58 (c ∷ s) = is_base58 c && all_base58 s

-- What stands between the boundaries of `\b(SC1[1-9A-HJ-NP-Za-km-z]{90,150})\b`.
unfoldable pub is_address : List ℕ → Bool
is_address (a ∷ b ∷ c ∷ s) =
    (a == b'S' && (b == b'C' && c == b'1'))
    && (all_base58 s && (leb 90 (length s) && leb (length s) 150))
is_address _ = false

-- The function that replaces a match: eight characters, three dots and the last eight.
unfoldable pub truncate_match : List ℕ → List ℕ
truncate_match addr =
    if leb (length addr) 19
    then addr
    else take 8 addr ++ (46 ∷ 46 ∷ 46 ∷ drop (length addr - 8) addr)

-- All the characters of a match are word characters and a boundary stands on each side, so a match
-- is a whole run of word characters.
unfoldable pub finish_word : List ℕ → List ℕ
finish_word word = if is_address word then truncate_match word else word

-- `word` is the run of word characters in front of the rest.
unfoldable pub sanitize_from : List ℕ → List ℕ → List ℕ
sanitize_from word [] = finish_word word
sanitize_from word (c ∷ s) =
    let longer = sanitize_from (word ++ (c ∷ [])) s in
    let closed = finish_word word ++ (c ∷ sanitize_from [] s) in
    if is_word c then longer else closed

unfoldable pub sanitize_addresses : List ℕ → List ℕ
sanitize_addresses text = sanitize_from [] text
