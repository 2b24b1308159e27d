-- ===== src/Daemon/Entries.antt =====
-- The entries of the Redis list `p2pool:found_blocks` (cmd/daemon/main.go), which the node writes as
-- "timestamp height hash difficulty total_hashes". `Sscanf` is modelled for texts of ASCII, of which
-- the node's entries are; the other runes that it takes for white space are not.
pub mod RoundTrip
use p2pool_salvium_observer.Prelude.{
  ℕ, ◌+◌, ◌-◌, ◌*◌, ◌^◌, Bool, true, false, ◌&&◌, ◌||◌, not, Option, none, some, List, [], ◌∷◌,
  ◌++◌, ltb, leb, ◌==◌, if◌then◌else◌,
}
use p2pool_salvium_observer.Word.Int.{ℤ, pos, negsuc}
use p2pool_salvium_observer.Daemon.{Text, FoundBlock}
use p2pool_salvium_observer.Daemon.Decimal.{print_uint, print_int, starts_digit, scan_digits}

-- White space of ASCII: tab, line feed, vertical tab, form feed, carriage return and blank.
abbrev pub is_space : ℕ → Bool
is_space c = c == 32 || leb 9 c && leb c 13

-- What a space of the format matches: a line break ends the scan with an error.
abbrev pub is_blank : ℕ → Bool
is_blank c = is_space c && not (c == 10)

-- The format of `fmt.Sprintf("%d %d %s %s %s", …)`.
unfoldable pub print_entry : FoundBlock → Text
print_entry fb =
    print_int fb.timestamp
    ++ (32
        ∷ (print_uint fb.height
            ++ (32 ∷ (fb.hash ++ (32 ∷ (fb.difficulty ++ (32 ∷ fb.total_hashes)))))))

infixl 5 ◌>>=◌
abbrev pub ◌>>=◌ : {A B : Type 0} → Option A → (A → Option B) → Option B
none >>= f = none
some a >>= f = f a

-- A line break that stops it is neither a digit nor part of a word, so that what reads on fails.
unfoldable pub skip_spaces : Text → Text
skip_spaces [] = []
skip_spaces (c ∷ s) = let rest = skip_spaces s in if is_blank c then rest else c ∷ s

-- The end of the text, or white space within the line, which the format asks for behind a number.
abbrev pub ends_field : Text → Bool
ends_field [] = true
ends_field (c ∷ s) = is_blank c

-- The digits of a number, and what follows behind them.
unfoldable pub scan_number : Text → Option (ℕ × Text)
scan_number s =
    if starts_digit s
    then (let (v, rest) = scan_digits s 0 in if ends_field rest then some (v, rest) else none)
    else none

-- `%d` into a uint64.
unfoldable pub scan_uint : Text → Option (ℕ × Text)
scan_uint s = scan_number (skip_spaces s) >>= λ r. if ltb r.0 (2 ^ 64) then some r else none

abbrev pub nonneg : ℕ × Text → Option (ℤ × Text)
nonneg (v, rest) = if ltb v (2 ^ 63) then some (pos v, rest) else none

abbrev pub negative : ℕ × Text → Option (ℤ × Text)
negative (v, rest) =
    if v == 0
    then some (pos 0, rest)
    else if leb v (2 ^ 63)
    then some (negsuc (v - 1), rest)
    else none

-- `%d` into an int64, with an optional sign.
abbrev pub scan_signed : Text → Option (ℤ × Text)
scan_signed [] = none
scan_signed (c ∷ s) =
    if c == 45
    then scan_number s >>= negative
    else if c == 43
    then scan_number s >>= nonneg
    else scan_number (c ∷ s) >>= nonneg

unfoldable pub scan_int : Text → Option (ℤ × Text)
scan_int s = scan_signed (skip_spaces s)

-- The text up to white space, and the rest.
unfoldable pub split_word : Text → Text × Text
split_word [] = ([], [])
split_word (c ∷ s) =
    let (word, rest) = split_word s in if is_space c then ([], c ∷ s) else (c ∷ word, rest)

abbrev pub nonempty : Text × Text → Option (Text × Text)
nonempty ([], rest) = none
nonempty (c ∷ word, rest) = some (c ∷ word, rest)

-- `%s`
unfoldable pub scan_word : Text → Option (Text × Text)
scan_word s = nonempty (split_word (skip_spaces s))

unfoldable pub scan_four : Text → Option (FoundBlock × Text)
scan_four s = do
  (timestamp, s) ← scan_int s
  (height, s) ← scan_uint s
  (hash, s) ← scan_word s
  (difficulty, s) ← scan_word s
  some (
    record {
      timestamp = timestamp;
      height = height;
      hash = hash;
      difficulty = difficulty;
      total_hashes = [];
      reward = 0;
      finder = [];
    },
    s,
  )

unfoldable pub scan_five : Text → Option FoundBlock
scan_five s = do
  (fb, s) ← scan_four s
  (total_hashes, s) ← scan_word s
  some (record fb { total_hashes = total_hashes })

abbrev pub or_older : Option FoundBlock → Option (FoundBlock × Text) → Option FoundBlock
or_older (some fb) older = some fb
or_older none none = none
or_older none (some r) = some r.0

-- The two attempts of `loadFoundBlocks`; `none` is an entry that is skipped.
unfoldable pub parse_entry : Text → Option FoundBlock
parse_entry s = or_older (scan_five s) (scan_four s)
