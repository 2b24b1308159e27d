-- ===== src/Daemon/Entries/RoundTrip.antt =====
-- The entries of `p2pool:found_blocks` are read back as the blocks that they were printed from.
use mathlib.Core.List.{append_assoc, append-nil}
use p2pool_salvium_observer.Prelude.{
  ℕ, ◌+◌, ◌<◌, ◌≡◌, ◌≢◌, length, length-append, refl, ap, ◌∙◌, true, false, none, some, [], ◌∷◌,
  ◌++◌, arith, lt→ltb, le→leb, ◌==◌, All, ◌^◌, sym,
}
use p2pool_salvium_observer.Word.Int.{ℤ, pos, negsuc}
use p2pool_salvium_observer.Daemon.{Text, FoundBlock}
use p2pool_salvium_observer.Daemon.Decimal.{
  print_uint, print_int, is_digit, starts_digit, scan_digits, print_uint_lem,
}
use p2pool_salvium_observer.Daemon.Entries.{
  is_space, is_blank, print_entry, skip_spaces, scan_number, scan_uint, scan_signed, scan_int,
  split_word, scan_word, scan_four, scan_five, parse_entry, ends_field, nonneg, negative, ◌>>=◌,
}

-- A word: some characters of ASCII, none of them white space.
abbrev pub IsWord : Text → Type 0
IsWord [] = ⊥
IsWord (c ∷ word) = All (λ b. (b < 128) × (is_space b ≡ false)) (c ∷ word)

blank_space : (c : ℕ) → is_blank c ≡ true → is_space c ≡ true
blank_space c h = ground arith

no_blank : (c : ℕ) → is_space c ≡ false → is_blank c ≡ false
no_blank c h = ground arith

-- The words of the entry end where the rest begins.
split_word-append :
    (word rest : Text)
    → All (λ b. (b < 128) × (is_space b ≡ false)) word
    → ends_field rest ≡ true
    → split_word (word ++ rest) ≡ (word, rest)
unfolding split_word
split_word-append [] [] w e = refl
split_word-append [] (c ∷ rest) w e = rw (blank_space c e) refl
split_word-append (c ∷ word) rest ((_, p), w) e = rw (p, split_word-append word rest w e) refl

scan_word-append :
    (word rest : Text)
    → IsWord word
    → ends_field rest ≡ true
    → scan_word (32 ∷ (word ++ rest)) ≡ some (word, rest)
unfolding scan_word skip_spaces
scan_word-append [] rest w e = elim w [ ]
scan_word-append (c ∷ word) rest ((low, p), w) e =
    rw (no_blank c p, split_word-append (c ∷ word) rest ((low, p), w) e) refl

-- A digit is no blank, and no sign.
digit_not_blank : (c : ℕ) → is_digit c ≡ true → is_blank c ≡ false
digit_not_blank c h = ground arith

skip-blank : (s : Text) → skip_spaces (32 ∷ s) ≡ skip_spaces s
unfolding skip_spaces
skip-blank s = refl

skip-minus : (s : Text) → skip_spaces (45 ∷ s) ≡ 45 ∷ s
unfolding skip_spaces
skip-minus s = refl

negative_lem : (n : ℕ) (rest : Text) → n < 2 ^ 63 → negative (n + 1, rest) ≡ some (negsuc n, rest)
negative_lem n rest small =
    let nonzero : (n + 1 == 0) ≡ false = ground arith in
    rw (nonzero, le→leb (n + 1) (2 ^ 63) (omega (arith, small)))
      (ap (λ m. some (negsuc m, rest)) (omega arith))

pub skip-digit : (s : Text) → starts_digit s ≡ true → skip_spaces s ≡ s
unfolding skip_spaces
skip-digit (c ∷ s) h = rw (digit_not_blank c h) refl
skip-digit [] h = refl

blank_not_digit : (c : ℕ) → is_blank c ≡ true → is_digit c ≡ false
blank_not_digit c h = ground arith

scan_digits-end : (rest : Text) (n : ℕ) → ends_field rest ≡ true → scan_digits rest n ≡ (n, rest)
unfolding scan_digits
scan_digits-end [] n ends = refl
scan_digits-end (c ∷ rest) n ends = rw (blank_not_digit c ends) refl

scan_number-print :
    (n : ℕ) (rest : Text)
    → n < 2 ^ 64
    → ends_field rest ≡ true
    → scan_number (print_uint n ++ rest) ≡ some (n, rest)
unfolding scan_number
scan_number-print n rest small ends =
    let (starts, scanned) = print_uint_lem n rest small in
    rw (starts, scanned, scan_digits-end rest n ends, ends) refl

scan_uint-print :
    (n : ℕ) (rest : Text)
    → n < 2 ^ 64
    → ends_field rest ≡ true
    → scan_uint (32 ∷ (print_uint n ++ rest)) ≡ some (n, rest)
unfolding scan_uint
scan_uint-print n rest small ends =
    let skipped : skip_spaces (32 ∷ (print_uint n ++ rest)) ≡ print_uint n ++ rest =
      skip-blank (print_uint n ++ rest)
      ∙ skip-digit (print_uint n ++ rest) (print_uint_lem n rest small).0 in
    rw (skipped, scan_number-print n rest small ends, lt→ltb n (2 ^ 64) small) refl

-- A number that an int64 holds.
abbrev pub IsInt64 : ℤ → Type 0
IsInt64 (pos n) = n < 2 ^ 63
IsInt64 (negsuc n) = n < 2 ^ 63

digit_not_sign : (c : ℕ) → is_digit c ≡ true → ((c == 45) ≡ false) × ((c == 43) ≡ false)
digit_not_sign c h = (ground arith, ground arith)

scan_signed-digit : (s : Text) → starts_digit s ≡ true → scan_signed s ≡ (scan_number s >>= nonneg)
unfolding scan_number
scan_signed-digit [] h = refl
scan_signed-digit (c ∷ s) h =
    let (no_minus, no_plus) = digit_not_sign c h in rw (no_minus, no_plus) refl

scan_int-print :
    (i : ℤ) (rest : Text)
    → IsInt64 i
    → ends_field rest ≡ true
    → scan_int (print_int i ++ rest) ≡ some (i, rest)
unfolding scan_int print_int
scan_int-print (pos n) rest small ends =
    let starts = (print_uint_lem n rest (omega (arith, small))).0 in
    rw
      (
        skip-digit (print_uint n ++ rest) starts,
        scan_signed-digit (print_uint n ++ rest) starts,
        scan_number-print n rest (omega (arith, small)) ends,
        lt→ltb n (2 ^ 63) small,
      )
      refl
scan_int-print (negsuc n) rest small ends =
    let minus : skip_spaces (45 ∷ (print_uint (n + 1) ++ rest))
        ≡ 45 ∷ (print_uint (n + 1) ++ rest) =
      skip-minus (print_uint (n + 1) ++ rest) in
    rw (minus, scan_number-print (n + 1) rest (omega (arith, small)) ends)
      (negative_lem n rest small)

-- The fields that a printed entry is read back from.
abbrev pub IsEntry : FoundBlock → Type 0
IsEntry fb = IsInt64 fb.timestamp × (fb.height < 2 ^ 64) × IsWord fb.hash × IsWord fb.difficulty

-- The first four fields and the blank behind them.
abbrev first_four : FoundBlock → Text → Text
first_four fb rest =
    print_int fb.timestamp
    ++ (32 ∷ (print_uint fb.height ++ (32 ∷ (fb.hash ++ (32 ∷ (fb.difficulty ++ rest))))))

-- A block as `loadFoundBlocks` leaves it before the finder is looked up.
abbrev pub unrewarded : FoundBlock → Text → FoundBlock
unrewarded fb total_hashes = record fb { total_hashes = total_hashes; reward = 0; finder = [] }

scan_four-first :
    (fb : FoundBlock) (rest : Text)
    → IsEntry fb
    → ends_field rest ≡ true
    → scan_four (first_four fb rest) ≡ some (unrewarded fb [], rest)
unfolding scan_four
scan_four-first fb rest (time, height, hash, difficulty) ends =
    rw
      (
        scan_int-print fb.timestamp
            (32 ∷ (print_uint fb.height ++ (32 ∷ (fb.hash ++ (32 ∷ (fb.difficulty ++ rest)))))) time
            refl,
        scan_uint-print fb.height (32 ∷ (fb.hash ++ (32 ∷ (fb.difficulty ++ rest)))) height refl,
        scan_word-append fb.hash (32 ∷ (fb.difficulty ++ rest)) hash refl,
        scan_word-append fb.difficulty rest difficulty ends,
      )
      refl

-- A found block whose timestamp fits int64, whose height fits uint64 and whose hash, difficulty and
-- total are words of ASCII characters without white space is read back from its printed entry, but
-- for the reward and the finder.
pub parse-print_entry :
    (fb : FoundBlock)
    → IsEntry fb
    → IsWord fb.total_hashes
    → parse_entry (print_entry fb) ≡ some (unrewarded fb fb.total_hashes)
unfolding parse_entry print_entry scan_five
parse-print_entry fb entry total =
    let last : scan_word (32 ∷ fb.total_hashes) ≡ some (fb.total_hashes, []) =
      ap (λ s. scan_word (32 ∷ s)) (sym (append-nil fb.total_hashes))
      ∙ scan_word-append fb.total_hashes [] total refl in
    rw (scan_four-first fb (32 ∷ fb.total_hashes) entry refl, last) refl

-- An older entry, without the fifth field.
abbrev pub older_entry : FoundBlock → Text
older_entry fb = first_four fb []

scan_word-nil : scan_word [] ≡ none
unfolding scan_word skip_spaces split_word
scan_word-nil = refl

older_longer : (fb : FoundBlock) → first_four fb (32 ∷ []) ≡ older_entry fb ++ (32 ∷ [])
older_longer fb =
    rw
      (
        append_assoc (print_int fb.timestamp),
        append_assoc (print_uint fb.height),
        append_assoc fb.hash,
        append_assoc fb.difficulty,
      )
      refl

longer : (s : Text) → length (s ++ (32 ∷ [])) ≢ length s
longer s h = omega (arith, length-append s (32 ∷ []), h)

-- For a block whose timestamp fits int64, whose height fits uint64 and whose hash and difficulty
-- are words of ASCII characters without white space, an entry of four fields is read as the block
-- with an empty total, and the entry that is printed for this block is another one than the entry
-- that was read.
pub parse-older_entry :
    (fb : FoundBlock)
    → IsEntry fb
    → (parse_entry (older_entry fb) ≡ some (unrewarded fb []))
      × (print_entry (unrewarded fb []) ≢ older_entry fb)
unfolding parse_entry print_entry scan_five
parse-older_entry fb entry = (
  rw (scan_four-first fb [] entry refl, scan_word-nil) refl,
  λ same. longer (older_entry fb) (ap length (sym (older_longer fb) ∙ same)),
)
