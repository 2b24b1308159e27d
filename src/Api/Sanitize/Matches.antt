-- ===== src/Api/Sanitize/Matches.antt =====
-- The text that `sanitizeAddresses` makes, against the matches of the regular expression.
use mathlib.Core.List.{append_assoc, append-nil}
use p2pool_salvium_observer.Prelude.{
  ℕ, ◌+◌, ◌-◌, ◌<◌, ◌≡◌, refl, sym, ap, ◌∙◌, true, false, List, [], ◌∷◌, ◌++◌, arith, length, take,
  drop, length-append, length-drop, length-take, Bool-cases, inl, inr, lt→leb_false,
}
use p2pool_salvium_observer.Api.Codes.{is_word}
use p2pool_salvium_observer.Api.Sanitize.{
  is_address, truncate_match, finish_word, sanitize_from, sanitize_addresses,
}
use p2pool_salvium_observer.Api.Sanitize.Words.{
  all_word, ends_in_word, begins_with_word, is_address-all_word, is_address-length,
  short-finish_word, from-word, from-boundary, truncate-length, from-length, all_word-take,
  all_word-drop, all_word-append, apart, append-boundary,
}

-- The regular expression matches `m` between `before` and `after`.
pub record IsMatch (before m after : List ℕ) : Type 0 where
  pub address : is_address m ≡ true
  pub left_boundary : ends_in_word before ≡ false
  pub right_boundary : begins_with_word after ≡ false

-- A run of word characters is sanitized as a whole.
sanitize-word : (w : List ℕ) → all_word w ≡ true → sanitize_from [] w ≡ finish_word w
unfolding sanitize_from
sanitize-word w h = ap (sanitize_from []) (sym (append-nil w)) ∙ from-word [] w [] h

dot_is_no_word : is_word 46 ≡ false
unfolding is_word
dot_is_no_word = refl

-- The shortened form of a match stays as it is.
sanitize-truncate_match :
    (m : List ℕ) → is_address m ≡ true → sanitize_from [] (truncate_match m) ≡ truncate_match m
unfolding truncate_match sanitize_from
sanitize-truncate_match m address =
    let long = is_address-length m address in
    let word = is_address-all_word m address in
    let first = take 8 m in
    let last = drop (length m - 8) m in
    let first_word = all_word-take 8 m word in
    let last_kept : sanitize_from [] last ≡ last =
      sanitize-word last (all_word-drop (length m - 8) m word)
      ∙ short-finish_word last (omega (arith, length-drop (length m - 8) m)) in
    let dots : sanitize_from [] (46 ∷ 46 ∷ 46 ∷ last) ≡ 46 ∷ 46 ∷ 46 ∷ last =
      rw (sanitize_from, dot_is_no_word, short-finish_word [] (omega arith), last_kept) refl in
    rw (lt→leb_false (length m) 19 (omega arith)) (
      from-word [] first (46 ∷ 46 ∷ 46 ∷ last) first_word
      ∙ from-boundary first (46 ∷ 46 ∷ 46 ∷ last) dot_is_no_word
      ∙ rw (dots, short-finish_word first (omega (arith, length-take 8 m (omega arith)))) refl)

sanitize-finish_word :
    (w : List ℕ) → all_word w ≡ true → sanitize_from [] (finish_word w) ≡ finish_word w
unfolding finish_word
sanitize-finish_word w word = elim (Bool-cases (is_address w)) [
  | inl address ↦ rw address (sanitize-truncate_match w address)
  | inr other ↦ rw other (sanitize-word w word ∙ rw (finish_word, other) refl)
]

-- What is sanitized stays as it is.
sanitize-sanitize_from :
    (w s : List ℕ) → all_word w ≡ true → sanitize_from [] (sanitize_from w s) ≡ sanitize_from w s
unfolding sanitize_from
sanitize-sanitize_from w [] word = sanitize-finish_word w word
sanitize-sanitize_from w (c ∷ s) word = elim (Bool-cases (is_word c)) [
  | inl here ↦
      rw here
        (sanitize-sanitize_from (w ++ (c ∷ [])) s (all_word-append w (c ∷ []) word (rw here refl)))
  | inr other ↦ rw other (
      append-boundary (finish_word w) c (sanitize_from [] s) other
      ∙ rw (sanitize-finish_word w word, sanitize-sanitize_from [] s refl) refl)
]

pub sanitize-sanitize_addresses :
    (text : List ℕ) → sanitize_addresses (sanitize_addresses text) ≡ sanitize_addresses text
unfolding sanitize_addresses
sanitize-sanitize_addresses text = sanitize-sanitize_from [] text refl

short-from : (w s : List ℕ) → length w + length s < 93 → sanitize_from w s ≡ w ++ s
unfolding sanitize_from
short-from w [] h = short-finish_word w (omega (arith, h)) ∙ sym (append-nil w)
short-from w (c ∷ s) h = elim (Bool-cases (is_word c)) [
  | inl here ↦ rw here (
      short-from (w ++ (c ∷ [])) s (omega (arith, length-append w (c ∷ []), h))
      ∙ append_assoc w (c ∷ []) s)
  | inr other ↦
      rw (other, short-finish_word w (omega (arith, h)), short-from [] s (omega (arith, h))) refl
]

-- A text that is shorter than an address stays as it is.
pub short-sanitize : (s : List ℕ) → length s < 93 → sanitize_addresses s ≡ s
unfolding sanitize_addresses
short-sanitize s h = short-from [] s (omega (arith, h))

-- A match is replaced, and what stands on its two sides is sanitized by itself.
pub sanitize-match :
    (before m after : List ℕ)
    → IsMatch before m after
    → sanitize_addresses (before ++ (m ++ after))
      ≡ sanitize_addresses before ++ (truncate_match m ++ sanitize_addresses after)
unfolding sanitize_addresses finish_word truncate_match
sanitize-match before m after match =
    let word = is_address-all_word m match.address in
    let behind : sanitize_from [] (m ++ after) ≡ truncate_match m ++ sanitize_from [] after =
      from-word [] m after word
      ∙ from-boundary m after match.right_boundary
      ∙ rw (finish_word, match.address) refl in
    apart before (m ++ after) match.left_boundary ∙ rw behind refl

-- No match is left: nothing that has the form of an address stands between word boundaries.
pub sanitize-hides_addresses :
    (text before m after : List ℕ)
    → sanitize_addresses text ≡ before ++ (m ++ after)
    → ¬ IsMatch before m after
unfolding sanitize_addresses
sanitize-hides_addresses text before m after split match =
    let same : before ++ (m ++ after)
        ≡ sanitize_addresses before ++ (truncate_match m ++ sanitize_addresses after) =
      sym split
      ∙ sym (sanitize-sanitize_from [] text refl)
      ∙ ap (sanitize_from []) split
      ∙ sanitize-match before m after match in
    omega (
      arith,
      ap length same,
      length-append before (m ++ after),
      length-append m after,
      length-append (sanitize_addresses before) (truncate_match m ++ sanitize_addresses after),
      length-append (truncate_match m) (sanitize_addresses after),
      truncate-length m match.address,
      is_address-length m match.address,
      from-length [] before,
      from-length [] after,
    )
