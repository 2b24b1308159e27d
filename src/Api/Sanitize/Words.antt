-- ===== src/Api/Sanitize/Words.antt =====
-- Runs of word characters under `sanitizeAddresses`, and the sizes of texts.
use mathlib.Core.List.{append_assoc, append-nil}
use p2pool_salvium_observer.Prelude.{
  ℕ, suc, ◌+◌, ◌-◌, ◌≤◌, ◌<◌, ◌≡◌, refl, sym, ap, ◌∙◌, Bool, true, false, ◌&&◌, List, [], ◌∷◌, ◌++◌,
  arith, ◌==◌, length, take, drop, length-append, length-drop, length-take, Bool-cases, inl, inr,
  ==_iff, zero, lt→leb_false,
}
use p2pool_salvium_observer.Api.Codes.{is_word, is_base58}
use p2pool_salvium_observer.Api.Sanitize.{
  all_base58, is_address, truncate_match, finish_word, sanitize_from,
}

abbrev pub all_word : List ℕ → Bool
all_word [] = true
all_word (c ∷ s) = is_word c && all_word s

-- Is the last character, or the first, a word character?
abbrev pub ends_in_word : List ℕ → Bool
ends_in_word [] = false
ends_in_word (c ∷ []) = is_word c
ends_in_word (c ∷ d ∷ s) = ends_in_word (d ∷ s)

abbrev pub begins_with_word : List ℕ → Bool
begins_with_word [] = false
begins_with_word (c ∷ s) = is_word c

pub base58-is_word : (c : ℕ) → is_base58 c ≡ true → is_word c ≡ true
unfolding is_base58 is_word
base58-is_word c h = ground arith

pub and_parts : (a b : Bool) → (a && b) ≡ true → (a ≡ true) × (b ≡ true)
and_parts true b h = (refl, h)
and_parts false b h = cc

pub all_base58-all_word : (s : List ℕ) → all_base58 s ≡ true → all_word s ≡ true
all_base58-all_word [] h = refl
all_base58-all_word (c ∷ s) h =
    let (here, rest) = and_parts (is_base58 c) (all_base58 s) h in
    rw (base58-is_word c here) (all_base58-all_word s rest)

pub prefix_is_word : (is_word b'S' ≡ true) × (is_word b'C' ≡ true) × (is_word b'1' ≡ true)
unfolding is_word
prefix_is_word = (refl, refl, refl)

pub is_address-all_word : (m : List ℕ) → is_address m ≡ true → all_word m ≡ true
unfolding is_address
is_address-all_word [] h = refl
is_address-all_word (a ∷ []) h = cc
is_address-all_word (a ∷ b ∷ []) h = cc
is_address-all_word (a ∷ b ∷ c ∷ s) h =
    let (head, tail) = and_parts (a == b'S' && (b == b'C' && c == b'1')) _ h in
    let (first, more) = and_parts (a == b'S') _ head in
    let (second, third) = and_parts (b == b'C') _ more in
    let (base58, size) = and_parts (all_base58 s) _ tail in
    rw
      (
        (==_iff _ _).0 first,
        (==_iff _ _).0 second,
        (==_iff _ _).0 third,
        prefix_is_word.0,
        prefix_is_word.1,
        prefix_is_word.2,
        all_base58-all_word s base58,
      )
      refl

pub is_address-length : (m : List ℕ) → is_address m ≡ true → 93 ≤ length m
unfolding is_address
is_address-length [] h = absurd (ground arith)
is_address-length (a ∷ []) h = absurd (ground arith)
is_address-length (a ∷ b ∷ []) h = absurd (ground arith)
is_address-length (a ∷ b ∷ c ∷ s) h = ground arith

pub short-finish_word : (w : List ℕ) → length w < 93 → finish_word w ≡ w
unfolding finish_word
short-finish_word w short = elim (Bool-cases (is_address w)) [
  | inl address ↦ absurd (omega (arith, is_address-length w address))
  | inr other ↦ rw other refl
]

-- A run of word characters joins the word in front of it.
pub from-word :
    (w x s : List ℕ) → all_word x ≡ true → sanitize_from w (x ++ s) ≡ sanitize_from (w ++ x) s
unfolding sanitize_from
from-word w [] s h = ap (λ t. sanitize_from t s) (sym (append-nil w))
from-word w (c ∷ x) s h =
    let (here, rest) = and_parts (is_word c) (all_word x) h in
    rw here
      (from-word (w ++ (c ∷ [])) x s rest ∙ ap (λ t. sanitize_from t s) (append_assoc w (c ∷ []) x))

pub from-boundary :
    (w s : List ℕ)
    → begins_with_word s ≡ false
    → sanitize_from w s ≡ finish_word w ++ sanitize_from [] s
unfolding sanitize_from finish_word is_address
from-boundary w [] h = sym (append-nil (finish_word w))
from-boundary w (c ∷ s) h = rw h refl

-- Behind a character that is no word character, the rest is sanitized by itself.
pub from-append :
    (w : List ℕ) (c : ℕ) (a s : List ℕ)
    → ends_in_word (c ∷ a) ≡ false
    → sanitize_from w ((c ∷ a) ++ s) ≡ sanitize_from w (c ∷ a) ++ sanitize_from [] s
unfolding sanitize_from finish_word is_address
from-append w c [] s h = rw h (sym (append_assoc (finish_word w) (c ∷ []) (sanitize_from [] s)))
from-append w c (d ∷ a) s h = elim (Bool-cases (is_word c)) [
  | inl here ↦ rw here (from-append (w ++ (c ∷ [])) d a s h)
  | inr other ↦
      rw (other, from-append [] d a s h)
        (sym (append_assoc (finish_word w) (c ∷ sanitize_from [] (d ∷ a)) (sanitize_from [] s)))
]

pub truncate-length : (m : List ℕ) → is_address m ≡ true → length (truncate_match m) ≡ 19
unfolding truncate_match
truncate-length m address =
    let long = is_address-length m address in
    rw (lt→leb_false (length m) 19 (omega arith)) (
      length-append (take 8 m) (46 ∷ 46 ∷ 46 ∷ drop (length m - 8) m)
      ∙ omega (arith, length-take 8 m (omega arith), length-drop (length m - 8) m))

pub finish_word-length : (w : List ℕ) → length (finish_word w) ≤ length w
unfolding finish_word
finish_word-length w = elim (Bool-cases (is_address w)) [
  | inl address ↦ rw address (omega (arith, truncate-length w address, is_address-length w address))
  | inr other ↦ rw other (omega arith)
]

pub from-length : (w s : List ℕ) → length (sanitize_from w s) ≤ length w + length s
unfolding sanitize_from
from-length w [] = omega (arith, finish_word-length w)
from-length w (c ∷ s) = elim (Bool-cases (is_word c)) [
  | inl here ↦ rw here (omega (arith, from-length (w ++ (c ∷ [])) s, length-append {0} w (c ∷ [])))
  | inr other ↦ rw other (
      omega (
        arith,
        finish_word-length w,
        from-length [] s,
        length-append (finish_word w) (c ∷ sanitize_from [] s),
      ))
]

pub all_word-take : (n : ℕ) (s : List ℕ) → all_word s ≡ true → all_word (take n s) ≡ true
all_word-take zero s h = refl
all_word-take (suc n) [] h = refl
all_word-take (suc n) (c ∷ s) h =
    let (here, rest) = and_parts (is_word c) (all_word s) h in rw here (all_word-take n s rest)

pub all_word-drop : (n : ℕ) (s : List ℕ) → all_word s ≡ true → all_word (drop n s) ≡ true
all_word-drop zero s h = h
all_word-drop (suc n) [] h = refl
all_word-drop (suc n) (c ∷ s) h = all_word-drop n s (and_parts (is_word c) (all_word s) h).1

pub all_word-append :
    (a b : List ℕ) → all_word a ≡ true → all_word b ≡ true → all_word (a ++ b) ≡ true
all_word-append [] b h k = k
all_word-append (c ∷ a) b h k =
    let (here, rest) = and_parts (is_word c) (all_word a) h in rw here (all_word-append a b rest k)

pub apart :
    (a s : List ℕ)
    → ends_in_word a ≡ false
    → sanitize_from [] (a ++ s) ≡ sanitize_from [] a ++ sanitize_from [] s
unfolding sanitize_from
apart [] s h = rw (short-finish_word [] (omega arith)) refl
apart (c ∷ a) s h = from-append [] c a s h

pub snoc_boundary : (a : List ℕ) (c : ℕ) → is_word c ≡ false → ends_in_word (a ++ (c ∷ [])) ≡ false
snoc_boundary [] c h = h
snoc_boundary (d ∷ []) c h = h
snoc_boundary (d ∷ e ∷ a) c h = snoc_boundary (e ∷ a) c h

pub from-single :
    (w : List ℕ) (c : ℕ) → is_word c ≡ false → sanitize_from w (c ∷ []) ≡ finish_word w ++ (c ∷ [])
unfolding sanitize_from
from-single w c h = rw (h, short-finish_word [] (omega arith)) refl

pub close_word :
    (w a : List ℕ) (c : ℕ)
    → is_word c ≡ false
    → sanitize_from w (a ++ (c ∷ [])) ≡ sanitize_from w a ++ (c ∷ [])
unfolding sanitize_from
close_word w [] c h = from-single w c h
close_word w (d ∷ a) c h = elim (Bool-cases (is_word d)) [
  | inl here ↦ rw here (close_word (w ++ (d ∷ [])) a c h)
  | inr other ↦
      rw (other, close_word [] a c h)
        (sym (append_assoc (finish_word w) (d ∷ sanitize_from [] a) (c ∷ [])))
]

pub append-boundary :
    (a : List ℕ) (c : ℕ) (s : List ℕ)
    → is_word c ≡ false
    → sanitize_from [] (a ++ (c ∷ s)) ≡ sanitize_from [] a ++ (c ∷ sanitize_from [] s)
append-boundary a c s h =
    ap (sanitize_from []) (sym (append_assoc a (c ∷ []) s))
    ∙ apart (a ++ (c ∷ [])) s (snoc_boundary a c h)
    ∙ rw (close_word [] a c h) (append_assoc (sanitize_from [] a) (c ∷ []) (sanitize_from [] s))
