-- ===== src/Reader/Runs.antt =====
-- A reader at a position behind which stands what it reads: it returns that, and the position
-- behind it. `At bytes n rest` says that `rest` is what is left of `bytes` from position `n` on.
use p2pool_salvium_observer.Prelude.{
  ℕ, zero, suc, ◌+◌, ◌-◌, ◌/◌, ◌%◌, ◌^◌, ◌≤◌, ◌<◌, ◌≡◌, refl, ap, ◌∙◌, List, [], ◌∷◌, ◌++◌, arith,
  some, length, get_elem?, drop, length-append, length-drop, drop-add, take-length-append,
  drop-length-append, false, le→leb,
}
use mathlib.Core.List.{append-nil}
use p2pool_salvium_observer.Word.Int.{ℤ, pos, add_int-pos}
use p2pool_salvium_observer.Outcome.{Result, Site, context, ok, ◌>>=◌}
use p2pool_salvium_observer.Reader.{
  index, slice, slice_from, le_uint32, read_hash, read_uint32_le, read_byte, skip_bytes, past_end,
  at_end,
}

abbrev pub At : List ℕ → ℕ → List ℕ → Type 0
At bytes n rest = (n ≤ length bytes) × (drop n bytes ≡ rest)

abbrev pub Reads : {A : Type 0} → List ℕ → Result (A × ℤ) → A → List ℕ → Type 0
Reads bytes m v rest = (k : ℕ) × (m ≡ ok (v, pos k)) × At bytes k rest

abbrev pub Skips : List ℕ → Result ℤ → List ℕ → Type 0
Skips bytes m rest = (k : ℕ) × (m ≡ ok (pos k)) × At bytes k rest

-- The bytes fit an address space, so that no offset into them wraps.
abbrev pub FitsMemory : List ℕ → Type 0
FitsMemory bytes = length bytes < 2 ^ 48

pub At-start : (bytes : List ℕ) → At bytes 0 bytes
At-start bytes = (omega arith, refl)

pub length-At :
    (bytes : List ℕ) (n : ℕ) (rest : List ℕ) → At bytes n rest → length bytes ≡ n + length rest
length-At bytes n rest (le, e) = omega (arith, length-drop n bytes, ap length e)

pub At-step :
    (bytes : List ℕ) (n : ℕ) (xs rest : List ℕ)
    → At bytes n (xs ++ rest)
    → At bytes (n + length xs) rest
At-step bytes n xs rest (le, e) = (
  omega (arith, length-At bytes n (xs ++ rest) (le, e), length-append xs rest),
  drop-add n (length xs) bytes ∙ ap (drop (length xs)) e ∙ drop-length-append xs rest,
)

get_elem?-drop :
    (bytes : List ℕ) (n x : ℕ) (rest : List ℕ)
    → drop n bytes ≡ x ∷ rest
    → get_elem? bytes n ≡ some x
get_elem?-drop [] zero x rest e = cc
get_elem?-drop [] (suc n) x rest e = cc
get_elem?-drop (b ∷ bs) zero x rest e = cc
get_elem?-drop (b ∷ bs) (suc n) x rest e = get_elem?-drop bs n x rest e

pub index-At :
    (bytes : List ℕ) (n x : ℕ) (rest : List ℕ) → At bytes n (x ∷ rest) → index bytes (pos n) ≡ ok x
unfolding index
index-At bytes n x rest a = rw (get_elem?-drop bytes n x rest a.1)

pub slice-At :
    (bytes : List ℕ) (n m : ℕ) (xs rest : List ℕ)
    → At bytes n (xs ++ rest)
    → m ≡ n + length xs
    → slice bytes (pos n) (pos m) ≡ ok xs
unfolding slice
slice-At bytes n m xs rest a em =
    let e : m - n ≡ length xs = omega arith in
    rw
      (
        le→leb n m (omega arith),
        le→leb m (length bytes) (omega (arith, em, (At-step bytes n xs rest a).0)),
        e,
        a.1,
      )
      (ap ok (take-length-append xs rest))

abbrev pub le_bytes32 : ℕ → List ℕ
le_bytes32 v = v % 256 ∷ v / 2 ^ 8 % 256 ∷ v / 2 ^ 16 % 256 ∷ v / 2 ^ 24 % 256 ∷ []

pub past_end-false : (bytes : List ℕ) (m : ℕ) → m ≤ length bytes → past_end bytes (pos m) ≡ false
past_end-false bytes m h = ground arith

pub at_end-false : (bytes : List ℕ) (n : ℕ) → n < length bytes → at_end bytes (pos n) ≡ false
at_end-false bytes n h = ground arith

pub At-cons :
    (bytes : List ℕ) (n b : ℕ) (rest : List ℕ) → At bytes n (b ∷ rest) → At bytes (n + 1) rest
At-cons bytes n b rest a = At-step bytes n (b ∷ []) rest a

pub At-lt : (bytes : List ℕ) (n b : ℕ) (rest : List ℕ) → At bytes n (b ∷ rest) → n < length bytes
At-lt bytes n b rest a = omega (arith, (At-cons bytes n b rest a).0)

pub le_uint32_lem : (v : ℕ) (rest : List ℕ) → v < 2 ^ 32 → le_uint32 (le_bytes32 v ++ rest) ≡ ok v
unfolding le_uint32
le_uint32_lem v rest h = ap ok (omega arith)

pub slice_from-At :
    (bytes : List ℕ) (n : ℕ) (rest : List ℕ) → At bytes n rest → slice_from bytes (pos n) ≡ ok rest
unfolding slice_from
slice_from-At bytes n rest a =
    slice-At bytes n (length bytes) rest [] (rw (append-nil rest) a) (length-At bytes n rest a)

pub hash-At :
    (bytes : List ℕ) (n : ℕ) (h rest : List ℕ)
    → FitsMemory bytes
    → length h ≡ 32
    → At bytes n (h ++ rest)
    → Reads bytes (read_hash bytes (pos n)) h rest
unfolding read_hash
hash-At bytes n h rest fits e a =
    let next : At bytes (n + 32) rest = rw e at (At-step bytes n h rest a) in
    (
      n + 32,
      rw (
        add_int-pos n 32 (omega arith),
        past_end-false bytes (n + 32) next.0,
        slice-At bytes n (n + 32) h rest a (rw e),
      ),
      next,
    )

pub byte-At :
    (bytes : List ℕ) (n b : ℕ) (rest : List ℕ)
    → FitsMemory bytes
    → At bytes n (b ∷ rest)
    → Reads bytes (read_byte bytes (pos n)) b rest
unfolding read_byte
byte-At bytes n b rest fits a =
    let next = At-cons bytes n b rest a in
    (
      n + 1,
      rw (
        add_int-pos n 1 (omega arith),
        at_end-false bytes n (At-lt bytes n b rest a),
        index-At bytes n b rest a,
      ),
      next,
    )

pub uint32_le-At :
    (bytes : List ℕ) (n v : ℕ) (rest : List ℕ)
    → FitsMemory bytes
    → v < 2 ^ 32
    → At bytes n (le_bytes32 v ++ rest)
    → Reads bytes (read_uint32_le bytes (pos n)) v rest
unfolding read_uint32_le
uint32_le-At bytes n v rest fits hv a =
    let next = At-step bytes n (le_bytes32 v) rest a in
    (
      n + 4,
      rw (
        add_int-pos n 4 (omega arith),
        past_end-false bytes (n + 4) next.0,
        slice_from-At bytes n _ a,
        le_uint32_lem v rest hv,
      ),
      next,
    )

pub skip-At :
    (bytes : List ℕ) (n : ℕ) (xs rest : List ℕ)
    → FitsMemory bytes
    → At bytes n (xs ++ rest)
    → Skips bytes (skip_bytes bytes (pos n) (pos (length xs))) rest
unfolding skip_bytes
skip-At bytes n xs rest fits a =
    let next = At-step bytes n xs rest a in
    (
      n + length xs,
      rw (
        add_int-pos n (length xs) (omega (arith, next.0)),
        past_end-false bytes (n + length xs) next.0,
      ),
      next,
    )

-- A step of a `do` block whose reader is known to succeed: the rest goes on from some position.
module _ {A B : Type 0} (bytes : List ℕ) {v : A} {rest : List ℕ} where
  pub then-Reads :
      (m : Result (A × ℤ)) (f : A × ℤ → Result B) {r : Result B}
      → Reads bytes m v rest
      → ((k : ℕ) → At bytes k rest → f (v, pos k) ≡ r)
      → (m >>= f) ≡ r
  then-Reads m f (k, e, a) h = rw e (h k a)

  pub then_context :
      (site : Site) (m : Result (A × ℤ)) (f : A × ℤ → Result B) {r : Result B}
      → Reads bytes m v rest
      → ((k : ℕ) → At bytes k rest → f (v, pos k) ≡ r)
      → (context site m >>= f) ≡ r
  then_context site m f (k, e, a) h = rw e (h k a)

module _ {B : Type 0} (bytes : List ℕ) {rest : List ℕ} where
  pub then-Skips :
      (m : Result ℤ) (f : ℤ → Result B) {r : Result B}
      → Skips bytes m rest
      → ((k : ℕ) → At bytes k rest → f (pos k) ≡ r)
      → (m >>= f) ≡ r
  then-Skips m f (k, e, a) h = rw e (h k a)

  pub then_context-Skips :
      (site : Site) (m : Result ℤ) (f : ℤ → Result B) {r : Result B}
      → Skips bytes m rest
      → ((k : ℕ) → At bytes k rest → f (pos k) ≡ r)
      → (context site m >>= f) ≡ r
  then_context-Skips site m f (k, e, a) h = rw e (h k a)

-- The same where the whole block skips to some position.
module _ {A : Type 0} (bytes : List ℕ) {v : A} {rest end : List ℕ} where
  pub Reads-Skips :
      (m : Result (A × ℤ)) (f : A × ℤ → Result ℤ)
      → Reads bytes m v rest
      → ((k : ℕ) → At bytes k rest → Skips bytes (f (v, pos k)) end)
      → Skips bytes (m >>= f) end
  Reads-Skips m f (k, e, a) h = rw e (h k a)

  pub context-Skips :
      (site : Site) (m : Result (A × ℤ)) (f : A × ℤ → Result ℤ)
      → Reads bytes m v rest
      → ((k : ℕ) → At bytes k rest → Skips bytes (f (v, pos k)) end)
      → Skips bytes (context site m >>= f) end
  context-Skips site m f (k, e, a) h = rw e (h k a)

module _ (bytes : List ℕ) {rest end : List ℕ} where
  pub Skips-Skips :
      (m : Result ℤ) (f : ℤ → Result ℤ)
      → Skips bytes m rest
      → ((k : ℕ) → At bytes k rest → Skips bytes (f (pos k)) end)
      → Skips bytes (m >>= f) end
  Skips-Skips m f (k, e, a) h = rw e (h k a)

  pub context-Skips-Skips :
      (site : Site) (m : Result ℤ) (f : ℤ → Result ℤ)
      → Skips bytes m rest
      → ((k : ℕ) → At bytes k rest → Skips bytes (f (pos k)) end)
      → Skips bytes (context site m >>= f) end
  context-Skips-Skips site m f (k, e, a) h = rw e (h k a)

pub context_last :
    (bytes rest : List ℕ) (site : Site) (m : Result ℤ)
    → Skips bytes m rest
    → Skips bytes (context site m) rest
context_last bytes rest site m (k, e, a) = rw e (k, refl, a)
