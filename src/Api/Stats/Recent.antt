-- ===== src/Api/Stats/Recent.antt =====
-- The recent blocks of handleStats (cmd/api/main.go).
use mathlib.Core.List.{reverse, reverse-cons}
use p2pool_salvium_observer.Prelude.{
  ℕ, zero, suc, ◌+◌, ◌-◌, ◌<◌, ◌≡◌, refl, ap, sym, ◌∙◌, some, List, [], ◌∷◌, ◌++◌, arith, length,
  length-append, drop, length-drop, get_elem?, ltb, map, ltb→lt, ltb_false→le, Bool-cases, inl, inr,
}
use mathlib.Core.Option
use p2pool_salvium_observer.Api.Json.{NilMap}
use p2pool_salvium_observer.Api.Stats.{formatted, recent_blocks}

get-map :
    {A B : Type 0} (f : A → B) (xs : List A) (i : ℕ)
    → get_elem? (map f xs) i ≡ Option.map f (get_elem? xs i)
get-map f [] i = refl
get-map f (x ∷ xs) zero = refl
get-map f (x ∷ xs) (suc i) = get-map f xs i

get-append_left :
    {A : Type 0} (xs ys : List A) (i : ℕ) → i < length xs → get_elem? (xs ++ ys) i ≡ get_elem? xs i
get-append_left [] ys i h = absurd (omega arith)
get-append_left (x ∷ xs) ys zero h = refl
get-append_left (x ∷ xs) ys (suc i) h = get-append_left xs ys i (omega arith)

get-append_at :
    {A : Type 0} (xs : List A) (y : A) (ys : List A)
    → get_elem? (xs ++ (y ∷ ys)) (length xs) ≡ some y
get-append_at [] y ys = refl
get-append_at (x ∷ xs) y ys = get-append_at xs y ys

reverse-length : {A : Type 0} (xs : List A) → length (reverse xs) ≡ length xs
reverse-length [] = refl
reverse-length (x ∷ xs) =
    ap length (reverse-cons x xs)
    ∙ omega (arith, length-append (reverse xs) (x ∷ []), reverse-length xs)

-- The element at `i` from the end.
get-reverse :
    {A : Type 0} (xs : List A) (i : ℕ)
    → i < length xs
    → get_elem? (reverse xs) i ≡ get_elem? xs (length xs - 1 - i)
get-reverse [] i h = absurd (omega arith)
get-reverse (x ∷ xs) i h =
    ap (λ l. get_elem? l i) (reverse-cons x xs) ∙ elim (Bool-cases (ltb i (length xs))) [
      | inl inside ↦
          let lt = ltb→lt i (length xs) inside in
          let back : suc (length xs) - 1 - i ≡ suc (length xs - 1 - i) = omega (arith, lt) in
          get-append_left (reverse xs) (x ∷ []) i (omega (arith, lt, reverse-length xs))
          ∙ get-reverse xs i lt
          ∙ rw back refl
      | inr last ↦
          let le = ltb_false→le i (length xs) last in
          let at_end : i ≡ length (reverse xs) = omega (arith, le, h, reverse-length xs) in
          let first : suc (length xs) - 1 - length xs ≡ 0 = omega arith in
          rw (at_end, reverse-length xs)
            (ap (get_elem? (reverse xs ++ (x ∷ []))) (sym (reverse-length xs))
              ∙ get-append_at (reverse xs) x []
              ∙ rw first refl)
    ]

get-drop : {A : Type 0} (n i : ℕ) (xs : List A) → get_elem? (drop n xs) i ≡ get_elem? xs (n + i)
get-drop zero i xs = let e : 0 + i ≡ i = omega arith in rw e refl
get-drop (suc n) i [] = refl
get-drop (suc n) i (x ∷ xs) =
    let e : suc n + i ≡ suc (n + i) = omega arith in rw e (get-drop n i xs)

recent_from :
    {F : Type 0} (blocks : List (NilMap F)) (start i : ℕ)
    → start + i < length blocks
    → get_elem? (map formatted (reverse (drop start blocks))) i
      ≡ Option.map formatted (get_elem? blocks (length blocks - 1 - i))
recent_from blocks start i h =
    let left = length-drop start blocks in
    let back : start + (length (drop start blocks) - 1 - i) ≡ length blocks - 1 - i =
      omega (arith, left) in
    get-map formatted (reverse (drop start blocks)) i
    ∙ ap (Option.map formatted) (
        get-reverse (drop start blocks) i (omega (arith, left))
        ∙ get-drop start (length (drop start blocks) - 1 - i) blocks
        ∙ ap (get_elem? blocks) back)

-- Of the blocks that handleStats lists, the one at an index below thirty and below their number is
-- the found block at that index from the end.
pub recent_blocks_lem :
    {F : Type 0} (blocks : List (NilMap F)) (i : ℕ)
    → i < 30
    → i < length blocks
    → get_elem? (recent_blocks blocks) i
      ≡ Option.map formatted (get_elem? blocks (length blocks - 1 - i))
unfolding recent_blocks
recent_blocks_lem blocks i small inside = elim (Bool-cases (ltb 30 (length blocks))) [
  | inl many ↦
      rw many
        (recent_from blocks (length blocks - 30) i (omega (arith, ltb→lt 30 (length blocks) many)))
  | inr few ↦ rw few (recent_from blocks 0 i (omega arith))
]
