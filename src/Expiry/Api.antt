-- ===== src/Expiry/Api.antt =====
-- cmd/api/cache.go: a map from keys to entries with a time of expiry.
use p2pool_salvium_observer.Prelude.{
  ℕ, ◌+◌, ◌≤◌, ◌≡◌, refl, ap, ◌∙◌, Bool, true, Option, none, some, List, [], ◌∷◌, arith, ltb,
  if◌then◌else◌, inl, inr, Bool-cases, ltb→lt, lt→ltb,
}
use p2pool_salvium_observer.Share.{bytes_eq}
use p2pool_salvium_observer.Share.Keys.{
  lookup_hash, insert_hash, lookup-insert_hash, bytes_eq_sound,
}

-- A key is a Go string, the list of its bytes.
abbrev pub Key : Type 0
Key = List ℕ

pub record CachedEntry : Type 0 where
  pub expires : ℕ
  pub bytes : List ℕ

abbrev pub Store : Type 0
Store = List (Key × CachedEntry)

-- `time.Now().After(entry.expires)`
abbrev pub is_expired : ℕ → CachedEntry → Bool
is_expired now entry = ltb entry.expires now

abbrev pub unexpired : ℕ → Option CachedEntry → Option (List ℕ)
unexpired now none = none
unexpired now (some entry) = if is_expired now entry then none else some entry.bytes

unfoldable pub cache_get : ℕ → Key → Store → Option (List ℕ)
cache_get now key cache = unexpired now (lookup_hash key cache)

unfoldable pub cache_set : ℕ → Key → List ℕ → ℕ → Store → Store
cache_set now key bytes ttl cache =
    insert_hash key (record { expires = now + ttl; bytes = bytes }) cache

unfoldable pub cache_cleanup : ℕ → Store → Store
cache_cleanup now [] = []
cache_cleanup now ((key, entry) ∷ cache) =
    let rest = cache_cleanup now cache in if is_expired now entry then rest else (key, entry) ∷ rest

-- After cacheSet its key gives the data until the time to live is over and nothing after that, and
-- any other key gives what it gave before.
pub cache_get-cache_set :
    (later now ttl : ℕ) (key other : Key) (bytes : List ℕ) (cache : Store)
    → cache_get later other (cache_set now key bytes ttl cache) ≡ (
        if bytes_eq key other
        then (if ltb (now + ttl) later then none else some bytes)
        else cache_get later other cache)
unfolding cache_get cache_set
cache_get-cache_set later now ttl key other bytes cache =
    ap (unexpired later)
      (lookup-insert_hash key other (record { expires = now + ttl; bytes = bytes }) cache)
    ∙ elim (Bool-cases (bytes_eq key other)) [
      | inl same ↦ rw same refl
      | inr differ ↦ rw differ refl
    ]

-- A Go map has one entry for a key.
abbrev pub IsMap : Store → Type 0
IsMap [] = Unit {0}
IsMap ((key, entry) ∷ cache) = (lookup_hash key cache ≡ none) × IsMap cache

cleanup-absent :
    (now : ℕ) (key : Key) (cache : Store)
    → lookup_hash key cache ≡ none
    → lookup_hash key (cache_cleanup now cache) ≡ none
unfolding cache_cleanup
cleanup-absent now key [] h = refl
cleanup-absent now key ((k, entry) ∷ cache) h = elim (Bool-cases (bytes_eq k key)) [
  | inl same ↦ cc (rw same at h)
  | inr differ ↦ elim (Bool-cases (is_expired now entry)) [
    | inl old ↦ rw old (cleanup-absent now key cache (rw differ at h))
    | inr fresh ↦ rw (fresh, differ) (cleanup-absent now key cache (rw differ at h))
  ]
]

-- In a cache with one entry for a key, cacheCleanup changes the answer to no cacheGet from then on.
pub cache_get-cache_cleanup :
    (now later : ℕ) (key : Key) (cache : Store)
    → now ≤ later
    → IsMap cache
    → cache_get later key (cache_cleanup now cache) ≡ cache_get later key cache
unfolding cache_get cache_cleanup
cache_get-cache_cleanup now later key [] le m = refl
cache_get-cache_cleanup now later key ((k, entry) ∷ cache) le (absent, m) =
    elim (Bool-cases (bytes_eq k key)) [
      | inl same ↦ elim (Bool-cases (is_expired now entry)) [
        | inl old ↦
            let gone : lookup_hash key cache ≡ none = rw (bytes_eq_sound k key same) at absent in
            let still : is_expired later entry ≡ true =
              lt→ltb _ _ (omega (arith, ltb→lt _ _ old, le)) in
            rw (old, same, still, cleanup-absent now key cache gone) refl
        | inr fresh ↦ rw (fresh, same) refl
      ]
      | inr differ ↦ elim (Bool-cases (is_expired now entry)) [
        | inl old ↦ rw (old, differ) (cache_get-cache_cleanup now later key cache le m)
        | inr fresh ↦ rw (fresh, differ) (cache_get-cache_cleanup now later key cache le m)
      ]
    ]
