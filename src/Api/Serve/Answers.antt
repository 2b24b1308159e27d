-- ===== src/Api/Serve/Answers.antt =====
-- What the clients of cmd/api get: sanitized bodies, and from the cache only what was made for them.
use p2pool_salvium_observer.Prelude.{
  ℕ, ◌+◌, ◌≡◌, ◌≤◌, refl, sym, ◌∙◌, Option, none, some, [], ◌∷◌, ◌++◌, Bool-cases, Option-cases,
  inl, inr, ltb, ltb_false→le, if◌then◌else◌,
}
use p2pool_salvium_observer.Share.{bytes_eq}
use p2pool_salvium_observer.Share.Keys.{lookup_hash, bytes_eq_sound, bytes_eq_refl}
use p2pool_salvium_observer.Daemon.{Text}
use p2pool_salvium_observer.Expiry.Api.{
  Key, Store, CachedEntry, is_expired, cache_get, cache_set, cache_get-cache_set, unexpired,
}
use p2pool_salvium_observer.Api.Sanitize.Matches.{IsMatch, sanitize-hides_addresses}
use p2pool_salvium_observer.Api.Server.{
  Host, Response, fresh, Miss, reply, store, panicked, Plan, direct, through, settle, run,
  set_header, write_sanitized_cache,
}
use p2pool_salvium_observer.Api.Serve.{Request, plan, serve}
use p2pool_salvium_observer.Api.Serve.Subjects.{
  Subject, Fits, subject, subject_key, subject_key-injective,
}
use p2pool_salvium_observer.Api.Serve.Sound.{IsClean, IsSound, Conforms, sanitized-IsClean}
use p2pool_salvium_observer.Api.Serve.Handlers.{plan-Conforms}
use p2pool_salvium_observer.Api.Serve.Caching.{
  IsStored, IsGenuine, AreGenuine, Reaches, reached-AreGenuine,
}

some-injective : {A : Type 0} {a b : A} → some a ≡ some b → a ≡ b
some-injective e = cc

none-some : {A : Type 0} (a : A) → none ≡ some a → ⊥
none-some a e = cc

hit-IsClean : (bytes : Text) → IsClean (write_sanitized_cache bytes fresh)
unfolding write_sanitized_cache set_header
hit-IsClean bytes = sanitized-IsClean bytes _ refl

unexpired_parts :
    (later : ℕ) (entry : CachedEntry) (bytes : Text)
    → unexpired later (some entry) ≡ some bytes
    → (entry.bytes ≡ bytes) × (later ≤ entry.expires)
unexpired_parts later entry bytes e = elim (Bool-cases (is_expired later entry)) [
  | inl old ↦ absurd (none-some bytes (rw old at e))
  | inr live ↦ (some-injective (rw live at e), ltb_false→le entry.expires later live)
]

module _ {F S : Type 0} (host : Host F S) where
  settle-IsClean :
      (now : ℕ) (key : Key) (cache : Store) (miss : Miss) (r : Response)
      → IsSound miss
      → (settle now key cache miss).0 ≡ some r
      → IsClean r
  unfolding settle
  settle-IsClean now key cache (reply r') r sound e = let same : r' ≡ r = cc in rw (← same) sound
  settle-IsClean now key cache (store bytes ttl r') r sound e =
      let same : r' ≡ r = cc in rw (← same) sound.0
  settle-IsClean now key cache panicked r sound e = cc

  run-IsClean :
      (now : ℕ) (cache : Store) (o : Option Subject) (p : Plan) (r : Response)
      → Conforms o p
      → (run now cache p).0 ≡ some r
      → IsClean r
  unfolding run
  run-IsClean now cache none (direct r') r c e = let same : r' ≡ r = cc in rw (← same) c
  run-IsClean now cache none (through key w miss) r c e = elim c [ ]
  run-IsClean now cache (some a) (direct r') r c e = elim c [ ]
  run-IsClean now cache (some a) (through key w miss) r (k, fresh_w, fits, sound) e =
      elim (Option-cases (cache_get now key cache)) [
        | inl nothing ↦ settle-IsClean now key cache miss r sound (rw (run, nothing) at e)
        | inr (bytes, there) ↦
            let same : write_sanitized_cache bytes w ≡ r = some-injective (rw (run, there) at e) in
            rw (← same, fresh_w) (hit-IsClean bytes)
      ]

  -- Whatever Redis and the response cache hold, no response to a request contains an address: no
  -- part of its body between two word boundaries has the form that salviumAddrRegex describes.
  pub serve-hides_addresses :
      (now : ℕ) (s : S) (request : Request) (cache : Store) (r : Response) (before m after : Text)
      → (serve host now s request cache).0 ≡ some r
      → r.body ≡ before ++ (m ++ after)
      → ¬ IsMatch before m after
  unfolding serve
  serve-hides_addresses now s request cache r before m after answered split =
      sanitize-hides_addresses r.body before m after
        (run-IsClean now cache _ _ r (plan-Conforms host s request) answered ∙ split)

  found-IsGenuine :
      (now : ℕ) (key : Key) (entry : CachedEntry) (cache : Store)
      → AreGenuine host now cache
      → lookup_hash key cache ≡ some entry
      → IsGenuine host now (key, entry)
  found-IsGenuine now key entry [] g e = cc
  found-IsGenuine now key entry ((k, old) ∷ cache) (first, g) e =
      elim (Bool-cases (bytes_eq k key)) [
        | inl same ↦
            let there : old ≡ entry = some-injective (rw same at e) in
            rw (← there, ← bytes_eq_sound k key same) first
        | inr other ↦ found-IsGenuine now key entry cache g (rw other at e)
      ]

  Fits-of : (s : S) (request : Request) (a : Subject) → subject host request ≡ some a → Fits a
  Fits-of s request a asked =
      fits_from (plan host s request fresh) (rw asked at (plan-Conforms host s request))
    where
      fits_from : (p : Plan) → Conforms (some a) p → Fits a
      fits_from (direct r) c = elim c [ ]
      fits_from (through key w miss) c = c.2

  -- In any run of the service, on any states of Redis, what the cache has for a request was stored
  -- by a request for the same thing, at a time that is not later than now, and its time to live,
  -- which is two minutes at most, is not over.
  pub hit-IsStored :
      (now later : ℕ) (s : S) (request : Request) (a : Subject) (cache : Store) (bytes : Text)
      → Reaches host now cache
      → now ≤ later
      → subject host request ≡ some a
      → cache_get later (subject_key a) cache ≡ some bytes
      → (entry : CachedEntry) × (entry.bytes ≡ bytes)
        × (later ≤ entry.expires)
        × IsStored host now a entry
  unfolding cache_get
  hit-IsStored now later s request a cache bytes reached le asked hit =
      elim (Option-cases (lookup_hash (subject_key a) cache)) [
        | inl missing ↦ absurd (none-some bytes (rw missing at hit))
        | inr (entry, there) ↦
            let (a', same_key, fits, stored) =
              found-IsGenuine now (subject_key a) entry cache
                (reached-AreGenuine host now cache reached) there in
            let same : a' ≡ a =
              subject_key-injective a' a (sym same_key) fits (Fits-of s request a asked) in
            let (same_bytes, live) = unexpired_parts later entry bytes (rw there at hit) in
            (entry, same_bytes, live, rw same at stored)
      ]

  -- A response that a request stored in a cache that had none answers every request for the same
  -- thing, on any state of Redis, until its time to live is over; after that the later request does
  -- what its handler does without the cache.
  pub serve-again :
      (now later ttl : ℕ) (s s' : S) (request request' : Request) (a : Subject) (cache : Store)
      (bytes : Text) (r : Response) (miss : Miss)
      → cache_get now (subject_key a) cache ≡ none
      → plan host s request fresh ≡ through (subject_key a) fresh (store bytes ttl r)
      → plan host s' request' fresh ≡ through (subject_key a) fresh miss
      → (serve host later s' request' (serve host now s request cache).1).0 ≡ (
          if ltb (now + ttl) later
          then (settle later (subject_key a) (serve host now s request cache).1 miss).0
          else some (write_sanitized_cache bytes fresh))
  unfolding serve run settle
  serve-again now later ttl s s' request request' a cache bytes r miss absent first second =
      let kept : (serve host now s request cache).1
          ≡ cache_set now (subject_key a) bytes ttl cache =
        rw (serve, first, run, absent) refl in
      let stored = cache_get-cache_set later now ttl (subject_key a) (subject_key a) bytes cache in
      let known = rw (bytes_eq_refl (subject_key a)) at stored in
      elim (Bool-cases (ltb (now + ttl) later)) [
        | inl over ↦
            let gone : cache_get later (subject_key a)
                  (cache_set now (subject_key a) bytes ttl cache)
                ≡ none =
              known ∙ rw over refl in
            rw (kept, over) (rw (serve, second, run, gone) refl)
        | inr live ↦
            let there : cache_get later (subject_key a)
                  (cache_set now (subject_key a) bytes ttl cache)
                ≡ some bytes =
              known ∙ rw live refl in
            rw (kept, live) (rw (serve, second, run, there) refl)
      ]
