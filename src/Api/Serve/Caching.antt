-- ===== src/Api/Serve/Caching.antt =====
-- The response cache of cmd/api between Redis and the clients, over any run of the service.
use p2pool_salvium_observer.Prelude.{
  ℕ, ◌+◌, ◌≡◌, ◌≤◌, refl, Option, none, some, [], ◌∷◌, arith, Bool-cases, Option-cases, inl, inr,
  All,
}
use p2pool_salvium_observer.Share.{bytes_eq}
use p2pool_salvium_observer.Share.Keys.{insert_hash, bytes_eq_sound}
use p2pool_salvium_observer.Expiry.Api.{
  Key, Store, CachedEntry, is_expired, cache_get, cache_set, cache_cleanup,
}
use p2pool_salvium_observer.Api.Server.{
  Host, Response, fresh, Miss, reply, store, panicked, Plan, direct, through, settle, run,
  cache_ttl_long,
}
use p2pool_salvium_observer.Api.Serve.{Request, plan, serve}
use p2pool_salvium_observer.Api.Serve.Subjects.{Subject, Fits, subject, subject_key}
use p2pool_salvium_observer.Api.Serve.Sound.{IsSound, Conforms}
use p2pool_salvium_observer.Api.Serve.Handlers.{plan-Conforms}

-- The entry was stored for the subject at a time up to `now`.
pub record IsStored {F S : Type 0} (host : Host F S) (now : ℕ) (a : Subject) (entry : CachedEntry)
    : Type 0 where
  pub time : ℕ
  pub state : S
  pub request : Request
  pub ttl : ℕ
  pub response : Response
  pub asked : subject host request ≡ some a
  pub made :
      plan host state request fresh ≡ through (subject_key a) fresh (store entry.bytes ttl response)
  pub expiry : entry.expires ≡ time + ttl
  pub past : time ≤ now
  pub short : ttl ≤ cache_ttl_long

abbrev pub IsGenuine : {F S : Type 0} → Host F S → ℕ → Key × CachedEntry → Type 0
IsGenuine host now e = (a : Subject) × (e.0 ≡ subject_key a) × Fits a × IsStored host now a e.1

abbrev pub AreGenuine : {F S : Type 0} → Host F S → ℕ → Store → Type 0
AreGenuine host now = All (IsGenuine host now)

-- A run of the service: requests on any state of Redis, and clean-ups, as time goes on.
pub data Reaches {F S : Type 0} (host : Host F S) : ℕ → Store → Type 0 where
  start : (now : ℕ) → Reaches host now []
  served :
      (now later : ℕ) (s : S) (request : Request) (cache cache' : Store)
      → Reaches host now cache
      → now ≤ later
      → (serve host later s request cache).1 ≡ cache'
      → Reaches host later cache'
  cleaned :
      (now later : ℕ) (cache cache' : Store)
      → Reaches host now cache
      → now ≤ later
      → cache_cleanup later cache ≡ cache'
      → Reaches host later cache'

module _ {F S : Type 0} (host : Host F S) where
  later-IsStored :
      (now later : ℕ) (a : Subject) (entry : CachedEntry)
      → now ≤ later
      → IsStored host now a entry
      → IsStored host later a entry
  later-IsStored now later a entry le stored = record {
    time = stored.time;
    state = stored.state;
    request = stored.request;
    ttl = stored.ttl;
    response = stored.response;
    asked = stored.asked;
    made = stored.made;
    expiry = stored.expiry;
    past = omega (arith, stored.past, le);
    short = stored.short;
  }

  later-AreGenuine :
      (now later : ℕ) (cache : Store)
      → now ≤ later
      → AreGenuine host now cache
      → AreGenuine host later cache
  later-AreGenuine now later [] le g = tt
  later-AreGenuine now later (e ∷ cache) le ((a, key, fits, stored), g) = (
    (a, key, fits, later-IsStored now later a e.1 le stored),
    later-AreGenuine now later cache le g,
  )

  insert-AreGenuine :
      (now : ℕ) (key : Key) (entry : CachedEntry) (cache : Store)
      → IsGenuine host now (key, entry)
      → AreGenuine host now cache
      → AreGenuine host now (insert_hash key entry cache)
  insert-AreGenuine now key entry [] new g = (new, tt)
  insert-AreGenuine now key entry ((k, old) ∷ cache) new (first, g) =
      elim (Bool-cases (bytes_eq k key)) [
        | inl same ↦
            let e : k ≡ key = bytes_eq_sound k key same in rw (insert_hash, same, e) (new, g)
        | inr other ↦ rw (insert_hash, other) (first, insert-AreGenuine now key entry cache new g)
      ]

  cleanup-AreGenuine :
      (now time : ℕ) (cache : Store)
      → AreGenuine host now cache
      → AreGenuine host now (cache_cleanup time cache)
  unfolding cache_cleanup
  cleanup-AreGenuine now time [] g = tt
  cleanup-AreGenuine now time ((k, entry) ∷ cache) (first, g) =
      elim (Bool-cases (is_expired time entry)) [
        | inl old ↦ rw (cache_cleanup, old) (cleanup-AreGenuine now time cache g)
        | inr kept ↦ rw (cache_cleanup, kept) (first, cleanup-AreGenuine now time cache g)
      ]

  settle-AreGenuine :
      (now : ℕ) (s : S) (request : Request) (a : Subject) (miss : Miss) (cache : Store)
      → subject host request ≡ some a
      → plan host s request fresh ≡ through (subject_key a) fresh miss
      → Fits a
      → IsSound miss
      → AreGenuine host now cache
      → AreGenuine host now (settle now (subject_key a) cache miss).1
  unfolding settle cache_set
  settle-AreGenuine now s request a (reply r) cache asked made fits sound g = g
  settle-AreGenuine now s request a panicked cache asked made fits sound g = g
  settle-AreGenuine now s request a (store bytes ttl r) cache asked made fits sound g =
      insert-AreGenuine now (subject_key a) (record { expires = now + ttl; bytes = bytes }) cache
        (
          a,
          refl,
          fits,
          record {
            time = now;
            state = s;
            request = request;
            ttl = ttl;
            response = r;
            asked = asked;
            made = made;
            expiry = refl;
            past = omega arith;
            short = sound.1;
          },
        )
        g

  run-AreGenuine :
      (now : ℕ) (s : S) (request : Request) (o : Option Subject) (p : Plan) (cache : Store)
      → subject host request ≡ o
      → plan host s request fresh ≡ p
      → Conforms o p
      → AreGenuine host now cache
      → AreGenuine host now (run now cache p).1
  unfolding run
  run-AreGenuine now s request none (direct r) cache asked made c g = g
  run-AreGenuine now s request none (through key w miss) cache asked made c g = elim c [ ]
  run-AreGenuine now s request (some a) (direct r) cache asked made c g = elim c [ ]
  run-AreGenuine now s request (some a) (through key w miss) cache asked made
        (k, fresh_w, fits, sound) g =
      elim (Option-cases (cache_get now key cache)) [
        | inl nothing ↦
            rw (run, nothing, k)
              (settle-AreGenuine now s request a miss cache asked (rw (k, fresh_w) at made) fits
                sound g)
        | inr (bytes, there) ↦ rw (run, there) g
      ]

  pub reached-AreGenuine :
      (now : ℕ) (cache : Store) → Reaches host now cache → AreGenuine host now cache
  unfolding serve
  reached-AreGenuine now cache (start t) = tt
  reached-AreGenuine now cache (served t t' s request before after reached le e) = rw (← e) (
      run-AreGenuine t' s request _ _ before refl refl (plan-Conforms host s request)
        (later-AreGenuine t t' before le (reached-AreGenuine t before reached)))
  reached-AreGenuine now cache (cleaned t t' before after reached le e) = rw (← e) (
      cleanup-AreGenuine t' t' before
        (later-AreGenuine t t' before le (reached-AreGenuine t before reached)))
