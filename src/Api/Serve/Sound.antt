-- ===== src/Api/Serve/Sound.antt =====
-- What every handler of cmd/api/main.go keeps to: its key, its time to live, and sanitized bodies.
use p2pool_salvium_observer.Prelude.{
  ℕ, ◌≡◌, ◌≤◌, ◌<◌, refl, Option, none, some, [], arith, Option-cases, inl, inr, length,
}
use p2pool_salvium_observer.Daemon.{Text}
use p2pool_salvium_observer.Api.Sanitize.{sanitize_addresses}
use p2pool_salvium_observer.Api.Sanitize.Matches.{sanitize-sanitize_addresses, short-sanitize}
use p2pool_salvium_observer.Api.Json.{Json}
use p2pool_salvium_observer.Api.Server.{
  Host, Response, fresh, set_header, write, write_error, error_body, unmarshal, json_type, missed,
  write_json, Miss, reply, store, panicked, Plan, direct, through, or_else, finish_json, finish_raw,
  cache_ttl_long,
}
use p2pool_salvium_observer.Api.Serve.Subjects.{Subject, Fits, subject_key}

-- The body stays as it is when it is sanitized again.
abbrev pub IsClean : Response → Type 0
IsClean r = sanitize_addresses r.body ≡ r.body

abbrev pub IsSound : Miss → Type 0
IsSound (reply r) = IsClean r
IsSound (store bytes ttl r) = IsClean r × (ttl ≤ cache_ttl_long)
IsSound panicked = Unit {0}

-- What the plan of a request with a subject must be.
abbrev pub Conforms : Option Subject → Plan → Type 0
Conforms none (direct r) = IsClean r
Conforms none (through key w miss) = ⊥
Conforms (some a) (direct r) = ⊥
Conforms (some a) (through key w miss) = (key ≡ subject_key a) × (w ≡ fresh) × Fits a × IsSound miss

pub sanitized-IsClean :
    (bytes : Text) (w : Response) → w.body ≡ [] → IsClean (write (sanitize_addresses bytes) w)
unfolding write
sanitized-IsClean bytes w e = rw e (sanitize-sanitize_addresses bytes)

pub or_else-IsSound :
    {A : Type 0} (o : Option A) (failed : Miss) (next : A → Miss)
    → IsSound failed
    → ((a : A) → IsSound (next a))
    → IsSound (or_else o failed next)
or_else-IsSound none failed next h k = h
or_else-IsSound (some a) failed next h k = k a

-- The messages of the code.
pub error-IsClean :
    (status : ℕ) (msg : Text)
    → length (error_body msg) < 93
    → IsClean (write_error status msg fresh)
unfolding write_error write set_header
error-IsClean status msg h = short-sanitize (error_body msg) h

module _ {F S : Type 0} (host : Host F S) where
  pub json-IsClean : (v : Json F) (w : Response) → w.body ≡ [] → IsClean (write_json host v w)
  unfolding write_json set_header
  json-IsClean v w e = elim (Option-cases (host.marshal v)) [
    | inl failed ↦ rw (IsClean, write_json, failed, e) (short-sanitize [] (omega arith))
    | inr (bytes, done) ↦ rw (IsClean, write_json, done) (sanitized-IsClean bytes (json_type w) e)
  ]

  pub finish_json-IsSound :
      (ttl : ℕ) (v : Json F) → ttl ≤ cache_ttl_long → IsSound (finish_json host ttl v fresh)
  unfolding finish_json set_header
  finish_json-IsSound ttl v le = elim (Option-cases (host.marshal v)) [
    | inl failed ↦ rw (IsSound, failed) (json-IsClean v (missed fresh) refl)
    | inr (bytes, done) ↦ rw (IsSound, done) (json-IsClean v (missed fresh) refl, le)
  ]

  pub finish_raw-IsSound :
      (bytes : Text) (ttl : ℕ) (v : Json F)
      → ttl ≤ cache_ttl_long
      → IsSound (finish_raw host bytes ttl v fresh)
  unfolding finish_raw set_header
  finish_raw-IsSound bytes ttl v le = (json-IsClean v (missed fresh) refl, le)

  -- A value is read and decoded, or else there is an error of a short message.
  pub decoded-IsSound :
      {A : Type 0} (read : Option Text) (failed : Miss) (into : Json F → Option A) (msg : Text)
      (next : Text → A → Miss)
      → IsSound failed
      → length (error_body msg) < 93
      → ((bytes : Text) (a : A) → IsSound (next bytes a))
      → IsSound (
          or_else read failed λ bytes.
            or_else (unmarshal host into bytes) (reply (write_error 500 msg fresh)) (next bytes))
  decoded-IsSound read failed into msg next failed_sound short sound =
      or_else-IsSound read failed _ failed_sound λ bytes.
        or_else-IsSound (unmarshal host into bytes) _ (next bytes) (error-IsClean 500 msg short)
          (sound bytes)
