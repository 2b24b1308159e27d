-- ===== src/Tests/Api.antt =====
-- The HTTP API on a small database: JSON texts are names that a table decodes, and what is marshalled
-- is the keys of a map or the texts of an array.
use p2pool_salvium_observer.Prelude.{
  ℕ, ◌-◌, ◌*◌, ◌/◌, ◌≡◌, refl, true, Option, some, List, [], ◌∷◌, ◌++◌, arith, replicate, ltb,
}
use p2pool_salvium_observer.Share.{Address}
use p2pool_salvium_observer.Share.Keys.{lookup_hash}
use p2pool_salvium_observer.Base58.{to_base58, to_truncated}
use p2pool_salvium_observer.Daemon.{Text}
use p2pool_salvium_observer.Tests.Redis.{Database, redis}
use p2pool_salvium_observer.Api.Codes.{codes, is_word, is_base58}
use p2pool_salvium_observer.Api.Sanitize.{
  sanitize_addresses, sanitize_from, finish_word, is_address, truncate_match,
}
use p2pool_salvium_observer.Api.Sanitize.Addresses.{sanitize-to_base58}
use p2pool_salvium_observer.Api.Json.{
  Json, null, float, text, array, object, items, entries, elements, fields,
}
use p2pool_salvium_observer.Api.Server.{Host}

abbrev pub block_of : ℕ → Json ℕ
block_of height = object (
    fields (
      (codes "height", float height)
      ∷ (codes "block_height", float height)
      ∷ (codes "amount", float height)
      ∷ []))

abbrev pub table : List (Text × Json ℕ)
table =
    (codes "nothing", null)
    ∷ (codes "blocks", array (items (block_of 6 ∷ block_of 7 ∷ block_of 8 ∷ [])))
    ∷ (
      codes "snapshots",
      object (fields ((codes "7", array (items (text (codes "miner") ∷ []))) ∷ [])),
    )
    ∷ []

abbrev pub keys_of : List (Text × Json ℕ) → Text
keys_of [] = []
keys_of ((k, v) ∷ m) = k ++ (b' ' ∷ keys_of m)

abbrev pub texts_of : List (Json ℕ) → Text
texts_of [] = []
texts_of (text t ∷ vs) = t ++ (b' ' ∷ texts_of vs)
texts_of (v ∷ vs) = texts_of vs

abbrev pub shown : Json ℕ → Option Text
shown (object fs) = some (keys_of (entries fs))
shown (array vs) = some (texts_of (elements vs))
shown (text t) = some (34 ∷ (t ++ (34 ∷ [])))
shown _ = some []

abbrev pub as_float : Json ℕ → ℕ
as_float (float n) = n
as_float _ = 0

abbrev pub host : Host ℕ Database
host = record {
  parse = λ t. lookup_hash t table;
  marshal = shown;
  decode_request = λ body. some body;
  zero_float = 0;
  hundred = 100;
  float_less = ltb;
  float_sub = ◌-◌;
  float_div = ◌/◌;
  float_mul = ◌*◌;
  float_of = as_float;
  to_uint64 = λ n. n;
  redis = redis;
  ping = λ s. true;
}

abbrev pub no_hash : List ℕ → List ℕ
no_hash bytes = replicate 32 0

abbrev pub address : Address
address = record { spend_public_key = replicate 32 7; view_public_key = replicate 32 9 }

-- An address of 93 characters, and its truncated form.
abbrev pub long : Text
long = codes "SC1" ++ replicate 90 b'x'

abbrev pub shortened : Text
shortened = codes "SC1xxxxx...xxxxxxxx"

abbrev pub quote : Text
quote = 34 ∷ []

unfoldable pub sanitizing : Unit {0}
unfolding sanitize_addresses sanitize_from finish_word is_address truncate_match is_word is_base58
sanitizing = tt

sanitize_run : sanitize_addresses (quote ++ (long ++ quote)) ≡ quote ++ (shortened ++ quote)
unfolding sanitizing
sanitize_run = refl

-- A run of base 58 that is too long, and an address behind a letter, are left alone.
sanitize_other :
    (sanitize_addresses (long ++ replicate 61 b'x') ≡ long ++ replicate 61 b'x')
    × (sanitize_addresses (b'n' ∷ long) ≡ b'n' ∷ long)
unfolding sanitizing
sanitize_other = (refl, refl)

sanitize-to_base58_example :
    sanitize_addresses (quote ++ (to_base58 no_hash address ++ quote))
    ≡ sanitize_addresses quote ++ (to_truncated no_hash address ++ sanitize_addresses quote)
unfolding is_word
sanitize-to_base58_example =
    sanitize-to_base58 no_hash address quote quote (λ _. refl) refl refl (omega arith) refl refl
