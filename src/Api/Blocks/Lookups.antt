-- ===== src/Api/Blocks/Lookups.antt =====
-- A share by its id (cmd/api/main.go), however the id is written.
use p2pool_salvium_observer.Prelude.{
  ℕ, ◌-◌, ◌/◌, ◌%◌, ◌<◌, ◌≡◌, refl, ◌&&◌, [], ◌∷◌, ◌++◌, arith, map, leb, if◌then◌else◌, All,
}
use p2pool_salvium_observer.Share.{Hash}
use p2pool_salvium_observer.Cache.Hex.{
  to_lower, hex_digit, hash_string, lower-hash_string, no_prefix,
}
use p2pool_salvium_observer.Api.Codes.{codes}
use p2pool_salvium_observer.Api.Server.{Host, Response}
use p2pool_salvium_observer.Api.Blocks.{normalize_id, handle_share}

abbrev pub to_upper : ℕ → ℕ
to_upper c = if leb b'a' c && leb c b'z' then c - 32 else c

lower-upper : (n : ℕ) → n < 16 → to_lower (to_upper (hex_digit n)) ≡ hex_digit n
lower-upper n h = ground arith

lower-upper_hash :
    (h : Hash) → All (λ b. b < 256) h → map to_lower (map to_upper (hash_string h)) ≡ hash_string h
unfolding hash_string
lower-upper_hash [] v = refl
lower-upper_hash (b ∷ bs) v =
    rw
      (
        lower-upper (b / 16) (omega (arith, v.0)),
        lower-upper (b % 16) (omega arith),
        lower-upper_hash bs v.1,
      )
      refl

-- An id in upper case behind 0x is the id that the daemon stores: the handler does the same for both.
pub handle_share-normalized :
    {F S : Type 0} (host : Host F S) (s : S) (h : Hash) (w : Response)
    → All (λ b. b < 256) h
    → handle_share host s (codes "0x" ++ map to_upper (hash_string h)) w
      ≡ handle_share host s (hash_string h) w
unfolding handle_share normalize_id p2pool_salvium_observer.Share.bytes_eq
handle_share-normalized host s h w v =
    rw (lower-upper_hash h v, no_prefix h, lower-hash_string h v) refl
