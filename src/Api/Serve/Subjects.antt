-- ===== src/Api/Serve/Subjects.antt =====
-- What a request asks for, as its key in the response cache tells it.
use p2pool_salvium_observer.Prelude.{
  ℕ, ◌≡◌, ◌<◌, ◌^◌, ◌==◌, if◌then◌else◌, refl, ap, sym, ◌∙◌, Option, none, some, [], ◌∷◌, ◌++◌,
}
use p2pool_salvium_observer.Daemon.{Text}
use p2pool_salvium_observer.Daemon.Decimal.{print_uint}
use p2pool_salvium_observer.Expiry.Api.{Key}
use p2pool_salvium_observer.Api.Codes.{codes}
use p2pool_salvium_observer.Api.Numbers.{parse_uint, parse_uint-print_uint}
use p2pool_salvium_observer.Api.Server.{Host}
use p2pool_salvium_observer.Api.Blocks.{normalize_id, or_fifty}
use p2pool_salvium_observer.Api.Serve.{
  Request, health, pool_info, network_stats, pool_stats, pplns, effort, tip, stats, found_blocks,
  side_blocks, share, block_by_height, found_block, miner_info, miner_shares, payouts, lookup_info,
  lookup_shares, lookup_history,
}

-- One constructor for each response that may be cached.
pub data Subject : Type 0 where
  the_pool the_network the_pool_stats the_window the_effort the_tip the_stats : Subject
  some_blocks some_shares : Text → Subject
  one_share one_height : Text → Subject
  one_block : ℕ → Subject
  info_of shares_of payouts_of : Text → Subject

abbrev pub subject_key : Subject → Key
subject_key the_pool = codes "api:pool_info"
subject_key the_network = codes "api:network:stats"
subject_key the_pool_stats = codes "api:pool:stats"
subject_key the_window = codes "api:pplns"
subject_key the_effort = codes "api:pool:effort"
subject_key the_tip = codes "api:tip"
subject_key the_stats = codes "api:stats"
subject_key (some_blocks limit) = codes "api:found_blocks:" ++ limit
subject_key (some_shares limit) = codes "api:side_blocks:" ++ limit
subject_key (one_share id) = codes "api:share:" ++ id
subject_key (one_height height) = codes "api:block_height:" ++ height
subject_key (one_block height) = codes "api:found_block:" ++ print_uint height
subject_key (info_of addr) = codes "api:miner_info:" ++ addr
subject_key (shares_of addr) = codes "api:miner_shares:" ++ addr
subject_key (payouts_of addr) = codes "api:payouts:" ++ addr

-- A miner by an address that is not empty.
abbrev pub named : (Text → Subject) → Option Text → Option Subject
named f none = none
named f (some []) = none
named f (some (c ∷ addr)) = some (f (c ∷ addr))

abbrev pub numbered : Option ℕ → Option Subject
numbered none = none
numbered (some height) = some (one_block height)

-- `none` for a request that is answered without the cache.
unfoldable pub subject : {F S : Type 0} → Host F S → Request → Option Subject
subject host health = none
subject host pool_info = some the_pool
subject host network_stats = some the_network
subject host pool_stats = some the_pool_stats
subject host pplns = some the_window
subject host effort = some the_effort
subject host tip = some the_tip
subject host stats = some the_stats
subject host (found_blocks limit) = some (some_blocks limit)
subject host (side_blocks limit) = some (some_shares (or_fifty limit))
subject host (share id) = some (one_share (normalize_id id))
subject host (block_by_height height) = some (one_height height)
subject host (found_block height) = numbered (parse_uint height)
subject host (miner_info addr) = named info_of (some addr)
subject host (miner_shares addr) = some (shares_of addr)
subject host (payouts addr) = some (payouts_of addr)
subject host (lookup_info body) = named info_of (host.decode_request body)
subject host (lookup_shares body) = named shares_of (host.decode_request body)
subject host (lookup_history body) = named payouts_of (host.decode_request body)

-- A height is a uint64.
abbrev pub Fits : Subject → Type 0
Fits (one_block height) = height < 2 ^ 64
Fits _ = Unit {0}

strip : Text → Text → Option Text
strip [] key = some key
strip (c ∷ prefix) [] = none
strip (c ∷ prefix) (d ∷ key) = let rest = strip prefix key in if c == d then rest else none

try : Option Text → (Text → Option Subject) → Option Subject → Option Subject
try (some rest) f other = f rest
try none f other = other

exactly : Subject → Text → Option Subject
exactly a [] = some a
exactly a (c ∷ rest) = none

plain_subject : Key → Option Subject
unfolding strip try exactly
plain_subject key = try (strip (codes "api:pool_info") key) (exactly the_pool) (
    try (strip (codes "api:network:stats") key) (exactly the_network) (
      try (strip (codes "api:pool:stats") key) (exactly the_pool_stats) (
        try (strip (codes "api:pplns") key) (exactly the_window) (
          try (strip (codes "api:pool:effort") key) (exactly the_effort) (
            try (strip (codes "api:tip") key) (exactly the_tip)
              (try (strip (codes "api:stats") key) (exactly the_stats) none))))))

-- The subject that a key stands for.
subject_of : Key → Option Subject
unfolding strip try exactly
subject_of key =
    try (strip (codes "api:found_blocks:") key) (λ l. some (some_blocks l))
      (try (strip (codes "api:side_blocks:") key) (λ l. some (some_shares l))
        (try (strip (codes "api:share:") key) (λ id. some (one_share id))
          (try (strip (codes "api:block_height:") key) (λ h. some (one_height h))
            (try (strip (codes "api:found_block:") key) (λ h. numbered (parse_uint h))
              (try (strip (codes "api:miner_info:") key) (λ a. some (info_of a))
                (try (strip (codes "api:miner_shares:") key) (λ a. some (shares_of a))
                  (try (strip (codes "api:payouts:") key) (λ a. some (payouts_of a))
                    (plain_subject key))))))))

subject_of-subject_key : (a : Subject) → Fits a → subject_of (subject_key a) ≡ some a
unfolding subject_of plain_subject
subject_of-subject_key (one_block height) h = rw (parse_uint-print_uint height h) refl
subject_of-subject_key _ h = refl

-- Requests for different things have different keys.
pub subject_key-injective :
    (a b : Subject) → subject_key a ≡ subject_key b → Fits a → Fits b → a ≡ b
subject_key-injective a b e h k =
    some-injective (sym (subject_of-subject_key a h) ∙ ap subject_of e ∙ subject_of-subject_key b k)
  where
    some-injective : some a ≡ some b → a ≡ b
    some-injective same = cc
