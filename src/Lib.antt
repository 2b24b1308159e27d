-- ===== src/Lib.antt =====
-- The observer of a p2pool-salvium node: the parser of the shares in the node's block cache, the
-- 128-bit difficulty arithmetic, the PPLNS window and the payouts computed from it, the daemon that
-- tracks found blocks and pays for them, and the HTTP API that shows what the daemon stores.
--
-- The node writes each share of its sidechain to a Redis hash. `LoadAllShares` (p2pool/cache.go)
-- reads them all with `ParseCacheEntry` (p2pool/parser.go, over the readers of p2pool/types.go) into
-- a map by sidechain id. The daemon (cmd/daemon/main.go) walks that map from the tip with
-- `CalculatePPLNS` (p2pool/pplns.go), and estimates the miners' payouts from the weights. It reads the
-- found blocks from a Redis list, drops the orphans, matches the coinbase outputs of each new block
-- with the miners by position, and writes what it computes back to Redis. The API (cmd/api/main.go)
-- answers requests from Redis through a cache, with the addresses in its responses shortened.
--
-- The files:
--   Prelude      library names, Boolean tests and lists over the native numbers.
--   Word         uint64 arithmetic with its wrap-around written out; Word/Int Go's int in two's
--                complement; Word/Bits masks and shifts as arithmetic.
--   Difficulty   `Difficulty` of p2pool/types.go: Cmp, Add, Sub, Mul64, Div64, Div. Difficulty/Value
--                reads a difficulty as a number, Difficulty/Division treats the long division.
--   Outcome      what Go code ends in: a value, an error or a panic; errors keep where they were
--                wrapped.
--   Share        `Share`, `Hash` and `Address`; Share/Keys the maps by hash and by address, as
--                association lists.
--   Reader       ReadVarint and its like. Offsets are Go ints, which a length of 2^63 or more makes
--                negative; a slice out of range is a panic. Reader/Runs has the rules for reading
--                at a position, Reader/Varint the encoding of varints, Reader/Bounds the bounds.
--   Parser       ParseCacheEntry with its parts. Parser/Wire and Parser/HeaderWire have an encoder
--                written from the comments on the format; Parser/Skipping, Parser/Mainchain,
--                Parser/Sidechain and Parser/Entry compare the parser with it.
--   Sorting      the exchange sort that p2pool/pplns.go and cmd/daemon/main.go write out.
--   Pplns        CalculatePPLNS with addWeight and finalizeBuckets, the position strings, TopMiners,
--                EstimatedPayout and EstimatedPayoutOrdered. Pplns/Total is about the end of the loop,
--                Pplns/Miners and Pplns/Unique about the map of miners, Pplns/Weight, Pplns/Counts,
--                Pplns/Buckets, Pplns/Payout and Pplns/Top about what their names say.
--   Cache        LoadAllShares, ScanShares and WalkParentChainFromMap of p2pool/cache.go. Cache/Keyed
--                and Cache/Steps have their properties; Cache/Hex has HashFromHex and GetShare, and
--                Cache/Walk WalkParentChain.
--   Base58       the printing of addresses of p2pool/types.go, with Keccak-256 as a parameter.
--   Client       the failover of `jsonrpc` of p2pool/rpc.go. What becomes of each request is a
--                parameter.
--   Expiry       Expiry/Api the cache of cmd/api/cache.go, Expiry/Web that of cmd/web/cache.go.
--   Daemon       cmd/daemon/main.go: Daemon/Cycle syncCycle up to its window, Daemon/Tip findTip,
--                Daemon/Entries the entries of the list of found blocks with Daemon/Decimal for their
--                numbers, Daemon/Finder loadFoundBlocks, Daemon/Orphans removeOrphanedBlocks,
--                Daemon/Payouts the loops of calculatePayouts and RebuildAllPayouts, Daemon/Persist
--                calculatePayouts with its loads and stores, Daemon/Rebuild RebuildAllPayouts,
--                Daemon/Window the rows of storePPLNS, Daemon/Shares storeShares, Daemon/Stats
--                storeHashrate, storeEffort, and the supply of storeNetworkStats with GetSupplyInfo
--                of p2pool/rpc.go. The children of these are named for what they are about. Redis and
--                encoding/json are parameters, with what the code relies on as hypotheses; a reply of
--                the node is an argument. `Sscanf` and `Sprintf` are written out for the formats that
--                the code uses, for texts of ASCII.
--   Api          cmd/api/main.go: Api/Sanitize the regular expression for addresses and
--                sanitizeAddresses, Api/Json and Api/Numbers what the handlers use of encoding/json
--                and strconv, Api/Server the responses and the cache around a handler, Api/Pool,
--                Api/Blocks, Api/Miners, Api/FoundBlock and Api/Stats the handlers, Api/Serve the
--                routes and the service as a whole. A handler is the plan of what it does: to answer
--                at once, or to go through the cache under a key, with what it does on a miss. json
--                on whole texts, float64 and Redis are parameters. A request is one step: it reads
--                one state of Redis, and its two looks at the cache have nothing between them.
--   Tests        runs on concrete inputs.
--
-- Fuel: the varint loop has ten rounds, since a tenth byte that asks for another
-- is refused (the shift is 70 then);
-- the loop over the window has 2160, the size of the window; the long division has 128, its bits.
-- The loops over the counts of the wire format run on the counts themselves.
--
-- Bounds: counters and depths of the window are Go ints far below 2^63 and are numbers here. Data in
-- memory are taken to be shorter than 2^48 bytes where offsets must not wrap, and `make` to panic
-- from that size on.
--
-- Go iterates over maps in any order. The miners of a window stand here in the order in which they
-- were first credited, or in any other: a call of TopMiners takes the order of the list that it is
-- given, and storePPLNS has an order for each of its two calls. Miners of equal weight can change
-- places between such calls.
--
-- A header of version 10 or more with four transactions and no protocol transaction can be taken for
-- one with it, where the first hash begins with 60; the round trips leave such headers out.
--
-- Not modelled: MinerPercentage and the other float64 values, which are only shown; the printing of
-- difficulties; logging; the start and the timer of the daemon, and the part of storePPLNS and of
-- storeStats that copies results into Redis; the start of the API and its router; the web pages,
-- which are HTML around types of other packages.
pub mod Prelude
pub mod Word
pub mod Difficulty
pub mod Outcome
pub mod Share
pub mod Base58
pub mod Reader
pub mod Parser
pub mod Sorting
pub mod Pplns
pub mod Cache
pub mod Client
pub mod Expiry
pub mod Daemon
pub mod Api
pub mod Tests
